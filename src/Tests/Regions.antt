-- ===== src/Tests/Regions.antt =====
-- The event unit with two workers, of which one is in the team of a region.
use snitch_cluster_chips_it.Prelude.{
  ℕ, suc, ◌≤◌, ◌<◌, ◌≡◌, refl, arith, List, [], ◌∷◌, ◌++◌, map, replace,
}
use snitch_cluster_chips_it.Omp.Events.{
  region, returned, awaited, reset_nthreads, worker_step, master_step, with_interrupt, begin, Actor,
  parallel_region, master, worker, step, run, initial,
}
use snitch_cluster_chips_it.Omp.Events.Modes.{mine}
use snitch_cluster_chips_it.Omp.Events.Regions.{regions_lem}
use snitch_cluster_chips_it.Omp.Events.Ends.{turns, region_ends}

unfoldable seven : ℕ → List ℕ → List ℕ
seven j l = j ∷ j ∷ j ∷ j ∷ j ∷ j ∷ j ∷ l

abbrev both : List ℕ
both = seven 0 (seven 1 [])

unfoldable ten_steps : List Actor
ten_steps =
    master ∷ master ∷ master ∷ master ∷ master ∷ master ∷ master ∷ master ∷ master ∷ master ∷ []

-- The workers go to sleep, core 0 pushes an event for two threads, wakes the workers and waits.
abbrev pushed_and_woken : List Actor
pushed_and_woken =
    map worker both
    ++ (master
        ∷ parallel_region (record { fn = 0x80000000; data_ptr = 0x1000; argc = 1; nthreads = 2 })
        ∷ ten_steps)

abbrev a_region : List Actor
a_region = pushed_and_woken ++ (map worker both ++ (master ∷ master ∷ []))

regions_example :
    let s = run 2 a_region initial in
    (s.master_called ≡ mine 0 s.pushed)
    × ((j : ℕ) → j < 2 → (s.workers j).called ≡ mine (suc j) s.pushed)
unfolding seven ten_steps run step begin worker_step master_step returned awaited with_interrupt
    replace
regions_example = regions_lem 2 a_region (omega arith) refl

both-seven : (j : ℕ) → j < 2 → 7 ≤ turns j both
unfolding seven turns
both-seven j lt = ground arith

ends_example :
    (step 2 master (run 2 (map worker both) (run 2 pushed_and_woken initial))).master
    ≡ reset_nthreads region
unfolding seven ten_steps run step begin worker_step master_step returned awaited with_interrupt
    replace
ends_example = region_ends 2 2 region pushed_and_woken both (omega arith) refl both-seven
