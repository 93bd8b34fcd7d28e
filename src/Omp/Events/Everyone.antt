-- ===== src/Omp/Events/Everyone.antt =====
-- What holds of every worker after an access of core 0.
use snitch_cluster_chips_it.Prelude.{
  count-all, ℕ, suc, ◌<◌, ◌≡◌, inl, inr, true, false, ◌==◌, ==_iff, arith, refl, sym, ◌∙◌,
  Bool-cases, true-false,
}
use snitch_cluster_chips_it.Omp.Events.{
  region, exit, fill, wake, raise_flag, wake_exit, Master, await_workers, idle, load_loop,
  await_wfi, store, set_interrupts, test_empty, reset_fini, call_own, load_fini, await_fini,
  reset_nthreads, exit_test, ended, returned, awaited, with_interrupt, System, finished,
  master_step,
}
use snitch_cluster_chips_it.Omp.Events.Modes.{mode, sleeps}
use snitch_cluster_chips_it.Omp.Events.Turns.{
  boot-settled, settled-quiet, settled-fill, quiet-running, quiet-exiting, running-finished,
  settled-finished, finished-settled, settled-returned,
}
use snitch_cluster_chips_it.Omp.Events.Places.{is_alone, runs_exit, for_exit, Compares}
use snitch_cluster_chips_it.Omp.Events.Rounds.{sleeping, is_counted, runs, Each, Inv}

module _ (n : ℕ) (s : System) where
  abbrev pub EachAfter : Master → Type 0
  EachAfter m =
      Each n (mode (master_step n s m).master) (master_step n s m).unit.event
        (master_step n s m).past (master_step n s m).workers

  -- All workers sleep when as many sleep as have joined.
  all_sleep :
      (m : Master) (c : ℕ)
      → Inv n m s
      → c ≡ n
      → s.unit.workers_wfi == c ≡ true
      → (j : ℕ) → j < n
      → sleeps (s.workers j).phase ≡ true
  all_sleep m c i e w = λ j lt.
      count-all sleeping s.workers n j (sym i.sleeping_ones ∙ (==_iff s.unit.workers_wfi c).0 w ∙ e)
        lt

  pub master_step-each : (m : Master) → Inv n m s → EachAfter m
  unfolding master_step mode returned awaited finished with_interrupt Compares is_alone runs
      runs_exit for_exit
  master_step-each await_workers i = elim (Bool-cases (s.unit.workers_wfi == n)) [
    | inl e ↦ rw e (λ j lt.
        boot-settled (suc j) s.unit.event s.past _ _ _ (i.each j lt)
          (all_sleep await_workers n i refl e j lt))
    | inr e ↦ rw e i.each
  ]
  master_step-each (await_wfi c (wake k)) i = elim (Bool-cases (s.unit.workers_wfi == c)) [
    | inl e ↦ rw e (λ j lt.
        settled-quiet (suc j) s.unit.event s.past _ _ _ (i.each j lt)
          (all_sleep (await_wfi c (wake k)) c i i.place.compares e j lt))
    | inr e ↦ rw e i.each
  ]
  master_step-each (await_wfi c wake_exit) i = elim (Bool-cases (s.unit.workers_wfi == c)) [
    | inl e ↦ rw e (λ j lt.
        settled-quiet (suc j) s.unit.event s.past _ _ _ (i.each j lt)
          (all_sleep (await_wfi c wake_exit) c i i.place.compares e j lt))
    | inr e ↦ rw e i.each
  ]
  master_step-each (await_wfi c (fill e)) i = elim (Bool-cases (s.unit.workers_wfi == c)) [
    | inl e ↦ rw e i.each
    | inr e ↦ rw e i.each
  ]
  master_step-each (await_wfi c raise_flag) i = elim (Bool-cases (s.unit.workers_wfi == c)) [
    | inl e ↦ rw e i.each
    | inr e ↦ rw e i.each
  ]
  master_step-each (store (fill e)) i =
      λ j lt. settled-fill (suc j) s.unit.event s.past _ _ _ e (i.each j lt)
  master_step-each (set_interrupts (wake k)) i =
      λ j lt. quiet-running (suc j) s.unit.event s.past _ _ _ (i.each j lt)
  master_step-each (set_interrupts wake_exit) i =
      λ j lt. quiet-exiting (suc j) s.unit.event s.past _ _ _ (i.each j lt)
  master_step-each (test_empty region) i = elim (Bool-cases (s.unit.event.nthreads == 0)) [
    | inl e ↦ rw e (λ j lt.
        settled-returned (suc j) s.unit.event s.past _ _ _ ((==_iff s.unit.event.nthreads 0).0 e)
          (i.each j lt))
    | inr e ↦ rw e i.each
  ]
  master_step-each (test_empty exit) i = elim (Bool-cases (s.unit.event.nthreads == 0)) [
    | inl e ↦ rw e i.each
    | inr e ↦ rw e i.each
  ]
  master_step-each (call_own false k) i = λ j lt.
      settled-finished (suc j) s.unit.event s.past _ _ _ (omega arith) (i.place.alone refl)
        (i.each j lt)
  master_step-each (await_fini c k) i = elim (Bool-cases (s.unit.fini_count == c)) [
    | inl e ↦ rw e (λ j lt. running-finished (suc j) s.unit.event s.past _ _ _ (i.each j lt) (
        count-all is_counted s.workers n j
          (sym (i.counted_ones refl) ∙ (==_iff s.unit.fini_count c).0 e ∙ i.place.compares) lt))
    | inr e ↦ rw e i.each
  ]
  master_step-each (reset_nthreads region) i = λ j lt.
      finished-settled (suc j) s.unit.event s.past _ _ _ (record s.unit.event { nthreads = 0 })
        (i.each j lt)
  master_step-each (reset_nthreads exit) i = absurd (true-false i.place.no_exit)
  master_step-each exit_test i = elim (Bool-cases (s.unit.event.nthreads == 0)) [
    | inl e ↦ rw e i.each
    | inr e ↦ rw e i.each
  ]
  master_step-each idle i = i.each
  master_step-each (load_loop (fill e)) i = i.each
  master_step-each (load_loop (wake k)) i = i.each
  master_step-each (load_loop raise_flag) i = i.each
  master_step-each (load_loop wake_exit) i = i.each
  master_step-each (store (wake k)) i = i.each
  master_step-each (store raise_flag) i = i.each
  master_step-each (store wake_exit) i = i.each
  master_step-each (set_interrupts (fill e)) i = i.each
  master_step-each (set_interrupts raise_flag) i = i.each
  master_step-each (reset_fini true k) i = i.each
  master_step-each (reset_fini false k) i = i.each
  master_step-each (call_own true k) i = i.each
  master_step-each (load_fini k) i = i.each
  master_step-each ended i = i.each
