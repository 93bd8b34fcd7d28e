-- ===== src/Omp/Events/Steps.antt =====
-- Core 0 keeps what holds between two steps.
use snitch_cluster_chips_it.Prelude.{
  count, all-count, none-count, count-cong, ℕ, suc, ◌≡◌, true, false, arith, refl, sym, ap, ◌∙◌,
  true-false,
}
use snitch_cluster_chips_it.Omp.Events.{
  region, exit, fill, wake, raise_flag, wake_exit, Master, await_workers, idle, load_loop,
  await_wfi, store, set_interrupts, test_empty, reset_fini, call_own, load_fini, await_fini,
  reset_nthreads, exit_test, ended, returned, awaited, with_interrupt, System, master_step,
}
use snitch_cluster_chips_it.Omp.Events.Modes.{mode, sleeps, joined}
use snitch_cluster_chips_it.Omp.Events.Turns.{settled-joined, quiet-uncounted, running-joined}
use snitch_cluster_chips_it.Omp.Events.Places.{master_step-Place, all_joined, is_cleared, wakes}
use snitch_cluster_chips_it.Omp.Events.Rounds.{
  sleeping, in_loop, is_counted, runs, Inv, master_step-Kept,
}
use snitch_cluster_chips_it.Omp.Events.Everyone.{master_step-each}

module _ (n : ℕ) (s : System) where
  all_joined-joined : (m : Master) → Inv n m s → all_joined m ≡ true → s.unit.workers_in_loop ≡ n
  unfolding all_joined mode
  all_joined-joined await_workers i h = absurd (true-false (sym h))
  all_joined-joined idle i h =
      i.joined_ones
      ∙ all-count in_loop s.workers n
          (λ j lt. settled-joined (suc j) s.unit.event s.past _ _ _ (i.each j lt))
  all_joined-joined (load_loop (fill e)) i h =
      i.joined_ones
      ∙ all-count in_loop s.workers n
          (λ j lt. settled-joined (suc j) s.unit.event s.past _ _ _ (i.each j lt))
  all_joined-joined (load_loop (wake k)) i h =
      i.joined_ones
      ∙ all-count in_loop s.workers n
          (λ j lt. settled-joined (suc j) s.unit.event s.past _ _ _ (i.each j lt))
  all_joined-joined (load_loop raise_flag) i h =
      i.joined_ones
      ∙ all-count in_loop s.workers n
          (λ j lt. settled-joined (suc j) s.unit.event s.past _ _ _ (i.each j lt))
  all_joined-joined (load_loop wake_exit) i h =
      i.joined_ones
      ∙ all-count in_loop s.workers n
          (λ j lt. settled-joined (suc j) s.unit.event s.past _ _ _ (i.each j lt))
  all_joined-joined (await_wfi c (fill e)) i h =
      i.joined_ones
      ∙ all-count in_loop s.workers n
          (λ j lt. settled-joined (suc j) s.unit.event s.past _ _ _ (i.each j lt))
  all_joined-joined (await_wfi c (wake k)) i h =
      i.joined_ones
      ∙ all-count in_loop s.workers n
          (λ j lt. settled-joined (suc j) s.unit.event s.past _ _ _ (i.each j lt))
  all_joined-joined (await_wfi c raise_flag) i h =
      i.joined_ones
      ∙ all-count in_loop s.workers n
          (λ j lt. settled-joined (suc j) s.unit.event s.past _ _ _ (i.each j lt))
  all_joined-joined (await_wfi c wake_exit) i h =
      i.joined_ones
      ∙ all-count in_loop s.workers n
          (λ j lt. settled-joined (suc j) s.unit.event s.past _ _ _ (i.each j lt))
  all_joined-joined (store (fill e)) i h =
      i.joined_ones
      ∙ all-count in_loop s.workers n
          (λ j lt. settled-joined (suc j) s.unit.event s.past _ _ _ (i.each j lt))
  all_joined-joined (store (wake k)) i h =
      i.joined_ones
      ∙ all-count in_loop s.workers n
          (λ j lt. settled-joined (suc j) s.unit.event s.past _ _ _ (i.each j lt))
  all_joined-joined (store raise_flag) i h =
      i.joined_ones
      ∙ all-count in_loop s.workers n
          (λ j lt. settled-joined (suc j) s.unit.event s.past _ _ _ (i.each j lt))
  all_joined-joined (store wake_exit) i h =
      i.joined_ones
      ∙ all-count in_loop s.workers n
          (λ j lt. settled-joined (suc j) s.unit.event s.past _ _ _ (i.each j lt))
  all_joined-joined (set_interrupts (fill e)) i h = absurd (true-false (sym h))
  all_joined-joined (set_interrupts (wake k)) i h = absurd (true-false (sym h))
  all_joined-joined (set_interrupts raise_flag) i h = absurd (true-false (sym h))
  all_joined-joined (set_interrupts wake_exit) i h = absurd (true-false (sym h))
  all_joined-joined (test_empty region) i h =
      i.joined_ones
      ∙ all-count in_loop s.workers n
          (λ j lt. settled-joined (suc j) s.unit.event s.past _ _ _ (i.each j lt))
  all_joined-joined (test_empty exit) i h =
      i.joined_ones
      ∙ all-count in_loop s.workers n
          (λ j lt. settled-joined (suc j) s.unit.event s.past _ _ _ (i.each j lt))
  all_joined-joined (reset_fini true k) i h =
      i.joined_ones
      ∙ all-count in_loop s.workers n
          (λ j lt. settled-joined (suc j) s.unit.event s.past _ _ _ (i.each j lt))
  all_joined-joined (reset_fini false k) i h =
      i.joined_ones
      ∙ all-count in_loop s.workers n
          (λ j lt. settled-joined (suc j) s.unit.event s.past _ _ _ (i.each j lt))
  all_joined-joined (call_own true k) i h =
      i.joined_ones
      ∙ all-count in_loop s.workers n
          (λ j lt. running-joined (suc j) s.unit.event s.past _ _ _ (i.each j lt))
  all_joined-joined (call_own false k) i h =
      i.joined_ones
      ∙ all-count in_loop s.workers n
          (λ j lt. settled-joined (suc j) s.unit.event s.past _ _ _ (i.each j lt))
  all_joined-joined (load_fini k) i h =
      i.joined_ones
      ∙ all-count in_loop s.workers n
          (λ j lt. running-joined (suc j) s.unit.event s.past _ _ _ (i.each j lt))
  all_joined-joined (await_fini c k) i h =
      i.joined_ones
      ∙ all-count in_loop s.workers n
          (λ j lt. running-joined (suc j) s.unit.event s.past _ _ _ (i.each j lt))
  all_joined-joined (reset_nthreads region) i h = absurd (true-false (sym h))
  all_joined-joined (reset_nthreads exit) i h = absurd (true-false (sym h))
  all_joined-joined exit_test i h =
      i.joined_ones
      ∙ all-count in_loop s.workers n
          (λ j lt. settled-joined (suc j) s.unit.event s.past _ _ _ (i.each j lt))
  all_joined-joined ended i h = absurd (true-false (sym h))

  master_step-counted :
      (m : Master)
      → Inv n m s
      → runs (mode (master_step n s m).master) ≡ true
      → (master_step n s m).unit.fini_count ≡ count is_counted n (master_step n s m).workers
  unfolding master_step mode runs returned awaited with_interrupt is_cleared wakes
  master_step-counted await_workers i h = ground (arith, h)
  master_step-counted idle i h = ground (arith, h)
  master_step-counted (load_loop (fill e)) i h = ground (arith, h)
  master_step-counted (load_loop (wake k)) i h = ground (arith, h)
  master_step-counted (load_loop raise_flag) i h = ground (arith, h)
  master_step-counted (load_loop wake_exit) i h = ground (arith, h)
  master_step-counted (await_wfi c (fill e)) i h = ground (arith, h)
  master_step-counted (await_wfi c (wake k)) i h = ground (arith, h)
  master_step-counted (await_wfi c raise_flag) i h = ground (arith, h)
  master_step-counted (await_wfi c wake_exit) i h = ground (arith, h)
  master_step-counted (store (fill e)) i h = ground (arith, h)
  master_step-counted (store (wake k)) i h = ground (arith, h)
  master_step-counted (store raise_flag) i h = ground (arith, h)
  master_step-counted (store wake_exit) i h = ground (arith, h)
  master_step-counted (set_interrupts (fill e)) i h = ground (arith, h)
  master_step-counted (set_interrupts (wake k)) i h =
      i.place.cleared refl
      ∙ sym (
          none-count is_counted _ n
            (λ j lt. quiet-uncounted (suc j) s.unit.event s.past _ _ _ (i.each j lt)))
  master_step-counted (set_interrupts raise_flag) i h = ground (arith, h)
  master_step-counted (set_interrupts wake_exit) i h = ground (arith, h)
  master_step-counted (test_empty region) i h = ground (arith, h)
  master_step-counted (test_empty exit) i h = ground (arith, h)
  master_step-counted (reset_fini true k) i h = ground (arith, h)
  master_step-counted (reset_fini false k) i h = ground (arith, h)
  master_step-counted (call_own true k) i h = i.counted_ones refl
  master_step-counted (call_own false k) i h = ground (arith, h)
  master_step-counted (load_fini k) i h = i.counted_ones refl
  master_step-counted (await_fini c k) i h = i.counted_ones refl
  master_step-counted (reset_nthreads region) i h = ground (arith, h)
  master_step-counted (reset_nthreads exit) i h = ground (arith, h)
  master_step-counted exit_test i h = ground (arith, h)
  master_step-counted ended i h = ground (arith, h)

  pub master_step-Inv :
      (m : Master) → Inv n m s → Inv n (master_step n s m).master (master_step n s m)
  master_step-Inv m i =
      let k = master_step-Kept n m s in
      record {
        sleeping_ones =
            k.wfi_count
            ∙ i.sleeping_ones
            ∙ sym (count-cong sleeping _ _ (λ j. ap sleeps (k.phases j)) n);
        joined_ones =
            k.loop_count
            ∙ i.joined_ones
            ∙ sym (count-cong in_loop _ _ (λ j. ap joined (k.phases j)) n);
        counted_ones = master_step-counted m i;
        each = master_step-each n s m i;
        place = master_step-Place n m s (all_joined-joined m i) i.place;
      }
