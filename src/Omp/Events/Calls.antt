-- ===== src/Omp/Events/Calls.antt =====
-- The calls of `parallelRegion` and `eu_exit` on core 0.
use snitch_cluster_chips_it.Prelude.{ℕ, arith}
use snitch_cluster_chips_it.Omp.Events.{
  Event, fill, Master, await_workers, idle, load_loop, await_wfi, store, set_interrupts, test_empty,
  reset_fini, call_own, load_fini, await_fini, reset_nthreads, exit_test, ended, System, begin,
}
use snitch_cluster_chips_it.Omp.Events.Modes.{mode}
use snitch_cluster_chips_it.Omp.Events.Places.{
  has_called, is_pending, is_cleared, is_alone, raised, runs_exit, wakes, ends, for_exit,
  wakes_for_exit, Compares,
}
use snitch_cluster_chips_it.Omp.Events.Rounds.{runs, Inv}

module _ (n : ℕ) (s : System) where
  -- A function is called on core 0 only when it is in none.
  remaster : (m to : Master) → Inv n m s → Inv n m (record s { master = to })
  remaster m to i = record {
    sleeping_ones = i.sleeping_ones;
    joined_ones = i.joined_ones;
    counted_ones = i.counted_ones;
    each = i.each;
    place = i.place;
  }

  region-begin :
      (e : Event)
      → Inv n idle s
      → Inv n (load_loop (fill e)) (record s { master = load_loop (fill e) })
  unfolding mode runs has_called is_pending is_cleared is_alone raised runs_exit wakes ends for_exit
      wakes_for_exit Compares
  region-begin e i = record {
    sleeping_ones = i.sleeping_ones;
    joined_ones = i.joined_ones;
    counted_ones = i.counted_ones;
    each = i.each;
    place = ground (arith, i.place.own, i.place.dispatched, i.place.free, i.place.flag);
  }

  exit-begin : Inv n idle s → Inv n exit_test (record s { master = exit_test })
  unfolding mode runs has_called is_pending is_cleared is_alone raised runs_exit wakes ends for_exit
      wakes_for_exit Compares
  exit-begin i = record {
    sleeping_ones = i.sleeping_ones;
    joined_ones = i.joined_ones;
    counted_ones = i.counted_ones;
    each = i.each;
    place = ground (arith, i.place.own, i.place.dispatched, i.place.free, i.place.flag);
  }

  pub begin-region :
      (m : Master) (e : Event)
      → Inv n m s
      → Inv n (begin (load_loop (fill e)) m) (record s { master = begin (load_loop (fill e)) m })
  unfolding begin
  begin-region await_workers e i = remaster await_workers await_workers i
  begin-region idle e i = region-begin e i
  begin-region (load_loop a) e i = remaster (load_loop a) (load_loop a) i
  begin-region (await_wfi c a) e i = remaster (await_wfi c a) (await_wfi c a) i
  begin-region (store a) e i = remaster (store a) (store a) i
  begin-region (set_interrupts a) e i = remaster (set_interrupts a) (set_interrupts a) i
  begin-region (test_empty k) e i = remaster (test_empty k) (test_empty k) i
  begin-region (reset_fini team k) e i = remaster (reset_fini team k) (reset_fini team k) i
  begin-region (call_own team k) e i = remaster (call_own team k) (call_own team k) i
  begin-region (load_fini k) e i = remaster (load_fini k) (load_fini k) i
  begin-region (await_fini c k) e i = remaster (await_fini c k) (await_fini c k) i
  begin-region (reset_nthreads k) e i = remaster (reset_nthreads k) (reset_nthreads k) i
  begin-region exit_test e i = remaster exit_test exit_test i
  begin-region ended e i = remaster ended ended i

  pub begin-exit :
      (m : Master) → Inv n m s → Inv n (begin exit_test m) (record s { master = begin exit_test m })
  unfolding begin
  begin-exit await_workers i = remaster await_workers await_workers i
  begin-exit idle i = exit-begin i
  begin-exit (load_loop a) i = remaster (load_loop a) (load_loop a) i
  begin-exit (await_wfi c a) i = remaster (await_wfi c a) (await_wfi c a) i
  begin-exit (store a) i = remaster (store a) (store a) i
  begin-exit (set_interrupts a) i = remaster (set_interrupts a) (set_interrupts a) i
  begin-exit (test_empty k) i = remaster (test_empty k) (test_empty k) i
  begin-exit (reset_fini team k) i = remaster (reset_fini team k) (reset_fini team k) i
  begin-exit (call_own team k) i = remaster (call_own team k) (call_own team k) i
  begin-exit (load_fini k) i = remaster (load_fini k) (load_fini k) i
  begin-exit (await_fini c k) i = remaster (await_fini c k) (await_fini c k) i
  begin-exit (reset_nthreads k) i = remaster (reset_nthreads k) (reset_nthreads k) i
  begin-exit exit_test i = remaster exit_test exit_test i
  begin-exit ended i = remaster ended ended i
