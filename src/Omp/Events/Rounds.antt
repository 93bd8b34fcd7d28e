-- ===== src/Omp/Events/Rounds.antt =====
-- What holds between two steps, and that core 0 keeps it.
use snitch_cluster_chips_it.Prelude.{count, ℕ, suc, ◌<◌, ◌≡◌, Bool, true, false, List, arith}
use snitch_cluster_chips_it.Omp.Events.{
  Event, EventUnit, Worker, region, exit, fill, wake, raise_flag, wake_exit, Master, await_workers,
  idle, load_loop, await_wfi, store, set_interrupts, test_empty, reset_fini, call_own, load_fini,
  await_fini, reset_nthreads, exit_test, ended, with_interrupt, System, master_step,
}
use snitch_cluster_chips_it.Omp.Events.Modes.{
  Mode, mode, running, sleeps, joined, counted, WorkerHolds, Allows,
}
use snitch_cluster_chips_it.Omp.Events.Places.{Place, is_pending, raised, ends}

abbrev pub sleeping : Worker → Bool
sleeping w = sleeps w.phase

abbrev pub in_loop : Worker → Bool
in_loop w = joined w.phase

abbrev pub is_counted : Worker → Bool
is_counted w = counted w.phase w.interrupt

unfoldable pub runs : Mode → Bool
runs running = true
runs _ = false

abbrev pub Each : ℕ → Mode → Event → List Event → (ℕ → Worker) → Type 0
Each n md e past ws = (j : ℕ) → j < n → WorkerHolds md (suc j) e past (ws j)

pub record Inv (n : ℕ) (m : Master) (s : System) : Type 0 where
  pub sleeping_ones : s.unit.workers_wfi ≡ count sleeping n s.workers
  pub joined_ones : s.unit.workers_in_loop ≡ count in_loop n s.workers
  pub counted_ones : runs (mode m) ≡ true → s.unit.fini_count ≡ count is_counted n s.workers
  pub each : Each n (mode m) s.unit.event s.past s.workers
  pub place : Place n m s.unit s.master_called s.pushed s.past

-- What core 0 leaves as it is.
pub record Kept (n : ℕ) (m : Master) (s : System) : Type 0 where
  pub wfi_count : (master_step n s m).unit.workers_wfi ≡ s.unit.workers_wfi
  pub loop_count : (master_step n s m).unit.workers_in_loop ≡ s.unit.workers_in_loop
  pub phases : (j : ℕ) → ((master_step n s m).workers j).phase ≡ (s.workers j).phase

pub master_step-Kept : (n : ℕ) (m : Master) (s : System) → Kept n m s
unfolding master_step with_interrupt
master_step-Kept n await_workers s = ground arith
master_step-Kept n idle s = ground arith
master_step-Kept n (load_loop (fill e)) s = ground arith
master_step-Kept n (load_loop (wake k)) s = ground arith
master_step-Kept n (load_loop raise_flag) s = ground arith
master_step-Kept n (load_loop wake_exit) s = ground arith
master_step-Kept n (await_wfi c (fill e)) s = ground arith
master_step-Kept n (await_wfi c (wake k)) s = ground arith
master_step-Kept n (await_wfi c raise_flag) s = ground arith
master_step-Kept n (await_wfi c wake_exit) s = ground arith
master_step-Kept n (store (fill e)) s = ground arith
master_step-Kept n (store (wake k)) s = ground arith
master_step-Kept n (store raise_flag) s = ground arith
master_step-Kept n (store wake_exit) s = ground arith
master_step-Kept n (set_interrupts (fill e)) s = ground arith
master_step-Kept n (set_interrupts (wake k)) s = ground arith
master_step-Kept n (set_interrupts raise_flag) s = ground arith
master_step-Kept n (set_interrupts wake_exit) s = ground arith
master_step-Kept n (test_empty region) s = ground arith
master_step-Kept n (test_empty exit) s = ground arith
master_step-Kept n (reset_fini true k) s = ground arith
master_step-Kept n (reset_fini false k) s = ground arith
master_step-Kept n (call_own true k) s = ground arith
master_step-Kept n (call_own false k) s = ground arith
master_step-Kept n (load_fini k) s = ground arith
master_step-Kept n (await_fini c k) s = ground arith
master_step-Kept n (reset_nthreads region) s = ground arith
master_step-Kept n (reset_nthreads exit) s = ground arith
master_step-Kept n exit_test s = ground arith
master_step-Kept n ended s = ground arith

pub Place-Allows :
    (n : ℕ) (m : Master) (u : EventUnit) (called pushed past : List Event)
    → Place n m u called pushed past
    → Allows (mode m) u
unfolding mode Allows is_pending raised ends
Place-Allows n await_workers u called pushed past p = ground (arith, p.free, p.flag, p.no_exit)
Place-Allows n idle u called pushed past p = ground (arith, p.free, p.flag, p.no_exit)
Place-Allows n (load_loop (fill e)) u called pushed past p =
    ground (arith, p.free, p.flag, p.no_exit)
Place-Allows n (load_loop (wake k)) u called pushed past p =
    ground (arith, p.free, p.flag, p.no_exit)
Place-Allows n (load_loop raise_flag) u called pushed past p =
    ground (arith, p.free, p.flag, p.no_exit)
Place-Allows n (load_loop wake_exit) u called pushed past p =
    ground (arith, p.free, p.flag, p.no_exit)
Place-Allows n (await_wfi c (fill e)) u called pushed past p =
    ground (arith, p.free, p.flag, p.no_exit)
Place-Allows n (await_wfi c (wake k)) u called pushed past p =
    ground (arith, p.free, p.flag, p.no_exit)
Place-Allows n (await_wfi c raise_flag) u called pushed past p =
    ground (arith, p.free, p.flag, p.no_exit)
Place-Allows n (await_wfi c wake_exit) u called pushed past p =
    ground (arith, p.free, p.flag, p.no_exit)
Place-Allows n (store (fill e)) u called pushed past p = ground (arith, p.free, p.flag, p.no_exit)
Place-Allows n (store (wake k)) u called pushed past p = ground (arith, p.free, p.flag, p.no_exit)
Place-Allows n (store raise_flag) u called pushed past p = ground (arith, p.free, p.flag, p.no_exit)
Place-Allows n (store wake_exit) u called pushed past p = ground (arith, p.free, p.flag, p.no_exit)
Place-Allows n (set_interrupts (fill e)) u called pushed past p =
    ground (arith, p.free, p.flag, p.no_exit)
Place-Allows n (set_interrupts (wake k)) u called pushed past p =
    ground (arith, p.free, p.flag, p.no_exit)
Place-Allows n (set_interrupts raise_flag) u called pushed past p =
    ground (arith, p.free, p.flag, p.no_exit)
Place-Allows n (set_interrupts wake_exit) u called pushed past p =
    ground (arith, p.free, p.flag, p.no_exit)
Place-Allows n (test_empty region) u called pushed past p =
    ground (arith, p.free, p.flag, p.no_exit)
Place-Allows n (test_empty exit) u called pushed past p = ground (arith, p.free, p.flag, p.no_exit)
Place-Allows n (reset_fini true k) u called pushed past p =
    ground (arith, p.free, p.flag, p.no_exit)
Place-Allows n (reset_fini false k) u called pushed past p =
    ground (arith, p.free, p.flag, p.no_exit)
Place-Allows n (call_own true k) u called pushed past p = ground (arith, p.free, p.flag, p.no_exit)
Place-Allows n (call_own false k) u called pushed past p = ground (arith, p.free, p.flag, p.no_exit)
Place-Allows n (load_fini k) u called pushed past p = ground (arith, p.free, p.flag, p.no_exit)
Place-Allows n (await_fini c k) u called pushed past p = ground (arith, p.free, p.flag, p.no_exit)
Place-Allows n (reset_nthreads region) u called pushed past p =
    ground (arith, p.free, p.flag, p.no_exit)
Place-Allows n (reset_nthreads exit) u called pushed past p =
    ground (arith, p.free, p.flag, p.no_exit)
Place-Allows n exit_test u called pushed past p = ground (arith, p.free, p.flag, p.no_exit)
Place-Allows n ended u called pushed past p = ground (arith, p.free, p.flag, p.no_exit)
