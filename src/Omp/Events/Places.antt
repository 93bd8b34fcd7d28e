-- ===== src/Omp/Events/Places.antt =====
-- What holds where core 0 is.
use snitch_cluster_chips_it.Prelude.{
  ℕ, ◌≤◌, ◌≡◌, Bool, true, false, List, ◌∷◌, if◌then◌else◌, arith,
}
use snitch_cluster_chips_it.Omp.Events.{
  Event, EventUnit, Caller, region, exit, After, fill, wake, raise_flag, wake_exit, Master,
  await_workers, idle, load_loop, await_wfi, store, set_interrupts, test_empty, reset_fini,
  call_own, load_fini, await_fini, reset_nthreads, exit_test, ended, returned, awaited, System,
  finished, master_step,
}
use snitch_cluster_chips_it.Omp.Events.Modes.{mine}

unfoldable pub wakes : After → Bool
wakes (wake k) = true
wakes _ = false

unfoldable pub ends : After → ℕ
ends wake_exit = 1
ends _ = 0

unfoldable pub for_exit : Caller → Bool
for_exit region = false
for_exit exit = true

unfoldable pub wakes_for_exit : After → Bool
wakes_for_exit (wake k) = for_exit k
wakes_for_exit _ = false

unfoldable pub all_joined : Master → Bool
all_joined await_workers = false
all_joined (set_interrupts a) = false
all_joined (reset_nthreads k) = false
all_joined ended = false
all_joined _ = true

-- Core 0 has called the function of the event, if it is of the team.
unfoldable pub has_called : Master → Bool
has_called (load_fini k) = true
has_called (await_fini c k) = true
has_called (reset_nthreads k) = true
has_called _ = false

-- The event is pushed and `parallelRegion` has not returned.
unfoldable pub is_pending : Master → Bool
is_pending (load_loop a) = wakes a
is_pending (await_wfi c a) = wakes a
is_pending (store a) = wakes a
is_pending (set_interrupts a) = wakes a
is_pending (test_empty region) = true
is_pending (reset_fini team k) = true
is_pending (call_own team k) = true
is_pending (load_fini k) = true
is_pending (await_fini c k) = true
is_pending (reset_nthreads k) = true
is_pending _ = false

-- The counter has been reset for the event.
unfoldable pub is_cleared : Master → Bool
is_cleared (load_loop a) = wakes a
is_cleared (await_wfi c a) = wakes a
is_cleared (store a) = wakes a
is_cleared (set_interrupts a) = wakes a
is_cleared _ = false

unfoldable pub is_alone : Master → Bool
is_alone (reset_fini false k) = true
is_alone (call_own false k) = true
is_alone _ = false

unfoldable pub raised : Master → ℕ
raised (load_loop a) = ends a
raised (await_wfi c a) = ends a
raised (store a) = ends a
raised (set_interrupts a) = ends a
raised ended = 1
raised _ = 0

-- Core 0 runs an event on behalf of `eu_exit`.
unfoldable pub runs_exit : Master → Bool
runs_exit (load_loop a) = wakes_for_exit a
runs_exit (await_wfi c a) = wakes_for_exit a
runs_exit (store a) = wakes_for_exit a
runs_exit (set_interrupts a) = wakes_for_exit a
runs_exit (reset_fini team k) = for_exit k
runs_exit (call_own team k) = for_exit k
runs_exit (load_fini k) = for_exit k
runs_exit (await_fini c k) = for_exit k
runs_exit (reset_nthreads k) = for_exit k
runs_exit _ = false

unfoldable pub Compares : (n : ℕ) → Master → Type 0
Compares n (await_wfi c a) = c ≡ n
Compares n (await_fini c k) = c ≡ n
Compares n _ = Unit

pub record Place (n : ℕ) (m : Master) (u : EventUnit) (called pushed past : List Event)
    : Type 0 where
  pub own : called ≡ mine 0 (if has_called m then u.event ∷ past else past)
  pub dispatched : pushed ≡ (if is_pending m then u.event ∷ past else past)
  pub free : is_pending m ≡ false → u.event.nthreads ≡ 0
  pub alone : is_alone m ≡ true → u.event.nthreads ≤ 1
  pub cleared : is_cleared m ≡ true → u.fini_count ≡ 0
  pub flag : u.exit_flag ≡ raised m
  pub no_exit : runs_exit m ≡ false
  pub compares : Compares n m

abbrev pub PlaceOf : ℕ → System → Type 0
PlaceOf n s = Place n s.master s.unit s.master_called s.pushed s.past

pub master_step-Place :
    (n : ℕ) (m : Master) (s : System)
    → (all_joined m ≡ true → s.unit.workers_in_loop ≡ n)
    → Place n m s.unit s.master_called s.pushed s.past
    → PlaceOf n (master_step n s m)
unfolding master_step returned awaited finished mine all_joined has_called is_pending is_cleared
    is_alone raised runs_exit wakes ends for_exit wakes_for_exit Compares
master_step-Place n await_workers s j p =
    ground (arith, p.own, p.dispatched, p.free, p.alone, p.cleared, p.flag, p.no_exit, p.compares)
master_step-Place n idle s j p =
    ground (arith, p.own, p.dispatched, p.free, p.alone, p.cleared, p.flag, p.no_exit, p.compares)
master_step-Place n (load_loop (fill e)) s j p =
    ground (arith, p.own, p.dispatched, p.free, p.alone, p.cleared, p.flag, p.no_exit, p.compares)
master_step-Place n (load_loop (wake k)) s j p =
    ground (arith, p.own, p.dispatched, p.free, p.alone, p.cleared, p.flag, p.no_exit, p.compares)
master_step-Place n (load_loop raise_flag) s j p =
    ground (arith, p.own, p.dispatched, p.free, p.alone, p.cleared, p.flag, p.no_exit, p.compares)
master_step-Place n (load_loop wake_exit) s j p =
    ground (arith, p.own, p.dispatched, p.free, p.alone, p.cleared, p.flag, p.no_exit, p.compares)
master_step-Place n (await_wfi c (fill e)) s j p =
    ground (arith, p.own, p.dispatched, p.free, p.alone, p.cleared, p.flag, p.no_exit, p.compares)
master_step-Place n (await_wfi c (wake k)) s j p =
    ground (arith, p.own, p.dispatched, p.free, p.alone, p.cleared, p.flag, p.no_exit, p.compares)
master_step-Place n (await_wfi c raise_flag) s j p =
    ground (arith, p.own, p.dispatched, p.free, p.alone, p.cleared, p.flag, p.no_exit, p.compares)
master_step-Place n (await_wfi c wake_exit) s j p =
    ground (arith, p.own, p.dispatched, p.free, p.alone, p.cleared, p.flag, p.no_exit, p.compares)
master_step-Place n (store (fill e)) s j p =
    ground (arith, p.own, p.dispatched, p.free, p.alone, p.cleared, p.flag, p.no_exit, p.compares)
master_step-Place n (store (wake k)) s j p =
    ground (arith, p.own, p.dispatched, p.free, p.alone, p.cleared, p.flag, p.no_exit, p.compares)
master_step-Place n (store raise_flag) s j p =
    ground (arith, p.own, p.dispatched, p.free, p.alone, p.cleared, p.flag, p.no_exit, p.compares)
master_step-Place n (store wake_exit) s j p =
    ground (arith, p.own, p.dispatched, p.free, p.alone, p.cleared, p.flag, p.no_exit, p.compares)
master_step-Place n (set_interrupts (fill e)) s j p =
    ground (arith, p.own, p.dispatched, p.free, p.alone, p.cleared, p.flag, p.no_exit, p.compares)
master_step-Place n (set_interrupts (wake k)) s j p =
    ground (arith, p.own, p.dispatched, p.free, p.alone, p.cleared, p.flag, p.no_exit, p.compares)
master_step-Place n (set_interrupts raise_flag) s j p =
    ground (arith, p.own, p.dispatched, p.free, p.alone, p.cleared, p.flag, p.no_exit, p.compares)
master_step-Place n (set_interrupts wake_exit) s j p =
    ground (arith, p.own, p.dispatched, p.free, p.alone, p.cleared, p.flag, p.no_exit, p.compares)
master_step-Place n (test_empty region) s j p =
    ground (arith, p.own, p.dispatched, p.free, p.alone, p.cleared, p.flag, p.no_exit, p.compares)
master_step-Place n (test_empty exit) s j p =
    ground (arith, p.own, p.dispatched, p.free, p.alone, p.cleared, p.flag, p.no_exit, p.compares)
master_step-Place n (reset_fini true k) s j p =
    ground (arith, p.own, p.dispatched, p.free, p.alone, p.cleared, p.flag, p.no_exit, p.compares)
master_step-Place n (reset_fini false k) s j p =
    ground (arith, p.own, p.dispatched, p.free, p.alone, p.cleared, p.flag, p.no_exit, p.compares)
master_step-Place n (call_own true k) s j p =
    ground (arith, p.own, p.dispatched, p.free, p.alone, p.cleared, p.flag, p.no_exit, p.compares)
master_step-Place n (call_own false k) s j p =
    ground (arith, p.own, p.dispatched, p.free, p.alone, p.cleared, p.flag, p.no_exit, p.compares)
master_step-Place n (load_fini k) s j p =
    ground (arith, p.own, p.dispatched, p.free, p.alone, p.cleared, p.flag, p.no_exit, p.compares)
master_step-Place n (await_fini c k) s j p =
    ground (arith, p.own, p.dispatched, p.free, p.alone, p.cleared, p.flag, p.no_exit, p.compares)
master_step-Place n (reset_nthreads region) s j p =
    ground (arith, p.own, p.dispatched, p.free, p.alone, p.cleared, p.flag, p.no_exit, p.compares)
master_step-Place n (reset_nthreads exit) s j p =
    ground (arith, p.own, p.dispatched, p.free, p.alone, p.cleared, p.flag, p.no_exit, p.compares)
master_step-Place n exit_test s j p =
    ground (arith, p.own, p.dispatched, p.free, p.alone, p.cleared, p.flag, p.no_exit, p.compares)
master_step-Place n ended s j p =
    ground (arith, p.own, p.dispatched, p.free, p.alone, p.cleared, p.flag, p.no_exit, p.compares)
