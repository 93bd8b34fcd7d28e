-- ===== src/Omp/Events.antt =====
-- sw/runtime/src/omp/eu.h, and parallelRegion and the bootstrap of omp.h and omp.c: the event unit by
-- which core 0 has the other compute cores of its cluster, the workers, run a function. Each step is
-- one access to the shared struct or to an interrupt. The variant with the cluster-local interrupt.
pub mod Modes
pub mod Workers
pub mod Turns
pub mod Places
pub mod Rounds
pub mod Everyone
pub mod Steps
pub mod Calls
pub mod Regions
pub mod Ends
use snitch_cluster_chips_it.Prelude.{
  ℕ, zero, suc, ◌+◌, ◌-◌, ◌^◌, Bool, true, false, List, [], ◌∷◌, ◌==◌, ltb, if◌then◌else◌, replace,
  add32, if◌then◌else◌,
}

-- `eu_event_t` without its counter
pub record Event : Type 0 where
  pub fn : ℕ
  pub data_ptr : ℕ
  pub argc : ℕ
  pub nthreads : ℕ

-- `eu_t` without the mutex
pub record EventUnit : Type 0 where
  pub workers_in_loop : ℕ
  pub workers_wfi : ℕ
  pub exit_flag : ℕ
  pub event : Event
  pub fini_count : ℕ

-- The next access of a worker in `eu_event_loop`; `gone` is after its return.
pub data Phase : Type 0 where
  join : Phase
  check_exit : Phase
  check_team : Phase
  call_fn : Phase
  add_fini : Phase
  enter_wfi : Phase
  wfi : Phase
  clear_interrupt : Phase
  leave_wfi : Phase
  gone : Phase

-- A worker with its interrupt and the events whose function it has called, the last one first.
pub record Worker : Type 0 where
  pub phase : Phase
  pub interrupt : Bool
  pub called : List Event

-- One access of the worker with the core index `i`, which is at the given phase.
unfoldable pub worker_step : (i : ℕ) → Phase → EventUnit → Worker → EventUnit × Worker
worker_step i join u w =
    (record u { workers_in_loop = add32 u.workers_in_loop 1 }, record w { phase = check_exit })
worker_step i check_exit u w =
    (u, record w { phase = if u.exit_flag == 0 then check_team else gone })
worker_step i check_team u w =
    (u, record w { phase = if ltb i u.event.nthreads then call_fn else add_fini })
worker_step i call_fn u w = (u, record w { phase = add_fini; called = u.event ∷ w.called })
worker_step i add_fini u w =
    (record u { fini_count = add32 u.fini_count 1 }, record w { phase = enter_wfi })
worker_step i enter_wfi u w =
    (record u { workers_wfi = add32 u.workers_wfi 1 }, record w { phase = wfi })
worker_step i wfi u w = (u, record w { phase = if w.interrupt then clear_interrupt else wfi })
worker_step i clear_interrupt u w = (u, record w { phase = leave_wfi; interrupt = false })
worker_step i leave_wfi u w =
    (record u { workers_wfi = add32 u.workers_wfi (2 ^ 32 - 1) }, record w { phase = check_exit })
worker_step i gone u w = (u, record w { phase = gone })

-- Who has called `eu_run_empty`: `parallelRegion`, or `eu_exit`.
pub data Caller : Type 0 where
  region : Caller
  exit : Caller

-- What follows `wait_worker_wfi`: the stores of `eu_dispatch_push`, the interrupts of `wake_workers` in
-- `eu_run_empty`, the exit flag, the interrupts in `eu_exit`.
pub data After : Type 0 where
  fill : Event → After
  wake : Caller → After
  raise_flag : After
  wake_exit : After

-- The next access of core 0; `team` is whether the event has more than one thread, `scratch` what a
-- loop compares with.
pub data Master : Type 0 where
  await_workers : Master
  idle : Master
  load_loop : After → Master
  await_wfi : (scratch : ℕ) → After → Master
  store : After → Master
  set_interrupts : After → Master
  test_empty : Caller → Master
  reset_fini : (team : Bool) → Caller → Master
  call_own : (team : Bool) → Caller → Master
  load_fini : Caller → Master
  await_fini : (scratch : ℕ) → Caller → Master
  reset_nthreads : Caller → Master
  exit_test : Master
  ended : Master

-- The cluster, with the events that `parallelRegion` has pushed and those that it has returned from,
-- the last one first.
pub record System : Type 0 where
  pub unit : EventUnit
  pub master : Master
  pub master_called : List Event
  pub workers : ℕ → Worker
  pub pushed : List Event
  pub past : List Event

unfoldable pub returned : Caller → Master
returned region = idle
returned exit = load_loop raise_flag

unfoldable pub finished : Caller → System → List Event
finished region s = s.unit.event ∷ s.past
finished exit s = s.past

unfoldable pub awaited : After → Master
awaited (fill e) = store (fill e)
awaited (wake k) = set_interrupts (wake k)
awaited raise_flag = store raise_flag
awaited wake_exit = set_interrupts wake_exit

-- `snrt_int_cluster_set` with the bits of the workers
unfoldable pub with_interrupt : Worker → Worker
with_interrupt w = record w { interrupt = true }

-- One access of core 0 of a cluster with `n` workers.
unfoldable pub master_step : (n : ℕ) → System → Master → System
unfolding returned awaited finished
master_step n s await_workers = record s {
  master = if s.unit.workers_wfi == n then idle else await_workers;
}
master_step n s idle = record s { master = idle }
master_step n s (load_loop a) = record s { master = await_wfi s.unit.workers_in_loop a }
master_step n s (await_wfi scratch a) = record s {
  master = if s.unit.workers_wfi == scratch then awaited a else await_wfi scratch a;
}
master_step n s (store (fill e)) = record s {
  unit = record s.unit { event = e };
  master = test_empty region;
  pushed = e ∷ s.pushed;
}
master_step n s (store (wake k)) = record s { master = store (wake k) }
master_step n s (store raise_flag) = record s {
  unit = record s.unit { exit_flag = 1 };
  master = load_loop wake_exit;
}
master_step n s (store wake_exit) = record s { master = store wake_exit }
master_step n s (set_interrupts (wake k)) = record s {
  workers = λ j. with_interrupt (s.workers j);
  master = call_own true k;
}
master_step n s (set_interrupts wake_exit) = record s {
  workers = λ j. with_interrupt (s.workers j);
  master = ended;
}
master_step n s (set_interrupts (fill e)) = record s { master = set_interrupts (fill e) }
master_step n s (set_interrupts raise_flag) = record s { master = set_interrupts raise_flag }
master_step n s (test_empty k) =
    if s.unit.event.nthreads == 0
    then record s { master = returned k; past = finished k s }
    else record s { master = reset_fini (ltb 1 s.unit.event.nthreads) k }
master_step n s (reset_fini team k) = record s {
  unit = record s.unit { fini_count = 0 };
  master = if team then load_loop (wake k) else call_own false k;
}
master_step n s (call_own team k) = record s {
  master_called =
      if ltb 0 s.unit.event.nthreads then s.unit.event ∷ s.master_called else s.master_called;
  master = if team then load_fini k else reset_nthreads k;
}
master_step n s (load_fini k) = record s { master = await_fini s.unit.workers_in_loop k }
master_step n s (await_fini scratch k) = record s {
  master = if s.unit.fini_count == scratch then reset_nthreads k else await_fini scratch k;
}
master_step n s (reset_nthreads k) = record s {
  unit = record s.unit { event = record s.unit.event { nthreads = 0 } };
  master = returned k;
  past = finished k s;
}
master_step n s exit_test = record s {
  master = if s.unit.event.nthreads == 0 then test_empty exit else load_loop raise_flag;
}
master_step n s ended = record s { master = ended }

-- Who makes a step: core 0 is called from outside only when it is in no function.
pub data Actor : Type 0 where
  parallel_region : Event → Actor
  eu_exit : Actor
  master : Actor
  worker : (j : ℕ) → Actor

unfoldable pub begin : Master → Master → Master
begin to idle = to
begin to other = other

-- Worker `j` of the `n` workers is core `j + 1`.
unfoldable pub step : (n : ℕ) → Actor → System → System
unfolding begin worker_step master_step
step n (parallel_region e) s = record s { master = begin (load_loop (fill e)) s.master }
step n eu_exit s = record s { master = begin exit_test s.master }
step n master s = master_step n s s.master
step n (worker j) s =
    if ltb j n
    then record s {
      unit = (worker_step (suc j) (s.workers j).phase s.unit (s.workers j)).0;
      workers =
          replace j (worker_step (suc j) (s.workers j).phase s.unit (s.workers j)).1 s.workers;
    }
    else s

unfoldable pub run : (n : ℕ) → List Actor → System → System
unfolding step
run n [] s = s
run n (a ∷ schedule) s = run n schedule (step n a s)

-- After `eu_init`: the struct is cleared and no worker is in the loop.
abbrev pub initial : System
initial = record {
  unit = record {
    workers_in_loop = 0;
    workers_wfi = 0;
    exit_flag = 0;
    event = record { fn = 0; data_ptr = 0; argc = 0; nthreads = 0 };
    fini_count = 0;
  };
  master = await_workers;
  master_called = [];
  workers = λ j. record { phase = join; interrupt = false; called = [] };
  pushed = [];
  past = [];
}
