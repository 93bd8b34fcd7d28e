-- ===== src/Omp/Events/Modes.antt =====
-- What the workers do while core 0 is at a given place.
use snitch_cluster_chips_it.Prelude.{
  ℕ, ◌≡◌, Bool, true, false, not, List, [], ◌∷◌, ltb, if◌then◌else◌,
}
use snitch_cluster_chips_it.Omp.Events.{
  Event, EventUnit, Phase, join, check_exit, call_fn, add_fini, enter_wfi, wfi, clear_interrupt,
  leave_wfi, gone, Worker, Master, await_workers, idle, load_loop, await_wfi, store, set_interrupts,
  test_empty, reset_fini, call_own, load_fini, await_fini, reset_nthreads, exit_test, ended,
}

-- The workers enter the loop; have called what they have to and go to sleep; sleep; are woken for an
-- event; have all called its function; are woken to leave the loop.
pub data Mode : Type 0 where
  booting : Mode
  settled : Mode
  quiet : Mode
  running : Mode
  finished : Mode
  exiting : Mode

unfoldable pub mode : Master → Mode
mode await_workers = booting
mode idle = settled
mode (load_loop a) = settled
mode (await_wfi scratch a) = settled
mode (store a) = settled
mode (set_interrupts a) = quiet
mode (test_empty k) = settled
mode (reset_fini team k) = settled
mode (call_own true k) = running
mode (call_own false k) = settled
mode (load_fini k) = running
mode (await_fini scratch k) = running
mode (reset_nthreads k) = finished
mode exit_test = settled
mode ended = exiting

unfoldable pub rests : Mode → Bool
rests settled = true
rests quiet = true
rests _ = false

-- Where a worker can be, with its interrupt.
unfoldable pub fits : Mode → Phase → Bool → Bool
fits booting clear_interrupt b = false
fits booting leave_wfi b = false
fits booting call_fn b = false
fits booting gone b = false
fits booting _ b = not b
fits settled enter_wfi b = not b
fits settled wfi b = not b
fits settled _ b = false
fits quiet wfi b = not b
fits quiet _ b = false
fits running join b = false
fits running gone b = false
fits running wfi b = true
fits running clear_interrupt b = b
fits running _ b = not b
fits finished enter_wfi b = not b
fits finished wfi b = not b
fits finished _ b = false
fits exiting wfi b = b
fits exiting clear_interrupt b = b
fits exiting leave_wfi b = not b
fits exiting check_exit b = not b
fits exiting gone b = not b
fits exiting _ b = false

-- The worker is done with the event.
unfoldable pub has_run : Mode → Phase → Bool → Bool
has_run running add_fini b = true
has_run running enter_wfi b = true
has_run running wfi b = not b
has_run finished ph b = true
has_run _ ph b = false

-- What the counters of the event unit count.
unfoldable pub sleeps : Phase → Bool
sleeps wfi = true
sleeps clear_interrupt = true
sleeps leave_wfi = true
sleeps _ = false

unfoldable pub joined : Phase → Bool
joined join = false
joined _ = true

unfoldable pub counted : Phase → Bool → Bool
counted enter_wfi b = true
counted wfi b = not b
counted _ b = false

-- The events of a list that have a thread for core `i`.
unfoldable pub mine : (i : ℕ) → List Event → List Event
mine i [] = []
mine i (e ∷ l) = if ltb i e.nthreads then e ∷ mine i l else mine i l

-- What holds of the worker with the core index `i`.
pub record Holds (m : Mode) (i : ℕ) (e : Event) (past : List Event) (ph : Phase) (b : Bool)
    (called : List Event) : Type 0 where
  pub fit : fits m ph b ≡ true
  pub log : called ≡ mine i (if has_run m ph b then e ∷ past else past)
  pub member : ph ≡ call_fn → ltb i e.nthreads ≡ true

abbrev pub WorkerHolds : Mode → ℕ → Event → List Event → Worker → Type 0
WorkerHolds m i e past w = Holds m i e past w.phase w.interrupt w.called

-- What the workers rely on of the event unit.
unfoldable pub Allows : Mode → EventUnit → Type 0
Allows booting u = (u.event.nthreads ≡ 0) × (u.exit_flag ≡ 0)
Allows running u = u.exit_flag ≡ 0
Allows exiting u = u.exit_flag ≡ 1
Allows _ u = Unit
