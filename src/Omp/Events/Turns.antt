-- ===== src/Omp/Events/Turns.antt =====
-- What holds of a worker when core 0 goes from one mode to the next.
use snitch_cluster_chips_it.Prelude.{ℕ, ◌≤◌, ◌<◌, ◌≡◌, Bool, true, false, List, ◌∷◌, ltb→lt, arith}
use snitch_cluster_chips_it.Omp.Events.{
  Event, Phase, join, check_exit, check_team, call_fn, add_fini, enter_wfi, wfi, clear_interrupt,
  leave_wfi, gone,
}
use snitch_cluster_chips_it.Omp.Events.Modes.{
  booting, settled, quiet, running, finished, exiting, fits, has_run, sleeps, joined, counted, mine,
  Holds,
}

module _ (i : ℕ) (e : Event) (past called : List Event) where
  pub boot-settled :
      (ph : Phase) (b : Bool)
      → Holds booting i e past ph b called
      → sleeps ph ≡ true
      → Holds settled i e past ph b called
  unfolding fits has_run sleeps
  boot-settled join b h w = ground (arith, h.fit, h.log, h.member)
  boot-settled check_exit b h w = ground (arith, h.fit, h.log, h.member)
  boot-settled check_team b h w = ground (arith, h.fit, h.log, h.member)
  boot-settled call_fn b h w = ground (arith, h.fit, h.log, h.member)
  boot-settled add_fini b h w = ground (arith, h.fit, h.log, h.member)
  boot-settled enter_wfi b h w = ground (arith, h.fit, h.log, h.member)
  boot-settled wfi b h w = ground (arith, h.fit, h.log, h.member)
  boot-settled clear_interrupt b h w = ground (arith, h.fit, h.log, h.member)
  boot-settled leave_wfi b h w = ground (arith, h.fit, h.log, h.member)
  boot-settled gone b h w = ground (arith, h.fit, h.log, h.member)

  pub settled-quiet :
      (ph : Phase) (b : Bool)
      → Holds settled i e past ph b called
      → sleeps ph ≡ true
      → Holds quiet i e past ph b called
  unfolding fits has_run sleeps
  settled-quiet join b h w = ground (arith, h.fit, h.log, h.member)
  settled-quiet check_exit b h w = ground (arith, h.fit, h.log, h.member)
  settled-quiet check_team b h w = ground (arith, h.fit, h.log, h.member)
  settled-quiet call_fn b h w = ground (arith, h.fit, h.log, h.member)
  settled-quiet add_fini b h w = ground (arith, h.fit, h.log, h.member)
  settled-quiet enter_wfi b h w = ground (arith, h.fit, h.log, h.member)
  settled-quiet wfi b h w = ground (arith, h.fit, h.log, h.member)
  settled-quiet clear_interrupt b h w = ground (arith, h.fit, h.log, h.member)
  settled-quiet leave_wfi b h w = ground (arith, h.fit, h.log, h.member)
  settled-quiet gone b h w = ground (arith, h.fit, h.log, h.member)

  pub settled-fill :
      (ph : Phase) (b : Bool) (e2 : Event)
      → Holds settled i e past ph b called
      → Holds settled i e2 past ph b called
  unfolding fits has_run
  settled-fill join b e2 h = ground (arith, h.fit, h.log, h.member)
  settled-fill check_exit b e2 h = ground (arith, h.fit, h.log, h.member)
  settled-fill check_team b e2 h = ground (arith, h.fit, h.log, h.member)
  settled-fill call_fn b e2 h = ground (arith, h.fit, h.log, h.member)
  settled-fill add_fini b e2 h = ground (arith, h.fit, h.log, h.member)
  settled-fill enter_wfi b e2 h = ground (arith, h.fit, h.log, h.member)
  settled-fill wfi b e2 h = ground (arith, h.fit, h.log, h.member)
  settled-fill clear_interrupt b e2 h = ground (arith, h.fit, h.log, h.member)
  settled-fill leave_wfi b e2 h = ground (arith, h.fit, h.log, h.member)
  settled-fill gone b e2 h = ground (arith, h.fit, h.log, h.member)

  pub quiet-running :
      (ph : Phase) (b : Bool)
      → Holds quiet i e past ph b called
      → Holds running i e past ph true called
  unfolding fits has_run
  quiet-running join b h = ground (arith, h.fit, h.log, h.member)
  quiet-running check_exit b h = ground (arith, h.fit, h.log, h.member)
  quiet-running check_team b h = ground (arith, h.fit, h.log, h.member)
  quiet-running call_fn b h = ground (arith, h.fit, h.log, h.member)
  quiet-running add_fini b h = ground (arith, h.fit, h.log, h.member)
  quiet-running enter_wfi b h = ground (arith, h.fit, h.log, h.member)
  quiet-running wfi b h = ground (arith, h.fit, h.log, h.member)
  quiet-running clear_interrupt b h = ground (arith, h.fit, h.log, h.member)
  quiet-running leave_wfi b h = ground (arith, h.fit, h.log, h.member)
  quiet-running gone b h = ground (arith, h.fit, h.log, h.member)

  pub quiet-exiting :
      (ph : Phase) (b : Bool)
      → Holds quiet i e past ph b called
      → Holds exiting i e past ph true called
  unfolding fits has_run
  quiet-exiting join b h = ground (arith, h.fit, h.log, h.member)
  quiet-exiting check_exit b h = ground (arith, h.fit, h.log, h.member)
  quiet-exiting check_team b h = ground (arith, h.fit, h.log, h.member)
  quiet-exiting call_fn b h = ground (arith, h.fit, h.log, h.member)
  quiet-exiting add_fini b h = ground (arith, h.fit, h.log, h.member)
  quiet-exiting enter_wfi b h = ground (arith, h.fit, h.log, h.member)
  quiet-exiting wfi b h = ground (arith, h.fit, h.log, h.member)
  quiet-exiting clear_interrupt b h = ground (arith, h.fit, h.log, h.member)
  quiet-exiting leave_wfi b h = ground (arith, h.fit, h.log, h.member)
  quiet-exiting gone b h = ground (arith, h.fit, h.log, h.member)

  pub running-finished :
      (ph : Phase) (b : Bool)
      → Holds running i e past ph b called
      → counted ph b ≡ true
      → Holds finished i e past ph b called
  unfolding fits has_run counted
  running-finished join b h w = ground (arith, h.fit, h.log, h.member)
  running-finished check_exit b h w = ground (arith, h.fit, h.log, h.member)
  running-finished check_team b h w = ground (arith, h.fit, h.log, h.member)
  running-finished call_fn b h w = ground (arith, h.fit, h.log, h.member)
  running-finished add_fini b h w = ground (arith, h.fit, h.log, h.member)
  running-finished enter_wfi b h w = ground (arith, h.fit, h.log, h.member)
  running-finished wfi b h w = ground (arith, h.fit, h.log, h.member)
  running-finished clear_interrupt b h w = ground (arith, h.fit, h.log, h.member)
  running-finished leave_wfi b h w = ground (arith, h.fit, h.log, h.member)
  running-finished gone b h w = ground (arith, h.fit, h.log, h.member)

  pub settled-finished :
      (ph : Phase) (b : Bool)
      → 0 < i
      → e.nthreads ≤ 1
      → Holds settled i e past ph b called
      → Holds finished i e past ph b called
  unfolding fits has_run mine
  settled-finished join b lt le h = ground (arith, h.fit, h.log, h.member, ltb→lt i e.nthreads)
  settled-finished check_exit b lt le h =
      ground (arith, h.fit, h.log, h.member, ltb→lt i e.nthreads)
  settled-finished check_team b lt le h =
      ground (arith, h.fit, h.log, h.member, ltb→lt i e.nthreads)
  settled-finished call_fn b lt le h = ground (arith, h.fit, h.log, h.member, ltb→lt i e.nthreads)
  settled-finished add_fini b lt le h = ground (arith, h.fit, h.log, h.member, ltb→lt i e.nthreads)
  settled-finished enter_wfi b lt le h = ground (arith, h.fit, h.log, h.member, ltb→lt i e.nthreads)
  settled-finished wfi b lt le h = ground (arith, h.fit, h.log, h.member, ltb→lt i e.nthreads)
  settled-finished clear_interrupt b lt le h =
      ground (arith, h.fit, h.log, h.member, ltb→lt i e.nthreads)
  settled-finished leave_wfi b lt le h = ground (arith, h.fit, h.log, h.member, ltb→lt i e.nthreads)
  settled-finished gone b lt le h = ground (arith, h.fit, h.log, h.member, ltb→lt i e.nthreads)

  pub finished-settled :
      (ph : Phase) (b : Bool) (e2 : Event)
      → Holds finished i e past ph b called
      → Holds settled i e2 (e ∷ past) ph b called
  unfolding fits has_run
  finished-settled join b e2 h = ground (arith, h.fit, h.log, h.member)
  finished-settled check_exit b e2 h = ground (arith, h.fit, h.log, h.member)
  finished-settled check_team b e2 h = ground (arith, h.fit, h.log, h.member)
  finished-settled call_fn b e2 h = ground (arith, h.fit, h.log, h.member)
  finished-settled add_fini b e2 h = ground (arith, h.fit, h.log, h.member)
  finished-settled enter_wfi b e2 h = ground (arith, h.fit, h.log, h.member)
  finished-settled wfi b e2 h = ground (arith, h.fit, h.log, h.member)
  finished-settled clear_interrupt b e2 h = ground (arith, h.fit, h.log, h.member)
  finished-settled leave_wfi b e2 h = ground (arith, h.fit, h.log, h.member)
  finished-settled gone b e2 h = ground (arith, h.fit, h.log, h.member)

  pub settled-returned :
      (ph : Phase) (b : Bool)
      → e.nthreads ≡ 0
      → Holds settled i e past ph b called
      → Holds settled i e (e ∷ past) ph b called
  unfolding fits has_run mine
  settled-returned join b z h = ground (arith, h.fit, h.log, h.member, ltb→lt i e.nthreads)
  settled-returned check_exit b z h = ground (arith, h.fit, h.log, h.member, ltb→lt i e.nthreads)
  settled-returned check_team b z h = ground (arith, h.fit, h.log, h.member, ltb→lt i e.nthreads)
  settled-returned call_fn b z h = ground (arith, h.fit, h.log, h.member, ltb→lt i e.nthreads)
  settled-returned add_fini b z h = ground (arith, h.fit, h.log, h.member, ltb→lt i e.nthreads)
  settled-returned enter_wfi b z h = ground (arith, h.fit, h.log, h.member, ltb→lt i e.nthreads)
  settled-returned wfi b z h = ground (arith, h.fit, h.log, h.member, ltb→lt i e.nthreads)
  settled-returned clear_interrupt b z h =
      ground (arith, h.fit, h.log, h.member, ltb→lt i e.nthreads)
  settled-returned leave_wfi b z h = ground (arith, h.fit, h.log, h.member, ltb→lt i e.nthreads)
  settled-returned gone b z h = ground (arith, h.fit, h.log, h.member, ltb→lt i e.nthreads)

  pub settled-joined :
      (ph : Phase) (b : Bool) → Holds settled i e past ph b called → joined ph ≡ true
  unfolding fits joined
  settled-joined join b h = ground (arith, h.fit)
  settled-joined check_exit b h = ground (arith, h.fit)
  settled-joined check_team b h = ground (arith, h.fit)
  settled-joined call_fn b h = ground (arith, h.fit)
  settled-joined add_fini b h = ground (arith, h.fit)
  settled-joined enter_wfi b h = ground (arith, h.fit)
  settled-joined wfi b h = ground (arith, h.fit)
  settled-joined clear_interrupt b h = ground (arith, h.fit)
  settled-joined leave_wfi b h = ground (arith, h.fit)
  settled-joined gone b h = ground (arith, h.fit)

  pub quiet-uncounted :
      (ph : Phase) (b : Bool) → Holds quiet i e past ph b called → counted ph true ≡ false
  unfolding fits counted
  quiet-uncounted join b h = ground (arith, h.fit)
  quiet-uncounted check_exit b h = ground (arith, h.fit)
  quiet-uncounted check_team b h = ground (arith, h.fit)
  quiet-uncounted call_fn b h = ground (arith, h.fit)
  quiet-uncounted add_fini b h = ground (arith, h.fit)
  quiet-uncounted enter_wfi b h = ground (arith, h.fit)
  quiet-uncounted wfi b h = ground (arith, h.fit)
  quiet-uncounted clear_interrupt b h = ground (arith, h.fit)
  quiet-uncounted leave_wfi b h = ground (arith, h.fit)
  quiet-uncounted gone b h = ground (arith, h.fit)

  pub running-joined :
      (ph : Phase) (b : Bool) → Holds running i e past ph b called → joined ph ≡ true
  unfolding fits joined
  running-joined join b h = ground (arith, h.fit)
  running-joined check_exit b h = ground (arith, h.fit)
  running-joined check_team b h = ground (arith, h.fit)
  running-joined call_fn b h = ground (arith, h.fit)
  running-joined add_fini b h = ground (arith, h.fit)
  running-joined enter_wfi b h = ground (arith, h.fit)
  running-joined wfi b h = ground (arith, h.fit)
  running-joined clear_interrupt b h = ground (arith, h.fit)
  running-joined leave_wfi b h = ground (arith, h.fit)
  running-joined gone b h = ground (arith, h.fit)
