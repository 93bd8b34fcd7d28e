-- ===== src/Omp/Events/Workers.antt =====
-- A step of a worker keeps what holds of it, and the counters count.
use snitch_cluster_chips_it.Prelude.{one_if, ℕ, ◌+◌, ◌^◌, ◌<◌, ◌≡◌, true, List, arith, refl}
use snitch_cluster_chips_it.Omp.Events.{
  Event, EventUnit, Phase, join, check_exit, check_team, call_fn, add_fini, enter_wfi, wfi,
  clear_interrupt, leave_wfi, gone, Worker, worker_step,
}
use snitch_cluster_chips_it.Omp.Events.Modes.{
  Mode, booting, settled, quiet, running, finished, exiting, fits, has_run, sleeps, joined, counted,
  rests, mine, Holds, WorkerHolds, Allows,
}

module _ (i : ℕ) (u : EventUnit) (w : Worker) where
  pub worker_step-Holds :
      (m : Mode) (ph : Phase) (past : List Event)
      → Allows m u
      → Holds m i u.event past ph w.interrupt w.called
      → WorkerHolds m i (worker_step i ph u w).0.event past (worker_step i ph u w).1
  unfolding worker_step fits has_run mine Allows
  worker_step-Holds booting join past a h = ground (arith, h.fit, h.log, h.member)
  worker_step-Holds booting check_exit past a h = ground (arith, h.fit, h.log, h.member)
  worker_step-Holds booting check_team past a h = ground (arith, h.fit, h.log, h.member)
  worker_step-Holds booting call_fn past a h = ground (arith, h.fit, h.log, h.member)
  worker_step-Holds booting add_fini past a h = ground (arith, h.fit, h.log, h.member)
  worker_step-Holds booting enter_wfi past a h = ground (arith, h.fit, h.log, h.member)
  worker_step-Holds booting wfi past a h = ground (arith, h.fit, h.log, h.member)
  worker_step-Holds booting clear_interrupt past a h = ground (arith, h.fit, h.log, h.member)
  worker_step-Holds booting leave_wfi past a h = ground (arith, h.fit, h.log, h.member)
  worker_step-Holds booting gone past a h = ground (arith, h.fit, h.log, h.member)
  worker_step-Holds settled join past a h = ground (arith, h.fit, h.log, h.member)
  worker_step-Holds settled check_exit past a h = ground (arith, h.fit, h.log, h.member)
  worker_step-Holds settled check_team past a h = ground (arith, h.fit, h.log, h.member)
  worker_step-Holds settled call_fn past a h = ground (arith, h.fit, h.log, h.member)
  worker_step-Holds settled add_fini past a h = ground (arith, h.fit, h.log, h.member)
  worker_step-Holds settled enter_wfi past a h = ground (arith, h.fit, h.log, h.member)
  worker_step-Holds settled wfi past a h = ground (arith, h.fit, h.log, h.member)
  worker_step-Holds settled clear_interrupt past a h = ground (arith, h.fit, h.log, h.member)
  worker_step-Holds settled leave_wfi past a h = ground (arith, h.fit, h.log, h.member)
  worker_step-Holds settled gone past a h = ground (arith, h.fit, h.log, h.member)
  worker_step-Holds quiet join past a h = ground (arith, h.fit, h.log, h.member)
  worker_step-Holds quiet check_exit past a h = ground (arith, h.fit, h.log, h.member)
  worker_step-Holds quiet check_team past a h = ground (arith, h.fit, h.log, h.member)
  worker_step-Holds quiet call_fn past a h = ground (arith, h.fit, h.log, h.member)
  worker_step-Holds quiet add_fini past a h = ground (arith, h.fit, h.log, h.member)
  worker_step-Holds quiet enter_wfi past a h = ground (arith, h.fit, h.log, h.member)
  worker_step-Holds quiet wfi past a h = ground (arith, h.fit, h.log, h.member)
  worker_step-Holds quiet clear_interrupt past a h = ground (arith, h.fit, h.log, h.member)
  worker_step-Holds quiet leave_wfi past a h = ground (arith, h.fit, h.log, h.member)
  worker_step-Holds quiet gone past a h = ground (arith, h.fit, h.log, h.member)
  worker_step-Holds running join past a h = ground (arith, h.fit, h.log, h.member)
  worker_step-Holds running check_exit past a h = ground (arith, h.fit, h.log, h.member)
  worker_step-Holds running check_team past a h = ground (arith, h.fit, h.log, h.member)
  worker_step-Holds running call_fn past a h = ground (arith, h.fit, h.log, h.member)
  worker_step-Holds running add_fini past a h = ground (arith, h.fit, h.log, h.member)
  worker_step-Holds running enter_wfi past a h = ground (arith, h.fit, h.log, h.member)
  worker_step-Holds running wfi past a h = ground (arith, h.fit, h.log, h.member)
  worker_step-Holds running clear_interrupt past a h = ground (arith, h.fit, h.log, h.member)
  worker_step-Holds running leave_wfi past a h = ground (arith, h.fit, h.log, h.member)
  worker_step-Holds running gone past a h = ground (arith, h.fit, h.log, h.member)
  worker_step-Holds finished join past a h = ground (arith, h.fit, h.log, h.member)
  worker_step-Holds finished check_exit past a h = ground (arith, h.fit, h.log, h.member)
  worker_step-Holds finished check_team past a h = ground (arith, h.fit, h.log, h.member)
  worker_step-Holds finished call_fn past a h = ground (arith, h.fit, h.log, h.member)
  worker_step-Holds finished add_fini past a h = ground (arith, h.fit, h.log, h.member)
  worker_step-Holds finished enter_wfi past a h = ground (arith, h.fit, h.log, h.member)
  worker_step-Holds finished wfi past a h = ground (arith, h.fit, h.log, h.member)
  worker_step-Holds finished clear_interrupt past a h = ground (arith, h.fit, h.log, h.member)
  worker_step-Holds finished leave_wfi past a h = ground (arith, h.fit, h.log, h.member)
  worker_step-Holds finished gone past a h = ground (arith, h.fit, h.log, h.member)
  worker_step-Holds exiting join past a h = ground (arith, h.fit, h.log, h.member)
  worker_step-Holds exiting check_exit past a h = ground (arith, h.fit, h.log, h.member)
  worker_step-Holds exiting check_team past a h = ground (arith, h.fit, h.log, h.member)
  worker_step-Holds exiting call_fn past a h = ground (arith, h.fit, h.log, h.member)
  worker_step-Holds exiting add_fini past a h = ground (arith, h.fit, h.log, h.member)
  worker_step-Holds exiting enter_wfi past a h = ground (arith, h.fit, h.log, h.member)
  worker_step-Holds exiting wfi past a h = ground (arith, h.fit, h.log, h.member)
  worker_step-Holds exiting clear_interrupt past a h = ground (arith, h.fit, h.log, h.member)
  worker_step-Holds exiting leave_wfi past a h = ground (arith, h.fit, h.log, h.member)
  worker_step-Holds exiting gone past a h = ground (arith, h.fit, h.log, h.member)

  pub worker_step-workers_wfi :
      (ph : Phase) (c : ℕ)
      → c < 2 ^ 32
      → c + one_if (sleeps ph) ≡ u.workers_wfi + one_if (sleeps (worker_step i ph u w).1.phase)
      → (worker_step i ph u w).0.workers_wfi ≡ c
  unfolding worker_step sleeps
  worker_step-workers_wfi join c lt e = ground arith
  worker_step-workers_wfi check_exit c lt e = ground arith
  worker_step-workers_wfi check_team c lt e = ground arith
  worker_step-workers_wfi call_fn c lt e = ground arith
  worker_step-workers_wfi add_fini c lt e = ground arith
  worker_step-workers_wfi enter_wfi c lt e = ground arith
  worker_step-workers_wfi wfi c lt e = ground arith
  worker_step-workers_wfi clear_interrupt c lt e = ground arith
  worker_step-workers_wfi leave_wfi c lt e = ground arith
  worker_step-workers_wfi gone c lt e = ground arith

  pub worker_step-workers_in_loop :
      (ph : Phase) (c : ℕ)
      → c < 2 ^ 32
      → c + one_if (joined ph) ≡ u.workers_in_loop + one_if (joined (worker_step i ph u w).1.phase)
      → (worker_step i ph u w).0.workers_in_loop ≡ c
  unfolding worker_step joined
  worker_step-workers_in_loop join c lt e = ground arith
  worker_step-workers_in_loop check_exit c lt e = ground arith
  worker_step-workers_in_loop check_team c lt e = ground arith
  worker_step-workers_in_loop call_fn c lt e = ground arith
  worker_step-workers_in_loop add_fini c lt e = ground arith
  worker_step-workers_in_loop enter_wfi c lt e = ground arith
  worker_step-workers_in_loop wfi c lt e = ground arith
  worker_step-workers_in_loop clear_interrupt c lt e = ground arith
  worker_step-workers_in_loop leave_wfi c lt e = ground arith
  worker_step-workers_in_loop gone c lt e = ground arith

  pub worker_step-fini_count :
      (ph : Phase) (c : ℕ)
      → c < 2 ^ 32
      → fits running ph w.interrupt ≡ true
      → c + one_if (counted ph w.interrupt)
        ≡ u.fini_count
          + one_if (counted (worker_step i ph u w).1.phase (worker_step i ph u w).1.interrupt)
      → (worker_step i ph u w).0.fini_count ≡ c
  unfolding worker_step counted fits
  worker_step-fini_count join c lt f e = ground arith
  worker_step-fini_count check_exit c lt f e = ground arith
  worker_step-fini_count check_team c lt f e = ground arith
  worker_step-fini_count call_fn c lt f e = ground arith
  worker_step-fini_count add_fini c lt f e = ground arith
  worker_step-fini_count enter_wfi c lt f e = ground arith
  worker_step-fini_count wfi c lt f e = ground arith
  worker_step-fini_count clear_interrupt c lt f e = ground arith
  worker_step-fini_count leave_wfi c lt f e = ground arith
  worker_step-fini_count gone c lt f e = ground arith

  -- A worker changes neither the event nor the exit flag.
  pub worker_step-event :
      (ph : Phase)
      → ((worker_step i ph u w).0.event ≡ u.event)
        × ((worker_step i ph u w).0.exit_flag ≡ u.exit_flag)
  unfolding worker_step
  worker_step-event join = (refl, refl)
  worker_step-event check_exit = (refl, refl)
  worker_step-event check_team = (refl, refl)
  worker_step-event call_fn = (refl, refl)
  worker_step-event add_fini = (refl, refl)
  worker_step-event enter_wfi = (refl, refl)
  worker_step-event wfi = (refl, refl)
  worker_step-event clear_interrupt = (refl, refl)
  worker_step-event leave_wfi = (refl, refl)
  worker_step-event gone = (refl, refl)

  -- A worker that goes to sleep or sleeps does not count.
  pub worker_step-resting :
      (m : Mode) (ph : Phase)
      → rests m ≡ true
      → fits m ph w.interrupt ≡ true
      → (worker_step i ph u w).0.fini_count ≡ u.fini_count
  unfolding worker_step fits rests
  worker_step-resting booting join r f = ground arith
  worker_step-resting booting check_exit r f = ground arith
  worker_step-resting booting check_team r f = ground arith
  worker_step-resting booting call_fn r f = ground arith
  worker_step-resting booting add_fini r f = ground arith
  worker_step-resting booting enter_wfi r f = ground arith
  worker_step-resting booting wfi r f = ground arith
  worker_step-resting booting clear_interrupt r f = ground arith
  worker_step-resting booting leave_wfi r f = ground arith
  worker_step-resting booting gone r f = ground arith
  worker_step-resting settled join r f = ground arith
  worker_step-resting settled check_exit r f = ground arith
  worker_step-resting settled check_team r f = ground arith
  worker_step-resting settled call_fn r f = ground arith
  worker_step-resting settled add_fini r f = ground arith
  worker_step-resting settled enter_wfi r f = ground arith
  worker_step-resting settled wfi r f = ground arith
  worker_step-resting settled clear_interrupt r f = ground arith
  worker_step-resting settled leave_wfi r f = ground arith
  worker_step-resting settled gone r f = ground arith
  worker_step-resting quiet join r f = ground arith
  worker_step-resting quiet check_exit r f = ground arith
  worker_step-resting quiet check_team r f = ground arith
  worker_step-resting quiet call_fn r f = ground arith
  worker_step-resting quiet add_fini r f = ground arith
  worker_step-resting quiet enter_wfi r f = ground arith
  worker_step-resting quiet wfi r f = ground arith
  worker_step-resting quiet clear_interrupt r f = ground arith
  worker_step-resting quiet leave_wfi r f = ground arith
  worker_step-resting quiet gone r f = ground arith
  worker_step-resting running join r f = ground arith
  worker_step-resting running check_exit r f = ground arith
  worker_step-resting running check_team r f = ground arith
  worker_step-resting running call_fn r f = ground arith
  worker_step-resting running add_fini r f = ground arith
  worker_step-resting running enter_wfi r f = ground arith
  worker_step-resting running wfi r f = ground arith
  worker_step-resting running clear_interrupt r f = ground arith
  worker_step-resting running leave_wfi r f = ground arith
  worker_step-resting running gone r f = ground arith
  worker_step-resting finished join r f = ground arith
  worker_step-resting finished check_exit r f = ground arith
  worker_step-resting finished check_team r f = ground arith
  worker_step-resting finished call_fn r f = ground arith
  worker_step-resting finished add_fini r f = ground arith
  worker_step-resting finished enter_wfi r f = ground arith
  worker_step-resting finished wfi r f = ground arith
  worker_step-resting finished clear_interrupt r f = ground arith
  worker_step-resting finished leave_wfi r f = ground arith
  worker_step-resting finished gone r f = ground arith
  worker_step-resting exiting join r f = ground arith
  worker_step-resting exiting check_exit r f = ground arith
  worker_step-resting exiting check_team r f = ground arith
  worker_step-resting exiting call_fn r f = ground arith
  worker_step-resting exiting add_fini r f = ground arith
  worker_step-resting exiting enter_wfi r f = ground arith
  worker_step-resting exiting wfi r f = ground arith
  worker_step-resting exiting clear_interrupt r f = ground arith
  worker_step-resting exiting leave_wfi r f = ground arith
  worker_step-resting exiting gone r f = ground arith
