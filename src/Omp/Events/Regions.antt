-- ===== src/Omp/Events/Regions.antt =====
-- Every core runs the function of each event that it is part of, once and in the order of the events.
use snitch_cluster_chips_it.Prelude.{
  one_if, count, count-le, none-count, count-replace, ℕ, suc, ◌+◌, ◌^◌, ◌<◌, ◌≡◌, inl, inr, Bool,
  true, false, List, [], ◌∷◌, ltb, ltb→lt, replace, into_replace, arith, refl, sym, ap, ◌∙◌, subst,
  Bool-cases, true-false,
}
use snitch_cluster_chips_it.Omp.Events.{
  Event, EventUnit, Phase, Worker, worker_step, region, exit, fill, wake, raise_flag, wake_exit,
  Master, await_workers, idle, load_loop, await_wfi, store, set_interrupts, test_empty, reset_fini,
  call_own, load_fini, await_fini, reset_nthreads, exit_test, ended, System, Actor, parallel_region,
  eu_exit, master, worker, step, run, initial,
}
use snitch_cluster_chips_it.Omp.Events.Modes.{
  Mode, booting, settled, quiet, running, finished, exiting, mode, sleeps, joined, fits, has_run,
  rests, mine, WorkerHolds,
}
use snitch_cluster_chips_it.Omp.Events.Workers.{
  worker_step-Holds, worker_step-workers_wfi, worker_step-workers_in_loop, worker_step-fini_count,
  worker_step-event, worker_step-resting,
}
use snitch_cluster_chips_it.Omp.Events.Places.{
  Place, has_called, is_pending, is_cleared, is_alone, raised, runs_exit, Compares,
}
use snitch_cluster_chips_it.Omp.Events.Steps.{master_step-Inv}
use snitch_cluster_chips_it.Omp.Events.Calls.{begin-region, begin-exit}
use snitch_cluster_chips_it.Omp.Events.Rounds.{
  sleeping, in_loop, is_counted, runs, Inv, Place-Allows,
}

runs-fits :
    (md : Mode) (ph : Phase) (b : Bool)
    → runs md ≡ true
    → fits md ph b ≡ true
    → fits running ph b ≡ true
unfolding runs
runs-fits booting ph b r f = absurd (true-false (sym r))
runs-fits settled ph b r f = absurd (true-false (sym r))
runs-fits quiet ph b r f = absurd (true-false (sym r))
runs-fits running ph b r f = f
runs-fits finished ph b r f = absurd (true-false (sym r))
runs-fits exiting ph b r f = absurd (true-false (sym r))

is_cleared-rests : (m : Master) → is_cleared m ≡ true → rests (mode m) ≡ true
unfolding is_cleared rests mode
is_cleared-rests await_workers h = ground (arith, h)
is_cleared-rests idle h = ground (arith, h)
is_cleared-rests (load_loop (fill e)) h = ground (arith, h)
is_cleared-rests (load_loop (wake k)) h = ground (arith, h)
is_cleared-rests (load_loop raise_flag) h = ground (arith, h)
is_cleared-rests (load_loop wake_exit) h = ground (arith, h)
is_cleared-rests (await_wfi c (fill e)) h = ground (arith, h)
is_cleared-rests (await_wfi c (wake k)) h = ground (arith, h)
is_cleared-rests (await_wfi c raise_flag) h = ground (arith, h)
is_cleared-rests (await_wfi c wake_exit) h = ground (arith, h)
is_cleared-rests (store (fill e)) h = ground (arith, h)
is_cleared-rests (store (wake k)) h = ground (arith, h)
is_cleared-rests (store raise_flag) h = ground (arith, h)
is_cleared-rests (store wake_exit) h = ground (arith, h)
is_cleared-rests (set_interrupts (fill e)) h = ground (arith, h)
is_cleared-rests (set_interrupts (wake k)) h = ground (arith, h)
is_cleared-rests (set_interrupts raise_flag) h = ground (arith, h)
is_cleared-rests (set_interrupts wake_exit) h = ground (arith, h)
is_cleared-rests (test_empty region) h = ground (arith, h)
is_cleared-rests (test_empty exit) h = ground (arith, h)
is_cleared-rests (reset_fini true k) h = ground (arith, h)
is_cleared-rests (reset_fini false k) h = ground (arith, h)
is_cleared-rests (call_own true k) h = ground (arith, h)
is_cleared-rests (call_own false k) h = ground (arith, h)
is_cleared-rests (load_fini k) h = ground (arith, h)
is_cleared-rests (await_fini c k) h = ground (arith, h)
is_cleared-rests (reset_nthreads region) h = ground (arith, h)
is_cleared-rests (reset_nthreads exit) h = ground (arith, h)
is_cleared-rests exit_test h = ground (arith, h)
is_cleared-rests ended h = ground (arith, h)

Place-kept :
    (n : ℕ) (m : Master) (u v : EventUnit) (called pushed past : List Event)
    → (v.event ≡ u.event) × (v.exit_flag ≡ u.exit_flag)
    → (is_cleared m ≡ true → v.fini_count ≡ u.fini_count)
    → Place n m u called pushed past
    → Place n m v called pushed past
Place-kept n m u v called pushed past e f p = record {
  own = rw e.0 p.own;
  dispatched = rw e.0 p.dispatched;
  free = λ h. rw e.0 (p.free h);
  alone = λ h. rw e.0 (p.alone h);
  cleared = λ h. f h ∙ p.cleared h;
  flag = e.1 ∙ p.flag;
  no_exit = p.no_exit;
  compares = p.compares;
}

count-small : (p : Worker → Bool) (n : ℕ) (f : ℕ → Worker) → n < 2 ^ 32 → count p n f < 2 ^ 32
count-small p n f small = omega (arith, small, count-le p f n)

module _ (n : ℕ) (s : System) where
  -- The state after a step of worker `j`.
  abbrev pub after : ℕ → System
  after j = record s {
    unit = (worker_step (suc j) (s.workers j).phase s.unit (s.workers j)).0;
    workers = replace j (worker_step (suc j) (s.workers j).phase s.unit (s.workers j)).1 s.workers;
  }

  pub worker_step-Inv : (m : Master) (j : ℕ) → n < 2 ^ 32 → j < n → Inv n m s → Inv n m (after j)
  worker_step-Inv m j small lt i =
      let w = s.workers j in
      let w2 = (worker_step (suc j) w.phase s.unit w).1 in
      let h = i.each j lt in
      let below = λ (p : Worker → Bool). count-small p n (replace j w2 s.workers) small in
      record {
        sleeping_ones = worker_step-workers_wfi (suc j) s.unit w w.phase _ (below sleeping) (
            count-replace sleeping s.workers j w2 n lt
            ∙ ap (λ k. k + one_if (sleeping w2)) (sym i.sleeping_ones));
        joined_ones = worker_step-workers_in_loop (suc j) s.unit w w.phase _ (below in_loop) (
            count-replace in_loop s.workers j w2 n lt
            ∙ ap (λ k. k + one_if (in_loop w2)) (sym i.joined_ones));
        counted_ones = λ r.
            worker_step-fini_count (suc j) s.unit w w.phase _ (below is_counted)
              (runs-fits (mode m) w.phase w.interrupt r h.fit)
              (count-replace is_counted s.workers j w2 n lt
                ∙ ap (λ k. k + one_if (is_counted w2)) (sym (i.counted_ones r)));
        each = λ k ltk.
            into_replace (WorkerHolds (mode m) (suc k) (after j).unit.event s.past) j w2 s.workers k
              (λ q. rw q (
                worker_step-Holds (suc j) s.unit w (mode m) w.phase s.past
                  (Place-Allows n m s.unit s.master_called s.pushed s.past i.place) h))
              (λ d.
                subst (λ e. WorkerHolds (mode m) (suc k) e s.past (s.workers k))
                  (sym (worker_step-event (suc j) s.unit w w.phase).0) (i.each k ltk));
        place =
            Place-kept n m s.unit (after j).unit s.master_called s.pushed s.past
              (worker_step-event (suc j) s.unit w w.phase)
              (λ c.
                worker_step-resting (suc j) s.unit w (mode m) w.phase (is_cleared-rests m c) h.fit)
              i.place;
      }

abbrev pub InvOf : ℕ → System → Type 0
InvOf n s = Inv n s.master s

step-Inv : (n : ℕ) (a : Actor) (s : System) → n < 2 ^ 32 → InvOf n s → InvOf n (step n a s)
unfolding step
step-Inv n (parallel_region e) s small i = begin-region n s s.master e i
step-Inv n eu_exit s small i = begin-exit n s s.master i
step-Inv n master s small i = master_step-Inv n s s.master i
step-Inv n (worker j) s small i = elim (Bool-cases (ltb j n)) [
  | inl e ↦ rw e (worker_step-Inv n s s.master j small (ltb→lt j n e) i)
  | inr e ↦ rw e i
]

pub run-Inv :
    (n : ℕ) (schedule : List Actor) (s : System)
    → n < 2 ^ 32
    → InvOf n s
    → InvOf n (run n schedule s)
unfolding run
run-Inv n [] s small i = i
run-Inv n (a ∷ schedule) s small i = run-Inv n schedule (step n a s) small (step-Inv n a s small i)

pub initial-Inv : (n : ℕ) → InvOf n initial
unfolding mode runs sleeps joined fits has_run mine has_called is_pending is_cleared is_alone raised
    runs_exit Compares
initial-Inv n = record {
  sleeping_ones = sym (none-count sleeping _ n (λ j lt. refl));
  joined_ones = sym (none-count in_loop _ n (λ j lt. refl));
  counted_ones = λ r. absurd (true-false (sym r));
  each = λ j lt. ground arith;
  place = ground arith;
}

idle-Inv :
    (n : ℕ) (s : System)
    → Inv n idle s
    → (s.master_called ≡ mine 0 s.pushed)
      × ((j : ℕ) → j < n → (s.workers j).called ≡ mine (suc j) s.pushed)
unfolding mode has_run has_called is_pending
idle-Inv n s i = (
  i.place.own ∙ ap (mine 0) (sym i.place.dispatched),
  λ j lt. (i.each j lt).log ∙ ap (mine (suc j)) (sym i.place.dispatched),
)

-- For fewer than 2 ^ 32 workers, after any schedule of the accesses of core 0 and the workers from
-- the start of the runtime: whenever core 0 is in no function of the event unit, every core has
-- called exactly the functions of the pushed events that have a thread for it, each once and in
-- the order in which they were pushed.
pub regions_lem :
    (n : ℕ) (schedule : List Actor)
    → n < 2 ^ 32
    → let s = run n schedule initial in
      s.master ≡ idle
      → (s.master_called ≡ mine 0 s.pushed)
        × ((j : ℕ) → j < n → (s.workers j).called ≡ mine (suc j) s.pushed)
regions_lem n schedule small at =
    let s = run n schedule initial in
    idle-Inv n s (subst (λ m. Inv n m s) at (run-Inv n schedule initial small (initial-Inv n)))
