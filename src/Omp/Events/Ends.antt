-- ===== src/Omp/Events/Ends.antt =====
-- The wait of core 0 for the workers ends.
use snitch_cluster_chips_it.Prelude.{
  all-count, ℕ, suc, ◌+◌, ◌-◌, ◌^◌, ◌≤◌, ◌<◌, ◌≡◌, inl, inr, Bool, true, List, [], ◌∷◌, map, ◌==◌,
  ==_iff, ltb, ltb→lt, if◌then◌else◌, replace-same, replace-other, arith, refl, sym, ap, ◌∙◌, subst,
  Bool-cases,
}
use native.Mathlib.Decide.{ℕ_discrete}
use snitch_cluster_chips_it.Omp.Events.{
  EventUnit, Phase, join, check_exit, check_team, call_fn, add_fini, enter_wfi, wfi,
  clear_interrupt, leave_wfi, gone, Worker, worker_step, Caller, await_fini, reset_nthreads, System,
  master_step, Actor, master, worker, step, run, initial,
}
use snitch_cluster_chips_it.Omp.Events.Modes.{running, mode, fits, counted, Allows}
use snitch_cluster_chips_it.Omp.Events.Places.{Compares}
use snitch_cluster_chips_it.Omp.Events.Rounds.{is_counted, runs, Inv, Place-Allows}
use snitch_cluster_chips_it.Omp.Events.Regions.{worker_step-Inv, run-Inv, initial-Inv}

-- How many accesses a worker that is woken for an event is away from being counted, at most.
unfoldable todo : Phase → Bool → ℕ
todo wfi b = if b then 7 else 0
todo clear_interrupt b = 6
todo leave_wfi b = 5
todo check_exit b = 4
todo check_team b = 3
todo call_fn b = 2
todo add_fini b = 1
todo _ b = 0

todo-le : (ph : Phase) (b : Bool) → todo ph b ≤ 7
unfolding todo
todo-le join b = ground arith
todo-le check_exit b = ground arith
todo-le check_team b = ground arith
todo-le call_fn b = ground arith
todo-le add_fini b = ground arith
todo-le enter_wfi b = ground arith
todo-le wfi b = ground arith
todo-le clear_interrupt b = ground arith
todo-le leave_wfi b = ground arith
todo-le gone b = ground arith

todo-counted :
    (ph : Phase) (b : Bool) → fits running ph b ≡ true → todo ph b ≡ 0 → counted ph b ≡ true
unfolding todo fits counted
todo-counted join b f z = ground (arith, f, z)
todo-counted check_exit b f z = ground (arith, f, z)
todo-counted check_team b f z = ground (arith, f, z)
todo-counted call_fn b f z = ground (arith, f, z)
todo-counted add_fini b f z = ground (arith, f, z)
todo-counted enter_wfi b f z = ground (arith, f, z)
todo-counted wfi b f z = ground (arith, f, z)
todo-counted clear_interrupt b f z = ground (arith, f, z)
todo-counted leave_wfi b f z = ground (arith, f, z)
todo-counted gone b f z = ground (arith, f, z)

-- An access of the worker brings it nearer.
worker_step-todo :
    (i : ℕ) (ph : Phase) (u : EventUnit) (w : Worker)
    → u.exit_flag ≡ 0
    → fits running ph w.interrupt ≡ true
    → todo (worker_step i ph u w).1.phase (worker_step i ph u w).1.interrupt
      ≤ todo ph w.interrupt - 1
unfolding worker_step todo fits
worker_step-todo i join u w z f = ground (arith, z, f)
worker_step-todo i check_exit u w z f = ground (arith, z, f)
worker_step-todo i check_team u w z f = ground (arith, z, f)
worker_step-todo i call_fn u w z f = ground (arith, z, f)
worker_step-todo i add_fini u w z f = ground (arith, z, f)
worker_step-todo i enter_wfi u w z f = ground (arith, z, f)
worker_step-todo i wfi u w z f = ground (arith, z, f)
worker_step-todo i clear_interrupt u w z f = ground (arith, z, f)
worker_step-todo i leave_wfi u w z f = ground (arith, z, f)
worker_step-todo i gone u w z f = ground (arith, z, f)

-- How often the schedule names worker `j`.
unfoldable pub turns : (j : ℕ) → List ℕ → ℕ
turns j [] = 0
turns j (i ∷ l) = (if j == i then 1 else 0) + turns j l

abbrev todo_of : System → ℕ → ℕ
todo_of s j = todo (s.workers j).phase (s.workers j).interrupt

module _ (n c : ℕ) (k : Caller) (small : n < 2 ^ 32) where
  step-todo :
      (i j : ℕ) (s : System)
      → Inv n (await_fini c k) s
      → j < n
      → todo_of (step n (worker i) s) j ≤ todo_of s j - (if j == i then 1 else 0)
  unfolding step Allows mode
  step-todo i j s inv lt = elim (Bool-cases (ltb i n)) [
    | inl e ↦ elim (ℕ_discrete j i) [
      | yes q ↦ rw e (
          rw q (
            rw
              (replace-same i (worker_step (suc i) (s.workers i).phase s.unit (s.workers i)).1
                s.workers)
              (ground (
                arith,
                worker_step-todo (suc i) (s.workers i).phase s.unit (s.workers i)
                    (Place-Allows n (await_fini c k) s.unit s.master_called s.pushed s.past
                      inv.place)
                    (inv.each i (ltb→lt i n e)).fit,
              ))))
      | no d ↦ rw e (rw (replace-other i j _ s.workers d) (ground (arith, d)))
    ]
    | inr e ↦ rw e (ground (arith, e, lt))
  ]

  step_worker-Inv :
      (i : ℕ) (s : System) → Inv n (await_fini c k) s → Inv n (await_fini c k) (step n (worker i) s)
  unfolding step
  step_worker-Inv i s inv = elim (Bool-cases (ltb i n)) [
    | inl e ↦ rw e (worker_step-Inv n s (await_fini c k) i small (ltb→lt i n e) inv)
    | inr e ↦ rw e inv
  ]

  run-todo :
      (l : List ℕ) (s : System) (j : ℕ)
      → Inv n (await_fini c k) s
      → j < n
      → todo_of (run n (map worker l) s) j ≤ todo_of s j - turns j l
  unfolding run turns
  run-todo [] s j inv lt = omega arith
  run-todo (i ∷ l) s j inv lt = omega (
    arith,
    run-todo l (step n (worker i) s) j (step_worker-Inv i s inv) lt,
    step-todo i j s inv lt,
  )

  run-await :
      (l : List ℕ) (s : System)
      → Inv n (await_fini c k) s
      → Inv n (await_fini c k) (run n (map worker l) s)
  unfolding run
  run-await [] s inv = inv
  run-await (i ∷ l) s inv = run-await l (step n (worker i) s) (step_worker-Inv i s inv)

  -- When all workers are counted, core 0 leaves the loop.
  await_fini-leaves :
      (s : System)
      → Inv n (await_fini c k) s
      → ((j : ℕ) → j < n → todo_of s j ≡ 0)
      → (master_step n s (await_fini c k)).master ≡ reset_nthreads k
  unfolding master_step Compares mode runs
  await_fini-leaves s inv done =
      rw
        ((==_iff s.unit.fini_count c).1 (
          inv.counted_ones refl
          ∙ all-count is_counted s.workers n
              (λ j lt. todo-counted _ _ (inv.each j lt).fit (done j lt))
          ∙ sym inv.place.compares))
        refl

step-master : (n i : ℕ) (s : System) → (step n (worker i) s).master ≡ s.master
unfolding step
step-master n i s = elim (Bool-cases (ltb i n)) [ inl e ↦ rw e refl | inr e ↦ rw e refl ]

run-master : (n : ℕ) (l : List ℕ) (s : System) → (run n (map worker l) s).master ≡ s.master
unfolding run
run-master n [] s = refl
run-master n (i ∷ l) s = run-master n l (step n (worker i) s) ∙ step-master n i s

-- For fewer than 2 ^ 32 workers, when after any schedule from the start of the runtime core 0
-- waits in eu_run_empty for the workers, and each worker then gets seven accesses or more, in any
-- order, core 0 leaves the loop with its next access.
pub region_ends :
    (n c : ℕ) (k : Caller) (schedule : List Actor) (rest : List ℕ)
    → n < 2 ^ 32
    → (run n schedule initial).master ≡ await_fini c k
    → ((j : ℕ) → j < n → 7 ≤ turns j rest)
    → (step n master (run n (map worker rest) (run n schedule initial))).master ≡ reset_nthreads k
unfolding step
region_ends n c k schedule rest small at enough =
    let s = run n schedule initial in
    let t = run n (map worker rest) s in
    let inv = subst (λ m. Inv n m s) at (run-Inv n schedule initial small (initial-Inv n)) in
    ap (λ m. (master_step n t m).master) (run-master n rest s ∙ at)
    ∙ await_fini-leaves n c k small t (run-await n c k small rest s inv) (λ j lt. omega (
      arith,
      run-todo n c k small rest s j inv lt,
      enough j lt,
      todo-le (s.workers j).phase (s.workers j).interrupt,
    ))
