-- ===== src/Sync/Barrier/Leaving.antt =====
-- No thread leaves a barrier before all have arrived, and then each leaves it, at any schedule.
use snitch_cluster_chips_it.Prelude.{
  ℕ, suc, ◌%◌, ◌^◌, ◌≤◌, ◌<◌, ◌≡◌, List, [], ◌∷◌, ◌==◌, ltb, replace-same, add32, refl, ap, sym,
  ◌∙◌, arith, Bool-cases, inl, inr, ltb→lt,
}
use native.Mathlib.Decide.{ℕ_discrete}
use snitch_cluster_chips_it.Sync.Barrier.{
  Thread, working, resetting, bumping, Shared, access, advance, run, start, completed, arrived,
}
use snitch_cluster_chips_it.Sync.Barrier.Counting.{waits}
use snitch_cluster_chips_it.Sync.Barrier.Epochs.{
  InEpoch, at_work, at_load, at_wait, released, AllBut, Inv, collecting, last_resets, last_bumps,
  advance-Inv, epochs_differ, none_wait,
}

module _ (n : ℕ) (small : n < 2 ^ 32) where
  run-Inv : (schedule : List ℕ) (s : Shared) → Inv n s → Inv n (run n schedule s)
  unfolding run
  run-Inv [] s inv = inv
  run-Inv (i ∷ schedule) s inv = elim (Bool-cases (ltb i n)) [
    | inl h ↦ rw h (run-Inv schedule (advance n i s) (advance-Inv n small s i (ltb→lt i n h) inv))
    | inr h ↦ rw h (run-Inv schedule s inv)
  ]

  start-Inv : 0 < n → Inv n start
  unfolding waits
  start-Inv pos = collecting 0 (record {
    epoch = omega arith;
    count = sym (none_wait n 0 (λ j. working 0) (λ j l. refl));
    room = pos;
    threads = λ j l. at_work;
  })

  -- What a thread has completed and arrived at.
  counts : (e : ℕ) (t : Thread) → InEpoch e t → (completed t ≤ e) × (e ≤ arrived t)
  unfolding completed arrived
  counts e t at_work = (omega arith, omega arith)
  counts e t at_load = (omega arith, omega arith)
  counts e t at_wait = (omega arith, omega arith)
  counts e t (released k h) = (omega (arith, h), omega (arith, h))

  closing :
      (e w j : ℕ) (t : Thread) (s : Shared)
      → s.thread w ≡ t
      → completed t ≡ e
      → arrived t ≡ suc e
      → AllBut n e w s.thread
      → j < n
      → (completed (s.thread j) ≡ e) × (arrived (s.thread j) ≡ suc e)
  unfolding completed arrived AllBut
  closing e w j t s at ct rt others lj = elim (ℕ_discrete j w) [
    | yes q ↦ (ap completed (ap s.thread q ∙ at) ∙ ct, ap arrived (ap s.thread q ∙ at) ∙ rt)
    | no d ↦ (ap completed (others j lj d), ap arrived (others j lj d))
  ]

  in_step :
      (s : Shared)
      → Inv n s
      → (i j : ℕ) → i < n
      → j < n
      → completed (s.thread i) ≤ arrived (s.thread j)
  unfolding completed arrived
  in_step s (collecting e c) i j li lj =
      omega (arith, counts e (s.thread i) (c.threads i li), counts e (s.thread j) (c.threads j lj))
  in_step s (last_resets e w ei lw at others) i j li lj = omega (
    arith,
    closing e w i (resetting e) s at refl refl others li,
    closing e w j (resetting e) s at refl refl others lj,
  )
  in_step s (last_bumps e w ei zero_ lw at others) i j li lj = omega (
    arith,
    closing e w i (bumping e) s at refl refl others li,
    closing e w j (bumping e) s at refl refl others lj,
  )

  -- For fewer than 2 ^ 32 threads, after any schedule of their accesses from the initial state, no
  -- thread has completed more uses of the barrier than any other thread has arrived at.
  pub no_early_exit :
      (schedule : List ℕ) (i j : ℕ)
      → i < n
      → j < n
      → completed ((run n schedule start).thread i) ≤ arrived ((run n schedule start).thread j)
  no_early_exit schedule i j li lj =
      in_step (run n schedule start) (run-Inv schedule start (start-Inv (omega arith))) i j li lj

  leaves :
      (e c it b : ℕ) (t : Thread)
      → InEpoch e t
      → it ≡ e % 2 ^ 32
      → b ≤ e
      → arrived t ≡ b
      → completed (access n c it t).1.1 ≡ b
  unfolding access completed arrived
  leaves e c it b t at_work ei le q = q
  leaves e c it b t at_load ei le q = elim (Bool-cases (add32 c 1 == n)) [
    | inl h ↦ rw h q
    | inr h ↦ rw h q
  ]
  leaves e c it b t at_wait ei le q = absurd (omega arith)
  leaves e c it b t (released k h) ei le q =
      rw (ap (λ x. (k % 2 ^ 32 == x)) (ei ∙ ap (λ x. x % 2 ^ 32) h) ∙ epochs_differ k) q

  next :
      (s : Shared) (i j : ℕ)
      → i < n
      → j < n
      → Inv n s
      → completed (s.thread i) ≡ arrived (s.thread j)
      → completed ((advance n j s).thread j) ≡ arrived (s.thread j)
  unfolding advance completed arrived
  next s i j li lj (collecting e c) q =
      ap completed (replace-same j (access n s.cnt s.iteration (s.thread j)).1.1 s.thread)
      ∙ leaves e s.cnt s.iteration (arrived (s.thread j)) (s.thread j) (c.threads j lj) c.epoch
          (omega (arith, q, counts e (s.thread i) (c.threads i li))) refl
  next s i j li lj (last_resets e w ei lw at others) q = absurd (
      omega (
        arith,
        q,
        closing e w i (resetting e) s at refl refl others li,
        closing e w j (resetting e) s at refl refl others lj,
      ))
  next s i j li lj (last_bumps e w ei zero_ lw at others) q = absurd (
      omega (
        arith,
        q,
        closing e w i (bumping e) s at refl refl others li,
        closing e w j (bumping e) s at refl refl others lj,
      ))

  -- For fewer than 2 ^ 32 threads, after any schedule from the initial state, when a thread has
  -- completed as many uses of the barrier as another has arrived at, the other has completed them
  -- too after its next access.
  pub released_leaves :
      (schedule : List ℕ) (i j : ℕ)
      → i < n
      → j < n
      → completed ((run n schedule start).thread i) ≡ arrived ((run n schedule start).thread j)
      → completed ((advance n j (run n schedule start)).thread j)
        ≡ arrived ((run n schedule start).thread j)
  released_leaves schedule i j li lj q =
      next (run n schedule start) i j li lj (run-Inv schedule start (start-Inv (omega arith))) q
