-- ===== src/Sync/Barrier/Counting.antt =====
-- How many of the threads wait for the barrier of one epoch.
use snitch_cluster_chips_it.Prelude.{
  ℕ, zero, suc, ◌+◌, ◌≤◌, ◌<◌, ◌≡◌, Bool, true, false, ◌==◌, replace, replace-same, replace-other,
  refl, ap, ap₂, ◌∙◌, arith, Bool-cases, inl, inr,
}
use native.Mathlib.Decide.{ℕ_discrete}
use snitch_cluster_chips_it.Sync.Barrier.{Thread, spinning}

unfoldable pub waits : (e : ℕ) → Thread → Bool
waits e (spinning r p) = r == e
waits e _ = false

abbrev pub one_if : Bool → ℕ
one_if true = 1
one_if false = 0

unfoldable pub waiting : (e n : ℕ) → (ℕ → Thread) → ℕ
waiting e zero f = 0
waiting e (suc n) f = one_if (waits e (f n)) + waiting e n f

module _ (e : ℕ) (f : ℕ → Thread) where
  pub waiting-le : (n : ℕ) → waiting e n f ≤ n
  unfolding waiting
  waiting-le zero = omega arith
  waiting-le (suc n) = elim (Bool-cases (waits e (f n))) [
    | inl h ↦ rw h (omega (arith, waiting-le n))
    | inr h ↦ rw h (omega (arith, waiting-le n))
  ]

  all_wait : (n j : ℕ) → waiting e n f ≡ n → j < n → waits e (f j) ≡ true
  unfolding waiting
  all_wait zero j w lt = absurd (omega arith)
  all_wait (suc n) j w lt = elim (Bool-cases (waits e (f n))) [
    | inl h ↦ elim (ℕ_discrete j n) [
      | yes q ↦ ap (λ k. waits e (f k)) q ∙ h
      | no d ↦ all_wait n j (omega (arith, w, ap one_if h)) (omega (arith, lt, d))
    ]
    | inr h ↦ absurd (omega (arith, w, ap one_if h, waiting-le n))
  ]

  -- When one does not wait, not all do.
  one_short : (n i : ℕ) → i < n → waits e (f i) ≡ false → waiting e n f < n
  unfolding waiting
  one_short zero i lt fi = absurd (omega arith)
  one_short (suc n) i lt fi = elim (ℕ_discrete n i) [
    | yes q ↦ omega (arith, waiting-le n, ap one_if (ap (λ k. waits e (f k)) q ∙ fi))
    | no d ↦ elim (Bool-cases (waits e (f n))) [
      | inl h ↦ omega (arith, ap one_if h, one_short n i (omega (arith, lt, d)) fi)
      | inr h ↦ omega (arith, ap one_if h, waiting-le n)
    ]
  ]

  -- When all but one wait, each other one waits.
  pub others_wait :
      (n i j : ℕ)
      → suc (waiting e n f) ≡ n
      → i < n
      → waits e (f i) ≡ false
      → j < n
      → ¬ (j ≡ i)
      → waits e (f j) ≡ true
  unfolding waiting
  others_wait zero i j w li fi lj ne = absurd (omega arith)
  others_wait (suc n) i j w li fi lj ne = elim (ℕ_discrete n i) [
    | yes q ↦
        all_wait n j (omega (arith, w, ap one_if (ap (λ k. waits e (f k)) q ∙ fi)))
          (omega (arith, lj, ne, q))
    | no d ↦ elim (Bool-cases (waits e (f n))) [
      | inl h ↦ elim (ℕ_discrete j n) [
        | yes q ↦ ap (λ k. waits e (f k)) q ∙ h
        | no d2 ↦
            others_wait n i j (omega (arith, w, ap one_if h)) (omega (arith, li, d)) fi
              (omega (arith, lj, d2)) ne
      ]
      | inr h ↦ absurd (omega (arith, w, ap one_if h, one_short n i (omega (arith, li, d)) fi))
    ]
  ]

  module _ (i : ℕ) (h : Thread) where
    beyond : (n : ℕ) → n ≤ i → waiting e n (replace i h f) ≡ waiting e n f
    unfolding waiting
    beyond zero le = refl
    beyond (suc n) le =
        ap₂ (λ t w. one_if (waits e t) + w) (replace-other i n h f (omega arith))
          (beyond n (omega arith))

    -- A thread that waits as little or as much as before leaves the number of those that wait.
    pub waiting-same :
        (n : ℕ) → waits e h ≡ waits e (f i) → waiting e n (replace i h f) ≡ waiting e n f
    unfolding waiting
    waiting-same zero q = refl
    waiting-same (suc n) q = elim (ℕ_discrete n i) [
      | yes s ↦
          rw s (rw (replace-same i h f) (ap₂ (λ b w. one_if b + w) q (beyond i (omega arith))))
      | no d ↦ ap₂ (λ t w. one_if (waits e t) + w) (replace-other i n h f d) (waiting-same n q)
    ]

    -- A thread that starts to wait adds one.
    pub waiting-more :
        (n : ℕ)
        → i < n
        → waits e (f i) ≡ false
        → waits e h ≡ true
        → waiting e n (replace i h f) ≡ suc (waiting e n f)
    unfolding waiting
    waiting-more zero lt a b = absurd (omega arith)
    waiting-more (suc n) lt a b = elim (ℕ_discrete n i) [
      | yes s ↦ rw s (
          rw (replace-same i h f) (omega (arith, ap one_if a, ap one_if b, beyond i (omega arith))))
      | no d ↦ rw (replace-other i n h f d) (omega (arith, waiting-more n (omega arith) a b))
    ]
