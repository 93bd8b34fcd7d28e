-- ===== src/Prelude/Counting.antt =====
-- How many of the first `n` values of a function satisfy a test.
use Prim.Native.Nat.{ℕ, zero, suc, ◌+◌, ◌≤◌, ◌<◌}
use mathlib.Core.Path.{◌≡◌, refl, ap, ap₂, ◌∙◌}
use mathlib.Core.Bool.{Bool, true, false}
use mathlib.Core.Logic.{inl, inr}
use native.Mathlib.Omega.{arith}
use snitch_cluster_chips_it.Prelude.Tests.{Bool-cases}
use snitch_cluster_chips_it.Prelude.Update.{replace, replace-same, replace-other}
use native.Mathlib.Decide.{ℕ_discrete}

abbrev pub one_if : Bool → ℕ
one_if true = 1
one_if false = 0

module _ {ℓ} {A : Type ℓ} (p : A → Bool) where
  unfoldable pub count : ℕ → (ℕ → A) → ℕ
  count zero f = 0
  count (suc n) f = one_if (p (f n)) + count n f

  module _ (f : ℕ → A) where
    pub count-le : (n : ℕ) → count n f ≤ n
    unfolding count
    count-le zero = omega arith
    count-le (suc n) = elim (Bool-cases (p (f n))) [
      | inl h ↦ omega (arith, count-le n, ap one_if h)
      | inr h ↦ omega (arith, count-le n, ap one_if h)
    ]

    -- When as many satisfy the test as there are, each one does.
    pub count-all : (n j : ℕ) → count n f ≡ n → j < n → p (f j) ≡ true
    unfolding count
    count-all zero j e lt = absurd (omega arith)
    count-all (suc n) j e lt = elim (Bool-cases (p (f n))) [
      | inl h ↦ elim (ℕ_discrete j n) [
        | yes q ↦ ap (λ k. p (f k)) q ∙ h
        | no d ↦ count-all n j (omega (arith, e, ap one_if h)) (omega (arith, lt, d))
      ]
      | inr h ↦ absurd (omega (arith, e, ap one_if h, count-le n))
    ]

    pub all-count : (n : ℕ) → ((j : ℕ) → j < n → p (f j) ≡ true) → count n f ≡ n
    unfolding count
    all-count zero all = refl
    all-count (suc n) all =
        omega
          (arith, all-count n (λ j lt. all j (omega (arith, lt))), ap one_if (all n (omega arith)))

    pub none-count : (n : ℕ) → ((j : ℕ) → j < n → p (f j) ≡ false) → count n f ≡ 0
    unfolding count
    none-count zero none = refl
    none-count (suc n) none =
        omega (
          arith,
          none-count n (λ j lt. none j (omega (arith, lt))),
          ap one_if (none n (omega arith)),
        )

    module _ (i : ℕ) (w : A) where
      beyond : (n : ℕ) → n ≤ i → count n (replace i w f) ≡ count n f
      unfolding count
      beyond zero le = refl
      beyond (suc n) le =
          ap₂ (λ a k. one_if (p a) + k) (replace-other i n w f (omega arith))
            (beyond n (omega arith))

      -- Changing one value changes the count by what the test says of it before and after.
      pub count-replace :
          (n : ℕ) → i < n → count n (replace i w f) + one_if (p (f i)) ≡ count n f + one_if (p w)
      unfolding count
      count-replace zero lt = absurd (omega arith)
      count-replace (suc n) lt = elim (ℕ_discrete n i) [
        | yes e ↦ rw e (rw (replace-same i w f) (omega (arith, beyond i (omega arith))))
        | no d ↦
            rw (replace-other i n w f d) (omega (arith, count-replace n (omega (arith, lt, d))))
      ]

  pub count-cong : (f g : ℕ → A) → ((j : ℕ) → p (f j) ≡ p (g j)) → (n : ℕ) → count n f ≡ count n g
  unfolding count
  count-cong f g e zero = refl
  count-cong f g e (suc n) = ap₂ (λ b k. one_if b + k) (e n) (count-cong f g e n)
