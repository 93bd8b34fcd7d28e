-- ===== src/Prelude/Update.antt =====
-- Functions on the native numbers, changed at one number.
use Prim.Native.Nat.{ℕ}
use mathlib.Core.Path.{◌≡◌, ap, ◌∙◌, subst}
use mathlib.Core.Logic.{◌⊎◌, inl, inr}
use native.Mathlib.Decide.{ℕ_discrete}
use native.Mathlib.Omega.{arith}
use snitch_cluster_chips_it.Prelude.Tests.{◌==◌, if◌then◌else◌}

unfoldable pub replace {ℓ} : {A : Type ℓ} → (i : ℕ) → A → (ℕ → A) → ℕ → A
replace i h f j = if j == i then h else f j

pub replace-same {ℓ} : {A : Type ℓ} (i : ℕ) (h : A) (f : ℕ → A) → replace i h f i ≡ h
unfolding replace
replace-same i h f = ground arith

pub replace-other {ℓ} :
    {A : Type ℓ} (i j : ℕ) (h : A) (f : ℕ → A) → ¬ (j ≡ i) → replace i h f j ≡ f j
unfolding replace
replace-other i j h f n = ground arith

module _ {ℓ} {A : Type ℓ} (P : A → Type 0) (i : ℕ) (h : A) (f : ℕ → A) where
  pub into_replace : (j : ℕ) → ((j ≡ i) → P h) → (¬ (j ≡ i) → P (f j)) → P (replace i h f j)
  into_replace j same other = elim (ℕ_discrete j i) [
    | yes e ↦ rw e (rw (replace-same i h f) (same e))
    | no n ↦ rw (replace-other i j h f n) (other n)
  ]

  pub from_replace : (j : ℕ) → P (replace i h f j) → ((j ≡ i) × P h) ⊎ (¬ (j ≡ i) × P (f j))
  from_replace j p = elim (ℕ_discrete j i) [
    | yes e ↦ inl (e, subst P (ap (λ k. replace i h f k) e ∙ replace-same i h f) p)
    | no n ↦ inr (n, subst P (replace-other i j h f n) p)
  ]
