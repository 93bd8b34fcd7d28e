-- ===== src/Prelude/Loops.antt =====
-- The loop `for (i = 0; i < n; i++)`.
use Prim.Native.Nat.{ℕ, zero, suc, ◌<◌}
use mathlib.Core.Path.{◌≡◌, sym, subst, ap, ◌∙◌}
use native.Mathlib.Omega.{arith}
use native.Mathlib.Decide.{ℕ_discrete}

unfoldable pub for_each {ℓ} : {S : Type ℓ} (n : ℕ) → (body : ℕ → S → S) → S → S
for_each zero body s = s
for_each (suc n) body s = body n (for_each n body s)

-- What each iteration keeps, the loop keeps.
pub for_each-keeps {ℓ ℓ'} :
    {S : Type ℓ} (P : S → Type ℓ') (n : ℕ) (body : ℕ → S → S) (s : S)
    → ((i : ℕ) (t : S) → i < n → P t → P (body i t))
    → P s
    → P (for_each n body s)
unfolding for_each
for_each-keeps P zero body s step p = p
for_each-keeps P (suc n) body s step p =
    step n (for_each n body s) (omega arith)
      (for_each-keeps P n body s (λ i t lt. step i t (omega (arith, lt))) p)

-- Iteration `i` comes from a state that the iterations before it kept, and the ones after it keep what
-- it has made.
pub for_each-at {ℓ ℓ' ℓ''} :
    {S : Type ℓ} (P : S → Type ℓ') (Q : S → Type ℓ'') (n i : ℕ) (body : ℕ → S → S) (s : S)
    → i < n
    → ((j : ℕ) (t : S) → j < n → ¬ (j ≡ i) → P t → P (body j t))
    → ((t : S) → P t → Q (body i t))
    → ((j : ℕ) (t : S) → j < n → ¬ (j ≡ i) → Q t → Q (body j t))
    → P s
    → Q (for_each n body s)
unfolding for_each
for_each-at P Q zero i body s lt before at after p = absurd (omega (arith, lt))
for_each-at P Q (suc n) i body s lt before at after p = elim (ℕ_discrete i n) [
  | yes e ↦
      subst (λ j. Q (body j (for_each n body s))) e
        (at (for_each n body s) (
          for_each-keeps P n body s
            (λ j t lj. before j t (omega (arith, lj)) (omega (arith, lj, e))) p))
  | no d ↦
      after n (for_each n body s) (omega arith) (λ q. d (sym q))
        (for_each-at P Q n i body s (omega (arith, lt, d))
          (λ j t lj. before j t (omega (arith, lj))) at (λ j t lj. after j t (omega (arith, lj))) p)
]

pub for_each-cong {ℓ} :
    {S : Type ℓ} (n : ℕ) (f g : ℕ → S → S) (s t : S)
    → ((i : ℕ) (u : S) → i < n → f i u ≡ g i u)
    → s ≡ t
    → for_each n f s ≡ for_each n g t
unfolding for_each
for_each-cong zero f g s t h e = e
for_each-cong (suc n) f g s t h e =
    h n (for_each n f s) (omega arith)
    ∙ ap (g n) (for_each-cong n f g s t (λ i u lt. h i u (omega (arith, lt))) e)
