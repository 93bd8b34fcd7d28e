-- ===== src/Prelude/Arith.antt =====
-- Facts on products, quotients and remainders that several components share.
use Prim.Native.Nat.{ℕ, ◌+◌, ◌*◌, ◌/◌, ◌%◌, ◌≤◌, ◌<◌}
use mathlib.Core.Path.{◌≡◌}
use native.Mathlib.Decide.{dec_lt}
use native.Mathlib.Omega.{arith}

-- The digits of a number in base `n`.
pub div-mul_add : (c i n : ℕ) → i < n → ((c * n + i) / n ≡ c) × ((c * n + i) % n ≡ i)
div-mul_add c i n h = (grind arith, grind arith)

pub mul-suc_le : (c m n : ℕ) → c < m → c * n + n ≤ m * n
mul-suc_le c m n h = grind arith

pub mul_mono : (a b n : ℕ) → a ≤ b → a * n ≤ b * n
mul_mono a b n h = grind arith

-- A multiple below the next multiple is no larger.
pub multiple-le : (p q n t : ℕ) → q * n < t + n → t ≤ p * n → q * n ≤ p * n
multiple-le p q n t h k = elim (dec_lt p q) [
  | yes lt ↦ absurd (omega (arith, mul-suc_le p q n lt))
  | no ge ↦ mul_mono q p n (omega arith)
]
