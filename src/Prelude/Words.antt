-- ===== src/Prelude/Words.antt =====
-- Machine words of the 32-bit cores: a word is a native number, and each operation wraps as C's
-- unsigned arithmetic does. `size_t` and `uintptr_t` are 32 bits wide.
use Prim.Native.Nat.{ℕ, ◌+◌, ◌-◌, ◌*◌, ◌/◌, ◌%◌, ◌^◌}
use mathlib.Core.Bool.{Bool}
use snitch_cluster_chips_it.Prelude.Tests.{ltb, leb, ◌==◌, if◌then◌else◌}

abbrev pub u32 : ℕ → ℕ
u32 n = n % 2 ^ 32

abbrev pub u64 : ℕ → ℕ
u64 n = n % 2 ^ 64

abbrev pub add32 : ℕ → ℕ → ℕ
add32 a b = (a + b) % 2 ^ 32

-- The second operand is a word.
abbrev pub sub32 : ℕ → ℕ → ℕ
sub32 a b = (a + 2 ^ 32 - b) % 2 ^ 32

abbrev pub mul32 : ℕ → ℕ → ℕ
mul32 a b = a * b % 2 ^ 32

abbrev pub add64 : ℕ → ℕ → ℕ
add64 a b = (a + b) % 2 ^ 64

-- `1 << k` on a word.
abbrev pub bit32 : ℕ → ℕ
bit32 k = 2 ^ k % 2 ^ 32

-- Signed words, in two's complement. A division by 0 gives what RISC-V's `div` and `rem` give.
abbrev pub neg32 : ℕ → ℕ
neg32 a = sub32 0 a

abbrev pub is_neg : ℕ → Bool
is_neg a = leb (2 ^ 31) a

abbrev pub abs32 : ℕ → ℕ
abs32 a = if is_neg a then neg32 a else a

abbrev pub sdiv32 : ℕ → ℕ → ℕ
sdiv32 a b =
    if b == 0
    then 2 ^ 32 - 1
    else if is_neg a
    then (if is_neg b then abs32 a / abs32 b else neg32 (abs32 a / abs32 b))
    else if is_neg b
    then neg32 (abs32 a / abs32 b)
    else a / b

abbrev pub srem32 : ℕ → ℕ → ℕ
srem32 a b = if b == 0 then a else if is_neg a then neg32 (abs32 a % abs32 b) else a % abs32 b

-- The order of signed words is that of the words with their sign bit flipped.
abbrev pub slt32 : ℕ → ℕ → Bool
slt32 a b = ltb (add32 a (2 ^ 31)) (add32 b (2 ^ 31))

abbrev pub sle32 : ℕ → ℕ → Bool
sle32 a b = leb (add32 a (2 ^ 31)) (add32 b (2 ^ 31))
