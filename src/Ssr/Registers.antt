-- ===== src/Ssr/Registers.antt =====
-- What `snrt_ssr_loop_1d` to `snrt_ssr_loop_4d` leave in the registers, and the arithmetic of the
-- relative strides that they compute.
use snitch_cluster_chips_it.Prelude.{
  ℕ, ◌+◌, ◌-◌, ◌*◌, ◌/◌, ◌%◌, ◌^◌, ◌≤◌, ◌<◌, ◌≡◌, ap, ◌∙◌, arith, sub32, add32, mul32,
}
use native.Mathlib.Nat.{mod-add-mod, add-mul-mod_self_left}
use snitch_cluster_chips_it.Ssr.{Regs, write_ssr_cfg, loop_1d, loop_2d, loop_3d, loop_4d}
use snitch_cluster_chips_it.Ssr.Stream.{Cong}

-- A relative stride, cut to whole words and to the pointer's width, makes up for what the inner
-- loops advance by.
pub rel-lem :
    (p q s a off : ℕ)
    → p * q ≡ 2 ^ 32
    → s < 2 ^ 32
    → a < 2 ^ 32
    → s % 8 ≡ 0
    → a % 8 ≡ 0
    → off % 2 ^ 32 ≡ a
    → Cong p ((sub32 s a - sub32 s a % 8) % p + off) s
rel-lem p q s a off e hs ha s8 a8 ho =
    ap (λ t. (t % p + off) % p) kept
    ∙ mod-add-mod r p off
    ∙ ap (λ t. t % p) wrapped
    ∙ add-mul-mod_self_left s p (q * k)
  where
    r : ℕ
    r = sub32 s a

    kept : r - r % 8 ≡ r
    kept = omega arith

    k : ℕ
    k = (r + off) / 2 ^ 32

    wrapped : r + off ≡ s + p * (q * k)
    wrapped = omega (arith, ap (λ (t : ℕ). t * k) e)

-- The sum `a` that the code accumulates stays a multiple of 8 and follows the exact sum.
pub acc-lem :
    (a off s b : ℕ)
    → s % 8 ≡ 0
    → a % 8 ≡ 0
    → off % 2 ^ 32 ≡ a
    → ((off + b * s) % 2 ^ 32 ≡ add32 a (mul32 s b))
      × (add32 a (mul32 s b) % 8 ≡ 0)
      × (add32 a (mul32 s b) < 2 ^ 32)
acc-lem a off s b s8 a8 ho = omega (arith, ap (λ (t : ℕ). t * b) whole)
  where
    whole : s ≡ 8 * (s / 8)
    whole = omega arith

-- The iteration bounds and strides of one loop: words, strides whole.
abbrev pub Fits : (index_mod b s : ℕ) → Type 0
Fits im b s = (1 ≤ b) × (b ≤ im) × (b < 2 ^ 32) × (s < 2 ^ 32) × (s % 8 ≡ 0)

pub regs_1d :
    (dm b0 s0 : ℕ) (regs : Regs)
    → let r = loop_1d dm b0 s0 regs dm in (r 2 ≡ sub32 b0 1) × (r 6 ≡ sub32 s0 0)
unfolding loop_1d write_ssr_cfg
regs_1d dm b0 s0 regs = ground arith

pub regs_2d :
    (dm b0 b1 s0 s1 : ℕ) (regs : Regs)
    → let r = loop_2d dm b0 b1 s0 s1 regs dm in
      let a1 = add32 0 (mul32 s0 (sub32 b0 1)) in
      (r 2 ≡ sub32 b0 1) × (r 3 ≡ sub32 b1 1) × (r 6 ≡ sub32 s0 0) × (r 7 ≡ sub32 s1 a1)
unfolding loop_2d write_ssr_cfg
regs_2d dm b0 b1 s0 s1 regs = ground arith

pub regs_3d :
    (dm b0 b1 b2 s0 s1 s2 : ℕ) (regs : Regs)
    → let r = loop_3d dm b0 b1 b2 s0 s1 s2 regs dm in
      let a1 = add32 0 (mul32 s0 (sub32 b0 1)) in
      let a2 = add32 a1 (mul32 s1 (sub32 b1 1)) in
      (r 2 ≡ sub32 b0 1)
      × (r 3 ≡ sub32 b1 1)
      × (r 4 ≡ sub32 b2 1)
      × (r 6 ≡ sub32 s0 0)
      × (r 7 ≡ sub32 s1 a1)
      × (r 8 ≡ sub32 s2 a2)
unfolding loop_3d write_ssr_cfg
regs_3d dm b0 b1 b2 s0 s1 s2 regs = ground arith

pub regs_4d :
    (dm b0 b1 b2 b3 s0 s1 s2 s3 : ℕ) (regs : Regs)
    → let r = loop_4d dm b0 b1 b2 b3 s0 s1 s2 s3 regs dm in
      let a1 = add32 0 (mul32 s0 (sub32 b0 1)) in
      let a2 = add32 a1 (mul32 s1 (sub32 b1 1)) in
      let a3 = add32 a2 (mul32 s2 (sub32 b2 1)) in
      (r 2 ≡ sub32 b0 1)
      × (r 3 ≡ sub32 b1 1)
      × (r 4 ≡ sub32 b2 1)
      × (r 5 ≡ sub32 b3 1)
      × (r 6 ≡ sub32 s0 0)
      × (r 7 ≡ sub32 s1 a1)
      × (r 8 ≡ sub32 s2 a2)
      × (r 9 ≡ sub32 s3 a3)
unfolding loop_4d write_ssr_cfg
regs_4d dm b0 b1 b2 b3 s0 s1 s2 s3 regs = ground arith
