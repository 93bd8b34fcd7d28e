-- ===== src/Kernels/Gemv/Streams.antt =====
-- Where the two streams of `single_core_gemv` are.
use snitch_cluster_chips_it.Prelude.{
  ℕ, zero, suc, ◌+◌, ◌*◌, ◌%◌, ◌^◌, ◌≤◌, ◌<◌, ◌≡◌, Bool, true, false, refl, sym, ap, ap₂, ◌∙◌,
  arith, mul32, if◌then◌else◌, div-mul_add, mul-suc_le,
}
use native.Mathlib.Nat.{mod-eq_of_lt}
use snitch_cluster_chips_it.Ssr.{Regs, loop_2d, read, write_ssr_cfg}
use snitch_cluster_chips_it.Ssr.AddrGen.{Gen, step, after, launch, load}
use snitch_cluster_chips_it.Ssr.Registers.{Fits}
use snitch_cluster_chips_it.Ssr.Level.{nest2}
use snitch_cluster_chips_it.Ssr.Program.{offset}
use snitch_cluster_chips_it.Ssr.Loops.{loop_2d-nest}
use snitch_cluster_chips_it.Kernels.Axpy.{element}
use snitch_cluster_chips_it.Kernels.Axpy.Equal.{mod-word}

-- The index in the array of element `j` of row `i`.
abbrev pub index : Bool → (lda i j : ℕ) → ℕ
index true lda i j = j * lda + i
index false lda i j = i * lda + j

pub after-after :
    (im p dims k t : ℕ) (g : Gen)
    → after im p dims t (after im p dims k g) ≡ after im p dims (k + t) g
unfolding after
after-after im p dims k zero g = ap (λ w. after im p dims w g) (omega arith)
after-after im p dims k (suc t) g =
    ap (step im p dims) (after-after im p dims k t g) ∙ ap (λ (w : ℕ). after im p dims w g) assoc
  where
    assoc : suc (k + t) ≡ k + suc t
    assoc = omega arith

-- Both streams are programmed and started, and each one's loops are as if it were alone.
module _ (im p m n t0 t1 : ℕ) (regs : Regs) where
  pub launch-ft0 :
      (ptr : ℕ)
      → launch im p (read 0 1 ptr (loop_2d 1 n m t0 t1 regs)) 0 ptr ≡ launch im p regs 0 ptr
  unfolding launch load loop_2d write_ssr_cfg read
  launch-ft0 ptr = refl

  pub launch-ft1 :
      (ptr0 ptr : ℕ)
      → launch im p (read 1 1 ptr (read 0 1 ptr0 (loop_2d 1 n m t0 t1 regs))) 1 ptr
        ≡ launch im p (loop_2d 1 n m t0 t1 regs) 1 ptr
  unfolding launch load loop_2d write_ssr_cfg read
  launch-ft1 ptr0 ptr = refl

module _ (im p q m n : ℕ) (e : p * q ≡ 2 ^ 32) (pos : 0 < im)
    (rm : (1 ≤ m) × (m ≤ im) × (m < 2 ^ 32)) (rn : (1 ≤ n) × (n ≤ im) × (n < 2 ^ 32)) where
  -- The pointer of element `j` of row `i` of a stream.
  at :
      (dm ptr s0 s1 i j : ℕ) (regs : Regs)
      → Fits im n s0
      → Fits im m s1
      → i < m
      → j < n
      → (after im p 1 (i * n + j) (launch im p (loop_2d dm n m s0 s1 regs) dm ptr)).pointer % p
        ≡ (ptr + (j * s0 + i * s1)) % 2 ^ 32 % p
  at dm ptr s0 s1 i j regs f0 f1 li lj =
      (loop_2d-nest im p q e pos dm ptr regs n m s0 s1 (i * n + j) f0 f1
        (omega (arith, lj, mul-suc_le i m n li))).1
      ∙ sym (mod-word p q e (ptr + offset (nest2 n m s0 s1) (i * n + j)))
      ∙ ap (λ w. (ptr + w) % 2 ^ 32 % p) digits
    where
      digits : offset (nest2 n m s0 s1) (i * n + j) ≡ j * s0 + i * s1
      digits =
          ap₂ (λ (u v : ℕ). u * s0 + (v % m * s1 + 0)) (div-mul_add i j n lj).1
            (div-mul_add i j n lj).0
          ∙ ap (λ (v : ℕ). j * s0 + (v * s1 + 0)) (mod-eq_of_lt li)
          ∙ omega arith

  module _ (a lda : ℕ) (wide : lda * 8 < 2 ^ 32) (regs : Regs) where
    wide_lem : mul32 lda 8 ≡ lda * 8
    wide_lem = omega (arith, wide)

    pub a-at :
        (trans : Bool) (i j : ℕ)
        → i < m
        → j < n
        → (after im p 1 (i * n + j) (
              launch im p
                (if trans
                  then loop_2d 0 n m (mul32 lda 8) 8 regs
                  else loop_2d 0 n m 8 (mul32 lda 8) regs)
                0
                a)).pointer
            % p
          ≡ element a (index trans lda i j) % p
    unfolding element
    a-at true i j li lj =
        at 0 a (mul32 lda 8) 8 i j regs (rn.0, rn.1, rn.2, omega arith, omega arith)
          (rm.0, rm.1, rm.2, omega arith, omega arith) li lj
        ∙ ap (λ w. w % p) (omega (arith, ap (λ (w : ℕ). j * w) wide_lem))
    a-at false i j li lj =
        at 0 a 8 (mul32 lda 8) i j regs (rn.0, rn.1, rn.2, omega arith, omega arith)
          (rm.0, rm.1, rm.2, omega arith, omega arith) li lj
        ∙ ap (λ w. w % p) (omega (arith, ap (λ (w : ℕ). i * w) wide_lem))

  pub x-at :
      (x incx i j : ℕ) (regs : Regs)
      → incx * 8 < 2 ^ 32
      → i < m
      → j < n
      → (after im p 1 (i * n + j) (launch im p (loop_2d 1 n m (mul32 8 incx) 0 regs) 1 x)).pointer
          % p
        ≡ element x (j * incx) % p
  unfolding element
  x-at x incx i j regs wide li lj =
      at 1 x (mul32 8 incx) 0 i j regs (rn.0, rn.1, rn.2, omega arith, omega arith)
        (rm.0, rm.1, rm.2, omega arith, omega arith) li lj
      ∙ ap (λ w. w % p) (omega (arith, ap (λ (w : ℕ). j * w) wide_lem))
    where
      wide_lem : mul32 8 incx ≡ incx * 8
      wide_lem = omega (arith, wide)
