-- ===== src/Alloc/Align.antt =====
-- `snrt_align_up`: the next boundary at or above the address.
use snitch_cluster_chips_it.Prelude.{
  ℕ, ◌+◌, ◌-◌, ◌*◌, ◌/◌, ◌%◌, ◌^◌, ◌≤◌, ◌<◌, ◌≡◌, arith, ap, ◌∙◌, add32, sub32, multiple-le,
}
use native.Mathlib.Nat.{div-add-mod', lt-div-mul-add, div-mul-le_self, mul-mod_left}
use snitch_cluster_chips_it.Alloc.{align_up}

inner_lem :
    (addr size base : ℕ)
    → base ≤ addr
    → 0 < size
    → addr + size < 2 ^ 32
    → sub32 (add32 (sub32 addr base) size) 1 ≡ addr - base + size - 1
inner_lem addr size base hb hs hw = omega arith

-- Without wrap-around the code computes a rounded quotient.
pub align_up-eq :
    (addr size base : ℕ)
    → base ≤ addr
    → 0 < size
    → addr + size < 2 ^ 32
    → align_up addr size base ≡ (addr - base + size - 1) / size * size + base
unfolding align_up
align_up-eq addr size base hb hs hw =
    rw (inner_lem addr size base hb hs hw)
      (omega (arith, div-mul-le_self (addr - base + size - 1) size))

-- When the base is not above the address, the size is not 0 and the address plus the size does not
-- wrap, the aligned address is not below the address, less than one size above it, and a whole
-- number of sizes above the base.
pub align_up_lem :
    (addr size base : ℕ)
    → base ≤ addr
    → 0 < size
    → addr + size < 2 ^ 32
    → (addr ≤ align_up addr size base)
      × (align_up addr size base < addr + size)
      × ((align_up addr size base - base) % size ≡ 0)
align_up_lem addr size base hb hs hw = (
  rw e (omega (arith, lt-div-mul-add {a = addr - base + size - 1} hs)),
  rw e (omega (arith, div-mul-le_self (addr - base + size - 1) size)),
  rw e (ap (λ t. t % size) (omega arith) ∙ mul-mod_left ((addr - base + size - 1) / size) size),
)
  where
    e : align_up addr size base ≡ (addr - base + size - 1) / size * size + base
    e = align_up-eq addr size base hb hs hw

-- When the base is not above the address, the size is not 0 and the address plus the size does not
-- wrap, the aligned address is not above any address b that is not below the address and a whole
-- number of sizes above the base.
align_up_least :
    (addr size base b : ℕ)
    → base ≤ addr
    → 0 < size
    → addr + size < 2 ^ 32
    → addr ≤ b
    → (b - base) % size ≡ 0
    → align_up addr size base ≤ b
align_up_least addr size base b hb hs hw ha h =
    rw (align_up-eq addr size base hb hs hw) (omega (arith, below, whole))
  where
    q : ℕ
    q = (addr - base + size - 1) / size

    whole : (b - base) / size * size ≡ b - base
    whole = omega (arith, div-add-mod' (b - base) size)

    below : q * size ≤ (b - base) / size * size
    below =
        multiple-le ((b - base) / size) q size (addr - base)
          (omega (arith, div-mul-le_self (addr - base + size - 1) size)) (omega (arith, whole))

-- From base 0 the boundaries are the multiples of the size.
pub align_up_zero :
    (addr size : ℕ)
    → 0 < size
    → addr + size < 2 ^ 32
    → (addr ≤ align_up addr size 0)
      × (align_up addr size 0 < addr + size)
      × (align_up addr size 0 % size ≡ 0)
align_up_zero addr size hs hw =
    let (above, below, boundary) = align_up_lem addr size 0 (omega arith) hs hw in
    (above, below, ap (λ t. t % size) (omega arith) ∙ boundary)
