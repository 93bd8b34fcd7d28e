-- ===== src/Kernels/Gemm/Buffers/Rows.antt =====
-- Without partitioned banks the six buffers lie one behind the other.
use snitch_cluster_chips_it.Prelude.{ℕ, ◌+◌, ◌*◌, ◌^◌, ◌≤◌, ◌<◌, false, arith, add32}
use snitch_cluster_chips_it.Team.{Config}
use snitch_cluster_chips_it.Alloc.{align_up, align_up_hyperbank}
use snitch_cluster_chips_it.Alloc.Align.{align_up_lem}
use snitch_cluster_chips_it.Kernels.Gemm.Buffers.{first_buffers, second_buffers}

align8 :
    (addr : ℕ) → addr + 8 < 2 ^ 32 → (addr ≤ align_up addr 8 0) × (align_up addr 8 0 < addr + 8)
align8 addr h = let l = align_up_lem addr 8 0 (omega arith) (omega arith) h in (l.0, l.1)

behind :
    (base size : ℕ)
    → base + size + 8 < 2 ^ 32
    → (base + size ≤ align_up (add32 base size) 8 0)
      × (align_up (add32 base size) 8 0 < base + size + 8)
behind base size h = (
  omega (arith, (align8 (add32 base size) (omega arith)).0, h),
  omega (arith, (align8 (add32 base size) (omega arith)).1, h),
)

module _ (cfg : Config) (hyperbank_num hyperbank_size bank_num : ℕ)
    (next size_a size_b size_c banks_per_buffer : ℕ) (above : cfg.tcdm_start_addr ≤ next)
    (wide : 0 < cfg.tcdm_hyperbank_width)
    (small : next + cfg.tcdm_hyperbank_width + 2 * (size_a + size_b + size_c) + 48 < 2 ^ 32) where
  -- Without partitioned banks, when the next free address is not below the start of the TCDM and
  -- the sums do not wrap: the six tile buffers of gemm lie one behind the other, each in its full
  -- size, from the next free address on, and the last one ends at most 40 bytes and the width of a
  -- hyperbank behind what their sizes add up to.
  pub buffers-Apart :
      let s =
        first_buffers cfg hyperbank_num hyperbank_size bank_num next size_a size_b size_c false
          banks_per_buffer in
      let t =
        second_buffers cfg hyperbank_num hyperbank_size bank_num next size_a size_b size_c false
          banks_per_buffer in
      (next ≤ s.a)
      × (s.a + size_a ≤ s.b)
      × (s.b + size_b ≤ s.c)
      × (s.c + size_c ≤ t.a)
      × (t.a + size_a ≤ t.b)
      × (t.b + size_b ≤ t.c)
      × (t.c + size_c ≤ next + cfg.tcdm_hyperbank_width + 2 * (size_a + size_b + size_c) + 40)
  unfolding first_buffers second_buffers align_up_hyperbank
  buffers-Apart =
      let a0 =
        align_up_lem next cfg.tcdm_hyperbank_width cfg.tcdm_start_addr above wide
          (omega (arith, small)) in
      let b0 = behind _ size_a (omega (arith, small, a0.1)) in
      let c0 = behind _ size_b (omega (arith, small, a0.1, b0.1)) in
      let a1 = behind _ size_c (omega (arith, small, a0.1, b0.1, c0.1)) in
      let b1 = behind _ size_a (omega (arith, small, a0.1, b0.1, c0.1, a1.1)) in
      let c1 = behind _ size_b (omega (arith, small, a0.1, b0.1, c0.1, a1.1, b1.1)) in
      (a0.0, b0.0, c0.0, a1.0, b1.0, c1.0, omega (arith, a0.1, b0.1, c0.1, a1.1, b1.1, c1.1))
