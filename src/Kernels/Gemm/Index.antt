-- ===== src/Kernels/Gemm/Index.antt =====
-- The rows that a core gets from `sc_st_gemm`, and where their elements are.
use snitch_cluster_chips_it.Prelude.{
  ℕ, ◌+◌, ◌*◌, ◌/◌, ◌^◌, ◌≡◌, inl, inr, false, not, ◌&&◌, refl, ap, arith, add32, mul32, Bool-cases,
}
use snitch_cluster_chips_it.Team.{Config, cluster_compute_core_num}
use snitch_cluster_chips_it.Kernels.Axpy.{element}
use snitch_cluster_chips_it.Kernels.Gemm.{
  banked, a_index, b_index, c_index, Args, core_a, core_c, core_layout,
}

-- Row `j` from the core's first row on, `cores` rows apart, is row `i + j * cores` of the matrix.
module _ (base i ld j cores : ℕ) where
  wraps :
      (j * (cores * ld) ≡ j * mul32 cores ld + 2 ^ 32 * (j * (cores * ld / 2 ^ 32)))
      × ((i + j * cores) * ld ≡ i * ld + j * (cores * ld))
  wraps = (omega (arith, ap (λ (t : ℕ). j * t) split), omega arith)
    where
      split : cores * ld ≡ mul32 cores ld + 2 ^ 32 * (cores * ld / 2 ^ 32)
      split = omega arith

  row-plain :
      (r : ℕ)
      → element (add32 base (mul32 (mul32 i ld) 8)) (add32 (mul32 j (mul32 cores ld)) r)
        ≡ element base (add32 (mul32 (i + j * cores) ld) r)
  unfolding element
  row-plain r = omega (arith, wraps)

  row-banked :
      (elems stride inner : ℕ)
      → element
          (add32 base (mul32 (mul32 i ld) 8))
          (banked elems stride (mul32 j (mul32 cores ld)) inner)
        ≡ element base (banked elems stride (mul32 (i + j * cores) ld) inner)
  unfolding element banked
  row-banked elems stride inner = omega (arith, wraps)

module _ (cfg : Config) (args : Args) (i : ℕ) (double : args.prec ≡ 8)
    (plain : args.layout.transa ≡ false) where
  pub core-a_index :
      (rows j k : ℕ)
      → element (core_a cfg i args) (a_index cfg (core_layout cfg i args) rows j k)
        ≡ element args.a (a_index cfg args.layout args.m (i + j * cluster_compute_core_num cfg) k)
  unfolding core_a core_layout a_index
  core-a_index rows j k =
      elim (Bool-cases (args.layout.partition_banks && not args.layout.transb)) [
        | inl e ↦
            rw (double, plain, e)
              (row-banked args.a i args.layout.lda j (cluster_compute_core_num cfg) _ _ k)
        | inr e ↦
            rw (double, plain, e)
              (row-plain args.a i args.layout.lda j (cluster_compute_core_num cfg) k)
      ]

  pub core-c_index :
      (j n : ℕ)
      → element (core_c cfg i args) (c_index cfg (core_layout cfg i args) j n)
        ≡ element args.c (c_index cfg args.layout (i + j * cluster_compute_core_num cfg) n)
  unfolding core_c core_layout c_index
  core-c_index j n =
      elim (Bool-cases
        (args.layout.partition_banks && not args.layout.transa && not args.layout.transb)) [
          | inl e ↦
              rw (double, e)
                (row-banked args.c i args.layout.ldc j (cluster_compute_core_num cfg) _ _ n)
          | inr e ↦
              rw (double, e) (row-plain args.c i args.layout.ldc j (cluster_compute_core_num cfg) n)
        ]

  pub core-b_index :
      (k n : ℕ) → b_index cfg (core_layout cfg i args) k n ≡ b_index cfg args.layout k n
  unfolding core_layout b_index
  core-b_index k n = refl
