-- ===== src/Kernels/Gemm/Rows.antt =====
-- Which rows `sc_st_gemm` gives to which core.
use snitch_cluster_chips_it.Prelude.{
  ℕ, ◌+◌, ◌*◌, ◌/◌, ◌%◌, ◌^◌, ◌<◌, ◌≡◌, inl, inr, ltb, ltb→lt, ltb→le, sym, ap, ◌∙◌, arith,
  Bool-cases, mul-suc_le, mul_mono, div-mul_add,
}
use native.Mathlib.Nat.{mod-add-div', mod-lt}
use native.Mathlib.Decide.{dec_lt}
use snitch_cluster_chips_it.Team.{Config, cluster_compute_core_num}
use snitch_cluster_chips_it.Kernels.Gemm.{Args, frac_m}

module _ (cfg : Config) (args : Args) (small : args.m < 2 ^ 32) where
  abbrev cores : ℕ
  cores = cluster_compute_core_num cfg

  -- The rows of a core lie in the matrix.
  pub row-lt : (i j : ℕ) → i < cores → j < frac_m cfg i args → i + j * cores < args.m
  unfolding frac_m
  row-lt i j li lj = elim (Bool-cases (ltb i (args.m % cores))) [
    | inl e ↦ omega (
      arith,
      ltb→lt i (args.m % cores) e,
      mod-add-div' args.m cores,
      mul_mono j (args.m / cores) cores
          (omega (arith, small, (rw e at lj), mod-add-div' args.m cores)),
    )
    | inr e ↦
        omega
          (arith, li, mod-add-div' args.m cores, mul-suc_le j (args.m / cores) cores (rw e at lj))
  ]

  -- Each row of the matrix is a row of the core that its number says.
  pub row-of_core : (r : ℕ) → r < args.m → 0 < cores → r / cores < frac_m cfg (r % cores) args
  unfolding frac_m
  row-of_core r lr pos = elim (Bool-cases (ltb (r % cores) (args.m % cores))) [
    | inl e ↦ rw e (elim (dec_lt (args.m / cores) (r / cores)) [
      | yes over ↦ absurd (
          omega
            (arith, whole, mul-suc_le (args.m / cores) (r / cores) cores over, mod-lt args.m pos))
      | no le ↦ omega (
        arith,
        le,
        whole,
        small,
        ltb→lt (r % cores) (args.m % cores) e,
        mul_mono 1 cores (args.m / cores) pos,
      )
    ])
    | inr e ↦ rw e (elim (dec_lt (r / cores) (args.m / cores)) [
      | yes lt ↦ lt
      | no ge ↦ absurd (
          omega (
            arith,
            whole,
            ltb→le (r % cores) (args.m % cores) e,
            mul_mono (args.m / cores) (r / cores) cores (omega (arith, ge)),
          ))
    ])
  ]
    where
      whole :
          (r % cores + r / cores * cores ≡ r)
          × (args.m % cores + args.m / cores * cores ≡ args.m)
          × (r < args.m)
      whole = (mod-add-div' r cores, mod-add-div' args.m cores, lr)

  pub row-injective : (i j g : ℕ) → i < cores → i + j * cores ≡ i + g * cores → j ≡ g
  row-injective i j g li e =
      sym (div-mul_add j i cores li).0
      ∙ ap (λ t. t / cores) (omega (arith, e))
      ∙ (div-mul_add g i cores li).0

  pub row-core : (i j r : ℕ) → i < cores → r ≡ i + j * cores → r % cores ≡ i
  row-core i j r li e = ap (λ t. t % cores) (omega (arith, e)) ∙ (div-mul_add j i cores li).1
