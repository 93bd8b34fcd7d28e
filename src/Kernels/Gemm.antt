-- ===== src/Kernels/Gemm.antt =====
-- sw/kernels/blas/gemm/src/gemm_fp64.h and gemm.h: C = beta * C + A * B. The numbers and their operations
-- are parameters. The kernel that the cores call is a record, which `gemm_fp64_naive` fills.
pub mod Index
pub mod Naive
pub mod Rows
pub mod Cores
pub mod Product
pub mod RowMajor
pub mod Buffers
use snitch_cluster_chips_it.Prelude.{
  ℕ, zero, suc, ◌+◌, ◌/◌, ◌%◌, Bool, true, false, not, ◌&&◌, ltb, ◌==◌, if◌then◌else◌, replace,
  add32, mul32, for_each, List, [], ◌∷◌,
}
use snitch_cluster_chips_it.Team.{
  Config, cluster_core_idx, cluster_compute_core_num, is_compute_core,
}
use snitch_cluster_chips_it.Kernels.Axpy.{element, Memory}

-- The arguments of a kernel that say where the elements of the matrices are, in elements of the type.
pub record Layout : Type 0 where
  pub setup_ssr : Bool
  pub partition_banks : Bool
  pub transa : Bool
  pub transb : Bool
  pub lda : ℕ
  pub ldb : ℕ
  pub ldc : ℕ

-- An index in a row that is spread over a subset of the banks: `elems_per_line` elements to a line.
unfoldable pub banked : (elems_per_line stride row inner : ℕ) → ℕ
banked elems_per_line stride row inner =
    add32 (add32 row (mul32 (inner / elems_per_line) stride)) (inner % elems_per_line)

unfoldable pub elems_per_line : Config → ℕ
elems_per_line cfg = mul32 (cluster_compute_core_num cfg) cfg.tcdm_bank_width / 8

unfoldable pub a_index : Config → Layout → (m_size m k : ℕ) → ℕ
unfolding banked elems_per_line
a_index cfg l m_size m k =
    if l.transa
    then add32 (mul32 (mul32 k m_size) l.lda) (mul32 m l.lda)
    else if l.partition_banks && not l.transb
    then banked (elems_per_line cfg) (cfg.tcdm_hyperbank_width / 8) (mul32 m l.lda) k
    else add32 (mul32 m l.lda) k

unfoldable pub b_index : Config → Layout → (k n : ℕ) → ℕ
unfolding banked elems_per_line
b_index cfg l k n =
    if l.transb
    then add32 (mul32 n l.ldb) k
    else if l.partition_banks && not l.transa
    then banked (elems_per_line cfg) (cfg.tcdm_hyperbank_width / 8) (mul32 k l.ldb) n
    else add32 (mul32 k l.ldb) n

unfoldable pub c_index : Config → Layout → (m n : ℕ) → ℕ
unfolding banked elems_per_line
c_index cfg l m n =
    if l.partition_banks && not l.transa && not l.transb
    then banked (elems_per_line cfg) (cfg.tcdm_hyperbank_width / 8) (mul32 m l.ldc) n
    else add32 (mul32 m l.ldc) n

-- The operations on the numbers; `scale` is `multiply_opt`, `mac c a b` is `c + a * b`.
pub record Number {ℓ} (F : Type ℓ) : Type ℓ where
  pub zero : F
  pub scale_by : F → ℕ → F
  pub mac : F → F → F → F

module _ {ℓ} {F : Type ℓ} (num : Number F) where
  -- `multiply_opt`
  unfoldable pub multiply_opt : F → (multiplier : ℕ) → F
  multiply_opt v multiplier = if multiplier == 0 then num.zero else num.scale_by v multiplier

  module _ (cfg : Config) (l : Layout) (m_size k_size : ℕ) (a b : ℕ) (beta c : ℕ) where
    -- `c0` at the end of the innermost loop
    unfoldable pub inner : (m n : ℕ) → Memory F → F
    unfolding a_index b_index c_index multiply_opt element for_each
    inner m n mem =
        for_each k_size
          (λ k c0.
            num.mac c0 (mem (element a (a_index cfg l m_size m k)))
              (mem (element b (b_index cfg l k n))))
          (multiply_opt (mem (element c (c_index cfg l m n))) beta)

    unfoldable pub gemm_fp64_naive : (n_size : ℕ) → Memory F → Memory F
    unfolding inner c_index element for_each
    gemm_fp64_naive n_size = for_each m_size (λ m.
        for_each n_size (λ n mem. replace (element c (c_index cfg l m n)) (inner m n mem) mem))

-- `gemm_fp_t`: the kernels, with what they have in common as arguments
abbrev pub Kernel {ℓ} : Type ℓ → Type ℓ
Kernel F = Layout → (m n k : ℕ) (a b beta c : ℕ) → Memory F → Memory F

-- `sc_st_gemm_args_t`
pub record Args : Type 0 where
  pub prec : ℕ
  pub layout : Layout
  pub m : ℕ
  pub n : ℕ
  pub k : ℕ
  pub a : ℕ
  pub b : ℕ
  pub beta : ℕ
  pub c : ℕ

module _ (cfg : Config) (core_idx : ℕ) (args : Args) where
  unfoldable pub frac_m : ℕ
  frac_m =
      let core_num = cluster_compute_core_num cfg in
      if ltb core_idx (args.m % core_num) then add32 (args.m / core_num) 1 else args.m / core_num

  -- Where the rows of the core begin, and how they are laid out.
  unfoldable pub core_a : ℕ
  core_a = add32 args.a (mul32 (mul32 core_idx args.layout.lda) args.prec)

  unfoldable pub core_c : ℕ
  core_c = add32 args.c (mul32 (mul32 core_idx args.layout.ldc) args.prec)

  unfoldable pub core_layout : Layout
  core_layout = record args.layout {
    lda = mul32 (cluster_compute_core_num cfg) args.layout.lda;
    ldc = mul32 (cluster_compute_core_num cfg) args.layout.ldc;
  }

module _ {ℓ} {F : Type ℓ} where
  unfoldable pub sc_st_gemm : Config → (hartid : ℕ) → Kernel F → Args → Memory F → Memory F
  unfolding frac_m core_a core_c core_layout
  sc_st_gemm cfg hartid kernel args mem =
      let i = cluster_core_idx cfg hartid in
      if is_compute_core cfg hartid && ltb 0 (frac_m cfg i args)
      then kernel (core_layout cfg i args) (frac_m cfg i args) args.n args.k (core_a cfg i args)
          args.b args.beta (core_c cfg i args) mem
      else mem
