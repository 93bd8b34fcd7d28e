-- ===== src/Kernels/Gemm/RowMajor.antt =====
-- The product that `sc_st_gemm` computes with `gemm_fp64_naive`, in the addresses of the elements.
use snitch_cluster_chips_it.Prelude.{
  ℕ, zero, suc, ◌+◌, ◌*◌, ◌%◌, ◌^◌, ◌<◌, ◌≤◌, ◌≡◌, Bool, false, ◌&&◌, ◌==◌, Bool-cases,
  if◌then◌else◌, refl, sym, subst, inl, inr, ap, ap₂, ◌∙◌, arith, List, for_each, for_each-cong,
  mul-suc_le,
}
use snitch_cluster_chips_it.Team.{Config, IsValid, cluster_compute_core_num}
use snitch_cluster_chips_it.Kernels.Axpy.{element, Memory}
use snitch_cluster_chips_it.Kernels.Axpy.Cores.{Among, AllBelow}
use snitch_cluster_chips_it.Kernels.Gemm.{
  a_index, b_index, c_index, Number, multiply_opt, inner, gemm_fp64_naive, Args,
}
use snitch_cluster_chips_it.Kernels.Gemm.Naive.{gemm_fp64_naive-Computes}
use snitch_cluster_chips_it.Kernels.Gemm.Cores.{Once, Plain, run_gemm}
use snitch_cluster_chips_it.Kernels.Gemm.Product.{run_gemm_lem}

-- Rows of A and C that follow each other, and a B of rows, or of columns if it is transposed. The leading
-- dimensions hold a row, and the matrices end below 4 GiB.
pub record RowMajor (args : Args) : Type 0 where
  pub unbanked : args.layout.partition_banks ≡ false
  pub upright : args.layout.transa ≡ false
  pub a_row : args.k ≤ args.layout.lda
  pub b_row : (if args.layout.transb then args.k else args.n) ≤ args.layout.ldb
  pub c_row : args.n ≤ args.layout.ldc
  pub a_ends : args.a + args.m * args.layout.lda * 8 < 2 ^ 32
  pub b_ends :
      args.b + (if args.layout.transb then args.n else args.k) * args.layout.ldb * 8 < 2 ^ 32
  pub c_ends : args.c + args.m * args.layout.ldc * 8 < 2 ^ 32

-- Element (r, s) of rows `ld` doubles apart.
abbrev pub at : (base ld r s : ℕ) → ℕ
at base ld r s = base + (r * ld + s) * 8

-- Row `r` of A times column `n` of B, up to term `k`, on top of `c0`.
pub dot {ℓ} : {F : Type ℓ} (mac : F → F → F → F) (x y : ℕ → F) (c0 : F) → ℕ → F
dot mac x y c0 zero = c0
dot mac x y c0 (suc k) = mac (dot mac x y c0 k) (x k) (y k)

module _ (args : Args) where
  abbrev pub b_at : (k n : ℕ) → ℕ
  b_at k n =
      if args.layout.transb then at args.b args.layout.ldb n k else at args.b args.layout.ldb k n

  -- What entry (r, n) of C becomes.
  abbrev pub sum {ℓ} : {F : Type ℓ} → Number F → Memory F → (r n : ℕ) → F
  sum num mem r n =
      dot num.mac (λ k. mem (at args.a args.layout.lda r k)) (λ k. mem (b_at k n))
        (if args.beta == 0
          then num.zero
          else num.scale_by (mem (at args.c args.layout.ldc r n)) args.beta)
        args.k

plain-element :
    (base ld rows cols r s : ℕ)
    → cols ≤ ld
    → base + rows * ld * 8 < 2 ^ 32
    → r < rows
    → s < cols
    → element base ((r * ld % 2 ^ 32 + s) % 2 ^ 32) ≡ at base ld r s
unfolding element
plain-element base ld rows cols r s hs small lr ls = omega (arith, mul-suc_le r rows ld lr)

module _ (cfg : Config) (args : Args) (w : RowMajor args) where
  a-at :
      (r k : ℕ)
      → r < args.m
      → k < args.k
      → element args.a (a_index cfg args.layout args.m r k) ≡ at args.a args.layout.lda r k
  unfolding a_index
  a-at r k lr lk =
      rw (w.upright, w.unbanked, ◌&&◌)
        (plain-element args.a args.layout.lda args.m args.k r k w.a_row w.a_ends lr lk)

  c-at :
      (r n : ℕ)
      → r < args.m
      → n < args.n
      → element args.c (c_index cfg args.layout r n) ≡ at args.c args.layout.ldc r n
  unfolding c_index
  c-at r n lr ln =
      rw (w.unbanked, ◌&&◌)
        (plain-element args.c args.layout.ldc args.m args.n r n w.c_row w.c_ends lr ln)

  b-at :
      (k n : ℕ)
      → k < args.k
      → n < args.n
      → element args.b (b_index cfg args.layout k n) ≡ b_at args k n
  unfolding b_index
  b-at k n lk ln = elim (Bool-cases args.layout.transb) [
    | inl t ↦ rw t (
        plain-element args.b args.layout.ldb args.n args.k n k (subst (λ v. Row v) t w.b_row)
          (subst (λ v. Ends v) t w.b_ends) ln lk)
    | inr t ↦
        rw (t, w.unbanked, ◌&&◌)
          (plain-element args.b args.layout.ldb args.k args.n k n (subst (λ v. Row v) t w.b_row)
            (subst (λ v. Ends v) t w.b_ends) lk ln)
  ]
    where
      Row : Bool → Type 0
      Row v = (if v then args.k else args.n) ≤ args.layout.ldb

      Ends : Bool → Type 0
      Ends v = args.b + (if v then args.n else args.k) * args.layout.ldb * 8 < 2 ^ 32

  module _ {ℓ} {F : Type ℓ} (num : Number F) (mem : Memory F) (r n : ℕ) where
    for_each-dot :
        (x y : ℕ → F) (c0 : F) (m : ℕ)
        → for_each m (λ k c. num.mac c (x k) (y k)) c0 ≡ dot num.mac x y c0 m
    unfolding for_each dot
    for_each-dot x y c0 zero = refl
    for_each-dot x y c0 (suc m) = ap (λ c. num.mac c (x m) (y m)) (for_each-dot x y c0 m)

    inner-dot :
        r < args.m
        → n < args.n
        → inner num cfg args.layout args.m args.k args.a args.b args.beta args.c r n mem
          ≡ sum args num mem r n
    unfolding inner multiply_opt
    inner-dot lr ln =
        for_each-cong args.k _ _ _ _
          (λ k c0 lk. ap₂ (λ x y. num.mac c0 (mem x) (mem y)) (a-at r k lr lk) (b-at k n lk ln))
          (ap (λ x. multiply_opt num (mem x) args.beta) (c-at r n lr ln))
        ∙ for_each-dot _ _ _ args.k

    -- In a valid configuration, for elements of 8 bytes, A in rows, B in rows or transposed in
    -- columns, C in rows, each of at least their length and ending below 4 GiB, and entries of C
    -- that are apart from each other and from A and B: after the compute cores of a cluster have
    -- called sc_st_gemm with gemm_fp64_naive as the kernel, each one once and in any order, entry
    -- (r, n) of C, the double n + r * ldc behind its base, is the sum, from the first term on, of
    -- beta times what it held (zero if beta is 0) and of the products, in order, of the doubles of
    -- row r of A and of column n of B.
    pub gemm_fp64_naive_lem :
        (cl : ℕ) (order : List ℕ)
        → IsValid cfg
        → cl < cfg.cluster_num
        → Plain cfg args
        → AllBelow (cluster_compute_core_num cfg) order
        → Once order
        → ((i : ℕ) → i < cluster_compute_core_num cfg → Among i order)
        → r < args.m
        → n < args.n
        → run_gemm cfg cl
            (λ l m n k a b beta c. gemm_fp64_naive num cfg l m k a b beta c n)
            args
            order
            mem
            (at args.c args.layout.ldc r n)
          ≡ sum args num mem r n
    gemm_fp64_naive_lem cl order v hc p below once all lr ln =
        ap (run_gemm cfg cl _ args order mem) (sym (c-at r n lr ln))
        ∙ run_gemm_lem cfg cl (λ l m n k a b beta c. gemm_fp64_naive num cfg l m k a b beta c n)
            args num v hc (gemm_fp64_naive-Computes num cfg) p order mem r n below once all lr ln
        ∙ inner-dot lr ln
