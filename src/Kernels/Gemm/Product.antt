-- ===== src/Kernels/Gemm/Product.antt =====
-- The compute cores of a cluster together compute the whole product.
use snitch_cluster_chips_it.Prelude.{
  ℕ, ◌%◌, ◌<◌, ◌≡◌, inl, inr, refl, ap, ◌∙◌, subst, arith, List, [], ◌∷◌,
}
use native.Mathlib.Nat.{mod-lt}
use snitch_cluster_chips_it.Team.{Config, IsValid, hart, cluster_compute_core_num}
use snitch_cluster_chips_it.Team.Indices.{compute_core_num-lt}
use snitch_cluster_chips_it.Kernels.Axpy.{element, Memory}
use snitch_cluster_chips_it.Kernels.Axpy.Cores.{Among, AllBelow}
use snitch_cluster_chips_it.Kernels.Gemm.{a_index, b_index, Number, Kernel, Args, sc_st_gemm}
use snitch_cluster_chips_it.Kernels.Gemm.Naive.{Computes, inner-cong}
use snitch_cluster_chips_it.Kernels.Gemm.Cores.{
  Once, Plain, run_gemm, entry_of, result, gemm-keeps, gemm-entry,
}

module _ {ℓ} {F : Type ℓ} (cfg : Config) (cl : ℕ) (kernel : Kernel F) (args : Args) (num : Number F)
    (v : IsValid cfg) (hc : cl < cfg.cluster_num) (ok : Computes num cfg kernel)
    (p : Plain cfg args) where
  abbrev cores : ℕ
  cores = cluster_compute_core_num cfg

  abbrev step : ℕ → Memory F → Memory F
  step i mem = sc_st_gemm cfg (hart cfg cl i) kernel args mem

  -- A core leaves the entries of the other cores' rows.
  other_rows :
      (i r n : ℕ) (mem : Memory F)
      → i < cores
      → r < args.m
      → n < args.n
      → ¬ (r % cores ≡ i)
      → step i mem (entry_of cfg args r n) ≡ mem (entry_of cfg args r n)
  other_rows i r n mem li lr ln ne =
      gemm-keeps cfg cl kernel args num v hc ok p i _ mem li
        (λ s h ls lh on e. ne (ap (λ w. w % cores) (p.apart.distinct r n s h lr ln ls lh e).0 ∙ on))

  run-after :
      (order : List ℕ) (r n : ℕ) (mem : Memory F)
      → AllBelow cores order
      → r < args.m
      → n < args.n
      → ¬ Among (r % cores) order
      → run_gemm cfg cl kernel args order mem (entry_of cfg args r n) ≡ mem (entry_of cfg args r n)
  unfolding run_gemm
  run-after [] r n mem b lr ln away = refl
  run-after (i ∷ order) r n mem b lr ln away =
      run-after order r n (step i mem) b.1 lr ln (λ h. away (inr h))
      ∙ other_rows i r n mem b.0 lr ln (λ e. away (inl e))

  module _ (mem : Memory F) where
    abbrev Operands : Memory F → Type ℓ
    Operands t =
        ((h k : ℕ)
          → h < args.m
          → k < args.k
          → t (element args.a (a_index cfg args.layout args.m h k))
            ≡ mem (element args.a (a_index cfg args.layout args.m h k)))
        × ((h k : ℕ)
            → h < args.n
            → k < args.k
            → t (element args.b (b_index cfg args.layout k h))
              ≡ mem (element args.b (b_index cfg args.layout k h)))

    step-Operands : (i : ℕ) (t : Memory F) → i < cores → Operands t → Operands (step i t)
    step-Operands i t li o = (
      λ h k lh lk.
          gemm-keeps cfg cl kernel args num v hc ok p i _ t li
            (λ r n lr ln on. p.apart.from_a r n h k lr ln lh lk)
          ∙ o.0 h k lh lk,
      λ h k lh lk.
          gemm-keeps cfg cl kernel args num v hc ok p i _ t li
            (λ r n lr ln on. p.apart.from_b r n h k lr ln lh lk)
          ∙ o.1 h k lh lk,
    )

    run-value :
        (order : List ℕ) (r n : ℕ) (t : Memory F)
        → AllBelow cores order
        → Once order
        → r < args.m
        → n < args.n
        → 0 < cores
        → Among (r % cores) order
        → Operands t
        → t (entry_of cfg args r n) ≡ mem (entry_of cfg args r n)
        → run_gemm cfg cl kernel args order t (entry_of cfg args r n) ≡ result cfg args num r n mem
    unfolding run_gemm
    run-value [] r n t b once lr ln pos h o e = absurd h
    run-value (i ∷ order) r n t b once lr ln pos (inl h) o e =
        run-after order r n (step i t) b.1 lr ln (λ a. once.0 (subst (λ w. Among w order) h a))
        ∙ subst (λ w. step w t (entry_of cfg args r n) ≡ result cfg args num r n t) h
            (gemm-entry cfg cl kernel args num v hc ok p r n t lr ln pos)
        ∙ inner-cong num cfg args.layout args.m args.n args.k args.a args.b args.beta args.c r n t
            mem (λ k lk. o.0 r k lr lk) (λ k lk. o.1 n k ln lk) e
    run-value (i ∷ order) r n t b once lr ln pos (inr h) o e =
        run-value order r n (step i t) b.1 once.1 lr ln pos h (step-Operands i t b.0 o)
          (other_rows i r n t b.0 lr ln (λ q. once.0 (subst (λ w. Among w order) q h)) ∙ e)

  -- In a valid configuration, for a kernel that keeps the contract Computes, elements of 8 bytes,
  -- A not transposed, fewer than 2 ^ 32 rows, and entries of C that are apart from each other and
  -- from A and B: after the compute cores of a cluster have called sc_st_gemm, each one once and
  -- in any order, every entry of C is the sum of beta times what it held and the products of its
  -- row of A and its column of B.
  pub run_gemm_lem :
      (order : List ℕ) (mem : Memory F) (r n : ℕ)
      → AllBelow cores order
      → Once order
      → ((i : ℕ) → i < cores → Among i order)
      → r < args.m
      → n < args.n
      → run_gemm cfg cl kernel args order mem (entry_of cfg args r n) ≡ result cfg args num r n mem
  run_gemm_lem order mem r n b once all lr ln =
      run-value mem order r n mem b once lr ln pos (all (r % cores) (mod-lt r pos))
        (λ h k lh lk. refl, λ h k lh lk. refl) refl
    where
      pos : 0 < cores
      pos = omega (arith, v.cores, (compute_core_num-lt v cl 0 hc (omega (arith, v.cores))).0)
