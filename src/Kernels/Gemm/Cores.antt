-- ===== src/Kernels/Gemm/Cores.antt =====
-- What one call of `sc_st_gemm` computes.
use snitch_cluster_chips_it.Prelude.{
  ℕ, ◌+◌, ◌*◌, ◌/◌, ◌%◌, ◌^◌, ◌<◌, ◌≡◌, inl, inr, false, ltb, lt→ltb, for_each-cong, if◌then◌else◌,
  refl, sym, ap, ap₂, ◌∙◌, subst, arith, List, [], ◌∷◌, Bool-cases,
}
use native.Mathlib.Nat.{mod-add-div', mod-lt}
use snitch_cluster_chips_it.Team.{Config, IsValid, hart, cluster_compute_core_num}
use snitch_cluster_chips_it.Team.Indices.{idx-hart, role-hart, compute_core_num-lt}
use snitch_cluster_chips_it.Kernels.Axpy.{element, Memory}
use snitch_cluster_chips_it.Kernels.Axpy.Cores.{Among}
use snitch_cluster_chips_it.Kernels.Gemm.{
  c_index, Number, inner, Kernel, Args, frac_m, core_a, core_c, core_layout, sc_st_gemm,
  multiply_opt,
}
use snitch_cluster_chips_it.Kernels.Gemm.Naive.{Separate, Computes}
use snitch_cluster_chips_it.Kernels.Gemm.Index.{core-a_index, core-b_index, core-c_index}
use snitch_cluster_chips_it.Kernels.Gemm.Rows.{row-lt, row-of_core, row-injective, row-core}

-- No core comes twice.
abbrev pub Once : List ℕ → Type 0
Once [] = Unit {0}
Once (c ∷ order) = ¬ Among c order × Once order

-- What a call works on: doubles, A not transposed, numbers that fit a word, cells apart.
pub record Plain (cfg : Config) (args : Args) : Type 0 where
  pub double : args.prec ≡ 8
  pub upright : args.layout.transa ≡ false
  pub small : args.m < 2 ^ 32
  pub apart : Separate cfg args.layout args.m args.n args.k args.a args.b args.c

module _ (cfg : Config) (args : Args) (p : Plain cfg args) (i : ℕ)
    (li : i < cluster_compute_core_num cfg) where
  core-Separate :
      Separate cfg
        (core_layout cfg i args)
        (frac_m cfg i args)
        args.n
        args.k
        (core_a cfg i args)
        args.b
        (core_c cfg i args)
  core-Separate = record {
    from_a = λ m n h k lm ln lh lk e.
        p.apart.from_a _ n _ k (row-lt cfg args p.small i m li lm) ln
          (row-lt cfg args p.small i h li lh) lk
          (sym (core-a_index cfg args i p.double p.upright (frac_m cfg i args) h k)
            ∙ e
            ∙ core-c_index cfg args i p.double p.upright m n);
    from_b = λ m n h k lm ln lh lk e.
        p.apart.from_b _ n h k (row-lt cfg args p.small i m li lm) ln lh lk (
          sym (ap (element args.b) (core-b_index cfg args i p.double p.upright k h))
          ∙ e
          ∙ core-c_index cfg args i p.double p.upright m n);
    distinct = λ m n g h lm ln lg lh e.
        let d =
          p.apart.distinct _ n _ h (row-lt cfg args p.small i m li lm) ln
            (row-lt cfg args p.small i g li lg) lh
            (sym (core-c_index cfg args i p.double p.upright m n)
              ∙ e
              ∙ core-c_index cfg args i p.double p.upright g h) in
        (row-injective cfg args p.small i m g li d.0, d.1);
  }

-- The entries of C, and what they become.
module _ (cfg : Config) (args : Args) where
  abbrev pub entry_of : (r n : ℕ) → ℕ
  entry_of r n = element args.c (c_index cfg args.layout r n)

  abbrev pub result {ℓ} : {F : Type ℓ} → Number F → (r n : ℕ) → Memory F → F
  result num r n mem =
      inner num cfg args.layout args.m args.k args.a args.b args.beta args.c r n mem

-- The compute cores of cluster `cl` that call `sc_st_gemm`, in the order in which they do.
module _ {ℓ} {F : Type ℓ} (cfg : Config) (cl : ℕ) (kernel : Kernel F) (args : Args) where
  unfoldable pub run_gemm : List ℕ → Memory F → Memory F
  run_gemm [] mem = mem
  run_gemm (i ∷ order) mem = run_gemm order (sc_st_gemm cfg (hart cfg cl i) kernel args mem)

  module _ (num : Number F) (v : IsValid cfg) (hc : cl < cfg.cluster_num)
      (ok : Computes num cfg kernel) (p : Plain cfg args) where
    abbrev call : ℕ → Memory F → Memory F
    call i mem =
        kernel (core_layout cfg i args) (frac_m cfg i args) args.n args.k (core_a cfg i args) args.b
          args.beta (core_c cfg i args) mem

    on_core :
        (i : ℕ) (mem : Memory F)
        → i < cluster_compute_core_num cfg
        → sc_st_gemm cfg (hart cfg cl i) kernel args mem
          ≡ (if ltb 0 (frac_m cfg i args) then call i mem else mem)
    unfolding sc_st_gemm
    on_core i mem li =
        rw ((role-hart v cl i hc below).1.1 li) (rw (idx-hart v cl i hc below).1 refl)
      where
        below : i < cfg.cluster_core_num
        below = omega (arith, li, (compute_core_num-lt v cl 0 hc (omega (arith, v.cores))).0)

    core-result :
        (i j n : ℕ) (mem : Memory F)
        → inner num cfg
            (core_layout cfg i args)
            (frac_m cfg i args)
            args.k
            (core_a cfg i args)
            args.b
            args.beta
            (core_c cfg i args)
            j
            n
            mem
          ≡ result cfg args num (i + j * cluster_compute_core_num cfg) n mem
    unfolding inner
    core-result i j n mem =
        for_each-cong args.k _ _ _ _
          (λ k c0 lk.
            ap₂ (λ x y. num.mac c0 (mem x) (mem y))
              (core-a_index cfg args i p.double p.upright (frac_m cfg i args) j k)
              (ap (element args.b) (core-b_index cfg args i p.double p.upright k n)))
          (ap (λ x. multiply_opt num (mem x) args.beta)
            (core-c_index cfg args i p.double p.upright j n))

    -- A core changes the entries in its own rows only.
    pub gemm-keeps :
        (i address : ℕ) (mem : Memory F)
        → i < cluster_compute_core_num cfg
        → ((r n : ℕ)
            → r < args.m
            → n < args.n
            → r % cluster_compute_core_num cfg ≡ i
            → ¬ (address ≡ entry_of cfg args r n))
        → sc_st_gemm cfg (hart cfg cl i) kernel args mem address ≡ mem address
    gemm-keeps i address mem li away =
        ap (λ (t : Memory F). t address) (on_core i mem li)
        ∙ elim (Bool-cases (ltb 0 (frac_m cfg i args))) [
          | inl e ↦ rw e (
              ok.keeps _ _ _ _ _ _ _ _ address mem (λ j n lj ln q.
                away _ n (row-lt cfg args p.small i j li lj) ln
                  (row-core cfg args p.small i j _ li refl)
                  (q ∙ core-c_index cfg args i p.double p.upright j n)))
          | inr e ↦ rw e refl
        ]

    pub gemm-entry :
        (r n : ℕ) (mem : Memory F)
        → r < args.m
        → n < args.n
        → 0 < cluster_compute_core_num cfg
        → sc_st_gemm cfg
            (hart cfg cl (r % cluster_compute_core_num cfg))
            kernel
            args
            mem
            (entry_of cfg args r n)
          ≡ result cfg args num r n mem
    gemm-entry r n mem lr ln pos =
        ap (λ (t : Memory F). t (entry_of cfg args r n)) (on_core i mem (mod-lt r pos))
        ∙ rw (lt→ltb 0 (frac_m cfg i args) (omega (arith, here))) (
            subst (λ w. call i mem (entry_of cfg args w n) ≡ result cfg args num w n mem)
              (mod-add-div' r (cluster_compute_core_num cfg))
              (ap (call i mem) (sym (core-c_index cfg args i p.double p.upright j n))
                ∙ ok.entry _ _ _ _ _ _ _ _ j n mem (core-Separate cfg args p i (mod-lt r pos)) here
                    ln
                ∙ core-result i j n mem))
      where
        i : ℕ
        i = r % cluster_compute_core_num cfg

        j : ℕ
        j = r / cluster_compute_core_num cfg

        here : j < frac_m cfg i args
        here = row-of_core cfg args p.small r lr pos
