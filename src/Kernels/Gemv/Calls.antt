-- ===== src/Kernels/Gemv/Calls.antt =====
-- What one compute core of a cluster does with `gemv`.
use snitch_cluster_chips_it.Prelude.{
  ℕ, ◌+◌, ◌-◌, ◌*◌, ◌%◌, ◌^◌, ◌≤◌, ◌<◌, ◌≡◌, inl, inr, Bool, ltb, ltb→lt, lt→ltb, Bool-cases,
  if◌then◌else◌, refl, sym, ap, ap₂, ◌∙◌, subst, arith, List, [], ◌∷◌, for_each-cong,
}
use native.Mathlib.Decide.{dec_lt}
use snitch_cluster_chips_it.Team.{Config, IsValid, hart, cluster_compute_core_num}
use snitch_cluster_chips_it.Team.Indices.{idx-hart, compute_core_num-lt}
use snitch_cluster_chips_it.Ssr.{Regs}
use snitch_cluster_chips_it.Kernels.Axpy.{element, Memory}
use snitch_cluster_chips_it.Kernels.Axpy.Job.Transfers.{element-element}
use snitch_cluster_chips_it.Kernels.Gemv.{
  Scalars, start_m, core_m, row_stride, first_row, single_core_gemv, gemv,
}
use snitch_cluster_chips_it.Kernels.Gemv.Streams.{index}
use snitch_cluster_chips_it.Kernels.Gemv.Core.{dot, Separate, core-keeps, core-value}
use snitch_cluster_chips_it.Kernels.Gemv.Shares.{share-lt, row-index}

abbrev pub stride_of : Bool → (m n : ℕ) → ℕ
stride_of trans m n = if trans then m else n

-- Arguments for which the streams and the pointers do not wrap, and y apart from A and x.
pub record Plain (im p : ℕ) (trans : Bool) (m n a x incx y : ℕ) : Type 0 where
  pub q : ℕ
  pub pointers : p * q ≡ 2 ^ 32
  pub indices : 0 < im
  pub rows : (m ≤ im) × (m < 2 ^ 32)
  pub columns : (1 ≤ n) × (n ≤ im) × (n < 2 ^ 32)
  pub wide_a : stride_of trans m n * 8 < 2 ^ 32
  pub wide_x : incx * 8 < 2 ^ 32
  pub apart : Separate p trans m n a (stride_of trans m n) x incx y

-- The compute cores of cluster `cl` that call `gemv`, in the order in which they do.
module _ {ℓ} {F : Type ℓ} (im p : ℕ) (ops : Scalars F) (cfg : Config) (cl : ℕ) (trans : Bool)
    (m n : ℕ) (alpha : F) (a x incx y : ℕ) (regs : ℕ → Regs) where
  unfoldable pub run_gemv : List ℕ → Memory F → Memory F
  unfolding gemv
  run_gemv [] mem = mem
  run_gemv (c ∷ order) mem =
      run_gemv order (gemv im p ops cfg (hart cfg cl c) trans m n alpha a x incx y (regs c) mem)

  abbrev pub lda : ℕ
  lda = stride_of trans m n

  module _ (v : IsValid cfg) (hc : cl < cfg.cluster_num) (ok : Plain im p trans m n a x incx y)
      (old : Memory F) where
    abbrev pub cores : ℕ
    cores = cluster_compute_core_num cfg

    -- What core `i` does.
    abbrev pub call : ℕ → Regs → Memory F → Memory F
    call i r mem =
        if ltb 0 (core_m cfg i trans m n a)
        then single_core_gemv im p ops trans (core_m cfg i trans m n a) n alpha
            (first_row cfg i trans m n a) (row_stride cfg i trans m n a) x incx
            (element y (start_m cfg i trans m n a)) r mem
        else mem

    pub on_core :
        (c : ℕ) (mem : Memory F)
        → c < cores
        → gemv im p ops cfg (hart cfg cl c) trans m n alpha a x incx y (regs c) mem
          ≡ call c (regs c) mem
    unfolding gemv
    on_core c mem lt =
        ap (λ (i : ℕ). call i (regs c) mem)
          (idx-hart v cl c hc
            (omega (arith, lt, (compute_core_num-lt v cl 0 hc (omega (arith, v.cores))).0))).1

    abbrev pub wanted : ℕ → F
    wanted r = ops.fmul (dot p ops trans n a lda x incx r old) alpha

    abbrev pub Kept : Memory F → Type ℓ
    Kept mem =
        ((i j : ℕ)
          → i < m
          → j < n
          → mem (element a (index trans lda i j) % p) ≡ old (element a (index trans lda i j) % p))
        × ((j : ℕ) → j < n → mem (element x (j * incx) % p) ≡ old (element x (j * incx) % p))

    module _ (i : ℕ) (li : i < cores) where
      abbrev start : ℕ
      start = start_m cfg i trans m n a

      abbrev share : ℕ
      share = core_m cfg i trans m n a

      few : cores < 2 ^ 32
      few = omega (arith, compute_core_num-lt v cl 0 hc (omega (arith, v.cores)))

      row-lt : (j : ℕ) → j < share → start + j < m
      row-lt j lj = share-lt cfg trans m n a ok.rows.1 few i j li lj

      cell-row : (j : ℕ) → element (element y start) j ≡ element y (start + j)
      cell-row j = element-element y start j

      entry :
          (g j : ℕ)
          → element (first_row cfg i trans m n a) (index trans lda g j)
            ≡ element a (index trans lda (start + g) j)
      unfolding row_stride
      entry g j = row-index cfg i m n a trans g j

      core-Separate :
          Separate p trans share n (first_row cfg i trans m n a) lda x incx (element y start)
      core-Separate = record {
        from_a = λ h g j lh lg lj e.
            ok.apart.from_a (start + h) (start + g) j (row-lt h lh) (row-lt g lg) lj
              (ap (λ w. w % p) (sym (entry g j)) ∙ e ∙ ap (λ w. w % p) (cell-row h));
        from_x = λ h j lh lj e.
            ok.apart.from_x (start + h) j (row-lt h lh) lj (e ∙ ap (λ w. w % p) (cell-row h));
        distinct = λ g h lg lh e. omega (
          arith,
          ok.apart.distinct (start + g) (start + h) (row-lt g lg) (row-lt h lh)
              (ap (λ w. w % p) (sym (cell-row g)) ∙ e ∙ ap (λ w. w % p) (cell-row h)),
        );
      }

      share-range : 0 < share → (1 ≤ share) × (share ≤ im) × (share < 2 ^ 32)
      share-range pos = (pos, omega (arith, last, ok.rows.0), omega (arith, last, ok.rows.1))
        where
          last : start + (share - 1) < m
          last = row-lt (share - 1) (omega (arith, pos))

      -- Addresses that are no element of the core's part of y keep their values.
      call-keeps :
          (r : Regs) (address : ℕ) (mem : Memory F)
          → ((h : ℕ) → h < share → ¬ (address ≡ element y (start + h) % p))
          → call i r mem address ≡ mem address
      unfolding row_stride
      call-keeps r address mem away = elim (Bool-cases (ltb 0 share)) [
        | inl e ↦ rw e (
            core-keeps im p ok.q ok.pointers ok.indices ops trans share n alpha _ lda x incx _ r mem
              (share-range (ltb→lt 0 share e)) ok.columns ok.wide_a ok.wide_x address
              (λ h lh q. away h lh (q ∙ ap (λ w. w % p) (cell-row h))))
        | inr e ↦ rw e refl
      ]

      pub call-Kept : (r : Regs) (mem : Memory F) → Kept mem → Kept (call i r mem)
      call-Kept r mem k = (
        λ g j lg lj.
            call-keeps r _ mem (λ h lh. ok.apart.from_a (start + h) g j (row-lt h lh) lg lj)
            ∙ k.0 g j lg lj,
        λ j lj.
            call-keeps r _ mem (λ h lh. ok.apart.from_x (start + h) j (row-lt h lh) lj) ∙ k.1 j lj,
      )

      pub call-value :
          (r : Regs) (mem : Memory F) (j : ℕ)
          → j < share
          → Kept mem
          → call i r mem (element y (start + j) % p) ≡ wanted (start + j)
      unfolding row_stride dot
      call-value r mem j lj k = rw (lt→ltb 0 share (omega (arith, lj))) (
          ap ran (ap (λ w. w % p) (sym (cell-row j)))
          ∙ core-value im p ok.q ok.pointers ok.indices ops trans share n alpha _ lda x incx _ r mem
              (share-range (omega (arith, lj))) ok.columns ok.wide_a ok.wide_x j lj core-Separate
          ∙ ap (λ (s : F). ops.fmul s alpha)
              (for_each-cong n _ _ ops.zero ops.zero
                (λ t acc lt.
                  ap₂ (λ (u w : F). ops.fmadd u w acc)
                    (ap (λ w. mem (w % p)) (entry j t) ∙ k.0 (start + j) t (row-lt j lj) lt)
                    (k.1 t lt))
                refl))
        where
          ran : Memory F
          ran =
              single_core_gemv im p ops trans share n alpha (first_row cfg i trans m n a) lda x incx
                (element y start) r mem

      abbrev pub Done : ℕ → Memory F → Type ℓ
      Done t mem = mem (element y t % p) ≡ wanted t

      pub call-Done :
          (r : Regs) (mem : Memory F) (t : ℕ)
          → t < m
          → Kept mem
          → Done t mem
          → Done t (call i r mem)
      call-Done r mem t lt k d = elim (dec_lt t start) [
        | yes b ↦ other (λ h lh e. omega (arith, b, e))
        | no s ↦ elim (dec_lt (t - start) share) [
          | yes l ↦ subst (λ w. Done w (call i r mem)) (back s) (call-value r mem (t - start) l k)
          | no b ↦ other (λ h lh e. omega (arith, b, s, lh, e))
        ]
      ]
        where
          back : ¬ (t < start) → start + (t - start) ≡ t
          back s = omega (arith, s)

          other : ((h : ℕ) → h < share → ¬ (t ≡ start + h)) → Done t (call i r mem)
          other ne =
              call-keeps r (element y t % p) mem
                (λ h lh e. ne h lh (ok.apart.distinct t (start + h) lt (row-lt h lh) e))
              ∙ d
