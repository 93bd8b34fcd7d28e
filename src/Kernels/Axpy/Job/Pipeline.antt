-- ===== src/Kernels/Axpy/Job/Pipeline.antt =====
-- The iterations of `axpy_job` together.
use snitch_cluster_chips_it.Prelude.{
  ℕ, zero, suc, ◌+◌, ◌-◌, ◌*◌, ◌/◌, ◌%◌, ◌≤◌, ◌<◌, ◌≡◌, refl, ap, ◌∙◌, subst, arith, for_each,
}
use native.Mathlib.Decide.{ℕ_discrete}
use snitch_cluster_chips_it.Kernels.Axpy.{element, Memory}
use snitch_cluster_chips_it.Kernels.Axpy.Job.{
  Args, Memories, Turn, before, between, after, iteration, axpy_job,
}
use snitch_cluster_chips_it.Kernels.Axpy.Job.Layout.{Cells}
use native.Mathlib.Nat.{mod-lt, mod-add-div', div-lt_iff_lt-mul}
use snitch_cluster_chips_it.Kernels.Axpy.Job.Invariant.{Elementwise, Remote, wanted, State}
use snitch_cluster_chips_it.Kernels.Axpy.Job.Load.{dma_in-State}
use snitch_cluster_chips_it.Kernels.Axpy.Job.Compute.{compute-State}
use snitch_cluster_chips_it.Kernels.Axpy.Job.Store.{dma_out-State}

module _ {ℓ} {F : Type ℓ} (p : ℕ) (args : Args F) (buffers : ℕ → ℕ)
    (kernel : (i n : ℕ) (a : F) (x y z : ℕ) → Memory F → Memory F) (f : F → F → F → F)
    (k : (i : ℕ) → Elementwise p (args.n / args.n_tiles) f (kernel i))
    (cells : Cells p (args.n / args.n_tiles) buffers) (r : Remote args) (old : Memories F) where
  abbrev size : ℕ
  size = args.n / args.n_tiles

  abbrev buf : (q j : ℕ) → ℕ
  buf q j = element (buffers q) j % p

  iteration-State :
      (turn : Turn) (i : ℕ) (s : Memories F)
      → i < args.n_tiles + 2
      → State p args buffers kernel f k cells r old i i (i - 1) (i - 2) s
      → State p args buffers kernel f k cells r old i
          (suc i)
          i
          (i - 1)
          (iteration p args buffers kernel turn i s)
  unfolding iteration
  iteration-State before i s h st =
      dma_out-State p args buffers kernel f k cells r old i (suc i) i _ h (omega arith) (
        dma_in-State p args buffers kernel f k cells r old i i (i - 2) _
          (compute-State p args buffers kernel f k cells r old i i (i - 2) s (omega arith) st))
  iteration-State between i s h st =
      dma_out-State p args buffers kernel f k cells r old i (suc i) i _ h (omega arith) (
        compute-State p args buffers kernel f k cells r old i (suc i) (i - 2) _ (omega arith)
          (dma_in-State p args buffers kernel f k cells r old i (i - 1) (i - 2) s st))
  iteration-State after i s h st =
      compute-State p args buffers kernel f k cells r old i (suc i) (i - 1) _ (omega arith) (
        dma_out-State p args buffers kernel f k cells r old i (suc i) (i - 1) _ h (omega arith)
          (dma_in-State p args buffers kernel f k cells r old i (i - 1) (i - 2) s st))

  next :
      (i : ℕ) (s : Memories F)
      → State p args buffers kernel f k cells r old i (suc i) i (i - 1) s
      → State p args buffers kernel f k cells r old (suc i) (suc i) (suc i - 1) (suc i - 2) s
  next i s st = record {
    input = st.input;
    operands = λ t j lt le ln lj. st.operands t j lt (omega (arith, le)) ln lj;
    results = λ t j lt le ln lj. st.results t j (omega (arith, lt)) (omega (arith, le)) ln lj;
    outputs = λ t j lt ln lj. st.outputs t j (omega (arith, lt)) ln lj;
  }

  iterations-State :
      (turns : ℕ → Turn) (i : ℕ)
      → i ≤ args.n_tiles + 2
      → State p args buffers kernel f k cells r old i i
          (i - 1)
          (i - 2)
          (for_each i (λ i. iteration p args buffers kernel (turns i) i) old)
  unfolding for_each
  iterations-State turns zero h = record {
    input = λ g lg. (refl, refl);
    operands = λ t j lt le ln lj. absurd (omega (arith, lt));
    results = λ t j lt le ln lj. absurd (omega (arith, lt));
    outputs = λ t j lt ln lj. absurd (omega (arith, lt));
  }
  iterations-State turns (suc i) h =
      next i _ (iteration-State (turns i) i _ h (iterations-State turns i (omega (arith, h))))

  -- For any kernel that works element by element and any addresses that keep apart.
  pub axpy_job_lem :
      (turns : ℕ → Turn) (i : ℕ)
      → i < args.n
      → (axpy_job p args buffers kernel turns old).l3 (element args.z i)
        ≡ f args.a (old.l3 (element args.x i)) (old.l3 (element args.y i))
  unfolding axpy_job
  axpy_job_lem turns i li =
      subst
        (λ w.
          (axpy_job p args buffers kernel turns old).l3 (element args.z w)
          ≡ wanted p args buffers kernel f k cells r old w)
        (ap (λ w. w + i % size) (refl) ∙ omega (arith, mod-add-div' i size))
        ((iterations-State turns (args.n_tiles + 2) (omega arith)).outputs (i / size) (i % size)
          (omega (arith, tile)) tile (mod-lt i positive))
    where
      positive : 0 < size
      positive = elim (ℕ_discrete size 0) [
        | yes e ↦ absurd (omega (arith, li, r.whole, ap (λ w. args.n_tiles * w) e))
        | no d ↦ omega (arith, d)
      ]

      tile : i / size < args.n_tiles
      tile = (div-lt_iff_lt-mul positive).1 (omega (arith, li, r.whole))
