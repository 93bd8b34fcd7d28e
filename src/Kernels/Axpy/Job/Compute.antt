-- ===== src/Kernels/Axpy/Job/Compute.antt =====
-- One iteration of `axpy_job` computes a tile.
use snitch_cluster_chips_it.Prelude.{
  ℕ, zero, suc, ◌+◌, ◌-◌, ◌*◌, ◌/◌, ◌%◌, ◌≤◌, ◌<◌, ◌≡◌, inl, inr, ltb, lt→ltb, ltb→lt, ltb→le, sym,
  ap₂, ◌∙◌, subst, arith, Bool-cases,
}
use native.Mathlib.Decide.{ℕ_discrete}
use snitch_cluster_chips_it.Kernels.Axpy.{element, Memory}
use snitch_cluster_chips_it.Kernels.Axpy.Cores.{Distinct}
use snitch_cluster_chips_it.Kernels.Axpy.Equal.{Apart}
use snitch_cluster_chips_it.Kernels.Axpy.Job.{
  Args, Memories, frac, local_x, local_y, local_z, compute,
}
use snitch_cluster_chips_it.Kernels.Axpy.Job.Layout.{Cells}
use snitch_cluster_chips_it.Kernels.Axpy.Job.Invariant.{
  Elementwise, Remote, wanted, State, other_buffer,
}

module _ {ℓ} {F : Type ℓ} (p : ℕ) (args : Args F) (buffers : ℕ → ℕ)
    (kernel : (i n : ℕ) (a : F) (x y z : ℕ) → Memory F → Memory F) (f : F → F → F → F)
    (k : (i : ℕ) → Elementwise p (args.n / args.n_tiles) f (kernel i))
    (cells : Cells p (args.n / args.n_tiles) buffers) (r : Remote args) (old : Memories F) where
  abbrev size : ℕ
  size = args.n / args.n_tiles

  abbrev buf : (q j : ℕ) → ℕ
  buf q j = element (buffers q) j % p

  -- The tile that is computed in iteration suc i.
  module _ (i : ℕ) (s : Memories F) (li : i < args.n_tiles) where
    abbrev computed : Memories F
    computed = record s {
      l1 =
          kernel (suc i) size args.a (buffers (3 * (i % 2))) (buffers (3 * (i % 2) + 1))
            (buffers (3 * (i % 2) + 2)) s.l1;
    }

    apart : (q u : ℕ) → q < 6 → u < 6 → ¬ (q ≡ u) → Apart p size (buffers q) (buffers u)
    apart q u lq lu d g h lg lh e = d (cells q u g h lq lu lg lh e).0

    distinct : (q : ℕ) → q < 6 → Distinct p size (buffers q)
    distinct q lq g h lg lh e = (cells q q g h lq lq lg lh e).1

    not_z :
        (q j : ℕ)
        → q < 6
        → j < size
        → ¬ (q ≡ 3 * (i % 2) + 2)
        → computed.l1 (buf q j) ≡ s.l1 (buf q j)
    not_z q j lq lj d =
        (k (suc i)).keeps args.a _ _ _ (buf q j) s.l1
          (apart (3 * (i % 2)) (3 * (i % 2) + 2) (omega arith) (omega arith) (omega arith))
          (apart (3 * (i % 2) + 1) (3 * (i % 2) + 2) (omega arith) (omega arith) (omega arith))
          (distinct (3 * (i % 2) + 2) (omega arith))
          (other_buffer p args buffers kernel f k cells r old q (3 * (i % 2) + 2) j lq (omega arith)
            lj d)

    z-value :
        (j : ℕ)
        → j < size
        → computed.l1 (buf (3 * (i % 2) + 2) j)
          ≡ f args.a (s.l1 (buf (3 * (i % 2)) j)) (s.l1 (buf (3 * (i % 2) + 1) j))
    z-value j lj =
        (k (suc i)).value args.a _ _ _ j s.l1
          (apart (3 * (i % 2)) (3 * (i % 2) + 2) (omega arith) (omega arith) (omega arith))
          (apart (3 * (i % 2) + 1) (3 * (i % 2) + 2) (omega arith) (omega arith) (omega arith))
          (distinct (3 * (i % 2) + 2) (omega arith)) lj

    computed-State :
        (l o : ℕ)
        → i < l
        → State p args buffers kernel f k cells r old (suc i) l i o s
        → State p args buffers kernel f k cells r old (suc i) l (suc i) o computed
    computed-State l o ll st = record {
      input = st.input;
      operands = λ t j lt le ln lj. (
        not_z _ j (omega arith) lj (omega arith) ∙ (st.operands t j lt le ln lj).0,
        not_z _ j (omega arith) lj (omega arith) ∙ (st.operands t j lt le ln lj).1,
      );
      results = λ t j lt le ln lj. elim (ℕ_discrete t i) [
        | yes e ↦
            subst
              (λ w.
                computed.l1 (buf (3 * (w % 2) + 2) j)
                ≡ wanted p args buffers kernel f k cells r old (w * size + j))
              (sym e)
              (z-value j lj
                ∙ ap₂ (f args.a) (st.operands i j ll (omega arith) li lj).0
                    (st.operands i j ll (omega arith) li lj).1)
        | no n ↦
            not_z _ j (omega arith) lj (omega (arith, lt, le, n))
            ∙ st.results t j (omega (arith, lt, n)) le ln lj
      ];
      outputs = st.outputs;
    }

  idle :
      (i l o : ℕ) (s : Memories F)
      → args.n_tiles ≤ i
      → State p args buffers kernel f k cells r old (suc i) l i o s
      → State p args buffers kernel f k cells r old (suc i) l (suc i) o s
  idle i l o s h st = record {
    input = st.input;
    operands = st.operands;
    results = λ t j lt le ln lj. st.results t j (omega (arith, ln, h)) le ln lj;
    outputs = st.outputs;
  }

  pub compute-State :
      (i l o : ℕ) (s : Memories F)
      → i ≤ l
      → State p args buffers kernel f k cells r old i l (i - 1) o s
      → State p args buffers kernel f k cells r old i l i o (compute p args buffers kernel i s)
  unfolding compute frac local_x local_y local_z
  compute-State zero l o s h st = st
  compute-State (suc i) l o s h st = elim (Bool-cases (ltb (suc i) (args.n_tiles + 1))) [
    | inl e ↦
        rw (before_now, lt→ltb 0 (suc i) (omega arith), e)
          (computed-State i s (omega (arith, ltb→lt (suc i) (args.n_tiles + 1) e)) l o h here)
    | inr e ↦
        rw (lt→ltb 0 (suc i) (omega arith), e)
          (idle i l o s (omega (arith, ltb→le (suc i) (args.n_tiles + 1) e)) here)
  ]
    where
      before_now : suc i - 1 ≡ i
      before_now = omega arith

      here : State p args buffers kernel f k cells r old (suc i) l i o s
      here = subst (λ w. State p args buffers kernel f k cells r old (suc i) l w o s) before_now st
