-- ===== src/Kernels/Axpy/Job/Load.antt =====
-- One iteration of `axpy_job` loads a tile.
use snitch_cluster_chips_it.Prelude.{
  ℕ, suc, ◌+◌, ◌*◌, ◌/◌, ◌%◌, ◌<◌, ◌≡◌, inl, inr, ltb, ltb→lt, ltb→le, refl, sym, ap, ◌∙◌, subst,
  arith, mul32, Bool-cases,
}
use native.Mathlib.Decide.{ℕ_discrete}
use snitch_cluster_chips_it.Kernels.Axpy.{element, Memory}
use snitch_cluster_chips_it.Kernels.Axpy.Cores.{Distinct}
use snitch_cluster_chips_it.Kernels.Axpy.Job.{
  Args, Memories, copy_in, frac, local_x, local_y, dma_in,
}
use snitch_cluster_chips_it.Kernels.Axpy.Job.Layout.{Cells}
use snitch_cluster_chips_it.Kernels.Axpy.Job.Transfers.{copy_in-keeps, copy_in-value}
use snitch_cluster_chips_it.Kernels.Axpy.Job.Invariant.{
  Elementwise, Remote, State, within, remote, other_buffer,
}

module _ {ℓ} {F : Type ℓ} (p : ℕ) (args : Args F) (buffers : ℕ → ℕ)
    (kernel : (i n : ℕ) (a : F) (x y z : ℕ) → Memory F → Memory F) (f : F → F → F → F)
    (k : (i : ℕ) → Elementwise p (args.n / args.n_tiles) f (kernel i))
    (cells : Cells p (args.n / args.n_tiles) buffers) (r : Remote args) (old : Memories F) where
  abbrev size : ℕ
  size = args.n / args.n_tiles

  abbrev buf : (q j : ℕ) → ℕ
  buf q j = element (buffers q) j % p

  -- The tile that is loaded in iteration i.
  module _ (i : ℕ) (s : Memories F) (li : i < args.n_tiles) where
    abbrev x_loaded : Memories F
    x_loaded = copy_in p (buffers (3 * (i % 2))) (element args.x (mul32 i size)) size s

    abbrev loaded_both : Memories F
    loaded_both =
        copy_in p (buffers (3 * (i % 2) + 1)) (element args.y (mul32 i size)) size x_loaded

    same_l3 : (address : ℕ) → loaded_both.l3 address ≡ s.l3 address
    unfolding copy_in
    same_l3 address = refl

    other_set :
        (q j : ℕ)
        → q < 6
        → j < size
        → ¬ (q ≡ 3 * (i % 2))
        → ¬ (q ≡ 3 * (i % 2) + 1)
        → loaded_both.l1 (buf q j) ≡ s.l1 (buf q j)
    other_set q j lq lj dx dy =
        copy_in-keeps p _ _ size x_loaded (buf q j) (
          other_buffer p args buffers kernel f k cells r old q (3 * (i % 2) + 1) j lq (omega arith)
            lj dy)
        ∙ copy_in-keeps p _ _ size s (buf q j) (
            other_buffer p args buffers kernel f k cells r old q (3 * (i % 2)) j lq (omega arith) lj
              dx)

    own_cells : (q : ℕ) → q < 6 → Distinct p size (buffers q)
    own_cells q lq g h lg lh e = (cells q q g h lq lq lg lh e).1

    x-loaded :
        (j : ℕ)
        → j < size
        → loaded_both.l1 (buf (3 * (i % 2)) j) ≡ s.l3 (element args.x (i * size + j))
    x-loaded j lj =
        copy_in-keeps p _ _ size x_loaded (buf (3 * (i % 2)) j) (
          other_buffer p args buffers kernel f k cells r old (3 * (i % 2)) (3 * (i % 2) + 1) j
            (omega arith) (omega arith) lj (omega arith))
        ∙ copy_in-value p _ _ size s j lj (own_cells (3 * (i % 2)) (omega arith))
        ∙ ap s.l3 (remote p args buffers kernel f k cells r old args.x i j li)

    y-loaded :
        (j : ℕ)
        → j < size
        → loaded_both.l1 (buf (3 * (i % 2) + 1) j) ≡ s.l3 (element args.y (i * size + j))
    unfolding copy_in
    y-loaded j lj =
        copy_in-value p _ _ size x_loaded j lj (own_cells (3 * (i % 2) + 1) (omega arith))
        ∙ ap s.l3 (remote p args buffers kernel f k cells r old args.y i j li)

    loaded-State :
        (d o : ℕ)
        → State p args buffers kernel f k cells r old i i d o s
        → State p args buffers kernel f k cells r old i (suc i) d o loaded_both
    loaded-State d o st = record {
      input = λ g lg. (same_l3 _ ∙ (st.input g lg).0, same_l3 _ ∙ (st.input g lg).1);
      operands = λ t j lt le ln lj. elim (ℕ_discrete t i) [
        | yes e ↦
            subst
              (λ w.
                (loaded_both.l1 (buf (3 * (w % 2)) j) ≡ old.l3 (element args.x (w * size + j)))
                × (loaded_both.l1 (buf (3 * (w % 2) + 1) j)
                    ≡ old.l3 (element args.y (w * size + j))))
              (sym e)
              (
                x-loaded j lj
                    ∙ (st.input _ (within p args buffers kernel f k cells r old i j li lj)).0,
                y-loaded j lj
                    ∙ (st.input _ (within p args buffers kernel f k cells r old i j li lj)).1,
              )
        | no n ↦ (
          other_set _ j (omega arith) lj (omega (arith, lt, le, n)) (omega (arith, lt, le, n))
              ∙ (st.operands t j (omega (arith, lt, n)) le ln lj).0,
          other_set _ j (omega arith) lj (omega (arith, lt, le, n)) (omega (arith, lt, le, n))
              ∙ (st.operands t j (omega (arith, lt, n)) le ln lj).1,
        )
      ];
      results = λ t j lt le ln lj.
          other_set _ j (omega arith) lj (omega arith) (omega arith) ∙ st.results t j lt le ln lj;
      outputs = λ t j lt ln lj. same_l3 _ ∙ st.outputs t j lt ln lj;
    }

  pub dma_in-State :
      (i d o : ℕ) (s : Memories F)
      → State p args buffers kernel f k cells r old i i d o s
      → State p args buffers kernel f k cells r old i (suc i) d o (dma_in p args buffers kernel i s)
  unfolding dma_in frac local_x local_y
  dma_in-State i d o s st = elim (Bool-cases (ltb i args.n_tiles)) [
    | inl e ↦ rw e (loaded-State i s (ltb→lt i args.n_tiles e) d o st)
    | inr e ↦ rw e (record {
      input = st.input;
      operands = λ t j lt le ln lj.
          st.operands t j (omega (arith, lt, ln, ltb→le i args.n_tiles e)) le ln lj;
      results = st.results;
      outputs = st.outputs;
    })
  ]
