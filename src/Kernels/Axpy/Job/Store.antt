-- ===== src/Kernels/Axpy/Job/Store.antt =====
-- One iteration of `axpy_job` stores a tile.
use snitch_cluster_chips_it.Prelude.{
  ℕ, zero, suc, ◌+◌, ◌-◌, ◌*◌, ◌/◌, ◌%◌, ◌≤◌, ◌<◌, ◌≡◌, lt→ltb, refl, sym, ◌∙◌, subst, arith, mul32,
  mul-suc_le,
}
use native.Mathlib.Decide.{ℕ_discrete}
use snitch_cluster_chips_it.Kernels.Axpy.{element, Memory}
use snitch_cluster_chips_it.Kernels.Axpy.Job.{Args, Memories, copy_out, frac, local_z, dma_out}
use snitch_cluster_chips_it.Kernels.Axpy.Job.Layout.{Cells}
use snitch_cluster_chips_it.Kernels.Axpy.Job.Transfers.{copy_out-keeps, copy_out-value}
use snitch_cluster_chips_it.Kernels.Axpy.Job.Invariant.{
  Elementwise, Remote, wanted, State, within, remote,
}

module _ {ℓ} {F : Type ℓ} (p : ℕ) (args : Args F) (buffers : ℕ → ℕ)
    (kernel : (i n : ℕ) (a : F) (x y z : ℕ) → Memory F → Memory F) (f : F → F → F → F)
    (k : (i : ℕ) → Elementwise p (args.n / args.n_tiles) f (kernel i))
    (cells : Cells p (args.n / args.n_tiles) buffers) (r : Remote args) (old : Memories F) where
  abbrev size : ℕ
  size = args.n / args.n_tiles

  abbrev buf : (q j : ℕ) → ℕ
  buf q j = element (buffers q) j % p

  -- The tile that is stored in iteration suc (suc i).
  module _ (i : ℕ) (s : Memories F) (li : i < args.n_tiles) where
    abbrev stored_tile : Memories F
    stored_tile = copy_out p (element args.z (mul32 i size)) (buffers (3 * (i % 2) + 2)) size s

    same_l1 : (address : ℕ) → stored_tile.l1 address ≡ s.l1 address
    unfolding copy_out
    same_l1 address = refl

    elsewhere :
        (address : ℕ)
        → ((j : ℕ) → j < size → ¬ (address ≡ element args.z (i * size + j)))
        → stored_tile.l3 address ≡ s.l3 address
    elsewhere address away =
        copy_out-keeps p _ _ size s address
          (λ j lj e. away j lj (e ∙ remote p args buffers kernel f k cells r old args.z i j li))

    z-stored :
        (j : ℕ)
        → j < size
        → stored_tile.l3 (element args.z (i * size + j)) ≡ s.l1 (buf (3 * (i % 2) + 2) j)
    z-stored j lj =
        subst (λ w. stored_tile.l3 w ≡ s.l1 (buf (3 * (i % 2) + 2) j))
          (remote p args buffers kernel f k cells r old args.z i j li)
          (copy_out-value p _ _ size s j lj (λ g lg e. omega (
            arith,
            r.distinct _ _ (within p args buffers kernel f k cells r old i j li lj)
                (within p args buffers kernel f k cells r old i g li lg)
                (sym (remote p args buffers kernel f k cells r old args.z i j li)
                  ∙ e
                  ∙ remote p args buffers kernel f k cells r old args.z i g li),
          )))

    stored-State :
        (l d : ℕ)
        → i < d
        → State p args buffers kernel f k cells r old (suc (suc i)) l d i s
        → State p args buffers kernel f k cells r old (suc (suc i)) l d (suc i) stored_tile
    stored-State l d ld st = record {
      input = λ g lg. (
        elsewhere _
              (λ j lj. r.from_x g _ lg (within p args buffers kernel f k cells r old i j li lj))
            ∙ (st.input g lg).0,
        elsewhere _
              (λ j lj. r.from_y g _ lg (within p args buffers kernel f k cells r old i j li lj))
            ∙ (st.input g lg).1,
      );
      operands = λ t j lt le ln lj. (
        same_l1 _ ∙ (st.operands t j lt le ln lj).0,
        same_l1 _ ∙ (st.operands t j lt le ln lj).1,
      );
      results = λ t j lt le ln lj. same_l1 _ ∙ st.results t j lt le ln lj;
      outputs = λ t j lt ln lj. elim (ℕ_discrete t i) [
        | yes e ↦
            subst
              (λ w.
                stored_tile.l3 (element args.z (w * size + j))
                ≡ wanted p args buffers kernel f k cells r old (w * size + j))
              (sym e) (z-stored j lj ∙ st.results i j ld (omega arith) li lj)
        | no n ↦
            elsewhere _ (λ g lg e. absurd (
              omega (
                arith,
                lj,
                lg,
                r.distinct _ _ (within p args buffers kernel f k cells r old t j ln lj)
                    (within p args buffers kernel f k cells r old i g li lg) e,
                mul-suc_le t i size (omega (arith, lt, n)),
              )))
            ∙ st.outputs t j (omega (arith, lt, n)) ln lj
      ];
    }

  pub dma_out-State :
      (i l d : ℕ) (s : Memories F)
      → i < args.n_tiles + 2
      → i ≤ suc d
      → State p args buffers kernel f k cells r old i l d (i - 2) s
      → State p args buffers kernel f k cells r old i l d
          (i - 1)
          (dma_out p args buffers kernel i s)
  unfolding dma_out frac local_z
  dma_out-State zero l d s h ld st = st
  dma_out-State (suc zero) l d s h ld st = st
  dma_out-State (suc (suc i)) l d s h ld st =
      rw (two_before, one_before, lt→ltb 1 (suc (suc i)) (omega arith))
        (stored-State i s (omega (arith, h)) l d (omega (arith, ld)) (
          subst (λ w. State p args buffers kernel f k cells r old (suc (suc i)) l d w s) two_before
            st))
    where
      two_before : suc (suc i) - 2 ≡ i
      two_before = omega arith

      one_before : suc (suc i) - 1 ≡ suc i
      one_before = omega arith
