-- ===== src/Dma/Copy2d.antt =====
-- What a 2D transfer between two separate regions does, and what that makes of the tile functions.
use snitch_cluster_chips_it.Prelude.{
  ℕ, zero, suc, ◌+◌, ◌*◌, ◌≤◌, ◌<◌, ◌≡◌, ◌⊎◌, inl, inr, refl, ◌∙◌, arith, mul-suc_le,
}
use native.Mathlib.Decide.{dec_lt}
use snitch_cluster_chips_it.Dma.Engine.{Mem, Apart, Engine, rows}

-- A pitch of rows that do not overlap, and regions of `N` such rows that do not overlap either.
pub record Separate (dst src size dst_stride src_stride N : ℕ) : Type 0 where
  pub dst_rows : size ≤ dst_stride
  pub src_rows : size ≤ src_stride
  pub apart : Apart dst (N * dst_stride) src (N * src_stride)

module _ (e : Engine) (dst src size ds ss N : ℕ) (m : Mem) where
  pub rows-kept :
      (n a : ℕ)
      → n ≤ N
      → size ≤ ds
      → (a < dst) ⊎ (dst + N * ds ≤ a)
      → rows e dst src size ds ss n m a ≡ m a
  unfolding rows
  rows-kept zero a le fit o = refl
  rows-kept (suc n) a le fit o =
      e.kept (dst + n * ds) (src + n * ss) size (rows e dst src size ds ss n m) a
        (omega (arith, mul-suc_le n N ds le))
      ∙ rows-kept n a (omega arith) fit o

  module _ (sep : Separate dst src size ds ss N) where
    rows-Apart : (r : ℕ) → r < N → Apart (dst + r * ds) size (src + r * ss) size
    rows-Apart r lt =
        omega
          (arith, sep.dst_rows, sep.src_rows, sep.apart, mul-suc_le r N ds lt, mul-suc_le r N ss lt)

    -- Row by row, the destination has what the source had.
    pub rows-copied :
        (n r k : ℕ)
        → n ≤ N
        → r < n
        → k < size
        → rows e dst src size ds ss n m (dst + r * ds + k) ≡ m (src + r * ss + k)
    unfolding rows
    rows-copied zero r k le lt kk = absurd (omega arith)
    rows-copied (suc n) r k le lt kk = elim (dec_lt r n) [
      | yes old ↦
          e.kept (dst + n * ds) (src + n * ss) size (rows e dst src size ds ss n m)
            (dst + r * ds + k) (inl (omega (arith, sep.dst_rows, mul-suc_le r n ds old)))
          ∙ rows-copied n r k (omega arith) old kk
      | no new ↦ rw (last r new lt) (
          e.copied (dst + n * ds) (src + n * ss) size (rows e dst src size ds ss n m) k
            (inr (rows-Apart n le)) kk
          ∙ rows-kept n (src + n * ss + k) (omega arith) sep.dst_rows
              (omega (arith, sep.apart, sep.src_rows, mul-suc_le n N ss le)))
    ]
      where
        last : (r : ℕ) → ¬ (r < n) → r < suc n → r ≡ n
        last r h k = omega arith
