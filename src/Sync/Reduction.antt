-- ===== src/Sync/Reduction.antt =====
-- `snrt_global_reduction_dma` of sw/runtime/src/sync.h, for one element of the buffers: all compute cores
-- of a cluster together reduce all elements alike. The number of levels comes from the C library's
-- `ceil` and `log2`, and the addition of the element type is a parameter.
use snitch_cluster_chips_it.Prelude.{
  ℕ, zero, suc, ◌+◌, ◌-◌, ◌*◌, ◌%◌, ◌^◌, Bool, ◌&&◌, not, ◌==◌, ltb, leb, if◌then◌else◌,
}
pub mod Tree

-- The element in the source and in the destination buffer of each cluster.
pub record Buffers : Type 0 where
  pub src : ℕ → ℕ
  pub dst : ℕ → ℕ

unfoldable pub is_active : (level cluster_idx : ℕ) → Bool
is_active level cluster_idx = cluster_idx % 2 ^ level == 0

unfoldable pub is_sender : (level cluster_idx : ℕ) → Bool
is_sender level cluster_idx = not (cluster_idx % 2 ^ suc level == 0)

module _ (add : ℕ → ℕ → ℕ) (clusters : ℕ) where
  -- Up to the barrier of a level: every active sender among the clusters of the system puts its element
  -- into the destination buffer `2 ^ level` clusters before it.
  unfoldable pub send : (level : ℕ) → Buffers → Buffers
  unfolding is_active is_sender
  send level b = record {
    src = b.src;
    dst = λ r.
        if ltb (r + 2 ^ level) clusters
          && (is_active level (r + 2 ^ level) && is_sender level (r + 2 ^ level))
        then b.src (r + 2 ^ level)
        else b.dst r;
  }

  -- After the barrier: every active cluster that is no sender adds what it received.
  unfoldable pub reduce : (level : ℕ) → Buffers → Buffers
  unfolding is_active is_sender
  reduce level b = record {
    src = λ r.
        if is_active level r && not (is_sender level r) then add (b.src r) (b.dst r) else b.src r;
    dst = b.dst;
  }

  -- The first `n` levels.
  unfoldable pub levels : (n : ℕ) → Buffers → Buffers
  unfolding send reduce
  levels zero b = b
  levels (suc n) b = reduce n (send n (levels n b))

  unfoldable pub global_reduction_dma : (size num_levels : ℕ) → Buffers → Buffers
  unfolding levels
  global_reduction_dma size num_levels b = if ltb 1 size then levels num_levels b else b
