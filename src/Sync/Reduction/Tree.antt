-- ===== src/Sync/Reduction/Tree.antt =====
-- With a power of two of clusters the first one ends up with the sum of all, in the order of the tree.
use snitch_cluster_chips_it.Prelude.{ℕ, zero, suc, ◌+◌, ◌^◌}

-- The elements from cluster `i` on, `2 ^ n` of them, added up pairwise.
unfoldable pub tree : (add : ℕ → ℕ → ℕ) → (f : ℕ → ℕ) → (n i : ℕ) → ℕ
tree add f zero i = f i
tree add f (suc n) i = add (tree add f n i) (tree add f n (i + 2 ^ n))
