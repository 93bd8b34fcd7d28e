-- ===== src/Sync/AllToAll.antt =====
-- `snrt_global_all_to_all_reduction` of sw/runtime/src/sync.h. The atomic additions between two barriers
-- commute, so each accumulator takes its additions in the order of the cores.
use snitch_cluster_chips_it.Prelude.{
  ℕ, ◌+◌, ◌%◌, ◌^◌, ◌<◌, ◌≡◌, List, [], ◌∷◌, map, refl, ap, ◌∙◌, arith, add32,
}

-- `cls()->reduction` of each cluster, and `_reduction_result`.
pub record Accumulators : Type 0 where
  pub clusters : List ℕ
  pub total : ℕ

unfoldable pub add_all : List ℕ → ℕ → ℕ
add_all [] a = a
add_all (x ∷ xs) a = add_all xs (add32 a x)

-- The cores of each cluster add their values in the cluster.
unfoldable pub reduce_clusters : List (List ℕ) → List ℕ → List ℕ
unfolding add_all
reduce_clusters [] cs = cs
reduce_clusters (vs ∷ vss) [] = []
reduce_clusters (vs ∷ vss) (c ∷ cs) = add_all vs c ∷ reduce_clusters vss cs

-- Then the DM cores add the clusters' sums in global memory, and copy the total back. `values` are the
-- arguments of the cores, cluster by cluster; each core returns its cluster's accumulator.
unfoldable pub all_to_all_reduction : (values : List (List ℕ)) → Accumulators → Accumulators
unfolding reduce_clusters
all_to_all_reduction values s =
    let sums = reduce_clusters values s.clusters in
    let total = add_all sums s.total in record { clusters = map (λ c. total) sums; total = total }

abbrev pub sum : List ℕ → ℕ
sum [] = 0
sum (x ∷ xs) = x + sum xs

abbrev pub total_of : List (List ℕ) → ℕ
total_of [] = 0
total_of (vs ∷ vss) = sum vs + total_of vss

abbrev pub zeros : List (List ℕ) → List ℕ
zeros [] = []
zeros (vs ∷ vss) = 0 ∷ zeros vss

add_all-sum : (xs : List ℕ) (a : ℕ) → a < 2 ^ 32 → add_all xs a ≡ (a + sum xs) % 2 ^ 32
unfolding add_all
add_all-sum [] a lt = omega arith
add_all-sum (x ∷ xs) a lt = omega (arith, add_all-sum xs (add32 a x) (omega arith))

clusters-sum :
    (vss : List (List ℕ)) (a : ℕ)
    → (a + sum (reduce_clusters vss (zeros vss))) % 2 ^ 32 ≡ (a + total_of vss) % 2 ^ 32
unfolding reduce_clusters
clusters-sum [] a = refl
clusters-sum (vs ∷ vss) a =
    omega (arith, add_all-sum vs 0 (omega arith), clusters-sum vss (a + sum vs))

every_cluster :
    (t : ℕ) (vss : List (List ℕ))
    → map (λ c. t) (reduce_clusters vss (zeros vss)) ≡ map (λ vs. t) vss
unfolding reduce_clusters
every_cluster t [] = refl
every_cluster t (vs ∷ vss) = ap (λ ts. t ∷ ts) (every_cluster t vss)

-- When the accumulators of the clusters and the global one are 0 before the all-to-all reduction,
-- the global accumulator and every cluster's accumulator hold the sum of all cores' values, modulo
-- 2 ^ 32, after it.
pub all_to_all_lem :
    (values : List (List ℕ))
    → let s = all_to_all_reduction values (record { clusters = zeros values; total = 0 }) in
      (s.total ≡ total_of values % 2 ^ 32)
      × (s.clusters ≡ map (λ vs. total_of values % 2 ^ 32) values)
unfolding all_to_all_reduction
all_to_all_lem values = (added, every_cluster _ values ∙ ap (λ t. map (λ vs. t) values) added)
  where
    added : add_all (reduce_clusters values (zeros values)) 0 ≡ total_of values % 2 ^ 32
    added =
        add_all-sum (reduce_clusters values (zeros values)) 0 (omega arith)
        ∙ clusters-sum values 0
        ∙ ap (λ t. t % 2 ^ 32) (omega arith)
