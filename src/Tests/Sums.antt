-- ===== src/Tests/Sums.antt =====
-- The reduction among four clusters, and a line printed.
use snitch_cluster_chips_it.Prelude.{
  ℕ, ◌+◌, ◌*◌, ◌%◌, ◌^◌, map, List, ◌<◌, ◌≡◌, ◌++◌, [], ◌∷◌, arith,
}
use snitch_cluster_chips_it.Sync.AllToAll.{
  Accumulators, all_to_all_reduction, total_of, zeros, all_to_all_lem,
}
use snitch_cluster_chips_it.Sync.Reduction.{Buffers}
use snitch_cluster_chips_it.Console.{Console, putc_buffer_len, print}
use snitch_cluster_chips_it.Console.Output.{printed, print_lem}

abbrev four_clusters : Buffers
four_clusters = record { src = λ i. 10 * i + 1; dst = λ i. 99 }

abbrev empty_console : Console
empty_console = record { size = 0; chars = λ i. 0; stdout = [] }

print_example :
    (printed (print (72 ∷ 105 ∷ 10 ∷ 33 ∷ []) empty_console)
      ≡ printed empty_console ++ (72 ∷ 105 ∷ 10 ∷ 33 ∷ []))
    × ((print (72 ∷ 105 ∷ 10 ∷ 33 ∷ []) empty_console).size < putc_buffer_len)
print_example = print_lem (72 ∷ 105 ∷ 10 ∷ 33 ∷ []) empty_console (omega arith)

abbrev two_clusters : List (List ℕ)
two_clusters = (1 ∷ 2 ∷ 3 ∷ []) ∷ (4 ∷ 5 ∷ 6 ∷ []) ∷ []

all_to_all_example :
    let s : Accumulators =
      all_to_all_reduction two_clusters (record { clusters = zeros two_clusters; total = 0 }) in
    (s.total ≡ total_of two_clusters % 2 ^ 32)
    × (s.clusters ≡ map (λ vs. total_of two_clusters % 2 ^ 32) two_clusters)
all_to_all_example = all_to_all_lem two_clusters
