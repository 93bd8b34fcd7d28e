-- ===== src/Tests/Clusters.antt =====
-- The barrier between three clusters.
use snitch_cluster_chips_it.Prelude.{◌≤◌, [], ◌∷◌, arith}
use snitch_cluster_chips_it.Sync.Clusters.{run, start, completed, arrived}
use snitch_cluster_chips_it.Sync.Clusters.Together.{clusters-together}

-- Of three clusters the third arrives last and wakes the first, which goes on.
together_example :
    completed ((run 3 (0 ∷ 1 ∷ 2 ∷ 2 ∷ 2 ∷ 0 ∷ 0 ∷ []) start).core 0).phase
    ≤ arrived ((run 3 (0 ∷ 1 ∷ 2 ∷ 2 ∷ 2 ∷ 0 ∷ 0 ∷ []) start).core 1).phase
together_example =
    clusters-together 3 0 1 (0 ∷ 1 ∷ 2 ∷ 2 ∷ 2 ∷ 0 ∷ 0 ∷ []) (omega arith) (omega arith)
      (omega arith)
