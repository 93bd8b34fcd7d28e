-- ===== src/Sync/Clusters/Together.antt =====
-- No cluster leaves a barrier before all have arrived at it.
use snitch_cluster_chips_it.Prelude.{
  ℕ, ◌^◌, ◌≤◌, ◌<◌, inl, inr, false, List, [], ◌∷◌, ltb, ltb→lt, none-count, arith, refl, sym,
  Bool-cases, true-false,
}
use snitch_cluster_chips_it.Sync.Clusters.{Clusters, access, run, start, completed, arrived}
use snitch_cluster_chips_it.Sync.Clusters.Status.{Fits, has_arrived, Fits-counts, AllIn-counts}
use snitch_cluster_chips_it.Sync.Clusters.Waking.{access-Inv}
use snitch_cluster_chips_it.Sync.Clusters.Epoch.{is_in, Inv, gathering, complete}

run-Inv :
    (n : ℕ) (schedule : List ℕ) (s : Clusters) → n < 2 ^ 32 → Inv n s → Inv n (run n schedule s)
unfolding run
run-Inv n [] s small inv = inv
run-Inv n (j ∷ schedule) s small inv = elim (Bool-cases (ltb j n)) [
  | inl e ↦ rw e (
      run-Inv n schedule (access n j (s.core j).phase s) small
        (access-Inv n j small (ltb→lt j n e) s (s.core j).phase refl inv))
  | inr e ↦ rw e (run-Inv n schedule s small inv)
]

start-Inv : (n : ℕ) → Inv n start
unfolding Fits has_arrived
start-Inv n =
    gathering 0 false 0 0 (omega arith) (λ t. absurd (true-false (sym t)))
      (sym (none-count (is_in 0) _ n (λ i li. refl)))
      (λ i li. (refl, refl, λ t. absurd (true-false (sym t))))

Inv-counts :
    (n i j : ℕ) (s : Clusters)
    → i < n
    → j < n
    → Inv n s
    → completed (s.core i).phase ≤ arrived (s.core j).phase
Inv-counts n i j s li lj (gathering e a l k kn ln c each) =
    omega (arith, Fits-counts e l i _ _ a k (each i li), Fits-counts e l j _ _ a k (each j lj))
Inv-counts n i j s li lj (complete e l ll each) =
    omega (arith, AllIn-counts e l i _ _ (each i li), AllIn-counts e l j _ _ (each j lj))

-- For fewer than 2 ^ 32 clusters in the communicator, after any schedule of the accesses of their
-- DM cores from the initial state, no DM core has completed more inter-cluster barriers than any
-- other has arrived at.
pub clusters-together :
    (n i j : ℕ) (schedule : List ℕ)
    → n < 2 ^ 32
    → i < n
    → j < n
    → completed ((run n schedule start).core i).phase
      ≤ arrived ((run n schedule start).core j).phase
clusters-together n i j schedule small li lj =
    Inv-counts n i j (run n schedule start) li lj (run-Inv n schedule start small (start-Inv n))
