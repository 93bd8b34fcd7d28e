-- ===== src/Sync/Clusters.antt =====
-- The barrier between clusters, `snrt_inter_cluster_barrier` of sw/runtime/src/sync.h with
-- `snrt_wake_clusters`, which the DM core of each of the `n` clusters of a communicator calls again and
-- again. Each step is one access to the shared counter or to an interrupt. The variant without multicast.
pub mod Status
pub mod Epoch
pub mod Waking
pub mod Together
use snitch_cluster_chips_it.Prelude.{
  ℕ, zero, suc, Bool, true, false, List, [], ◌∷◌, ◌==◌, ltb, if◌then◌else◌, replace, add32,
}

-- The next access of a DM core, with the number `r` of barriers that it has completed: the increment of
-- the counter, the wait for the interrupt, its clearing, the reset of the counter, the interrupts of the
-- other clusters from cluster `i` on.
pub data Phase : Type 0 where
  working : (r : ℕ) → Phase
  waiting : (r : ℕ) → Phase
  clearing : (r : ℕ) → Phase
  resetting : (r : ℕ) → Phase
  waking : (r i : ℕ) → Phase

-- A DM core with its interrupt
pub record DmCore : Type 0 where
  pub phase : Phase
  pub interrupt : Bool

-- `*comm->barrier_ptr` and the DM cores of the clusters
pub record Clusters : Type 0 where
  pub cnt : ℕ
  pub core : ℕ → DmCore

-- One access of the DM core of cluster `j`, which is at the given phase.
unfoldable pub access : (n j : ℕ) → Phase → Clusters → Clusters
access n j (working r) s =
    let c = add32 s.cnt 1 in
    record {
      cnt = c;
      core =
          replace j (record (s.core j) { phase = if c == n then resetting r else waiting r })
            s.core;
    }
access n j (waiting r) s = record s {
  core =
      replace j
        (record (s.core j) { phase = if (s.core j).interrupt then clearing r else waiting r })
        s.core;
}
access n j (clearing r) s = record s {
  core = replace j (record { phase = working (suc r); interrupt = false }) s.core;
}
access n j (resetting r) s = record {
  cnt = 0;
  core = replace j (record (s.core j) { phase = waking r 0 }) s.core;
}
access n j (waking r i) s =
    let others =
      if ltb i n
      then (if j == i then s.core else replace i (record (s.core i) { interrupt = true }) s.core)
      else s.core in
    record s {
      core =
          replace j
            (record (s.core j) { phase = if ltb i n then waking r (suc i) else working (suc r) })
            others;
    }

-- The accesses of a schedule, the clusters whose DM cores make them.
unfoldable pub run : (n : ℕ) → List ℕ → Clusters → Clusters
unfolding access
run n [] s = s
run n (j ∷ schedule) s = run n schedule (if ltb j n then access n j (s.core j).phase s else s)

abbrev pub start : Clusters
start = record { cnt = 0; core = λ j. record { phase = working 0; interrupt = false } }

-- The barriers that a DM core has completed, and those that it has arrived at.
unfoldable pub completed : Phase → ℕ
completed (working r) = r
completed (waiting r) = r
completed (clearing r) = r
completed (resetting r) = r
completed (waking r i) = r

unfoldable pub arrived : Phase → ℕ
arrived (working r) = r
arrived (waiting r) = suc r
arrived (clearing r) = suc r
arrived (resetting r) = suc r
arrived (waking r i) = suc r
