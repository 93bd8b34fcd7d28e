-- ===== src/Sync/Barrier.antt =====
-- The software barrier `snrt_partial_barrier` of sw/runtime/src/sync.h, one access to a shared variable
-- at a time, by `n` threads that use it again and again.
use snitch_cluster_chips_it.Prelude.{
  ℕ, zero, suc, Bool, List, [], ◌∷◌, ◌==◌, ltb, if◌then◌else◌, replace, add32,
}
pub mod Counting
pub mod Epochs
pub mod Leaving

-- Where a thread is, with its local `prev_it` and, to tell the uses of the barrier apart, the number
-- `r` of barriers it has completed: before the call, before the add, in the loop, before the reset of
-- the counter, before the increment of the iteration.
pub data Thread : Type 0 where
  working : (r : ℕ) → Thread
  loaded : (r prev_it : ℕ) → Thread
  spinning : (r prev_it : ℕ) → Thread
  resetting : (r : ℕ) → Thread
  bumping : (r : ℕ) → Thread

-- `snrt_barrier_t` and the threads
pub record Shared : Type 0 where
  pub cnt : ℕ
  pub iteration : ℕ
  pub thread : ℕ → Thread

-- One access of a thread: the counter, the iteration and the thread after it.
unfoldable pub access : (n cnt iteration : ℕ) → Thread → ℕ × (ℕ × Thread)
access n cnt iteration (working r) = (cnt, (iteration, loaded r iteration))
access n cnt iteration (loaded r prev_it) =
    (add32 cnt 1, (iteration, if add32 cnt 1 == n then resetting r else spinning r prev_it))
access n cnt iteration (resetting r) = (0, (iteration, bumping r))
access n cnt iteration (bumping r) = (cnt, (add32 iteration 1, working (suc r)))
access n cnt iteration (spinning r prev_it) =
    (cnt, (iteration, if prev_it == iteration then spinning r prev_it else working (suc r)))

-- The next access of thread `i`.
unfoldable pub advance : (n i : ℕ) → Shared → Shared
unfolding access
advance n i s = record {
  cnt = (access n s.cnt s.iteration (s.thread i)).0;
  iteration = (access n s.cnt s.iteration (s.thread i)).1.0;
  thread = replace i (access n s.cnt s.iteration (s.thread i)).1.1 s.thread;
}

-- The accesses of a schedule, the ids of the threads that make them.
unfoldable pub run : (n : ℕ) → List ℕ → Shared → Shared
unfolding advance
run n [] s = s
run n (i ∷ schedule) s = run n schedule (if ltb i n then advance n i s else s)

abbrev pub start : Shared
start = record { cnt = 0; iteration = 0; thread = λ i. working 0 }

-- The barriers a thread has completed, and those it has arrived at.
unfoldable pub completed : Thread → ℕ
completed (working r) = r
completed (loaded r p) = r
completed (spinning r p) = r
completed (resetting r) = r
completed (bumping r) = r

unfoldable pub arrived : Thread → ℕ
arrived (working r) = r
arrived (loaded r p) = r
arrived (spinning r p) = suc r
arrived (resetting r) = suc r
arrived (bumping r) = suc r
