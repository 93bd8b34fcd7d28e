-- ===== src/Tests/Threads.antt =====
-- The mutex, the barrier and the loop schedule at small runs.
use snitch_cluster_chips_it.Prelude.{
  ℕ, ◌≤◌, ◌<◌, ◌≡◌, List, [], ◌∷◌, true, some, refl, arith, replace,
}
use snitch_cluster_chips_it.Sync.{
  outside, at_li, at_swap, at_branch, inside, State, execute, Reachable, initial, then,
  mutex_acquire, instruction,
}
use snitch_cluster_chips_it.Sync.Mutex.{mutual_exclusion, taken_lem}
use snitch_cluster_chips_it.Sync.Barrier.{start, access, advance, run, completed, arrived}
use snitch_cluster_chips_it.Sync.Barrier.Leaving.{no_early_exit, released_leaves}
use snitch_cluster_chips_it.Omp.{flag}
use snitch_cluster_chips_it.Omp.Static.{runs}
use snitch_cluster_chips_it.Omp.Partition.{dealt, static_partition, last_lem}
use snitch_cluster_chips_it.Prelude.{◌++◌}
use snitch_cluster_chips_it.Omp.Chunked.{InRound, dealt_chunks, chunked_partition}
use snitch_cluster_chips_it.Omp.Microtask.{call, argv, microtask_wrapper, set_nb_threads, fork_args}
use snitch_cluster_chips_it.Omp.Microtask.Fork.{fork_roundtrip}
use snitch_cluster_chips_it.Omp.Microtask.Fallthrough.{fallthrough}

-- Hart 3 acquires the mutex.
abbrev s0 : State
s0 = record { mutex = 0; hart = λ i. outside }

abbrev s1 : State
s1 = record { mutex = 0; hart = replace 3 at_li s0.hart }

abbrev s2 : State
s2 = record { mutex = 0; hart = replace 3 (at_swap 1) s1.hart }

abbrev s3 : State
s3 = record { mutex = 1; hart = replace 3 (at_branch 0) s2.hart }

abbrev s4 : State
s4 = record { mutex = 1; hart = replace 3 inside s3.hart }

reach_branch : Reachable s3
unfolding execute replace
reach_branch =
    then (then (then initial (mutex_acquire s0 3 refl)) (instruction s1 3)) (instruction s2 3)

reach_inside : Reachable s4
unfolding execute replace
reach_inside = then reach_branch (instruction s3 3)

exclusion_example : ◌≡◌ {A = ℕ} 3 3
unfolding replace
exclusion_example = mutual_exclusion {s = s4} 3 3 reach_inside refl refl

taken_example :
    (i : ℕ) × ((execute 1 (s3.hart i) ≡ (1, inside)) × ((j : ℕ) → s3.hart j ≡ inside → j ≡ i))
taken_example = taken_lem {s = s3} reach_branch (omega arith)

-- Two threads of three have arrived, the third has yet to add.
abbrev schedule : List ℕ
schedule = 0 ∷ 1 ∷ 2 ∷ 0 ∷ 1 ∷ 0 ∷ []

early_exit_example :
    completed ((run 3 schedule start).thread 0) ≤ arrived ((run 3 schedule start).thread 2)
early_exit_example = no_early_exit 3 (omega arith) schedule 0 2 (omega arith) (omega arith)

-- One of two threads arrives last and leaves.
abbrev two_arrive : List ℕ
two_arrive = 0 ∷ 1 ∷ 0 ∷ 1 ∷ 1 ∷ 1 ∷ []

leaves_example :
    completed ((advance 2 0 (run 2 two_arrive start)).thread 0)
    ≡ arrived ((run 2 two_arrive start).thread 0)
unfolding run advance access replace completed arrived
leaves_example = released_leaves 2 (omega arith) two_arrive 1 0 (omega arith) (omega arith) refl

-- Ten iterations from 5 on, dealt to four threads.
partition_example :
    (t : ℕ) × ((t < 4)
      × ((runs (dealt 5 14 4 (some 0) 1 0 t) 9 ≡ true)
          × ((i : ℕ) → i < 4 → runs (dealt 5 14 4 (some 0) 1 0 i) 9 ≡ true → i ≡ t)))
partition_example =
    static_partition 5 14 4 (some 0) 1 0 (omega arith) (omega arith) 9 (omega arith) (omega arith)
      (omega arith)

last_example :
    (dealt 5 14 4 (some 0) 1 0 3).last ≡ some (flag (runs (dealt 5 14 4 (some 0) 1 0 3) 14))
last_example =
    last_lem 5 14 4 (some 0) 1 0 (omega arith) (omega arith) 3 0 (omega arith) (omega arith) refl

-- A region of eight threads with two shared variables, one with twelve, and one with ten.
abbrev eleven : List ℕ
eleven = 1 ∷ 2 ∷ 3 ∷ 4 ∷ 5 ∷ 6 ∷ 7 ∷ 8 ∷ 9 ∷ 10 ∷ 11 ∷ []

abbrev ten : List ℕ
ten = 1 ∷ 2 ∷ 3 ∷ 4 ∷ 5 ∷ 6 ∷ 7 ∷ 8 ∷ 9 ∷ 10 ∷ []

fork_example :
    (microtask_wrapper (fork_args 0x80001000 (7 ∷ 9 ∷ []) 8 (λ i. 0)) 3 2
      ≡ call 0x80001000 3 (7 ∷ 9 ∷ []) ∷ [])
    × (microtask_wrapper (fork_args 0x80001000 (eleven ++ 0x10001234 ∷ []) 8 (λ i. 0)) 3 12
        ≡ call 0x80001000 3 (eleven ++ 0x10001208 ∷ []) ∷ [])
fork_example =
    fork_roundtrip 0x80001000 3 8 (7 ∷ 9 ∷ []) eleven 0x10001234 (λ i. 0) (omega arith) refl

fallthrough_example :
    microtask_wrapper (fork_args 0x80001000 ten 8 (λ i. 256)) 3 10
    ≡ call 0x80001000 3 ten
      ∷ call 0x80001000 3 (ten ++ 256 ∷ [])
      ∷ call 0x80001000 3 (ten ++ 256 ∷ 264 ∷ [])
      ∷ []
unfolding argv set_nb_threads
fallthrough_example = fallthrough 0x80001000 3 8 ten (λ i. 256) (omega arith) (omega arith)

-- Chunks of three, from 5 on, dealt to four threads.
chunks_dealt_example :
    (t : ℕ) × ((k : ℕ) × ((t < 4)
        × (InRound (dealt_chunks 5 40 4 3 (some 0) 1 t) k 33
            × ((i j : ℕ)
                → i < 4
                → InRound (dealt_chunks 5 40 4 3 (some 0) 1 i) j 33
                → (i ≡ t) × (j ≡ k)))))
chunks_dealt_example =
    chunked_partition 5 40 4 3 (some 0) 1 (omega arith) (omega arith) 33 (omega arith) (omega arith)
