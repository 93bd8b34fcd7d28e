-- ===== src/Sync.antt =====
-- The mutex of sw/runtime/src/sync.h (data in sync.c): the two acquire loops and the release, one
-- instruction at a time.
use snitch_cluster_chips_it.Prelude.{ℕ, zero, suc, Bool, ◌≡◌, ◌==◌, if◌then◌else◌, replace}
pub mod Clusters
pub mod Mutex
pub mod Barrier
pub mod Reduction
pub mod AllToAll

-- A hart, by the instruction it executes next and, where it matters, its register `t0`:
-- outside a mutex call, at the `li` before the swap loop, at the swap, at the branch after it, at the
-- load and the branch of the TTAS loop, or inside the critical section.
pub data Hart : Type 0 where
  outside : Hart
  at_li : Hart
  at_swap : (t0 : ℕ) → Hart
  at_branch : (t0 : ℕ) → Hart
  at_load : Hart
  at_test : (t0 : ℕ) → Hart
  inside : Hart

-- The mutex variable and the harts, by hart id.
pub record State : Type 0 where
  pub mutex : ℕ
  pub hart : ℕ → Hart

-- One instruction of `snrt_mutex_acquire` or `snrt_mutex_ttas_acquire`: the mutex and the hart after it.
unfoldable pub execute : (mutex : ℕ) → Hart → ℕ × Hart
execute mutex outside = (mutex, outside)
execute mutex at_li = (mutex, at_swap 1)
execute mutex (at_swap t0) = (t0, at_branch mutex)
execute mutex (at_branch t0) = (mutex, if t0 == 0 then inside else at_swap t0)
execute mutex at_load = (mutex, at_test mutex)
execute mutex (at_test t0) = (mutex, if t0 == 0 then at_li else at_load)
execute mutex inside = (mutex, inside)

-- The entry of the two acquire functions, an instruction of one of them, and the release.
pub data Step : State → State → Type 0 where
  mutex_acquire :
      (s : State) (i : ℕ)
      → s.hart i ≡ outside
      → Step s (record { mutex = s.mutex; hart = replace i at_li s.hart })
  mutex_ttas_acquire :
      (s : State) (i : ℕ)
      → s.hart i ≡ outside
      → Step s (record { mutex = s.mutex; hart = replace i at_load s.hart })
  instruction :
      (s : State) (i : ℕ)
      → Step s (record {
        mutex = (execute s.mutex (s.hart i)).0;
        hart = replace i (execute s.mutex (s.hart i)).1 s.hart;
      })
  mutex_release :
      (s : State) (i : ℕ)
      → s.hart i ≡ inside
      → Step s (record { mutex = 0; hart = replace i outside s.hart })

-- The states reached from the initial one, in which the mutex is free and no hart has called.
pub data Reachable : State → Type 0 where
  initial : Reachable (record { mutex = 0; hart = λ i. outside })
  then : {s t : State} → Reachable s → Step s t → Reachable t
