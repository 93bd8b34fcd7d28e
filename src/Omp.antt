-- ===== src/Omp.antt =====
-- The OpenMP work sharing of sw/runtime/src/omp/kmp.c: statically scheduled loops. Words are signed
-- or unsigned as in the source; `char` is unsigned on RISC-V, so a team has at most 255 threads.
use snitch_cluster_chips_it.Prelude.{
  ℕ, suc, ◌%◌, ◌/◌, Bool, ◌&&◌, Option, none, some, ◌==◌, if◌then◌else◌, add32, sub32, mul32,
  sdiv32, srem32, slt32, sle32,
}
pub mod Events
pub mod Static
pub mod Partition
pub mod Chunked
pub mod Microtask

-- What the pointers `plastiter` (which may be NULL), `plower`, `pupper` and `pstride` point to.
pub record Loop : Type 0 where
  pub last : Option ℕ
  pub lower : ℕ
  pub upper : ℕ
  pub stride : ℕ

-- A Boolean as C's int.
unfoldable pub flag : Bool → ℕ
flag b = if b then 1 else 0

unfoldable pub store : ℕ → Option ℕ → Option ℕ
store x none = none
store x (some y) = some x

-- The branch `kmp_sch_static_chunked`. The source does not test `plastiter` here: a NULL is stored
-- through, which is undefined.
unfoldable pub init_static_chunked : (nb_threads thread_num : ℕ) → Loop → (incr chunk : ℕ) → Loop
unfolding flag store
init_static_chunked nb_threads thread_num p incr chunk =
    let span = mul32 incr chunk in
    let stride = mul32 span nb_threads in
    let lower = add32 p.lower (mul32 span thread_num) in
    let upper = sub32 (add32 lower span) incr in
    let begin_last_chunk = sub32 p.upper (srem32 p.upper span) in
    record {
      last = store (flag (srem32 (sub32 begin_last_chunk lower) stride == 0)) p.last;
      lower = lower;
      upper = upper;
      stride = stride;
    }

-- The branch `kmp_sch_static`.
unfoldable pub init_static : (nb_threads thread_num loop_size : ℕ) → Loop → (incr : ℕ) → Loop
unfolding flag store
init_static nb_threads thread_num loop_size p incr =
    let chunk = loop_size / nb_threads in
    let left_over = sub32 loop_size (mul32 chunk nb_threads) in
    let extra = slt32 thread_num left_over in
    let chunk = if extra then add32 chunk 1 else chunk in
    let lower =
      if extra
      then add32 p.lower (mul32 (mul32 thread_num chunk) incr)
      else add32 (add32 p.lower (mul32 (mul32 thread_num chunk) incr)) left_over in
    let upper = sub32 (add32 lower (mul32 chunk incr)) incr in
    record {
      last = store (flag ((upper == p.upper) && sle32 lower p.upper)) p.last;
      lower = lower;
      upper = upper;
      stride = loop_size;
    }

-- `enum sched_type`, the values that the code tests
abbrev pub kmp_sch_static_chunked : ℕ
kmp_sch_static_chunked = 33

abbrev pub kmp_sch_static : ℕ
kmp_sch_static = 34

-- `__kmpc_for_static_init_4` for the thread `thread_num` of a team of `nb_threads` (not 0); any other
-- schedule leaves the bounds as they are.
unfoldable pub for_static_init_4 :
    (nb_threads thread_num sched : ℕ) → Loop → (incr chunk : ℕ) → Loop
unfolding init_static_chunked init_static
for_static_init_4 nb_threads thread_num sched p incr chunk =
    let loop_size = add32 (sdiv32 (sub32 p.upper p.lower) incr) 1 in
    if sched == kmp_sch_static_chunked
    then init_static_chunked nb_threads thread_num p incr chunk
    else if sched == kmp_sch_static
    then init_static nb_threads thread_num loop_size p incr
    else p

-- The bounds are copied to signed variables and back.
unfoldable pub for_static_init_4u :
    (nb_threads thread_num sched : ℕ) → Loop → (incr chunk : ℕ) → Loop
unfolding for_static_init_4
for_static_init_4u nb_threads thread_num sched p incr chunk =
    let i : Loop = record { last = p.last; lower = p.lower; upper = p.upper; stride = p.stride } in
    let r = for_static_init_4 nb_threads thread_num sched i incr chunk in
    record { last = r.last; lower = r.lower; upper = r.upper; stride = r.stride }
