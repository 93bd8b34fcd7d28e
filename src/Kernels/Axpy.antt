-- ===== src/Kernels/Axpy.antt =====
-- sw/kernels/blas/axpy/src/axpy.h: z = a * x + y by the compute cores of a cluster, each of which takes
-- every so-many-th element. The numbers and their operations are parameters; so are the widths of the
-- stream registers' counters and pointers.
pub mod Equal
pub mod Cores
pub mod Job
use snitch_cluster_chips_it.Prelude.{
  ℕ, zero, suc, ◌+◌, ◌/◌, ◌%◌, ltb, if◌then◌else◌, replace, add32, sub32, mul32,
}
use snitch_cluster_chips_it.Team.{Config, cluster_core_idx, cluster_compute_core_num}
use snitch_cluster_chips_it.Ssr.{Regs, dm_all, loop_1d, read, write}
use snitch_cluster_chips_it.Ssr.AddrGen.{Gen, step, launch}

-- `&base[i]` for an array of doubles
unfoldable pub element : (base i : ℕ) → ℕ
element base i = add32 base (mul32 i 8)

-- The TCDM: the double at each address, which counts modulo the width of the streams' pointers.
abbrev pub Memory {ℓ} : Type ℓ → Type ℓ
Memory F = ℕ → F

module _ {ℓ} {F : Type ℓ} (pointer_mod : ℕ) where
  unfoldable pub load : Memory F → (address : ℕ) → F
  load mem address = mem (address % pointer_mod)

  unfoldable pub store : (address : ℕ) → F → Memory F → Memory F
  store address v mem = replace (address % pointer_mod) v mem

  -- The loop of `axpy_naive` and `axpy_fma` from element `i` on, for the operation on an element.
  unfoldable pub strided :
      (op : F → F → F → F) (cores n : ℕ) (a : F) (x y z : ℕ) (fuel i : ℕ) → Memory F → Memory F
  unfolding load store element
  strided op cores n a x y z zero i mem = mem
  strided op cores n a x y z (suc fuel) i mem =
      let value = op a (load mem (element x i)) (load mem (element y i)) in
      let rest = strided op cores n a x y z fuel (add32 i cores) (store (element z i) value mem) in
      if ltb i n then rest else mem

  module _ (cfg : Config) (hartid : ℕ) (n : ℕ) (a : F) (x y z : ℕ) where
    unfoldable pub axpy_naive : (mul add : F → F → F) → Memory F → Memory F
    axpy_naive mul add =
        strided (λ a x y. add (mul a x) y) (cluster_compute_core_num cfg) n a x y z n
          (cluster_core_idx cfg hartid)

    unfoldable pub axpy_fma : (fmadd : F → F → F → F) → Memory F → Memory F
    axpy_fma fmadd =
        strided fmadd (cluster_compute_core_num cfg) n a x y z n (cluster_core_idx cfg hartid)

-- The streams behind `ft0`, `ft1` and `ft2`, and the memory before the last `j` stores: `past 0` is the
-- memory. The streams' read movers fetch operands into a queue before the instruction that takes them,
-- and the write mover stores results after the instruction that gives them, so that an operand may come
-- from an earlier memory.
pub record Streams {ℓ} (F : Type ℓ) : Type ℓ where
  pub ft0 : Gen
  pub ft1 : Gen
  pub ft2 : Gen
  pub past : ℕ → Memory F

unfoldable pub remember {ℓ} : {F : Type ℓ} → Memory F → (ℕ → Memory F) → ℕ → Memory F
remember mem past zero = mem
remember mem past (suc j) = past j

-- For each element, how many stores the two operands were fetched ahead of.
abbrev pub Ahead : Type 0
Ahead = ℕ → ℕ × ℕ

module _ {ℓ} {F : Type ℓ} (index_mod pointer_mod : ℕ) (fmadd : F → F → F → F) where
  -- `fmadd.d ft2, a, ft0, ft1`, each operand the next element of a one-dimensional stream
  unfoldable pub fmadd_streams : (a : F) → (ahead : ℕ × ℕ) → Streams F → Streams F
  unfolding load store remember
  fmadd_streams a ahead s = record {
    ft0 = step index_mod pointer_mod 0 s.ft0;
    ft1 = step index_mod pointer_mod 0 s.ft1;
    ft2 = step index_mod pointer_mod 0 s.ft2;
    past =
        remember
          (store pointer_mod s.ft2.pointer
            (fmadd a (load pointer_mod (s.past ahead.0) s.ft0.pointer)
              (load pointer_mod (s.past ahead.1) s.ft1.pointer))
            (s.past 0))
          s.past;
  }

  -- `frep.o` executes its instruction once more than its operand says.
  unfoldable pub frep : (times : ℕ) → (a : F) → Ahead → Streams F → Streams F
  unfolding fmadd_streams
  frep zero a ahead s = fmadd_streams a (ahead 0) s
  frep (suc times) a ahead s = fmadd_streams a (ahead (suc times)) (frep times a ahead s)

  unfoldable pub axpy_opt :
      Config → (hartid n : ℕ) (a : F) (x y z : ℕ) → Ahead → Regs → Memory F → Memory F
  unfolding element frep
  axpy_opt cfg hartid n a x y z ahead regs mem =
      let core_idx = cluster_core_idx cfg hartid in
      let frac = n / cluster_compute_core_num cfg in
      let regs = loop_1d dm_all frac (mul32 (cluster_compute_core_num cfg) 8) regs in
      let regs0 = read 0 0 (element x core_idx) regs in
      let regs1 = read 1 0 (element y core_idx) regs0 in
      let regs2 = write 2 0 (element z core_idx) regs1 in
      let s : Streams F = record {
        ft0 = launch index_mod pointer_mod regs0 0 (element x core_idx);
        ft1 = launch index_mod pointer_mod regs1 1 (element y core_idx);
        ft2 = launch index_mod pointer_mod regs2 2 (element z core_idx);
        past = λ j. mem;
      } in
      (frep (sub32 frac 1) a ahead s).past 0
