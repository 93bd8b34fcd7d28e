-- ===== src/Kernels/Gemv.antt =====
-- sw/kernels/blas/gemv/src/gemv.h: y = alpha * A * x, the rows dealt to the compute cores of a cluster.
-- The numbers and their operations are parameters; so are the widths of the stream registers' counters and
-- pointers.
pub mod Shares
pub mod Streams
pub mod Core
pub mod Calls
pub mod Product
use snitch_cluster_chips_it.Prelude.{
  ℕ, zero, suc, ◌/◌, ◌%◌, Bool, ltb, ◌==◌, if◌then◌else◌, add32, sub32, mul32, for_each,
}
use snitch_cluster_chips_it.Team.{Config, cluster_core_idx, cluster_compute_core_num}
use snitch_cluster_chips_it.Ssr.{Regs, loop_2d, read}
use snitch_cluster_chips_it.Ssr.AddrGen.{Gen, step, launch}
use snitch_cluster_chips_it.Kernels.Axpy.{element, Memory, load, store}

-- The instructions on the numbers; `fmadd a b c` is `a * b + c`.
pub record Scalars {ℓ} (F : Type ℓ) : Type ℓ where
  pub zero : F
  pub fmadd : F → F → F → F
  pub fmul : F → F → F

-- The streams behind `ft0` and `ft1`, and `acc`.
pub record Row {ℓ} (F : Type ℓ) : Type ℓ where
  pub ft0 : Gen
  pub ft1 : Gen
  pub acc : F

-- The streams between two rows, and the memory.
pub record Rows {ℓ} (F : Type ℓ) : Type ℓ where
  pub ft0 : Gen
  pub ft1 : Gen
  pub mem : Memory F

module _ {ℓ} {F : Type ℓ} (index_mod pointer_mod : ℕ) (ops : Scalars F) where
  -- `fmadd.d acc, ft0, ft1, acc`, each operand the next element of a two-dimensional stream
  unfoldable pub accumulate : Memory F → Row F → Row F
  unfolding load
  accumulate mem r = record {
    ft0 = step index_mod pointer_mod 1 r.ft0;
    ft1 = step index_mod pointer_mod 1 r.ft1;
    acc = ops.fmadd (load pointer_mod mem r.ft0.pointer) (load pointer_mod mem r.ft1.pointer) r.acc;
  }

  -- `frep.o` executes its instruction once more than its operand says.
  unfoldable pub frep_row : (times : ℕ) → Memory F → Row F → Row F
  unfolding accumulate
  frep_row zero mem r = accumulate mem r
  frep_row (suc times) mem r = accumulate mem (frep_row times mem r)

  -- One iteration of the loop over the rows.
  unfoldable pub gemv_row : (n : ℕ) (alpha : F) (y i : ℕ) → Rows F → Rows F
  unfolding frep_row store element
  gemv_row n alpha y i s =
      let start : Row F = record { ft0 = s.ft0; ft1 = s.ft1; acc = ops.zero } in
      let r = frep_row (sub32 n 1) s.mem start in
      record {
        ft0 = r.ft0;
        ft1 = r.ft1;
        mem = store pointer_mod (element y i) (ops.fmul r.acc alpha) s.mem;
      }

  unfoldable pub single_core_gemv :
      (trans : Bool) (m n : ℕ) (alpha : F) (a lda x incx y : ℕ) → Regs → Memory F → Memory F
  unfolding gemv_row for_each
  single_core_gemv trans m n alpha a lda x incx y regs mem =
      let rows =
        if trans then loop_2d 0 n m (mul32 lda 8) 8 regs else loop_2d 0 n m 8 (mul32 lda 8) regs in
      let regs = loop_2d 1 n m (mul32 8 incx) 0 rows in
      let regs0 = read 0 1 a regs in
      let regs1 = read 1 1 x regs0 in
      let s : Rows F = record {
        ft0 = launch index_mod pointer_mod regs0 0 a;
        ft1 = launch index_mod pointer_mod regs1 1 x;
        mem = mem;
      } in
      (for_each m (gemv_row n alpha y) s).mem

-- The rows of a core.
module _ (cfg : Config) (core_idx : ℕ) (trans : Bool) (m n a : ℕ) where
  unfoldable pub start_m : ℕ
  start_m = mul32 core_idx (m / cluster_compute_core_num cfg)

  unfoldable pub core_m : ℕ
  core_m =
      let frac_m = m / cluster_compute_core_num cfg in
      let rem_m = m % cluster_compute_core_num cfg in
      if core_idx == sub32 (cluster_compute_core_num cfg) 1 then add32 frac_m rem_m else frac_m

  unfoldable pub row_stride : ℕ
  row_stride = if trans then m else n

  unfoldable pub first_row : ℕ
  unfolding start_m row_stride element
  first_row = if trans then element a start_m else element a (mul32 start_m row_stride)

module _ {ℓ} {F : Type ℓ} (index_mod pointer_mod : ℕ) (ops : Scalars F) where
  unfoldable pub gemv :
      Config
      → (hartid : ℕ) (trans : Bool) (m n : ℕ) (alpha : F) (a x incx y : ℕ) → Regs
      → Memory F
      → Memory F
  unfolding single_core_gemv start_m core_m row_stride first_row element
  gemv cfg hartid trans m n alpha a x incx y regs mem =
      let i = cluster_core_idx cfg hartid in
      if ltb 0 (core_m cfg i trans m n a)
      then single_core_gemv index_mod pointer_mod ops trans (core_m cfg i trans m n a) n alpha
          (first_row cfg i trans m n a) (row_stride cfg i trans m n a) x incx
          (element y (start_m cfg i trans m n a)) regs mem
      else mem
