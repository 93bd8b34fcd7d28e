-- ===== src/Ssr.antt =====
-- sw/runtime/src/ssr.h: programming the stream semantic registers. The configuration registers of
-- the data movers are a function of the mover and the register; every operation of the header is
-- the sequence of register writes that it makes.
pub mod AddrGen
pub mod Stream
pub mod Nest
pub mod Program
pub mod Registers
pub mod Level
pub mod Loops
pub mod DeepLoops
use snitch_cluster_chips_it.Prelude.{
  ℕ, ◌+◌, ◌*◌, ◌%◌, ◌==◌, ◌&&◌, ◌||◌, if◌then◌else◌, add32, sub32, mul32, List, [], ◌∷◌,
}

-- `snrt_ssr_dm_t`
abbrev pub dm_all : ℕ
dm_all = 31

-- `snrt_ssr_reg_t`
abbrev pub reg_repeat : ℕ
reg_repeat = 1

abbrev pub reg_bounds : ℕ
reg_bounds = 2

abbrev pub reg_strides : ℕ
reg_strides = 6

abbrev pub reg_idx_cfg : ℕ
reg_idx_cfg = 10

abbrev pub reg_idx_base : ℕ
reg_idx_base = 11

abbrev pub reg_rptr_indir : ℕ
reg_rptr_indir = 16

abbrev pub reg_rptr : ℕ
reg_rptr = 24

abbrev pub reg_wptr : ℕ
reg_wptr = 28

-- The value that each register of each data mover was written last.
abbrev pub Regs : Type 0
Regs = ℕ → ℕ → ℕ

-- `write_ssr_cfg`, a `scfgwi` instruction; SSR 31 stands for all of them.
unfoldable pub write_ssr_cfg : (reg dm value : ℕ) → Regs → Regs
write_ssr_cfg reg dm value regs dm' reg' =
    if (reg' == reg) && (dm' == dm || dm == dm_all) then value else regs dm' reg'

-- `read_ssr_cfg`, a `scfgri` instruction.
unfoldable pub read_ssr_cfg : (reg dm : ℕ) → Regs → ℕ
read_ssr_cfg reg dm regs = regs dm reg

unfoldable pub loop_1d : (dm b0 s0 : ℕ) → Regs → Regs
loop_1d dm b0 s0 regs =
    let r = write_ssr_cfg reg_bounds dm (sub32 b0 1) regs in
    write_ssr_cfg reg_strides dm (sub32 s0 0) r

unfoldable pub loop_2d : (dm b0 b1 s0 s1 : ℕ) → Regs → Regs
loop_2d dm b0 b1 s0 s1 regs =
    let r = write_ssr_cfg reg_bounds dm (sub32 b0 1) regs in
    let r = write_ssr_cfg (reg_bounds + 1) dm (sub32 b1 1) r in
    let r = write_ssr_cfg reg_strides dm (sub32 s0 0) r in
    let a = add32 0 (mul32 s0 (sub32 b0 1)) in write_ssr_cfg (reg_strides + 1) dm (sub32 s1 a) r

unfoldable pub loop_3d : (dm b0 b1 b2 s0 s1 s2 : ℕ) → Regs → Regs
loop_3d dm b0 b1 b2 s0 s1 s2 regs =
    let r = write_ssr_cfg reg_bounds dm (sub32 b0 1) regs in
    let r = write_ssr_cfg (reg_bounds + 1) dm (sub32 b1 1) r in
    let r = write_ssr_cfg (reg_bounds + 2) dm (sub32 b2 1) r in
    let r = write_ssr_cfg reg_strides dm (sub32 s0 0) r in
    let a = add32 0 (mul32 s0 (sub32 b0 1)) in
    let r = write_ssr_cfg (reg_strides + 1) dm (sub32 s1 a) r in
    let a = add32 a (mul32 s1 (sub32 b1 1)) in write_ssr_cfg (reg_strides + 2) dm (sub32 s2 a) r

unfoldable pub loop_4d : (dm b0 b1 b2 b3 s0 s1 s2 s3 : ℕ) → Regs → Regs
loop_4d dm b0 b1 b2 b3 s0 s1 s2 s3 regs =
    let r = write_ssr_cfg reg_bounds dm (sub32 b0 1) regs in
    let r = write_ssr_cfg (reg_bounds + 1) dm (sub32 b1 1) r in
    let r = write_ssr_cfg (reg_bounds + 2) dm (sub32 b2 1) r in
    let r = write_ssr_cfg (reg_bounds + 3) dm (sub32 b3 1) r in
    let r = write_ssr_cfg reg_strides dm (sub32 s0 0) r in
    let a = add32 0 (mul32 s0 (sub32 b0 1)) in
    let r = write_ssr_cfg (reg_strides + 1) dm (sub32 s1 a) r in
    let a = add32 a (mul32 s1 (sub32 b1 1)) in
    let r = write_ssr_cfg (reg_strides + 2) dm (sub32 s2 a) r in
    let a = add32 a (mul32 s2 (sub32 b2 1)) in write_ssr_cfg (reg_strides + 3) dm (sub32 s3 a) r

unfoldable pub repeat : (dm count : ℕ) → Regs → Regs
repeat dm count = write_ssr_cfg reg_repeat dm (sub32 count 1)

-- `snrt_ssr_read` and `snrt_ssr_write`: `dim` is the number of dimensions less one.
unfoldable pub read : (dm dim ptr : ℕ) → Regs → Regs
read dm dim ptr = write_ssr_cfg (reg_rptr + dim) dm ptr

unfoldable pub write : (dm dim ptr : ℕ) → Regs → Regs
write dm dim ptr = write_ssr_cfg (reg_wptr + dim) dm ptr

unfoldable pub issr_set_idx_cfg : (dm idxsize : ℕ) → Regs → Regs
issr_set_idx_cfg dm idxsize = write_ssr_cfg reg_idx_cfg dm (idxsize % 256)

unfoldable pub issr_set_bound : (dm bound : ℕ) → Regs → Regs
issr_set_bound dm bound = write_ssr_cfg reg_bounds dm (sub32 bound 1)

unfoldable pub issr_set_ptrs : (dm base idcs : ℕ) → Regs → Regs
issr_set_ptrs dm base idcs regs =
    write_ssr_cfg reg_rptr_indir dm idcs (write_ssr_cfg reg_idx_base dm base regs)

unfoldable pub issr_read : (dm base idcs bound idxsize : ℕ) → Regs → Regs
issr_read dm base idcs bound idxsize regs =
    issr_set_ptrs dm base idcs (issr_set_bound dm bound (issr_set_idx_cfg dm idxsize regs))
