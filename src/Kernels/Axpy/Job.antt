-- ===== src/Kernels/Axpy/Job.antt =====
-- `axpy_job` of sw/kernels/blas/axpy/src/axpy.h: the DM core moves tiles between L3 and two sets of buffers
-- in the TCDM, while the compute cores work on the set loaded before. `DOUBLE_BUFFER` is 1.
pub mod Layout
pub mod Transfers
pub mod Invariant
pub mod Load
pub mod Compute
pub mod Store
pub mod Pipeline
pub mod Whole
use snitch_cluster_chips_it.Prelude.{
  ℕ, zero, suc, ◌+◌, ◌-◌, ◌*◌, ◌/◌, ◌%◌, ◌^◌, Bool, true, false, ◌&&◌, ltb, if◌then◌else◌, replace,
  u32, u64, add64, add32, mul32, sub32, for_each,
}
use snitch_cluster_chips_it.Kernels.Axpy.{element, Memory, load, store}

-- `axpy_args_t`, without the function pointer
pub record Args {ℓ} (F : Type ℓ) : Type ℓ where
  pub n : ℕ
  pub a : F
  pub x : ℕ
  pub y : ℕ
  pub z : ℕ
  pub n_tiles : ℕ

abbrev pub bank_alignment : ℕ
bank_alignment = 8

abbrev pub tcdm_alignment : ℕ
tcdm_alignment = 24 * bank_alignment

-- `ALIGN_NEXT_FROM_BASE`, on 64 bits
unfoldable pub align_next_from_base : (addr base size : ℕ) → ℕ
align_next_from_base addr base size =
    u64 (u64 (u64 (addr + 2 ^ 64 - base + size + 2 ^ 64 - 1) / size * size) + base)

-- The addresses of the buffers, X, Y and Z of the first set and of the second, for buffers of `size` bytes
-- from the address behind the arguments on.
module _ (start size : ℕ) where
  unfoldable pub align_up_tcdm : (addr : ℕ) → ℕ
  unfolding align_next_from_base
  align_up_tcdm addr = align_next_from_base addr start tcdm_alignment

  unfoldable pub y_behind : (addr : ℕ) → ℕ
  unfolding align_up_tcdm
  y_behind addr = u64 (align_up_tcdm (u64 (addr + size)) + 8 * bank_alignment)

  unfoldable pub z_behind : (addr : ℕ) → ℕ
  unfolding align_up_tcdm
  z_behind addr = u64 (align_up_tcdm (u64 (addr + size)) + 16 * bank_alignment)

  unfoldable pub local_x0_addr : (behind_args : ℕ) → ℕ
  unfolding align_up_tcdm
  local_x0_addr behind_args = align_up_tcdm behind_args

  unfoldable pub local_y0_addr : (behind_args : ℕ) → ℕ
  unfolding y_behind local_x0_addr
  local_y0_addr behind_args = y_behind (local_x0_addr behind_args)

  unfoldable pub local_z0_addr : (behind_args : ℕ) → ℕ
  unfolding z_behind local_y0_addr
  local_z0_addr behind_args = z_behind (local_y0_addr behind_args)

  unfoldable pub local_x1_addr : (behind_args : ℕ) → ℕ
  unfolding align_up_tcdm local_z0_addr
  local_x1_addr behind_args = align_up_tcdm (u64 (local_z0_addr behind_args + size))

  unfoldable pub local_y1_addr : (behind_args : ℕ) → ℕ
  unfolding y_behind local_x1_addr
  local_y1_addr behind_args = y_behind (local_x1_addr behind_args)

  unfoldable pub local_z1_addr : (behind_args : ℕ) → ℕ
  unfolding z_behind local_y1_addr
  local_z1_addr behind_args = z_behind (local_y1_addr behind_args)

  -- Buffer 3 * b of set b is that of X, and those of Y and Z come behind it.
  unfoldable pub buffer : (behind_args : ℕ) → ℕ → ℕ
  unfolding local_x0_addr local_y0_addr local_z0_addr local_x1_addr local_y1_addr local_z1_addr
  buffer behind_args zero = local_x0_addr behind_args
  buffer behind_args (suc zero) = local_y0_addr behind_args
  buffer behind_args (suc (suc zero)) = local_z0_addr behind_args
  buffer behind_args (suc (suc (suc zero))) = local_x1_addr behind_args
  buffer behind_args (suc (suc (suc (suc zero)))) = local_y1_addr behind_args
  buffer behind_args (suc (suc (suc (suc (suc k))))) = local_z1_addr behind_args

-- The doubles in the TCDM and in L3.
pub record Memories {ℓ} (F : Type ℓ) : Type ℓ where
  pub l1 : Memory F
  pub l3 : Memory F

-- When the compute cores do their part of an iteration, between the two barriers: before the DM core's
-- loads, between its loads and its stores, or after both.
pub data Turn : Type 0 where
  before : Turn
  between : Turn
  after : Turn

module _ {ℓ} {F : Type ℓ} (pointer_mod : ℕ) where
  -- A transfer of `count` doubles that is waited for.
  unfoldable pub copy_in : (dst src count : ℕ) → Memories F → Memories F
  unfolding element store for_each
  copy_in dst src count s = record s {
    l1 = for_each count (λ i l1. store pointer_mod (element dst i) (s.l3 (element src i)) l1) s.l1;
  }

  unfoldable pub copy_out : (dst src count : ℕ) → Memories F → Memories F
  unfolding element load for_each
  copy_out dst src count s = record s {
    l3 =
        for_each count (λ i l3. replace (element dst i) (load pointer_mod s.l1 (element src i)) l3)
          s.l3;
  }

  -- `buffers` are the local addresses; `kernel i` is what the compute cores together do when each calls
  -- `args->funcptr` on a tile in iteration i.
  module _ (args : Args F) (buffers : ℕ → ℕ)
      (kernel : (i n : ℕ) (a : F) (x y z : ℕ) → Memory F → Memory F) where
    unfoldable pub frac : ℕ
    frac = args.n / args.n_tiles

    -- The bytes of a tile
    unfoldable pub size : ℕ
    unfolding frac
    size = mul32 frac 8

    unfoldable pub local_x : ℕ → ℕ
    local_x buff_idx = buffers (3 * buff_idx)

    unfoldable pub local_y : ℕ → ℕ
    local_y buff_idx = buffers (3 * buff_idx + 1)

    unfoldable pub local_z : ℕ → ℕ
    local_z buff_idx = buffers (3 * buff_idx + 2)

    unfoldable pub dma_in : ℕ → Memories F → Memories F
    unfolding frac local_x local_y copy_in
    dma_in i s =
        let s' = copy_in (local_x (i % 2)) (element args.x (mul32 i frac)) frac s in
        let s'' = copy_in (local_y (i % 2)) (element args.y (mul32 i frac)) frac s' in
        if ltb i args.n_tiles then s'' else s

    unfoldable pub dma_out : ℕ → Memories F → Memories F
    unfolding frac local_z copy_out
    dma_out i s =
        let t = i - 2 in
        if ltb 1 i then copy_out (element args.z (mul32 t frac)) (local_z (t % 2)) frac s else s

    unfoldable pub compute : ℕ → Memories F → Memories F
    unfolding frac local_x local_y local_z
    compute i s =
        let t = i - 1 in
        if ltb 0 i && ltb i (args.n_tiles + 1)
        then record s {
          l1 = kernel i frac args.a (local_x (t % 2)) (local_y (t % 2)) (local_z (t % 2)) s.l1;
        }
        else s

    unfoldable pub iteration : Turn → ℕ → Memories F → Memories F
    unfolding dma_in dma_out compute
    iteration before i s = dma_out i (dma_in i (compute i s))
    iteration between i s = dma_out i (compute i (dma_in i s))
    iteration after i s = compute i (dma_out i (dma_in i s))

    unfoldable pub axpy_job : (turns : ℕ → Turn) → Memories F → Memories F
    unfolding iteration for_each
    axpy_job turns = for_each (args.n_tiles + 2) (λ i. iteration (turns i) i)
