-- ===== src/Alloc.antt =====
-- sw/runtime/src/alloc.h: alignment, and the first allocator. An allocator only moves a pointer up;
-- no memory is freed. The two allocators `cls()->l1_allocator` and `l3_allocator` of a cluster are
-- passed in and out. The fields of `snrt_allocator_t` are 64 bits wide, pointers and sizes 32.
pub mod Align
pub mod Chunks
pub mod Init
use snitch_cluster_chips_it.Prelude.{
  ℕ, ◌+◌, ◌*◌, ◌/◌, Bool, if◌then◌else◌, add32, sub32, mul32, u32, add64,
}
use snitch_cluster_chips_it.Team.{Config, is_dm_core}

pub record Allocator : Type 0 where
  pub base : ℕ
  pub end : ℕ
  pub next : ℕ

abbrev pub min_chunk_size : ℕ
min_chunk_size = 8

-- `size` is not 0: a division by 0 is undefined in the source.
unfoldable pub align_up : (addr size base : ℕ) → ℕ
align_up addr size base = add32 (mul32 (sub32 (add32 (sub32 addr base) size) 1 / size) size) base

unfoldable pub align_up_hyperbank : Config → ℕ → ℕ
align_up_hyperbank cfg addr = align_up addr cfg.tcdm_hyperbank_width cfg.tcdm_start_addr

-- `snrt_l1_alloc`, and `snrt_l3_alloc` on the other allocator: the chunk, and the moved allocator.
unfoldable pub alloc : ℕ → Allocator → ℕ × Allocator
alloc size a = (u32 a.next, record a { next = add64 a.next (align_up size min_chunk_size 0) })

-- `snrt_l1_update_next`
unfoldable pub update_next : ℕ → Allocator → Allocator
update_next next a = record a { next = u32 next }

-- `snrt_alloc_init` up to its barrier, on the core `hartid`: only the DM core writes. `tcdm` is the
-- address of the cluster's TCDM, `edram` that of the linker's symbol.
unfoldable pub alloc_init :
    Config → (hartid tcdm edram : ℕ) → Allocator × Allocator → Allocator × Allocator
alloc_init cfg hartid tcdm edram (l1, l3) =
    if is_dm_core cfg hartid
    then (
      record {
        base = align_up tcdm min_chunk_size 0;
        end = add32 tcdm cfg.tcdm_size;
        next = align_up tcdm min_chunk_size 0;
      },
      record {
        base = align_up edram min_chunk_size 0;
        end = align_up edram min_chunk_size 0;
        next = align_up edram min_chunk_size 0;
      },
    )
    else (l1, l3)
