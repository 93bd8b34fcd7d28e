-- ===== src/AllocV2.antt =====
-- sw/runtime/src/alloc_v2.h: the second allocator, with alignments, bounds checks and blocks of one
-- variable per compute core. Every core keeps its own copy of the two allocators, so each operation
-- maps the calling core's copy to the next. A request past the bounds executes `ecall`: the result
-- then says so, beside the pointer and the allocator that the code had computed.
pub mod Bounds
pub mod Blocks
pub mod Pointers
pub mod Heap
pub mod Remote
pub mod Stacks
use snitch_cluster_chips_it.Prelude.{
  ℕ, ◌^◌, ltb, leb, if◌then◌else◌, u32, add32, sub32, mul32, add64, Bool,
}
use snitch_cluster_chips_it.Team.{
  Config, log2_stack_size, cluster_idx, cluster_core_idx, cluster_compute_core_num,
}
use snitch_cluster_chips_it.Alloc.{Allocator, min_chunk_size, align_up}

pub data Checked : Type 0 where
  ok : ℕ → Allocator → Checked
  ecall : ℕ → Allocator → Checked

-- The allocator whose `next` is aligned for the request.
abbrev pub start : (alignment : ℕ) → Allocator → ℕ
start alignment a = align_up (u32 a.next) alignment 0

unfoldable pub l1_check_bounds : ℕ → Allocator → Checked
l1_check_bounds ptr a = if ltb a.end a.next then ecall ptr a else ok ptr a

unfoldable pub l3_check_bounds : ℕ → Allocator → Checked
l3_check_bounds ptr a = if leb a.end a.next then ecall ptr a else ok ptr a

unfoldable pub l1_alloc_cluster_local : (size alignment : ℕ) → Allocator → Checked
l1_alloc_cluster_local size alignment a =
    l1_check_bounds (start alignment a) (record a { next = add64 (start alignment a) size })

unfoldable pub l1_alloc_compute_core_local :
    Config → (hartid size alignment : ℕ) → Allocator → Checked
l1_alloc_compute_core_local cfg hartid size alignment a =
    l1_check_bounds (add32 (start alignment a) (mul32 size (cluster_core_idx cfg hartid)))
      (record a { next = add64 (start alignment a) (mul32 size (cluster_compute_core_num cfg)) })

unfoldable pub l3_alloc : (size alignment : ℕ) → Allocator → Checked
l3_alloc size alignment a =
    l3_check_bounds (start alignment a) (record a { next = add64 (start alignment a) size })

-- `snrt_cls_base_addr` of start.h: the cluster-local storage ends at the end of the cluster's TCDM.
unfoldable pub cls_base_addr : Config → (hartid cdata_size cbss_size : ℕ) → ℕ
cls_base_addr cfg hartid cdata_size cbss_size =
    sub32
      (sub32
        (add32 (add32 cfg.tcdm_start_addr (mul32 (cluster_idx cfg hartid) cfg.cluster_offset))
          cfg.tcdm_size)
        cdata_size)
      cbss_size

-- `snrt_l1_init`: `cls_base` is the base of the cluster-local storage.
unfoldable pub l1_init : Config → (tcdm cls_base : ℕ) → Allocator
l1_init cfg tcdm cls_base = record {
  base = align_up tcdm min_chunk_size 0;
  end = sub32 (sub32 cls_base (mul32 (2 ^ log2_stack_size) cfg.cluster_core_num)) 128;
  next = align_up tcdm min_chunk_size 0;
}

unfoldable pub l3_init : Config → (edram : ℕ) → Allocator
l3_init cfg edram = record {
  base = align_up edram min_chunk_size 0;
  end = cfg.l3_end_addr;
  next = align_up edram min_chunk_size 0;
}

unfoldable pub compute_core_local_ptr : Config → (hartid ptr core_idx size : ℕ) → ℕ
compute_core_local_ptr cfg hartid ptr core_idx size =
    add32 ptr (mul32 (sub32 core_idx (cluster_core_idx cfg hartid)) size)

unfoldable pub remote_l1_ptr : Config → (ptr src_cluster_idx dst_cluster_idx : ℕ) → ℕ
remote_l1_ptr cfg ptr src_cluster_idx dst_cluster_idx =
    add32 ptr (mul32 (sub32 dst_cluster_idx src_cluster_idx) cfg.cluster_offset)
