-- ===== src/AllocV2/Stacks.antt =====
-- The blocks of the second allocator, from its initialisation on, against the stacks.
use snitch_cluster_chips_it.Prelude.{ℕ, ◌+◌, ◌*◌, ◌^◌, ◌≤◌, ◌<◌, ◌≡◌, arith, List, some}
use snitch_cluster_chips_it.Team.{Config, log2_stack_size}
use snitch_cluster_chips_it.Alloc.{Allocator}
use snitch_cluster_chips_it.Alloc.Align.{align_up_zero}
use snitch_cluster_chips_it.AllocV2.{l1_init}
use snitch_cluster_chips_it.AllocV2.Heap.{stack_pointer, stack_bottom, HasRoom}
use snitch_cluster_chips_it.AllocV2.Blocks.{
  Request, Block, alloc_blocks, AllModest, PackedBlocks, Packed-weaken, alloc_blocks-Packed,
}

module _ (cfg : Config) (tcdm cls_base : ℕ) (small : tcdm + 8 < 2 ^ 32) (r : HasRoom cfg cls_base)
    (room : tcdm + 8 + 2 ^ log2_stack_size * cfg.cluster_core_num + 128 ≤ cls_base) where
  begins :
      (tcdm ≤ (l1_init cfg tcdm cls_base).next)
      × ((l1_init cfg tcdm cls_base).next ≤ (l1_init cfg tcdm cls_base).end)
  unfolding l1_init
  begins = omega (arith, r, room, align_up_zero tcdm 8 (omega arith) small)

  ends-below :
      cfg.cluster_core_num ≤ 16
      → (i : ℕ) → i < cfg.cluster_core_num
      → (l1_init cfg tcdm cls_base).end ≤ stack_bottom cls_base i
  unfolding l1_init stack_pointer
  ends-below few i hi = omega (arith, r, few, hi)

  -- For a cluster of at most 16 cores, when the heap's start does not wrap and there is room for
  -- it between the start of the TCDM and the stacks below the cluster-local storage: when a
  -- sequence of L1 requests with alignments that are not 0 and sums that do not wrap is granted
  -- after snrt_l1_init, the blocks lie in order and apart, each aligned as requested, from the
  -- start of the TCDM on, and end at or below the lowest address of every core's stack.
  pub blocks-below_stacks :
      (rs : List Request) {last : Allocator} {blocks : List Block}
      → cfg.cluster_core_num ≤ 16
      → AllModest (l1_init cfg tcdm cls_base).end rs
      → alloc_blocks rs (l1_init cfg tcdm cls_base) ≡ some (blocks, last)
      → PackedBlocks tcdm blocks last.next
        × ((i : ℕ) → i < cfg.cluster_core_num → last.next ≤ stack_bottom cls_base i)
  blocks-below_stacks rs {last} {blocks} few modest granted =
      let (packed, inside, same) =
        alloc_blocks-Packed rs (l1_init cfg tcdm cls_base) {last = last} {blocks = blocks} begins.1
          modest granted in
      (
        Packed-weaken _ tcdm last.next blocks begins.0 packed,
        λ i hi. omega (arith, inside, same, ends-below few i hi),
      )
