-- ===== src/Tests/Memory.antt =====
-- The allocators at concrete requests.
use snitch_cluster_chips_it.Prelude.{
  ℕ, ◌+◌, ◌-◌, ◌*◌, ◌<◌, ◌≤◌, ◌≡◌, ◌↔◌, refl, arith, List, [], ◌∷◌,
}
use snitch_cluster_chips_it.Team.{cluster_compute_core_num, cluster_core_idx, global_core_idx, hart}
use snitch_cluster_chips_it.Alloc.{Allocator, align_up, alloc_init}
use snitch_cluster_chips_it.Alloc.Chunks.{alloc_chunks, Packed, demand, alloc_chunks-Packed}
use snitch_cluster_chips_it.Alloc.Init.{alloc_init-Packed}
use snitch_cluster_chips_it.AllocV2.{
  ok, ecall, start, l1_check_bounds, l1_alloc_cluster_local, l1_alloc_compute_core_local, l3_alloc,
  l1_init, compute_core_local_ptr, remote_l1_ptr,
}
use snitch_cluster_chips_it.AllocV2.Bounds.{Fits, l3_alloc_lem}
use snitch_cluster_chips_it.AllocV2.Blocks.{
  Request, Block, alloc_blocks, PackedBlocks, alloc_blocks-Packed,
}
use snitch_cluster_chips_it.AllocV2.Pointers.{
  l1_alloc_compute_core_local_lem, compute_core_local_ptr_lem,
}
use snitch_cluster_chips_it.AllocV2.Remote.{remote_l1_ptr-alloc}
use snitch_cluster_chips_it.AllocV2.Heap.{stack_bottom, HasRoom, heap-below_stacks}
use snitch_cluster_chips_it.AllocV2.Stacks.{blocks-below_stacks}
use snitch_cluster_chips_it.Tests.System.{cfg, cfg-IsValid}

abbrev heap : Allocator
heap = record { base = 0x1000; end = 0x1040; next = 0x1004 }

abbrev chunk_heap : Allocator
chunk_heap = record { base = 0x1000; end = 0x2000; next = 0x1000 }

chunks_example :
    let (chunks, last) = alloc_chunks (5 ∷ 16 ∷ 1 ∷ []) chunk_heap in Packed 0x1000 chunks last.next
chunks_example =
    alloc_chunks-Packed (5 ∷ 16 ∷ 1 ∷ []) {a = chunk_heap}
      (record { aligned = refl; room = omega arith })

alloc_init_example :
    (alloc_init cfg (hart cfg 1 3) 0x10040003 0x80001001 (heap, heap) ≡ (heap, heap))
    × (let (m1, m3) = alloc_init cfg (hart cfg 1 8) 0x10040003 0x80001001 (heap, heap) in
        let (chunks, last) = alloc_chunks (5 ∷ 16 ∷ []) m1 in
        let (chunks3, last3) = alloc_chunks (100 ∷ []) m3 in
        Packed 0x10040003 chunks last.next
        × (last.next ≤ last.end)
        × (last.end ≡ 0x10040003 + 0x20000)
        × Packed 0x80001001 chunks3 last3.next
        × (last3.next < 0x80001001 + 8 + demand (100 ∷ [])))
unfolding cluster_compute_core_num
alloc_init_example =
    alloc_init-Packed cfg-IsValid 1 3 (omega arith) (omega arith) 0x10040003 0x80001001 heap heap
      (5 ∷ 16 ∷ []) (100 ∷ []) (omega arith) (omega arith) (omega arith)

abbrev heap_fits : Fits 16 32 heap
heap_fits = record { pos = omega arith; room = omega arith }

l3_alloc_example :
    let p = start 32 heap in
    let a' : Allocator = record heap { next = p + 16 } in
    ((l3_alloc 16 32 heap ≡ ok p a') ↔ (p + 16 < heap.end))
    × ((l3_alloc 16 32 heap ≡ ecall p a') ↔ (heap.end ≤ p + 16))
l3_alloc_example = l3_alloc_lem 16 32 heap_fits

abbrev two_requests : List Request
two_requests = record { size = 12; alignment = 8 } ∷ record { size = 8; alignment = 16 } ∷ []

abbrev two_blocks : List Block
two_blocks =
    record { ptr = 0x1008; request = record { size = 12; alignment = 8 } }
    ∷ record { ptr = 0x1020; request = record { size = 8; alignment = 16 } }
    ∷ []

abbrev heap_after : Allocator
heap_after = record { base = 0x1000; end = 0x1040; next = 0x1028 }

blocks_example :
    PackedBlocks heap.next two_blocks heap_after.next
    × (heap_after.next ≤ heap_after.end)
    × (heap_after.end ≡ heap.end)
unfolding alloc_blocks l1_alloc_cluster_local l1_check_bounds align_up
blocks_example =
    alloc_blocks-Packed two_requests heap {last = heap_after} {blocks = two_blocks} (omega arith)
      (omega arith) refl

core_local_example :
    let p = start 8 heap in
    let a' : Allocator = record heap { next = p + 4 * cluster_compute_core_num cfg } in
    ((l1_alloc_compute_core_local cfg (hart cfg 1 5) 4 8 heap ≡ ok (p + 4 * 5) a')
      ↔ (p + 4 * cluster_compute_core_num cfg ≤ heap.end))
    × ((l1_alloc_compute_core_local cfg (hart cfg 1 5) 4 8 heap ≡ ecall (p + 4 * 5) a')
        ↔ (heap.end < p + 4 * cluster_compute_core_num cfg))
unfolding cluster_compute_core_num
core_local_example =
    l1_alloc_compute_core_local_lem cfg-IsValid 1 5 (omega arith) (omega arith) 4 8 {a = heap}
      (record { pos = omega arith; room = omega arith })

core_local_ptr_example :
    compute_core_local_ptr cfg (hart cfg 1 5) (0x1000 + 4 * 5) 2 4 ≡ 0x1000 + 4 * 2
unfolding cluster_compute_core_num
core_local_ptr_example =
    compute_core_local_ptr_lem cfg-IsValid 1 5 (omega arith) (omega arith) 0x1000 4 2 (omega arith)
      (omega arith)

-- The heaps of the two clusters, at the same offset.
abbrev heap_0 : Allocator
heap_0 = record { base = 0x10000000; end = 0x1001c000; next = 0x10001004 }

abbrev heap_1 : Allocator
heap_1 = record { base = 0x10040000; end = 0x1005c000; next = 0x10041004 }

remote_ptr_example :
    remote_l1_ptr cfg (compute_core_local_ptr cfg (hart cfg 1 5) (0x10041008 + 4 * 5) 2 4) 1 0
    ≡ 0x10001008 + 4 * 2
unfolding l1_alloc_compute_core_local l1_check_bounds align_up cluster_core_idx global_core_idx
    cluster_compute_core_num
remote_ptr_example =
    remote_l1_ptr-alloc cfg-IsValid 4 8 1 0 5 2 0x1004 (omega arith) (omega arith) (omega arith)
      (omega arith) {a = heap_1} {b = heap_0}
      {a' = record { base = 0x10040000; end = 0x1005c000; next = 0x10041028 }}
      {b' = record { base = 0x10000000; end = 0x1001c000; next = 0x10001028 }}
      {p = 0x10041008 + 4 * 5} {q = 0x10001008 + 4 * 2} refl refl refl refl
      (record { pos = omega arith; room = omega arith })
      (record { pos = omega arith; room = omega arith }) refl refl

pub cfg-HasRoom : HasRoom cfg 0x1001f000
cfg-HasRoom = (omega arith, omega arith)

heap_end_example :
    ((l1_init cfg 0x10000000 0x1001f000).end ≤ stack_bottom 0x1001f000 (9 - 1)) ↔ (9 ≤ 16)
heap_end_example = heap-below_stacks cfg 0x10000000 0x1001f000 cfg-HasRoom (omega arith)

abbrev first_blocks : List Block
first_blocks =
    record { ptr = 0x10000000; request = record { size = 12; alignment = 8 } }
    ∷ record { ptr = 0x10000010; request = record { size = 8; alignment = 16 } }
    ∷ []

stacks_example :
    PackedBlocks 0x10000000 first_blocks 0x10000018
    × ((i : ℕ) → i < 9 → 0x10000018 ≤ stack_bottom 0x1001f000 i)
unfolding alloc_blocks l1_alloc_cluster_local l1_check_bounds align_up l1_init
stacks_example =
    blocks-below_stacks cfg 0x10000000 0x1001f000 (omega arith) cfg-HasRoom (omega arith)
      two_requests {last = record { base = 0x10000000; end = 0x1001cb80; next = 0x10000018 }}
      {blocks = first_blocks} (omega arith) (omega arith) refl
