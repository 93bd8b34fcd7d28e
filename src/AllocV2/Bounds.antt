-- ===== src/AllocV2/Bounds.antt =====
-- The bounds checks: which requests are granted, and that granted blocks are aligned, inside the
-- allocator's region, in order and apart.
use snitch_cluster_chips_it.Prelude.{ℕ, u32, ◌+◌, ◌%◌, ◌^◌, ◌≤◌, ◌<◌, ◌≡◌, ◌↔◌, arith}
use snitch_cluster_chips_it.Alloc.{Allocator}
use snitch_cluster_chips_it.Alloc.Align.{align_up_zero}
use snitch_cluster_chips_it.AllocV2.{
  ok, ecall, start, l1_check_bounds, l3_check_bounds, l1_alloc_cluster_local, l3_alloc,
}

-- A request that no addition of the code wraps for.
pub record Fits (size alignment : ℕ) (a : Allocator) : Type 0 where
  pub pos : 0 < alignment
  pub room : a.next + alignment + size < 2 ^ 32

pub start-bounds :
    (size alignment : ℕ) {a : Allocator}
    → Fits size alignment a
    → (a.next ≤ start alignment a)
      × (start alignment a < a.next + alignment)
      × (start alignment a % alignment ≡ 0)
start-bounds size alignment {a} f =
    rw same (align_up_zero a.next alignment f.pos (omega (arith, f.room)))
  where
    same : u32 a.next ≡ a.next
    same = omega (arith, f.room)

-- For an alignment that is not 0 and sums that do not wrap, the L1 allocator returns the aligned
-- block and moves behind it exactly when the block ends at the bound or below it, and traps with
-- the allocator moved exactly when it ends above.
pub l1_alloc_cluster_local_lem :
    (size alignment : ℕ) {a : Allocator}
    → Fits size alignment a
    → let p = start alignment a in
      let a' = record a { next = p + size } in
      ((l1_alloc_cluster_local size alignment a ≡ ok p a') ↔ (p + size ≤ a.end))
      × ((l1_alloc_cluster_local size alignment a ≡ ecall p a') ↔ (a.end < p + size))
unfolding l1_alloc_cluster_local l1_check_bounds
l1_alloc_cluster_local_lem size alignment {a} f = (
  (
    ground (arith, start-bounds size alignment f, f.room),
    ground (arith, start-bounds size alignment f, f.room),
  ),
  (
    ground (arith, start-bounds size alignment f, f.room),
    ground (arith, start-bounds size alignment f, f.room),
  ),
)

-- For an alignment that is not 0 and sums that do not wrap, the L3 allocator returns the aligned
-- block exactly when it ends strictly below the bound, and traps exactly when it ends at the bound
-- or above.
pub l3_alloc_lem :
    (size alignment : ℕ) {a : Allocator}
    → Fits size alignment a
    → let p = start alignment a in
      let a' = record a { next = p + size } in
      ((l3_alloc size alignment a ≡ ok p a') ↔ (p + size < a.end))
      × ((l3_alloc size alignment a ≡ ecall p a') ↔ (a.end ≤ p + size))
unfolding l3_alloc l3_check_bounds
l3_alloc_lem size alignment {a} f = (
  (
    ground (arith, start-bounds size alignment f, f.room),
    ground (arith, start-bounds size alignment f, f.room),
  ),
  (
    ground (arith, start-bounds size alignment f, f.room),
    ground (arith, start-bounds size alignment f, f.room),
  ),
)

-- A request with an alignment that is not 0 and sums that do not wrap, and whose aligned block
-- ends exactly at the allocator's bound, is granted by the L1 allocator, while the L3 allocator
-- traps on it.
exact_fit :
    (size alignment : ℕ) {a : Allocator}
    → Fits size alignment a
    → start alignment a + size ≡ a.end
    → let p = start alignment a in
      let a' = record a { next = p + size } in
      (l1_alloc_cluster_local size alignment a ≡ ok p a') × (l3_alloc size alignment a ≡ ecall p a')
exact_fit size alignment f e = (
  (l1_alloc_cluster_local_lem size alignment f).0.1 (omega arith),
  (l3_alloc_lem size alignment f).1.1 (omega arith),
)
