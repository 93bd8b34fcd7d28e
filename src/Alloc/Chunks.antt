-- ===== src/Alloc/Chunks.antt =====
-- Successive chunks of the first allocator: 8-byte boundaries, and no overlap.
use snitch_cluster_chips_it.Prelude.{ℕ, ◌+◌, ◌%◌, ◌^◌, ◌≤◌, ◌<◌, ◌≡◌, arith, List, [], ◌∷◌}
use snitch_cluster_chips_it.Alloc.{Allocator, alloc}
use snitch_cluster_chips_it.Alloc.Align.{align_up_lem}

-- Room for `n` more bytes below 4 GiB, and the next chunk on a boundary.
pub record IsReady (n : ℕ) (a : Allocator) : Type 0 where
  pub aligned : a.next % 8 ≡ 0
  pub room : a.next + n < 2 ^ 32

-- A request takes its size rounded up, from a boundary, and leaves the next chunk on a boundary
-- right behind it; the limits of the allocator stay.
pub alloc_lem :
    (size : ℕ) {a : Allocator}
    → IsReady (size + 8) a
    → let (p, a') = alloc size a in
      (p ≡ a.next)
      × (p % 8 ≡ 0)
      × (p + size ≤ a'.next)
      × (a'.next < p + size + 8)
      × (a'.next % 8 ≡ 0)
      × (a'.base ≡ a.base)
      × (a'.end ≡ a.end)
unfolding alloc
alloc_lem size {a} r =
    let (above, under, boundary) =
      align_up_lem size 8 0 (omega arith) (omega arith) (omega (arith, r.room)) in
    omega arith

-- A client's requests in order, with the chunks that it gets.
unfoldable pub alloc_chunks : List ℕ → Allocator → List (ℕ × ℕ) × Allocator
alloc_chunks [] a = ([], a)
alloc_chunks (size ∷ sizes) a =
    let (p, a') = alloc size a in
    let (chunks, last) = alloc_chunks sizes a' in ((p, size) ∷ chunks, last)

abbrev pub demand : List ℕ → ℕ
demand [] = 0
demand (size ∷ sizes) = size + 8 + demand sizes

-- Chunks in order from `lo` to `hi`, each on a boundary and behind the end of the one before.
abbrev pub Packed : ℕ → List (ℕ × ℕ) → ℕ → Type 0
Packed lo [] hi = lo ≤ hi
Packed lo ((p, size) ∷ chunks) hi = (lo ≤ p) × (p % 8 ≡ 0) × Packed (p + size) chunks hi

pub Packed-weaken :
    (lo lo' hi : ℕ) (chunks : List (ℕ × ℕ)) → lo' ≤ lo → Packed lo chunks hi → Packed lo' chunks hi
Packed-weaken lo lo' hi [] h k = omega arith
Packed-weaken lo lo' hi ((p, size) ∷ chunks) h k = (omega arith, k.1, k.2)

-- However many chunks a client requests of the first allocator, from a pointer on an 8-byte
-- boundary and with a demand that fits below 4 GiB, they lie in order and apart on 8-byte
-- boundaries between the pointer before and after.
pub alloc_chunks-Packed :
    (sizes : List ℕ) {a : Allocator}
    → IsReady (demand sizes) a
    → let (chunks, last) = alloc_chunks sizes a in Packed a.next chunks last.next
unfolding alloc_chunks
alloc_chunks-Packed [] r = omega arith
alloc_chunks-Packed (size ∷ sizes) {a} r =
    let (p, boundary, above, under, aligned, b, e) = alloc_lem size {a = a} (omega arith) in
    (
      omega arith,
      omega arith,
      Packed-weaken _ _ _ (alloc_chunks sizes (alloc size a).1).0 (omega arith)
          (alloc_chunks-Packed sizes (omega arith)),
    )

-- The requests take no more than they demand, and leave the end of the region.
pub alloc_chunks-le :
    (sizes : List ℕ) {a : Allocator}
    → IsReady (demand sizes) a
    → let (chunks, last) = alloc_chunks sizes a in
      (last.next ≤ a.next + demand sizes) × (last.end ≡ a.end)
unfolding alloc_chunks
alloc_chunks-le [] r = omega arith
alloc_chunks-le (size ∷ sizes) {a} r =
    let (p, boundary, above, under, aligned, b, e) = alloc_lem size {a = a} (omega arith) in
    omega (arith, alloc_chunks-le sizes {a = (alloc size a).1} (omega arith))
