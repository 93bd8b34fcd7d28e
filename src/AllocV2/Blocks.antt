-- ===== src/AllocV2/Blocks.antt =====
-- Sequences of requests: the granted blocks lie in order, apart, aligned and inside the region. And
-- a block of one variable per compute core: the variables of different cores are apart.
use snitch_cluster_chips_it.Prelude.{
  ℕ, ◌+◌, ◌%◌, ◌^◌, ◌≤◌, ◌<◌, ◌≡◌, refl, arith, List, [], ◌∷◌, Option, none, some, ◌↔◌, subst, ◌∙◌,
}
use native.Mathlib.Decide.{dec_lt}
use snitch_cluster_chips_it.Alloc.{Allocator}
use snitch_cluster_chips_it.AllocV2.{ok, ecall, start, l1_alloc_cluster_local}
use snitch_cluster_chips_it.AllocV2.Bounds.{Fits, start-bounds, l1_alloc_cluster_local_lem}

pub record Request : Type 0 where
  pub size : ℕ
  pub alignment : ℕ

pub record Block : Type 0 where
  pub ptr : ℕ
  pub request : Request

prepend : Block → Option (List Block × Allocator) → Option (List Block × Allocator)
prepend b none = none
prepend b (some (bs, last)) = some (b ∷ bs, last)

-- A client's requests in order; `none` if one of them trapped.
unfoldable pub alloc_blocks : List Request → Allocator → Option (List Block × Allocator)
unfolding prepend
alloc_blocks [] a = some ([], a)
alloc_blocks (r ∷ rs) a = elim (l1_alloc_cluster_local r.size r.alignment a) [
  | ok p a' ↦ prepend (record { ptr = p; request = r }) (alloc_blocks rs a')
  | ecall p a' ↦ none
]

-- No single request is so large that the code's sums wrap.
abbrev pub AllModest : ℕ → List Request → Type 0
AllModest end [] = Unit {0}
AllModest end (r ∷ rs) =
    (0 < r.alignment) × (end + r.alignment + r.size < 2 ^ 32) × AllModest end rs

-- Blocks in order from `lo` to `hi`, each aligned as requested and behind the end of the last.
abbrev pub PackedBlocks : ℕ → List Block → ℕ → Type 0
PackedBlocks lo [] hi = lo ≤ hi
PackedBlocks lo (b ∷ bs) hi =
    (lo ≤ b.ptr) × (b.ptr % b.request.alignment ≡ 0) × PackedBlocks (b.ptr + b.request.size) bs hi

pub Packed-weaken :
    (lo lo' hi : ℕ) (bs : List Block) → lo' ≤ lo → PackedBlocks lo bs hi → PackedBlocks lo' bs hi
Packed-weaken lo lo' hi [] h k = omega arith
Packed-weaken lo lo' hi (b ∷ bs) h k = (omega arith, k.1, k.2)

-- What is known of the result of a sequence of requests, if it was granted.
abbrev Outcome : Allocator → Option (List Block × Allocator) → Type 0
Outcome a none = Unit {0}
Outcome a (some (bs, last)) =
    PackedBlocks a.next bs last.next × (last.next ≤ last.end) × (last.end ≡ a.end)

Outcome-prepend :
    (b : Block) (a a' : Allocator) (o : Option (List Block × Allocator))
    → a.next ≤ b.ptr
    → b.ptr % b.request.alignment ≡ 0
    → a'.next ≡ b.ptr + b.request.size
    → a'.end ≡ a.end
    → Outcome a' o
    → Outcome a (prepend b o)
unfolding prepend
Outcome-prepend b a a' none h k e f o = tt
Outcome-prepend b a a' (some (bs, last)) h k e f o =
    ((h, k, subst (λ n. PackedBlocks n bs last.next) e o.0), o.1, o.2 ∙ f)

alloc_blocks-Outcome :
    (rs : List Request) (a : Allocator)
    → a.next ≤ a.end
    → AllModest a.end rs
    → Outcome a (alloc_blocks rs a)
unfolding alloc_blocks
alloc_blocks-Outcome [] a h m = (omega arith, h, refl)
alloc_blocks-Outcome (r ∷ rs) a h m = elim (dec_lt a.end (start r.alignment a + r.size)) [
  | yes over ↦ rw (granted.1.1 over, Outcome, alloc_blocks) tt
  | no fits ↦
      rw (granted.0.1 (omega arith), Outcome, alloc_blocks)
        (Outcome-prepend (record { ptr = start r.alignment a; request = r }) a moved
          (alloc_blocks rs moved) (start-bounds r.size r.alignment f).0
          (start-bounds r.size r.alignment f).2 refl refl
          (alloc_blocks-Outcome rs moved (omega arith) m.2))
]
  where
    f : Fits r.size r.alignment a
    f = omega (arith, m)

    moved : Allocator
    moved = record a { next = start r.alignment a + r.size }

    granted :
        ((l1_alloc_cluster_local r.size r.alignment a ≡ ok (start r.alignment a) moved)
          ↔ (start r.alignment a + r.size ≤ a.end))
        × ((l1_alloc_cluster_local r.size r.alignment a ≡ ecall (start r.alignment a) moved)
            ↔ (a.end < start r.alignment a + r.size))
    granted = l1_alloc_cluster_local_lem r.size r.alignment f

-- When a sequence of L1 requests is granted, from an allocator inside its bounds and with
-- alignments that are not 0 and sums that do not wrap, the returned blocks lie in order and apart
-- between the pointer before and after, each aligned as requested, and the allocator is still
-- inside its bounds, which stay.
pub alloc_blocks-Packed :
    (rs : List Request) (a : Allocator) {last : Allocator} {blocks : List Block}
    → a.next ≤ a.end
    → AllModest a.end rs
    → alloc_blocks rs a ≡ some (blocks, last)
    → PackedBlocks a.next blocks last.next × (last.next ≤ last.end) × (last.end ≡ a.end)
alloc_blocks-Packed rs a h m e = subst (Outcome a) e (alloc_blocks-Outcome rs a h m)
