-- ===== src/Dma/Memset.antt =====
-- `snrt_dma_memset` of sw/runtime/src/dma.h: the core stores the first bytes, and for a larger
-- multiple of 64 bytes the DMA copies them over the rest.
use snitch_cluster_chips_it.Prelude.{
  ℕ, zero, suc, ◌+◌, ◌-◌, ◌*◌, ◌/◌, ◌%◌, ◌^◌, ◌≤◌, ◌<◌, ◌≡◌, ◌⊎◌, ◌≢◌, ◌==◌, ◌&&◌, leb, ◌||◌, not,
  ltb, Bool, true, false, if◌then◌else◌, [], inl, inr, refl, ap, ◌∙◌, arith, Bool-cases, add32,
}
use native.Mathlib.Decide.{dec_lt}
use snitch_cluster_chips_it.Dma.{Frontend, start_2d}
use snitch_cluster_chips_it.Dma.Engine.{Mem, Apart, Engine, rows, wait_all, wait_all-start_2d}

abbrev pub store : (a v : ℕ) → Mem → Mem
store a v m b = if b == a then v else m b

-- `while (nbytes--) *p++ = value;`
unfoldable pub fill : (nbytes p value : ℕ) → Mem → Mem
fill zero p value m = m
fill (suc n) p value m = fill n (add32 p 1) value (store p value m)

unfoldable pub use_dma : ℕ → Bool
use_dma len = len % 64 == 0 && ltb 64 len

-- The bytes that the core itself stores.
unfoldable pub stored : ℕ → ℕ
stored len = if ltb len 64 || not (use_dma len) then len else 64

unfoldable pub memset : Engine → (ptr value len : ℕ) → Frontend → Mem → Frontend × Mem
memset e ptr value len f m =
    let m = fill (stored len) ptr value m in
    if use_dma len then wait_all e (start_2d ptr ptr 64 64 0 (len / 64) 0 f) m else (f, m)

pub stored_dma :
    (len : ℕ) → use_dma len ≡ true → (stored len ≡ 64) × (64 < len) × (len / 64 * 64 ≡ len)
unfolding stored use_dma
stored_dma len h = (ground arith, ground arith, ground arith)

pub stored_core : (len : ℕ) → use_dma len ≡ false → stored len ≡ len
unfolding stored
stored_core len h = ground arith

pub by_range :
    (ptr len a x v old : ℕ)
    → (ptr ≤ a → a < ptr + len → x ≡ v)
    → ((a < ptr) ⊎ (ptr + len ≤ a) → x ≡ old)
    → x ≡ (if leb ptr a && ltb a (ptr + len) then v else old)
by_range ptr len a x v old within outside = elim (dec_lt a ptr) [
  | yes below ↦ ground (arith, outside (inl below))
  | no above ↦ elim (dec_lt a (ptr + len)) [
    | yes lt ↦ ground (arith, within (omega arith) lt)
    | no beyond ↦ ground (arith, outside (inr (omega arith)))
  ]
]

store-hit : (a p v : ℕ) (m : Mem) → a ≡ p → store p v m a ≡ v
store-hit a p v m e = ground arith

store-miss : (a p v : ℕ) (m : Mem) → a ≢ p → store p v m a ≡ m a
store-miss a p v m e = ground arith

next-lem : (n p : ℕ) → p + suc n < 2 ^ 32 → add32 p 1 ≡ p + 1
next-lem n p h = omega arith

pub fill-kept :
    (n p value : ℕ) (m : Mem) (a : ℕ)
    → p + n < 2 ^ 32
    → (a < p) ⊎ (p + n ≤ a)
    → fill n p value m a ≡ m a
unfolding fill
fill-kept zero p value m a h o = refl
fill-kept (suc n) p value m a h o = rw (next-lem n p h) (
    fill-kept n (p + 1) value (store p value m) a (omega arith) (omega arith)
    ∙ store-miss a p value m (omega arith))

pub fill-stored :
    (n p value : ℕ) (m : Mem) (a : ℕ)
    → p + n < 2 ^ 32
    → p ≤ a
    → a < p + n
    → fill n p value m a ≡ value
unfolding fill
fill-stored zero p value m a h lo hi = absurd (omega arith)
fill-stored (suc n) p value m a h lo hi = rw (next-lem n p h) (elim (dec_lt p a) [
  | yes above ↦
      fill-stored n (p + 1) value (store p value m) a (omega arith) (omega arith) (omega arith)
  | no at ↦
      fill-kept n (p + 1) value (store p value m) a (omega arith) (omega arith)
      ∙ store-hit a p value m (omega arith)
])

module _ (e : Engine) (p v : ℕ) (m : Mem) (first : (a : ℕ) → p ≤ a → a < p + 64 → m a ≡ v) where
  pub rows-kept : (n a : ℕ) → (a < p) ⊎ (p + n * 64 ≤ a) → rows e p p 64 64 0 n m a ≡ m a
  unfolding rows
  rows-kept zero a o = refl
  rows-kept (suc n) a o =
      e.kept (p + n * 64) (p + n * 0) 64 (rows e p p 64 64 0 n m) a (omega arith)
      ∙ rows-kept n a (omega arith)

  pub rows-filled :
      (n a : ℕ) → p ≤ a → (a < p + 64) ⊎ (a < p + n * 64) → rows e p p 64 64 0 n m a ≡ v
  unfolding rows
  rows-filled zero a lo o = first a lo (omega arith)
  rows-filled (suc n) a lo o = elim (dec_lt a (p + n * 64)) [
    | yes old ↦
        e.kept (p + n * 64) (p + n * 0) 64 (rows e p p 64 64 0 n m) a (omega arith)
        ∙ rows-filled n a lo (inr old)
    | no new ↦ elim (dec_lt a (p + n * 64 + 64)) [
      | yes within ↦
          ap (e.copy (p + n * 64) (p + n * 0) 64 (rows e p p 64 64 0 n m)) (at a (omega arith))
          ∙ e.copied (p + n * 64) (p + n * 0) 64 (rows e p p 64 64 0 n m) (a - (p + n * 64))
              (apart n) (omega arith)
          ∙ rows-filled n (p + n * 0 + (a - (p + n * 64))) (omega arith) (omega arith)
      | no beyond ↦
          e.kept (p + n * 64) (p + n * 0) 64 (rows e p p 64 64 0 n m) a (omega arith)
          ∙ rows-filled n a lo (omega arith)
    ]
  ]
    where
      at : (a : ℕ) → p + n * 64 ≤ a → a ≡ p + n * 64 + (a - (p + n * 64))
      at a h = omega arith

      apart : (n : ℕ) → (p + n * 64 ≡ p + n * 0) ⊎ Apart (p + n * 64) 64 (p + n * 0) 64
      apart zero = inl (omega arith)
      apart (suc n) = inr (inr (omega arith))

-- After snrt_dma_memset of a range that does not wrap, on an idle front-end and an engine that
-- copies transfers in order, every byte of the range has the value, every other byte is what it
-- was, and the front-end is idle, for every length.
pub memset_lem :
    (e : Engine) (ptr value len : ℕ) (f : Frontend) (m : Mem) (a : ℕ)
    → ptr + len < 2 ^ 32
    → f.pending ≡ []
    → let (f', m') = memset e ptr value len f m in
      (f'.pending ≡ []) × (m' a ≡ (if leb ptr a && ltb a (ptr + len) then value else m a))
unfolding memset
memset_lem e ptr value len f m a h idle = elim (Bool-cases (use_dma len)) [
  | inl dma ↦
      let s = wait_all-start_2d e ptr ptr 64 f (fill 64 ptr value m) idle 64 0 (len / 64) in
      let k = stored_dma len dma in
      rw (dma, k.0)
        (
          s.0,
          ap (λ g. g a) s.1
              ∙ by_range ptr len a _ value (m a)
                  (λ lo hi.
                    rows-filled e ptr value (fill 64 ptr value m) (first64 (omega (arith, k.1)))
                      (len / 64) a lo (omega (arith, k.2)))
                  (λ o.
                    rows-kept e ptr value (fill 64 ptr value m) (first64 (omega (arith, k.1)))
                      (len / 64) a (omega (arith, k.2))
                    ∙ fill-kept 64 ptr value m a (omega (arith, k.1)) (omega (arith, k.1))),
        )
  | inr core ↦
      rw (core, stored_core len core)
        (
          idle,
          by_range ptr len a _ value (m a) (λ lo hi. fill-stored len ptr value m a h lo hi)
              (λ o. fill-kept len ptr value m a h o),
        )
]
  where
    first64 : 64 < len → (b : ℕ) → ptr ≤ b → b < ptr + 64 → fill 64 ptr value m b ≡ value
    first64 big b lo hi = fill-stored 64 ptr value m b (omega arith) lo hi
