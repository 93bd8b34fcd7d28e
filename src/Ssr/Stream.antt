-- ===== src/Ssr/Stream.antt =====
-- What the loop counters of the address generator count: the handshakes, in the mixed radix of the
-- loop bounds, while the pointer follows the affine map of the counters.
use snitch_cluster_chips_it.Prelude.{
  ℕ, ◌+◌, ◌*◌, ◌%◌, ◌≤◌, ◌<◌, ltb, true, false, if◌then◌else◌, List, [], ◌∷◌, ◌≡◌, ◌⊎◌, refl, sym,
  ap, ◌∙◌, arith, length, Bool-cases, inl, inr, mul-suc_le,
}
use mathlib.Core.Bool.{true≢false}
use native.Mathlib.Nat.{add-mod, mod-eq_of_lt}
use snitch_cluster_chips_it.Ssr.AddrGen.{Loop, loop_last, tick}

-- Equal modulo `p`.
abbrev pub Cong : ℕ → ℕ → ℕ → Type 0
Cong p a b = a % p ≡ b % p

pub Cong-add : (p a b c d : ℕ) → Cong p a b → Cong p c d → Cong p (a + c) (b + d)
Cong-add p a b c d h k =
    add-mod a c p ∙ ap (λ t. (t + c % p) % p) h ∙ ap (λ t. (b % p + t) % p) k ∙ sym (add-mod b d p)

-- The bound of a loop that the stream uses; another loop never counts.
abbrev pub limit : (dims i : ℕ) → Loop → ℕ
limit dims i l = if ltb dims i then 0 else l.bound

-- The handshakes so far, and in all.
abbrev pub value : (dims i : ℕ) → List Loop → ℕ
value dims i [] = 0
value dims i (l ∷ ls) = l.index + (limit dims i l + 1) * value dims (i + 1) ls

abbrev pub total : (dims i : ℕ) → List Loop → ℕ
total dims i [] = 1
total dims i (l ∷ ls) = (limit dims i l + 1) * total dims (i + 1) ls

-- The counters at the strides of the loop nest.
abbrev pub dot : List ℕ → List Loop → ℕ
dot [] ls = 0
dot (s ∷ ss) [] = 0
dot (s ∷ ss) (l ∷ ls) = l.index * s + dot ss ls

-- Every counter is within its bound, and the bound within the counter's width.
abbrev pub InRange : (index_mod dims i : ℕ) → List Loop → Type 0
InRange im dims i [] = Unit {0}
InRange im dims i (l ∷ ls) =
    (l.index ≤ limit dims i l) × (l.bound < im) × InRange im dims (i + 1) ls

-- The programmed strides are those of the nest less what the inner loops have advanced by.
abbrev pub Relative : (pointer_mod off : ℕ) → List ℕ → List Loop → Type 0
Relative p off [] ls = Unit {0}
Relative p off (s ∷ ss) [] = Unit {0}
Relative p off (s ∷ ss) (l ∷ ls) = Cong p (l.stride + off) s × Relative p (off + l.bound * s) ss ls

module _ (im dims : ℕ) where
  -- Beyond the used loops all are last.
  tick-done : (i : ℕ) (ls : List Loop) → dims < i → (tick im dims i ls).done ≡ true
  unfolding tick
  tick-done i [] h = refl
  tick-done i (l ∷ ls) h = ground (arith, tick-done (i + 1) ls)

  last-lem :
      (i : ℕ) (l : Loop)
      → loop_last dims i l ≡ true
      → l.index ≤ limit dims i l
      → l.index ≡ limit dims i l
  unfolding loop_last
  last-lem i l h r = ground arith

  not_last-lem :
      (i : ℕ) (l : Loop)
      → loop_last dims i l ≡ false
      → l.index ≤ limit dims i l
      → l.bound < im
      → (i ≤ dims) × (l.index < l.bound) × ((l.index + 1) % im ≡ l.index + 1)
  unfolding loop_last
  not_last-lem i l h r b = (ground arith, ground arith, mod-eq_of_lt (ground arith))

  limit-used : (i : ℕ) (l : Loop) → i ≤ dims → limit dims i l ≡ l.bound
  limit-used i l h = ground arith

  -- A loop that counts moves the pointer by its own stride.
  tick-inner :
      (p i off s : ℕ) (l : Loop) (rest : ℕ)
      → loop_last dims i l ≡ false
      → l.index ≤ limit dims i l
      → l.bound < im
      → Cong p (l.stride + off) s
      → Cong p ((l.index + 1) % im * s + rest) (l.index * s + rest + l.stride + off)
  tick-inner p i off s l rest more r b c =
      ap (λ t. t % p) (omega (arith, ap (λ (t : ℕ). t * s) (not_last-lem i l more r b).2))
      ∙ Cong-add p (l.index * s + rest) (l.index * s + rest) s (l.stride + off) refl (sym c)
      ∙ ap (λ t. t % p) (omega arith)

  -- A loop at its bound starts over, and an outer loop's stride also takes back what it advanced by.
  tick-carry :
      (p i off s : ℕ) (l : Loop) (rest rest' stride : ℕ)
      → loop_last dims i l ≡ true
      → i ≤ dims
      → l.index ≤ limit dims i l
      → Cong p rest' (rest + stride + (off + l.bound * s))
      → Cong p (0 * s + rest') (l.index * s + rest + stride + off)
  tick-carry p i off s l rest rest' stride last used r c =
      ap (λ t. t % p) (omega arith)
      ∙ c
      ∙ ap (λ t. t % p)
          (omega (arith, ap (λ (t : ℕ). t * s) (last-lem i l last r ∙ limit-used i l used)))

  -- One handshake before the last moves the pointer as the nest's map moves.
  pub tick-dot :
      (p i off : ℕ) (ss : List ℕ) (ls : List Loop)
      → i + length ss ≡ dims + 1
      → InRange im dims i ls
      → Relative p off ss ls
      → (tick im dims i ls).done ≡ false
      → Cong p (dot ss (tick im dims i ls).loops) (dot ss ls + (tick im dims i ls).stride + off)
  unfolding tick
  tick-dot p i off [] ls e r rel h = absurd (true≢false (sym (tick-done i ls (omega arith)) ∙ h))
  tick-dot p i off (s ∷ ss) [] e r rel h = ground arith
  tick-dot p i off (s ∷ ss) (l ∷ []) e r rel h = elim (Bool-cases (loop_last dims i l)) [
    | inl last ↦ absurd (true≢false (rw last at h))
    | inr more ↦ rw more (tick-inner p i off s l (dot ss []) more r.0 r.1 rel.0)
  ]
  tick-dot p i off (s ∷ ss) (l ∷ m ∷ ms) e r rel h = elim (Bool-cases (loop_last dims i l)) [
    | inl last ↦ rw last (
        tick-carry p i off s l (dot ss (m ∷ ms)) (dot ss (tick im dims (i + 1) (m ∷ ms)).loops)
          (tick im dims (i + 1) (m ∷ ms)).stride last (omega arith) r.0
          (tick-dot p (i + 1) (off + l.bound * s) ss (m ∷ ms) (omega arith) r.2 rel.1
            (rw last at h)))
    | inr more ↦ rw more (tick-inner p i off s l (dot ss (m ∷ ms)) more r.0 r.1 rel.0)
  ]

  value-lt-total :
      (i : ℕ) (ls : List Loop) → InRange im dims i ls → value dims i ls < total dims i ls
  value-lt-total i [] r = omega arith
  value-lt-total i (l ∷ ls) r = omega (
    arith,
    r.0,
    mul-suc_le (value dims (i + 1) ls) (total dims (i + 1) ls) (limit dims i l + 1)
        (value-lt-total (i + 1) ls r.2),
  )

  -- One handshake counts one; the last one comes at the total.
  pub tick-value :
      (i : ℕ) (ls : List Loop)
      → InRange im dims i ls
      → let t = tick im dims i ls in
        InRange im dims i t.loops
        × ((t.done ≡ false)
              × (value dims i t.loops ≡ value dims i ls + 1)
              × (value dims i ls + 1 < total dims i ls)
            ⊎ (t.done ≡ true)
              × (value dims i t.loops ≡ 0)
              × (value dims i ls + 1 ≡ total dims i ls))
  unfolding tick
  tick-value i [] r = ground arith
  tick-value i (l ∷ ls) r = elim (Bool-cases (loop_last dims i l)) [
    | inl last ↦ rw last (
        (
          (omega arith, r.1, (tick-value (i + 1) ls r.2).0),
          elim (tick-value (i + 1) ls r.2).1 [
            | inl c ↦ inl (
              c.0,
              omega (arith, carried last, ap (λ (t : ℕ). (limit dims i l + 1) * t) c.1),
              omega (
                arith,
                carried last,
                mul-suc_le (value dims (i + 1) ls + 1) (total dims (i + 1) ls) (limit dims i l + 1)
                    c.2,
              ),
            )
            | inr c ↦ inr (
              c.0,
              omega (arith, ap (λ (t : ℕ). (limit dims i l + 1) * t) c.1),
              omega (arith, carried last, ap (λ (t : ℕ). (limit dims i l + 1) * t) c.2),
            )
          ],
        ))
    | inr more ↦ rw more (
      (
        omega (
          arith,
          not_last-lem i l more r.0 r.1,
          limit-used i l (not_last-lem i l more r.0 r.1).0,
        ),
        r.1,
        r.2,
      ),
      inl (
        refl,
        omega (arith, not_last-lem i l more r.0 r.1),
        omega (
          arith,
          not_last-lem i l more r.0 r.1,
          limit-used i l (not_last-lem i l more r.0 r.1).0,
          mul-suc_le (value dims (i + 1) ls) (total dims (i + 1) ls) (limit dims i l + 1)
              (value-lt-total (i + 1) ls r.2),
        ),
      ),
    )
  ]
    where
      carried : loop_last dims i l ≡ true → l.index ≡ limit dims i l
      carried last = last-lem i l last r.0
