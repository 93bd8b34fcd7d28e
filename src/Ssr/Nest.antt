-- ===== src/Ssr/Nest.antt =====
-- The addresses of a stream are those of the loop nest: `snrt_ssr_loop_*` programs relative strides,
-- and the address generator adds them up again.
use snitch_cluster_chips_it.Prelude.{
  ℕ, zero, suc, ◌+◌, ◌-◌, ◌*◌, ◌/◌, ◌%◌, ◌<◌, true, false, List, [], ◌∷◌, ◌≡◌, refl, sym, ap, ◌∙◌,
  subst, arith, length, Bool-cases, inl, inr, div-mul_add,
}
use native.Mathlib.Nat.{mod-mod}
use snitch_cluster_chips_it.Ssr.AddrGen.{Loop, Tick, Gen, loop_last, tick, step, after}
use snitch_cluster_chips_it.Ssr.Stream.{
  Cong, Cong-add, limit, value, total, dot, InRange, Relative, tick-dot, tick-value,
}

-- The nest's map at the digits of `n`, innermost loop first.
abbrev pub nest : (dims i : ℕ) → List ℕ → List Loop → ℕ → ℕ
nest dims i [] ls n = 0
nest dims i (s ∷ ss) [] n = 0
nest dims i (s ∷ ss) (l ∷ ls) n =
    n % (limit dims i l + 1) * s + nest dims (i + 1) ss ls (n / (limit dims i l + 1))

-- The lowest digit of a number, and the others.
digits_lem : (i n v : ℕ) → i < n → ((i + n * v) % n ≡ i) × ((i + n * v) / n ≡ v)
digits_lem i n v h =
    (ap (λ t. t % n) same ∙ (div-mul_add v i n h).1, ap (λ t. t / n) same ∙ (div-mul_add v i n h).0)
  where
    same : i + n * v ≡ v * n + i
    same = omega arith

module _ (im p dims : ℕ) where
  dot-nest :
      (i : ℕ) (ss : List ℕ) (ls : List Loop)
      → InRange im dims i ls
      → dot ss ls ≡ nest dims i ss ls (value dims i ls)
  dot-nest i [] ls r = refl
  dot-nest i (s ∷ ss) [] r = refl
  dot-nest i (s ∷ ss) (l ∷ ls) r =
      let d =
        digits_lem l.index (limit dims i l + 1) (value dims (i + 1) ls) (omega (arith, r.0)) in
      rw (d.0, d.1) (ap (λ t. l.index * s + t) (dot-nest (i + 1) ss ls r.2))

  nest-tick :
      (i : ℕ) (ss : List ℕ) (ls : List Loop) (n : ℕ)
      → nest dims i ss (tick im dims i ls).loops n ≡ nest dims i ss ls n
  unfolding tick
  nest-tick i [] ls n = refl
  nest-tick i (s ∷ ss) [] n = refl
  nest-tick i (s ∷ ss) (l ∷ ls) n =
      ground (arith, nest-tick (i + 1) ss ls (n / (limit dims i l + 1)))

  total-tick : (i : ℕ) (ls : List Loop) → total dims i (tick im dims i ls).loops ≡ total dims i ls
  unfolding tick
  total-tick i [] = refl
  total-tick i (l ∷ ls) = ground (arith, total-tick (i + 1) ls)

  Relative-tick :
      (i off : ℕ) (ss : List ℕ) (ls : List Loop)
      → Relative p off ss ls
      → Relative p off ss (tick im dims i ls).loops
  unfolding tick
  Relative-tick i off [] ls r = tt
  Relative-tick i off (s ∷ ss) [] r = tt
  Relative-tick i off (s ∷ ss) (l ∷ ls) r = elim (Bool-cases (loop_last dims i l)) [
    | inl last ↦ rw last (r.0, Relative-tick (i + 1) (off + l.bound * s) ss ls r.1)
    | inr more ↦ rw more r
  ]

module _ (im p dims : ℕ) (ss : List ℕ) (g : Gen) where
  -- What holds after `n` handshakes of a stream that began as `g`.
  pub record Running (n : ℕ) (h : Gen) : Type 0 where
    pub range : InRange im dims 0 h.loops
    pub counted : value dims 0 h.loops ≡ n
    pub strides : Relative p 0 ss h.loops
    pub same_total : total dims 0 h.loops ≡ total dims 0 g.loops
    pub same_nest : (k : ℕ) → nest dims 0 ss h.loops k ≡ nest dims 0 ss g.loops k
    pub follows : Cong p h.pointer (g.pointer + dot ss h.loops)
    pub going : h.done ≡ false

  advance :
      {n : ℕ} (h : Gen)
      → (tick im dims 0 h.loops).done ≡ false
      → length ss ≡ dims + 1
      → Running n h
      → Cong p
          ((h.pointer + (tick im dims 0 h.loops).stride) % p)
          (g.pointer + dot ss (tick im dims 0 h.loops).loops)
  advance h d e r =
      mod-mod (h.pointer + t.stride) p
      ∙ Cong-add p h.pointer (g.pointer + dot ss h.loops) t.stride t.stride r.follows refl
      ∙ ap (λ k. k % p) (omega arith)
      ∙ Cong-add p g.pointer g.pointer (dot ss h.loops + t.stride + 0) (dot ss t.loops) refl
          (sym (tick-dot im dims p 0 0 ss h.loops (omega arith) r.range r.strides d))
    where
      t : Tick
      t = tick im dims 0 h.loops

  Running-step :
      (n : ℕ) (h : Gen)
      → length ss ≡ dims + 1
      → n + 1 < total dims 0 g.loops
      → Running n h
      → Running (n + 1) (step im p dims h)
  unfolding step
  Running-step n h e lt r = elim (tick-value im dims 0 h.loops r.range).1 [
    | inr c ↦ absurd (omega (arith, c.2, r.counted, r.same_total))
    | inl c ↦ rw r.going (record {
      range = (tick-value im dims 0 h.loops r.range).0;
      counted = c.1 ∙ ap (λ t. t + 1) r.counted;
      strides = Relative-tick im p dims 0 0 ss h.loops r.strides;
      same_total = total-tick im p dims 0 h.loops ∙ r.same_total;
      same_nest = λ k. nest-tick im p dims 0 ss h.loops k ∙ r.same_nest k;
      follows = advance h c.0 e r;
      going = c.0;
    })
  ]

  last-step :
      (n : ℕ) (h : Gen)
      → n + 1 ≡ total dims 0 g.loops
      → Running n h
      → (step im p dims h).done ≡ true
  unfolding step
  last-step n h e r = elim (tick-value im dims 0 h.loops r.range).1 [
    | inl c ↦ absurd (omega (arith, c.2, r.counted, r.same_total))
    | inr c ↦ rw r.going c.0
  ]

  after-Running :
      (n : ℕ)
      → length ss ≡ dims + 1
      → n < total dims 0 g.loops
      → Running 0 g
      → Running n (after im p dims n g)
  unfolding after
  after-Running zero e lt r = r
  after-Running (suc n) e lt r =
      subst (λ k. Running k (step im p dims (after im p dims n g))) (omega arith)
        (Running-step n (after im p dims n g) e (omega arith) (after-Running n e (omega arith) r))

  -- A stream makes as many addresses as the nest has iterations, and then it is done; the `n`th
  -- address is the nest's map at the digits of `n`.
  pub after-nest :
      (n : ℕ)
      → length ss ≡ dims + 1
      → n < total dims 0 g.loops
      → Running 0 g
      → ((after im p dims n g).done ≡ false)
        × (Cong p (after im p dims n g).pointer (g.pointer + nest dims 0 ss g.loops n))
        × ((after im p dims (total dims 0 g.loops) g).done ≡ true)
  unfolding after
  after-nest n e lt r = (
    now.going,
    now.follows
        ∙ ap (λ t. (g.pointer + t) % p)
            (dot-nest im p dims 0 ss (after im p dims n g).loops now.range
              ∙ now.same_nest (value dims 0 (after im p dims n g).loops)
              ∙ ap (nest dims 0 ss g.loops) now.counted),
    subst (λ m. (after im p dims m g).done ≡ true) whole
        (last-step (total dims 0 g.loops - 1) (after im p dims (total dims 0 g.loops - 1) g)
          (omega arith) (after-Running (total dims 0 g.loops - 1) e (omega arith) r)),
  )
    where
      now : Running n (after im p dims n g)
      now = after-Running n e lt r

      whole : suc (total dims 0 g.loops - 1) ≡ total dims 0 g.loops
      whole = omega arith
