-- ===== src/Dma/Pending.antt =====
-- `snrt_dma_memset` while transfers are pending: they neither read nor write the range that is set.
use snitch_cluster_chips_it.Prelude.{
  ℕ, ◌+◌, ◌-◌, ◌*◌, ◌/◌, ◌%◌, ◌^◌, ◌≤◌, ◌<◌, ◌≡◌, ◌⊎◌, ltb, leb, ◌&&◌, if◌then◌else◌, List, [], ◌∷◌,
  ◌++◌, inl, inr, refl, sym, ap, ap₂, ◌∙◌, arith, Bool-cases,
}
use native.Mathlib.Decide.{dec_lt}
use snitch_cluster_chips_it.Dma.{Transfer, Frontend, start_1d, start_2d}
use snitch_cluster_chips_it.Dma.Engine.{Mem, Apart, Engine, rows, run, run_all, wait_all}
use snitch_cluster_chips_it.Dma.Memset.{
  fill, use_dma, memset, by_range, fill-kept, fill-stored, stored_dma, stored_core, rows-kept,
  rows-filled,
}

-- One-dimensional transfers that keep away from the `n` bytes from `p` on.
abbrev pub Away : (p n : ℕ) → List Transfer → Type 0
Away p n [] = Unit {0}
Away p n (t ∷ ts) =
    (t.repeat ≡ 1)
    × Apart t.dst t.size t.src t.size
    × Apart t.dst t.size p n
    × Apart t.src t.size p n
    × Away p n ts

Away-snoc :
    (p n : ℕ) (ts : List Transfer) (t : Transfer)
    → Away p n ts
    → Away p n (t ∷ [])
    → Away p n (ts ++ (t ∷ []))
Away-snoc p n [] t w l = l
Away-snoc p n (u ∷ ts) t w l = (w.0, w.1, w.2, w.3, Away-snoc p n ts t w.4 l)

-- The transfer that was issued last is executed last.
pub run_all-snoc :
    (e : Engine) (ts : List Transfer) (t : Transfer) (m : Mem)
    → run_all e (ts ++ (t ∷ [])) m ≡ run e t (run_all e ts m)
unfolding run_all
run_all-snoc e [] t m = refl
run_all-snoc e (u ∷ ts) t m = run_all-snoc e ts t (run e u m)

halves : (a : ℕ) → a / 2 ^ 32 * 2 ^ 32 + a % 2 ^ 32 ≡ a
halves a = omega arith

wait_all-idle : (e : Engine) (f : Frontend) (m : Mem) → (wait_all e f m).0.pending ≡ []
unfolding wait_all
wait_all-idle e f m = refl

wait_all-behind :
    (e : Engine) (dst src size dst_stride src_stride repeat : ℕ) (f : Frontend) (m : Mem)
    → (wait_all e (start_2d dst src size dst_stride src_stride repeat 0 f) m).1
      ≡ rows e dst src size dst_stride src_stride repeat (run_all e f.pending m)
unfolding wait_all start_2d run
wait_all-behind e dst src size ds ss repeat f m =
    rw (halves dst, halves src) (run_all-snoc e f.pending _ m)

module _ (e : Engine) (p n : ℕ) where
  abbrev Outside : ℕ → Type 0
  Outside a = (a < p) ⊎ (p + n ≤ a)

  run-once : (t : Transfer) (m : Mem) → t.repeat ≡ 1 → run e t m ≡ e.copy t.dst t.src t.size m
  unfolding run rows
  run-once t m h = rw h (ap₂ (λ (d s : ℕ). e.copy d s t.size m) dst src)
    where
      dst : t.dst + 0 * t.dst_stride ≡ t.dst
      dst = omega arith

      src : t.src + 0 * t.src_stride ≡ t.src
      src = omega arith

  -- What a transfer does outside depends on what is outside only.
  run-Outside :
      (t : Transfer) (m m' : Mem)
      → t.repeat ≡ 1
      → Apart t.dst t.size t.src t.size
      → Apart t.src t.size p n
      → ((a : ℕ) → Outside a → m a ≡ m' a)
      → (a : ℕ) → Outside a
      → run e t m a ≡ run e t m' a
  run-Outside t m m' h sep src same a o =
      ap (λ (g : Mem). g a) (run-once t m h)
      ∙ elim (dec_lt a t.dst) [
        | yes below ↦
            e.kept t.dst t.src t.size m a (inl below)
            ∙ same a o
            ∙ sym (e.kept t.dst t.src t.size m' a (inl below))
        | no above ↦ elim (dec_lt a (t.dst + t.size)) [
          | yes within ↦
              ap (e.copy t.dst t.src t.size m) (at above)
              ∙ e.copied t.dst t.src t.size m (a - t.dst) (inr sep) (omega (arith, above, within))
              ∙ same (t.src + (a - t.dst)) (clear above within)
              ∙ sym (
                  e.copied t.dst t.src t.size m' (a - t.dst) (inr sep)
                    (omega (arith, above, within)))
              ∙ ap (e.copy t.dst t.src t.size m') (sym (at above))
          | no beyond ↦
              e.kept t.dst t.src t.size m a (inr (omega (arith, beyond)))
              ∙ same a o
              ∙ sym (e.kept t.dst t.src t.size m' a (inr (omega (arith, beyond))))
        ]
      ]
      ∙ sym (ap (λ (g : Mem). g a) (run-once t m' h))
    where
      at : ¬ (a < t.dst) → a ≡ t.dst + (a - t.dst)
      at h = omega (arith, h)

      clear : ¬ (a < t.dst) → a < t.dst + t.size → Outside (t.src + (a - t.dst))
      clear h w = elim src [
        | inl l ↦ inl (omega (arith, l, h, w))
        | inr g ↦ inr (omega (arith, g, h, w))
      ]

  run-inside :
      (t : Transfer) (m : Mem) (a : ℕ)
      → t.repeat ≡ 1
      → Apart t.dst t.size p n
      → p ≤ a
      → a < p + n
      → run e t m a ≡ m a
  run-inside t m a h dst lo hi =
      ap (λ (g : Mem). g a) (run-once t m h)
      ∙ e.kept t.dst t.src t.size m a (elim dst [
        | inl l ↦ inr (omega (arith, l, lo, hi))
        | inr g ↦ inl (omega (arith, g, lo, hi))
      ])

  run_all-Outside :
      (ts : List Transfer) (m m' : Mem)
      → Away p n ts
      → ((a : ℕ) → Outside a → m a ≡ m' a)
      → (a : ℕ) → Outside a
      → run_all e ts m a ≡ run_all e ts m' a
  unfolding run_all
  run_all-Outside [] m m' w same a o = same a o
  run_all-Outside (t ∷ ts) m m' w same a o =
      run_all-Outside ts (run e t m) (run e t m') w.4 (run-Outside t m m' w.0 w.1 w.3 same) a o

  run_all-inside :
      (ts : List Transfer) (m : Mem) (a : ℕ)
      → Away p n ts
      → p ≤ a
      → a < p + n
      → run_all e ts m a ≡ m a
  unfolding run_all
  run_all-inside [] m a w lo hi = refl
  run_all-inside (t ∷ ts) m a w lo hi =
      run_all-inside ts (run e t m) a w.4 lo hi ∙ run-inside t m a w.0 w.2 lo hi

  -- The range is set in what the memory will be when all transfers are done, and nothing else changes.
  pub memset-pending :
      (value : ℕ) (f : Frontend) (m : Mem)
      → p + n < 2 ^ 32
      → Away p n f.pending
      → let (f', m') = memset e p value n f m in
        ((f'.pending ≡ f.pending) ⊎ (f'.pending ≡ []))
        × ((a : ℕ)
            → run_all e f'.pending m' a
              ≡ (if leb p a && ltb a (p + n) then value else run_all e f.pending m a))
  unfolding memset run_all
  memset-pending value f m h w = elim (Bool-cases (use_dma n)) [
    | inl dma ↦
        let k = stored_dma n dma in
        rw (dma, k.0)
          (
            inr (wait_all-idle e (start_2d p p 64 64 0 (n / 64) 0 f) (fill 64 p value m)),
            λ a. rw (wait_all-idle e (start_2d p p 64 64 0 (n / 64) 0 f) (fill 64 p value m)) (
                ap (λ (g : Mem). g a) (wait_all-behind e p p 64 64 0 (n / 64) f (fill 64 p value m))
                ∙ by_range p n a _ value (run_all e f.pending m a)
                    (λ lo hi.
                      rows-filled e p value started (first64 (omega (arith, k.1))) (n / 64) a lo
                        (omega (arith, hi, k.2)))
                    (λ o.
                      rows-kept e p value started (first64 (omega (arith, k.1))) (n / 64) a
                        (omega (arith, o, k.2))
                      ∙ run_all-Outside f.pending (fill 64 p value m) m w
                          (λ b q.
                            fill-kept 64 p value m b (omega (arith, h, k.1))
                              (omega (arith, q, k.1)))
                          a o)),
          )
    | inr core ↦
        rw (core, stored_core n core)
          (
            inl refl,
            λ a.
                by_range p n a _ value (run_all e f.pending m a)
                  (λ lo hi.
                    run_all-inside f.pending (fill n p value m) a w lo hi
                    ∙ fill-stored n p value m a h lo hi)
                  (λ o.
                    run_all-Outside f.pending (fill n p value m) m w
                      (λ b. fill-kept n p value m b h) a o),
          )
  ]
    where
      started : Mem
      started = run_all e f.pending (fill 64 p value m)

      first64 : 64 < n → (b : ℕ) → p ≤ b → b < p + 64 → started b ≡ value
      first64 big b lo hi =
          run_all-inside f.pending (fill 64 p value m) b w lo (omega (arith, hi, big))
          ∙ fill-stored 64 p value m b (omega (arith, h, big)) lo hi

-- A one-dimensional transfer that is issued behind the pending ones.
module _ (e : Engine) (dst src size : ℕ) (f : Frontend) where
  pub start_1d-run_all :
      (m : Mem)
      → run_all e (start_1d dst src size 0 f).pending m
        ≡ e.copy dst src size (run_all e f.pending m)
  unfolding start_1d
  start_1d-run_all m =
      rw (halves dst, halves src)
        (run_all-snoc e f.pending _ m ∙ run-once e 0 0 _ (run_all e f.pending m) refl)

  pub start_1d-Away :
      (p n : ℕ)
      → Away p n f.pending
      → Apart dst size src size
      → Apart dst size p n
      → Apart src size p n
      → Away p n (start_1d dst src size 0 f).pending
  unfolding start_1d
  start_1d-Away p n w sep to from =
      rw (halves dst, halves src) (Away-snoc p n f.pending _ w (refl, sep, to, from, tt))
