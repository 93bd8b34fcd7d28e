-- ===== src/Start/Copies.antt =====
-- The copies of `.tdata` that `snrt_init_tls` issues.
use snitch_cluster_chips_it.Prelude.{
  ℕ, zero, suc, ◌+◌, ◌*◌, ◌^◌, ◌≤◌, ◌<◌, ◌≡◌, ◌⊎◌, inl, inr, [], refl, sym, ap, ◌∙◌, subst, arith,
  add32, mul32, for_each,
}
use native.Mathlib.Decide.{ℕ_discrete, dec_lt}
use snitch_cluster_chips_it.Dma.{Frontend, start_1d}
use snitch_cluster_chips_it.Dma.Engine.{Mem, Engine, run_all}
use snitch_cluster_chips_it.Dma.Pending.{Away, start_1d-run_all, start_1d-Away}
use snitch_cluster_chips_it.Start.{tls_offset}

module _ (e : Engine) (tp d : ℕ) (fits : d ≤ tls_offset) where
  abbrev copies : ℕ → Frontend → Frontend
  copies n = for_each n (λ k f. start_1d (add32 tp (mul32 (suc k) tls_offset)) tp d 0 f)

  module _ (f : Frontend) (idle : f.pending ≡ []) where
    dst-lem :
        (n : ℕ)
        → tp + (n + 2) * tls_offset < 2 ^ 32
        → add32 tp (mul32 (suc n) tls_offset) ≡ tp + suc n * tls_offset
    dst-lem n h = omega (arith, h)

    next :
        (n : ℕ) (m : Mem)
        → tp + (n + 2) * tls_offset < 2 ^ 32
        → run_all e (copies (suc n) f).pending m
          ≡ e.copy (tp + suc n * tls_offset) tp d (run_all e (copies n f).pending m)
    unfolding for_each
    next n m h =
        start_1d-run_all e (add32 tp (mul32 (suc n) tls_offset)) tp d (copies n f) m
        ∙ ap (λ (w : ℕ). e.copy w tp d (run_all e (copies n f).pending m)) (dst-lem n h)

    -- Nothing changes but the storage of the other cores.
    pub copies-keep :
        (n : ℕ) (m : Mem) (a : ℕ)
        → tp + (n + 1) * tls_offset < 2 ^ 32
        → ((j : ℕ) → 1 ≤ j → j ≤ n → (a < tp + j * tls_offset) ⊎ (tp + j * tls_offset + d ≤ a))
        → run_all e (copies n f).pending m a ≡ m a
    unfolding for_each run_all
    copies-keep zero m a h away = rw idle refl
    copies-keep (suc n) m a h away =
        ap (λ (g : Mem). g a) (next n m (omega (arith, h)))
        ∙ e.kept (tp + suc n * tls_offset) tp d (run_all e (copies n f).pending m) a
            (away (suc n) (omega arith) (omega arith))
        ∙ copies-keep n m a (omega (arith, h)) (λ j lo hi. away j lo (omega (arith, hi)))

    -- Each other core's storage begins with what the DM core's begins with.
    pub copies-value :
        (n : ℕ) (m : Mem) (j x : ℕ)
        → tp + (n + 1) * tls_offset < 2 ^ 32
        → 1 ≤ j
        → j ≤ n
        → x < d
        → run_all e (copies n f).pending m (tp + j * tls_offset + x) ≡ m (tp + x)
    unfolding for_each
    copies-value zero m j x h lo hi lx = absurd (omega (arith, lo, hi))
    copies-value (suc n) m j x h lo hi lx = elim (ℕ_discrete j (suc n)) [
      | yes q ↦
          subst (λ w. run_all e (copies (suc n) f).pending m (tp + w * tls_offset + x) ≡ m (tp + x))
            (sym q)
            (ap (λ (g : Mem). g (tp + suc n * tls_offset + x)) (next n m (omega (arith, h)))
              ∙ e.copied (tp + suc n * tls_offset) tp d (run_all e (copies n f).pending m) x
                  (inr (inr (omega (arith, fits)))) lx
              ∙ copies-keep n m (tp + x) (omega (arith, h))
                  (λ i a b. inl (omega (arith, a, lx, fits))))
      | no ne ↦
          ap (λ (g : Mem). g (tp + j * tls_offset + x)) (next n m (omega (arith, h)))
          ∙ e.kept (tp + suc n * tls_offset) tp d (run_all e (copies n f).pending m)
              (tp + j * tls_offset + x) (inl (omega (arith, lx, fits, hi, ne)))
          ∙ copies-value n m j x (omega (arith, h)) lo (omega (arith, hi, ne)) lx
    ]

    -- The copies keep away from the rest of every core's storage.
    pub copies-Away :
        (n i b : ℕ)
        → tp + (n + 1) * tls_offset < 2 ^ 32
        → d + b ≤ tls_offset
        → Away (tp + d + i * tls_offset) b (copies n f).pending
    unfolding for_each
    copies-Away zero i b h s = rw idle tt
    copies-Away (suc n) i b h s =
        subst (λ (w : ℕ). Away (tp + d + i * tls_offset) b (start_1d w tp d 0 (copies n f)).pending)
          (sym (dst-lem n (omega (arith, h))))
          (start_1d-Away e (tp + suc n * tls_offset) tp d (copies n f) (tp + d + i * tls_offset) b
            (copies-Away n i b (omega (arith, h)) s) (inr (omega (arith, fits)))
            (elim (dec_lt i (suc n)) [
              | yes l ↦ inr (omega (arith, l, s))
              | no g ↦ inl (omega (arith, g, s))
            ])
            (inl (omega arith)))
