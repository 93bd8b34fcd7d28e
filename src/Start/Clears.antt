-- ===== src/Start/Clears.antt =====
-- The loop of `snrt_init_tls` over the cores that clears `.tbss`.
use snitch_cluster_chips_it.Prelude.{
  ℕ, zero, suc, ◌+◌, ◌*◌, ◌^◌, ◌≤◌, ◌<◌, ◌≡◌, ◌⊎◌, inl, inr, [], leb, ltb, ◌&&◌, if◌then◌else◌, sym,
  ◌∙◌, subst, arith, add32, mul32, for_each,
}
use native.Mathlib.Decide.{ℕ_discrete}
use snitch_cluster_chips_it.Dma.{Frontend}
use snitch_cluster_chips_it.Dma.Engine.{Mem, Engine, run_all}
use snitch_cluster_chips_it.Dma.Memset.{memset}
use snitch_cluster_chips_it.Dma.Pending.{Away, memset-pending}
use snitch_cluster_chips_it.Start.{tls_offset}

pub set-inside :
    (p n a x y : ℕ) → p ≤ a → a < p + n → (if leb p a && ltb a (p + n) then x else y) ≡ x
set-inside p n a x y lo hi = ground arith

pub set-outside :
    (p n a x y : ℕ) → (a < p) ⊎ (p + n ≤ a) → (if leb p a && ltb a (p + n) then x else y) ≡ y
set-outside p n a x y o = ground arith

-- The loop over the cores that clears `.tbss`, in what the memory will be when all transfers are done.
module _ (e : Engine) (tp d b : ℕ) (fits : d + b ≤ tls_offset) (old : Mem) where
  abbrev pub tbss : ℕ → ℕ
  tbss i = tp + d + i * tls_offset

  abbrev pub eventually : Frontend × Mem → Mem
  eventually s = run_all e s.0.pending s.1

  pub record Cleared (k : ℕ) (s : Frontend × Mem) : Type 0 where
    pub away : (i : ℕ) → Away (tbss i) b s.0.pending
    pub none : (i x : ℕ) → i < k → x < b → eventually s (tbss i + x) ≡ 0
    pub rest :
        (a : ℕ) → ((i : ℕ) → i < k → (a < tbss i) ⊎ (tbss i + b ≤ a)) → eventually s a ≡ old a

  next-Cleared :
      (k : ℕ) (s : Frontend × Mem)
      → tbss k + b < 2 ^ 32
      → Cleared k s
      → Cleared (suc k) (memset e (tbss k) 0 b s.0 s.1)
  next-Cleared k s small c = record {
    away = λ i. elim set.0 [
      | inl q ↦ subst (Away (tbss i) b) (sym q) (c.away i)
      | inr q ↦ subst (Away (tbss i) b) (sym q) tt
    ];
    none = λ i x li lx. set.1 (tbss i + x) ∙ elim (ℕ_discrete i k) [
      | yes q ↦ set-inside (tbss k) b (tbss i + x) 0 _ (omega (arith, q)) (omega (arith, q, lx))
      | no d ↦
          set-outside (tbss k) b (tbss i + x) 0 _ (inl (omega (arith, d, li, lx, fits)))
          ∙ c.none i x (omega (arith, d, li)) lx
    ];
    rest = λ a out.
        set.1 a
        ∙ set-outside (tbss k) b a 0 _ (out k (omega arith))
        ∙ c.rest a (λ i li. out i (omega (arith, li)));
  }
    where
      set :
          let (f', m') = memset e (tbss k) 0 b s.0 s.1 in
          ((f'.pending ≡ s.0.pending) ⊎ (f'.pending ≡ []))
          × ((a : ℕ)
              → run_all e f'.pending m' a
                ≡ (if leb (tbss k) a && ltb a (tbss k + b) then 0 else run_all e s.0.pending s.1 a))
      set = memset-pending e (tbss k) b 0 s.0 s.1 small (c.away k)

  pub loop-Cleared :
      (n : ℕ) (s : Frontend × Mem)
      → tp + n * tls_offset < 2 ^ 32
      → Cleared 0 s
      → Cleared n
          (for_each n (λ i s. memset e (add32 (add32 tp d) (mul32 i tls_offset)) 0 b s.0 s.1) s)
  unfolding for_each
  loop-Cleared zero s h c = c
  loop-Cleared (suc n) s h c =
      subst (λ (w : ℕ). Cleared (suc n) (memset e w 0 b before.0 before.1)) (sym address)
        (next-Cleared n before (omega (arith, h, fits)) (loop-Cleared n s (omega (arith, h)) c))
    where
      before : Frontend × Mem
      before = for_each n (λ i s. memset e (add32 (add32 tp d) (mul32 i tls_offset)) 0 b s.0 s.1) s

      address : add32 (add32 tp d) (mul32 n tls_offset) ≡ tbss n
      address = omega (arith, h, fits)
