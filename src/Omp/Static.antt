-- ===== src/Omp/Static.antt =====
-- A loop with increment 1 and the static schedule: what each thread of the team gets.
use snitch_cluster_chips_it.Prelude.{
  ℕ, zero, suc, ◌+◌, ◌-◌, ◌*◌, ◌/◌, ◌%◌, ◌^◌, ◌≤◌, ◌<◌, ◌≡◌, ◌↔◌, Bool, true, false, ◌&&◌, ltb,
  if◌then◌else◌, Option, refl, sym, ap, ◌∙◌, arith, inl, inr, Bool-cases, add32, sub32, mul32,
  slt32, sle32, sdiv32, mul_mono, mul-suc_le, ltb→lt, ltb→le,
}
use native.Mathlib.Decide.{dec_lt, ℕ_discrete}
use snitch_cluster_chips_it.Omp.{Loop, init_static, for_static_init_4, kmp_sch_static}

-- The first iteration of thread `k`, when `n` iterations from `l` on are dealt to `p` threads: the first
-- `n % p` threads get one more than the others.
unfoldable pub first : (l n p k : ℕ) → ℕ
first l n p k = l + k * (n / p) + (if ltb k (n % p) then k else n % p)

module _ (l n p : ℕ) (team : 0 < p) where
  share : n ≡ p * (n / p) + n % p
  share = grind arith

  first-next : (k : ℕ) → first l n p k ≤ first l n p (suc k)
  unfolding first
  first-next k = ground (arith, mul_mono k (suc k) (n / p) (omega arith))

  pub first_mono : (j k : ℕ) → j ≤ k → first l n p j ≤ first l n p k
  first_mono j zero le = rw (zero_only j le) (omega arith)
    where
      zero_only : (j : ℕ) → j ≤ 0 → j ≡ 0
      zero_only j h = omega arith
  first_mono j (suc k) le = elim (ℕ_discrete j (suc k)) [
    | yes q ↦ rw q (omega arith)
    | no d ↦ omega (arith, first_mono j k (omega arith), first-next k)
  ]

  -- The thread that an iteration falls to.
  pub find :
      (k x : ℕ)
      → l ≤ x
      → x < first l n p k
      → (t : ℕ) × ((t < k) × ((first l n p t ≤ x) × (x < first l n p (suc t))))
  unfolding first
  find zero x a b = absurd (ground arith)
  find (suc k) x a b = elim (dec_lt x (first l n p k)) [
    | yes lt ↦ let w = find k x a lt in (w.0, (omega (arith, w.1.0), w.1.1))
    | no ge ↦ (k, (omega arith, (omega arith, b)))
  ]

  pub first_last : first l n p p ≡ l + n
  unfolding first
  first_last = ground (arith, share)

-- The words that a thread computes, in terms of the quotient `q` and the remainder `r`.
more :
    (l q r p t : ℕ)
    → t < p
    → t < r
    → l + p * q + r < 2 ^ 31
    → (add32 l (mul32 (mul32 t (add32 q 1)) 1) ≡ l + t * q + t)
      × (sub32 (add32 (l + t * q + t) (mul32 (add32 q 1) 1)) 1
          ≡ (l + suc t * q + suc t + (2 ^ 32 - 1)) % 2 ^ 32)
more l q r p t lt few small =
    rw plus (omega (arith, less, small, few, lt), omega (arith, less, small, few, lt))
  where
    less : t * q + q ≤ p * q
    less = mul-suc_le t p q lt

    plus : add32 q 1 ≡ q + 1
    plus = omega (arith, less, small)

even :
    (l q r p t : ℕ)
    → t < p
    → r ≤ t
    → l + p * q + r < 2 ^ 31
    → (add32 (add32 l (mul32 (mul32 t q) 1)) r ≡ l + t * q + r)
      × (sub32 (add32 (l + t * q + r) (mul32 q 1)) 1 ≡ (l + suc t * q + r + (2 ^ 32 - 1)) % 2 ^ 32)
even l q r p t lt few small = (omega (arith, less, small), omega (arith, less, small))
  where
    less : t * q + q ≤ p * q
    less = mul-suc_le t p q lt

signed_range :
    (a b x : ℕ)
    → a < 2 ^ 31
    → b < 2 ^ 31
    → x < 2 ^ 31
    → ((sle32 a x && sle32 x ((b + (2 ^ 32 - 1)) % 2 ^ 32)) ≡ true) ↔ ((a ≤ x) × (x < b))
signed_range a b x ha hb hx = ground arith

mod-lt : (n p : ℕ) → 0 < p → n % p < p
mod-lt n p h = grind arith

-- A loop from `l` to `u`, both at most `2 ^ 31 - 2`, and a team.
pub record IsLoop (l u p t : ℕ) : Type 0 where
  pub ordered : l ≤ u
  pub signed : u < 2 ^ 31 - 1
  pub some_thread : t < p
  pub team : p < 2 ^ 8

-- The iterations that a thread executes: from its lower to its upper bound, as signed words.
unfoldable pub runs : Loop → ℕ → Bool
runs b x = sle32 b.lower x && sle32 x b.upper

module _ (l u p t : ℕ) (h : IsLoop l u p t) (last : Option ℕ) (stride chunk : ℕ) where
  abbrev pub n : ℕ
  n = suc u - l

  loop_size : add32 (sdiv32 (sub32 u l) 1) 1 ≡ n
  loop_size = let o = h.ordered in let g = h.signed in ground arith

  abbrev pub result : Loop
  result =
      for_static_init_4 p t kmp_sch_static
        (record { last = last; lower = l; upper = u; stride = stride }) 1 chunk

  abbrev pub loop : Loop
  loop = record { last = last; lower = l; upper = u; stride = stride }

  pub is_init : result ≡ init_static p t n loop 1
  unfolding for_static_init_4
  is_init = rw loop_size refl

  r1 : n % p < p
  r1 = mod-lt n p (omega (arith, h))

  sh : n ≡ p * (n / p) + n % p
  sh = share l n p (omega (arith, h))

  left_over : sub32 n (mul32 (n / p) p) ≡ n % p
  left_over = omega (arith, h)

  signed_order : slt32 t (n % p) ≡ ltb t (n % p)
  signed_order = let a = h.some_thread in let b = h.team in ground arith

  pub bounds :
      ((init_static p t n loop 1).lower ≡ first l n p t)
      × ((init_static p t n loop 1).upper ≡ (first l n p (suc t) + (2 ^ 32 - 1)) % 2 ^ 32)
  unfolding init_static first
  bounds = rw left_over (
      rw signed_order (elim (Bool-cases (ltb t (n % p))) [
        | inl e ↦
            let w = more l (n / p) (n % p) p t h.some_thread (ltb→lt t (n % p) e) small in
            rw e (rw (w.0) (refl, w.1 ∙ ap (λ x. (x + (2 ^ 32 - 1)) % 2 ^ 32) (sym (next_more e))))
        | inr e ↦
            let w = even l (n / p) (n % p) p t h.some_thread (ltb→le t (n % p) e) small in
            rw e (rw (w.0) (refl, w.1 ∙ ap (λ x. (x + (2 ^ 32 - 1)) % 2 ^ 32) (sym (next_even e))))
      ]))
    where
      small : l + p * (n / p) + n % p < 2 ^ 31
      small = omega (arith, sh, h)

      next_more : ltb t (n % p) ≡ true → first l n p (suc t) ≡ l + suc t * (n / p) + suc t
      next_more e = ground (arith, ltb→lt t (n % p) e)

      next_even : ltb t (n % p) ≡ false → first l n p (suc t) ≡ l + suc t * (n / p) + n % p
      next_even e = ground (arith, ltb→le t (n % p) e)

  pub below_end : (k : ℕ) → k ≤ p → first l n p k ≤ suc u
  below_end k le =
      omega
        (arith, first_mono l n p (omega (arith, h)) k p le, first_last l n p (omega (arith, h)), h)

  pub runs_iff :
      (x : ℕ) → x ≤ u → (runs result x ≡ true) ↔ ((first l n p t ≤ x) × (x < first l n p (suc t)))
  unfolding runs
  runs_iff x le =
      rw (is_init, bounds.0, bounds.1)
        (signed_range (first l n p t) (first l n p (suc t)) x
          (omega (arith, below_end t (omega (arith, h)), h))
          (omega (arith, below_end (suc t) (omega (arith, h)), h)) (omega (arith, le, h)))
