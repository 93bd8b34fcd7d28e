-- ===== src/Omp/Chunked.antt =====
-- The static schedule with chunks deals each iteration of a loop with increment 1 to exactly one thread.
use snitch_cluster_chips_it.Prelude.{
  ℕ, ◌+◌, ◌-◌, ◌*◌, ◌/◌, ◌%◌, ◌^◌, ◌≤◌, ◌<◌, ◌≡◌, Option, sym, ap, ◌∙◌, arith, div-mul_add,
  mul-suc_le, mul32,
}
use native.Mathlib.Nat.{mod-lt, div-add-mod'}
use snitch_cluster_chips_it.Omp.{
  Loop, init_static_chunked, for_static_init_4, kmp_sch_static_chunked,
}

-- Round `k` of a thread: the iterations between its bounds, moved on by `k` strides.
abbrev pub InRound : Loop → (k x : ℕ) → Type 0
InRound b k x = (b.lower + k * b.stride ≤ x) × (x ≤ b.upper + k * b.stride)

module _ (l u p c : ℕ) (last : Option ℕ) (stride : ℕ) where
  -- The bounds that thread `t` gets for chunks of `c` iterations.
  abbrev pub dealt_chunks : (t : ℕ) → Loop
  dealt_chunks t =
      for_static_init_4 p t kmp_sch_static_chunked
        (record { last = last; lower = l; upper = u; stride = stride }) 1 c

  module _ (chunk : 0 < c) (small : l + c * p < 2 ^ 31) where
    chunk_bounds :
        (t : ℕ)
        → t < p
        → ((dealt_chunks t).lower ≡ l + c * t)
          × ((dealt_chunks t).upper + 1 ≡ l + c * t + c)
          × ((dealt_chunks t).stride ≡ c * p)
    unfolding for_static_init_4 init_static_chunked
    chunk_bounds t lt = rw span (
      omega (arith, inside, small),
      omega (arith, inside, small, chunk),
      omega (arith, inside, small),
    )
      where
        inside : t * c + c ≤ p * c
        inside = mul-suc_le t p c lt

        span : mul32 1 c ≡ c
        span = omega (arith, inside, small)

    -- The static schedule with chunks of c iterations, c not 0, of a loop with increment 1 from l
    -- on and a team of p threads, p not 0, with l + c * p below 2 ^ 31: each iteration from l on
    -- lies, for exactly one thread and one number of strides, between the thread's bounds moved on
    -- by that many strides.
    pub chunked_partition :
        (x : ℕ)
        → l ≤ x
        → 0 < p
        → (t : ℕ) × ((k : ℕ) × ((t < p)
              × (InRound (dealt_chunks t) k x
                  × ((i j : ℕ) → i < p → InRound (dealt_chunks i) j x → (i ≡ t) × (j ≡ k)))))
    chunked_partition x lo pos = (m % p, (m / p, (mod-lt m pos, (covered, only))))
      where
        m : ℕ
        m = (x - l) / c

        exact : x - l ≡ m / p * (c * p) + c * (m % p) + (x - l) % c
        exact = omega (arith, div-add-mod' (x - l) c, ap (λ (t : ℕ). t * c) (div-add-mod' m p))

        first_bounds :
            ((dealt_chunks (m % p)).lower ≡ l + c * (m % p))
            × ((dealt_chunks (m % p)).upper + 1 ≡ l + c * (m % p) + c)
            × ((dealt_chunks (m % p)).stride ≡ c * p)
        first_bounds = chunk_bounds (m % p) (mod-lt m pos)

        covered : InRound (dealt_chunks (m % p)) (m / p) x
        covered = omega (
          arith,
          first_bounds,
          ap (λ (t : ℕ). m / p * t) first_bounds.2,
          exact,
          mod-lt (x - l) chunk,
          lo,
        )

        only : (i j : ℕ) → i < p → InRound (dealt_chunks i) j x → (i ≡ m % p) × (j ≡ m / p)
        only i j li r = (
          sym (div-mul_add j i p li).1 ∙ ap (λ t. t % p) same,
          sym (div-mul_add j i p li).0 ∙ ap (λ t. t / p) same,
        )
          where
            b :
                ((dealt_chunks i).lower ≡ l + c * i)
                × ((dealt_chunks i).upper + 1 ≡ l + c * i + c)
                × ((dealt_chunks i).stride ≡ c * p)
            b = chunk_bounds i li

            steps : j * (dealt_chunks i).stride ≡ j * (c * p)
            steps = ap (λ (t : ℕ). j * t) b.2

            within : ((j * p + i) * c ≤ x - l) × (x - l < (j * p + i) * c + c)
            within = omega (arith, r, b, steps, lo)

            same : j * p + i ≡ m
            same =
                sym (div-mul_add (j * p + i) (x - l - (j * p + i) * c) c (omega (arith, within))).0
                ∙ ap (λ t. t / c) (omega (arith, within))
