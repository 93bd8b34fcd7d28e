-- ===== src/Omp/Partition.antt =====
-- The static schedule deals each iteration of a loop with increment 1 to exactly one thread of the team.
use snitch_cluster_chips_it.Prelude.{
  ℕ, suc, ◌+◌, ◌-◌, ◌%◌, ◌^◌, ◌≤◌, ◌<◌, ◌≡◌, ◌↔◌, true, ◌==◌, ◌&&◌, Option, some, sym, ap, ap₂, ◌∙◌,
  arith, sle32,
}
use native.Mathlib.Decide.{dec_lt}
use snitch_cluster_chips_it.Omp.{Loop, init_static, for_static_init_4, kmp_sch_static, flag, store}
use snitch_cluster_chips_it.Omp.Static.{
  IsLoop, runs, runs_iff, first, find, first_mono, first_last, is_init, bounds, below_end,
}

-- Below `2 ^ 31`, an upper bound of `b - 1` is the last iteration exactly when it is not below it.
same_flag :
    (a b u : ℕ)
    → a ≤ suc u
    → b ≤ suc u
    → u < 2 ^ 31 - 1
    → (((b + (2 ^ 32 - 1)) % 2 ^ 32 == u) && sle32 a u)
      ≡ (sle32 a u && sle32 u ((b + (2 ^ 32 - 1)) % 2 ^ 32))
same_flag a b u ha hb hu = ground arith

module _ (l u p : ℕ) (last : Option ℕ) (stride chunk : ℕ) where
  -- The bounds that thread `t` gets for a loop from `l` to `u` by 1.
  abbrev pub dealt : (t : ℕ) → Loop
  dealt t =
      for_static_init_4 p t kmp_sch_static
        (record { last = last; lower = l; upper = u; stride = stride }) 1 chunk

  module _ (signed : u < 2 ^ 31 - 1) (team : p < 2 ^ 8) where
    -- The static schedule of a loop with increment 1 from l to u, u below 2 ^ 31 - 1, and a team
    -- of 1 to 255 threads: each iteration lies between the bounds of exactly one thread of the
    -- team.
    pub static_partition :
        (x : ℕ)
        → l ≤ x
        → x ≤ u
        → 0 < p
        → (t : ℕ) × ((t < p)
            × ((runs (dealt t) x ≡ true) × ((i : ℕ) → i < p → runs (dealt i) x ≡ true → i ≡ t)))
    static_partition x lo hi pos = (
      found.0,
      (
        found.1.0,
        ((in_bounds found.0 found.1.0).1 found.1.1, λ i li r. only i li ((in_bounds i li).0 r)),
      ),
    )
      where
        n : ℕ
        n = suc u - l

        valid : (t : ℕ) → t < p → IsLoop l u p t
        valid t lt = record {
          ordered = omega (arith, lo, hi);
          signed = signed;
          some_thread = lt;
          team = team;
        }

        in_bounds :
            (t : ℕ)
            → t < p
            → (runs (dealt t) x ≡ true) ↔ ((first l n p t ≤ x) × (x < first l n p (suc t)))
        in_bounds t lt = runs_iff l u p t (valid t lt) last stride chunk x hi

        found : (t : ℕ) × ((t < p) × ((first l n p t ≤ x) × (x < first l n p (suc t))))
        found = find l n p pos p x lo (omega (arith, first_last l n p pos, hi))

        only : (i : ℕ) → i < p → (first l n p i ≤ x) × (x < first l n p (suc i)) → i ≡ found.0
        only i li w = elim (dec_lt i found.0) [
          | yes lt ↦ absurd (omega (arith, w, found.1.1, first_mono l n p pos (suc i) found.0 lt))
          | no ge ↦ elim (dec_lt found.0 i) [
            | yes lt ↦ absurd (omega (arith, w, found.1.1, first_mono l n p pos (suc found.0) i lt))
            | no le ↦ omega arith
          ]
        ]

    -- For the static schedule of a loop with increment 1 from l to u, u below 2 ^ 31 - 1, a team
    -- of at most 255 threads and a pointer to the flag that is not NULL, the flag that a thread
    -- gets is 1 when the last iteration lies between its bounds, and 0 otherwise.
    pub last_lem :
        (t y : ℕ) → l ≤ u → t < p → last ≡ some y → (dealt t).last ≡ some (flag (runs (dealt t) u))
    unfolding store init_static runs
    last_lem t y ord lt q =
        ap (λ b. b.last) init
        ∙ ap (λ o. store (flag ((given.upper == u) && sle32 given.lower u)) o) q
        ∙ ap some (
            ap₂ (λ a b. flag ((b == u) && sle32 a u)) ends.0 ends.1
            ∙ ap flag
                (same_flag (first l n p t) (first l n p (suc t)) u start_below end_below signed)
            ∙ sym (ap₂ (λ a b. flag (sle32 a u && sle32 u b)) ends.0 ends.1)
            ∙ sym (ap (λ b. flag (runs b u)) init))
      where
        n : ℕ
        n = suc u - l

        valid : IsLoop l u p t
        valid = record { ordered = ord; signed = signed; some_thread = lt; team = team }

        given : Loop
        given = init_static p t n (record { last = last; lower = l; upper = u; stride = stride }) 1

        init : dealt t ≡ given
        init = is_init l u p t valid last stride chunk

        ends :
            (given.lower ≡ first l n p t)
            × (given.upper ≡ (first l n p (suc t) + (2 ^ 32 - 1)) % 2 ^ 32)
        ends = bounds l u p t valid last stride chunk

        start_below : first l n p t ≤ suc u
        start_below = below_end l u p t valid last stride chunk t (omega (arith, lt))

        end_below : first l n p (suc t) ≤ suc u
        end_below = below_end l u p t valid last stride chunk (suc t) lt
