-- ===== src/Kernels/Gemv/Shares.antt =====
-- Which rows `gemv` gives to which core, and where they lie.
use snitch_cluster_chips_it.Prelude.{
  ℕ, ◌+◌, ◌-◌, ◌*◌, ◌/◌, ◌%◌, ◌^◌, ◌<◌, suc, ◌⊎◌, true-false, ◌≡◌, ◌==◌, Bool, true, false, inl,
  inr, ==_iff, refl, sym, ap, ◌∙◌, arith, Bool-cases, mul_mono, sub32,
}
use native.Mathlib.Nat.{mod-add-div', mod-lt, div-lt_iff_lt-mul}
use native.Mathlib.Decide.{dec_lt, ℕ_discrete}
use snitch_cluster_chips_it.Team.{Config, cluster_compute_core_num}
use snitch_cluster_chips_it.Kernels.Axpy.{element}
use snitch_cluster_chips_it.Kernels.Gemv.{start_m, core_m, row_stride, first_row}
use snitch_cluster_chips_it.Kernels.Gemv.Streams.{index}

module _ (cfg : Config) (trans : Bool) (m n a : ℕ) (small : m < 2 ^ 32)
    (few : cluster_compute_core_num cfg < 2 ^ 32) where
  abbrev cores : ℕ
  cores = cluster_compute_core_num cfg

  abbrev frac : ℕ
  frac = m / cores

  whole : m % cores + frac * cores ≡ m
  whole = mod-add-div' m cores

  start-share : (i : ℕ) → i < cores → start_m cfg i trans m n a ≡ i * frac
  unfolding start_m
  start-share i li = omega (arith, whole, small, mul_mono i cores frac (omega (arith, li)))

  -- The last core takes the rows that are left over.
  core-share :
      (i : ℕ)
      → i < cores
      → ((suc i ≡ cores) × (core_m cfg i trans m n a ≡ frac + m % cores))
        ⊎ ((suc i < cores) × (core_m cfg i trans m n a ≡ frac))
  unfolding core_m
  core-share i li = elim (Bool-cases (i == sub32 cores 1)) [
    | inl e ↦ inl (
      omega (arith, li, few, (==_iff i (sub32 cores 1)).0 e),
      rw e (omega (arith, whole, small, mul_mono 1 cores frac (omega (arith, li)))),
    )
    | inr e ↦ inr (omega (arith, li, few, other e), rw e refl)
  ]
    where
      other : (i == sub32 cores 1) ≡ false → ¬ (i ≡ sub32 cores 1)
      other e d = true-false (sym ((==_iff i (sub32 cores 1)).1 d) ∙ e)

  -- The rows of a core lie in the matrix.
  pub share-lt :
      (i j : ℕ) → i < cores → j < core_m cfg i trans m n a → start_m cfg i trans m n a + j < m
  share-lt i j li lj = elim (core-share i li) [
    | inl (e, c) ↦ omega (arith, lj, c, start-share i li, whole, ap (λ (w : ℕ). w * frac) e)
    | inr (l, c) ↦
        omega
          (arith, lj, c, start-share i li, whole, mul_mono (suc i) cores frac (omega (arith, l)))
  ]

  -- A core that has row r.
  pub record Owner (r : ℕ) : Type 0 where
    pub core : ℕ
    pub row : ℕ
    pub core_lt : core < cores
    pub row_lt : row < core_m cfg core trans m n a
    pub here : start_m cfg core trans m n a + row ≡ r

  pub owner : (r : ℕ) → r < m → 0 < cores → Owner r
  owner r lr pos = elim (dec_lt r ((cores - 1) * frac)) [
    | yes l ↦ record {
      core = r / frac;
      row = r % frac;
      core_lt = omega (arith, early l);
      row_lt = elim (core-share (r / frac) (omega (arith, early l))) [
        | inl (e, c) ↦ omega (arith, c, mod-lt r (some l))
        | inr (b, c) ↦ omega (arith, c, mod-lt r (some l))
      ];
      here = omega (arith, start-share (r / frac) (omega (arith, early l)), mod-add-div' r frac);
    }
    | no g ↦ record {
      core = cores - 1;
      row = r - (cores - 1) * frac;
      core_lt = omega (arith, pos);
      row_lt = elim (core-share (cores - 1) (omega (arith, pos))) [
        | inl (e, c) ↦ omega (arith, c, lr, g, whole, all)
        | inr (l, c) ↦ absurd (omega (arith, l, pos))
      ];
      here = omega (arith, g, start-share (cores - 1) (omega (arith, pos)));
    }
  ]
    where
      one_less : suc (cores - 1) ≡ cores
      one_less = omega (arith, pos)

      all : (cores - 1) * frac + frac ≡ frac * cores
      all = omega (arith, ap (λ (w : ℕ). w * frac) one_less)

      some : r < (cores - 1) * frac → 0 < frac
      some l = elim (ℕ_discrete frac 0) [
        | yes e ↦ absurd (omega (arith, l, ap (λ (w : ℕ). (cores - 1) * w) e))
        | no d ↦ omega (arith, d)
      ]

      early : r < (cores - 1) * frac → r / frac < cores - 1
      early l = (div-lt_iff_lt-mul (some l)).1 l

-- The rows of a core are rows of the whole.
module _ (cfg : Config) (core : ℕ) (m n a : ℕ) where
  pub row-index :
      (trans : Bool) (i j : ℕ)
      → element (first_row cfg core trans m n a) (index trans (row_stride cfg core trans m n a) i j)
        ≡ element a
            (index trans (row_stride cfg core trans m n a) (start_m cfg core trans m n a + i) j)
  unfolding first_row row_stride element
  row-index true i j = omega arith
  row-index false i j = omega arith
