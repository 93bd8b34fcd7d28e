-- ===== src/Kernels/Axpy/Cores.antt =====
-- The compute cores of a cluster together compute all elements of `z`.
use snitch_cluster_chips_it.Prelude.{
  ℕ, zero, suc, ◌+◌, ◌*◌, ◌/◌, ◌%◌, ◌^◌, mul-suc_le, ◌≤◌, ◌<◌, ◌≡◌, ◌⊎◌, inl, inr, refl, sym, ap,
  ap₂, ◌∙◌, subst, arith, List, [], ◌∷◌, replace-same, replace-other,
}
use native.Mathlib.Decide.{ℕ_discrete}
use native.Mathlib.Nat.{mod-lt, mod-add-div', div-lt_iff_lt-mul}
use snitch_cluster_chips_it.Team.{Config, IsValid, hart, cluster_core_idx, cluster_compute_core_num}
use snitch_cluster_chips_it.Team.Indices.{idx-hart, compute_core_num-lt}
use snitch_cluster_chips_it.Ssr.{Regs}
use snitch_cluster_chips_it.Kernels.Axpy.{Ahead, load as fetch, element, Memory, store, axpy_opt}
use snitch_cluster_chips_it.Kernels.Axpy.Equal.{
  Apart, one, elements, axpy_fma-elements, axpy_opt-axpy_fma,
}

abbrev pub Distinct : (p n u : ℕ) → Type 0
Distinct p n u = (i j : ℕ) → i < n → j < n → element u i % p ≡ element u j % p → i ≡ j

abbrev pub Among : ℕ → List ℕ → Type 0
Among d [] = ⊥
Among d (c ∷ order) = (d ≡ c) ⊎ Among d order

abbrev pub AllBelow : ℕ → List ℕ → Type 0
AllBelow b [] = Unit {0}
AllBelow b (c ∷ order) = (c < b) × AllBelow b order

module _ {ℓ} {F : Type ℓ} (p : ℕ) (fmadd : F → F → F → F) (a : F) (x y z n : ℕ) where
  -- The operands are still what they were, and element `i` is computed.
  abbrev Same : Memory F → Memory F → Type ℓ
  Same old mem =
      (i : ℕ)
      → i < n
      → (mem (element x i % p) ≡ old (element x i % p))
        × (mem (element y i % p) ≡ old (element y i % p))

  abbrev Good : ℕ → Memory F → Memory F → Type ℓ
  Good i old mem = mem (element z i % p) ≡ fmadd a (old (element x i % p)) (old (element y i % p))

  module _ (cores c m : ℕ) (en : n ≡ m * cores) (lt : c < cores) where
    elements-keeps :
        (k address : ℕ) (mem : Memory F)
        → k ≤ m
        → ((i : ℕ) → i < n → ¬ (address ≡ element z i % p))
        → elements p fmadd cores a x y z c k mem address ≡ mem address
    unfolding elements one store
    elements-keeps zero address mem le away = refl
    elements-keeps (suc k) address mem le away =
        replace-other _ address _ (elements p fmadd cores a x y z c k mem) (
          away (c + k * cores)
            (omega (arith, en, le, lt, mul-suc_le k m cores (omega (arith, le)))))
        ∙ elements-keeps k address mem (omega (arith, le)) away

  module _ (ax : Apart p n x z) (ay : Apart p n y z) (dz : Distinct p n z) (old : Memory F)
      (cores c : ℕ) where
    one-Same :
        (k : ℕ) (mem : Memory F)
        → c + k * cores < n
        → Same old mem
        → Same old (one p fmadd cores a x y z c k mem)
    unfolding one store
    one-Same k mem lt s i li = (
      replace-other _ _ _ mem (ax i (c + k * cores) li lt) ∙ (s i li).0,
      replace-other _ _ _ mem (ay i (c + k * cores) li lt) ∙ (s i li).1,
    )

    one-value :
        (k : ℕ) (mem : Memory F)
        → c + k * cores < n
        → Same old mem
        → Good (c + k * cores) old (one p fmadd cores a x y z c k mem)
    unfolding one store fetch
    one-value k mem lt s =
        replace-same _ _ mem ∙ ap₂ (fmadd a) (s (c + k * cores) lt).0 (s (c + k * cores) lt).1

    one-Good :
        (k i : ℕ) (mem : Memory F)
        → c + k * cores < n
        → i < n
        → Same old mem
        → Good i old mem
        → Good i old (one p fmadd cores a x y z c k mem)
    unfolding one store
    one-Good k i mem lt li s g = elim (ℕ_discrete i (c + k * cores)) [
      | yes e ↦
          subst (λ j. Good j old (one p fmadd cores a x y z c k mem)) (sym e) (one-value k mem lt s)
      | no d ↦ replace-other _ _ _ mem (λ e. d (dz i (c + k * cores) li lt e)) ∙ g
    ]

    module _ (m : ℕ) (en : n ≡ m * cores) (lt : c < cores) where
      below : (k : ℕ) → k < m → c + k * cores < n
      below k h = omega (arith, en, lt, mul-suc_le k m cores h)

      elements-Same :
          (k : ℕ) (mem : Memory F)
          → k ≤ m
          → Same old mem
          → Same old (elements p fmadd cores a x y z c k mem)
      unfolding elements
      elements-Same zero mem le s = s
      elements-Same (suc k) mem le s =
          one-Same k (elements p fmadd cores a x y z c k mem) (below k (omega (arith, le)))
            (elements-Same k mem (omega (arith, le)) s)

      elements-Good :
          (k i : ℕ) (mem : Memory F)
          → k ≤ m
          → i < n
          → Same old mem
          → Good i old mem
          → Good i old (elements p fmadd cores a x y z c k mem)
      unfolding elements
      elements-Good zero i mem le li s g = g
      elements-Good (suc k) i mem le li s g =
          one-Good k i (elements p fmadd cores a x y z c k mem) (below k (omega (arith, le))) li
            (elements-Same k mem (omega (arith, le)) s)
            (elements-Good k i mem (omega (arith, le)) li s g)

      elements-value :
          (k j : ℕ) (mem : Memory F)
          → k ≤ m
          → j < k
          → Same old mem
          → Good (c + j * cores) old (elements p fmadd cores a x y z c k mem)
      unfolding elements
      elements-value zero j mem le lj s = absurd (omega (arith, lj))
      elements-value (suc k) j mem le lj s = elim (ℕ_discrete j k) [
        | yes e ↦
            subst (λ w. Good (c + w * cores) old (elements p fmadd cores a x y z c (suc k) mem))
              (sym e)
              (one-value k (elements p fmadd cores a x y z c k mem) (below k (omega (arith, le)))
                (elements-Same k mem (omega (arith, le)) s))
        | no d ↦
            one-Good k (c + j * cores) (elements p fmadd cores a x y z c k mem)
              (below k (omega (arith, le))) (below j (omega (arith, le, lj)))
              (elements-Same k mem (omega (arith, le)) s)
              (elements-value k j mem (omega (arith, le)) (omega (arith, lj, d)) s)
      ]

-- The cores of cluster `cl` that call `axpy_opt`, in the order in which they do.
module _ {ℓ} {F : Type ℓ} (im p : ℕ) (fmadd : F → F → F → F) (cfg : Config) (cl n : ℕ) (a : F)
    (x y z : ℕ) (ahead : ℕ → Ahead) (regs : ℕ → Regs) where
  unfoldable pub run_cores : List ℕ → Memory F → Memory F
  run_cores [] mem = mem
  run_cores (c ∷ order) mem =
      run_cores order (axpy_opt im p fmadd cfg (hart cfg cl c) n a x y z (ahead c) (regs c) mem)

  module _ (q m : ℕ) (e : p * q ≡ 2 ^ 32) (pos : 0 < im) (v : IsValid cfg)
      (hc : cl < cfg.cluster_num) (en : n ≡ m * cluster_compute_core_num cfg)
      (range : (1 ≤ m) × (m ≤ im)) (small : n + 8 * cluster_compute_core_num cfg < 2 ^ 32)
      (ax : Apart p n x z) (ay : Apart p n y z) where
    core-elements :
        (c : ℕ) (mem : Memory F)
        → c < cluster_compute_core_num cfg
        → axpy_opt im p fmadd cfg (hart cfg cl c) n a x y z (ahead c) (regs c) mem
          ≡ elements p fmadd (cluster_compute_core_num cfg) a x y z c m mem
    core-elements c mem lt =
        axpy_opt-axpy_fma im p q e pos fmadd cfg (hart cfg cl c) n m a x y z (ahead c) (regs c) mem
          en range small here ax ay
        ∙ axpy_fma-elements p fmadd cfg (hart cfg cl c) n m a x y z mem en small here
        ∙ ap (λ w. elements p fmadd (cluster_compute_core_num cfg) a x y z w m mem) idx
      where
        idx : cluster_core_idx cfg (hart cfg cl c) ≡ c
        idx =
            (idx-hart v cl c hc
              (omega (arith, lt, (compute_core_num-lt v cl 0 hc (omega (arith, v.cores))).0))).1

        here : cluster_core_idx cfg (hart cfg cl c) < cluster_compute_core_num cfg
        here = subst (λ w. w < cluster_compute_core_num cfg) (sym idx) lt

    -- An address that is no element of z keeps its value.
    pub run_cores-keeps :
        (order : List ℕ) (address : ℕ) (mem : Memory F)
        → AllBelow (cluster_compute_core_num cfg) order
        → ((i : ℕ) → i < n → ¬ (address ≡ element z i % p))
        → run_cores order mem address ≡ mem address
    unfolding run_cores
    run_cores-keeps [] address mem b away = refl
    run_cores-keeps (c ∷ order) address mem b away =
        run_cores-keeps order address _ b.1 away
        ∙ ap (λ t. t address) (core-elements c mem b.0)
        ∙ elements-keeps p fmadd a x y z n (cluster_compute_core_num cfg) c m en b.0 m address mem
            (omega arith) away

    module _ (dz : Distinct p n z) (old : Memory F) where
      abbrev Kept : Memory F → Type ℓ
      Kept mem = Same p fmadd a x y z n old mem

      abbrev Done : ℕ → Memory F → Type ℓ
      Done i mem = Good p fmadd a x y z n i old mem

      next-Kept :
          (c : ℕ) (mem : Memory F)
          → c < cluster_compute_core_num cfg
          → Kept mem
          → Kept (axpy_opt im p fmadd cfg (hart cfg cl c) n a x y z (ahead c) (regs c) mem)
      next-Kept c mem lt s = subst Kept (sym (core-elements c mem lt)) (
          elements-Same p fmadd a x y z n ax ay dz old (cluster_compute_core_num cfg) c m en lt m
            mem (omega arith) s)

      run_cores-Good :
          (order : List ℕ) (i : ℕ) (mem : Memory F)
          → AllBelow (cluster_compute_core_num cfg) order
          → i < n
          → Kept mem
          → Done i mem
          → Done i (run_cores order mem)
      unfolding run_cores
      run_cores-Good [] i mem b li s g = g
      run_cores-Good (c ∷ order) i mem b li s g =
          run_cores-Good order i _ b.1 li (next-Kept c mem b.0 s) (
            subst (Done i) (sym (core-elements c mem b.0)) (
              elements-Good p fmadd a x y z n ax ay dz old (cluster_compute_core_num cfg) c m en b.0
                m i mem (omega arith) li s g))

      run_cores-value :
          (order : List ℕ) (i : ℕ) (mem : Memory F)
          → AllBelow (cluster_compute_core_num cfg) order
          → Among (i % cluster_compute_core_num cfg) order
          → i < n
          → Kept mem
          → Done i (run_cores order mem)
      unfolding run_cores
      run_cores-value [] i mem b h li s = absurd h
      run_cores-value (c ∷ order) i mem b (inl h) li s =
          run_cores-Good order i _ b.1 li (next-Kept c mem b.0 s) (
            subst (Done i) (sym (core-elements c mem b.0)) (
              subst (λ w. Done w (elements p fmadd (cluster_compute_core_num cfg) a x y z c m mem))
                (from_core c h)
                (elements-value p fmadd a x y z n ax ay dz old (cluster_compute_core_num cfg) c m en
                  b.0 m (i / cluster_compute_core_num cfg) mem (omega arith)
                  ((div-lt_iff_lt-mul (omega (arith, b.0))).1 (omega (arith, li, en))) s)))
        where
          from_core :
              (c : ℕ)
              → i % cluster_compute_core_num cfg ≡ c
              → c + i / cluster_compute_core_num cfg * cluster_compute_core_num cfg ≡ i
          from_core c h =
              ap (λ w. w + i / cluster_compute_core_num cfg * cluster_compute_core_num cfg) (sym h)
              ∙ mod-add-div' i (cluster_compute_core_num cfg)
      run_cores-value (c ∷ order) i mem b (inr h) li s =
          run_cores-value order i _ b.1 h li (next-Kept c mem b.0 s)

    -- For a length that is a multiple m of the number of compute cores, within the same bounds,
    -- and arrays whose elements are apart in the memory: when the compute cores of a cluster of a
    -- valid configuration run axpy_opt one after the other, in any order in which each one comes
    -- at least once, and however far the streams fetch ahead, every element of z is the fused
    -- multiply-add of a and the elements of x and y.
    pub run_cores_lem :
        Distinct p n z
        → (order : List ℕ) (mem : Memory F) → AllBelow (cluster_compute_core_num cfg) order
        → ((c : ℕ) → c < cluster_compute_core_num cfg → Among c order)
        → (i : ℕ) → i < n
        → run_cores order mem (element z i % p)
          ≡ fmadd a (mem (element x i % p)) (mem (element y i % p))
    run_cores_lem dz order mem b all i li =
        run_cores-value dz mem order i mem b
          (all (i % cluster_compute_core_num cfg) (mod-lt i positive)) li (λ j lj. (refl, refl))
      where
        positive : 0 < cluster_compute_core_num cfg
        positive =
            omega (arith, v.cores, (compute_core_num-lt v cl 0 hc (omega (arith, v.cores))).0)
