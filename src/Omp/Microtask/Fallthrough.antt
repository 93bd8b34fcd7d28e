-- ===== src/Omp/Microtask/Fallthrough.antt =====
-- The cases of `__microtask_wrapper` that fall through: one call of the function too many for every number of
-- arguments up to 12.
use snitch_cluster_chips_it.Prelude.{
  ℕ, zero, suc, ◌+◌, ◌-◌, ◌≤◌, ◌<◌, ◌≡◌, List, [], ◌∷◌, ◌++◌, replace, replace-other, length, refl,
  sym, ap, ap₂, ◌∙◌, subst, arith,
}
use native.Mathlib.Decide.{ℕ_discrete}
use snitch_cluster_chips_it.Omp.Microtask.{
  Effect, call, argv, fn_with, microtask_wrapper, copy_args, set_nb_threads, fork_args,
}
use snitch_cluster_chips_it.Omp.Microtask.Fork.{
  with_nb_threads, set_nb_threads-same, set_nb_threads-other, copied, fork_args-set, fork_args-0,
  argv-fork_args,
}

-- A word behind the arguments is what it was.
copy_args-above :
    (i : ℕ) (va : List ℕ) (args : ℕ → ℕ) (j : ℕ)
    → i + length va ≤ j
    → copy_args i va args j ≡ args j
unfolding copy_args
copy_args-above i [] args j le = refl
copy_args-above i (v ∷ va) args j le =
    copy_args-above (suc i) va (replace i v args) j (omega (arith, le))
    ∙ replace-other i j v args (omega (arith, le))

argv-append :
    (args : ℕ → ℕ) (i m n : ℕ) → argv args i (m + n) ≡ argv args i m ++ argv args (i + m) n
unfolding argv
argv-append args i zero n = ap₂ (argv args) (omega arith) (omega arith)
argv-append args i (suc m) n =
    ap (argv args i) suc-add
    ∙ ap (λ ws. args (suc i) ∷ ws) (argv-append args (suc i) m n)
    ∙ ap (λ k. args (suc i) ∷ argv args (suc i) m ++ argv args k n) add-suc
  where
    suc-add : suc m + n ≡ suc (m + n)
    suc-add = omega arith

    add-suc : suc i + m ≡ i + suc m
    add-suc = omega arith

argv-cong : (f g : ℕ → ℕ) (i n : ℕ) → ((j : ℕ) → i < j → f j ≡ g j) → argv f i n ≡ argv g i n
unfolding argv
argv-cong f g i zero h = refl
argv-cong f g i (suc n) h =
    ap₂ (λ w ws. w ∷ ws) (h (suc i) (omega arith))
      (argv-cong f g (suc i) n (λ j lt. h j (omega (arith, lt))))

module _ (fn t : ℕ) (va : List ℕ) (args : ℕ → ℕ) where
  -- Behind the arguments, only the team's size is stored.
  fork_args-above : (j : ℕ) → length va < j → fork_args fn va t args j ≡ set_nb_threads t args j
  fork_args-above j lt = ap (λ w. w j) (fork_args-set fn va t args) ∙ elim (ℕ_discrete j 12) [
    | yes e ↦
        ap (set_nb_threads t (copied fn va args)) e
        ∙ set_nb_threads-same t (copied fn va args)
        ∙ ap (with_nb_threads t) (kept 12 (omega (arith, lt, e)))
        ∙ sym (set_nb_threads-same t args)
        ∙ ap (set_nb_threads t args) (sym e)
    | no n ↦
        set_nb_threads-other t j (copied fn va args) n
        ∙ kept j lt
        ∙ sym (set_nb_threads-other t j args n)
  ]
    where
      kept : (j : ℕ) → length va < j → copied fn va args j ≡ args j
      kept j lt =
          copy_args-above 1 va (replace 0 fn args) j (omega (arith, lt))
          ∙ replace-other 0 j fn args (omega (arith, lt))

  longer :
      (k : ℕ)
      → length va ≤ 11
      → argv (fork_args fn va t args) 0 (length va + k)
        ≡ va ++ argv (set_nb_threads t args) (length va) k
  longer k le =
      argv-append (fork_args fn va t args) 0 (length va) k
      ∙ ap₂ (λ xs ys. xs ++ ys) (argv-fork_args fn va t args le)
          (ap (λ i. argv (fork_args fn va t args) i k) zero-add
            ∙ argv-cong (fork_args fn va t args) (set_nb_threads t args) (length va) k
                fork_args-above)
    where
      zero-add : 0 + length va ≡ length va
      zero-add = omega arith

-- The effects `f k`, `f (k + 1)` and so on, `n` of them.
abbrev pub successive : (f : ℕ → Effect) (k n : ℕ) → List Effect
successive f k zero = []
successive f k (suc n) = f k ∷ successive f (suc k) n

successive-cong :
    (f g : ℕ → Effect) (k n : ℕ) → ((j : ℕ) → f j ≡ g j) → successive f k n ≡ successive g k n
successive-cong f g k zero h = refl
successive-cong f g k (suc n) h = ap₂ (λ e es. e ∷ es) (h k) (successive-cong f g (suc k) n h)

module _ (args : ℕ → ℕ) (id : ℕ) where
  abbrev Falls : ℕ → Type 0
  Falls argc =
      microtask_wrapper args id argc ≡ successive (λ k. fn_with args id (argc + k)) 0 (13 - argc)

  Falls-8 : Falls 8
  unfolding microtask_wrapper
  Falls-8 = refl

  Falls-9 : Falls 9
  unfolding microtask_wrapper
  Falls-9 = refl

  Falls-10 : Falls 10
  unfolding microtask_wrapper
  Falls-10 = refl

  Falls-11 : Falls 11
  unfolding microtask_wrapper
  Falls-11 = refl

  falls : (argc : ℕ) → 8 ≤ argc → argc ≤ 11 → Falls argc
  falls argc lo hi = elim (ℕ_discrete argc 8) [
    | yes e ↦ subst Falls (sym e) Falls-8
    | no n8 ↦ elim (ℕ_discrete argc 9) [
      | yes e ↦ subst Falls (sym e) Falls-9
      | no n9 ↦ elim (ℕ_discrete argc 10) [
        | yes e ↦ subst Falls (sym e) Falls-10
        | no n10 ↦ subst Falls {x = 11} (omega (arith, lo, hi, n8, n9, n10)) Falls-11
      ]
    ]
  ]

-- For a parallel region of t threads with 8 to 11 shared variables, the wrapper on a thread calls
-- the function with the thread's number 13 times less that number of variables, rather than once:
-- first with the shared variables in order, then each time with one word more, which are what
-- kmpc_args held before and at last the word behind it, with the number of threads as its low byte.
pub fallthrough :
    (fn id t : ℕ) (va : List ℕ) (args : ℕ → ℕ)
    → 8 ≤ length va
    → length va ≤ 11
    → microtask_wrapper (fork_args fn va t args) id (length va)
      ≡ successive
          (λ k. call fn id (va ++ argv (set_nb_threads t args) (length va) k))
          0
          (13 - length va)
unfolding fn_with
fallthrough fn id t va args lo hi =
    falls (fork_args fn va t args) id (length va) lo hi
    ∙ successive-cong _ _ 0 (13 - length va)
        (λ k. ap₂ (λ f ws. call f id ws) (fork_args-0 fn va t args) (longer fn t va args k hi))
