-- ===== src/Omp/Microtask/Fork.antt =====
-- What a thread of a parallel region calls.
use snitch_cluster_chips_it.Prelude.{
  ℕ, zero, suc, ◌+◌, ◌*◌, ◌/◌, ◌%◌, ◌++◌, ◌≤◌, ◌<◌, ◌≡◌, ◌⊎◌, List, [], ◌∷◌, inl, inr, replace,
  replace-same, replace-other, length, length-append, refl, sym, subst, ap, ap₂, ◌∙◌, arith,
}
use snitch_cluster_chips_it.Omp.Microtask.{
  call, argv, fn_with, case_8_to_12, microtask_wrapper, copy_args, set_nb_threads, fork_args,
}

-- A slot below the ones that are written stays.
copy_args-below :
    (i : ℕ) (va : List ℕ) (args : ℕ → ℕ) (j : ℕ) → j < i → copy_args i va args j ≡ args j
unfolding copy_args
copy_args-below i [] args j lt = refl
copy_args-below i (v ∷ va) args j lt =
    copy_args-below (suc i) va (replace i v args) j (omega arith)
    ∙ replace-other i j v args (omega arith)

-- The arguments read back are those written.
argv-copy_args :
    (i : ℕ) (va : List ℕ) (args : ℕ → ℕ) → argv (copy_args (suc i) va args) i (length va) ≡ va
unfolding copy_args argv
argv-copy_args i [] args = refl
argv-copy_args i (v ∷ va) args =
    ap₂ (λ x xs. x ∷ xs)
      (copy_args-below (suc (suc i)) va (replace (suc i) v args) (suc i) (omega arith)
        ∙ replace-same (suc i) v args)
      (argv-copy_args (suc i) va (replace (suc i) v args))

-- A pointer whose low byte is overwritten.
abbrev pub with_nb_threads : (t x : ℕ) → ℕ
with_nb_threads t x = x / 256 * 256 + t % 256

pub set_nb_threads-same :
    (t : ℕ) (args : ℕ → ℕ) → set_nb_threads t args 12 ≡ with_nb_threads t (args 12)
unfolding set_nb_threads
set_nb_threads-same t args = replace-same 12 (with_nb_threads t (args 12)) args

pub set_nb_threads-other : (t j : ℕ) (args : ℕ → ℕ) → ¬ (j ≡ 12) → set_nb_threads t args j ≡ args j
unfolding set_nb_threads
set_nb_threads-other t j args n = replace-other 12 j (with_nb_threads t (args 12)) args n

-- The word of the team's size is not read by a call with less than 12 arguments.
argv-set_nb_threads :
    (t : ℕ) (args : ℕ → ℕ) (i n : ℕ) → i + n < 12 → argv (set_nb_threads t args) i n ≡ argv args i n
unfolding argv
argv-set_nb_threads t args i zero lt = refl
argv-set_nb_threads t args i (suc n) lt =
    ap₂ (λ x xs. x ∷ xs) (set_nb_threads-other t (suc i) args (omega (arith, lt)))
      (argv-set_nb_threads t args (suc i) n (omega (arith, lt)))

-- The arguments from word `i + 1` on: those below word 12 as they are, the one there with its low byte
-- overwritten.
argv-last :
    (t : ℕ) (args : ℕ → ℕ) (i : ℕ) (xs : List ℕ) (x : ℕ)
    → i + length xs ≡ 11
    → argv args i (suc (length xs)) ≡ xs ++ (x ∷ [])
    → argv (set_nb_threads t args) i (suc (length xs)) ≡ xs ++ (with_nb_threads t x ∷ [])
unfolding argv
argv-last t args i [] x e q =
    subst (λ j. set_nb_threads t args j ∷ [] ≡ with_nb_threads t x ∷ []) twelve
      (ap (λ w. w ∷ [])
        (set_nb_threads-same t args
          ∙ ap (λ j. with_nb_threads t (args j)) twelve
          ∙ ap (with_nb_threads t) head))
  where
    twelve : 12 ≡ suc i
    twelve = omega (arith, e)

    head : args (suc i) ≡ x
    head = cc
argv-last t args i (y ∷ xs) x e q =
    ap₂ (λ w ws. w ∷ ws) (set_nb_threads-other t (suc i) args (omega (arith, e)) ∙ head)
      (argv-last t args (suc i) xs x (omega (arith, e)) tail)
  where
    head : args (suc i) ≡ y
    head = cc

    tail : argv args (suc i) (suc (length xs)) ≡ xs ++ (x ∷ [])
    tail = cc

-- `kmpc_args` before the team's size is stored behind it.
abbrev pub copied : (fn : ℕ) (va : List ℕ) (args : ℕ → ℕ) → ℕ → ℕ
copied fn va args = copy_args 1 va (replace 0 fn args)

pub fork_args-set :
    (fn : ℕ) (va : List ℕ) (t : ℕ) (args : ℕ → ℕ)
    → fork_args fn va t args ≡ set_nb_threads t (copied fn va args)
unfolding fork_args
fork_args-set fn va t args = refl

pub fork_args-0 : (fn : ℕ) (va : List ℕ) (t : ℕ) (args : ℕ → ℕ) → fork_args fn va t args 0 ≡ fn
fork_args-0 fn va t args =
    ap (λ w. w 0) (fork_args-set fn va t args)
    ∙ set_nb_threads-other t 0 (copied fn va args) (omega arith)
    ∙ copy_args-below 1 va (replace 0 fn args) 0 (omega arith)
    ∙ replace-same 0 fn args

pub argv-fork_args :
    (fn : ℕ) (va : List ℕ) (t : ℕ) (args : ℕ → ℕ)
    → length va ≤ 11
    → argv (fork_args fn va t args) 0 (length va) ≡ va
argv-fork_args fn va t args le =
    ap (λ w. argv w 0 (length va)) (fork_args-set fn va t args)
    ∙ argv-set_nb_threads t (copied fn va args) 0 (length va) (omega (arith, le))
    ∙ argv-copy_args 0 va (replace 0 fn args)

single :
    (args : ℕ → ℕ) (id argc : ℕ)
    → (argc ≤ 7) ⊎ (argc ≡ 12)
    → microtask_wrapper args id argc ≡ fn_with args id argc ∷ []
unfolding microtask_wrapper case_8_to_12
single args id argc h = ground arith

-- For a parallel region of t threads with at most 7 shared variables, whatever kmpc_args and the
-- word behind it held before, the wrapper on a thread calls the function once, with the thread's
-- number and the shared variables in order. With exactly 12 shared variables it does so too, but
-- the low byte of the last one is the number of threads.
pub fork_roundtrip :
    (fn id t : ℕ) (va xs : List ℕ) (x : ℕ) (args : ℕ → ℕ)
    → length va ≤ 7
    → length xs ≡ 11
    → (microtask_wrapper (fork_args fn va t args) id (length va) ≡ call fn id va ∷ [])
      × (microtask_wrapper (fork_args fn (xs ++ x ∷ []) t args) id 12
          ≡ call fn id (xs ++ (x / 256 * 256 + t % 256) ∷ []) ∷ [])
unfolding fn_with
fork_roundtrip fn id t va xs x args le e = (
  single (fork_args fn va t args) id (length va) (inl le)
      ∙ ap₂ (λ f ws. call f id ws ∷ []) (fork_args-0 fn va t args)
          (argv-fork_args fn va t args (omega (arith, le))),
  single (fork_args fn (xs ++ x ∷ []) t args) id 12 (inr refl)
      ∙ ap₂ (λ f ws. call f id ws ∷ []) (fork_args-0 fn (xs ++ x ∷ []) t args) last,
)
  where
    long : length (xs ++ x ∷ []) ≡ suc (length xs)
    long = omega (arith, length-append xs (x ∷ []))

    twelve : 12 ≡ suc (length xs)
    twelve = omega (arith, e)

    last : argv (fork_args fn (xs ++ x ∷ []) t args) 0 12 ≡ xs ++ (x / 256 * 256 + t % 256) ∷ []
    last =
        ap (argv (fork_args fn (xs ++ x ∷ []) t args) 0) twelve
        ∙ ap (λ w. argv w 0 (suc (length xs))) (fork_args-set fn (xs ++ x ∷ []) t args)
        ∙ argv-last t (copied fn (xs ++ x ∷ []) args) 0 xs x (omega (arith, e)) (
            ap (argv (copied fn (xs ++ x ∷ []) args) 0) (sym long)
            ∙ argv-copy_args 0 (xs ++ x ∷ []) (replace 0 fn args))
