-- ===== src/Omp/Microtask.antt =====
-- The call of a parallel region in sw/runtime/src/omp/kmp.c: `__kmpc_fork_call` stores the function and
-- the shared variables in `kmpc_args`, `__microtask_wrapper` calls the function on a thread.
use snitch_cluster_chips_it.Prelude.{
  ℕ, zero, suc, ◌+◌, ◌*◌, ◌/◌, ◌%◌, List, [], ◌∷◌, ◌==◌, if◌then◌else◌, replace,
}
pub mod Fork
pub mod Fallthrough

-- What the wrapper does: calls of the function with the thread's number and arguments, and `snrt_exit`,
-- which stores the exit code and returns.
pub data Effect : Type 0 where
  exit : Effect
  call : (fn id : ℕ) → (argv : List ℕ) → Effect

-- `p_argv[i]` and the `n - 1` words after it, where `p_argv` is one word behind `args`.
unfoldable pub argv : (args : ℕ → ℕ) → (i n : ℕ) → List ℕ
argv args i zero = []
argv args i (suc n) = args (suc i) ∷ argv args (suc i) n

unfoldable pub fn_with : (args : ℕ → ℕ) → (id n : ℕ) → Effect
unfolding argv
fn_with args id n = call (args 0) id (argv args 0 n)

-- The cases from 8 on have no `break`, up to the last one.
unfoldable pub case_8_to_12 : (args : ℕ → ℕ) → (id argc : ℕ) → List Effect
unfolding fn_with
case_8_to_12 args id argc =
    let c12 = fn_with args id 12 ∷ [] in
    let c11 = fn_with args id 11 ∷ c12 in
    let c10 = fn_with args id 10 ∷ c11 in
    let c9 = fn_with args id 9 ∷ c10 in
    let c8 = fn_with args id 8 ∷ c9 in
    let default = exit ∷ fn_with args id 0 ∷ [] in
    if argc == 8
    then c8
    else if argc == 9
    then c9
    else if argc == 10
    then c10
    else if argc == 11
    then c11
    else if argc == 12
    then c12
    else default

-- The default case continues in case 0.
unfoldable pub microtask_wrapper : (args : ℕ → ℕ) → (id argc : ℕ) → List Effect
unfolding case_8_to_12
microtask_wrapper args id argc =
    if argc == 0
    then fn_with args id 0 ∷ []
    else if argc == 1
    then fn_with args id 1 ∷ []
    else if argc == 2
    then fn_with args id 2 ∷ []
    else if argc == 3
    then fn_with args id 3 ∷ []
    else if argc == 4
    then fn_with args id 4 ∷ []
    else if argc == 5
    then fn_with args id 5 ∷ []
    else if argc == 6
    then fn_with args id 6 ∷ []
    else if argc == 7
    then fn_with args id 7 ∷ []
    else case_8_to_12 args id argc

-- The loop over the variable arguments, from slot `i` on.
unfoldable pub copy_args : (i : ℕ) → (va : List ℕ) → (args : ℕ → ℕ) → ℕ → ℕ
copy_args i [] args = args
copy_args i (v ∷ va) args = copy_args (suc i) va (replace i v args)

-- `omp_init` allocates `kmpc_args` and right behind it `omp_p`, of which `plainTeam.nbThreads` is the first
-- byte: `args` are the words from `kmpc_args` on, of which 12 are the array's.
abbrev pub kmp_fork_max_nargs : ℕ
kmp_fork_max_nargs = 12

-- The store of `parallelRegion` to `omp_p->plainTeam.nbThreads`, a `char`.
unfoldable pub set_nb_threads : (num_threads : ℕ) → (args : ℕ → ℕ) → ℕ → ℕ
unfolding replace
set_nb_threads num_threads args =
    replace kmp_fork_max_nargs (args kmp_fork_max_nargs / 256 * 256 + num_threads % 256) args

-- What the words hold when the team is woken up: `va` are the `argc` variable arguments of
-- `__kmpc_fork_call` on core 0.
unfoldable pub fork_args :
    (microtask : ℕ) → (va : List ℕ) → (num_threads : ℕ) → (args : ℕ → ℕ) → ℕ → ℕ
unfolding copy_args set_nb_threads
fork_args microtask va num_threads args =
    set_nb_threads num_threads (copy_args 1 va (replace 0 microtask args))
