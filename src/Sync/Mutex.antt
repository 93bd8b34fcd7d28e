-- ===== src/Sync/Mutex.antt =====
-- Mutual exclusion by the mutex of sync.h, for both acquire loops at once.
use snitch_cluster_chips_it.Prelude.{
  ℕ, zero, suc, false, ◌==◌, ◌<◌, ◌≡◌, ◌⊎◌, ◌↔◌, inl, inr, refl, sym, ◌∙◌, subst, arith, replace,
  into_replace, from_replace,
}
use snitch_cluster_chips_it.Sync.{
  Hart, outside, at_li, at_swap, at_branch, at_load, at_test, inside, State, execute, Step,
  mutex_acquire, mutex_ttas_acquire, instruction, mutex_release, Reachable, initial, then,
}

-- A hart owns the mutex in the critical section and as soon as its swap returned 0.
unfoldable Owns : Hart → Type 0
Owns inside = Unit
Owns (at_branch zero) = Unit
Owns _ = ⊥

-- The value a hart is about to store into the mutex is not 0.
unfoldable IsArmed : Hart → Type 0
IsArmed (at_swap t0) = 0 < t0
IsArmed _ = Unit

-- The mutex is free and nobody owns it, or it is taken and exactly one hart owns it.
unfoldable Held : State → Type 0
Held s =
    ((s.mutex ≡ 0) × ((i : ℕ) → ¬ Owns (s.hart i)))
    ⊎ ((0 < s.mutex) × ((h : ℕ) × (Owns (s.hart h) × ((i : ℕ) → Owns (s.hart i) → i ≡ h))))

record Inv (s : State) : Type 0 where
  held : Held s
  armed : (i : ℕ) → IsArmed (s.hart i)

-- The state after hart `i` has become `h` and the mutex `m`.
unfoldable after : (m i : ℕ) (h : Hart) → State → State
after m i h s = record { mutex = m; hart = replace i h s.hart }

keep :
    (s : State) (m i : ℕ) (h : Hart)
    → Held s
    → (Owns h ↔ Owns (s.hart i))
    → (s.mutex ≡ 0 → m ≡ 0)
    → (0 < s.mutex → 0 < m)
    → Held (after m i h s)
unfolding Held after
keep s m i h (inl (free, none)) own zero_ pos_ = inl (
  zero_ free,
  λ j p. elim (from_replace Owns i h s.hart j p) [
    | inl q ↦ none i (own.0 q.1)
    | inr q ↦ none j q.1
  ],
)
keep s m i h (inr (taken, (o, (owns, only)))) own zero_ pos_ = inr (
  pos_ taken,
  (
    o,
    (
      into_replace Owns i h s.hart o (λ e. own.1 (subst (λ k. Owns (s.hart k)) e owns)) (λ n. owns),
      λ j p. elim (from_replace Owns i h s.hart j p) [
        | inl q ↦ q.0 ∙ only i (own.0 q.1)
        | inr q ↦ only j q.1
      ],
    ),
  ),
)

take :
    (s : State) (m i : ℕ) (h : Hart) → Held s → s.mutex ≡ 0 → Owns h → 0 < m → Held (after m i h s)
unfolding Held after
take s m i h (inl (free, none)) e own pos_ = inr (
  pos_,
  (
    i,
    (
      into_replace Owns i h s.hart i (λ r. own) (λ n. absurd (n refl)),
      λ j p. elim (from_replace Owns i h s.hart j p) [ inl q ↦ q.0 | inr q ↦ absurd (none j q.1) ],
    ),
  ),
)
take s m i h (inr (taken, _)) e own pos_ = absurd (omega arith)

drop : (s : State) (i : ℕ) (h : Hart) → Held s → Owns (s.hart i) → ¬ Owns h → Held (after 0 i h s)
unfolding Held after
drop s i h (inl (free, none)) own not_own = absurd (none i own)
drop s i h (inr (taken, (o, (owns, only)))) own not_own = inl (
  refl,
  λ j p. elim (from_replace Owns i h s.hart j p) [
    | inl q ↦ not_own q.1
    | inr q ↦ q.0 (only j q.1 ∙ sym (only i own))
  ],
)

IsArmed-after :
    (s : State) (m i : ℕ) (h : Hart)
    → Inv s
    → IsArmed h
    → (j : ℕ) → IsArmed ((after m i h s).hart j)
unfolding after
IsArmed-after s m i h inv a j = into_replace IsArmed i h s.hart j (λ e. a) (λ n. inv.armed j)

-- A step that changes neither the mutex nor who owns it.
quiet :
    (s : State) (i : ℕ) (h : Hart)
    → Inv s
    → IsArmed h
    → (Owns h ↔ Owns (s.hart i))
    → Inv (after s.mutex i h s)
quiet s i h inv a own = record {
  held = keep s s.mutex i h inv.held own (λ e. e) (λ l. l);
  armed = IsArmed-after s s.mutex i h inv a;
}

suc_nonzero : (n : ℕ) → (suc n == 0) ≡ false
suc_nonzero n = ground arith

-- The swap of a hart: it wins a free mutex, and leaves a taken one taken.
swap :
    (s : State) (i t0 : ℕ) → s.hart i ≡ at_swap t0 → Inv s → Inv (after t0 i (at_branch s.mutex) s)
unfolding Owns IsArmed Held
swap s i t0 e inv = elim inv.held [
  | inl q ↦ record {
    held = take s t0 i (at_branch s.mutex) inv.held q.0 (rw q.0 tt) armed_t0;
    armed = IsArmed-after s t0 i (at_branch s.mutex) inv tt;
  }
  | inr q ↦ record {
    held =
        keep s t0 i (at_branch s.mutex) inv.held (rw e (not_won s.mutex q.0, λ o. absurd o))
          (λ z. absurd (omega (arith, q.0))) (λ l. armed_t0);
    armed = IsArmed-after s t0 i (at_branch s.mutex) inv tt;
  }
]
  where
    armed_t0 : 0 < t0
    armed_t0 = subst IsArmed e (inv.armed i)

    not_won : (m : ℕ) → 0 < m → ¬ Owns (at_branch m)
    not_won zero p o = omega arith
    not_won (suc m) p o = o

-- One instruction of hart `i`, which is at `h`.
instruction-Inv :
    (s : State) (i : ℕ) (h : Hart)
    → s.hart i ≡ h
    → Inv s
    → Inv (after (execute s.mutex h).0 i (execute s.mutex h).1 s)
unfolding execute Owns IsArmed
instruction-Inv s i outside e inv = quiet s i outside inv tt (rw e ((λ o. o), (λ o. o)))
instruction-Inv s i at_li e inv =
    quiet s i (at_swap 1) inv (omega arith) (rw e ((λ o. o), (λ o. o)))
instruction-Inv s i (at_swap t0) e inv = swap s i t0 e inv
instruction-Inv s i (at_branch zero) e inv = quiet s i inside inv tt (rw e ((λ o. o), (λ o. o)))
instruction-Inv s i (at_branch (suc t0)) e inv =
    rw (suc_nonzero t0) (quiet s i (at_swap (suc t0)) inv (omega arith) (rw e ((λ o. o), (λ o. o))))
instruction-Inv s i at_load e inv = quiet s i (at_test s.mutex) inv tt (rw e ((λ o. o), (λ o. o)))
instruction-Inv s i (at_test zero) e inv = quiet s i at_li inv tt (rw e ((λ o. o), (λ o. o)))
instruction-Inv s i (at_test (suc t0)) e inv =
    rw (suc_nonzero t0) (quiet s i at_load inv tt (rw e ((λ o. o), (λ o. o))))
instruction-Inv s i inside e inv = quiet s i inside inv tt (rw e ((λ o. o), (λ o. o)))

Step-Inv : {s t : State} → Step s t → Inv s → Inv t
unfolding after Owns IsArmed
Step-Inv (mutex_acquire s i e) inv = quiet s i at_li inv tt (rw e ((λ o. o), (λ o. o)))
Step-Inv (mutex_ttas_acquire s i e) inv = quiet s i at_load inv tt (rw e ((λ o. o), (λ o. o)))
Step-Inv (instruction s i) inv = instruction-Inv s i (s.hart i) refl inv
Step-Inv (mutex_release s i e) inv = record {
  held = drop s i outside inv.held (rw e tt) (λ o. o);
  armed = IsArmed-after s 0 i outside inv tt;
}

Reachable-Inv : {s : State} → Reachable s → Inv s
unfolding Held Owns IsArmed
Reachable-Inv initial = record { held = inl (refl, λ i o. o); armed = λ i. tt }
Reachable-Inv (then r t) = Step-Inv t (Reachable-Inv r)

-- In every state that any interleaving of the harts' instructions reaches from the initial state,
-- with both acquire loops in use, two harts that are both in the critical section are the same
-- hart.
pub mutual_exclusion :
    {s : State} (i j : ℕ) → Reachable s → s.hart i ≡ inside → s.hart j ≡ inside → i ≡ j
unfolding Held Owns
mutual_exclusion i j r ei ej = elim (Reachable-Inv r).held [
  | inl q ↦ absurd (q.1 i (rw ei tt))
  | inr q ↦ q.1.1.1 i (rw ei tt) ∙ sym (q.1.1.1 j (rw ej tt))
]

-- In every reachable state with the mutex taken there is a hart that is in the critical section or
-- enters it with its next instruction, leaving the mutex as it is, and a hart in the critical
-- section is that hart.
pub taken_lem :
    {s : State}
    → Reachable s
    → 0 < s.mutex
    → (i : ℕ) × ((execute s.mutex (s.hart i) ≡ (s.mutex, inside))
        × ((j : ℕ) → s.hart j ≡ inside → j ≡ i))
unfolding execute Held Owns
taken_lem {s = s} r taken = elim (Reachable-Inv r).held [
  | inl q ↦ absurd (omega (arith, q.0))
  | inr q ↦ (q.1.0, (enters s.mutex (s.hart q.1.0) q.1.1.0, λ j e. q.1.1.1 j (rw e tt)))
]
  where
    enters : (m : ℕ) (h : Hart) → Owns h → execute m h ≡ (m, inside)
    enters m inside o = refl
    enters m (at_branch zero) o = refl
    enters m (at_branch (suc n)) o = absurd o
    enters m outside o = absurd o
    enters m at_li o = absurd o
    enters m (at_swap n) o = absurd o
    enters m at_load o = absurd o
    enters m (at_test n) o = absurd o
