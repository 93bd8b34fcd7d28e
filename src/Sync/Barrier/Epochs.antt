-- ===== src/Sync/Barrier/Epochs.antt =====
-- The states of the barrier, epoch by epoch, at any schedule.
use snitch_cluster_chips_it.Prelude.{
  ℕ, zero, suc, ◌%◌, ◌^◌, ◌<◌, ◌≡◌, true, false, ◌==◌, if◌then◌else◌, replace, replace-same,
  replace-other, into_replace, add32, refl, ap, sym, ◌∙◌, arith, Bool-cases, inl, inr, ==_iff,
  subst, true-false,
}
use native.Mathlib.Decide.{ℕ_discrete}
use snitch_cluster_chips_it.Sync.Barrier.{
  Thread, working, loaded, spinning, resetting, bumping, Shared, access, advance,
}
use snitch_cluster_chips_it.Sync.Barrier.Counting.{
  waits, waiting, others_wait, waiting-same, waiting-more,
}

-- Where a thread can be while the barrier of epoch `e` collects its threads: it has not called, it has
-- read the iteration, it waits, or it has yet to notice that the last barrier is over.
pub data InEpoch (e : ℕ) : Thread → Type 0 where
  at_work : InEpoch e (working e)
  at_load : InEpoch e (loaded e (e % 2 ^ 32))
  at_wait : InEpoch e (spinning e (e % 2 ^ 32))
  released : (k : ℕ) → e ≡ suc k → InEpoch e (spinning k (k % 2 ^ 32))

-- All threads but `w` wait for the barrier of epoch `e`.
unfoldable pub AllBut : (n e w : ℕ) → (ℕ → Thread) → Type 0
AllBut n e w f = (j : ℕ) → j < n → ¬ (j ≡ w) → f j ≡ spinning e (e % 2 ^ 32)

pub record Collecting (n e : ℕ) (s : Shared) : Type 0 where
  pub epoch : s.iteration ≡ e % 2 ^ 32
  pub count : s.cnt ≡ waiting e n s.thread
  pub room : s.cnt < n
  pub threads : (j : ℕ) → j < n → InEpoch e (s.thread j)

-- The barrier collects; or the last thread has arrived, and resets the counter; or it is about to
-- increment the iteration.
pub data Inv (n : ℕ) (s : Shared) : Type 0 where
  collecting : (e : ℕ) → Collecting n e s → Inv n s
  last_resets :
      (e w : ℕ)
      → s.iteration ≡ e % 2 ^ 32
      → w < n
      → s.thread w ≡ resetting e
      → AllBut n e w s.thread
      → Inv n s
  last_bumps :
      (e w : ℕ)
      → s.iteration ≡ e % 2 ^ 32
      → s.cnt ≡ 0
      → w < n
      → s.thread w ≡ bumping e
      → AllBut n e w s.thread
      → Inv n s

-- Consecutive epochs differ as machine words.
pub epochs_differ : (k : ℕ) → (k % 2 ^ 32 == suc k % 2 ^ 32) ≡ false
epochs_differ k = ground arith

same_epoch : (k : ℕ) → (k == k) ≡ true
same_epoch k = ground arith

not_next : (k : ℕ) → (k == suc k) ≡ false
not_next k = ground arith

pub none_wait :
    (n e : ℕ) (f : ℕ → Thread) → ((j : ℕ) → j < n → waits e (f j) ≡ false) → waiting e n f ≡ 0
unfolding waiting
none_wait zero e f h = refl
none_wait (suc n) e f h =
    rw (h n (omega arith)) (omega (arith, none_wait n e f (λ j l. h j (omega arith))))

-- Who counts as waiting in the epoch waits.
votes : (e : ℕ) (t : Thread) → InEpoch e t → waits e t ≡ true → t ≡ spinning e (e % 2 ^ 32)
unfolding waits
votes e t at_work q = absurd (true-false (sym q))
votes e t at_load q = absurd (true-false (sym q))
votes e t at_wait q = refl
votes e t (released k h) q = absurd (true-false (sym q ∙ ap (λ x. (k == x)) h ∙ not_next k))

unfoldable after : (cnt iteration i : ℕ) → Thread → Shared → Shared
after cnt iteration i t s = record {
  cnt = cnt;
  iteration = iteration;
  thread = replace i t s.thread;
}

module _ (n : ℕ) (small : n < 2 ^ 32) (s : Shared) (i : ℕ) (li : i < n) where
  module _ (e : ℕ) (c : Collecting n e s) where
    -- A step of a collecting barrier that keeps the thread's vote.
    same_vote :
        (t : Thread)
        → waits e t ≡ waits e (s.thread i)
        → InEpoch e t
        → Inv n (after s.cnt s.iteration i t s)
    unfolding after
    same_vote t q inside = collecting e (record {
      epoch = c.epoch;
      count = c.count ∙ sym (waiting-same e s.thread i t n q);
      room = c.room;
      threads = λ j lj. into_replace (InEpoch e) i t s.thread j (λ q. inside) (λ d. c.threads j lj);
    })

    no_vote : s.thread i ≡ loaded e (e % 2 ^ 32) → waits e (s.thread i) ≡ false
    unfolding waits
    no_vote at = ap (λ t. waits e t) at

    -- The arrival of a thread: the last one finds all others waiting.
    arrival :
        s.thread i ≡ loaded e (e % 2 ^ 32)
        → Inv n (
            after
              (add32 s.cnt 1)
              s.iteration
              i
              (if add32 s.cnt 1 == n then resetting e else spinning e (e % 2 ^ 32))
              s)
    unfolding after waits AllBut
    arrival at = elim (Bool-cases (suc s.cnt == n)) [
      | inl h ↦
          rw (counted, h)
            (last_resets e i c.epoch li (replace-same i (resetting e) s.thread) (λ j lj d.
              replace-other i j (resetting e) s.thread d
              ∙ votes e (s.thread j) (c.threads j lj) (
                  others_wait e s.thread n i j (ap suc (sym c.count) ∙ (==_iff (suc s.cnt) n).0 h)
                    li (no_vote at) lj d)))
      | inr h ↦
          rw (counted, h)
            (collecting e (record {
              epoch = c.epoch;
              count =
                  ap suc c.count
                  ∙ sym (
                      waiting-more e s.thread i (spinning e (e % 2 ^ 32)) n li (no_vote at)
                        (same_epoch e));
              room = less h;
              threads = λ j lj.
                  into_replace (InEpoch e) i (spinning e (e % 2 ^ 32)) s.thread j (λ q. at_wait)
                    (λ d. c.threads j lj);
            }))
    ]
      where
        counted : add32 s.cnt 1 ≡ suc s.cnt
        counted = omega (arith, c.room, small)

        less : (suc s.cnt == n) ≡ false → suc s.cnt < n
        less h = let r = c.room in ground arith

    one_access :
        (t : Thread)
        → s.thread i ≡ t
        → InEpoch e t
        → Inv n (
            after
              (access n s.cnt s.iteration t).0
              (access n s.cnt s.iteration t).1.0
              i
              (access n s.cnt s.iteration t).1.1
              s)
    unfolding access waits
    one_access t at at_work =
        same_vote (loaded e s.iteration) (sym (ap (λ t. waits e t) at))
          (subst (λ p. InEpoch e (loaded e p)) (sym c.epoch) at_load)
    one_access t at at_load = arrival at
    one_access t at at_wait =
        rw (ap (λ x. (e % 2 ^ 32 == x)) c.epoch ∙ same_epoch (e % 2 ^ 32))
          (same_vote (spinning e (e % 2 ^ 32)) (sym (ap (λ t. waits e t) at)) at_wait)
    one_access t at (released k q) =
        rw (ap (λ x. (k % 2 ^ 32 == x)) (c.epoch ∙ ap (λ x. x % 2 ^ 32) q) ∙ epochs_differ k) (
          same_vote (working (suc k))
            (sym (ap (λ t. waits e t) at ∙ ap (λ x. (k == x)) q ∙ not_next k))
            (subst (λ x. InEpoch e (working x)) q at_work))

  -- While the last thread closes the barrier, another one only looks at the iteration.
  looks_again :
      (e w : ℕ)
      → s.iteration ≡ e % 2 ^ 32
      → AllBut n e w s.thread
      → ¬ (i ≡ w)
      → access n s.cnt s.iteration (s.thread i) ≡ (s.cnt, (s.iteration, spinning e (e % 2 ^ 32)))
  unfolding access AllBut
  looks_again e w ei others d =
      ap (λ t. access n s.cnt s.iteration t) (others i li d)
      ∙ ap (λ b. (s.cnt, (s.iteration, if b then spinning e (e % 2 ^ 32) else working (suc e))))
          (ap (λ x. (e % 2 ^ 32 == x)) ei ∙ same_epoch (e % 2 ^ 32))

  still-AllBut :
      (e w : ℕ)
      → AllBut n e w s.thread
      → AllBut n e w (replace i (spinning e (e % 2 ^ 32)) s.thread)
  unfolding AllBut
  still-AllBut e w others j lj d =
      into_replace (λ t. t ≡ spinning e (e % 2 ^ 32)) i (spinning e (e % 2 ^ 32)) s.thread j
        (λ q. refl) (λ q. others j lj d)

  opens :
      (e : ℕ)
      → s.iteration ≡ e % 2 ^ 32
      → s.cnt ≡ 0
      → AllBut n e i s.thread
      → Collecting n (suc e) (after s.cnt (add32 s.iteration 1) i (working (suc e)) s)
  unfolding after AllBut waits
  opens e ei zero_ others = record {
    epoch = omega (arith, ei);
    count =
        zero_
        ∙ sym (
            none_wait n (suc e) (replace i (working (suc e)) s.thread) (λ j lj.
              into_replace (λ t. waits (suc e) t ≡ false) i (working (suc e)) s.thread j (λ q. refl)
                (λ d. ap (λ t. waits (suc e) t) (others j lj d) ∙ not_next e)));
    room = omega (arith, zero_, li);
    threads = λ j lj.
        into_replace (λ t. InEpoch (suc e) t) i (working (suc e)) s.thread j (λ q. at_work)
          (λ d. subst (λ t. InEpoch (suc e) t) (sym (others j lj d)) (released e refl));
  }

  pub advance-Inv : Inv n s → Inv n (advance n i s)
  unfolding advance after access AllBut
  advance-Inv (collecting e c) = one_access e c (s.thread i) refl (c.threads i li)
  advance-Inv (last_resets e w ei lw at others) = elim (ℕ_discrete i w) [
    | yes q ↦ rw (ap s.thread q ∙ at) (
        last_bumps e i ei refl li (replace-same i (bumping e) s.thread)
          (λ j lj d. replace-other i j (bumping e) s.thread d ∙ others j lj (λ k. d (k ∙ sym q))))
    | no d ↦ rw (looks_again e w ei others d) (
        last_resets e w ei lw
          (replace-other i w (spinning e (e % 2 ^ 32)) s.thread (λ k. d (sym k)) ∙ at)
          (still-AllBut e w others))
  ]
  advance-Inv (last_bumps e w ei zero_ lw at others) = elim (ℕ_discrete i w) [
    | yes q ↦
        rw (ap s.thread q ∙ at)
          (collecting (suc e) (opens e ei zero_ (λ j lj d. others j lj (λ k. d (k ∙ sym q)))))
    | no d ↦ rw (looks_again e w ei others d) (
        last_bumps e w ei zero_ lw
          (replace-other i w (spinning e (e % 2 ^ 32)) s.thread (λ k. d (sym k)) ∙ at)
          (still-AllBut e w others))
  ]
