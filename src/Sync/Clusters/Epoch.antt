-- ===== src/Sync/Clusters/Epoch.antt =====
-- What holds between two accesses of the barrier between clusters.
use snitch_cluster_chips_it.Prelude.{
  ℕ, suc, ◌^◌, ◌≤◌, ◌<◌, ◌≡◌, inl, inr, Bool, true, false, ◌==◌, ==_iff, if◌then◌else◌, replace,
  replace-other, into_replace, one_if, count, count-le, count-all, none-count, count-replace, add32,
  arith, refl, sym, ap, ◌∙◌, subst, Bool-cases, true-false,
}
use snitch_cluster_chips_it.Sync.Clusters.{
  Phase, working, waiting, clearing, resetting, DmCore, Clusters, access,
}
use snitch_cluster_chips_it.Sync.Clusters.Status.{
  Fits, AllIn, has_arrived, reset-others, last-in, not_yet, waker-away,
}

abbrev pub is_in : ℕ → DmCore → Bool
is_in e c = has_arrived e c.phase

abbrev pub FitsCore : (e : ℕ) (a : Bool) (l k j : ℕ) → DmCore → Type 0
FitsCore e a l k j c = Fits e a l k j c.phase c.interrupt

abbrev pub AllInCore : (e l j : ℕ) → DmCore → Type 0
AllInCore e l j c = AllIn e l j c.phase c.interrupt

pub data Inv (n : ℕ) (s : Clusters) : Type 0 where
  gathering :
      (e : ℕ) (a : Bool) (l k : ℕ)
      → k ≤ n
      → (a ≡ true → l < n)
      → s.cnt ≡ count (is_in e) n s.core
      → ((i : ℕ) → i < n → FitsCore e a l k i (s.core i))
      → Inv n s
  complete : (e l : ℕ) → l < n → ((i : ℕ) → i < n → AllInCore e l i (s.core i)) → Inv n s

module _ (n j : ℕ) (small : n < 2 ^ 32) (lt : j < n) where
  -- A core that counts as little as before leaves the count.
  pub same-count :
      (e : ℕ) (w : DmCore) (f : ℕ → DmCore)
      → is_in e w ≡ is_in e (f j)
      → count (is_in e) n (replace j w f) ≡ count (is_in e) n f
  same-count e w f q = omega (arith, count-replace (is_in e) f j w n lt, ap one_if q)

  module _ (s : Clusters) where
    abbrev pub put : Phase → Bool → ℕ → DmCore
    put ph b = replace j (record { phase = ph; interrupt = b }) s.core

    b0 : Bool
    b0 = (s.core j).interrupt

    arrive-count :
        (e r : ℕ)
        → (s.core j).phase ≡ working r
        → r ≡ e
        → s.cnt ≡ count (is_in e) n s.core
        → add32 s.cnt 1 ≡ count (is_in e) n (put (waiting r) (s.core j).interrupt)
    unfolding has_arrived
    arrive-count e r at re c = omega (
      arith,
      small,
      c,
      count-le (is_in e) (put (waiting r) (s.core j).interrupt) n,
      count-replace (is_in e) s.core j
          (record { phase = waiting r; interrupt = (s.core j).interrupt }) n lt,
      ap one_if (ap (has_arrived e) at),
      ap one_if ((==_iff r e).1 re),
    )

    -- The last one to arrive finds all others there.
    others-in :
        (e r : ℕ) (a : Bool) (l k : ℕ)
        → (a ≡ true → l < n)
        → ((i : ℕ) → i < n → FitsCore e a l k i (s.core i))
        → (a ≡ true → (j < k) × ¬ (j ≡ l))
        → count (is_in e) n (put (waiting r) (s.core j).interrupt) ≡ n
        → (i : ℕ) → i < n
        → ¬ (i ≡ j)
        → AllInCore e j i (s.core i)
    others-in e r a l k ln each awake all i li ne = elim (Bool-cases a) [
      | inl at ↦ absurd (
          true-false (
            sym (there l (ln at) (λ q. (awake at).1 (sym q)))
            ∙ waker-away e l l (s.core l).phase (s.core l).interrupt k
                (subst (λ w. FitsCore e w l k l (s.core l)) at (each l (ln at)))))
      | inr af ↦
          last-in e j i (s.core i).phase (s.core i).interrupt a k ne af (there i li ne) l
            (each i li)
    ]
      where
        there : (i : ℕ) → i < n → ¬ (i ≡ j) → is_in e (s.core i) ≡ true
        there i li ne =
            ap (is_in e) (
              sym (
                replace-other j i (record { phase = waiting r; interrupt = (s.core j).interrupt })
                  s.core ne))
            ∙ count-all (is_in e) (put (waiting r) (s.core j).interrupt) n i all li

    pub working-Inv :
        (r : ℕ) → (s.core j).phase ≡ working r → Inv n s → Inv n (access n j (working r) s)
    unfolding access Fits AllIn
    working-Inv r at (gathering e a l k kn ln c each) = elim (Bool-cases (add32 s.cnt 1 == n)) [
      | inl last ↦ complete e j lt (λ i li.
          into_replace (AllInCore e j i) j _ s.core i (λ q. rw last (fit.0, fit.1, q))
            (λ ne.
              others-in e r a l k ln each fit.2
                (sym (arrive-count e r at fit.0 c) ∙ (==_iff (add32 s.cnt 1) n).0 last) i li ne))
      | inr more ↦ gathering e a l k kn ln (rw more (arrive-count e r at fit.0 c)) (λ i li.
          into_replace (FitsCore e a l k i) j _ s.core i
            (λ q. rw (more, q) (inl (fit.0, fit.1, fit.2))) (λ ne. each i li))
    ]
      where
        fit : Fits e a l k j (working r) (s.core j).interrupt
        fit = subst (λ p. Fits e a l k j p (s.core j).interrupt) at (each j lt)
    working-Inv r at (complete e l ll each) =
        absurd (subst (λ p. AllIn e l j p (s.core j).interrupt) at (each j lt))

    -- A step that only changes the core of cluster `j`, which counts as little as before.
    pub own-gathering :
        (e : ℕ) (a : Bool) (l k : ℕ) (ph : Phase) (b : Bool)
        → k ≤ n
        → (a ≡ true → l < n)
        → s.cnt ≡ count (is_in e) n s.core
        → has_arrived e ph ≡ is_in e (s.core j)
        → Fits e a l k j ph b
        → ((i : ℕ) → i < n → ¬ (i ≡ j) → FitsCore e a l k i (s.core i))
        → Inv n (record s { core = put ph b })
    own-gathering e a l k ph b kn ln c same fit each =
        gathering e a l k kn ln
          (c ∙ sym (same-count e (record { phase = ph; interrupt = b }) s.core same))
          (λ i li.
            into_replace (FitsCore e a l k i) j _ s.core i
              (λ q. subst (λ w. Fits e a l k w ph b) (sym q) fit) (each i li))

    pub waiting-Inv :
        (r : ℕ) → (s.core j).phase ≡ waiting r → Inv n s → Inv n (access n j (waiting r) s)
    unfolding access Fits AllIn has_arrived
    waiting-Inv r at (gathering e a l k kn ln c each) =
        own-gathering e a l k (if (s.core j).interrupt then clearing r else waiting r)
          (s.core j).interrupt kn ln c (ground (arith, fit, ap (has_arrived e) at))
          (ground (arith, fit)) (λ i li ne. each i li)
      where
        fit : Fits e a l k j (waiting r) (s.core j).interrupt
        fit = subst (λ p. Fits e a l k j p (s.core j).interrupt) at (each j lt)
    waiting-Inv r at (complete e l ll each) = complete e l ll (λ i li.
        into_replace (AllInCore e l i) j _ s.core i (λ q. rw (fit.1, q) (fit.0, refl, fit.2))
          (λ ne. each i li))
      where
        fit : AllIn e l j (waiting r) (s.core j).interrupt
        fit = subst (λ p. AllIn e l j p (s.core j).interrupt) at (each j lt)

    pub clearing-Inv :
        (r : ℕ) → (s.core j).phase ≡ clearing r → Inv n s → Inv n (access n j (clearing r) s)
    unfolding access Fits AllIn has_arrived
    clearing-Inv r at (gathering e a l k kn ln c each) =
        own-gathering e a l k (working (suc r)) false kn ln c (sym (ap (has_arrived e) at))
          (fit.0, refl, fit.2) (λ i li ne. each i li)
      where
        fit : Fits e a l k j (clearing r) (s.core j).interrupt
        fit = subst (λ p. Fits e a l k j p (s.core j).interrupt) at (each j lt)
    clearing-Inv r at (complete e l ll each) =
        absurd (subst (λ p. AllIn e l j p (s.core j).interrupt) at (each j lt))

    pub resetting-Inv :
        (r : ℕ) → (s.core j).phase ≡ resetting r → Inv n s → Inv n (access n j (resetting r) s)
    unfolding access Fits AllIn has_arrived
    resetting-Inv r at (gathering e a l k kn ln c each) =
        absurd (subst (λ p. Fits e a l k j p (s.core j).interrupt) at (each j lt))
    resetting-Inv r at (complete e l ll each) =
        gathering (suc e) true l 0 (omega arith) (λ t. ll)
          (sym (
            none-count (is_in (suc e)) _ n (λ i li.
              into_replace (λ w. is_in (suc e) w ≡ false) j _ s.core i (λ q. refl)
                (λ ne. not_yet e l i _ _ (each i li)))))
          (λ i li.
            into_replace (FitsCore (suc e) true l 0 i) j _ s.core i
              (λ q. (ap suc fit.0, fit.1, refl, q ∙ fit.2, refl))
              (λ ne. reset-others e l i _ _ (λ il. ne (il ∙ sym fit.2)) (each i li)))
      where
        fit : AllIn e l j (resetting r) (s.core j).interrupt
        fit = subst (λ p. AllIn e l j p (s.core j).interrupt) at (each j lt)
