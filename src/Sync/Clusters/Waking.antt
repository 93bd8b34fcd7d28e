-- ===== src/Sync/Clusters/Waking.antt =====
-- The interrupts that the last cluster sends, and all accesses of the barrier.
use snitch_cluster_chips_it.Prelude.{
  ℕ, suc, ◌^◌, ◌<◌, ◌≡◌, inl, inr, true, false, ◌==◌, ==_iff, ltb, ltb→lt, ltb→le, replace,
  replace-other, into_replace, count, count-replace, arith, refl, sym, ap, ◌∙◌, subst, Bool-cases,
  true-false,
}
use snitch_cluster_chips_it.Sync.Clusters.{
  Phase, working, waiting, clearing, resetting, waking, Clusters, access,
}
use snitch_cluster_chips_it.Sync.Clusters.Status.{
  Fits, AllIn, has_arrived, wake-next, wake-this, wake-end,
}
use snitch_cluster_chips_it.Sync.Clusters.Epoch.{
  is_in, FitsCore, Inv, gathering, complete, same-count, put, own-gathering, working-Inv,
  waiting-Inv, clearing-Inv, resetting-Inv,
}

module _ (n j : ℕ) (small : n < 2 ^ 32) (lt : j < n) (s : Clusters) where
  -- Cluster `j` wakes cluster `i`, goes on from itself, or is through.
  wakes-other :
      (e r i : ℕ)
      → (s.core j).phase ≡ waking r i
      → Fits e true j i j (waking r i) (s.core j).interrupt
      → i < n
      → ¬ (j ≡ i)
      → s.cnt ≡ count (is_in e) n s.core
      → ((h : ℕ) → h < n → FitsCore e true j i h (s.core h))
      → Inv n (record s {
        core =
            replace j
              (record { phase = waking r (suc i); interrupt = (s.core j).interrupt })
              (replace i (record (s.core i) { interrupt = true }) s.core);
      })
  unfolding Fits has_arrived
  wakes-other e r i at fit li ne c each =
      gathering e true j (suc i) (omega (arith, li)) (λ t. lt)
        (c
          ∙ sym (
              omega (
                arith,
                count-replace (is_in e) s.core i (record (s.core i) { interrupt = true }) n li,
              ))
          ∙ sym (
              same-count n j small lt e
                (record { phase = waking r (suc i); interrupt = (s.core j).interrupt })
                (replace i (record (s.core i) { interrupt = true }) s.core)
                (sym (
                  ap (is_in e)
                    (replace-other i j (record (s.core i) { interrupt = true }) s.core ne)
                  ∙ ap (has_arrived e) at))))
        (λ h lh.
          into_replace (FitsCore e true j (suc i) h) j _ _ h (λ q. (fit.0, fit.1, refl, q, refl))
            (λ nj.
              into_replace (FitsCore e true j (suc i) h) i _ s.core h
                (λ q. rw q (wake-this e j i _ _ (λ ij. ne (sym ij)) (each i li)))
                (λ ni. wake-next e j h _ _ i ni nj (each h lh))))

  skips-itself :
      (e r i : ℕ)
      → (s.core j).phase ≡ waking r i
      → Fits e true j i j (waking r i) (s.core j).interrupt
      → j ≡ i
      → s.cnt ≡ count (is_in e) n s.core
      → ((h : ℕ) → h < n → FitsCore e true j i h (s.core h))
      → Inv n (record s { core = put n j small lt s (waking r (suc i)) (s.core j).interrupt })
  unfolding Fits has_arrived
  skips-itself e r i at fit ji c each =
      own-gathering n j small lt s e true j (suc i) (waking r (suc i)) (s.core j).interrupt
        (omega (arith, lt, ji)) (λ t. lt) c (sym (ap (has_arrived e) at))
        (fit.0, fit.1, refl, refl, refl)
        (λ h lh nj. wake-next e j h _ _ i (λ hi. nj (hi ∙ sym ji)) nj (each h lh))

  has_woken :
      (e r i : ℕ)
      → (s.core j).phase ≡ waking r i
      → Fits e true j i j (waking r i) (s.core j).interrupt
      → i ≡ n
      → s.cnt ≡ count (is_in e) n s.core
      → ((h : ℕ) → h < n → FitsCore e true j i h (s.core h))
      → Inv n (record s { core = put n j small lt s (working (suc r)) (s.core j).interrupt })
  unfolding Fits has_arrived
  has_woken e r i at fit i_n c each =
      own-gathering n j small lt s e false j n (working (suc r)) (s.core j).interrupt (omega arith)
        (λ t. lt) c (sym (ap (has_arrived e) at)) (fit.0, fit.1, λ t. absurd (true-false (sym t)))
        (λ h lh nj.
          wake-end e j h _ _ n lh nj
            (subst (λ w. FitsCore e true j w h (s.core h)) i_n (each h lh)))

  waking-Inv :
      (r i : ℕ) → (s.core j).phase ≡ waking r i → Inv n s → Inv n (access n j (waking r i) s)
  unfolding access Fits AllIn
  waking-Inv r i at (gathering e a l k kn ln c each) = elim (Bool-cases (ltb i n)) [
    | inl li ↦ elim (Bool-cases (j == i)) [
      | inl ji ↦ rw (li, ji) (skips-itself e r i at here ((==_iff j i).0 ji) c all)
      | inr ne ↦
          rw (li, ne)
            (wakes-other e r i at here (ltb→lt i n li)
              (λ q. true-false (sym ((==_iff j i).1 q) ∙ ne)) c all)
    ]
    | inr ge ↦ rw ge (has_woken e r i at here (omega (arith, ltb→le i n ge, fit.4, kn)) c all)
  ]
    where
      fit : Fits e a l k j (waking r i) (s.core j).interrupt
      fit = subst (λ p. Fits e a l k j p (s.core j).interrupt) at (each j lt)

      all : (h : ℕ) → h < n → FitsCore e true j i h (s.core h)
      all h lh =
          subst (λ w. FitsCore e true w i h (s.core h)) (sym fit.3)
            (subst (λ w. FitsCore e true l w h (s.core h)) (sym fit.4)
              (subst (λ w. FitsCore e w l k h (s.core h)) fit.2 (each h lh)))

      here : Fits e true j i j (waking r i) (s.core j).interrupt
      here = subst (λ p. Fits e true j i j p (s.core j).interrupt) at (all j lt)
  waking-Inv r i at (complete e l ll each) =
      absurd (subst (λ p. AllIn e l j p (s.core j).interrupt) at (each j lt))

  pub access-Inv : (ph : Phase) → (s.core j).phase ≡ ph → Inv n s → Inv n (access n j ph s)
  access-Inv (working r) at inv = working-Inv n j small lt s r at inv
  access-Inv (waiting r) at inv = waiting-Inv n j small lt s r at inv
  access-Inv (clearing r) at inv = clearing-Inv n j small lt s r at inv
  access-Inv (resetting r) at inv = resetting-Inv n j small lt s r at inv
  access-Inv (waking r i) at inv = waking-Inv r i at inv
