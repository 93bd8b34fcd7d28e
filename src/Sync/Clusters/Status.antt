-- ===== src/Sync/Clusters/Status.antt =====
-- Where a DM core can be between two barriers.
use snitch_cluster_chips_it.Prelude.{ℕ, suc, ◌≤◌, ◌<◌, ◌≡◌, ◌⊎◌, Bool, true, false, ◌==◌, arith}
use snitch_cluster_chips_it.Sync.Clusters.{
  Phase, working, waiting, clearing, resetting, waking, completed, arrived,
}

-- While cluster `l` wakes the others, it has come to cluster `k`.
abbrev Awake : (a : Bool) (l k j : ℕ) → Type 0
Awake a l k j = a ≡ true → (j < k) × ¬ (j ≡ l)

-- The core has arrived at barrier `e`, or not yet; it is woken from the barrier before, or will be by
-- cluster `l` (`a`), or is the one that wakes.
unfoldable pub Fits : (e : ℕ) (a : Bool) (l k j : ℕ) → Phase → Bool → Type 0
Fits e a l k j (working r) b = (r ≡ e) × (b ≡ false) × Awake a l k j
Fits e a l k j (waiting r) b =
    ((r ≡ e) × (b ≡ false) × Awake a l k j)
    ⊎ ((suc r ≡ e) × (b ≡ true) × Awake a l k j)
    ⊎ ((suc r ≡ e) × (b ≡ false) × (a ≡ true) × (k ≤ j) × ¬ (j ≡ l))
Fits e a l k j (clearing r) b = (suc r ≡ e) × (b ≡ true) × Awake a l k j
Fits e a l k j (resetting r) b = ⊥
Fits e a l k j (waking r i) b = (suc r ≡ e) × (b ≡ false) × (a ≡ true) × (j ≡ l) × (i ≡ k)

-- All have arrived at barrier `e`, cluster `l` as the last one.
unfoldable pub AllIn : (e l j : ℕ) → Phase → Bool → Type 0
AllIn e l j (waiting r) b = (r ≡ e) × (b ≡ false) × ¬ (j ≡ l)
AllIn e l j (resetting r) b = (r ≡ e) × (b ≡ false) × (j ≡ l)
AllIn e l j _ b = ⊥

unfoldable pub has_arrived : ℕ → Phase → Bool
has_arrived e (waiting r) = r == e
has_arrived e _ = false

module _ (e l j : ℕ) where
  pub reset-others :
      (ph : Phase) (b : Bool) → ¬ (j ≡ l) → AllIn e l j ph b → Fits (suc e) true l 0 j ph b
  unfolding Fits AllIn
  reset-others (working r) b ne h = ground (arith, ne, h)
  reset-others (waiting r) b ne h = ground (arith, ne, h)
  reset-others (clearing r) b ne h = ground (arith, ne, h)
  reset-others (resetting r) b ne h = ground (arith, ne, h)
  reset-others (waking r i) b ne h = ground (arith, ne, h)

  pub wake-next :
      (ph : Phase) (b : Bool) (k : ℕ)
      → ¬ (j ≡ k)
      → ¬ (j ≡ l)
      → Fits e true l k j ph b
      → Fits e true l (suc k) j ph b
  unfolding Fits
  wake-next (working r) b k ne nl h = ground (arith, ne, nl, h)
  wake-next (waiting r) b k ne nl h = ground (arith, ne, nl, h)
  wake-next (clearing r) b k ne nl h = ground (arith, ne, nl, h)
  wake-next (resetting r) b k ne nl h = ground (arith, ne, nl, h)
  wake-next (waking r i) b k ne nl h = ground (arith, ne, nl, h)

  pub wake-this :
      (ph : Phase) (b : Bool) → ¬ (j ≡ l) → Fits e true l j j ph b → Fits e true l (suc j) j ph true
  unfolding Fits
  wake-this (working r) b nl h = ground (arith, nl, h)
  wake-this (waiting r) b nl h = ground (arith, nl, h)
  wake-this (clearing r) b nl h = ground (arith, nl, h)
  wake-this (resetting r) b nl h = ground (arith, nl, h)
  wake-this (waking r i) b nl h = ground (arith, nl, h)

  pub wake-end :
      (ph : Phase) (b : Bool) (n : ℕ)
      → j < n
      → ¬ (j ≡ l)
      → Fits e true l n j ph b
      → Fits e false l n j ph b
  unfolding Fits
  wake-end (working r) b n lt nl h = ground (arith, lt, nl, h)
  wake-end (waiting r) b n lt nl h = ground (arith, lt, nl, h)
  wake-end (clearing r) b n lt nl h = ground (arith, lt, nl, h)
  wake-end (resetting r) b n lt nl h = ground (arith, lt, nl, h)
  wake-end (waking r i) b n lt nl h = ground (arith, lt, nl, h)

  pub last-in :
      (ph : Phase) (b a : Bool) (k : ℕ)
      → ¬ (j ≡ l)
      → a ≡ false
      → has_arrived e ph ≡ true
      → ((m : ℕ) → Fits e a m k j ph b → AllIn e l j ph b)
  unfolding Fits AllIn has_arrived
  last-in (working r) b a k nl af h m f = ground (arith, nl, af, h, f)
  last-in (waiting r) b a k nl af h m f = ground (arith, nl, af, h, f)
  last-in (clearing r) b a k nl af h m f = ground (arith, nl, af, h, f)
  last-in (resetting r) b a k nl af h m f = ground (arith, nl, af, h, f)
  last-in (waking r i) b a k nl af h m f = ground (arith, nl, af, h, f)

  pub not_yet : (ph : Phase) (b : Bool) → AllIn e l j ph b → has_arrived (suc e) ph ≡ false
  unfolding AllIn has_arrived
  not_yet (working r) b h = ground (arith, h)
  not_yet (waiting r) b h = ground (arith, h)
  not_yet (clearing r) b h = ground (arith, h)
  not_yet (resetting r) b h = ground (arith, h)
  not_yet (waking r i) b h = ground (arith, h)

  pub Fits-counts :
      (ph : Phase) (b a : Bool) (k : ℕ)
      → Fits e a l k j ph b
      → (completed ph ≤ e) × (e ≤ arrived ph)
  unfolding Fits completed arrived
  Fits-counts (working r) b a k h = ground (arith, h)
  Fits-counts (waiting r) b a k h = ground (arith, h)
  Fits-counts (clearing r) b a k h = ground (arith, h)
  Fits-counts (resetting r) b a k h = ground (arith, h)
  Fits-counts (waking r i) b a k h = ground (arith, h)

  pub AllIn-counts :
      (ph : Phase) (b : Bool) → AllIn e l j ph b → (completed ph ≤ e) × (e ≤ arrived ph)
  unfolding AllIn completed arrived
  AllIn-counts (working r) b h = ground (arith, h)
  AllIn-counts (waiting r) b h = ground (arith, h)
  AllIn-counts (clearing r) b h = ground (arith, h)
  AllIn-counts (resetting r) b h = ground (arith, h)
  AllIn-counts (waking r i) b h = ground (arith, h)

  pub waker-away :
      (ph : Phase) (b : Bool) (k : ℕ) → Fits e true j k j ph b → has_arrived e ph ≡ false
  unfolding Fits has_arrived
  waker-away (working r) b k h = ground (arith, h)
  waker-away (waiting r) b k h = ground (arith, h)
  waker-away (clearing r) b k h = ground (arith, h)
  waker-away (resetting r) b k h = ground (arith, h)
  waker-away (waking r i) b k h = ground (arith, h)
