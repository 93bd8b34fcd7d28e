-- ===== src/Ssr/Program.antt =====
-- Loops programmed for a nest: what the registers must hold for the address generator to run it.
use snitch_cluster_chips_it.Prelude.{
  ℕ, suc, ◌+◌, ◌*◌, ◌/◌, ◌%◌, ◌≤◌, ◌<◌, true, false, List, [], ◌∷◌, ◌≡◌, refl, ap, ◌∙◌, subst,
  arith, length,
}
use native.Mathlib.Nat.{mod-add-mod}
use snitch_cluster_chips_it.Ssr.AddrGen.{Loop, Gen, after}
use snitch_cluster_chips_it.Ssr.Stream.{Cong, limit, value, total, dot, InRange, Relative}
use snitch_cluster_chips_it.Ssr.Nest.{nest, Running, after-nest}

-- One dimension of a nest: its iterations and its stride.
pub record Dim : Type 0 where
  pub bound : ℕ
  pub stride : ℕ

abbrev pub strides : List Dim → List ℕ
strides [] = []
strides (d ∷ ds) = d.stride ∷ strides ds

abbrev pub iterations : List Dim → ℕ
iterations [] = 1
iterations (d ∷ ds) = d.bound * iterations ds

-- The offset of iteration `n` of the nest, innermost dimension first: in the source's loops, dimension
-- `k` has the index that stands beside its stride.
abbrev pub offset : List Dim → ℕ → ℕ
offset [] n = 0
offset (d ∷ ds) n = n % d.bound * d.stride + offset ds (n / d.bound)

module _ (im p : ℕ) where
  -- The loops from `off` bytes of inner advance on; loops beyond the nest hold anything.
  abbrev pub Programmed : ℕ → List Dim → List Loop → Type 0
  Programmed off [] [] = Unit {0}
  Programmed off [] (l ∷ ls) = (l.index ≡ 0) × (l.bound < im) × Programmed off [] ls
  Programmed off (d ∷ ds) [] = ⊥
  Programmed off (d ∷ ds) (l ∷ ls) =
      (l.index ≡ 0)
      × (l.bound < im)
      × (l.bound + 1 ≡ d.bound)
      × Cong p (l.stride + off) d.stride
      × Programmed (off + l.bound * d.stride) ds ls

  length-strides : (ds : List Dim) → length (strides ds) ≡ length ds
  length-strides [] = refl
  length-strides (d ∷ ds) = ap suc (length-strides ds)

  module _ (dims : ℕ) where
    record Ready (i off : ℕ) (ds : List Dim) (ls : List Loop) : Type 0 where
      range : InRange im dims i ls
      zero_value : value dims i ls ≡ 0
      zero_dot : dot (strides ds) ls ≡ 0
      relative : Relative p off (strides ds) ls
      all : total dims i ls ≡ iterations ds
      same : (n : ℕ) → nest dims i (strides ds) ls n ≡ offset ds n

    unused : (i : ℕ) (l : Loop) → dims < i → limit dims i l ≡ 0
    unused i l h = ground arith

    used : (i : ℕ) (l : Loop) → i ≤ dims → limit dims i l ≡ l.bound
    used i l h = ground arith

    rest-Ready : (i off : ℕ) (ls : List Loop) → dims < i → Programmed off [] ls → Ready i off [] ls
    rest-Ready i off [] h c = record {
      range = tt;
      zero_value = refl;
      zero_dot = refl;
      relative = tt;
      all = refl;
      same = λ n. refl;
    }
    rest-Ready i off (l ∷ ls) h c =
        let r = rest-Ready (i + 1) off ls (omega arith) c.2 in
        let u : limit dims i l ≡ 0 = unused i l h in
        record {
          range = (omega arith, c.1, r.range);
          zero_value = rw u (omega (arith, r.zero_value));
          zero_dot = refl;
          relative = tt;
          all = rw u (omega (arith, r.all));
          same = λ n. refl;
        }

    Programmed-Ready :
        (i off : ℕ) (ds : List Dim) (ls : List Loop)
        → i + length ds ≡ dims + 1
        → Programmed off ds ls
        → Ready i off ds ls
    Programmed-Ready i off [] ls e c = rest-Ready i off ls (omega arith) c
    Programmed-Ready i off (d ∷ ds) [] e c = absurd c
    Programmed-Ready i off (d ∷ ds) (l ∷ ls) e c =
        let r = Programmed-Ready (i + 1) (off + l.bound * d.stride) ds ls (omega arith) c.4 in
        let u : limit dims i l ≡ l.bound = used i l (omega arith) in
        record {
          range = (omega arith, c.1, r.range);
          zero_value = rw (u, r.zero_value) (omega arith);
          zero_dot = rw (c.0, r.zero_dot) (omega arith);
          relative = (c.3, r.relative);
          all = rw (u, c.2, r.all);
          same = λ n. rw (u, c.2) (ap (λ t. n % d.bound * d.stride + t) (r.same (n / d.bound)));
        }

  -- A stream over programmed loops makes as many addresses as the nest has iterations, in the nest's
  -- order, and then it is done.
  pub stream-nest :
      (ds : List Dim) (dims ptr n : ℕ) (ls : List Loop)
      → length ds ≡ dims + 1
      → Programmed 0 ds ls
      → n < iterations ds
      → let g : Gen = record { loops = ls; pointer = ptr % p; done = false } in
        ((after im p dims n g).done ≡ false)
        × (Cong p (after im p dims n g).pointer (ptr + offset ds n))
        × ((after im p dims (iterations ds) g).done ≡ true)
  stream-nest ds dims ptr n ls e c lt =
      let a =
        after-nest im p dims (strides ds) g n (length-strides ds ∙ e) (omega (arith, r.all))
          begins in
      (
        a.0,
        a.1
            ∙ mod-add-mod ptr p (nest dims 0 (strides ds) ls n)
            ∙ ap (λ t. (ptr + t) % p) (r.same n),
        subst (λ m. (after im p dims m g).done ≡ true) r.all a.2,
      )
    where
      g : Gen
      g = record { loops = ls; pointer = ptr % p; done = false }

      r : Ready dims 0 0 ds ls
      r = Programmed-Ready dims 0 0 ds ls (omega (arith, e)) c

      begins : Running im p dims (strides ds) g 0 g
      begins = record {
        range = r.range;
        counted = r.zero_value;
        strides = r.relative;
        same_total = refl;
        same_nest = λ k. refl;
        follows = ap (λ t. t % p) (omega (arith, r.zero_dot));
        going = refl;
      }
