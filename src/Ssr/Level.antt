-- ===== src/Ssr/Level.antt =====
-- One loop of a programmed nest, from its two registers to the loaded counter.
use snitch_cluster_chips_it.Prelude.{
  ℕ, ◌+◌, ◌-◌, ◌*◌, ◌%◌, ◌^◌, ◌<◌, List, [], ◌∷◌, ◌≡◌, arith, sub32, add32, mul32,
}
use native.Mathlib.Nat.{mod-lt, mod-eq_of_lt}
use snitch_cluster_chips_it.Ssr.Registers.{Fits, rel-lem, acc-lem}
use snitch_cluster_chips_it.Ssr.Stream.{Cong}
use snitch_cluster_chips_it.Ssr.Program.{Dim}

abbrev pub nest1 : (b0 s0 : ℕ) → List Dim
nest1 b0 s0 = record { bound = b0; stride = s0 } ∷ []

abbrev pub nest2 : (b0 b1 s0 s1 : ℕ) → List Dim
nest2 b0 b1 s0 s1 = record { bound = b0; stride = s0 } ∷ record { bound = b1; stride = s1 } ∷ []

abbrev pub nest3 : (b0 b1 b2 s0 s1 s2 : ℕ) → List Dim
nest3 b0 b1 b2 s0 s1 s2 =
    record { bound = b0; stride = s0 }
    ∷ record { bound = b1; stride = s1 }
    ∷ record { bound = b2; stride = s2 }
    ∷ []

abbrev pub nest4 : (b0 b1 b2 b3 s0 s1 s2 s3 : ℕ) → List Dim
nest4 b0 b1 b2 b3 s0 s1 s2 s3 =
    record { bound = b0; stride = s0 }
    ∷ record { bound = b1; stride = s1 }
    ∷ record { bound = b2; stride = s2 }
    ∷ record { bound = b3; stride = s3 }
    ∷ []

abbrev pub Level : (im p b s a off rb rs : ℕ) → Type 0
Level im p b s a off rb rs =
    let a' = add32 a (mul32 s (sub32 b 1)) in
    (rb % im + 1 ≡ b)
    × (rb % im < im)
    × Cong p ((rs - rs % 8) % p + off) s
    × (a' < 2 ^ 32)
    × (a' % 8 ≡ 0)
    × ((off + rb % im * s) % 2 ^ 32 ≡ a')

module _ (im p q : ℕ) (e : p * q ≡ 2 ^ 32) (pos : 0 < im) where
  -- One loop of the nest: if its registers hold the bound and the relative stride, the address
  -- generator loads what the nest needs, and the sums for the next loop follow.
  pub level :
      (b s a off rb rs : ℕ)
      → Fits im b s
      → a < 2 ^ 32
      → a % 8 ≡ 0
      → off % 2 ^ 32 ≡ a
      → rb ≡ sub32 b 1
      → rs ≡ sub32 s a
      → Level im p b s a off rb rs
  level b s a off rb rs f ha a8 ho eb es =
      rw (eb, es)
        (
          rw bound (omega (arith, f)),
          mod-lt (sub32 b 1) pos,
          rel-lem p q s a off e f.3 ha f.4 a8 ho,
          (acc-lem a off s (sub32 b 1) f.4 a8 ho).2,
          (acc-lem a off s (sub32 b 1) f.4 a8 ho).1,
          rw bound (acc-lem a off s (sub32 b 1) f.4 a8 ho).0,
        )
    where
      bound : sub32 b 1 % im ≡ sub32 b 1
      bound = mod-eq_of_lt (omega (arith, f))
