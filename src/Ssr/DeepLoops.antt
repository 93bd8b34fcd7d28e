-- ===== src/Ssr/DeepLoops.antt =====
-- What `snrt_ssr_loop_3d` and `snrt_ssr_loop_4d` program, run by the address generator: the
-- addresses of the documented loop nests.
use snitch_cluster_chips_it.Prelude.{
  ℕ, ◌+◌, ◌*◌, ◌%◌, ◌^◌, ◌<◌, true, false, ◌≡◌, refl, arith, sub32, add32, mul32,
}
use native.Mathlib.Nat.{mod-lt}
use snitch_cluster_chips_it.Ssr.{Regs, loop_3d, loop_4d}
use snitch_cluster_chips_it.Ssr.Registers.{Fits, regs_3d, regs_4d}
use snitch_cluster_chips_it.Ssr.Level.{nest3, nest4, Level, level}
use snitch_cluster_chips_it.Ssr.AddrGen.{launch, after}
use snitch_cluster_chips_it.Ssr.Stream.{Cong}
use snitch_cluster_chips_it.Ssr.Program.{iterations, offset, stream-nest}

module _ (im p q : ℕ) (e : p * q ≡ 2 ^ 32) (pos : 0 < im) (dm ptr : ℕ) (regs : Regs) where
  -- The stream of snrt_ssr_loop_3d on the address generator, whose pointer width divides 32 bits:
  -- for bounds from 1 to the index range and strides that are whole words, the address of
  -- iteration n of the documented nest is, modulo the pointer width, the pointer plus the nest's
  -- offset of n, the stream is not done there, and it is done after as many addresses as the nest
  -- has iterations.
  loop_3d-nest :
      (b0 b1 b2 s0 s1 s2 n : ℕ)
      → Fits im b0 s0
      → Fits im b1 s1
      → Fits im b2 s2
      → n < iterations (nest3 b0 b1 b2 s0 s1 s2)
      → let g = launch im p (loop_3d dm b0 b1 b2 s0 s1 s2 regs) dm ptr in
        ((after im p 2 n g).done ≡ false)
        × (Cong p (after im p 2 n g).pointer (ptr + offset (nest3 b0 b1 b2 s0 s1 s2) n))
        × ((after im p 2 (iterations (nest3 b0 b1 b2 s0 s1 s2)) g).done ≡ true)
  unfolding launch
  loop_3d-nest b0 b1 b2 s0 s1 s2 n f0 f1 f2 lt =
      stream-nest im p (nest3 b0 b1 b2 s0 s1 s2) 2 ptr n _ refl
        (
          refl,
          c0.1,
          c0.0,
          c0.2,
          (refl, c1.1, c1.0, c1.2, (refl, c2.1, c2.0, c2.2, (refl, mod-lt _ pos, tt))),
        )
        lt
    where
      r : Regs
      r = loop_3d dm b0 b1 b2 s0 s1 s2 regs

      held :
          (r dm 2 ≡ sub32 b0 1)
          × (r dm 3 ≡ sub32 b1 1)
          × (r dm 4 ≡ sub32 b2 1)
          × (r dm 6 ≡ sub32 s0 0)
          × (r dm 7 ≡ sub32 s1 (add32 0 (mul32 s0 (sub32 b0 1))))
          × (r dm 8 ≡ sub32 s2 (add32 (add32 0 (mul32 s0 (sub32 b0 1))) (mul32 s1 (sub32 b1 1))))
      held = regs_3d dm b0 b1 b2 s0 s1 s2 regs

      c0 : Level im p b0 s0 0 0 (r dm 2) (r dm 6)
      c0 = level im p q e pos b0 s0 0 0 (r dm 2) (r dm 6) f0 (omega arith) refl refl held.0 held.3

      c1 :
          Level im p b1 s1
            (add32 0 (mul32 s0 (sub32 b0 1)))
            (0 + r dm 2 % im * s0)
            (r dm 3)
            (r dm 7)
      c1 =
          level im p q e pos b1 s1 (add32 0 (mul32 s0 (sub32 b0 1))) (0 + r dm 2 % im * s0) (r dm 3)
            (r dm 7) f1 c0.3 c0.4 c0.5 held.1 held.4

      c2 :
          Level im p b2 s2
            (add32 (add32 0 (mul32 s0 (sub32 b0 1))) (mul32 s1 (sub32 b1 1)))
            ((0 + r dm 2 % im * s0) + r dm 3 % im * s1)
            (r dm 4)
            (r dm 8)
      c2 =
          level im p q e pos b2 s2 (add32 (add32 0 (mul32 s0 (sub32 b0 1))) (mul32 s1 (sub32 b1 1)))
            ((0 + r dm 2 % im * s0) + r dm 3 % im * s1) (r dm 4) (r dm 8) f2 c1.3 c1.4 c1.5 held.2
            held.5

  -- The stream of snrt_ssr_loop_4d on the address generator, whose pointer width divides 32 bits:
  -- for bounds from 1 to the index range and strides that are whole words, the address of
  -- iteration n of the documented nest is, modulo the pointer width, the pointer plus the nest's
  -- offset of n, the stream is not done there, and it is done after as many addresses as the nest
  -- has iterations.
  pub loop_4d-nest :
      (b0 b1 b2 b3 s0 s1 s2 s3 n : ℕ)
      → Fits im b0 s0
      → Fits im b1 s1
      → Fits im b2 s2
      → Fits im b3 s3
      → n < iterations (nest4 b0 b1 b2 b3 s0 s1 s2 s3)
      → let g = launch im p (loop_4d dm b0 b1 b2 b3 s0 s1 s2 s3 regs) dm ptr in
        ((after im p 3 n g).done ≡ false)
        × (Cong p (after im p 3 n g).pointer (ptr + offset (nest4 b0 b1 b2 b3 s0 s1 s2 s3) n))
        × ((after im p 3 (iterations (nest4 b0 b1 b2 b3 s0 s1 s2 s3)) g).done ≡ true)
  unfolding launch
  loop_4d-nest b0 b1 b2 b3 s0 s1 s2 s3 n f0 f1 f2 f3 lt =
      stream-nest im p (nest4 b0 b1 b2 b3 s0 s1 s2 s3) 3 ptr n _ refl
        (
          refl,
          c0.1,
          c0.0,
          c0.2,
          (refl, c1.1, c1.0, c1.2, (refl, c2.1, c2.0, c2.2, (refl, c3.1, c3.0, c3.2, tt))),
        )
        lt
    where
      r : Regs
      r = loop_4d dm b0 b1 b2 b3 s0 s1 s2 s3 regs

      held :
          (r dm 2 ≡ sub32 b0 1)
          × (r dm 3 ≡ sub32 b1 1)
          × (r dm 4 ≡ sub32 b2 1)
          × (r dm 5 ≡ sub32 b3 1)
          × (r dm 6 ≡ sub32 s0 0)
          × (r dm 7 ≡ sub32 s1 (add32 0 (mul32 s0 (sub32 b0 1))))
          × (r dm 8 ≡ sub32 s2 (add32 (add32 0 (mul32 s0 (sub32 b0 1))) (mul32 s1 (sub32 b1 1))))
          × (r dm 9
              ≡ sub32 s3 (
                  add32
                    (add32 (add32 0 (mul32 s0 (sub32 b0 1))) (mul32 s1 (sub32 b1 1)))
                    (mul32 s2 (sub32 b2 1))))
      held = regs_4d dm b0 b1 b2 b3 s0 s1 s2 s3 regs

      c0 : Level im p b0 s0 0 0 (r dm 2) (r dm 6)
      c0 = level im p q e pos b0 s0 0 0 (r dm 2) (r dm 6) f0 (omega arith) refl refl held.0 held.4

      c1 :
          Level im p b1 s1
            (add32 0 (mul32 s0 (sub32 b0 1)))
            (0 + r dm 2 % im * s0)
            (r dm 3)
            (r dm 7)
      c1 =
          level im p q e pos b1 s1 (add32 0 (mul32 s0 (sub32 b0 1))) (0 + r dm 2 % im * s0) (r dm 3)
            (r dm 7) f1 c0.3 c0.4 c0.5 held.1 held.5

      c2 :
          Level im p b2 s2
            (add32 (add32 0 (mul32 s0 (sub32 b0 1))) (mul32 s1 (sub32 b1 1)))
            ((0 + r dm 2 % im * s0) + r dm 3 % im * s1)
            (r dm 4)
            (r dm 8)
      c2 =
          level im p q e pos b2 s2 (add32 (add32 0 (mul32 s0 (sub32 b0 1))) (mul32 s1 (sub32 b1 1)))
            ((0 + r dm 2 % im * s0) + r dm 3 % im * s1) (r dm 4) (r dm 8) f2 c1.3 c1.4 c1.5 held.2
            held.6

      c3 :
          Level im p b3 s3
            (add32
              (add32 (add32 0 (mul32 s0 (sub32 b0 1))) (mul32 s1 (sub32 b1 1)))
              (mul32 s2 (sub32 b2 1)))
            (((0 + r dm 2 % im * s0) + r dm 3 % im * s1) + r dm 4 % im * s2)
            (r dm 5)
            (r dm 9)
      c3 =
          level im p q e pos b3 s3
            (add32 (add32 (add32 0 (mul32 s0 (sub32 b0 1))) (mul32 s1 (sub32 b1 1)))
              (mul32 s2 (sub32 b2 1)))
            (((0 + r dm 2 % im * s0) + r dm 3 % im * s1) + r dm 4 % im * s2) (r dm 5) (r dm 9) f3
            c2.3 c2.4 c2.5 held.3 held.7
