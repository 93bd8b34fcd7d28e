-- ===== src/Ssr/Loops.antt =====
-- What `snrt_ssr_loop_1d` and `snrt_ssr_loop_2d` program, run by the address generator: the
-- addresses of the documented loop nests.
use snitch_cluster_chips_it.Prelude.{
  ℕ, ◌+◌, ◌*◌, ◌%◌, ◌^◌, ◌<◌, true, false, ◌≡◌, refl, arith, sub32, add32, mul32,
}
use native.Mathlib.Nat.{mod-lt}
use snitch_cluster_chips_it.Ssr.{Regs, loop_1d, loop_2d}
use snitch_cluster_chips_it.Ssr.Registers.{Fits, regs_1d, regs_2d}
use snitch_cluster_chips_it.Ssr.Level.{nest1, nest2, Level, level}
use snitch_cluster_chips_it.Ssr.AddrGen.{launch, after}
use snitch_cluster_chips_it.Ssr.Stream.{Cong}
use snitch_cluster_chips_it.Ssr.Program.{iterations, offset, stream-nest}

module _ (im p q : ℕ) (e : p * q ≡ 2 ^ 32) (pos : 0 < im) (dm ptr : ℕ) (regs : Regs) where
  -- The stream of snrt_ssr_loop_1d on the address generator, whose pointer width divides 32 bits:
  -- for a bound from 1 to the index range and a stride that is whole words, the address of
  -- iteration n is, modulo the pointer width, the pointer plus n strides as the one-dimensional
  -- nest numbers them, the stream is not done there, and it is done after as many addresses as the
  -- nest has iterations.
  pub loop_1d-nest :
      (b0 s0 n : ℕ)
      → Fits im b0 s0
      → n < iterations (nest1 b0 s0)
      → let g = launch im p (loop_1d dm b0 s0 regs) dm ptr in
        ((after im p 0 n g).done ≡ false)
        × (Cong p (after im p 0 n g).pointer (ptr + offset (nest1 b0 s0) n))
        × ((after im p 0 (iterations (nest1 b0 s0)) g).done ≡ true)
  unfolding launch
  loop_1d-nest b0 s0 n f0 lt =
      stream-nest im p (nest1 b0 s0) 0 ptr n _ refl
        (
          refl,
          c0.1,
          c0.0,
          c0.2,
          (refl, mod-lt _ pos, (refl, mod-lt _ pos, (refl, mod-lt _ pos, tt))),
        )
        lt
    where
      r : Regs
      r = loop_1d dm b0 s0 regs

      held : (r dm 2 ≡ sub32 b0 1) × (r dm 6 ≡ sub32 s0 0)
      held = regs_1d dm b0 s0 regs

      c0 : Level im p b0 s0 0 0 (r dm 2) (r dm 6)
      c0 = level im p q e pos b0 s0 0 0 (r dm 2) (r dm 6) f0 (omega arith) refl refl held.0 held.1

  -- The stream of snrt_ssr_loop_2d on the address generator, whose pointer width divides 32 bits:
  -- for bounds from 1 to the index range and strides that are whole words, the address of
  -- iteration n of the documented nest is, modulo the pointer width, the pointer plus the nest's
  -- offset of n, the stream is not done there, and it is done after as many addresses as the nest
  -- has iterations.
  pub loop_2d-nest :
      (b0 b1 s0 s1 n : ℕ)
      → Fits im b0 s0
      → Fits im b1 s1
      → n < iterations (nest2 b0 b1 s0 s1)
      → let g = launch im p (loop_2d dm b0 b1 s0 s1 regs) dm ptr in
        ((after im p 1 n g).done ≡ false)
        × (Cong p (after im p 1 n g).pointer (ptr + offset (nest2 b0 b1 s0 s1) n))
        × ((after im p 1 (iterations (nest2 b0 b1 s0 s1)) g).done ≡ true)
  unfolding launch
  loop_2d-nest b0 b1 s0 s1 n f0 f1 lt =
      stream-nest im p (nest2 b0 b1 s0 s1) 1 ptr n _ refl
        (
          refl,
          c0.1,
          c0.0,
          c0.2,
          (refl, c1.1, c1.0, c1.2, (refl, mod-lt _ pos, (refl, mod-lt _ pos, tt))),
        )
        lt
    where
      r : Regs
      r = loop_2d dm b0 b1 s0 s1 regs

      held :
          (r dm 2 ≡ sub32 b0 1)
          × (r dm 3 ≡ sub32 b1 1)
          × (r dm 6 ≡ sub32 s0 0)
          × (r dm 7 ≡ sub32 s1 (add32 0 (mul32 s0 (sub32 b0 1))))
      held = regs_2d dm b0 b1 s0 s1 regs

      c0 : Level im p b0 s0 0 0 (r dm 2) (r dm 6)
      c0 = level im p q e pos b0 s0 0 0 (r dm 2) (r dm 6) f0 (omega arith) refl refl held.0 held.2

      c1 :
          Level im p b1 s1
            (add32 0 (mul32 s0 (sub32 b0 1)))
            (0 + r dm 2 % im * s0)
            (r dm 3)
            (r dm 7)
      c1 =
          level im p q e pos b1 s1 (add32 0 (mul32 s0 (sub32 b0 1))) (0 + r dm 2 % im * s0) (r dm 3)
            (r dm 7) f1 c0.3 c0.4 c0.5 held.1 held.3
