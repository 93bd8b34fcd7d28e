-- ===== src/Kernels/Axpy/Job/Layout.antt =====
-- The six buffers of `axpy_job` in the TCDM do not overlap.
use snitch_cluster_chips_it.Prelude.{
  ℕ, zero, suc, ◌+◌, ◌*◌, ◌/◌, ◌%◌, ◌^◌, ◌≤◌, ◌<◌, ◌≡◌, ap, sym, ◌∙◌, subst, arith, u64, mul-suc_le,
  mul_mono,
}
use native.Mathlib.Decide.{dec_lt, ℕ_discrete}
use native.Mathlib.Nat.{mod-add-div'}
use snitch_cluster_chips_it.Kernels.Axpy.{element}
use snitch_cluster_chips_it.Kernels.Axpy.Job.{
  align_next_from_base, align_up_tcdm, y_behind, z_behind, local_x0_addr, local_y0_addr,
  local_z0_addr, local_x1_addr, local_y1_addr, local_z1_addr, buffer,
}

-- Two numbers with one remainder modulo p that are less than p apart are the same.
mod-window : (p u v : ℕ) → u ≤ v → v < u + p → u % p ≡ v % p → u ≡ v
mod-window p u v le lt e = elim (dec_lt (u / p) (v / p)) [
  | no h ↦ omega (
    arith,
    le,
    e,
    mod-add-div' u p,
    mod-add-div' v p,
    mul_mono (v / p) (u / p) p (omega (arith, h)),
  )
  | yes h ↦
      absurd
        (omega (arith, lt, e, mod-add-div' u p, mod-add-div' v p, mul-suc_le (u / p) (v / p) p h))
]

-- No element of a buffer is another element of it or of another buffer.
abbrev pub Cells : (p frac : ℕ) (buffers : ℕ → ℕ) → Type 0
Cells p frac buffers =
    (q r i j : ℕ)
    → q < 6
    → r < 6
    → i < frac
    → j < frac
    → element (buffers q) i % p ≡ element (buffers r) j % p
    → (q ≡ r) × (i ≡ j)

module _ (start size : ℕ) (ls : start < 2 ^ 32) where
  align-near :
      (a : ℕ)
      → start ≤ a
      → a < 2 ^ 33
      → (a ≤ align_up_tcdm start size a) × (align_up_tcdm start size a ≤ a + 191)
  unfolding align_up_tcdm align_next_from_base
  align-near a le la = (omega arith, omega arith)

  abbrev Behind : (a b : ℕ) → Type 0
  Behind a b = (a + size ≤ b) × (b ≤ a + size + 320)

  module _ (a : ℕ) (le : start ≤ a) (small : a + size < 2 ^ 32) where
    x-Behind : Behind a (align_up_tcdm start size (u64 (a + size)))
    x-Behind = (
      omega (arith, (align-near (u64 (a + size)) (omega arith) (omega arith)).0),
      omega (arith, (align-near (u64 (a + size)) (omega arith) (omega arith)).1),
    )

    y-Behind : Behind a (y_behind start size a)
    unfolding y_behind
    y-Behind = (
      omega (
        arith,
        x-Behind.0,
        x-Behind.1,
        (align-near (u64 (a + size)) (omega arith) (omega arith)).1,
      ),
      omega (arith, (align-near (u64 (a + size)) (omega arith) (omega arith)).1),
    )

    z-Behind : Behind a (z_behind start size a)
    unfolding z_behind
    z-Behind = (
      omega (
        arith,
        x-Behind.0,
        x-Behind.1,
        (align-near (u64 (a + size)) (omega arith) (omega arith)).1,
      ),
      omega (arith, (align-near (u64 (a + size)) (omega arith) (omega arith)).1),
    )

  module _ (behind : ℕ) (le : start ≤ behind) where
    next-Behind :
        (k : ℕ)
        → k < 5
        → start ≤ buffer start size behind k
        → buffer start size behind k + size < 2 ^ 32
        → Behind (buffer start size behind k) (buffer start size behind (suc k))
    unfolding buffer local_x1_addr local_y0_addr local_z0_addr local_y1_addr local_z1_addr
    next-Behind zero lt h s = y-Behind (local_x0_addr start size behind) h s
    next-Behind (suc zero) lt h s = z-Behind (local_y0_addr start size behind) h s
    next-Behind (suc (suc zero)) lt h s = x-Behind (local_z0_addr start size behind) h s
    next-Behind (suc (suc (suc zero))) lt h s = y-Behind (local_x1_addr start size behind) h s
    next-Behind (suc (suc (suc (suc zero)))) lt h s = z-Behind (local_y1_addr start size behind) h s
    next-Behind (suc (suc (suc (suc (suc k))))) lt h s = absurd (omega (arith, lt))

    module _ (small : behind + 6 * (size + 320) < 2 ^ 32) where
      near :
          (k : ℕ)
          → k < 6
          → (behind ≤ buffer start size behind k)
            × (buffer start size behind k ≤ behind + k * (size + 320) + 191)
      unfolding buffer local_x0_addr
      near zero lt = (
        omega (arith, (align-near behind le (omega arith)).0),
        omega (arith, (align-near behind le (omega arith)).1),
      )
      near (suc k) lt = step (near k (omega (arith, lt)))
        where
          step :
              (behind ≤ buffer start size behind k)
                × (buffer start size behind k ≤ behind + k * (size + 320) + 191)
              → (behind ≤ buffer start size behind (suc k))
                × (buffer start size behind (suc k) ≤ behind + suc k * (size + 320) + 191)
          step (ge, up) = (omega (arith, ge, next.0), omega (arith, next.1, up))
            where
              room : k * (size + 320) ≤ 5 * (size + 320)
              room = mul_mono k 5 (size + 320) (omega (arith, lt))

              next : Behind (buffer start size behind k) (buffer start size behind (suc k))
              next =
                  next-Behind k (omega (arith, lt)) (omega (arith, le, ge))
                    (omega (arith, small, up, room))

      fits : (k : ℕ) → k < 6 → buffer start size behind k + size ≤ behind + 6 * (size + 320)
      fits k lt = omega (arith, (near k lt).1, mul_mono k 5 (size + 320) (omega (arith, lt)))

      above :
          (q r : ℕ) → q < r → r < 6 → buffer start size behind q + size ≤ buffer start size behind r
      above q zero lt l6 = absurd (omega (arith, lt))
      above q (suc r) lt l6 = elim (ℕ_discrete q r) [
        | yes e ↦
            subst (λ w. buffer start size behind w + size ≤ buffer start size behind (suc r))
              (sym e) next.0
        | no d ↦ omega (arith, above q r (omega (arith, lt, d)) (omega (arith, l6)), next.0)
      ]
        where
          next : Behind (buffer start size behind r) (buffer start size behind (suc r))
          next =
              next-Behind r (omega (arith, l6)) (omega (arith, le, (near r (omega (arith, l6))).0))
                (omega (arith, small, fits r (omega (arith, l6))))

      -- For buffers that together take less than the p bytes that the streams' pointers tell apart.
      module _ (p frac : ℕ) (room : 6 * (size + 320) ≤ p) (es : size ≡ 8 * frac) where
        address :
            (q i : ℕ)
            → q < 6
            → i < frac
            → element (buffer start size behind q) i ≡ buffer start size behind q + 8 * i
        unfolding element
        address q i lq li = omega (arith, lq, li, es, small, fits q lq)

        same_address :
            (u v : ℕ)
            → behind ≤ u
            → u < behind + p
            → behind ≤ v
            → v < behind + p
            → u % p ≡ v % p
            → u ≡ v
        same_address u v gu lu gv lv e = elim (dec_lt v u) [
          | no h ↦ mod-window p u v (omega (arith, h)) (omega (arith, gu, lv)) e
          | yes h ↦ sym (mod-window p v u (omega (arith, h)) (omega (arith, gv, lu)) (sym e))
        ]

        -- The buffers keep apart in the window.
        pub buffer-Cells : Cells p frac (buffer start size behind)
        buffer-Cells q r i j lq lr li lj e = (same, place)
          where
            plain : buffer start size behind q + 8 * i ≡ buffer start size behind r + 8 * j
            plain =
                same_address _ _ (omega (arith, (near q lq).0))
                  (omega (arith, fits q lq, es, li, room)) (omega (arith, (near r lr).0))
                  (omega (arith, fits r lr, es, lj, room))
                  (ap (λ w. w % p) (sym (address q i lq li))
                    ∙ e
                    ∙ ap (λ w. w % p) (address r j lr lj))

            same : q ≡ r
            same = elim (dec_lt q r) [
              | yes h ↦ absurd (omega (arith, above q r h lr, plain, es, li))
              | no h ↦ elim (dec_lt r q) [
                | yes g ↦ absurd (omega (arith, above r q g lq, plain, es, lj))
                | no g ↦ omega (arith, h, g)
              ]
            ]

            place : i ≡ j
            place = omega (arith, plain, ap (buffer start size behind) same)
