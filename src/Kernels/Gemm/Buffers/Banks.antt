-- ===== src/Kernels/Gemm/Buffers/Banks.antt =====
-- With partitioned banks, one hyperbank and enough banks for six buffers, no two buffers share a bank.
use snitch_cluster_chips_it.Prelude.{
  ℕ, zero, suc, ◌+◌, ◌*◌, ◌/◌, ◌%◌, ◌^◌, ◌≤◌, ◌<◌, ◌≡◌, leb, true, sym, ap, ◌∙◌, arith, mul32,
  mul-suc_le, div-mul_add,
}
use snitch_cluster_chips_it.Team.{Config}
use snitch_cluster_chips_it.Alloc.{align_up_hyperbank}
use snitch_cluster_chips_it.Alloc.Align.{align_up_lem}
use snitch_cluster_chips_it.Kernels.Gemm.Buffers.{
  Buffers, buffer_width, first_buffers, second_buffers,
}

-- The buffers A, B and C of the first set and of the second
abbrev pub nth : Buffers → Buffers → ℕ → ℕ
nth s t zero = s.a
nth s t (suc zero) = s.b
nth s t (suc (suc zero)) = s.c
nth s t (suc (suc (suc zero))) = t.a
nth s t (suc (suc (suc (suc zero)))) = t.b
nth s t (suc (suc (suc (suc (suc q))))) = t.c

-- The buffer is a digit of an offset in lines, buffers and bytes.
digits :
    (width line q r l k o u : ℕ)
    → 6 * width ≤ line
    → q < 6
    → r < 6
    → o < width
    → u < width
    → q * width + l * line + o ≡ r * width + k * line + u
    → q ≡ r
digits width line q r l k o u fits lq lr lo lu e =
    sym (div-mul_add q o width lo).0 ∙ ap (λ (w : ℕ). w / width) rest ∙ (div-mul_add r u width lu).0
  where
    low : (q o : ℕ) → q < 6 → o < width → q * width + o < line
    low q o lq lo = omega (arith, fits, lo, mul-suc_le q 6 width lq)

    split : (q l o : ℕ) → q * width + l * line + o ≡ l * line + (q * width + o)
    split q l o = omega arith

    whole : l * line + (q * width + o) ≡ k * line + (r * width + u)
    whole = sym (split q l o) ∙ e ∙ split r k u

    rest : q * width + o ≡ r * width + u
    rest =
        sym (div-mul_add l (q * width + o) line (low q o lq lo)).1
        ∙ ap (λ (w : ℕ). w % line) whole
        ∙ (div-mul_add k (r * width + u) line (low r u lr lu)).1

module _ (cfg : Config) (hyperbank_size bank_num next size_a size_b size_c banks_per_buffer : ℕ)
    (above : cfg.tcdm_start_addr ≤ next) (wide : 0 < cfg.tcdm_hyperbank_width)
    (small : next + 2 * cfg.tcdm_hyperbank_width < 2 ^ 32)
    (few : 6 * (cfg.tcdm_bank_width * banks_per_buffer) ≤ cfg.tcdm_hyperbank_width)
    (enough : leb (mul32 banks_per_buffer 6) bank_num ≡ true) where
  abbrev width : ℕ
  width = cfg.tcdm_bank_width * banks_per_buffer

  abbrev first : Buffers
  first =
      first_buffers cfg 1 hyperbank_size bank_num next size_a size_b size_c true banks_per_buffer

  abbrev second : Buffers
  second =
      second_buffers cfg 1 hyperbank_size bank_num next size_a size_b size_c true banks_per_buffer

  width-lem :
      buffer_width cfg 1 hyperbank_size bank_num next size_a size_b size_c true banks_per_buffer
      ≡ width
  unfolding buffer_width
  width-lem = omega (arith, few, small)

  base-lt : first.a < next + cfg.tcdm_hyperbank_width
  unfolding first_buffers align_up_hyperbank
  base-lt =
      (align_up_lem next cfg.tcdm_hyperbank_width cfg.tcdm_start_addr above wide
        (omega (arith, small))).1

  nth-lem : (q : ℕ) → q < 6 → nth first second q ≡ first.a + q * width
  unfolding first_buffers second_buffers
  nth-lem zero lt = omega arith
  nth-lem (suc zero) lt = omega (arith, width-lem, base-lt, few, small)
  nth-lem (suc (suc zero)) lt = omega (arith, width-lem, base-lt, few, small)
  nth-lem (suc (suc (suc zero))) lt = rw enough (omega (arith, width-lem, base-lt, few, small))
  nth-lem (suc (suc (suc (suc zero)))) lt =
      rw enough (omega (arith, width-lem, base-lt, few, small))
  nth-lem (suc (suc (suc (suc (suc zero))))) lt =
      rw enough (omega (arith, width-lem, base-lt, few, small))
  nth-lem (suc (suc (suc (suc (suc (suc q)))))) lt = absurd (omega (arith, lt))

  -- With partitioned banks, one hyperbank, enough banks for six buffers that fit a line of the
  -- TCDM, and sums that do not wrap: two different ones of the six tile buffers of gemm have no
  -- byte in common, however many lines of the TCDM they take.
  pub banks-Apart :
      (q r l k o u : ℕ)
      → q < 6
      → r < 6
      → ¬ (q ≡ r)
      → o < cfg.tcdm_bank_width * banks_per_buffer
      → u < cfg.tcdm_bank_width * banks_per_buffer
      → ¬ (
          nth first second q + l * cfg.tcdm_hyperbank_width + o
          ≡ nth first second r + k * cfg.tcdm_hyperbank_width + u)
  banks-Apart q r l k o u lq lr d lo lu e = d (
      digits width cfg.tcdm_hyperbank_width q r l k o u few lq lr lo lu
        (omega (arith, e, nth-lem q lq, nth-lem r lr)))
