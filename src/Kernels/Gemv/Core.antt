-- ===== src/Kernels/Gemv/Core.antt =====
-- What one core computes with `single_core_gemv`.
use snitch_cluster_chips_it.Prelude.{
  ℕ, zero, suc, ◌+◌, ◌*◌, ◌%◌, ◌^◌, ◌≤◌, ◌<◌, ◌≡◌, Bool, refl, sym, ap, ap₂, ◌∙◌, subst, arith,
  sub32, mul32, if◌then◌else◌, for_each, for_each-cong, replace-same, replace-other,
}
use native.Mathlib.Decide.{ℕ_discrete}
use snitch_cluster_chips_it.Ssr.{Regs, loop_2d, read}
use snitch_cluster_chips_it.Ssr.AddrGen.{Gen, step, after, launch}
use snitch_cluster_chips_it.Kernels.Axpy.{element, Memory, load as fetch, store}
use snitch_cluster_chips_it.Kernels.Axpy.Cores.{Distinct}
use snitch_cluster_chips_it.Kernels.Gemv.{
  Scalars, Row, Rows, accumulate, frep_row, gemv_row, single_core_gemv,
}
use snitch_cluster_chips_it.Kernels.Gemv.Streams.{
  index, after-after, launch-ft0, launch-ft1, a-at, x-at,
}

-- The product of row `i` with the vector, before the factor alpha.
unfoldable pub dot {ℓ} :
    {F : Type ℓ} (p : ℕ) → Scalars F → Bool → (n a lda x incx i : ℕ) → Memory F → F
unfolding for_each element
dot p ops trans n a lda x incx i mem =
    for_each n
      (λ j acc.
        ops.fmadd (mem (element a (index trans lda i j) % p)) (mem (element x (j * incx) % p)) acc)
      ops.zero

-- The elements of y are apart from each other and from A and x.
pub record Separate (p : ℕ) (trans : Bool) (m n a lda x incx y : ℕ) : Type 0 where
  pub from_a :
      (h i j : ℕ)
      → h < m
      → i < m
      → j < n
      → ¬ (element a (index trans lda i j) % p ≡ element y h % p)
  pub from_x : (h j : ℕ) → h < m → j < n → ¬ (element x (j * incx) % p ≡ element y h % p)
  pub distinct : Distinct p m y

module _ {ℓ} {F : Type ℓ} (im p : ℕ) (ops : Scalars F) where
  -- The streams advance with each repetition, and `acc` adds up the products of what they read.
  frep_row-after :
      (t : ℕ) (mem : Memory F) (r : Row F)
      → let s = frep_row im p ops t mem r in
        (s.ft0 ≡ after im p 1 (suc t) r.ft0)
        × (s.ft1 ≡ after im p 1 (suc t) r.ft1)
        × (s.acc
            ≡ for_each
                (suc t)
                (λ j acc.
                  ops.fmadd
                    (mem ((after im p 1 j r.ft0).pointer % p))
                    (mem ((after im p 1 j r.ft1).pointer % p))
                    acc)
                r.acc)
  unfolding frep_row accumulate after for_each fetch
  frep_row-after zero mem r = (refl, refl, refl)
  frep_row-after (suc t) mem r =
      let s = frep_row-after t mem r in
      (
        ap (step im p 1) s.0,
        ap (step im p 1) s.1,
        ap₂
              (λ (g h : Gen).
                ops.fmadd (mem (g.pointer % p)) (mem (h.pointer % p))
                  (frep_row im p ops t mem r).acc)
              s.0 s.1
            ∙ ap
                (ops.fmadd (mem ((after im p 1 (suc t) r.ft0).pointer % p))
                  (mem ((after im p 1 (suc t) r.ft1).pointer % p)))
                s.2,
      )

  module _ (trans : Bool) (m n : ℕ) (alpha : F) (a lda x incx y : ℕ) (rn : (1 ≤ n) × (n < 2 ^ 32))
      (g0 g1 : Gen) (old : Memory F)
      (at0 : (i j : ℕ)
        → i < m
        → j < n
        → (after im p 1 (i * n + j) g0).pointer % p ≡ element a (index trans lda i j) % p)
      (at1 : (i j : ℕ)
        → i < m
        → j < n
        → (after im p 1 (i * n + j) g1).pointer % p ≡ element x (j * incx) % p) where
    abbrev wanted : ℕ → F
    wanted i = ops.fmul (dot p ops trans n a lda x incx i old) alpha

    abbrev start : Rows F
    start = record { ft0 = g0; ft1 = g1; mem = old }

    abbrev rows : ℕ → Rows F
    rows i = for_each i (gemv_row im p ops n alpha y) start

    rows-streams :
        (i : ℕ)
        → ((rows i).ft0 ≡ after im p 1 (i * n) g0) × ((rows i).ft1 ≡ after im p 1 (i * n) g1)
    unfolding for_each gemv_row after
    rows-streams zero =
        (ap (λ (w : ℕ). after im p 1 w g0) none, ap (λ (w : ℕ). after im p 1 w g1) none)
      where
        none : 0 ≡ 0 * n
        none = omega arith
    rows-streams (suc i) = (
      (frep_row-after (sub32 n 1) _ _).0
          ∙ ap (after im p 1 (suc (sub32 n 1))) (rows-streams i).0
          ∙ whole g0,
      (frep_row-after (sub32 n 1) _ _).1
          ∙ ap (after im p 1 (suc (sub32 n 1))) (rows-streams i).1
          ∙ whole g1,
    )
      where
        count : i * n + suc (sub32 n 1) ≡ suc i * n
        count = omega (arith, rn)

        whole :
            (g : Gen)
            → after im p 1 (suc (sub32 n 1)) (after im p 1 (i * n) g) ≡ after im p 1 (suc i * n) g
        whole g =
            after-after im p 1 (i * n) (suc (sub32 n 1)) g ∙ ap (λ (w : ℕ). after im p 1 w g) count

    -- Only the elements of y change.
    rows-keeps :
        (i address : ℕ)
        → ((h : ℕ) → h < i → ¬ (address ≡ element y h % p))
        → (rows i).mem address ≡ old address
    unfolding for_each gemv_row store
    rows-keeps zero address away = refl
    rows-keeps (suc i) address away =
        replace-other _ address _ (rows i).mem (away i (omega arith))
        ∙ rows-keeps i address (λ h lh. away h (omega (arith, lh)))

    module _ (s : Separate p trans m n a lda x incx y) where
      row-acc :
          (i : ℕ)
          → i < m
          → (frep_row im p ops
              (sub32 n 1)
              (rows i).mem
              (record { ft0 = (rows i).ft0; ft1 = (rows i).ft1; acc = ops.zero })).acc
            ≡ dot p ops trans n a lda x incx i old
      unfolding dot
      row-acc i li =
          (frep_row-after (sub32 n 1) (rows i).mem _).2
          ∙ ap (λ (w : ℕ). for_each w read_product ops.zero) count
          ∙ for_each-cong n _ _ ops.zero ops.zero
              (λ j acc lj.
                ap₂ (λ (u v : F). ops.fmadd u v acc)
                  (ap (rows i).mem (here _ g0 j (rows-streams i).0 ∙ at0 i j li lj)
                    ∙ rows-keeps i _ (λ h lh. s.from_a h i j (omega (arith, lh, li)) li lj))
                  (ap (rows i).mem (here _ g1 j (rows-streams i).1 ∙ at1 i j li lj)
                    ∙ rows-keeps i _ (λ h lh. s.from_x h j (omega (arith, lh, li)) lj)))
              refl
        where
          count : suc (sub32 n 1) ≡ n
          count = omega (arith, rn)

          read_product : ℕ → F → F
          read_product j acc =
              ops.fmadd ((rows i).mem ((after im p 1 j (rows i).ft0).pointer % p))
                ((rows i).mem ((after im p 1 j (rows i).ft1).pointer % p)) acc

          here :
              (g h : Gen) (j : ℕ)
              → g ≡ after im p 1 (i * n) h
              → (after im p 1 j g).pointer % p ≡ (after im p 1 (i * n + j) h).pointer % p
          here g h j e =
              ap (λ (w : Gen). (after im p 1 j w).pointer % p) e
              ∙ ap (λ (w : Gen). w.pointer % p) (after-after im p 1 (i * n) j h)

      rows-value : (k i : ℕ) → k ≤ m → i < k → (rows k).mem (element y i % p) ≡ wanted i
      unfolding for_each gemv_row store
      rows-value zero i lk li = absurd (omega (arith, li))
      rows-value (suc k) i lk li = elim (ℕ_discrete i k) [
        | yes e ↦
            subst (λ w. (rows (suc k)).mem (element y w % p) ≡ wanted w) (sym e)
              (replace-same _ _ (rows k).mem
                ∙ ap (λ (v : F). ops.fmul v alpha) (row-acc k (omega (arith, lk))))
        | no d ↦
            replace-other _ _ _ (rows k).mem
              (λ q. d (s.distinct i k (omega (arith, lk, li)) (omega (arith, lk)) q))
            ∙ rows-value k i (omega (arith, lk)) (omega (arith, li, d))
      ]

module _ {ℓ} {F : Type ℓ} (im p q : ℕ) (e : p * q ≡ 2 ^ 32) (pos : 0 < im) (ops : Scalars F)
    (trans : Bool) (m n : ℕ) (alpha : F) (a lda x incx y : ℕ) (regs : Regs) (mem : Memory F)
    (rm : (1 ≤ m) × (m ≤ im) × (m < 2 ^ 32)) (rn : (1 ≤ n) × (n ≤ im) × (n < 2 ^ 32))
    (wa : lda * 8 < 2 ^ 32) (wx : incx * 8 < 2 ^ 32) where
  abbrev ran : Memory F
  ran = single_core_gemv im p ops trans m n alpha a lda x incx y regs mem

  abbrev programmed : Regs
  programmed =
      if trans then loop_2d 0 n m (mul32 lda 8) 8 regs else loop_2d 0 n m 8 (mul32 lda 8) regs

  abbrev stream_a : Gen
  stream_a = launch im p (read 0 1 a (loop_2d 1 n m (mul32 8 incx) 0 programmed)) 0 a

  abbrev stream_x : Gen
  stream_x = launch im p (read 1 1 x (read 0 1 a (loop_2d 1 n m (mul32 8 incx) 0 programmed))) 1 x

  a-stream :
      (i j : ℕ)
      → i < m
      → j < n
      → (after im p 1 (i * n + j) stream_a).pointer % p ≡ element a (index trans lda i j) % p
  a-stream i j li lj =
      ap (λ (g : Gen). (after im p 1 (i * n + j) g).pointer % p)
        (launch-ft0 im p m n (mul32 8 incx) 0 programmed a)
      ∙ a-at im p q m n e pos rm rn a lda wa regs trans i j li lj

  x-stream :
      (i j : ℕ)
      → i < m
      → j < n
      → (after im p 1 (i * n + j) stream_x).pointer % p ≡ element x (j * incx) % p
  x-stream i j li lj =
      ap (λ (g : Gen). (after im p 1 (i * n + j) g).pointer % p)
        (launch-ft1 im p m n (mul32 8 incx) 0 programmed a x)
      ∙ x-at im p q m n e pos rm rn x incx i j programmed wx li lj

  pub core-keeps :
      (address : ℕ) → ((h : ℕ) → h < m → ¬ (address ≡ element y h % p)) → ran address ≡ mem address
  unfolding single_core_gemv
  core-keeps address away =
      rows-keeps im p ops trans m n alpha a lda x incx y (rn.0, rn.2) stream_a stream_x mem a-stream
        x-stream m address away

  pub core-value :
      (i : ℕ)
      → i < m
      → Separate p trans m n a lda x incx y
      → ran (element y i % p) ≡ ops.fmul (dot p ops trans n a lda x incx i mem) alpha
  unfolding single_core_gemv
  core-value i li s =
      rows-value im p ops trans m n alpha a lda x incx y (rn.0, rn.2) stream_a stream_x mem a-stream
        x-stream s m i (omega arith) li
