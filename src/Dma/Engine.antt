-- ===== src/Dma/Engine.antt =====
-- What the runtime relies on of the DMA engine, which is hardware: it executes the issued transfers
-- in order, a 2D transfer is a sequence of 1D transfers, and a 1D transfer copies bytes between
-- ranges that are the same or do not overlap.
use snitch_cluster_chips_it.Prelude.{
  ℕ, zero, suc, ◌+◌, ◌*◌, ◌/◌, ◌%◌, ◌^◌, ◌≤◌, ◌<◌, ◌≡◌, ◌⊎◌, List, [], ◌∷◌, refl, arith,
}
use snitch_cluster_chips_it.Dma.{Transfer, Frontend, start_1d, start_2d}

-- Memory, byte by byte.
abbrev pub Mem : Type 0
Mem = ℕ → ℕ

abbrev pub Apart : (a m b n : ℕ) → Type 0
Apart a m b n = (a + m ≤ b) ⊎ (b + n ≤ a)

pub record Engine : Type 0 where
  pub copy : (dst src size : ℕ) → Mem → Mem
  pub copied :
      (dst src size : ℕ) (m : Mem) (i : ℕ)
      → (dst ≡ src) ⊎ Apart dst size src size
      → i < size
      → copy dst src size m (dst + i) ≡ m (src + i)
  pub kept :
      (dst src size : ℕ) (m : Mem) (a : ℕ)
      → (a < dst) ⊎ (dst + size ≤ a)
      → copy dst src size m a ≡ m a

module _ (e : Engine) where
  open e use {copy}

  -- The first `n` rows of a 2D transfer.
  unfoldable pub rows : (dst src size dst_stride src_stride n : ℕ) → Mem → Mem
  rows dst src size dst_stride src_stride zero m = m
  rows dst src size dst_stride src_stride (suc n) m =
      copy (dst + n * dst_stride) (src + n * src_stride) size
        (rows dst src size dst_stride src_stride n m)

  unfoldable pub run : Transfer → Mem → Mem
  unfolding rows
  run t m = rows t.dst t.src t.size t.dst_stride t.src_stride t.repeat m

  unfoldable pub run_all : List Transfer → Mem → Mem
  unfolding run
  run_all [] m = m
  run_all (t ∷ ts) m = run_all ts (run t m)

  -- `snrt_dma_wait_all`: the engine is idle, so all issued transfers have been executed.
  unfoldable pub wait_all : Frontend → Mem → Frontend × Mem
  unfolding run_all
  wait_all f m = (record f { pending = [] }, run_all f.pending m)

-- An address survives being split into halves.
halves : (a : ℕ) → a / 2 ^ 32 * 2 ^ 32 + a % 2 ^ 32 ≡ a
halves a = omega arith

module _ (e : Engine) (dst src size : ℕ) (f : Frontend) (m : Mem) (idle : f.pending ≡ []) where
  -- A 2D transfer on an idle front-end, once waited for, has copied its rows.
  pub wait_all-start_2d :
      (dst_stride src_stride repeat : ℕ)
      → let (f', m') = wait_all e (start_2d dst src size dst_stride src_stride repeat 0 f) m in
        (f'.pending ≡ []) × (m' ≡ rows e dst src size dst_stride src_stride repeat m)
  unfolding wait_all start_2d
  wait_all-start_2d ds ss n = rw (idle, halves dst, halves src) (refl, refl)

  -- A 1D transfer copies its bytes.
  pub wait_all-start_1d :
      let (f', m') = wait_all e (start_1d dst src size 0 f) m in
      (f'.pending ≡ []) × (m' ≡ rows e dst src size 0 0 1 m)
  unfolding wait_all start_1d
  wait_all-start_1d = rw (idle, halves dst, halves src) (refl, refl)
