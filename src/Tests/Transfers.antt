-- ===== src/Tests/Transfers.antt =====
-- The DMA transfers on a memory that copies byte by byte.
use snitch_cluster_chips_it.Prelude.{
  ℕ, ◌+◌, ◌-◌, ◌*◌, ◌≤◌, ◌<◌, ◌≡◌, ◌⊎◌, ◌&&◌, inl, inr, refl, ltb, leb, if◌then◌else◌, [], arith,
}
use snitch_cluster_chips_it.Dma.{Frontend}
use snitch_cluster_chips_it.Dma.Engine.{Mem, Apart, Engine, wait_all}
use snitch_cluster_chips_it.Dma.Memset.{memset, memset_lem}
use snitch_cluster_chips_it.Dma.Tiles.{load_2d_tile_ld, store_2d_tile_ld}
use snitch_cluster_chips_it.Dma.TileLaws.{IsTile, element, load_2d_tile_lem, store_2d_tile_lem}

abbrev pub copy_bytes : (dst src size : ℕ) → Mem → Mem
copy_bytes dst src size m a = if leb dst a && ltb a (dst + size) then m (src + (a - dst)) else m a

pub copy_bytes-copied :
    (dst src size : ℕ) (m : Mem) (i : ℕ)
    → (dst ≡ src) ⊎ Apart dst size src size
    → i < size
    → copy_bytes dst src size m (dst + i) ≡ m (src + i)
copy_bytes-copied dst src size m i h lt = rw (back dst i) (ground arith)
  where
    back : (dst i : ℕ) → dst + i - dst ≡ i
    back dst i = omega arith

pub copy_bytes-kept :
    (dst src size : ℕ) (m : Mem) (a : ℕ)
    → (a < dst) ⊎ (dst + size ≤ a)
    → copy_bytes dst src size m a ≡ m a
copy_bytes-kept dst src size m a h = ground arith

abbrev pub byte_engine : Engine
byte_engine = record { copy = copy_bytes; copied = copy_bytes-copied; kept = copy_bytes-kept }

abbrev pub idle : Frontend
idle = record {
  dst = 0;
  src = 0;
  dst_stride = 0;
  src_stride = 0;
  repeat = 0;
  user = 0;
  pending = [];
}

-- Byte `a` of the memory is `a`.
abbrev pub memory : Mem
memory = λ a. a

memset_example :
    let (f', m') = memset byte_engine 0x1000 7 128 idle memory in
    (f'.pending ≡ [])
    × (m' 0x1075 ≡ (if leb 0x1000 0x1075 && ltb 0x1075 (0x1000 + 128) then 7 else memory 0x1075))
memset_example = memset_lem byte_engine 0x1000 7 128 idle memory 0x1075 (omega arith) refl

-- The tile at (1, 2) of an array with rows of 12 elements of 8 bytes, in tiles of 3 rows of 4.
inner-IsTile : IsTile 0x80000000 1 2 3 4 12 8
inner-IsTile = record {
  bytes = omega arith;
  column = omega arith;
  below = omega arith;
  nonempty = omega arith;
}

load_example :
    let (f', m') =
      wait_all byte_engine (load_2d_tile_ld 0x1000 0x80000000 1 2 3 4 12 8 40 idle) memory in
    m' (0x1000 + 2 * 40 + (3 * 8 + 5)) ≡ memory (element 0x80000000 1 2 3 4 12 8 2 3 5)
load_example =
    load_2d_tile_lem inner-IsTile byte_engine idle memory refl 0x1000 40 (omega arith) (omega arith)
      2 3 5 (inl (omega arith)) (omega arith) (omega arith) (omega arith)

store_example :
    let (f', m') =
      wait_all byte_engine (store_2d_tile_ld 0x80000000 0x1000 1 2 3 4 12 8 40 idle) memory in
    m' (element 0x80000000 1 2 3 4 12 8 2 3 5) ≡ memory (0x1000 + 2 * 40 + (3 * 8 + 5))
store_example =
    store_2d_tile_lem inner-IsTile byte_engine idle memory refl 0x1000 40 (omega arith)
      (omega arith) 2 3 5 (inr (omega arith)) (omega arith) (omega arith) (omega arith)
