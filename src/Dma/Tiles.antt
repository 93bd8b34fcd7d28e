-- ===== src/Dma/Tiles.antt =====
-- The tile functions of sw/runtime/src/dma.h: the transfers that load and store tiles of one- and
-- two-dimensional arrays. All go to channel 0.
use snitch_cluster_chips_it.Prelude.{ℕ, ◌/◌, add32, mul32, add64}
use snitch_cluster_chips_it.Dma.{Frontend, start_1d, start_1d_mcast, start_2d, start_2d_mcast}

unfoldable pub load_1d_tile : (dst src tile_idx tile_size prec : ℕ) → Frontend → Frontend
load_1d_tile dst src tile_idx tile_size prec =
    let tile_nbytes = mul32 tile_size prec in
    start_1d dst (add64 src (mul32 tile_idx tile_nbytes)) tile_nbytes 0

-- Here the source computes the address in 32 bits.
unfoldable pub load_1d_tile_mcast :
    (dst src tile_idx tile_size prec mcast : ℕ) → Frontend → Frontend
load_1d_tile_mcast dst src tile_idx tile_size prec mcast =
    let tile_nbytes = mul32 tile_size prec in
    start_1d_mcast dst (add32 src (mul32 tile_idx tile_nbytes)) tile_nbytes mcast 0

-- `snrt_dma_1d_to_2d` and `snrt_dma_2d_to_1d`
unfoldable pub to_2d : (dst src size row_size stride : ℕ) → Frontend → Frontend
to_2d dst src size row_size stride = start_2d dst src row_size stride row_size (size / row_size) 0

unfoldable pub to_1d : (dst src size row_size stride : ℕ) → Frontend → Frontend
to_1d dst src size row_size stride = start_2d dst src row_size row_size stride (size / row_size) 0

unfoldable pub store_1d_tile : (dst src tile_idx tile_size prec : ℕ) → Frontend → Frontend
store_1d_tile dst src tile_idx tile_size prec =
    let tile_nbytes = mul32 tile_size prec in
    start_1d (add64 dst (mul32 tile_idx tile_nbytes)) src tile_nbytes 0

-- The byte offset of a tile in its array, summed up as the code sums it up.
unfoldable pub tile_offset :
    (tile_x1_idx tile_x0_idx tile_x1_size tile_x0_size full_x0_size prec : ℕ) → ℕ
tile_offset tile_x1_idx tile_x0_idx tile_x1_size tile_x0_size full_x0_size prec =
    let offset = add32 0 (mul32 tile_x0_idx tile_x0_size) in
    let offset = add32 offset (mul32 (mul32 tile_x1_idx tile_x1_size) full_x0_size) in
    mul32 offset prec

-- The leading dimension of the tile is `tile_ld` bytes.
unfoldable pub load_2d_tile_ld :
    (dst src tile_x1_idx tile_x0_idx tile_x1_size tile_x0_size full_x0_size prec tile_ld : ℕ)
    → Frontend
    → Frontend
unfolding tile_offset
load_2d_tile_ld dst src x1_idx x0_idx x1_size x0_size full_x0_size prec tile_ld =
    start_2d dst (add64 src (tile_offset x1_idx x0_idx x1_size x0_size full_x0_size prec))
      (mul32 x0_size prec) tile_ld (mul32 full_x0_size prec) x1_size 0

unfoldable pub load_2d_tile :
    (dst src tile_x1_idx tile_x0_idx tile_x1_size tile_x0_size full_x0_size prec : ℕ)
    → Frontend
    → Frontend
unfolding load_2d_tile_ld
load_2d_tile dst src x1_idx x0_idx x1_size x0_size full_x0_size prec =
    load_2d_tile_ld dst src x1_idx x0_idx x1_size x0_size full_x0_size prec (mul32 x0_size prec)

unfoldable pub load_2d_tile_mcast_ld :
    (dst src tile_x1_idx tile_x0_idx tile_x1_size tile_x0_size full_x0_size prec tile_ld mask : ℕ)
    → Frontend
    → Frontend
unfolding tile_offset
load_2d_tile_mcast_ld dst src x1_idx x0_idx x1_size x0_size full_x0_size prec tile_ld mask =
    start_2d_mcast dst (add64 src (tile_offset x1_idx x0_idx x1_size x0_size full_x0_size prec))
      (mul32 x0_size prec) tile_ld (mul32 full_x0_size prec) x1_size mask 0

unfoldable pub load_2d_tile_mcast :
    (dst src tile_x1_idx tile_x0_idx tile_x1_size tile_x0_size full_x0_size prec mask : ℕ)
    → Frontend
    → Frontend
unfolding load_2d_tile_mcast_ld
load_2d_tile_mcast dst src x1_idx x0_idx x1_size x0_size full_x0_size prec mask =
    load_2d_tile_mcast_ld dst src x1_idx x0_idx x1_size x0_size full_x0_size prec
      (mul32 x0_size prec) mask

unfoldable pub store_2d_tile_ld :
    (dst src tile_x1_idx tile_x0_idx tile_x1_size tile_x0_size full_x0_size prec tile_ld : ℕ)
    → Frontend
    → Frontend
unfolding tile_offset
store_2d_tile_ld dst src x1_idx x0_idx x1_size x0_size full_x0_size prec tile_ld =
    start_2d (add64 dst (tile_offset x1_idx x0_idx x1_size x0_size full_x0_size prec)) src
      (mul32 x0_size prec) (mul32 full_x0_size prec) tile_ld x1_size 0

unfoldable pub store_2d_tile :
    (dst src tile_x1_idx tile_x0_idx tile_x1_size tile_x0_size full_x0_size prec : ℕ)
    → Frontend
    → Frontend
unfolding store_2d_tile_ld
store_2d_tile dst src x1_idx x0_idx x1_size x0_size full_x0_size prec =
    store_2d_tile_ld dst src x1_idx x0_idx x1_size x0_size full_x0_size prec (mul32 x0_size prec)
