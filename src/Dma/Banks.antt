-- ===== src/Dma/Banks.antt =====
-- The tile functions of sw/runtime/src/dma.h that reshape a tile into a subset of the TCDM banks. The
-- source computes the number of rows by `ceil` on a `double`: the quotient of two words rounds to the
-- next whole number exactly, since a `double` has more digits than both together need.
use snitch_cluster_chips_it.Prelude.{ℕ, ◌+◌, ◌-◌, ◌/◌, mul32}
use snitch_cluster_chips_it.Team.{Config}
use snitch_cluster_chips_it.Dma.{Frontend}
use snitch_cluster_chips_it.Dma.Tiles.{load_2d_tile_ld, store_2d_tile_ld}

-- `ceil(a / (double) b)`
unfoldable pub ceil_div : (a b : ℕ) → ℕ
ceil_div a b = (a + b - 1) / b

unfoldable pub tile_x0_size_in_banks : Config → (num_banks prec : ℕ) → ℕ
tile_x0_size_in_banks cfg num_banks prec = mul32 num_banks cfg.tcdm_bank_width / prec

unfoldable pub load_2d_tile_in_banks :
    Config
    → (dst src tile_x1_idx tile_x0_idx tile_x1_size tile_x0_size full_x0_size prec num_banks : ℕ)
    → Frontend
    → Frontend
unfolding ceil_div tile_x0_size_in_banks
load_2d_tile_in_banks cfg dst src x1_idx x0_idx x1_size x0_size full_x0_size prec num_banks =
    let x0_in_banks = tile_x0_size_in_banks cfg num_banks prec in
    let x1_in_banks = ceil_div (mul32 x1_size x0_size) x0_in_banks in
    load_2d_tile_ld dst src x1_idx x0_idx x1_in_banks x0_in_banks full_x0_size prec
      cfg.tcdm_hyperbank_width

unfoldable pub store_2d_tile_from_banks :
    Config
    → (dst src tile_x1_idx tile_x0_idx tile_x1_size tile_x0_size full_x0_size prec num_banks : ℕ)
    → Frontend
    → Frontend
unfolding ceil_div tile_x0_size_in_banks
store_2d_tile_from_banks cfg dst src x1_idx x0_idx x1_size x0_size full_x0_size prec num_banks =
    let x0_in_banks = tile_x0_size_in_banks cfg num_banks prec in
    let x1_in_banks = ceil_div (mul32 x1_size x0_size) x0_in_banks in
    store_2d_tile_ld dst src x1_idx x0_idx x1_in_banks x0_in_banks full_x0_size prec
      cfg.tcdm_hyperbank_width
