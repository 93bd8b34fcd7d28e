-- ===== src/Dma/TileLaws.antt =====
-- Tiles of a two-dimensional array: which bytes the tile functions move.
use snitch_cluster_chips_it.Prelude.{
  ℕ, ◌+◌, ◌*◌, ◌^◌, ◌≤◌, ◌<◌, ◌≡◌, sym, ap, ◌∙◌, arith, mul32, add32, add64, mul-suc_le, mul_mono,
  [],
}
use snitch_cluster_chips_it.Dma.{Frontend}
use snitch_cluster_chips_it.Dma.Engine.{Mem, Apart, Engine, rows, wait_all, wait_all-start_2d}
use snitch_cluster_chips_it.Dma.Tiles.{tile_offset, load_2d_tile_ld, store_2d_tile_ld}
use snitch_cluster_chips_it.Dma.Copy2d.{rows-copied}

le-mul_pos : (a f : ℕ) → 0 < f → a ≤ a * f
le-mul_pos a f h = grind arith

-- A tile of `x1_size` rows of `x0_size` elements, at tile coordinates `x1_idx` and `x0_idx` of an
-- array with rows of `full` elements of `prec` bytes, at an address that keeps the array below 4 GiB.
pub record IsTile (array x1_idx x0_idx x1_size x0_size full prec : ℕ) : Type 0 where
  pub bytes : 0 < prec
  pub column : x0_idx * x0_size + x0_size ≤ full
  pub below : array + (x1_idx * x1_size + x1_size) * full * prec < 2 ^ 32
  pub nonempty : 0 < x0_size

-- The address of byte `b` of element `(r, c)` of the tile, in the array.
abbrev pub element : (array x1_idx x0_idx x1_size x0_size full prec r c b : ℕ) → ℕ
element array x1_idx x0_idx x1_size x0_size full prec r c b =
    array + ((x1_idx * x1_size + r) * full + (x0_idx * x0_size + c)) * prec + b

module _ {array x1_idx x0_idx x1_size x0_size full prec : ℕ}
    (t : IsTile array x1_idx x0_idx x1_size x0_size full prec) where
  -- The products of the code are those of the array's layout.
  pub record InWord : Type 0 where
    pub rows_in : (x1_idx * x1_size + x1_size) * full < 2 ^ 32
    pub first : x1_idx * x1_size < 2 ^ 32
    pub line : full ≤ x1_size * full
    pub start :
        (x1_idx * x1_size * full + x0_idx * x0_size) * prec + x0_size * prec
        ≤ (x1_idx * x1_size + x1_size) * full * prec
    pub width : x0_size * prec ≤ full * prec
    pub pitch : full * prec ≤ (x1_idx * x1_size + x1_size) * full * prec

  pub in_word : 0 < x1_size → InWord
  in_word h = record {
    rows_in = omega (arith, t.below, le-mul_pos ((x1_idx * x1_size + x1_size) * full) prec t.bytes);
    first = omega (
      arith,
      t.below,
      le-mul_pos ((x1_idx * x1_size + x1_size) * full) prec t.bytes,
      le-mul_pos (x1_idx * x1_size + x1_size) full (omega (arith, t.column, t.nonempty)),
    );
    line = line;
    start = omega (
      arith,
      mul_mono (x1_idx * x1_size * full + x0_idx * x0_size + x0_size)
          ((x1_idx * x1_size + x1_size) * full) prec (omega (arith, line, t.column)),
    );
    width = mul_mono x0_size full prec (omega (arith, t.column));
    pitch = mul_mono full ((x1_idx * x1_size + x1_size) * full) prec (omega (arith, line));
  }
    where
      line : full ≤ x1_size * full
      line = omega (arith, le-mul_pos full x1_size h)

  -- No product or sum of the code wraps, if the tile has a row.
  pub no_wrap :
      0 < x1_size
      → (mul32 x0_size prec ≡ x0_size * prec)
        × (mul32 full prec ≡ full * prec)
        × (add64 array (tile_offset x1_idx x0_idx x1_size x0_size full prec)
            ≡ array + (x1_idx * x1_size * full + x0_idx * x0_size) * prec)
  unfolding tile_offset
  no_wrap h = (
    omega (arith, t.below, w),
    omega (arith, t.below, w),
    rw (e1, e2, e3) (rw e4 (omega (arith, t.below, w))),
  )
    where
      w : InWord
      w = in_word h

      e1 : add32 0 (mul32 x0_idx x0_size) ≡ x0_idx * x0_size
      e1 = omega (arith, t.column, w)

      e2 : mul32 x1_idx x1_size ≡ x1_idx * x1_size
      e2 = omega (arith, w)

      e3 : mul32 (x1_idx * x1_size) full ≡ x1_idx * x1_size * full
      e3 = omega (arith, w)

      e4 :
          add32 (x0_idx * x0_size) (x1_idx * x1_size * full)
          ≡ x1_idx * x1_size * full + x0_idx * x0_size
      e4 = omega (arith, w, t.column)

  module _ (e : Engine) (f : Frontend) (m : Mem) (idle : f.pending ≡ []) (tile tile_ld : ℕ)
      (rows_fit : x0_size * prec ≤ tile_ld) (some_row : 0 < x1_size) where
    corner : ℕ
    corner = array + (x1_idx * x1_size * full + x0_idx * x0_size) * prec

    place :
        (r c b : ℕ)
        → corner + r * (full * prec) + (c * prec + b)
          ≡ element array x1_idx x0_idx x1_size x0_size full prec r c b
    unfolding corner
    place r c b = omega arith

    -- On an engine that executes the issued transfers and from an idle front-end: after a waited-
    -- for load of a 2D tile with at least one row and one column, of an array below 4 GiB that the
    -- tile lies in, into rows of at least the tile's width that are apart from the array's rows,
    -- byte b of element (r, c) of the tile is at its place in the tile's buffer.
    pub load_2d_tile_lem :
        (r c b : ℕ)
        → Apart tile
            (x1_size * tile_ld)
            (array + (x1_idx * x1_size * full + x0_idx * x0_size) * prec)
            (x1_size * (full * prec))
        → r < x1_size
        → c < x0_size
        → b < prec
        → let (f', m') =
            wait_all e
              (load_2d_tile_ld tile array x1_idx x0_idx x1_size x0_size full prec tile_ld f)
              m in
          m' (tile + r * tile_ld + (c * prec + b))
          ≡ m (element array x1_idx x0_idx x1_size x0_size full prec r c b)
    unfolding load_2d_tile_ld corner
    load_2d_tile_lem r c b apart hr hc hb =
        let w = no_wrap some_row in
        rw (w.0, w.1, w.2)
          (ap (λ g. g (tile + r * tile_ld + (c * prec + b)))
              (wait_all-start_2d e tile corner (x0_size * prec) f m idle tile_ld (full * prec)
                x1_size).1
            ∙ rows-copied e tile corner (x0_size * prec) tile_ld (full * prec) x1_size m
                (record { dst_rows = rows_fit; src_rows = (in_word some_row).width; apart = apart })
                x1_size r (c * prec + b) (omega arith) hr
                (omega (arith, mul-suc_le c x0_size prec hc, hb))
            ∙ ap m (place r c b))

    -- On an engine that executes the issued transfers and from an idle front-end: after a waited-
    -- for store of a 2D tile with at least one row and one column, to an array below 4 GiB that
    -- the tile lies in, from rows of at least the tile's width that are apart from the array's
    -- rows, byte b of element (r, c) of the tile is at its place in the array.
    pub store_2d_tile_lem :
        (r c b : ℕ)
        → Apart
            (array + (x1_idx * x1_size * full + x0_idx * x0_size) * prec)
            (x1_size * (full * prec))
            tile
            (x1_size * tile_ld)
        → r < x1_size
        → c < x0_size
        → b < prec
        → let (f', m') =
            wait_all e
              (store_2d_tile_ld array tile x1_idx x0_idx x1_size x0_size full prec tile_ld f)
              m in
          m' (element array x1_idx x0_idx x1_size x0_size full prec r c b)
          ≡ m (tile + r * tile_ld + (c * prec + b))
    unfolding store_2d_tile_ld corner
    store_2d_tile_lem r c b apart hr hc hb =
        let w = no_wrap some_row in
        rw (w.0, w.1, w.2)
          (ap (λ g. g (element array x1_idx x0_idx x1_size x0_size full prec r c b))
              (wait_all-start_2d e corner tile (x0_size * prec) f m idle (full * prec) tile_ld
                x1_size).1
            ∙ ap (λ a. rows e corner tile (x0_size * prec) (full * prec) tile_ld x1_size m a)
                (sym (place r c b))
            ∙ rows-copied e corner tile (x0_size * prec) (full * prec) tile_ld x1_size m
                (record { dst_rows = (in_word some_row).width; src_rows = rows_fit; apart = apart })
                x1_size r (c * prec + b) (omega arith) hr
                (omega (arith, mul-suc_le c x0_size prec hc, hb)))
