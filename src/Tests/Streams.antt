-- ===== src/Tests/Streams.antt =====
-- The streams of the SSRs at a small nest: 16-bit indices and 17-bit pointers.
use snitch_cluster_chips_it.Prelude.{ℕ, ◌+◌, ◌≡◌, true, false, refl, arith}
use snitch_cluster_chips_it.Ssr.{Regs, loop_4d}
use snitch_cluster_chips_it.Ssr.AddrGen.{Gen, launch, after}
use snitch_cluster_chips_it.Ssr.Stream.{Cong}
use snitch_cluster_chips_it.Ssr.Registers.{Fits}
use snitch_cluster_chips_it.Ssr.Program.{iterations, offset}
use snitch_cluster_chips_it.Ssr.Level.{nest4}
use snitch_cluster_chips_it.Ssr.DeepLoops.{loop_4d-nest}

abbrev im : ℕ
im = 65536

abbrev p : ℕ
p = 131072

abbrev regs : Regs
regs = λ dm reg. 0

-- Four elements of 8 bytes, and three rows 64 bytes apart.
columns-Fits : Fits im 4 8
columns-Fits = (omega arith, omega arith, omega arith, omega arith, omega arith)

rows-Fits : Fits im 3 64
rows-Fits = (omega arith, omega arith, omega arith, omega arith, omega arith)

loop_4d_example :
    let g : Gen = launch im p (loop_4d 1 4 3 4 3 8 64 8 64 regs) 1 0x100 in
    ((after im p 3 100 g).done ≡ false)
    × (Cong p (after im p 3 100 g).pointer (0x100 + offset (nest4 4 3 4 3 8 64 8 64) 100))
    × ((after im p 3 (iterations (nest4 4 3 4 3 8 64 8 64)) g).done ≡ true)
loop_4d_example =
    loop_4d-nest im p 32768 refl (omega arith) 1 0x100 regs 4 3 4 3 8 64 8 64 100 columns-Fits
      rows-Fits columns-Fits rows-Fits (omega arith)
