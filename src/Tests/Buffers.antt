-- ===== src/Tests/Buffers.antt =====
-- The tile buffers of gemm on one cluster with eight compute cores and one hyperbank of 64 banks.
use snitch_cluster_chips_it.Prelude.{◌+◌, ◌*◌, ◌≤◌, ◌≡◌, true, false, refl, arith}
use snitch_cluster_chips_it.Team.{Config}
use snitch_cluster_chips_it.Kernels.Gemm.Buffers.{first_buffers, second_buffers}
use snitch_cluster_chips_it.Kernels.Gemm.Buffers.Rows.{buffers-Apart}
use snitch_cluster_chips_it.Kernels.Gemm.Buffers.Banks.{nth, banks-Apart}
use snitch_cluster_chips_it.Tests.System.{cfg}

abbrev banks : Config
banks = record cfg { tcdm_hyperbank_width = 512 }

rows_example :
    let s = first_buffers banks 1 0x20000 64 0x10000123 1000 1500 700 false 8 in
    let t = second_buffers banks 1 0x20000 64 0x10000123 1000 1500 700 false 8 in
    (0x10000123 ≤ s.a)
    × (s.a + 1000 ≤ s.b)
    × (s.b + 1500 ≤ s.c)
    × (s.c + 700 ≤ t.a)
    × (t.a + 1000 ≤ t.b)
    × (t.b + 1500 ≤ t.c)
    × (t.c + 700 ≤ 0x10000123 + 512 + 2 * (1000 + 1500 + 700) + 40)
rows_example =
    buffers-Apart banks 1 0x20000 64 0x10000123 1000 1500 700 8 (omega arith) (omega arith)
      (omega arith)

banks_example : ¬ (
    nth
        (first_buffers banks 1 0x20000 64 0x10000123 1000 1500 700 true 8)
        (second_buffers banks 1 0x20000 64 0x10000123 1000 1500 700 true 8)
        4
      + 3 * 512
      + 5
    ≡ nth
        (first_buffers banks 1 0x20000 64 0x10000123 1000 1500 700 true 8)
        (second_buffers banks 1 0x20000 64 0x10000123 1000 1500 700 true 8)
        1
      + 3 * 512
      + 63)
banks_example =
    banks-Apart banks 0x20000 64 0x10000123 1000 1500 700 8 (omega arith) (omega arith)
      (omega arith) (omega arith) refl 4 1 3 3 5 63 (omega arith) (omega arith) (omega arith)
      (omega arith) (omega arith)
