-- ===== src/Tests/Jobs.antt =====
-- `axpy_job` on two tiles of sixteen elements, on one cluster with eight compute cores.
use snitch_cluster_chips_it.Prelude.{ℕ, zero, suc}
use snitch_cluster_chips_it.Kernels.Axpy.Job.{Args, Memories, Turn, before, between, after}

abbrev args : Args ℕ
args = record { n = 32; a = 5; x = 0x80001000; y = 0x80002000; z = 0x80003000; n_tiles = 2 }

abbrev memories : Memories ℕ
memories = record { l1 = λ address. 0; l3 = λ address. address }

abbrev turns : ℕ → Turn
turns zero = after
turns (suc zero) = before
turns (suc (suc i)) = between
