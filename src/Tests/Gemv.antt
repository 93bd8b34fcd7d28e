-- ===== src/Tests/Gemv.antt =====
-- The product of a ten by four matrix with a vector, on one cluster with eight compute cores.
use snitch_cluster_chips_it.Prelude.{ℕ, ◌+◌, ◌*◌}
use snitch_cluster_chips_it.Kernels.Axpy.{Memory}
use snitch_cluster_chips_it.Kernels.Gemv.{Scalars}

abbrev naturals : Scalars ℕ
naturals = record { zero = 0; fmadd = λ a b c. a * b + c; fmul = λ a b. a * b }

abbrev ramp : Memory ℕ
ramp = λ address. address
