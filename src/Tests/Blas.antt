-- ===== src/Tests/Blas.antt =====
-- The kernels at small arrays, on one cluster with eight compute cores.
use snitch_cluster_chips_it.Prelude.{ℕ, ◌+◌, ◌*◌, ◌<◌, arith, List, [], ◌∷◌}
use snitch_cluster_chips_it.Team.{cluster_compute_core_num}
use snitch_cluster_chips_it.Ssr.{Regs}
use snitch_cluster_chips_it.Kernels.Axpy.{element, Memory, Ahead}
use snitch_cluster_chips_it.Kernels.Axpy.Cores.{Distinct, Among, AllBelow}
use snitch_cluster_chips_it.Tests.System.{cfg}

abbrev pub im : ℕ
im = 65536

abbrev pub p : ℕ
p = 131072

abbrev pub mul_add : ℕ → ℕ → ℕ → ℕ
mul_add a x y = a * x + y

abbrev ramp : Memory ℕ
ramp = λ address. address

abbrev pub regs : Regs
regs = λ dm reg. 0

-- The first operand three stores ahead, the second four.
abbrev pub ahead : Ahead
ahead i = (3, 4)

results-Distinct : Distinct p 16 0x3000
unfolding element
results-Distinct i j li lj e = omega (arith, li, lj, e)

abbrev pub order : List ℕ
order = 3 ∷ 0 ∷ 7 ∷ 1 ∷ 2 ∷ 6 ∷ 5 ∷ 4 ∷ []

pub order-AllBelow : AllBelow (cluster_compute_core_num cfg) order
unfolding cluster_compute_core_num
order-AllBelow = ground arith

pub order-Among : (c : ℕ) → c < cluster_compute_core_num cfg → Among c order
unfolding cluster_compute_core_num
order-Among c lt = ground arith
