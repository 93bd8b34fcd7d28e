-- ===== src/Tests/Gemm.antt =====
-- The product of small matrices, on one cluster with eight compute cores.
use snitch_cluster_chips_it.Prelude.{ℕ, ◌+◌, ◌*◌, ◌<◌, ◌≡◌, refl, arith, true, false, List, [], ◌∷◌}
use snitch_cluster_chips_it.Team.{cluster_compute_core_num}
use snitch_cluster_chips_it.Kernels.Axpy.{element, Memory}
use snitch_cluster_chips_it.Kernels.Axpy.Cores.{Among, AllBelow}
use snitch_cluster_chips_it.Kernels.Gemm.{
  Number, Kernel, Args, gemm_fp64_naive, a_index, b_index, c_index,
}
use snitch_cluster_chips_it.Kernels.Gemm.Naive.{gemm_fp64_naive-Computes}
use snitch_cluster_chips_it.Kernels.Gemm.Cores.{Once, Plain, run_gemm, entry_of, result}
use snitch_cluster_chips_it.Kernels.Gemm.Product.{run_gemm_lem}
use snitch_cluster_chips_it.Kernels.Gemm.RowMajor.{RowMajor, at, sum, gemm_fp64_naive_lem}
use snitch_cluster_chips_it.Tests.System.{cfg, cfg-IsValid}

abbrev naturals : Number ℕ
naturals = record { zero = 0; scale_by = λ v k. v * k; mac = λ c a b. c + a * b }

abbrev naive : Kernel ℕ
naive = λ l m n k a b beta c. gemm_fp64_naive naturals cfg l m k a b beta c n

-- Ten rows by four columns, the inner dimension three, rows packed.
abbrev ten_by_four : Args
ten_by_four = record {
  prec = 8;
  layout = record {
    setup_ssr = true;
    partition_banks = false;
    transa = false;
    transb = false;
    lda = 3;
    ldb = 4;
    ldc = 4;
  };
  m = 10;
  n = 4;
  k = 3;
  a = 0x1000;
  b = 0x2000;
  beta = 1;
  c = 0x3000;
}

ten_by_four-Plain : Plain cfg ten_by_four
unfolding element a_index b_index c_index
ten_by_four-Plain = record {
  double = refl;
  upright = refl;
  small = omega arith;
  apart = record {
    from_a = λ m n h k lm ln lh lk e. omega (arith, lm, ln, lh, lk, e);
    from_b = λ m n h k lm ln lh lk e. omega (arith, lm, ln, lh, lk, e);
    distinct = λ m n g h lm ln lg lh e. omega (arith, lm, ln, lg, lh, e);
  };
}

abbrev order : List ℕ
order = 3 ∷ 0 ∷ 7 ∷ 1 ∷ 2 ∷ 6 ∷ 5 ∷ 4 ∷ []

order-AllBelow : AllBelow (cluster_compute_core_num cfg) order
unfolding cluster_compute_core_num
order-AllBelow = ground arith

order-Among : (c : ℕ) → c < cluster_compute_core_num cfg → Among c order
unfolding cluster_compute_core_num
order-Among c lt = ground arith

order-Once : Once order
order-Once = ground arith

abbrev ramp : Memory ℕ
ramp = λ address. address

gemm_example :
    run_gemm cfg 1 naive ten_by_four order ramp (entry_of cfg ten_by_four 9 2)
    ≡ result cfg ten_by_four naturals 9 2 ramp
gemm_example =
    run_gemm_lem cfg 1 naive ten_by_four naturals cfg-IsValid (omega arith)
      (gemm_fp64_naive-Computes naturals cfg) ten_by_four-Plain order ramp 9 2 order-AllBelow
      order-Once order-Among (omega arith) (omega arith)

ten_by_four-RowMajor : RowMajor ten_by_four
ten_by_four-RowMajor = record {
  unbanked = refl;
  upright = refl;
  a_row = omega arith;
  b_row = omega arith;
  c_row = omega arith;
  a_ends = omega arith;
  b_ends = omega arith;
  c_ends = omega arith;
}

naive_example :
    run_gemm cfg 1 naive ten_by_four order ramp (at 0x3000 4 9 2)
    ≡ sum ten_by_four naturals ramp 9 2
naive_example =
    gemm_fp64_naive_lem cfg ten_by_four ten_by_four-RowMajor naturals ramp 9 2 1 order cfg-IsValid
      (omega arith) ten_by_four-Plain order-AllBelow order-Once order-Among (omega arith)
      (omega arith)
