-- ===== src/Kernels.antt =====
-- sw/kernels: the numerical kernels that run on the cluster.
pub mod Axpy
pub mod Gemm
pub mod Gemv
