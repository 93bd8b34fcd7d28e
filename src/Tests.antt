-- ===== src/Tests.antt =====
-- The theorems at concrete inputs.
mod System
mod Memory
mod Streams
mod Transfers
mod Threads
mod Sums
mod Movers
mod Clusters
mod Blas
mod Gemm
mod Gemv
mod Jobs
mod Regions
mod Start
mod Buffers
