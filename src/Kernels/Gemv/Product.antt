-- ===== src/Kernels/Gemv/Product.antt =====
-- The compute cores of a cluster together compute the whole of y.
