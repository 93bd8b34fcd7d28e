-- ===== src/Kernels/Gemm/Buffers.antt =====
-- sw/kernels/blas/gemm/src/gemm.h, allocate_buffers: where the two sets of tile buffers lie in the TCDM. The
-- numbers and sizes of the banks that the configuration header defines are arguments.
pub mod Rows
pub mod Banks
use snitch_cluster_chips_it.Prelude.{ℕ, ◌/◌, Bool, if◌then◌else◌, leb, ◌==◌, add32, mul32}
use snitch_cluster_chips_it.Team.{Config}
use snitch_cluster_chips_it.Alloc.{align_up, align_up_hyperbank}

-- The addresses of a set of buffers
pub record Buffers : Type 0 where
  pub a : ℕ
  pub b : ℕ
  pub c : ℕ

unfoldable pub calculate_partitioned_banks_lines : Config → (banks_per_buffer size : ℕ) → ℕ
calculate_partitioned_banks_lines cfg banks_per_buffer size =
    size / mul32 banks_per_buffer cfg.tcdm_bank_width

module _ (cfg : Config) (hyperbank_num hyperbank_size bank_num : ℕ) (next size_a size_b size_c : ℕ)
    (partition_banks : Bool) (banks_per_buffer : ℕ) where
  -- The bytes of a line that belong to one buffer
  unfoldable pub buffer_width : ℕ
  buffer_width = mul32 cfg.tcdm_bank_width banks_per_buffer

  unfoldable pub first_buffers : Buffers
  unfolding buffer_width align_up align_up_hyperbank
  first_buffers =
      let a0 = align_up_hyperbank cfg next in
      let b0 = if partition_banks then add32 a0 buffer_width else align_up (add32 a0 size_a) 8 0 in
      let c0 = if partition_banks then add32 b0 buffer_width else align_up (add32 b0 size_b) 8 0 in
      record { a = a0; b = b0; c = c0 }

  -- A buffer of the second set, in the same banks as that of the first
  unfoldable pub behind_lines : (first size : ℕ) → ℕ
  unfolding calculate_partitioned_banks_lines
  behind_lines first size =
      add32 first (
        mul32 cfg.tcdm_hyperbank_width
          (calculate_partitioned_banks_lines cfg banks_per_buffer size))

  unfoldable pub second_buffers : Buffers
  unfolding first_buffers buffer_width behind_lines align_up
  second_buffers =
      let s = first_buffers in
      let a1 =
        if partition_banks
        then (if hyperbank_num == 2
            then add32 s.a hyperbank_size
            else if leb (mul32 banks_per_buffer 6) bank_num
            then add32 s.c buffer_width
            else behind_lines s.a size_a)
        else align_up (add32 s.c size_c) 8 0 in
      let b1 =
        if partition_banks
        then (if hyperbank_num == 2
            then add32 s.b hyperbank_size
            else if leb (mul32 banks_per_buffer 6) bank_num
            then add32 a1 buffer_width
            else behind_lines s.b size_b)
        else align_up (add32 a1 size_a) 8 0 in
      let c1 =
        if partition_banks
        then (if hyperbank_num == 2
            then add32 s.c hyperbank_size
            else if leb (mul32 banks_per_buffer 6) bank_num
            then add32 b1 buffer_width
            else behind_lines s.c size_c)
        else align_up (add32 b1 size_b) 8 0 in
      record { a = a1; b = b1; c = c1 }
