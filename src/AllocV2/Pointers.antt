-- ===== src/AllocV2/Pointers.antt =====
-- Pointers to other cores' variables: the translation agrees with what the allocator gives those cores,
-- although the index differences wrap.
use snitch_cluster_chips_it.Prelude.{
  ℕ, ◌+◌, ◌-◌, ◌*◌, ◌%◌, ◌^◌, ◌≤◌, ◌<◌, ◌≡◌, ◌↔◌, arith, mul-suc_le, sub32, ap,
}
use native.Mathlib.Decide.{dec_le}
use snitch_cluster_chips_it.Team.{Config, IsValid, hart, cluster_core_idx, cluster_compute_core_num}
use snitch_cluster_chips_it.Team.Indices.{idx-hart, compute_core_num-lt}
use snitch_cluster_chips_it.Alloc.{Allocator}
use snitch_cluster_chips_it.AllocV2.{
  ok, ecall, start, l1_check_bounds, l1_alloc_compute_core_local, compute_core_local_ptr,
}
use snitch_cluster_chips_it.AllocV2.Bounds.{Fits, start-bounds}

module _ {cfg : Config} (v : IsValid cfg) (c i : ℕ) (hc : c < cfg.cluster_num)
    (hi : i < cluster_compute_core_num cfg) where
  in_cluster : i < cfg.cluster_core_num
  in_cluster = omega (arith, (compute_core_num-lt v c 0 hc (omega (arith, v.cores))).0)

  core_idx : cluster_core_idx cfg (hart cfg c i) ≡ i
  core_idx = (idx-hart v c i hc in_cluster).1

  -- On compute core i of a cluster of a valid configuration, for an alignment that is not 0 and
  -- sums that do not wrap: the allocation of one variable per compute core returns the i-th
  -- variable behind the aligned start exactly when the variables of all compute cores fit, traps
  -- exactly when they do not, and moves the allocator behind all of them.
  pub l1_alloc_compute_core_local_lem :
      (size alignment : ℕ) {a : Allocator}
      → Fits (size * cluster_compute_core_num cfg) alignment a
      → let m = cluster_compute_core_num cfg in
        let p = start alignment a in
        let a' = record a { next = p + size * m } in
        ((l1_alloc_compute_core_local cfg (hart cfg c i) size alignment a ≡ ok (p + size * i) a')
          ↔ (p + size * m ≤ a.end))
        × ((l1_alloc_compute_core_local cfg (hart cfg c i) size alignment a
              ≡ ecall (p + size * i) a')
            ↔ (a.end < p + size * m))
  unfolding l1_alloc_compute_core_local l1_check_bounds
  l1_alloc_compute_core_local_lem size alignment {a} f = rw core_idx (
    (ground (arith, bounds, f.room, inner), ground (arith, bounds, f.room, inner)),
    (ground (arith, bounds, f.room, inner), ground (arith, bounds, f.room, inner)),
  )
    where
      bounds :
          (a.next ≤ start alignment a)
          × (start alignment a < a.next + alignment)
          × (start alignment a % alignment ≡ 0)
      bounds = start-bounds (size * cluster_compute_core_num cfg) alignment f

      inner : i * size + size ≤ cluster_compute_core_num cfg * size
      inner = mul-suc_le i (cluster_compute_core_num cfg) size hi

  -- On compute core i of a cluster of a valid configuration: from the address of its own variable
  -- in a block of one variable per compute core that ends below 4 GiB, the translation gives the
  -- address of the variable of any compute core j, below or above i.
  pub compute_core_local_ptr_lem :
      (first size j : ℕ)
      → j < cluster_compute_core_num cfg
      → first + size * cluster_compute_core_num cfg < 2 ^ 32
      → compute_core_local_ptr cfg (hart cfg c i) (first + size * i) j size ≡ first + size * j
  unfolding compute_core_local_ptr
  compute_core_local_ptr_lem first size j hj room = rw core_idx (elim (dec_le i j) [
    | yes le ↦ omega (
      arith,
      mul-suc_le j (cluster_compute_core_num cfg) size hj,
      ap (λ (t : ℕ). t * size) (forward le),
    )
    | no gt ↦ omega (
      arith,
      mul-suc_le i (cluster_compute_core_num cfg) size hi,
      ap (λ (t : ℕ). t * size) (backward (omega arith)),
      ap (λ (t : ℕ). t * size) (forward' (omega arith)),
    )
  ])
    where
      small : cluster_compute_core_num cfg < 2 ^ 32
      small = omega (arith, compute_core_num-lt v c 0 hc (omega (arith, v.cores)))

      forward : i ≤ j → sub32 j i + i ≡ j
      forward le = omega (arith, small)

      forward' : j ≤ i → (i - j) + j ≡ i
      forward' le = omega arith

      backward : j < i → sub32 j i + (i - j) ≡ 2 ^ 32
      backward lt = omega (arith, small)
