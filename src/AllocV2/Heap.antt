-- ===== src/AllocV2/Heap.antt =====
-- Where the heap ends and the stacks begin: `snrt_l1_init` against the stack pointers that
-- sw/runtime/src/start.S computes.
use snitch_cluster_chips_it.Prelude.{ℕ, ◌+◌, ◌-◌, ◌*◌, ◌^◌, ◌≤◌, ◌<◌, ◌≡◌, ◌↔◌, arith, mul32, sub32}
use snitch_cluster_chips_it.Team.{Config, IsValid, log2_stack_size, hart}
use snitch_cluster_chips_it.Team.Indices.{idx-hart}
use snitch_cluster_chips_it.AllocV2.{cls_base_addr, l1_init}

-- The initial stack pointer of core `i` of a cluster whose local storage begins at `cls_base`: below
-- a word for the return value, one stack and one 8-byte offset for each core before it.
unfoldable pub stack_pointer : (cls_base i : ℕ) → ℕ
stack_pointer cls_base i =
    sub32 (sub32 (sub32 cls_base 8) (mul32 i (2 ^ log2_stack_size))) (mul32 i 8)

-- The lowest address of the stack of core `i`.
abbrev pub stack_bottom : (cls_base i : ℕ) → ℕ
stack_bottom cls_base i = stack_pointer cls_base i - 2 ^ log2_stack_size

-- The stacks and the safety margin fit below the cluster-local storage.
abbrev pub HasRoom : Config → ℕ → Type 0
HasRoom cfg cls_base = (1032 * cfg.cluster_core_num + 128 ≤ cls_base) × (cls_base < 2 ^ 32)

-- When the stacks and the margin fit below the cluster-local storage, the stack of core i + 1
-- begins 8 bytes below the lowest address of the stack of core i, which begins at least 8 bytes
-- below the cluster-local storage.
stacks-apart :
    (cfg : Config) (cls_base i : ℕ)
    → HasRoom cfg cls_base
    → i + 1 < cfg.cluster_core_num
    → (stack_pointer cls_base (i + 1) + 8 ≡ stack_bottom cls_base i)
      × (stack_pointer cls_base i + 8 ≤ cls_base)
unfolding stack_pointer
stacks-apart cfg cls_base i r h = omega (arith, r)

-- When the stacks and the margin fit below the cluster-local storage and the cluster has a core,
-- the L1 heap ends at or below the lowest stack exactly when the cluster has at most 16 cores.
pub heap-below_stacks :
    (cfg : Config) (tcdm cls_base : ℕ)
    → HasRoom cfg cls_base
    → 1 ≤ cfg.cluster_core_num
    → ((l1_init cfg tcdm cls_base).end ≤ stack_bottom cls_base (cfg.cluster_core_num - 1))
      ↔ (cfg.cluster_core_num ≤ 16)
unfolding l1_init stack_pointer
heap-below_stacks cfg tcdm cls_base r h = (omega (arith, r), omega (arith, r))

-- In a valid configuration, when the cluster's TCDM ends below 4 GiB and holds both sections, the
-- base of the cluster-local storage that any core of cluster c computes, plus the sizes of its two
-- sections, is the end of the TCDM of cluster c.
pub cls_base_addr_lem :
    {cfg : Config} (v : IsValid cfg) (c i cdata_size cbss_size : ℕ)
    → c < cfg.cluster_num
    → i < cfg.cluster_core_num
    → cfg.tcdm_start_addr + c * cfg.cluster_offset + cfg.tcdm_size < 2 ^ 32
    → cdata_size + cbss_size ≤ cfg.tcdm_size
    → cls_base_addr cfg (hart cfg c i) cdata_size cbss_size + cdata_size + cbss_size
      ≡ cfg.tcdm_start_addr + c * cfg.cluster_offset + cfg.tcdm_size
unfolding cls_base_addr
cls_base_addr_lem {cfg} v c i cd cb hc hi room fits = rw (idx-hart v c i hc hi).0 (omega arith)
