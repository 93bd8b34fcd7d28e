-- ===== src/Team.antt =====
-- sw/runtime/src/team.h: where a core stands in the system. The constants that the build generates
-- from the cluster's configuration (impl/snitch_cluster_cfg.h.tpl) are the fields of `Config`; the
-- `mhartid` register of the calling core is the argument `hartid`.
pub mod Indices
use snitch_cluster_chips_it.Prelude.{
  ℕ, ◌+◌, ◌-◌, ◌*◌, ◌/◌, ◌%◌, ◌^◌, ◌≤◌, ◌<◌, Bool, true, false, if◌then◌else◌, ltb, ◌==◌, add32,
  sub32, mul32,
}

pub record Config : Type 0 where
  pub base_hartid : ℕ
  pub cluster_num : ℕ
  pub cluster_core_num : ℕ
  pub tcdm_start_addr : ℕ
  pub tcdm_size : ℕ
  pub cluster_offset : ℕ
  pub tcdm_bank_width : ℕ
  pub tcdm_hyperbank_width : ℕ
  pub l3_end_addr : ℕ

abbrev pub snrt_cluster_dm_core_num : ℕ
snrt_cluster_dm_core_num = 1

abbrev pub log2_stack_size : ℕ
log2_stack_size = 10

module _ (cfg : Config) where
  unfoldable pub cluster_compute_core_num : ℕ
  cluster_compute_core_num = sub32 cfg.cluster_core_num snrt_cluster_dm_core_num

  unfoldable pub global_core_num : ℕ
  global_core_num = mul32 cfg.cluster_num cfg.cluster_core_num

  unfoldable pub global_compute_core_num : ℕ
  global_compute_core_num = mul32 cfg.cluster_num cluster_compute_core_num

  unfoldable pub global_core_idx : ℕ → ℕ
  global_core_idx hartid = sub32 hartid cfg.base_hartid

  unfoldable pub cluster_idx : ℕ → ℕ
  cluster_idx hartid = global_core_idx hartid / cfg.cluster_core_num

  unfoldable pub cluster_core_idx : ℕ → ℕ
  cluster_core_idx hartid = global_core_idx hartid % cfg.cluster_core_num

  unfoldable pub global_compute_core_idx : ℕ → ℕ
  global_compute_core_idx hartid =
      add32 (mul32 (cluster_idx hartid) cluster_compute_core_num) (cluster_core_idx hartid)

  unfoldable pub is_compute_core : ℕ → Bool
  is_compute_core hartid = ltb (cluster_core_idx hartid) cluster_compute_core_num

  unfoldable pub cluster_is_last_compute_core : ℕ → Bool
  cluster_is_last_compute_core hartid = cluster_core_idx hartid == sub32 cluster_compute_core_num 1

  unfoldable pub is_dm_core : ℕ → Bool
  is_dm_core hartid = if is_compute_core hartid then false else true

-- What the generated constants satisfy in every configuration: a cluster has a DM core beside its
-- compute cores, and the hart identifiers fit a word.
pub record IsValid (cfg : Config) : Type 0 where
  pub cores : 2 ≤ cfg.cluster_core_num
  pub harts : cfg.base_hartid + cfg.cluster_num * cfg.cluster_core_num < 2 ^ 32

-- The hart identifier of core `i` of cluster `c`, in the order in which the cores are numbered.
abbrev pub hart : Config → ℕ → ℕ → ℕ
hart cfg c i = cfg.base_hartid + c * cfg.cluster_core_num + i
