-- ===== src/Team/Indices.antt =====
-- The numbering of the cores: indices and hart identifiers determine one another.
use snitch_cluster_chips_it.Prelude.{
  ℕ, ◌+◌, ◌*◌, ◌/◌, ◌%◌, ◌^◌, ◌≤◌, ◌<◌, ◌≡◌, sym, ap, ◌∙◌, ◌↔◌, true, arith, div-mul_add,
  mul-suc_le,
}
use snitch_cluster_chips_it.Team.{
  Config, IsValid, hart, cluster_compute_core_num, global_core_num, global_compute_core_num,
  global_core_idx, cluster_idx, cluster_core_idx, global_compute_core_idx, is_compute_core,
  is_dm_core, cluster_is_last_compute_core,
}

module _ {cfg : Config} (v : IsValid cfg) (c i : ℕ) (hc : c < cfg.cluster_num)
    (hi : i < cfg.cluster_core_num) where
  pub global_core_idx-hart : global_core_idx cfg (hart cfg c i) ≡ c * cfg.cluster_core_num + i
  unfolding global_core_idx
  global_core_idx-hart =
      omega (arith, v.harts, mul-suc_le c cfg.cluster_num cfg.cluster_core_num hc)

  -- In a valid configuration, from the hart identifier of core i of cluster c the code finds the
  -- cluster c, the core i in it and the global index, which is below the number of cores.
  pub idx-hart :
      (cluster_idx cfg (hart cfg c i) ≡ c)
      × (cluster_core_idx cfg (hart cfg c i) ≡ i)
      × (global_core_idx cfg (hart cfg c i) ≡ c * cfg.cluster_core_num + i)
      × (global_core_idx cfg (hart cfg c i) < global_core_num cfg)
  unfolding cluster_idx cluster_core_idx global_core_num
  idx-hart = (
    rw global_core_idx-hart (div-mul_add c i cfg.cluster_core_num hi).0,
    rw global_core_idx-hart (div-mul_add c i cfg.cluster_core_num hi).1,
    global_core_idx-hart,
    rw global_core_idx-hart
        (omega (arith, v.harts, mul-suc_le c cfg.cluster_num cfg.cluster_core_num hc)),
  )

  -- The number of compute cores does not wrap.
  pub compute_core_num-lt :
      (cluster_compute_core_num cfg + 1 ≡ cfg.cluster_core_num) × (cfg.cluster_core_num < 2 ^ 32)
  unfolding cluster_compute_core_num
  compute_core_num-lt =
      omega (arith, v.harts, v.cores, mul-suc_le c cfg.cluster_num cfg.cluster_core_num hc)

  -- In a valid configuration, core i of a cluster is a DM core exactly when it is the last core of
  -- the cluster, a compute core exactly when i is below the number of compute cores, and the last
  -- compute core exactly when it is the last but one core.
  pub role-hart :
      ((is_dm_core cfg (hart cfg c i) ≡ true) ↔ (i + 1 ≡ cfg.cluster_core_num))
      × ((is_compute_core cfg (hart cfg c i) ≡ true) ↔ (i < cluster_compute_core_num cfg))
      × ((cluster_is_last_compute_core cfg (hart cfg c i) ≡ true) ↔ (i + 2 ≡ cfg.cluster_core_num))
  unfolding is_dm_core is_compute_core cluster_is_last_compute_core
  role-hart = (
    ground (arith, idx-hart, compute_core_num-lt),
    ground (arith, idx-hart),
    ground (arith, idx-hart, compute_core_num-lt, v.cores),
  )

-- The compute cores of all clusters fit a word too.
pub compute-le :
    {cfg : Config} (v : IsValid cfg) (c : ℕ)
    → c < cfg.cluster_num
    → let m = cluster_compute_core_num cfg in
      (c * m + m ≤ cfg.cluster_num * m) × (cfg.cluster_num * m < 2 ^ 32)
compute-le {cfg} v c hc = (
  mul-suc_le c cfg.cluster_num (cluster_compute_core_num cfg) hc,
  omega (
    arith,
    v.harts,
    ap (λ (t : ℕ). cfg.cluster_num * t) (compute_core_num-lt v c 0 hc (omega (arith, v.cores))).0,
  ),
)

-- The global index of a compute core counts the compute cores of the clusters before its own.
pub global_compute_core_idx-hart :
    {cfg : Config} (v : IsValid cfg) (c i : ℕ)
    → c < cfg.cluster_num
    → i < cluster_compute_core_num cfg
    → (global_compute_core_idx cfg (hart cfg c i) ≡ c * cluster_compute_core_num cfg + i)
      × (global_compute_core_idx cfg (hart cfg c i) < global_compute_core_num cfg)
unfolding global_compute_core_idx global_compute_core_num
global_compute_core_idx-hart {cfg} v c i hc hi =
    let ix = idx-hart v c i hc (omega (arith, m)) in
    rw (ix.0, ix.1) (omega (arith, compute-le v c hc))
  where
    m : cluster_compute_core_num cfg + 1 ≡ cfg.cluster_core_num
    m = (compute_core_num-lt v c 0 hc (omega (arith, v.cores))).0

-- In a valid configuration, two compute cores with the same global compute core index are the same
-- core of the same cluster.
global_compute_core_idx-injective :
    {cfg : Config} (v : IsValid cfg) (c i d j : ℕ)
    → c < cfg.cluster_num
    → i < cluster_compute_core_num cfg
    → d < cfg.cluster_num
    → j < cluster_compute_core_num cfg
    → global_compute_core_idx cfg (hart cfg c i) ≡ global_compute_core_idx cfg (hart cfg d j)
    → (c ≡ d) × (i ≡ j)
global_compute_core_idx-injective {cfg} v c i d j hc hi hd hj e = (
  sym (div-mul_add c i m hi).0 ∙ ap (λ t. t / m) same ∙ (div-mul_add d j m hj).0,
  sym (div-mul_add c i m hi).1 ∙ ap (λ t. t % m) same ∙ (div-mul_add d j m hj).1,
)
  where
    m : ℕ
    m = cluster_compute_core_num cfg

    same : c * m + i ≡ d * m + j
    same =
        sym (global_compute_core_idx-hart v c i hc hi).0
        ∙ e
        ∙ (global_compute_core_idx-hart v d j hd hj).0
