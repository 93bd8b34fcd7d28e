-- ===== src/Start/Threads.antt =====
-- The thread-local storage that `snrt_init_tls` initialises is where start.S puts the thread pointers.
use snitch_cluster_chips_it.Prelude.{
  ℕ, suc, inr, ◌+◌, ◌-◌, ◌*◌, ◌≤◌, ◌<◌, ◌≡◌, [], true, ltb, if◌then◌else◌, sym, ap, ◌∙◌, subst,
  arith,
}
use snitch_cluster_chips_it.Team.{Config, IsValid, is_dm_core, hart}
use snitch_cluster_chips_it.Team.Indices.{role-hart}
use snitch_cluster_chips_it.AllocV2.Heap.{stack_pointer, HasRoom}
use snitch_cluster_chips_it.Dma.{Frontend}
use snitch_cluster_chips_it.Dma.Engine.{Mem, Engine}
use snitch_cluster_chips_it.Start.{tls_offset, thread_pointer, init_tls}
use snitch_cluster_chips_it.Start.Tls.{Fits, init_tls_lem}

-- Successive cores' thread pointers are `tls_offset` apart.
thread_pointer-apart :
    (cfg : Config) (cls_base c j d b : ℕ)
    → HasRoom cfg cls_base
    → d + b ≤ tls_offset
    → suc (c + j) ≤ cfg.cluster_core_num
    → thread_pointer cls_base (c + j) d b + j * tls_offset ≡ thread_pointer cls_base c d b
unfolding thread_pointer stack_pointer
thread_pointer-apart cfg cls_base c j d b r s h = omega (arith, r, s, h)

module _ (e : Engine) (cfg : Config) (v : IsValid cfg) (cl cls_base tdata_start d tbss_start b : ℕ)
    (f : Frontend) (m : Mem) (hc : cl < cfg.cluster_num) (r : HasRoom cfg cls_base)
    (fits : Fits cfg
      (thread_pointer cls_base (cfg.cluster_core_num - 1) d b)
      tdata_start
      d
      tbss_start
      b)
    (idle : f.pending ≡ []) where
  -- In a valid configuration with room for the stacks below the cluster-local storage, for
  -- sections that fit the distance between the storage of two cores and do not overlap with it, on
  -- an idle front-end and an engine that copies transfers in order: after snrt_init_tls on the DM
  -- core of a cluster, whose thread pointer is the one that start.S sets, the front-end is idle,
  -- and at the thread pointer that start.S sets for any core c of the cluster there is the section
  -- .tdata, followed by zeros for .tbss.
  pub init_tls-threads :
      (c x : ℕ)
      → c < cfg.cluster_core_num
      → x < d + b
      → let (f', m') =
          init_tls e cfg
            (hart cfg cl (cfg.cluster_core_num - 1))
            (thread_pointer cls_base (cfg.cluster_core_num - 1) d b)
            tdata_start
            (tdata_start + d)
            tbss_start
            (tbss_start + b)
            f
            m in
        (f'.pending ≡ [])
        × (m' (thread_pointer cls_base c d b + x) ≡ (if ltb x d then m (tdata_start + x) else 0))
  init_tls-threads c x lc lx =
      let u =
        init_tls_lem e cfg (hart cfg cl (cfg.cluster_core_num - 1))
          (thread_pointer cls_base (cfg.cluster_core_num - 1) d b) tdata_start d tbss_start b f m
          fits idle dm (cfg.cluster_core_num - 1 - c) x
          (thread_pointer cls_base (cfg.cluster_core_num - 1) d b
            + cfg.cluster_core_num * tls_offset)
          (omega (arith, lc)) lx (inr (omega arith)) in
      (
        u.0,
        ap
              (init_tls e cfg (hart cfg cl (cfg.cluster_core_num - 1))
                (thread_pointer cls_base (cfg.cluster_core_num - 1) d b) tdata_start
                (tdata_start + d) tbss_start (tbss_start + b) f m).1
              (ap (λ (w : ℕ). w + x) (sym place))
            ∙ u.1,
      )
    where
      dm : is_dm_core cfg (hart cfg cl (cfg.cluster_core_num - 1)) ≡ true
      dm =
          (role-hart v cl (cfg.cluster_core_num - 1) hc (omega (arith, lc))).0.1 (omega (arith, lc))

      rest : c + (cfg.cluster_core_num - 1 - c) ≡ cfg.cluster_core_num - 1
      rest = omega (arith, lc)

      place :
          thread_pointer cls_base (cfg.cluster_core_num - 1) d b
            + (cfg.cluster_core_num - 1 - c) * tls_offset
          ≡ thread_pointer cls_base c d b
      place =
          subst
            (λ (w : ℕ).
              thread_pointer cls_base w d b + (cfg.cluster_core_num - 1 - c) * tls_offset
              ≡ thread_pointer cls_base c d b)
            rest
            (thread_pointer-apart cfg cls_base c (cfg.cluster_core_num - 1 - c) d b r fits.slot
              (omega (arith, rest, lc)))
