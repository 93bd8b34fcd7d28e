-- ===== src/Kernels/Axpy/Job/Whole.antt =====
-- `axpy_job` with `axpy_opt` as the kernel, on the buffers that it allocates.
use snitch_cluster_chips_it.Prelude.{ℕ, ◌+◌, ◌*◌, ◌/◌, ◌^◌, ◌≤◌, ◌<◌, ◌≡◌, List}
use snitch_cluster_chips_it.Team.{Config, IsValid, cluster_compute_core_num}
use snitch_cluster_chips_it.Ssr.{Regs}
use snitch_cluster_chips_it.Kernels.Axpy.{Ahead, Memory}
use snitch_cluster_chips_it.Kernels.Axpy.Cores.{run_cores}
use snitch_cluster_chips_it.Kernels.Axpy.Job.{Args, buffer, size}

-- The parts of a run that the configuration and the arguments determine.
pub record Fits {ℓ} {F : Type ℓ} (im p : ℕ) (cfg : Config) (cl : ℕ) (args : Args F) (behind : ℕ)
    : Type ℓ where
  pub q : ℕ
  pub m : ℕ
  pub pointers : p * q ≡ 2 ^ 32
  pub indices : 0 < im
  pub valid : IsValid cfg
  pub cluster : cl < cfg.cluster_num
  pub whole : args.n / args.n_tiles ≡ m * cluster_compute_core_num cfg
  pub range : (1 ≤ m) × (m ≤ im)
  pub cores : args.n / args.n_tiles + 8 * cluster_compute_core_num cfg < 2 ^ 32
  pub above : cfg.tcdm_start_addr ≤ behind
  pub ends : behind + 6 * (8 * (args.n / args.n_tiles) + 320) < 2 ^ 32
  pub room : 6 * (8 * (args.n / args.n_tiles) + 320) ≤ p

module _ {ℓ} {F : Type ℓ} (im p : ℕ) (fmadd : F → F → F → F) (cfg : Config) (cl : ℕ) (args : Args F)
    (ahead : ℕ → ℕ → Ahead) (regs : ℕ → ℕ → Regs) (orders : ℕ → List ℕ) where
  -- The compute cores that run `axpy_opt` on a tile, in the order of iteration i.
  unfoldable pub all_cores : (i n : ℕ) (a : F) (x y z : ℕ) → Memory F → Memory F
  unfolding run_cores
  all_cores i n a x y z = run_cores im p fmadd cfg cl n a x y z (ahead i) (regs i) (orders i)

  unfoldable pub addresses : (behind : ℕ) → ℕ → ℕ
  unfolding buffer size
  addresses behind = buffer cfg.tcdm_start_addr (size p args (λ k. k) all_cores) behind
