-- ===== src/Tests/System.antt =====
-- The numbering of the cores at a system of two clusters of nine cores.
use snitch_cluster_chips_it.Prelude.{◌+◌, ◌*◌, ◌<◌, ◌≡◌, arith}
use snitch_cluster_chips_it.Team.{
  Config, IsValid, hart, global_core_num, global_core_idx, cluster_idx, cluster_core_idx,
}
use snitch_cluster_chips_it.Team.Indices.{idx-hart}

abbrev pub cfg : Config
cfg = record {
  base_hartid = 16;
  cluster_num = 2;
  cluster_core_num = 9;
  tcdm_start_addr = 0x10000000;
  tcdm_size = 0x20000;
  cluster_offset = 0x40000;
  tcdm_bank_width = 8;
  tcdm_hyperbank_width = 256;
  l3_end_addr = 0x90000000;
}

pub cfg-IsValid : IsValid cfg
cfg-IsValid = record { cores = omega arith; harts = omega arith }

idx-hart_example :
    (cluster_idx cfg (hart cfg 1 4) ≡ 1)
    × (cluster_core_idx cfg (hart cfg 1 4) ≡ 4)
    × (global_core_idx cfg (hart cfg 1 4) ≡ 1 * 9 + 4)
    × (global_core_idx cfg (hart cfg 1 4) < global_core_num cfg)
idx-hart_example = idx-hart cfg-IsValid 1 4 (omega arith) (omega arith)
