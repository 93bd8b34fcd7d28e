-- ===== src/Start.antt =====
-- sw/runtime/src/start.c: what the DM core of a cluster initialises before main. The section symbols of the
-- linker, the thread pointer `tp` and the hart identifier are arguments.
pub mod Copies
pub mod Clears
pub mod Tls
pub mod Threads
pub mod Cls
use snitch_cluster_chips_it.Prelude.{
  ℕ, suc, ◌+◌, ◌-◌, ◌/◌, ◌%◌, ◌^◌, if◌then◌else◌, ◌==◌, ltb, leb, ◌&&◌, u32, add64, add32, sub32,
  mul32, for_each,
}
use snitch_cluster_chips_it.Team.{Config, log2_stack_size, cluster_idx, is_dm_core}
use snitch_cluster_chips_it.AllocV2.{cls_base_addr}
use snitch_cluster_chips_it.AllocV2.Heap.{stack_pointer}
use snitch_cluster_chips_it.Dma.{Frontend, start_1d}
use snitch_cluster_chips_it.Dma.Engine.{Mem, Engine, wait_all}
use snitch_cluster_chips_it.Dma.Memset.{memset}

-- The offset between the thread-local storage of successive cores
abbrev pub tls_offset : ℕ
tls_offset = 2 ^ log2_stack_size + 8

-- The thread pointer of core `i` of a cluster: `.tdata` and `.tbss`, of `d` and `b` bytes, at the top of its
-- stack.
unfoldable pub thread_pointer : (cls_base i d b : ℕ) → ℕ
unfolding stack_pointer
thread_pointer cls_base i d b = let sp = sub32 (sub32 (stack_pointer cls_base i) d) b in sp - sp % 8

-- A store of a word, least significant byte first, that does not wrap at the end of the address space.
unfoldable pub store_word : (address value : ℕ) → Mem → Mem
store_word address value m a =
    if leb address a && ltb a (address + 4) then value / 256 ^ (a - address) % 256 else m a

module _ (e : Engine) (cfg : Config) where
  -- The section `.tdata` from the DM core's storage to that of the others
  unfoldable pub copy_tdata : (tls_ptr size : ℕ) → Frontend → Frontend
  unfolding start_1d for_each
  copy_tdata tls_ptr size =
      for_each (cfg.cluster_core_num - 1)
        (λ k f. start_1d (add32 tls_ptr (mul32 (suc k) tls_offset)) tls_ptr size 0 f)

  unfoldable pub clear_tbss : (tls_ptr size : ℕ) → Frontend × Mem → Frontend × Mem
  unfolding memset for_each
  clear_tbss tls_ptr size =
      for_each cfg.cluster_core_num
        (λ i s. memset e (add32 tls_ptr (mul32 i tls_offset)) 0 size s.0 s.1)

  unfoldable pub init_tls :
      (hartid tp tdata_start tdata_end tbss_start tbss_end : ℕ) → Frontend → Mem → Frontend × Mem
  unfolding copy_tdata clear_tbss wait_all start_1d
  init_tls hartid tp tdata_start tdata_end tbss_start tbss_end f m =
      let size = sub32 tdata_end tdata_start in
      let (f1, m1) = wait_all e (start_1d tp tdata_start size 0 f) m in
      let f2 = copy_tdata tp size f1 in
      let (f3, m3) = clear_tbss (add32 tp size) (sub32 tbss_end tbss_start) (f2, m1) in
      if is_dm_core cfg hartid then wait_all e f3 m3 else (f, m)

  unfoldable pub init_bss : (hartid bss_start bss_end : ℕ) → Frontend → Mem → Frontend × Mem
  unfolding memset wait_all
  init_bss hartid bss_start bss_end f m =
      let (f1, m1) = memset e bss_start 0 (sub32 bss_end bss_start) f m in
      if cluster_idx cfg hartid == 0
      then (if is_dm_core cfg hartid then wait_all e f1 m1 else (f, m))
      else (f, m)

  -- On every core, `_cls_ptr` is set: a thread-local word, at the address `cls_ptr` on the calling core.
  unfoldable pub init_cls :
      (hartid cls_ptr cdata_start cdata_end cbss_start cbss_end : ℕ)
      → Frontend
      → Mem
      → Frontend × Mem
  unfolding memset wait_all start_1d cls_base_addr store_word
  init_cls hartid cls_ptr cdata_start cdata_end cbss_start cbss_end f m =
      let size = sub32 cdata_end cdata_start in
      let ptr =
        cls_base_addr cfg hartid (sub32 cdata_end cdata_start) (sub32 cbss_end cbss_start) in
      let f1 = start_1d ptr cdata_start size 0 f in
      let (f2, m2) = memset e (u32 (add64 ptr size)) 0 (sub32 cbss_end cbss_start) f1 m in
      let (f3, m3) = if is_dm_core cfg hartid then wait_all e f2 m2 else (f, m) in
      (f3, store_word cls_ptr ptr m3)
