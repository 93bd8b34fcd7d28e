-- ===== src/AllocV2/Remote.antt =====
-- Pointers into other clusters: clusters that make the same requests get blocks at the same offset in their
-- TCDM, and a pointer of one core translates to the pointer of any core of any cluster.
use snitch_cluster_chips_it.Prelude.{
  ℕ, ◌+◌, ◌-◌, ◌*◌, ◌/◌, ◌%◌, ◌^◌, ◌≤◌, ◌<◌, ◌≡◌, sym, ap, ◌∙◌, arith, mul-suc_le, mul_mono, sub32,
  u32,
}
use native.Mathlib.Decide.{dec_le}
use native.Mathlib.Nat.{mul-add-div_right, mod-add-div'}
use snitch_cluster_chips_it.Team.{Config, IsValid, hart, cluster_compute_core_num}
use snitch_cluster_chips_it.Alloc.{Allocator}
use snitch_cluster_chips_it.Alloc.Align.{align_up-eq}
use snitch_cluster_chips_it.AllocV2.{
  ok, start, l1_alloc_compute_core_local, compute_core_local_ptr, remote_l1_ptr,
}
use snitch_cluster_chips_it.AllocV2.Bounds.{Fits, start-bounds}
use snitch_cluster_chips_it.AllocV2.Pointers.{
  l1_alloc_compute_core_local_lem, compute_core_local_ptr_lem,
}

-- The address of the TCDM of a cluster.
abbrev pub tcdm_base : Config → ℕ → ℕ
tcdm_base cfg c = cfg.tcdm_start_addr + c * cfg.cluster_offset

remote_l1_ptr_lem :
    (cfg : Config) (c d o : ℕ)
    → c < 2 ^ 32
    → d < 2 ^ 32
    → tcdm_base cfg c + o < 2 ^ 32
    → tcdm_base cfg d + o < 2 ^ 32
    → remote_l1_ptr cfg (tcdm_base cfg c + o) c d ≡ tcdm_base cfg d + o
unfolding remote_l1_ptr
remote_l1_ptr_lem cfg c d o lc ld rc rd = elim (dec_le c d) [
  | yes le ↦ omega (arith, ap (λ (t : ℕ). t * cfg.cluster_offset) (forward le))
  | no gt ↦ omega (
    arith,
    ap (λ (t : ℕ). t * cfg.cluster_offset) (back (omega arith)),
    ap (λ (t : ℕ). t * cfg.cluster_offset) (rest (omega arith)),
  )
]
  where
    forward : c ≤ d → sub32 d c + c ≡ d
    forward le = omega arith

    back : d < c → sub32 d c + (c - d) ≡ 2 ^ 32
    back lt = omega arith

    rest : d ≤ c → (c - d) + d ≡ c
    rest le = omega arith

-- On an allocator at offset `o` of a TCDM that starts on a boundary, the block starts at an offset that
-- depends on `o` only.
start-offset :
    (alignment t o : ℕ) (a : Allocator)
    → 0 < alignment
    → a.next ≡ t * alignment + o
    → a.next + alignment < 2 ^ 32
    → start alignment a ≡ t * alignment + (o + alignment - 1) / alignment * alignment
start-offset al t o a pos e small =
    ap (λ n. start al (record { base = 0; end = 0; next = n })) (omega arith)
    ∙ align_up-eq (u32 a.next) al 0 (omega arith) pos (omega arith)
    ∙ ap (λ n. n / al * al + 0) shifted
    ∙ ap (λ n. n * al + 0) (mul-add-div_right pos t (o + al - 1))
    ∙ omega arith
  where
    shifted : u32 a.next - 0 + al - 1 ≡ t * al + (o + al - 1)
    shifted = omega (arith, e)

module _ {cfg : Config} (v : IsValid cfg) (size alignment : ℕ) where
  abbrev Room : Allocator → Type 0
  Room a = Fits (size * cluster_compute_core_num cfg) alignment a

  -- The pointer that a granted allocation returns.
  granted-ptr :
      (c i : ℕ) {a a' : Allocator} {p : ℕ}
      → c < cfg.cluster_num
      → i < cluster_compute_core_num cfg
      → Room a
      → l1_alloc_compute_core_local cfg (hart cfg c i) size alignment a ≡ ok p a'
      → p ≡ start alignment a + size * i
  granted-ptr c i {a} hc hi f e =
      let (granted, trapped) =
        l1_alloc_compute_core_local_lem v c i hc hi size alignment {a = a} f in
      elim (dec_le (start alignment a + size * cluster_compute_core_num cfg) a.end) [
        | yes fits ↦ cc (granted.1 fits)
        | no over ↦ cc (trapped.1 (omega arith))
      ]

  abbrev units : ℕ → ℕ
  units c = cfg.tcdm_start_addr / alignment + c * (cfg.cluster_offset / alignment)

  base-units :
      (c : ℕ)
      → cfg.tcdm_start_addr % alignment ≡ 0
      → cfg.cluster_offset % alignment ≡ 0
      → tcdm_base cfg c ≡ units c * alignment
  base-units c hs ho =
      omega (arith, mod-add-div' cfg.tcdm_start_addr alignment, ap (λ (t : ℕ). c * t) offset, hs)
    where
      offset : cfg.cluster_offset ≡ cfg.cluster_offset / alignment * alignment
      offset = omega (arith, ho, mod-add-div' cfg.cluster_offset alignment)

  module _ (c d i j o : ℕ) (hc : c < cfg.cluster_num) (hd : d < cfg.cluster_num)
      (hi : i < cluster_compute_core_num cfg) (hj : j < cluster_compute_core_num cfg) where
    -- In a valid configuration in which the TCDMs start on boundaries of the requested alignment,
    -- for the allocators of two clusters c and d that stand at the same offset in their clusters'
    -- TCDMs, sums that do not wrap and a request for one variable per compute core that both
    -- grant: the pointer that compute core i of cluster c gets, translated with
    -- snrt_compute_core_local_ptr to core j and with snrt_remote_l1_ptr from cluster c to cluster
    -- d, is the pointer that core j of cluster d gets.
    pub remote_l1_ptr-alloc :
        {a b a' b' : Allocator} {p q : ℕ}
        → cfg.tcdm_start_addr % alignment ≡ 0
        → cfg.cluster_offset % alignment ≡ 0
        → a.next ≡ tcdm_base cfg c + o
        → b.next ≡ tcdm_base cfg d + o
        → Fits (size * cluster_compute_core_num cfg) alignment a
        → Fits (size * cluster_compute_core_num cfg) alignment b
        → l1_alloc_compute_core_local cfg (hart cfg c i) size alignment a ≡ ok p a'
        → l1_alloc_compute_core_local cfg (hart cfg d j) size alignment b ≡ ok q b'
        → remote_l1_ptr cfg (compute_core_local_ptr cfg (hart cfg c i) p j size) c d ≡ q
    remote_l1_ptr-alloc {a} {b} hs ho ea eb fa fb pa pb =
        ap (λ w. remote_l1_ptr cfg (compute_core_local_ptr cfg (hart cfg c i) w j size) c d)
          (granted-ptr c i hc hi fa pa)
        ∙ ap (λ w. remote_l1_ptr cfg w c d)
            (compute_core_local_ptr_lem v c i hc hi (start alignment a) size j hj
              (omega (arith, a-bounds)))
        ∙ ap (λ w. remote_l1_ptr cfg w c d) a-block
        ∙ remote_l1_ptr_lem cfg c d (u + size * j) (omega (arith, word c hc))
            (omega (arith, word d hd)) (omega (arith, a-block, a-bounds, ours))
            (omega (arith, b-block, b-bounds, ours))
        ∙ sym b-block
        ∙ sym (granted-ptr d j hd hj fb pb)
      where
        u : ℕ
        u = (o + alignment - 1) / alignment * alignment

        word : (e : ℕ) → e < cfg.cluster_num → e < 2 ^ 32
        word e h = omega (
          arith,
          v.harts,
          v.cores,
          mul-suc_le e cfg.cluster_num cfg.cluster_core_num h,
          mul_mono 1 cfg.cluster_core_num e (omega (arith, v.cores)),
        )

        ours : size * j ≤ size * cluster_compute_core_num cfg
        ours = omega (arith, mul_mono j (cluster_compute_core_num cfg) size (omega (arith, hj)))

        a-bounds :
            (a.next ≤ start alignment a)
            × (start alignment a < a.next + alignment)
            × (start alignment a % alignment ≡ 0)
        a-bounds = start-bounds (size * cluster_compute_core_num cfg) alignment fa

        b-bounds :
            (b.next ≤ start alignment b)
            × (start alignment b < b.next + alignment)
            × (start alignment b % alignment ≡ 0)
        b-bounds = start-bounds (size * cluster_compute_core_num cfg) alignment fb

        a-block : start alignment a + size * j ≡ tcdm_base cfg c + (u + size * j)
        a-block = omega (
          arith,
          start-offset alignment (units c) o a fa.pos (omega (arith, ea, base-units c hs ho))
              (omega (arith, fa.room)),
          base-units c hs ho,
        )

        b-block : start alignment b + size * j ≡ tcdm_base cfg d + (u + size * j)
        b-block = omega (
          arith,
          start-offset alignment (units d) o b fb.pos (omega (arith, eb, base-units d hs ho))
              (omega (arith, fb.room)),
          base-units d hs ho,
        )
