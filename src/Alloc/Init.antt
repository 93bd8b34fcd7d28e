-- ===== src/Alloc/Init.antt =====
-- The first allocator from its initialisation on.
use snitch_cluster_chips_it.Prelude.{
  ℕ, ◌+◌, ◌-◌, ◌%◌, ◌^◌, ◌≤◌, ◌<◌, ◌≡◌, inl, inr, refl, ◌∙◌, arith, add32, List, true, Bool-cases,
}
use snitch_cluster_chips_it.Team.{Config, IsValid, hart, is_dm_core, cluster_compute_core_num}
use snitch_cluster_chips_it.Team.Indices.{role-hart, compute_core_num-lt}
use snitch_cluster_chips_it.Alloc.{Allocator, align_up, alloc_init}
use snitch_cluster_chips_it.Alloc.Align.{align_up_zero}
use snitch_cluster_chips_it.Alloc.Chunks.{
  IsReady, alloc_chunks, demand, Packed, Packed-weaken, alloc_chunks-Packed, alloc_chunks-le,
}

-- Chunks of an allocator that begins at the aligned start.
from_start :
    (start : ℕ) (sizes : List ℕ) (a : Allocator)
    → start + 8 + demand sizes < 2 ^ 32
    → a.next ≡ align_up start 8 0
    → let (chunks, last) = alloc_chunks sizes a in
      Packed start chunks last.next × (last.next < start + 8 + demand sizes) × (last.end ≡ a.end)
from_start start sizes a small e = (
  Packed-weaken a.next start _ (alloc_chunks sizes a).0 (omega (arith, e, bounds))
      (alloc_chunks-Packed sizes ready),
  omega (arith, alloc_chunks-le sizes ready, e, bounds),
  (alloc_chunks-le sizes ready).1,
)
  where
    bounds :
        (start ≤ align_up start 8 0)
        × (align_up start 8 0 < start + 8)
        × (align_up start 8 0 % 8 ≡ 0)
    bounds = align_up_zero start 8 (omega arith) (omega (arith, small))

    ready : IsReady (demand sizes) a
    ready = record { aligned = omega (arith, e, bounds); room = omega (arith, e, bounds, small) }

module _ {cfg : Config} (v : IsValid cfg) (c i : ℕ) (hc : c < cfg.cluster_num)
    (hi : i < cluster_compute_core_num cfg) (tcdm edram : ℕ) (l1 l3 : Allocator) where
  -- In a valid configuration, for a TCDM that ends below 4 GiB: on a compute core snrt_alloc_init
  -- changes neither allocator. On the DM core, whatever the allocators held, every list of later
  -- L1 requests whose demand fits the TCDM, and every list of L3 requests whose demand fits below
  -- 4 GiB, gets chunks in order and apart on 8-byte boundaries: the L1 chunks from the start of
  -- the TCDM on up to the allocator's end, which is that of the TCDM, the L3 chunks from the
  -- linker's symbol on, less than 8 bytes more than demanded in all.
  pub alloc_init-Packed :
      (sizes sizes3 : List ℕ)
      → tcdm + cfg.tcdm_size < 2 ^ 32
      → 8 + demand sizes ≤ cfg.tcdm_size
      → edram + 8 + demand sizes3 < 2 ^ 32
      → (alloc_init cfg (hart cfg c i) tcdm edram (l1, l3) ≡ (l1, l3))
        × (let (m1, m3) =
              alloc_init cfg (hart cfg c (cfg.cluster_core_num - 1)) tcdm edram (l1, l3) in
            let (chunks, last) = alloc_chunks sizes m1 in
            let (chunks3, last3) = alloc_chunks sizes3 m3 in
            Packed tcdm chunks last.next
            × (last.next ≤ last.end)
            × (last.end ≡ tcdm + cfg.tcdm_size)
            × Packed edram chunks3 last3.next
            × (last3.next < edram + 8 + demand sizes3))
  unfolding alloc_init
  alloc_init-Packed sizes sizes3 ends fits small = (
    elim (Bool-cases (is_dm_core cfg (hart cfg c i))) [
      | inl t ↦ absurd (omega (arith, (role-hart v c i hc below).0.0 t, cores, hi))
      | inr t ↦ rw t refl
    ],
    rw dm (
      l1_chunks.0,
      omega (arith, l1_chunks.1, l1_chunks.2, ends, fits),
      l1_chunks.2 ∙ omega (arith, ends),
      l3_chunks.0,
      l3_chunks.1,
    ),
  )
    where
      cores : cluster_compute_core_num cfg + 1 ≡ cfg.cluster_core_num
      cores = (compute_core_num-lt v c 0 hc (omega (arith, v.cores))).0

      below : i < cfg.cluster_core_num
      below = omega (arith, hi, cores)

      dm : is_dm_core cfg (hart cfg c (cfg.cluster_core_num - 1)) ≡ true
      dm =
          (role-hart v c (cfg.cluster_core_num - 1) hc (omega (arith, v.cores))).0.1
            (omega (arith, v.cores))

      m1 : Allocator
      m1 = record {
        base = align_up tcdm 8 0;
        end = add32 tcdm cfg.tcdm_size;
        next = align_up tcdm 8 0;
      }

      m3 : Allocator
      m3 = record { base = align_up edram 8 0; end = align_up edram 8 0; next = align_up edram 8 0 }

      l1_chunks :
          Packed tcdm (alloc_chunks sizes m1).0 (alloc_chunks sizes m1).1.next
          × ((alloc_chunks sizes m1).1.next < tcdm + 8 + demand sizes)
          × ((alloc_chunks sizes m1).1.end ≡ m1.end)
      l1_chunks = from_start tcdm sizes m1 (omega (arith, ends, fits)) refl

      l3_chunks :
          Packed edram (alloc_chunks sizes3 m3).0 (alloc_chunks sizes3 m3).1.next
          × ((alloc_chunks sizes3 m3).1.next < edram + 8 + demand sizes3)
          × ((alloc_chunks sizes3 m3).1.end ≡ m3.end)
      l3_chunks = from_start edram sizes3 m3 small refl
