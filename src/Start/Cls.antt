-- ===== src/Start/Cls.antt =====
-- What `snrt_init_cls` leaves in the cluster-local storage.
use snitch_cluster_chips_it.Prelude.{
  ℕ, ◌+◌, ◌-◌, ◌*◌, ◌/◌, ◌%◌, ◌^◌, ◌==◌, ==_iff, Bool-cases, ◌≤◌, ◌<◌, ◌≡◌, ◌⊎◌, inl, inr, List, [],
  ltb, leb, ◌&&◌, if◌then◌else◌, lt→ltb, le→ltb, refl, sym, ap, ◌∙◌, subst, arith, sub32, add64,
  u32,
}
use native.Mathlib.Decide.{dec_lt, ℕ_discrete}
use snitch_cluster_chips_it.Team.{Config, IsValid, is_dm_core, hart}
use snitch_cluster_chips_it.Team.Indices.{role-hart}
use snitch_cluster_chips_it.AllocV2.{cls_base_addr}
use snitch_cluster_chips_it.AllocV2.Heap.{cls_base_addr_lem}
use snitch_cluster_chips_it.Dma.{Transfer, Frontend, start_1d}
use snitch_cluster_chips_it.Dma.Engine.{Mem, Apart, Engine, run_all, wait_all}
use snitch_cluster_chips_it.Dma.Memset.{memset}
use snitch_cluster_chips_it.Dma.Pending.{Away, memset-pending, start_1d-run_all, start_1d-Away}
use snitch_cluster_chips_it.Start.{store_word, init_cls}
use snitch_cluster_chips_it.Start.Clears.{set-inside, set-outside}

word-inside : (p w k : ℕ) (m : Mem) → k < 4 → store_word p w m (p + k) ≡ w / 256 ^ k % 256
unfolding store_word
word-inside p w k m lk =
    set-inside p 4 (p + k) _ _ (omega arith) (omega (arith, lk))
    ∙ ap (λ j. w / 256 ^ j % 256) (omega arith)

word-outside : (p w a : ℕ) (m : Mem) → (a < p) ⊎ (p + 4 ≤ a) → store_word p w m a ≡ m a
unfolding store_word
word-outside p w a m o = set-outside p 4 a _ _ o

-- The base of the storage of cluster `cl`, which ends where its TCDM ends.
abbrev pub cls_start : Config → (cl d b : ℕ) → ℕ
cls_start cfg cl d b = cfg.tcdm_start_addr + cl * cfg.cluster_offset + cfg.tcdm_size - (d + b)

module _ (e : Engine) (cfg : Config) (v : IsValid cfg) (cl cdata_start d cbss_start b : ℕ)
    (f : Frontend) (m : Mem) (hc : cl < cfg.cluster_num) (holds : d + b ≤ cfg.tcdm_size)
    (ends : cfg.tcdm_start_addr + cl * cfg.cluster_offset + cfg.tcdm_size < 2 ^ 32)
    (hd : cdata_start + d < 2 ^ 32) (hb : cbss_start + b < 2 ^ 32)
    (apart : (cdata_start + d ≤ cls_start cfg cl d b)
      ⊎ (cls_start cfg cl d b + (d + b) ≤ cdata_start))
    (idle : f.pending ≡ []) where
  abbrev base : ℕ
  base = cls_start cfg cl d b

  abbrev issued : Frontend
  issued = start_1d base cdata_start d 0 f

  separate : Apart base d cdata_start d
  separate = elim apart [ inl l ↦ inr l | inr g ↦ inl (omega (arith, g)) ]

  issued-copy : run_all e issued.pending m ≡ e.copy base cdata_start d m
  unfolding run_all
  issued-copy =
      start_1d-run_all e base cdata_start d f m
      ∙ ap (λ (ts : List Transfer). e.copy base cdata_start d (run_all e ts m)) idle

  issued-Away : Away (base + d) b issued.pending
  issued-Away =
      start_1d-Away e base cdata_start d f (base + d) b (subst (Away (base + d) b) (sym idle) tt)
        separate (inl (omega arith))
        (elim apart [ inl l ↦ inl (omega (arith, l)) | inr g ↦ inr (omega (arith, g)) ])

  abbrev cleared : Frontend × Mem
  cleared = memset e (base + d) 0 b issued m

  set :
      (a : ℕ)
      → (wait_all e cleared.0 cleared.1).1 a
        ≡ (if leb (base + d) a && ltb a (base + d + b) then 0 else e.copy base cdata_start d m a)
  unfolding wait_all
  set a =
      (memset-pending e (base + d) b 0 issued m (omega (arith, holds, ends)) issued-Away).1 a
      ∙ ap (λ (g : Mem). if leb (base + d) a && ltb a (base + d + b) then 0 else g a) issued-copy

  all_idle : (wait_all e cleared.0 cleared.1).0.pending ≡ []
  unfolding wait_all
  all_idle = refl

  module _ (i cls_ptr : ℕ) (hi : i < cfg.cluster_core_num) where
    abbrev after : Frontend × Mem
    after =
        init_cls e cfg (hart cfg cl i) cls_ptr cdata_start (cdata_start + d) cbss_start
          (cbss_start + b) f m

    all_done : after ≡ (
        let s = if is_dm_core cfg (hart cfg cl i) then wait_all e cleared.0 cleared.1 else (f, m) in
        (s.0, store_word cls_ptr base s.1))
    unfolding init_cls
    all_done = rw (size_d, size_b, at_base, behind) refl
      where
        size_d : sub32 (cdata_start + d) cdata_start ≡ d
        size_d = omega (arith, hd)

        size_b : sub32 (cbss_start + b) cbss_start ≡ b
        size_b = omega (arith, hb)

        at_base : cls_base_addr cfg (hart cfg cl i) d b ≡ base
        at_base = omega (arith, cls_base_addr_lem v cl i d b hc hi ends holds)

        behind : u32 (add64 base d) ≡ base + d
        behind = omega (arith, holds, ends)

    -- What the DM core's transfers do to the memory, before the word is stored.
    on_dm :
        i + 1 ≡ cfg.cluster_core_num
        → after ≡ (
          (wait_all e cleared.0 cleared.1).0,
          store_word cls_ptr base (wait_all e cleared.0 cleared.1).1,
        )
    on_dm last = all_done ∙ rw ((role-hart v cl i hc hi).0.1 last) refl

    off_dm : ¬ (i + 1 ≡ cfg.cluster_core_num) → after ≡ (f, store_word cls_ptr base m)
    off_dm n = all_done ∙ elim (Bool-cases (is_dm_core cfg (hart cfg cl i))) [
      | inl t ↦ absurd (n ((role-hart v cl i hc hi).0.0 t))
      | inr t ↦ rw t refl
    ]

    inside :
        (x : ℕ)
        → x < d + b
        → (wait_all e cleared.0 cleared.1).1 (base + x)
          ≡ (if ltb x d then m (cdata_start + x) else 0)
    inside x lx = set (base + x) ∙ elim (dec_lt x d) [
      | yes l ↦
          set-outside (base + d) b (base + x) 0 _ (inl (omega (arith, l)))
          ∙ rw (lt→ltb x d l) (e.copied base cdata_start d m x (inr separate) l)
      | no g ↦
          set-inside (base + d) b (base + x) 0 _ (omega (arith, g)) (omega (arith, lx))
          ∙ rw (le→ltb x d (omega (arith, g))) refl
    ]

    outside :
        (a : ℕ) → (a < base) ⊎ (base + (d + b) ≤ a) → (wait_all e cleared.0 cleared.1).1 a ≡ m a
    outside a o =
        set a
        ∙ set-outside (base + d) b a 0 _
            (elim o [ inl l ↦ inl (omega (arith, l)) | inr g ↦ inr (omega (arith, g)) ])
        ∙ e.kept base cdata_start d m a (elim o [ inl l ↦ inl l | inr g ↦ inr (omega (arith, g)) ])

    -- In a valid configuration, for two sections that fit the TCDM and a section .cdata in memory
    -- that does not overlap with the cluster-local storage, a word _cls_ptr of the calling core
    -- that does not overlap with that storage either, on an idle front-end and an engine that
    -- copies transfers in order: after snrt_init_cls on any core of a cluster the front-end is
    -- idle and _cls_ptr holds, least significant byte first, the base of the cluster-local
    -- storage. If the core is the DM core, the last bytes of the cluster's TCDM hold the section
    -- .cdata followed by zeros for .cbss; if it is another one, they are as before. No other byte
    -- has changed.
    pub init_cls_lem :
        (cls_ptr + 4 ≤ cls_start cfg cl d b) ⊎ (cls_start cfg cl d b + (d + b) ≤ cls_ptr)
        → (x k a : ℕ) → x < d + b
        → k < 4
        → (a < cls_start cfg cl d b) ⊎ (cls_start cfg cl d b + (d + b) ≤ a)
        → (a < cls_ptr) ⊎ (cls_ptr + 4 ≤ a)
        → let (f', m') =
            init_cls e cfg
              (hart cfg cl i)
              cls_ptr
              cdata_start
              (cdata_start + d)
              cbss_start
              (cbss_start + b)
              f
              m in
          (f'.pending ≡ [])
          × (m' (cls_ptr + k) ≡ cls_start cfg cl d b / 256 ^ k % 256)
          × (m' (cls_start cfg cl d b + x) ≡ (
              if i + 1 == cfg.cluster_core_num
              then (if ltb x d then m (cdata_start + x) else 0)
              else m (cls_start cfg cl d b + x)))
          × (m' a ≡ m a)
    init_cls_lem p x k a lx lk o q = elim (ℕ_discrete (i + 1) cfg.cluster_core_num) [
      | yes last ↦ rw (on_dm last) (
        all_idle,
        word-inside cls_ptr base k _ lk,
        word-outside cls_ptr base (base + x) _ (beside p)
            ∙ inside x lx
            ∙ rw ((==_iff (i + 1) cfg.cluster_core_num).1 last) refl,
        word-outside cls_ptr base a _ q ∙ outside a o,
      )
      | no n ↦ rw (off_dm n) (
        idle,
        word-inside cls_ptr base k m lk,
        word-outside cls_ptr base (base + x) m (beside p) ∙ ground (arith, n),
        word-outside cls_ptr base a m q,
      )
    ]
      where
        beside :
            (cls_ptr + 4 ≤ base) ⊎ (base + (d + b) ≤ cls_ptr)
            → (base + x < cls_ptr) ⊎ (cls_ptr + 4 ≤ base + x)
        beside (inl l) = inr (omega (arith, l))
        beside (inr g) = inl (omega (arith, g, lx))
