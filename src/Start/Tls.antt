-- ===== src/Start/Tls.antt =====
-- What `snrt_init_tls` leaves in the thread-local storage of the cores.
use snitch_cluster_chips_it.Prelude.{
  ℕ, ◌+◌, ◌-◌, ◌*◌, ◌^◌, ◌≤◌, ◌<◌, ◌≡◌, ◌⊎◌, inl, inr, List, [], true, ltb, lt→ltb, le→ltb,
  if◌then◌else◌, refl, sym, ap, ◌∙◌, subst, arith, add32, sub32,
}
use native.Mathlib.Decide.{dec_lt, ℕ_discrete}
use snitch_cluster_chips_it.Team.{Config, is_dm_core}
use snitch_cluster_chips_it.Dma.{Transfer, Frontend, start_1d}
use snitch_cluster_chips_it.Dma.Engine.{Mem, Apart, Engine, run_all, wait_all}
use snitch_cluster_chips_it.Dma.Pending.{start_1d-run_all}
use snitch_cluster_chips_it.Start.{tls_offset, copy_tdata, clear_tbss, init_tls}
use snitch_cluster_chips_it.Start.Copies.{copies-keep, copies-value, copies-Away}
use snitch_cluster_chips_it.Start.Clears.{Cleared, loop-Cleared}

-- The sections and the storage of the cores fit together.
pub record Fits (cfg : Config) (tp tdata_start d tbss_start b : ℕ) : Type 0 where
  pub cores : 1 ≤ cfg.cluster_core_num
  pub slot : d + b ≤ tls_offset
  pub room : tp + cfg.cluster_core_num * tls_offset < 2 ^ 32
  pub tdata : tdata_start + d < 2 ^ 32
  pub tbss : tbss_start + b < 2 ^ 32
  pub apart : Apart tp d tdata_start d

module _ (e : Engine) (cfg : Config) (hartid tp tdata_start d tbss_start b : ℕ) (f : Frontend)
    (m : Mem) (fits : Fits cfg tp tdata_start d tbss_start b) (idle : f.pending ≡ [])
    (dm : is_dm_core cfg hartid ≡ true) where
  abbrev n : ℕ
  n = cfg.cluster_core_num

  -- After the DM core's own section
  abbrev first : Frontend × Mem
  first = wait_all e (start_1d tp tdata_start d 0 f) m

  first-copy : first.1 ≡ e.copy tp tdata_start d m
  unfolding wait_all run_all
  first-copy =
      start_1d-run_all e tp tdata_start d f m
      ∙ ap (λ (ts : List Transfer). e.copy tp tdata_start d (run_all e ts m)) idle

  first-value : (x : ℕ) → x < d → first.1 (tp + x) ≡ m (tdata_start + x)
  first-value x lx =
      ap (λ (g : Mem). g (tp + x)) first-copy ∙ e.copied tp tdata_start d m x (inr fits.apart) lx

  first-keeps : (a : ℕ) → (a < tp) ⊎ (tp + d ≤ a) → first.1 a ≡ m a
  first-keeps a o = ap (λ (g : Mem). g a) first-copy ∙ e.kept tp tdata_start d m a o

  first-idle : first.0.pending ≡ []
  unfolding wait_all
  first-idle = refl

  -- After the copies have been issued, which are still pending
  abbrev second : Frontend × Mem
  second = (copy_tdata e cfg tp d first.0, first.1)

  room : tp + (n - 1 + 1) * tls_offset < 2 ^ 32
  room = omega (arith, fits.room, fits.cores)

  slot : d ≤ tls_offset
  slot = omega (arith, fits.slot)

  abbrev copied : Mem
  copied = run_all e second.0.pending first.1

  copied-value : (i x : ℕ) → i < n → x < d → copied (tp + i * tls_offset + x) ≡ m (tdata_start + x)
  unfolding copy_tdata
  copied-value i x li lx = elim (ℕ_discrete i 0) [
    | yes z ↦
        subst (λ (w : ℕ). copied (tp + w * tls_offset + x) ≡ m (tdata_start + x)) (sym z)
          (ap copied (plain x)
            ∙ copies-keep e tp d slot first.0 first-idle (n - 1) first.1 (tp + x) room
                (λ j lo hi. inl (omega (arith, lo, lx, slot)))
            ∙ first-value x lx)
    | no nz ↦
        copies-value e tp d slot first.0 first-idle (n - 1) first.1 i x room (omega (arith, nz))
          (omega (arith, li)) lx
        ∙ first-value x lx
  ]
    where
      plain : (x : ℕ) → tp + 0 * tls_offset + x ≡ tp + x
      plain x = omega arith

  copied-keeps : (a : ℕ) → (a < tp) ⊎ (tp + n * tls_offset ≤ a) → copied a ≡ m a
  unfolding copy_tdata
  copied-keeps a o =
      copies-keep e tp d slot first.0 first-idle (n - 1) first.1 a room (λ j lo hi. elim o [
        | inl l ↦ inl (omega (arith, l))
        | inr g ↦ inr (omega (arith, g, hi, fits.cores, slot))
      ])
      ∙ first-keeps a (elim o [ inl l ↦ inl l | inr g ↦ inr (omega (arith, g, fits.cores, slot)) ])

  abbrev third : Frontend × Mem
  third = clear_tbss e cfg (add32 tp d) b second

  all-Cleared : Cleared e tp d b fits.slot copied n third
  unfolding clear_tbss copy_tdata
  all-Cleared = loop-Cleared e tp d b fits.slot copied n second fits.room (record {
    away = λ i. copies-Away e tp d slot first.0 first-idle (n - 1) i b room fits.slot;
    none = λ i x li lx. absurd (omega (arith, li));
    rest = λ a out. refl;
  })

  ends :
      init_tls e cfg hartid tp tdata_start (tdata_start + d) tbss_start (tbss_start + b) f m
      ≡ wait_all e third.0 third.1
  unfolding init_tls
  ends = rw (dm, size_d, size_b) refl
    where
      size_d : sub32 (tdata_start + d) tdata_start ≡ d
      size_d = omega (arith, fits.tdata)

      size_b : sub32 (tbss_start + b) tbss_start ≡ b
      size_b = omega (arith, fits.tbss)

  third-idle : (wait_all e third.0 third.1).0.pending ≡ []
  unfolding wait_all
  third-idle = refl

  third-tdata :
      (i x : ℕ)
      → i < n
      → x < d
      → (wait_all e third.0 third.1).1 (tp + i * tls_offset + x) ≡ m (tdata_start + x)
  unfolding wait_all
  third-tdata i x li lx =
      all-Cleared.rest (tp + i * tls_offset + x) (λ j lj. elim (dec_lt j i) [
        | yes l ↦ inr (omega (arith, l, fits.slot))
        | no g ↦ inl (omega (arith, g, lx))
      ])
      ∙ copied-value i x li lx

  third-tbss :
      (i x : ℕ) → i < n → x < b → (wait_all e third.0 third.1).1 (tp + d + i * tls_offset + x) ≡ 0
  unfolding wait_all
  third-tbss i x li lx = all-Cleared.none i x li lx

  third-other :
      (a : ℕ) → (a < tp) ⊎ (tp + n * tls_offset ≤ a) → (wait_all e third.0 third.1).1 a ≡ m a
  unfolding wait_all
  third-other a o =
      all-Cleared.rest a (λ i li. elim o [
        | inl l ↦ inl (omega (arith, l))
        | inr g ↦ inr (omega (arith, g, li, fits.slot))
      ])
      ∙ copied-keeps a o

  -- For any thread pointer of the DM core; byte x of the storage of the i-th core before it, and a byte
  -- outside of all storage.
  pub init_tls_lem :
      (i x a : ℕ)
      → i < cfg.cluster_core_num
      → x < d + b
      → (a < tp) ⊎ (tp + cfg.cluster_core_num * tls_offset ≤ a)
      → let (f', m') =
          init_tls e cfg hartid tp tdata_start (tdata_start + d) tbss_start (tbss_start + b) f m in
        (f'.pending ≡ [])
        × (m' (tp + i * tls_offset + x) ≡ (if ltb x d then m (tdata_start + x) else 0))
        × (m' a ≡ m a)
  init_tls_lem i x a li lx o = rw ends (third-idle, value, third-other a o)
    where
      behind : ¬ (x < d) → tp + i * tls_offset + x ≡ tp + d + i * tls_offset + (x - d)
      behind g = omega (arith, g)

      value :
          (wait_all e third.0 third.1).1 (tp + i * tls_offset + x)
          ≡ (if ltb x d then m (tdata_start + x) else 0)
      value = elim (dec_lt x d) [
        | yes l ↦ rw (lt→ltb x d l) (third-tdata i x li l)
        | no g ↦ rw (le→ltb x d (omega (arith, g))) (
            ap (wait_all e third.0 third.1).1 (behind g)
            ∙ third-tbss i (x - d) li (omega (arith, g, lx)))
      ]
