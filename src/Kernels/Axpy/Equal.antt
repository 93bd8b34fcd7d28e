-- ===== src/Kernels/Axpy/Equal.antt =====
-- `axpy_opt` does what `axpy_fma` does.
use snitch_cluster_chips_it.Prelude.{
  ℕ, zero, suc, ◌+◌, ◌*◌, ◌/◌, ◌%◌, ◌^◌, ◌≤◌, ◌<◌, ◌≡◌, refl, sym, ap, ap₂, ◌∙◌, arith, lt→ltb,
  le→ltb, add32, sub32, mul32, mul-suc_le, mul_mono, replace, replace-other,
}
use native.Mathlib.Decide.{ℕ_discrete}
use native.Mathlib.Nat.{mul-div_cancel, add-mul-mod_self_left, mod-eq_of_lt}
use snitch_cluster_chips_it.Team.{Config, cluster_core_idx, cluster_compute_core_num}
use snitch_cluster_chips_it.Ssr.{Regs, dm_all, loop_1d, read, write, write_ssr_cfg}
use snitch_cluster_chips_it.Ssr.AddrGen.{Gen, step, after, launch, load}
use snitch_cluster_chips_it.Ssr.Registers.{Fits}
use snitch_cluster_chips_it.Ssr.Level.{nest1}
use snitch_cluster_chips_it.Ssr.Program.{offset}
use snitch_cluster_chips_it.Ssr.Loops.{loop_1d-nest}
use snitch_cluster_chips_it.Kernels.Axpy.{
  load as fetch, element, Memory, store, strided, axpy_fma, Streams, remember, Ahead, fmadd_streams,
  frep, axpy_opt,
}

-- No element of one array is an element of the other.
abbrev pub Apart : (p n u v : ℕ) → Type 0
Apart p n u v = (i j : ℕ) → i < n → j < n → ¬ (element u i % p ≡ element v j % p)

-- A word modulo the pointers' width.
pub mod-word : (p q : ℕ) → p * q ≡ 2 ^ 32 → (n : ℕ) → n % 2 ^ 32 % p ≡ n % p
mod-word p q e n =
    sym (add-mul-mod_self_left (n % 2 ^ 32) p (q * (n / 2 ^ 32)))
    ∙ ap (λ t. t % p) (omega (arith, ap (λ (t : ℕ). t * (n / 2 ^ 32)) e))

-- Where the stream of one operand is after `k` elements.
module _ (im p q : ℕ) (e : p * q ≡ 2 ^ 32) (pos : 0 < im) (cores m : ℕ)
    (fits : Fits im m (mul32 cores 8)) where
  stream-element :
      (dm base i k : ℕ) (regs : Regs)
      → cores * 8 < 2 ^ 32
      → k < m
      → (after im p 0 k
            (launch im p (loop_1d dm m (mul32 cores 8) regs) dm (element base i))).pointer
          % p
        ≡ element base (i + k * cores) % p
  unfolding element
  stream-element dm base i k regs small lt =
      (loop_1d-nest im p q e pos dm (element base i) regs m (mul32 cores 8) k fits (omega arith)).1
      ∙ sym (mod-word p q e (element base i + offset (nest1 m (mul32 cores 8)) k))
      ∙ ap (λ t. t % p) (omega (arith, strides))
    where
      strides : k % m * mul32 cores 8 ≡ k * cores * 8
      strides = ap₂ (λ (a b : ℕ). a * b) (mod-eq_of_lt lt) (mod-eq_of_lt small) ∙ omega arith

-- The elements `i`, `i + cores`, ... of a core, one after the other.
module _ {ℓ} {F : Type ℓ} (p : ℕ) (op : F → F → F → F) (cores : ℕ) (a : F) (x y z i : ℕ) where
  unfoldable pub one : (k : ℕ) → Memory F → Memory F
  unfolding store fetch
  one k mem =
      store p (element z (i + k * cores))
        (op a (fetch p mem (element x (i + k * cores))) (fetch p mem (element y (i + k * cores))))
        mem

  unfoldable pub elements : ℕ → Memory F → Memory F
  unfolding one
  elements zero mem = mem
  elements (suc k) mem = one k (elements k mem)

  -- With enough fuel the loop runs through all elements of the core.
  pub strided-elements :
      (n m fuel j : ℕ) (mem : Memory F)
      → n ≡ m * cores
      → i < cores
      → n + cores < 2 ^ 32
      → j ≤ m
      → m ≤ j + fuel
      → strided p op cores n a x y z fuel (i + j * cores) (elements j mem) ≡ elements m mem
  unfolding strided elements one
  strided-elements n m zero j mem en lt small le enough = ap (λ k. elements k mem) (omega arith)
  strided-elements n m (suc fuel) j mem en lt small le enough = elim (ℕ_discrete j m) [
    | yes d ↦
        rw (le→ltb (i + j * cores) n (omega (arith, en, ap (λ (t : ℕ). t * cores) d)))
          (ap (λ k. elements k mem) d)
    | no d ↦
        rw
          (lt→ltb (i + j * cores) n
            (omega (arith, en, lt, mul-suc_le j m cores (omega (arith, le, d)))))
          (ap (λ t. strided p op cores n a x y z fuel t (elements (suc j) mem)) (next d)
            ∙ strided-elements n m fuel (suc j) mem en lt small (omega (arith, le, d))
                (omega (arith, enough)))
  ]
    where
      next : ¬ (j ≡ m) → add32 (i + j * cores) cores ≡ i + suc j * cores
      next d =
          mod-eq_of_lt (omega (arith, en, lt, small, mul-suc_le j m cores (omega (arith, le, d))))
          ∙ omega arith

module _ {ℓ} {F : Type ℓ} (im p : ℕ) (fmadd : F → F → F → F) (a : F) (ahead : Ahead) where
  -- The streams advance by one element with each repetition.
  frep-after :
      (t : ℕ) (s : Streams F)
      → let r = frep im p fmadd t a ahead s in
        (r.ft0 ≡ after im p 0 (suc t) s.ft0)
        × (r.ft1 ≡ after im p 0 (suc t) s.ft1)
        × (r.ft2 ≡ after im p 0 (suc t) s.ft2)
  unfolding frep fmadd_streams after
  frep-after zero s = (refl, refl, refl)
  frep-after (suc t) s =
      let r = frep-after t s in (ap (step im p 0) r.0, ap (step im p 0) r.1, ap (step im p 0) r.2)

  module _ (x y z i cores m : ℕ) where
    abbrev at : (base k : ℕ) → ℕ
    at base k = element base (i + k * cores) % p

    -- A pointer stands at element `k` of the core.
    abbrev At : ℕ → ℕ → Gen → Type 0
    At base k g = g.pointer % p ≡ at base k

    -- Whenever an operand of the core is fetched, it is what it was at first.
    abbrev Steady : Memory F → Streams F → Type ℓ
    Steady old s =
        (j k : ℕ) → k < m → (s.past j (at x k) ≡ old (at x k)) × (s.past j (at y k) ≡ old (at y k))

    fmadd_streams-one :
        (old : Memory F) (s : Streams F) (k : ℕ)
        → k < m
        → Steady old s
        → At x k s.ft0
        → At y k s.ft1
        → At z k s.ft2
        → (fmadd_streams im p fmadd a (ahead k) s).past 0 ≡ one p fmadd cores a x y z i k (s.past 0)
    unfolding fmadd_streams remember one store fetch
    fmadd_streams-one old s k lk st e0 e1 e2 =
        rw (e0, e1, e2)
          (ap₂ (λ u v. replace (at z k) (fmadd a u v) (s.past 0))
            ((st (ahead k).0 k lk).0 ∙ sym (st 0 k lk).0)
            ((st (ahead k).1 k lk).1 ∙ sym (st 0 k lk).1))

    module _ (ax : (k h : ℕ) → k < m → h < m → ¬ (at x k ≡ at z h))
        (ay : (k h : ℕ) → k < m → h < m → ¬ (at y k ≡ at z h)) where
      fmadd_streams-Steady :
          (old : Memory F) (s : Streams F) (h : ℕ)
          → h < m
          → At z h s.ft2
          → Steady old s
          → Steady old (fmadd_streams im p fmadd a (ahead h) s)
      unfolding fmadd_streams remember store
      fmadd_streams-Steady old s h lh e st zero k lk = rw e (
        replace-other (at z h) (at x k) _ (s.past 0) (ax k h lk lh) ∙ (st 0 k lk).0,
        replace-other (at z h) (at y k) _ (s.past 0) (ay k h lk lh) ∙ (st 0 k lk).1,
      )
      fmadd_streams-Steady old s h lh e st (suc j) k lk = st j k lk

      frep-elements :
          (t : ℕ) (s : Streams F)
          → ((k : ℕ) → k < m → At x k (after im p 0 k s.ft0))
          → ((k : ℕ) → k < m → At y k (after im p 0 k s.ft1))
          → ((k : ℕ) → k < m → At z k (after im p 0 k s.ft2))
          → Steady (s.past 0) s
          → t < m
          → ((frep im p fmadd t a ahead s).past 0
              ≡ elements p fmadd cores a x y z i (suc t) (s.past 0))
            × Steady (s.past 0) (frep im p fmadd t a ahead s)
      unfolding frep elements after
      frep-elements zero s h0 h1 h2 st lt = (
        fmadd_streams-one (s.past 0) s 0 lt st (h0 0 lt) (h1 0 lt) (h2 0 lt),
        fmadd_streams-Steady (s.past 0) s 0 lt (h2 0 lt) st,
      )
      frep-elements (suc t) s h0 h1 h2 st lt =
          let r = frep-after t s in
          let before = frep-elements t s h0 h1 h2 st (omega (arith, lt)) in
          (
            fmadd_streams-one (s.past 0) (frep im p fmadd t a ahead s) (suc t) lt before.1
                  (ap (λ g. g.pointer % p) r.0 ∙ h0 (suc t) lt)
                  (ap (λ g. g.pointer % p) r.1 ∙ h1 (suc t) lt)
                  (ap (λ g. g.pointer % p) r.2 ∙ h2 (suc t) lt)
                ∙ ap (one p fmadd cores a x y z i (suc t)) before.0,
            fmadd_streams-Steady (s.past 0) (frep im p fmadd t a ahead s) (suc t) lt
                (ap (λ g. g.pointer % p) r.2 ∙ h2 (suc t) lt) before.1,
          )

-- All streams are programmed at once, and each one's loops are as if it were alone.
module _ (im p m s : ℕ) (regs : Regs) where
  abbrev programmed : Regs
  programmed = loop_1d dm_all m s regs

  launch-ft0 :
      (ptr : ℕ)
      → launch im p (read 0 0 ptr programmed) 0 ptr ≡ launch im p (loop_1d 0 m s regs) 0 ptr
  unfolding launch load loop_1d write_ssr_cfg read
  launch-ft0 ptr = refl

  launch-ft1 :
      (ptr0 ptr : ℕ)
      → launch im p (read 1 0 ptr (read 0 0 ptr0 programmed)) 1 ptr
        ≡ launch im p (loop_1d 1 m s regs) 1 ptr
  unfolding launch load loop_1d write_ssr_cfg read
  launch-ft1 ptr0 ptr = refl

  launch-ft2 :
      (ptr0 ptr1 ptr : ℕ)
      → launch im p (write 2 0 ptr (read 1 0 ptr1 (read 0 0 ptr0 programmed))) 2 ptr
        ≡ launch im p (loop_1d 2 m s regs) 2 ptr
  unfolding launch load loop_1d write_ssr_cfg read write
  launch-ft2 ptr0 ptr1 ptr = refl

-- What a core computes when all cores take equally many elements.
pub axpy_fma-elements {ℓ} :
    {F : Type ℓ} (p : ℕ) (fmadd : F → F → F → F) (cfg : Config) (hartid n m : ℕ) (a : F) (x y z : ℕ)
    (mem : Memory F)
    → n ≡ m * cluster_compute_core_num cfg
    → n + 8 * cluster_compute_core_num cfg < 2 ^ 32
    → cluster_core_idx cfg hartid < cluster_compute_core_num cfg
    → axpy_fma p cfg hartid n a x y z fmadd mem
      ≡ elements p fmadd (cluster_compute_core_num cfg) a x y z (cluster_core_idx cfg hartid) m mem
unfolding axpy_fma elements
axpy_fma-elements p fmadd cfg hartid n m a x y z mem en small compute =
    ap (λ j. strided p fmadd (cluster_compute_core_num cfg) n a x y z n j mem) from_i
    ∙ strided-elements p fmadd (cluster_compute_core_num cfg) a x y z (cluster_core_idx cfg hartid)
        n m n 0 mem en compute (omega (arith, small)) (omega arith)
        (omega (arith, en, mul_mono 1 (cluster_compute_core_num cfg) m (omega (arith, compute))))
  where
    from_i :
        cluster_core_idx cfg hartid ≡ cluster_core_idx cfg hartid + 0 * cluster_compute_core_num cfg
    from_i = omega arith

module _ {ℓ} {F : Type ℓ} (im p q : ℕ) (e : p * q ≡ 2 ^ 32) (pos : 0 < im)
    (fmadd : F → F → F → F) where
  module _ (cfg : Config) (hartid n m : ℕ) (a : F) (x y z : ℕ) (ahead : Ahead) (regs : Regs)
      (mem : Memory F) where
    pub axpy_opt-axpy_fma :
        n ≡ m * cluster_compute_core_num cfg
        → (1 ≤ m) × (m ≤ im)
        → n + 8 * cluster_compute_core_num cfg < 2 ^ 32
        → cluster_core_idx cfg hartid < cluster_compute_core_num cfg
        → Apart p n x z
        → Apart p n y z
        → axpy_opt im p fmadd cfg hartid n a x y z ahead regs mem
          ≡ axpy_fma p cfg hartid n a x y z fmadd mem
    unfolding axpy_opt
    axpy_opt-axpy_fma en range small compute ax ay =
        ap (λ w. (frep im p fmadd (sub32 w 1) a ahead (streams w)).past 0) frac
        ∙ (frep-elements im p fmadd a ahead x y z i cores m
            (λ k h lk lh. ax _ _ (below k lk) (below h lh))
            (λ k h lk lh. ay _ _ (below k lk) (below h lh)) (sub32 m 1) (streams m)
            (λ k lt.
              ap (λ g. (after im p 0 k g).pointer % p) (launch-ft0 im p m (mul32 cores 8) regs _)
              ∙ stream-element im p q e pos cores m fits 0 x i k regs narrow lt)
            (λ k lt.
              ap (λ g. (after im p 0 k g).pointer % p) (launch-ft1 im p m (mul32 cores 8) regs _ _)
              ∙ stream-element im p q e pos cores m fits 1 y i k regs narrow lt)
            (λ k lt.
              ap (λ g. (after im p 0 k g).pointer % p)
                (launch-ft2 im p m (mul32 cores 8) regs _ _ _)
              ∙ stream-element im p q e pos cores m fits 2 z i k regs narrow lt)
            (λ j k lk. (refl, refl)) (omega (arith, fits))).0
        ∙ ap (λ k. elements p fmadd cores a x y z i k mem) all_m
        ∙ sym (axpy_fma-elements p fmadd cfg hartid n m a x y z mem en small compute)
      where
        cores : ℕ
        cores = cluster_compute_core_num cfg

        i : ℕ
        i = cluster_core_idx cfg hartid

        below : (k : ℕ) → k < m → i + k * cores < n
        below k lk = omega (arith, en, compute, mul-suc_le k m cores lk)

        narrow : cores * 8 < 2 ^ 32
        narrow = omega (arith, small)

        streams : ℕ → Streams F
        streams w =
            let r = programmed im p w (mul32 cores 8) regs in
            let r0 = read 0 0 (element x i) r in
            let r1 = read 1 0 (element y i) r0 in
            record {
              ft0 = launch im p r0 0 (element x i);
              ft1 = launch im p r1 1 (element y i);
              ft2 = launch im p (write 2 0 (element z i) r1) 2 (element z i);
              past = λ j. mem;
            }

        fits : Fits im m (mul32 cores 8)
        fits = (
          range.0,
          range.1,
          omega (arith, en, small, mul_mono 1 cores m (omega (arith, compute))),
          omega arith,
          omega arith,
        )

        all_m : suc (sub32 m 1) ≡ m
        all_m = omega (arith, fits)

        frac : n / cores ≡ m
        frac = ap (λ w. w / cores) en ∙ mul-div_cancel m (omega (arith, compute))
