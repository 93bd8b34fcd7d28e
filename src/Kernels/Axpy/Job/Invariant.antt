-- ===== src/Kernels/Axpy/Job/Invariant.antt =====
-- The invariant of the iterations of `axpy_job`: how many tiles are loaded, computed and stored, and what
-- the buffers and L3 hold.
use snitch_cluster_chips_it.Prelude.{
  ℕ, suc, ◌+◌, ◌*◌, ◌/◌, ◌%◌, ◌^◌, ◌≤◌, ◌<◌, ◌≡◌, ap, ◌∙◌, arith, mul32, mul_mono, mul-suc_le,
}
use snitch_cluster_chips_it.Kernels.Axpy.{element, Memory}
use snitch_cluster_chips_it.Kernels.Axpy.Cores.{Distinct}
use snitch_cluster_chips_it.Kernels.Axpy.Equal.{Apart}
use snitch_cluster_chips_it.Kernels.Axpy.Job.{Args, Memories}
use snitch_cluster_chips_it.Kernels.Axpy.Job.Layout.{Cells}
use snitch_cluster_chips_it.Kernels.Axpy.Job.Transfers.{element-element}

-- A kernel that computes `f` of each pair of elements and writes nothing but Z.
pub record Elementwise {ℓ} {F : Type ℓ} (p n : ℕ) (f : F → F → F → F)
    (kernel : (n : ℕ) (a : F) (x y z : ℕ) → Memory F → Memory F) : Type ℓ where
  pub value :
      (a : F) (x y z i : ℕ) (mem : Memory F)
      → Apart p n x z
      → Apart p n y z
      → Distinct p n z
      → i < n
      → kernel n a x y z mem (element z i % p) ≡ f a (mem (element x i % p)) (mem (element y i % p))
  pub keeps :
      (a : F) (x y z address : ℕ) (mem : Memory F)
      → Apart p n x z
      → Apart p n y z
      → Distinct p n z
      → ((i : ℕ) → i < n → ¬ (address ≡ element z i % p))
      → kernel n a x y z mem address ≡ mem address

-- The arrays in L3: Z does not overlap with X and Y nor with itself.
pub record Remote {ℓ} {F : Type ℓ} (args : Args F) : Type ℓ where
  pub whole : args.n ≡ args.n_tiles * (args.n / args.n_tiles)
  pub small : args.n < 2 ^ 32
  pub from_x : (i j : ℕ) → i < args.n → j < args.n → ¬ (element args.x i ≡ element args.z j)
  pub from_y : (i j : ℕ) → i < args.n → j < args.n → ¬ (element args.y i ≡ element args.z j)
  pub distinct : (i j : ℕ) → i < args.n → j < args.n → element args.z i ≡ element args.z j → i ≡ j

module _ {ℓ} {F : Type ℓ} (p : ℕ) (args : Args F) (buffers : ℕ → ℕ)
    (kernel : (i n : ℕ) (a : F) (x y z : ℕ) → Memory F → Memory F) (f : F → F → F → F)
    (k : (i : ℕ) → Elementwise p (args.n / args.n_tiles) f (kernel i))
    (cells : Cells p (args.n / args.n_tiles) buffers) (r : Remote args) (old : Memories F) where
  abbrev pub size : ℕ
  size = args.n / args.n_tiles

  abbrev pub buf : (q j : ℕ) → ℕ
  buf q j = element (buffers q) j % p

  -- The element of the result.
  abbrev pub wanted : ℕ → F
  wanted o = f args.a (old.l3 (element args.x o)) (old.l3 (element args.y o))

  -- In iteration i: the tiles below `loaded` are loaded, those below `done` computed and those below
  -- `stored` stored, so far as their buffers are still in use.
  pub record State (i loaded done stored : ℕ) (s : Memories F) : Type ℓ where
    pub input :
        (o : ℕ)
        → o < args.n
        → (s.l3 (element args.x o) ≡ old.l3 (element args.x o))
          × (s.l3 (element args.y o) ≡ old.l3 (element args.y o))
    pub operands :
        (t j : ℕ)
        → t < loaded
        → i ≤ suc t
        → t < args.n_tiles
        → j < size
        → (s.l1 (buf (3 * (t % 2)) j) ≡ old.l3 (element args.x (t * size + j)))
          × (s.l1 (buf (3 * (t % 2) + 1) j) ≡ old.l3 (element args.y (t * size + j)))
    pub results :
        (t j : ℕ)
        → t < done
        → i ≤ suc (suc t)
        → t < args.n_tiles
        → j < size
        → s.l1 (buf (3 * (t % 2) + 2) j) ≡ wanted (t * size + j)
    pub outputs :
        (t j : ℕ)
        → t < stored
        → t < args.n_tiles
        → j < size
        → s.l3 (element args.z (t * size + j)) ≡ wanted (t * size + j)

  pub within : (t j : ℕ) → t < args.n_tiles → j < size → t * size + j < args.n
  within t j lt lj = omega (arith, r.whole, lj, mul-suc_le t args.n_tiles size lt)

  pub remote :
      (base t j : ℕ)
      → t < args.n_tiles
      → element (element base (mul32 t size)) j ≡ element base (t * size + j)
  remote base t j lt = element-element base (mul32 t size) j ∙ ap (λ w. element base (w + j)) plain
    where
      plain : mul32 t size ≡ t * size
      plain = omega (arith, r.whole, r.small, mul_mono t args.n_tiles size (omega (arith, lt)))

  pub other_buffer :
      (q u j : ℕ)
      → q < 6
      → u < 6
      → j < size
      → ¬ (q ≡ u)
      → (i : ℕ) → i < size
      → ¬ (buf q j ≡ buf u i)
  other_buffer q u j lq lu lj d i li e = d (cells q u j i lq lu lj li e).0
