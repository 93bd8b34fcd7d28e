-- ===== src/Kernels/Gemm/Naive.antt =====
-- What a kernel promises, and that `gemm_fp64_naive` keeps it.
use snitch_cluster_chips_it.Prelude.{
  ℕ, ◌<◌, ◌≡◌, refl, sym, ap, ap₂, ◌∙◌, replace, replace-same, replace-other, for_each,
  for_each-keeps, for_each-at, for_each-cong,
}
use snitch_cluster_chips_it.Team.{Config}
use snitch_cluster_chips_it.Kernels.Axpy.{element, Memory}
use snitch_cluster_chips_it.Kernels.Gemm.{
  Layout, a_index, b_index, c_index, Number, multiply_opt, inner, gemm_fp64_naive, Kernel,
}

-- The cells of `C` are apart from one another and from those of `A` and `B`.
pub record Separate (cfg : Config) (l : Layout) (m_size n_size k_size a b c : ℕ) : Type 0 where
  pub from_a :
      (m n h k : ℕ)
      → m < m_size
      → n < n_size
      → h < m_size
      → k < k_size
      → ¬ (element a (a_index cfg l m_size h k) ≡ element c (c_index cfg l m n))
  pub from_b :
      (m n h k : ℕ)
      → m < m_size
      → n < n_size
      → h < n_size
      → k < k_size
      → ¬ (element b (b_index cfg l k h) ≡ element c (c_index cfg l m n))
  pub distinct :
      (m n g h : ℕ)
      → m < m_size
      → n < n_size
      → g < m_size
      → h < n_size
      → element c (c_index cfg l m n) ≡ element c (c_index cfg l g h)
      → (m ≡ g) × (n ≡ h)

-- The contract of a kernel: entry (m, n) of C is `inner`, and no other cell changes.
pub record Computes {ℓ} {F : Type ℓ} (num : Number F) (cfg : Config) (kernel : Kernel F)
    : Type ℓ where
  pub entry :
      (l : Layout) (m_size n_size k_size a b beta c m n : ℕ) (mem : Memory F)
      → Separate cfg l m_size n_size k_size a b c
      → m < m_size
      → n < n_size
      → kernel l m_size n_size k_size a b beta c mem (element c (c_index cfg l m n))
        ≡ inner num cfg l m_size k_size a b beta c m n mem
  pub keeps :
      (l : Layout) (m_size n_size k_size a b beta c address : ℕ) (mem : Memory F)
      → ((m n : ℕ) → m < m_size → n < n_size → ¬ (address ≡ element c (c_index cfg l m n)))
      → kernel l m_size n_size k_size a b beta c mem address ≡ mem address

module _ {ℓ} {F : Type ℓ} (num : Number F) (cfg : Config) (l : Layout)
    (m_size n_size k_size a b beta c : ℕ) where
  abbrev cell : (m n : ℕ) → ℕ
  cell m n = element c (c_index cfg l m n)

  abbrev value : (m n : ℕ) → Memory F → F
  value m n = inner num cfg l m_size k_size a b beta c m n

  -- `inner` reads a row of A, a column of B and the entry of C.
  pub inner-cong :
      (m n : ℕ) (t u : Memory F)
      → ((k : ℕ)
          → k < k_size
          → t (element a (a_index cfg l m_size m k)) ≡ u (element a (a_index cfg l m_size m k)))
      → ((k : ℕ)
          → k < k_size
          → t (element b (b_index cfg l k n)) ≡ u (element b (b_index cfg l k n)))
      → t (cell m n) ≡ u (cell m n)
      → value m n t ≡ value m n u
  unfolding inner
  inner-cong m n t u ea eb ec =
      for_each-cong k_size _ _ _ _ (λ k c0 lt. ap₂ (λ x y. num.mac c0 x y) (ea k lt) (eb k lt))
        (ap (λ v. multiply_opt num v beta) ec)

  naive-keeps :
      (address : ℕ) (mem : Memory F)
      → ((m n : ℕ) → m < m_size → n < n_size → ¬ (address ≡ cell m n))
      → gemm_fp64_naive num cfg l m_size k_size a b beta c n_size mem address ≡ mem address
  unfolding gemm_fp64_naive
  naive-keeps address mem ne =
      for_each-keeps (λ t. t address ≡ mem address) m_size _ mem
        (λ m t lm p.
          for_each-keeps (λ u. u address ≡ mem address) n_size _ t
            (λ n u ln q. replace-other (cell m n) address (value m n u) u (ne m n lm ln) ∙ q) p)
        refl

  module _ (s : Separate cfg l m_size n_size k_size a b c) (mem : Memory F) where
    -- The operands are still what they were.
    abbrev Operands : Memory F → Type ℓ
    Operands t =
        ((h k : ℕ)
          → h < m_size
          → k < k_size
          → t (element a (a_index cfg l m_size h k)) ≡ mem (element a (a_index cfg l m_size h k)))
        × ((h k : ℕ)
            → h < n_size
            → k < k_size
            → t (element b (b_index cfg l k h)) ≡ mem (element b (b_index cfg l k h)))

    abbrev body : (m n : ℕ) → Memory F → Memory F
    body m n t = replace (cell m n) (value m n t) t

    body-Operands :
        (m n : ℕ) (t : Memory F) → m < m_size → n < n_size → Operands t → Operands (body m n t)
    body-Operands m n t lm ln o = (
      λ h k lh lk.
          replace-other (cell m n) _ (value m n t) t (s.from_a m n h k lm ln lh lk) ∙ o.0 h k lh lk,
      λ h k lh lk.
          replace-other (cell m n) _ (value m n t) t (s.from_b m n h k lm ln lh lk) ∙ o.1 h k lh lk,
    )

    -- Entry (m, n) holds `v`.
    abbrev Entry : (m n : ℕ) → F → Memory F → Type ℓ
    Entry m n v t = Operands t × (t (cell m n) ≡ v)

    body-other :
        (m n g h : ℕ) (v : F) (t : Memory F)
        → m < m_size
        → n < n_size
        → g < m_size
        → h < n_size
        → ¬ ((g ≡ m) × (h ≡ n))
        → Entry m n v t
        → Entry m n v (body g h t)
    body-other m n g h v t lm ln lg lh ne (o, e) = (
      body-Operands g h t lg lh o,
      replace-other (cell g h) (cell m n) (value g h t) t (λ q.
            ne (sym (s.distinct m n g h lm ln lg lh q).0, sym (s.distinct m n g h lm ln lg lh q).1))
          ∙ e,
    )

    body-this :
        (m n : ℕ) (t : Memory F)
        → m < m_size
        → n < n_size
        → Entry m n (mem (cell m n)) t
        → Entry m n (value m n mem) (body m n t)
    body-this m n t lm ln (o, e) = (
      body-Operands m n t lm ln o,
      replace-same (cell m n) (value m n t) t
          ∙ inner-cong m n t mem (λ k lk. o.0 m k lm lk) (λ k lk. o.1 n k ln lk) e,
    )

    naive-Entry :
        (m n : ℕ)
        → m < m_size
        → n < n_size
        → Entry m n (value m n mem) (gemm_fp64_naive num cfg l m_size k_size a b beta c n_size mem)
    unfolding gemm_fp64_naive
    naive-Entry m n lm ln =
        for_each-at (Entry m n (mem (cell m n))) (Entry m n (value m n mem)) m_size m _ mem lm
          (λ g t lg d p. row g lg d (mem (cell m n)) t p)
          (λ t p.
            for_each-at (Entry m n (mem (cell m n))) (Entry m n (value m n mem)) n_size n _ t ln
              (λ h u lh d q. body-other m n m h _ u lm ln lm lh (λ b. d b.1) q)
              (λ u q. body-this m n u lm ln q)
              (λ h u lh d q. body-other m n m h _ u lm ln lm lh (λ b. d b.1) q) p)
          (λ g t lg d p. row g lg d (value m n mem) t p)
          ((λ h k lh lk. refl, λ h k lh lk. refl), refl)
      where
        row :
            (g : ℕ)
            → g < m_size
            → ¬ (g ≡ m)
            → (v : F) (t : Memory F) → Entry m n v t
            → Entry m n v (for_each n_size (body g) t)
        row g lg d v t p =
            for_each-keeps (Entry m n v) n_size (body g) t
              (λ h u lh q. body-other m n g h v u lm ln lg lh (λ b. d b.0) q) p

-- gemm_fp64_naive keeps the contract Computes of a gemm kernel: for entries of C that are apart
-- from each other and from A and B every entry becomes beta times what it held plus the products
-- of its row of A and its column of B, summed in the order of k, and whatever the arguments no
-- other address changes.
pub gemm_fp64_naive-Computes {ℓ} :
    {F : Type ℓ} (num : Number F) (cfg : Config)
    → Computes num cfg (λ l m n k a b beta c. gemm_fp64_naive num cfg l m k a b beta c n)
gemm_fp64_naive-Computes num cfg = record {
  entry = λ l m_size n_size k_size a b beta c m n mem s lm ln.
      (naive-Entry num cfg l m_size n_size k_size a b beta c s mem m n lm ln).1;
  keeps = λ l m_size n_size k_size a b beta c address mem ne.
      naive-keeps num cfg l m_size n_size k_size a b beta c address mem ne;
}
