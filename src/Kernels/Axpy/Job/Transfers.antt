-- ===== src/Kernels/Axpy/Job/Transfers.antt =====
-- What one transfer of `axpy_job` writes and what it leaves.
use snitch_cluster_chips_it.Prelude.{
  ℕ, ◌+◌, ◌%◌, ◌<◌, ◌≡◌, refl, sym, ◌∙◌, arith, replace-same, replace-other, for_each-keeps,
  for_each-at,
}
use snitch_cluster_chips_it.Kernels.Axpy.{element, load, store}
use snitch_cluster_chips_it.Kernels.Axpy.Cores.{Distinct}
use snitch_cluster_chips_it.Kernels.Axpy.Job.{Memories, copy_in, copy_out}

pub element-element : (base o j : ℕ) → element (element base o) j ≡ element base (o + j)
unfolding element
element-element base o j = omega arith

module _ {ℓ} {F : Type ℓ} (p dst src n : ℕ) (s : Memories F) where
  pub copy_in-keeps :
      (address : ℕ)
      → ((i : ℕ) → i < n → ¬ (address ≡ element dst i % p))
      → (copy_in p dst src n s).l1 address ≡ s.l1 address
  unfolding copy_in store
  copy_in-keeps address away =
      for_each-keeps (λ t. t address ≡ s.l1 address) n _ s.l1
        (λ i t lt e. replace-other _ _ _ t (away i lt) ∙ e) refl

  pub copy_in-value :
      (j : ℕ)
      → j < n
      → Distinct p n dst
      → (copy_in p dst src n s).l1 (element dst j % p) ≡ s.l3 (element src j)
  unfolding copy_in store
  copy_in-value j lj d =
      for_each-at (λ t. Unit {0}) (λ t. t (element dst j % p) ≡ s.l3 (element src j)) n j _ s.l1 lj
        (λ i t li ne u. u) (λ t u. replace-same _ _ t)
        (λ i t li ne e. replace-other _ _ _ t (λ q. ne (sym (d j i lj li q))) ∙ e) tt

  pub copy_out-keeps :
      (address : ℕ)
      → ((i : ℕ) → i < n → ¬ (address ≡ element dst i))
      → (copy_out p dst src n s).l3 address ≡ s.l3 address
  unfolding copy_out
  copy_out-keeps address away =
      for_each-keeps (λ t. t address ≡ s.l3 address) n _ s.l3
        (λ i t lt e. replace-other _ _ _ t (away i lt) ∙ e) refl

  pub copy_out-value :
      (j : ℕ)
      → j < n
      → ((i : ℕ) → i < n → element dst j ≡ element dst i → j ≡ i)
      → (copy_out p dst src n s).l3 (element dst j) ≡ s.l1 (element src j % p)
  unfolding copy_out load
  copy_out-value j lj d =
      for_each-at (λ t. Unit {0}) (λ t. t (element dst j) ≡ s.l1 (element src j % p)) n j _ s.l3 lj
        (λ i t li ne u. u) (λ t u. replace-same _ _ t)
        (λ i t li ne e. replace-other _ _ _ t (λ q. ne (sym (d i li q))) ∙ e) tt
