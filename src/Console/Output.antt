-- ===== src/Console/Output.antt =====
-- Every character is written once and in order, and the buffer never overflows.
use snitch_cluster_chips_it.Prelude.{
  ℕ, zero, suc, ◌≤◌, ◌<◌, ◌≡◌, ◌||◌, List, [], ◌∷◌, ◌++◌, ◌==◌, replace, replace-same,
  replace-other, refl, sym, ap, ap₂, ◌∙◌, arith, Bool-cases, inl, inr,
}
use mathlib.Core.List.{append_assoc, append-nil}
use snitch_cluster_chips_it.Console.{Console, putc_buffer_len, newline, bytes, putchar, print}

bytes-replace : (n k x : ℕ) (chars : ℕ → ℕ) → n ≤ k → bytes (replace k x chars) n ≡ bytes chars n
unfolding bytes
bytes-replace zero k x chars le = refl
bytes-replace (suc n) k x chars le =
    ap₂ (λ a b. a ++ (b ∷ [])) (bytes-replace n k x chars (omega arith))
      (replace-other k n x chars (omega arith))

-- What has been printed: the output and what is still in the buffer.
unfoldable pub printed : Console → List ℕ
printed c = c.stdout ++ bytes c.chars c.size

putchar-printed :
    (x : ℕ) (c : Console)
    → c.size < putc_buffer_len
    → (printed (putchar x c) ≡ printed c ++ (x ∷ [])) × ((putchar x c).size < putc_buffer_len)
unfolding printed putchar bytes
putchar-printed x c room = elim (Bool-cases ((suc c.size == putc_buffer_len) || (x == newline))) [
  | inl e ↦ rw e (append-nil _ ∙ stored, omega arith)
  | inr e ↦ rw e (stored, ground arith)
]
  where
    stored :
        c.stdout ++ bytes (replace c.size x c.chars) (suc c.size)
        ≡ (c.stdout ++ bytes c.chars c.size) ++ (x ∷ [])
    stored =
        ap₂ (λ a b. c.stdout ++ (a ++ (b ∷ [])))
          (bytes-replace c.size c.size x c.chars (omega arith)) (replace-same c.size x c.chars)
        ∙ sym (append_assoc c.stdout (bytes c.chars c.size) (x ∷ []))

-- From a buffer that is not full, after printing a string character by character the output
-- followed by the buffered characters is what it was followed by the string, and the buffer is
-- again not full.
pub print_lem :
    (xs : List ℕ) (c : Console)
    → c.size < putc_buffer_len
    → (printed (print xs c) ≡ printed c ++ xs) × ((print xs c).size < putc_buffer_len)
unfolding print
print_lem [] c room = (sym (append-nil (printed c)), room)
print_lem (x ∷ xs) c room =
    let (more, less) = putchar-printed x c room in
    let (rest, fits) = print_lem xs (putchar x c) less in
    (rest ∙ ap (λ l. l ++ xs) more ∙ append_assoc (printed c) (x ∷ []) xs, fits)
