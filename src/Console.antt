-- ===== src/Console.antt =====
-- sw/runtime/impl/putchar.c (the variant without OpenOCD): the buffer of the calling hart, and the
-- characters that its system calls have written to the standard output.
use snitch_cluster_chips_it.Prelude.{
  ℕ, zero, suc, ◌+◌, ◌≤◌, ◌<◌, ◌≡◌, ◌||◌, List, [], ◌∷◌, ◌++◌, ◌==◌, if◌then◌else◌, replace,
}
pub mod Output

-- `1024 - sizeof(size_t)`
abbrev pub putc_buffer_len : ℕ
putc_buffer_len = 1020

abbrev pub newline : ℕ
newline = 10

-- `putc_buffer[snrt_hartid()]` and the standard output
pub record Console : Type 0 where
  pub size : ℕ
  pub chars : ℕ → ℕ
  pub stdout : List ℕ

-- The first `n` characters of the buffer.
unfoldable pub bytes : (chars : ℕ → ℕ) → (n : ℕ) → List ℕ
bytes chars zero = []
bytes chars (suc n) = bytes chars n ++ (chars n ∷ [])

-- A full buffer or the end of a line is written by a system call under the mutex, and the buffer emptied.
unfoldable pub putchar : (character : ℕ) → Console → Console
unfolding bytes
putchar character c =
    let chars = replace c.size character c.chars in
    let size = suc c.size in
    if (size == putc_buffer_len) || (character == newline)
    then record { size = 0; chars = chars; stdout = c.stdout ++ bytes chars size }
    else record { size = size; chars = chars; stdout = c.stdout }

-- A string, character by character.
unfoldable pub print : List ℕ → Console → Console
unfolding putchar
print [] c = c
print (x ∷ xs) c = print xs (putchar x c)
