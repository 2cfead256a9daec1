-- ===== src/ProcessList/Lines.antt =====
-- `getline_clone` returns lines.
use tlpi_exercises.Prelude.{
  ℕ, ◌+◌, ◌*◌, ◌≡◌, ◌≢◌, refl, Bool, true, some, List, [], ◌∷◌, ◌++◌, Bytes, length, leb,
  if◌then◌else◌, arith, append_assoc, append-nil,
}
use tlpi_exercises.ProcessList.{Item, byte, newline, getline_loop, getline_clone}

-- No byte of the string is `c`.
abbrev pub Lacks : ℕ → Bytes → Type 0
Lacks c [] = Unit
Lacks c (b ∷ bs) = (b ≢ c) × Lacks c bs

abbrev pub bytes : Bytes → List Item
bytes [] = []
bytes (b ∷ bs) = byte b ∷ bytes bs

-- A line in a file, with its newline.
abbrev pub line_item : Bytes → List Item → List Item
line_item bs items = bytes bs ++ (byte newline ∷ items)

module _ (memory : ℕ → Bool) (enough : (n : ℕ) → memory n ≡ true) where
  getline_loop-line :
      (size : ℕ) (line bs : Bytes) (items : List Item)
      → Lacks newline bs
      → getline_loop memory size line (line_item bs items) ≡ (some (line ++ bs), items)
  unfolding getline_loop
  getline_loop-line size line [] items clean =
      let room = enough (size * 2) in ground (arith, append-nil line)
  getline_loop-line size line (b ∷ bs) items clean = ground (
    arith,
    enough (size * 2),
    getline_loop-line (if leb size (length line + 1) then size * 2 else size) (line ++ b ∷ []) bs
        items clean.1,
    append_assoc line (b ∷ []) bs,
  )

  pub getline_clone-line :
      (bs : Bytes) (items : List Item)
      → Lacks newline bs
      → getline_clone memory (line_item bs items) ≡ (some bs, items)
  unfolding getline_clone
  getline_clone-line bs items clean = rw (enough 64) (getline_loop-line 64 [] bs items clean)

  -- At the end of the file every line is empty.
  pub getline_clone_end : getline_clone memory [] ≡ (some [], [])
  unfolding getline_clone
  getline_clone_end = rw (enough 64) refl
