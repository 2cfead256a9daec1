-- ===== src/PathNames.antt =====
-- `dirname_ts` and `basename_ts` of 31_Thread_Safety_Storage/dirbase_name_tls.c.
--
-- A string is the list of its bytes without the null. Each thread has its own two buffers, and a
-- call overwrites its buffer from the start, so the result is what the buffer holds before the null
-- that the call writes. Where a string has more than 255 bytes the result is `none`, for `NULL`.
-- The lines that print the lengths are left out.
pub mod Reversal
pub mod Splitting
pub mod Specific
pub mod Tests
use tlpi_exercises.Prelude.{
  ℕ, zero, suc, ◌+◌, ◌-◌, Option, none, some, List, [], ◌∷◌, ◌++◌, Bytes, length, get_elem?, set,
  ltb, ◌==◌, if◌then◌else◌,
}
use mathlib.Core.Option.{get_or}

abbrev pub slash : ℕ
slash = b'/'

-- `path[i]`; behind the last byte stands the null.
abbrev pub byte_at : Bytes → ℕ → ℕ
byte_at path i = get_or (get_elem? path i) 0

-- The bytes from the last slash on, that byte included, or all: the loop at `i - 1`.
unfoldable pub base_loop : Bytes → ℕ → ℕ → ℕ
base_loop path zero base_len = base_len
base_loop path (suc i) base_len =
    let rest = base_loop path i (base_len + 1) in
    if byte_at path i == slash then base_len + 1 else rest

-- The loop that copies, with the rounds that are left.
unfoldable pub copy_loop : Bytes → ℕ → ℕ → Bytes → Bytes
copy_loop path zero i buf = buf
copy_loop path (suc rounds) i buf = copy_loop path rounds (i + 1) (buf ++ byte_at path i ∷ [])

unfoldable pub dirname_ts : Bytes → Option Bytes
unfolding base_loop copy_loop
dirname_ts path =
    if length path == 0
    then some []
    else if ltb 255 (length path)
    then none
    else some (copy_loop path (length path - base_loop path (length path) 0) 0 [])

-- The bytes behind the last slash, the last one first: the loop at `i - 1`.
unfoldable pub back_loop : Bytes → ℕ → Bytes → Bytes
back_loop path zero buf = buf
back_loop path (suc i) buf =
    let rest = back_loop path i (buf ++ byte_at path i ∷ []) in
    if byte_at path i == slash then buf else rest

-- The loop that swaps, for at most `f` rounds.
unfoldable pub swap_loop : ℕ → ℕ → ℕ → Bytes → Bytes
swap_loop zero start end buf = buf
swap_loop (suc f) start end buf =
    let rest =
      swap_loop f (start + 1) (end - 1)
        (set (set buf start (byte_at buf end)) end (byte_at buf start)) in
    if ltb start end then rest else buf

-- `strlen(basn_buf) - 1` is -1 for the empty string, for which the loop has no round.
unfoldable pub reverse_buf : Bytes → Bytes
unfolding swap_loop
reverse_buf buf = if length buf == 0 then buf else swap_loop (length buf) 0 (length buf - 1) buf

unfoldable pub basename_ts : Bytes → Option Bytes
unfolding back_loop reverse_buf
basename_ts path =
    if length path == 0
    then some []
    else if ltb 255 (length path)
    then none
    else some (reverse_buf (back_loop path (length path) []))
