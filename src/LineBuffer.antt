-- ===== src/LineBuffer.antt =====
-- Lines from reads of many bytes: lib/read_line_buf.c and lib/read_line_buf.h.
--
-- Of the two buffers only the one in use matters: the other is written before it is read. `text` is
-- what stands in it before its null, and `next_char` an index into it. What the calls of `read` answer
-- is a list; where it is used up the call is still waiting. `out_of_bounds` is a read before the
-- buffer or a write behind it. `buf_type` has one of its two values, as `read_line_buf_init` leaves it.
pub mod Scanning
pub mod Lines
mod Tests
use tlpi_exercises.Prelude.{
  ℕ, zero, suc, ◌+◌, Bool, true, false, not, Option, none, some, List, [], ◌∷◌, ◌++◌, Bytes, length,
  take, drop, ltb, leb, ◌==◌, if◌then◌else◌,
}

abbrev pub max_msg_len : ℕ
max_msg_len = 4096

abbrev pub newline : ℕ
newline = 10

-- `struct rlbuf`, and the size of its buffers
pub record RlBuf : Type 0 where
  pub use_swap : Bool
  pub text : Bytes
  pub next_char : ℕ

abbrev pub buf_size : ℕ
buf_size = 8192

unfoldable pub read_line_buf_init : RlBuf
read_line_buf_init = record { use_swap = false; text = []; next_char = 0 }

-- The bytes that were read, none at the end of the file; or -1.
pub data Read : Type 0 where
  got : Bytes → Read
  broken : Read

pub data Answer : Type 0 where
  line : Bytes → Answer
  end_of_file : Answer
  failed : Answer
  waiting : Answer
  out_of_bounds : Answer

abbrev pub up_to_null : Bytes → Bytes
up_to_null [] = []
up_to_null (c ∷ cs) = if c == 0 then [] else c ∷ up_to_null cs

-- Where the loop ends: behind a newline, with the line and the rest; at the null, behind another byte
-- or behind a newline; or with a look before the buffer.
pub data Scan : Type 0 where
  full : Bytes → Bytes → Scan
  truncated : Bytes → Scan
  complete : Bytes → Scan
  before_start : Scan

abbrev pub prepend : ℕ → Scan → Scan
prepend c (full l rest) = full (c ∷ l) rest
prepend c (truncated m) = truncated (c ∷ m)
prepend c (complete m) = complete (c ∷ m)
prepend c before_start = before_start

-- The loop, with the byte before `next_char`.
unfoldable pub scan : Option ℕ → Bytes → Scan
scan none [] = before_start
scan (some previous) [] = if previous == newline then complete [] else truncated []
scan previous (c ∷ cs) =
    let rest = prepend c (scan (some c) cs) in if c == newline then full (c ∷ []) cs else rest

abbrev pub byte_before : RlBuf → Option ℕ
byte_before rlb = elim (rlb.next_char) [
  | zero ↦ none
  | suc i ↦ elim (drop i rlb.text) [ [] ↦ none | c ∷ cs ↦ some c ]
]

-- What follows the loop; `refill` is the recursive call, which begins at a null.
abbrev pub after_scan :
    (refill : RlBuf → Answer × RlBuf × List Read)
    → List Read
    → RlBuf
    → Scan
    → Answer × RlBuf × List Read
after_scan refill reads rlb (full l []) = (line l, record rlb { text = []; next_char = 0 }, reads)
after_scan refill reads rlb (full l (c ∷ rest)) =
    (line l, record rlb { next_char = rlb.next_char + length l }, reads)
after_scan refill reads rlb (truncated m) =
    refill record { use_swap = not rlb.use_swap; text = m; next_char = length m }
after_scan refill reads rlb (complete []) = (end_of_file, rlb, reads)
after_scan refill reads rlb (complete (c ∷ m)) =
    (line (c ∷ m), record rlb { text = []; next_char = 0 }, reads)
after_scan refill reads rlb before_start = (out_of_bounds, rlb, reads)

-- The buffer after a `read` to `next_char`.
unfoldable pub filled : RlBuf → Bytes → RlBuf
filled rlb bytes = record rlb {
  text = take rlb.next_char rlb.text ++ up_to_null bytes;
  next_char = 0;
}

-- A call that begins at a null.
unfoldable pub refill : List Read → RlBuf → Answer × RlBuf × List Read
refill [] rlb = (waiting, rlb, [])
refill (broken ∷ reads) rlb = (failed, rlb, reads)
refill (got [] ∷ reads) rlb = (end_of_file, rlb, reads)
refill (got (b ∷ bs) ∷ reads) rlb =
    let rlb' : RlBuf = filled rlb (b ∷ bs) in
    let result = after_scan (refill reads) reads rlb' (scan none rlb'.text) in
    if leb buf_size (rlb.next_char + length (b ∷ bs)) then (out_of_bounds, rlb, reads) else result

unfoldable pub read_line_buf : List Read → RlBuf → Answer × RlBuf × List Read
read_line_buf reads rlb =
    if ltb rlb.next_char (length rlb.text)
    then after_scan (refill reads) reads rlb (scan (byte_before rlb) (drop rlb.next_char rlb.text))
    else refill reads rlb
