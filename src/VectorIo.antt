-- ===== src/VectorIo.antt =====
-- `readv_clone` and `writev_clone` of 05_File_IO_More_Details/readv_writev_imp.c.
--
-- The arrays of buffers are lists; a buffer's length is not negative, and there are at most
-- 2 ^ 31 - 1 of them, so that the `int` index does not overflow. `read` and `write` are arguments:
-- from a file they give the file afterwards and what they return, `none` for -1. An overflow of
-- the `ssize_t` sum is undefined behaviour, `fault`.
pub mod Transfer
pub mod Scattering
pub mod Gathering
pub mod Tests
use tlpi_exercises.Prelude.{
  ℕ, ◌+◌, ◌-◌, ◌^◌, Option, none, some, List, [], ◌∷◌, ◌++◌, Bytes, length, drop, ltb, leb, ◌==◌,
  if◌then◌else◌, Outcome, done, fault, ◌>>=◌,
}

abbrev pub ssize_max : ℕ
ssize_max = 2 ^ 63 - 1

pub record DataBuffer : Type 0 where
  pub len : ℕ
  pub buf : Bytes

-- The first loop of both functions.
unfoldable pub total_bytes : ℕ → List DataBuffer → Outcome ℕ
total_bytes total [] = done total
total_bytes total (b ∷ bs) =
    let rest = total_bytes (total + b.len) bs in
    if leb (total + b.len) ssize_max then rest else fault

pub record Scattered (F : Type 0) : Type 0 where
  pub value : Option ℕ
  pub buffers : List DataBuffer
  pub file : F

pub record Gathered (F : Type 0) : Type 0 where
  pub value : Option ℕ
  pub file : F

-- What `read` leaves in a buffer.
abbrev pub store : Bytes → DataBuffer → DataBuffer
store bytes b = record b { buf = bytes ++ drop (length bytes) b.buf }

abbrev pub behind : {F : Type 0} → DataBuffer → Scattered F → Scattered F
behind b s = record s { buffers = b ∷ s.buffers }

module _ {F : Type 0} (read : F → ℕ → F × Option Bytes) where
  unfoldable pub readv_loop : ℕ → List DataBuffer → F → Scattered F
  readv_loop total_read [] f = record { value = some total_read; buffers = []; file = f }
  readv_loop total_read (b ∷ bs) f =
      let f' = (read f b.len).0 in
      elim (read f b.len).1 [
        | none ↦ record { value = none; buffers = b ∷ bs; file = f' }
        | some bytes ↦
            let rest = readv_loop (total_read + length bytes) bs f' in
            if length bytes == b.len then behind (store bytes b) rest else record {
              value = some (total_read + length bytes);
              buffers = store bytes b ∷ bs;
              file = f';
            }
      ]

  unfoldable pub readv_clone : List DataBuffer → F → Outcome (Scattered F)
  readv_clone bs f =
      if length bs == 0
      then done (record { value = none; buffers = bs; file = f })
      else total_bytes 0 bs >>= λ total.
          if ltb ssize_max total
          then done (record { value = none; buffers = bs; file = f })
          else done (readv_loop 0 bs f)

module _ {F : Type 0} (write : F → Bytes → F × Option ℕ) where
  unfoldable pub writev_loop : ℕ → List DataBuffer → F → Gathered F
  writev_loop total_written [] f = record { value = some total_written; file = f }
  writev_loop total_written (b ∷ bs) f =
      let f' = (write f b.buf).0 in
      elim (write f b.buf).1 [
        | none ↦ record { value = none; file = f' }
        | some n ↦
            let rest = writev_loop (total_written + n) bs f' in
            if n == b.len then rest else record { value = some n; file = f' }
      ]

  unfoldable pub writev_clone : List DataBuffer → F → Outcome (Gathered F)
  writev_clone bs f =
      if length bs == 0
      then done (record { value = none; file = f })
      else total_bytes 0 bs >>= λ total.
          if ltb ssize_max total
          then done (record { value = none; file = f })
          else done (writev_loop 0 bs f)
