-- ===== src/LineBuffer/Tests.antt =====
-- A line in two reads, the second of which has the start of another.
use tlpi_exercises.Prelude.{◌≡◌, refl, true, false, List, [], ◌∷◌, ◌++◌, codes, arith}
use tlpi_exercises.LineBuffer.{
  RlBuf, Read, got, line, waiting, scan, filled, refill, read_line_buf, read_line_buf_init,
}
use tlpi_exercises.LineBuffer.Scanning.{unread, flat, Delivers}
use tlpi_exercises.LineBuffer.Lines.{read_line_buf-Delivers}

abbrev reads : List Read
reads = got (codes "ab") ∷ got (codes "c\nd") ∷ []

abbrev empty : RlBuf
empty = record { use_swap = false; text = []; next_char = 0 }

initial : read_line_buf_init ≡ empty
unfolding read_line_buf_init
initial = refl

run :
    read_line_buf reads empty
    ≡ (line (codes "abc\n"), record { use_swap = true; text = codes "abc\nd"; next_char = 4 }, [])
unfolding read_line_buf refill filled scan
run = refl

run_again :
    read_line_buf [] (record { use_swap = true; text = codes "abc\nd"; next_char = 4 })
    ≡ (waiting, record { use_swap = false; text = codes "d"; next_char = 1 }, [])
unfolding read_line_buf refill scan
run_again = refl

read_line_buf-Delivers_example :
    Delivers (unread empty ++ flat reads) reads (read_line_buf reads empty)
read_line_buf-Delivers_example =
    read_line_buf-Delivers reads empty (refl, tt)
      (omega arith, (refl, (refl, tt)), (omega arith, (refl, (refl, (refl, tt))), tt))
      (omega arith, (omega arith, (omega arith, (omega arith, tt))))
