-- ===== src/ReadLine/Tests.antt =====
-- A line of three bytes, interrupted once, read into four bytes and into two.
use tlpi_exercises.Prelude.{◌+◌, ◌-◌, ◌≤◌, ◌≡◌, refl, List, [], ◌∷◌, codes, length, take, arith}
use tlpi_exercises.ReadLine.{Answer, byte, end_of_file, interrupted, line, read_line}
use tlpi_exercises.ReadLine.Lines.{
  Terminated, Ended, read_line-Terminated, read_line-Ended, read_line_fits, line_or_nothing,
}

abbrev answers : List Answer
answers = byte b'h' ∷ interrupted ∷ byte b'i' ∷ byte 10 ∷ byte b'x' ∷ []

abbrev rest : List Answer
rest = byte b'x' ∷ []

delivered : Terminated rest answers (codes "hi\n")
delivered =
    Terminated.next (omega arith)
      (Terminated.retry (Terminated.next (omega arith) (Terminated.last refl)))

whole_line : read_line 8 answers ≡ (line 3 (codes "hi\n"), rest)
unfolding read_line
whole_line = refl

cut_line : read_line 2 answers ≡ (line 1 (codes "h"), rest)
unfolding read_line
cut_line = refl

read_line-Terminated_example :
    read_line 2 answers
    ≡ (line (length (take (2 - 1) (codes "hi\n"))) (take (2 - 1) (codes "hi\n")), rest)
read_line-Terminated_example = read_line-Terminated 2 (omega arith) delivered

read_line-Ended_example :
    read_line 8 (byte b'a' ∷ end_of_file ∷ []) ≡ (line_or_nothing (take (8 - 1) (codes "a")), [])
read_line-Ended_example = read_line-Ended 8 (omega arith) (Ended.next (omega arith) Ended.stop)

read_line_fits_example : (1 ≡ length (codes "h")) × (length (codes "h") + 1 ≤ 2)
unfolding read_line
read_line_fits_example = read_line_fits 2 answers refl
