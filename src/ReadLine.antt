-- ===== src/ReadLine.antt =====
-- `readLine` of lib/read_line.c: a line from a file descriptor, one byte for each `read`.
--
-- What the calls of `read(fd, &ch, 1)` answer is a list, which the loop runs along: the code makes
-- one call a round, so the recursion is on the list, and where the list is used up the call is
-- still waiting. `buf` is what stands in the buffer before its terminating null.
pub mod Lines
pub mod Tests
use tlpi_exercises.Prelude.{ℕ, ◌+◌, ◌-◌, List, [], ◌∷◌, ◌++◌, Bytes, ltb, ◌==◌, if◌then◌else◌}

abbrev pub newline : ℕ
newline = 10

-- One answer of `read`: a byte, end of file, -1 with `EINTR`, -1 with another `errno`.
pub data Answer : Type 0 where
  byte : ℕ → Answer
  end_of_file : Answer
  interrupted : Answer
  broken : Answer

pub data Result : Type 0 where
  -- the return value, and the string in the buffer
  line : ℕ → Bytes → Result
  -- 0, and nothing stored
  nothing : Result
  -- -1 with the `errno` of `read`
  failed : Result
  -- -1 with `EINVAL`
  invalid : Result
  -- still in a call of `read`
  waiting : Result

unfoldable pub read_loop : ℕ → ℕ → Bytes → List Answer → Result × List Answer
read_loop n tot_read buf [] = (waiting, [])
read_loop n tot_read buf (interrupted ∷ answers) = read_loop n tot_read buf answers
read_loop n tot_read buf (broken ∷ answers) = (failed, answers)
read_loop n tot_read buf (end_of_file ∷ answers) =
    (if tot_read == 0 then nothing else line tot_read buf, answers)
read_loop n tot_read buf (byte ch ∷ answers) =
    let tot_read' = if ltb tot_read (n - 1) then tot_read + 1 else tot_read in
    let buf' = if ltb tot_read (n - 1) then buf ++ ch ∷ [] else buf in
    let rest = read_loop n tot_read' buf' answers in
    if ch == newline then (line tot_read' buf', answers) else rest

-- `buffer` is not null.
unfoldable pub read_line : ℕ → List Answer → Result × List Answer
unfolding read_loop
read_line n answers = if n == 0 then (invalid, answers) else read_loop n 0 [] answers
