-- ===== src/ReadLine/Lines.antt =====
-- `readLine` returns lines, cut to the buffer.
use tlpi_exercises.Prelude.{
  ℕ, zero, suc, ◌+◌, ◌-◌, ◌≤◌, ◌<◌, ◌≡◌, ◌≢◌, refl, sym, ap, ◌∙◌, List, [], ◌∷◌, ◌++◌, Bytes, ltb,
  ◌==◌, if◌then◌else◌, take, length, length-append, append_assoc, append-nil, false, Bool-cases,
  inl, inr, arith,
}
use tlpi_exercises.ReadLine.{
  newline, Answer, byte, end_of_file, interrupted, broken, Result, line, nothing, read_loop,
  read_line,
}

-- The answers deliver the bytes of a line, its newline last, between interruptions; then come `rest`.
pub data Terminated (rest : List Answer) : List Answer → Bytes → Type 0 where
  last : {c : ℕ} → c ≡ newline → Terminated rest (byte c ∷ rest) (c ∷ [])
  retry :
      {answers : List Answer} {bytes : Bytes}
      → Terminated rest answers bytes
      → Terminated rest (interrupted ∷ answers) bytes
  next :
      {c : ℕ} {answers : List Answer} {bytes : Bytes}
      → c ≢ newline
      → Terminated rest answers bytes
      → Terminated rest (byte c ∷ answers) (c ∷ bytes)

-- The answers deliver bytes other than a newline, and then the end of the file.
pub data Ended (rest : List Answer) : List Answer → Bytes → Type 0 where
  stop : Ended rest (end_of_file ∷ rest) []
  retry :
      {answers : List Answer} {bytes : Bytes}
      → Ended rest answers bytes
      → Ended rest (interrupted ∷ answers) bytes
  next :
      {c : ℕ} {answers : List Answer} {bytes : Bytes}
      → c ≢ newline
      → Ended rest answers bytes
      → Ended rest (byte c ∷ answers) (c ∷ bytes)

take-nil : (k : ℕ) → take {A = ℕ} k [] ≡ []
take-nil zero = refl
take-nil (suc k) = refl

-- What a round keeps of the next byte.
keep : ℕ → Bytes → ℕ → Bytes
keep n buf c = if ltb (length buf) (n - 1) then buf ++ c ∷ [] else buf

take-cons : (k m c : ℕ) (bytes : Bytes) → k ≡ suc m → take k (c ∷ bytes) ≡ c ∷ take m bytes
take-cons k m c bytes e = rw e refl

take-nothing : (k : ℕ) (bytes : Bytes) → k ≡ 0 → take k bytes ≡ []
take-nothing k bytes e = rw e refl

keep-take :
    (n : ℕ) (buf : Bytes) (c : ℕ) (bytes : Bytes)
    → keep n buf c ++ take (n - 1 - length (keep n buf c)) bytes
      ≡ buf ++ take (n - 1 - length buf) (c ∷ bytes)
unfolding keep
keep-take n buf c bytes = elim (Bool-cases (ltb (length buf) (n - 1))) [
  | inl room ↦
      let k : ℕ = n - 1 - length buf in
      let m : ℕ = n - 1 - length (buf ++ c ∷ []) in
      let e : k ≡ suc m = ground (arith, length-append buf (c ∷ [])) in
      rw (room, take-cons k m c bytes e) (append_assoc buf (c ∷ []) (take m bytes))
  | inr full ↦
      let e : n - 1 - length buf ≡ 0 = ground arith in
      rw
        (
          full,
          take-nothing (n - 1 - length buf) bytes e,
          take-nothing (n - 1 - length buf) (c ∷ bytes) e,
        )
        refl
]

last-keep : (n : ℕ) (buf : Bytes) (c : ℕ) → keep n buf c ≡ buf ++ take (n - 1 - length buf) (c ∷ [])
last-keep n buf c =
    let out : Bytes = keep n buf c in
    sym (append-nil out)
    ∙ ap (λ t. out ++ t) (sym (take-nil (n - 1 - length out)))
    ∙ keep-take n buf c []

round_last :
    (n : ℕ) (buf : Bytes) (c : ℕ) (answers : List Answer)
    → c ≡ newline
    → read_loop n (length buf) buf (byte c ∷ answers)
      ≡ (line (length (keep n buf c)) (keep n buf c), answers)
unfolding read_loop keep
round_last n buf c answers e = ground (arith, length-append buf (c ∷ []))

round :
    (n : ℕ) (buf : Bytes) (c : ℕ) (answers : List Answer)
    → c ≢ newline
    → read_loop n (length buf) buf (byte c ∷ answers)
      ≡ read_loop n (length (keep n buf c)) (keep n buf c) answers
unfolding read_loop keep
round n buf c answers ne = ground (arith, length-append buf (c ∷ []))

loop_line :
    {rest answers : List Answer} {bytes : Bytes} (n : ℕ) (buf : Bytes)
    → Terminated rest answers bytes
    → read_loop n (length buf) buf answers
      ≡ (let out = buf ++ take (n - 1 - length buf) bytes in (line (length out) out, rest))
unfolding read_loop
loop_line {rest} n buf (last {c} e) =
    round_last n buf c rest e
    ∙ ap (λ (out : Bytes). (line (length out) out, rest)) (last-keep n buf c)
loop_line n buf (retry t) = loop_line n buf t
loop_line {rest} n buf (next {c} {answers} {bytes} ne t) =
    round n buf c answers ne
    ∙ loop_line n (keep n buf c) t
    ∙ ap (λ (out : Bytes). (line (length out) out, rest)) (keep-take n buf c bytes)

-- At the end of the file, with nothing stored, nothing is stored.
abbrev pub line_or_nothing : Bytes → Result
line_or_nothing [] = nothing
line_or_nothing (c ∷ out) = line (length (c ∷ out)) (c ∷ out)

loop_end :
    {rest answers : List Answer} {bytes : Bytes} (n : ℕ) (buf : Bytes)
    → Ended rest answers bytes
    → read_loop n (length buf) buf answers
      ≡ (line_or_nothing (buf ++ take (n - 1 - length buf) bytes), rest)
unfolding read_loop
loop_end {rest} n buf stop =
    ended buf rest
    ∙ ap (λ (out : Bytes). (line_or_nothing out, rest))
        (sym (append-nil buf) ∙ ap (λ t. buf ++ t) (sym (take-nil (n - 1 - length buf))))
  where
    ended :
        (out : Bytes) (rest : List Answer)
        → ◌≡◌ {A = Result × List Answer}
            (if length out == 0 then nothing else line (length out) out, rest)
            (line_or_nothing out, rest)
    ended [] rest = refl
    ended (c ∷ out) rest = ground arith
loop_end n buf (retry t) = loop_end n buf t
loop_end {rest} n buf (next {c} {answers} {bytes} ne t) =
    round n buf c answers ne
    ∙ loop_end n (keep n buf c) t
    ∙ ap (λ (out : Bytes). (line_or_nothing out, rest)) (keep-take n buf c bytes)

module _ {rest answers : List Answer} {bytes : Bytes} (n : ℕ) (room : 0 < n) where
  -- Whatever interrupts the reads of a line, `readLine` with a buffer of `n > 0` bytes stores the
  -- first `n - 1` bytes of the line and returns their number; the rest of the line is consumed, and
  -- nothing behind it.
  pub read_line-Terminated :
      Terminated rest answers bytes
      → read_line n answers ≡ (line (length (take (n - 1) bytes)) (take (n - 1) bytes), rest)
  unfolding read_line
  read_line-Terminated t =
      let e : n - 1 - 0 ≡ n - 1 = omega arith in
      let some_room : (n == 0) ≡ false = ground arith in rw (some_room, loop_line n [] t, e) refl

  -- Where the file ends before a newline, `readLine` with a buffer of `n > 0` bytes stores the
  -- first `n - 1` bytes before the end and returns their number; if there are none it returns 0 and
  -- stores nothing.
  pub read_line-Ended :
      Ended rest answers bytes → read_line n answers ≡ (line_or_nothing (take (n - 1) bytes), rest)
  unfolding read_line
  read_line-Ended t =
      let e : n - 1 - 0 ≡ n - 1 = omega arith in
      let some_room : (n == 0) ≡ false = ground arith in rw (some_room, loop_end n [] t, e) refl

-- Whatever the answers are, the string that is stored fits the buffer with its null.
fits_loop :
    (n tot_read : ℕ) (buf : Bytes) (answers : List Answer) {k : ℕ} {out : Bytes}
    → tot_read ≡ length buf
    → tot_read ≤ n - 1
    → (read_loop n tot_read buf answers).0 ≡ line k out
    → (k ≡ length out) × (length out ≤ n - 1)
unfolding read_loop
fits_loop n tot_read buf [] a b h = cc
fits_loop n tot_read buf (end_of_file ∷ answers) {k} {out} a b h = ground arith
fits_loop n tot_read buf (interrupted ∷ answers) a b h = fits_loop n tot_read buf answers a b h
fits_loop n tot_read buf (broken ∷ answers) a b h = cc
fits_loop n tot_read buf (byte c ∷ answers) {k} {out} a b h = ground (
  arith,
  length-append buf (c ∷ []),
  fits_loop n (tot_read + 1) (buf ++ c ∷ []) answers {k = k} {out = out},
  fits_loop n tot_read buf answers {k = k} {out = out},
)

-- Whatever `read` answers, a string that `readLine` stores has the length that is returned, and
-- with its terminating null it fits into the `n` bytes of the buffer.
pub read_line_fits :
    (n : ℕ) (answers : List Answer) {k : ℕ} {out : Bytes}
    → (read_line n answers).0 ≡ line k out
    → (k ≡ length out) × (length out + 1 ≤ n)
unfolding read_line
read_line_fits n answers {k} {out} h = ground (arith, fits_loop n 0 [] answers {k = k} {out = out})
