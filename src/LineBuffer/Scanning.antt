-- ===== src/LineBuffer/Scanning.antt =====
-- What a call of `read_line_buf` owes, and its loop on the bytes behind `next_char`.
use tlpi_exercises.Prelude.{
  ℕ, zero, suc, ◌+◌, ◌≤◌, ◌<◌, ◌≡◌, refl, sym, ap, ◌∙◌, ◌⊎◌, inl, inr, Bool, true, false, Option,
  some, List, [], ◌∷◌, ◌++◌, Bytes, length, drop, ltb, ◌==◌, if◌then◌else◌, arith, length-drop,
  drop-append, Bool-cases, lt→ltb,
}
use tlpi_exercises.LineBuffer.{
  max_msg_len, newline, RlBuf, Read, got, broken, Answer, line, end_of_file, failed, waiting,
  out_of_bounds, up_to_null, full, truncated, scan,
}

-- The bytes that are still to come.
abbrev pub flat : List Read → Bytes
flat [] = []
flat (got bs ∷ reads) = bs ++ flat reads
flat (broken ∷ reads) = flat reads

-- The bytes of the buffer that are still to be delivered; at a null that is all of it, since the next
-- call goes back to the start.
abbrev pub unread : RlBuf → Bytes
unread rlb = if ltb rlb.next_char (length rlb.text) then drop rlb.next_char rlb.text else rlb.text

abbrev pub NoNewline : Bytes → Type 0
NoNewline [] = Unit
NoNewline (c ∷ cs) = ((c == newline) ≡ false) × NoNewline cs

abbrev pub NoNull : Bytes → Type 0
NoNull [] = Unit
NoNull (c ∷ cs) = ((c == 0) ≡ false) × NoNull cs

-- Bytes up to and with a first newline.
abbrev pub IsLine : Bytes → Type 0
IsLine [] = ⊥
IsLine (c ∷ []) = (c == newline) ≡ true
IsLine (c ∷ d ∷ cs) = ((c == newline) ≡ false) × IsLine (d ∷ cs)

-- Fewer than `max_msg_len` bytes between one newline and the next; `k` came before.
abbrev pub IsShort : ℕ → Bytes → Type 0
IsShort k [] = Unit
IsShort k (c ∷ cs) = elim (c == newline) [
  | true ↦ IsShort 0 cs
  | false ↦ (suc k < max_msg_len) × IsShort (suc k) cs
]

-- `read` gives no more than it is asked for, and there are no null bytes.
abbrev pub AreReads : List Read → Type 0
AreReads [] = Unit
AreReads (got bs ∷ reads) = (length bs ≤ max_msg_len) × NoNull bs × AreReads reads
AreReads (broken ∷ reads) = AreReads reads

-- Between two calls: `next_char` is in the text, behind its start, or at the null behind a text
-- without a newline.
abbrev pub IsBetween : RlBuf → Type 0
IsBetween rlb =
    if ltb rlb.next_char (length rlb.text)
    then Unit {0}
    else ((rlb.next_char ≡ length rlb.text) × NoNewline rlb.text)

-- Reads that each gave some bytes.
abbrev pub AreFull : List Read → Type 0
AreFull [] = Unit
AreFull (got [] ∷ reads) = ⊥
AreFull (got (b ∷ bs) ∷ reads) = AreFull reads
AreFull (broken ∷ reads) = ⊥

-- Of the reads `before` the call, the last one that it made is `last`; those before gave bytes.
abbrev pub LastWas : Read → List Read → List Read → Type 0
LastWas last before reads = (front : List Read) × AreFull front × (before ≡ front ++ last ∷ reads)

-- Without a line, all bytes are kept, and the buffer has no newline.
abbrev pub KeepsAll : Bytes → RlBuf → List Read → Type 0
KeepsAll all rlb reads =
    (all ≡ unread rlb ++ flat reads) × NoNewline (unread rlb) × IsBetween rlb × AreReads reads

-- What a call owes: with a line, the bytes before it are its own and those that follow are kept. It
-- returns no line only where its last read was at the end of the file or failed, or where it made all
-- reads and waits for another.
abbrev pub Delivers : Bytes → List Read → Answer × RlBuf × List Read → Type 0
Delivers all before (line l, rlb, reads) =
    IsLine l
    × (all ≡ l ++ (unread rlb ++ flat reads))
    × IsBetween rlb
    × AreReads reads
    × IsShort 0 (unread rlb ++ flat reads)
Delivers all before (end_of_file, rlb, reads) =
    KeepsAll all rlb reads × LastWas (got []) before reads
Delivers all before (failed, rlb, reads) = KeepsAll all rlb reads × LastWas broken before reads
Delivers all before (waiting, rlb, reads) = KeepsAll all rlb reads × AreFull before × (reads ≡ [])
Delivers all before (out_of_bounds, rlb, reads) = ⊥

pub Delivers-more :
    (all : Bytes) (b : ℕ) (bs : Bytes) (before : List Read) (r : Answer × RlBuf × List Read)
    → Delivers all before r
    → Delivers all (got (b ∷ bs) ∷ before) r
Delivers-more all b bs before (line l, rlb, reads) h = h
Delivers-more all b bs before (end_of_file, rlb, reads) (k, (front, full_reads, split)) =
    (k, (got (b ∷ bs) ∷ front, full_reads, ap (λ r. got (b ∷ bs) ∷ r) split))
Delivers-more all b bs before (failed, rlb, reads) (k, (front, full_reads, split)) =
    (k, (got (b ∷ bs) ∷ front, full_reads, ap (λ r. got (b ∷ bs) ∷ r) split))
Delivers-more all b bs before (waiting, rlb, reads) h = h
Delivers-more all b bs before (out_of_bounds, rlb, reads) h = h

pub up_to_null-NoNull : (bs : Bytes) → NoNull bs → up_to_null bs ≡ bs
up_to_null-NoNull [] n = refl
up_to_null-NoNull (b ∷ bs) n = rw (n.0) (ap (λ r. b ∷ r) (up_to_null-NoNull bs n.1))

pub IsShort-NoNewline :
    (k : ℕ) (u bs : Bytes)
    → k < max_msg_len
    → NoNewline u
    → IsShort k (u ++ bs)
    → k + length u < max_msg_len
IsShort-NoNewline k [] bs b n h = omega arith
IsShort-NoNewline k (c ∷ u) bs b n h =
    let tail : (suc k < max_msg_len) × IsShort (suc k) (u ++ bs) =
      short_tail (c == newline) n.0 h in
    omega (arith, IsShort-NoNewline (suc k) u bs tail.0 n.1 tail.1)
  where
    short_tail :
        (is_newline : Bool)
        → is_newline ≡ false
        → (elim is_newline as (λ _. Type 0) [
          | true ↦ IsShort 0 (u ++ bs)
          | false ↦ (suc k < max_msg_len) × IsShort (suc k) (u ++ bs)
        ])
        → (suc k < max_msg_len) × IsShort (suc k) (u ++ bs)
    short_tail true e h = cc
    short_tail false e h = h

pub IsShort-IsLine : (k : ℕ) (l bs : Bytes) → IsLine l → IsShort k (l ++ bs) → IsShort 0 bs
IsShort-IsLine k [] bs e h = absurd e
IsShort-IsLine k (c ∷ []) bs e h = ground arith
IsShort-IsLine k (c ∷ d ∷ l) bs e h =
    let more : IsShort (suc k) (d ∷ l ++ bs) = ground arith in
    IsShort-IsLine (suc k) (d ∷ l) bs e.1 more

IsLine-cons : (c : ℕ) (l : Bytes) → (c == newline) ≡ false → IsLine l → IsLine (c ∷ l)
IsLine-cons c [] other h = absurd h
IsLine-cons c (d ∷ l) other h = (other, h)

-- The loop, from a byte that is no newline.
scan-cases :
    (c : ℕ) (r : Bytes)
    → (c == newline) ≡ false
    → ((l : Bytes) × (rest : Bytes) × (scan (some c) r ≡ full l rest) × (r ≡ l ++ rest) × IsLine l)
      ⊎ ((scan (some c) r ≡ truncated r) × NoNewline r)
unfolding scan
scan-cases c [] other = inr (rw other refl, tt)
scan-cases c (d ∷ r) other = elim (Bool-cases (d == newline)) [
  | inl is ↦ inl (d ∷ [], r, rw is refl, refl, is)
  | inr more ↦ elim (scan-cases d r more) [
    | inl (l, rest, found, split, is_line) ↦
        inl
          (d ∷ l, rest, rw (more, found) refl, ap (λ x. d ∷ x) split, IsLine-cons d l more is_line)
    | inr (found, no_newline) ↦ inr (rw (more, found) refl, (more, no_newline))
  ]
]

-- The loop, where there is a byte to begin with.
pub scan_start-cases :
    (before : Option ℕ) (c : ℕ) (r : Bytes)
    → ((l : Bytes) × (rest : Bytes) × (scan before (c ∷ r) ≡ full l rest)
        × (c ∷ r ≡ l ++ rest)
        × IsLine l)
      ⊎ ((scan before (c ∷ r) ≡ truncated (c ∷ r)) × NoNewline (c ∷ r))
unfolding scan
scan_start-cases before c r = elim (Bool-cases (c == newline)) [
  | inl is ↦ inl (c ∷ [], r, rw is refl, refl, is)
  | inr more ↦ elim (scan-cases c r more) [
    | inl (l, rest, found, split, is_line) ↦
        inl
          (c ∷ l, rest, rw (more, found) refl, ap (λ x. c ∷ x) split, IsLine-cons c l more is_line)
    | inr (found, no_newline) ↦ inr (rw (more, found) refl, (more, no_newline))
  ]
]

length-pos : (l : Bytes) → IsLine l → 0 < length l
length-pos [] h = absurd h
length-pos (c ∷ l) h = omega arith

drop-nil : (n : ℕ) → drop {A = ℕ} n [] ≡ []
drop-nil zero = refl
drop-nil (suc n) = refl

drop-add : (i k : ℕ) (u : Bytes) → drop (i + k) u ≡ drop k (drop i u)
drop-add zero k u = ap (λ (n : ℕ). drop n u) (omega arith)
drop-add (suc i) k [] = drop-nil (suc i + k) ∙ sym (drop-nil k)
drop-add (suc i) k (x ∷ u) =
    let e : suc i + k ≡ suc (i + k) = omega arith in
    ap (λ (n : ℕ). drop n (x ∷ u)) e ∙ drop-add i k u

-- The text behind a line that is not the last of the buffer.
pub drop-line :
    (u l : Bytes) (i c : ℕ) (rest : Bytes)
    → drop i u ≡ l ++ c ∷ rest
    → drop (i + length l) u ≡ c ∷ rest
drop-line u l i c rest e =
    drop-add i (length l) u ∙ ap (drop (length l)) e ∙ drop-append l (c ∷ rest)

lt_of_drop : (u : Bytes) (i c : ℕ) (rest : Bytes) → drop i u ≡ c ∷ rest → i < length u
lt_of_drop u i c rest e = omega (arith, ap length e, length-drop i u)

pub unread-inside :
    (u : Bytes) (i c : ℕ) (rest : Bytes)
    → drop i u ≡ c ∷ rest
    → (swap : Bool) → unread record { use_swap = swap; text = u; next_char = i } ≡ c ∷ rest
unread-inside u i c rest e swap = rw (lt→ltb i (length u) (lt_of_drop u i c rest e)) e

pub IsBetween-inside :
    (u : Bytes) (i c : ℕ) (rest : Bytes)
    → drop i u ≡ c ∷ rest
    → (swap : Bool) → IsBetween record { use_swap = swap; text = u; next_char = i }
IsBetween-inside u i c rest e swap = rw (lt→ltb i (length u) (lt_of_drop u i c rest e)) tt
