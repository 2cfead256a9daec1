-- ===== src/LineBuffer/Lines.antt =====
-- What `read_line_buf` delivers.
use mathlib.Core.Path.{subst}
use tlpi_exercises.Prelude.{
  ℕ, zero, suc, ◌+◌, ◌≤◌, ◌<◌, ◌≡◌, refl, sym, ap, ◌∙◌, inl, inr, Bool, true, false, Option, none,
  List, [], ◌∷◌, ◌++◌, Bytes, length, take, drop, ltb, leb, if◌then◌else◌, arith, append_assoc,
  Bool-cases, ltb→lt, not,
}
use tlpi_exercises.LineBuffer.{
  RlBuf, buf_size, Read, got, broken, Answer, up_to_null, full, scan, byte_before, after_scan,
  filled, refill, read_line_buf,
}
use tlpi_exercises.LineBuffer.Scanning.{
  flat, unread, NoNewline, NoNull, IsLine, IsShort, AreReads, IsBetween, KeepsAll, Delivers-more,
  Delivers, up_to_null-NoNull, IsShort-NoNewline, IsShort-IsLine, scan_start-cases, drop-line,
  unread-inside, IsBetween-inside,
}

module _ (next : RlBuf → Answer × RlBuf × List Read) (reads : List Read) (fine : AreReads reads)
    (begun : List Read) where
  -- After the loop has found a line.
  full-Delivers :
      (swap : Bool) (u : Bytes) (i : ℕ) (l rest : Bytes)
      → drop i u ≡ l ++ rest
      → IsLine l
      → IsShort 0 ((l ++ rest) ++ flat reads)
      → Delivers
          ((l ++ rest) ++ flat reads)
          begun
          (after_scan next reads record { use_swap = swap; text = u; next_char = i } (full l rest))
  full-Delivers swap u i l [] e is_line short = (
    is_line,
    append_assoc l [] (flat reads),
    (refl, tt),
    fine,
    IsShort-IsLine 0 l (flat reads) is_line (rw (← append_assoc l [] (flat reads)) short),
  )
  full-Delivers swap u i l (c ∷ rest) e is_line short =
      let behind = drop-line u l i c rest e in
      let same : unread record { use_swap = swap; text = u; next_char = i + length l } ≡ c ∷ rest =
        unread-inside u (i + length l) c rest behind swap in
      let kept : IsShort 0 (c ∷ rest ++ flat reads) =
        IsShort-IsLine 0 l (c ∷ rest ++ flat reads) is_line
          (rw (← append_assoc l (c ∷ rest) (flat reads)) short) in
      (
        is_line,
        append_assoc l (c ∷ rest) (flat reads) ∙ ap (λ r. l ++ (r ++ flat reads)) (sym same),
        IsBetween-inside u (i + length l) c rest behind swap,
        fine,
        rw same kept,
      )

  after_scan-Delivers :
      (swap : Bool) (u : Bytes) (i : ℕ) (before : Option ℕ) (c : ℕ) (r : Bytes)
      → drop i u ≡ c ∷ r
      → IsShort 0 (c ∷ r ++ flat reads)
      → (NoNewline (c ∷ r)
          → Delivers
              (c ∷ r ++ flat reads)
              begun
              (next record { use_swap = not swap; text = c ∷ r; next_char = length (c ∷ r) }))
      → Delivers (c ∷ r ++ flat reads) begun (
          after_scan next reads
            record { use_swap = swap; text = u; next_char = i }
            (scan before (c ∷ r)))
  after_scan-Delivers swap u i before c r e short more = elim (scan_start-cases before c r) [
    | inl (l, rest, found, split, is_line) ↦ rw found (
        subst
          (λ all. Delivers (all ++ flat reads) begun (
            after_scan next reads record { use_swap = swap; text = u; next_char = i }
              (full l rest)))
          (sym split)
          (full-Delivers swap u i l rest (e ∙ split) is_line
            (subst (λ all. IsShort 0 (all ++ flat reads)) split short)))
    | inr (found, no_newline) ↦ rw found (more no_newline)
  ]

le→ltb : (a b : ℕ) → b ≤ a → ltb a b ≡ false
le→ltb a b h = ground arith

lt→leb : (a b : ℕ) → b < a → leb a b ≡ false
lt→leb a b h = ground arith

-- At a null behind a text without a newline, all of the text is still to come.
unread-at_null : (rlb : RlBuf) → rlb.next_char ≡ length rlb.text → unread rlb ≡ rlb.text
unread-at_null rlb h = rw (le→ltb rlb.next_char (length rlb.text) (omega (arith, h))) refl

kept :
    (rlb : RlBuf) (reads : List Read)
    → rlb.next_char ≡ length rlb.text
    → NoNewline rlb.text
    → AreReads reads
    → KeepsAll (rlb.text ++ flat reads) rlb reads
kept rlb reads at_null clear fine =
    let same = unread-at_null rlb at_null in
    let outside = le→ltb rlb.next_char (length rlb.text) (omega (arith, at_null)) in
    (ap (λ r. r ++ flat reads) (sym same), rw same clear, rw outside (at_null, clear), fine)

take-length : (u : Bytes) → take (length u) u ≡ u
take-length [] = refl
take-length (c ∷ u) = ap (λ r. c ∷ r) (take-length u)

filled-append :
    (rlb : RlBuf) (bs : Bytes)
    → rlb.next_char ≡ length rlb.text
    → NoNull bs
    → filled rlb bs ≡ record { use_swap = rlb.use_swap; text = rlb.text ++ bs; next_char = 0 }
unfolding filled
filled-append rlb bs at_null n =
    ap (λ t. record { use_swap = rlb.use_swap; text = t; next_char = 0 })
      (ap (λ k. take k rlb.text ++ up_to_null bs) at_null
        ∙ ap (λ t. t ++ up_to_null bs) (take-length rlb.text)
        ∙ ap (λ t. rlb.text ++ t) (up_to_null-NoNull bs n))

got-Delivers :
    (next : RlBuf → Answer × RlBuf × List Read) (reads : List Read) (swap : Bool) (u : Bytes)
    (b : ℕ) (bs : Bytes) (begun : List Read)
    → AreReads reads
    → IsShort 0 ((u ++ b ∷ bs) ++ flat reads)
    → ((rlb : RlBuf)
        → rlb.next_char ≡ length rlb.text
        → NoNewline rlb.text
        → IsShort 0 (rlb.text ++ flat reads)
        → Delivers (rlb.text ++ flat reads) begun (next rlb))
    → Delivers ((u ++ b ∷ bs) ++ flat reads) begun (
        after_scan next reads
          record { use_swap = swap; text = u ++ b ∷ bs; next_char = 0 }
          (scan none (u ++ b ∷ bs)))
got-Delivers next reads swap [] b bs begun fine short more =
    after_scan-Delivers next reads fine begun swap (b ∷ bs) 0 none b bs refl short (λ clear.
      more record { use_swap = not swap; text = b ∷ bs; next_char = length (b ∷ bs) } refl clear
        short)
got-Delivers next reads swap (t ∷ u) b bs begun fine short more =
    let text : Bytes = t ∷ u ++ b ∷ bs in
    after_scan-Delivers next reads fine begun swap text 0 none t (u ++ b ∷ bs) refl short (λ clear.
      more record { use_swap = not swap; text = text; next_char = length text } refl clear short)

refill-Delivers :
    (reads : List Read) (rlb : RlBuf)
    → rlb.next_char ≡ length rlb.text
    → NoNewline rlb.text
    → AreReads reads
    → IsShort 0 (rlb.text ++ flat reads)
    → Delivers (rlb.text ++ flat reads) reads (refill reads rlb)
unfolding refill
refill-Delivers [] rlb at_null clear fine short = (kept rlb [] at_null clear fine, tt, refl)
refill-Delivers (broken ∷ reads) rlb at_null clear fine short =
    (kept rlb reads at_null clear fine, ([], tt, refl))
refill-Delivers (got [] ∷ reads) rlb at_null clear fine short =
    (kept rlb reads at_null clear fine.2, ([], tt, refl))
refill-Delivers (got (b ∷ bs) ∷ reads) rlb at_null clear fine short =
    let in_bounds = IsShort-NoNewline 0 rlb.text (b ∷ bs ++ flat reads) (omega arith) clear short in
    let fits : leb buf_size (rlb.next_char + length (b ∷ bs)) ≡ false =
      lt→leb buf_size (rlb.next_char + length (b ∷ bs))
        (omega (arith, in_bounds, at_null, fine.0)) in
    let regroup = append_assoc rlb.text (b ∷ bs) (flat reads) in
    rw (fits, filled-append rlb (b ∷ bs) at_null fine.1)
      (subst
        (λ all. Delivers all (got (b ∷ bs) ∷ reads) (
          after_scan (refill reads) reads
            record { use_swap = rlb.use_swap; text = rlb.text ++ b ∷ bs; next_char = 0 }
            (scan none (rlb.text ++ b ∷ bs))))
        regroup
        (got-Delivers (refill reads) reads rlb.use_swap rlb.text b bs (got (b ∷ bs) ∷ reads) fine.2
          (subst (IsShort 0) (sym regroup) short)
          (λ rlb' at' clear' short'.
            Delivers-more (rlb'.text ++ flat reads) b bs reads (refill reads rlb')
              (refill-Delivers reads rlb' at' clear' fine.2 short'))))

drop-cons : (u : Bytes) (i : ℕ) → i < length u → (c : ℕ) × (r : Bytes) × (drop i u ≡ c ∷ r)
drop-cons [] i h = absurd (omega arith)
drop-cons (c ∷ u) zero h = (c, u, refl)
drop-cons (c ∷ u) (suc i) h = drop-cons u i (omega arith)

-- Where `read` gives no more than it is asked for and no null bytes, and fewer than 4096 bytes stand
-- between two newlines, a call of `read_line_buf` stays in the bounds of its buffers. If it returns a line,
-- that is all bytes up to the first newline, with it, in however many reads they come; the others are
-- kept for later calls, in their order. It returns 0 only where its last `read` did, -1 only where that
-- failed, and waits only where all reads are made, and then all bytes that were read are kept, and none
-- of them is a newline. Either way the next call is in the same case.
pub read_line_buf-Delivers :
    (reads : List Read) (rlb : RlBuf)
    → IsBetween rlb
    → AreReads reads
    → IsShort 0 (unread rlb ++ flat reads)
    → Delivers (unread rlb ++ flat reads) reads (read_line_buf reads rlb)
unfolding read_line_buf
read_line_buf-Delivers reads rlb between fine short =
    elim (Bool-cases (ltb rlb.next_char (length rlb.text))) [
      | inl inside ↦
          let (c, r, e) =
            drop-cons rlb.text rlb.next_char (ltb→lt rlb.next_char (length rlb.text) inside) in
          let same : unread rlb ≡ c ∷ r = rw inside e in
          rw (inside, e)
            (after_scan-Delivers (refill reads) reads fine reads rlb.use_swap rlb.text rlb.next_char
              (byte_before rlb) c r e (subst (λ u. IsShort 0 (u ++ flat reads)) same short)
              (λ clear.
                refill-Delivers reads
                  record { use_swap = not rlb.use_swap; text = c ∷ r; next_char = length (c ∷ r) }
                  refl clear fine (subst (λ u. IsShort 0 (u ++ flat reads)) same short)))
      | inr outside ↦
          let (at_null, clear) = at_end rlb outside between in
          let same : unread rlb ≡ rlb.text = rw outside refl in
          rw outside (
            refill-Delivers reads rlb at_null clear fine
              (subst (λ u. IsShort 0 (u ++ flat reads)) same short))
    ]
  where
    at_end :
        (rlb : RlBuf)
        → ltb rlb.next_char (length rlb.text) ≡ false
        → IsBetween rlb
        → (rlb.next_char ≡ length rlb.text) × NoNewline rlb.text
    at_end rlb e h = by_test (ltb rlb.next_char (length rlb.text)) e h
      where
        by_test :
            (b : Bool)
            → b ≡ false
            → (if b then Unit {0} else ((rlb.next_char ≡ length rlb.text) × NoNewline rlb.text))
            → (rlb.next_char ≡ length rlb.text) × NoNewline rlb.text
        by_test true e h = cc
        by_test false e h = h
