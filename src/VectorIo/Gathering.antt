-- ===== src/VectorIo/Gathering.antt =====
-- What `writev_clone` writes.
use tlpi_exercises.Prelude.{
  ℕ, ◌+◌, ◌≤◌, ◌<◌, ◌≡◌, refl, sym, ap, ◌∙◌, inl, inr, true, false, Option, none, some, List, [],
  ◌∷◌, ◌++◌, Bytes, length, take, ltb, ◌==◌, done, arith, append-nil, append_assoc, length-append,
  take-append, Bool-cases, Option-cases,
}
use tlpi_exercises.VectorIo.{DataBuffer, ssize_max, Gathered, writev_loop, writev_clone}
use tlpi_exercises.VectorIo.Transfer.{
  gather, Fit, total_bytes-length, take-append_more, take-append_less,
}

-- `write` puts a start of what it is given behind what the file holds, or fails and changes nothing.
pub record IsWrite {F : Type 0} (held : F → Bytes) (write : F → Bytes → F × Option ℕ) : Type 0 where
  pub taken :
      (f : F) (bytes : Bytes) (n : ℕ)
      → (write f bytes).1 ≡ some n
      → (n ≤ length bytes) × (held (write f bytes).0 ≡ held f ++ take n bytes)
  pub refused : (f : F) (bytes : Bytes) → (write f bytes).1 ≡ none → held (write f bytes).0 ≡ held f

-- How a call that has written the first `m` of the bytes `all` ends, with the file `after`.
pub data Ending {F : Type 0} (write : F → Bytes → F × Option ℕ) (total : ℕ) (all : Bytes) (m : ℕ)
    (after : F) : Option ℕ → Type 0 where
  -- the last call of `write` failed, for the bytes behind those that are written
  broken :
      (g : F) (front bytes rest : Bytes)
      → all ≡ front ++ (bytes ++ rest)
      → m ≡ length front
      → (write g bytes).1 ≡ none
      → after ≡ (write g bytes).0
      → Ending write total all m after none
  -- everything is written
  complete : (k : ℕ) → k ≡ total + m → m ≡ length all → Ending write total all m after (some k)
  -- the last call of `write` took `k` bytes of more
  short :
      (g : F) (front bytes rest : Bytes) (k : ℕ)
      → all ≡ front ++ (bytes ++ rest)
      → m ≡ length front + k
      → k < length bytes
      → (write g bytes).1 ≡ some k
      → after ≡ (write g bytes).0
      → Ending write total all m after (some k)

module _ {F : Type 0} (held : F → Bytes) (write : F → Bytes → F × Option ℕ) where
  abbrev pub Wrote : F → ℕ → List DataBuffer → Gathered F → Type 0
  Wrote f total bs r =
      (m : ℕ) × (held r.file ≡ held f ++ take m (gather bs))
      × (m ≤ length (gather bs))
      × Ending write total (gather bs) m r.file r.value

module _ {F : Type 0} (held : F → Bytes) (write : F → Bytes → F × Option ℕ)
    (h : IsWrite held write) where
  round_failed :
      (total : ℕ) (b : DataBuffer) (bs : List DataBuffer) (f : F)
      → (write f b.buf).1 ≡ none
      → writev_loop write total (b ∷ bs) f ≡ record { value = none; file = (write f b.buf).0 }
  unfolding writev_loop
  round_failed total b bs f e = rw (e, writev_loop) refl

  round_full :
      (total : ℕ) (b : DataBuffer) (bs : List DataBuffer) (f : F) {n : ℕ}
      → (write f b.buf).1 ≡ some n
      → (n == b.len) ≡ true
      → writev_loop write total (b ∷ bs) f ≡ writev_loop write (total + n) bs (write f b.buf).0
  unfolding writev_loop
  round_full total b bs f e full = rw (e, full, writev_loop) refl

  round_short :
      (total : ℕ) (b : DataBuffer) (bs : List DataBuffer) (f : F) {n : ℕ}
      → (write f b.buf).1 ≡ some n
      → (n == b.len) ≡ false
      → writev_loop write total (b ∷ bs) f ≡ record { value = some n; file = (write f b.buf).0 }
  unfolding writev_loop
  round_short total b bs f e part = rw (e, part, writev_loop) refl

  Ending-more :
      (total m n : ℕ) (before all : Bytes) {after : F} {o : Option ℕ}
      → n ≡ length before
      → Ending write (total + n) all m after o
      → Ending write total (before ++ all) (n + m) after o
  Ending-more total m n before all e (broken g front bytes rest split at failed last) =
      broken g (before ++ front) bytes rest
        (ap (λ t. before ++ t) split ∙ sym (append_assoc before front (bytes ++ rest)))
        (omega (arith, length-append before front)) failed last
  Ending-more total m n before all e (complete k counted whole) =
      complete k (omega arith) (omega (arith, length-append before all))
  Ending-more total m n before all e (short g front bytes rest k split at part took last) =
      short g (before ++ front) bytes rest k
        (ap (λ t. before ++ t) split ∙ sym (append_assoc before front (bytes ++ rest)))
        (omega (arith, length-append before front)) part took last

  Wrote-full :
      (f f' : F) (total n : ℕ) (b : DataBuffer) (bs : List DataBuffer) (r : Gathered F)
      → n ≡ length b.buf
      → held f' ≡ held f ++ b.buf
      → Wrote held write f' (total + n) bs r
      → Wrote held write f total (b ∷ bs) r
  Wrote-full f f' total n b bs r e first (m, written, within, ending) =
      let whole : length (gather (b ∷ bs)) ≡ n + length (gather bs) =
        omega (arith, length-append b.buf (gather bs)) in
      (
        n + m,
        written
            ∙ ap (λ t. t ++ take m (gather bs)) first
            ∙ append_assoc (held f) b.buf (take m (gather bs))
            ∙ ap (λ t. held f ++ t)
                (sym (
                  ap (λ j. take (j + m) (b.buf ++ gather bs)) e
                  ∙ take-append_more b.buf (gather bs) m)),
        omega arith,
        Ending-more total m n b.buf (gather bs) e ending,
      )

  writev_loop-Wrote :
      (total : ℕ) (bs : List DataBuffer) (f : F)
      → Fit bs
      → Wrote held write f total bs (writev_loop write total bs f)
  unfolding writev_loop
  writev_loop-Wrote total [] f v =
      (0, sym (append-nil (held f)), omega arith, complete total (omega arith) refl)
  writev_loop-Wrote total (b ∷ bs) f v = elim (Option-cases (write f b.buf).1) [
    | inl failed ↦ rw (round_failed total b bs f failed) (
      0,
      h.refused f b.buf failed ∙ sym (append-nil (held f)),
      omega arith,
      broken f [] b.buf (gather bs) refl refl failed refl,
    )
    | inr (n, took) ↦
        let (most, first) = h.taken f b.buf n took in
        let long = length-append b.buf (gather bs) in
        elim (Bool-cases (n == b.len)) [
          | inl full ↦
              let e : n ≡ length b.buf = ground (arith, v.0) in
              let all : take n b.buf ≡ b.buf =
                ap (λ j. take j b.buf) e
                ∙ ap (λ t. take (length b.buf) t) (sym (append-nil b.buf))
                ∙ take-append b.buf [] in
              rw (round_full total b bs f took full) (
                Wrote-full f (write f b.buf).0 total n b bs
                  (writev_loop write (total + n) bs (write f b.buf).0) e
                  (first ∙ ap (λ t. held f ++ t) all)
                  (writev_loop-Wrote (total + n) bs (write f b.buf).0 v.1))
          | inr part ↦
              let less : n < length b.buf = ground (arith, v.0) in
              rw (round_short total b bs f took part) (
                n,
                first ∙ ap (λ t. held f ++ t) (sym (take-append_less b.buf (gather bs) n most)),
                omega arith,
                short f [] b.buf (gather bs) n refl (omega arith) less took refl,
              )
        ]
  ]

  -- Where `write` appends a start of what it is given, or fails and changes nothing: `writev_clone` on
  -- at least one buffer, with buffers of the lengths that are given and at most
  -- 2 ^ 63 - 1 bytes in all, appends a start of the buffers' bytes to the file. Either everything
  -- is written and it returns their number; or its last `write`, for bytes that follow those that are
  -- written, failed and it returns -1; or its last `write` took fewer bytes than it was given, and it
  -- returns how many, without those that were written before.
  pub writev_clone-Wrote :
      (bs : List DataBuffer) (f : F)
      → Fit bs
      → 0 < length bs
      → length (gather bs) ≤ ssize_max
      → (r : Gathered F) × (writev_clone write bs f ≡ done r) × Wrote held write f 0 bs r
  unfolding writev_clone
  writev_clone-Wrote bs f v n small =
      let some_buffer : (length bs == 0) ≡ false = ground arith in
      let no_more : ltb ssize_max (0 + length (gather bs)) ≡ false = ground arith in
      (
        writev_loop write 0 bs f,
        rw (some_buffer, total_bytes-length 0 bs v (omega arith), no_more) refl,
        writev_loop-Wrote 0 bs f v,
      )
