-- ===== src/VectorIo/Scattering.antt =====
-- What `readv_clone` reads.
use tlpi_exercises.Prelude.{
  ℕ, ◌+◌, ◌≤◌, ◌<◌, ◌≡◌, refl, ap, ◌∙◌, ◌⊎◌, inl, inr, true, false, Option, none, some, List, [],
  ◌∷◌, ◌++◌, Bytes, length, take, drop, ltb, ◌==◌, done, arith, length-append, length-drop,
  Bool-cases, Option-cases,
}
use tlpi_exercises.VectorIo.{
  DataBuffer, ssize_max, Scattered, store, behind, readv_loop, readv_clone,
}
use tlpi_exercises.VectorIo.Transfer.{
  gather, Fit, total_bytes-length, Moved, Moved-full, Moved-part,
}

-- What a file still has to give, and how `read` gives it: no more than was asked for, from its start.
pub record IsRead {F : Type 0} (left : F → Bytes) (read : F → ℕ → F × Option Bytes) : Type 0 where
  pub given :
      (f : F) (n : ℕ) (bytes : Bytes)
      → (read f n).1 ≡ some bytes
      → (left f ≡ bytes ++ left (read f n).0) × (length bytes ≤ n)

module _ {F : Type 0} (read : F → ℕ → F × Option Bytes) where
  round_failed :
      (total : ℕ) (b : DataBuffer) (bs : List DataBuffer) (f : F)
      → (read f b.len).1 ≡ none
      → readv_loop read total (b ∷ bs) f
        ≡ record { value = none; buffers = b ∷ bs; file = (read f b.len).0 }
  unfolding readv_loop
  round_failed total b bs f e = rw (e, readv_loop) refl

  round_full :
      (total : ℕ) (b : DataBuffer) (bs : List DataBuffer) (f : F) {bytes : Bytes}
      → (read f b.len).1 ≡ some bytes
      → (length bytes == b.len) ≡ true
      → readv_loop read total (b ∷ bs) f
        ≡ behind (store bytes b) (readv_loop read (total + length bytes) bs (read f b.len).0)
  unfolding readv_loop
  round_full total b bs f e full = rw (e, full, readv_loop) refl

  round_short :
      (total : ℕ) (b : DataBuffer) (bs : List DataBuffer) (f : F) {bytes : Bytes}
      → (read f b.len).1 ≡ some bytes
      → (length bytes == b.len) ≡ false
      → readv_loop read total (b ∷ bs) f ≡ record {
        value = some (total + length bytes);
        buffers = store bytes b ∷ bs;
        file = (read f b.len).0;
      }
  unfolding readv_loop
  round_short total b bs f e short = rw (e, short, readv_loop) refl

module _ {F : Type 0} (left : F → Bytes) (read : F → ℕ → F × Option Bytes)
    (h : IsRead left read) where
  -- The last call of `read` failed, or gave less than was asked for.
  abbrev pub LastFailed : F → Type 0
  LastFailed after = (g : F) × (n : ℕ) × ((read g n).1 ≡ none) × (after ≡ (read g n).0)

  abbrev pub LastShort : F → Type 0
  LastShort after =
      (g : F) × (n : ℕ) × (bytes : Bytes) × ((read g n).1 ≡ some bytes)
      × (length bytes < n)
      × (after ≡ (read g n).0)

  -- A call fails because a `read` does, or moves what it counts, which is all unless a `read` was
  -- short.
  abbrev MovesCount : F → ℕ → ℕ → Scattered F → Type 0
  MovesCount f total whole r =
      (r.value ≡ none) × LastFailed r.file
      ⊎ ((k : ℕ) × (r.value ≡ some k)
          × Moved (left f) (left r.file) total k r.buffers
          × ((k ≡ total + whole) ⊎ LastShort r.file))

  MovesCount-full :
      {f f' : F} {total : ℕ} (r : Scattered F) (bytes : Bytes) (b : DataBuffer) (whole all : ℕ)
      → length b.buf ≡ length bytes
      → all ≡ length bytes + whole
      → left f ≡ bytes ++ left f'
      → MovesCount f' (total + length bytes) whole r
      → MovesCount f total all (behind (store bytes b) r)
  MovesCount-full r bytes b whole all e sizes first (inl failed) = inl failed
  MovesCount-full r bytes b whole all e sizes first (inr (k, counted, m, inl full)) =
      inr (k, counted, Moved-full bytes b r.buffers e first m, inl (omega arith))
  MovesCount-full r bytes b whole all e sizes first (inr (k, counted, m, inr short)) =
      inr (k, counted, Moved-full bytes b r.buffers e first m, inr short)

  readv_loop-MovesCount :
      (total : ℕ) (bs : List DataBuffer) (f : F)
      → Fit bs
      → MovesCount f total (length (gather bs)) (readv_loop read total bs f)
  unfolding readv_loop
  readv_loop-MovesCount total [] f v = inr (
    total,
    refl,
    record { more = 0; counted = omega arith; within = omega arith; moved = refl },
    inl (omega arith),
  )
  readv_loop-MovesCount total (b ∷ bs) f v = elim (Option-cases (read f b.len).1) [
    | inl failed ↦ rw (round_failed read total b bs f failed) (inl (refl, (f, b.len, failed, refl)))
    | inr (bytes, got) ↦
        let (first, most) = h.given f b.len bytes got in
        elim (Bool-cases (length bytes == b.len)) [
          | inl full ↦
              let e : length b.buf ≡ length bytes = ground (arith, v.0) in
              rw (round_full read total b bs f got full) (
                MovesCount-full {f = f} {f' = (read f b.len).0} {total = total} _ bytes b
                  (length (gather bs)) (length (gather (b ∷ bs))) e
                  (omega (arith, e, length-append b.buf (gather bs))) first
                  (readv_loop-MovesCount (total + length bytes) bs (read f b.len).0 v.1))
          | inr short ↦
              let less : length bytes < b.len = ground arith in
              rw (round_short read total b bs f got short) (
                inr (
                  total + length bytes,
                  refl,
                  Moved-part total bytes b bs first,
                  inr (f, b.len, bytes, got, less, refl),
                ))
        ]
  ]

  length-store :
      (bytes : Bytes) (b : DataBuffer)
      → length bytes ≤ length b.buf
      → length (store bytes b).buf ≡ length b.buf
  length-store bytes b e =
      omega
        (arith, length-append bytes (drop (length bytes) b.buf), length-drop (length bytes) b.buf)

  gather-store :
      (bytes : Bytes) (b : DataBuffer) (bs bs' : List DataBuffer)
      → length bytes ≤ length b.buf
      → length (gather bs') ≡ length (gather bs)
      → length (gather (store bytes b ∷ bs')) ≡ length (gather (b ∷ bs))
  gather-store bytes b bs bs' e same = omega (
    arith,
    length-append (store bytes b).buf (gather bs'),
    length-append b.buf (gather bs),
    length-store bytes b e,
  )

  readv_loop-length :
      (total : ℕ) (bs : List DataBuffer) (f : F)
      → Fit bs
      → length (gather (readv_loop read total bs f).buffers) ≡ length (gather bs)
  unfolding readv_loop
  readv_loop-length total [] f v = refl
  readv_loop-length total (b ∷ bs) f v = elim (Option-cases (read f b.len).1) [
    | inl failed ↦ rw (round_failed read total b bs f failed) refl
    | inr (bytes, got) ↦
        let (first, most) = h.given f b.len bytes got in
        let most' : length bytes ≤ length b.buf = omega (arith, v.0) in
        elim (Bool-cases (length bytes == b.len)) [
          | inl full ↦ rw (round_full read total b bs f got full) (
              gather-store bytes b bs
                (readv_loop read (total + length bytes) bs (read f b.len).0).buffers most'
                (readv_loop-length (total + length bytes) bs (read f b.len).0 v.1))
          | inr short ↦
              rw (round_short read total b bs f got short) (gather-store bytes b bs bs most' refl)
        ]
  ]

  readv_clone_call :
      (bs : List DataBuffer) (f : F)
      → Fit bs
      → 0 < length bs
      → length (gather bs) ≤ ssize_max
      → readv_clone read bs f ≡ done (readv_loop read 0 bs f)
  unfolding readv_clone
  readv_clone_call bs f v n small =
      let some_buffer : (length bs == 0) ≡ false = ground arith in
      let no_more : ltb ssize_max (0 + length (gather bs)) ≡ false = ground arith in
      rw (some_buffer, total_bytes-length 0 bs v (omega arith), no_more) refl

  -- How a call ends that begins with the file `f`.
  abbrev pub Transfers : F → ℕ → Scattered F → Type 0
  Transfers f whole r =
      (r.value ≡ none) × LastFailed r.file
      ⊎ ((k : ℕ) × (r.value ≡ some k)
          × (k ≤ length (gather r.buffers))
          × (left f ≡ take k (gather r.buffers) ++ left r.file)
          × ((k ≡ whole) ⊎ LastShort r.file))

  -- Where `read` gives bytes from the start of what is left of the file, and no more than it is asked
  -- for: `readv_clone` on at least one buffer, with buffers of the lengths that are given and at most
  -- 2 ^ 63 - 1 bytes in all, returns -1 only where its last `read` fails; otherwise it returns the
  -- number of bytes that it took from the file, these stand in order at the start of the buffers, and
  -- they fill all buffers unless the last `read` gave less than it was asked for. The buffers are as
  -- long as before.
  pub readv_clone-moves :
      (bs : List DataBuffer) (f : F)
      → Fit bs
      → 0 < length bs
      → length (gather bs) ≤ ssize_max
      → (r : Scattered F) × (readv_clone read bs f ≡ done r)
        × (length (gather r.buffers) ≡ length (gather bs))
        × Transfers f (length (gather bs)) r
  readv_clone-moves bs f v n small = (
    readv_loop read 0 bs f,
    readv_clone_call bs f v n small,
    readv_loop-length 0 bs f v,
    outcome (readv_loop read 0 bs f) (readv_loop-MovesCount 0 bs f v),
  )
    where
      outcome :
          (r : Scattered F)
          → MovesCount f 0 (length (gather bs)) r
          → Transfers f (length (gather bs)) r
      outcome r (inl failed) = inl failed
      outcome r (inr (k, counted, m, ends)) =
          let ends' : (k ≡ length (gather bs)) ⊎ LastShort r.file = without_zero ends in
          let same : m.more ≡ k = omega (arith, m.counted) in
          inr (
            k,
            counted,
            omega (arith, m.within),
            m.moved ∙ ap (λ j. take j (gather r.buffers) ++ left r.file) same,
            ends',
          )
        where
          without_zero :
              (k ≡ 0 + length (gather bs)) ⊎ LastShort r.file
              → (k ≡ length (gather bs)) ⊎ LastShort r.file
          without_zero (inl all) = inl (omega arith)
          without_zero (inr short) = inr short
