-- ===== src/PathNames/Splitting.antt =====
-- `dirname_ts` and `basename_ts` split a path at its last slash.
use tlpi_exercises.Prelude.{
  ℕ, zero, suc, ◌+◌, ◌-◌, ◌≤◌, ◌<◌, ◌≡◌, ◌≢◌, refl, sym, ap, ◌∙◌, [], ◌∷◌, ◌++◌, Bytes, length,
  take, drop, ltb, ◌==◌, arith, ◌⊎◌, inl, inr, Bool-cases, some, false, take-append-drop,
}
use mathlib.Core.List.{reverse, reverse-append, reverse-reverse}
use tlpi_exercises.PathNames.{
  slash, byte_at, base_loop, copy_loop, dirname_ts, back_loop, reverse_buf, basename_ts,
}
use tlpi_exercises.PathNames.Reversal.{reverse_buf-reverse}

abbrev pub NoSlash : Bytes → Type 0
NoSlash [] = Unit
NoSlash (c ∷ cs) = (c ≢ slash) × NoSlash cs

drop_cons :
    (i : ℕ) (path : Bytes) → i < length path → drop i path ≡ byte_at path i ∷ drop (suc i) path
drop_cons i [] h = absurd (omega arith)
drop_cons zero (c ∷ cs) h = refl
drop_cons (suc i) (c ∷ cs) h = drop_cons i cs (omega arith)

take-suc :
    (i : ℕ) (path : Bytes)
    → i < length path
    → take (suc i) path ≡ take i path ++ byte_at path i ∷ []
take-suc i [] h = absurd (omega arith)
take-suc zero (c ∷ cs) h = refl
take-suc (suc i) (c ∷ cs) h = ap (λ t. c ∷ t) (take-suc i cs (omega arith))

drop-length : (path : Bytes) → drop (length path) path ≡ []
drop-length [] = refl
drop-length (c ∷ cs) = drop-length cs

copy_loop-take :
    (path : Bytes) (rounds i : ℕ)
    → i + rounds ≤ length path
    → copy_loop path rounds i (take i path) ≡ take (i + rounds) path
unfolding copy_loop
copy_loop-take path zero i h = ap (λ k. take k path) (omega arith)
copy_loop-take path (suc rounds) i h =
    let next : suc i ≡ i + 1 = omega arith in
    ap (λ t. copy_loop path rounds (i + 1) t)
      (sym (take-suc i path (omega arith)) ∙ ap (λ k. take k path) next)
    ∙ copy_loop-take path rounds (i + 1) (omega arith)
    ∙ ap (λ k. take k path) (omega arith)

-- Where the loops of the two functions stop.
data Found (path : Bytes) (base_len : ℕ) (backwards : Bytes) : Type 0 where
  whole :
      NoSlash path
      → base_len ≡ length path
      → backwards ≡ reverse path
      → Found path base_len backwards
  cut :
      (n : ℕ)
      → n < length path
      → byte_at path n ≡ slash
      → NoSlash (drop (suc n) path)
      → base_len ≡ length path - n
      → backwards ≡ reverse (drop (suc n) path)
      → Found path base_len backwards

loops-Found :
    (path : Bytes) (i : ℕ)
    → i ≤ length path
    → NoSlash (drop i path)
    → Found path (base_loop path i (length path - i)) (back_loop path i (reverse (drop i path)))
unfolding base_loop back_loop
loops-Found path zero h clean = whole clean (omega arith) refl
loops-Found path (suc j) h clean =
    let c : ℕ = byte_at path j in
    let here : drop j path ≡ c ∷ drop (suc j) path = drop_cons j path (omega arith) in
    let count : length path - suc j + 1 ≡ length path - j = omega arith in
    let longer : reverse (drop (suc j) path) ++ c ∷ [] ≡ reverse (drop j path) =
      sym (ap reverse here ∙ reverse-append (c ∷ []) (drop (suc j) path)) in
    elim (Bool-cases (c == slash)) [
      | inl is ↦ rw is (cut j (omega arith) (ground arith) clean (omega arith) refl)
      | inr is_not ↦
          let next : NoSlash (drop j path) = rw here (ground arith, clean) in
          rw (is_not, count, longer) (loops-Found path j (omega arith) next)
    ]

-- A path of 1 to 255 bytes is split at its last slash: the part before it is what `dirname_ts`
-- returns, and the part behind it, which has no slash, what `basename_ts` returns. In a path without
-- a slash the first is empty, and the second is the path.
pub dirname_ts-basename_ts :
    (path : Bytes)
    → 0 < length path
    → length path ≤ 255
    → (d b : Bytes) × (dirname_ts path ≡ some d)
      × (basename_ts path ≡ some b)
      × NoSlash b
      × ((path ≡ d ++ (slash ∷ b)) ⊎ (d ≡ []) × (path ≡ b))
unfolding dirname_ts basename_ts
dirname_ts-basename_ts path some_byte small =
    let full : (length path == 0) ≡ false = ground arith in
    let fits : ltb 255 (length path) ≡ false = ground arith in
    rw (full, fits)
      (answers (base_loop path (length path) 0) (back_loop path (length path) []) found)
  where
    found : Found path (base_loop path (length path) 0) (back_loop path (length path) [])
    found =
        let none_left : length path - length path ≡ 0 = omega arith in
        let nothing : drop (length path) path ≡ [] = drop-length path in
        rw (← none_left, ← ap reverse nothing)
          (loops-Found path (length path) (omega arith) (rw nothing tt))

    answers :
        (base_len : ℕ) (backwards : Bytes)
        → Found path base_len backwards
        → (d b : Bytes) × (some (copy_loop path (length path - base_len) 0 []) ≡ some d)
          × (some (reverse_buf backwards) ≡ some b)
          × NoSlash b
          × ((path ≡ d ++ (slash ∷ b)) ⊎ (d ≡ []) × (path ≡ b))
    answers base_len backwards (whole clean e r) =
        let nothing : length path - base_len ≡ 0 = omega arith in
        (
          [],
          path,
          ap (λ k. some (copy_loop path k 0 [])) nothing,
          ap some (reverse_buf-reverse backwards ∙ ap reverse r ∙ reverse-reverse path),
          clean,
          inr (refl, refl),
        )
    answers base_len backwards (cut n h is clean e r) =
        let rounds : length path - base_len ≡ n = omega arith in
        (
          take n path,
          drop (suc n) path,
          ap (λ k. some (copy_loop path k 0 [])) rounds
              ∙ ap some
                  (copy_loop-take path n 0 (omega arith) ∙ ap (λ k. take k path) (omega arith)),
          ap some
              (reverse_buf-reverse backwards ∙ ap reverse r ∙ reverse-reverse (drop (suc n) path)),
          clean,
          inl (
              sym (take-append-drop n path)
              ∙ ap (λ t. take n path ++ t)
                  (drop_cons n path h ∙ ap (λ c. c ∷ drop (suc n) path) is)),
        )
