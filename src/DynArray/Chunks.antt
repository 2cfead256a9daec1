-- ===== src/DynArray/Chunks.antt =====
-- A block read as elements of one width, and what writes do to the elements.
use tlpi_exercises.Prelude.{
  ℕ, zero, suc, ◌+◌, ◌*◌, ◌≤◌, ◌≡◌, refl, sym, ap, ◌∙◌, List, [], ◌∷◌, ◌++◌, length, take, drop,
  Bytes, arith, length-append, length-take, length-drop, take-append-drop, take-append, drop-append,
  append_assoc,
}
use tlpi_exercises.DynArray.{overwrite, carry}

abbrev pub chunks : ℕ → ℕ → Bytes → List Bytes
chunks zero width b = []
chunks (suc n) width b = take width b ∷ chunks n width (drop width b)

drop-nil : (n : ℕ) → drop {A = ℕ} n [] ≡ []
drop-nil zero = refl
drop-nil (suc n) = refl

-- The sum of the two counts comes with an equation, so that it may be written in any form.
pub drop-drop : (m n k : ℕ) (b : Bytes) → k ≡ m + n → drop n (drop m b) ≡ drop k b
drop-drop zero n k b e = ap (λ j. drop j b) (omega arith)
drop-drop (suc m) n zero b e = absurd (omega arith)
drop-drop (suc m) n (suc k) [] e = drop-nil n
drop-drop (suc m) n (suc k) (x ∷ b) e = drop-drop m n k b (omega arith)

take-append_le : (n : ℕ) (x z : Bytes) → n ≤ length x → take n (x ++ z) ≡ take n x
take-append_le zero x z h = refl
take-append_le (suc n) [] z h = absurd (omega arith)
take-append_le (suc n) (a ∷ x) z h = ap (λ t. a ∷ t) (take-append_le n x z (omega arith))

drop-append_le : (n : ℕ) (x z : Bytes) → n ≤ length x → drop n (x ++ z) ≡ drop n x ++ z
drop-append_le zero x z h = refl
drop-append_le (suc n) [] z h = absurd (omega arith)
drop-append_le (suc n) (a ∷ x) z h = drop-append_le n x z (omega arith)

take-append_all : (x z : Bytes) (n : ℕ) → n ≡ length x → take n (x ++ z) ≡ x
take-append_all x z n e = rw e (take-append x z)

drop-append_all : (x z : Bytes) (n : ℕ) → n ≡ length x → drop n (x ++ z) ≡ z
drop-append_all x z n e = rw e (drop-append x z)

-- The last element.
pub chunks-suc :
    (n width : ℕ) (b : Bytes)
    → chunks (suc n) width b ≡ chunks n width b ++ take width (drop (n * width) b) ∷ []
chunks-suc zero width b = let e : 0 * width ≡ 0 = omega arith in rw e refl
chunks-suc (suc n) width b =
    let e : suc n * width ≡ width + n * width = grind arith in
    let d = drop-drop width (n * width) (suc n * width) b e in
    ap (λ t. take width b ∷ t) (rw (← d) (chunks-suc n width (drop width b)))

-- Elements behind the first `n` do not matter.
pub chunks-append :
    (n width : ℕ) (x z : Bytes) → length x ≡ n * width → chunks n width (x ++ z) ≡ chunks n width x
chunks-append zero width x z e = refl
chunks-append (suc n) width x z e =
    let w : suc n * width ≡ width + n * width = grind arith in
    let room : width ≤ length x = omega arith in
    rw (take-append_le width x z room, drop-append_le width x z room)
      (ap (λ t. take width x ∷ t)
        (chunks-append n width (drop width x) z (omega (arith, length-drop width x))))

pub chunks-take :
    (n width : ℕ) (b : Bytes)
    → n * width ≤ length b
    → chunks n width (take (n * width) b) ≡ chunks n width b
chunks-take n width b h =
    let whole = take-append-drop (n * width) b in
    sym (
      chunks-append n width (take (n * width) b) (drop (n * width) b) (length-take (n * width) b h))
    ∙ ap (chunks n width) whole

pub length-overwrite :
    (b : Bytes) (off : ℕ) (v : Bytes)
    → off + length v ≤ length b
    → length (overwrite b off v) ≡ length b
length-overwrite b off v h = omega (
  arith,
  length-append (take off b) (v ++ drop (off + length v) b),
  length-append v (drop (off + length v) b),
  length-take off b (omega arith),
  length-drop (off + length v) b,
)

-- A write of one element behind the first `n` appends it to them.
pub chunks-overwrite :
    (n width : ℕ) (b v : Bytes)
    → length v ≡ width
    → n * width + width ≤ length b
    → chunks (suc n) width (overwrite b (n * width) v) ≡ chunks n width b ++ v ∷ []
chunks-overwrite n width b v e h =
    let off : ℕ = n * width in
    let front : length (take off b) ≡ off = length-take off b (omega arith) in
    let rest : Bytes = drop (off + length v) b in
    let first : chunks n width (take off b ++ (v ++ rest)) ≡ chunks n width b =
      chunks-append n width (take off b) (v ++ rest) front ∙ chunks-take n width b (omega arith) in
    let last : take width (drop off (take off b ++ (v ++ rest))) ≡ v =
      ap (take width) (drop-append_all (take off b) (v ++ rest) off (sym front))
      ∙ take-append_all v rest width (sym e) in
    chunks-suc n width (take off b ++ (v ++ rest)) ∙ (λ i. first i ++ last i ∷ [])

-- `realloc` to a block that is not smaller keeps all.
carry-append :
    (old new : Bytes) → length old ≤ length new → carry old new ≡ old ++ drop (length old) new
carry-append [] [] h = refl
carry-append [] (y ∷ ys) h = refl
carry-append (x ∷ xs) [] h = absurd (omega arith)
carry-append (x ∷ xs) (y ∷ ys) h = ap (λ t. x ∷ t) (carry-append xs ys (omega arith))

pub length-carry : (old new : Bytes) → length (carry old new) ≡ length new
length-carry [] [] = refl
length-carry (x ∷ xs) [] = refl
length-carry [] (y ∷ ys) = refl
length-carry (x ∷ xs) (y ∷ ys) = ap suc (length-carry xs ys)

pub chunks-carry :
    (n width : ℕ) (old new : Bytes)
    → n * width ≤ length old
    → length old ≤ length new
    → chunks n width (carry old new) ≡ chunks n width old
chunks-carry n width old new h k =
    let off : ℕ = n * width in
    let front : length (take off old) ≡ off = length-take off old h in
    let tail : Bytes = drop (length old) new in
    let split : old ++ tail ≡ take off old ++ (drop off old ++ tail) =
      ap (λ t. t ++ tail) (sym (take-append-drop off old))
      ∙ append_assoc (take off old) (drop off old) tail in
    ap (chunks n width) (carry-append old new k)
    ∙ ap (chunks n width) split
    ∙ chunks-append n width (take off old) (drop off old ++ tail) front
    ∙ chunks-take n width old h
