-- ===== src/DynArray/Reverse.antt =====
-- The loop of `da_reverse`, with its `(int)` cast of the index.
use tlpi_exercises.Prelude.{
  ℕ, zero, suc, ◌+◌, ◌-◌, ◌*◌, ◌%◌, ◌^◌, ◌≤◌, ◌<◌, ◌≡◌, refl, sym, ap, ◌∙◌, ◌⊎◌, inl, inr, false,
  Option, none, some, [], ◌∷◌, ◌++◌, Bytes, length, leb, Bool-cases, Option-cases, arith, take,
  drop, append_assoc, length-take, length-drop,
}
use mathlib.Core.List.{reverse, reverse-append}
use tlpi_exercises.DynArray.{
  DynArray, returned_1, returned_minus_1, size_mod, mul_size, bytes_of, overwrite, reverse_loop,
  da_reverse,
}
use tlpi_exercises.DynArray.Chunks.{chunks, chunks-suc, chunks-overwrite, length-overwrite}
use tlpi_exercises.DynArray.Invariant.{IsMalloc, IsValid, elements, mul_le, mul_size_exact}

-- The element with index `i`.
abbrev element : ℕ → ℕ → Bytes → Bytes
element width i b = take width (drop (i * width) b)

-- After the loop `y + n + 1` elements are in place: those before, and the first `n + 1` old ones
-- in reverse order.
record IsReversed (width y n : ℕ) (old new out : Bytes) : Type 0 where
  measured : length out ≡ length new
  reversed : chunks (y + suc n) width out ≡ chunks y width new ++ reverse (chunks (suc n) width old)

module _ (width : ℕ) (old : Bytes) where
  length-element : (i : ℕ) → suc i * width ≤ length old → length (element width i old) ≡ width
  length-element i h =
      let e : suc i * width ≡ i * width + width = grind arith in
      length-take width (drop (i * width) old) (omega (arith, length-drop (i * width) old))

  reverse-chunks-suc :
      (n : ℕ)
      → reverse (chunks (suc n) width old) ≡ element width n old ∷ reverse (chunks n width old)
  reverse-chunks-suc n =
      ap reverse (chunks-suc n width old)
      ∙ reverse-append (chunks n width old) (element width n old ∷ [])

  -- One round of the loop.
  reverse_loop-step :
      (f i y i' : ℕ) (new : Bytes) {out : Bytes}
      → (i % 2 ^ 32) < 2 ^ 31
      → (i + size_mod - 1) % size_mod ≡ i'
      → y * width < size_mod
      → i * width < size_mod
      → reverse_loop f width i' (suc y) old (overwrite new (y * width) (element width i old))
        ≡ some out
      → reverse_loop (suc f) width i y old new ≡ some out
  unfolding reverse_loop
  reverse_loop-step f i y i' new low next a b rest =
      let next_y : y + 1 ≡ suc y = omega arith in
      ground (arith, mul_size_exact y width a, mul_size_exact i width b)

  -- The index below 0 ends the loop.
  reverse_loop_end :
      (f y : ℕ) (new : Bytes) → reverse_loop (suc f) width (size_mod - 1) y old new ≡ some new
  unfolding reverse_loop
  reverse_loop_end f y new = refl

  reverse_loop-IsReversed :
      (n f y : ℕ) (new : Bytes)
      → suc n < f
      → n < 2 ^ 31
      → suc n * width ≤ length old
      → (y + suc n) * width ≤ length new
      → length new < size_mod
      → (out : Bytes) × (reverse_loop f width n y old new ≡ some out)
        × IsReversed width y n old new out
  reverse_loop-IsReversed n zero y new h low a b c = absurd (omega arith)
  reverse_loop-IsReversed n (suc zero) y new h low a b c = absurd (omega arith)
  reverse_loop-IsReversed zero (suc (suc f)) y new h low a b c =
      let w1 : suc zero * width ≡ width = omega arith in
      let w2 : (y + 1) * width ≡ y * width + width = grind arith in
      let wide : length (element width 0 old) ≡ width = length-element 0 a in
      let out = overwrite new (y * width) (element width 0 old) in
      let len = length-overwrite new (y * width) (element width 0 old) (omega arith) in
      let next_y : y + 1 ≡ suc y = omega arith in
      let first : element width 0 old ≡ take width old =
        (let z : 0 * width ≡ 0 = omega arith in rw z refl) in
      (
        out,
        reverse_loop-step (suc f) 0 y (size_mod - 1) new (omega arith) refl (omega arith)
            (omega arith) (reverse_loop_end f (suc y) out),
        record {
          measured = len;
          reversed = rw next_y (
              chunks-overwrite y width new (element width 0 old) wide (omega arith)
              ∙ ap (λ x. chunks y width new ++ x ∷ []) first);
        },
      )
  reverse_loop-IsReversed (suc n) (suc (suc f)) y new h low a b c =
      let w1 : suc (suc n) * width ≡ suc n * width + width = grind arith in
      let w2 : (y + suc (suc n)) * width ≡ y * width + width + suc n * width = grind arith in
      let w3 : (suc y + suc n) * width ≡ y * width + width + suc n * width = grind arith in
      let x : Bytes = element width (suc n) old in
      let wide : length x ≡ width = length-element (suc n) a in
      let new' : Bytes = overwrite new (y * width) x in
      let len : length new' ≡ length new = length-overwrite new (y * width) x (omega arith) in
      let (out, run, ih) =
        reverse_loop-IsReversed n (suc f) (suc y) new' (omega arith) (omega arith) (omega arith)
          (omega arith) (omega arith) in
      let count : y + suc (suc n) ≡ suc y + suc n = omega arith in
      (
        out,
        reverse_loop-step (suc f) (suc n) y n new (omega arith) (omega arith) (omega arith)
            (omega arith) run,
        record {
          measured = ih.measured ∙ len;
          reversed =
              ap (λ k. chunks k width out) count
              ∙ ih.reversed
              ∙ ap (λ t. t ++ reverse (chunks (suc n) width old))
                  (chunks-overwrite y width new x wide (omega arith))
              ∙ append_assoc (chunks y width new) (x ∷ []) (reverse (chunks (suc n) width old))
              ∙ ap (λ t. chunks y width new ++ t) (sym (reverse-chunks-suc (suc n)));
        },
      )

reverse_call :
    (fresh : ℕ → Option Bytes) (arr : DynArray) (v : IsValid arr) (b out : Bytes)
    → leb arr.size 0 ≡ false
    → fresh (mul_size arr.capacity arr.data_size) ≡ some b
    → reverse_loop (arr.size + 1) arr.data_size (arr.size - 1) 0 v.bytes b ≡ some out
    → da_reverse fresh arr ≡ some (record arr { block = some out }, returned_1)
unfolding da_reverse
reverse_call fresh arr v b out more e run = rw (more, e, v.held, run) refl

-- `da_reverse` of a well-formed array with at most 2 ^ 31 elements ends, reverses the elements and
-- leaves a well-formed array. It fails only where the array is empty or an allocation fails, and
-- then changes nothing.
pub da_reverse-elements :
    (fresh : ℕ → Option Bytes)
    → IsMalloc fresh
    → (arr : DynArray) → IsValid arr
    → arr.size ≤ 2 ^ 31
    → (((arr.size ≡ 0) ⊎ ((n : ℕ) × (fresh n ≡ none)))
        × (da_reverse fresh arr ≡ some (arr, returned_minus_1)))
      ⊎ ((arr' : DynArray) × (da_reverse fresh arr ≡ some (arr', returned_1))
          × IsValid arr'
          × (elements arr' ≡ reverse (elements arr)))
unfolding da_reverse
da_reverse-elements fresh malloc arr v h = elim (Bool-cases (leb arr.size 0)) [
  | inl empty ↦ inl (inl (ground arith), rw empty refl)
  | inr more ↦ elim (Option-cases (fresh (mul_size arr.capacity arr.data_size))) [
    | inl e ↦ inl (inr (mul_size arr.capacity arr.data_size, e), rw (more, e) refl)
    | inr (b, e) ↦
        let n : ℕ = arr.size - 1 in
        let count : arr.size ≡ suc n = ground arith in
        let count' : arr.size ≡ 0 + suc n = ground arith in
        let asked = mul_size_exact arr.capacity arr.data_size v.bounded in
        let long : length b ≡ arr.capacity * arr.data_size = malloc _ b e ∙ asked in
        let used : suc n * arr.data_size ≤ arr.capacity * arr.data_size =
          mul_le (suc n) arr.capacity arr.data_size (omega (arith, v.fits)) in
        let used' : (0 + suc n) * arr.data_size ≤ arr.capacity * arr.data_size =
          mul_le (0 + suc n) arr.capacity arr.data_size (omega (arith, v.fits)) in
        let (out, run, r) =
          reverse_loop-IsReversed arr.data_size v.bytes n (arr.size + 1) 0 b (omega arith)
            (omega arith) (omega (arith, v.measured)) (omega arith) (omega (arith, v.bounded)) in
        inr (
          record arr { block = some out },
          reverse_call fresh arr v b out more e run,
          record {
            bytes = out;
            held = refl;
            measured = r.measured ∙ long;
            fits = v.fits;
            wide = v.wide;
            bounded = v.bounded;
          },
          ap (λ k. chunks k arr.data_size out) count'
              ∙ r.reversed
              ∙ ap (λ k. reverse (chunks k arr.data_size v.bytes)) (sym count)
              ∙ ap (λ t. reverse (chunks arr.size arr.data_size (bytes_of t))) (sym v.held),
        )
  ]
]
