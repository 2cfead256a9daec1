-- ===== src/DynArray/Invariant.antt =====
-- Well-formed arrays, and that growing one keeps its elements.
use tlpi_exercises.Prelude.{
  ℕ, ◌+◌, ◌*◌, ◌≤◌, ◌<◌, ◌≡◌, refl, ◌∙◌, ◌⊎◌, inl, inr, Option, none, some, List, Bytes, length,
  leb, Bool-cases, Option-cases, arith,
}
use tlpi_exercises.DynArray.{
  DynArray, size_mod, mul_size, bytes_of, carry, realloc, next_capacity, grow,
}
use tlpi_exercises.DynArray.Chunks.{chunks, chunks-carry, length-carry}

-- What the code relies on of `malloc`: a block has the length that was asked for.
abbrev pub IsMalloc : (ℕ → Option Bytes) → Type 0
IsMalloc fresh = (n : ℕ) (b : Bytes) → fresh n ≡ some b → length b ≡ n

pub record IsValid (arr : DynArray) : Type 0 where
  pub bytes : Bytes
  pub held : arr.block ≡ some bytes
  pub measured : length bytes ≡ arr.capacity * arr.data_size
  pub fits : arr.size ≤ arr.capacity
  pub wide : 0 < arr.data_size
  pub bounded : arr.capacity * arr.data_size < size_mod

-- The elements, each as its bytes.
abbrev pub elements : DynArray → List Bytes
elements arr = chunks arr.size arr.data_size (bytes_of arr.block)

pub mul_le : (a b c : ℕ) → a ≤ b → a * c ≤ b * c
mul_le a b c h = grind arith

pub mul_size_exact : (a b : ℕ) → a * b < size_mod → mul_size a b ≡ a * b
mul_size_exact a b h = omega arith

pub record Grown (arr arr' : DynArray) : Type 0 where
  pub valid : IsValid arr'
  pub same_size : arr'.size ≡ arr.size
  pub same_width : arr'.data_size ≡ arr.data_size
  pub room : arr.capacity < arr'.capacity
  pub same : elements arr' ≡ elements arr

module _ (fresh : ℕ → Option Bytes) (malloc : IsMalloc fresh) (arr : DynArray)
    (v : IsValid arr) where
  -- A larger block for the same elements.
  pub realloc-Grown :
      (capacity : ℕ)
      → arr.capacity < capacity
      → capacity * arr.data_size < size_mod
      → (fresh (mul_size capacity arr.data_size) ≡ none)
        ⊎ ((b : Bytes) × (realloc fresh arr.block (mul_size capacity arr.data_size) ≡ some b)
            × Grown arr (record arr { block = some b; capacity = capacity }))
  realloc-Grown capacity more small =
      elim (Option-cases (fresh (mul_size capacity arr.data_size))) [
        | inl e ↦ inl e
        | inr (b, e) ↦
            let asked = mul_size_exact capacity arr.data_size small in
            let long : length b ≡ capacity * arr.data_size = malloc _ b e ∙ asked in
            let more_bytes = mul_le arr.capacity capacity arr.data_size (omega arith) in
            let used = mul_le arr.size arr.capacity arr.data_size v.fits in
            inr (
              carry v.bytes b,
              rw (e, v.held) refl,
              record {
                valid = record {
                  bytes = carry v.bytes b;
                  held = refl;
                  measured = length-carry v.bytes b ∙ long;
                  fits = omega (arith, v.fits);
                  wide = v.wide;
                  bounded = small;
                };
                same_size = refl;
                same_width = refl;
                room = more;
                same = rw v.held (
                    chunks-carry arr.size arr.data_size v.bytes b (omega (arith, v.measured))
                      (omega (arith, v.measured)));
              },
            )
      ]

  next_capacity_bounds :
      2 * arr.capacity < size_mod
      → (arr.capacity < next_capacity arr) × (next_capacity arr ≤ 2 * arr.capacity + 1)
  next_capacity_bounds h = ground arith

  -- `da_push` makes room if there is none, or `realloc` was refused.
  pub grow-Grown :
      2 * arr.capacity < size_mod
      → (2 * arr.capacity + 1) * arr.data_size < size_mod
      → ((n : ℕ) × (grow fresh arr ≡ none) × (fresh n ≡ none))
        ⊎ ((arr' : DynArray) × (grow fresh arr ≡ some arr')
            × IsValid arr'
            × (arr'.size ≡ arr.size)
            × (arr'.data_size ≡ arr.data_size)
            × (arr.size < arr'.capacity)
            × (elements arr' ≡ elements arr))
  unfolding grow
  grow-Grown h k = elim (Bool-cases (leb arr.capacity arr.size)) [
    | inr room ↦ inr (arr, rw room refl, v, refl, refl, ground arith, refl)
    | inl full ↦
        let next = next_capacity_bounds h in
        let bytes = mul_le (next_capacity arr) (2 * arr.capacity + 1) arr.data_size next.1 in
        elim (realloc-Grown (next_capacity arr) next.0 (omega arith)) [
          | inl e ↦ inl (mul_size (next_capacity arr) arr.data_size, rw (full, e) refl, e)
          | inr (b, e, g) ↦ inr (
            record arr { block = some b; capacity = next_capacity arr },
            rw (full, e) refl,
            g.valid,
            g.same_size,
            g.same_width,
            omega (arith, v.fits, g.room),
            g.same,
          )
        ]
  ]
