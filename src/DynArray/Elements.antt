-- ===== src/DynArray/Elements.antt =====
-- The operations of the array as operations on the list of its elements.
use tlpi_exercises.Prelude.{
  ℕ, zero, suc, ◌+◌, ◌-◌, ◌*◌, ◌%◌, ◌≤◌, ◌<◌, ◌≡◌, refl, ap, ◌∙◌, ◌⊎◌, inl, inr, Option, none, some,
  [], ◌∷◌, ◌++◌, Bytes, length, leb, ltb, Bool-cases, arith, take, drop, get_elem?,
}
use mathlib.Core.Option
use tlpi_exercises.DynArray.{
  DynArray, Code, returned_0, returned_1, returned_minus_1, size_mod, mul_size, bytes_of, overwrite,
  da_push, da_pop, da_get, da_back, da_reserve,
}
use tlpi_exercises.DynArray.Chunks.{chunks, drop-drop, chunks-suc, chunks-overwrite}
use tlpi_exercises.DynArray.Invariant.{
  IsMalloc, IsValid, elements, grow-Grown, realloc-Grown, mul_le, mul_size_exact,
}

get_elem?-chunks :
    (n width i : ℕ) (b : Bytes)
    → i < n
    → get_elem? (chunks n width b) i ≡ some (take width (drop (i * width) b))
get_elem?-chunks zero width i b h = elim h [ ]
get_elem?-chunks (suc n) width zero b h = let e : 0 * width ≡ 0 = omega arith in rw e refl
get_elem?-chunks (suc n) width (suc i) b h =
    rw (← drop-drop width (i * width) (suc i * width) b (grind arith))
      (get_elem?-chunks n width i (drop width b) (omega arith))

chunks_pred :
    (n width : ℕ) (b : Bytes)
    → 0 < n
    → chunks n width b ≡ chunks (n - 1) width b ++ take width (drop ((n - 1) * width) b) ∷ []
chunks_pred zero width b h = elim h [ ]
chunks_pred (suc n) width b h = let e : suc n - 1 ≡ n = omega arith in rw e (chunks-suc n width b)

-- What a caller does with a pointer that the array hands out.
abbrev pub store : DynArray → ℕ → Bytes → DynArray
store arr off x = record arr { block = Option.map (λ b. overwrite b off x) arr.block }

abbrev pub load : DynArray → ℕ → Bytes
load arr off = take arr.data_size (drop off (bytes_of arr.block))

suc_mul : (a b : ℕ) → suc a * b ≡ a * b + b
suc_mul a b = grind arith

module _ (arr : DynArray) (v : IsValid arr) where
  -- The offset of an element stays in the block.
  offset_in :
      (n : ℕ) → n < arr.capacity → n * arr.data_size + arr.data_size ≤ arr.capacity * arr.data_size
  offset_in n h =
      omega (arith, mul_le (suc n) arr.capacity arr.data_size h, suc_mul n arr.data_size)

  capacity_small : arr.capacity < size_mod
  capacity_small =
      let wide = v.wide in
      let bounded = v.bounded in
      let b : 1 * arr.capacity ≤ arr.data_size * arr.capacity =
        mul_le 1 arr.data_size arr.capacity wide in
      grind arith

  offset_exact : (n : ℕ) → n < arr.capacity → mul_size n arr.data_size ≡ n * arr.data_size
  offset_exact n h =
      let wide = v.wide in mul_size_exact n arr.data_size (omega (arith, offset_in n h, v.bounded))

  -- In a well-formed array, `da_get` of an index below the size points to the element with that
  -- index.
  pub get_elem?-da_get :
      (i : ℕ) → i < arr.size → get_elem? (elements arr) i ≡ some (load arr (da_get arr i))
  unfolding da_get
  get_elem?-da_get i h =
      rw (offset_exact i (omega (arith, v.fits)))
        (get_elem?-chunks arr.size arr.data_size i (bytes_of arr.block) h)

  -- `da_back` points to the last element.
  pub da_back-da_get : 0 < arr.size → da_back arr ≡ da_get arr (arr.size - 1)
  unfolding da_back da_get
  da_back-da_get h = ap (λ k. mul_size k arr.data_size) (omega (arith, capacity_small, v.fits))

  -- One element more, where there is room.
  pushed_size : arr.size < arr.capacity → (arr.size + 1) % size_mod ≡ suc arr.size
  pushed_size h = omega (arith, capacity_small)

  last_index : arr.size < arr.capacity → (suc arr.size + size_mod - 1) % size_mod ≡ arr.size
  last_index h = omega (arith, capacity_small)

  store-elements :
      (x : Bytes)
      → length x ≡ arr.data_size
      → arr.size < arr.capacity
      → elements (store (record arr { size = suc arr.size }) (arr.size * arr.data_size) x)
        ≡ elements arr ++ x ∷ []
  store-elements x e h = rw v.held (
      chunks-overwrite arr.size arr.data_size v.bytes x e
        (omega (arith, v.measured, offset_in arr.size h)))

  pushed-IsValid : arr.size < arr.capacity → IsValid (record arr { size = suc arr.size })
  pushed-IsValid h = record {
    bytes = v.bytes;
    held = v.held;
    measured = v.measured;
    fits = h;
    wide = v.wide;
    bounded = v.bounded;
  }

  -- `da_pop` of a well-formed array removes the last element, the one that `da_back` pointed to,
  -- returns 1 and keeps the array well formed; on an empty array it returns -1 and changes nothing.
  pub da_pop-elements :
      ((arr.size ≡ 0) × (da_pop arr ≡ (arr, returned_minus_1)))
      ⊎ ((da_pop arr).1 ≡ returned_1)
        × IsValid (da_pop arr).0
        × (elements arr ≡ elements (da_pop arr).0 ++ load arr (da_back arr) ∷ [])
  unfolding da_pop da_get
  da_pop-elements = elim (Bool-cases (ltb arr.size 1)) [
    | inl empty ↦ inl (ground arith, rw empty refl)
    | inr more ↦
        let some_left : 0 < arr.size = ground arith in
        let last = offset_exact (arr.size - 1) (omega (arith, v.fits)) in
        inr (
          rw more (
            refl,
            record {
              bytes = v.bytes;
              held = v.held;
              measured = v.measured;
              fits = omega (arith, v.fits);
              wide = v.wide;
              bounded = v.bounded;
            },
            rw (da_back-da_get some_left, last)
                (chunks_pred arr.size arr.data_size (bytes_of arr.block) some_left),
          ))
  ]

-- `da_push` appends to a well-formed array, if twice its capacity and the bytes for one element
-- more than that are below 2 ^ 64: it leaves a well-formed array, the caller's write of an element
-- through the pointer that it returns makes the new last element, and the others are as they were.
-- It fails only where an allocation fails, and then changes nothing.
pub da_push-elements :
    (fresh : ℕ → Option Bytes)
    → IsMalloc fresh
    → (arr : DynArray) → IsValid arr
    → 2 * arr.capacity < size_mod
    → (2 * arr.capacity + 1) * arr.data_size < size_mod
    → (x : Bytes) → length x ≡ arr.data_size
    → ((n : ℕ) × (fresh n ≡ none) × (da_push fresh arr ≡ (arr, none)))
      ⊎ ((arr' : DynArray) × (off : ℕ) × (da_push fresh arr ≡ (arr', some off))
          × IsValid arr'
          × (elements (store arr' off x) ≡ elements arr ++ x ∷ []))
unfolding da_push da_get
da_push-elements fresh malloc arr v h k x e = elim (grow-Grown fresh malloc arr v h k) [
  | inl (n, stuck, refused) ↦ inl (n, refused, ground arith)
  | inr (arr', grown, v', size', width', room, same) ↦
      let here : arr'.size < arr'.capacity = omega arith in
      inr (
        record arr' { size = suc arr'.size },
        arr'.size * arr'.data_size,
        ground (
          arith,
          pushed_size arr' v' here,
          last_index arr' v' here,
          offset_exact arr' v' arr'.size here,
        ),
        pushed-IsValid arr' v' here,
        store-elements arr' v' x (omega arith) here ∙ ap (λ t. t ++ x ∷ []) same,
      )
]

-- `da_reserve` of a well-formed array, with a capacity whose bytes are below 2 ^ 64, keeps the
-- elements and leaves a well-formed array with room for the capacity asked for. It fails only where
-- an allocation fails, and then changes nothing.
pub da_reserve-elements :
    (fresh : ℕ → Option Bytes)
    → IsMalloc fresh
    → (arr : DynArray) → IsValid arr
    → (capacity : ℕ) → capacity * arr.data_size < size_mod
    → ((n : ℕ) × (fresh n ≡ none) × (da_reserve fresh arr capacity ≡ (arr, returned_minus_1)))
      ⊎ ((arr' : DynArray) × (c : Code) × (da_reserve fresh arr capacity ≡ (arr', c))
          × IsValid arr'
          × (capacity ≤ arr'.capacity)
          × (elements arr' ≡ elements arr))
unfolding da_reserve
da_reserve-elements fresh malloc arr v capacity small =
    elim (Bool-cases (leb capacity arr.capacity)) [
      | inl enough ↦ inr (arr, returned_0, rw enough refl, v, ground arith, refl)
      | inr short ↦ elim (realloc-Grown fresh malloc arr v capacity (ground arith) small) [
        | inl e ↦ inl (mul_size capacity arr.data_size, e, rw (short, e) refl)
        | inr (b, e, g) ↦ inr (
          record arr { block = some b; capacity = capacity },
          returned_1,
          rw (short, e) refl,
          g.valid,
          omega arith,
          g.same,
        )
      ]
    ]
