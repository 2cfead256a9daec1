-- ===== src/DynArray/Tests.antt =====
-- An array of two-byte elements, and the theorems at it.
use tlpi_exercises.Prelude.{
  ℕ, ◌≡◌, refl, sym, ap, ◌∙◌, ◌⊎◌, Option, none, some, [], ◌∷◌, ◌++◌, Bytes, length,
  length-replicate, replicate, arith,
}
use mathlib.Core.List.{reverse}
use mathlib.Core.Option.{get_or}
use tlpi_exercises.DynArray.{
  DynArray, returned_1, returned_minus_1, da_push, da_get, da_reverse, grow,
}
use tlpi_exercises.DynArray.Invariant.{IsMalloc, IsValid, elements}
use tlpi_exercises.DynArray.Elements.{store, da_push-elements}
use tlpi_exercises.DynArray.Reverse.{da_reverse-elements}

-- A `malloc` that always succeeds, with blocks full of `0xaa`.
abbrev always : ℕ → Option Bytes
always n = some (replicate n 0xaa)

always-IsMalloc : IsMalloc always
always-IsMalloc n b e = ap (λ o. length (get_or o [])) (sym e) ∙ length-replicate n 0xaa

abbrev pair : DynArray
pair = record { block = some (1 ∷ 2 ∷ 3 ∷ 4 ∷ []); size = 2; capacity = 2; data_size = 2 }

pair-IsValid : IsValid pair
pair-IsValid = record {
  bytes = 1 ∷ 2 ∷ 3 ∷ 4 ∷ [];
  held = refl;
  measured = refl;
  fits = omega arith;
  wide = omega arith;
  bounded = omega arith;
}

-- The full array doubles its capacity.
push_pair : da_push always pair ≡ (
  record {
    block = some (1 ∷ 2 ∷ 3 ∷ 4 ∷ 0xaa ∷ 0xaa ∷ 0xaa ∷ 0xaa ∷ []);
    size = 3;
    capacity = 4;
    data_size = 2;
  },
  some 4,
)
unfolding da_push grow da_get
push_pair = refl

reverse_pair :
    da_reverse always pair ≡ some (record pair { block = some (3 ∷ 4 ∷ 1 ∷ 2 ∷ []) }, returned_1)
unfolding da_reverse
reverse_pair = refl

da_push-elements_example :
    ((n : ℕ) × (always n ≡ none) × (da_push always pair ≡ (pair, none)))
    ⊎ ((arr' : DynArray) × (off : ℕ) × (da_push always pair ≡ (arr', some off))
        × IsValid arr'
        × (elements (store arr' off (5 ∷ 6 ∷ [])) ≡ elements pair ++ (5 ∷ 6 ∷ []) ∷ []))
da_push-elements_example =
    da_push-elements always always-IsMalloc pair pair-IsValid (omega arith) (omega arith)
      (5 ∷ 6 ∷ []) refl

da_reverse-elements_example :
    (((pair.size ≡ 0) ⊎ ((n : ℕ) × (always n ≡ none)))
      × (da_reverse always pair ≡ some (pair, returned_minus_1)))
    ⊎ ((arr' : DynArray) × (da_reverse always pair ≡ some (arr', returned_1))
        × IsValid arr'
        × (elements arr' ≡ reverse (elements pair)))
da_reverse-elements_example =
    da_reverse-elements always always-IsMalloc pair pair-IsValid (omega arith)
