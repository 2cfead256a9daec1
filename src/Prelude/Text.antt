-- ===== src/Prelude/Text.antt =====
-- C strings as lists of byte codes without the terminating null, and `strcmp`.
use Prim.Native.Nat.{ℕ, compare, Ordering}
use Prim.Native.Nat.Ordering.{lt, eq, gt}
use Prim.Native.Char.{code}
use Prim.Native.String.{String}
use mathlib.Core.Path.{◌≡◌, refl}
use mathlib.Core.List.{List, [], ◌∷◌}
use native.Mathlib.Omega.{arith}

abbrev pub Bytes : Type 0
Bytes = List ℕ

-- The bytes of an ASCII literal.
abbrev pub codes : String → Bytes
codes String.[] = []
codes (String.◌∷◌ c s) = code c ∷ codes s

-- The sign of the C library's `strcmp`.
unfoldable pub strcmp : Bytes → Bytes → Ordering
strcmp [] [] = eq
strcmp [] (b ∷ t) = lt
strcmp (a ∷ s) [] = gt
strcmp (a ∷ s) (b ∷ t) = elim (compare a b) [ lt ↦ lt | eq ↦ strcmp s t | gt ↦ gt ]

infix 50 ◌≺◌
abbrev pub ◌≺◌ : Bytes → Bytes → Type 0
s ≺ t = strcmp s t ≡ lt

pub strcmp_refl : (s : Bytes) → strcmp s s ≡ eq
unfolding strcmp
strcmp_refl [] = refl
strcmp_refl (a ∷ s) = ground (arith, strcmp_refl s)

pub eq_of_strcmp : (s t : Bytes) → strcmp s t ≡ eq → s ≡ t
unfolding strcmp
eq_of_strcmp [] [] h = refl
eq_of_strcmp [] (b ∷ t) h = cc
eq_of_strcmp (a ∷ s) [] h = cc
eq_of_strcmp (a ∷ s) (b ∷ t) h = ground (arith, eq_of_strcmp s t)

pub strcmp-lt_of_gt : (s t : Bytes) → strcmp s t ≡ gt → strcmp t s ≡ lt
unfolding strcmp
strcmp-lt_of_gt [] [] h = cc
strcmp-lt_of_gt [] (b ∷ t) h = cc
strcmp-lt_of_gt (a ∷ s) [] h = refl
strcmp-lt_of_gt (a ∷ s) (b ∷ t) h = ground (arith, strcmp-lt_of_gt s t)

pub strcmp-gt_of_lt : (s t : Bytes) → strcmp s t ≡ lt → strcmp t s ≡ gt
unfolding strcmp
strcmp-gt_of_lt [] [] h = cc
strcmp-gt_of_lt [] (b ∷ t) h = refl
strcmp-gt_of_lt (a ∷ s) [] h = cc
strcmp-gt_of_lt (a ∷ s) (b ∷ t) h = ground (arith, strcmp-gt_of_lt s t)

pub ≺-trans : (s t u : Bytes) → s ≺ t → t ≺ u → s ≺ u
unfolding strcmp
≺-trans [] [] u h k = cc
≺-trans [] (b ∷ t) [] h k = cc
≺-trans [] (b ∷ t) (c ∷ u) h k = refl
≺-trans (a ∷ s) [] u h k = cc
≺-trans (a ∷ s) (b ∷ t) [] h k = cc
≺-trans (a ∷ s) (b ∷ t) (c ∷ u) h k = ground (arith, ≺-trans s t u)
