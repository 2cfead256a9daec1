-- ===== src/DynArray/Lifecycle.antt =====
-- Arrays that are made, emptied and given away.
use tlpi_exercises.Prelude.{
  ℕ, ◌*◌, ◌<◌, ◌≡◌, refl, ◌∙◌, ◌⊎◌, inl, inr, Option, none, [], ◌==◌, Bool-cases, Option-cases,
  arith, Bytes,
}
use tlpi_exercises.DynArray.{
  DynArray, returned_0, returned_1, returned_minus_1, size_mod, mul_size, da_init, da_clear,
}
use tlpi_exercises.DynArray.Invariant.{IsMalloc, IsValid, elements, mul_size_exact}

module _ (fresh : ℕ → Option Bytes) (malloc : IsMalloc fresh) where
  -- Where the size in bytes does not overflow, `da_init` with a width of 0 fails and changes
  -- nothing; with another width it either reports, by 1, that `malloc` failed, or returns 0 and
  -- leaves a well-formed array of the size asked for.
  pub da_init-IsValid :
      (arr : DynArray) (size width : ℕ)
      → size * width < size_mod
      → ((width ≡ 0) × (da_init fresh arr size width ≡ (arr, returned_minus_1)))
        ⊎ ((fresh (mul_size size width) ≡ none) × ((da_init fresh arr size width).1 ≡ returned_1)
            ⊎ ((da_init fresh arr size width).1 ≡ returned_0)
              × IsValid (da_init fresh arr size width).0
              × ((da_init fresh arr size width).0.size ≡ size))
  unfolding da_init
  da_init-IsValid arr size width small = elim (Bool-cases (width == 0)) [
    | inl e ↦ inl (ground arith, rw e refl)
    | inr some_width ↦ elim (Option-cases (fresh (mul_size size width))) [
      | inl e ↦ inr (inl (e, rw (some_width, e) refl))
      | inr (b, e) ↦ inr (
          inr (
            rw (some_width, e)
              (
                refl,
                record {
                  bytes = b;
                  held = refl;
                  measured = malloc _ b e ∙ mul_size_exact size width small;
                  fits = omega arith;
                  wide = ground arith;
                  bounded = small;
                },
                refl,
              )))
    ]
  ]

  -- `da_clear` of a well-formed array either reports that `malloc` of 0 bytes failed, or returns 0
  -- and leaves a well-formed array with no element.
  pub da_clear-IsValid :
      (arr : DynArray)
      → IsValid arr
      → ((fresh 0 ≡ none) × ((da_clear fresh arr).1 ≡ returned_minus_1))
        ⊎ ((da_clear fresh arr).1 ≡ returned_0)
          × IsValid (da_clear fresh arr).0
          × (elements (da_clear fresh arr).0 ≡ [])
  unfolding da_clear
  da_clear-IsValid arr v =
      let z : mul_size 0 arr.data_size ≡ 0 = omega arith in
      elim (Option-cases (fresh 0)) [
        | inl e ↦ inl (e, rw (z, e) refl)
        | inr (b, e) ↦ inr (
            rw (z, e)
              (
                refl,
                record {
                  bytes = b;
                  held = refl;
                  measured = omega (arith, malloc 0 b e);
                  fits = omega arith;
                  wide = v.wide;
                  bounded = omega arith;
                },
                refl,
              ))
      ]
