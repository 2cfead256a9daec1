-- ===== src/DynArray.antt =====
-- The growable array of lib/dynamic_array.c and lib/dynamic_array.h.
--
-- The block that `data` points to is the list of its bytes, and `none` is `NULL`. A `size_t` is a
-- number below 2 ^ 64, with the wrap-around of `*` written out. A pointer into the block is its
-- offset in bytes. `malloc` and `realloc` are arguments: what they are given for `n` bytes is
-- `fresh n`, the new block with whatever it holds, or `none`; of `realloc` the code relies on the
-- old bytes being kept as far as they fit, which `carry` says.
pub mod Chunks
pub mod Invariant
pub mod Elements
pub mod Reverse
pub mod Lifecycle
pub mod Tests
use tlpi_exercises.Prelude.{
  ℕ, zero, suc, ◌+◌, ◌-◌, ◌*◌, ◌%◌, ◌^◌, Bool, true, false, Option, none, some, List, [], ◌∷◌, ◌++◌,
  ltb, leb, ◌==◌, if◌then◌else◌, length, take, drop, replicate, Bytes, Outcome, done, fault, ◌>>=◌,
}
use mathlib.Core.Option

abbrev pub size_mod : ℕ
size_mod = 2 ^ 64

-- `size_t` multiplication
abbrev pub mul_size : ℕ → ℕ → ℕ
mul_size a b = (a * b) % size_mod

pub record DynArray : Type 0 where
  pub block : Option Bytes
  pub size : ℕ
  pub capacity : ℕ
  pub data_size : ℕ

-- The bytes of the old block, as far as they fit, then those of the new one.
abbrev pub carry : Bytes → Bytes → Bytes
carry old [] = []
carry [] (y ∷ ys) = y ∷ ys
carry (x ∷ xs) (y ∷ ys) = x ∷ carry xs ys

abbrev pub bytes_of : Option Bytes → Bytes
bytes_of none = []
bytes_of (some b) = b

abbrev pub is_none : Option Bytes → Bool
is_none none = true
is_none (some b) = false

-- `memcpy(block + off, v, length v)`
abbrev pub overwrite : Bytes → ℕ → Bytes → Bytes
overwrite b off v = take off b ++ (v ++ drop (off + length v) b)

-- The results of the functions that return an `int`.
pub data Code : Type 0 where
  returned_0 : Code
  returned_1 : Code
  returned_minus_1 : Code

unfoldable pub da_back : DynArray → ℕ
da_back arr = mul_size ((arr.size + size_mod - 1) % size_mod) arr.data_size

unfoldable pub da_get : DynArray → ℕ → ℕ
da_get arr index = mul_size index arr.data_size

unfoldable pub da_pop : DynArray → DynArray × Code
da_pop arr =
    if ltb arr.size 1
    then (arr, returned_minus_1)
    else (record arr { size = arr.size - 1 }, returned_1)

unfoldable pub da_detach : DynArray → DynArray × Option Bytes
da_detach arr = (record { block = none; size = 0; capacity = 0; data_size = 0 }, arr.block)

abbrev pub next_capacity : DynArray → ℕ
next_capacity arr = if arr.capacity == 0 then 1 else mul_size arr.capacity 2

-- The loop of `da_reverse`, which runs while `(int)i >= 0`; `none` is fuel that ran out.
unfoldable pub reverse_loop : ℕ → ℕ → ℕ → ℕ → Bytes → Bytes → Option Bytes
reverse_loop zero width i y old new = none
reverse_loop (suc f) width i y old new =
    let rest =
      reverse_loop f width ((i + size_mod - 1) % size_mod) (y + 1) old
        (overwrite new (mul_size y width) (take width (drop (mul_size i width) old))) in
    if ltb (i % 2 ^ 32) (2 ^ 31) then rest else some new

module _ (fresh : ℕ → Option Bytes) where
  abbrev pub realloc : Option Bytes → ℕ → Option Bytes
  realloc old n = Option.map (carry (bytes_of old)) (fresh n)

  unfoldable pub da_init : DynArray → ℕ → ℕ → DynArray × Code
  da_init arr size data_size =
      if data_size == 0
      then (arr, returned_minus_1)
      else let block = fresh (mul_size size data_size) in
        (
          record { block = block; size = size; capacity = size; data_size = data_size },
          if is_none block then returned_1 else returned_0,
        )

  unfoldable pub da_reserve : DynArray → ℕ → DynArray × Code
  da_reserve arr capacity =
      if leb capacity arr.capacity
      then (arr, returned_0)
      else (elim (realloc arr.block (mul_size capacity arr.data_size)) [
        | none ↦ (arr, returned_minus_1)
        | some temp ↦ (record arr { block = some temp; capacity = capacity }, returned_1)
      ])

  -- The array with room for one more element, or `none` where `realloc` fails.
  unfoldable pub grow : DynArray → Option DynArray
  grow arr =
      if leb arr.capacity arr.size
      then Option.map (λ temp. record arr { block = some temp; capacity = next_capacity arr })
          (realloc arr.block (mul_size (next_capacity arr) arr.data_size))
      else some arr

  -- A pointer to the new last element, as its offset.
  unfoldable pub da_push : DynArray → DynArray × Option ℕ
  da_push arr = elim (grow arr) [
    | none ↦ (arr, none)
    | some arr' ↦
        let pushed : DynArray = record arr' { size = (arr'.size + 1) % size_mod } in
        (pushed, some (da_get pushed ((pushed.size + size_mod - 1) % size_mod)))
  ]

  unfoldable pub da_clear : DynArray → DynArray × Code
  da_clear arr =
      let block = fresh (mul_size 0 arr.data_size) in
      (
        record arr { block = block; size = 0; capacity = 0 },
        if is_none block then returned_minus_1 else returned_0,
      )

  unfoldable pub da_reverse : DynArray → Option (DynArray × Code)
  unfolding reverse_loop
  da_reverse arr =
      if leb arr.size 0
      then some (arr, returned_minus_1)
      else (elim (fresh (mul_size arr.capacity arr.data_size)) [
        | none ↦ some (arr, returned_minus_1)
        | some new_block ↦
            Option.map (λ reversed. (record arr { block = some reversed }, returned_1))
              (reverse_loop (arr.size + 1) arr.data_size (arr.size - 1) 0 (bytes_of arr.block)
                new_block)
      ])
