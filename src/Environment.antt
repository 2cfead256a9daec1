-- ===== src/Environment.antt =====
-- `setenv` and `unsetenv` of 06_Processes/setenv_unsetenv_imp.c.
--
-- `environ` is a null pointer or the list of its entries, strings without the null. `getenv`, `putenv`
-- and whether `malloc` of so many bytes succeeds are arguments. Undefined behaviour is `undefined` in
-- `unsetenv_clone` and `fault` in `setenv_clone`: a write behind a block, or the use of a name whose
-- null was never written.
pub mod Setting
pub mod Removal
mod Tests
use tlpi_exercises.Prelude.{
  ℕ, zero, suc, ◌+◌, Bool, true, false, Option, none, some, List, [], ◌∷◌, ◌++◌, Bytes, codes,
  strcmp, lt, eq, gt, length, take, ltb, leb, ◌==◌, if◌then◌else◌, Outcome, done, fault, ◌>>=◌,
}

abbrev pub name_size : ℕ
name_size = 100

abbrev pub equals_sign : ℕ
equals_sign = b'='

abbrev pub same : Bytes → Bytes → Bool
same s t = elim (strcmp s t) [ eq ↦ true | lt ↦ false | gt ↦ false ]

-- `strcpy` to an offset of a block of `size` bytes; the null takes a byte, too.
abbrev pub strcpy_to : (size offset : ℕ) (block source : Bytes) → Outcome Bytes
strcpy_to size offset block source =
    if ltb size (offset + length source + 1) then fault else done (take offset block ++ source)

-- The part of `setenv_clone` that builds the entry; the result of `malloc` is used without a test.
unfoldable pub build_entry : (allocated : Bool) (name value : Bytes) → Outcome Bytes
build_entry false name value = fault
build_entry true name value =
    let size : ℕ = length name + length value + 1 in
    strcpy_to size 0 [] name >>= λ buf. strcpy_to size (length name) buf (codes "=") >>= λ buf'.
    strcpy_to size (length name + 1) buf' value

-- `setenv_clone` on an environment `E`.
unfoldable pub setenv_clone :
    {E : Type 0} (getenv : E → Bytes → Option Bytes) (malloc : ℕ → Bool) (putenv : E → Bytes → E)
    (name value : Bytes) (overwrite : Bool) (environ : E)
    → Outcome E
setenv_clone {E = E} getenv malloc putenv name value overwrite environ =
    let set : Outcome E =
      build_entry (malloc (length name + length value + 1)) name value >>= λ buf.
      done (putenv environ buf) in
    elim (getenv environ name) [
      | none ↦ set
      | some existing_name ↦ if overwrite then set else done environ
    ]

-- The loop that copies the name of an entry from its byte `y` on; `none` is undefined behaviour: the
-- name gets no null, or a byte is written behind `buf`.
unfoldable pub copy_name : (y : ℕ) → Bytes → Option Bytes
copy_name y [] = none
copy_name y (c ∷ cs) =
    let rest = copy_name (y + 1) cs in
    if leb name_size y
    then none
    else if c == equals_sign
    then some []
    else elim rest [ none ↦ none | some buf ↦ some (c ∷ buf) ]

pub data Search : Type 0 where
  found : ℕ → Search
  absent : Search
  unterminated : Search

abbrev pub next_index : Search → Search
next_index (found index) = found (suc index)
next_index absent = absent
next_index unterminated = unterminated

unfoldable pub find_name : Bytes → List Bytes → Search
find_name name [] = absent
find_name name (entry ∷ entries) =
    let rest = find_name name entries in
    elim (copy_name 0 entry) [
      | none ↦ unterminated
      | some buf ↦ if same buf name then found 0 else next_index rest
    ]

-- The loop that moves the entries behind `index` down by one.
unfoldable pub move_down : (index : ℕ) → List Bytes → List Bytes
move_down index [] = []
move_down zero (entry ∷ []) = []
move_down zero (entry ∷ next ∷ entries) = next ∷ move_down zero (next ∷ entries)
move_down (suc index) (entry ∷ entries) = entry ∷ move_down index entries

pub data Unset : Type 0 where
  unset : Option (List Bytes) → Unset
  undefined : Unset
  no_fuel : Unset

unfoldable pub unset_loop : (fuel : ℕ) (name : Bytes) → List Bytes → Unset
unset_loop zero name entries = no_fuel
unset_loop (suc fuel) name entries = elim (find_name name entries) [
  | found index ↦ unset_loop fuel name (move_down index entries)
  | absent ↦ unset (some entries)
  | unterminated ↦ undefined
]

unfoldable pub unsetenv_clone : (fuel : ℕ) (name : Bytes) → Option (List Bytes) → Unset
unsetenv_clone fuel name none = unset none
unsetenv_clone fuel name (some environ) = unset_loop fuel name environ
