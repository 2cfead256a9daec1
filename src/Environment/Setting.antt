-- ===== src/Environment/Setting.antt =====
-- The block that `setenv_clone` allocates has no room for the null of the value.
use tlpi_exercises.Prelude.{
  ℕ, ◌+◌, ◌≡◌, refl, ap, Bool, true, false, Option, none, some, [], Bytes, codes, length,
  if◌then◌else◌, arith, Outcome, done, fault, ◌>>=◌,
}
use tlpi_exercises.Environment.{strcpy_to, build_entry, setenv_clone}

strcpy_to-fault :
    (size offset : ℕ) (block source : Bytes)
    → size ≡ offset + length source
    → strcpy_to size offset block source ≡ fault
strcpy_to-fault size offset block source h = ground arith

then-fault :
    (m : Outcome Bytes) (f : Bytes → Outcome Bytes)
    → ((buf : Bytes) → f buf ≡ fault)
    → (m >>= f) ≡ fault
then-fault fault f h = refl
then-fault (done buf) f h = h buf

build_entry-fault :
    (allocated : Bool) (name value : Bytes) → build_entry allocated name value ≡ fault
unfolding build_entry
build_entry-fault false name value = refl
build_entry-fault true name value =
    let size : ℕ = length name + length value + 1 in
    then-fault (strcpy_to size 0 [] name) _ (λ buf.
      then-fault (strcpy_to size (length name) buf (codes "=")) _
        (λ buf'. strcpy_to-fault size (length name + 1) buf' value (omega arith)))

-- Where `setenv_clone` is to set a variable, since it does not exist or `overwrite` is given, it always
-- writes behind its block or through a null pointer, whatever the name and the value; a variable that
-- exists is left as it is without `overwrite`.
pub setenv_clone-fault :
    {E : Type 0} (getenv : E → Bytes → Option Bytes) (malloc : ℕ → Bool) (putenv : E → Bytes → E)
    (name value : Bytes) (overwrite : Bool) (environ : E)
    → setenv_clone getenv malloc putenv name value overwrite environ ≡ elim (getenv environ name) [
      | none ↦ fault
      | some existing ↦ if overwrite then fault else done environ
    ]
unfolding setenv_clone
setenv_clone-fault {E = E} getenv malloc putenv name value overwrite environ =
    ap
      (λ entry. elim (getenv environ name) as (λ _. Outcome E) [
        | none ↦ entry >>= λ buf. done (putenv environ buf)
        | some existing ↦
            if overwrite then (entry >>= λ buf. done (putenv environ buf)) else done environ
      ])
      (build_entry-fault (malloc (length name + length value + 1)) name value)
