-- ===== src/Environment/Removal.antt =====
-- What `unsetenv_clone` removes.
use tlpi_exercises.Prelude.{
  ℕ, zero, suc, inl, inr, ◌+◌, ◌<◌, ◌≡◌, refl, sym, ap, ◌∙◌, false, some, List, [], ◌∷◌, ◌++◌, map,
  Bytes, length, ◌==◌, if◌then◌else◌, arith, Bool-cases,
}
use tlpi_exercises.Environment.{
  name_size, equals_sign, same, copy_name, Search, found, absent, unterminated, next_index,
  find_name, move_down, Unset, unset, undefined, unset_loop, unsetenv_clone,
}

pub record Variable : Type 0 where
  pub name : Bytes
  pub value : Bytes

abbrev pub entry : Variable → Bytes
entry v = v.name ++ equals_sign ∷ v.value

-- The bytes before the `=` of an entry.
abbrev pub IsName : Bytes → Type 0
IsName [] = Unit
IsName (c ∷ cs) = ((c == equals_sign) ≡ false) × IsName cs

abbrev pub AreNamed : List Variable → Type 0
AreNamed [] = Unit
AreNamed (v ∷ vs) = (length v.name < name_size) × IsName v.name × AreNamed vs

abbrev pub without : Bytes → List Variable → List Variable
without name [] = []
without name (v ∷ vs) = if same v.name name then without name vs else v ∷ without name vs

copy_name-entry :
    (y : ℕ) (name value : Bytes)
    → y + length name < name_size
    → IsName name
    → copy_name y (name ++ equals_sign ∷ value) ≡ some name
unfolding copy_name
copy_name-entry y [] value h n = ground arith
copy_name-entry y (c ∷ cs) value h n =
    ground (arith, n.0, copy_name-entry (y + 1) cs value (omega arith) n.1)

-- The variables without the one at an index.
abbrev drop_at : ℕ → List Variable → List Variable
drop_at i [] = []
drop_at zero (v ∷ vs) = vs
drop_at (suc i) (v ∷ vs) = v ∷ drop_at i vs

move_down-zero : (e : Bytes) (es : List Bytes) → move_down 0 (e ∷ es) ≡ es
unfolding move_down
move_down-zero e [] = refl
move_down-zero e (next ∷ es) = ap (λ r. next ∷ r) (move_down-zero next es)

move_down-entries :
    (i : ℕ) (vs : List Variable) → move_down i (map entry vs) ≡ map entry (drop_at i vs)
unfolding move_down
move_down-entries i [] = refl
move_down-entries zero (v ∷ vs) = move_down-zero (entry v) (map entry vs)
move_down-entries (suc i) (v ∷ vs) = ap (λ r. entry v ∷ r) (move_down-entries i vs)

-- What the search for a name has to find.
abbrev Finds : Bytes → List Variable → Search → Type 0
Finds name vs (found i) =
    (suc (length (drop_at i vs)) ≡ length vs)
    × (without name (drop_at i vs) ≡ without name vs)
    × AreNamed (drop_at i vs)
Finds name vs absent = without name vs ≡ vs
Finds name vs unterminated = ⊥

Finds-next :
    (name : Bytes) (v : Variable) (vs : List Variable) (s : Search)
    → same v.name name ≡ false
    → AreNamed (v ∷ vs)
    → Finds name vs s
    → Finds name (v ∷ vs) (next_index s)
Finds-next name v vs (found i) other n h =
    (omega (arith, h.0), rw other (ap (λ r. v ∷ r) h.1), (n.0, n.1, h.2))
Finds-next name v vs absent other n h = rw other (ap (λ r. v ∷ r) h)
Finds-next name v vs unterminated other n h = absurd h

find_name-Finds :
    (name : Bytes) (vs : List Variable)
    → AreNamed vs
    → Finds name vs (find_name name (map entry vs))
unfolding find_name
find_name-Finds name [] n = refl
find_name-Finds name (v ∷ vs) n =
    let small : 0 + length v.name < name_size = omega (arith, n.0) in
    elim (Bool-cases (same v.name name)) [
      | inl is ↦
          rw (copy_name-entry 0 v.name v.value small n.1, is, find_name) (refl, rw is refl, n.2)
      | inr other ↦
          rw (copy_name-entry 0 v.name v.value small n.1, other, find_name)
            (Finds-next name v vs (find_name name (map entry vs)) other n
              (find_name-Finds name vs n.2))
    ]

unset_loop-removes :
    (fuel : ℕ) (name : Bytes) (vs : List Variable)
    → AreNamed vs
    → length vs < fuel
    → unset_loop fuel name (map entry vs) ≡ unset (some (map entry (without name vs)))
unfolding unset_loop
unset_loop-removes zero name vs n h = absurd (omega arith)
unset_loop-removes (suc fuel) name vs n h =
    by_search (find_name name (map entry vs)) (find_name-Finds name vs n)
      (λ ws m bound. unset_loop-removes fuel name ws m bound)
  where
    by_search :
        (s : Search)
        → Finds name vs s
        → ((ws : List Variable)
            → AreNamed ws
            → length ws < fuel
            → unset_loop fuel name (map entry ws) ≡ unset (some (map entry (without name ws))))
        → elim s as (λ _. Unset) [
          | found index ↦ unset_loop fuel name (move_down index (map entry vs))
          | absent ↦ unset (some (map entry vs))
          | unterminated ↦ undefined
        ]
          ≡ unset (some (map entry (without name vs)))
    by_search (found i) f rest =
        ap (unset_loop fuel name) (move_down-entries i vs)
        ∙ rest (drop_at i vs) f.2 (omega (arith, f.0))
        ∙ ap (λ ws. unset (some (map entry ws))) f.1
    by_search absent f rest = ap (λ ws. unset (some (map entry ws))) (sym f)
    by_search unterminated f rest = absurd f

-- If every entry of the environment is a name of fewer than 100 bytes, `=` and a value,
-- `unsetenv_clone` ends, with at most one round for each entry and one more, in bounds of its buffer.
-- It removes every entry with the name, duplicates included, and keeps the others in their order.
pub unsetenv_clone-removes :
    (fuel : ℕ) (name : Bytes) (vs : List Variable)
    → AreNamed vs
    → length vs < fuel
    → unsetenv_clone fuel name (some (map entry vs)) ≡ unset (some (map entry (without name vs)))
unfolding unsetenv_clone
unsetenv_clone-removes fuel name vs n h = unset_loop-removes fuel name vs n h
