-- ===== src/Getcwd/Climbing.antt =====
-- What `imp_getcwd` answers in a directory whose ancestors can all be read.
use tlpi_exercises.Prelude.{
  ℕ, zero, suc, ◌+◌, ◌≤◌, ◌<◌, ◌≡◌, refl, sym, ap, ◌∙◌, Bool, true, false, Option, none, some, List,
  [], ◌∷◌, ◌++◌, Bytes, length, ltb, leb, if◌then◌else◌, arith, append_assoc, append-nil,
  length-append, le→leb, inl, inr, Bool-cases,
}
use tlpi_exercises.Getcwd.{
  path_max, name_max, slash, Stat, same_file, Entry, is_dot, Scan, found, stat_failed, scan, erange,
  other, enametoolong, top, path, null, exited, fault, write_components, reverse, climb, put_path,
  write_path, imp_getcwd,
}

-- An entry that is `.` or `..`, or that can be read and is another file.
abbrev pub IsOther : (dot : Bool) → Option Stat → Stat → Type 0
IsOther true entry_stat current = Unit
IsOther false none current = ⊥
IsOther false (some own) current = same_file own current ≡ false

abbrev pub AreOther : Stat → List Entry → Type 0
AreOther current [] = Unit
AreOther current (entry ∷ entries) =
    IsOther (is_dot entry.d_name) (entry.entry_stat) current × AreOther current entries

module _ {D : Type 0} (stat : D → Option Stat) (up : D → Option D)
    (read_dir : D → Option (List Entry × Bool × Bool)) where
  -- The names of a directory and of its ancestors, from it upwards; the root is last, and has none.
  pub data Chain (root : D) : D → List Bytes → Type 0 where
    at_root :
        (d : D) {current above : Stat}
        → stat d ≡ some current
        → up d ≡ some root
        → stat root ≡ some above
        → same_file current above ≡ true
        → Chain root d []
    below :
        (d parent : D) (name : Bytes) (names : List Bytes) (before after : List Entry)
        (broken : Bool) (own : Stat) {current above : Stat}
        → stat d ≡ some current
        → up d ≡ some parent
        → stat parent ≡ some above
        → same_file current above ≡ false
        → read_dir parent
          ≡ some (before ++ record { d_name = name; entry_stat = some own } ∷ after, broken, true)
        → AreOther current before
        → is_dot name ≡ false
        → same_file own current ≡ true
        → length name ≤ name_max
        → Chain root parent names
        → Chain root d (name ∷ names)

-- The path of such a directory.
abbrev pub path_of : List Bytes → Bytes
path_of [] = []
path_of (name ∷ names) = path_of names ++ slash ∷ name

abbrev pub absolute : List Bytes → Bytes
absolute [] = slash ∷ []
absolute (name ∷ names) = path_of (name ∷ names)

scan-other :
    (dot : Bool) (o : Option Stat) (current : Stat) (entry_name name : Bytes) (rest : Scan)
    → IsOther dot o current
    → rest ≡ found name
    → (if dot then rest else (elim o as (λ _. Scan) [
      | none ↦ stat_failed
      | some own ↦ if same_file own current then found entry_name else rest
    ]))
      ≡ found name
scan-other true o current entry_name name rest h r = r
scan-other false none current entry_name name rest h r = absurd h
scan-other false (some own) current entry_name name rest h r = rw h r

scan-found :
    (current own : Stat) (name : Bytes) (before after : List Entry)
    → AreOther current before
    → is_dot name ≡ false
    → same_file own current ≡ true
    → scan current (before ++ record { d_name = name; entry_stat = some own } ∷ after) ≡ found name
unfolding scan
scan-found current own name [] after a n e = rw (n, e) refl
scan-found current own name (entry ∷ before) after a n e =
    scan-other (is_dot entry.d_name) (entry.entry_stat) current entry.d_name name _ a.0
      (scan-found current own name before after a.1 n e)

-- The length that the loop has added up.
abbrev added : List Bytes → ℕ
added [] = 0
added (name ∷ names) = length name + 1 + added names

length-path_of : (names : List Bytes) → length (path_of names) ≡ added names
length-path_of [] = refl
length-path_of (name ∷ names) =
    omega (arith, length-append (path_of names) (slash ∷ name), length-path_of names)

write_components-cons :
    (x : Bytes) (ys : List Bytes) (m : Bytes)
    → write_components (x ∷ ys ++ m ∷ []) ≡ x ++ slash ∷ write_components (ys ++ m ∷ [])
unfolding write_components
write_components-cons x [] m = refl
write_components-cons x (y ∷ ys) m = refl

write_components-append :
    (xs : List Bytes) (m c : Bytes)
    → write_components ((xs ++ m ∷ []) ++ c ∷ []) ≡ write_components (xs ++ m ∷ []) ++ slash ∷ c
unfolding write_components
write_components-append [] m c = refl
write_components-append (x ∷ xs) m c =
    write_components-cons x (xs ++ m ∷ []) c
    ∙ ap (λ r. x ++ slash ∷ r) (write_components-append xs m c)
    ∙ sym (append_assoc x (slash ∷ write_components (xs ++ m ∷ [])) (slash ∷ c))
    ∙ ap (λ r. r ++ slash ∷ c) (sym (write_components-cons x xs m))

write_components-path_of :
    (name : Bytes) (names : List Bytes)
    → slash ∷ write_components (reverse (name ∷ names)) ≡ path_of (name ∷ names)
unfolding write_components reverse
write_components-path_of name [] = refl
write_components-path_of name (m ∷ ms) =
    ap (λ r. slash ∷ r) (write_components-append (reverse ms) m name)
    ∙ ap (λ r. r ++ slash ∷ name) (write_components-path_of m ms)

write_components-absolute :
    (names : List Bytes) → slash ∷ write_components (reverse names) ≡ absolute names
unfolding write_components reverse
write_components-absolute [] = refl
write_components-absolute (name ∷ names) = write_components-path_of name names

absolute-fits :
    (names : List Bytes) (size : ℕ)
    → 2 ≤ size
    → ltb size (length (path_of names) + 1) ≡ false
    → ltb size (length (absolute names) + 1) ≡ false
absolute-fits [] size two h = ground arith
absolute-fits (name ∷ names) size two h = h

put_path-absolute :
    {D : Type 0} (root : D) (names : List Bytes) (chdir : Option D) (size : ℕ)
    → 2 ≤ size
    → put_path chdir size root (length (path_of names) + 1) (absolute names) ≡ (
        if ltb size (length (path_of names) + 1)
        then null erange root
        else if leb path_max (length (path_of names) + 1)
        then null enametoolong root
        else (elim chdir [ none ↦ exited | some start ↦ path (absolute names) start ]))
unfolding put_path
put_path-absolute root names chdir size two =
    elim (Bool-cases (ltb size (length (path_of names) + 1))) [
      | inl short ↦ rw short refl
      | inr enough ↦ rw (enough, absolute-fits names size two enough) refl
    ]

module _ {D : Type 0} (stat : D → Option Stat) (up : D → Option D)
    (read_dir : D → Option (List Entry × Bool × Bool)) where
  climb-top :
      (fuel : ℕ) {root d : D} {names : List Bytes} (cs : List Bytes) (k : ℕ)
      → Chain stat up read_dir root d names
      → length names < fuel
      → climb stat up read_dir fuel d cs k ≡ top root (cs ++ names) (k + added names)
  unfolding climb
  climb-top zero cs k c h = absurd (omega arith)
  climb-top (suc fuel) {root} cs k (at_root d here above_it there last) h =
      rw (here, above_it, there, last, climb)
        (ap (λ x. top root x k) (sym (append-nil cs)) ∙ ap (top root (cs ++ [])) (omega arith))
  climb-top (suc fuel) {root} cs k
        (below d parent name names before after broken own {current} here above_it there more listed
          others not_dot is short c)
        h =
      rw
        (
          here,
          above_it,
          there,
          more,
          listed,
          scan-found current own name before after others not_dot is,
          le→leb (length name) name_max short,
          climb,
        )
        (climb-top fuel (cs ++ name ∷ []) (k + (length name + 1)) c (omega arith)
          ∙ ap (λ x. top root x (k + (length name + 1) + added names))
              (append_assoc cs (name ∷ []) names)
          ∙ ap (top root (cs ++ name ∷ names)) (omega arith))

  -- What `getcwd` gives for a buffer of PATH_MAX bytes.
  abbrev pub library_path : List Bytes → Option Bytes
  library_path names =
      if ltb path_max (length (absolute names) + 1) then none else some (absolute names)

  -- In a directory from which `..` leads up to the root, each directory on the way listing the one
  -- below by a name of at most 255 bytes, and before it no entry that `stat` cannot read or that is the
  -- same file, where `closedir` succeeds, with more rounds than names and at least 2 bytes; where the C
  -- library's `getcwd` gives the names from the root on, each behind a slash (or the slash alone at the
  -- root), if that path with its null fits into PATH_MAX bytes, and otherwise fails: if `getcwd` fails,
  -- `imp_getcwd` does, and has not left the directory. Else, if the path with its null does not fit into
  -- `size` bytes, it fails with `ERANGE`; else, if it has PATH_MAX bytes, with `ENAMETOOLONG`; either
  -- leaves the process in the root directory. Otherwise, where `chdir` to the path succeeds, the result
  -- is that path, with the directory that `chdir` leads to. There is no write out of bounds.
  pub imp_getcwd-absolute :
      (fuel : ℕ) {root d : D} {names : List Bytes} (getcwd : D → ℕ → Option Bytes)
      (chdir : Bytes → Option D) (size : ℕ)
      → Chain stat up read_dir root d names
      → length names < fuel
      → 2 ≤ size
      → getcwd d path_max ≡ library_path names
      → imp_getcwd stat up read_dir fuel getcwd chdir size d ≡ (
          if ltb path_max (length (absolute names) + 1)
          then null other d
          else if ltb size (length (path_of names) + 1)
          then null erange root
          else if leb path_max (length (path_of names) + 1)
          then null enametoolong root
          else (elim (chdir (absolute names)) [
            | none ↦ exited
            | some start ↦ path (absolute names) start
          ]))
  unfolding imp_getcwd write_path
  imp_getcwd-absolute fuel {root} {d} {names} getcwd chdir size c h two given =
      let counted : 1 + added names ≡ length (path_of names) + 1 =
        omega (arith, length-path_of names) in
      let ends : climb stat up read_dir fuel d [] 1 ≡ top root names (length (path_of names) + 1) =
        climb-top fuel [] 1 c h ∙ ap (top root names) counted in
      elim (Bool-cases (ltb path_max (length (absolute names) + 1))) [
        | inl long ↦ rw (given, imp_getcwd, long) refl
        | inr fits ↦
            rw (given, imp_getcwd, fits, ends)
              (ap (put_path (chdir (absolute names)) size root (length (path_of names) + 1))
                  (write_components-absolute names)
                ∙ put_path-absolute root names (chdir (absolute names)) size two)
      ]

  -- At the root, a buffer of 1 byte is overrun.
  pub imp_getcwd_root :
      (fuel : ℕ) {root d : D} (getcwd : D → ℕ → Option Bytes) (chdir : Bytes → Option D)
      → Chain stat up read_dir root d []
      → 0 < fuel
      → getcwd d path_max ≡ some (slash ∷ [])
      → imp_getcwd stat up read_dir fuel getcwd chdir 1 d ≡ fault
  unfolding imp_getcwd write_path put_path reverse write_components
  imp_getcwd_root fuel getcwd chdir c h given = rw (given, imp_getcwd, climb-top fuel [] 1 c h) refl
