-- ===== src/Getcwd.antt =====
-- The path of the working directory: 18_Directories_And_Links/imp_getcwd.c.
--
-- A directory is a value of a type `D`; the working directory is the state. Arguments are `stat` of a
-- directory, `up` (what `chdir("..")` gives), `read_dir` (what `opendir` gives: the entries in the order
-- of `readdir`, with what `stat` of each answers, whether `readdir` ends in an error, and whether
-- `closedir` succeeds), the C library's `getcwd` (of a directory, for a buffer of a size) and `chdir` to
-- a path. The array of lib/dynamic_array.c is the list of its
-- strings, and gets the memory that it asks for. `fault` is undefined behaviour: a write behind a
-- component's or the caller's buffer.
pub mod Climbing
mod Tests
use tlpi_exercises.Prelude.{
  ℕ, zero, suc, ◌+◌, Bool, true, false, not, ◌&&◌, ◌||◌, Option, none, some, List, [], ◌∷◌, ◌++◌,
  Bytes, codes, strcmp, lt, eq, gt, length, ltb, leb, ◌==◌, if◌then◌else◌,
}

abbrev pub path_max : ℕ
path_max = 4096

abbrev pub name_max : ℕ
name_max = 255

abbrev pub slash : ℕ
slash = b'/'

-- `st_ino` and `st_dev`
pub record Stat : Type 0 where
  pub ino : ℕ
  pub dev : ℕ

abbrev pub same_file : Stat → Stat → Bool
same_file s t = s.ino == t.ino && s.dev == t.dev

pub record Entry : Type 0 where
  pub d_name : Bytes
  pub entry_stat : Option Stat

abbrev pub same : Bytes → Bytes → Bool
same s t = elim (strcmp s t) [ eq ↦ true | lt ↦ false | gt ↦ false ]

abbrev pub is_dot : Bytes → Bool
is_dot name = same name (codes ".") || same name (codes "..")

pub data Scan : Type 0 where
  found : Bytes → Scan
  stat_failed : Scan
  no_more : Scan

-- The loop over the entries of the parent.
unfoldable pub scan : Stat → List Entry → Scan
scan current [] = no_more
scan current (entry ∷ entries) =
    let rest = scan current entries in
    if is_dot entry.d_name then rest else (elim (entry.entry_stat) [
      | none ↦ stat_failed
      | some entry_sb ↦ if same_file entry_sb current then found entry.d_name else rest
    ])

pub data Errno : Type 0 where
  erange : Errno
  enametoolong : Errno
  other : Errno

-- Where the loop of `imp_getcwd` ends: at the root, with the components and `path_length`; by `return
-- NULL`, in this working directory; by `errExit`.
pub data Climb (D : Type 0) : Type 0 where
  top : D → List Bytes → ℕ → Climb D
  failed : D → Climb D
  died : Climb D
  overrun : Climb D
  out_of_fuel : Climb D

pub data Answer (D : Type 0) : Type 0 where
  path : Bytes → D → Answer D
  null : Errno → D → Answer D
  exited : Answer D
  fault : Answer D
  no_fuel : Answer D

-- The loop that writes the components, the last one first.
unfoldable pub write_components : List Bytes → Bytes
write_components [] = []
write_components (component ∷ []) = component
write_components (component ∷ next ∷ components) =
    component ++ slash ∷ write_components (next ∷ components)

unfoldable pub reverse : List Bytes → List Bytes
reverse [] = []
reverse (c ∷ cs) = reverse cs ++ c ∷ []

-- The tests of the size, and `cwdbuf` with the path in it.
unfoldable pub put_path :
    {D : Type 0} (chdir : Option D) (size : ℕ) (d : D) (path_length : ℕ) (cwdbuf : Bytes) → Answer D
put_path chdir size d path_length cwdbuf =
    if ltb size path_length
    then null erange d
    else if leb path_max path_length
    then null enametoolong d
    else if ltb size (length cwdbuf + 1)
    then fault
    else (elim chdir [ none ↦ exited | some start ↦ path cwdbuf start ])

-- What follows the loop; `chdir` goes back to the directory at the start.
unfoldable pub write_path : {D : Type 0} (chdir : Option D) (size : ℕ) → Climb D → Answer D
write_path chdir size (failed d) = null other d
write_path chdir size died = exited
write_path chdir size overrun = fault
write_path chdir size out_of_fuel = no_fuel
write_path chdir size (top d components path_length) =
    put_path chdir size d path_length (slash ∷ write_components (reverse components))

module _ {D : Type 0} (stat : D → Option Stat) (up : D → Option D)
    (read_dir : D → Option (List Entry × Bool × Bool)) where
  unfoldable pub climb : (fuel : ℕ) → D → List Bytes → ℕ → Climb D
  climb zero d components path_length = out_of_fuel
  climb (suc fuel) d components path_length = elim (stat d) [
    | none ↦ failed d
    | some current ↦ elim (up d) [
      | none ↦ failed d
      | some parent ↦ elim (stat parent) [
        | none ↦ failed parent
        | some above ↦ elim (same_file current above) [
          | true ↦ top parent components path_length
          | false ↦ elim (read_dir parent) [
            | none ↦ failed parent
            | some (entries, broken, closes) ↦ elim (scan current entries) [
              | found name ↦ elim (leb (length name) name_max) [
                | true ↦ elim closes [
                  | true ↦
                      climb fuel parent (components ++ name ∷ []) (path_length + (length name + 1))
                  | false ↦ died
                ]
                | false ↦ overrun
              ]
              | stat_failed ↦ failed parent
              | no_more ↦ elim (closes && not broken) [
                | false ↦ died
                | true ↦ climb fuel parent components path_length
              ]
            ]
          ]
        ]
      ]
    ]
  ]

  unfoldable pub imp_getcwd :
      (fuel : ℕ) (getcwd : D → ℕ → Option Bytes) (chdir : Bytes → Option D) (size : ℕ)
      → D
      → Answer D
  imp_getcwd fuel getcwd chdir size d = elim (getcwd d path_max) [
    | none ↦ null other d
    | some cwd ↦ write_path (chdir cwd) size (climb fuel d [] 1)
  ]
