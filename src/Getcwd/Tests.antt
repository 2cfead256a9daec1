-- ===== src/Getcwd/Tests.antt =====
-- A directory two levels below the root.
use tlpi_exercises.Prelude.{
  ℕ, ◌+◌, ◌-◌, ◌≡◌, refl, true, false, Option, none, some, List, [], ◌∷◌, Bytes, codes, strcmp,
  Bool, ◌==◌, if◌then◌else◌, ltb, leb, length, arith,
}
use tlpi_exercises.Getcwd.{
  path_max, Stat, Entry, erange, other, enametoolong, Answer, path, null, exited, scan, climb,
  reverse, write_components, put_path, write_path, imp_getcwd,
}
use tlpi_exercises.Getcwd.Climbing.{Chain, at_root, below, path_of, absolute, imp_getcwd-absolute}

-- Directories are numbers: 0 is the root, 1 is /home and 2 is /home/ann, on another device.
abbrev stat : ℕ → Option Stat
stat d = some record { ino = d + 2; dev = if d == 2 then 8 else 7 }

abbrev up : ℕ → Option ℕ
up d = some (d - 1)

abbrev entry : Bytes → ℕ → Entry
entry name d = record { d_name = name; entry_stat = stat d }

abbrev read_dir : ℕ → Option (List Entry × Bool × Bool)
read_dir d =
    if d == 0
    then some
        (entry (codes ".") 0 ∷ entry (codes "etc") 9 ∷ entry (codes "home") 1 ∷ [], false, true)
    else some
        (entry (codes "..") 0 ∷ entry (codes "ann") 2 ∷ entry (codes "bob") 5 ∷ [], false, true)

names : Chain stat up read_dir 0 2 (codes "ann" ∷ codes "home" ∷ [])
unfolding strcmp
names =
    below 2 1 (codes "ann") (codes "home" ∷ []) (entry (codes "..") 0 ∷ [])
      (entry (codes "bob") 5 ∷ []) false (record { ino = 4; dev = 8 }) refl refl refl refl refl
      (tt, tt) refl refl (omega arith)
      (below 1 0 (codes "home") [] (entry (codes ".") 0 ∷ entry (codes "etc") 9 ∷ []) [] false
        (record { ino = 3; dev = 7 }) refl refl refl refl refl (tt, (refl, tt)) refl refl
        (omega arith) (at_root 0 refl refl refl refl))

abbrev path_length : ℕ
path_length = length (path_of (codes "ann" ∷ codes "home" ∷ [])) + 1

abbrev home_ann : Bytes
home_ann = codes "/home/ann"

abbrev getcwd : ℕ → ℕ → Option Bytes
getcwd d size = if ltb size 10 then none else some home_ann

abbrev chdir : Bytes → Option ℕ
chdir name = some 2

imp_getcwd-absolute_example : imp_getcwd stat up read_dir 3 getcwd chdir 4097 2 ≡ (
    if ltb path_max path_length
    then null other 2
    else if ltb 4097 path_length
    then null erange 0
    else if leb path_max path_length
    then null enametoolong 0
    else (elim (chdir home_ann) as (λ _. Answer ℕ) [
      | none ↦ exited
      | some start ↦ path (absolute (codes "ann" ∷ codes "home" ∷ [])) start
    ]))
imp_getcwd-absolute_example =
    imp_getcwd-absolute stat up read_dir 3 getcwd chdir 4097 names (omega arith) (omega arith) refl

run : imp_getcwd stat up read_dir 3 getcwd chdir 4097 2 ≡ path (codes "/home/ann") 2
unfolding imp_getcwd climb scan write_path put_path reverse write_components strcmp
run = refl
