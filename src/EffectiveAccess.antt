-- ===== src/EffectiveAccess.antt =====
-- The check of permissions of 15_File_Attributes/effective_access.c.
--
-- What the process is (`geteuid`, `getegid`, `getgroups`) is a record, and `stat` is an argument,
-- with `none` for -1, which the code treats alike for every `errno`. `rv` counts the checks that
-- failed, the number whose negation the code's `rv` is.
pub mod Rules
pub mod Tests
use tlpi_exercises.Prelude.{
  ℕ, ◌+◌, Bool, true, false, not, Option, none, some, List, [], ◌∷◌, Bytes, ◌==◌, if◌then◌else◌,
  bit_and, bit_or, drop,
}

abbrev pub exist : ℕ
exist = 1

abbrev pub has_r : ℕ
has_r = 2

abbrev pub has_w : ℕ
has_w = 4

abbrev pub has_x : ℕ
has_x = 8

-- `struct stat`, what is read of it
pub record Stat : Type 0 where
  pub st_mode : ℕ
  pub st_uid : ℕ
  pub st_gid : ℕ

pub record Process : Type 0 where
  pub euid : ℕ
  pub egid : ℕ
  pub groups : List ℕ

-- The three bits of one permission.
pub record Group : Type 0 where
  pub user : ℕ
  pub group : ℕ
  pub other : ℕ

abbrev pub read_group : Group
read_group = record { user = 0o400; group = 0o040; other = 0o004 }

abbrev pub write_group : Group
write_group = record { user = 0o200; group = 0o020; other = 0o002 }

abbrev pub execute_group : Group
execute_group = record { user = 0o100; group = 0o010; other = 0o001 }

pub data Code : Type 0 where
  returned_0 : Code
  returned_1 : Code
  returned_minus_1 : Code

-- Whether `a & b` is not 0.
abbrev pub has : ℕ → ℕ → Bool
has a b = not (bit_and a b == 0)

unfoldable pub group_access : List ℕ → Stat → Bool
group_access [] sb = false
group_access (g ∷ groups) sb = if g == sb.st_gid then true else group_access groups sb

-- 1 for a check that failed.
unfoldable pub check_perm_group : Process → Group → Stat → ℕ
check_perm_group p perm_group sb =
    if p.euid == sb.st_uid
    then (if not (has sb.st_mode perm_group.user) then 1 else 0)
    else if (if p.egid == sb.st_gid then group_access p.groups sb else false)
    then (if not (has sb.st_mode perm_group.group) then 1 else 0)
    else (if not (has sb.st_mode perm_group.other) then 1 else 0)

-- `usageErr` ends the program.
pub data Exit : Type 0 where
  usage_err : Exit
  exit_failure : Exit
  exit_success : Exit

-- The letters behind the first of the option argument; `none` is `usageErr`.
unfoldable pub parse_options : ℕ → Bytes → Option ℕ
parse_options flags [] = some flags
parse_options flags (c ∷ cs) =
    let e = parse_options (bit_or flags exist) cs in
    let r = parse_options (bit_or flags has_r) cs in
    let w = parse_options (bit_or flags has_w) cs in
    let x = parse_options (bit_or flags has_x) cs in
    if c == b'e'
    then e
    else if c == b'r'
    then r
    else if c == b'w'
    then w
    else if c == b'x'
    then x
    else none

abbrev pub exit_for : Code → Exit
exit_for returned_0 = exit_success
exit_for returned_1 = exit_success
exit_for returned_minus_1 = exit_failure

module _ (stat : Bytes → Option Stat) (p : Process) where
  unfoldable pub effective_access : Bytes → ℕ → Code
  effective_access filename flags = if flags == 0 then returned_minus_1 else elim (stat filename) [
    | none ↦ returned_minus_1
    | some sb ↦
        if has flags exist
        then returned_1
        else let r = if has flags has_r then check_perm_group p read_group sb else 0 in
          let w = if has flags has_w then check_perm_group p write_group sb else 0 in
          let x = if has flags has_x then check_perm_group p execute_group sb else 0 in
          if not ((r + w + x) == 0) then returned_minus_1 else returned_0
  ]

  -- The arguments behind the program's name.
  unfoldable pub main : List Bytes → Exit
  main [] = usage_err
  main (filename ∷ []) = exit_for (effective_access filename (bit_or has_r (bit_or has_w has_x)))
  main (options ∷ filename ∷ []) = elim (parse_options 0 (drop 1 options)) [
    | none ↦ usage_err
    | some flags ↦ exit_for (effective_access filename flags)
  ]
  main (a ∷ b ∷ c ∷ args) = usage_err
