-- ===== src/EffectiveAccess/Rules.antt =====
-- The rules of the kernel for a process without privileges, and the checks against them.
use tlpi_exercises.Prelude.{
  ℕ, ◌+◌, ◌≡◌, refl, ap, ◌∙◌, Bool, true, false, not, ◌&&◌, ◌||◌, Option, none, some, [], ◌∷◌,
  Bytes, ◌==◌, if◌then◌else◌, arith, Bool-cases, inl, inr,
}
use tlpi_exercises.EffectiveAccess.{
  exist, has_r, has_w, has_x, Stat, Process, Group, read_group, write_group, execute_group, Code,
  returned_0, returned_1, returned_minus_1, has, exit_for, exit_success, exit_failure, main,
  group_access, check_perm_group, effective_access,
}

-- The class of a file's owner, group or others that a process belongs to decides.
unfoldable pub permitted : Process → Group → Stat → Bool
permitted p perm_group sb =
    if p.euid == sb.st_uid
    then has sb.st_mode perm_group.user
    else if (p.egid == sb.st_gid) || group_access p.groups sb
    then has sb.st_mode perm_group.group
    else has sb.st_mode perm_group.other

-- Every permission that is asked for.
abbrev pub all_permitted : Process → ℕ → Stat → Bool
all_permitted p flags sb =
    (not (has flags has_r) || permitted p read_group sb)
    && ((not (has flags has_w) || permitted p write_group sb)
        && (not (has flags has_x) || permitted p execute_group sb))

-- What is returned for a file that exists.
abbrev pub answer : Process → ℕ → Stat → Code
answer p flags sb =
    if has flags exist
    then returned_1
    else (if all_permitted p flags sb then returned_0 else returned_minus_1)

abbrev pub answer_for : Process → ℕ → Option Stat → Code
answer_for p flags none = returned_minus_1
answer_for p flags (some sb) = if flags == 0 then returned_minus_1 else answer p flags sb

-- The effective group of the process is the file's group exactly where one of its groups is.
abbrev pub AgreesOn : Process → Option Stat → Type 0
AgreesOn p none = Unit
AgreesOn p (some sb) = (p.egid == sb.st_gid) ≡ group_access p.groups sb

check-permitted :
    (p : Process) (g : Group) (sb : Stat)
    → (p.egid == sb.st_gid) ≡ group_access p.groups sb
    → check_perm_group p g sb ≡ (if permitted p g sb then 0 else 1)
unfolding check_perm_group permitted
check-permitted p g sb h =
    by_class (p.euid == sb.st_uid) (p.egid == sb.st_gid) (group_access p.groups sb)
      (has sb.st_mode g.user) (has sb.st_mode g.group) (has sb.st_mode g.other) h
  where
    by_class :
        (u e m a b c : Bool)
        → e ≡ m
        → ◌≡◌ {A = ℕ}
            (if u
              then (if not a then 1 else 0)
              else if (if e then m else false)
              then (if not b then 1 else 0)
              else (if not c then 1 else 0))
            (if (if u then a else if e || m then b else c) then 0 else 1)
    by_class true e m true b c h = refl
    by_class true e m false b c h = refl
    by_class false true m a true c h = rw (← h) refl
    by_class false true m a false c h = rw (← h) refl
    by_class false false m a b true h = rw (← h) refl
    by_class false false m a b false h = rw (← h) refl

-- A failed check that is asked for, as a count.
count-bools :
    (fr fw fx pr pw px : Bool)
    → (if not (
          ((if fr then (if pr then 0 else 1) else 0)
            + (if fw then (if pw then 0 else 1) else 0)
            + (if fx then (if px then 0 else 1) else 0))
          == 0)
        then returned_minus_1
        else returned_0)
      ≡ (if (not fr || pr) && ((not fw || pw) && (not fx || px))
          then returned_0
          else returned_minus_1)
count-bools fr fw fx pr pw px = ground arith

-- If the effective group of the process is the file's group exactly where one of its groups
-- is, then `effective_access` returns -1 without flags and for a file that `stat` does not find,
-- 1 where existence is asked for, whatever else is, and otherwise 0 or -1 as the rules for a process
-- without privileges, by the class that it belongs to, permit or not
-- everything that is asked for.
pub effective_access-answer_for :
    (stat : Bytes → Option Stat) (p : Process) (filename : Bytes) (flags : ℕ)
    → AgreesOn p (stat filename)
    → effective_access stat p filename flags ≡ answer_for p flags (stat filename)
unfolding effective_access
effective_access-answer_for stat p filename flags h = of_stat (stat filename) h
  where
    of_stat :
        (o : Option Stat)
        → AgreesOn p o
        → effective_access (λ name. o) p filename flags ≡ answer_for p flags o
    of_stat none h = elim (Bool-cases (flags == 0)) [ inl e ↦ rw e refl | inr e ↦ rw e refl ]
    of_stat (some sb) h =
        let r = check-permitted p read_group sb h in
        let w = check-permitted p write_group sb h in
        let x = check-permitted p execute_group sb h in
        rw
          (
            r,
            w,
            x,
            count-bools (has flags has_r) (has flags has_w) (has flags has_x)
                (permitted p read_group sb) (permitted p write_group sb)
                (permitted p execute_group sb),
          )
          refl

-- Under the same condition on the groups, `main` with a file and no options succeeds exactly where
-- the file exists and the rules for a process without privileges permit reading, writing and executing it.
pub main-permitted :
    (stat : Bytes → Option Stat) (p : Process) (filename : Bytes)
    → AgreesOn p (stat filename)
    → main stat p (filename ∷ []) ≡ elim (stat filename) [
      | none ↦ exit_failure
      | some sb ↦
          if permitted p read_group sb
            && (permitted p write_group sb && permitted p execute_group sb)
          then exit_success
          else exit_failure
    ]
unfolding main
main-permitted stat p filename h =
    ap exit_for (effective_access-answer_for stat p filename 14 h) ∙ of_stat (stat filename)
  where
    of_stat :
        (o : Option Stat)
        → exit_for (answer_for p 14 o) ≡ elim o [
          | none ↦ exit_failure
          | some sb ↦
              if permitted p read_group sb
                && (permitted p write_group sb && permitted p execute_group sb)
              then exit_success
              else exit_failure
        ]
    of_stat none = refl
    of_stat (some sb) = ground arith
