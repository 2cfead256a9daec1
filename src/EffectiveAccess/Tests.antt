-- ===== src/EffectiveAccess/Tests.antt =====
-- A file with the mode 0640 of user 1 and group 10, and the theorems at it.
use tlpi_exercises.Prelude.{◌≡◌, refl, Option, some, [], ◌∷◌, Bytes, codes, true}
use tlpi_exercises.EffectiveAccess.{
  Stat, Process, read_group, returned_minus_1, exit_success, effective_access, group_access,
  check_perm_group, main, parse_options,
}
use tlpi_exercises.EffectiveAccess.Rules.{
  permitted, answer_for, AgreesOn, effective_access-answer_for,
}

abbrev report : Stat
report = record { st_mode = 0o640; st_uid = 1; st_gid = 10 }

abbrev found : Bytes → Option Stat
found name = some report

abbrev colleague : Process
colleague = record { euid = 2; egid = 10; groups = 10 ∷ 20 ∷ [] }

abbrev supplementary : Process
supplementary = record { euid = 2; egid = 20; groups = 10 ∷ 20 ∷ [] }

read_allowed : main found colleague (codes "-r" ∷ codes "report" ∷ []) ≡ exit_success
unfolding main effective_access check_perm_group group_access parse_options
read_allowed = refl

-- The kernel lets a process read a file of one of its groups; the check does not.
supplementary_refused :
    (effective_access found supplementary (codes "report") 2 ≡ returned_minus_1)
    × (permitted supplementary read_group report ≡ true)
unfolding effective_access check_perm_group group_access permitted
supplementary_refused = (refl, refl)

agrees : AgreesOn colleague (some report)
unfolding group_access
agrees = refl

effective_access-answer_for_example :
    effective_access found colleague (codes "report") 6 ≡ answer_for colleague 6 (some report)
effective_access-answer_for_example =
    effective_access-answer_for found colleague (codes "report") 6 agrees
