-- ===== src/Environment/Tests.antt =====
-- The environment of the source's `main`, and the theorem at it.
use tlpi_exercises.Prelude.{◌≡◌, refl, some, List, [], ◌∷◌, map, codes, strcmp, arith}
use tlpi_exercises.Environment.{unset, unsetenv_clone}
use tlpi_exercises.Environment.Removal.{Variable, entry, without, unsetenv_clone-removes}

abbrev variables : List Variable
variables =
    record { name = codes "test"; value = codes "variable" }
    ∷ record { name = codes "middle"; value = codes "variable" }
    ∷ record { name = codes "test"; value = codes "varaible" }
    ∷ []

unsetenv_clone-removes_example :
    unsetenv_clone 4 (codes "test") (some (map entry variables))
    ≡ unset (some (map entry (without (codes "test") variables)))
unsetenv_clone-removes_example =
    unsetenv_clone-removes 4 (codes "test") variables
      (
        omega arith,
        (refl, (refl, (refl, (refl, tt)))),
        (
          omega arith,
          (refl, (refl, (refl, (refl, (refl, (refl, tt)))))),
          (omega arith, (refl, (refl, (refl, (refl, tt)))), tt),
        ),
      )
      (omega arith)

left : map entry (without (codes "test") variables) ≡ codes "middle=variable" ∷ []
unfolding strcmp
left = refl
