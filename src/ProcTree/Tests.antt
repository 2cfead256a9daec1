-- ===== src/ProcTree/Tests.antt =====
-- Four processes, and the theorem at them.
use tlpi_exercises.Prelude.{
  ℕ, ◌+◌, ◌≡◌, refl, true, false, some, List, [], ◌∷◌, Bytes, codes, strcmp, ◌==◌, arith,
}
use tlpi_exercises.ProcTree.{
  ProcessInfo, name, text, State, ran, same, pid_at, has_children, find_child, init_process, main,
  header_first_single, header_first_multi, header_last,
}
use tlpi_exercises.ProcTree.Marks.{bit, taken_at}
use tlpi_exercises.ProcTree.Printing.{printed}
use tlpi_exercises.ProcTree.Hierarchy.{main-prints}
use tlpi_exercises.ProcTree.Closure.{ppid_at, main-closed}

abbrev process : Bytes → Bytes → ProcessInfo
process pid ppid = record { pid = pid; ppid = ppid; taken = false; parent = false }

abbrev procs : List ProcessInfo
procs =
    process (codes "1") (codes "0")
    ∷ process (codes "20") (codes "1")
    ∷ process (codes "30") (codes "1")
    ∷ process (codes "40") (codes "20")
    ∷ []

abbrev after : List ProcessInfo
after =
    process (codes "1") (codes "0")
    ∷ record (process (codes "20") (codes "1")) { taken = true; parent = true }
    ∷ record (process (codes "30") (codes "1")) { taken = true }
    ∷ record (process (codes "40") (codes "20")) { taken = true }
    ∷ []

-- 1-+-20---40
--   `-30
abbrev drawn : State
drawn = record {
  procs = after;
  levels = 0 ∷ [];
  out =
      name 0
      ∷ text header_first_multi
      ∷ name 1
      ∷ text header_first_single
      ∷ name 3
      ∷ text (codes "\n")
      ∷ text (codes " ")
      ∷ text header_last
      ∷ name 2
      ∷ text (codes "\n")
      ∷ [];
}

drawn_tree : main 5 procs ≡ ran drawn
unfolding main has_children find_child strcmp
drawn_tree = refl

root : init_process procs ≡ some 0
unfolding init_process strcmp
root = refl

main-prints_example :
    (s : State) × (main 5 procs ≡ ran s)
    × ((i : ℕ) → printed i s.out + taken_at i procs ≡ bit (i == 0) + taken_at i s.procs)
main-prints_example = main-prints 5 procs 0 root (omega arith)

child_of_root : same (ppid_at 2 drawn.procs) (pid_at 0 drawn.procs) ≡ true
unfolding strcmp
child_of_root = refl

main-closed_example : printed 2 drawn.out + taken_at 2 procs ≡ bit (2 == 0) + 1
main-closed_example =
    main-closed 5 procs 0 drawn root (omega arith) drawn_tree 2 0 (omega arith) (omega arith)
      child_of_root
