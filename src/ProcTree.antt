-- ===== src/ProcTree.antt =====
-- The tree of all processes: 12_System_And_Process_Info/proc_tree_view.c.
--
-- The array of processes is a list, and a pointer to one of them is its index. The commands, which
-- are read and not printed, are left out, as is the reading of /proc: `main` begins with the names and
-- the parents' names that it read. `printf` of a process's id is the piece `name` with the index, of
-- another string the piece `text`. Allocations succeed. Undefined behaviour is `undefined`, and
-- `no_fuel` is fuel that ran out. An `int` is a number: spacings are far below 2 ^ 31.
pub mod Marks
pub mod Later
pub mod Printing
pub mod Hierarchy
pub mod Closure
pub mod Tests
use tlpi_exercises.Prelude.{
  ℕ, zero, suc, ◌+◌, ◌-◌, Bool, true, false, not, ◌&&◌, Option, none, some, List, [], ◌∷◌, ◌++◌,
  Bytes, codes, strcmp, lt, eq, gt, length, set, replicate, ltb, ◌==◌, if◌then◌else◌,
}

-- `struct ProcessInfo`
pub record ProcessInfo : Type 0 where
  pub pid : Bytes
  pub ppid : Bytes
  pub taken : Bool
  pub parent : Bool

pub data Piece : Type 0 where
  name : ℕ → Piece
  text : Bytes → Piece

-- The array, `indentLevels`, and what is printed.
pub record State : Type 0 where
  pub procs : List ProcessInfo
  pub levels : List ℕ
  pub out : List Piece

pub data Run : Type 0 where
  ran : State → Run
  undefined : Run
  no_fuel : Run

abbrev pub then_run : Run → (State → Run) → Run
then_run (ran s) f = f s
then_run undefined f = undefined
then_run no_fuel f = no_fuel

abbrev pub same : Bytes → Bytes → Bool
same s t = elim (strcmp s t) [ eq ↦ true | lt ↦ false | gt ↦ false ]

-- Elements of the array; behind its end, which is not reached, are empty ones.
abbrev pub pid_at : ℕ → List ProcessInfo → Bytes
pid_at i [] = []
pid_at zero (p ∷ ps) = p.pid
pid_at (suc i) (p ∷ ps) = pid_at i ps

abbrev pub parent_at : ℕ → List ProcessInfo → Bool
parent_at i [] = false
parent_at zero (p ∷ ps) = p.parent
parent_at (suc i) (p ∷ ps) = parent_at i ps

-- `child->parent = true`
abbrev pub mark_parent : ℕ → List ProcessInfo → List ProcessInfo
mark_parent i [] = []
mark_parent zero (p ∷ ps) = record p { parent = true } ∷ ps
mark_parent (suc i) (p ∷ ps) = p ∷ mark_parent i ps

unfoldable pub has_children : Bytes → List ProcessInfo → Bool
has_children pid [] = false
has_children pid (entry ∷ ps) =
    let rest = has_children pid ps in if same entry.ppid pid && not entry.taken then true else rest

abbrev pub behind : ProcessInfo → Option (ℕ × List ProcessInfo) → Option (ℕ × List ProcessInfo)
behind p none = none
behind p (some (i, ps)) = some (suc i, p ∷ ps)

-- The index of the child, and the array in which it is taken.
unfoldable pub find_child : Bytes → List ProcessInfo → Option (ℕ × List ProcessInfo)
find_child pid [] = none
find_child pid (entry ∷ ps) =
    let rest = behind entry (find_child pid ps) in
    if same entry.ppid pid && not entry.taken
    then some (0, record entry { taken = true } ∷ ps)
    else rest

abbrev pub get_spacing : ℕ → Bytes
get_spacing size = replicate size b' '

-- `childSpacing` with its bars; a bar at or behind the null is out of what the string may hold.
unfoldable pub draw_bars : List ℕ → Bytes → Option Bytes
draw_bars [] spacing = some spacing
draw_bars (level ∷ levels) spacing =
    if ltb 2 level
    then (if ltb (level - 2) (length spacing)
        then draw_bars levels (set spacing (level - 2) b'|')
        else none)
    else draw_bars levels spacing

-- The loop that collects the children, with the array that it leaves; `none` is fuel that ran out.
unfoldable pub collect : ℕ → Bytes → List ProcessInfo → List ℕ → Option (List ProcessInfo × List ℕ)
collect zero pid procs children = none
collect (suc fuel) pid procs children = elim (find_child pid procs) [
  | none ↦ some (procs, children)
  | some (i, procs') ↦
      collect fuel pid
        (if has_children (pid_at i procs') procs' then mark_parent i procs' else procs')
        (children ++ i ∷ [])
]

abbrev pub header_first_single : Bytes
header_first_single = codes "---"

abbrev pub header_first_multi : Bytes
header_first_multi = codes "-+-"

abbrev pub header_middle : Bytes
header_middle = codes " |-"

abbrev pub header_last : Bytes
header_last = codes " `-"

abbrev pub print : List Piece → State → State
print pieces s = record s { out = s.out ++ pieces }

-- The last element goes.
abbrev pub pop : List ℕ → List ℕ
pop [] = []
pop (x ∷ []) = []
pop (x ∷ y ∷ xs) = x ∷ pop (y ∷ xs)

-- What stands before a child that has no line of `printHierarchy`.
abbrev pub leaf_header : Bool → ℕ → ℕ → Bytes → List Piece
leaf_header true n i spacing = []
leaf_header false n i spacing =
    if i == 0
    then if ltb 1 n
      then text spacing ∷ text header_first_multi ∷ []
      else if n == 1
      then text spacing ∷ text header_first_single ∷ []
      else []
    else if not (n - 1 == i)
    then text spacing ∷ text header_middle ∷ []
    else text spacing ∷ text header_last ∷ []

-- The loop over the children, of which there are `n`, from the one with index `i` on; `hierarchy` is
-- the recursive call.
unfoldable pub print_children :
    (ℕ → Bool → Bool → State → Run) → Bytes → ℕ → ℕ → Bool → List ℕ → State → Run
print_children hierarchy spacing n i first [] s = ran s
print_children hierarchy spacing n i first (child ∷ children) s =
    then_run
      (if parent_at child s.procs
        then then_run
            (hierarchy child first (i == n - 1)
              (print (if not first then text spacing ∷ [] else []) s))
            (λ s'. ran (if ltb 1 n then record s' { levels = pop s'.levels } else s'))
        else ran (print (leaf_header first n i spacing ++ (name child ∷ text (codes "\n") ∷ [])) s))
      (print_children hierarchy spacing n (i + 1) false children)

-- What is printed before the children.
abbrev pub parent_pieces : Bool → Bool → ℕ → ℕ → List Piece
parent_pieces first_child last_child parent n =
    (if not first_child
      then (if last_child then text header_last ∷ [] else text header_middle ∷ [])
      else [])
    ++ (name parent ∷ text (if ltb 1 n then header_first_multi else header_first_single) ∷ [])

unfoldable pub print_hierarchy : ℕ → ℕ → ℕ → Bool → Bool → Bool → State → Run
unfolding draw_bars collect print_children
print_hierarchy zero parent init_spacing first_child last_child multi_child s = no_fuel
print_hierarchy (suc fuel) parent init_spacing first_child last_child multi_child s =
    let levels = if multi_child then s.levels ++ init_spacing ∷ [] else s.levels in
    let pid = pid_at parent s.procs in
    let child_length = init_spacing + 3 + length pid in
    elim (draw_bars levels (get_spacing (child_length - 3))) [
      | none ↦ undefined
      | some spacing ↦ elim (collect (suc fuel) pid s.procs []) [
        | none ↦ no_fuel
        | some (procs, children) ↦
            let n = length children in
            print_children
              (λ child first last. print_hierarchy fuel child child_length first last (ltb 1 n))
              spacing n 0 true children
              (record {
                procs = procs;
                levels = levels;
                out = s.out ++ parent_pieces first_child last_child parent n;
              })
      ]
    ]

-- The last process with the id 1; where there is none, the pointer is not initialised.
unfoldable pub init_process : List ProcessInfo → Option ℕ
init_process [] = none
init_process (element ∷ ps) = elim (init_process ps) [
  | some i ↦ some (suc i)
  | none ↦ if same element.pid (codes "1") then some 0 else none
]

-- `procs` is the array after the loop over /proc, which sets neither `taken` nor `parent`.
unfoldable pub main : ℕ → List ProcessInfo → Run
unfolding init_process print_hierarchy
main fuel procs = elim (init_process procs) [
  | none ↦ undefined
  | some init ↦
      print_hierarchy fuel init 0 true true true (record { procs = procs; levels = []; out = [] })
]
