-- ===== src/ProcTree/Closure.antt =====
-- `printHierarchy` leaves no descendant out.
use mathlib.Core.Path.{subst}
use tlpi_exercises.Prelude.{
  ℕ, zero, suc, ◌+◌, ◌-◌, ◌<◌, ◌≡◌, refl, sym, ap, ◌∙◌, inl, inr, Bool, true, false, not, some,
  List, [], ◌∷◌, ◌++◌, Bytes, codes, ltb, ◌==◌, if◌then◌else◌, length, arith, Bool-cases,
  Option-cases,
}
use tlpi_exercises.ProcTree.{
  ProcessInfo, Piece, name, text, State, Run, ran, undefined, no_fuel, then_run, same, pid_at,
  parent_at, has_children, get_spacing, draw_bars, collect, print, pop, leaf_header, print_children,
  parent_pieces, print_hierarchy, init_process, main,
}
use tlpi_exercises.ProcTree.Marks.{bit, taken_at, times, times-append, Took}
use tlpi_exercises.ProcTree.Printing.{printed}
use tlpi_exercises.ProcTree.Hierarchy.{main-prints}
use tlpi_exercises.ProcTree.Later.{
  Later, Later-refl, Later-trans, pid_at-Later, has_children-Later, AreSettled, IsSettled,
  IsSettled-Later, collect-Collected,
}

-- A run that is to print `js`: afterwards none of these, and none that the run took, has a child that
-- is not taken.
record Closes (s s' : State) (js : List ℕ) : Type 0 where
  later : Later s.procs s'.procs
  closed :
      (j : ℕ)
      → taken_at j s.procs < times j js + taken_at j s'.procs
      → has_children (pid_at j s'.procs) s'.procs ≡ false

abbrev RunCloses : Run → State → List ℕ → Type 0
RunCloses (ran s') s js = Closes s s' js
RunCloses undefined s js = Unit
RunCloses no_fuel s js = Unit

AreSettled-Later :
    (ps qs : List ProcessInfo) (js : List ℕ) → Later ps qs → AreSettled ps js → AreSettled qs js
AreSettled-Later ps qs [] l h = tt
AreSettled-Later ps qs (j ∷ js) l h =
    (IsSettled-Later ps qs j l h.0, AreSettled-Later ps qs js l h.1)

closed-Later :
    (ps qs : List ProcessInfo) (j : ℕ)
    → Later ps qs
    → has_children (pid_at j ps) ps ≡ false
    → has_children (pid_at j qs) qs ≡ false
closed-Later ps qs j l h = rw (pid_at-Later j ps qs l) (has_children-Later (pid_at j ps) ps qs l h)

Closes-trans :
    (s s' s'' : State) (js ks : List ℕ)
    → Closes s s' js
    → Closes s' s'' ks
    → Closes s s'' (js ++ ks)
Closes-trans s s' s'' js ks c d = record {
  later = Later-trans s.procs s'.procs s''.procs c.later d.later;
  closed = λ j h. elim (Bool-cases (ltb (taken_at j s.procs) (times j js + taken_at j s'.procs))) [
    | inl before ↦ closed-Later s'.procs s''.procs j d.later (c.closed j (ground arith))
    | inr after ↦ d.closed j (ground (arith, times-append j js ks))
  ];
}

RunCloses-then :
    (s : State) (js ks : List ℕ) (r : Run) (f : State → Run)
    → RunCloses r s js
    → ((s' : State) → Later s.procs s'.procs → RunCloses (f s') s' ks)
    → RunCloses (then_run r f) s (js ++ ks)
RunCloses-then s js ks undefined f c rest = tt
RunCloses-then s js ks no_fuel f c rest = tt
RunCloses-then s js ks (ran s') f c rest = second (f s') (rest s' c.later)
  where
    second : (r : Run) → RunCloses r s' ks → RunCloses r s (js ++ ks)
    second (ran s'') d = Closes-trans s s' s'' js ks c d
    second undefined d = tt
    second no_fuel d = tt

RunCloses-pop :
    (r : Run) (s : State) (multi : Bool) (js : List ℕ)
    → RunCloses r s js
    → RunCloses
        (then_run r (λ s'. ran (if multi then record s' { levels = pop s'.levels } else s')))
        s
        js
RunCloses-pop (ran s') s true js c = record { later = c.later; closed = c.closed }
RunCloses-pop (ran s') s false js c = c
RunCloses-pop undefined s multi js c = tt
RunCloses-pop no_fuel s multi js c = tt

RunCloses-print :
    (r : Run) (s : State) (pieces : List Piece) (js : List ℕ)
    → RunCloses r (print pieces s) js
    → RunCloses r s js
RunCloses-print (ran s') s pieces js c = record { later = c.later; closed = c.closed }
RunCloses-print undefined s pieces js c = tt
RunCloses-print no_fuel s pieces js c = tt

-- A settled child that is no parent is a leaf.
Closes-leaf :
    (s : State) (pieces : List Piece) (child : ℕ)
    → parent_at child s.procs ≡ false
    → IsSettled s.procs child
    → Closes s (print pieces s) (child ∷ [])
Closes-leaf s pieces child no_parent settled = record {
  later = Later-refl s.procs;
  closed = λ j h. let here : j ≡ child = ground arith in rw here (leaf settled);
}
  where
    leaf : IsSettled s.procs child → has_children (pid_at child s.procs) s.procs ≡ false
    leaf (inl is_parent) = cc
    leaf (inr none_left) = none_left

module _ (hierarchy : ℕ → Bool → Bool → State → Run) (spacing : Bytes) (n : ℕ)
    (closes : (child : ℕ) (first last : Bool) (s : State)
      → RunCloses (hierarchy child first last s) s (child ∷ [])) where
  RunCloses-child :
      (i child : ℕ) (first : Bool) (s : State)
      → IsSettled s.procs child
      → (is_parent : Bool) → parent_at child s.procs ≡ is_parent
      → RunCloses
          (if is_parent
            then then_run
                (hierarchy child first
                  (i == n - 1)
                  (print (if not first then text spacing ∷ [] else []) s))
                (λ s'. ran (if ltb 1 n then record s' { levels = pop s'.levels } else s'))
            else ran
                (print (leaf_header first n i spacing ++ (name child ∷ text (codes "\n") ∷ [])) s))
          s
          (child ∷ [])
  RunCloses-child i child first s settled false e =
      Closes-leaf s (leaf_header first n i spacing ++ (name child ∷ text (codes "\n") ∷ [])) child e
        settled
  RunCloses-child i child first s settled true e =
      let pieces : List Piece = if not first then text spacing ∷ [] else [] in
      RunCloses-pop (hierarchy child first (i == n - 1) (print pieces s)) s (ltb 1 n) (child ∷ []) (
        RunCloses-print (hierarchy child first (i == n - 1) (print pieces s)) s pieces (child ∷ [])
          (closes child first (i == n - 1) (print pieces s)))

  print_children-RunCloses :
      (js : List ℕ) (i : ℕ) (first : Bool) (s : State)
      → AreSettled s.procs js
      → RunCloses (print_children hierarchy spacing n i first js s) s js
  unfolding print_children
  print_children-RunCloses [] i first s settled = record {
    later = Later-refl s.procs;
    closed = λ j h. absurd (omega arith);
  }
  print_children-RunCloses (child ∷ js) i first s settled =
      RunCloses-then s (child ∷ []) js _ _
        (RunCloses-child i child first s settled.0 (parent_at child s.procs) refl)
        (λ s' l.
          print_children-RunCloses js (i + 1) false s'
            (AreSettled-Later s.procs s'.procs js l settled.1))

-- The children after the parent.
RunCloses-parent :
    (s s1 : State) (js : List ℕ) (parent : ℕ) (r : Run)
    → Later s.procs s1.procs
    → Took s.procs s1.procs js
    → has_children (pid_at parent s.procs) s1.procs ≡ false
    → RunCloses r s1 js
    → RunCloses r s (parent ∷ [])
RunCloses-parent s s1 js parent undefined l t h c = tt
RunCloses-parent s s1 js parent no_fuel l t h c = tt
RunCloses-parent s s1 js parent (ran s') l t h c = record {
  later = Later-trans s.procs s1.procs s'.procs l c.later;
  closed = λ j new. elim (Bool-cases (j == parent)) [
    | inl is ↦
        let here : j ≡ parent = ground arith in
        rw here (
          closed-Later s1.procs s'.procs parent c.later
            (rw (pid_at-Later parent s.procs s1.procs l) h))
    | inr other ↦ c.closed j (ground (arith, t.marked j))
  ];
}

print_hierarchy-RunCloses :
    (fuel parent init_spacing : ℕ) (first last multi : Bool) (s : State)
    → RunCloses (print_hierarchy fuel parent init_spacing first last multi s) s (parent ∷ [])
unfolding print_hierarchy
print_hierarchy-RunCloses zero parent init_spacing first last multi s = tt
print_hierarchy-RunCloses (suc fuel) parent init_spacing first last multi s =
    let pid : Bytes = pid_at parent s.procs in
    let child_length : ℕ = init_spacing + 3 + length pid in
    let levels : List ℕ = if multi then s.levels ++ init_spacing ∷ [] else s.levels in
    elim (Option-cases (draw_bars levels (get_spacing (child_length - 3)))) [
      | inl out_of_bounds ↦ rw (out_of_bounds, print_hierarchy) tt
      | inr (spacing, drawn) ↦ elim (Option-cases (collect (suc fuel) pid s.procs [])) [
        | inl no_end ↦ rw (drawn, no_end, print_hierarchy) tt
        | inr ((ps, children), collected) ↦
            let c = collect-Collected (suc fuel) pid s.procs [] ps children collected in
            let n : ℕ = length children in
            let mid : State = record {
              procs = ps;
              levels = levels;
              out = s.out ++ parent_pieces first last parent n;
            } in
            let hierarchy =
              λ (child : ℕ) (f l : Bool). print_hierarchy fuel child child_length f l (ltb 1 n) in
            let same_children : children ≡ c.js = c.added in
            rw (drawn, collected, print_hierarchy)
              (RunCloses-parent s mid children parent _ c.later (rw same_children c.took)
                c.none_left
                (print_children-RunCloses hierarchy spacing n
                  (λ child f l s'.
                    print_hierarchy-RunCloses fuel child child_length f l (ltb 1 n) s')
                  children 0 true mid (rw same_children c.settled)))
      ]
    ]

abbrev pub ppid_at : ℕ → List ProcessInfo → Bytes
ppid_at i [] = []
ppid_at zero (p ∷ ps) = p.ppid
ppid_at (suc i) (p ∷ ps) = ppid_at i ps

taken_of_has_children :
    (pid : Bytes) (ps : List ProcessInfo) (i : ℕ)
    → has_children pid ps ≡ false
    → i < length ps
    → same (ppid_at i ps) pid ≡ true
    → taken_at i ps ≡ 1
unfolding has_children
taken_of_has_children pid [] i h k e = absurd (omega arith)
taken_of_has_children pid (p ∷ ps) zero h k e = ground arith
taken_of_has_children pid (p ∷ ps) (suc i) h k e =
    let rest : has_children pid ps ≡ false = ground arith in
    taken_of_has_children pid ps i rest (omega arith) e

main-Closes :
    (fuel : ℕ) (procs : List ProcessInfo) (init : ℕ) (s : State)
    → init_process procs ≡ some init
    → main fuel procs ≡ ran s
    → Closes record { procs = procs; levels = []; out = [] } s (init ∷ [])
unfolding main
main-Closes fuel procs init s found run =
    let begin : State = record { procs = procs; levels = []; out = [] } in
    let started : main fuel procs ≡ print_hierarchy fuel init 0 true true true begin =
      rw (found, main) refl in
    subst (λ r. RunCloses r begin (init ∷ [])) (sym started ∙ run)
      (print_hierarchy-RunCloses fuel init 0 true true true begin)

-- If there is a process with the id 1 and there are more nested calls at hand than processes, in
-- every run of `main`: a process whose `PPid` is the id of a printed process is printed once if it was
-- not taken at the start, and never if it was; for the root, which is printed without being taken, it
-- is once more. So no descendant of the root that starts out free is left out.
pub main-closed :
    (fuel : ℕ) (procs : List ProcessInfo) (init : ℕ) (s : State)
    → init_process procs ≡ some init
    → length procs < fuel
    → main fuel procs ≡ ran s
    → (i j : ℕ) → 0 < printed j s.out
    → i < length s.procs
    → same (ppid_at i s.procs) (pid_at j s.procs) ≡ true
    → printed i s.out + taken_at i procs ≡ bit (i == init) + 1
main-closed fuel procs init s found enough run i j parent_printed inside child =
    let (s', run', counts) = main-prints fuel procs init found enough in
    let here : s' ≡ s = cc in
    let count : ((k : ℕ)
        → printed k s.out + taken_at k procs ≡ bit (k == init) + taken_at k s.procs) =
      λ k. rw (← here) (counts k) in
    let c : Closes record { procs = procs; levels = []; out = [] } s (init ∷ []) =
      main-Closes fuel procs init s found run in
    let taken : taken_at i s.procs ≡ 1 =
      taken_of_has_children (pid_at j s.procs) s.procs i (c.closed j (omega (arith, count j)))
        inside child in
    count i ∙ ap (λ x. bit (i == init) + x) taken
