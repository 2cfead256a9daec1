-- ===== src/ProcTree/Hierarchy.antt =====
-- `printHierarchy` ends, and prints every process that it takes once.
use tlpi_exercises.Prelude.{
  ℕ, zero, suc, ◌+◌, ◌-◌, ◌≤◌, ◌<◌, ◌≡◌, refl, Bool, true, false, not, some, List, [], ◌∷◌, ◌++◌,
  Bytes, codes, ltb, ◌==◌, if◌then◌else◌, length, length-replicate, arith,
}
use tlpi_exercises.ProcTree.{
  ProcessInfo, Piece, name, text, State, Run, ran, then_run, pid_at, parent_at, get_spacing, print,
  pop, leaf_header, print_children, parent_pieces, print_hierarchy, init_process, main,
}
use tlpi_exercises.ProcTree.Marks.{bit, taken_at, untaken, Took, collect-Took}
use tlpi_exercises.ProcTree.Printing.{
  printed, printed-append, printed-parent_pieces, Within, draw_bars-in, Within-append, Within-le,
  RunPrints, RunPrints-nil, RunPrints-then, RunPrints-quiet, RunPrints-pop, RunPrints-leaf,
}

-- The loop over the children, where the recursive call prints a child.
module _ (hierarchy : ℕ → Bool → Bool → State → Run) (spacing : Bytes) (n u x : ℕ) (levels : List ℕ)
    (prints : (child : ℕ) (first last : Bool) (s : State)
      → s.levels ≡ levels
      → untaken s.procs ≤ u
      → RunPrints
          (hierarchy child first last s)
          s
          (if ltb 1 n then levels ++ x ∷ [] else levels)
          (child ∷ [])) where
  RunPrints-child :
      (i child : ℕ) (first : Bool) (s : State) (is_parent : Bool)
      → s.levels ≡ levels
      → untaken s.procs ≤ u
      → RunPrints
          (if is_parent
            then then_run
                (hierarchy child first
                  (i == n - 1)
                  (print (if not first then text spacing ∷ [] else []) s))
                (λ s'. ran (if ltb 1 n then record s' { levels = pop s'.levels } else s'))
            else ran
                (print (leaf_header first n i spacing ++ (name child ∷ text (codes "\n") ∷ [])) s))
          s
          levels
          (child ∷ [])
  RunPrints-child i child first s false e h = RunPrints-leaf s levels child n i first spacing e
  RunPrints-child i child first s true e h =
      let pieces : List Piece = if not first then text spacing ∷ [] else [] in
      RunPrints-pop (hierarchy child first (i == n - 1) (print pieces s)) s (ltb 1 n) levels x (
        RunPrints-quiet (hierarchy child first (i == n - 1) (print pieces s)) s pieces
          (λ j. quiet j first) (prints child first (i == n - 1) (print pieces s) e h))
    where
      quiet : (j : ℕ) (b : Bool) → printed j (if not b then text spacing ∷ [] else []) ≡ 0
      quiet j true = refl
      quiet j false = refl

  print_children-RunPrints :
      (js : List ℕ) (i : ℕ) (first : Bool) (s : State)
      → s.levels ≡ levels
      → untaken s.procs ≤ u
      → RunPrints (print_children hierarchy spacing n i first js s) s levels js
  unfolding print_children
  print_children-RunPrints [] i first s e h = RunPrints-nil s e
  print_children-RunPrints (child ∷ js) i first s e h =
      RunPrints-then _ _ (RunPrints-child i child first s (parent_at child s.procs) e h)
        (λ s' e' fewer. print_children-RunPrints js (i + 1) false s' e' (omega arith))

-- The children after the parent.
Prints-parent :
    (s : State) (ps : List ProcessInfo) (levels js : List ℕ) (parent : ℕ) (first last : Bool)
    (r : Run)
    → Took s.procs ps js
    → RunPrints r
        (record {
          procs = ps;
          levels = levels;
          out = s.out ++ parent_pieces first last parent (length js);
        })
        levels
        js
    → RunPrints r s levels (parent ∷ [])
Prints-parent s ps levels js parent first last r t (s', e, p) = (
  s',
  e,
  record {
    levels_are = p.levels_are;
    each = λ i. omega (
      arith,
      p.each i,
      t.marked i,
      printed-append i s.out (parent_pieces first last parent (length js)),
      printed-parent_pieces i first last parent (length js),
    );
    fewer = omega (arith, p.fewer, t.fewer);
  },
)

-- Without children there is no call.
where_children :
    (hierarchy : ℕ → Bool → Bool → State → Run) (spacing : Bytes) (n : ℕ) (levels js : List ℕ)
    (s : State)
    → s.levels ≡ levels
    → (0 < length js → RunPrints (print_children hierarchy spacing n 0 true js s) s levels js)
    → RunPrints (print_children hierarchy spacing n 0 true js s) s levels js
unfolding print_children
where_children hierarchy spacing n levels [] s e h = RunPrints-nil s e
where_children hierarchy spacing n levels (j ∷ js) s e h = h (omega arith)

pushed : Bool → List ℕ → ℕ → List ℕ
pushed multi levels x = if multi then levels ++ x ∷ [] else levels

Within-pushed :
    (multi : Bool) (levels : List ℕ) (x : ℕ) → Within x levels → Within x (pushed multi levels x)
unfolding pushed
Within-pushed true levels x w = Within-append x x levels w (omega arith)
Within-pushed false levels x w = w

print_hierarchy-RunPrints :
    (fuel parent init_spacing : ℕ) (first last multi : Bool) (s : State)
    → untaken s.procs < fuel
    → Within init_spacing s.levels
    → RunPrints
        (print_hierarchy fuel parent init_spacing first last multi s)
        s
        (pushed multi s.levels init_spacing)
        (parent ∷ [])
unfolding print_hierarchy pushed
print_hierarchy-RunPrints zero parent init_spacing first last multi s h w = absurd (omega arith)
print_hierarchy-RunPrints (suc fuel) parent init_spacing first last multi s h w =
    let pid : Bytes = pid_at parent s.procs in
    let child_length : ℕ = init_spacing + 3 + length pid in
    let levels : List ℕ = pushed multi s.levels init_spacing in
    let inside = Within-pushed multi s.levels init_spacing w in
    let (spacing, drawn) =
      draw_bars-in levels (get_spacing (child_length - 3)) init_spacing inside
        (omega (arith, length-replicate {A = ℕ} (child_length - 3) b' ')) in
    let (ps, js, collected, t) = collect-Took (suc fuel) pid s.procs [] h in
    rw (drawn, collected, print_hierarchy)
      (Prints-parent s ps levels js parent first last _ t (
        where_children
          (λ child f l. print_hierarchy fuel child child_length f l (ltb 1 (length js))) spacing
          (length js) levels js _ refl
          (λ some_child.
            print_children-RunPrints
              (λ child f l. print_hierarchy fuel child child_length f l (ltb 1 (length js))) spacing
              (length js) (untaken ps) child_length levels
              (λ child f l s' e bound. rw (← e) (
                print_hierarchy-RunPrints fuel child child_length f l (ltb 1 (length js)) s'
                  (omega (arith, t.fewer))
                  (rw e (Within-le init_spacing child_length levels inside (omega arith)))))
              js 0 true _ refl (omega arith))))

untaken-le-length : (ps : List ProcessInfo) → untaken ps ≤ length ps
untaken-le-length [] = omega arith
untaken-le-length (p ∷ ps) = ground (arith, untaken-le-length ps)

-- If there is a process with the id 1, then `main` ends, within one more nested call than there are
-- processes, in bounds of its strings, whatever `taken` and `parent` hold at the start. It prints the
-- root once, every process that is taken by the end and was not at the start once, and besides these
-- none.
pub main-prints :
    (fuel : ℕ) (procs : List ProcessInfo) (init : ℕ)
    → init_process procs ≡ some init
    → length procs < fuel
    → (s : State) × (main fuel procs ≡ ran s)
      × ((i : ℕ) → printed i s.out + taken_at i procs ≡ bit (i == init) + taken_at i s.procs)
unfolding main
main-prints fuel procs init found h =
    let begin : State = record { procs = procs; levels = []; out = [] } in
    let (s, run, p) =
      print_hierarchy-RunPrints fuel init 0 true true true begin
        (omega (arith, untaken-le-length procs)) tt in
    (s, rw (found, main) run, λ i. omega (arith, p.each i))
