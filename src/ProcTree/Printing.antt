-- ===== src/ProcTree/Printing.antt =====
-- Runs that print every process that they take once.
use tlpi_exercises.Prelude.{
  ℕ, zero, suc, ◌+◌, ◌-◌, ◌≤◌, ◌≡◌, refl, ap, ◌∙◌, inl, inr, Bool, true, false, some, List, [], ◌∷◌,
  ◌++◌, Bytes, codes, ltb, ◌==◌, if◌then◌else◌, length, set, arith, Bool-cases,
}
use tlpi_exercises.ProcTree.{
  Piece, name, text, State, Run, ran, then_run, draw_bars, print, pop, leaf_header, parent_pieces,
}
use tlpi_exercises.ProcTree.Marks.{bit, taken_at, untaken, times, times-append}

-- How often the id of a process is printed.
abbrev pub printed : ℕ → List Piece → ℕ
printed i [] = 0
printed i (name j ∷ pieces) = bit (i == j) + printed i pieces
printed i (text s ∷ pieces) = printed i pieces

pub printed-append : (i : ℕ) (a b : List Piece) → printed i (a ++ b) ≡ printed i a + printed i b
printed-append i [] b = omega arith
printed-append i (name j ∷ a) b = omega (arith, printed-append i a b)
printed-append i (text s ∷ a) b = printed-append i a b

pub printed-parent_pieces :
    (i : ℕ) (first last : Bool) (parent n : ℕ)
    → printed i (parent_pieces first last parent n) ≡ bit (i == parent)
printed-parent_pieces i true last parent n = omega arith
printed-parent_pieces i false true parent n = omega arith
printed-parent_pieces i false false parent n = omega arith

printed-leaf_header :
    (i : ℕ) (first : Bool) (n k : ℕ) (spacing : Bytes)
    → printed i (leaf_header first n k spacing) ≡ 0
printed-leaf_header i true n k spacing = refl
printed-leaf_header i false n k spacing = ground arith

abbrev pub Within : ℕ → List ℕ → Type 0
Within m [] = Unit
Within m (level ∷ levels) = (level ≤ m) × Within m levels

pub Within-append :
    (m k : ℕ) (levels : List ℕ) → Within m levels → m ≤ k → Within k (levels ++ k ∷ [])
Within-append m k [] w h = (omega arith, tt)
Within-append m k (level ∷ levels) w h = (omega (arith, w.0), Within-append m k levels w.1 h)

pub Within-le : (m k : ℕ) (levels : List ℕ) → Within m levels → m ≤ k → Within k levels
Within-le m k [] w h = tt
Within-le m k (level ∷ levels) w h = (omega (arith, w.0), Within-le m k levels w.1 h)

length-set : (bs : Bytes) (i v : ℕ) → length (set bs i v) ≡ length bs
length-set [] i v = refl
length-set (b ∷ bs) zero v = refl
length-set (b ∷ bs) (suc i) v = ap suc (length-set bs i v)

-- The bars stand in the spacing.
pub draw_bars-in :
    (levels : List ℕ) (spacing : Bytes) (m : ℕ)
    → Within m levels
    → m ≤ length spacing
    → (spacing' : Bytes) × (draw_bars levels spacing ≡ some spacing')
unfolding draw_bars
draw_bars-in [] spacing m w h = (spacing, refl)
draw_bars-in (level ∷ levels) spacing m w h =
    let (drawn, e) =
      draw_bars-in levels (set spacing (level - 2) b'|') m w.1
        (omega (arith, length-set spacing (level - 2) b'|')) in
    let (blank, e') = draw_bars-in levels spacing m w.1 h in
    elim (Bool-cases (ltb 2 level)) [
      | inl deep ↦
          let inside : ltb (level - 2) (length spacing) ≡ true = ground (arith, w.0) in
          (drawn, rw (deep, inside) e)
      | inr flat ↦ (blank, rw flat e')
    ]

pop-append : (x : ℕ) (xs : List ℕ) → pop (xs ++ x ∷ []) ≡ xs
pop-append x [] = refl
pop-append x (y ∷ []) = refl
pop-append x (y ∷ z ∷ xs) = ap (λ t. y ∷ t) (pop-append x (z ∷ xs))

-- A run from one state to another prints the processes `js` once more, and those that it takes.
pub record Prints (s s' : State) (levels : List ℕ) (js : List ℕ) : Type 0 where
  pub levels_are : s'.levels ≡ levels
  pub each :
      (i : ℕ)
      → printed i s'.out + taken_at i s.procs ≡ printed i s.out + times i js + taken_at i s'.procs
  pub fewer : untaken s'.procs ≤ untaken s.procs

abbrev pub RunPrints : Run → State → List ℕ → List ℕ → Type 0
RunPrints r s levels js = (s' : State) × (r ≡ ran s') × Prints s s' levels js

pub RunPrints-nil :
    (s : State) {levels : List ℕ} → s.levels ≡ levels → RunPrints (ran s) s levels []
RunPrints-nil s e =
    (s, refl, record { levels_are = e; each = λ i. omega arith; fewer = omega arith })

pub RunPrints-then :
    {s : State} {levels : List ℕ} {js ks : List ℕ} (r : Run) (f : State → Run)
    → RunPrints r s levels js
    → ((s' : State)
        → s'.levels ≡ levels
        → untaken s'.procs ≤ untaken s.procs
        → RunPrints (f s') s' levels ks)
    → RunPrints (then_run r f) s levels (js ++ ks)
RunPrints-then {js = js} {ks = ks} r f (s', e, p) rest =
    let (s'', e', q) = rest s' p.levels_are p.fewer in
    (
      s'',
      rw e e',
      record {
        levels_are = q.levels_are;
        each = λ i. omega (arith, p.each i, q.each i, times-append i js ks);
        fewer = omega (arith, p.fewer, q.fewer);
      },
    )

pub RunPrints-quiet :
    (r : Run) (s : State) (pieces : List Piece) {levels js : List ℕ}
    → ((i : ℕ) → printed i pieces ≡ 0)
    → RunPrints r (print pieces s) levels js
    → RunPrints r s levels js
RunPrints-quiet r s pieces {js = js} quiet (s', e, p) = (
  s',
  e,
  record {
    levels_are = p.levels_are;
    each = λ i. omega (arith, p.each i, quiet i, printed-append i s.out pieces);
    fewer = p.fewer;
  },
)

pub RunPrints-pop :
    (r : Run) (s : State) (multi : Bool) (levels : List ℕ) (x : ℕ) {js : List ℕ}
    → RunPrints r s (if multi then levels ++ x ∷ [] else levels) js
    → RunPrints
        (then_run r (λ s'. ran (if multi then record s' { levels = pop s'.levels } else s')))
        s
        levels
        js
RunPrints-pop r s false levels x (s', e, p) = (s', rw e refl, p)
RunPrints-pop r s true levels x (s', e, p) = (
  record s' { levels = pop s'.levels },
  rw e refl,
  record { levels_are = ap pop p.levels_are ∙ pop-append x levels; each = p.each; fewer = p.fewer },
)

pub RunPrints-leaf :
    (s : State) (levels : List ℕ) (child n i : ℕ) (first : Bool) (spacing : Bytes)
    → s.levels ≡ levels
    → RunPrints
        (ran (print (leaf_header first n i spacing ++ (name child ∷ text (codes "\n") ∷ [])) s))
        s
        levels
        (child ∷ [])
RunPrints-leaf s levels child n i first spacing e =
    let line : List Piece = name child ∷ text (codes "\n") ∷ [] in
    let header : List Piece = leaf_header first n i spacing in
    (
      print (header ++ line) s,
      refl,
      record {
        levels_are = e;
        each = λ j. omega (
          arith,
          printed-append j s.out (header ++ line),
          printed-append j header line,
          printed-leaf_header j first n i spacing,
        );
        fewer = omega arith;
      },
    )
