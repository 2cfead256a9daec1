-- ===== src/ProcTree/Marks.antt =====
-- Which processes are taken.
use tlpi_exercises.Prelude.{
  ℕ, zero, suc, ◌+◌, ◌<◌, ◌≡◌, refl, sym, ap, ◌∙◌, inl, inr, Bool, true, false, not, ◌&&◌, Option,
  none, some, List, [], ◌∷◌, ◌++◌, Bytes, ◌==◌, if◌then◌else◌, length, arith, Bool-cases,
  append-nil, append_assoc, length-append,
}
use tlpi_exercises.ProcTree.{
  ProcessInfo, same, pid_at, has_children, mark_parent, behind, find_child, collect,
}

abbrev pub bit : Bool → ℕ
bit true = 1
bit false = 0

-- 1 if the process with the index is taken.
abbrev pub taken_at : ℕ → List ProcessInfo → ℕ
taken_at i [] = 0
taken_at zero (p ∷ ps) = bit p.taken
taken_at (suc i) (p ∷ ps) = taken_at i ps

-- How many are not taken.
abbrev pub untaken : List ProcessInfo → ℕ
untaken [] = 0
untaken (p ∷ ps) = bit (not p.taken) + untaken ps

abbrev pub times : ℕ → List ℕ → ℕ
times i [] = 0
times i (j ∷ js) = bit (i == j) + times i js

pub times-append : (i : ℕ) (js ks : List ℕ) → times i (js ++ ks) ≡ times i js + times i ks
times-append i [] ks = omega arith
times-append i (j ∷ js) ks = omega (arith, times-append i js ks)

-- The array after `js` have been taken.
pub record Took (ps ps' : List ProcessInfo) (js : List ℕ) : Type 0 where
  pub marked : (i : ℕ) → taken_at i ps' ≡ taken_at i ps + times i js
  pub fewer : untaken ps ≡ untaken ps' + length js

mark_parent-taken_at :
    (i j : ℕ) (ps : List ProcessInfo) → taken_at i (mark_parent j ps) ≡ taken_at i ps
mark_parent-taken_at i j [] = refl
mark_parent-taken_at zero zero (p ∷ ps) = refl
mark_parent-taken_at (suc i) zero (p ∷ ps) = refl
mark_parent-taken_at zero (suc j) (p ∷ ps) = refl
mark_parent-taken_at (suc i) (suc j) (p ∷ ps) = mark_parent-taken_at i j ps

mark_parent-untaken : (j : ℕ) (ps : List ProcessInfo) → untaken (mark_parent j ps) ≡ untaken ps
mark_parent-untaken j [] = refl
mark_parent-untaken zero (p ∷ ps) = refl
mark_parent-untaken (suc j) (p ∷ ps) = omega (arith, mark_parent-untaken j ps)

Took-behind :
    (p : ProcessInfo) (ps ps' : List ProcessInfo) (j : ℕ)
    → Took ps ps' (j ∷ [])
    → Took (p ∷ ps) (p ∷ ps') (suc j ∷ [])
Took-behind p ps ps' j t = record { marked = here; fewer = omega (arith, t.fewer) }
  where
    here : (i : ℕ) → taken_at i (p ∷ ps') ≡ taken_at i (p ∷ ps) + times i (suc j ∷ [])
    here zero = ground arith
    here (suc i) = ground (arith, t.marked i)

Took-first :
    (p : ProcessInfo) (ps : List ProcessInfo)
    → p.taken ≡ false
    → Took (p ∷ ps) (record p { taken = true } ∷ ps) (0 ∷ [])
Took-first p ps free = record { marked = here; fewer = ground arith }
  where
    here :
        (i : ℕ)
        → taken_at i (record p { taken = true } ∷ ps) ≡ taken_at i (p ∷ ps) + times i (0 ∷ [])
    here zero = ground arith
    here (suc i) = ground arith

abbrev pub Takes : List ProcessInfo → Option (ℕ × List ProcessInfo) → Type 0
Takes ps none = Unit
Takes ps (some (j, ps')) = Took ps ps' (j ∷ [])

Takes-behind :
    (p : ProcessInfo) (ps : List ProcessInfo) (o : Option (ℕ × List ProcessInfo))
    → Takes ps o
    → Takes (p ∷ ps) (behind p o)
Takes-behind p ps none t = tt
Takes-behind p ps (some (j, ps')) t = Took-behind p ps ps' j t

pub find_child-Takes : (pid : Bytes) (ps : List ProcessInfo) → Takes ps (find_child pid ps)
unfolding find_child
find_child-Takes pid [] = tt
find_child-Takes pid (entry ∷ ps) = elim (Bool-cases (same entry.ppid pid && not entry.taken)) [
  | inl e ↦ let free : entry.taken ≡ false = ground arith in rw e (Took-first entry ps free)
  | inr e ↦ rw e (Takes-behind entry ps (find_child pid ps) (find_child-Takes pid ps))
]

pub Took-trans :
    {ps qs rs : List ProcessInfo} {js ks : List ℕ}
    → Took ps qs js
    → Took qs rs ks
    → Took ps rs (js ++ ks)
Took-trans {js = js} {ks = ks} t u = record {
  marked = λ i. omega (arith, t.marked i, u.marked i, times-append i js ks);
  fewer = omega (arith, t.fewer, u.fewer, length-append js ks);
}

pub Took-mark :
    (b : Bool) (j : ℕ) (ps : List ProcessInfo) → Took ps (if b then mark_parent j ps else ps) []
Took-mark true j ps = record {
  marked = λ i. omega (arith, mark_parent-taken_at i j ps);
  fewer = omega (arith, mark_parent-untaken j ps);
}
Took-mark false j ps = record { marked = λ i. omega arith; fewer = omega arith }

-- The loop takes the children that it collects.
pub collect-Took :
    (fuel : ℕ) (pid : Bytes) (ps : List ProcessInfo) (before : List ℕ)
    → untaken ps < fuel
    → (ps' : List ProcessInfo) × (js : List ℕ) × (collect fuel pid ps before
        ≡ some (ps', before ++ js))
      × Took ps ps' js
unfolding collect
collect-Took zero pid ps before h = absurd (omega arith)
collect-Took (suc fuel) pid ps before h =
    by_child (find_child pid ps) (find_child-Takes pid ps)
      (λ qs j fewer. collect-Took fuel pid qs (before ++ j ∷ []) fewer)
  where
    by_child :
        (o : Option (ℕ × List ProcessInfo))
        → Takes ps o
        → ((qs : List ProcessInfo) (j : ℕ)
            → untaken qs < fuel
            → (ps' : List ProcessInfo) × (js : List ℕ) × (collect fuel pid qs (before ++ j ∷ [])
                ≡ some (ps', (before ++ j ∷ []) ++ js))
              × Took qs ps' js)
        → (ps' : List ProcessInfo) × (js : List ℕ) × (elim o
              as (λ _. Option (List ProcessInfo × List ℕ)) [
                | none ↦ some (ps, before)
                | some (i, qs) ↦
                    collect fuel pid
                      (if has_children (pid_at i qs) qs then mark_parent i qs else qs)
                      (before ++ i ∷ [])
              ]
            ≡ some (ps', before ++ js))
          × Took ps ps' js
    by_child none t rest = (
      ps,
      [],
      ap (λ bs. some (ps, bs)) (sym (append-nil before)),
      record { marked = λ i. omega arith; fewer = omega arith },
    )
    by_child (some (j, qs)) t rest =
        let marked = Took-mark (has_children (pid_at j qs) qs) j qs in
        let (ps', js, run, u) = rest _ j (omega (arith, t.fewer, marked.fewer)) in
        (
          ps',
          j ∷ js,
          run ∙ ap (λ bs. some (ps', bs)) (append_assoc before (j ∷ []) js),
          Took-trans (Took-trans t marked) u,
        )
