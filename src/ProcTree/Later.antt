-- ===== src/ProcTree/Later.antt =====
-- The array of processes at a later time: the ids stay, and marks are only set.
use tlpi_exercises.Prelude.{
  ℕ, zero, suc, ◌≤◌, ◌<◌, ◌≡◌, refl, sym, ◌∙◌, ◌⊎◌, inl, inr, true, false, not, ◌&&◌, Option, none,
  some, List, [], ◌∷◌, ◌++◌, Bytes, if◌then◌else◌, length, arith, Bool-cases, append_assoc,
  append-nil,
}
use tlpi_exercises.ProcTree.{
  ProcessInfo, same, pid_at, parent_at, has_children, mark_parent, behind, find_child, collect,
}
use tlpi_exercises.ProcTree.Marks.{bit, Took, Took-trans, Took-mark, Takes, find_child-Takes}

abbrev pub IsLater : ProcessInfo → ProcessInfo → Type 0
IsLater p q =
    (q.pid ≡ p.pid)
    × (q.ppid ≡ p.ppid)
    × (bit p.taken ≤ bit q.taken)
    × (bit p.parent ≤ bit q.parent)

abbrev pub Later : List ProcessInfo → List ProcessInfo → Type 0
Later [] [] = Unit
Later [] (q ∷ qs) = ⊥
Later (p ∷ ps) [] = ⊥
Later (p ∷ ps) (q ∷ qs) = IsLater p q × Later ps qs

pub Later-refl : (ps : List ProcessInfo) → Later ps ps
Later-refl [] = tt
Later-refl (p ∷ ps) = ((refl, refl, omega arith, omega arith), Later-refl ps)

pub Later-trans : (ps qs rs : List ProcessInfo) → Later ps qs → Later qs rs → Later ps rs
Later-trans [] [] [] l m = tt
Later-trans [] [] (r ∷ rs) l m = absurd m
Later-trans [] (q ∷ qs) rs l m = absurd l
Later-trans (p ∷ ps) [] rs l m = absurd l
Later-trans (p ∷ ps) (q ∷ qs) [] l m = absurd m
Later-trans (p ∷ ps) (q ∷ qs) (r ∷ rs) l m = (
  (m.0.0 ∙ l.0.0, m.0.1 ∙ l.0.1, omega (arith, l.0.2, m.0.2), omega (arith, l.0.3, m.0.3)),
  Later-trans ps qs rs l.1 m.1,
)

pub pid_at-Later : (i : ℕ) (ps qs : List ProcessInfo) → Later ps qs → pid_at i qs ≡ pid_at i ps
pid_at-Later i [] [] l = refl
pid_at-Later i [] (q ∷ qs) l = absurd l
pid_at-Later i (p ∷ ps) [] l = absurd l
pid_at-Later zero (p ∷ ps) (q ∷ qs) l = l.0.0
pid_at-Later (suc i) (p ∷ ps) (q ∷ qs) l = pid_at-Later i ps qs l.1

pub parent_at-Later :
    (i : ℕ) (ps qs : List ProcessInfo) → Later ps qs → bit (parent_at i ps) ≤ bit (parent_at i qs)
parent_at-Later i [] [] l = omega arith
parent_at-Later i [] (q ∷ qs) l = absurd l
parent_at-Later i (p ∷ ps) [] l = absurd l
parent_at-Later zero (p ∷ ps) (q ∷ qs) l = l.0.3
parent_at-Later (suc i) (p ∷ ps) (q ∷ qs) l = parent_at-Later i ps qs l.1

pub has_children-Later :
    (pid : Bytes) (ps qs : List ProcessInfo)
    → Later ps qs
    → has_children pid ps ≡ false
    → has_children pid qs ≡ false
unfolding has_children
has_children-Later pid [] [] l h = refl
has_children-Later pid [] (q ∷ qs) l h = absurd l
has_children-Later pid (p ∷ ps) [] l h = absurd l
has_children-Later pid (p ∷ ps) (q ∷ qs) l h =
    ground (arith, l.0.1, l.0.2, has_children-Later pid ps qs l.1)

pub mark_parent-Later : (i : ℕ) (ps : List ProcessInfo) → Later ps (mark_parent i ps)
mark_parent-Later i [] = tt
mark_parent-Later zero (p ∷ ps) = ((refl, refl, omega arith, ground arith), Later-refl ps)
mark_parent-Later (suc i) (p ∷ ps) =
    ((refl, refl, omega arith, omega arith), mark_parent-Later i ps)

parent_at-mark_parent :
    (i : ℕ) (ps : List ProcessInfo) → i < length ps → parent_at i (mark_parent i ps) ≡ true
parent_at-mark_parent i [] h = absurd (omega arith)
parent_at-mark_parent zero (p ∷ ps) h = refl
parent_at-mark_parent (suc i) (p ∷ ps) h = parent_at-mark_parent i ps (omega arith)

-- What the search for a child finds.
abbrev pub Finds : Bytes → List ProcessInfo → Option (ℕ × List ProcessInfo) → Type 0
Finds pid ps none = has_children pid ps ≡ false
Finds pid ps (some (i, qs)) = Later ps qs × (i < length qs)

Finds-behind :
    (pid : Bytes) (entry : ProcessInfo) (ps : List ProcessInfo) (o : Option (ℕ × List ProcessInfo))
    → (same entry.ppid pid && not entry.taken) ≡ false
    → Finds pid ps o
    → Finds pid (entry ∷ ps) (behind entry o)
unfolding has_children
Finds-behind pid entry ps none e h = rw e h
Finds-behind pid entry ps (some (i, qs)) e h =
    (((refl, refl, omega arith, omega arith), h.0), omega (arith, h.1))

find_child-Finds : (pid : Bytes) (ps : List ProcessInfo) → Finds pid ps (find_child pid ps)
unfolding find_child has_children
find_child-Finds pid [] = refl
find_child-Finds pid (entry ∷ ps) = elim (Bool-cases (same entry.ppid pid && not entry.taken)) [
  | inl e ↦ rw e (((refl, refl, ground arith, omega arith), Later-refl ps), omega arith)
  | inr e ↦ rw e (Finds-behind pid entry ps (find_child pid ps) e (find_child-Finds pid ps))
]

-- A child is marked as a parent, or has no child that is not taken.
abbrev pub IsSettled : List ProcessInfo → ℕ → Type 0
IsSettled ps j = (parent_at j ps ≡ true) ⊎ (has_children (pid_at j ps) ps ≡ false)

abbrev pub AreSettled : List ProcessInfo → List ℕ → Type 0
AreSettled ps [] = Unit
AreSettled ps (j ∷ js) = IsSettled ps j × AreSettled ps js

pub IsSettled-Later :
    (ps qs : List ProcessInfo) (j : ℕ) → Later ps qs → IsSettled ps j → IsSettled qs j
IsSettled-Later ps qs j l (inl h) = inl (ground (arith, parent_at-Later j ps qs l))
IsSettled-Later ps qs j l (inr h) =
    inr (rw (pid_at-Later j ps qs l) (has_children-Later (pid_at j ps) ps qs l h))

-- A child after the loop has looked for its children.
marked-IsSettled :
    (qs : List ProcessInfo) (j : ℕ)
    → j < length qs
    → let rs = if has_children (pid_at j qs) qs then mark_parent j qs else qs in
      Later qs rs × IsSettled rs j
marked-IsSettled qs j h = elim (Bool-cases (has_children (pid_at j qs) qs)) [
  | inl e ↦ rw e (mark_parent-Later j qs, inl (parent_at-mark_parent j qs h))
  | inr e ↦ rw e (Later-refl qs, inr e)
]

-- The array and the children that the loop leaves.
pub record Collected (pid : Bytes) (ps ps' : List ProcessInfo) (before children : List ℕ)
    : Type 0 where
  pub js : List ℕ
  pub added : children ≡ before ++ js
  pub later : Later ps ps'
  pub none_left : has_children pid ps' ≡ false
  pub settled : AreSettled ps' js
  pub took : Took ps ps' js

pub collect-Collected :
    (fuel : ℕ) (pid : Bytes) (ps : List ProcessInfo) (before : List ℕ) (ps' : List ProcessInfo)
    (children : List ℕ)
    → collect fuel pid ps before ≡ some (ps', children)
    → Collected pid ps ps' before children
unfolding collect
collect-Collected zero pid ps before ps' children e = cc
collect-Collected (suc fuel) pid ps before ps' children e =
    by_child (find_child pid ps) (find_child-Finds pid ps) (find_child-Takes pid ps) e
      (λ qs j run. collect-Collected fuel pid qs (before ++ j ∷ []) ps' children run)
  where
    by_child :
        (o : Option (ℕ × List ProcessInfo))
        → Finds pid ps o
        → Takes ps o
        → elim o as (λ _. Option (List ProcessInfo × List ℕ)) [
          | none ↦ some (ps, before)
          | some (i, qs) ↦
              collect fuel pid
                (if has_children (pid_at i qs) qs then mark_parent i qs else qs)
                (before ++ i ∷ [])
        ]
          ≡ some (ps', children)
        → ((qs : List ProcessInfo) (j : ℕ)
            → collect fuel pid qs (before ++ j ∷ []) ≡ some (ps', children)
            → Collected pid qs ps' (before ++ j ∷ []) children)
        → Collected pid ps ps' before children
    by_child none found took run rest =
        let same_ps : ps ≡ ps' = cc in
        let same_children : before ≡ children = cc in
        rw (← same_ps) (record {
          js = [];
          added = sym same_children ∙ sym (append-nil before);
          later = Later-refl ps;
          none_left = found;
          settled = tt;
          took = record { marked = λ i. omega arith; fewer = omega arith };
        })
    by_child (some (j, qs)) found took run rest =
        let rs : List ProcessInfo =
          if has_children (pid_at j qs) qs then mark_parent j qs else qs in
        let (marked, settled) = marked-IsSettled qs j found.1 in
        let c = rest rs j run in
        record {
          js = j ∷ c.js;
          added = c.added ∙ append_assoc before (j ∷ []) c.js;
          later = Later-trans ps rs ps' (Later-trans ps qs rs found.0 marked) c.later;
          none_left = c.none_left;
          settled = (IsSettled-Later rs ps' j c.later settled, c.settled);
          took =
              Took-trans (Took-trans took (Took-mark (has_children (pid_at j qs) qs) j qs)) c.took;
        }
