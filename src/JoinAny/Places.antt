-- ===== src/JoinAny/Places.antt =====
-- A step of a thread keeps the invariant, and the invariant at each place of the main thread.
use tlpi_exercises.Prelude.{
  ℕ, ◌≤◌, ◌<◌, ◌≡◌, refl, sym, ◌∙◌, ◌⊎◌, inl, inr, List, ◌==◌, length, arith, Bool-cases,
}
use tlpi_exercises.JoinAny.{
  ThreadInfo, Main, outside, testing, waiting, woken, at_thread, with_thread, after_thread,
  finished, Shared, Somewhere,
}
use tlpi_exercises.JoinAny.Counts.{
  owes, total, counts_of, holds_of, owes_of, is_joined_of, held_of, held_at, Change,
}
use tlpi_exercises.JoinAny.Invariant.{
  inside, own, InRange, Knows, IsConsistent, Effect, Work-Effect, Somewhere-Change,
}

pub Change-same_held :
    {i : ℕ} {t t' : ThreadInfo} {ts ts' : List ThreadInfo}
    → Change i t t' ts ts'
    → t'.main_holds ≡ t.main_holds
    → (k : ℕ) → held_at k ts' ≡ held_at k ts
Change-same_held {i} {t} {t'} {ts} {ts'} c e k = elim (Bool-cases (k == i)) [
  | inl same ↦ let here : k ≡ i = ground arith in rw here (ground (arith, c.now, c.here))
  | inr other ↦ c.others k (λ same. ground arith)
]

InRange-kept :
    (m : Main) (ts ts' : List ThreadInfo)
    → length ts' ≡ length ts
    → ((k : ℕ) → held_at k ts' ≡ held_at k ts)
    → InRange m ts
    → InRange m ts'
InRange-kept outside ts ts' e h r = tt
InRange-kept testing ts ts' e h r = tt
InRange-kept waiting ts ts' e h r = tt
InRange-kept woken ts ts' e h r = tt
InRange-kept (at_thread i) ts ts' e h r = omega (arith, e)
InRange-kept (with_thread i) ts ts' e h r = (omega (arith, e, r.0), h i ∙ r.1)
InRange-kept (after_thread i) ts ts' e h r = (omega (arith, e, r.0), h i ∙ r.1)
InRange-kept finished ts ts' e h r = tt

-- What a signal can do to the place of the main thread changes none of what it has or knows.
inside-kept :
    (m m' : Main)
    → (m' ≡ m) ⊎ (m ≡ waiting) × (m' ≡ woken)
    → (inside m' ≡ inside m) × (own m' ≡ own m)
inside-kept m m' h = ground arith

InRange-woken :
    (m m' : Main) (ts : List ThreadInfo)
    → (m' ≡ m) ⊎ (m ≡ waiting) × (m' ≡ woken)
    → InRange m ts
    → InRange m' ts
InRange-woken m m' ts (inl e) r = rw e r
InRange-woken m m' ts (inr (a, b)) r = rw b tt

Knows-woken :
    (m m' : Main) (k n : ℕ) → (m' ≡ m) ⊎ (m ≡ waiting) × (m' ≡ woken) → Knows m k n → Knows m' k n
Knows-woken m m' k n (inl e) h = rw e h
Knows-woken m m' k n (inr (a, b)) h = rw b (waits m a h)
  where
    waits : (m : Main) → m ≡ waiting → Knows m k n → k < n
    waits m e h = ground arith

pub Somewhere-IsConsistent :
    (n : ℕ) {s s' : Shared} {ts ts' : List ThreadInfo}
    → Somewhere s s' ts ts'
    → IsConsistent n s ts
    → IsConsistent n s' ts'
Somewhere-IsConsistent n {s} {s'} {ts} {ts'} m v =
    let (i, t, t', w, c) = Somewhere-Change m in
    let e : Effect s s' t t' =
      Work-Effect w (c.fit v.fit) (omega (arith, c.part holds_of, v.exclusive)) in
    let (same_inside, same_own) = inside-kept s.main s'.main e.same_main in
    record {
      fit = c.refit v.fit e.still_fits;
      all = c.same_length ∙ v.all;
      unjoined_count = omega (
        arith,
        v.unjoined_count,
        e.counting,
        e.same_joined,
        c.totals is_joined_of,
        c.totals counts_of,
      );
      joined_count =
          omega (arith, e.same_total, v.joined_count, e.same_joined, c.totals is_joined_of);
      exclusive = omega (arith, v.exclusive, e.holding, same_inside, c.totals holds_of);
      signalled = λ w some. signal i t t' c e (e.same_main) w some;
      one_own = omega (arith, v.one_own, same_own, held_total t t' e.same_held, c.totals held_of);
      in_range =
          InRange-woken s.main s'.main ts' e.same_main
            (InRange-kept s.main ts ts' c.same_length (Change-same_held c e.same_held) v.in_range);
      knows = Knows-woken s.main s'.main s'.total_joined n e.same_main (rw e.same_total v.knows);
    }
  where
    held_total : (t t' : ThreadInfo) → t'.main_holds ≡ t.main_holds → held_of t' ≡ held_of t
    held_total t t' h = ground arith

    signal :
        (i : ℕ) (t t' : ThreadInfo)
        → Change i t t' ts ts'
        → Effect s s' t t'
        → (s'.main ≡ s.main) ⊎ (s.main ≡ waiting) × (s'.main ≡ woken)
        → s'.main ≡ waiting
        → 0 < s'.total_unjoined
        → 0 < total owes_of ts'
    signal i t t' c e (inr (a, b)) w some = cc
    signal i t t' c e (inl same) w some = by_count (e.telling w)
      where
        by_count :
            (owes t.place ≤ owes t'.place)
              × ((s'.total_unjoined ≡ s.total_unjoined) ⊎ (0 < owes t'.place))
            → 0 < total owes_of ts'
        by_count (more, inl q) =
            omega (arith, v.signalled (sym same ∙ w) (omega (arith, q)), c.totals owes_of, more)
        by_count (more, inr q) = omega (arith, c.totals owes_of, c.part owes_of, q)

-- The cases of the main thread: what is at each of its places, by the invariant.
pub Knows-here : (m m' : Main) (k n : ℕ) → m ≡ m' → Knows m k n → Knows m' k n
Knows-here m m' k n e h = rw (← e) h

pub InRange-here : (m m' : Main) (ts : List ThreadInfo) → m ≡ m' → InRange m ts → InRange m' ts
InRange-here m m' ts e h = rw (← e) h

pub here_inside : (m m' : Main) → m ≡ m' → (inside m ≡ inside m') × (own m ≡ own m')
here_inside m m' e = (rw e refl, rw e refl)
