-- ===== src/JoinAny/Invariant.antt =====
-- The invariant of the threads and the main thread.
use tlpi_exercises.Prelude.{ℕ, suc, ◌+◌, ◌≤◌, ◌<◌, ◌≡◌, refl, ◌⊎◌, inl, inr, List, length, arith}
use tlpi_exercises.JoinAny.{
  ThreadInfo, Main, outside, testing, waiting, woken, at_thread, with_thread, after_thread,
  finished, Shared, wake, Work, Somewhere, here, there,
}
use tlpi_exercises.JoinAny.Counts.{
  bit, counts, holds, owes, is_joined, fits, total, counts_of, holds_of, owes_of, is_joined_of,
  held_of, held_at, AllFit, Change, Change-here, Change-there,
}

-- Whether the main thread has `mtx`, and how many mutexes of threads it has.
abbrev pub inside : Main → ℕ
inside outside = 0
inside testing = 1
inside waiting = 0
inside woken = 0
inside (at_thread i) = 1
inside (with_thread i) = 1
inside (after_thread i) = 1
inside finished = 0

abbrev pub own : Main → ℕ
own outside = 0
own testing = 0
own waiting = 0
own woken = 0
own (at_thread i) = 0
own (with_thread i) = 1
own (after_thread i) = 1
own finished = 0

-- The main thread has the mutex of the thread at its index, which is in range.
abbrev pub InRange : Main → List ThreadInfo → Type 0
InRange outside ts = Unit
InRange testing ts = Unit
InRange waiting ts = Unit
InRange woken ts = Unit
InRange (at_thread i) ts = i ≤ length ts
InRange (with_thread i) ts = (i < length ts) × (held_at i ts ≡ 1)
InRange (after_thread i) ts = (i < length ts) × (held_at i ts ≡ 1)
InRange finished ts = Unit

-- What the main thread knows of `total_joined` where it is.
abbrev pub Knows : Main → ℕ → ℕ → Type 0
Knows outside k n = k < n
Knows testing k n = k < n
Knows waiting k n = k < n
Knows woken k n = k < n
Knows (at_thread i) k n = Unit
Knows (with_thread i) k n = Unit
Knows (after_thread i) k n = Unit
Knows finished k n = k ≡ n

-- In order: `total_unjoined` counts the threads that have counted themselves and are not joined, and
-- `total_joined` those that are; `mtx` has one holder at most; no wake-up is lost; the main thread has
-- the mutex of the thread that it is at, and no other; and the loop of `main` ends when all are joined.
pub record IsConsistent (n : ℕ) (s : Shared) (ts : List ThreadInfo) : Type 0 where
  pub fit : AllFit ts
  pub all : length ts ≡ n
  pub unjoined_count : s.total_unjoined + total is_joined_of ts ≡ total counts_of ts
  pub joined_count : s.total_joined ≡ total is_joined_of ts
  pub exclusive : total holds_of ts + inside s.main ≡ bit s.mtx_owned
  pub signalled : s.main ≡ waiting → 0 < s.total_unjoined → 0 < total owes_of ts
  pub one_own : total held_of ts ≡ own s.main
  pub in_range : InRange s.main ts
  pub knows : Knows s.main s.total_joined n

-- What a step of one thread changes.
pub record Effect (s s' : Shared) (t t' : ThreadInfo) : Type 0 where
  pub counting : s'.total_unjoined + counts t.place ≡ s.total_unjoined + counts t'.place
  pub same_joined : is_joined t'.state ≡ is_joined t.state
  pub holding : bit s'.mtx_owned + holds t.place ≡ bit s.mtx_owned + holds t'.place
  pub telling :
      s'.main ≡ waiting
      → (owes t.place ≤ owes t'.place)
        × ((s'.total_unjoined ≡ s.total_unjoined) ⊎ (0 < owes t'.place))
  pub same_main : (s'.main ≡ s.main) ⊎ (s.main ≡ waiting) × (s'.main ≡ woken)
  pub same_held : t'.main_holds ≡ t.main_holds
  pub same_total : s'.total_joined ≡ s.total_joined
  pub still_fits : fits t'.state t'.place ≡ 1

wake_not_waiting : (m : Main) → wake m ≡ waiting → ⊥
wake_not_waiting m h = ground arith

wake_cases : (m : Main) → (wake m ≡ m) ⊎ (m ≡ waiting) × (wake m ≡ woken)
wake_cases m = ground arith

pub Work-Effect :
    {s s' : Shared} {t t' : ThreadInfo}
    → Work s t s' t'
    → fits t.state t.place ≡ 1
    → holds t.place ≤ bit s.mtx_owned
    → Effect s s' t t'
Work-Effect (Work.mutex_lock s t at free) f h = record {
  counting = ground arith;
  same_joined = refl;
  holding = ground arith;
  telling = λ w. (ground arith, inl refl);
  same_main = inl refl;
  same_held = refl;
  same_total = refl;
  still_fits = ground arith;
}
Work-Effect (Work.count s t at) f h = record {
  counting = ground arith;
  same_joined = refl;
  holding = ground arith;
  telling = λ w. (ground arith, inr (omega arith));
  same_main = inl refl;
  same_held = refl;
  same_total = refl;
  still_fits = ground arith;
}
Work-Effect (Work.mutex_unlock s t at) f h = record {
  counting = ground arith;
  same_joined = refl;
  holding = ground arith;
  telling = λ w. (ground arith, inl refl);
  same_main = inl refl;
  same_held = refl;
  same_total = refl;
  still_fits = ground arith;
}
Work-Effect (Work.own_mutex_lock s t at free) f h = record {
  counting = ground arith;
  same_joined = refl;
  holding = ground arith;
  telling = λ w. (ground arith, inl refl);
  same_main = inl refl;
  same_held = refl;
  same_total = refl;
  still_fits = ground arith;
}
Work-Effect (Work.set_state s t at) f h = record {
  counting = ground arith;
  same_joined = ground arith;
  holding = ground arith;
  telling = λ w. (ground arith, inl refl);
  same_main = inl refl;
  same_held = refl;
  same_total = refl;
  still_fits = refl;
}
Work-Effect (Work.own_mutex_unlock s t at) f h = record {
  counting = ground arith;
  same_joined = refl;
  holding = ground arith;
  telling = λ w. (ground arith, inl refl);
  same_main = inl refl;
  same_held = refl;
  same_total = refl;
  still_fits = ground arith;
}
Work-Effect (Work.cond_signal s t at) f h = record {
  counting = ground arith;
  same_joined = refl;
  holding = ground arith;
  telling = λ w. absurd (wake_not_waiting s.main w);
  same_main = wake_cases s.main;
  same_held = refl;
  same_total = refl;
  still_fits = ground arith;
}

pub Somewhere-Change :
    {s s' : Shared} {ts ts' : List ThreadInfo}
    → Somewhere s s' ts ts'
    → (i : ℕ) × (t : ThreadInfo) × (t' : ThreadInfo) × Work s t s' t' × Change i t t' ts ts'
Somewhere-Change (here {t} {t'} ts w) = (0, t, t', w, Change-here t t' ts)
Somewhere-Change (there u m) =
    let (i, t, t', w, c) = Somewhere-Change m in (suc i, t, t', w, Change-there u c)
