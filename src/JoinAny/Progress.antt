-- ===== src/JoinAny/Progress.antt =====
-- The threads are never stuck before the main thread has left its loop.
use tlpi_exercises.Prelude.{
  ℕ, zero, suc, ◌<◌, ◌≡◌, ◌≢◌, refl, ◌⊎◌, inl, inr, ap, ◌∙◌, true, false, List, [], ◌∷◌, ◌==◌, ltb,
  length, arith, Bool-cases,
}
use tlpi_exercises.JoinAny.{
  ThreadState, unjoined, joined, alive, Place, asleep, locked, counted, released, own_locked,
  stated, to_signal, ended, ThreadInfo, Main, outside, testing, waiting, woken, at_thread,
  with_thread, after_thread, finished, Shared, Work, Somewhere, here, there, Take, take_here,
  take_there, Join, join_here, join_there, Skip, skip_here, skip_there, Collect, Move, worker,
  collector, Reach,
}
use tlpi_exercises.JoinAny.Counts.{counts, total, counts_of, holds_of, owes_of, held_of, AllFit}
use tlpi_exercises.JoinAny.Invariant.{inside, IsConsistent}
use tlpi_exercises.JoinAny.Places.{InRange-here, here_inside, Knows-here}
use tlpi_exercises.JoinAny.Steps.{Reach-IsConsistent}

abbrev CanMove : Shared → List ThreadInfo → Type 0
CanMove s ts = (s' : Shared) × (ts' : List ThreadInfo) × Somewhere s s' ts ts'

behind : {s : Shared} {ts : List ThreadInfo} (t : ThreadInfo) → CanMove s ts → CanMove s (t ∷ ts)
behind t (s', ts', m) = (s', t ∷ ts', there t m)

abbrev SomePlace : Place → Type 0
SomePlace p =
    (p ≡ asleep)
    ⊎ ((p ≡ locked)
        ⊎ ((p ≡ counted)
            ⊎ ((p ≡ released)
                ⊎ ((p ≡ own_locked) ⊎ ((p ≡ stated) ⊎ ((p ≡ to_signal) ⊎ (p ≡ ended)))))))

Place-cases : (p : Place) → SomePlace p
Place-cases asleep = inl refl
Place-cases locked = inr (inl refl)
Place-cases counted = inr (inr (inl refl))
Place-cases released = inr (inr (inr (inl refl)))
Place-cases own_locked = inr (inr (inr (inr (inl refl))))
Place-cases stated = inr (inr (inr (inr (inr (inl refl)))))
Place-cases to_signal = inr (inr (inr (inr (inr (inr (inl refl))))))
Place-cases ended = inr (inr (inr (inr (inr (inr (inr refl))))))

-- A thread that is not at its end can go on, if `mtx` is free where it waits for that, and if the main
-- thread does not have its own mutex where it waits for that.
thread-CanMove :
    (s : Shared) (t : ThreadInfo) (ts : List ThreadInfo)
    → t.place ≢ ended
    → (t.place ≡ asleep → s.mtx_owned ≡ false)
    → (t.place ≡ released → t.main_holds ≡ false)
    → CanMove s (t ∷ ts)
thread-CanMove s t ts going free own_free = elim (Place-cases t.place) [
  | inl e ↦ (_, _, here ts (Work.mutex_lock s t e (free e)))
  | inr (inl e) ↦ (_, _, here ts (Work.count s t e))
  | inr (inr (inl e)) ↦ (_, _, here ts (Work.mutex_unlock s t e))
  | inr (inr (inr (inl e))) ↦ (_, _, here ts (Work.own_mutex_lock s t e (own_free e)))
  | inr (inr (inr (inr (inl e)))) ↦ (_, _, here ts (Work.set_state s t e))
  | inr (inr (inr (inr (inr (inl e))))) ↦ (_, _, here ts (Work.own_mutex_unlock s t e))
  | inr (inr (inr (inr (inr (inr (inl e)))))) ↦ (_, _, here ts (Work.cond_signal s t e))
  | inr (inr (inr (inr (inr (inr (inr e)))))) ↦ absurd (going e)
]

-- A thread that has `mtx` can go on.
holder-CanMove : (s : Shared) (ts : List ThreadInfo) → 0 < total holds_of ts → CanMove s ts
holder-CanMove s [] h = absurd (omega arith)
holder-CanMove s (t ∷ ts) h = elim (Bool-cases (ltb 0 (holds_of t))) [
  | inl e ↦ thread-CanMove s t ts (λ q. ground arith) (λ q. ground arith) (λ q. ground arith)
  | inr e ↦ behind t (holder-CanMove s ts (ground arith))
]

-- A thread that owes a signal can go on, if the main thread has no mutex of a thread.
debtor-CanMove :
    (s : Shared) (ts : List ThreadInfo) → total held_of ts ≡ 0 → 0 < total owes_of ts → CanMove s ts
debtor-CanMove s [] o h = absurd (omega arith)
debtor-CanMove s (t ∷ ts) o h = elim (Bool-cases (ltb 0 (owes_of t))) [
  | inl e ↦ thread-CanMove s t ts (λ q. ground arith) (λ q. ground arith) (λ q. ground arith)
  | inr e ↦ behind t (debtor-CanMove s ts (omega (arith, o)) (ground arith))
]

-- While `mtx` is free, a thread that has not counted itself can go on.
newcomer-CanMove :
    (s : Shared) (ts : List ThreadInfo)
    → s.mtx_owned ≡ false
    → total counts_of ts < length ts
    → CanMove s ts
newcomer-CanMove s [] free h = absurd (omega arith)
newcomer-CanMove s (t ∷ ts) free h = elim (Bool-cases (ltb 0 (counts_of t))) [
  | inl e ↦ behind t (newcomer-CanMove s ts free (omega (arith, counts-pos t.place e)))
  | inr e ↦ thread-CanMove s t ts (λ q. ground arith) (λ q. free) (λ q. ground arith)
]
  where
    counts-pos : (p : Place) → ltb 0 (counts p) ≡ true → 0 < counts p
    counts-pos p e = ground arith

-- The main thread can take the mutex of a thread, or the thread that has it can go on.
Take-or_move :
    (s : Shared) (i : ℕ) (ts : List ThreadInfo)
    → i < length ts
    → ((ts' : List ThreadInfo) × Take i ts ts') ⊎ CanMove s ts
Take-or_move s i [] h = absurd (omega arith)
Take-or_move s zero (t ∷ ts) h = by_place t.place refl
  where
    going : (p : Place) → t.place ≡ p → (p ≡ own_locked) ⊎ (p ≡ stated) → CanMove s (t ∷ ts)
    going p e q = thread-CanMove s t ts (λ r. ground arith) (λ r. ground arith) (λ r. ground arith)

    by_place :
        (p : Place)
        → t.place ≡ p
        → ((ts' : List ThreadInfo) × Take zero (t ∷ ts) ts') ⊎ CanMove s (t ∷ ts)
    by_place own_locked e = inr (going own_locked e (inl refl))
    by_place stated e = inr (going stated e (inr refl))
    by_place asleep e = inl (_, take_here t ts (λ r. ground arith) (λ r. ground arith))
    by_place locked e = inl (_, take_here t ts (λ r. ground arith) (λ r. ground arith))
    by_place counted e = inl (_, take_here t ts (λ r. ground arith) (λ r. ground arith))
    by_place released e = inl (_, take_here t ts (λ r. ground arith) (λ r. ground arith))
    by_place to_signal e = inl (_, take_here t ts (λ r. ground arith) (λ r. ground arith))
    by_place ended e = inl (_, take_here t ts (λ r. ground arith) (λ r. ground arith))
Take-or_move s (suc i) (t ∷ ts) h = elim (Take-or_move s i ts (omega arith)) [
  | inl (ts', m) ↦ inl (t ∷ ts', take_there t m)
  | inr m ↦ inr (behind t m)
]

state-cases : (x : ThreadState) → (x ≡ unjoined) ⊎ (x ≢ unjoined)
state-cases unjoined = inl refl
state-cases joined = inr (λ e. cc)
state-cases alive = inr (λ e. cc)

-- The main thread can join a thread or skip it, or the thread can go on to its end.
Join-or_move :
    (s : Shared) (i : ℕ) (ts : List ThreadInfo)
    → i < length ts
    → AllFit ts
    → ((ts' : List ThreadInfo) × Join i ts ts') ⊎ (Skip i ts ⊎ CanMove s ts)
Join-or_move s i [] h f = absurd (omega arith)
Join-or_move s zero (t ∷ ts) h f = elim (state-cases t.state) [
  | inr e ↦ inr (inl (skip_here t ts e))
  | inl e ↦ unjoined_cases e (Place-cases t.place)
]
  where
    going : t.place ≢ ended → t.place ≢ asleep → t.place ≢ released → CanMove s (t ∷ ts)
    going a b c = thread-CanMove s t ts a (λ r. absurd (b r)) (λ r. absurd (c r))

    unjoined_cases :
        t.state ≡ unjoined
        → SomePlace t.place
        → ((ts' : List ThreadInfo) × Join zero (t ∷ ts) ts')
          ⊎ (Skip zero (t ∷ ts) ⊎ CanMove s (t ∷ ts))
    unjoined_cases e (inl p) = absurd (ground (arith, f.0))
    unjoined_cases e (inr (inl p)) = absurd (ground (arith, f.0))
    unjoined_cases e (inr (inr (inl p))) = absurd (ground (arith, f.0))
    unjoined_cases e (inr (inr (inr (inl p)))) = absurd (ground (arith, f.0))
    unjoined_cases e (inr (inr (inr (inr (inl p))))) = absurd (ground (arith, f.0))
    unjoined_cases e (inr (inr (inr (inr (inr (inl p)))))) =
        inr (inr (going (λ r. ground arith) (λ r. ground arith) (λ r. ground arith)))
    unjoined_cases e (inr (inr (inr (inr (inr (inr (inl p))))))) =
        inr (inr (going (λ r. ground arith) (λ r. ground arith) (λ r. ground arith)))
    unjoined_cases e (inr (inr (inr (inr (inr (inr (inr p))))))) = inl (_, join_here t ts e p)
Join-or_move s (suc i) (t ∷ ts) h f = elim (Join-or_move s i ts (omega arith) f.1) [
  | inl (ts', m) ↦ inl (t ∷ ts', join_there t m)
  | inr (inl m) ↦ inr (inl (skip_there t m))
  | inr (inr m) ↦ inr (inr (behind t m))
]

abbrev pub CanGoOn : Shared → List ThreadInfo → Type 0
CanGoOn s ts = (s' : Shared) × (ts' : List ThreadInfo) × Move s ts s' ts'

module _ (n : ℕ) (s : Shared) (ts : List ThreadInfo) (v : IsConsistent n s ts) where
  of_worker : CanMove s ts → CanGoOn s ts
  of_worker (s', ts', m) = (s', ts', worker m)

  of_main : {s' : Shared} {ts' : List ThreadInfo} → Collect s ts s' ts' → CanGoOn s ts
  of_main {s'} {ts'} m = (s', ts', collector m)

  held_by_worker : inside s.main ≡ 0 → s.mtx_owned ≡ true → CanGoOn s ts
  held_by_worker out held = let e = v.exclusive in of_worker (holder-CanMove s ts (ground arith))

  by_main : (m : Main) → s.main ≡ m → m ≢ finished → CanGoOn s ts
  by_main outside at ne = elim (Bool-cases s.mtx_owned) [
    | inl held ↦ held_by_worker (here_inside s.main outside at).0 held
    | inr free ↦ of_main (Collect.mutex_lock s ts at free)
  ]
  by_main testing at ne = elim (Bool-cases (ltb 0 s.total_unjoined)) [
    | inl some ↦ of_main (Collect.test_fails s ts at (ground arith))
    | inr empty ↦ of_main (Collect.cond_wait s ts at (ground arith))
  ]
  by_main waiting at ne =
      let (i, o) = here_inside s.main waiting at in
      let fewer = Knows-here s.main waiting s.total_joined n at v.knows in
      elim (Bool-cases s.mtx_owned) [
        | inl held ↦ held_by_worker i held
        | inr free ↦ elim (Bool-cases (ltb 0 s.total_unjoined)) [
          | inl some ↦
              of_worker (debtor-CanMove s ts (v.one_own ∙ o) (v.signalled at (ground arith)))
          | inr empty ↦
              let zero_unjoined : s.total_unjoined ≡ 0 = ground arith in
              of_worker (
                newcomer-CanMove s ts free
                  (omega (arith, v.unjoined_count, v.joined_count, v.all, fewer, zero_unjoined)))
        ]
      ]
  by_main woken at ne = elim (Bool-cases s.mtx_owned) [
    | inl held ↦ held_by_worker (here_inside s.main woken at).0 held
    | inr free ↦ of_main (Collect.wait_returns s ts at free)
  ]
  by_main (at_thread k) at ne =
      let r = InRange-here s.main (at_thread k) ts at v.in_range in
      elim (Bool-cases (ltb k (length ts))) [
        | inl within ↦ elim (Take-or_move s k ts (ground arith)) [
          | inl (ts', m) ↦ of_main (Collect.own_mutex_lock s k at m)
          | inr m ↦ of_worker m
        ]
        | inr over ↦
            let last : k ≡ length ts = ground (arith, r) in
            let at_end : s.main ≡ at_thread (length ts) = at ∙ ap at_thread last in
            elim (Bool-cases (s.total_joined == length ts)) [
              | inl all ↦ of_main (Collect.break_out s ts at_end (ground arith))
              | inr more ↦ of_main (Collect.go_on s ts at_end (λ e. ground arith))
            ]
      ]
  by_main (with_thread k) at ne =
      let r = InRange-here s.main (with_thread k) ts at v.in_range in
      elim (Join-or_move s k ts r.0 v.fit) [
        | inl (ts', m) ↦ of_main (Collect.join s k at m)
        | inr (inl m) ↦ of_main (Collect.skip s k at m)
        | inr (inr m) ↦ of_worker m
      ]
  by_main (after_thread k) at ne = of_main (Collect.own_mutex_unlock s ts k at)
  by_main finished at ne = absurd (ne refl)

-- With at least one argument, in every state that is reached and in which the main thread has not left
-- its loop, some thread can go on, without a spurious wake-up: there is no deadlock, although the main
-- thread takes the mutexes of the threads and joins while it holds `mtx`, and no wake-up is lost.
pub Reach-CanGoOn :
    (n : ℕ) {s : Shared} {ts : List ThreadInfo}
    → 0 < n
    → Reach n s ts
    → s.main ≢ finished
    → CanGoOn s ts
Reach-CanGoOn n {s} {ts} some r ne = by_main n s ts (Reach-IsConsistent n some r) s.main refl ne
