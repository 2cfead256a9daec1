-- ===== src/JoinAny/Steps.antt =====
-- Every step keeps the invariant.
use tlpi_exercises.Prelude.{
  ℕ, zero, suc, ◌≤◌, ◌<◌, ◌≡◌, refl, sym, ◌∙◌, List, [], ◌∷◌, length, arith, replicate,
  length-replicate,
}
use tlpi_exercises.JoinAny.{
  ThreadState, joined, Place, ended, ThreadInfo, outside, testing, waiting, woken, at_thread,
  with_thread, after_thread, finished, Shared, Collect, worker, collector, Step, move, spurious,
  start_thread, Reach, begin, then_step,
}
use tlpi_exercises.JoinAny.Counts.{
  is_joined, fits, total, counts_of, holds_of, is_joined_of, held_of, AllFit, Take-Change,
  Join-Change, release-Change, total_joined-le-counts, total_joined-le-length,
}
use tlpi_exercises.JoinAny.Invariant.{IsConsistent}
use tlpi_exercises.JoinAny.Places.{
  Change-same_held, Somewhere-IsConsistent, Knows-here, InRange-here, here_inside,
}

Collect-IsConsistent :
    (n : ℕ) {s s' : Shared} {ts ts' : List ThreadInfo}
    → Collect s ts s' ts'
    → IsConsistent n s ts
    → IsConsistent n s' ts'
Collect-IsConsistent n (Collect.mutex_lock s ts at free) v =
    let (i, o) = here_inside s.main outside at in
    record {
      fit = v.fit;
      all = v.all;
      unjoined_count = v.unjoined_count;
      joined_count = v.joined_count;
      exclusive = ground (arith, v.exclusive);
      signalled = λ w. cc;
      one_own = v.one_own ∙ o;
      in_range = tt;
      knows = Knows-here s.main outside s.total_joined n at v.knows;
    }
Collect-IsConsistent n (Collect.cond_wait s ts at none_left) v =
    let (i, o) = here_inside s.main testing at in
    record {
      fit = v.fit;
      all = v.all;
      unjoined_count = v.unjoined_count;
      joined_count = v.joined_count;
      exclusive = ground (arith, v.exclusive);
      signalled = λ w some. absurd (omega arith);
      one_own = v.one_own ∙ o;
      in_range = tt;
      knows = Knows-here s.main testing s.total_joined n at v.knows;
    }
Collect-IsConsistent n (Collect.wait_returns s ts at free) v =
    let (i, o) = here_inside s.main woken at in
    record {
      fit = v.fit;
      all = v.all;
      unjoined_count = v.unjoined_count;
      joined_count = v.joined_count;
      exclusive = ground (arith, v.exclusive);
      signalled = λ w. cc;
      one_own = v.one_own ∙ o;
      in_range = tt;
      knows = Knows-here s.main woken s.total_joined n at v.knows;
    }
Collect-IsConsistent n (Collect.test_fails s ts at some) v =
    let (i, o) = here_inside s.main testing at in
    record {
      fit = v.fit;
      all = v.all;
      unjoined_count = v.unjoined_count;
      joined_count = v.joined_count;
      exclusive = omega (arith, v.exclusive);
      signalled = λ w. cc;
      one_own = v.one_own ∙ o;
      in_range = omega arith;
      knows = tt;
    }
Collect-IsConsistent n (Collect.own_mutex_lock s {ts} {ts'} k at m) v =
    let (i, o) = here_inside s.main (at_thread k) at in
    let (t, c) = Take-Change m in
    let free : held_of t ≡ 0 = omega (arith, c.part held_of, v.one_own, o) in
    record {
      fit = c.refit v.fit (c.fit v.fit);
      all = c.same_length ∙ v.all;
      unjoined_count = omega (arith, v.unjoined_count, c.totals is_joined_of, c.totals counts_of);
      joined_count = omega (arith, v.joined_count, c.totals is_joined_of);
      exclusive = omega (arith, v.exclusive, i, c.totals holds_of);
      signalled = λ w. cc;
      one_own = omega (arith, v.one_own, o, free, c.totals held_of);
      in_range = (omega (arith, c.inside, c.same_length), c.now);
      knows = tt;
    }
Collect-IsConsistent n (Collect.join s {ts} {ts'} k at m) v =
    let (i, o) = here_inside s.main (with_thread k) at in
    let (t, was, over, c) = Join-Change m in
    let fit : AllFit ts' = c.refit v.fit (ground arith) in
    let was_not : is_joined_of t ≡ 0 = ground arith in
    let r = InRange-here s.main (with_thread k) ts at v.in_range in
    let positive = total_joined-le-counts ts' fit in
    record {
      fit = fit;
      all = c.same_length ∙ v.all;
      unjoined_count =
          omega
            (arith, v.unjoined_count, was_not, c.totals is_joined_of, c.totals counts_of, positive);
      joined_count = omega (arith, v.joined_count, was_not, c.totals is_joined_of);
      exclusive = omega (arith, v.exclusive, i, c.totals holds_of);
      signalled = λ w. cc;
      one_own = omega (arith, v.one_own, o, c.totals held_of);
      in_range = (omega (arith, r.0, c.same_length), Change-same_held c refl k ∙ r.1);
      knows = tt;
    }
Collect-IsConsistent n (Collect.skip s {ts} k at m) v =
    let (i, o) = here_inside s.main (with_thread k) at in
    record {
      fit = v.fit;
      all = v.all;
      unjoined_count = v.unjoined_count;
      joined_count = v.joined_count;
      exclusive = omega (arith, v.exclusive, i);
      signalled = λ w. cc;
      one_own = v.one_own ∙ o;
      in_range = InRange-here s.main (with_thread k) ts at v.in_range;
      knows = tt;
    }
Collect-IsConsistent n (Collect.own_mutex_unlock s ts k at) v =
    let (i, o) = here_inside s.main (after_thread k) at in
    let r = InRange-here s.main (after_thread k) ts at v.in_range in
    let (t, c) = release-Change k ts r.1 in
    let taken : held_of t ≡ 1 = omega (arith, c.here, r.1) in
    record {
      fit = c.refit v.fit (c.fit v.fit);
      all = c.same_length ∙ v.all;
      unjoined_count = omega (arith, v.unjoined_count, c.totals is_joined_of, c.totals counts_of);
      joined_count = omega (arith, v.joined_count, c.totals is_joined_of);
      exclusive = omega (arith, v.exclusive, i, c.totals holds_of);
      signalled = λ w. cc;
      one_own = omega (arith, v.one_own, o, taken, c.totals held_of);
      in_range = omega (arith, r.0, c.same_length);
      knows = tt;
    }
Collect-IsConsistent n (Collect.go_on s ts at more) v =
    let (i, o) = here_inside s.main (at_thread (length ts)) at in
    record {
      fit = v.fit;
      all = v.all;
      unjoined_count = v.unjoined_count;
      joined_count = v.joined_count;
      exclusive = ground (arith, v.exclusive);
      signalled = λ w. cc;
      one_own = v.one_own ∙ o;
      in_range = tt;
      knows = ground (arith, v.all, v.joined_count, total_joined-le-length ts);
    }
Collect-IsConsistent n (Collect.break_out s ts at all_joined) v =
    let (i, o) = here_inside s.main (at_thread (length ts)) at in
    record {
      fit = v.fit;
      all = v.all;
      unjoined_count = v.unjoined_count;
      joined_count = v.joined_count;
      exclusive = ground (arith, v.exclusive);
      signalled = λ w. cc;
      one_own = v.one_own ∙ o;
      in_range = tt;
      knows = omega (arith, v.all, all_joined);
    }

Step-IsConsistent :
    (n : ℕ) {s s' : Shared} {ts ts' : List ThreadInfo}
    → Step s ts s' ts'
    → IsConsistent n s ts
    → IsConsistent n s' ts'
Step-IsConsistent n (move (worker m)) v = Somewhere-IsConsistent n m v
Step-IsConsistent n (move (collector m)) v = Collect-IsConsistent n m v
Step-IsConsistent n (spurious s ts at) v =
    let (i, o) = here_inside s.main waiting at in
    record {
      fit = v.fit;
      all = v.all;
      unjoined_count = v.unjoined_count;
      joined_count = v.joined_count;
      exclusive = omega (arith, v.exclusive, i);
      signalled = λ w. cc;
      one_own = v.one_own ∙ o;
      in_range = tt;
      knows = Knows-here s.main waiting s.total_joined n at v.knows;
    }

start-AllFit : (n : ℕ) → AllFit (replicate n start_thread)
start-AllFit zero = tt
start-AllFit (suc n) = (refl, start-AllFit n)

start-total :
    (f : ThreadInfo → ℕ) → f start_thread ≡ 0 → (n : ℕ) → total f (replicate n start_thread) ≡ 0
start-total f h zero = refl
start-total f h (suc n) = omega (arith, h, start-total f h n)

pub Reach-IsConsistent :
    (n : ℕ) {s : Shared} {ts : List ThreadInfo} → 0 < n → Reach n s ts → IsConsistent n s ts
Reach-IsConsistent n some begin = record {
  fit = start-AllFit n;
  all = length-replicate n start_thread;
  unjoined_count = omega (arith, start-total is_joined_of refl n, start-total counts_of refl n);
  joined_count = sym (start-total is_joined_of refl n);
  exclusive = omega (arith, start-total holds_of refl n);
  signalled = λ w. cc;
  one_own = start-total held_of refl n;
  in_range = tt;
  knows = some;
}
Reach-IsConsistent n some (then_step r step) =
    Step-IsConsistent n step (Reach-IsConsistent n some r)

abbrev pub AllJoined : List ThreadInfo → Type 0
AllJoined [] = Unit
AllJoined (t ∷ ts) = (t.state ≡ joined) × (t.place ≡ ended) × AllJoined ts

is_joined_cases :
    (x : ThreadState) (p : Place) → fits x p ≡ 1 → is_joined x ≡ 1 → (x ≡ joined) × (p ≡ ended)
is_joined_cases x p f h = ground arith

AllJoined-of_total :
    (ts : List ThreadInfo) → AllFit ts → total is_joined_of ts ≡ length ts → AllJoined ts
AllJoined-of_total [] a h = tt
AllJoined-of_total (t ∷ ts) a h =
    let at_most : is_joined t.state ≤ 1 = ground arith in
    let here =
      is_joined_cases t.state t.place a.0 (omega (arith, total_joined-le-length ts, at_most)) in
    (here.0, here.1, AllJoined-of_total ts a.1 (omega (arith, total_joined-le-length ts, at_most)))

-- With at least one argument, in every state that is reached and in which the main thread has left its
-- loop: each of as many threads as there are arguments has ended and is joined, `total_joined` is
-- their number and `total_unjoined` is 0.
pub finished-AllJoined :
    (n : ℕ) {s : Shared} {ts : List ThreadInfo}
    → 0 < n
    → Reach n s ts
    → s.main ≡ finished
    → (length ts ≡ n) × AllJoined ts × (s.total_joined ≡ n) × (s.total_unjoined ≡ 0)
finished-AllJoined n {s} {ts} some r at =
    let v = Reach-IsConsistent n some r in
    let total_n : s.total_joined ≡ n = Knows-here s.main finished s.total_joined n at v.knows in
    let all = AllJoined-of_total ts v.fit (omega (arith, v.joined_count, total_n, v.all)) in
    (
      v.all,
      all,
      total_n,
      omega (arith, v.unjoined_count, total_counts ts all, v.joined_count, total_n, v.all),
    )
  where
    total_counts : (ts : List ThreadInfo) → AllJoined ts → total counts_of ts ≡ length ts
    total_counts [] a = refl
    total_counts (t ∷ ts) a = ground (arith, a.1, total_counts ts a.2)
