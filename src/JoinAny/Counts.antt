-- ===== src/JoinAny/Counts.antt =====
-- Sums over the threads, and the change of one of them.
use tlpi_exercises.Prelude.{
  ℕ, zero, suc, ◌+◌, ◌≤◌, ◌<◌, ◌≡◌, ◌≢◌, refl, ap, Bool, true, false, List, [], ◌∷◌, length, arith,
}
use tlpi_exercises.JoinAny.{
  ThreadState, unjoined, joined, alive, Place, asleep, locked, counted, released, own_locked,
  stated, to_signal, ended, ThreadInfo, Take, take_here, take_there, Join, join_here, join_there,
  release,
}

abbrev pub bit : Bool → ℕ
bit true = 1
bit false = 0

-- Whether the thread has counted itself in `total_unjoined`.
abbrev pub counts : Place → ℕ
counts asleep = 0
counts locked = 0
counts counted = 1
counts released = 1
counts own_locked = 1
counts stated = 1
counts to_signal = 1
counts ended = 1

-- Whether it has `mtx`.
abbrev pub holds : Place → ℕ
holds asleep = 0
holds locked = 1
holds counted = 1
holds released = 0
holds own_locked = 0
holds stated = 0
holds to_signal = 0
holds ended = 0

-- Whether it has counted itself and owes the main thread a signal.
abbrev pub owes : Place → ℕ
owes asleep = 0
owes locked = 0
owes counted = 1
owes released = 1
owes own_locked = 1
owes stated = 1
owes to_signal = 1
owes ended = 0

abbrev pub is_joined : ThreadState → ℕ
is_joined unjoined = 0
is_joined joined = 1
is_joined alive = 0

-- The places of a thread in a state.
abbrev pub fits : ThreadState → Place → ℕ
fits unjoined p = elim p [
  | asleep ↦ 0
  | locked ↦ 0
  | counted ↦ 0
  | released ↦ 0
  | own_locked ↦ 0
  | _ ↦ 1
]
fits joined p = elim p [ ended ↦ 1 | _ ↦ 0 ]
fits alive p = elim p [ stated ↦ 0 | to_signal ↦ 0 | ended ↦ 0 | _ ↦ 1 ]

abbrev pub total : (ThreadInfo → ℕ) → List ThreadInfo → ℕ
total f [] = 0
total f (t ∷ ts) = f t + total f ts

abbrev pub counts_of : ThreadInfo → ℕ
counts_of t = counts t.place

abbrev pub holds_of : ThreadInfo → ℕ
holds_of t = holds t.place

abbrev pub owes_of : ThreadInfo → ℕ
owes_of t = owes t.place

abbrev pub is_joined_of : ThreadInfo → ℕ
is_joined_of t = is_joined t.state

-- Whether the main thread has the mutex of the thread.
abbrev pub held_of : ThreadInfo → ℕ
held_of t = bit t.main_holds

abbrev pub held_at : ℕ → List ThreadInfo → ℕ
held_at i [] = 0
held_at zero (t ∷ ts) = held_of t
held_at (suc i) (t ∷ ts) = held_at i ts

abbrev pub AllFit : List ThreadInfo → Type 0
AllFit [] = Unit
AllFit (t ∷ ts) = (fits t.state t.place ≡ 1) × AllFit ts

-- The list with `t` at an index, and with `t'` there.
pub record Change (i : ℕ) (t t' : ThreadInfo) (ts ts' : List ThreadInfo) : Type 0 where
  pub totals : (f : ThreadInfo → ℕ) → total f ts' + f t ≡ total f ts + f t'
  pub part : (f : ThreadInfo → ℕ) → f t ≤ total f ts
  pub inside : i < length ts
  pub same_length : length ts' ≡ length ts
  pub fit : AllFit ts → fits t.state t.place ≡ 1
  pub refit : AllFit ts → fits t'.state t'.place ≡ 1 → AllFit ts'
  pub here : held_at i ts ≡ held_of t
  pub now : held_at i ts' ≡ held_of t'
  pub others : (k : ℕ) → k ≢ i → held_at k ts' ≡ held_at k ts

pub Change-here : (t t' : ThreadInfo) (ts : List ThreadInfo) → Change 0 t t' (t ∷ ts) (t' ∷ ts)
Change-here t t' ts = record {
  totals = λ f. omega arith;
  part = λ f. omega arith;
  inside = omega arith;
  same_length = refl;
  fit = λ a. a.0;
  refit = λ a e. (e, a.1);
  here = refl;
  now = refl;
  others = elsewhere;
}
  where
    elsewhere : (k : ℕ) → k ≢ 0 → held_at k (t' ∷ ts) ≡ held_at k (t ∷ ts)
    elsewhere zero h = absurd (h refl)
    elsewhere (suc k) h = refl

pub Change-there :
    {i : ℕ} {t t' : ThreadInfo} {ts ts' : List ThreadInfo} (u : ThreadInfo)
    → Change i t t' ts ts'
    → Change (suc i) t t' (u ∷ ts) (u ∷ ts')
Change-there {i} {t} {t'} {ts} {ts'} u c = record {
  totals = λ f. omega (arith, c.totals f);
  part = λ f. omega (arith, c.part f);
  inside = omega (arith, c.inside);
  same_length = ap suc c.same_length;
  fit = λ a. c.fit a.1;
  refit = λ a e. (a.0, c.refit a.1 e);
  here = c.here;
  now = c.now;
  others = elsewhere;
}
  where
    elsewhere : (k : ℕ) → k ≢ suc i → held_at k (u ∷ ts') ≡ held_at k (u ∷ ts)
    elsewhere zero h = refl
    elsewhere (suc k) h = c.others k (λ e. h (ap suc e))

pub Take-Change :
    {i : ℕ} {ts ts' : List ThreadInfo}
    → Take i ts ts'
    → (t : ThreadInfo) × Change i t (record t { main_holds = true }) ts ts'
Take-Change (take_here t ts a b) = (t, Change-here t (record t { main_holds = true }) ts)
Take-Change (take_there u m) = let (t, c) = Take-Change m in (t, Change-there u c)

pub Join-Change :
    {i : ℕ} {ts ts' : List ThreadInfo}
    → Join i ts ts'
    → (t : ThreadInfo) × (t.state ≡ unjoined)
      × (t.place ≡ ended)
      × Change i t (record t { state = joined }) ts ts'
Join-Change (join_here t ts a b) = (t, a, b, Change-here t (record t { state = joined }) ts)
Join-Change (join_there u m) = let (t, a, b, c) = Join-Change m in (t, a, b, Change-there u c)

-- Releasing the mutex of a thread that has it.
pub release-Change :
    (i : ℕ) (ts : List ThreadInfo)
    → held_at i ts ≡ 1
    → (t : ThreadInfo) × Change i t (record t { main_holds = false }) ts (release i ts)
unfolding release
release-Change i [] h = absurd (omega arith)
release-Change zero (t ∷ ts) h = (t, Change-here t (record t { main_holds = false }) ts)
release-Change (suc i) (u ∷ ts) h = let (t, c) = release-Change i ts h in (t, Change-there u c)

is_joined-le-counts : (x : ThreadState) (p : Place) → fits x p ≡ 1 → is_joined x ≤ counts p
is_joined-le-counts x p e = ground arith

pub total_joined-le-counts :
    (ts : List ThreadInfo) → AllFit ts → total is_joined_of ts ≤ total counts_of ts
total_joined-le-counts [] a = omega arith
total_joined-le-counts (t ∷ ts) a =
    omega (arith, is_joined-le-counts t.state t.place a.0, total_joined-le-counts ts a.1)

pub total_joined-le-length : (ts : List ThreadInfo) → total is_joined_of ts ≤ length ts
total_joined-le-length [] = omega arith
total_joined-le-length (t ∷ ts) = ground (arith, total_joined-le-length ts)
