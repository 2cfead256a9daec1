-- ===== src/JoinAny.antt =====
-- A main thread that joins with each of its threads as it ends:
-- 30_Thread_Synchronhization/join_any.c.
--
-- The state is what the threads share, the place of the main thread in its loop with its locals, and
-- for each thread its entry in `thread_list` and its place in `thread_func`. A step is one call of the
-- threads library, or what a thread does between two of them while it holds a mutex. The calls return
-- 0. `pthread_cond_wait` releases `mtx` and sleeps in one step; it may wake up without a signal.
-- `pthread_join` returns when the thread has ended. The model begins when all threads exist.
pub mod Counts
pub mod Invariant
pub mod Places
pub mod Steps
pub mod Progress
mod Tests
use tlpi_exercises.Prelude.{
  ℕ, zero, suc, ◌+◌, ◌-◌, ◌<◌, ◌≡◌, ◌≢◌, Bool, true, false, List, [], ◌∷◌, length, replicate,
}

pub data ThreadState : Type 0 where
  unjoined : ThreadState
  joined : ThreadState
  alive : ThreadState

-- The places in `thread_func`: before the lock of `mtx`; with it, before and after the increment;
-- without it; with the thread's own mutex, before and after the change of `state`; before the signal;
-- at the end.
pub data Place : Type 0 where
  asleep : Place
  locked : Place
  counted : Place
  released : Place
  own_locked : Place
  stated : Place
  to_signal : Place
  ended : Place

-- `ThreadInfo`: `main_holds` is whether the main thread has the thread's own mutex.
pub record ThreadInfo : Type 0 where
  pub state : ThreadState
  pub main_holds : Bool
  pub place : Place

-- The places in the loop of `main`, with the index of the loop inside.
pub data Main : Type 0 where
  outside : Main
  testing : Main
  waiting : Main
  woken : Main
  at_thread : ℕ → Main
  with_thread : ℕ → Main
  after_thread : ℕ → Main
  finished : Main

-- `mtx_owned` is whether any thread has `mtx`.
pub record Shared : Type 0 where
  pub mtx_owned : Bool
  pub total_unjoined : ℕ
  pub total_joined : ℕ
  pub main : Main

-- `pthread_cond_signal`
abbrev pub wake : Main → Main
wake outside = outside
wake testing = testing
wake waiting = woken
wake woken = woken
wake (at_thread i) = at_thread i
wake (with_thread i) = with_thread i
wake (after_thread i) = after_thread i
wake finished = finished

-- One thread in `thread_func`.
pub data Work : Shared → ThreadInfo → Shared → ThreadInfo → Type 0 where
  mutex_lock :
      (s : Shared) (t : ThreadInfo)
      → t.place ≡ asleep
      → s.mtx_owned ≡ false
      → Work s t (record s { mtx_owned = true }) (record t { place = locked })
  count :
      (s : Shared) (t : ThreadInfo)
      → t.place ≡ locked
      → Work s t (record s { total_unjoined = s.total_unjoined + 1 }) (record t { place = counted })
  mutex_unlock :
      (s : Shared) (t : ThreadInfo)
      → t.place ≡ counted
      → Work s t (record s { mtx_owned = false }) (record t { place = released })
  own_mutex_lock :
      (s : Shared) (t : ThreadInfo)
      → t.place ≡ released
      → t.main_holds ≡ false
      → Work s t s (record t { place = own_locked })
  set_state :
      (s : Shared) (t : ThreadInfo)
      → t.place ≡ own_locked
      → Work s t s (record t { state = unjoined; place = stated })
  own_mutex_unlock :
      (s : Shared) (t : ThreadInfo) → t.place ≡ stated → Work s t s (record t { place = to_signal })
  cond_signal :
      (s : Shared) (t : ThreadInfo)
      → t.place ≡ to_signal
      → Work s t (record s { main = wake s.main }) (record t { place = ended })

-- One of the threads.
pub data Somewhere (s s' : Shared) : List ThreadInfo → List ThreadInfo → Type 0 where
  here :
      {t t' : ThreadInfo} (ts : List ThreadInfo)
      → Work s t s' t'
      → Somewhere s s' (t ∷ ts) (t' ∷ ts)
  there :
      {ts ts' : List ThreadInfo} (t : ThreadInfo)
      → Somewhere s s' ts ts'
      → Somewhere s s' (t ∷ ts) (t ∷ ts')

-- The mutex of the thread with an index is taken by the main thread.
pub data Take : ℕ → List ThreadInfo → List ThreadInfo → Type 0 where
  take_here :
      (t : ThreadInfo) (ts : List ThreadInfo)
      → t.place ≢ own_locked
      → t.place ≢ stated
      → Take zero (t ∷ ts) (record t { main_holds = true } ∷ ts)
  take_there :
      {i : ℕ} {ts ts' : List ThreadInfo} (t : ThreadInfo)
      → Take i ts ts'
      → Take (suc i) (t ∷ ts) (t ∷ ts')

-- The thread with an index is joined, and `state` changed.
pub data Join : ℕ → List ThreadInfo → List ThreadInfo → Type 0 where
  join_here :
      (t : ThreadInfo) (ts : List ThreadInfo)
      → t.state ≡ unjoined
      → t.place ≡ ended
      → Join zero (t ∷ ts) (record t { state = joined } ∷ ts)
  join_there :
      {i : ℕ} {ts ts' : List ThreadInfo} (t : ThreadInfo)
      → Join i ts ts'
      → Join (suc i) (t ∷ ts) (t ∷ ts')

-- The state of the thread with an index is another than `unjoined`.
pub data Skip : ℕ → List ThreadInfo → Type 0 where
  skip_here : (t : ThreadInfo) (ts : List ThreadInfo) → t.state ≢ unjoined → Skip zero (t ∷ ts)
  skip_there : {i : ℕ} {ts : List ThreadInfo} (t : ThreadInfo) → Skip i ts → Skip (suc i) (t ∷ ts)

-- The mutex of the thread with an index is released by the main thread.
unfoldable pub release : ℕ → List ThreadInfo → List ThreadInfo
release i [] = []
release zero (t ∷ ts) = record t { main_holds = false } ∷ ts
release (suc i) (t ∷ ts) = t ∷ release i ts

-- The main thread.
pub data Collect : Shared → List ThreadInfo → Shared → List ThreadInfo → Type 0 where
  mutex_lock :
      (s : Shared) (ts : List ThreadInfo)
      → s.main ≡ outside
      → s.mtx_owned ≡ false
      → Collect s ts (record s { main = testing; mtx_owned = true }) ts
  cond_wait :
      (s : Shared) (ts : List ThreadInfo)
      → s.main ≡ testing
      → s.total_unjoined ≡ 0
      → Collect s ts (record s { main = waiting; mtx_owned = false }) ts
  wait_returns :
      (s : Shared) (ts : List ThreadInfo)
      → s.main ≡ woken
      → s.mtx_owned ≡ false
      → Collect s ts (record s { main = testing; mtx_owned = true }) ts
  test_fails :
      (s : Shared) (ts : List ThreadInfo)
      → s.main ≡ testing
      → 0 < s.total_unjoined
      → Collect s ts (record s { main = at_thread 0 }) ts
  own_mutex_lock :
      (s : Shared) {ts ts' : List ThreadInfo} (i : ℕ)
      → s.main ≡ at_thread i
      → Take i ts ts'
      → Collect s ts (record s { main = with_thread i }) ts'
  join :
      (s : Shared) {ts ts' : List ThreadInfo} (i : ℕ)
      → s.main ≡ with_thread i
      → Join i ts ts'
      → Collect s ts
          (record s {
            main = after_thread i;
            total_unjoined = s.total_unjoined - 1;
            total_joined = s.total_joined + 1;
          })
          ts'
  skip :
      (s : Shared) {ts : List ThreadInfo} (i : ℕ)
      → s.main ≡ with_thread i
      → Skip i ts
      → Collect s ts (record s { main = after_thread i }) ts
  own_mutex_unlock :
      (s : Shared) (ts : List ThreadInfo) (i : ℕ)
      → s.main ≡ after_thread i
      → Collect s ts (record s { main = at_thread (i + 1) }) (release i ts)
  go_on :
      (s : Shared) (ts : List ThreadInfo)
      → s.main ≡ at_thread (length ts)
      → s.total_joined ≢ length ts
      → Collect s ts (record s { main = outside; mtx_owned = false }) ts
  break_out :
      (s : Shared) (ts : List ThreadInfo)
      → s.main ≡ at_thread (length ts)
      → s.total_joined ≡ length ts
      → Collect s ts (record s { main = finished; mtx_owned = false }) ts

-- What the program does, and a wake-up without a signal.
pub data Move : Shared → List ThreadInfo → Shared → List ThreadInfo → Type 0 where
  worker : {s s' : Shared} {ts ts' : List ThreadInfo} → Somewhere s s' ts ts' → Move s ts s' ts'
  collector : {s s' : Shared} {ts ts' : List ThreadInfo} → Collect s ts s' ts' → Move s ts s' ts'

pub data Step : Shared → List ThreadInfo → Shared → List ThreadInfo → Type 0 where
  move : {s s' : Shared} {ts ts' : List ThreadInfo} → Move s ts s' ts' → Step s ts s' ts'
  spurious :
      (s : Shared) (ts : List ThreadInfo)
      → s.main ≡ waiting
      → Step s ts (record s { main = woken }) ts

abbrev pub start : Shared
start = record { mtx_owned = false; total_unjoined = 0; total_joined = 0; main = outside }

abbrev pub start_thread : ThreadInfo
start_thread = record { state = alive; main_holds = false; place = asleep }

-- The states that the program reaches with so many arguments.
pub data Reach (total_threads : ℕ) : Shared → List ThreadInfo → Type 0 where
  begin : Reach total_threads start (replicate total_threads start_thread)
  then_step :
      {s s' : Shared} {ts ts' : List ThreadInfo}
      → Reach total_threads s ts
      → Step s ts s' ts'
      → Reach total_threads s' ts'
