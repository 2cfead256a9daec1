-- ===== src/ProdConsumer.antt =====
-- Producers and a consumer over a mutex and a condition variable:
-- 30_Thread_Synchronhization/prod_consumer.c.
--
-- The state is what the threads share, the place of the main thread in its loop with its locals,
-- and the place of each producer with the rounds that it has left. A step is one call of the
-- threads library, or what a thread does between two of them while it holds the mutex. The calls
-- return 0. `pthread_cond_wait` releases the mutex and sleeps in one step; it may wake up without a
-- signal. The model begins when all producers have been created. The arguments are the values of
-- `getNum`, negative ones included; their sum fits an `int`.
pub mod Conservation
pub mod Progress
pub mod Tests
use tlpi_exercises.Prelude.{
  ℕ, suc, ◌+◌, ◌-◌, ◌<◌, ◌≡◌, ℤ, pos, negsuc, ◌+ℤ◌, Bool, true, false, List, [], ◌∷◌, leb,
}

-- `threadFunc`, with the rounds left after this one
pub data Producer : Type 0 where
  idle : ℕ → Producer
  locked : ℕ → Producer
  added : ℕ → Producer
  to_signal : ℕ → Producer

-- The loop of `main`
pub data Consumer : Type 0 where
  outside : Consumer
  testing : Consumer
  asleep : Consumer
  woken : Consumer
  consuming : Consumer
  finished : Consumer

pub record Shared : Type 0 where
  pub avail : ℕ
  pub owned : Bool
  pub consumer : Consumer
  pub num_consumed : ℕ
  pub all_done : Bool

-- `pthread_cond_signal`
abbrev pub wake : Consumer → Consumer
wake outside = outside
wake testing = testing
wake asleep = woken
wake woken = woken
wake consuming = consuming
wake finished = finished

-- One producer.
pub data Produce : Shared → Producer → Shared → Producer → Type 0 where
  mutex_lock :
      (s : Shared) (n : ℕ)
      → s.owned ≡ false
      → Produce s (idle (suc n)) (record s { owned = true }) (locked n)
  add : (s : Shared) (n : ℕ) → Produce s (locked n) (record s { avail = s.avail + 1 }) (added n)
  mutex_unlock :
      (s : Shared) (n : ℕ) → Produce s (added n) (record s { owned = false }) (to_signal n)
  cond_signal :
      (s : Shared) (n : ℕ)
      → Produce s (to_signal n) (record s { consumer = wake s.consumer }) (idle n)

-- One of the producers.
pub data Somewhere (s s' : Shared) : List Producer → List Producer → Type 0 where
  here :
      {p p' : Producer} (ps : List Producer) → Produce s p s' p' → Somewhere s s' (p ∷ ps) (p' ∷ ps)
  there :
      {ps ps' : List Producer} (p : Producer)
      → Somewhere s s' ps ps'
      → Somewhere s s' (p ∷ ps) (p ∷ ps')

-- `numConsumed >= totalRequired`
abbrev pub reached : ℤ → ℕ → Bool
reached (pos n) num_consumed = leb n num_consumed
reached (negsuc n) num_consumed = true

-- The main thread, which needs `total_required` units.
pub data Consume (total_required : ℤ) : Shared → Shared → Type 0 where
  mutex_lock :
      (s : Shared)
      → s.consumer ≡ outside
      → s.owned ≡ false
      → Consume total_required s (record s { consumer = testing; owned = true })
  cond_wait :
      (s : Shared)
      → s.consumer ≡ testing
      → s.avail ≡ 0
      → Consume total_required s (record s { consumer = asleep; owned = false })
  wait_returns :
      (s : Shared)
      → s.consumer ≡ woken
      → s.owned ≡ false
      → Consume total_required s (record s { consumer = testing; owned = true })
  test_fails :
      (s : Shared)
      → s.consumer ≡ testing
      → 0 < s.avail
      → Consume total_required s (record s { consumer = consuming })
  consume :
      (s : Shared)
      → s.consumer ≡ consuming
      → 0 < s.avail
      → Consume total_required s (record s {
        avail = s.avail - 1;
        num_consumed = s.num_consumed + 1;
        all_done = reached total_required (s.num_consumed + 1);
      })
  mutex_unlock :
      (s : Shared)
      → s.consumer ≡ consuming
      → s.avail ≡ 0
      → s.all_done ≡ false
      → Consume total_required s (record s { consumer = outside; owned = false })
  break_out :
      (s : Shared)
      → s.consumer ≡ consuming
      → s.avail ≡ 0
      → s.all_done ≡ true
      → Consume total_required s (record s { consumer = finished; owned = false })

-- What the program does, and a wake-up without a signal.
pub data Move (total_required : ℤ) : Shared → List Producer → Shared → List Producer → Type 0 where
  producer :
      {s s' : Shared} {ps ps' : List Producer}
      → Somewhere s s' ps ps'
      → Move total_required s ps s' ps'
  consumer :
      {s s' : Shared} (ps : List Producer)
      → Consume total_required s s'
      → Move total_required s ps s' ps

pub data Step (total_required : ℤ) : Shared → List Producer → Shared → List Producer → Type 0 where
  move :
      {s s' : Shared} {ps ps' : List Producer}
      → Move total_required s ps s' ps'
      → Step total_required s ps s' ps'
  spurious :
      (s : Shared) (ps : List Producer)
      → s.consumer ≡ asleep
      → Step total_required s ps (record s { consumer = woken }) ps

abbrev pub start : Shared
start = record { avail = 0; owned = false; consumer = outside; num_consumed = 0; all_done = false }

-- The rounds of `threadFunc`: none for a negative argument.
abbrev pub rounds : ℤ → ℕ
rounds (pos n) = n
rounds (negsuc n) = 0

-- One producer for each argument.
abbrev pub start_producers : List ℤ → List Producer
start_producers [] = []
start_producers (n ∷ ns) = idle (rounds n) ∷ start_producers ns

-- `totalRequired`
abbrev pub sum : List ℤ → ℤ
sum [] = pos 0
sum (n ∷ ns) = n +ℤ sum ns

-- The states that the program reaches with these arguments.
pub data Reach (args : List ℤ) : Shared → List Producer → Type 0 where
  begin : Reach args start (start_producers args)
  then_step :
      {s s' : Shared} {ps ps' : List Producer}
      → Reach args s ps
      → Step (sum args) s ps s' ps'
      → Reach args s' ps'
