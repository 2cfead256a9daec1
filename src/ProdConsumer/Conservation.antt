-- ===== src/ProdConsumer/Conservation.antt =====
-- The invariant of the producers and the consumer.
use tlpi_exercises.Prelude.{
  ℕ, ℤ, pos, negsuc, ◌+ℤ◌, ◌+◌, ◌≤◌, ◌<◌, ◌≡◌, ◌≢◌, refl, sym, ap, ◌∙◌, ◌⊎◌, inl, inr, Bool, true,
  false, List, [], ◌∷◌, arith,
}
use tlpi_exercises.ProdConsumer.{
  Producer, idle, locked, added, to_signal, Consumer, outside, testing, asleep, woken, consuming,
  finished, Shared, wake, Produce, Somewhere, here, there, Consume, producer, consumer, Step, move,
  spurious, start_producers, sum, rounds, reached, Reach, begin, then_step,
}

abbrev pub bit : Bool → ℕ
bit true = 1
bit false = 0

-- The units that a producer still has to make, whether it holds the mutex, and whether it owes the
-- consumer a signal.
abbrev pub units : Producer → ℕ
units (idle n) = n
units (locked n) = n + 1
units (added n) = n
units (to_signal n) = n

abbrev pub holds : Producer → ℕ
holds (idle n) = 0
holds (locked n) = 1
holds (added n) = 1
holds (to_signal n) = 0

abbrev pub owes : Producer → ℕ
owes (idle n) = 0
owes (locked n) = 0
owes (added n) = 1
owes (to_signal n) = 1

abbrev pub total : (Producer → ℕ) → List Producer → ℕ
total f [] = 0
total f (p ∷ ps) = f p + total f ps

abbrev pub inside : Consumer → ℕ
inside outside = 0
inside testing = 1
inside asleep = 0
inside woken = 0
inside consuming = 1
inside finished = 0

-- The places in which the last round of the loop did not end it.
abbrev pub going_on : Consumer → Bool
going_on outside = true
going_on testing = true
going_on asleep = true
going_on woken = true
going_on consuming = false
going_on finished = false

abbrev pub is_finished : Consumer → Bool
is_finished outside = false
is_finished testing = false
is_finished asleep = false
is_finished woken = false
is_finished consuming = false
is_finished finished = true

-- The units that all producers make.
abbrev pub asked : List ℤ → ℕ
asked [] = 0
asked (n ∷ ns) = rounds n + asked ns

-- No argument is negative.
abbrev pub AllNatural : List ℤ → Type 0
AllNatural [] = Unit
AllNatural (pos n ∷ ns) = AllNatural ns
AllNatural (negsuc n ∷ ns) = ⊥

-- `all_units` are made in all, and the main thread needs `total_required`.
pub record IsConsistent (all_units : ℕ) (total_required : ℤ) (s : Shared) (ps : List Producer)
    : Type 0 where
  pub conserved : s.num_consumed + s.avail + total units ps ≡ all_units
  pub exclusive : total holds ps + inside s.consumer ≡ bit s.owned
  pub signalled : s.consumer ≡ asleep → 0 < s.avail → 0 < total owes ps
  pub done_needs : s.all_done ≡ true → reached total_required s.num_consumed ≡ true
  pub not_done :
      s.all_done ≡ false → 0 < s.num_consumed → reached total_required s.num_consumed ≡ false
  pub counted : s.all_done ≡ true → 0 < s.num_consumed
  pub between : going_on s.consumer ≡ true → s.all_done ≡ false
  pub at_end : is_finished s.consumer ≡ true → s.all_done ≡ true

-- What a producer's step changes.
record Effect (s s' : Shared) (ps ps' : List Producer) : Type 0 where
  made : s'.avail + total units ps' ≡ s.avail + total units ps
  held : (k : ℕ) → total holds ps + k ≡ bit s.owned → total holds ps' + k ≡ bit s'.owned
  told :
      s'.consumer ≡ asleep
      → (total owes ps ≤ total owes ps') × ((s'.avail ≡ s.avail) ⊎ (0 < total owes ps'))
  same_consumer : (s'.consumer ≡ s.consumer) ⊎ (s.consumer ≡ asleep) × (s'.consumer ≡ woken)
  same_count : s'.num_consumed ≡ s.num_consumed
  same_done : s'.all_done ≡ s.all_done

wake_not_asleep : (c : Consumer) → wake c ≡ asleep → ⊥
wake_not_asleep c h = ground arith

wake_cases : (c : Consumer) → (wake c ≡ c) ⊎ (c ≡ asleep) × (wake c ≡ woken)
wake_cases c = ground arith

Produce-Effect :
    {s s' : Shared} {p p' : Producer} (ps : List Producer)
    → Produce s p s' p'
    → Effect s s' (p ∷ ps) (p' ∷ ps)
Produce-Effect ps (Produce.mutex_lock s n free) = record {
  made = omega arith;
  held = λ k h. ground arith;
  told = λ h. (omega arith, inl refl);
  same_consumer = inl refl;
  same_count = refl;
  same_done = refl;
}
Produce-Effect ps (Produce.add s n) = record {
  made = omega arith;
  held = λ k h. h;
  told = λ h. (omega arith, inr (omega arith));
  same_consumer = inl refl;
  same_count = refl;
  same_done = refl;
}
Produce-Effect ps (Produce.mutex_unlock s n) = record {
  made = refl;
  held = λ k h. ground arith;
  told = λ h. (omega arith, inl refl);
  same_consumer = inl refl;
  same_count = refl;
  same_done = refl;
}
Produce-Effect ps (Produce.cond_signal s n) = record {
  made = refl;
  held = λ k h. h;
  told = λ h. absurd (wake_not_asleep s.consumer h);
  same_consumer = wake_cases s.consumer;
  same_count = refl;
  same_done = refl;
}

Somewhere-Effect :
    {s s' : Shared} {ps ps' : List Producer} → Somewhere s s' ps ps' → Effect s s' ps ps'
Somewhere-Effect (here ps m) = Produce-Effect ps m
Somewhere-Effect (there {ps} {ps'} p m) =
    let e = Somewhere-Effect m in
    let made = e.made in
    record {
      made = omega arith;
      held = λ k h. (let x = e.held (holds p + k) (omega arith) in omega arith);
      told = λ h. (let x = e.told h in (omega arith, told_there (owes p) x.1));
      same_consumer = e.same_consumer;
      same_count = e.same_count;
      same_done = e.same_done;
    }
  where
    told_there : {a b m : ℕ} (k : ℕ) → (a ≡ b) ⊎ (0 < m) → (a ≡ b) ⊎ (0 < k + m)
    told_there k (inl e) = inl e
    told_there k (inr h) = inr (omega arith)

module _ (all_units : ℕ) (total_required : ℤ) where
  Somewhere-IsConsistent :
      {s s' : Shared} {ps ps' : List Producer}
      → Somewhere s s' ps ps'
      → IsConsistent all_units total_required s ps
      → IsConsistent all_units total_required s' ps'
  Somewhere-IsConsistent {s} {s'} {ps} {ps'} m c =
      let e = Somewhere-Effect m in
      record {
        conserved = omega (arith, c.conserved, e.made, e.same_count);
        exclusive = ground (arith, e.held (inside s.consumer) c.exclusive, e.same_consumer);
        signalled = λ h k. ground (arith, e.told h, c.signalled, e.same_consumer);
        done_needs = ground (arith, c.done_needs, e.same_done, e.same_count);
        not_done = ground (arith, c.not_done, e.same_done, e.same_count);
        counted = ground (arith, c.counted, e.same_done, e.same_count);
        between = ground (arith, c.between, e.same_done, e.same_consumer);
        at_end = ground (arith, c.at_end, e.same_done, e.same_consumer);
      }

  Consume-IsConsistent :
      {s s' : Shared} (ps : List Producer)
      → Consume total_required s s'
      → IsConsistent all_units total_required s ps
      → IsConsistent all_units total_required s' ps
  Consume-IsConsistent ps (Consume.mutex_lock s at free) c = record {
    conserved = c.conserved;
    exclusive = ground (arith, c.exclusive);
    signalled = ground arith;
    done_needs = c.done_needs;
    not_done = c.not_done;
    counted = c.counted;
    between = λ h. c.between (ground arith);
    at_end = ground arith;
  }
  Consume-IsConsistent ps (Consume.cond_wait s at empty) c = record {
    conserved = c.conserved;
    exclusive = ground (arith, c.exclusive);
    signalled = ground arith;
    done_needs = c.done_needs;
    not_done = c.not_done;
    counted = c.counted;
    between = λ h. c.between (ground arith);
    at_end = ground arith;
  }
  Consume-IsConsistent ps (Consume.wait_returns s at free) c = record {
    conserved = c.conserved;
    exclusive = ground (arith, c.exclusive);
    signalled = ground arith;
    done_needs = c.done_needs;
    not_done = c.not_done;
    counted = c.counted;
    between = λ h. c.between (ground arith);
    at_end = ground arith;
  }
  Consume-IsConsistent ps (Consume.test_fails s at some_units) c = record {
    conserved = c.conserved;
    exclusive = ground (arith, c.exclusive);
    signalled = ground arith;
    done_needs = c.done_needs;
    not_done = c.not_done;
    counted = c.counted;
    between = ground arith;
    at_end = ground arith;
  }
  Consume-IsConsistent ps (Consume.consume s at some_units) c = record {
    conserved = omega (arith, c.conserved);
    exclusive = c.exclusive;
    signalled = ground arith;
    done_needs = ground arith;
    not_done = ground arith;
    counted = ground arith;
    between = ground arith;
    at_end = ground arith;
  }
  Consume-IsConsistent ps (Consume.mutex_unlock s at empty more) c = record {
    conserved = c.conserved;
    exclusive = ground (arith, c.exclusive);
    signalled = ground arith;
    done_needs = c.done_needs;
    not_done = c.not_done;
    counted = c.counted;
    between = λ h. more;
    at_end = ground arith;
  }
  Consume-IsConsistent ps (Consume.break_out s at empty ended) c = record {
    conserved = c.conserved;
    exclusive = ground (arith, c.exclusive);
    signalled = ground arith;
    done_needs = c.done_needs;
    not_done = c.not_done;
    counted = c.counted;
    between = ground arith;
    at_end = λ h. ended;
  }

  Step-IsConsistent :
      {s s' : Shared} {ps ps' : List Producer}
      → Step total_required s ps s' ps'
      → IsConsistent all_units total_required s ps
      → IsConsistent all_units total_required s' ps'
  Step-IsConsistent (move (producer m)) c = Somewhere-IsConsistent m c
  Step-IsConsistent (move (consumer ps m)) c = Consume-IsConsistent ps m c
  Step-IsConsistent (spurious s ps at) c = record {
    conserved = c.conserved;
    exclusive = ground (arith, c.exclusive);
    signalled = ground arith;
    done_needs = c.done_needs;
    not_done = c.not_done;
    counted = c.counted;
    between = λ h. c.between (ground arith);
    at_end = ground arith;
  }

start_units : (args : List ℤ) → total units (start_producers args) ≡ asked args
start_units [] = refl
start_units (n ∷ ns) = omega (arith, start_units ns)

start_holds : (args : List ℤ) → total holds (start_producers args) ≡ 0
start_holds [] = refl
start_holds (n ∷ ns) = omega (arith, start_holds ns)

-- In every state that is reached: consumed and available units and those still to be made add up to
-- the sum of the arguments that are not negative; the mutex has at most one holder; a consumer that
-- sleeps while units are available is owed a signal, so no wake-up is lost; and once a unit is consumed,
-- `done` is set exactly where the sum of all arguments is reached.
pub Reach-IsConsistent :
    (args : List ℤ) {s : Shared} {ps : List Producer}
    → Reach args s ps
    → IsConsistent (asked args) (sum args) s ps
Reach-IsConsistent args begin = record {
  conserved = omega (arith, start_units args);
  exclusive = omega (arith, start_holds args);
  signalled = ground arith;
  done_needs = ground arith;
  not_done = ground arith;
  counted = ground arith;
  between = λ h. refl;
  at_end = ground arith;
}
Reach-IsConsistent args (then_step r m) =
    Step-IsConsistent (asked args) (sum args) m (Reach-IsConsistent args r)

add_pos : (n m : ℕ) → pos n +ℤ pos m ≡ pos (n + m)
unfolding ◌+ℤ◌
add_pos n m = ground arith

sum-asked : (args : List ℤ) → AllNatural args → sum args ≡ pos (asked args)
sum-asked [] h = refl
sum-asked (pos n ∷ ns) h = ap (λ k. pos n +ℤ k) (sum-asked ns h) ∙ add_pos n (asked ns)
sum-asked (negsuc n ∷ ns) h = absurd h

-- If no argument is negative, then when the main thread leaves its loop, it has consumed exactly the
-- units that the arguments ask for, none is left over, and no producer has one to make.
pub finished_count :
    (args : List ℤ) {s : Shared} {ps : List Producer}
    → AllNatural args
    → Reach args s ps
    → s.consumer ≡ finished
    → (pos s.num_consumed ≡ sum args) × (s.avail ≡ 0) × (total units ps ≡ 0)
finished_count args {s} natural r h =
    let c = Reach-IsConsistent args r in
    let same = sum-asked args natural in
    let enough : reached (pos (asked args)) s.num_consumed ≡ true =
      sym (ap (λ z. reached z s.num_consumed) same) ∙ c.done_needs (c.at_end (ground arith)) in
    let most : asked args ≤ s.num_consumed = ground arith in
    let conserved = c.conserved in (ap pos (omega arith) ∙ sym same, omega arith, omega arith)

-- If no argument is positive, and so if there are none, the main thread never leaves its loop.
pub never_finished :
    (args : List ℤ) {s : Shared} {ps : List Producer}
    → Reach args s ps
    → asked args ≡ 0
    → s.consumer ≢ finished
never_finished args r none_asked h =
    let c = Reach-IsConsistent args r in
    let some_consumed = c.counted (c.at_end (ground arith)) in
    let conserved = c.conserved in omega arith
