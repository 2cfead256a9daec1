-- ===== src/ProdConsumer/Progress.antt =====
-- The program is never stuck before the main thread has what it needs.
use tlpi_exercises.Prelude.{
  ℕ, ℤ, pos, negsuc, pos_part, neg_part, parts-+ℤ, ◌⊎◌, ◌+ℤ◌, ◌+◌, ◌≤◌, zero, suc, ◌<◌, ◌≡◌, ◌≢◌,
  refl, inl, inr, true, false, List, [], ◌∷◌, arith, Bool-cases, ltb,
}
use tlpi_exercises.ProdConsumer.{
  Producer, idle, locked, added, to_signal, Consumer, outside, testing, asleep, woken, consuming,
  finished, Shared, Produce, Somewhere, here, there, Consume, Move, producer, consumer, sum, rounds,
  reached, Reach,
}
use tlpi_exercises.ProdConsumer.Conservation.{
  asked, units, holds, owes, total, inside, IsConsistent, Reach-IsConsistent,
}

abbrev CanMove : Shared → List Producer → Type 0
CanMove s ps = (s' : Shared) × (ps' : List Producer) × Somewhere s s' ps ps'

behind : {s : Shared} {ps : List Producer} (p : Producer) → CanMove s ps → CanMove s (p ∷ ps)
behind p (s', ps', m) = (s', p ∷ ps', there p m)

-- A producer that holds the mutex can go on.
holder-CanMove : (s : Shared) (ps : List Producer) → 0 < total holds ps → CanMove s ps
holder-CanMove s [] h = absurd (omega arith)
holder-CanMove s (idle n ∷ ps) h = behind (idle n) (holder-CanMove s ps (omega arith))
holder-CanMove s (locked n ∷ ps) h = (_, _, here ps (Produce.add s n))
holder-CanMove s (added n ∷ ps) h = (_, _, here ps (Produce.mutex_unlock s n))
holder-CanMove s (to_signal n ∷ ps) h = behind (to_signal n) (holder-CanMove s ps (omega arith))

-- A producer that owes a signal can go on.
debtor-CanMove : (s : Shared) (ps : List Producer) → 0 < total owes ps → CanMove s ps
debtor-CanMove s [] h = absurd (omega arith)
debtor-CanMove s (idle n ∷ ps) h = behind (idle n) (debtor-CanMove s ps (omega arith))
debtor-CanMove s (locked n ∷ ps) h = behind (locked n) (debtor-CanMove s ps (omega arith))
debtor-CanMove s (added n ∷ ps) h = (_, _, here ps (Produce.mutex_unlock s n))
debtor-CanMove s (to_signal n ∷ ps) h = (_, _, here ps (Produce.cond_signal s n))

-- While the mutex is free, a producer with units to make can go on.
maker-CanMove :
    (s : Shared) (ps : List Producer) → s.owned ≡ false → 0 < total units ps → CanMove s ps
maker-CanMove s [] free h = absurd (omega arith)
maker-CanMove s (idle zero ∷ ps) free h = behind (idle zero) (maker-CanMove s ps free (omega arith))
maker-CanMove s (idle (suc n) ∷ ps) free h = (_, _, here ps (Produce.mutex_lock s n free))
maker-CanMove s (locked n ∷ ps) free h = (_, _, here ps (Produce.add s n))
maker-CanMove s (added n ∷ ps) free h = (_, _, here ps (Produce.mutex_unlock s n))
maker-CanMove s (to_signal n ∷ ps) free h = (_, _, here ps (Produce.cond_signal s n))

abbrev pub Moves : ℤ → Shared → List Producer → Type 0
Moves total_required s ps = (s' : Shared) × (ps' : List Producer) × Move total_required s ps s' ps'

part-add : (a b : ℤ) → pos_part (a +ℤ b) ≤ pos_part a + pos_part b
part-add a b = omega (arith, parts-+ℤ a b, one_part a, one_part b, one_part (a +ℤ b))
  where
    one_part : (z : ℤ) → (pos_part z ≡ 0) ⊎ (neg_part z ≡ 0)
    one_part z = ground arith

rounds-part : (z : ℤ) → pos_part z ≡ rounds z
rounds-part (pos n) = refl
rounds-part (negsuc n) = refl

sum-le : (args : List ℤ) → pos_part (sum args) ≤ asked args
sum-le [] = omega arith
sum-le (n ∷ ns) = omega (arith, part-add n (sum ns), rounds-part n, sum-le ns)

part-reached : (z : ℤ) (k : ℕ) → reached z k ≡ false → k < pos_part z
part-reached z k h = ground arith

-- The main thread needs no more than what is made.
sum-reached : (args : List ℤ) (k : ℕ) → reached (sum args) k ≡ false → k < asked args
sum-reached args k h = omega (arith, part-reached (sum args) k h, sum-le args)

module _ (all_units : ℕ) (n : ℤ) (s : Shared) (ps : List Producer)
    (c : IsConsistent all_units n s ps)
    (covered : (k : ℕ) → reached n k ≡ false → k < all_units) where
  of_producer : CanMove s ps → Moves n s ps
  of_producer (s', ps', m) = (s', ps', producer m)

  of_consumer : (s' : Shared) → Consume n s s' → Moves n s ps
  of_consumer s' m = (s', ps, consumer ps m)

  held_by_producer : inside s.consumer ≡ 0 → s.owned ≡ true → Moves n s ps
  held_by_producer out held =
      let e = c.exclusive in of_producer (holder-CanMove s ps (ground arith))

  still_short : s.all_done ≡ false → 0 < all_units → s.num_consumed < all_units
  still_short open_round needed = elim (Bool-cases (ltb 0 s.num_consumed)) [
    | inl some_units ↦ covered s.num_consumed (c.not_done open_round (ground arith))
    | inr none_yet ↦ ground arith
  ]

  sleeper : 0 < all_units → s.consumer ≡ asleep → s.owned ≡ false → Moves n s ps
  sleeper needed at free = elim (Bool-cases (ltb 0 s.avail)) [
    | inl some_units ↦ of_producer (debtor-CanMove s ps (c.signalled at (ground arith)))
    | inr empty ↦
        let conserved = c.conserved in
        let open_round : s.all_done ≡ false = c.between (ground arith) in
        let short : s.num_consumed < all_units = still_short open_round needed in
        of_producer (maker-CanMove s ps free (ground arith))
  ]

  by_place : 0 < all_units → (p : Consumer) → s.consumer ≡ p → p ≢ finished → Moves n s ps
  by_place needed outside at ne = elim (Bool-cases s.owned) [
    | inl held ↦ held_by_producer (ground arith) held
    | inr free ↦ of_consumer _ (Consume.mutex_lock s at free)
  ]
  by_place needed testing at ne = elim (Bool-cases (ltb 0 s.avail)) [
    | inl some_units ↦ of_consumer _ (Consume.test_fails s at (ground arith))
    | inr empty ↦ of_consumer _ (Consume.cond_wait s at (ground arith))
  ]
  by_place needed asleep at ne = elim (Bool-cases s.owned) [
    | inl held ↦ held_by_producer (ground arith) held
    | inr free ↦ sleeper needed at free
  ]
  by_place needed woken at ne = elim (Bool-cases s.owned) [
    | inl held ↦ held_by_producer (ground arith) held
    | inr free ↦ of_consumer _ (Consume.wait_returns s at free)
  ]
  by_place needed consuming at ne = elim (Bool-cases (ltb 0 s.avail)) [
    | inl some_units ↦ of_consumer _ (Consume.consume s at (ground arith))
    | inr empty ↦ elim (Bool-cases s.all_done) [
      | inl ended ↦ of_consumer _ (Consume.break_out s at (ground arith) ended)
      | inr more ↦ of_consumer _ (Consume.mutex_unlock s at (ground arith) more)
    ]
  ]
  by_place needed finished at ne = absurd (ne refl)

-- If some argument is positive, then in every state that is reached and in which the main thread has
-- not left its loop, some thread can go on, without a spurious wake-up.
pub Reach-Moves :
    (args : List ℤ) {s : Shared} {ps : List Producer}
    → Reach args s ps
    → 0 < asked args
    → s.consumer ≢ finished
    → Moves (sum args) s ps
Reach-Moves args {s} {ps} r needed ne =
    by_place (asked args) (sum args) s ps (Reach-IsConsistent args r) (sum-reached args) needed
      s.consumer refl ne
