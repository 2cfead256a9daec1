-- ===== src/ProdConsumer/Tests.antt =====
-- One producer with one unit to make, up to the end of the main loop.
use tlpi_exercises.Prelude.{ℤ, pos, negsuc, ◌+ℤ◌, ◌≡◌, ◌≢◌, refl, true, false, List, [], ◌∷◌, arith}
use tlpi_exercises.ProdConsumer.{
  idle, outside, asleep, finished, Shared, Produce, here, Consume, producer, consumer, move, start,
  sum, Reach, begin, then_step,
}
use tlpi_exercises.ProdConsumer.Conservation.{
  units, total, IsConsistent, Reach-IsConsistent, finished_count, never_finished,
}
use tlpi_exercises.ProdConsumer.Progress.{Moves, Reach-Moves}

abbrev args : List ℤ
args = pos 1 ∷ []

abbrev at_sleep : Shared
at_sleep = record {
  avail = 0;
  owned = false;
  consumer = asleep;
  num_consumed = 0;
  all_done = false;
}

asleep_reached : Reach args at_sleep (idle 1 ∷ [])
asleep_reached =
    then_step (then_step begin (move (consumer _ (Consume.mutex_lock _ refl refl))))
      (move (consumer _ (Consume.cond_wait _ refl refl)))

abbrev made : Shared
made = record { avail = 1; owned = false; consumer = outside; num_consumed = 0; all_done = false }

made_reached : Reach args made (idle 0 ∷ [])
made_reached =
    then_step
      (then_step
        (then_step (then_step begin (move (producer (here [] (Produce.mutex_lock _ 0 refl)))))
          (move (producer (here [] (Produce.add _ 0)))))
        (move (producer (here [] (Produce.mutex_unlock _ 0)))))
      (move (producer (here [] (Produce.cond_signal _ 0))))

abbrev ended : Shared
ended = record { avail = 0; owned = false; consumer = finished; num_consumed = 1; all_done = true }

ended_reached : Reach args ended (idle 0 ∷ [])
unfolding ◌+ℤ◌
ended_reached =
    then_step
      (then_step
        (then_step (then_step made_reached (move (consumer _ (Consume.mutex_lock _ refl refl))))
          (move (consumer _ (Consume.test_fails _ refl (omega arith)))))
        (move (consumer _ (Consume.consume _ refl (omega arith)))))
      (move (consumer _ (Consume.break_out _ refl refl refl)))

Reach-IsConsistent_example : IsConsistent 1 (sum args) made (idle 0 ∷ [])
Reach-IsConsistent_example = Reach-IsConsistent args made_reached

finished_count_example :
    (pos ended.num_consumed ≡ sum args) × (ended.avail ≡ 0) × (total units (idle 0 ∷ []) ≡ 0)
finished_count_example = finished_count args tt ended_reached refl

never_finished_example : start.consumer ≢ finished
never_finished_example = never_finished (negsuc 0 ∷ []) begin refl

Reach-Moves_example : Moves (sum args) at_sleep (idle 1 ∷ [])
Reach-Moves_example = Reach-Moves args asleep_reached (omega arith) (ground arith)
