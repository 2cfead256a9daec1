-- ===== src/JoinAny/Tests.antt =====
-- One thread, up to the end of the main loop.
use tlpi_exercises.Prelude.{ℕ, ◌≡◌, refl, Bool, false, [], ◌∷◌, length, arith}
use tlpi_exercises.JoinAny.{
  ThreadState, unjoined, joined, alive, Place, released, ended, ThreadInfo, Main, waiting, woken,
  finished, Shared, Work, here, take_here, join_here, release, Collect, worker, collector, move,
  Reach, begin, then_step,
}
use tlpi_exercises.JoinAny.Steps.{AllJoined, finished-AllJoined}
use tlpi_exercises.JoinAny.Progress.{CanGoOn, Reach-CanGoOn}

abbrev thread : ThreadState → Place → ThreadInfo
thread state place = record { state = state; main_holds = false; place = place }

abbrev shared : Bool → ℕ → ℕ → Main → Shared
shared owned count done main = record {
  mtx_owned = owned;
  total_unjoined = count;
  total_joined = done;
  main = main;
}

-- The main thread sleeps, and the thread has counted itself.
counted_reached : Reach 1 (shared false 1 0 waiting) (thread alive released ∷ [])
counted_reached =
    then_step
      (then_step
        (then_step
          (then_step (then_step begin (move (collector (Collect.mutex_lock _ _ refl refl))))
            (move (collector (Collect.cond_wait _ _ refl refl))))
          (move (worker (here [] (Work.mutex_lock _ _ refl refl)))))
        (move (worker (here [] (Work.count _ _ refl)))))
      (move (worker (here [] (Work.mutex_unlock _ _ refl))))

signalled_reached : Reach 1 (shared false 1 0 woken) (thread unjoined ended ∷ [])
signalled_reached =
    then_step
      (then_step
        (then_step
          (then_step counted_reached (move (worker (here [] (Work.own_mutex_lock _ _ refl refl)))))
          (move (worker (here [] (Work.set_state _ _ refl)))))
        (move (worker (here [] (Work.own_mutex_unlock _ _ refl)))))
      (move (worker (here [] (Work.cond_signal _ _ refl))))

finished_reached : Reach 1 (shared false 0 1 finished) (thread joined ended ∷ [])
unfolding release
finished_reached =
    then_step
      (then_step
        (then_step
          (then_step
            (then_step
              (then_step signalled_reached (move (collector (Collect.wait_returns _ _ refl refl))))
              (move (collector (Collect.test_fails _ _ refl (omega arith)))))
            (move (
              collector (
                Collect.own_mutex_lock _ 0 refl
                  (take_here (thread unjoined ended) [] (λ e. cc) (λ e. cc))))))
          (move (collector (Collect.join _ 0 refl (join_here _ [] refl refl)))))
        (move (collector (Collect.own_mutex_unlock _ _ 0 refl))))
      (move (collector (Collect.break_out _ _ refl refl)))

finished-AllJoined_example :
    (length (thread joined ended ∷ []) ≡ 1)
    × AllJoined (thread joined ended ∷ [])
    × ((shared false 0 1 finished).total_joined ≡ 1)
    × ((shared false 0 1 finished).total_unjoined ≡ 0)
finished-AllJoined_example = finished-AllJoined 1 (omega arith) finished_reached refl

Reach-CanGoOn_example : CanGoOn (shared false 1 0 waiting) (thread alive released ∷ [])
Reach-CanGoOn_example = Reach-CanGoOn 1 (omega arith) counted_reached (λ e. cc)
