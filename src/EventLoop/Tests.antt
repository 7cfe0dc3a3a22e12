-- ===== src/EventLoop/Tests.antt =====
-- The event loop's theorems at concrete schedules.
use toy_basket.Prelude.{ℕ, inl, List, [], ◌∷◌, ◌++◌, false, ◌≡◌, refl, arith}
use toy_basket.EventLoop.{
  Action, push, wake, start, test, poll_returns, drain, handler_queues, handled, swap, run_next,
  finish, wakeup, queue_in_loop, queue_all, loop_step, step, run, initial, handle_read,
}
use toy_basket.EventLoop.Order.{taken, run-IsInOrder}
use toy_basket.EventLoop.Rounds.{round_lem}
use toy_basket.EventLoop.Wakeup.{IsAwake, run-IsAwake}

-- A thread queues functor 1 while the loop polls, and a handler queues functor 2.
abbrev pushed : List (Action ℕ)
pushed = start ∷ test ∷ push 1 ∷ []

-- The rest of the round, in which functor 1 queues functor 3.
abbrev rest_of_round : List (Action ℕ)
rest_of_round =
    wake
    ∷ poll_returns
    ∷ drain
    ∷ handler_queues 2
    ∷ handled
    ∷ swap
    ∷ run_next (3 ∷ []) false
    ∷ run_next [] false
    ∷ finish
    ∷ []

run-IsInOrder_example :
    (run initial (pushed ++ rest_of_round)).ran
      ++ (taken (run initial (pushed ++ rest_of_round)).phase
          ++ (run initial (pushed ++ rest_of_round)).loop.pending_functors)
    ≡ (run initial (pushed ++ rest_of_round)).queued
run-IsInOrder_example = run-IsInOrder (pushed ++ rest_of_round)

round_lem_example :
    (rest : List ℕ) × ((run (run initial pushed) rest_of_round).ran
      ≡ (run initial pushed).queued ++ rest)
unfolding run step loop_step queue_in_loop queue_all wakeup handle_read
round_lem_example = round_lem pushed rest_of_round refl refl

run-IsAwake_example : IsAwake (run initial pushed).loop (run initial pushed).waking
unfolding run step loop_step
run-IsAwake_example =
    run-IsAwake pushed ((λ h. h), ((λ h. h), ((λ h. h), tt))) refl (inl (omega arith))

abbrev seven : List ℕ
seven = 7 ∷ []

-- In that round all three functors are queued, and the first two have run.
round_ran : (run (run initial pushed) rest_of_round).ran ≡ 1 ∷ 2 ∷ []
unfolding run step loop_step queue_in_loop queue_all wakeup handle_read
round_ran = refl
