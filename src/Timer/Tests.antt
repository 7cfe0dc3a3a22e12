-- ===== src/Timer/Tests.antt =====
-- Timers on a vector in the order of the deadlines; an action is a number.
use toy_basket.Prelude.{ℕ, List, [], ◌∷◌, Bool, true, false, none, ◌≡◌, refl, arith}
use toy_basket.Timer.{Timer, TimerManager, loop_for_execute, add_timer}
use toy_basket.Timer.Laws.{IsSorted}
use toy_basket.Timer.Tick.{Ticks, loop_for_execute_lem}
use toy_basket.Timer.Hang.{only, adding_hangs}
use toy_basket.Timer.Sorted.{sorted_heap, sorted_laws, sorted_small}

abbrev timer : ℕ → ℕ → ℕ → Bool → Timer ℕ
timer id interval deadline is_repeat = record {
  id = id;
  interval = interval;
  deadline = deadline;
  action = id;
  is_repeat = is_repeat;
}

-- One timer that repeats, two that do not.
abbrev three : List (Timer ℕ)
three = timer 2 5 9 true ∷ timer 1 10 10 false ∷ timer 3 20 20 false ∷ []

abbrev quiet : ℕ → TimerManager ℕ → TimerManager ℕ
quiet a m = m

abbrev at_ten : List (Timer ℕ) → TimerManager ℕ
at_ten ts = record { is_start = true; timeline = 10; auto_increment_id = 4; timer = ts; fired = [] }

loop_for_execute_lem_example :
    Ticks sorted_heap IsSorted sorted_laws quiet
      (λ a m. refl)
      10
      4
      (loop_for_execute sorted_heap quiet 4 (at_ten three))
      []
      three
loop_for_execute_lem_example =
    loop_for_execute_lem sorted_heap IsSorted sorted_laws quiet (λ a m. refl) 10 4 4 three []
      ((omega arith, (omega arith, tt)), ((omega arith, tt), (tt, tt)))
      (
        record { positive = omega arith; small_id = omega arith; in_range = omega arith },
        (
          record { positive = omega arith; small_id = omega arith; in_range = omega arith },
          (record { positive = omega arith; small_id = omega arith; in_range = omega arith }, tt),
        ),
      )
      (omega arith)

abbrev adding : ℕ → TimerManager ℕ → TimerManager ℕ
adding a m = (add_timer sorted_heap m 10 7 false false none).1

adding_hangs_example :
    loop_for_execute sorted_heap adding 1000 (only sorted_heap (timer 1 10 10 false) 10 2 []) ≡ none
adding_hangs_example =
    adding_hangs sorted_heap (timer 1 10 10 false) (sorted_small (timer 1 10 10 false)) refl adding
      10 10 7 false (omega arith) (omega arith) (omega arith) (λ m. refl) 1000 2 []
