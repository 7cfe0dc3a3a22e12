-- ===== src/Timer.antt =====
-- base/Timer.cpp and Timer.h: the timers of a process, in a vector that the heap algorithms of the
-- standard library keep in order. These algorithms and the actions of the timers are parameters.
pub mod Hang
pub mod Laws
pub mod Steps
pub mod Tick
pub mod Sorted
mod Tests
use toy_basket.Prelude.{
  ℕ, suc, zero, ◌+◌, ◌%◌, ◌^◌, ◌-◌, List, [], ◌∷◌, ◌++◌, Bool, false, ◌&&◌, ◌||◌, not, ltb, leb,
  ◌==◌, if◌then◌else◌, Option, none, some, true, ◌>>=◌, size_through_int,
}

-- `A` are the actions.
pub record Timer {ℓ} (A : Type ℓ) : Type ℓ where
  pub id : ℕ
  pub interval : ℕ
  pub deadline : ℕ
  pub action : A
  pub is_repeat : Bool

-- `fired` are the timers whose actions have run, in order.
pub record TimerManager {ℓ} (A : Type ℓ) : Type ℓ where
  pub is_start : Bool
  pub timeline : ℕ
  pub auto_increment_id : ℕ
  pub timer : List (Timer A)
  pub fired : List (Timer A)

-- The algorithms of <algorithm> on a vector of timers, ordered by `std::greater`.
pub record Heap {ℓ} (A : Type ℓ) : Type ℓ where
  pub push_heap : List (Timer A) → List (Timer A)
  pub pop_heap : List (Timer A) → List (Timer A)
  pub make_heap : List (Timer A) → List (Timer A)

-- How an iteration of `loopForExecute` ends: it leaves the loop, or goes on with the next timer.
pub data Iteration {ℓ} (A : Type ℓ) : Type ℓ where
  leaves : TimerManager A → Iteration A
  goes_on : TimerManager A → Timer A → Iteration A

module _ {ℓ} {A : Type ℓ} where
  abbrev pub new_manager : TimerManager A
  new_manager = record {
    is_start = false;
    timeline = 0;
    auto_increment_id = 1;
    timer = [];
    fired = [];
  }

  -- The constructor of a timer; the sum is one of 64 bits.
  abbrev pub new_timer : ℕ → ℕ → A → Bool → Bool → ℕ → Timer A
  new_timer interval timeline action is_repeat is_no_delay id = record {
    id = id;
    interval = interval;
    deadline = if is_no_delay then timeline else (interval + timeline) % 2 ^ 64;
    action = action;
    is_repeat = is_repeat;
  }

  -- `std::find`, which compares identifiers, and `erase` of the timer found.
  abbrev pub has_timer : List (Timer A) → ℕ → Bool
  has_timer [] id = false
  has_timer (t ∷ ts) id = (t.id == id) || has_timer ts id

  abbrev pub erase : List (Timer A) → ℕ → List (Timer A)
  erase [] id = []
  erase (t ∷ ts) id = if t.id == id then ts else t ∷ erase ts id

  -- `back` and `pop_back`.
  abbrev pub back : List (Timer A) → Option (Timer A)
  back [] = none
  back (t ∷ []) = some t
  back (t ∷ u ∷ ts) = back (u ∷ ts)

  abbrev pub pop_back : List (Timer A) → List (Timer A)
  pop_back [] = []
  pop_back (t ∷ []) = []
  pop_back (t ∷ u ∷ ts) = t ∷ pop_back (u ∷ ts)

  module _ (heap : Heap A) where
    abbrev pub insert : TimerManager A → Timer A → TimerManager A
    insert m t = record m { timer = heap.push_heap (m.timer ++ t ∷ []) }

    -- `addTimer`; without an identifier, which is -1 in the source, it draws the next one.
    pub add_timer : TimerManager A → ℕ → A → Bool → Bool → Option ℕ → ℕ × TimerManager A
    add_timer m interval action is_repeat is_no_delay (some id) =
        (id, insert m (new_timer interval m.timeline action is_repeat is_no_delay id))
    add_timer m interval action is_repeat is_no_delay none = (
      m.auto_increment_id,
      insert (record m { auto_increment_id = (m.auto_increment_id + 1) % 2 ^ 64 })
          (new_timer interval m.timeline action is_repeat is_no_delay m.auto_increment_id),
    )

    -- `deleteTimer`, with what it leaves in the identifier of the caller.
    pub delete_timer : TimerManager A → ℕ → ℕ × TimerManager A
    delete_timer m id =
        if ltb id 1 then (id, m) else (0, record m { timer = heap.make_heap (erase m.timer id) })

    -- `static_cast<int>(id)` as the last argument of `addTimer`.
    abbrev pub int_id : ℕ → Option ℕ
    int_id id = if size_through_int id == 2 ^ 64 - 1 then none else some (size_through_int id)

    -- A timer that repeats is added again.
    abbrev pub repeated : TimerManager A → Timer A → TimerManager A
    repeated m top =
        if top.is_repeat
        then (add_timer m top.interval top.action top.is_repeat false (int_id top.id)).1
        else m

    -- `pop_heap` and `back`, unless the vector is empty.
    abbrev pub top_of : TimerManager A → List (Timer A) → Option (Timer A) → Iteration A
    top_of m popped none = leaves m
    top_of m popped (some top) = goes_on (record m { timer = popped }) top

    abbrev pub next_top : TimerManager A → Iteration A
    next_top m = top_of m (heap.pop_heap m.timer) (back (heap.pop_heap m.timer))

    -- What follows the action of the timer `top`, which may have changed the timers.
    pub after_action : TimerManager A → Timer A → Iteration A
    after_action m top =
        if not (has_timer m.timer top.id)
        then leaves m
        else next_top (repeated (record m { timer = pop_back m.timer }) top)

    -- An action runs with the manager in its hands.
    pub iterate : (A → TimerManager A → TimerManager A) → TimerManager A → Timer A → Iteration A
    iterate act m top =
        if m.is_start && leb top.deadline m.timeline
        then after_action (act top.action (record m { fired = m.fired ++ top ∷ [] })) top
        else leaves m

    abbrev pub go_on :
        (TimerManager A → Timer A → Option (TimerManager A)) → Iteration A → Option (TimerManager A)
    go_on next (leaves m) = some m
    go_on next (goes_on m top) = next m top

    -- The loop, on fuel: a repeating timer of interval 0 does not end it.
    pub execute :
        (A → TimerManager A → TimerManager A)
        → ℕ
        → TimerManager A
        → Timer A
        → Option (TimerManager A)
    execute act zero m top = none
    execute act (suc fuel) m top = go_on (execute act fuel) (iterate act m top)

    -- The end of `loopForExecute`: the heap is made again, and a tick passes.
    abbrev pub tick : TimerManager A → TimerManager A
    tick m = record m { timeline = (m.timeline + 1) % 2 ^ 64 }

    abbrev pub end_tick : Option (TimerManager A) → Option (TimerManager A)
    end_tick none = none
    end_tick (some m) = some (tick (record m { timer = heap.make_heap m.timer }))

    abbrev pub from_top :
        (A → TimerManager A → TimerManager A) → ℕ → Iteration A → Option (TimerManager A)
    from_top act fuel (leaves m) = some (tick m)
    from_top act fuel (goes_on m top) = end_tick (execute act fuel m top)

    pub loop_for_execute :
        (A → TimerManager A → TimerManager A) → ℕ → TimerManager A → Option (TimerManager A)
    loop_for_execute act fuel m = from_top act fuel (next_top m)

    -- `syncWorkStart` up to its loop, and `workStop`.
    pub sync_work_start : TimerManager A → TimerManager A
    sync_work_start m = record m { is_start = true }

    pub work_stop : TimerManager A → TimerManager A
    work_stop m = record m { is_start = false }

    -- The loop of `syncWorkStart`, on fuel: it ends when an action has stopped the manager.
    pub work :
        (A → TimerManager A → TimerManager A) → ℕ → ℕ → TimerManager A → Option (TimerManager A)
    work act fuel zero m = none
    work act fuel (suc rounds) m = elim m.is_start [
      | false ↦ some m
      | true ↦ loop_for_execute act fuel m >>= λ m'. work act fuel rounds m'
    ]
