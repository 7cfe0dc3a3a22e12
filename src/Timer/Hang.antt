-- ===== src/Timer/Hang.antt =====
-- base/Timer.cpp: `loopForExecute` when the action of the only timer adds another.
use toy_basket.Prelude.{
  ℕ, suc, zero, List, [], ◌∷◌, ◌++◌, Bool, true, false, none, if◌then◌else◌, ◌≡◌, ◌≤◌, ◌<◌, ◌+◌,
  ◌^◌, ◌%◌, arith, ap, ◌∙◌, refl, le→leb, ==_refl,
}
use toy_basket.Timer.{
  Timer, TimerManager, Heap, add_timer, execute, iterate, after_action, loop_for_execute, new_timer,
  goes_on, go_on, repeated, next_top, top_of, back, from_top, end_tick, int_id,
}

module _ {ℓ} {A : Type ℓ} (heap : Heap A) (t : Timer A) where
  -- The heap of one timer, and of two that are in order.
  pub record Small : Type ℓ where
    pub pop_one : heap.pop_heap (t ∷ []) ≡ t ∷ []
    pub push_second :
        (u : Timer A) → t.deadline < u.deadline → heap.push_heap (t ∷ u ∷ []) ≡ t ∷ u ∷ []

  abbrev pub only : ℕ → ℕ → List (Timer A) → TimerManager A
  only timeline id fired = record {
    is_start = true;
    timeline = timeline;
    auto_increment_id = id;
    timer = t ∷ [];
    fired = fired;
  }

  module _ (small : Small) (once : t.is_repeat ≡ false) (act : A → TimerManager A → TimerManager A)
      (timeline interval : ℕ) (new : A) (new_repeats : Bool) (due : t.deadline ≤ timeline)
      (later : 0 < interval) (in_range : interval + timeline < 2 ^ 64)
      (adds : (m : TimerManager A)
        → act t.action m ≡ (add_timer heap m interval new new_repeats false none).1) where
    not_repeated : (m : TimerManager A) → repeated heap m t ≡ m
    not_repeated m =
        ap
          (λ b.
            if b then (add_timer heap m t.interval t.action b false (int_id heap t.id)).1 else m)
          once

    popped :
        (id : ℕ) (fired : List (Timer A))
        → next_top heap (only timeline id fired) ≡ goes_on (only timeline id fired) t
    popped id fired = ap (λ ts. top_of heap (only timeline id fired) ts (back ts)) small.pop_one

    -- What is behind the timer is popped in its place.
    after_both :
        (id : ℕ) (fired : List (Timer A)) (u : Timer A)
        → after_action heap (record (only timeline id fired) { timer = t ∷ u ∷ [] }) t
          ≡ goes_on (only timeline id fired) t
    unfolding after_action
    after_both id fired u =
        rw (==_refl t.id)
          (ap (next_top heap) (not_repeated (only timeline id fired)) ∙ popped id fired)

    after_add :
        (id : ℕ) (fired : List (Timer A))
        → after_action heap (act t.action (only timeline id fired)) t
          ≡ goes_on (only timeline ((id + 1) % 2 ^ 64) fired) t
    unfolding add_timer
    after_add id fired =
        let u : Timer A = new_timer interval timeline new new_repeats false id in
        let both : List (Timer A) → TimerManager A =
          λ ts. record (only timeline ((id + 1) % 2 ^ 64) fired) { timer = ts } in
        ap (λ m. after_action heap m t) (adds (only timeline id fired))
        ∙ ap (λ ts. after_action heap (both ts) t)
            (small.push_second u (omega (arith, later, in_range, due)))
        ∙ after_both ((id + 1) % 2 ^ 64) fired u

    again :
        (id : ℕ) (fired : List (Timer A))
        → iterate heap act (only timeline id fired) t
          ≡ goes_on (only timeline ((id + 1) % 2 ^ 64) (fired ++ t ∷ [])) t
    unfolding iterate
    again id fired = rw (le→leb t.deadline timeline due) (after_add id (fired ++ t ∷ []))

    forever :
        (fuel id : ℕ) (fired : List (Timer A))
        → execute heap act fuel (only timeline id fired) t ≡ none
    unfolding execute
    forever zero id fired = refl
    forever (suc fuel) id fired =
        ap (go_on heap (execute heap act fuel)) (again id fired)
        ∙ forever fuel ((id + 1) % 2 ^ 64) (fired ++ t ∷ [])

    -- If the manager is started, its only timer is due and does not repeat, and the action always adds
    -- a timer without an identifier, not to run at once, of a positive interval whose sum with the
    -- timeline is below 2^64, then a tick never ends, whatever the fuel: the timer that was added is
    -- what is popped. The heap algorithms are assumed to keep one timer, and two timers in the order of
    -- their deadlines.
    pub adding_hangs :
        (fuel id : ℕ) (fired : List (Timer A))
        → loop_for_execute heap act fuel (only timeline id fired) ≡ none
    unfolding loop_for_execute
    adding_hangs fuel id fired =
        ap (from_top heap act fuel) (popped id fired) ∙ ap (end_tick heap) (forever fuel id fired)
