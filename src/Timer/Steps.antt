-- ===== src/Timer/Steps.antt =====
-- base/Timer.cpp: the steps of `loopForExecute` on a vector whose last timer has been taken for
-- the next one, when the actions leave the manager alone.
use toy_basket.Prelude.{
  ℕ, List, [], ◌∷◌, ◌++◌, true, false, Option, some, if◌then◌else◌, ◌≡◌, ◌≤◌, ◌<◌, ◌+◌, ◌^◌, ◌%◌,
  refl, ap, ◌∙◌, arith, ◌==◌, lt→leb, le→leb, Bool-cases, inl, inr, ==_refl,
}
use toy_basket.Timer.{
  Timer, TimerManager, Heap, add_timer, iterate, after_action, has_timer, pop_back, goes_on, leaves,
  repeated, next_top, top_of, back, int_id,
}
use toy_basket.Timer.Laws.{IsRegular, renew}

module _ {ℓ} {A : Type ℓ} where
  has_timer-append : (ts : List (Timer A)) (t : Timer A) → has_timer (ts ++ t ∷ []) t.id ≡ true
  has_timer-append [] t = rw (==_refl t.id) refl
  has_timer-append (u ∷ ts) t = elim (Bool-cases (u.id == t.id)) [
    | inl e ↦ rw e refl
    | inr e ↦ rw e (has_timer-append ts t)
  ]

  pop_back-append : (ts : List (Timer A)) (t : Timer A) → pop_back (ts ++ t ∷ []) ≡ ts
  pop_back-append [] t = refl
  pop_back-append (u ∷ []) t = refl
  pop_back-append (u ∷ v ∷ ts) t = ap (◌∷◌ u) (pop_back-append (v ∷ ts) t)

  back-append : (ts : List (Timer A)) (t : Timer A) → back (ts ++ t ∷ []) ≡ some t
  back-append [] t = refl
  back-append (u ∷ []) t = refl
  back-append (u ∷ v ∷ ts) t = back-append (v ∷ ts) t

in_size : (n : ℕ) → n < 2 ^ 64 → n % 2 ^ 64 ≡ n
in_size n h = omega arith

module _ {ℓ} {A : Type ℓ} (timeline id : ℕ) where
  abbrev pub state : List (Timer A) → List (Timer A) → TimerManager A
  state ts fired = record {
    is_start = true;
    timeline = timeline;
    auto_increment_id = id;
    timer = ts;
    fired = fired;
  }

module _ {ℓ} {A : Type ℓ} (heap : Heap A) (act : A → TimerManager A → TimerManager A)
    (quiet : (a : A) (m : TimerManager A) → act a m ≡ m) (timeline id : ℕ) where
  abbrev at : List (Timer A) → List (Timer A) → TimerManager A
  at = state timeline id

  int_id_lem : (n : ℕ) → n < 2 ^ 31 → int_id heap n ≡ some n
  int_id_lem n h = ground arith

  -- A repeating timer returns with its own identifier.
  pub repeated_lem :
      (t : Timer A) (ts fired : List (Timer A))
      → IsRegular timeline t
      → t.is_repeat ≡ true
      → repeated heap (at ts fired) t ≡ at (heap.push_heap (ts ++ renew timeline t ∷ [])) fired
  unfolding add_timer
  repeated_lem t ts fired regular e =
      let added : Option ℕ → TimerManager A =
        λ n. (add_timer heap (at ts fired) t.interval t.action t.is_repeat false n).1 in
      ap (λ b. if b then added (int_id heap t.id) else at ts fired) e
      ∙ ap added (int_id_lem t.id regular.small_id)
      ∙ ap (λ d. at (heap.push_heap (ts ++ record t { deadline = d } ∷ [])) fired)
          (in_size (t.interval + timeline) regular.in_range)

  pub not_repeated_lem :
      (t : Timer A) (ts fired : List (Timer A))
      → t.is_repeat ≡ false
      → repeated heap (at ts fired) t ≡ at ts fired
  not_repeated_lem t ts fired e =
      ap
        (λ b.
          if b
          then (add_timer heap (at ts fired) t.interval t.action b false (int_id heap t.id)).1
          else at ts fired)
        e

  after_action_lem :
      (t : Timer A) (ts fired : List (Timer A))
      → after_action heap (at (ts ++ t ∷ []) fired) t
        ≡ next_top heap (repeated heap (at ts fired) t)
  unfolding after_action
  after_action_lem t ts fired = rw (has_timer-append ts t, pop_back-append ts t) refl

  pub fires :
      (t : Timer A) (ts fired : List (Timer A))
      → t.deadline ≤ timeline
      → iterate heap act (at (ts ++ t ∷ []) fired) t
        ≡ next_top heap (repeated heap (at ts (fired ++ t ∷ [])) t)
  unfolding iterate
  fires t ts fired due =
      rw (le→leb t.deadline timeline due, quiet) (after_action_lem t ts (fired ++ t ∷ []))

  pub rests :
      (t : Timer A) (ts fired : List (Timer A))
      → timeline < t.deadline
      → iterate heap act (at (ts ++ t ∷ []) fired) t ≡ leaves (at (ts ++ t ∷ []) fired)
  unfolding iterate
  rests t ts fired late = rw (lt→leb t.deadline timeline late) refl

  pub next_top_lem :
      (t : Timer A) (ts us fired : List (Timer A))
      → heap.pop_heap (t ∷ ts) ≡ us ++ t ∷ []
      → next_top heap (at (t ∷ ts) fired) ≡ goes_on (at (us ++ t ∷ []) fired) t
  next_top_lem t ts us fired e =
      ap (λ vs. top_of heap (at (t ∷ ts) fired) vs (back vs)) e
      ∙ ap (top_of heap (at (t ∷ ts) fired) (us ++ t ∷ [])) (back-append us t)
