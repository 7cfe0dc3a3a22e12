-- ===== src/Timer/Tick.antt =====
-- base/Timer.cpp: a tick of `loopForExecute` against its specification.
use toy_basket.Prelude.{
  ℕ, suc, zero, List, [], ◌∷◌, ◌++◌, true, false, Option, some, ◌≡◌, ◌≤◌, ◌<◌, ◌+◌, leb, refl, sym,
  ap, ◌∙◌, arith, lt→leb, le→leb, leb→le, leb→lt, subst, Bool-cases, inl, inr, append_assoc, length,
  append-nil,
}
use mathlib.Core.List.Permᴰ
use mathlib.Core.List.{filter_map, Permᴰ}
use toy_basket.Timer.{
  Timer, TimerManager, Heap, execute, iterate, loop_for_execute, go_on, repeated, next_top, top_of,
  back, from_top, end_tick, tick,
}
use toy_basket.Timer.Laws.{
  All, All-perm, length-perm, NotBefore, IsSorted, IsRegular, Laws, renew, due_now, after_tick,
  due_here, not_due_here, kept_here, dropped_here, renewed_here, renew-IsRegular, NotBefore-due,
  none_due, none_changed,
}
use toy_basket.Timer.Steps.{state, fires, rests, next_top_lem, repeated_lem, not_repeated_lem}

module _ {ℓ} {A : Type ℓ} (heap : Heap A) (IsHeap : List (Timer A) → Type ℓ)
    (laws : Laws heap IsHeap) (act : A → TimerManager A → TimerManager A)
    (quiet : (a : A) (m : TimerManager A) → act a m ≡ m) (timeline id : ℕ) where
  abbrev pub at : List (Timer A) → List (Timer A) → TimerManager A
  at = state timeline id

  -- The run ends, and has treated the timers `ts` as a tick should.
  abbrev Treats : Option (TimerManager A) → List (Timer A) → List (Timer A) → Type ℓ
  Treats o fired ts =
      (left : List (Timer A)) × (fs : List (Timer A)) × (o ≡ some (at left (fired ++ fs)))
      × Permᴰ left (filter_map (after_tick timeline) ts)
      × Permᴰ fs (filter_map (due_now timeline) ts)
      × IsSorted fs

  abbrev due_count : List (Timer A) → ℕ
  due_count ts = length (filter_map (due_now timeline) ts)

  -- The next timer is the first of the heap, which the rest of it does not precede.
  Runs : ℕ → Type ℓ
  Runs fuel =
      (ts : List (Timer A)) (t : Timer A) (fired : List (Timer A))
      → IsHeap ts
      → NotBefore t.deadline ts
      → All (IsRegular timeline) (t ∷ ts)
      → due_count (t ∷ ts) < fuel
      → Treats (execute heap act fuel (at (ts ++ t ∷ []) fired) t) fired (t ∷ ts)

  Treats-perm :
      (o : Option (TimerManager A)) (fired xs ys : List (Timer A))
      → Permᴰ xs ys
      → Treats o fired xs
      → Treats o fired ys
  Treats-perm o fired xs ys p (left, fs, e, q, r, sorted) = (
    left,
    fs,
    e,
    Permᴰ.trans q (Permᴰ.filter_map (after_tick timeline) p),
    Permᴰ.trans r (Permᴰ.filter_map (due_now timeline) p),
    sorted,
  )

  due_count-perm : {xs ys : List (Timer A)} → Permᴰ xs ys → due_count xs ≡ due_count ys
  due_count-perm p = length-perm (Permᴰ.filter_map (due_now timeline) p)

  from_heap :
      (fuel : ℕ)
      → Runs fuel
      → (ts fired : List (Timer A)) → IsHeap ts
      → All (IsRegular timeline) ts
      → due_count ts < fuel
      → Treats (go_on heap (execute heap act fuel) (next_top heap (at ts fired))) fired ts
  unfolding Runs filter_map
  from_heap fuel runs [] fired h regular enough = (
    [],
    [],
    ap (λ us. go_on heap (execute heap act fuel) (top_of heap (at [] fired) us (back us)))
          laws.pop_none
        ∙ ap (λ us. some (at [] us)) (sym (append-nil fired)),
    Permᴰ.nil,
    Permᴰ.nil,
    tt,
  )
  from_heap fuel runs (t ∷ ts) fired h (here, there) enough =
      let (us, e, is_heap, p) = laws.pop t ts h in
      let q : Permᴰ (t ∷ us) (t ∷ ts) = Permᴰ.cons refl p in
      Treats-perm _ fired (t ∷ us) (t ∷ ts) q (
        subst (λ i. Treats (go_on heap (execute heap act fuel) i) fired (t ∷ us))
          (sym (next_top_lem heap act quiet timeline id t ts us fired e))
          (runs us t fired is_heap
            (All-perm (λ u. t.deadline ≤ u.deadline) (Permᴰ.symm p) (laws.least t ts h))
            (here, All-perm (IsRegular timeline) (Permᴰ.symm p) there)
            (subst (λ n. n < fuel) (due_count-perm (Permᴰ.symm q)) enough)))

  all_after :
      (t : Timer A) (ts : List (Timer A)) → NotBefore t.deadline ts → NotBefore t.deadline (t ∷ ts)
  all_after t ts h = (omega arith, h)

  -- Neither a timer that is not due nor what follows it fires.
  rests_all :
      (fuel : ℕ) (ts : List (Timer A)) (t : Timer A) (fired : List (Timer A))
      → NotBefore t.deadline ts
      → timeline < t.deadline
      → Treats
          (go_on heap (execute heap act fuel) (iterate heap act (at (ts ++ t ∷ []) fired) t))
          fired
          (t ∷ ts)
  rests_all fuel ts t fired h late = (
    ts ++ t ∷ [],
    [],
    ap (go_on heap (execute heap act fuel)) (rests heap act quiet timeline id t ts fired late)
        ∙ ap (λ us. some (at (ts ++ t ∷ []) us)) (sym (append-nil fired)),
    subst (Permᴰ (ts ++ t ∷ []))
        (sym (none_changed timeline t.deadline (t ∷ ts) late (all_after t ts h)))
        (Permᴰ.append_comm ts (t ∷ [])),
    subst (Permᴰ []) (sym (none_due timeline t.deadline (t ∷ ts) late (all_after t ts h)))
        Permᴰ.nil,
    tt,
  )

  -- A timer that fires is the first of those that the rest of the tick fires, `ws` being what is left.
  fired_first :
      (o : Option (TimerManager A)) (t : Timer A) (ts ws fired : List (Timer A))
      → t.deadline ≤ timeline
      → NotBefore t.deadline ts
      → Permᴰ (filter_map (after_tick timeline) ws) (filter_map (after_tick timeline) (t ∷ ts))
      → Permᴰ (filter_map (due_now timeline) ws) (filter_map (due_now timeline) ts)
      → Treats o (fired ++ t ∷ []) ws
      → Treats o fired (t ∷ ts)
  fired_first o t ts ws fired due after p q (left, fs, e, r, s, sorted) = (
    left,
    t ∷ fs,
    e ∙ ap (λ us. some (at left us)) (append_assoc fired (t ∷ []) fs),
    Permᴰ.trans r p,
    subst (Permᴰ (t ∷ fs)) (sym (due_here timeline t ts (le→leb t.deadline timeline due)))
        (Permᴰ.cons refl (Permᴰ.trans s q)),
    (
      All-perm (λ u. t.deadline ≤ u.deadline) (Permᴰ.symm (Permᴰ.trans s q))
          (NotBefore-due timeline t.deadline ts after),
      sorted,
    ),
  )

  module _ (fuel : ℕ) (runs : Runs fuel) (ts : List (Timer A)) (t : Timer A)
      (fired : List (Timer A)) (is_heap : IsHeap ts) (after : NotBefore t.deadline ts)
      (regular : All (IsRegular timeline) (t ∷ ts)) (enough : due_count ts < fuel)
      (due : t.deadline ≤ timeline) where
    drops :
        t.is_repeat ≡ false
        → Treats
            (go_on heap
              (execute heap act fuel)
              (next_top heap (repeated heap (at ts (fired ++ t ∷ [])) t)))
            fired
            (t ∷ ts)
    drops once =
        fired_first _ t ts ts fired due after
          (subst (Permᴰ (filter_map (after_tick timeline) ts))
            (sym (dropped_here timeline t ts (le→leb t.deadline timeline due) once)) (Permᴰ.refl _))
          (Permᴰ.refl _)
          (subst
            (λ m.
              Treats (go_on heap (execute heap act fuel) (next_top heap m)) (fired ++ t ∷ []) ts)
            (sym (not_repeated_lem heap act quiet timeline id t ts (fired ++ t ∷ []) once))
            (from_heap fuel runs ts (fired ++ t ∷ []) is_heap regular.1 enough))

    renews :
        t.is_repeat ≡ true
        → Treats
            (go_on heap
              (execute heap act fuel)
              (next_top heap (repeated heap (at ts (fired ++ t ∷ [])) t)))
            fired
            (t ∷ ts)
    renews repeats =
        let ws : List (Timer A) = heap.push_heap (ts ++ renew timeline t ∷ []) in
        let (pushed, p) = laws.push ts (renew timeline t) is_heap in
        let later : leb (t.interval + timeline) timeline ≡ false =
          lt→leb (t.interval + timeline) timeline (omega (arith, regular.0.positive)) in
        let due_again : filter_map (due_now timeline) (renew timeline t ∷ ts)
            ≡ filter_map (due_now timeline) ts =
          not_due_here timeline (renew timeline t) ts later in
        let q : Permᴰ (filter_map (due_now timeline) ws) (filter_map (due_now timeline) ts) =
          subst (Permᴰ (filter_map (due_now timeline) ws)) due_again
            (Permᴰ.filter_map (due_now timeline) p) in
        fired_first _ t ts ws fired due after
          (subst (Permᴰ (filter_map (after_tick timeline) ws))
            (kept_here timeline (renew timeline t) ts later
              ∙ sym (renewed_here timeline t ts (le→leb t.deadline timeline due) repeats))
            (Permᴰ.filter_map (after_tick timeline) p))
          q
          (subst
            (λ m.
              Treats (go_on heap (execute heap act fuel) (next_top heap m)) (fired ++ t ∷ []) ws)
            (sym (repeated_lem heap act quiet timeline id t ts (fired ++ t ∷ []) regular.0 repeats))
            (from_heap fuel runs ws (fired ++ t ∷ []) pushed
              (All-perm (IsRegular timeline) (Permᴰ.symm p)
                (renew-IsRegular timeline t regular.0, regular.1))
              (subst (λ n. n < fuel) (sym (length-perm q)) enough)))

  run : (fuel : ℕ) → Runs fuel
  unfolding Runs execute
  run zero ts t fired h after regular enough = absurd (omega (arith, enough))
  run (suc fuel) ts t fired h after regular enough = elim (Bool-cases (leb t.deadline timeline)) [
    | inl e ↦
        let due : t.deadline ≤ timeline = leb→le t.deadline timeline e in
        let few : due_count ts < fuel =
          omega (arith, enough, ap length (due_here timeline t ts e)) in
        subst (λ i. Treats (go_on heap (execute heap act fuel) i) fired (t ∷ ts))
          (sym (fires heap act quiet timeline id t ts fired due))
          (elim (Bool-cases t.is_repeat) [
            | inl repeats ↦ renews fuel (run fuel) ts t fired h after regular few due repeats
            | inr once ↦ drops fuel (run fuel) ts t fired h after regular few due once
          ])
    | inr e ↦ rests_all fuel ts t fired after (leb→lt t.deadline timeline e)
  ]

  due_count-le : (ts : List (Timer A)) → due_count ts ≤ length ts
  unfolding filter_map
  due_count-le [] = omega arith
  due_count-le (t ∷ ts) = elim (Bool-cases (leb t.deadline timeline)) [
    | inl e ↦ omega (arith, due_count-le ts, ap length (due_here timeline t ts e))
    | inr e ↦ omega (arith, due_count-le ts, ap length (not_due_here timeline t ts e))
  ]

  -- What a tick makes of the timers `ts`, with `fired` fired before.
  abbrev pub Ticks : Option (TimerManager A) → List (Timer A) → List (Timer A) → Type ℓ
  Ticks o fired ts =
      (left : List (Timer A)) × (fs : List (Timer A)) × (o
        ≡ some (tick heap (at left (fired ++ fs))))
      × IsHeap left
      × Permᴰ left (filter_map (after_tick timeline) ts)
      × Permᴰ fs (filter_map (due_now timeline) ts)
      × IsSorted fs

  made_again :
      (o : Option (TimerManager A)) (fired ts : List (Timer A))
      → Treats o fired ts
      → Ticks (end_tick heap o) fired ts
  made_again o fired ts (left, fs, e, p, q, sorted) =
      let (is_heap, r) = laws.make left in
      (heap.make_heap left, fs, ap (end_tick heap) e, is_heap, Permᴰ.trans r p, q, sorted)

  -- If the vector is a heap, the identifiers of the timers are below 2^31, their intervals positive
  -- and their next deadlines below 2^64, and if no action touches the manager, then with fuel beyond
  -- the number of the timers a tick of the started manager ends. The timers that fire in it are
  -- those whose deadlines have come, in the order of their deadlines, each once. Of these the ones
  -- that repeat stay with the deadline an interval from now, the others go; the timers that were not
  -- due stay as they are, and the vector is a heap again. The timeline is one tick later, modulo
  -- 2^64. The algorithms of <algorithm> are assumed to keep their laws.
  pub loop_for_execute_lem :
      (fuel : ℕ) (ts fired : List (Timer A))
      → IsHeap ts
      → All (IsRegular timeline) ts
      → length ts < fuel
      → Ticks (loop_for_execute heap act fuel (at ts fired)) fired ts
  unfolding loop_for_execute filter_map
  loop_for_execute_lem fuel [] fired h regular enough = (
    [],
    [],
    ap (λ us. from_top heap act fuel (top_of heap (at [] fired) us (back us))) laws.pop_none
        ∙ ap (λ us. some (tick heap (at [] us))) (sym (append-nil fired)),
    h,
    Permᴰ.nil,
    Permᴰ.nil,
    tt,
  )
  loop_for_execute_lem fuel (t ∷ ts) fired h regular enough =
      let (us, e, is_heap, p) = laws.pop t ts h in
      subst (λ o. Ticks o fired (t ∷ ts))
        (ap (λ i. end_tick heap (go_on heap (execute heap act fuel) i))
            (next_top_lem heap act quiet timeline id t ts us fired e)
          ∙ sym (
              ap (from_top heap act fuel)
                (next_top_lem heap act quiet timeline id t ts us fired e)))
        (made_again _ fired (t ∷ ts) (
          from_heap fuel (run fuel) (t ∷ ts) fired h regular
            (omega (arith, due_count-le (t ∷ ts), enough))))
