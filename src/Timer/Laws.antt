-- ===== src/Timer/Laws.antt =====
-- base/Timer.cpp: what the timers rely on in the heap algorithms of <algorithm>, and the words of a
-- tick's specification.
use toy_basket.Prelude.{
  ℕ, suc, List, [], ◌∷◌, ◌++◌, true, false, Option, some, none, if◌then◌else◌, ◌≡◌, ◌≤◌, ◌<◌, ◌+◌,
  ◌^◌, leb, refl, sym, ap, ◌∙◌, arith, lt→leb, subst, length, Bool-cases, inl, inr,
}
use mathlib.Core.List.{filter_map, Permᴰ, filter_map-cons-none, filter_map-cons-some}
use toy_basket.Timer.{Timer, Heap}

module _ {ℓ κ} {A : Type ℓ} (P : A → Type κ) where
  abbrev pub All : List A → Type κ
  All [] = Unit
  All (x ∷ xs) = P x × All xs

  pub All-perm : {xs ys : List A} → Permᴰ xs ys → All xs → All ys
  All-perm Permᴰ.nil h = tt
  All-perm (Permᴰ.cons e p) (h, hs) = (subst P e h, All-perm p hs)
  All-perm (Permᴰ.swap e f) (h, (k, hs)) = (subst P f k, (subst P e h, hs))
  All-perm (Permᴰ.trans p q) h = All-perm q (All-perm p h)

pub length-perm {ℓ} : {A : Type ℓ} {xs ys : List A} → Permᴰ xs ys → length xs ≡ length ys
length-perm Permᴰ.nil = refl
length-perm (Permᴰ.cons e p) = ap suc (length-perm p)
length-perm (Permᴰ.swap e f) = refl
length-perm (Permᴰ.trans p q) = length-perm p ∙ length-perm q

module _ {ℓ} {A : Type ℓ} where
  -- No timer is due before `d`.
  abbrev pub NotBefore : ℕ → List (Timer A) → Type 0
  NotBefore d = All (λ t. d ≤ t.deadline)

  -- The timers fire in the order of their deadlines.
  abbrev pub IsSorted : List (Timer A) → Type 0
  IsSorted [] = Unit
  IsSorted (t ∷ ts) = NotBefore t.deadline ts × IsSorted ts

  -- A timer of a positive interval that fits in an `int` with its identifier, and whose next deadline
  -- does not pass 2^64.
  pub record IsRegular (timeline : ℕ) (t : Timer A) : Type 0 where
    pub positive : 0 < t.interval
    pub small_id : t.id < 2 ^ 31
    pub in_range : t.interval + timeline < 2 ^ 64

  -- What the standard says of the heap algorithms; `IsHeap` is `std::is_heap`.
  pub record Laws (heap : Heap A) (IsHeap : List (Timer A) → Type ℓ) : Type ℓ where
    pub least : (t : Timer A) (ts : List (Timer A)) → IsHeap (t ∷ ts) → NotBefore t.deadline ts
    pub push :
        (ts : List (Timer A)) (t : Timer A)
        → IsHeap ts
        → IsHeap (heap.push_heap (ts ++ t ∷ [])) × Permᴰ (heap.push_heap (ts ++ t ∷ [])) (t ∷ ts)
    pub pop :
        (t : Timer A) (ts : List (Timer A))
        → IsHeap (t ∷ ts)
        → (us : List (Timer A)) × (heap.pop_heap (t ∷ ts) ≡ us ++ t ∷ []) × IsHeap us × Permᴰ us ts
    pub pop_none : heap.pop_heap [] ≡ []
    pub make : (ts : List (Timer A)) → IsHeap (heap.make_heap ts) × Permᴰ (heap.make_heap ts) ts

  -- A repeating timer after it has fired.
  abbrev pub renew : ℕ → Timer A → Timer A
  renew timeline t = record t { deadline = t.interval + timeline }

  abbrev pub due_now : ℕ → Timer A → Option (Timer A)
  due_now timeline t = if leb t.deadline timeline then some t else none

  -- What a tick leaves of a timer.
  abbrev pub after_tick : ℕ → Timer A → Option (Timer A)
  after_tick timeline t =
      if leb t.deadline timeline
      then (if t.is_repeat then some (renew timeline t) else none)
      else some t

  module _ (timeline : ℕ) where
    -- The tests decided, for a timer that is due and for one that is not.
    pub due_here :
        (t : Timer A) (ts : List (Timer A))
        → leb t.deadline timeline ≡ true
        → filter_map (due_now timeline) (t ∷ ts) ≡ t ∷ filter_map (due_now timeline) ts
    due_here t ts e =
        filter_map-cons-some (due_now timeline) t ts (ap (λ b. if b then some t else none) e)

    pub not_due_here :
        (t : Timer A) (ts : List (Timer A))
        → leb t.deadline timeline ≡ false
        → filter_map (due_now timeline) (t ∷ ts) ≡ filter_map (due_now timeline) ts
    not_due_here t ts e =
        filter_map-cons-none (due_now timeline) t ts (ap (λ b. if b then some t else none) e)

    pub kept_here :
        (t : Timer A) (ts : List (Timer A))
        → leb t.deadline timeline ≡ false
        → filter_map (after_tick timeline) (t ∷ ts) ≡ t ∷ filter_map (after_tick timeline) ts
    kept_here t ts e =
        filter_map-cons-some (after_tick timeline) t ts (
          ap (λ b. if b then (if t.is_repeat then some (renew timeline t) else none) else some t) e)

    pub dropped_here :
        (t : Timer A) (ts : List (Timer A))
        → leb t.deadline timeline ≡ true
        → t.is_repeat ≡ false
        → filter_map (after_tick timeline) (t ∷ ts) ≡ filter_map (after_tick timeline) ts
    dropped_here t ts e once = filter_map-cons-none (after_tick timeline) t ts (
        ap (λ b. if b then (if t.is_repeat then some (renew timeline t) else none) else some t) e
        ∙ ap (λ b. if b then some (renew timeline t) else none) once)

    pub renewed_here :
        (t : Timer A) (ts : List (Timer A))
        → leb t.deadline timeline ≡ true
        → t.is_repeat ≡ true
        → filter_map (after_tick timeline) (t ∷ ts)
          ≡ renew timeline t ∷ filter_map (after_tick timeline) ts
    renewed_here t ts e repeats = filter_map-cons-some (after_tick timeline) t ts (
        ap (λ b. if b then (if t.is_repeat then some (renew timeline t) else none) else some t) e
        ∙ ap (λ b. if b then some (renew timeline t) else none) repeats)

    pub renew-IsRegular :
        (t : Timer A) → IsRegular timeline t → IsRegular timeline (renew timeline t)
    renew-IsRegular t regular = record {
      positive = regular.positive;
      small_id = regular.small_id;
      in_range = regular.in_range;
    }

    pub NotBefore-due :
        (d : ℕ) (ts : List (Timer A))
        → NotBefore d ts
        → NotBefore d (filter_map (due_now timeline) ts)
    unfolding filter_map
    NotBefore-due d [] h = tt
    NotBefore-due d (t ∷ ts) (h, hs) = elim (Bool-cases (leb t.deadline timeline)) [
      | inl e ↦ subst (NotBefore d) (sym (due_here t ts e)) (h, NotBefore-due d ts hs)
      | inr e ↦ subst (NotBefore d) (sym (not_due_here t ts e)) (NotBefore-due d ts hs)
    ]

    -- If nothing is due, nothing fires and nothing changes.
    pub none_due :
        (d : ℕ) (ts : List (Timer A))
        → timeline < d
        → NotBefore d ts
        → filter_map (due_now timeline) ts ≡ []
    unfolding filter_map
    none_due d [] late h = refl
    none_due d (t ∷ ts) late (h, hs) =
        not_due_here t ts (lt→leb t.deadline timeline (omega (arith, h, late)))
        ∙ none_due d ts late hs

    pub none_changed :
        (d : ℕ) (ts : List (Timer A))
        → timeline < d
        → NotBefore d ts
        → filter_map (after_tick timeline) ts ≡ ts
    unfolding filter_map
    none_changed d [] late h = refl
    none_changed d (t ∷ ts) late (h, hs) =
        kept_here t ts (lt→leb t.deadline timeline (omega (arith, h, late)))
        ∙ ap (◌∷◌ t) (none_changed d ts late hs)
