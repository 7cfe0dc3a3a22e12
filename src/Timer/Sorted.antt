-- ===== src/Timer/Sorted.antt =====
-- base/Timer.cpp: the heap algorithms of <algorithm> can be met, by vectors in the order of the
-- deadlines.
use toy_basket.Prelude.{
  ℕ, List, [], ◌∷◌, ◌++◌, if◌then◌else◌, ◌≤◌, ◌<◌, leb, refl, arith, Bool-cases, inl, inr, leb→le,
  leb→lt, le→leb,
}
use mathlib.Core.List.Permᴰ
use mathlib.Core.List.{Permᴰ}
use toy_basket.Timer.{Timer, Heap}
use toy_basket.Timer.Laws.{All-perm, NotBefore, IsSorted, Laws}
use toy_basket.Timer.Hang.{Small}

module _ {ℓ} {A : Type ℓ} where
  abbrev place : Timer A → List (Timer A) → List (Timer A)
  place t [] = t ∷ []
  place t (u ∷ us) = if leb t.deadline u.deadline then t ∷ u ∷ us else u ∷ place t us

  abbrev sort : List (Timer A) → List (Timer A)
  sort [] = []
  sort (t ∷ ts) = place t (sort ts)

  abbrev pop_sorted : List (Timer A) → List (Timer A)
  pop_sorted [] = []
  pop_sorted (t ∷ ts) = sort ts ++ t ∷ []

  abbrev pub sorted_heap : Heap A
  sorted_heap = record { push_heap = sort; pop_heap = pop_sorted; make_heap = sort }

  place-perm : (t : Timer A) (ts : List (Timer A)) → Permᴰ (place t ts) (t ∷ ts)
  place-perm t [] = Permᴰ.refl (t ∷ [])
  place-perm t (u ∷ us) = elim (Bool-cases (leb t.deadline u.deadline)) [
    | inl e ↦ rw e (Permᴰ.refl (t ∷ u ∷ us))
    | inr e ↦ rw e (Permᴰ.trans (Permᴰ.cons refl (place-perm t us)) (Permᴰ.swap refl refl))
  ]

  sort-perm : (ts : List (Timer A)) → Permᴰ (sort ts) ts
  sort-perm [] = Permᴰ.nil
  sort-perm (t ∷ ts) = Permᴰ.trans (place-perm t (sort ts)) (Permᴰ.cons refl (sort-perm ts))

  NotBefore-weaken : (d e : ℕ) (ts : List (Timer A)) → d ≤ e → NotBefore e ts → NotBefore d ts
  NotBefore-weaken d e [] h k = tt
  NotBefore-weaken d e (t ∷ ts) h (k, ks) = (omega (arith, h, k), NotBefore-weaken d e ts h ks)

  place-IsSorted : (t : Timer A) (ts : List (Timer A)) → IsSorted ts → IsSorted (place t ts)
  place-IsSorted t [] h = (tt, tt)
  place-IsSorted t (u ∷ us) (h, hs) = elim (Bool-cases (leb t.deadline u.deadline)) [
    | inl e ↦ rw e (
      (
        leb→le t.deadline u.deadline e,
        NotBefore-weaken t.deadline u.deadline us (leb→le t.deadline u.deadline e) h,
      ),
      (h, hs),
    )
    | inr e ↦
        let late : u.deadline < t.deadline = leb→lt t.deadline u.deadline e in
        rw e (
          All-perm (λ v. u.deadline ≤ v.deadline) (Permᴰ.symm (place-perm t us))
              (omega (arith, late), h),
          place-IsSorted t us hs,
        )
  ]

  sort-IsSorted : (ts : List (Timer A)) → IsSorted (sort ts)
  sort-IsSorted [] = tt
  sort-IsSorted (t ∷ ts) = place-IsSorted t (sort ts) (sort-IsSorted ts)

  pub sorted_small : (t : Timer A) → Small sorted_heap t
  sorted_small t = record {
    pop_one = refl;
    push_second = λ u h. rw (le→leb t.deadline u.deadline (omega (arith, h))) refl;
  }

pub sorted_laws : {A : Type 0} → Laws {A = A} sorted_heap IsSorted
sorted_laws {A} = record {
  least = λ t ts h. h.0;
  push = λ ts t h. (
    sort-IsSorted (ts ++ t ∷ []),
    Permᴰ.trans (sort-perm (ts ++ t ∷ [])) (Permᴰ.append_comm ts (t ∷ [])),
  );
  pop = λ t ts h. (sort ts, refl, sort-IsSorted ts, sort-perm ts);
  pop_none = refl;
  make = λ ts. (sort-IsSorted ts, sort-perm ts);
}
