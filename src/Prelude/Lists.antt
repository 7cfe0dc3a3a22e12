-- ===== src/Prelude/Lists.antt =====
-- Lists measured and indexed by native numbers, under the library's names, and the two bulk
-- operations of a byte vector: `slice` and `overwrite`.
use Prim.Native.Nat.{ℕ, zero, suc, ◌+◌, ◌-◌, ◌≤◌, min}
use mathlib.Core.Path.{◌≡◌, refl, sym, ap, ◌∙◌}
use mathlib.Core.List.{List, [], ◌∷◌, ◌++◌}
use mathlib.Core.Option.{Option, none, some}
use native.Mathlib.Omega.{arith}

module _ {ℓ} {A : Type ℓ} where
  abbrev pub length : List A → ℕ
  length [] = 0
  length (x ∷ xs) = suc (length xs)

  abbrev pub get_elem? : List A → ℕ → Option A
  get_elem? [] i = none
  get_elem? (x ∷ xs) zero = some x
  get_elem? (x ∷ xs) (suc i) = get_elem? xs i

  abbrev pub take : ℕ → List A → List A
  take zero xs = []
  take (suc n) [] = []
  take (suc n) (x ∷ xs) = x ∷ take n xs

  abbrev pub drop : ℕ → List A → List A
  drop zero xs = xs
  drop (suc n) [] = []
  drop (suc n) (x ∷ xs) = drop n xs

  abbrev pub replicate : ℕ → A → List A
  replicate zero a = []
  replicate (suc n) a = a ∷ replicate n a

  -- The `n` entries from index `i` on.
  abbrev pub slice : ℕ → ℕ → List A → List A
  slice i n xs = take n (drop i xs)

  -- `std::copy(ys.begin(), ys.end(), xs.begin() + i)`; what lies past the end of `xs` is dropped.
  abbrev pub overwrite : List A → ℕ → List A → List A
  overwrite [] i ys = []
  overwrite (x ∷ xs) (suc i) ys = x ∷ overwrite xs i ys
  overwrite (x ∷ xs) zero [] = x ∷ xs
  overwrite (x ∷ xs) zero (y ∷ ys) = y ∷ overwrite xs zero ys

module _ {ℓ} {A : Type ℓ} where
  pub length-append : (xs ys : List A) → length (xs ++ ys) ≡ length xs + length ys
  length-append [] ys = omega arith
  length-append (x ∷ xs) ys = omega (arith, length-append xs ys)

  pub empty_of_length : (xs : List A) → length xs ≡ 0 → xs ≡ []
  empty_of_length [] e = refl
  empty_of_length (x ∷ xs) e = absurd (omega (arith, e))

  pub length-take : (n : ℕ) (xs : List A) → length (take n xs) ≡ min n (length xs)
  length-take zero xs = omega arith
  length-take (suc n) [] = omega arith
  length-take (suc n) (x ∷ xs) = omega (arith, length-take n xs)

  pub length-drop : (n : ℕ) (xs : List A) → length (drop n xs) ≡ length xs - n
  length-drop zero xs = omega arith
  length-drop (suc n) [] = omega arith
  length-drop (suc n) (x ∷ xs) = omega (arith, length-drop n xs)

  pub length-replicate : (n : ℕ) (a : A) → length (replicate n a) ≡ n
  length-replicate zero a = refl
  length-replicate (suc n) a = ap suc (length-replicate n a)

  pub length-overwrite :
      (xs : List A) (i : ℕ) (ys : List A) → length (overwrite xs i ys) ≡ length xs
  length-overwrite [] i ys = refl
  length-overwrite (x ∷ xs) (suc i) ys = ap suc (length-overwrite xs i ys)
  length-overwrite (x ∷ xs) zero [] = refl
  length-overwrite (x ∷ xs) zero (y ∷ ys) = ap suc (length-overwrite xs zero ys)

  pub length-slice : (i n : ℕ) (xs : List A) → i + n ≤ length xs → length (slice i n xs) ≡ n
  length-slice i n xs h = omega (arith, length-take n (drop i xs), length-drop i xs)

  pub take-append-drop : (n : ℕ) (xs : List A) → take n xs ++ drop n xs ≡ xs
  take-append-drop zero xs = refl
  take-append-drop (suc n) [] = refl
  take-append-drop (suc n) (x ∷ xs) = ap (◌∷◌ x) (take-append-drop n xs)

  pub take_of_length : (n : ℕ) (xs : List A) → length xs ≤ n → take n xs ≡ xs
  take_of_length zero [] h = refl
  take_of_length zero (x ∷ xs) h = absurd (omega arith)
  take_of_length (suc n) [] h = refl
  take_of_length (suc n) (x ∷ xs) h = ap (◌∷◌ x) (take_of_length n xs (omega arith))

  pub drop_of_length : (n : ℕ) (xs : List A) → length xs ≤ n → drop n xs ≡ []
  drop_of_length zero [] h = refl
  drop_of_length zero (x ∷ xs) h = absurd (omega arith)
  drop_of_length (suc n) [] h = refl
  drop_of_length (suc n) (x ∷ xs) h = drop_of_length n xs (omega arith)

  pub take-append : (n : ℕ) (xs ys : List A) → n ≤ length xs → take n (xs ++ ys) ≡ take n xs
  take-append zero xs ys h = refl
  take-append (suc n) [] ys h = absurd (omega arith)
  take-append (suc n) (x ∷ xs) ys h = ap (◌∷◌ x) (take-append n xs ys (omega arith))

  pub drop-append : (n : ℕ) (xs ys : List A) → n ≤ length xs → drop n (xs ++ ys) ≡ drop n xs ++ ys
  drop-append zero xs ys h = refl
  drop-append (suc n) [] ys h = absurd (omega arith)
  drop-append (suc n) (x ∷ xs) ys h = drop-append n xs ys (omega arith)

  pub take-append_length : (xs ys : List A) → take (length xs) (xs ++ ys) ≡ xs
  take-append_length [] ys = refl
  take-append_length (x ∷ xs) ys = ap (◌∷◌ x) (take-append_length xs ys)

  pub drop-append_length : (xs ys : List A) → drop (length xs) (xs ++ ys) ≡ ys
  drop-append_length [] ys = refl
  drop-append_length (x ∷ xs) ys = drop-append_length xs ys

  pub take-take : (m n : ℕ) (xs : List A) → m ≤ n → take m (take n xs) ≡ take m xs
  take-take zero n xs h = refl
  take-take (suc m) zero xs h = absurd (omega arith)
  take-take (suc m) (suc n) [] h = refl
  take-take (suc m) (suc n) (x ∷ xs) h = ap (◌∷◌ x) (take-take m n xs (omega arith))

module _ {ℓ} {A : Type ℓ} where
  -- Growing a vector keeps every slice of the old one.
  pub slice-append :
      (i n : ℕ) (xs ys : List A) → i + n ≤ length xs → slice i n (xs ++ ys) ≡ slice i n xs
  slice-append i n xs ys h =
      rw (drop-append i xs ys (omega arith))
        (take-append n (drop i xs) ys (omega (arith, length-drop i xs)))

  pub take-nil : (n : ℕ) → take {A = A} n [] ≡ []
  take-nil zero = refl
  take-nil (suc n) = refl

  pub drop-nil : (n : ℕ) → drop {A = A} n [] ≡ []
  drop-nil zero = refl
  drop-nil (suc n) = refl

  -- The index of `take` and `drop` up to an equation between numbers.
  pub take_congr : {m n : ℕ} (xs : List A) → m ≡ n → take m xs ≡ take n xs
  take_congr xs e = ap (λ k. take k xs) e

  drop_congr : {m n : ℕ} (xs : List A) → m ≡ n → drop m xs ≡ drop n xs
  drop_congr xs e = ap (λ k. drop k xs) e

  pub drop-take : (k n : ℕ) (xs : List A) → drop k (take n xs) ≡ take (n - k) (drop k xs)
  drop-take zero n xs = take_congr {m = n} {n = n - 0} xs (omega arith)
  drop-take (suc k) zero xs =
      sym (take_congr {m = 0 - suc k} {n = 0} (drop (suc k) xs) (omega arith))
  drop-take (suc k) (suc n) [] = sym (take-nil (suc n - suc k))
  drop-take (suc k) (suc n) (x ∷ xs) =
      drop-take k n xs ∙ take_congr {m = n - k} {n = suc n - suc k} (drop k xs) (omega arith)

  pub drop-drop : (k i : ℕ) (xs : List A) → drop k (drop i xs) ≡ drop (i + k) xs
  drop-drop k zero xs = drop_congr {m = k} {n = 0 + k} xs (omega arith)
  drop-drop k (suc i) [] = drop-nil k ∙ sym (drop-nil (suc i + k))
  drop-drop k (suc i) (x ∷ xs) =
      drop-drop k i xs ∙ drop_congr {m = suc (i + k)} {n = suc i + k} (x ∷ xs) (omega arith)

  pub take-add : (m n : ℕ) (xs : List A) → take (m + n) xs ≡ take m xs ++ take n (drop m xs)
  take-add zero n xs = take_congr {m = 0 + n} {n = n} xs (omega arith)
  take-add (suc m) n [] = take-nil (suc m + n) ∙ sym (take-nil n)
  take-add (suc m) n (x ∷ xs) =
      take_congr {m = suc m + n} {n = suc (m + n)} (x ∷ xs) (omega arith)
      ∙ ap (◌∷◌ x) (take-add m n xs)

  -- A slice falls into two at any point of it.
  pub slice-add :
      (i m n : ℕ) (xs : List A) → slice i (m + n) xs ≡ slice i m xs ++ slice (i + m) n xs
  slice-add i m n xs =
      take-add m n (drop i xs) ∙ ap (λ ys. slice i m xs ++ take n ys) (drop-drop m i xs)

  pub drop-slice : (k i n : ℕ) (xs : List A) → drop k (slice i n xs) ≡ slice (i + k) (n - k) xs
  drop-slice k i n xs = drop-take k n (drop i xs) ∙ ap (take (n - k)) (drop-drop k i xs)

  pub slice-overwrite_self :
      (xs : List A) (i : ℕ) (ys : List A)
      → i + length ys ≤ length xs
      → slice i (length ys) (overwrite xs i ys) ≡ ys
  slice-overwrite_self [] zero [] h = refl
  slice-overwrite_self [] zero (y ∷ ys) h = absurd (omega arith)
  slice-overwrite_self [] (suc i) ys h = absurd (omega arith)
  slice-overwrite_self (x ∷ xs) (suc i) ys h = slice-overwrite_self xs i ys (omega arith)
  slice-overwrite_self (x ∷ xs) zero [] h = refl
  slice-overwrite_self (x ∷ xs) zero (y ∷ ys) h =
      ap (◌∷◌ y) (slice-overwrite_self xs zero ys (omega arith))

  pub take-overwrite :
      (n : ℕ) (xs : List A) (i : ℕ) (ys : List A) → n ≤ i → take n (overwrite xs i ys) ≡ take n xs
  take-overwrite zero xs i ys h = refl
  take-overwrite (suc n) [] i ys h = refl
  take-overwrite (suc n) (x ∷ xs) zero ys h = absurd (omega arith)
  take-overwrite (suc n) (x ∷ xs) (suc i) ys h = ap (◌∷◌ x) (take-overwrite n xs i ys (omega arith))

  pub drop-overwrite :
      (j : ℕ) (xs : List A) (i : ℕ) (ys : List A)
      → i + length ys ≤ j
      → drop j (overwrite xs i ys) ≡ drop j xs
  drop-overwrite j [] i ys h = refl
  drop-overwrite zero (x ∷ xs) zero [] h = refl
  drop-overwrite (suc j) (x ∷ xs) zero [] h = refl
  drop-overwrite zero (x ∷ xs) zero (y ∷ ys) h = absurd (omega arith)
  drop-overwrite (suc j) (x ∷ xs) zero (y ∷ ys) h = drop-overwrite j xs zero ys (omega arith)
  drop-overwrite zero (x ∷ xs) (suc i) ys h = absurd (omega arith)
  drop-overwrite (suc j) (x ∷ xs) (suc i) ys h = drop-overwrite j xs i ys (omega arith)

  -- Writing before or behind a slice leaves it.
  pub slice-overwrite_before :
      (i n : ℕ) (xs : List A) (j : ℕ) (ys : List A)
      → i + n ≤ j
      → slice i n (overwrite xs j ys) ≡ slice i n xs
  slice-overwrite_before zero n xs j ys h = take-overwrite n xs j ys (omega arith)
  slice-overwrite_before (suc i) n [] j ys h = refl
  slice-overwrite_before (suc i) n (x ∷ xs) zero ys h = absurd (omega arith)
  slice-overwrite_before (suc i) n (x ∷ xs) (suc j) ys h =
      slice-overwrite_before i n xs j ys (omega arith)

  pub slice-overwrite_after :
      (i n : ℕ) (xs : List A) (j : ℕ) (ys : List A)
      → j + length ys ≤ i
      → slice i n (overwrite xs j ys) ≡ slice i n xs
  slice-overwrite_after i n xs j ys h = ap (take n) (drop-overwrite i xs j ys h)
