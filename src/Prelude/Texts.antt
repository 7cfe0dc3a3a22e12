-- ===== src/Prelude/Texts.antt =====
-- Texts as lists of bytes, and maps that have them as keys.
use Prim.Native.Nat.{ℕ}
use mathlib.Core.Path.{◌≡◌, refl, ap₂}
use mathlib.Core.Bool.{Bool, true, false, ◌&&◌}
use mathlib.Core.List.{List, [], ◌∷◌}
use toy_basket.Prelude.Tests.{◌==◌, ==_refl, ==_iff, if◌then◌else◌, and_true}

-- `==` of `std::string`.
abbrev pub same_text : List ℕ → List ℕ → Bool
same_text [] [] = true
same_text [] (y ∷ ys) = false
same_text (x ∷ xs) [] = false
same_text (x ∷ xs) (y ∷ ys) = (x == y) && same_text xs ys

abbrev pub assign {ℓ} : {A : Type ℓ} → (List ℕ → A) → List ℕ → A → List ℕ → A
assign f name a other = if same_text name other then a else f other

pub same_text_refl : (text : List ℕ) → same_text text text ≡ true
same_text_refl [] = refl
same_text_refl (x ∷ xs) = rw (==_refl x) (same_text_refl xs)

module _ {ℓ} {A : Type ℓ} (f : List ℕ → A) (name : List ℕ) (a : A) where
  pub assign_same : assign f name a name ≡ a
  assign_same = rw (same_text_refl name) refl

  pub assign_other :
      (other : List ℕ) → same_text name other ≡ false → assign f name a other ≡ f other
  assign_other other e = rw e refl

pub same_text_eq : (xs ys : List ℕ) → same_text xs ys ≡ true → xs ≡ ys
same_text_eq [] [] e = refl
same_text_eq [] (y ∷ ys) e = cc
same_text_eq (x ∷ xs) [] e = cc
same_text_eq (x ∷ xs) (y ∷ ys) e =
    let (here, there) = and_true (x == y) (same_text xs ys) e in
    ap₂ (λ z zs. z ∷ zs) ((==_iff x y).0 here) (same_text_eq xs ys there)
