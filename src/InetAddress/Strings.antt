-- ===== src/InetAddress/Strings.antt =====
-- Texts that end at a zero byte, in a buffer: strlen, strncpy and snprintf.
use toy_basket.Prelude.{
  ℕ, suc, zero, ◌-◌, ◌≤◌, ◌<◌, List, [], ◌∷◌, ◌++◌, length, take, drop, overwrite, replicate, Bool,
  if◌then◌else◌, ◌==◌, ◌≡◌, refl, sym, ap, ◌∙◌, arith, Bool-cases, inl, inr, append_assoc,
  length-append, take_of_length,
}
use toy_basket.InetAddress.{c_str, snprintf}

-- A text without zeros, of at most `n` bytes.
abbrev pub IsText : ℕ → List ℕ → Type 0
IsText n text = (c_str text ≡ text) × (length text ≤ n)

pub c_str-zero : (xs ys : List ℕ) → c_str (xs ++ 0 ∷ ys) ≡ c_str xs
c_str-zero [] ys = refl
c_str-zero (x ∷ xs) ys = elim (Bool-cases (x == 0)) [
  | inl e ↦ rw e refl
  | inr e ↦ rw e (ap (◌∷◌ x) (c_str-zero xs ys))
]

pub c_str-c_str : (xs : List ℕ) → c_str (c_str xs) ≡ c_str xs
c_str-c_str [] = refl
c_str-c_str (x ∷ xs) = elim (Bool-cases (x == 0)) [
  | inl e ↦ rw e refl
  | inr e ↦ rw (e, e) (ap (◌∷◌ x) (c_str-c_str xs))
]

pub length-c_str : (xs : List ℕ) → length (c_str xs) ≤ length xs
length-c_str [] = omega arith
length-c_str (x ∷ xs) = elim (Bool-cases (x == 0)) [
  | inl e ↦ rw e (omega arith)
  | inr e ↦ rw e (omega (arith, length-c_str xs))
]

pub c_str-append : (xs ys : List ℕ) → c_str xs ≡ xs → c_str (xs ++ ys) ≡ xs ++ c_str ys
c_str-append [] ys h = refl
c_str-append (x ∷ xs) ys h =
    let test : Bool → List ℕ = λ b. if b then [] else x ∷ c_str xs in
    elim (Bool-cases (x == 0)) [
      | inl e ↦ let no : [] ≡ x ∷ xs = sym (ap test e) ∙ h in cc
      | inr e ↦
          let same : x ∷ c_str xs ≡ x ∷ xs = sym (ap test e) ∙ h in
          let rest : c_str xs ≡ xs = cc in rw e (ap (◌∷◌ x) (c_str-append xs ys rest))
    ]

-- `strncpy` into `n` bytes cuts a text off.
pub c_str-take :
    (n k : ℕ) (xs : List ℕ) → n ≤ k → c_str (take n (c_str xs ++ replicate k 0)) ≡ take n (c_str xs)
c_str-take zero k xs h = refl
c_str-take (suc n) zero xs h = absurd (omega arith)
c_str-take (suc n) (suc k) [] h = refl
c_str-take (suc n) (suc k) (x ∷ xs) h = elim (Bool-cases (x == 0)) [
  | inl e ↦ rw e refl
  | inr e ↦ rw (e, e) (ap (◌∷◌ x) (c_str-take n (suc k) xs (omega (arith, h))))
]

pub overwrite_split :
    (xs ys zs : List ℕ)
    → length ys ≤ length zs
    → overwrite (xs ++ zs) (length xs) ys ≡ xs ++ (ys ++ drop (length ys) zs)
overwrite_split (x ∷ xs) ys zs h = ap (◌∷◌ x) (overwrite_split xs ys zs h)
overwrite_split [] [] [] h = refl
overwrite_split [] [] (z ∷ zs) h = refl
overwrite_split [] (y ∷ ys) [] h = absurd (omega arith)
overwrite_split [] (y ∷ ys) (z ∷ zs) h = ap (◌∷◌ y) (overwrite_split [] ys zs (omega (arith, h)))

-- A text written behind another into a buffer with room for it and its zero.
pub written :
    (xs ys zs : List ℕ)
    → length ys < length zs
    → overwrite (xs ++ zs) (length xs) (ys ++ 0 ∷ [])
      ≡ xs ++ (ys ++ 0 ∷ drop (length (ys ++ 0 ∷ [])) zs)
written xs ys zs h =
    overwrite_split xs (ys ++ 0 ∷ []) zs (omega (arith, h, length-append ys (0 ∷ [])))
    ∙ ap (λ us. xs ++ us) (append_assoc ys (0 ∷ []) (drop (length (ys ++ 0 ∷ [])) zs))

pub c_str-written :
    (xs ys zs : List ℕ)
    → c_str xs ≡ xs
    → c_str ys ≡ ys
    → length ys < length zs
    → c_str (overwrite (xs ++ zs) (length xs) (ys ++ 0 ∷ [])) ≡ xs ++ ys
c_str-written xs ys zs h k room =
    ap c_str (written xs ys zs room)
    ∙ c_str-append xs (ys ++ 0 ∷ drop (length (ys ++ 0 ∷ [])) zs) h
    ∙ ap (λ us. xs ++ us) (c_str-zero ys (drop (length (ys ++ 0 ∷ [])) zs) ∙ k)

pub snprintf_whole : (n : ℕ) (text : List ℕ) → length text < n → snprintf n text ≡ text ++ 0 ∷ []
snprintf_whole n text h = ap (λ t. t ++ 0 ∷ []) (take_of_length (n - 1) text (omega (arith, h)))
