-- ===== src/StreamServer/Names.antt =====
-- The names of connections: different as long as the buffer of `snprintf` holds them, and all the
-- same once the address fills it.
use toy_basket.Prelude.{
  ℕ, ◌+◌, ◌≤◌, ◌≡◌, sym, ap, ◌∙◌, List, [], ◌∷◌, ◌++◌, length, length-append, take_of_length,
  take-append, arith,
}
use toy_basket.StreamServer.{conn_name}

append_cancel : (xs ys zs : List ℕ) → xs ++ ys ≡ xs ++ zs → ys ≡ zs
append_cancel [] ys zs e = e
append_cancel (x ∷ xs) ys zs e =
    let tails : xs ++ ys ≡ xs ++ zs = cc in append_cancel xs ys zs tails

cons_injective : (x : ℕ) (xs ys : List ℕ) → x ∷ xs ≡ x ∷ ys → xs ≡ ys
cons_injective x xs ys e = cc

module _ (decimal : ℕ → List ℕ) (name ip_port : List ℕ) where
  whole_name :
      (i : ℕ)
      → length ip_port + length (decimal i) ≤ 61
      → conn_name decimal name ip_port i ≡ name ++ (45 ∷ (ip_port ++ (35 ∷ decimal i)))
  unfolding conn_name
  whole_name i h =
      ap (λ xs. name ++ xs)
        (take_of_length 63 (45 ∷ (ip_port ++ (35 ∷ decimal i)))
          (omega (arith, length-append ip_port (35 ∷ decimal i))))

  pub conn_name_injective :
      (i j : ℕ)
      → (decimal i ≡ decimal j → i ≡ j)
      → length ip_port + length (decimal i) ≤ 61
      → length ip_port + length (decimal j) ≤ 61
      → conn_name decimal name ip_port i ≡ conn_name decimal name ip_port j
      → i ≡ j
  conn_name_injective i j injective h h' e = injective (
      cons_injective 35 (decimal i) (decimal j) (
        append_cancel ip_port _ _ (
          cons_injective 45 _ _
            (append_cancel name _ _ (sym (whole_name i h) ∙ e ∙ whole_name j h')))))

  pub conn_name_long :
      (i j : ℕ)
      → 62 ≤ length ip_port
      → conn_name decimal name ip_port i ≡ conn_name decimal name ip_port j
  unfolding conn_name
  conn_name_long i j h =
      ap (λ xs. name ++ xs)
        (take-append 63 (45 ∷ ip_port) (35 ∷ decimal i) (omega arith)
          ∙ sym (take-append 63 (45 ∷ ip_port) (35 ∷ decimal j) (omega arith)))
