-- ===== src/Checksum/Bounds.antt =====
-- The checksum is a number of 32 bits, and the signed one differs on single bytes from 128 on.
use Prim.Native.Nat.{bit_xor, bit_and, digits, differ, bit_xor-bitwise}
use toy_basket.Prelude.{
  ℕ, zero, suc, ◌+◌, ◌-◌, ◌*◌, ◌/◌, ◌%◌, ◌≤◌, ◌<◌, ◌^◌, ◌≡◌, ◌≢◌, refl, sym, ap, ◌∙◌, subst, List,
  [], ◌∷◌, Bool, true, false, not, ◌&&◌, ◌==◌, ==_iff, if◌then◌else◌, and_true, Bool-cases, inl,
  inr, arith,
}
use toy_basket.Checksum.{
  x_code, shifted, crc_bit, crc_bits, collect, crc_word, crc_loop, serial_crc, component_crc,
}

abbrev power : ℕ → ℕ
power zero = 1
power (suc n) = 2 * power n

differ_bit : (x y : ℕ) → x < 2 → y < 2 → differ x y < 2
differ_bit zero y h h' = h'
differ_bit (suc zero) zero h h' = omega arith
differ_bit (suc zero) (suc y) h h' = omega arith
differ_bit (suc (suc x)) y h h' = absurd (omega arith)

digits_bound :
    (count n a b : ℕ) → a < power n → b < power n → digits (λ b. b) differ count a b < power n
digits_bound zero n a b h h' = h'
digits_bound (suc count) n zero b h h' = h'
digits_bound (suc count) zero (suc a) b h h' = absurd (omega arith)
digits_bound (suc count) (suc n) (suc a) b h h' =
    let high : digits (λ b. b) differ count (suc a / 2) (b / 2) < power n =
      digits_bound count n (suc a / 2) (b / 2) (omega arith) (omega arith) in
    let low : differ (suc a % 2) (b % 2) < 2 =
      differ_bit (suc a % 2) (b % 2) (omega arith) (omega arith) in
    omega (arith, high, low)

bit_xor_bound : (a b : ℕ) → a < 2 ^ 32 → b < 2 ^ 32 → bit_xor a b < 2 ^ 32
bit_xor_bound a b h h' =
    subst (λ x. x < 2 ^ 32) (sym (bit_xor-bitwise a b)) (digits_bound a 32 a b h h')

if_bound : (t : Bool) (x y n : ℕ) → x < n → y < n → (if t then x else y) < n
if_bound true x y n h h' = h
if_bound false x y n h h' = h'

crc_bit_bound : (re_crc temp xbit : ℕ) → crc_bit re_crc temp xbit < 2 ^ 32
unfolding crc_bit
crc_bit_bound re_crc temp xbit =
    let twice : re_crc * 2 % 2 ^ 32 < 2 ^ 32 = omega arith in
    let s : shifted re_crc < 2 ^ 32 =
      if_bound (bit_and re_crc 0x80000000 == 0) (re_crc * 2 % 2 ^ 32) _ (2 ^ 32) twice
        (bit_xor_bound (re_crc * 2 % 2 ^ 32) x_code twice (omega arith)) in
    if_bound (bit_and temp xbit == 0) (shifted re_crc) _ (2 ^ 32) s
      (bit_xor_bound (shifted re_crc) x_code s (omega arith))

crc_bits_bound : (n re_crc temp xbit : ℕ) → re_crc < 2 ^ 32 → crc_bits n re_crc temp xbit < 2 ^ 32
unfolding crc_bits
crc_bits_bound zero re_crc temp xbit h = h
crc_bits_bound (suc n) re_crc temp xbit h =
    crc_bits_bound n (crc_bit re_crc temp xbit) temp (xbit / 2) (crc_bit_bound re_crc temp xbit)

crc_loop_bound : (re_crc : ℕ) (xs : List ℕ) → re_crc < 2 ^ 32 → crc_loop re_crc xs < 2 ^ 32
unfolding crc_loop
crc_loop_bound re_crc [] h = h
crc_loop_bound re_crc (a ∷ []) h = crc_bits_bound 32 re_crc _ _ h
crc_loop_bound re_crc (a ∷ b ∷ []) h = crc_bits_bound 32 re_crc _ _ h
crc_loop_bound re_crc (a ∷ b ∷ c ∷ []) h = crc_bits_bound 32 re_crc _ _ h
crc_loop_bound re_crc (a ∷ b ∷ c ∷ d ∷ rest) h =
    crc_loop_bound (crc_word re_crc (a ∷ b ∷ c ∷ d ∷ [])) rest (crc_bits_bound 32 re_crc _ _ h)

-- Both checksums of any bytes fit 32 bits: no step of the loops leaves the range of `unsigned int`.
pub crc_bound : (bytes : List ℕ) → (serial_crc bytes < 2 ^ 32) × (component_crc bytes < 2 ^ 32)
unfolding serial_crc component_crc
crc_bound bytes =
    (crc_loop_bound 0xFFFFFFFF bytes (omega arith), crc_loop_bound 0xFFFFFFFF _ (omega arith))

all_below : ℕ → (ℕ → Bool) → Bool
all_below zero p = true
all_below (suc n) p = p n && all_below n p

all_below_lem : (n : ℕ) (p : ℕ → Bool) → all_below n p ≡ true → (i : ℕ) → i < n → p i ≡ true
unfolding all_below
all_below_lem zero p h i small = absurd (omega arith)
all_below_lem (suc n) p h i small = elim (Bool-cases (i == n)) [
  | inl last ↦ ap p ((==_iff i n).0 last) ∙ (and_true (p n) (all_below n p) h).0
  | inr earlier ↦ all_below_lem n p ((and_true (p n) (all_below n p) h).1) i (ground arith)
]

abbrev differs_at : ℕ → Bool
differs_at c = not (component_crc (c ∷ []) == serial_crc (c ∷ []))

differs_table : all_below 128 (λ i. differs_at (128 + i)) ≡ true
unfolding all_below component_crc serial_crc crc_loop crc_bits crc_bit collect
differs_table = refl

-- The two checksums of a single byte from 128 on are different.
pub crc_differs : (c : ℕ) → 128 ≤ c → c < 256 → component_crc (c ∷ []) ≢ serial_crc (c ∷ [])
crc_differs c low high same =
    let differs : differs_at (128 + (c - 128)) ≡ true =
      all_below_lem 128 (λ i. differs_at (128 + i)) differs_table (c - 128) (omega arith) in
    let there : differs_at c ≡ true = subst (λ i. differs_at i ≡ true) (omega arith) differs in
    let hit : (component_crc (c ∷ []) == serial_crc (c ∷ [])) ≡ true = (==_iff _ _).1 same in
    absurd cc
