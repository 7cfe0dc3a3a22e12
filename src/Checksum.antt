-- ===== src/Checksum.antt =====
-- `getCrcCheck` of communication/serial/Serial.cpp and of component/ComponentBase.cpp: the same text
-- but for the type of a byte, which is `unsigned char` in the first and `char` in the second. The
-- bytes are numbers below 256; `char` is signed.
pub mod Bounds
mod Tests
use Prim.Native.Nat.{bit_and, bit_or, bit_xor}
use toy_basket.Prelude.{
  ℕ, zero, suc, ◌+◌, ◌-◌, ◌*◌, ◌/◌, ◌%◌, ◌^◌, ◌<◌, ◌≡◌, refl, ap, ap₂, List, [], ◌∷◌, map, ltb,
  lt→ltb, ◌==◌, if◌then◌else◌,
}

abbrev pub x_code : ℕ
x_code = 0x04C11DB7

-- One round of the loop over the bits.
abbrev pub shifted : ℕ → ℕ
shifted re_crc =
    if bit_and re_crc 0x80000000 == 0
    then re_crc * 2 % 2 ^ 32
    else bit_xor (re_crc * 2 % 2 ^ 32) x_code

pub crc_bit : ℕ → ℕ → ℕ → ℕ
crc_bit re_crc temp xbit =
    if bit_and temp xbit == 0 then shifted re_crc else bit_xor (shifted re_crc) x_code

pub crc_bits : ℕ → ℕ → ℕ → ℕ → ℕ
crc_bits zero re_crc temp xbit = re_crc
crc_bits (suc n) re_crc temp xbit = crc_bits n (crc_bit re_crc temp xbit) temp (xbit / 2)

-- The loop that collects up to four bytes, from index `j` on.
pub collect : ℕ → ℕ → List ℕ → ℕ
collect temp j [] = temp
collect temp j (x ∷ xs) = collect (bit_or temp (x * 2 ^ (8 * j) % 2 ^ 32)) (suc j) xs

abbrev pub crc_word : ℕ → List ℕ → ℕ
crc_word re_crc xs = crc_bits 32 re_crc (collect 0 0 xs) 0x80000000

-- The outer loop, on the values of the bytes as `int`s, in 32 bits.
pub crc_loop : ℕ → List ℕ → ℕ
crc_loop re_crc [] = re_crc
crc_loop re_crc (a ∷ []) = crc_word re_crc (a ∷ [])
crc_loop re_crc (a ∷ b ∷ []) = crc_word re_crc (a ∷ b ∷ [])
crc_loop re_crc (a ∷ b ∷ c ∷ []) = crc_word re_crc (a ∷ b ∷ c ∷ [])
crc_loop re_crc (a ∷ b ∷ c ∷ d ∷ rest) = crc_loop (crc_word re_crc (a ∷ b ∷ c ∷ d ∷ [])) rest

-- `Serial::getCrcCheck`.
pub serial_crc : List ℕ → ℕ
serial_crc bytes = crc_loop 0xFFFFFFFF bytes

-- A signed byte as an `int`, in 32 bits.
abbrev pub sign_extend : ℕ → ℕ
sign_extend c = if ltb c 128 then c else c + (2 ^ 32 - 2 ^ 8)

-- `ComponentBase::getCrcCheck`.
pub component_crc : List ℕ → ℕ
component_crc bytes = crc_loop 0xFFFFFFFF (map sign_extend bytes)

abbrev pub AllAscii : List ℕ → Type 0
AllAscii [] = Unit
AllAscii (c ∷ rest) = (c < 128) × AllAscii rest

sign_extend_ascii : (bytes : List ℕ) → AllAscii bytes → map sign_extend bytes ≡ bytes
sign_extend_ascii [] h = refl
sign_extend_ascii (c ∷ rest) (small, h) =
    ap₂ (λ x xs. x ∷ xs) (ap (λ t. if t then c else c + (2 ^ 32 - 2 ^ 8)) (lt→ltb c 128 small))
      (sign_extend_ascii rest h)

-- The two checksums are the same for bytes below 128.
pub same_crc : (bytes : List ℕ) → AllAscii bytes → component_crc bytes ≡ serial_crc bytes
unfolding serial_crc component_crc
same_crc bytes h = ap (crc_loop 0xFFFFFFFF) (sign_extend_ascii bytes h)
