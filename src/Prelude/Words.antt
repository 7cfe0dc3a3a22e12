-- ===== src/Prelude/Words.antt =====
-- `size_t` and the conversions between `size_t` and `int` on a 64-bit target: a value is the number
-- that its bit pattern denotes, and every operation wraps as the machine does.
use Prim.Native.Nat.{ℕ, ◌+◌, ◌-◌, ◌%◌, ◌^◌}
use toy_basket.Prelude.Tests.{ltb, if◌then◌else◌}

abbrev pub size_mod : ℕ
size_mod = 2 ^ 64

abbrev pub add_size : ℕ → ℕ → ℕ
add_size a b = (a + b) % size_mod

abbrev pub sub_size : ℕ → ℕ → ℕ
sub_size a b = (a + size_mod - b) % size_mod

-- `static_cast<size_t>(static_cast<int>(n))`: the low 32 bits, sign-extended.
abbrev pub size_through_int : ℕ → ℕ
size_through_int n =
    if ltb (n % 2 ^ 32) (2 ^ 31) then n % 2 ^ 32 else n % 2 ^ 32 + (2 ^ 64 - 2 ^ 32)

-- `std::vector<char>::max_size()`: the largest difference of two pointers.
abbrev pub max_size : ℕ
max_size = 2 ^ 63 - 1

-- `MSG_BUF_SIZE` of base/Types.h.
abbrev pub msg_buf_size : ℕ
msg_buf_size = 4096
