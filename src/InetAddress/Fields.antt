-- ===== src/InetAddress/Fields.antt =====
-- src/communication/net/InetAddress.cpp: the fields of an address after a write to another.
use toy_basket.Prelude.{
  ℕ, ◌+◌, ◌≤◌, ◌<◌, List, length, overwrite, replicate, ◌≡◌, ap, ◌∙◌, arith, length-overwrite,
  slice-overwrite_self, slice-overwrite_before, slice-overwrite_after,
}
use toy_basket.InetAddress.{short_bytes, short_at, short_of, swap_short, zeroed, family}

-- A port survives the order of the network and the memory.
pub swap_short-swap_short :
    (v : ℕ) → v < 65536 → swap_short (short_of (short_bytes (swap_short v))) ≡ v
swap_short-swap_short v h = omega arith

pub short_of-short_bytes : (v : ℕ) → v < 65536 → short_of (short_bytes v) ≡ v
short_of-short_bytes v h = omega arith

module _ (m : List ℕ) (i : ℕ) where
  pub short_at-overwrite_self :
      (v : ℕ)
      → i + 2 ≤ length m
      → short_at i (overwrite m i (short_bytes v)) ≡ short_of (short_bytes v)
  short_at-overwrite_self v h = ap short_of (slice-overwrite_self m i (short_bytes v) h)

  pub short_at-overwrite_before :
      (j : ℕ) (ys : List ℕ) → i + 2 ≤ j → short_at i (overwrite m j ys) ≡ short_at i m
  short_at-overwrite_before j ys h = ap short_of (slice-overwrite_before i 2 m j ys h)

  pub short_at-overwrite_after :
      (j : ℕ) (ys : List ℕ) → j + length ys ≤ i → short_at i (overwrite m j ys) ≡ short_at i m
  short_at-overwrite_after j ys h = ap short_of (slice-overwrite_after i 2 m j ys h)

module _ (size af : ℕ) (m : List ℕ) where
  pub length-zeroed : length (zeroed size af m) ≡ length m
  unfolding zeroed
  length-zeroed =
      length-overwrite (overwrite m 0 (replicate size 0)) 0 (short_bytes af)
      ∙ length-overwrite m 0 (replicate size 0)

  pub family-zeroed : 2 ≤ length m → af < 65536 → family (zeroed size af m) ≡ af
  unfolding zeroed family
  family-zeroed h small =
      short_at-overwrite_self (overwrite m 0 (replicate size 0)) 0 af
        (omega (arith, length-overwrite m 0 (replicate size 0)))
      ∙ short_of-short_bytes af small
