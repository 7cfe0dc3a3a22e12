-- ===== src/Channel/Mask.antt =====
-- The event masks that the channel operations produce.
use Prim.Native.Nat.{bit_or}
use toy_basket.Prelude.{ℕ, Bool, true, false, not, ◌&&◌, Bool-cases, inl, inr, ◌≡◌, refl}
use toy_basket.Channel.{
  is_idle, Channel, read_event, write_event, none_event, clear, is_writing, is_reading, has,
}

-- The mask of a channel, by whether it waits for input and for output.
abbrev pub mask : Bool → Bool → ℕ
mask false false = none_event
mask true false = read_event
mask false true = write_event
mask true true = bit_or read_event write_event

pub has_write-mask : (r w : Bool) → has (mask r w) write_event ≡ w
has_write-mask false false = refl
has_write-mask false true = refl
has_write-mask true false = refl
has_write-mask true true = refl

pub has_read-mask : (r w : Bool) → has (mask r w) read_event ≡ r
has_read-mask false false = refl
has_read-mask false true = refl
has_read-mask true false = refl
has_read-mask true true = refl

pub mask_with_write : (r w : Bool) → bit_or (mask r w) write_event ≡ mask r true
mask_with_write false false = refl
mask_with_write false true = refl
mask_with_write true false = refl
mask_with_write true true = refl

pub mask_without_write : (r w : Bool) → clear (mask r w) write_event ≡ mask r false
mask_without_write false false = refl
mask_without_write false true = refl
mask_without_write true false = refl
mask_without_write true true = refl

pub mask_with_read : (r w : Bool) → bit_or (mask r w) read_event ≡ mask true w
mask_with_read false false = refl
mask_with_read false true = refl
mask_with_read true false = refl
mask_with_read true true = refl

pub mask_without_read : (r w : Bool) → clear (mask r w) read_event ≡ mask false w
mask_without_read false false = refl
mask_without_read false true = refl
mask_without_read true false = refl
mask_without_read true true = refl

pub is_writing-mask : (ch : Channel) (r w : Bool) → ch.events ≡ mask r w → is_writing ch ≡ w
unfolding is_writing
is_writing-mask ch r w e = rw e (has_write-mask r w)

pub is_reading-mask : (ch : Channel) (r w : Bool) → ch.events ≡ mask r w → is_reading ch ≡ r
unfolding is_reading
is_reading-mask ch r w e = rw e (has_read-mask r w)

-- An idle channel is not in a loop.
pub is_idle_lem : (ch : Channel) → is_idle ch ≡ true → ch.added_to_loop ≡ false
unfolding is_idle
is_idle_lem ch e = elim (Bool-cases ch.added_to_loop) [
  | inl on ↦ absurd (never ch.event_handling (rw on at e))
  | inr off ↦ off
]
  where
    never : (b : Bool) → (not b && false) ≡ true → ⊥
    never true h = cc
    never false h = cc
