-- ===== src/Channel.antt =====
-- communication/Channel.h and Channel.cpp: the event mask of a file descriptor and the dispatch of
-- the events that `poll` reports. Event masks are the bit patterns of the source's `int`s. The
-- calls into the event loop that every change of the mask makes are in `Poller`.
pub mod Mask
use Prim.Native.Nat.{bit_and, bit_or}
use toy_basket.Prelude.{
  ℕ, ◌-◌, ◌^◌, List, [], ◌∷◌, ◌++◌, Bool, true, false, not, ◌&&◌, ◌==◌, if◌then◌else◌,
}

-- The flags of <poll.h>.
abbrev pub poll_in : ℕ
poll_in = 1

abbrev pub poll_pri : ℕ
poll_pri = 2

abbrev pub poll_out : ℕ
poll_out = 4

abbrev pub poll_err : ℕ
poll_err = 8

abbrev pub poll_hup : ℕ
poll_hup = 16

abbrev pub poll_nval : ℕ
poll_nval = 32

abbrev pub poll_rdhup : ℕ
poll_rdhup = 0x2000

abbrev pub none_event : ℕ
none_event = 0

abbrev pub read_event : ℕ
read_event = bit_or poll_in poll_pri

abbrev pub write_event : ℕ
write_event = poll_out

-- `mask & flags` as a condition.
abbrev pub has : ℕ → ℕ → Bool
has mask flags = not (bit_and mask flags == 0)

-- `mask &= ~flags` on 32 bits.
abbrev pub clear : ℕ → ℕ → ℕ
clear mask flags = bit_and mask (2 ^ 32 - 1 - flags)

-- `index_`, by the constants of EPollPoller.cpp.
pub data Index : Type 0 where
  k_new k_added k_deleted : Index

-- The four callbacks, by what they are for.
pub data Callback : Type 0 where
  close error read write : Callback

pub record Channel : Type 0 where
  pub fd : ℕ
  pub events : ℕ
  pub revents : ℕ
  pub index : Index
  pub log_hup : Bool
  pub tied : Bool
  pub event_handling : Bool
  pub added_to_loop : Bool
  pub callback : Callback → Bool

abbrev pub new_channel : ℕ → Channel
new_channel fd = record {
  fd = fd;
  events = 0;
  revents = 0;
  index = k_new;
  log_hup = true;
  tied = false;
  event_handling = false;
  added_to_loop = false;
  callback = λ _. false;
}

unfoldable pub is_none_event : Channel → Bool
is_none_event ch = ch.events == none_event

pub is_writing : Channel → Bool
is_writing ch = has ch.events write_event

pub is_reading : Channel → Bool
is_reading ch = has ch.events read_event

unfoldable pub is_idle : Channel → Bool
is_idle ch = not ch.event_handling && not ch.added_to_loop

-- A callback runs if its condition holds and it is set.
abbrev pub call : Channel → Callback → Bool → List Callback
call ch cb condition = if condition && ch.callback cb then cb ∷ [] else []

-- The callbacks that `handleEventWithGuard` runs, in order.
pub handle_event_with_guard : Channel → List Callback
handle_event_with_guard ch =
    call ch close (has ch.revents poll_hup && not (has ch.revents poll_in))
    ++ call ch error (has ch.revents (bit_or poll_err poll_nval))
    ++ call ch read (has ch.revents (bit_or (bit_or poll_in poll_pri) poll_rdhup))
    ++ call ch write (has ch.revents poll_out)

-- `handleEvent`: a tied channel whose owner is gone runs nothing.
pub handle_event : Channel → Bool → List Callback
handle_event ch owner_alive = if ch.tied && not owner_alive then [] else handle_event_with_guard ch
