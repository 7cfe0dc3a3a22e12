-- ===== src/StreamConnection/Tests.antt =====
-- The connection's theorems at concrete connections.
use Prim.Native.Nat.{bit_or}
use toy_basket.Prelude.{ℕ, List, [], ◌∷◌, true, false, some, replicate, inr, ◌≡◌, refl, arith}
use toy_basket.Channel.{read_event}
use toy_basket.Channel.Mask.{mask}
use toy_basket.Buffer.{fresh}
use toy_basket.Buffer.Region.{IsValid, content}
use toy_basket.StreamConnection.{
  StreamConnection, fresh_connection, k_connected, k_disconnecting, Write, took, send_in_loop,
  handle_write, set_mask, tie, emit, connection_callback, connect_destroyed, handle_close,
  force_close_in_loop, would_block, other_error,
}
use toy_basket.StreamConnection.Valid.{IsOpen}
use toy_basket.StreamConnection.Send.{Accepted, accepted_bytes, send_in_loop_lem}
use toy_basket.StreamConnection.Drain.{Drained, handle_write_lem}
use toy_basket.StreamConnection.Close.{Closed, handle_close_lem}
use toy_basket.StreamConnection.Stream.{Use, sends, has_room, use_all, messages, use_all_lem}

-- An established connection with nothing to write.
abbrev idle : StreamConnection
idle =
    set_mask
      (record (fresh_connection 5 (fresh (replicate 16 0)) (fresh (replicate 16 0))) {
        state = k_connected;
      })
      read_event

fresh-IsValid : IsValid (fresh (replicate 16 0))
fresh-IsValid = record {
  ordered = omega arith;
  inside = omega arith;
  bounded = omega arith;
  reserved = omega arith;
}

idle-IsOpen : IsOpen idle
unfolding content
idle-IsOpen = record {
  alive = refl;
  input_valid = fresh-IsValid;
  output_valid = fresh-IsValid;
  masked = (true, refl);
}

-- The socket takes one of three bytes.
abbrev three_bytes : List ℕ
three_bytes = 1 ∷ 2 ∷ 3 ∷ []

send_in_loop_lem_example :
    (c' : StreamConnection) × (send_in_loop idle three_bytes (took 1) ≡ some c')
    × Accepted idle (accepted_bytes idle three_bytes (took 1)) c'
send_in_loop_lem_example =
    send_in_loop_lem idle three_bytes (took 1) idle-IsOpen (omega arith) (omega arith)

-- A connection that is being shut down, with one byte to write.
abbrev closing : StreamConnection
closing = record idle {
  state = k_disconnecting;
  channel = record idle.channel { events = mask true true };
  output_buffer = record { buffer = replicate 16 0; reader_index = 8; writer_index = 9 };
}

closing-IsOpen : IsOpen closing
unfolding content
closing-IsOpen = record {
  alive = refl;
  input_valid = fresh-IsValid;
  output_valid = record {
    ordered = omega arith;
    inside = omega arith;
    bounded = omega arith;
    reserved = omega arith;
  };
  masked = (true, refl);
}

handle_write_lem_example :
    (c' : StreamConnection) × (handle_write closing (took 1) ≡ some c') × Drained closing c'
unfolding content
handle_write_lem_example = handle_write_lem closing (took 1) closing-IsOpen (omega arith)

abbrev uses : List Use
uses = sends three_bytes (took 1) ∷ has_room would_block ∷ sends three_bytes other_error ∷ []

use_all_lem_example :
    (c' : StreamConnection) × (use_all idle uses ≡ some c') × Accepted idle (messages uses) c'
use_all_lem_example =
    use_all_lem idle uses idle-IsOpen
      ((omega arith, refl), λ c' e. (omega arith, λ d' f. ((omega arith, refl), λ g' h. tt)))
      (omega arith)

abbrev fresh_one : StreamConnection
fresh_one = fresh_connection 5 (fresh (replicate 16 0)) (fresh (replicate 16 0))

fresh_one-IsOpen : IsOpen fresh_one
unfolding content
fresh_one-IsOpen = record {
  alive = refl;
  input_valid = fresh-IsValid;
  output_valid = fresh-IsValid;
  masked = (false, refl);
}

handle_close_lem_example :
    (c' : StreamConnection) × (handle_close closing ≡ some c')
    × (force_close_in_loop closing ≡ some c')
    × Closed closing c'
    × (force_close_in_loop c' ≡ some c')
    × ((message : List ℕ) (w : Write) → send_in_loop c' message w ≡ some c')
    × ((c'' : StreamConnection) × (connect_destroyed c' ≡ some c'')
        × (c''.effects ≡ c'.effects)
        × (c''.channel.added_to_loop ≡ false))
handle_close_lem_example = handle_close_lem closing (inr refl)

abbrev established : StreamConnection
established =
    emit (set_mask (tie fresh_one) (bit_or (tie fresh_one).channel.events read_event))
      connection_callback
