-- ===== src/Serial/Tests.antt =====
-- A port with small buffers, and the theorems at concrete inputs.
use toy_basket.Prelude.{ℕ, [], ◌∷◌, ◌≡◌, refl, false, some, ◌>>=◌}
use toy_basket.Buffer.{Buffer}
use toy_basket.StreamConnection
use toy_basket.StreamConnection.{Write, took}
use toy_basket.Serial.{Serial, fresh_serial, open_channel, send_in_loop, handle_write}
use toy_basket.Serial.Send.{as_connection, after, same_as_connection}

abbrev empty : Buffer
empty = record {
  buffer = 0 ∷ 0 ∷ 0 ∷ 0 ∷ 0 ∷ 0 ∷ 0 ∷ 0 ∷ 0 ∷ 0 ∷ [];
  reader_index = 8;
  writer_index = 8;
}

abbrev port : Serial
port = fresh_serial empty empty

abbrev open_one : Serial
open_one = record port { fd = some 3; channel = some (open_channel 3) }

same_as_connection_example :
    (send_in_loop open_one (1 ∷ 2 ∷ []) (took 1) ≡ (
      StreamConnection.send_in_loop (as_connection open_one (open_channel 3)) (1 ∷ 2 ∷ []) (took 1)
      >>= λ c. some (record (after open_one c) { writing = false })))
    × (handle_write open_one (took 1) ≡ (
        StreamConnection.handle_write (as_connection open_one (open_channel 3)) (took 1) >>= λ c.
        some (after open_one c)))
same_as_connection_example = same_as_connection open_one (open_channel 3) (1 ∷ 2 ∷ []) (took 1) refl

abbrev keep_speed : ℕ → ℕ → ℕ
keep_speed rate flags = flags
