-- ===== src/StreamConnection/Valid.antt =====
-- What holds of a connection that is not closed.
use toy_basket.Prelude.{ℕ, Bool, false, ltb, length, ◌≡◌}
use toy_basket.Channel.{is_writing}
use toy_basket.Channel.Mask.{mask, is_writing-mask}
use toy_basket.Buffer.{Buffer}
use toy_basket.Buffer.Region.{IsValid, content}
use toy_basket.StreamConnection.{StreamConnection, StateE, is_disconnected}

abbrev pub has_output : Buffer → Bool
has_output b = ltb 0 (length (content b))

-- Both buffers are valid, and the channel waits for output exactly if some is left.
pub record IsOpenAt (state : StateE) (events : ℕ) (input output : Buffer) : Type 0 where
  pub alive : is_disconnected state ≡ false
  pub input_valid : IsValid input
  pub output_valid : IsValid output
  pub masked : (r : Bool) × (events ≡ mask r (has_output output))

abbrev pub IsOpen : StreamConnection → Type 0
IsOpen c = IsOpenAt c.state c.channel.events c.input_buffer c.output_buffer

pub is_writing_lem :
    (c : StreamConnection) → IsOpen c → is_writing c.channel ≡ has_output c.output_buffer
is_writing_lem c o = is_writing-mask c.channel o.masked.0 (has_output c.output_buffer) o.masked.1
