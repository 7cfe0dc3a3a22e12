-- ===== src/StreamConnection.antt =====
-- communication/net/StreamConnection.cpp: one connection, in the thread of its loop and as seen by
-- others. What the connection does outside itself is the list `effects`, in order. `none` is a
-- failed assertion or an exception.
pub mod Valid
pub mod Send
pub mod Drain
pub mod Close
pub mod Stream
mod Tests
use Prim.Native.Nat.{bit_or}
use toy_basket.Prelude.{
  zero, ℕ, ◌+◌, ◌^◌, ◌*◌, List, [], ◌∷◌, ◌++◌, Bool, true, false, not, ◌||◌, ◌&&◌, ltb, leb, ◌==◌,
  if◌then◌else◌, Option, none, some, ◌>>=◌, ◌>>◌, check, length, take, drop, add_size, sub_size,
}
use toy_basket.Channel.{
  Channel, new_channel, is_writing, is_reading, is_none_event, read_event, write_event, none_event,
  clear,
}
use toy_basket.Buffer.{
  Buffer, new, initial_size, append, retrieve, retrieve_all, readable_bytes, read_fd, Readv, ReadFd,
  count, saved_errno,
}
use toy_basket.Buffer.Region.{content}

-- `StateE`.
pub data StateE : Type 0 where
  k_disconnected k_connecting k_connected k_disconnecting : StateE

-- A call of a callback, a functor given to the loop, or a call of the socket or the timers.
pub data Effect : Type 0 where
  connection_callback message_callback close_callback : Effect
  queue_write_complete : Effect
  queue_high_water_mark : ℕ → Effect
  queue_send : List ℕ → Effect
  queue_shutdown queue_force_close : Effect
  add_timer : ℕ → Effect
  shutdown_write : Effect

-- `sent` are the bytes that the socket took.
pub record StreamConnection : Type 0 where
  pub state : StateE
  pub reading : Bool
  pub channel : Channel
  pub write_complete_callback : Bool
  pub high_water_mark_callback : Bool
  pub high_water_mark : ℕ
  pub input_buffer : Buffer
  pub output_buffer : Buffer
  pub sent : List ℕ
  pub effects : List Effect

-- What `::write` answers: a count, or -1 with EWOULDBLOCK, with EPIPE or ECONNRESET, or with
-- another error.
pub data Write : Type 0 where
  took : ℕ → Write
  would_block broken other_error : Write

abbrev pub is_connected : StateE → Bool
is_connected k_connected = true
is_connected _ = false

abbrev pub is_connecting : StateE → Bool
is_connecting k_connecting = true
is_connecting _ = false

abbrev pub is_disconnected : StateE → Bool
is_disconnected k_disconnected = true
is_disconnected _ = false

abbrev pub is_disconnecting : StateE → Bool
is_disconnecting k_disconnecting = true
is_disconnecting _ = false

-- The constructor of the class; the callbacks of the user are set later.
abbrev pub fresh_connection : ℕ → Buffer → Buffer → StreamConnection
fresh_connection sockfd input output = record {
  state = k_connecting;
  reading = true;
  channel = record (new_channel sockfd) { callback = λ _. true };
  write_complete_callback = false;
  high_water_mark_callback = false;
  high_water_mark = 64 * 1024 * 1024;
  input_buffer = input;
  output_buffer = output;
  sent = [];
  effects = [];
}

unfoldable pub new_connection : ℕ → Option StreamConnection
new_connection sockfd = do
  input ← new initial_size
  output ← new initial_size
  some (fresh_connection sockfd input output)

abbrev pub emit : StreamConnection → Effect → StreamConnection
emit c e = record c { effects = c.effects ++ e ∷ [] }

abbrev pub emit_if : Bool → StreamConnection → Effect → StreamConnection
emit_if b c e = record c { effects = if b then c.effects ++ e ∷ [] else c.effects }

-- The change of the event mask; what the poller makes of it is `Poller.set_events`.
abbrev pub set_mask : StreamConnection → ℕ → StreamConnection
set_mask c events = record c {
  channel = record c.channel { events = events; added_to_loop = true };
}

abbrev pub enable_channel_writing : StreamConnection → StreamConnection
enable_channel_writing c = set_mask c (bit_or c.channel.events write_event)

abbrev pub disable_channel_writing : StreamConnection → StreamConnection
disable_channel_writing c = set_mask c (clear c.channel.events write_event)

-- `nwrote` after the direct write, and `faultError`.
abbrev pub nwrote : Write → ℕ
nwrote (took n) = n
nwrote _ = 0

abbrev pub fault_error : Write → Bool
fault_error broken = true
fault_error _ = false

-- The high-water mark of `sendInLoop`, when the output grows from `old_len` to `new_len`.
abbrev pub watermark : StreamConnection → ℕ → ℕ → StreamConnection
watermark c old_len new_len =
    emit_if
      (leb c.high_water_mark new_len
        && (ltb old_len c.high_water_mark && c.high_water_mark_callback))
      c (queue_high_water_mark new_len)

-- `if (!channel_->isWriting()) channel_->enableWriting();`
abbrev pub start_writing : StreamConnection → StreamConnection
start_writing c = if is_writing c.channel then c else enable_channel_writing c

-- The part of `sendInLoop` that queues `remaining` bytes.
unfoldable pub queue_output : StreamConnection → List ℕ → Option StreamConnection
queue_output c remaining = do
  output ← append c.output_buffer remaining
  some (
      start_writing
        (record (watermark c (readable_bytes c.output_buffer)
          (add_size (readable_bytes c.output_buffer) (length remaining))) {
            output_buffer = output;
          }))

-- `writeCompleteCallback_` is queued if it is set and nothing is left.
abbrev pub complete : StreamConnection → ℕ → StreamConnection
complete c left = emit_if ((left == 0) && c.write_complete_callback) c queue_write_complete

-- The direct write of `sendInLoop`.
unfoldable pub write_directly : StreamConnection → List ℕ → Write → StreamConnection
write_directly c message (took n) =
    complete (record c { sent = c.sent ++ take n message }) (sub_size (length message) n)
write_directly c message w = c

unfoldable pub send_in_loop : StreamConnection → List ℕ → Write → Option StreamConnection
send_in_loop c message w =
    if is_disconnected c.state
    then some c
    else if not (is_writing c.channel) && (readable_bytes c.output_buffer == 0)
    then (do
      check (leb (sub_size (length message) (nwrote w)) (length message))
      if not (fault_error w) && ltb 0 (sub_size (length message) (nwrote w))
          then queue_output (write_directly c message w) (drop (nwrote w) message)
          else some (write_directly c message w))
    else if ltb 0 (length message)
    then queue_output c message
    else some c

-- `send`, from the thread of the loop or from another.
pub send : Bool → StreamConnection → List ℕ → Write → Option StreamConnection
send in_loop_thread c message w =
    if is_connected c.state
    then (if in_loop_thread then send_in_loop c message w else some (emit c (queue_send message)))
    else some c

-- `send(Buffer*)`: the buffer is empty afterwards, unless the connection is not connected.
pub send_buffer : Bool → StreamConnection → Buffer → Write → Option (StreamConnection × Buffer)
send_buffer in_loop_thread c buf w =
    if is_connected c.state
    then (do c' ← send in_loop_thread c (content buf) w; some (c', retrieve_all buf))
    else some (c, buf)

pub shutdown_in_loop : StreamConnection → StreamConnection
shutdown_in_loop c = if is_writing c.channel then c else emit c shutdown_write

pub shutdown : Bool → StreamConnection → StreamConnection
shutdown in_loop_thread c =
    if is_connected c.state
    then (if in_loop_thread
        then shutdown_in_loop (record c { state = k_disconnecting })
        else emit (record c { state = k_disconnecting }) queue_shutdown)
    else c

pub force_close : StreamConnection → StreamConnection
force_close c =
    if is_connected c.state || is_disconnecting c.state
    then emit (record c { state = k_disconnecting }) queue_force_close
    else c

-- The delay in milliseconds, converted from the `double` of the caller.
pub force_close_with_delay : StreamConnection → ℕ → StreamConnection
force_close_with_delay c milliseconds =
    if is_connected c.state || is_disconnecting c.state
    then emit (record c { state = k_disconnecting }) (add_timer milliseconds)
    else c

abbrev pub closed : StreamConnection → StreamConnection
closed c = set_mask (record c { state = k_disconnected }) none_event

unfoldable pub handle_close : StreamConnection → Option StreamConnection
handle_close c = do
  check (is_connected c.state || is_disconnecting c.state)
  some (emit (emit (closed c) connection_callback) close_callback)

pub force_close_in_loop : StreamConnection → Option StreamConnection
force_close_in_loop c =
    if is_connected c.state || is_disconnecting c.state then handle_close c else some c

pub start_read_in_loop : StreamConnection → StreamConnection
start_read_in_loop c =
    if not c.reading || not (is_reading c.channel)
    then record (set_mask c (bit_or c.channel.events read_event)) { reading = true }
    else c

pub stop_read_in_loop : StreamConnection → StreamConnection
stop_read_in_loop c =
    if c.reading || is_reading c.channel
    then record (set_mask c (clear c.channel.events read_event)) { reading = false }
    else c

abbrev pub tie : StreamConnection → StreamConnection
tie c = record c { state = k_connected; channel = record c.channel { tied = true } }

unfoldable pub connect_established : StreamConnection → Option StreamConnection
connect_established c = do
  check (is_connecting c.state)
  some (emit (set_mask (tie c) (bit_or (tie c).channel.events read_event)) connection_callback)

-- `channel_->remove()`; what the poller does is `Poller.remove_channel`.
abbrev pub remove_from_loop : StreamConnection → Option StreamConnection
remove_from_loop c = do
  check (is_none_event c.channel)
  some (record c { channel = record c.channel { added_to_loop = false } })

unfoldable pub connect_destroyed : StreamConnection → Option StreamConnection
connect_destroyed c =
    remove_from_loop (if is_connected c.state then emit (closed c) connection_callback else c)

-- What `handleRead` does after `readFd`; `handleError` only writes to the log.
pub after_read : StreamConnection → ReadFd → Option StreamConnection
after_read c (count zero) = handle_close c
after_read c (count n) = some (emit c message_callback)
after_read c (saved_errno errno) = some c

pub handle_read : StreamConnection → Readv → Option StreamConnection
handle_read c r = do
  (input, n) ← read_fd c.input_buffer r
  after_read (record c { input_buffer = input }) n

-- The part of `handleWrite` behind a write of `n > 0` bytes.
unfoldable pub drained : StreamConnection → StreamConnection
drained c =
    if readable_bytes c.output_buffer == 0
    then (let c₁ = complete (disable_channel_writing c) 0 in
        if is_disconnecting c₁.state then shutdown_in_loop c₁ else c₁)
    else c

unfoldable pub wrote : StreamConnection → Write → Option StreamConnection
wrote c (took zero) = some c
wrote c (took n) = do
  output ← retrieve c.output_buffer n
  some (
      drained
        (record c { output_buffer = output; sent = c.sent ++ take n (content c.output_buffer) }))
wrote c w = some c

unfoldable pub handle_write : StreamConnection → Write → Option StreamConnection
handle_write c w = if is_writing c.channel then wrote c w else some c
