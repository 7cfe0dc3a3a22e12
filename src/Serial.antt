-- ===== src/Serial.antt =====
-- communication/serial/Serial.cpp: a serial port, whose output goes through a buffer as that of a
-- connection does. `none` is a null pointer, a failed assertion or an exception. The structure
-- `termios` is the pair of its input and its control flags; the device answers as arguments say.
pub mod Send
pub mod Closed
mod Tests
use Prim.Native.Nat.{bit_and, bit_or}
use toy_basket.Prelude.{
  msg_buf_size, ℕ, zero, suc, ◌+◌, ◌*◌, List, [], ◌∷◌, ◌++◌, Bool, true, false, not, ◌&&◌, ◌||◌,
  ◌==◌, ltb, leb, if◌then◌else◌, Option, none, some, ◌>>=◌, ◌>>◌, check, length, take, drop,
  add_size, sub_size,
}
use toy_basket.Channel.{
  Channel, Callback, read, write, new_channel, is_writing, read_event, write_event, none_event,
  clear,
}
use toy_basket.Buffer.{
  Buffer, new, initial_size, append, retrieve, retrieve_all, readable_bytes, read_fd, Readv, ReadFd,
  count, saved_errno,
}
use toy_basket.Buffer.Region.{content}
use toy_basket.StreamConnection.{
  Effect, queue_write_complete, queue_high_water_mark, queue_send, message_callback, Write, took,
  nwrote, fault_error,
}

-- `fd` is `none` for a negative `fd_`, and `channel` for a null pointer. `closed` are the arguments
-- of `close`, `sent` the bytes that the device took, and `attr` its input and control flags once the
-- port has set them.
pub record Serial : Type 0 where
  pub fd : Option ℕ
  pub channel : Option Channel
  pub data_callback : Bool
  pub write_complete_callback : Bool
  pub high_water_mark_callback : Bool
  pub high_water_mark : ℕ
  pub input_buffer : Buffer
  pub output_buffer : Buffer
  pub writing : Bool
  pub sent : List ℕ
  pub effects : List Effect
  pub closed : List ℕ
  pub attr : Option (ℕ × ℕ)

abbrev pub fresh_serial : Buffer → Buffer → Serial
fresh_serial input output = record {
  fd = none;
  channel = none;
  data_callback = false;
  write_complete_callback = false;
  high_water_mark_callback = false;
  high_water_mark = 16 * 1024 * 1024;
  input_buffer = input;
  output_buffer = output;
  writing = false;
  sent = [];
  effects = [];
  closed = [];
  attr = none;
}

pub new_serial : Option Serial
new_serial = do
  input ← new msg_buf_size
  output ← new initial_size
  some (fresh_serial input output)

-- `openPort`, with what `open` gives.
pub open_port : Serial → Option ℕ → Serial
open_port s opened = record s { fd = opened }

abbrev pub changed : Channel → ℕ → Channel
changed ch mask = record ch { events = mask; added_to_loop = true }

-- The channel of `start`, with the callbacks for reading and writing.
abbrev pub open_channel : ℕ → Channel
open_channel fd =
    changed
      (record (new_channel fd) {
        callback = λ k. elim k [ read ↦ true | write ↦ true | _ ↦ false ];
      })
      (bit_or none_event read_event)

abbrev pub started : Serial → Option ℕ → Option Channel → Serial
started s none c = s
started s (some fd) none = record s { channel = some (open_channel fd) }
started s (some fd) (some ch) = s

pub start : Serial → Serial
start s = started s s.fd s.channel

abbrev pub emit_if : Bool → Serial → Effect → Serial
emit_if b s e = record s { effects = if b then s.effects ++ e ∷ [] else s.effects }

abbrev pub watermark : Serial → ℕ → ℕ → Serial
watermark s old_len new_len =
    emit_if
      (leb s.high_water_mark new_len
        && (ltb old_len s.high_water_mark && s.high_water_mark_callback))
      s (queue_high_water_mark new_len)

-- The part of `sendInLoop` that queues `remaining` bytes.
pub queue_output : Serial → Channel → List ℕ → Option Serial
queue_output s ch remaining = do
  output ← append s.output_buffer remaining
  some
      (record (watermark s (readable_bytes s.output_buffer)
        (add_size (readable_bytes s.output_buffer) (length remaining))) {
          output_buffer = output;
          channel = some (if is_writing ch then ch else changed ch (bit_or ch.events write_event));
        })

abbrev pub complete : Serial → ℕ → Serial
complete s left = emit_if ((left == 0) && s.write_complete_callback) s queue_write_complete

pub write_directly : Serial → List ℕ → Write → Serial
write_directly s message (took n) =
    complete (record s { sent = s.sent ++ take n message }) (sub_size (length message) n)
write_directly s message w = s

-- `sendInLoop` up to its last line.
pub send_message : Serial → Channel → List ℕ → Write → Option Serial
send_message s ch message w =
    if not (is_writing ch) && (readable_bytes s.output_buffer == 0)
    then (do
      check (leb (sub_size (length message) (nwrote w)) (length message))
      if not (fault_error w) && ltb 0 (sub_size (length message) (nwrote w))
          then queue_output (write_directly s message w) ch (drop (nwrote w) message)
          else some (write_directly s message w))
    else if ltb 0 (length message)
    then queue_output s ch message
    else some s

pub send_in_loop : Serial → List ℕ → Write → Option Serial
send_in_loop s message w = do
  ch ← s.channel
  s' ← send_message s ch message w
  some (record s' { writing = false })

abbrev pub send_opened : Bool → Serial → Option ℕ → List ℕ → Write → Option Serial
send_opened in_loop_thread s none message w = some s
send_opened in_loop_thread s (some fd) message w =
    if in_loop_thread
    then send_in_loop s message w
    else some (record s { effects = s.effects ++ queue_send message ∷ [] })

-- Both overloads of `send`, from the thread of the loop or from another.
pub send : Bool → Serial → List ℕ → Write → Option Serial
send in_loop_thread s message w =
    send_opened in_loop_thread (record s { writing = true }) s.fd message w

-- The part of `handleWrite` behind a write of `n > 0` bytes.
pub drained : Serial → Channel → Serial
drained s ch =
    if readable_bytes s.output_buffer == 0
    then complete (record s { channel = some (changed ch (clear ch.events write_event)) }) 0
    else s

pub wrote : Serial → Channel → Write → Option Serial
wrote s ch (took zero) = some s
wrote s ch (took n) = do
  output ← retrieve s.output_buffer n
  some (
      drained
        (record s { output_buffer = output; sent = s.sent ++ take n (content s.output_buffer) }) ch)
wrote s ch w = some s

pub handle_write : Serial → Write → Option Serial
handle_write s w = do ch ← s.channel; if is_writing ch then wrote s ch w else some s

-- What `handleRead` does after `readFd`.
abbrev pub after_read : Serial → ReadFd → Serial
after_read s (count zero) = s
after_read s (count n) =
    if s.data_callback
    then record s { effects = s.effects ++ message_callback ∷ [] }
    else record s { input_buffer = retrieve_all s.input_buffer }
after_read s (saved_errno errno) = s

pub handle_read : Serial → Readv → Option Serial
handle_read s r = do
  ch ← s.channel
  (input, n) ← read_fd s.input_buffer r
  some (after_read (record s { input_buffer = input }) n)

-- The destructor behind its first loop, which waits as long as `writing_` is set.
abbrev pub closes : Option ℕ → List ℕ
closes none = []
closes (some fd) = if ltb 0 fd then fd ∷ [] else []

abbrev pub fd_left : Option ℕ → Option ℕ
fd_left none = none
fd_left (some fd) = if ltb 0 fd then none else some fd

pub destroy : Serial → Serial
destroy s = record s { channel = none; closed = s.closed ++ closes s.fd; fd = fd_left s.fd }

-- The flags of <termios.h> that the port uses.
abbrev pub csize : ℕ
csize = 0x30

-- The control flags of `setPortParam`; a parity is the code of its letter.
abbrev pub data_flags : ℕ → ℕ → ℕ
data_flags databits flags =
    if databits == 7 then bit_or flags 0x20 else if databits == 8 then bit_or flags 0x30 else flags

abbrev pub parity_flags : ℕ → ℕ → ℕ
parity_flags parity flags =
    if parity == 79
    then bit_or (bit_or flags 0x100) 0x200
    else if parity == 69
    then clear (bit_or flags 0x100) 0x200
    else if parity == 78
    then clear flags 0x100
    else flags

abbrev pub input_flags : ℕ → ℕ
input_flags parity = if (parity == 79) || (parity == 69) then bit_or 0x10 0x20 else 0

abbrev pub stop_flags : ℕ → ℕ → ℕ
stop_flags stopbits flags =
    if stopbits == 1 then clear flags 0x40 else if stopbits == 2 then bit_or flags 0x40 else flags

-- `getSerialBaudrate`.
abbrev pub get_serial_baudrate : ℕ → ℕ
get_serial_baudrate rate =
    if rate == 4800
    then 0xc
    else if rate == 9600
    then 0xd
    else if rate == 38400
    then 0xf
    else if rate == 57600
    then 0x1001
    else if rate == 115200
    then 0x1002
    else if rate == 460800
    then 0x1004
    else 0x1002

-- The flags that `setPortParam` asks for; `set_speed` is `cfsetispeed` and `cfsetospeed` on the
-- control flags.
pub port_flags : (ℕ → ℕ → ℕ) → ℕ → ℕ → ℕ → ℕ → ℕ × ℕ
port_flags set_speed speed databits stopbits parity = (
  input_flags parity,
  stop_flags stopbits (
      set_speed (get_serial_baudrate speed)
        (parity_flags parity (data_flags databits (clear (bit_or 0x800 0x80) csize)))),
)

-- `close(fd_)`; a negative descriptor is refused.
abbrev pub closed_fd : Option ℕ → List ℕ
closed_fd none = []
closed_fd (some fd) = fd ∷ []

-- `setPortParam`, with whether `tcgetattr` and `tcsetattr` succeed; the answer is whether it is 0.
pub set_port_param : (ℕ → ℕ → ℕ) → Serial → ℕ → ℕ → ℕ → ℕ → Bool → Bool → Serial × Bool
set_port_param set_speed s speed databits stopbits parity got_attr set_attr =
    if got_attr && set_attr
    then (record s { attr = some (port_flags set_speed speed databits stopbits parity) }, true)
    else (record s { closed = s.closed ++ closed_fd s.fd }, false)
