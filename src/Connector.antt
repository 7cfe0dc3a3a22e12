-- ===== src/Connector.antt =====
-- communication/net/Connector.cpp: one end of a connection to be, which tries again after a delay
-- when the peer cannot be reached. What a connector does outside itself is the list `effects`, in
-- order. `none` is a failed assertion, a fatal log entry or a null pointer.
pub mod Retry
pub mod Sockets
mod Tests
use toy_basket.Prelude.{
  ℕ, ◌+◌, ◌*◌, min, List, [], ◌∷◌, ◌++◌, Bool, true, false, if◌then◌else◌, Option, none, some,
  ◌>>=◌, ◌>>◌, check,
}
use toy_basket.Channel.{Channel, new_channel, none_event, write_event, is_idle}

pub data States : Type 0 where
  k_disconnected k_connecting k_connected : States

abbrev pub max_retry_delay_ms : ℕ
max_retry_delay_ms = 30 * 1000

abbrev pub init_retry_delay_ms : ℕ
init_retry_delay_ms = 500

-- A functor given to the loop, a timer, a closed descriptor, or a descriptor given to the callback.
pub data Effect : Type 0 where
  run_start queue_stop queue_reset : Effect
  add_timer : ℕ → Effect
  close_fd : ℕ → Effect
  new_connection_callback : ℕ → Effect

-- `opened` are the descriptors that `::socket` has given to the connector.
pub record Connector : Type 0 where
  pub connects : Bool
  pub state : States
  pub channel : Option Channel
  pub retry_delay_ms : ℕ
  pub opened : List ℕ
  pub effects : List Effect

-- `savedErrno` of `connect`.
pub data Errno : Type 0 where
  success einprogress eintr eisconn : Errno
  eagain eaddrinuse eaddrnotavail econnrefused enetunreach : Errno
  eacces eperm eafnosupport ealready ebadf efault enotsock other_errno : Errno

abbrev pub new_connector : Connector
new_connector = record {
  connects = false;
  state = k_disconnected;
  channel = none;
  retry_delay_ms = init_retry_delay_ms;
  opened = [];
  effects = [];
}

abbrev pub is_disconnected : States → Bool
is_disconnected k_disconnected = true
is_disconnected _ = false

abbrev pub is_connecting : States → Bool
is_connecting k_connecting = true
is_connecting _ = false

abbrev pub is_null : Option Channel → Bool
is_null none = true
is_null (some ch) = false

abbrev pub emit : Connector → Effect → Connector
emit c e = record c { effects = c.effects ++ e ∷ [] }

-- `retry`: the next delay is twice as long, up to the largest.
pub retry : Connector → ℕ → Connector
retry c sockfd =
    let c₁ = record (emit c (close_fd sockfd)) { state = k_disconnected } in
    if c₁.connects
    then record (emit c₁ (add_timer c₁.retry_delay_ms)) {
      retry_delay_ms = min (c₁.retry_delay_ms * 2) max_retry_delay_ms;
    }
    else c₁

-- The channel of a connection to be: it waits for room, which it has when it is connected.
abbrev pub connecting_channel : ℕ → Channel
connecting_channel sockfd = record (new_channel sockfd) {
  events = write_event;
  added_to_loop = true;
}

unfoldable pub connecting : Connector → ℕ → Option Connector
connecting c sockfd = do
  check (is_null c.channel)
  some (record c { state = k_connecting; channel = some (connecting_channel sockfd) })

-- `connect`, with the descriptor that `::socket` gives and the outcome of `::connect`.
unfoldable pub connect : Connector → ℕ → Errno → Option Connector
connect c sockfd success = connecting c sockfd
connect c sockfd einprogress = connecting c sockfd
connect c sockfd eintr = connecting c sockfd
connect c sockfd eisconn = connecting c sockfd
connect c sockfd eagain = some (retry c sockfd)
connect c sockfd eaddrinuse = some (retry c sockfd)
connect c sockfd eaddrnotavail = some (retry c sockfd)
connect c sockfd econnrefused = some (retry c sockfd)
connect c sockfd enetunreach = some (retry c sockfd)
connect c sockfd errno = some (emit c (close_fd sockfd))

unfoldable pub start_in_loop : Connector → ℕ → Errno → Option Connector
start_in_loop c sockfd errno = do
  check (is_disconnected c.state)
  if c.connects
      then connect (record c { opened = c.opened ++ sockfd ∷ [] }) sockfd errno
      else some c

-- `start`, which runs `startInLoop` at once in the thread of the loop.
unfoldable pub start : Bool → Connector → ℕ → Errno → Option Connector
start in_loop_thread c sockfd errno =
    if in_loop_thread
    then start_in_loop (record c { connects = true }) sockfd errno
    else some (emit (record c { connects = true }) run_start)

unfoldable pub restart : Connector → ℕ → Errno → Option Connector
restart c sockfd errno =
    start_in_loop
      (record c { state = k_disconnected; retry_delay_ms = init_retry_delay_ms; connects = true })
      sockfd errno

unfoldable pub stop : Connector → Connector
stop c = emit (record c { connects = false }) queue_stop

-- `removeAndResetChannel`: the channel is gone from the loop; the object goes later.
unfoldable pub remove_and_reset_channel : Connector → Option (ℕ × Connector)
remove_and_reset_channel c = elim c.channel [
  | none ↦ none
  | some ch ↦ some (
    ch.fd,
    emit (record c { channel = some (record ch { events = none_event; added_to_loop = false }) })
        queue_reset,
  )
]

-- `resetChannel`: the destructor of the channel asserts that it handles no event and is not in the
-- loop.
unfoldable pub reset_channel : Connector → Option Connector
reset_channel c = elim c.channel [
  | none ↦ some c
  | some ch ↦ (do check (is_idle ch); some (record c { channel = none }))
]

unfoldable pub stop_in_loop : Connector → Option Connector
stop_in_loop c =
    if is_connecting c.state
    then (do
      (sockfd, c₁) ← remove_and_reset_channel (record c { state = k_disconnected })
      some (retry c₁ sockfd))
    else some c

-- `handleWrite`, with the error of the socket and the outcome of `isSelfConnect`.
unfoldable pub handle_write : Connector → Bool → Bool → Option Connector
handle_write c has_error is_self_connect =
    if is_connecting c.state
    then (do
      (sockfd, c₁) ← remove_and_reset_channel c
      some (
          if has_error
          then retry c₁ sockfd
          else if is_self_connect
          then retry c₁ sockfd
          else if c₁.connects
          then emit (record c₁ { state = k_connected }) (new_connection_callback sockfd)
          else emit (record c₁ { state = k_connected }) (close_fd sockfd)))
    else (do check (is_disconnected c.state); some c)

pub handle_error : Connector → Option Connector
handle_error c =
    if is_connecting c.state
    then (do (sockfd, c₁) ← remove_and_reset_channel c; some (retry c₁ sockfd))
    else some c

-- What can happen to a connector: a call of `start`, `restart` or `stop`, a functor that it has
-- given to the loop or to a timer, or an event of its channel.
pub data Action : Type 0 where
  starts : Bool → ℕ → Errno → Action
  runs_start restarts : ℕ → Errno → Action
  stops runs_stop resets : Action
  writable : Bool → Bool → Action
  error : Action

pub act : Connector → Action → Option Connector
act c (starts in_loop_thread sockfd errno) = start in_loop_thread c sockfd errno
act c (runs_start sockfd errno) = start_in_loop c sockfd errno
act c (restarts sockfd errno) = restart c sockfd errno
act c stops = some (stop c)
act c runs_stop = stop_in_loop c
act c resets = reset_channel c
act c (writable has_error is_self_connect) = handle_write c has_error is_self_connect
act c error = handle_error c

pub act_all : Connector → List Action → Option Connector
act_all c [] = some c
act_all c (a ∷ rest) = do c' ← act c a; act_all c' rest
