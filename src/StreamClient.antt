-- ===== src/StreamClient.antt =====
-- communication/net/StreamClient.cpp, in the thread of its loop, with its connector and its
-- connection. `none` is a failed assertion, an exception or an overflow of the `int` that numbers
-- the connections.
pub mod Again
mod Tests
use toy_basket.Prelude.{
  ℕ, suc, ltb, ◌^◌, List, [], ◌∷◌, ◌++◌, Bool, true, false, ◌&&◌, ◌||◌, Option, none, some, ◌>>=◌,
  ◌>>◌, check, if◌then◌else◌, length, drop,
}
use toy_basket.Channel.{is_none_event}
use toy_basket.Connector
use toy_basket.Connector.{Connector, Errno, new_connector, Effect, new_connection_callback}
use toy_basket.StreamConnection
use toy_basket.StreamConnection.{
  StreamConnection, connect_established, handle_close, connect_destroyed, shutdown, is_disconnected,
}

-- `connection` is the object of `connection_`; `pending` are the objects that functors in the loop
-- hold, which call their `connectDestroyed`.
pub record StreamClient : Type 0 where
  pub connector : Connector
  pub retry : Bool
  pub connects : Bool
  pub next_conn_id : ℕ
  pub connection : Option StreamConnection
  pub pending : List StreamConnection

pub new_client : StreamClient
new_client = record {
  connector = new_connector;
  retry = false;
  connects = true;
  next_conn_id = 1;
  connection = none;
  pending = [];
}

-- `connect`, with the descriptor and the outcome of `::connect` if the connector gets to it.
pub connect : StreamClient → ℕ → Errno → Option StreamClient
connect c sockfd errno = do
  k ← Connector.start true c.connector sockfd errno
  some (record c { connector = k; connects = true })

abbrev pub shut : Option StreamConnection → Option StreamConnection
shut none = none
shut (some conn) = some (shutdown true conn)

pub disconnect : StreamClient → StreamClient
disconnect c = record c { connects = false; connection = shut c.connection }

pub stop : StreamClient → StreamClient
stop c = record c { connects = false; connector = Connector.stop c.connector }

-- The destructor of a connection object that nothing else holds.
abbrev pub replaced : Option StreamConnection → Option (Unit {0})
replaced none = some tt
replaced (some conn) = check (is_disconnected conn.state)

-- `newConnection`.
pub new_connection : StreamClient → ℕ → Option StreamClient
new_connection c sockfd = do
  check (ltb (suc c.next_conn_id) (2 ^ 31))
  conn ← StreamConnection.new_connection sockfd
  replaced c.connection
  established ← connect_established conn
  some (record c { next_conn_id = suc c.next_conn_id; connection = some established })

-- The call of the callback among the effects of a step of the connector.
abbrev pub called_back : List Effect → Option ℕ
called_back [] = none
called_back (new_connection_callback sockfd ∷ rest) = some sockfd
called_back (e ∷ rest) = called_back rest

abbrev pub if_called : StreamClient → Option ℕ → Option StreamClient
if_called c none = some c
if_called c (some sockfd) = new_connection c sockfd

-- The channel of the connector is writable.
pub connector_writable : StreamClient → Bool → Bool → Option StreamClient
connector_writable c has_error is_self_connect = do
  k ← Connector.handle_write c.connector has_error is_self_connect
  if_called (record c { connector = k }) (called_back (drop (length c.connector.effects) k.effects))

-- `removeConnection` of the connection `conn`, which is that of the client.
pub remove_connection : StreamClient → StreamConnection → ℕ → Errno → Option StreamClient
remove_connection c conn sockfd errno =
    if c.retry && c.connects
    then (do
      k ← Connector.restart c.connector sockfd errno
      some (record c { connector = k; connection = none; pending = c.pending ++ conn ∷ [] }))
    else some (record c { connection = none; pending = c.pending ++ conn ∷ [] })

-- `handleClose` of the connection, whose close callback is `removeConnection`.
abbrev pub close_current : StreamClient → StreamConnection → ℕ → Errno → Option StreamClient
close_current c conn sockfd errno =
    handle_close conn >>= λ closed. remove_connection c closed sockfd errno

-- An event of the channel of the connection that ends it, by one call of `handleClose`. The poller
-- takes a channel whose mask is empty out of the kernel, so that no event comes for it.
abbrev pub close_if_watched :
    StreamClient → Option StreamConnection → ℕ → Errno → Option StreamClient
close_if_watched c none sockfd errno = some c
close_if_watched c (some conn) sockfd errno =
    if is_none_event conn.channel then some c else close_current c conn sockfd errno

pub close_connection : StreamClient → ℕ → Errno → Option StreamClient
close_connection c sockfd errno = close_if_watched c c.connection sockfd errno

-- The next functor that calls `connectDestroyed`, after which the object goes.
abbrev pub destroy_next : StreamClient → List StreamConnection → Option StreamClient
destroy_next c [] = some c
destroy_next c (conn ∷ rest) = do
  destroyed ← connect_destroyed conn
  check (is_disconnected destroyed.state)
  some (record c { pending = rest })

pub run_destroyed : StreamClient → Option StreamClient
run_destroyed c = destroy_next c c.pending

-- What can happen to a client: its calls, the steps of its connector and of its connection.
pub data Event : Type 0 where
  connects_to : ℕ → Errno → Event
  disconnects stops : Event
  connector_writes : Bool → Bool → Event
  connector_resets connector_stops : Event
  closes : ℕ → Errno → Event
  destroys : Event

pub react : StreamClient → Event → Option StreamClient
react c (connects_to sockfd errno) = connect c sockfd errno
react c disconnects = some (disconnect c)
react c stops = some (stop c)
react c (connector_writes has_error is_self_connect) =
    connector_writable c has_error is_self_connect
react c connector_resets =
    Connector.reset_channel c.connector >>= λ k. some (record c { connector = k })
react c connector_stops =
    Connector.stop_in_loop c.connector >>= λ k. some (record c { connector = k })
react c (closes sockfd errno) = close_connection c sockfd errno
react c destroys = run_destroyed c

pub react_all : StreamClient → List Event → Option StreamClient
react_all c [] = some c
react_all c (e ∷ rest) = react c e >>= λ c'. react_all c' rest
