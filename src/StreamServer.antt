-- ===== src/StreamServer.antt =====
-- communication/net/StreamServer.cpp, in the thread of its loop: the connections by name, from the
-- new descriptor to the end of the connection object. `none` is a failed assertion, an exception or
-- an overflow of the `int` that numbers the connections; `decimal` is what `%d` prints.
pub mod Names
pub mod Valid
pub mod Serve
pub mod Safe
mod Tests
use toy_basket.Prelude.{
  ℕ, zero, suc, ◌+◌, List, [], ◌∷◌, ◌++◌, Bool, true, false, ◌==◌, Option, none, some, ◌>>=◌, ◌>>◌,
  check, ltb, if◌then◌else◌, take, store, assign, ◌^◌,
}
use toy_basket.Channel.{is_none_event}
use toy_basket.StreamConnection
use toy_basket.StreamConnection.{
  StreamConnection, connect_established, handle_close, connect_destroyed, is_disconnected,
}

-- The object of the connection with the number `id` is `live id`
-- as long as it exists; `pending id` counts the functors in the loop that call its
-- `connectDestroyed`.
pub record StreamServer : Type 0 where
  pub name : List ℕ
  pub ip_port : List ℕ
  pub started : Bool
  pub next_conn_id : ℕ
  pub connections : List ℕ → Option ℕ
  pub live : ℕ → Option StreamConnection
  pub pending : ℕ → ℕ

pub new_stream_server : List ℕ → List ℕ → StreamServer
new_stream_server name ip_port = record {
  name = name;
  ip_port = ip_port;
  started = false;
  next_conn_id = 1;
  connections = λ name. none;
  live = λ id. none;
  pending = λ id. 0;
}

-- `start`; what `Acceptor::listen` does is not seen here.
pub start : StreamServer → StreamServer
start s = record s { started = true }

-- The name of a connection: `snprintf` keeps 63 of the characters of "-ip:port#id".
pub conn_name : (ℕ → List ℕ) → List ℕ → List ℕ → ℕ → List ℕ
conn_name decimal name ip_port id = name ++ take 63 (45 ∷ (ip_port ++ (35 ∷ decimal id)))

-- The destructor of a connection object.
abbrev pub destructed : Option StreamConnection → Option (Unit {0})
destructed none = none
destructed (some c) = check (is_disconnected c.state)

-- The map lets go of a connection. With no functor that holds it the object is destroyed.
abbrev pub released : StreamServer → Option ℕ → Option StreamServer
released s none = some s
released s (some id) =
    if ltb 0 (s.pending id)
    then some s
    else destructed (s.live id) >> some (record s { live = store s.live id none })

abbrev pub accepted : (ℕ → List ℕ) → StreamServer → StreamServer → StreamConnection → StreamServer
accepted decimal s s₁ c = record s₁ {
  next_conn_id = suc s.next_conn_id;
  connections =
      assign s₁.connections (conn_name decimal s.name s.ip_port s.next_conn_id)
        (some s.next_conn_id);
  live = store s₁.live s.next_conn_id (some c);
}

-- `newConnection`, with `connectEstablished`, which `runInLoop` runs at once. `++nextConnId_` of the
-- largest `int` has no defined result.
pub new_connection : (ℕ → List ℕ) → StreamServer → ℕ → Option StreamServer
new_connection decimal s sockfd = do
  check (ltb (suc s.next_conn_id) (2 ^ 31))
  c ← StreamConnection.new_connection sockfd
  s₁ ← released s (s.connections (conn_name decimal s.name s.ip_port s.next_conn_id))
  c₁ ← connect_established c
  some (accepted decimal s s₁ c₁)

abbrev pub is_found : Option ℕ → Bool
is_found none = false
is_found (some id) = true

-- `removeConnectionInLoop`, which `removeConnection` runs at once.
pub remove_connection_in_loop : (ℕ → List ℕ) → StreamServer → ℕ → Option StreamServer
remove_connection_in_loop decimal s id = do
  check (is_found (s.connections (conn_name decimal s.name s.ip_port id)))
  some (record s {
    connections = assign s.connections (conn_name decimal s.name s.ip_port id) none;
    pending = store s.pending id (suc (s.pending id));
  })

-- `handleClose` of a connection, whose close callback is `removeConnection`.
abbrev pub close_live : (ℕ → List ℕ) → StreamServer → ℕ → StreamConnection → Option StreamServer
close_live decimal s id c = do
  c₁ ← handle_close c
  remove_connection_in_loop decimal (record s { live = store s.live id (some c₁) }) id

-- An event of the channel that ends a connection, by one call of `handleClose`. The poller takes a
-- channel whose mask is empty out of the kernel, so that no event comes for it.
abbrev pub close_watched :
    (ℕ → List ℕ) → StreamServer → ℕ → Option StreamConnection → Option StreamServer
close_watched decimal s id none = some s
close_watched decimal s id (some c) =
    if is_none_event c.channel then some s else close_live decimal s id c

pub close_connection : (ℕ → List ℕ) → StreamServer → ℕ → Option StreamServer
close_connection decimal s id = close_watched decimal s id (s.live id)

-- The loop runs a functor that calls `connectDestroyed`, if there is one, and lets go of the
-- connection.
abbrev pub destroy_live : StreamServer → ℕ → Option StreamConnection → ℕ → Option StreamServer
destroy_live s id c zero = some s
destroy_live s id none (suc n) = none
destroy_live s id (some c) (suc n) = do
  c₁ ← connect_destroyed c
  if n == 0
      then destructed (some c₁)
        >> some (record s { live = store s.live id none; pending = store s.pending id n })
      else some (record s { live = store s.live id (some c₁); pending = store s.pending id n })

pub run_destroyed : StreamServer → ℕ → Option StreamServer
run_destroyed s id = destroy_live s id (s.live id) (s.pending id)

-- What happens to a server: a new descriptor, an event that ends a connection, and the functors.
pub data Event : Type 0 where
  accepts closes destroys : ℕ → Event

pub serve : (ℕ → List ℕ) → StreamServer → Event → Option StreamServer
serve decimal s (accepts sockfd) = new_connection decimal s sockfd
serve decimal s (closes id) = close_connection decimal s id
serve decimal s (destroys id) = run_destroyed s id

pub serve_all : (ℕ → List ℕ) → StreamServer → List Event → Option StreamServer
serve_all decimal s [] = some s
serve_all decimal s (e ∷ rest) = serve decimal s e >>= λ s'. serve_all decimal s' rest
