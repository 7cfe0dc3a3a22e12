-- ===== src/StreamClient/Again.antt =====
-- A client that has been connected, and its second call of `connect`.
use toy_basket.Prelude.{
  ℕ, ◌≡◌, refl, sym, ap, ◌∙◌, subst, List, [], ◌∷◌, ◌++◌, Bool, true, false, ◌&&◌, Option, none,
  some, ◌>>=◌, ◌>>◌, check, if◌then◌else◌, some_injective,
}
use toy_basket.Connector
use toy_basket.Connector.{Connector, Errno, k_connected, is_disconnected, is_connecting}
use toy_basket.Channel.{Channel, is_idle, is_none_event}
use toy_basket.StreamConnection.{StreamConnection, connect_destroyed, handle_close}
use toy_basket.StreamConnection
use toy_basket.StreamClient.{
  StreamClient, connect, disconnect, stop, connector_writable, remove_connection, close_current,
  close_if_watched, close_connection, destroy_next, run_destroyed, Event, connects_to, disconnects,
  stops, connector_writes, connector_resets, connector_stops, closes, destroys, react, react_all,
}

-- The connector has made its connection, and the client does not retry by itself.
abbrev pub IsDone : StreamClient → Type 0
IsDone c = (c.connector.state ≡ k_connected) × (c.retry ≡ false)

some_bind {ℓ κ} :
    {A : Type ℓ} {B : Type κ} (m : Option A) {f : A → Option B} {b : B}
    → (m >>= f) ≡ some b
    → (a : A) × (m ≡ some a) × (f a ≡ some b)
some_bind none e = cc
some_bind (some a) e = (a, refl, e)

check_then {ℓ} : {A : Type ℓ} (t : Bool) {a b : A} → (check t >> some a) ≡ some b → a ≡ b
check_then true e = some_injective e
check_then false e = cc

-- The connector does not start in this state.
connect_fails :
    (c : StreamClient) (sockfd : ℕ) (errno : Errno)
    → c.connector.state ≡ k_connected
    → connect c sockfd errno ≡ none
unfolding connect Connector.start Connector.start_in_loop
connect_fails c sockfd errno e =
    ap
      (λ st.
        (check (is_disconnected st)
          >> Connector.connect
              (record c.connector { connects = true; opened = c.connector.opened ++ sockfd ∷ [] })
              sockfd errno)
        >>= λ k. some (record c { connector = k; connects = true }))
      e

-- Nor is its channel there to be writable.
writable_fails :
    (c : StreamClient) (has_error is_self_connect : Bool)
    → c.connector.state ≡ k_connected
    → connector_writable c has_error is_self_connect ≡ none
unfolding connector_writable Connector.handle_write
writable_fails c has_error is_self_connect e =
    let off : is_connecting c.connector.state ≡ false = ap is_connecting e in
    let on : is_disconnected c.connector.state ≡ false = ap is_disconnected e in rw (off, on) refl

reset_keeps : (k k' : Connector) → Connector.reset_channel k ≡ some k' → k'.state ≡ k.state
unfolding Connector.reset_channel
reset_keeps k k' e = by_channel k.channel e
  where
    by_channel :
        (o : Option Channel)
        → (elim o [
          | none ↦ some k
          | some ch ↦ (do check (is_idle ch); some (record k { channel = none }))
        ])
          ≡ some k'
        → k'.state ≡ k.state
    by_channel none h = ap (λ (x : Connector). x.state) (sym (some_injective h))
    by_channel (some ch) h = ap (λ (x : Connector). x.state) (sym (check_then (is_idle ch) h))

close_keeps :
    (c c' : StreamClient) (o : Option StreamConnection) (sockfd : ℕ) (errno : Errno)
    → IsDone c
    → close_if_watched c o sockfd errno ≡ some c'
    → IsDone c'
unfolding remove_connection
close_keeps c c' none sockfd errno d e = subst IsDone (some_injective e) d
close_keeps c c' (some conn) sockfd errno d e = by_mask (is_none_event conn.channel) e
  where
    by_mask :
        (t : Bool) → (if t then some c else close_current c conn sockfd errno) ≡ some c' → IsDone c'
    by_mask true h = subst IsDone (some_injective h) d
    by_mask false h =
        let (closed, _, rest) = some_bind (handle_close conn) h in
        let removed : StreamClient = record c {
          connection = none;
          pending = c.pending ++ closed ∷ [];
        } in
        let stays : remove_connection c closed sockfd errno ≡ some removed =
          ap
            (λ t.
              if t && c.connects
              then (Connector.restart c.connector sockfd errno >>= λ k. some (record c {
                connector = k;
                connection = none;
                pending = c.pending ++ closed ∷ [];
              }))
              else some removed)
            d.1 in
        subst IsDone (some_injective (sym stays ∙ rest)) d

destroy_keeps :
    (c c' : StreamClient) (conns : List StreamConnection)
    → IsDone c
    → destroy_next c conns ≡ some c'
    → IsDone c'
destroy_keeps c c' [] d e = subst IsDone (some_injective e) d
destroy_keeps c c' (conn ∷ rest) d e =
    let (destroyed, _, checked) = some_bind (connect_destroyed conn) e in
    subst IsDone (check_then (StreamConnection.is_disconnected destroyed.state) checked) d

stop_keeps :
    (k k' : Connector)
    → k.state ≡ k_connected
    → Connector.stop_in_loop k ≡ some k'
    → k'.state ≡ k_connected
unfolding Connector.stop_in_loop
stop_keeps k k' e h = by_state (is_connecting k.state) _ (ap is_connecting e) h
  where
    by_state :
        (t : Bool) (o : Option Connector)
        → t ≡ false
        → (if t then o else some k) ≡ some k'
        → k'.state ≡ k_connected
    by_state true o f h' = cc
    by_state false o f h' = ap (λ (x : Connector). x.state) (sym (some_injective h')) ∙ e

react_keeps : (c c' : StreamClient) (e : Event) → IsDone c → react c e ≡ some c' → IsDone c'
unfolding react disconnect stop close_connection run_destroyed Connector.stop
react_keeps c c' (connects_to sockfd errno) d h =
    let clash : none ≡ some c' = sym (connect_fails c sockfd errno d.0) ∙ h in absurd cc
react_keeps c c' disconnects d h = subst IsDone (some_injective h) d
react_keeps c c' stops d h = subst IsDone (some_injective h) d
react_keeps c c' (connector_writes has_error is_self_connect) d h =
    let clash : none ≡ some c' = sym (writable_fails c has_error is_self_connect d.0) ∙ h in
    absurd cc
react_keeps c c' connector_resets d h =
    let (k, reset, done) = some_bind (Connector.reset_channel c.connector) h in
    subst IsDone (some_injective done) (reset_keeps c.connector k reset ∙ d.0, d.1)
react_keeps c c' connector_stops d h =
    let (k, stopped, done) = some_bind (Connector.stop_in_loop c.connector) h in
    subst IsDone (some_injective done) (stop_keeps c.connector k d.0 stopped, d.1)
react_keeps c c' (closes sockfd errno) d h = close_keeps c c' c.connection sockfd errno d h
react_keeps c c' destroys d h = destroy_keeps c c' c.pending d h

-- Once the connector of a client without automatic retry has made a connection, whatever happens
-- to the client next, `connect` fails an assertion: the connector still takes itself for connected.
pub connect_again_fails :
    (c c' : StreamClient) (events : List Event) (sockfd : ℕ) (errno : Errno)
    → c.connector.state ≡ k_connected
    → c.retry ≡ false
    → react_all c events ≡ some c'
    → connect c' sockfd errno ≡ none
unfolding react_all
connect_again_fails c c' [] sockfd errno e r h =
    connect_fails c' sockfd errno (subst IsDone (some_injective h) (e, r)).0
connect_again_fails c c' (event ∷ rest) sockfd errno e r h =
    let (c₁, first, later) = some_bind (react c event) h in
    let (e', r') = react_keeps c c₁ event (e, r) first in
    connect_again_fails c₁ c' rest sockfd errno e' r' later
