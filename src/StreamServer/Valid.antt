-- ===== src/StreamServer/Valid.antt =====
-- What holds of a server between two events.
use toy_basket.Prelude.{
  ℕ, ◌+◌, ◌≤◌, ◌<◌, ◌≡◌, refl, ap, ap₂, ◌∙◌, List, Bool, true, false, ◌||◌, none, some, ◌>>=◌, ◌>>◌,
  check, if◌then◌else◌, length, ◌⊎◌, arith, ◌^◌,
}
use toy_basket.Channel.{is_none_event}
use toy_basket.Buffer.{initial_size}
use toy_basket.Buffer.Shrink.{new_lem}
use toy_basket.StreamConnection
use toy_basket.StreamConnection.{
  StreamConnection, StateE, k_connecting, k_connected, k_disconnecting, k_disconnected,
  is_connected, is_disconnecting, is_disconnected, connect_established, handle_close,
  connect_destroyed, fresh_connection, closed, remove_from_loop, emit, connection_callback,
  close_callback,
}
use toy_basket.StreamServer.{StreamServer, conn_name}

abbrev pub is_up : StreamConnection → Bool
is_up c = is_connected c.state || is_disconnecting c.state

-- A connection that may be closed, whose channel has a mask that is not empty; and one that is closed.
abbrev pub IsUp : StreamConnection → Type 0
IsUp c = (is_up c ≡ true) × (is_none_event c.channel ≡ false)

abbrev pub IsDown : StreamConnection → Type 0
IsDown c = (is_disconnected c.state ≡ true) × (is_none_event c.channel ≡ true)

down_state :
    (s : StateE)
    → is_disconnected s ≡ true
    → (is_connected s ≡ false) × (is_disconnecting s ≡ false)
down_state k_disconnected e = (refl, refl)
down_state k_connecting e = cc
down_state k_connected e = cc
down_state k_disconnecting e = cc

-- What the operations of a connection do to its state.
pub established_lem :
    (sockfd : ℕ)
    → (c : StreamConnection) × (c' : StreamConnection) × (StreamConnection.new_connection sockfd
        ≡ some c)
      × (connect_established c ≡ some c')
      × IsUp c'
unfolding StreamConnection.new_connection connect_established is_none_event
established_lem sockfd =
    let (input, made, _, _, _, _, _) = new_lem initial_size (omega arith) in
    (
      _,
      _,
      ap (λ o. o >>= λ i. o >>= λ j. some (fresh_connection sockfd i j)) made,
      refl,
      (refl, refl),
    )

pub close_lem :
    (c : StreamConnection)
    → is_up c ≡ true
    → (c' : StreamConnection) × (handle_close c ≡ some c') × IsDown c'
unfolding handle_close is_none_event
close_lem c up =
    let c' : StreamConnection = emit (emit (closed c) connection_callback) close_callback in
    (c', ap (λ b. check b >> some c') up, (refl, refl))

pub destroy_lem :
    (c : StreamConnection)
    → IsDown c
    → (c' : StreamConnection) × (connect_destroyed c ≡ some c') × (is_disconnected c'.state ≡ true)
unfolding connect_destroyed
destroy_lem c (down, off) =
    let c' : StreamConnection = record c { channel = record c.channel { added_to_loop = false } } in
    (
      c',
      ap (λ b. remove_from_loop (if b then emit (closed c) connection_callback else c))
            (down_state c.state down).0
          ∙ ap (λ b. check b >> some c') off,
      down,
    )

pub down_not_up : (c : StreamConnection) → IsDown c → is_up c ≡ false
down_not_up c (down, off) = let (a, b) = down_state c.state down in ap₂ (λ x y. x || y) a b

-- Every object that exists is up, under its name in the map and with no functor that holds it, or
-- down, with exactly one; the map has no other entries.
module _ (decimal : ℕ → List ℕ) where
  pub record IsValid (s : StreamServer) : Type 0 where
    pub unborn : (id : ℕ) → s.next_conn_id ≤ id → s.live id ≡ none
    pub in_map :
        (key : List ℕ) (id : ℕ)
        → s.connections key ≡ some id
        → (key ≡ conn_name decimal s.name s.ip_port id)
          × (c : StreamConnection) × (s.live id ≡ some c)
          × IsUp c
    pub alive :
        (id : ℕ) (c : StreamConnection)
        → s.live id ≡ some c
        → (IsUp c
            × (s.connections (conn_name decimal s.name s.ip_port id) ≡ some id)
            × (s.pending id ≡ 0))
          ⊎ (IsDown c × (s.pending id ≡ 1))
    pub gone : (id : ℕ) → s.live id ≡ none → s.pending id ≡ 0

  -- The names of all connections below `bound` fit.
  abbrev pub Fits : List ℕ → ℕ → Type 0
  Fits ip_port bound = (id : ℕ) → id < bound → length ip_port + length (decimal id) ≤ 61

  -- `%d` prints different numbers differently.
  abbrev pub Distinct : Type 0
  Distinct = (i j : ℕ) → i < 2 ^ 31 → j < 2 ^ 31 → decimal i ≡ decimal j → i ≡ j
