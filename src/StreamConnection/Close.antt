-- ===== src/StreamConnection/Close.antt =====
-- The life of a connection: `connectEstablished`, `handleClose`, `forceCloseInLoop`,
-- `connectDestroyed`.
use Prim.Native.Nat.{bit_or}
use toy_basket.Prelude.{
  ℕ, List, [], ◌∷◌, ◌++◌, Bool, true, false, ◌||◌, none, some, ◌≡◌, ◌⊎◌, inl, inr, refl, sym, subst,
  ◌==◌, ap, ◌∙◌, Bool-cases,
}
use toy_basket.Channel.{is_writing, is_none_event, none_event, read_event}
use toy_basket.Channel.Mask.{mask, mask_with_read}
use toy_basket.StreamConnection.{
  StreamConnection, k_disconnected, k_connecting, k_connected, k_disconnecting, connection_callback,
  close_callback, Write, is_connected, is_disconnecting, closed, tie, emit, set_mask, handle_close,
  force_close_in_loop, connect_established, connect_destroyed, send_in_loop, shutdown,
  shutdown_in_loop,
}
use toy_basket.StreamConnection.Valid.{IsOpen, has_output}

-- A connection that `connectEstablished` has taken into use.
pub record Established (c c' : StreamConnection) : Type 0 where
  pub is_open : IsOpen c'
  pub state : c'.state ≡ k_connected
  pub reads : (w : Bool) × (c'.channel.events ≡ mask true w)
  pub is_tied : c'.channel.tied ≡ true
  pub called : c'.effects ≡ c.effects ++ connection_callback ∷ []

-- `connectEstablished` succeeds on an open connection that is connecting; the connection is then
-- connected, reads, is tied to its channel and has called its connection callback.
pub connect_established_lem :
    (c : StreamConnection)
    → IsOpen c
    → c.state ≡ k_connecting
    → (c' : StreamConnection) × (connect_established c ≡ some c') × Established c c'
unfolding connect_established
connect_established_lem c o e = (
  emit (set_mask (tie c) (bit_or (tie c).channel.events read_event)) connection_callback,
  rw e refl,
  record {
    is_open = record {
      alive = refl;
      input_valid = o.input_valid;
      output_valid = o.output_valid;
      masked = (true, now);
    };
    state = refl;
    reads = (has_output c.output_buffer, now);
    is_tied = refl;
    called = refl;
  },
)
  where
    now : bit_or c.channel.events read_event ≡ mask true (has_output c.output_buffer)
    now =
        ap (λ m. bit_or m read_event) o.masked.1
        ∙ mask_with_read o.masked.0 (has_output c.output_buffer)

-- What a close leaves.
pub record Closed (c c' : StreamConnection) : Type 0 where
  pub state : c'.state ≡ k_disconnected
  pub events : c'.channel.events ≡ none_event
  pub called : c'.effects ≡ (c.effects ++ connection_callback ∷ []) ++ close_callback ∷ []
  pub same_sent : c'.sent ≡ c.sent

-- `handleClose` succeeds on an open connection that is connected or disconnecting: it ends the
-- events and calls the connection and the close callback once. Afterwards another close from the
-- loop and every send do nothing, and `connectDestroyed` succeeds.
pub handle_close_lem :
    (c : StreamConnection)
    → (c.state ≡ k_connected) ⊎ (c.state ≡ k_disconnecting)
    → (c' : StreamConnection) × (handle_close c ≡ some c')
      × (force_close_in_loop c ≡ some c')
      × Closed c c'
      × (force_close_in_loop c' ≡ some c')
      × ((message : List ℕ) (w : Write) → send_in_loop c' message w ≡ some c')
      × ((c'' : StreamConnection) × (connect_destroyed c' ≡ some c'')
          × (c''.effects ≡ c'.effects)
          × (c''.channel.added_to_loop ≡ false))
unfolding handle_close force_close_in_loop send_in_loop connect_destroyed is_none_event
handle_close_lem c alive = (
  c',
  rw may,
  rw may,
  record { state = refl; events = refl; called = refl; same_sent = refl },
  refl,
  (λ message w. refl),
  (record c' { channel = record c'.channel { added_to_loop = false } }, refl, refl, refl),
)
  where
    c' : StreamConnection
    c' = emit (emit (closed c) connection_callback) close_callback

    may : (is_connected c.state || is_disconnecting c.state) ≡ true
    may = elim alive [ inl e ↦ rw e refl | inr e ↦ rw e refl ]

-- `connectDestroyed` on an established connection that `shutdown` has made disconnecting fails an
-- assertion: the channel still reads, and only a connected one has its events disabled.
pub destroy_after_shutdown :
    (c c₁ : StreamConnection)
    → IsOpen c
    → c.state ≡ k_connecting
    → connect_established c ≡ some c₁
    → connect_destroyed (shutdown true c₁) ≡ none
unfolding connect_destroyed shutdown shutdown_in_loop is_none_event
destroy_after_shutdown c c₁ o e done =
    let (c', done', est) = connect_established_lem c o e in
    let same : c' ≡ c₁ = some_injective (sym done' ∙ done) in
    subst (λ x. connect_destroyed (shutdown true x) ≡ none) same (fails c' est)
  where
    some_injective : {x y : StreamConnection} → some x ≡ some y → x ≡ y
    some_injective h = cc

    not_none : (w : Bool) → (mask true w == none_event) ≡ false
    not_none true = refl
    not_none false = refl

    fails : (c' : StreamConnection) → Established c c' → connect_destroyed (shutdown true c') ≡ none
    fails c' est = elim (Bool-cases (is_writing c'.channel)) [
      | inl on ↦ rw (est.state, on, est.reads.1, not_none est.reads.0)
      | inr off ↦ rw (est.state, off, est.reads.1, not_none est.reads.0)
    ]
