-- ===== src/StreamConnection/Stream.antt =====
-- A connection in use: any sequence of sends, of times at which the socket has room, and of input.
use toy_basket.Prelude.{
  ℕ, ◌+◌, ◌≤◌, List, [], ◌∷◌, ◌++◌, false, Option, some, ◌>>=◌, max_size, length, length-append,
  ◌≡◌, refl, sym, ap, ◌∙◌, subst, arith, append_assoc, append-nil,
}
use toy_basket.Buffer.Region.{content}
use toy_basket.StreamConnection.{StreamConnection, Write, fault_error, send_in_loop, handle_write}
use toy_basket.StreamConnection.Valid.{IsOpen}
use toy_basket.StreamConnection.Send.{IsCount, Accepted, send_in_loop_lem}
use toy_basket.StreamConnection.Drain.{handle_write_lem}

-- A call of `sendInLoop` or of `handleWrite`, with the answer of the socket.
pub data Use : Type 0 where
  sends : List ℕ → Write → Use
  has_room : Write → Use

pub use_once : StreamConnection → Use → Option StreamConnection
use_once c (sends message w) = send_in_loop c message w
use_once c (has_room w) = handle_write c w

pub use_all : StreamConnection → List Use → Option StreamConnection
use_all c [] = some c
use_all c (u ∷ rest) = do c' ← use_once c u; use_all c' rest

-- All messages, in order.
abbrev pub message_of : Use → List ℕ
message_of (sends message w) = message
message_of (has_room w) = []

abbrev pub messages : List Use → List ℕ
messages [] = []
messages (u ∷ rest) = message_of u ++ messages rest

-- The socket takes no more than it is offered, and the peer is there.
abbrev pub Allowed : StreamConnection → Use → Type 0
Allowed c (sends message w) = IsCount w (length message) × (fault_error w ≡ false)
Allowed c (has_room w) = IsCount w (length (content c.output_buffer))

abbrev pub AllAllowed : StreamConnection → List Use → Type 0
AllAllowed c [] = Unit
AllAllowed c (u ∷ rest) =
    Allowed c u × ((c' : StreamConnection) → use_once c u ≡ some c' → AllAllowed c' rest)

-- What one use keeps.
use_once_lem :
    (c : StreamConnection) (u : Use)
    → IsOpen c
    → Allowed c u
    → length c.output_buffer.buffer + length (message_of u) ≤ max_size
    → (c' : StreamConnection) × (use_once c u ≡ some c') × Accepted c (message_of u) c'
unfolding use_once
use_once_lem c (sends message w) o (count, there) fits =
    let (c', done, a) = send_in_loop_lem c message w o count fits in
    (c', done, subst (λ bytes. Accepted c bytes c') (rw there refl) a)
use_once_lem c (has_room w) o count fits =
    let (c', done, d) = handle_write_lem c w o count in
    (
      c',
      done,
      record {
        is_open = d.is_open;
        stream = d.stream ∙ sym (append-nil (c.sent ++ content c.output_buffer));
        same_state = d.same_state;
        growth = omega (arith, d.same_size);
      },
    )

-- In any sequence of sends and writes on an open connection whose output buffer may grow by all
-- the messages, every call succeeds as long as the peer is there, and the bytes that the socket has
-- taken, followed by those that wait, are the same as before with all messages behind them, in
-- order. The connection stays open and in its state.
pub use_all_lem :
    (c : StreamConnection) (uses : List Use)
    → IsOpen c
    → AllAllowed c uses
    → length c.output_buffer.buffer + length (messages uses) ≤ max_size
    → (c' : StreamConnection) × (use_all c uses ≡ some c') × Accepted c (messages uses) c'
unfolding use_all
use_all_lem c [] o allowed fits = (
  c,
  refl,
  record {
    is_open = o;
    stream = sym (append-nil (c.sent ++ content c.output_buffer));
    same_state = refl;
    growth = omega arith;
  },
)
use_all_lem c (u ∷ rest) o (allowed, later) fits =
    let split = length-append (message_of u) (messages rest) in
    let (c₁, done, a) = use_once_lem c u o allowed (omega (arith, split)) in
    let (c', all_done, b) =
      use_all_lem c₁ rest a.is_open (later c₁ done) (omega (arith, split, a.growth)) in
    (
      c',
      (rw done all_done),
      record {
        is_open = b.is_open;
        stream =
            b.stream ∙ ap (λ xs. xs ++ messages rest) a.stream ∙ append_assoc _ (message_of u) _;
        same_state = b.same_state ∙ a.same_state;
        growth = omega (arith, split, a.growth, b.growth);
      },
    )
