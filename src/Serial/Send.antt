-- ===== src/Serial/Send.antt =====
-- The output of the port against that of a stream connection: the same code but for the state of a
-- connection and the flag `writing_`.
use toy_basket.Prelude.{
  ℕ, zero, suc, ◌≡◌, refl, ap, ◌∙◌, List, ◌++◌, true, false, not, ◌&&◌, Option, none, some, ◌>>=◌,
  ltb, leb, ◌==◌, length, drop, take, sub_size, Bool-cases, Option-cases, inl, inr,
}
use toy_basket.Channel.{Channel, is_writing}
use toy_basket.Buffer.{append, retrieve, readable_bytes}
use toy_basket.Buffer.Region.{content}
use toy_basket.StreamConnection.{
  StreamConnection, k_connected, Write, took, would_block, broken, other_error, nwrote, fault_error,
}
use toy_basket.StreamConnection
use toy_basket.Serial.{
  Serial, queue_output, write_directly, send_message, send_in_loop, wrote, drained, handle_write,
}

-- The port with its channel, as an established connection.
abbrev pub as_connection : Serial → Channel → StreamConnection
as_connection s ch = record {
  state = k_connected;
  reading = true;
  channel = ch;
  write_complete_callback = s.write_complete_callback;
  high_water_mark_callback = s.high_water_mark_callback;
  high_water_mark = s.high_water_mark;
  input_buffer = s.input_buffer;
  output_buffer = s.output_buffer;
  sent = s.sent;
  effects = s.effects;
}

-- The port with what an operation on the connection changed.
abbrev pub after : Serial → StreamConnection → Serial
after s c = record s {
  channel = some c.channel;
  output_buffer = c.output_buffer;
  sent = c.sent;
  effects = c.effects;
}

abbrev pub after_all : Serial → Option StreamConnection → Option Serial
after_all s o = o >>= λ c. some (after s c)

abbrev with_channel : Serial → Channel → Serial
with_channel s ch = record s { channel = some ch }

queue_output_lem :
    (s : Serial) (ch : Channel) (rest : List ℕ)
    → queue_output s ch rest ≡ after_all s (StreamConnection.queue_output (as_connection s ch) rest)
unfolding queue_output StreamConnection.queue_output
queue_output_lem s ch rest = elim (Option-cases (append s.output_buffer rest)) [
  | inl e ↦ rw e refl
  | inr (b, e) ↦ elim (Bool-cases (is_writing ch)) [
    | inl on ↦ rw (e, on) refl
    | inr off ↦ rw (e, off) refl
  ]
]

written :
    (s : Serial) (ch : Channel) (message : List ℕ) (w : Write)
    → write_directly (with_channel s ch) message w
      ≡ after s (StreamConnection.write_directly (as_connection s ch) message w)
unfolding write_directly StreamConnection.write_directly
written s ch message (took n) = refl
written s ch message would_block = refl
written s ch message broken = refl
written s ch message other_error = refl

directly :
    (s : Serial) (ch : Channel) (message rest : List ℕ) (w : Write)
    → queue_output (write_directly (with_channel s ch) message w) ch rest
      ≡ after_all s (
          StreamConnection.queue_output
            (StreamConnection.write_directly (as_connection s ch) message w)
            rest)
unfolding write_directly StreamConnection.write_directly
directly s ch message rest (took n) =
    queue_output_lem (write_directly (with_channel s ch) message (took n)) ch rest
directly s ch message rest would_block = queue_output_lem (with_channel s ch) ch rest
directly s ch message rest broken = queue_output_lem (with_channel s ch) ch rest
directly s ch message rest other_error = queue_output_lem (with_channel s ch) ch rest

-- `sendInLoop` of the connection behind the check of its state is `send_message` of the port.
send_message_lem :
    (s : Serial) (ch : Channel) (message : List ℕ) (w : Write)
    → send_message (with_channel s ch) ch message w
      ≡ after_all s (StreamConnection.send_in_loop (as_connection s ch) message w)
unfolding send_message StreamConnection.send_in_loop
send_message_lem s ch message w =
    elim (Bool-cases (not (is_writing ch) && (readable_bytes s.output_buffer == 0))) [
      | inl direct ↦
          rw direct
            (elim (Bool-cases (leb (sub_size (length message) (nwrote w)) (length message))) [
              | inr more ↦ rw more refl
              | inl sound ↦
                  rw sound
                    (elim (Bool-cases
                      (not (fault_error w) && ltb 0 (sub_size (length message) (nwrote w)))) [
                        | inl rest ↦ rw rest (directly s ch message (drop (nwrote w) message) w)
                        | inr all ↦ rw all (ap some (written s ch message w))
                      ])
            ])
      | inr waits ↦ rw waits (elim (Bool-cases (ltb 0 (length message))) [
        | inl some_bytes ↦ rw some_bytes (queue_output_lem (with_channel s ch) ch message)
        | inr nothing ↦ rw nothing refl
      ])
    ]

after_bind :
    (s : Serial) (o : Option StreamConnection) (f : Serial → Option Serial)
    → (after_all s o >>= f) ≡ (o >>= λ c. f (after s c))
after_bind s none f = refl
after_bind s (some c) f = refl

drained_lem :
    (s : Serial) (ch : Channel)
    → drained (with_channel s ch) ch ≡ after s (StreamConnection.drained (as_connection s ch))
unfolding drained StreamConnection.drained
drained_lem s ch = elim (Bool-cases (readable_bytes s.output_buffer == 0)) [
  | inl empty ↦ rw empty refl
  | inr more ↦ rw more refl
]

wrote_lem :
    (s : Serial) (ch : Channel) (w : Write)
    → wrote (with_channel s ch) ch w ≡ after_all s (StreamConnection.wrote (as_connection s ch) w)
unfolding wrote StreamConnection.wrote
wrote_lem s ch (took zero) = refl
wrote_lem s ch (took (suc n)) = elim (Option-cases (retrieve s.output_buffer (suc n))) [
  | inl e ↦ rw e refl
  | inr (b, e) ↦ rw e (
      ap some (
        drained_lem
          (record s { output_buffer = b; sent = s.sent ++ take (suc n) (content s.output_buffer) })
          ch))
]
wrote_lem s ch would_block = refl
wrote_lem s ch broken = refl
wrote_lem s ch other_error = refl

-- On a port with a channel, `sendInLoop` and `handleWrite` do to the channel, the output buffer,
-- the device and the callbacks what those of an established connection do, with every answer of
-- `write` and on every path, failed ones included; `sendInLoop` also resets `writing_`.
pub same_as_connection :
    (s : Serial) (ch : Channel) (message : List ℕ) (w : Write)
    → s.channel ≡ some ch
    → (send_in_loop s message w ≡ (
        StreamConnection.send_in_loop (as_connection s ch) message w >>= λ c.
        some (record (after s c) { writing = false })))
      × (handle_write s w
          ≡ (StreamConnection.handle_write (as_connection s ch) w >>= λ c. some (after s c)))
unfolding send_in_loop handle_write StreamConnection.handle_write
same_as_connection s ch message w e = (
  ap (λ o. send_in_loop (record s { channel = o }) message w) e
      ∙ ap (λ o. o >>= λ (s' : Serial). some (record s' { writing = false }))
          (send_message_lem s ch message w)
      ∙ after_bind s (StreamConnection.send_in_loop (as_connection s ch) message w)
          (λ (s' : Serial). some (record s' { writing = false })),
  ap (λ o. handle_write (record s { channel = o }) w) e ∙ elim (Bool-cases (is_writing ch)) [
    | inl on ↦ rw on (wrote_lem s ch w)
    | inr off ↦ rw off refl
  ],
)
