-- ===== src/StreamConnection/Drain.antt =====
-- `StreamConnection::handleWrite` and `shutdownInLoop`: the output buffer goes to the socket, and
-- the write half is shut down behind the last byte.
use toy_basket.Prelude.{
  zero, suc, ◌<◌, List, [], ◌∷◌, ◌++◌, Bool, true, false, ◌==◌, some, length, take, ◌≡◌, refl, sym,
  ap, ◌∙◌, subst, Bool-cases, inl, inr, arith, ltb→lt, ltb→le, lt→ltb, le→ltb, ==_iff, append_assoc,
  take-append-drop,
}
use toy_basket.Channel.{is_writing, write_event, clear}
use toy_basket.Channel.Mask.{mask, mask_without_write, is_writing-mask}
use toy_basket.Buffer.{Buffer, readable_bytes}
use toy_basket.Buffer.Region.{IsValid, content, readable-content}
use toy_basket.Buffer.Retrieve.{retrieve_lem}
use toy_basket.StreamConnection.{
  StreamConnection, k_disconnecting, Effect, shutdown_write, Write, took, handle_write, wrote,
  drained, is_disconnecting, complete, emit, disable_channel_writing, shutdown_in_loop,
}
use toy_basket.StreamConnection.Valid.{IsOpen, has_output, is_writing_lem}
use toy_basket.StreamConnection.Send.{IsCount}

abbrev EndsWith : List Effect → Effect → Type 0
EndsWith effects e = (before : List Effect) × (effects ≡ before ++ e ∷ [])

-- Between `c` and `c'` the socket took output, or none.
pub record Drained (c c' : StreamConnection) : Type 0 where
  pub is_open : IsOpen c'
  pub stream : c'.sent ++ content c'.output_buffer ≡ c.sent ++ content c.output_buffer
  pub same_state : c'.state ≡ c.state
  pub same_size : length c'.output_buffer.buffer ≡ length c.output_buffer.buffer
  pub shut :
      c.state ≡ k_disconnecting
      → has_output c.output_buffer ≡ true
      → has_output c'.output_buffer ≡ false
      → EndsWith c'.effects shutdown_write

unchanged-Drained : (c : StreamConnection) → IsOpen c → Drained c c
unchanged-Drained c o = record {
  is_open = o;
  stream = refl;
  same_state = refl;
  same_size = refl;
  shut = λ s h n. cc;
}

-- With the last byte gone the channel stops waiting, and a connection that is being shut down shuts
-- the write half.
drained_lem :
    (c c₁ : StreamConnection) (r : Bool)
    → IsOpen c
    → c₁.channel.events ≡ mask r true
    → c₁.state ≡ c.state
    → c₁.input_buffer ≡ c.input_buffer
    → IsValid c₁.output_buffer
    → c₁.sent ++ content c₁.output_buffer ≡ c.sent ++ content c.output_buffer
    → length c₁.output_buffer.buffer ≡ length c.output_buffer.buffer
    → Drained c (drained c₁)
unfolding drained shutdown_in_loop
drained_lem c c₁ r o on state input v stream size =
    elim (Bool-cases (readable_bytes c₁.output_buffer == 0)) [
      | inl empty ↦
          let gone : has_output c₁.output_buffer ≡ false =
            le→ltb 0 _ (omega (arith, readable-content v, (==_iff _ _).0 empty)) in
          elim (Bool-cases (is_disconnecting c₁.state)) [
            | inl closing ↦
                let ends : drained c₁ ≡ emit idle shutdown_write = rw (empty, closing, off) in
                subst (Drained c) (sym ends) (
                  at_rest (emit idle shutdown_write) gone refl refl refl refl refl
                    (λ s. (idle.effects, refl)))
            | inr not_closing ↦
                let ends : drained c₁ ≡ idle = rw (empty, not_closing) in
                subst (Drained c) (sym ends) (
                  at_rest idle gone refl refl refl refl refl
                    (λ s. absurd (still_open not_closing s)))
          ]
      | inr more ↦
          let some_left : has_output c₁.output_buffer ≡ true = lt→ltb 0 _ (positive more) in
          let ends : drained c₁ ≡ c₁ = rw more in
          subst (Drained c) (sym ends) (record {
            is_open = record {
              alive = rw state o.alive;
              input_valid = rw input o.input_valid;
              output_valid = v;
              masked = (r, on ∙ ap (mask r) (sym some_left));
            };
            stream = stream;
            same_state = state;
            same_size = size;
            shut = λ s h n. cc;
          })
    ]
  where
    idle : StreamConnection
    idle = complete (disable_channel_writing c₁) 0

    idle_mask : idle.channel.events ≡ mask r false
    idle_mask = ap (λ m. clear m write_event) on ∙ mask_without_write r true

    off : is_writing idle.channel ≡ false
    off = is_writing-mask idle.channel r false idle_mask

    positive :
        (readable_bytes c₁.output_buffer == 0) ≡ false → 0 < length (content c₁.output_buffer)
    positive more = elim (Bool-cases (has_output c₁.output_buffer)) [
      | inl h ↦ ltb→lt _ _ h
      | inr h ↦
          let zero_bytes : readable_bytes c₁.output_buffer ≡ 0 =
            omega (arith, readable-content v, ltb→le _ _ h) in
          let hit : (readable_bytes c₁.output_buffer == 0) ≡ true = (==_iff _ _).1 zero_bytes in
          absurd cc
    ]

    still_open : is_disconnecting c₁.state ≡ false → c.state ≡ k_disconnecting → ⊥
    still_open n s =
        let closing : is_disconnecting c₁.state ≡ true = ap is_disconnecting (state ∙ s) in cc

    at_rest :
        (c' : StreamConnection)
        → has_output c₁.output_buffer ≡ false
        → c'.channel.events ≡ idle.channel.events
        → c'.state ≡ c₁.state
        → c'.input_buffer ≡ c₁.input_buffer
        → c'.output_buffer ≡ c₁.output_buffer
        → c'.sent ≡ c₁.sent
        → (c.state ≡ k_disconnecting → EndsWith c'.effects shutdown_write)
        → Drained c c'
    at_rest c' gone m st inp out sn shut = record {
      is_open = record {
        alive = rw (st, state) o.alive;
        input_valid = rw (inp, input) o.input_valid;
        output_valid = rw out v;
        masked = (r, m ∙ idle_mask ∙ ap (mask r) (sym gone ∙ ap has_output (sym out)));
      };
      stream = rw (out, sn) stream;
      same_state = st ∙ state;
      same_size = ap (λ (b : Buffer). length b.buffer) out ∙ size;
      shut = λ s h n. shut s;
    }

-- `handleWrite` on a connection that is not closed, whatever `write` answers within its contract,
-- keeps the stream: what the socket has taken followed by what waits.
pub handle_write_lem :
    (c : StreamConnection) (w : Write)
    → IsOpen c
    → IsCount w (length (content c.output_buffer))
    → (c' : StreamConnection) × (handle_write c w ≡ some c') × Drained c c'
unfolding handle_write wrote
handle_write_lem c w o count = elim (Bool-cases (has_output c.output_buffer)) [
  | inr nothing ↦ (c, rw (is_writing_lem c o ∙ nothing), unchanged-Drained c o)
  | inl waiting ↦
      let (c', done, d) = by_answer w waiting count in
      (c', (rw (is_writing_lem c o ∙ waiting)) ∙ done, d)
]
  where
    by_answer :
        (w : Write)
        → has_output c.output_buffer ≡ true
        → IsCount w (length (content c.output_buffer))
        → (c' : StreamConnection) × (wrote c w ≡ some c') × Drained c c'
    by_answer (took zero) h k = (c, refl, unchanged-Drained c o)
    by_answer (took (suc n)) h k =
        let (out, done, v, left, same) = retrieve_lem c.output_buffer (suc n) o.output_valid k in
        let c₁ : StreamConnection = record c {
          output_buffer = out;
          sent = c.sent ++ take (suc n) (content c.output_buffer);
        } in
        (
          drained c₁,
          rw done refl,
          drained_lem c c₁ o.masked.0 o (o.masked.1 ∙ ap (mask o.masked.0) h) refl refl v
              (ap (λ xs. c₁.sent ++ xs) left
                ∙ append_assoc c.sent _ _
                ∙ ap (λ xs. c.sent ++ xs) (take-append-drop (suc n) (content c.output_buffer)))
              (ap length same),
        )
    by_answer w h k = (c, refl, unchanged-Drained c o)
