-- ===== src/StreamConnection/Send.antt =====
-- `StreamConnection::sendInLoop`: every byte goes to the socket or to the output buffer, in order.
use Prim.Native.Nat.{bit_or}
use toy_basket.Prelude.{
  ℕ, ◌+◌, ◌-◌, ◌≤◌, ◌<◌, List, [], ◌++◌, Bool, true, false, not, ◌&&◌, ltb, leb, if◌then◌else◌,
  some, max_size, length, empty_of_length, take, drop, sub_size, add_size, ◌≡◌, refl, sym, ap,
  subst, ◌∙◌, Bool-cases, inl, inr, arith, le→leb, ltb→lt, ltb→le, lt→ltb, length-append,
  append-nil, append_assoc, take-append-drop, take_of_length, length-drop,
}
use toy_basket.Channel.{is_writing, write_event}
use toy_basket.Channel.Mask.{mask, mask_with_write}
use toy_basket.Buffer.{Buffer, readable_bytes}
use toy_basket.Buffer.Region.{content, readable-content}
use toy_basket.Buffer.Space.{append_lem, Appended}
use toy_basket.StreamConnection.{
  StreamConnection, Write, took, would_block, broken, other_error, send_in_loop, write_directly,
  queue_output, nwrote, fault_error, enable_channel_writing, watermark,
}
use toy_basket.StreamConnection.Valid.{IsOpen, has_output, is_writing_lem}

-- `::write` takes no more than it was offered.
abbrev pub IsCount : Write → ℕ → Type 0
IsCount w offered = nwrote w ≤ offered

-- Between `c` and `c'` the connection has accepted `bytes` behind those that it had.
pub record Accepted (c : StreamConnection) (bytes : List ℕ) (c' : StreamConnection) : Type 0 where
  pub is_open : IsOpen c'
  pub stream : c'.sent ++ content c'.output_buffer ≡ (c.sent ++ content c.output_buffer) ++ bytes
  pub same_state : c'.state ≡ c.state
  pub growth : length c'.output_buffer.buffer ≤ length c.output_buffer.buffer + length bytes

-- A connection that differs in its output buffer, its mask and its effects has accepted what the
-- buffer has, if the channel waits for room in the socket.
queued-Accepted :
    (c c' : StreamConnection) (rest : List ℕ)
    → (o : IsOpen c) → 0 < length rest
    → Appended c.output_buffer rest c'.output_buffer
    → c'.channel.events ≡ mask o.masked.0 true
    → c'.state ≡ c.state
    → c'.sent ≡ c.sent
    → c'.input_buffer ≡ c.input_buffer
    → Accepted c rest c'
queued-Accepted c c' rest o some_rest a on state sent input = record {
  is_open = record {
    alive = rw state o.alive;
    input_valid = rw input o.input_valid;
    output_valid = a.valid;
    masked = (o.masked.0, rw kept on);
  };
  stream = rw (sent, a.bytes_in) (sym (append_assoc c.sent (content c.output_buffer) rest));
  same_state = state;
  growth = a.size;
}
  where
    kept : has_output c'.output_buffer ≡ true
    kept = lt→ltb 0 _ (
        omega
          (arith, some_rest, ap length a.bytes_in, length-append (content c.output_buffer) rest))

-- Bytes that wait in the output buffer make the channel wait for room in the socket.
queue_output_lem :
    (c : StreamConnection) (rest : List ℕ)
    → IsOpen c
    → 0 < length rest
    → length c.output_buffer.buffer + length rest ≤ max_size
    → (c' : StreamConnection) × (queue_output c rest ≡ some c') × Accepted c rest c'
unfolding queue_output
queue_output_lem c rest o some_rest fits =
    let (out, done, a) = append_lem c.output_buffer rest o.output_valid fits in
    let queued : StreamConnection =
      record (watermark c (readable_bytes c.output_buffer)
        (add_size (readable_bytes c.output_buffer) (length rest))) { output_buffer = out } in
    elim (Bool-cases (is_writing c.channel)) [
      | inl on ↦ (
        queued,
        rw (done, on),
        queued-Accepted c queued rest o some_rest a
            (o.masked.1 ∙ ap (mask o.masked.0) (sym (is_writing_lem c o) ∙ on)) refl refl refl,
      )
      | inr off ↦ (
        enable_channel_writing queued,
        rw (done, off),
        queued-Accepted c (enable_channel_writing queued) rest o some_rest a
            (ap (λ m. bit_or m write_event) o.masked.1 ∙ mask_with_write o.masked.0 _) refl refl
            refl,
      )
    ]

both_parts :
    (done message : List ℕ) (n : ℕ)
    → ((done ++ take n message) ++ []) ++ drop n message ≡ (done ++ []) ++ message
both_parts done message n =
    rw
      (
        append-nil (done ++ take n message),
        append-nil done,
        append_assoc done (take n message) (drop n message),
        take-append-drop n message,
      )
      refl

-- Without waiting output, the bytes that the socket did not take wait.
after_direct :
    (c c₁ : StreamConnection) (message : List ℕ) (n : ℕ)
    → IsOpen c₁
    → c₁.output_buffer ≡ c.output_buffer
    → c₁.state ≡ c.state
    → c₁.sent ≡ c.sent ++ take n message
    → content c.output_buffer ≡ []
    → n ≤ length message
    → length c.output_buffer.buffer + length message ≤ max_size
    → (c' : StreamConnection) × ((if ltb 0 (sub_size (length message) n)
          then queue_output c₁ (drop n message)
          else some c₁)
        ≡ some c')
      × Accepted c message c'
after_direct c c₁ message n o output state sent empty enough fits =
    let left : sub_size (length message) n ≡ length message - n = omega arith in
    let queues : (b : Bool)
        → ltb 0 (sub_size (length message) n) ≡ b
        → (if ltb 0 (sub_size (length message) n)
            then queue_output c₁ (drop n message)
            else some c₁)
          ≡ (if b then queue_output c₁ (drop n message) else some c₁) =
      (λ b. ap (λ b. if b then queue_output c₁ (drop n message) else some c₁)) in
    elim (Bool-cases (ltb 0 (sub_size (length message) n))) [
      | inl more ↦
          let (c', done, a) =
            queue_output_lem c₁ (drop n message) o
              (omega (arith, left, length-drop n message, ltb→lt _ _ more))
              (omega (arith, length-drop n message, ap (λ (b : Buffer). length b.buffer) output)) in
          (
            c',
            queues true more ∙ done,
            record {
              is_open = a.is_open;
              stream = a.stream ∙ rw (output, sent, empty) (both_parts c.sent message n);
              same_state = a.same_state ∙ state;
              growth = omega (
                arith,
                a.growth,
                length-drop n message,
                ap (λ (b : Buffer). length b.buffer) output,
              );
            },
          )
      | inr all ↦ (
        c₁,
        queues false all,
        record {
          is_open = o;
          stream =
              rw
                (
                  output,
                  sent,
                  empty,
                  take_of_length n message (omega (arith, left, ltb→le _ _ all)),
                )
                (append-nil _ ∙ ap (λ xs. xs ++ message) (sym (append-nil c.sent)));
          same_state = state;
          growth = omega (arith, ap (λ (b : Buffer). length b.buffer) output);
        },
      )
    ]

-- A direct write that fails because the peer is gone accepts nothing.
abbrev pub accepted_bytes : StreamConnection → List ℕ → Write → List ℕ
accepted_bytes c message w =
    if fault_error w && not (has_output c.output_buffer) then [] else message

-- What `sendInLoop` does when no output waits.
direct_lem :
    (c : StreamConnection) (message : List ℕ) (w : Write)
    → IsOpen c
    → content c.output_buffer ≡ []
    → IsCount w (length message)
    → length c.output_buffer.buffer + length message ≤ max_size
    → (c' : StreamConnection) × ((if not (fault_error w)
            && ltb 0 (sub_size (length message) (nwrote w))
          then queue_output (write_directly c message w) (drop (nwrote w) message)
          else some (write_directly c message w))
        ≡ some c')
      × Accepted c (if fault_error w then [] else message) c'
unfolding write_directly
direct_lem c message (took n) o empty count fits =
    after_direct c (write_directly c message (took n)) message n o refl refl refl empty count fits
direct_lem c message would_block o empty count fits =
    after_direct c c message 0 o refl refl (sym (append-nil c.sent)) empty count fits
direct_lem c message other_error o empty count fits =
    after_direct c c message 0 o refl refl (sym (append-nil c.sent)) empty count fits
direct_lem c message broken o empty count fits = (
  c,
  refl,
  record { is_open = o; stream = sym (append-nil _); same_state = refl; growth = omega arith },
)

-- `sendInLoop` on a connection that is not closed, whatever `write` answers within its contract,
-- accepts the message, unless no output waits and the peer is gone: the bytes that the socket has
-- taken, followed by those that wait, are the same as before with the message behind them.
pub send_in_loop_lem :
    (c : StreamConnection) (message : List ℕ) (w : Write)
    → IsOpen c
    → IsCount w (length message)
    → length c.output_buffer.buffer + length message ≤ max_size
    → (c' : StreamConnection) × (send_in_loop c message w ≡ some c')
      × Accepted c (accepted_bytes c message w) c'
unfolding send_in_loop
send_in_loop_lem c message w o count fits = elim (Bool-cases (has_output c.output_buffer)) [
  | inl waiting ↦
      let on : is_writing c.channel ≡ true = is_writing_lem c o ∙ waiting in
      let ends : send_in_loop c message w
          ≡ (if ltb 0 (length message) then queue_output c message else some c) =
        rw (o.alive, on) in
      elim (Bool-cases (ltb 0 (length message))) [
        | inl some_bytes ↦
            let (c', done, a) = queue_output_lem c message o (ltb→lt _ _ some_bytes) fits in
            (
              c',
              ends ∙ ap (λ b. if b then queue_output c message else some c) some_bytes ∙ done,
              subst (λ bytes. Accepted c bytes c') (sym (all_bytes waiting)) a,
            )
        | inr no_bytes ↦ (
          c,
          ends ∙ ap (λ b. if b then queue_output c message else some c) no_bytes,
          record {
            is_open = o;
            stream =
                rw (all_bytes waiting, no_byte no_bytes)
                  (sym (append-nil (c.sent ++ content c.output_buffer)));
            same_state = refl;
            growth = omega arith;
          },
        )
      ]
  | inr nothing ↦
      let off : is_writing c.channel ≡ false = is_writing_lem c o ∙ nothing in
      let empty : readable_bytes c.output_buffer ≡ 0 =
        omega (arith, readable-content o.output_valid, ltb→le _ _ nothing) in
      let (c', done, a) = direct_lem c message w o (no_content nothing) count fits in
      let sound : leb (sub_size (length message) (nwrote w)) (length message) ≡ true =
        le→leb _ _ (omega arith) in
      (
        c',
        (rw (o.alive, off, empty, sound)) ∙ done,
        subst (λ bytes. Accepted c bytes c') (sym (direct_bytes nothing)) a,
      )
]
  where
    all_bytes : has_output c.output_buffer ≡ true → accepted_bytes c message w ≡ message
    all_bytes h = rw h (elim (Bool-cases (fault_error w)) [ inl e ↦ rw e refl | inr e ↦ rw e refl ])

    direct_bytes :
        has_output c.output_buffer ≡ false
        → accepted_bytes c message w ≡ (if fault_error w then [] else message)
    direct_bytes h =
        rw h (elim (Bool-cases (fault_error w)) [ inl e ↦ rw e refl | inr e ↦ rw e refl ])

    no_byte : ltb 0 (length message) ≡ false → message ≡ []
    no_byte h = empty_of_length message (omega (arith, ltb→le _ _ h))

    no_content : has_output c.output_buffer ≡ false → content c.output_buffer ≡ []
    no_content h = empty_of_length (content c.output_buffer) (omega (arith, ltb→le _ _ h))
