-- ===== src/Rpc/RoundTrip.antt =====
-- A call from its request to its answer, through both `onMessage` methods.
use toy_basket.Prelude.{
  ℕ, suc, ◌+◌, ◌<◌, ◌^◌, ◌≡◌, refl, sym, ap, ◌∙◌, List, [], ◌∷◌, ◌++◌, Option, some, ◌>>=◌, length,
  append-nil,
}
use toy_basket.Buffer.{Buffer}
use toy_basket.Buffer.Region.{IsValid, content}
use toy_basket.Rpc.{Meta, Codec, frame, finished, on_message}
use toy_basket.Rpc.Frames.{IsFrame}
use toy_basket.Rpc.Parts.{on_message_whole}
use toy_basket.Rpc.Channel.{
  RpcChannel, call_method, handle_reply, next_index, sends_to, request_meta, parses, runs_done,
  channel_on_message,
}
use toy_basket.Rpc.Server.{
  RpcServer, register_service, handle_request, calls, sends, reply_meta, send_reply,
  on_callback_done, server_on_message,
}
use toy_basket.Rpc.Calls
use toy_basket.Rpc.Names.{NotNamed, handle-register_service}

-- A run of `onMessage` on a buffer with one whole frame.
on_message_one {ℓ} :
    {S : Type ℓ} (k : Codec) (handle : S → Meta → Option (List ℕ) → Option S) (s e : S) (b : Buffer)
    (m : Meta) (bytes : List ℕ)
    → IsValid b
    → IsFrame k m bytes
    → content b ≡ frame k m bytes
    → handle s m (some bytes) ≡ some e
    → (b' : Buffer) × (on_message k handle (suc (length (content b))) s b ≡ finished e b')
      × (content b' ≡ [])
on_message_one k handle s e b m bytes v f whole h =
    on_message_whole k handle s e b ((m, bytes) ∷ []) v (f, tt)
      (whole ∙ sym (append-nil (frame k m bytes))) (ap (λ o. o >>= λ s'. some s') h)

sent :
    (k : Codec) (s : RpcServer) (id : ℕ) (response : List ℕ) (conn : ℕ) (bytes : List ℕ)
    → s.basic_conn ≡ some conn
    → bytes ≡ frame k (reply_meta id response) response
    → (on_callback_done k s id response).effects ≡ s.effects ++ (sends conn bytes ∷ [])
unfolding on_callback_done
sent k s id response conn bytes connected e =
    ap (λ x. (send_reply s x (frame k (reply_meta id response) response)).effects) connected
    ∙ ap (λ xs. s.effects ++ (sends conn xs ∷ [])) (sym e)

-- A client, whose ids so far are no larger than its index, which does not wrap, calls a method of
-- a service, with a response object and perhaps a callback. The server has registered the service
-- with the method, no later method of the service has its name, and the server has a connection.
-- If the frames of the request and of the answer have data and fit an `int`, each with the size of
-- its data, then each reaching an otherwise empty buffer makes a run of `onMessage` that ends and
-- empties the buffer: the server calls the service with the method and the data of the request and
-- sends the answer to its last connection; the response object parses the data of the answer, the
-- callback runs, and the outstanding calls are those from before.
pub round_trip :
    (k : Codec) (c : RpcChannel) (s : RpcServer) (name method_name bytes response : List ℕ) (r : ℕ)
    (callback : Option ℕ) (service method conn : ℕ) (before after : List (List ℕ × ℕ))
    (b₁ b₂ : Buffer)
    → Calls.IsValid c
    → c.index + 1 < 2 ^ 64
    → NotNamed method_name after
    → s.basic_conn ≡ some conn
    → IsFrame k (request_meta (next_index c) name method_name bytes) bytes
    → IsFrame k (reply_meta (next_index c) response) response
    → IsValid b₁
    → content b₁ ≡ frame k (request_meta (next_index c) name method_name bytes) bytes
    → IsValid b₂
    → content b₂ ≡ frame k (reply_meta (next_index c) response) response
    → (s' : RpcServer) × (b₁' : Buffer) × (c' : RpcChannel) × (b₂' : Buffer) × (server_on_message k
          (suc (length (content b₁)))
          (register_service s service name (before ++ ((method_name, method) ∷ after)))
          b₁
        ≡ finished s' b₁')
      × (content b₁' ≡ [])
      × (s'.effects ≡ s.effects ++ (calls service (some method) (next_index c) bytes ∷ []))
      × ((on_callback_done k s' (next_index c) response).effects
          ≡ s'.effects ++ (sends conn (content b₂) ∷ []))
      × (channel_on_message k
            (suc (length (content b₂)))
            (call_method k c name method_name bytes (record { response = some r; done = callback }))
            b₂
          ≡ finished c' b₂')
      × (content b₂' ≡ [])
      × (c'.effects
          ≡ (c.effects ++ sends_to c.conn (content b₁)) ++ (parses r response ∷ runs_done callback))
      × ((id : ℕ) → c'.out id ≡ c.out id)
unfolding server_on_message channel_on_message on_callback_done register_service
round_trip k c s name method_name bytes response r callback service method conn before after b₁ b₂ v
      small last connected f₁ f₂ v₁ e₁ v₂ e₂ =
    let request : Meta = request_meta (next_index c) name method_name bytes in
    let reply : Meta = reply_meta (next_index c) response in
    let (b₁', ran₁, empty₁) =
      on_message_one k handle_request _ _ b₁ request bytes v₁ f₁ e₁
        (handle-register_service s service before after method request bytes last) in
    let (c', handled, effects, out, _, _) =
      Calls.reply-call_method k c name method_name bytes response r callback reply v small refl in
    let (b₂', ran₂, empty₂) =
      on_message_one k handle_reply _ c' b₂ reply response v₂ f₂ e₂ handled in
    (
      _,
      b₁',
      c',
      b₂',
      ran₁,
      empty₁,
      refl,
      sent k _ (next_index c) response conn (content b₂) connected e₂,
      ran₂,
      empty₂,
      effects
          ∙ ap (λ xs. (c.effects ++ sends_to c.conn xs) ++ (parses r response ∷ runs_done callback))
              (sym e₁),
      out,
    )
