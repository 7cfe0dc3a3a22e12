-- ===== src/Rpc/Calls.antt =====
-- The outstanding calls of `RpcChannel`: an answer finds its call by the id, once.
use toy_basket.Prelude.{
  some_injective, ℕ, suc, ◌+◌, ◌<◌, ◌^◌, ◌≡◌, refl, sym, ap, subst, ◌∙◌, List, ◌∷◌, ◌++◌, Option,
  none, some, store, store_same, store_other, ◌==◌, ==_iff, Bool-cases, inl, inr, arith,
}
use toy_basket.Rpc.{Meta, Codec, frame}
use toy_basket.Rpc.Channel.{
  RpcChannel, OutstandingCall, Effect, parses, call_method, handle_reply, next_index, sends_to,
  request_meta, runs_done, emit, settle, answer, answered,
}

-- Ids that have not been given are not outstanding.
abbrev pub IsValid : RpcChannel → Type 0
IsValid c = (id : ℕ) → c.index < id → c.out id ≡ none

next_index_lem : (c : RpcChannel) → c.index + 1 < 2 ^ 64 → next_index c ≡ suc c.index
next_index_lem c h = omega arith

-- `CallMethod` and `onMessage` keep it, until the index wraps.
pub call_method-IsValid :
    (k : Codec) (c : RpcChannel) (server method bytes : List ℕ) (call : OutstandingCall)
    → IsValid c
    → c.index + 1 < 2 ^ 64
    → IsValid (call_method k c server method bytes call)
unfolding call_method
call_method-IsValid k c server method bytes call v small id h =
    store_other c.out (next_index c) (some call) id (ground arith) ∙ v id (omega arith)

emitted :
    (c c' : RpcChannel) (o : Option (List Effect))
    → answered c o ≡ some c'
    → (es : List Effect) × (emit es c ≡ c')
emitted c c' none e = cc
emitted c c' (some es) e = (es, cc)

erase_none {ℓ} : {A : Type ℓ} (f : ℕ → Option A) (i j : ℕ) → f j ≡ none → store f i none j ≡ none
erase_none f i j e = elim (Bool-cases (i == j)) [
  | inl same ↦ rw same refl
  | inr other ↦ store_other f i none j other ∙ e
]

settle-IsValid :
    (c c' : RpcChannel) (id : ℕ) (bytes : Option (List ℕ)) (o : Option OutstandingCall)
    → IsValid c
    → settle c id bytes o ≡ some c'
    → IsValid c'
settle-IsValid c c' id bytes none v e = subst IsValid (some_injective e) v
settle-IsValid c c' id bytes (some call) v e =
    let (es, same) = emitted _ c' (answer call.response call.done bytes) e in
    subst IsValid same (λ j more. erase_none c.out id j (v j more))

pub handle_reply-IsValid :
    (c c' : RpcChannel) (m : Meta) (bytes : Option (List ℕ))
    → IsValid c
    → handle_reply c m bytes ≡ some c'
    → IsValid c'
unfolding handle_reply
handle_reply-IsValid c c' m bytes v e = settle-IsValid c c' m.id bytes (c.out m.id) v e

settled :
    (c c' : RpcChannel) (id : ℕ) (bytes : Option (List ℕ)) (o : Option OutstandingCall)
    → c.out id ≡ o
    → settle c id bytes o ≡ some c'
    → c'.out id ≡ none
settled c c' id bytes none there e = subst (λ x. x.out id ≡ none) (some_injective e) there
settled c c' id bytes (some call) there e =
    let (es, same) = emitted _ c' (answer call.response call.done bytes) e in
    subst (λ x. x.out id ≡ none) same (store_same c.out id none)

-- A second answer with the same id changes nothing.
pub handle_reply_twice :
    (c c' : RpcChannel) (m : Meta) (bytes bytes' : Option (List ℕ))
    → handle_reply c m bytes ≡ some c'
    → handle_reply c' m bytes' ≡ some c'
unfolding handle_reply
handle_reply_twice c c' m bytes bytes' e =
    ap (settle c' m.id bytes') (settled c c' m.id bytes (c.out m.id) refl e)

-- Storing a new entry and erasing it again.
store-erase {ℓ} :
    {A : Type ℓ} (f : ℕ → Option A) (i : ℕ) (o : Option A)
    → f i ≡ none
    → (j : ℕ) → store (store f i o) i none j ≡ f j
store-erase f i o e j = elim (Bool-cases (i == j)) [
  | inl same ↦ (rw same refl) ∙ sym e ∙ ap f ((==_iff i j).0 same)
  | inr other ↦ store_other (store f i o) i none j other ∙ store_other f i o j other
]

-- The answer with the id of a call whose response object is not null: the object parses its data,
-- the callback runs if there is one, and the outstanding calls are those from before the call.
pub reply-call_method :
    (k : Codec) (c : RpcChannel) (server method bytes data_bytes : List ℕ) (r : ℕ)
    (callback : Option ℕ) (m : Meta)
    → IsValid c
    → c.index + 1 < 2 ^ 64
    → m.id ≡ next_index c
    → (c' : RpcChannel) × (handle_reply
          (call_method k c server method bytes (record { response = some r; done = callback }))
          m
          (some data_bytes)
        ≡ some c')
      × (c'.effects
          ≡ (c.effects
              ++ sends_to c.conn (frame k (request_meta (next_index c) server method bytes) bytes))
            ++ (parses r data_bytes ∷ runs_done callback))
      × ((id : ℕ) → c'.out id ≡ c.out id)
      × (c'.index ≡ suc c.index)
      × (c'.conn ≡ c.conn)
unfolding handle_reply call_method
reply-call_method k c server method bytes data_bytes r callback m v small same =
    let call : OutstandingCall = record { response = some r; done = callback } in
    let there : store c.out (next_index c) (some call) m.id ≡ some call =
      ap (store c.out (next_index c) (some call)) same
      ∙ store_same c.out (next_index c) (some call) in
    let c₁ : RpcChannel = call_method k c server method bytes call in
    (
      record c₁ {
        out = store c₁.out m.id none;
        effects = c₁.effects ++ (parses r data_bytes ∷ runs_done callback);
      },
      ap (settle c₁ m.id (some data_bytes)) there,
      refl,
      λ id.
          ap (λ i. store (store c.out (next_index c) (some call)) i none id) same
          ∙ store-erase c.out (next_index c) (some call) (v (next_index c) (omega arith)) id,
      omega arith,
      refl,
    )
