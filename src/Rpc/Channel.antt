-- ===== src/Rpc/Channel.antt =====
-- communication/net/protorpc/rpc_channel.cc: the calls that a client has made and the answers to
-- them. A response object, a closure and a connection are numbers, their addresses, and a null
-- pointer is `none`.
use toy_basket.Prelude.{
  ℕ, ◌+◌, ◌^◌, ◌%◌, List, [], ◌∷◌, ◌++◌, Bool, Option, none, some, store, if◌then◌else◌, length,
}
use toy_basket.Buffer.{Buffer}
use toy_basket.Rpc.{Meta, Codec, Run, frame, on_message}

pub record OutstandingCall : Type 0 where
  pub response : Option ℕ
  pub done : Option ℕ

-- What the channel does to the objects of others, in order.
pub data Effect : Type 0 where
  parses : ℕ → List ℕ → Effect
  runs : ℕ → Effect
  sends : ℕ → List ℕ → Effect

-- `conn` is what `conn_.lock()` gives; `index` is the bit pattern of an `int64_t`.
pub record RpcChannel : Type 0 where
  pub conn : Option ℕ
  pub index : ℕ
  pub out : ℕ → Option OutstandingCall
  pub effects : List Effect

pub new_rpc_channel : RpcChannel
new_rpc_channel = record { conn = none; index = 0; out = λ id. none; effects = [] }

abbrev pub emit : List Effect → RpcChannel → RpcChannel
emit es c = record c { effects = c.effects ++ es }

abbrev pub sends_to : Option ℕ → List ℕ → List Effect
sends_to none bytes = []
sends_to (some conn) bytes = sends conn bytes ∷ []

abbrev pub request_meta : ℕ → List ℕ → List ℕ → List ℕ → Meta
request_meta id server method bytes = record {
  id = id;
  server = server;
  method = method;
  data_size = length bytes % 2 ^ 32;
}

abbrev pub next_index : RpcChannel → ℕ
next_index c = (c.index + 1) % 2 ^ 64

-- `CallMethod`; `bytes` is the serialised request.
unfoldable pub call_method :
    Codec → RpcChannel → List ℕ → List ℕ → List ℕ → OutstandingCall → RpcChannel
call_method k c server method bytes call =
    emit (sends_to c.conn (frame k (request_meta (next_index c) server method bytes) bytes))
      (record c { index = next_index c; out = store c.out (next_index c) (some call) })

-- `onConnection`, with the connection and its `connected()`.
pub on_connection : RpcChannel → ℕ → Bool → RpcChannel
on_connection c conn connected = if connected then record c { conn = some conn } else c

abbrev pub runs_done : Option ℕ → List Effect
runs_done none = []
runs_done (some done) = runs done ∷ []

-- The answer of a call: the string is made of the data only if there is a response object.
abbrev pub answer : Option ℕ → Option ℕ → Option (List ℕ) → Option (List Effect)
answer none callback bytes = some []
answer (some response) callback none = none
answer (some response) callback (some bytes) = some (parses response bytes ∷ runs_done callback)

abbrev pub answered : RpcChannel → Option (List Effect) → Option RpcChannel
answered c none = none
answered c (some es) = some (emit es c)

-- `it = out_.find(id)`, and what follows.
abbrev pub settle : RpcChannel → ℕ → Option (List ℕ) → Option OutstandingCall → Option RpcChannel
settle c id bytes none = some c
settle c id bytes (some call) =
    answered (record c { out = store c.out id none }) (answer call.response call.done bytes)

unfoldable pub handle_reply : RpcChannel → Meta → Option (List ℕ) → Option RpcChannel
handle_reply c m bytes = settle c m.id bytes (c.out m.id)

-- `RpcChannel::onMessage`.
unfoldable pub channel_on_message : Codec → ℕ → RpcChannel → Buffer → Run RpcChannel
channel_on_message k = on_message k handle_reply
