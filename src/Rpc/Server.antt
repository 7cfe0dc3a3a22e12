-- ===== src/Rpc/Server.antt =====
-- communication/net/protorpc/rpc_server.cc: the services by name, the calls that they get, and the
-- answers. A service, a method descriptor and a connection are numbers, their addresses.
use toy_basket.Prelude.{
  assign, ℕ, ◌^◌, ◌%◌, List, [], ◌∷◌, ◌++◌, Bool, Option, none, some, ◌>>=◌, if◌then◌else◌, length,
}
use toy_basket.Buffer.{Buffer}
use toy_basket.Rpc.{Meta, Codec, Run, frame, on_message}

pub record ServiceInfo : Type 0 where
  pub service : Option ℕ
  pub mdescriptor : List ℕ → Option ℕ

-- The entry that `operator[]` makes.
abbrev pub no_service : ServiceInfo
no_service = record { service = none; mdescriptor = λ name. none }

pub data Effect : Type 0 where
  calls : ℕ → Option ℕ → ℕ → List ℕ → Effect
  sends : ℕ → List ℕ → Effect

-- `basic_conn` is what `basicConn_.lock()` gives.
pub record RpcServer : Type 0 where
  pub services : List ℕ → ServiceInfo
  pub basic_conn : Option ℕ
  pub effects : List Effect

unfoldable pub new_server : RpcServer
new_server = record { services = λ name. no_service; basic_conn = none; effects = [] }

-- The loop over the methods of a service descriptor.
abbrev pub describe : List (List ℕ × ℕ) → (List ℕ → Option ℕ) → List ℕ → Option ℕ
describe [] table = table
describe ((name, method) ∷ methods) table = describe methods (assign table name (some method))

-- `RegisterService`, with the name and the methods of the descriptor of `service`.
unfoldable pub register_service : RpcServer → ℕ → List ℕ → List (List ℕ × ℕ) → RpcServer
register_service s service name methods = record s {
  services =
      assign s.services name
        (record { service = some service; mdescriptor = describe methods (λ method. none) });
}

-- `onConnection`, with the connection and its `connected()`.
pub on_connection : RpcServer → ℕ → Bool → RpcServer
on_connection s conn connected = if connected then record s { basic_conn = some conn } else s

abbrev pub call_service : RpcServer → Option ℕ → Option ℕ → ℕ → List ℕ → Option RpcServer
call_service s none method id bytes = none
call_service s (some service) method id bytes =
    some (record s { effects = s.effects ++ (calls service method id bytes ∷ []) })

-- `ProcRpcData`: `none` is a call on a null pointer. That `operator[]` stores the empty entries it
-- makes is not seen again.
unfoldable pub proc_rpc_data : RpcServer → ℕ → List ℕ → List ℕ → List ℕ → Option RpcServer
proc_rpc_data s id server method bytes =
    call_service s (s.services server).service ((s.services server).mdescriptor method) id bytes

unfoldable pub handle_request : RpcServer → Meta → Option (List ℕ) → Option RpcServer
handle_request s m bytes = bytes >>= λ xs. proc_rpc_data s m.id m.server m.method xs

-- `RpcServer::onMessage`.
unfoldable pub server_on_message : Codec → ℕ → RpcServer → Buffer → Run RpcServer
server_on_message k = on_message k handle_request

abbrev pub reply_meta : ℕ → List ℕ → Meta
reply_meta id bytes = record {
  id = id;
  server = [];
  method = [];
  data_size = length bytes % 2 ^ 32;
}

abbrev pub send_reply : RpcServer → Option ℕ → List ℕ → RpcServer
send_reply s none bytes = s
send_reply s (some conn) bytes = record s { effects = s.effects ++ (sends conn bytes ∷ []) }

-- `OnCallbackDone`; `bytes` is the serialised response.
unfoldable pub on_callback_done : Codec → RpcServer → ℕ → List ℕ → RpcServer
on_callback_done k s id bytes = send_reply s s.basic_conn (frame k (reply_meta id bytes) bytes)
