-- ===== src/Rpc/Names.antt =====
-- The services of `RpcServer`, which a request finds by their names and the names of their methods.
use toy_basket.Prelude.{
  same_text, assign, assign_same, assign_other, ℕ, suc, ◌+◌, length, ◌≡◌, refl, ap, ◌∙◌, List, [],
  ◌∷◌, ◌++◌, false, Option, none, some,
}
use toy_basket.Buffer.{Buffer, retrieve}
use toy_basket.Buffer.Region.{IsValid, content}
use toy_basket.Rpc.{Meta, Codec, frame, throws, on_message, retrieve_then}
use toy_basket.Rpc.Frames.{IsFrame, scan_whole}
use toy_basket.Rpc.Server.{
  RpcServer, ServiceInfo, describe, register_service, handle_request, proc_rpc_data, call_service,
  calls, new_server, server_on_message,
}
use toy_basket.Rpc.Stream.{run_found}

-- No method of the list has this name.
abbrev pub NotNamed : List ℕ → List (List ℕ × ℕ) → Type 0
NotNamed name [] = Unit
NotNamed name ((other, method) ∷ methods) = (same_text other name ≡ false) × NotNamed name methods

describe_skip :
    (name : List ℕ) (methods : List (List ℕ × ℕ)) (table : List ℕ → Option ℕ)
    → NotNamed name methods
    → describe methods table name ≡ table name
describe_skip name [] table h = refl
describe_skip name ((other, method) ∷ methods) table (differs, h) =
    describe_skip name methods (assign table other (some method)) h
    ∙ assign_other table other (some method) name differs

describe_lem :
    (name : List ℕ) (method : ℕ) (before after : List (List ℕ × ℕ)) (table : List ℕ → Option ℕ)
    → NotNamed name after
    → describe (before ++ ((name, method) ∷ after)) table name ≡ some method
describe_lem name method [] after table h =
    describe_skip name after (assign table name (some method)) h
    ∙ assign_same table name (some method)
describe_lem name method ((other, m) ∷ before) after table h =
    describe_lem name method before after (assign table other (some m)) h

-- On a server, a request for a method of the service that was registered last under its name calls
-- this service with the last method of this name, the id and the data.
pub handle-register_service :
    (s : RpcServer) (service : ℕ) (before after : List (List ℕ × ℕ)) (method : ℕ) (m : Meta)
    (bytes : List ℕ)
    → NotNamed m.method after
    → handle_request
        (register_service s service m.server (before ++ ((m.method, method) ∷ after)))
        m
        (some bytes)
      ≡ some
          (record (register_service s service m.server (before ++ ((m.method, method) ∷ after))) {
            effects = s.effects ++ (calls service (some method) m.id bytes ∷ []);
          })
unfolding handle_request proc_rpc_data register_service
handle-register_service s service before after method m bytes h =
    let s₁ : RpcServer =
      register_service s service m.server (before ++ ((m.method, method) ∷ after)) in
    let info : ServiceInfo = record {
      service = some service;
      mdescriptor = describe (before ++ ((m.method, method) ∷ after)) (λ name. none);
    } in
    ap (λ i. call_service s₁ i.service (i.mdescriptor m.method) m.id bytes)
      (assign_same s.services m.server info)
    ∙ ap (λ d. call_service s₁ (some service) d m.id bytes)
        (describe_lem m.method method before after (λ name. none) h)

-- What a sequence of registrations leaves under a name that none of them has.
abbrev pub register_all : RpcServer → List (ℕ × List ℕ × List (List ℕ × ℕ)) → RpcServer
register_all s [] = s
register_all s ((service, name, methods) ∷ rest) =
    register_all (register_service s service name methods) rest

abbrev pub NotRegistered : List ℕ → List (ℕ × List ℕ × List (List ℕ × ℕ)) → Type 0
NotRegistered name [] = Unit
NotRegistered name ((service, other, methods) ∷ rest) =
    (same_text other name ≡ false) × NotRegistered name rest

register_all_skip :
    (name : List ℕ) (s : RpcServer) (services : List (ℕ × List ℕ × List (List ℕ × ℕ)))
    → NotRegistered name services
    → (register_all s services).services name ≡ s.services name
unfolding register_service
register_all_skip name s [] h = refl
register_all_skip name s ((service, other, methods) ∷ rest) (differs, h) =
    register_all_skip name (register_service s service other methods) rest h
    ∙ assign_other s.services other _ name differs

-- A new server on which any services have been registered does not survive a whole frame, with
-- data and within the range of `int`, at the front of its input buffer, that names another
-- service: it calls through a null pointer.
pub unknown_service_throws :
    (k : Codec) (services : List (ℕ × List ℕ × List (List ℕ × ℕ))) (fuel : ℕ) (b : Buffer)
    (m : Meta) (bytes rest : List ℕ)
    → NotRegistered m.server services
    → IsFrame k m bytes
    → IsValid b
    → content b ≡ frame k m bytes ++ rest
    → server_on_message k (suc fuel) (register_all new_server services) b ≡ throws
unfolding server_on_message handle_request proc_rpc_data new_server
unknown_service_throws k services fuel b m bytes rest h f v whole =
    let s : RpcServer = register_all new_server services in
    run_found k handle_request fuel s b m (some bytes) _ (scan_whole k m bytes f b rest v whole)
    ∙ ap
        (λ i.
          retrieve_then (call_service s i.service (i.mdescriptor m.method) m.id bytes)
            (retrieve b (4 + length (k.serialize m) + length bytes))
            (on_message k handle_request fuel))
        (register_all_skip m.server new_server services h)
