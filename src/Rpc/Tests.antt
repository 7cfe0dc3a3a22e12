-- ===== src/Rpc/Tests.antt =====
-- Runs of the frames on small messages, and the theorems at concrete inputs.
use toy_basket.Prelude.{
  ℕ, suc, ◌+◌, ◌<◌, ◌≡◌, refl, ap₂, List, [], ◌∷◌, ◌++◌, Option, none, some, length, take, drop,
  take-append_length, drop-append_length, zero, arith,
}
use toy_basket.Buffer.{Buffer, be_bytes, new, initial_size}
use toy_basket.Buffer.Region.{content}
use toy_basket.Rpc.{Meta, IsAscii, Codec, frame, finished, out_of_fuel}
use toy_basket.Rpc.Frames.{IsFrame}
use toy_basket.Rpc.Stream.{bytes_of}
use toy_basket.Rpc.Parts.{concat, receive_all, receive_all_lem}
use toy_basket.Rpc.Channel.{
  RpcChannel, channel_on_message, call_method, parses, runs_done, sends_to,
}
use toy_basket.Rpc.Server.{
  RpcServer, register_service, server_on_message, on_callback_done, calls, sends,
}
use toy_basket.Rpc.RoundTrip.{round_trip}
use toy_basket.Rpc.Hang.{on_message_hangs}

-- A serialisation in place of the one of protocol buffers.
plain_serialize : Meta → List ℕ
plain_serialize m = m.id ∷ m.data_size ∷ length m.server ∷ (m.server ++ m.method)

plain_parse : List ℕ → Meta
plain_parse (id ∷ data_size ∷ n ∷ texts) = record {
  id = id;
  server = take n texts;
  method = drop n texts;
  data_size = data_size;
}
plain_parse other = record { id = 0; server = []; method = []; data_size = 0 }

plain_lem : (m : Meta) → plain_parse (plain_serialize m) ≡ m
unfolding plain_parse plain_serialize
plain_lem m =
    ap₂ (λ s t. record { id = m.id; server = s; method = t; data_size = m.data_size })
      (take-append_length m.server m.method) (drop-append_length m.server m.method)

plain : Codec
plain = record {
  serialize = plain_serialize;
  parse = plain_parse;
  parse-serialize = λ m h. plain_lem m;
}

IsAscii-cons : (c : ℕ) (text : List ℕ) → c < 128 → IsAscii text → IsAscii (c ∷ text)
IsAscii-cons c text h t zero d e = let same : c ≡ d = cc in omega (arith, h, same)
IsAscii-cons c text h t (suc i) d e = t i d e

IsAscii-nil : IsAscii []
IsAscii-nil i c e = cc

-- A request with the id 1 for the method "m" of the service "s", with two bytes of data.
abbrev request : Meta
request = record { id = 1; server = 115 ∷ []; method = 109 ∷ []; data_size = 2 }

abbrev reply : Meta
reply = record { id = 1; server = []; method = []; data_size = 1 }

letter : (c : ℕ) → c < 128 → IsAscii (c ∷ [])
letter c h = IsAscii-cons c [] h IsAscii-nil

request-IsFrame : IsFrame plain request (7 ∷ 8 ∷ [])
unfolding plain plain_serialize
request-IsFrame = record {
  meta = record {
    id_fits = omega arith;
    size_fits = omega arith;
    server_text = letter 115 (omega arith);
    method_text = letter 109 (omega arith);
  };
  sized = refl;
  some_data = omega arith;
  in_range = omega arith;
}

reply-IsFrame : IsFrame plain reply (9 ∷ [])
unfolding plain plain_serialize
reply-IsFrame = record {
  meta = record {
    id_fits = omega arith;
    size_fits = omega arith;
    server_text = IsAscii-nil;
    method_text = IsAscii-nil;
  };
  sized = refl;
  some_data = omega arith;
  in_range = omega arith;
}

-- Counts the frames.
abbrev count_frames : ℕ → Meta → Option (List ℕ) → Option ℕ
count_frames n m bytes = some (suc n)

-- Two frames in three parts.
abbrev frames : List (Meta × List ℕ)
frames = (request, 7 ∷ 8 ∷ []) ∷ (reply, 9 ∷ []) ∷ []

abbrev parts : List (List ℕ)
parts =
    (0 ∷ 0 ∷ 0 ∷ [])
    ∷ (5 ∷ 1 ∷ 2 ∷ 1 ∷ 115 ∷ 109 ∷ 7 ∷ 8 ∷ 0 ∷ [])
    ∷ (0 ∷ 0 ∷ 3 ∷ 1 ∷ 1 ∷ 0 ∷ 9 ∷ [])
    ∷ []

parts_lem : concat parts ≡ bytes_of plain frames
unfolding plain plain_serialize frame be_bytes
parts_lem = refl

receive_all_lem_example :
    (b₀ : Buffer) × (b : Buffer) × (new initial_size ≡ some b₀)
    × (receive_all plain count_frames (suc (length (concat parts))) 0 b₀ parts ≡ finished 2 b)
    × (content b ≡ [])
receive_all_lem_example =
    receive_all_lem plain count_frames parts 0 2 frames (request-IsFrame, (reply-IsFrame, tt))
      (omega arith, (omega arith, (omega arith, tt))) parts_lem refl (omega arith)

-- A buffer with the bytes of one frame behind the reserved ones.
abbrev holding : List ℕ → Buffer
holding bytes = record {
  buffer = 0 ∷ 0 ∷ 0 ∷ 0 ∷ 0 ∷ 0 ∷ 0 ∷ 0 ∷ bytes;
  reader_index = 8;
  writer_index = 8 + length bytes;
}

request_bytes :
    content (holding (0 ∷ 0 ∷ 0 ∷ 5 ∷ 1 ∷ 2 ∷ 1 ∷ 115 ∷ 109 ∷ 7 ∷ 8 ∷ []))
    ≡ frame plain request (7 ∷ 8 ∷ [])
unfolding plain plain_serialize frame be_bytes content
request_bytes = refl

reply_bytes : content (holding (0 ∷ 0 ∷ 0 ∷ 3 ∷ 1 ∷ 1 ∷ 0 ∷ 9 ∷ [])) ≡ frame plain reply (9 ∷ [])
unfolding plain plain_serialize frame be_bytes content
reply_bytes = refl

abbrev request_buffer : Buffer
request_buffer = holding (0 ∷ 0 ∷ 0 ∷ 5 ∷ 1 ∷ 2 ∷ 1 ∷ 115 ∷ 109 ∷ 7 ∷ 8 ∷ [])

abbrev reply_buffer : Buffer
reply_buffer = holding (0 ∷ 0 ∷ 0 ∷ 3 ∷ 1 ∷ 1 ∷ 0 ∷ 9 ∷ [])

abbrev channel : RpcChannel
channel = record { conn = some 4; index = 0; out = λ id. none; effects = [] }

abbrev server : RpcServer
server = record {
  services = λ name. record { service = none; mdescriptor = λ method. none };
  basic_conn = some 6;
  effects = [];
}

round_trip_example :
    (s' : RpcServer) × (b₁' : Buffer) × (c' : RpcChannel) × (b₂' : Buffer) × (server_on_message
        plain
        (suc (length (content request_buffer)))
        (register_service server 20 (115 ∷ []) ((109 ∷ [], 30) ∷ []))
        request_buffer
      ≡ finished s' b₁')
    × (content b₁' ≡ [])
    × (s'.effects ≡ calls 20 (some 30) 1 (7 ∷ 8 ∷ []) ∷ [])
    × ((on_callback_done plain s' 1 (9 ∷ [])).effects
        ≡ s'.effects ++ (sends 6 (content reply_buffer) ∷ []))
    × (channel_on_message plain
          (suc (length (content reply_buffer)))
          (call_method plain channel
            (115 ∷ [])
            (109 ∷ [])
            (7 ∷ 8 ∷ [])
            (record { response = some 40; done = some 50 }))
          reply_buffer
        ≡ finished c' b₂')
    × (content b₂' ≡ [])
    × (c'.effects
        ≡ sends_to (some 4) (content request_buffer) ++ (parses 40 (9 ∷ []) ∷ runs_done (some 50)))
    × ((id : ℕ) → c'.out id ≡ channel.out id)
round_trip_example =
    round_trip plain channel server (115 ∷ []) (109 ∷ []) (7 ∷ 8 ∷ []) (9 ∷ []) 40 (some 50) 20 30 6
      [] [] request_buffer reply_buffer (λ id h. refl) (omega arith) tt refl request-IsFrame
      reply-IsFrame (omega arith) request_bytes (omega arith) reply_bytes

-- Four bytes of size, three of metadata, and one more; the claimed size is 2^32 - 7.
abbrev endless : Meta
endless = record { id = 5; server = []; method = []; data_size = 4294967289 }

abbrev endless_buffer : Buffer
endless_buffer = holding (0 ∷ 0 ∷ 0 ∷ 3 ∷ 5 ∷ 4294967289 ∷ 0 ∷ 1 ∷ [])

on_message_hangs_example : channel_on_message plain 1000 channel endless_buffer ≡ out_of_fuel
unfolding plain plain_serialize be_bytes content
on_message_hangs_example =
    on_message_hangs plain channel endless_buffer endless (1 ∷ []) (omega arith)
      (record {
        id_fits = omega arith;
        size_fits = omega arith;
        server_text = IsAscii-nil;
        method_text = IsAscii-nil;
      })
      (omega arith) refl refl (omega arith) refl 1000

abbrev empty_buffer : Buffer
empty_buffer = holding (0 ∷ 0 ∷ 0 ∷ 3 ∷ 1 ∷ 0 ∷ 0 ∷ [])

abbrev empty_reply : Meta
empty_reply = record { id = 1; server = []; method = []; data_size = 0 }
