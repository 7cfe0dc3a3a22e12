-- ===== src/Rpc.antt =====
-- communication/net/protorpc: the frames of rpc_channel.cc and rpc_server.cc, and the loop of both
-- `onMessage` methods, which is the same text but for what it does with a frame. The serialisation
-- of protocol buffers is a parameter.
pub mod Frames
pub mod Stream
pub mod Parts
pub mod Channel
pub mod Server
pub mod Calls
pub mod Names
pub mod RoundTrip
pub mod Hang
mod Tests
use toy_basket.Prelude.{
  ℕ, zero, suc, ◌+◌, ◌^◌, ◌<◌, ◌≡◌, List, ◌++◌, Option, none, some, ltb, leb, if◌then◌else◌, length,
  take, get_elem?, drop, add_size, size_through_int, max_size,
}
use toy_basket.Buffer.{Buffer, int32, be_bytes, readable_bytes, peek_int, retrieve}
use toy_basket.Buffer.Region.{content}

-- `RpcMeta`; the integers are bit patterns, of 64 and of 32 bits.
pub record Meta : Type 0 where
  pub id : ℕ
  pub server : List ℕ
  pub method : List ℕ
  pub data_size : ℕ

-- A message that protocol buffers can carry: its integers have their widths, and its texts are
-- ASCII.
abbrev IsAscii : List ℕ → Type 0
IsAscii text = (i : ℕ) (c : ℕ) → get_elem? text i ≡ some c → c < 128

pub record IsMeta (m : Meta) : Type 0 where
  pub id_fits : m.id < 2 ^ 64
  pub size_fits : m.data_size < 2 ^ 32
  pub server_text : IsAscii m.server
  pub method_text : IsAscii m.method

-- `SerializeToString` and `ParseFromString` of `RpcMeta`. The code does not look at the answer of
-- the parser, so a failed parse is the message that it leaves.
pub record Codec : Type 0 where
  pub serialize : Meta → List ℕ
  pub parse : List ℕ → Meta
  pub parse-serialize : (m : Meta) → IsMeta m → parse (serialize m) ≡ m

-- What both sides send: the size of the metadata in network order, the metadata, and the data.
pub frame : Codec → Meta → List ℕ → List ℕ
frame k m bytes = be_bytes 4 (length (k.serialize m)) ++ (k.serialize m ++ bytes)

-- `std::string(p, n)` over readable bytes; `none` is an exception or a read outside of them.
abbrev pub make_string : List ℕ → ℕ → Option (List ℕ)
make_string bytes n = if leb n (length bytes) then some (take n bytes) else none

-- What `onMessage` finds at the front of the buffer: not yet a frame, an exception, or metadata
-- with the data behind it and the length of the frame.
pub data Scan : Type 0 where
  waits fails : Scan
  at_frame : Meta → Option (List ℕ) → ℕ → Scan

-- `int length = sizeof(int32_t) + len + meta_proto.data_size()`, used as a `size_t`.
abbrev pub frame_length : ℕ → ℕ → ℕ
frame_length len data_size =
    size_through_int (add_size (add_size 4 (size_through_int len)) (size_through_int data_size))

abbrev pub scan_meta : Buffer → ℕ → Meta → Scan
scan_meta b len m =
    if leb (frame_length len m.data_size) (readable_bytes b)
    then at_frame m (make_string (drop (4 + len) (content b)) (size_through_int m.data_size))
        (frame_length len m.data_size)
    else waits

abbrev pub scan_length : Codec → Buffer → Option ℕ → Scan
scan_length k b none = fails
scan_length k b (some len) =
    if ltb (add_size (size_through_int len) 4) (readable_bytes b)
    then (if leb (size_through_int len) max_size
        then scan_meta b len (k.parse (take len (drop 4 (content b))))
        else fails)
    else waits

pub scan : Codec → Buffer → Scan
scan k b = if ltb 4 (readable_bytes b) then scan_length k b (peek_int int32 b) else waits

-- How a run of `onMessage` ends.
pub data Run {ℓ} (S : Type ℓ) : Type ℓ where
  finished : S → Buffer → Run S
  throws out_of_fuel : Run S

module _ {ℓ} {S : Type ℓ} where
  abbrev pub retrieve_then : Option S → Option Buffer → (S → Buffer → Run S) → Run S
  retrieve_then none b next = throws
  retrieve_then (some s) none next = throws
  retrieve_then (some s) (some b) next = next s b

  abbrev pub on_scan :
      (S → Meta → Option (List ℕ) → Option S) → S → Buffer → (S → Buffer → Run S) → Scan → Run S
  on_scan handle s b next waits = finished s b
  on_scan handle s b next fails = throws
  on_scan handle s b next (at_frame m bytes n) =
      retrieve_then (handle s m bytes) (retrieve b n) next

  -- `onMessage`: `handle` is what it does with a frame, in the state of the channel or the server;
  -- it gets the data, or `none` if it cannot be made into a string. The fuel bounds the frames.
  pub on_message : Codec → (S → Meta → Option (List ℕ) → Option S) → ℕ → S → Buffer → Run S
  on_message k handle zero s b = out_of_fuel
  on_message k handle (suc fuel) s b = on_scan handle s b (on_message k handle fuel) (scan k b)
