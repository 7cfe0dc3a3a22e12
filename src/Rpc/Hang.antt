-- ===== src/Rpc/Hang.antt =====
-- Two kinds of frames that the loops of `onMessage` do not get past.
use toy_basket.Prelude.{
  ℕ, zero, suc, ◌+◌, ◌-◌, ◌<◌, ◌^◌, ◌%◌, ◌≡◌, refl, ap, ◌∙◌, List, [], ◌++◌, Option, none, some,
  length, length-append, drop, le→leb, le→ltb, size_through_int, add_size, arith,
}
use toy_basket.Buffer.{Buffer, be_bytes, readable_bytes, retrieve}
use toy_basket.Buffer.Region.{IsValid, content, readable-content}
use toy_basket.Buffer.Codec.{length-be_bytes}
use toy_basket.Buffer.Retrieve.{retrieve_zero}
use toy_basket.Rpc.{
  Meta, Codec, IsMeta, frame, finished, out_of_fuel, scan_meta, at_frame, frame_length, make_string,
  on_message, retrieve_then,
}
use toy_basket.Rpc.Frames.{small_int, scan_header, scan_no_meta}
use toy_basket.Rpc.Stream.{run_found, run_waits}
use toy_basket.Rpc.Channel.{RpcChannel, handle_reply, channel_on_message, settle}

frame_length_zero : (len : ℕ) → 4 + len < 2 ^ 31 → frame_length len (2 ^ 32 - (4 + len)) ≡ 0
frame_length_zero len small =
    ap (λ n. size_through_int (add_size (add_size 4 n) (size_through_int (2 ^ 32 - (4 + len)))))
      (small_int len (omega arith))
    ∙ ap (λ n. size_through_int (add_size (add_size 4 len) n)) negative
    ∙ ap size_through_int wrapped
  where
    negative : size_through_int (2 ^ 32 - (4 + len)) ≡ 2 ^ 64 - (4 + len)
    negative = rw (le→ltb ((2 ^ 32 - (4 + len)) % 2 ^ 32) (2 ^ 31) (omega arith)) (omega arith)

    wrapped : add_size (add_size 4 len) (2 ^ 64 - (4 + len)) ≡ 0
    wrapped = omega arith

scan_zero :
    (k : Codec) (b : Buffer) (m : Meta) (n : ℕ)
    → frame_length n m.data_size ≡ 0
    → scan_meta b n m
      ≡ at_frame m (make_string (drop (4 + n) (content b)) (size_through_int m.data_size)) 0
scan_zero k b m n e = rw e (rw (le→leb 0 (readable_bytes b) (omega arith)) refl)

-- An answer with an unknown id, whose metadata is followed by some byte and claims 2^32 - (4 + n)
-- bytes of data, for the n bytes of the metadata, keeps `onMessage` of the channel in its loop: no
-- number of rounds is enough.
pub on_message_hangs :
    (k : Codec) (c : RpcChannel) (b : Buffer) (m : Meta) (rest : List ℕ)
    → IsValid b
    → IsMeta m
    → 4 + length (k.serialize m) < 2 ^ 31
    → m.data_size ≡ 2 ^ 32 - (4 + length (k.serialize m))
    → content b ≡ be_bytes 4 (length (k.serialize m)) ++ (k.serialize m ++ rest)
    → 0 < length rest
    → c.out m.id ≡ none
    → (fuel : ℕ) → channel_on_message k fuel c b ≡ out_of_fuel
unfolding channel_on_message handle_reply on_message
on_message_hangs k c b m rest v meta small size there more unknown zero = refl
on_message_hangs k c b m rest v meta small size there more unknown (suc fuel) =
    let n : ℕ = length (k.serialize m) in
    let data_there : Option (List ℕ) =
      make_string (drop (4 + n) (content b)) (size_through_int m.data_size) in
    run_found k handle_reply fuel c b m data_there 0 (
      scan_header k b m rest v meta (omega arith) there more
      ∙ scan_zero k b m n (ap (frame_length n) size ∙ frame_length_zero n small))
    ∙ ap
        (λ o.
          retrieve_then (settle c m.id data_there o) (retrieve b 0)
            (on_message k handle_reply fuel))
        unknown
    ∙ ap (λ o. retrieve_then (some c) o (on_message k handle_reply fuel))
        (retrieve_zero b v (
          omega (
            arith,
            readable-content v,
            ap length there,
            length-be_bytes 4 n,
            length-append (be_bytes 4 n) (k.serialize m ++ rest),
          )))
    ∙ on_message_hangs k c b m rest v meta small size there more unknown fuel

-- A whole frame without data, with no byte behind it, is left in the buffer, whatever is done with
-- frames: the strict comparison with the length of the metadata waits for one more byte.
pub empty_data_waits {ℓ} :
    {S : Type ℓ} (k : Codec) (handle : S → Meta → Option (List ℕ) → Option S) (fuel : ℕ) (s : S)
    (b : Buffer) (m : Meta)
    → IsValid b
    → length (k.serialize m) < 2 ^ 31
    → content b ≡ frame k m []
    → on_message k handle (suc fuel) s b ≡ finished s b
unfolding frame
empty_data_waits k handle fuel s b m v small there = run_waits k handle fuel s b (
    scan_no_meta k b (length (k.serialize m)) (k.serialize m ++ []) v there small (
      omega (
        arith,
        readable-content v,
        ap length there,
        length-append (be_bytes 4 (length (k.serialize m))) (k.serialize m ++ []),
        length-append (k.serialize m) [],
        length-be_bytes 4 (length (k.serialize m)),
      )))
