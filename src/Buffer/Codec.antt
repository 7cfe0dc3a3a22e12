-- ===== src/Buffer/Codec.antt =====
-- The integer codecs of Buffer.h: `appendIntN`, `prependIntN`, `peekIntN`, `readIntN`.
use toy_basket.Prelude.{
  ℕ, zero, suc, ◌+◌, ◌^◌, ◌≤◌, ◌<◌, ◌≡◌, refl, sym, ap, ◌∙◌, List, [], ◌∷◌, ◌++◌, some, length,
  take, drop, slice, length-append, take-take, take-append_length, append-nil, ◌-◌, ◌/◌, ◌%◌,
  drop-append_length, le→leb, max_size, arith,
}
use toy_basket.Buffer.{
  Buffer, Width, int8, int16, int32, int64, size_of, be_bytes, be_value, append_int, prepend_int,
  peek_int, retrieve_int, read_int, readable_bytes, prependable_bytes,
}
use toy_basket.Buffer.Region.{IsValid, content, readable_lem, readable-content}
use toy_basket.Buffer.Space.{Appended, append_lem, prepend_lem}
use toy_basket.Buffer.Retrieve.{retrieve_lem}

pub length-be_bytes : (n x : ℕ) → length (be_bytes n x) ≡ n
unfolding be_bytes
length-be_bytes zero x = refl
length-be_bytes (suc n) x =
    omega (arith, length-append (be_bytes n (x / 256)) (x % 256 ∷ []), length-be_bytes n (x / 256))

-- The bytes in network order give back the value.
pub be_value-be_bytes :
    (w : Width) (x : ℕ) → x < 256 ^ size_of w → be_value 0 (be_bytes (size_of w) x) ≡ x
unfolding be_value be_bytes
be_value-be_bytes int8 x h = omega arith
be_value-be_bytes int16 x h = omega arith
be_value-be_bytes int32 x h = omega arith
be_value-be_bytes int64 x h = omega arith

-- A value at the front of the content is what `peek` and `read` give.
pub peek_int_lem :
    (w : Width) (b : Buffer) (x : ℕ) (rest : List ℕ)
    → IsValid b
    → x < 256 ^ size_of w
    → content b ≡ be_bytes (size_of w) x ++ rest
    → peek_int w b ≡ some x
unfolding peek_int content
peek_int_lem w b x rest v h e = rw (le→leb _ _ enough, front) (ap some (be_value-be_bytes w x h))
  where
    bytes : List ℕ
    bytes = be_bytes (size_of w) x

    sized : size_of w + length rest ≡ length (content b)
    sized = omega (arith, ap length e, length-append bytes rest, length-be_bytes (size_of w) x)

    enough : size_of w ≤ readable_bytes b
    enough = omega (arith, readable-content v, sized)

    front : slice b.reader_index (size_of w) b.buffer ≡ bytes
    front =
        sym (
          take-take (size_of w) (b.writer_index - b.reader_index) (drop b.reader_index b.buffer)
            (omega (arith, enough, readable_lem v)))
        ∙ ap (take (size_of w)) e
        ∙ ap (λ n. take n (bytes ++ rest)) (sym (length-be_bytes (size_of w) x))
        ∙ take-append_length bytes rest

pub read_int_lem :
    (w : Width) (b : Buffer) (x : ℕ) (rest : List ℕ)
    → IsValid b
    → x < 256 ^ size_of w
    → content b ≡ be_bytes (size_of w) x ++ rest
    → (b' : Buffer) × (read_int w b ≡ some (x, b')) × IsValid b' × (content b' ≡ rest)
unfolding read_int retrieve_int
read_int_lem w b x rest v h e =
    let bytes : List ℕ = be_bytes (size_of w) x in
    let (b', done, v', c, _) =
      retrieve_lem b (size_of w) v
        (omega (arith, ap length e, length-append bytes rest, length-be_bytes (size_of w) x)) in
    (
      b',
      rw (peek_int_lem w b x rest v h e, done),
      v',
      c
          ∙ ap (drop (size_of w)) e
          ∙ ap (λ n. drop n (bytes ++ rest)) (sym (length-be_bytes (size_of w) x))
          ∙ drop-append_length bytes rest,
    )

-- `appendIntN` adds the value in network order behind the content.
pub append_int_lem :
    (w : Width) (b : Buffer) (x : ℕ)
    → IsValid b
    → length b.buffer + size_of w ≤ max_size
    → (b' : Buffer) × (append_int w b x ≡ some b') × Appended b (be_bytes (size_of w) x) b'
unfolding append_int
append_int_lem w b x v fits =
    append_lem b (be_bytes (size_of w) x) v (omega (arith, length-be_bytes (size_of w) x))

-- A value appended to an empty buffer, and then others, is the first that is read, and the others
-- stay.
pub read-append_int :
    (w : Width) (b : Buffer) (x : ℕ)
    → IsValid b
    → content b ≡ []
    → length b.buffer + size_of w ≤ max_size
    → x < 256 ^ size_of w
    → (b' b'' : Buffer) × (append_int w b x ≡ some b')
      × (read_int w b' ≡ some (x, b''))
      × IsValid b''
      × (content b'' ≡ [])
read-append_int w b x v empty fits h =
    let (b', put, a) = append_int_lem w b x v fits in
    let (b'', got, v'', c) =
      read_int_lem w b' x [] a.valid h
        (a.bytes_in ∙ ap (λ xs. xs ++ be_bytes (size_of w) x) empty ∙ sym (append-nil _)) in
    (b', b'', put, got, v'', c)

-- `prependIntN` followed by `readIntN` gives the value and leaves the content as it was.
pub read-prepend_int :
    (w : Width) (b : Buffer) (x : ℕ)
    → IsValid b
    → size_of w ≤ prependable_bytes b
    → x < 256 ^ size_of w
    → (b' b'' : Buffer) × (prepend_int w b x ≡ some b')
      × (read_int w b' ≡ some (x, b''))
      × IsValid b''
      × (content b'' ≡ content b)
unfolding prepend_int
read-prepend_int w b x v room h =
    let (b', put, v', c, _) =
      prepend_lem b (be_bytes (size_of w) x) v (omega (arith, length-be_bytes (size_of w) x)) in
    let (b'', got, v'', c') = read_int_lem w b' x (content b) v' h c in (b', b'', put, got, v'', c')
