-- ===== src/Buffer/Retrieve.antt =====
-- `retrieve` and its variants, and `unwrite`, of Buffer.h: how bytes leave a buffer.
use toy_basket.Prelude.{
  ℕ, ◌-◌, ◌≤◌, ◌<◌, ◌≡◌, refl, sym, ap, ap₂, ◌∙◌, inl, inr, Bool-cases, [], some, ltb, length, take,
  drop, slice, take-take, take_of_length, take_congr, drop_of_length, drop-slice, ltb→lt, ltb→le,
  le→leb, lt→ltb, add_size, sub_size, arith,
}
use toy_basket.Buffer.{
  Buffer, readable_bytes, retrieve_all, retrieve, retrieve_until, retrieve_as_string,
  retrieve_all_as_string, unwrite,
}
use toy_basket.Buffer.Region.{IsValid, content, readable_lem, readable-content, length-content}

pub retrieve_all-IsValid : {b : Buffer} → IsValid b → IsValid (retrieve_all b)
unfolding retrieve_all
retrieve_all-IsValid v = ground arith

pub content-retrieve_all : (b : Buffer) → content (retrieve_all b) ≡ []
unfolding content retrieve_all
content-retrieve_all b = refl

-- `retrieve(len)` succeeds if the buffer holds `len` bytes, and drops exactly the first `len`.
pub retrieve_lem :
    (b : Buffer) (len : ℕ)
    → IsValid b
    → len ≤ length (content b)
    → (b' : Buffer) × (retrieve b len ≡ some b')
      × IsValid b'
      × (content b' ≡ drop len (content b))
      × (b'.buffer ≡ b.buffer)
unfolding retrieve
retrieve_lem b len v held = elim (Bool-cases (ltb len (readable_bytes b))) [
  | inl part ↦ (
    record b { reader_index = add_size b.reader_index len },
    rw (le→leb _ _ enough, part),
    ground (arith, ltb→lt _ _ part, readable_lem v),
    unfold content in rest (ltb→lt _ _ part),
    refl,
  )
  | inr whole ↦ (
    retrieve_all b,
    rw (le→leb _ _ enough, whole),
    retrieve_all-IsValid v,
    content-retrieve_all b
        ∙ sym
            (drop_of_length len (content b) (omega (arith, ltb→le _ _ whole, readable-content v))),
    unfold retrieve_all in refl,
  )
]
  where
    enough : len ≤ readable_bytes b
    enough = omega (arith, readable-content v)

    rest :
        len < readable_bytes b
        → slice
            (add_size b.reader_index len)
            (b.writer_index - add_size b.reader_index len)
            b.buffer
          ≡ drop len (content b)
    rest h =
        unfold content in
        sym (
          drop-slice len b.reader_index (b.writer_index - b.reader_index) b.buffer
          ∙ ap₂ (λ i n. slice i n b.buffer) (omega (arith, readable_lem v))
              (omega (arith, readable_lem v)))

-- `retrieveUntil(end)` drops the bytes in front of `end`.
pub retrieve_until_lem :
    (b : Buffer) (end : ℕ)
    → IsValid b
    → b.reader_index ≤ end
    → end ≤ b.writer_index
    → (b' : Buffer) × (retrieve_until b end ≡ some b')
      × IsValid b'
      × (content b' ≡ drop (end - b.reader_index) (content b))
unfolding retrieve_until
retrieve_until_lem b end v h k =
    let (b', done, v', c, _) =
      retrieve_lem b (end - b.reader_index) v (omega (arith, length-content v)) in
    (b', rw (le→leb _ _ h, le→leb _ _ k, exact) done, v', c)
  where
    exact : sub_size end b.reader_index ≡ end - b.reader_index
    exact = omega arith

-- `retrieveAsString(len)` hands out the first `len` bytes and keeps the others.
pub retrieve_as_string_lem :
    (b : Buffer) (len : ℕ)
    → IsValid b
    → len ≤ length (content b)
    → (b' : Buffer) × (retrieve_as_string b len ≡ some (take len (content b), b'))
      × IsValid b'
      × (content b' ≡ drop len (content b))
unfolding retrieve_as_string
retrieve_as_string_lem b len v held =
    let (b', done, v', c, _) = retrieve_lem b len v held in
    (b', rw (le→leb _ _ enough, done) (ap (λ xs. some (xs, b')) front), v', c)
  where
    enough : len ≤ readable_bytes b
    enough = omega (arith, readable-content v)

    front : slice b.reader_index len b.buffer ≡ take len (content b)
    front =
        unfold content in
        sym (
          take-take len (b.writer_index - b.reader_index) _ (omega (arith, enough, readable_lem v)))

-- `retrieveAllAsString()` hands out all bytes and leaves none.
pub retrieve_all_as_string_lem :
    (b : Buffer)
    → IsValid b
    → (b' : Buffer) × (retrieve_all_as_string b ≡ some (content b, b'))
      × IsValid b'
      × (content b' ≡ [])
unfolding retrieve_all_as_string
retrieve_all_as_string_lem b v =
    let (b', done, v', c) =
      retrieve_as_string_lem b (readable_bytes b) v (omega (arith, readable-content v)) in
    (
      b',
      done
          ∙ ap (λ xs. some (xs, b'))
              (take_of_length (readable_bytes b) (content b) (omega (arith, readable-content v))),
      v',
      c ∙ drop_of_length (readable_bytes b) (content b) (omega (arith, readable-content v)),
    )

-- `unwrite(len)` takes back the last `len` bytes.
pub unwrite_lem :
    (b : Buffer) (len : ℕ)
    → IsValid b
    → len ≤ length (content b)
    → (b' : Buffer) × (unwrite b len ≡ some b')
      × IsValid b'
      × (content b' ≡ take (length (content b) - len) (content b))
unfolding unwrite
unwrite_lem b len v held = (
  record b { writer_index = sub_size b.writer_index len },
  rw (le→leb _ _ enough),
  ground (arith, length-content v),
  shorter,
)
  where
    enough : len ≤ readable_bytes b
    enough = omega (arith, readable-content v)

    shorter :
        content (record b { writer_index = sub_size b.writer_index len })
        ≡ take (length (content b) - len) (content b)
    shorter =
        unfold content in
        take_congr (drop b.reader_index b.buffer) (omega (arith, length-content v, held))
        ∙ sym (
            take-take (length (content b) - len) (b.writer_index - b.reader_index) _
              (omega (arith, length-content v)))

-- Retrieving no bytes of some changes nothing.
pub retrieve_zero : (b : Buffer) → IsValid b → 0 < readable_bytes b → retrieve b 0 ≡ some b
unfolding retrieve
retrieve_zero b v some_left =
    rw (le→leb 0 (readable_bytes b) (omega arith), lt→ltb 0 (readable_bytes b) some_left)
      (ap (λ i. some (record b { reader_index = i })) (omega arith))
