-- ===== src/Buffer/Space.antt =====
-- `makeSpace`, `ensureWritableBytes`, `append` and `prepend` of Buffer.h.
use toy_basket.Prelude.{
  ℕ, ◌+◌, ◌-◌, ◌≤◌, ◌<◌, ◌≡◌, refl, sym, ap, ap₂, ◌∙◌, ◌⊎◌, inl, inr, Bool-cases, List, ◌++◌, none,
  some, ltb, length, take, slice, overwrite, replicate, length-overwrite, length-append,
  length-take, length-replicate, take_of_length, slice-append, slice-overwrite_self,
  slice-overwrite_before, slice-overwrite_after, slice-add, take_congr, drop, length-slice, ltb→lt,
  ltb→le, lt→ltb, ==_refl, le→ltb, le→leb, max_size, add_size, sub_size, size_mod, arith,
}
use toy_basket.Buffer.{
  Buffer, cheap_prepend, resize, moved, make_space, ensure_writable_bytes, has_written, append_raw,
  append, prepend, readable_bytes, writable_bytes, prependable_bytes,
}
use toy_basket.Buffer.Region.{IsValid, content, readable_lem, writable_lem, readable-content}

-- The vector resized to at least its length keeps its bytes.
pub resize_lem :
    (n : ℕ) (xs : List ℕ)
    → length xs ≤ n
    → n ≤ max_size
    → resize n xs ≡ some (xs ++ replicate (n - length xs) 0)
resize_lem n xs h k = rw (le→ltb max_size n k, take_of_length n xs h)

-- What `makeSpace(len)` and `ensureWritableBytes(len)` promise.
pub record Made (b : Buffer) (len : ℕ) (b' : Buffer) : Type 0 where
  pub valid : IsValid b'
  pub same : content b' ≡ content b
  pub room : b'.writer_index + len ≤ length b'.buffer
  pub size : length b'.buffer ≤ length b.buffer + len
  pub spare : length b.buffer - b.writer_index ≤ length b'.buffer - b'.writer_index
  pub front : (b'.reader_index ≡ b.reader_index) ⊎ (b'.reader_index ≡ cheap_prepend)

grow-Made :
    (b : Buffer) (len : ℕ)
    → IsValid b
    → writable_bytes b < len
    → length b.buffer + len ≤ max_size
    → Made b len
        (record b { buffer = b.buffer ++ replicate (b.writer_index + len - length b.buffer) 0 })
unfolding content
grow-Made b len v short fits = record {
  valid = ground (arith, longer, writable_lem v);
  same = slice-append b.reader_index (b.writer_index - b.reader_index) b.buffer extra (omega arith);
  room = omega (arith, longer, writable_lem v);
  size = omega (arith, longer, writable_lem v);
  spare = omega (arith, longer, writable_lem v);
  front = inl refl;
}
  where
    extra : List ℕ
    extra = replicate (b.writer_index + len - length b.buffer) 0

    longer : length (b.buffer ++ extra) ≡ length b.buffer + (b.writer_index + len - length b.buffer)
    longer = omega (
      arith,
      length-append b.buffer extra,
      length-replicate {A = ℕ} (b.writer_index + len - length b.buffer) 0,
    )

moved-Made :
    (b : Buffer) (len : ℕ)
    → IsValid b
    → writable_bytes b < len
    → len + cheap_prepend ≤ writable_bytes b + prependable_bytes b
    → Made b len (moved b)
unfolding content prependable_bytes
moved-Made b len v short space = record {
  valid = ground (arith, kept, readable_lem v, writable_lem v);
  same =
      take_congr {m = add_size 8 (readable_bytes b) - 8} {n = length readable} _
        (omega (arith, whole, readable_lem v, writable_lem v))
      ∙ slice-overwrite_self b.buffer 8 readable
          (omega (arith, whole, readable_lem v, writable_lem v))
      ∙ take_congr (drop b.reader_index b.buffer) (readable_lem v);
  room = omega (arith, kept, readable_lem v, writable_lem v);
  size = omega (arith, kept);
  spare = omega (arith, kept, readable_lem v, writable_lem v);
  front = inr refl;
}
  where
    kept : length (moved b).buffer ≡ length b.buffer
    kept = length-overwrite b.buffer 8 (slice b.reader_index (readable_bytes b) b.buffer)

    readable : List ℕ
    readable = slice b.reader_index (readable_bytes b) b.buffer

    whole : length readable ≡ readable_bytes b
    whole = length-slice b.reader_index (readable_bytes b) b.buffer (omega (arith, readable_lem v))

make_space_lem :
    (b : Buffer) (len : ℕ)
    → IsValid b
    → writable_bytes b < len
    → length b.buffer + len ≤ max_size
    → (b' : Buffer) × (make_space b len ≡ some b') × Made b len b'
unfolding make_space prependable_bytes
make_space_lem b len v short fits =
    elim (Bool-cases
      (ltb (add_size (writable_bytes b) (prependable_bytes b)) (add_size len cheap_prepend))) [
        | inl grow ↦ (
          record b { buffer = b.buffer ++ replicate (b.writer_index + len - length b.buffer) 0 },
          ground (arith, resize_lem (b.writer_index + len) b.buffer, writable_lem v),
          grow-Made b len v short fits,
        )
        | inr move ↦
            let space : len + 8 ≤ writable_bytes b + b.reader_index =
              ground (arith, writable_lem v) in
            let made : Made b len (moved b) = moved-Made b len v short space in
            let forward : 8 < b.reader_index = omega arith in
            let same : readable_bytes b ≡ readable_bytes (moved b) =
              readable-content v ∙ sym (ap length made.same) ∙ sym (readable-content made.valid) in
            (moved b, rw (move, lt→ltb _ _ forward, ← same, ==_refl), made)
      ]

pub ensure_writable_lem :
    (b : Buffer) (len : ℕ)
    → IsValid b
    → length b.buffer + len ≤ max_size
    → (b' : Buffer) × (ensure_writable_bytes b len ≡ some b') × Made b len b'
unfolding ensure_writable_bytes
ensure_writable_lem b len v fits = elim (Bool-cases (ltb (writable_bytes b) len)) [
  | inl short ↦
      let (b', made, m) = make_space_lem b len v (ltb→lt _ _ short) fits in
      (b', rw (short, made, le→leb _ _ (enough b' m)), m)
  | inr roomy ↦
      let m : Made b len b = record {
        valid = v;
        same = refl;
        room = omega (arith, ltb→le _ _ roomy, writable_lem v);
        size = omega arith;
        spare = omega arith;
        front = inl refl;
      } in
      (b, rw (roomy, le→leb _ _ (enough b m)), m)
]
  where
    enough : (b' : Buffer) → Made b len b' → len ≤ writable_bytes b'
    enough b' m = omega (arith, writable_lem m.valid, m.room)

-- Bytes copied behind the readable region extend it.
pub written_content :
    (b : Buffer) (ys : List ℕ)
    → IsValid b
    → b.writer_index + length ys ≤ length b.buffer
    → slice b.reader_index
        (b.writer_index + length ys - b.reader_index)
        (overwrite b.buffer b.writer_index ys)
      ≡ content b ++ ys
unfolding content
written_content b ys v room =
    take_congr {m = b.writer_index + length ys - b.reader_index} {n = n + length ys} _ (omega arith)
    ∙ slice-add b.reader_index n (length ys) (overwrite b.buffer b.writer_index ys)
    ∙ ap₂ ◌++◌ (slice-overwrite_before b.reader_index n b.buffer b.writer_index ys (omega arith)) (
        ap (λ i. slice i (length ys) (overwrite b.buffer b.writer_index ys)) meet
        ∙ slice-overwrite_self b.buffer b.writer_index ys room)
  where
    n : ℕ
    n = b.writer_index - b.reader_index

    meet : b.reader_index + n ≡ b.writer_index
    meet = omega arith

-- What `append` promises.
pub record Appended (b : Buffer) (bytes : List ℕ) (b' : Buffer) : Type 0 where
  pub valid : IsValid b'
  pub bytes_in : content b' ≡ content b ++ bytes
  pub size : length b'.buffer ≤ length b.buffer + length bytes
  pub spare : length b.buffer - b.writer_index ≤ length b'.buffer - b'.writer_index + length bytes

-- The buffer with `len` bytes copied behind its readable region.
abbrev pub written : Buffer → List ℕ → ℕ → Buffer
written b ys len = record b {
  buffer = overwrite b.buffer b.writer_index ys;
  writer_index = add_size b.writer_index len;
}

pub written-Appended :
    (b : Buffer) (ys : List ℕ) (len : ℕ)
    → IsValid b
    → length ys ≡ len
    → b.writer_index + len ≤ length b.buffer
    → Appended b ys (written b ys len)
unfolding content
written-Appended b ys len v count room = record {
  valid = ground (arith, kept);
  bytes_in =
      take_congr (drop b.reader_index (overwrite b.buffer b.writer_index ys)) (omega (arith, count))
      ∙ written_content b ys v (omega (arith, count));
  size = omega (arith, kept);
  spare = omega (arith, kept, count);
}
  where
    kept : length (overwrite b.buffer b.writer_index ys) ≡ length b.buffer
    kept = length-overwrite b.buffer b.writer_index ys

-- The copy and `hasWritten(len)` at a buffer that has the room.
has_written_lem :
    (b : Buffer) (ys : List ℕ) (len : ℕ)
    → IsValid b
    → b.writer_index + len ≤ length b.buffer
    → has_written (record b { buffer = overwrite b.buffer b.writer_index ys }) len
      ≡ some (written b ys len)
unfolding has_written
has_written_lem b ys len v room = rw (le→leb _ _ enough)
  where
    copied : Buffer
    copied = record b { buffer = overwrite b.buffer b.writer_index ys }

    kept : length (overwrite b.buffer b.writer_index ys) ≡ length b.buffer
    kept = length-overwrite b.buffer b.writer_index ys

    copied-IsValid : IsValid copied
    copied-IsValid = ground (arith, kept)

    enough : len ≤ writable_bytes copied
    enough = omega (arith, kept, writable_lem copied-IsValid)

pub append_raw_lem :
    (b : Buffer) (mem : List ℕ) (len : ℕ)
    → IsValid b
    → len ≤ length mem
    → length b.buffer + len ≤ max_size
    → (b' : Buffer) × (append_raw b mem len ≡ some b') × Appended b (take len mem) b'
unfolding append_raw
append_raw_lem b mem len v inside fits =
    let (c, ensured, m) = ensure_writable_lem b len v fits in
    let count : length (take len mem) ≡ len = omega (arith, length-take len mem) in
    let w = written-Appended c (take len mem) len m.valid count m.room in
    (
      written c (take len mem) len,
      rw (ensured, le→leb _ _ inside) (has_written_lem c (take len mem) len m.valid m.room),
      record {
        valid = w.valid;
        bytes_in = w.bytes_in ∙ ap (λ xs. xs ++ take len mem) m.same;
        size =
            omega (arith, length-overwrite c.buffer c.writer_index (take len mem), m.size, count);
        spare = omega (arith, w.spare, m.spare, count);
      },
    )

-- A length above `max_size` makes `std::vector` throw.
pub append_raw_huge :
    (b : Buffer) (mem : List ℕ) (len : ℕ)
    → IsValid b
    → max_size < len
    → b.writer_index + len + cheap_prepend < size_mod
    → append_raw b mem len ≡ none
unfolding append_raw ensure_writable_bytes make_space prependable_bytes
append_raw_huge b mem len v huge below = rw (lt→ltb _ _ short, lt→ltb _ _ grow, lt→ltb _ _ over)
  where
    short : writable_bytes b < len
    short = omega (arith, writable_lem v)

    grow : add_size (writable_bytes b) b.reader_index < add_size len cheap_prepend
    grow = omega (arith, writable_lem v)

    over : max_size < add_size b.writer_index len
    over = omega arith

-- `append` succeeds on a valid buffer that `std::vector` can enlarge, keeps the invariant, and puts
-- exactly the given bytes behind those that the buffer held.
pub append_lem :
    (b : Buffer) (bytes : List ℕ)
    → IsValid b
    → length b.buffer + length bytes ≤ max_size
    → (b' : Buffer) × (append b bytes ≡ some b') × Appended b bytes b'
unfolding append
append_lem b bytes v fits =
    let (b', done, w) = append_raw_lem b bytes (length bytes) v (omega arith) fits in
    (b', done, rw (take_of_length (length bytes) bytes (omega arith)) at w)

-- `prepend` puts bytes in front of those that the buffer holds, if the reserved region has the room.
pub prepend_lem :
    (b : Buffer) (bytes : List ℕ)
    → IsValid b
    → length bytes ≤ prependable_bytes b
    → (b' : Buffer) × (prepend b bytes ≡ some b')
      × IsValid b'
      × (content b' ≡ bytes ++ content b)
      × (prependable_bytes b' + length bytes ≡ prependable_bytes b)
unfolding prepend prependable_bytes content
prepend_lem b bytes v room = (
  record { buffer = overwrite b.buffer i bytes; reader_index = i; writer_index = b.writer_index },
  rw (le→leb _ _ room),
  ground (arith, kept),
  take_congr {m = b.writer_index - i} {n = length bytes + n} _ (omega arith)
      ∙ slice-add i (length bytes) n (overwrite b.buffer i bytes)
      ∙ ap₂ ◌++◌ (slice-overwrite_self b.buffer i bytes (omega arith)) (
          slice-overwrite_after (i + length bytes) n b.buffer i bytes (omega arith)
          ∙ ap (λ k. slice k n b.buffer) meet),
  omega arith,
)
  where
    i : ℕ
    i = sub_size b.reader_index (length bytes)

    n : ℕ
    n = b.writer_index - b.reader_index

    meet : i + length bytes ≡ b.reader_index
    meet = omega arith

    kept : length (overwrite b.buffer i bytes) ≡ length b.buffer
    kept = length-overwrite b.buffer i bytes
