-- ===== src/Buffer/Vectored.antt =====
-- `readFd` of Buffer.cpp: one `readv` into the writable region and a stack buffer.
use toy_basket.Prelude.{
  ℕ, ◌+◌, ◌-◌, ◌≤◌, ◌<◌, ◌≡◌, refl, ap, ◌∙◌, inl, inr, Bool-cases, List, ◌++◌, some, leb, length,
  take, drop, append_assoc, length-take, length-drop, length-overwrite, take_of_length, take_congr,
  ◌*◌, take-append-drop, leb→le, max_size, arith,
}
use toy_basket.Buffer.{
  Buffer, writable_bytes, filled, read_fd, readv_room, got, failed, count, saved_errno,
  extrabuf_size,
}
use toy_basket.Buffer.Region.{IsValid, content, writable_lem}
use toy_basket.Buffer.Space.{Appended, append_lem, written, written-Appended, written_content}

-- Filling the writable region entirely.
abbrev full : Buffer → List ℕ → Buffer
full b bytes = record (filled b bytes) { writer_index = length (filled b bytes).buffer }

full_lem :
    (b : Buffer) (bytes : List ℕ)
    → IsValid b
    → writable_bytes b ≤ length bytes
    → IsValid (full b bytes)
      × (content (full b bytes) ≡ content b ++ take (writable_bytes b) bytes)
      × (length (full b bytes).buffer ≡ length b.buffer)
full_lem b bytes v h = (
  ground (arith, kept),
  unfold content in
      take_congr {m = length (full b bytes).buffer - b.reader_index}
        {n = b.writer_index + length (take (writable_bytes b) bytes) - b.reader_index}
        (drop b.reader_index (full b bytes).buffer) (omega (arith, kept, filling))
      ∙ written_content b (take (writable_bytes b) bytes) v (omega (arith, filling)),
  kept,
)
  where
    kept : length (full b bytes).buffer ≡ length b.buffer
    kept = length-overwrite b.buffer b.writer_index (take (writable_bytes b) bytes)

    filling : b.writer_index + length (take (writable_bytes b) bytes) ≡ length b.buffer
    filling = omega (arith, length-take (writable_bytes b) bytes, writable_lem v)

-- `readFd` puts every byte that the kernel delivered behind the readable region, in order, whether
-- or not some went through the stack buffer; it returns their number and keeps the invariant.
pub read_fd_lem :
    (b : Buffer) (bytes : List ℕ)
    → IsValid b
    → length b.buffer + length bytes ≤ max_size
    → (b' : Buffer) × (read_fd b (got bytes) ≡ some (b', count (length bytes)))
      × Appended b bytes b'
unfolding read_fd
read_fd_lem b bytes v fits = elim (Bool-cases (leb (length bytes) (writable_bytes b))) [
  | inl direct ↦
      let fit : length bytes ≤ writable_bytes b = leb→le _ _ direct in
      (
        written b bytes (length bytes),
        rw (direct, take_of_length (writable_bytes b) bytes fit),
        written-Appended b bytes (length bytes) v refl (omega (arith, writable_lem v)),
      )
  | inr spilled ↦
      let more : writable_bytes b < length bytes = ground arith in
      let rest : length (drop (writable_bytes b) bytes) ≡ length bytes - writable_bytes b =
        length-drop (writable_bytes b) bytes in
      let (v', c, size) = full_lem b bytes v (omega arith) in
      let (b', done, a) =
        append_lem (full b bytes) (drop (writable_bytes b) bytes) v' (omega (arith, rest, size)) in
      (
        b',
        rw spilled (rw done),
        record {
          valid = a.valid;
          bytes_in =
              a.bytes_in
              ∙ ap (λ xs. xs ++ drop (writable_bytes b) bytes) c
              ∙ append_assoc (content b) (take (writable_bytes b) bytes)
                  (drop (writable_bytes b) bytes)
              ∙ ap (◌++◌ (content b)) (take-append-drop (writable_bytes b) bytes);
          size = omega (arith, a.size, size, rest);
          spare = omega (arith, writable_lem v);
        },
      )
]

-- A failed read leaves the buffer and reports the error number.
read_fd_failed : (b : Buffer) (errno : ℕ) → read_fd b (failed errno) ≡ some (b, saved_errno errno)
unfolding read_fd
read_fd_failed b errno = refl

-- The vector handed to `readv` always has room for 64 KiB, and for less than 128 KiB whenever the
-- stack buffer is in use.
pub readv_room_bounds :
    (b : Buffer)
    → (extrabuf_size ≤ readv_room b)
      × (writable_bytes b < readv_room b → readv_room b < 2 * extrabuf_size)
unfolding readv_room
readv_room_bounds b = ground arith
