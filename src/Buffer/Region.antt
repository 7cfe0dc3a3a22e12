-- ===== src/Buffer/Region.antt =====
-- The representation invariant of Buffer.h and the bytes that a buffer holds.
use toy_basket.Prelude.{ℕ, ◌+◌, ◌-◌, ◌≤◌, ◌≡◌, List, length, slice, length-slice, max_size, arith}
use toy_basket.Buffer.{Buffer, cheap_prepend, readable_bytes, writable_bytes, prependable_bytes}

-- 0 <= readerIndex <= writerIndex <= size, the picture at the head of the class.
pub record IsValid (b : Buffer) : Type 0 where
  pub ordered : b.reader_index ≤ b.writer_index
  pub inside : b.writer_index ≤ length b.buffer
  pub bounded : length b.buffer ≤ max_size
  pub reserved : cheap_prepend ≤ length b.buffer

-- The readable region.
unfoldable pub content : Buffer → List ℕ
content b = slice b.reader_index (b.writer_index - b.reader_index) b.buffer

pub readable_lem : {b : Buffer} → IsValid b → readable_bytes b ≡ b.writer_index - b.reader_index
unfolding readable_bytes
readable_lem v = omega arith

pub writable_lem : {b : Buffer} → IsValid b → writable_bytes b ≡ length b.buffer - b.writer_index
unfolding writable_bytes
writable_lem v = omega arith

pub length-content : {b : Buffer} → IsValid b → length (content b) ≡ b.writer_index - b.reader_index
unfolding content
length-content {b} v =
    length-slice b.reader_index (b.writer_index - b.reader_index) b.buffer (omega arith)

-- `readableBytes()` counts the bytes that the buffer holds.
pub readable-content : {b : Buffer} → IsValid b → readable_bytes b ≡ length (content b)
readable-content {b} v = omega (arith, readable_lem v, length-content v)

-- The three regions make up the vector, so no subtraction of the class wraps.
pub regions_lem :
    {b : Buffer}
    → IsValid b
    → prependable_bytes b + readable_bytes b + writable_bytes b ≡ length b.buffer
unfolding prependable_bytes
regions_lem v = omega (arith, readable_lem v, writable_lem v)
