-- ===== src/Buffer.antt =====
-- communication/Buffer.h and Buffer.cpp: the byte buffer with a prependable, a readable and a
-- writable region. A pointer into the buffer is its index; `none` is a failed assertion, an
-- allocation that `std::vector` refuses, or a copy from behind the end of an object.
pub mod Region
pub mod Space
pub mod Retrieve
pub mod Find
pub mod Codec
pub mod Vectored
pub mod Shrink
mod Tests
use mathlib.Core.Option
use toy_basket.Prelude.{
  ℕ, zero, suc, ◌+◌, ◌-◌, ◌*◌, ◌/◌, ◌%◌, List, [], ◌∷◌, ◌++◌, Option, none, some, Bool, true, false,
  ◌&&◌, ltb, leb, ◌==◌, if◌then◌else◌, length, take, drop, replicate, slice, overwrite, add_size,
  sub_size, size_through_int, max_size, check, ◌>>=◌, ◌>>◌,
}

abbrev pub cheap_prepend : ℕ
cheap_prepend = 8

abbrev pub initial_size : ℕ
initial_size = 1024

pub record Buffer : Type 0 where
  pub buffer : List ℕ
  pub reader_index : ℕ
  pub writer_index : ℕ

pub readable_bytes : Buffer → ℕ
readable_bytes b = sub_size b.writer_index b.reader_index

pub writable_bytes : Buffer → ℕ
writable_bytes b = sub_size (length b.buffer) b.writer_index

pub prependable_bytes : Buffer → ℕ
prependable_bytes b = b.reader_index

-- `std::vector<char>::resize`: new entries are 0, and a length above `max_size` throws.
abbrev pub resize : ℕ → List ℕ → Option (List ℕ)
resize n xs = if ltb max_size n then none else some (take n xs ++ replicate (n - length xs) 0)

-- The member initialisers of the constructor, for a vector that is already built.
abbrev pub fresh : List ℕ → Buffer
fresh bytes = record { buffer = bytes; reader_index = cheap_prepend; writer_index = cheap_prepend }

pub new : ℕ → Option Buffer
new initial = do
  bytes ← resize (add_size cheap_prepend initial) []
  check (readable_bytes (fresh bytes) == 0)
  check (writable_bytes (fresh bytes) == initial)
  check (prependable_bytes (fresh bytes) == cheap_prepend)
  some (fresh bytes)

unfoldable pub retrieve_all : Buffer → Buffer
retrieve_all b = record b { reader_index = cheap_prepend; writer_index = cheap_prepend }

pub retrieve : Buffer → ℕ → Option Buffer
retrieve b len = do
  check (leb len (readable_bytes b))
  some (
      if ltb len (readable_bytes b)
      then record b { reader_index = add_size b.reader_index len }
      else retrieve_all b)

pub retrieve_until : Buffer → ℕ → Option Buffer
retrieve_until b end = do
  check (leb b.reader_index end)
  check (leb end b.writer_index)
  retrieve b (sub_size end b.reader_index)

pub retrieve_as_string : Buffer → ℕ → Option (List ℕ × Buffer)
retrieve_as_string b len = do
  check (leb len (readable_bytes b))
  let result = slice b.reader_index len b.buffer
  b' ← retrieve b len
  some (result, b')

pub retrieve_all_as_string : Buffer → Option (List ℕ × Buffer)
retrieve_all_as_string b = retrieve_as_string b (readable_bytes b)

-- The readable bytes copied to the front of the vector.
abbrev pub moved : Buffer → Buffer
moved b = record {
  buffer = overwrite b.buffer cheap_prepend (slice b.reader_index (readable_bytes b) b.buffer);
  reader_index = cheap_prepend;
  writer_index = add_size cheap_prepend (readable_bytes b);
}

-- Grow at the end, or move the readable bytes to the front.
pub make_space : Buffer → ℕ → Option Buffer
make_space b len =
    if ltb (add_size (writable_bytes b) (prependable_bytes b)) (add_size len cheap_prepend)
    then (do
      bytes ← resize (add_size b.writer_index len) b.buffer
      some (record b { buffer = bytes }))
    else (do
      check (ltb cheap_prepend b.reader_index)
      check (readable_bytes b == readable_bytes (moved b))
      some (moved b))

pub ensure_writable_bytes : Buffer → ℕ → Option Buffer
ensure_writable_bytes b len = do
  b' ← if ltb (writable_bytes b) len then make_space b len else some b
  check (leb len (writable_bytes b'))
  some b'

pub has_written : Buffer → ℕ → Option Buffer
has_written b len = do
  check (leb len (writable_bytes b))
  some (record b { writer_index = add_size b.writer_index len })

pub unwrite : Buffer → ℕ → Option Buffer
unwrite b len = do
  check (leb len (readable_bytes b))
  some (record b { writer_index = sub_size b.writer_index len })

-- `append(const char* data, size_t len)`: `mem` is the memory from `data` to the end of its object.
pub append_raw : Buffer → List ℕ → ℕ → Option Buffer
append_raw b mem len = do
  b' ← ensure_writable_bytes b len
  check (leb len (length mem))
  has_written (record b' { buffer = overwrite b'.buffer b'.writer_index (take len mem) }) len

pub append : Buffer → List ℕ → Option Buffer
append b bytes = append_raw b bytes (length bytes)

pub prepend : Buffer → List ℕ → Option Buffer
prepend b bytes = do
  check (leb (length bytes) (prependable_bytes b))
  let i = sub_size b.reader_index (length bytes)
  some (record b { buffer = overwrite b.buffer i bytes; reader_index = i })

-- `other.append(toStringPiece())` passes the length through an `int`.
pub shrink : Buffer → ℕ → Option Buffer
shrink b reserve = do
  other ← new initial_size
  other' ← ensure_writable_bytes other (add_size (readable_bytes b) reserve)
  append_raw other' (drop b.reader_index b.buffer) (size_through_int (readable_bytes b))

-- `std::search` for "\r\n" over the bytes from index `i` on.
pub search_crlf : ℕ → List ℕ → Option ℕ
search_crlf i [] = none
search_crlf i (x ∷ []) = none
search_crlf i (x ∷ y ∷ rest) =
    if (x == 13) && (y == 10) then some i else search_crlf (i + 1) (y ∷ rest)

-- `memchr(…, '\n', …)` over the bytes from index `i` on.
pub search_eol : ℕ → List ℕ → Option ℕ
search_eol i [] = none
search_eol i (x ∷ rest) = if x == 10 then some i else search_eol (i + 1) rest

pub find_crlf : Buffer → Option ℕ
find_crlf b = search_crlf b.reader_index (slice b.reader_index (readable_bytes b) b.buffer)

pub find_crlf_from : Buffer → ℕ → Option (Option ℕ)
find_crlf_from b start = do
  check (leb b.reader_index start)
  check (leb start b.writer_index)
  some (search_crlf start (slice start (sub_size b.writer_index start) b.buffer))

pub find_eol : Buffer → Option ℕ
find_eol b = search_eol b.reader_index (slice b.reader_index (readable_bytes b) b.buffer)

pub find_eol_from : Buffer → ℕ → Option (Option ℕ)
find_eol_from b start = do
  check (leb b.reader_index start)
  check (leb start b.writer_index)
  some (search_eol start (slice start (sub_size b.writer_index start) b.buffer))

-- The integer types that the buffer reads and writes.
pub data Width : Type 0 where
  int8 int16 int32 int64 : Width

abbrev pub size_of : Width → ℕ
size_of int8 = 1
size_of int16 = 2
size_of int32 = 4
size_of int64 = 8

-- The `n` bytes of a value in network order, as `htobe16`, `htobe32` and `htobe64` lay them out.
unfoldable pub be_bytes : ℕ → ℕ → List ℕ
be_bytes zero x = []
be_bytes (suc n) x = be_bytes n (x / 256) ++ (x % 256) ∷ []

-- The value of bytes in network order, read behind the value `acc`.
pub be_value : ℕ → List ℕ → ℕ
be_value acc [] = acc
be_value acc (x ∷ xs) = be_value (acc * 256 + x) xs

-- `appendInt64`, `appendInt32`, `appendInt16`, `appendInt8`; a value is its bit pattern.
pub append_int : Width → Buffer → ℕ → Option Buffer
append_int w b x = append b (be_bytes (size_of w) x)

pub prepend_int : Width → Buffer → ℕ → Option Buffer
prepend_int w b x = prepend b (be_bytes (size_of w) x)

pub peek_int : Width → Buffer → Option ℕ
peek_int w b = do
  check (leb (size_of w) (readable_bytes b))
  some (be_value 0 (slice b.reader_index (size_of w) b.buffer))

pub retrieve_int : Width → Buffer → Option Buffer
retrieve_int w b = retrieve b (size_of w)

pub read_int : Width → Buffer → Option (ℕ × Buffer)
read_int w b = do result ← peek_int w b; b' ← retrieve_int w b; some (result, b')

-- What `readv(2)` answers: the bytes that it stored, or an error number.
pub data Readv : Type 0 where
  got : List ℕ → Readv
  failed : ℕ → Readv

abbrev pub extrabuf_size : ℕ
extrabuf_size = 65536

-- How many bytes the vector that `readFd` hands to `readv` has room for.
pub readv_room : Buffer → ℕ
readv_room b =
    if ltb (writable_bytes b) extrabuf_size
    then writable_bytes b + extrabuf_size
    else writable_bytes b

-- What `readFd` returns: the count, or -1 with the error number saved.
pub data ReadFd : Type 0 where
  count : ℕ → ReadFd
  saved_errno : ℕ → ReadFd

-- The buffer after the kernel has filled the writable region; `extrabuf` holds the rest.
abbrev pub filled : Buffer → List ℕ → Buffer
filled b bytes = record b {
  buffer = overwrite b.buffer b.writer_index (take (writable_bytes b) bytes);
}

pub read_fd : Buffer → Readv → Option (Buffer × ReadFd)
read_fd b (failed errno) = some (b, saved_errno errno)
read_fd b (got bytes) =
    if leb (length bytes) (writable_bytes b)
    then some (
      record (filled b bytes) { writer_index = add_size b.writer_index (length bytes) },
      count (length bytes),
    )
    else (do
      b' ←
          append (record (filled b bytes) { writer_index = length (filled b bytes).buffer })
            (drop (writable_bytes b) bytes)
      some (b', count (length bytes)))
