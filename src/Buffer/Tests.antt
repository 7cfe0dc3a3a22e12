-- ===== src/Buffer/Tests.antt =====
-- Runs of Buffer.h on small buffers, and its theorems at concrete inputs.
use toy_basket.Prelude.{
  ℕ, ◌+◌, ◌≡◌, ◌^◌, refl, List, [], ◌∷◌, some, length, take, drop, arith, length-replicate,
  replicate,
}
use toy_basket.Buffer.{
  Buffer, int32, append_int, read_int, append, retrieve_as_string, read_fd, got, count, find_crlf,
  find_eol, writable_bytes, readable_bytes, prependable_bytes, search_crlf, search_eol, append_raw,
  ensure_writable_bytes, make_space, has_written,
}
use toy_basket.Buffer.Region.{IsValid, content, length-content}
use toy_basket.Buffer.Space.{Appended, append_lem}
use toy_basket.Buffer.Retrieve.{retrieve_as_string_lem}
use toy_basket.Buffer.Vectored.{read_fd_lem}
use toy_basket.Buffer.Codec.{read-append_int}
use toy_basket.Buffer.Find.{FindsFirst, CrlfAt, EolAt, find_lem}

-- "a\r\n" behind eight reserved bytes, with one writable byte.
abbrev line : Buffer
line = record {
  buffer = 0 ∷ 0 ∷ 0 ∷ 0 ∷ 0 ∷ 0 ∷ 0 ∷ 0 ∷ 97 ∷ 13 ∷ 10 ∷ 0 ∷ [];
  reader_index = 8;
  writer_index = 11;
}

abbrev empty : Buffer
empty = record line { writer_index = 8 }

line-IsValid : IsValid line
line-IsValid = omega arith

empty-IsValid : IsValid empty
empty-IsValid = omega arith

append_lem_example :
    (b' : Buffer) × (append line (1 ∷ 2 ∷ []) ≡ some b') × Appended line (1 ∷ 2 ∷ []) b'
append_lem_example = append_lem line (1 ∷ 2 ∷ []) line-IsValid (omega arith)

retrieve_as_string_lem_example :
    (b' : Buffer) × (retrieve_as_string line 1 ≡ some (take 1 (content line), b'))
    × IsValid b'
    × (content b' ≡ drop 1 (content line))
unfolding content
retrieve_as_string_lem_example = retrieve_as_string_lem line 1 line-IsValid (omega arith)

read_fd_lem_example :
    (b' : Buffer) × (read_fd line (got (5 ∷ 6 ∷ [])) ≡ some (b', count 2))
    × Appended line (5 ∷ 6 ∷ []) b'
read_fd_lem_example = read_fd_lem line (5 ∷ 6 ∷ []) line-IsValid (omega arith)

read-append_int_example :
    (b' b'' : Buffer) × (append_int int32 empty 305419896 ≡ some b')
    × (read_int int32 b' ≡ some (305419896, b''))
    × IsValid b''
    × (content b'' ≡ [])
unfolding content
read-append_int_example =
    read-append_int int32 empty 305419896 empty-IsValid refl (omega arith) (omega arith)

find_lem_example :
    FindsFirst (CrlfAt (content line)) 8 (find_crlf line)
    × FindsFirst (EolAt (content line)) 8 (find_eol line)
find_lem_example = find_lem line-IsValid

find_in_line : (find_crlf line ≡ some 9) × (find_eol line ≡ some 10)
unfolding find_crlf find_eol search_crlf search_eol readable_bytes
find_in_line = (refl, refl)

spilled :
    read_fd line (got (5 ∷ 6 ∷ []))
    ≡ some (
      record {
        buffer = 0 ∷ 0 ∷ 0 ∷ 0 ∷ 0 ∷ 0 ∷ 0 ∷ 0 ∷ 97 ∷ 13 ∷ 10 ∷ 5 ∷ 6 ∷ [];
        reader_index = 8;
        writer_index = 13;
      },
      count 2,
    )
unfolding read_fd append append_raw ensure_writable_bytes make_space has_written writable_bytes
    prependable_bytes
spilled = refl

-- A buffer that holds 2^31 bytes. The list stays shut, so nothing writes it out.
huge_bytes : ℕ → List ℕ
huge_bytes n = replicate n 0

length-huge_bytes : (n : ℕ) → length (huge_bytes n) ≡ n
unfolding huge_bytes
length-huge_bytes n = length-replicate n 0

abbrev huge : Buffer
huge = record { buffer = huge_bytes (2 ^ 31 + 8); reader_index = 8; writer_index = 2 ^ 31 + 8 }

huge-IsValid : IsValid huge
huge-IsValid = omega (arith, length-huge_bytes (2 ^ 31 + 8))

huge-content : length (content huge) ≡ 2 ^ 31
huge-content = length-content huge-IsValid
