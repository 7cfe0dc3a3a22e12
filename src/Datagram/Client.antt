-- ===== src/Datagram/Client.antt =====
-- src/communication/net/DgramClient.cpp: what a client hears, through its buffer, and what it sends.
use toy_basket.Prelude.{
  ℕ, ◌+◌, ◌≤◌, ◌<◌, List, [], ◌∷◌, ◌++◌, length, ltb, if◌then◌else◌, Option, some, ◌>>=◌, ◌≡◌, ◌%◌,
  ◌^◌, ap₂, ap, ◌∙◌, arith, lt→ltb, max_size,
}
use toy_basket.Buffer.{
  Buffer, Readv, ReadFd, count, saved_errno, got, read_fd, retrieve_all, readable_bytes,
}
use toy_basket.Buffer.Region.{IsValid, content, readable-content}
use toy_basket.Buffer.Vectored.{read_fd_lem}
use toy_basket.Buffer.Retrieve.{retrieve_all-IsValid, content-retrieve_all}
use toy_basket.InetAddress.{InetAddress}

-- A call of `messageCallback_`: the address, the bytes at the pointer, and the size, which is an `int`
-- and given by its 32 bits.
pub data Delivery : Type 0 where
  dropped : Delivery
  delivered : InetAddress → List ℕ → ℕ → Delivery

-- `toStringPiece`, which casts the number of bytes.
pub to_string_piece : Buffer → List ℕ × ℕ
to_string_piece b = (content b, readable_bytes b % 2 ^ 32)

-- `handleRead` from what `readFd` returned and left in the buffer.
abbrev pub client_heard : InetAddress → Buffer × ReadFd → Delivery × Buffer
client_heard server_addr (b, count n) =
    if ltb 0 n
    then (delivered server_addr (to_string_piece b).0 (to_string_piece b).1, retrieve_all b)
    else (dropped, b)
client_heard server_addr (b, saved_errno e) = (dropped, b)

pub client_handle_read : InetAddress → Buffer → Readv → Option (Delivery × Buffer)
client_handle_read server_addr b r =
    read_fd b r >>= λ result. some (client_heard server_addr result)

-- If the buffer is valid and empty and can take the bytes, a datagram with bytes, and fewer than 2^31,
-- is passed on whole, with its size and the address of the server, and the buffer is valid and empty again and has grown by no more.
pub client_handle_read_lem :
    (server_addr : InetAddress) (b : Buffer) (bytes : List ℕ)
    → IsValid b
    → content b ≡ []
    → length b.buffer + length bytes ≤ max_size
    → 0 < length bytes
    → length bytes < 2 ^ 31
    → (b' : Buffer) × (client_handle_read server_addr b (got bytes)
        ≡ some (delivered server_addr bytes (length bytes), b'))
      × IsValid b'
      × (content b' ≡ [])
      × (length b'.buffer ≤ length b.buffer + length bytes)
unfolding client_handle_read retrieve_all to_string_piece
client_handle_read_lem server_addr b bytes v empty fits some_bytes small =
    let (b₁, e, appended) = read_fd_lem b bytes v fits in
    let text : content b₁ ≡ bytes = appended.bytes_in ∙ ap (λ text. text ++ bytes) empty in
    let size : readable_bytes b₁ % 2 ^ 32 ≡ length bytes =
      omega (arith, readable-content appended.valid, ap length text, small) in
    (
      retrieve_all b₁,
      ap (λ o. o >>= λ result. some (client_heard server_addr result)) e
          ∙ ap
              (λ t. some (
                if t
                then (
                  delivered server_addr (to_string_piece b₁).0 (to_string_piece b₁).1,
                  retrieve_all b₁,
                )
                else (dropped, b₁)))
              (lt→ltb 0 (length bytes) some_bytes)
          ∙ ap₂ (λ text n. some (delivered server_addr text n, retrieve_all b₁)) text size,
      retrieve_all-IsValid appended.valid,
      content-retrieve_all b₁,
      appended.size,
    )

-- Datagrams one after the other.
pub hear_all : InetAddress → Buffer → List (List ℕ) → Option (List Delivery × Buffer)
hear_all server_addr b [] = some ([], b)
hear_all server_addr b (d ∷ ds) = client_handle_read server_addr b (got d) >>= λ r.
    hear_all server_addr r.1 ds >>= λ q. some (r.0 ∷ q.0, q.1)

abbrev pub total : List (List ℕ) → ℕ
total [] = 0
total (d ∷ ds) = length d + total ds

-- A size that an `int` holds, and bytes at all.
abbrev pub HaveSizes : List (List ℕ) → Type 0
HaveSizes [] = Unit
HaveSizes (d ∷ ds) = (0 < length d) × (length d < 2 ^ 31) × HaveSizes ds

abbrev pub deliveries : InetAddress → List (List ℕ) → List Delivery
deliveries server_addr [] = []
deliveries server_addr (d ∷ ds) = delivered server_addr d (length d) ∷ deliveries server_addr ds
