-- ===== src/Datagram.antt =====
-- src/communication/net/DgramServer.cpp, DgramClient.cpp and UdpMultiCastListener.cpp: sockets that
-- receive datagrams, with the channel of each in the poller; and `recvfrom` of Socket.cpp, which the
-- last one uses.
mod Calls
mod Client
mod Receive
mod Tests
use toy_basket.Prelude.{
  ℕ, zero, suc, ◌-◌, ◌^◌, List, [], ◌∷◌, ◌++◌, length, take, overwrite, replicate, Bool, true,
  false, not, ltb, leb, ◌==◌, if◌then◌else◌, Option, none, some, check, ◌>>=◌, ◌>>◌, max_size,
  msg_buf_size,
}
use toy_basket.Poller.{Epoll, Loop, enable_reading, disable_all, remove}
use toy_basket.InetAddress.{InetAddress, from_sockaddr, set_sock_addr}

-- The calls that a program makes, the destructor among the latter.
pub data ServerCall : Type 0 where
  starts : ServerCall
  stops : ServerCall

module _ (k : Epoll) where
  -- A server with its channel `c`: `started_`, and the loop that it is in.
  pub record DgramServer : Type 0 where
    pub started : Bool
    pub loop : Loop k.State

  -- `disableAll` and `remove`: `stop` of a client and of a listener.
  pub stop_channel : Loop k.State → ℕ → Option (Loop k.State)
  stop_channel l c = disable_all k l c >>= λ l'. remove k l' c

  abbrev pub start : ℕ → DgramServer → Option DgramServer
  start c s =
      if s.started
      then some s
      else enable_reading k s.loop c >>= λ l. some (record { started = true; loop = l })

  abbrev pub stop : ℕ → DgramServer → Option DgramServer
  stop c s =
      if s.started
      then (stop_channel s.loop c >>= λ l. some (record { started = false; loop = l }))
      else some s

  pub serve_call : ℕ → ServerCall → DgramServer → Option DgramServer
  serve_call c starts s = start c s
  serve_call c stops s = stop c s

  pub serve_calls : ℕ → List ServerCall → DgramServer → Option DgramServer
  serve_calls c [] s = some s
  serve_calls c (a ∷ as') s = serve_call c a s >>= serve_calls c as'

  -- A client or a listener: the constructor enables its channel, and `stop` may be called any number
  -- of times, at last by the destructor.
  pub stop_times : ℕ → ℕ → Loop k.State → Option (Loop k.State)
  stop_times c zero l = some l
  stop_times c (suc n) l = stop_channel l c >>= stop_times c n

  pub open_and_stop : ℕ → ℕ → Loop k.State → Option (Loop k.State)
  open_and_stop c n l = enable_reading k l c >>= stop_times c n

-- What recvfrom(2) answers: -1, or a datagram and the bytes of the address of its sender.
pub data Datagram : Type 0 where
  failed : Datagram
  received : List ℕ → List ℕ → Datagram

-- The result as a `size_t`.
abbrev pub size_received : Datagram → ℕ
size_received failed = 2 ^ 64 - 1
size_received (received bytes sender) = length bytes

-- `recvfrom` into a piece of memory: the kernel writes the datagram to `buf` and at most 16 bytes of
-- the sender to a zeroed `sockaddr`, which is then copied with what lies behind it on the stack.
abbrev pub received_bytes : List ℕ → Datagram → List ℕ
received_bytes buf failed = buf
received_bytes buf (received bytes sender) = overwrite buf 0 bytes

abbrev pub peer_addr : Datagram → List ℕ
peer_addr failed = replicate 16 0
peer_addr (received bytes sender) = overwrite (replicate 16 0) 0 (take 16 sender)

pub recvfrom : List ℕ → Datagram → List ℕ → InetAddress → List ℕ × InetAddress
recvfrom stack d buf src =
    (received_bytes buf d, set_sock_addr src (take 110 (peer_addr d ++ stack)))

-- `recvfrom` into a string: `resize` throws if the size is too large for a string.
pub recvfrom_string : List ℕ → Datagram → InetAddress → Option (List ℕ × InetAddress)
recvfrom_string stack d src =
    check (leb (size_received d) max_size)
    >> some (
      take (size_received d) (recvfrom stack d (replicate msg_buf_size 0) src).0,
      (recvfrom stack d (replicate msg_buf_size 0) src).1,
    )

-- What a `handleRead` does besides writing to the log.
pub data Heard : Type 0 where
  nothing : Heard
  message : InetAddress → List ℕ → Heard

-- `UdpMultiCastListener::handleRead`; `peer` is the address that it declares.
abbrev pub heard : Datagram → InetAddress → List ℕ → Heard
heard failed src buf = nothing
heard (received bytes sender) src buf = if ltb 0 (length bytes) then message src buf else nothing

pub listener_handle_read : List ℕ → InetAddress → Datagram → Option Heard
listener_handle_read stack peer d = recvfrom_string stack d peer >>= λ r. some (heard d r.1 r.0)

-- `DgramServer::handleRead`: the sender goes to a zeroed `sockaddr_un`, and `m` is what the memory
-- of the address that is made of it held.
pub server_handle_read : List ℕ → List ℕ → Datagram → Heard
server_handle_read m buf failed = nothing
server_handle_read m buf (received bytes sender) =
    if ltb 0 (length bytes)
    then message (from_sockaddr m (overwrite (replicate 110 0) 0 (take 110 sender)))
        (take (length bytes) (overwrite buf 0 bytes))
    else nothing
