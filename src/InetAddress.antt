-- ===== src/InetAddress.antt =====
-- src/communication/net/InetAddress.cpp and InetAddress.h: socket addresses.
mod Fields
mod Ports
mod Strings
mod Texts
mod Paths
mod Resolve
mod Tests
use toy_basket.Prelude.{
  ℕ, ◌+◌, ◌*◌, ◌/◌, ◌%◌, ◌-◌, List, [], ◌∷◌, ◌++◌, length, take, slice, overwrite, replicate, Bool,
  true, false, not, ltb, ◌==◌, if◌then◌else◌, Option, none, some, check, ◌>>=◌, ◌>>◌, ◌^◌,
}

-- The union of the three socket addresses, as its bytes on a machine whose first byte is the lowest.
abbrev pub InetAddress : Type 0
InetAddress = List ℕ

abbrev pub size_of_inet_address : ℕ
size_of_inet_address = 112

abbrev pub af_unix : ℕ
af_unix = 1

abbrev pub af_inet : ℕ
af_inet = 2

abbrev pub af_inet6 : ℕ
af_inet6 = 10

-- `unsigned short` and `unsigned int` in memory, and the conversion of the former to network order.
abbrev pub short_bytes : ℕ → List ℕ
short_bytes v = (v % 256) ∷ (v / 256 % 256) ∷ []

abbrev pub short_of : List ℕ → ℕ
short_of [] = 0
short_of (a ∷ []) = a
short_of (a ∷ b ∷ bs) = a + 256 * b

abbrev pub short_at : ℕ → List ℕ → ℕ
short_at i m = short_of (slice i 2 m)

abbrev pub int_bytes : ℕ → List ℕ
int_bytes v = (v % 256) ∷ (v / 256 % 256) ∷ (v / 2 ^ 16 % 256) ∷ (v / 2 ^ 24 % 256) ∷ []

abbrev pub swap_short : ℕ → ℕ
swap_short v = v % 256 * 256 + v / 256 % 256

-- The bytes of a text before its first zero, and `strncpy` of `n` bytes.
abbrev pub c_str : List ℕ → List ℕ
c_str [] = []
c_str (b ∷ bs) = if b == 0 then [] else b ∷ c_str bs

abbrev pub strncpy : ℕ → List ℕ → List ℕ
strncpy n text = take n (c_str text ++ replicate n 0)

abbrev pub in_addr_any : List ℕ
in_addr_any = 0 ∷ 0 ∷ 0 ∷ 0 ∷ []

-- In network order.
abbrev pub in_addr_loopback : List ℕ
in_addr_loopback = 127 ∷ 0 ∷ 0 ∷ 1 ∷ []

abbrev pub in6addr_any : List ℕ
in6addr_any = replicate 16 0

abbrev pub in6addr_loopback : List ℕ
in6addr_loopback = replicate 15 0 ++ 1 ∷ []

-- `memset` of the member of the union that the family stands for, and `sin_family`. The bytes
-- behind it keep what the memory `m` held.
pub zeroed : ℕ → ℕ → List ℕ → InetAddress
zeroed size family m = overwrite (overwrite m 0 (replicate size 0)) 0 (short_bytes family)

-- The constructor from a port.
pub from_port : List ℕ → ℕ → Bool → Bool → InetAddress
from_port m port loopback_only true =
    overwrite
      (overwrite (zeroed 28 af_inet6 m) 8 (if loopback_only then in6addr_loopback else in6addr_any))
      2 (short_bytes (swap_short port))
from_port m port loopback_only false =
    overwrite
      (overwrite (zeroed 16 af_inet m) 4 (if loopback_only then in_addr_loopback else in_addr_any))
      2 (short_bytes (swap_short port))

-- What `inet_pton` stores; on an error the constructor only logs.
abbrev pub stored : InetAddress → ℕ → Option (List ℕ) → InetAddress
stored m i none = m
stored m i (some bytes) = overwrite m i bytes

-- The constructor from a text and a port; `inet_pton` is a parameter.
pub from_ip : (ℕ → List ℕ → Option (List ℕ)) → List ℕ → List ℕ → ℕ → Bool → InetAddress
from_ip inet_pton m ip port true =
    stored (overwrite (zeroed 28 af_inet6 m) 2 (short_bytes (swap_short port))) 8
      (inet_pton af_inet6 (c_str ip))
from_ip inet_pton m ip port false =
    stored (overwrite (zeroed 16 af_inet m) 2 (short_bytes (swap_short port))) 4
      (inet_pton af_inet (c_str ip))

-- The constructors from the path of a Unix domain socket.
pub from_path : List ℕ → List ℕ → InetAddress
from_path m un_domain = overwrite (zeroed 110 af_unix m) 2 (strncpy 107 un_domain)

-- The constructors from a system address, which is copied into its member of the union; and
-- `setSockAddr`.
pub from_sockaddr : List ℕ → List ℕ → InetAddress
from_sockaddr m addr = overwrite m 0 addr

unfoldable pub set_sock_addr : InetAddress → List ℕ → InetAddress
set_sock_addr m addr = overwrite m 0 addr

pub family : InetAddress → ℕ
family m = short_at 0 m

pub get_sock_len : InetAddress → Option ℕ
get_sock_len m =
    if family m == af_inet
    then some 16
    else if family m == af_inet6
    then some 28
    else if family m == af_unix
    then some 110
    else none

-- An array `char buf[128] = ""`.
abbrev pub empty_buf : List ℕ
empty_buf = replicate 128 0

-- What `snprintf` writes of a text into `n` bytes.
abbrev pub snprintf : ℕ → List ℕ → List ℕ
snprintf n text = take (n - 1) text ++ 0 ∷ []

-- `inet_ntop` is a parameter: the text for a family and the bytes of an address.
module _ (inet_ntop : ℕ → List ℕ → List ℕ) where
  -- `address` before it returns the buffer: `inet_ntop` writes nothing that does not fit.
  abbrev pub printed : ℕ → List ℕ → List ℕ
  printed af bytes =
      if ltb (length (inet_ntop af bytes)) 128
      then overwrite empty_buf 0 (inet_ntop af bytes ++ 0 ∷ [])
      else empty_buf

  pub address : InetAddress → List ℕ
  address m = c_str (
      if family m == af_inet
      then printed af_inet (slice 4 4 m)
      else if family m == af_inet6
      then printed af_inet6 (slice 8 16 m)
      else if family m == af_unix
      then overwrite empty_buf 0 (strncpy 108 (slice 2 108 m))
      else empty_buf)

  -- `toString`; the text that `snprintf` makes of a number is the parameter `decimal`.
  pub to_string : (ℕ → List ℕ) → InetAddress → Option (List ℕ)
  to_string decimal m =
      let buf = overwrite empty_buf 0 (snprintf 128 (c_str (address m))) in
      if family m == af_unix
      then some (c_str buf)
      else check (ltb (length (c_str buf)) 128)
        >> some (
            c_str (
              overwrite buf (length (c_str buf))
                (snprintf (128 - length (c_str buf)) (b':' ∷ decimal (swap_short (short_at 2 m))))))

-- The bytes of `sin_addr`.
pub ip_net_endian : InetAddress → Option (List ℕ)
ip_net_endian m = check (family m == af_inet) >> some (slice 4 4 m)

pub port_net_endian : InetAddress → Option ℕ
port_net_endian m = check (not (family m == af_unix)) >> some (short_at 2 m)

pub to_port : InetAddress → Option ℕ
to_port m = port_net_endian m >>= λ port. some (swap_short port)

-- What `gethostbyname_r` found.
pub record HostEntry : Type 0 where
  pub h_addrtype : ℕ
  pub h_addr : List ℕ

-- `resolve`, with the entry found: whether it succeeds, and what it leaves in `*out`.
pub resolve : Option HostEntry → InetAddress → Option (Bool × InetAddress)
resolve none out = some (false, out)
resolve (some he) out =
    if he.h_addrtype == af_inet
    then check (length he.h_addr == 4) >> some (true, overwrite out 4 he.h_addr)
    else if he.h_addrtype == af_inet6
    then check (length he.h_addr == 16) >> some (true, overwrite out 8 he.h_addr)
    else none

pub set_scope_id : InetAddress → ℕ → InetAddress
set_scope_id m scope_id = if family m == af_inet6 then overwrite m 24 (int_bytes scope_id) else m
