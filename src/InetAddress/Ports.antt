-- ===== src/InetAddress/Ports.antt =====
-- src/communication/net/InetAddress.cpp: the family and the port of an address.
use toy_basket.Prelude.{
  ℕ, ◌≤◌, ◌<◌, List, length, overwrite, Bool, true, false, Option, some, none, if◌then◌else◌, ◌≡◌,
  refl, ap, ◌∙◌, arith, length-overwrite,
}
use toy_basket.InetAddress.{
  InetAddress, short_bytes, short_at, swap_short, zeroed, family, size_of_inet_address, from_port,
  from_ip, get_sock_len, to_port, port_net_endian, in_addr_any, in_addr_loopback, in6addr_any,
  in6addr_loopback, stored, c_str, af_inet, af_inet6,
}
use toy_basket.InetAddress.Fields.{
  swap_short-swap_short, short_at-overwrite_self, short_at-overwrite_before, length-zeroed,
  family-zeroed,
}

-- An address of a family with a port.
abbrev pub Reaches : ℕ → ℕ → InetAddress → Type 0
Reaches af port m = (family m ≡ af) × (swap_short (short_at 2 m) ≡ port)

-- What stands behind the port does not touch it.
pub Reaches-overwrite :
    (af port : ℕ) (m : InetAddress) (i : ℕ) (ys : List ℕ)
    → 4 ≤ i
    → Reaches af port m
    → Reaches af port (overwrite m i ys)
unfolding family
Reaches-overwrite af port m i ys h (e, f) = (
  short_at-overwrite_before m 0 i ys (omega (arith, h)) ∙ e,
  ap swap_short (short_at-overwrite_before m 2 i ys h) ∙ f,
)

Reaches-stored :
    (af port : ℕ) (m : InetAddress) (i : ℕ) (bytes : Option (List ℕ))
    → 4 ≤ i
    → Reaches af port m
    → Reaches af port (stored m i bytes)
Reaches-stored af port m i none h r = r
Reaches-stored af port m i (some bytes) h r = Reaches-overwrite af port m i bytes h r

-- The port set in an address that has the family.
port_set :
    (af port : ℕ) (m : InetAddress)
    → port < 65536
    → 4 ≤ length m
    → family m ≡ af
    → Reaches af port (overwrite m 2 (short_bytes (swap_short port)))
unfolding family
port_set af port m small room e = (
  short_at-overwrite_before m 0 2 (short_bytes (swap_short port)) (omega arith) ∙ e,
  ap swap_short (short_at-overwrite_self m 2 (swap_short port) room)
      ∙ swap_short-swap_short port small,
)

-- A zeroed member of the union, with bytes behind the port, and then the port.
address_then_port :
    (size af port : ℕ) (m : List ℕ) (i : ℕ) (ys : List ℕ)
    → af < 65536
    → port < 65536
    → 4 ≤ length m
    → 4 ≤ i
    → Reaches af port
        (overwrite (overwrite (zeroed size af m) i ys) 2 (short_bytes (swap_short port)))
unfolding family
address_then_port size af port m i ys af_small small room behind =
    port_set af port (overwrite (zeroed size af m) i ys) small
      (omega (arith, room, length-overwrite (zeroed size af m) i ys, length-zeroed size af m))
      (short_at-overwrite_before (zeroed size af m) 0 i ys (omega (arith, behind))
        ∙ family-zeroed size af m (omega (arith, room)) af_small)

-- What the accessors say of such an address.
abbrev family_of : Bool → ℕ
family_of ipv6 = if ipv6 then 10 else 2

abbrev sock_len_of : Bool → ℕ
sock_len_of ipv6 = if ipv6 then 28 else 16

abbrev pub Shows : Bool → ℕ → InetAddress → Type 0
Shows ipv6 port m =
    (family m ≡ family_of ipv6)
    × (get_sock_len m ≡ some (sock_len_of ipv6))
    × (to_port m ≡ some port)

Reaches-Shows :
    (ipv6 : Bool) (port : ℕ) (m : InetAddress) → Reaches (family_of ipv6) port m → Shows ipv6 port m
unfolding get_sock_len to_port port_net_endian
Reaches-Shows true port m (e, f) = (e, rw e refl, rw e (ap some f))
Reaches-Shows false port m (e, f) = (e, rw e refl, rw e (ap some f))

from_port-Reaches :
    (m : List ℕ) (port : ℕ) (loopback_only ipv6 : Bool)
    → length m ≡ size_of_inet_address
    → port < 65536
    → Reaches (family_of ipv6) port (from_port m port loopback_only ipv6)
unfolding from_port
from_port-Reaches m port loopback_only true size small =
    address_then_port 28 10 port m 8 (if loopback_only then in6addr_loopback else in6addr_any)
      (omega arith) small (omega (arith, size)) (omega arith)
from_port-Reaches m port loopback_only false size small =
    address_then_port 16 2 port m 4 (if loopback_only then in_addr_loopback else in_addr_any)
      (omega arith) small (omega (arith, size)) (omega arith)

from_ip-Reaches :
    (inet_pton : ℕ → List ℕ → Option (List ℕ)) (m ip : List ℕ) (port : ℕ) (ipv6 : Bool)
    → length m ≡ size_of_inet_address
    → port < 65536
    → Reaches (family_of ipv6) port (from_ip inet_pton m ip port ipv6)
unfolding from_ip
from_ip-Reaches inet_pton m ip port true size small =
    Reaches-stored 10 port _ 8 (inet_pton af_inet6 (c_str ip)) (omega arith) (
      port_set 10 port (zeroed 28 10 m) small (omega (arith, size, length-zeroed 28 10 m))
        (family-zeroed 28 10 m (omega (arith, size)) (omega arith)))
from_ip-Reaches inet_pton m ip port false size small =
    Reaches-stored 2 port _ 4 (inet_pton af_inet (c_str ip)) (omega arith) (
      port_set 2 port (zeroed 16 2 m) small (omega (arith, size, length-zeroed 16 2 m))
        (family-zeroed 16 2 m (omega (arith, size)) (omega arith)))

-- Whatever the memory of the address held and whatever `inet_pton` answers, an address that either
-- constructor makes of a 16-bit port is of the family asked for, has the length of that family's
-- structure, and toPort gives the port back.
pub to_port_lem :
    (inet_pton : ℕ → List ℕ → Option (List ℕ)) (m ip : List ℕ) (port : ℕ)
    (loopback_only ipv6 : Bool)
    → length m ≡ size_of_inet_address
    → port < 65536
    → Shows ipv6 port (from_port m port loopback_only ipv6)
      × Shows ipv6 port (from_ip inet_pton m ip port ipv6)
to_port_lem inet_pton m ip port loopback_only ipv6 size small = (
  Reaches-Shows ipv6 port _ (from_port-Reaches m port loopback_only ipv6 size small),
  Reaches-Shows ipv6 port _ (from_ip-Reaches inet_pton m ip port ipv6 size small),
)
