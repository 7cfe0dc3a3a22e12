-- ===== src/InetAddress/Tests.antt =====
-- Addresses of one port and one path, on memory that held something else.
use toy_basket.Prelude.{
  ℕ, ◌+◌, ◌/◌, ◌%◌, ◌<◌, List, [], ◌∷◌, ◌++◌, replicate, slice, Bool, true, false, Option, some,
  none, if◌then◌else◌, ◌==◌, ◌≡◌, refl, ap, ◌∙◌, inr, arith,
}
use toy_basket.InetAddress.{
  InetAddress, from_port, from_ip, from_path, address, to_string, to_port, get_sock_len, resolve,
  HostEntry, ip_net_endian, family, zeroed, c_str, swap_short, short_at, af_unix, af_inet,
}
use toy_basket.InetAddress.Ports.{Shows, Reaches, to_port_lem}
use toy_basket.InetAddress.Strings.{IsText}
use toy_basket.InetAddress.Texts.{Prints, to_string_lem}
use toy_basket.InetAddress.Paths.{from_path_lem}
use toy_basket.InetAddress.Resolve.{resolve_lem, ip_after}

abbrev memory : List ℕ
memory = replicate 112 170

abbrev loopback : List ℕ
loopback = b'1' ∷ b'2' ∷ b'7' ∷ b'.' ∷ b'1' ∷ []

abbrev inet_pton : ℕ → List ℕ → Option (List ℕ)
inet_pton af text = if af == 2 then some (127 ∷ 0 ∷ 0 ∷ 1 ∷ []) else none

abbrev inet_ntop : ℕ → List ℕ → List ℕ
inet_ntop af bytes = if af == 2 then loopback else b':' ∷ b':' ∷ []

-- The port in five digits.
abbrev decimal : ℕ → List ℕ
decimal port =
    (48 + port / 10000 % 10)
    ∷ (48 + port / 1000 % 10)
    ∷ (48 + port / 100 % 10)
    ∷ (48 + port / 10 % 10)
    ∷ (48 + port % 10)
    ∷ []

c_str-cons : (x : ℕ) (xs : List ℕ) → 0 < x → c_str xs ≡ xs → c_str (x ∷ xs) ≡ x ∷ xs
c_str-cons x xs h e =
    let no : (x == 0) ≡ false = ground arith in
    ap (λ b. if b then [] else x ∷ c_str xs) no ∙ ap (◌∷◌ x) e

inet_ntop-IsText : (v4 : Bool) → IsText 45 (if v4 then loopback else b':' ∷ b':' ∷ [])
inet_ntop-IsText true = (refl, omega arith)
inet_ntop-IsText false = (refl, omega arith)

prints : Prints inet_ntop decimal
prints = record {
  address_text = λ af bytes. inet_ntop-IsText (af == 2);
  port_text = λ port h. (
    c_str-cons (48 + port / 10000 % 10) _ (omega arith) (
        c_str-cons (48 + port / 1000 % 10) _ (omega arith) (
          c_str-cons (48 + port / 100 % 10) _ (omega arith) (
            c_str-cons (48 + port / 10 % 10) _ (omega arith)
              (c_str-cons (48 + port % 10) [] (omega arith) refl)))),
    omega arith,
  );
}

to_port_lem_example :
    Shows true 8080 (from_port memory 8080 false true)
    × Shows true 8080 (from_ip inet_pton memory loopback 8080 true)
to_port_lem_example = to_port_lem inet_pton memory loopback 8080 false true refl (omega arith)

to_string_lem_example :
    to_string inet_ntop decimal (from_port memory 80 true false)
    ≡ some (
        if family (from_port memory 80 true false) == af_unix
        then address inet_ntop (from_port memory 80 true false)
        else address inet_ntop (from_port memory 80 true false)
          ++ b':' ∷ decimal (swap_short (short_at 2 (from_port memory 80 true false))))
to_string_lem_example = to_string_lem inet_ntop decimal prints (from_port memory 80 true false)

-- The text itself.
to_string-loopback :
    to_string inet_ntop decimal (from_port memory 80 true false)
    ≡ some (loopback ++ b':' ∷ b'0' ∷ b'0' ∷ b'0' ∷ b'8' ∷ b'0' ∷ [])
unfolding to_string address from_port family zeroed
to_string-loopback = refl

from_path_lem_example :
    (address inet_ntop (from_path memory (b'/' ∷ b's' ∷ [])) ≡ b'/' ∷ b's' ∷ [])
    × (get_sock_len (from_path memory (b'/' ∷ b's' ∷ [])) ≡ some 110)
    × (to_port (from_path memory (b'/' ∷ b's' ∷ [])) ≡ none)
from_path_lem_example = from_path_lem memory (b'/' ∷ b's' ∷ []) refl inet_ntop

abbrev sixth : HostEntry
sixth = record { h_addrtype = 10; h_addr = replicate 16 7 }

resolve_lem_example :
    (out' : InetAddress) × (resolve (some sixth) (from_port memory 80 true false)
      ≡ some (true, out'))
    × Reaches af_inet 80 out'
    × (ip_net_endian out' ≡ some (ip_after sixth (slice 4 4 (from_port memory 80 true false))))
unfolding from_port family zeroed
resolve_lem_example =
    resolve_lem (from_port memory 80 true false) 80 refl (refl, refl) sixth (inr (refl, refl))
