-- ===== src/InetAddress/Texts.antt =====
-- src/communication/net/InetAddress.cpp: the texts of an address.
use toy_basket.Prelude.{
  ℕ, ◌-◌, ◌≤◌, ◌<◌, List, [], ◌∷◌, ◌++◌, length, drop, slice, overwrite, replicate, Bool, true,
  false, if◌then◌else◌, ◌==◌, ltb, Option, some, check, ◌>>◌, ◌≡◌, refl, sym, ap, ◌∙◌, arith,
  length-append, length-take, length-drop, length-replicate, lt→ltb, subst,
}
use toy_basket.InetAddress.{
  InetAddress, c_str, strncpy, snprintf, empty_buf, printed, address, to_string, family, af_unix,
  af_inet, af_inet6, swap_short, short_at,
}
use toy_basket.InetAddress.Strings.{
  IsText, overwrite_split, c_str-zero, c_str-c_str, length-c_str, written, c_str-written,
  snprintf_whole,
}

pub length-strncpy : (n : ℕ) (text : List ℕ) → length (strncpy n text) ≡ n
length-strncpy n text = omega (
  arith,
  length-take n (c_str text ++ replicate n 0),
  length-append (c_str text) (replicate n 0),
  length-replicate {A = ℕ} n 0,
)

-- The texts of the system: an address has at most 45 bytes, a port at most five.
pub record Prints (inet_ntop : ℕ → List ℕ → List ℕ) (decimal : ℕ → List ℕ) : Type 0 where
  pub address_text : (af : ℕ) (bytes : List ℕ) → IsText 45 (inet_ntop af bytes)
  pub port_text : (port : ℕ) → port < 65536 → IsText 5 (decimal port)

-- A path copied into the buffer is followed by a zero.
pub c_str_path : (ys : List ℕ) → length ys ≡ 108 → c_str (overwrite empty_buf 0 ys) ≡ c_str ys
c_str_path ys e =
    ap c_str (overwrite_split [] ys empty_buf (omega (arith, e)))
    ∙ ap (λ n. c_str (ys ++ drop n empty_buf)) e
    ∙ c_str-zero ys (replicate 19 0)

module _ (inet_ntop : ℕ → List ℕ → List ℕ) (decimal : ℕ → List ℕ)
    (prints : Prints inet_ntop decimal) (m : InetAddress) where
  pub c_str-printed :
      (af : ℕ) (bytes : List ℕ) → c_str (printed inet_ntop af bytes) ≡ inet_ntop af bytes
  c_str-printed af bytes =
      let text : List ℕ = inet_ntop af bytes in
      let (ends, short) = prints.address_text af bytes in
      ap (λ b. c_str (if b then overwrite empty_buf 0 (text ++ 0 ∷ []) else empty_buf))
        (lt→ltb (length text) 128 (omega (arith, short)))
      ∙ c_str-written [] text empty_buf refl ends (omega (arith, short))

  -- The branches of `address`, with the tests decided.
  abbrev buf_of : Bool → Bool → Bool → List ℕ
  buf_of v4 v6 local =
      if v4
      then printed inet_ntop af_inet (slice 4 4 m)
      else if v6
      then printed inet_ntop af_inet6 (slice 8 16 m)
      else if local
      then overwrite empty_buf 0 (strncpy 108 (slice 2 108 m))
      else empty_buf

  length_branch : (v4 v6 local : Bool) → length (c_str (buf_of v4 v6 local)) ≤ 108
  length_branch true v6 local =
      subst (λ t. length t ≤ 108) (sym (c_str-printed af_inet (slice 4 4 m)))
        (omega (arith, (prints.address_text af_inet (slice 4 4 m)).1))
  length_branch false true local =
      subst (λ t. length t ≤ 108) (sym (c_str-printed af_inet6 (slice 8 16 m)))
        (omega (arith, (prints.address_text af_inet6 (slice 8 16 m)).1))
  length_branch false false true =
      let path : List ℕ = strncpy 108 (slice 2 108 m) in
      let size : length path ≡ 108 = length-strncpy 108 (slice 2 108 m) in
      subst (λ t. length t ≤ 108) (sym (c_str_path path size))
        (omega (arith, length-c_str path, size))
  length_branch false false false = omega arith

  address-IsText : IsText 108 (address inet_ntop m)
  unfolding address
  address-IsText =
      let v4 : Bool = family m == af_inet in
      let v6 : Bool = family m == af_inet6 in
      let local : Bool = family m == af_unix in
      (c_str-c_str (buf_of v4 v6 local), length_branch v4 v6 local)

  abbrev tail_of : List ℕ
  tail_of = b':' ∷ decimal (swap_short (short_at 2 m))

  -- `toString` from its buffer and the text in it.
  abbrev with_port : List ℕ → List ℕ → Bool → Option (List ℕ)
  with_port buf text local =
      if local
      then some text
      else check (ltb (length text) 128)
        >> some (c_str (overwrite buf (length text) (snprintf (128 - length text) tail_of)))

  with_port_lem :
      (text rest : List ℕ) (local : Bool)
      → IsText 108 text
      → 6 < length rest
      → with_port (text ++ rest) text local ≡ some (if local then text else text ++ tail_of)
  with_port_lem text rest true h room = refl
  with_port_lem text rest false (ends, short) room =
      let (port_ends, port_short) = prints.port_text (swap_short (short_at 2 m)) (omega arith) in
      ap
        (λ b.
          check b
          >> some (
              c_str
                (overwrite (text ++ rest) (length text) (snprintf (128 - length text) tail_of))))
        (lt→ltb (length text) 128 (omega (arith, short)))
      ∙ ap (λ w. some (c_str (overwrite (text ++ rest) (length text) w)))
          (snprintf_whole (128 - length text) tail_of (omega (arith, short, port_short)))
      ∙ ap some (
          c_str-written text tail_of rest ends (ap (◌∷◌ b':') port_ends)
            (omega (arith, room, port_short)))

  -- If the texts that `inet_ntop` and `snprintf` make of addresses and ports have no zero and at most
  -- 45 and 5 bytes, toString of any address fails no assertion and cuts nothing off: it is the path of
  -- a Unix domain socket, or the whole address, a colon and the whole port.
  pub to_string_lem :
      to_string inet_ntop decimal m
      ≡ some (
          if family m == af_unix
          then address inet_ntop m
          else address inet_ntop m ++ b':' ∷ decimal (swap_short (short_at 2 m)))
  unfolding to_string
  to_string_lem =
      let text : List ℕ = address inet_ntop m in
      let local : Bool = family m == af_unix in
      let (ends, short) = address-IsText in
      let rest : List ℕ = 0 ∷ drop (length (text ++ 0 ∷ [])) empty_buf in
      let in_buf : overwrite empty_buf 0 (snprintf 128 (c_str text)) ≡ text ++ rest =
        ap (λ t. overwrite empty_buf 0 (snprintf 128 t)) ends
        ∙ ap (overwrite empty_buf 0) (snprintf_whole 128 text (omega (arith, short)))
        ∙ written [] text empty_buf (omega (arith, short)) in
      ap (λ buf. with_port buf (c_str buf) local) in_buf
      ∙ ap (λ t. with_port (text ++ rest) t local)
          (c_str-zero text (drop (length (text ++ 0 ∷ [])) empty_buf) ∙ ends)
      ∙ with_port_lem text rest local (ends, short)
          (omega (
            arith,
            short,
            length-drop (length (text ++ 0 ∷ [])) empty_buf,
            length-append text (0 ∷ []),
          ))
