-- ===== src/InetAddress/Paths.antt =====
-- src/communication/net/InetAddress.cpp: the path of a Unix domain socket.
use toy_basket.Prelude.{
  ℕ, List, [], ◌∷◌, ◌++◌, length, take, drop, slice, overwrite, replicate, some, none,
  if◌then◌else◌, ◌==◌, ◌≡◌, refl, sym, ap, ap₂, ◌∙◌, arith, length-take, take_of_length, slice-add,
  slice-overwrite_self, slice-overwrite_after, drop-slice,
}
use toy_basket.InetAddress.{
  c_str, strncpy, empty_buf, address, family, zeroed, from_path, get_sock_len, to_port,
  port_net_endian, size_of_inet_address, short_bytes, af_inet, af_inet6, af_unix, printed,
}
use toy_basket.InetAddress.Fields.{short_at-overwrite_before, length-zeroed, family-zeroed}
use toy_basket.InetAddress.Strings.{c_str-zero, c_str-take}
use toy_basket.InetAddress.Texts.{length-strncpy, c_str_path}

module _ (m path : List ℕ) (size : length m ≡ size_of_inet_address) where
  family-from_path : family (from_path m path) ≡ af_unix
  unfolding from_path family
  family-from_path =
      short_at-overwrite_before (zeroed 110 1 m) 0 2 (strncpy 107 path) (omega arith)
      ∙ family-zeroed 110 1 m (omega (arith, size)) (omega arith)

  -- The byte behind the longest path.
  last_zero : slice 109 1 (from_path m path) ≡ 0 ∷ []
  unfolding from_path zeroed
  last_zero =
      let zeros : List ℕ = replicate 110 0 in
      slice-overwrite_after 109 1 (zeroed 110 1 m) 2 (strncpy 107 path)
        (omega (arith, length-strncpy 107 path))
      ∙ slice-overwrite_after 109 1 (overwrite m 0 zeros) 0 (short_bytes 1) (omega arith)
      ∙ sym (drop-slice 109 0 110 (overwrite m 0 zeros))
      ∙ ap (drop 109) (slice-overwrite_self m 0 zeros (omega (arith, size)))

  whole_path : slice 2 107 (from_path m path) ≡ strncpy 107 path
  unfolding from_path
  whole_path =
      let held : List ℕ = strncpy 107 path in
      ap (λ n. slice 2 n (overwrite (zeroed 110 1 m) 2 held)) (sym (length-strncpy 107 path))
      ∙ slice-overwrite_self (zeroed 110 1 m) 2 held
          (omega (arith, size, length-strncpy 107 path, length-zeroed 110 1 m))

  stored_path : slice 2 108 (from_path m path) ≡ strncpy 107 path ++ 0 ∷ []
  stored_path = slice-add 2 107 1 (from_path m path) ∙ ap₂ (λ xs ys. xs ++ ys) whole_path last_zero

  read_path : c_str (strncpy 108 (slice 2 108 (from_path m path))) ≡ take 107 (c_str path)
  read_path =
      c_str-take 108 108 (slice 2 108 (from_path m path)) (omega arith)
      ∙ ap (λ text. take 108 (c_str text)) stored_path
      ∙ ap (take 108) (c_str-zero (strncpy 107 path) [] ∙ c_str-take 107 107 path (omega arith))
      ∙ take_of_length 108 (take 107 (c_str path)) (omega (arith, length-take 107 (c_str path)))

  -- The buffer that `address` fills for a family.
  abbrev of_family : (ℕ → List ℕ → List ℕ) → ℕ → List ℕ
  of_family inet_ntop f =
      if f == af_inet
      then printed inet_ntop af_inet (slice 4 4 (from_path m path))
      else if f == af_inet6
      then printed inet_ntop af_inet6 (slice 8 16 (from_path m path))
      else if f == af_unix
      then overwrite empty_buf 0 (strncpy 108 (slice 2 108 (from_path m path)))
      else empty_buf

  -- Whatever the memory of the address held, an address of a Unix domain socket has the length of its
  -- structure and no port, and its text is the path up to its first zero, of which the first 107 bytes
  -- are kept.
  pub from_path_lem :
      (inet_ntop : ℕ → List ℕ → List ℕ)
      → (address inet_ntop (from_path m path) ≡ take 107 (c_str path))
        × (get_sock_len (from_path m path) ≡ some 110)
        × (to_port (from_path m path) ≡ none)
  unfolding address get_sock_len to_port port_net_endian
  from_path_lem inet_ntop = (
    ap (λ f. c_str (of_family inet_ntop f)) family-from_path
        ∙ c_str_path (strncpy 108 (slice 2 108 (from_path m path)))
            (length-strncpy 108 (slice 2 108 (from_path m path)))
        ∙ read_path,
    rw family-from_path refl,
    rw family-from_path refl,
  )
