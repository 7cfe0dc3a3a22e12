-- ===== src/InetAddress/Resolve.antt =====
-- src/communication/net/InetAddress.cpp: `resolve` on an IPv4 address.
use toy_basket.Prelude.{
  ℕ, List, length, slice, overwrite, Bool, true, false, check, ◌==◌, Option, some, none, ◌>>◌,
  if◌then◌else◌, ◌≡◌, ◌⊎◌, inl, inr, refl, sym, ap, ◌∙◌, arith, slice-overwrite_self,
  slice-overwrite_before,
}
use toy_basket.InetAddress.{
  InetAddress, af_inet, af_inet6, ip_net_endian, HostEntry, resolve, size_of_inet_address,
}
use toy_basket.InetAddress.Ports.{Reaches, Reaches-overwrite}

-- What `gethostbyname_r` may answer: an address of either family, with its length.
abbrev pub IsEntry : HostEntry → Type 0
IsEntry he =
    ((he.h_addrtype ≡ af_inet) × (length he.h_addr ≡ 4))
    ⊎ ((he.h_addrtype ≡ af_inet6) × (length he.h_addr ≡ 16))

-- The IPv4 address that is meant after an entry was found.
abbrev pub ip_after : HostEntry → List ℕ → List ℕ
ip_after he ip = if he.h_addrtype == af_inet then he.h_addr else ip

same : (a b : ℕ) → a ≡ b → (a == b) ≡ true
same a b e = ground arith

other : (a : ℕ) → a ≡ 10 → (a == 2) ≡ false
other a e = ground arith

-- `out` is an address that `from_port` or `from_ip` made, of the family IPv4.
module _ (out : InetAddress) (port : ℕ) (size : length out ≡ size_of_inet_address)
    (reaches : Reaches af_inet port out) where
  ip_of : (m : InetAddress) → Reaches af_inet port m → ip_net_endian m ≡ some (slice 4 4 m)
  unfolding ip_net_endian
  ip_of m (e, f) = rw e refl

  abbrev branch6 : HostEntry → Option (Bool × InetAddress)
  branch6 he =
      if he.h_addrtype == af_inet6
      then check (length he.h_addr == 16) >> some (true, overwrite out 8 he.h_addr)
      else none

  -- On an IPv4 address, whatever entry of either family is found, resolve succeeds and keeps the
  -- family and the port. An entry of that family becomes the address; an IPv6 entry leaves it as it
  -- was, and the caller is told of success.
  pub resolve_lem :
      (he : HostEntry)
      → IsEntry he
      → (out' : InetAddress) × (resolve (some he) out ≡ some (true, out'))
        × Reaches af_inet port out'
        × (ip_net_endian out' ≡ some (ip_after he (slice 4 4 out)))
  unfolding resolve
  resolve_lem he (inl (e, n)) =
      let out' : InetAddress = overwrite out 4 he.h_addr in
      let kept : Reaches af_inet port out' =
        Reaches-overwrite af_inet port out 4 he.h_addr (omega arith) reaches in
      (
        out',
        ap (λ b. if b then (check (length he.h_addr == 4) >> some (true, out')) else branch6 he)
              (same he.h_addrtype 2 e)
            ∙ ap (λ b. check b >> some (true, out')) (same (length he.h_addr) 4 n),
        kept,
        ip_of out' kept
            ∙ ap some (
                ap (λ n. slice 4 n out') (sym n)
                ∙ slice-overwrite_self out 4 he.h_addr (omega (arith, size, n))
                ∙ sym (ap (λ b. if b then he.h_addr else slice 4 4 out) (same he.h_addrtype 2 e))),
      )
  resolve_lem he (inr (e, n)) =
      let out' : InetAddress = overwrite out 8 he.h_addr in
      let branch : Bool → Option (Bool × InetAddress) = λ b.
        if b
        then (check (length he.h_addr == 4) >> some (true, overwrite out 4 he.h_addr))
        else branch6 he in
      let kept : Reaches af_inet port out' =
        Reaches-overwrite af_inet port out 8 he.h_addr (omega arith) reaches in
      (
        out',
        ap branch (other he.h_addrtype e)
            ∙ ap (λ b. if b then (check (length he.h_addr == 16) >> some (true, out')) else none)
                (same he.h_addrtype 10 e)
            ∙ ap (λ b. check b >> some (true, out')) (same (length he.h_addr) 16 n),
        kept,
        ip_of out' kept
            ∙ ap some (
                slice-overwrite_before 4 4 out 8 he.h_addr (omega arith)
                ∙ sym (ap (λ b. if b then he.h_addr else slice 4 4 out) (other he.h_addrtype e))),
      )
