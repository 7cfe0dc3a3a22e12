-- ===== src/Datagram/Receive.antt =====
-- src/communication/net/UdpMultiCastListener.cpp and Socket.cpp: what a listener hears.
use toy_basket.Prelude.{
  ℕ, ◌≤◌, ◌<◌, List, [], ◌++◌, length, take, drop, slice, overwrite, replicate, if◌then◌else◌,
  Option, none, some, check, ◌>>=◌, ◌>>◌, ◌≡◌, refl, sym, ap, ap₂, ◌∙◌, arith, take_of_length,
  length-replicate, length-append, length-take, le→leb, lt→ltb, max_size, msg_buf_size, take-take,
  drop-slice, drop-append_length, slice-overwrite_self, length-overwrite, take-append_length,
}
use toy_basket.InetAddress.{InetAddress, set_sock_addr, size_of_inet_address}
use toy_basket.Datagram.{
  failed, received, peer_addr, recvfrom, recvfrom_string, Heard, nothing, message, heard,
  listener_handle_read,
}

-- A datagram is in the buffer whole.
received_whole :
    (bytes : List ℕ)
    → length bytes ≤ msg_buf_size
    → take (length bytes) (overwrite (replicate msg_buf_size 0) 0 bytes) ≡ bytes
received_whole bytes h =
    slice-overwrite_self (replicate msg_buf_size 0) 0 bytes
      (omega (arith, h, length-replicate {A = ℕ} msg_buf_size 0))

module _ (sender stack : List ℕ) (known : 16 ≤ length sender) (behind : length stack ≡ 94) where
  length_kept : length (take 16 sender) ≡ 16
  length_kept = omega (arith, length-take 16 sender, known)

  -- The kernel fills the `sockaddr`.
  peer_filled : overwrite (replicate 16 0) 0 (take 16 sender) ≡ take 16 sender
  peer_filled =
      let size : length (overwrite (replicate 16 0) 0 (take 16 sender)) ≡ 16 =
        length-overwrite (replicate 16 0) 0 (take 16 sender) in
      sym (take_of_length 16 (overwrite (replicate 16 0) 0 (take 16 sender)) (omega (arith, size)))
      ∙ ap (λ n. take n (overwrite (replicate 16 0) 0 (take 16 sender))) (sym length_kept)
      ∙ slice-overwrite_self (replicate 16 0) 0 (take 16 sender) (omega (arith, length_kept))

  abbrev copied : List ℕ
  copied = take 16 sender ++ stack

  length-copied : length copied ≡ 110
  length-copied = omega (arith, length-append (take 16 sender) stack, length_kept, behind)

  copied_all : (bytes : List ℕ) → take 110 (peer_addr (received bytes sender) ++ stack) ≡ copied
  copied_all bytes =
      ap (λ p. take 110 (p ++ stack)) peer_filled
      ∙ take_of_length 110 copied (omega (arith, length-copied))

  module _ (peer : InetAddress) (size : length peer ≡ size_of_inet_address) where
    whole : slice 0 110 (overwrite peer 0 copied) ≡ copied
    whole =
        ap (λ n. slice 0 n (overwrite peer 0 copied)) (sym length-copied)
        ∙ slice-overwrite_self peer 0 copied (omega (arith, length-copied, size))

    sender_part : slice 0 16 (overwrite peer 0 copied) ≡ take 16 sender
    sender_part =
        sym (take-take 16 110 (overwrite peer 0 copied) (omega arith))
        ∙ ap (take 16) whole
        ∙ ap (λ n. take n copied) (sym length_kept)
        ∙ take-append_length (take 16 sender) stack

    stack_part : slice 16 94 (overwrite peer 0 copied) ≡ stack
    stack_part =
        sym (drop-slice 16 0 110 (overwrite peer 0 copied))
        ∙ ap (drop 16) whole
        ∙ ap (λ n. drop n copied) (sym length_kept)
        ∙ drop-append_length (take 16 sender) stack

    -- What handleRead of a listener does. If recvfrom fails, it throws, with whatever error code. A
    -- datagram without bytes is dropped. A datagram of up to 4096 bytes is passed on whole, with an
    -- address whose first 16 bytes are those of the sender's address, which is at least as long, and
    -- whose next 94 are what lay on the stack behind them.
    pub listener_lem :
        (bytes : List ℕ)
        → 0 < length bytes
        → length bytes ≤ msg_buf_size
        → (listener_handle_read stack peer failed ≡ none)
          × (listener_handle_read stack peer (received [] sender) ≡ some nothing)
          × ((src : InetAddress) × (listener_handle_read stack peer (received bytes sender)
                ≡ some (message src bytes))
              × (slice 0 16 src ≡ take 16 sender)
              × (slice 16 94 src ≡ stack))
    unfolding listener_handle_read recvfrom_string recvfrom set_sock_addr
    listener_lem bytes some_bytes fits =
        let passed : List ℕ → List ℕ → Option Heard =
          λ text addr. some (heard (received bytes sender) (overwrite peer 0 addr) text) in
        let result : List ℕ × InetAddress = (
          take (length bytes) (overwrite (replicate msg_buf_size 0) 0 bytes),
          overwrite peer 0 (take 110 (peer_addr (received bytes sender) ++ stack)),
        ) in
        (
          refl,
          refl,
          (
            overwrite peer 0 copied,
            ap (λ b. (check b >> some result) >>= λ r. some (heard (received bytes sender) r.1 r.0))
                  (le→leb (length bytes) max_size (omega (arith, fits)))
                ∙ ap₂ passed (received_whole bytes fits) (copied_all bytes)
                ∙ ap (λ b. some (if b then message (overwrite peer 0 copied) bytes else nothing))
                    (lt→ltb 0 (length bytes) some_bytes),
            sender_part,
            stack_part,
          ),
        )
