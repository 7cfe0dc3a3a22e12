-- ===== src/Rpc/Parts.antt =====
-- Frames that arrive in parts: `handleRead` of the connection with `onMessage` behind it.
use toy_basket.Prelude.{
  some_injective, ℕ, suc, ◌+◌, ◌≤◌, ◌<◌, ◌≡◌, refl, sym, ap, ◌∙◌, List, [], ◌∷◌, ◌++◌, Option, none,
  some, ltb, lt→ltb, length, if◌then◌else◌, max_size, length-append, append-nil, append_assoc,
  arith,
}
use toy_basket.Buffer.{Buffer, read_fd, got, ReadFd, count, saved_errno, new, initial_size}
use toy_basket.Buffer.Region.{IsValid, content}
use toy_basket.Buffer.Shrink.{new_lem}
use toy_basket.Buffer.Vectored.{read_fd_lem}
use toy_basket.Rpc.Frames.{length-frame}
use toy_basket.Rpc.{Meta, Codec, frame, Run, finished, throws, out_of_fuel, on_message}
use toy_basket.Rpc.Stream.{bytes_of, AllFrames, handle_all, on_message_part}

-- `read` gives no bytes only at the end of the stream.
abbrev pub AllSome : List (List ℕ) → Type 0
AllSome [] = Unit
AllSome (part ∷ parts) = (0 < length part) × AllSome parts

abbrev pub concat : List (List ℕ) → List ℕ
concat [] = []
concat (xs ∷ rest) = xs ++ concat rest

no_frames : (k : Codec) (fs : List (Meta × List ℕ)) → [] ≡ bytes_of k fs → fs ≡ []
no_frames k [] e = refl
no_frames k ((m, bytes) ∷ fs) e = absurd (
    omega
      (arith, ap length e, length-append (frame k m bytes) (bytes_of k fs), length-frame k m bytes))

module _ {ℓ} {S : Type ℓ} (k : Codec) (handle : S → Meta → Option (List ℕ) → Option S) where
  -- One call of `handleRead`: the bytes that came go into the buffer, and `onMessage` runs if there
  -- are any. An error is logged.
  abbrev run_read : ℕ → S → Option (Buffer × ReadFd) → Run S
  run_read fuel s none = throws
  run_read fuel s (some (b, count n)) =
      if ltb 0 n then on_message k handle fuel s b else finished s b
  run_read fuel s (some (b, saved_errno e)) = finished s b

  pub receive : ℕ → S → Buffer → List ℕ → Run S
  receive fuel s b bytes = run_read fuel s (read_fd b (got bytes))

  abbrev then_receive : Run S → (S → Buffer → Run S) → Run S
  then_receive (finished s b) next = next s b
  then_receive throws next = throws
  then_receive out_of_fuel next = out_of_fuel

  pub receive_all : ℕ → S → Buffer → List (List ℕ) → Run S
  receive_all fuel s b [] = finished s b
  receive_all fuel s b (bytes ∷ rest) =
      then_receive (receive fuel s b bytes) (λ s' b'. receive_all fuel s' b' rest)

  -- The bytes of frames, cut anywhere and delivered one part after the other into an empty buffer
  -- that may grow by all of them, lead to the state in which the frames handled one by one end, and
  -- leave an empty buffer.
  receive_parts :
      (fuel : ℕ) (parts : List (List ℕ)) (s e : S) (b : Buffer) (fs : List (Meta × List ℕ))
      → IsValid b
      → AllFrames k fs
      → content b ++ concat parts ≡ bytes_of k fs
      → handle_all k handle s fs ≡ some e
      → length (bytes_of k fs) < fuel
      → length b.buffer + length (concat parts) ≤ max_size
      → AllSome parts
      → (parts ≡ [] → fs ≡ [])
      → (b' : Buffer) × (receive_all fuel s b parts ≡ finished e b')
        × IsValid b'
        × (content b' ≡ [])
  unfolding receive receive_all
  receive_parts fuel [] s e b fs v a bytes h enough fits t last =
      let none_left : fs ≡ [] = last refl in
      (
        b,
        ap (λ x. finished x b) (some_injective (ap (handle_all k handle s) (sym none_left) ∙ h)),
        v,
        sym (append-nil (content b)) ∙ bytes ∙ ap (bytes_of k) none_left,
      )
  receive_parts fuel (part ∷ parts) s e b fs v a bytes h enough fits (more, t) last =
      let (b₁, read, p) =
        read_fd_lem b part v (omega (arith, fits, length-append part (concat parts))) in
      let joined : content b₁ ++ concat parts ≡ bytes_of k fs =
        ap (λ xs. xs ++ concat parts) p.bytes_in
        ∙ append_assoc (content b) part (concat parts)
        ∙ bytes in
      let (s', b', ran, l) =
        on_message_part k handle fuel s e b₁ fs (concat parts) p.valid a joined h
          (omega (arith, ap length joined, length-append (content b₁) (concat parts))) in
      let (b'', rest_ran, v', none_left) =
        receive_parts fuel parts s' e b' l.rest l.valid l.frames l.bytes l.to_do
          (omega (arith, l.shrinks, enough))
          (omega (arith, fits, l.same_size, p.size, length-append part (concat parts))) t
          (λ ended. l.all_read (ap concat ended)) in
      (
        b'',
        ap (λ x. then_receive (run_read fuel s x) (λ s₁ b₂. receive_all fuel s₁ b₂ parts)) read
            ∙ ap
                (λ x.
                  then_receive (if x then on_message k handle fuel s b₁ else finished s b₁)
                    (λ s₁ b₂. receive_all fuel s₁ b₂ parts))
                (lt→ltb 0 (length part) more)
            ∙ ap (λ x. then_receive x (λ s₁ b₂. receive_all fuel s₁ b₂ parts)) ran
            ∙ rest_ran,
        v',
        none_left,
      )

  -- Frames with data, of which each fits an `int` and carries the size of its data, cut anywhere
  -- into parts that are not empty, and delivered one part after the other to a connection with a
  -- new input buffer that may grow by all of them: if the frames handled one by one lead to a
  -- state, then the calls of `onMessage` end, in this state, and leave no bytes.
  pub receive_all_lem :
      (parts : List (List ℕ)) (s e : S) (fs : List (Meta × List ℕ))
      → AllFrames k fs
      → AllSome parts
      → concat parts ≡ bytes_of k fs
      → handle_all k handle s fs ≡ some e
      → 8 + initial_size + length (concat parts) ≤ max_size
      → (b₀ : Buffer) × (b : Buffer) × (new initial_size ≡ some b₀)
        × (receive_all (suc (length (concat parts))) s b₀ parts ≡ finished e b)
        × (content b ≡ [])
  receive_all_lem parts s e fs a t joined h fits =
      let (b₀, made, v, none_there, size, _, _) = new_lem initial_size (omega arith) in
      let (b, ran, v', left) =
        receive_parts (suc (length (concat parts))) parts s e b₀ fs v a
          (ap (λ xs. xs ++ concat parts) none_there ∙ joined) h (omega (arith, ap length joined))
          (omega (arith, size, fits)) t
          (λ ended. no_frames k fs (sym (ap concat ended) ∙ joined)) in
      (b₀, b, made, ran, left)

  -- `onMessage` on a buffer that holds whole frames and no other bytes.
  pub on_message_whole :
      (s e : S) (b : Buffer) (fs : List (Meta × List ℕ))
      → IsValid b
      → AllFrames k fs
      → content b ≡ bytes_of k fs
      → handle_all k handle s fs ≡ some e
      → (b' : Buffer) × (on_message k handle (suc (length (content b))) s b ≡ finished e b')
        × (content b' ≡ [])
  on_message_whole s e b fs v a whole h =
      let (s', b', ran, l) =
        on_message_part k handle (suc (length (content b))) s e b fs [] v a
          (append-nil (content b) ∙ whole) h (omega arith) in
      let ended : l.rest ≡ [] = l.all_read refl in
      (
        b',
        ran
            ∙ ap (λ x. finished x b')
                (some_injective (ap (handle_all k handle s') (sym ended) ∙ l.to_do)),
        sym (append-nil (content b')) ∙ l.bytes ∙ ap (bytes_of k) ended,
      )
