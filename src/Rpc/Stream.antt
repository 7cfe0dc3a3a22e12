-- ===== src/Rpc/Stream.antt =====
-- Frames that arrive over a stream, cut anywhere: what the code does with them is what it does with
-- the frames one by one.
use toy_basket.Prelude.{
  ℕ, zero, suc, ◌+◌, ◌≤◌, ◌<◌, ◌≡◌, refl, sym, ap, ◌∙◌, List, [], ◌∷◌, ◌++◌, Option, none, some,
  ◌>>=◌, ltb, length, drop, ltb→lt, ltb→le, Bool-cases, inl, inr, length-append, drop-append_length,
  arith,
}
use toy_basket.Buffer.{Buffer, readable_bytes, retrieve}
use toy_basket.Buffer.Region.{IsValid, content, readable-content}
use toy_basket.Buffer.Retrieve.{retrieve_lem}
use toy_basket.Rpc.{
  Meta, Codec, frame, scan, waits, at_frame, finished, on_message, on_scan, retrieve_then,
}
use toy_basket.Rpc.Frames.{IsFrame, length-frame, prefix_split, scan_whole, scan_part}

-- The bytes of some frames, and that each of them is one.
abbrev pub bytes_of : Codec → List (Meta × List ℕ) → List ℕ
bytes_of k [] = []
bytes_of k ((m, bytes) ∷ rest) = frame k m bytes ++ bytes_of k rest

abbrev pub AllFrames : Codec → List (Meta × List ℕ) → Type 0
AllFrames k [] = Unit
AllFrames k ((m, bytes) ∷ rest) = IsFrame k m bytes × AllFrames k rest

some_bind {ℓ κ} :
    {A : Type ℓ} {B : Type κ} (m : Option A) {f : A → Option B} {b : B}
    → (m >>= f) ≡ some b
    → (a : A) × (m ≡ some a) × (f a ≡ some b)
some_bind none e = cc
some_bind (some a) e = (a, refl, e)

module _ {ℓ} {S : Type ℓ} (k : Codec) (handle : S → Meta → Option (List ℕ) → Option S) where
  -- The frames handled one by one.
  abbrev pub handle_all : S → List (Meta × List ℕ) → Option S
  handle_all s [] = some s
  handle_all s ((m, bytes) ∷ rest) = handle s m (some bytes) >>= λ s'. handle_all s' rest

  -- After a run over a part of the frames `fs`, of which the bytes `tail` are missing, in the state
  -- `s'` with the buffer `b'`: what is left to handle.
  pub record Left (room : ℕ) (e : S) (b : Buffer) (tail : List ℕ) (s' : S) (b' : Buffer)
      : Type ℓ where
    pub rest : List (Meta × List ℕ)
    pub valid : IsValid b'
    pub same_size : length b'.buffer ≡ length b.buffer
    pub bytes : content b' ++ tail ≡ bytes_of k rest
    pub frames : AllFrames k rest
    pub to_do : handle_all s' rest ≡ some e
    pub shrinks : length (bytes_of k rest) ≤ room
    pub all_read : tail ≡ [] → rest ≡ []

  scan_few : (b : Buffer) → readable_bytes b ≡ 0 → scan k b ≡ waits
  unfolding scan
  scan_few b e = rw e

  pub run_waits :
      (fuel : ℕ) (s : S) (b : Buffer)
      → scan k b ≡ waits
      → on_message k handle (suc fuel) s b ≡ finished s b
  unfolding on_message
  run_waits fuel s b e = ap (on_scan handle s b (on_message k handle fuel)) e

  pub run_found :
      (fuel : ℕ) (s : S) (b : Buffer) (m : Meta) (d : Option (List ℕ)) (n : ℕ)
      → scan k b ≡ at_frame m d n
      → on_message k handle (suc fuel) s b
        ≡ retrieve_then (handle s m d) (retrieve b n) (on_message k handle fuel)
  unfolding on_message
  run_found fuel s b m d n e = ap (on_scan handle s b (on_message k handle fuel)) e

  -- `onMessage` on a buffer that holds a part of the frames handles those that are whole.
  pub on_message_part :
      (fuel : ℕ) (s e : S) (b : Buffer) (fs : List (Meta × List ℕ)) (tail : List ℕ)
      → IsValid b
      → AllFrames k fs
      → content b ++ tail ≡ bytes_of k fs
      → handle_all s fs ≡ some e
      → length (content b) < fuel
      → (s' : S) × (b' : Buffer) × (on_message k handle fuel s b ≡ finished s' b')
        × Left (length (bytes_of k fs)) e b tail s' b'
  on_message_part zero s e b fs tail v a bytes h enough = absurd (omega arith)
  on_message_part (suc fuel) s e b [] tail v a bytes h enough =
      let none_left : length (content b) ≡ 0 =
        omega (arith, ap length bytes, length-append (content b) tail) in
      (
        s,
        b,
        run_waits fuel s b (scan_few b (omega (arith, readable-content v, none_left))),
        record {
          rest = [];
          valid = v;
          same_size = refl;
          bytes = bytes;
          frames = tt;
          to_do = h;
          shrinks = omega arith;
          all_read = λ t. refl;
        },
      )
  on_message_part (suc fuel) s e b ((m, data_bytes) ∷ fs) tail v (f, a) bytes h enough =
      elim (Bool-cases (ltb (length (content b)) (length (frame k m data_bytes)))) [
        | inl short ↦ (
          s,
          b,
          run_waits fuel s b
              (scan_part k m data_bytes f b tail (bytes_of k fs) v bytes (ltb→lt _ _ short)),
          record {
            rest = (m, data_bytes) ∷ fs;
            valid = v;
            same_size = refl;
            bytes = bytes;
            frames = (f, a);
            to_do = h;
            shrinks = omega arith;
            all_read = λ t. absurd (
                omega (
                  arith,
                  ltb→lt _ _ short,
                  ap length bytes,
                  ap length t,
                  length-append (content b) tail,
                  length-append (frame k m data_bytes) (bytes_of k fs),
                ));
          },
        )
        | inr whole ↦
            let (r, e₁, more) =
              prefix_split (frame k m data_bytes) (bytes_of k fs) (content b) tail bytes
                (ltb→le _ _ whole) in
            let size : length (content b) ≡ length (frame k m data_bytes) + length r =
              omega (arith, ap length e₁, length-append (frame k m data_bytes) r) in
            let (b₁, done, v₁, c₁, same) =
              retrieve_lem b (4 + length (k.serialize m) + length data_bytes) v
                (omega (arith, size, length-frame k m data_bytes)) in
            let (s₁, handled, h₁) = some_bind (handle s m (some data_bytes)) h in
            let left : content b₁ ≡ r =
              c₁
              ∙ ap (λ n. drop n (content b)) (sym (length-frame k m data_bytes))
              ∙ ap (drop (length (frame k m data_bytes))) e₁
              ∙ drop-append_length (frame k m data_bytes) r in
            let (s', b', ran, l) =
              on_message_part fuel s₁ e b₁ fs tail v₁ a (ap (λ xs. xs ++ tail) left ∙ more) h₁
                (omega (arith, ap length left, size, length-frame k m data_bytes)) in
            (
              s',
              b',
              run_found fuel s b m (some data_bytes) _ (scan_whole k m data_bytes f b r v e₁)
                  ∙ ap
                      (λ x.
                        retrieve_then x
                          (retrieve b (4 + length (k.serialize m) + length data_bytes))
                          (on_message k handle fuel))
                      handled
                  ∙ ap (λ x. retrieve_then (some s₁) x (on_message k handle fuel)) done
                  ∙ ran,
              record {
                rest = l.rest;
                valid = l.valid;
                same_size = l.same_size ∙ ap length same;
                bytes = l.bytes;
                frames = l.frames;
                to_do = l.to_do;
                shrinks =
                    omega (arith, l.shrinks, length-append (frame k m data_bytes) (bytes_of k fs));
                all_read = l.all_read;
              },
            )
      ]
