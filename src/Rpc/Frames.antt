-- ===== src/Rpc/Frames.antt =====
-- What `onMessage` finds when the buffer begins with a frame, or with a part of one.
use toy_basket.Prelude.{
  ℕ, ◌+◌, ◌≤◌, ◌<◌, ◌^◌, ◌%◌, ◌≡◌, refl, sym, ap, ◌∙◌, List, [], ◌∷◌, ◌++◌, true, false, some, ltb,
  length, take, drop, size_through_int, add_size, le→leb, lt→ltb, le→ltb, lt→leb, ltb→lt, ltb→le,
  Bool-cases, inl, inr, max_size, length-append, take-append_length, drop-append_length, drop-drop,
  append_assoc, ◌⊎◌, arith,
}
use toy_basket.Buffer.{Buffer, int32, be_bytes, readable_bytes}
use toy_basket.Buffer.Region.{IsValid, content, readable-content}
use toy_basket.Buffer.Codec.{peek_int_lem, length-be_bytes}
use toy_basket.Rpc.{
  Meta, Codec, IsMeta, frame, make_string, waits, at_frame, frame_length, scan, scan_meta,
}

-- A frame as `CallMethod` and `OnCallbackDone` make it, with some data and below the range of `int`.
pub record IsFrame (k : Codec) (m : Meta) (bytes : List ℕ) : Type 0 where
  pub meta : IsMeta m
  pub sized : m.data_size ≡ length bytes
  pub some_data : 0 < length bytes
  pub in_range : 4 + length (k.serialize m) + length bytes < 2 ^ 31

make_string_lem : (xs ys : List ℕ) (n : ℕ) → n ≡ length xs → make_string (xs ++ ys) n ≡ some xs
make_string_lem xs ys n e = rw e (
    rw (le→leb (length xs) (length (xs ++ ys)) (omega (arith, length-append xs ys)))
      (ap some (take-append_length xs ys)))

-- A prefix that is longer than the first part goes on into the second.
pub prefix_split :
    (x y p s : List ℕ)
    → p ++ s ≡ x ++ y
    → length x ≤ length p
    → (r : List ℕ) × (p ≡ x ++ r) × (r ++ s ≡ y)
prefix_split [] y p s e h = (p, refl, e)
prefix_split (a ∷ x) y [] s e h = absurd (omega arith)
prefix_split (a ∷ x) y (c ∷ p) s e h =
    let tails : p ++ s ≡ x ++ y = cc in
    let (r, e', e'') = prefix_split x y p s tails (omega arith) in (r, cc, e'')

pub small_int : (n : ℕ) → n < 2 ^ 31 → size_through_int n ≡ n
small_int n h = rw (lt→ltb (n % 2 ^ 32) (2 ^ 31) (omega arith)) (omega arith)

module _ (k : Codec) where
  pub length-frame :
      (m : Meta) (bytes : List ℕ)
      → length (frame k m bytes) ≡ 4 + length (k.serialize m) + length bytes
  unfolding frame
  length-frame m bytes = omega (
    arith,
    length-append (be_bytes 4 (length (k.serialize m))) (k.serialize m ++ bytes),
    length-append (k.serialize m) bytes,
    length-be_bytes 4 (length (k.serialize m)),
  )

  -- The bytes behind the size of the metadata.
  after_size : (xs : List ℕ) (n : ℕ) → drop 4 (be_bytes 4 n ++ xs) ≡ xs
  after_size xs n =
      ap (λ i. drop i (be_bytes 4 n ++ xs)) (sym (length-be_bytes 4 n))
      ∙ drop-append_length (be_bytes 4 n) xs

  -- With the size of the metadata and the metadata at the front, the scan comes to the metadata.
  pub scan_header :
      (b : Buffer) (m : Meta) (rest : List ℕ)
      → IsValid b
      → IsMeta m
      → length (k.serialize m) < 2 ^ 31
      → content b ≡ be_bytes 4 (length (k.serialize m)) ++ (k.serialize m ++ rest)
      → 0 < length rest
      → scan k b ≡ scan_meta b (length (k.serialize m)) m
  unfolding scan
  scan_header b m rest v meta small e more =
      rw
        (
          lt→ltb 4 (readable_bytes b) (omega (arith, size)),
          peek_int_lem int32 b len (k.serialize m ++ rest) v (omega arith) e,
          lt→ltb (add_size (size_through_int len) 4) (readable_bytes b)
              (omega (arith, size, through)),
          le→leb (size_through_int len) max_size (omega (arith, through)),
        )
        (ap (scan_meta b len) (
          ap k.parse (
            ap (take len) (ap (drop 4) e ∙ after_size (k.serialize m ++ rest) len)
            ∙ take-append_length (k.serialize m) rest)
          ∙ k.parse-serialize m meta))
    where
      len : ℕ
      len = length (k.serialize m)

      through : size_through_int len ≡ len
      through = rw (lt→ltb (len % 2 ^ 32) (2 ^ 31) (omega arith)) (omega arith)

      size : readable_bytes b ≡ 4 + len + length rest
      size = omega (
        arith,
        readable-content v,
        ap length e,
        length-append (be_bytes 4 len) (k.serialize m ++ rest),
        length-append (k.serialize m) rest,
        length-be_bytes 4 len,
      )

  -- Without a byte behind the metadata there is no frame yet.
  pub scan_no_meta :
      (b : Buffer) (len : ℕ) (p : List ℕ)
      → IsValid b
      → content b ≡ be_bytes 4 len ++ p
      → len < 2 ^ 31
      → readable_bytes b ≤ 4 + len
      → scan k b ≡ waits
  unfolding scan
  scan_no_meta b len p v e small few = elim (Bool-cases (ltb 4 (readable_bytes b))) [
    | inr no_size ↦ rw no_size
    | inl has_size ↦ rw (
      has_size,
      peek_int_lem int32 b len p v (omega arith) e,
      le→ltb (add_size (size_through_int len) 4) (readable_bytes b)
          (omega (arith, small_int len small, few)),
    )
  ]

  module _ (m : Meta) (bytes : List ℕ) (f : IsFrame k m bytes) where
    len : ℕ
    len = length (k.serialize m)

    frame_length_lem : frame_length len m.data_size ≡ 4 + len + length bytes
    unfolding len
    frame_length_lem =
        ap size_through_int (
          ap (λ n. add_size (add_size 4 n) (size_through_int m.data_size))
            (small_int len (omega (arith, f.in_range)))
          ∙ ap (λ n. add_size (add_size 4 len) n)
              (ap size_through_int f.sized ∙ small_int (length bytes) (omega (arith, f.in_range)))
          ∙ omega (arith, f.in_range))
        ∙ small_int (4 + len + length bytes) f.in_range

    -- A frame at the front is found, with its data.
    pub scan_whole :
        (b : Buffer) (rest : List ℕ)
        → IsValid b
        → content b ≡ frame k m bytes ++ rest
        → scan k b ≡ at_frame m (some bytes) (4 + length (k.serialize m) + length bytes)
    unfolding frame len
    scan_whole b rest v e =
        scan_header b m (bytes ++ rest) v f.meta (omega (arith, f.in_range)) split
          (omega (arith, f.some_data, length-append bytes rest))
        ∙ (rw (frame_length_lem, le→leb _ (readable_bytes b) held)
            (ap (λ d. at_frame m d (4 + len + length bytes)) data_there))
      where
        split :
            content b ≡ be_bytes 4 (length (k.serialize m)) ++ (k.serialize m ++ (bytes ++ rest))
        split =
            e
            ∙ append_assoc (be_bytes 4 (length (k.serialize m))) (k.serialize m ++ bytes) rest
            ∙ ap (λ xs. be_bytes 4 (length (k.serialize m)) ++ xs)
                (append_assoc (k.serialize m) bytes rest)

        held : 4 + len + length bytes ≤ readable_bytes b
        held = omega (
          arith,
          readable-content v,
          ap length e,
          length-append (frame k m bytes) rest,
          length-frame m bytes,
        )

        data_there :
            make_string (drop (4 + len) (content b)) (size_through_int m.data_size) ≡ some bytes
        data_there =
            ap (λ xs. make_string xs (size_through_int m.data_size))
              (sym (drop-drop len 4 (content b))
                ∙ ap (drop len)
                    (ap (drop 4) split ∙ after_size (k.serialize m ++ (bytes ++ rest)) len)
                ∙ drop-append_length (k.serialize m) (bytes ++ rest))
            ∙ make_string_lem bytes rest (size_through_int m.data_size)
                (ap size_through_int f.sized ∙ small_int (length bytes) (omega (arith, f.in_range)))

    -- A proper part of a frame is not taken for one.
    pub scan_part :
        (b : Buffer) (s rest : List ℕ)
        → IsValid b
        → content b ++ s ≡ frame k m bytes ++ rest
        → length (content b) < length (frame k m bytes)
        → scan k b ≡ waits
    unfolding frame len
    scan_part b s rest v e short = elim (Bool-cases (ltb 4 (readable_bytes b))) [
      | inr no_size ↦ unfold scan in rw no_size
      | inl has_size ↦
          let (p₁, e₁, more₁) =
            prefix_split (be_bytes 4 len) ((k.serialize m ++ bytes) ++ rest) (content b) s
              (e ∙ append_assoc (be_bytes 4 len) (k.serialize m ++ bytes) rest)
              (omega (arith, ltb→lt _ _ has_size, readable-content v, length-be_bytes 4 len)) in
          with_size p₁ e₁ more₁ (Bool-cases (ltb (4 + len) (readable_bytes b)))
    ]
      where
        too_short : readable_bytes b < 4 + len + length bytes
        too_short = omega (arith, short, length-frame m bytes, readable-content v)

        with_size :
            (p₁ : List ℕ)
            → content b ≡ be_bytes 4 len ++ p₁
            → p₁ ++ s ≡ (k.serialize m ++ bytes) ++ rest
            → (ltb (4 + len) (readable_bytes b) ≡ true) ⊎ (ltb (4 + len) (readable_bytes b) ≡ false)
            → scan k b ≡ waits
        with_size p₁ e₁ more₁ (inr no_meta) =
            scan_no_meta b len p₁ v e₁ (omega (arith, f.in_range)) (ltb→le _ _ no_meta)
        with_size p₁ e₁ more₁ (inl has_meta) =
            let sized : length (content b) ≡ 4 + length p₁ =
              omega
                (arith, ap length e₁, length-append (be_bytes 4 len) p₁, length-be_bytes 4 len) in
            let behind : 4 + len < length (content b) =
              omega (arith, ltb→lt _ _ has_meta, readable-content v) in
            let (p₂, e₂, more₂) =
              prefix_split (k.serialize m) (bytes ++ rest) p₁ s
                (more₁ ∙ append_assoc (k.serialize m) bytes rest) (omega (arith, sized, behind)) in
            scan_header b m p₂ v f.meta (omega (arith, f.in_range))
              (e₁ ∙ ap (λ xs. be_bytes 4 len ++ xs) e₂)
              (omega (arith, sized, behind, ap length e₂, length-append (k.serialize m) p₂))
            ∙ (rw (frame_length_lem, lt→leb (4 + len + length bytes) (readable_bytes b) too_short))
