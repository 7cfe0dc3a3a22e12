-- ===== src/Buffer/Find.antt =====
-- `findCRLF` and `findEOL` of Buffer.h: the first line end among the readable bytes.
use toy_basket.Prelude.{
  ℕ, zero, suc, ◌+◌, ◌-◌, ◌≤◌, ◌<◌, ◌≡◌, ap₂, ◌∙◌, inl, inr, List, [], ◌∷◌, Option, none, some,
  slice, get_elem?, arith, drop, drop-slice, sub_size, le→leb, Bool-cases, ◌&&◌, ◌==◌,
}
use toy_basket.Buffer.{
  Buffer, search_crlf, search_eol, find_crlf, find_crlf_from, find_eol, find_eol_from,
}
use toy_basket.Buffer.Region.{IsValid, content, readable_lem}

-- A line end "\r\n" begins at position `k`.
abbrev pub CrlfAt : List ℕ → ℕ → Type 0
CrlfAt xs k = (get_elem? xs k ≡ some 13) × (get_elem? xs (suc k) ≡ some 10)

-- A newline stands at position `k`.
abbrev pub EolAt : List ℕ → ℕ → Type 0
EolAt xs k = get_elem? xs k ≡ some 10

-- The search from index `i` over `xs` answers with the first place where `P` holds, or `P` holds
-- nowhere.
abbrev pub FindsFirst : (ℕ → Type 0) → ℕ → Option ℕ → Type 0
FindsFirst P i none = (k : ℕ) → ¬ P k
FindsFirst P i (some p) = (k : ℕ) × (p ≡ i + k) × P k × ((j : ℕ) → j < k → ¬ P j)

-- A search that does not end at the first byte ends as it does behind it.
FindsFirst-suc :
    (P : ℕ → Type 0) (i : ℕ) (r : Option ℕ)
    → ¬ P 0
    → FindsFirst (λ k. P (suc k)) (i + 1) r
    → FindsFirst P i r
FindsFirst-suc P i none h f = elim [ zero ↦ h | suc k ↦ f k ]
FindsFirst-suc P i (some p) h (k, e, here, before) =
    (suc k, omega arith, here, elim [ zero ↦ λ _. h | suc j ↦ λ l. before j (omega arith) ])

search_crlf_lem : (i : ℕ) (xs : List ℕ) → FindsFirst (CrlfAt xs) i (search_crlf i xs)
unfolding search_crlf
search_crlf_lem i [] = λ k h. cc
search_crlf_lem i (x ∷ []) = λ k h. cc
search_crlf_lem i (x ∷ y ∷ rest) = elim (Bool-cases ((x == 13) && (y == 10))) [
  | inl hit ↦ rw hit (0, omega arith, ground arith, λ j h. absurd (omega arith))
  | inr miss ↦ rw miss (
      FindsFirst-suc (CrlfAt (x ∷ y ∷ rest)) i (search_crlf (i + 1) (y ∷ rest)) (ground arith)
        (search_crlf_lem (i + 1) (y ∷ rest)))
]

search_eol_lem : (i : ℕ) (xs : List ℕ) → FindsFirst (EolAt xs) i (search_eol i xs)
unfolding search_eol
search_eol_lem i [] = λ k h. cc
search_eol_lem i (x ∷ rest) = elim (Bool-cases (x == 10)) [
  | inl hit ↦ rw hit (0, omega arith, ground arith, λ j h. absurd (omega arith))
  | inr miss ↦ rw miss (
      FindsFirst-suc (EolAt (x ∷ rest)) i (search_eol (i + 1) rest) (ground arith)
        (search_eol_lem (i + 1) rest))
]

-- `findCRLF()` and `findEOL()` answer with the index of the first line end among the readable
-- bytes, and with a null pointer only if there is none.
pub find_lem :
    {b : Buffer}
    → IsValid b
    → FindsFirst (CrlfAt (content b)) b.reader_index (find_crlf b)
      × FindsFirst (EolAt (content b)) b.reader_index (find_eol b)
unfolding find_crlf find_eol content
find_lem {b} v =
    rw (readable_lem v)
      (search_crlf_lem b.reader_index (content b), search_eol_lem b.reader_index (content b))

-- From a start inside the readable region they search the bytes behind it.
pub find_from_lem :
    {b : Buffer} (start : ℕ)
    → IsValid b
    → b.reader_index ≤ start
    → start ≤ b.writer_index
    → (crlf eol : Option ℕ) × (find_crlf_from b start ≡ some crlf)
      × (find_eol_from b start ≡ some eol)
      × FindsFirst (CrlfAt (drop (start - b.reader_index) (content b))) start crlf
      × FindsFirst (EolAt (drop (start - b.reader_index) (content b))) start eol
unfolding find_crlf_from find_eol_from
find_from_lem {b} start v h k = (
  search_crlf start behind,
  search_eol start behind,
  rw (le→leb _ _ h, le→leb _ _ k),
  rw (le→leb _ _ h, le→leb _ _ k),
  rw same (search_crlf_lem start behind),
  rw same (search_eol_lem start behind),
)
  where
    behind : List ℕ
    behind = slice start (sub_size b.writer_index start) b.buffer

    same : drop (start - b.reader_index) (content b) ≡ behind
    same =
        unfold content in
        drop-slice (start - b.reader_index) b.reader_index (b.writer_index - b.reader_index)
          b.buffer
        ∙ ap₂ (λ i n. slice i n b.buffer) (omega arith) (omega arith)
