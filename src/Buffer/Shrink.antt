-- ===== src/Buffer/Shrink.antt =====
-- The constructor and `shrink` of Buffer.h.
use toy_basket.Prelude.{
  ℕ, ◌+◌, ◌-◌, ◌^◌, ◌≤◌, ◌<◌, ◌≡◌, refl, ap, ap₂, ◌∙◌, take_congr, length-take, sub_size, List, [],
  ◌++◌, some, none, length, drop, replicate, length-drop, length-replicate, add_size,
  size_through_int, max_size, ==_refl, arith,
}
use toy_basket.Buffer.{
  Buffer, cheap_prepend, initial_size, fresh, new, shrink, readable_bytes, writable_bytes,
  prependable_bytes,
}
use toy_basket.Buffer.Region.{
  IsValid, content, readable_lem, readable-content, length-content, writable_lem,
}
use toy_basket.Buffer.Space.{append_raw_huge, resize_lem, append_raw_lem, ensure_writable_lem}

-- A new buffer is empty, valid, and has exactly the space that was asked for.
pub new_lem :
    (initial : ℕ)
    → initial + cheap_prepend ≤ max_size
    → (b : Buffer) × (new initial ≡ some b)
      × IsValid b
      × (content b ≡ [])
      × (length b.buffer ≡ cheap_prepend + initial)
      × (writable_bytes b ≡ initial)
      × (b.reader_index ≡ cheap_prepend)
unfolding new content readable_bytes writable_bytes prependable_bytes
new_lem initial fits = (
  fresh bytes,
  rw (
    resize_lem (add_size cheap_prepend initial) [] (omega arith) (omega arith),
    roomy,
    ==_refl initial,
  ),
  ground (arith, whole),
  take_congr {m = 8 - 8} {n = 0} (drop 8 bytes) (omega arith),
  omega (arith, whole),
  roomy,
  refl,
)
  where
    bytes : List ℕ
    bytes = replicate (add_size cheap_prepend initial - 0) 0

    whole : length bytes ≡ 8 + initial
    whole = omega (arith, length-replicate {A = ℕ} (add_size cheap_prepend initial - 0) 0)

    roomy : sub_size (length bytes) cheap_prepend ≡ initial
    roomy = omega (arith, whole)

-- `shrink(reserve)` keeps the content, for fewer than 2^31 readable bytes, and leaves room for
-- `reserve` more.
pub shrink_lem :
    (b : Buffer) (reserve : ℕ)
    → IsValid b
    → length (content b) < 2 ^ 31
    → length (content b) + reserve + 2 ^ 32 ≤ max_size
    → (b' : Buffer) × (shrink b reserve ≡ some b')
      × IsValid b'
      × (content b' ≡ content b)
      × (reserve ≤ writable_bytes b')
unfolding shrink
shrink_lem b reserve v small fits =
    let held : readable_bytes b ≡ length (content b) = readable-content v in
    let n : ℕ = readable_bytes b in
    let (other, made, v₀, none_in, size₀, _, _) = new_lem initial_size (omega arith) in
    let (other', ensured, m) =
      ensure_writable_lem other (add_size n reserve) v₀ (omega (arith, held, size₀)) in
    let (b', copied, a) =
      append_raw_lem other' (drop b.reader_index b.buffer) n m.valid
        (omega (arith, length-drop b.reader_index b.buffer, readable_lem v))
        (omega (arith, held, size₀, m.size)) in
    (
      b',
      rw (made, ensured, through) copied,
      a.valid,
      a.bytes_in ∙ ap₂ ◌++◌ (m.same ∙ none_in) (unfold content in take_congr _ (readable_lem v)),
      omega (
        arith,
        writable_lem a.valid,
        a.spare,
        m.room,
        held,
        length-take n (drop b.reader_index b.buffer),
      ),
    )
  where
    through : size_through_int (readable_bytes b) ≡ readable_bytes b
    through = ground (arith, readable-content v)

-- The length of the copy passes through an `int`: from 2^31 readable bytes on (and below 2^32)
-- `shrink` asks `std::vector` for more than it can hold, whatever is reserved.
pub shrink_fails :
    (b : Buffer) (reserve : ℕ)
    → IsValid b
    → 2 ^ 31 ≤ length (content b)
    → length (content b) + 16 < 2 ^ 32
    → length (content b) + reserve + 2 ^ 32 ≤ max_size
    → shrink b reserve ≡ none
unfolding shrink
shrink_fails b reserve v large below fits =
    let held : readable_bytes b ≡ length (content b) = readable-content v in
    let (other, made, v₀, none_in, size₀, _, reader) = new_lem initial_size (omega arith) in
    let (other', ensured, m) =
      ensure_writable_lem other (add_size (readable_bytes b) reserve) v₀
        (omega (arith, held, size₀)) in
    let empty : length (content other') ≡ 0 = ap length (m.same ∙ none_in) in
    let at : other'.writer_index ≡ 8 =
      omega (arith, reader, m.front, m.valid.ordered, empty, length-content m.valid) in
    rw (made, ensured, wide)
      (append_raw_huge other' (drop b.reader_index b.buffer) (readable_bytes b + (2 ^ 64 - 2 ^ 32))
        m.valid (omega (arith, held)) (omega (arith, held, at)))
  where
    wide : size_through_int (readable_bytes b) ≡ readable_bytes b + (2 ^ 64 - 2 ^ 32)
    wide = ground (arith, readable-content v)
