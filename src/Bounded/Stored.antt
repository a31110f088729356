-- ===== src/Bounded/Stored.antt =====
-- What is written is read again, and nothing else in the buffer changes.
use mathlib.Core.List.{append-nil}
use native.Mathlib.Nat.{pow-suc}
use libthe_seed.Prelude.{
  drop_front, take-length, ℕ, zero, suc, ◌+◌, ◌*◌, ◌/◌, ◌%◌, ◌^◌, ◌≤◌, ◌<◌, ◌≡◌, refl, sym, ap, ◌∙◌,
  String, true, [], ◌∷◌, ◌++◌, arith, leb, length, length-append, take, drop, All, All-append,
  All-take, All-drop, length-take, length-drop, ok, Succeeds, Succeeds-ok,
}
use libthe_seed.Bounded.Range.{range_fits, range_fits_iff}
use libthe_seed.Bounded.Order.{
  ByteOrder, little, big, Width, bytes1, bytes2, bytes4, bytes8, sizeof, byte_swap_if_needed, Bytes,
  IsByte, le_value, be_onto, value_of, load-value_of, modulus,
}
use libthe_seed.Bounded.Span.{ByteSpan, IsValid, read_on, read_on-exact}
use libthe_seed.Bounded.Writing.{splice, put, le_bytes, rev_onto, bytes_of, write_on}

length-le_bytes : (n v : ℕ) → length (le_bytes n v) ≡ n
length-le_bytes zero v = refl
length-le_bytes (suc n) v = ap suc (length-le_bytes n (v / 256))

le_bytes-IsByte : (n v : ℕ) → All IsByte (le_bytes n v)
le_bytes-IsByte zero v = tt
le_bytes-IsByte (suc n) v = (omega arith, le_bytes-IsByte n (v / 256))

-- The value of the bytes is the number, less what they have no room for.
le_bytes-value : (bs : Bytes) → All IsByte bs → le_bytes (length bs) (le_value bs) ≡ bs
le_bytes-value [] h = refl
le_bytes-value (b ∷ bs) (small, rest) =
    let low : (b + 256 * le_value bs) % 256 ≡ b = omega (arith, small) in
    let high : (b + 256 * le_value bs) / 256 ≡ le_value bs = omega (arith, small) in
    rw (low, high) (ap (◌∷◌ b) (le_bytes-value bs rest))

be_onto-rev : (acc bs : Bytes) → be_onto 0 (rev_onto acc bs) ≡ be_onto (le_value bs) acc
be_onto-rev acc [] = refl
be_onto-rev acc (b ∷ bs) = be_onto-rev (b ∷ acc) bs ∙ ap (λ x. be_onto x acc) (omega arith)

rev-rev : (acc more bs : Bytes) → rev_onto acc (rev_onto more bs) ≡ rev_onto (bs ++ acc) more
rev-rev acc more [] = refl
rev-rev acc more (b ∷ bs) = rev-rev acc (b ∷ more) bs

rev_twice : (bs : Bytes) → rev_onto [] (rev_onto [] bs) ≡ bs
rev_twice bs = rev-rev [] [] bs ∙ append-nil bs

length-rev : (acc bs : Bytes) → length (rev_onto acc bs) ≡ length bs + length acc
length-rev acc [] = omega arith
length-rev acc (b ∷ bs) = length-rev (b ∷ acc) bs ∙ omega arith

rev-IsByte : (acc bs : Bytes) → All IsByte acc → All IsByte bs → All IsByte (rev_onto acc bs)
rev-IsByte acc [] h k = h
rev-IsByte acc (b ∷ bs) h k = rev-IsByte (b ∷ acc) bs (k.0, h) k.1

length-bytes_of : (order : ByteOrder) (n v : ℕ) → length (bytes_of order n v) ≡ n
length-bytes_of little n v = length-le_bytes n v
length-bytes_of big n v = omega (arith, length-rev [] (le_bytes n v), length-le_bytes n v)

bytes_of-IsByte : (order : ByteOrder) (n v : ℕ) → All IsByte (bytes_of order n v)
bytes_of-IsByte little n v = le_bytes-IsByte n v
bytes_of-IsByte big n v = rev-IsByte [] (le_bytes n v) tt (le_bytes-IsByte n v)

-- A sequence is stored again from its value.
bytes_of-value :
    (order : ByteOrder) (bs : Bytes)
    → All IsByte bs
    → bytes_of order (length bs) (value_of order bs) ≡ bs
bytes_of-value little bs h = le_bytes-value bs h
bytes_of-value big bs h =
    let back = rev_onto [] bs in
    let size : length bs ≡ length back = omega (arith, length-rev [] bs) in
    let same : be_onto 0 bs ≡ le_value back =
      ap (be_onto 0) (sym (rev_twice bs)) ∙ be_onto-rev [] back in
    rw (size, same, le_bytes-value back (rev-IsByte [] bs tt h)) (rev_twice bs)

le_value-le_bytes : (n v : ℕ) → v < 256 ^ n → le_value (le_bytes n v) ≡ v
le_value-le_bytes zero v h = omega (arith, h)
le_value-le_bytes (suc n) v h =
    omega (arith, le_value-le_bytes n (v / 256) (omega (arith, h, pow-suc 256 n)))

value_of-bytes_of :
    (order : ByteOrder) (n v : ℕ) → v < 256 ^ n → value_of order (bytes_of order n v) ≡ v
value_of-bytes_of little n v h = le_value-le_bytes n v h
value_of-bytes_of big n v h = be_onto-rev [] (le_bytes n v) ∙ le_value-le_bytes n v h

modulus_lem : (w : Width) (v : ℕ) → v < modulus w → v < 256 ^ sizeof w
modulus_lem bytes1 v h = omega (arith, h)
modulus_lem bytes2 v h = omega (arith, h)
modulus_lem bytes4 v h = omega (arith, h)
modulus_lem bytes8 v h = omega (arith, h)

swap-sym :
    (host order : ByteOrder) (w : Width) (x : ℕ)
    → byte_swap_if_needed host w x order ≡ byte_swap_if_needed order w x host
unfolding byte_swap_if_needed
swap-sym little little w x = refl
swap-sym little big w x = refl
swap-sym big little w x = refl
swap-sym big big w x = refl

-- What is stored on a host of either order are the bytes of the number in the order asked.
stored_bytes :
    (host order : ByteOrder) (w : Width) (v : ℕ)
    → v < modulus w
    → bytes_of host (sizeof w) (byte_swap_if_needed host w v order) ≡ bytes_of order (sizeof w) v
stored_bytes host order w v h =
    let bs = bytes_of order (sizeof w) v in
    let size = length-bytes_of order (sizeof w) v in
    let are = bytes_of-IsByte order (sizeof w) v in
    let number : value_of order bs ≡ v = value_of-bytes_of order (sizeof w) v (modulus_lem w v h) in
    let swapped : byte_swap_if_needed host w v order ≡ value_of host bs =
      ap (λ x. byte_swap_if_needed host w x order) (sym number)
      ∙ swap-sym host order w (value_of order bs)
      ∙ load-value_of order host w bs size are in
    ap (bytes_of host (sizeof w)) swapped
    ∙ ap (λ n. bytes_of host n (value_of host bs)) (sym size)
    ∙ bytes_of-value host bs are

take-splice :
    (start : ℕ) (bytes source : Bytes)
    → start ≤ length bytes
    → take (length source) (drop start (splice start bytes source)) ≡ source
take-splice start bytes source h =
    let behind = drop (start + length source) bytes in
    let size : start ≡ length (take start bytes) = omega (arith, h, length-take start bytes) in
    let front : drop start (splice start bytes source) ≡ source ++ behind =
      ap (λ n. drop n (splice start bytes source)) size
      ∙ drop_front (take start bytes) (source ++ behind) in
    ap (take (length source)) front ∙ take-length source behind

length-splice :
    (start : ℕ) (bytes source : Bytes)
    → start + length source ≤ length bytes
    → length (splice start bytes source) ≡ length bytes
length-splice start bytes source h =
    length-append (take start bytes) (source ++ drop (start + length source) bytes)
    ∙ omega (
      arith,
      h,
      length-append source (drop (start + length source) bytes),
      length-take start bytes,
      length-drop (start + length source) bytes,
    )

-- `t` is `s` with `source` at `start` of its buffer.
pub record IsWritten (s : ByteSpan) (start : ℕ) (source : Bytes) (t : ByteSpan) : Type 0 where
  pub bytes_eq : t.bytes ≡ splice start s.bytes source
  pub base_eq : t.base ≡ s.base
  pub size_eq : t.size ≡ s.size
  pub valid : IsValid t

splice-IsWritten :
    {s : ByteSpan}
    → IsValid s
    → (start : ℕ) (source : Bytes) → start + length source ≤ length s.bytes
    → All IsByte source
    → IsWritten s start source (record s { bytes = splice start s.bytes source })
splice-IsWritten {s} v start source h are = record {
  bytes_eq = refl;
  base_eq = refl;
  size_eq = refl;
  valid = record {
    inside = omega (arith, v.inside, length-splice start s.bytes source h);
    are_bytes =
        All-append IsByte (take start s.bytes) _ (All-take IsByte start s.bytes v.are_bytes) (
          All-append IsByte source _ are
            (All-drop IsByte (start + length source) s.bytes v.are_bytes));
  };
}

-- For a valid view and a field inside it, on a host of either order: a number of the width is written
-- without an exception and without touching memory outside the buffer, only the bytes of the field
-- change, and the same field then reads as the number.
pub read-write_on :
    {s : ByteSpan}
    → IsValid s
    → (host order : ByteOrder) (w : Width) (offset v : ℕ) (field : String) → v < modulus w
    → offset + sizeof w ≤ s.size
    → Succeeds
        (λ t.
          IsWritten s (s.base + offset) (bytes_of order (sizeof w) v) t
          × (read_on host w t offset order field ≡ ok v))
        (write_on host w s offset v order field)
unfolding write_on put
read-write_on {s} valid host order w offset v field small inside =
    let bs = bytes_of order (sizeof w) v in
    let fits : range_fits offset (sizeof w) s.size ≡ true =
      (range_fits_iff offset (sizeof w) s.size).1 inside in
    let size : length bs ≡ sizeof w = length-bytes_of order (sizeof w) v in
    let room : s.base + offset + length bs ≤ length s.bytes =
      omega (arith, inside, size, valid.inside) in
    let written =
      splice-IsWritten valid (s.base + offset) bs room (bytes_of-IsByte order (sizeof w) v) in
    let allowed : leb (s.base + offset + length bs) (length s.bytes) ≡ true =
      ground (arith, room) in
    let again : take (sizeof w) (drop (s.base + offset) (splice (s.base + offset) s.bytes bs))
        ≡ bs =
      ap (λ n. take n (drop (s.base + offset) (splice (s.base + offset) s.bytes bs))) (sym size)
      ∙ take-splice (s.base + offset) s.bytes bs (omega (arith, room)) in
    let number : value_of order bs ≡ v =
      value_of-bytes_of order (sizeof w) v (modulus_lem w v small) in
    rw (fits, stored_bytes host order w v small, allowed)
      (Succeeds-ok _ (
        written,
        read_on-exact written.valid offset host order w field
            ∙ rw fits (ap ok (ap (value_of order) again ∙ number)),
      ))
