-- ===== src/Bounded/Span.antt =====
-- ByteSpan of src/internal/BoundedBytes.hpp, over a buffer in memory: `bytes` is the
-- buffer and `base` the place that `data` points to. A view of a PagedFile reads the same
-- bytes through PagedFile::Ensure.
use libthe_seed.Prelude.{
  ℕ, ◌+◌, ◌≤◌, ◌<◌, ◌≡◌, refl, ap, String, inl, inr, arith, leb, if◌then◌else◌, length, take, drop,
  All, All-take, All-drop, length-take, length-drop, Bool-cases, Outcome, ok, fault, ◌>>=◌,
  throw_malformed, Returns, value, refusal, past_the_end, structure_past_the_end,
}
use libthe_seed.Bounded.Range.{range_fits, range_fits_iff}
use libthe_seed.Bounded.Order.{
  ByteOrder, little, Width, sizeof, byte_swap_if_needed, Bytes, IsByte, value_of, load-value_of,
  modulus, value_of-lt,
}

pub record ByteSpan : Type 0 where
  pub bytes : Bytes
  pub base : ℕ
  pub size : ℕ
  pub format : String
  pub scope : String

-- The constructor from a vector.
abbrev pub whole : Bytes → String → String → ByteSpan
whole bytes format scope = record {
  bytes = bytes;
  base = 0;
  size = length bytes;
  format = format;
  scope = scope;
}

-- The view lies inside its buffer, which holds bytes.
pub record IsValid (s : ByteSpan) : Type 0 where
  pub inside : s.base + s.size ≤ length s.bytes
  pub are_bytes : All IsByte s.bytes

-- A copy out of the buffer. Outside it there is nothing to copy.
unfoldable pub memory : Bytes → ℕ → ℕ → Outcome Bytes
memory bytes start count =
    if leb (start + count) (length bytes) then ok (take count (drop start bytes)) else fault

abbrev pub at : ByteSpan → ℕ → ℕ → Outcome Bytes
at s offset count = memory s.bytes (s.base + offset) count

-- Read<T> for a number, on a host of the given order.
unfoldable pub read_on : ByteOrder → Width → ByteSpan → ℕ → ByteOrder → String → Outcome ℕ
read_on host w s offset order field =
    if range_fits offset (sizeof w) s.size
    then (do bs ← at s offset (sizeof w); ok (byte_swap_if_needed host w (value_of host bs) order))
    else throw_malformed s.format (past_the_end field offset s.scope s.size)

unfoldable pub read : Width → ByteSpan → ℕ → ByteOrder → String → Outcome ℕ
unfolding read_on
read = read_on little

-- Read<T> for a packed structure of `count` bytes: ToHostOrder leaves it as it is.
unfoldable pub read_struct : ℕ → ByteSpan → ℕ → String → Outcome Bytes
read_struct count s offset field =
    if range_fits offset count s.size
    then at s offset count
    else throw_malformed s.format (past_the_end field offset s.scope s.size)

unfoldable pub sub : ByteSpan → ℕ → ℕ → String → Outcome ByteSpan
sub s offset count structure =
    if range_fits offset count s.size
    then ok (record s { base = s.base + offset; size = count; scope = structure })
    else throw_malformed s.format (structure_past_the_end structure offset count s.scope s.size)

-- The bytes of a view.
abbrev pub content : ByteSpan → ℕ → ℕ → Bytes
content s offset count = take count (drop (s.base + offset) s.bytes)

module _ {s : ByteSpan} (v : IsValid s) (offset : ℕ) where
  -- Inside the view the buffer is never left.
  pub at_lem :
      (count : ℕ) → offset + count ≤ s.size → at s offset count ≡ ok (content s offset count)
  unfolding memory
  at_lem count h = ground (arith, v.inside)

  pub length-content :
      (count : ℕ) → offset + count ≤ s.size → length (content s offset count) ≡ count
  length-content count h = omega (
    arith,
    v.inside,
    length-take count (drop (s.base + offset) s.bytes),
    length-drop (s.base + offset) s.bytes,
  )

  pub content-IsByte : (count : ℕ) → All IsByte (content s offset count)
  content-IsByte count =
      All-take IsByte count _ (All-drop IsByte (s.base + offset) s.bytes v.are_bytes)

  -- Read gives the number that the bytes of the file stand for, on a host of either order, or
  -- refuses, exactly when the field does not lie inside the view.
  pub read_on-exact :
      (host order : ByteOrder) (w : Width) (field : String)
      → read_on host w s offset order field ≡ (
          if range_fits offset (sizeof w) s.size
          then ok (value_of order (content s offset (sizeof w)))
          else throw_malformed s.format (past_the_end field offset s.scope s.size))
  unfolding read_on
  read_on-exact host order w field = elim (Bool-cases (range_fits offset (sizeof w) s.size)) [
    | inl fits ↦
        let inside = (range_fits_iff offset (sizeof w) s.size).0 fits in
        rw (fits, at_lem (sizeof w) inside)
          (ap ok (
            load-value_of host order w (content s offset (sizeof w))
              (length-content (sizeof w) inside) (content-IsByte (sizeof w))))
    | inr out ↦ rw out
  ]

module _ {s : ByteSpan} (v : IsValid s) (offset : ℕ) where
  pub read-Returns :
      (order : ByteOrder) (w : Width) (field : String)
      → Returns (λ n. n < modulus w) (read w s offset order field)
  unfolding read
  read-Returns order w field =
      rw (read_on-exact v offset little order w field)
        (elim (Bool-cases (range_fits offset (sizeof w) s.size)) [
          | inl fits ↦
              let inside = (range_fits_iff offset (sizeof w) s.size).0 fits in
              rw fits (
                value (
                  value_of-lt order w (content s offset (sizeof w))
                    (length-content v offset (sizeof w) inside)
                    (content-IsByte v offset (sizeof w))))
          | inr out ↦ rw out refusal
        ])

  pub read_struct-Returns :
      (count : ℕ) (field : String)
      → Returns (λ bs. (length bs ≡ count) × All IsByte bs) (read_struct count s offset field)
  unfolding read_struct
  read_struct-Returns count field = elim (Bool-cases (range_fits offset count s.size)) [
    | inl fits ↦
        let inside = (range_fits_iff offset count s.size).0 fits in
        rw (fits, at_lem v offset count inside)
          (value (length-content v offset count inside, content-IsByte v offset count))
    | inr out ↦ rw out refusal
  ]

  pub read_struct-fits :
      (count : ℕ) (field : String)
      → Returns (λ _. offset + count ≤ s.size) (read_struct count s offset field)
  unfolding read_struct
  read_struct-fits count field = elim (Bool-cases (range_fits offset count s.size)) [
    | inl fits ↦
        let inside = (range_fits_iff offset count s.size).0 fits in
        rw (fits, at_lem v offset count inside) (value inside)
    | inr out ↦ rw out refusal
  ]

  -- A direct access is defined inside the view.
  pub at-Returns : (count : ℕ) → offset + count ≤ s.size → Returns (λ _. Unit) (at s offset count)
  at-Returns count inside = rw (at_lem v offset count inside) (value tt)

-- `t` is the part of `s` at [offset, offset + count).
pub record IsPart (s : ByteSpan) (offset count : ℕ) (t : ByteSpan) : Type 0 where
  pub valid : IsValid t
  pub bytes_eq : t.bytes ≡ s.bytes
  pub base_eq : t.base ≡ s.base + offset
  pub size_eq : t.size ≡ count
  pub format_eq : t.format ≡ s.format
  pub fits : offset + count ≤ s.size

-- Sub gives a valid view that lies inside the one it is taken from, or refuses.
pub sub-Returns :
    {s : ByteSpan}
    → IsValid s
    → (offset count : ℕ) (structure : String)
    → Returns (IsPart s offset count) (sub s offset count structure)
unfolding sub
sub-Returns {s} v offset count structure = elim (Bool-cases (range_fits offset count s.size)) [
  | inl fits ↦
      let inside = (range_fits_iff offset count s.size).0 fits in
      rw fits (
        value (record {
          valid = record { inside = omega (arith, v.inside); are_bytes = v.are_bytes };
          bytes_eq = refl;
          base_eq = refl;
          size_eq = refl;
          format_eq = refl;
          fits = inside;
        }))
  | inr out ↦ rw out refusal
]

pub whole-IsValid :
    (bytes : Bytes) (format scope : String) → All IsByte bytes → IsValid (whole bytes format scope)
whole-IsValid bytes format scope h = record { inside = omega arith; are_bytes = h }

-- A field of a packed structure, swapped by ByteSwapIfNeeded on a little-endian host.
unfoldable pub field : Width → ByteOrder → Bytes → ℕ → ℕ
field w order block place =
    byte_swap_if_needed little w (value_of little (take (sizeof w) (drop place block))) order

-- The number that the bytes of the field stand for, in the order of the file.
pub field_lem :
    (w : Width) (order : ByteOrder) (block : Bytes) (place : ℕ)
    → All IsByte block
    → place + sizeof w ≤ length block
    → (field w order block place ≡ value_of order (take (sizeof w) (drop place block)))
      × (field w order block place < modulus w)
unfolding field
field_lem w order block place h fits =
    let bs = take (sizeof w) (drop place block) in
    let count : length bs ≡ sizeof w =
      omega (arith, length-take (sizeof w) (drop place block), length-drop place block) in
    let are : All IsByte bs = All-take IsByte (sizeof w) _ (All-drop IsByte place block h) in
    let same = load-value_of little order w bs count are in
    (same, rw same (value_of-lt order w bs count are))
