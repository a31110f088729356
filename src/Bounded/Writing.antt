-- ===== src/Bounded/Writing.antt =====
-- MutableByteSpan of src/internal/BoundedBytes.hpp. It has the fields of a ByteSpan; writing gives
-- the view with the buffer as it is afterwards.
use libthe_seed.Prelude.{
  ℕ, zero, suc, ◌+◌, ◌/◌, ◌%◌, String, [], ◌∷◌, ◌++◌, leb, if◌then◌else◌, length, take, drop,
  replicate, Outcome, ok, fault, ◌>>=◌, ◌>>◌, reject_if, throw_malformed, past_the_end,
  structure_past_the_end, not,
}
use libthe_seed.Bounded.Range.{range_fits}
use libthe_seed.Bounded.Order.{ByteOrder, little, big, Width, sizeof, byte_swap_if_needed, Bytes}
use libthe_seed.Bounded.Span.{ByteSpan}

-- A copy into the buffer. Outside it there is nothing to write to.
abbrev pub splice : ℕ → Bytes → Bytes → Bytes
splice start bytes source = take start bytes ++ (source ++ drop (start + length source) bytes)

unfoldable pub put : Bytes → ℕ → Bytes → Outcome Bytes
put bytes start source =
    if leb (start + length source) (length bytes) then ok (splice start bytes source) else fault

-- The bytes of a number in memory, least or most significant first.
abbrev pub le_bytes : ℕ → ℕ → Bytes
le_bytes zero v = []
le_bytes (suc n) v = v % 256 ∷ le_bytes n (v / 256)

abbrev pub rev_onto : Bytes → Bytes → Bytes
rev_onto acc [] = acc
rev_onto acc (b ∷ bs) = rev_onto (b ∷ acc) bs

abbrev pub bytes_of : ByteOrder → ℕ → ℕ → Bytes
bytes_of little n v = le_bytes n v
bytes_of big n v = rev_onto [] (le_bytes n v)

-- Write<T> for a number, on a host of the given order.
unfoldable pub write_on :
    ByteOrder → Width → ByteSpan → ℕ → ℕ → ByteOrder → String → Outcome ByteSpan
write_on host w s offset v order field =
    if range_fits offset (sizeof w) s.size
    then (put s.bytes (s.base + offset)
          (bytes_of host (sizeof w) (byte_swap_if_needed host w v order))
        >>= λ bytes. ok (record s { bytes = bytes }))
    else throw_malformed s.format (past_the_end field offset s.scope s.size)

unfoldable pub check : ByteSpan → ℕ → ℕ → String → Outcome (Unit {0})
check s offset length structure =
    reject_if (not (range_fits offset length s.size)) s.format
      (structure_past_the_end structure offset length s.scope s.size)

unfoldable pub fill : ByteSpan → ℕ → ℕ → ℕ → String → Outcome ByteSpan
fill s offset count byte structure =
    check s offset count structure
    >> (put s.bytes (s.base + offset) (replicate count byte) >>= λ bytes.
        ok (record s { bytes = bytes }))

unfoldable pub copy : ByteSpan → ℕ → Bytes → String → Outcome ByteSpan
copy s offset source structure =
    check s offset (length source) structure
    >> (put s.bytes (s.base + offset) source >>= λ bytes. ok (record s { bytes = bytes }))
