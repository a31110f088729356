-- ===== src/Bounded/Listing.antt =====
-- A list of names that a binary records, as the listings of the ELF and PE parsers return it.
use libthe_seed.Prelude.{ℕ, ◌+◌, ◌≤◌, ◌≡◌, List, [], ◌∷◌, ◌++◌, arith, length, All}
use libthe_seed.Bounded.Order.{Bytes}
use libthe_seed.Bounded.Span.{ByteSpan}
use libthe_seed.Bounded.Text.{IsTextAt}

-- The name stands in the file, ended by a NUL, and is shorter than the limit.
abbrev pub StandsIn : ℕ → ByteSpan → Bytes → Type 0
StandsIn limit file name = (offset : ℕ) × IsTextAt file offset limit name

abbrev pub total_length : List Bytes → ℕ
total_length [] = 0
total_length (name ∷ rest) = length name + total_length rest

-- Every name stands in the file, and together they are no longer than it.
pub record IsListing (limit : ℕ) (file : ByteSpan) (names : List Bytes) : Type 0 where
  pub stand : All (StandsIn limit file) names
  pub total : total_length names ≤ file.size

pub total_length-append :
    (xs ys : List Bytes) → total_length (xs ++ ys) ≡ total_length xs + total_length ys
total_length-append [] ys = omega arith
total_length-append (x ∷ xs) ys = omega (arith, total_length-append xs ys)
