-- ===== src/Pak/Description.antt =====
-- DescriptionRead of src/internal/PakIndex.cpp: the description line, read in chunks.
use libthe_seed.Prelude.{
  ℕ, zero, suc, ◌+◌, ◌-◌, ◌*◌, ◌/◌, ◌≤◌, ◌≡◌, [], ◌++◌, Option, none, some, min, ltb, if◌then◌else◌,
  length, take, drop, find,
}
use libthe_seed.Bounded.Order.{Bytes}
use libthe_seed.Pak.File.{
  PakFile, ReadResult, filled, short_read, refused, PakResult, ok, err, PakError, damaged,
  read_error, shorter_than_described, line_too_long, no_newline,
}

abbrev pub description_limit : ℕ
description_limit = 64 * 1024 * 1024

abbrev pub chunk_size : ℕ
chunk_size = 64 * 1024

-- What the end of the loop throws.
abbrev pub no_line : ℕ → PakError
no_line file_size =
    if ltb description_limit file_size
    then damaged line_too_long
    else damaged (no_newline file_size)

-- One chunk, and what is done after it; `next` is the rest of the loop.
unfoldable pub take_chunk :
    ℕ → Bytes → (Bytes → PakResult (Bytes × ℕ)) → Option ℕ → Bytes → PakResult (Bytes × ℕ)
take_chunk position line next (some place) chunk =
    ok (line ++ take place chunk, position + place + 1)
take_chunk position line next none chunk = next (line ++ chunk)

unfoldable pub chunk_read : ReadResult → (Bytes → PakResult (Bytes × ℕ)) → PakResult (Bytes × ℕ)
chunk_read (filled chunk) next = next chunk
chunk_read (short_read offset expected got) next =
    err (damaged (shorter_than_described offset expected got))
chunk_read (refused text) next = err (read_error text)

-- The loop, with a bound on the rounds left; every round but the last reads a whole chunk.
unfoldable pub description_loop : PakFile → ℕ → ℕ → ℕ → ℕ → Bytes → PakResult (Bytes × ℕ)
description_loop file file_size scan zero position line = err (no_line file_size)
description_loop file file_size scan (suc rounds) position line =
    let count = min chunk_size (scan - position) in
    let round = chunk_read (file.read_at position count) λ chunk.
      take_chunk position line (description_loop file file_size scan rounds (position + count))
        (find b'\n' chunk) chunk in
    if ltb position scan then round else err (no_line file_size)

-- The line without its newline, and the offset just past that newline.
unfoldable pub description_read : PakFile → ℕ → PakResult (Bytes × ℕ)
description_read file file_size =
    let scan = min file_size description_limit in
    description_loop file file_size scan (scan / chunk_size + 1) 0 []

-- The file holds `content`, and every read inside it is answered from there.
pub record Holds (file : PakFile) (content : Bytes) : Type 0 where
  pub size_is : file.stamp.size ≡ length content
  pub reads :
      (offset count : ℕ)
      → offset + count ≤ length content
      → file.read_at offset count ≡ filled (take count (drop offset content))
