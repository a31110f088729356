-- ===== src/Paged/Cache.antt =====
-- PagedFile::Page and PagedFile::Ensure of src/internal/PagedFile.cpp. A pointer that Ensure gives
-- out is the bytes it points to. `joined`, which only keeps those bytes alive, is left out.
use libthe_seed.Prelude.{
  ℕ, zero, suc, ◌+◌, ◌-◌, ◌*◌, ◌/◌, min, max, List, [], ◌∷◌, ◌++◌, Option, none, some, leb, ◌==◌,
  if◌then◌else◌, length, Outcome, ok, fault, ◌>>=◌, throw_malformed, said,
}
use libthe_seed.Bounded.Order.{Bytes}
use libthe_seed.Bounded.Span.{memory}

abbrev pub page_size : ℕ
page_size = 65536

-- The open file: its size when it was opened, and RandomAccessFile::ReadAt, `none` when it throws.
pub record OpenFile : Type 0 where
  pub size : ℕ
  pub read_at : ℕ → ℕ → Option Bytes

abbrev pub Pages : Type 0
Pages = List (ℕ × Bytes)

unfoldable pub lookup_page : ℕ → Pages → Option Bytes
lookup_page index [] = none
lookup_page index ((key, bytes) ∷ rest) =
    let later = lookup_page index rest in if key == index then some bytes else later

unfoldable pub keep_page : Pages → ℕ → Option Bytes → Outcome (Pages × Bytes)
keep_page pages index none = throw_malformed "Unable to read file" (said "the path of the file" [])
keep_page pages index (some bytes) = ok ((index, bytes) ∷ pages, bytes)

module _ (file : OpenFile) where
  -- A page that is held is not read again.
  unfoldable pub page_of : Pages → ℕ → Option Bytes → Outcome (Pages × Bytes)
  page_of pages index (some bytes) = ok (pages, bytes)
  page_of pages index none =
      let start = index * page_size in
      keep_page pages index (file.read_at start (min page_size (file.size - start)))

  unfoldable pub page : Pages → ℕ → Outcome (Pages × Bytes)
  page pages index = page_of pages index (lookup_page index pages)

-- The copy into a buffer of `count` bytes, behind those written; past its end it is undefined.
unfoldable pub copy_into : ℕ → Bytes → Bytes → Outcome Bytes
copy_into count together part =
    if leb (length together + length part) count then ok (together ++ part) else fault

module _ (file : OpenFile) (offset count : ℕ) where
  -- The loop over the pages, with `left` pages to go.
  unfoldable pub join_pages : ℕ → ℕ → Pages → Bytes → Outcome (Pages × Bytes)
  join_pages index zero pages together = ok (pages, together)
  join_pages index (suc left) pages together = page file pages index >>= λ (held, bytes).
      let start = index * page_size in
      let from = max offset start - start in
      let to = min (offset + count) (start + page_size) - start in
      memory bytes from (to - from) >>= λ part.
      copy_into count together part >>= λ more. join_pages (index + 1) left held more

  unfoldable pub ensure : Pages → Outcome (Pages × Bytes)
  ensure pages =
      if count == 0
      then ok (pages, [])
      else let first = offset / page_size in
        let last = (offset + count - 1) / page_size in
        if first == last
        then (page file pages first >>= λ (held, bytes).
            memory bytes (offset - first * page_size) count >>= λ part. ok (held, part))
        else join_pages first (last - first + 1) pages []
