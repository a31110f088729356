-- ===== src/Paged/Tests.antt =====
-- A small file, read through one page.
use libthe_seed.Prelude.{◌≡◌, refl, [], ◌∷◌, some, ok, take, drop, arith, Returns}
use libthe_seed.Bounded.Order.{Bytes}
use libthe_seed.Bounded.Span.{memory}
use libthe_seed.Paged.Cache.{
  OpenFile, lookup_page, keep_page, page_of, page, copy_into, join_pages, ensure,
}
use libthe_seed.Paged.Slice.{Holds, IsCoherent, ensure-Returns}

abbrev small_content : Bytes
small_content = 11 ∷ 12 ∷ 13 ∷ 14 ∷ 15 ∷ 16 ∷ []

abbrev small_file : OpenFile
small_file = record {
  size = 6;
  read_at = λ start count. some (take count (drop start small_content));
}

small_file-Holds : Holds small_file small_content
small_file-Holds = record { size_eq = refl; reads = λ start count bytes e. cc }

small_ensure : ensure small_file 2 3 [] ≡ ok ((0, small_content) ∷ [], 13 ∷ 14 ∷ 15 ∷ [])
unfolding memory lookup_page keep_page page_of page copy_into join_pages ensure
small_ensure = refl

ensure-Returns_example :
    Returns
      (λ r. IsCoherent small_file small_content r.0 × (r.1 ≡ take 3 (drop 2 small_content)))
      (ensure small_file 2 3 [])
ensure-Returns_example = ensure-Returns small_file-Holds 2 3 [] (omega arith) tt
