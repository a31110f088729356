-- ===== src/Pe/Listing.antt =====
-- What the PE listing returns.
use libthe_seed.Prelude.{
  ℕ, ◌+◌, ◌*◌, ◌%◌, ◌^◌, ◌≡◌, ◌≤◌, ◌<◌, ◌&&◌, List, [], ◌∷◌, ◌++◌, length, any, same_name, ltb,
  ◌==◌, All, All-append, Bool-cases, arith, inl, inr, false, Returns, value, Returns-bind,
  Returns-reject_if, Returns-if,
}
use libthe_seed.Bounded.Range.{u64_mod}
use libthe_seed.Bounded.Order.{little, bytes4, Bytes, IsByte}
use libthe_seed.Bounded.Span.{ByteSpan, IsValid, read-Returns, sub-Returns, whole-IsValid}
use libthe_seed.Bounded.Text.{IsTextAt, c_string-Returns}
use libthe_seed.Bounded.Listing.{StandsIn, IsListing, total_length, total_length-append}
use libthe_seed.Pe.Headers.{pe_format, from_little_endian, SectionHeader, Headers, Directories}
use libthe_seed.Pe.Names.{
  max_name_length, lower_ascii, import_names, delay_names, lowered, names_of_tables, pe_span,
  list_dependencies_from_bytes,
}
use libthe_seed.Pe.Safety.{
  rva_to_offset-Returns, dos_header-Returns, pe_headers-Returns, read_directories-Returns,
  read_sections-Returns, import_rvas-Returns, delay_rvas-Returns,
}

module _ {file : ByteSpan} (v : IsValid file) (small : file.size < 2 ^ 63)
    (sections : List SectionHeader) (size_of_headers : ℕ) where
  -- The names so far stand in the file, and `total` counts at least their bytes.
  record IsCounted (total : ℕ) (names : List Bytes) : Type 0 where
    stand : All (StandsIn max_name_length file) names
    counted : total_length names ≤ total
    fits : total ≤ file.size

  IsCounted-listed :
      {total : ℕ} {names : List Bytes}
      → IsCounted total names
      → (name : Bytes) (offset : ℕ) → IsTextAt file offset max_name_length name
      → ltb file.size ((total + length name) % u64_mod) ≡ false
      → IsCounted ((total + length name) % u64_mod) (names ++ name ∷ [])
  IsCounted-listed {total} {names} c name offset text within = record {
    stand =
        All-append (StandsIn max_name_length file) names (name ∷ []) c.stand ((offset, text), tt);
    counted =
        omega (arith, c.counted, c.fits, text.short, small, total_length-append names (name ∷ []));
    fits = ground (arith, within);
  }

  IsCounted-skipped :
      {total : ℕ} {names : List Bytes}
      → IsCounted total names
      → (name : Bytes) (offset : ℕ) → IsTextAt file offset max_name_length name
      → ltb file.size ((total + length name) % u64_mod) ≡ false
      → IsCounted ((total + length name) % u64_mod) names
  IsCounted-skipped c name offset text within = record {
    stand = c.stand;
    counted = omega (arith, c.counted, c.fits, text.short, small);
    fits = ground (arith, within);
  }

  import_names-Returns :
      (total : ℕ) (names : List Bytes) (rvas : List ℕ)
      → IsCounted total names
      → Returns
          (λ r. IsCounted r.0 r.1)
          (import_names file sections size_of_headers total names rvas)
  unfolding import_names
  import_names-Returns total names [] c = value c
  import_names-Returns total names (rva ∷ rest) c =
      Returns-bind _ (rva_to_offset-Returns rva sections size_of_headers file.size "DLL name")
        λ offset _.
          Returns-bind _ (c_string-Returns v offset max_name_length "DLL name") λ name text.
            Returns-reject_if (ltb file.size ((total + length name) % u64_mod)) _ _ _ λ within.
              import_names-Returns ((total + length name) % u64_mod) (names ++ name ∷ []) rest
                (IsCounted-listed c name offset text within)

  delay_names-Returns :
      (total : ℕ) (seen names : List Bytes) (rvas : List ℕ)
      → IsCounted total names
      → Returns
          (IsListing max_name_length file)
          (delay_names file sections size_of_headers total seen names rvas)
  unfolding delay_names
  delay_names-Returns total seen names [] c =
      value (record { stand = c.stand; total = omega (arith, c.counted, c.fits) })
  delay_names-Returns total seen names (rva ∷ rest) c =
      Returns-bind _
        (rva_to_offset-Returns rva sections size_of_headers file.size "delay-load library name")
        λ offset _.
          Returns-bind _ (c_string-Returns v offset max_name_length "delay-load library name")
            λ name text.
              Returns-reject_if (ltb file.size ((total + length name) % u64_mod)) _ _ _ λ within.
                elim (Bool-cases (any (same_name (lower_ascii name)) seen)) [
                  | inl known ↦ rw known (
                      delay_names-Returns ((total + length name) % u64_mod) seen names rest
                        (IsCounted-skipped c name offset text within))
                  | inr new ↦ rw new (
                      delay_names-Returns ((total + length name) % u64_mod)
                        (lower_ascii name ∷ seen) (names ++ name ∷ []) rest
                        (IsCounted-listed c name offset text within))
                ]

module _ {file : ByteSpan} (v : IsValid file) (small : file.size < 2 ^ 63) where
  names_of_tables-Returns :
      (h : Headers) (d : Directories)
      → Returns (IsListing max_name_length file) (names_of_tables file h d)
  unfolding names_of_tables
  names_of_tables-Returns h d =
      Returns-bind _ (read-Returns v (h.optional_header_offset + 60) little bytes4 "SizeOfHeaders")
        λ headers _.
          let size = from_little_endian bytes4 headers in
          Returns-bind _ (sub-Returns v _ (h.section_count * 40) "section table") λ table part.
            Returns-bind _ (read_sections-Returns part.valid 0 h.section_count []) λ sections _.
              Returns-bind _ (import_rvas-Returns v sections size d.import_table_rva) λ rvas _.
                Returns-bind _ (delay_rvas-Returns v h sections size d) λ delay _.
                  Returns-bind _
                    (import_names-Returns v small sections size 0 [] rvas
                      (record { stand = tt; counted = omega arith; fits = omega arith }))
                    λ (total, names) counted.
                      delay_names-Returns v small sections size total (lowered names) names delay
                        counted

-- For a file of bytes below 2 ^ 63 bytes, the PE listing ends, reads nothing outside the file, and
-- every name it returns stands in the file, ended by a NUL, below the limit, the names together
-- no longer than the file.
pub list_dependencies_from_bytes-Returns :
    (bytes : Bytes)
    → All IsByte bytes
    → length bytes < 2 ^ 63
    → Returns (IsListing max_name_length (pe_span bytes)) (list_dependencies_from_bytes bytes)
unfolding list_dependencies_from_bytes
list_dependencies_from_bytes-Returns bytes are small =
    Returns-bind _ (dos_header-Returns v) λ e_lfanew _.
      Returns-bind _ (pe_headers-Returns v e_lfanew) λ h _.
        Returns-bind _ (read_directories-Returns v h) λ d _.
          Returns-if (d.import_table_rva == 0 && d.delay_table_rva == 0)
            (λ _. value (record { stand = tt; total = omega arith }))
            λ _. names_of_tables-Returns v small h d
  where
    v : IsValid (pe_span bytes)
    v = whole-IsValid bytes pe_format "the file" are
