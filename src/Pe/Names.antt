-- ===== src/Pe/Names.antt =====
-- The names and ListDependenciesFromBytes of src/internal/PeParser.cpp.
use libthe_seed.Prelude.{
  ℕ, ◌+◌, ◌-◌, ◌*◌, ◌%◌, ◌&&◌, List, [], ◌∷◌, ◌++◌, any, same_name, length, ltb, leb, ◌==◌,
  if◌then◌else◌, Outcome, ok, ◌>>=◌, ◌>>◌, reject_if, said,
}
use libthe_seed.Bounded.Range.{u64_mod}
use libthe_seed.Bounded.Order.{little, bytes4, Bytes}
use libthe_seed.Bounded.Span.{ByteSpan, whole, read, sub}
use libthe_seed.Bounded.Text.{c_string}
use libthe_seed.Pe.Headers.{
  pe_format, from_little_endian, SectionHeader, rva_to_offset, Headers, pe_headers, dos_header,
  Directories, read_directories, read_sections,
}
use libthe_seed.Pe.Imports.{import_rvas, delay_rvas}

abbrev pub max_name_length : ℕ
max_name_length = 4096

abbrev pub lower_byte : ℕ → ℕ
lower_byte c = if leb b'A' c && leb c b'Z' then c - b'A' + b'a' else c

unfoldable pub lower_ascii : Bytes → Bytes
lower_ascii [] = []
lower_ascii (c ∷ text) = lower_byte c ∷ lower_ascii text

module _ (file : ByteSpan) (sections : List SectionHeader) (size_of_headers : ℕ) where
  -- The loop over the imported names; it also gives the bytes of the names so far.
  unfoldable pub import_names : ℕ → List Bytes → List ℕ → Outcome (ℕ × List Bytes)
  import_names total dependencies [] = ok (total, dependencies)
  import_names total dependencies (name_rva ∷ rest) =
      rva_to_offset name_rva sections size_of_headers file.size "DLL name" >>= λ name_offset.
      c_string file name_offset max_name_length "DLL name" >>= λ name.
      let total' = (total + length name) % u64_mod in
      reject_if (ltb file.size total') pe_format
        (said "DLL names total more bytes than the file" (total' ∷ file.size ∷ []))
      >> import_names total' (dependencies ++ name ∷ []) rest

  -- `seen` holds the lower-case names; a name that is in it is not listed again.
  unfoldable pub delay_names : ℕ → List Bytes → List Bytes → List ℕ → Outcome (List Bytes)
  delay_names total seen dependencies [] = ok dependencies
  delay_names total seen dependencies (name_rva ∷ rest) =
      rva_to_offset name_rva sections size_of_headers file.size "delay-load library name"
      >>= λ name_offset.
          c_string file name_offset max_name_length "delay-load library name" >>= λ name.
          let total' = (total + length name) % u64_mod in
          reject_if (ltb file.size total') pe_format (
            said "delay-load library names total more bytes than the file"
              (total' ∷ file.size ∷ []))
          >> (let known = any (same_name (lower_ascii name)) seen in
              delay_names total' (if known then seen else lower_ascii name ∷ seen)
                (if known then dependencies else dependencies ++ name ∷ []) rest)

unfoldable pub lowered : List Bytes → List Bytes
lowered [] = []
lowered (name ∷ rest) = lower_ascii name ∷ lowered rest

unfoldable pub names_of_tables : ByteSpan → Headers → Directories → Outcome (List Bytes)
names_of_tables file h d =
    read bytes4 file (h.optional_header_offset + 60) little "SizeOfHeaders" >>= λ headers.
    let size_of_headers = from_little_endian bytes4 headers in
    sub file (h.optional_header_offset + h.optional_header_size) (h.section_count * 40)
      "section table"
    >>= λ section_table. read_sections section_table 0 h.section_count [] >>= λ sections.
        import_rvas file sections size_of_headers d.import_table_rva >>= λ name_rvas.
        delay_rvas file h sections size_of_headers d >>= λ delay_name_rvas.
        import_names file sections size_of_headers 0 [] name_rvas >>= λ (total, dependencies).
        delay_names file sections size_of_headers total (lowered dependencies) dependencies
          delay_name_rvas

abbrev pub pe_span : Bytes → ByteSpan
pe_span bytes = whole bytes pe_format "the file"

unfoldable pub list_dependencies_from_bytes : Bytes → Outcome (List Bytes)
list_dependencies_from_bytes bytes = dos_header (pe_span bytes) >>= λ e_lfanew.
    pe_headers (pe_span bytes) e_lfanew >>= λ h. read_directories (pe_span bytes) h >>= λ d.
    if d.import_table_rva == 0 && d.delay_table_rva == 0
    then ok []
    else names_of_tables (pe_span bytes) h d
