-- ===== src/Pe/Tests.antt =====
-- A 32-bit PE file that imports A.dll, and a.DLL and b on delay; its RVAs are offsets.
use libthe_seed.Prelude.{
  ◌≡◌, refl, List, [], ◌∷◌, ◌++◌, ok, replicate, arith, Returns, any, same_name,
}
use libthe_seed.Bounded.Range.{range_fits}
use libthe_seed.Bounded.Order.{Bytes, byte_swap_if_needed}
use libthe_seed.Bounded.Span.{memory, read, read_on, read_struct, sub, field, whole-IsValid}
use libthe_seed.Bounded.Text.{c_string}
use libthe_seed.Bounded.Listing.{IsListing}
use libthe_seed.Pe.Headers.{
  from_little_endian, rva_to_offset, directory_offset, pe_headers, dos_header, read_directories,
  read_sections,
}
use libthe_seed.Pe.Imports.{
  import_walk, import_rvas, delay_name_rva, delay_walk, read_image_base, delay_rvas,
}
use libthe_seed.Pe.Names.{
  max_name_length, lower_ascii, import_names, delay_names, lowered, names_of_tables, pe_span,
  list_dependencies_from_bytes,
}
use libthe_seed.Pe.Listing.{list_dependencies_from_bytes-Returns}
use libthe_seed.Pe.Fresh.{Extends, delay_names-Extends}

abbrev library : Bytes
library =
    (77 ∷ 90 ∷ [])
    ++ replicate 58 0
    ++ (64 ∷ 0 ∷ 0 ∷ 0 ∷ 80 ∷ 69 ∷ [])
    ++ replicate 18 0
    ++ (208 ∷ 0 ∷ 0 ∷ 0 ∷ 11 ∷ 1 ∷ [])
    ++ replicate 58 0
    ++ (232 ∷ 3 ∷ [])
    ++ replicate 30 0
    ++ (14 ∷ [])
    ++ replicate 11 0
    ++ (40 ∷ 1 ∷ 0 ∷ 0 ∷ 40 ∷ [])
    ++ replicate 91 0
    ++ (80 ∷ 1 ∷ 0 ∷ 0 ∷ 96 ∷ 0 ∷ 0 ∷ 0 ∷ 1 ∷ [])
    ++ replicate 11 0
    ++ (176 ∷ 1 ∷ [])
    ++ replicate 26 0
    ++ (1 ∷ 0 ∷ 0 ∷ 0 ∷ 182 ∷ 1 ∷ [])
    ++ replicate 26 0
    ++ (1 ∷ 0 ∷ 0 ∷ 0 ∷ 188 ∷ 1 ∷ [])
    ++ replicate 58 0
    ++ (65 ∷ 46 ∷ 100 ∷ 108 ∷ 108 ∷ 0 ∷ 97 ∷ 46 ∷ 68 ∷ 76 ∷ 76 ∷ 0 ∷ 98 ∷ 0 ∷ [])

abbrev imported : Bytes
imported = b'A' ∷ b'.' ∷ b'd' ∷ b'l' ∷ b'l' ∷ []

library_names : list_dependencies_from_bytes library ≡ ok (imported ∷ (b'b' ∷ []) ∷ [])
unfolding range_fits byte_swap_if_needed memory read_on read read_struct sub field c_string
    from_little_endian rva_to_offset directory_offset pe_headers dos_header read_directories
    read_sections import_walk import_rvas delay_name_rva delay_walk read_image_base delay_rvas
    lower_ascii import_names delay_names lowered names_of_tables list_dependencies_from_bytes any
    same_name
library_names = refl

list_dependencies_from_bytes-Returns_example :
    Returns (IsListing max_name_length (pe_span library)) (list_dependencies_from_bytes library)
list_dependencies_from_bytes-Returns_example =
    list_dependencies_from_bytes-Returns library (ground arith) (omega arith)

abbrev seen_names : List Bytes
seen_names = (b'a' ∷ b'.' ∷ b'd' ∷ b'l' ∷ b'l' ∷ []) ∷ []

delay_names-Extends_example :
    Returns
      (Extends seen_names (imported ∷ []))
      (delay_names (pe_span library) [] 1000 5 seen_names (imported ∷ []) (438 ∷ 444 ∷ []))
delay_names-Extends_example =
    delay_names-Extends (whole-IsValid library "PE" "the file" (ground arith)) [] 1000 5 seen_names
      (imported ∷ []) (438 ∷ 444 ∷ [])
