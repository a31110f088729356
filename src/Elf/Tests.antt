-- ===== src/Elf/Tests.antt =====
-- A 64-bit little-endian ELF file with one PT_LOAD, one PT_DYNAMIC and two DT_NEEDED names.
use libthe_seed.Prelude.{◌≡◌, refl, [], ◌∷◌, ◌++◌, ok, replicate, arith, Returns, some}
use libthe_seed.Bounded.Range.{range_fits, checked_add, checked_multiply}
use libthe_seed.Bounded.Order.{Bytes, byte_swap_if_needed}
use libthe_seed.Bounded.Elements.{element, matches}
use libthe_seed.Bounded.Span.{ByteSpan, memory, read_struct, sub, field}
use libthe_seed.Bounded.Listing.{IsListing}
use libthe_seed.Bounded.Text.{c_string}
use libthe_seed.Elf.Tables.{
  LoadSegment, Segments, no_segments, Dynamic, no_entries, find_file_backed_segment, take_load,
  take_header, take_entry, program_headers, dynamic_entries,
}
use libthe_seed.Elf.Names.{
  max_name_length, elf_span, list_from_bytes, parse_class, needed_names, names_in_segment,
  string_table_names, names_of_dynamic, parse_elf,
}
use libthe_seed.Elf.Safety.{list_from_bytes-Returns}

abbrev pub program : Bytes
program =
    (127 ∷ 69 ∷ 76 ∷ 70 ∷ 2 ∷ 1 ∷ 1 ∷ [])
    ++ replicate 9 0
    ++ (3 ∷ 0 ∷ 62 ∷ 0 ∷ 1 ∷ [])
    ++ replicate 11 0
    ++ (64 ∷ [])
    ++ replicate 19 0
    ++ (64 ∷ 0 ∷ 56 ∷ 0 ∷ 2 ∷ [])
    ++ replicate 7 0
    ++ (1 ∷ 0 ∷ 0 ∷ 0 ∷ 5 ∷ [])
    ++ replicate 12 0
    ++ (16 ∷ [])
    ++ replicate 14 0
    ++ (19 ∷ 1 ∷ [])
    ++ replicate 6 0
    ++ (19 ∷ 1 ∷ [])
    ++ replicate 7 0
    ++ (16 ∷ [])
    ++ replicate 6 0
    ++ (2 ∷ 0 ∷ 0 ∷ 0 ∷ 6 ∷ 0 ∷ 0 ∷ 0 ∷ 176 ∷ [])
    ++ replicate 7 0
    ++ (176 ∷ 16 ∷ [])
    ++ replicate 14 0
    ++ (80 ∷ [])
    ++ replicate 7 0
    ++ (80 ∷ [])
    ++ replicate 7 0
    ++ (8 ∷ [])
    ++ replicate 7 0
    ++ (1 ∷ [])
    ++ replicate 7 0
    ++ (1 ∷ [])
    ++ replicate 7 0
    ++ (1 ∷ [])
    ++ replicate 7 0
    ++ (11 ∷ [])
    ++ replicate 7 0
    ++ (5 ∷ [])
    ++ replicate 8 0
    ++ (17 ∷ [])
    ++ replicate 6 0
    ++ (10 ∷ [])
    ++ replicate 7 0
    ++ (19 ∷ [])
    ++ replicate 24 0
    ++ (108 ∷ 105 ∷ 98 ∷ 99 ∷ 46 ∷ 115 ∷ 111 ∷ 46 ∷ 54 ∷ 0 ∷ 108 ∷ 105 ∷ 98 ∷ 109 ∷ 46 ∷ 115 ∷ 111
        ∷ 0 ∷ [])

abbrev pub libc : Bytes
libc = b'l' ∷ b'i' ∷ b'b' ∷ b'c' ∷ b'.' ∷ b's' ∷ b'o' ∷ b'.' ∷ b'6' ∷ []

abbrev pub libm : Bytes
libm = b'l' ∷ b'i' ∷ b'b' ∷ b'm' ∷ b'.' ∷ b's' ∷ b'o' ∷ []

pub list_program : list_from_bytes program ≡ ok (libc ∷ libm ∷ [])
unfolding list_from_bytes element matches parse_class parse_elf names_of_dynamic string_table_names
    names_in_segment needed_names program_headers take_header take_load dynamic_entries take_entry
    find_file_backed_segment read_struct sub memory field byte_swap_if_needed range_fits checked_add
    checked_multiply c_string
list_program = refl

list_from_bytes-Returns_example :
    Returns (IsListing max_name_length (elf_span program)) (list_from_bytes program)
list_from_bytes-Returns_example = list_from_bytes-Returns program (omega arith) (omega arith)

abbrev segment : LoadSegment
segment = record { vaddr = 0x1000; filesz = 275; offset = 0 }

abbrev segments : Segments
segments = record no_segments {
  load_segments = segment ∷ [];
  dynamic_offset = some 176;
  dynamic_size = 80;
}

abbrev entries : Dynamic
entries = record no_entries { string_table_va = some 0x1100; needed_offsets = 1 ∷ 11 ∷ [] }

abbrev headers : ByteSpan
headers = record (elf_span program) { base = 64; size = 112; scope = "program header table" }
