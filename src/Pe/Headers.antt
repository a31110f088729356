-- ===== src/Pe/Headers.antt =====
-- The headers, the section table and RvaToOffset of src/internal/PeParser.cpp, on a
-- little-endian host.
use libthe_seed.Prelude.{
  ℕ, zero, suc, ◌+◌, ◌-◌, ◌*◌, ◌^◌, String, not, ◌&&◌, List, [], ◌∷◌, ◌++◌, max, ltb, leb, ◌==◌,
  if◌then◌else◌, Outcome, ok, ◌>>=◌, ◌>>◌, reject_if, throw_malformed, said,
}
use libthe_seed.Bounded.Order.{little, Width, bytes2, bytes4, Bytes, byte_swap_if_needed}
use libthe_seed.Bounded.Span.{ByteSpan, read, read_struct, sub, field}

abbrev pub pe_format : String
pe_format = "PE"

unfoldable pub from_little_endian : Width → ℕ → ℕ
from_little_endian w value = byte_swap_if_needed little w value little

-- The fields of ImageSectionHeader that are used.
pub record SectionHeader : Type 0 where
  pub virtual_size : ℕ
  pub virtual_address : ℕ
  pub size_of_raw_data : ℕ
  pub pointer_to_raw_data : ℕ

abbrev pub section_fields : Bytes → SectionHeader
section_fields block = record {
  virtual_size = field bytes4 little block 8;
  virtual_address = field bytes4 little block 12;
  size_of_raw_data = field bytes4 little block 16;
  pointer_to_raw_data = field bytes4 little block 20;
}

-- The loop over the sections. The numbers are below 2 ^ 32, so no 64-bit sum wraps.
unfoldable pub section_offset : ℕ → ℕ → String → List SectionHeader → Outcome ℕ
section_offset rva file_size what [] = throw_malformed pe_format (said what (rva ∷ file_size ∷ []))
section_offset rva file_size what (s ∷ rest) =
    let span = max s.virtual_size s.size_of_raw_data in
    let offset = s.pointer_to_raw_data + (rva - s.virtual_address) in
    let later = section_offset rva file_size what rest in
    if leb s.virtual_address rva && ltb rva (s.virtual_address + span)
    then (if leb file_size offset
        then throw_malformed pe_format (said what (rva ∷ file_size ∷ []))
        else ok offset)
    else later

unfoldable pub rva_to_offset : ℕ → List SectionHeader → ℕ → ℕ → String → Outcome ℕ
rva_to_offset rva sections size_of_headers file_size what =
    if ltb rva size_of_headers && ltb rva file_size
    then ok rva
    else section_offset rva file_size what sections

-- What the headers say.
pub record Headers : Type 0 where
  pub optional_header_offset : ℕ
  pub optional_header_size : ℕ
  pub section_count : ℕ
  pub optional_magic : ℕ
  pub data_directory_offset : ℕ

-- The offset of the data directories by the format of the optional header.
unfoldable pub directory_offset : ℕ → Outcome ℕ
directory_offset optional_magic =
    if optional_magic == 0x10b
    then ok 96
    else if optional_magic == 0x20b
    then ok 112
    else throw_malformed pe_format
        (said "PE header: optional header format is not supported" (optional_magic ∷ []))

-- From the signature of the PE header at `e_lfanew` to the size of the optional header.
unfoldable pub pe_headers : ByteSpan → ℕ → Outcome Headers
pe_headers file pe_header_offset = sub file pe_header_offset 26 "PE header" >>= λ pe_header.
    read bytes4 pe_header 0 little "PE signature" >>= λ signature.
    reject_if (not (signature == 0x4550)) pe_format (said "PE header signature is invalid" [])
    >> (read_struct 20 pe_header 4 "PE file header" >>= λ coff_header.
        read bytes2 pe_header 24 little "optional header magic" >>= λ magic.
        let optional_magic = from_little_endian bytes2 magic in
        let optional_header_size = field bytes2 little coff_header 16 in
        directory_offset optional_magic >>= λ data_directory_offset.
        reject_if (ltb optional_header_size (data_directory_offset + 2 * 8)) pe_format (
          said "PE header: optional header size is too small for the import directory"
            (optional_header_size ∷ []))
        >> ok (record {
          optional_header_offset = pe_header_offset + 4 + 20;
          optional_header_size = optional_header_size;
          section_count = field bytes2 little coff_header 2;
          optional_magic = optional_magic;
          data_directory_offset = data_directory_offset;
        }))

-- e_lfanew is signed: its values from 2 ^ 31 on are negative.
unfoldable pub dos_header : ByteSpan → Outcome ℕ
dos_header file = sub file 0 64 "DOS header" >>= λ dos.
    read bytes2 dos 0 little "DOS header signature" >>= λ signature.
    reject_if (not (signature == 0x5a4d)) pe_format (said "DOS header signature is not MZ" [])
    >> (read bytes4 dos 60 little "e_lfanew" >>= λ e_lfanew.
        reject_if (leb (2 ^ 31) e_lfanew) pe_format
          (said "e_lfanew is negative" ((2 ^ 32 - e_lfanew) ∷ []))
        >> ok e_lfanew)

-- The two directories: where the import table and the delay-load table are.
pub record Directories : Type 0 where
  pub import_table_rva : ℕ
  pub delay_table_rva : ℕ
  pub delay_table_size : ℕ

unfoldable pub read_directories : ByteSpan → Headers → Outcome Directories
read_directories file h =
    read_struct 8 file (h.optional_header_offset + h.data_directory_offset + 8) "import directory"
    >>= λ import_directory.
        read bytes4 file (h.optional_header_offset + h.data_directory_offset - 4) little
          "NumberOfRvaAndSizes"
        >>= λ count.
            let none_declared : Directories = record {
              import_table_rva = field bytes4 little import_directory 0;
              delay_table_rva = 0;
              delay_table_size = 0;
            } in
            if ltb 13 (from_little_endian bytes4 count)
              && leb (h.data_directory_offset + (13 + 1) * 8) h.optional_header_size
            then (read_struct 8 file (h.optional_header_offset + h.data_directory_offset + 13 * 8)
                  "delay-load directory"
                >>= λ delay_directory. ok (record {
                  import_table_rva = field bytes4 little import_directory 0;
                  delay_table_rva = field bytes4 little delay_directory 0;
                  delay_table_size = field bytes4 little delay_directory 4;
                }))
            else ok none_declared

-- The loop over the section table, with `left` entries to go.
unfoldable pub read_sections : ByteSpan → ℕ → ℕ → List SectionHeader → Outcome (List SectionHeader)
read_sections section_table index zero sections = ok sections
read_sections section_table index (suc left) sections =
    read_struct 40 section_table (index * 40) "section table entry" >>= λ block.
    read_sections section_table (index + 1) left (sections ++ section_fields block ∷ [])
