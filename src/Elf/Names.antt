-- ===== src/Elf/Names.antt =====
-- ParseElf, ListFromBytes and the public entry points of src/internal/ElfParser.cpp, on the
-- bytes of the file.
use libthe_seed.Prelude.{
  ℕ, ◌+◌, ◌-◌, ◌/◌, ◌%◌, not, List, [], ◌∷◌, ◌++◌, Option, none, some, ltb, ◌==◌, ◌&&◌,
  if◌then◌else◌, length, Outcome, ok, ◌>>=◌, ◌>>◌, reject_if, throw_malformed, said,
}
use libthe_seed.Bounded.Range.{u64_mod, checked_multiply}
use libthe_seed.Bounded.Order.{ByteOrder, little, big, bytes2, Bytes}
use libthe_seed.Bounded.Elements.{element, matches}
use libthe_seed.Bounded.Span.{ByteSpan, whole, read_struct, sub, field}
use libthe_seed.Bounded.Text.{c_string}
use libthe_seed.Elf.Tables.{
  elf_format, Layout, elf32, elf64, LoadSegment, find_file_backed_segment, Segments, no_segments,
  Dynamic, no_entries, program_headers, dynamic_entries,
}

abbrev pub max_name_length : ℕ
max_name_length = 4096

-- The names at the recorded offsets, in order; `total` counts the bytes of the names so far.
unfoldable pub needed_names : ByteSpan → ℕ → ℕ → List Bytes → List ℕ → Outcome (List Bytes)
needed_names string_table file_size total dependencies [] = ok dependencies
needed_names string_table file_size total dependencies (needed_offset ∷ rest) =
    c_string string_table needed_offset max_name_length "DT_NEEDED name" >>= λ name.
    let total' = (total + length name) % u64_mod in
    reject_if (ltb file_size total') elf_format
      (said "DT_NEEDED names total more bytes than the file" (total' ∷ file_size ∷ []))
    >> needed_names string_table file_size total' (dependencies ++ name ∷ []) rest

-- The smaller of the rest of the segment and DT_STRSZ.
abbrev pub table_length : Option ℕ → ℕ → ℕ
table_length none rest = rest
table_length (some size) rest = if ltb size rest then size else rest

unfoldable pub names_in_segment : ByteSpan → Dynamic → ℕ → Option LoadSegment → Outcome (List Bytes)
names_in_segment file found va none =
    throw_malformed elf_format
      (said "DT_STRTAB address is not inside the file data of any PT_LOAD segment" (va ∷ []))
names_in_segment file found va (some segment) =
    let within_segment = va - segment.vaddr in
    sub file ((segment.offset + within_segment) % u64_mod)
      (table_length found.string_table_size (segment.filesz - within_segment)) "string table"
    >>= λ string_table. needed_names string_table file.size 0 [] found.needed_offsets

unfoldable pub string_table_names :
    ByteSpan → List LoadSegment → Dynamic → Option ℕ → Outcome (List Bytes)
string_table_names file load_segments found none =
    throw_malformed elf_format (said "DT_STRTAB is missing from the dynamic section" [])
string_table_names file load_segments found (some va) =
    names_in_segment file found va (find_file_backed_segment va load_segments)

module _ (l : Layout) (order : ByteOrder) where
  unfoldable pub names_of_dynamic : ByteSpan → Segments → Option ℕ → Outcome (List Bytes)
  names_of_dynamic file found none = ok []
  names_of_dynamic file found (some dynamic_offset) =
      if found.dynamic_size == 0
      then ok []
      else sub file dynamic_offset found.dynamic_size "PT_DYNAMIC segment" >>= λ dynamic.
          dynamic_entries l order dynamic 0 (dynamic.size / l.dyn_size) no_entries >>= λ entries.
          string_table_names file found.load_segments entries entries.string_table_va

  unfoldable pub parse_elf : ByteSpan → Outcome (List Bytes)
  parse_elf file = read_struct l.ehdr_size file 0 "ELF header" >>= λ header.
      let phoff = field l.address order header l.e_phoff in
      let phentsize = field bytes2 order header l.e_phentsize in
      let phnum = field bytes2 order header l.e_phnum in
      reject_if (ltb phentsize l.phdr_size) elf_format (
        said "program header entry size is smaller than a program header"
          (phentsize ∷ l.phdr_size ∷ []))
      >> (checked_multiply phnum phentsize elf_format "program header table size" >>= λ table_size.
          sub file phoff table_size "program header table" >>= λ table.
          program_headers l order table phentsize file.size 0 phnum no_segments >>= λ found.
          names_of_dynamic file found found.dynamic_offset)

abbrev pub elf_span : Bytes → ByteSpan
elf_span bytes = whole bytes elf_format "the file"

-- The magic and the two bytes after it are read from the vector itself.
abbrev pub elf_magic : Bytes
elf_magic = 0x7f ∷ b'E' ∷ b'L' ∷ b'F' ∷ []

-- What is done for each class and byte order.
unfoldable pub parse_class : Bytes → ℕ → ℕ → Outcome (List Bytes)
parse_class bytes elf_class elf_data =
    if not (elf_data == 1) && not (elf_data == 2)
    then throw_malformed elf_format (said "ELF header endianness is not supported" (elf_data ∷ []))
    else let order = if elf_data == 1 then little else big in
      if elf_class == 1
      then parse_elf elf32 order (elf_span bytes)
      else if elf_class == 2
      then parse_elf elf64 order (elf_span bytes)
      else throw_malformed elf_format (said "ELF header class is not supported" (elf_class ∷ []))

unfoldable pub list_from_bytes : Bytes → Outcome (List Bytes)
list_from_bytes bytes =
    if ltb (length bytes) 16
    then throw_malformed elf_format (said "ELF header is too small" (length bytes ∷ 16 ∷ []))
    else matches bytes 0 elf_magic >>= λ magic.
        if not magic
        then throw_malformed elf_format (said "ELF header magic is invalid" [])
        else element bytes 4 >>= λ elf_class.
            element bytes 5 >>= λ elf_data. parse_class bytes elf_class elf_data
