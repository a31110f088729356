-- ===== src/Elf/Tables.antt =====
-- The program header table and the dynamic section of src/internal/ElfParser.cpp.
use libthe_seed.Prelude.{
  ℕ, zero, suc, ◌+◌, ◌-◌, ◌*◌, String, not, List, [], ◌∷◌, ◌++◌, Option, none, some, leb, ltb, ◌==◌,
  ◌&&◌, if◌then◌else◌, Outcome, ok, ◌>>=◌, ◌>>◌, reject_if, said,
}
use libthe_seed.Bounded.Range.{range_fits, checked_add}
use libthe_seed.Bounded.Order.{ByteOrder, Width, bytes4, bytes8, Bytes}
use libthe_seed.Bounded.Span.{ByteSpan, read_struct, field}

abbrev pub elf_format : String
elf_format = "ELF"

-- The sizes and the places of the fields in the template parameters Ehdr, Phdr and Dyn; the
-- addresses and offsets of a class have one width.
pub record Layout : Type 0 where
  pub address : Width
  pub ehdr_size : ℕ
  pub e_phoff : ℕ
  pub e_phentsize : ℕ
  pub e_phnum : ℕ
  pub phdr_size : ℕ
  pub p_type : ℕ
  pub p_offset : ℕ
  pub p_vaddr : ℕ
  pub p_filesz : ℕ
  pub p_memsz : ℕ
  pub dyn_size : ℕ
  pub d_tag : ℕ
  pub d_un : ℕ

abbrev pub elf32 : Layout
elf32 = record {
  address = bytes4;
  ehdr_size = 52;
  e_phoff = 28;
  e_phentsize = 42;
  e_phnum = 44;
  phdr_size = 32;
  p_type = 0;
  p_offset = 4;
  p_vaddr = 8;
  p_filesz = 16;
  p_memsz = 20;
  dyn_size = 8;
  d_tag = 0;
  d_un = 4;
}

abbrev pub elf64 : Layout
elf64 = record {
  address = bytes8;
  ehdr_size = 64;
  e_phoff = 32;
  e_phentsize = 54;
  e_phnum = 56;
  phdr_size = 56;
  p_type = 0;
  p_offset = 8;
  p_vaddr = 16;
  p_filesz = 32;
  p_memsz = 40;
  dyn_size = 16;
  d_tag = 0;
  d_un = 8;
}

pub record LoadSegment : Type 0 where
  pub vaddr : ℕ
  pub filesz : ℕ
  pub offset : ℕ

-- `nullptr` is `none`.
unfoldable pub find_file_backed_segment : ℕ → List LoadSegment → Option LoadSegment
find_file_backed_segment virtual_address [] = none
find_file_backed_segment virtual_address (segment ∷ rest) =
    if leb segment.vaddr virtual_address && ltb (virtual_address - segment.vaddr) segment.filesz
    then some segment
    else find_file_backed_segment virtual_address rest

-- What the loop over the program headers collects.
pub record Segments : Type 0 where
  pub dynamic_offset : Option ℕ
  pub dynamic_size : ℕ
  pub load_segments : List LoadSegment

abbrev pub no_segments : Segments
no_segments = record { dynamic_offset = none; dynamic_size = 0; load_segments = [] }

-- What the dynamic section says. The tags are signed; those compared with are not negative.
pub record Dynamic : Type 0 where
  pub needed_offsets : List ℕ
  pub string_table_va : Option ℕ
  pub string_table_size : Option ℕ

abbrev pub no_entries : Dynamic
no_entries = record { needed_offsets = []; string_table_va = none; string_table_size = none }

abbrev pub pt_load : ℕ
pt_load = 1

abbrev pub pt_dynamic : ℕ
pt_dynamic = 2

abbrev pub dt_null : ℕ
dt_null = 0

abbrev pub dt_needed : ℕ
dt_needed = 1

abbrev pub dt_strtab : ℕ
dt_strtab = 5

abbrev pub dt_strsz : ℕ
dt_strsz = 10

-- The fields of a program header that the loop reads.
pub record ProgramHeader : Type 0 where
  pub p_type : ℕ
  pub p_offset : ℕ
  pub p_vaddr : ℕ
  pub p_memsz : ℕ
  pub p_filesz : ℕ

-- A PT_LOAD header: its file data has to lie inside the file, and its memory to have 64-bit
-- addresses.
unfoldable pub take_load : ℕ → ℕ → ProgramHeader → Segments → Outcome Segments
take_load file_size index phdr found = do
  reject_if (not (range_fits phdr.p_offset phdr.p_filesz file_size)) elf_format (
      said "PT_LOAD segment file data extends past the end of the file"
        (index ∷ phdr.p_offset ∷ phdr.p_filesz ∷ file_size ∷ []))
  _ ← checked_add phdr.p_vaddr phdr.p_memsz elf_format "PT_LOAD segment virtual address range"
  ok (record found {
    load_segments =
        found.load_segments
        ++ record { vaddr = phdr.p_vaddr; filesz = phdr.p_filesz; offset = phdr.p_offset } ∷ [];
  })

-- The body of the loop, on one program header. `file_size` is file.Size().
unfoldable pub take_header : ℕ → ℕ → ProgramHeader → Segments → Outcome Segments
take_header file_size index phdr found =
    if phdr.p_type == pt_load
    then take_load file_size index phdr found
    else if phdr.p_type == pt_dynamic
    then ok (record found { dynamic_offset = some phdr.p_offset; dynamic_size = phdr.p_filesz })
    else ok found

-- The body of the loop over the dynamic entries; DT_NULL has ended it before.
unfoldable pub take_entry : ℕ → ℕ → Dynamic → Dynamic
take_entry tag val found =
    if tag == dt_needed
    then record found { needed_offsets = found.needed_offsets ++ val ∷ [] }
    else if tag == dt_strtab
    then record found { string_table_va = some val }
    else if tag == dt_strsz
    then record found { string_table_size = some val }
    else found

module _ (l : Layout) (order : ByteOrder) where
  abbrev pub header_fields : Bytes → ProgramHeader
  header_fields phdr = record {
    p_type = field bytes4 order phdr l.p_type;
    p_offset = field l.address order phdr l.p_offset;
    p_vaddr = field l.address order phdr l.p_vaddr;
    p_memsz = field l.address order phdr l.p_memsz;
    p_filesz = field l.address order phdr l.p_filesz;
  }

  -- The loop, with `left` headers to go.
  unfoldable pub program_headers : ByteSpan → ℕ → ℕ → ℕ → ℕ → Segments → Outcome Segments
  program_headers table phentsize file_size index zero found = ok found
  program_headers table phentsize file_size index (suc left) found =
      read_struct l.phdr_size table (index * phentsize) "program header" >>= λ phdr.
      take_header file_size index (header_fields phdr) found >>= λ more.
      program_headers table phentsize file_size (index + 1) left more

  unfoldable pub dynamic_entries : ByteSpan → ℕ → ℕ → Dynamic → Outcome Dynamic
  dynamic_entries dynamic index zero found = ok found
  dynamic_entries dynamic index (suc left) found =
      read_struct l.dyn_size dynamic (index * l.dyn_size) "dynamic entry" >>= λ dyn.
      let tag = field l.address order dyn l.d_tag in
      let val = field l.address order dyn l.d_un in
      let rest = dynamic_entries dynamic (index + 1) left (take_entry tag val found) in
      if tag == dt_null then ok found else rest
