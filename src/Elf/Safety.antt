-- ===== src/Elf/Safety.antt =====
-- What a returned list of names is, and that no read leaves the file.
use libthe_seed.Prelude.{
  ℕ, zero, suc, ◌+◌, ◌*◌, ◌≤◌, ◌<◌, ◌^◌, ◌≡◌, refl, List, [], ◌∷◌, ◌++◌, Option, none, some, inl,
  inr, arith, ltb, ◌==◌, not, ◌&&◌, if◌then◌else◌, length, All, All-append, Bool-cases, ◌%◌,
  Returns-reject_if, Returns, value, refusal, Returns-if, Returns-bind, Returns-mono, length-append,
}
use libthe_seed.Bounded.Range.{
  u64_mod, range_fits, range_fits_iff, checked_multiply-Returns, checked_add-Returns,
}
use libthe_seed.Bounded.Order.{ByteOrder, little, big, bytes2, Bytes, IsByte}
use libthe_seed.Bounded.Elements.{element-Returns, matches-Returns}
use libthe_seed.Bounded.Span.{
  ByteSpan, IsValid, IsPart, field, read_struct-Returns, sub-Returns, whole-IsValid,
}
use libthe_seed.Bounded.Listing.{StandsIn, IsListing, total_length, total_length-append}
use libthe_seed.Bounded.Text.{IsTextAt, IsTextAt-part, c_string-Returns}
use libthe_seed.Elf.Tables.{
  Layout, elf32, elf64, LoadSegment, find_file_backed_segment, Segments, no_segments, ProgramHeader,
  header_fields, Dynamic, no_entries, take_load, take_header, program_headers, dynamic_entries,
}
use libthe_seed.Elf.Names.{
  max_name_length, needed_names, names_in_segment, string_table_names, names_of_dynamic, parse_elf,
  elf_span, elf_magic, parse_class, table_length, list_from_bytes,
}

pub table_length-le : (size : Option ℕ) (rest : ℕ) → table_length size rest ≤ rest
table_length-le none rest = omega arith
table_length-le (some size) rest = ground arith

module _ {file : ByteSpan} (small : file.size < 2 ^ 63) where
  needed_names-Returns :
      {table : ByteSpan} {offset count : ℕ}
      → IsPart file offset count table
      → (total : ℕ) (done : List Bytes) (offsets : List ℕ)
      → All (StandsIn max_name_length file) done
      → total_length done ≡ total
      → total ≤ file.size
      → Returns
          (λ names.
            IsListing max_name_length file names × (length names ≡ length done + length offsets))
          (needed_names table file.size total done offsets)
  unfolding needed_names
  needed_names-Returns p total done [] stand sum fits =
      value (record { stand = stand; total = omega (arith, sum) }, omega arith)
  needed_names-Returns {table} {offset} p total done (o ∷ rest) stand sum fits =
      Returns-bind _ (c_string-Returns p.valid o max_name_length "DT_NEEDED name") λ name text.
        Returns-reject_if (ltb file.size ((total + length name) % u64_mod)) _ _ _ λ within.
          Returns-mono _ (λ names r. (r.0, omega (arith, r.1, length-append done (name ∷ []))))
            (needed_names-Returns p ((total + length name) % u64_mod) (done ++ name ∷ []) rest
              (All-append (StandsIn max_name_length file) done (name ∷ []) stand
                ((offset + o, IsTextAt-part p o max_name_length text), tt))
              (total_eq name text) (ground (arith, within)))
    where
      total_eq :
          (name : Bytes)
          → IsTextAt table o max_name_length name
          → total_length (done ++ name ∷ []) ≡ (total + length name) % u64_mod
      total_eq name text =
          omega (arith, total_length-append done (name ∷ []), sum, text.short, small)

  names_in_segment-Returns :
      IsValid file
      → (found : Dynamic) (va : ℕ) (segment : Option LoadSegment)
      → Returns
          (λ names.
            IsListing max_name_length file names × (length names ≡ length found.needed_offsets))
          (names_in_segment file found va segment)
  unfolding names_in_segment
  names_in_segment-Returns v found va none = refusal
  names_in_segment-Returns v found va (some segment) =
      Returns-bind _ (sub-Returns v _ _ "string table") λ table p.
        Returns-mono _ (λ names r. (r.0, omega (arith, r.1)))
          (needed_names-Returns p 0 [] found.needed_offsets tt refl (omega arith))

  string_table_names-Returns :
      IsValid file
      → (segments : List LoadSegment) (found : Dynamic) (va : Option ℕ)
      → Returns
          (λ names.
            IsListing max_name_length file names × (length names ≡ length found.needed_offsets))
          (string_table_names file segments found va)
  unfolding string_table_names
  string_table_names-Returns v segments found none = refusal
  string_table_names-Returns v segments found (some va) =
      names_in_segment-Returns v found va (find_file_backed_segment va segments)

module _ (l : Layout) (order : ByteOrder) where
  dynamic_entries-Returns :
      {dynamic : ByteSpan}
      → IsValid dynamic
      → (index left : ℕ) (found : Dynamic)
      → Returns (λ _. Unit) (dynamic_entries l order dynamic index left found)
  unfolding dynamic_entries
  dynamic_entries-Returns v index zero found = value tt
  dynamic_entries-Returns v index (suc left) found =
      Returns-bind _ (read_struct-Returns v (index * l.dyn_size) l.dyn_size "dynamic entry")
        λ dyn _. elim (Bool-cases (field l.address order dyn l.d_tag == 0)) [
          | inl last ↦ rw last (value tt)
          | inr more ↦ rw more (dynamic_entries-Returns v (index + 1) left _)
        ]

-- The file data of every segment kept lies inside the file.
abbrev pub IsInside : ℕ → LoadSegment → Type 0
IsInside file_size segment = segment.offset + segment.filesz ≤ file_size

abbrev pub AreInside : ℕ → Segments → Type 0
AreInside file_size found = All (IsInside file_size) found.load_segments

take_load-Returns :
    (file_size index : ℕ) (phdr : ProgramHeader) (found : Segments)
    → AreInside file_size found
    → Returns (AreInside file_size) (take_load file_size index phdr found)
unfolding take_load
take_load-Returns file_size index phdr found inside =
    Returns-reject_if (not (range_fits phdr.p_offset phdr.p_filesz file_size)) _ _ _ λ fits.
      Returns-bind _ (checked_add-Returns phdr.p_vaddr phdr.p_memsz _ _) λ end _. value (
        All-append (IsInside file_size) found.load_segments _ inside
          ((range_fits_iff phdr.p_offset phdr.p_filesz file_size).0 (ground (arith, fits)), tt))

take_header-Returns :
    (file_size index : ℕ) (phdr : ProgramHeader) (found : Segments)
    → AreInside file_size found
    → Returns (AreInside file_size) (take_header file_size index phdr found)
unfolding take_header
take_header-Returns file_size index phdr found inside = elim (Bool-cases (phdr.p_type == 1)) [
  | inl load ↦ rw load (take_load-Returns file_size index phdr found inside)
  | inr other ↦ rw other (elim (Bool-cases (phdr.p_type == 2)) [
    | inl dynamic ↦ rw dynamic (value inside)
    | inr skip ↦ rw skip (value inside)
  ])
]

module _ (l : Layout) (order : ByteOrder) where
  pub program_headers-Returns :
      {table : ByteSpan}
      → IsValid table
      → (phentsize file_size index left : ℕ) (found : Segments) → AreInside file_size found
      → Returns
          (AreInside file_size)
          (program_headers l order table phentsize file_size index left found)
  unfolding program_headers
  program_headers-Returns v phentsize file_size index zero found inside = value inside
  program_headers-Returns v phentsize file_size index (suc left) found inside =
      Returns-bind _ (read_struct-Returns v (index * phentsize) l.phdr_size "program header")
        λ phdr _.
          Returns-bind _
            (take_header-Returns file_size index (header_fields l order phdr) found inside)
            λ more kept. program_headers-Returns v phentsize file_size (index + 1) left more kept

  names_of_dynamic-Returns :
      {file : ByteSpan}
      → IsValid file
      → file.size < 2 ^ 63
      → (found : Segments) (at : Option ℕ)
      → Returns (IsListing max_name_length file) (names_of_dynamic l order file found at)
  unfolding names_of_dynamic
  names_of_dynamic-Returns v small found none = value (record { stand = tt; total = omega arith })
  names_of_dynamic-Returns {file} v small found (some at) =
      elim (Bool-cases (found.dynamic_size == 0)) [
        | inl empty ↦ rw empty (value (record { stand = tt; total = omega arith }))
        | inr full ↦ rw full (
            Returns-bind _ (sub-Returns v at found.dynamic_size "PT_DYNAMIC segment") λ dynamic p.
              Returns-bind _ (dynamic_entries-Returns l order p.valid 0 _ no_entries) λ entries _.
                Returns-mono _ (λ names r. r.0)
                  (string_table_names-Returns small v found.load_segments entries
                    entries.string_table_va))
      ]

  parse_elf-Returns :
      {file : ByteSpan}
      → IsValid file
      → file.size < 2 ^ 63
      → Returns (IsListing max_name_length file) (parse_elf l order file)
  unfolding parse_elf
  parse_elf-Returns {file} v small =
      Returns-bind _ (read_struct-Returns v 0 l.ehdr_size "ELF header") λ header _.
        let phoff = field l.address order header l.e_phoff in
        let phentsize = field bytes2 order header l.e_phentsize in
        let phnum = field bytes2 order header l.e_phnum in
        Returns-reject_if (ltb phentsize l.phdr_size) _ _ _ λ wide.
          Returns-bind _ (checked_multiply-Returns phnum phentsize _ _) λ table_size _.
            Returns-bind _ (sub-Returns v phoff table_size "program header table") λ table p.
              Returns-bind _
                (program_headers-Returns p.valid phentsize file.size 0 phnum no_segments tt)
                λ found inside. names_of_dynamic-Returns v small found found.dynamic_offset

parse_class-Returns :
    (bytes : Bytes) (elf_class elf_data : ℕ)
    → IsValid (elf_span bytes)
    → length bytes < 2 ^ 63
    → Returns (IsListing max_name_length (elf_span bytes)) (parse_class bytes elf_class elf_data)
unfolding parse_class
parse_class-Returns bytes elf_class elf_data v small =
    Returns-if (not (elf_data == 1) && not (elf_data == 2)) (λ _. refusal)
      λ _.
        Returns-if (elf_class == 1) (λ _. parse_elf-Returns elf32 order v small)
          λ _. Returns-if (elf_class == 2) (λ _. parse_elf-Returns elf64 order v small) λ _. refusal
  where
    order : ByteOrder
    order = if elf_data == 1 then little else big

-- For a file of bytes below 2 ^ 63 bytes, the ELF lister reads nothing outside the file, neither
-- through a view nor by the index of a byte, and the names it returns stand in the file, ended by a
-- NUL inside it, each below the limit, and no longer together than the file.
pub list_from_bytes-Returns :
    (bytes : Bytes)
    → All IsByte bytes
    → length bytes < 2 ^ 63
    → Returns (IsListing max_name_length (elf_span bytes)) (list_from_bytes bytes)
unfolding list_from_bytes
list_from_bytes-Returns bytes h small =
    Returns-if (ltb (length bytes) 16) (λ _. refusal)
      λ long.
        let enough : 16 ≤ length bytes = ground (arith, long) in
        Returns-bind _ (matches-Returns bytes 0 elf_magic (omega (arith, enough))) λ magic _.
          Returns-if (not magic) (λ _. refusal)
            λ _. Returns-bind _ (element-Returns bytes 4 (omega (arith, enough))) λ elf_class _.
              Returns-bind _ (element-Returns bytes 5 (omega (arith, enough))) λ elf_data _.
                parse_class-Returns bytes elf_class elf_data
                  (whole-IsValid bytes "ELF" "the file" h) small
