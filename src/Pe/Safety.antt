-- ===== src/Pe/Safety.antt =====
-- What the PE listing returns, that it reads nothing outside the file, and that its walks end.
use libthe_seed.Prelude.{
  ℕ, zero, suc, ◌+◌, ◌-◌, ◌*◌, ◌%◌, ◌^◌, ◌≤◌, ◌<◌, String, not, ◌&&◌, ◌||◌, List, [], ◌∷◌, ◌++◌,
  max, ltb, leb, ◌==◌, arith, Returns, value, refusal, Returns-bind, Returns-mono,
  Returns-reject_if, Returns-if,
}
use libthe_seed.Bounded.Order.{little, bytes2, bytes4, bytes8}
use libthe_seed.Bounded.Span.{
  ByteSpan, IsValid, at-Returns, field, read-Returns, read_struct-Returns, read_struct-fits,
  sub-Returns,
}
use libthe_seed.Pe.Headers.{
  from_little_endian, SectionHeader, section_offset, rva_to_offset, Headers, directory_offset,
  pe_headers, dos_header, Directories, read_directories, read_sections,
}
use libthe_seed.Pe.Imports.{
  is_last_import, import_walk, import_rvas, delay_name_rva, is_last_delay, delay_walk,
  read_image_base, delay_rvas,
}

section_offset-Returns :
    (rva file_size : ℕ) (what : String) (sections : List SectionHeader)
    → Returns (λ offset. offset < file_size) (section_offset rva file_size what sections)
unfolding section_offset
section_offset-Returns rva file_size what [] = refusal
section_offset-Returns rva file_size what (s ∷ rest) =
    let offset = s.pointer_to_raw_data + (rva - s.virtual_address) in
    Returns-if
      (leb s.virtual_address rva
        && ltb rva (s.virtual_address + max s.virtual_size s.size_of_raw_data))
      (λ _.
        Returns-if (leb file_size offset) (λ _. refusal) λ inside. value (ground (arith, inside)))
      λ _. section_offset-Returns rva file_size what rest

-- An offset that RvaToOffset returns lies inside the file.
pub rva_to_offset-Returns :
    (rva : ℕ) (sections : List SectionHeader) (size_of_headers file_size : ℕ) (what : String)
    → Returns
        (λ offset. offset < file_size)
        (rva_to_offset rva sections size_of_headers file_size what)
unfolding rva_to_offset
rva_to_offset-Returns rva sections size_of_headers file_size what =
    Returns-if (ltb rva size_of_headers && ltb rva file_size)
      (λ inside. value (ground (arith, inside)))
      λ _. section_offset-Returns rva file_size what sections

module _ {file : ByteSpan} (v : IsValid file) where
  pub dos_header-Returns : Returns (λ _. Unit) (dos_header file)
  unfolding dos_header
  dos_header-Returns = Returns-bind _ (sub-Returns v 0 64 "DOS header") λ dos part.
      Returns-bind _ (read-Returns part.valid 0 little bytes2 "DOS header signature") λ signature _.
        Returns-reject_if (not (signature == 0x5a4d)) _ _ _ λ _.
          Returns-bind _ (read-Returns part.valid 60 little bytes4 "e_lfanew")
            λ e_lfanew _. Returns-reject_if (leb (2 ^ 31) e_lfanew) _ _ _ λ _. value tt

  directory_offset-Returns : (magic : ℕ) → Returns (λ _. Unit) (directory_offset magic)
  unfolding directory_offset
  directory_offset-Returns magic =
      Returns-if (magic == 0x10b) (λ _. value tt)
        λ _. Returns-if (magic == 0x20b) (λ _. value tt) λ _. refusal

  pub pe_headers-Returns : (offset : ℕ) → Returns (λ _. Unit) (pe_headers file offset)
  unfolding pe_headers
  pe_headers-Returns offset = Returns-bind _ (sub-Returns v offset 26 "PE header") λ pe_header part.
      Returns-bind _ (read-Returns part.valid 0 little bytes4 "PE signature") λ signature _.
        Returns-reject_if (not (signature == 0x4550)) _ _ _ λ _.
          Returns-bind _ (read_struct-Returns part.valid 4 20 "PE file header") λ coff_header _.
            Returns-bind _ (read-Returns part.valid 24 little bytes2 "optional header magic")
              λ magic _.
                Returns-bind _ (directory_offset-Returns (from_little_endian bytes2 magic)) λ at _.
                  Returns-reject_if (ltb (field bytes2 little coff_header 16) (at + 2 * 8)) _ _ _
                    λ _. value tt

  pub read_directories-Returns : (h : Headers) → Returns (λ _. Unit) (read_directories file h)
  unfolding read_directories
  read_directories-Returns h =
      Returns-bind _ (read_struct-Returns v _ 8 "import directory") λ import_directory _.
        Returns-bind _ (read-Returns v _ little bytes4 "NumberOfRvaAndSizes") λ count _.
          Returns-if
            (ltb 13 (from_little_endian bytes4 count)
              && leb (h.data_directory_offset + (13 + 1) * 8) h.optional_header_size)
            (λ _.
              Returns-bind _ (read_struct-Returns v _ 8 "delay-load directory") λ delay _. value tt)
            λ _. value tt

  pub read_sections-Returns :
      (index left : ℕ) (sections : List SectionHeader)
      → Returns (λ _. Unit) (read_sections file index left sections)
  unfolding read_sections
  read_sections-Returns index zero sections = value tt
  read_sections-Returns index (suc left) sections =
      Returns-bind _ (read_struct-Returns v (index * 40) 40 "section table entry")
        λ block _. read_sections-Returns (index + 1) left _

  -- Every round passes 20 bytes of the file, so the fuel is enough.
  import_walk-Returns :
      (fuel offset : ℕ) (rvas : List ℕ)
      → offset ≤ file.size
      → file.size < offset + fuel
      → Returns (λ _. Unit) (import_walk fuel file offset rvas)
  unfolding import_walk
  import_walk-Returns zero offset rvas inside enough = absurd (omega (arith, inside, enough))
  import_walk-Returns (suc fuel) offset rvas inside enough =
      Returns-bind _ (read_struct-fits v offset 20 "import descriptor") λ descriptor fits.
        Returns-if (is_last_import descriptor) (λ _. value tt)
          (λ _.
            import_walk-Returns fuel (offset + 20) (rvas ++ field bytes4 little descriptor 12 ∷ [])
              fits (omega (arith, enough)))

  pub import_rvas-Returns :
      (sections : List SectionHeader) (size_of_headers rva : ℕ)
      → Returns (λ _. Unit) (import_rvas file sections size_of_headers rva)
  unfolding import_rvas
  import_rvas-Returns sections size_of_headers rva =
      Returns-if (rva == 0) (λ _. value tt)
        λ _.
          Returns-bind _ (rva_to_offset-Returns rva sections size_of_headers file.size _)
            λ offset inside.
              import_walk-Returns (file.size + 1) offset [] (omega (arith, inside)) (omega arith)

delay_name_rva-Returns :
    (image_base attributes name_field : ℕ)
    → Returns (λ _. Unit) (delay_name_rva image_base attributes name_field)
unfolding delay_name_rva
delay_name_rva-Returns image_base attributes name_field =
    Returns-if (attributes % 2 == 0)
      (λ _. Returns-reject_if (ltb name_field (image_base % 2 ^ 32)) _ _ _ λ _. value tt)
      λ _. value tt

module _ {file : ByteSpan} (v : IsValid file) where
  delay_walk-Returns :
      (fuel image_base size start offset : ℕ) (rvas : List ℕ)
      → offset ≤ file.size
      → file.size < offset + fuel
      → Returns (λ _. Unit) (delay_walk fuel file image_base size start offset rvas)
  unfolding delay_walk
  delay_walk-Returns zero image_base size start offset rvas inside enough =
      absurd (omega (arith, inside, enough))
  delay_walk-Returns (suc fuel) image_base size start offset rvas inside enough =
      Returns-if (size == 0 || ltb (offset - start) size)
        (λ _. Returns-bind _ (sub-Returns v offset 32 "delay-load descriptor") λ descriptor part.
          Returns-bind _ (at-Returns part.valid 0 32 (omega (arith, part.size_eq))) λ block _.
            Returns-if (is_last_delay block) (λ _. value tt)
              λ _.
                Returns-bind _ (read-Returns part.valid 0 little bytes4 "delay-load attributes")
                  λ attributes _.
                    Returns-bind _
                      (read-Returns part.valid 4 little bytes4 "delay-load library name")
                      λ name_field _.
                        Returns-bind _ (delay_name_rva-Returns image_base attributes name_field)
                          λ rva _.
                            delay_walk-Returns fuel image_base size start (offset + 32)
                              (rvas ++ rva ∷ []) part.fits (omega (arith, enough)))
        λ _. value tt

  read_image_base-Returns : (h : Headers) → Returns (λ _. Unit) (read_image_base file h)
  unfolding read_image_base
  read_image_base-Returns h =
      Returns-if (h.optional_magic == 0x10b)
        (λ _. Returns-mono _ (λ n _. tt) (read-Returns v _ little bytes4 "ImageBase"))
        λ _. Returns-mono _ (λ n _. tt) (read-Returns v _ little bytes8 "ImageBase")

  pub delay_rvas-Returns :
      (h : Headers) (sections : List SectionHeader) (size_of_headers : ℕ) (d : Directories)
      → Returns (λ _. Unit) (delay_rvas file h sections size_of_headers d)
  unfolding delay_rvas
  delay_rvas-Returns h sections size_of_headers d =
      Returns-if (d.delay_table_rva == 0) (λ _. value tt)
        λ _. Returns-bind _ (read_image_base-Returns h) λ image_base _.
          Returns-bind _
            (rva_to_offset-Returns d.delay_table_rva sections size_of_headers file.size _)
            λ offset inside.
              delay_walk-Returns (file.size + 1) image_base d.delay_table_size offset offset []
                (omega (arith, inside)) (omega arith)
