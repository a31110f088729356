-- ===== src/Pe/Imports.antt =====
-- The two walks over the descriptors in ListDependenciesFromBytes of src/internal/PeParser.cpp.
-- They run on fuel, one round for each byte of the file and one more, where a round passes 20 or
-- 32 bytes; fuel that runs out is `fault`.
use libthe_seed.Prelude.{
  ℕ, zero, suc, ◌+◌, ◌-◌, ◌%◌, ◌^◌, Bool, not, ◌&&◌, ◌||◌, List, [], ◌∷◌, ◌++◌, any, ltb, ◌==◌,
  if◌then◌else◌, Outcome, ok, fault, ◌>>=◌, ◌>>◌, reject_if, said,
}
use libthe_seed.Bounded.Order.{little, bytes4, bytes8, Bytes}
use libthe_seed.Bounded.Span.{ByteSpan, read, read_struct, sub, field, at}
use libthe_seed.Pe.Headers.{pe_format, SectionHeader, rva_to_offset, Headers, Directories}

-- All five fields of an import descriptor are zero.
abbrev pub is_last_import : Bytes → Bool
is_last_import descriptor =
    field bytes4 little descriptor 0 == 0
    && field bytes4 little descriptor 4 == 0
    && field bytes4 little descriptor 8 == 0
    && field bytes4 little descriptor 12 == 0
    && field bytes4 little descriptor 16 == 0

unfoldable pub import_walk : ℕ → ByteSpan → ℕ → List ℕ → Outcome (List ℕ)
import_walk zero file descriptor_offset name_rvas = fault
import_walk (suc fuel) file descriptor_offset name_rvas =
    read_struct 20 file descriptor_offset "import descriptor" >>= λ descriptor.
    let rest =
      import_walk fuel file (descriptor_offset + 20)
        (name_rvas ++ field bytes4 little descriptor 12 ∷ []) in
    if is_last_import descriptor then ok name_rvas else rest

unfoldable pub import_rvas : ByteSpan → List SectionHeader → ℕ → ℕ → Outcome (List ℕ)
import_rvas file sections size_of_headers import_table_rva =
    if import_table_rva == 0
    then ok []
    else rva_to_offset import_table_rva sections size_of_headers file.size "import descriptor table"
      >>= λ descriptor_offset. import_walk (file.size + 1) file descriptor_offset []

-- Older linkers store a virtual address, taken relative to the low 32 bits of the image base.
unfoldable pub delay_name_rva : ℕ → ℕ → ℕ → Outcome ℕ
delay_name_rva image_base attributes name_field =
    if attributes % 2 == 0
    then (let base32 = image_base % 2 ^ 32 in
        reject_if (ltb name_field base32) pe_format (
          said "delay-load library name address is below the image base" (name_field ∷ base32 ∷ []))
        >> ok (name_field - base32))
    else ok name_field

-- `Data()[i]` for the 32 places of a descriptor.
abbrev pub is_last_delay : Bytes → Bool
is_last_delay block = not (any (λ b. not (b == 0)) block)

unfoldable pub delay_walk : ℕ → ByteSpan → ℕ → ℕ → ℕ → ℕ → List ℕ → Outcome (List ℕ)
delay_walk zero file image_base size start delay_offset rvas = fault
delay_walk (suc fuel) file image_base size start delay_offset rvas =
    if size == 0 || ltb (delay_offset - start) size
    then (sub file delay_offset 32 "delay-load descriptor" >>= λ descriptor.
        at descriptor 0 32 >>= λ block.
        if is_last_delay block
        then ok rvas
        else read bytes4 descriptor 0 little "delay-load attributes" >>= λ attributes.
            read bytes4 descriptor 4 little "delay-load library name" >>= λ name_field.
            delay_name_rva image_base attributes name_field >>= λ name_rva.
            delay_walk fuel file image_base size start (delay_offset + 32) (rvas ++ name_rva ∷ []))
    else ok rvas

unfoldable pub read_image_base : ByteSpan → Headers → Outcome ℕ
read_image_base file h =
    if h.optional_magic == 0x10b
    then read bytes4 file (h.optional_header_offset + 28) little "ImageBase"
    else read bytes8 file (h.optional_header_offset + 24) little "ImageBase"

unfoldable pub delay_rvas :
    ByteSpan → Headers → List SectionHeader → ℕ → Directories → Outcome (List ℕ)
delay_rvas file h sections size_of_headers d =
    if d.delay_table_rva == 0
    then ok []
    else read_image_base file h >>= λ image_base.
        rva_to_offset d.delay_table_rva sections size_of_headers file.size
          "delay-load descriptor table"
        >>= λ delay_offset.
            delay_walk (file.size + 1) file image_base d.delay_table_size delay_offset delay_offset
              []
