-- ===== src/MachO/Container.antt =====
-- ParseMachOContainer of src/internal/MachOLayout.cpp.
use libthe_seed.Prelude.{
  ℕ, zero, suc, ◌+◌, ◌*◌, ◌%◌, Bool, not, ◌||◌, List, [], ◌∷◌, ◌++◌, ltb, leb, ◌==◌, if◌then◌else◌,
  Outcome, ok, ◌>>=◌, ◌>>◌, said, reject_if, throw_malformed, true, false,
}
use libthe_seed.Bounded.Range.{range_fits, u64_mod}
use libthe_seed.Bounded.Order.{big, Width, bytes4, bytes8}
use libthe_seed.Bounded.Span.{ByteSpan, read, sub}
use libthe_seed.MachO.Defs.{
  macho_format, MachoKind, fat32, fat64, SliceLayout, is_thin, classify_macho_magic,
}
use libthe_seed.MachO.Slice.{parse_macho_slice}

pub data ContainerForm : Type 0 where
  thin_form fat32_form fat64_form : ContainerForm

-- A row of the table of a universal file.
pub record FatArch : Type 0 where
  pub cputype : ℕ
  pub cpusubtype : ℕ
  pub offset : ℕ
  pub size : ℕ
  pub align : ℕ

-- ContainerEntry: a row and its slice.
pub record ContainerEntry : Type 0 where
  pub arch : FatArch
  pub slice : SliceLayout

pub record MachoContainer : Type 0 where
  pub form : ContainerForm
  pub entries : List ContainerEntry

-- No exception leaves the first guard: the view is taken only when it fits.
unfoldable pub starts_with_thin_magic : ByteSpan → ℕ → ℕ → Outcome Bool
starts_with_thin_magic file offset size =
    if not (range_fits offset size file.size) || ltb size 4
    then ok false
    else sub file offset size "slice" >>= λ view.
        classify_macho_magic view >>= λ kind. ok (is_thin kind)

-- The widths and places of the fields of fat_arch and fat_arch_64.
pub record TableLayout : Type 0 where
  pub form : ContainerForm
  pub entry_size : ℕ
  pub address : Width
  pub size_at : ℕ
  pub align_at : ℕ

abbrev pub fat_arch32 : TableLayout
fat_arch32 = record {
  form = fat32_form;
  entry_size = 20;
  address = bytes4;
  size_at = 12;
  align_at = 16;
}

abbrev pub fat_arch64 : TableLayout
fat_arch64 = record {
  form = fat64_form;
  entry_size = 32;
  address = bytes8;
  size_at = 16;
  align_at = 24;
}

module _ (t : TableLayout) (file : ByteSpan) where
  unfoldable pub read_fat_arch : ℕ → Outcome FatArch
  read_fat_arch at = read bytes4 file at big "fat_arch cpu type" >>= λ cputype.
      read bytes4 file (at + 4) big "fat_arch cpu subtype" >>= λ cpusubtype.
      read t.address file (at + 8) big "fat_arch offset" >>= λ offset.
      read t.address file (at + t.size_at) big "fat_arch size" >>= λ size.
      read bytes4 file (at + t.align_at) big "fat_arch alignment" >>= λ align. ok (record {
        cputype = cputype;
        cpusubtype = cpusubtype;
        offset = offset;
        size = size;
        align = align;
      })

  -- Only the first row decides whether this is a Mach-O file.
  unfoldable pub first_row_check : ℕ → FatArch → Outcome Bool
  first_row_check zero arch = starts_with_thin_magic file arch.offset arch.size
  first_row_check (suc i) arch = ok true

  -- The loop over the table, with `left` rows to go.
  unfoldable pub read_table : ℕ → ℕ → ℕ → List FatArch → Outcome (List FatArch)
  read_table table_end i zero entries = ok entries
  read_table table_end i (suc left) entries = read_fat_arch (8 + i * t.entry_size) >>= λ arch.
      first_row_check i arch >>= λ is_program.
      reject_if (not is_program) macho_format (said "File is not a Mach-O binary" [])
      >> (sub file arch.offset arch.size "fat slice" >>= λ _.
          reject_if (ltb arch.offset table_end) macho_format
            (said "fat slice starts inside the fat header table" (i ∷ arch.offset ∷ table_end ∷ []))
          >> read_table table_end (i + 1) left (entries ++ arch ∷ []))

-- std::stable_sort of the rows with their numbers, by offset.
unfoldable pub insert_by_offset : ℕ × FatArch → List (ℕ × FatArch) → List (ℕ × FatArch)
insert_by_offset x [] = x ∷ []
insert_by_offset x (y ∷ rest) =
    if leb x.1.offset y.1.offset then x ∷ y ∷ rest else y ∷ insert_by_offset x rest

unfoldable pub stable_sort : List (ℕ × FatArch) → List (ℕ × FatArch)
stable_sort [] = []
stable_sort (x ∷ rest) = insert_by_offset x (stable_sort rest)

-- std::iota: every row with its number.
unfoldable pub numbered : ℕ → List FatArch → List (ℕ × FatArch)
numbered i [] = []
numbered i (arch ∷ rest) = (i, arch) ∷ numbered (i + 1) rest

unfoldable pub overlap_check : List (ℕ × FatArch) → Outcome (Unit {0})
overlap_check [] = ok tt
overlap_check (previous ∷ []) = ok tt
overlap_check (previous ∷ current ∷ rest) =
    reject_if (ltb current.1.offset ((previous.1.offset + previous.1.size) % u64_mod)) macho_format
      (said "fat slices overlap" (previous.0 ∷ current.0 ∷ []))
    >> overlap_check (current ∷ rest)

unfoldable pub parse_slices :
    ByteSpan → List FatArch → List ContainerEntry → Outcome (List ContainerEntry)
parse_slices file [] entries = ok entries
parse_slices file (arch ∷ rest) entries =
    parse_macho_slice file arch.offset arch.size "fat slice" >>= λ slice.
    parse_slices file rest (entries ++ record { arch = arch; slice = slice } ∷ [])

unfoldable pub parse_fat : TableLayout → ByteSpan → Outcome MachoContainer
parse_fat t file =
    reject_if (ltb file.size 8) macho_format (said "Truncated fat header" [])
    >> (read bytes4 file 4 big "fat_arch count" >>= λ count.
        reject_if (count == 0 || ltb 256 count) macho_format (said "File is not a Mach-O binary" [])
        >> (reject_if (ltb file.size (8 + count * t.entry_size)) macho_format
              (said "Truncated fat_arch entry table" (count ∷ file.size ∷ []))
            >> (read_table t file (8 + count * t.entry_size) 0 count [] >>= λ table.
                overlap_check (stable_sort (numbered 0 table))
                >> (parse_slices file table [] >>= λ entries.
                    ok (record { form = t.form; entries = entries })))))

unfoldable pub parse_thin : ByteSpan → Outcome MachoContainer
parse_thin file = parse_macho_slice file 0 file.size "the file" >>= λ slice. ok (record {
  form = thin_form;
  entries =
      record {
        arch = record {
          cputype = slice.cputype;
          cpusubtype = slice.cpusubtype;
          offset = 0;
          size = file.size;
          align = 0;
        };
        slice = slice;
      }
      ∷ [];
})

abbrev pub parse_kind : ByteSpan → MachoKind → Outcome MachoContainer
parse_kind file fat32 = parse_fat fat_arch32 file
parse_kind file fat64 = parse_fat fat_arch64 file
parse_kind file kind =
    if is_thin kind
    then parse_thin file
    else throw_malformed macho_format (said "File is not a Mach-O binary" [])

unfoldable pub parse_macho_container : ByteSpan → Outcome MachoContainer
parse_macho_container file = classify_macho_magic file >>= λ kind. parse_kind file kind
