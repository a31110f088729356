-- ===== src/MachO/Parser.antt =====
-- The entry points of src/MachOParser.cpp, on the bytes of the file.
use libthe_seed.Prelude.{
  is_some, ℕ, ◌+◌, Bool, not, List, [], ◌∷◌, ◌++◌, Option, none, some, String, ltb, if◌then◌else◌,
  length, any, same_name, Outcome, ok, ◌>>=◌, ◌>>◌, said, reject_if, true, false,
}
use libthe_seed.Bounded.Order.{Bytes}
use libthe_seed.Bounded.Span.{ByteSpan, whole}
use libthe_seed.MachO.Defs.{
  macho_format, MachoKind, thin64_little, thin32_little, thin64_big, thin32_big, fat32, fat64,
  SliceSupport, supported, CodeSignatureLayout, classify_macho_magic,
}
use libthe_seed.MachO.Container.{ContainerEntry, MachoContainer, parse_macho_container}

pub data Format : Type 0 where
  macho32 macho64 fat not_macho : Format

abbrev pub format_of : MachoKind → Format
format_of thin32_little = macho32
format_of thin32_big = macho32
format_of thin64_little = macho64
format_of thin64_big = macho64
format_of fat32 = fat
format_of fat64 = fat
format_of _ = not_macho

abbrev pub macho_span : Bytes → ByteSpan
macho_span bytes = whole bytes macho_format "the file"

unfoldable pub detect_format : Bytes → Outcome Format
detect_format bytes = classify_macho_magic (macho_span bytes) >>= λ kind. ok (format_of kind)

-- A container that is read from at least four bytes.
unfoldable pub parse_file : Bytes → Outcome MachoContainer
parse_file bytes =
    reject_if (ltb (length bytes) 4) macho_format (said "File too small to be a Mach-O binary" [])
    >> parse_macho_container (macho_span bytes)

pub record ArchSlice : Type 0 where
  pub cpu_type : ℕ
  pub cpu_subtype : ℕ
  pub offset : ℕ
  pub size : ℕ
  pub is_signed : Bool
  pub signature_offset : ℕ
  pub signature_size : ℕ
  pub supported : Bool

abbrev pub signature_range : Option CodeSignatureLayout → ℕ × ℕ
signature_range none = (0, 0)
signature_range (some sig) = (sig.dataoff, sig.datasize)

abbrev pub is_supported : SliceSupport → Bool
is_supported supported = true
is_supported _ = false

-- The text of the reason follows from the support, and is left out.
unfoldable pub arch_slice : ContainerEntry → ArchSlice
arch_slice entry = record {
  cpu_type = entry.arch.cputype;
  cpu_subtype = entry.arch.cpusubtype;
  offset = entry.arch.offset;
  size = entry.arch.size;
  is_signed = is_some entry.slice.codesig;
  signature_offset = (signature_range entry.slice.codesig).0;
  signature_size = (signature_range entry.slice.codesig).1;
  supported = is_supported entry.slice.support;
}

unfoldable pub arch_slices : List ContainerEntry → List ArchSlice
arch_slices [] = []
arch_slices (entry ∷ rest) = arch_slice entry ∷ arch_slices rest

unfoldable pub get_arch_slices : Bytes → Outcome (List ArchSlice)
get_arch_slices bytes = parse_file bytes >>= λ container. ok (arch_slices container.entries)

unfoldable pub add_names : List Bytes → List Bytes → List Bytes
add_names deps [] = deps
add_names deps (library ∷ rest) =
    add_names (if any (same_name library) deps then deps else deps ++ library ∷ []) rest

-- The loop over the slices; a declined slice ends it, with the path in front of the text.
unfoldable pub all_names : String → ℕ → List ContainerEntry → List Bytes → Outcome (List Bytes)
all_names file_path i [] deps = ok deps
all_names file_path i (entry ∷ rest) deps =
    reject_if (not (is_supported entry.slice.support)) file_path
      (said "Mac programs of this kind are not supported" (i ∷ entry.arch.cputype ∷ []))
    >> all_names file_path (i + 1) rest (add_names deps entry.slice.dylibs)

unfoldable pub list_dependencies : String → Bytes → Outcome (List Bytes)
list_dependencies file_path bytes =
    parse_file bytes >>= λ container. all_names file_path 0 container.entries []
