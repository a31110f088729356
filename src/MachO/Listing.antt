-- ===== src/MachO/Listing.antt =====
-- What the entry points of src/MachOParser.cpp return.
use libthe_seed.Prelude.{
  ℕ, ◌+◌, ◌^◌, ◌≤◌, ◌<◌, String, not, List, [], ◌∷◌, ◌++◌, Option, none, some, length, All, any,
  same_name, ltb, if◌then◌else◌, Returns, value, Returns-bind, Returns-reject_if, arith,
}
use libthe_seed.Bounded.Order.{Bytes, IsByte}
use libthe_seed.Bounded.Span.{ByteSpan, whole-IsValid}
use libthe_seed.MachO.Defs.{macho_format, CodeSignatureLayout}
use libthe_seed.MachO.Container.{ContainerEntry}
use libthe_seed.MachO.Parser.{
  macho_span, parse_file, ArchSlice, arch_slice, arch_slices, get_arch_slices, is_supported,
  add_names, all_names, list_dependencies, signature_range,
}
use libthe_seed.MachO.Frame.{SignatureFits, Stands, Distinct, Distinct-add, All-add}
use libthe_seed.MachO.SliceBounds.{IsSlice}
use libthe_seed.MachO.ContainerBounds.{IsContainer, parse_macho_container-Returns}

-- Every name stands in the file and is listed once.
pub record IsNameList (file : ByteSpan) (names : List Bytes) : Type 0 where
  pub stand : All (Stands file) names
  pub distinct : Distinct names

-- The slice and its signature lie inside the file.
pub record IsSliceReport (file_size : ℕ) (s : ArchSlice) : Type 0 where
  pub inside : s.offset + s.size ≤ file_size
  pub signature_inside : s.signature_offset + s.signature_size ≤ s.size

module _ (bytes : Bytes) (are : All IsByte bytes) (small : length bytes < 2 ^ 63) where
  parse_file-Returns : Returns (IsContainer (macho_span bytes)) (parse_file bytes)
  unfolding parse_file
  parse_file-Returns =
      Returns-reject_if (ltb (length bytes) 4) _ _ _
        λ _. parse_macho_container-Returns (whole-IsValid bytes macho_format "the file" are) small

add_names-IsNameList :
    {file : ByteSpan} (deps names : List Bytes)
    → All (Stands file) names
    → IsNameList file deps
    → IsNameList file (add_names deps names)
unfolding add_names
add_names-IsNameList deps [] h d = d
add_names-IsNameList {file} deps (name ∷ rest) h d =
    add_names-IsNameList (if any (same_name name) deps then deps else deps ++ name ∷ []) rest h.1
      (record {
        stand = All-add (Stands file) deps name h.0 d.stand;
        distinct = Distinct-add deps name d.distinct;
      })

all_names-Returns :
    {file : ByteSpan} (file_path : String) (i : ℕ) (entries : List ContainerEntry)
    (deps : List Bytes)
    → All (λ e. IsSlice file e.arch.offset e.arch.size e.slice) entries
    → IsNameList file deps
    → Returns (IsNameList file) (all_names file_path i entries deps)
unfolding all_names
all_names-Returns file_path i [] deps h d = value d
all_names-Returns file_path i (entry ∷ rest) deps h d =
    Returns-reject_if (not (is_supported entry.slice.support)) _ _ _ λ _.
      all_names-Returns file_path (i + 1) rest (add_names deps entry.slice.dylibs) h.1
        (add_names-IsNameList deps entry.slice.dylibs h.0.names_stand d)

-- For a file of bytes below 2 ^ 63 bytes, ListDependencies reads nothing outside the file, and
-- every name it returns stands in the file, ended by a NUL, and is listed once.
pub list_dependencies-Returns :
    (file_path : String) (bytes : Bytes)
    → All IsByte bytes
    → length bytes < 2 ^ 63
    → Returns (IsNameList (macho_span bytes)) (list_dependencies file_path bytes)
unfolding list_dependencies
list_dependencies-Returns file_path bytes are small =
    Returns-bind _ (parse_file-Returns bytes are small) λ container c.
      all_names-Returns file_path 0 container.entries [] c.slices
        (record { stand = tt; distinct = tt })

signature_inside :
    (size header_end : ℕ) (sig : Option CodeSignatureLayout)
    → SignatureFits size header_end sig
    → (signature_range sig).0 + (signature_range sig).1 ≤ size
signature_inside size header_end none h = omega arith
signature_inside size header_end (some sig) h = h.0

arch_slices_report :
    (file : ByteSpan) (entries : List ContainerEntry)
    → All (λ e. IsSlice file e.arch.offset e.arch.size e.slice) entries
    → All (IsSliceReport file.size) (arch_slices entries)
unfolding arch_slices arch_slice
arch_slices_report file [] h = tt
arch_slices_report file (entry ∷ rest) h = (
  record {
    inside = h.0.inside;
    signature_inside = signature_inside entry.arch.size _ entry.slice.codesig h.0.signature_fits;
  },
  arch_slices_report file rest h.1,
)

-- For a file of bytes below 2 ^ 63 bytes, GetArchSlices reads nothing outside the file, and every
-- slice it reports lies inside the file, its signature inside the slice.
pub get_arch_slices-Returns :
    (bytes : Bytes)
    → All IsByte bytes
    → length bytes < 2 ^ 63
    → Returns (All (IsSliceReport (length bytes))) (get_arch_slices bytes)
unfolding get_arch_slices
get_arch_slices-Returns bytes are small =
    Returns-bind _ (parse_file-Returns bytes are small)
      λ container c. value (arch_slices_report (macho_span bytes) container.entries c.slices)
