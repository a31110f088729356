-- ===== src/MachO/Tests.antt =====
-- A 64-bit little-endian program with one dylib and a signature, alone and twice in a universal
-- file.
use libthe_seed.Prelude.{
  List, ◌≡◌, refl, [], ◌∷◌, ◌++◌, ok, replicate, arith, Returns, length, All, any, same_name,
}
use libthe_seed.Bounded.Range.{range_fits}
use libthe_seed.Bounded.Order.{Bytes, byte_swap_if_needed, byte_swap, byte}
use libthe_seed.Bounded.Span.{memory, read, read_on, sub, whole-IsValid}
use libthe_seed.Bounded.Text.{c_string}
use libthe_seed.MachO.Defs.{magic_bytes, kind_of_magic, classify_macho_magic}
use libthe_seed.MachO.Commands.{take_signature, take_dylib, take_command}
use libthe_seed.MachO.Slice.{
  push_command, load_commands, interpreted_slice, slice_view, parse_macho_slice,
}
use libthe_seed.MachO.Container.{
  FatArch, starts_with_thin_magic, read_fat_arch, first_row_check, read_table, insert_by_offset,
  stable_sort, numbered, overlap_check, parse_slices, parse_fat, parse_thin, parse_macho_container,
}
use libthe_seed.MachO.Parser.{
  macho_span, parse_file, get_arch_slices, add_names, all_names, list_dependencies,
}
use libthe_seed.MachO.SliceBounds.{IsSlice, parse_macho_slice-Returns}
use libthe_seed.MachO.ContainerBounds.{IsContainer, parse_macho_container-Returns}
use libthe_seed.MachO.Disjoint.{AllPairs, Apart, overlap_check-Apart}
use libthe_seed.MachO.Listing.{
  IsNameList, IsSliceReport, list_dependencies-Returns, get_arch_slices-Returns,
}

abbrev thin_file : Bytes
thin_file =
    (0xcf ∷ 0xfa ∷ 0xed ∷ 0xfe ∷ 12 ∷ 0 ∷ 0 ∷ 1 ∷ [])
    ++ replicate 4 0
    ++ (2 ∷ 0 ∷ 0 ∷ 0 ∷ 2 ∷ 0 ∷ 0 ∷ 0 ∷ 48 ∷ [])
    ++ replicate 11 0
    ++ (12 ∷ 0 ∷ 0 ∷ 0 ∷ 32 ∷ 0 ∷ 0 ∷ 0 ∷ 24 ∷ [])
    ++ replicate 15 0
    ++ (b'l' ∷ b'i' ∷ b'b' ∷ [])
    ++ replicate 5 0
    ++ (0x1d ∷ 0 ∷ 0 ∷ 0 ∷ 16 ∷ 0 ∷ 0 ∷ 0 ∷ 80 ∷ 0 ∷ 0 ∷ 0 ∷ 4 ∷ 0 ∷ 0 ∷ 0 ∷ [])
    ++ (1 ∷ 2 ∷ 3 ∷ 4 ∷ [])

-- Its table has the second slice first.
abbrev fat_file : Bytes
fat_file =
    (0xca ∷ 0xfe ∷ 0xba ∷ 0xbe ∷ 0 ∷ 0 ∷ 0 ∷ 2 ∷ [])
    ++ (1 ∷ 0 ∷ 0 ∷ 12 ∷ 0 ∷ 0 ∷ 0 ∷ 0 ∷ 0 ∷ 0 ∷ 0 ∷ 132 ∷ 0 ∷ 0 ∷ 0 ∷ 84 ∷ 0 ∷ 0 ∷ 0 ∷ 2 ∷ [])
    ++ (1 ∷ 0 ∷ 0 ∷ 12 ∷ 0 ∷ 0 ∷ 0 ∷ 0 ∷ 0 ∷ 0 ∷ 0 ∷ 48 ∷ 0 ∷ 0 ∷ 0 ∷ 84 ∷ 0 ∷ 0 ∷ 0 ∷ 2 ∷ [])
    ++ thin_file
    ++ thin_file

abbrev two_rows : List FatArch
two_rows =
    record { cputype = 7; cpusubtype = 3; offset = 132; size = 84; align = 2 }
    ∷ record { cputype = 12; cpusubtype = 0; offset = 48; size = 84; align = 2 }
    ∷ []

thin_names : list_dependencies "a" thin_file ≡ ok ((b'l' ∷ b'i' ∷ b'b' ∷ []) ∷ [])
unfolding range_fits byte_swap_if_needed memory read_on read sub c_string magic_bytes kind_of_magic
    classify_macho_magic take_signature take_dylib take_command push_command load_commands
    interpreted_slice slice_view parse_macho_slice parse_thin parse_macho_container parse_file
    add_names all_names list_dependencies any same_name
thin_names = refl

fat_names : list_dependencies "a" fat_file ≡ ok ((b'l' ∷ b'i' ∷ b'b' ∷ []) ∷ [])
unfolding range_fits byte byte_swap byte_swap_if_needed memory read_on read sub c_string magic_bytes
    kind_of_magic classify_macho_magic take_signature take_dylib take_command push_command
    load_commands interpreted_slice slice_view parse_macho_slice starts_with_thin_magic
    read_fat_arch first_row_check read_table insert_by_offset stable_sort numbered overlap_check
    parse_slices parse_fat parse_macho_container parse_file add_names all_names list_dependencies
    any same_name
fat_names = refl

list_dependencies-Returns_example :
    Returns (IsNameList (macho_span fat_file)) (list_dependencies "a" fat_file)
list_dependencies-Returns_example =
    list_dependencies-Returns "a" fat_file (ground arith) (omega arith)

get_arch_slices-Returns_example :
    Returns (All (IsSliceReport (length fat_file))) (get_arch_slices fat_file)
get_arch_slices-Returns_example = get_arch_slices-Returns fat_file (ground arith) (omega arith)

parse_macho_container-Returns_example :
    Returns (IsContainer (macho_span fat_file)) (parse_macho_container (macho_span fat_file))
parse_macho_container-Returns_example =
    parse_macho_container-Returns (whole-IsValid fat_file "Mach-O" "the file" (ground arith))
      (omega arith)

parse_macho_slice-Returns_example :
    Returns
      (IsSlice (macho_span fat_file) 48 84)
      (parse_macho_slice (macho_span fat_file) 48 84 "fat slice")
parse_macho_slice-Returns_example =
    parse_macho_slice-Returns (whole-IsValid fat_file "Mach-O" "the file" (ground arith)) 48 84
      "fat slice"

overlap_check-Apart_example :
    Returns (λ _. AllPairs Apart two_rows) (overlap_check (stable_sort (numbered 0 two_rows)))
overlap_check-Apart_example = overlap_check-Apart two_rows (omega arith, (omega arith, tt))
