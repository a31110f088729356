-- ===== src/MachO/Slice.antt =====
-- ParseMachOSlice of src/internal/MachOLayout.cpp.
use libthe_seed.Prelude.{
  ℕ, zero, suc, ◌+◌, ◌%◌, String, not, ◌&&◌, [], ◌∷◌, ◌++◌, Option, none, some, ltb, ◌==◌,
  if◌then◌else◌, Outcome, ok, ◌>>=◌, ◌>>◌, Detail, said, reject_if, throw_malformed,
}
use libthe_seed.Bounded.Range.{range_fits}
use libthe_seed.Bounded.Order.{ByteOrder, little, big, bytes4}
use libthe_seed.Bounded.Span.{ByteSpan, read, sub}
use libthe_seed.MachO.Defs.{
  macho_format, MachoKind, thin64_big, thin32_big, SliceSupport, supported, SliceLayout, is_thin,
  support_for, classify_macho_magic,
}
use libthe_seed.MachO.Commands.{Progress, take_command}

unfoldable pub push_command : ℕ → ℕ → ℕ → Progress → Progress
push_command command_offset cmd cmdsize p = record p {
  layout = record p.layout {
    commands =
        p.layout.commands ++ record { offset = command_offset; cmd = cmd; cmdsize = cmdsize } ∷ [];
  };
}

-- The text for an emptied command says more.
abbrev pub small_size : ℕ → ℕ → Detail
small_size index cmdsize =
    if cmdsize == 0
    then said "load command size is smaller than 8; rebuild it from the unsigned original"
        (index ∷ cmdsize ∷ [])
    else said "load command size is smaller than 8" (index ∷ cmdsize ∷ [])

-- The loop, with `left` commands to go; it gives the cursor behind the last.
unfoldable pub load_commands : ByteSpan → ℕ → ℕ → ℕ → ℕ → Progress → Outcome (ℕ × Progress)
load_commands area size cursor index zero p = ok (cursor, p)
load_commands area size cursor index (suc left) p =
    reject_if (not (range_fits cursor 8 area.size)) macho_format
      (said "load command does not fit in the load command area" (index ∷ area.size ∷ []))
    >> (read bytes4 area cursor little "load command" >>= λ cmd.
        read bytes4 area (cursor + 4) little "load command size" >>= λ cmdsize.
        reject_if (ltb cmdsize 8) macho_format (small_size index cmdsize)
        >> (reject_if (not (cmdsize % 4 == 0)) macho_format
              (said "load command size is not a multiple of 4" (index ∷ cmdsize ∷ []))
            >> (reject_if (not (range_fits cursor cmdsize area.size)) macho_format (
                  said "load command runs past the end of the load commands" (index ∷ cmdsize ∷ []))
                >> (sub area cursor cmdsize "load command" >>= λ command.
                    take_command size index (32 + cursor) cmdsize command cmd
                      (push_command (32 + cursor) cmd cmdsize p)
                    >>= λ more. load_commands area size (cursor + cmdsize) (index + 1) left more))))

-- A kept segment problem is thrown last.
abbrev pub segment_verdict : Progress → Option Detail → Outcome SliceLayout
segment_verdict p none = ok p.layout
segment_verdict p (some problem) = throw_malformed macho_format problem

unfoldable pub interpreted_slice : ByteSpan → ℕ → SliceLayout → Outcome SliceLayout
interpreted_slice view size layout = sub view 0 32 "Mach-O header" >>= λ _.
    read bytes4 view 12 little "file type" >>= λ filetype.
    read bytes4 view 16 little "load command count" >>= λ ncmds.
    read bytes4 view 20 little "load command area size" >>= λ sizeofcmds.
    sub view 32 sizeofcmds "load commands" >>= λ area.
    load_commands area size 0 0 ncmds (record {
      layout = record layout {
        filetype = filetype;
        ncmds = ncmds;
        sizeofcmds = sizeofcmds;
        header_end = 32 + sizeofcmds;
      };
      segment_problem = none;
    })
    >>= λ (cursor, p).
        reject_if (not (cursor == sizeofcmds)) macho_format (
          said "the load commands use another size than the header says"
            (ncmds ∷ cursor ∷ sizeofcmds ∷ []))
        >> segment_verdict p p.segment_problem

abbrev pub order_of : MachoKind → ByteOrder
order_of thin64_big = big
order_of thin32_big = big
order_of _ = little

abbrev pub slice_of : ℕ → ℕ → SliceSupport → ℕ → ℕ → SliceLayout
slice_of base size support cputype cpusubtype = record {
  base = base;
  size = size;
  support = support;
  cputype = cputype;
  cpusubtype = cpusubtype;
  filetype = 0;
  ncmds = 0;
  sizeofcmds = 0;
  header_end = 0;
  commands = [];
  segments = [];
  text = none;
  linkedit = none;
  first_content = size;
  codesig = none;
  dylibs = [];
}

-- Only a supported slice is looked into.
abbrev pub by_support : ByteSpan → ℕ → SliceLayout → SliceSupport → Outcome SliceLayout
by_support view size layout supported = interpreted_slice view size layout
by_support view size layout _ = ok layout

unfoldable pub slice_view : ByteSpan → ℕ → ℕ → String → Outcome ByteSpan
slice_view file base size scope =
    if base == 0 && size == file.size then ok file else sub file base size scope

unfoldable pub parse_macho_slice : ByteSpan → ℕ → ℕ → String → Outcome SliceLayout
parse_macho_slice file base size scope = slice_view file base size scope >>= λ view.
    classify_macho_magic view >>= λ kind.
    reject_if (not (is_thin kind)) macho_format (said "Not a single-arch Mach-O binary" [])
    >> (sub view 0 12 "Mach-O header" >>= λ _.
        read bytes4 view 4 (order_of kind) "cpu type" >>= λ cputype.
        read bytes4 view 8 (order_of kind) "cpu subtype" >>= λ cpusubtype.
        by_support view size (slice_of base size (support_for kind) cputype cpusubtype)
          (support_for kind))
