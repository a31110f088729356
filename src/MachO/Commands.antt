-- ===== src/MachO/Commands.antt =====
-- The body of the loop over the load commands in ParseMachOSlice of src/internal/MachOLayout.cpp.
-- The number of the command is in the texts of `said`; in the names given to Sub and CString it
-- is left out.
use libthe_seed.Prelude.{
  is_some, ℕ, zero, suc, ◌+◌, ◌*◌, ◌%◌, Bool, not, ◌&&◌, ◌||◌, [], ◌∷◌, ◌++◌, Option, none, some,
  min, ltb, leb, ◌==◌, if◌then◌else◌, any, same_name, Outcome, ok, ◌>>=◌, ◌>>◌, Detail, said,
  reject_if,
}
use libthe_seed.Bounded.Range.{range_fits}
use libthe_seed.Bounded.Order.{little, bytes1, bytes4, bytes8, Bytes}
use libthe_seed.Bounded.Span.{ByteSpan, read}
use libthe_seed.Bounded.Text.{c_string}
use libthe_seed.MachO.Defs.{macho_format, SegmentLayout, SliceLayout}

abbrev pub text_name : Bytes
text_name = b'_' ∷ b'_' ∷ b'T' ∷ b'E' ∷ b'X' ∷ b'T' ∷ []

abbrev pub linkedit_name : Bytes
linkedit_name = b'_' ∷ b'_' ∷ b'L' ∷ b'I' ∷ b'N' ∷ b'K' ∷ b'E' ∷ b'D' ∷ b'I' ∷ b'T' ∷ []

-- What the loop carries besides the cursor: the layout, and the first segment problem.
pub record Progress : Type 0 where
  pub layout : SliceLayout
  pub segment_problem : Option Detail

abbrev pub is_reference_command : ℕ → Bool
is_reference_command cmd =
    cmd == 0x0c || cmd == 0x80000018 || cmd == 0x8000001f || cmd == 0x20 || cmd == 0x80000023

-- The low eight bits are the type of a section.
abbrev pub is_zero_fill : ℕ → Bool
is_zero_fill section_flags =
    let type = section_flags % 256 in type == 0x01 || type == 0x0c || type == 0x12

unfoldable pub segment_name : ByteSpan → ℕ → ℕ → Bytes → Outcome Bytes
segment_name command i zero name = ok name
segment_name command i (suc left) name = read bytes1 command (8 + i) little "segment name" >>= λ c.
    let rest = segment_name command (i + 1) left (name ++ c ∷ []) in
    if c == 0 then ok name else rest

-- The loop over the sections, with `left` of them to go, keeps the lowest offset of data.
unfoldable pub sections : ByteSpan → ℕ → ℕ → ℕ → Outcome ℕ
sections command s zero first_content = ok first_content
sections command s (suc left) first_content =
    let at = 72 + s * 80 in
    read bytes4 command (at + 48) little "section file offset" >>= λ section_offset.
    read bytes4 command (at + 64) little "section flags" >>= λ section_flags.
    sections command (s + 1) left (
      if not (section_offset == 0) && not (is_zero_fill section_flags)
      then min first_content section_offset
      else first_content)

-- A problem of an earlier segment stays.
abbrev pub note_problem : ℕ → ℕ → SegmentLayout → Option Detail → Option Detail
note_problem size index segment (some problem) = some problem
note_problem size index segment none =
    if range_fits segment.fileoff segment.filesize size
    then none
    else some (said "LC_SEGMENT_64 command file range extends past the end" (index ∷ segment.name))

abbrev pub segment_content : SegmentLayout → ℕ → ℕ
segment_content segment first_content =
    if not (same_name segment.name text_name) && ltb 0 segment.filesize && ltb 0 segment.fileoff
    then min first_content segment.fileoff
    else first_content

-- The first __TEXT segment and the first __LINKEDIT segment are kept by name.
unfoldable pub keep_segment : SegmentLayout → ℕ → SliceLayout → SliceLayout
keep_segment segment first_content layout =
    let is_text = same_name segment.name text_name && not (is_some layout.text) in
    let is_linkedit = same_name segment.name linkedit_name && not (is_some layout.linkedit) in
    record layout {
      segments = layout.segments ++ segment ∷ [];
      first_content = first_content;
      text = if is_text then some segment else layout.text;
      linkedit = if not is_text && is_linkedit then some segment else layout.linkedit;
    }

module _ (size index command_offset cmdsize : ℕ) (command : ByteSpan) where
  unfoldable pub read_segment : Outcome SegmentLayout
  read_segment = segment_name command 0 16 [] >>= λ name.
      read bytes8 command 24 little "segment address" >>= λ vmaddr.
      read bytes8 command 32 little "segment size in memory" >>= λ vmsize.
      read bytes8 command 40 little "segment file offset" >>= λ fileoff.
      read bytes8 command 48 little "segment file size" >>= λ filesize. ok (record {
        command_offset = command_offset;
        name = name;
        vmaddr = vmaddr;
        vmsize = vmsize;
        fileoff = fileoff;
        filesize = filesize;
      })

  unfoldable pub take_segment : Progress → Outcome Progress
  take_segment p =
      reject_if (ltb cmdsize 72) macho_format
        (said "LC_SEGMENT_64 command size is smaller than 72" (index ∷ cmdsize ∷ []))
      >> (read_segment >>= λ segment. read bytes4 command 64 little "section count" >>= λ nsects.
          reject_if (ltb cmdsize (72 + nsects * 80)) macho_format (
            said "LC_SEGMENT_64 command has sections that do not fit"
              (index ∷ nsects ∷ cmdsize ∷ []))
          >> (sections command 0 nsects (segment_content segment p.layout.first_content)
              >>= λ first_content. ok (record {
                layout = keep_segment segment first_content p.layout;
                segment_problem = note_problem size index segment p.segment_problem;
              })))

  unfoldable pub take_signature : Progress → Outcome Progress
  take_signature p =
      reject_if (ltb cmdsize 16) macho_format
        (said "LC_CODE_SIGNATURE command size is smaller than 16" (index ∷ cmdsize ∷ []))
      >> (reject_if (is_some p.layout.codesig) macho_format
            (said "is a second LC_CODE_SIGNATURE command" (index ∷ []))
          >> (read bytes4 command 8 little "signature offset" >>= λ dataoff.
              read bytes4 command 12 little "signature size" >>= λ datasize.
              reject_if (not (range_fits dataoff datasize size)) macho_format (
                said "LC_CODE_SIGNATURE data extends past the end"
                  (index ∷ dataoff ∷ datasize ∷ []))
              >> (reject_if (not (datasize == 0) && ltb dataoff p.layout.header_end) macho_format (
                    said "LC_CODE_SIGNATURE data is inside the load commands"
                      (index ∷ dataoff ∷ []))
                  >> ok (record p {
                    layout = record p.layout {
                      codesig = some (record {
                        command_offset = command_offset;
                        dataoff = dataoff;
                        datasize = datasize;
                      });
                    };
                  }))))

  unfoldable pub take_dylib : ℕ → Progress → Outcome Progress
  take_dylib cmd p =
      reject_if (ltb cmdsize 24) macho_format
        (said "reference command size is smaller than 24" (cmd ∷ index ∷ cmdsize ∷ []))
      >> (read bytes4 command 8 little "dylib name offset" >>= λ name_offset.
          reject_if (leb cmdsize name_offset) macho_format (
            said "reference command has its name outside"
              (cmd ∷ index ∷ name_offset ∷ cmdsize ∷ []))
          >> (c_string command name_offset cmdsize "reference command name" >>= λ library.
              ok (record p {
                layout = record p.layout {
                  dylibs =
                      if any (same_name library) p.layout.dylibs
                      then p.layout.dylibs
                      else p.layout.dylibs ++ library ∷ [];
                };
              })))

  unfoldable pub take_command : ℕ → Progress → Outcome Progress
  take_command cmd p =
      if cmd == 0x19
      then take_segment p
      else if cmd == 0x1d
      then take_signature p
      else if is_reference_command cmd
      then take_dylib cmd p
      else ok p
