-- ===== src/MachO/SliceBounds.antt =====
-- What ParseMachOSlice returns, and that it reads nothing outside the file.
use libthe_seed.Prelude.{
  ℕ, zero, suc, ◌+◌, ◌%◌, ◌≡◌, ◌≤◌, refl, String, not, Option, none, some, All, All-mono, arith,
  ltb, ◌==◌, ◌&&◌, Returns, value, refusal, Returns-bind, Returns-reject_if, Returns-if, Detail,
}
use libthe_seed.Bounded.Range.{range_fits}
use libthe_seed.Bounded.Order.{little, bytes1, bytes4}
use libthe_seed.Bounded.Span.{ByteSpan, IsValid, IsPart, sub-Returns, read-Returns}
use libthe_seed.MachO.Defs.{
  SliceLayout, SliceSupport, supported, big_endian, thirty_two_bit, thirty_two_bit_big_endian,
  support_for, magic_bytes, classify_macho_magic, is_thin,
}
use libthe_seed.MachO.Commands.{Progress}
use libthe_seed.MachO.Slice.{
  push_command, load_commands, segment_verdict, interpreted_slice, order_of, slice_of, by_support,
  slice_view, parse_macho_slice,
}
use libthe_seed.MachO.Frame.{
  Tiles, Tiles-append, SegmentFits, IsBehind, SignatureFits, Stands, Stands-part, Distinct,
}
use libthe_seed.MachO.CommandBounds.{IsFramed, IsFound, take_command-Returns}

-- A slice at [base, base + size) of the file: when supported, its load commands tile the area behind the header,
-- its segments and its signature lie inside it, no content starts in front of `first_content`,
-- and its names stand in the file, each once.
pub record IsSlice (file : ByteSpan) (base size : ℕ) (l : SliceLayout) : Type 0 where
  pub base_eq : l.base ≡ base
  pub size_eq : l.size ≡ size
  pub inside : base + size ≤ file.size
  pub header_fits : l.header_end ≤ size
  pub tiles : l.support ≡ supported → Tiles 32 l.commands l.header_end
  pub segments_fit : All (SegmentFits size) l.segments
  pub content_le : l.first_content ≤ size
  pub content_first : All (IsBehind l.first_content) l.segments
  pub signature_fits : SignatureFits size l.header_end l.codesig
  pub names_stand : All (Stands file) l.dylibs
  pub names_distinct : Distinct l.dylibs

magic_bytes-Returns :
    {file : ByteSpan}
    → IsValid file
    → (i left bytes : ℕ) → Returns (λ _. Unit) (magic_bytes file i left bytes)
unfolding magic_bytes
magic_bytes-Returns v i zero bytes = value tt
magic_bytes-Returns v i (suc left) bytes =
    Returns-bind _ (read-Returns v i little bytes1 "Mach-O magic")
      λ b _. magic_bytes-Returns v (i + 1) left _

pub classify_macho_magic-Returns :
    {file : ByteSpan} → IsValid file → Returns (λ _. Unit) (classify_macho_magic file)
unfolding classify_macho_magic
classify_macho_magic-Returns {file} v =
    Returns-if (ltb file.size 4) (λ _. value tt)
      λ _. Returns-bind _ (magic_bytes-Returns v 0 4 0) λ bytes _. value tt

push_command-IsFramed :
    (base size header_end cursor cmd cmdsize : ℕ) (p : Progress)
    → IsFramed base size header_end (32 + cursor) p.layout
    → 8 ≤ cmdsize
    → cmdsize % 4 ≡ 0
    → IsFramed base size header_end
        (32 + (cursor + cmdsize))
        (push_command (32 + cursor) cmd cmdsize p).layout
unfolding push_command
push_command-IsFramed base size header_end cursor cmd cmdsize p h long even =
    let behind : 32 + (cursor + cmdsize) ≡ 32 + cursor + cmdsize = omega arith in
    record {
      base_eq = h.base_eq;
      size_eq = h.size_eq;
      header_eq = h.header_eq;
      tiles = rw behind (
          Tiles-append 32 (32 + cursor) p.layout.commands
            (record { offset = 32 + cursor; cmd = cmd; cmdsize = cmdsize }) h.tiles refl long even);
    }

push_command-IsFound :
    {area : ByteSpan} {size header_end : ℕ} (command_offset cmd cmdsize : ℕ) (p : Progress)
    → IsFound area size header_end p
    → IsFound area size header_end (push_command command_offset cmd cmdsize p)
unfolding push_command
push_command-IsFound command_offset cmd cmdsize p h = record {
  segments_fit = h.segments_fit;
  content_le = h.content_le;
  content_first = h.content_first;
  signature_fits = h.signature_fits;
  names_stand = h.names_stand;
  names_distinct = h.names_distinct;
}

module _ {area : ByteSpan} (v : IsValid area) (base size header_end : ℕ) where
  abbrev IsLoaded : ℕ × Progress → Type 0
  IsLoaded (cursor, p) =
      IsFramed base size header_end (32 + cursor) p.layout × IsFound area size header_end p

  load_commands-Returns :
      (cursor index left : ℕ) (p : Progress)
      → IsLoaded (cursor, p)
      → Returns IsLoaded (load_commands area size cursor index left p)
  unfolding load_commands
  load_commands-Returns cursor index zero p h = value h
  load_commands-Returns cursor index (suc left) p h =
      Returns-reject_if (not (range_fits cursor 8 area.size)) _ _ _ λ _.
        Returns-bind _ (read-Returns v cursor little bytes4 "load command") λ cmd _.
          Returns-bind _ (read-Returns v (cursor + 4) little bytes4 "load command size")
            λ cmdsize _. Returns-reject_if (ltb cmdsize 8) _ _ _ λ long.
              Returns-reject_if (not (cmdsize % 4 == 0)) _ _ _ λ even.
                Returns-reject_if (not (range_fits cursor cmdsize area.size)) _ _ _ λ _.
                  Returns-bind _ (sub-Returns v cursor cmdsize "load command") λ command part.
                    Returns-bind _
                      (take_command-Returns part base size header_end (32 + (cursor + cmdsize))
                        index (32 + cursor) cmdsize cmd (push_command (32 + cursor) cmd cmdsize p)
                        (
                          push_command-IsFramed base size header_end cursor cmd cmdsize p h.0
                              (ground (arith, long)) (ground (arith, even)),
                          push_command-IsFound (32 + cursor) cmd cmdsize p h.1,
                        ))
                      λ more kept.
                        load_commands-Returns (cursor + cmdsize) (index + 1) left more kept

-- The view of the slice is the part of the file.
slice_view-Returns :
    {file : ByteSpan}
    → IsValid file
    → (base size : ℕ) (scope : String)
    → Returns (IsPart file base size) (slice_view file base size scope)
unfolding slice_view
slice_view-Returns {file} v base size scope =
    Returns-if (base == 0 && size == file.size)
      (λ whole_file. value (record {
        valid = v;
        bytes_eq = refl;
        base_eq = ground (arith, whole_file);
        size_eq = ground (arith, whole_file);
        format_eq = refl;
        fits = ground (arith, whole_file);
      }))
      λ _. sub-Returns v base size scope

module _ {file view : ByteSpan} {base size : ℕ} (part : IsPart file base size view) where
  segment_verdict-Returns :
      {area : ByteSpan} {start header_end : ℕ} {count : ℕ}
      → IsPart view start count area
      → header_end ≤ size
      → (p : Progress) → IsFramed base size header_end header_end p.layout
      → IsFound area size header_end p
      → (problem : Option Detail) → p.segment_problem ≡ problem
      → Returns (IsSlice file base size) (segment_verdict p problem)
  segment_verdict-Returns within fits p framed found (some problem) e = refusal
  segment_verdict-Returns within fits p framed found none e = value (record {
    base_eq = framed.base_eq;
    size_eq = framed.size_eq;
    inside = part.fits;
    header_fits = omega (arith, framed.header_eq, fits);
    tiles = λ _. rw framed.header_eq framed.tiles;
    segments_fit = found.segments_fit e;
    content_le = found.content_le;
    content_first = found.content_first;
    signature_fits = rw framed.header_eq found.signature_fits;
    names_stand =
        All-mono (Stands _) p.layout.dylibs
          (λ name text. Stands-part part name (Stands-part within name text)) found.names_stand;
    names_distinct = found.names_distinct;
  })

  interpreted_slice-Returns :
      (kind : SliceSupport) (cputype cpusubtype : ℕ)
      → Returns
          (IsSlice file base size)
          (interpreted_slice view size (slice_of base size kind cputype cpusubtype))
  unfolding interpreted_slice
  interpreted_slice-Returns kind cputype cpusubtype =
      Returns-bind _ (sub-Returns part.valid 0 32 "Mach-O header") λ _ _.
        Returns-bind _ (read-Returns part.valid 12 little bytes4 "file type") λ filetype _.
          Returns-bind _ (read-Returns part.valid 16 little bytes4 "load command count") λ ncmds _.
            Returns-bind _ (read-Returns part.valid 20 little bytes4 "load command area size")
              λ sizeofcmds _.
                Returns-bind _ (sub-Returns part.valid 32 sizeofcmds "load commands") λ area within.
                  Returns-bind _
                    (load_commands-Returns within.valid base size (32 + sizeofcmds) 0 0 ncmds _ (
                      record { base_eq = refl; size_eq = refl; header_eq = refl; tiles = refl },
                      record {
                        segments_fit = λ _. tt;
                        content_le = omega arith;
                        content_first = tt;
                        signature_fits = tt;
                        names_stand = tt;
                        names_distinct = tt;
                      },
                    ))
                    λ (cursor, p) loaded.
                      Returns-reject_if (not (cursor == sizeofcmds)) _ _ _ λ used.
                        let same : cursor ≡ sizeofcmds = ground (arith, used) in
                        segment_verdict-Returns within (omega (arith, within.fits, part.size_eq)) p
                          (rw same at loaded.0) loaded.1 p.segment_problem refl

  declined :
      (kind : SliceSupport) (cputype cpusubtype : ℕ)
      → ¬ (kind ≡ supported)
      → IsSlice file base size (slice_of base size kind cputype cpusubtype)
  declined kind cputype cpusubtype other = record {
    base_eq = refl;
    size_eq = refl;
    inside = part.fits;
    header_fits = omega arith;
    tiles = λ e. absurd (other e);
    segments_fit = tt;
    content_le = omega arith;
    content_first = tt;
    signature_fits = tt;
    names_stand = tt;
    names_distinct = tt;
  }

  by_support-Returns :
      (kind : SliceSupport) (cputype cpusubtype : ℕ)
      → Returns
          (IsSlice file base size)
          (by_support view size (slice_of base size kind cputype cpusubtype) kind)
  by_support-Returns supported cputype cpusubtype =
      interpreted_slice-Returns supported cputype cpusubtype
  by_support-Returns big_endian cputype cpusubtype =
      value (declined big_endian cputype cpusubtype (λ e. cc))
  by_support-Returns thirty_two_bit cputype cpusubtype =
      value (declined thirty_two_bit cputype cpusubtype (λ e. cc))
  by_support-Returns thirty_two_bit_big_endian cputype cpusubtype =
      value (declined thirty_two_bit_big_endian cputype cpusubtype (λ e. cc))

-- For any view of a file and any range, ParseMachOSlice reads nothing outside the file, and what
-- it returns is a slice at that range.
pub parse_macho_slice-Returns :
    {file : ByteSpan}
    → IsValid file
    → (base size : ℕ) (scope : String)
    → Returns (IsSlice file base size) (parse_macho_slice file base size scope)
unfolding parse_macho_slice
parse_macho_slice-Returns v base size scope =
    Returns-bind _ (slice_view-Returns v base size scope) λ view part.
      Returns-bind _ (classify_macho_magic-Returns part.valid) λ kind _.
        Returns-reject_if (not (is_thin kind)) _ _ _ λ _.
          Returns-bind _ (sub-Returns part.valid 0 12 "Mach-O header") λ _ _.
            Returns-bind _ (read-Returns part.valid 4 (order_of kind) bytes4 "cpu type")
              λ cputype _.
                Returns-bind _ (read-Returns part.valid 8 (order_of kind) bytes4 "cpu subtype")
                  λ cpusubtype _. by_support-Returns part (support_for kind) cputype cpusubtype
