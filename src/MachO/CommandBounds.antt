-- ===== src/MachO/CommandBounds.antt =====
-- Each handler of a load command reads only its command and keeps what the loop keeps.
use libthe_seed.Prelude.{
  is_some, ℕ, zero, suc, ◌+◌, ◌*◌, ◌≡◌, ◌≤◌, not, [], ◌∷◌, ◌++◌, none, All, All-append, All-mono,
  arith, ltb, leb, ◌==◌, ◌&&◌, if◌then◌else◌, min, Returns, value, Returns-bind, Returns-mono,
  Returns-reject_if, Returns-if,
}
use libthe_seed.Bounded.Range.{range_fits, range_fits_iff}
use libthe_seed.Bounded.Order.{little, bytes1, bytes4, bytes8, Bytes}
use libthe_seed.Bounded.Span.{ByteSpan, IsValid, IsPart, read-Returns}
use libthe_seed.Bounded.Text.{c_string-Returns}
use libthe_seed.MachO.Defs.{SliceLayout}
use libthe_seed.MachO.Commands.{
  Progress, segment_name, sections, read_segment, take_segment, keep_segment, take_signature,
  take_dylib, take_command, is_reference_command, is_zero_fill,
}
use libthe_seed.MachO.Frame.{
  Tiles, SegmentFits, IsBehind, SignatureFits, Stands, Stands-part, Distinct, Distinct-add, All-add,
  segment_content-le, segment_content-IsBehind, note_problem-none,
}

-- The layout has the place and the header of the slice, and its commands end at `end`.
pub record IsFramed (base size header_end end : ℕ) (l : SliceLayout) : Type 0 where
  pub base_eq : l.base ≡ base
  pub size_eq : l.size ≡ size
  pub header_eq : l.header_end ≡ header_end
  pub tiles : Tiles 32 l.commands end

-- What was found in the commands so far. `area` is where the names stand.
pub record IsFound (area : ByteSpan) (size header_end : ℕ) (p : Progress) : Type 0 where
  pub segments_fit : p.segment_problem ≡ none → All (SegmentFits size) p.layout.segments
  pub content_le : p.layout.first_content ≤ size
  pub content_first : All (IsBehind p.layout.first_content) p.layout.segments
  pub signature_fits : SignatureFits size header_end p.layout.codesig
  pub names_stand : All (Stands area) p.layout.dylibs
  pub names_distinct : Distinct p.layout.dylibs

segment_name-Returns :
    {command : ByteSpan}
    → IsValid command
    → (i left : ℕ) (name : Bytes) → Returns (λ _. Unit) (segment_name command i left name)
unfolding segment_name
segment_name-Returns v i zero name = value tt
segment_name-Returns v i (suc left) name =
    Returns-bind _ (read-Returns v (8 + i) little bytes1 "segment name") λ c _.
      Returns-if (c == 0) (λ _. value tt)
        (λ _. segment_name-Returns v (i + 1) left (name ++ c ∷ []))

sections-Returns :
    {command : ByteSpan}
    → IsValid command
    → (s left first : ℕ) → Returns (λ n. n ≤ first) (sections command s left first)
unfolding sections
sections-Returns v s zero first = value (omega arith)
sections-Returns v s (suc left) first =
    Returns-bind _ (read-Returns v (72 + s * 80 + 48) little bytes4 "section file offset") λ at _.
      Returns-bind _ (read-Returns v (72 + s * 80 + 64) little bytes4 "section flags") λ flags _.
        Returns-mono _ (λ n le. omega (arith, le, lowered at flags))
          (sections-Returns v (s + 1) left _)
  where
    lowered :
        (at flags : ℕ)
        → (if not (at == 0) && not (is_zero_fill flags) then min first at else first) ≤ first
    lowered at flags = ground arith

module _ {area command : ByteSpan} {start count : ℕ} (part : IsPart area start count command)
    (base size header_end end index command_offset cmdsize : ℕ) where
  abbrev IsKept : Progress → Type 0
  IsKept p = IsFramed base size header_end end p.layout × IsFound area size header_end p

  read_segment-Returns :
      Returns (λ _. Unit) (read_segment size index command_offset cmdsize command)
  unfolding read_segment
  read_segment-Returns = Returns-bind _ (segment_name-Returns part.valid 0 16 []) λ name _.
      Returns-bind _ (read-Returns part.valid 24 little bytes8 "segment address") λ vmaddr _.
        Returns-bind _ (read-Returns part.valid 32 little bytes8 "segment size in memory")
          λ vmsize _.
            Returns-bind _ (read-Returns part.valid 40 little bytes8 "segment file offset")
              λ fileoff _.
                Returns-bind _ (read-Returns part.valid 48 little bytes8 "segment file size")
                  λ filesize _. value tt

  take_segment-Returns :
      (p : Progress)
      → IsKept p
      → Returns IsKept (take_segment size index command_offset cmdsize command p)
  unfolding take_segment keep_segment
  take_segment-Returns p (framed, found) = Returns-reject_if (ltb cmdsize 72) _ _ _ λ _.
      Returns-bind _ read_segment-Returns λ segment _.
        Returns-bind _ (read-Returns part.valid 64 little bytes4 "section count") λ nsects _.
          Returns-reject_if (ltb cmdsize (72 + nsects * 80)) _ _ _ λ _.
            Returns-bind _ (sections-Returns part.valid 0 nsects _) λ first le. value (
              record {
                base_eq = framed.base_eq;
                size_eq = framed.size_eq;
                header_eq = framed.header_eq;
                tiles = framed.tiles;
              },
              record {
                segments_fit = λ h.
                    (let (before, fits) =
                        note_problem-none size index segment p.segment_problem h in
                      All-append (SegmentFits size) p.layout.segments (segment ∷ [])
                        (found.segments_fit before) (fits, tt));
                content_le = omega (
                  arith,
                  le,
                  segment_content-le segment p.layout.first_content,
                  found.content_le,
                );
                content_first =
                    All-append (IsBehind first) p.layout.segments (segment ∷ [])
                      (All-mono (IsBehind p.layout.first_content) p.layout.segments
                        (λ s old other filled placed. omega (
                          arith,
                          old other filled placed,
                          le,
                          segment_content-le segment p.layout.first_content,
                        ))
                        found.content_first)
                      (
                        λ other filled placed. omega (
                          arith,
                          le,
                          segment_content-IsBehind segment p.layout.first_content other filled
                              placed,
                        ),
                        tt,
                      );
                signature_fits = found.signature_fits;
                names_stand = found.names_stand;
                names_distinct = found.names_distinct;
              },
            )

  take_signature-Returns :
      (p : Progress)
      → IsKept p
      → Returns IsKept (take_signature size index command_offset cmdsize command p)
  unfolding take_signature
  take_signature-Returns p (framed, found) = Returns-reject_if (ltb cmdsize 16) _ _ _ λ _.
      Returns-reject_if (is_some p.layout.codesig) _ _ _ λ _.
        Returns-bind _ (read-Returns part.valid 8 little bytes4 "signature offset") λ dataoff _.
          Returns-bind _ (read-Returns part.valid 12 little bytes4 "signature size") λ datasize _.
            Returns-reject_if (not (range_fits dataoff datasize size)) _ _ _ λ fits.
              Returns-reject_if (not (datasize == 0) && ltb dataoff p.layout.header_end) _ _ _
                λ behind. value (
                  record {
                    base_eq = framed.base_eq;
                    size_eq = framed.size_eq;
                    header_eq = framed.header_eq;
                    tiles = framed.tiles;
                  },
                  record {
                    segments_fit = found.segments_fit;
                    content_le = found.content_le;
                    content_first = found.content_first;
                    signature_fits = (
                      (range_fits_iff dataoff datasize size).0 (ground (arith, fits)),
                      λ filled. ground (arith, behind, filled, framed.header_eq),
                    );
                    names_stand = found.names_stand;
                    names_distinct = found.names_distinct;
                  },
                )

  take_dylib-Returns :
      (cmd : ℕ) (p : Progress)
      → IsKept p
      → Returns IsKept (take_dylib size index command_offset cmdsize command cmd p)
  unfolding take_dylib
  take_dylib-Returns cmd p (framed, found) = Returns-reject_if (ltb cmdsize 24) _ _ _ λ _.
      Returns-bind _ (read-Returns part.valid 8 little bytes4 "dylib name offset") λ place _.
        Returns-reject_if (leb cmdsize place) _ _ _ λ _.
          Returns-bind _ (c_string-Returns part.valid place cmdsize "reference command name")
            λ library text. value (
              record {
                base_eq = framed.base_eq;
                size_eq = framed.size_eq;
                header_eq = framed.header_eq;
                tiles = framed.tiles;
              },
              record {
                segments_fit = found.segments_fit;
                content_le = found.content_le;
                content_first = found.content_first;
                signature_fits = found.signature_fits;
                names_stand =
                    All-add (Stands area) p.layout.dylibs library
                      (Stands-part part library (place, cmdsize, text)) found.names_stand;
                names_distinct = Distinct-add p.layout.dylibs library found.names_distinct;
              },
            )

  pub take_command-Returns :
      (cmd : ℕ) (p : Progress)
      → IsKept p
      → Returns IsKept (take_command size index command_offset cmdsize command cmd p)
  unfolding take_command
  take_command-Returns cmd p kept =
      Returns-if (cmd == 0x19) (λ _. take_segment-Returns p kept)
        λ _.
          Returns-if (cmd == 0x1d) (λ _. take_signature-Returns p kept)
            λ _.
              Returns-if (is_reference_command cmd) (λ _. take_dylib-Returns cmd p kept)
                λ _. value kept
