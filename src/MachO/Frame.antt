-- ===== src/MachO/Frame.antt =====
-- What the loop over the load commands keeps: the commands tile their area, the segments, the
-- signature and the names lie where they should.
use libthe_seed.Prelude.{
  ℕ, ◌+◌, ◌%◌, ◌≡◌, ◌≢◌, ◌≤◌, ◌<◌, refl, List, [], ◌∷◌, ◌++◌, Option, none, some, All, All-append,
  All-mono, any, same_name, same_name_refl, same_name_eq, any-eq_false, Bool-cases, arith, inl, inr,
  false, ◌∙◌, sym, ap, if◌then◌else◌,
}
use libthe_seed.Bounded.Range.{range_fits, range_fits_iff}
use libthe_seed.Bounded.Order.{Bytes}
use libthe_seed.Bounded.Span.{ByteSpan, IsPart}
use libthe_seed.Bounded.Text.{IsTextAt, IsTextAt-part}
use libthe_seed.MachO.Defs.{LoadCommandEntry, SegmentLayout, CodeSignatureLayout}
use libthe_seed.MachO.Commands.{text_name, segment_content, note_problem}

-- One command behind the other from `at` to `end`, each at least 8 bytes, in steps of 4.
abbrev pub Tiles : ℕ → List LoadCommandEntry → ℕ → Type 0
Tiles at [] end = at ≡ end
Tiles at (c ∷ rest) end =
    (c.offset ≡ at) × (8 ≤ c.cmdsize) × (c.cmdsize % 4 ≡ 0) × Tiles (at + c.cmdsize) rest end

pub Tiles-append :
    (at end : ℕ) (cs : List LoadCommandEntry) (c : LoadCommandEntry)
    → Tiles at cs end
    → c.offset ≡ end
    → 8 ≤ c.cmdsize
    → c.cmdsize % 4 ≡ 0
    → Tiles at (cs ++ c ∷ []) (end + c.cmdsize)
Tiles-append at end [] c h place long even = (place ∙ sym h, long, even, omega (arith, h))
Tiles-append at end (d ∷ rest) c (place', long', even', h) place long even =
    (place', long', even', Tiles-append (at + d.cmdsize) end rest c h place long even)

-- The file data of a segment lies inside the slice.
abbrev pub SegmentFits : ℕ → SegmentLayout → Type 0
SegmentFits size segment = segment.fileoff + segment.filesize ≤ size

-- The data of a segment other than __TEXT does not start in front of the first content.
abbrev pub IsBehind : ℕ → SegmentLayout → Type 0
IsBehind first_content segment =
    segment.name ≢ text_name
    → 0 < segment.filesize
    → 0 < segment.fileoff
    → first_content ≤ segment.fileoff

-- The signature lies inside the slice, and not inside the load commands.
abbrev pub SignatureFits : ℕ → ℕ → Option CodeSignatureLayout → Type 0
SignatureFits size header_end none = Unit
SignatureFits size header_end (some sig) =
    (sig.dataoff + sig.datasize ≤ size) × (0 < sig.datasize → header_end ≤ sig.dataoff)

-- A text of the view, whatever its limit.
abbrev pub Stands : ByteSpan → Bytes → Type 0
Stands s name = (offset : ℕ) × (limit : ℕ) × IsTextAt s offset limit name

abbrev pub Distinct : List Bytes → Type 0
Distinct [] = Unit
Distinct (name ∷ rest) = All (λ other. name ≢ other) rest × Distinct rest

pub Stands-part :
    {s t : ByteSpan} {offset count : ℕ}
    → IsPart s offset count t
    → (name : Bytes) → Stands t name
    → Stands s name
Stands-part {s} {t} {offset} p name (place, limit, text) =
    (offset + place, limit, IsTextAt-part p place limit text)

Distinct-append :
    (names : List Bytes) (name : Bytes)
    → All (λ other. other ≢ name) names
    → Distinct names
    → Distinct (names ++ name ∷ [])
Distinct-append [] name new h = (tt, tt)
Distinct-append (other ∷ rest) name new h = (
  All-append (λ x. other ≢ x) rest (name ∷ []) h.0 (new.0, tt),
  Distinct-append rest name new.1 h.1,
)

differs : (name other : Bytes) → same_name name other ≡ false → other ≢ name
differs name other distinct same =
    absurd (ground (arith, ap (same_name name) same, distinct, same_name_refl name))

-- A name is put in once.
pub Distinct-add :
    (names : List Bytes) (name : Bytes)
    → Distinct names
    → Distinct (if any (same_name name) names then names else names ++ name ∷ [])
Distinct-add names name h = elim (Bool-cases (any (same_name name) names)) [
  | inl known ↦ rw known h
  | inr new ↦ rw new (
      Distinct-append names name
        (All-mono (λ x. same_name name x ≡ false) names (differs name)
          (any-eq_false (same_name name) names new))
        h)
]

pub All-add :
    (P : Bytes → Type 0) (names : List Bytes) (name : Bytes)
    → P name
    → All P names
    → All P (if any (same_name name) names then names else names ++ name ∷ [])
All-add P names name p h = elim (Bool-cases (any (same_name name) names)) [
  | inl known ↦ rw known h
  | inr new ↦ rw new (All-append P names (name ∷ []) h (p, tt))
]

pub segment_content-le :
    (segment : SegmentLayout) (first : ℕ) → segment_content segment first ≤ first
segment_content-le segment first = ground arith

pub segment_content-IsBehind :
    (segment : SegmentLayout) (first : ℕ) → IsBehind (segment_content segment first) segment
segment_content-IsBehind segment first other filled placed =
    elim (Bool-cases (same_name segment.name text_name)) [
      | inl same ↦ absurd (other (same_name_eq segment.name text_name same))
      | inr differs ↦ ground arith
    ]

-- When no problem is noted, there was none before and the segment fits.
pub note_problem-none :
    (size index : ℕ) (segment : SegmentLayout) (problem : Option _)
    → note_problem size index segment problem ≡ none
    → (problem ≡ none) × SegmentFits size segment
note_problem-none size index segment (some problem) h = absurd (cc)
note_problem-none size index segment none h =
    elim (Bool-cases (range_fits segment.fileoff segment.filesize size)) [
      | inl fits ↦ (refl, (range_fits_iff segment.fileoff segment.filesize size).0 fits)
      | inr out ↦ absurd (ground arith)
    ]
