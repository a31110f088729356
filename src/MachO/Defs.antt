-- ===== src/MachO/Defs.antt =====
-- The data of src/internal/MachOLayout.hpp and the classification of the first four bytes.
use libthe_seed.Prelude.{
  ℕ, zero, suc, ◌+◌, ◌*◌, ◌%◌, ◌^◌, String, Bool, true, false, List, Option, ltb, ◌==◌, ◌-◌,
  if◌then◌else◌, Outcome, ok, ◌>>=◌,
}
use libthe_seed.Bounded.Order.{little, bytes1, Bytes}
use libthe_seed.Bounded.Span.{ByteSpan, read}

abbrev pub macho_format : String
macho_format = "Mach-O"

pub data MachoKind : Type 0 where
  thin64_little thin32_little thin64_big thin32_big fat32 fat64 unknown : MachoKind

pub data SliceSupport : Type 0 where
  supported big_endian thirty_two_bit thirty_two_bit_big_endian : SliceSupport

pub record LoadCommandEntry : Type 0 where
  pub offset : ℕ
  pub cmd : ℕ
  pub cmdsize : ℕ

pub record SegmentLayout : Type 0 where
  pub command_offset : ℕ
  pub name : Bytes
  pub vmaddr : ℕ
  pub vmsize : ℕ
  pub fileoff : ℕ
  pub filesize : ℕ

pub record CodeSignatureLayout : Type 0 where
  pub command_offset : ℕ
  pub dataoff : ℕ
  pub datasize : ℕ

pub record SliceLayout : Type 0 where
  pub base : ℕ
  pub size : ℕ
  pub support : SliceSupport
  pub cputype : ℕ
  pub cpusubtype : ℕ
  pub filetype : ℕ
  pub ncmds : ℕ
  pub sizeofcmds : ℕ
  pub header_end : ℕ
  pub commands : List LoadCommandEntry
  pub segments : List SegmentLayout
  pub text : Option SegmentLayout
  pub linkedit : Option SegmentLayout
  pub first_content : ℕ
  pub codesig : Option CodeSignatureLayout
  pub dylibs : List Bytes

unfoldable pub free_header_space : SliceLayout → ℕ
free_header_space layout =
    if ltb layout.header_end layout.first_content
    then layout.first_content - layout.header_end
    else 0

abbrev pub is_thin : MachoKind → Bool
is_thin thin64_little = true
is_thin thin32_little = true
is_thin thin64_big = true
is_thin thin32_big = true
is_thin _ = false

abbrev pub support_for : MachoKind → SliceSupport
support_for thin64_little = supported
support_for thin32_little = thirty_two_bit
support_for thin64_big = big_endian
support_for _ = thirty_two_bit_big_endian

-- The first four bytes as one number, the first the most significant. `(bytes << 8) | b` is a
-- sum, since the low eight bits are clear.
unfoldable pub magic_bytes : ByteSpan → ℕ → ℕ → ℕ → Outcome ℕ
magic_bytes file i zero bytes = ok bytes
magic_bytes file i (suc left) bytes = read bytes1 file i little "Mach-O magic" >>= λ b.
    magic_bytes file (i + 1) left (bytes * 2 ^ 8 % 2 ^ 32 + b)

unfoldable pub kind_of_magic : ℕ → MachoKind
kind_of_magic bytes =
    if bytes == 0xcffaedfe
    then thin64_little
    else if bytes == 0xcefaedfe
    then thin32_little
    else if bytes == 0xfeedfacf
    then thin64_big
    else if bytes == 0xfeedface
    then thin32_big
    else if bytes == 0xcafebabe
    then fat32
    else if bytes == 0xcafebabf
    then fat64
    else unknown

unfoldable pub classify_macho_magic : ByteSpan → Outcome MachoKind
classify_macho_magic file =
    if ltb file.size 4
    then ok unknown
    else magic_bytes file 0 4 0 >>= λ bytes. ok (kind_of_magic bytes)
