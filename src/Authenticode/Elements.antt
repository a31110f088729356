-- ===== src/Authenticode/Elements.antt =====
-- ReadElement and Child of src/internal/AuthenticodeDigestField.cpp. An offset that is read at lies in
-- its view, so no sum of offsets wraps around.
use libthe_seed.Prelude.{
  ℕ, zero, suc, ◌+◌, ◌*◌, ◌%◌, ◌^◌, String, not, ◌||◌, [], ◌∷◌, ◌==◌, ltb, if◌then◌else◌, Outcome,
  ok, ◌>>=◌, ◌>>◌, reject_if, said,
}
use libthe_seed.Bounded.Range.{u64_mod}
use libthe_seed.Bounded.Order.{big, bytes1}
use libthe_seed.Bounded.Span.{ByteSpan, read, sub}

abbrev pub signature_format : String
signature_format = "signature"

abbrev pub max_skipped_siblings : ℕ
max_skipped_siblings = 16

abbrev pub max_length_bytes : ℕ
max_length_bytes = 4

pub record Element : Type 0 where
  pub tag : ℕ
  pub content : ByteSpan
  pub total : ℕ

-- The loop over the bytes of a long length.
unfoldable pub length_bytes : ByteSpan → ℕ → ℕ → ℕ → ℕ → Outcome ℕ
length_bytes parent offset i zero length = ok length
length_bytes parent offset i (suc left) length =
    read bytes1 parent (offset + 2 + i) big "length byte" >>= λ byte.
    length_bytes parent offset (suc i) left ((length * 2 ^ 8) % u64_mod + byte)

-- The length of the content and that of the header.
unfoldable pub element_length : ByteSpan → ℕ → ℕ → Outcome (ℕ × ℕ)
element_length parent offset length =
    if ltb length 0x80
    then ok (length, 2)
    else (let count = length % 128 in
        reject_if (count == 0 || ltb max_length_bytes count) signature_format
          (said "length is indefinite or too long" ((offset + 1) ∷ []))
        >> (length_bytes parent offset 0 count 0 >>= λ long. ok (long, 2 + count)))

unfoldable pub read_element : ByteSpan → ℕ → Outcome Element
read_element parent offset = read bytes1 parent offset big "tag" >>= λ tag.
    reject_if (tag % 32 == 31) signature_format (said "tag uses the long form" (offset ∷ []))
    >> (read bytes1 parent (offset + 1) big "length" >>= λ length.
        element_length parent offset length >>= λ (count, header).
        sub parent (offset + header) count "element" >>= λ content.
        ok (record { tag = tag; content = content; total = header + count }))

-- The loop over the siblings in front.
unfoldable pub skip_children : ByteSpan → ℕ → ℕ → Outcome ℕ
skip_children content zero offset = ok offset
skip_children content (suc n) offset =
    read_element content offset >>= λ sibling. skip_children content n (offset + sibling.total)

unfoldable pub child : Element → ℕ → ℕ → String → Outcome Element
child parent n tag what =
    reject_if (ltb max_skipped_siblings n) signature_format (said what [])
    >> (skip_children parent.content n 0 >>= λ offset.
        read_element parent.content offset >>= λ found.
        reject_if (not (found.tag == tag)) signature_format (said what (found.tag ∷ tag ∷ []))
        >> ok found)
