-- ===== src/Authenticode/Safety.antt =====
-- The walk stays inside the blob, and what it reports is a part of it.
use libthe_seed.Prelude.{
  ℕ, zero, suc, ◌+◌, ◌-◌, ◌*◌, ◌%◌, ◌^◌, ◌≡◌, ◌≤◌, ◌⊎◌, refl, ◌∙◌, inl, inr, String, Bool, true,
  false, not, ◌||◌, List, [], ◌∷◌, ◌==◌, leb, ltb, length, take, drop, All, same_name, arith,
  Outcome, Returns, value, refusal, Returns-bind, Returns-reject_if, Returns-if, Succeeds,
  Succeeds-ok,
}
use libthe_seed.Bounded.Range.{u64_mod}
use libthe_seed.Bounded.Order.{Bytes, IsByte, big, bytes1}
use libthe_seed.Bounded.Span.{
  ByteSpan, IsValid, whole-IsValid, at, at_lem, length-content, read-Returns, sub-Returns,
}
use libthe_seed.Authenticode.Elements.{
  max_length_bytes, max_skipped_siblings, Element, length_bytes, element_length, read_element,
  skip_children, child,
}
use libthe_seed.Authenticode.Oid.{max_oid_bytes, Decoding, oid_byte, oid_loop, decode_oid}
use libthe_seed.Authenticode.Field.{
  tag_sequence, AuthenticodeDigestField, signed_content, digest_info, digest_of, field_of,
  read_authenticode_digest_field,
}

-- A view that lies inside the blob.
abbrev pub IsView : Bytes → ByteSpan → Type 0
IsView blob s = IsValid s × (s.bytes ≡ blob)

abbrev pub IsElementOf : Bytes → Element → Type 0
IsElementOf blob e = IsView blob e.content

length_bytes-Returns :
    {s : ByteSpan}
    → IsValid s
    → (offset i left length : ℕ) → Returns (λ _. Unit) (length_bytes s offset i left length)
unfolding length_bytes
length_bytes-Returns v offset i zero length = value tt
length_bytes-Returns v offset i (suc left) length =
    Returns-bind _ (read-Returns v (offset + 2 + i) big bytes1 "length byte")
      λ byte small. length_bytes-Returns v offset (suc i) left _

element_length-Returns :
    {s : ByteSpan}
    → IsValid s
    → (offset length : ℕ) → Returns (λ _. Unit) (element_length s offset length)
unfolding element_length
element_length-Returns v offset length =
    Returns-if (ltb length 0x80) (λ _. value tt)
      λ _.
        Returns-reject_if (length % 128 == 0 || ltb max_length_bytes (length % 128)) _ _ _
          λ _. Returns-bind _ (length_bytes-Returns v offset 0 (length % 128) 0) λ long _. value tt

module _ {blob : Bytes} where
  read_element-Returns :
      {s : ByteSpan}
      → IsView blob s
      → (offset : ℕ) → Returns (IsElementOf blob) (read_element s offset)
  unfolding read_element
  read_element-Returns (v, same) offset =
      Returns-bind _ (read-Returns v offset big bytes1 "tag") λ tag _.
        Returns-reject_if (tag % 32 == 31) _ _ _ λ _.
          Returns-bind _ (read-Returns v (offset + 1) big bytes1 "length") λ length _.
            Returns-bind _ (element_length-Returns v offset length) λ (count, header) _.
              Returns-bind _ (sub-Returns v (offset + header) count "element")
                λ content part. value (part.valid, part.bytes_eq ∙ same)

  skip_children-Returns :
      {s : ByteSpan}
      → IsView blob s
      → (n offset : ℕ) → Returns (λ _. Unit) (skip_children s n offset)
  unfolding skip_children
  skip_children-Returns v zero offset = value tt
  skip_children-Returns v (suc n) offset =
      Returns-bind _ (read_element-Returns v offset)
        λ sibling _. skip_children-Returns v n (offset + sibling.total)

  child-Returns :
      (e : Element)
      → IsElementOf blob e
      → (n tag : ℕ) (what : String) → Returns (IsElementOf blob) (child e n tag what)
  unfolding child
  child-Returns e v n tag what = Returns-reject_if (ltb max_skipped_siblings n) _ _ _ λ _.
      Returns-bind _ (skip_children-Returns v n 0) λ offset _.
        Returns-bind _ (read_element-Returns v offset)
          λ found inside. Returns-reject_if (not (found.tag == tag)) _ _ _ λ _. value inside

oid_byte-Returns :
    (is_last : Bool) (d : Decoding) (byte : ℕ) → Returns (λ _. Unit) (oid_byte is_last d byte)
unfolding oid_byte
oid_byte-Returns is_last d byte =
    Returns-if (leb 0x80 byte)
      (λ _.
        Returns-reject_if (is_last || ltb (2 ^ 56 - 1) ((d.value * 2 ^ 7) % u64_mod + byte % 128)) _
          _ _ λ _. value tt)
      λ _. value tt

oid_loop-Returns :
    {s : ByteSpan}
    → IsValid s
    → (left i : ℕ) (d : Decoding) → Returns (λ _. Unit) (oid_loop s left i d)
unfolding oid_loop
oid_loop-Returns v zero i d = value tt
oid_loop-Returns {s} v (suc left) i d =
    Returns-bind _ (read-Returns v i big bytes1 "object identifier") λ byte _.
      Returns-bind _ (oid_byte-Returns (suc i == s.size) d byte)
        λ d' _. oid_loop-Returns v left (suc i) d'

decode_oid-Returns : {s : ByteSpan} → IsValid s → Returns (λ _. Unit) (decode_oid s)
unfolding decode_oid
decode_oid-Returns {s} v =
    Returns-reject_if (s.size == 0 || ltb max_oid_bytes s.size) _ _ _
      λ _. oid_loop-Returns v s.size 0 _

-- The bytes stand in the blob.
abbrev pub IsPartOf : Bytes → Bytes → Type 0
IsPartOf blob bytes =
    (start : ℕ) × (start + length bytes ≤ length blob)
    × (bytes ≡ take (length bytes) (drop start blob))

module _ {blob : Bytes} where
  signed_content-Returns :
      {s : ByteSpan} → IsView blob s → Returns (IsElementOf blob) (signed_content s)
  unfolding signed_content
  signed_content-Returns v = Returns-bind _ (read_element-Returns v 0) λ content_info h.
      Returns-reject_if (not (content_info.tag == tag_sequence)) _ _ _ λ _.
        Returns-bind _ (child-Returns content_info h 0 _ _) λ content_type t.
          Returns-bind _ (decode_oid-Returns t.0) λ oid _.
            Returns-reject_if (not (same_name oid (1 ∷ 2 ∷ 840 ∷ 113549 ∷ 1 ∷ 7 ∷ 2 ∷ []))) _ _ _
              λ _. Returns-bind _ (child-Returns content_info h 1 _ _) λ signed_data_tag a.
                Returns-bind _ (child-Returns signed_data_tag a 0 _ _) λ signed_data b.
                  Returns-bind _ (child-Returns signed_data b 0 _ _) λ version _.
                    Returns-bind _ (child-Returns signed_data b 1 _ _)
                      λ algorithms _. child-Returns signed_data b 2 _ _

  digest_info-Returns :
      (e : Element) → IsElementOf blob e → Returns (IsElementOf blob) (digest_info e)
  unfolding digest_info
  digest_info-Returns e h = Returns-bind _ (child-Returns e h 0 _ _) λ content_type t.
      Returns-bind _ (decode_oid-Returns t.0) λ oid _.
        Returns-reject_if (not (same_name oid (1 ∷ 3 ∷ 6 ∷ 1 ∷ 4 ∷ 1 ∷ 311 ∷ 2 ∷ 1 ∷ 4 ∷ []))) _ _ _
          λ _. Returns-bind _ (child-Returns e h 1 _ _) λ data_tag a.
            Returns-bind _ (child-Returns data_tag a 0 _ _) λ body b. child-Returns body b 1 _ _

  content-IsPartOf : (s : ByteSpan) → IsView blob s → Returns (IsPartOf blob) (at s 0 s.size)
  content-IsPartOf s (v, same) =
      let size = length-content v 0 s.size (omega arith) in
      rw (at_lem v 0 s.size (omega arith)) (
        value (s.base + 0, (rw (size, ← same) (omega (arith, v.inside))), (rw (size, ← same) refl)))

  digest_of-Returns :
      (e : Element) → IsElementOf blob e → Returns (λ r. IsPartOf blob r.1) (digest_of e)
  unfolding digest_of
  digest_of-Returns e h = Returns-bind _ (child-Returns e h 0 _ _) λ algorithm a.
      Returns-bind _ (child-Returns algorithm a 0 _ _) λ identifier i.
        Returns-bind _ (decode_oid-Returns i.0) λ oid _.
          Returns-bind _ (child-Returns e h 1 _ _)
            λ digest d. Returns-bind _ (content-IsPartOf digest.content d) λ bytes part. value part

-- A digest that was read stands in the blob; an unreadable field holds none.
abbrev pub IsFieldOf : Bytes → AuthenticodeDigestField → Type 0
IsFieldOf blob field =
    ((field.readable ≡ true) × IsPartOf blob field.digest)
    ⊎ ((field.readable ≡ false) × (field.algorithm ≡ []) × (field.digest ≡ []))

field_of-Succeeds :
    {blob : Bytes} {m : Outcome (List ℕ × Bytes)}
    → Returns (λ r. IsPartOf blob r.1) m
    → Succeeds (IsFieldOf blob) (field_of m)
field_of-Succeeds (value {a = r} part) = Succeeds-ok _ (inl (refl, part))
field_of-Succeeds refusal = Succeeds-ok _ (inr (refl, refl, refl))

-- For every blob of bytes, reading the field returns, without an exception and without touching
-- memory outside the blob. A readable field's digest stands in the blob; an unreadable field has no
-- digest and no algorithm.
pub read_authenticode_digest_field-Succeeds :
    (blob : Bytes)
    → All IsByte blob
    → Succeeds (IsFieldOf blob) (read_authenticode_digest_field blob)
unfolding read_authenticode_digest_field
read_authenticode_digest_field-Succeeds blob are = field_of-Succeeds (
    Returns-bind _
      (signed_content-Returns (whole-IsValid blob "signature" "the signature" are, refl))
      λ inner i. Returns-bind _ (digest_info-Returns inner i) λ info d. digest_of-Returns info d)
