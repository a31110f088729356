-- ===== src/Authenticode/Tests.antt =====
-- A signature with a digest of four bytes.
use libthe_seed.Prelude.{◌≡◌, refl, [], ◌∷◌, true, none, ok, Succeeds, arith, same_name}
use libthe_seed.Bounded.Range.{range_fits}
use libthe_seed.Bounded.Order.{Bytes, byte_swap_if_needed, byte_swap}
use libthe_seed.Bounded.Span.{whole, memory, read_on, read, sub}
use libthe_seed.Authenticode.Elements.{
  length_bytes, element_length, read_element, skip_children, child,
}
use libthe_seed.Authenticode.Oid.{first_arcs, oid_byte, oid_loop, decode_oid}
use libthe_seed.Authenticode.Field.{
  signed_content, digest_info, digest_of, read_authenticode_digest_field,
}
use libthe_seed.Authenticode.Safety.{IsFieldOf, read_authenticode_digest_field-Succeeds}
use libthe_seed.Authenticode.Digits.{encode_oid, decode-encode_oid}

abbrev blob : Bytes
blob =
    48 ∷ 61 ∷ 6 ∷ 9 ∷ 42 ∷ 134 ∷ 72 ∷ 134 ∷ 247 ∷ 13 ∷ 1 ∷ 7 ∷ 2 ∷ 160 ∷ 48 ∷ 48 ∷ 46 ∷ 2 ∷ 1 ∷ 1
    ∷ 49 ∷ 0 ∷ 48 ∷ 39 ∷ 6 ∷ 10 ∷ 43 ∷ 6 ∷ 1 ∷ 4 ∷ 1 ∷ 130 ∷ 55 ∷ 2 ∷ 1 ∷ 4 ∷ 160 ∷ 25 ∷ 48 ∷ 23
    ∷ 48 ∷ 0 ∷ 48 ∷ 19 ∷ 48 ∷ 11 ∷ 6 ∷ 9 ∷ 96 ∷ 134 ∷ 72 ∷ 1 ∷ 101 ∷ 3 ∷ 4 ∷ 2 ∷ 1 ∷ 4 ∷ 4 ∷ 1 ∷ 2
    ∷ 3 ∷ 4 ∷ []

read_blob :
    read_authenticode_digest_field blob
    ≡ ok (record {
      readable = true;
      algorithm = 2 ∷ 16 ∷ 840 ∷ 1 ∷ 101 ∷ 3 ∷ 4 ∷ 2 ∷ 1 ∷ [];
      digest = 1 ∷ 2 ∷ 3 ∷ 4 ∷ [];
      detail = none;
    })
unfolding read_authenticode_digest_field signed_content digest_info digest_of decode_oid oid_loop
    oid_byte first_arcs child skip_children read_element element_length length_bytes sub read
    read_on memory byte_swap_if_needed byte_swap range_fits same_name
read_blob = refl

read_authenticode_digest_field_example :
    Succeeds (IsFieldOf blob) (read_authenticode_digest_field blob)
read_authenticode_digest_field_example = read_authenticode_digest_field-Succeeds blob (omega arith)

decode-encode_oid_example :
    decode_oid (whole (encode_oid 1 2 (840 ∷ 113549 ∷ 1 ∷ 7 ∷ 2 ∷ [])) "signature" "the file")
    ≡ ok (1 ∷ 2 ∷ 840 ∷ 113549 ∷ 1 ∷ 7 ∷ 2 ∷ [])
decode-encode_oid_example =
    decode-encode_oid 1 2 (840 ∷ 113549 ∷ 1 ∷ 7 ∷ 2 ∷ []) "signature" "the file"
      (omega arith, λ small. omega arith) (omega arith) (omega arith) (omega arith)
