-- ===== src/Authenticode/Field.antt =====
-- ReadAuthenticodeDigestField of src/internal/AuthenticodeDigestField.cpp.
use libthe_seed.Prelude.{
  ℕ, Bool, true, false, not, List, [], ◌∷◌, Option, none, some, ◌==◌, same_name, Outcome, ok, err,
  fault, ◌>>=◌, ◌>>◌, reject_if, said, Error,
}
use libthe_seed.Bounded.Order.{Bytes}
use libthe_seed.Bounded.Span.{ByteSpan, whole, at}
use libthe_seed.Authenticode.Elements.{signature_format, Element, read_element, child}
use libthe_seed.Authenticode.Oid.{oid_of}

abbrev pub tag_integer : ℕ
tag_integer = 0x02

abbrev pub tag_octet_string : ℕ
tag_octet_string = 0x04

abbrev pub tag_oid : ℕ
tag_oid = 0x06

abbrev pub tag_sequence : ℕ
tag_sequence = 0x30

abbrev pub tag_set : ℕ
tag_set = 0x31

abbrev pub tag_context0 : ℕ
tag_context0 = 0xa0

-- `detail` is the failure whose text is kept.
pub record AuthenticodeDigestField : Type 0 where
  pub readable : Bool
  pub algorithm : List ℕ
  pub digest : Bytes
  pub detail : Option Error

unfoldable pub is_sha256 : AuthenticodeDigestField → Bool
is_sha256 field = same_name field.algorithm (2 ∷ 16 ∷ 840 ∷ 1 ∷ 101 ∷ 3 ∷ 4 ∷ 2 ∷ 1 ∷ [])

-- From the blob to the signed content.
unfoldable pub signed_content : ByteSpan → Outcome Element
signed_content blob = read_element blob 0 >>= λ content_info.
    reject_if (not (content_info.tag == tag_sequence)) signature_format
      (said "the signature does not start with a sequence" [])
    >> (child content_info 0 tag_oid "content type" >>= λ content_type.
        oid_of content_type >>= λ oid.
        reject_if (not (same_name oid (1 ∷ 2 ∷ 840 ∷ 113549 ∷ 1 ∷ 7 ∷ 2 ∷ []))) signature_format
          (said "the signature is not a signed-data structure" [])
        >> (child content_info 1 tag_context0 "signed data" >>= λ signed_data_tag.
            child signed_data_tag 0 tag_sequence "signed data body" >>= λ signed_data.
            child signed_data 0 tag_integer "signed data version" >>= λ version.
            child signed_data 1 tag_set "digest algorithms" >>= λ algorithms.
            child signed_data 2 tag_sequence "signed content"))

-- From the signed content to the digest information.
unfoldable pub digest_info : Element → Outcome Element
digest_info inner = child inner 0 tag_oid "signed content type" >>= λ content_type.
    oid_of content_type >>= λ oid.
    reject_if (not (same_name oid (1 ∷ 3 ∷ 6 ∷ 1 ∷ 4 ∷ 1 ∷ 311 ∷ 2 ∷ 1 ∷ 4 ∷ []))) signature_format
      (said "the signed content is not an indirect data content" [])
    >> (child inner 1 tag_context0 "indirect data" >>= λ data_tag.
        child data_tag 0 tag_sequence "indirect data body" >>= λ body.
        child body 1 tag_sequence "digest information")

-- The algorithm and the digest.
unfoldable pub digest_of : Element → Outcome (List ℕ × Bytes)
digest_of info = child info 0 tag_sequence "digest algorithm" >>= λ algorithm.
    child algorithm 0 tag_oid "digest algorithm identifier" >>= λ identifier.
    oid_of identifier >>= λ oid. child info 1 tag_octet_string "digest" >>= λ digest.
    at digest.content 0 digest.content.size >>= λ bytes. ok (oid, bytes)

-- The catch of std::runtime_error, which is every failure of the walk.
abbrev pub field_of : Outcome (List ℕ × Bytes) → Outcome AuthenticodeDigestField
field_of (ok (algorithm, digest)) =
    ok (record { readable = true; algorithm = algorithm; digest = digest; detail = none })
field_of (err e) = ok (record { readable = false; algorithm = []; digest = []; detail = some e })
field_of fault = fault

unfoldable pub read_authenticode_digest_field : Bytes → Outcome AuthenticodeDigestField
read_authenticode_digest_field blob = field_of (
    signed_content (whole blob signature_format "the signature") >>= λ inner.
    digest_info inner >>= λ info. digest_of info)
