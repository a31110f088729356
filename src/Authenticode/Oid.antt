-- ===== src/Authenticode/Oid.antt =====
-- DecodeOid and OidOf of src/internal/AuthenticodeDigestField.cpp. A dotted text is kept as its numbers.
use libthe_seed.Prelude.{
  ℕ, zero, suc, ◌+◌, ◌-◌, ◌*◌, ◌/◌, ◌%◌, ◌^◌, Bool, true, false, ◌||◌, List, [], ◌∷◌, ◌++◌, ◌==◌,
  leb, ltb, if◌then◌else◌, Outcome, ok, ◌>>=◌, ◌>>◌, reject_if, said,
}
use libthe_seed.Bounded.Range.{u64_mod}
use libthe_seed.Bounded.Order.{big, bytes1}
use libthe_seed.Bounded.Span.{ByteSpan, read}
use libthe_seed.Authenticode.Elements.{Element, signature_format}

abbrev pub max_oid_bytes : ℕ
max_oid_bytes = 32

-- The first value holds two numbers.
unfoldable pub first_arcs : ℕ → List ℕ
first_arcs value =
    let head = if ltb value 80 then value / 40 else 2 in head ∷ (value - head * 40) ∷ []

-- The value that is being read, whether it is the first, and the text.
pub record Decoding : Type 0 where
  pub value : ℕ
  pub first : Bool
  pub text : List ℕ

-- One byte; `is_last` says whether it is the last one.
unfoldable pub oid_byte : Bool → Decoding → ℕ → Outcome Decoding
oid_byte is_last d byte =
    let value = (d.value * 2 ^ 7) % u64_mod + byte % 128 in
    if leb 0x80 byte
    then (reject_if (is_last || ltb (2 ^ 56 - 1) value) signature_format
          (said "object identifier is not well formed" [])
        >> ok (record d { value = value }))
    else ok (record {
      value = 0;
      first = false;
      text = d.text ++ (if d.first then first_arcs value else value ∷ []);
    })

unfoldable pub oid_loop : ByteSpan → ℕ → ℕ → Decoding → Outcome (List ℕ)
oid_loop content zero i d = ok d.text
oid_loop content (suc left) i d = read bytes1 content i big "object identifier" >>= λ byte.
    oid_byte (suc i == content.size) d byte >>= λ d'. oid_loop content left (suc i) d'

unfoldable pub decode_oid : ByteSpan → Outcome (List ℕ)
decode_oid content =
    reject_if (content.size == 0 || ltb max_oid_bytes content.size) signature_format
      (said "object identifier has that many bytes" (content.size ∷ []))
    >> oid_loop content content.size 0 (record { value = 0; first = true; text = [] })

abbrev pub oid_of : Element → Outcome (List ℕ)
oid_of element = decode_oid element.content
