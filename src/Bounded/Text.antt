-- ===== src/Bounded/Text.antt =====
-- ByteSpan::CString of src/internal/BoundedBytes.hpp on a buffer in memory, which is
-- scanned in one step.
use mathlib.Core.List.{append_assoc}
use libthe_seed.Prelude.{
  length-append, take-append-drop, ℕ, zero, suc, ◌+◌, ◌-◌, ◌≤◌, ◌<◌, ◌≡◌, ◌≢◌, refl, ap, sym, ◌∙◌,
  String, false, [], ◌∷◌, ◌++◌, inl, inr, Option, none, some, min, arith, leb, ltb, ◌==◌, ◌&&◌,
  if◌then◌else◌, length, take, drop, All, Bool-cases, Option-cases, Outcome, ok, ◌>>=◌,
  throw_malformed, Returns, value, refusal, text_outside, text_too_long, text_unterminated,
}
use libthe_seed.Bounded.Order.{Bytes}
use libthe_seed.Bounded.Span.{ByteSpan, IsValid, IsPart, at, at_lem, content, length-content}

push : ℕ → Option Bytes → Option Bytes
push b none = none
push b (some t) = some (b ∷ t)

-- The scan for a NUL: the bytes before it.
before_nul : Bytes → Option Bytes
unfolding push
before_nul [] = none
before_nul (b ∷ bs) = let rest = before_nul bs in if b == 0 then some [] else push b rest

-- After the loop: the text found, or which refusal the scan ends in.
scan_end : ByteSpan → ℕ → ℕ → String → ℕ → Option Bytes → Outcome Bytes
scan_end s offset max_length structure limit (some text) = ok text
scan_end s offset max_length structure limit none =
    if limit == max_length && ltb max_length (s.size - offset)
    then throw_malformed s.format (text_too_long structure offset max_length)
    else throw_malformed s.format (text_unterminated structure offset s.scope s.size)

unfoldable pub c_string : ByteSpan → ℕ → ℕ → String → Outcome Bytes
unfolding before_nul scan_end
c_string s offset max_length structure =
    if leb s.size offset
    then throw_malformed s.format (text_outside structure offset s.scope s.size)
    else let available = s.size - offset in
      let limit = if ltb max_length available then max_length else available in
      at s offset limit >>= λ start. scan_end s offset max_length structure limit (before_nul start)

-- `text` stands at `offset`, ended by a NUL that lies inside the view.
pub record IsTextAt (s : ByteSpan) (offset max_length : ℕ) (text : Bytes) : Type 0 where
  pub rest : Bytes
  pub splits : drop (s.base + offset) s.bytes ≡ text ++ 0 ∷ rest
  pub nul_free : All (λ b. b ≢ 0) text
  pub short : length text < max_length
  pub inside : offset + length text < s.size

-- A text of a part is a text of the whole.
pub IsTextAt-part :
    {s t : ByteSpan} {offset count : ℕ}
    → IsPart s offset count t
    → (place limit : ℕ) {text : Bytes} → IsTextAt t place limit text
    → IsTextAt s (offset + place) limit text
IsTextAt-part {s} {t} {offset} p place limit {text} h = record {
  rest = h.rest;
  splits =
      let start : s.base + (offset + place) ≡ t.base + place = omega (arith, p.base_eq) in
      rw (start, ← p.bytes_eq) h.splits;
  nul_free = h.nul_free;
  short = h.short;
  inside = omega (arith, h.inside, p.size_eq, p.fits);
}

before_nul_found :
    (bs : Bytes) {t : Bytes}
    → before_nul bs ≡ some t
    → (rest : Bytes) × (bs ≡ t ++ 0 ∷ rest) × All (λ b. b ≢ 0) t
unfolding before_nul
before_nul_found [] e = cc
before_nul_found (zero ∷ bs) {t} e = (bs, ground arith, ground arith)
before_nul_found (suc b ∷ bs) {t} e = elim (Option-cases (before_nul bs)) [
  | inl n ↦ absurd (ground arith)
  | inr (t', f) ↦
      let (rest, splits, free) = before_nul_found bs f in
      let shape : t ≡ suc b ∷ t' = ground arith in
      (rest, rw (shape, splits) refl, rw shape ((λ z. cc), free))
]

before_nul_first : (t rest : Bytes) → All (λ b. b ≢ 0) t → before_nul (t ++ 0 ∷ rest) ≡ some t
unfolding before_nul
before_nul_first [] rest h = refl
before_nul_first (zero ∷ t) rest h = absurd (h.0 refl)
before_nul_first (suc b ∷ t) rest h = rw (before_nul_first t rest h.1) (ground arith)

take_past :
    (t rest : Bytes) (n : ℕ)
    → length t < n
    → take n (t ++ 0 ∷ rest) ≡ t ++ 0 ∷ take (n - length t - 1) rest
take_past t rest zero h = absurd (omega arith)
take_past [] rest (suc n) h = ap (λ k. 0 ∷ take k rest) (omega arith)
take_past (b ∷ t) rest (suc n) h =
    ap (◌∷◌ b) (take_past t rest n (omega arith) ∙ ap (λ k. t ++ 0 ∷ take k rest) (omega arith))

-- How far the scan goes.
abbrev limit_of : ℕ → ℕ → ℕ
limit_of max_length available = if ltb max_length available then max_length else available

limit_of-min : (m a : ℕ) → limit_of m a ≡ min m a
limit_of-min m a = ground arith

append_longer : (t rest : Bytes) → length t < length (t ++ 0 ∷ rest)
append_longer t rest = omega (arith, length-append t (0 ∷ rest))

module _ {s : ByteSpan} (v : IsValid s) (offset max_length : ℕ) where
  abbrev limit : ℕ
  limit = limit_of max_length (s.size - offset)

  found_is_text :
      offset < s.size
      → (t : Bytes) → before_nul (content s offset limit) ≡ some t
      → IsTextAt s offset max_length t
  found_is_text lt t e =
      let (rest, splits, free) = before_nul_found (content s offset limit) e in
      let behind = drop limit (drop (s.base + offset) s.bytes) in
      let room : offset + limit ≤ s.size =
        omega (arith, limit_of-min max_length (s.size - offset)) in
      let longer : length t < limit =
        omega (arith, ap length splits, append_longer t rest, length-content v offset limit room) in
      record {
        rest = rest ++ behind;
        splits =
            sym (take-append-drop limit (drop (s.base + offset) s.bytes))
            ∙ ap (λ x. x ++ behind) splits
            ∙ append_assoc t (0 ∷ rest) behind;
        nul_free = free;
        short = omega (arith, limit_of-min max_length (s.size - offset), longer);
        inside = omega (arith, room, longer);
      }

  scan_end-none :
      (structure : String)
      → Returns (IsTextAt s offset max_length) (scan_end s offset max_length structure limit none)
  unfolding scan_end
  scan_end-none structure =
      elim (Bool-cases (limit == max_length && ltb max_length (s.size - offset))) [
        | inl long ↦ rw long refusal
        | inr open_end ↦ rw open_end refusal
      ]

  -- CString reads nothing outside the view, and what it returns is the text at the offset.
  pub c_string-Returns :
      (structure : String)
      → Returns (IsTextAt s offset max_length) (c_string s offset max_length structure)
  unfolding c_string
  c_string-Returns structure = elim (Bool-cases (leb s.size offset)) [
    | inl out ↦ rw out refusal
    | inr inside ↦
        let lt : offset < s.size = ground arith in
        let room : offset + limit ≤ s.size =
          omega (arith, limit_of-min max_length (s.size - offset)) in
        rw (inside, at_lem v offset limit room)
          (elim (Option-cases (before_nul (content s offset limit))) [
            | inl none_found ↦ rw none_found (scan_end-none structure)
            | inr (t, found) ↦ rw found (value (found_is_text lt t found))
          ])
  ]

  -- Every text that stands at the offset is found.
  pub c_string_complete :
      (structure : String) (text : Bytes)
      → IsTextAt s offset max_length text
      → c_string s offset max_length structure ≡ ok text
  unfolding c_string
  c_string_complete structure text h =
      let outside : leb s.size offset ≡ false = ground (arith, h.inside) in
      let room : offset + limit ≤ s.size =
        omega (arith, h.inside, limit_of-min max_length (s.size - offset)) in
      let longer : length text < limit =
        omega (arith, h.inside, h.short, limit_of-min max_length (s.size - offset)) in
      let start : content s offset limit ≡ text ++ 0 ∷ take (limit - length text - 1) h.rest =
        rw h.splits (take_past text h.rest limit longer) in
      rw (outside, at_lem v offset limit room, start, before_nul_first text _ h.nul_free)
