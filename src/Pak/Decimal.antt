-- ===== src/Pak/Decimal.antt =====
-- HeaderSizeRead of src/internal/PakIndex.cpp, from the text of "headerSize" on.
use libthe_seed.Prelude.{
  ℕ, ◌+◌, ◌-◌, ◌*◌, ◌/◌, ◌%◌, ◌≤◌, ◌<◌, ◌≡◌, Bool, true, ◌&&◌, ◌||◌, not, [], ◌∷◌, inl, inr, arith,
  leb, ltb, ◌==◌, if◌then◌else◌, length, Bool-cases,
}
use libthe_seed.Bounded.Range.{u64_mod, uint64_max}
use libthe_seed.Bounded.Order.{Bytes}
use libthe_seed.Pak.File.{
  PakResult, ok, err, Gives, given, refusal, damaged, header_size_not_digits,
  header_size_out_of_range,
}

abbrev pub is_digit : ℕ → Bool
is_digit c = leb b'0' c && leb c b'9'

-- std::all_of over the text
unfoldable pub all_digits : Bytes → Bool
all_digits [] = true
all_digits (c ∷ cs) = is_digit c && all_digits cs

-- The loop, on the value so far.
unfoldable pub digits_value : ℕ → Bytes → PakResult ℕ
digits_value value [] = ok value
digits_value value (c ∷ cs) =
    let digit = c - b'0' in
    let rest = digits_value ((value * 10 + digit) % u64_mod) cs in
    if ltb ((uint64_max - digit) / 10) value then err (damaged header_size_out_of_range) else rest

unfoldable pub header_size_text : Bytes → PakResult ℕ
header_size_text text =
    if length text == 0 || ltb 20 (length text) || not (all_digits text)
    then err (damaged header_size_not_digits)
    else digits_value 0 text

-- The number that decimal digits stand for, behind `value`.
abbrev pub decimal_onto : ℕ → Bytes → ℕ
decimal_onto value [] = value
decimal_onto value (c ∷ cs) = decimal_onto (value * 10 + (c - b'0')) cs

decimal_onto-le : (value : ℕ) (cs : Bytes) → value ≤ decimal_onto value cs
decimal_onto-le value [] = omega arith
decimal_onto-le value (c ∷ cs) = omega (arith, decimal_onto-le (value * 10 + (c - b'0')) cs)

digits_value-exact :
    (value : ℕ) (cs : Bytes)
    → value < u64_mod
    → all_digits cs ≡ true
    → digits_value value cs ≡ (
        if ltb (decimal_onto value cs) u64_mod
        then ok (decimal_onto value cs)
        else err (damaged header_size_out_of_range))
unfolding digits_value all_digits
digits_value-exact value [] lt h = ground arith
digits_value-exact value (c ∷ cs) lt h =
    elim (Bool-cases (ltb ((uint64_max - (c - b'0')) / 10) value)) [
      | inl over ↦ ground (arith, decimal_onto-le (value * 10 + (c - b'0')) cs)
      | inr fits ↦
          let small : value * 10 + (c - b'0') < u64_mod = ground arith in
          let same : (value * 10 + (c - b'0')) % u64_mod ≡ value * 10 + (c - b'0') = omega arith in
          rw (fits, same) (digits_value-exact (value * 10 + (c - b'0')) cs small (ground arith))
    ]

-- A text of at most 20 digits gives the number it stands for, or is out of range exactly
-- when that has no 64-bit value; any other text is refused.
pub header_size_text-exact :
    (text : Bytes)
    → header_size_text text ≡ (
        if length text == 0 || ltb 20 (length text) || not (all_digits text)
        then err (damaged header_size_not_digits)
        else if ltb (decimal_onto 0 text) u64_mod
        then ok (decimal_onto 0 text)
        else err (damaged header_size_out_of_range))
unfolding header_size_text
header_size_text-exact text =
    elim (Bool-cases (length text == 0 || ltb 20 (length text) || not (all_digits text))) [
      | inl bad ↦ rw bad
      | inr good ↦ rw good (digits_value-exact 0 text (omega arith) (ground arith))
    ]

pub header_size_text-lt : (text : Bytes) → Gives (λ n. n < u64_mod) (header_size_text text)
header_size_text-lt text = rw (header_size_text-exact text) (cases text)
  where
    cases :
        (t : Bytes)
        → Gives
            (λ n. n < u64_mod)
            (if length t == 0 || ltb 20 (length t) || not (all_digits t)
              then err (damaged header_size_not_digits)
              else if ltb (decimal_onto 0 t) u64_mod
              then ok (decimal_onto 0 t)
              else err (damaged header_size_out_of_range))
    cases t = elim (Bool-cases (length t == 0 || ltb 20 (length t) || not (all_digits t))) [
      | inl bad ↦ rw bad refusal
      | inr good ↦ rw good (elim (Bool-cases (ltb (decimal_onto 0 t) u64_mod)) [
        | inl fits ↦ rw fits (given (ground arith))
        | inr over ↦ rw over refusal
      ])
    ]
