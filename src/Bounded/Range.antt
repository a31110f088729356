-- ===== src/Bounded/Range.antt =====
-- RangeFits, CheckedAdd, CheckedMultiply and ToSize of src/internal/BoundedBytes.hpp.
-- A std::uint64_t is a number below 2 ^ 64; SIZE_MAX is UINT64_MAX on the 64-bit hosts.
use native.Mathlib.Nat.{div-lt_iff_lt-mul}
use libthe_seed.Prelude.{
  ℕ, zero, suc, refl, ◌+◌, ◌-◌, ◌*◌, ◌/◌, ◌%◌, ◌^◌, ◌≤◌, ◌<◌, ◌≡◌, ◌⊎◌, ◌↔◌, inl, inr, String, Bool,
  true, not, ◌&&◌, arith, ltb, leb, ◌==◌, if◌then◌else◌, Outcome, ok, throw_malformed, overflows,
  Bool-cases, Returns, value, refusal,
}

abbrev pub u64_mod : ℕ
u64_mod = 2 ^ 64

abbrev pub uint64_max : ℕ
uint64_max = 2 ^ 64 - 1

-- `offset <= size && length <= size - offset`
unfoldable pub range_fits : ℕ → ℕ → ℕ → Bool
range_fits offset length size = leb offset size && leb length (size - offset)

unfoldable pub checked_add : ℕ → ℕ → String → String → Outcome ℕ
checked_add a b format what =
    if ltb (uint64_max - b) a
    then throw_malformed format (overflows what)
    else ok ((a + b) % u64_mod)

unfoldable pub checked_multiply : ℕ → ℕ → String → String → Outcome ℕ
checked_multiply a b format what =
    if not (a == 0) && ltb (uint64_max / a) b
    then throw_malformed format (overflows what)
    else ok (a * b % u64_mod)

-- The range test is the exact one on unbounded numbers, so it does not overflow.
pub range_fits_iff :
    (offset length size : ℕ) → (range_fits offset length size ≡ true) ↔ (offset + length ≤ size)
unfolding range_fits
range_fits_iff offset length size = ground arith

nonzero_cases : (a : ℕ) → (a ≡ 0) ⊎ (0 < a)
nonzero_cases zero = inl refl
nonzero_cases (suc a) = inr (omega arith)

module _ (a b : ℕ) (format what : String) where
  -- CheckedAdd gives the true sum, or refuses exactly when it has no 64-bit value.
  pub checked_add-exact :
      a < u64_mod
      → b < u64_mod
      → checked_add a b format what
        ≡ (if ltb (a + b) u64_mod then ok (a + b) else throw_malformed format (overflows what))
  unfolding checked_add
  checked_add-exact ha hb = ground arith

  -- CheckedMultiply gives the true product, or refuses exactly when it has no 64-bit value.
  pub checked_multiply-exact :
      a < u64_mod
      → b < u64_mod
      → checked_multiply a b format what
        ≡ (if ltb (a * b) u64_mod then ok (a * b) else throw_malformed format (overflows what))
  unfolding checked_multiply
  checked_multiply-exact ha hb = elim (nonzero_cases a) [
    | inl z ↦ rw z (ground arith)
    | inr p ↦ ground (
      arith,
      (div-lt_iff_lt-mul {k = a} {x = uint64_max} {y = b} p).0,
      (div-lt_iff_lt-mul {k = a} {x = uint64_max} {y = b} p).1,
    )
  ]

  pub checked_add-Returns : Returns (λ n. n < u64_mod) (checked_add a b format what)
  unfolding checked_add
  checked_add-Returns = elim (Bool-cases (ltb (uint64_max - b) a)) [
    | inl over ↦ rw over refusal
    | inr fits ↦ rw fits (value (omega arith))
  ]

  pub checked_multiply-Returns : Returns (λ n. n < u64_mod) (checked_multiply a b format what)
  unfolding checked_multiply
  checked_multiply-Returns = elim (Bool-cases (not (a == 0) && ltb (uint64_max / a) b)) [
    | inl over ↦ rw over refusal
    | inr fits ↦ rw fits (value (omega arith))
  ]

-- A sum that is returned is the true one.
pub checked_add-ok :
    (a b c : ℕ) (format what : String)
    → a < u64_mod
    → b < u64_mod
    → checked_add a b format what ≡ ok c
    → (c ≡ a + b) × (c < u64_mod)
checked_add-ok a b c format what ha hb h = elim (Bool-cases (ltb (a + b) u64_mod)) [
  | inl fits ↦
      let same : ok (a + b) ≡ ok c = ground (arith, checked_add-exact a b format what ha hb) in
      (ground arith, ground arith)
  | inr over ↦ absurd (ground (arith, checked_add-exact a b format what ha hb))
]
