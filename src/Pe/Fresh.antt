-- ===== src/Pe/Fresh.antt =====
-- The delay-load names that the PE listing adds.
use libthe_seed.Prelude.{
  ℕ, ◌+◌, ◌%◌, ◌≡◌, ◌≢◌, refl, ap, List, [], ◌∷◌, ◌++◌, length, any, same_name, same_name_refl,
  any-eq_false, ltb, All, All-mono, Bool-cases, arith, inl, inr, false, Returns, value,
  Returns-bind, Returns-mono, Returns-reject_if,
}
use libthe_seed.Bounded.Range.{u64_mod}
use libthe_seed.Bounded.Order.{Bytes}
use libthe_seed.Bounded.Span.{ByteSpan, IsValid}
use libthe_seed.Bounded.Text.{c_string-Returns}
use libthe_seed.Pe.Headers.{SectionHeader}
use libthe_seed.Pe.Names.{max_name_length, lower_ascii, delay_names}
use libthe_seed.Pe.Safety.{rva_to_offset-Returns}

-- In lower case, no name is in `seen` or repeats an earlier one.
abbrev pub Fresh : List Bytes → List Bytes → Type 0
Fresh seen [] = Unit
Fresh seen (name ∷ rest) =
    All (λ s. lower_ascii name ≢ s) seen × Fresh (lower_ascii name ∷ seen) rest

-- `names` is `before` with fresh names behind it.
abbrev pub Extends : List Bytes → List Bytes → List Bytes → Type 0
Extends seen before names = (added : List Bytes) × (names ≡ before ++ added) × Fresh seen added

append_nil : (xs : List Bytes) → xs ≡ xs ++ []
append_nil [] = refl
append_nil (x ∷ xs) = ap (◌∷◌ x) (append_nil xs)

append_middle : (xs ys : List Bytes) (y : Bytes) → (xs ++ y ∷ []) ++ ys ≡ xs ++ y ∷ ys
append_middle [] ys y = refl
append_middle (x ∷ xs) ys y = ap (◌∷◌ x) (append_middle xs ys y)

differs : (a b : Bytes) → same_name a b ≡ false → a ≢ b
differs a b other same = absurd (ground (arith, ap (same_name a) same, other, same_name_refl a))

Extends-new :
    (seen before names : List Bytes) (name : Bytes)
    → any (same_name (lower_ascii name)) seen ≡ false
    → Extends (lower_ascii name ∷ seen) (before ++ name ∷ []) names
    → Extends seen before names
Extends-new seen before names name new (added, same, fresh) = (
  name ∷ added,
  rw same (append_middle before added name),
  (
    All-mono (λ s. same_name (lower_ascii name) s ≡ false) seen (differs (lower_ascii name))
        (any-eq_false (same_name (lower_ascii name)) seen new),
    fresh,
  ),
)

-- For a view of a file, the second loop over the names ends without touching memory outside it,
-- and returns the names it is given, followed by names that differ, in lower case, from
-- everything in `seen` and from each other.
pub delay_names-Extends :
    {file : ByteSpan}
    → IsValid file
    → (sections : List SectionHeader) (size_of_headers total : ℕ) (seen before : List Bytes)
      (rvas : List ℕ)
    → Returns
        (Extends seen before)
        (delay_names file sections size_of_headers total seen before rvas)
unfolding delay_names
delay_names-Extends v sections size_of_headers total seen before [] =
    value ([], append_nil before, tt)
delay_names-Extends {file} v sections size_of_headers total seen before (rva ∷ rest) =
    Returns-bind _
      (rva_to_offset-Returns rva sections size_of_headers file.size "delay-load library name")
      λ offset _.
        Returns-bind _ (c_string-Returns v offset max_name_length "delay-load library name")
          λ name _. Returns-reject_if (ltb file.size ((total + length name) % u64_mod)) _ _ _ λ _.
            elim (Bool-cases (any (same_name (lower_ascii name)) seen)) [
              | inl known ↦ rw known (
                  delay_names-Extends v sections size_of_headers ((total + length name) % u64_mod)
                    seen before rest)
              | inr new ↦ rw new (
                  Returns-mono _ (λ names r. Extends-new seen before names name new r)
                    (delay_names-Extends v sections size_of_headers
                      ((total + length name) % u64_mod) (lower_ascii name ∷ seen)
                      (before ++ name ∷ []) rest))
            ]
