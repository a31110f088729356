-- ===== src/NameParser/Complete.antt =====
-- Every name with the grammar is accepted.
use libthe_seed.Prelude.{
  ℕ, ◌≡◌, ◌≢◌, refl, sym, ap, ◌∙◌, false, [], ◌∷◌, ◌++◌, arith, All, All-append, find, Lacks,
  any-of_All, find-Lacks, find-append, take-length, drop-length,
}
use libthe_seed.Bounded.Order.{Bytes}
use libthe_seed.NameParser.{
  Name, accepted, is_control, part_check, found, is_absolute, split_name, parse_name,
}
use libthe_seed.NameParser.Grammar.{IsPlain, IsPart, Names, plain, scoped, part_check-IsPart}

-- Neither a control character nor a backslash nor a colon.
abbrev IsAllowed : ℕ → Type 0
IsAllowed c = (is_control c ≡ false) × (c ≢ b'\\') × (c ≢ b':')

IsAllowed-of_plain : (bs : Bytes) → All IsPlain bs → All IsAllowed bs
IsAllowed-of_plain [] h = tt
IsAllowed-of_plain (x ∷ xs) h =
    ((h.0.printable, h.0.not_backslash, h.0.not_colon), IsAllowed-of_plain xs h.1)

no_slash_of_plain : (bs : Bytes) → All IsPlain bs → Lacks b'/' bs
no_slash_of_plain [] h = tt
no_slash_of_plain (x ∷ xs) h = (h.0.not_slash, no_slash_of_plain xs h.1)

no_control_of : (bs : Bytes) → All IsAllowed bs → All (λ c. is_control c ≡ false) bs
no_control_of [] h = tt
no_control_of (x ∷ xs) h = (h.0.0, no_control_of xs h.1)

no_backslash_of : (bs : Bytes) → All IsAllowed bs → Lacks b'\\' bs
no_backslash_of [] h = tt
no_backslash_of (x ∷ xs) h = (h.0.1, no_backslash_of xs h.1)

no_colon_of : (bs : Bytes) → All IsAllowed bs → Lacks b':' bs
no_colon_of [] h = tt
no_colon_of (x ∷ xs) h = (h.0.2, no_colon_of xs h.1)

not_absolute : (part rest : Bytes) → IsPart part → is_absolute (part ++ rest) ≡ false
not_absolute [] rest p = absurd (p.not_empty refl)
not_absolute (a ∷ part) rest p = ground (arith, p.plain.0.not_slash)

-- The first four tests let such a name pass.
tests_pass :
    (text : Bytes)
    → All IsAllowed text
    → is_absolute text ≡ false
    → parse_name text ≡ split_name text (find b'/' text)
unfolding parse_name found
tests_pass text h relative = rw (
  any-of_All is_control text (no_control_of text h),
  find-Lacks b'\\' text (no_backslash_of text h),
  find-Lacks b':' text (no_colon_of text h),
  relative,
)

append_nil : (xs : Bytes) → xs ++ [] ≡ xs
append_nil [] = refl
append_nil (x ∷ xs) = ap (◌∷◌ x) (append_nil xs)

part_ok : (part : Bytes) → IsPart part → part_check part ≡ accepted tt
part_ok part p = part_check-IsPart part p.not_empty p.not_dot p.not_dot_dot

complete_plain :
    (library : Bytes)
    → IsPart library
    → parse_name library ≡ accepted (record { org = []; library = library })
complete_plain library p =
    tests_pass library (IsAllowed-of_plain library p.plain)
      (ap is_absolute (sym (append_nil library)) ∙ not_absolute library [] p)
    ∙ rw (find-Lacks b'/' library (no_slash_of_plain library p.plain))
        (unfold split_name in rw (part_ok library p))

complete_scoped :
    (org library : Bytes)
    → IsPart org
    → IsPart library
    → parse_name (org ++ b'/' ∷ library) ≡ accepted (record { org = org; library = library })
complete_scoped org library o l =
    tests_pass (org ++ b'/' ∷ library)
      (All-append IsAllowed org (b'/' ∷ library) (IsAllowed-of_plain org o.plain)
        ((refl, λ e. ground arith, λ e. ground arith), IsAllowed-of_plain library l.plain))
      (not_absolute org (b'/' ∷ library) o)
    ∙ rw (find-append b'/' org library (no_slash_of_plain org o.plain)) (
        unfold split_name found in
        rw (
          drop-length org b'/' library,
          find-Lacks b'/' library (no_slash_of_plain library l.plain),
          take-length org (b'/' ∷ library),
          part_ok org o,
          part_ok library l,
        ))

-- Every name with the grammar is accepted, and taken apart as it is written.
pub parse_name_complete : (text : Bytes) (n : Name) → Names text n → parse_name text ≡ accepted n
parse_name_complete text n (plain no_org e p) =
    rw e (complete_plain n.library p ∙ ap (λ o. accepted (record n { org = o })) (sym no_org))
parse_name_complete text n (scoped e o l) = rw e (complete_scoped n.org n.library o l)
