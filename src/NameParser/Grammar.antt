-- ===== src/NameParser/Grammar.antt =====
-- The names that are accepted, described without the code.
use libthe_seed.Prelude.{
  ℕ, suc, ◌≡◌, ◌≢◌, refl, ap, ap₂, Bool, true, false, [], ◌∷◌, ◌++◌, inl, inr, Option, none, some,
  arith, ◌==◌, take, drop, All, All-take, All-drop, if◌then◌else◌, ◌&&◌, Bool-cases, any, find,
  Lacks, any-eq_false, find-none, find-some,
}
use libthe_seed.Bounded.Order.{Bytes}
use libthe_seed.NameParser.{
  Name, Parsed, accepted, rejected, Rule, ◌>>=◌, is_control, part_check, found, is_absolute,
  split_name, parse_name,
}

-- No control character, backslash, colon or slash.
pub record IsPlain (c : ℕ) : Type 0 where
  pub printable : is_control c ≡ false
  pub not_backslash : c ≢ b'\\'
  pub not_colon : c ≢ b':'
  pub not_slash : c ≢ b'/'

-- One file or folder name: it cannot lead anywhere but into the folder it is joined to.
pub record IsPart (part : Bytes) : Type 0 where
  pub plain : All IsPlain part
  pub not_empty : part ≢ []
  pub not_dot : part ≢ b'.' ∷ []
  pub not_dot_dot : part ≢ b'.' ∷ b'.' ∷ []

-- A name is a library, or an organisation, a slash and a library.
pub data Names (text : Bytes) (n : Name) : Type 0 where
  plain : n.org ≡ [] → text ≡ n.library → IsPart n.library → Names text n
  scoped : text ≡ n.org ++ b'/' ∷ n.library → IsPart n.org → IsPart n.library → Names text n

-- The three tests on single characters and the search for a slash say that all is plain.
IsPlain-of_tests :
    (bs : Bytes)
    → All (λ c. is_control c ≡ false) bs
    → Lacks b'\\' bs
    → Lacks b':' bs
    → Lacks b'/' bs
    → All IsPlain bs
IsPlain-of_tests [] a b c d = tt
IsPlain-of_tests (x ∷ xs) a b c d = (
  record { printable = a.0; not_backslash = b.0; not_colon = c.0; not_slash = d.0 },
  IsPlain-of_tests xs a.1 b.1 c.1 d.1,
)

part_check_lem :
    (part : Bytes) (u : Unit {0})
    → part_check part ≡ accepted u
    → (part ≢ []) × (part ≢ b'.' ∷ []) × (part ≢ b'.' ∷ b'.' ∷ [])
unfolding part_check
part_check_lem [] u h = cc
part_check_lem (a ∷ []) u h = (λ e. cc, λ e. ground arith, λ e. ground arith)
part_check_lem (a ∷ b ∷ []) u h = (λ e. cc, λ e. ground arith, λ e. ground arith)
part_check_lem (a ∷ b ∷ c ∷ r) u h = (λ e. cc, λ e. cc, λ e. cc)

pub part_check-IsPart :
    (part : Bytes)
    → part ≢ []
    → part ≢ b'.' ∷ []
    → part ≢ b'.' ∷ b'.' ∷ []
    → part_check part ≡ accepted tt
unfolding part_check
part_check-IsPart [] e d dd = absurd (e refl)
part_check-IsPart (a ∷ []) e d dd = elim (Bool-cases (a == b'.')) [
  | inl dot ↦ absurd (d (ap (λ x. x ∷ []) (ground arith)))
  | inr other ↦ rw other
]
part_check-IsPart (a ∷ b ∷ []) e d dd = elim (Bool-cases (a == b'.' && b == b'.')) [
  | inl dots ↦ absurd (dd (ap₂ (λ x y. x ∷ y ∷ []) (ground arith) (ground arith)))
  | inr other ↦ rw other
]
part_check-IsPart (a ∷ b ∷ c ∷ r) e d dd = refl

accepted_else :
    {A : Type 0} (b : Bool) (r : Rule) (m : Parsed A) (a : A)
    → (if b then rejected r else m) ≡ accepted a
    → (b ≡ false) × (m ≡ accepted a)
accepted_else true r m a h = cc
accepted_else false r m a h = (refl, h)

accepted_bind :
    {A B : Type 0} (m : Parsed A) (f : A → Parsed B) (b : B)
    → (m >>= f) ≡ accepted b
    → (a : A) × (m ≡ accepted a) × (f a ≡ accepted b)
accepted_bind (accepted a) f b h = (a, refl, h)
accepted_bind (rejected r) f b h = cc

not_found : (o : Option ℕ) → found o ≡ false → o ≡ none
unfolding found
not_found none h = refl
not_found (some i) h = cc

accepted-injective : (m n : Name) → accepted m ≡ accepted n → m ≡ n
accepted-injective m n e = cc

IsPart-of :
    (part : Bytes) (u : Unit {0}) → All IsPlain part → part_check part ≡ accepted u → IsPart part
IsPart-of part u h checked =
    let (e, d, dd) = part_check_lem part u checked in
    record { plain = h; not_empty = e; not_dot = d; not_dot_dot = dd }

-- What the tests before the split have established of any piece of the name.
record Tested (text : Bytes) : Type 0 where
  no_control : All (λ c. is_control c ≡ false) text
  no_backslash : Lacks b'\\' text
  no_colon : Lacks b':' text

Tested-take : (i : ℕ) {text : Bytes} → Tested text → Tested (take i text)
Tested-take i {text} t = record {
  no_control = All-take _ i text t.no_control;
  no_backslash = All-take _ i text t.no_backslash;
  no_colon = All-take _ i text t.no_colon;
}

Tested-drop : (i : ℕ) {text : Bytes} → Tested text → Tested (drop i text)
Tested-drop i {text} t = record {
  no_control = All-drop _ i text t.no_control;
  no_backslash = All-drop _ i text t.no_backslash;
  no_colon = All-drop _ i text t.no_colon;
}

IsPlain-of_Tested : (text : Bytes) → Tested text → Lacks b'/' text → All IsPlain text
IsPlain-of_Tested text t = IsPlain-of_tests text t.no_control t.no_backslash t.no_colon

accepted_else_if :
    (text : Bytes) (slash : ℕ) (n : Name)
    → split_name text (some slash) ≡ accepted n
    → (found (find b'/' (drop (suc slash) text)) ≡ false)
      × ((part_check (take slash text) >>= λ _. part_check (drop (suc slash) text) >>= λ _.
            accepted (record { org = take slash text; library = drop (suc slash) text }))
          ≡ accepted n)
unfolding split_name
accepted_else_if text slash n h = elim (Bool-cases (found (find b'/' (drop (suc slash) text)))) [
  | inl more ↦ absurd (ground arith)
  | inr only ↦ (only, rw only at h)
]

split_name_sound :
    (text : Bytes) (n : Name) (slash : Option ℕ)
    → Tested text
    → find b'/' text ≡ slash
    → split_name text slash ≡ accepted n
    → Names text n
unfolding split_name
split_name_sound text n none t f h =
    let (u, checked, rest) = accepted_bind (part_check text) _ n h in
    let same : record { org = []; library = text } ≡ n = accepted-injective _ n rest in
    rw (← same) (
      plain refl refl (IsPart-of text u (IsPlain-of_Tested text t (find-none b'/' text f)) checked))
split_name_sound text n (some slash) t f h =
    let (none_behind, rest) = accepted_else_if text slash n h in
    let (u, org_ok, rest') = accepted_bind (part_check (take slash text)) _ n rest in
    let (u', library_ok, rest'') = accepted_bind (part_check (drop (suc slash) text)) _ n rest' in
    let same =
      accepted-injective (record { org = take slash text; library = drop (suc slash) text }) n
        rest'' in
    let (splits, org_free) = find-some b'/' text slash f in
    rw (← same) (
      scoped splits
        (IsPart-of (take slash text) u
          (IsPlain-of_Tested (take slash text) (Tested-take slash t) org_free) org_ok)
        (IsPart-of (drop (suc slash) text) u'
          (IsPlain-of_Tested _ (Tested-drop (suc slash) t)
            (find-none b'/' (drop (suc slash) text) (not_found _ none_behind)))
          library_ok))

-- Every name that is accepted has the grammar, and is taken apart by it.
pub parse_name_sound : (text : Bytes) (n : Name) → parse_name text ≡ accepted n → Names text n
unfolding parse_name
parse_name_sound text n h =
    let (a, h1) = accepted_else (any is_control text) _ _ n h in
    let (b, h2) = accepted_else (found (find b'\\' text)) _ _ n h1 in
    let (c, h3) = accepted_else (found (find b':' text)) _ _ n h2 in
    let (d, h4) = accepted_else (is_absolute text) _ _ n h3 in
    split_name_sound text n (find b'/' text)
      (record {
        no_control = any-eq_false is_control text a;
        no_backslash = find-none b'\\' text (not_found _ b);
        no_colon = find-none b':' text (not_found _ c);
      })
      refl h4
