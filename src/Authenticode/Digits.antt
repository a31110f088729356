-- ===== src/Authenticode/Digits.antt =====
-- Encoding an object identifier in groups of seven bits, and reading it back.
use mathlib.Core.List.{append_assoc, append-nil}
use native.Mathlib.Nat.{pow-suc}
use libthe_seed.Prelude.{
  drop_front, ℕ, zero, suc, ◌+◌, ◌-◌, ◌*◌, ◌/◌, ◌%◌, ◌^◌, ◌≡◌, ◌≤◌, ◌<◌, refl, sym, ap, ap₂, ◌∙◌,
  inl, inr, String, Bool, true, false, ◌||◌, List, [], ◌∷◌, ◌++◌, ◌==◌, leb, ltb, if◌then◌else◌,
  length, length-append, take, drop, All, All-append, Bool-cases, arith, Outcome, ok, err, fault,
  ◌>>=◌,
}
use libthe_seed.Bounded.Range.{u64_mod, range_fits, range_fits_iff}
use libthe_seed.Bounded.Order.{Bytes, IsByte, big, bytes1}
use libthe_seed.Bounded.Span.{whole, whole-IsValid, read, read_on-exact}
use libthe_seed.Authenticode.Oid.{first_arcs, Decoding, oid_byte, oid_loop, decode_oid}

-- The groups in front of the last, most significant first, with the high bit.
abbrev pub high_groups : ℕ → ℕ → Bytes
high_groups zero m = []
high_groups (suc k) m = if m == 0 then [] else high_groups k (m / 128) ++ (128 + m % 128) ∷ []

-- A value below 2 ^ 63 has at most nine groups.
abbrev pub encode_value : ℕ → Bytes
encode_value v = high_groups 8 (v / 128) ++ v % 128 ∷ []

abbrev pub encode_values : List ℕ → Bytes
encode_values [] = []
encode_values (v ∷ rest) = encode_value v ++ encode_values rest

-- DER's encoding of a dotted identifier.
abbrev pub encode_oid : ℕ → ℕ → List ℕ → Bytes
encode_oid a b rest = encode_value (a * 40 + b) ++ encode_values rest

high_groups-IsByte : (k m : ℕ) → All IsByte (high_groups k m)
high_groups-IsByte zero m = tt
high_groups-IsByte (suc k) m = elim (Bool-cases (m == 0)) [
  | inl none_left ↦ rw none_left tt
  | inr more ↦ rw more (
      All-append IsByte (high_groups k (m / 128)) _ (high_groups-IsByte k (m / 128))
        (omega arith, tt))
]

encode_value-IsByte : (v : ℕ) → All IsByte (encode_value v)
encode_value-IsByte v =
    All-append IsByte (high_groups 8 (v / 128)) _ (high_groups-IsByte 8 (v / 128)) (omega arith, tt)

encode_values-IsByte : (values : List ℕ) → All IsByte (encode_values values)
encode_values-IsByte [] = tt
encode_values-IsByte (v ∷ rest) =
    All-append IsByte (encode_value v) _ (encode_value-IsByte v) (encode_values-IsByte rest)

abbrev is_nil : Bytes → Bool
is_nil [] = true
is_nil (b ∷ rest) = false

-- The loop of DecodeOid on a list of bytes.
oid_bytes : Decoding → Bytes → Outcome (List ℕ)
oid_bytes d [] = ok d.text
oid_bytes d (b ∷ rest) = oid_byte (is_nil rest) d b >>= λ d'. oid_bytes d' rest

is_last_byte :
    (xs : Bytes) (y : ℕ) (ys : Bytes) → (suc (length xs) == length (xs ++ y ∷ ys)) ≡ is_nil ys
is_last_byte xs y [] = ground (arith, length-append xs (y ∷ []))
is_last_byte xs y (z ∷ ys) = ground (arith, length-append xs (y ∷ z ∷ ys))

bind-cong {ℓ κ} :
    {A : Type ℓ} {B : Type κ} (m : Outcome A) (f g : A → Outcome B)
    → ((a : A) → f a ≡ g a)
    → (m >>= f) ≡ (m >>= g)
bind-cong (ok a) f g h = h a
bind-cong (err e) f g h = refl
bind-cong fault f g h = refl

module _ (format scope : String) where
  read_byte :
      (xs : Bytes) (y : ℕ) (ys : Bytes) (field : String)
      → All IsByte (xs ++ y ∷ ys)
      → read bytes1 (whole (xs ++ y ∷ ys) format scope) (length xs) big field ≡ ok y
  unfolding read
  read_byte xs y ys field are =
      let inside : range_fits (length xs) 1 (length (xs ++ y ∷ ys)) ≡ true =
        (range_fits_iff (length xs) 1 (length (xs ++ y ∷ ys))).1
          (omega (arith, length-append xs (y ∷ ys))) in
      let here : take 1 (drop (0 + length xs) (xs ++ y ∷ ys)) ≡ y ∷ [] =
        ap (take 1) (ap (λ n. drop n (xs ++ y ∷ ys)) (omega arith) ∙ drop_front xs (y ∷ ys)) in
      rw
        (
          read_on-exact (whole-IsValid (xs ++ y ∷ ys) format scope are) (length xs) _ big bytes1
              field,
          inside,
          here,
        )
        (ap ok (omega arith))

  oid_loop-oid_bytes :
      (xs ys : Bytes) (d : Decoding)
      → All IsByte (xs ++ ys)
      → oid_loop (whole (xs ++ ys) format scope) (length ys) (length xs) d ≡ oid_bytes d ys
  unfolding oid_loop oid_bytes
  oid_loop-oid_bytes xs [] d are = refl
  oid_loop-oid_bytes xs (y ∷ ys) d are =
      let joined : (xs ++ y ∷ []) ++ ys ≡ xs ++ y ∷ ys = append_assoc xs (y ∷ []) ys in
      let longer : length (xs ++ y ∷ []) ≡ suc (length xs) =
        omega (arith, length-append xs (y ∷ [])) in
      let later : (d' : Decoding)
          → oid_loop (whole (xs ++ y ∷ ys) format scope) (length ys) (suc (length xs)) d'
            ≡ oid_bytes d' ys =
        λ d'.
          ap₂ (λ bs n. oid_loop (whole bs format scope) (length ys) n d') (sym joined) (sym longer)
          ∙ oid_loop-oid_bytes (xs ++ y ∷ []) ys d' (rw joined are) in
      rw (read_byte xs y ys "object identifier" are, is_last_byte xs y ys)
        (bind-cong (oid_byte (is_nil ys) d y)
          (λ d'. oid_loop (whole (xs ++ y ∷ ys) format scope) (length ys) (suc (length xs)) d')
          (λ d'. oid_bytes d' ys) later)

step_more :
    (m : ℕ) (f : Bool) (t : List ℕ) (rest : Bytes)
    → m < 2 ^ 56
    → is_nil rest ≡ false
    → oid_bytes (record { value = m / 128; first = f; text = t }) ((128 + m % 128) ∷ rest)
      ≡ oid_bytes (record { value = m; first = f; text = t }) rest
unfolding oid_bytes oid_byte
step_more m f t rest small more =
    let value_eq : (m / 128 * 2 ^ 7) % u64_mod + (128 + m % 128) % 128 ≡ m = omega (arith, small) in
    let high : leb 0x80 (128 + m % 128) ≡ true = ground arith in
    let fits : ltb (2 ^ 56 - 1) m ≡ false = ground (arith, small) in
    rw (value_eq, high, more, fits) refl

high_groups_lem :
    (k m : ℕ) (f : Bool) (t : List ℕ) (rest : Bytes)
    → m < 2 ^ 56
    → m < 128 ^ k
    → is_nil rest ≡ false
    → oid_bytes (record { value = 0; first = f; text = t }) (high_groups k m ++ rest)
      ≡ oid_bytes (record { value = m; first = f; text = t }) rest
high_groups_lem zero m f t rest small bound more = let z : m ≡ 0 = omega (arith, bound) in rw z refl
high_groups_lem (suc k) m f t rest small bound more = elim (Bool-cases (m == 0)) [
  | inl none_left ↦ let z : m ≡ 0 = ground (arith, none_left) in rw (none_left, z) refl
  | inr left ↦
      rw (left, append_assoc (high_groups k (m / 128)) ((128 + m % 128) ∷ []) rest)
        (high_groups_lem k (m / 128) f t ((128 + m % 128) ∷ rest) (omega (arith, small))
            (omega (arith, bound, pow-suc 128 k)) refl
          ∙ step_more m f t rest small more)
]

-- A value at the end of its groups.
value_lem :
    (v : ℕ) (f : Bool) (t : List ℕ) (rest : Bytes)
    → v < 2 ^ 63
    → oid_bytes (record { value = 0; first = f; text = t }) (encode_value v ++ rest)
      ≡ oid_bytes
          (record { value = 0; first = false; text = t ++ (if f then first_arcs v else v ∷ []) })
          rest
unfolding oid_bytes oid_byte
value_lem v f t rest small =
    let value_eq : (v / 128 * 2 ^ 7) % u64_mod + v % 128 % 128 ≡ v = omega (arith, small) in
    let low : leb 0x80 (v % 128) ≡ false = ground arith in
    rw (append_assoc (high_groups 8 (v / 128)) (v % 128 ∷ []) rest) (
      high_groups_lem 8 (v / 128) f t (v % 128 ∷ rest) (omega (arith, small)) (omega (arith, small))
        refl
      ∙ rw (value_eq, low) refl)

values_lem :
    (values t : List ℕ)
    → All (λ v. v < 2 ^ 63) values
    → oid_bytes (record { value = 0; first = false; text = t }) (encode_values values)
      ≡ ok (t ++ values)
unfolding oid_bytes
values_lem [] t h = ap ok (sym (append-nil t))
values_lem (v ∷ rest) t h =
    value_lem v false t (encode_values rest) h.0
    ∙ values_lem rest (t ++ v ∷ []) h.1
    ∙ ap ok (append_assoc t (v ∷ []) rest)

-- The two numbers of the first value.
abbrev pub IsRoot : ℕ → ℕ → Type 0
IsRoot a b = (a ≤ 2) × (a < 2 → b < 40)

first_arcs_lem : (a b : ℕ) → IsRoot a b → first_arcs (a * 40 + b) ≡ a ∷ b ∷ []
unfolding first_arcs
first_arcs_lem zero b h = let small : b < 40 = h.1 (omega arith) in ground (arith, small)
first_arcs_lem (suc zero) b h = let small : b < 40 = h.1 (omega arith) in ground (arith, small)
first_arcs_lem (suc (suc zero)) b h = ground arith
first_arcs_lem (suc (suc (suc a))) b h = absurd (omega (arith, h.0))

encode_oid_pos : (a b : ℕ) (rest : List ℕ) → 0 < length (encode_oid a b rest)
encode_oid_pos a b rest = omega (
  arith,
  length-append (encode_value (a * 40 + b)) (encode_values rest),
  length-append (high_groups 8 ((a * 40 + b) / 128)) ((a * 40 + b) % 128 ∷ []),
)

-- The encoding of an identifier whose numbers are below 2 ^ 63 is read back as those numbers, when
-- it has no more than 32 bytes and the first two numbers are ones that DER allows.
pub decode-encode_oid :
    (a b : ℕ) (rest : List ℕ) (format scope : String)
    → IsRoot a b
    → a * 40 + b < 2 ^ 63
    → All (λ v. v < 2 ^ 63) rest
    → length (encode_oid a b rest) ≤ 32
    → decode_oid (whole (encode_oid a b rest) format scope) ≡ ok (a ∷ b ∷ rest)
unfolding decode_oid
decode-encode_oid a b rest format scope root small below short =
    let size = length (encode_oid a b rest) in
    let sized : (size == 0 || ltb 32 size) ≡ false =
      ground (arith, encode_oid_pos a b rest, short) in
    let are =
      All-append IsByte (encode_value (a * 40 + b)) (encode_values rest)
        (encode_value-IsByte (a * 40 + b)) (encode_values-IsByte rest) in
    rw sized (
      oid_loop-oid_bytes format scope [] (encode_oid a b rest) _ are
      ∙ value_lem (a * 40 + b) true [] (encode_values rest) small
      ∙ values_lem rest (first_arcs (a * 40 + b)) below
      ∙ ap (λ t. ok (t ++ rest)) (first_arcs_lem a b root))
