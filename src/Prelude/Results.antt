-- ===== src/Prelude/Results.antt =====
-- What a call of the binary tooling ends in. `ThrowMalformed` throws std::runtime_error with
-- the text "<format>: <detail>"; the text is kept as its parts (the words and the numbers put in).
-- `fault` is the undefined behaviour of a memory access outside a buffer: the C++ program
-- must never get there.
use Prim.Native.Nat.{ℕ}
use Prim.Native.String.{String}
use mathlib.Core.Path.{◌≡◌, refl, subst}
use mathlib.Core.List.{List}
use mathlib.Core.Bool.{Bool, true, false}
use libthe_seed.Prelude.Tests.{if◌then◌else◌}

pub data Detail : Type 0 where
  -- detail::PastTheEnd: field, offset, scope, size
  past_the_end : String → ℕ → String → ℕ → Detail
  -- detail::StructurePastTheEnd: structure, offset, length, scope, size
  structure_past_the_end : String → ℕ → ℕ → String → ℕ → Detail
  -- CheckedAdd, CheckedMultiply, ToSize: "<what> overflows"
  overflows : String → Detail
  -- the three refusals of CString: structure, offset, then the number in the text
  text_outside : String → ℕ → String → ℕ → Detail
  text_too_long : String → ℕ → ℕ → Detail
  text_unterminated : String → ℕ → String → ℕ → Detail
  -- any other text: its words and the numbers in it
  said : String → List ℕ → Detail

pub record Error : Type 0 where
  pub format : String
  pub detail : Detail

pub data Outcome {ℓ} (A : Type ℓ) : Type ℓ where
  ok : A → Outcome A
  err : Error → Outcome A
  fault : Outcome A

infixl 5 ◌>>=◌ ◌>>◌
abbrev pub ◌>>=◌ {ℓ κ} : {A : Type ℓ} {B : Type κ} → Outcome A → (A → Outcome B) → Outcome B
ok a >>= f = f a
err e >>= f = err e
fault >>= f = fault

abbrev pub ◌>>◌ {ℓ} : {B : Type ℓ} → Outcome (Unit {0}) → Outcome B → Outcome B
m >> k = m >>= λ _. k

abbrev pub throw_malformed {ℓ} : {A : Type ℓ} → String → Detail → Outcome A
throw_malformed format detail = err (record { format = format; detail = detail })

-- `if(test) ThrowMalformed(...)`
abbrev pub reject_if : Bool → String → Detail → Outcome (Unit {0})
reject_if true format detail = throw_malformed format detail
reject_if false format detail = ok tt

-- No undefined behaviour, and `P` of every value returned.
pub data Returns {ℓ} {A : Type ℓ} (P : A → Type 0) : Outcome A → Type ℓ where
  value : {a : A} → P a → Returns P (ok a)
  refusal : {e : Error} → Returns P (err e)

ok-injective {ℓ} : {A : Type ℓ} (a b : A) → ok a ≡ ok b → a ≡ b
ok-injective a b e = cc

module _ {ℓ} {A : Type ℓ} {P : A → Type 0} where
  pub Returns-ok : {m : Outcome A} (a : A) → Returns P m → m ≡ ok a → P a
  Returns-ok a (value {a = b} p) e = subst P (ok-injective b a e) p
  Returns-ok a refusal e = absurd (cc)

  pub Returns-ne-fault : {m : Outcome A} → Returns P m → ¬ (m ≡ fault)
  Returns-ne-fault (value p) e = cc
  Returns-ne-fault refusal e = cc

  pub Returns-mono :
      {m : Outcome A} (Q : A → Type 0) → ((a : A) → P a → Q a) → Returns P m → Returns Q m
  Returns-mono Q f (value p) = value (f _ p)
  Returns-mono Q f refusal = refusal

module _ {ℓ κ} {A : Type ℓ} {B : Type κ} {P : A → Type 0} {Q : B → Type 0} where
  pub Returns-bind :
      {m : Outcome A} (f : A → Outcome B)
      → Returns P m
      → ((a : A) → P a → Returns Q (f a))
      → Returns Q (m >>= f)
  Returns-bind f (value p) k = k _ p
  Returns-bind f refusal k = refusal

  -- The rest may use that the first call returned this value.
  pub Returns-bind_eq :
      (m : Outcome A) (f : A → Outcome B)
      → Returns P m
      → ((a : A) → m ≡ ok a → P a → Returns Q (f a))
      → Returns Q (m >>= f)
  Returns-bind_eq (ok a) f (value p) k = k a refl p
  Returns-bind_eq (err e) f r k = refusal
  Returns-bind_eq fault f r k = absurd (Returns-ne-fault r refl)

-- After the test the rest may use that it did not hold.
pub Returns-reject_if {ℓ} :
    {B : Type ℓ} {Q : B → Type 0} (b : Bool) (format : String) (detail : Detail) (k : Outcome B)
    → (b ≡ false → Returns Q k)
    → Returns Q (reject_if b format detail >> k)
Returns-reject_if true format detail k h = refusal
Returns-reject_if false format detail k h = h refl

pub Returns-if {ℓ} :
    {B : Type ℓ} {Q : B → Type 0} (b : Bool) {m n : Outcome B}
    → (b ≡ true → Returns Q m)
    → (b ≡ false → Returns Q n)
    → Returns Q (if b then m else n)
Returns-if true h k = h refl
Returns-if false h k = k refl

-- The call returns, neither with an exception nor with undefined behaviour, and `P` holds.
abbrev pub Succeeds {ℓ} : {A : Type ℓ} → (A → Type 0) → Outcome A → Type ℓ
Succeeds {A = A} P m = (a : A) × (m ≡ ok a) × P a

module _ {ℓ κ} {A : Type ℓ} {B : Type κ} {P : A → Type 0} {Q : B → Type 0} where
  pub Succeeds-bind :
      {m : Outcome A} (f : A → Outcome B)
      → Succeeds P m
      → ((a : A) → P a → Succeeds Q (f a))
      → Succeeds Q (m >>= f)
  Succeeds-bind f (a, e, p) k = let (b, e', q) = k a p in (b, rw e e', q)

pub Succeeds-ok {ℓ} : {A : Type ℓ} {P : A → Type 0} (a : A) → P a → Succeeds P (ok a)
Succeeds-ok a p = (a, refl, p)
