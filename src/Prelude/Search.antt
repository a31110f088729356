-- ===== src/Prelude/Search.antt =====
-- std::string::find of one byte, std::find_if, and equality of byte strings.
use Prim.Native.Nat.{◌<◌, ℕ, zero, suc}
use mathlib.Core.Path.{◌≡◌, refl, ap}
use mathlib.Core.Logic.{◌≢◌, inl, inr}
use mathlib.Core.Bool.{Bool, true, false, ◌&&◌, ◌||◌}
use mathlib.Core.List.{List, [], ◌∷◌, ◌++◌}
use mathlib.Core.Option.{Option, none, some}
use native.Mathlib.Omega.{arith}
use libthe_seed.Prelude.Tests.{◌==◌, if◌then◌else◌, Bool-cases, Option-cases}
use libthe_seed.Prelude.Lists.{length, take, drop, get_or, set, All}

unfoldable pub any {ℓ} : {A : Type ℓ} → (A → Bool) → List A → Bool
any p [] = false
any p (x ∷ xs) = p x || any p xs

shift : Option ℕ → Option ℕ
shift none = none
shift (some i) = some (suc i)

-- The first place of `c`; npos is `none`.
unfoldable pub find : ℕ → List ℕ → Option ℕ
unfolding shift
find c [] = none
find c (b ∷ bs) = let rest = find c bs in if b == c then some 0 else shift rest

-- operator== of two byte strings.
unfoldable pub same_name : List ℕ → List ℕ → Bool
same_name [] [] = true
same_name (a ∷ x) (b ∷ y) = a == b && same_name x y
same_name _ _ = false

pub same_name_refl : (a : List ℕ) → same_name a a ≡ true
unfolding same_name
same_name_refl [] = refl
same_name_refl (x ∷ a) = ground (arith, same_name_refl a)

pub same_name_eq : (a b : List ℕ) → same_name a b ≡ true → a ≡ b
unfolding same_name
same_name_eq [] [] h = refl
same_name_eq [] (y ∷ b) h = cc
same_name_eq (x ∷ a) [] h = cc
same_name_eq (x ∷ a) (y ∷ b) h = ground (arith, same_name_eq a b)

-- find of a map from byte strings; an `emplace` of a new key puts it at the end or the front.
unfoldable pub lookup_name {ℓ} : {A : Type ℓ} → List ℕ → List (List ℕ × A) → Option A
lookup_name name [] = none
lookup_name name ((key, value) ∷ rest) =
    if same_name key name then some value else lookup_name name rest

-- has_value
abbrev pub is_some {ℓ} : {A : Type ℓ} → Option A → Bool
is_some none = false
is_some (some a) = true

-- `c` is nowhere in the list.
abbrev pub Lacks : ℕ → List ℕ → Type 0
Lacks c bs = All (λ b. b ≢ c) bs

pub any-eq_false {ℓ} :
    {A : Type ℓ} (p : A → Bool) (xs : List A) → any p xs ≡ false → All (λ x. p x ≡ false) xs
unfolding any
any-eq_false p [] h = tt
any-eq_false p (x ∷ xs) h = elim (Bool-cases (p x)) [
  | inl yes_here ↦ absurd (ground arith)
  | inr no_here ↦ (no_here, any-eq_false p xs (rw no_here at h))
]

pub any-of_All {ℓ} :
    {A : Type ℓ} (p : A → Bool) (xs : List A) → All (λ x. p x ≡ false) xs → any p xs ≡ false
unfolding any
any-of_All p [] h = refl
any-of_All p (x ∷ xs) h = rw h.0 (any-of_All p xs h.1)

pub find-none : (c : ℕ) (bs : List ℕ) → find c bs ≡ none → Lacks c bs
unfolding find
find-none c [] h = tt
find-none c (b ∷ bs) h = elim (Bool-cases (b == c)) [
  | inl same ↦ absurd (ground arith)
  | inr other ↦ elim (Option-cases (find c bs)) [
    | inl n ↦ (λ e. ground arith, find-none c bs n)
    | inr (i, f) ↦ absurd (ground arith)
  ]
]

pub find-Lacks : (c : ℕ) (bs : List ℕ) → Lacks c bs → find c bs ≡ none
unfolding find
find-Lacks c [] h = refl
find-Lacks c (b ∷ bs) h = ground (arith, h.0, find-Lacks c bs h.1)

-- The list splits at the first place of `c`.
pub find-some :
    (c : ℕ) (bs : List ℕ) (i : ℕ)
    → find c bs ≡ some i
    → (bs ≡ take i bs ++ c ∷ drop (suc i) bs) × Lacks c (take i bs)
unfolding find
find-some c [] i h = cc
find-some c (b ∷ bs) zero h = elim (Bool-cases (b == c)) [
  | inl same ↦ (ground arith, tt)
  | inr other ↦ absurd (ground arith)
]
find-some c (b ∷ bs) (suc i) h = elim (Bool-cases (b == c)) [
  | inl same ↦ absurd (ground arith)
  | inr other ↦
      let later : find c bs ≡ some i = ground arith in
      let (splits, free) = find-some c bs i later in (ap (◌∷◌ b) splits, (λ e. ground arith, free))
]

pub find-append : (c : ℕ) (xs ys : List ℕ) → Lacks c xs → find c (xs ++ c ∷ ys) ≡ some (length xs)
unfolding find
find-append c [] ys h = ground arith
find-append c (x ∷ xs) ys h = ground (arith, h.0, find-append c xs ys h.1)

module _ {ℓ} {A : Type ℓ} where
  pub take-length : (xs ys : List A) → take (length xs) (xs ++ ys) ≡ xs
  take-length [] ys = refl
  take-length (x ∷ xs) ys = ap (◌∷◌ x) (take-length xs ys)

  pub drop-length : (xs : List A) (y : A) (ys : List A) → drop (suc (length xs)) (xs ++ y ∷ ys) ≡ ys
  drop-length [] y ys = refl
  drop-length (x ∷ xs) y ys = drop-length xs y ys

pub get_or-set {ℓ} :
    {A : Type ℓ} (xs : List A) (i j : ℕ) (a d : A)
    → i < length xs
    → get_or (set xs i a) j d ≡ (if i == j then a else get_or xs j d)
get_or-set [] i j a d h = absurd (omega arith)
get_or-set (x ∷ xs) zero zero a d h = refl
get_or-set (x ∷ xs) zero (suc j) a d h = ground arith
get_or-set (x ∷ xs) (suc i) zero a d h = ground arith
get_or-set (x ∷ xs) (suc i) (suc j) a d h = ground (arith, get_or-set xs i j a d)
