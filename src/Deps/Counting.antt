-- ===== src/Deps/Counting.antt =====
-- A map from byte strings whose keys are all taken from a list has no more entries than the list
-- is long.
use libthe_seed.Prelude.{
  suc, ◌≡◌, ◌≤◌, inl, inr, true, false, List, [], ◌∷◌, none, some, if◌then◌else◌, length, any,
  same_name, same_name_eq, lookup_name, All, Bool-cases, arith,
}
use libthe_seed.Bounded.Order.{Bytes}

abbrev pub Listed : Bytes → List Bytes → Type 0
Listed name names = any (same_name name) names ≡ true

-- No key twice, when entries are added only for keys that are not found.
abbrev pub Distinct {ℓ} : {A : Type ℓ} → List (Bytes × A) → Type ℓ
Distinct [] = Unit
Distinct ((key, a) ∷ rest) = (lookup_name key rest ≡ none) × Distinct rest

abbrev remove_name : Bytes → List Bytes → List Bytes
remove_name name [] = []
remove_name name (other ∷ rest) =
    if same_name name other then rest else other ∷ remove_name name rest

length-remove :
    (name : Bytes) (names : List Bytes)
    → Listed name names
    → suc (length (remove_name name names)) ≡ length names
unfolding any
length-remove name [] h = absurd (cc)
length-remove name (other ∷ rest) h = ground (arith, h, length-remove name rest)

Listed-remove :
    (name other : Bytes) (names : List Bytes)
    → same_name other name ≡ false
    → Listed other names
    → Listed other (remove_name name names)
unfolding any
Listed-remove name other [] differ h = h
Listed-remove name other (x ∷ rest) differ h = elim (Bool-cases (same_name name x)) [
  | inl same ↦
      let e : same_name other x ≡ false = rw (← same_name_eq name x same) differ in
      ground (arith, same, e, h)
  | inr differs ↦ ground (arith, differs, h, Listed-remove name other rest differ)
]

Listed-remove-All {ℓ} :
    {A : Type ℓ} (name : Bytes) (names : List Bytes) (es : List (Bytes × A))
    → lookup_name name es ≡ none
    → All (λ e. Listed e.0 names) es
    → All (λ e. Listed e.0 (remove_name name names)) es
unfolding lookup_name
Listed-remove-All name names [] new h = tt
Listed-remove-All name names ((key, a) ∷ rest) new h = elim (Bool-cases (same_name key name)) [
  | inl same ↦ absurd (ground (arith, new, same))
  | inr differs ↦ (
    Listed-remove name key names differs h.0,
    Listed-remove-All name names rest (ground (arith, new, differs)) h.1,
  )
]

pub length-Distinct {ℓ} :
    {A : Type ℓ} (es : List (Bytes × A)) (names : List Bytes)
    → Distinct es
    → All (λ e. Listed e.0 names) es
    → length es ≤ length names
length-Distinct [] names d h = omega arith
length-Distinct ((key, a) ∷ rest) names d h = omega (
  arith,
  length-remove key names h.0,
  length-Distinct rest (remove_name key names) d.1 (Listed-remove-All key names rest d.0 h.1),
)

pub lookup-All {ℓ} :
    {A : Type ℓ} (P : Bytes → A → Type 0) (name : Bytes) (es : List (Bytes × A)) (a : A)
    → All (λ e. P e.0 e.1) es
    → lookup_name name es ≡ some a
    → P name a
unfolding lookup_name
lookup-All P name [] a h e = absurd (cc)
lookup-All P name ((key, b) ∷ rest) a h e = elim (Bool-cases (same_name key name)) [
  | inl same ↦
      let b≡a : b ≡ a = ground (arith, e, same) in rw (← same_name_eq key name same, ← b≡a) h.0
  | inr differs ↦ lookup-All P name rest a h.1 (ground (arith, e, differs))
]
