-- ===== src/Pak/ByName.antt =====
-- The hash map of an index finds each resource by its name, and nothing else.
use libthe_seed.Prelude.{
  lookup_name, same_name, same_name_refl, same_name_eq, ℕ, zero, suc, ◌≡◌, refl, sym, ap, ◌∙◌,
  false, List, [], ◌∷◌, ◌++◌, ◌⊎◌, inl, inr, Option, none, some, arith, if◌then◌else◌, length,
  get_elem?, Bool-cases, Option-cases,
}
use libthe_seed.Bounded.Order.{Bytes}
use libthe_seed.Pak.File.{PakEntry}
use libthe_seed.Pak.Index.{is_known}

-- The map finds exactly the entries, each at its position; so no name stands twice.
pub record IsIndexed (entries : List PakEntry) (by_name : List (Bytes × ℕ)) : Type 0 where
  pub finds :
      (i : ℕ) (e : PakEntry) → get_elem? entries i ≡ some e → lookup_name e.name by_name ≡ some i
  pub finds_only :
      (name : Bytes) (i : ℕ)
      → lookup_name name by_name ≡ some i
      → (e : PakEntry) × (get_elem? entries i ≡ some e) × (e.name ≡ name)

lookup-put_known :
    (name key : Bytes) (p i : ℕ) (m : List (Bytes × ℕ))
    → lookup_name name m ≡ some i
    → lookup_name name (m ++ (key, p) ∷ []) ≡ some i
unfolding lookup_name
lookup-put_known name key p i [] h = cc
lookup-put_known name key p i ((k, v) ∷ m) h = ground (arith, lookup-put_known name key p i m)

lookup-put_new :
    (name key : Bytes) (p : ℕ) (m : List (Bytes × ℕ))
    → lookup_name name m ≡ none
    → lookup_name name (m ++ (key, p) ∷ []) ≡ (if same_name key name then some p else none)
unfolding lookup_name
lookup-put_new name key p [] h = refl
lookup-put_new name key p ((k, v) ∷ m) h = ground (arith, lookup-put_new name key p m)

get_elem?-last : (es : List PakEntry) (e : PakEntry) → get_elem? (es ++ e ∷ []) (length es) ≡ some e
get_elem?-last [] e = refl
get_elem?-last (x ∷ es) e = get_elem?-last es e

get_elem?-before :
    (es : List PakEntry) (e : PakEntry) (i : ℕ) (x : PakEntry)
    → get_elem? es i ≡ some x
    → get_elem? (es ++ e ∷ []) i ≡ some x
get_elem?-before [] e i x h = cc
get_elem?-before (y ∷ es) e zero x h = h
get_elem?-before (y ∷ es) e (suc i) x h = get_elem?-before es e i x h

get_elem?-put :
    (es : List PakEntry) (e : PakEntry) (i : ℕ) (x : PakEntry)
    → get_elem? (es ++ e ∷ []) i ≡ some x
    → (get_elem? es i ≡ some x) ⊎ ((i ≡ length es) × (e ≡ x))
get_elem?-put [] e zero x h = inr (refl, ground arith)
get_elem?-put [] e (suc i) x h = absurd (cc)
get_elem?-put (y ∷ es) e zero x h = inl h
get_elem?-put (y ∷ es) e (suc i) x h = elim (get_elem?-put es e i x h) [
  | inl before ↦ inl before
  | inr (last, same) ↦ inr (ap suc last, same)
]

pub not_known : (o : Option ℕ) → is_known o ≡ false → o ≡ none
unfolding is_known
not_known none h = refl
not_known (some i) h = cc

pub IsIndexed-put :
    (es : List PakEntry) (m : List (Bytes × ℕ)) (e : PakEntry)
    → IsIndexed es m
    → lookup_name e.name m ≡ none
    → IsIndexed (es ++ e ∷ []) (m ++ (e.name, length es) ∷ [])
IsIndexed-put es m e x new = record {
  finds = λ i y h. elim (get_elem?-put es e i y h) [
    | inl before ↦ lookup-put_known y.name e.name (length es) i m (x.finds i y before)
    | inr (last, same) ↦
        rw (← same, last)
          (lookup-put_new e.name e.name (length es) m new ∙ rw (same_name_refl e.name))
  ];
  finds_only = λ name i h. elim (Option-cases (lookup_name name m)) [
    | inl n ↦
        let here = sym (lookup-put_new name e.name (length es) m n) ∙ h in
        elim (Bool-cases (same_name e.name name)) [
          | inl same ↦
              let at : length es ≡ i = ground arith in
              (e, rw (← at) (get_elem?-last es e), same_name_eq e.name name same)
          | inr other ↦ absurd (ground arith)
        ]
    | inr (k, f) ↦
        let at : k ≡ i = ground (arith, lookup-put_known name e.name (length es) k m f) in
        let (y, found, named) = x.finds_only name k f in
        (y, rw (← at) (get_elem?-before es e k y found), named)
  ];
}

pub empty-IsIndexed : IsIndexed [] []
unfolding lookup_name
empty-IsIndexed = record { finds = λ i e h. cc; finds_only = λ name i h. absurd (cc) }
