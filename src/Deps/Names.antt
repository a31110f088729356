-- ===== src/Deps/Names.antt =====
-- EscapesSearchFolders of src/DependencyLister.cpp and what ResolveName makes of it: which recorded
-- names are joined to a folder.
use libthe_seed.Prelude.{
  ℕ, ◌≡◌, ◌≢◌, ◌↔◌, ◌⊎◌, refl, Bool, List, Option, none, ok, ◌>>=◌, inl, inr, false, ◌&&◌, ◌||◌, [],
  ◌∷◌, ◌==◌, leb, length, find, find-none, find-Lacks, is_some, Lacks, same_name, same_name_refl,
  same_name_eq, Bool-cases, Option-cases, arith,
}
use libthe_seed.Bounded.Order.{Bytes}
use libthe_seed.Deps.Graph.{DependencyGraph, FileSystem}
use libthe_seed.Deps.Resolve.{find_in_folders, put_cache, or_unresolved, resolve_new}
use libthe_seed.Deps.Format.{char_at, escapes_search_folders}

-- A single component of a path, on POSIX and on Windows: no separator, no NUL, no drive letter, and
-- neither the folder itself nor its parent.
pub record IsPlainName (name : Bytes) : Type 0 where
  pub named : name ≢ []
  pub not_here : name ≢ b'.' ∷ []
  pub not_parent : name ≢ b'.' ∷ b'.' ∷ []
  pub no_slash : Lacks b'/' name
  pub no_backslash : Lacks b'\\' name
  pub no_nul : Lacks 0 name
  pub no_drive : (c : ℕ) (rest : Bytes) → name ≢ c ∷ b':' ∷ rest

is_some-Lacks : (c : ℕ) (name : Bytes) → is_some (find c name) ≡ false → Lacks c name
is_some-Lacks c name h = elim (Option-cases (find c name)) [
  | inl n ↦ find-none c name n
  | inr (i, f) ↦ absurd (cc)
]

Lacks-is_some : (c : ℕ) (name : Bytes) → Lacks c name → is_some (find c name) ≡ false
Lacks-is_some c name h = rw (find-Lacks c name h) refl

same_name_no : (a b : Bytes) → same_name a b ≡ false → a ≢ b
same_name_no a b h e = absurd (ground (arith, same_name_refl b, rw e at h))

not_same : (a b : Bytes) → a ≢ b → same_name a b ≡ false
not_same a b h = elim (Bool-cases (same_name a b)) [
  | inl same ↦ absurd (h (same_name_eq a b same))
  | inr other ↦ other
]

not_empty : (name : Bytes) → name ≢ [] → (length name == 0 || false || false) ≡ false
not_empty [] h = absurd (h refl)
not_empty (c ∷ rest) h = ground arith

-- The three tests of the function, all false.
abbrev PassesTests : Bytes → Type 0
PassesTests name =
    ((length name == 0 || same_name name (b'.' ∷ []) || same_name name (b'.' ∷ b'.' ∷ [])) ≡ false)
    × ((is_some (find b'/' name) || is_some (find b'\\' name) || is_some (find 0 name)) ≡ false)
    × ((leb 2 (length name) && char_at name 1 == b':') ≡ false)

escapes-PassesTests : (name : Bytes) → (escapes_search_folders name ≡ false) ↔ PassesTests name
unfolding escapes_search_folders
escapes-PassesTests name = ground arith

second_byte :
    (name : Bytes)
    → (leb 2 (length name) && char_at name 1 == b':') ≡ false
      ↔ ((c : ℕ) (rest : Bytes) → name ≢ c ∷ b':' ∷ rest)
second_byte [] = (λ h c rest e. absurd (cc), λ h. refl)
second_byte (a ∷ []) = (λ h c rest e. absurd (cc), λ h. refl)
second_byte (a ∷ b ∷ rest) = (
  λ h c more e. let same : b ≡ b':' = cc in ground (arith, same, h),
  λ h. elim (Bool-cases (b == b':')) [
    | inl same ↦ let e : b ≡ b':' = ground (arith, same) in absurd (h a rest (rw e refl))
    | inr other ↦ ground (arith, other)
  ],
)

escapes_search_folders-IsPlainName :
    (name : Bytes) → (escapes_search_folders name ≡ false) ↔ IsPlainName name
escapes_search_folders-IsPlainName name = (
  λ h.
      let (words, marks, drive) = (escapes-PassesTests name).0 h in
      record {
        named = λ e. ground (arith, rw e at words);
        not_here = same_name_no name (b'.' ∷ []) (ground (arith, words));
        not_parent = same_name_no name (b'.' ∷ b'.' ∷ []) (ground (arith, words));
        no_slash = is_some-Lacks b'/' name (ground (arith, marks));
        no_backslash = is_some-Lacks b'\\' name (ground (arith, marks));
        no_nul = is_some-Lacks 0 name (ground (arith, marks));
        no_drive = (second_byte name).0 drive;
      },
  λ p. (escapes-PassesTests name).1 (
    rw (not_same name (b'.' ∷ []) p.not_here, not_same name (b'.' ∷ b'.' ∷ []) p.not_parent)
        (not_empty name p.named),
    rw
        (
          Lacks-is_some b'/' name p.no_slash,
          Lacks-is_some b'\\' name p.no_backslash,
          Lacks-is_some 0 name p.no_nul,
        )
        refl,
    (second_byte name).1 p.no_drive,
  ),
)

-- What ResolveName leaves when the search found a node, or nothing.
abbrev pub entered : Bytes → Bool → DependencyGraph × Option ℕ → DependencyGraph × ℕ
entered name ignore_case (graph, found) = (
  put_cache (or_unresolved graph name found).0 ignore_case name (or_unresolved graph name found).1,
  (or_unresolved graph name found).1,
)

-- For every file system, search folders and graph, ResolveName searches the folders for a name that
-- is not in its cache exactly when the name is a single component: not empty, not `.` or `..`, with
-- no slash, backslash or NUL and no drive letter in front. Any other name is given its unresolved
-- node, whatever the file system and the search folders are.
pub resolve_new-IsPlainName :
    (fs : FileSystem) (search_paths : List Bytes) (graph : DependencyGraph) (name : Bytes)
    (ignore_case : Bool)
    → (IsPlainName name
        × (resolve_new fs search_paths graph name ignore_case ≡ (
            find_in_folders fs graph name ignore_case search_paths >>= λ found.
            ok (entered name ignore_case found))))
      ⊎ ((¬ IsPlainName name)
          × (resolve_new fs search_paths graph name ignore_case
              ≡ ok (entered name ignore_case (graph, none))))
unfolding resolve_new
resolve_new-IsPlainName fs search_paths graph name ignore_case =
    elim (Bool-cases (escapes_search_folders name)) [
      | inl escapes ↦ inr (
        λ plain.
            absurd (ground (arith, escapes, (escapes_search_folders-IsPlainName name).1 plain)),
        rw escapes refl,
      )
      | inr stays ↦ inl ((escapes_search_folders-IsPlainName name).0 stays, rw stays refl)
    ]
