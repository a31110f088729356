-- ===== src/Plugins/First.antt =====
-- The first location that holds the file decides, and every location is reported.
use libthe_seed.Prelude.{
  ℕ, suc, ◌≡◌, ◌⊎◌, ◌↔◌, refl, ap, ◌∙◌, inl, inr, List, [], ◌∷◌, ◌++◌, Option, none, some, map, All,
  Option-cases,
}
use libthe_seed.Bounded.Order.{Bytes}
use libthe_seed.Plugins.Search.{
  other_error, no_such_file_or_directory, not_a_directory, Answer, given, failed, FileType, regular,
  directory, other_type, Folders, look_in, look_in_directory, look_at_path, look_at_file, decided,
  unreached, search_from, search_first,
}

module _ (folders : Folders) (file_name : Bytes) where
  -- The location is a folder, and `candidate` is a regular file of that name in it.
  abbrev pub HoldsFile : Bytes → Bytes → Type 0
  HoldsFile location candidate =
      (path : Bytes) × (folders.absolute location ≡ given path)
      × (folders.status path ≡ given directory)
      × (candidate ≡ folders.join path file_name)
      × (folders.status candidate ≡ given regular)

  look_at_file-regular :
      (candidate c : Bytes) (a : Answer FileType)
      → (look_at_file candidate a).candidate ≡ some c
      → (a ≡ given regular) × (c ≡ candidate)
  look_at_file-regular candidate c (given regular) e = (refl, cc)
  look_at_file-regular candidate c (given directory) e = absurd (cc)
  look_at_file-regular candidate c (given other_type) e = absurd (cc)
  look_at_file-regular candidate c (failed (other_error text)) e = absurd (cc)
  look_at_file-regular candidate c (failed no_such_file_or_directory) e = absurd (cc)
  look_at_file-regular candidate c (failed not_a_directory) e = absurd (cc)

  look_in_directory-given :
      (path c : Bytes) (a : Answer FileType)
      → (look_in_directory folders file_name path a).candidate ≡ some c
      → (a ≡ given directory)
        × (c ≡ folders.join path file_name)
        × (folders.status c ≡ given regular)
  look_in_directory-given path c (given directory) e =
      let candidate = folders.join path file_name in
      let (is_regular, same) = look_at_file-regular candidate c (folders.status candidate) e in
      (refl, same, ap folders.status same ∙ is_regular)
  look_in_directory-given path c (given regular) e = absurd (cc)
  look_in_directory-given path c (given other_type) e = absurd (cc)
  look_in_directory-given path c (failed (other_error text)) e = absurd (cc)
  look_in_directory-given path c (failed no_such_file_or_directory) e = absurd (cc)
  look_in_directory-given path c (failed not_a_directory) e = absurd (cc)

  look_at_path-HoldsFile :
      (location c : Bytes) (a : Answer Bytes)
      → folders.absolute location ≡ a
      → (look_at_path folders file_name a).candidate ≡ some c
      → HoldsFile location c
  look_at_path-HoldsFile location c (given path) same e =
      let (is_directory, joined, is_regular) =
        look_in_directory-given path c (folders.status path) e in
      (path, same, is_directory, joined, is_regular)
  look_at_path-HoldsFile location c (failed (other_error text)) same e = absurd (cc)
  look_at_path-HoldsFile location c (failed no_such_file_or_directory) same e = absurd (cc)
  look_at_path-HoldsFile location c (failed not_a_directory) same e = absurd (cc)

  look_in-HoldsFile :
      (location c : Bytes)
      → ((look_in folders file_name location).candidate ≡ some c) ↔ HoldsFile location c
  unfolding look_in
  look_in-HoldsFile location c = (
    look_at_path-HoldsFile location c (folders.absolute location) refl,
    λ (path, is_path, is_directory, joined, is_regular).
        rw (is_path, is_directory, ← joined, is_regular) refl,
  )

  none-HoldsFile :
      (location : Bytes)
      → (look_in folders file_name location).candidate ≡ none
      → (c : Bytes) → ¬ HoldsFile location c
  none-HoldsFile location e c h = let found = (look_in-HoldsFile location c).1 h in cc

  abbrev pub LacksFile : Bytes → Type 0
  LacksFile location = (c : Bytes) → ¬ HoldsFile location c

  -- Nothing is found and no location holds the file, or the first that does decides.
  abbrev pub IsFirst : List Bytes → Option (Bytes × Bytes) → Type 0
  IsFirst locations deciding =
      ((deciding ≡ none) × All LacksFile locations)
      ⊎ ((before : List Bytes) × (location : Bytes) × (after : List Bytes) × (c : Bytes)
          × (locations ≡ before ++ location ∷ after)
          × All LacksFile before
          × HoldsFile location c
          × (deciding ≡ some (decided folders file_name c)))

  IsFirst-later :
      (location : Bytes) (rest : List Bytes) (deciding : Option (Bytes × Bytes))
      → LacksFile location
      → IsFirst rest deciding
      → IsFirst (location ∷ rest) deciding
  IsFirst-later location rest deciding lacks (inl (e, all)) = inl (e, (lacks, all))
  IsFirst-later location rest deciding lacks (inr (before, hit, after, c, splits, all, holds, e)) =
      inr (location ∷ before, hit, after, c, ap (◌∷◌ location) splits, (lacks, all), holds, e)

  paths-unreached :
      (count i : ℕ) (locations : List Bytes)
      → map (λ l. l.path) (unreached folders file_name count i locations) ≡ locations
  unfolding unreached
  paths-unreached count i [] = refl
  paths-unreached count i (location ∷ rest) = ap (◌∷◌ location) (paths-unreached count (suc i) rest)

  search_from-IsFirst :
      (count i : ℕ) (locations : List Bytes)
      → let r = search_from folders file_name count i locations in
        IsFirst locations r.deciding × (map (λ l. l.path) r.locations ≡ locations)
  unfolding search_from
  search_from-IsFirst count i [] = (inl (refl, tt), refl)
  search_from-IsFirst count i (location ∷ rest) =
      elim (Option-cases (look_in folders file_name location).candidate) [
        | inl absent ↦
            let (first_one, paths) = search_from-IsFirst count (suc i) rest in
            rw (absent, search_from)
              (
                IsFirst-later location rest _ (none-HoldsFile location absent) first_one,
                ap (◌∷◌ location) paths,
              )
        | inr (c, here) ↦
            rw (here, search_from)
              (
                inr ([], location, rest, c, refl, tt, (look_in-HoldsFile location c).0 here, refl),
                ap (◌∷◌ location) (paths-unreached count (suc i) rest),
              )
      ]

-- Nothing is found and no location holds the file, or the file is the one in the first location that
-- holds it, whatever the locations behind it hold; and the report names every location, in order.
pub search_first-IsFirst :
    (folders : Folders) (file_name : Bytes) (locations : List Bytes) (configured_count : ℕ)
    → IsFirst folders file_name locations
        (search_first folders locations file_name configured_count).deciding
      × (map (λ l. l.path) (search_first folders locations file_name configured_count).locations
          ≡ locations)
unfolding search_first
search_first-IsFirst folders file_name locations configured_count =
    search_from-IsFirst folders file_name configured_count 0 locations
