-- ===== src/Deps/Listings.antt =====
-- The candidate for a name in a folder, and the listings of the folders.
use libthe_seed.Prelude.{
  ◌≡◌, ◌<◌, ◌⊎◌, refl, inl, inr, Bool, not, ◌||◌, List, [], ◌∷◌, Option, none, some, ◌==◌, length,
  same_name, same_name_refl, lookup_name, All, All-append, All-mono, Bool-cases, Option-cases,
  arith, any,
}
use libthe_seed.Bounded.Order.{Bytes}
use libthe_seed.Pe.Names.{lower_ascii}
use libthe_seed.Deps.Graph.{Listing, DependencyGraph}
use libthe_seed.Deps.Counting.{Listed, lookup-All}
use libthe_seed.Deps.Resolve.{
  listing_of, folder_matches, candidate_in, insert_name, sort_names, list_entry, group_entries,
  sort_entries, pick_match, name_lt, plain_candidate, matched_candidate,
}
use libthe_seed.Deps.Bounds.{World, key_of, IsFolder, IsGroup, IsListing, IsGraph, length-concat}

-- Every name of a list is listed in it.
Listed-cons :
    (x : Bytes) (names all : List Bytes)
    → All (λ n. Listed n names) all
    → All (λ n. Listed n (x ∷ names)) all
unfolding any
Listed-cons x names all h = All-mono (λ n. Listed n names) all (λ n p. ground (arith, p)) h

Listed-All : (names : List Bytes) → All (λ n. Listed n names) names
unfolding any
Listed-All [] = tt
Listed-All (x ∷ rest) =
    (ground (arith, same_name_refl x), Listed-cons x rest rest (Listed-All rest))

module _ (P : Bytes → Type 0) where
  insert_name-All :
      (name : Bytes) (names : List Bytes) → P name → All P names → All P (insert_name name names)
  unfolding insert_name
  insert_name-All name [] p h = (p, tt)
  insert_name-All name (other ∷ rest) p h = elim (Bool-cases (name_lt other name)) [
    | inl after ↦ rw after (h.0, insert_name-All name rest p h.1)
    | inr before ↦ rw before (p, h)
  ]

  sort_names-All : (names : List Bytes) → All P names → All P (sort_names names)
  unfolding sort_names
  sort_names-All [] h = tt
  sort_names-All (name ∷ rest) h =
      insert_name-All name (sort_names rest) h.0 (sort_names-All rest h.1)

insert_name-pos : (name : Bytes) (names : List Bytes) → 0 < length (insert_name name names)
unfolding insert_name
insert_name-pos name [] = omega arith
insert_name-pos name (other ∷ rest) = ground arith

sort_names-IsGroup :
    (entries group : List Bytes) → IsGroup entries group → IsGroup entries (sort_names group)
unfolding sort_names
sort_names-IsGroup entries [] h = absurd (omega (arith, h.0))
sort_names-IsGroup entries (name ∷ rest) h = (
  insert_name-pos name (sort_names rest),
  sort_names-All (λ n. Listed n entries) (name ∷ rest) h.1,
)

abbrev AreGroups : List Bytes → Listing → Type 0
AreGroups entries listing = All (λ e. IsGroup entries e.1) listing

list_entry-AreGroups :
    (entries : List Bytes) (key real : Bytes) (listing : Listing)
    → Listed real entries
    → AreGroups entries listing
    → AreGroups entries (list_entry key real listing)
unfolding list_entry
list_entry-AreGroups entries key real [] here h = ((omega arith, (here, tt)), tt)
list_entry-AreGroups entries key real ((other, group) ∷ rest) here h =
    elim (Bool-cases (same_name other key)) [
      | inl same ↦ rw same (
        (
          omega (arith, length-concat group real),
          All-append (λ n. Listed n entries) group (real ∷ []) h.0.1 (here, tt),
        ),
        h.1,
      )
      | inr differs ↦ rw differs (h.0, list_entry-AreGroups entries key real rest here h.1)
    ]

group_entries-AreGroups :
    (entries names : List Bytes) (listing : Listing)
    → All (λ n. Listed n entries) names
    → AreGroups entries listing
    → AreGroups entries (group_entries names listing)
unfolding group_entries
group_entries-AreGroups entries [] listing here h = h
group_entries-AreGroups entries (real ∷ rest) listing here h =
    group_entries-AreGroups entries rest (list_entry (lower_ascii real) real listing) here.1
      (list_entry-AreGroups entries (lower_ascii real) real listing here.0 h)

sort_entries-AreGroups :
    (entries : List Bytes) (listing : Listing)
    → AreGroups entries listing
    → AreGroups entries (sort_entries listing)
unfolding sort_entries
sort_entries-AreGroups entries [] h = tt
sort_entries-AreGroups entries ((key, group) ∷ rest) h =
    (sort_names-IsGroup entries group h.0, sort_entries-AreGroups entries rest h.1)

module _ (w : World) where
  -- The nodes and the maps are those of before.
  abbrev pub SameNodes : DependencyGraph → DependencyGraph → Type 0
  SameNodes g g' = IsGraph w g' × (g'.nodes ≡ g.nodes)

  listing_of-SameNodes :
      (g : DependencyGraph) (folder : Bytes)
      → IsGraph w g
      → let r = listing_of w.fs g folder (lookup_name folder g.folder_listings) in
        SameNodes g r.0 × IsListing w folder r.1
  unfolding listing_of
  listing_of-SameNodes g folder h = elim (Option-cases (lookup_name folder g.folder_listings)) [
    | inl new ↦
        let entries = w.fs.list_folder folder in
        let groups =
          sort_entries-AreGroups entries (group_entries entries [])
            (group_entries-AreGroups entries entries [] (Listed-All entries) tt) in
        rw new (
          (
            record {
              keys = h.keys;
              names = h.names;
              exact = h.exact;
              ignoring_case = h.ignoring_case;
              successors = h.successors;
              counted = h.counted;
              distinct_keys = h.distinct_keys;
              known_keys = h.known_keys;
              distinct_names = h.distinct_names;
              known_names = h.known_names;
              refs = h.refs;
              listings = (groups, h.listings);
            },
            refl,
          ),
          groups,
        )
    | inr (listing, known) ↦
        rw known
          ((h, refl), lookup-All (IsListing w) folder g.folder_listings listing h.listings known)
  ]

  plain_candidate-Listed :
      (folder name path : Bytes)
      → IsFolder w folder
      → Listed name w.names
      → plain_candidate w.fs folder name ≡ some path
      → Listed (key_of w.fs path none) w.keys
  plain_candidate-Listed folder name path joined listed e =
      elim (Bool-cases (w.fs.entry_exists (w.fs.join folder name))) [
        | inl exists ↦
            let same : w.fs.join folder name ≡ path = ground (arith, e, exists) in
            rw (← same) (joined name (inl listed))
        | inr absent ↦ absurd (ground (arith, e, absent))
      ]

  pick_match-Listed :
      (folder name : Bytes) (group : List Bytes)
      → Listed name w.names
      → IsGroup (w.fs.list_folder folder) group
      → Listed (pick_match name group) w.names
        ⊎ Listed (pick_match name group) (w.fs.list_folder folder)
  pick_match-Listed folder name [] listed h = absurd (omega (arith, h.0))
  pick_match-Listed folder name (n ∷ group) listed h =
      elim (Bool-cases (any (same_name name) (n ∷ group))) [
        | inl exact ↦ rw exact (inl listed)
        | inr other ↦ rw other (inr h.1.0)
      ]

  matched_candidate-Listed :
      (folder name path : Bytes) (found : Option (List Bytes))
      → IsFolder w folder
      → Listed name w.names
      → ((group : List Bytes) → found ≡ some group → IsGroup (w.fs.list_folder folder) group)
      → matched_candidate w.fs folder name found ≡ some path
      → Listed (key_of w.fs path none) w.keys
  matched_candidate-Listed folder name path none joined listed h e =
      plain_candidate-Listed folder name path joined listed e
  matched_candidate-Listed folder name path (some group) joined listed h e =
      let same : w.fs.join folder (pick_match name group) ≡ path = cc in
      rw (← same)
        (joined (pick_match name group) (pick_match-Listed folder name group listed (h group refl)))

  -- The key of a candidate is one of the world's.
  pub candidate_in-IsCandidate :
      (g : DependencyGraph) (name : Bytes) (ignore_case : Bool) (folder : Bytes)
      → IsGraph w g
      → Listed name w.names
      → IsFolder w folder
      → let r = candidate_in w.fs g name ignore_case folder in
        IsGraph w r.0
        × (r.0.nodes ≡ g.nodes)
        × ((path : Bytes) → r.1 ≡ some path → Listed (key_of w.fs path none) w.keys)
  unfolding candidate_in folder_matches
  candidate_in-IsCandidate g name ignore_case folder h listed joined =
      elim (Bool-cases (length folder == 0 || not (w.fs.is_directory folder))) [
        | inl skipped ↦ rw skipped (h, refl, λ path e. absurd (cc))
        | inr searched ↦ rw searched (elim (Bool-cases ignore_case) [
          | inl any_case ↦
              let ((h', same), listing) = listing_of-SameNodes g folder h in
              let entries = (listing_of w.fs g folder (lookup_name folder g.folder_listings)).1 in
              rw any_case (
                h',
                same,
                λ path e.
                    matched_candidate-Listed folder name path
                      (lookup_name (lower_ascii name) entries) joined listed
                      (λ group found.
                        lookup-All (λ key. IsGroup (w.fs.list_folder folder)) (lower_ascii name)
                          entries group listing found)
                      e,
              )
          | inr exact_case ↦
              rw exact_case
                (h, refl, λ path e. plain_candidate-Listed folder name path joined listed e)
        ])
      ]
