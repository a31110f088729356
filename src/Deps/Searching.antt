-- ===== src/Deps/Searching.antt =====
-- The search of src/DependencyLister.cpp through the folders, with its maps, gives each recorded name
-- the node that it resolves to.
use mathlib.Core.List.{append-nil, append_assoc}
use mathlib.Core.Path.{subst}
use libthe_seed.Prelude.{
  ℕ, ◌≡◌, inl, inr, refl, sym, ap, ◌∙◌, Bool, true, false, not, ◌||◌, List, [], ◌∷◌, ◌++◌, Option,
  none, some, ◌==◌, if◌then◌else◌, length, lookup_name, Bool-cases, Option-cases, Outcome, ok,
}
use libthe_seed.Bounded.Order.{Bytes}
use libthe_seed.Pe.Names.{lower_ascii}
use libthe_seed.Deps.Graph.{DependencyNode, DependencyGraph, FileSystem}
use libthe_seed.Deps.Format.{escapes_search_folders}
use libthe_seed.Deps.Counting.{lookup-All}
use libthe_seed.Deps.Bounds.{key_of}
use libthe_seed.Deps.Resolve.{
  unresolved_node, listing_of, folder_matches, candidate_in, matched_candidate, find_in_folders,
  cache_of, put_cache, or_unresolved, resolve_new, resolve_name, resolve_all,
}
use libthe_seed.Deps.Resolution.{
  HasKey, entries_of, candidate, first_candidate, resolution, IsNodeOf, IsTarget, AreTargets,
  IsNodeOf-mono, IsRight, Keeps, Keeps-refl, Keeps-trans,
}
use libthe_seed.Deps.Resolving.{
  Gives, Gives-ok, Gives-bind, IsStep, unresolved_node-IsStep, file_node-IsStep,
}

module _ (fs : FileSystem) (search_paths : List Bytes) where
  listing_of-IsRight :
      (g : DependencyGraph) (folder : Bytes)
      → IsRight fs search_paths g
      → let r = listing_of fs g folder (lookup_name folder g.folder_listings) in
        IsRight fs search_paths r.0 × (r.0.nodes ≡ g.nodes) × (r.1 ≡ entries_of fs folder)
  unfolding listing_of
  listing_of-IsRight g folder h = elim (Option-cases (lookup_name folder g.folder_listings)) [
    | inl new ↦ rw new (
      record {
        keys = h.keys;
        names = h.names;
        exact = h.exact;
        ignoring_case = h.ignoring_case;
        listings = (refl, h.listings);
        read = h.read;
      },
      refl,
      refl,
    )
    | inr (listing, known) ↦ rw known (
      h,
      refl,
      lookup-All (λ key l. l ≡ entries_of fs key) folder g.folder_listings listing h.listings known,
    )
  ]

  candidate_in-candidate :
      (g : DependencyGraph) (name : Bytes) (ignore_case : Bool) (folder : Bytes)
      → IsRight fs search_paths g
      → let r = candidate_in fs g name ignore_case folder in
        IsRight fs search_paths r.0
        × (r.0.nodes ≡ g.nodes)
        × (r.1 ≡ candidate fs name ignore_case folder)
  unfolding candidate_in folder_matches candidate
  candidate_in-candidate g name ignore_case folder h =
      elim (Bool-cases (length folder == 0 || not (fs.is_directory folder))) [
        | inl skipped ↦ rw skipped (h, refl, refl)
        | inr searched ↦ rw searched (elim (Bool-cases ignore_case) [
          | inl any_case ↦
              let (h', same, exact) = listing_of-IsRight g folder h in
              rw any_case (
                h',
                same,
                ap (λ l. matched_candidate fs folder name (lookup_name (lower_ascii name) l)) exact,
              )
          | inr exact_case ↦ rw exact_case (h, refl, refl)
        ])
      ]

  -- What the search found is the node of the candidate.
  abbrev IsFound : List DependencyNode → Option Bytes → Option ℕ → Type 0
  IsFound ns none none = Unit
  IsFound ns none (some id) = ⊥
  IsFound ns (some path) none = ⊥
  IsFound ns (some path) (some id) = HasKey ns (key_of fs path none) id

  -- A step from a graph is one from any graph with its nodes.
  Gives-from {ℓ} :
      {A : Type ℓ} (f g : DependencyGraph) (Q : List DependencyNode → A → Type 0)
      (m : Outcome (DependencyGraph × A))
      → f.nodes ≡ g.nodes
      → Gives (IsStep fs search_paths f Q) m
      → Gives (IsStep fs search_paths g Q) m
  Gives-from f g Q m same gives r e =
      let (h, kept, q) = gives r e in (h, subst (λ ns. Keeps ns r.0.nodes) same kept, q)

  find_in_folders-IsFound :
      (g : DependencyGraph) (name : Bytes) (ignore_case : Bool) (folders : List Bytes)
      → IsRight fs search_paths g
      → Gives
          (IsStep fs search_paths g
            (λ ns found. IsFound ns (first_candidate fs name ignore_case folders) found))
          (find_in_folders fs g name ignore_case folders)
  unfolding find_in_folders first_candidate
  find_in_folders-IsFound g name ignore_case [] h = Gives-ok _ (g, none) (h, Keeps-refl g.nodes, tt)
  find_in_folders-IsFound g name ignore_case (folder ∷ rest) h =
      let step = candidate_in fs g name ignore_case folder in
      let (h', same, here) = candidate_in-candidate g name ignore_case folder h in
      elim (Option-cases step.1) [
        | inl missing ↦
            let absent : candidate fs name ignore_case folder ≡ none = sym here ∙ missing in
            rw (missing, absent, find_in_folders, first_candidate)
              (Gives-from step.0 g
                (λ ns found. IsFound ns (first_candidate fs name ignore_case rest) found) _ same
                (find_in_folders-IsFound step.0 name ignore_case rest h'))
        | inr (path, found) ↦
            let present : candidate fs name ignore_case folder ≡ some path = sym here ∙ found in
            rw (found, present, find_in_folders, first_candidate)
              (Gives-from step.0 g (λ ns found. IsFound ns (some path) found) _ same
                (Gives-bind
                  {P = IsStep fs search_paths step.0 (λ ns id. HasKey ns (key_of fs path none) id)}
                  (IsStep fs search_paths step.0 (λ ns found. IsFound ns (some path) found)) _ _
                  (file_node-IsStep fs search_paths step.0 path none h')
                  λ (g', id) node. Gives-ok _ (g', some id) node))
      ]

  or_unresolved-IsNodeOf :
      (f g : DependencyGraph) (name : Bytes) (path : Option Bytes) (found : Option ℕ)
      → IsStep fs search_paths f (λ ns found. IsFound ns path found) (g, found)
      → IsStep fs search_paths f (λ ns id. IsNodeOf fs ns name path id) (or_unresolved g name found)
  or_unresolved-IsNodeOf f g name none none (h, kept, found) =
      let (h', kept', here) = unresolved_node-IsStep fs search_paths g name h in
      (h', Keeps-trans f.nodes g.nodes (unresolved_node g name).0.nodes kept kept', here)
  or_unresolved-IsNodeOf f g name none (some id) (h, kept, found) = absurd found
  or_unresolved-IsNodeOf f g name (some path) none (h, kept, found) = absurd found
  or_unresolved-IsNodeOf f g name (some path) (some id) step = step

  put_cache-IsRight :
      (g : DependencyGraph) (ignore_case : Bool) (name : Bytes) (id : ℕ)
      → IsRight fs search_paths g
      → IsTarget fs search_paths g.nodes ignore_case name id
      → IsRight fs search_paths (put_cache g ignore_case name id)
  put_cache-IsRight g true name id h here = record {
    keys = h.keys;
    names = h.names;
    exact = h.exact;
    ignoring_case = (here, h.ignoring_case);
    listings = h.listings;
    read = h.read;
  }
  put_cache-IsRight g false name id h here = record {
    keys = h.keys;
    names = h.names;
    exact = (here, h.exact);
    ignoring_case = h.ignoring_case;
    listings = h.listings;
    read = h.read;
  }

  cached-IsTarget :
      (g : DependencyGraph) (ignore_case : Bool) (name : Bytes) (id : ℕ)
      → IsRight fs search_paths g
      → lookup_name name (cache_of g ignore_case) ≡ some id
      → IsTarget fs search_paths g.nodes ignore_case name id
  cached-IsTarget g true name id h e =
      lookup-All (IsTarget fs search_paths g.nodes true) name g.resolved_ignoring_case id
        h.ignoring_case e
  cached-IsTarget g false name id h e =
      lookup-All (IsTarget fs search_paths g.nodes false) name g.resolved_exact id h.exact e

  -- The search, or none for a name that is never joined to a folder.
  searched-IsFound :
      (g : DependencyGraph) (name : Bytes) (ignore_case : Bool)
      → IsRight fs search_paths g
      → Gives
          (IsStep fs search_paths g
            (λ ns found. IsFound ns (resolution fs search_paths ignore_case name) found))
          (if escapes_search_folders name
            then ok (g, none)
            else find_in_folders fs g name ignore_case search_paths)
  unfolding resolution
  searched-IsFound g name ignore_case h = elim (Bool-cases (escapes_search_folders name)) [
    | inl escapes ↦ rw escapes (Gives-ok _ (g, none) (h, Keeps-refl g.nodes, tt))
    | inr stays ↦ rw stays (find_in_folders-IsFound g name ignore_case search_paths h)
  ]

  resolve_new-IsTarget :
      (g : DependencyGraph) (name : Bytes) (ignore_case : Bool)
      → IsRight fs search_paths g
      → Gives
          (IsStep fs search_paths g (λ ns id. IsTarget fs search_paths ns ignore_case name id))
          (resolve_new fs search_paths g name ignore_case)
  unfolding resolve_new
  resolve_new-IsTarget g name ignore_case h =
      let path = resolution fs search_paths ignore_case name in
      Gives-bind {P = IsStep fs search_paths g (λ ns found. IsFound ns path found)} _ _ _
        (searched-IsFound g name ignore_case h)
        λ (g', found) step.
          let (h', kept, here) = or_unresolved-IsNodeOf g g' name path found step in
          Gives-ok _ _ (
            put_cache-IsRight (or_unresolved g' name found).0 ignore_case name
                (or_unresolved g' name found).1 h' here,
            kept,
            here,
          )

  resolve_name-IsTarget :
      (g : DependencyGraph) (name : Bytes) (ignore_case : Bool)
      → IsRight fs search_paths g
      → Gives
          (IsStep fs search_paths g (λ ns id. IsTarget fs search_paths ns ignore_case name id))
          (resolve_name fs search_paths g name ignore_case)
  unfolding resolve_name
  resolve_name-IsTarget g name ignore_case h =
      elim (Option-cases (lookup_name name (cache_of g ignore_case))) [
        | inl new ↦ rw (new, resolve_name) (resolve_new-IsTarget g name ignore_case h)
        | inr (id, known) ↦
            rw (known, resolve_name)
              (Gives-ok _ (g, id)
                (h, Keeps-refl g.nodes, cached-IsTarget g ignore_case name id h known))
      ]

  -- The names of a node, behind the successors found before them.
  pub resolve_all-AreTargets :
      (g : DependencyGraph) (ignore_case : Bool) (names : List Bytes) (before : List ℕ)
      → IsRight fs search_paths g
      → Gives
          (IsStep fs search_paths g (λ ns ids.
            (more : List ℕ) × (ids ≡ before ++ more)
            × AreTargets fs search_paths ns ignore_case names more))
          (resolve_all fs search_paths g ignore_case names before)
  unfolding resolve_all
  resolve_all-AreTargets g ignore_case [] before h =
      Gives-ok _ (g, before) (h, Keeps-refl g.nodes, ([], sym (append-nil before), tt))
  resolve_all-AreTargets g ignore_case (name ∷ rest) before h =
      Gives-bind
        {P = IsStep fs search_paths g (λ ns id. IsTarget fs search_paths ns ignore_case name id)} _
        _ _ (resolve_name-IsTarget g name ignore_case h)
        λ (g', id) (h', kept, here) r done.
          let (h'', kept', (more, e, targets)) =
            resolve_all-AreTargets g' ignore_case rest (before ++ id ∷ []) h' r done in
          (
            h'',
            Keeps-trans g.nodes g'.nodes r.0.nodes kept kept',
            (
              id ∷ more,
              e ∙ append_assoc before (id ∷ []) more,
              (
                IsNodeOf-mono kept' fs name (resolution fs search_paths ignore_case name) id here,
                targets,
              ),
            ),
          )
