-- ===== src/Deps/Building.antt =====
-- Every step of building the graph returns and keeps its indices in bounds.
use mathlib.Core.List.{append-nil}
use libthe_seed.Prelude.{
  ℕ, ◌<◌, sym, ◌∙◌, inl, inr, Bool, true, false, List, [], ◌∷◌, ◌++◌, Option, none, some,
  if◌then◌else◌, length, lookup_name, All, All-append, All-mono, Bool-cases, Option-cases, arith,
  ok, Succeeds, Succeeds-bind, Succeeds-ok,
}
use libthe_seed.Bounded.Order.{Bytes}
use libthe_seed.Deps.Graph.{DependencyGraph}
use libthe_seed.Deps.Counting.{Listed}
use libthe_seed.Deps.Format.{escapes_search_folders}
use libthe_seed.Deps.Resolve.{
  candidate_in, find_in_folders, cache_of, put_cache, unresolved_node, or_unresolved, resolve_new,
  resolve_name, resolve_all,
}
use libthe_seed.Deps.Bounds.{
  World, IsFolder, IsSound, AreBelow, IsGraph, Extends, Extends-refl, Extends-trans, Extends-le,
  IsNode, lookup-below, unresolved_node-IsNode,
}
use libthe_seed.Deps.Opening.{file_node-Succeeds}
use libthe_seed.Deps.Listings.{candidate_in-IsCandidate}

abbrev IsNodeFound : World → DependencyGraph → DependencyGraph × Option ℕ → Type 0
IsNodeFound w g (g', none) = IsGraph w g' × Extends g g'
IsNodeFound w g (g', some id) = IsNode w g (g', id)

abbrev pub AreNodes : World → DependencyGraph → DependencyGraph × List ℕ → Type 0
AreNodes w g (g', ids) = IsGraph w g' × Extends g g' × All (λ id. id < length g'.nodes) ids

IsNodeFound-after :
    (w : World) (f g : DependencyGraph) (r : DependencyGraph × Option ℕ)
    → Extends f g
    → IsNodeFound w g r
    → IsNodeFound w f r
IsNodeFound-after w f g (g', none) e (h, e') = (h, Extends-trans f g g' e e')
IsNodeFound-after w f g (g', some id) e (h, e', lt) = (h, Extends-trans f g g' e e', lt)

module _ {w : World} (sound : IsSound w) where
  find_in_folders-Succeeds :
      (g : DependencyGraph) (name : Bytes) (ignore_case : Bool) (folders : List Bytes)
      → IsGraph w g
      → Listed name w.names
      → All (IsFolder w) folders
      → Succeeds (IsNodeFound w g) (find_in_folders w.fs g name ignore_case folders)
  unfolding find_in_folders
  find_in_folders-Succeeds g name ignore_case [] h listed joined = Succeeds-ok _ (h, Extends-refl g)
  find_in_folders-Succeeds g name ignore_case (folder ∷ rest) h listed joined =
      let step = candidate_in w.fs g name ignore_case folder in
      let (h', same, candidate) =
        candidate_in-IsCandidate w g name ignore_case folder h listed joined.0 in
      let first_step : Extends g step.0 = ([], same ∙ sym (append-nil g.nodes)) in
      elim (Option-cases step.1) [
        | inl missing ↦
            let (r, e, found) =
              find_in_folders-Succeeds step.0 name ignore_case rest h' listed joined.1 in
            rw (missing, find_in_folders) (r, e, IsNodeFound-after w g step.0 r first_step found)
        | inr (path, here) ↦
            rw (here, find_in_folders)
              (Succeeds-bind _ (file_node-Succeeds sound step.0 path none h' (candidate path here))
                λ (g', id) node.
                  Succeeds-ok _ (IsNodeFound-after w g step.0 (g', some id) first_step node))
      ]

put_cache-IsGraph :
    (w : World) (g : DependencyGraph) (ignore_case : Bool) (name : Bytes) (id : ℕ)
    → IsGraph w g
    → id < length g.nodes
    → IsGraph w (put_cache g ignore_case name id)
put_cache-IsGraph w g true name id h lt = record {
  keys = h.keys;
  names = h.names;
  exact = h.exact;
  ignoring_case = (lt, h.ignoring_case);
  successors = h.successors;
  counted = h.counted;
  distinct_keys = h.distinct_keys;
  known_keys = h.known_keys;
  distinct_names = h.distinct_names;
  known_names = h.known_names;
  refs = h.refs;
  listings = h.listings;
}
put_cache-IsGraph w g false name id h lt = record {
  keys = h.keys;
  names = h.names;
  exact = (lt, h.exact);
  ignoring_case = h.ignoring_case;
  successors = h.successors;
  counted = h.counted;
  distinct_keys = h.distinct_keys;
  known_keys = h.known_keys;
  distinct_names = h.distinct_names;
  known_names = h.known_names;
  refs = h.refs;
  listings = h.listings;
}

or_unresolved-IsNode :
    (w : World) (f g : DependencyGraph) (name : Bytes) (found : Option ℕ)
    → Listed name w.names
    → IsNodeFound w f (g, found)
    → IsNode w f (or_unresolved g name found)
or_unresolved-IsNode w f g name (some id) listed h = h
or_unresolved-IsNode w f g name none listed (h, e) =
    let (h', e', lt) = unresolved_node-IsNode g name h listed in
    (h', Extends-trans f g (unresolved_node g name).0 e e', lt)

cache_of-below :
    (w : World) (g : DependencyGraph) (ignore_case : Bool)
    → IsGraph w g
    → AreBelow (length g.nodes) (cache_of g ignore_case)
cache_of-below w g true h = h.ignoring_case
cache_of-below w g false h = h.exact

module _ {w : World} (sound : IsSound w) where
  resolve_new-Succeeds :
      (g : DependencyGraph) (name : Bytes) (ignore_case : Bool)
      → IsGraph w g
      → Listed name w.names
      → Succeeds (IsNode w g) (resolve_new w.fs w.search_paths g name ignore_case)
  unfolding resolve_new
  resolve_new-Succeeds g name ignore_case h listed =
      Succeeds-bind {P = IsNodeFound w g} _ searched λ (g', found) node.
        let (h', e, lt) = or_unresolved-IsNode w g g' name found listed node in
        Succeeds-ok _ (
          put_cache-IsGraph w (or_unresolved g' name found).0 ignore_case name
              (or_unresolved g' name found).1 h' lt,
          e,
          lt,
        )
    where
      searched : Succeeds (IsNodeFound w g) (
          if escapes_search_folders name
          then ok (g, none)
          else find_in_folders w.fs g name ignore_case w.search_paths)
      searched = elim (Bool-cases (escapes_search_folders name)) [
        | inl escapes ↦ rw escapes (Succeeds-ok _ (h, Extends-refl g))
        | inr plain ↦
            rw plain (
              find_in_folders-Succeeds sound g name ignore_case w.search_paths h listed
                sound.joined)
      ]

  resolve_name-Succeeds :
      (g : DependencyGraph) (name : Bytes) (ignore_case : Bool)
      → IsGraph w g
      → Listed name w.names
      → Succeeds (IsNode w g) (resolve_name w.fs w.search_paths g name ignore_case)
  unfolding resolve_name
  resolve_name-Succeeds g name ignore_case h listed =
      elim (Option-cases (lookup_name name (cache_of g ignore_case))) [
        | inl new ↦ rw (new, resolve_name) (resolve_new-Succeeds g name ignore_case h listed)
        | inr (id, known) ↦
            rw (known, resolve_name)
              (Succeeds-ok _ (
                h,
                Extends-refl g,
                lookup-below (length g.nodes) name (cache_of g ignore_case) id
                    (cache_of-below w g ignore_case h) known,
              ))
      ]

  pub resolve_all-Succeeds :
      (g : DependencyGraph) (ignore_case : Bool) (names : List Bytes) (ids : List ℕ)
      → IsGraph w g
      → All (λ n. Listed n w.names) names
      → All (λ id. id < length g.nodes) ids
      → Succeeds (AreNodes w g) (resolve_all w.fs w.search_paths g ignore_case names ids)
  unfolding resolve_all
  resolve_all-Succeeds g ignore_case [] ids h known below = Succeeds-ok _ (h, Extends-refl g, below)
  resolve_all-Succeeds g ignore_case (name ∷ rest) ids h known below =
      Succeeds-bind _ (resolve_name-Succeeds g name ignore_case h known.0) λ (g', id) (h', e, lt).
        let (r, done, (h'', e', below')) =
          resolve_all-Succeeds g' ignore_case rest (ids ++ id ∷ []) h' known.1 (
            All-append (λ v. v < length g'.nodes) ids (id ∷ [])
              (All-mono (λ v. v < length g.nodes) ids
                (λ v small. omega (arith, small, Extends-le g g' e)) below)
              (lt, tt)) in
        (r, done, (h'', Extends-trans g g' r.0 e e', below'))
