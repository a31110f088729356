-- ===== src/Deps/Resolution.antt =====
-- What src/DependencyLister.cpp means a recorded name to resolve to, without its maps: the first
-- search folder with a candidate, and the node of the file or of the unresolved name.
use libthe_seed.Prelude.{
  ℕ, ◌≡◌, ◌≤◌, ◌<◌, ◌⊎◌, inl, inr, refl, ◌∙◌, Bool, true, false, not, ◌||◌, List, [], ◌∷◌, Option,
  none, some, ◌==◌, if◌then◌else◌, length, get_or, lookup_name, arith, ok, All, All-mono,
}
use libthe_seed.Bounded.Order.{Bytes}
use libthe_seed.Pe.Names.{lower_ascii}
use libthe_seed.Deps.Graph.{
  NodeStatus, unresolved, DependencyNode, new_node, Listing, DependencyGraph, FileSystem, Reason,
}
use libthe_seed.Deps.Format.{escapes_search_folders}
use libthe_seed.Deps.Resolve.{
  group_entries, sort_entries, matched_candidate, plain_candidate, fresh_node, node_key, is_parsed,
  is_pe,
}
use libthe_seed.Deps.Report.{Input, is_unreadable}
use libthe_seed.Deps.Bounds.{key_of}

abbrev pub node_in : List DependencyNode → ℕ → DependencyNode
node_in ns v = get_or ns v (new_node [] unresolved)

abbrev pub is_unresolved : NodeStatus → Bool
is_unresolved unresolved = true
is_unresolved _ = false

-- The index is that of a file's node with the key.
abbrev pub HasKey : List DependencyNode → Bytes → ℕ → Type 0
HasKey ns key id =
    (id < length ns) × ((node_in ns id).key ≡ key) × (is_unresolved (node_in ns id).status ≡ false)

-- The index is that of the node of an unresolved name.
abbrev pub HasName : List DependencyNode → Bytes → ℕ → Type 0
HasName ns name id =
    (id < length ns) × ((node_in ns id).key ≡ name) × (is_unresolved (node_in ns id).status ≡ true)

-- The listing of a folder, made from its entries.
abbrev pub entries_of : FileSystem → Bytes → Listing
entries_of fs folder = sort_entries (group_entries (fs.list_folder folder) [])

-- The candidate for a name in a folder, if any.
unfoldable pub candidate : FileSystem → Bytes → Bool → Bytes → Option Bytes
candidate fs name ignore_case folder =
    if length folder == 0 || not (fs.is_directory folder)
    then none
    else if ignore_case
    then matched_candidate fs folder name (lookup_name (lower_ascii name) (entries_of fs folder))
    else plain_candidate fs folder name

-- The candidate in the first folder that has one.
unfoldable pub first_candidate : FileSystem → Bytes → Bool → List Bytes → Option Bytes
first_candidate fs name ignore_case [] = none
first_candidate fs name ignore_case (folder ∷ rest) = elim (candidate fs name ignore_case folder) [
  | none ↦ first_candidate fs name ignore_case rest
  | some path ↦ some path
]

-- The path that a recorded name resolves to, if any.
unfoldable pub resolution : FileSystem → List Bytes → Bool → Bytes → Option Bytes
resolution fs search_paths ignore_case name =
    if escapes_search_folders name then none else first_candidate fs name ignore_case search_paths

-- The index is that of the node for the path, or for the unresolved name.
abbrev pub IsNodeOf : FileSystem → List DependencyNode → Bytes → Option Bytes → ℕ → Type 0
IsNodeOf fs ns name none id = HasName ns name id
IsNodeOf fs ns name (some path) id = HasKey ns (key_of fs path none) id

abbrev pub IsTarget : FileSystem → List Bytes → List DependencyNode → Bool → Bytes → ℕ → Type 0
IsTarget fs search_paths ns ignore_case name id =
    IsNodeOf fs ns name (resolution fs search_paths ignore_case name) id

-- Each name has its target, in order.
abbrev pub AreTargets :
    FileSystem → List Bytes → List DependencyNode → Bool → List Bytes → List ℕ → Type 0
AreTargets fs search_paths ns ignore_case [] [] = Unit
AreTargets fs search_paths ns ignore_case [] (id ∷ ids) = ⊥
AreTargets fs search_paths ns ignore_case (name ∷ names) [] = ⊥
AreTargets fs search_paths ns ignore_case (name ∷ names) (id ∷ ids) =
    IsTarget fs search_paths ns ignore_case name id
    × AreTargets fs search_paths ns ignore_case names ids

-- Each input has its node, in order, and the errors are those of the inputs whose node is unreadable.
abbrev pub AreInputNodes :
    FileSystem → List DependencyNode → List Input → List ℕ → List (Bytes × Reason) → Type 0
AreInputNodes fs ns [] [] errors = errors ≡ []
AreInputNodes fs ns [] (id ∷ ids) errors = ⊥
AreInputNodes fs ns (input ∷ inputs) [] errors = ⊥
AreInputNodes fs ns (input ∷ inputs) (id ∷ ids) errors =
    HasKey ns (key_of fs input.spelling input.canonical) id
    × (rest : List (Bytes × Reason)) × (errors ≡ (
        if is_unreadable (node_in ns id).status
        then (input.spelling, (node_in ns id).reason) ∷ rest
        else rest))
    × AreInputNodes fs ns inputs ids rest

-- What no step changes in a node.
pub record SameNode (a b : DependencyNode) : Type 0 where
  pub key : b.key ≡ a.key
  pub status : b.status ≡ a.status
  pub format : b.format ≡ a.format
  pub reason : b.reason ≡ a.reason

pub SameNode-trans : {a b c : DependencyNode} → SameNode a b → SameNode b c → SameNode a c
SameNode-trans p q = record {
  key = q.key ∙ p.key;
  status = q.status ∙ p.status;
  format = q.format ∙ p.format;
  reason = q.reason ∙ p.reason;
}

-- `original` is what opening a path gives, and the node has its key, status, format and reason.
abbrev pub IsSource : FileSystem → DependencyNode → DependencyNode → Type 0
IsSource fs node original =
    (path : Bytes) × (known : Option Bytes) × (fresh_node fs path (node_key fs path known)
      ≡ ok original)
    × SameNode original node

-- A node of a file that waits with the names of the file, and has no successors.
abbrev pub IsWaiting : DependencyNode → DependencyNode → Type 0
IsWaiting node original =
    (node.expanded ≡ false) × (node.refs ≡ original.refs) × (node.successors ≡ [])

-- A parsed node whose successors are the targets of the names in the file.
abbrev pub HasTargets :
    FileSystem → List Bytes → List DependencyNode → DependencyNode → DependencyNode → Type 0
HasTargets fs search_paths ns node original =
    (is_parsed node.status ≡ true)
    × (node.expanded ≡ true)
    × AreTargets fs search_paths ns (is_pe node.format) original.refs node.successors

-- The node of an unresolved name, or of a file.
abbrev pub IsRead : FileSystem → List Bytes → List DependencyNode → DependencyNode → Type 0
IsRead fs search_paths ns node =
    ((is_unresolved node.status ≡ true) × (node.successors ≡ []))
    ⊎ ((original : DependencyNode) × IsSource fs node original
        × (IsWaiting node original ⊎ HasTargets fs search_paths ns node original))

-- Every entry of the maps and every node is right.
pub record IsRight (fs : FileSystem) (search_paths : List Bytes) (g : DependencyGraph)
    : Type 0 where
  pub keys : All (λ e. HasKey g.nodes e.0 e.1) g.by_key
  pub names : All (λ e. HasName g.nodes e.0 e.1) g.by_unresolved_name
  pub exact : All (λ e. IsTarget fs search_paths g.nodes false e.0 e.1) g.resolved_exact
  pub ignoring_case :
      All (λ e. IsTarget fs search_paths g.nodes true e.0 e.1) g.resolved_ignoring_case
  pub listings : All (λ e. e.1 ≡ entries_of fs e.0) g.folder_listings
  pub read : (v : ℕ) → v < length g.nodes → IsRead fs search_paths g.nodes (node_in g.nodes v)

pub record Keeps (xs ys : List DependencyNode) : Type 0 where
  pub le : length xs ≤ length ys
  pub same : (v : ℕ) → v < length xs → SameNode (node_in xs v) (node_in ys v)

pub Keeps-refl : (xs : List DependencyNode) → Keeps xs xs
Keeps-refl xs = record {
  le = omega arith;
  same = λ v lt. record { key = refl; status = refl; format = refl; reason = refl };
}

pub Keeps-trans : (xs ys zs : List DependencyNode) → Keeps xs ys → Keeps ys zs → Keeps xs zs
Keeps-trans xs ys zs a b = record {
  le = omega (arith, a.le, b.le);
  same = λ v lt. SameNode-trans (a.same v lt) (b.same v (omega (arith, lt, a.le)));
}

module _ {xs ys : List DependencyNode} (kept : Keeps xs ys) where
  pub HasKey-mono : (key : Bytes) (id : ℕ) → HasKey xs key id → HasKey ys key id
  HasKey-mono key id (lt, e, file) =
      let s = kept.same id lt in (omega (arith, lt, kept.le), s.key ∙ e, rw s.status file)

  HasName-mono : (name : Bytes) (id : ℕ) → HasName xs name id → HasName ys name id
  HasName-mono name id (lt, e, gone) =
      let s = kept.same id lt in (omega (arith, lt, kept.le), s.key ∙ e, rw s.status gone)

  pub IsNodeOf-mono :
      (fs : FileSystem) (name : Bytes) (path : Option Bytes) (id : ℕ)
      → IsNodeOf fs xs name path id
      → IsNodeOf fs ys name path id
  IsNodeOf-mono fs name none id h = HasName-mono name id h
  IsNodeOf-mono fs name (some path) id h = HasKey-mono (key_of fs path none) id h

  pub AreInputNodes-mono :
      (fs : FileSystem) (inputs : List Input) (ids : List ℕ) (errors : List (Bytes × Reason))
      → AreInputNodes fs xs inputs ids errors
      → AreInputNodes fs ys inputs ids errors
  AreInputNodes-mono fs [] [] errors h = h
  AreInputNodes-mono fs [] (id ∷ ids) errors h = h
  AreInputNodes-mono fs (input ∷ inputs) [] errors h = h
  AreInputNodes-mono fs (input ∷ inputs) (id ∷ ids) errors (here, rest, e, more) =
      let s = kept.same id here.0 in
      (
        HasKey-mono (key_of fs input.spelling input.canonical) id here,
        rest,
        rw (s.status, s.reason) e,
        AreInputNodes-mono fs inputs ids rest more,
      )

  module _ (fs : FileSystem) (search_paths : List Bytes) where
    pub AreTargets-mono :
        (ignore_case : Bool) (names : List Bytes) (ids : List ℕ)
        → AreTargets fs search_paths xs ignore_case names ids
        → AreTargets fs search_paths ys ignore_case names ids
    AreTargets-mono ignore_case [] [] h = h
    AreTargets-mono ignore_case [] (id ∷ ids) h = h
    AreTargets-mono ignore_case (name ∷ names) [] h = h
    AreTargets-mono ignore_case (name ∷ names) (id ∷ ids) h = (
      IsNodeOf-mono fs name (resolution fs search_paths ignore_case name) id h.0,
      AreTargets-mono ignore_case names ids h.1,
    )

    pub IsRead-mono :
        (node : DependencyNode) → IsRead fs search_paths xs node → IsRead fs search_paths ys node
    IsRead-mono node (inl name) = inl name
    IsRead-mono node (inr (original, source, inl waits)) = inr (original, source, inl waits)
    IsRead-mono node (inr (original, source, inr (ready, done, targets))) = inr (
      original,
      source,
      inr (ready, done, AreTargets-mono (is_pe node.format) original.refs node.successors targets),
    )

    pub AreKeys-mono :
        (es : List (Bytes × ℕ)) → All (λ e. HasKey xs e.0 e.1) es → All (λ e. HasKey ys e.0 e.1) es
    AreKeys-mono es h = All-mono (λ e. HasKey xs e.0 e.1) es (λ e p. HasKey-mono e.0 e.1 p) h

    pub AreNames-mono :
        (es : List (Bytes × ℕ))
        → All (λ e. HasName xs e.0 e.1) es
        → All (λ e. HasName ys e.0 e.1) es
    AreNames-mono es h = All-mono (λ e. HasName xs e.0 e.1) es (λ e p. HasName-mono e.0 e.1 p) h

    pub AreCached-mono :
        (ignore_case : Bool) (es : List (Bytes × ℕ))
        → All (λ e. IsTarget fs search_paths xs ignore_case e.0 e.1) es
        → All (λ e. IsTarget fs search_paths ys ignore_case e.0 e.1) es
    AreCached-mono ignore_case es h =
        All-mono (λ e. IsTarget fs search_paths xs ignore_case e.0 e.1) es
          (λ e p. IsNodeOf-mono fs e.0 (resolution fs search_paths ignore_case e.0) e.1 p) h
