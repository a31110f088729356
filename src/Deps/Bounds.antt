-- ===== src/Deps/Bounds.antt =====
-- Every index in the graph is that of a node, and building the graph neither throws nor leaves it.
use mathlib.Core.List.{append_assoc, append-nil}
use libthe_seed.Prelude.{
  ℕ, suc, ◌+◌, ◌^◌, ◌≡◌, ◌≤◌, ◌<◌, ◌⊎◌, refl, sym, ap, ◌∙◌, inl, inr, List, [], ◌∷◌, ◌++◌, Option,
  none, some, length, length-append, lookup_name, All, All-append, All-mono, Option-cases, arith,
  Returns,
}
use libthe_seed.Bounded.Order.{Bytes, IsByte}
use libthe_seed.Deps.Graph.{
  unresolved, DependencyNode, new_node, Listing, DependencyGraph, FileSystem,
}
use libthe_seed.Deps.Counting.{Listed, Distinct}
use libthe_seed.Deps.Resolve.{push_node, put_unresolved, unresolved_node, read_node, node_key}

-- A file system and search folders, the names recorded in its files, and the keys of the paths that
-- a request can ask for. Both lists are finite, since the file system is.
pub record World : Type 0 where
  pub fs : FileSystem
  pub search_paths : List Bytes
  pub names : List Bytes
  pub keys : List Bytes

abbrev pub key_of : FileSystem → Bytes → Option Bytes → Bytes
key_of fs path known = (node_key fs path known).0

-- A name joined to a folder is one of the names or an entry of the folder.
abbrev pub IsFolder : World → Bytes → Type 0
IsFolder w folder =
    (name : Bytes)
    → Listed name w.names ⊎ Listed name (w.fs.list_folder folder)
    → Listed (key_of w.fs (w.fs.join folder name) none) w.keys

-- A file that is read is a list of bytes that fits in memory, or an exception; `names` and `keys` are
-- all there are.
pub record IsSound (w : World) : Type 0 where
  pub reads :
      (path : Bytes)
      → Returns (λ bytes. All IsByte bytes × (length bytes < 2 ^ 63)) (w.fs.read_file_bytes path)
  pub recorded :
      (path : Bytes) → Returns (λ node. All (λ n. Listed n w.names) node.refs) (read_node w.fs path)
  pub joined : All (IsFolder w) w.search_paths

abbrev pub AreBelow : ℕ → List (Bytes × ℕ) → Type 0
AreBelow n entries = All (λ e. e.1 < n) entries

abbrev pub HasBelow : ℕ → DependencyNode → Type 0
HasBelow n node = All (λ v. v < n) node.successors

-- Spellings of one entry: at least one, each in the folder.
abbrev pub IsGroup : List Bytes → List Bytes → Type 0
IsGroup entries group = (0 < length group) × All (λ n. Listed n entries) group

abbrev pub IsListing : World → Bytes → Listing → Type 0
IsListing w folder listing = All (λ e. IsGroup (w.fs.list_folder folder) e.1) listing

-- Every number that the graph holds is the index of a node; every node has one key or one
-- unresolved name of the world, and no two nodes share it.
pub record IsGraph (w : World) (g : DependencyGraph) : Type 0 where
  pub keys : AreBelow (length g.nodes) g.by_key
  pub names : AreBelow (length g.nodes) g.by_unresolved_name
  pub exact : AreBelow (length g.nodes) g.resolved_exact
  pub ignoring_case : AreBelow (length g.nodes) g.resolved_ignoring_case
  pub successors : All (HasBelow (length g.nodes)) g.nodes
  pub counted : length g.nodes ≡ length g.by_key + length g.by_unresolved_name
  pub distinct_keys : Distinct g.by_key
  pub known_keys : All (λ e. Listed e.0 w.keys) g.by_key
  pub distinct_names : Distinct g.by_unresolved_name
  pub known_names : All (λ e. Listed e.0 w.names) g.by_unresolved_name
  pub refs : All (λ node. All (λ n. Listed n w.names) node.refs) g.nodes
  pub listings : All (λ e. IsListing w e.0 e.1) g.folder_listings

-- Nodes are only added, behind the others.
abbrev pub Extends : DependencyGraph → DependencyGraph → Type 0
Extends g g' = (more : List DependencyNode) × (g'.nodes ≡ g.nodes ++ more)

pub Extends-refl : (g : DependencyGraph) → Extends g g
Extends-refl g = ([], sym (append-nil g.nodes))

pub Extends-trans : (f g h : DependencyGraph) → Extends f g → Extends g h → Extends f h
Extends-trans f g h (a, p) (b, q) = (a ++ b, q ∙ ap (λ x. x ++ b) p ∙ append_assoc f.nodes a b)

pub Extends-le : (g g' : DependencyGraph) → Extends g g' → length g.nodes ≤ length g'.nodes
Extends-le g g' (more, e) = omega (arith, ap length e, length-append g.nodes more)

-- A result that is a graph and the index of one of its nodes.
abbrev pub IsNode : World → DependencyGraph → DependencyGraph × ℕ → Type 0
IsNode w g (g', id) = IsGraph w g' × Extends g g' × (id < length g'.nodes)

pub AreBelow-mono : (n m : ℕ) (es : List (Bytes × ℕ)) → n ≤ m → AreBelow n es → AreBelow m es
AreBelow-mono n m es le h = All-mono (λ e. e.1 < n) es (λ e lt. omega (arith, le, lt)) h

pub HasBelow-mono :
    (n m : ℕ) (nodes : List DependencyNode)
    → n ≤ m
    → All (HasBelow n) nodes
    → All (HasBelow m) nodes
HasBelow-mono n m nodes le h =
    All-mono (HasBelow n) nodes
      (λ node below. All-mono (λ v. v < n) node.successors (λ v lt. omega (arith, le, lt)) below) h

pub lookup-below :
    (n : ℕ) (name : Bytes) (es : List (Bytes × ℕ)) (id : ℕ)
    → AreBelow n es
    → lookup_name name es ≡ some id
    → id < n
unfolding lookup_name
lookup-below n name [] id h e = absurd (cc)
lookup-below n name ((key, i) ∷ rest) id h e = ground (arith, lookup-below n name rest id, h, e)

pub length-concat {ℓ} : {A : Type ℓ} (xs : List A) (x : A) → length (xs ++ x ∷ []) ≡ suc (length xs)
length-concat xs x = omega (arith, length-append xs (x ∷ []))

-- What holds of a graph with one more node, before the node is entered in a map.
pub record IsPushed (w : World) (g : DependencyGraph) (node : DependencyNode) : Type 0 where
  pub grown : suc (length g.nodes) ≡ length (g.nodes ++ node ∷ [])
  pub keys : AreBelow (length (g.nodes ++ node ∷ [])) g.by_key
  pub names : AreBelow (length (g.nodes ++ node ∷ [])) g.by_unresolved_name
  pub exact : AreBelow (length (g.nodes ++ node ∷ [])) g.resolved_exact
  pub ignoring_case : AreBelow (length (g.nodes ++ node ∷ [])) g.resolved_ignoring_case
  pub successors : All (HasBelow (length (g.nodes ++ node ∷ []))) (g.nodes ++ node ∷ [])
  pub refs : All (λ other. All (λ n. Listed n w.names) other.refs) (g.nodes ++ node ∷ [])

module _ {w : World} where
  pub push_node-IsPushed :
      (g : DependencyGraph) (node : DependencyNode)
      → IsGraph w g
      → node.successors ≡ []
      → All (λ n. Listed n w.names) node.refs
      → IsPushed w g node
  push_node-IsPushed g node h e known =
      let n = length (g.nodes ++ node ∷ []) in
      let le : length g.nodes ≤ n = omega (arith, length-concat g.nodes node) in
      record {
        grown = sym (length-concat g.nodes node);
        keys = AreBelow-mono (length g.nodes) n g.by_key le h.keys;
        names = AreBelow-mono (length g.nodes) n g.by_unresolved_name le h.names;
        exact = AreBelow-mono (length g.nodes) n g.resolved_exact le h.exact;
        ignoring_case =
            AreBelow-mono (length g.nodes) n g.resolved_ignoring_case le h.ignoring_case;
        successors =
            All-append (HasBelow n) g.nodes (node ∷ [])
              (HasBelow-mono (length g.nodes) n g.nodes le h.successors) (rw e tt, tt);
        refs =
            All-append (λ other. All (λ n. Listed n w.names) other.refs) g.nodes (node ∷ []) h.refs
              (known, tt);
      }

  pub unresolved_node-IsNode :
      (g : DependencyGraph) (name : Bytes)
      → IsGraph w g
      → Listed name w.names
      → IsNode w g (unresolved_node g name)
  unfolding unresolved_node put_unresolved push_node
  unresolved_node-IsNode g name h listed =
      elim (Option-cases (lookup_name name g.by_unresolved_name)) [
        | inl new ↦
            let node = new_node name unresolved in
            let p = push_node-IsPushed g node h refl tt in
            let last : length g.nodes < length (g.nodes ++ node ∷ []) = omega (arith, p.grown) in
            rw new (
              record {
                keys = p.keys;
                names = (last, p.names);
                exact = p.exact;
                ignoring_case = p.ignoring_case;
                successors = p.successors;
                counted = omega (arith, p.grown, h.counted);
                distinct_keys = h.distinct_keys;
                known_keys = h.known_keys;
                distinct_names = (new, h.distinct_names);
                known_names = (listed, h.known_names);
                refs = p.refs;
                listings = h.listings;
              },
              (node ∷ [], refl),
              last,
            )
        | inr (id, known) ↦ rw known (
          h,
          Extends-refl g,
          lookup-below (length g.nodes) name g.by_unresolved_name id h.names known,
        )
      ]
