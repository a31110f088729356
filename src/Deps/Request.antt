-- ===== src/Deps/Request.antt =====
-- A whole request: what ListDependencies of src/DependencyLister.cpp returns.
use libthe_seed.Prelude.{
  ℕ, suc, ◌+◌, ◌⊎◌, inl, inr, ap, true, false, Outcome, ◌≡◌, ◌≤◌, ◌<◌, refl, List, [], ◌∷◌, ◌++◌,
  Option, some, length, get_or, All, All-append, All-mono, arith, Succeeds, Succeeds-bind,
  Succeeds-ok,
}
use libthe_seed.Bounded.Order.{Bytes}
use libthe_seed.Deps.Graph.{
  unresolved, new_node, DependencyNode, DependencyGraph, FileSystem, empty_graph, Reason,
}
use libthe_seed.Deps.Report.{
  Input, normalise_inputs, input_nodes, expand_nodes, successors_of, DependencyResult, result_of,
  credit_graph, list_all_dependencies,
}
use libthe_seed.Deps.Credits.{u32_mod, Marks}
use libthe_seed.Deps.Reach.{IsCredit}
use libthe_seed.Deps.Walked.{InBounds}
use libthe_seed.Deps.Credited.{credit_nodes_correct}
use libthe_seed.Deps.Resolve.{node_at, is_parsed}
use libthe_seed.Deps.Resolution.{
  is_unresolved, AreInputNodes, AreInputNodes-mono, IsSource, HasTargets, IsRead, IsRight,
}
use libthe_seed.Deps.Resolving.{Gives}
use libthe_seed.Deps.Expanding.{IsGrown, input_nodes-AreInputNodes, expand_nodes-IsGrown}
use libthe_seed.Deps.Counting.{Listed}
use libthe_seed.Deps.Bounds.{World, key_of, IsSound, HasBelow, IsGraph, Extends-le}
use libthe_seed.Deps.Opening.{file_node-Succeeds}
use libthe_seed.Deps.Complete.{IsDone, All-get_or, IsFinished, expand_nodes-Succeeds}

-- The graph and the nodes of the inputs.
abbrev AreInputs : World → DependencyGraph × List ℕ × List (Bytes × Reason) → Type 0
AreInputs w (g, nodes, errors) = IsGraph w g × All (λ id. id < length g.nodes) nodes

input_nodes-Succeeds :
    {w : World} (sound : IsSound w) (g : DependencyGraph) (inputs : List Input) (nodes : List ℕ)
    (errors : List (Bytes × Reason))
    → IsGraph w g
    → All (λ i. Listed (key_of w.fs i.spelling i.canonical) w.keys) inputs
    → All (λ id. id < length g.nodes) nodes
    → Succeeds (AreInputs w) (input_nodes w.fs g inputs nodes errors)
unfolding input_nodes
input_nodes-Succeeds sound g [] nodes errors h known below = Succeeds-ok _ (h, below)
input_nodes-Succeeds sound g (input ∷ rest) nodes errors h known below =
    Succeeds-bind _ (file_node-Succeeds sound g input.spelling input.canonical h known.0)
      λ (g', id) (h', e, lt). input_nodes-Succeeds sound g' rest (nodes ++ id ∷ []) _ h' known.1 (
        All-append (λ v. v < length g'.nodes) nodes (id ∷ [])
          (All-mono (λ v. v < length g.nodes) nodes
            (λ v small. omega (arith, small, Extends-le g g' e)) below)
          (lt, tt))

empty-IsGraph : (w : World) → IsGraph w empty_graph
empty-IsGraph w = record {
  keys = tt;
  names = tt;
  exact = tt;
  ignoring_case = tt;
  successors = tt;
  counted = refl;
  distinct_keys = tt;
  known_keys = tt;
  distinct_names = tt;
  known_names = tt;
  refs = tt;
  listings = tt;
}

successors_of-InBounds :
    (w : World) (g : DependencyGraph) → IsGraph w g → InBounds (successors_of g) (length g.nodes)
successors_of-InBounds w g h v lt =
    All-get_or (HasBelow (length g.nodes)) g.nodes v (new_node [] unresolved) h.successors tt

empty-IsRight : (fs : FileSystem) (search_paths : List Bytes) → IsRight fs search_paths empty_graph
empty-IsRight fs search_paths = record {
  keys = tt;
  names = tt;
  exact = tt;
  ignoring_case = tt;
  listings = tt;
  read = λ v lt. absurd (omega (arith, lt));
}

-- A node when the graph is finished: that of an unresolved name, or what opening a file gave, and the
-- successors of a parsed file are the targets of the names recorded in it. No other has successors.
abbrev pub IsSettled : World → DependencyGraph → DependencyNode → Type 0
IsSettled w graph node =
    ((is_unresolved node.status ≡ true) × (node.successors ≡ []))
    ⊎ ((original : DependencyNode) × IsSource w.fs node original
        × (((is_parsed node.status ≡ false) × (node.successors ≡ []))
            ⊎ HasTargets w.fs w.search_paths graph.nodes node original))

IsRead-IsSettled :
    (w : World) (graph : DependencyGraph) (node : DependencyNode)
    → IsRead w.fs w.search_paths graph.nodes node
    → IsDone node
    → IsSettled w graph node
IsRead-IsSettled w graph node (inl name) done = inl name
IsRead-IsSettled w graph node (inr (original, source, inl (closed, refs, bare))) done =
    inr (original, source, inl (ground (arith, closed, done), bare))
IsRead-IsSettled w graph node (inr (original, source, inr targets)) done =
    inr (original, source, inr targets)

-- What the result is made of: the nodes and errors of the inputs, a graph that is settled, and for
-- each node the numbers of the inputs that reach it.
abbrev pub IsAnswer : World → List Input → Option DependencyResult → Type 0
IsAnswer w inputs result =
    (graph : DependencyGraph) × (nodes : List ℕ) × (errors : List (Bytes × Reason)) × (m : Marks)
    × (result ≡ some (result_of inputs errors graph m))
    × IsGraph w graph
    × AreInputNodes w.fs graph.nodes inputs nodes errors
    × ((v : ℕ) → v < length graph.nodes → IsSettled w graph (node_at graph v))
    × ((v : ℕ) → IsCredit (successors_of graph) v 0 nodes (get_or m.credits v []))

length-AreInputNodes :
    (fs : FileSystem) (ns : List DependencyNode) (inputs : List Input) (ids : List ℕ)
    (errors : List (Bytes × Reason))
    → AreInputNodes fs ns inputs ids errors
    → length ids ≡ length inputs
length-AreInputNodes fs ns [] [] errors h = refl
length-AreInputNodes fs ns [] (id ∷ ids) errors h = absurd h
length-AreInputNodes fs ns (input ∷ inputs) [] errors h = absurd h
length-AreInputNodes fs ns (input ∷ inputs) (id ∷ ids) errors (here, rest, e, more) =
    ap suc (length-AreInputNodes fs ns inputs ids rest more)

-- Both what a call that returns gives and what every value it gives is.
Succeeds-Gives {ℓ} :
    {A : Type ℓ} {P Q : A → Type 0} (m : Outcome A)
    → Succeeds P m
    → Gives Q m
    → Succeeds (λ a. P a × Q a) m
Succeeds-Gives m (a, e, p) g = (a, e, (p, g a e))

credit_graph-Succeeds :
    (w : World) (g : DependencyGraph) (inputs : List Input) (nodes : List ℕ)
    (errors : List (Bytes × Reason)) (expanded : Option DependencyGraph)
    → length inputs < u32_mod
    → All (λ id. id < length g.nodes) nodes
    → AreInputNodes w.fs g.nodes inputs nodes errors
    → IsFinished w g expanded
    → ((g' : DependencyGraph) → expanded ≡ some g' → IsGrown w.fs w.search_paths g g')
    → Succeeds (IsAnswer w inputs) (credit_graph inputs nodes errors expanded)
unfolding credit_graph
credit_graph-Succeeds w g inputs nodes errors expanded few below are (g', last, (h, le, done))
      grown =
    let (right, kept) = grown g' last in
    let below' : All (λ id. id < length g'.nodes) nodes =
      All-mono (λ v. v < length g.nodes) nodes (λ v small. omega (arith, small, le)) below in
    let few' : length nodes < u32_mod =
      omega (arith, few, length-AreInputNodes w.fs g.nodes inputs nodes errors are) in
    let (m, e, sized, credited) =
      credit_nodes_correct (successors_of g') (length g'.nodes) nodes
        (successors_of-InBounds w g' h) few' below' in
    rw (last, e, credit_graph)
      (
        some (result_of inputs errors g' m),
        refl,
        (
          g',
          nodes,
          errors,
          m,
          refl,
          h,
          AreInputNodes-mono kept w.fs inputs nodes errors are,
          λ v lt. IsRead-IsSettled w g' (node_at g' v) (right.read v lt) (done v lt),
          credited,
        ),
      )

-- For a file system whose reads give bytes or an exception, when `names` lists the names recorded in
-- its files, and `keys` the keys of the inputs and of the search folders joined with those names and
-- with the folders' entries, and there are fewer than 2 ^ 32 inputs once each is taken once: a round
-- for each of the names and keys is enough, and the request then returns a result, without an
-- exception. The result is made from a graph, the nodes of the inputs in it, errors and credits. Each
-- input, in order, has the node with its key, and the errors are those of the inputs whose node is
-- unreadable. Every number in the graph is the index of a node, and no two nodes have one key. Every
-- node is that of an unresolved name, or is what opening its file gave. The successors of a parsed
-- file are, in order, the nodes that the names recorded in it resolve to: the file in the first
-- search folder that has one, or the unresolved name. No other node has successors. The credits of
-- each node are the numbers of the inputs that reach it.
pub list_all_dependencies_correct :
    (w : World) (rounds : ℕ) (binary_paths : List Bytes)
    → IsSound w
    → All
        (λ i. Listed (key_of w.fs i.spelling i.canonical) w.keys)
        (normalise_inputs w.fs binary_paths)
    → length (normalise_inputs w.fs binary_paths) < u32_mod
    → length w.keys + length w.names ≤ rounds
    → Succeeds
        (IsAnswer w (normalise_inputs w.fs binary_paths))
        (list_all_dependencies w.fs rounds binary_paths w.search_paths)
unfolding list_all_dependencies
list_all_dependencies_correct w rounds binary_paths sound known few enough =
    let inputs = normalise_inputs w.fs binary_paths in
    Succeeds-bind _
      (Succeeds-Gives (input_nodes w.fs empty_graph inputs [] [])
        (input_nodes-Succeeds sound empty_graph inputs [] [] (empty-IsGraph w) known tt)
        (input_nodes-AreInputNodes w.fs w.search_paths empty_graph inputs [] []
          (empty-IsRight w.fs w.search_paths)))
      λ (g, nodes, errors) ((h, below), ((right, kept), ids, new, all, reported, are)).
        let are' : AreInputNodes w.fs g.nodes inputs nodes errors = rw (all, reported) are in
        Succeeds-bind _
          (Succeeds-Gives (expand_nodes w.fs w.search_paths rounds 0 g)
            (expand_nodes-Succeeds sound rounds 0 g h (λ v lt. absurd (omega (arith, lt)))
              (omega (arith, enough)))
            (expand_nodes-IsGrown w.fs w.search_paths rounds 0 g right))
          λ expanded (finished, grown).
            credit_graph-Succeeds w g inputs nodes errors expanded few below are' finished grown
