-- ===== src/Deps/Expanding.antt =====
-- The loops of ListDependencies in src/DependencyLister.cpp over the inputs and over the nodes: each
-- input has its node, and each parsed node the targets of the names in its file.
use mathlib.Core.List.{append-nil, append_assoc}
use libthe_seed.Prelude.{
  get_or-set, ℕ, zero, suc, ◌≡◌, ◌<◌, inl, inr, refl, sym, ◌∙◌, true, false, not, ◌&&◌, List, [],
  ◌∷◌, ◌++◌, none, some, ◌==◌, ltb, if◌then◌else◌, length, length-set, set, Bool-cases, arith, ok,
}
use libthe_seed.Bounded.Order.{Bytes}
use libthe_seed.Deps.Graph.{
  NodeStatus, unresolved, parsed, unreadable, DependencyNode, new_node, DependencyGraph, FileSystem,
  Reason,
}
use libthe_seed.Deps.Bounds.{key_of}
use libthe_seed.Deps.Resolve.{node_at, is_parsed, is_pe, fill_successors, expand}
use libthe_seed.Deps.Report.{Input, is_unreadable, input_nodes, expand_nodes}
use libthe_seed.Deps.Resolution.{
  node_in, HasKey, HasKey-mono, AreTargets, AreInputNodes, AreKeys-mono, AreNames-mono,
  AreCached-mono, IsRead, IsRead-mono, IsSource, is_unresolved, SameNode-trans, IsRight, Keeps,
  Keeps-refl, Keeps-trans,
}
use libthe_seed.Deps.Resolving.{Gives, Gives-ok, Gives-bind, IsStep, file_node-IsStep}
use libthe_seed.Deps.Searching.{resolve_all-AreTargets}

-- The node with its successors.
abbrev filled : DependencyGraph → ℕ → List ℕ → DependencyNode
filled g id ids = record (node_at g id) { refs = []; successors = ids; expanded = true }

set-Keeps :
    (g : DependencyGraph) (id : ℕ) (ids : List ℕ)
    → id < length g.nodes
    → Keeps g.nodes (set g.nodes id (filled g id ids))
set-Keeps g id ids lt = record {
  le = omega (arith, length-set g.nodes id (filled g id ids));
  same = λ v below.
      let e = get_or-set g.nodes id v (filled g id ids) (new_node [] unresolved) lt in
      elim (Bool-cases (id == v)) [
        | inl here ↦
            let same : id ≡ v = ground (arith, here) in
            rw (e, here, same) (record { key = refl; status = refl; format = refl; reason = refl })
        | inr other ↦
            rw (e, other) (record { key = refl; status = refl; format = refl; reason = refl })
      ];
}

unresolved_or_parsed :
    (status : NodeStatus) → is_unresolved status ≡ true → is_parsed status ≡ true → ⊥
unresolved_or_parsed unresolved gone ready = cc
unresolved_or_parsed parsed gone ready = cc
unresolved_or_parsed unreadable gone ready = cc

module _ (fs : FileSystem) (search_paths : List Bytes) where
  -- The node of a parsed file is filled with the targets of its names.
  fill_successors-IsRight :
      (g : DependencyGraph) (id : ℕ) (ids : List ℕ) (original : DependencyNode)
      → IsRight fs search_paths g
      → id < length g.nodes
      → IsSource fs (node_at g id) original
      → is_parsed (node_at g id).status ≡ true
      → AreTargets fs search_paths g.nodes (is_pe (node_at g id).format) original.refs ids
      → IsRight fs search_paths (fill_successors g id ids)
  unfolding fill_successors
  fill_successors-IsRight g id ids original h lt (path, known, opened, s) ready targets =
      let node = filled g id ids in
      let blank = new_node [] unresolved in
      let kept = set-Keeps g id ids lt in
      record {
        keys = AreKeys-mono kept fs search_paths g.by_key h.keys;
        names = AreNames-mono kept fs search_paths g.by_unresolved_name h.names;
        exact = AreCached-mono kept fs search_paths false g.resolved_exact h.exact;
        ignoring_case =
            AreCached-mono kept fs search_paths true g.resolved_ignoring_case h.ignoring_case;
        listings = h.listings;
        read = λ v below.
            let e = get_or-set g.nodes id v node blank lt in
            let inside : v < length g.nodes = omega (arith, below, length-set g.nodes id node) in
            elim (Bool-cases (id == v)) [
              | inl here ↦
                  let now : IsRead fs search_paths g.nodes node = inr (
                    original,
                    (
                      path,
                      known,
                      opened,
                      record {
                        key = s.key;
                        status = s.status;
                        format = s.format;
                        reason = s.reason;
                      },
                    ),
                    inr (ready, refl, targets),
                  ) in
                  rw (e, here) (IsRead-mono kept fs search_paths node now)
              | inr other ↦
                  rw (e, other)
                    (IsRead-mono kept fs search_paths (node_in g.nodes v) (h.read v inside))
            ];
      }

  -- The graph is right, and keeps its nodes.
  abbrev pub IsGrown : DependencyGraph → DependencyGraph → Type 0
  IsGrown g g' = IsRight fs search_paths g' × Keeps g.nodes g'.nodes

  -- A parsed node that is not expanded waits with the names of its file.
  waiting :
      (g : DependencyGraph) (id : ℕ)
      → IsRight fs search_paths g
      → id < length g.nodes
      → (is_parsed (node_at g id).status && not (node_at g id).expanded) ≡ true
      → (original : DependencyNode) × IsSource fs (node_at g id) original
        × ((node_at g id).refs ≡ original.refs)
  waiting g id h lt open_node = elim (h.read id lt) [
    | inl (gone, bare) ↦
        absurd (unresolved_or_parsed (node_at g id).status gone (ground (arith, open_node)))
    | inr (original, source, inl (closed, refs, bare)) ↦ (original, source, refs)
    | inr (original, source, inr (ready, done, targets)) ↦ absurd (ground (arith, done, open_node))
  ]

  expand-IsGrown :
      (g : DependencyGraph) (id : ℕ)
      → IsRight fs search_paths g
      → id < length g.nodes
      → (is_parsed (node_at g id).status && not (node_at g id).expanded) ≡ true
      → Gives (IsGrown g) (expand fs search_paths g id)
  unfolding expand fill_successors
  expand-IsGrown g id h lt open_node =
      let old = node_at g id in
      let (original, (path, known, opened, s), refs) = waiting g id h lt open_node in
      Gives-bind
        {P = IsStep fs search_paths g (λ ns ids.
          (more : List ℕ) × (ids ≡ more)
          × AreTargets fs search_paths ns (is_pe old.format) old.refs more)}
        (IsGrown g) _ _ (resolve_all-AreTargets fs search_paths g (is_pe old.format) old.refs [] h)
        λ (g', ids) (h', kept, (more, e, targets)).
          let same = kept.same id lt in
          let inside : id < length g'.nodes = omega (arith, lt, kept.le) in
          let ready : is_parsed (node_at g' id).status ≡ true =
            rw same.status (ground (arith, open_node)) in
          Gives-ok (IsGrown g) (fill_successors g' id ids) (
            fill_successors-IsRight g' id ids original h' inside
                (path, known, opened, SameNode-trans s same) ready
                (rw (same.format, e, ← refs) targets),
            Keeps-trans g.nodes g'.nodes _ kept (set-Keeps g' id ids inside),
          )

  pub expand_nodes-IsGrown :
      (rounds id : ℕ) (g : DependencyGraph)
      → IsRight fs search_paths g
      → Gives
          (λ r. (g' : DependencyGraph) → r ≡ some g' → IsGrown g g')
          (expand_nodes fs search_paths rounds id g)
  unfolding expand_nodes
  expand_nodes-IsGrown zero id g h = elim (Bool-cases (ltb id (length g.nodes))) [
    | inl more ↦ rw more (Gives-ok _ none (λ g' e. absurd (cc)))
    | inr over ↦
        rw over (
          Gives-ok _ (some g) λ g' e. let same : g ≡ g' = cc in rw (← same) (h, Keeps-refl g.nodes))
  ]
  expand_nodes-IsGrown (suc rounds) id g h = elim (Bool-cases (ltb id (length g.nodes))) [
    | inl more ↦ rw more (
        Gives-bind {P = IsGrown g} _ _ _ (one_round g id h (ground (arith, more)))
          λ g1 (h1, kept) r e g' s.
            let (h', kept') = expand_nodes-IsGrown rounds (suc id) g1 h1 r e g' s in
            (h', Keeps-trans g.nodes g1.nodes g'.nodes kept kept'))
    | inr over ↦
        rw over (
          Gives-ok _ (some g) λ g' e. let same : g ≡ g' = cc in rw (← same) (h, Keeps-refl g.nodes))
  ]
    where
      one_round :
          (g : DependencyGraph) (id : ℕ)
          → IsRight fs search_paths g
          → id < length g.nodes
          → Gives (IsGrown g) (
              if is_parsed (node_at g id).status && not (node_at g id).expanded
              then expand fs search_paths g id
              else ok g)
      one_round g id h lt =
          elim (Bool-cases (is_parsed (node_at g id).status && not (node_at g id).expanded)) [
            | inl open_node ↦ rw open_node (expand-IsGrown g id h lt open_node)
            | inr closed ↦ rw closed (Gives-ok (IsGrown g) g (h, Keeps-refl g.nodes))
          ]

  -- The nodes and errors of the inputs, behind those found before them.
  pub input_nodes-AreInputNodes :
      (g : DependencyGraph) (inputs : List Input) (before : List ℕ) (errors : List (Bytes × Reason))
      → IsRight fs search_paths g
      → Gives
          (λ r.
            IsGrown g r.0
            × (ids : List ℕ) × (new : List (Bytes × Reason)) × (r.1 ≡ before ++ ids)
            × (r.2 ≡ errors ++ new)
            × AreInputNodes fs r.0.nodes inputs ids new)
          (input_nodes fs g inputs before errors)
  unfolding input_nodes
  input_nodes-AreInputNodes g [] before errors h =
      Gives-ok _ (g, before, errors)
        ((h, Keeps-refl g.nodes), [], [], sym (append-nil before), sym (append-nil errors), refl)
  input_nodes-AreInputNodes g (input ∷ rest) before errors h =
      let key = key_of fs input.spelling input.canonical in
      Gives-bind {P = IsStep fs search_paths g (λ ns id. HasKey ns key id)} _ _ _
        (file_node-IsStep fs search_paths g input.spelling input.canonical h)
        λ (g1, id) (h1, kept, here) r e. elim (Bool-cases (is_unreadable (node_at g1 id).status)) [
          | inl unread ↦
              let ((h', kept'), ids, new, all, reported, more) =
                input_nodes-AreInputNodes g1 rest (before ++ id ∷ [])
                  (errors ++ (input.spelling, (node_at g1 id).reason) ∷ []) h1 r (rw unread at e) in
              let s = kept'.same id here.0 in
              (
                (h', Keeps-trans g.nodes g1.nodes r.0.nodes kept kept'),
                id ∷ ids,
                (input.spelling, (node_at g1 id).reason) ∷ new,
                all ∙ append_assoc before (id ∷ []) ids,
                reported ∙ append_assoc errors _ new,
                (HasKey-mono kept' key id here, new, rw (s.status, s.reason, unread) refl, more),
              )
          | inr fine ↦
              let ((h', kept'), ids, new, all, reported, more) =
                input_nodes-AreInputNodes g1 rest (before ++ id ∷ []) errors h1 r (rw fine at e) in
              let s = kept'.same id here.0 in
              (
                (h', Keeps-trans g.nodes g1.nodes r.0.nodes kept kept'),
                id ∷ ids,
                new,
                all ∙ append_assoc before (id ∷ []) ids,
                reported,
                (HasKey-mono kept' key id here, new, rw (s.status, fine) refl, more),
              )
        ]
