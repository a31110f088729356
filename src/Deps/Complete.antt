-- ===== src/Deps/Complete.antt =====
-- When the loop over the nodes ends, every file that was read has its successors.
use libthe_seed.Prelude.{
  get_or-set, ℕ, zero, suc, ◌+◌, ◌≡◌, ◌≤◌, ◌<◌, refl, sym, ap, ◌∙◌, inl, inr, true, false, not,
  ◌&&◌, List, [], ◌∷◌, ◌++◌, Option, some, ◌==◌, if◌then◌else◌, ltb, length, length-append,
  length-set, get_or, set, All, Bool-cases, arith, ok, Succeeds, Succeeds-bind, Succeeds-ok,
}
use libthe_seed.Deps.Graph.{unresolved, DependencyNode, new_node, DependencyGraph}
use libthe_seed.Deps.Resolve.{node_at, is_parsed, is_pe, fill_successors, expand}
use libthe_seed.Deps.Report.{expand_nodes}
use libthe_seed.Deps.Counting.{Listed, length-Distinct}
use libthe_seed.Deps.Bounds.{World, IsSound, HasBelow, IsGraph, Extends-le}
use libthe_seed.Deps.Building.{resolve_all-Succeeds}

-- A file that was read has its successors.
abbrev pub IsDone : DependencyNode → Type 0
IsDone node = (is_parsed node.status && not node.expanded) ≡ false

abbrev pub DoneBelow : DependencyGraph → ℕ → Type 0
DoneBelow g id = (v : ℕ) → v < id → IsDone (node_at g v)

pub get_or-append {ℓ} :
    {A : Type ℓ} (xs ys : List A) (i : ℕ) (d : A)
    → i < length xs
    → get_or (xs ++ ys) i d ≡ get_or xs i d
get_or-append [] ys i d h = absurd (omega arith)
get_or-append (x ∷ xs) ys zero d h = refl
get_or-append (x ∷ xs) ys (suc i) d h = get_or-append xs ys i d (omega arith)

All-set {ℓ} :
    {A : Type ℓ} (P : A → Type 0) (xs : List A) (i : ℕ) (a : A)
    → All P xs
    → P a
    → All P (set xs i a)
All-set P [] i a h p = tt
All-set P (x ∷ xs) zero a h p = (p, h.1)
All-set P (x ∷ xs) (suc i) a h p = (h.0, All-set P xs i a h.1 p)

pub All-get_or {ℓ} :
    {A : Type ℓ} (P : A → Type 0) (xs : List A) (i : ℕ) (d : A) → All P xs → P d → P (get_or xs i d)
All-get_or P [] i d h p = p
All-get_or P (x ∷ xs) zero d h p = h.0
All-get_or P (x ∷ xs) (suc i) d h p = All-get_or P xs i d h.1 p

-- The nodes are kept in number and those below `id` are done.
abbrev pub IsExpanded : World → DependencyGraph → ℕ → DependencyGraph → Type 0
IsExpanded w g id g' = IsGraph w g' × (length g.nodes ≤ length g'.nodes) × DoneBelow g' id

fill_successors-IsGraph :
    (w : World) (g : DependencyGraph) (id : ℕ) (ids : List ℕ)
    → IsGraph w g
    → All (λ v. v < length g.nodes) ids
    → IsGraph w (fill_successors g id ids)
unfolding fill_successors
fill_successors-IsGraph w g id ids h below =
    let node = record (node_at g id) { refs = []; successors = ids; expanded = true } in
    let same : length g.nodes ≡ length (set g.nodes id node) = sym (length-set g.nodes id node) in
    record {
      keys = rw (← same) h.keys;
      names = rw (← same) h.names;
      exact = rw (← same) h.exact;
      ignoring_case = rw (← same) h.ignoring_case;
      successors =
          rw (← same) (All-set (HasBelow (length g.nodes)) g.nodes id node h.successors below);
      counted = sym same ∙ h.counted;
      distinct_keys = h.distinct_keys;
      known_keys = h.known_keys;
      distinct_names = h.distinct_names;
      known_names = h.known_names;
      refs = All-set (λ other. All (λ n. Listed n w.names) other.refs) g.nodes id node h.refs tt;
      listings = h.listings;
    }

fill_successors-le :
    {n : ℕ} (g : DependencyGraph) (id : ℕ) (ids : List ℕ)
    → n ≤ length g.nodes
    → n ≤ length (fill_successors g id ids).nodes
unfolding fill_successors
fill_successors-le g id ids le = rw (length-set g.nodes id _) le

fill_successors-DoneBelow :
    (g g' : DependencyGraph) (id : ℕ) (ids : List ℕ) (more : List DependencyNode)
    → id < length g.nodes
    → g'.nodes ≡ g.nodes ++ more
    → DoneBelow g id
    → DoneBelow (fill_successors g' id ids) (suc id)
unfolding fill_successors
fill_successors-DoneBelow g g' id ids more lt e done v small =
    let node = record (node_at g' id) { refs = []; successors = ids; expanded = true } in
    let blank = new_node [] unresolved in
    let inside : id < length g'.nodes = omega (arith, ap length e, length-append g.nodes more) in
    elim (Bool-cases (id == v)) [
      | inl same ↦ rw (get_or-set g'.nodes id v node blank inside, same) (ground arith)
      | inr other ↦
          rw
            (
              get_or-set g'.nodes id v node blank inside,
              other,
              e,
              get_or-append g.nodes more v blank (ground (arith, other, small, lt)),
            )
            (done v (ground (arith, other, small)))
    ]

-- No graph has more nodes than there are keys and names.
nodes_le :
    (w : World) (g : DependencyGraph)
    → IsGraph w g
    → length g.nodes ≤ length w.keys + length w.names
nodes_le w g h = omega (
  arith,
  h.counted,
  length-Distinct g.by_key w.keys h.distinct_keys h.known_keys,
  length-Distinct g.by_unresolved_name w.names h.distinct_names h.known_names,
)

-- The loop ended with a graph that keeps the nodes.
abbrev pub IsFinished : World → DependencyGraph → Option DependencyGraph → Type 0
IsFinished w g r = (g' : DependencyGraph) × (r ≡ some g') × IsExpanded w g (length g'.nodes) g'

IsFinished-here :
    (w : World) (g : DependencyGraph) (id : ℕ)
    → IsGraph w g
    → DoneBelow g id
    → ltb id (length g.nodes) ≡ false
    → IsFinished w g (some g)
IsFinished-here w g id h done finished =
    (g, refl, (h, omega arith, λ v lt. done v (ground (arith, finished, lt))))

module _ {w : World} (sound : IsSound w) where
  expand-Succeeds :
      (g : DependencyGraph) (id : ℕ)
      → IsGraph w g
      → id < length g.nodes
      → DoneBelow g id
      → Succeeds (IsExpanded w g (suc id)) (expand w.fs w.search_paths g id)
  unfolding expand
  expand-Succeeds g id h lt done =
      let known =
        All-get_or (λ other. All (λ n. Listed n w.names) other.refs) g.nodes id
          (new_node [] unresolved) h.refs tt in
      Succeeds-bind _
        (resolve_all-Succeeds sound g (is_pe (node_at g id).format) (node_at g id).refs [] h known
          tt)
        λ (g', ids) (h', (more, e), below). Succeeds-ok _ (
          fill_successors-IsGraph w g' id ids h' below,
          fill_successors-le g' id ids (Extends-le g g' (more, e)),
          fill_successors-DoneBelow g g' id ids more lt e done,
        )

  one_round :
      (id : ℕ) (g : DependencyGraph)
      → IsGraph w g
      → DoneBelow g id
      → id < length g.nodes
      → Succeeds (IsExpanded w g (suc id)) (
          if is_parsed (node_at g id).status && not (node_at g id).expanded
          then expand w.fs w.search_paths g id
          else ok g)
  one_round id g h done lt =
      elim (Bool-cases (is_parsed (node_at g id).status && not (node_at g id).expanded)) [
        | inl open_node ↦ rw open_node (expand-Succeeds g id h lt done)
        | inr closed ↦ rw closed (
            Succeeds-ok g (
              h,
              omega arith,
              λ v small. elim (Bool-cases (v == id)) [
                | inl same ↦ let e : v ≡ id = ground (arith, same) in rw e closed
                | inr other ↦ done v (ground (arith, other, small))
              ],
            ))
      ]

  -- With a round for each key and name that is left, the loop ends with every file expanded.
  pub expand_nodes-Succeeds :
      (rounds id : ℕ) (g : DependencyGraph)
      → IsGraph w g
      → DoneBelow g id
      → length w.keys + length w.names ≤ id + rounds
      → Succeeds (IsFinished w g) (expand_nodes w.fs w.search_paths rounds id g)
  unfolding expand_nodes
  expand_nodes-Succeeds zero id g h done enough =
      let finished : ltb id (length g.nodes) ≡ false = ground (arith, nodes_le w g h, enough) in
      rw finished (Succeeds-ok (some g) (IsFinished-here w g id h done finished))
  expand_nodes-Succeeds (suc rounds) id g h done enough =
      elim (Bool-cases (ltb id (length g.nodes))) [
        | inl more ↦ rw more (
            Succeeds-bind {P = IsExpanded w g (suc id)} _
              (one_round id g h done (ground (arith, more)))
              λ g' (h', le, done').
                let (r, e, (g'', s, (h'', le', done''))) =
                  expand_nodes-Succeeds rounds (suc id) g' h' done' (omega (arith, enough)) in
                (r, e, (g'', s, (h'', omega (arith, le, le'), done''))))
        | inr finished ↦ rw finished (Succeeds-ok (some g) (IsFinished-here w g id h done finished))
      ]
