-- ===== src/Deps/Resolving.antt =====
-- The steps of src/DependencyLister.cpp that find or make a node keep the graph right, and the node
-- is the one that the path or the name resolves to.
use libthe_seed.Prelude.{
  ℕ, ◌≡◌, ◌<◌, inl, inr, refl, ap, ◌∙◌, Bool, true, false, ◌&&◌, List, [], ◌∷◌, ◌++◌, Option, ◌==◌,
  length, length-append, get_or, lookup_name, Bool-cases, Option-cases, arith, Outcome, ok, err,
  fault, ◌>>=◌, Error,
}
use libthe_seed.Bounded.Order.{Bytes}
use libthe_seed.MachO.Parser.{list_dependencies}
use libthe_seed.Deps.Graph.{
  unresolved, no_format, macho, DependencyNode, new_node, DependencyGraph, FileSystem,
}
use libthe_seed.Deps.Format.{is_macho, parse_bytes}
use libthe_seed.Deps.Counting.{lookup-All}
use libthe_seed.Deps.Bounds.{key_of, length-concat}
use libthe_seed.Deps.Complete.{get_or-append}
use libthe_seed.Deps.Resolve.{
  push_node, put_unresolved, unresolved_node, catch_failure, failed_node, parsed_node, read_node,
  node_key, fresh_node, put_file, file_node,
}
use libthe_seed.Deps.Resolution.{
  node_in, is_unresolved, HasKey, HasName, IsRead, IsRight, Keeps, Keeps-refl, AreKeys-mono,
  AreNames-mono, AreCached-mono, IsRead-mono,
}

-- `P` of every value returned.
abbrev pub Gives {ℓ} : {A : Type ℓ} → (A → Type 0) → Outcome A → Type ℓ
Gives {A = A} P m = (a : A) → m ≡ ok a → P a

pub Gives-ok {ℓ} : {A : Type ℓ} (P : A → Type 0) (a : A) → P a → Gives P (ok a)
Gives-ok P a p b e = let same : a ≡ b = cc in rw (← same) p

pub Gives-bind {ℓ κ} :
    {A : Type ℓ} {B : Type κ} {P : A → Type 0} (Q : B → Type 0) (m : Outcome A) (f : A → Outcome B)
    → Gives P m
    → ((a : A) → P a → Gives Q (f a))
    → Gives Q (m >>= f)
Gives-bind Q (ok a) f g k b e = k a (g a refl) b e
Gives-bind Q (err r) f g k b e = absurd (cc)
Gives-bind Q fault f g k b e = absurd (cc)

Gives-catch {ℓ} :
    {A : Type ℓ} (P : A → Type 0) (m : Outcome A) (handler : Error → A)
    → Gives P m
    → ((e : Error) → P (handler e))
    → Gives P (catch_failure m handler)
Gives-catch P (ok a) handler g h b e = g b e
Gives-catch P (err r) handler g h b e = Gives-ok P (handler r) (h r) b e
Gives-catch P fault handler g h b e = absurd (cc)

-- A node that was just made for a file.
abbrev IsFileNode : Bytes → DependencyNode → Type 0
IsFileNode key node =
    (node.key ≡ key)
    × (is_unresolved node.status ≡ false)
    × (node.expanded ≡ false)
    × (node.successors ≡ [])

read_node-IsFileNode : (fs : FileSystem) (key : Bytes) → Gives (IsFileNode key) (read_node fs key)
unfolding read_node
read_node-IsFileNode fs key =
    Gives-catch (IsFileNode key) _ (failed_node key no_format)
      (Gives-bind {P = λ _. Unit} (IsFileNode key) (fs.read_file_bytes key) _ (λ b e. tt)
        λ bytes _.
          Gives-bind {P = λ _. Unit} (IsFileNode key) (is_macho bytes) _ (λ b e. tt)
            λ macho_file _. elim (Bool-cases macho_file) [
              | inl yes_macho ↦ rw yes_macho (
                  Gives-catch (IsFileNode key) _ (failed_node key macho)
                    (Gives-bind {P = λ _. Unit} (IsFileNode key) (fs.read_file_bytes key) _
                      (λ b e. tt)
                      λ again _.
                        Gives-bind {P = λ _. Unit} (IsFileNode key)
                          (list_dependencies "the path of the file" again) _ (λ b e. tt)
                          λ refs _.
                            Gives-ok (IsFileNode key) (parsed_node key macho refs)
                              (refl, refl, refl, refl))
                    λ e. (refl, refl, refl, refl))
              | inr no_macho ↦ rw no_macho (
                  Gives-bind {P = λ _. Unit} (IsFileNode key) (parse_bytes bytes) _ (λ b e. tt)
                    λ (format, refs) _.
                      Gives-ok (IsFileNode key) (parsed_node key format refs)
                        (refl, refl, refl, refl))
            ])
      λ e. (refl, refl, refl, refl)

fresh_node-IsFileNode :
    (fs : FileSystem) (path key : Bytes) (resolved : Bool)
    → Gives (IsFileNode key) (fresh_node fs path (key, resolved))
unfolding fresh_node
fresh_node-IsFileNode fs path key resolved =
    elim (Bool-cases (resolved && fs.is_regular_file key)) [
      | inl regular ↦ rw regular (read_node-IsFileNode fs key)
      | inr other ↦ rw other (elim (Bool-cases (fs.entry_exists path)) [
        | inl exists ↦ rw exists (Gives-ok (IsFileNode key) _ (refl, refl, refl, refl))
        | inr absent ↦ rw absent (Gives-ok (IsFileNode key) _ (refl, refl, refl, refl))
      ])
    ]

get_or-last {ℓ} : {A : Type ℓ} (xs : List A) (x d : A) → get_or (xs ++ x ∷ []) (length xs) d ≡ x
get_or-last [] x d = refl
get_or-last (y ∷ xs) x d = get_or-last xs x d

Keeps-append : (xs ys : List DependencyNode) → Keeps xs (xs ++ ys)
Keeps-append xs ys = record {
  le = omega (arith, length-append xs ys);
  same = λ v lt.
      let e = get_or-append xs ys v (new_node [] unresolved) lt in
      record {
        key = ap (λ n. n.key) e;
        status = ap (λ n. n.status) e;
        format = ap (λ n. n.format) e;
        reason = ap (λ n. n.reason) e;
      };
}

module _ (fs : FileSystem) (search_paths : List Bytes) where
  -- A graph with one more right node, before the node is entered in a map.
  pushed-IsRight :
      (g : DependencyGraph) (node : DependencyNode)
      → IsRight fs search_paths g
      → IsRead fs search_paths (g.nodes ++ node ∷ []) node
      → IsRight fs search_paths (push_node g node)
  unfolding push_node
  pushed-IsRight g node h fresh =
      let kept = Keeps-append g.nodes (node ∷ []) in
      let blank = new_node [] unresolved in
      record {
        keys = AreKeys-mono kept fs search_paths g.by_key h.keys;
        names = AreNames-mono kept fs search_paths g.by_unresolved_name h.names;
        exact = AreCached-mono kept fs search_paths false g.resolved_exact h.exact;
        ignoring_case =
            AreCached-mono kept fs search_paths true g.resolved_ignoring_case h.ignoring_case;
        listings = h.listings;
        read = λ v lt. elim (Bool-cases (v == length g.nodes)) [
          | inl last ↦
              let e : v ≡ length g.nodes = ground (arith, last) in
              rw (e, get_or-last g.nodes node blank) fresh
          | inr old ↦
              let below : v < length g.nodes =
                ground (arith, old, lt, length-concat g.nodes node) in
              rw (get_or-append g.nodes (node ∷ []) v blank below)
                (IsRead-mono kept fs search_paths (node_in g.nodes v) (h.read v below))
        ];
      }

  -- A step to a right graph that keeps the nodes, and what holds of its result there.
  abbrev pub IsStep {ℓ} :
      {A : Type ℓ}
      → DependencyGraph
      → (List DependencyNode → A → Type 0)
      → DependencyGraph × A
      → Type 0
  IsStep g Q r = IsRight fs search_paths r.0 × Keeps g.nodes r.0.nodes × Q r.0.nodes r.1

  pub unresolved_node-IsStep :
      (g : DependencyGraph) (name : Bytes)
      → IsRight fs search_paths g
      → IsStep g (λ ns id. HasName ns name id) (unresolved_node g name)
  unfolding unresolved_node put_unresolved push_node
  unresolved_node-IsStep g name h = elim (Option-cases (lookup_name name g.by_unresolved_name)) [
    | inl new ↦
        let node = new_node name unresolved in
        let p = pushed-IsRight g node h (inl (refl, refl)) in
        let last = get_or-last g.nodes node (new_node [] unresolved) in
        let here : HasName (g.nodes ++ node ∷ []) name (length g.nodes) = (
          omega (arith, length-concat g.nodes node),
          ap (λ n. n.key) last,
          ap (λ n. is_unresolved n.status) last,
        ) in
        rw new (
          record {
            keys = p.keys;
            names = (here, p.names);
            exact = p.exact;
            ignoring_case = p.ignoring_case;
            listings = p.listings;
            read = p.read;
          },
          Keeps-append g.nodes (node ∷ []),
          here,
        )
    | inr (id, known) ↦ rw known (
      h,
      Keeps-refl g.nodes,
      lookup-All (HasName g.nodes) name g.by_unresolved_name id h.names known,
    )
  ]

  pub file_node-IsStep :
      (g : DependencyGraph) (path : Bytes) (known : Option Bytes)
      → IsRight fs search_paths g
      → Gives (IsStep g (λ ns id. HasKey ns (key_of fs path known) id)) (file_node fs g path known)
  unfolding file_node put_file push_node
  file_node-IsStep g path known h =
      let key = node_key fs path known in
      let Q : DependencyGraph × ℕ → Type 0 = IsStep g (λ ns id. HasKey ns key.0 id) in
      elim (Option-cases (lookup_name key.0 g.by_key)) [
        | inl new ↦ rw new (
            Gives-bind {P = λ node. IsFileNode key.0 node × (fresh_node fs path key ≡ ok node)} Q _
              _ (λ node e. (fresh_node-IsFileNode fs path key.0 key.1 node e, e))
              λ node ((own, file, closed, bare), opened).
                let p = pushed-IsRight g node h (
                  inr (
                    node,
                    (
                      path,
                      known,
                      opened,
                      record { key = refl; status = refl; format = refl; reason = refl },
                    ),
                    inl (closed, refl, bare),
                  )) in
                let last = get_or-last g.nodes node (new_node [] unresolved) in
                let here : HasKey (g.nodes ++ node ∷ []) key.0 (length g.nodes) = (
                  omega (arith, length-concat g.nodes node),
                  ap (λ n. n.key) last ∙ own,
                  ap (λ n. is_unresolved n.status) last ∙ file,
                ) in
                Gives-ok Q _ (
                  record {
                    keys = (here, p.keys);
                    names = p.names;
                    exact = p.exact;
                    ignoring_case = p.ignoring_case;
                    listings = p.listings;
                    read = p.read;
                  },
                  Keeps-append g.nodes (node ∷ []),
                  here,
                ))
        | inr (id, old) ↦ rw old (
            Gives-ok Q _
              (h, Keeps-refl g.nodes, lookup-All (HasKey g.nodes) key.0 g.by_key id h.keys old))
      ]
