-- ===== src/Deps/Opening.antt =====
-- Reading a file returns, and its node is new or is found.
use libthe_seed.Prelude.{
  ◌^◌, ◌≡◌, ◌<◌, refl, inl, inr, Bool, false, ◌&&◌, ◌||◌, ◌≤◌, [], ◌∷◌, ◌++◌, Option, ◌==◌, leb,
  ltb, length, lookup_name, All, Bool-cases, Option-cases, arith, Outcome, Error, Returns,
  Returns-ok, value, refusal, Returns-bind, Returns-if, Succeeds, Succeeds-bind, Succeeds-ok,
}
use libthe_seed.Bounded.Order.{Bytes, IsByte}
use libthe_seed.Bounded.Elements.{matches-Returns, first_high-Returns, last_high-Returns}
use libthe_seed.Elf.Names.{elf_magic}
use libthe_seed.Elf.Safety.{list_from_bytes-Returns}
use libthe_seed.Pe.Listing.{list_dependencies_from_bytes-Returns}
use libthe_seed.MachO.Listing.{list_dependencies-Returns}
use libthe_seed.Deps.Graph.{no_format, macho, DependencyNode, DependencyGraph}
use libthe_seed.Deps.Counting.{Listed}
use libthe_seed.Deps.Format.{is_macho, parse_bytes}
use libthe_seed.Deps.Resolve.{
  push_node, catch_failure, failed_node, read_node, node_key, fresh_node, put_file, file_node,
}
use libthe_seed.Deps.Bounds.{
  World, key_of, IsSound, IsGraph, push_node-IsPushed, Extends-refl, IsNode, lookup-below,
}

catch_failure-Succeeds {ℓ} :
    {A : Type ℓ} {P : A → Type 0} (Q : A → Type 0) (m : Outcome A) (handler : Error → A)
    → Returns P m
    → ((a : A) → P a → Q a)
    → ((e : Error) → Q (handler e))
    → Succeeds Q (catch_failure m handler)
catch_failure-Succeeds Q m handler (value {a} p) f g = (a, refl, f a p)
catch_failure-Succeeds Q m handler (refusal {e}) f g = (handler e, refl, g e)

parse_bytes-Returns :
    (bytes : Bytes)
    → All IsByte bytes
    → length bytes < 2 ^ 63
    → Returns (λ _. Unit) (parse_bytes bytes)
unfolding parse_bytes
parse_bytes-Returns bytes are small =
    Returns-if (ltb (length bytes) 2) (λ _. refusal)
      λ some_bytes.
        let two : 2 ≤ length bytes = ground (arith, some_bytes) in
        Returns-bind {P = λ _. Unit} _
          (Returns-if (leb 4 (length bytes))
            (λ four. matches-Returns bytes 0 elf_magic (ground (arith, four))) λ _. value tt)
          λ elf_file _.
            Returns-if elf_file
              (λ _. Returns-bind _ (list_from_bytes-Returns bytes are small) λ refs _. value tt)
              λ _.
                Returns-bind _ (matches-Returns bytes 0 (b'M' ∷ b'Z' ∷ []) (omega (arith, two)))
                  λ pe_file _.
                    Returns-if pe_file
                      (λ _.
                        Returns-bind _ (list_dependencies_from_bytes-Returns bytes are small)
                          λ refs _. value tt)
                      λ _. refusal

is_macho-Returns : (bytes : Bytes) → Returns (λ _. Unit) (is_macho bytes)
unfolding is_macho
is_macho-Returns bytes =
    Returns-if (ltb (length bytes) 4) (λ _. value tt)
      λ long.
        let four : 4 ≤ length bytes = ground (arith, long) in
        Returns-bind _ (first_high-Returns bytes 0 (omega (arith, four))) λ magic _.
          Returns-if
            (magic == 0xfeedface
              || magic == 0xcefaedfe
              || magic == 0xfeedfacf
              || magic == 0xcffaedfe)
            (λ _. value tt)
            λ _.
              Returns-if (magic == 0xcafebabe || magic == 0xbebafeca)
                (λ _.
                  Returns-if (ltb (length bytes) 8) (λ _. value tt)
                    λ longer.
                      let eight : 8 ≤ length bytes = ground (arith, longer) in
                      Returns-bind {P = λ _. Unit} _
                        (Returns-if (magic == 0xcafebabe)
                          (λ _. first_high-Returns bytes 4 (omega (arith, eight)))
                          λ _. last_high-Returns bytes 4 (omega (arith, eight)))
                        λ count _. value tt)
                λ _. value tt

-- A node that is not expanded.
abbrev IsBlank : DependencyNode → Type 0
IsBlank node = (node.successors ≡ []) × (node.expanded ≡ false)

catch_failure-Returns {ℓ} :
    {A : Type ℓ} {P : A → Type 0} (Q : A → Type 0) (m : Outcome A) (handler : Error → A)
    → Returns P m
    → ((a : A) → P a → Q a)
    → ((e : Error) → Q (handler e))
    → Returns Q (catch_failure m handler)
catch_failure-Returns Q m handler (value {a} p) f g = value (f a p)
catch_failure-Returns Q m handler (refusal {e}) f g = value (g e)

module _ {w : World} (sound : IsSound w) where
  read_node-Succeeds : (key : Bytes) → Succeeds IsBlank (read_node w.fs key)
  unfolding read_node
  read_node-Succeeds key =
      catch_failure-Succeeds IsBlank _ (failed_node key no_format)
        (Returns-bind _ (sound.reads key) λ bytes whole.
          Returns-bind _ (is_macho-Returns bytes) λ macho_file _.
            Returns-if macho_file
              (λ _.
                catch_failure-Returns IsBlank _ (failed_node key macho)
                  (Returns-bind _ (sound.reads key) λ again whole'.
                    Returns-bind _
                      (list_dependencies-Returns "the path of the file" again whole'.0 whole'.1)
                      λ refs _. value (refl, refl))
                  (λ node blank. blank) (λ e. (refl, refl)))
              λ _.
                Returns-bind _ (parse_bytes-Returns bytes whole.0 whole.1)
                  λ (format, refs) _. value (refl, refl))
        (λ node blank. blank) (λ e. (refl, refl))

  -- A node that is not expanded, with the names of the file.
  IsFresh : DependencyNode → Type 0
  IsFresh node = IsBlank node × All (λ n. Listed n w.names) node.refs

  read_node-IsFresh : (key : Bytes) → Succeeds IsFresh (read_node w.fs key)
  unfolding IsFresh
  read_node-IsFresh key =
      let (node, e, blank) = read_node-Succeeds key in
      (node, e, (blank, Returns-ok node (sound.recorded key) e))

  fresh_node-Succeeds :
      (path key : Bytes) (resolved : Bool) → Succeeds IsFresh (fresh_node w.fs path (key, resolved))
  unfolding fresh_node IsFresh
  fresh_node-Succeeds path key resolved = elim (Bool-cases (resolved && w.fs.is_regular_file key)) [
    | inl regular ↦ rw regular (read_node-IsFresh key)
    | inr other ↦ rw other (elim (Bool-cases (w.fs.entry_exists path)) [
      | inl exists ↦ rw exists (Succeeds-ok _ ((refl, refl), tt))
      | inr absent ↦ rw absent (Succeeds-ok _ ((refl, refl), tt))
    ])
  ]

  pub file_node-Succeeds :
      (g : DependencyGraph) (path : Bytes) (known : Option Bytes)
      → IsGraph w g
      → Listed (key_of w.fs path known) w.keys
      → Succeeds (IsNode w g) (file_node w.fs g path known)
  unfolding file_node put_file push_node IsFresh
  file_node-Succeeds g path known h listed =
      let key = node_key w.fs path known in
      elim (Option-cases (lookup_name key.0 g.by_key)) [
        | inl new ↦ rw new (
            Succeeds-bind _ (fresh_node-Succeeds path key.0 key.1) λ node (blank, refs).
              let p = push_node-IsPushed g node h blank.0 refs in
              let last : length g.nodes < length (g.nodes ++ node ∷ []) = omega (arith, p.grown) in
              Succeeds-ok _ (
                record {
                  keys = (last, p.keys);
                  names = p.names;
                  exact = p.exact;
                  ignoring_case = p.ignoring_case;
                  successors = p.successors;
                  counted = omega (arith, p.grown, h.counted);
                  distinct_keys = (new, h.distinct_keys);
                  known_keys = (listed, h.known_keys);
                  distinct_names = h.distinct_names;
                  known_names = h.known_names;
                  refs = p.refs;
                  listings = h.listings;
                },
                (node ∷ [], refl),
                last,
              ))
        | inr (id, old) ↦ rw old (
            Succeeds-ok _
              (h, Extends-refl g, lookup-below (length g.nodes) key.0 g.by_key id h.keys old))
      ]
