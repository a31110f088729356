-- ===== src/Deps/Resolve.antt =====
-- From a recorded name to its node: NewNode, UnresolvedNode, FileNode, FolderMatches, ResolveName
-- and Expand of src/DependencyLister.cpp.
use libthe_seed.Prelude.{
  ℕ, Bool, true, false, not, ◌&&◌, ◌||◌, List, [], ◌∷◌, ◌++◌, Option, none, some, ltb, ◌==◌,
  if◌then◌else◌, length, get_or, set, any, same_name, lookup_name, Outcome, ok, err, fault, ◌>>=◌,
  Error,
}
use libthe_seed.Bounded.Order.{Bytes}
use libthe_seed.Pe.Names.{lower_ascii}
use libthe_seed.MachO.Parser.{list_dependencies}
use libthe_seed.Deps.Graph.{
  NodeStatus, unresolved, parsed, unreadable, NodeFormat, no_format, pe, macho, unable_to_open,
  not_regular_file, failure, DependencyNode, new_node, Listing, DependencyGraph, FileSystem,
}
use libthe_seed.Deps.Format.{is_macho, parse_bytes, escapes_search_folders}

-- NewNode with the node as its caller leaves it; the callers only fill it in.
unfoldable pub push_node : DependencyGraph → DependencyNode → DependencyGraph
push_node graph node = record graph { nodes = graph.nodes ++ node ∷ [] }

unfoldable pub put_unresolved : DependencyGraph → Bytes → Option ℕ → DependencyGraph × ℕ
put_unresolved graph name (some id) = (graph, id)
put_unresolved graph name none =
    let id = length graph.nodes in
    let pushed = push_node graph (new_node name unresolved) in
    (record pushed { by_unresolved_name = (name, id) ∷ graph.by_unresolved_name }, id)

unfoldable pub unresolved_node : DependencyGraph → Bytes → DependencyGraph × ℕ
unresolved_node graph name = put_unresolved graph name (lookup_name name graph.by_unresolved_name)

-- `catch(const std::exception &)`: the node becomes what `handler` makes of the failure.
abbrev pub catch_failure {ℓ} : {A : Type ℓ} → Outcome A → (Error → A) → Outcome A
catch_failure (ok a) handler = ok a
catch_failure (err e) handler = ok (handler e)
catch_failure fault handler = fault

abbrev pub failed_node : Bytes → NodeFormat → Error → DependencyNode
failed_node key format e = record (new_node key unreadable) { format = format; reason = failure e }

abbrev pub parsed_node : Bytes → NodeFormat → List Bytes → DependencyNode
parsed_node key format refs = record (new_node key parsed) { format = format; refs = refs }

-- The parser of a Mach-O file reads the file itself; the path in its text is left out.
unfoldable pub read_node : FileSystem → Bytes → Outcome DependencyNode
read_node fs key =
    catch_failure
      (fs.read_file_bytes key >>= λ bytes. is_macho bytes >>= λ macho_file.
        if macho_file
        then catch_failure
            (fs.read_file_bytes key >>= λ again.
              list_dependencies "the path of the file" again >>= λ refs.
              ok (parsed_node key macho refs))
            (failed_node key macho)
        else parse_bytes bytes >>= λ (format, refs). ok (parsed_node key format refs))
      (failed_node key no_format)

-- The key of a path, and whether it could be resolved. A known canonical path is not asked again.
unfoldable pub node_key : FileSystem → Bytes → Option Bytes → Bytes × Bool
node_key fs path (some canonical) = (canonical, true)
node_key fs path none = elim (fs.canonical path) [ none ↦ (path, false) | some c ↦ (c, true) ]

unfoldable pub fresh_node : FileSystem → Bytes → Bytes × Bool → Outcome DependencyNode
fresh_node fs path (key, resolved) =
    if resolved && fs.is_regular_file key
    then read_node fs key
    else if fs.entry_exists path
    then ok (record (new_node key unreadable) { reason = not_regular_file key })
    else ok (record (new_node key unreadable) { reason = unable_to_open path })

unfoldable pub put_file :
    FileSystem → DependencyGraph → Bytes → Bytes × Bool → Option ℕ → Outcome (DependencyGraph × ℕ)
put_file fs graph path key (some id) = ok (graph, id)
put_file fs graph path key none = fresh_node fs path key >>= λ node. ok (
  record (push_node graph node) { by_key = (key.0, length graph.nodes) ∷ graph.by_key },
  length graph.nodes,
)

unfoldable pub file_node :
    FileSystem → DependencyGraph → Bytes → Option Bytes → Outcome (DependencyGraph × ℕ)
file_node fs graph path known =
    let key = node_key fs path known in put_file fs graph path key (lookup_name key.0 graph.by_key)

-- operator< of std::string: bytes without a sign, the shorter prefix first.
unfoldable pub name_lt : Bytes → Bytes → Bool
name_lt a [] = false
name_lt [] (y ∷ b) = true
name_lt (x ∷ a) (y ∷ b) = ltb x y || (x == y && name_lt a b)

unfoldable pub insert_name : Bytes → List Bytes → List Bytes
insert_name name [] = name ∷ []
insert_name name (other ∷ rest) =
    if name_lt other name then other ∷ insert_name name rest else name ∷ other ∷ rest

-- std::sort of names
unfoldable pub sort_names : List Bytes → List Bytes
sort_names [] = []
sort_names (name ∷ rest) = insert_name name (sort_names rest)

-- `entries[LowerAscii(real)].push_back(real)`
unfoldable pub list_entry : Bytes → Bytes → Listing → Listing
list_entry key real [] = (key, real ∷ []) ∷ []
list_entry key real ((other, names) ∷ rest) =
    if same_name other key
    then (other, names ++ real ∷ []) ∷ rest
    else (other, names) ∷ list_entry key real rest

unfoldable pub group_entries : List Bytes → Listing → Listing
group_entries [] entries = entries
group_entries (real ∷ rest) entries =
    group_entries rest (list_entry (lower_ascii real) real entries)

unfoldable pub sort_entries : Listing → Listing
sort_entries [] = []
sort_entries ((key, names) ∷ rest) = (key, sort_names names) ∷ sort_entries rest

unfoldable pub listing_of :
    FileSystem → DependencyGraph → Bytes → Option Listing → DependencyGraph × Listing
listing_of fs graph folder (some listing) = (graph, listing)
listing_of fs graph folder none =
    let listing = sort_entries (group_entries (fs.list_folder folder) []) in
    (record graph { folder_listings = (folder, listing) ∷ graph.folder_listings }, listing)

unfoldable pub folder_matches :
    FileSystem → DependencyGraph → Bytes → Bytes → DependencyGraph × Option (List Bytes)
folder_matches fs graph folder name =
    let (graph', listing) = listing_of fs graph folder (lookup_name folder graph.folder_listings) in
    (graph', lookup_name (lower_ascii name) listing)

-- The exact spelling, or the first; a group of entries is not empty.
abbrev pub pick_match : Bytes → List Bytes → Bytes
pick_match name matches = if any (same_name name) matches then name else get_or matches 0 []

-- The candidate in one folder; `none` goes on to the next.
abbrev pub plain_candidate : FileSystem → Bytes → Bytes → Option Bytes
plain_candidate fs folder name =
    if fs.entry_exists (fs.join folder name) then some (fs.join folder name) else none

abbrev pub matched_candidate : FileSystem → Bytes → Bytes → Option (List Bytes) → Option Bytes
matched_candidate fs folder name none = plain_candidate fs folder name
matched_candidate fs folder name (some matches) = some (fs.join folder (pick_match name matches))

unfoldable pub candidate_in :
    FileSystem → DependencyGraph → Bytes → Bool → Bytes → DependencyGraph × Option Bytes
candidate_in fs graph name ignore_case folder =
    if length folder == 0 || not (fs.is_directory folder)
    then (graph, none)
    else if ignore_case
    then (let (graph', matches) = folder_matches fs graph folder name in
        (graph', matched_candidate fs folder name matches))
    else (graph, plain_candidate fs folder name)

-- The loop over the search folders.
unfoldable pub find_in_folders :
    FileSystem → DependencyGraph → Bytes → Bool → List Bytes → Outcome (DependencyGraph × Option ℕ)
find_in_folders fs graph name ignore_case [] = ok (graph, none)
find_in_folders fs graph name ignore_case (folder ∷ rest) =
    let (graph', candidate) = candidate_in fs graph name ignore_case folder in
    elim candidate [
      | none ↦ find_in_folders fs graph' name ignore_case rest
      | some path ↦ file_node fs graph' path none >>= λ (g, id). ok (g, some id)
    ]

abbrev pub cache_of : DependencyGraph → Bool → List (Bytes × ℕ)
cache_of graph ignore_case =
    if ignore_case then graph.resolved_ignoring_case else graph.resolved_exact

abbrev pub put_cache : DependencyGraph → Bool → Bytes → ℕ → DependencyGraph
put_cache graph ignore_case name id = record graph {
  resolved_exact = if ignore_case then graph.resolved_exact else (name, id) ∷ graph.resolved_exact;
  resolved_ignoring_case =
      if ignore_case
      then (name, id) ∷ graph.resolved_ignoring_case
      else graph.resolved_ignoring_case;
}

abbrev pub or_unresolved : DependencyGraph → Bytes → Option ℕ → DependencyGraph × ℕ
or_unresolved graph name (some id) = (graph, id)
or_unresolved graph name none = unresolved_node graph name

unfoldable pub resolve_new :
    FileSystem → List Bytes → DependencyGraph → Bytes → Bool → Outcome (DependencyGraph × ℕ)
resolve_new fs search_paths graph name ignore_case =
    (if escapes_search_folders name
      then ok (graph, none)
      else find_in_folders fs graph name ignore_case search_paths)
    >>= λ (graph', found).
        let (graph'', id) = or_unresolved graph' name found in
        ok (put_cache graph'' ignore_case name id, id)

unfoldable pub resolve_name :
    FileSystem → List Bytes → DependencyGraph → Bytes → Bool → Outcome (DependencyGraph × ℕ)
resolve_name fs search_paths graph name ignore_case =
    elim (lookup_name name (cache_of graph ignore_case)) [
      | some id ↦ ok (graph, id)
      | none ↦ resolve_new fs search_paths graph name ignore_case
    ]

-- The loop over the names of a node.
unfoldable pub resolve_all :
    FileSystem
    → List Bytes
    → DependencyGraph
    → Bool
    → List Bytes
    → List ℕ
    → Outcome (DependencyGraph × List ℕ)
resolve_all fs search_paths graph ignore_case [] successors = ok (graph, successors)
resolve_all fs search_paths graph ignore_case (name ∷ rest) successors =
    resolve_name fs search_paths graph name ignore_case >>= λ (graph', id).
    resolve_all fs search_paths graph' ignore_case rest (successors ++ id ∷ [])

abbrev pub is_pe : NodeFormat → Bool
is_pe pe = true
is_pe _ = false

abbrev pub is_parsed : NodeStatus → Bool
is_parsed parsed = true
is_parsed _ = false

-- `graph.nodes[id]`; every id that is used is the index of a node.
abbrev pub node_at : DependencyGraph → ℕ → DependencyNode
node_at graph id = get_or graph.nodes id (new_node [] unresolved)

unfoldable pub fill_successors : DependencyGraph → ℕ → List ℕ → DependencyGraph
fill_successors graph id successors = record graph {
  nodes =
      set graph.nodes id
        (record (node_at graph id) { refs = []; successors = successors; expanded = true });
}

unfoldable pub expand : FileSystem → List Bytes → DependencyGraph → ℕ → Outcome DependencyGraph
expand fs search_paths graph id =
    resolve_all fs search_paths graph (is_pe (node_at graph id).format) (node_at graph id).refs []
    >>= λ (graph', successors). ok (fill_successors graph' id successors)
