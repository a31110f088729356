-- ===== src/Deps/Report.antt =====
-- NormaliseInputs and ListDependencies of src/DependencyLister.cpp.
use libthe_seed.Prelude.{
  ℕ, zero, suc, Bool, true, false, not, ◌&&◌, List, [], ◌∷◌, ◌++◌, Option, none, some, ltb, ◌==◌,
  if◌then◌else◌, length, get_or, same_name, Outcome, ok, ◌>>=◌, fault,
}
use libthe_seed.Bounded.Order.{Bytes}
use libthe_seed.Deps.Graph.{
  NodeStatus, unreadable, Reason, DependencyNode, DependencyGraph, empty_graph, FileSystem,
}
use libthe_seed.Deps.Resolve.{file_node, name_lt, sort_names, node_at, is_parsed, expand}
use libthe_seed.Deps.Credits.{Marks, credit_nodes}

-- `identity` is "raw:" or "file:" and a path: whether it is resolved, and the path.
pub record Input : Type 0 where
  pub spelling : Bytes
  pub canonical : Option Bytes

abbrev pub identity_of : Bytes → Option Bytes → Bool × Bytes
identity_of path none = (false, path)
identity_of path (some canonical) = (true, canonical)

abbrev pub same_identity : Bool × Bytes → Bool × Bytes → Bool
same_identity (true, a) (true, b) = same_name a b
same_identity (false, a) (false, b) = same_name a b
same_identity _ _ = false

-- One input for each identity, with the smallest spelling.
unfoldable pub put_input :
    Bool × Bytes → Input → List ((Bool × Bytes) × Input) → List ((Bool × Bytes) × Input)
put_input identity input [] = (identity, input) ∷ []
put_input identity input ((other, slot) ∷ rest) =
    if same_identity other identity
    then (
      other,
      (if name_lt input.spelling slot.spelling
          then record slot { spelling = input.spelling }
          else slot),
    )
      ∷ rest
    else (other, slot) ∷ put_input identity input rest

unfoldable pub collect_inputs :
    FileSystem → List Bytes → List ((Bool × Bytes) × Input) → List ((Bool × Bytes) × Input)
collect_inputs fs [] slots = slots
collect_inputs fs (path ∷ rest) slots =
    let canonical = fs.canonical path in
    let input : Input = record { spelling = path; canonical = canonical } in
    collect_inputs fs rest (put_input (identity_of path canonical) input slots)

unfoldable pub insert_input : Input → List Input → List Input
insert_input input [] = input ∷ []
insert_input input (other ∷ rest) =
    if name_lt other.spelling input.spelling
    then other ∷ insert_input input rest
    else input ∷ other ∷ rest

-- std::sort by spelling
unfoldable pub sort_inputs : List ((Bool × Bytes) × Input) → List Input
sort_inputs [] = []
sort_inputs ((identity, input) ∷ rest) = insert_input input (sort_inputs rest)

unfoldable pub normalise_inputs : FileSystem → List Bytes → List Input
normalise_inputs fs binary_paths = sort_inputs (collect_inputs fs binary_paths [])

pub record LibraryError : Type 0 where
  pub reason : Reason
  pub inputs : List Bytes

-- A std::map is an association list; its order is that of its keys and not kept here.
pub record DependencyResult : Type 0 where
  pub dependencies : List (Bytes × List Bytes)
  pub errors : List (Bytes × Reason)
  pub library_errors : List (Bytes × LibraryError)

abbrev pub is_unreadable : NodeStatus → Bool
is_unreadable unreadable = true
is_unreadable _ = false

-- The nodes of the inputs, with the errors of those that cannot be read.
unfoldable pub input_nodes :
    FileSystem
    → DependencyGraph
    → List Input
    → List ℕ
    → List (Bytes × Reason)
    → Outcome (DependencyGraph × List ℕ × List (Bytes × Reason))
input_nodes fs graph [] nodes errors = ok (graph, nodes, errors)
input_nodes fs graph (input ∷ rest) nodes errors =
    file_node fs graph input.spelling input.canonical >>= λ (graph', id).
    input_nodes fs graph' rest (nodes ++ id ∷ []) (
      if is_unreadable (node_at graph' id).status
      then errors ++ (input.spelling, (node_at graph' id).reason) ∷ []
      else errors)

-- The loop over the nodes, which grow meanwhile. It runs on a bound of rounds; `none` when they
-- run out.
unfoldable pub expand_nodes :
    FileSystem → List Bytes → ℕ → ℕ → DependencyGraph → Outcome (Option DependencyGraph)
expand_nodes fs search_paths zero id graph =
    ok (if ltb id (length graph.nodes) then none else some graph)
expand_nodes fs search_paths (suc rounds) id graph =
    if ltb id (length graph.nodes)
    then (let node = node_at graph id in
        (if is_parsed node.status && not node.expanded
          then expand fs search_paths graph id
          else ok graph)
        >>= λ graph'. expand_nodes fs search_paths rounds (suc id) graph')
    else ok (some graph)

unfoldable pub spellings_of : List Input → List ℕ → List Bytes
spellings_of inputs [] = []
spellings_of inputs (index ∷ rest) =
    (get_or inputs index (record { spelling = []; canonical = none })).spelling
    ∷ spellings_of inputs rest

-- std::unique on a sorted list
unfoldable pub unique_names : List Bytes → List Bytes
unique_names [] = []
unique_names (a ∷ []) = a ∷ []
unique_names (a ∷ b ∷ rest) =
    let more = unique_names (b ∷ rest) in if same_name a b then more else a ∷ more

-- `result.dependencies[key]`: a key that two nodes share is sorted again, with no repeats.
unfoldable pub list_under :
    Bytes → List Bytes → List (Bytes × List Bytes) → List (Bytes × List Bytes)
list_under key more [] = (key, more) ∷ []
list_under key more ((other, listed) ∷ rest) =
    if same_name other key
    then (
      other,
      (if length listed == 0 then listed ++ more else unique_names (sort_names (listed ++ more))),
    )
      ∷ rest
    else (other, listed) ∷ list_under key more rest

-- The reason starts with the key; that prefix is a matter of its text.
unfoldable pub report_under :
    Bytes → Reason → List Bytes → List (Bytes × LibraryError) → List (Bytes × LibraryError)
report_under key reason more [] = (key, record { reason = reason; inputs = more }) ∷ []
report_under key reason more ((other, report) ∷ rest) =
    if same_name other key
    then (other, record report { inputs = report.inputs ++ more }) ∷ rest
    else (other, report) ∷ report_under key reason more rest

-- The loop over the nodes with their credits.
unfoldable pub collect_result :
    List Input → List DependencyNode → List (List ℕ) → DependencyResult → DependencyResult
collect_result inputs [] credits result = result
collect_result inputs (node ∷ nodes) [] result = result
collect_result inputs (node ∷ nodes) (credited ∷ credits) result =
    collect_result inputs nodes credits (
      if length credited == 0 then result else record result {
        dependencies = list_under node.key (spellings_of inputs credited) result.dependencies;
        library_errors =
            if is_unreadable node.status
            then report_under node.key node.reason (spellings_of inputs credited)
                result.library_errors
            else result.library_errors;
      })

unfoldable pub finish_reports : List (Bytes × LibraryError) → List (Bytes × LibraryError)
finish_reports [] = []
finish_reports ((key, report) ∷ rest) =
    (key, record report { inputs = unique_names (sort_names report.inputs) }) ∷ finish_reports rest

abbrev pub successors_of : DependencyGraph → ℕ → List ℕ
successors_of graph id = (node_at graph id).successors

unfoldable pub result_of :
    List Input → List (Bytes × Reason) → DependencyGraph → Marks → DependencyResult
result_of inputs errors graph m =
    let collected =
      collect_result inputs graph.nodes m.credits
        (record { dependencies = []; errors = errors; library_errors = [] }) in
    record collected { library_errors = finish_reports collected.library_errors }

-- What is left when every reachable file is read: the credits, then the result.
unfoldable pub credit_graph :
    List Input
    → List ℕ
    → List (Bytes × Reason)
    → Option DependencyGraph
    → Outcome (Option DependencyResult)
credit_graph inputs nodes errors none = ok none
credit_graph inputs nodes errors (some graph) =
    elim (credit_nodes (successors_of graph) (length graph.nodes) nodes) [
      | none ↦ fault
      | some m ↦ ok (some (result_of inputs errors graph m))
    ]

-- `none` when the rounds run out before every file is read.
unfoldable pub list_all_dependencies :
    FileSystem → ℕ → List Bytes → List Bytes → Outcome (Option DependencyResult)
list_all_dependencies fs rounds binary_paths search_paths =
    let inputs = normalise_inputs fs binary_paths in
    input_nodes fs empty_graph inputs [] [] >>= λ (graph, nodes, errors).
    expand_nodes fs search_paths rounds 0 graph >>= λ expanded.
    credit_graph inputs nodes errors expanded
