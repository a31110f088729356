-- ===== src/Deps/Graph.antt =====
-- src/internal/DependencyGraph.hpp, and the file system that src/DependencyLister.cpp asks. A
-- std::unordered_map from strings is an association list.
use libthe_seed.Prelude.{ℕ, Bool, false, List, [], Option, Outcome, Error}
use libthe_seed.Bounded.Order.{Bytes}

pub data NodeStatus : Type 0 where
  unresolved parsed unreadable : NodeStatus

pub data NodeFormat : Type 0 where
  no_format elf pe macho : NodeFormat

-- The text of a failure: the two that FileNode writes, and what a parser throws.
pub data Reason : Type 0 where
  no_reason : Reason
  unable_to_open not_regular_file : Bytes → Reason
  failure : Error → Reason

pub record DependencyNode : Type 0 where
  pub status : NodeStatus
  pub key : Bytes
  pub reason : Reason
  pub format : NodeFormat
  pub refs : List Bytes
  pub successors : List ℕ
  pub expanded : Bool

abbrev pub new_node : Bytes → NodeStatus → DependencyNode
new_node key status = record {
  status = status;
  key = key;
  reason = no_reason;
  format = no_format;
  refs = [];
  successors = [];
  expanded = false;
}

-- A folder's entries: lower-case name -> real names.
abbrev pub Listing : Type 0
Listing = List (Bytes × List Bytes)

pub record DependencyGraph : Type 0 where
  pub nodes : List DependencyNode
  pub by_key : List (Bytes × ℕ)
  pub by_unresolved_name : List (Bytes × ℕ)
  pub folder_listings : List (Bytes × Listing)
  pub resolved_exact : List (Bytes × ℕ)
  pub resolved_ignoring_case : List (Bytes × ℕ)

abbrev pub empty_graph : DependencyGraph
empty_graph = record {
  nodes = [];
  by_key = [];
  by_unresolved_name = [];
  folder_listings = [];
  resolved_exact = [];
  resolved_ignoring_case = [];
}

-- std::filesystem, and ReadFileBytes of src/internal/FileIO.cpp. It does not change during a request.
pub record FileSystem : Type 0 where
  -- canonical; `none` is an error
  pub canonical : Bytes → Option Bytes
  pub is_regular_file : Bytes → Bool
  pub is_directory : Bytes → Bool
  -- symlink_status gives no error and is not not_found
  pub entry_exists : Bytes → Bool
  -- the names that a directory_iterator gives before its end or an error
  pub list_folder : Bytes → List Bytes
  -- fs::path(folder) / name, as a string
  pub join : Bytes → Bytes → Bytes
  pub read_file_bytes : Bytes → Outcome Bytes
