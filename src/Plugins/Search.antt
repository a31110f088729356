-- ===== src/Plugins/Search.antt =====
-- SearchFirst of src/internal/PluginSearch.cpp. The file system is a parameter.
use libthe_seed.Prelude.{ℕ, suc, Bool, List, [], ◌∷◌, Option, none, some, leb}
use libthe_seed.Bounded.Order.{Bytes}

-- std::error_code: the two codes that mean absent, or another one with its text.
pub data ErrorCode : Type 0 where
  no_such_file_or_directory not_a_directory : ErrorCode
  other_error : Bytes → ErrorCode

pub data Answer (A : Type 0) : Type 0 where
  given : A → Answer A
  failed : ErrorCode → Answer A

pub data FileType : Type 0 where
  regular directory other_type : FileType

-- std::filesystem, which does not change during a search.
pub record Folders : Type 0 where
  pub absolute : Bytes → Answer Bytes
  pub status : Bytes → Answer FileType
  -- directory / file_name
  pub join : Bytes → Bytes → Bytes
  pub lexically_normal : Bytes → Bytes
  pub canonical : Bytes → Answer Bytes

pub data LocationState : Type 0 where
  not_reached missing searched found unreadable : LocationState

pub record Location : Type 0 where
  pub path : Bytes
  pub development : Bool
  pub state : LocationState
  pub reason : Bytes

-- The deciding file is `file` and its `identity`; none when nothing is found.
pub record SearchResult : Type 0 where
  pub deciding : Option (Bytes × Bytes)
  pub locations : List Location

-- What one location comes to: its state, the text, and the candidate when it holds the file.
pub record Looked : Type 0 where
  pub state : LocationState
  pub reason : Bytes
  pub candidate : Option Bytes

abbrev pub looked : LocationState → Looked
looked state = record { state = state; reason = []; candidate = none }

-- `absent` gives the state for an absent path; other codes are unreadable.
abbrev pub after_error : LocationState → ErrorCode → Looked
after_error absent (other_error text) = record {
  state = unreadable;
  reason = text;
  candidate = none;
}
after_error absent _ = looked absent

abbrev pub look_at_file : Bytes → Answer FileType → Looked
look_at_file candidate (given regular) = record {
  state = found;
  reason = [];
  candidate = some candidate;
}
look_at_file candidate (given _) = looked searched
look_at_file candidate (failed code) = after_error searched code

module _ (folders : Folders) (file_name : Bytes) where
  abbrev pub look_in_directory : Bytes → Answer FileType → Looked
  look_in_directory path (given directory) =
      let candidate = folders.join path file_name in
      look_at_file candidate (folders.status candidate)
  look_in_directory path (given _) = looked missing
  look_in_directory path (failed code) = after_error missing code

  abbrev pub look_at_path : Answer Bytes → Looked
  look_at_path (given path) = look_in_directory path (folders.status path)
  look_at_path (failed code) = after_error missing code

  -- One round of the loop.
  unfoldable pub look_in : Bytes → Looked
  look_in location = look_at_path (folders.absolute location)

  -- The canonical path, or else the file itself.
  abbrev pub identity_or : Bytes → Answer Bytes → Bytes
  identity_or file (given canonical) = canonical
  identity_or file (failed code) = file

  abbrev pub decided : Bytes → Bytes × Bytes
  decided candidate =
      let file = folders.lexically_normal candidate in
      (file, identity_or file (folders.canonical candidate))

  unfoldable pub unreached : ℕ → ℕ → List Bytes → List Location
  unreached configured_count i [] = []
  unreached configured_count i (location ∷ rest) =
      record {
        path = location;
        development = leb configured_count i;
        state = not_reached;
        reason = [];
      }
      ∷ unreached configured_count (suc i) rest

  -- The loop from location `i` on; it stops at the first that holds the file.
  unfoldable pub search_from : ℕ → ℕ → List Bytes → SearchResult
  search_from configured_count i [] = record { deciding = none; locations = [] }
  search_from configured_count i (location ∷ rest) =
      let seen = look_in location in
      let entry : Location = record {
        path = location;
        development = leb configured_count i;
        state = seen.state;
        reason = seen.reason;
      } in
      let later = search_from configured_count (suc i) rest in
      elim seen.candidate [
        | some candidate ↦ record {
          deciding = some (decided candidate);
          locations = entry ∷ unreached configured_count (suc i) rest;
        }
        | none ↦ record { deciding = later.deciding; locations = entry ∷ later.locations }
      ]

unfoldable pub search_first : Folders → List Bytes → Bytes → ℕ → SearchResult
search_first folders locations file_name configured_count =
    search_from folders file_name configured_count 0 locations
