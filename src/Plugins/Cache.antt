-- ===== src/Plugins/Cache.antt =====
-- PluginCache of src/internal/PluginCache.hpp, as steps of threads. A step is what a thread does under
-- one lock, or between two; opening and finding a symbol are the system's, and parameters. A failure
-- that is not a LoadError (memory that runs out) is left out.
use libthe_seed.Prelude.{
  ℕ, suc, false, List, [], ◌∷◌, ◌++◌, Option, none, some, ◌==◌, if◌then◌else◌, length, get_or, set,
  same_name, lookup_name,
}
use libthe_seed.Bounded.Order.{Bytes}
use libthe_seed.Plugins.Places.{plugin_file_name, search_list_build}
use libthe_seed.Plugins.Search.{Folders, SearchResult, search_first}

pub record Entry : Type 0 where
  pub creator : ℕ
  pub file : Bytes

-- The LoadError that is thrown, by its reason.
pub data LoadError : Type 0 where
  not_found : SearchResult → Bytes → Bytes → Bytes → LoadError
  not_loadable : SearchResult → Bytes → Bytes → Bytes → LoadError
  entry_point_missing : Bytes → Bytes → Bytes → Bytes → Bytes → LoadError

-- What a finished load hands to those waiting for it.
pub data Result : Type 0 where
  loaded : Entry → Result
  thrown : LoadError → Result

-- A handle or an address, or the text of the failure.
pub data Linked : Type 0 where
  linked : ℕ → Linked
  refused : Bytes → Linked

pub record Loader : Type 0 where
  pub folders : Folders
  pub open_pinned : Bytes → Linked
  pub symbol_find : ℕ → Bytes → Linked

-- The arguments of Get.
pub record Request : Type 0 where
  pub name : Bytes
  pub org : Bytes
  pub library : Bytes
  pub symbol : Bytes
  pub kind : Bytes

-- A load that runs: its future, by number, and the version of the settings it started with.
pub record InFlight : Type 0 where
  pub future : ℕ
  pub version : ℕ

-- `futures` holds the promises made, by number, with what they were given; `opened` is the
-- history of identities whose file was opened.
pub record Shared : Type 0 where
  pub paths : List Bytes
  pub version : ℕ
  pub entries : List (Bytes × Entry)
  pub in_flight : List (Bytes × InFlight)
  pub libraries : List (Bytes × ℕ)
  pub futures : List (Option Result)
  pub opened : List Bytes

-- Where a thread stands in Get.
pub data Place : Type 0 where
  asking deciding : Place
  sharing awaiting : ℕ → Place
  searching : ℕ → List Bytes → ℕ → Place
  opening : ℕ → SearchResult → Bytes → Bytes → Place
  finding : ℕ → Bytes → ℕ → Place
  storing : ℕ → Entry → Place
  failing : ℕ → LoadError → Place
  delivering : ℕ → Result → Place
  answered : Result → Place

-- `map[name] = value`
unfoldable pub put_name {ℓ} : {A : Type ℓ} → Bytes → A → List (Bytes × A) → List (Bytes × A)
put_name name a [] = (name, a) ∷ []
put_name name a ((key, b) ∷ rest) =
    if same_name key name then (key, a) ∷ rest else (key, b) ∷ put_name name a rest

-- `map.erase(name)`
unfoldable pub erase_name {ℓ} : {A : Type ℓ} → Bytes → List (Bytes × A) → List (Bytes × A)
erase_name name [] = []
erase_name name ((key, b) ∷ rest) =
    let more = erase_name name rest in if same_name key name then more else (key, b) ∷ more

abbrev pub future_at : Shared → ℕ → Option Result
future_at s f = get_or s.futures f none

-- The first lookup, under the shared lock.
abbrev pub ask : Option Entry → Place
ask (some entry) = answered (loaded entry)
ask none = deciding

-- No entry: join the load that runs, or start one.
abbrev pub decide : Shared → Request → Option InFlight → Shared × Place
decide s r (some flight) =
    (s, (if flight.version == s.version then sharing flight.future else awaiting flight.future))
decide s r none =
    let f = length s.futures in
    let (locations, configured_count) = search_list_build s.paths r.org r.library false in
    (
      record s {
        futures = s.futures ++ none ∷ [];
        in_flight = (r.name, record { future = f; version = s.version }) ∷ s.in_flight;
      },
      searching f locations configured_count,
    )

-- The second lookup, under the exclusive lock.
abbrev pub decide_entry : Shared → Request → Option Entry → Shared × Place
decide_entry s r (some entry) = (s, answered (loaded entry))
decide_entry s r none = decide s r (lookup_name r.name s.in_flight)

-- Waiting does nothing while the promise is not kept.
abbrev pub share : ℕ → Option Result → Place
share f (some result) = answered result
share f none = sharing f

abbrev pub wait : ℕ → Option Result → Place
wait f (some result) = asking
wait f none = awaiting f

abbrev pub after_search : Request → ℕ → SearchResult → Option (Bytes × Bytes) → Place
after_search r f search none =
    failing f (not_found search r.name (plugin_file_name r.library) r.kind)
after_search r f search (some (file, identity)) = opening f search file identity

abbrev pub after_open :
    Shared → Request → ℕ → SearchResult → Bytes → Bytes → Linked → Shared × Place
after_open s r f search file identity (linked handle) = (
  record s { libraries = (identity, handle) ∷ s.libraries; opened = identity ∷ s.opened },
  finding f file handle,
)
after_open s r f search file identity (refused text) =
    (s, failing f (not_loadable search r.name text r.kind))

-- The section under open_mutex.
abbrev pub open_once :
    Loader → Shared → Request → ℕ → SearchResult → Bytes → Bytes → Option ℕ → Shared × Place
open_once loader s r f search file identity (some handle) = (s, finding f file handle)
open_once loader s r f search file identity none =
    after_open s r f search file identity (loader.open_pinned file)

abbrev pub after_find : Request → ℕ → Bytes → Linked → Place
after_find r f file (linked address) = storing f (record { creator = address; file = file })
after_find r f file (refused text) =
    failing f (entry_point_missing file r.name r.symbol text r.kind)

unfoldable pub advance : Loader → Shared → Request → Place → Shared × Place
advance loader s r asking = (s, ask (lookup_name r.name s.entries))
advance loader s r deciding = decide_entry s r (lookup_name r.name s.entries)
advance loader s r (sharing f) = (s, share f (future_at s f))
advance loader s r (awaiting f) = (s, wait f (future_at s f))
advance loader s r (searching f locations configured_count) =
    let search =
      search_first loader.folders locations (plugin_file_name r.library) configured_count in
    (s, after_search r f search search.deciding)
advance loader s r (opening f search file identity) =
    open_once loader s r f search file identity (lookup_name identity s.libraries)
advance loader s r (finding f file handle) =
    (s, after_find r f file (loader.symbol_find handle r.symbol))
advance loader s r (storing f entry) = (
  record s { entries = put_name r.name entry s.entries; in_flight = erase_name r.name s.in_flight },
  delivering f (loaded entry),
)
advance loader s r (failing f error) =
    (record s { in_flight = erase_name r.name s.in_flight }, delivering f (thrown error))
advance loader s r (delivering f result) =
    (record s { futures = set s.futures f (some result) }, answered result)
advance loader s r (answered result) = (s, answered result)

-- PathAdd
unfoldable pub path_add : Shared → Bytes → Shared
path_add s path = record s { paths = s.paths ++ path ∷ []; version = suc s.version }

pub record Thread : Type 0 where
  pub request : Request
  pub place : Place

pub record State : Type 0 where
  pub shared : Shared
  pub threads : List Thread

abbrev pub fresh_cache : Shared
fresh_cache = record {
  paths = [];
  version = 0;
  entries = [];
  in_flight = [];
  libraries = [];
  futures = [];
  opened = [];
}

-- What can come next: a call of Get, a step of a thread, or a call of PathAdd.
pub data Event : Type 0 where
  call : Request → Event
  move : ℕ → Event
  add : Bytes → Event

abbrev pub no_request : Request
no_request = record { name = []; org = []; library = []; symbol = []; kind = [] }

abbrev pub idle : Thread
idle = record {
  request = no_request;
  place = answered (loaded (record { creator = 0; file = [] }));
}

-- `threads[i]`; there is no such thread, and no step, beyond the last.
abbrev pub thread_at : State → ℕ → Thread
thread_at w i = get_or w.threads i idle

unfoldable pub step : Loader → State → Event → State
step loader w (call request) = record w {
  threads = w.threads ++ (record { request = request; place = asking }) ∷ [];
}
step loader w (move i) =
    let thread = thread_at w i in
    let (shared, place) = advance loader w.shared thread.request thread.place in
    record { shared = shared; threads = set w.threads i (record thread { place = place }) }
step loader w (add path) = record w { shared = path_add w.shared path }

-- The states that some order of events leads to.
pub data Reached (loader : Loader) : State → Type 0 where
  start : Reached loader (record { shared = fresh_cache; threads = [] })
  after : {w : State} → Reached loader w → (event : Event) → Reached loader (step loader w event)
