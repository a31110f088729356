-- ===== src/Plugins/Tests.antt =====
-- Two threads that ask for one plugin, in a folder that holds it.
use libthe_seed.Prelude.{
  ℕ, ◌≡◌, ◌≤◌, ◌⊎◌, refl, List, [], ◌∷◌, ◌++◌, some, if◌then◌else◌, map, same_name, lookup_name,
}
use libthe_seed.Bounded.Order.{Bytes}
use libthe_seed.Plugins.Places.{plugin_file_name, search_list_build}
use libthe_seed.Plugins.Search.{
  other_error, given, failed, regular, directory, Folders, look_in, search_from, search_first,
}
use libthe_seed.Plugins.First.{IsFirst, search_first-IsFirst}
use libthe_seed.Plugins.Cache.{
  Result, loaded, linked, Loader, Request, State, answered, sharing, Event, call, move, add,
  thread_at, put_name, erase_name, advance, path_add, step, Reached, start, after, fresh_cache,
}
use libthe_seed.Plugins.Loads.{Once, one_load_per_name, opened-Once}
use libthe_seed.Plugins.Progress.{Kept}
use libthe_seed.Plugins.Waiting.{run, moves_of, wait_ends}

abbrev library : Bytes
library = b'm' ∷ []

abbrev home : Bytes
home = b'h' ∷ []

-- The folder h holds the file; every other folder is unreadable.
abbrev disk : Folders
disk = record {
  absolute = λ path. given path;
  status = λ path.
      if same_name path home
      then given directory
      else if same_name path (home ++ plugin_file_name library)
      then given regular
      else failed (other_error []);
  join = λ folder name. folder ++ name;
  lexically_normal = λ path. path;
  canonical = λ path. given path;
}

search_small :
    (search_first disk
      ((b'x' ∷ []) ∷ home ∷ (b'y' ∷ []) ∷ [])
      (plugin_file_name library)
      2).deciding
    ≡ some (home ++ plugin_file_name library, home ++ plugin_file_name library)
unfolding search_first search_from look_in plugin_file_name same_name
search_small = refl

search_first-IsFirst_example :
    let r = search_first disk ((b'x' ∷ []) ∷ home ∷ []) (plugin_file_name library) 1 in
    IsFirst disk (plugin_file_name library) ((b'x' ∷ []) ∷ home ∷ []) r.deciding
    × (map (λ l. l.path) r.locations ≡ (b'x' ∷ []) ∷ home ∷ [])
search_first-IsFirst_example =
    search_first-IsFirst disk (plugin_file_name library) ((b'x' ∷ []) ∷ home ∷ []) 1

abbrev loader : Loader
loader = record {
  folders = disk;
  open_pinned = λ file. linked 7;
  symbol_find = λ handle symbol. linked 9;
}

abbrev request : Request
request = record { name = library; org = []; library = library; symbol = b'c' ∷ []; kind = [] }

abbrev empty : State
empty = record { shared = fresh_cache; threads = [] }

-- The first thread starts the load, and the second waits for it.
abbrev both_asked : State
both_asked =
    run loader empty
      (add home ∷ call request ∷ call request ∷ move 0 ∷ move 0 ∷ move 1 ∷ move 1 ∷ [])

both_asked-Reached : Reached loader both_asked
both_asked-Reached =
    after
      (after
        (after
          (after (after (after (after start (add home)) (call request)) (call request)) (move 0))
          (move 0))
        (move 1))
      (move 1)

second_waits : (thread_at both_asked 1).place ≡ sharing 0
unfolding step advance path_add lookup_name search_list_build same_name
second_waits = refl

wait_ends_example :
    Kept both_asked.shared 0
    ⊎ ((j : ℕ) × ((events : List Event)
          → 5 ≤ moves_of j events
          → Kept (run loader both_asked events).shared 0))
unfolding step advance path_add lookup_name search_list_build same_name
wait_ends_example = wait_ends both_asked 1 0 both_asked-Reached refl

one_load_per_name_example : ◌≡◌ {A = ℕ} 0 0
unfolding step advance path_add lookup_name search_list_build same_name
one_load_per_name_example = one_load_per_name both_asked 0 0 0 0 both_asked-Reached refl refl refl

abbrev both_answered : State
both_answered = run loader both_asked (move 0 ∷ move 0 ∷ move 0 ∷ move 0 ∷ move 0 ∷ move 1 ∷ [])

abbrev first_entry : Result
first_entry = loaded (record { creator = 9; file = home ++ plugin_file_name library })

answers :
    map (λ t. t.place) both_answered.threads ≡ answered first_entry ∷ answered first_entry ∷ []
unfolding step advance path_add lookup_name search_list_build same_name search_first search_from
    look_in plugin_file_name put_name erase_name
answers = refl

opened-Once_example : Once both_answered.shared.opened
opened-Once_example = opened-Once both_answered (
    after
      (after (after (after (after (after both_asked-Reached (move 0)) (move 0)) (move 0)) (move 0))
        (move 0))
      (move 1))
