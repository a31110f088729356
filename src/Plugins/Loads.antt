-- ===== src/Plugins/Loads.antt =====
-- What PluginCache promises: one load at a time for a name, one open for a file, and no wait without
-- an end.
use libthe_seed.Prelude.{
  ℕ, ◌≡◌, ◌≢◌, refl, ap, inl, inr, true, List, [], ◌∷◌, Option, none, some, map, All, same_name,
  same_name_refl, lookup_name, Bool-cases, arith,
}
use libthe_seed.Bounded.Order.{Bytes}
use libthe_seed.Plugins.Search.{SearchResult}
use libthe_seed.Plugins.Cache.{
  Entry, Linked, linked, refused, Loader, Request, InFlight, Shared, Place, asking, deciding,
  sharing, awaiting, searching, opening, finding, storing, failing, delivering, answered, decide,
  decide_entry, after_open, open_once, advance, path_add, State, call, move, add, thread_at, step,
  Reached, start, after,
}
use libthe_seed.Plugins.Owners.{running, one_load}
use libthe_seed.Plugins.Moves.{running-owing}
use libthe_seed.Plugins.Steps.{Reached-IsConsistent}

-- In every state that some order of calls, steps and new paths leads to, two threads that run a load
-- of one name are the same thread.
pub one_load_per_name :
    {loader : Loader} (w : State) (i j f g : ℕ)
    → Reached loader w
    → running (thread_at w i).place ≡ some f
    → running (thread_at w j).place ≡ some g
    → (thread_at w i).request.name ≡ (thread_at w j).request.name
    → i ≡ j
one_load_per_name w i j f g reached runs runs' same =
    one_load (Reached-IsConsistent w reached) i j f g runs
      (running-owing (thread_at w i).place f runs) runs'
      (running-owing (thread_at w j).place g runs') same

-- No name twice.
abbrev pub Once : List Bytes → Type 0
Once [] = Unit
Once (name ∷ rest) = All (λ other. other ≢ name) rest × Once rest

-- The history of opened files is that of the libraries, and names none twice.
abbrev OpenedOnce : Shared → Type 0
OpenedOnce s = (s.opened ≡ map (λ e. e.0) s.libraries) × Once s.opened

lookup-none :
    (name : Bytes) (es : List (Bytes × ℕ))
    → lookup_name name es ≡ none
    → All (λ other. other ≢ name) (map (λ e. e.0) es)
unfolding lookup_name
lookup-none name [] h = tt
lookup-none name ((key, a) ∷ rest) h = elim (Bool-cases (same_name key name)) [
  | inl same ↦ absurd (ground (arith, same, h))
  | inr differ ↦ (
    λ e. let same : same_name key name ≡ true = rw e (same_name_refl name) in cc,
    lookup-none name rest (ground (arith, differ, h)),
  )
]

decide-OpenedOnce :
    (s : Shared) (r : Request) (o : Option InFlight) → OpenedOnce s → OpenedOnce (decide s r o).0
decide-OpenedOnce s r none h = h
decide-OpenedOnce s r (some flight) h = h

decide_entry-OpenedOnce :
    (s : Shared) (r : Request) (o : Option Entry) → OpenedOnce s → OpenedOnce (decide_entry s r o).0
decide_entry-OpenedOnce s r none h = decide-OpenedOnce s r (lookup_name r.name s.in_flight) h
decide_entry-OpenedOnce s r (some entry) h = h

after_open-OpenedOnce :
    (s : Shared) (r : Request) (f : ℕ) (found : SearchResult) (file identity : Bytes) (o : Linked)
    → lookup_name identity s.libraries ≡ none
    → OpenedOnce s
    → OpenedOnce (after_open s r f found file identity o).0
after_open-OpenedOnce s r f found file identity (linked handle) new (same, once) =
    (ap (◌∷◌ identity) same, (rw same (lookup-none identity s.libraries new), once))
after_open-OpenedOnce s r f found file identity (refused text) new h = h

open_once-OpenedOnce :
    (loader : Loader) (s : Shared) (r : Request) (f : ℕ) (found : SearchResult)
    (file identity : Bytes) (o : Option ℕ)
    → lookup_name identity s.libraries ≡ o
    → OpenedOnce s
    → OpenedOnce (open_once loader s r f found file identity o).0
open_once-OpenedOnce loader s r f found file identity (some handle) known h = h
open_once-OpenedOnce loader s r f found file identity none new h =
    after_open-OpenedOnce s r f found file identity (loader.open_pinned file) new h

advance-OpenedOnce :
    (loader : Loader) (s : Shared) (r : Request) (p : Place)
    → OpenedOnce s
    → OpenedOnce (advance loader s r p).0
unfolding advance
advance-OpenedOnce loader s r asking h = h
advance-OpenedOnce loader s r deciding h =
    decide_entry-OpenedOnce s r (lookup_name r.name s.entries) h
advance-OpenedOnce loader s r (sharing f) h = h
advance-OpenedOnce loader s r (awaiting f) h = h
advance-OpenedOnce loader s r (searching f locations count) h = h
advance-OpenedOnce loader s r (opening f found file identity) h =
    open_once-OpenedOnce loader s r f found file identity (lookup_name identity s.libraries) refl h
advance-OpenedOnce loader s r (finding f file handle) h = h
advance-OpenedOnce loader s r (storing f entry) h = h
advance-OpenedOnce loader s r (failing f error) h = h
advance-OpenedOnce loader s r (delivering f result) h = h
advance-OpenedOnce loader s r (answered result) h = h

Reached-OpenedOnce : {loader : Loader} (w : State) → Reached loader w → OpenedOnce w.shared
unfolding step path_add
Reached-OpenedOnce w start = (refl, tt)
Reached-OpenedOnce w (after {w = v} reached (call r)) = Reached-OpenedOnce v reached
Reached-OpenedOnce {loader} w (after {w = v} reached (move i)) =
    advance-OpenedOnce loader v.shared (thread_at v i).request (thread_at v i).place
      (Reached-OpenedOnce v reached)
Reached-OpenedOnce w (after {w = v} reached (add path)) = Reached-OpenedOnce v reached

-- In every state that some order of calls, steps and new paths leads to, no file, by its identity, has
-- been opened twice, however many names lead to it.
pub opened-Once : {loader : Loader} (w : State) → Reached loader w → Once w.shared.opened
opened-Once w reached = (Reached-OpenedOnce w reached).1
