-- ===== src/Plugins/Progress.antt =====
-- Whoever waits in PluginCache waits for a thread that needs at most five steps.
use libthe_seed.Prelude.{
  get_or-set, ℕ, zero, suc, ◌≡◌, ◌≤◌, ◌<◌, ◌⊎◌, refl, ◌∙◌, inl, inr, List, [], ◌∷◌, ◌++◌, Option,
  none, some, length, get_or, set, lookup_name, arith,
}
use libthe_seed.Bounded.Order.{Bytes}
use libthe_seed.Plugins.Search.{SearchResult}
use libthe_seed.Plugins.Cache.{
  Entry, Result, Linked, linked, refused, Loader, Request, InFlight, Shared, Place, asking,
  deciding, sharing, awaiting, searching, opening, finding, storing, failing, delivering, answered,
  future_at, decide, decide_entry, after_search, after_open, open_once, after_find, advance,
  path_add, State, Event, call, move, add, thread_at, step,
}
use libthe_seed.Plugins.Owners.{owing}

-- The steps that a thread needs to keep its promise.
abbrev pub left : Place → ℕ
left (searching f locations count) = 5
left (opening f found file identity) = 4
left (finding f file handle) = 3
left (storing f entry) = 2
left (failing f error) = 2
left (delivering f result) = 1
left _ = 0

pub left-le : (p : Place) → left p ≤ 5
left-le (searching f locations count) = omega arith
left-le (opening f found file identity) = omega arith
left-le (finding f file handle) = omega arith
left-le (storing f entry) = omega arith
left-le (failing f error) = omega arith
left-le (delivering f result) = omega arith
left-le asking = omega arith
left-le deciding = omega arith
left-le (sharing f) = omega arith
left-le (awaiting f) = omega arith
left-le (answered result) = omega arith

pub left-pos : (p : Place) (f : ℕ) → owing p ≡ some f → 0 < left p
left-pos (searching g locations count) f e = omega arith
left-pos (opening g found file identity) f e = omega arith
left-pos (finding g file handle) f e = omega arith
left-pos (storing g entry) f e = omega arith
left-pos (failing g error) f e = omega arith
left-pos (delivering g result) f e = omega arith
left-pos asking f e = absurd (cc)
left-pos deciding f e = absurd (cc)
left-pos (sharing g) f e = absurd (cc)
left-pos (awaiting g) f e = absurd (cc)
left-pos (answered result) f e = absurd (cc)

abbrev pub Kept : Shared → ℕ → Type 0
Kept s f = (result : Result) × (future_at s f ≡ some result)

-- The promise is still owed, with a step less to go, or it is kept.
abbrev pub IsCloser : ℕ → Place → Shared × Place → Type 0
IsCloser f p a = ((owing a.1 ≡ some f) × (suc (left a.1) ≤ left p)) ⊎ Kept a.0 f

after_search-IsCloser :
    (s : Shared) (r : Request) (f : ℕ) (locations : List Bytes) (count : ℕ) (found : SearchResult)
    (o : Option (Bytes × Bytes))
    → IsCloser f (searching f locations count) (s, after_search r f found o)
after_search-IsCloser s r f locations count found none = inl (refl, omega arith)
after_search-IsCloser s r f locations count found (some here) = inl (refl, omega arith)

after_open-IsCloser :
    (s : Shared) (r : Request) (f : ℕ) (found : SearchResult) (file identity : Bytes) (o : Linked)
    → IsCloser f (opening f found file identity) (after_open s r f found file identity o)
after_open-IsCloser s r f found file identity (linked handle) = inl (refl, omega arith)
after_open-IsCloser s r f found file identity (refused text) = inl (refl, omega arith)

open_once-IsCloser :
    (loader : Loader) (s : Shared) (r : Request) (f : ℕ) (found : SearchResult)
    (file identity : Bytes) (o : Option ℕ)
    → IsCloser f (opening f found file identity) (open_once loader s r f found file identity o)
open_once-IsCloser loader s r f found file identity (some handle) = inl (refl, omega arith)
open_once-IsCloser loader s r f found file identity none =
    after_open-IsCloser s r f found file identity (loader.open_pinned file)

after_find-IsCloser :
    (s : Shared) (r : Request) (f : ℕ) (file : Bytes) (handle : ℕ) (o : Linked)
    → IsCloser f (finding f file handle) (s, after_find r f file o)
after_find-IsCloser s r f file handle (linked address) = inl (refl, omega arith)
after_find-IsCloser s r f file handle (refused text) = inl (refl, omega arith)

set_here :
    (fs : List (Option Result)) (f : ℕ) (result : Result)
    → f < length fs
    → get_or (set fs f (some result)) f none ≡ some result
set_here fs f result lt = get_or-set fs f f (some result) none lt ∙ ground arith

pub advance-IsCloser :
    (loader : Loader) (s : Shared) (r : Request) (p : Place) (f : ℕ)
    → owing p ≡ some f
    → f < length s.futures
    → IsCloser f p (advance loader s r p)
unfolding advance
advance-IsCloser loader s r asking f e lt = absurd (cc)
advance-IsCloser loader s r deciding f e lt = absurd (cc)
advance-IsCloser loader s r (sharing g) f e lt = absurd (cc)
advance-IsCloser loader s r (awaiting g) f e lt = absurd (cc)
advance-IsCloser loader s r (answered result) f e lt = absurd (cc)
advance-IsCloser loader s r (searching g locations count) f e lt =
    let g≡f : g ≡ f = cc in rw (← g≡f) (after_search-IsCloser s r g locations count _ _)
advance-IsCloser loader s r (opening g found file identity) f e lt =
    let g≡f : g ≡ f = cc in
    rw (← g≡f)
      (open_once-IsCloser loader s r g found file identity (lookup_name identity s.libraries))
advance-IsCloser loader s r (finding g file handle) f e lt =
    let g≡f : g ≡ f = cc in
    rw (← g≡f) (after_find-IsCloser s r g file handle (loader.symbol_find handle r.symbol))
advance-IsCloser loader s r (storing g entry) f e lt = inl (e, omega arith)
advance-IsCloser loader s r (failing g error) f e lt = inl (e, omega arith)
advance-IsCloser loader s r (delivering g result) f e lt =
    let g≡f : g ≡ f = cc in inr (result, rw g≡f (set_here s.futures f result lt))

get_or-append_some :
    (fs gs : List (Option Result)) (f : ℕ) (result : Result)
    → get_or fs f none ≡ some result
    → get_or (fs ++ gs) f none ≡ some result
get_or-append_some [] gs f result e = absurd (cc)
get_or-append_some (x ∷ fs) gs zero result e = e
get_or-append_some (x ∷ fs) gs (suc f) result e = get_or-append_some fs gs f result e

set_keeps :
    (fs : List (Option Result)) (g f : ℕ) (result : Result) (other : Result)
    → get_or fs f none ≡ some result
    → (now : Result) × (get_or (set fs g (some other)) f none ≡ some now)
set_keeps [] g f result other e = absurd (cc)
set_keeps (x ∷ fs) zero zero result other e = (other, refl)
set_keeps (x ∷ fs) zero (suc f) result other e = (result, e)
set_keeps (x ∷ fs) (suc g) zero result other e = (result, e)
set_keeps (x ∷ fs) (suc g) (suc f) result other e = set_keeps fs g f result other e

decide-Kept :
    (s : Shared) (r : Request) (o : Option InFlight) (f : ℕ) → Kept s f → Kept (decide s r o).0 f
decide-Kept s r none f (result, e) = (result, get_or-append_some s.futures (none ∷ []) f result e)
decide-Kept s r (some flight) f k = k

decide_entry-Kept :
    (s : Shared) (r : Request) (o : Option Entry) (f : ℕ) → Kept s f → Kept (decide_entry s r o).0 f
decide_entry-Kept s r none f k = decide-Kept s r (lookup_name r.name s.in_flight) f k
decide_entry-Kept s r (some entry) f k = k

after_open-Kept :
    (s : Shared) (r : Request) (g : ℕ) (found : SearchResult) (file identity : Bytes) (o : Linked)
    (f : ℕ)
    → Kept s f
    → Kept (after_open s r g found file identity o).0 f
after_open-Kept s r g found file identity (linked handle) f k = k
after_open-Kept s r g found file identity (refused text) f k = k

open_once-Kept :
    (loader : Loader) (s : Shared) (r : Request) (g : ℕ) (found : SearchResult)
    (file identity : Bytes) (o : Option ℕ) (f : ℕ)
    → Kept s f
    → Kept (open_once loader s r g found file identity o).0 f
open_once-Kept loader s r g found file identity (some handle) f k = k
open_once-Kept loader s r g found file identity none f k =
    after_open-Kept s r g found file identity (loader.open_pinned file) f k

advance-Kept :
    (loader : Loader) (s : Shared) (r : Request) (p : Place) (f : ℕ)
    → Kept s f
    → Kept (advance loader s r p).0 f
unfolding advance
advance-Kept loader s r asking f k = k
advance-Kept loader s r deciding f k = decide_entry-Kept s r (lookup_name r.name s.entries) f k
advance-Kept loader s r (sharing g) f k = k
advance-Kept loader s r (awaiting g) f k = k
advance-Kept loader s r (searching g locations count) f k = k
advance-Kept loader s r (opening g found file identity) f k =
    open_once-Kept loader s r g found file identity (lookup_name identity s.libraries) f k
advance-Kept loader s r (finding g file handle) f k = k
advance-Kept loader s r (storing g entry) f k = k
advance-Kept loader s r (failing g error) f k = k
advance-Kept loader s r (delivering g result) f (now, e) = set_keeps s.futures g f now result e
advance-Kept loader s r (answered result) f k = k

pub step-Kept :
    (loader : Loader) (w : State) (event : Event) (f : ℕ)
    → Kept w.shared f
    → Kept (step loader w event).shared f
unfolding step path_add
step-Kept loader w (call r) f k = k
step-Kept loader w (move i) f k =
    advance-Kept loader w.shared (thread_at w i).request (thread_at w i).place f k
step-Kept loader w (add path) f k = k
