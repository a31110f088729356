-- ===== src/Plugins/Steps.antt =====
-- Every step of PluginCache keeps the bookkeeping.
use libthe_seed.Prelude.{
  get_or-set, ℕ, zero, suc, ◌≡◌, ◌≤◌, ◌<◌, refl, ap, ◌∙◌, inl, inr, List, [], ◌∷◌, ◌++◌, Option,
  none, some, ◌==◌, ltb, if◌then◌else◌, length, get_or, set, lookup_name, Bool-cases, arith,
}
use libthe_seed.Bounded.Order.{Bytes}
use libthe_seed.Plugins.Search.{SearchResult}
use libthe_seed.Plugins.Cache.{
  Entry, Result, loaded, Linked, linked, refused, Loader, Request, InFlight, Shared, Thread, Place,
  asking, deciding, sharing, awaiting, searching, opening, finding, storing, failing, delivering,
  answered, future_at, ask, decide, decide_entry, share, wait, after_search, open_once, after_find,
  advance, path_add, State, Event, call, move, add, thread_at, step, Reached, start, after,
  fresh_cache, idle,
}
use libthe_seed.Plugins.Owners.{running, owing, pending, IsConsistent, IsMoved, IsConsistent-keep}
use libthe_seed.Plugins.Moves.{IsConsistent-erase, IsConsistent-start, IsConsistent-deliver}

abbrev pub thread_of : Request → Place → Thread
thread_of r p = record { request = r; place = p }

-- From `p` to `p'` a thread keeps its load and its promise, and it waits for a promise that was made.
abbrev IsQuiet : Shared → Place → Place → Type 0
IsQuiet s p p' =
    ((f : ℕ) → running p' ≡ some f → running p ≡ some f)
    × (owing p' ≡ owing p)
    × ((f : ℕ) → pending p' ≡ some f → f < length s.futures)

ask-IsQuiet : (s : Shared) (o : Option Entry) → IsQuiet s asking (ask o)
ask-IsQuiet s none = (λ f e. e, refl, λ f e. absurd (cc))
ask-IsQuiet s (some entry) = (λ f e. e, refl, λ f e. absurd (cc))

share-IsQuiet :
    (s : Shared) (f : ℕ) (o : Option Result)
    → f < length s.futures
    → IsQuiet s (sharing f) (share f o)
share-IsQuiet s f none lt = (λ g e. e, refl, λ g e. let f≡g : f ≡ g = cc in omega (arith, f≡g, lt))
share-IsQuiet s f (some result) lt = (λ g e. e, refl, λ g e. absurd (cc))

wait-IsQuiet :
    (s : Shared) (f : ℕ) (o : Option Result)
    → f < length s.futures
    → IsQuiet s (awaiting f) (wait f o)
wait-IsQuiet s f none lt = (λ g e. e, refl, λ g e. let f≡g : f ≡ g = cc in omega (arith, f≡g, lt))
wait-IsQuiet s f (some result) lt = (λ g e. e, refl, λ g e. absurd (cc))

after_search-IsQuiet :
    (s : Shared) (r : Request) (f : ℕ) (locations : List Bytes) (count : ℕ) (search : SearchResult)
    (o : Option (Bytes × Bytes))
    → IsQuiet s (searching f locations count) (after_search r f search o)
after_search-IsQuiet s r f locations count search none = (λ g e. e, refl, λ g e. absurd (cc))
after_search-IsQuiet s r f locations count search (some found) =
    (λ g e. e, refl, λ g e. absurd (cc))

after_find-IsQuiet :
    (s : Shared) (r : Request) (f : ℕ) (file : Bytes) (handle : ℕ) (o : Linked)
    → IsQuiet s (finding f file handle) (after_find r f file o)
after_find-IsQuiet s r f file handle (linked address) = (λ g e. e, refl, λ g e. absurd (cc))
after_find-IsQuiet s r f file handle (refused text) = (λ g e. e, refl, λ g e. absurd (cc))

module _ {s : Shared} {threads : ℕ → Thread} (h : IsConsistent s threads) (i : ℕ)
    (r : Request) where
  -- The threads after thread `i` has gone from `p` to `q` are consistent with `s'`.
  abbrev Keeps : Place → Shared → Place → Type 0
  Keeps p s' q =
      threads i ≡ thread_of r p
      → (threads' : ℕ → Thread) → IsMoved threads i (thread_of r q) threads'
      → IsConsistent s' threads'

  quiet :
      (s' : Shared) (p q : Place)
      → IsQuiet s p q
      → s'.in_flight ≡ s.in_flight
      → s'.futures ≡ s.futures
      → Keeps p s' q
  quiet s' p q (run, own, wait) flights futures e threads' m =
      IsConsistent-keep h i s' (thread_of r q) threads' m flights futures
        (λ f running_now. (rw e (run f running_now), rw e refl)) (rw e own) wait

  decide-Keeps :
      (o : Option InFlight)
      → lookup_name r.name s.in_flight ≡ o
      → Keeps deciding (decide s r o).0 (decide s r o).1
  decide-Keeps none new = λ e threads' m.
      IsConsistent-start h i _ _ threads'
        (record { future = length s.futures; version = s.version }) m refl refl new refl refl
        (rw e refl) refl
  decide-Keeps (some flight) found = elim (Bool-cases (flight.version == s.version)) [
    | inl same ↦ rw same (
        quiet s deciding (sharing flight.future)
          (
            λ f e. absurd (cc),
            refl,
            λ f e.
                let f≡ : flight.future ≡ f = cc in omega (arith, f≡, h.known r.name flight found),
          )
          refl refl)
    | inr old ↦ rw old (
        quiet s deciding (awaiting flight.future)
          (
            λ f e. absurd (cc),
            refl,
            λ f e.
                let f≡ : flight.future ≡ f = cc in omega (arith, f≡, h.known r.name flight found),
          )
          refl refl)
  ]

  decide_entry-Keeps :
      (o : Option Entry) → Keeps deciding (decide_entry s r o).0 (decide_entry s r o).1
  decide_entry-Keeps none = decide-Keeps (lookup_name r.name s.in_flight) refl
  decide_entry-Keeps (some entry) =
      quiet s deciding (answered (loaded entry)) (λ f e. absurd (cc), refl, λ f e. absurd (cc)) refl
        refl

  open_once-Keeps :
      (loader : Loader) (f : ℕ) (found : SearchResult) (file identity : Bytes) (o : Option ℕ)
      (opened : Linked)
      → loader.open_pinned file ≡ opened
      → let a = open_once loader s r f found file identity o in
        Keeps (opening f found file identity) a.0 a.1
  open_once-Keeps loader f found file identity (some handle) opened e =
      quiet s _ (finding f file handle) (λ g q. q, refl, λ g q. absurd (cc)) refl refl
  open_once-Keeps loader f found file identity none (linked handle) e = rw e (
      quiet _ (opening f found file identity) (finding f file handle)
        (λ g q. q, refl, λ g q. absurd (cc)) refl refl)
  open_once-Keeps loader f found file identity none (refused text) e =
      rw e
        (quiet s (opening f found file identity) _ (λ g q. q, refl, λ g q. absurd (cc)) refl refl)

  advance-Keeps : (loader : Loader) (p : Place) → let a = advance loader s r p in Keeps p a.0 a.1
  unfolding advance
  advance-Keeps loader asking =
      quiet s asking _ (ask-IsQuiet s (lookup_name r.name s.entries)) refl refl
  advance-Keeps loader deciding = decide_entry-Keeps (lookup_name r.name s.entries)
  advance-Keeps loader (sharing f) = λ e.
      quiet s (sharing f) _ (share-IsQuiet s f (future_at s f) (h.waited i f (rw e refl))) refl refl
        e
  advance-Keeps loader (awaiting f) = λ e.
      quiet s (awaiting f) _ (wait-IsQuiet s f (future_at s f) (h.waited i f (rw e refl))) refl refl
        e
  advance-Keeps loader (searching f locations count) =
      quiet s (searching f locations count) _ (after_search-IsQuiet s r f locations count _ _) refl
        refl
  advance-Keeps loader (opening f found file identity) =
      open_once-Keeps loader f found file identity (lookup_name identity s.libraries)
        (loader.open_pinned file) refl
  advance-Keeps loader (finding f file handle) =
      quiet s (finding f file handle) _
        (after_find-IsQuiet s r f file handle (loader.symbol_find handle r.symbol)) refl refl
  advance-Keeps loader (storing f entry) = λ e threads' m.
      IsConsistent-erase h i _ _ threads' f m (rw e refl) refl (rw e refl) refl (rw e refl) refl
  advance-Keeps loader (failing f error) = λ e threads' m.
      IsConsistent-erase h i _ _ threads' f m (rw e refl) refl (rw e refl) refl (rw e refl) refl
  advance-Keeps loader (delivering f result) = λ e threads' m.
      IsConsistent-deliver h i _ _ threads' f result m refl refl (rw e refl) refl refl refl
  advance-Keeps loader (answered result) =
      quiet s (answered result) _ (λ f e. e, refl, λ f e. absurd (cc)) refl refl

set-beyond :
    (threads : List Thread) (i : ℕ) (x : Thread) → length threads ≤ i → set threads i x ≡ threads
set-beyond [] i x le = refl
set-beyond (t ∷ threads) zero x le = absurd (omega (arith, le))
set-beyond (t ∷ threads) (suc i) x le = ap (◌∷◌ t) (set-beyond threads i x (omega (arith, le)))

pub get_or-beyond :
    (threads : List Thread) (i : ℕ) (d : Thread) → length threads ≤ i → get_or threads i d ≡ d
get_or-beyond [] i d le = refl
get_or-beyond (t ∷ threads) zero d le = absurd (omega (arith, le))
get_or-beyond (t ∷ threads) (suc i) d le = get_or-beyond threads i d (omega (arith, le))

get_or-append_last :
    (threads : List Thread) (x d : Thread) (j : ℕ)
    → get_or (threads ++ x ∷ []) j d ≡ (if length threads == j then x else get_or threads j d)
get_or-append_last [] x d zero = refl
get_or-append_last [] x d (suc j) = ground arith
get_or-append_last (t ∷ threads) x d zero = ground arith
get_or-append_last (t ∷ threads) x d (suc j) = ground (arith, get_or-append_last threads x d j)

-- The thread after its step.
abbrev pub stepped : Loader → State → ℕ → Thread
stepped loader w i =
    let t = thread_at w i in record t { place = (advance loader w.shared t.request t.place).1 }

pub move-IsMoved :
    (loader : Loader) (w : State) (i : ℕ)
    → IsMoved (thread_at w) i (stepped loader w i) (thread_at (step loader w (move i)))
unfolding step advance
move-IsMoved loader w i = elim (Bool-cases (ltb i (length w.threads))) [
  | inl inside ↦
      let lt : i < length w.threads = ground (arith, inside) in
      let x = stepped loader w i in
      let moved : (j : ℕ)
          → get_or (set w.threads i x) j idle ≡ (if i == j then x else thread_at w j) =
        λ j. get_or-set w.threads i j x idle lt in
      record { there = moved i ∙ ground arith; elsewhere = λ j ne. moved j ∙ ground (arith, ne) }
  | inr beyond ↦
      let le : length w.threads ≤ i = ground (arith, beyond) in
      let same = set-beyond w.threads i (stepped loader w i) le in
      let nobody : thread_at w i ≡ idle = get_or-beyond w.threads i idle le in
      record {
        there = ap (λ ts. get_or ts i idle) same ∙ rw nobody refl;
        elsewhere = λ j ne. ap (λ ts. get_or ts j idle) same;
      }
]

pub call-IsMoved :
    (loader : Loader) (w : State) (r : Request)
    → IsMoved
        (thread_at w)
        (length w.threads)
        (thread_of r asking)
        (thread_at (step loader w (call r)))
unfolding step
call-IsMoved loader w r =
    let added = get_or-append_last w.threads (thread_of r asking) idle in
    record {
      there = added (length w.threads) ∙ ground arith;
      elsewhere = λ j ne. added j ∙ ground (arith, ne);
    }

step-IsConsistent :
    (loader : Loader) (w : State) (event : Event)
    → IsConsistent w.shared (thread_at w)
    → let w' = step loader w event in IsConsistent w'.shared (thread_at w')
step-IsConsistent loader w (call r) h =
    let nobody : thread_at w (length w.threads) ≡ idle =
      get_or-beyond w.threads (length w.threads) idle (omega arith) in
    unfold step in
    IsConsistent-keep h (length w.threads) w.shared (thread_of r asking) _ (call-IsMoved loader w r)
      refl refl (λ f e. absurd (cc)) (rw nobody refl) (λ f e. absurd (cc))
step-IsConsistent loader w (move i) h =
    unfold step in
    advance-Keeps h i (thread_at w i).request loader (thread_at w i).place refl _
      (move-IsMoved loader w i)
step-IsConsistent loader w (add path) h =
    unfold step in
    unfold path_add in
    record {
      recorded = h.recorded;
      one_owner = h.one_owner;
      owed = h.owed;
      kept = h.kept;
      known = h.known;
      waited = h.waited;
    }

start-IsConsistent : IsConsistent fresh_cache (λ i. idle)
unfolding lookup_name
start-IsConsistent = record {
  recorded = λ i f e. absurd (cc);
  one_owner = λ i j f e e'. absurd (cc);
  owed = λ i f e. absurd (cc);
  kept = λ f lt e. absurd (omega (arith, lt));
  known = λ name flight e. absurd (cc);
  waited = λ i f e. absurd (cc);
}

pub Reached-IsConsistent :
    {loader : Loader} (w : State) → Reached loader w → IsConsistent w.shared (thread_at w)
Reached-IsConsistent w start = start-IsConsistent
Reached-IsConsistent {loader} w (after {w = v} reached event) =
    step-IsConsistent loader v event (Reached-IsConsistent v reached)
