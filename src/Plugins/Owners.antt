-- ===== src/Plugins/Owners.antt =====
-- The bookkeeping of PluginCache: who runs a load, and who keeps a promise.
use libthe_seed.Prelude.{
  ℕ, ◌≡◌, ◌≢◌, ◌<◌, ◌⊎◌, refl, sym, ap, ◌∙◌, inl, inr, false, List, [], ◌∷◌, Option, none, some,
  ◌==◌, if◌then◌else◌, length, same_name, same_name_eq, lookup_name, Bool-cases, arith,
}
use libthe_seed.Bounded.Order.{Bytes}
use libthe_seed.Plugins.Cache.{
  InFlight, Shared, Thread, Place, sharing, awaiting, searching, opening, finding, storing, failing,
  delivering, erase_name, future_at,
}

-- The load that a thread runs, while the cache has a record of it.
abbrev pub running : Place → Option ℕ
running (searching f locations count) = some f
running (opening f search file identity) = some f
running (finding f file handle) = some f
running (storing f entry) = some f
running (failing f error) = some f
running _ = none

-- The promise that a thread has to keep.
abbrev pub owing : Place → Option ℕ
owing (delivering f result) = some f
owing (searching f locations count) = some f
owing (opening f search file identity) = some f
owing (finding f file handle) = some f
owing (storing f entry) = some f
owing (failing f error) = some f
owing _ = none

-- The promise that a thread waits for.
abbrev pub pending : Place → Option ℕ
pending (sharing f) = some f
pending (awaiting f) = some f
pending _ = none

-- `threads` gives the threads by number.
pub record IsConsistent (s : Shared) (threads : ℕ → Thread) : Type 0 where
  pub recorded :
      (i f : ℕ)
      → running (threads i).place ≡ some f
      → (flight : InFlight) × (lookup_name (threads i).request.name s.in_flight ≡ some flight)
        × (flight.future ≡ f)
  pub one_owner :
      (i j f : ℕ) → owing (threads i).place ≡ some f → owing (threads j).place ≡ some f → i ≡ j
  pub owed : (i f : ℕ) → owing (threads i).place ≡ some f → f < length s.futures
  pub kept :
      (f : ℕ)
      → f < length s.futures
      → future_at s f ≡ none
      → (i : ℕ) × (owing (threads i).place ≡ some f)
  pub known :
      (name : Bytes) (flight : InFlight)
      → lookup_name name s.in_flight ≡ some flight
      → flight.future < length s.futures
  pub waited : (i f : ℕ) → pending (threads i).place ≡ some f → f < length s.futures

-- Thread `i` becomes `x`, and the others stay.
pub record IsMoved (threads : ℕ → Thread) (i : ℕ) (x : Thread) (threads' : ℕ → Thread)
    : Type 0 where
  pub there : threads' i ≡ x
  pub elsewhere : (j : ℕ) → i ≢ j → threads' j ≡ threads j

module _ {threads threads' : ℕ → Thread} {i : ℕ} {x : Thread}
    (m : IsMoved threads i x threads') where
  -- A property of thread `j` after the move.
  pub IsMoved-cases :
      (P : Thread → Type 0) (j : ℕ) → P (threads' j) → ((i ≡ j) × P x) ⊎ ((i ≢ j) × P (threads j))
  IsMoved-cases P j h = elim (Bool-cases (i == j)) [
    | inl same ↦ let e : i ≡ j = ground (arith, same) in inl (e, rw (← m.there, e) h)
    | inr other ↦
        let ne : i ≢ j = λ e. ground (arith, e, other) in inr (ne, rw (← m.elsewhere j ne) h)
  ]

-- The owner before the move, when the moved thread owes what it owed.
pub owing_before :
    {threads threads' : ℕ → Thread} {i : ℕ} {x : Thread}
    → IsMoved threads i x threads'
    → owing x.place ≡ owing (threads i).place
    → (j f : ℕ) → owing (threads' j).place ≡ some f
    → owing (threads j).place ≡ some f
owing_before m own j f e = elim (IsMoved-cases m (λ t. owing t.place ≡ some f) j e) [
  | inl (same, here) ↦ rw (← same) (sym own ∙ here)
  | inr (ne, there) ↦ there
]

pub owing_after :
    {threads threads' : ℕ → Thread} {i : ℕ} {x : Thread}
    → IsMoved threads i x threads'
    → owing x.place ≡ owing (threads i).place
    → (j f : ℕ) → owing (threads j).place ≡ some f
    → owing (threads' j).place ≡ some f
owing_after {i = i} m own j f e = elim (Bool-cases (i == j)) [
  | inl same ↦ let eq : i ≡ j = ground (arith, same) in rw (← eq, m.there) (own ∙ rw eq e)
  | inr other ↦ let ne : i ≢ j = λ eq. ground (arith, eq, other) in rw (m.elsewhere j ne) e
]

pub lookup-erase :
    {A : Type 0} (name other : Bytes) (es : List (Bytes × A))
    → same_name name other ≡ false
    → lookup_name other (erase_name name es) ≡ lookup_name other es
unfolding lookup_name erase_name
lookup-erase name other [] differ = refl
lookup-erase name other ((key, a) ∷ rest) differ = elim (Bool-cases (same_name key name)) [
  | inl same ↦
      let e : same_name key other ≡ false = rw (same_name_eq key name same) differ in
      rw (same, e) (lookup-erase name other rest differ)
  | inr kept ↦
      rw kept
        (ap (λ r. if same_name key other then some a else r) (lookup-erase name other rest differ))
]

lookup-erased :
    {A : Type 0} (name : Bytes) (es : List (Bytes × A))
    → lookup_name name (erase_name name es) ≡ none
unfolding lookup_name erase_name
lookup-erased name [] = refl
lookup-erased name ((key, b) ∷ rest) = elim (Bool-cases (same_name key name)) [
  | inl same ↦ rw same (lookup-erased name rest)
  | inr differ ↦ rw (differ, lookup_name, differ) (lookup-erased name rest)
]

pub erase-lookup :
    {A : Type 0} (name other : Bytes) (es : List (Bytes × A)) (a : A)
    → lookup_name other (erase_name name es) ≡ some a
    → lookup_name other es ≡ some a
erase-lookup name other es a e = elim (Bool-cases (same_name name other)) [
  | inl same ↦
      let gone : lookup_name other (erase_name name es) ≡ none =
        rw (← same_name_eq name other same) (lookup-erased name es) in
      absurd (cc)
  | inr differ ↦ sym (lookup-erase name other es differ) ∙ e
]

module _ {s : Shared} {threads : ℕ → Thread} (h : IsConsistent s threads) (i : ℕ) where
  -- A move that leaves the records, the promises and who holds them.
  pub IsConsistent-keep :
      (s' : Shared) (x : Thread) (threads' : ℕ → Thread)
      → IsMoved threads i x threads'
      → s'.in_flight ≡ s.in_flight
      → s'.futures ≡ s.futures
      → ((f : ℕ)
          → running x.place ≡ some f
          → (running (threads i).place ≡ some f) × (x.request.name ≡ (threads i).request.name))
      → owing x.place ≡ owing (threads i).place
      → ((f : ℕ) → pending x.place ≡ some f → f < length s.futures)
      → IsConsistent s' threads'
  IsConsistent-keep s' x threads' m flights futures run own wait = record {
    recorded = λ j f e. elim (IsMoved-cases m (λ t. running t.place ≡ some f) j e) [
      | inl (same, here) ↦
          let (before, name) = run f here in
          rw (flights, ← same, m.there, name) (h.recorded i f before)
      | inr (ne, there) ↦ rw (flights, m.elsewhere j ne) (h.recorded j f there)
    ];
    one_owner =
        λ j k f e e'. h.one_owner j k f (owing_before m own j f e) (owing_before m own k f e');
    owed = λ j f e. rw futures (h.owed j f (owing_before m own j f e));
    kept = λ f lt e.
        let (j, owner) = h.kept f (rw (← futures) lt) (rw (← futures) e) in
        (j, owing_after m own j f owner);
    known = λ name flight e. rw futures (h.known name flight (rw (← flights) e));
    waited = λ j f e. rw futures (elim (IsMoved-cases m (λ t. pending t.place ≡ some f) j e) [
      | inl (same, here) ↦ wait f here
      | inr (ne, there) ↦ h.waited j f there
    ]);
  }

  -- Two threads that run loads of one name are the same thread.
  pub one_load :
      (j f g : ℕ)
      → running (threads i).place ≡ some f
      → owing (threads i).place ≡ some f
      → running (threads j).place ≡ some g
      → owing (threads j).place ≡ some g
      → (threads i).request.name ≡ (threads j).request.name
      → i ≡ j
  one_load j f g run own run' own' same =
      let (flight, found, future) = h.recorded i f run in
      let (flight', found', future') = h.recorded j g run' in
      let flights : some flight ≡ some flight' = sym found ∙ rw same found' in
      let f≡g : f ≡ g = cc in h.one_owner i j f own (own' ∙ ap some (sym f≡g))
