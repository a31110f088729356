-- ===== src/Plugins/Moves.antt =====
-- The steps of PluginCache that start a load, take its record out, and keep its promise.
use libthe_seed.Prelude.{
  get_or-set, ℕ, zero, suc, ◌≡◌, ◌≢◌, ◌<◌, ◌⊎◌, refl, sym, ap, ◌∙◌, inl, inr, List, [], ◌∷◌, ◌++◌,
  Option, none, some, ◌==◌, if◌then◌else◌, length, length-append, length-set, get_or, set,
  same_name, same_name_refl, same_name_eq, lookup_name, Bool-cases, arith,
}
use libthe_seed.Bounded.Order.{Bytes}
use libthe_seed.Plugins.Cache.{
  Result, InFlight, Shared, Thread, Place, asking, deciding, sharing, awaiting, searching, opening,
  finding, storing, failing, delivering, answered, erase_name, future_at,
}
use libthe_seed.Plugins.Owners.{
  running, owing, pending, IsConsistent, IsMoved, IsMoved-cases, owing_before, owing_after,
  lookup-erase, erase-lookup,
}

pub running-owing : (p : Place) (f : ℕ) → running p ≡ some f → owing p ≡ some f
running-owing (searching g locations count) f e = e
running-owing (opening g search file identity) f e = e
running-owing (finding g file handle) f e = e
running-owing (storing g entry) f e = e
running-owing (failing g error) f e = e
running-owing (delivering g result) f e = absurd (cc)
running-owing asking f e = absurd (cc)
running-owing deciding f e = absurd (cc)
running-owing (sharing g) f e = absurd (cc)
running-owing (awaiting g) f e = absurd (cc)
running-owing (answered result) f e = absurd (cc)

module _ {A : Type 0} (key : Bytes) (b : A) (es : List (Bytes × A)) where
  found_here : lookup_name key ((key, b) ∷ es) ≡ some b
  unfolding lookup_name
  found_here = rw (same_name_refl key) refl

  found_after :
      (name : Bytes) (a : A)
      → lookup_name key es ≡ none
      → lookup_name name es ≡ some a
      → lookup_name name ((key, b) ∷ es) ≡ some a
  unfolding lookup_name
  found_after name a new found = elim (Bool-cases (same_name key name)) [
    | inl same ↦
        let taken : lookup_name key es ≡ some a = rw (same_name_eq key name same) found in
        absurd (cc)
    | inr differ ↦ rw differ found
  ]

  found_before :
      (name : Bytes) (a : A)
      → lookup_name name ((key, b) ∷ es) ≡ some a
      → (b ≡ a) ⊎ (lookup_name name es ≡ some a)
  unfolding lookup_name
  found_before name a found = elim (Bool-cases (same_name key name)) [
    | inl same ↦ inl (ground (arith, found, same))
    | inr differ ↦ inr (ground (arith, found, differ))
  ]

get_or-concat :
    (fs : List (Option Result)) (f : ℕ)
    → f < length fs
    → get_or (fs ++ none ∷ []) f none ≡ get_or fs f none
get_or-concat [] f lt = absurd (omega (arith, lt))
get_or-concat (x ∷ fs) zero lt = refl
get_or-concat (x ∷ fs) (suc f) lt = get_or-concat fs f (omega (arith, lt))

module _ {s : Shared} {threads : ℕ → Thread} (h : IsConsistent s threads) (i : ℕ) where
  -- Thread `i` takes the record of its load out.
  pub IsConsistent-erase :
      (s' : Shared) (x : Thread) (threads' : ℕ → Thread) (f : ℕ)
      → IsMoved threads i x threads'
      → s'.in_flight ≡ erase_name (threads i).request.name s.in_flight
      → s'.futures ≡ s.futures
      → running (threads i).place ≡ some f
      → running x.place ≡ none
      → owing x.place ≡ owing (threads i).place
      → pending x.place ≡ none
      → IsConsistent s' threads'
  IsConsistent-erase s' x threads' f m flights futures runs stopped own idle =
      let owner = running-owing (threads i).place f runs in
      record {
        recorded = λ j g e. elim (IsMoved-cases m (λ t. running t.place ≡ some g) j e) [
          | inl (same, here) ↦ absurd (cc)
          | inr (ne, there) ↦
              elim (Bool-cases (same_name (threads i).request.name (threads j).request.name)) [
                | inl same ↦
                    let (flight, found, future) = h.recorded i f runs in
                    let (flight', found', future') = h.recorded j g there in
                    let names =
                      same_name_eq (threads i).request.name (threads j).request.name same in
                    let flights' : some flight ≡ some flight' = sym found ∙ rw names found' in
                    let f≡g : f ≡ g = cc in
                    absurd (
                      ne (
                        h.one_owner i j f owner
                          (running-owing (threads j).place g there ∙ ap some (sym f≡g))))
                | inr differ ↦
                    let (flight, found, future) = h.recorded j g there in
                    rw (flights, ap (λ t. t.request.name) (m.elsewhere j ne))
                      (
                        flight,
                        lookup-erase (threads i).request.name (threads j).request.name s.in_flight
                              differ
                            ∙ found,
                        future,
                      )
              ]
        ];
        one_owner =
            λ j k g e e'. h.one_owner j k g (owing_before m own j g e) (owing_before m own k g e');
        owed = λ j g e. rw futures (h.owed j g (owing_before m own j g e));
        kept = λ g lt e.
            let (j, owner') = h.kept g (rw (← futures) lt) (rw (← futures) e) in
            (j, owing_after m own j g owner');
        known = λ name flight e. rw futures (
            h.known name flight
              (erase-lookup (threads i).request.name name s.in_flight flight (rw (← flights) e)));
        waited = λ j g e. rw futures (elim (IsMoved-cases m (λ t. pending t.place ≡ some g) j e) [
          | inl (same, here) ↦ absurd (cc)
          | inr (ne, there) ↦ h.waited j g there
        ]);
      }

  -- Thread `i` starts a load, with a promise of its own.
  pub IsConsistent-start :
      (s' : Shared) (x : Thread) (threads' : ℕ → Thread) (flight : InFlight)
      → IsMoved threads i x threads'
      → s'.in_flight ≡ (x.request.name, flight) ∷ s.in_flight
      → s'.futures ≡ s.futures ++ none ∷ []
      → lookup_name x.request.name s.in_flight ≡ none
      → flight.future ≡ length s.futures
      → running x.place ≡ some (length s.futures)
      → owing (threads i).place ≡ none
      → pending x.place ≡ none
      → IsConsistent s' threads'
  IsConsistent-start s' x threads' flight m flights futures new future runs unowing idle =
      let n = length s.futures in
      let longer : length (s.futures ++ none ∷ []) ≡ suc n =
        omega (arith, length-append s.futures (none ∷ [])) in
      let owner = running-owing x.place n runs in
      let held : (j g : ℕ)
          → owing (threads' j).place ≡ some g
          → ((i ≡ j) × (g ≡ n)) ⊎ ((owing (threads j).place ≡ some g) × (g < n)) =
        λ j g e. elim (IsMoved-cases m (λ t. owing t.place ≡ some g) j e) [
          | inl (same, here) ↦ inl (same, cc)
          | inr (ne, there) ↦ inr (there, h.owed j g there)
        ] in
      record {
        recorded = λ j g e. elim (IsMoved-cases m (λ t. running t.place ≡ some g) j e) [
          | inl (same, here) ↦
              rw (flights, ← same, m.there)
                (flight, found_here x.request.name flight s.in_flight, cc)
          | inr (ne, there) ↦
              let (other, found, at) = h.recorded j g there in
              rw (flights, ap (λ t. t.request.name) (m.elsewhere j ne))
                (
                  other,
                  found_after x.request.name flight s.in_flight (threads j).request.name other new
                      found,
                  at,
                )
        ];
        one_owner = λ j k g e e'. elim (held j g e) [
          | inl (same, last) ↦ elim (held k g e') [
            | inl (same', last') ↦ sym same ∙ same'
            | inr (owner', small) ↦ absurd (omega (arith, last, small))
          ]
          | inr (owner', small) ↦ elim (held k g e') [
            | inl (same, last) ↦ absurd (omega (arith, last, small))
            | inr (owner'', small') ↦ h.one_owner j k g owner' owner''
          ]
        ];
        owed = λ j g e.
            rw (futures, longer)
              (elim (held j g e) [
                | inl (same, last) ↦ omega (arith, last)
                | inr (owner', small) ↦ omega (arith, small)
              ]);
        kept = λ g lt e. elim (Bool-cases (g == n)) [
          | inl last ↦ let g≡n : g ≡ n = ground (arith, last) in (i, rw (m.there, g≡n) owner)
          | inr before ↦
              let small : g < n = ground (arith, before, rw (futures, longer) at lt) in
              let (j, owner') =
                h.kept g small (sym (get_or-concat s.futures g small) ∙ rw (← futures) e) in
              let ne : i ≢ j = λ same.
                let none_owed : owing (threads j).place ≡ none = rw (← same) unowing in cc in
              (j, rw (ap (λ t. t.place) (m.elsewhere j ne)) owner')
        ];
        known = λ name other e.
            rw (futures, longer)
              (elim (found_before x.request.name flight s.in_flight name other (rw (← flights) e)) [
                | inl same ↦ let at_end : other.future ≡ n = cc in omega (arith, at_end)
                | inr found ↦ omega (arith, h.known name other found)
              ]);
        waited = λ j g e.
            rw (futures, longer)
              (elim (IsMoved-cases m (λ t. pending t.place ≡ some g) j e) [
                | inl (same, here) ↦ absurd (cc)
                | inr (ne, there) ↦ omega (arith, h.waited j g there)
              ]);
      }

  -- Thread `i` keeps its promise.
  pub IsConsistent-deliver :
      (s' : Shared) (x : Thread) (threads' : ℕ → Thread) (f : ℕ) (result : Result)
      → IsMoved threads i x threads'
      → s'.in_flight ≡ s.in_flight
      → s'.futures ≡ set s.futures f (some result)
      → owing (threads i).place ≡ some f
      → owing x.place ≡ none
      → running x.place ≡ none
      → pending x.place ≡ none
      → IsConsistent s' threads'
  IsConsistent-deliver s' x threads' f result m flights futures owner unowing stopped idle =
      let size : length s'.futures ≡ length s.futures =
        ap length futures ∙ length-set s.futures f (some result) in
      let before : (j g : ℕ)
          → owing (threads' j).place ≡ some g
          → (i ≢ j) × (owing (threads j).place ≡ some g) =
        λ j g e. elim (IsMoved-cases m (λ t. owing t.place ≡ some g) j e) [
          | inl (same, here) ↦ absurd (cc)
          | inr (ne, there) ↦ (ne, there)
        ] in
      record {
        recorded = λ j g e. elim (IsMoved-cases m (λ t. running t.place ≡ some g) j e) [
          | inl (same, here) ↦ absurd (cc)
          | inr (ne, there) ↦
              rw (flights, ap (λ t. t.request.name) (m.elsewhere j ne)) (h.recorded j g there)
        ];
        one_owner = λ j k g e e'. h.one_owner j k g (before j g e).1 (before k g e').1;
        owed = λ j g e. omega (arith, size, h.owed j g (before j g e).1);
        kept = λ g lt e.
            let given : (if f == g then some result else get_or s.futures g none) ≡ none =
              sym (get_or-set s.futures f g (some result) none (h.owed i f owner))
              ∙ ap (λ fs. get_or fs g none) (sym futures)
              ∙ e in
            elim (Bool-cases (f == g)) [
              | inl same ↦ absurd (ground (arith, same, given))
              | inr differ ↦
                  let open_still : future_at s g ≡ none = ground (arith, differ, given) in
                  let (j, owner') = h.kept g (omega (arith, size, lt)) open_still in
                  let ne : i ≢ j = λ same.
                    let both : some f ≡ some g = sym owner ∙ rw same owner' in
                    let f≡g : f ≡ g = cc in ground (arith, differ, f≡g) in
                  (j, rw (ap (λ t. t.place) (m.elsewhere j ne)) owner')
            ];
        known = λ name flight e.
            let found : lookup_name name s.in_flight ≡ some flight = rw (← flights) e in
            omega (arith, size, h.known name flight found);
        waited = λ j g e. elim (IsMoved-cases m (λ t. pending t.place ≡ some g) j e) [
          | inl (same, here) ↦ absurd (cc)
          | inr (ne, there) ↦ omega (arith, size, h.waited j g there)
        ];
      }
