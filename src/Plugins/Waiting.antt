-- ===== src/Plugins/Waiting.antt =====
-- A wait in PluginCache ends, in whatever order the threads move.
use libthe_seed.Prelude.{
  ℕ, suc, ◌+◌, ◌≡◌, ◌≢◌, ◌≤◌, ◌⊎◌, refl, ap, inl, inr, List, [], ◌∷◌, none, some, ◌==◌,
  if◌then◌else◌, Bool-cases, Option-cases, arith,
}
use libthe_seed.Bounded.Order.{Bytes}
use libthe_seed.Plugins.Cache.{
  Loader, Request, future_at, advance, State, Event, call, move, add, thread_at, step, Reached,
  after, idle,
}
use libthe_seed.Plugins.Owners.{owing, pending}
use libthe_seed.Plugins.Steps.{Reached-IsConsistent, move-IsMoved, call-IsMoved, get_or-beyond}
use libthe_seed.Plugins.Progress.{left, left-le, left-pos, Kept, advance-IsCloser, step-Kept}

abbrev pub run : Loader → State → List Event → State
run loader w [] = w
run loader w (event ∷ events) = run loader (step loader w event) events

-- How often thread `j` moves.
abbrev pub moves_of : ℕ → List Event → ℕ
moves_of j [] = 0
moves_of j (move i ∷ events) = (if i == j then 1 else 0) + moves_of j events
moves_of j (call r ∷ events) = moves_of j events
moves_of j (add path ∷ events) = moves_of j events

run-Kept :
    (loader : Loader) (w : State) (events : List Event) (f : ℕ)
    → Kept w.shared f
    → Kept (run loader w events).shared f
run-Kept loader w [] f k = k
run-Kept loader w (event ∷ events) f k =
    run-Kept loader (step loader w event) events f (step-Kept loader w event f k)

module _ (loader : Loader) where
  -- A call adds a thread behind those that owe a promise.
  call_keeps :
      (w : State) (r : Request) (j f : ℕ)
      → owing (thread_at w j).place ≡ some f
      → thread_at (step loader w (call r)) j ≡ thread_at w j
  call_keeps w r j f e = (call-IsMoved loader w r).elsewhere j λ same.
      let nobody : thread_at w j ≡ idle = get_or-beyond w.threads j idle (omega (arith, same)) in
      let none_owed : owing (thread_at w j).place ≡ none = rw nobody refl in cc

  add_keeps :
      (w : State) (path : Bytes) (j : ℕ) → thread_at (step loader w (add path)) j ≡ thread_at w j
  unfolding step
  add_keeps w path j = refl

  move-shared :
      (w : State) (j : ℕ)
      → (step loader w (move j)).shared
        ≡ (advance loader w.shared (thread_at w j).request (thread_at w j).place).0
  unfolding step
  move-shared w j = refl

  own_move :
      (w : State) (j f : ℕ)
      → Reached loader w
      → owing (thread_at w j).place ≡ some f
      → ((owing (thread_at (step loader w (move j)) j).place ≡ some f)
          × (suc (left (thread_at (step loader w (move j)) j).place) ≤ left (thread_at w j).place))
        ⊎ Kept (step loader w (move j)).shared f
  own_move w j f reached e =
      let t = thread_at w j in
      let moved : (thread_at (step loader w (move j)) j).place
          ≡ (advance loader w.shared t.request t.place).1 =
        ap (λ x. x.place) (move-IsMoved loader w j).there in
      rw (moved, move-shared w j)
        (advance-IsCloser loader w.shared t.request t.place f e
          ((Reached-IsConsistent w reached).owed j f e))

  promise_Kept :
      (events : List Event) (w : State) (j f : ℕ)
      → Reached loader w
      → owing (thread_at w j).place ≡ some f
      → left (thread_at w j).place ≤ moves_of j events
      → Kept (run loader w events).shared f
  promise_Kept [] w j f reached e enough =
      absurd (omega (arith, enough, left-pos (thread_at w j).place f e))
  promise_Kept (call r ∷ events) w j f reached e enough =
      let same = call_keeps w r j f e in
      promise_Kept events (step loader w (call r)) j f (after reached (call r)) (rw same e)
        (rw same enough)
  promise_Kept (add path ∷ events) w j f reached e enough =
      let same = add_keeps w path j in
      promise_Kept events (step loader w (add path)) j f (after reached (add path)) (rw same e)
        (rw same enough)
  promise_Kept (move i ∷ events) w j f reached e enough = elim (Bool-cases (i == j)) [
    | inl own ↦
        let i≡j : i ≡ j = ground (arith, own) in
        let enough' : left (thread_at w j).place ≤ suc (moves_of j events) =
          ground (arith, own, enough) in
        rw i≡j (elim (own_move w j f reached e) [
          | inl (e', less) ↦
              promise_Kept events (step loader w (move j)) j f (after reached (move j)) e'
                (omega (arith, less, enough'))
          | inr kept ↦ run-Kept loader (step loader w (move j)) events f kept
        ])
    | inr other ↦
        let ne : i ≢ j = λ same. ground (arith, same, other) in
        let same = (move-IsMoved loader w i).elsewhere j ne in
        let enough' : left (thread_at w j).place ≤ moves_of j events =
          ground (arith, other, enough) in
        promise_Kept events (step loader w (move i)) j f (after reached (move i)) (rw same e)
          (rw same enough')
  ]

-- In every state that some order of calls, steps and new paths leads to, a thread that waits for a
-- load waits for one that is finished, or there is a thread such that the load is finished after
-- every further order of events in which that thread moves five times.
pub wait_ends :
    {loader : Loader} (w : State) (i f : ℕ)
    → Reached loader w
    → pending (thread_at w i).place ≡ some f
    → Kept w.shared f
      ⊎ ((j : ℕ) × ((events : List Event)
            → 5 ≤ moves_of j events
            → Kept (run loader w events).shared f))
wait_ends {loader} w i f reached waits =
    let h = Reached-IsConsistent w reached in
    elim (Option-cases (future_at w.shared f)) [
      | inr (result, e) ↦ inl (result, e)
      | inl unkept ↦
          let (j, owes) = h.kept f (h.waited i f waits) unkept in
          inr (
            j,
            λ events enough.
                promise_Kept loader events w j f reached owes
                  (omega (arith, enough, left-le (thread_at w j).place)),
          )
    ]
