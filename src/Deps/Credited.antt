-- ===== src/Deps/Credited.antt =====
-- The credits of all inputs.
use mathlib.Core.List.{append_assoc, append-nil}
use libthe_seed.Prelude.{
  ℕ, zero, suc, ◌+◌, ◌≡◌, ◌≤◌, ◌<◌, inl, inr, refl, sym, ap, ◌∙◌, List, [], ◌∷◌, ◌++◌, some,
  replicate, length, length-replicate, get_or, All, arith,
}
use libthe_seed.Deps.Credits.{u32_mod, Marks, credit_inputs, credit_nodes}
use libthe_seed.Deps.Reach.{IsCredit}
use libthe_seed.Deps.Walked.{InBounds, walk_from_ends}

module _ (successors : ℕ → List ℕ) (n : ℕ) (bounded : InBounds successors n) where
  -- The numbers that the walks from `sources` append to the credits of a node.
  Appends : ℕ → List ℕ → Marks → Marks → ℕ → Type 0
  Appends index sources before m v =
      (cs : List ℕ) × (get_or m.credits v [] ≡ get_or before.credits v [] ++ cs)
      × IsCredit successors v index sources cs

  credit_inputs_ends :
      (index : ℕ) (sources : List ℕ) (before : Marks)
      → index + length sources < u32_mod
      → All (λ s. s < n) sources
      → length before.seen ≡ n
      → length before.credits ≡ n
      → ((v : ℕ) → get_or before.seen v 0 ≤ index)
      → (m : Marks) × (credit_inputs successors index sources before ≡ some m)
        × (length m.credits ≡ n)
        × ((v : ℕ) → Appends index sources before m v)
  unfolding credit_inputs Appends
  credit_inputs_ends index [] before small inside size credit_size flags =
      (before, refl, credit_size, λ v. ([], sym (append-nil (get_or before.credits v [])), refl))
  credit_inputs_ends index (source ∷ rest) before small inside size credit_size flags =
      let (m', first_ends, walked) =
        walk_from_ends successors n bounded index source (omega (arith, small)) before inside.0 size
          credit_size flags in
      let (m, ends, sized, appends) =
        credit_inputs_ends (suc index) rest m' (omega (arith, small)) inside.1 walked.size
          walked.credit_size walked.flags in
      (
        m,
        rw (first_ends, credit_inputs) ends,
        sized,
        λ v.
            let (cs, e, all) = appends v in
            elim (walked.credited v) [
              | inl (reached, here) ↦ (
                index ∷ cs,
                e
                    ∙ ap (λ c. c ++ cs) here
                    ∙ append_assoc (get_or before.credits v []) (index ∷ []) cs,
                inl (reached, cs, refl, all),
              )
              | inr (unreached, here) ↦ (cs, e ∙ ap (λ c. c ++ cs) here, inr (unreached, all))
            ],
      )

get_or-replicate {ℓ} : {A : Type ℓ} (n : ℕ) (a : A) (v : ℕ) → get_or (replicate n a) v a ≡ a
get_or-replicate zero a v = refl
get_or-replicate (suc n) a zero = refl
get_or-replicate (suc n) a (suc v) = get_or-replicate n a v

-- For a graph whose successors are nodes, and fewer than 2 ^ 32 inputs that are nodes, the walks
-- end, and the credits of each node are the numbers of the inputs that reach it by one edge or more,
-- each once, in order.
pub credit_nodes_correct :
    (successors : ℕ → List ℕ) (n : ℕ) (sources : List ℕ)
    → InBounds successors n
    → length sources < u32_mod
    → All (λ s. s < n) sources
    → (m : Marks) × (credit_nodes successors n sources ≡ some m)
      × (length m.credits ≡ n)
      × ((v : ℕ) → IsCredit successors v 0 sources (get_or m.credits v []))
unfolding credit_nodes Appends
credit_nodes_correct successors n sources bounded few inside =
    let (m, ends, sized, appends) =
      credit_inputs_ends successors n bounded 0 sources
        (record { seen = replicate n 0; credits = replicate n [] }) (omega (arith, few)) inside
        (length-replicate n 0) (length-replicate n [])
        (λ v. omega (arith, get_or-replicate {A = ℕ} n 0 v)) in
    (
      m,
      ends,
      sized,
      λ v. let (cs, e, all) = appends v in rw (e, get_or-replicate {A = List ℕ} n [] v) all,
    )
