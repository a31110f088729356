-- ===== src/Deps/Walked.antt =====
-- The walk from one input ends, and credits exactly the nodes that it reaches.
use libthe_seed.Prelude.{
  get_or-set, ℕ, zero, suc, ◌+◌, ◌%◌, ◌≡◌, ◌≤◌, ◌<◌, ◌⊎◌, inl, inr, refl, ap, ◌∙◌, List, [], ◌∷◌,
  ◌++◌, some, length, length-set, get_or, set, ◌==◌, Bool-cases, All, arith, true,
}
use libthe_seed.Deps.Credits.{u32_mod, Walk, offer_all, credit, Marks, walk_loop, walk_from}
use libthe_seed.Deps.Reach.{Has, Nodup, Reaches, first, further}
use libthe_seed.Deps.Offer.{unmarked, Marked, Offers, offer_all-Offers}

pub lt_of_Marked : (seen : List ℕ) (v k : ℕ) → Marked (suc k) seen v → v < length seen
lt_of_Marked [] v k h = absurd (omega arith)
lt_of_Marked (s ∷ rest) zero k h = omega arith
lt_of_Marked (s ∷ rest) (suc v) k h = omega (arith, lt_of_Marked rest v k h)

-- Every successor is the index of a node.
abbrev pub InBounds : (ℕ → List ℕ) → ℕ → Type 0
InBounds successors n = (u : ℕ) → u < n → All (λ v. v < n) (successors u)

-- An index below 2 ^ 32 is credited as it is.
credit_small :
    (credits : List (List ℕ)) (current index : ℕ)
    → index < u32_mod
    → credit credits current index ≡ set credits current (get_or credits current [] ++ index ∷ [])
unfolding credit
credit_small credits current index small =
    let e : index % u32_mod ≡ index = omega (arith, small) in rw e refl

module _ (successors : ℕ → List ℕ) (n : ℕ) (bounded : InBounds successors n) (index source : ℕ)
    (small : suc index < u32_mod) (before : List (List ℕ)) where
  -- The credits of a node that the walk has left, and of any other.
  abbrev Credited : List ℕ → List ℕ → List (List ℕ) → ℕ → Type 0
  Credited seen pending credits v =
      (Marked (suc index) seen v
        × (¬ Has v pending)
        × (get_or credits v [] ≡ get_or before v [] ++ index ∷ []))
      ⊎ (((¬ Marked (suc index) seen v) ⊎ Has v pending)
          × (get_or credits v [] ≡ get_or before v []))

  record IsWalking (seen pending : List ℕ) (credits : List (List ℕ)) : Type 0 where
    size : length seen ≡ n
    credit_size : length credits ≡ n
    flags : (v : ℕ) → get_or seen v 0 ≤ suc index
    queued : (v : ℕ) → Has v pending → Marked (suc index) seen v
    nodup : Nodup pending
    sound : (v : ℕ) → Marked (suc index) seen v → Reaches successors source v
    starts : (v : ℕ) → Has v (successors source) → Marked (suc index) seen v
    closed :
        (u v : ℕ)
        → Marked (suc index) seen u
        → Has v (successors u)
        → Has u pending ⊎ Marked (suc index) seen v
    credited : (v : ℕ) → Credited seen pending credits v

  round :
      (seen : List ℕ) (current : ℕ) (rest : List ℕ) (credits : List (List ℕ)) (t : Walk)
      → IsWalking seen (current ∷ rest) credits
      → Offers
          (suc index)
          (record { seen = seen; pending = rest })
          t
          (λ v. Has v (successors current))
      → IsWalking t.seen t.pending (credit credits current index)
  round seen current rest credits t h o =
      let fits : index < u32_mod = omega (arith, small) in
      let here : Marked (suc index) seen current = h.queued current (inl refl) in
      let inside : current < length credits =
        omega (arith, lt_of_Marked seen current index here, h.size, h.credit_size) in
      rw (credit_small credits current index fits) (record {
        size = o.size ∙ h.size;
        credit_size = length-set credits current _ ∙ h.credit_size;
        flags = λ v. ground (arith, h.flags v, o.kept v);
        queued = λ v q. ground (arith, q, h.queued v, o.queued v, o.marked v);
        nodup = o.nodup h.nodup.1 (λ v q. h.queued v (inr q));
        sound = λ v m. elim ((o.marked v).0 m) [
          | inl old ↦ h.sound v old
          | inr new ↦ further (h.sound current here) new
        ];
        starts = λ v e. (o.marked v).1 (inl (h.starts v e));
        closed = λ u v m e. elim (Bool-cases (get_or seen u 0 == suc index)) [
          | inl old ↦ elim (h.closed u v (ground (arith, old)) e) [
            | inl (inl same) ↦ inr ((o.marked v).1 (inr (rw same e)))
            | inl (inr waits) ↦ inl ((o.queued u).1 (inl waits))
            | inr marked ↦ inr ((o.marked v).1 (inl marked))
          ]
          | inr new ↦ inl ((o.queued u).1 (inr (m, λ z. ground (arith, new, z))))
        ];
        credited = λ v. elim (Bool-cases (current == v)) [
          | inl same ↦
              let e : current ≡ v = ground (arith, same) in
              let self : (current == current) ≡ true = ground arith in
              let untouched : get_or credits current [] ≡ get_or before current [] =
                ground (arith, h.credited current) in
              rw (← e) (
                inl (
                  (o.marked current).1 (inl here),
                  λ q. ground (arith, q, o.queued current, h.nodup.0, here),
                  get_or-set credits current current _ [] inside
                      ∙ rw self (ap (λ c. c ++ index ∷ []) untouched),
                ))
          | inr other ↦
              let e : get_or (set credits current (get_or credits current [] ++ index ∷ [])) v []
                  ≡ get_or credits v [] =
                get_or-set credits current v _ [] inside ∙ rw other refl in
              rw e (ground (arith, other, h.credited v, o.queued v, o.marked v))
        ];
      })

  -- A walk with as many rounds as nodes left to mark or to take from the queue ends.
  walk_loop_ends :
      (fuel : ℕ) (pending seen : List ℕ) (credits : List (List ℕ))
      → IsWalking seen pending credits
      → unmarked (suc index) seen + length pending ≤ fuel
      → (m : Marks) × (walk_loop successors index (suc index) fuel pending seen credits ≡ some m)
        × IsWalking m.seen [] m.credits
  unfolding walk_loop
  walk_loop_ends fuel [] seen credits h le = (record { seen = seen; credits = credits }, refl, h)
  walk_loop_ends zero (current ∷ rest) seen credits h le = absurd (omega (arith, le))
  walk_loop_ends (suc fuel) (current ∷ rest) seen credits h le =
      let inside : current < n =
        omega (arith, lt_of_Marked seen current index (h.queued current (inl refl)), h.size) in
      let w : Walk = record { seen = seen; pending = rest } in
      let o =
        offer_all-Offers (suc index) w (successors current) (rw h.size (bounded current inside)) in
      let t = offer_all (suc index) w (successors current) in
      walk_loop_ends fuel t.pending t.seen (credit credits current index)
        (round seen current rest credits t h o) (omega (arith, o.work, le))

-- The credits after the walk from an input: a node that it reaches gets the input's number.
pub record IsWalked (successors : ℕ → List ℕ) (n index source : ℕ) (before : Marks) (m : Marks)
    : Type 0 where
  pub size : length m.seen ≡ n
  pub credit_size : length m.credits ≡ n
  pub flags : (v : ℕ) → get_or m.seen v 0 ≤ suc index
  pub credited :
      (v : ℕ)
      → (Reaches successors source v
          × (get_or m.credits v [] ≡ get_or before.credits v [] ++ index ∷ []))
        ⊎ ((¬ Reaches successors source v) × (get_or m.credits v [] ≡ get_or before.credits v []))

unmarked-le : (stamp : ℕ) (seen : List ℕ) → unmarked stamp seen ≤ length seen
unmarked-le stamp [] = omega arith
unmarked-le stamp (s ∷ rest) = ground (arith, unmarked-le stamp rest)

module _ (successors : ℕ → List ℕ) (n : ℕ) (bounded : InBounds successors n) (index source : ℕ)
    (small : suc index < u32_mod) where
  -- At the end, with nothing queued, everything that the source reaches is marked.
  Marked-all :
      (before : List (List ℕ)) (m : Marks)
      → IsWalking successors n bounded index source small before m.seen [] m.credits
      → {v : ℕ} → Reaches successors source v
      → Marked (suc index) m.seen v
  Marked-all before m h (first {v} e) = h.starts v e
  Marked-all before m h (further {u} {v} r e) = elim (h.closed u v (Marked-all before m h r) e) [
    | inl none_left ↦ absurd none_left
    | inr marked ↦ marked
  ]

  pub walk_from_ends :
      (before : Marks)
      → source < n
      → length before.seen ≡ n
      → length before.credits ≡ n
      → ((v : ℕ) → get_or before.seen v 0 ≤ index)
      → (m : Marks) × (walk_from successors index source before ≡ some m)
        × IsWalked successors n index source before m
  unfolding walk_from
  walk_from_ends before inside size credit_size flags =
      let stamp : suc index % u32_mod ≡ suc index = omega (arith, small) in
      let w : Walk = record { seen = before.seen; pending = [] } in
      let o =
        offer_all-Offers (suc index) w (successors source) (rw size (bounded source inside)) in
      let t = offer_all (suc index) w (successors source) in
      let start : IsWalking successors n bounded index source small before.credits t.seen t.pending
          before.credits =
        record {
          size = o.size ∙ size;
          credit_size = credit_size;
          flags = λ v. ground (arith, flags v, o.kept v);
          queued = λ v q. ground (arith, q, o.queued v);
          nodup = o.nodup tt (λ v q. absurd q);
          sound = λ v m. first (ground (arith, m, flags v, o.marked v));
          starts = λ v e. (o.marked v).1 (inr e);
          closed = λ u v m e. inl (ground (arith, m, flags u, o.queued u));
          credited = λ v. ground (arith, flags v, o.queued v, o.marked v);
        } in
      let (m, ends, walked) =
        walk_loop_ends successors n bounded index source small before.credits (length before.seen)
          t.pending t.seen before.credits start
          (omega (arith, o.work, unmarked-le (suc index) before.seen)) in
      (
        m,
        rw stamp ends,
        record {
          size = walked.size;
          credit_size = walked.credit_size;
          flags = walked.flags;
          credited = λ v. elim (walked.credited v) [
            | inl (marked, out, e) ↦ inl (walked.sound v marked, e)
            | inr (inl unmarked_here, e) ↦
                inr (λ r. unmarked_here (Marked-all before.credits m walked r), e)
            | inr (inr queued_here, e) ↦ absurd queued_here
          ];
        },
      )
