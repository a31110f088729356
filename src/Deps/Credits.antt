-- ===== src/Deps/Credits.antt =====
-- The walk of ListDependencies in src/DependencyLister.cpp that credits each input with what is
-- reachable from it. `queue[head ..)` is the list `pending`. The successors are indices of nodes, so
-- no read of `seen` or `credits` is out of bounds and the default of `get_or` is never seen.
use libthe_seed.Prelude.{
  ℕ, zero, suc, ◌%◌, ◌^◌, List, [], ◌∷◌, ◌++◌, Option, none, some, replicate, length, get_or, set,
  ◌==◌, if◌then◌else◌,
}

-- The stamps and the queue of a walk.
pub record Walk : Type 0 where
  pub seen : List ℕ
  pub pending : List ℕ

-- A node with another stamp is marked and queued.
unfoldable pub offer : ℕ → Walk → ℕ → Walk
offer stamp w next =
    if get_or w.seen next 0 == stamp
    then w
    else record { seen = set w.seen next stamp; pending = w.pending ++ next ∷ [] }

unfoldable pub offer_all : ℕ → Walk → List ℕ → Walk
offer_all stamp w [] = w
offer_all stamp w (next ∷ rest) = offer_all stamp (offer stamp w next) rest

-- Stamps and credits are 32-bit.
abbrev pub u32_mod : ℕ
u32_mod = 2 ^ 32

-- `credits[current].push_back(static_cast<std::uint32_t>(index))`
unfoldable pub credit : List (List ℕ) → ℕ → ℕ → List (List ℕ)
credit credits current index =
    set credits current (get_or credits current [] ++ (index % u32_mod) ∷ [])

-- The stamps and the credits after a walk.
pub record Marks : Type 0 where
  pub seen : List ℕ
  pub credits : List (List ℕ)

module _ (successors : ℕ → List ℕ) where
  -- The loop over the queue; `none` when the rounds run out.
  unfoldable pub walk_loop : ℕ → ℕ → ℕ → List ℕ → List ℕ → List (List ℕ) → Option Marks
  walk_loop index stamp fuel [] seen credits = some (record { seen = seen; credits = credits })
  walk_loop index stamp zero (current ∷ rest) seen credits = none
  walk_loop index stamp (suc fuel) (current ∷ rest) seen credits =
      let w = offer_all stamp (record { seen = seen; pending = rest }) (successors current) in
      walk_loop index stamp fuel w.pending w.seen (credit credits current index)

  -- The walk from the successors of one input, whose stamp is its index plus one, cut to 32 bits.
  -- Each node is queued once, so there are no more rounds than nodes.
  unfoldable pub walk_from : ℕ → ℕ → Marks → Option Marks
  walk_from index source m =
      let stamp = suc index % u32_mod in
      let w = offer_all stamp (record { seen = m.seen; pending = [] }) (successors source) in
      walk_loop index stamp (length m.seen) w.pending w.seen m.credits

  -- The loop over the inputs, given by their nodes.
  unfoldable pub credit_inputs : ℕ → List ℕ → Marks → Option Marks
  credit_inputs index [] m = some m
  credit_inputs index (source ∷ rest) m = elim (walk_from index source m) [
    | none ↦ none
    | some m' ↦ credit_inputs (suc index) rest m'
  ]

  -- The vectors that the walks start with, for `count` nodes.
  unfoldable pub credit_nodes : ℕ → List ℕ → Option Marks
  credit_nodes count sources =
      credit_inputs 0 sources (record { seen = replicate count 0; credits = replicate count [] })
