-- ===== src/Deps/Reach.antt =====
-- The credits are exactly the inputs that reach a node, in order, and the walks end.
use libthe_seed.Prelude.{ℕ, suc, ◌≡◌, ◌⊎◌, ◌↔◌, inl, inr, List, [], ◌∷◌, ◌++◌, arith}

abbrev pub Has : ℕ → List ℕ → Type 0
Has v [] = ⊥
Has v (x ∷ xs) = (x ≡ v) ⊎ Has v xs

abbrev pub Nodup : List ℕ → Type 0
Nodup [] = Unit
Nodup (x ∷ xs) = ¬ Has x xs × Nodup xs

-- The nodes that some walk of one edge or more leads to.
pub data Reaches (successors : ℕ → List ℕ) (source : ℕ) : ℕ → Type 0 where
  first : {v : ℕ} → Has v (successors source) → Reaches successors source v
  further :
      {u v : ℕ} → Reaches successors source u → Has v (successors u) → Reaches successors source v

-- `credited` lists, in order, the numbers from `index` on of the sources that reach the node.
abbrev pub IsCredit : (ℕ → List ℕ) → ℕ → ℕ → List ℕ → List ℕ → Type 0
IsCredit successors v index [] credited = credited ≡ []
IsCredit successors v index (source ∷ rest) credited =
    (Reaches successors source v
      × (more : List ℕ) × (credited ≡ index ∷ more)
      × IsCredit successors v (suc index) rest more)
    ⊎ ((¬ Reaches successors source v) × IsCredit successors v (suc index) rest credited)

pub Has-append : (v : ℕ) (xs ys : List ℕ) → Has v (xs ++ ys) ↔ (Has v xs ⊎ Has v ys)
Has-append v [] ys = (inr, λ h. elim h [ inl n ↦ absurd n | inr y ↦ y ])
Has-append v (x ∷ xs) ys = ground (arith, Has-append v xs ys)

pub Nodup-concat : (xs : List ℕ) (x : ℕ) → Nodup xs → ¬ Has x xs → Nodup (xs ++ x ∷ [])
Nodup-concat [] x h new = (λ n. n, tt)
Nodup-concat (y ∷ xs) x h new = ground (arith, Has-append y xs (x ∷ []), Nodup-concat xs x)
