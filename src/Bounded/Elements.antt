-- ===== src/Bounded/Elements.antt =====
-- The reads of a std::vector of bytes by `operator[]`, which have no check: past the end they are
-- undefined behaviour.
use libthe_seed.Prelude.{
  ℕ, zero, suc, ◌+◌, ◌*◌, ◌^◌, ◌≤◌, ◌<◌, Bool, true, false, [], ◌∷◌, ◌==◌, if◌then◌else◌, length,
  arith, Outcome, ok, fault, ◌>>=◌, Returns, value, Returns-bind, Returns-if,
}
use libthe_seed.Bounded.Order.{Bytes}

-- `bytes[at]`
unfoldable pub element : Bytes → ℕ → Outcome ℕ
element [] at = fault
element (b ∷ rest) zero = ok b
element (b ∷ rest) (suc at) = element rest at

-- `bytes[at] == b && bytes[at + 1] == c && ...`, no further than the first that differs.
unfoldable pub matches : Bytes → ℕ → Bytes → Outcome Bool
matches bytes at [] = ok true
matches bytes at (b ∷ rest) =
    element bytes at >>= λ c. if c == b then matches bytes (suc at) rest else ok false

-- Four bytes from `at`, the first the most significant.
unfoldable pub first_high : Bytes → ℕ → Outcome ℕ
first_high bytes at = element bytes at >>= λ a. element bytes (at + 1) >>= λ b.
    element bytes (at + 2) >>= λ c.
    element bytes (at + 3) >>= λ d. ok (a * 2 ^ 24 + b * 2 ^ 16 + c * 2 ^ 8 + d)

-- Four bytes from `at`, the last the most significant.
unfoldable pub last_high : Bytes → ℕ → Outcome ℕ
last_high bytes at = element bytes (at + 3) >>= λ a. element bytes (at + 2) >>= λ b.
    element bytes (at + 1) >>= λ c.
    element bytes at >>= λ d. ok (a * 2 ^ 24 + b * 2 ^ 16 + c * 2 ^ 8 + d)

pub element-Returns :
    (bytes : Bytes) (at : ℕ) → at < length bytes → Returns (λ _. Unit) (element bytes at)
unfolding element
element-Returns [] at h = absurd (omega (arith, h))
element-Returns (b ∷ rest) zero h = value tt
element-Returns (b ∷ rest) (suc at) h = element-Returns rest at (omega (arith, h))

pub matches-Returns :
    (bytes : Bytes) (at : ℕ) (pattern : Bytes)
    → at + length pattern ≤ length bytes
    → Returns (λ _. Unit) (matches bytes at pattern)
unfolding matches
matches-Returns bytes at [] h = value tt
matches-Returns bytes at (b ∷ rest) h =
    Returns-bind _ (element-Returns bytes at (omega (arith, h))) λ c _.
      Returns-if (c == b) (λ _. matches-Returns bytes (suc at) rest (omega (arith, h)))
        λ _. value tt

pub first_high-Returns :
    (bytes : Bytes) (at : ℕ) → at + 4 ≤ length bytes → Returns (λ _. Unit) (first_high bytes at)
unfolding first_high
first_high-Returns bytes at h = Returns-bind _ (element-Returns bytes at (omega (arith, h))) λ a _.
    Returns-bind _ (element-Returns bytes (at + 1) (omega (arith, h))) λ b _.
      Returns-bind _ (element-Returns bytes (at + 2) (omega (arith, h)))
        λ c _. Returns-bind _ (element-Returns bytes (at + 3) (omega (arith, h))) λ d _. value tt

pub last_high-Returns :
    (bytes : Bytes) (at : ℕ) → at + 4 ≤ length bytes → Returns (λ _. Unit) (last_high bytes at)
unfolding last_high
last_high-Returns bytes at h =
    Returns-bind _ (element-Returns bytes (at + 3) (omega (arith, h))) λ a _.
      Returns-bind _ (element-Returns bytes (at + 2) (omega (arith, h))) λ b _.
        Returns-bind _ (element-Returns bytes (at + 1) (omega (arith, h)))
          λ c _. Returns-bind _ (element-Returns bytes at (omega (arith, h))) λ d _. value tt
