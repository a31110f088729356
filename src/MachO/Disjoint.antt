-- ===== src/MachO/Disjoint.antt =====
-- The overlap check of ParseMachOContainer: comparing neighbours in the order of their offsets
-- is enough to keep every two slices apart.
use libthe_seed.Prelude.{
  ℕ, ◌+◌, ◌%◌, ◌≤◌, ◌<◌, ◌⊎◌, List, [], ◌∷◌, All, All-mono, Bool-cases, arith, inl, inr, ltb, leb,
  Returns, value, Returns-mono, Returns-reject_if,
}
use libthe_seed.Bounded.Range.{u64_mod}
use libthe_seed.MachO.Container.{FatArch, insert_by_offset, stable_sort, numbered, overlap_check}

-- The relation between every two elements, the earlier one first.
abbrev pub AllPairs {ℓ} : {A : Type ℓ} → (A → A → Type 0) → List A → Type ℓ
AllPairs R [] = Unit
AllPairs R (x ∷ rest) = All (R x) rest × AllPairs R rest

-- Two slices share no byte.
abbrev pub Apart : FatArch → FatArch → Type 0
Apart a b = (a.offset + a.size ≤ b.offset) ⊎ (b.offset + b.size ≤ a.offset)

abbrev Before : ℕ × FatArch → ℕ × FatArch → Type 0
Before a b = a.1.offset + a.1.size ≤ b.1.offset

abbrev ApartRows : ℕ × FatArch → ℕ × FatArch → Type 0
ApartRows a b = Apart a.1 b.1

-- The end of a slice is a 64-bit number.
abbrev pub EndFits : FatArch → Type 0
EndFits a = a.offset + a.size < u64_mod

abbrev RowFits : ℕ × FatArch → Type 0
RowFits a = EndFits a.1

Apart-sym : (a b : FatArch) → Apart a b → Apart b a
Apart-sym a b (inl h) = inr h
Apart-sym a b (inr h) = inl h

overlap_check-Returns :
    (rows : List (ℕ × FatArch))
    → All RowFits rows
    → Returns (λ _. AllPairs Before rows) (overlap_check rows)
unfolding overlap_check
overlap_check-Returns [] h = value tt
overlap_check-Returns (a ∷ []) h = value (tt, tt)
overlap_check-Returns (a ∷ b ∷ rest) h =
    Returns-reject_if (ltb b.1.offset ((a.1.offset + a.1.size) % u64_mod)) _ _ _ λ apart.
      let next : Before a b = ground (arith, apart, h.0) in
      Returns-mono _
        (λ u more.
          ((next, All-mono (Before b) rest (λ c far. omega (arith, next, far)) more.0), more))
        (overlap_check-Returns (b ∷ rest) h.1)

module _ (P : ℕ × FatArch → Type 0) where
  All-insert :
      (x : ℕ × FatArch) (ys : List (ℕ × FatArch)) → P x → All P ys → All P (insert_by_offset x ys)
  unfolding insert_by_offset
  All-insert x [] p h = (p, tt)
  All-insert x (y ∷ rest) p h = elim (Bool-cases (leb x.1.offset y.1.offset)) [
    | inl first ↦ rw first (p, h)
    | inr later ↦ rw later (h.0, All-insert x rest p h.1)
  ]

  All-of_insert :
      (x : ℕ × FatArch) (ys : List (ℕ × FatArch)) → All P (insert_by_offset x ys) → P x × All P ys
  unfolding insert_by_offset
  All-of_insert x [] h = (h.0, tt)
  All-of_insert x (y ∷ rest) h = elim (Bool-cases (leb x.1.offset y.1.offset)) [
    | inl first ↦ rw first at h
    | inr later ↦
        let (here, there) = rw later at h in
        let (p, more) = All-of_insert x rest there in (p, (here, more))
  ]

  All-stable_sort : (rows : List (ℕ × FatArch)) → All P rows → All P (stable_sort rows)
  unfolding stable_sort
  All-stable_sort [] h = tt
  All-stable_sort (x ∷ rest) h = All-insert x (stable_sort rest) h.0 (All-stable_sort rest h.1)

  All-of_sort : (rows : List (ℕ × FatArch)) → All P (stable_sort rows) → All P rows
  unfolding stable_sort
  All-of_sort [] h = tt
  All-of_sort (x ∷ rest) h =
      let (p, more) = All-of_insert x (stable_sort rest) h in (p, All-of_sort rest more)

pairs_of_insert :
    (x : ℕ × FatArch) (ys : List (ℕ × FatArch))
    → AllPairs ApartRows (insert_by_offset x ys)
    → All (ApartRows x) ys × AllPairs ApartRows ys
unfolding insert_by_offset
pairs_of_insert x [] h = (tt, tt)
pairs_of_insert x (y ∷ rest) h = elim (Bool-cases (leb x.1.offset y.1.offset)) [
  | inl first ↦ rw first at h
  | inr later ↦
      let (here, there) = rw later at h in
      let (away, others) = All-of_insert (ApartRows y) x rest here in
      let (mine, pairs) = pairs_of_insert x rest there in
      ((Apart-sym y.1 x.1 away, mine), (others, pairs))
]

pairs_of_sort :
    (rows : List (ℕ × FatArch)) → AllPairs ApartRows (stable_sort rows) → AllPairs ApartRows rows
unfolding stable_sort
pairs_of_sort [] h = tt
pairs_of_sort (x ∷ rest) h =
    let (mine, pairs) = pairs_of_insert x (stable_sort rest) h in
    (All-of_sort (ApartRows x) rest mine, pairs_of_sort rest pairs)

pairs_of_Before : (rows : List (ℕ × FatArch)) → AllPairs Before rows → AllPairs ApartRows rows
pairs_of_Before [] h = tt
pairs_of_Before (x ∷ rest) h =
    (All-mono (Before x) rest (λ y b. inl b) h.0, pairs_of_Before rest h.1)

All-numbered :
    (P : FatArch → Type 0) (i : ℕ) (table : List FatArch)
    → All P table
    → All (λ row. P row.1) (numbered i table)
unfolding numbered
All-numbered P i [] h = tt
All-numbered P i (a ∷ rest) h = (h.0, All-numbered P (i + 1) rest h.1)

All-of_numbered :
    (P : FatArch → Type 0) (i : ℕ) (table : List FatArch)
    → All (λ row. P row.1) (numbered i table)
    → All P table
unfolding numbered
All-of_numbered P i [] h = tt
All-of_numbered P i (a ∷ rest) h = (h.0, All-of_numbered P (i + 1) rest h.1)

pairs_of_numbered :
    (i : ℕ) (table : List FatArch) → AllPairs ApartRows (numbered i table) → AllPairs Apart table
unfolding numbered
pairs_of_numbered i [] h = tt
pairs_of_numbered i (a ∷ rest) h =
    (All-of_numbered (Apart a) (i + 1) rest h.0, pairs_of_numbered (i + 1) rest h.1)

-- For slices whose ends are 64-bit numbers, the check passes only when every two of the table
-- share no byte.
pub overlap_check-Apart :
    (table : List FatArch)
    → All EndFits table
    → Returns (λ _. AllPairs Apart table) (overlap_check (stable_sort (numbered 0 table)))
overlap_check-Apart table h =
    Returns-mono _
      (λ u before.
        pairs_of_numbered 0 table (pairs_of_sort (numbered 0 table) (pairs_of_Before _ before)))
      (overlap_check-Returns (stable_sort (numbered 0 table))
        (All-stable_sort RowFits (numbered 0 table) (All-numbered EndFits 0 table h)))
