-- ===== src/RandomAccess/Exact.antt =====
-- ReadAt gives the bytes of the file, or says truly that they are not there.
use libthe_seed.Prelude.{◌≢◌, ℕ, ◌+◌, ◌≡◌, ◌≤◌, ◌<◌, ◌⊎◌, length, take, drop}
use libthe_seed.Bounded.Order.{Bytes}
use libthe_seed.RandomAccess.Reading.{
  Pread, got, interrupted, failed, ReadResult, filled, short_read, read_error, stopped,
  offset_limit, Round, go_on, finish,
}

-- What pread is documented to answer: bytes of the file at the position, no more than asked for, and
-- none only at the end of the file.
abbrev pub IsHonest : Bytes → ℕ → ℕ → Pread → Type 0
IsHonest content position want (got bytes) =
    (bytes ≡ take (length bytes) (drop position content))
    × (length bytes ≤ want)
    × (length bytes ≡ 0 → 0 < want → length content ≤ position)
IsHonest content position want interrupted = Unit
IsHonest content position want (failed text) = Unit

pub record IsPread (content : Bytes) (quiet : ℕ) (pread : ℕ → ℕ → ℕ → Pread) : Type 0 where
  pub small : length content ≤ offset_limit
  pub honest :
      (round position want : ℕ) → IsHonest content position want (pread round position want)
  -- From round `quiet` on no signal interrupts a call.
  pub calm : (round position want : ℕ) → quiet ≤ round → pread round position want ≢ interrupted

-- All the bytes asked for, or an end of the file before them, or an error of the system.
abbrev pub IsExact : Bytes → ℕ → ℕ → ReadResult → Type 0
IsExact content offset count (filled bytes) =
    (bytes ≡ take count (drop offset content)) × (length bytes ≡ count)
IsExact content offset count (short_read o expected done) =
    (o ≡ offset) × (expected ≡ count) × (done < count) × (length content ≤ offset + done)
IsExact content offset count (read_error text) = Unit
IsExact content offset count stopped = ⊥

-- The bytes so far stand at the offset, and are no more than asked for.
abbrev IsSoFar : Bytes → ℕ → ℕ → Bytes → Type 0
IsSoFar content offset count out =
    (out ≡ take (length out) (drop offset content)) × (length out ≤ count)

module _ {content : Bytes} {quiet : ℕ} {pread : ℕ → ℕ → ℕ → Pread}
    (system : IsPread content quiet pread) (offset count : ℕ) where
  -- A round ends the loop rightly, or it reads on: a byte at least, or it was interrupted.
  abbrev IsRound : ℕ → Bytes → Round → Type 0
  IsRound round out (finish result) = IsExact content offset count result
  IsRound round out (go_on out') =
      IsSoFar content offset count out'
      × ((length out < length out') ⊎ ((length out' ≡ length out) × (round < quiet)))
