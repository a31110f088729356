-- ===== src/RandomAccess/Reading.antt =====
-- RandomAccessFile::ReadAt of src/internal/RandomAccessFile.cpp, on POSIX. What pread answers, round by
-- round, is a parameter. A position that passes the first test is below 2 ^ 63, so no sum wraps around.
use libthe_seed.Prelude.{
  ℕ, zero, suc, ◌+◌, ◌-◌, ◌^◌, ◌||◌, [], ◌∷◌, ◌++◌, ltb, if◌then◌else◌, length, min,
}
use libthe_seed.Bounded.Order.{Bytes}

-- The bytes, EINTR, or another error with its text.
pub data Pread : Type 0 where
  got : Bytes → Pread
  interrupted : Pread
  failed : Bytes → Pread

-- `short_read` is FileShortRead with its offset, expected and got; `stopped` when the rounds run out.
pub data ReadResult : Type 0 where
  filled : Bytes → ReadResult
  short_read : ℕ → ℕ → ℕ → ReadResult
  read_error : Bytes → ReadResult
  stopped : ReadResult

abbrev pub offset_limit : ℕ
offset_limit = 2 ^ 63 - 1

-- 1 GiB
abbrev pub chunk_limit : ℕ
chunk_limit = 2 ^ 30

-- What a round makes of the bytes so far: more of them, or the end of the loop.
pub data Round : Type 0 where
  go_on : Bytes → Round
  finish : ReadResult → Round

unfoldable pub take_answer : ℕ → ℕ → Bytes → Pread → Round
take_answer offset count out (got []) = finish (short_read offset count (length out))
take_answer offset count out (got (b ∷ bytes)) = go_on (out ++ b ∷ bytes)
take_answer offset count out interrupted = go_on out
take_answer offset count out (failed text) = finish (read_error text)

module _ (pread : ℕ → ℕ → ℕ → Pread) (offset count : ℕ) where
  unfoldable pub read_round : ℕ → Bytes → Round
  read_round round out =
      if ltb offset_limit offset || ltb (offset_limit - offset) (length out)
      then finish (short_read offset count (length out))
      else take_answer offset count out
          (pread round (offset + length out) (min (count - length out) chunk_limit))

  unfoldable pub read_loop : ℕ → ℕ → Bytes → ReadResult
  read_loop zero round out = if ltb (length out) count then stopped else filled out
  read_loop (suc rounds) round out =
      if ltb (length out) count
      then elim (read_round round out) [
        | finish result ↦ result
        | go_on out' ↦ read_loop rounds (suc round) out'
      ]
      else filled out

  unfoldable pub read_at : ℕ → ReadResult
  read_at rounds = read_loop rounds 0 []
