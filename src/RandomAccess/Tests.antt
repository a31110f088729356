-- ===== src/RandomAccess/Tests.antt =====
-- A file of six bytes, read two bytes at a time, with a signal in the first round.
use libthe_seed.Prelude.{ℕ, zero, suc, ◌≡◌, refl, [], ◌∷◌, take, drop, min}
use libthe_seed.Bounded.Order.{Bytes}
use libthe_seed.RandomAccess.Reading.{
  Pread, got, interrupted, filled, short_read, take_answer, read_round, read_loop, read_at,
}

abbrev content : Bytes
content = 11 ∷ 12 ∷ 13 ∷ 14 ∷ 15 ∷ 16 ∷ []

abbrev pread : ℕ → ℕ → ℕ → Pread
pread zero position want = interrupted
pread (suc round) position want = got (take (min want 2) (drop position content))

whole : read_at pread 1 5 6 ≡ filled (12 ∷ 13 ∷ 14 ∷ 15 ∷ 16 ∷ [])
unfolding read_at read_loop read_round take_answer
whole = refl

short : read_at pread 4 5 6 ≡ short_read 4 5 2
unfolding read_at read_loop read_round take_answer
short = refl
