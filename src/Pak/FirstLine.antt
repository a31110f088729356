-- ===== src/Pak/FirstLine.antt =====
-- Reading in chunks finds the first newline, wherever it lies in a chunk.
use mathlib.Core.List.{append_assoc}
use libthe_seed.Prelude.{
  ℕ, ◌≢◌, zero, suc, ◌+◌, ◌-◌, ◌*◌, ◌/◌, ◌≤◌, ◌<◌, ◌≡◌, refl, sym, ap, ◌∙◌, ◌∷◌, ◌++◌, inl, inr,
  Option, none, some, min, arith, ltb, length, take, drop, All-append, Bool-cases, Option-cases,
  find, Lacks, find-none, find-Lacks, find-some, find-append, length-take, length-append,
  take-drop_add, take-take,
}
use libthe_seed.Bounded.Order.{Bytes}
use libthe_seed.Pak.File.{PakFile, PakResult, ok, err}
use libthe_seed.Pak.Description.{
  description_limit, chunk_size, no_line, take_chunk, chunk_read, description_loop,
  description_read, Holds,
}

-- The line before the first newline, from its place in what may be scanned.
abbrev pub line_at : Bytes → Option ℕ → PakResult (Bytes × ℕ)
line_at content (some place) = ok (take place content, place + 1)
line_at content none = err (no_line (length content))

module _ (content : Bytes) (position count scan : ℕ) (room : position + count ≤ scan) where
  abbrev chunk : Bytes
  chunk = take count (drop position content)

  -- A newline found in a chunk is the first of the file.
  found_in_chunk :
      (place : ℕ)
      → scan ≤ length content
      → Lacks b'\n' (take position content)
      → find b'\n' chunk ≡ some place
      → (find b'\n' (take scan content) ≡ some (position + place))
        × (take position content ++ take place chunk ≡ take (position + place) content)
  found_in_chunk place inside free f =
      let (splits, clear) = find-some b'\n' chunk place f in
      let behind = take (scan - position - count) (drop count (drop position content)) in
      let before = take position content ++ take place chunk in
      let from = drop position content in
      let place_lt : place < length chunk = omega (
        arith,
        ap length splits,
        length-append (take place chunk) (b'\n' ∷ drop (suc place) chunk),
        length-take place chunk,
      ) in
      let whole : take scan content ≡ before ++ b'\n' ∷ (drop (suc place) chunk ++ behind) =
        sym (take-drop_add position (scan - position) scan content (omega arith))
        ∙ ap (λ x. take position content ++ x)
            (sym
                (take-drop_add count (scan - position - count) (scan - position) from (omega arith))
              ∙ ap (λ x. x ++ behind) splits
              ∙ append_assoc (take place chunk) (b'\n' ∷ drop (suc place) chunk) behind)
        ∙ sym (append_assoc (take position content) (take place chunk) _) in
      let len : length before ≡ position + place = omega (
        arith,
        place_lt,
        length-append (take position content) (take place chunk),
        length-take position content,
        length-take place chunk,
      ) in
      (
        rw whole (
            find-append b'\n' before _
              (All-append (λ b. b ≢ b'\n') (take position content) (take place chunk) free clear)
            ∙ ap some len),
        ap (λ x. take position content ++ x)
              (take-take place count from (omega (arith, place_lt, length-take count from)))
            ∙ take-drop_add position place (position + place) content refl,
      )

module _ (file : PakFile) (content : Bytes) (h : Holds file content) (scan : ℕ)
    (inside : scan ≤ length content) where
  abbrev spec : PakResult (Bytes × ℕ)
  spec = line_at content (find b'\n' (take scan content))

  -- One round: the newline is in the chunk, or the loop goes on behind it.
  round :
      (position count : ℕ) (next : Bytes → PakResult (Bytes × ℕ))
      → position + count ≤ scan
      → Lacks b'\n' (take position content)
      → (Lacks b'\n' (take (position + count) content)
          → next (take (position + count) content) ≡ spec)
      → chunk_read
          (file.read_at position count)
          (λ c. take_chunk position (take position content) next (find b'\n' c) c)
        ≡ spec
  unfolding chunk_read
  round position count next room free later =
      let part = take count (drop position content) in
      let joined = take-drop_add position count (position + count) content refl in
      rw (h.reads position count (omega (arith, inside))) (elim (Option-cases (find b'\n' part)) [
        | inl n ↦ rw n (
            unfold take_chunk in
            rw joined (
              later (
                rw (← joined) (
                  All-append (λ b. b ≢ b'\n') (take position content) part free
                    (find-none b'\n' part n)))))
        | inr (place, f) ↦
            let (first, line) =
              found_in_chunk content position count scan room place inside free f in
            rw (f, first) (unfold take_chunk in rw line)
      ])

  description_loop-line_at :
      (rounds position : ℕ)
      → position ≤ scan
      → scan ≤ position + rounds * chunk_size
      → Lacks b'\n' (take position content)
      → description_loop file (length content) scan rounds position (take position content) ≡ spec
  unfolding description_loop
  description_loop-line_at zero position below enough free =
      let same : position ≡ scan = omega arith in
      rw (← same, find-Lacks b'\n' (take position content) free)
  description_loop-line_at (suc rounds) position below enough free =
      let count = min chunk_size (scan - position) in
      elim (Bool-cases (ltb position scan)) [
        | inl more ↦ rw more (
            round position count _ (omega arith) free λ clear.
              description_loop-line_at rounds (position + count) (omega arith)
                (ground (arith, more)) clear)
        | inr done ↦
            let same : position ≡ scan = ground arith in
            rw (done, ← same, find-Lacks b'\n' (take position content) free)
      ]

-- On a file that holds `content`, the chunked read gives the bytes before the first newline of
-- the first 64 MiB and the offset behind it, or says which of the two ways there is none.
pub description_read-line_at :
    (file : PakFile) (content : Bytes)
    → Holds file content
    → description_read file (length content)
      ≡ line_at content (find b'\n' (take (min (length content) description_limit) content))
unfolding description_read
description_read-line_at file content h =
    let scan = min (length content) description_limit in
    description_loop-line_at file content h scan (omega arith) (scan / chunk_size + 1) 0
      (omega arith) (omega arith) tt
