-- ===== src/Bounded/Tests.antt =====
-- The checked access at small inputs.
use libthe_seed.Prelude.{
  ◌+◌, Succeeds, structure_past_the_end, ◌*◌, ◌≡◌, refl, [], ◌∷◌, arith, ltb, if◌then◌else◌, ok,
  throw_malformed, overflows, past_the_end, Returns,
}
use libthe_seed.Bounded.Range.{u64_mod, range_fits, checked_multiply, checked_multiply-exact}
use libthe_seed.Bounded.Order.{
  big, little, bytes2, bytes4, sizeof, value_of, byte_swap, byte, byte_swap_if_needed,
}
use libthe_seed.Bounded.Span.{
  ByteSpan, whole, IsValid, whole-IsValid, content, memory, read_on, read_on-exact, IsPart, sub,
  sub-Returns,
}
use libthe_seed.Bounded.Writing.{splice, put, bytes_of, write_on, check, fill, copy}
use libthe_seed.Bounded.Stored.{IsWritten, read-write_on}
use libthe_seed.Bounded.Text.{IsTextAt, c_string, c_string-Returns, c_string_complete}

abbrev sample : ByteSpan
sample = whole (1 ∷ 2 ∷ b'h' ∷ b'i' ∷ 0 ∷ 9 ∷ []) "PE" "the file"

sample-IsValid : IsValid sample
sample-IsValid = whole-IsValid _ _ _ (omega arith)

-- The same two bytes in both orders, on hosts of both orders.
orders :
    (read_on little bytes2 sample 0 big "f" ≡ ok 0x0102)
    × (read_on big bytes2 sample 0 big "f" ≡ ok 0x0102)
    × (read_on big bytes2 sample 0 little "f" ≡ ok 0x0201)
    × (read_on little bytes2 sample 5 little "f"
        ≡ throw_malformed "PE" (past_the_end "f" 5 "the file" 6))
unfolding read_on memory range_fits byte_swap_if_needed byte_swap byte
orders = (refl, refl, refl, refl)

read_on-exact_example : read_on big bytes2 sample 1 little "f" ≡ (
    if range_fits 1 (sizeof bytes2) sample.size
    then ok (value_of little (content sample 1 (sizeof bytes2)))
    else throw_malformed sample.format (past_the_end "f" 1 sample.scope sample.size))
read_on-exact_example = read_on-exact sample-IsValid 1 big little bytes2 "f"

sub-Returns_example : Returns (IsPart sample 2 3) (sub sample 2 3 "part")
sub-Returns_example = sub-Returns sample-IsValid 2 3 "part"

c_string-Returns_example : Returns (IsTextAt sample 2 10) (c_string sample 2 10 "name")
c_string-Returns_example = c_string-Returns sample-IsValid 2 10 "name"

c_string_complete_example : c_string sample 2 10 "name" ≡ ok (b'h' ∷ b'i' ∷ [])
c_string_complete_example =
    c_string_complete sample-IsValid 2 10 "name" (b'h' ∷ b'i' ∷ []) (record {
      rest = 9 ∷ [];
      splits = refl;
      nul_free = omega arith;
      short = omega arith;
      inside = omega arith;
    })

checked_multiply-exact_example :
    checked_multiply 3 5 "ELF" "size"
    ≡ (if ltb (3 * 5) u64_mod then ok (3 * 5) else throw_malformed "ELF" (overflows "size"))
checked_multiply-exact_example = checked_multiply-exact 3 5 "ELF" "size" (omega arith) (omega arith)

read-write_on_example :
    Succeeds
      (λ t.
        IsWritten sample (sample.base + 1) (bytes_of big (sizeof bytes4) 0x01020304) t
        × (read_on little bytes4 t 1 big "f" ≡ ok 0x01020304))
      (write_on little bytes4 sample 1 0x01020304 big "f")
read-write_on_example =
    read-write_on sample-IsValid little big bytes4 1 0x01020304 "f" (omega arith) (omega arith)

written :
    write_on little bytes2 sample 1 0x0102 big "f"
    ≡ ok (record sample { bytes = splice 1 sample.bytes (1 ∷ 2 ∷ []) })
unfolding write_on put range_fits byte_swap_if_needed byte_swap byte
written = refl

filled :
    fill sample 4 2 7 "part" ≡ ok (record sample { bytes = splice 4 sample.bytes (7 ∷ 7 ∷ []) })
unfolding fill check put range_fits
filled = refl

copied :
    copy sample 4 (7 ∷ 8 ∷ 9 ∷ []) "part"
    ≡ throw_malformed "PE" (structure_past_the_end "part" 4 3 "the file" 6)
unfolding copy check put range_fits
copied = refl
