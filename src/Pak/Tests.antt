-- ===== src/Pak/Tests.antt =====
-- A pak of two resources, with a JSON library that knows one line.
use libthe_seed.Prelude.{
  lookup_name, same_name, ℕ, ◌+◌, ◌≡◌, refl, Bool, true, false, List, [], ◌∷◌, Option, none, some,
  String, arith, length, take, drop, leb, if◌then◌else◌, find, any, min,
}
use text.Mathlib.Text.{◌==◌}
use libthe_seed.Bounded.Range.{checked_add}
use libthe_seed.Bounded.Order.{Bytes}
use libthe_seed.Pak.File.{
  PakFile, ReadResult, filled, short_read, ok, err, damaged, header_size_not_digits, Gives,
}
use libthe_seed.Pak.Decimal.{all_digits, digits_value, header_size_text, header_size_text-exact}
use libthe_seed.Pak.Description.{
  chunk_read, take_chunk, description_limit, description_loop, description_read, Holds,
}
use libthe_seed.Pak.FirstLine.{line_at, description_read-line_at}
use libthe_seed.Pak.Json.{Json, parsed, unsigned}
use libthe_seed.Pak.Index.{
  is_known, put_entry, add_entry, description_end, description_parse, header_size_read, size_read,
  resource_read, resources_read, index_end, description_index, pak_index_read,
}
use libthe_seed.Pak.Tiling.{Has64Bit, IsPakIndex, pak_index_read-IsPakIndex}

-- The values of a small JSON library: the description, its header size, its resources, ...
data Toy : Type 0 where
  description header_size resources : Toy
  resource : (name : Bytes) (size : ℕ) → Toy
  label : Bytes → Toy
  number : ℕ → Toy

toy_find : Toy → String → Option Toy
toy_find description k =
    if k == "headerSize"
    then some header_size
    else if k == "resources"
    then some resources
    else none
toy_find (resource name size) k =
    if k == "name" then some (label name) else if k == "size" then some (number size) else none
toy_find _ k = none

toy_string : Toy → Option Bytes
toy_string header_size = some (b'3' ∷ [])
toy_string (label t) = some t
toy_string _ = none

toy_array : Toy → Option (List Toy)
toy_array resources = some (resource (b'a' ∷ []) 2 ∷ resource (b'b' ∷ []) 1 ∷ [])
toy_array _ = none

toy_is_object : Toy → Bool
toy_is_object description = true
toy_is_object (resource _ _) = true
toy_is_object _ = false

abbrev toy : Json
toy = record {
  Value = Toy;
  parse = λ callback line. ([], parsed description);
  is_object = toy_is_object;
  find_key = toy_find;
  as_string = toy_string;
  as_array = toy_array;
  as_integer = λ v. elim v [ number n ↦ some (unsigned (min n 10)) | _ ↦ none ];
}

-- "{}", a newline, and three bytes.
abbrev content : Bytes
content = b'{' ∷ b'}' ∷ b'\n' ∷ 1 ∷ 2 ∷ 3 ∷ []

reader : Bytes → ℕ → ℕ → ReadResult
reader bytes offset count =
    if leb (offset + count) (length bytes)
    then filled (take count (drop offset bytes))
    else short_read offset count 0

abbrev file : PakFile
file = record {
  stamp = record { device = 1; file = 1; size = 6; modified = 0 };
  read_at = reader content;
}

file-Holds : Holds file content
unfolding reader
file-Holds = record { size_is = refl; reads = λ offset count h. ground arith }

index_of_file :
    pak_index_read toy file
    ≡ ok (record {
      stamp = file.stamp;
      entries =
          record { name = b'a' ∷ []; offset = 3; size = 2 }
          ∷ record { name = b'b' ∷ []; offset = 5; size = 1 }
          ∷ [];
      by_name = (b'a' ∷ [], 0) ∷ (b'b' ∷ [], 1) ∷ [];
      description_size = 3;
    })
unfolding pak_index_read description_read description_loop chunk_read take_chunk reader find
    description_parse description_end any description_index header_size_read header_size_text
    all_digits digits_value resources_read resource_read size_read add_entry put_entry lookup_name
    same_name is_known checked_add index_end toy_find toy_string toy_array toy_is_object
index_of_file = refl

toy-Has64Bit : Has64Bit toy
toy-Has64Bit = record { unsigned_lt = λ v n h. ground arith; signed_lt = λ v n h. ground arith }

description_read-line_at_example :
    description_read file 6 ≡ line_at content (find b'\n' (take (min 6 description_limit) content))
description_read-line_at_example = description_read-line_at file content file-Holds

pak_index_read-IsPakIndex_example :
    Gives
      (λ index.
        IsPakIndex file.stamp index
        × ((place : ℕ) × (find b'\n' (take (min (length content) description_limit) content)
              ≡ some place)
            × (index.description_size ≡ place + 1)))
      (pak_index_read toy file)
pak_index_read-IsPakIndex_example =
    pak_index_read-IsPakIndex toy toy-Has64Bit file content file-Holds

header_sizes :
    (header_size_text (b'4' ∷ b'2' ∷ []) ≡ ok 42)
    × (header_size_text (b'-' ∷ b'2' ∷ []) ≡ err (damaged header_size_not_digits))
unfolding header_size_text all_digits digits_value
header_sizes = (refl, refl)

header_size_text-exact_example : header_size_text (b'4' ∷ b'2' ∷ []) ≡ ok 42
unfolding all_digits
header_size_text-exact_example = header_size_text-exact (b'4' ∷ b'2' ∷ [])
