-- ===== src/Pak/Index.antt =====
-- DescriptionParse, HeaderSizeRead, SizeRead and PakIndexRead of src/internal/PakIndex.cpp.
-- The count of parsed descriptions, which only tests read, is left out.
use libthe_seed.Prelude.{
  lookup_name, same_name, ℕ, zero, suc, ◌+◌, ◌-◌, ◌≤◌, ◌<◌, ◌≡◌, Bool, true, false, not, ◌&&◌, ◌||◌,
  List, [], ◌∷◌, ◌++◌, Option, none, some, ltb, ◌==◌, if◌then◌else◌, length, any,
}
use libthe_seed.Prelude
use libthe_seed.Bounded.Range.{checked_add}
use libthe_seed.Bounded.Order.{Bytes}
use libthe_seed.Pak.File.{
  FileStamp, PakFile, PakResult, ok, err, ◌>>=◌, damaged, Damage, not_json, nested_too_deep,
  not_an_object, header_size_missing, header_size_not_digits, header_size_differs,
  resources_missing, resources_not_array, resource_not_object, resource_without_name,
  resource_name_not_string, size_missing, size_not_integer, appears_twice, size_out_of_range,
  claims_more, unexplained_bytes, PakEntry, PakIndex,
}
use libthe_seed.Pak.Decimal.{header_size_text}
use libthe_seed.Pak.Description.{description_read}
use libthe_seed.Pak.Json.{
  Json, ParseEvent, object_start, array_start, ParseEnd, parsed, parse_error, JsonInteger, unsigned,
  signed_non_negative, signed_negative,
}

abbrev pub nesting_limit : ℕ
nesting_limit = 64

abbrev pub damage {ℓ} : {A : Type ℓ} → Damage → PakResult A
damage d = err (damaged d)

-- `if(test) throw PakDamaged(...)`
abbrev pub damage_if : Bool → Damage → PakResult (Unit {0})
damage_if true d = damage d
damage_if false d = ok tt

abbrev pub required {ℓ} : {A : Type ℓ} → Option A → Damage → PakResult A
required none d = damage d
required (some a) d = ok a

-- The event that sets `too_deep`, on which the callback answers false.
unfoldable pub goes_too_deep : ℕ → ParseEvent → Bool
goes_too_deep depth object_start = ltb nesting_limit (depth + 1)
goes_too_deep depth array_start = ltb nesting_limit (depth + 1)
goes_too_deep depth _ = false

unfoldable pub is_known : Option ℕ → Bool
is_known none = false
is_known (some _) = true

-- What the loop over the resources has built.
pub record Reading : Type 0 where
  pub entries : List PakEntry
  pub by_name : List (Bytes × ℕ)
  pub running : ℕ
  pub position : ℕ

-- An entry that is put behind the ones read.
unfoldable pub put_entry : Bytes → ℕ → Reading → Prelude.Outcome ℕ → PakResult Reading
put_entry name size r (Prelude.ok running) = ok (record {
  entries = r.entries ++ record { name = name; offset = r.running; size = size } ∷ [];
  by_name = r.by_name ++ (name, length r.entries) ∷ [];
  running = running;
  position = r.position + 1;
})
put_entry name size r _ = damage (size_out_of_range name)

-- Its checks; the name must be new and the end of the resource a 64-bit number.
unfoldable pub add_entry : Bytes → ℕ → Reading → PakResult Reading
add_entry name size r =
    if is_known (lookup_name name r.by_name)
    then damage (appears_twice name)
    else put_entry name size r (checked_add r.running size "resource pak" "end of resource")

module _ (j : Json) where
  open j use {Value, parse, is_object, find_key, as_string, as_array, as_integer}

  unfoldable pub description_end : List (ℕ × ParseEvent) → ParseEnd Value → PakResult Value
  description_end events (parse_error text) = damage (not_json text)
  description_end events (parsed description) =
      if any (λ e. goes_too_deep e.0 e.1) events then damage nested_too_deep else ok description

  unfoldable pub description_parse : Bytes → PakResult Value
  description_parse line =
      let (events, end) = parse (λ depth event. not (goes_too_deep depth event)) line in
      description_end events end

  unfoldable pub header_size_read : Value → PakResult ℕ
  header_size_read description =
      required (find_key description "headerSize") header_size_missing >>= λ found.
      required (as_string found) header_size_not_digits >>= λ text. header_size_text text

  abbrev pub integer_value : Bytes → Option JsonInteger → PakResult ℕ
  integer_value name none = damage (size_not_integer name)
  integer_value name (some (signed_negative _)) = damage (size_not_integer name)
  integer_value name (some (unsigned n)) = ok n
  integer_value name (some (signed_non_negative n)) = ok n

  unfoldable pub size_read : Value → Bytes → PakResult ℕ
  size_read resource name = required (find_key resource "size") (size_missing name) >>= λ found.
      integer_value name (as_integer found)

  -- The body of the loop. A 64-bit std::size_t makes ToSize accept every size.
  unfoldable pub resource_read : Value → Reading → PakResult Reading
  resource_read resource r =
      damage_if (not (is_object resource)) (resource_not_object r.position) >>= λ _.
      required (find_key resource "name") (resource_without_name r.position) >>= λ found.
      required (as_string found) (resource_name_not_string r.position) >>= λ name.
      size_read resource name >>= λ size. add_entry name size r

  unfoldable pub resources_read : List Value → Reading → PakResult Reading
  resources_read [] r = ok r
  resources_read (resource ∷ rest) r = resource_read resource r >>= λ more. resources_read rest more

  -- The sizes explain the whole file.
  unfoldable pub index_end : FileStamp → ℕ → Reading → PakResult PakIndex
  index_end stamp header_size r =
      if ltb stamp.size r.running
      then damage (claims_more r.running stamp.size)
      else if ltb r.running stamp.size
      then damage (unexplained_bytes (stamp.size - r.running))
      else ok (record {
        stamp = stamp;
        entries = r.entries;
        by_name = r.by_name;
        description_size = header_size;
      })

  unfoldable pub description_index : FileStamp → ℕ → Value → PakResult PakIndex
  description_index stamp description_end description =
      damage_if (not (is_object description)) not_an_object >>= λ _.
      header_size_read description >>= λ header_size.
      damage_if (not (header_size == description_end))
        (header_size_differs header_size description_end)
      >>= λ _. required (find_key description "resources") resources_missing >>= λ found.
          required (as_array found) resources_not_array >>= λ resources.
          resources_read resources
            (record { entries = []; by_name = []; running = header_size; position = 0 })
          >>= λ r. index_end stamp header_size r

  unfoldable pub pak_index_read : PakFile → PakResult PakIndex
  pak_index_read file = description_read file file.stamp.size >>= λ (line, end).
      description_parse line >>= λ description. description_index file.stamp end description
