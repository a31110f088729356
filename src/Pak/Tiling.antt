-- ===== src/Pak/Tiling.antt =====
-- What an index says once every rule holds: the resources lie one behind the other from the end of
-- the description to the end of the file, and the map finds each by its name.
use libthe_seed.Prelude.{
  lookup_name, ℕ, zero, suc, ◌+◌, ◌≤◌, ◌<◌, ◌^◌, ◌≡◌, refl, sym, ap, ◌∙◌, Bool, true, false, not,
  ◌&&◌, List, [], ◌∷◌, ◌++◌, ◌⊎◌, inl, inr, Option, none, some, arith, ltb, ◌==◌, if◌then◌else◌,
  length, get_elem?, take, find, min, Bool-cases, Option-cases,
}
use libthe_seed.Prelude
use libthe_seed.Bounded.Range.{u64_mod, checked_add, checked_add-ok}
use libthe_seed.Bounded.Order.{Bytes}
use libthe_seed.Pak.File.{
  FileStamp, PakFile, Damage, size_missing, header_size_missing, header_size_not_digits,
  resources_missing, resources_not_array, not_an_object, resource_not_object, resource_without_name,
  resource_name_not_string, PakResult, ◌>>=◌, PakEntry, PakIndex, Gives, given, refusal, Gives-any,
  Gives-bind,
}
use libthe_seed.Pak.Index.{
  damage_if, required, integer_value, size_read, header_size_read, is_known, Reading, put_entry,
  add_entry, resource_read, resources_read, index_end, description_parse, description_index,
  pak_index_read,
}
use libthe_seed.Pak.Decimal.{header_size_text-lt}
use libthe_seed.Pak.Description.{description_limit, description_read, Holds}
use libthe_seed.Pak.FirstLine.{line_at, description_read-line_at}
use libthe_seed.Pak.ByName.{IsIndexed, not_known, IsIndexed-put, empty-IsIndexed}
use libthe_seed.Pak.Json.{Json, JsonInteger, unsigned, signed_non_negative, signed_negative}

-- The entries cover [start, end) in order, with no gap and no overlap.
abbrev pub Tiles : ℕ → List PakEntry → ℕ → Type 0
Tiles start [] end = start ≡ end
Tiles start (e ∷ rest) end = (e.offset ≡ start) × Tiles (start + e.size) rest end

Tiles-append :
    (start end : ℕ) (es : List PakEntry) (e : PakEntry)
    → Tiles start es end
    → e.offset ≡ end
    → Tiles start (es ++ e ∷ []) (end + e.size)
Tiles-append start end [] e t o = (o ∙ sym t, ap (λ x. x + e.size) t)
Tiles-append start end (x ∷ es) e t o = (t.0, Tiles-append (start + x.size) end es e t.1 o)

record IsReading (start : ℕ) (r : Reading) : Type 0 where
  tiles : Tiles start r.entries r.running
  indexed : IsIndexed r.entries r.by_name
  in_range : r.running < u64_mod

put_entry-IsReading :
    (start size : ℕ) (name : Bytes) (r : Reading) (sum : Prelude.Outcome ℕ)
    → IsReading start r
    → size < u64_mod
    → lookup_name name r.by_name ≡ none
    → checked_add r.running size "resource pak" "end of resource" ≡ sum
    → Gives (IsReading start) (put_entry name size r sum)
unfolding put_entry
put_entry-IsReading start size name r (Prelude.ok running) x lt new e =
    let (sum, fits) = checked_add-ok r.running size running _ _ x.in_range lt e in
    let entry : PakEntry = record { name = name; offset = r.running; size = size } in
    given (record {
      tiles = rw sum (Tiles-append start r.running r.entries entry x.tiles refl);
      indexed = IsIndexed-put r.entries r.by_name entry x.indexed new;
      in_range = fits;
    })
put_entry-IsReading start size name r (Prelude.err d) x lt new e = refusal
put_entry-IsReading start size name r Prelude.fault x lt new e = refusal

add_entry-IsReading :
    (start size : ℕ) (name : Bytes) (r : Reading)
    → IsReading start r
    → size < u64_mod
    → Gives (IsReading start) (add_entry name size r)
unfolding add_entry
add_entry-IsReading start size name r x lt =
    elim (Bool-cases (is_known (lookup_name name r.by_name))) [
      | inl old ↦ rw old refusal
      | inr new ↦ rw new (put_entry-IsReading start size name r _ x lt (not_known _ new) refl)
    ]

-- What is assumed of the JSON library: an integer it hands out has 64 bits.
pub record Has64Bit (j : Json) : Type 0 where
  pub unsigned_lt : (v : j.Value) (n : ℕ) → j.as_integer v ≡ some (unsigned n) → n < u64_mod
  pub signed_lt :
      (v : j.Value) (n : ℕ) → j.as_integer v ≡ some (signed_non_negative n) → n < u64_mod

-- Every rule of the format, for the index that is returned.
pub record IsPakIndex (stamp : FileStamp) (index : PakIndex) : Type 0 where
  pub stamp_is : index.stamp ≡ stamp
  pub tiles : Tiles index.description_size index.entries stamp.size
  pub indexed : IsIndexed index.entries index.by_name

Gives-mono {ℓ} :
    {A : Type ℓ} {P Q : A → Type 0} {m : PakResult A}
    → ((a : A) → P a → Q a)
    → Gives P m
    → Gives Q m
Gives-mono f (given p) = given (f _ p)
Gives-mono f refusal = refusal

Gives-damage_if {ℓ} :
    {B : Type ℓ} {Q : B → Type 0} (b : Bool) (d : Damage) (k : Unit {0} → PakResult B)
    → (b ≡ false → Gives Q (k tt))
    → Gives Q (damage_if b d >>= k)
Gives-damage_if true d k h = refusal
Gives-damage_if false d k h = h refl

module _ (j : Json) (lib : Has64Bit j) where
  integer_value-lt :
      (v : j.Value) (name : Bytes) (o : Option JsonInteger)
      → j.as_integer v ≡ o
      → Gives (λ n. n < u64_mod) (integer_value j name o)
  integer_value-lt v name none e = refusal
  integer_value-lt v name (some (unsigned n)) e = given (lib.unsigned_lt v n e)
  integer_value-lt v name (some (signed_non_negative n)) e = given (lib.signed_lt v n e)
  integer_value-lt v name (some (signed_negative n)) e = refusal

  size_read-lt :
      (resource : j.Value) (name : Bytes) → Gives (λ n. n < u64_mod) (size_read j resource name)
  unfolding size_read
  size_read-lt resource name =
      Gives-bind _ (Gives-any (required (j.find_key resource "size") (size_missing name)))
        λ found _. integer_value-lt found name (j.as_integer found) refl

  header_size_read-lt :
      (description : j.Value) → Gives (λ n. n < u64_mod) (header_size_read j description)
  unfolding header_size_read
  header_size_read-lt description =
      Gives-bind _ (Gives-any (required (j.find_key description "headerSize") header_size_missing))
        λ found _.
          Gives-bind _ (Gives-any (required (j.as_string found) header_size_not_digits))
            λ text _. header_size_text-lt text

  resource_read-IsReading :
      (start : ℕ) (resource : j.Value) (r : Reading)
      → IsReading start r
      → Gives (IsReading start) (resource_read j resource r)
  unfolding resource_read
  resource_read-IsReading start resource r x =
      Gives-bind _
        (Gives-any (damage_if (not (j.is_object resource)) (resource_not_object r.position)))
        λ _ _.
          Gives-bind _
            (Gives-any (required (j.find_key resource "name") (resource_without_name r.position)))
            λ found _.
              Gives-bind _
                (Gives-any (required (j.as_string found) (resource_name_not_string r.position)))
                λ name _.
                  Gives-bind _ (size_read-lt resource name)
                    λ size lt. add_entry-IsReading start size name r x lt

  resources_read-IsReading :
      (start : ℕ) (resources : List j.Value) (r : Reading)
      → IsReading start r
      → Gives (IsReading start) (resources_read j resources r)
  unfolding resources_read
  resources_read-IsReading start [] r x = given x
  resources_read-IsReading start (resource ∷ rest) r x =
      Gives-bind _ (resource_read-IsReading start resource r x)
        λ more y. resources_read-IsReading start rest more y

  index_end-IsPakIndex :
      (stamp : FileStamp) (header_size : ℕ) (r : Reading)
      → IsReading header_size r
      → Gives
          (λ index. IsPakIndex stamp index × (index.description_size ≡ header_size))
          (index_end j stamp header_size r)
  unfolding index_end
  index_end-IsPakIndex stamp header_size r x = elim (Bool-cases (ltb stamp.size r.running)) [
    | inl more ↦ rw more refusal
    | inr le ↦ rw le (elim (Bool-cases (ltb r.running stamp.size)) [
      | inl less ↦ rw less refusal
      | inr ge ↦
          let whole : r.running ≡ stamp.size = ground arith in
          rw ge (
            given
              (record { stamp_is = refl; tiles = rw (← whole) x.tiles; indexed = x.indexed }, refl))
    ])
  ]

  description_index-IsPakIndex :
      (stamp : FileStamp) (end : ℕ) (description : j.Value)
      → Gives
          (λ index. IsPakIndex stamp index × (index.description_size ≡ end))
          (description_index j stamp end description)
  unfolding description_index
  description_index-IsPakIndex stamp end description =
      Gives-bind _ (Gives-any (damage_if (not (j.is_object description)) not_an_object)) λ _ _.
        Gives-bind _ (header_size_read-lt description) λ header_size lt.
          Gives-damage_if (not (header_size == end)) _ _ λ same.
            Gives-bind _
              (Gives-any (required (j.find_key description "resources") resources_missing))
              λ found _.
                Gives-bind _ (Gives-any (required (j.as_array found) resources_not_array))
                  λ resources _.
                    Gives-bind _
                      (resources_read-IsReading header_size resources _
                        (record { tiles = refl; indexed = empty-IsIndexed; in_range = lt }))
                      λ r x.
                        let at_end : header_size ≡ end = ground (arith, same) in
                        Gives-mono (λ index p. (p.0, p.1 ∙ at_end))
                          (index_end-IsPakIndex stamp header_size r x)

  from_line :
      (stamp : FileStamp) (content : Bytes) (o : Option ℕ)
      → Gives
          (λ index.
            IsPakIndex stamp index
            × ((place : ℕ) × (o ≡ some place) × (index.description_size ≡ place + 1)))
          (line_at content o >>= λ p.
            description_parse j p.0 >>= λ description. description_index j stamp p.1 description)
  from_line stamp content none = refusal
  from_line stamp content (some place) =
      Gives-bind _ (Gives-any (description_parse j (take place content))) λ description _.
        Gives-mono (λ index p. (p.0, (place, refl, p.1)))
          (description_index-IsPakIndex stamp (place + 1) description)

  -- Whatever the file and the description say: an index that is returned has its resources one
  -- behind the other, with no gap, from the end of the description to the end of the file, finds
  -- exactly them by name, and its description ends at the first newline of the file.
  pub pak_index_read-IsPakIndex :
      (file : PakFile) (content : Bytes)
      → Holds file content
      → Gives
          (λ index.
            IsPakIndex file.stamp index
            × ((place : ℕ) × (find b'\n' (take (min (length content) description_limit) content)
                  ≡ some place)
                × (index.description_size ≡ place + 1)))
          (pak_index_read j file)
  unfolding pak_index_read
  pak_index_read-IsPakIndex file content h =
      rw (ap (description_read file) h.size_is ∙ description_read-line_at file content h) (
        from_line file.stamp content
          (find b'\n' (take (min (length content) description_limit) content)))
