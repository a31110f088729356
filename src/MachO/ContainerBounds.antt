-- ===== src/MachO/ContainerBounds.antt =====
-- What ParseMachOContainer returns, and that it reads nothing outside the file.
use libthe_seed.Prelude.{
  ℕ, zero, suc, ◌+◌, ◌*◌, ◌^◌, ◌≡◌, ◌≤◌, ◌<◌, refl, not, List, [], ◌∷◌, ◌++◌, length, length-append,
  All, All-append, All-mono, arith, ltb, ◌==◌, ◌||◌, Returns, value, refusal, Returns-bind,
  Returns-mono, Returns-reject_if, Returns-if, ap,
}
use libthe_seed.Bounded.Range.{range_fits}
use libthe_seed.Bounded.Order.{big, bytes4}
use libthe_seed.Bounded.Span.{ByteSpan, IsValid, sub-Returns, read-Returns}
use libthe_seed.MachO.Defs.{
  MachoKind, thin64_little, thin32_little, thin64_big, thin32_big, fat32, fat64, unknown,
}
use libthe_seed.MachO.Container.{
  ContainerForm, thin_form, fat32_form, fat64_form, FatArch, ContainerEntry, MachoContainer,
  TableLayout, fat_arch32, fat_arch64, starts_with_thin_magic, read_fat_arch, first_row_check,
  read_table, parse_slices, parse_fat, parse_thin, parse_kind, parse_macho_container,
}
use libthe_seed.MachO.SliceBounds.{IsSlice, classify_macho_magic-Returns, parse_macho_slice-Returns}
use libthe_seed.MachO.Disjoint.{AllPairs, Apart, overlap_check-Apart}

-- Where the table of a file with so many slices ends.
abbrev pub table_end : ContainerForm → ℕ → ℕ
table_end thin_form count = 0
table_end fat32_form count = 8 + count * 20
table_end fat64_form count = 8 + count * 32

abbrev pub archs : List ContainerEntry → List FatArch
archs [] = []
archs (e ∷ rest) = e.arch ∷ archs rest

-- There is a slice; every slice is parsed at its own range, which lies inside the file and behind
-- the table; and no two ranges share a byte.
pub record IsContainer (file : ByteSpan) (c : MachoContainer) : Type 0 where
  pub has_slice : 0 < length c.entries
  pub slices : All (λ e. IsSlice file e.arch.offset e.arch.size e.slice) c.entries
  pub behind_table : All (λ e. table_end c.form (length c.entries) ≤ e.arch.offset) c.entries
  pub apart : AllPairs Apart (archs c.entries)

-- A row of the table, as it is kept.
abbrev IsRow : ByteSpan → ℕ → FatArch → Type 0
IsRow file end arch = (arch.offset + arch.size ≤ file.size) × (end ≤ arch.offset)

starts_with_thin_magic-Returns :
    {file : ByteSpan}
    → IsValid file
    → (offset size : ℕ) → Returns (λ _. Unit) (starts_with_thin_magic file offset size)
unfolding starts_with_thin_magic
starts_with_thin_magic-Returns {file} v offset size =
    Returns-if (not (range_fits offset size file.size) || ltb size 4) (λ _. value tt)
      λ _.
        Returns-bind _ (sub-Returns v offset size "slice")
          λ view part. Returns-bind _ (classify_macho_magic-Returns part.valid) λ kind _. value tt

first_row_check-Returns :
    {file : ByteSpan}
    → IsValid file
    → (t : TableLayout) (i : ℕ) (arch : FatArch)
    → Returns (λ _. Unit) (first_row_check t file i arch)
unfolding first_row_check
first_row_check-Returns v t zero arch = starts_with_thin_magic-Returns v arch.offset arch.size
first_row_check-Returns v t (suc i) arch = value tt

module _ (t : TableLayout) {file : ByteSpan} (v : IsValid file) where
  read_fat_arch-Returns : (at : ℕ) → Returns (λ _. Unit) (read_fat_arch t file at)
  unfolding read_fat_arch
  read_fat_arch-Returns at =
      Returns-bind _ (read-Returns v at big bytes4 "fat_arch cpu type") λ cputype _.
        Returns-bind _ (read-Returns v (at + 4) big bytes4 "fat_arch cpu subtype") λ cpusubtype _.
          Returns-bind _ (read-Returns v (at + 8) big t.address "fat_arch offset") λ offset _.
            Returns-bind _ (read-Returns v (at + t.size_at) big t.address "fat_arch size") λ size _.
              Returns-bind _ (read-Returns v (at + t.align_at) big bytes4 "fat_arch alignment")
                λ align _. value tt

  read_table-Returns :
      (end i left : ℕ) (entries : List FatArch)
      → All (IsRow file end) entries
      → Returns
          (λ table. All (IsRow file end) table × (length table ≡ length entries + left))
          (read_table t file end i left entries)
  unfolding read_table
  read_table-Returns end i zero entries h = value (h, omega arith)
  read_table-Returns end i (suc left) entries h =
      Returns-bind _ (read_fat_arch-Returns (8 + i * t.entry_size)) λ arch _.
        Returns-bind _ (first_row_check-Returns v t i arch) λ is_program _.
          Returns-reject_if (not is_program) _ _ _ λ _.
            Returns-bind _ (sub-Returns v arch.offset arch.size "fat slice") λ view part.
              Returns-reject_if (ltb arch.offset end) _ _ _ λ behind.
                Returns-mono _
                  (λ table r. (r.0, omega (arith, r.1, length-append entries (arch ∷ []))))
                  (read_table-Returns end (i + 1) left (entries ++ arch ∷ []) (
                    All-append (IsRow file end) entries (arch ∷ []) h
                      ((part.fits, ground (arith, behind)), tt)))

archs-append :
    (xs : List ContainerEntry) (e : ContainerEntry) → archs (xs ++ e ∷ []) ≡ archs xs ++ e.arch ∷ []
archs-append [] e = refl
archs-append (x ∷ xs) e = ap (◌∷◌ x.arch) (archs-append xs e)

append_middle {ℓ} : {A : Type ℓ} (xs ys : List A) (y : A) → (xs ++ y ∷ []) ++ ys ≡ xs ++ y ∷ ys
append_middle [] ys y = refl
append_middle (x ∷ xs) ys y = ap (◌∷◌ x) (append_middle xs ys y)

append_nil {ℓ} : {A : Type ℓ} (xs : List A) → xs ≡ xs ++ []
append_nil [] = refl
append_nil (x ∷ xs) = ap (◌∷◌ x) (append_nil xs)

abbrev IsEntry : ByteSpan → ContainerEntry → Type 0
IsEntry file e = IsSlice file e.arch.offset e.arch.size e.slice

parse_slices-Returns :
    {file : ByteSpan}
    → IsValid file
    → (table : List FatArch) (entries : List ContainerEntry) → All (IsEntry file) entries
    → Returns
        (λ all. All (IsEntry file) all × (archs all ≡ archs entries ++ table))
        (parse_slices file table entries)
unfolding parse_slices
parse_slices-Returns v [] entries h = value (h, append_nil (archs entries))
parse_slices-Returns {file} v (arch ∷ rest) entries h =
    Returns-bind _ (parse_macho_slice-Returns v arch.offset arch.size "fat slice") λ slice s.
      let entry : ContainerEntry = record { arch = arch; slice = slice } in
      Returns-mono _
        (λ all r.
          (r.0, rw (r.1, archs-append entries entry, append_middle (archs entries) rest arch)))
        (parse_slices-Returns v rest (entries ++ entry ∷ [])
          (All-append (IsEntry file) entries (entry ∷ []) h (s, tt)))

length-archs : (es : List ContainerEntry) → length (archs es) ≡ length es
length-archs [] = refl
length-archs (e ∷ es) = ap suc (length-archs es)

All-of_archs :
    (P : FatArch → Type 0) (es : List ContainerEntry) → All P (archs es) → All (λ e. P e.arch) es
All-of_archs P [] h = tt
All-of_archs P (e ∷ es) h = (h.0, All-of_archs P es h.1)

fat_IsContainer :
    {file : ByteSpan} (t : TableLayout) (count : ℕ) (table : List FatArch)
    (entries : List ContainerEntry)
    → 0 < count
    → table_end t.form count ≡ 8 + count * t.entry_size
    → All (IsRow file (8 + count * t.entry_size)) table
    → length table ≡ count
    → AllPairs Apart table
    → All (IsEntry file) entries
    → archs entries ≡ table
    → IsContainer file (record { form = t.form; entries = entries })
fat_IsContainer {file} t count table entries some_rows end rows same_length apart slices same =
    let many : length entries ≡ count =
      omega (arith, length-archs entries, ap length same, same_length) in
    record {
      has_slice = omega (arith, many, some_rows);
      slices = slices;
      behind_table =
          rw (many, end)
            (All-of_archs (λ a. 8 + count * t.entry_size ≤ a.offset) entries
              (rw same (All-mono (IsRow file (8 + count * t.entry_size)) table (λ a r. r.1) rows)));
      apart = rw same apart;
    }

module _ {file : ByteSpan} (v : IsValid file) where
  parse_fat-Returns :
      (t : TableLayout)
      → ((count : ℕ) → table_end t.form count ≡ 8 + count * t.entry_size)
      → file.size < 2 ^ 63
      → Returns (IsContainer file) (parse_fat t file)
  unfolding parse_fat
  parse_fat-Returns t end small = Returns-reject_if (ltb file.size 8) _ _ _ λ _.
      Returns-bind _ (read-Returns v 4 big bytes4 "fat_arch count") λ count _.
        Returns-reject_if (count == 0 || ltb 256 count) _ _ _ λ plausible.
          Returns-reject_if (ltb file.size (8 + count * t.entry_size)) _ _ _ λ _.
            Returns-bind _ (read_table-Returns t v (8 + count * t.entry_size) 0 count [] tt)
              λ table (rows, counted).
                Returns-bind _
                  (overlap_check-Apart table (
                    All-mono (IsRow file (8 + count * t.entry_size)) table
                      (λ a r. omega (arith, r.0, small)) rows))
                  λ u apart.
                    Returns-bind _ (parse_slices-Returns v table [] tt) λ entries (slices, same).
                      value (
                        fat_IsContainer t count table entries (ground (arith, plausible))
                          (end count) rows (omega (arith, counted)) apart slices same)

  parse_thin-Returns : Returns (IsContainer file) (parse_thin file)
  unfolding parse_thin
  parse_thin-Returns =
      Returns-bind _ (parse_macho_slice-Returns v 0 file.size "the file") λ slice s. value (record {
        has_slice = omega arith;
        slices = (s, tt);
        behind_table = (omega arith, tt);
        apart = (tt, tt);
      })

  parse_kind-Returns :
      file.size < 2 ^ 63 → (kind : MachoKind) → Returns (IsContainer file) (parse_kind file kind)
  parse_kind-Returns small fat32 = parse_fat-Returns fat_arch32 (λ count. refl) small
  parse_kind-Returns small fat64 = parse_fat-Returns fat_arch64 (λ count. refl) small
  parse_kind-Returns small thin64_little = parse_thin-Returns
  parse_kind-Returns small thin32_little = parse_thin-Returns
  parse_kind-Returns small thin64_big = parse_thin-Returns
  parse_kind-Returns small thin32_big = parse_thin-Returns
  parse_kind-Returns small unknown = refusal

  -- For a view of a file below 2 ^ 63 bytes, ParseMachOContainer reads nothing outside the
  -- file, and what it returns has slices that lie inside the file and behind the table, no two
  -- sharing a byte, each with its segments and its signature inside it, the load commands of a
  -- supported one tiling its header, and its names standing in the file.
  pub parse_macho_container-Returns :
      file.size < 2 ^ 63 → Returns (IsContainer file) (parse_macho_container file)
  unfolding parse_macho_container
  parse_macho_container-Returns small =
      Returns-bind _ (classify_macho_magic-Returns v) λ kind _. parse_kind-Returns small kind
