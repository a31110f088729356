-- ===== src/Deps/Format.antt =====
-- IsMachO, ParseBytes and EscapesSearchFolders of src/DependencyLister.cpp. Its LowerAscii is the
-- same function as that of src/internal/PeParser.cpp.
use libthe_seed.Prelude.{
  ℕ, Bool, true, false, ◌&&◌, ◌||◌, List, [], ◌∷◌, leb, ltb, ◌==◌, if◌then◌else◌, length, get_or,
  find, same_name, is_some, Outcome, ok, ◌>>=◌, throw_malformed, said,
}
use libthe_seed.Bounded.Order.{Bytes}
use libthe_seed.Bounded.Elements.{matches, first_high, last_high}
use libthe_seed.Elf.Names.{elf_magic, list_from_bytes}
use libthe_seed.Pe.Names.{list_dependencies_from_bytes}
use libthe_seed.Deps.Graph.{NodeFormat, elf, pe}

unfoldable pub is_macho : Bytes → Outcome Bool
is_macho bytes =
    if ltb (length bytes) 4
    then ok false
    else first_high bytes 0 >>= λ magic.
        if magic == 0xfeedface || magic == 0xcefaedfe || magic == 0xfeedfacf || magic == 0xcffaedfe
        then ok true
        else if magic == 0xcafebabe || magic == 0xbebafeca
        then (if ltb (length bytes) 8
            then ok false
            else (if magic == 0xcafebabe then first_high bytes 4 else last_high bytes 4)
              >>= λ count. ok (leb count 30))
        else ok false

-- The format that is read off the first bytes, with the names. A text that names no format stands
-- whole in the place of the format.
unfoldable pub parse_bytes : Bytes → Outcome (NodeFormat × List Bytes)
parse_bytes bytes =
    if ltb (length bytes) 2
    then throw_malformed "File is too small to determine binary format" (said "" [])
    else (if leb 4 (length bytes) then matches bytes 0 elf_magic else ok false) >>= λ elf_file.
        if elf_file
        then (list_from_bytes bytes >>= λ refs. ok (elf, refs))
        else matches bytes 0 (b'M' ∷ b'Z' ∷ []) >>= λ pe_file.
            if pe_file
            then (list_dependencies_from_bytes bytes >>= λ refs. ok (pe, refs))
            else throw_malformed "Unsupported binary format" (said "" [])

-- `name[at]` of a std::string, which is the terminating NUL when `at` is the size.
abbrev pub char_at : Bytes → ℕ → ℕ
char_at name at = get_or name at 0

unfoldable pub escapes_search_folders : Bytes → Bool
escapes_search_folders name =
    if length name == 0 || same_name name (b'.' ∷ []) || same_name name (b'.' ∷ b'.' ∷ [])
    then true
    else if is_some (find b'/' name) || is_some (find b'\\' name) || is_some (find 0 name)
    then true
    else leb 2 (length name) && char_at name 1 == b':'
