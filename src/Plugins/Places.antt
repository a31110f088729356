-- ===== src/Plugins/Places.antt =====
-- The names and the search list of src/internal/PluginSearch.cpp, on Linux.
use libthe_seed.Prelude.{ℕ, Bool, List, [], ◌∷◌, ◌++◌, ◌==◌, if◌then◌else◌, length}
use libthe_seed.Bounded.Order.{Bytes}

unfoldable pub plugin_file_name : Bytes → Bytes
plugin_file_name library = (b'l' ∷ b'i' ∷ b'b' ∷ []) ++ library ++ (b'.' ∷ b's' ∷ b'o' ∷ [])

unfoldable pub pak_file_name : Bytes → Bytes
pak_file_name library = library ++ (b'.' ∷ b'p' ∷ b'a' ∷ b'k' ∷ [])

abbrev up_two : Bytes
up_two = b'.' ∷ b'.' ∷ b'/' ∷ b'.' ∷ b'.' ∷ b'/' ∷ []

abbrev node_modules : Bytes
node_modules =
    b'.' ∷ b'.' ∷ b'/' ∷ b'n' ∷ b'o' ∷ b'd' ∷ b'e' ∷ b'_' ∷ b'm' ∷ b'o' ∷ b'd' ∷ b'u' ∷ b'l' ∷ b'e'
    ∷ b's' ∷ b'/' ∷ []

abbrev libs_suffix : Bytes
libs_suffix = b'/' ∷ b's' ∷ b'r' ∷ b'c' ∷ b'/' ∷ b'.' ∷ b'l' ∷ b'i' ∷ b'b' ∷ b's' ∷ []

unfoldable pub development_locations : Bytes → Bytes → Bool → List Bytes
development_locations org library pak =
    let suffix : Bytes = if pak then [] else libs_suffix in
    (up_two ++ library ++ suffix)
    ∷ (if length org == 0 then [] else (node_modules ++ org ++ b'/' ∷ library ++ suffix) ∷ [])

-- The list, and the number of configured locations in front.
unfoldable pub search_list_build : List Bytes → Bytes → Bytes → Bool → List Bytes × ℕ
search_list_build configured org library pak =
    (configured ++ development_locations org library pak, length configured)
