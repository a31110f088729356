-- ===== src/NameParser/Tests.antt =====
-- Names at the edges of the grammar.
use libthe_seed.Prelude.{◌≡◌, refl, [], ◌∷◌, any, find}
use libthe_seed.Bounded.Order.{Bytes}
use libthe_seed.NameParser.{
  Name, accepted, rejected, empty_part, dot_part, more_slashes, leading_slash, parse_name,
  split_name, part_check, found, has_double_slash,
}
use libthe_seed.NameParser.Grammar.{Names, parse_name_sound}
use libthe_seed.NameParser.Complete.{parse_name_complete}

-- "a/b"
abbrev scoped_text : Bytes
scoped_text = b'a' ∷ b'/' ∷ b'b' ∷ []

abbrev scoped_name : Name
scoped_name = record { org = b'a' ∷ []; library = b'b' ∷ [] }

scoped_is_accepted : parse_name scoped_text ≡ accepted scoped_name
unfolding parse_name any find found split_name part_check
scoped_is_accepted = refl

edges :
    (parse_name [] ≡ rejected empty_part)
    × (parse_name (b'/' ∷ []) ≡ rejected empty_part)
    × (parse_name (b'/' ∷ b'/' ∷ []) ≡ rejected empty_part)
    × (parse_name (b'/' ∷ b'a' ∷ []) ≡ rejected leading_slash)
    × (parse_name (b'a' ∷ b'/' ∷ b'b' ∷ b'/' ∷ b'c' ∷ []) ≡ rejected more_slashes)
    × (parse_name (b'a' ∷ b'/' ∷ b'.' ∷ b'.' ∷ []) ≡ rejected dot_part)
unfolding parse_name any find found split_name part_check has_double_slash
edges = (refl, refl, refl, refl, refl, refl)

parse_name_sound_example : Names scoped_text scoped_name
parse_name_sound_example = parse_name_sound scoped_text scoped_name scoped_is_accepted

parse_name_complete_example : parse_name scoped_text ≡ accepted scoped_name
parse_name_complete_example =
    parse_name_complete scoped_text scoped_name
      (parse_name_sound scoped_text scoped_name scoped_is_accepted)
