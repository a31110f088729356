-- ===== src/NameParser.antt =====
-- src/internal/NameParser.cpp: the names of plugins and paks, as byte strings. A LoadError with
-- reason InvalidName keeps the name, the kind and the rule; the rule is what differs.
pub mod Grammar
pub mod Complete
mod Tests
use libthe_seed.Prelude.{
  ℕ, suc, String, Bool, true, false, not, ◌&&◌, ◌||◌, List, [], ◌∷◌, Option, none, some, ltb, ◌==◌,
  if◌then◌else◌, length, get_or, take, drop, any, find,
}
use libthe_seed.Bounded.Order.{Bytes}

pub record Name : Type 0 where
  pub org : Bytes
  pub library : Bytes

pub data Rule : Type 0 where
  control_character backslash colon leading_slash empty_part dot_part more_slashes : Rule

pub data Parsed (A : Type 0) : Type 0 where
  accepted : A → Parsed A
  rejected : Rule → Parsed A

infixl 5 ◌>>=◌
abbrev pub ◌>>=◌ : {A B : Type 0} → Parsed A → (A → Parsed B) → Parsed B
accepted a >>= f = f a
rejected r >>= f = rejected r

abbrev pub is_control : ℕ → Bool
is_control u = ltb u 0x20 || u == 0x7f

-- `part == "." || part == ".."`
unfoldable pub is_dots : Bytes → Bool
is_dots (a ∷ []) = a == b'.'
is_dots (a ∷ b ∷ []) = a == b'.' && b == b'.'
is_dots _ = false

unfoldable pub is_empty : Bytes → Bool
is_empty [] = true
is_empty (_ ∷ _) = false

unfoldable pub part_check : Bytes → Parsed (Unit {0})
unfolding is_empty is_dots
part_check part =
    if is_empty part
    then rejected empty_part
    else if is_dots part
    then rejected dot_part
    else accepted tt

-- `name.find("//") != npos`
unfoldable pub has_double_slash : Bytes → Bool
has_double_slash (a ∷ b ∷ rest) = (a == b'/' && b == b'/') || has_double_slash (b ∷ rest)
has_double_slash _ = false

-- `name.find(c) != npos`
unfoldable pub found : Option ℕ → Bool
found none = false
found (some _) = true

-- `name.size() > 1 && name.front() == '/' && name[1] != '/'`
abbrev pub is_absolute : Bytes → Bool
is_absolute name = ltb 1 (length name) && get_or name 0 0 == b'/' && not (get_or name 1 0 == b'/')

-- From the search for the first slash on.
unfoldable pub split_name : Bytes → Option ℕ → Parsed Name
split_name name none = part_check name >>= λ _. accepted (record { org = []; library = name })
split_name name (some slash) =
    if found (find b'/' (drop (suc slash) name))
    then (if has_double_slash name then rejected empty_part else rejected more_slashes)
    else let org = take slash name in
      let library = drop (suc slash) name in
      part_check org >>= λ _.
      part_check library >>= λ _. accepted (record { org = org; library = library })

unfoldable pub parse_name : Bytes → Parsed Name
parse_name name =
    if any is_control name
    then rejected control_character
    else if found (find b'\\' name)
    then rejected backslash
    else if found (find b':' name)
    then rejected colon
    else if is_absolute name
    then rejected leading_slash
    else split_name name (find b'/' name)
