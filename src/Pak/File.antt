-- ===== src/Pak/File.antt =====
-- What src/internal/PakIndex.hpp, RandomAccessFile.hpp and PakAccess.hpp declare: the open file,
-- its stamp, and the errors of the pak code. The texts of the errors are kept as their parts.
use libthe_seed.Prelude.{ℕ, ◌≡◌, String, List}
use mathlib.Core.Path.{subst}
use libthe_seed.Bounded.Order.{Bytes}

-- FileStamp; a signed time is kept as the bit pattern of its 64 bits.
pub record FileStamp : Type 0 where
  pub device : ℕ
  pub file : ℕ
  pub size : ℕ
  pub modified : ℕ

-- How ReadAt ends: the buffer is filled, FileShortRead, or FileReadError.
pub data ReadResult : Type 0 where
  filled : Bytes → ReadResult
  short_read : (offset expected got : ℕ) → ReadResult
  refused : String → ReadResult

-- An open file: what the system answers to Stamp and to ReadAt.
pub record PakFile : Type 0 where
  pub stamp : FileStamp
  pub read_at : ℕ → ℕ → ReadResult

-- The rules of the format, each with what its message names.
pub data Damage : Type 0 where
  shorter_than_described : (offset expected got : ℕ) → Damage
  line_too_long : Damage
  no_newline : ℕ → Damage
  not_json : String → Damage
  nested_too_deep : Damage
  not_an_object : Damage
  header_size_missing header_size_not_digits header_size_out_of_range : Damage
  header_size_differs : (stated actual : ℕ) → Damage
  resources_missing resources_not_array : Damage
  resource_not_object resource_without_name resource_name_not_string : ℕ → Damage
  size_missing size_not_integer appears_twice size_out_of_range : Bytes → Damage
  claims_more : (claimed held : ℕ) → Damage
  unexplained_bytes : ℕ → Damage

pub data PakError : Type 0 where
  damaged : Damage → PakError
  read_error : String → PakError

pub data PakResult {ℓ} (A : Type ℓ) : Type ℓ where
  ok : A → PakResult A
  err : PakError → PakResult A

infixl 5 ◌>>=◌
abbrev pub ◌>>=◌ {ℓ κ} : {A : Type ℓ} {B : Type κ} → PakResult A → (A → PakResult B) → PakResult B
ok a >>= f = f a
err e >>= f = err e

-- PakEntry and PakIndex; `by_name` is the hash map, a pair for each key.
pub record PakEntry : Type 0 where
  pub name : Bytes
  pub offset : ℕ
  pub size : ℕ

pub record PakIndex : Type 0 where
  pub stamp : FileStamp
  pub entries : List PakEntry
  pub by_name : List (Bytes × ℕ)
  pub description_size : ℕ

-- `P` holds of the value, if there is one.
pub data Gives {ℓ} {A : Type ℓ} (P : A → Type 0) : PakResult A → Type ℓ where
  given : {a : A} → P a → Gives P (ok a)
  refusal : {e : PakError} → Gives P (err e)

module _ {ℓ} {A : Type ℓ} where
  ok-injective : (a b : A) → ok a ≡ ok b → a ≡ b
  ok-injective a b e = cc

  pub Gives-ok : {P : A → Type 0} {m : PakResult A} (a : A) → Gives P m → m ≡ ok a → P a
  Gives-ok {P} a (given {a = b} p) e = subst P (ok-injective b a e) p
  Gives-ok a refusal e = absurd (cc)

  pub Gives-any : (m : PakResult A) → Gives (λ _. Unit) m
  Gives-any (ok a) = given tt
  Gives-any (err e) = refusal

module _ {ℓ κ} {A : Type ℓ} {B : Type κ} {P : A → Type 0} {Q : B → Type 0} where
  pub Gives-bind :
      {m : PakResult A} (f : A → PakResult B)
      → Gives P m
      → ((a : A) → P a → Gives Q (f a))
      → Gives Q (m >>= f)
  Gives-bind f (given p) k = k _ p
  Gives-bind f refusal k = refusal
