-- ===== src/Bounded/Order.antt =====
-- src/internal/ByteSwap.hpp, and detail::ToHostOrder of src/internal/BoundedBytes.hpp.
-- `input & 0xFF << 8 k` followed by a shift is written as the byte itself times its new weight.
use native.Mathlib.Nat.{div-div-eq-div-mul, zero-div, pow-suc}
use libthe_seed.Prelude.{
  ℕ, zero, suc, ◌+◌, ◌*◌, ◌/◌, ◌%◌, ◌^◌, ◌<◌, ◌≡◌, refl, ap, ◌∙◌, Bool, true, false, List, [], ◌∷◌,
  arith, if◌then◌else◌, length, get_or, All,
}

pub data ByteOrder : Type 0 where
  little big : ByteOrder

-- sizeof(T) of the types that are read
pub data Width : Type 0 where
  bytes1 bytes2 bytes4 bytes8 : Width

abbrev pub sizeof : Width → ℕ
sizeof bytes1 = 1
sizeof bytes2 = 2
sizeof bytes4 = 4
sizeof bytes8 = 8

unfoldable pub byte : ℕ → ℕ → ℕ
byte x weight = x / weight % 256

unfoldable pub byte_swap : Width → ℕ → ℕ
byte_swap bytes1 x = x
byte_swap bytes2 x = byte x 1 * 2 ^ 8 + byte x (2 ^ 8)
byte_swap bytes4 x =
    byte x 1 * 2 ^ 24 + byte x (2 ^ 8) * 2 ^ 16 + byte x (2 ^ 16) * 2 ^ 8 + byte x (2 ^ 24)
byte_swap bytes8 x =
    byte x 1 * 2 ^ 56
    + byte x (2 ^ 8) * 2 ^ 48
    + byte x (2 ^ 16) * 2 ^ 40
    + byte x (2 ^ 24) * 2 ^ 32
    + byte x (2 ^ 32) * 2 ^ 24
    + byte x (2 ^ 40) * 2 ^ 16
    + byte x (2 ^ 48) * 2 ^ 8
    + byte x (2 ^ 56)

abbrev pub order_eq : ByteOrder → ByteOrder → Bool
order_eq little little = true
order_eq big big = true
order_eq _ _ = false

-- ByteSwapIfNeeded on a host of the given order, and ToHostOrder, which calls it.
unfoldable pub byte_swap_if_needed : ByteOrder → Width → ℕ → ByteOrder → ℕ
byte_swap_if_needed host w value file = if order_eq host file then value else byte_swap w value

abbrev pub Bytes : Type 0
Bytes = List ℕ

abbrev pub IsByte : ℕ → Type 0
IsByte b = b < 256

-- The number that a byte sequence stands for, least or most significant byte first.
abbrev pub le_value : Bytes → ℕ
le_value [] = 0
le_value (b ∷ bs) = b + 256 * le_value bs

abbrev pub be_onto : ℕ → Bytes → ℕ
be_onto acc [] = acc
be_onto acc (b ∷ bs) = be_onto (acc * 256 + b) bs

abbrev pub value_of : ByteOrder → Bytes → ℕ
value_of little bs = le_value bs
value_of big bs = be_onto 0 bs

byte_zero : (a r : ℕ) → a < 256 → byte (a + 256 * r) 1 ≡ a
unfolding byte
byte_zero a r h = omega arith

-- One byte up, the weight is 256 times smaller.
byte_suc : (a r w v : ℕ) → a < 256 → v ≡ 256 * w → byte (a + 256 * r) v ≡ byte r w
unfolding byte
byte_suc a r w v h e =
    rw (e, ← div-div-eq-div-mul (a + 256 * r) 256 w) (ap (λ x. x / w % 256) (omega arith))

-- The byte of weight 256 ^ k is the k-th of the sequence.
byte-le_value : (bs : Bytes) (k : ℕ) → All IsByte bs → byte (le_value bs) (256 ^ k) ≡ get_or bs k 0
byte-le_value [] k h = unfold byte in omega (arith, zero-div (256 ^ k))
byte-le_value (a ∷ bs) zero h = byte_zero a (le_value bs) h.0
byte-le_value (a ∷ bs) (suc k) h =
    byte_suc a (le_value bs) (256 ^ k) (256 ^ suc k) h.0 (omega (arith, pow-suc 256 k))
    ∙ byte-le_value bs k h.1

swap_le :
    (w : Width) (bs : Bytes)
    → length bs ≡ sizeof w
    → All IsByte bs
    → byte_swap w (le_value bs) ≡ be_onto 0 bs
unfolding byte_swap
swap_le bytes1 (a ∷ []) n h = omega arith
swap_le bytes2 (a ∷ b ∷ []) n h =
    let bs = a ∷ b ∷ [] in omega (arith, byte-le_value bs 0 h, byte-le_value bs 1 h)
swap_le bytes4 (a ∷ b ∷ c ∷ d ∷ []) n h =
    let bs = a ∷ b ∷ c ∷ d ∷ [] in
    omega (
      arith,
      byte-le_value bs 0 h,
      byte-le_value bs 1 h,
      byte-le_value bs 2 h,
      byte-le_value bs 3 h,
    )
swap_le bytes8 (a ∷ b ∷ c ∷ d ∷ e ∷ f ∷ g ∷ i ∷ []) n h =
    let bs = a ∷ b ∷ c ∷ d ∷ e ∷ f ∷ g ∷ i ∷ [] in
    omega (
      arith,
      byte-le_value bs 0 h,
      byte-le_value bs 1 h,
      byte-le_value bs 2 h,
      byte-le_value bs 3 h,
      byte-le_value bs 4 h,
      byte-le_value bs 5 h,
      byte-le_value bs 6 h,
      byte-le_value bs 7 h,
    )
swap_le _ _ n h = absurd (omega arith)

swap_be :
    (w : Width) (bs : Bytes)
    → length bs ≡ sizeof w
    → All IsByte bs
    → byte_swap w (be_onto 0 bs) ≡ le_value bs
swap_be bytes1 (a ∷ []) n h = unfold byte_swap in omega arith
swap_be bytes2 (a ∷ b ∷ []) n (ha, (hb, t)) =
    let same : be_onto 0 (a ∷ b ∷ []) ≡ le_value (b ∷ a ∷ []) = omega arith in
    rw same (swap_le bytes2 (b ∷ a ∷ []) refl (hb, (ha, t)) ∙ omega arith)
swap_be bytes4 (a ∷ b ∷ c ∷ d ∷ []) n (ha, (hb, (hc, (hd, t)))) =
    let same : be_onto 0 (a ∷ b ∷ c ∷ d ∷ []) ≡ le_value (d ∷ c ∷ b ∷ a ∷ []) = omega arith in
    rw same (swap_le bytes4 (d ∷ c ∷ b ∷ a ∷ []) refl (hd, (hc, (hb, (ha, t)))) ∙ omega arith)
swap_be bytes8 (a ∷ b ∷ c ∷ d ∷ e ∷ f ∷ g ∷ i ∷ []) n h =
    let same : be_onto 0 (a ∷ b ∷ c ∷ d ∷ e ∷ f ∷ g ∷ i ∷ [])
        ≡ le_value (i ∷ g ∷ f ∷ e ∷ d ∷ c ∷ b ∷ a ∷ []) =
      omega arith in
    rw same (swap_le bytes8 (i ∷ g ∷ f ∷ e ∷ d ∷ c ∷ b ∷ a ∷ []) refl (omega arith) ∙ omega arith)
swap_be _ _ n h = absurd (omega arith)

-- What is loaded on a host of either order and then put in host order is the number that the
-- bytes stand for in the order asked.
pub load-value_of :
    (host order : ByteOrder) (w : Width) (bs : Bytes)
    → length bs ≡ sizeof w
    → All IsByte bs
    → byte_swap_if_needed host w (value_of host bs) order ≡ value_of order bs
unfolding byte_swap_if_needed
load-value_of little little w bs n h = refl
load-value_of little big w bs n h = swap_le w bs n h
load-value_of big little w bs n h = swap_be w bs n h
load-value_of big big w bs n h = refl

abbrev pub modulus : Width → ℕ
modulus bytes1 = 2 ^ 8
modulus bytes2 = 2 ^ 16
modulus bytes4 = 2 ^ 32
modulus bytes8 = 2 ^ 64

pub value_of-lt :
    (order : ByteOrder) (w : Width) (bs : Bytes)
    → length bs ≡ sizeof w
    → All IsByte bs
    → value_of order bs < modulus w
value_of-lt little bytes1 (a ∷ []) n h = omega arith
value_of-lt little bytes2 (a ∷ b ∷ []) n h = omega arith
value_of-lt little bytes4 (a ∷ b ∷ c ∷ d ∷ []) n h = omega arith
value_of-lt little bytes8 (a ∷ b ∷ c ∷ d ∷ e ∷ f ∷ g ∷ i ∷ []) n h = omega arith
value_of-lt big bytes1 (a ∷ []) n h = omega arith
value_of-lt big bytes2 (a ∷ b ∷ []) n h = omega arith
value_of-lt big bytes4 (a ∷ b ∷ c ∷ d ∷ []) n h = omega arith
value_of-lt big bytes8 (a ∷ b ∷ c ∷ d ∷ e ∷ f ∷ g ∷ i ∷ []) n h = omega arith
value_of-lt _ _ _ n h = absurd (omega arith)
