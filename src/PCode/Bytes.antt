-- ===== src/PCode/Bytes.antt =====
-- Operands, and numbers as bytes.
use fuguex_core.Prelude.{
  ℕ, zero, suc, ◌+◌, ◌-◌, ◌*◌, ◌/◌, ◌%◌, ◌^◌, ◌<◌, ◌≡◌, Bool, List, [], ◌∷◌, Option, none, some,
  ltb, if◌then◌else◌, length, take, drop,
}
use mathlib.Core.List.{map, reverse}

abbrev pub pointer_8_size : ℕ
pointer_8_size = 1

abbrev pub pointer_16_size : ℕ
pointer_16_size = 2

abbrev pub pointer_32_size : ℕ
pointer_32_size = 4

abbrev pub pointer_64_size : ℕ
pointer_64_size = 8

-- `Operand` of the fugue crate: the variants of the code's exhaustive match, with the fields that it
-- reads.
pub data Operand : Type 0 where
  address : (value size : ℕ) → Operand
  constant : (value size : ℕ) → Operand
  register : (offset size : ℕ) → Operand
  variable : (offset size space : ℕ) → Operand

-- `Operand::size`, the field that each variant has
abbrev pub size : Operand → ℕ
size (address value n) = n
size (constant value n) = n
size (register offset n) = n
size (variable offset n space) = n

-- the first bytes of a number, the least one first
abbrev pub le_bytes : ℕ → ℕ → List ℕ
le_bytes zero value = []
le_bytes (suc n) value = value % 256 ∷ le_bytes n (value / 256)

-- `u64::to_le_bytes` and `u64::to_be_bytes`
abbrev pub to_le_bytes : ℕ → List ℕ
to_le_bytes value = le_bytes 8 value

abbrev pub to_be_bytes : ℕ → List ℕ
to_be_bytes value = reverse (le_bytes 8 value)

-- The number that bytes stand for.
abbrev pub le_value : List ℕ → ℕ
le_value [] = 0
le_value (b ∷ bs) = b + 256 * le_value bs

abbrev pub value_of : Bool → List ℕ → ℕ
value_of big bs = if big then le_value (reverse bs) else le_value bs

-- What the code uses of the fugue crate's `Order`, `ByteCast`, `Address` and `AddressSpace`:
-- `ENDIAN.is_big`, `from_bytes` and `into_bytes` of the type with a number of bytes,
-- the conversion of an address to that type, and the bytes of an address of a space.
pub record ByteOps : Type 0 where
  pub is_big : Bool
  pub from_bytes : ℕ → List ℕ → ℕ
  pub into_bytes : ℕ → ℕ → List ℕ → List ℕ
  pub narrow : ℕ → ℕ → ℕ
  pub address_size : ℕ → ℕ
  pub from_bytes_lem :
      (width : ℕ) (bs : List ℕ) → length bs ≡ width → from_bytes width bs ≡ value_of is_big bs
  pub length-into_bytes :
      (width value : ℕ) (bs : List ℕ) → length (into_bytes width value bs) ≡ length bs
  pub from_bytes-into_bytes :
      (width value : ℕ) (bs : List ℕ)
      → length bs ≡ width
      → value < 256 ^ width
      → from_bytes width (into_bytes width value bs) ≡ value
  pub narrow_lem : (width value : ℕ) → value < 256 ^ width → narrow width value ≡ value

-- The values of a constant, in `values[..size]` of an array of eight; `none` is the panic of a
-- slice that is too long.
unfoldable pub constant_values : {V : Type 0} → Bool → (ℕ → V) → ℕ → ℕ → Option (List V)
constant_values big from_byte value n =
    if ltb 8 n
    then none
    else some (
        map from_byte
          (if big then drop (8 - n) (to_be_bytes value) else take n (to_le_bytes value)))
