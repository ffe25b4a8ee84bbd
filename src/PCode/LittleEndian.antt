-- ===== src/PCode/LittleEndian.antt =====
-- The conversions between numbers and bytes of a little-endian `Order`, with the laws of `ByteOps`.
use fuguex_core.Prelude.{
  ℕ, zero, suc, ◌/◌, ◌%◌, ◌^◌, ◌<◌, ◌≡◌, refl, ap, false, List, arith, length,
}
use native.Mathlib.Nat.{mod-eq_of_lt}
use fuguex_core.PCode.Bytes.{ByteOps, le_bytes, le_value}

pub length-le_bytes : (n value : ℕ) → length (le_bytes n value) ≡ n
length-le_bytes zero value = refl
length-le_bytes (suc n) value = ap suc (length-le_bytes n (value / 256))

le_value-le_bytes : (n value : ℕ) → value < 256 ^ n → le_value (le_bytes n value) ≡ value
le_value-le_bytes zero value h = omega arith
le_value-le_bytes (suc n) value h = omega (arith, le_value-le_bytes n (value / 256))

pub le_value-refilled :
    (width value : ℕ) (bs : List ℕ)
    → length bs ≡ width
    → value < 256 ^ width
    → le_value (le_bytes (length bs) value) ≡ value
le_value-refilled width value bs e h = le_value-le_bytes (length bs) value (rw e h)

-- for addresses of eight bytes
instance abbrev pub little : ByteOps
little = record {
  is_big = false;
  from_bytes = λ width bs. le_value bs;
  into_bytes = λ width value bs. le_bytes (length bs) value;
  narrow = λ width value. value % 256 ^ width;
  address_size = λ space. 8;
  from_bytes_lem = λ width bs e. refl;
  length-into_bytes = λ width value bs. length-le_bytes (length bs) value;
  from_bytes-into_bytes = λ width value bs e h. le_value-refilled width value bs e h;
  narrow_lem = λ width value h. mod-eq_of_lt h;
}
