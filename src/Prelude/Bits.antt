-- ===== src/Prelude/Bits.antt =====
-- The bits of a number, and what `&`, `|`, `!` and a shifted mask do to each of them.
use Prim.Native.Nat.{
  ℕ, zero, suc, ◌+◌, ◌-◌, ◌*◌, ◌/◌, ◌%◌, ◌^◌, ◌≤◌, ◌<◌, min, max, bit_and, bit_or, digits,
  bit_and-bitwise, bit_or-bitwise,
}
use mathlib.Core.Path.{◌≡◌, refl, sym, ap, ◌∙◌}
use native.Mathlib.Omega.{arith}
use native.Mathlib.Nat.{
  pow-suc, one-le-pow, div-add-mod, mod-lt, mod-eq_of_lt, mul-add-mod_self_left, mul_assoc,
}
use fuguex_core.Prelude.Tests.{◌==◌, if◌then◌else◌}

-- The digit recursion behind `&` and `|` needs only as much fuel as its first number.
module _ (rest : ℕ → ℕ) (op : ℕ → ℕ → ℕ) where
  digits_extra : (n a b k : ℕ) → a ≤ n → digits rest op (n + k) a b ≡ digits rest op n a b
  digits_extra zero zero b zero h = refl
  digits_extra zero zero b (suc k) h = let e : 0 + suc k ≡ suc k = omega arith in rw e refl
  digits_extra zero (suc a) b k h = elim h [ ]
  digits_extra (suc n) zero b k h = let e : suc n + k ≡ suc (n + k) = omega arith in rw e refl
  digits_extra (suc n) (suc a) b k h =
      let e : suc n + k ≡ suc (n + k) = omega arith in
      rw (e, digits_extra n (suc a / 2) (b / 2) k (omega arith))

  digits_less : (n a b : ℕ) → a ≤ n → digits rest op n a b ≡ digits rest op a a b
  digits_less n a b h =
      let e : n ≡ a + (n - a) = omega arith in rw e (digits_extra a a b (n - a) (omega arith))

pub bit_and_low : (a b : ℕ) → bit_and a b ≡ bit_and (a / 2) (b / 2) * 2 + min (a % 2) (b % 2)
bit_and_low zero b = omega (arith, bit_and-bitwise 0 b, bit_and-bitwise 0 (b / 2))
bit_and_low (suc a) b = omega (
  arith,
  bit_and-bitwise (suc a) b,
  bit_and-bitwise (suc a / 2) (b / 2),
  digits_less (λ y. 0) min a (suc a / 2) (b / 2) (omega arith),
)

pub bit_or_low : (a b : ℕ) → bit_or a b ≡ bit_or (a / 2) (b / 2) * 2 + max (a % 2) (b % 2)
bit_or_low zero b = omega (arith, bit_or-bitwise 0 b, bit_or-bitwise 0 (b / 2))
bit_or_low (suc a) b = omega (
  arith,
  bit_or-bitwise (suc a) b,
  bit_or-bitwise (suc a / 2) (b / 2),
  digits_less (λ y. y) max a (suc a / 2) (b / 2) (omega arith),
)

-- Bit `k` of `w`, as 0 or 1.
abbrev pub bit : ℕ → ℕ → ℕ
bit w zero = w % 2
bit w (suc k) = bit (w / 2) k

pub bit_le : (w k : ℕ) → bit w k ≤ 1
bit_le w zero = omega arith
bit_le w (suc k) = bit_le (w / 2) k

pub bit-zero : (k : ℕ) → bit 0 k ≡ 0
bit-zero zero = refl
bit-zero (suc k) = bit-zero k

pub bit-bit_and : (a b k : ℕ) → bit (bit_and a b) k ≡ min (bit a k) (bit b k)
bit-bit_and a b zero = omega (arith, bit_and_low a b)
bit-bit_and a b (suc k) =
    ap (λ w. bit w k) (omega (arith, bit_and_low a b)) ∙ bit-bit_and (a / 2) (b / 2) k

pub bit-bit_or : (a b k : ℕ) → bit (bit_or a b) k ≡ max (bit a k) (bit b k)
bit-bit_or a b zero = omega (arith, bit_or_low a b)
bit-bit_or a b (suc k) =
    ap (λ w. bit w k) (omega (arith, bit_or_low a b)) ∙ bit-bit_or (a / 2) (b / 2) k

bit_and-zero : (n a : ℕ) → a ≤ n → bit_and a 0 ≡ 0
bit_and-zero n zero h = refl
bit_and-zero zero (suc a) h = elim h [ ]
bit_and-zero (suc n) (suc a) h =
    omega (arith, bit_and_low (suc a) 0, bit_and-zero n (suc a / 2) (omega arith))

half_shift : (m k : ℕ) → m * 2 ^ suc k ≡ 2 * (m * 2 ^ k)
half_shift m k = omega (arith, ap (λ (t : ℕ). m * t) (pow-suc 2 k))

-- `w & (1 << k)` keeps bit `k` where it stands.
pub bit_and-one_shift : (w k : ℕ) → bit_and w (1 * 2 ^ k) ≡ bit w k * 2 ^ k
bit_and-one_shift w zero =
    omega (arith, bit_and_low w 1, bit_and-zero (w / 2) (w / 2) (omega arith))
bit_and-one_shift w (suc k) =
    let half : 1 * 2 ^ suc k / 2 ≡ 1 * 2 ^ k = omega (arith, half_shift 1 k) in
    omega (
      arith,
      bit_and_low w (1 * 2 ^ suc k),
      ap (bit_and (w / 2)) half,
      half_shift 1 k,
      half_shift (bit (w / 2) k) k,
      bit_and-one_shift (w / 2) k,
    )

-- `w & (0b11 << k)` keeps the bits `k` and `k + 1`.
pub bit_and-three_shift :
    (w k : ℕ) → bit_and w (3 * 2 ^ k) ≡ bit w k * 2 ^ k + bit w (suc k) * 2 ^ suc k
bit_and-three_shift w zero = omega (
  arith,
  bit_and_low w 3,
  bit_and_low (w / 2) 1,
  bit_and-zero (w / 2 / 2) (w / 2 / 2) (omega arith),
)
bit_and-three_shift w (suc k) =
    let half : 3 * 2 ^ suc k / 2 ≡ 3 * 2 ^ k = omega (arith, half_shift 3 k) in
    omega (
      arith,
      bit_and_low w (3 * 2 ^ suc k),
      ap (bit_and (w / 2)) half,
      half_shift 3 k,
      half_shift (bit (w / 2) k) k,
      half_shift (bit (w / 2) (suc k)) (suc k),
      bit_and-three_shift (w / 2) k,
    )

pub bit-one_shift : (j k : ℕ) → bit (1 * 2 ^ j) k ≡ (if k == j then 1 else 0)
bit-one_shift zero zero = refl
bit-one_shift zero (suc k) = bit-zero k ∙ ground arith
bit-one_shift (suc j) zero = ground (arith, half_shift 1 j)
bit-one_shift (suc j) (suc k) =
    ap (λ w. bit w k) (omega (arith, half_shift 1 j)) ∙ bit-one_shift j k ∙ ground arith

pub bit-three_shift :
    (j k : ℕ) → bit (3 * 2 ^ j) k ≡ (if k == j then 1 else if k == suc j then 1 else 0)
bit-three_shift zero zero = refl
bit-three_shift zero (suc zero) = refl
bit-three_shift zero (suc (suc k)) = bit-zero k ∙ ground arith
bit-three_shift (suc j) zero = ground (arith, half_shift 3 j)
bit-three_shift (suc j) (suc k) =
    ap (λ w. bit w k) (omega (arith, half_shift 3 j)) ∙ bit-three_shift j k ∙ ground arith

-- `!c` on `n` bits.
pub bit-not : (n c k : ℕ) → c < 2 ^ n → k < n → bit (2 ^ n - 1 - c) k ≡ 1 - bit c k
bit-not zero c k h p = elim p [ ]
bit-not (suc n) c zero h p = omega (arith, half_shift 1 n)
bit-not (suc n) c (suc k) h p =
    ap (λ w. bit w k) (omega (arith, half_shift 1 n))
    ∙ bit-not n (c / 2) k (omega (arith, half_shift 1 n)) (omega arith)

pub pow_mono : (a b : ℕ) → a ≤ b → 2 ^ a ≤ 2 ^ b
pow_mono zero b h = one-le-pow b 2 (omega arith)
pow_mono (suc a) zero h = elim h [ ]
pow_mono (suc a) (suc b) h =
    omega (arith, half_shift 1 a, half_shift 1 b, pow_mono a b (omega arith))

-- A mask of `k` ones keeps the lowest `k` digits.
pub bit_and_ones : (a k : ℕ) → bit_and a (2 ^ k - 1) ≡ a % 2 ^ k
bit_and_ones a zero = omega (arith, bit_and-zero a a (omega arith))
bit_and_ones a (suc k) =
    let p = 2 ^ k in
    let next : 2 ^ suc k ≡ 2 * p = omega (arith, pow-suc 2 k) in
    let some_bit : 1 ≤ p = pow_mono 0 k (omega arith) in
    let half : (2 ^ suc k - 1) / 2 ≡ p - 1 = omega arith in
    let q = a / 2 / p in
    let low = a / 2 % p * 2 + a % 2 in
    let split : a ≡ 2 * p * q + low = omega (arith, div-add-mod (a / 2) p, mul_assoc 2 p q) in
    let fits : low < 2 ^ suc k = omega (arith, mod-lt (a / 2) some_bit) in
    let digits : a % 2 ^ suc k ≡ low =
      ap (λ n. n % 2 ^ suc k) (split ∙ ap (λ n. n * q + low) (sym next))
      ∙ mul-add-mod_self_left (2 ^ suc k) q low
      ∙ mod-eq_of_lt fits in
    omega (arith, bit_and_low a (2 ^ suc k - 1), ap (bit_and (a / 2)) half, bit_and_ones (a / 2) k)
