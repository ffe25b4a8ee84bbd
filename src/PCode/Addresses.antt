-- ===== src/PCode/Addresses.antt =====
-- Addresses that are stored in operands, and those of constants.
use fuguex_core.Prelude.{
  ℕ, ◌%◌, ◌^◌, ◌<◌, ◌≡◌, ◌≢◌, ◌⊎◌, refl, ap, ◌∙◌, sym, subst, Bool, true, false, List, some, ◌==◌,
  ==_iff, Result, ok, err, bind, err_ok, arith, length, inl, inr, Bool-cases,
}
use native.Mathlib.Decide.{ℕ_discrete}
use fuguex_core.Address.{AddressOps}
use fuguex_core.Chunked.Heap.{IntervalOps}
use fuguex_core.Paged.IntervalMap.{IntervalMapOps}
use fuguex_core.Paged.Segments.{Segment}
use fuguex_core.PCode.Bytes.{Operand, size, ByteOps, value_of, constant_values}
use fuguex_core.PCode.{
  Error, unsupported_address_size, PCodeState, with_operand_values, with_operand_values_mut,
  get_address, set_address,
}
use fuguex_core.PCode.Operands.{IsValid, with_operand_values-mut}

-- the sizes of pointers
pub data PointerSize (n : ℕ) : Type 0 where
  eight : n ≡ 8 → PointerSize n
  four : n ≡ 4 → PointerSize n
  two : n ≡ 2 → PointerSize n
  one : n ≡ 1 → PointerSize n

PointerSize-cases : (n : ℕ) → PointerSize n ⊎ ((n ≢ 8) × (n ≢ 4) × (n ≢ 2) × (n ≢ 1))
PointerSize-cases n = elim (ℕ_discrete n 8) [
  | yes e ↦ inl (eight e)
  | no h ↦ elim (ℕ_discrete n 4) [
    | yes e ↦ inl (four e)
    | no i ↦ elim (ℕ_discrete n 2) [
      | yes e ↦ inl (two e)
      | no j ↦ elim (ℕ_discrete n 1) [ yes e ↦ inl (one e) | no k ↦ inr (h, i, j, k) ]
    ]
  ]
]

no-PointerSize : (n : ℕ) → n ≢ 8 → n ≢ 4 → n ≢ 2 → n ≢ 1 → ¬ PointerSize n
no-PointerSize n h i j k (eight e) = h e
no-PointerSize n h i j k (four e) = i e
no-PointerSize n h i j k (two e) = j e
no-PointerSize n h i j k (one e) = k e

other-eq : (n k : ℕ) → n ≢ k → (n == k) ≡ false
other-eq n k h = elim (Bool-cases (n == k)) [ inl e ↦ absurd (h ((==_iff n k).0 e)) | inr e ↦ e ]

-- what the bytes of a constant stand for
abbrev Low : Bool → ℕ → ℕ → Type 0
Low big value n =
    (bs : List ℕ) × (constant_values big (λ b. b) value n ≡ some bs)
    × (length bs ≡ n)
    × (value_of big bs ≡ value % 256 ^ n)

eight_bytes : (big : Bool) (value : ℕ) → Low big value 8
unfolding constant_values
eight_bytes true value = (_, refl, refl, omega arith)
eight_bytes false value = (_, refl, refl, omega arith)

four_bytes : (big : Bool) (value : ℕ) → Low big value 4
unfolding constant_values
four_bytes true value = (_, refl, refl, omega arith)
four_bytes false value = (_, refl, refl, omega arith)

two_bytes : (big : Bool) (value : ℕ) → Low big value 2
unfolding constant_values
two_bytes true value = (_, refl, refl, omega arith)
two_bytes false value = (_, refl, refl, omega arith)

one_byte : (big : Bool) (value : ℕ) → Low big value 1
unfolding constant_values
one_byte true value = (_, refl, refl, omega arith)
one_byte false value = (_, refl, refl, omega arith)

constant_bytes : (big : Bool) (value n : ℕ) → PointerSize n → Low big value n
constant_bytes big value n (eight e) = subst (Low big value) (sym e) (eight_bytes big value)
constant_bytes big value n (four e) = subst (Low big value) (sym e) (four_bytes big value)
constant_bytes big value n (two e) = subst (Low big value) (sym e) (two_bytes big value)
constant_bytes big value n (one e) = subst (Low big value) (sym e) (one_byte big value)

module _ {S N M R C : Type 0} ⦃ir : AddressOps⦄ ⦃bytes : ByteOps⦄ (iv : IntervalOps S)
    (im : IntervalMapOps M (Segment ℕ S N)) where
  abbrev read_bytes : PCodeState ℕ M R C → Operand → ℕ → Result Error ℕ
  read_bytes s o width =
      with_operand_values iv im bytes.is_big (λ b. b) s o (bytes.from_bytes width)

  get_address-width :
      (s : PCodeState ℕ M R C) (o : Operand)
      → PointerSize (size o)
      → get_address iv im s o
        ≡ bind (read_bytes s o (size o)) (λ a. ok (ir.new s.memory.inner.space a))
  unfolding get_address
  get_address-width s o (eight e) = rw e refl
  get_address-width s o (four e) = rw e refl
  get_address-width s o (two e) = rw e refl
  get_address-width s o (one e) = rw e refl

  set_address-width :
      (s : PCodeState ℕ M R C) (o : Operand) (a : ℕ)
      → PointerSize (size o)
      → set_address iv im s o a
        ≡ with_operand_values_mut iv im s o (bytes.into_bytes (size o) (bytes.narrow (size o) a))
  unfolding set_address
  set_address-width s o a (eight e) = rw e refl
  set_address-width s o a (four e) = rw e refl
  set_address-width s o a (two e) = rw e refl
  set_address-width s o a (one e) = rw e refl

  -- `get_address` and `set_address` refuse an operand whose size is not that of a pointer of 64,
  -- 32, 16 or 8 bits, with the size in the error.
  pub address-unsupported :
      (s : PCodeState ℕ M R C) (o : Operand) (a : ℕ)
      → ¬ PointerSize (size o)
      → (get_address iv im s o ≡ err (unsupported_address_size (size o)))
        × (set_address iv im s o a ≡ err (unsupported_address_size (size o)))
  unfolding get_address set_address
  address-unsupported s o a h = elim (PointerSize-cases (size o)) [
    | inl p ↦ absurd (h p)
    | inr (n₈, n₄, n₂, n₁) ↦
        let e₈ = other-eq (size o) 8 n₈ in
        let e₄ = other-eq (size o) 4 n₄ in
        let e₂ = other-eq (size o) 2 n₂ in
        let e₁ = other-eq (size o) 1 n₁ in (rw (e₈, e₄, e₂, e₁) refl, rw (e₈, e₄, e₂, e₁) refl)
  ]

  -- On a valid P-code state, an address that `set_address` stored in an operand is what
  -- `get_address` then reads there, if it fits into the operand's bytes and into the memory's
  -- space.
  pub get_address-set_address :
      (s s' : PCodeState ℕ M R C) (o : Operand) (a : ℕ)
      → IsValid iv im s
      → a < 256 ^ size o
      → a < ir.space_limit s'.memory.inner.space
      → set_address iv im s o a ≡ ok s'
      → get_address iv im s' o ≡ ok a
  get_address-set_address s s' o a v fits in_space e = elim (PointerSize-cases (size o)) [
    | inr (n₈, n₄, n₂, n₁) ↦
        absurd
          (err_ok (sym (address-unsupported s o a (no-PointerSize (size o) n₈ n₄ n₂ n₁)).1 ∙ e))
    | inl p ↦
        let n = size o in
        let (old, l, shown) =
          with_operand_values-mut iv im bytes.is_big (λ b. b) s s' o
            (bytes.into_bytes n (bytes.narrow n a)) (bytes.from_bytes n) v
            (λ bs k. bytes.length-into_bytes n (bytes.narrow n a) bs ∙ k)
            (sym (set_address-width s o a p) ∙ e) in
        let number : bytes.from_bytes n (bytes.into_bytes n (bytes.narrow n a) old) ≡ a =
          ap (λ x. bytes.from_bytes n (bytes.into_bytes n x old)) (bytes.narrow_lem n a fits)
          ∙ bytes.from_bytes-into_bytes n a old l fits in
        get_address-width s' o p
        ∙ rw (shown, number) (ap ok (ir.new_lem s'.memory.inner.space a in_space))
  ]

  -- `get_address` of a constant of a pointer's size gives the address of the value's low bytes, in
  -- either byte order.
  pub get_address-constant :
      (s : PCodeState ℕ M R C) (value n : ℕ)
      → PointerSize n
      → get_address iv im s (Operand.constant value n)
        ≡ ok (ir.new s.memory.inner.space (value % 256 ^ n))
  unfolding with_operand_values
  get_address-constant s value n p =
      let (bs, e, l, low) = constant_bytes bytes.is_big value n p in
      let number : bytes.from_bytes n bs ≡ value % 256 ^ n = bytes.from_bytes_lem n bs l ∙ low in
      get_address-width s (Operand.constant value n) p ∙ rw (e, number) refl
