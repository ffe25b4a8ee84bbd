-- ===== src/Concrete/Offsets.antt =====
-- The offsets that `load` and `store` compute.
use fuguex_core.Prelude.{ℕ, ◌*◌, ◌%◌, ◌^◌, ◌≡◌, ◌⊎◌, inl, inr, subst, sym, arith}
use fuguex_core.Prelude.Bits.{bit_and_ones}
use fuguex_core.Address.{u64_limit}
use fuguex_core.Concrete.Operations.{addr_val}

-- For a space whose addresses have one, two, four or eight bytes, the offset that `load` and
-- `store` compute is the product of the pointer's value and the word size, as far as it fits into
-- an address of the space.
pub addr_val_lem :
    (offset size word_size : ℕ)
    → (size ≡ 1) ⊎ (size ≡ 2) ⊎ (size ≡ 4) ⊎ (size ≡ 8)
    → addr_val offset size word_size ≡ (offset * word_size) % 256 ^ size
unfolding addr_val
addr_val_lem offset size word_size (inl e) =
    subst (λ n. addr_val offset n word_size ≡ (offset * word_size) % 256 ^ n) (sym e)
      (omega (arith, bit_and_ones ((offset * word_size) % u64_limit) 8))
addr_val_lem offset size word_size (inr (inl e)) =
    subst (λ n. addr_val offset n word_size ≡ (offset * word_size) % 256 ^ n) (sym e)
      (omega (arith, bit_and_ones ((offset * word_size) % u64_limit) 16))
addr_val_lem offset size word_size (inr (inr (inl e))) =
    subst (λ n. addr_val offset n word_size ≡ (offset * word_size) % 256 ^ n) (sym e)
      (omega (arith, bit_and_ones ((offset * word_size) % u64_limit) 32))
addr_val_lem offset size word_size (inr (inr (inr e))) =
    subst (λ n. addr_val offset n word_size ≡ (offset * word_size) % 256 ^ n) (sym e)
      (omega (arith, bit_and_ones ((offset * word_size) % u64_limit) 64))
