-- ===== src/Flat/Dirty.antt =====
-- `struct Block` and `struct DirtyBacking`: the blocks of 64 values that were written, in the order
-- of their first write, with one bit for each. `none` is the panic of a word index out of bounds.
pub mod Blocks
use fuguex_core.Prelude.{
  ℕ, zero, suc, ◌+◌, ◌-◌, ◌*◌, ◌/◌, ◌%◌, ◌^◌, ◌≡◌, refl, List, [], ◌∷◌, ◌++◌, Option, none, some,
  bit_and, bit_or, ◌==◌, if◌then◌else◌, and_then, get_elem?, set, replicate,
}
use fuguex_core.Address.{AddressOps, u64_limit}

-- `struct Block(u64)`
abbrev pub Block : Type 0
Block = ℕ

abbrev pub block_size : ℕ
block_size = 64

-- `size_of::<Block>()` and `size_of::<u64>()`: bytes, not bits
abbrev pub word_bytes : ℕ
word_bytes = 8

-- `Block::from(address)`
abbrev pub block_of : ℕ → Block
block_of address = address / block_size

abbrev pub block_bit : Block → ℕ
block_bit block = block % word_bytes

abbrev pub block_index : Block → ℕ
block_index block = block / word_bytes

abbrev pub start_address : Block → ℕ
start_address block = block * block_size % u64_limit

abbrev pub end_address : Block → ℕ
end_address block = (block + 1) * block_size % u64_limit

pub record DirtyBacking : Type 0 where
  pub indices : List Block
  pub bitsmap : List ℕ

unfoldable pub new : ℕ → DirtyBacking
new size =
    let backing_size = 1 + size / block_size in
    record { indices = []; bitsmap = replicate (1 + backing_size / word_bytes) 0 }

unfoldable pub fork : DirtyBacking → DirtyBacking
fork d = d

-- `Vec::push` appends at the end.
unfoldable pub dirty : DirtyBacking → Block → Option DirtyBacking
dirty d block =
    let index = block_index block in
    let check = 1 * 2 ^ block_bit block in
    and_then (get_elem? d.bitsmap index) (λ w. some (
      if bit_and w check == 0
      then record {
        indices = d.indices ++ (block ∷ []);
        bitsmap = set d.bitsmap index (bit_or w check);
      }
      else d))

-- the loop `for block in sblock..=eblock`, with `n` rounds left
unfoldable pub dirty_from : DirtyBacking → Block → ℕ → Option DirtyBacking
dirty_from d block zero = some d
dirty_from d block (suc n) = and_then (dirty d block) (λ d'. dirty_from d' (block + 1) n)

module _ ⦃ir : AddressOps⦄ where
  unfoldable pub dirty_region : DirtyBacking → ℕ → ℕ → Option DirtyBacking
  dirty_region d start size =
      let sblock = block_of start in
      let eblock = block_of (ir.add start size) in dirty_from d sblock (eblock + 1 - sblock)
