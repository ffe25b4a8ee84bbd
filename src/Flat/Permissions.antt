-- ===== src/Flat/Permissions.antt =====
-- `struct Permissions`: two bits for each byte, packed in words of 64 bits. `none` is the panic of
-- a word index out of bounds.
pub mod Bytes
pub mod Regions
pub mod Shapes
use fuguex_core.Prelude.{
  ℕ, zero, suc, ◌+◌, ◌-◌, ◌*◌, ◌/◌, ◌%◌, ◌^◌, ◌≡◌, refl, Bool, true, false, List, [], ◌∷◌, Option,
  none, some, bit_and, bit_or, ◌==◌, if◌then◌else◌, and_then, get_elem?, set, replicate,
}
use fuguex_core.Address.{AddressOps, u64_limit}
use fuguex_core.Flat.Access.{Access, is_read, is_read_write}

pub record Permissions : Type 0 where
  pub bitsmap : List ℕ
  pub space : ℕ

abbrev pub perm_read_off : ℕ
perm_read_off = 1

abbrev pub perm_write_off : ℕ
perm_write_off = 0

abbrev pub perm_read_write_off : ℕ
perm_read_write_off = 0

abbrev pub perm_read_mask : ℕ
perm_read_mask = 0xAAAAAAAAAAAAAAAA

abbrev pub perm_write_mask : ℕ
perm_write_mask = 0x5555555555555555

-- `(size_of::<u64>() << 3) >> 1`
abbrev pub perm_scale : ℕ
perm_scale = 8 * 2 ^ 3 / 2 ^ 1

abbrev pub perm_select : ℕ
perm_select = 1

-- `value << amount` on 64 bits
abbrev pub shl64 : ℕ → ℕ → ℕ
shl64 value amount = value * 2 ^ amount % u64_limit

-- `!value` on 64 bits
abbrev pub not64 : ℕ → ℕ
not64 value = u64_limit - 1 - value

unfoldable pub new_with : ℕ → ℕ → ℕ → Permissions
new_with space size mask = record {
  bitsmap = replicate (1 + size / perm_scale) mask;
  space = space;
}

unfoldable pub new : ℕ → ℕ → Permissions
unfolding new_with
new space size = new_with space size (bit_or perm_read_mask perm_write_mask)

-- `for (t, s) in self.iter_mut().zip(other.iter())`
unfoldable pub zip_copy : List ℕ → List ℕ → List ℕ
zip_copy [] other = []
zip_copy (t ∷ ts) [] = t ∷ ts
zip_copy (t ∷ ts) (s ∷ ss) = s ∷ zip_copy ts ss

unfoldable pub restore : Permissions → Permissions → Permissions
unfolding zip_copy
restore p other = record p { bitsmap = zip_copy p.bitsmap other.bitsmap }

-- the word that holds the two bits of an address, and where in it they stand
abbrev pub word_index : ℕ → ℕ
word_index address = address / perm_scale

abbrev pub bit_offset : ℕ → ℕ
bit_offset address = address % perm_scale * 2 ^ perm_select

abbrev pub check : ℕ → Access → ℕ
check bit access =
    if is_read_write access
    then shl64 0b11 (bit + perm_read_write_off)
    else shl64 1 (if is_read access then bit + perm_read_off else bit + perm_write_off)

unfoldable pub is_marked : Permissions → ℕ → Access → Option Bool
is_marked p address access =
    let mask = check (bit_offset address) access in
    and_then (get_elem? p.bitsmap (word_index address)) (λ w. some (bit_and w mask == mask))

unfoldable pub is_readable : Permissions → ℕ → Option Bool
unfolding is_marked
is_readable p address = is_marked p address Access.read

unfoldable pub is_writable : Permissions → ℕ → Option Bool
unfolding is_marked
is_writable p address = is_marked p address Access.write

unfoldable pub is_readable_and_writable : Permissions → ℕ → Option Bool
unfolding is_marked
is_readable_and_writable p address = is_marked p address Access.read_write

unfoldable pub set_byte : Permissions → ℕ → Access → Option Permissions
set_byte p address access =
    let index = word_index address in
    let mask = check (bit_offset address) access in
    and_then (get_elem? p.bitsmap index)
      (λ w. some (record p { bitsmap = set p.bitsmap index (bit_or w mask) }))

unfoldable pub clear_byte : Permissions → ℕ → Access → Option Permissions
clear_byte p address access =
    let index = word_index address in
    let mask = check (bit_offset address) access in
    and_then (get_elem? p.bitsmap index)
      (λ w. some (record p { bitsmap = set p.bitsmap index (bit_and w (not64 mask)) }))

-- the number of rounds of `for addr in start..(start + size as u64)`, whose sum wraps
abbrev pub rounds : ℕ → ℕ → ℕ
rounds start size = (start + size) % u64_limit - start

module _ ⦃ir : AddressOps⦄ where
  -- the loop of `all_marked`, with `n` rounds left
  unfoldable pub all_marked_from : Permissions → ℕ → ℕ → Access → Option Bool
  all_marked_from p addr zero access = some true
  all_marked_from p addr (suc n) access =
      let rest = all_marked_from p (addr + 1) n access in
      and_then (is_marked p (ir.new p.space addr) access)
        (λ marked. if marked then rest else some false)

  unfoldable pub all_marked : Permissions → ℕ → ℕ → Access → Option Bool
  all_marked p address size access = all_marked_from p address (rounds address size) access

  unfoldable pub all_readable : Permissions → ℕ → ℕ → Option Bool
  unfolding all_marked
  all_readable p address size = all_marked p address size Access.read

  unfoldable pub all_writable : Permissions → ℕ → ℕ → Option Bool
  unfolding all_marked
  all_writable p address size = all_marked p address size Access.write

  unfoldable pub all_readable_and_writable : Permissions → ℕ → ℕ → Option Bool
  unfolding all_marked
  all_readable_and_writable p address size = all_marked p address size Access.read_write

  unfoldable pub clear_from : Permissions → ℕ → ℕ → Access → Option Permissions
  clear_from p addr zero access = some p
  clear_from p addr (suc n) access =
      and_then (clear_byte p (ir.new p.space addr) access) (λ p'. clear_from p' (addr + 1) n access)

  unfoldable pub clear_region : Permissions → ℕ → ℕ → Access → Option Permissions
  clear_region p address size access = clear_from p address (rounds address size) access

  unfoldable pub set_from : Permissions → ℕ → ℕ → Access → Option Permissions
  set_from p addr zero access = some p
  set_from p addr (suc n) access =
      and_then (set_byte p (ir.new p.space addr) access) (λ p'. set_from p' (addr + 1) n access)

  unfoldable pub set_region : Permissions → ℕ → ℕ → Access → Option Permissions
  set_region p address size access = set_from p address (rounds address size) access
