-- ===== src/Flat/State/Start.antt =====
-- The constructors of `FlatState`, with the permissions that they begin with.
use fuguex_core.Prelude.{
  if◌then◌else◌, ℕ, zero, suc, ◌+◌, ◌*◌, ◌/◌, ◌%◌, ◌≤◌, ◌<◌, ◌≡◌, refl, ap, Bool, true, false, ◌&&◌,
  List, some, ◌==◌, length, get_elem?, replicate, length-replicate, arith, bit_or,
}
use fuguex_core.Prelude.Bits.{bit}
use native.Mathlib.Decide.{ℕ_discrete}
use fuguex_core.Address.{AddressOps}
use fuguex_core.Flat.Permissions
use fuguex_core.Flat.Permissions.{Permissions, perm_read_mask, perm_write_mask}
use fuguex_core.Flat.Permissions.Bytes.{rights_in, rights}
use fuguex_core.Flat.Permissions.Regions.{new_with-Covers}
use fuguex_core.Flat.Dirty
use fuguex_core.Flat.Dirty.Blocks.{new-IsValid}
use fuguex_core.Flat.State.{new, read_only, from_vec}
use fuguex_core.Flat.State.Valid.{IsValid, max_len}

get_elem?-replicate {ℓ} :
    {A : Type ℓ} (n i : ℕ) (a : A) → i < n → get_elem? (replicate n a) i ≡ some a
get_elem?-replicate zero i a h = elim h [ ]
get_elem?-replicate (suc n) zero a h = refl
get_elem?-replicate (suc n) (suc i) a h = get_elem?-replicate n i a (omega arith)

-- a test at `count` numbers from `first` on
scan : (test : ℕ → Bool) (first count : ℕ) → Bool
scan test first zero = true
scan test first (suc count) = if test first then scan test (first + 1) count else false

scan-true :
    (test : ℕ → Bool) (first count k : ℕ)
    → scan test first count ≡ true
    → first ≤ k
    → k < first + count
    → test k ≡ true
unfolding scan
scan-true test first zero k passed low high = absurd (omega arith)
scan-true test first (suc count) k passed low high = elim (ℕ_discrete first k) [
  | yes here ↦ ground (arith, ap test here)
  | no apart ↦ ground (arith, scan-true test (first + 1) count k)
]

both_bits : ℕ → Bool
both_bits i =
    bit (bit_or perm_read_mask perm_write_mask) (i * 2 + 1) == 1
    && bit (bit_or perm_read_mask perm_write_mask) (i * 2) == 1

read_bits : ℕ → Bool
read_bits i = bit perm_read_mask (i * 2 + 1) == 1 && bit perm_read_mask (i * 2) == 0

both_table : scan both_bits 0 32 ≡ true
unfolding scan both_bits
both_table = refl

read_table : scan read_bits 0 32 ≡ true
unfolding scan read_bits
read_table = refl

both_mask :
    (i : ℕ)
    → i < 32
    → rights_in (bit_or perm_read_mask perm_write_mask) i
      ≡ record { readable = true; writable = true }
unfolding both_bits
both_mask i h = ground (arith, scan-true both_bits 0 32 i both_table (omega arith) h)

read_mask :
    (i : ℕ) → i < 32 → rights_in perm_read_mask i ≡ record { readable = true; writable = false }
unfolding read_bits
read_mask i h = ground (arith, scan-true read_bits 0 32 i read_table (omega arith) h)

-- A new map of permissions allows reads and writes at every address up to its size.
pub rights-new :
    (space size a : ℕ)
    → a ≤ size
    → rights (Permissions.new space size) a ≡ some (record { readable = true; writable = true })
unfolding Permissions.new Permissions.new_with
rights-new space size a h =
    rw
      (get_elem?-replicate (1 + size / 32) (a / 32) (bit_or perm_read_mask perm_write_mask)
        (omega arith))
      (ap some (both_mask (a % 32) (omega arith)))

-- A map of permissions that is built from the read mask allows reads and no writes at every
-- address up to its size.
pub rights-read_only :
    (space size a : ℕ)
    → a ≤ size
    → rights (Permissions.new_with space size perm_read_mask) a
      ≡ some (record { readable = true; writable = false })
unfolding Permissions.new_with
rights-read_only space size a h =
    rw (get_elem?-replicate (1 + size / 32) (a / 32) perm_read_mask (omega arith))
      (ap some (read_mask (a % 32) (omega arith)))

module _ {V : Type 0} ⦃ir : AddressOps⦄ where
  fresh-IsValid :
      (space mask : ℕ) (values : List V)
      → length values ≤ max_len
      → length values < ir.space_limit space
      → IsValid (record {
        backing = values;
        dirty = Dirty.new (length values);
        permissions = Permissions.new_with space (length values) mask;
        space = space;
      })
  unfolding Dirty.new
  fresh-IsValid space mask values h k = record {
    covers = new_with-Covers space (length values) mask k (omega arith);
    agrees = new-IsValid (length values);
    words = omega (arith, length-replicate {A = ℕ} (1 + (1 + length values / 64) / 8) 0);
    blocks = λ b d. cc;
    vec = h;
  }

  -- `FlatState::from_vec` of no more values than a `Vec` holds, fewer than the space has
  -- addresses, is valid.
  pub from_vec-IsValid :
      (space : ℕ) (values : List V)
      → length values ≤ max_len
      → length values < ir.space_limit space
      → IsValid (from_vec space values)
  unfolding from_vec Permissions.new
  from_vec-IsValid space values h k = fresh-IsValid space _ values h k

  pub new-IsValid_lem :
      (default : V) (space size : ℕ)
      → size ≤ max_len
      → size < ir.space_limit space
      → IsValid (new default space size)
  unfolding new Permissions.new
  new-IsValid_lem default space size h k =
      let l = length-replicate size default in
      rw l at (
        fresh-IsValid space (bit_or perm_read_mask perm_write_mask) (replicate size default)
          (rw l h) (rw l k))

  pub read_only-IsValid :
      (default : V) (space size : ℕ)
      → size ≤ max_len
      → size < ir.space_limit space
      → IsValid (read_only default space size)
  unfolding read_only
  read_only-IsValid default space size h k =
      let l = length-replicate size default in
      rw l at (fresh-IsValid space perm_read_mask (replicate size default) (rw l h) (rw l k))
