-- ===== src/Flat/State.antt =====
-- `struct FlatState` with its constructors and the methods of `State` and `StateOps`.
pub mod Valid
pub mod Moves
pub mod Copy
pub mod Restore
pub mod Runs
pub mod Reads
pub mod Start
use fuguex_core.Prelude.{
  ℕ, zero, suc, ◌+◌, ◌-◌, ◌*◌, ◌/◌, ◌%◌, ◌≡◌, refl, Bool, true, false, ◌||◌, List, [], ◌∷◌, min,
  Option, none, some, ltb, leb, ◌==◌, if◌then◌else◌, and_then, or_panic, Result, ok, err, panic,
  length, get_elem?, set, drop, replicate, slice, slice?, splice, clone_from_slice,
}
use fuguex_core.Address.{AddressOps, u64_limit}
use fuguex_core.Flat.Access.{Access}
use fuguex_core.Flat.Permissions
use fuguex_core.Flat.Permissions.{
  Permissions, perm_read_mask, all_readable, all_writable, all_readable_and_writable,
}
use fuguex_core.Flat.Dirty
use fuguex_core.Flat.Dirty.{
  DirtyBacking, Block, block_index, start_address, end_address, dirty_region,
}

-- An access violation names its address in the space of the given index.
pub data Error : Type 0 where
  access_violation : (space address size : ℕ) → Access → Error
  oob_read : (address size : ℕ) → Error
  oob_write : (address size : ℕ) → Error

pub record FlatState (V : Type 0) : Type 0 where
  pub backing : List V
  pub dirty : DirtyBacking
  pub permissions : Permissions
  pub space : ℕ

-- `checked_add` on `usize`
abbrev pub checked_add : ℕ → ℕ → Option ℕ
checked_add a b = if ltb (a + b) u64_limit then some (a + b) else none

abbrev pub exceeds : Option ℕ → ℕ → Bool
exceeds none limit = true
exceeds (some end) limit = ltb limit end

-- `start > self.len() || end.is_none() || end.unwrap() > self.len()`
abbrev pub out_of_bounds : ℕ → ℕ → ℕ → Bool
out_of_bounds len start size = ltb len start || exceeds (checked_add start size) len

module _ {V : Type 0} where
  module _ (default : V) where
    unfoldable pub new : ℕ → ℕ → FlatState V
    new space size = record {
      backing = replicate size default;
      dirty = Dirty.new size;
      permissions = Permissions.new space size;
      space = space;
    }

    unfoldable pub read_only : ℕ → ℕ → FlatState V
    read_only space size = record {
      backing = replicate size default;
      dirty = Dirty.new size;
      permissions = Permissions.new_with space size perm_read_mask;
      space = space;
    }

  unfoldable pub from_vec : ℕ → List V → FlatState V
  from_vec space values = record {
    backing = values;
    dirty = Dirty.new (length values);
    permissions = Permissions.new space (length values);
    space = space;
  }

  abbrev pub len : FlatState V → ℕ
  len s = length s.backing

  unfoldable pub fork : FlatState V → FlatState V
  unfolding Dirty.fork
  fork s = record s { dirty = Dirty.fork s.dirty }

  -- the loop of `restore` over the drained blocks
  unfoldable pub restore_blocks : List Block → List ℕ → List V → List V → Option (List V)
  restore_blocks [] bitsmap backing other = some backing
  restore_blocks (block ∷ blocks) bitsmap backing other =
      let start = start_address block in
      let real_end = min (length backing) (end_address block) in
      and_then (get_elem? bitsmap (block_index block)) (λ w.
        and_then (slice? other start real_end) (λ values.
          and_then (clone_from_slice backing start real_end values)
            (λ backing'. restore_blocks blocks (set bitsmap (block_index block) 0) backing' other)))

  -- `none` is a panic
  unfoldable pub restore : FlatState V → FlatState V → Option (FlatState V)
  restore s other =
      and_then (restore_blocks s.dirty.indices s.dirty.bitsmap s.backing other.backing) (λ backing.
        some (record {
          backing = backing;
          dirty = other.dirty;
          permissions = Permissions.restore s.permissions other.permissions;
          space = s.space;
        }))

  -- One round of the copying loops. The accesses go through raw pointers; a read out of bounds,
  -- which `copy_values` rules out by its checks, is left without effect here.
  abbrev pub copy_one : List V → ℕ → ℕ → ℕ → List V
  copy_one backing soff doff i = elim (get_elem? backing (soff + i)) [
    | none ↦ backing
    | some v ↦ set backing (doff + i) v
  ]

  -- `for i in 0..size`, from round `i` with `n` rounds left
  unfoldable pub copy_up : List V → ℕ → ℕ → ℕ → ℕ → List V
  copy_up backing soff doff i zero = backing
  copy_up backing soff doff i (suc n) = copy_up (copy_one backing soff doff i) soff doff (i + 1) n

  -- `for i in (0..size).rev()`
  unfoldable pub copy_down : List V → ℕ → ℕ → ℕ → List V
  copy_down backing soff doff zero = backing
  copy_down backing soff doff (suc n) = copy_down (copy_one backing soff doff n) soff doff n

  -- The branches of `copy_values` on how the two ranges lie. `split_at_mut` gives the halves before
  -- and from its index on.
  unfoldable pub move_values : List V → ℕ → ℕ → ℕ → Option (List V)
  move_values backing soff doff size =
      if leb (soff + size) doff
      then and_then (slice? backing soff (soff + size))
          (λ source. clone_from_slice backing doff (length backing) source)
      else if leb (doff + size) soff
      then clone_from_slice backing doff (doff + size) (drop soff backing)
      else if ltb doff soff
      then some (copy_up backing soff doff 0 size)
      else some (copy_down backing soff doff size)

module _ {V : Type 0} ⦃ir : AddressOps⦄ where
  unfoldable pub copy_values : FlatState V → ℕ → ℕ → ℕ → Result Error (FlatState V)
  copy_values s from to size =
      if out_of_bounds (len s) from size
      then err (oob_read from size)
      else or_panic (all_readable s.permissions from size) (λ readable.
        if readable
        then if out_of_bounds (len s) to size
          then err (oob_write to size)
          else or_panic (all_writable s.permissions to size) (λ writable.
            if writable
            then if to == from
              then ok s
              else or_panic (move_values s.backing from to size) (λ backing.
                or_panic (dirty_region s.dirty to size)
                  (λ dirty. ok (record s { backing = backing; dirty = dirty })))
            else err (access_violation s.space to size Access.write))
        else err (access_violation s.space from size Access.read))

  -- `view_values`; `get_values` copies the same slice into a buffer of `size` values.
  unfoldable pub view_values : FlatState V → ℕ → ℕ → Result Error (List V)
  view_values s start size =
      if out_of_bounds (len s) start size
      then err (oob_read start size)
      else or_panic (all_readable s.permissions start size) (λ readable.
        if readable
        then or_panic (slice? s.backing start (start + size)) (λ values. ok values)
        else err (access_violation s.space start size Access.read))

  unfoldable pub get_values : FlatState V → ℕ → List V → Result Error (List V)
  get_values s start values =
      let size = length values in
      if out_of_bounds (len s) start size
      then err (oob_read start size)
      else or_panic (all_readable s.permissions start size) (λ readable.
        if readable
        then or_panic (slice? s.backing start (start + size)) (λ source.
          or_panic (clone_from_slice values 0 (length values) source) (λ filled. ok filled))
        else err (access_violation s.space start size Access.read))

  -- The mutable slice is given to `write`, which returns what the borrower leaves in it: as many
  -- values as it was given.
  unfoldable pub view_values_mut :
      FlatState V → ℕ → ℕ → (List V → List V) → Result Error (FlatState V)
  view_values_mut s start size write =
      if out_of_bounds (len s) start size
      then err (oob_read start size)
      else or_panic (all_readable_and_writable s.permissions start size) (λ permitted.
        if permitted
        then or_panic (dirty_region s.dirty start size) (λ dirty.
          or_panic (slice? s.backing start (start + size)) (λ values.
            ok (record s { backing = splice s.backing start (write values); dirty = dirty })))
        else err (access_violation s.space start size Access.read_write))

  unfoldable pub set_values : FlatState V → ℕ → List V → Result Error (FlatState V)
  set_values s start values =
      let size = length values in
      if out_of_bounds (len s) start size
      then err (oob_write start size)
      else or_panic (all_writable s.permissions start size) (λ writable.
        if writable
        then or_panic (clone_from_slice s.backing start (start + size) values) (λ backing.
          or_panic (dirty_region s.dirty start size)
            (λ dirty. ok (record s { backing = backing; dirty = dirty })))
        else err (access_violation s.space start size Access.write))
