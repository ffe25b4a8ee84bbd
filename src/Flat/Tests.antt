-- ===== src/Flat/Tests.antt =====
-- The flat state on concrete values: the theorems applied, and runs of its operations.
use fuguex_core.Prelude.{
  ℕ, ◌+◌, ◌/◌, ◌≤◌, ◌<◌, ◌≡◌, ◌≢◌, ◌↔◌, refl, Bool, true, false, ◌&&◌, ◌||◌, List, [], ◌∷◌, length,
  slice, splice, Option, none, some, inr, leb, and_then, ◌==◌, if◌then◌else◌, Result, ok, err,
  panic, arith,
}
use fuguex_core.Address.{AddressOps, wrapping}
use fuguex_core.Flat.Access.{Access}
use fuguex_core.Flat.Permissions
use fuguex_core.Flat.Permissions.{Permissions, all_marked, perm_read_mask}
use fuguex_core.Flat.Permissions.Regions.{AllAllowed}
use fuguex_core.Flat.Dirty
use fuguex_core.Flat.Dirty.{DirtyBacking, dirty_region}
use fuguex_core.Flat.State.{
  FlatState, Error, oob_read, oob_write, from_vec, new, read_only, len, fork, restore, copy_values,
  get_values, view_values, view_values_mut, set_values,
}
use fuguex_core.Flat.State.Valid.{IsValid}
use fuguex_core.Flat.State.Copy.{CopyOutcome, copy_values-panics, copy_values-CopyOutcome}
use fuguex_core.Flat.State.Start.{rights-new, from_vec-IsValid}
use fuguex_core.Flat.State.Runs.{Op, run, restore-run-fork}

instance abbrev addresses : AddressOps
addresses = wrapping

abbrev four : List ℕ
four = 10 ∷ 11 ∷ 12 ∷ 13 ∷ []

abbrev start : FlatState ℕ
start = from_vec 0 four

start-IsValid : IsValid start
start-IsValid = from_vec-IsValid 0 four (omega arith) (omega arith)

-- every access is allowed inside the values of `start`
all_allowed : (access : Access) (a n : ℕ) → a + n ≤ 4 → AllAllowed start.permissions access a n
unfolding from_vec
all_allowed Access.read a n h b k l = rw (rights-new 0 4 b (omega arith)) refl
all_allowed Access.write a n h b k l = rw (rights-new 0 4 b (omega arith)) refl
all_allowed Access.read_write a n h b k l = rw (rights-new 0 4 b (omega arith)) refl

copy_values-panics_example : copy_values start 0 1 1 ≡ panic
unfolding from_vec
copy_values-panics_example =
    copy_values-panics start 0 1 1 start-IsValid (omega arith) (omega arith)
      (all_allowed Access.read 0 1 (omega arith)) (all_allowed Access.write 1 1 (omega arith))
      (omega arith) (ground arith)

copy_values-CopyOutcome_example : CopyOutcome start 0 1 1 (copy_values start 0 1 1)
copy_values-CopyOutcome_example = copy_values-CopyOutcome start 0 1 1 start-IsValid

-- two values written to the fork, and one copied
abbrev calls : List (Op ℕ)
calls = Op.set_values 1 (5 ∷ 6 ∷ []) ∷ Op.copy_values 0 1 2 ∷ []

abbrev dirtied : Permissions → FlatState ℕ
dirtied p = record {
  backing = 10 ∷ 10 ∷ 5 ∷ 13 ∷ [];
  dirty = record { indices = 0 ∷ []; bitsmap = 1 ∷ [] };
  permissions = p;
  space = 0;
}

calls_done : run (fork start) calls ≡ some (dirtied start.permissions)
unfolding run fork from_vec set_values Permissions.all_writable Permissions.all_marked_from
    Permissions.is_marked Permissions.new fuguex_core.Prelude.clone_from_slice dirty_region
    Dirty.dirty_from Dirty.dirty Dirty.new copy_values Permissions.all_readable
    fuguex_core.Flat.State.move_values fuguex_core.Flat.State.copy_down
calls_done = refl

restore-run-fork_example : restore (dirtied start.permissions) start ≡ some start
restore-run-fork_example = restore-run-fork start calls start-IsValid (tt, (tt, tt)) calls_done
