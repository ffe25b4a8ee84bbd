-- ===== src/Register/Tests.antt =====
-- Four values with a register on the second one.
use fuguex_core.Prelude.{ℕ, ◌≡◌, refl, List, [], ◌∷◌, length, Option, none, Result, ok, arith}
use fuguex_core.Address.{AddressOps, wrapping}
use fuguex_core.Flat.Permissions
use fuguex_core.Flat.Dirty
use fuguex_core.Flat.State
use fuguex_core.Flat.State.{Error, FlatState, from_vec}
use fuguex_core.Flat.State.Start.{from_vec-IsValid}
use fuguex_core.Register.{
  Register, RegisterState, register, get_register, set_register, view_values_mut,
}
use fuguex_core.Register.Values.{get_register-set_register}

instance abbrev addresses : AddressOps
addresses = wrapping

abbrev four : List ℕ
four = 10 ∷ 11 ∷ 12 ∷ 13 ∷ []

abbrev with_values : FlatState ℕ → RegisterState ℕ ℕ ℕ
with_values inner = record {
  program_counter = 0;
  stack_pointer = 2;
  register_names = λ n. none;
  return_location = register 3;
  inner = inner;
}

abbrev second : Register
second = record { offset = 1; size = 1 }

-- one value, and the first one
abbrev store : ℕ → List ℕ → List ℕ
store n l = n ∷ []

abbrev fetch : List ℕ → ℕ
fetch [] = 0
fetch (n ∷ l) = n

abbrev stored : RegisterState ℕ ℕ ℕ
stored = with_values (record {
  backing = 10 ∷ 5 ∷ 12 ∷ 13 ∷ [];
  dirty = record { indices = 0 ∷ []; bitsmap = 1 ∷ [] };
  permissions = (from_vec 0 four).permissions;
  space = 0;
})

was_set : set_register store (with_values (from_vec 0 four)) second 5 ≡ ok stored
unfolding set_register view_values_mut from_vec State.view_values_mut
    Permissions.all_readable_and_writable Permissions.all_marked_from Permissions.is_marked
    Permissions.new Dirty.dirty_region Dirty.dirty_from Dirty.dirty Dirty.new
    fuguex_core.Prelude.slice?
was_set = refl

get_register-set_register_example : get_register fetch stored second ≡ ok 5
get_register-set_register_example =
    get_register-set_register store fetch (with_values (from_vec 0 four)) stored second 5
      (from_vec-IsValid 0 four (omega arith) (omega arith)) (λ l e. refl) (λ l e. refl) was_set
