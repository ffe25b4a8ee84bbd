-- ===== src/Register.antt =====
-- fuguex-state/src/register.rs: a flat state whose ranges are registers. Its `State` and `StateOps`
-- are those of the flat state inside.
pub mod Values
mod Tests
use fuguex_core.Prelude.{
  ℕ, ◌≡◌, Bool, true, false, List, Option, none, some, ◌==◌, if◌then◌else◌, and_then, length,
  Result, ok, err, panic, bind, clone_from_slice, or_panic,
}
use fuguex_core.Address.{AddressOps}
use fuguex_core.Flat.State
use fuguex_core.Flat.State.{FlatState, Error}

-- a register of the fugue crate: where its values lie, and how many they are
pub record Register : Type 0 where
  pub offset : ℕ
  pub size : ℕ

-- for operands `O`
pub data ReturnLocation (O : Type 0) : Type 0 where
  register : O → ReturnLocation O
  relative : O → ℕ → ReturnLocation O

-- The names are a lookup from a name to an offset and a size.
pub record RegisterState (V O N : Type 0) : Type 0 where
  pub program_counter : O
  pub stack_pointer : O
  pub register_names : N → Option (ℕ × ℕ)
  pub return_location : ReturnLocation O
  pub inner : FlatState V

module _ {V O N : Type 0} where
  unfoldable pub fork : RegisterState V O N → RegisterState V O N
  fork s = record s { inner = State.fork s.inner }

  -- `none` is a panic
  unfoldable pub restore : RegisterState V O N → RegisterState V O N → Option (RegisterState V O N)
  restore s other =
      and_then (State.restore s.inner other.inner) (λ inner. some (record s { inner = inner }))

  unfoldable pub len : RegisterState V O N → ℕ
  len s = State.len s.inner

  unfoldable pub register_by_name : RegisterState V O N → N → Option Register
  register_by_name s name =
      and_then (s.register_names name) (λ r. some (record { offset = r.0; size = r.1 }))

  -- the state after a write to the values inside
  abbrev pub with_inner :
      RegisterState V O N → Result Error (FlatState V) → Result Error (RegisterState V O N)
  with_inner s r = bind r (λ inner. ok (record s { inner = inner }))

module _ {V O N : Type 0} ⦃ir : AddressOps⦄ where
  unfoldable pub copy_values : RegisterState V O N → ℕ → ℕ → ℕ → Result Error (RegisterState V O N)
  copy_values s from to size = with_inner s (State.copy_values s.inner from to size)

  unfoldable pub get_values : RegisterState V O N → ℕ → List V → Result Error (List V)
  get_values s address bytes = State.get_values s.inner address bytes

  unfoldable pub view_values : RegisterState V O N → ℕ → ℕ → Result Error (List V)
  view_values s address size = State.view_values s.inner address size

  unfoldable pub view_values_mut :
      RegisterState V O N → ℕ → ℕ → (List V → List V) → Result Error (RegisterState V O N)
  view_values_mut s address size write =
      with_inner s (State.view_values_mut s.inner address size write)

  unfoldable pub set_values : RegisterState V O N → ℕ → List V → Result Error (RegisterState V O N)
  set_values s address bytes = with_inner s (State.set_values s.inner address bytes)

  -- `values.clone_from_slice(view)`, which panics if the lengths differ
  unfoldable pub get_register_values :
      RegisterState V O N → Register → List V → Result Error (List V)
  get_register_values s r values =
      bind (view_values s r.offset r.size)
        (λ view. or_panic (clone_from_slice values 0 (length values) view) (λ filled. ok filled))

  -- `view.clone_from_slice(values)`
  unfoldable pub set_register_values :
      RegisterState V O N → Register → List V → Result Error (RegisterState V O N)
  set_register_values s r values =
      bind (view_values_mut s r.offset r.size (λ view. values))
        (λ s'. if length values == r.size then ok s' else panic)

  -- for a conversion from the values in a register
  unfoldable pub get_register :
      {T : Type 0} → (List V → T) → RegisterState V O N → Register → Result Error T
  get_register from_values s r =
      bind (view_values s r.offset r.size) (λ view. ok (from_values view))

  -- for a conversion into the values of a register, which fills the view that it is given
  unfoldable pub set_register :
      {T : Type 0}
      → (T → List V → List V)
      → RegisterState V O N
      → Register
      → T
      → Result Error (RegisterState V O N)
  set_register into_values s r value = view_values_mut s r.offset r.size (into_values value)

module _ {V O N : Type 0} where
  -- `RegisterState::new`, for what the translator and the convention say
  unfoldable pub new :
      V → O → O → ReturnLocation O → (N → Option (ℕ × ℕ)) → ℕ → ℕ → RegisterState V O N
  new default program_counter stack_pointer return_location names space size = record {
    program_counter = program_counter;
    stack_pointer = stack_pointer;
    register_names = names;
    return_location = return_location;
    inner = State.new default space size;
  }
