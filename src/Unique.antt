-- ===== src/Unique.antt =====
-- fuguex-state/src/unique.rs: the temporaries, a flat state whose methods are called through.
use fuguex_core.Prelude.{ℕ, List, Option, some, and_then, Result, ok, bind}
use fuguex_core.Address.{AddressOps}
use fuguex_core.Flat.State
use fuguex_core.Flat.State.{FlatState, Error}

pub record UniqueState (V : Type 0) : Type 0 where
  pub inner : FlatState V

module _ {V : Type 0} where
  -- `UniqueState::new`, for the space and the size that the translator gives
  unfoldable pub new : V → ℕ → ℕ → UniqueState V
  new default space size = record { inner = State.new default space size }

  unfoldable pub fork : UniqueState V → UniqueState V
  fork s = record { inner = State.fork s.inner }

  -- `none` is a panic
  unfoldable pub restore : UniqueState V → UniqueState V → Option (UniqueState V)
  restore s other =
      and_then (State.restore s.inner other.inner) (λ inner. some (record { inner = inner }))

  unfoldable pub len : UniqueState V → ℕ
  len s = State.len s.inner

  abbrev pub with_inner : Result Error (FlatState V) → Result Error (UniqueState V)
  with_inner r = bind r (λ inner. ok (record { inner = inner }))

module _ {V : Type 0} ⦃ir : AddressOps⦄ where
  unfoldable pub copy_values : UniqueState V → ℕ → ℕ → ℕ → Result Error (UniqueState V)
  copy_values s from to size = with_inner (State.copy_values s.inner from to size)

  unfoldable pub get_values : UniqueState V → ℕ → List V → Result Error (List V)
  get_values s address bytes = State.get_values s.inner address bytes

  unfoldable pub view_values : UniqueState V → ℕ → ℕ → Result Error (List V)
  view_values s address size = State.view_values s.inner address size

  unfoldable pub view_values_mut :
      UniqueState V → ℕ → ℕ → (List V → List V) → Result Error (UniqueState V)
  view_values_mut s address size write =
      with_inner (State.view_values_mut s.inner address size write)

  unfoldable pub set_values : UniqueState V → ℕ → List V → Result Error (UniqueState V)
  set_values s address bytes = with_inner (State.set_values s.inner address bytes)
