-- ===== src/PCode.antt =====
-- fuguex-state/src/pcode.rs: the memory, the registers and the temporaries of P-code, read and
-- written through operands.
pub mod Bytes
pub mod LittleEndian
pub mod Operands
pub mod Addresses
pub mod Runs
mod Tests
use fuguex_core.Prelude.{
  ℕ, ◌-◌, ◌≡◌, Bool, true, false, List, Option, none, some, ltb, ◌==◌, if◌then◌else◌, and_then,
  or_panic, Result, ok, err, panic, bind, map_err,
}
use fuguex_core.Address.{AddressOps}
use fuguex_core.Flat.State
use fuguex_core.Chunked.Heap.{IntervalOps}
use fuguex_core.Paged.IntervalMap.{IntervalMapOps}
use fuguex_core.Paged.Segments
use fuguex_core.Paged.Segments.{Segment, NameOps}
use fuguex_core.Paged.State as Paging
use fuguex_core.Paged.State.{PagedState}
use fuguex_core.Register
use fuguex_core.Register.{RegisterState, ReturnLocation}
use fuguex_core.Unique
use fuguex_core.Unique.{UniqueState}
use fuguex_core.PCode.Bytes.{
  Operand, size, ByteOps, constant_values, pointer_8_size, pointer_16_size, pointer_32_size,
  pointer_64_size,
}

pub data Error : Type 0 where
  memory : Segments.Error → Error
  register : State.Error → Error
  temporary : State.Error → Error
  unsupported_address_size : ℕ → Error

-- for the names `R` of registers and the calling conventions `C`
pub record PCodeState (V M R C : Type 0) : Type 0 where
  pub memory : PagedState V M
  pub registers : RegisterState V Operand R
  pub temporaries : UniqueState V
  pub convention : C

abbrev pub map_ok : {E A B : Type 0} → (A → B) → Result E A → Result E B
map_ok f r = bind r (λ a. ok (f a))

module _ {V M R C : Type 0} where
  -- `PCodeState::new`, for what `RegisterState::new` and `UniqueState::new` read from the
  -- translator
  unfoldable pub new :
      PagedState V M
      → V
      → (program_counter stack_pointer : Operand) → ReturnLocation Operand
      → (R → Option (ℕ × ℕ))
      → (register_space register_size unique_space unique_size : ℕ) → C
      → PCodeState V M R C
  new m default pc sp location names register_space register_size unique_space unique_size c =
      record {
        memory = m;
        registers = Register.new default pc sp location names register_space register_size;
        temporaries = Unique.new default unique_space unique_size;
        convention = c;
      }

module _ {V S N M R C : Type 0} ⦃ir : AddressOps⦄ (iv : IntervalOps S)
    (im : IntervalMapOps M (Segment V S N)) where
  -- for `O::ENDIAN.is_big()` and `T::from_byte`
  unfoldable pub with_operand_values :
      {U : Type 0} → Bool → (ℕ → V) → PCodeState V M R C → Operand → (List V → U) → Result Error U
  with_operand_values big from_byte s (Operand.address value n) f =
      map_ok f (map_err memory (Paging.view_values iv im s.memory value n))
  with_operand_values big from_byte s (Operand.constant value n) f =
      or_panic (constant_values big from_byte value n) (λ values. ok (f values))
  with_operand_values big from_byte s (Operand.register offset n) f =
      map_ok f (map_err register (Register.view_values s.registers offset n))
  with_operand_values big from_byte s (Operand.variable offset n space) f =
      map_ok f (map_err temporary (Unique.view_values s.temporaries offset n))

  unfoldable pub with_operand_values_mut :
      PCodeState V M R C → Operand → (List V → List V) → Result Error (PCodeState V M R C)
  with_operand_values_mut s (Operand.address value n) f =
      map_ok (λ m. record s { memory = m })
        (map_err memory (Paging.view_values_mut iv im s.memory value n f))
  with_operand_values_mut s (Operand.register offset n) f =
      map_ok (λ r. record s { registers = r })
        (map_err register (Register.view_values_mut s.registers offset n f))
  with_operand_values_mut s (Operand.variable offset n space) f =
      map_ok (λ t. record s { temporaries = t })
        (map_err temporary (Unique.view_values_mut s.temporaries offset n f))
  with_operand_values_mut s (Operand.constant value n) f = panic

  -- for a conversion from values
  unfoldable pub get_operand :
      {T : Type 0} → Bool → (ℕ → V) → (List V → T) → PCodeState V M R C → Operand → Result Error T
  get_operand big from_byte from_values s operand =
      with_operand_values big from_byte s operand from_values

  -- for a conversion into values, which fills the view that it is given
  unfoldable pub set_operand :
      {T : Type 0}
      → (T → List V → List V)
      → PCodeState V M R C
      → Operand
      → T
      → Result Error (PCodeState V M R C)
  set_operand into_values s operand value = with_operand_values_mut s operand (into_values value)

  unfoldable pub view_values_from : PCodeState V M R C → ℕ → Result Error (List V)
  view_values_from s address = map_err memory (Paging.view_values_from iv im s.memory address)

  -- the methods of `StateOps`, which are those of the memory
  unfoldable pub copy_values : PCodeState V M R C → ℕ → ℕ → ℕ → Result Error (PCodeState V M R C)
  copy_values s from to n =
      map_ok (λ m. record s { memory = m })
        (map_err memory (Paging.copy_values iv im s.memory from to n))

  unfoldable pub get_values : PCodeState V M R C → ℕ → List V → Result Error (List V)
  get_values s address values = map_err memory (Paging.get_values iv im s.memory address values)

  unfoldable pub view_values : PCodeState V M R C → ℕ → ℕ → Result Error (List V)
  view_values s address n = map_err memory (Paging.view_values iv im s.memory address n)

  unfoldable pub view_values_mut :
      PCodeState V M R C → ℕ → ℕ → (List V → List V) → Result Error (PCodeState V M R C)
  view_values_mut s address n write =
      map_ok (λ m. record s { memory = m })
        (map_err memory (Paging.view_values_mut iv im s.memory address n write))

  unfoldable pub set_values : PCodeState V M R C → ℕ → List V → Result Error (PCodeState V M R C)
  set_values s address values =
      map_ok (λ m. record s { memory = m })
        (map_err memory (Paging.set_values iv im s.memory address values))

module _ {V S N M R C : Type 0} ⦃ir : AddressOps⦄ (im : IntervalMapOps M (Segment V S N)) where
  unfoldable pub len : PCodeState V M R C → ℕ
  len s = Paging.len im s.memory

  -- `none` is a panic
  unfoldable pub fork : PCodeState V M R C → Option (PCodeState V M R C)
  fork s = and_then (Paging.fork im s.memory) (λ m. some (record s {
    memory = m;
    registers = Register.fork s.registers;
    temporaries = Unique.fork s.temporaries;
  }))

  unfoldable pub restore :
      ⦃names : NameOps N⦄ → PCodeState V M R C → PCodeState V M R C → Option (PCodeState V M R C)
  restore s other = and_then (Register.restore s.registers other.registers) (λ r.
      and_then (Unique.restore s.temporaries other.temporaries) (λ t.
        and_then (Paging.restore im s.memory other.memory)
          (λ m. some (record s { memory = m; registers = r; temporaries = t }))))

-- The methods of a state of bytes.
module _ {S N M R C : Type 0} ⦃ir : AddressOps⦄ ⦃bytes : ByteOps⦄ (iv : IntervalOps S)
    (im : IntervalMapOps M (Segment ℕ S N)) where
  -- The values are also copied into a buffer that nothing reads.
  abbrev read_number : PCodeState ℕ M R C → Operand → ℕ → Result Error ℕ
  read_number s operand width =
      with_operand_values iv im bytes.is_big (λ b. b) s operand (bytes.from_bytes width)

  unfoldable pub get_address : PCodeState ℕ M R C → Operand → Result Error ℕ
  get_address s operand =
      let n = size operand in
      bind
        (if n == pointer_64_size
          then read_number s operand 8
          else if n == pointer_32_size
          then read_number s operand 4
          else if n == pointer_16_size
          then read_number s operand 2
          else if n == pointer_8_size
          then read_number s operand 1
          else err (unsupported_address_size n))
        (λ a. ok (ir.new s.memory.inner.space a))

  abbrev write_number : PCodeState ℕ M R C → Operand → ℕ → ℕ → Result Error (PCodeState ℕ M R C)
  write_number s operand width value =
      with_operand_values_mut iv im s operand (bytes.into_bytes width (bytes.narrow width value))

  unfoldable pub set_address : PCodeState ℕ M R C → Operand → ℕ → Result Error (PCodeState ℕ M R C)
  set_address s operand value =
      let n = size operand in
      if n == pointer_64_size
      then write_number s operand 8 value
      else if n == pointer_32_size
      then write_number s operand 4 value
      else if n == pointer_16_size
      then write_number s operand 2 value
      else if n == pointer_8_size
      then write_number s operand 1 value
      else err (unsupported_address_size n)

  unfoldable pub program_counter_value : PCodeState ℕ M R C → Result Error ℕ
  program_counter_value s = get_address s s.registers.program_counter

  unfoldable pub stack_pointer_value : PCodeState ℕ M R C → Result Error ℕ
  stack_pointer_value s = get_address s s.registers.stack_pointer

  unfoldable pub get_pointer : PCodeState ℕ M R C → ℕ → Result Error ℕ
  get_pointer s address =
      get_address s (Operand.address address (bytes.address_size s.memory.inner.space))

  unfoldable pub set_program_counter_value :
      PCodeState ℕ M R C → ℕ → Result Error (PCodeState ℕ M R C)
  set_program_counter_value s value = set_address s s.registers.program_counter value

  unfoldable pub set_stack_pointer_value :
      PCodeState ℕ M R C → ℕ → Result Error (PCodeState ℕ M R C)
  set_stack_pointer_value s value = set_address s s.registers.stack_pointer value
