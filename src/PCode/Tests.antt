-- ===== src/PCode/Tests.antt =====
-- A memory of one mapping, four registers and four temporaries, of bytes in either order: the
-- theorems applied.
use fuguex_core.Prelude.{
  ℕ, zero, suc, ◌+◌, ◌*◌, ◌/◌, ◌%◌, ◌^◌, ◌<◌, ◌≡◌, refl, ap, ◌∙◌, Bool, true, false, List, [], ◌∷◌,
  Option, none, some, ok, err, ◌==◌, ==_iff, and_then, arith, length,
}
use fuguex_core.Address.{AddressOps, wrapping}
use fuguex_core.Flat.Permissions
use fuguex_core.Flat.Dirty
use fuguex_core.Flat.State
use fuguex_core.Flat.State.{FlatState, from_vec}
use fuguex_core.Flat.State.Valid
use fuguex_core.Flat.State.Start.{from_vec-IsValid}
use fuguex_core.Chunked.Heap.{Interval}
use fuguex_core.Chunked.IntervalLists.{intervals}
use fuguex_core.Paged.IntervalMap.{entries}
use fuguex_core.Paged.Segments
use fuguex_core.Paged.State as Paging
use fuguex_core.Paged.Segments.{Segment, NameOps}
use fuguex_core.Paged.State.{PagedState}
use fuguex_core.Register
use fuguex_core.Register.{RegisterState}
use fuguex_core.Unique
use fuguex_core.PCode.Bytes.{Operand, le_bytes, le_value}
use fuguex_core.PCode.LittleEndian.{little, length-le_bytes, le_value-refilled}
use fuguex_core.PCode
use fuguex_core.PCode.{PCodeState, Error, get_operand, set_operand, get_address, set_address}
use fuguex_core.PCode.Operands.{IsValid, Untouched, get_operand-set_operand, set_operand-Untouched}
use fuguex_core.PCode.Addresses
use fuguex_core.PCode.Addresses.{
  PointerSize, eight, two, one, get_address-set_address, get_address-constant, address-unsupported,
}
use fuguex_core.PCode.Runs.{Write, run, restore-run-fork_parts}

instance abbrev addresses : AddressOps
addresses = wrapping

instance abbrev names : NameOps ℕ
names = record { same_name = λ m n. m == n; same_name_refl = λ n. (==_iff n n).1 refl }

abbrev SegmentList : Type 0
SegmentList = List (Interval × Segment ℕ (List Interval) ℕ)

abbrev four : FlatState ℕ
four = from_vec 0 (10 ∷ 11 ∷ 12 ∷ 13 ∷ [])

abbrev at_first : FlatState ℕ → SegmentList
at_first b = (record { start = 200; end = 204 }, Segment.static_mapping 1 b) ∷ []

abbrev registers : FlatState ℕ → RegisterState ℕ Operand ℕ
registers inner = record {
  program_counter = Operand.register 0 2;
  stack_pointer = Operand.register 2 2;
  register_names = λ n. none;
  return_location = Register.register (Operand.register 0 2);
  inner = inner;
}

abbrev parts : FlatState ℕ → FlatState ℕ → PCodeState ℕ SegmentList ℕ ℕ
parts mapped registered = record {
  memory = record { segments = at_first mapped; inner = four };
  registers = registers registered;
  temporaries = record { inner = four };
  convention = 7;
}

-- the four values with two of them set
abbrev set_four : List ℕ → FlatState ℕ
set_four bytes = record {
  backing = bytes;
  dirty = record { indices = 0 ∷ []; bitsmap = 1 ∷ [] };
  permissions = four.permissions;
  space = 0;
}

four-IsValid : Valid.IsValid four
four-IsValid = from_vec-IsValid 0 (10 ∷ 11 ∷ 12 ∷ 13 ∷ []) (omega arith) (omega arith)

parts-IsValid : IsValid intervals entries (parts four four)
parts-IsValid = record {
  memory = record {
    inner = four-IsValid;
    segments = (four-IsValid, tt);
    apart = (omega arith, refl, tt);
  };
  registers = four-IsValid;
  temporaries = four-IsValid;
}

abbrev store : ℕ → List ℕ → List ℕ
store value bs = le_bytes (length bs) value

abbrev register_set : PCodeState ℕ SegmentList ℕ ℕ
register_set = parts four (set_four (10 ∷ 1 ∷ 2 ∷ 13 ∷ []))

was_set :
    set_operand intervals entries store (parts four four) (Operand.register 1 2) 513
    ≡ ok register_set
unfolding set_operand PCode.with_operand_values_mut Register.view_values_mut State.view_values_mut
    from_vec Permissions.all_readable_and_writable Permissions.all_marked_from Permissions.is_marked
    Permissions.new Dirty.dirty_region Dirty.dirty_from Dirty.dirty Dirty.new
    fuguex_core.Prelude.slice?
was_set = refl

get_operand-set_operand_example :
    get_operand intervals entries false (λ b. b) le_value register_set (Operand.register 1 2)
    ≡ ok 513
get_operand-set_operand_example =
    get_operand-set_operand intervals entries false (λ b. b) store le_value (parts four four)
      register_set (Operand.register 1 2) 513 parts-IsValid
      (λ l e. length-le_bytes (length l) 513 ∙ e) (λ l e. le_value-refilled 2 513 l e (omega arith))
      was_set

set_operand-Untouched_example :
    Untouched intervals entries (Operand.register 1 2) (parts four four) register_set
set_operand-Untouched_example =
    set_operand-Untouched intervals entries store (parts four four) register_set
      (Operand.register 1 2) 513 was_set

abbrev memory_set : PCodeState ℕ SegmentList ℕ ℕ
memory_set = parts (set_four (10 ∷ 1 ∷ 2 ∷ 13 ∷ [])) four

was_stored :
    set_address intervals entries (parts four four) (Operand.address 201 2) 513 ≡ ok memory_set
unfolding set_address PCode.with_operand_values_mut Paging.view_values_mut Paging.with_flat_mut
    Paging.resolve Paging.write_back State.view_values_mut from_vec
    Permissions.all_readable_and_writable Permissions.all_marked_from Permissions.is_marked
    Permissions.new Dirty.dirty_region Dirty.dirty_from Dirty.dirty Dirty.new
    fuguex_core.Prelude.slice?
was_stored = refl

get_address-set_address_example :
    get_address intervals entries memory_set (Operand.address 201 2) ≡ ok 513
get_address-set_address_example =
    get_address-set_address intervals entries (parts four four) memory_set (Operand.address 201 2)
      513 parts-IsValid (omega arith) (omega arith) was_stored

three-odd : ¬ PointerSize 3
three-odd (eight e) = absurd (omega (arith, e))
three-odd (Addresses.four e) = absurd (omega (arith, e))
three-odd (two e) = absurd (omega (arith, e))
three-odd (one e) = absurd (omega (arith, e))

abbrev writes : List (Write ℕ)
writes =
    record {
      operand = Operand.register 1 2;
      write = store 513;
      keeps = λ l. length-le_bytes (length l) 513;
    }
    ∷ []

it_ran :
    and_then (PCode.fork entries (parts four four)) (λ forked. run intervals entries forked writes)
    ≡ some register_set
unfolding PCode.fork run Paging.fork PCode.with_operand_values_mut Register.view_values_mut
    Register.fork State.fork Dirty.fork Segments.fork Unique.fork State.view_values_mut from_vec
    Permissions.all_readable_and_writable Permissions.all_marked_from Permissions.is_marked
    Permissions.new Dirty.dirty_region Dirty.dirty_from Dirty.dirty Dirty.new
    fuguex_core.Prelude.slice?
it_ran = refl

restore-run-fork_parts_example :
    (t : PCodeState ℕ SegmentList ℕ ℕ) × (PCode.restore entries register_set (parts four four)
      ≡ some t)
    × (t.registers ≡ registers four)
    × (t.temporaries ≡ (parts four four).temporaries)
    × (t.convention ≡ 7)
    × (t.memory.inner ≡ four)
    × (t.memory.segments ≡ at_first four)
restore-run-fork_parts_example =
    restore-run-fork_parts intervals entries (parts four four) register_set writes parts-IsValid
      it_ran
