-- ===== src/Concrete/PCodeStore.antt =====
-- The P-code state as the store of the interpreter.
use fuguex_core.Prelude.{
  ℕ, ◌≡◌, refl, Bool, true, false, List, ◌==◌, ==_iff, if◌then◌else◌, Result, ok, err, panic, bind,
  length, err_ok,
}
use fuguex_core.Address.{AddressOps}
use fuguex_core.Chunked.Heap.{IntervalOps}
use fuguex_core.Paged.IntervalMap.{IntervalMapOps}
use fuguex_core.Paged.Segments.{Segment, NameOps}
use fuguex_core.PCode
use fuguex_core.PCode.{PCodeState, with_operand_values, with_operand_values_mut, get_operand}
use fuguex_core.PCode.Bytes.{Operand, size, ByteOps}
use fuguex_core.PCode.Operands.{IsValid, get_operand-set_operand}
use fuguex_core.Concrete.Store.{Store, BoolBytes}

-- the write of a view that is there, whose values are replaced by others of the same number
abbrev guarded : {E P A : Type 0} → Result E A → Bool → Result E P → Result E P
guarded viewed same_length written = bind viewed (λ a. if same_length then written else panic)

guarded-ok :
    {E P A : Type 0} (viewed : Result E A) (same_length : Bool) (written : Result E P) (s : P)
    → guarded viewed same_length written ≡ ok s
    → (same_length ≡ true) × (written ≡ ok s)
guarded-ok (ok a) true written s e = (refl, e)
guarded-ok (ok a) false written s e = cc
guarded-ok (err x) same_length written s e = absurd (err_ok e)
guarded-ok panic same_length written s e = cc

module _ {S N M R C : Type 0} ⦃ir : AddressOps⦄ ⦃bytes : ByteOps⦄ (iv : IntervalOps S)
    (im : IntervalMapOps M (Segment ℕ S N)) where
  unfoldable pub read_bytes : PCodeState ℕ M R C → Operand → Result PCode.Error (List ℕ)
  read_bytes s o = with_operand_values iv im bytes.is_big (λ b. b) s o (λ values. values)

  -- `with_operand_values_mut` with `values.copy_from_slice(buf)`, which panics on a view of another
  -- length
  unfoldable pub write_bytes :
      PCodeState ℕ M R C → Operand → List ℕ → Result PCode.Error (PCodeState ℕ M R C)
  write_bytes s o buf =
      guarded (with_operand_values_mut iv im s o (λ values. values)) (length buf == size o)
        (with_operand_values_mut iv im s o (λ values. buf))

  pub read_bytes-write_bytes :
      (s s' : PCodeState ℕ M R C) (o : Operand) (buf : List ℕ)
      → IsValid iv im s
      → write_bytes s o buf ≡ ok s'
      → read_bytes s' o ≡ ok buf
  unfolding read_bytes write_bytes get_operand PCode.set_operand
  read_bytes-write_bytes s s' o buf v e =
      let (same, written) =
        guarded-ok (with_operand_values_mut iv im s o (λ values. values)) (length buf == size o)
          (with_operand_values_mut iv im s o (λ values. buf)) s' e in
      get_operand-set_operand iv im bytes.is_big (λ b. b) (λ new old. new) (λ values. values) s s' o
        buf v (λ l h. (==_iff (length buf) (size o)).0 same) (λ l h. refl) written

  -- for the extra pop of a calling convention
  unfoldable pub pcode_store :
      ⦃names : NameOps N⦄ ⦃bools : BoolBytes⦄ → (C → ℕ) → Store (PCodeState ℕ M R C)
  pcode_store ⦃names⦄ ⦃bools⦄ extra = record {
    read = read_bytes;
    write = write_bytes;
    set_operand =
        λ s o b. PCode.set_operand iv im (λ b values. bools.bool_into_bytes b values) s o b;
    get_address = PCode.get_address iv im;
    set_address = PCode.set_address iv im;
    view_values_from = PCode.view_values_from iv im;
    fork = PCode.fork im;
    restore = PCode.restore im;
    program_counter = λ s. s.registers.program_counter;
    stack_pointer = λ s. s.registers.stack_pointer;
    return_location = λ s. s.registers.return_location;
    memory_space = λ s. s.memory.inner.space;
    extra_pop = λ s. extra s.convention;
    IsValid = IsValid iv im;
    read-write = read_bytes-write_bytes;
  }
