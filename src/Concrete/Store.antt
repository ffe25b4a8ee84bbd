-- ===== src/Concrete/Store.antt =====
-- What the interpreter uses of its P-code state, of the translator, and of bytes.
use fuguex_core.Prelude.{ℕ, Bool, false, ◌≡◌, ◌&&◌, ◌==◌, List, Option, Result}
use fuguex_core.Register.{ReturnLocation}
use fuguex_core.PCode
use fuguex_core.PCode.Bytes.{Operand}

-- `read` is `with_operand_values` with the values themselves, `write` is `with_operand_values_mut`
-- with `values.copy_from_slice(buf)`, and `set_operand` is that of a `bool`.
pub record Store (P : Type 0) : Type 1 where
  pub read : P → Operand → Result PCode.Error (List ℕ)
  pub write : P → Operand → List ℕ → Result PCode.Error P
  pub set_operand : P → Operand → Bool → Result PCode.Error P
  pub get_address : P → Operand → Result PCode.Error ℕ
  pub set_address : P → Operand → ℕ → Result PCode.Error P
  pub view_values_from : P → ℕ → Result PCode.Error (List ℕ)
  -- `none` is a panic
  pub fork : P → Option P
  pub restore : P → P → Option P
  pub program_counter : P → Operand
  pub stack_pointer : P → Operand
  pub return_location : P → ReturnLocation Operand
  -- the space of the memory, and how many bytes the calling convention pops on a return
  pub memory_space : P → ℕ
  pub extra_pop : P → ℕ
  pub IsValid : P → Type 0
  pub read-write :
      (s s' : P) (o : Operand) (bytes : List ℕ)
      → IsValid s
      → write s o bytes ≡ Result.ok s'
      → read s' o ≡ Result.ok bytes

-- `lift_pcode` changes the translator's context; the `u64` of a space's word size
pub record TranslatorOps (T X St : Type 0) : Type 0 where
  pub context_database : T
  pub lift_pcode : T → ℕ → List ℕ → T × Result X St
  pub constant_space_id : ℕ
  pub register_space_id : ℕ
  pub word_size : ℕ → ℕ

-- `ByteCast` for `bool`, which is written into a buffer
pub record BoolBytes : Type 0 where
  pub bool_from_bytes : List ℕ → Bool
  pub bool_into_bytes : Bool → List ℕ → List ℕ

-- the derived equality of operands
unfoldable pub same_operand : Operand → Operand → Bool
same_operand (Operand.address v n) (Operand.address w m) = (v == w) && (n == m)
same_operand (Operand.constant v n) (Operand.constant w m) = (v == w) && (n == m)
same_operand (Operand.register v n) (Operand.register w m) = (v == w) && (n == m)
same_operand (Operand.variable v n s) (Operand.variable w m t) = (v == w) && (n == m) && (s == t)
same_operand _ _ = false
