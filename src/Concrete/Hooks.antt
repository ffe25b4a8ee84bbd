-- ===== src/Concrete/Hooks.antt =====
-- `trait HookConcrete` of fuguex-concrete/src/hooks.rs, as a table of the methods of the hooks `H`,
-- which may change the hook and the state `P`.
use fuguex_core.Prelude.{ℕ, List, Result, ok}
use fuguex_core.Paths.{
  HookAction, HookCBranchAction, HookCallAction, HookStepAction, HookOutcome, from_action,
}
use fuguex_core.Register.{Register}
use fuguex_core.Microx.{ViolationSource, HookInvalidAccessAction}
use fuguex_core.PCode.Bytes.{Operand}

abbrev pub Hooked : (H P E A : Type 0) → Type 0
Hooked H P E A = (H × P) × Result E (HookOutcome A)

-- for errors `E`, outcomes `R`, locations `L`, operations `Op` and lifted instructions `St`
pub record HookConcrete (H P E R L Op St : Type 0) : Type 0 where
  pub hook_memory_read : H → P → ℕ → ℕ → Hooked H P E (HookAction R)
  pub hook_memory_write : H → P → ℕ → ℕ → List ℕ → Hooked H P E (HookAction R)
  pub hook_invalid_memory_access :
      H → P → ℕ → ℕ → ViolationSource → Hooked H P E (HookInvalidAccessAction R ℕ)
  pub hook_register_read : H → P → Register → Hooked H P E (HookAction R)
  pub hook_register_write : H → P → Register → List ℕ → Hooked H P E (HookAction R)
  pub hook_operand_read : H → P → Operand → Hooked H P E (HookAction R)
  pub hook_operand_write : H → P → Operand → List ℕ → Hooked H P E (HookAction R)
  pub hook_call : H → P → ℕ → Hooked H P E (HookCallAction R)
  pub hook_cbranch : H → P → Operand → Operand → Hooked H P E (HookCBranchAction R)
  pub hook_operation_step : H → P → L → Op → Hooked H P E (HookStepAction L R)
  pub hook_architectural_step : H → P → ℕ → St → Hooked H P E (HookStepAction L R)

module _ {H P E R : Type 0} where
  -- The provided methods for operands tell memory and registers apart.
  unfoldable pub operand_read :
      (H → P → ℕ → ℕ → Hooked H P E (HookAction R))
      → (H → P → Register → Hooked H P E (HookAction R))
      → H
      → P
      → Operand
      → Hooked H P E (HookAction R)
  operand_read memory_read register_read h s (Operand.address value size) =
      memory_read h s value size
  operand_read memory_read register_read h s (Operand.register offset size) =
      register_read h s (record { offset = offset; size = size })
  operand_read memory_read register_read h s (Operand.constant value size) =
      ((h, s), ok (from_action HookAction.pass))
  operand_read memory_read register_read h s (Operand.variable offset size space) =
      ((h, s), ok (from_action HookAction.pass))

  unfoldable pub operand_write :
      (H → P → ℕ → ℕ → List ℕ → Hooked H P E (HookAction R))
      → (H → P → Register → List ℕ → Hooked H P E (HookAction R))
      → H
      → P
      → Operand
      → List ℕ
      → Hooked H P E (HookAction R)
  operand_write memory_write register_write h s (Operand.address value size) bytes =
      memory_write h s value size bytes
  operand_write memory_write register_write h s (Operand.register offset size) bytes =
      register_write h s (record { offset = offset; size = size }) bytes
  operand_write memory_write register_write h s (Operand.constant value size) bytes =
      ((h, s), ok (from_action HookAction.pass))
  operand_write memory_write register_write h s (Operand.variable offset size space) bytes =
      ((h, s), ok (from_action HookAction.pass))

-- The hook that overrides no method.
unfoldable pub provided : {H P E R L Op St : Type 0} → HookConcrete H P E R L Op St
provided {H} {P} {E} {R} = record {
  hook_memory_read = λ h s address size. ((h, s), ok (from_action HookAction.pass));
  hook_memory_write = λ h s address size value. ((h, s), ok (from_action HookAction.pass));
  hook_invalid_memory_access =
      λ h s address size source. ((h, s), ok (from_action HookInvalidAccessAction.pass));
  hook_register_read = λ h s register. ((h, s), ok (from_action HookAction.pass));
  hook_register_write = λ h s register value. ((h, s), ok (from_action HookAction.pass));
  hook_operand_read =
      operand_read (λ h s address size. ((h, s), ok (from_action HookAction.pass)))
        (λ h s register. ((h, s), ok (from_action HookAction.pass)));
  hook_operand_write =
      operand_write (λ h s address size value. ((h, s), ok (from_action HookAction.pass)))
        (λ h s register value. ((h, s), ok (from_action HookAction.pass)));
  hook_call = λ h s destination. ((h, s), ok (from_action HookCallAction.pass));
  hook_cbranch = λ h s destination condition. ((h, s), ok (from_action HookCBranchAction.pass));
  hook_operation_step = λ h s location operation. ((h, s), ok (from_action HookStepAction.pass));
  hook_architectural_step = λ h s address operation. ((h, s), ok (from_action HookStepAction.pass));
}
