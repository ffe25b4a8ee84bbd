-- ===== src/Microx.antt =====
-- fuguex-microx/src/types.rs and fuguex-concrete/src/microx.rs: what hooks answer to an access that
-- the memory refuses, and the hook that asks a policy for the values.
use fuguex_core.Prelude.{
  ℕ, Bool, true, false, List, Option, none, some, Result, ok, err, panic, map_err, replicate,
}
use fuguex_core.Paths.{HookOutcome, HookError, from_action}

pub data ViolationSource : Type 0 where
  read : ViolationSource
  write : ViolationSource
  read_via : ViolationSource
  write_via : ViolationSource

pub data HookInvalidAccessAction (R V : Type 0) : Type 0 where
  pass : HookInvalidAccessAction R V
  skip : HookInvalidAccessAction R V
  halt : R → HookInvalidAccessAction R V
  value : List V → HookInvalidAccessAction R V

module _ {R V : Type 0} where
  unfoldable pub is_value : HookInvalidAccessAction R V → Bool
  is_value (value v) = true
  is_value _ = false

  unfoldable pub is_halt : HookInvalidAccessAction R V → Bool
  is_halt (halt r) = true
  is_halt _ = false

  unfoldable pub is_pass : HookInvalidAccessAction R V → Bool
  is_pass pass = true
  is_pass _ = false

  unfoldable pub is_skip : HookInvalidAccessAction R V → Bool
  is_skip skip = true
  is_skip _ = false

  -- `value`, `into_value`, and `unwrap_value`, which panics where these have no value
  unfoldable pub into_value : HookInvalidAccessAction R V → Option (List V)
  into_value (value v) = some v
  into_value _ = none

-- The policies `P`, with the state and the result of `handle_read`.
pub record MemoryPolicy (P S V E : Type 0) : Type 0 where
  pub handle_read : P → S → ℕ → ℕ → (P × S) × Result E (Option (List V))

-- `ZeroPolicy`: as many zeros as are read
unfoldable pub zero_policy : {S E : Type 0} → MemoryPolicy (Unit {0}) S ℕ E
zero_policy = record { handle_read = λ p s address size. ((p, s), ok (some (replicate size 0))) }

module _ {P S V E O R : Type 0} (policy : MemoryPolicy P S V E) where
  -- the answer to a read, with the policy's error as one of the state
  abbrev answer :
      (P × S) × Result E (Option (List V))
      → (P × S) × Result (HookError E O) (HookOutcome (HookInvalidAccessAction R V))
  answer (s, ok (some bytes)) = (s, ok (from_action (value bytes)))
  answer (s, ok none) = (s, ok (from_action pass))
  answer (s, err e) = (s, err (HookError.state e))
  answer (s, panic) = (s, panic)

  -- `PolicyHook::hook_invalid_memory_access`
  unfoldable pub hook_invalid_memory_access :
      P
      → S
      → ℕ
      → ℕ
      → ViolationSource
      → (P × S) × Result (HookError E O) (HookOutcome (HookInvalidAccessAction R V))
  hook_invalid_memory_access p s address size read = answer (policy.handle_read p s address size)
  hook_invalid_memory_access p s address size _ = ((p, s), ok (from_action skip))

module _ {P S V E O : Type 0} (policy : MemoryPolicy P S V E) where
  -- `PolicyHook::read_memory`
  unfoldable pub read_memory : P → S → ℕ → ℕ → (P × S) × Result (HookError E O) (Option (List V))
  read_memory p s address size =
      let (s', r) = policy.handle_read p s address size in (s', map_err HookError.state r)
