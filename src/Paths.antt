-- ===== src/Paths.antt =====
-- The hook outcomes of fuguex-hooks/src/types.rs, and the hooks of fuguex-concrete that follow the
-- paths of an execution: `BranchTracker` (tracker.rs), `PathWalker` and `RandomWalker` (driver.rs).
pub mod Replay
mod Tests
use fuguex_core.Prelude.{
  ℕ, Bool, true, false, ◌&&◌, not, List, [], ◌∷◌, ◌++◌, Option, none, some, ◌==◌, if◌then◌else◌,
  Result, ok, err, panic, bind, map_err,
}
use fuguex_core.Machine.Types.{IrOps, StepState, fallthrough}

pub data HookAction (R : Type 0) : Type 0 where
  pass : HookAction R
  halt : R → HookAction R

pub data HookCBranchAction (R : Type 0) : Type 0 where
  pass : HookCBranchAction R
  flip : HookCBranchAction R
  halt : R → HookCBranchAction R

pub data HookCallAction (R : Type 0) : Type 0 where
  pass : HookCallAction R
  skip : HookCallAction R
  halt : R → HookCallAction R

pub data HookStepAction (L R : Type 0) : Type 0 where
  branch : L → HookStepAction L R
  pass : HookStepAction L R
  halt : R → HookStepAction L R

pub record HookOutcome (A : Type 0) : Type 0 where
  pub action : A
  pub state_changed : Bool

-- `HookOutcome::from`
unfoldable pub from_action : {A : Type 0} → A → HookOutcome A
from_action a = record { action = a; state_changed = false }

unfoldable pub set_state_changed : {A : Type 0} → HookOutcome A → Bool → HookOutcome A
set_state_changed o changed = record { action = o.action; state_changed = changed }

-- errors of the state `E`, and of the hook itself `O`
pub data HookError (E O : Type 0) : Type 0 where
  state : E → HookError E O
  other : O → HookError E O

-- What the hooks ask of the state: the program counter, the byte of a condition, and the address in
-- an operand; each may fail.
pub record Registers (S V E : Type 0) : Type 0 where
  pub program_counter_value : S → Result E ℕ
  pub get_byte : S → V → Result E ℕ
  pub get_address : S → V → Result E ℕ

-- where a conditional branch stood, the address that was read through the operand of its destination,
-- and the address after it
pub record Tracked : Type 0 where
  pub address : ℕ
  pub taken : ℕ
  pub not_taken : ℕ

pub record BranchTracker : Type 0 where
  pub next : ℕ
  pub tracked : List Tracked

pub record PathWalker : Type 0 where
  pub next : ℕ
  pub walk : List (ℕ × ℕ)

-- a source of random bits, and its state
pub record RandomWalker (G : Type 0) : Type 0 where
  pub rand : G

unfoldable pub default_tracker : BranchTracker
default_tracker = record { next = 0; tracked = [] }

unfoldable pub default_walker : PathWalker
default_walker = record { next = 0; walk = [] }

-- `PathWalker::from_iter`
unfoldable pub from_walk : List (ℕ × ℕ) → PathWalker
from_walk walk = record { next = 0; walk = walk }

unfoldable pub push : PathWalker → ℕ → ℕ → PathWalker
push w from to = record w { walk = w.walk ++ ((from, to) ∷ []) }

-- The two `hook_architectural_step`s; `fallthrough` is the address after the instruction.
unfoldable pub track_step :
    {L R E O : Type 0}
    → BranchTracker
    → ℕ
    → BranchTracker × Result (HookError E O) (HookOutcome (HookStepAction L R))
track_step t fallthrough = (record t { next = fallthrough }, ok (from_action HookStepAction.pass))

unfoldable pub walk_step :
    {L R E O : Type 0}
    → PathWalker
    → ℕ
    → PathWalker × Result (HookError E O) (HookOutcome (HookStepAction L R))
walk_step w fallthrough = (record w { next = fallthrough }, ok (from_action HookStepAction.pass))

-- the choice of `PathWalker::hook_cbranch` for a branch at `address`
unfoldable pub choose : {R : Type 0} → PathWalker → ℕ → Bool → PathWalker × HookCBranchAction R
choose w address is_taken = elim w.walk [
  | [] ↦ (w, HookCBranchAction.pass)
  | front ∷ rest ↦
      if front.0 == address
      then (
        record w { walk = rest },
        if front.1 == w.next
            then (if is_taken then HookCBranchAction.flip else HookCBranchAction.pass)
            else (if is_taken then HookCBranchAction.pass else HookCBranchAction.flip),
      )
      else (w, HookCBranchAction.pass)
]

module _ {S V E O R : Type 0} (regs : Registers S V E) where
  -- `BranchTracker::hook_cbranch`
  unfoldable pub track_cbranch :
      BranchTracker
      → S
      → V
      → BranchTracker × Result (HookError E O) (HookOutcome (HookCBranchAction R))
  track_cbranch t s destination = elim (regs.program_counter_value s) [
    | err e ↦ (t, err (state e))
    | panic ↦ (t, panic)
    | ok address ↦ elim (regs.get_address s destination) [
      | err e ↦ (t, err (state e))
      | panic ↦ (t, panic)
      | ok taken ↦ (
        record t {
          tracked =
              t.tracked ++ (record { address = address; taken = taken; not_taken = t.next } ∷ []);
        },
        ok (from_action HookCBranchAction.pass),
      )
    ]
  ]

  -- `PathWalker::hook_cbranch`
  unfoldable pub walk_cbranch :
      PathWalker → S → V → PathWalker × Result (HookError E O) (HookOutcome (HookCBranchAction R))
  walk_cbranch w s condition = elim (regs.program_counter_value s) [
    | err e ↦ (w, err (state e))
    | panic ↦ (w, panic)
    | ok address ↦ elim (regs.get_byte s condition) [
      | err e ↦ (w, err (state e))
      | panic ↦ (w, panic)
      | ok byte ↦
          let (w', action) = choose w address (not (byte == 0)) in (w', ok (from_action action))
    ]
  ]

-- `RandomWalker::hook_cbranch`, for a generator that gives a bit and its next state
unfoldable pub random_cbranch :
    {G E O R : Type 0}
    → (G → G × Bool)
    → RandomWalker G
    → RandomWalker G × Result (HookError E O) (HookOutcome (HookCBranchAction R))
random_cbranch gen w =
    let (g, flips) = gen w.rand in
    (
      record { rand = g },
      ok (from_action (if flips then HookCBranchAction.flip else HookCBranchAction.pass)),
    )
