-- ===== src/Machine/Engine.antt =====
-- `struct Machine` of fuguex-machine/src/machine.rs. `Machine::step` is a loop on the operations of an
-- instruction that calls itself, in tail position, on a branch of the interpreter's: `turn` is one
-- round of it, `drive` repeats it on fuel.
pub mod Total
pub mod Errors
pub mod Forgiving
pub mod Until
use fuguex_core.Prelude.{
  ℕ, zero, suc, Bool, true, false, [], Option, none, some, if◌then◌else◌, Result, ok, err, panic,
}
use fuguex_core.Machine.Types.{
  IrOps, PCode, Bound, in_space, deplete, reached?, Branch, next, Outcome, OrOutcome, StepOutcome,
  BranchOutcome, local, global, StepState, from_pcode, location, with_location, current,
  fallthrough, take_branch,
}
use fuguex_core.Machine.Interpreter.{PCodeOp, Interpreter, dispatch}

pub record Machine (I A Op : Type 0) : Type 0 where
  pub interpreter : I
  pub step_state : StepState A Op
  pub ignore_errors : Bool

unfoldable pub with_interpreter : {I A Op : Type 0} → Machine I A Op → I → Machine I A Op
with_interpreter m i = record {
  interpreter = i;
  step_state = m.step_state;
  ignore_errors = m.ignore_errors;
}

unfoldable pub with_step_state :
    {I A Op : Type 0} → Machine I A Op → StepState A Op → Machine I A Op
with_step_state m s = record {
  interpreter = m.interpreter;
  step_state = s;
  ignore_errors = m.ignore_errors;
}

unfoldable pub set_ignore_errors : {I A Op : Type 0} → Machine I A Op → Bool → Machine I A Op
set_ignore_errors m b = record {
  interpreter = m.interpreter;
  step_state = m.step_state;
  ignore_errors = b;
}

-- `Machine::from(interpreter)`, for the address 0 of the interpreter's space
unfoldable pub from_interpreter : {I A Op : Type 0} → A → I → Machine I A Op
from_interpreter zero_address i = record {
  interpreter = i;
  step_state = record {
    pcode = record { address = zero_address; operations = []; length = 0 };
    position = 0;
  };
  ignore_errors = false;
}

-- where the loop is: at the call of `step` for a location, or at the test of its `while`
pub data Control (L : Type 0) : Type 0 where
  enter : L → Control L
  operations : Control L

pub data Progress (E R A L : Type 0) : Type 0 where
  again : Control L → Progress E R A L
  done : Result E (StepOutcome A R) → Progress E R A L

-- to the next round, or out of the loop
unfoldable pub proceed :
    {I E R A L V Sp N : Type 0}
    → (Machine I A (PCodeOp V Sp N)
        → Control L
        → Option (Machine I A (PCodeOp V Sp N) × Result E (StepOutcome A R)))
    → Machine I A (PCodeOp V Sp N) × Progress E R A L
    → Option (Machine I A (PCodeOp V Sp N) × Result E (StepOutcome A R))
proceed rounds (m, again c) = rounds m c
proceed rounds (m, done r) = some (m, r)

module _ {I E R A L V Sp N Space : Type 0} (ir : IrOps A L)
    (int : Interpreter I E R A L V Sp N Space) where
  -- what `lift` gave
  unfoldable pub entered :
      Machine I A (PCodeOp V Sp N)
      → L
      → Result E (OrOutcome L (StepState A (PCodeOp V Sp N)) R)
      → Machine I A (PCodeOp V Sp N) × Progress E R A L
  entered m l (err e) = (m, done (err e))
  entered m l panic = (m, done panic)
  entered m l (ok (OrOutcome.branch l')) = (m, again (enter l'))
  entered m l (ok (OrOutcome.halt o)) = (m, done (ok (StepOutcome.halt o)))
  entered m l (ok (OrOutcome.continue s)) = elim (with_location ir s l) [
    | none ↦ (m, done panic)
    | some s' ↦ (with_step_state m s', again operations)
  ]

  unfoldable pub settle :
      Machine I A (PCodeOp V Sp N) → Branch A → Machine I A (PCodeOp V Sp N) × Progress E R A L
  settle m b = elim (take_branch ir m.step_state b) [
    | none ↦ (m, done panic)
    | some (s, local) ↦ (with_step_state m s, again operations)
    | some (s, global a) ↦ (with_step_state m s, done (ok (StepOutcome.branch a)))
  ]

  -- the match on `action_res`
  unfoldable pub after :
      Machine I A (PCodeOp V Sp N)
      → Result E (Outcome A R)
      → Machine I A (PCodeOp V Sp N) × Progress E R A L
  after m (err e) = if m.ignore_errors then settle m next else (m, done (err e))
  after m panic = (m, done panic)
  after m (ok (Outcome.halt o)) = (m, done (ok (StepOutcome.halt o)))
  after m (ok (Outcome.branch b)) = settle m b

  -- what the `operation` callback gave
  unfoldable pub observed :
      Machine I A (PCodeOp V Sp N)
      → PCodeOp V Sp N
      → Result E (OrOutcome L (Unit {0}) R)
      → Machine I A (PCodeOp V Sp N) × Progress E R A L
  observed m op (err e) = (m, done (err e))
  observed m op panic = (m, done panic)
  observed m op (ok (OrOutcome.branch l)) = (m, again (enter l))
  observed m op (ok (OrOutcome.halt o)) = (m, done (ok (StepOutcome.halt o)))
  observed m op (ok (OrOutcome.continue u)) =
      let (i, r) = dispatch int op m.interpreter in after (with_interpreter m i) r

  unfoldable pub turn :
      Machine I A (PCodeOp V Sp N) → Control L → Machine I A (PCodeOp V Sp N) × Progress E R A L
  turn m (enter l) =
      let (i, r) = int.lift (ir.address l) m.interpreter in entered (with_interpreter m i) l r
  turn m operations = elim (current ir m.step_state) [
    | none ↦ (m, done (ok (StepOutcome.branch (fallthrough ir m.step_state))))
    | some op ↦
        let (i, r) = int.operation (location ir m.step_state) op m.interpreter in
        observed (with_interpreter m i) op r
  ]

  -- `none` if the fuel runs out
  unfoldable pub drive :
      ℕ
      → Machine I A (PCodeOp V Sp N)
      → Control L
      → Option (Machine I A (PCodeOp V Sp N) × Result E (StepOutcome A R))
  drive zero m c = none
  drive (suc n) m c = proceed (drive n) (turn m c)

  -- `Machine::step`
  unfoldable pub step :
      ℕ
      → Machine I A (PCodeOp V Sp N)
      → L
      → Option (Machine I A (PCodeOp V Sp N) × Result E (StepOutcome A R))
  step fuel m l = drive fuel m (enter l)

  -- the loop of `step_until`, for a bound in the interpreter's space
  unfoldable pub until :
      ℕ
      → ℕ
      → Machine I A (PCodeOp V Sp N)
      → L
      → Bound A
      → Option (Machine I A (PCodeOp V Sp N) × Result E (Bound A × StepOutcome A R))
  until zero fuel m l bound = none
  until (suc n) fuel m l bound = elim (reached? ir bound (ir.address l)) [
    | true ↦ some (m, ok (bound, StepOutcome.reached))
    | false ↦ elim (step fuel m l) [
      | none ↦ none
      | some (m', err e) ↦ some (m', err e)
      | some (m', panic) ↦ some (m', panic)
      | some (m', ok (StepOutcome.branch a)) ↦ until n fuel m' (ir.from a) (deplete bound)
      | some (m', ok (StepOutcome.halt o)) ↦ some (m', ok (deplete bound, StepOutcome.halt o))
      | some (m', ok StepOutcome.reached) ↦ some (m', ok (deplete bound, StepOutcome.reached))
    ]
  ]

  -- `Machine::step_until`, on at most `n` instructions
  unfoldable pub step_until :
      {B : Type 0}
      → (Space → B → A)
      → ℕ
      → ℕ
      → Machine I A (PCodeOp V Sp N)
      → L
      → Bound B
      → Option (Machine I A (PCodeOp V Sp N) × Result E (Bound A × StepOutcome A R))
  step_until into_address_value n fuel m l bound =
      until n fuel m l (in_space (into_address_value (int.interpreter_space m.interpreter)) bound)
