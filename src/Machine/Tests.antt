-- ===== src/Machine/Tests.antt =====
-- The machine on a small interpreter: every operation acts alike, and each instruction has two.
use fuguex_core.Prelude.{ℕ, ◌+◌, ◌<◌, ◌≡◌, refl, Bool, true, [], ◌∷◌, some, ◌==◌, ==_iff, ok, err}
use mathlib.Core.Option.{map}
use fuguex_core.Machine.Types.{
  Bound, pos, IrOps, steps, unbounded, deplete, reached?, Branch, next, Outcome, OrOutcome,
  StepOutcome, StepState, with_location, current, outcome_at, fallthrough, take_branch,
  branch_location,
}
use fuguex_core.Machine.Types.Branching.{landed, branch_location-take_branch}
use fuguex_core.Machine.Interpreter.{PCodeOp, Interpreter, Action, dispatch}
use fuguex_core.Machine.Engine.{
  Machine, step, until, drive, proceed, turn, entered, with_step_state, observed, after,
  with_interpreter, settle,
}
use fuguex_core.Machine.Engine.Forgiving.{forgiving, step_ignoring}
use fuguex_core.Machine.Engine.Until.{Executes, until-Executes, until-steps, until-unbounded}

abbrev ir : IrOps ℕ (ℕ × ℕ)
ir = record {
  add = λ a n. a + n;
  eq = λ a b. a == b;
  at = λ a n. (a, n);
  from = λ a. (a, 0);
  address = λ l. l.0;
  position = λ l. l.1;
  eq_refl = λ a. (==_iff a a).1 refl;
  eq_lem = λ a b. (==_iff a b).0;
  address-at = λ a n. refl;
  position-at = λ a n. refl;
  address-from = λ a. refl;
  position-from = λ a. refl;
}

abbrev Op : Type 0
Op = PCodeOp ℕ ℕ ℕ

-- two operations in four bytes
abbrev instruction : ℕ → StepState ℕ Op
instruction a = record {
  pcode = record { address = a; operations = PCodeOp.copy 1 2 ∷ PCodeOp.skip ∷ []; length = 4 };
  position = 0;
}

abbrev uniform : Action ℕ ℕ ℕ ℕ → Interpreter ℕ ℕ ℕ ℕ (ℕ × ℕ) ℕ ℕ ℕ ℕ
uniform act = record {
  fork = λ i. some i;
  restore = λ i j. some j;
  copy = λ source destination. act;
  load = λ source destination space. act;
  store = λ source destination space. act;
  branch = λ destination. act;
  cbranch = λ destination condition. act;
  ibranch = λ destination. act;
  call = λ destination. act;
  icall = λ destination. act;
  intrinsic = λ name operands result. act;
  return_ = λ destination. act;
  int_eq = λ destination operand1 operand2. act;
  int_not_eq = λ destination operand1 operand2. act;
  int_less = λ destination operand1 operand2. act;
  int_less_eq = λ destination operand1 operand2. act;
  int_sless = λ destination operand1 operand2. act;
  int_sless_eq = λ destination operand1 operand2. act;
  int_zext = λ destination operand. act;
  int_sext = λ destination operand. act;
  int_add = λ destination operand1 operand2. act;
  int_sub = λ destination operand1 operand2. act;
  int_carry = λ destination operand1 operand2. act;
  int_scarry = λ destination operand1 operand2. act;
  int_sborrow = λ destination operand1 operand2. act;
  int_neg = λ destination operand. act;
  int_not = λ destination operand. act;
  int_xor = λ destination operand1 operand2. act;
  int_and = λ destination operand1 operand2. act;
  int_or = λ destination operand1 operand2. act;
  int_left_shift = λ destination operand1 operand2. act;
  int_right_shift = λ destination operand1 operand2. act;
  int_sright_shift = λ destination operand1 operand2. act;
  int_mul = λ destination operand1 operand2. act;
  int_div = λ destination operand1 operand2. act;
  int_sdiv = λ destination operand1 operand2. act;
  int_rem = λ destination operand1 operand2. act;
  int_srem = λ destination operand1 operand2. act;
  bool_not = λ destination operand. act;
  bool_xor = λ destination operand1 operand2. act;
  bool_and = λ destination operand1 operand2. act;
  bool_or = λ destination operand1 operand2. act;
  float_eq = λ destination operand1 operand2. act;
  float_not_eq = λ destination operand1 operand2. act;
  float_less = λ destination operand1 operand2. act;
  float_less_eq = λ destination operand1 operand2. act;
  float_is_nan = λ destination operand. act;
  float_add = λ destination operand1 operand2. act;
  float_div = λ destination operand1 operand2. act;
  float_mul = λ destination operand1 operand2. act;
  float_sub = λ destination operand1 operand2. act;
  float_neg = λ destination operand. act;
  float_abs = λ destination operand. act;
  float_sqrt = λ destination operand. act;
  float_of_int = λ destination operand. act;
  float_of_float = λ destination operand. act;
  float_truncate = λ destination operand. act;
  float_ceiling = λ destination operand. act;
  float_floor = λ destination operand. act;
  float_round = λ destination operand. act;
  subpiece = λ destination operand amount. act;
  pop_count = λ destination operand. act;
  skip = act;
  lift = λ a i. (i, ok (OrOutcome.continue (instruction a)));
  operation = λ l op i. (i, ok (OrOutcome.continue tt));
  interpreter_space = λ i. 0;
}

-- counts the operations, and goes on
abbrev counting : Interpreter ℕ ℕ ℕ ℕ (ℕ × ℕ) ℕ ℕ ℕ ℕ
counting = uniform (λ i. (i + 1, ok (Outcome.branch next)))

-- fails at each operation
abbrev failing : Interpreter ℕ ℕ ℕ ℕ (ℕ × ℕ) ℕ ℕ ℕ ℕ
failing = uniform (λ i. (i + 1, err 7))

abbrev machine : ℕ → ℕ → Bool → Machine ℕ ℕ Op
machine i a b = record {
  interpreter = i;
  ignore_errors = b;
  step_state = record {
    pcode = record { address = a; operations = PCodeOp.copy 1 2 ∷ PCodeOp.skip ∷ []; length = 4 };
    position = 2;
  };
}

abbrev start : Machine ℕ ℕ Op
start = record {
  interpreter = 0;
  ignore_errors = true;
  step_state = record { pcode = record { address = 0; operations = []; length = 0 }; position = 0 };
}

one_step : step ir counting 4 start (8, 0) ≡ some (machine 2 8 true, ok (StepOutcome.branch 12))
unfolding step drive proceed turn entered with_location current with_step_state observed after
    dispatch with_interpreter settle take_branch outcome_at fallthrough
one_step = refl

failing-step : step ir failing 4 start (8, 0) ≡ some (machine 2 8 true, ok (StepOutcome.branch 12))
unfolding step drive proceed turn entered with_location current with_step_state observed after
    dispatch with_interpreter settle take_branch outcome_at fallthrough
failing-step = refl

branch_location-take_branch_example :
    branch_location ir (instruction 8) (Branch.local (pos 1))
    ≡ map (landed ir) (take_branch ir (instruction 8) (Branch.local (pos 1)))
branch_location-take_branch_example =
    branch_location-take_branch ir (instruction 8) (Branch.local (pos 1))

step_ignoring_example : step ir failing 4 start (8, 0) ≡ step ir (forgiving failing) 4 start (8, 0)
step_ignoring_example = step_ignoring failing ir 4 start (8, 0) refl

two_instructions :
    until ir counting 5 4 start (8, 0) (steps 2)
    ≡ some (machine 4 12 true, ok (steps 0, StepOutcome.reached))
unfolding step drive proceed turn entered with_location current with_step_state observed after
    dispatch with_interpreter settle take_branch outcome_at fallthrough until reached? deplete
two_instructions = refl

until-Executes_example :
    (k : ℕ) × (l : ℕ × ℕ) × Executes ir counting 4 k start
      (8, 0)
      (steps 2)
      (machine 4 12 true)
      l
      (steps 0)
    × (reached? ir (steps 0) l.0 ≡ true)
    × (k < 5)
until-Executes_example =
    until-Executes ir counting 4 5 start (machine 4 12 true) (8, 0) (steps 2) (steps 0)
      two_instructions

until-unbounded_example : ¬ (
    until ir counting 5 4 start (8, 0) unbounded
    ≡ some (machine 2 8 true, ok (unbounded, StepOutcome.reached)))
until-unbounded_example = until-unbounded ir counting 4 5 start (machine 2 8 true) (8, 0) unbounded

until-steps_example :
    (l : ℕ × ℕ) × Executes ir counting 4 2 start (8, 0) (steps 2) (machine 4 12 true) l (steps 0)
    × (◌≡◌ {A = Bound ℕ} (steps 0) (steps 0))
until-steps_example =
    until-steps ir counting 4 5 2 start (machine 4 12 true) (8, 0) (steps 0) two_instructions
