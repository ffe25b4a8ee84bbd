-- ===== src/Machine/Engine/Forgiving.antt =====
-- `Machine::set_ignore_errors` against an interpreter whose operations never fail.
use fuguex_core.Prelude.{
  ℕ, zero, suc, ◌≡◌, refl, sym, ap, ◌∙◌, true, Option, Option-cases, inl, inr, Result, ok, err,
  panic,
}
use fuguex_core.Machine.Types.{
  IrOps, next, Outcome, OrOutcome, StepOutcome, StepState, location, current,
}
use fuguex_core.Machine.Interpreter.{PCodeOp, Action, Interpreter, dispatch}
use fuguex_core.Machine.Engine.{
  Machine, with_interpreter, Control, enter, operations, Progress, again, done, entered, settle,
  after, observed, turn, proceed, drive, step,
}
use fuguex_core.Machine.Engine.Errors.{Proper, turn-Proper}

-- an error becomes a branch to the next operation
abbrev pub forgiven : {E A R : Type 0} → Result E (Outcome A R) → Result E (Outcome A R)
forgiven (err e) = ok (Outcome.branch next)
forgiven (ok o) = ok o
forgiven panic = panic

abbrev pub forgive : {I E R A : Type 0} → Action I E R A → Action I E R A
forgive act i = let (i', r) = act i in (i', forgiven r)

module _ {I E R A L V Sp N Space : Type 0} (int : Interpreter I E R A L V Sp N Space) where
  -- The interpreter with the same changes, where an operation that fails goes to the next one.
  unfoldable pub forgiving : Interpreter I E R A L V Sp N Space
  forgiving = record {
    fork = int.fork;
    restore = int.restore;
    copy = λ source destination. forgive (int.copy source destination);
    load = λ source destination space. forgive (int.load source destination space);
    store = λ source destination space. forgive (int.store source destination space);
    branch = λ destination. forgive (int.branch destination);
    cbranch = λ destination condition. forgive (int.cbranch destination condition);
    ibranch = λ destination. forgive (int.ibranch destination);
    call = λ destination. forgive (int.call destination);
    icall = λ destination. forgive (int.icall destination);
    intrinsic = λ name operands result. forgive (int.intrinsic name operands result);
    return_ = λ destination. forgive (int.return_ destination);
    int_eq = λ destination operand1 operand2. forgive (int.int_eq destination operand1 operand2);
    int_not_eq =
        λ destination operand1 operand2. forgive (int.int_not_eq destination operand1 operand2);
    int_less =
        λ destination operand1 operand2. forgive (int.int_less destination operand1 operand2);
    int_less_eq =
        λ destination operand1 operand2. forgive (int.int_less_eq destination operand1 operand2);
    int_sless =
        λ destination operand1 operand2. forgive (int.int_sless destination operand1 operand2);
    int_sless_eq =
        λ destination operand1 operand2. forgive (int.int_sless_eq destination operand1 operand2);
    int_zext = λ destination operand. forgive (int.int_zext destination operand);
    int_sext = λ destination operand. forgive (int.int_sext destination operand);
    int_add = λ destination operand1 operand2. forgive (int.int_add destination operand1 operand2);
    int_sub = λ destination operand1 operand2. forgive (int.int_sub destination operand1 operand2);
    int_carry =
        λ destination operand1 operand2. forgive (int.int_carry destination operand1 operand2);
    int_scarry =
        λ destination operand1 operand2. forgive (int.int_scarry destination operand1 operand2);
    int_sborrow =
        λ destination operand1 operand2. forgive (int.int_sborrow destination operand1 operand2);
    int_neg = λ destination operand. forgive (int.int_neg destination operand);
    int_not = λ destination operand. forgive (int.int_not destination operand);
    int_xor = λ destination operand1 operand2. forgive (int.int_xor destination operand1 operand2);
    int_and = λ destination operand1 operand2. forgive (int.int_and destination operand1 operand2);
    int_or = λ destination operand1 operand2. forgive (int.int_or destination operand1 operand2);
    int_left_shift =
        λ destination operand1 operand2. forgive (int.int_left_shift destination operand1 operand2);
    int_right_shift = λ destination operand1 operand2.
        forgive (int.int_right_shift destination operand1 operand2);
    int_sright_shift = λ destination operand1 operand2.
        forgive (int.int_sright_shift destination operand1 operand2);
    int_mul = λ destination operand1 operand2. forgive (int.int_mul destination operand1 operand2);
    int_div = λ destination operand1 operand2. forgive (int.int_div destination operand1 operand2);
    int_sdiv =
        λ destination operand1 operand2. forgive (int.int_sdiv destination operand1 operand2);
    int_rem = λ destination operand1 operand2. forgive (int.int_rem destination operand1 operand2);
    int_srem =
        λ destination operand1 operand2. forgive (int.int_srem destination operand1 operand2);
    bool_not = λ destination operand. forgive (int.bool_not destination operand);
    bool_xor =
        λ destination operand1 operand2. forgive (int.bool_xor destination operand1 operand2);
    bool_and =
        λ destination operand1 operand2. forgive (int.bool_and destination operand1 operand2);
    bool_or = λ destination operand1 operand2. forgive (int.bool_or destination operand1 operand2);
    float_eq =
        λ destination operand1 operand2. forgive (int.float_eq destination operand1 operand2);
    float_not_eq =
        λ destination operand1 operand2. forgive (int.float_not_eq destination operand1 operand2);
    float_less =
        λ destination operand1 operand2. forgive (int.float_less destination operand1 operand2);
    float_less_eq =
        λ destination operand1 operand2. forgive (int.float_less_eq destination operand1 operand2);
    float_is_nan = λ destination operand. forgive (int.float_is_nan destination operand);
    float_add =
        λ destination operand1 operand2. forgive (int.float_add destination operand1 operand2);
    float_div =
        λ destination operand1 operand2. forgive (int.float_div destination operand1 operand2);
    float_mul =
        λ destination operand1 operand2. forgive (int.float_mul destination operand1 operand2);
    float_sub =
        λ destination operand1 operand2. forgive (int.float_sub destination operand1 operand2);
    float_neg = λ destination operand. forgive (int.float_neg destination operand);
    float_abs = λ destination operand. forgive (int.float_abs destination operand);
    float_sqrt = λ destination operand. forgive (int.float_sqrt destination operand);
    float_of_int = λ destination operand. forgive (int.float_of_int destination operand);
    float_of_float = λ destination operand. forgive (int.float_of_float destination operand);
    float_truncate = λ destination operand. forgive (int.float_truncate destination operand);
    float_ceiling = λ destination operand. forgive (int.float_ceiling destination operand);
    float_floor = λ destination operand. forgive (int.float_floor destination operand);
    float_round = λ destination operand. forgive (int.float_round destination operand);
    subpiece = λ destination operand amount. forgive (int.subpiece destination operand amount);
    pop_count = λ destination operand. forgive (int.pop_count destination operand);
    skip = forgive int.skip;
    lift = int.lift;
    operation = int.operation;
    interpreter_space = int.interpreter_space;
  }

  dispatch-forgiving :
      (op : PCodeOp V Sp N) (i : I) → dispatch forgiving op i ≡ forgive (dispatch int op) i
  unfolding dispatch forgiving
  dispatch-forgiving (PCodeOp.copy source destination) i = refl
  dispatch-forgiving (PCodeOp.load source destination space) i = refl
  dispatch-forgiving (PCodeOp.store source destination space) i = refl
  dispatch-forgiving (PCodeOp.branch destination) i = refl
  dispatch-forgiving (PCodeOp.cbranch destination condition) i = refl
  dispatch-forgiving (PCodeOp.ibranch destination) i = refl
  dispatch-forgiving (PCodeOp.call destination) i = refl
  dispatch-forgiving (PCodeOp.icall destination) i = refl
  dispatch-forgiving (PCodeOp.intrinsic name operands result) i = refl
  dispatch-forgiving (PCodeOp.return_ destination) i = refl
  dispatch-forgiving (PCodeOp.int_eq result operand1 operand2) i = refl
  dispatch-forgiving (PCodeOp.int_not_eq result operand1 operand2) i = refl
  dispatch-forgiving (PCodeOp.int_less result operand1 operand2) i = refl
  dispatch-forgiving (PCodeOp.int_less_eq result operand1 operand2) i = refl
  dispatch-forgiving (PCodeOp.int_sless result operand1 operand2) i = refl
  dispatch-forgiving (PCodeOp.int_sless_eq result operand1 operand2) i = refl
  dispatch-forgiving (PCodeOp.int_zext result operand) i = refl
  dispatch-forgiving (PCodeOp.int_sext result operand) i = refl
  dispatch-forgiving (PCodeOp.int_add result operand1 operand2) i = refl
  dispatch-forgiving (PCodeOp.int_sub result operand1 operand2) i = refl
  dispatch-forgiving (PCodeOp.int_carry result operand1 operand2) i = refl
  dispatch-forgiving (PCodeOp.int_scarry result operand1 operand2) i = refl
  dispatch-forgiving (PCodeOp.int_sborrow result operand1 operand2) i = refl
  dispatch-forgiving (PCodeOp.int_neg result operand) i = refl
  dispatch-forgiving (PCodeOp.int_not result operand) i = refl
  dispatch-forgiving (PCodeOp.int_xor result operand1 operand2) i = refl
  dispatch-forgiving (PCodeOp.int_and result operand1 operand2) i = refl
  dispatch-forgiving (PCodeOp.int_or result operand1 operand2) i = refl
  dispatch-forgiving (PCodeOp.int_left_shift result operand1 operand2) i = refl
  dispatch-forgiving (PCodeOp.int_right_shift result operand1 operand2) i = refl
  dispatch-forgiving (PCodeOp.int_sright_shift result operand1 operand2) i = refl
  dispatch-forgiving (PCodeOp.int_mul result operand1 operand2) i = refl
  dispatch-forgiving (PCodeOp.int_div result operand1 operand2) i = refl
  dispatch-forgiving (PCodeOp.int_sdiv result operand1 operand2) i = refl
  dispatch-forgiving (PCodeOp.int_rem result operand1 operand2) i = refl
  dispatch-forgiving (PCodeOp.int_srem result operand1 operand2) i = refl
  dispatch-forgiving (PCodeOp.bool_not result operand) i = refl
  dispatch-forgiving (PCodeOp.bool_xor result operand1 operand2) i = refl
  dispatch-forgiving (PCodeOp.bool_and result operand1 operand2) i = refl
  dispatch-forgiving (PCodeOp.bool_or result operand1 operand2) i = refl
  dispatch-forgiving (PCodeOp.float_eq result operand1 operand2) i = refl
  dispatch-forgiving (PCodeOp.float_not_eq result operand1 operand2) i = refl
  dispatch-forgiving (PCodeOp.float_less result operand1 operand2) i = refl
  dispatch-forgiving (PCodeOp.float_less_eq result operand1 operand2) i = refl
  dispatch-forgiving (PCodeOp.float_is_nan result operand) i = refl
  dispatch-forgiving (PCodeOp.float_add result operand1 operand2) i = refl
  dispatch-forgiving (PCodeOp.float_div result operand1 operand2) i = refl
  dispatch-forgiving (PCodeOp.float_mul result operand1 operand2) i = refl
  dispatch-forgiving (PCodeOp.float_sub result operand1 operand2) i = refl
  dispatch-forgiving (PCodeOp.float_neg result operand) i = refl
  dispatch-forgiving (PCodeOp.float_abs result operand) i = refl
  dispatch-forgiving (PCodeOp.float_sqrt result operand) i = refl
  dispatch-forgiving (PCodeOp.float_of_int result operand) i = refl
  dispatch-forgiving (PCodeOp.float_of_float result operand) i = refl
  dispatch-forgiving (PCodeOp.float_truncate result operand) i = refl
  dispatch-forgiving (PCodeOp.float_ceiling result operand) i = refl
  dispatch-forgiving (PCodeOp.float_floor result operand) i = refl
  dispatch-forgiving (PCodeOp.float_round result operand) i = refl
  dispatch-forgiving (PCodeOp.subpiece result operand amount) i = refl
  dispatch-forgiving (PCodeOp.pop_count result operand) i = refl
  dispatch-forgiving PCodeOp.skip i = refl

  module _ (ir : IrOps A L) where
    after-forgiven :
        (m : Machine I A (PCodeOp V Sp N)) (r : Result E (Outcome A R))
        → m.ignore_errors ≡ true
        → after ir int m r ≡ after ir forgiving m (forgiven r)
    unfolding after settle
    after-forgiven m (err e) flag = rw (flag, after) refl
    after-forgiven m panic flag = refl
    after-forgiven m (ok (Outcome.halt o)) flag = refl
    after-forgiven m (ok (Outcome.branch b)) flag = refl

    observed-forgiving :
        (m : Machine I A (PCodeOp V Sp N)) (op : PCodeOp V Sp N)
        (r : Result E (OrOutcome L (Unit {0}) R))
        → m.ignore_errors ≡ true
        → observed ir int m op r ≡ observed ir forgiving m op r
    unfolding observed with_interpreter
    observed-forgiving m op (err e) flag = refl
    observed-forgiving m op panic flag = refl
    observed-forgiving m op (ok (OrOutcome.branch l)) flag = refl
    observed-forgiving m op (ok (OrOutcome.halt o)) flag = refl
    observed-forgiving m op (ok (OrOutcome.continue u)) flag =
        after-forgiven (with_interpreter m (dispatch int op m.interpreter).0)
          (dispatch int op m.interpreter).1 flag
        ∙ ap (λ (q : I × Result E (Outcome A R)). after ir forgiving (with_interpreter m q.0) q.1)
            (sym (dispatch-forgiving op m.interpreter))

    entered-forgiving :
        (m : Machine I A (PCodeOp V Sp N)) (l : L)
        (r : Result E (OrOutcome L (StepState A (PCodeOp V Sp N)) R))
        → entered ir int m l r ≡ entered ir forgiving m l r
    unfolding entered
    entered-forgiving m l (err e) = refl
    entered-forgiving m l panic = refl
    entered-forgiving m l (ok (OrOutcome.branch l')) = refl
    entered-forgiving m l (ok (OrOutcome.halt o)) = refl
    entered-forgiving m l (ok (OrOutcome.continue s)) = refl

    turn-forgiving :
        (m : Machine I A (PCodeOp V Sp N)) (c : Control L)
        → m.ignore_errors ≡ true
        → turn ir int m c ≡ turn ir forgiving m c
    unfolding turn forgiving with_interpreter
    turn-forgiving m (enter l) flag = entered-forgiving _ l _
    turn-forgiving m operations flag = elim (Option-cases (current ir m.step_state)) [
      | inl e ↦ rw (e, turn) refl
      | inr (op, e) ↦
          rw (e, turn)
            (observed-forgiving
              (with_interpreter m (int.operation (location ir m.step_state) op m.interpreter).0) op
              (int.operation (location ir m.step_state) op m.interpreter).1 flag)
    ]

    abbrev Ran : Type 0
    Ran = Option (Machine I A (PCodeOp V Sp N) × Result E (StepOutcome A R))

    proceed-same :
        (f g : Machine I A (PCodeOp V Sp N) → Control L → Ran)
        (q : Machine I A (PCodeOp V Sp N) × Progress E R A L)
        → Proper ir int true q
        → ((m : Machine I A (PCodeOp V Sp N)) (c : Control L)
            → m.ignore_errors ≡ true
            → f m c ≡ g m c)
        → proceed f q ≡ proceed g q
    unfolding proceed
    proceed-same f g (m, again c) flag same = same m c flag
    proceed-same f g (m, done r) flag same = refl

    drive-forgiving :
        (n : ℕ) (m : Machine I A (PCodeOp V Sp N)) (c : Control L)
        → m.ignore_errors ≡ true
        → drive ir int n m c ≡ drive ir forgiving n m c
    unfolding drive
    drive-forgiving zero m c flag = refl
    drive-forgiving (suc n) m c flag =
        proceed-same (drive ir int n) (drive ir forgiving n) (turn ir int m c)
          (turn-Proper ir int true m c flag) (λ m' c'. drive-forgiving n m' c')
        ∙ ap (proceed (drive ir forgiving n)) (turn-forgiving m c flag)

    -- With the flag `ignore_errors` set, `step` does the same as on the interpreter whose
    -- operations change the same but, where they would return an error, branch to the next
    -- operation. Errors of `lift` and of the `operation` callback, halts, panics and running out
    -- of rounds are as before.
    pub step_ignoring :
        (fuel : ℕ) (m : Machine I A (PCodeOp V Sp N)) (l : L)
        → m.ignore_errors ≡ true
        → step ir int fuel m l ≡ step ir forgiving fuel m l
    unfolding step
    step_ignoring fuel m l flag = drive-forgiving fuel m (enter l) flag
