-- ===== src/Machine/Interpreter.antt =====
-- `trait Interpreter` of fuguex-machine/src/traits.rs, and the operations that the machine tells
-- apart. The enum `PCodeOp` is the fugue crate's; its constructors and their fields are those that
-- the exhaustive match of `Machine::step` names.
use fuguex_core.Prelude.{List, Option, Result, ok}
use fuguex_core.Machine.Types.{Outcome, OrOutcome, continue, next, StepState}

-- operands `V`, address space ids `Sp`, and names `N` of intrinsics
pub data PCodeOp (V Sp N : Type 0) : Type 0 where
  copy : (source : V) (destination : V) → PCodeOp V Sp N
  load : (source : V) (destination : V) (space : Sp) → PCodeOp V Sp N
  store : (source : V) (destination : V) (space : Sp) → PCodeOp V Sp N
  branch : (destination : V) → PCodeOp V Sp N
  cbranch : (destination : V) (condition : V) → PCodeOp V Sp N
  ibranch : (destination : V) → PCodeOp V Sp N
  call : (destination : V) → PCodeOp V Sp N
  icall : (destination : V) → PCodeOp V Sp N
  intrinsic : (name : N) (operands : List V) (result : Option V) → PCodeOp V Sp N
  return_ : (destination : V) → PCodeOp V Sp N
  int_eq : (result : V) (operand1 : V) (operand2 : V) → PCodeOp V Sp N
  int_not_eq : (result : V) (operand1 : V) (operand2 : V) → PCodeOp V Sp N
  int_less : (result : V) (operand1 : V) (operand2 : V) → PCodeOp V Sp N
  int_less_eq : (result : V) (operand1 : V) (operand2 : V) → PCodeOp V Sp N
  int_sless : (result : V) (operand1 : V) (operand2 : V) → PCodeOp V Sp N
  int_sless_eq : (result : V) (operand1 : V) (operand2 : V) → PCodeOp V Sp N
  int_zext : (result : V) (operand : V) → PCodeOp V Sp N
  int_sext : (result : V) (operand : V) → PCodeOp V Sp N
  int_add : (result : V) (operand1 : V) (operand2 : V) → PCodeOp V Sp N
  int_sub : (result : V) (operand1 : V) (operand2 : V) → PCodeOp V Sp N
  int_carry : (result : V) (operand1 : V) (operand2 : V) → PCodeOp V Sp N
  int_scarry : (result : V) (operand1 : V) (operand2 : V) → PCodeOp V Sp N
  int_sborrow : (result : V) (operand1 : V) (operand2 : V) → PCodeOp V Sp N
  int_neg : (result : V) (operand : V) → PCodeOp V Sp N
  int_not : (result : V) (operand : V) → PCodeOp V Sp N
  int_xor : (result : V) (operand1 : V) (operand2 : V) → PCodeOp V Sp N
  int_and : (result : V) (operand1 : V) (operand2 : V) → PCodeOp V Sp N
  int_or : (result : V) (operand1 : V) (operand2 : V) → PCodeOp V Sp N
  int_left_shift : (result : V) (operand1 : V) (operand2 : V) → PCodeOp V Sp N
  int_right_shift : (result : V) (operand1 : V) (operand2 : V) → PCodeOp V Sp N
  int_sright_shift : (result : V) (operand1 : V) (operand2 : V) → PCodeOp V Sp N
  int_mul : (result : V) (operand1 : V) (operand2 : V) → PCodeOp V Sp N
  int_div : (result : V) (operand1 : V) (operand2 : V) → PCodeOp V Sp N
  int_sdiv : (result : V) (operand1 : V) (operand2 : V) → PCodeOp V Sp N
  int_rem : (result : V) (operand1 : V) (operand2 : V) → PCodeOp V Sp N
  int_srem : (result : V) (operand1 : V) (operand2 : V) → PCodeOp V Sp N
  bool_not : (result : V) (operand : V) → PCodeOp V Sp N
  bool_xor : (result : V) (operand1 : V) (operand2 : V) → PCodeOp V Sp N
  bool_and : (result : V) (operand1 : V) (operand2 : V) → PCodeOp V Sp N
  bool_or : (result : V) (operand1 : V) (operand2 : V) → PCodeOp V Sp N
  float_eq : (result : V) (operand1 : V) (operand2 : V) → PCodeOp V Sp N
  float_not_eq : (result : V) (operand1 : V) (operand2 : V) → PCodeOp V Sp N
  float_less : (result : V) (operand1 : V) (operand2 : V) → PCodeOp V Sp N
  float_less_eq : (result : V) (operand1 : V) (operand2 : V) → PCodeOp V Sp N
  float_is_nan : (result : V) (operand : V) → PCodeOp V Sp N
  float_add : (result : V) (operand1 : V) (operand2 : V) → PCodeOp V Sp N
  float_div : (result : V) (operand1 : V) (operand2 : V) → PCodeOp V Sp N
  float_mul : (result : V) (operand1 : V) (operand2 : V) → PCodeOp V Sp N
  float_sub : (result : V) (operand1 : V) (operand2 : V) → PCodeOp V Sp N
  float_neg : (result : V) (operand : V) → PCodeOp V Sp N
  float_abs : (result : V) (operand : V) → PCodeOp V Sp N
  float_sqrt : (result : V) (operand : V) → PCodeOp V Sp N
  float_of_int : (result : V) (operand : V) → PCodeOp V Sp N
  float_of_float : (result : V) (operand : V) → PCodeOp V Sp N
  float_truncate : (result : V) (operand : V) → PCodeOp V Sp N
  float_ceiling : (result : V) (operand : V) → PCodeOp V Sp N
  float_floor : (result : V) (operand : V) → PCodeOp V Sp N
  float_round : (result : V) (operand : V) → PCodeOp V Sp N
  subpiece : (result : V) (operand : V) (amount : V) → PCodeOp V Sp N
  pop_count : (result : V) (operand : V) → PCodeOp V Sp N
  skip : PCodeOp V Sp N

-- the effect of a `&mut self` operation
abbrev pub Action : (I E R A : Type 0) → Type 0
Action I E R A = I → I × Result E (Outcome A R)

-- `fork` takes `&self`, `restore` the interpreter to restore and the one to restore from; `none` is a
-- panic.
pub record Interpreter (I E R A L V Sp N Space : Type 0) : Type 0 where
  pub fork : I → Option I
  pub restore : I → I → Option I
  pub copy : (source : V) (destination : V) → Action I E R A
  pub load : (source : V) (destination : V) (space : Sp) → Action I E R A
  pub store : (source : V) (destination : V) (space : Sp) → Action I E R A
  pub branch : (destination : V) → Action I E R A
  pub cbranch : (destination : V) (condition : V) → Action I E R A
  pub ibranch : (destination : V) → Action I E R A
  pub call : (destination : V) → Action I E R A
  pub icall : (destination : V) → Action I E R A
  pub intrinsic : (name : N) (operands : List V) (result : Option V) → Action I E R A
  pub return_ : (destination : V) → Action I E R A
  pub int_eq : (destination : V) (operand1 : V) (operand2 : V) → Action I E R A
  pub int_not_eq : (destination : V) (operand1 : V) (operand2 : V) → Action I E R A
  pub int_less : (destination : V) (operand1 : V) (operand2 : V) → Action I E R A
  pub int_less_eq : (destination : V) (operand1 : V) (operand2 : V) → Action I E R A
  pub int_sless : (destination : V) (operand1 : V) (operand2 : V) → Action I E R A
  pub int_sless_eq : (destination : V) (operand1 : V) (operand2 : V) → Action I E R A
  pub int_zext : (destination : V) (operand : V) → Action I E R A
  pub int_sext : (destination : V) (operand : V) → Action I E R A
  pub int_add : (destination : V) (operand1 : V) (operand2 : V) → Action I E R A
  pub int_sub : (destination : V) (operand1 : V) (operand2 : V) → Action I E R A
  pub int_carry : (destination : V) (operand1 : V) (operand2 : V) → Action I E R A
  pub int_scarry : (destination : V) (operand1 : V) (operand2 : V) → Action I E R A
  pub int_sborrow : (destination : V) (operand1 : V) (operand2 : V) → Action I E R A
  pub int_neg : (destination : V) (operand : V) → Action I E R A
  pub int_not : (destination : V) (operand : V) → Action I E R A
  pub int_xor : (destination : V) (operand1 : V) (operand2 : V) → Action I E R A
  pub int_and : (destination : V) (operand1 : V) (operand2 : V) → Action I E R A
  pub int_or : (destination : V) (operand1 : V) (operand2 : V) → Action I E R A
  pub int_left_shift : (destination : V) (operand1 : V) (operand2 : V) → Action I E R A
  pub int_right_shift : (destination : V) (operand1 : V) (operand2 : V) → Action I E R A
  pub int_sright_shift : (destination : V) (operand1 : V) (operand2 : V) → Action I E R A
  pub int_mul : (destination : V) (operand1 : V) (operand2 : V) → Action I E R A
  pub int_div : (destination : V) (operand1 : V) (operand2 : V) → Action I E R A
  pub int_sdiv : (destination : V) (operand1 : V) (operand2 : V) → Action I E R A
  pub int_rem : (destination : V) (operand1 : V) (operand2 : V) → Action I E R A
  pub int_srem : (destination : V) (operand1 : V) (operand2 : V) → Action I E R A
  pub bool_not : (destination : V) (operand : V) → Action I E R A
  pub bool_xor : (destination : V) (operand1 : V) (operand2 : V) → Action I E R A
  pub bool_and : (destination : V) (operand1 : V) (operand2 : V) → Action I E R A
  pub bool_or : (destination : V) (operand1 : V) (operand2 : V) → Action I E R A
  pub float_eq : (destination : V) (operand1 : V) (operand2 : V) → Action I E R A
  pub float_not_eq : (destination : V) (operand1 : V) (operand2 : V) → Action I E R A
  pub float_less : (destination : V) (operand1 : V) (operand2 : V) → Action I E R A
  pub float_less_eq : (destination : V) (operand1 : V) (operand2 : V) → Action I E R A
  pub float_is_nan : (destination : V) (operand : V) → Action I E R A
  pub float_add : (destination : V) (operand1 : V) (operand2 : V) → Action I E R A
  pub float_div : (destination : V) (operand1 : V) (operand2 : V) → Action I E R A
  pub float_mul : (destination : V) (operand1 : V) (operand2 : V) → Action I E R A
  pub float_sub : (destination : V) (operand1 : V) (operand2 : V) → Action I E R A
  pub float_neg : (destination : V) (operand : V) → Action I E R A
  pub float_abs : (destination : V) (operand : V) → Action I E R A
  pub float_sqrt : (destination : V) (operand : V) → Action I E R A
  pub float_of_int : (destination : V) (operand : V) → Action I E R A
  pub float_of_float : (destination : V) (operand : V) → Action I E R A
  pub float_truncate : (destination : V) (operand : V) → Action I E R A
  pub float_ceiling : (destination : V) (operand : V) → Action I E R A
  pub float_floor : (destination : V) (operand : V) → Action I E R A
  pub float_round : (destination : V) (operand : V) → Action I E R A
  pub subpiece : (destination : V) (operand : V) (amount : V) → Action I E R A
  pub pop_count : (destination : V) (operand : V) → Action I E R A
  pub skip : Action I E R A
  pub lift : A → I → I × Result E (OrOutcome L (StepState A (PCodeOp V Sp N)) R)
  pub operation : L → PCodeOp V Sp N → I → I × Result E (OrOutcome L (Unit {0}) R)
  pub interpreter_space : I → Space

-- the methods that the trait itself provides
unfoldable pub skip_default : {I E R A : Type 0} → Action I E R A
skip_default i = (i, ok (Outcome.branch next))

unfoldable pub operation_default :
    {I E R L Op : Type 0} → L → Op → I → I × Result E (OrOutcome L (Unit {0}) R)
operation_default location op i = (i, ok (continue tt))

-- the match of `Machine::step` on the operation
module _ {I E R A L V Sp N Space : Type 0} (int : Interpreter I E R A L V Sp N Space) where
  unfoldable pub dispatch : PCodeOp V Sp N → Action I E R A
  dispatch (PCodeOp.copy source destination) = int.copy source destination
  dispatch (PCodeOp.load source destination space) = int.load source destination space
  dispatch (PCodeOp.store source destination space) = int.store source destination space
  dispatch (PCodeOp.branch destination) = int.branch destination
  dispatch (PCodeOp.cbranch destination condition) = int.cbranch destination condition
  dispatch (PCodeOp.ibranch destination) = int.ibranch destination
  dispatch (PCodeOp.call destination) = int.call destination
  dispatch (PCodeOp.icall destination) = int.icall destination
  dispatch (PCodeOp.intrinsic name operands result) = int.intrinsic name operands result
  dispatch (PCodeOp.return_ destination) = int.return_ destination
  dispatch (PCodeOp.int_eq result operand1 operand2) = int.int_eq result operand1 operand2
  dispatch (PCodeOp.int_not_eq result operand1 operand2) = int.int_not_eq result operand1 operand2
  dispatch (PCodeOp.int_less result operand1 operand2) = int.int_less result operand1 operand2
  dispatch (PCodeOp.int_less_eq result operand1 operand2) = int.int_less_eq result operand1 operand2
  dispatch (PCodeOp.int_sless result operand1 operand2) = int.int_sless result operand1 operand2
  dispatch (PCodeOp.int_sless_eq result operand1 operand2) =
      int.int_sless_eq result operand1 operand2
  dispatch (PCodeOp.int_zext result operand) = int.int_zext result operand
  dispatch (PCodeOp.int_sext result operand) = int.int_sext result operand
  dispatch (PCodeOp.int_add result operand1 operand2) = int.int_add result operand1 operand2
  dispatch (PCodeOp.int_sub result operand1 operand2) = int.int_sub result operand1 operand2
  dispatch (PCodeOp.int_carry result operand1 operand2) = int.int_carry result operand1 operand2
  dispatch (PCodeOp.int_scarry result operand1 operand2) = int.int_scarry result operand1 operand2
  dispatch (PCodeOp.int_sborrow result operand1 operand2) = int.int_sborrow result operand1 operand2
  dispatch (PCodeOp.int_neg result operand) = int.int_neg result operand
  dispatch (PCodeOp.int_not result operand) = int.int_not result operand
  dispatch (PCodeOp.int_xor result operand1 operand2) = int.int_xor result operand1 operand2
  dispatch (PCodeOp.int_and result operand1 operand2) = int.int_and result operand1 operand2
  dispatch (PCodeOp.int_or result operand1 operand2) = int.int_or result operand1 operand2
  dispatch (PCodeOp.int_left_shift result operand1 operand2) =
      int.int_left_shift result operand1 operand2
  dispatch (PCodeOp.int_right_shift result operand1 operand2) =
      int.int_right_shift result operand1 operand2
  dispatch (PCodeOp.int_sright_shift result operand1 operand2) =
      int.int_sright_shift result operand1 operand2
  dispatch (PCodeOp.int_mul result operand1 operand2) = int.int_mul result operand1 operand2
  dispatch (PCodeOp.int_div result operand1 operand2) = int.int_div result operand1 operand2
  dispatch (PCodeOp.int_sdiv result operand1 operand2) = int.int_sdiv result operand1 operand2
  dispatch (PCodeOp.int_rem result operand1 operand2) = int.int_rem result operand1 operand2
  dispatch (PCodeOp.int_srem result operand1 operand2) = int.int_srem result operand1 operand2
  dispatch (PCodeOp.bool_not result operand) = int.bool_not result operand
  dispatch (PCodeOp.bool_xor result operand1 operand2) = int.bool_xor result operand1 operand2
  dispatch (PCodeOp.bool_and result operand1 operand2) = int.bool_and result operand1 operand2
  dispatch (PCodeOp.bool_or result operand1 operand2) = int.bool_or result operand1 operand2
  dispatch (PCodeOp.float_eq result operand1 operand2) = int.float_eq result operand1 operand2
  dispatch (PCodeOp.float_not_eq result operand1 operand2) =
      int.float_not_eq result operand1 operand2
  dispatch (PCodeOp.float_less result operand1 operand2) = int.float_less result operand1 operand2
  dispatch (PCodeOp.float_less_eq result operand1 operand2) =
      int.float_less_eq result operand1 operand2
  dispatch (PCodeOp.float_is_nan result operand) = int.float_is_nan result operand
  dispatch (PCodeOp.float_add result operand1 operand2) = int.float_add result operand1 operand2
  dispatch (PCodeOp.float_div result operand1 operand2) = int.float_div result operand1 operand2
  dispatch (PCodeOp.float_mul result operand1 operand2) = int.float_mul result operand1 operand2
  dispatch (PCodeOp.float_sub result operand1 operand2) = int.float_sub result operand1 operand2
  dispatch (PCodeOp.float_neg result operand) = int.float_neg result operand
  dispatch (PCodeOp.float_abs result operand) = int.float_abs result operand
  dispatch (PCodeOp.float_sqrt result operand) = int.float_sqrt result operand
  dispatch (PCodeOp.float_of_int result operand) = int.float_of_int result operand
  dispatch (PCodeOp.float_of_float result operand) = int.float_of_float result operand
  dispatch (PCodeOp.float_truncate result operand) = int.float_truncate result operand
  dispatch (PCodeOp.float_ceiling result operand) = int.float_ceiling result operand
  dispatch (PCodeOp.float_floor result operand) = int.float_floor result operand
  dispatch (PCodeOp.float_round result operand) = int.float_round result operand
  dispatch (PCodeOp.subpiece result operand amount) = int.subpiece result operand amount
  dispatch (PCodeOp.pop_count result operand) = int.pop_count result operand
  dispatch PCodeOp.skip = int.skip
