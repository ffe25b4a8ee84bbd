-- ===== src/Concrete/Instance.antt =====
-- `impl Interpreter for ConcreteContext`: the interpreter that the machine runs.
use fuguex_core.Prelude.{ℕ}
use fuguex_core.Address.{AddressOps}
use fuguex_core.Paths.{HookError}
use fuguex_core.Intrinsics
use fuguex_core.Intrinsics.{KeyOps, IntrinsicBehaviour}
use fuguex_core.Machine.Types.{StepState}
use fuguex_core.Machine.Interpreter.{PCodeOp, Interpreter, skip_default}
use fuguex_core.PCode
use fuguex_core.PCode.Bytes.{Operand, ByteOps}
use fuguex_core.Concrete.Hooks.{HookConcrete}
use fuguex_core.Concrete.Store.{Store, TranslatorOps, BoolBytes}
use fuguex_core.Concrete.Context.{Error, ConcreteContext}
use fuguex_core.Concrete.Branches
use fuguex_core.Concrete.Lifting.{BitVecOps, FormatOps}
use fuguex_core.Concrete.Integers
use fuguex_core.Concrete.Floats
use fuguex_core.Concrete.Operations
use fuguex_core.Concrete.Operations.{SubpieceOps}

module _ {X P H N B R T L V F M : Type 0} ⦃ir : AddressOps⦄ ⦃bytes : ByteOps⦄ ⦃bools : BoolBytes⦄
    ⦃keys : KeyOps N⦄ (store : Store P)
    (hk : HookConcrete H P
      (HookError PCode.Error X)
      R
      L
      (PCodeOp Operand ℕ N)
      (StepState ℕ (PCodeOp Operand ℕ N)))
    (translator : TranslatorOps T X (StepState ℕ (PCodeOp Operand ℕ N))) (operand_size : ℕ)
    (bv : BitVecOps V) (fp : FormatOps V F M X) (order : SubpieceOps)
    (behaviours : IntrinsicBehaviour B P Operand N ℕ R (Intrinsics.Error PCode.Error X)) where
  unfoldable pub concrete :
      Interpreter
        (ConcreteContext P H N B R (StepState ℕ (PCodeOp Operand ℕ N)) T)
        (Error X)
        R
        ℕ
        L
        Operand
        ℕ
        N
        ℕ
  concrete = record {
    fork = Operations.fork store translator;
    restore = Operations.restore store;
    copy = Operations.copy store hk operand_size;
    load = Operations.load store hk operand_size translator;
    store = Operations.store_operand store hk operand_size translator;
    branch = Branches.branch store hk translator;
    cbranch = Branches.cbranch store hk translator;
    ibranch = Branches.ibranch store hk translator;
    call = Branches.call store hk translator;
    icall = Branches.icall store hk translator;
    intrinsic = Operations.intrinsic store hk operand_size behaviours;
    return_ = Branches.return_ store hk translator;
    int_eq = Integers.int_eq store hk operand_size bv;
    int_not_eq = Integers.int_not_eq store hk operand_size bv;
    int_less = Integers.int_less store hk operand_size bv;
    int_less_eq = Integers.int_less_eq store hk operand_size bv;
    int_sless = Integers.int_sless store hk operand_size bv;
    int_sless_eq = Integers.int_sless_eq store hk operand_size bv;
    int_zext = Integers.int_zext store hk operand_size bv;
    int_sext = Integers.int_sext store hk operand_size bv;
    int_add = Integers.int_add store hk operand_size bv;
    int_sub = Integers.int_sub store hk operand_size bv;
    int_carry = Integers.int_carry store hk operand_size bv;
    int_scarry = Integers.int_scarry store hk operand_size bv;
    int_sborrow = Integers.int_sborrow store hk operand_size bv;
    int_neg = Integers.int_neg store hk operand_size bv;
    int_not = Integers.int_not store hk operand_size bv;
    int_xor = Integers.int_xor store hk operand_size bv;
    int_and = Integers.int_and store hk operand_size bv;
    int_or = Integers.int_or store hk operand_size bv;
    int_left_shift = Integers.int_left_shift store hk operand_size bv;
    int_right_shift = Integers.int_right_shift store hk operand_size bv;
    int_sright_shift = Integers.int_sright_shift store hk operand_size bv;
    int_mul = Integers.int_mul store hk operand_size bv;
    int_div = Integers.int_div store hk operand_size bv;
    int_sdiv = Integers.int_sdiv store hk operand_size bv;
    int_rem = Integers.int_rem store hk operand_size bv;
    int_srem = Integers.int_srem store hk operand_size bv;
    bool_not = Integers.bool_not store hk operand_size;
    bool_xor = Integers.bool_xor store hk operand_size;
    bool_and = Integers.bool_and store hk operand_size;
    bool_or = Integers.bool_or store hk operand_size;
    float_eq = Floats.float_eq store hk operand_size bv fp;
    float_not_eq = Floats.float_not_eq store hk operand_size bv fp;
    float_less = Floats.float_less store hk operand_size bv fp;
    float_less_eq = Floats.float_less_eq store hk operand_size bv fp;
    float_is_nan = Floats.float_is_nan store hk operand_size bv fp;
    float_add = Floats.float_add store hk operand_size bv fp;
    float_div = Floats.float_div store hk operand_size bv fp;
    float_mul = Floats.float_mul store hk operand_size bv fp;
    float_sub = Floats.float_sub store hk operand_size bv fp;
    float_neg = Floats.float_neg store hk operand_size bv fp;
    float_abs = Floats.float_abs store hk operand_size bv fp;
    float_sqrt = Floats.float_sqrt store hk operand_size bv fp;
    float_of_int = Floats.float_of_int store hk operand_size bv fp;
    float_of_float = Floats.float_of_float store hk operand_size bv fp;
    float_truncate = Floats.float_truncate store hk operand_size bv fp;
    float_ceiling = Floats.float_ceiling store hk operand_size bv fp;
    float_floor = Floats.float_floor store hk operand_size bv fp;
    float_round = Floats.float_round store hk operand_size bv fp;
    subpiece = Operations.subpiece store hk operand_size bv order;
    pop_count = Integers.pop_count store hk operand_size bv;
    skip = skip_default;
    lift = Operations.lift store hk operand_size translator;
    operation = Operations.operation store hk operand_size;
    interpreter_space = λ c. store.memory_space c.state;
  }
