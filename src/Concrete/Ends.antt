-- ===== src/Concrete/Ends.antt =====
-- How long the machine runs this interpreter.
use fuguex_core.Prelude.{ℕ, suc, ◌≤◌, ◌≡◌, length, some, Result, ok}
use fuguex_core.Address.{AddressOps}
use fuguex_core.Paths.{HookError}
use fuguex_core.Intrinsics
use fuguex_core.Intrinsics.{KeyOps, IntrinsicBehaviour}
use fuguex_core.Machine.Types.{IrOps, Outcome, OrOutcome, StepOutcome, StepState}
use fuguex_core.Machine.Interpreter.{PCodeOp, dispatch, skip_default}
use fuguex_core.Machine.Engine.{Machine, step}
use fuguex_core.Machine.Engine.Total.{isize_limit, IsForward, AllOf, MovesOn, step_ends}
use fuguex_core.PCode
use fuguex_core.PCode.Bytes.{Operand, ByteOps}
use fuguex_core.Concrete.Hooks.{HookConcrete}
use fuguex_core.Concrete.Store.{Store, TranslatorOps, BoolBytes}
use fuguex_core.Concrete.Context.{Error, ConcreteContext, ◌>>◌, change, notify}
use fuguex_core.Concrete.Lifting.{BitVecOps, FormatOps}
use fuguex_core.Concrete.Operations.{SubpieceOps, lifted, lift, operation}
use fuguex_core.Concrete.Integers
use fuguex_core.Concrete.Floats
use fuguex_core.Concrete.Instance.{concrete}
use fuguex_core.Concrete.Forward.{
  IsOnward, LeadsForward, pure-Gives, bind-Gives, Gives, Onward, lift_int1-Onward, lift_int2-Onward,
  lift_float1-Onward, lift_float2-Onward, lift_bool1-Onward, lift_bool2-Onward, copy-Onward,
  load-Onward, store_operand-Onward, subpiece-Onward,
}
use fuguex_core.Concrete.Targets.{
  branch-Onward, cbranch-Onward, call-Onward, icall-Onward, return_-Onward, ibranch-Onward,
  intrinsic-Onward, float_of_int-Onward, float_of_float-Onward,
}

-- an operation that branches nowhere but forward in its instruction, or out of it
unfoldable pub IsForwardOp : {N : Type 0} → PCodeOp Operand ℕ N → Type 0
IsForwardOp (PCodeOp.branch destination) = LeadsForward destination
IsForwardOp (PCodeOp.cbranch destination condition) = LeadsForward destination
IsForwardOp _ = Unit {0}

-- what `lift` and `operation` give where they let the machine go on
unfoldable StaysHere : {L S R : Type 0} → OrOutcome L S R → Type 0
StaysHere (OrOutcome.branch l) = ⊥
StaysHere (OrOutcome.halt r) = Unit {0}
StaysHere (OrOutcome.continue s) = Unit {0}

module _ {X P H N B R T L V F M : Type 0} ⦃ir : AddressOps⦄ ⦃bytes : ByteOps⦄ ⦃bools : BoolBytes⦄
    ⦃keys : KeyOps N⦄ (store : Store P)
    (hk : HookConcrete H P
      (HookError PCode.Error X)
      R
      L
      (PCodeOp Operand ℕ N)
      (StepState ℕ (PCodeOp Operand ℕ N)))
    (translator : TranslatorOps T X (StepState ℕ (PCodeOp Operand ℕ N))) (operand_size : ℕ)
    (bv : BitVecOps V) (fp : FormatOps V F M X) (order : SubpieceOps)
    (behaviours : IntrinsicBehaviour B P Operand N ℕ R (Intrinsics.Error PCode.Error X)) where
  abbrev Program : Type 0
  Program =
      Machine (ConcreteContext P H N B R (StepState ℕ (PCodeOp Operand ℕ N)) T) ℕ
        (PCodeOp Operand ℕ N)

  dispatch-Onward :
      (op : PCodeOp Operand ℕ N)
      → IsForwardOp op
      → Onward store hk operand_size
          (dispatch (concrete store hk translator operand_size bv fp order behaviours) op)
  unfolding dispatch concrete IsForwardOp Integers.int_eq Integers.int_not_eq Integers.int_less
      Integers.int_less_eq Integers.int_sless Integers.int_sless_eq Integers.int_zext
      Integers.int_sext Integers.int_add Integers.int_sub Integers.int_carry Integers.int_scarry
      Integers.int_sborrow Integers.int_neg Integers.int_not Integers.int_xor Integers.int_and
      Integers.int_or Integers.int_left_shift Integers.int_right_shift Integers.int_sright_shift
      Integers.int_mul Integers.int_div Integers.int_sdiv Integers.int_rem Integers.int_srem
      Integers.bool_not Integers.bool_xor Integers.bool_and Integers.bool_or Floats.float_eq
      Floats.float_not_eq Floats.float_less Floats.float_less_eq Floats.float_is_nan
      Floats.float_add Floats.float_div Floats.float_mul Floats.float_sub Floats.float_neg
      Floats.float_abs Floats.float_sqrt Floats.float_truncate Floats.float_ceiling
      Floats.float_floor Floats.float_round Integers.pop_count skip_default IsOnward IsForward
  dispatch-Onward (PCodeOp.copy source destination) good =
      copy-Onward store hk operand_size source destination
  dispatch-Onward (PCodeOp.load source destination space) good =
      load-Onward store hk operand_size translator source destination space
  dispatch-Onward (PCodeOp.store source destination space) good =
      store_operand-Onward store hk operand_size translator source destination space
  dispatch-Onward (PCodeOp.branch destination) good =
      branch-Onward store hk operand_size translator destination good
  dispatch-Onward (PCodeOp.cbranch destination condition) good =
      cbranch-Onward store hk operand_size translator destination condition good
  dispatch-Onward (PCodeOp.ibranch destination) good =
      ibranch-Onward store hk operand_size translator destination
  dispatch-Onward (PCodeOp.call destination) good =
      call-Onward store hk operand_size translator destination
  dispatch-Onward (PCodeOp.icall destination) good =
      icall-Onward store hk operand_size translator destination
  dispatch-Onward (PCodeOp.intrinsic name operands result) good =
      intrinsic-Onward store hk operand_size behaviours name operands result
  dispatch-Onward (PCodeOp.return_ destination) good =
      return_-Onward store hk operand_size translator destination
  dispatch-Onward (PCodeOp.int_eq result operand1 operand2) good =
      lift_int2-Onward store hk operand_size bv _ _ _ _ _ _
  dispatch-Onward (PCodeOp.int_not_eq result operand1 operand2) good =
      lift_int2-Onward store hk operand_size bv _ _ _ _ _ _
  dispatch-Onward (PCodeOp.int_less result operand1 operand2) good =
      lift_int2-Onward store hk operand_size bv _ _ _ _ _ _
  dispatch-Onward (PCodeOp.int_less_eq result operand1 operand2) good =
      lift_int2-Onward store hk operand_size bv _ _ _ _ _ _
  dispatch-Onward (PCodeOp.int_sless result operand1 operand2) good =
      lift_int2-Onward store hk operand_size bv _ _ _ _ _ _
  dispatch-Onward (PCodeOp.int_sless_eq result operand1 operand2) good =
      lift_int2-Onward store hk operand_size bv _ _ _ _ _ _
  dispatch-Onward (PCodeOp.int_zext result operand) good =
      lift_int1-Onward store hk operand_size bv _ _ _ _ _
  dispatch-Onward (PCodeOp.int_sext result operand) good =
      lift_int1-Onward store hk operand_size bv _ _ _ _ _
  dispatch-Onward (PCodeOp.int_add result operand1 operand2) good =
      lift_int2-Onward store hk operand_size bv _ _ _ _ _ _
  dispatch-Onward (PCodeOp.int_sub result operand1 operand2) good =
      lift_int2-Onward store hk operand_size bv _ _ _ _ _ _
  dispatch-Onward (PCodeOp.int_carry result operand1 operand2) good =
      lift_int2-Onward store hk operand_size bv _ _ _ _ _ _
  dispatch-Onward (PCodeOp.int_scarry result operand1 operand2) good =
      lift_int2-Onward store hk operand_size bv _ _ _ _ _ _
  dispatch-Onward (PCodeOp.int_sborrow result operand1 operand2) good =
      lift_int2-Onward store hk operand_size bv _ _ _ _ _ _
  dispatch-Onward (PCodeOp.int_neg result operand) good =
      lift_int1-Onward store hk operand_size bv _ _ _ _ _
  dispatch-Onward (PCodeOp.int_not result operand) good =
      lift_int1-Onward store hk operand_size bv _ _ _ _ _
  dispatch-Onward (PCodeOp.int_xor result operand1 operand2) good =
      lift_int2-Onward store hk operand_size bv _ _ _ _ _ _
  dispatch-Onward (PCodeOp.int_and result operand1 operand2) good =
      lift_int2-Onward store hk operand_size bv _ _ _ _ _ _
  dispatch-Onward (PCodeOp.int_or result operand1 operand2) good =
      lift_int2-Onward store hk operand_size bv _ _ _ _ _ _
  dispatch-Onward (PCodeOp.int_left_shift result operand1 operand2) good =
      lift_int2-Onward store hk operand_size bv _ _ _ _ _ _
  dispatch-Onward (PCodeOp.int_right_shift result operand1 operand2) good =
      lift_int2-Onward store hk operand_size bv _ _ _ _ _ _
  dispatch-Onward (PCodeOp.int_sright_shift result operand1 operand2) good =
      lift_int2-Onward store hk operand_size bv _ _ _ _ _ _
  dispatch-Onward (PCodeOp.int_mul result operand1 operand2) good =
      lift_int2-Onward store hk operand_size bv _ _ _ _ _ _
  dispatch-Onward (PCodeOp.int_div result operand1 operand2) good =
      lift_int2-Onward store hk operand_size bv _ _ _ _ _ _
  dispatch-Onward (PCodeOp.int_sdiv result operand1 operand2) good =
      lift_int2-Onward store hk operand_size bv _ _ _ _ _ _
  dispatch-Onward (PCodeOp.int_rem result operand1 operand2) good =
      lift_int2-Onward store hk operand_size bv _ _ _ _ _ _
  dispatch-Onward (PCodeOp.int_srem result operand1 operand2) good =
      lift_int2-Onward store hk operand_size bv _ _ _ _ _ _
  dispatch-Onward (PCodeOp.bool_not result operand) good =
      lift_bool1-Onward store hk operand_size _ _ _
  dispatch-Onward (PCodeOp.bool_xor result operand1 operand2) good =
      lift_bool2-Onward store hk operand_size _ _ _ _
  dispatch-Onward (PCodeOp.bool_and result operand1 operand2) good =
      lift_bool2-Onward store hk operand_size _ _ _ _
  dispatch-Onward (PCodeOp.bool_or result operand1 operand2) good =
      lift_bool2-Onward store hk operand_size _ _ _ _
  dispatch-Onward (PCodeOp.float_eq result operand1 operand2) good =
      lift_float2-Onward store hk operand_size bv _ fp _ _ _ _
  dispatch-Onward (PCodeOp.float_not_eq result operand1 operand2) good =
      lift_float2-Onward store hk operand_size bv _ fp _ _ _ _
  dispatch-Onward (PCodeOp.float_less result operand1 operand2) good =
      lift_float2-Onward store hk operand_size bv _ fp _ _ _ _
  dispatch-Onward (PCodeOp.float_less_eq result operand1 operand2) good =
      lift_float2-Onward store hk operand_size bv _ fp _ _ _ _
  dispatch-Onward (PCodeOp.float_is_nan result operand) good =
      lift_float1-Onward store hk operand_size bv _ fp _ _ _
  dispatch-Onward (PCodeOp.float_add result operand1 operand2) good =
      lift_float2-Onward store hk operand_size bv _ fp _ _ _ _
  dispatch-Onward (PCodeOp.float_div result operand1 operand2) good =
      lift_float2-Onward store hk operand_size bv _ fp _ _ _ _
  dispatch-Onward (PCodeOp.float_mul result operand1 operand2) good =
      lift_float2-Onward store hk operand_size bv _ fp _ _ _ _
  dispatch-Onward (PCodeOp.float_sub result operand1 operand2) good =
      lift_float2-Onward store hk operand_size bv _ fp _ _ _ _
  dispatch-Onward (PCodeOp.float_neg result operand) good =
      lift_float1-Onward store hk operand_size bv _ fp _ _ _
  dispatch-Onward (PCodeOp.float_abs result operand) good =
      lift_float1-Onward store hk operand_size bv _ fp _ _ _
  dispatch-Onward (PCodeOp.float_sqrt result operand) good =
      lift_float1-Onward store hk operand_size bv _ fp _ _ _
  dispatch-Onward (PCodeOp.float_of_int result operand) good =
      float_of_int-Onward store hk operand_size bv fp result operand
  dispatch-Onward (PCodeOp.float_of_float result operand) good =
      float_of_float-Onward store hk operand_size bv fp result operand
  dispatch-Onward (PCodeOp.float_truncate result operand) good =
      lift_float1-Onward store hk operand_size bv _ fp _ _ _
  dispatch-Onward (PCodeOp.float_ceiling result operand) good =
      lift_float1-Onward store hk operand_size bv _ fp _ _ _
  dispatch-Onward (PCodeOp.float_floor result operand) good =
      lift_float1-Onward store hk operand_size bv _ fp _ _ _
  dispatch-Onward (PCodeOp.float_round result operand) good =
      lift_float1-Onward store hk operand_size bv _ fp _ _ _
  dispatch-Onward (PCodeOp.subpiece result operand amount) good =
      subpiece-Onward store hk operand_size bv order result operand amount
  dispatch-Onward (PCodeOp.pop_count result operand) good =
      lift_int1-Onward store hk operand_size bv _ _ _ _ _
  dispatch-Onward PCodeOp.skip good = pure-Gives IsOnward _ tt

  lift-StaysHere :
      (value : ℕ)
      → Gives StaysHere
          (lift {H = H} {N = N} {B = B} {R = R} store hk operand_size translator value)
  unfolding lift StaysHere
  lift-StaysHere value c =
      let address = ir.new (store.memory_space c.state) value in
      bind-Gives StaysHere (lifted store hk operand_size translator address) _
        (λ st.
          bind-Gives StaysHere
            (notify (λ h s. hk.hook_architectural_step h s address st)
              >> change (λ s. store.set_address s (store.program_counter s) address))
            _ (λ u. pure-Gives StaysHere _ tt))
        c

  operation-StaysHere :
      (l : L) (op : PCodeOp Operand ℕ N)
      → Gives StaysHere (operation {X = X} {N = N} {B = B} {T = T} store hk operand_size l op)
  unfolding operation StaysHere
  operation-StaysHere l op =
      bind-Gives StaysHere (notify (λ h s. hk.hook_operation_step h s l op)) _
        (λ u. pure-Gives StaysHere _ tt)

  module _ (locations : IrOps ℕ L) where
    pub concrete-MovesOn :
        MovesOn locations
          (concrete store hk translator operand_size bv fp order behaviours)
          IsForwardOp
    unfolding concrete IsOnward StaysHere
    concrete-MovesOn = record {
      lifts = λ a i l e. lift-StaysHere a i (OrOutcome.branch l) e;
      observes = λ l l' op i e. operation-StaysHere l op i (OrOutcome.branch l') e;
      forward = λ op i b good e. dispatch-Onward op good i (Outcome.branch b) e;
    }

    -- With the interpreter of concrete bytes, whatever its hooks, intrinsics and state do, `step`
    -- ends: where the instruction that `lift` gives at the location has at most `limit`
    -- operations, `limit` within the `isize` range, and none of them is a branch or a conditional
    -- branch to a constant that is zero or negative as an `isize`, `limit` rounds and two more are
    -- enough.
    pub concrete_ends :
        (limit : ℕ) (m : Program) (l : L)
        → limit ≤ isize_limit
        → ((s : StepState ℕ (PCodeOp Operand ℕ N))
            → (lift store hk operand_size translator (locations.address l) m.interpreter).1
              ≡ ok (OrOutcome.continue s)
            → (length s.pcode.operations ≤ limit) × AllOf IsForwardOp s.pcode)
        → (r : Program × Result (Error X) (StepOutcome ℕ R)) × (step locations
              (concrete store hk translator operand_size bv fp order behaviours)
              (suc (suc limit))
              m
              l
            ≡ some r)
    unfolding concrete
    concrete_ends limit m l short forward =
        step_ends locations (concrete store hk translator operand_size bv fp order behaviours)
          IsForwardOp limit m l concrete-MovesOn short forward
