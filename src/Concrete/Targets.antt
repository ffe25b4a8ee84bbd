-- ===== src/Concrete/Targets.antt =====
-- The outcomes of branches, calls, returns and intrinsics, and of the float operations that look for
-- a format first.
use fuguex_core.Prelude.{
  ℕ, ◌^◌, ◌<◌, ◌≡◌, subst, Bool, true, false, if_either, ltb, ◌==◌, List, Option, Result, ok, err,
  panic, ok_inj, err_ok, arith,
}
use fuguex_core.Address.{AddressOps}
use fuguex_core.Paths.{HookError}
use fuguex_core.Intrinsics
use fuguex_core.Intrinsics.{KeyOps, IntrinsicHandler, IntrinsicAction, IntrinsicBehaviour, handle}
use fuguex_core.Machine.Types.{Branch, Outcome}
use fuguex_core.Machine.Engine.Total.{isize_limit, IsForward}
use fuguex_core.Microx.{ViolationSource}
use fuguex_core.PCode
use fuguex_core.PCode.Bytes.{Operand, size, ByteOps}
use fuguex_core.Concrete.Hooks.{HookConcrete}
use fuguex_core.Concrete.Store.{Store, TranslatorOps, BoolBytes, same_operand}
use fuguex_core.Concrete.Context.{
  Error, ConcreteContext, ◌>>=◌, Act, pure, Loop, go, stop, each_hook,
}
use fuguex_core.Concrete.Values.{read_operand}
use fuguex_core.Concrete.Branches.{
  as_isize, take_flip, take_skip, branch, branch_if, branch_on, flipped_condition, cbranch,
  after_call, call_to, call, target_in, icall, ibranch, return_, skip_return,
}
use fuguex_core.Concrete.Lifting.{BitVecOps, FormatOps, format_of, expand_as}
use fuguex_core.Concrete.Operations.{settle, outcome_of, intrinsic}
use fuguex_core.Concrete.Floats.{float_of_int, float_of_float}
use fuguex_core.Concrete.Forward.{
  IsOnward, LeadsForward, pure-Gives, Onward, after_one, lift_int1-Onward, lift_float1-Onward,
}

as_isize-IsForward :
    (value : ℕ)
    → 0 < value
    → value < isize_limit
    → IsForward {A = ℕ} (Branch.local (as_isize value))
unfolding IsForward
as_isize-IsForward value low high =
    let small : ltb value (2 ^ 63) ≡ true = ground arith in rw small (low, high)

outcome_of-IsOnward : {R : Type 0} (a : IntrinsicAction ℕ R) → IsOnward (outcome_of a)
unfolding IsOnward IsForward
outcome_of-IsOnward IntrinsicAction.pass = tt
outcome_of-IsOnward (IntrinsicAction.branch a) = tt
outcome_of-IsOnward (IntrinsicAction.halt r) = tt

module _ {X P H N B R St T L Op : Type 0} ⦃ir : AddressOps⦄ ⦃bytes : ByteOps⦄ ⦃bools : BoolBytes⦄
    (store : Store P) (hk : HookConcrete H P (HookError PCode.Error X) R L Op St)
    (operand_size : ℕ) where
  abbrev GoesOn : Act X P H N B R St T (Outcome ℕ R) → Type 0
  GoesOn m = Onward store hk operand_size m

  to_global : (a : ℕ) → GoesOn (pure (Outcome.branch (Branch.global a)))
  unfolding IsOnward IsForward
  to_global a = pure-Gives IsOnward _ tt

  module _ (translator : TranslatorOps T X St) where
    pub branch-Onward :
        (destination : Operand)
        → LeadsForward destination
        → GoesOn (branch store hk translator destination)
    unfolding branch LeadsForward IsOnward
    branch-Onward (Operand.constant value n) (low, high) =
        pure-Gives IsOnward _ (as_isize-IsForward value low high)
    branch-Onward (Operand.address value n) good =
        λ c. to_global (ir.new (store.memory_space c.state) value) c
    branch-Onward (Operand.register offset n) good = λ c o e. absurd (err_ok e)
    branch-Onward (Operand.variable offset n space) good = λ c o e. absurd (err_ok e)

    branch_if-Onward :
        (destination : Operand) (v : Bool)
        → LeadsForward destination
        → GoesOn (branch_if store hk translator destination v)
    unfolding IsOnward IsForward
    branch_if-Onward destination true good = branch-Onward destination good
    branch_if-Onward destination false good = pure-Gives IsOnward _ tt

    branch_on-Onward :
        (destination condition : Operand) (q : Loop Bool R)
        → LeadsForward destination
        → GoesOn (branch_on store hk translator destination condition q)
    unfolding IsOnward
    branch_on-Onward destination condition (stop r) good = pure-Gives IsOnward _ tt
    branch_on-Onward destination condition (go flip) good =
        after_one store hk operand_size
          (read_operand store hk condition 1 ViolationSource.read >>= λ buf.
            flipped_condition store hk translator condition flip (bools.bool_from_bytes buf))
          _ λ v. branch_if-Onward destination v good

    pub cbranch-Onward :
        (destination condition : Operand)
        → LeadsForward destination
        → GoesOn (cbranch store hk translator destination condition)
    unfolding cbranch
    cbranch-Onward destination condition good =
        if_either (size condition == 1) GoesOn
          (λ one.
            after_one store hk operand_size
              (each_hook (λ h s. hk.hook_cbranch h s destination condition)
                (λ o flip. take_flip o.action flip) false)
              _ λ q. branch_on-Onward destination condition q good)
          (λ other c o e. cc)

    after_call-Onward :
        (address : ℕ) (q : Loop Bool R) → GoesOn (after_call store hk translator address q)
    unfolding IsOnward
    after_call-Onward address (stop r) = pure-Gives IsOnward _ tt
    after_call-Onward address (go true) =
        after_one store hk operand_size (skip_return store hk translator) _ λ a. to_global a
    after_call-Onward address (go false) = to_global address

    call_to-Onward : (address : ℕ) → GoesOn (call_to store hk translator address)
    call_to-Onward address =
        after_one store hk operand_size
          (each_hook (λ h s. hk.hook_call h s address) (λ o skip. take_skip o.action skip) false) _
          λ q. after_call-Onward address q

    pub call-Onward : (destination : Operand) → GoesOn (call store hk translator destination)
    unfolding call
    call-Onward (Operand.address value n) =
        λ c. call_to-Onward (ir.new (store.memory_space c.state) value) c
    call-Onward (Operand.constant value n) = λ c o e. absurd (err_ok e)
    call-Onward (Operand.register offset n) = λ c o e. absurd (err_ok e)
    call-Onward (Operand.variable offset n space) = λ c o e. absurd (err_ok e)

    pub icall-Onward : (destination : Operand) → GoesOn (icall store hk translator destination)
    unfolding icall
    icall-Onward destination =
        after_one store hk operand_size (target_in store hk translator destination) _
          λ a. call_to-Onward a

    pub return_-Onward : (destination : Operand) → GoesOn (return_ store hk translator destination)
    unfolding return_
    return_-Onward destination =
        after_one store hk operand_size (target_in store hk translator destination) _
          λ a. to_global a

    pub ibranch-Onward : (destination : Operand) → GoesOn (ibranch store hk translator destination)
    unfolding ibranch icall
    ibranch-Onward destination c =
        if_either (same_operand destination (store.program_counter c.state))
          (λ (q : ConcreteContext P H N B R St T × Result (Error X) (Outcome ℕ R)).
            (o : Outcome ℕ R) → q.1 ≡ ok o → IsOnward o)
          (λ same. icall-Onward destination c)
          (λ other.
            after_one store hk operand_size (target_in store hk translator destination) _
              (λ a. to_global a) c)

  module _ ⦃keys : KeyOps N⦄
      (behaviours : IntrinsicBehaviour B P Operand N ℕ R (Intrinsics.Error PCode.Error X)) where
    settle-Onward :
        (c : ConcreteContext P H N B R St T) (t : IntrinsicHandler B N ℕ R) (s : P)
        (r : Result (Intrinsics.Error PCode.Error X) (IntrinsicAction ℕ R)) (o : Outcome ℕ R)
        → (settle store hk operand_size c ((t, s), r)).1 ≡ ok o
        → IsOnward o
    settle-Onward c t s (ok a) o e = subst IsOnward (ok_inj e) (outcome_of-IsOnward a)
    settle-Onward c t s (err x) o e = absurd (err_ok e)
    settle-Onward c t s panic o e = cc

    pub intrinsic-Onward :
        (name : N) (operands : List Operand) (result : Option Operand)
        → GoesOn (intrinsic store hk operand_size behaviours name operands result)
    unfolding intrinsic
    intrinsic-Onward name operands result c =
        let q = handle behaviours c.intrinsics name c.state operands result in
        settle-Onward c q.0.0 q.0.1 q.1

  module _ {V F M : Type 0} (bv : BitVecOps V) (fp : FormatOps V F M X) where
    pub float_of_int-Onward :
        (destination operand : Operand)
        → GoesOn (float_of_int store hk operand_size bv fp destination operand)
    unfolding float_of_int
    float_of_int-Onward destination operand =
        after_one store hk operand_size
          (format_of store hk operand_size bv (expand_as store hk operand_size bv) fp
            (size destination))
          _ λ format. lift_int1-Onward store hk operand_size bv _ _ _ _ _

    pub float_of_float-Onward :
        (destination operand : Operand)
        → GoesOn (float_of_float store hk operand_size bv fp destination operand)
    unfolding float_of_float
    float_of_float-Onward destination operand =
        after_one store hk operand_size
          (format_of store hk operand_size bv (expand_as store hk operand_size bv) fp
            (size destination))
          _ λ format. lift_float1-Onward store hk operand_size bv _ fp _ _ _
