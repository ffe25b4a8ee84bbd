-- ===== src/Concrete/EndsTests.antt =====
-- The machine on the interpreter, for an instruction that counts and then branches over what is left.
use fuguex_core.Prelude.{
  ℕ, zero, suc, ◌+◌, ◌≤◌, ◌≡◌, refl, ap, subst, false, [], ◌∷◌, none, some, ltb, leb, ◌==◌, ==_iff,
  Result, ok, err, length, some_inj, none-some, arith,
}
use fuguex_core.Paths.{HookError}
use fuguex_core.Intrinsics
use fuguex_core.Intrinsics.{IntrinsicAction, IntrinsicBehaviour}
use fuguex_core.Machine.Types.{IrOps, OrOutcome, StepOutcome, StepState}
use fuguex_core.Machine.Interpreter.{PCodeOp}
use fuguex_core.Machine.Engine.{Machine, step}
use fuguex_core.Machine.Engine.Total.{AllOf}
use fuguex_core.PCode
use fuguex_core.PCode.Bytes.{Operand}
use fuguex_core.PCode.LittleEndian.{little}
use fuguex_core.Concrete.Hooks.{HookConcrete, provided}
use fuguex_core.Concrete.Store.{TranslatorOps}
use fuguex_core.Concrete.Context.{Error, ConcreteContext, new, each, each_hook, notify}
use fuguex_core.Concrete.Lifting.{FormatOps}
use fuguex_core.Concrete.Operations.{SubpieceOps, lift}
use fuguex_core.Concrete.Instance.{concrete}
use fuguex_core.Concrete.Forward.{LeadsForward}
use fuguex_core.Concrete.Ends.{IsForwardOp, concrete_ends}
use fuguex_core.Concrete.Tests.{one_byte, numbers, addresses, bools, keys}

abbrev Location : Type 0
Location = ℕ × ℕ

abbrev locations : IrOps ℕ Location
locations = record {
  add = λ a n. a + n;
  eq = λ a b. a == b;
  at = λ a n. (a, n);
  from = λ a. (a, 0);
  address = λ l. l.0;
  position = λ l. l.1;
  eq_refl = λ a. (==_iff a a).1 refl;
  eq_lem = λ a b. (==_iff a b).0;
  address-at = λ a n. refl;
  position-at = λ a n. refl;
  address-from = λ a. refl;
  position-from = λ a. refl;
}

abbrev Op : Type 0
Op = PCodeOp Operand ℕ ℕ

abbrev counter : Operand
counter = Operand.register 0 1

-- `counter = counter + 1; goto +2; counter = counter + 1`
abbrev body : ℕ → StepState ℕ Op
body address = record {
  pcode = record {
    address = address;
    operations =
        PCodeOp.int_add counter counter (Operand.constant 1 1)
        ∷ PCodeOp.branch (Operand.constant 2 8)
        ∷ PCodeOp.int_add counter counter (Operand.constant 1 1)
        ∷ [];
    length = 4;
  };
  position = 0;
}

unfoldable silent : HookConcrete ℕ ℕ (HookError PCode.Error ℕ) ℕ Location Op (StepState ℕ Op)
unfolding provided
silent = provided

abbrev lifter : TranslatorOps ℕ ℕ (StepState ℕ Op)
lifter = record {
  context_database = 0;
  lift_pcode = λ t address view. (t, ok (body address));
  constant_space_id = 1;
  register_space_id = 2;
  word_size = λ space. 1;
}

abbrev formats : FormatOps ℕ ℕ ℕ ℕ
formats = record {
  float_format_from_size = λ n. err n;
  from_bitvec = λ m v. v;
  into_bitvec = λ m f n. f;
  format_bits = λ m. m;
  from_int = λ m v. v;
  trunc_into_bitvec = λ f n. f;
  eq = λ u v. u == v;
  less = λ u v. ltb u v;
  less_eq = λ u v. leb u v;
  is_nan = λ u. false;
  add = λ u v. u;
  sub = λ u v. u;
  mul = λ u v. u;
  div = λ u v. u;
  neg = λ u. u;
  abs = λ u. u;
  sqrt = λ u. u;
  ceil = λ u. u;
  floor = λ u. u;
  round = λ u. u;
}

abbrev no_subpiece : SubpieceOps
no_subpiece = record { subpiece = λ n bytes k. none }

abbrev no_behaviour : IntrinsicBehaviour ℕ ℕ Operand ℕ ℕ ℕ (Intrinsics.Error PCode.Error ℕ)
no_behaviour = record {
  intrinsic = λ b. b;
  initialise = λ b s. (b, ok tt);
  handle_intrinsic = λ b s inputs output. ((b, s), ok IntrinsicAction.pass);
}

abbrev Context : Type 0
Context = ConcreteContext ℕ ℕ ℕ ℕ ℕ (StepState ℕ Op) ℕ

abbrev start : Machine Context ℕ Op
start = record {
  interpreter = record (new 0 1) { hooks = 3 ∷ [] };
  step_state = body 0;
  ignore_errors = false;
}

body-IsForward : AllOf IsForwardOp (body 8).pcode
unfolding IsForwardOp LeadsForward
body-IsForward zero op e = subst IsForwardOp (some_inj e) tt
body-IsForward (suc zero) op e = subst IsForwardOp (some_inj e) (omega arith, omega arith)
body-IsForward (suc (suc zero)) op e = subst IsForwardOp (some_inj e) tt
body-IsForward (suc (suc (suc k))) op e = absurd (none-some e)

abbrev lifted_body : Result (Error ℕ) (OrOutcome Location (StepState ℕ Op) ℕ) → StepState ℕ Op
lifted_body (ok (OrOutcome.continue s)) = s
lifted_body _ = body 0

lifts_body :
    (s : StepState ℕ Op)
    → (lift one_byte silent 8 lifter 8 start.interpreter).1 ≡ ok (OrOutcome.continue s)
    → (length s.pcode.operations ≤ 3) × AllOf IsForwardOp s.pcode
unfolding lift notify each_hook each silent provided new
lifts_body s e =
    subst (λ t. (length t.pcode.operations ≤ 3) × AllOf IsForwardOp t.pcode) (ap lifted_body e)
      (omega arith, body-IsForward)

concrete_ends_example :
    (r : Machine Context ℕ Op × Result (Error ℕ) (StepOutcome ℕ ℕ)) × (step locations
        (concrete one_byte silent lifter 8 numbers formats no_subpiece no_behaviour)
        5
        start
        (8, 0)
      ≡ some r)
concrete_ends_example =
    concrete_ends one_byte silent lifter 8 numbers formats no_subpiece no_behaviour locations 3
      start (8, 0) (omega arith) lifts_body
