-- ===== src/Concrete/Integers.antt =====
-- The operations on integers and on truth values.
use fuguex_core.Prelude.{ℕ, Bool, true, false, not, ◌&&◌, ◌||◌, if◌then◌else◌, Result, ok, err}
use fuguex_core.Paths.{HookError}
use fuguex_core.Machine.Types.{Outcome}
use fuguex_core.PCode
use fuguex_core.PCode.Bytes.{Operand}
use fuguex_core.Concrete.Hooks.{HookConcrete}
use fuguex_core.Concrete.Store.{Store, BoolBytes}
use fuguex_core.Concrete.Context.{Error, Act}
use fuguex_core.Concrete.Lifting.{
  BitVecOps, expand_as, expand_bool, lift_int1, lift_int2, lift_bool1, lift_bool2,
}

abbrev pub xor_bool : Bool → Bool → Bool
xor_bool true v = not v
xor_bool false v = v

-- a division, which a zero refuses
abbrev pub nonzero : {X V : Type 0} → BitVecOps V → (V → V → V) → V → V → Result (Error X) V
nonzero bv op u v = if bv.is_zero v then err Error.division_by_zero else ok (op u v)

module _ {X P H N B R St T L Op V : Type 0} ⦃bools : BoolBytes⦄ (store : Store P)
    (hk : HookConcrete H P (HookError PCode.Error X) R L Op St) (operand_size : ℕ)
    (bv : BitVecOps V) where
  abbrev test2 :
      (V → V → Result (Error X) Bool)
      → Operand
      → Operand
      → Operand
      → Bool
      → Act X P H N B R St T (Outcome ℕ R)
  test2 = lift_int2 store hk operand_size bv (expand_bool store hk operand_size)

  abbrev compute2 :
      (V → V → Result (Error X) V)
      → Operand
      → Operand
      → Operand
      → Bool
      → Act X P H N B R St T (Outcome ℕ R)
  compute2 = lift_int2 store hk operand_size bv (expand_as store hk operand_size bv)

  abbrev pub compute1 :
      (V → Result (Error X) V) → Operand → Operand → Bool → Act X P H N B R St T (Outcome ℕ R)
  compute1 = lift_int1 store hk operand_size bv (expand_as store hk operand_size bv)

  unfoldable pub int_eq : Operand → Operand → Operand → Act X P H N B R St T (Outcome ℕ R)
  int_eq destination operand1 operand2 =
      test2 (λ u v. ok (bv.eq u v)) destination operand1 operand2 false

  unfoldable pub int_not_eq : Operand → Operand → Operand → Act X P H N B R St T (Outcome ℕ R)
  int_not_eq destination operand1 operand2 =
      test2 (λ u v. ok (not (bv.eq u v))) destination operand1 operand2 false

  unfoldable pub int_less : Operand → Operand → Operand → Act X P H N B R St T (Outcome ℕ R)
  int_less destination operand1 operand2 =
      test2 (λ u v. ok (bv.less u v)) destination operand1 operand2 false

  unfoldable pub int_less_eq : Operand → Operand → Operand → Act X P H N B R St T (Outcome ℕ R)
  int_less_eq destination operand1 operand2 =
      test2 (λ u v. ok (bv.less_eq u v)) destination operand1 operand2 false

  unfoldable pub int_sless : Operand → Operand → Operand → Act X P H N B R St T (Outcome ℕ R)
  int_sless destination operand1 operand2 =
      test2 (λ u v. ok (bv.less u v)) destination operand1 operand2 true

  unfoldable pub int_sless_eq : Operand → Operand → Operand → Act X P H N B R St T (Outcome ℕ R)
  int_sless_eq destination operand1 operand2 =
      test2 (λ u v. ok (bv.less_eq u v)) destination operand1 operand2 true

  unfoldable pub int_zext : Operand → Operand → Act X P H N B R St T (Outcome ℕ R)
  int_zext destination operand = compute1 (λ u. ok u) destination operand false

  unfoldable pub int_sext : Operand → Operand → Act X P H N B R St T (Outcome ℕ R)
  int_sext destination operand = compute1 (λ u. ok u) destination operand true

  unfoldable pub int_add : Operand → Operand → Operand → Act X P H N B R St T (Outcome ℕ R)
  int_add destination operand1 operand2 =
      compute2 (λ u v. ok (bv.add u v)) destination operand1 operand2 false

  unfoldable pub int_sub : Operand → Operand → Operand → Act X P H N B R St T (Outcome ℕ R)
  int_sub destination operand1 operand2 =
      compute2 (λ u v. ok (bv.sub u v)) destination operand1 operand2 false

  unfoldable pub int_carry : Operand → Operand → Operand → Act X P H N B R St T (Outcome ℕ R)
  int_carry destination operand1 operand2 =
      test2 (λ u v. ok (bv.carry u v)) destination operand1 operand2 false

  unfoldable pub int_scarry : Operand → Operand → Operand → Act X P H N B R St T (Outcome ℕ R)
  int_scarry destination operand1 operand2 =
      test2 (λ u v. ok (bv.signed_carry u v)) destination operand1 operand2 true

  unfoldable pub int_sborrow : Operand → Operand → Operand → Act X P H N B R St T (Outcome ℕ R)
  int_sborrow destination operand1 operand2 =
      test2 (λ u v. ok (bv.signed_borrow u v)) destination operand1 operand2 true

  unfoldable pub int_neg : Operand → Operand → Act X P H N B R St T (Outcome ℕ R)
  int_neg destination operand = compute1 (λ u. ok (bv.neg u)) destination operand true

  unfoldable pub int_not : Operand → Operand → Act X P H N B R St T (Outcome ℕ R)
  int_not destination operand = compute1 (λ u. ok (bv.not_bits u)) destination operand false

  unfoldable pub int_xor : Operand → Operand → Operand → Act X P H N B R St T (Outcome ℕ R)
  int_xor destination operand1 operand2 =
      compute2 (λ u v. ok (bv.xor u v)) destination operand1 operand2 false

  unfoldable pub int_and : Operand → Operand → Operand → Act X P H N B R St T (Outcome ℕ R)
  int_and destination operand1 operand2 =
      compute2 (λ u v. ok (bv.and_bits u v)) destination operand1 operand2 false

  unfoldable pub int_or : Operand → Operand → Operand → Act X P H N B R St T (Outcome ℕ R)
  int_or destination operand1 operand2 =
      compute2 (λ u v. ok (bv.or_bits u v)) destination operand1 operand2 false

  unfoldable pub int_left_shift : Operand → Operand → Operand → Act X P H N B R St T (Outcome ℕ R)
  int_left_shift destination operand1 operand2 =
      compute2 (λ u v. ok (bv.shift_left u v)) destination operand1 operand2 false

  unfoldable pub int_right_shift : Operand → Operand → Operand → Act X P H N B R St T (Outcome ℕ R)
  int_right_shift destination operand1 operand2 =
      compute2 (λ u v. ok (bv.shift_right u v)) destination operand1 operand2 false

  unfoldable pub int_sright_shift : Operand → Operand → Operand → Act X P H N B R St T (Outcome ℕ R)
  int_sright_shift destination operand1 operand2 =
      compute2 (λ u v. ok (bv.shift_right u v)) destination operand1 operand2 true

  unfoldable pub int_mul : Operand → Operand → Operand → Act X P H N B R St T (Outcome ℕ R)
  int_mul destination operand1 operand2 =
      compute2 (λ u v. ok (bv.mul u v)) destination operand1 operand2 false

  unfoldable pub int_div : Operand → Operand → Operand → Act X P H N B R St T (Outcome ℕ R)
  int_div destination operand1 operand2 =
      compute2 (nonzero bv bv.div) destination operand1 operand2 false

  unfoldable pub int_sdiv : Operand → Operand → Operand → Act X P H N B R St T (Outcome ℕ R)
  int_sdiv destination operand1 operand2 =
      compute2 (nonzero bv bv.div) destination operand1 operand2 true

  unfoldable pub int_rem : Operand → Operand → Operand → Act X P H N B R St T (Outcome ℕ R)
  int_rem destination operand1 operand2 =
      compute2 (nonzero bv bv.rem) destination operand1 operand2 false

  unfoldable pub int_srem : Operand → Operand → Operand → Act X P H N B R St T (Outcome ℕ R)
  int_srem destination operand1 operand2 =
      compute2 (nonzero bv bv.rem) destination operand1 operand2 true

  unfoldable pub pop_count : Operand → Operand → Act X P H N B R St T (Outcome ℕ R)
  pop_count destination operand = compute1 (λ u. ok (bv.count_ones u)) destination operand false

module _ {X P H N B R St T L Op : Type 0} ⦃bools : BoolBytes⦄ (store : Store P)
    (hk : HookConcrete H P (HookError PCode.Error X) R L Op St) (operand_size : ℕ) where
  unfoldable pub bool_not : Operand → Operand → Act X P H N B R St T (Outcome ℕ R)
  bool_not destination operand =
      lift_bool1 store hk operand_size (λ u. ok (not u)) destination operand

  unfoldable pub bool_xor : Operand → Operand → Operand → Act X P H N B R St T (Outcome ℕ R)
  bool_xor destination operand1 operand2 =
      lift_bool2 store hk operand_size (λ u v. ok (xor_bool u v)) destination operand1 operand2

  unfoldable pub bool_and : Operand → Operand → Operand → Act X P H N B R St T (Outcome ℕ R)
  bool_and destination operand1 operand2 =
      lift_bool2 store hk operand_size (λ u v. ok (u && v)) destination operand1 operand2

  unfoldable pub bool_or : Operand → Operand → Operand → Act X P H N B R St T (Outcome ℕ R)
  bool_or destination operand1 operand2 =
      lift_bool2 store hk operand_size (λ u v. ok (u || v)) destination operand1 operand2
