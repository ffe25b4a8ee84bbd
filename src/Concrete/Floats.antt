-- ===== src/Concrete/Floats.antt =====
-- The operations on floats.
use fuguex_core.Prelude.{ℕ, ◌*◌, Bool, true, not, Result, ok}
use fuguex_core.Paths.{HookError}
use fuguex_core.Machine.Types.{Outcome}
use fuguex_core.PCode
use fuguex_core.PCode.Bytes.{Operand, size}
use fuguex_core.Concrete.Hooks.{HookConcrete}
use fuguex_core.Concrete.Store.{Store, BoolBytes}
use fuguex_core.Concrete.Context.{Error, Act, ◌>>=◌}
use fuguex_core.Concrete.Lifting.{
  BitVecOps, FormatOps, expand_as, expand_bool, format_of, lift_int1, lift_float1, lift_float2,
}

-- a result in the format of the operand
abbrev same_format : {X V F M : Type 0} → FormatOps V F M X → (F → F) → F → M → Result (Error X) V
same_format fp op u format = ok (fp.into_bitvec format (op u) (fp.format_bits format))

module _ {X P H N B R St T L Op V F M : Type 0} ⦃bools : BoolBytes⦄ (store : Store P)
    (hk : HookConcrete H P (HookError PCode.Error X) R L Op St) (operand_size : ℕ)
    (bv : BitVecOps V) (fp : FormatOps V F M X) where
  abbrev test2 :
      (F → F → M → Result (Error X) Bool)
      → Operand
      → Operand
      → Operand
      → Act X P H N B R St T (Outcome ℕ R)
  test2 = lift_float2 store hk operand_size bv (expand_bool store hk operand_size) fp

  abbrev compute2 : (F → F → F) → Operand → Operand → Operand → Act X P H N B R St T (Outcome ℕ R)
  compute2 op =
      lift_float2 store hk operand_size bv (expand_as store hk operand_size bv) fp
        (λ u v format. ok (fp.into_bitvec format (op u v) (fp.format_bits format)))

  abbrev compute1 :
      (F → M → Result (Error X) V) → Operand → Operand → Act X P H N B R St T (Outcome ℕ R)
  compute1 = lift_float1 store hk operand_size bv (expand_as store hk operand_size bv) fp

  unfoldable pub float_eq : Operand → Operand → Operand → Act X P H N B R St T (Outcome ℕ R)
  float_eq destination operand1 operand2 =
      test2 (λ u v format. ok (fp.eq u v)) destination operand1 operand2

  unfoldable pub float_not_eq : Operand → Operand → Operand → Act X P H N B R St T (Outcome ℕ R)
  float_not_eq destination operand1 operand2 =
      test2 (λ u v format. ok (not (fp.eq u v))) destination operand1 operand2

  unfoldable pub float_less : Operand → Operand → Operand → Act X P H N B R St T (Outcome ℕ R)
  float_less destination operand1 operand2 =
      test2 (λ u v format. ok (fp.less u v)) destination operand1 operand2

  unfoldable pub float_less_eq : Operand → Operand → Operand → Act X P H N B R St T (Outcome ℕ R)
  float_less_eq destination operand1 operand2 =
      test2 (λ u v format. ok (fp.less_eq u v)) destination operand1 operand2

  unfoldable pub float_is_nan : Operand → Operand → Act X P H N B R St T (Outcome ℕ R)
  float_is_nan destination operand =
      lift_float1 store hk operand_size bv (expand_bool store hk operand_size) fp
        (λ u format. ok (fp.is_nan u)) destination operand

  unfoldable pub float_add : Operand → Operand → Operand → Act X P H N B R St T (Outcome ℕ R)
  float_add destination operand1 operand2 = compute2 fp.add destination operand1 operand2

  unfoldable pub float_div : Operand → Operand → Operand → Act X P H N B R St T (Outcome ℕ R)
  float_div destination operand1 operand2 = compute2 fp.div destination operand1 operand2

  unfoldable pub float_mul : Operand → Operand → Operand → Act X P H N B R St T (Outcome ℕ R)
  float_mul destination operand1 operand2 = compute2 fp.mul destination operand1 operand2

  unfoldable pub float_sub : Operand → Operand → Operand → Act X P H N B R St T (Outcome ℕ R)
  float_sub destination operand1 operand2 = compute2 fp.sub destination operand1 operand2

  unfoldable pub float_neg : Operand → Operand → Act X P H N B R St T (Outcome ℕ R)
  float_neg destination operand = compute1 (same_format fp fp.neg) destination operand

  unfoldable pub float_abs : Operand → Operand → Act X P H N B R St T (Outcome ℕ R)
  float_abs destination operand = compute1 (same_format fp fp.abs) destination operand

  unfoldable pub float_sqrt : Operand → Operand → Act X P H N B R St T (Outcome ℕ R)
  float_sqrt destination operand = compute1 (same_format fp fp.sqrt) destination operand

  unfoldable pub float_ceiling : Operand → Operand → Act X P H N B R St T (Outcome ℕ R)
  float_ceiling destination operand = compute1 (same_format fp fp.ceil) destination operand

  unfoldable pub float_floor : Operand → Operand → Act X P H N B R St T (Outcome ℕ R)
  float_floor destination operand = compute1 (same_format fp fp.floor) destination operand

  unfoldable pub float_round : Operand → Operand → Act X P H N B R St T (Outcome ℕ R)
  float_round destination operand = compute1 (same_format fp fp.round) destination operand

  unfoldable pub float_of_int : Operand → Operand → Act X P H N B R St T (Outcome ℕ R)
  float_of_int destination operand =
      format_of store hk operand_size bv (expand_as store hk operand_size bv) fp (size destination)
      >>= λ format.
          lift_int1 store hk operand_size bv (expand_as store hk operand_size bv)
            (λ u. ok (fp.into_bitvec format (fp.from_int format u) (fp.format_bits format)))
            destination operand true

  unfoldable pub float_of_float : Operand → Operand → Act X P H N B R St T (Outcome ℕ R)
  float_of_float destination operand =
      format_of store hk operand_size bv (expand_as store hk operand_size bv) fp (size destination)
      >>= λ format.
          compute1 (λ u own. ok (fp.into_bitvec format u (fp.format_bits format))) destination
            operand

  unfoldable pub float_truncate : Operand → Operand → Act X P H N B R St T (Outcome ℕ R)
  float_truncate destination operand =
      compute1 (λ u format. ok (fp.trunc_into_bitvec u (size destination * 8))) destination operand
