-- ===== src/Concrete/Lifting.antt =====
-- The operations on the values of operands: what is read, what is computed of it, and how the result
-- is written.
use fuguex_core.Prelude.{
  ℕ, ◌*◌, Bool, true, false, List, [], ◌∷◌, Option, ltb, ◌==◌, if◌then◌else◌, Result, map_err,
}
use fuguex_core.Paths.{HookError}
use fuguex_core.Microx.{ViolationSource}
use fuguex_core.Machine.Types.{Branch, Outcome}
use fuguex_core.PCode
use fuguex_core.PCode.Bytes.{Operand, size}
use fuguex_core.Concrete.Hooks.{HookConcrete}
use fuguex_core.Concrete.Store.{Store, BoolBytes}
use fuguex_core.Concrete.Context.{Error, Act, pure, fail, of_result, ◌>>=◌, ◌>>◌}
use fuguex_core.Concrete.Values.{read_operand, write_operand}

-- What the code uses of the fugue crate's `BitVec`; `from_bytes` takes whether the value is signed,
-- `into_bytes` the number of bytes of the buffer.
pub record BitVecOps (V : Type 0) : Type 0 where
  pub from_bytes : List ℕ → Bool → V
  pub into_bytes : ℕ → V → List ℕ
  pub bits : V → ℕ
  pub cast : ℕ → V → V
  pub signed : V → V
  pub is_zero : V → Bool
  pub eq : V → V → Bool
  pub less : V → V → Bool
  pub less_eq : V → V → Bool
  pub carry : V → V → Bool
  pub signed_carry : V → V → Bool
  pub signed_borrow : V → V → Bool
  pub add : V → V → V
  pub sub : V → V → V
  pub mul : V → V → V
  pub div : V → V → V
  pub rem : V → V → V
  pub xor : V → V → V
  pub and_bits : V → V → V
  pub or_bits : V → V → V
  pub shift_left : V → V → V
  pub shift_right : V → V → V
  pub neg : V → V
  pub not_bits : V → V
  -- `BitVec::from(self.count_ones())`
  pub count_ones : V → V
  pub to_usize : V → Option ℕ

-- What the code uses of the fugue crate's formats `M` of floats `F`.
pub record FormatOps (V F M X : Type 0) : Type 0 where
  pub float_format_from_size : ℕ → Result X M
  pub from_bitvec : M → V → F
  pub into_bitvec : M → F → ℕ → V
  pub format_bits : M → ℕ
  -- `Float::from_bigint` of the sizes of the format and of `as_bigint`
  pub from_int : M → V → F
  pub trunc_into_bitvec : F → ℕ → V
  pub eq : F → F → Bool
  pub less : F → F → Bool
  pub less_eq : F → F → Bool
  pub is_nan : F → Bool
  pub add : F → F → F
  pub sub : F → F → F
  pub mul : F → F → F
  pub div : F → F → F
  pub neg : F → F
  pub abs : F → F
  pub sqrt : F → F
  pub ceil : F → F
  pub floor : F → F
  pub round : F → F

module _ {X P H N B R St T L Op : Type 0} (store : Store P)
    (hk : HookConcrete H P (HookError PCode.Error X) R L Op St) (operand_size : ℕ) where
  -- an operand that does not fit into the buffer
  abbrev pub check_size : ℕ → Act X P H N B R St T (Unit {0})
  check_size n =
      if ltb operand_size n then fail (Error.unsupported_operand_size n operand_size) else pure tt

  abbrev pub read_whole : Operand → Act X P H N B R St T (List ℕ)
  read_whole operand = read_operand store hk operand (size operand) ViolationSource.read

  abbrev pub done : Act X P H N B R St T (Outcome ℕ R)
  done = pure (Outcome.branch Branch.next)

  module _ {V : Type 0} (bv : BitVecOps V) where
    -- `expand_as` of a `BitVec`, which is cast before the size of the operand is checked
    unfoldable pub expand_as : V → Operand → Bool → Act X P H N B R St T (Unit {0})
    expand_as v dest signed =
        let n = size dest in
        let target = if signed then bv.signed v else v in
        let target' = if bv.bits target == n * 8 then target else bv.cast (n * 8) target in
        check_size n >> write_operand store hk dest (bv.into_bytes n target')

    module _ {A : Type 0} (expand : A → Operand → Bool → Act X P H N B R St T (Unit {0})) where
      unfoldable pub lift_int1 :
          (V → Result (Error X) A) → Operand → Operand → Bool → Act X P H N B R St T (Outcome ℕ R)
      lift_int1 op dest rhs signed =
          check_size (size rhs)
          >> (read_whole rhs >>= λ rbuf.
              of_result (op (bv.from_bytes rbuf signed)) >>= λ a. expand a dest signed >> done)

      -- a second value of another size than the first is cast to the size of the first
      abbrev pub cast_to : Operand → Operand → V → V → V
      cast_to lhs rhs u v = if size lhs == size rhs then v else bv.cast (bv.bits u) v

      unfoldable pub lift_int2 :
          (V → V → Result (Error X) A)
          → Operand
          → Operand
          → Operand
          → Bool
          → Act X P H N B R St T (Outcome ℕ R)
      lift_int2 op dest lhs rhs signed =
          check_size (size lhs)
          >> check_size (size rhs)
          >> (read_whole lhs >>= λ lbuf. read_whole rhs >>= λ rbuf.
              let u = bv.from_bytes lbuf signed in
              of_result (op u (cast_to lhs rhs u (bv.from_bytes rbuf signed))) >>= λ a.
              expand a dest signed >> done)

      module _ {F M : Type 0} (fp : FormatOps V F M X) where
        abbrev pub format_of : ℕ → Act X P H N B R St T M
        format_of n =
            of_result (map_err Error.unsupported_float_format (fp.float_format_from_size n))

        unfoldable pub lift_float1 :
            (F → M → Result (Error X) A) → Operand → Operand → Act X P H N B R St T (Outcome ℕ R)
        lift_float1 op dest rhs =
            check_size (size rhs)
            >> (format_of (size rhs) >>= λ format. read_whole rhs >>= λ rbuf.
                of_result (op (fp.from_bitvec format (bv.from_bytes rbuf false)) format) >>= λ a.
                expand a dest true >> done)

        unfoldable pub lift_float2 :
            (F → F → M → Result (Error X) A)
            → Operand
            → Operand
            → Operand
            → Act X P H N B R St T (Outcome ℕ R)
        lift_float2 op dest lhs rhs =
            check_size (size lhs)
            >> check_size (size rhs)
            >> (if size lhs == size rhs
                then pure tt
                else fail (Error.incompatible_operands (size lhs) (size rhs)))
            >> (format_of (size rhs) >>= λ format. read_whole lhs >>= λ lbuf.
                read_whole rhs >>= λ rbuf.
                of_result (
                  op (fp.from_bitvec format (bv.from_bytes lbuf false))
                    (fp.from_bitvec format (bv.from_bytes rbuf false)) format)
                >>= λ a. expand a dest true >> done)

  module _ ⦃bools : BoolBytes⦄ where
    -- `expand_as` of a `bool`, which is one byte whatever the operand's size
    unfoldable pub expand_bool : Bool → Operand → Bool → Act X P H N B R St T (Unit {0})
    expand_bool b dest signed = write_operand store hk dest (bools.bool_into_bytes b (0 ∷ []))

    abbrev pub read_bool : Operand → Act X P H N B R St T Bool
    read_bool operand = read_operand store hk operand 1 ViolationSource.read >>= λ buf.
        pure (bools.bool_from_bytes buf)

    unfoldable pub lift_bool1 :
        (Bool → Result (Error X) Bool) → Operand → Operand → Act X P H N B R St T (Outcome ℕ R)
    unfolding expand_bool
    lift_bool1 op dest rhs =
        read_bool rhs >>= λ v. of_result (op v) >>= λ b. expand_bool b dest false >> done

    unfoldable pub lift_bool2 :
        (Bool → Bool → Result (Error X) Bool)
        → Operand
        → Operand
        → Operand
        → Act X P H N B R St T (Outcome ℕ R)
    unfolding expand_bool
    lift_bool2 op dest lhs rhs = read_bool lhs >>= λ u.
        read_bool rhs >>= λ v. of_result (op u v) >>= λ b. expand_bool b dest false >> done
