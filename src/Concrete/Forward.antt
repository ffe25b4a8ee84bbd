-- ===== src/Concrete/Forward.antt =====
-- Where the outcomes of operations go: what is done before the last step of an operation does not
-- matter to it.
use fuguex_core.Prelude.{
  ℕ, ◌<◌, ◌≡◌, subst, Bool, true, false, if◌then◌else◌, ◌==◌, Result, ok, err, panic, ok_inj,
  err_ok,
}
use fuguex_core.Address.{AddressOps}
use fuguex_core.Paths.{HookError}
use fuguex_core.Machine.Types.{Branch, Outcome}
use fuguex_core.Machine.Engine.Total.{isize_limit, IsForward}
use fuguex_core.PCode
use fuguex_core.PCode.Bytes.{Operand, size, ByteOps}
use fuguex_core.Concrete.Hooks.{HookConcrete}
use fuguex_core.Concrete.Store.{Store, TranslatorOps, BoolBytes}
use fuguex_core.Concrete.Context.{Error, M, then_do, ◌>>=◌, ◌>>◌, Act, of_result, pure, fail}
use fuguex_core.Microx.{ViolationSource}
use fuguex_core.Concrete.Values.{copy_operand, write_operand, get_address_value}
use fuguex_core.Concrete.Lifting.{
  BitVecOps, FormatOps, check_size, read_whole, read_bool, cast_to, format_of, expand_bool,
  lift_int1, lift_int2, lift_bool1, lift_bool2, lift_float1, lift_float2,
}
use fuguex_core.Concrete.Operations.{
  SubpieceOps, some_or_panic, place, amount_of, copy, load, store_operand, subpiece,
}

-- an outcome that does not go back or stay in its instruction
unfoldable pub IsOnward : {R : Type 0} → Outcome ℕ R → Type 0
IsOnward (Outcome.halt r) = Unit {0}
IsOnward (Outcome.branch b) = IsForward b

-- a destination that is no constant, or a constant that leads forward
unfoldable pub LeadsForward : Operand → Type 0
LeadsForward (Operand.constant value n) = (0 < value) × (value < isize_limit)
LeadsForward (Operand.address value n) = Unit {0}
LeadsForward (Operand.register offset n) = Unit {0}
LeadsForward (Operand.variable offset n space) = Unit {0}

module _ {C E : Type 0} where
  -- every value that a method gives
  abbrev pub Gives : {A : Type 0} → (A → Type 0) → M C E A → Type 0
  Gives {A} Good m = (c : C) (a : A) → (m c).1 ≡ ok a → Good a

  pub pure-Gives : {A : Type 0} (Good : A → Type 0) (a : A) → Good a → Gives Good (pure a)
  pure-Gives Good a g c b e = subst Good (ok_inj e) g

  module _ {A B : Type 0} (Good : B → Type 0) where
    pub then_do-Gives :
        (r : C × Result E A) (f : A → M C E B)
        → ((a : A) → Gives Good (f a))
        → (b : B) → (then_do r f).1 ≡ ok b
        → Good b
    then_do-Gives (c, ok a) f g b e = g a c b e
    then_do-Gives (c, err x) f g b e = absurd (err_ok e)
    then_do-Gives (c, panic) f g b e = cc

    pub bind-Gives :
        (m : M C E A) (f : A → M C E B) → ((a : A) → Gives Good (f a)) → Gives Good (m >>= f)
    bind-Gives m f g c = then_do-Gives (m c) f g

module _ {X P H N B R St T L Op : Type 0} (store : Store P)
    (hk : HookConcrete H P (HookError PCode.Error X) R L Op St) (operand_size : ℕ) where
  abbrev pub Onward : Act X P H N B R St T (Outcome ℕ R) → Type 0
  Onward m = Gives IsOnward m

  -- an operation that ends in the next one
  pub next-Onward : Onward (pure (Outcome.branch Branch.next))
  unfolding IsOnward IsForward
  next-Onward = pure-Gives IsOnward _ tt

  pub after_one :
      {A : Type 0} (m : Act X P H N B R St T A) (f : A → Act X P H N B R St T (Outcome ℕ R))
      → ((a : A) → Onward (f a))
      → Onward (m >>= f)
  after_one m f g = bind-Gives IsOnward m f g

  module _ {V A : Type 0} (bv : BitVecOps V)
      (expand : A → Operand → Bool → Act X P H N B R St T (Unit {0})) where
    pub lift_int1-Onward :
        (op : V → Result (Error X) A) (dest rhs : Operand) (signed : Bool)
        → Onward (lift_int1 store hk operand_size bv expand op dest rhs signed)
    unfolding lift_int1
    lift_int1-Onward op dest rhs signed =
        after_one (check_size store hk operand_size (size rhs)) _ λ u.
          after_one (read_whole store hk operand_size rhs) _ λ rbuf.
            after_one (of_result (op (bv.from_bytes rbuf signed))) _
              λ a. after_one (expand a dest signed) _ λ w. next-Onward

    pub lift_int2-Onward :
        (op : V → V → Result (Error X) A) (dest lhs rhs : Operand) (signed : Bool)
        → Onward (lift_int2 store hk operand_size bv expand op dest lhs rhs signed)
    unfolding lift_int2
    lift_int2-Onward op dest lhs rhs signed =
        after_one
          (check_size store hk operand_size (size lhs)
            >> check_size store hk operand_size (size rhs))
          _
          λ u. after_one (read_whole store hk operand_size lhs) _ λ lbuf.
            after_one (read_whole store hk operand_size rhs) _ λ rbuf.
              after_one
                (of_result (
                  op (bv.from_bytes lbuf signed) (
                    cast_to store hk operand_size bv expand lhs rhs (bv.from_bytes lbuf signed)
                      (bv.from_bytes rbuf signed))))
                _ λ a. after_one (expand a dest signed) _ λ w. next-Onward

    module _ {F M : Type 0} (fp : FormatOps V F M X) where
      pub lift_float1-Onward :
          (op : F → M → Result (Error X) A) (dest rhs : Operand)
          → Onward (lift_float1 store hk operand_size bv expand fp op dest rhs)
      unfolding lift_float1
      lift_float1-Onward op dest rhs =
          after_one (check_size store hk operand_size (size rhs)) _ λ u.
            after_one (format_of store hk operand_size bv expand fp (size rhs)) _ λ format.
              after_one (read_whole store hk operand_size rhs) _ λ rbuf.
                after_one (of_result (op (fp.from_bitvec format (bv.from_bytes rbuf false)) format))
                  _ λ a. after_one (expand a dest true) _ λ w. next-Onward

      pub lift_float2-Onward :
          (op : F → F → M → Result (Error X) A) (dest lhs rhs : Operand)
          → Onward (lift_float2 store hk operand_size bv expand fp op dest lhs rhs)
      unfolding lift_float2
      lift_float2-Onward op dest lhs rhs =
          after_one
            (check_size store hk operand_size (size lhs)
              >> check_size store hk operand_size (size rhs)
              >> (if size lhs == size rhs
                  then pure tt
                  else fail (Error.incompatible_operands (size lhs) (size rhs))))
            _
            λ u. after_one (format_of store hk operand_size bv expand fp (size rhs)) _ λ format.
              after_one (read_whole store hk operand_size lhs) _ λ lbuf.
                after_one (read_whole store hk operand_size rhs) _ λ rbuf.
                  after_one
                    (of_result (
                      op (fp.from_bitvec format (bv.from_bytes lbuf false))
                        (fp.from_bitvec format (bv.from_bytes rbuf false)) format))
                    _ λ a. after_one (expand a dest true) _ λ w. next-Onward

  module _ ⦃bools : BoolBytes⦄ where
    pub lift_bool1-Onward :
        (op : Bool → Result (Error X) Bool) (dest rhs : Operand)
        → Onward (lift_bool1 store hk operand_size op dest rhs)
    unfolding lift_bool1 expand_bool
    lift_bool1-Onward op dest rhs = after_one (read_bool store hk operand_size rhs) _ λ v.
        after_one (of_result (op v)) _
          λ b. after_one (expand_bool store hk operand_size b dest false) _ λ w. next-Onward

    pub lift_bool2-Onward :
        (op : Bool → Bool → Result (Error X) Bool) (dest lhs rhs : Operand)
        → Onward (lift_bool2 store hk operand_size op dest lhs rhs)
    unfolding lift_bool2 expand_bool
    lift_bool2-Onward op dest lhs rhs = after_one (read_bool store hk operand_size lhs) _ λ u.
        after_one (read_bool store hk operand_size rhs) _ λ v.
          after_one (of_result (op u v)) _
            λ b. after_one (expand_bool store hk operand_size b dest false) _ λ w. next-Onward

  pub copy-Onward :
      (source destination : Operand) → Onward (copy store hk operand_size source destination)
  unfolding copy
  copy-Onward source destination =
      after_one (copy_operand store hk operand_size source destination) _ λ _. next-Onward

module _ {X P H N B R St T L Op : Type 0} ⦃ir : AddressOps⦄ ⦃bytes : ByteOps⦄ (store : Store P)
    (hk : HookConcrete H P (HookError PCode.Error X) R L Op St) (operand_size : ℕ) where
  module _ (translator : TranslatorOps T X St) where
    pub load-Onward :
        (source destination : Operand) (space : ℕ)
        → Onward store hk operand_size
            (load {H = H} {N = N} {B = B} store hk operand_size translator source destination space)
    unfolding load
    load-Onward source destination space =
        after_one store hk operand_size (get_address_value store hk source ViolationSource.read_via)
          _
          λ offset.
            after_one store hk operand_size
              (copy_operand store hk operand_size (place translator space offset (size destination))
                destination)
              _ λ _. next-Onward store hk operand_size

    pub store_operand-Onward :
        (source destination : Operand) (space : ℕ)
        → Onward store hk operand_size (
            store_operand {H = H} {N = N} {B = B} store hk operand_size translator source
              destination space)
    unfolding store_operand
    store_operand-Onward source destination space =
        after_one store hk operand_size
          (get_address_value store hk destination ViolationSource.write_via) _
          λ offset.
            after_one store hk operand_size
              (copy_operand store hk operand_size source
                (place translator space offset (size source)))
              _ λ _. next-Onward store hk operand_size

  pub subpiece-Onward :
      {V : Type 0} (bv : BitVecOps V) (order : SubpieceOps) (destination operand amount : Operand)
      → Onward store hk operand_size (
          subpiece {X = X} {P = P} {H = H} {N = N} {B = B} {St = St} {T = T} store hk operand_size
            bv order destination operand amount)
  unfolding subpiece
  subpiece-Onward bv order destination operand amount =
      after_one store hk operand_size
        (check_size store hk operand_size (size amount)
          >> check_size store hk operand_size (size operand)
          >> check_size store hk operand_size (size destination))
        _
        λ _. after_one store hk operand_size (amount_of store hk operand_size bv amount) _ λ k.
          after_one store hk operand_size (read_whole store hk operand_size operand) _ λ input.
            after_one store hk operand_size
              (of_result (some_or_panic (order.subpiece (size destination) input k))) _
              λ output.
                after_one store hk operand_size (write_operand store hk destination output) _
                  λ _. next-Onward store hk operand_size
