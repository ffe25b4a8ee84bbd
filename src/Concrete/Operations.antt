-- ===== src/Concrete/Operations.antt =====
-- The other operations, the lifting of instructions with its cache, and the interpreter as the
-- machine's.
use fuguex_core.Prelude.{
  ℕ, ◌+◌, ◌-◌, ◌*◌, ◌%◌, ◌^◌, bit_and, false, List, Option, none, some, and_then, ltb, ◌==◌,
  if◌then◌else◌, Result, ok, err, panic,
}
use fuguex_core.Address.{AddressOps, u64_limit}
use fuguex_core.Paths.{HookError}
use fuguex_core.Microx.{ViolationSource}
use fuguex_core.Intrinsics
use fuguex_core.Intrinsics.{KeyOps, IntrinsicAction, IntrinsicBehaviour, IntrinsicHandler, handle}
use fuguex_core.Machine.Types.{Branch, Outcome, OrOutcome}
use fuguex_core.PCode
use fuguex_core.PCode.Bytes.{Operand, size, ByteOps}
use fuguex_core.Concrete.Hooks.{HookConcrete}
use fuguex_core.Concrete.Store.{Store, TranslatorOps}
use fuguex_core.Concrete.Context.{
  Error, ConcreteContext, Act, pure, of_result, ◌>>=◌, ◌>>◌, notify, ask, change,
}
use fuguex_core.Concrete.Values.{read_operand, write_operand, copy_operand, get_address_value}
use fuguex_core.Concrete.Lifting.{BitVecOps, check_size, done}

-- `1u64.checked_shl(bits).unwrap_or(0).wrapping_sub(1)`: all of the bits if the shift is too far
abbrev pub low_mask : ℕ → ℕ
low_mask bits = ((if ltb bits 64 then 2 ^ bits else 0) + (u64_limit - 1)) % u64_limit

-- `offset.wrapping_mul(word_size) & mask`, for the `u32` of `size << 3` bits, where `size` is that of
-- an address of the space
unfoldable pub addr_val : (offset size word_size : ℕ) → ℕ
addr_val offset size word_size =
    bit_and ((offset * word_size) % u64_limit) (low_mask ((size * 8) % u64_limit % 2 ^ 32))

-- `Order::subpiece` of the fugue crate: the bytes of a result of the given number from those of an
-- operand, for an amount; `none` is a panic
pub record SubpieceOps : Type 0 where
  pub subpiece : ℕ → List ℕ → ℕ → Option (List ℕ)

abbrev pub some_or_panic : {E A : Type 0} → Option A → Result E A
some_or_panic none = panic
some_or_panic (some a) = ok a

abbrev pub outcome_of : {A R : Type 0} → IntrinsicAction A R → Outcome A R
outcome_of IntrinsicAction.pass = Outcome.branch Branch.next
outcome_of (IntrinsicAction.branch a) = Outcome.branch (Branch.global a)
outcome_of (IntrinsicAction.halt r) = Outcome.halt r

-- the operand that a pointer with the given offset into a space stands for
abbrev pub place :
    ⦃ir : AddressOps⦄ ⦃bytes : ByteOps⦄ {T X St : Type 0}
    → TranslatorOps T X St
    → ℕ
    → ℕ
    → ℕ
    → Operand
place ⦃ir⦄ ⦃bytes⦄ translator space offset n =
    Operand.address
      (ir.new space (addr_val offset (bytes.address_size space) (translator.word_size space))) n

module _ {P H N B R St T : Type 0} (store : Store P) where
  -- `none` is a panic; the translator gives the fork a context of its own
  unfoldable pub fork :
      {X : Type 0}
      → TranslatorOps T X St
      → ConcreteContext P H N B R St T
      → Option (ConcreteContext P H N B R St T)
  fork translator c =
      and_then (store.fork c.state)
        (λ s. some (record c { translator_context = translator.context_database; state = s }))

  -- What is cached, the translator's context and the handlers of intrinsics are not restored.
  unfoldable pub restore :
      ConcreteContext P H N B R St T
      → ConcreteContext P H N B R St T
      → Option (ConcreteContext P H N B R St T)
  restore c other =
      and_then (store.restore c.state other.state)
        (λ s. some (record c { hooks = other.hooks; hook_names = other.hook_names; state = s }))

module _ {X P H N B R St T L Op : Type 0} (store : Store P)
    (hk : HookConcrete H P (HookError PCode.Error X) R L Op St) (operand_size : ℕ) where
  unfoldable pub copy : Operand → Operand → Act X P H N B R St T (Outcome ℕ R)
  copy source destination =
      copy_operand store hk operand_size source destination >> done store hk operand_size

module _ {X P H N B R St T L Op : Type 0} ⦃ir : AddressOps⦄ ⦃bytes : ByteOps⦄ (store : Store P)
    (hk : HookConcrete H P (HookError PCode.Error X) R L Op St) (operand_size : ℕ) where
  unfoldable pub load :
      TranslatorOps T X St → Operand → Operand → ℕ → Act X P H N B R St T (Outcome ℕ R)
  load translator source destination space =
      get_address_value store hk source ViolationSource.read_via >>= λ offset.
      copy_operand store hk operand_size (place translator space offset (size destination))
        destination
      >> done store hk operand_size

  unfoldable pub store_operand :
      TranslatorOps T X St → Operand → Operand → ℕ → Act X P H N B R St T (Outcome ℕ R)
  store_operand translator source destination space =
      get_address_value store hk destination ViolationSource.write_via >>= λ offset.
      copy_operand store hk operand_size source (place translator space offset (size source))
      >> done store hk operand_size

  -- the amount in an operand, which panics if it does not fit into a `usize`
  abbrev pub amount_of : {V : Type 0} → BitVecOps V → Operand → Act X P H N B R St T ℕ
  amount_of bv amount = read_operand store hk amount (size amount) ViolationSource.read >>= λ buf.
      of_result (some_or_panic (bv.to_usize (bv.from_bytes buf false)))

  unfoldable pub subpiece :
      {V : Type 0}
      → BitVecOps V
      → SubpieceOps
      → Operand
      → Operand
      → Operand
      → Act X P H N B R St T (Outcome ℕ R)
  subpiece bv order destination operand amount =
      check_size store hk operand_size (size amount)
      >> check_size store hk operand_size (size operand)
      >> check_size store hk operand_size (size destination)
      >> (amount_of bv amount >>= λ k.
          read_operand store hk operand (size operand) ViolationSource.read >>= λ input.
          of_result (some_or_panic (order.subpiece (size destination) input k)) >>= λ output.
          write_operand store hk destination output >> done store hk operand_size)

  -- The hooks are told of the instruction before the program counter is set to its address.
  abbrev pub enter : ℕ → St → Act X P H N B R St T (OrOutcome L St R)
  enter address step_state =
      notify (λ h s. hk.hook_architectural_step h s address step_state)
      >> change (λ s. store.set_address s (store.program_counter s) address)
      >> pure (OrOutcome.continue step_state)

  abbrev pub cache_insert : ConcreteContext P H N B R St T → ℕ → St → ConcreteContext P H N B R St T
  cache_insert c address st = record c {
    translator_cache = λ a. if a == address then some st else c.translator_cache a;
  }

  abbrev pub keep :
      ConcreteContext P H N B R St T
      → ℕ
      → T × Result X St
      → ConcreteContext P H N B R St T × Result (Error X) St
  keep c address (t, ok st) = (cache_insert (record c { translator_context = t }) address st, ok st)
  keep c address (t, err e) = (record c { translator_context = t }, err (Error.lift address e))
  keep c address (t, panic) = (record c { translator_context = t }, panic)

  -- the lifted instruction at an address, if it is cached, or from the bytes of the memory
  abbrev pub from_cache : TranslatorOps T X St → ℕ → Option St → Act X P H N B R St T St
  from_cache translator address (some st) = pure st
  from_cache translator address none = ask (λ s. store.view_values_from s address) >>= λ view c.
      keep c address (translator.lift_pcode c.translator_context address view)

  abbrev pub lifted : TranslatorOps T X St → ℕ → Act X P H N B R St T St
  lifted translator address c = from_cache translator address (c.translator_cache address) c

  unfoldable pub lift : TranslatorOps T X St → ℕ → Act X P H N B R St T (OrOutcome L St R)
  lift translator value c =
      let address = ir.new (store.memory_space c.state) value in
      (lifted translator address >>= enter address) c

  unfoldable pub operation : L → Op → Act X P H N B R St T (OrOutcome L (Unit {0}) R)
  operation location step =
      notify (λ h s. hk.hook_operation_step h s location step) >> pure (OrOutcome.continue tt)

  abbrev pub settle :
      ConcreteContext P H N B R St T
      → (IntrinsicHandler B N ℕ R × P)
        × Result (Intrinsics.Error PCode.Error X) (IntrinsicAction ℕ R)
      → ConcreteContext P H N B R St T × Result (Error X) (Outcome ℕ R)
  settle c ((t, s), ok a) = (record c { intrinsics = t; state = s }, ok (outcome_of a))
  settle c ((t, s), err e) = (record c { intrinsics = t; state = s }, err (Error.intrinsic e))
  settle c ((t, s), panic) = (record c { intrinsics = t; state = s }, panic)

  unfoldable pub intrinsic :
      ⦃keys : KeyOps N⦄
      → IntrinsicBehaviour B P Operand N ℕ R (Intrinsics.Error PCode.Error X)
      → N
      → List Operand
      → Option Operand
      → Act X P H N B R St T (Outcome ℕ R)
  intrinsic behaviours name operands result c =
      settle c (handle behaviours c.intrinsics name c.state operands result)
