-- ===== src/Concrete/Branches.antt =====
-- Branches, calls and returns of the interpreter.
use fuguex_core.Prelude.{ℕ, ◌-◌, ◌^◌, Bool, true, false, not, ltb, ◌==◌, if◌then◌else◌, ok, panic}
use fuguex_core.Address.{AddressOps, u64_limit}
use fuguex_core.Paths.{HookError, HookCBranchAction, HookCallAction}
use fuguex_core.Register.{ReturnLocation}
use fuguex_core.Microx.{ViolationSource}
use fuguex_core.Machine.Types.{ℤ, pos, negsuc, Branch, Outcome}
use fuguex_core.PCode
use fuguex_core.PCode.Bytes.{Operand, size, ByteOps}
use fuguex_core.Concrete.Hooks.{HookConcrete}
use fuguex_core.Concrete.Store.{Store, TranslatorOps, BoolBytes, same_operand}
use fuguex_core.Concrete.Context.{
  Error, Act, pure, fail, of_result, ◌>>=◌, ◌>>◌, Loop, go, stop, each_hook, ask, change,
}
use fuguex_core.Concrete.Values.{read_operand, get_address_value, set_address_value}

-- `value as isize` of a `u64`
abbrev pub as_isize : ℕ → ℤ
as_isize value = if ltb value (2 ^ 63) then pos value else negsuc (u64_limit - 1 - value)

module _ {R : Type 0} where
  -- the hooks on a conditional branch: one that flips is enough, one that halts ends the loop
  abbrev pub take_flip : HookCBranchAction R → Bool → Loop Bool R
  take_flip HookCBranchAction.pass flip = go flip
  take_flip HookCBranchAction.flip flip = go true
  take_flip (HookCBranchAction.halt r) flip = stop r

  -- the hooks on a call
  abbrev pub take_skip : HookCallAction R → Bool → Loop Bool R
  take_skip HookCallAction.pass skip = go skip
  take_skip HookCallAction.skip skip = go true
  take_skip (HookCallAction.halt r) skip = stop r

module _ {X P H N B R St T L Op : Type 0} ⦃ir : AddressOps⦄ ⦃bytes : ByteOps⦄ ⦃bools : BoolBytes⦄
    (store : Store P) (hk : HookConcrete H P (HookError PCode.Error X) R L Op St)
    (translator : TranslatorOps T X St) where
  abbrev pub in_memory : ℕ → Act X P H N B R St T ℕ
  in_memory value c = (c, ok (ir.new (store.memory_space c.state) value))

  unfoldable pub branch : Operand → Act X P H N B R St T (Outcome ℕ R)
  branch (Operand.constant value n) = pure (Outcome.branch (Branch.local (as_isize value)))
  branch (Operand.address value n) =
      in_memory value >>= λ a. pure (Outcome.branch (Branch.global a))
  branch (Operand.register offset n) =
      fail (Error.unsupported_branch_destination translator.register_space_id)
  branch (Operand.variable offset n space) = fail (Error.unsupported_branch_destination space)

  abbrev pub branch_if : Operand → Bool → Act X P H N B R St T (Outcome ℕ R)
  branch_if destination true = branch destination
  branch_if destination false = pure (Outcome.branch Branch.next)

  -- The condition as the hooks leave it; a flip is written back to its operand.
  abbrev pub flipped_condition : Operand → Bool → Bool → Act X P H N B R St T Bool
  flipped_condition condition false v = pure v
  flipped_condition condition true v =
      change (λ s. store.set_operand s condition (not v)) >> pure (not v)

  abbrev pub branch_on : Operand → Operand → Loop Bool R → Act X P H N B R St T (Outcome ℕ R)
  branch_on destination condition (stop r) = pure (Outcome.halt r)
  branch_on destination condition (go flip) =
      read_operand store hk condition 1 ViolationSource.read
      >>= (λ buf. flipped_condition condition flip (bools.bool_from_bytes buf))
      >>= λ v. branch_if destination v

  unfoldable pub cbranch : Operand → Operand → Act X P H N B R St T (Outcome ℕ R)
  cbranch destination condition =
      if size condition == 1
      then each_hook (λ h s. hk.hook_cbranch h s destination condition)
          (λ o flip. take_flip o.action flip) false
        >>= branch_on destination condition
      else of_result panic

  -- `with_return_location`, for a function that may change the context
  unfoldable pub with_return_location :
      {U : Type 0} → (Operand → Act X P H N B R St T U) → Act X P H N B R St T U
  with_return_location f c = elim (store.return_location c.state) [
    | ReturnLocation.register operand ↦ f operand c
    | ReturnLocation.relative operand offset ↦
        (ask (λ s. store.get_address s operand) >>= λ address. f (
            Operand.address (ir.new (store.memory_space c.state) (ir.add address offset))
              (bytes.address_size (store.memory_space c.state))))
          c
  ]

  abbrev pub pop_extra : ℕ → Operand → Act X P H N B R St T (Unit {0})
  pop_extra extra pointer =
      if ltb 0 extra
      then (ask (λ s. store.get_address s pointer) >>= λ address.
          set_address_value store hk pointer (ir.add address extra))
      else pure tt

  unfoldable pub skip_return : Act X P H N B R St T ℕ
  skip_return =
      with_return_location (λ operand. ask (λ s. store.get_address s operand)) >>= λ address.
      (λ c. pop_extra (store.extra_pop c.state) (store.stack_pointer c.state) c)
      >> in_memory address

  abbrev pub after_call : ℕ → Loop Bool R → Act X P H N B R St T (Outcome ℕ R)
  after_call address (stop r) = pure (Outcome.halt r)
  after_call address (go true) = skip_return >>= λ a. pure (Outcome.branch (Branch.global a))
  after_call address (go false) = pure (Outcome.branch (Branch.global address))

  -- the hooks on a call, and where it goes
  abbrev pub call_to : ℕ → Act X P H N B R St T (Outcome ℕ R)
  call_to address =
      each_hook (λ h s. hk.hook_call h s address) (λ o skip. take_skip o.action skip) false
      >>= after_call address

  unfoldable pub call : Operand → Act X P H N B R St T (Outcome ℕ R)
  call (Operand.address value n) = in_memory value >>= call_to
  call (Operand.constant value n) =
      fail (Error.unsupported_branch_destination translator.constant_space_id)
  call (Operand.register offset n) =
      fail (Error.unsupported_branch_destination translator.register_space_id)
  call (Operand.variable offset n space) = fail (Error.unsupported_branch_destination space)

  -- `AddressValue::new(self.state.memory_space(), self.get_address_value(..))`
  abbrev pub target_in : Operand → Act X P H N B R St T ℕ
  target_in destination c =
      let space = store.memory_space c.state in
      (get_address_value store hk destination ViolationSource.read_via >>= λ a.
      pure (ir.new space a))
        c

  unfoldable pub icall : Operand → Act X P H N B R St T (Outcome ℕ R)
  icall destination = target_in destination >>= call_to

  unfoldable pub return_ : Operand → Act X P H N B R St T (Outcome ℕ R)
  return_ destination = target_in destination >>= λ a. pure (Outcome.branch (Branch.global a))

  unfoldable pub ibranch : Operand → Act X P H N B R St T (Outcome ℕ R)
  unfolding icall
  ibranch destination c =
      if same_operand destination (store.program_counter c.state)
      then icall destination c
      else (target_in destination >>= λ a. pure (Outcome.branch (Branch.global a))) c
