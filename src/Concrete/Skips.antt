-- ===== src/Concrete/Skips.antt =====
-- Calls under hooks that skip them.
use fuguex_core.Prelude.{
  ℕ, ◌≡◌, refl, sym, ap, ◌∙◌, Bool, true, false, ◌||◌, List, [], ◌∷◌, if◌then◌else◌, ok,
}
use fuguex_core.Address.{AddressOps}
use fuguex_core.Paths.{HookError, HookOutcome, HookCallAction, from_action}
use fuguex_core.Register.{ReturnLocation}
use fuguex_core.Machine.Types.{Branch, Outcome}
use fuguex_core.PCode
use fuguex_core.PCode.Bytes.{Operand, ByteOps}
use fuguex_core.Concrete.Hooks.{Hooked, HookConcrete}
use fuguex_core.Concrete.Store.{Store, TranslatorOps, BoolBytes}
use fuguex_core.Concrete.Context.{
  ConcreteContext, Loop, go, each, each_hook, in_front, after_hook, turn,
}
use fuguex_core.Concrete.Branches.{call, take_skip, after_call, skip_return, with_return_location}
use fuguex_core.Concrete.Quiet.{Watches, any_wants, or_assoc, or_false}

abbrev pub skip_answer : {H P R : Type 0} → (H → Bool) → H → P → HookOutcome (HookCallAction R)
skip_answer wants h s = from_action (if wants h then HookCallAction.skip else HookCallAction.pass)

take_skip_answer :
    {R : Type 0} (b skip : Bool)
    → take_skip {R = R} (if b then HookCallAction.skip else HookCallAction.pass) skip
      ≡ go (skip || b)
take_skip_answer true true = refl
take_skip_answer true false = refl
take_skip_answer false true = refl
take_skip_answer false false = refl

abbrev take : {R : Type 0} → HookOutcome (HookCallAction R) → Bool → Loop Bool R
take o skip = take_skip o.action skip

module _ {H P E R : Type 0} where
  -- what the loop of `call` makes of hooks that skip or pass
  each-skips :
      (call : H → P → Hooked H P E (HookCallAction R)) (wants : H → Bool) (hs : List H) (s : P)
      (skip : Bool)
      → Watches call (skip_answer wants)
      → each call (λ o skip. take_skip o.action skip) hs s skip
        ≡ ((hs, s), ok (go (skip || any_wants wants hs)))
  unfolding each any_wants from_action
  each-skips call wants [] s skip quiet = ap (λ b. (([], s), ok (go b))) (sym (or_false skip))
  each-skips call wants (h ∷ hs) s skip quiet =
      ap (after_hook take skip hs (λ s' b'. each call take hs s' b')) (quiet h s)
      ∙ ap (turn hs (λ s' b'. each call take hs s' b') h s) (take_skip_answer (wants h) skip)
      ∙ ap (in_front h) (each-skips call wants hs s (skip || wants h) quiet)
      ∙ ap (λ b. ((h ∷ hs, s), ok (go b))) (or_assoc skip (wants h) (any_wants wants hs))

module _ {X P H N B R St T L Op : Type 0} ⦃ir : AddressOps⦄ ⦃bytes : ByteOps⦄ ⦃bools : BoolBytes⦄
    (store : Store P) (hk : HookConcrete H P (HookError PCode.Error X) R L Op St)
    (translator : TranslatorOps T X St) where
  returned :
      (location : Operand) (back target : ℕ) (skip : Bool) (c : ConcreteContext P H N B R St T)
      → store.return_location c.state ≡ ReturnLocation.register location
      → store.get_address c.state location ≡ ok back
      → store.extra_pop c.state ≡ 0
      → after_call store hk translator target (go skip) c ≡ (
        c,
        ok (
            Outcome.branch
              (Branch.global (if skip then ir.new (store.memory_space c.state) back else target))),
      )
  unfolding skip_return with_return_location
  returned location back target false c at_register at none_popped = refl
  returned location back target true c at_register at none_popped =
      rw (skip_return, with_return_location, at_register, at, none_popped) refl

  -- With hooks that pass or skip, on a state whose return location is a register that holds an
  -- address, and a calling convention that pops nothing on a return, `call` of an address goes to
  -- that address if no hook skips, and to the address in the return location if some do; the
  -- context is as it was.
  pub call-skips :
      (wants : H → Bool) (value n back : ℕ) (location : Operand)
      (c : ConcreteContext P H N B R St T)
      → Watches
          (λ h s. hk.hook_call h s (ir.new (store.memory_space c.state) value))
          (skip_answer wants)
      → store.return_location c.state ≡ ReturnLocation.register location
      → store.get_address c.state location ≡ ok back
      → store.extra_pop c.state ≡ 0
      → call store hk translator (Operand.address value n) c ≡ (
        c,
        ok (
            Outcome.branch (
              Branch.global (
                if any_wants wants c.hooks
                then ir.new (store.memory_space c.state) back
                else ir.new (store.memory_space c.state) value))),
      )
  unfolding call each_hook
  call-skips wants value n back location c quiet at_register at none_popped =
      let target = ir.new (store.memory_space c.state) value in
      rw
        (
          call,
          each_hook,
          each-skips (λ h s. hk.hook_call h s target) wants c.hooks c.state false quiet,
          returned location back target (any_wants wants c.hooks) c at_register at none_popped,
        )
        refl
