-- ===== src/Concrete/Flips.antt =====
-- Conditional branches under hooks that flip them.
use fuguex_core.Prelude.{
  ℕ, ◌≡◌, refl, sym, ap, ◌∙◌, Bool, true, false, ◌||◌, List, [], ◌∷◌, if◌then◌else◌, ok, length,
}
use fuguex_core.Address.{AddressOps}
use fuguex_core.Paths.{HookError, HookOutcome, HookAction, HookCBranchAction, from_action}
use fuguex_core.Microx.{ViolationSource}
use fuguex_core.PCode
use fuguex_core.PCode.Bytes.{Operand, size, ByteOps}
use fuguex_core.Concrete.Hooks.{Hooked, HookConcrete}
use fuguex_core.Concrete.Store.{Store, TranslatorOps, BoolBytes}
use fuguex_core.Concrete.Context.{
  ConcreteContext, each, Loop, in_front, after_hook, go, turn, each_hook, then_do,
}
use fuguex_core.Concrete.Branches.{cbranch, branch_if, take_flip, flipped_condition}
use fuguex_core.Concrete.Quiet.{Watches, any_wants, or_assoc, or_false, read_operand-Watches}

abbrev pub flip_answer : {H P R : Type 0} → (H → Bool) → H → P → HookOutcome (HookCBranchAction R)
flip_answer wants h s =
    from_action (if wants h then HookCBranchAction.flip else HookCBranchAction.pass)

take_flip_answer :
    {R : Type 0} (b flip : Bool)
    → take_flip {R = R} (if b then HookCBranchAction.flip else HookCBranchAction.pass) flip
      ≡ go (flip || b)
take_flip_answer true true = refl
take_flip_answer true false = refl
take_flip_answer false true = refl
take_flip_answer false false = refl

abbrev take : {R : Type 0} → HookOutcome (HookCBranchAction R) → Bool → Loop Bool R
take o flip = take_flip o.action flip

module _ {H P E R : Type 0} where
  -- what the loop of `cbranch` makes of hooks that flip or pass
  each-flips :
      (call : H → P → Hooked H P E (HookCBranchAction R)) (wants : H → Bool) (hs : List H) (s : P)
      (flip : Bool)
      → Watches call (flip_answer wants)
      → each call (λ o flip. take_flip o.action flip) hs s flip
        ≡ ((hs, s), ok (go (flip || any_wants wants hs)))
  unfolding each any_wants from_action
  each-flips call wants [] s flip quiet = ap (λ b. (([], s), ok (go b))) (sym (or_false flip))
  each-flips call wants (h ∷ hs) s flip quiet =
      ap (after_hook take flip hs (λ s' b'. each call take hs s' b')) (quiet h s)
      ∙ ap (turn hs (λ s' b'. each call take hs s' b') h s) (take_flip_answer (wants h) flip)
      ∙ ap (in_front h) (each-flips call wants hs s (flip || wants h) quiet)
      ∙ ap (λ b. ((h ∷ hs, s), ok (go b))) (or_assoc flip (wants h) (any_wants wants hs))

module _ {X P H N B R St T L Op : Type 0} ⦃ir : AddressOps⦄ ⦃bytes : ByteOps⦄ ⦃bools : BoolBytes⦄
    (store : Store P) (hk : HookConcrete H P (HookError PCode.Error X) R L Op St)
    (translator : TranslatorOps T X St) where
  pub cbranch-Watches :
      (wants : H → Bool) (on_read : H → P → HookOutcome (HookAction R))
      (destination condition : Operand) (buf : List ℕ) (c : ConcreteContext P H N B R St T)
      → Watches (λ h s. hk.hook_cbranch h s destination condition) (flip_answer wants)
      → Watches (λ h s. hk.hook_operand_read h s condition) on_read
      → size condition ≡ 1
      → length buf ≡ 1
      → store.read c.state condition ≡ ok buf
      → cbranch store hk translator destination condition c
        ≡ then_do
            (flipped_condition store hk translator condition
              (any_wants wants c.hooks)
              (bools.bool_from_bytes buf)
              c)
            (branch_if store hk translator destination)
  unfolding cbranch each_hook
  cbranch-Watches wants on_read destination condition buf c quiet quiet' one one' shown =
      rw
        (
          cbranch,
          each_hook,
          one,
          each-flips (λ h s. hk.hook_cbranch h s destination condition) wants c.hooks c.state false
              quiet,
          sym one',
          read_operand-Watches store hk on_read condition buf ViolationSource.read c quiet' shown,
        )
        refl
