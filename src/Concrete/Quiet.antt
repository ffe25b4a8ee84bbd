-- ===== src/Concrete/Quiet.antt =====
-- Hooks that only watch reads and writes, and the operations under them.
use fuguex_core.Prelude.{
  ℕ, Bool, true, false, ◌||◌, ◌≤◌, ◌<◌, ◌≡◌, refl, sym, ap, ◌∙◌, List, [], ◌∷◌, ltb_no, ==_iff,
  if◌then◌else◌, ok, panic, length, arith,
}
use fuguex_core.Paths.{HookError, HookOutcome, HookAction}
use fuguex_core.Microx.{ViolationSource}
use fuguex_core.Machine.Types.{Branch, Outcome}
use fuguex_core.PCode
use fuguex_core.PCode.Bytes.{Operand, size}
use fuguex_core.Concrete.Hooks.{Hooked, HookConcrete}
use fuguex_core.Concrete.Store.{Store}
use fuguex_core.Concrete.Context.{
  ConcreteContext, pure, then_do, loop_value, go, each, each_hook, put_back, in_front, notify,
  after_hook,
}
use fuguex_core.Concrete.Values.{
  read_operand, read_result, write_operand, write_result, copied, copy_operand,
}
use fuguex_core.Concrete.Operations.{copy}

copied_self : {E : Type 0} (bytes : List ℕ) → copied {E = E} (length bytes) (ok bytes) ≡ ok bytes
copied_self bytes =
    ap (λ b. if b then ok bytes else panic) ((==_iff (length bytes) (length bytes)).1 refl)

pub not_less : (a b : ℕ) → b ≤ a → ¬ (a < b)
not_less a b h k = omega arith

-- what a loop makes of the answers, the first hook's first
unfoldable pub taken :
    {H P A B : Type 0} → (HookOutcome A → B → B) → (H → P → HookOutcome A) → List H → P → B → B
taken f answer [] s b = b
taken f answer (h ∷ hs) s b = taken f answer hs s (f (answer h s) b)

-- whether one of the hooks wants something
unfoldable pub any_wants : {H : Type 0} → (H → Bool) → List H → Bool
any_wants wants [] = false
any_wants wants (h ∷ hs) = wants h || any_wants wants hs

pub or_assoc : (a b c : Bool) → ((a || b) || c) ≡ (a || (b || c))
or_assoc true b c = refl
or_assoc false b c = refl

pub or_false : (a : Bool) → (a || false) ≡ a
or_false true = refl
or_false false = refl

module _ {H P E A : Type 0} where
  -- A call with the given answers, which changes neither the hook nor the state.
  abbrev pub Watches : (H → P → Hooked H P E A) → (H → P → HookOutcome A) → Type 0
  Watches call answer = (h : H) (s : P) → call h s ≡ ((h, s), ok (answer h s))

  pub each-Watches :
      {B R : Type 0} (call : H → P → Hooked H P E A) (answer : H → P → HookOutcome A)
      (f : HookOutcome A → B → B) (hs : List H) (s : P) (b : B)
      → Watches call answer
      → each {R = R} call (λ o b. go (f o b)) hs s b ≡ ((hs, s), ok (go (taken f answer hs s b)))
  unfolding each taken
  each-Watches call answer f [] s b quiet = refl
  each-Watches {B} {R} call answer f (h ∷ hs) s b quiet =
      ap
        (after_hook (λ o b. go (f o b)) b hs
          (λ s' b'. each {R = R} call (λ o b. go (f o b)) hs s' b'))
        (quiet h s)
      ∙ ap (in_front h) (each-Watches call answer f hs s (f (answer h s) b) quiet)

module _ {X P H N B R St T : Type 0} where
  pub each_hook-Watches :
      {A O Q : Type 0} (call : H → P → Hooked H P (HookError PCode.Error X) O)
      (answer : H → P → HookOutcome O) (f : HookOutcome O → A → A) (a : A)
      (c : ConcreteContext P H N B R St T)
      → Watches call answer
      → each_hook {Q = Q} call (λ o a. go (f o a)) a c
        ≡ (c, ok (go (taken f answer c.hooks c.state a)))
  unfolding each_hook
  each_hook-Watches call answer f a c quiet =
      ap (put_back c) (each-Watches call answer f c.hooks c.state a quiet)

  pub notify-Watches :
      {A : Type 0} (call : H → P → Hooked H P (HookError PCode.Error X) A)
      (answer : H → P → HookOutcome A) (c : ConcreteContext P H N B R St T)
      → Watches call answer
      → notify call c ≡ (c, ok tt)
  unfolding notify
  notify-Watches call answer c quiet =
      ap (λ r. then_do r (λ a. pure (loop_value a)))
        (each_hook-Watches call answer (λ o a. tt) tt c quiet)

module _ {X P H N B R St T L Op : Type 0} (store : Store P)
    (hk : HookConcrete H P (HookError PCode.Error X) R L Op St) where
  -- A successful read of an operand of the buffer's size, if the hooks only watch it.
  pub read_operand-Watches :
      (answer : H → P → HookOutcome (HookAction R)) (o : Operand) (bytes : List ℕ)
      (kind : ViolationSource) (c : ConcreteContext P H N B R St T)
      → Watches (λ h s. hk.hook_operand_read h s o) answer
      → store.read c.state o ≡ ok bytes
      → read_operand store hk o (length bytes) kind c ≡ (c, ok bytes)
  unfolding read_operand
  read_operand-Watches answer o bytes kind c quiet shown =
      ap
        (λ r. then_do r (λ a c.
          read_result store hk o (length bytes) kind (copied (length bytes) (store.read c.state o))
            c))
        (notify-Watches _ answer c quiet)
      ∙ ap (λ r. read_result store hk o (length bytes) kind (copied (length bytes) r) c) shown
      ∙ ap (λ r. read_result store hk o (length bytes) kind r c) (copied_self bytes)

  pub write_operand-Watches :
      (answer : H → P → HookOutcome (HookAction R)) (o : Operand) (bytes : List ℕ) (s' : P)
      (c : ConcreteContext P H N B R St T)
      → Watches (λ h s. hk.hook_operand_write h s o bytes) answer
      → store.write c.state o bytes ≡ ok s'
      → write_operand store hk o bytes c ≡ (record c { state = s' }, ok tt)
  unfolding write_operand
  write_operand-Watches answer o bytes s' c quiet written =
      ap
        (λ r.
          then_do (write_result store hk o bytes r c)
            (λ a. notify (λ h s. hk.hook_operand_write h s o bytes)))
        written
      ∙ notify-Watches _ answer (record c { state = s' }) quiet

  -- With hooks that only watch, `copy` writes what it reads: the destination then reads as the
  -- bytes of the source, and nothing else of the context changes but the state. The source has at
  -- most the maximal operand size, its bytes are as many as its size, and both accesses succeed.
  pub copy-Watches :
      (on_read on_write : H → P → HookOutcome (HookAction R)) (operand_size : ℕ)
      (source destination : Operand) (bytes : List ℕ) (s' : P) (c : ConcreteContext P H N B R St T)
      → Watches (λ h s. hk.hook_operand_read h s source) on_read
      → Watches (λ h s. hk.hook_operand_write h s destination bytes) on_write
      → store.IsValid c.state
      → size source ≤ operand_size
      → length bytes ≡ size source
      → store.read c.state source ≡ ok bytes
      → store.write c.state destination bytes ≡ ok s'
      → (copy store hk operand_size source destination c
          ≡ (record c { state = s' }, ok (Outcome.branch Branch.next)))
        × (store.read s' destination ≡ ok bytes)
  unfolding copy copy_operand
  copy-Watches on_read on_write operand_size source destination bytes s' c quiet quiet' v fits n
        shown written =
      (
        rw
            (
              copy,
              copy_operand,
              ltb_no operand_size (size source) (not_less operand_size (size source) fits),
              sym n,
              read_operand-Watches on_read source bytes ViolationSource.read c quiet shown,
              write_operand-Watches on_write destination bytes s' c quiet' written,
            )
            refl,
        store.read-write c.state s' destination bytes v written,
      )
