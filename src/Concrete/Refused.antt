-- ===== src/Concrete/Refused.antt =====
-- Accesses that the memory refuses, under the hook that answers them by the policy of zeros.
use fuguex_core.Prelude.{
  ℕ, zero, suc, ◌≡◌, refl, ap, ◌∙◌, true, false, List, [], ◌∷◌, none, some, ok, err, replicate,
}
use fuguex_core.Paths.{HookError, HookOutcome, HookAction, from_action}
use fuguex_core.Microx.{
  ViolationSource, HookInvalidAccessAction, hook_invalid_memory_access, zero_policy, is_value,
  is_skip, into_value,
}
use fuguex_core.Paged.Segments
use fuguex_core.Paged.State.{zip_assign}
use fuguex_core.PCode
use fuguex_core.PCode.Bytes.{Operand}
use fuguex_core.Concrete.Hooks.{HookConcrete, provided, operand_read, operand_write}
use fuguex_core.Concrete.Store.{Store}
use fuguex_core.Concrete.Context.{ConcreteContext}
use fuguex_core.Concrete.Values.{read_operand, write_operand, last_change, any_change}
use fuguex_core.Concrete.Quiet.{Watches, taken, each_hook-Watches, notify-Watches}

-- `PolicyHook` of `ZeroPolicy` as a hook of the interpreter: the methods that it does not override are
-- those that the trait provides.
unfoldable pub zero_hook :
    {P X R L Op St : Type 0} → HookConcrete (Unit {0}) P (HookError PCode.Error X) R L Op St
zero_hook = record provided {
  hook_invalid_memory_access =
      λ h s address n source. hook_invalid_memory_access zero_policy h s address n source;
}

zip_assign_self : (n : ℕ) → zip_assign {V = ℕ} (replicate n 0) (replicate n 0) ≡ replicate n 0
unfolding zip_assign
zip_assign_self zero = refl
zip_assign_self (suc n) = ap (λ l. 0 ∷ l) (zip_assign_self n)

-- the answers of the hook to a refused read of `n` bytes, and to a refused write
abbrev zeros : {R P : Type 0} → ℕ → Unit {0} → P → HookOutcome (HookInvalidAccessAction R ℕ)
zeros n h s = from_action (HookInvalidAccessAction.value (replicate n 0))

abbrev skips : {R P : Type 0} → Unit {0} → P → HookOutcome (HookInvalidAccessAction R ℕ)
skips h s = from_action HookInvalidAccessAction.skip

taken-zeros :
    (R P : Type 0) (n : ℕ) (hs : List (Unit {0})) (s : P)
    → taken (λ o a. last_change o a) (zeros {R = R} n) hs s (some (zeros n tt s))
      ≡ some (zeros n tt s)
unfolding taken is_value from_action
taken-zeros R P n [] s = refl
taken-zeros R P n (h ∷ hs) s = taken-zeros R P n hs s

taken-skips :
    (R P : Type 0) (hs : List (Unit {0})) (s : P)
    → taken (λ o a. any_change o a) (skips {R = R}) hs s (false, true) ≡ (false, true)
unfolding taken is_skip from_action
taken-skips R P [] s = refl
taken-skips R P (h ∷ hs) s = taken-skips R P hs s

module _ (R : Type 0) {P : Type 0} (hooks hs : List (Unit {0})) where
  answered_read :
      (n : ℕ) (s : P)
      → hooks ≡ tt ∷ hs
      → taken (λ o a. last_change o a) (zeros {R = R} n) hooks s none ≡ some (zeros n tt s)
  unfolding taken is_value from_action
  answered_read n s e =
      ap (λ l. taken (λ o a. last_change o a) (zeros {R = R} n) l s none) e ∙ taken-zeros R P n hs s

  answered_write :
      (s : P)
      → hooks ≡ tt ∷ hs
      → taken (λ o a. any_change o a) (skips {R = R}) hooks s (false, false) ≡ (false, true)
  unfolding taken is_skip from_action
  answered_write s e =
      ap (λ l. taken (λ o a. any_change o a) (skips {R = R}) l s (false, false)) e
      ∙ taken-skips R P hs s

module _ (X P R L Op St : Type 0) where
  -- The hook only watches reads and writes of operands.
  zero_hook-hook_operand_read :
      (o : Operand)
      → Watches
          (λ h s.
            (zero_hook {P = P} {X = X} {R = R} {L = L} {Op = Op} {St = St}).hook_operand_read h s o)
          (λ h s. from_action HookAction.pass)
  unfolding zero_hook provided operand_read
  zero_hook-hook_operand_read (Operand.address v n) h s = refl
  zero_hook-hook_operand_read (Operand.constant v n) h s = refl
  zero_hook-hook_operand_read (Operand.register v n) h s = refl
  zero_hook-hook_operand_read (Operand.variable v n space) h s = refl

  zero_hook-hook_operand_write :
      (o : Operand) (bytes : List ℕ)
      → Watches
          (λ h s.
            (zero_hook {P = P} {X = X} {R = R} {L = L} {Op = Op} {St = St}).hook_operand_write h s o
              bytes)
          (λ h s. from_action HookAction.pass)
  unfolding zero_hook provided operand_write
  zero_hook-hook_operand_write (Operand.address v n) bytes h s = refl
  zero_hook-hook_operand_write (Operand.constant v n) bytes h s = refl
  zero_hook-hook_operand_write (Operand.register v n) bytes h s = refl
  zero_hook-hook_operand_write (Operand.variable v n space) bytes h s = refl

  zero_hook-zeros :
      (address n : ℕ)
      → Watches
          (λ h s.
            (zero_hook {P = P} {X = X} {R = R} {L = L} {Op = Op}
                {St = St}).hook_invalid_memory_access
              h s address n ViolationSource.read)
          (zeros n)
  unfolding zero_hook hook_invalid_memory_access zero_policy
  zero_hook-zeros address n h s = refl

  zero_hook-skips :
      (address n : ℕ)
      → Watches
          (λ h s.
            (zero_hook {P = P} {X = X} {R = R} {L = L} {Op = Op}
                {St = St}).hook_invalid_memory_access
              h s address n ViolationSource.write)
          skips
  unfolding zero_hook hook_invalid_memory_access zero_policy
  zero_hook-skips address n h s = refl

module _ {X P N B R St T : Type 0} (L Op : Type 0) (store : Store P) where
  -- With one or more hooks of the policy of zeros, a read of an operand of `n` bytes that the
  -- memory refuses, in an error that names `n` bytes, gives `n` zeros, and leaves the context as
  -- it was.
  pub read_operand-zero_hook :
      (o : Operand) (n address : ℕ) (e : Segments.Error) (hs : List (Unit {0}))
      (c : ConcreteContext P (Unit {0}) N B R St T)
      → c.hooks ≡ tt ∷ hs
      → store.read c.state o ≡ err (PCode.memory e)
      → Segments.access e ≡ some (address, n)
      → read_operand {X = X} store (zero_hook {L = L} {Op = Op}) o n ViolationSource.read c
        ≡ (c, ok (replicate n 0))
  unfolding read_operand from_action into_value
  read_operand-zero_hook o n address e hs c some_hooks refused access =
      rw
        (
          read_operand,
          notify-Watches _ _ c (zero_hook-hook_operand_read X P R L Op St o),
          refused,
          access,
          each_hook-Watches _ (zeros n) (λ o a. last_change o a) none c
              (zero_hook-zeros X P R L Op St address n),
          answered_read R c.hooks hs n c.state some_hooks,
        )
        (ap (λ l. (c, ok l)) (zip_assign_self n))

  -- With one or more hooks of the policy of zeros, a write that the memory refuses is skipped: it
  -- succeeds, and leaves the context as it was.
  pub write_operand-zero_hook :
      (o : Operand) (n address : ℕ) (bytes : List ℕ) (e : Segments.Error) (hs : List (Unit {0}))
      (c : ConcreteContext P (Unit {0}) N B R St T)
      → c.hooks ≡ tt ∷ hs
      → store.write c.state o bytes ≡ err (PCode.memory e)
      → Segments.access e ≡ some (address, n)
      → write_operand {X = X} store (zero_hook {L = L} {Op = Op}) o bytes c ≡ (c, ok tt)
  unfolding write_operand
  write_operand-zero_hook o n address bytes e hs c some_hooks refused access =
      rw
        (
          write_operand,
          refused,
          access,
          each_hook-Watches _ skips (λ o a. any_change o a) (false, false) c
              (zero_hook-skips X P R L Op St address n),
          answered_write R c.hooks hs c.state some_hooks,
        )
        (notify-Watches _ _ c (zero_hook-hook_operand_write X P R L Op St o bytes))
