-- ===== src/Concrete/Cache.antt =====
-- The cache of lifted instructions.
use fuguex_core.Prelude.{
  ℕ, ◌≡◌, refl, sym, ap, ◌∙◌, List, Option, none, some, ==_iff, if◌then◌else◌, Result, ok, err,
  panic, map_err, err_ok, ok_inj,
}
use fuguex_core.Address.{AddressOps}
use fuguex_core.Paths.{HookError}
use fuguex_core.PCode
use fuguex_core.PCode.Bytes.{ByteOps}
use fuguex_core.Concrete.Hooks.{HookConcrete}
use fuguex_core.Concrete.Store.{Store, TranslatorOps}
use fuguex_core.Concrete.Context.{Error, ConcreteContext, then_do}
use fuguex_core.Concrete.Operations.{lift, lifted, enter, keep, from_cache}

module _ {X P H N B R St T L Op : Type 0} ⦃ir : AddressOps⦄ ⦃bytes : ByteOps⦄ (store : Store P)
    (hk : HookConcrete H P (HookError PCode.Error X) R L Op St) (operand_size : ℕ)
    (translator : TranslatorOps T X St) where
  kept-cached :
      (address : ℕ) (st : St) (c c' : ConcreteContext P H N B R St T) (r : T × Result X St)
      → keep store hk operand_size c address r ≡ (c', ok st)
      → c'.translator_cache address ≡ some st
  kept-cached address st c c' (t, ok st') e =
      ap (λ r. r.0.translator_cache address) (sym e)
      ∙ ap (λ b. if b then some st' else c.translator_cache address)
          ((==_iff address address).1 refl)
      ∙ ap some (ok_inj (ap (λ r. r.1) e))
  kept-cached address st c c' (t, err x) e = absurd (err_ok (ap (λ r. r.1) e))
  kept-cached address st c c' (t, panic) e = cc

  viewed-cached :
      (address : ℕ) (st : St) (c c' : ConcreteContext P H N B R St T)
      (r : Result PCode.Error (List ℕ))
      → then_do
          (c, map_err Error.state r)
          (λ view c.
            keep store hk operand_size c address
              (translator.lift_pcode c.translator_context address view))
        ≡ (c', ok st)
      → c'.translator_cache address ≡ some st
  viewed-cached address st c c' (ok view) e =
      kept-cached address st c c' (translator.lift_pcode c.translator_context address view) e
  viewed-cached address st c c' (err x) e = absurd (err_ok (ap (λ r. r.1) e))
  viewed-cached address st c c' panic e = cc

  from_cache-cached :
      (address : ℕ) (st : St) (c c' : ConcreteContext P H N B R St T) (o : Option St)
      → c.translator_cache address ≡ o
      → from_cache store hk operand_size translator address o c ≡ (c', ok st)
      → c'.translator_cache address ≡ some st
  from_cache-cached address st c c' none p e =
      viewed-cached address st c c' (store.view_values_from c.state address) e
  from_cache-cached address st c c' (some st') p e =
      ap (λ r. r.0.translator_cache address) (sym e) ∙ p ∙ ap some (ok_inj (ap (λ r. r.1) e))

  -- Once an instruction was lifted or found in the cache, `lift` of its address enters that
  -- instruction, whatever the state of the context is then: it neither looks at the bytes of the
  -- memory, which may have been written since, nor asks the translator.
  pub lift-lifted :
      (value : ℕ) (st : St) (c c' : ConcreteContext P H N B R St T) (s : P)
      → lifted store hk operand_size translator (ir.new (store.memory_space s) value) c
        ≡ (c', ok st)
      → lift store hk operand_size translator value (record c' { state = s })
        ≡ enter store hk operand_size
            (ir.new (store.memory_space s) value)
            st
            (record c' { state = s })
  unfolding lift
  lift-lifted value st c c' s e =
      let address = ir.new (store.memory_space s) value in
      ap
        (λ o.
          then_do (from_cache store hk operand_size translator address o (record c' { state = s }))
            (enter store hk operand_size address))
        (from_cache-cached address st c c' (c.translator_cache address) refl e)
