-- ===== src/Concrete/Values.antt =====
-- Reads and writes of operands with the hooks around them, and addresses in operands.
use fuguex_core.Prelude.{
  ℕ, Bool, true, false, ◌||◌, List, Option, none, some, ltb, ◌==◌, if◌then◌else◌, Result, ok, err,
  panic, length, replicate,
}
use fuguex_core.Address.{AddressOps}
use fuguex_core.Paths.{HookError, HookOutcome}
use fuguex_core.Microx.{ViolationSource, HookInvalidAccessAction, is_value, is_skip, into_value}
use fuguex_core.Paged.Segments
use fuguex_core.Paged.State.{zip_assign}
use fuguex_core.PCode
use fuguex_core.PCode.Bytes.{
  Operand, size, ByteOps, pointer_8_size, pointer_16_size, pointer_32_size, pointer_64_size,
}
use fuguex_core.Concrete.Hooks.{HookConcrete}
use fuguex_core.Concrete.Store.{Store}
use fuguex_core.Concrete.Context.{
  Error, Act, pure, fail, of_result, ◌>>=◌, ◌>>◌, go, each_hook, loop_value, notify, ask, set_state,
}

-- `copy_from_slice` into a buffer of `n` bytes panics if the lengths differ.
abbrev pub copied : {E : Type 0} → ℕ → Result E (List ℕ) → Result E (List ℕ)
copied n (ok bytes) = if length bytes == n then ok bytes else panic
copied n (err e) = err e
copied n panic = panic

module _ {R : Type 0} where
  -- The last answer that changed the state or has a value.
  abbrev pub last_change :
      HookOutcome (HookInvalidAccessAction R ℕ)
      → Option (HookOutcome (HookInvalidAccessAction R ℕ))
      → Option (HookOutcome (HookInvalidAccessAction R ℕ))
  last_change o old = if o.state_changed || is_value o.action then some o else old

  -- whether a hook changed the state, and whether one skips the write
  abbrev pub any_change : HookOutcome (HookInvalidAccessAction R ℕ) → Bool × Bool → Bool × Bool
  any_change o (changed, skipped) = (changed || o.state_changed, skipped || is_skip o.action)

module _ {X P H N B R St T L Op : Type 0} (store : Store P)
    (hk : HookConcrete H P (HookError PCode.Error X) R L Op St) where
  -- what is read after the hooks answered a refused access `e`
  abbrev pub after_answer :
      Operand
      → ℕ
      → Segments.Error
      → Option (HookOutcome (HookInvalidAccessAction R ℕ))
      → Act X P H N B R St T (List ℕ)
  after_answer operand n e none = fail (Error.state (PCode.memory e))
  after_answer operand n e (some o) = elim (into_value o.action) [
    | some values ↦ pure (zip_assign values (replicate n 0))
    | none ↦ ask (λ s. copied n (store.read s operand))
  ]

  abbrev pub ask_hooks :
      Operand
      → ℕ
      → ViolationSource
      → Segments.Error
      → Option (ℕ × ℕ)
      → Act X P H N B R St T (List ℕ)
  ask_hooks operand n kind e none = of_result panic
  ask_hooks operand n kind e (some (address, size)) =
      each_hook (λ h s. hk.hook_invalid_memory_access h s address size kind)
        (λ o a. go (last_change o a)) none
      >>= λ a. after_answer operand n e (loop_value a)

  abbrev pub read_result :
      Operand → ℕ → ViolationSource → Result PCode.Error (List ℕ) → Act X P H N B R St T (List ℕ)
  read_result operand n kind (ok bytes) = pure bytes
  read_result operand n kind (err (PCode.memory e)) = ask_hooks operand n kind e (Segments.access e)
  read_result operand n kind (err e) = fail (Error.state e)
  read_result operand n kind panic = of_result panic

  -- `read_operand`, and `read_operand_with` before its function is applied, into a buffer of `n`
  -- zeros. The assertion on the size of the error is for debug builds only.
  unfoldable pub read_operand : Operand → ℕ → ViolationSource → Act X P H N B R St T (List ℕ)
  read_operand operand n kind = notify (λ h s. hk.hook_operand_read h s operand) >> λ c.
      read_result operand n kind (copied n (store.read c.state operand)) c

  -- the second attempt at a write, whose error counts only if no hook skips it
  abbrev pub retry : Operand → List ℕ → Bool → Act X P H N B R St T (Unit {0})
  retry operand buf skipped c = elim (store.write c.state operand buf) [
    | ok s ↦ (record c { state = s }, ok tt)
    | err e ↦ (c, if skipped then ok tt else err (Error.state e))
    | panic ↦ (c, panic)
  ]

  abbrev pub after_refusal :
      Operand → List ℕ → Segments.Error → Bool × Bool → Act X P H N B R St T (Unit {0})
  after_refusal operand buf e (true, skipped) = retry operand buf skipped
  after_refusal operand buf e (false, true) = pure tt
  after_refusal operand buf e (false, false) = fail (Error.state (PCode.memory e))

  abbrev pub offer_hooks :
      Operand → List ℕ → Segments.Error → Option (ℕ × ℕ) → Act X P H N B R St T (Unit {0})
  offer_hooks operand buf e none = of_result panic
  offer_hooks operand buf e (some (address, size)) =
      each_hook (λ h s. hk.hook_invalid_memory_access h s address size ViolationSource.write)
        (λ o a. go (any_change o a)) (false, false)
      >>= λ a. after_refusal operand buf e (loop_value a)

  abbrev pub write_result :
      Operand → List ℕ → Result PCode.Error P → Act X P H N B R St T (Unit {0})
  write_result operand buf (err (PCode.memory e)) = offer_hooks operand buf e (Segments.access e)
  write_result operand buf r = λ c. set_state c r

  unfoldable pub write_operand : Operand → List ℕ → Act X P H N B R St T (Unit {0})
  write_operand operand buf =
      (λ c. write_result operand buf (store.write c.state operand buf) c)
      >> notify (λ h s. hk.hook_operand_write h s operand buf)

  unfoldable pub copy_operand : ℕ → Operand → Operand → Act X P H N B R St T (Unit {0})
  copy_operand operand_size source destination =
      let n = size source in
      if ltb operand_size n
      then fail (Error.unsupported_operand_size n operand_size)
      else read_operand source n ViolationSource.read >>= λ buf. write_operand destination buf

module _ {X P H N B R St T L Op : Type 0} ⦃ir : AddressOps⦄ ⦃bytes : ByteOps⦄ (store : Store P)
    (hk : HookConcrete H P (HookError PCode.Error X) R L Op St) where
  abbrev read_number : Operand → ViolationSource → ℕ → Act X P H N B R St T ℕ
  read_number pointer source width = read_operand store hk pointer (size pointer) source >>= λ buf.
      pure (bytes.from_bytes width buf)

  abbrev number_by_size : Operand → ViolationSource → ℕ → Act X P H N B R St T ℕ
  number_by_size pointer source n =
      if n == pointer_64_size
      then read_number pointer source 8
      else if n == pointer_32_size
      then read_number pointer source 4
      else if n == pointer_16_size
      then read_number pointer source 2
      else if n == pointer_8_size
      then read_number pointer source 1
      else fail (Error.unsupported_address_size n)

  -- The hooks are told of the read here, and again by `read_operand_with`.
  unfoldable pub get_address_value : Operand → ViolationSource → Act X P H N B R St T ℕ
  get_address_value pointer source =
      notify (λ h s. hk.hook_operand_read h s pointer)
      >> number_by_size pointer source (size pointer)

  abbrev write_number : Operand → ℕ → ℕ → Act X P H N B R St T (Unit {0})
  write_number pointer address width =
      write_operand store hk pointer
        (bytes.into_bytes width (bytes.narrow width address) (replicate width 0))

  unfoldable pub set_address_value : Operand → ℕ → Act X P H N B R St T (Unit {0})
  set_address_value pointer value c =
      let n = size pointer in
      let address = ir.new (store.memory_space c.state) value in
      (if n == pointer_64_size
          then write_number pointer address 8
          else if n == pointer_32_size
          then write_number pointer address 4
          else if n == pointer_16_size
          then write_number pointer address 2
          else if n == pointer_8_size
          then write_number pointer address 1
          else fail (Error.unsupported_address_size n))
        c
