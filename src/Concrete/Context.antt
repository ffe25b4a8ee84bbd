-- ===== src/Concrete/Context.antt =====
-- `struct ConcreteContext`, its errors, and the loops over its hooks. A method that changes the
-- context before it fails leaves the change, so each gives back the context with its result.
use fuguex_core.Prelude.{
  ℕ, List, [], ◌∷◌, ◌++◌, Option, none, some, and_then, if◌then◌else◌, Result, ok, err, panic,
  map_err, length, get_elem?,
}
use fuguex_core.Paths.{HookError, HookOutcome}
use fuguex_core.Intrinsics
use fuguex_core.Intrinsics.{IntrinsicHandler, KeyOps}
use fuguex_core.PCode
use fuguex_core.Concrete.Hooks.{Hooked}

-- for errors `X` of hooks, intrinsics, the lifter and the float formats
pub data Error (X : Type 0) : Type 0 where
  division_by_zero : Error X
  hook : HookError PCode.Error X → Error X
  intrinsic : Intrinsics.Error PCode.Error X → Error X
  lift : ℕ → X → Error X
  state : PCode.Error → Error X
  incompatible_operands : ℕ → ℕ → Error X
  unsupported_address_size : ℕ → Error X
  unsupported_branch_destination : ℕ → Error X
  unsupported_float_format : X → Error X
  unsupported_operand_size : ℕ → ℕ → Error X

-- The state `P`, hooks `H`, names `N`, behaviours `B` of intrinsics, outcomes `R`, lifted instructions
-- `St`, and the context `T` of the translator. The database and the translator are not changed.
-- The cache is a lookup from an address; a fork shares it with the context that it is made from,
-- and what the one adds to it later is not seen by the other here.
pub record ConcreteContext (P H N B R St T : Type 0) : Type 0 where
  pub translator_context : T
  pub translator_cache : ℕ → Option St
  pub hook_names : N → Option ℕ
  pub hooks : List H
  pub intrinsics : IntrinsicHandler B N ℕ R
  pub state : P

-- what a method does to a context `C`
abbrev pub M : (C E A : Type 0) → Type 0
M C E A = C → C × Result E A

module _ {C E A B : Type 0} where
  abbrev pub then_do : C × Result E A → (A → M C E B) → C × Result E B
  then_do (c, ok a) f = f a c
  then_do (c, err e) f = (c, err e)
  then_do (c, panic) f = (c, panic)

  infixl 5 ◌>>=◌
  abbrev pub ◌>>=◌ : M C E A → (A → M C E B) → M C E B
  ◌>>=◌ m f c = then_do (m c) f

  infixl 5 ◌>>◌
  abbrev pub ◌>>◌ : M C E A → M C E B → M C E B
  ◌>>◌ m n c = then_do (m c) (λ a. n)

module _ {C E A : Type 0} where
  abbrev pub pure : A → M C E A
  pure a c = (c, ok a)

  abbrev pub fail : E → M C E A
  fail e c = (c, err e)

  abbrev pub of_result : Result E A → M C E A
  of_result r c = (c, r)

-- A loop over hooks that may end early.
pub data Loop (A R : Type 0) : Type 0 where
  go : A → Loop A R
  stop : R → Loop A R

module _ {H P E B R : Type 0} where
  -- the hook that was called, before those that the rest of the loop leaves
  abbrev pub in_front : H → (List H × P) × Result E (Loop B R) → (List H × P) × Result E (Loop B R)
  in_front h ((hs, s), r) = ((h ∷ hs, s), r)

  -- from the loop's variable after a call to the next one, by `rest`
  abbrev pub turn :
      List H
      → (P → B → (List H × P) × Result E (Loop B R))
      → H
      → P
      → Loop B R
      → (List H × P) × Result E (Loop B R)
  turn hs rest h s (stop r) = ((h ∷ hs, s), ok (stop r))
  turn hs rest h s (go b) = in_front h (rest s b)

module _ {H P E A B R : Type 0} where
  abbrev pub after_hook :
      (HookOutcome A → B → Loop B R)
      → B
      → List H
      → (P → B → (List H × P) × Result E (Loop B R))
      → Hooked H P E A
      → (List H × P) × Result E (Loop B R)
  after_hook take b hs rest ((h, s), ok o) = turn hs rest h s (take o b)
  after_hook take b hs rest ((h, s), err e) = ((h ∷ hs, s), err e)
  after_hook take b hs rest ((h, s), panic) = ((h ∷ hs, s), panic)

  -- `for hook in self.hooks.iter_mut()`: what each hook answers is taken into the loop's variable.
  unfoldable pub each :
      (H → P → Hooked H P E A)
      → (HookOutcome A → B → Loop B R)
      → List H
      → P
      → B
      → (List H × P) × Result E (Loop B R)
  each call take [] s b = (([], s), ok (go b))
  each call take (h ∷ hs) s b = after_hook take b hs (λ s' b'. each call take hs s' b') (call h s)

-- the value of a loop that no hook ends
abbrev pub loop_value : {A : Type 0} → Loop A A → A
loop_value (go a) = a
loop_value (stop a) = a

-- what a method of the context does
abbrev pub Act : (X P H N B R St T A : Type 0) → Type 0
Act X P H N B R St T A = M (ConcreteContext P H N B R St T) (Error X) A

module _ {X P H N B R St T : Type 0} where
  abbrev pub put_back :
      {A Q : Type 0}
      → ConcreteContext P H N B R St T
      → (List H × P) × Result (HookError PCode.Error X) (Loop A Q)
      → ConcreteContext P H N B R St T × Result (Error X) (Loop A Q)
  put_back c ((hs, s), r) = (record c { hooks = hs; state = s }, map_err Error.hook r)

  -- the loop on the hooks of a context, with its errors as errors of a hook
  unfoldable pub each_hook :
      {A O Q : Type 0}
      → (H → P → Hooked H P (HookError PCode.Error X) O)
      → (HookOutcome O → A → Loop A Q)
      → A
      → Act X P H N B R St T (Loop A Q)
  each_hook call take a c = put_back c (each call take c.hooks c.state a)

  -- a loop whose answers are ignored
  unfoldable pub notify :
      {O : Type 0}
      → (H → P → Hooked H P (HookError PCode.Error X) O)
      → Act X P H N B R St T (Unit {0})
  unfolding each_hook
  notify call = each_hook call (λ o a. go tt) tt >>= λ a. pure (loop_value a)

  -- a fallible read of the state
  abbrev pub ask : {A : Type 0} → (P → Result PCode.Error A) → Act X P H N B R St T A
  ask f c = (c, map_err Error.state (f c.state))

  abbrev pub set_state :
      ConcreteContext P H N B R St T
      → Result PCode.Error P
      → ConcreteContext P H N B R St T × Result (Error X) (Unit {0})
  set_state c (ok s) = (record c { state = s }, ok tt)
  set_state c (err e) = (c, err (Error.state e))
  set_state c panic = (c, panic)

  -- a fallible change of the state, which leaves it when it fails
  abbrev pub change : (P → Result PCode.Error P) → Act X P H N B R St T (Unit {0})
  change f c = set_state c (f c.state)

module _ {P H N B R St T : Type 0} where
  unfoldable pub new : T → P → ConcreteContext P H N B R St T
  new translator_context s = record {
    translator_context = translator_context;
    translator_cache = λ a. none;
    hook_names = λ n. none;
    hooks = [];
    intrinsics = Intrinsics.new;
    state = s;
  }

  -- `HashMap::insert` of the index of the hook
  unfoldable pub add_hook :
      ⦃keys : KeyOps N⦄ → ConcreteContext P H N B R St T → N → H → ConcreteContext P H N B R St T
  add_hook ⦃keys⦄ c name h = record c {
    hook_names = λ n. if keys.same_key n name then some (length c.hooks) else c.hook_names n;
    hooks = c.hooks ++ (h ∷ []);
  }

  -- `find_hook`, without the cast to the type of the hook; `none` of the outer option is a panic
  unfoldable pub find_hook : ConcreteContext P H N B R St T → N → Option (Option H)
  find_hook c name = elim (c.hook_names name) [
    | none ↦ some none
    | some i ↦ and_then (get_elem? c.hooks i) (λ h. some (some h))
  ]
