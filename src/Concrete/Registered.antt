-- ===== src/Concrete/Registered.antt =====
-- What is registered with the interpreter: hooks by name, and intrinsics.
use fuguex_core.Prelude.{
  ◌≡◌, refl, ap, ◌∙◌, List, [], ◌∷◌, ◌++◌, Option, some, if◌then◌else◌, ok, err, panic, length,
  get_elem?,
}
use fuguex_core.Intrinsics.{IntrinsicHandler, IntrinsicBehaviour, KeyOps, insert, register, handle}
use fuguex_core.Concrete.Context.{ConcreteContext, add_hook, find_hook}

get_elem?_last :
    {A : Type 0} (xs : List A) (x : A) → get_elem? (xs ++ (x ∷ [])) (length xs) ≡ some x
get_elem?_last [] x = refl
get_elem?_last (y ∷ xs) x = get_elem?_last xs x

-- A hook that was added is found by its name, whatever was added under that name before.
pub find_hook-add_hook :
    {P H N B R St T : Type 0} ⦃keys : KeyOps N⦄ (c : ConcreteContext P H N B R St T) (name : N)
    (h : H)
    → find_hook (add_hook c name h) name ≡ some (some h)
unfolding find_hook add_hook
find_hook-add_hook ⦃keys⦄ c name h =
    rw (find_hook, keys.same_key_refl name, get_elem?_last c.hooks h) refl

module _ {B S V N A O E : Type 0} ⦃keys : KeyOps N⦄
    (behaviours : IntrinsicBehaviour B S V N A O E) where
  register_lem :
      (t : IntrinsicHandler B N A O) (b b' : B) (s : S)
      → behaviours.initialise b s ≡ (b', ok tt)
      → register behaviours t b s ≡ (insert t (behaviours.intrinsic b') b', ok tt)
  unfolding register
  register_lem t b b' s e =
      ap
        (λ r. elim r.1 [
          | ok u ↦ (insert t (behaviours.intrinsic r.0) r.0, ok tt)
          | err x ↦ (t, err x)
          | panic ↦ (t, panic)
        ])
        e

  handle_lem :
      (t : IntrinsicHandler B N A O) (b : B) (s : S) (name : N) (inputs : List V)
      (output : Option V)
      → t.handlers name ≡ some b
      → ((handle behaviours t name s inputs output).1
          ≡ (behaviours.handle_intrinsic b s inputs output).1)
        × ((handle behaviours t name s inputs output).0.1
            ≡ (behaviours.handle_intrinsic b s inputs output).0.1)
  unfolding handle
  handle_lem t b s name inputs output e = (rw (handle, e) refl, rw (handle, e) refl)

-- An intrinsic whose initialisation succeeds is registered under the name that it then has: a call
-- by that name gives the result and the state of its own handler.
pub handle-register :
    {B S V N A O E : Type 0} ⦃keys : KeyOps N⦄ (behaviours : IntrinsicBehaviour B S V N A O E)
    (t : IntrinsicHandler B N A O) (b b' : B) (s s' : S) (inputs : List V) (output : Option V)
    → behaviours.initialise b s ≡ (b', ok tt)
    → ((handle behaviours
          (register behaviours t b s).0
          (behaviours.intrinsic b')
          s'
          inputs
          output).1
        ≡ (behaviours.handle_intrinsic b' s' inputs output).1)
      × ((handle behaviours
            (register behaviours t b s).0
            (behaviours.intrinsic b')
            s'
            inputs
            output).0.1
          ≡ (behaviours.handle_intrinsic b' s' inputs output).0.1)
handle-register ⦃keys⦄ behaviours t b b' s s' inputs output e =
    let name = behaviours.intrinsic b' in
    let t' = (register behaviours t b s).0 in
    let found =
      ap (λ r. r.0.handlers name) (register_lem behaviours t b b' s e)
      ∙ ap (λ x. if x then some b' else t.handlers name) (keys.same_key_refl name) in
    handle_lem behaviours t' b' s' name inputs output found
