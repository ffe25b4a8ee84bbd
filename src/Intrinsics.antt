-- ===== src/Intrinsics.antt =====
-- fuguex-intrinsics/src/lib.rs: the handlers of intrinsics by name.
use fuguex_core.Prelude.{
  ◌≡◌, Bool, true, List, Option, none, some, if◌then◌else◌, Result, ok, err, panic,
}

-- errors of the state `E`, and of the handler itself `X`
pub data Error (E X : Type 0) : Type 0 where
  state : E → Error E X
  other : X → Error E X

-- for addresses `A`
pub data IntrinsicAction (A O : Type 0) : Type 0 where
  pass : IntrinsicAction A O
  branch : A → IntrinsicAction A O
  halt : O → IntrinsicAction A O

-- The behaviours `B`, whose own state a call may change, on states `S`.
pub record IntrinsicBehaviour (B S V N A O E : Type 0) : Type 0 where
  pub intrinsic : B → N
  pub initialise : B → S → B × Result E (Unit {0})
  pub handle_intrinsic : B → S → List V → Option V → (B × S) × Result E (IntrinsicAction A O)

-- the names of intrinsics, strings of which the code uses equality
pub record KeyOps (N : Type 0) : Type 0 where
  pub same_key : N → N → Bool
  pub same_key_refl : (n : N) → same_key n n ≡ true

-- The table is a lookup from a name to a behaviour.
pub record IntrinsicHandler (B N A O : Type 0) : Type 0 where
  pub handlers : N → Option B
  pub default_action : IntrinsicAction A O

module _ {B N A O : Type 0} where
  unfoldable pub new_with : IntrinsicAction A O → IntrinsicHandler B N A O
  new_with action = record { handlers = λ n. none; default_action = action }

  -- `IntrinsicHandler::new`, and the default
  unfoldable pub new : IntrinsicHandler B N A O
  unfolding new_with
  new = new_with pass

  -- `HashMap::insert`
  abbrev pub insert :
      ⦃keys : KeyOps N⦄ → IntrinsicHandler B N A O → N → B → IntrinsicHandler B N A O
  insert ⦃keys⦄ t name b = record t {
    handlers = λ n. if keys.same_key n name then some b else t.handlers n;
  }

module _ {B S V N A O E : Type 0} ⦃keys : KeyOps N⦄
    (behaviours : IntrinsicBehaviour B S V N A O E) where
  unfoldable pub register :
      IntrinsicHandler B N A O → B → S → IntrinsicHandler B N A O × Result E (Unit {0})
  register t b s =
      let (b', r) = behaviours.initialise b s in
      elim r [
        | ok u ↦ (insert t (behaviours.intrinsic b') b', ok tt)
        | err e ↦ (t, err e)
        | panic ↦ (t, panic)
      ]

  -- A handler that is called is left in the table as the call leaves it.
  unfoldable pub handle :
      IntrinsicHandler B N A O
      → N
      → S
      → List V
      → Option V
      → (IntrinsicHandler B N A O × S) × Result E (IntrinsicAction A O)
  handle t name s inputs output = elim (t.handlers name) [
    | none ↦ ((t, s), ok t.default_action)
    | some b ↦
        let ((b', s'), r) = behaviours.handle_intrinsic b s inputs output in
        ((insert t name b', s'), r)
  ]
