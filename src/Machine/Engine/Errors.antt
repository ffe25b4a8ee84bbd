-- ===== src/Machine/Engine/Errors.antt =====
-- What `Machine::step` returns.
use fuguex_core.Prelude.{
  ℕ, zero, suc, ◌≡◌, refl, subst, Bool, some, if_either, Option-cases, inl, inr, Result, ok, err,
  panic, none-some, some_inj,
}
use fuguex_core.Machine.Types.{
  IrOps, Branch, next, Outcome, OrOutcome, StepOutcome, local, global, StepState, location,
  with_location, current, take_branch,
}
use fuguex_core.Machine.Interpreter.{PCodeOp, Interpreter, dispatch}
use fuguex_core.Machine.Engine.{
  Machine, with_interpreter, with_step_state, Control, enter, operations, Progress, again, done,
  entered, settle, after, observed, turn, proceed, drive, step,
}

module _ {I E R A L V Sp N Space : Type 0} (ir : IrOps A L)
    (int : Interpreter I E R A L V Sp N Space) where
  abbrev pub Returns : Bool → Machine I A (PCodeOp V Sp N) → Result E (StepOutcome A R) → Type 0
  Returns b m r = (m.ignore_errors ≡ b) × (¬ (r ≡ ok StepOutcome.reached))

  abbrev pub Proper : Bool → Machine I A (PCodeOp V Sp N) × Progress E R A L → Type 0
  Proper b (m, again c) = m.ignore_errors ≡ b
  Proper b (m, done r) = Returns b m r

  settle-Proper :
      (b : Bool) (m : Machine I A (PCodeOp V Sp N)) (br : Branch A)
      → m.ignore_errors ≡ b
      → Proper b (settle ir int m br)
  unfolding settle with_step_state
  settle-Proper b m br k = elim (Option-cases (take_branch ir m.step_state br)) [
    | inl e ↦ rw (e, settle) (k, λ h. cc)
    | inr ((s, local), e) ↦ rw (e, settle) k
    | inr ((s, global a), e) ↦ rw (e, settle) (k, λ h. cc)
  ]

  after-Proper :
      (b : Bool) (m : Machine I A (PCodeOp V Sp N)) (r : Result E (Outcome A R))
      → m.ignore_errors ≡ b
      → Proper b (after ir int m r)
  unfolding after
  after-Proper b m (err e) k =
      if_either m.ignore_errors (Proper b) (λ i. settle-Proper b m next k) (λ i. (k, λ h. cc))
  after-Proper b m panic k = (k, λ h. cc)
  after-Proper b m (ok (Outcome.halt o)) k = (k, λ h. cc)
  after-Proper b m (ok (Outcome.branch br)) k = settle-Proper b m br k

  observed-Proper :
      (b : Bool) (m : Machine I A (PCodeOp V Sp N)) (op : PCodeOp V Sp N)
      (r : Result E (OrOutcome L (Unit {0}) R))
      → m.ignore_errors ≡ b
      → Proper b (observed ir int m op r)
  unfolding observed with_interpreter
  observed-Proper b m op (err e) k = (k, λ h. cc)
  observed-Proper b m op panic k = (k, λ h. cc)
  observed-Proper b m op (ok (OrOutcome.branch l)) k = k
  observed-Proper b m op (ok (OrOutcome.halt o)) k = (k, λ h. cc)
  observed-Proper b m op (ok (OrOutcome.continue u)) k =
      after-Proper b (with_interpreter m (dispatch int op m.interpreter).0)
        (dispatch int op m.interpreter).1 k

  entered-Proper :
      (b : Bool) (m : Machine I A (PCodeOp V Sp N)) (l : L)
      → (r : Result E (OrOutcome L (StepState A (PCodeOp V Sp N)) R)) → m.ignore_errors ≡ b
      → Proper b (entered ir int m l r)
  unfolding entered with_step_state
  entered-Proper b m l (err e) k = (k, λ h. cc)
  entered-Proper b m l panic k = (k, λ h. cc)
  entered-Proper b m l (ok (OrOutcome.branch l')) k = k
  entered-Proper b m l (ok (OrOutcome.halt o)) k = (k, λ h. cc)
  entered-Proper b m l (ok (OrOutcome.continue s)) k = elim (Option-cases (with_location ir s l)) [
    | inl e ↦ rw (e, entered) (k, λ h. cc)
    | inr (s', e) ↦ rw (e, entered) k
  ]

  pub turn-Proper :
      (b : Bool) (m : Machine I A (PCodeOp V Sp N)) (c : Control L)
      → m.ignore_errors ≡ b
      → Proper b (turn ir int m c)
  unfolding turn with_interpreter
  turn-Proper b m (enter l) k =
      entered-Proper b (with_interpreter m (int.lift (ir.address l) m.interpreter).0) l
        (int.lift (ir.address l) m.interpreter).1 k
  turn-Proper b m operations k = elim (Option-cases (current ir m.step_state)) [
    | inl e ↦ rw (e, turn) (k, λ h. cc)
    | inr (op, e) ↦
        rw (e, turn)
          (observed-Proper b
            (with_interpreter m (int.operation (location ir m.step_state) op m.interpreter).0) op
            (int.operation (location ir m.step_state) op m.interpreter).1 k)
  ]

  drive-Returns :
      (n : ℕ) (b : Bool) (m m' : Machine I A (PCodeOp V Sp N)) (c : Control L)
      (r : Result E (StepOutcome A R))
      → m.ignore_errors ≡ b
      → drive ir int n m c ≡ some (m', r)
      → Returns b m' r
  unfolding drive proceed
  drive-Returns zero b m m' c r k e = absurd (none-some e)
  drive-Returns (suc n) b m m' c r k e =
      proceeds (turn ir int m c) (turn-Proper b m c k) e (λ m₁ c₁. drive-Returns n b m₁ m' c₁ r)
    where
      proceeds :
          (q : Machine I A (PCodeOp V Sp N) × Progress E R A L)
          → Proper b q
          → proceed (drive ir int n) q ≡ some (m', r)
          → ((m₁ : Machine I A (PCodeOp V Sp N)) (c₁ : Control L)
              → m₁.ignore_errors ≡ b
              → drive ir int n m₁ c₁ ≡ some (m', r)
              → Returns b m' r)
          → Returns b m' r
      proceeds (m₁, again c₁) p e' f = f m₁ c₁ p e'
      proceeds (m₁, done r₁) p e' f = subst (λ q. Returns b q.0 q.1) (some_inj e') p

  -- `step` keeps the flag, and never returns `Reached`.
  pub step-Returns :
      (fuel : ℕ) (m m' : Machine I A (PCodeOp V Sp N)) (l : L) (r : Result E (StepOutcome A R))
      → step ir int fuel m l ≡ some (m', r)
      → Returns m.ignore_errors m' r
  unfolding step
  step-Returns fuel m m' l r e = drive-Returns fuel m.ignore_errors m m' (enter l) r refl e
