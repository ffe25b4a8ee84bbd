-- ===== src/Machine/Engine/Total.antt =====
-- How long `Machine::step` runs.
use fuguex_core.Prelude.{
  ℕ, zero, suc, ◌+◌, ◌%◌, ◌^◌, ◌≤◌, ◌<◌, ◌≡◌, refl, some, arith, if_either, length, get_elem?,
  subst, lt-of_get_elem?, Option-cases, Bool-cases, inl, inr, Result, ok, err, panic, some_inj,
}
use fuguex_core.Address.{u64_limit}
use fuguex_core.Machine.Types.{
  pos, negsuc, IrOps, PCode, Branch, next, Outcome, OrOutcome, StepOutcome, local, global,
  StepState, with_location, current, fallthrough, moved, outcome_at, take_branch,
}
use fuguex_core.Machine.Interpreter.{PCodeOp, Interpreter, dispatch}
use fuguex_core.Machine.Engine.{
  Machine, with_interpreter, with_step_state, Control, operations, Progress, again, done, entered,
  settle, after, observed, turn, proceed, drive, step,
}

-- Half of the `usize` range: no `Vec` is longer, and no `isize` is as large.
abbrev pub isize_limit : ℕ
isize_limit = 2 ^ 63

-- A branch that does not go back or stay in its instruction.
unfoldable pub IsForward : {A : Type 0} → Branch A → Type 0
IsForward next = Unit {0}
IsForward (Branch.local (pos n)) = (0 < n) × (n < isize_limit)
IsForward (Branch.local (negsuc n)) = ⊥
IsForward (Branch.global a) = Unit {0}

-- all of the operations of an instruction are of a kind
abbrev pub AllOf : {A Op : Type 0} → (Op → Type 0) → PCode A Op → Type 0
AllOf {A} {Op} Good pcode = (k : ℕ) (op : Op) → get_elem? pcode.operations k ≡ some op → Good op

module _ {A L Op : Type 0} (ir : IrOps A L) where
  -- what is left of an instruction
  abbrev pub HasRoom : StepState A Op → ℕ → Type 0
  HasRoom s n =
      (length s.pcode.operations ≤ s.position + n) × (length s.pcode.operations ≤ isize_limit)

  outcome_at-forward :
      (s s' : StepState A Op) (p n : ℕ)
      → outcome_at ir s p ≡ (s', local)
      → HasRoom s (suc n)
      → s.position < p
      → HasRoom s' n × (s.pcode ≡ s'.pcode)
  unfolding outcome_at
  outcome_at-forward s s' p n e h more = ground arith

  -- A forward branch from inside an instruction has one operation less to run after it, in the same
  -- instruction.
  pub take_branch-forward :
      (s s' : StepState A Op) (b : Branch A) (n : ℕ)
      → IsForward b
      → take_branch ir s b ≡ some (s', local)
      → HasRoom s (suc n)
      → s.position < length s.pcode.operations
      → HasRoom s' n × (s.pcode ≡ s'.pcode)
  unfolding take_branch moved IsForward
  take_branch-forward s s' next n f e h inside =
      outcome_at-forward s s' ((s.position + 1) % u64_limit) n (some_inj e) h (omega arith)
  take_branch-forward s s' (Branch.local (pos k)) n f e h inside =
      outcome_at-forward s s' ((s.position + k) % u64_limit) n (some_inj e) h (omega (arith, f.0))
  take_branch-forward s s' (Branch.local (negsuc k)) n f e h inside = absurd f
  take_branch-forward s s' (Branch.global a) n f e h inside = cc

module _ {I E R A L V Sp N Space : Type 0} (ir : IrOps A L)
    (int : Interpreter I E R A L V Sp N Space) where
  -- An interpreter that does not leave an instruction for another location while it lifts or looks at
  -- an operation, and whose branches go forward on the operations of `Good`.
  pub record MovesOn (Good : PCodeOp V Sp N → Type 0) : Type 0 where
    pub lifts : (a : A) (i : I) (l : L) → ¬ ((int.lift a i).1 ≡ ok (OrOutcome.branch l))
    pub observes :
        (l l' : L) (op : PCodeOp V Sp N) (i : I)
        → ¬ ((int.operation l op i).1 ≡ ok (OrOutcome.branch l'))
    pub forward :
        (op : PCodeOp V Sp N) (i : I) (b : Branch A)
        → Good op
        → (dispatch int op i).1 ≡ ok (Outcome.branch b)
        → IsForward b

  -- the run ends, whatever it ends with
  abbrev pub Ends : ℕ → Machine I A (PCodeOp V Sp N) → Control L → Type 0
  Ends n m c =
      (r : Machine I A (PCodeOp V Sp N) × Result E (StepOutcome A R)) × (drive ir int n m c
        ≡ some r)

  module _ (Good : PCodeOp V Sp N → Type 0) where
    -- what is left after one round: nothing, or the rest of the instruction, one operation shorter
    data Left (n : ℕ) : Machine I A (PCodeOp V Sp N) × Progress E R A L → Type 0 where
      ended :
          (m : Machine I A (PCodeOp V Sp N)) (r : Result E (StepOutcome A R)) → Left n (m, done r)
      rest :
          (m : Machine I A (PCodeOp V Sp N))
          → HasRoom ir m.step_state n
          → AllOf Good m.step_state.pcode
          → Left n (m, again operations)

    settle-Left :
        (m : Machine I A (PCodeOp V Sp N)) (b : Branch A) (n : ℕ)
        → IsForward b
        → HasRoom ir m.step_state (suc n)
        → AllOf Good m.step_state.pcode
        → m.step_state.position < length m.step_state.pcode.operations
        → Left n (settle ir int m b)
    unfolding settle with_step_state
    settle-Left m b n f h g inside = elim (Option-cases (take_branch ir m.step_state b)) [
      | inl e ↦ rw (e, settle) (ended m panic)
      | inr ((s, local), e) ↦
          let (room, same) = take_branch-forward ir m.step_state s b n f e h inside in
          rw (e, settle)
            (rest
              (record {
                interpreter = m.interpreter;
                step_state = s;
                ignore_errors = m.ignore_errors;
              })
              room (subst (AllOf Good) same g))
      | inr ((s, global a), e) ↦ rw (e, settle) (ended _ (ok (StepOutcome.branch a)))
    ]

    after-Left :
        (m : Machine I A (PCodeOp V Sp N)) (r : Result E (Outcome A R)) (n : ℕ)
        → ((b : Branch A) → r ≡ ok (Outcome.branch b) → IsForward b)
        → HasRoom ir m.step_state (suc n)
        → AllOf Good m.step_state.pcode
        → m.step_state.position < length m.step_state.pcode.operations
        → Left n (after ir int m r)
    unfolding after IsForward
    after-Left m (err e) n f h g inside =
        if_either m.ignore_errors (Left n) (λ i. settle-Left m next n tt h g inside)
          (λ i. ended m (err e))
    after-Left m panic n f h g inside = ended m panic
    after-Left m (ok (Outcome.halt o)) n f h g inside = ended m (ok (StepOutcome.halt o))
    after-Left m (ok (Outcome.branch b)) n f h g inside = settle-Left m b n (f b refl) h g inside

    observed-Left :
        (m : Machine I A (PCodeOp V Sp N)) (op : PCodeOp V Sp N)
        (r : Result E (OrOutcome L (Unit {0}) R)) (n : ℕ)
        → MovesOn Good
        → ((l : L) → ¬ (r ≡ ok (OrOutcome.branch l)))
        → Good op
        → HasRoom ir m.step_state (suc n)
        → AllOf Good m.step_state.pcode
        → m.step_state.position < length m.step_state.pcode.operations
        → Left n (observed ir int m op r)
    unfolding observed with_interpreter
    observed-Left m op (err e) n v f good h g inside = ended m (err e)
    observed-Left m op panic n v f good h g inside = ended m panic
    observed-Left m op (ok (OrOutcome.branch l)) n v f good h g inside = absurd (f l refl)
    observed-Left m op (ok (OrOutcome.halt o)) n v f good h g inside =
        ended m (ok (StepOutcome.halt o))
    observed-Left m op (ok (OrOutcome.continue u)) n v f good h g inside =
        after-Left (with_interpreter m (dispatch int op m.interpreter).0)
          (dispatch int op m.interpreter).1 n (λ b. v.forward op m.interpreter b good) h g inside

    turn-Left :
        (m : Machine I A (PCodeOp V Sp N)) (n : ℕ)
        → MovesOn Good
        → HasRoom ir m.step_state (suc n)
        → AllOf Good m.step_state.pcode
        → Left n (turn ir int m operations)
    unfolding turn current with_interpreter
    turn-Left m n v h g =
        elim (Option-cases (get_elem? m.step_state.pcode.operations m.step_state.position)) [
          | inl e ↦ rw (e, turn) (ended m _)
          | inr (op, e) ↦
              rw (e, turn)
                (observed-Left (with_interpreter m _) op _ n v
                  (λ l. v.observes _ l op m.interpreter) (g _ op e) h g
                  (lt-of_get_elem? m.step_state.pcode.operations m.step_state.position e))
        ]

    after_round :
        (n : ℕ) (q : Machine I A (PCodeOp V Sp N) × Progress E R A L)
        → Left n q
        → ((m : Machine I A (PCodeOp V Sp N))
            → HasRoom ir m.step_state n
            → AllOf Good m.step_state.pcode
            → Ends (suc n) m operations)
        → (r : Machine I A (PCodeOp V Sp N) × Result E (StepOutcome A R)) × (proceed
              (drive ir int (suc n))
              q
            ≡ some r)
    unfolding proceed
    after_round n _ (ended m r) f = ((m, r), refl)
    after_round n _ (rest m h g) f = f m h g

    -- `n` rounds and one more are enough where `n` operations are left.
    drive-Ends :
        (m : Machine I A (PCodeOp V Sp N)) (n : ℕ)
        → MovesOn Good
        → HasRoom ir m.step_state n
        → AllOf Good m.step_state.pcode
        → Ends (suc n) m operations
    unfolding drive turn current proceed
    drive-Ends m zero v h g =
        elim (Option-cases (get_elem? m.step_state.pcode.operations m.step_state.position)) [
          | inl e ↦ ((m, ok (StepOutcome.branch (fallthrough ir m.step_state))), rw (e, turn) refl)
          | inr (op, e) ↦ absurd (
              omega
                (arith, lt-of_get_elem? m.step_state.pcode.operations m.step_state.position e, h.0))
        ]
    drive-Ends m (suc n) v h g =
        after_round n (turn ir int m operations) (turn-Left m n v h g)
          (λ m' h' g'. drive-Ends m' n v h' g')

    entered_ends :
        (limit : ℕ) (m : Machine I A (PCodeOp V Sp N)) (l : L)
        (r : Result E (OrOutcome L (StepState A (PCodeOp V Sp N)) R))
        → MovesOn Good
        → limit ≤ isize_limit
        → ((l' : L) → ¬ (r ≡ ok (OrOutcome.branch l')))
        → ((s : StepState A (PCodeOp V Sp N))
            → r ≡ ok (OrOutcome.continue s)
            → (length s.pcode.operations ≤ limit) × AllOf Good s.pcode)
        → (q : Machine I A (PCodeOp V Sp N) × Result E (StepOutcome A R)) × (proceed
              (drive ir int (suc limit))
              (entered ir int m l r)
            ≡ some q)
    unfolding entered proceed with_location with_step_state
    entered_ends limit m l (err e) v short f g = ((m, err e), refl)
    entered_ends limit m l panic v short f g = ((m, panic), refl)
    entered_ends limit m l (ok (OrOutcome.branch l')) v short f g = absurd (f l' refl)
    entered_ends limit m l (ok (OrOutcome.halt o)) v short f g =
        ((m, ok (StepOutcome.halt o)), refl)
    entered_ends limit m l (ok (OrOutcome.continue s)) v short f g =
        let (k, good) = g s refl in
        let s' : StepState A (PCodeOp V Sp N) = record {
          pcode = s.pcode;
          position = ir.position l;
        } in
        elim (Bool-cases (ir.eq s.pcode.address (ir.address l))) [
          | inl e ↦
              rw (e, entered, with_location)
                (drive-Ends (with_step_state m s') limit v (omega (arith, k), omega (arith, k))
                  good)
          | inr e ↦ ((m, panic), rw (e, entered, with_location) refl)
        ]

    -- On an interpreter that does not leave an instruction while it lifts or looks at an operation,
    -- and whose branches go forward on the operations of `Good`, `step` ends where the lifted
    -- instruction has at most `limit` operations, all of them of `Good`, within `limit` rounds and
    -- two more.
    pub step_ends :
        (limit : ℕ) (m : Machine I A (PCodeOp V Sp N)) (l : L)
        → MovesOn Good
        → limit ≤ isize_limit
        → ((s : StepState A (PCodeOp V Sp N))
            → (int.lift (ir.address l) m.interpreter).1 ≡ ok (OrOutcome.continue s)
            → (length s.pcode.operations ≤ limit) × AllOf Good s.pcode)
        → (r : Machine I A (PCodeOp V Sp N) × Result E (StepOutcome A R)) × (step ir int
              (suc (suc limit))
              m
              l
            ≡ some r)
    unfolding step drive turn
    step_ends limit m l v short good =
        entered_ends limit (with_interpreter m (int.lift (ir.address l) m.interpreter).0) l
          (int.lift (ir.address l) m.interpreter).1 v short (v.lifts (ir.address l) m.interpreter)
          good
