-- ===== src/Machine/Engine/Until.antt =====
-- `Machine::step_until` against runs of `step`.
use fuguex_core.Prelude.{
  ℕ, zero, suc, ◌-◌, ◌≤◌, ◌<◌, ◌≡◌, refl, subst, ap, true, false, Option, some, arith, ◌==◌,
  Option-cases, Bool-cases, inl, inr, Result, ok, err, panic, none-some,
}
use fuguex_core.Machine.Types.{IrOps, Bound, steps, unbounded, deplete, reached?, StepOutcome}
use fuguex_core.Machine.Interpreter.{PCodeOp, Interpreter}
use fuguex_core.Machine.Engine.{Machine, step, until}
use fuguex_core.Machine.Engine.Errors.{step-Returns}

module _ {I E R A L V Sp N Space : Type 0} (ir : IrOps A L)
    (int : Interpreter I E R A L V Sp N Space) (fuel : ℕ) where
  -- `Executes k m l b m' l' b'`: from `m` at `l`, with the bound `b` not reached before any of them,
  -- `k` instructions run, each ends in a branch, and the machine is then `m'` at `l'` with `b'` left.
  pub data Executes
      : ℕ
        → Machine I A (PCodeOp V Sp N)
        → L
        → Bound A
        → Machine I A (PCodeOp V Sp N)
        → L
        → Bound A
        → Type 0 where
    stop : (m : Machine I A (PCodeOp V Sp N)) (l : L) (b : Bound A) → Executes zero m l b m l b
    go :
        (k : ℕ) (m m₁ m' : Machine I A (PCodeOp V Sp N)) (l l' : L) (b b' : Bound A) (a : A)
        → reached? ir b (ir.address l) ≡ false
        → step ir int fuel m l ≡ some (m₁, ok (StepOutcome.branch a))
        → Executes k m₁ (ir.from a) (deplete b) m' l' b'
        → Executes (suc k) m l b m' l' b'

  until_now :
      {m m' : Machine I A (PCodeOp V Sp N)} {b b' : Bound A}
      → ◌≡◌ {A = Option (Machine I A (PCodeOp V Sp N) × Result E (Bound A × StepOutcome A R))}
          (some (m, ok (b, StepOutcome.reached)))
          (some (m', ok (b', StepOutcome.reached)))
      → ◌≡◌ {A = Machine I A (PCodeOp V Sp N) × Bound A} (m, b) (m', b')
  until_now e = cc

  -- If the loop of `step_until` returns `Reached`, it ran a number of instructions smaller than
  -- its rounds, each from a bound that was not reached and each ending in a branch, and the bound
  -- that it returns is reached where the last of them ended.
  pub until-Executes :
      (n : ℕ) (m m' : Machine I A (PCodeOp V Sp N)) (l : L) (b b' : Bound A)
      → until ir int n fuel m l b ≡ some (m', ok (b', StepOutcome.reached))
      → (k : ℕ) × (l' : L) × Executes k m l b m' l' b'
        × (reached? ir b' (ir.address l') ≡ true)
        × (k < n)
  unfolding until
  until-Executes zero m m' l b b' e = absurd (none-some e)
  until-Executes (suc n) m m' l b b' e = elim (Bool-cases (reached? ir b (ir.address l))) [
    | inl r ↦
        let same : ◌≡◌ {A = Machine I A (PCodeOp V Sp N) × Bound A} (m, b) (m', b') =
          until_now (rw (r, until) at e) in
        subst
          (λ q.
            (k : ℕ) × (l' : L) × Executes k m l b q.0 l' q.1
            × (reached? ir q.1 (ir.address l') ≡ true)
            × (k < suc n))
          same (0, l, stop m l b, r, omega arith)
    | inr r ↦ elim (Option-cases (step ir int fuel m l)) [
      | inl s ↦ absurd (none-some (rw (r, s, until) at e))
      | inr ((m₁, ok (StepOutcome.branch a)), s) ↦
          let (k, l', x, y, z) =
            until-Executes n m₁ m' (ir.from a) (deplete b) b' (rw (r, s, until) at e) in
          (suc k, l', go k m m₁ m' l l' b b' a r s x, y, omega (arith, z))
      | inr ((m₁, ok (StepOutcome.halt o)), s) ↦ let e' = rw (r, s, until) at e in cc
      | inr ((m₁, ok StepOutcome.reached), s) ↦
          absurd ((step-Returns ir int fuel m m₁ l _ s).1 refl)
      | inr ((m₁, err e₁), s) ↦ let e' = rw (r, s, until) at e in cc
      | inr ((m₁, panic), s) ↦ let e' = rw (r, s, until) at e in cc
    ]
  ]

  -- A run of `k` instructions, each from a bound not reached, after which the bound is reached, is
  -- what the loop of `step_until` does in `k` rounds and one more: it returns `Reached` with the
  -- bound that is left.
  pub Executes-until :
      (k : ℕ) (m m' : Machine I A (PCodeOp V Sp N)) (l l' : L) (b b' : Bound A)
      → Executes k m l b m' l' b'
      → reached? ir b' (ir.address l') ≡ true
      → until ir int (suc k) fuel m l b ≡ some (m', ok (b', StepOutcome.reached))
  unfolding until
  Executes-until _ _ _ _ _ _ _ (stop m l b) r = rw (r, until) refl
  Executes-until _ _ _ _ _ _ _ (go k m m₁ m' l l' b b' a f s x) r =
      rw (f, s, until) (Executes-until k m₁ m' (ir.from a) l' (deplete b) b' x r)

  Executes-steps :
      (k n : ℕ) (m m' : Machine I A (PCodeOp V Sp N)) (l l' : L) (b b' : Bound A)
      → Executes k m l b m' l' b'
      → b ≡ steps n
      → (b' ≡ steps (n - k)) × (k ≤ n)
  unfolding deplete reached?
  Executes-steps _ n _ _ _ _ _ _ (stop m l b) e = (rw e (ap steps (omega arith)), omega arith)
  Executes-steps _ n _ _ _ _ _ _ (go k m m₁ m' l l' b b' a f s x) e =
      let some_left : (n == 0) ≡ false = rw (e, reached?) at f in
      let fewer : deplete b ≡ steps (n - 1) = rw (e, deplete) (ground arith) in
      let (left, inside) = Executes-steps k (n - 1) m₁ m' (ir.from a) l' (deplete b) b' x fewer in
      (rw left (ap steps (omega arith)), ground (arith, inside))

  Executes-unbounded :
      (k : ℕ) (m m' : Machine I A (PCodeOp V Sp N)) (l l' : L) (b b' : Bound A)
      → Executes k m l b m' l' b'
      → b ≡ unbounded
      → b' ≡ unbounded
  unfolding deplete
  Executes-unbounded _ _ _ _ _ _ _ (stop m l b) e = e
  Executes-unbounded _ _ _ _ _ _ _ (go k m m₁ m' l l' b b' a f s x) e =
      Executes-unbounded k m₁ m' (ir.from a) l' (deplete b) b' x (rw (e, deplete) refl)

  -- If the loop of `step_until` with a bound of `n` steps returns `Reached`, exactly `n`
  -- instructions ran, one from where the other ended, and the bound that it returns has no step
  -- left.
  pub until-steps :
      (r n : ℕ) (m m' : Machine I A (PCodeOp V Sp N)) (l : L) (b' : Bound A)
      → until ir int r fuel m l (steps n) ≡ some (m', ok (b', StepOutcome.reached))
      → (l' : L) × Executes n m l (steps n) m' l' (steps 0) × (b' ≡ steps 0)
  unfolding reached?
  until-steps r n m m' l b' e =
      let (k, l', x, y, z) = until-Executes r m m' l (steps n) b' e in
      let (left, inside) = Executes-steps k n m m' l l' (steps n) b' x refl in
      let zero_left : (n - k == 0) ≡ true = rw left at y in
      let exact : k ≡ n = ground arith in
      let none_left : b' ≡ steps 0 = rw (left, exact) (ap steps (omega arith)) in
      (
        l',
        subst (λ q. Executes n m l (steps n) m' l' q) none_left
            (subst (λ j. Executes j m l (steps n) m' l' b') exact x),
        none_left,
      )

  -- Without a bound, `step_until` never returns `Reached`.
  pub until-unbounded :
      (r : ℕ) (m m' : Machine I A (PCodeOp V Sp N)) (l : L) (b' : Bound A)
      → ¬ (until ir int r fuel m l unbounded ≡ some (m', ok (b', StepOutcome.reached)))
  unfolding reached?
  until-unbounded r m m' l b' e =
      let (k, l', x, y, z) = until-Executes r m m' l unbounded b' e in
      let same = Executes-unbounded k m m' l l' unbounded b' x refl in
      let never : false ≡ true = rw same at y in cc
