-- ===== src/Machine/Types/Branching.antt =====
-- `StepState::branch` against `StepState::branch_location`, and where a branch leaves the position.
use fuguex_core.Prelude.{
  ℕ, ◌+◌, ◌%◌, ◌≡◌, refl, sym, ap, some, ltb, length, Option-cases, Bool-cases, inl, inr,
}
use mathlib.Core.Option.{map}
use fuguex_core.Address.{u64_limit}
use fuguex_core.Machine.Types.{
  IrOps, Branch, next, local, global, BranchOutcome, StepState, location, fallthrough, moved,
  outcome_at, take_branch, location_at, branch_location,
}

module _ {A L Op : Type 0} (ir : IrOps A L) where
  -- where an interpreter is after a branch: at its own location, or at the address it is given
  abbrev pub landed : StepState A Op × BranchOutcome A → L
  landed (s, local) = location ir s
  landed (s, global a) = ir.from a

  outcome_at-location_at :
      (s : StepState A Op) (p : ℕ) → landed (outcome_at ir s p) ≡ location_at ir s p
  unfolding outcome_at location_at location fallthrough
  outcome_at-location_at s p = elim (Bool-cases (ltb p (length s.pcode.operations))) [
    | inl e ↦ rw e refl
    | inr e ↦ rw e refl
  ]

  -- `StepState::branch_location` is where `StepState::branch` ends, for every state and action;
  -- one panics where the other does.
  pub branch_location-take_branch :
      (s : StepState A Op) (b : Branch A) → branch_location ir s b ≡ map landed (take_branch ir s b)
  unfolding branch_location take_branch
  branch_location-take_branch s next =
      ap some (sym (outcome_at-location_at s ((s.position + 1) % u64_limit)))
  branch_location-take_branch s (local offset) = elim (Option-cases (moved s.position offset)) [
    | inl e ↦ rw (e, branch_location, take_branch) refl
    | inr (p, e) ↦ rw (e, branch_location, take_branch, outcome_at-location_at s p) refl
  ]
  branch_location-take_branch s (global a) = refl
