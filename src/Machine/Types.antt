-- ===== src/Machine/Types.antt =====
-- fuguex-machine/src/types.rs: `Bound`, `Branch`, the outcomes, and `StepState` with its position in
-- the operations of one instruction.
pub mod Branching
use fuguex_core.Prelude.{
  ℕ, zero, suc, ◌+◌, ◌-◌, ◌%◌, ◌≡◌, Bool, true, false, List, [], ◌∷◌, Option, none, some, ltb, leb,
  ◌==◌, if◌then◌else◌, length, get_elem?, Result, ok, err, panic,
}
use fuguex_core.Address.{u64_limit}

-- `isize`; `negsuc n` is `-(n + 1)`
pub data ℤ : Type 0 where
  pos : ℕ → ℤ
  negsuc : ℕ → ℤ

-- What the code uses of the fugue crate's address values and locations: a location is an address
-- and a position, which is 0 for one made from an address alone.
pub record IrOps (A L : Type 0) : Type 0 where
  -- `address + n`
  pub add : A → ℕ → A
  -- `address == address`
  pub eq : A → A → Bool
  -- `Location::new(address, position)`
  pub at : A → ℕ → L
  -- `Location::from(address)`
  pub from : A → L
  pub address : L → A
  pub position : L → ℕ
  pub eq_refl : (a : A) → eq a a ≡ true
  pub eq_lem : (a b : A) → eq a b ≡ true → a ≡ b
  pub address-at : (a : A) (n : ℕ) → address (at a n) ≡ a
  pub position-at : (a : A) (n : ℕ) → position (at a n) ≡ n
  pub address-from : (a : A) → address (from a) ≡ a
  pub position-from : (a : A) → position (from a) ≡ 0

-- `PCode`: the operations of one lifted instruction, its address and its length in bytes
pub record PCode (A Op : Type 0) : Type 0 where
  pub address : A
  pub operations : List Op
  pub length : ℕ

pub data Bound (A : Type 0) : Type 0 where
  to_address : A → Bound A
  steps : ℕ → Bound A
  unbounded : Bound A

pub data Branch (A : Type 0) : Type 0 where
  next : Branch A
  local : ℤ → Branch A
  global : A → Branch A

pub data Outcome (A R : Type 0) : Type 0 where
  halt : R → Outcome A R
  branch : Branch A → Outcome A R

pub data OrOutcome (L S R : Type 0) : Type 0 where
  halt : R → OrOutcome L S R
  branch : L → OrOutcome L S R
  continue : S → OrOutcome L S R

pub data StepOutcome (A R : Type 0) : Type 0 where
  halt : R → StepOutcome A R
  reached : StepOutcome A R
  branch : A → StepOutcome A R

pub data BranchOutcome (A : Type 0) : Type 0 where
  local : BranchOutcome A
  global : A → BranchOutcome A

pub record StepState (A Op : Type 0) : Type 0 where
  pub pcode : PCode A Op
  pub position : ℕ

-- `Bound::in_space`, for the conversion of an address of the bound in the interpreter's space
unfoldable pub in_space : {B A : Type 0} → (B → A) → Bound B → Bound A
in_space into_address_value (to_address b) = to_address (into_address_value b)
in_space into_address_value (steps n) = steps n
in_space into_address_value unbounded = unbounded

-- `steps.checked_sub(1).unwrap_or(0)`
unfoldable pub deplete : {A : Type 0} → Bound A → Bound A
deplete (steps n) = steps (if ltb n 1 then 0 else n - 1)
deplete (to_address a) = to_address a
deplete unbounded = unbounded

-- The new position of a branch that is not global; `none` is the panic of a negative one out of
-- range. `offset.wrapping_abs() as usize` of `negsuc n` is `n + 1`.
unfoldable pub moved : ℕ → ℤ → Option ℕ
moved position (pos n) = some ((position + n) % u64_limit)
moved position (negsuc n) = if leb (suc n) position then some (position - suc n) else none

module _ {A L : Type 0} (ir : IrOps A L) where
  unfoldable pub reached? : Bound A → A → Bool
  reached? (to_address target) address = ir.eq target address
  reached? (steps n) address = n == 0
  reached? unbounded address = false

  module _ {Op : Type 0} where
    -- `StepState::from(pcode)`
    unfoldable pub from_pcode : PCode A Op → StepState A Op
    from_pcode pcode = record { pcode = pcode; position = 0 }

    unfoldable pub location : StepState A Op → L
    location s = ir.at s.pcode.address s.position

    -- `none` is the panic of `assert_eq!`.
    unfoldable pub with_location : StepState A Op → L → Option (StepState A Op)
    with_location s l =
        if ir.eq s.pcode.address (ir.address l)
        then some (record { pcode = s.pcode; position = ir.position l })
        else none

    unfoldable pub current : StepState A Op → Option Op
    current s = get_elem? s.pcode.operations s.position

    unfoldable pub fallthrough : StepState A Op → A
    fallthrough s = ir.add s.pcode.address s.pcode.length

    -- the end of `StepState::branch`, after the position is changed
    unfoldable pub outcome_at : StepState A Op → ℕ → StepState A Op × BranchOutcome A
    outcome_at s p =
        let s' : StepState A Op = record { pcode = s.pcode; position = p } in
        if ltb p (length s.pcode.operations) then (s', local) else (s', global (fallthrough s'))

    unfoldable pub take_branch :
        StepState A Op → Branch A → Option (StepState A Op × BranchOutcome A)
    take_branch s next = some (outcome_at s ((s.position + 1) % u64_limit))
    take_branch s (local offset) = elim (moved s.position offset) [
      | none ↦ none
      | some p ↦ some (outcome_at s p)
    ]
    take_branch s (global a) = some (s, global a)

    unfoldable pub location_at : StepState A Op → ℕ → L
    location_at s p =
        if ltb p (length s.pcode.operations)
        then ir.at s.pcode.address p
        else ir.from (fallthrough s)

    unfoldable pub branch_location : StepState A Op → Branch A → Option L
    branch_location s next = some (location_at s ((s.position + 1) % u64_limit))
    branch_location s (local offset) = elim (moved s.position offset) [
      | none ↦ none
      | some p ↦ some (location_at s p)
    ]
    branch_location s (global a) = some (ir.from a)
