-- ===== src/Paths/Replay.antt =====
-- Runs of the hooks over the conditional branches of an execution.
use fuguex_core.Prelude.{ℕ, ◌≡◌, sym, ◌∙◌, Bool, not, List, [], ◌∷◌, ◌++◌, ◌==◌, ok}
use mathlib.Core.List.{append-nil, append_assoc}
use fuguex_core.Paths.{
  HookCBranchAction, Registers, Tracked, BranchTracker, PathWalker, track_step, track_cbranch,
  choose,
}

-- which way a branch goes, from its condition and what the hook makes of it
abbrev pub direction : {R : Type 0} → Bool → HookCBranchAction R → Bool
direction is_taken HookCBranchAction.pass = is_taken
direction is_taken HookCBranchAction.flip = not is_taken
direction is_taken (HookCBranchAction.halt r) = is_taken

-- a conditional branch of an execution: where it stands, the address after it, where the walk goes
-- on, and what its condition says
pub record Visit : Type 0 where
  pub address : ℕ
  pub fallthrough : ℕ
  pub target : ℕ
  pub is_taken : Bool

abbrev pub walk_of : List Visit → List (ℕ × ℕ)
walk_of [] = []
walk_of (v ∷ vs) = (v.address, v.target) ∷ walk_of vs

-- the directions that a walk asks for: not taken where it goes on after the branch
abbrev pub asked : List Visit → List Bool
asked [] = []
asked (v ∷ vs) = not (v.target == v.fallthrough) ∷ asked vs

module _ (R : Type 0) where
  -- at each visit the step hook, then the branch hook
  unfoldable pub run_walker : PathWalker → List Visit → List Bool × PathWalker
  run_walker w [] = ([], w)
  run_walker w (v ∷ vs) =
      let (w', action) = choose {R = R} (record w { next = v.fallthrough }) v.address v.is_taken in
      let (directions, last) = run_walker w' vs in (direction v.is_taken action ∷ directions, last)

-- a branch as the tracker meets it: the state, the operand of its destination, the address after it,
-- the program counter, and the address that `get_address` reads through that operand: for an operand
-- in memory the one that is stored there, where the interpreter's branch goes to the operand itself
pub record Branching (S V : Type 0) : Type 0 where
  pub at : S
  pub destination : V
  pub fallthrough : ℕ
  pub address : ℕ
  pub taken : ℕ

module _ {S V E : Type 0} (O R L : Type 0) (regs : Registers S V E) where
  abbrev pub AllRead : List (Branching S V) → Type 0
  AllRead [] = Unit {0}
  AllRead (b ∷ bs) =
      (regs.program_counter_value b.at ≡ ok b.address)
      × (regs.get_address b.at b.destination ≡ ok b.taken)
      × AllRead bs

  abbrev pub records : List (Branching S V) → List Tracked
  records [] = []
  records (b ∷ bs) =
      record { address = b.address; taken = b.taken; not_taken = b.fallthrough } ∷ records bs

  -- at each branch the step hook, then the branch hook
  unfoldable pub run_tracker : BranchTracker → List (Branching S V) → BranchTracker
  run_tracker t [] = t
  run_tracker t (b ∷ bs) =
      run_tracker
        (track_cbranch {O = O} {R = R} regs
          (track_step {L = L} {R = R} {E = E} {O = O} t b.fallthrough).0 b.at b.destination).0
        bs

  -- Over conditional branches at which the state can tell the program counter and read an address
  -- through the operand of the destination, a `BranchTracker` appends one entry for each, in
  -- order, with the program counter, the address that was read, and the address after the branch.
  pub run_tracker-records :
      (t : BranchTracker) (bs : List (Branching S V))
      → AllRead bs
      → (run_tracker t bs).tracked ≡ t.tracked ++ records bs
  unfolding run_tracker track_cbranch track_step
  run_tracker-records t [] h = sym (append-nil t.tracked)
  run_tracker-records t (b ∷ bs) (pc, target, h) =
      rw (pc, target, run_tracker, track_cbranch)
        (run_tracker-records
            (record {
              next = b.fallthrough;
              tracked =
                  t.tracked
                  ++ (record { address = b.address; taken = b.taken; not_taken = b.fallthrough }
                      ∷ []);
            })
            bs h
          ∙ append_assoc t.tracked _ (records bs))
