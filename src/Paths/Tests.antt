-- ===== src/Paths/Tests.antt =====
-- A walk of three branches, and a tracked run of two.
use fuguex_core.Prelude.{ℕ, ◌+◌, ◌≡◌, refl, true, false, List, [], ◌∷◌, ok}
use fuguex_core.Paths.{PathWalker, Registers, default_tracker}
use fuguex_core.Paths.Replay.{Visit, Branching, run_tracker, run_tracker-records}

abbrev visits : List Visit
visits =
    record { address = 8; fallthrough = 12; target = 12; is_taken = true }
    ∷ record { address = 20; fallthrough = 24; target = 40; is_taken = false }
    ∷ record { address = 8; fallthrough = 12; target = 20; is_taken = true }
    ∷ []

abbrev walker : PathWalker
walker = record { next = 0; walk = (8, 12) ∷ (20, 40) ∷ (8, 20) ∷ (8, 12) ∷ [] }

-- A state is its program counter. An operand is an address; the memory holds the address 100 bytes
-- further there.
abbrev registers : Registers ℕ ℕ ℕ
registers = record {
  program_counter_value = λ s. ok s;
  get_byte = λ s v. ok v;
  get_address = λ s v. ok (v + 100);
}

abbrev branches : List (Branching ℕ ℕ)
branches =
    record { at = 8; destination = 20; fallthrough = 12; address = 8; taken = 120 }
    ∷ record { at = 20; destination = 40; fallthrough = 24; address = 20; taken = 140 }
    ∷ []

run_tracker-records_example :
    (run_tracker ℕ ℕ ℕ registers default_tracker branches).tracked
    ≡ record { address = 8; taken = 120; not_taken = 12 }
      ∷ record { address = 20; taken = 140; not_taken = 24 }
      ∷ []
unfolding default_tracker
run_tracker-records_example =
    run_tracker-records ℕ ℕ ℕ registers default_tracker branches (refl, refl, (refl, refl, tt))
