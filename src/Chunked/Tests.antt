-- ===== src/Chunked/Tests.antt =====
-- The chunk list on small heaps: the theorems applied, and runs of its operations.
use fuguex_core.Prelude.{ℕ, ◌+◌, ◌≤◌, ◌≡◌, refl, [], ◌∷◌, none, some, ◌==◌, if◌then◌else◌, arith}
use fuguex_core.Chunked.ChunkList.{
  ChunkList, taken, free, allocate, position, free_before, free_after, deallocate, reallocate,
}
use fuguex_core.Chunked.ChunkList.Tiled.{IsHeap, taken_size, allocate_inserts, taken_disjoint}
use fuguex_core.Chunked.ChunkList.Release.{deallocate_removes}
use fuguex_core.Chunked.ChunkList.Reallocate.{reallocate_in_place, reallocate_moves}
use fuguex_core.Chunked.ChunkList.Faults.{
  reallocate_drops_next, reallocate_panics, reallocate_leaks,
}

-- a free chunk, two taken ones, and a free one
abbrev heap : ChunkList
heap = free 0 4 ∷ taken 4 2 ∷ taken 6 3 ∷ free 9 11 ∷ []

heap-IsHeap : IsHeap heap 0 20
heap-IsHeap = record {
  tiled = (refl, (refl, (refl, (refl, tt))));
  covers = refl;
  inhabited = ((λ e. cc), ((λ e. omega arith), ((λ e. omega arith), ((λ e. cc), tt))));
}

reallocate_drops_next_example :
    (cs : ChunkList) × (reallocate heap 4 5 ≡ some (cs, some (0, 2)))
    × (taken_size heap 6 ≡ some 3)
    × (taken_size cs 6 ≡ none)
reallocate_drops_next_example =
    reallocate_drops_next 0 4 4 2 6 3 5 20 (free 9 11 ∷ []) heap-IsHeap (omega arith) (omega arith)
      (omega arith)

reallocate_panics_example : reallocate (free 0 4 ∷ taken 4 2 ∷ []) 4 5 ≡ none
reallocate_panics_example = reallocate_panics 0 4 4 2 5 (omega arith) (omega arith) (omega arith)

abbrev grown : ChunkList
grown = free 0 4 ∷ taken 4 2 ∷ taken 6 3 ∷ taken 9 8 ∷ free 17 3 ∷ []

allocated : allocate heap 8 ≡ some (grown, 9)
unfolding allocate
allocated = refl

reallocate_leaks_example :
    (reallocate heap 4 8 ≡ some (grown, some (9, 2))) × (taken_size grown 4 ≡ some 2)
reallocate_leaks_example =
    reallocate_leaks 0 4 4 2 6 3 8 20 9 (free 9 11 ∷ []) grown heap-IsHeap (omega arith)
      (omega arith) allocated

allocate_inserts_example :
    IsHeap grown 0 20
    × (9 + 8 ≤ 20)
    × (taken_size heap 9 ≡ none)
    × ((p : ℕ) → taken_size grown p ≡ (if 9 == p then some 8 else taken_size heap p))
allocate_inserts_example = allocate_inserts heap grown 20 8 9 heap-IsHeap (omega arith) allocated

no_room : allocate heap 12 ≡ none
unfolding allocate
no_room = refl

taken_disjoint_example : 4 + 2 ≤ 6
taken_disjoint_example = taken_disjoint heap 0 4 2 6 3 heap-IsHeap.tiled refl refl (omega arith)

deallocate_removes_example :
    (cs : ChunkList) × (deallocate heap 4 ≡ some (cs, some 2))
    × IsHeap cs 0 20
    × ((p : ℕ) → taken_size cs p ≡ (if 4 == p then none else taken_size heap p))
deallocate_removes_example = deallocate_removes heap 20 4 heap-IsHeap

at_two : position heap 6 ≡ some 2
unfolding position
at_two = refl

reallocate_in_place_example :
    (cs : ChunkList) × (reallocate heap 6 10 ≡ some (cs, some (6, 3)))
    × IsHeap cs 0 20
    × ((p : ℕ) → taken_size cs p ≡ (if 6 == p then some 10 else taken_size heap p))
unfolding free_after
reallocate_in_place_example =
    reallocate_in_place heap 20 2 6 10 3 heap-IsHeap at_two refl (omega arith) (omega arith)

-- two taken chunks and a free one
abbrev full : ChunkList
full = taken 0 4 ∷ taken 4 2 ∷ free 6 10 ∷ []

full-IsHeap : IsHeap full 0 16
full-IsHeap = record {
  tiled = (refl, (refl, (refl, tt)));
  covers = refl;
  inhabited = ((λ e. omega arith), ((λ e. omega arith), ((λ e. cc), tt)));
}

at_first : position full 0 ≡ some 0
unfolding position
at_first = refl

moved_to : allocate full 6 ≡ some (taken 0 4 ∷ taken 4 2 ∷ taken 6 6 ∷ free 12 4 ∷ [], 6)
unfolding allocate
moved_to = refl

reallocate_moves_example :
    (cs : ChunkList) × (reallocate full 0 6 ≡ some (cs, some (6, 4)))
    × IsHeap cs 0 16
    × ((p : ℕ)
        → taken_size cs p ≡ (if 0 == p then none else if 6 == p then some 6 else taken_size full p))
unfolding free_before free_after
reallocate_moves_example =
    reallocate_moves full (taken 0 4 ∷ taken 4 2 ∷ taken 6 6 ∷ free 12 4 ∷ []) 16 0 0 6 4 6
      full-IsHeap at_first refl refl (omega arith) (omega arith) moved_to
