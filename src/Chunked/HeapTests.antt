-- ===== src/Chunked/HeapTests.antt =====
-- The heap on eight values, with a list of intervals: the theorems applied.
use fuguex_core.Prelude.{ℕ, ◌≡◌, refl, List, [], ◌∷◌, some, ok, arith}
use fuguex_core.Address.{AddressOps, wrapping}
use fuguex_core.Flat.State.{from_vec}
use fuguex_core.Flat.State.Start.{from_vec-IsValid, rights-new}
use fuguex_core.Flat.Access.{Access}
use fuguex_core.Flat.Permissions.Regions.{AllAllowed}
use fuguex_core.Chunked.ChunkList
use fuguex_core.Chunked.IntervalLists.{intervals}
use fuguex_core.Chunked.Heap.{reallocate}
use fuguex_core.Chunked.Heap.Moves.{reallocate-panics}
use fuguex_core.Prelude.{panic, inl}
use fuguex_core.Flat.State.Valid
use fuguex_core.Chunked.ChunkList.{taken, free}
use fuguex_core.Chunked.Heap.{Interval, ChunkState, allocate_with, deallocate}
use fuguex_core.Chunked.Heap.Allocation.{IsValid, Allocation, allocate_with-Allocation}
use fuguex_core.Chunked.Heap.Deallocation.{Freed, deallocate-Freed}

instance abbrev addresses : AddressOps
addresses = wrapping

abbrev eight : List ℕ
eight = 10 ∷ 11 ∷ 12 ∷ 13 ∷ 14 ∷ 15 ∷ 16 ∷ 17 ∷ []

-- two values in use, with the red zone behind them
abbrev heap : ChunkState ℕ (List Interval)
heap = record {
  base_address = 100;
  chunks = taken 0 3 ∷ free 3 5 ∷ [];
  regions = record { start = 100; end = 102 } ∷ [];
  backing = from_vec 0 eight;
  space = 0;
}

values-IsValid : Valid.IsValid (from_vec 0 eight)
values-IsValid = from_vec-IsValid 0 eight (omega arith) (omega arith)

heap-IsValid : IsValid heap
unfolding from_vec
heap-IsValid = record {
  heap = record {
    tiled = (refl, (refl, tt));
    covers = refl;
    inhabited = ((λ e. omega arith), ((λ e. cc), tt));
  };
  values = values-IsValid;
  in_u64 = omega arith;
}

allocate_with-Allocation_example :
    Allocation intervals heap 2 (λ a l. l) (allocate_with intervals heap 2 (λ a l. l))
allocate_with-Allocation_example =
    allocate_with-Allocation intervals heap 2 (λ a l. l) heap-IsValid (omega arith)

deallocate-Freed_example :
    (s : ChunkState ℕ (List Interval)) × (deallocate intervals heap 100 ≡ (s, ok tt))
    × Freed intervals heap 0 2 s
deallocate-Freed_example = deallocate-Freed intervals heap 0 2 [] heap-IsValid refl refl

abbrev sixteen : List ℕ
sixteen = 0 ∷ 1 ∷ 2 ∷ 3 ∷ 4 ∷ 5 ∷ 6 ∷ 7 ∷ 8 ∷ 9 ∷ 10 ∷ 11 ∷ 12 ∷ 13 ∷ 14 ∷ 15 ∷ []

-- two regions next to each other
abbrev crowded : ChunkState ℕ (List Interval)
crowded = record {
  base_address = 100;
  chunks = taken 0 3 ∷ taken 3 2 ∷ free 5 11 ∷ [];
  regions = record { start = 100; end = 102 } ∷ record { start = 103; end = 104 } ∷ [];
  backing = from_vec 0 sixteen;
  space = 0;
}

crowded-IsValid : IsValid crowded
unfolding from_vec
crowded-IsValid = record {
  heap = record {
    tiled = (refl, (refl, (refl, tt)));
    covers = refl;
    inhabited = ((λ e. omega arith), ((λ e. omega arith), ((λ e. cc), tt)));
  };
  values = from_vec-IsValid 0 sixteen (omega arith) (omega arith);
  in_u64 = omega arith;
}

chunk_moves :
    ChunkList.reallocate crowded.chunks 0 4
    ≡ some (free 0 3 ∷ taken 3 2 ∷ taken 5 4 ∷ free 9 7 ∷ [], some (5, 3))
unfolding ChunkList.reallocate ChunkList.free_after ChunkList.grow_up
chunk_moves = refl

first_readable : AllAllowed crowded.backing.permissions Access.read 0 2
unfolding from_vec
first_readable b l u = rw (rights-new 0 16 b (omega arith)) refl

reallocate-panics_example : (reallocate intervals crowded 100 3).1 ≡ panic
unfolding from_vec
reallocate-panics_example =
    reallocate-panics intervals crowded 0 2 5 3 3 []
      (free 0 3 ∷ taken 3 2 ∷ taken 5 4 ∷ free 9 7 ∷ []) crowded-IsValid refl refl first_readable
      (omega arith) chunk_moves (omega arith) (omega arith) (inl (omega arith))
