-- ===== src/Paged/Tests.antt =====
-- Three segments, one of each kind, over eight values each: the theorems applied.
use fuguex_core.Prelude.{
  ℕ, ◌+◌, ◌≡◌, refl, Bool, true, false, List, [], ◌∷◌, ok, some, ◌==◌, ==_iff, inl, inr, and_then,
  arith, slice,
}
use fuguex_core.Address.{AddressOps, wrapping}
use fuguex_core.Flat.Permissions
use fuguex_core.Flat.Dirty
use fuguex_core.Flat.State
use fuguex_core.Flat.State.{FlatState, from_vec}
use fuguex_core.Flat.State.Valid
use fuguex_core.Flat.State.Start.{from_vec-IsValid}
use fuguex_core.Chunked.ChunkList
use fuguex_core.Chunked.Heap
use fuguex_core.Chunked.Heap.{Interval, ChunkState}
use fuguex_core.Chunked.IntervalLists.{intervals}
use fuguex_core.Paged.IntervalMap.{entries}
use fuguex_core.Paged.Segments.{Segment, NameOps}
use fuguex_core.Paged.Segments
use fuguex_core.Paged.State as Paging
use fuguex_core.Paged.State.{PagedState, Target, resolve, view_values, set_values, view_values_from}
use fuguex_core.Paged.State.Follows.{IsValid}
use fuguex_core.Paged.State.Runs.{Op, run, restore-run-fork_segments}
use fuguex_core.Paged.State.Reads.{view_values-set_values_mapped, view_values-set_values_elsewhere}
use fuguex_core.Paged.State.Added.{Added, mapping-Added}
use fuguex_core.Paged.State.Rest.{Shown, view_values-Shown, view_values_from-mapping}

instance abbrev addresses : AddressOps
addresses = wrapping

instance abbrev names : NameOps ℕ
names = record { same_name = λ m n. m == n; same_name_refl = λ n. (==_iff n n).1 refl }

abbrev SegmentList : Type 0
SegmentList = List (Interval × Segment ℕ (List Interval) ℕ)

abbrev eight : List ℕ
eight = 10 ∷ 11 ∷ 12 ∷ 13 ∷ 14 ∷ 15 ∷ 16 ∷ 17 ∷ []

abbrev values : FlatState ℕ
values = from_vec 0 eight

abbrev heap : ChunkState ℕ (List Interval)
heap = record {
  base_address = 300;
  chunks = ChunkList.taken 0 8 ∷ [];
  regions = record { start = 300; end = 307 } ∷ [];
  backing = values;
  space = 0;
}

abbrev at : ℕ → ℕ → Interval
at first last = record { start = first; end = last }

-- the segments, with the values of the second one
abbrev segments : FlatState ℕ → SegmentList
segments b =
    (at 100 104, Segment.static 1 2)
    ∷ (at 200 208, Segment.static_mapping 2 b)
    ∷ (at 300 308, Segment.mapping 3 heap)
    ∷ []

abbrev paged : PagedState ℕ SegmentList
paged = record { segments = segments values; inner = values }

values-IsValid : Valid.IsValid values
values-IsValid = from_vec-IsValid 0 eight (omega arith) (omega arith)

paged-IsValid : IsValid entries paged
paged-IsValid = record {
  inner = values-IsValid;
  segments = (tt, (values-IsValid, (values-IsValid, tt)));
  apart = (omega arith, refl, (omega arith, refl, (omega arith, refl, tt)));
}

-- the second and third value, and what is left when they are set
abbrev second : Target ℕ (List Interval) ℕ
second = record {
  interval = at 200 208;
  segment = Segment.static_mapping 2 values;
  flat = values;
  address = 1;
}

abbrev written : FlatState ℕ
written = record {
  backing = 10 ∷ 5 ∷ 6 ∷ 13 ∷ 14 ∷ 15 ∷ 16 ∷ 17 ∷ [];
  dirty = record { indices = 0 ∷ []; bitsmap = 1 ∷ [] };
  permissions = values.permissions;
  space = 0;
}

abbrev stored : PagedState ℕ SegmentList
stored = record { segments = segments written; inner = values }

at_second : resolve intervals entries paged 201 2 ≡ ok second
unfolding resolve
at_second = refl

was_stored : set_values intervals entries paged 201 (5 ∷ 6 ∷ []) ≡ ok stored
unfolding set_values Paging.with_flat_mut resolve State.set_values from_vec Permissions.all_writable
    Permissions.all_marked_from Permissions.is_marked Permissions.new
    fuguex_core.Prelude.clone_from_slice Dirty.dirty_region Dirty.dirty_from Dirty.dirty Dirty.new
    Paging.write_back
was_stored = refl

was_shown : view_values intervals entries paged 201 2 ≡ ok (11 ∷ 12 ∷ [])
unfolding view_values Paging.with_flat resolve State.view_values from_vec Permissions.all_readable
    Permissions.all_marked_from Permissions.is_marked Permissions.new fuguex_core.Prelude.slice?
was_shown = refl

view_values-set_values_mapped_example : view_values intervals entries stored 201 2 ≡ ok (5 ∷ 6 ∷ [])
view_values-set_values_mapped_example =
    view_values-set_values_mapped intervals entries paged stored 201 (5 ∷ 6 ∷ []) (11 ∷ 12 ∷ [])
      paged-IsValid was_shown was_stored

-- the static segment, in the inner state
abbrev first : Target ℕ (List Interval) ℕ
first = record { interval = at 100 104; segment = Segment.static 1 2; flat = values; address = 2 }

at_first : resolve intervals entries paged 100 2 ≡ ok first
unfolding resolve
at_first = refl

first_shown : view_values intervals entries paged 100 2 ≡ ok (12 ∷ 13 ∷ [])
unfolding view_values Paging.with_flat resolve State.view_values from_vec Permissions.all_readable
    Permissions.all_marked_from Permissions.is_marked Permissions.new fuguex_core.Prelude.slice?
first_shown = refl

view_values-set_values_elsewhere_example :
    view_values intervals entries stored 100 2 ≡ ok (12 ∷ 13 ∷ [])
unfolding Segments.is_static
view_values-set_values_elsewhere_example =
    view_values-set_values_elsewhere intervals entries paged stored 201 100 2 (5 ∷ 6 ∷ [])
      (12 ∷ 13 ∷ []) second first paged-IsValid at_second at_first (inl refl) first_shown was_stored

mapping-Added_example :
    Added entries paged
      (at 400 408)
      8
      (Segment.mapping 4 (Heap.new intervals 0 0 400 8))
      (Paging.mapping entries intervals 0 paged 4 400 8)
unfolding from_vec
mapping-Added_example = mapping-Added entries intervals 0 paged 4 400 8 (omega arith) (omega arith)

view_values-Shown_example :
    Shown intervals entries second 2 (view_values intervals entries paged 201 2)
view_values-Shown_example =
    view_values-Shown intervals entries paged 201 2 second paged-IsValid at_second

view_values_from-mapping_example : ¬ (view_values_from intervals entries paged 301 ≡ ok (11 ∷ []))
view_values_from-mapping_example =
    view_values_from-mapping intervals entries paged 301 (at 300 308) 3 heap [] (11 ∷ [])
      paged-IsValid refl (omega arith) (omega arith)

abbrev ran : PagedState ℕ SegmentList
ran = record {
  segments = (at 400 408, Segment.mapping 4 (Heap.new intervals 0 0 400 8)) ∷ segments written;
  inner = values;
}

abbrev calls : List (Op ℕ ℕ)
calls = Op.set_values 201 (5 ∷ 6 ∷ []) ∷ Op.mapping 4 400 8 ∷ []

it_ran :
    and_then (Paging.fork entries paged) (λ forked. run intervals entries 0 forked calls) ≡ some ran
unfolding Paging.fork run set_values Paging.with_flat_mut resolve Segments.fork State.set_values
    State.fork from_vec Permissions.all_writable Permissions.all_marked_from Permissions.is_marked
    Permissions.new fuguex_core.Prelude.clone_from_slice Dirty.dirty_region Dirty.dirty_from
    Dirty.dirty Dirty.new Dirty.fork Paging.mapping Heap.fork Heap.new Paging.write_back
it_ran = refl

restore-run-fork_segments_example :
    (t : PagedState ℕ SegmentList) × (Paging.restore entries ran paged ≡ some t)
    × (t.inner ≡ values)
    × (t.segments ≡ segments values)
restore-run-fork_segments_example =
    restore-run-fork_segments intervals entries 0 paged ran calls paged-IsValid
      (
        tt,
        (
          record {
            some_values = omega arith;
            in_u64 = omega arith;
            in_vec = omega arith;
            in_space = omega arith;
          },
          tt,
        ),
      )
      it_ran
