-- ===== src/Paged/State.antt =====
-- `struct PagedState`: the segments in an interval map, and the flat state that static segments lie
-- in. The methods for a shared and for a mutable reference find their values by the same lines,
-- which stand here once, as `resolve`.
pub mod Resolve
pub mod Follows
pub mod Keeps
pub mod Runs
pub mod Reads
pub mod Added
pub mod Rest
use fuguex_core.Prelude.{
  ℕ, ◌+◌, ◌-◌, ◌%◌, ◌≡◌, Bool, true, false, List, [], ◌∷◌, Option, none, some, ltb, if◌then◌else◌,
  and_then, or_panic, Result, ok, err, panic, bind, map_err, length,
}
use fuguex_core.Address.{AddressOps, u64_limit}
use fuguex_core.Flat.State
use fuguex_core.Flat.State.{FlatState}
use fuguex_core.Chunked.Heap
use fuguex_core.Chunked.Heap.{ChunkState, Interval, IntervalOps}
use fuguex_core.Paged.IntervalMap.{IntervalMapOps, filter_map}
use fuguex_core.Paged.Segments
use fuguex_core.Paged.Segments.{
  Error, unmapped_address, overlapped_access, overlapped_mapping, chunked, backing_error, NameOps,
  Segment, MappingRef, as_mapping,
}

pub record PagedState (V M : Type 0) : Type 0 where
  pub segments : M
  pub inner : FlatState V

-- Where an access to the values of a segment goes.
pub record Target (V S N : Type 0) : Type 0 where
  pub interval : Interval
  pub segment : Segment V S N
  pub flat : FlatState V
  pub address : ℕ

-- `address + 1usize < address`
abbrev pub wraps : ⦃ir : AddressOps⦄ → ℕ → Bool
wraps ⦃ir⦄ address = ltb (ir.add address 1) address

module _ {V : Type 0} where
  -- `for (d, s) in view.iter_mut().zip(vals.into_iter())`
  unfoldable pub zip_assign : List V → List V → List V
  zip_assign [] view = view
  zip_assign (v ∷ vals) [] = []
  zip_assign (v ∷ vals) (d ∷ view) = v ∷ zip_assign vals view

module _ {V S N M : Type 0} where
  -- The state after a write to the flat state of a segment, through the references to both.
  unfoldable pub write_back :
      (im : IntervalMapOps M (Segment V S N))
      → PagedState V M
      → Target V S N
      → FlatState V
      → PagedState V M
  write_back im s t b = elim t.segment [
    | Segment.mapping n heap ↦ record s {
      segments = im.replace s.segments t.interval (Segment.mapping n (record heap { backing = b }));
    }
    | Segment.static_mapping n old ↦ record s {
      segments = im.replace s.segments t.interval (Segment.static_mapping n b);
    }
    | Segment.static n offset ↦ record s { inner = b }
  ]

module _ {V S N M : Type 0} ⦃ir : AddressOps⦄ (iv : IntervalOps S)
    (im : IntervalMapOps M (Segment V S N)) where
  -- `match value` of `with_flat`
  unfoldable pub locate :
      PagedState V M → Interval → Segment V S N → ℕ → ℕ → Result Error (Target V S N)
  locate s interval (Segment.mapping n heap) address access_size =
      bind (map_err chunked (Heap.translate_checked iv heap address access_size)) (λ translated.
        ok (record {
          interval = interval;
          segment = Segment.mapping n heap;
          flat = heap.backing;
          address = translated;
        }))
  locate s interval (Segment.static_mapping n b) address access_size = ok (record {
    interval = interval;
    segment = Segment.static_mapping n b;
    flat = b;
    address = ir.sub address interval.start;
  })
  locate s interval (Segment.static n offset) address access_size = ok (record {
    interval = interval;
    segment = Segment.static n offset;
    flat = s.inner;
    address = ir.add (ir.sub address interval.start) offset;
  })

  unfoldable pub resolve : PagedState V M → ℕ → ℕ → Result Error (Target V S N)
  unfolding locate
  resolve s address access_size =
      if wraps address
      then err (unmapped_address address access_size)
      else elim (im.overlap s.segments address) [
        | [] ↦ err (unmapped_address address access_size)
        | (interval, segment) ∷ others ↦
            if ltb interval.end (ir.add address access_size)
            then err (overlapped_access address access_size)
            else locate s interval segment address access_size
      ]

  unfoldable pub with_flat :
      {A : Type 0}
      → PagedState V M
      → ℕ
      → ℕ
      → (FlatState V → ℕ → ℕ → Result Error A)
      → Result Error A
  with_flat s address access_size f =
      bind (resolve s address access_size) (λ t. f t.flat t.address access_size)

  unfoldable pub with_flat_mut :
      PagedState V M
      → ℕ
      → ℕ
      → (FlatState V → ℕ → ℕ → Result Error (FlatState V))
      → Result Error (PagedState V M)
  with_flat_mut s address access_size f =
      bind (resolve s address access_size)
        (λ t. bind (f t.flat t.address access_size) (λ b. ok (write_back im s t b)))

  -- `match value` of `with_flat_from`
  unfoldable pub from_segment :
      {A : Type 0}
      → PagedState V M
      → Interval
      → Segment V S N
      → ℕ
      → (FlatState V → ℕ → ℕ → Result Error A)
      → Result Error A
  from_segment s interval segment address f = elim segment [
    | Segment.mapping n heap ↦
        let access_size = Heap.len heap in
        bind (map_err chunked (Heap.translate_checked iv heap address access_size))
          (λ translated. f heap.backing translated access_size)
    | Segment.static_mapping n b ↦
        let max_access_size = ir.sub interval.end interval.start in
        let address' = ir.sub address interval.start in f b address' (max_access_size - address')
    | Segment.static n offset ↦
        let max_access_size = ir.sub interval.end interval.start in
        let offset_in = ir.sub address interval.start in
        f s.inner (ir.add offset_in offset) (max_access_size - offset_in)
  ]

  unfoldable pub with_flat_from :
      {A : Type 0} → PagedState V M → ℕ → (FlatState V → ℕ → ℕ → Result Error A) → Result Error A
  unfolding from_segment
  with_flat_from s address f =
      if wraps address
      then err (unmapped_address address 1)
      else elim (im.overlap s.segments address) [
        | [] ↦ err (unmapped_address address 1)
        | (interval, segment) ∷ others ↦ from_segment s interval segment address f
      ]

  -- The closures shadow the address: an error is told from the translated one.
  unfoldable pub view_values_from : PagedState V M → ℕ → Result Error (List V)
  view_values_from s address =
      with_flat_from s address
        (λ inner a n. map_err (backing_error a) (State.view_values inner a n))

  unfoldable pub view_values : PagedState V M → ℕ → ℕ → Result Error (List V)
  view_values s address n =
      with_flat s address n (λ inner a m. map_err (backing_error a) (State.view_values inner a m))

  unfoldable pub get_values : PagedState V M → ℕ → List V → Result Error (List V)
  get_values s address values =
      with_flat s address (length values)
        (λ inner a m. map_err (backing_error a) (State.get_values inner a values))

  unfoldable pub view_values_mut :
      PagedState V M → ℕ → ℕ → (List V → List V) → Result Error (PagedState V M)
  view_values_mut s address n write =
      with_flat_mut s address n
        (λ inner a m. map_err (backing_error a) (State.view_values_mut inner a m write))

  unfoldable pub set_values : PagedState V M → ℕ → List V → Result Error (PagedState V M)
  set_values s address values =
      with_flat_mut s address (length values)
        (λ inner a m. map_err (backing_error a) (State.set_values inner a values))

  unfoldable pub copy_values : PagedState V M → ℕ → ℕ → ℕ → Result Error (PagedState V M)
  copy_values s from to size =
      bind (view_values s from size) (λ vals. view_values_mut s to size (zip_assign vals))

module _ {V S N M : Type 0} ⦃ir : AddressOps⦄ (im : IntervalMapOps M (Segment V S N)) where
  unfoldable pub from_parts :
      List (Interval × Segment V S N) → FlatState V → Option (PagedState V M)
  from_parts mapping backing =
      and_then (im.from_iter mapping) (λ m. some (record { segments = m; inner = backing }))

  unfoldable pub new : V → List (Interval × Segment V S N) → ℕ → ℕ → Option (PagedState V M)
  unfolding from_parts
  new default mapping space size = from_parts mapping (State.new default space size)

  -- the common lines of `static_mapping` and `mapping`, for the segment of each
  unfoldable pub add_segment :
      PagedState V M → ℕ → ℕ → Segment V S N → Result Error (PagedState V M)
  add_segment s base_address size segment =
      let range : Interval = record { start = base_address; end = ir.add base_address size } in
      or_panic (im.has_overlap s.segments range) (λ overlapped.
        if overlapped
        then err (overlapped_mapping base_address size)
        else ok (record s { segments = im.insert s.segments range segment }))

  unfoldable pub static_mapping : V → PagedState V M → N → ℕ → ℕ → Result Error (PagedState V M)
  unfolding add_segment
  static_mapping default s name base_address size =
      add_segment s base_address size
        (Segment.static_mapping name (State.new default s.inner.space size))

  unfoldable pub mapping :
      IntervalOps S → V → PagedState V M → N → ℕ → ℕ → Result Error (PagedState V M)
  unfolding add_segment
  mapping iv default s name base_address size =
      add_segment s base_address size
        (Segment.mapping name (Heap.new iv default s.inner.space base_address size))

  abbrev pub heaps : List (Interval × Segment V S N) → List (ChunkState V S)
  heaps [] = []
  heaps ((i, Segment.mapping n heap) ∷ es) = heap ∷ heaps es
  heaps ((i, Segment.static_mapping n b) ∷ es) = heaps es
  heaps ((i, Segment.static n offset) ∷ es) = heaps es

  unfoldable pub mappings : PagedState V M → List (ChunkState V S)
  mappings s = heaps (im.iter s.segments)

  -- `mapping_for_mut` finds the same segment.
  unfoldable pub mapping_for : PagedState V M → ℕ → Option (MappingRef V S)
  mapping_for s address = if wraps address then none else elim (im.overlap s.segments address) [
    | [] ↦ none
    | (interval, segment) ∷ others ↦ as_mapping segment
  ]

  unfoldable pub segment_bounds : PagedState V M → ℕ → Result Error (Interval × Segment V S N)
  segment_bounds s address =
      if wraps address
      then err (unmapped_address address 1)
      else elim (im.overlap s.segments address) [
        | [] ↦ err (unmapped_address address 1)
        | entry ∷ others ↦ ok entry
      ]

  -- `none` is a panic, here and below
  unfoldable pub fork : PagedState V M → Option (PagedState V M)
  fork s =
      and_then (im.from_iter (filter_map (λ i v. some (Segments.fork v)) (im.iter s.segments)))
        (λ m. some (record { segments = m; inner = State.fork s.inner }))

  -- the closure of `filter_map`, with what the rest comes to
  abbrev pub restore_entry :
      ⦃names : NameOps N⦄
      → Interval
      → Segment V S N
      → Option (Segment V S N)
      → Option (List (Interval × Segment V S N))
      → Option (List (Interval × Segment V S N))
  restore_entry i v none rest = rest
  restore_entry i v (some vo) rest =
      and_then (Segments.restore v vo) (λ v'. and_then rest (λ es. some ((i, v') ∷ es)))

  unfoldable pub restore_segments :
      ⦃names : NameOps N⦄
      → M
      → List (Interval × Segment V S N)
      → Option (List (Interval × Segment V S N))
  restore_segments other [] = some []
  restore_segments other ((i, v) ∷ es) =
      restore_entry i v (im.get other i) (restore_segments other es)

  unfoldable pub restore :
      ⦃names : NameOps N⦄ → PagedState V M → PagedState V M → Option (PagedState V M)
  restore s other = and_then (State.restore s.inner other.inner) (λ inner.
      and_then (restore_segments other.segments (im.iter s.segments))
        (λ es. and_then (im.from_iter es) (λ m. some (record { segments = m; inner = inner }))))

  abbrev sum_len : List (ChunkState V S) → ℕ
  sum_len [] = 0
  sum_len (heap ∷ hs) = Heap.len heap + sum_len hs

  unfoldable pub len : PagedState V M → ℕ
  len s = (State.len s.inner + sum_len (mappings s)) % u64_limit
