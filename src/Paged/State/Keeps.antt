-- ===== src/Paged/State/Keeps.antt =====
-- What the operations of a paged state, and of the flat states in it, keep of the state that was
-- forked.
use fuguex_core.Prelude.{
  ℕ, suc, ◌+◌, ◌≤◌, ◌<◌, ◌≡◌, refl, ap, ◌∙◌, sym, subst, false, List, [], ◌∷◌, ◌++◌, none, some,
  Result, ok, err, panic, map_err, ok_inj, err_ok, inl, inr, Bool-cases, arith, length,
}
use fuguex_core.Address.{AddressOps, u64_limit}
use fuguex_core.Flat.State
use fuguex_core.Flat.State.{FlatState}
use fuguex_core.Flat.State.Valid
use fuguex_core.Flat.State.Valid.{max_len}
use fuguex_core.Flat.State.Start.{read_only-IsValid}
use fuguex_core.Flat.State.Restore.{restore-Tracks}
use fuguex_core.Flat.State.Runs
use fuguex_core.Chunked.Heap
use fuguex_core.Chunked.Heap.{Interval, IntervalOps}
use fuguex_core.Paged.IntervalMap.{IntervalMapOps, lookup, filter_map, any_meets, kept}
use fuguex_core.Paged.IntervalMap.Entries.{
  All, Apart, All-insert, insert-Apart, filter_map-append, any_meets-filter_map, lookup-none,
  filter_map_self, map-Apart, InMap, InMap-self,
}
use fuguex_core.Paged.Segments
use fuguex_core.Paged.Segments.{Error, Segment, NameOps, backing_error}
use fuguex_core.Paged.State as Paging
use fuguex_core.Paged.State.{
  PagedState, Target, with_flat_mut, zip_assign, resolve, write_back, add_segment, fork, restore,
  restore_segments,
}
use fuguex_core.Paged.State.Resolve.{bind-ok}
use fuguex_core.Paged.State.Follows.{
  Kept, IsValid, Kept-fork, Follows, ValidSegment, SegmentKept-self, SegmentKept-fork,
  restore-Segment, write_back-Kept,
}

-- A mapping is not empty, ends below the last address, and fits into memory and its space.
pub record Fits ⦃ir : AddressOps⦄ (space base_address size : ℕ) : Type 0 where
  pub some_values : 0 < size
  pub in_u64 : base_address + size < u64_limit
  pub in_vec : size ≤ max_len
  pub in_space : size < ir.space_limit space

module _ {V : Type 0} where
  pub length-zip_assign : (vals view : List V) → length (zip_assign vals view) ≡ length view
  unfolding zip_assign
  length-zip_assign [] view = refl
  length-zip_assign (v ∷ vals) [] = refl
  length-zip_assign (v ∷ vals) (d ∷ view) = ap suc (length-zip_assign vals view)

pub new_heap-IsValid :
    {V S : Type 0} ⦃ir : AddressOps⦄ (iv : IntervalOps S) (default : V) (space base size : ℕ)
    → size ≤ max_len
    → size < ir.space_limit space
    → Valid.IsValid (Heap.new iv default space base size).backing
unfolding Heap.new
new_heap-IsValid iv default space base size h l = read_only-IsValid default space size h l

pub map_err-ok :
    {E F A : Type 0} (f : E → F) (m : Result E A) (a : A) → map_err f m ≡ ok a → m ≡ ok a
map_err-ok {E = E} {F = F} f (ok b) a e = ap ok (ok_inj {E = F} e)
map_err-ok f (err x) a e = absurd (err_ok e)
map_err-ok f panic a e = cc

module _ {V : Type 0} ⦃ir : AddressOps⦄ where
  pub flat_set-Kept :
      (b flat x : FlatState V) (t : ℕ) (values : List V)
      → Runs.Kept b flat
      → State.set_values flat t values ≡ ok x
      → Runs.Kept b x
  unfolding Runs.call
  flat_set-Kept b flat x t values k e =
      Runs.call-Kept b flat (Runs.Op.set_values t values) k tt (rw e refl)

  pub flat_view-Kept :
      (b flat x : FlatState V) (t n : ℕ) (write : List V → List V)
      → Runs.Kept b flat
      → ((l : List V) → length (write l) ≡ length l)
      → State.view_values_mut flat t n write ≡ ok x
      → Runs.Kept b x
  unfolding Runs.call
  flat_view-Kept b flat x t n write k same e =
      Runs.call-Kept b flat (Runs.Op.view_values_mut t n write) k same (rw e refl)

module _ {V S N M : Type 0} ⦃ir : AddressOps⦄ (iv : IntervalOps S)
    (im : IntervalMapOps M (Segment V S N)) (base : PagedState V M) where
  pub with_flat_mut-Kept :
      (s s' : PagedState V M) (a n : ℕ) (f : FlatState V → ℕ → ℕ → Result Error (FlatState V))
      → ((flat x : FlatState V) (t : ℕ)
          → f flat t n ≡ ok x
          → (b : FlatState V) → Runs.Kept b flat
          → Runs.Kept b x)
      → Kept im base s
      → with_flat_mut iv im s a n f ≡ ok s'
      → Kept im base s'
  unfolding with_flat_mut
  with_flat_mut-Kept s s' a n f keeps k e =
      let (t, e₁, e₂) = bind-ok (resolve iv im s a n) _ s' e in
      let (x, e₃, e₄) = bind-ok (f t.flat t.address n) _ s' e₂ in
      subst (Kept im base) (ok_inj {E = Error} e₄)
        (write_back-Kept im iv base s a n t x k e₁ (keeps t.flat x t.address e₃))

  pub set_values-Kept :
      (s s' : PagedState V M) (address : ℕ) (values : List V)
      → Kept im base s
      → Paging.set_values iv im s address values ≡ ok s'
      → Kept im base s'
  unfolding Paging.set_values
  set_values-Kept s s' address values k e =
      with_flat_mut-Kept s s' address (length values) _
        (λ flat x t done b kept.
          flat_set-Kept b flat x t values kept
            (map_err-ok (backing_error t) (State.set_values flat t values) x done))
        k e

  pub view_values_mut-Kept :
      (s s' : PagedState V M) (address n : ℕ) (write : List V → List V)
      → ((l : List V) → length (write l) ≡ length l)
      → Kept im base s
      → Paging.view_values_mut iv im s address n write ≡ ok s'
      → Kept im base s'
  unfolding Paging.view_values_mut
  view_values_mut-Kept s s' address n write same k e =
      with_flat_mut-Kept s s' address n _
        (λ flat x t done b kept.
          flat_view-Kept b flat x t n write kept same
            (map_err-ok (backing_error t) (State.view_values_mut flat t n write) x done))
        k e

  pub copy_values-Kept :
      (s s' : PagedState V M) (from to size : ℕ)
      → Kept im base s
      → Paging.copy_values iv im s from to size ≡ ok s'
      → Kept im base s'
  unfolding Paging.copy_values
  copy_values-Kept s s' from to size k e =
      let (vals, e₁, e₂) = bind-ok (Paging.view_values iv im s from size) _ s' e in
      view_values_mut-Kept s s' to size (zip_assign vals) (length-zip_assign vals) k e₂

module _ {V S N M : Type 0} ⦃ir : AddressOps⦄ (im : IntervalMapOps M (Segment V S N))
    (base : PagedState V M) where
  -- A segment that is added meets no other one, so no segment of the base has its interval.
  pub add_segment-Kept :
      (s s' : PagedState V M) (base_address size : ℕ) (v : Segment V S N)
      → ValidSegment v
      → 0 < size
      → base_address + size < u64_limit
      → Kept im base s
      → add_segment im s base_address size v ≡ ok s'
      → Kept im base s'
  unfolding add_segment
  add_segment-Kept s s' base_address size v valid h l k e =
      let r : Interval = record { start = base_address; end = ir.add base_address size } in
      let room : r.start < r.end = omega (arith, ir.add_lem base_address size l) in
      let es = im.iter s.segments in
      elim (Bool-cases (any_meets r es)) [
        | inl m ↦ absurd (err_ok (rw (im.has_overlap_lem s.segments r room, m) at e))
        | inr m ↦
            let (before, behind, split, inserted) = im.iter-insert s.segments r v room m in
            let f = λ (i : Interval) (w : Segment V S N). lookup i (im.iter base.segments) in
            let new : lookup r (im.iter base.segments) ≡ none =
              lookup-none r (im.iter base.segments) room
                (subst (λ bs. any_meets r bs ≡ false) k.order (any_meets-filter_map f r es m)) in
            subst (Kept im base)
              (ok_inj {E = Error} (rw (im.has_overlap_lem s.segments r room, m) at e))
              (record {
                inner = k.inner;
                follows = rw inserted (
                    All-insert (Follows (im.iter base.segments)) before behind r v
                      (v, SegmentKept-self v valid, inl new)
                      (subst (All (Follows (im.iter base.segments))) split k.follows));
                order =
                    ap (filter_map f) inserted
                    ∙ filter_map-append f before ((r, v) ∷ behind)
                    ∙ ap (λ o. filter_map f before ++ kept r o (filter_map f behind)) new
                    ∙ sym (filter_map-append f before behind)
                    ∙ ap (filter_map f) (sym split)
                    ∙ k.order;
                apart = rw inserted (
                    insert-Apart before behind r v room
                      (subst (λ xs. any_meets r xs ≡ false) split m) (subst Apart split k.apart));
              })
      ]

module _ {V S N : Type 0} ⦃ir : AddressOps⦄ where
  All-fork :
      (bases es : List (Interval × Segment V S N))
      → All (λ i v. ValidSegment v) es
      → InMap bases es
      → All (Follows bases) (filter_map (λ i v. some (Segments.fork v)) es)
  All-fork bases [] h m = tt
  All-fork bases ((i, v) ∷ es) h m =
      ((v, SegmentKept-fork v h.0, inr m.0), All-fork bases es h.1 m.1)

module _ {V S N M : Type 0} ⦃ir : AddressOps⦄ (im : IntervalMapOps M (Segment V S N)) where
  pub fork-Kept :
      (base : PagedState V M)
      → IsValid im base
      → (forked : PagedState V M) × (fork im base ≡ some forked) × Kept im base forked
  unfolding fork
  fork-Kept base v =
      let es = im.iter base.segments in
      let (m, collected, entries) =
        im.iter-from_iter base.segments (λ i w. some (Segments.fork w)) in
      (
        record { segments = m; inner = State.fork base.inner },
        rw collected refl,
        record {
          inner = Kept-fork base.inner v.inner;
          follows = rw entries (All-fork es es v.segments (InMap-self es v.apart));
          order =
              ap (filter_map (λ i w. lookup i es)) entries
              ∙ filter_map_self Segments.fork es v.apart;
          apart = rw entries (map-Apart Segments.fork es v.apart);
        },
      )

module _ {V S N M : Type 0} ⦃ir : AddressOps⦄ ⦃names : NameOps N⦄
    (im : IntervalMapOps M (Segment V S N)) where
  pub restore_segments-kept :
      (base : M) (es : List (Interval × Segment V S N))
      → All (Follows (im.iter base)) es
      → restore_segments im base es ≡ some (filter_map (λ i v. lookup i (im.iter base)) es)
  unfolding restore_segments
  restore_segments-kept base [] h = refl
  restore_segments-kept base ((i, v) ∷ es) ((b, k, from), h) = elim from [
    | inl new ↦ rw (im.get_lem base i, new, restore_segments-kept base es h) refl
    | inr old ↦
        rw (im.get_lem base i, old, restore-Segment b v k, restore_segments-kept base es h) refl
  ]

  pub restore-Kept :
      (base s : PagedState V M)
      → Kept im base s
      → (t : PagedState V M) × (restore im s base ≡ some t)
        × (t.inner ≡ base.inner)
        × (im.iter t.segments ≡ im.iter base.segments)
  unfolding restore
  restore-Kept base s k =
      let (m, collected, entries) =
        im.iter-from_iter s.segments (λ i w. lookup i (im.iter base.segments)) in
      (
        record { segments = m; inner = base.inner },
        rw
            (
              restore-Tracks base.inner s.inner k.inner.valid k.inner.tracks,
              restore_segments-kept base.segments (im.iter s.segments) k.follows,
              collected,
            )
            refl,
        refl,
        entries ∙ k.order,
      )
