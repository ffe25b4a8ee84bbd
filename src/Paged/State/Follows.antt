-- ===== src/Paged/State/Follows.antt =====
-- A paged state that differs from another one at most in what its flat states record as written, in
-- permission bits and by segments that were added.
use fuguex_core.Prelude.{
  Bool, not, ◌&&◌, ℕ, ◌≡◌, ◌⊎◌, refl, ap, ◌∙◌, sym, subst, true, false, List, none, some, ok,
  map_err, ok_inj, inl, inr, Bool-cases, arith, ==_iff,
}
use fuguex_core.Address.{AddressOps}
use fuguex_core.Flat.State
use fuguex_core.Flat.State.{FlatState}
use fuguex_core.Flat.State.Valid
use fuguex_core.Flat.State.Restore.{fork-Tracks, fork-IsValid, restore-Tracks}
use fuguex_core.Flat.State.Runs
use fuguex_core.Chunked.Heap
use fuguex_core.Chunked.Heap.{ChunkState, Interval, IntervalOps}
use fuguex_core.Chunked.Heap.Deallocation.{restore-ChunkState}
use fuguex_core.Paged.IntervalMap.{IntervalMapOps, lookup, same, filter_map}
use fuguex_core.Paged.IntervalMap.Entries.{
  All, Apart, All-holding, All-put, put-Apart, filter_map-put,
}
use fuguex_core.Paged.Segments
use fuguex_core.Paged.Segments.{Error, chunked, Segment, is_static, NameOps}
use fuguex_core.Paged.State.{PagedState, Target, write_back, locate, resolve}
use fuguex_core.Paged.State.Resolve.{
  resolve-Found, renewed, write_back-own, write_back-static, bind-ok, same_store, same_entry,
}

and_right : (a b : Bool) → (a && b) ≡ true → b ≡ true
and_right a b h = ground arith

module _ {V : Type 0} ⦃ir : AddressOps⦄ where
  pub Kept-fork : (f : FlatState V) → Valid.IsValid f → Runs.Kept f (State.fork f)
  Kept-fork f v = record { valid = fork-IsValid f v; tracks = fork-Tracks f }

  Kept-self : (f : FlatState V) → Valid.IsValid f → Runs.Kept f f
  Kept-self f v = record {
    valid = v;
    tracks = record {
      same_len = refl;
      same_space = refl;
      same_permission_space = refl;
      same_words = refl;
      clean = λ i d. refl;
    };
  }

module _ {V S N : Type 0} ⦃ir : AddressOps⦄ where
  pub data SegmentKept : Segment V S N → Segment V S N → Type 0 where
    same_static : (n : N) (o : ℕ) → SegmentKept (Segment.static n o) (Segment.static n o)
    kept_mapping :
        (n : N) (b h : ChunkState V S)
        → h.base_address ≡ b.base_address
        → h.space ≡ b.space
        → Runs.Kept b.backing h.backing
        → SegmentKept (Segment.mapping n b) (Segment.mapping n h)
    kept_flat :
        (n : N) (b f : FlatState V)
        → Runs.Kept b f
        → SegmentKept (Segment.static_mapping n b) (Segment.static_mapping n f)

  -- The segment of an interval comes from that of the base, or was added.
  abbrev pub Follows : List (Interval × Segment V S N) → Interval → Segment V S N → Type 0
  Follows bases i v =
      (b : Segment V S N) × SegmentKept b v × ((lookup i bases ≡ none) ⊎ (lookup i bases ≡ some b))

  -- what a valid segment is
  abbrev pub ValidSegment : Segment V S N → Type 0
  ValidSegment (Segment.static n o) = Unit {0}
  ValidSegment (Segment.mapping n h) = Valid.IsValid h.backing
  ValidSegment (Segment.static_mapping n f) = Valid.IsValid f

  pub SegmentKept-self : (v : Segment V S N) → ValidSegment v → SegmentKept v v
  SegmentKept-self (Segment.static n o) h = same_static n o
  SegmentKept-self (Segment.mapping n b) h = kept_mapping n b b refl refl (Kept-self b.backing h)
  SegmentKept-self (Segment.static_mapping n f) h = kept_flat n f f (Kept-self f h)

  pub SegmentKept-fork : (v : Segment V S N) → ValidSegment v → SegmentKept v (Segments.fork v)
  unfolding Segments.fork Heap.fork
  SegmentKept-fork (Segment.static n o) h = same_static n o
  SegmentKept-fork (Segment.mapping n b) h =
      kept_mapping n b (Heap.fork b) refl refl (Kept-fork b.backing h)
  SegmentKept-fork (Segment.static_mapping n f) h = kept_flat n f (State.fork f) (Kept-fork f h)

  flat_of : FlatState V → Segment V S N → FlatState V
  flat_of inner (Segment.static n o) = inner
  flat_of inner (Segment.mapping n h) = h.backing
  flat_of inner (Segment.static_mapping n f) = f

  flat_of-IsValid :
      (inner : FlatState V) (v : Segment V S N)
      → Valid.IsValid inner
      → ValidSegment v
      → Valid.IsValid (flat_of inner v)
  unfolding flat_of
  flat_of-IsValid inner (Segment.static n o) h k = h
  flat_of-IsValid inner (Segment.mapping n b) h k = k
  flat_of-IsValid inner (Segment.static_mapping n f) h k = k

  SegmentKept-renewed :
      (b v : Segment V S N) (inner x : FlatState V)
      → SegmentKept b v
      → is_static v ≡ false
      → ((base : FlatState V) → Runs.Kept base (flat_of inner v) → Runs.Kept base x)
      → SegmentKept b (renewed v x)
  unfolding renewed flat_of is_static
  SegmentKept-renewed b v inner x (same_static n o) e keeps = cc
  SegmentKept-renewed b v inner x (kept_mapping n c h p q k) e keeps =
      kept_mapping n c (record h { backing = x }) p q (keeps c.backing k)
  SegmentKept-renewed b v inner x (kept_flat n c f k) e keeps = kept_flat n c x (keeps c k)

  -- A segment that comes from the base is restored to it, with no panic.
  pub restore-Segment :
      ⦃names : NameOps N⦄ (b v : Segment V S N) → SegmentKept b v → Segments.restore v b ≡ some b
  unfolding Segments.restore Heap.len
  restore-Segment ⦃names⦄ b v (same_static n o) =
      rw (names.same_name_refl n, (==_iff o o).1 refl) refl
  restore-Segment ⦃names⦄ b v (kept_mapping n c h p q k) =
      rw
        (
          names.same_name_refl n,
          (==_iff h.base_address c.base_address).1 p,
          (==_iff (State.len h.backing) (State.len c.backing)).1 k.tracks.same_len,
          restore-ChunkState c h k.valid k.tracks q,
        )
        refl
  restore-Segment ⦃names⦄ b v (kept_flat n c f k) =
      rw
        (
          names.same_name_refl n,
          (==_iff (State.len f) (State.len c)).1 k.tracks.same_len,
          restore-Tracks c f k.valid k.tracks,
        )
        refl

module _ {V S N M : Type 0} ⦃ir : AddressOps⦄ (im : IntervalMapOps M (Segment V S N)) where
  pub record Kept (base s : PagedState V M) : Type 0 where
    pub inner : Runs.Kept base.inner s.inner
    pub follows : All (Follows (im.iter base.segments)) (im.iter s.segments)
    -- Without the segments that were added these are the base's.
    pub order :
        filter_map (λ i v. lookup i (im.iter base.segments)) (im.iter s.segments)
        ≡ im.iter base.segments
    pub apart : Apart (im.iter s.segments)

  pub record IsValid (s : PagedState V M) : Type 0 where
    pub inner : Valid.IsValid s.inner
    pub segments : All (λ i v. ValidSegment v) (im.iter s.segments)
    pub apart : Apart (im.iter s.segments)

  locate-flat :
      (iv : IntervalOps S) (s : PagedState V M) (i : Interval) (v : Segment V S N) (a n : ℕ)
      (t : Target V S N)
      → locate iv im s i v a n ≡ ok t
      → t.flat ≡ flat_of s.inner v
  unfolding locate flat_of
  locate-flat iv s i (Segment.static x o) a n t e =
      sym (ap (λ (u : Target V S N). u.flat) (ok_inj {E = Error} e))
  locate-flat iv s i (Segment.static_mapping x f) a n t e =
      sym (ap (λ (u : Target V S N). u.flat) (ok_inj {E = Error} e))
  locate-flat iv s i (Segment.mapping x h) a n t e =
      let (tr, e₁, e₂) = bind-ok (map_err chunked (Heap.translate_checked iv h a n)) _ t e in
      sym (ap (λ (u : Target V S N). u.flat) (ok_inj {E = Error} e₂))

  flat_of-static :
      (inner : FlatState V) (v : Segment V S N) → is_static v ≡ true → flat_of inner v ≡ inner
  unfolding flat_of is_static
  flat_of-static inner (Segment.static x o) e = refl
  flat_of-static inner (Segment.mapping x h) e = cc
  flat_of-static inner (Segment.static_mapping x f) e = cc

  -- A write to the flat state of a target that keeps it close to what it was keeps the whole so.
  pub write_back-Kept :
      (iv : IntervalOps S) (base s : PagedState V M) (a n : ℕ) (t : Target V S N) (x : FlatState V)
      → Kept base s
      → resolve iv im s a n ≡ ok t
      → ((b : FlatState V) → Runs.Kept b t.flat → Runs.Kept b x)
      → Kept base (write_back im s t x)
  write_back-Kept iv base s a n t x k e keeps =
      let f = resolve-Found iv im s a n t e in
      let flat = locate-flat iv s t.interval t.segment a n t f.located in
      elim (Bool-cases (is_static t.segment)) [
        | inl st ↦
            let inner : t.flat ≡ s.inner = flat ∙ flat_of-static s.inner t.segment st in
            subst (Kept base)
              (sym (write_back-static iv im s t.interval t.segment t.flat x t.address st))
              (record {
                inner = keeps base.inner (subst (Runs.Kept base.inner) (sym inner) k.inner);
                follows = k.follows;
                order = k.order;
                apart = k.apart;
              })
        | inr st ↦
            let (b, kept, from) =
              All-holding (Follows (im.iter base.segments)) (im.iter s.segments) f.others a
                t.interval t.segment k.follows (sym (im.overlap_lem s.segments a) ∙ f.overlap) in
            let kept' =
              SegmentKept-renewed b t.segment s.inner x kept st
                (λ c h. keeps c (subst (Runs.Kept c) (sym flat) h)) in
            let same = im.iter-replace s.segments t.interval (renewed t.segment x) in
            subst (Kept base)
              (sym (write_back-own iv im s t.interval t.segment t.flat x t.address st))
              (record {
                inner = k.inner;
                follows = rw same (
                    All-put (Follows (im.iter base.segments)) (im.iter s.segments) t.interval
                      (renewed t.segment x) (b, kept', from) k.follows);
                order =
                    ap (filter_map (λ i v. lookup i (im.iter base.segments))) same
                    ∙ filter_map-put (λ i. lookup i (im.iter base.segments)) (im.iter s.segments)
                        t.interval (renewed t.segment x)
                    ∙ k.order;
                apart =
                    rw same
                      (put-Apart (im.iter s.segments) t.interval (renewed t.segment x) k.apart);
              })
      ]

  pub target-IsValid :
      (iv : IntervalOps S) (s : PagedState V M) (a n : ℕ) (t : Target V S N)
      → IsValid s
      → resolve iv im s a n ≡ ok t
      → Valid.IsValid t.flat
  target-IsValid iv s a n t v e =
      let f = resolve-Found iv im s a n t e in
      let valid =
        All-holding (λ i w. ValidSegment w) (im.iter s.segments) f.others a t.interval t.segment
          v.segments (sym (im.overlap_lem s.segments a) ∙ f.overlap) in
      rw (locate-flat iv s t.interval t.segment a n t f.located)
        (flat_of-IsValid s.inner t.segment v.inner valid)

  -- Two targets of one store have the same flat state.
  pub same_store-flat :
      (iv : IntervalOps S) (s : PagedState V M) (a n b m : ℕ) (t u : Target V S N)
      → resolve iv im s a n ≡ ok t
      → resolve iv im s b m ≡ ok u
      → same_store t u ≡ true
      → t.flat ≡ u.flat
  same_store-flat iv s a n b m t u e₁ e₂ h =
      let f = resolve-Found iv im s a n t e₁ in
      let g = resolve-Found iv im s b m u e₂ in
      let ft = locate-flat iv s t.interval t.segment a n t f.located in
      let fu = locate-flat iv s u.interval u.segment b m u g.located in
      elim (Bool-cases (is_static t.segment)) [
        | inl st ↦
            ft
            ∙ flat_of-static s.inner t.segment st
            ∙ sym (fu ∙ flat_of-static s.inner u.segment (rw st at h))
        | inr st ↦
            let one : same t.interval u.interval ≡ true =
              and_right (not (is_static u.segment)) (same t.interval u.interval) (rw st at h) in
            ft ∙ ap (flat_of s.inner) (same_entry iv im s a n b m t u f g one) ∙ sym fu
      ]
