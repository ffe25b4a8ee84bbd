-- ===== src/Paged/State/Added.antt =====
-- What `mapping` and `static_mapping` add.
use fuguex_core.Prelude.{
  ℕ, ◌+◌, ◌<◌, ◌≡◌, refl, ap, ◌∙◌, sym, subst, true, false, List, [], ◌∷◌, ◌++◌, Result, ok, err,
  inl, inr, Bool-cases, arith, if◌then◌else◌,
}
use fuguex_core.Address.{AddressOps, u64_limit}
use fuguex_core.Chunked.Heap
use fuguex_core.Chunked.Heap.{Interval, IntervalOps}
use fuguex_core.Flat.State
use fuguex_core.Paged.IntervalMap.{IntervalMapOps, holds, holding, any_meets}
use fuguex_core.Paged.IntervalMap.Entries.{holding_insert}
use fuguex_core.Paged.Segments.{Error, Segment, overlapped_mapping}
use fuguex_core.Paged.State.{
  PagedState, wraps, add_segment, mapping, static_mapping, segment_bounds,
}

module _ {V S N M : Type 0} ⦃ir : AddressOps⦄ (im : IntervalMapOps M (Segment V S N)) where
  -- The two ends of an operation that adds a segment to a range.
  pub data Added (s : PagedState V M) (range : Interval) (size : ℕ) (v : Segment V S N)
      (out : Result Error (PagedState V M)) : Type 0 where
    overlaps :
        any_meets range (im.iter s.segments) ≡ true
        → out ≡ err (overlapped_mapping range.start size)
        → Added s range size v out
    added :
        (s' : PagedState V M)
        → any_meets range (im.iter s.segments) ≡ false
        → out ≡ ok s'
        → s'.inner ≡ s.inner
        → ((a : ℕ)
            → segment_bounds im s' a
              ≡ (if holds a range then ok (range, v) else segment_bounds im s a))
        → Added s range size v out

  within :
      (a base size : ℕ) (r : Interval)
      → r.end ≡ base + size
      → base + size < u64_limit
      → holds a r ≡ true
      → wraps a ≡ false
  within a base size r e l h = ground (arith, ir.add_lem a 1)

  -- an address of a range that meets no entry is held by none
  bounds-added :
      (s s' : PagedState V M) (r : Interval) (v : Segment V S N)
      (before behind : List (Interval × Segment V S N)) (a : ℕ)
      → ((b : ℕ) → holds b r ≡ true → wraps b ≡ false)
      → any_meets r (im.iter s.segments) ≡ false
      → im.iter s.segments ≡ before ++ behind
      → im.iter s'.segments ≡ before ++ ((r, v) ∷ behind)
      → segment_bounds im s' a ≡ (if holds a r then ok (r, v) else segment_bounds im s a)
  unfolding segment_bounds
  bounds-added s s' r v before behind a inside m split inserted =
      let now : im.overlap s'.segments a
          ≡ (if holds a r then (r, v) ∷ [] else im.overlap s.segments a) =
        im.overlap_lem s'.segments a
        ∙ ap (holding a) inserted
        ∙ holding_insert before behind r v a (subst (λ es. any_meets r es ≡ false) split m)
        ∙ ap (λ es. if holds a r then (r, v) ∷ [] else holding a es) (sym split)
        ∙ ap (λ es. if holds a r then (r, v) ∷ [] else es) (sym (im.overlap_lem s.segments a)) in
      elim (Bool-cases (holds a r)) [
        | inl h ↦ rw (inside a h, now, h) refl
        | inr h ↦ rw (now, h) refl
      ]

  add_segment-Added :
      (s : PagedState V M) (base size : ℕ) (v : Segment V S N)
      → 0 < size
      → base + size < u64_limit
      → Added s (record { start = base; end = base + size }) size v (add_segment im s base size v)
  unfolding add_segment
  add_segment-Added s base size v h l =
      let r : Interval = record { start = base; end = base + size } in
      let es = im.iter s.segments in
      let end = ir.add_lem base size l in
      let known = im.has_overlap_lem s.segments r (omega arith) in
      elim (Bool-cases (any_meets r es)) [
        | inl m ↦ overlaps m (rw (end, known, m) refl)
        | inr m ↦
            let (before, behind, split, inserted) = im.iter-insert s.segments r v (omega arith) m in
            let s' : PagedState V M = record s { segments = im.insert s.segments r v } in
            added s' m (rw (end, known, m) refl) refl (λ a.
              bounds-added s s' r v before behind a (λ b. within b base size r refl l) m split
                inserted)
      ]

  -- For a range that is not empty and ends below the last address, `mapping` returns an error
  -- exactly if a segment meets the range. Otherwise each address of the range is then in the new
  -- segment, a heap of the given size at its start, and every other address is where it was.
  pub mapping-Added :
      (iv : IntervalOps S) (default : V) (s : PagedState V M) (name : N) (base size : ℕ)
      → 0 < size
      → base + size < u64_limit
      → Added s
          (record { start = base; end = base + size })
          size
          (Segment.mapping name (Heap.new iv default s.inner.space base size))
          (mapping im iv default s name base size)
  unfolding mapping
  mapping-Added iv default s name base size h l = add_segment-Added s base size _ h l

  -- The same for `static_mapping`, whose segment is a flat state of the given size.
  pub static_mapping-Added :
      (default : V) (s : PagedState V M) (name : N) (base size : ℕ)
      → 0 < size
      → base + size < u64_limit
      → Added s
          (record { start = base; end = base + size })
          size
          (Segment.static_mapping name (State.new default s.inner.space size))
          (static_mapping im default s name base size)
  unfolding static_mapping
  static_mapping-Added default s name base size h l = add_segment-Added s base size _ h l
