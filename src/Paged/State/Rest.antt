-- ===== src/Paged/State/Rest.antt =====
-- `view_values_from`, and the errors that the closures of the paged state report.
use fuguex_core.Prelude.{
  Option-cases, ℕ, ◌+◌, ◌-◌, ◌≤◌, ◌<◌, ◌≡◌, refl, ◌∙◌, sym, false, List, [], ◌∷◌, Result, ok, err,
  map_err, inl, inr, Bool-cases, ok_inj, err_ok, arith, slice,
}
use fuguex_core.Address.{AddressOps, u64_limit}
use fuguex_core.Flat.Access.{Access}
use fuguex_core.Flat.Permissions.Regions.{AllAllowed}
use fuguex_core.Flat.State
use fuguex_core.Flat.State.{FlatState}
use fuguex_core.Flat.State.Valid
use fuguex_core.Flat.State.Valid.{Checked, beyond, refused, allowed, view_values-Checked}
use fuguex_core.Flat.State.Reads.{view_values-ok}
use fuguex_core.Chunked.Heap
use fuguex_core.Chunked.Heap.{Interval, IntervalOps, ChunkState}
use fuguex_core.Paged.IntervalMap.{IntervalMapOps}
use fuguex_core.Paged.IntervalMap.Entries.{All-holding, holding-holds}
use fuguex_core.Paged.Segments.{Error, Segment, backing, backing_error, chunked}
use fuguex_core.Paged.State.{
  PagedState, Target, wraps, view_values, view_values_from, with_flat_from, from_segment, resolve,
  with_flat,
}
use fuguex_core.Paged.State.Resolve.{bind-ok}
use fuguex_core.Paged.State.Follows.{IsValid, ValidSegment, target-IsValid}
use fuguex_core.Paged.State.Keeps.{map_err-ok}
use fuguex_core.Paged.State.Reads.{readable}

module _ {V S N M : Type 0} ⦃ir : AddressOps⦄ (iv : IntervalOps S)
    (im : IntervalMapOps M (Segment V S N)) where
  translated :
      (heap : ChunkState V S) (a n offset : ℕ)
      → Heap.translate_checked iv heap a n ≡ ok offset
      → offset ≡ ir.sub a heap.base_address
  unfolding Heap.translate_checked
  translated heap a n offset e = elim (Option-cases (iv.iter heap.regions a (ir.add a n))) [
    | inl empty_range ↦ let e' = rw (empty_range, Heap.translate_checked) at e in cc
    | inr ([], none_there) ↦ absurd (err_ok (rw (none_there, Heap.translate_checked) at e))
    | inr (r ∷ [], one) ↦ sym (ok_inj {E = Heap.Error} (rw (one, Heap.translate_checked) at e))
    | inr (r ∷ other ∷ rest, more) ↦ absurd (err_ok (rw (more, Heap.translate_checked) at e))
  ]

  len_lem : (heap : ChunkState V S) → Heap.len heap ≡ State.len heap.backing
  unfolding Heap.len
  len_lem heap = refl

  -- What a read shows of the flat state that its address leads to.
  pub data Shown (t : Target V S N) (n : ℕ) (out : Result Error (List V)) : Type 0 where
    beyond_values :
        ¬ (t.address + n ≤ State.len t.flat)
        → out ≡ err (backing (State.oob_read (ir.add t.address t.address) n))
        → Shown t n out
    not_allowed :
        t.address + n ≤ State.len t.flat
        → ¬ AllAllowed t.flat.permissions Access.read t.address n
        → out
          ≡ err (
              backing
                (State.access_violation t.flat.space (ir.add t.address t.address) n Access.read))
        → Shown t n out
    values :
        t.address + n ≤ State.len t.flat
        → AllAllowed t.flat.permissions Access.read t.address n
        → out ≡ ok (slice t.flat.backing t.address n)
        → Shown t n out

  -- On a valid paged state, `view_values` at an address that leads into a flat state shows the
  -- values there if the range ends within them and may be read. If not, its error names twice the
  -- offset in the flat state, not the address of the access.
  pub view_values-Shown :
      (s : PagedState V M) (a n : ℕ) (t : Target V S N)
      → IsValid im s
      → resolve iv im s a n ≡ ok t
      → Shown t n (view_values iv im s a n)
  unfolding view_values with_flat backing_error
  view_values-Shown s a n t v r =
      by_end _ (view_values-Checked t.flat t.address n (target-IsValid im iv s a n t v r)) refl
    where
      by_end :
          (out : Result State.Error (List V))
          → Checked t.flat t.address n Access.read
              (State.oob_read t.address n)
              (λ o. o ≡ ok (slice t.flat.backing t.address n))
              out
          → State.view_values t.flat t.address n ≡ out
          → Shown t n (view_values iv im s a n)
      by_end out (beyond h e) same = beyond_values h (rw (r, same, e) refl)
      by_end out (refused h k e) same = not_allowed h k (rw (r, same, e) refl)
      by_end out (allowed h k e) same = values h k (rw (r, same, e) refl)

  -- On a valid paged state, at an address of a static mapping that has as many values as its
  -- interval addresses, all readable from there on, `view_values_from` shows the rest of them.
  pub view_values_from-static_mapping :
      (s : PagedState V M) (a : ℕ) (i : Interval) (name : N) (b : FlatState V)
      (others : List (Interval × Segment V S N))
      → IsValid im s
      → wraps a ≡ false
      → im.overlap s.segments a ≡ (i, Segment.static_mapping name b) ∷ others
      → i.end < u64_limit
      → i.start + State.len b ≡ i.end
      → AllAllowed b.permissions Access.read (a - i.start) (i.end - a)
      → view_values_from iv im s a ≡ ok (slice b.backing (a - i.start) (i.end - a))
  unfolding view_values_from with_flat_from from_segment
  view_values_from-static_mapping s a i name b others v w o l full right =
      let held = im.overlap_lem s.segments a in
      let inside =
        holding-holds (im.iter s.segments) others a i (Segment.static_mapping name b)
          (sym held ∙ o) in
      let valid : Valid.IsValid b =
        All-holding (λ j x. ValidSegment x) (im.iter s.segments) others a i
          (Segment.static_mapping name b) v.segments (sym held ∙ o) in
      let start : i.start ≤ a = ground arith in
      let end : a < i.end = ground arith in
      let offset = ir.sub_lem a i.start start (omega arith) in
      let width = ir.sub_lem i.end i.start (omega arith) l in
      let rest : i.end - i.start - (a - i.start) ≡ i.end - a = omega arith in
      rw
        (
          w,
          o,
          offset,
          width,
          rest,
          view_values-ok b (a - i.start) (i.end - a) valid (omega arith) right,
        )
        refl

  -- On a valid paged state, at an address behind the first one of a heap, `view_values_from` never
  -- shows a value.
  pub view_values_from-mapping :
      (s : PagedState V M) (a : ℕ) (i : Interval) (name : N) (heap : ChunkState V S)
      (others : List (Interval × Segment V S N)) (l : List V)
      → IsValid im s
      → im.overlap s.segments a ≡ (i, Segment.mapping name heap) ∷ others
      → heap.base_address < a
      → a < u64_limit
      → ¬ (view_values_from iv im s a ≡ ok l)
  unfolding view_values_from with_flat_from from_segment
  view_values_from-mapping s a i name heap others l v o h in_u64 e = elim (Bool-cases (wraps a)) [
    | inl w ↦ err_ok (rw w at e)
    | inr w ↦
        let n = Heap.len heap in
        let (k, e₁, e₂) =
          bind-ok (map_err chunked (Heap.translate_checked iv heap a n)) _ l (rw (w, o) at e) in
        let at =
          translated heap a n k (map_err-ok chunked (Heap.translate_checked iv heap a n) k e₁) in
        let offset : k ≡ a - heap.base_address =
          at ∙ ir.sub_lem a heap.base_address (omega arith) in_u64 in
        let valid : Valid.IsValid heap.backing =
          All-holding (λ j x. ValidSegment x) (im.iter s.segments) others a i
            (Segment.mapping name heap) v.segments (sym (im.overlap_lem s.segments a) ∙ o) in
        let (inside, right) =
          readable heap.backing k n l valid
            (map_err-ok (backing_error k) (State.view_values heap.backing k n) l e₂) in
        omega (arith, inside, offset, len_lem heap)
  ]
