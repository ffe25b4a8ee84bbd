-- ===== src/Chunked/Heap/Moves.antt =====
-- `ChunkState::reallocate` where the chunk list moves the chunk.
use fuguex_core.Prelude.{
  ℕ, ◌+◌, ◌%◌, ◌≤◌, ◌<◌, ◌≡◌, ◌≢◌, ◌⊎◌, refl, ap, ◌∙◌, true, List, ◌∷◌, Option, some, ==_iff, ==_no,
  and_then, panic, arith, inl, inr, Option-cases,
}
use fuguex_core.Address.{AddressOps, u64_limit}
use fuguex_core.Flat.Access.{Access}
use fuguex_core.Flat.Permissions
use fuguex_core.Flat.Permissions.{Permissions}
use fuguex_core.Flat.Permissions.Bytes.{rights}
use fuguex_core.Flat.Permissions.Regions.{Allowed, AllAllowed, all_marked_lem}
use fuguex_core.Flat.State
use fuguex_core.Flat.State.{FlatState}
use fuguex_core.Flat.State.Moves.{CanMove}
use fuguex_core.Flat.State.Copy.{copy_values-panics}
use fuguex_core.Chunked.ChunkList
use fuguex_core.Chunked.ChunkList.{ChunkList}
use fuguex_core.Chunked.ChunkList.Tiled.{taken_size}
use fuguex_core.Chunked.Heap.{
  Interval, IntervalOps, ChunkState, with_permissions, open_range, copy_moved, move_region,
  reallocate,
}
use fuguex_core.Chunked.Heap.Allocation.{IsValid, Opened, open_range-Opened, permit-IsValid}
use fuguex_core.Chunked.Heap.Deallocation.{taken_size-inside}

-- two ranges apart, of which neither ends with the values
apart-cannot :
    (len offset n offset' size : ℕ)
    → offset + n < len
    → offset' + size < len
    → n ≤ size
    → (offset + n ≤ offset') ⊎ (offset' + size < offset)
    → ¬ CanMove len offset offset' n
apart-cannot len offset n offset' size inside inside' grows apart can = ground arith

away :
    (offset n offset' size c : ℕ)
    → (offset + n ≤ offset') ⊎ (offset' + size < offset)
    → offset ≤ c
    → c < offset + n
    → ¬ ((offset' ≤ c) × (c ≤ offset' + size))
away offset n offset' size c apart l u both = ground arith

module _ ⦃ir : AddressOps⦄ where
  both-write : (p : Permissions) (b : ℕ) → Allowed p Access.read_write b → Allowed p Access.write b
  both-write p b a = elim (Option-cases (rights p b)) [
    | inl e ↦ ground (arith, e)
    | inr (r, e) ↦ ground (arith, e)
  ]

  readable-all :
      (p : Permissions) (limit start size : ℕ)
      → Permissions.Regions.Covers p limit
      → start + size ≤ limit
      → AllAllowed p Access.read start size
      → Permissions.all_readable p start size ≡ some true
  unfolding Permissions.all_readable
  readable-all p limit start size c h all =
      let (m, e, iff) = all_marked_lem p limit start size Access.read c h in rw (← iff.1 all) e

module _ {V S : Type 0} ⦃ir : AddressOps⦄ (iv : IntervalOps S) where
  -- A chunk and its new place that do not meet are copied by a call that panics.
  copy_moved-panics :
      (s : ChunkState V S) (offset n offset' size : ℕ) {out : Option Permissions}
      → State.Valid.IsValid s.backing
      → offset + n < State.len s.backing
      → offset' + size < State.len s.backing
      → n ≤ size
      → offset ≢ offset'
      → (offset + n ≤ offset') ⊎ (offset' + size < offset)
      → AllAllowed s.backing.permissions Access.read offset n
      → (o : Opened s.backing.permissions (State.len s.backing) offset' size out)
      → (copy_moved iv (with_permissions s o.after) offset offset' n).1 ≡ panic
  unfolding copy_moved
  copy_moved-panics s offset n offset' size v inside inside' grows ne apart readable o =
      let b : FlatState V = record s.backing { permissions = o.after } in
      let can_read : AllAllowed o.after Access.read offset n = λ c l u.
        ap (λ r. and_then r (λ q. some (q.readable)))
          (o.outside c (away offset n offset' size c apart l u))
        ∙ readable c l u in
      let can_write : AllAllowed o.after Access.write offset' n =
        λ c l u. both-write o.after c (o.inside c l (omega arith)) in
      rw
        (
          ==_no offset offset' ne,
          copy_moved,
          copy_values-panics b offset offset' n (permit-IsValid s.backing o.after v o.covers)
              (omega arith) (omega arith) can_read can_write ne
              (apart-cannot (State.len s.backing) offset n offset' size inside inside' grows apart),
        )
        refl

  move_region-panics :
      (s : ChunkState V S) (interval : Interval) (offset n offset' size : ℕ) (p : Permissions)
      → open_range s.backing.permissions offset' size ≡ some p
      → (copy_moved iv (with_permissions s p) offset offset' n).1 ≡ panic
      → (move_region iv s interval offset n offset' size).1 ≡ panic
  unfolding move_region
  move_region-panics s interval offset n offset' size p e m = rw (e, move_region, m) refl

  -- On a valid heap, where the first region at the address begins there, has `n` values that may
  -- all be read, and a chunk of one value more, `reallocate` to at least `n` values panics
  -- whenever the chunk list moves the chunk to another place in the heap that its old values do
  -- not meet.
  pub reallocate-panics :
      (s : ChunkState V S) (offset n offset' size old_size : ℕ) (others : List Interval)
      (chunks : ChunkList)
      → IsValid s
      → iv.overlap s.regions (s.base_address + offset)
        ≡ record { start = s.base_address + offset; end = s.base_address + offset + n } ∷ others
      → taken_size s.chunks offset ≡ some (n + 1)
      → AllAllowed s.backing.permissions Access.read offset n
      → n ≤ size
      → ChunkList.reallocate s.chunks offset (size + 1) ≡ some (chunks, some (offset', old_size))
      → offset' + (size + 1) ≤ State.len s.backing
      → offset ≢ offset'
      → (offset + n ≤ offset') ⊎ (offset' + size < offset)
      → (reallocate iv s (s.base_address + offset) size).1 ≡ panic
  unfolding reallocate move_region
  reallocate-panics s offset n offset' size old_size others chunks v o t readable grows e fits ne
        apart =
      let inside = taken_size-inside s.chunks 0 offset (n + 1) v.heap.tiled t in
      let at : ir.sub (s.base_address + offset) s.base_address ≡ offset =
        ir.sub_lem (s.base_address + offset) s.base_address (omega arith)
          (omega (arith, inside, v.heap.covers, v.in_u64))
        ∙ omega arith in
      let width : ir.sub (s.base_address + offset + n) (s.base_address + offset) ≡ n =
        ir.sub_lem (s.base_address + offset + n) (s.base_address + offset) (omega arith)
          (omega (arith, inside, v.heap.covers, v.in_u64))
        ∙ omega arith in
      let wrapped : (size + 1) % u64_limit ≡ size + 1 = omega (arith, fits, v.in_u64) in
      let r =
        readable-all s.backing.permissions (State.len s.backing) offset n v.values.covers
          (omega (arith, inside, v.heap.covers)) readable in
      let q =
        open_range-Opened s.backing.permissions (State.len s.backing) offset' size v.values.covers
          (omega arith) in
      let moved =
        copy_moved-panics (record s { chunks = chunks }) offset n offset' size v.values
          (omega (arith, inside, v.heap.covers)) (omega arith) grows ne apart readable q in
      rw
        (
          o,
          (==_iff (s.base_address + offset) (s.base_address + offset)).1 refl,
          reallocate,
          at,
          width,
          r,
          wrapped,
          at,
          e,
          at,
          width,
        )
        (move_region-panics (record s { chunks = chunks }) _ offset n offset' size q.after q.returns
          moved)
