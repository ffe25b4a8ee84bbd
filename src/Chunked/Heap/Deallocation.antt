-- ===== src/Chunked/Heap/Deallocation.antt =====
-- `ChunkState::deallocate` and `restore` on a valid heap.
use fuguex_core.Prelude.{
  ℕ, ◌+◌, ◌≤◌, ◌<◌, ◌≡◌, refl, ◌∙◌, List, [], ◌∷◌, none, some, ◌==◌, ==_iff, if◌then◌else◌, ok,
  arith, none-some,
}
use fuguex_core.Address.{AddressOps}
use fuguex_core.Flat.Access.{Access}
use fuguex_core.Flat.Permissions.Bytes.{rights}
use fuguex_core.Flat.Permissions.Regions.{clear_region-Changed, Allowed}
use fuguex_core.Flat.State
use fuguex_core.Flat.State.{FlatState}
use fuguex_core.Flat.State.Valid
use fuguex_core.Flat.State.Restore.{Tracks, restore-Tracks}
use fuguex_core.Chunked.ChunkList.{ChunkList, size}
use fuguex_core.Chunked.ChunkList.Tiled.{Tiled, total, taken_size}
use fuguex_core.Chunked.ChunkList.Release.{deallocate_removes}
use fuguex_core.Chunked.Heap.{Interval, IntervalOps, ChunkState, deallocate, restore}
use fuguex_core.Chunked.Heap.Allocation.{IsValid, rights-some, permit-IsValid}

-- a taken chunk ends in the heap
pub taken_size-inside :
    (cs : ChunkList) (a o n : ℕ) → Tiled cs a → taken_size cs o ≡ some n → o + n ≤ a + total cs
taken_size-inside [] a o n t e = absurd (none-some e)
taken_size-inside (c ∷ cs) a o n t e =
    ground (arith, t.0, taken_size-inside cs (a + size c) o n t.1)

module _ {V S : Type 0} ⦃ir : AddressOps⦄ (iv : IntervalOps S) where
  -- What `deallocate` leaves of a heap with `n` values in use at `offset`.
  pub record Freed (s : ChunkState V S) (offset n : ℕ) (s' : ChunkState V S) : Type 0 where
    pub chunks :
        (o : ℕ) → taken_size s'.chunks o ≡ (if offset == o then none else taken_size s.chunks o)
    pub no_writes :
        (b : ℕ) → offset ≤ b → b < offset + n → ¬ Allowed s'.backing.permissions Access.write b
    pub outside :
        (b : ℕ)
        → ¬ ((offset ≤ b) × (b < offset + n))
        → rights s'.backing.permissions b ≡ rights s.backing.permissions b
    pub same_values : s'.backing.backing ≡ s.backing.backing
    pub regions :
        s'.regions
        ≡ iv.remove s.regions
            (record { start = s.base_address + offset; end = s.base_address + offset + n })
    pub valid : IsValid s'

  -- On a valid heap, where the first region at the address begins there and has `n` values, and
  -- the chunk at its offset has one value more, `deallocate` succeeds: it removes the region and
  -- that chunk alone, takes the right to write from the values of the region alone, changes no
  -- value, and keeps the heap valid.
  pub deallocate-Freed :
      (s : ChunkState V S) (offset n : ℕ) (others : List Interval)
      → IsValid s
      → iv.overlap s.regions (s.base_address + offset)
        ≡ record { start = s.base_address + offset; end = s.base_address + offset + n } ∷ others
      → taken_size s.chunks offset ≡ some (n + 1)
      → (s' : ChunkState V S) × (deallocate iv s (s.base_address + offset) ≡ (s', ok tt))
        × Freed s offset n s'
  unfolding deallocate
  deallocate-Freed s offset n others v o t =
      let inside = taken_size-inside s.chunks 0 offset (n + 1) v.heap.tiled t in
      let (chunks, e, heap, map) =
        deallocate_removes s.chunks (State.len s.backing) offset v.heap in
      let r =
        clear_region-Changed s.backing.permissions (State.len s.backing) offset n Access.write
          v.values.covers (omega (arith, inside, v.heap.covers)) in
      let at : ir.sub (s.base_address + offset) s.base_address ≡ offset =
        ir.sub_lem (s.base_address + offset) s.base_address (omega arith)
          (omega (arith, inside, v.heap.covers, v.in_u64))
        ∙ omega arith in
      let width : ir.sub (s.base_address + offset + n) (s.base_address + offset) ≡ n =
        ir.sub_lem (s.base_address + offset + n) (s.base_address + offset) (omega arith)
          (omega (arith, inside, v.heap.covers, v.in_u64))
        ∙ omega arith in
      (
        record s {
          chunks = chunks;
          backing = record s.backing { permissions = r.after };
          regions =
              iv.remove s.regions
                (record { start = s.base_address + offset; end = s.base_address + offset + n });
        },
        rw
            (
              o,
              (==_iff (s.base_address + offset) (s.base_address + offset)).1 refl,
              at,
              deallocate,
              e,
              t,
              width,
              at,
              r.returns,
            )
            refl,
        record {
          chunks = map;
          no_writes = λ b l u a.
              let (x, y) =
                rights-some s.backing.permissions (State.len s.backing) b v.values.covers
                  (omega (arith, inside, v.heap.covers)) in
              ground (arith, r.changed b);
          outside = λ b out. ground (arith, r.changed b);
          same_values = refl;
          regions = refl;
          valid = record {
            heap = heap;
            values = permit-IsValid s.backing r.after v.values r.covers;
            in_u64 = v.in_u64;
          };
        },
      )

module _ {V S : Type 0} ⦃ir : AddressOps⦄ where
  -- A heap in the space of `base` whose flat state is valid and differs from that of `base` only
  -- in values of blocks that it records and in permission bits is restored to `base`, with its
  -- chunks and regions.
  pub restore-ChunkState :
      (base s : ChunkState V S)
      → Valid.IsValid s.backing
      → Tracks base.backing s.backing
      → s.space ≡ base.space
      → restore s base ≡ some base
  unfolding restore
  restore-ChunkState base s v t e = rw (restore-Tracks base.backing s.backing v t, e) refl
