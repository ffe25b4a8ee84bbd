-- ===== src/Chunked/Heap/Allocation.antt =====
-- `ChunkState::allocate_with`: what it returns on a valid state, and what it leaves.
use fuguex_core.Prelude.{
  ℕ, ◌+◌, ◌%◌, ◌≤◌, ◌<◌, ◌≡◌, refl, ap, sym, subst, ◌∙◌, true, List, Option, none, some, ◌==◌,
  if◌then◌else◌, get_elem?-some, length, slice, splice, Result, ok, err, panic, arith, Option-cases,
  inl, inr, length-splice, length-replicate,
}
use native.Mathlib.Decide.{dec_lt}
use fuguex_core.Address.{AddressOps, u64_limit}
use fuguex_core.Flat.Access.{Access}
use fuguex_core.Flat.Permissions.{Permissions, word_index}
use fuguex_core.Flat.Permissions.Bytes.{Rights, rights, rights_in, rights-clear_byte}
use fuguex_core.Flat.Permissions.Regions.{
  Covers, set_region-Changed, clear_byte-some, Allowed, AllAllowed,
}
use fuguex_core.Flat.State
use fuguex_core.Flat.State.{FlatState}
use fuguex_core.Flat.State.Valid
use fuguex_core.Flat.State.Valid.{
  Written, written, Wrote, Checked, beyond, refused, allowed, view_values_mut-Checked, max_len,
}
use fuguex_core.Flat.State.Start.{read_only-IsValid}
use fuguex_core.Chunked.ChunkList
use fuguex_core.Chunked.ChunkList.{ChunkList}
use fuguex_core.Chunked.ChunkList.Tiled.{IsHeap, taken_size, allocate_inserts, new-IsHeap}
use fuguex_core.Chunked.Heap.{
  Error, not_enough_free_space, backing, IntervalOps, ChunkState, with_permissions, on_backing, new,
  open_range, allocate_with,
}

module _ ⦃ir : AddressOps⦄ where
  pub rights-some :
      (p : Permissions) (limit b : ℕ)
      → Covers p limit
      → b ≤ limit
      → (r : Rights) × (rights p b ≡ some r)
  rights-some p limit b c h =
      let (w, e) = get_elem?-some p.bitsmap (word_index b) (omega (arith, c.in_words)) in
      (rights_in w (b % 32), rw e refl)

  -- A range with all rights, and behind it a value that may not be written; other rights stay.
  pub record Opened (p : Permissions) (limit offset size : ℕ) (out : Option Permissions)
      : Type 0 where
    pub after : Permissions
    pub returns : out ≡ some after
    pub covers : Covers after limit
    pub same_space : after.space ≡ p.space
    pub inside : AllAllowed after Access.read_write offset size
    pub red_zone : ¬ Allowed after Access.write (offset + size)
    pub outside : (b : ℕ) → ¬ ((offset ≤ b) × (b ≤ offset + size)) → rights after b ≡ rights p b

  pub open_range-Opened :
      (p : Permissions) (limit offset size : ℕ)
      → Covers p limit
      → offset + size ≤ limit
      → Opened p limit offset size (open_range p offset size)
  unfolding open_range
  open_range-Opened p limit offset size c h =
      let r = set_region-Changed p limit offset size Access.read_write c h in
      let at = ir.add_lem offset size (omega (arith, c.in_u64)) in
      let (q, e, covers, space, words) =
        clear_byte-some r.after (offset + size) limit Access.write r.covers h in
      let byte = λ (b : ℕ). rights-clear_byte r.after q (offset + size) b Access.write e in
      record {
        after = q;
        returns = rw (r.returns, at, e) refl;
        covers = covers;
        same_space = space ∙ r.same_space;
        inside = λ b l u.
            let (x, y) = rights-some p limit b c (omega arith) in
            ground (arith, byte b, r.changed b);
        red_zone = λ a.
            let (x, y) = rights-some r.after limit (offset + size) r.covers h in
            ground (arith, byte (offset + size));
        outside = λ b o. ground (arith, byte b, r.changed b);
      }

module _ {V S : Type 0} ⦃ir : AddressOps⦄ where
  -- The chunks cover the values, and the addresses of the heap do not wrap.
  pub record IsValid (s : ChunkState V S) : Type 0 where
    pub heap : IsHeap s.chunks 0 (State.len s.backing)
    pub values : Valid.IsValid s.backing
    pub in_u64 : s.base_address + State.len s.backing < u64_limit

  pub new-IsValid :
      (iv : IntervalOps S) (default : V) (space base size : ℕ)
      → size ≤ max_len
      → size < ir.space_limit space
      → base + size < u64_limit
      → IsValid (new iv default space base size)
  unfolding new State.read_only
  new-IsValid iv default space base size h k l =
      let same = length-replicate size default in
      record {
        heap = rw same (new-IsHeap size);
        values = read_only-IsValid default space size h k;
        in_u64 = rw same l;
      }

module _ {V : Type 0} ⦃ir : AddressOps⦄ where
  view_values_mut-Written :
      (s : FlatState V) (start size : ℕ) (write : List V → List V)
      → Valid.IsValid s
      → start + size ≤ State.len s
      → AllAllowed s.permissions Access.read_write start size
      → Written s start size
          (splice s.backing start (write (slice s.backing start size)))
          (State.view_values_mut s start size write)
  view_values_mut-Written s start size write v h k =
      elim (view_values_mut-Checked s start size write v) [
        | beyond out e ↦ absurd (out h)
        | refused i out e ↦ absurd (out k)
        | allowed i j w ↦ w
      ]

  pub permit-IsValid :
      (s : FlatState V) (p : Permissions)
      → Valid.IsValid s
      → Covers p (State.len s)
      → Valid.IsValid (record s { permissions = p })
  permit-IsValid s p v c = record {
    covers = c;
    agrees = v.agrees;
    words = v.words;
    blocks = v.blocks;
    vec = v.vec;
  }

module _ {V S : Type 0} ⦃ir : AddressOps⦄ (iv : IntervalOps S) where
  -- What a successful allocation of `size` values at `offset` leaves.
  pub record Placed (s : ChunkState V S) (offset size : ℕ) (f : List V → List V)
      (s' : ChunkState V S) : Type 0 where
    pub fits : offset + size < State.len s.backing
    pub was_free : taken_size s.chunks offset ≡ none
    pub chunks :
        (o : ℕ)
        → taken_size s'.chunks o ≡ (if offset == o then some (size + 1) else taken_size s.chunks o)
    pub region :
        iv.has s'.regions
          (record { start = s.base_address + offset; end = s.base_address + offset + size })
        ≡ true
    pub inside : AllAllowed s'.backing.permissions Access.read_write offset size
    pub red_zone : ¬ Allowed s'.backing.permissions Access.write (offset + size)
    pub values :
        s'.backing.backing
        ≡ splice s.backing.backing offset (f (slice s.backing.backing offset size))
    pub valid : IsValid s'

  pub data Allocation (s : ChunkState V S) (size : ℕ) (f : ℕ → List V → List V)
      (out : ChunkState V S × Result Error ℕ) : Type 0 where
    full :
        ChunkList.allocate s.chunks (size + 1) ≡ none
        → out ≡ (s, err (not_enough_free_space size))
        → Allocation s size f out
    empty :
        (chunks : ChunkList) (offset : ℕ)
        → size ≡ 0
        → ChunkList.allocate s.chunks (size + 1) ≡ some (chunks, offset)
        → out.1 ≡ panic
        → Allocation s size f out
    placed :
        (s' : ChunkState V S) (offset : ℕ)
        → 0 < size
        → out ≡ (s', ok (s.base_address + offset))
        → Placed s offset size (f (s.base_address + offset)) s'
        → Allocation s size f out

  -- A chunk was found for no values: the interval set refuses the empty region.
  allocate_with-empty :
      (s : ChunkState V S) (size : ℕ) (f : ℕ → List V → List V) (chunks : ChunkList) (offset : ℕ)
      → IsValid s
      → size + 1 < u64_limit
      → size ≤ 0
      → ChunkList.allocate s.chunks (size + 1) ≡ some (chunks, offset)
      → (allocate_with iv s size f).1 ≡ panic
  unfolding allocate_with
  allocate_with-empty s size f chunks offset v small none_asked e =
      let wrapped : (size + 1) % u64_limit ≡ size + 1 = omega arith in
      let (heap, fits, was_free, map) =
        allocate_inserts s.chunks chunks (State.len s.backing) (size + 1) offset v.heap
          (omega arith) e in
      let o =
        open_range-Opened s.backing.permissions (State.len s.backing) offset size v.values.covers
          (omega (arith, fits)) in
      let base = ir.add_lem s.base_address offset (omega (arith, fits, v.in_u64)) in
      let top = ir.add_lem (s.base_address + offset) size (omega (arith, fits, v.in_u64)) in
      let start = s.base_address + offset in
      let refused =
        iv.insert_empty s.regions (record { start = start; end = start + size }) (omega arith) in
      rw (wrapped, e, allocate_with, o.returns, base, top, refused) refl

  -- How `allocate_with` goes on where a chunk is found, opened, and put into the intervals.
  allocate_with-inserted :
      (s : ChunkState V S) (size : ℕ) (f : ℕ → List V → List V) (chunks : ChunkList) (offset : ℕ)
      (p : Permissions) (regions : S)
      → size + 1 < u64_limit
      → ChunkList.allocate s.chunks (size + 1) ≡ some (chunks, offset)
      → open_range s.backing.permissions offset size ≡ some p
      → iv.insert s.regions (record {
        start = ir.add s.base_address offset;
        end = ir.add (ir.add s.base_address offset) size;
      })
        ≡ some regions
      → allocate_with iv s size f
        ≡ on_backing
            (record (with_permissions (record s { chunks = chunks }) p) { regions = regions })
            backing
            (ir.add s.base_address offset)
            (State.view_values_mut
              (record s.backing { permissions = p })
              offset
              size
              (f (ir.add s.base_address offset)))
  unfolding allocate_with
  allocate_with-inserted s size f chunks offset p regions small e opened inserted =
      let wrapped : (size + 1) % u64_limit ≡ size + 1 = omega arith in
      rw (wrapped, e, allocate_with, opened, inserted) refl

  allocate_with-placed :
      (s : ChunkState V S) (size : ℕ) (f : ℕ → List V → List V) (chunks : ChunkList) (offset : ℕ)
      → IsValid s
      → size + 1 < u64_limit
      → 0 < size
      → ChunkList.allocate s.chunks (size + 1) ≡ some (chunks, offset)
      → Allocation s size f (allocate_with iv s size f)
  allocate_with-placed s size f chunks offset v small pos e =
      let (heap, fits, was_free, map) =
        allocate_inserts s.chunks chunks (State.len s.backing) (size + 1) offset v.heap
          (omega arith) e in
      let o =
        open_range-Opened s.backing.permissions (State.len s.backing) offset size v.values.covers
          (omega (arith, fits)) in
      let start = s.base_address + offset in
      let (regions, inserted, has_it) =
        iv.has-insert s.regions (record { start = start; end = start + size }) (omega arith) in
      let base = ir.add_lem s.base_address offset (omega (arith, fits, v.in_u64)) in
      let top = ir.add_lem (s.base_address + offset) size (omega (arith, fits, v.in_u64)) in
      let b : FlatState V = record s.backing { permissions = o.after } in
      elim (view_values_mut-Written b offset size (f start)
        (permit-IsValid s.backing o.after v.values o.covers) (omega (arith, fits)) o.inside) [
          | written b' e' w ↦
              let same_len : State.len b' ≡ State.len s.backing =
                ap length w.values ∙ length-splice s.backing.backing offset _ in
              let written_there : State.view_values_mut b offset size
                    (f (ir.add s.base_address offset))
                  ≡ ok b' =
                subst (λ x. State.view_values_mut b offset size (f x) ≡ ok b') (sym base) e' in
              let s₃ : ChunkState V S =
                record (with_permissions (record s { chunks = chunks }) o.after) {
                  regions = regions;
                } in
              let s' : ChunkState V S = record s₃ { backing = b' } in
              placed s' offset pos
                (allocate_with-inserted s size f chunks offset o.after regions small e o.returns
                    (rw (base, top) inserted)
                  ∙ ap (λ r. on_backing s₃ backing (ir.add s.base_address offset) r) written_there
                  ∙ ap (λ x. (s', ok x)) base)
                (record {
                  fits = omega (arith, fits);
                  was_free = was_free;
                  chunks = map;
                  region = has_it;
                  inside = rw w.same_permissions o.inside;
                  red_zone = rw w.same_permissions o.red_zone;
                  values = w.values;
                  valid = record {
                    heap = rw same_len heap;
                    values = w.valid;
                    in_u64 = rw same_len v.in_u64;
                  };
                })
        ]

  -- On a valid heap, and for a size whose successor does not wrap, `allocate_with` returns an
  -- error only for want of a free chunk, and then changes nothing. It panics exactly if the size
  -- is zero and a chunk is found, since the interval set refuses the empty region. Otherwise it
  -- returns the address of a range in the heap at whose offset nothing was taken, adds its chunk,
  -- with one value more, and its region, allows all of the range to be read and written but not
  -- the value behind it to be written, and leaves in the range what the caller makes of its
  -- values; the heap stays valid.
  pub allocate_with-Allocation :
      (s : ChunkState V S) (size : ℕ) (f : ℕ → List V → List V)
      → IsValid s
      → size + 1 < u64_limit
      → Allocation s size f (allocate_with iv s size f)
  unfolding allocate_with
  allocate_with-Allocation s size f v small =
      let wrapped : (size + 1) % u64_limit ≡ size + 1 = omega arith in
      elim (Option-cases (ChunkList.allocate s.chunks (size + 1))) [
        | inl e ↦ full e (rw (wrapped, e, allocate_with) refl)
        | inr ((chunks, offset), e) ↦ elim (dec_lt 0 size) [
          | yes pos ↦ allocate_with-placed s size f chunks offset v small pos e
          | no none_asked ↦
              empty chunks offset (omega arith) e
                (allocate_with-empty s size f chunks offset v small (omega arith) e)
        ]
      ]
