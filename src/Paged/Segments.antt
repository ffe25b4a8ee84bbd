-- ===== src/Paged/Segments.antt =====
-- The errors of the paged state, and `enum Segment`.
use fuguex_core.Prelude.{
  ℕ, ◌≡◌, Bool, true, false, ◌&&◌, Option, none, some, ◌==◌, if◌then◌else◌, and_then,
}
use fuguex_core.Address.{AddressOps}
use fuguex_core.Flat.State
use fuguex_core.Flat.State.{FlatState}
use fuguex_core.Chunked.Heap
use fuguex_core.Chunked.Heap.{ChunkState}

pub data Error : Type 0 where
  unmapped_address : (address size : ℕ) → Error
  overlapped_access : (address size : ℕ) → Error
  overlapped_mapping : (address size : ℕ) → Error
  backing : State.Error → Error
  chunked : Heap.Error → Error

-- Where an error of the flat state happened. An address of a space is taken by its offset.
abbrev pub flat_access : State.Error → ℕ × ℕ
flat_access (State.oob_read address size) = (address, size)
flat_access (State.oob_write address size) = (address, size)
flat_access (State.access_violation space address size access) = (address, size)

-- `Error::access`; `none` is the panic
unfoldable pub access : Error → Option (ℕ × ℕ)
access (unmapped_address address size) = some (address, size)
access (overlapped_access address size) = some (address, size)
access (overlapped_mapping address size) = some (address, size)
access (backing e) = some (flat_access e)
access (chunked (Heap.backing e)) = some (flat_access e)
access (chunked (Heap.access_unmanaged address size)) = some (address, size)
access (chunked (Heap.heap_overflow address size)) = some (address, size)
access (chunked (Heap.not_enough_free_space size)) = none
access (chunked (Heap.free_unmanaged address)) = none
access (chunked (Heap.reallocate_unmanaged address)) = none

module _ ⦃ir : AddressOps⦄ where
  -- `Error::backing`
  unfoldable pub backing_error : ℕ → State.Error → Error
  backing_error base (State.oob_read address size) =
      backing (State.oob_read (ir.add address base) size)
  backing_error base (State.oob_write address size) =
      backing (State.oob_write (ir.add address base) size)
  backing_error base (State.access_violation space address size access) =
      backing (State.access_violation space (ir.add address base) size access)

-- The names are interned strings of the ustr crate, of which the code uses equality.
pub record NameOps (N : Type 0) : Type 0 where
  pub same_name : N → N → Bool
  pub same_name_refl : (n : N) → same_name n n ≡ true

pub data Segment (V S N : Type 0) : Type 0 where
  static : N → ℕ → Segment V S N
  mapping : N → ChunkState V S → Segment V S N
  static_mapping : N → FlatState V → Segment V S N

pub data MappingRef (V S : Type 0) : Type 0 where
  dynamic : ChunkState V S → MappingRef V S
  static : FlatState V → MappingRef V S

module _ {V S N : Type 0} where
  unfoldable pub is_static : Segment V S N → Bool
  is_static (Segment.static name offset) = true
  is_static (mapping name b) = false
  is_static (static_mapping name b) = false

  unfoldable pub is_mapping : Segment V S N → Bool
  is_mapping (Segment.static name offset) = false
  is_mapping (mapping name b) = true
  is_mapping (static_mapping name b) = false

  -- `as_mapping_mut` gives the same, since a `MappingMut` holds shared references.
  unfoldable pub as_mapping : Segment V S N → Option (MappingRef V S)
  as_mapping (Segment.static name offset) = none
  as_mapping (mapping name b) = some (dynamic b)
  as_mapping (static_mapping name b) = some (MappingRef.static b)

  unfoldable pub name : Segment V S N → N
  name (Segment.static n offset) = n
  name (mapping n b) = n
  name (static_mapping n b) = n

  unfoldable pub fork : Segment V S N → Segment V S N
  fork (Segment.static n offset) = Segment.static n offset
  fork (mapping n b) = mapping n (Heap.fork b)
  fork (static_mapping n b) = static_mapping n (State.fork b)

  -- `none` is a panic
  unfoldable pub restore :
      ⦃names : NameOps N⦄ → Segment V S N → Segment V S N → Option (Segment V S N)
  restore ⦃names⦄ (Segment.static n offset) (Segment.static rname roffset) =
      if names.same_name n rname && offset == roffset then some (Segment.static n offset) else none
  restore ⦃names⦄ (mapping n b) (mapping rname rb) =
      if names.same_name n rname && b.base_address == rb.base_address && Heap.len b == Heap.len rb
      then and_then (Heap.restore b rb) (λ b'. some (mapping n b'))
      else none
  restore ⦃names⦄ (static_mapping n b) (static_mapping rname rb) =
      if names.same_name n rname && State.len b == State.len rb
      then and_then (State.restore b rb) (λ b'. some (static_mapping n b'))
      else none
  restore _ _ = none
