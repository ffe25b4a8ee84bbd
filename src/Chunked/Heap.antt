-- ===== src/Chunked/Heap.antt =====
-- `struct ChunkState`: the chunk list and the intervals in use over a flat state. A method that
-- changes the state before it fails leaves the change, so each gives back the state with its result.
pub mod Allocation
pub mod Deallocation
pub mod Moves
use fuguex_core.Prelude.{
  ℕ, ◌+◌, ◌-◌, ◌%◌, ◌≤◌, ◌<◌, ◌≡◌, Bool, true, false, ◌&&◌, List, [], ◌∷◌, Option, none, some, ltb,
  ◌==◌, if◌then◌else◌, and_then, Result, ok, err, panic, map_err, bind, length, not, ◌↔◌,
}
use fuguex_core.Address.{AddressOps, u64_limit}
use fuguex_core.Flat.Access.{Access}
use fuguex_core.Flat.Permissions
use fuguex_core.Flat.Permissions.{Permissions}
use fuguex_core.Flat.State
use fuguex_core.Flat.State.{FlatState}
use fuguex_core.Chunked.ChunkList
use fuguex_core.Chunked.ChunkList.{ChunkList}

pub data Error : Type 0 where
  backing : State.Error → Error
  not_enough_free_space : ℕ → Error
  access_unmanaged : (address size : ℕ) → Error
  free_unmanaged : ℕ → Error
  reallocate_unmanaged : ℕ → Error
  heap_overflow : (address size : ℕ) → Error

pub record Interval : Type 0 where
  pub start : ℕ
  pub end : ℕ

-- What the code uses of `iset::IntervalSet`: `overlap` and `iter` give the intervals that hold an
-- address or meet a range. `none` is the panic of `insert` and of `iter` on an empty one.
pub record IntervalOps (S : Type 0) : Type 0 where
  pub empty : S
  pub insert : S → Interval → Option S
  pub remove : S → Interval → S
  pub overlap : S → ℕ → List Interval
  pub iter : S → ℕ → ℕ → Option (List Interval)
  pub has : S → Interval → Bool
  pub has-empty : (i : Interval) → has empty i ≡ false
  pub insert_empty : (s : S) (i : Interval) → i.end ≤ i.start → insert s i ≡ none
  pub has-insert :
      (s : S) (i : Interval)
      → i.start < i.end
      → (s' : S) × (insert s i ≡ some s') × (has s' i ≡ true)

pub record ChunkState (V S : Type 0) : Type 0 where
  pub base_address : ℕ
  pub chunks : ChunkList
  pub regions : S
  pub backing : FlatState V
  pub space : ℕ

module _ ⦃ir : AddressOps⦄ where
  -- `Error::backing`
  unfoldable pub backing_error : ℕ → State.Error → Error
  backing_error base (State.oob_read address size) =
      backing (State.oob_read (ir.add address base) size)
  backing_error base (State.oob_write address size) =
      backing (State.oob_write (ir.add address base) size)
  backing_error base (State.access_violation space address size access) =
      backing (State.access_violation space (ir.add address base) size access)

  -- "set R/W permissions", and no writes to the value behind: the red zone
  unfoldable pub open_range : Permissions → ℕ → ℕ → Option Permissions
  open_range p offset size =
      and_then (Permissions.set_region p offset size Access.read_write)
        (λ q. Permissions.clear_byte q (ir.add offset size) Access.write)

module _ {V S : Type 0} ⦃ir : AddressOps⦄ (iv : IntervalOps S) where
  unfoldable pub new : V → ℕ → ℕ → ℕ → ChunkState V S
  new default space base_address size = record {
    base_address = base_address;
    chunks = ChunkList.new size;
    regions = iv.empty;
    backing = State.read_only default space size;
    space = space;
  }

module _ {V S : Type 0} where
  abbrev pub with_permissions : ChunkState V S → Permissions → ChunkState V S
  with_permissions s p = record s { backing = record s.backing { permissions = p } }

  -- the result of an operation of the flat state, whose state is kept if it fails
  abbrev pub on_backing :
      {A : Type 0}
      → ChunkState V S
      → (State.Error → Error)
      → A
      → Result State.Error (FlatState V)
      → ChunkState V S × Result Error A
  on_backing s f a (ok b) = (record s { backing = b }, ok a)
  on_backing s f a (err e) = (s, err (f e))
  on_backing s f a panic = (s, panic)

  unfoldable pub len : ChunkState V S → ℕ
  len s = State.len s.backing

  unfoldable pub fork : ChunkState V S → ChunkState V S
  fork s = record s { backing = State.fork s.backing }

  -- `none` is a panic
  unfoldable pub restore : ChunkState V S → ChunkState V S → Option (ChunkState V S)
  restore s other = and_then (State.restore s.backing other.backing) (λ b. some (record {
    base_address = other.base_address;
    chunks = other.chunks;
    regions = other.regions;
    backing = b;
    space = s.space;
  }))

module _ {V S : Type 0} ⦃ir : AddressOps⦄ (iv : IntervalOps S) where
  unfoldable pub allocate_with :
      ChunkState V S → ℕ → (ℕ → List V → List V) → ChunkState V S × Result Error ℕ
  allocate_with s size f = elim (ChunkList.allocate s.chunks ((size + 1) % u64_limit)) [
    | none ↦ (s, err (not_enough_free_space size))
    | some (chunks, offset) ↦
        let address = ir.add s.base_address offset in
        let s₁ : ChunkState V S = record s { chunks = chunks } in
        elim (open_range s.backing.permissions offset size) [
          | none ↦ (s₁, panic)
          | some p ↦
              let s₂ = with_permissions s₁ p in
              elim (iv.insert s.regions (record { start = address; end = ir.add address size })) [
                | none ↦ (s₂, panic)
                | some regions ↦
                    let s₃ : ChunkState V S = record s₂ { regions = regions } in
                    on_backing s₃ backing address
                      (State.view_values_mut s₃.backing offset size (f address))
              ]
        ]
  ]

  unfoldable pub allocate : ChunkState V S → ℕ → ChunkState V S × Result Error ℕ
  allocate s size = allocate_with s size (λ address values. values)

  -- the result without the address
  abbrev pub discard :
      {A : Type 0} → ChunkState V S × Result Error A → ChunkState V S × Result Error (Unit {0})
  discard (s, ok a) = (s, ok tt)
  discard (s, err e) = (s, err e)
  discard (s, panic) = (s, panic)

  unfoldable pub allocate_all : ChunkState V S → ChunkState V S × Result Error (Unit {0})
  allocate_all s = discard (allocate_with s (len s - 1) (λ address values. values))

  -- "copy if moved", and no writes to the old values
  unfoldable pub copy_moved : ChunkState V S → ℕ → ℕ → ℕ → ChunkState V S × Result Error (Unit {0})
  copy_moved s old_offset offset old_size =
      if not (old_offset == offset)
      then elim (State.copy_values s.backing old_offset offset old_size) [
        | panic ↦ (s, panic)
        | err e ↦ (s, err (backing e))
        | ok b ↦
            let s' : ChunkState V S = record s { backing = b } in
            elim (Permissions.clear_region b.permissions old_offset old_size Access.write) [
              | none ↦ (s', panic)
              | some p ↦ (with_permissions s' p, ok tt)
            ]
      ]
      else (s, ok tt)

  -- from "set R/W permissions" on, for the chunk at `offset` and the old interval
  unfoldable pub move_region :
      ChunkState V S → Interval → ℕ → ℕ → ℕ → ℕ → ChunkState V S × Result Error ℕ
  move_region s interval old_offset old_size offset size =
      let new_address = ir.add s.base_address offset in
      elim (open_range s.backing.permissions offset size) [
        | none ↦ (s, panic)
        | some p ↦
            let (s', r) = copy_moved (with_permissions s p) old_offset offset old_size in
            elim r [
              | panic ↦ (s', panic)
              | err e ↦ (s', err e)
              | ok u ↦
                  let s'' : ChunkState V S = record s' {
                    regions = iv.remove s'.regions interval;
                  } in
                  elim (iv.insert s''.regions
                    (record { start = new_address; end = ir.add new_address size })) [
                      | none ↦ (s'', panic)
                      | some regions ↦ (record s'' { regions = regions }, ok new_address)
                    ]
            ]
      ]

  unfoldable pub reallocate : ChunkState V S → ℕ → ℕ → ChunkState V S × Result Error ℕ
  reallocate s address size = elim (iv.overlap s.regions address) [
    | [] ↦ (s, err (reallocate_unmanaged address))
    | interval ∷ others ↦
        if not (interval.start == address)
        then (s, err (reallocate_unmanaged address))
        else let old_offset = ir.sub address s.base_address in
          let old_size = ir.sub interval.end interval.start in
          elim (Permissions.all_readable s.backing.permissions old_offset old_size) [
            | none ↦ (s, panic)
            | some false ↦
                (s, err (backing (State.access_violation s.space address size Access.read)))
            | some true ↦ elim (ChunkList.reallocate s.chunks old_offset ((size + 1) % u64_limit)) [
              | none ↦ (s, panic)
              | some (chunks, none) ↦
                  (record s { chunks = chunks }, err (not_enough_free_space size))
              | some (chunks, some (offset, size')) ↦
                  move_region (record s { chunks = chunks }) interval old_offset old_size offset
                    size
            ]
          ]
  ]

  unfoldable pub deallocate : ChunkState V S → ℕ → ChunkState V S × Result Error (Unit {0})
  deallocate s address = elim (iv.overlap s.regions address) [
    | [] ↦ (s, err (free_unmanaged address))
    | interval ∷ others ↦
        if not (interval.start == address)
        then (s, err (free_unmanaged address))
        else let offset = ir.sub address s.base_address in
          elim (ChunkList.deallocate s.chunks offset) [
            | none ↦ (s, panic)
            | some (chunks, none) ↦ (record s { chunks = chunks }, err (free_unmanaged address))
            | some (chunks, some old_size) ↦
                let s' : ChunkState V S = record s { chunks = chunks } in
                elim (Permissions.clear_region s.backing.permissions offset
                  (ir.sub interval.end interval.start) Access.write) [
                    | none ↦ (s', panic)
                    | some p ↦ (
                      record (with_permissions s' p) { regions = iv.remove s.regions interval },
                      ok tt,
                    )
                  ]
          ]
  ]

  unfoldable pub translate_checked : ChunkState V S → ℕ → ℕ → Result Error ℕ
  translate_checked s address size = elim (iv.iter s.regions address (ir.add address size)) [
    | none ↦ panic
    | some [] ↦ err (access_unmanaged address size)
    | some (region ∷ []) ↦ ok (ir.sub address s.base_address)
    | some (region ∷ another ∷ others) ↦ err (heap_overflow address size)
  ]

  -- an access to the flat state at the translated address, with the error's address translated back
  abbrev pub at_translated :
      {A : Type 0} → ChunkState V S → ℕ → ℕ → (ℕ → Result State.Error A) → Result Error A
  at_translated s address size access =
      bind (translate_checked s address size)
        (λ a. map_err (backing_error s.base_address) (access a))

  unfoldable pub view_values : ChunkState V S → ℕ → ℕ → Result Error (List V)
  view_values s address n = at_translated s address n (λ a. State.view_values s.backing a n)

  unfoldable pub get_values : ChunkState V S → ℕ → List V → Result Error (List V)
  get_values s address values =
      at_translated s address (length values) (λ a. State.get_values s.backing a values)

  -- the state after a successful write
  abbrev pub replaced : ChunkState V S → Result Error (FlatState V) → Result Error (ChunkState V S)
  replaced s r = bind r (λ b. ok (record s { backing = b }))

  unfoldable pub view_values_mut :
      ChunkState V S → ℕ → ℕ → (List V → List V) → Result Error (ChunkState V S)
  view_values_mut s address n write =
      replaced s (at_translated s address n (λ a. State.view_values_mut s.backing a n write))

  unfoldable pub set_values : ChunkState V S → ℕ → List V → Result Error (ChunkState V S)
  set_values s address values =
      replaced s
        (at_translated s address (length values) (λ a. State.set_values s.backing a values))

  unfoldable pub copy_values : ChunkState V S → ℕ → ℕ → ℕ → Result Error (ChunkState V S)
  copy_values s from to size = bind (translate_checked s from size) (λ source.
      replaced s
        (at_translated s to size (λ target. State.copy_values s.backing source target size)))
