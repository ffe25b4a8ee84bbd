-- ===== src/Flat/State/Valid.antt =====
-- The invariant of `FlatState`, and the ends of the operations that check a range and its
-- permissions.
use fuguex_core.Prelude.{
  ℕ, ◌+◌, ◌-◌, ◌*◌, ◌/◌, ◌^◌, ◌≤◌, ◌<◌, ◌≡◌, refl, true, false, ◌||◌, ◌&&◌, List, some, leb, Result,
  ok, err, length, slice, splice, arith, inl, inr, Bool-cases, length-splice, slice?_lem,
  clone_from_slice_lem,
}
use native.Mathlib.Decide.{dec_le}
use fuguex_core.Address.{AddressOps}
use fuguex_core.Flat.Access.{Access}
use fuguex_core.Flat.Permissions.{all_readable, all_writable, all_readable_and_writable}
use fuguex_core.Flat.Permissions.Regions.{Covers, AllAllowed, all_marked_lem}
use fuguex_core.Flat.Dirty.{DirtyBacking, dirty_region}
use fuguex_core.Flat.Dirty.Blocks.{is_dirty, Recorded, dirty_region-Recorded, new-IsValid}
use fuguex_core.Flat.Dirty.Blocks
use fuguex_core.Flat.State.{
  FlatState, Error, oob_read, oob_write, access_violation, len, out_of_bounds, view_values,
  view_values_mut, set_values,
}

-- the most values that a `Vec` holds
abbrev pub max_len : ℕ
max_len = 2 ^ 63 - 1

pub out_of_bounds_no :
    (n start size : ℕ) → start + size ≤ n → n ≤ max_len → out_of_bounds n start size ≡ false
out_of_bounds_no n start size h k = ground arith

pub out_of_bounds_yes :
    (n start size : ℕ) → ¬ (start + size ≤ n) → n ≤ max_len → out_of_bounds n start size ≡ true
out_of_bounds_yes n start size h k = ground arith

module _ {V : Type 0} ⦃ir : AddressOps⦄ where
  pub record IsValid (s : FlatState V) : Type 0 where
    -- each value has its permission bits
    pub covers : Covers s.permissions (len s)
    -- the bits of the written blocks agree with their list
    pub agrees : Blocks.IsValid s.dirty
    -- each block has a bit, also the one after the last value
    pub words : len s / 64 < length s.dirty.bitsmap * 8
    -- no block begins behind the values
    pub blocks : (b : ℕ) → is_dirty s.dirty b ≡ true → b * 64 ≤ len s
    pub vec : len s ≤ max_len

  -- What a write of `values` from `start` on leaves.
  pub record Wrote (s : FlatState V) (start size : ℕ) (backing : List V) (s' : FlatState V)
      : Type 0 where
    pub values : s'.backing ≡ backing
    pub same_permissions : s'.permissions ≡ s.permissions
    pub same_space : s'.space ≡ s.space
    pub recorded :
        (b : ℕ)
        → is_dirty s'.dirty b
          ≡ ((leb (start / 64) b && leb b ((start + size) / 64)) || is_dirty s.dirty b)
    pub valid : IsValid s'

  pub data Written (s : FlatState V) (start size : ℕ) (backing : List V)
      (out : Result Error (FlatState V)) : Type 0 where
    written :
        (s' : FlatState V)
        → out ≡ ok s'
        → Wrote s start size backing s'
        → Written s start size backing out

  -- The common end of the writing operations.
  pub record_write :
      (s : FlatState V) (start size : ℕ) (backing : List V)
      → IsValid s
      → start + size ≤ len s
      → length backing ≡ len s
      → (dirty : DirtyBacking) × (dirty_region s.dirty start size ≡ some dirty)
        × Wrote s start size backing (record s { backing = backing; dirty = dirty })
  record_write s start size backing v h e =
      let r =
        dirty_region-Recorded s.dirty start size v.agrees (omega (arith, v.vec))
          (omega (arith, v.words)) in
      (
        r.after,
        r.returns,
        record {
          values = refl;
          same_permissions = refl;
          same_space = refl;
          recorded = r.recorded;
          valid = record {
            covers = rw e v.covers;
            agrees = r.valid;
            words = rw (r.same_words, e) v.words;
            blocks = λ b d. rw e (ground (arith, r.recorded b, v.blocks b));
            vec = rw e v.vec;
          };
        },
      )

  -- The three ends of an operation that checks a range and the permissions of its values.
  pub data Checked {A : Type 0} (s : FlatState V) (start size : ℕ) (access : Access) (oob : Error)
      (Success : Result Error A → Type 0) (out : Result Error A) : Type 0 where
    beyond : ¬ (start + size ≤ len s) → out ≡ err oob → Checked s start size access oob Success out
    refused :
        start + size ≤ len s
        → ¬ AllAllowed s.permissions access start size
        → out ≡ err (access_violation s.space start size access)
        → Checked s start size access oob Success out
    allowed :
        start + size ≤ len s
        → AllAllowed s.permissions access start size
        → Success out
        → Checked s start size access oob Success out

  -- On a valid state `set_values` returns an out-of-bounds error exactly if the range does not end
  -- within the values, an access violation exactly if it does and a byte of it may not be written,
  -- and otherwise writes the values in place, records the blocks of the range and keeps the state
  -- valid.
  pub set_values-Checked :
      (s : FlatState V) (start : ℕ) (values : List V)
      → IsValid s
      → Checked s start
          (length values)
          Access.write
          (oob_write start (length values))
          (Written s start (length values) (splice s.backing start values))
          (set_values s start values)
  unfolding set_values all_writable
  set_values-Checked s start values v = elim (dec_le (start + length values) (len s)) [
    | no beyond_end ↦
        beyond beyond_end (rw (out_of_bounds_yes (len s) start (length values) beyond_end v.vec))
    | yes inside ↦
        let (m, e, iff) =
          all_marked_lem s.permissions (len s) start (length values) Access.write v.covers inside in
        elim (Bool-cases m) [
          | inr no_right ↦
              refused inside (λ all. cc (iff.1 all))
                (rw (out_of_bounds_no (len s) start (length values) inside v.vec, e, no_right))
          | inl right ↦
              let (dirty, e', wrote) =
                record_write s start (length values) (splice s.backing start values) v inside
                  (length-splice s.backing start values) in
              allowed inside (iff.0 right) (
                written _
                  (rw
                    (
                      out_of_bounds_no (len s) start (length values) inside v.vec,
                      e,
                      right,
                      clone_from_slice_lem s.backing start (start + length values) values refl
                          inside,
                      e',
                    )
                    refl)
                  wrote)
        ]
  ]

  -- On a valid state `view_values` returns an out-of-bounds error exactly if the range does not
  -- end within the values, an access violation exactly if it does and a byte of it may not be
  -- read, and otherwise the values of the range.
  pub view_values-Checked :
      (s : FlatState V) (start size : ℕ)
      → IsValid s
      → Checked s start size Access.read
          (oob_read start size)
          (λ out. out ≡ ok (slice s.backing start size))
          (view_values s start size)
  unfolding view_values all_readable
  view_values-Checked s start size v = elim (dec_le (start + size) (len s)) [
    | no beyond_end ↦ beyond beyond_end (rw (out_of_bounds_yes (len s) start size beyond_end v.vec))
    | yes inside ↦
        let (m, e, iff) =
          all_marked_lem s.permissions (len s) start size Access.read v.covers inside in
        let width : start + size - start ≡ size = omega arith in
        elim (Bool-cases m) [
          | inr no_right ↦
              refused inside (λ all. cc (iff.1 all))
                (rw (out_of_bounds_no (len s) start size inside v.vec, e, no_right))
          | inl right ↦ allowed inside (iff.0 right) (
              rw
                (
                  out_of_bounds_no (len s) start size inside v.vec,
                  e,
                  right,
                  slice?_lem s.backing start (start + size) (omega arith) inside,
                  width,
                )
                refl)
        ]
  ]

  -- On a valid state `view_values_mut` returns an out-of-bounds error exactly if the range does
  -- not end within the values, an access violation exactly if it does and a byte of it may not be
  -- both read and written, and otherwise what the borrower makes of the range is written back, the
  -- blocks of the range are recorded, and the state stays valid.
  pub view_values_mut-Checked :
      (s : FlatState V) (start size : ℕ) (write : List V → List V)
      → IsValid s
      → Checked s start size Access.read_write
          (oob_read start size)
          (Written s start size (splice s.backing start (write (slice s.backing start size))))
          (view_values_mut s start size write)
  unfolding view_values_mut all_readable_and_writable
  view_values_mut-Checked s start size write v = elim (dec_le (start + size) (len s)) [
    | no beyond_end ↦ beyond beyond_end (rw (out_of_bounds_yes (len s) start size beyond_end v.vec))
    | yes inside ↦
        let (m, e, iff) =
          all_marked_lem s.permissions (len s) start size Access.read_write v.covers inside in
        let width : start + size - start ≡ size = omega arith in
        elim (Bool-cases m) [
          | inr no_right ↦
              refused inside (λ all. cc (iff.1 all))
                (rw (out_of_bounds_no (len s) start size inside v.vec, e, no_right))
          | inl right ↦
              let filled = splice s.backing start (write (slice s.backing start size)) in
              let (dirty, e', wrote) =
                record_write s start size filled v inside
                  (length-splice s.backing start (write (slice s.backing start size))) in
              allowed inside (iff.0 right) (
                written _
                  (rw
                    (
                      out_of_bounds_no (len s) start size inside v.vec,
                      e,
                      right,
                      e',
                      slice?_lem s.backing start (start + size) (omega arith) inside,
                      width,
                    )
                    refl)
                  wrote)
        ]
  ]
