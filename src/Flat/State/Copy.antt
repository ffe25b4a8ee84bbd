-- ===== src/Flat/State/Copy.antt =====
-- `FlatState::copy_values` and the ways in which it ends.
use fuguex_core.Prelude.{
  ℕ, ◌+◌, ◌≤◌, ◌≡◌, ◌≢◌, refl, ap, ◌∙◌, true, false, some, err, ==_iff, Result, ok, panic,
  length-splice, sym, ==_no, Bool-cases, inl, inr,
}
use native.Mathlib.Decide.{dec_le, ℕ_discrete}
use fuguex_core.Address.{AddressOps}
use fuguex_core.Flat.Access.{Access}
use fuguex_core.Flat.Permissions.{all_marked, all_readable, all_writable}
use fuguex_core.Flat.Permissions.Regions.{AllAllowed, all_marked_lem}
use fuguex_core.Flat.State.{
  FlatState, Error, oob_read, oob_write, access_violation, len, copy_values,
}
use fuguex_core.Flat.State.Valid.{
  IsValid, Written, written, record_write, out_of_bounds_no, out_of_bounds_yes,
}
use fuguex_core.Flat.State.Moves.{CanMove, can_move?, moved, move_values-moved, move_values-none}

module _ {V : Type 0} ⦃ir : AddressOps⦄ (s : FlatState V) (from to size : ℕ) (v : IsValid s) where
  when_source_beyond :
      ¬ (from + size ≤ len s) → copy_values s from to size ≡ err (oob_read from size)
  unfolding copy_values
  when_source_beyond h = rw (out_of_bounds_yes (len s) from size h v.vec)

  when_source_refused :
      from + size ≤ len s
      → all_marked s.permissions from size Access.read ≡ some false
      → copy_values s from to size ≡ err (access_violation s.space from size Access.read)
  unfolding copy_values all_readable
  when_source_refused h e = rw (out_of_bounds_no (len s) from size h v.vec, e)

  when_target_beyond :
      from + size ≤ len s
      → all_marked s.permissions from size Access.read ≡ some true
      → ¬ (to + size ≤ len s)
      → copy_values s from to size ≡ err (oob_write to size)
  unfolding copy_values all_readable
  when_target_beyond h e k =
      rw (out_of_bounds_no (len s) from size h v.vec, e, out_of_bounds_yes (len s) to size k v.vec)

  when_target_refused :
      from + size ≤ len s
      → all_marked s.permissions from size Access.read ≡ some true
      → to + size ≤ len s
      → all_marked s.permissions to size Access.write ≡ some false
      → copy_values s from to size ≡ err (access_violation s.space to size Access.write)
  unfolding copy_values all_readable all_writable
  when_target_refused h e k e' =
      rw (
        out_of_bounds_no (len s) from size h v.vec,
        e,
        out_of_bounds_no (len s) to size k v.vec,
        e',
      )

module _ {V : Type 0} ⦃ir : AddressOps⦄ (s : FlatState V) (from to size : ℕ) (v : IsValid s)
    (source : from + size ≤ len s) (target : to + size ≤ len s)
    (can_read : AllAllowed s.permissions Access.read from size)
    (can_write : AllAllowed s.permissions Access.write to size) where
  readable : all_readable s.permissions from size ≡ some true
  unfolding all_readable
  readable =
      let (m, e, iff) =
        all_marked_lem s.permissions (len s) from size Access.read v.covers source in
      rw (← iff.1 can_read) e

  writable : all_writable s.permissions to size ≡ some true
  unfolding all_writable
  writable =
      let (m, e, iff) = all_marked_lem s.permissions (len s) to size Access.write v.covers target in
      rw (← iff.1 can_write) e

  -- On a valid state, with both ranges in bounds and permitted, and where the ranges differ and
  -- overlap or the later one ends with the values, `copy_values` succeeds: the target holds what
  -- the source held before, all other values are as they were, and the target's blocks are
  -- recorded.
  pub copy_values-moves :
      from ≢ to
      → CanMove (len s) from to size
      → Written s to size (moved s.backing from to size) (copy_values s from to size)
  unfolding copy_values
  copy_values-moves ne can =
      let (dirty, e, wrote) =
        record_write s to size (moved s.backing from to size) v target
          (length-splice s.backing to _) in
      written _
        (rw
          (
            out_of_bounds_no (len s) from size source v.vec,
            readable,
            out_of_bounds_no (len s) to size target v.vec,
            writable,
            ==_no to from (λ p. ne (sym p)),
            move_values-moved s.backing from to size ne source target can,
            e,
          )
          refl)
        wrote

  copy_values-same : from ≡ to → copy_values s from to size ≡ ok s
  unfolding copy_values
  copy_values-same e =
      rw
        (
          out_of_bounds_no (len s) from size source v.vec,
          readable,
          out_of_bounds_no (len s) to size target v.vec,
          writable,
          (==_iff to from).1 (sym e),
        )
        refl

  -- On a valid state, with both ranges in bounds and permitted, `copy_values` between different
  -- disjoint ranges of which the later one does not end with the values panics.
  pub copy_values-panics :
      from ≢ to → ¬ CanMove (len s) from to size → copy_values s from to size ≡ panic
  unfolding copy_values
  copy_values-panics ne cannot =
      rw
        (
          out_of_bounds_no (len s) from size source v.vec,
          readable,
          out_of_bounds_no (len s) to size target v.vec,
          writable,
          ==_no to from (λ p. ne (sym p)),
          move_values-none s.backing from to size source target cannot,
        )
        refl

module _ {V : Type 0} ⦃ir : AddressOps⦄ where
  -- Every way in which `copy_values` ends.
  pub data CopyOutcome (s : FlatState V) (from to size : ℕ) (out : Result Error (FlatState V))
      : Type 0 where
    source_beyond :
        ¬ (from + size ≤ len s) → out ≡ err (oob_read from size) → CopyOutcome s from to size out
    source_refused :
        from + size ≤ len s
        → ¬ AllAllowed s.permissions Access.read from size
        → out ≡ err (access_violation s.space from size Access.read)
        → CopyOutcome s from to size out
    target_beyond :
        from + size ≤ len s
        → AllAllowed s.permissions Access.read from size
        → ¬ (to + size ≤ len s)
        → out ≡ err (oob_write to size)
        → CopyOutcome s from to size out
    target_refused :
        from + size ≤ len s
        → AllAllowed s.permissions Access.read from size
        → to + size ≤ len s
        → ¬ AllAllowed s.permissions Access.write to size
        → out ≡ err (access_violation s.space to size Access.write)
        → CopyOutcome s from to size out
    in_place :
        from + size ≤ len s
        → AllAllowed s.permissions Access.read from size
        → to + size ≤ len s
        → AllAllowed s.permissions Access.write to size
        → from ≡ to
        → out ≡ ok s
        → CopyOutcome s from to size out
    moves :
        from + size ≤ len s
        → AllAllowed s.permissions Access.read from size
        → to + size ≤ len s
        → AllAllowed s.permissions Access.write to size
        → from ≢ to
        → CanMove (len s) from to size
        → Written s to size (moved s.backing from to size) out
        → CopyOutcome s from to size out
    panics :
        from + size ≤ len s
        → AllAllowed s.permissions Access.read from size
        → to + size ≤ len s
        → AllAllowed s.permissions Access.write to size
        → from ≢ to
        → ¬ CanMove (len s) from to size
        → out ≡ panic
        → CopyOutcome s from to size out

  copy_within :
      (s : FlatState V) (from to size : ℕ)
      → IsValid s
      → from + size ≤ len s
      → AllAllowed s.permissions Access.read from size
      → to + size ≤ len s
      → AllAllowed s.permissions Access.write to size
      → CopyOutcome s from to size (copy_values s from to size)
  copy_within s from to size v source can_read target can_write = elim (ℕ_discrete from to) [
    | yes same ↦
        in_place source can_read target can_write same
          (copy_values-same s from to size v source target can_read can_write same)
    | no ne ↦ elim (can_move? (len s) from to size) [
      | yes can ↦
          moves source can_read target can_write ne can
            (copy_values-moves s from to size v source target can_read can_write ne can)
      | no cannot ↦
          panics source can_read target can_write ne cannot
            (copy_values-panics s from to size v source target can_read can_write ne cannot)
    ]
  ]

  -- On a valid state `copy_values` returns each error exactly under its condition, in the order of
  -- its checks: the range that is read is beyond the values or may not all be read, then the range
  -- that is written is beyond them or may not all be written. Where all of the checks pass, it
  -- does nothing between equal ranges; otherwise it moves the values or panics, by how the two
  -- ranges lie.
  pub copy_values-CopyOutcome :
      (s : FlatState V) (from to size : ℕ)
      → IsValid s
      → CopyOutcome s from to size (copy_values s from to size)
  copy_values-CopyOutcome s from to size v = elim (dec_le (from + size) (len s)) [
    | no beyond_end ↦ source_beyond beyond_end (when_source_beyond s from to size v beyond_end)
    | yes source ↦
        let (r, e, iff) =
          all_marked_lem s.permissions (len s) from size Access.read v.covers source in
        elim (Bool-cases r) [
          | inr no_right ↦
              source_refused source (λ all. cc (iff.1 all))
                (when_source_refused s from to size v source (e ∙ ap some no_right))
          | inl right ↦ elim (dec_le (to + size) (len s)) [
            | no beyond_end ↦
                target_beyond source (iff.0 right) beyond_end
                  (when_target_beyond s from to size v source (e ∙ ap some right) beyond_end)
            | yes target ↦
                let (w, e', iff') =
                  all_marked_lem s.permissions (len s) to size Access.write v.covers target in
                elim (Bool-cases w) [
                  | inr no_right ↦
                      target_refused source (iff.0 right) target (λ all. cc (iff'.1 all))
                        (when_target_refused s from to size v source (e ∙ ap some right) target
                          (e' ∙ ap some no_right))
                  | inl right' ↦
                      copy_within s from to size v source (iff.0 right) target (iff'.0 right')
                ]
          ]
        ]
  ]
