-- ===== src/Flat/State/Runs.antt =====
-- A client's calls on a flat state, in order, and what holds after any number of them.
use fuguex_core.Prelude.{
  ℕ, ◌≤◌, ◌≡◌, refl, subst, ◌⊎◌, splice, none-some, ◌∙◌, List, [], ◌∷◌, Option, none, some,
  and_then, length, slice, length-slice, length-take_le, drop, Result, ok, err, panic, arith,
  some_inj, Option-cases, inl, inr,
}
use fuguex_core.Address.{AddressOps}
use fuguex_core.Flat.Access.{Access}
use fuguex_core.Flat.Permissions.{Permissions, word_index, rounds}
use fuguex_core.Flat.State
use fuguex_core.Flat.Permissions
use fuguex_core.Flat.State.{FlatState, Error, len, fork, restore}
use fuguex_core.Flat.State.Valid.{
  IsValid, Wrote, Written, written, Checked, beyond, refused, allowed, set_values-Checked,
  view_values_mut-Checked,
}
use fuguex_core.Flat.State.Copy.{
  CopyOutcome, source_beyond, source_refused, target_beyond, target_refused, in_place, moves,
  panics, copy_values-CopyOutcome,
}
use fuguex_core.Flat.State.Restore.{Tracks, fork-Tracks, fork-IsValid, restore-Tracks, Wrote-Tracks}
use fuguex_core.Flat.Permissions.Shapes.{SameShape, set_from-SameShape, clear_from-SameShape}

pub data Op (V : Type 0) : Type 0 where
  set_values : ℕ → List V → Op V
  view_values_mut : ℕ → ℕ → (List V → List V) → Op V
  copy_values : ℕ → ℕ → ℕ → Op V
  -- through `permissions_mut`
  set_region : ℕ → ℕ → Access → Op V
  clear_region : ℕ → ℕ → Access → Op V

module _ {V : Type 0} where
  -- The borrower of a mutable slice cannot change its length.
  abbrev pub KeepsLength : Op V → Type 0
  KeepsLength (Op.view_values_mut start size write) = (l : List V) → length (write l) ≡ length l
  KeepsLength _ = Unit {0}

  abbrev pub AllKeepLength : List (Op V) → Type 0
  AllKeepLength [] = Unit {0}
  AllKeepLength (op ∷ ops) = KeepsLength op × AllKeepLength ops

  -- An operation that returns an error leaves the state as it was; `none` is a panic.
  abbrev pub after_call : FlatState V → Result Error (FlatState V) → Option (FlatState V)
  after_call s (ok s') = some s'
  after_call s (err e) = some s
  after_call s panic = none

  with_permissions : FlatState V → Option Permissions → Option (FlatState V)
  with_permissions s p = and_then p (λ p'. some (record s { permissions = p' }))

module _ {V : Type 0} ⦃ir : AddressOps⦄ where
  unfoldable pub call : FlatState V → Op V → Option (FlatState V)
  unfolding with_permissions
  call s (Op.set_values start values) = after_call s (State.set_values s start values)
  call s (Op.view_values_mut start size write) =
      after_call s (State.view_values_mut s start size write)
  call s (Op.copy_values from to size) = after_call s (State.copy_values s from to size)
  call s (Op.set_region start size access) =
      with_permissions s (Permissions.set_region s.permissions start size access)
  call s (Op.clear_region start size access) =
      with_permissions s (Permissions.clear_region s.permissions start size access)

  unfoldable pub run : FlatState V → List (Op V) → Option (FlatState V)
  unfolding call
  run s [] = some s
  run s (op ∷ ops) = and_then (call s op) (λ s'. run s' ops)

module _ {V : Type 0} ⦃ir : AddressOps⦄ where
  pub record Kept (base s : FlatState V) : Type 0 where
    pub valid : IsValid s
    pub tracks : Tracks base s

  after_Checked :
      (s : FlatState V) (start size : ℕ) (access : Access) (oob : Error) (backing : List V)
      (out : Result Error (FlatState V)) {s' : FlatState V}
      → Checked s start size access oob (Written s start size backing) out
      → after_call s out ≡ some s'
      → (s ≡ s') ⊎ Wrote s start size backing s'
  after_Checked s start size access oob backing out (beyond h e) done =
      inl (some_inj (rw e at done))
  after_Checked s start size access oob backing out (refused h k e) done =
      inl (some_inj (rw e at done))
  after_Checked s start size access oob backing out (allowed h k (written t e w)) done =
      inr (subst (Wrote s start size backing) (some_inj (rw e at done)) w)

  Kept-Wrote :
      (base s : FlatState V) (start size : ℕ) (values : List V) {s' : FlatState V}
      → Kept base s
      → length values ≤ size
      → (s ≡ s') ⊎ Wrote s start size (splice s.backing start values) s'
      → Kept base s'
  Kept-Wrote base s start size values k h (inl e) = subst (Kept base) e k
  Kept-Wrote base s start size values {s' = s'} k h (inr w) = record {
    valid = w.valid;
    tracks = Wrote-Tracks base s s' start size values k.tracks h w;
  }

  Kept-SameShape :
      (base s : FlatState V) (p : Permissions)
      → Kept base s
      → SameShape s.permissions p
      → Kept base (record s { permissions = p })
  Kept-SameShape base s p k same = record {
    valid = record {
      covers = record {
        in_words = rw same.words k.valid.covers.in_words;
        in_space = rw same.space k.valid.covers.in_space;
        in_u64 = k.valid.covers.in_u64;
      };
      agrees = k.valid.agrees;
      words = k.valid.words;
      blocks = k.valid.blocks;
      vec = k.valid.vec;
    };
    tracks = record {
      same_len = k.tracks.same_len;
      same_space = k.tracks.same_space;
      same_permission_space = same.space ∙ k.tracks.same_permission_space;
      same_words = same.words ∙ k.tracks.same_words;
      clean = k.tracks.clean;
    };
  }

  after_CopyOutcome :
      (base s : FlatState V) (from to size : ℕ) (out : Result Error (FlatState V))
      {s' : FlatState V}
      → Kept base s
      → CopyOutcome s from to size out
      → after_call s out ≡ some s'
      → Kept base s'
  after_CopyOutcome base s from to size out k (source_beyond h e) done =
      subst (Kept base) (some_inj (rw e at done)) k
  after_CopyOutcome base s from to size out k (source_refused h h' e) done =
      subst (Kept base) (some_inj (rw e at done)) k
  after_CopyOutcome base s from to size out k (target_beyond h h' h'' e) done =
      subst (Kept base) (some_inj (rw e at done)) k
  after_CopyOutcome base s from to size out k (target_refused h h' i i' e) done =
      subst (Kept base) (some_inj (rw e at done)) k
  after_CopyOutcome base s from to size out k (in_place h h' i i' same e) done =
      subst (Kept base) (some_inj (rw e at done)) k
  after_CopyOutcome base s from to size out k (moves h r h' w' ne can (written t e w)) done =
      Kept-Wrote base s to size (slice s.backing from size) k
        (omega (arith, length-slice s.backing from size h))
        (inr (
          subst (Wrote s to size (splice s.backing to (slice s.backing from size)))
            (some_inj (rw e at done)) w))
  after_CopyOutcome base s from to size out k (panics h h' i i' ne cannot e) done =
      absurd (none-some (rw e at done))

  Kept-with_permissions :
      (base s : FlatState V) (p : Option Permissions) {s' : FlatState V}
      → Kept base s
      → ((q : Permissions) → p ≡ some q → SameShape s.permissions q)
      → with_permissions s p ≡ some s'
      → Kept base s'
  unfolding with_permissions
  Kept-with_permissions base s none k same done = absurd (none-some done)
  Kept-with_permissions base s (some p) k same done =
      subst (Kept base) (some_inj done) (Kept-SameShape base s p k (same p refl))

  pub call-Kept :
      (base s : FlatState V) (op : Op V) {s' : FlatState V}
      → Kept base s
      → KeepsLength op
      → call s op ≡ some s'
      → Kept base s'
  unfolding call Permissions.set_region Permissions.clear_region
  call-Kept base s (Op.set_values start values) k l done =
      Kept-Wrote base s start (length values) values k (omega arith) (
        after_Checked s start (length values) _ _ _ _ (set_values-Checked s start values k.valid)
          done)
  call-Kept base s (Op.view_values_mut start size write) k l done =
      Kept-Wrote base s start size (write (slice s.backing start size)) k
        (omega (arith, l (slice s.backing start size), length-take_le size (drop start s.backing)))
        (after_Checked s start size _ _ _ _ (view_values_mut-Checked s start size write k.valid)
          done)
  call-Kept base s (Op.copy_values from to size) k l done =
      after_CopyOutcome base s from to size _ k (copy_values-CopyOutcome s from to size k.valid)
        done
  call-Kept base s (Op.set_region start size access) k l done =
      Kept-with_permissions base s _ k (λ q e. set_from-SameShape s.permissions start _ access e)
        done
  call-Kept base s (Op.clear_region start size access) k l done =
      Kept-with_permissions base s _ k (λ q e. clear_from-SameShape s.permissions start _ access e)
        done

  -- Calls keep the invariant, and change values only in blocks that are recorded.
  pub run-Kept :
      (base s : FlatState V) (ops : List (Op V)) {s' : FlatState V}
      → Kept base s
      → AllKeepLength ops
      → run s ops ≡ some s'
      → Kept base s'
  unfolding run
  run-Kept base s [] k l done = subst (Kept base) (some_inj done) k
  run-Kept base s (op ∷ ops) k l done = elim (Option-cases (call s op)) [
    | inl e ↦ absurd (none-some (rw e at done))
    | inr (t, e) ↦ run-Kept base t ops (call-Kept base s op k l.0 e) l.1 (rw e at done)
  ]

  -- Fork a valid flat state, make any calls on the fork that do not panic (writes, writes through
  -- a mutable view that keep its length, copies, changes of permissions), and restore it from the
  -- original: the result is the original, values, permissions and recorded blocks alike.
  pub restore-run-fork :
      (base : FlatState V) (ops : List (Op V)) {s : FlatState V}
      → IsValid base
      → AllKeepLength ops
      → run (fork base) ops ≡ some s
      → restore s base ≡ some base
  restore-run-fork base ops {s} v l done =
      let k =
        run-Kept base (fork base) ops
          (record { valid = fork-IsValid base v; tracks = fork-Tracks base }) l done in
      restore-Tracks base s k.valid k.tracks
