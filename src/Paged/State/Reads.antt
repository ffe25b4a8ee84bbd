-- ===== src/Paged/State/Reads.antt =====
-- What reads of a paged state show, before and after a write.
use fuguex_core.Prelude.{
  ℕ, ◌+◌, ◌≤◌, ◌≡◌, ◌⊎◌, refl, ◌∙◌, sym, subst, Bool, true, false, List, Result, ok, map_err,
  ok_inj, err_ok, inl, inr, Bool-cases, length, if◌then◌else◌, slice, length-slice,
}
use fuguex_core.Address.{AddressOps}
use fuguex_core.Flat.Access.{Access}
use fuguex_core.Flat.Permissions.Regions.{AllAllowed}
use fuguex_core.Flat.State
use fuguex_core.Flat.State.{FlatState}
use fuguex_core.Flat.State.Valid
use fuguex_core.Flat.State.Valid.{Checked, beyond, refused, allowed, view_values-Checked}
use fuguex_core.Flat.State.Reads
use fuguex_core.Chunked.Heap.{IntervalOps}
use fuguex_core.Paged.IntervalMap.{IntervalMapOps}
use fuguex_core.Paged.IntervalMap.Entries.{same_refl}
use fuguex_core.Paged.Segments.{Error, Segment, backing_error, is_static}
use fuguex_core.Paged.State.{
  PagedState, Target, view_values, view_values_mut, set_values, resolve, write_back, with_flat,
  with_flat_mut,
}
use fuguex_core.Paged.State.Resolve.{bind-ok, same_store, resolve-write_back}
use fuguex_core.Paged.State.Follows.{IsValid, target-IsValid, same_store-flat}
use fuguex_core.Paged.State.Keeps.{map_err-ok}
use fuguex_core.Register.Values.{view_values-view_values_mut}

module _ {V : Type 0} ⦃ir : AddressOps⦄ where
  -- what a successful read says of its range
  pub readable :
      (f : FlatState V) (a n : ℕ) (l : List V)
      → Valid.IsValid f
      → State.view_values f a n ≡ ok l
      → (a + n ≤ State.len f) × AllAllowed f.permissions Access.read a n
  readable f a n l v e = by_end _ (view_values-Checked f a n v) e
    where
      by_end :
          (out : Result State.Error (List V))
          → Checked f a n Access.read (State.oob_read a n) (λ o. o ≡ ok (slice f.backing a n)) out
          → out ≡ ok l
          → (a + n ≤ State.len f) × AllAllowed f.permissions Access.read a n
      by_end out (beyond h e) e' = absurd (err_ok (rw e at e'))
      by_end out (refused h k e) e' = absurd (err_ok (rw e at e'))
      by_end out (allowed h k e) e' = (h, k)

separate : (b : Bool) (P Q : Type 0) → b ≡ true → (b ≡ false) ⊎ (P ⊎ Q) → P ⊎ Q
separate b P Q h (inl e) = cc
separate b P Q h (inr x) = x

module _ {V S N M : Type 0} ⦃ir : AddressOps⦄ (iv : IntervalOps S)
    (im : IntervalMapOps M (Segment V S N)) where
  same_store_refl : (t : Target V S N) → same_store t t ≡ true
  same_store_refl t = elim (Bool-cases (is_static t.segment)) [
    | inl e ↦ rw e refl
    | inr e ↦ rw (e, same_refl t.interval) refl
  ]

  -- A successful read or write, with the flat state that it goes to.
  view_parts :
      (s : PagedState V M) (a n : ℕ) (t : Target V S N) (l : List V)
      → resolve iv im s a n ≡ ok t
      → view_values iv im s a n ≡ ok l
      → State.view_values t.flat t.address n ≡ ok l
  unfolding view_values with_flat
  view_parts s a n t l r e =
      map_err-ok (backing_error t.address) (State.view_values t.flat t.address n) l (rw r at e)

  record Stored (s : PagedState V M) (t : Target V S N) (written : Result State.Error (FlatState V))
      (s' : PagedState V M) : Type 0 where
    flat : FlatState V
    stored : written ≡ ok flat
    after : write_back im s t flat ≡ s'

  with_flat_mut-target :
      (s s' : PagedState V M) (a n : ℕ) (f : FlatState V → ℕ → ℕ → Result Error (FlatState V))
      → with_flat_mut iv im s a n f ≡ ok s'
      → (t : Target V S N) × (resolve iv im s a n ≡ ok t)
  unfolding with_flat_mut
  with_flat_mut-target s s' a n f e =
      let (t, e₁, e₂) = bind-ok (resolve iv im s a n) _ s' e in (t, e₁)

  with_flat_mut-Stored :
      (s s' : PagedState V M) (a n : ℕ) (t : Target V S N)
      (f : FlatState V → ℕ → ℕ → Result State.Error (FlatState V))
      → resolve iv im s a n ≡ ok t
      → with_flat_mut iv im s a n (λ inner k m. map_err (backing_error k) (f inner k m)) ≡ ok s'
      → Stored s t (f t.flat t.address n) s'
  unfolding with_flat_mut
  with_flat_mut-Stored s s' a n t f r e =
      let write = f t.flat t.address n in
      let (x, e₁, e₂) = bind-ok (map_err (backing_error t.address) write) _ s' (rw r at e) in
      record {
        flat = x;
        stored = map_err-ok (backing_error t.address) write x e₁;
        after = ok_inj {E = Error} e₂;
      }

  view_at :
      (s : PagedState V M) (a n : ℕ) (t : Target V S N) (l : List V)
      → resolve iv im s a n ≡ ok t
      → State.view_values t.flat t.address n ≡ ok l
      → view_values iv im s a n ≡ ok l
  unfolding view_values with_flat
  view_at s a n t l r e = rw (r, e) refl

  -- what a read shows after a write, from what its flat state then shows
  view_after :
      (s s' : PagedState V M) (a n b m : ℕ) (l : List V) (t u : Target V S N)
      (written : Result State.Error (FlatState V)) (w : Stored s t written s')
      → resolve iv im s a n ≡ ok t
      → resolve iv im s b m ≡ ok u
      → State.view_values (if same_store t u then w.flat else u.flat) u.address m ≡ ok l
      → view_values iv im s' b m ≡ ok l
  view_after s s' a n b m l t u written w r e shown =
      let moved = resolve-write_back iv im s a n b m t u w.flat r e in
      subst (λ r. view_values iv im r b m ≡ ok l) w.after
        (view_at (write_back im s t w.flat) b m moved.after l moved.resolves
          (rw (moved.flat_after, moved.same_address) shown))

  -- On a valid paged state, what a successful `set_values` stored is what `view_values` then shows
  -- at the same address, if the range could be read before. This holds in segments of all kinds.
  pub view_values-set_values_mapped :
      (s s' : PagedState V M) (a : ℕ) (values old : List V)
      → IsValid im s
      → view_values iv im s a (length values) ≡ ok old
      → set_values iv im s a values ≡ ok s'
      → view_values iv im s' a (length values) ≡ ok values
  unfolding set_values
  view_values-set_values_mapped s s' a values old v shown done =
      let n = length values in
      let (t, r) = with_flat_mut-target s s' a n _ done in
      let w =
        with_flat_mut-Stored s s' a n t (λ inner k m. State.set_values inner k values) r done in
      let valid = target-IsValid im iv s a (length values) t v r in
      let (inside, right) =
        readable t.flat t.address (length values) old valid
          (view_parts s a (length values) t old r shown) in
      view_after s s' a n a n values t t _ w r r (
        rw (same_store_refl t)
          (Reads.view_values-set_values t.flat w.flat t.address values valid right w.stored))

  -- On a valid paged state, a successful `set_values` changes nothing of what `view_values` shows
  -- elsewhere: in another flat state, or in the same one but not in the range that is written. Two
  -- targets have one flat state if they are both static or in one other segment.
  pub view_values-set_values_elsewhere :
      (s s' : PagedState V M) (a b m : ℕ) (values old : List V) (t u : Target V S N)
      → IsValid im s
      → resolve iv im s a (length values) ≡ ok t
      → resolve iv im s b m ≡ ok u
      → (same_store t u ≡ false)
        ⊎ ((u.address + m ≤ t.address) ⊎ (t.address + length values ≤ u.address))
      → view_values iv im s b m ≡ ok old
      → set_values iv im s a values ≡ ok s'
      → view_values iv im s' b m ≡ ok old
  unfolding set_values
  view_values-set_values_elsewhere s s' a b m values old t u v e₁ e₂ apart shown done =
      let n = length values in
      let w =
        with_flat_mut-Stored s s' a n t (λ inner k m. State.set_values inner k values) e₁ done in
      let shown' = view_parts s b m u old e₂ shown in
      view_after s s' a n b m old t u _ w e₁ e₂ (elim (Bool-cases (same_store t u)) [
        | inr other ↦ rw other shown'
        | inl one ↦
            let flat = same_store-flat im iv s a (length values) b m t u e₁ e₂ one in
            let valid = target-IsValid im iv s a (length values) t v e₁ in
            let before : State.view_values t.flat u.address m ≡ ok old =
              subst (λ f. State.view_values f u.address m ≡ ok old) (sym flat) shown' in
            let (inside, right) = readable t.flat u.address m old valid before in
            rw one (
              Reads.view_values-set_values_apart t.flat w.flat t.address u.address m values valid
                inside (separate _ _ _ one apart) right w.stored
              ∙ before)
      ])

  -- What the borrower of a mutable view left is what a view of the same range then shows.
  pub view_values-view_values_mut_mapped :
      (s s' : PagedState V M) (a n : ℕ) (write : List V → List V)
      → IsValid im s
      → ((l : List V) → length l ≡ n → length (write l) ≡ n)
      → view_values_mut iv im s a n write ≡ ok s'
      → (old : List V) × (length old ≡ n) × (view_values iv im s' a n ≡ ok (write old))
  unfolding view_values_mut
  view_values-view_values_mut_mapped s s' a n write v keeps done =
      let (t, r) = with_flat_mut-target s s' a n _ done in
      let w =
        with_flat_mut-Stored s s' a n t (λ inner k m. State.view_values_mut inner k m write) r
          done in
      let (inside, shown) =
        view_values-view_values_mut t.flat w.flat t.address n write
          (target-IsValid im iv s a n t v r) keeps w.stored in
      (
        slice t.flat.backing t.address n,
        length-slice t.flat.backing t.address n inside,
        view_after s s' a n a n _ t t _ w r r (rw (same_store_refl t) shown),
      )
