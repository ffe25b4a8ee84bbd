-- ===== src/Paged/State/Runs.antt =====
-- Calls on a paged state after `fork`, and what `restore` makes of their result.
use fuguex_core.Prelude.{
  ℕ, ◌≡◌, ◌⊎◌, ap, subst, List, [], ◌∷◌, Option, none, some, and_then, Result, ok, err, panic,
  some_inj, none-some, inl, inr, Option-cases, length,
}
use fuguex_core.Address.{AddressOps}
use fuguex_core.Flat.State.Start.{new-IsValid_lem}
use fuguex_core.Chunked.Heap.{IntervalOps}
use fuguex_core.Paged.IntervalMap.{IntervalMapOps}
use fuguex_core.Paged.Segments.{Error, Segment, NameOps}
use fuguex_core.Paged.State as Paging
use fuguex_core.Paged.State.{
  PagedState, Target, with_flat_mut, zip_assign, resolve, write_back, add_segment, fork, restore,
  restore_segments,
}
use fuguex_core.Paged.State.Follows.{Kept, IsValid}
use fuguex_core.Paged.State.Keeps.{
  Fits, new_heap-IsValid, set_values-Kept, copy_values-Kept, view_values_mut-Kept, add_segment-Kept,
  fork-Kept, restore-Kept,
}

pub data Op (V N : Type 0) : Type 0 where
  set_values : ℕ → List V → Op V N
  view_values_mut : ℕ → ℕ → (List V → List V) → Op V N
  copy_values : ℕ → ℕ → ℕ → Op V N
  static_mapping : N → ℕ → ℕ → Op V N
  mapping : N → ℕ → ℕ → Op V N

module _ {V N : Type 0} ⦃ir : AddressOps⦄ where
  -- The borrower of a mutable slice cannot change its length.
  abbrev pub Sound : ℕ → Op V N → Type 0
  Sound space (set_values address values) = Unit {0}
  Sound space (view_values_mut address n write) = (l : List V) → length (write l) ≡ length l
  Sound space (copy_values from to size) = Unit {0}
  Sound space (static_mapping name base_address size) = Fits space base_address size
  Sound space (mapping name base_address size) = Fits space base_address size

  abbrev pub AllSound : ℕ → List (Op V N) → Type 0
  AllSound space [] = Unit {0}
  AllSound space (op ∷ ops) = Sound space op × AllSound space ops

module _ {V M : Type 0} where
  -- An operation that returns an error leaves the state as it was; `none` is a panic.
  abbrev pub after_call : PagedState V M → Result Error (PagedState V M) → Option (PagedState V M)
  after_call s (ok s') = some s'
  after_call s (err e) = some s
  after_call s panic = none

  after_call-cases :
      (s s' : PagedState V M) (out : Result Error (PagedState V M))
      → after_call s out ≡ some s'
      → (s ≡ s') ⊎ (out ≡ ok s')
  after_call-cases s s' (ok t) e = inr (ap ok (some_inj e))
  after_call-cases s s' (err x) e = inl (some_inj e)
  after_call-cases s s' panic e = absurd (none-some e)

module _ {V S N M : Type 0} ⦃ir : AddressOps⦄ ⦃names : NameOps N⦄ (iv : IntervalOps S)
    (im : IntervalMapOps M (Segment V S N)) (default : V) where
  unfoldable pub call : PagedState V M → Op V N → Option (PagedState V M)
  call s (set_values address values) = after_call s (Paging.set_values iv im s address values)
  call s (view_values_mut address n write) =
      after_call s (Paging.view_values_mut iv im s address n write)
  call s (copy_values from to size) = after_call s (Paging.copy_values iv im s from to size)
  call s (static_mapping name base_address size) =
      after_call s (Paging.static_mapping im default s name base_address size)
  call s (mapping name base_address size) =
      after_call s (Paging.mapping im iv default s name base_address size)

  unfoldable pub run : PagedState V M → List (Op V N) → Option (PagedState V M)
  unfolding call
  run s [] = some s
  run s (op ∷ ops) = and_then (call s op) (λ s'. run s' ops)

module _ {V S N M : Type 0} ⦃ir : AddressOps⦄ ⦃names : NameOps N⦄ (iv : IntervalOps S)
    (im : IntervalMapOps M (Segment V S N)) (default : V) where
  call-Kept :
      (base s s' : PagedState V M) (op : Op V N)
      → Sound base.inner.space op
      → Kept im base s
      → call iv im default s op ≡ some s'
      → Kept im base s'
  unfolding call Paging.static_mapping Paging.mapping
  call-Kept base s s' (set_values address values) h k e = elim (after_call-cases s s' _ e) [
    | inl same ↦ subst (Kept im base) same k
    | inr done ↦ set_values-Kept iv im base s s' address values k done
  ]
  call-Kept base s s' (view_values_mut address n write) h k e = elim (after_call-cases s s' _ e) [
    | inl same ↦ subst (Kept im base) same k
    | inr done ↦ view_values_mut-Kept iv im base s s' address n write h k done
  ]
  call-Kept base s s' (copy_values from to size) h k e = elim (after_call-cases s s' _ e) [
    | inl same ↦ subst (Kept im base) same k
    | inr done ↦ copy_values-Kept iv im base s s' from to size k done
  ]
  call-Kept base s s' (static_mapping name base_address size) h k e =
      elim (after_call-cases s s' _ e) [
        | inl same ↦ subst (Kept im base) same k
        | inr done ↦
            add_segment-Kept im base s s' base_address size _
              (new-IsValid_lem default s.inner.space size h.in_vec
                (rw k.inner.tracks.same_space h.in_space))
              h.some_values h.in_u64 k done
      ]
  call-Kept base s s' (mapping name base_address size) h k e = elim (after_call-cases s s' _ e) [
    | inl same ↦ subst (Kept im base) same k
    | inr done ↦
        add_segment-Kept im base s s' base_address size _
          (new_heap-IsValid iv default s.inner.space base_address size h.in_vec
            (rw k.inner.tracks.same_space h.in_space))
          h.some_values h.in_u64 k done
  ]

  run-Kept :
      (base s s' : PagedState V M) (ops : List (Op V N))
      → AllSound base.inner.space ops
      → Kept im base s
      → run iv im default s ops ≡ some s'
      → Kept im base s'
  unfolding run
  run-Kept base s s' [] h k e = subst (Kept im base) (some_inj e) k
  run-Kept base s s' (op ∷ ops) h k e = elim (Option-cases (call iv im default s op)) [
    | inl c ↦ absurd (none-some (rw c at e))
    | inr (t, c) ↦ run-Kept base t s' ops h.1 (call-Kept base s t op h.0 k c) (rw c at e)
  ]

  -- Fork a valid paged state, make any calls on the fork that do not panic (writes, writes through
  -- a mutable view that keep its length, copies, new mappings that are not empty and fit), and
  -- restore it from the original: neither the fork nor the restoring panics, and the result has
  -- the original's segments, in order and with all of their contents, and its inner state.
  pub restore-run-fork_segments :
      (base s : PagedState V M) (ops : List (Op V N))
      → IsValid im base
      → AllSound base.inner.space ops
      → and_then (fork im base) (λ forked. run iv im default forked ops) ≡ some s
      → (t : PagedState V M) × (restore im s base ≡ some t)
        × (t.inner ≡ base.inner)
        × (im.iter t.segments ≡ im.iter base.segments)
  restore-run-fork_segments base s ops v h e =
      let (forked, done, start) = fork-Kept im base v in
      restore-Kept im base s (run-Kept base forked s ops h start (rw done at e))
