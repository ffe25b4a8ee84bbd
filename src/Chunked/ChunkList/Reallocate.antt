-- ===== src/Chunked/ChunkList/Reallocate.antt =====
-- `reallocate` where it does not merge with the free chunk before: in place, or to a new chunk.
use fuguex_core.Prelude.{
  ℕ, zero, suc, ◌+◌, ◌-◌, ◌≤◌, ◌<◌, ◌≡◌, ◌≢◌, refl, sym, ap, ◌∙◌, subst, true, [], ◌∷◌, Option,
  none, some, ◌==◌, if◌then◌else◌, and_then, get_elem?, arith, some_inj, none-some, Option-cases,
  inl, inr, ==_iff, ==_no, ltb_no, lt→ltb,
}
use native.Mathlib.Decide.{dec_lt, ℕ_discrete}
use fuguex_core.Chunked.ChunkList.{
  ChunkStatus, ChunkList, Moved, taken, free, is_taken, offset, size, allocate, position,
  free_after, free_before, shrink, grow_up, grow_down, relocate, reallocate_at, reallocate,
}
use fuguex_core.Chunked.ChunkList.Tiled.{
  Tiled, total, Inhabited, taken_size, IsHeap, allocate_inserts,
}
use fuguex_core.Chunked.ChunkList.Release.{offset_above, deallocate_removes}

-- What a reallocation in place of the chunk at `o`, which had size `n`, leaves.
pub record Resized (cs : ChunkList) (a o n new_size : ℕ) (cs' : ChunkList) : Type 0 where
  pub tiled : Tiled cs' a
  pub same_total : total cs' ≡ total cs
  pub inhabited : Inhabited cs'
  pub map : (p : ℕ) → taken_size cs' p ≡ (if o == p then some new_size else taken_size cs p)

-- the room that a chunk has without moving
abbrev pub room : ChunkList → ℕ → ℕ → ℕ
room cs i n = elim (free_after cs i) [ none ↦ n | some f ↦ n + size f ]

Resized-cons :
    (x : ChunkStatus) (cs : ChunkList) (a o n new_size : ℕ) (cs' : ChunkList)
    → offset x ≡ a
    → (is_taken x ≡ true → 0 < size x)
    → a + size x ≤ o
    → Resized cs (a + size x) o n new_size cs'
    → Resized (x ∷ cs) a o n new_size (x ∷ cs')
Resized-cons x cs a o n new_size cs' at pos above w = record {
  tiled = (at, w.tiled);
  same_total = ap (λ k. size x + k) w.same_total;
  inhabited = (pos, w.inhabited);
  map = λ p. ground (arith, w.map p);
}

abbrev Ends : ChunkList → ℕ → ℕ → ℕ → ℕ → ℕ → Type 0
Ends cs a i o n new_size =
    (cs' : ChunkList) × (reallocate_at cs i o new_size ≡ some (cs', some (o, n)))
    × Resized cs a o n new_size cs'

-- The ways to resize the first chunk.
module _ (o n new_size a : ℕ) (pos : 0 < new_size) (cs : ChunkList) where
  Resized-split :
      Tiled (taken o n ∷ cs) a
      → Inhabited (taken o n ∷ cs)
      → new_size < n
      → Resized
          (taken o n ∷ cs)
          a
          o
          n
          new_size
          (taken o new_size ∷ free (o + new_size) (n - new_size) ∷ cs)
  Resized-split t h less = record {
    tiled = (t.0, (ap (λ k. k + new_size) t.0, subst (Tiled cs) (omega arith) t.1));
    same_total = omega arith;
    inhabited = ((λ e. pos), ((λ e. cc), h.1));
    map = λ p. ground arith;
  }

  Resized-free :
      (o₁ m o₂ k : ℕ)
      → Tiled (taken o n ∷ free o₁ m ∷ cs) a
      → Inhabited (taken o n ∷ free o₁ m ∷ cs)
      → o₂ ≡ o + new_size
      → new_size + k ≡ n + m
      → Resized (taken o n ∷ free o₁ m ∷ cs) a o n new_size (taken o new_size ∷ free o₂ k ∷ cs)
  Resized-free o₁ m o₂ k t h e f = record {
    tiled = (t.0, (omega (arith, t.0), subst (Tiled cs) (omega arith) t.1.1));
    same_total = omega arith;
    inhabited = ((λ e. pos), ((λ e. cc), h.1.1));
    map = λ p. ground arith;
  }

  Resized-all :
      (o₁ m : ℕ)
      → Tiled (taken o n ∷ free o₁ m ∷ cs) a
      → Inhabited (taken o n ∷ free o₁ m ∷ cs)
      → n + m ≡ new_size
      → Resized (taken o n ∷ free o₁ m ∷ cs) a o n new_size (taken o new_size ∷ cs)
  Resized-all o₁ m t h e = record {
    tiled = (t.0, subst (Tiled cs) (omega arith) t.1.1);
    same_total = omega arith;
    inhabited = ((λ e. pos), h.1.1);
    map = λ p. ground arith;
  }

resize_same :
    (o n a : ℕ) (cs : ChunkList)
    → Tiled (taken o n ∷ cs) a
    → Inhabited (taken o n ∷ cs)
    → Ends (taken o n ∷ cs) a zero o n n
unfolding reallocate_at
resize_same o n a cs t h = (
  taken o n ∷ cs,
  rw ((==_iff n n).1 refl) refl,
  record { tiled = t; same_total = refl; inhabited = h; map = λ p. ground arith },
)

resize_first :
    (o n new_size a : ℕ) (cs : ChunkList)
    → Tiled (taken o n ∷ cs) a
    → Inhabited (taken o n ∷ cs)
    → 0 < new_size
    → new_size ≢ n
    → new_size ≤ room (taken o n ∷ cs) zero n
    → Ends (taken o n ∷ cs) a zero o n new_size
unfolding reallocate_at free_after shrink grow_up
resize_first o n new_size a [] t h pos ne fits = (
  _,
  rw (==_no new_size n ne, lt→ltb new_size n (omega arith)) refl,
  Resized-split o n new_size a pos [] t h (omega arith),
)
resize_first o n new_size a (taken o₁ m ∷ cs) t h pos ne fits = (
  _,
  rw (==_no new_size n ne, lt→ltb new_size n (omega arith)) refl,
  Resized-split o n new_size a pos (taken o₁ m ∷ cs) t h (omega arith),
)
resize_first o n new_size a (free o₁ m ∷ cs) t h pos ne fits = elim (dec_lt new_size n) [
  | yes less ↦ (
    taken o new_size ∷ free (o₁ - (n - new_size)) (m + (n - new_size)) ∷ cs,
    rw (==_no new_size n ne, lt→ltb new_size n less) refl,
    Resized-free o n new_size a pos cs o₁ m (o₁ - (n - new_size)) (m + (n - new_size)) t h
        (omega (arith, t.0, t.1.0)) (omega arith),
  )
  | no more ↦ elim (dec_lt new_size (n + m)) [
    | yes less ↦ (
      taken o new_size ∷ free (o + new_size) (n + m - new_size) ∷ cs,
      rw (==_no new_size n ne, ltb_no new_size n more, lt→ltb new_size (n + m) less) refl,
      Resized-free o n new_size a pos cs o₁ m (o + new_size) (n + m - new_size) t h refl
          (omega arith),
    )
    | no all ↦ (
      taken o new_size ∷ cs,
      rw
          (
            ==_no new_size n ne,
            ltb_no new_size n more,
            ltb_no new_size (n + m) all,
            (==_iff (n + m) new_size).1 (omega arith),
          )
          refl,
      Resized-all o n new_size a pos cs o₁ m t h (omega arith),
    )
  ]
]

abbrev under : ChunkStatus → ChunkList × Moved → Option (ChunkList × Moved)
under x r = some (x ∷ r.0, r.1)

-- the operations at a later index are those at the one before it on the rest of the list
shrink_cons :
    (x : ChunkStatus) (cs : ChunkList) (i o k n : ℕ)
    → shrink (x ∷ cs) (suc i) o k n ≡ and_then (shrink cs i o k n) (under x)
unfolding shrink
shrink_cons x cs i o k n = ground arith

grow_up_cons :
    (x : ChunkStatus) (cs : ChunkList) (i epos o n k m : ℕ)
    → k ≤ n
    → grow_up (x ∷ cs) (suc i) (suc epos) o n k m ≡ and_then (grow_up cs i epos o n k m) (under x)
unfolding grow_up
grow_up_cons x cs i epos o n k m fits = elim (dec_lt k n) [
  | yes less ↦ rw (lt→ltb k n less) refl
  | no not_less ↦ rw (ltb_no k n not_less, (==_iff n k).1 (omega arith)) (ground arith)
]

free_after_cons :
    (x : ChunkStatus) (cs : ChunkList) (i : ℕ) → free_after (x ∷ cs) (suc i) ≡ free_after cs i
unfolding free_after
free_after_cons x cs i = refl

reallocate_at_cons :
    (x : ChunkStatus) (cs : ChunkList) (i o n new_size : ℕ) {cs' : ChunkList}
    → get_elem? cs i ≡ some (taken o n)
    → new_size ≤ room cs i n
    → reallocate_at cs i o new_size ≡ some (cs', some (o, n))
    → reallocate_at (x ∷ cs) (suc i) o new_size ≡ some (x ∷ cs', some (o, n))
unfolding reallocate_at
reallocate_at_cons x cs i o n new_size g fits e = elim (Option-cases (free_after cs i)) [
  | inl e₀ ↦ ground (
    arith,
    free_after_cons x cs i,
    shrink_cons x cs i o new_size n,
    grow_up_cons x cs i i o n new_size n,
  )
  | inr (f, e₀) ↦ ground (
    arith,
    free_after_cons x cs i,
    shrink_cons x cs i o new_size n,
    grow_up_cons x cs i (suc i) o (n + size f) new_size n,
  )
]

resize_at :
    (i : ℕ) (cs : ChunkList) (a o n new_size : ℕ)
    → Tiled cs a
    → Inhabited cs
    → 0 < new_size
    → get_elem? cs i ≡ some (taken o n)
    → new_size ≤ room cs i n
    → Ends cs a i o n new_size
unfolding free_after
resize_at i [] a o n k t h pos g fits = absurd (none-some g)
resize_at zero (c ∷ cs) a o n k t h pos g fits =
    let e : taken o n ≡ c = sym (some_inj g) in
    let t' = subst (λ y. Tiled (y ∷ cs) a) (sym e) t in
    let h' = subst (λ y. Inhabited (y ∷ cs)) (sym e) h in
    subst (λ y. Ends (y ∷ cs) a zero o n k) e
      (elim (ℕ_discrete k n) [
        | yes same ↦
            subst (λ m. Ends (taken o n ∷ cs) a zero o n m) (sym same) (resize_same o n a cs t' h')
        | no ne ↦
            resize_first o n k a cs t' h' pos ne
              (subst (λ y. k ≤ room (y ∷ cs) zero n) (sym e) fits)
      ])
resize_at (suc i) (x ∷ cs) a o n k t h pos g fits =
    let (cs', e, w) = resize_at i cs (a + size x) o n k t.1 h.1 pos g (
      subst (λ f. k ≤ elim f as (λ _. ℕ) [ none ↦ n | some c ↦ n + size c ])
        (free_after_cons x cs i) fits) in
    (
      x ∷ cs',
      reallocate_at_cons x cs i o n k g fits e,
      Resized-cons x cs a o n k cs' t.0 h.0 (offset_above cs (a + size x) i t.1 g) w,
    )

-- On a heap, a taken chunk that has room for a positive size, alone or with the free chunk behind
-- it, is resized in place: `reallocate` returns its offset and its old size, keeps the chunks
-- covering the heap, and changes the size of that chunk alone.
pub reallocate_in_place :
    (cs : ChunkList) (n i o k m : ℕ)
    → IsHeap cs 0 n
    → position cs o ≡ some i
    → get_elem? cs i ≡ some (taken o m)
    → 0 < k
    → k ≤ room cs i m
    → (cs' : ChunkList) × (reallocate cs o k ≡ some (cs', some (o, m)))
      × IsHeap cs' 0 n
      × ((p : ℕ) → taken_size cs' p ≡ (if o == p then some k else taken_size cs p))
unfolding reallocate
reallocate_in_place cs n i o k m h e g pos fits =
    let (cs', e', w) = resize_at i cs 0 o m k h.tiled h.inhabited pos g fits in
    (
      cs',
      rw (e, reallocate) e',
      record { tiled = w.tiled; covers = w.same_total ∙ h.covers; inhabited = w.inhabited },
      w.map,
    )

-- Without room, and with no free chunk before, the loop comes to its last resort.
reallocate_at-relocate :
    (cs : ChunkList) (i o k m : ℕ)
    → get_elem? cs i ≡ some (taken o m)
    → free_before cs i ≡ none
    → room cs i m < k
    → reallocate_at cs i o k ≡ relocate cs o k m
unfolding reallocate_at grow_up grow_down
reallocate_at-relocate cs i o k m g before small = elim (Option-cases (free_after cs i)) [
  | inl e ↦ ground (arith, e)
  | inr (f, e) ↦ ground (arith, e)
]

-- On a heap, a taken chunk with neither the room behind it nor a free chunk before it is moved to
-- where `allocate` finds a chunk: `reallocate` returns the new offset and the old size, keeps the
-- chunks covering the heap, frees the old chunk and takes the new one, and changes no other.
pub reallocate_moves :
    (cs cs₁ : ChunkList) (n i o k m o' : ℕ)
    → IsHeap cs 0 n
    → position cs o ≡ some i
    → get_elem? cs i ≡ some (taken o m)
    → free_before cs i ≡ none
    → 0 < k
    → room cs i m < k
    → allocate cs k ≡ some (cs₁, o')
    → (cs' : ChunkList) × (reallocate cs o k ≡ some (cs', some (o', m)))
      × IsHeap cs' 0 n
      × ((p : ℕ)
          → taken_size cs' p
            ≡ (if o == p then none else if o' == p then some k else taken_size cs p))
unfolding reallocate relocate
reallocate_moves cs cs₁ n i o k m o' h e g before pos small a =
    let (h₁, _, _, map₁) = allocate_inserts cs cs₁ n k o' h pos a in
    let (cs', d, h', map') = deallocate_removes cs₁ n o h₁ in
    (
      cs',
      rw (e, reallocate, reallocate_at-relocate cs i o k m g before small, a, relocate, d) refl,
      h',
      λ p. ground (arith, map' p, map₁ p),
    )
