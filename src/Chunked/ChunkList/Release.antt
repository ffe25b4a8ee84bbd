-- ===== src/Chunked/ChunkList/Release.antt =====
-- `deallocate`: a chunk is given back, alone or merged with the free chunks beside it.
use fuguex_core.Prelude.{
  ℕ, zero, suc, ◌+◌, ◌≤◌, ◌<◌, ◌≡◌, refl, sym, ap, ◌∙◌, subst, true, [], ◌∷◌, Option, none, some,
  ◌==◌, if◌then◌else◌, and_then, get_elem?, arith, some_inj, none-some, Option-cases, inl, inr,
  Bool-cases, ==_iff,
}
use fuguex_core.Chunked.ChunkList.{
  ChunkStatus, ChunkList, taken, free, is_taken, offset, size, position, release, deallocate_at,
  deallocate,
}
use fuguex_core.Chunked.ChunkList.Tiled.{
  Tiled, total, Inhabited, taken_size, IsHeap, taken_size_below,
}

pub offset_above :
    (cs : ChunkList) (a i : ℕ) {c : ChunkStatus}
    → Tiled cs a
    → get_elem? cs i ≡ some c
    → a ≤ offset c
offset_above [] a i t g = absurd (none-some g)
offset_above (x ∷ cs) a zero t g = omega (arith, ap offset (some_inj g))
offset_above (x ∷ cs) a (suc i) t g = omega (arith, offset_above cs (a + size x) i t.1 g)

-- What a deallocation at `o` leaves.
pub record Released (cs : ChunkList) (a o : ℕ) (r : ChunkList × ℕ) : Type 0 where
  pub tiled : Tiled r.0 a
  pub same_total : total r.0 ≡ total cs
  pub inhabited : Inhabited r.0
  pub old_size : taken_size cs o ≡ some r.1
  pub map : (p : ℕ) → taken_size r.0 p ≡ (if o == p then none else taken_size cs p)

Released-cons :
    (x : ChunkStatus) (cs : ChunkList) (a o : ℕ) (r : ChunkList × ℕ)
    → offset x ≡ a
    → (is_taken x ≡ true → 0 < size x)
    → a + size x ≤ o
    → Released cs (a + size x) o r
    → Released (x ∷ cs) a o (x ∷ r.0, r.1)
Released-cons x cs a o r at pos above w = record {
  tiled = (at, w.tiled);
  same_total = ap (λ k. size x + k) w.same_total;
  inhabited = (pos, w.inhabited);
  old_size = ground (arith, w.old_size);
  map = λ p. ground (arith, w.map p);
}

abbrev under : ChunkStatus → ChunkList × ℕ → Option (ChunkList × ℕ)
under x r = some (x ∷ r.0, r.1)

release_cons :
    (x : ChunkStatus) (cs : ChunkList) (i o n m : ℕ)
    → release (x ∷ cs) (suc (suc i)) o n m ≡ and_then (release cs (suc i) o n m) (under x)
unfolding release
release_cons x cs i o n m = ground arith

deallocate_at_cons :
    (x : ChunkStatus) (cs : ChunkList) (i o : ℕ) {r : ChunkList × ℕ}
    → deallocate_at cs (suc i) o ≡ some r
    → deallocate_at (x ∷ cs) (suc (suc i)) o ≡ some (x ∷ r.0, r.1)
unfolding deallocate_at
deallocate_at_cons x cs i o e = ground (arith, release_cons x cs i o)

-- The four ways in which a chunk is given back: with its neighbours taken or absent, or merged with
-- those that are free.
module _ (o n a : ℕ) (cs : ChunkList) where
  Released-alone :
      Tiled (taken o n ∷ cs) a
      → Inhabited (taken o n ∷ cs)
      → Released (taken o n ∷ cs) a o (free o n ∷ cs, n)
  Released-alone t h = record {
    tiled = t;
    same_total = refl;
    inhabited = ((λ f. cc), h.1);
    old_size = ground arith;
    map = λ p. ground (arith, taken_size_below cs (a + n) o t.1, h.0 refl);
  }

  Released-up :
      (o₁ m : ℕ)
      → Tiled (taken o n ∷ free o₁ m ∷ cs) a
      → Inhabited (taken o n ∷ free o₁ m ∷ cs)
      → Released (taken o n ∷ free o₁ m ∷ cs) a o (free o (n + m) ∷ cs, n)
  Released-up o₁ m t h = record {
    tiled = (t.0, subst (Tiled cs) (omega arith) t.1.1);
    same_total = omega arith;
    inhabited = ((λ f. cc), h.1.1);
    old_size = ground arith;
    map = λ p. ground (arith, taken_size_below cs (a + n + m) o t.1.1, h.0 refl);
  }

  Released-down :
      (p m : ℕ)
      → Tiled (free p m ∷ taken o n ∷ cs) a
      → Inhabited (free p m ∷ taken o n ∷ cs)
      → Released (free p m ∷ taken o n ∷ cs) a o (free p (n + m) ∷ cs, n)
  Released-down p m t h = record {
    tiled = (t.0, subst (Tiled cs) (omega arith) t.1.1);
    same_total = omega arith;
    inhabited = ((λ f. cc), h.1.1);
    old_size = ground arith;
    map = λ q. ground (arith, taken_size_below cs (a + m + n) o t.1.1, h.1.0 refl);
  }

  Released-both :
      (p m o₁ k : ℕ)
      → Tiled (free p m ∷ taken o n ∷ free o₁ k ∷ cs) a
      → Inhabited (free p m ∷ taken o n ∷ free o₁ k ∷ cs)
      → Released (free p m ∷ taken o n ∷ free o₁ k ∷ cs) a o (free p (n + k + m) ∷ cs, n)
  Released-both p m o₁ k t h = record {
    tiled = (t.0, subst (Tiled cs) (omega arith) t.1.1.1);
    same_total = omega arith;
    inhabited = ((λ f. cc), h.1.1.1);
    old_size = ground arith;
    map = λ q. ground (arith, taken_size_below cs (a + m + n + k) o t.1.1.1, h.1.0 refl);
  }

abbrev Ends : ChunkList → ℕ → ℕ → ℕ → Type 0
Ends cs a i o = (r : ChunkList × ℕ) × (deallocate_at cs i o ≡ some r) × Released cs a o r

-- the first chunk
deallocate_first :
    (o n a : ℕ) (cs : ChunkList)
    → Tiled (taken o n ∷ cs) a
    → Inhabited (taken o n ∷ cs)
    → Ends (taken o n ∷ cs) a zero o
unfolding deallocate_at
deallocate_first o n a [] t h = (_, refl, Released-alone o n a [] t h)
deallocate_first o n a (taken o₁ m ∷ cs) t h = (_, refl, Released-alone o n a (taken o₁ m ∷ cs) t h)
deallocate_first o n a (free o₁ m ∷ cs) t h = (_, refl, Released-up o n a cs o₁ m t h)

-- the second chunk
deallocate_second :
    (x : ChunkStatus) (o n a : ℕ) (cs : ChunkList)
    → Tiled (x ∷ taken o n ∷ cs) a
    → Inhabited (x ∷ taken o n ∷ cs)
    → Ends (x ∷ taken o n ∷ cs) a 1 o
unfolding deallocate_at
deallocate_second (taken p m) o n a [] t h = (
  _,
  refl,
  Released-cons (taken p m) _ a o _ t.0 h.0 (omega arith) (Released-alone o n (a + m) [] t.1 h.1),
)
deallocate_second (taken p m) o n a (taken o₁ k ∷ cs) t h = (
  _,
  refl,
  Released-cons (taken p m) _ a o _ t.0 h.0 (omega arith)
      (Released-alone o n (a + m) (taken o₁ k ∷ cs) t.1 h.1),
)
deallocate_second (taken p m) o n a (free o₁ k ∷ cs) t h = (
  _,
  refl,
  Released-cons (taken p m) _ a o _ t.0 h.0 (omega arith) (Released-up o n (a + m) cs o₁ k t.1 h.1),
)
deallocate_second (free p m) o n a [] t h = (_, refl, Released-down o n a [] p m t h)
deallocate_second (free p m) o n a (taken o₁ k ∷ cs) t h =
    (_, refl, Released-down o n a (taken o₁ k ∷ cs) p m t h)
deallocate_second (free p m) o n a (free o₁ k ∷ cs) t h =
    (_, refl, Released-both o n a cs p m o₁ k t h)

-- any chunk: behind the second one it is a matter of the rest of the list
pub deallocate_at-Released :
    (i : ℕ) (cs : ChunkList) (a o n : ℕ)
    → Tiled cs a
    → Inhabited cs
    → get_elem? cs i ≡ some (taken o n)
    → Ends cs a i o
deallocate_at-Released i [] a o n t h g = absurd (none-some g)
deallocate_at-Released zero (c ∷ cs) a o n t h g =
    let e : taken o n ≡ c = sym (some_inj g) in
    subst (λ x. Ends (x ∷ cs) a zero o) e
      (deallocate_first o n a cs (subst (λ x. Tiled (x ∷ cs) a) (sym e) t)
        (subst (λ x. Inhabited (x ∷ cs)) (sym e) h))
deallocate_at-Released (suc i) (x ∷ []) a o n t h g = absurd (none-some g)
deallocate_at-Released (suc zero) (x ∷ c ∷ cs) a o n t h g =
    let e : taken o n ≡ c = sym (some_inj g) in
    subst (λ y. Ends (x ∷ y ∷ cs) a 1 o) e
      (deallocate_second x o n a cs (subst (λ y. Tiled (x ∷ y ∷ cs) a) (sym e) t)
        (subst (λ y. Inhabited (x ∷ y ∷ cs)) (sym e) h))
deallocate_at-Released (suc (suc i)) (x ∷ c ∷ cs) a o n t h g =
    let (r, e, w) = deallocate_at-Released (suc i) (c ∷ cs) (a + size x) o n t.1 h.1 g in
    (
      (x ∷ r.0, r.1),
      deallocate_at_cons x (c ∷ cs) i o e,
      Released-cons x (c ∷ cs) a o r t.0 h.0 (offset_above (c ∷ cs) (a + size x) (suc i) t.1 g) w,
    )

-- where the loops find the chunk at `o`
pub position-some :
    (cs : ChunkList) (o : ℕ) {i : ℕ}
    → position cs o ≡ some i
    → (n : ℕ) × (get_elem? cs i ≡ some (taken o n))
unfolding position
position-some [] o e = absurd (none-some e)
position-some (free p m ∷ cs) o e = elim (Option-cases (position cs o)) [
  | inl e' ↦ absurd (none-some (rw e' at e))
  | inr (j, e') ↦
      subst (λ k. (n : ℕ) × (get_elem? (free p m ∷ cs) k ≡ some (taken o n)))
        (some_inj (rw e' at e)) (position-some cs o e')
]
position-some (taken p m ∷ cs) o e = elim (Bool-cases (p == o)) [
  | inl same ↦
      subst (λ k. (n : ℕ) × (get_elem? (taken p m ∷ cs) k ≡ some (taken o n)))
        (some_inj (rw same at e)) (m, ap (λ q. some (taken q m)) ((==_iff p o).0 same))
  | inr other ↦ elim (Option-cases (position cs o)) [
    | inl e' ↦ absurd (none-some (rw (other, e') at e))
    | inr (j, e') ↦
        subst (λ k. (n : ℕ) × (get_elem? (taken p m ∷ cs) k ≡ some (taken o n)))
          (some_inj (rw (other, e') at e)) (position-some cs o e')
  ]
]

pub position-none : (cs : ChunkList) (o : ℕ) → position cs o ≡ none → taken_size cs o ≡ none
unfolding position
position-none [] o e = refl
position-none (c ∷ cs) o e = ground (arith, position-none cs o)

pub position-taken_size-none :
    (cs : ChunkList) (o : ℕ) → taken_size cs o ≡ none → position cs o ≡ none
unfolding position
position-taken_size-none [] o e = refl
position-taken_size-none (c ∷ cs) o e = ground (arith, position-taken_size-none cs o)

-- On a heap, `deallocate` of the chunk list does not panic; it returns the size of the chunk taken
-- at the offset, if there is one, keeps the chunks covering the heap, and removes exactly that
-- chunk.
pub deallocate_removes :
    (cs : ChunkList) (n o : ℕ)
    → IsHeap cs 0 n
    → (cs' : ChunkList) × (deallocate cs o ≡ some (cs', taken_size cs o))
      × IsHeap cs' 0 n
      × ((p : ℕ) → taken_size cs' p ≡ (if o == p then none else taken_size cs p))
unfolding deallocate
deallocate_removes cs n o h = elim (Option-cases (position cs o)) [
  | inl e ↦
      let absent = position-none cs o e in
      (cs, rw (e, deallocate, absent) refl, h, λ p. ground (arith, absent))
  | inr (i, e) ↦
      let (m, g) = position-some cs o e in
      let (r, e', w) = deallocate_at-Released i cs 0 o m h.tiled h.inhabited g in
      (
        r.0,
        rw (e, deallocate, e', w.old_size) refl,
        record { tiled = w.tiled; covers = w.same_total ∙ h.covers; inhabited = w.inhabited },
        w.map,
      )
]
