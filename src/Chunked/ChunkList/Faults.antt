-- ===== src/Chunked/ChunkList/Faults.antt =====
-- `ChunkList::reallocate` where the chunk before is free.
use fuguex_core.Prelude.{
  ℕ, ◌+◌, ◌-◌, ◌≤◌, ◌<◌, ◌≡◌, ◌≢◌, refl, subst, true, [], ◌∷◌, none, some, arith, some_inj,
  none-some, Option-cases, inl, inr, ==_iff, ==_no, lt→ltb, ltb_no,
}
use native.Mathlib.Decide.{dec_lt}
use fuguex_core.Chunked.ChunkList.{
  ChunkList, taken, free, is_taken, size, allocate, position, free_after, deallocate, grow_up,
  relocate, reallocate_at, reallocate,
}
use fuguex_core.Chunked.ChunkList.Release.{position-taken_size-none}
use fuguex_core.Chunked.ChunkList.Tiled.{
  Tiled, IsHeap, Inhabited, taken_size, taken_size_below, Allocated, Allocated-cons,
  allocate-Allocated,
}

-- the chunk under resize stands second, behind a free one
second : (p m o n : ℕ) (cs : ChunkList) → p ≢ o → position (free p m ∷ taken o n ∷ cs) o ≡ some 1
unfolding position
second p m o n cs ne = rw ((==_iff o o).1 refl) refl

-- On a heap that begins with a free chunk and two taken ones, where the first two have more room
-- than is asked for and the second is too small, `reallocate` of the second one succeeds and
-- removes the third from the list, though it is still in use.
pub reallocate_drops_next :
    (p m o n o₁ n₁ k N : ℕ) (cs : ChunkList)
    → IsHeap (free p m ∷ taken o n ∷ taken o₁ n₁ ∷ cs) 0 N
    → 0 < m
    → n < k
    → k < n + m
    → (cs' : ChunkList) × (reallocate (free p m ∷ taken o n ∷ taken o₁ n₁ ∷ cs) o k
        ≡ some (cs', some (p, n)))
      × (taken_size (free p m ∷ taken o n ∷ taken o₁ n₁ ∷ cs) o₁ ≡ some n₁)
      × (taken_size cs' o₁ ≡ none)
unfolding reallocate reallocate_at free_after grow_up
reallocate_drops_next p m o n o₁ n₁ k N cs h pos more fits =
    let t = h.tiled in
    (
      taken p k ∷ free (p + k) (n + m - k) ∷ cs,
      rw
          (
            second p m o n (taken o₁ n₁ ∷ cs) (omega arith),
            reallocate,
            ==_no k n (omega arith),
            ltb_no k n (omega arith),
            ==_no n k (omega arith),
            lt→ltb k (n + m) fits,
          )
          refl,
      ground (arith, h.inhabited.1.0 refl),
      ground (
        arith,
        h.inhabited.1.0 refl,
        h.inhabited.1.1.0 refl,
        taken_size_below cs (0 + m + n + n₁) o₁ t.1.1.1,
      ),
    )

-- On a list of a free chunk and a taken one at another offset that is too small, `reallocate` of
-- the latter panics if the two together have the room.
pub reallocate_panics :
    (p m o n k : ℕ) → p ≢ o → n < k → k ≤ n + m → reallocate (free p m ∷ taken o n ∷ []) o k ≡ none
unfolding reallocate reallocate_at free_after grow_up
reallocate_panics p m o n k ne more fits = elim (dec_lt k (n + m)) [
  | yes less ↦
      rw
        (
          second p m o n [] ne,
          reallocate,
          ==_no k n (omega arith),
          ltb_no k n (omega arith),
          ==_no n k (omega arith),
          lt→ltb k (n + m) less,
        )
        refl
  | no not_less ↦
      rw
        (
          second p m o n [] ne,
          reallocate,
          ==_no k n (omega arith),
          ltb_no k n (omega arith),
          ==_no n k (omega arith),
          ltb_no k (n + m) not_less,
          (==_iff (n + m) k).1 (omega arith),
        )
        refl
]

-- An allocation that the first free chunk is too small for is one behind it.
allocate_behind :
    (p m k o' : ℕ) (cs cs₁ : ChunkList)
    → Tiled (free p m ∷ cs) 0
    → Inhabited cs
    → m < k
    → allocate (free p m ∷ cs) k ≡ some (cs₁, o')
    → Allocated (free p m ∷ cs) 0 k (cs₁, o') × (m ≤ o')
unfolding allocate
allocate_behind p m k o' cs cs₁ t h small e = elim (Option-cases (allocate cs k)) [
  | inl e' ↦ absurd (none-some (rw (==_no m k (omega arith), ltb_no k m (omega arith), e') at e))
  | inr (r, e') ↦
      let free_case : is_taken (free p m) ≡ true → 0 < size (free p m) = λ f. cc in
      let w = allocate-Allocated cs (0 + m) k t.1 h (omega arith) e' in
      let same : (free p m ∷ r.0, r.1) ≡ (cs₁, o') =
        some_inj (rw (==_no m k (omega arith), ltb_no k m (omega arith), e') at e) in
      subst (λ q. Allocated (free p m ∷ cs) 0 k q × (m ≤ q.1)) same
        (Allocated-cons (free p m) cs 0 k r t (free_case, h) w, omega (arith, w.inside))
]

-- On a heap that begins with a free chunk and two taken ones, where the first two have not the
-- room asked for and `allocate` finds another chunk, `reallocate` of the second one returns that
-- chunk's offset but leaves the old chunk taken.
pub reallocate_leaks :
    (p m o n o₁ n₁ k N o' : ℕ) (cs cs₁ : ChunkList)
    → IsHeap (free p m ∷ taken o n ∷ taken o₁ n₁ ∷ cs) 0 N
    → 0 < m
    → n + m < k
    → allocate (free p m ∷ taken o n ∷ taken o₁ n₁ ∷ cs) k ≡ some (cs₁, o')
    → (reallocate (free p m ∷ taken o n ∷ taken o₁ n₁ ∷ cs) o k ≡ some (cs₁, some (o', n)))
      × (taken_size cs₁ o ≡ some n)
unfolding reallocate reallocate_at free_after grow_up relocate deallocate
reallocate_leaks p m o n o₁ n₁ k N o' cs cs₁ h pos small e =
    let t = h.tiled in
    let live = h.inhabited.1.0 refl in
    let (w, behind) =
      allocate_behind p m k o' (taken o n ∷ taken o₁ n₁ ∷ cs) cs₁ t h.inhabited.1 (omega arith) e in
    let absent : taken_size cs₁ p ≡ none =
      ground
        (arith, w.map p, h.inhabited.1.1.0 refl, taken_size_below cs (0 + m + n + n₁) p t.1.1.1) in
    (
      rw
          (
            second p m o n (taken o₁ n₁ ∷ cs) (omega arith),
            reallocate,
            ==_no k n (omega arith),
            ltb_no k n (omega arith),
            ==_no n k (omega arith),
            ltb_no k (n + m) (omega arith),
            ==_no (n + m) k (omega arith),
            relocate,
            e,
            deallocate,
            position-taken_size-none cs₁ p absent,
          )
          refl,
      ground (arith, w.map o, w.was_free),
    )
