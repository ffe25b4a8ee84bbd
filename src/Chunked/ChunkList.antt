-- ===== src/Chunked/ChunkList.antt =====
-- `enum ChunkStatus` and `struct ChunkList`: the free and taken ranges of a heap, in address order.
-- `none` is the panic of an index out of bounds. The sizes add up to the size of the heap, so no sum
-- of them wraps.
pub mod Tiled
pub mod Release
pub mod Reallocate
pub mod Faults
use fuguex_core.Prelude.{
  ℕ, zero, suc, ◌+◌, ◌-◌, ◌≡◌, refl, Bool, true, false, ◌&&◌, List, [], ◌∷◌, Option, none, some,
  ltb, ◌==◌, if◌then◌else◌, and_then, get_elem?, set, length,
}

pub data ChunkStatus : Type 0 where
  taken : (offset size : ℕ) → ChunkStatus
  free : (offset size : ℕ) → ChunkStatus

abbrev pub is_free : ChunkStatus → Bool
is_free (taken o n) = false
is_free (free o n) = true

abbrev pub is_taken : ChunkStatus → Bool
is_taken (taken o n) = true
is_taken (free o n) = false

abbrev pub offset : ChunkStatus → ℕ
offset (taken o n) = o
offset (free o n) = o

abbrev pub size : ChunkStatus → ℕ
size (taken o n) = n
size (free o n) = n

abbrev pub ChunkList : Type 0
ChunkList = List ChunkStatus

unfoldable pub new : ℕ → ChunkList
new n = free 0 n ∷ []

-- `Vec::remove` and `Vec::insert`, which panic out of bounds
unfoldable pub remove {ℓ} : {A : Type ℓ} → List A → ℕ → Option (List A)
remove [] i = none
remove (x ∷ xs) zero = some xs
remove (x ∷ xs) (suc i) = and_then (remove xs i) (λ ys. some (x ∷ ys))

unfoldable pub insert {ℓ} : {A : Type ℓ} → List A → ℕ → A → Option (List A)
insert xs zero v = some (v ∷ xs)
insert [] (suc i) v = none
insert (x ∷ xs) (suc i) v = and_then (insert xs i v) (λ ys. some (x ∷ ys))

-- The loop looks at the chunks in order and changes the list only where it returns.
unfoldable pub allocate : ChunkList → ℕ → Option (ChunkList × ℕ)
allocate [] n = none
allocate (c ∷ cs) n =
    let later = and_then (allocate cs n) (λ r. some (c ∷ r.0, r.1)) in
    if is_free c
    then if size c == n
      then some (taken (offset c) n ∷ cs, offset c)
      else if ltb n (size c)
      then some (taken (offset c) n ∷ free (offset c + n) (size c - n) ∷ cs, offset c)
      else later
    else later

-- the first `i` for which the loops of `reallocate` and `deallocate` enter their bodies
unfoldable pub position : ChunkList → ℕ → Option ℕ
position [] o = none
position (c ∷ cs) o =
    let later = and_then (position cs o) (λ i. some (suc i)) in
    if is_taken c && (offset c == o) then some 0 else later

-- `i < self.0.len() - 1 && self.0[i + 1].is_free()`, with the chunk
unfoldable pub free_after : ChunkList → ℕ → Option ChunkStatus
free_after cs i = and_then (get_elem? cs (suc i)) (λ c. if is_free c then some c else none)

-- `i > 0 && self.0[i - 1].is_free()`, with the index `i - 1` and the chunk
unfoldable pub free_before : ChunkList → ℕ → Option (ℕ × ChunkStatus)
free_before cs zero = none
free_before cs (suc i) = and_then (get_elem? cs i) (λ c. if is_free c then some (i, c) else none)

-- the second half of the body of `deallocate`: merge with the chunk before, and write the result
unfoldable pub release : ChunkList → ℕ → ℕ → ℕ → ℕ → Option (ChunkList × ℕ)
unfolding free_before remove
release cs i o n old_size = elim (free_before cs i) [
  | none ↦ some (set cs i (free o n), old_size)
  | some (spos, p) ↦
      and_then (remove cs i) (λ cs'. some (set cs' spos (free (offset p) (n + size p)), old_size))
]

-- the body of `deallocate` for chunk `i`
unfoldable pub deallocate_at : ChunkList → ℕ → ℕ → Option (ChunkList × ℕ)
unfolding free_after remove release
deallocate_at cs i o = and_then (get_elem? cs i) (λ c.
    let old_size = size c in
    elim (free_after cs i) [
      | none ↦ release cs i o old_size old_size
      | some n ↦ and_then (remove cs (suc i)) (λ cs'. release cs' i o (old_size + size n) old_size)
    ])

-- The outer option is a panic, the inner one is what the method returns.
unfoldable pub deallocate : ChunkList → ℕ → Option (ChunkList × Option ℕ)
unfolding position deallocate_at
deallocate cs o = elim (position cs o) [
  | none ↦ some (cs, none)
  | some i ↦ and_then (deallocate_at cs i o) (λ r. some (r.0, some r.1))
]

-- what `reallocate` returns: the new offset and the old size
abbrev pub Moved : Type 0
Moved = Option (ℕ × ℕ)

-- `new_size < old_size`: the rest of the chunk goes to the free chunk after it, or becomes one
unfoldable pub shrink : ChunkList → ℕ → ℕ → ℕ → ℕ → Option (ChunkList × Moved)
unfolding free_after insert
shrink cs i o new_size old_size =
    let cs' = set cs i (taken o new_size) in
    let diff = old_size - new_size in
    elim (free_after cs' i) [
      | some n ↦ some (set cs' (suc i) (free (offset n - diff) (size n + diff)), some (o, old_size))
      | none ↦
          and_then (insert cs' (suc i) (free (o + new_size) diff))
            (λ cs''. some (cs'', some (o, old_size)))
    ]

-- "all else fails": a new chunk, and the chunk at `o` given up
unfoldable pub relocate : ChunkList → ℕ → ℕ → ℕ → Option (ChunkList × Moved)
unfolding allocate deallocate
relocate cs o new_size old_size = elim (allocate cs new_size) [
  | none ↦ some (cs, none)
  | some r ↦ and_then (deallocate r.0 o) (λ q. some (q.0, some (r.1, old_size)))
]

-- growth that also takes in the free chunk before, if there is one: `o`, `n` and `spos` are what the
-- source's variables hold after looking at it
unfoldable pub grow_down : ChunkList → ℕ → ℕ → ℕ → ℕ → ℕ → ℕ → Option (ChunkList × Moved)
unfolding remove relocate
grow_down cs i spos o n new_size old_size =
    if ltb new_size n
    then and_then
        (remove
          (set (set cs spos (taken o new_size)) (suc spos) (free (o + new_size) (n - new_size)))
          (suc i))
        (λ cs'. some (cs', some (o, old_size)))
    else if n == new_size
    then and_then (remove (set cs spos (taken o new_size)) i)
        (λ cs'. and_then (remove cs' (suc i)) (λ cs''. some (cs'', some (o, old_size))))
    else relocate cs o new_size old_size

-- growth into the free chunk after, if there is one: `n` and `epos` are what the source's variables
-- hold after looking at it
unfoldable pub grow_up : ChunkList → ℕ → ℕ → ℕ → ℕ → ℕ → ℕ → Option (ChunkList × Moved)
unfolding remove grow_down free_before
grow_up cs i epos o n new_size old_size =
    if ltb new_size n
    then some (
      set (set cs i (taken o new_size)) epos (free (o + new_size) (n - new_size)),
      some (o, old_size),
    )
    else if n == new_size
    then and_then (remove (set cs i (taken o new_size)) epos)
        (λ cs'. some (cs', some (o, old_size)))
    else elim (free_before cs i) [
      | none ↦ grow_down cs i i o n new_size old_size
      | some (spos, p) ↦ grow_down cs i spos (offset p) (n + size p) new_size old_size
    ]

-- the body of `reallocate` for chunk `i`
unfoldable pub reallocate_at : ChunkList → ℕ → ℕ → ℕ → Option (ChunkList × Moved)
reallocate_at cs i o new_size = and_then (get_elem? cs i) (λ c.
    let old_size = size c in
    if new_size == old_size
    then some (cs, some (o, old_size))
    else if ltb new_size old_size
    then shrink cs i o new_size old_size
    else elim (free_after cs i) [
      | none ↦ grow_up cs i i o old_size new_size old_size
      | some n ↦ grow_up cs i (suc i) o (old_size + size n) new_size old_size
    ])

unfoldable pub reallocate : ChunkList → ℕ → ℕ → Option (ChunkList × Moved)
unfolding position reallocate_at
reallocate cs o new_size = elim (position cs o) [
  | none ↦ some (cs, none)
  | some i ↦ reallocate_at cs i o new_size
]
