-- ===== src/Chunked/ChunkList/Tiled.antt =====
-- The chunks of a heap as a cover of it, the taken ones as a finite map, and `allocate`.
use fuguex_core.Prelude.{
  ℕ, zero, suc, ◌+◌, ◌-◌, ◌≤◌, ◌<◌, ◌≡◌, refl, sym, ap, ◌∙◌, subst, true, ◌&&◌, [], ◌∷◌, Option,
  none, some, ltb, ◌==◌, if◌then◌else◌, get_elem?, arith, some_inj, none-some, Option-cases, inl,
  inr, Bool-cases, ==_iff,
}
use native.Mathlib.Decide.{dec_lt}
use fuguex_core.Chunked.ChunkList.{
  ChunkStatus, ChunkList, taken, free, is_free, is_taken, offset, size, new, allocate,
}

-- from `a` on, each chunk begins where the one before it ends
abbrev pub Tiled : ChunkList → ℕ → Type 0
Tiled [] a = Unit {0}
Tiled (c ∷ cs) a = (offset c ≡ a) × Tiled cs (a + size c)

abbrev pub total : ChunkList → ℕ
total [] = 0
total (c ∷ cs) = size c + total cs

-- No taken chunk is empty.
abbrev pub Inhabited : ChunkList → Type 0
Inhabited [] = Unit {0}
Inhabited (c ∷ cs) = (is_taken c ≡ true → 0 < size c) × Inhabited cs

-- the taken chunks as a map from offsets to sizes
abbrev pub taken_size : ChunkList → ℕ → Option ℕ
taken_size [] o = none
taken_size (c ∷ cs) o = if is_taken c && (offset c == o) then some (size c) else taken_size cs o

pub record IsHeap (cs : ChunkList) (a n : ℕ) : Type 0 where
  pub tiled : Tiled cs a
  pub covers : total cs ≡ n
  pub inhabited : Inhabited cs

pub new-IsHeap : (n : ℕ) → IsHeap (new n) 0 n
unfolding new
new-IsHeap n = record { tiled = (refl, tt); covers = omega arith; inhabited = ((λ e. cc), tt) }

-- chunks from `a` on have no taken chunk below `a`
pub taken_size_below : (cs : ChunkList) (a o : ℕ) → Tiled cs a → o < a → taken_size cs o ≡ none
taken_size_below [] a o t h = refl
taken_size_below (c ∷ cs) a o t h = ground (arith, taken_size_below cs (a + size c) o t.1)

-- What an allocation of `n` leaves.
pub record Allocated (cs : ChunkList) (a n : ℕ) (r : ChunkList × ℕ) : Type 0 where
  pub tiled : Tiled r.0 a
  pub same_total : total r.0 ≡ total cs
  pub inhabited : Inhabited r.0
  pub inside : (a ≤ r.1) × (r.1 + n ≤ a + total cs)
  pub was_free : taken_size cs r.1 ≡ none
  pub map : (o : ℕ) → taken_size r.0 o ≡ (if r.1 == o then some n else taken_size cs o)

-- An allocation behind a chunk is one from that chunk on.
pub Allocated-cons :
    (c : ChunkStatus) (cs : ChunkList) (a n : ℕ) (r : ChunkList × ℕ)
    → Tiled (c ∷ cs) a
    → Inhabited (c ∷ cs)
    → Allocated cs (a + size c) n r
    → Allocated (c ∷ cs) a n (c ∷ r.0, r.1)
Allocated-cons c cs a n r t i w = record {
  tiled = (t.0, w.tiled);
  same_total = ap (λ k. size c + k) w.same_total;
  inhabited = (i.0, w.inhabited);
  inside = omega (arith, w.inside);
  was_free = ground (arith, w.was_free, i.0, t.0, w.inside);
  map = λ p. ground (arith, w.map p, i.0, t.0, w.inside);
}

pub allocate-Allocated :
    (cs : ChunkList) (a n : ℕ) {r : ChunkList × ℕ}
    → Tiled cs a
    → Inhabited cs
    → 0 < n
    → allocate cs n ≡ some r
    → Allocated cs a n r
unfolding allocate
allocate-Allocated [] a n t i pos e = absurd (none-some e)
allocate-Allocated (taken o m ∷ cs) a n t i pos e = elim (Option-cases (allocate cs n)) [
  | inl e' ↦ absurd (none-some (rw e' at e))
  | inr (r', e') ↦
      subst (Allocated (taken o m ∷ cs) a n) (some_inj (rw e' at e))
        (Allocated-cons (taken o m) cs a n r' t i (allocate-Allocated cs (a + m) n t.1 i.1 pos e'))
]
allocate-Allocated (free o m ∷ cs) a n t i pos e = elim (Bool-cases (m == n)) [
  | inl same ↦ subst (Allocated (free o m ∷ cs) a n) (some_inj (rw same at e)) (record {
    tiled = (t.0, subst (λ k. Tiled cs (a + k)) ((==_iff m n).0 same) t.1);
    same_total = ground arith;
    inhabited = ((λ _. pos), i.1);
    inside = ground arith;
    was_free = taken_size_below cs (a + m) o t.1 (ground arith);
    map = λ p. refl;
  })
  | inr other ↦ elim (Bool-cases (ltb n m)) [
    | inl more ↦
        let back : a + n + (m - n) ≡ a + m = ground arith in
        subst (Allocated (free o m ∷ cs) a n) (some_inj (rw (other, more) at e)) (record {
          tiled = (t.0, (ap (λ k. k + n) t.0, rw back t.1));
          same_total = ground arith;
          inhabited = ((λ _. pos), ((λ f. cc), i.1));
          inside = ground arith;
          was_free = taken_size_below cs (a + m) o t.1 (ground arith);
          map = λ p. refl;
        })
    | inr less ↦ elim (Option-cases (allocate cs n)) [
      | inl e' ↦ absurd (none-some (rw (other, less, e') at e))
      | inr (r', e') ↦
          subst (Allocated (free o m ∷ cs) a n) (some_inj (rw (other, less, e') at e)) (
            Allocated-cons (free o m) cs a n r' t i
              (allocate-Allocated cs (a + m) n t.1 i.1 pos e'))
    ]
  ]
]

-- If `allocate` gives up, every free chunk is smaller than the size asked for.
pub allocate-none :
    (cs : ChunkList) (n i : ℕ) (c : ChunkStatus)
    → allocate cs n ≡ none
    → get_elem? cs i ≡ some c
    → is_free c ≡ true
    → size c < n
unfolding allocate
allocate-none [] n i c e g f = absurd (none-some g)
allocate-none (x ∷ cs) n zero c e g f =
    let same : x ≡ c = some_inj g in ground (arith, ap size same, ap is_free same)
allocate-none (x ∷ cs) n (suc i) c e g f = allocate-none cs n i c (ground arith) g f

-- On a heap whose chunks cover `n` values, a successful `allocate` of a positive size keeps the
-- chunks covering it, returns a range inside the heap at whose offset no chunk was taken, and adds
-- exactly that chunk.
pub allocate_inserts :
    (cs cs' : ChunkList) (n k o : ℕ)
    → IsHeap cs 0 n
    → 0 < k
    → allocate cs k ≡ some (cs', o)
    → IsHeap cs' 0 n
      × (o + k ≤ n)
      × (taken_size cs o ≡ none)
      × ((p : ℕ) → taken_size cs' p ≡ (if o == p then some k else taken_size cs p))
allocate_inserts cs cs' n k o h pos e =
    let w = allocate-Allocated cs 0 k h.tiled h.inhabited pos e in
    (
      record { tiled = w.tiled; covers = w.same_total ∙ h.covers; inhabited = w.inhabited },
      omega (arith, w.inside, h.covers),
      w.was_free,
      w.map,
    )

pub taken_size-above : (cs : ChunkList) (a o m : ℕ) → Tiled cs a → taken_size cs o ≡ some m → a ≤ o
taken_size-above cs a o m t e = elim (dec_lt o a) [
  | yes below ↦ absurd (none-some (sym (taken_size_below cs a o t below) ∙ e))
  | no above ↦ omega arith
]

-- Two taken chunks never overlap.
pub taken_disjoint :
    (cs : ChunkList) (a o m p k : ℕ)
    → Tiled cs a
    → taken_size cs o ≡ some m
    → taken_size cs p ≡ some k
    → o < p
    → o + m ≤ p
taken_disjoint [] a o m p k t e f h = absurd (none-some e)
taken_disjoint (c ∷ cs) a o m p k t e f h = elim (Bool-cases (is_taken c && (offset c == o))) [
  | inl here ↦
      let same : size c ≡ m = some_inj (rw here at e) in
      omega (arith, t.0, here_eq here, taken_size-above cs (a + size c) p k t.1 (later here))
  | inr other ↦ elim (Bool-cases (is_taken c && (offset c == p))) [
    | inl there ↦ absurd (
        omega (arith, t.0, here_eq there, taken_size-above cs (a + size c) o m t.1 (rw other at e)))
    | inr neither ↦ taken_disjoint cs (a + size c) o m p k t.1 (rw other at e) (rw neither at f) h
  ]
]
  where
    here_eq : {q : ℕ} → (is_taken c && (offset c == q)) ≡ true → offset c ≡ q
    here_eq {q} e = ground arith

    later : (is_taken c && (offset c == o)) ≡ true → taken_size cs p ≡ some k
    later at_o = ground arith
