-- ===== src/Paged/IntervalMap/Entries.antt =====
-- Lists of entries: finding one, replacing one, and entries that lie apart.
use fuguex_core.Prelude.{
  ℕ, ◌<◌, ◌≡◌, refl, ap, ◌∙◌, sym, subst, true, false, ◌||◌, List, [], ◌∷◌, ◌++◌, ◌⊎◌, Option, none,
  some, ==_iff, if◌then◌else◌, arith, inl, inr, Bool-cases, Option-cases,
}
use fuguex_core.Chunked.Heap.{Interval}
use fuguex_core.Paged.IntervalMap.{
  holds, meets, same, holding, any_meets, lookup, put, filter_map, kept,
}

pub same_refl : (i : Interval) → same i i ≡ true
same_refl i = ground (arith, (==_iff i.start i.start).1 refl, (==_iff i.end i.end).1 refl)

pub same-eq : (i j : Interval) → same i j ≡ true → i ≡ j
same-eq i j e = ground (arith, ==_iff i.start j.start, ==_iff i.end j.end)

module _ {A : Type 0} where
  abbrev pub All : (Interval → A → Type 0) → List (Interval × A) → Type 0
  All P [] = Unit
  All P ((i, v) ∷ es) = P i v × All P es

  -- The intervals are not empty and do not meet.
  abbrev pub Apart : List (Interval × A) → Type 0
  Apart [] = Unit
  Apart ((i, v) ∷ es) = (i.start < i.end) × (any_meets i es ≡ false) × Apart es

  cons-head : {x y : Interval × A} {xs ys : List (Interval × A)} → x ∷ xs ≡ y ∷ ys → x ≡ y
  cons-head {x} e = ap head e
    where
      head : List (Interval × A) → Interval × A
      head [] = x
      head (z ∷ zs) = z

  -- The entry that is found is the first one, or is found behind it.
  holding-cases :
      (k : Interval) (u : A) (es others : List (Interval × A)) (a : ℕ) (e : Interval × A)
      → holding a ((k, u) ∷ es) ≡ e ∷ others
      → ((holds a k ≡ true) × ((k, u) ≡ e)) ⊎ ((holds a k ≡ false) × (holding a es ≡ e ∷ others))
  holding-cases k u es others a e h = elim (Bool-cases (holds a k)) [
    | inl t ↦ inl (t, cons-head (rw t at h))
    | inr f ↦ inr (f, rw f at h)
  ]

  -- Replacing the value of an interval keeps what is found, but for the value.
  pub holding-put :
      (es others : List (Interval × A)) (a : ℕ) (i j : Interval) (v w : A)
      → holding a es ≡ (j, v) ∷ others
      → (others' : List (Interval × A)) × (holding a (put i w es)
          ≡ (j, if same i j then w else v) ∷ others')
  holding-put [] others a i j v w e = cc
  holding-put ((k, u) ∷ es) others a i j v w e = elim (holding-cases k u es others a (j, v) e) [
    | inl (t, h) ↦ (
      holding a (put i w es),
      rw t (
          ap (λ (x : Interval × A). (x.0, if same i x.0 then w else x.1) ∷ holding a (put i w es))
            h),
    )
    | inr (f, h) ↦ let (others', h') = holding-put es others a i j v w h in (others', rw f h')
  ]

  pub holding-holds :
      (es others : List (Interval × A)) (a : ℕ) (j : Interval) (v : A)
      → holding a es ≡ (j, v) ∷ others
      → holds a j ≡ true
  holding-holds [] others a j v e = cc
  holding-holds ((k, u) ∷ es) others a j v e = ground (arith, holding-holds es others a j v)

  pub All-holding :
      (P : Interval → A → Type 0) (es others : List (Interval × A)) (a : ℕ) (j : Interval) (v : A)
      → All P es
      → holding a es ≡ (j, v) ∷ others
      → P j v
  All-holding P [] others a j v all e = absurd (cc)
  All-holding P ((k, u) ∷ es) others a j v all e = elim (holding-cases k u es others a (j, v) e) [
    | inl (t, h) ↦ subst (λ (x : Interval × A). P x.0 x.1) h all.0
    | inr (f, h) ↦ All-holding P es others a j v all.1 h
  ]

  pub All-put :
      (P : Interval → A → Type 0) (es : List (Interval × A)) (i : Interval) (w : A)
      → P i w
      → All P es
      → All P (put i w es)
  All-put P [] i w h all = tt
  All-put P ((k, u) ∷ es) i w h all = (
    elim (Bool-cases (same i k)) [
      | inl e ↦ rw e (subst (λ j. P j w) (same-eq i k e) h)
      | inr e ↦ rw e all.0
    ],
    All-put P es i w h all.1,
  )

  any_meets-put :
      (es : List (Interval × A)) (r i : Interval) (w : A)
      → any_meets r (put i w es) ≡ any_meets r es
  any_meets-put [] r i w = refl
  any_meets-put ((k, u) ∷ es) r i w = ap (◌||◌ (meets r k)) (any_meets-put es r i w)

  pub put-Apart : (es : List (Interval × A)) (i : Interval) (w : A) → Apart es → Apart (put i w es)
  put-Apart [] i w h = tt
  put-Apart ((k, u) ∷ es) i w h = (h.0, any_meets-put es k i w ∙ h.1, put-Apart es i w h.2)

  -- An entry that is found is the first one of its interval.
  pub lookup-holding :
      (es others : List (Interval × A)) (a : ℕ) (j : Interval) (v : A)
      → holding a es ≡ (j, v) ∷ others
      → lookup j es ≡ some v
  lookup-holding [] others a j v e = cc
  lookup-holding ((k, u) ∷ es) others a j v e = elim (holding-cases k u es others a (j, v) e) [
    | inl (t, h) ↦
        subst (λ (x : Interval × A). lookup j (x ∷ es) ≡ some v) (sym h) (rw (same_refl j) refl)
    | inr (f, h) ↦
        let inside = holding-holds es others a j v h in
        let other : same j k ≡ false = elim (Bool-cases (same j k)) [
          | inl s ↦ absurd (ground (arith, same-eq j k s))
          | inr d ↦ d
        ] in
        rw other (lookup-holding es others a j v h)
  ]

  -- What `filter_map` leaves does not depend on values that its function does not look at.
  pub filter_map-put :
      (f : Interval → Option A) (es : List (Interval × A)) (i : Interval) (w : A)
      → filter_map (λ j v. f j) (put i w es) ≡ filter_map (λ j v. f j) es
  filter_map-put f [] i w = refl
  filter_map-put f ((k, u) ∷ es) i w = ap (kept k (f k)) (filter_map-put f es i w)

  kept-append :
      (k : Interval) (o : Option A) (xs ys : List (Interval × A))
      → kept k o (xs ++ ys) ≡ kept k o xs ++ ys
  kept-append k none xs ys = refl
  kept-append k (some v) xs ys = refl

  pub filter_map-append :
      (f : Interval → A → Option A) (xs ys : List (Interval × A))
      → filter_map f (xs ++ ys) ≡ filter_map f xs ++ filter_map f ys
  filter_map-append f [] ys = refl
  filter_map-append f ((k, u) ∷ xs) ys =
      ap (kept k (f k u)) (filter_map-append f xs ys)
      ∙ kept-append k (f k u) (filter_map f xs) (filter_map f ys)

  pub any_meets-filter_map :
      (f : Interval → A → Option A) (r : Interval) (es : List (Interval × A))
      → any_meets r es ≡ false
      → any_meets r (filter_map f es) ≡ false
  any_meets-filter_map f r [] h = refl
  any_meets-filter_map f r ((k, u) ∷ es) h =
      let rest : any_meets r es ≡ false = ground arith in
      let ih = any_meets-filter_map f r es rest in
      elim (Option-cases (f k u)) [ inl e ↦ rw e ih | inr (w, e) ↦ rw e (ground arith) ]

  pub lookup-none :
      (r : Interval) (es : List (Interval × A))
      → r.start < r.end
      → any_meets r es ≡ false
      → lookup r es ≡ none
  lookup-none r [] h k = refl
  lookup-none r ((j, v) ∷ es) h k =
      let other : same r j ≡ false = elim (Bool-cases (same r j)) [
        | inl s ↦ absurd (ground (arith, same-eq r j s))
        | inr d ↦ d
      ] in
      rw other (lookup-none r es h (ground arith))

  -- an entry put in among others that it does not meet
  pub All-insert :
      (P : Interval → A → Type 0) (xs ys : List (Interval × A)) (r : Interval) (v : A)
      → P r v
      → All P (xs ++ ys)
      → All P (xs ++ ((r, v) ∷ ys))
  All-insert P [] ys r v p all = (p, all)
  All-insert P ((k, u) ∷ xs) ys r v p all = (all.0, All-insert P xs ys r v p all.1)

  any_meets-insert :
      (xs ys : List (Interval × A)) (j r : Interval) (v : A)
      → any_meets j (xs ++ ((r, v) ∷ ys)) ≡ (meets j r || any_meets j (xs ++ ys))
  any_meets-insert [] ys j r v = refl
  any_meets-insert ((k, u) ∷ xs) ys j r v = ground (arith, any_meets-insert xs ys j r v)

  pub insert-Apart :
      (xs ys : List (Interval × A)) (r : Interval) (v : A)
      → r.start < r.end
      → any_meets r (xs ++ ys) ≡ false
      → Apart (xs ++ ys)
      → Apart (xs ++ ((r, v) ∷ ys))
  insert-Apart [] ys r v h k apart = (h, k, apart)
  insert-Apart ((j, u) ∷ xs) ys r v h k apart = (
    apart.0,
    ground (arith, any_meets-insert xs ys j r v, apart.1),
    insert-Apart xs ys r v h (ground arith) apart.2,
  )

  -- the entries of `bs` are those that `es` has for their intervals
  abbrev pub InMap : List (Interval × A) → List (Interval × A) → Type 0
  InMap es [] = Unit
  InMap es ((i, v) ∷ bs) = (lookup i es ≡ some v) × InMap es bs

  InMap-cons :
      (k : Interval) (u : A) (es bs : List (Interval × A))
      → k.start < k.end
      → any_meets k bs ≡ false
      → InMap es bs
      → InMap ((k, u) ∷ es) bs
  InMap-cons k u es [] h d m = tt
  InMap-cons k u es ((j, v) ∷ bs) h d m =
      let other : same j k ≡ false = elim (Bool-cases (same j k)) [
        | inl s ↦ absurd (ground (arith, same-eq j k s))
        | inr f ↦ f
      ] in
      (rw other m.0, InMap-cons k u es bs h (ground arith) m.1)

  pub InMap-self : (es : List (Interval × A)) → Apart es → InMap es es
  InMap-self [] h = tt
  InMap-self ((k, u) ∷ es) h =
      (rw (same_refl k) refl, InMap-cons k u es es h.0 h.1 (InMap-self es h.2))

  filter_map-InMap :
      (g : A → A) (es bs : List (Interval × A))
      → InMap es bs
      → filter_map (λ i v. lookup i es) (filter_map (λ i v. some (g v)) bs) ≡ bs
  filter_map-InMap g es [] m = refl
  filter_map-InMap g es ((i, v) ∷ bs) m = rw m.0 (ap (◌∷◌ (i, v)) (filter_map-InMap g es bs m.1))

  -- Every entry of a map is the one that it has for the interval, also where values were changed.
  pub filter_map_self :
      (g : A → A) (es : List (Interval × A))
      → Apart es
      → filter_map (λ i v. lookup i es) (filter_map (λ i v. some (g v)) es) ≡ es
  filter_map_self g es h = filter_map-InMap g es es (InMap-self es h)

  any_meets-map :
      (g : A → A) (r : Interval) (es : List (Interval × A))
      → any_meets r (filter_map (λ i v. some (g v)) es) ≡ any_meets r es
  any_meets-map g r [] = refl
  any_meets-map g r ((k, u) ∷ es) = ap (◌||◌ (meets r k)) (any_meets-map g r es)

  pub map-Apart :
      (g : A → A) (es : List (Interval × A)) → Apart es → Apart (filter_map (λ i v. some (g v)) es)
  map-Apart g [] h = tt
  map-Apart g ((k, u) ∷ es) h = (h.0, any_meets-map g k es ∙ h.1, map-Apart g es h.2)

  holding-apart :
      (es : List (Interval × A)) (r : Interval) (a : ℕ)
      → any_meets r es ≡ false
      → holds a r ≡ true
      → holding a es ≡ []
  holding-apart [] r a m h = refl
  holding-apart ((k, u) ∷ es) r a m h =
      let out : holds a k ≡ false = ground arith in rw out (holding-apart es r a (ground arith) h)

  -- An address of an entry that meets no other one is in that entry alone, and every other
  -- address is where it was.
  pub holding_insert :
      (xs ys : List (Interval × A)) (r : Interval) (v : A) (a : ℕ)
      → any_meets r (xs ++ ys) ≡ false
      → holding a (xs ++ ((r, v) ∷ ys)) ≡ (if holds a r then (r, v) ∷ [] else holding a (xs ++ ys))
  holding_insert [] ys r v a m = elim (Bool-cases (holds a r)) [
    | inl h ↦ rw (h, holding-apart ys r a m h) refl
    | inr h ↦ rw h refl
  ]
  holding_insert ((k, u) ∷ xs) ys r v a m =
      let ih = holding_insert xs ys r v a (ground arith) in
      elim (Bool-cases (holds a r)) [
        | inl h ↦ let out : holds a k ≡ false = ground arith in rw (out, ih, h) refl
        | inr h ↦ rw (ih, h) refl
      ]
