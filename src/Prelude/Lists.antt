-- ===== src/Prelude/Lists.antt =====
-- Slices and vectors as lists under native indices, with the library's names, and the two slice
-- operations that the code uses: a view of a range, and `clone_from_slice` into a range.
use Prim.Native.Nat.{ℕ, zero, suc, ◌+◌, ◌-◌, ◌≤◌, ◌<◌}
use mathlib.Core.Path.{◌≡◌, refl, ap}
use mathlib.Core.Logic.{◌≢◌}
use mathlib.Core.Bool.{◌&&◌}
use mathlib.Core.List.{List, [], ◌∷◌, ◌++◌}
use mathlib.Core.Option.{Option, none, some}
use native.Mathlib.Omega.{arith}
use fuguex_core.Prelude.Tests.{leb, ltb, le→leb, ◌==◌, ==_iff, if◌then◌else◌}

module _ {ℓ} {A : Type ℓ} where
  abbrev pub length : List A → ℕ
  length [] = 0
  length (x ∷ xs) = suc (length xs)

  abbrev pub get_elem? : List A → ℕ → Option A
  get_elem? [] i = none
  get_elem? (x ∷ xs) zero = some x
  get_elem? (x ∷ xs) (suc i) = get_elem? xs i

  -- A write out of bounds changes nothing.
  abbrev pub set : List A → ℕ → A → List A
  set [] i v = []
  set (x ∷ xs) zero v = v ∷ xs
  set (x ∷ xs) (suc i) v = x ∷ set xs i v

  abbrev pub take : ℕ → List A → List A
  take zero xs = []
  take (suc n) [] = []
  take (suc n) (x ∷ xs) = x ∷ take n xs

  abbrev pub drop : ℕ → List A → List A
  drop zero xs = xs
  drop (suc n) [] = []
  drop (suc n) (x ∷ xs) = drop n xs

  abbrev pub replicate : ℕ → A → List A
  replicate zero a = []
  replicate (suc n) a = a ∷ replicate n a

  -- `&xs[i..i + n]`, where the range is known to be in bounds
  abbrev pub slice : List A → ℕ → ℕ → List A
  slice xs i n = take n (drop i xs)

  -- The elements from `i` on are replaced by `ys`, as far as both reach.
  abbrev pub splice : List A → ℕ → List A → List A
  splice [] i ys = []
  splice (x ∷ xs) zero [] = x ∷ xs
  splice (x ∷ xs) zero (y ∷ ys) = y ∷ splice xs zero ys
  splice (x ∷ xs) (suc i) ys = x ∷ splice xs i ys

  -- `xs[i..j].clone_from_slice(ys)`: `none` is the panic of a range out of bounds or of two
  -- slices of different lengths.
  unfoldable pub clone_from_slice : List A → ℕ → ℕ → List A → Option (List A)
  clone_from_slice xs i j ys =
      if leb i j && leb j (length xs) && (j - i) == length ys then some (splice xs i ys) else none

  -- `&xs[i..j]`: `none` is the panic of a range out of bounds.
  unfoldable pub slice? : List A → ℕ → ℕ → Option (List A)
  slice? xs i j = if leb i j && leb j (length xs) then some (slice xs i (j - i)) else none

module _ {ℓ} {A : Type ℓ} where
  pub length-append : (xs ys : List A) → length (xs ++ ys) ≡ length xs + length ys
  length-append [] ys = omega arith
  length-append (x ∷ xs) ys = omega (arith, length-append xs ys)

  pub length-set : (xs : List A) (i : ℕ) (v : A) → length (set xs i v) ≡ length xs
  length-set [] i v = refl
  length-set (x ∷ xs) zero v = refl
  length-set (x ∷ xs) (suc i) v = ap suc (length-set xs i v)

  pub length-replicate : (n : ℕ) (a : A) → length (replicate n a) ≡ n
  length-replicate zero a = refl
  length-replicate (suc n) a = ap suc (length-replicate n a)

  pub length-splice : (xs : List A) (i : ℕ) (ys : List A) → length (splice xs i ys) ≡ length xs
  length-splice [] i ys = refl
  length-splice (x ∷ xs) zero [] = refl
  length-splice (x ∷ xs) zero (y ∷ ys) = ap suc (length-splice xs zero ys)
  length-splice (x ∷ xs) (suc i) ys = ap suc (length-splice xs i ys)

  pub length-drop : (n : ℕ) (xs : List A) → length (drop n xs) ≡ length xs - n
  length-drop zero xs = omega arith
  length-drop (suc n) [] = omega arith
  length-drop (suc n) (x ∷ xs) = omega (arith, length-drop n xs)

  pub length-take : (n : ℕ) (xs : List A) → n ≤ length xs → length (take n xs) ≡ n
  length-take zero xs h = refl
  length-take (suc n) [] h = absurd (omega arith)
  length-take (suc n) (x ∷ xs) h = ap suc (length-take n xs (omega arith))

  pub length-take_le : (n : ℕ) (xs : List A) → length (take n xs) ≤ n
  length-take_le zero xs = omega arith
  length-take_le (suc n) [] = omega arith
  length-take_le (suc n) (x ∷ xs) = omega (arith, length-take_le n xs)

  pub take_all : (n : ℕ) (xs : List A) → n ≡ length xs → take n xs ≡ xs
  take_all zero [] e = refl
  take_all zero (x ∷ xs) e = absurd (omega arith)
  take_all (suc n) [] e = refl
  take_all (suc n) (x ∷ xs) e = ap (◌∷◌ x) (take_all n xs (omega arith))

  pub length-slice : (xs : List A) (i n : ℕ) → i + n ≤ length xs → length (slice xs i n) ≡ n
  length-slice xs i n h = length-take n (drop i xs) (omega (arith, length-drop i xs))

  pub get_elem?-set_self :
      (xs : List A) (i : ℕ) (v : A) → i < length xs → get_elem? (set xs i v) i ≡ some v
  get_elem?-set_self [] i v h = elim h [ ]
  get_elem?-set_self (x ∷ xs) zero v h = refl
  get_elem?-set_self (x ∷ xs) (suc i) v h = get_elem?-set_self xs i v (omega arith)

  pub get_elem?-set_ne :
      (xs : List A) (i j : ℕ) (v : A) → i ≢ j → get_elem? (set xs i v) j ≡ get_elem? xs j
  get_elem?-set_ne [] i j v h = refl
  get_elem?-set_ne (x ∷ xs) zero zero v h = absurd (h refl)
  get_elem?-set_ne (x ∷ xs) zero (suc j) v h = refl
  get_elem?-set_ne (x ∷ xs) (suc i) zero v h = refl
  get_elem?-set_ne (x ∷ xs) (suc i) (suc j) v h = get_elem?-set_ne xs i j v (λ e. h (ap suc e))

  pub get_elem?-some : (xs : List A) (i : ℕ) → i < length xs → (a : A) × (get_elem? xs i ≡ some a)
  get_elem?-some [] i h = elim h [ ]
  get_elem?-some (x ∷ xs) zero h = (x, refl)
  get_elem?-some (x ∷ xs) (suc i) h = get_elem?-some xs i (omega arith)

  pub get_elem?-none : (xs : List A) (i : ℕ) → length xs ≤ i → get_elem? xs i ≡ none
  get_elem?-none [] i h = refl
  get_elem?-none (x ∷ xs) zero h = absurd (omega arith)
  get_elem?-none (x ∷ xs) (suc i) h = get_elem?-none xs i (omega arith)

  pub lt-of_get_elem? : (xs : List A) (i : ℕ) {a : A} → get_elem? xs i ≡ some a → i < length xs
  lt-of_get_elem? [] i h = cc
  lt-of_get_elem? (x ∷ xs) zero h = omega arith
  lt-of_get_elem? (x ∷ xs) (suc i) h = omega (arith, lt-of_get_elem? xs i h)

  pub get_elem?-ext :
      (xs ys : List A)
      → length xs ≡ length ys
      → ((i : ℕ) → i < length xs → get_elem? xs i ≡ get_elem? ys i)
      → xs ≡ ys
  get_elem?-ext [] [] e h = refl
  get_elem?-ext [] (y ∷ ys) e h = absurd (omega arith)
  get_elem?-ext (x ∷ xs) [] e h = absurd (omega arith)
  get_elem?-ext (x ∷ xs) (y ∷ ys) e h =
      cc (h 0 (omega arith), get_elem?-ext xs ys (omega arith) (λ i p. h (suc i) (omega arith)))

  pub get_elem?-drop :
      (n : ℕ) (xs : List A) (i : ℕ) → get_elem? (drop n xs) i ≡ get_elem? xs (n + i)
  get_elem?-drop zero xs i = ap (get_elem? xs) (omega arith)
  get_elem?-drop (suc n) [] i = refl
  get_elem?-drop (suc n) (x ∷ xs) i =
      let e : suc n + i ≡ suc (n + i) = omega arith in rw e (get_elem?-drop n xs i)

  pub get_elem?-take :
      (n : ℕ) (xs : List A) (i : ℕ) → i < n → get_elem? (take n xs) i ≡ get_elem? xs i
  get_elem?-take zero xs i h = elim h [ ]
  get_elem?-take (suc n) [] i h = refl
  get_elem?-take (suc n) (x ∷ xs) zero h = refl
  get_elem?-take (suc n) (x ∷ xs) (suc i) h = get_elem?-take n xs i (omega arith)

  pub get_elem?-slice :
      (xs : List A) (i n j : ℕ) → j < n → get_elem? (slice xs i n) j ≡ get_elem? xs (i + j)
  get_elem?-slice xs i n j h = rw (get_elem?-take n (drop i xs) j h) (get_elem?-drop i xs j)

  -- outside the written range nothing changes
  pub get_elem?-splice_below :
      (xs : List A) (i : ℕ) (ys : List A) (j : ℕ)
      → j < i
      → get_elem? (splice xs i ys) j ≡ get_elem? xs j
  get_elem?-splice_below [] i ys j h = refl
  get_elem?-splice_below (x ∷ xs) zero ys j h = elim h [ ]
  get_elem?-splice_below (x ∷ xs) (suc i) ys zero h = refl
  get_elem?-splice_below (x ∷ xs) (suc i) ys (suc j) h =
      get_elem?-splice_below xs i ys j (omega arith)

  pub get_elem?-splice_above :
      (xs : List A) (i : ℕ) (ys : List A) (j : ℕ)
      → i + length ys ≤ j
      → get_elem? (splice xs i ys) j ≡ get_elem? xs j
  get_elem?-splice_above [] i ys j h = refl
  get_elem?-splice_above (x ∷ xs) zero [] j h = refl
  get_elem?-splice_above (x ∷ xs) zero (y ∷ ys) zero h = absurd (omega arith)
  get_elem?-splice_above (x ∷ xs) zero (y ∷ ys) (suc j) h =
      get_elem?-splice_above xs zero ys j (omega arith)
  get_elem?-splice_above (x ∷ xs) (suc i) ys zero h = refl
  get_elem?-splice_above (x ∷ xs) (suc i) ys (suc j) h =
      get_elem?-splice_above xs i ys j (omega arith)

  -- inside it the new elements stand
  pub get_elem?-splice_in :
      (xs : List A) (i : ℕ) (ys : List A) (j : ℕ)
      → j < length ys
      → i + j < length xs
      → get_elem? (splice xs i ys) (i + j) ≡ get_elem? ys j
  get_elem?-splice_in [] i ys j h k = elim k [ ]
  get_elem?-splice_in (x ∷ xs) zero [] j h k = elim h [ ]
  get_elem?-splice_in (x ∷ xs) zero (y ∷ ys) zero h k = refl
  get_elem?-splice_in (x ∷ xs) zero (y ∷ ys) (suc j) h k =
      let e : 0 + suc j ≡ suc (0 + j) = omega arith in
      rw e (get_elem?-splice_in xs zero ys j (omega arith) (omega arith))
  get_elem?-splice_in (x ∷ xs) (suc i) ys j h k =
      let e : suc i + j ≡ suc (i + j) = omega arith in
      rw e (get_elem?-splice_in xs i ys j h (omega arith))

  pub clone_from_slice_lem :
      (xs : List A) (i j : ℕ) (ys : List A)
      → i + length ys ≡ j
      → j ≤ length xs
      → clone_from_slice xs i j ys ≡ some (splice xs i ys)
  unfolding clone_from_slice
  clone_from_slice_lem xs i j ys e h = rw (
    le→leb i j (omega arith),
    le→leb j (length xs) h,
    (==_iff (j - i) (length ys)).1 (omega arith),
  )

  pub slice?_lem :
      (xs : List A) (i j : ℕ) → i ≤ j → j ≤ length xs → slice? xs i j ≡ some (slice xs i (j - i))
  unfolding slice?
  slice?_lem xs i j e h = rw (le→leb i j e, le→leb j (length xs) h)

module _ {A : Type 0} where
  pub get_elem?-splice :
      (xs : List A) (i : ℕ) (ys : List A) (j : ℕ)
      → get_elem? (splice xs i ys) j ≡ (
          if leb i j && ltb j (i + length ys) && ltb j (length xs)
          then get_elem? ys (j - i)
          else get_elem? xs j)
  get_elem?-splice [] i ys j = ground arith
  get_elem?-splice (x ∷ xs) zero [] j = ground arith
  get_elem?-splice (x ∷ xs) zero (y ∷ ys) zero = ground arith
  get_elem?-splice (x ∷ xs) zero (y ∷ ys) (suc j) = ground (arith, get_elem?-splice xs zero ys j)
  get_elem?-splice (x ∷ xs) (suc i) ys zero = ground arith
  get_elem?-splice (x ∷ xs) (suc i) ys (suc j) = ground (arith, get_elem?-splice xs i ys j)
