-- ===== src/Flat/State/Moves.antt =====
-- The branches of `copy_values` on how the two ranges lie: the two loops for overlapping ranges, and
-- the two slices for disjoint ones.
use fuguex_core.Prelude.{
  ℕ, zero, suc, ◌+◌, ◌-◌, ◌≤◌, ◌<◌, ◌≡◌, ◌≢◌, refl, ◌∙◌, ◌&&◌, ◌||◌, List, Option, none, some, ltb,
  leb, ◌==◌, if◌then◌else◌, length, get_elem?, set, drop, slice, slice?, splice, clone_from_slice,
  arith, get_elem?-set_self, get_elem?-set_ne, get_elem?-some, get_elem?-ext, get_elem?-splice,
  get_elem?-slice, length-set, length-splice, length-slice, length-drop, sym, le→leb, take_all,
  slice?_lem, clone_from_slice_lem, Bool-cases, ◌⊎◌, inl, inr,
}
use native.Mathlib.Decide.{dec_lt}
use fuguex_core.Flat.State.{copy_one, copy_up, copy_down, move_values}

-- The ranges overlap, or the later one ends with the values.
abbrev pub CanMove : ℕ → ℕ → ℕ → ℕ → Type 0
CanMove n s d size =
    ((d < s + size) × (s < d + size))
    ⊎ ((s + size ≤ d) × (d + size ≡ n))
    ⊎ ((d < s + size) × (d + size ≤ s) × (s + size ≡ n))

pub can_move? : (n s d size : ℕ) → Dec (CanMove n s d size)
can_move? n s d size =
    elim (Bool-cases (
      (ltb d (s + size) && ltb s (d + size))
      || (leb (s + size) d && (d + size == n))
      || (ltb d (s + size) && leb (d + size) s && (s + size == n)))) [
        | inl t ↦ yes (ground arith)
        | inr f ↦ no (λ can. ground arith)
      ]

module _ {V : Type 0} where
  length-copy_one : (xs : List V) (s d i : ℕ) → length (copy_one xs s d i) ≡ length xs
  length-copy_one xs s d i = by_value (get_elem? xs (s + i))
    where
      by_value :
          (o : Option V)
          → length (elim o as (λ _. List V) [ none ↦ xs | some v ↦ set xs (d + i) v ]) ≡ length xs
      by_value none = refl
      by_value (some v) = length-set xs (d + i) v

  -- one round, at every index
  get_elem?-copy_one :
      (xs : List V) (s d i j : ℕ)
      → s + i < length xs
      → d + i < length xs
      → get_elem? (copy_one xs s d i) j
        ≡ (if j == d + i then get_elem? xs (s + i) else get_elem? xs j)
  get_elem?-copy_one xs s d i j h k =
      let (v, e) = get_elem?-some xs (s + i) h in
      ground (arith, e, get_elem?-set_self xs (d + i) v k, get_elem?-set_ne xs (d + i) j v)

  length-copy_up : (xs : List V) (s d i n : ℕ) → length (copy_up xs s d i n) ≡ length xs
  unfolding copy_up
  length-copy_up xs s d i zero = refl
  length-copy_up xs s d i (suc n) =
      length-copy_up (copy_one xs s d i) s d (i + 1) n ∙ length-copy_one xs s d i

  length-copy_down : (xs : List V) (s d n : ℕ) → length (copy_down xs s d n) ≡ length xs
  unfolding copy_down
  length-copy_down xs s d zero = refl
  length-copy_down xs s d (suc n) =
      length-copy_down (copy_one xs s d n) s d n ∙ length-copy_one xs s d n

  -- Downwards in memory, the first value first: what is read was not yet written.
  get_elem?-copy_up :
      (xs : List V) (s d i n j : ℕ)
      → d < s
      → s + i + n ≤ length xs
      → get_elem? (copy_up xs s d i n) j ≡ (
          if leb (d + i) j && ltb j (d + i + n) then get_elem? xs (s + (j - d)) else get_elem? xs j)
  unfolding copy_up
  get_elem?-copy_up xs s d i zero j below fits = ground arith
  get_elem?-copy_up xs s d i (suc n) j below fits = ground (
    arith,
    get_elem?-copy_up (copy_one xs s d i) s d (i + 1) n j below
        (omega (arith, length-copy_one xs s d i)),
    get_elem?-copy_one xs s d i j (omega arith) (omega arith),
    get_elem?-copy_one xs s d i (s + (j - d)) (omega arith) (omega arith),
  )

  -- Upwards in memory, the last value first.
  get_elem?-copy_down :
      (xs : List V) (s d n j : ℕ)
      → s < d
      → d + n ≤ length xs
      → get_elem? (copy_down xs s d n) j
        ≡ (if leb d j && ltb j (d + n) then get_elem? xs (s + (j - d)) else get_elem? xs j)
  unfolding copy_down
  get_elem?-copy_down xs s d zero j below fits = ground arith
  get_elem?-copy_down xs s d (suc n) j below fits = ground (
    arith,
    get_elem?-copy_down (copy_one xs s d n) s d n j below (omega (arith, length-copy_one xs s d n)),
    get_elem?-copy_one xs s d n j (omega arith) (omega arith),
    get_elem?-copy_one xs s d n (s + (j - d)) (omega arith) (omega arith),
  )

  -- a copy of the range from `s` to the range from `d`, taken as a whole
  abbrev pub moved : List V → ℕ → ℕ → ℕ → List V
  moved xs s d n = splice xs d (slice xs s n)

  get_elem?-moved :
      (xs : List V) (s d n j : ℕ)
      → s + n ≤ length xs
      → d + n ≤ length xs
      → get_elem? (moved xs s d n) j
        ≡ (if leb d j && ltb j (d + n) then get_elem? xs (s + (j - d)) else get_elem? xs j)
  get_elem?-moved xs s d n j h k = ground (
    arith,
    get_elem?-splice xs d (slice xs s n) j,
    length-slice xs s n h,
    get_elem?-slice xs s n (j - d),
  )

  copy_up-moved :
      (xs : List V) (s d n : ℕ) → d < s → s + n ≤ length xs → copy_up xs s d 0 n ≡ moved xs s d n
  copy_up-moved xs s d n below fits =
      get_elem?-ext _ _ (length-copy_up xs s d 0 n ∙ sym (length-splice xs d _)) (λ j _. ground (
        arith,
        get_elem?-copy_up xs s d 0 n j below (omega arith),
        get_elem?-moved xs s d n j fits (omega arith),
      ))

  copy_down-moved :
      (xs : List V) (s d n : ℕ) → s < d → d + n ≤ length xs → copy_down xs s d n ≡ moved xs s d n
  copy_down-moved xs s d n below fits =
      get_elem?-ext _ _ (length-copy_down xs s d n ∙ sym (length-splice xs d _)) (λ j _. ground (
        arith,
        get_elem?-copy_down xs s d n j below fits,
        get_elem?-moved xs s d n j (omega arith) fits,
      ))

  pub move_values-moved :
      (xs : List V) (s d n : ℕ)
      → s ≢ d
      → s + n ≤ length xs
      → d + n ≤ length xs
      → CanMove (length xs) s d n
      → move_values xs s d n ≡ some (moved xs s d n)
  unfolding move_values
  move_values-moved xs s d n ne h k (inl (a, b)) = elim (dec_lt d s) [
    | yes down ↦ ground (arith, copy_up-moved xs s d n down h)
    | no not_down ↦ ground (arith, copy_down-moved xs s d n (omega arith) k)
  ]
  move_values-moved xs s d n ne h k (inr (inl (a, b))) =
      let width : s + n - s ≡ n = omega arith in
      rw (le→leb (s + n) d a, slice?_lem xs s (s + n) (omega arith) h, width)
        (clone_from_slice_lem xs d (length xs) (slice xs s n) (omega (arith, length-slice xs s n h))
          (omega arith))
  move_values-moved xs s d n ne h k (inr (inr (a, b, c))) =
      let all : n ≡ length (drop s xs) = omega (arith, length-drop s xs) in
      ground (
        arith,
        take_all n (drop s xs) all,
        clone_from_slice_lem xs d (d + n) (drop s xs) (omega arith) k,
      )

  pub move_values-none :
      (xs : List V) (s d n : ℕ)
      → s + n ≤ length xs
      → d + n ≤ length xs
      → ¬ CanMove (length xs) s d n
      → move_values xs s d n ≡ none
  unfolding move_values clone_from_slice slice?
  move_values-none xs s d n h k cannot =
      ground (arith, cannot, length-drop s xs, length-slice xs s n h)
