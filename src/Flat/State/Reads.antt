-- ===== src/Flat/State/Reads.antt =====
-- What a read sees after a write.
use fuguex_core.Prelude.{
  ℕ, ◌+◌, ◌-◌, ◌≤◌, ◌<◌, ◌≡◌, refl, sym, ap, ◌∙◌, ◌⊎◌, inl, inr, List, [], ◌∷◌, length, slice,
  splice, length-slice, length-splice, get_elem?-ext, get_elem?-splice, get_elem?-slice, Result, ok,
  arith, ok_inj, err_ok, subst, true, false, Bool-cases, Option-cases, some, slice?,
  clone_from_slice, leb, leb→le, le→leb, some_inj, none-some, slice?_lem, clone_from_slice_lem,
}
use fuguex_core.Address.{AddressOps}
use fuguex_core.Flat.Access.{Access}
use fuguex_core.Flat.Permissions.Regions.{AllAllowed}
use fuguex_core.Flat.State.{
  FlatState, Error, len, out_of_bounds, get_values, view_values, set_values,
}
use fuguex_core.Flat.Permissions.{all_readable}
use fuguex_core.Flat.State.Valid.{
  IsValid, Wrote, Written, written, Checked, beyond, refused, allowed, set_values-Checked,
  view_values-Checked,
}

module _ {V : Type 0} where
  pub slice-splice_self :
      (xs ys : List V) (i : ℕ)
      → i + length ys ≤ length xs
      → slice (splice xs i ys) i (length ys) ≡ ys
  slice-splice_self xs ys i h =
      let same : length (slice (splice xs i ys) i (length ys)) ≡ length ys =
        length-slice (splice xs i ys) i (length ys) (omega (arith, length-splice xs i ys)) in
      get_elem?-ext _ _ same (λ j p.
        let k : j < length ys = omega (arith, same) in
        let back : i + j - i ≡ j = omega arith in
        get_elem?-slice (splice xs i ys) i (length ys) j k
        ∙ ground (arith, get_elem?-splice xs i ys (i + j), back))

  slice-splice_apart :
      (xs ys : List V) (i b n : ℕ)
      → b + n ≤ length xs
      → (b + n ≤ i) ⊎ (i + length ys ≤ b)
      → slice (splice xs i ys) b n ≡ slice xs b n
  slice-splice_apart xs ys i b n h apart =
      let l = length-slice xs b n h in
      let l' : length (slice (splice xs i ys) b n) ≡ n =
        length-slice (splice xs i ys) b n (omega (arith, length-splice xs i ys)) in
      get_elem?-ext _ _ (l' ∙ sym l) (λ j p.
        let k : j < n = omega (arith, l') in
        ground (
          arith,
          get_elem?-slice (splice xs i ys) b n j k,
          get_elem?-slice xs b n j k,
          get_elem?-splice xs i ys (b + j),
        ))

module _ {V : Type 0} ⦃ir : AddressOps⦄ where
  -- from a successful `set_values`: the range, the right to write, and what is left
  set_values-ok :
      (s s' : FlatState V) (start : ℕ) (values : List V)
      → IsValid s
      → set_values s start values ≡ ok s'
      → (start + length values ≤ len s)
        × AllAllowed s.permissions Access.write start (length values)
        × Wrote s start (length values) (splice s.backing start values) s'
  set_values-ok s s' start values v e = by_end _ (set_values-Checked s start values v) e
    where
      by_end :
          (out : Result Error (FlatState V))
          → Checked s start
              (length values)
              Access.write
              (Error.oob_write start (length values))
              (Written s start (length values) (splice s.backing start values))
              out
          → out ≡ ok s'
          → (start + length values ≤ len s)
            × AllAllowed s.permissions Access.write start (length values)
            × Wrote s start (length values) (splice s.backing start values) s'
      by_end out (beyond h e₁) e₂ = absurd (err_ok (rw e₁ at e₂))
      by_end out (refused h k e₁) e₂ = absurd (err_ok (rw e₁ at e₂))
      by_end out (allowed h k (written t e₁ w)) e₂ = (
        h,
        k,
        subst (Wrote s start (length values) (splice s.backing start values))
            (ok_inj {E = Error} (rw e₁ at e₂)) w,
      )

  pub view_values-ok :
      (s : FlatState V) (start size : ℕ)
      → IsValid s
      → start + size ≤ len s
      → AllAllowed s.permissions Access.read start size
      → view_values s start size ≡ ok (slice s.backing start size)
  view_values-ok s start size v h k = by_end _ (view_values-Checked s start size v)
    where
      by_end :
          (out : Result Error (List V))
          → Checked s start size Access.read
              (Error.oob_read start size)
              (λ o. o ≡ ok (slice s.backing start size))
              out
          → out ≡ ok (slice s.backing start size)
      by_end out (beyond h' e) = absurd (h' h)
      by_end out (refused h' k' e) = absurd (k' k)
      by_end out (allowed h' k' e) = e

  -- On a valid state, what a successful `set_values` stored is what `view_values` then shows,
  -- where the range may be read.
  pub view_values-set_values :
      (s s' : FlatState V) (start : ℕ) (values : List V)
      → IsValid s
      → AllAllowed s.permissions Access.read start (length values)
      → set_values s start values ≡ ok s'
      → view_values s' start (length values) ≡ ok values
  view_values-set_values s s' start values v right e =
      let (h, k, w) = set_values-ok s s' start values v e in
      view_values-ok s' start (length values) w.valid
        (omega (arith, ap length w.values, length-splice s.backing start values))
        (rw w.same_permissions right)
      ∙ ap ok (
          ap (λ l. slice l start (length values)) w.values
          ∙ slice-splice_self s.backing values start h)

  -- On a valid state, after a successful `set_values`, `view_values` of a range within the values,
  -- apart from the written one, that may be read shows what it showed before.
  pub view_values-set_values_apart :
      (s s' : FlatState V) (start b n : ℕ) (values : List V)
      → IsValid s
      → b + n ≤ len s
      → (b + n ≤ start) ⊎ (start + length values ≤ b)
      → AllAllowed s.permissions Access.read b n
      → set_values s start values ≡ ok s'
      → view_values s' b n ≡ view_values s b n
  view_values-set_values_apart s s' start b n values v inside apart right e =
      let (h, k, w) = set_values-ok s s' start values v e in
      view_values-ok s' b n w.valid
        (omega (arith, ap length w.values, length-splice s.backing start values))
        (rw w.same_permissions right)
      ∙ ap ok (
          ap (λ l. slice l b n) w.values
          ∙ slice-splice_apart s.backing values start b n inside apart)
      ∙ sym (view_values-ok s b n v inside right)

module _ {V : Type 0} where
  slice?-length :
      (xs : List V) (i n : ℕ) (ys : List V) → slice? xs i (i + n) ≡ some ys → length ys ≡ n
  unfolding slice?
  slice?-length xs i n ys e = elim (Bool-cases (leb (i + n) (length xs))) [
    | inl h ↦
        let inside = leb→le (i + n) (length xs) h in
        let width : i + n - i ≡ n = omega arith in
        let same : slice xs i (i + n - i) ≡ ys =
          some_inj (sym (slice?_lem xs i (i + n) (omega arith) inside) ∙ e) in
        ap length (sym same) ∙ (rw width (length-slice xs i n inside))
    | inr h ↦ absurd (none-some (rw (le→leb i (i + n) (omega arith), h) at e))
  ]

  splice_whole : (xs ys : List V) → length ys ≡ length xs → splice xs 0 ys ≡ ys
  splice_whole [] [] e = refl
  splice_whole [] (y ∷ ys) e = absurd (omega arith)
  splice_whole (x ∷ xs) [] e = absurd (omega arith)
  splice_whole (x ∷ xs) (y ∷ ys) e = ap (◌∷◌ y) (splice_whole xs ys (omega arith))

  fill : (xs ys : List V) → length ys ≡ length xs → clone_from_slice xs 0 (length xs) ys ≡ some ys
  fill xs ys e =
      clone_from_slice_lem xs 0 (length xs) ys (omega arith) (omega arith)
      ∙ ap some (splice_whole xs ys e)

module _ {V : Type 0} ⦃ir : AddressOps⦄ where
  -- On every state, `get_values` fills its buffer with what `view_values` shows for a range of the
  -- buffer's length, and fails or panics where that does.
  pub get_values-view_values :
      (s : FlatState V) (start : ℕ) (values : List V)
      → get_values s start values ≡ view_values s start (length values)
  unfolding get_values view_values
  get_values-view_values s start values =
      elim (Bool-cases (out_of_bounds (len s) start (length values))) [
        | inl e ↦ rw e refl
        | inr e ↦ elim (Option-cases (all_readable s.permissions start (length values))) [
          | inl r ↦ rw (e, r) refl
          | inr (false, r) ↦ rw (e, r) refl
          | inr (true, r) ↦ elim (Option-cases (slice? s.backing start (start + length values))) [
            | inl t ↦ rw (e, r, t) refl
            | inr (source, t) ↦
                rw
                  (
                    e,
                    r,
                    t,
                    fill values source (slice?-length s.backing start (length values) source t),
                  )
                  refl
          ]
        ]
      ]
