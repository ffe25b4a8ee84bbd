-- ===== src/Register/Values.antt =====
-- What a register holds after it is set.
use fuguex_core.Prelude.{
  ℕ, ◌+◌, ◌≤◌, ◌≡◌, sym, ap, ◌∙◌, subst, List, length, slice, splice, Result, ok, err, panic, arith,
  ok_inj, err_ok, Option-cases, inl, inr, length-slice, length-splice,
}
use fuguex_core.Address.{AddressOps}
use fuguex_core.Flat.Access.{Access}
use fuguex_core.Flat.Permissions.{Permissions}
use fuguex_core.Flat.Permissions.Bytes.{rights}
use fuguex_core.Flat.Permissions.Regions.{Allowed}
use fuguex_core.Flat.State
use fuguex_core.Flat.State.{FlatState, Error}
use fuguex_core.Flat.State.Valid.{
  IsValid, Written, written, Wrote, Checked, beyond, refused, allowed, view_values_mut-Checked,
}
use fuguex_core.Flat.State.Reads.{view_values-ok, slice-splice_self}
use fuguex_core.Register.{
  Register, RegisterState, view_values, view_values_mut, with_inner, get_register, set_register,
}

module _ ⦃ir : AddressOps⦄ where
  both-read : (p : Permissions) (b : ℕ) → Allowed p Access.read_write b → Allowed p Access.read b
  both-read p b a = elim (Option-cases (rights p b)) [
    | inl e ↦ ground (arith, e)
    | inr (r, e) ↦ ground (arith, e)
  ]

module _ {V : Type 0} ⦃ir : AddressOps⦄ where
  -- What the borrower of a mutable view left is what a view of the same range shows.
  pub view_values-view_values_mut :
      (s s' : FlatState V) (start size : ℕ) (write : List V → List V)
      → IsValid s
      → ((l : List V) → length l ≡ size → length (write l) ≡ size)
      → State.view_values_mut s start size write ≡ ok s'
      → (start + size ≤ State.len s)
        × (State.view_values s' start size ≡ ok (write (slice s.backing start size)))
  view_values-view_values_mut s s' start size write v keeps done =
      by_end _ (view_values_mut-Checked s start size write v) done
    where
      by_end :
          (out : Result Error (FlatState V))
          → Checked s start size Access.read_write
              (State.oob_read start size)
              (Written s start size (splice s.backing start (write (slice s.backing start size))))
              out
          → out ≡ ok s'
          → (start + size ≤ State.len s)
            × (State.view_values s' start size ≡ ok (write (slice s.backing start size)))
      by_end out (beyond h e) e' = absurd (err_ok (rw e at e'))
      by_end out (refused h k e) e' = absurd (err_ok (rw e at e'))
      by_end out (allowed h k (written t e w)) e' =
          let w' =
            subst (Wrote s start size (splice s.backing start (write (slice s.backing start size))))
              (ok_inj {E = Error} (rw e at e')) w in
          let full : length (write (slice s.backing start size)) ≡ size =
            keeps (slice s.backing start size) (length-slice s.backing start size h) in
          let same_len =
            ap length w'.values
            ∙ length-splice s.backing start (write (slice s.backing start size)) in
          (
            h,
            view_values-ok s' start size w'.valid (omega (arith, same_len, h))
                  (λ b l u. both-read s'.permissions b (rw w'.same_permissions (k b l u)))
                ∙ ap ok (
                    ap (λ l. slice l start size) w'.values
                    ∙ subst
                        (λ n.
                          slice (splice s.backing start (write (slice s.backing start size))) start
                            n
                          ≡ write (slice s.backing start size))
                        full
                        (slice-splice_self s.backing (write (slice s.backing start size)) start
                          (omega (arith, full, h)))),
          )

module _ {V O N : Type 0} where
  pub with_inner-ok :
      (s s' : RegisterState V O N) (out : Result Error (FlatState V))
      → with_inner s out ≡ ok s'
      → out ≡ ok s'.inner
  with_inner-ok s s' (ok inner) e =
      ap ok (ap (λ (t : RegisterState V O N). t.inner) (ok_inj {E = Error} e))
  with_inner-ok s s' (err x) e = absurd (err_ok e)
  with_inner-ok s s' panic e = cc

module _ {V O N : Type 0} where
  -- A write leaves everything but the values inside.
  pub with_inner-rest :
      (s s' : RegisterState V O N) (x : FlatState V) (out : Result Error (FlatState V))
      → with_inner s out ≡ ok s'
      → record s' { inner = x } ≡ record s { inner = x }
  with_inner-rest s s' x (ok inner) e =
      sym (ap (λ (t : RegisterState V O N). record t { inner = x }) (ok_inj {E = Error} e))
  with_inner-rest s s' x (err y) e = absurd (err_ok e)
  with_inner-rest s s' x panic e = cc

module _ {V O N T : Type 0} ⦃ir : AddressOps⦄ where
  -- On a register state with a valid flat state inside, a register that `set_register` set is read
  -- back by `get_register`, if the conversion into its values keeps their number and is undone by
  -- the conversion from them.
  pub get_register-set_register :
      (into_values : T → List V → List V) (from_values : List V → T) (s s' : RegisterState V O N)
      (r : Register) (value : T)
      → IsValid s.inner
      → ((l : List V) → length l ≡ r.size → length (into_values value l) ≡ r.size)
      → ((l : List V) → length l ≡ r.size → from_values (into_values value l) ≡ value)
      → set_register into_values s r value ≡ ok s'
      → get_register from_values s' r ≡ ok value
  unfolding get_register set_register view_values view_values_mut
  get_register-set_register into_values from_values s s' r value v fills undone done =
      let (inside, shown) =
        view_values-view_values_mut s.inner s'.inner r.offset r.size (into_values value) v fills
          (with_inner-ok s s' _ done) in
      rw shown (
        ap ok (
          undone (slice s.inner.backing r.offset r.size)
            (length-slice s.inner.backing r.offset r.size inside)))
