-- ===== src/Flat/Permissions/Shapes.antt =====
-- The size and the space of `Permissions` under its operations.
use fuguex_core.Prelude.{
  ℕ, zero, suc, ◌+◌, ◌≡◌, sym, ap, none-some, ◌∙◌, some, length, some_inj, Option-cases, inl, inr,
  length-set, get_elem?,
}
use fuguex_core.Address.{AddressOps}
use fuguex_core.Flat.Access.{Access}
use fuguex_core.Flat.Permissions.{Permissions, word_index, rounds}
use fuguex_core.Flat.Permissions

-- Permissions of the same size and space.
pub record SameShape (p p' : Permissions) : Type 0 where
  pub words : length p'.bitsmap ≡ length p.bitsmap
  pub space : p'.space ≡ p.space

module _ ⦃ir : AddressOps⦄ where
  set_byte-SameShape :
      (p : Permissions) (a : ℕ) (access : Access) {p' : Permissions}
      → Permissions.set_byte p a access ≡ some p'
      → SameShape p p'
  unfolding Permissions.set_byte
  set_byte-SameShape p a access done = elim (Option-cases (get_elem? p.bitsmap (word_index a))) [
    | inl e ↦ cc
    | inr (w, e) ↦
        let e' = some_inj (rw e at done) in
        record {
          words = sym (ap (λ (q : Permissions). length q.bitsmap) e') ∙ length-set p.bitsmap _ _;
          space = sym (ap (λ (q : Permissions). q.space) e');
        }
  ]

  clear_byte-SameShape :
      (p : Permissions) (a : ℕ) (access : Access) {p' : Permissions}
      → Permissions.clear_byte p a access ≡ some p'
      → SameShape p p'
  unfolding Permissions.clear_byte
  clear_byte-SameShape p a access done = elim (Option-cases (get_elem? p.bitsmap (word_index a))) [
    | inl e ↦ cc
    | inr (w, e) ↦
        let e' = some_inj (rw e at done) in
        record {
          words = sym (ap (λ (q : Permissions). length q.bitsmap) e') ∙ length-set p.bitsmap _ _;
          space = sym (ap (λ (q : Permissions). q.space) e');
        }
  ]

  pub set_from-SameShape :
      (p : Permissions) (a n : ℕ) (access : Access) {p' : Permissions}
      → Permissions.set_from p a n access ≡ some p'
      → SameShape p p'
  unfolding Permissions.set_from
  set_from-SameShape p a zero access done =
      let e = some_inj done in
      record {
        words = ap (λ (q : Permissions). length q.bitsmap) (sym e);
        space = ap (λ (q : Permissions). q.space) (sym e);
      }
  set_from-SameShape p a (suc n) access done =
      elim (Option-cases (Permissions.set_byte p (ir.new p.space a) access)) [
        | inl e ↦ absurd (none-some (rw e at done))
        | inr (q, e) ↦
            let one = set_byte-SameShape p (ir.new p.space a) access e in
            let rest = set_from-SameShape q (a + 1) n access (rw e at done) in
            record { words = rest.words ∙ one.words; space = rest.space ∙ one.space }
      ]

  pub clear_from-SameShape :
      (p : Permissions) (a n : ℕ) (access : Access) {p' : Permissions}
      → Permissions.clear_from p a n access ≡ some p'
      → SameShape p p'
  unfolding Permissions.clear_from
  clear_from-SameShape p a zero access done =
      let e = some_inj done in
      record {
        words = ap (λ (q : Permissions). length q.bitsmap) (sym e);
        space = ap (λ (q : Permissions). q.space) (sym e);
      }
  clear_from-SameShape p a (suc n) access done =
      elim (Option-cases (Permissions.clear_byte p (ir.new p.space a) access)) [
        | inl e ↦ absurd (none-some (rw e at done))
        | inr (q, e) ↦
            let one = clear_byte-SameShape p (ir.new p.space a) access e in
            let rest = clear_from-SameShape q (a + 1) n access (rw e at done) in
            record { words = rest.words ∙ one.words; space = rest.space ∙ one.space }
      ]
