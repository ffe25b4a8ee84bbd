-- ===== src/PCode/Operands.antt =====
-- Operands that are written and read back, and addresses in them.
use fuguex_core.Prelude.{
  ℕ, ◌≡◌, refl, ap, ◌∙◌, subst, Bool, List, Result, ok, err, panic, map_err, ok_inj, err_ok, length,
  slice, length-slice,
}
use fuguex_core.Address.{AddressOps}
use fuguex_core.Flat.State
use fuguex_core.Flat.State.Valid
use fuguex_core.Chunked.Heap.{IntervalOps}
use fuguex_core.Paged.IntervalMap.{IntervalMapOps}
use fuguex_core.Paged.Segments.{Segment}
use fuguex_core.Paged.State as Paging
use fuguex_core.Paged.State.Resolve.{bind-ok}
use fuguex_core.Paged.State.Keeps.{map_err-ok}
use fuguex_core.Paged.State.Follows
use fuguex_core.Paged.State.Reads.{view_values-view_values_mut_mapped}
use fuguex_core.Register
use fuguex_core.Register.{RegisterState}
use fuguex_core.Register.Values.{view_values-view_values_mut, with_inner-ok}
use fuguex_core.Unique
use fuguex_core.Unique.{UniqueState}
use fuguex_core.PCode.Bytes.{Operand, size}
use fuguex_core.PCode.{
  memory, register, temporary, PCodeState, map_ok, with_operand_values, with_operand_values_mut,
  get_operand, set_operand,
}

pub map_ok-ok :
    {E A B : Type 0} (f : A → B) (m : Result E A) (b : B)
    → map_ok f m ≡ ok b
    → (a : A) × (m ≡ ok a) × (f a ≡ b)
map_ok-ok {E = E} f m b e = let (a, e₁, e₂) = bind-ok m _ b e in (a, e₁, ok_inj {E = E} e₂)

-- The mutable views of a flat state, with its result wrapped and its errors mapped.
pub unique-ok :
    {V : Type 0} (t : UniqueState V) (out : Result State.Error (State.FlatState V))
    → Unique.with_inner out ≡ ok t
    → out ≡ ok t.inner
unique-ok {V} t (ok x) e = ap ok (ap (λ (u : UniqueState V). u.inner) (ok_inj {E = State.Error} e))
unique-ok t (err x) e = absurd (err_ok e)
unique-ok t panic e = cc

module _ {V S N M R C : Type 0} ⦃ir : AddressOps⦄ (iv : IntervalOps S)
    (im : IntervalMapOps M (Segment V S N)) where
  pub record IsValid (s : PCodeState V M R C) : Type 0 where
    pub memory : Follows.IsValid im s.memory
    pub registers : Valid.IsValid s.registers.inner
    pub temporaries : Valid.IsValid s.temporaries.inner

  -- What a write through an operand may change.
  abbrev pub Untouched : Operand → PCodeState V M R C → PCodeState V M R C → Type 0
  Untouched (Operand.address value n) s s' =
      (s'.registers ≡ s.registers)
      × (s'.temporaries ≡ s.temporaries)
      × (s'.convention ≡ s.convention)
  Untouched (Operand.constant value n) s s' = ⊥
  Untouched (Operand.register offset n) s s' =
      (s'.memory ≡ s.memory) × (s'.temporaries ≡ s.temporaries) × (s'.convention ≡ s.convention)
  Untouched (Operand.variable offset n space) s s' =
      (s'.memory ≡ s.memory) × (s'.registers ≡ s.registers) × (s'.convention ≡ s.convention)

  -- What a read of an operand shows after a write through it.
  abbrev Rewritten :
      {U : Type 0}
      → Bool
      → (ℕ → V)
      → PCodeState V M R C
      → Operand
      → (List V → List V)
      → (List V → U)
      → PCodeState V M R C
      → Type 0
  Rewritten big from_byte s o write read s' =
      (old : List V) × (length old ≡ size o)
      × (with_operand_values iv im big from_byte s' o read ≡ ok (read (write old)))

  pub with_operand_values-mut :
      {U : Type 0} (big : Bool) (from_byte : ℕ → V) (s s' : PCodeState V M R C) (o : Operand)
      (write : List V → List V) (read : List V → U)
      → IsValid s
      → ((l : List V) → length l ≡ size o → length (write l) ≡ size o)
      → with_operand_values_mut iv im s o write ≡ ok s'
      → Rewritten big from_byte s o write read s'
  unfolding with_operand_values with_operand_values_mut Register.view_values
      Register.view_values_mut Unique.view_values Unique.view_values_mut
  with_operand_values-mut big from_byte s s' (Operand.address value n) write read v keeps e =
      let out = Paging.view_values_mut iv im s.memory value n write in
      let (m, e₁, e₂) = map_ok-ok _ (map_err memory out) s' e in
      let (old, l, shown) =
        view_values-view_values_mut_mapped iv im s.memory m value n write v.memory keeps
          (map_err-ok memory out m e₁) in
      subst (Rewritten big from_byte s (Operand.address value n) write read) e₂
        (old, l, rw shown refl)
  with_operand_values-mut big from_byte s s' (Operand.constant value n) write read v keeps e = cc
  with_operand_values-mut big from_byte s s' (Operand.register offset n) write read v keeps e =
      let out = Register.view_values_mut s.registers offset n write in
      let (r, e₁, e₂) = map_ok-ok _ (map_err register out) s' e in
      let (inside, shown) =
        view_values-view_values_mut s.registers.inner r.inner offset n write v.registers keeps
          (with_inner-ok s.registers r _ (map_err-ok register out r e₁)) in
      subst (Rewritten big from_byte s (Operand.register offset n) write read) e₂ (
        slice s.registers.inner.backing offset n,
        length-slice s.registers.inner.backing offset n inside,
        rw shown refl,
      )
  with_operand_values-mut big from_byte s s' (Operand.variable offset n space) write read v keeps
        e =
      let out = Unique.view_values_mut s.temporaries offset n write in
      let (t, e₁, e₂) = map_ok-ok _ (map_err temporary out) s' e in
      let (inside, shown) =
        view_values-view_values_mut s.temporaries.inner t.inner offset n write v.temporaries keeps
          (unique-ok t _ (map_err-ok temporary out t e₁)) in
      subst (Rewritten big from_byte s (Operand.variable offset n space) write read) e₂ (
        slice s.temporaries.inner.backing offset n,
        length-slice s.temporaries.inner.backing offset n inside,
        rw shown refl,
      )

  -- On a valid P-code state, what a successful `set_operand` set is what `get_operand` of the same
  -- operand returns, if the conversion into values keeps their number and is undone by the
  -- conversion from them.
  pub get_operand-set_operand :
      {T : Type 0} (big : Bool) (from_byte : ℕ → V) (into_values : T → List V → List V)
      (from_values : List V → T) (s s' : PCodeState V M R C) (o : Operand) (value : T)
      → IsValid s
      → ((l : List V) → length l ≡ size o → length (into_values value l) ≡ size o)
      → ((l : List V) → length l ≡ size o → from_values (into_values value l) ≡ value)
      → set_operand iv im into_values s o value ≡ ok s'
      → get_operand iv im big from_byte from_values s' o ≡ ok value
  unfolding set_operand get_operand
  get_operand-set_operand big from_byte into_values from_values s s' o value v fills undone e =
      let (old, l, shown) =
        with_operand_values-mut big from_byte s s' o (into_values value) from_values v fills e in
      shown ∙ ap ok (undone old l)

  with_operand_values_mut-Untouched :
      (s s' : PCodeState V M R C) (o : Operand) (write : List V → List V)
      → with_operand_values_mut iv im s o write ≡ ok s'
      → Untouched o s s'
  unfolding with_operand_values_mut
  with_operand_values_mut-Untouched s s' (Operand.address value n) write e =
      let (m, e₁, e₂) =
        map_ok-ok _ (map_err memory (Paging.view_values_mut iv im s.memory value n write)) s' e in
      subst (Untouched (Operand.address value n) s) e₂ (refl, refl, refl)
  with_operand_values_mut-Untouched s s' (Operand.constant value n) write e = cc
  with_operand_values_mut-Untouched s s' (Operand.register offset n) write e =
      let (r, e₁, e₂) =
        map_ok-ok _ (map_err register (Register.view_values_mut s.registers offset n write)) s' e in
      subst (Untouched (Operand.register offset n) s) e₂ (refl, refl, refl)
  with_operand_values_mut-Untouched s s' (Operand.variable offset n space) write e =
      let (t, e₁, e₂) =
        map_ok-ok _ (map_err temporary (Unique.view_values_mut s.temporaries offset n write)) s'
          e in
      subst (Untouched (Operand.variable offset n space) s) e₂ (refl, refl, refl)

  -- A successful `set_operand` changes only the part of the P-code state that its operand lies in:
  -- the memory, the registers or the temporaries. It never succeeds for a constant.
  pub set_operand-Untouched :
      {T : Type 0} (into_values : T → List V → List V) (s s' : PCodeState V M R C) (o : Operand)
      (value : T)
      → set_operand iv im into_values s o value ≡ ok s'
      → Untouched o s s'
  unfolding set_operand
  set_operand-Untouched into_values s s' o value e =
      with_operand_values_mut-Untouched s s' o (into_values value) e
