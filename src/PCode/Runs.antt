-- ===== src/PCode/Runs.antt =====
-- Writes through operands after `fork`, and what `restore` makes of their result.
use fuguex_core.Prelude.{
  ◌≡◌, ◌⊎◌, refl, ap, ◌∙◌, subst, List, [], ◌∷◌, Option, none, some, and_then, Result, ok, err,
  panic, map_err, some_inj, none-some, inl, inr, Option-cases, length,
}
use fuguex_core.Address.{AddressOps}
use fuguex_core.Flat.State.Restore.{restore-Tracks}
use fuguex_core.Flat.State.Runs as Flats
use fuguex_core.Chunked.Heap.{IntervalOps}
use fuguex_core.Paged.IntervalMap.{IntervalMapOps}
use fuguex_core.Paged.Segments.{Segment, NameOps}
use fuguex_core.Paged.State as Paging
use fuguex_core.Paged.State.Keeps.{
  map_err-ok, flat_view-Kept, view_values_mut-Kept, fork-Kept, restore-Kept,
}
use fuguex_core.Paged.State.Follows
use fuguex_core.Paged.State.Follows.{Kept-fork}
use fuguex_core.Register
use fuguex_core.Register.Values.{with_inner-ok, with_inner-rest}
use fuguex_core.Unique
use fuguex_core.PCode.Bytes.{Operand}
use fuguex_core.PCode.{
  Error, memory, register, temporary, PCodeState, with_operand_values_mut, fork, restore,
}
use fuguex_core.PCode.Operands.{IsValid, map_ok-ok, unique-ok}

-- A write through an operand: the operand, and what the borrower makes of its values.
pub record Write (V : Type 0) : Type 0 where
  pub operand : Operand
  pub write : List V → List V
  pub keeps : (l : List V) → length (write l) ≡ length l

module _ {V M R C : Type 0} where
  -- A write that returns an error leaves the state as it was; `none` is a panic.
  abbrev pub after_write :
      PCodeState V M R C → Result Error (PCodeState V M R C) → Option (PCodeState V M R C)
  after_write s (ok s') = some s'
  after_write s (err e) = some s
  after_write s panic = none

  after_write-cases :
      (s s' : PCodeState V M R C) (out : Result Error (PCodeState V M R C))
      → after_write s out ≡ some s'
      → (s ≡ s') ⊎ (out ≡ ok s')
  after_write-cases s s' (ok t) e = inr (ap ok (some_inj e))
  after_write-cases s s' (err x) e = inl (some_inj e)
  after_write-cases s s' panic e = absurd (none-some e)

module _ {V S N M R C : Type 0} ⦃ir : AddressOps⦄ (iv : IntervalOps S)
    (im : IntervalMapOps M (Segment V S N)) where
  unfoldable pub run : PCodeState V M R C → List (Write V) → Option (PCodeState V M R C)
  run s [] = some s
  run s (w ∷ ws) =
      and_then (after_write s (with_operand_values_mut iv im s w.operand w.write)) (λ s'. run s' ws)

  record Kept (base s : PCodeState V M R C) : Type 0 where
    memory : Follows.Kept im base.memory s.memory
    registers : Flats.Kept base.registers.inner s.registers.inner
    temporaries : Flats.Kept base.temporaries.inner s.temporaries.inner
    rest : record s.registers { inner = base.registers.inner } ≡ base.registers
    convention : s.convention ≡ base.convention

  write-Kept :
      (base s s' : PCodeState V M R C) (o : Operand) (write : List V → List V)
      → ((l : List V) → length (write l) ≡ length l)
      → Kept base s
      → with_operand_values_mut iv im s o write ≡ ok s'
      → Kept base s'
  unfolding with_operand_values_mut Register.view_values_mut Unique.view_values_mut
  write-Kept base s s' (Operand.address value n) write same k e =
      let out = Paging.view_values_mut iv im s.memory value n write in
      let (m, e₁, e₂) = map_ok-ok _ (map_err memory out) s' e in
      subst (Kept base) e₂ (record {
        memory =
            view_values_mut-Kept iv im base.memory s.memory m value n write same k.memory
              (map_err-ok memory out m e₁);
        registers = k.registers;
        temporaries = k.temporaries;
        rest = k.rest;
        convention = k.convention;
      })
  write-Kept base s s' (Operand.constant value n) write same k e = absurd (cc)
  write-Kept base s s' (Operand.register offset n) write same k e =
      let out = Register.view_values_mut s.registers offset n write in
      let (r, e₁, e₂) = map_ok-ok _ (map_err register out) s' e in
      subst (Kept base) e₂ (record {
        memory = k.memory;
        registers =
            flat_view-Kept base.registers.inner s.registers.inner r.inner offset n write k.registers
              same (with_inner-ok s.registers r _ (map_err-ok register out r e₁));
        temporaries = k.temporaries;
        rest =
            with_inner-rest s.registers r base.registers.inner _ (map_err-ok register out r e₁)
            ∙ k.rest;
        convention = k.convention;
      })
  write-Kept base s s' (Operand.variable offset n space) write same k e =
      let out = Unique.view_values_mut s.temporaries offset n write in
      let (t, e₁, e₂) = map_ok-ok _ (map_err temporary out) s' e in
      subst (Kept base) e₂ (record {
        memory = k.memory;
        registers = k.registers;
        temporaries =
            flat_view-Kept base.temporaries.inner s.temporaries.inner t.inner offset n write
              k.temporaries same (unique-ok t _ (map_err-ok temporary out t e₁));
        rest = k.rest;
        convention = k.convention;
      })

  run-Kept :
      (base s s' : PCodeState V M R C) (ws : List (Write V))
      → Kept base s
      → run s ws ≡ some s'
      → Kept base s'
  unfolding run
  run-Kept base s s' [] k e = subst (Kept base) (some_inj e) k
  run-Kept base s s' (w ∷ ws) k e =
      elim (Option-cases (after_write s (with_operand_values_mut iv im s w.operand w.write))) [
        | inl stop ↦ absurd (none-some (rw stop at e))
        | inr (t, c) ↦
            let k' : Kept base t = elim (after_write-cases s t _ c) [
              | inl same ↦ subst (Kept base) same k
              | inr done ↦ write-Kept base s t w.operand w.write w.keeps k done
            ] in
            run-Kept base t s' ws k' (rw c at e)
      ]

  -- Fork a valid P-code state, write through any operands of the fork with no panic, and restore
  -- it from the original: the restoring does not panic, and gives back the original's registers,
  -- temporaries and convention, its memory's segments, in order and with their contents, and its
  -- memory's inner state.
  pub restore-run-fork_parts :
      ⦃names : NameOps N⦄ (base s : PCodeState V M R C) (ws : List (Write V))
      → IsValid iv im base
      → and_then (fork im base) (λ forked. run forked ws) ≡ some s
      → (t : PCodeState V M R C) × (restore im s base ≡ some t)
        × (t.registers ≡ base.registers)
        × (t.temporaries ≡ base.temporaries)
        × (t.convention ≡ base.convention)
        × (t.memory.inner ≡ base.memory.inner)
        × (im.iter t.memory.segments ≡ im.iter base.memory.segments)
  unfolding fork restore Register.fork Register.restore Unique.fork Unique.restore
  restore-run-fork_parts base s ws v e =
      let (m, forked, k) = fork-Kept im base.memory v.memory in
      let start : PCodeState V M R C = record base {
        memory = m;
        registers = Register.fork base.registers;
        temporaries = Unique.fork base.temporaries;
      } in
      let k =
        run-Kept base start s ws
          (record {
            memory = k;
            registers = Kept-fork base.registers.inner v.registers;
            temporaries = Kept-fork base.temporaries.inner v.temporaries;
            rest = refl;
            convention = refl;
          })
          (rw forked at e) in
      let (m', restored, inner, segments) = restore-Kept im base.memory s.memory k.memory in
      (
        record {
          memory = m';
          registers = record s.registers { inner = base.registers.inner };
          temporaries = record { inner = base.temporaries.inner };
          convention = s.convention;
        },
        rw
            (
              restore-Tracks base.registers.inner s.registers.inner k.registers.valid
                  k.registers.tracks,
              restore-Tracks base.temporaries.inner s.temporaries.inner k.temporaries.valid
                  k.temporaries.tracks,
              restored,
            )
            refl,
        k.rest,
        refl,
        k.convention,
        inner,
        segments,
      )
