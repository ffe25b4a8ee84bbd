-- ===== src/Concrete/Division.antt =====
-- Divisions by zero.
use fuguex_core.Prelude.{
  ℕ, ◌≤◌, ◌≡◌, refl, ap, subst, Bool, true, false, List, ltb_no, ◌==◌, if◌then◌else◌, Result, ok,
  err, length,
}
use fuguex_core.Paths.{HookError, HookOutcome, HookAction}
use fuguex_core.Microx.{ViolationSource}
use fuguex_core.PCode
use fuguex_core.PCode.Bytes.{Operand, size}
use fuguex_core.Concrete.Hooks.{HookConcrete}
use fuguex_core.Concrete.Store.{Store, BoolBytes}
use fuguex_core.Concrete.Context.{Error, ConcreteContext}
use fuguex_core.Concrete.Lifting.{BitVecOps, lift_int2, expand_as}
use fuguex_core.Concrete.Values.{read_operand}
use fuguex_core.Concrete.Integers.{nonzero, int_div, int_sdiv, int_rem, int_srem}
use fuguex_core.Concrete.Quiet.{Watches, read_operand-Watches, not_less}

-- the divisor as the operation sees it: cast to the size of the dividend
abbrev pub divisor : {V : Type 0} → BitVecOps V → Operand → Operand → List ℕ → List ℕ → Bool → V
divisor bv lhs rhs lbuf rbuf signed =
    let u = bv.from_bytes lbuf signed in
    let v = bv.from_bytes rbuf signed in if size lhs == size rhs then v else bv.cast (bv.bits u) v

module _ {X P H N B R St T L Op V : Type 0} ⦃bools : BoolBytes⦄ (store : Store P)
    (hk : HookConcrete H P (HookError PCode.Error X) R L Op St) (operand_size : ℕ)
    (bv : BitVecOps V) where
  -- an operation on two values that its own function refuses
  lift_int2-refused :
      (op : V → V → Result (Error X) V) (e : Error X)
      (on_read on_read' : H → P → HookOutcome (HookAction R)) (dest lhs rhs : Operand)
      (lbuf rbuf : List ℕ) (signed : Bool) (c : ConcreteContext P H N B R St T)
      → Watches (λ h s. hk.hook_operand_read h s lhs) on_read
      → Watches (λ h s. hk.hook_operand_read h s rhs) on_read'
      → size lhs ≤ operand_size
      → size rhs ≤ operand_size
      → length lbuf ≡ size lhs
      → length rbuf ≡ size rhs
      → store.read c.state lhs ≡ ok lbuf
      → store.read c.state rhs ≡ ok rbuf
      → op (bv.from_bytes lbuf signed) (divisor bv lhs rhs lbuf rbuf signed) ≡ err e
      → lift_int2 store hk operand_size bv
          (expand_as store hk operand_size bv)
          op
          dest
          lhs
          rhs
          signed
          c
        ≡ (c, err e)
  unfolding lift_int2
  lift_int2-refused op e on_read on_read' dest lhs rhs lbuf rbuf signed c quiet quiet' fits fits' n
        n' shown shown' refuses =
      let whole = λ (n : ℕ) (bytes : List ℕ) (o : Operand).
        read_operand store hk o n ViolationSource.read c ≡ (c, ok bytes) in
      let read_lhs =
        subst (λ k. whole k lbuf lhs) n
          (read_operand-Watches store hk on_read lhs lbuf ViolationSource.read c quiet shown) in
      let read_rhs =
        subst (λ k. whole k rbuf rhs) n'
          (read_operand-Watches store hk on_read' rhs rbuf ViolationSource.read c quiet' shown') in
      rw
        (
          lift_int2,
          ltb_no operand_size (size lhs) (not_less operand_size (size lhs) fits),
          ltb_no operand_size (size rhs) (not_less operand_size (size rhs) fits'),
          read_lhs,
          read_rhs,
          refuses,
        )
        refl

  -- With hooks that only watch reads, and operands that fit into the buffer and are read, each of
  -- the four divisions refuses a divisor that is zero, and leaves the context as it was.
  pub division-zero :
      (on_read on_read' : H → P → HookOutcome (HookAction R)) (dest lhs rhs : Operand)
      (lbuf rbuf : List ℕ) (c : ConcreteContext P H N B R St T)
      → Watches (λ h s. hk.hook_operand_read h s lhs) on_read
      → Watches (λ h s. hk.hook_operand_read h s rhs) on_read'
      → size lhs ≤ operand_size
      → size rhs ≤ operand_size
      → length lbuf ≡ size lhs
      → length rbuf ≡ size rhs
      → store.read c.state lhs ≡ ok lbuf
      → store.read c.state rhs ≡ ok rbuf
      → bv.is_zero (divisor bv lhs rhs lbuf rbuf false) ≡ true
      → bv.is_zero (divisor bv lhs rhs lbuf rbuf true) ≡ true
      → (int_div store hk operand_size bv dest lhs rhs c ≡ (c, err Error.division_by_zero))
        × (int_sdiv store hk operand_size bv dest lhs rhs c ≡ (c, err Error.division_by_zero))
        × (int_rem store hk operand_size bv dest lhs rhs c ≡ (c, err Error.division_by_zero))
        × (int_srem store hk operand_size bv dest lhs rhs c ≡ (c, err Error.division_by_zero))
  unfolding int_div int_sdiv int_rem int_srem
  division-zero on_read on_read' dest lhs rhs lbuf rbuf c quiet quiet' fits fits' n n' shown shown'
        zero_unsigned zero_signed =
      let refused =
        λ (op : V → V → V) (signed : Bool)
            (z : bv.is_zero (divisor bv lhs rhs lbuf rbuf signed) ≡ true).
          lift_int2-refused (nonzero bv op) Error.division_by_zero on_read on_read' dest lhs rhs
            lbuf rbuf signed c quiet quiet' fits fits' n n' shown shown'
            (ap
              (λ b.
                if b
                then err Error.division_by_zero
                else ok (op (bv.from_bytes lbuf signed) (divisor bv lhs rhs lbuf rbuf signed)))
              z) in
      (
        refused bv.div false zero_unsigned,
        refused bv.div true zero_signed,
        refused bv.rem false zero_unsigned,
        refused bv.rem true zero_signed,
      )
