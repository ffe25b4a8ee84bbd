-- ===== src/Concrete/Tests.antt =====
-- The interpreter on a state of one byte, which every register stands for and no memory: the theorems
-- applied.
use fuguex_core.Prelude.{
  ℕ, ◌+◌, ◌*◌, ◌%◌, ◌^◌, ◌-◌, ◌/◌, ◌≡◌, refl, ap, sym, ok_inj, Bool, true, false, not, List, [],
  ◌∷◌, none, some, ltb, leb, ◌==◌, ==_iff, if◌then◌else◌, Result, ok, err, panic, length, err_ok,
  arith, inl, inr,
}
use fuguex_core.Address.{AddressOps, wrapping}
use fuguex_core.Paths.{HookError, HookOutcome, HookAction, from_action}
use fuguex_core.Register.{ReturnLocation}
use fuguex_core.Microx.{ViolationSource}
use fuguex_core.Intrinsics
use fuguex_core.Intrinsics.{KeyOps, IntrinsicAction, IntrinsicBehaviour, handle, register}
use fuguex_core.Machine.Types.{Branch, Outcome}
use fuguex_core.Paged.Segments
use fuguex_core.PCode
use fuguex_core.PCode.Bytes.{Operand}
use fuguex_core.PCode.LittleEndian.{little}
use fuguex_core.Concrete.Hooks.{HookConcrete, provided, operand_read, operand_write}
use fuguex_core.Concrete.Store.{Store, TranslatorOps, BoolBytes}
use fuguex_core.Concrete.Context.{Error, ConcreteContext, new}
use fuguex_core.Concrete.Values.{read_operand, write_operand}
use fuguex_core.Concrete.Branches.{call}
use fuguex_core.Concrete.Lifting.{BitVecOps}
use fuguex_core.Concrete.Integers.{int_div, int_sdiv, int_rem, int_srem}
use fuguex_core.Concrete.Operations.{copy, addr_val, lift, enter}
use fuguex_core.Concrete.Quiet.{any_wants, copy-Watches}
use fuguex_core.Concrete.Flips.{flip_answer}
use fuguex_core.Concrete.Skips.{skip_answer, call-skips}
use fuguex_core.Concrete.Division.{division-zero}
use fuguex_core.Concrete.Refused.{zero_hook, read_operand-zero_hook, write_operand-zero_hook}
use fuguex_core.Concrete.Offsets.{addr_val_lem}
use fuguex_core.Concrete.Cache.{lift-lifted}
use fuguex_core.Concrete.Registered.{handle-register}

abbrev pub unmapped : {A : Type 0} → ℕ → ℕ → Result PCode.Error A
unmapped value n = err (PCode.memory (Segments.unmapped_address value n))

abbrev pub read_byte : ℕ → Operand → Result PCode.Error (List ℕ)
read_byte s (Operand.address value n) = unmapped value n
read_byte s (Operand.constant value n) = ok (value ∷ [])
read_byte s (Operand.register offset n) = ok (s ∷ [])
read_byte s (Operand.variable offset n space) = ok (s ∷ [])

abbrev pub write_register : List ℕ → Result PCode.Error ℕ
write_register [] = panic
write_register (x ∷ []) = ok x
write_register (x ∷ y ∷ bs) = panic

abbrev pub write_byte : ℕ → Operand → List ℕ → Result PCode.Error ℕ
write_byte s (Operand.address value n) bs = unmapped value n
write_byte s (Operand.constant value n) bs = panic
write_byte s (Operand.register offset n) bs = write_register bs
write_byte s (Operand.variable offset n space) bs = write_register bs

written : (s' : ℕ) (bs : List ℕ) → write_register bs ≡ ok s' → s' ∷ [] ≡ bs
written s' [] e = cc
written s' (x ∷ []) e = ap (λ y. y ∷ []) (sym (ok_inj e))
written s' (x ∷ y ∷ bs) e = cc

pub read_byte-write_byte :
    (s s' : ℕ) (o : Operand) (bs : List ℕ) → write_byte s o bs ≡ ok s' → read_byte s' o ≡ ok bs
read_byte-write_byte s s' (Operand.address value n) bs e = absurd (err_ok e)
read_byte-write_byte s s' (Operand.constant value n) bs e = cc
read_byte-write_byte s s' (Operand.register offset n) bs e = ap ok (written s' bs e)
read_byte-write_byte s s' (Operand.variable offset n space) bs e = ap ok (written s' bs e)

abbrev pub truth : Bool → ℕ
truth b = if b then 1 else 0

abbrev pub one_byte : Store ℕ
one_byte = record {
  read = read_byte;
  write = write_byte;
  set_operand = λ s o b. write_byte s o (truth b ∷ []);
  get_address = λ s o. ok s;
  set_address = λ s o a. ok s;
  view_values_from = λ s a. ok (s ∷ []);
  fork = λ s. some s;
  restore = λ s other. some other;
  program_counter = λ s. Operand.register 0 1;
  stack_pointer = λ s. Operand.register 1 1;
  return_location = λ s. ReturnLocation.register (Operand.register 0 1);
  memory_space = λ s. 0;
  extra_pop = λ s. 0;
  IsValid = λ s. Unit {0};
  read-write = λ s s' o bs v e. read_byte-write_byte s s' o bs e;
}

instance abbrev pub addresses : AddressOps
addresses = wrapping

instance abbrev pub bools : BoolBytes
bools = record {
  bool_from_bytes = λ bs. elim bs [ [] ↦ false | b ∷ _ ↦ not (b == 0) ];
  bool_into_bytes = λ b bs. truth b ∷ [];
}

instance abbrev pub keys : KeyOps ℕ
keys = record { same_key = λ m n. m == n; same_key_refl = λ n. (==_iff n n).1 refl }

abbrev Context : Type 0 → Type 0
Context H = ConcreteContext ℕ H ℕ ℕ ℕ ℕ ℕ

abbrev Hooks : Type 0 → Type 0
Hooks H = HookConcrete H ℕ (HookError PCode.Error ℕ) ℕ ℕ ℕ ℕ

-- a context with the given hooks
abbrev context : {H : Type 0} → List H → Context H
context hooks = record (new 0 1) { hooks = hooks }

abbrev first : Operand
first = Operand.register 0 1

abbrev passing : {H : Type 0} → H → ℕ → HookOutcome (HookAction ℕ)
passing h s = from_action HookAction.pass

unfoldable watching : Hooks ℕ
unfolding provided
watching = provided

-- hooks that flip if they are `true`
unfoldable flipping : Hooks Bool
unfolding provided
flipping = record provided {
  hook_cbranch = λ h s destination condition. ((h, s), ok (flip_answer (λ b. b) h s));
}

abbrev mirror : TranslatorOps ℕ ℕ ℕ
mirror = record {
  context_database = 0;
  lift_pcode = λ t address view. (t, ok (length view));
  constant_space_id = 1;
  register_space_id = 2;
  word_size = λ space. 1;
}

copy-Watches_example :
    (copy one_byte watching 8 (Operand.constant 7 1) first (context (3 ∷ []))
      ≡ (record (context (3 ∷ [])) { state = 7 }, ok (Outcome.branch Branch.next)))
    × (one_byte.read 7 first ≡ ok (7 ∷ []))
unfolding watching provided operand_read operand_write new
copy-Watches_example =
    copy-Watches one_byte watching passing passing 8 (Operand.constant 7 1) first (7 ∷ []) 7
      (context (3 ∷ [])) (λ h s. refl) (λ h s. refl) tt (omega arith) refl refl refl

-- hooks that skip calls if they are `true`
unfoldable skipping : Hooks Bool
unfolding provided
skipping = record provided {
  hook_call = λ h s destination. ((h, s), ok (skip_answer (λ b. b) h s));
}

-- The call of 64 is skipped, and goes on at 1, the address in the register of the return location.
call-skips_example :
    call one_byte skipping mirror (Operand.address 64 8) (context (false ∷ true ∷ []))
    ≡ (context (false ∷ true ∷ []), ok (Outcome.branch (Branch.global 1)))
unfolding skipping provided new any_wants
call-skips_example =
    call-skips one_byte skipping mirror (λ b. b) 64 8 1 first (context (false ∷ true ∷ []))
      (λ h s. refl) refl refl refl

abbrev pub numbers : BitVecOps ℕ
numbers = record {
  from_bytes = λ bs signed. elim bs [ [] ↦ 0 | b ∷ _ ↦ b ];
  into_bytes = λ n v. v ∷ [];
  bits = λ v. 8;
  cast = λ n v. v;
  signed = λ v. v;
  is_zero = λ v. v == 0;
  eq = λ u v. u == v;
  less = λ u v. ltb u v;
  less_eq = λ u v. leb u v;
  carry = λ u v. ltb 255 (u + v);
  signed_carry = λ u v. false;
  signed_borrow = λ u v. false;
  add = λ u v. (u + v) % 256;
  sub = λ u v. (u + 256 - v) % 256;
  mul = λ u v. (u * v) % 256;
  div = λ u v. u / v;
  rem = λ u v. u % v;
  xor = λ u v. u;
  and_bits = λ u v. u;
  or_bits = λ u v. u;
  shift_left = λ u v. (u * 2 ^ v) % 256;
  shift_right = λ u v. u / 2 ^ v;
  neg = λ u. (256 - u) % 256;
  not_bits = λ u. 255 - u;
  count_ones = λ u. u;
  to_usize = λ u. some u;
}

division-zero_example :
    (int_div one_byte watching 8 numbers first
        (Operand.constant 7 1)
        (Operand.constant 0 1)
        (context (3 ∷ []))
      ≡ (context (3 ∷ []), err Error.division_by_zero))
    × (int_sdiv one_byte watching 8 numbers first
          (Operand.constant 7 1)
          (Operand.constant 0 1)
          (context (3 ∷ []))
        ≡ (context (3 ∷ []), err Error.division_by_zero))
    × (int_rem one_byte watching 8 numbers first
          (Operand.constant 7 1)
          (Operand.constant 0 1)
          (context (3 ∷ []))
        ≡ (context (3 ∷ []), err Error.division_by_zero))
    × (int_srem one_byte watching 8 numbers first
          (Operand.constant 7 1)
          (Operand.constant 0 1)
          (context (3 ∷ []))
        ≡ (context (3 ∷ []), err Error.division_by_zero))
unfolding watching provided operand_read
division-zero_example =
    division-zero one_byte watching 8 numbers passing passing first (Operand.constant 7 1)
      (Operand.constant 0 1) (7 ∷ []) (0 ∷ []) (context (3 ∷ [])) (λ h s. refl) (λ h s. refl)
      (omega arith) (omega arith) refl refl refl refl refl refl

read_operand-zero_hook_example :
    read_operand {X = ℕ} one_byte
      (zero_hook {L = ℕ} {Op = ℕ})
      (Operand.address 64 2)
      2
      ViolationSource.read
      (context (tt ∷ tt ∷ []))
    ≡ (context (tt ∷ tt ∷ []), ok (0 ∷ 0 ∷ []))
unfolding new Segments.access
read_operand-zero_hook_example =
    read_operand-zero_hook ℕ ℕ one_byte (Operand.address 64 2) 2 64 (Segments.unmapped_address 64 2)
      (tt ∷ []) (context (tt ∷ tt ∷ [])) refl refl refl

write_operand-zero_hook_example :
    write_operand {X = ℕ} one_byte
      (zero_hook {L = ℕ} {Op = ℕ})
      (Operand.address 64 2)
      (1 ∷ 2 ∷ [])
      (context (tt ∷ []))
    ≡ (context (tt ∷ []), ok tt)
unfolding new Segments.access
write_operand-zero_hook_example =
    write_operand-zero_hook ℕ ℕ one_byte (Operand.address 64 2) 2 64 (1 ∷ 2 ∷ [])
      (Segments.unmapped_address 64 2) [] (context (tt ∷ [])) refl refl refl

addr_val_lem_example : addr_val (2 ^ 31 + 3) 4 2 ≡ 6
addr_val_lem_example = addr_val_lem (2 ^ 31 + 3) 4 2 (inr (inr (inl refl)))

-- The first lookup lifted the one byte 1 at 64; the register then holds 9.
lift-lifted_example :
    lift one_byte watching 8 mirror 64 (record (context (3 ∷ [])) {
      translator_cache = λ a. if a == 64 then some 1 else none;
      state = 9;
    })
    ≡ enter one_byte watching 8 64 1 (record (context (3 ∷ [])) {
      translator_cache = λ a. if a == 64 then some 1 else none;
      state = 9;
    })
unfolding new
lift-lifted_example =
    lift-lifted one_byte watching 8 mirror 64 1 (context (3 ∷ []))
      (record (context (3 ∷ [])) { translator_cache = λ a. if a == 64 then some 1 else none }) 9
      refl

-- an intrinsic `B` that is named by the state it is initialised on, and adds the inputs it is given
abbrev adding : IntrinsicBehaviour ℕ ℕ ℕ ℕ ℕ ℕ (Intrinsics.Error ℕ ℕ)
adding = record {
  intrinsic = λ b. b;
  initialise = λ b s. (s, ok tt);
  handle_intrinsic = λ b s inputs output. ((b, s + length inputs), ok (IntrinsicAction.branch b));
}

handle-register_example :
    ((handle adding (register adding Intrinsics.new 0 5).0 5 40 (1 ∷ 1 ∷ []) none).1
      ≡ ok (IntrinsicAction.branch 5))
    × ((handle adding (register adding Intrinsics.new 0 5).0 5 40 (1 ∷ 1 ∷ []) none).0.1 ≡ 42)
handle-register_example = handle-register adding Intrinsics.new 0 5 5 40 (1 ∷ 1 ∷ []) none refl
