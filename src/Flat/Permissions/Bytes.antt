-- ===== src/Flat/Permissions/Bytes.antt =====
-- What one byte's two bits say, and how `is_marked`, `set_byte` and `clear_byte` read and change
-- them.
use fuguex_core.Prelude.{
  ℕ, suc, ◌+◌, ◌-◌, ◌*◌, ◌%◌, ◌^◌, ◌≤◌, ◌<◌, ◌≡◌, refl, ap, ◌∙◌, Bool, true, false, ◌&&◌, Option,
  none, some, bit_and, bit_or, ◌==◌, if◌then◌else◌, and_then, some_inj, Option-cases,
  lt-of_get_elem?, min, get_elem?, set, get_elem?-set_self, get_elem?-set_ne, arith, ◌⊎◌, inl, inr,
}
use fuguex_core.Prelude.Bits.{
  bit, bit_le, bit-bit_and, bit-bit_or, bit_and-one_shift, bit_and-three_shift, bit-one_shift,
  bit-three_shift, bit-not, pow_mono,
}
use native.Mathlib.Nat.{pow-suc}
use native.Mathlib.Decide.{dec_lt}
use native.Mathlib.Numerals.{add-one}
use fuguex_core.Address.{u64_limit}
use fuguex_core.Flat.Access.{Access}
use fuguex_core.Flat.Permissions.{
  Permissions, shl64, not64, check, word_index, bit_offset, is_marked, set_byte, clear_byte,
}

-- What is allowed at one byte.
pub record Rights : Type 0 where
  pub readable : Bool
  pub writable : Bool

abbrev pub allows : Access → Rights → Bool
allows Access.read r = r.readable
allows Access.write r = r.writable
allows Access.read_write r = r.readable && r.writable

abbrev pub grant : Access → Rights → Rights
grant Access.read r = record { readable = true; writable = r.writable }
grant Access.write r = record { readable = r.readable; writable = true }
grant Access.read_write r = record { readable = true; writable = true }

abbrev pub revoke : Access → Rights → Rights
revoke Access.read r = record { readable = false; writable = r.writable }
revoke Access.write r = record { readable = r.readable; writable = false }
revoke Access.read_write r = record { readable = false; writable = false }

-- the rights in a word at byte `i` of it: the upper bit of the pair is for reading
abbrev pub rights_in : ℕ → ℕ → Rights
rights_in w i = record { readable = bit w (i * 2 + 1) == 1; writable = bit w (i * 2) == 1 }

-- the rights of an address, `none` if no word holds it
abbrev pub rights : Permissions → ℕ → Option Rights
rights p address =
    and_then (get_elem? p.bitsmap (word_index address)) (λ w. some (rights_in w (address % 32)))

one_shift : (k : ℕ) → k ≤ 63 → shl64 1 k ≡ 1 * 2 ^ k
one_shift k h = omega (arith, pow_mono k 63 h)

three_shift : (k : ℕ) → k ≤ 62 → shl64 3 k ≡ 3 * 2 ^ k
three_shift k h = omega (arith, pow_mono k 62 h)

bit_cases : (w k : ℕ) → (bit w k ≡ 0) ⊎ (bit w k ≡ 1)
bit_cases w k = grind (arith, bit_le w k)

pow_pos : (k : ℕ) → 1 ≤ 2 ^ k
pow_pos k = pow_mono 0 k (omega arith)

check_read : (i : ℕ) → i < 32 → check (i * 2) Access.read ≡ 1 * 2 ^ (i * 2 + 1)
check_read i h = one_shift (i * 2 + 1) (omega arith)

check_write : (i : ℕ) → i < 32 → check (i * 2) Access.write ≡ 1 * 2 ^ (i * 2)
check_write i h = ap (shl64 1) (omega arith) ∙ one_shift (i * 2) (omega arith)

check_both : (i : ℕ) → i < 32 → check (i * 2) Access.read_write ≡ 3 * 2 ^ (i * 2)
check_both i h = ap (shl64 3) (omega arith) ∙ three_shift (i * 2) (omega arith)

next_pow : (k : ℕ) → 2 ^ suc k ≡ 2 * 2 ^ k
next_pow k = omega (arith, pow-suc 2 k)

one_test : (w k : ℕ) → (bit_and w (1 * 2 ^ k) == 1 * 2 ^ k) ≡ (bit w k == 1)
one_test w k = elim (bit_cases w k) [
  | inl e ↦ rw (bit_and-one_shift, e) (ground (arith, pow_pos k))
  | inr e ↦ rw (bit_and-one_shift, e) (ground (arith, pow_pos k))
]

three_test :
    (w k : ℕ) → (bit_and w (3 * 2 ^ k) == 3 * 2 ^ k) ≡ ((bit w (k + 1) == 1) && (bit w k == 1))
three_test w k =
    rw (bit_and-three_shift, add-one k, next_pow k)
      (three_cases (bit_cases w k) (bit_cases w (suc k)))
  where
    three_cases :
        ((bit w k ≡ 0) ⊎ (bit w k ≡ 1))
        → ((bit w (suc k) ≡ 0) ⊎ (bit w (suc k) ≡ 1))
        → (bit w k * 2 ^ k + bit w (suc k) * (2 * 2 ^ k) == 3 * 2 ^ k)
          ≡ ((bit w (suc k) == 1) && (bit w k == 1))
    three_cases (inl a) (inl b) = rw (a, b) (ground (arith, pow_pos k))
    three_cases (inl a) (inr b) = rw (a, b) (ground (arith, pow_pos k))
    three_cases (inr a) (inl b) = rw (a, b) (ground (arith, pow_pos k))
    three_cases (inr a) (inr b) = rw (a, b) (ground (arith, pow_pos k))

-- `w & check == check` says that both bits asked for are set.
marked_in :
    (w i : ℕ) (access : Access)
    → i < 32
    → (bit_and w (check (i * 2) access) == check (i * 2) access) ≡ allows access (rights_in w i)
marked_in w i Access.read h = rw (check_read i h) (one_test w (i * 2 + 1))
marked_in w i Access.write h = rw (check_write i h) (one_test w (i * 2))
marked_in w i Access.read_write h = rw (check_both i h) (three_test w (i * 2))

-- `w |= check`
set_in :
    (w i j : ℕ) (access : Access)
    → i < 32
    → rights_in (bit_or w (check (i * 2) access)) j
      ≡ (if j == i then grant access (rights_in w j) else rights_in w j)
set_in w i j Access.read h = rw (check_read i h) (
    ground (
      arith,
      bit-bit_or w (1 * 2 ^ (i * 2 + 1)) (j * 2),
      bit-bit_or w (1 * 2 ^ (i * 2 + 1)) (j * 2 + 1),
      bit-one_shift (i * 2 + 1) (j * 2),
      bit-one_shift (i * 2 + 1) (j * 2 + 1),
      bit_le w (j * 2 + 1),
      bit_le w (j * 2),
    ))
set_in w i j Access.write h = rw (check_write i h) (
    ground (
      arith,
      bit-bit_or w (1 * 2 ^ (i * 2)) (j * 2),
      bit-bit_or w (1 * 2 ^ (i * 2)) (j * 2 + 1),
      bit-one_shift (i * 2) (j * 2),
      bit-one_shift (i * 2) (j * 2 + 1),
      bit_le w (j * 2),
      bit_le w (j * 2 + 1),
    ))
set_in w i j Access.read_write h = rw (check_both i h) (
    ground (
      arith,
      bit-bit_or w (3 * 2 ^ (i * 2)) (j * 2),
      bit-bit_or w (3 * 2 ^ (i * 2)) (j * 2 + 1),
      bit-three_shift (i * 2) (j * 2),
      bit-three_shift (i * 2) (j * 2 + 1),
      bit_le w (j * 2),
      bit_le w (j * 2 + 1),
    ))

-- `w &= !check`
mask_bit :
    (w m k : ℕ) → m < u64_limit → k < 64 → bit (bit_and w (not64 m)) k ≡ min (bit w k) (1 - bit m k)
mask_bit w m k h p = bit-bit_and w (not64 m) k ∙ ap (min (bit w k)) (bit-not 64 m k h p)

clear_in :
    (w i j : ℕ) (access : Access)
    → i < 32
    → j < 32
    → rights_in (bit_and w (not64 (check (i * 2) access))) j
      ≡ (if j == i then revoke access (rights_in w j) else rights_in w j)
clear_in w i j Access.read h p = rw (check_read i h) (
    ground (
      arith,
      mask_bit w (1 * 2 ^ (i * 2 + 1)) (j * 2),
      mask_bit w (1 * 2 ^ (i * 2 + 1)) (j * 2 + 1),
      bit-one_shift (i * 2 + 1) (j * 2),
      bit-one_shift (i * 2 + 1) (j * 2 + 1),
      bit_le w (j * 2 + 1),
      bit_le w (j * 2),
      pow_mono (i * 2 + 1) 63,
    ))
clear_in w i j Access.write h p = rw (check_write i h) (
    ground (
      arith,
      mask_bit w (1 * 2 ^ (i * 2)) (j * 2),
      mask_bit w (1 * 2 ^ (i * 2)) (j * 2 + 1),
      bit-one_shift (i * 2) (j * 2),
      bit-one_shift (i * 2) (j * 2 + 1),
      bit_le w (j * 2),
      bit_le w (j * 2 + 1),
      pow_mono (i * 2) 63,
    ))
clear_in w i j Access.read_write h p = rw (check_both i h) (
    ground (
      arith,
      mask_bit w (3 * 2 ^ (i * 2)) (j * 2),
      mask_bit w (3 * 2 ^ (i * 2)) (j * 2 + 1),
      bit-three_shift (i * 2) (j * 2),
      bit-three_shift (i * 2) (j * 2 + 1),
      bit_le w (j * 2),
      bit_le w (j * 2 + 1),
      pow_mono (i * 2) 62,
    ))

-- The test of an access at an address by a mask on the word is a test of the two bits of that
-- address; it panics where no word holds them.
pub is_marked_lem :
    (p : Permissions) (address : ℕ) (access : Access)
    → is_marked p address access ≡ and_then (rights p address) (λ r. some (allows access r))
unfolding is_marked
is_marked_lem p address access = by_word (get_elem? p.bitsmap (word_index address))
  where
    by_word :
        (word : Option ℕ)
        → and_then word (λ w.
          some (bit_and w (check (bit_offset address) access) == check (bit_offset address) access))
          ≡ and_then
              (and_then word (λ w. some (rights_in w (address % 32))))
              (λ r. some (allows access r))
    by_word none = refl
    by_word (some w) = ap some (marked_in w (address % 32) access (omega arith))

-- Where one word is replaced by a change of one byte's bits, only that byte's rights change.
module _ (p : Permissions) (a b : ℕ) (f : ℕ → ℕ) (change : Rights → Rights) where
  rights-set :
      ((w : ℕ)
        → rights_in (f w) (b % 32)
          ≡ (if b % 32 == a % 32 then change (rights_in w (b % 32)) else rights_in w (b % 32)))
      → (w : ℕ) → get_elem? p.bitsmap (word_index a) ≡ some w
      → rights (record p { bitsmap = set p.bitsmap (word_index a) (f w) }) b
        ≡ (if b == a then and_then (rights p a) (λ r. some (change r)) else rights p b)
  rights-set h w e = elim (dec_lt (word_index b) (word_index a)) [
    | yes below ↦ ground (arith, get_elem?-set_ne p.bitsmap (word_index a) (word_index b) (f w))
    | no not_below ↦ elim (dec_lt (word_index a) (word_index b)) [
      | yes above ↦ ground (arith, get_elem?-set_ne p.bitsmap (word_index a) (word_index b) (f w))
      | no not_above ↦
          let same : word_index b ≡ word_index a = omega arith in
          ground (
            arith,
            ap (get_elem? p.bitsmap) same,
            ap (get_elem? (set p.bitsmap (word_index a) (f w))) same,
            get_elem?-set_self p.bitsmap (word_index a) (f w),
            lt-of_get_elem? p.bitsmap (word_index a) e,
            h w,
          )
    ]
  ]

module _ (p p' : Permissions) (a b : ℕ) (access : Access) where
  -- Marking an address grants the access there, and no other address's rights change.
  pub rights-set_byte :
      set_byte p a access ≡ some p'
      → rights p' b
        ≡ (if b == a then and_then (rights p a) (λ r. some (grant access r)) else rights p b)
  unfolding set_byte
  rights-set_byte done = elim (Option-cases (get_elem? p.bitsmap (word_index a))) [
    | inl e ↦ cc
    | inr (w, e) ↦
        let f = λ (v : ℕ). bit_or v (check (bit_offset a) access) in
        let whole : record p { bitsmap = set p.bitsmap (word_index a) (f w) } ≡ p' =
          some_inj (rw e at done) in
        rw (← whole) (
          rights-set p a b f (grant access) (λ v. set_in v (a % 32) (b % 32) access (omega arith)) w
            e)
  ]

  -- Clearing an address revokes the access there, and no other address's rights change.
  pub rights-clear_byte :
      clear_byte p a access ≡ some p'
      → rights p' b
        ≡ (if b == a then and_then (rights p a) (λ r. some (revoke access r)) else rights p b)
  unfolding clear_byte
  rights-clear_byte done = elim (Option-cases (get_elem? p.bitsmap (word_index a))) [
    | inl e ↦ cc
    | inr (w, e) ↦
        let f = λ (v : ℕ). bit_and v (not64 (check (bit_offset a) access)) in
        let whole : record p { bitsmap = set p.bitsmap (word_index a) (f w) } ≡ p' =
          some_inj (rw e at done) in
        rw (← whole) (
          rights-set p a b f (revoke access)
            (λ v. clear_in v (a % 32) (b % 32) access (omega arith) (omega arith)) w e)
  ]
