-- ===== src/Flat/Permissions/Regions.antt =====
-- The loops of `Permissions` over a region, and the rights of every address.
use fuguex_core.Prelude.{
  ℕ, zero, suc, ◌+◌, ◌*◌, ◌/◌, ◌≤◌, ◌<◌, ◌≡◌, ◌↔◌, refl, ap, ◌∙◌, Bool, true, false, ◌&&◌, Option,
  some, ltb, leb, ◌==◌, if◌then◌else◌, and_then, set, length, length-set, length-replicate,
  get_elem?-some, Bool-cases, arith, sym, bit_and, bit_or, inl, inr,
}
use native.Mathlib.Decide.{dec_lt}
use fuguex_core.Address.{AddressOps, u64_limit}
use fuguex_core.Flat.Access.{Access}
use fuguex_core.Flat.Permissions.{
  Permissions, new_with, is_marked, set_byte, clear_byte, all_marked_from, all_marked, set_from,
  set_region, clear_from, clear_region, word_index, rounds, bit_offset, check, not64,
}
use fuguex_core.Flat.Permissions.Bytes.{
  Rights, allows, grant, revoke, rights, is_marked_lem, rights-set_byte, rights-clear_byte,
}

abbrev pub granted : Access → Option Rights → Option Rights
granted access o = and_then o (λ r. some (grant access r))

abbrev pub revoked : Access → Option Rights → Option Rights
revoked access o = and_then o (λ r. some (revoke access r))

abbrev pub is_within : ℕ → ℕ → ℕ → Bool
is_within start size b = leb start b && ltb b (start + size)

module _ ⦃ir : AddressOps⦄ where
  -- Every address up to `limit` has its two bits, and is an address of the space.
  pub record Covers (p : Permissions) (limit : ℕ) : Type 0 where
    pub in_words : limit < 32 * length p.bitsmap
    pub in_space : limit < ir.space_limit p.space
    pub in_u64 : limit < u64_limit

  pub new_with-Covers :
      (space size mask : ℕ)
      → size < ir.space_limit space
      → size < u64_limit
      → Covers (new_with space size mask) size
  unfolding new_with
  new_with-Covers space size mask h k = record {
    in_words = omega (arith, length-replicate (1 + size / 32) mask);
    in_space = h;
    in_u64 = k;
  }

  set_byte-some :
      (p : Permissions) (a limit : ℕ) (access : Access)
      → Covers p limit
      → a ≤ limit
      → (p' : Permissions) × (set_byte p a access ≡ some p')
        × Covers p' limit
        × (p'.space ≡ p.space)
        × (length p'.bitsmap ≡ length p.bitsmap)
  unfolding set_byte
  set_byte-some p a limit access c h =
      let (w, e) = get_elem?-some p.bitsmap (word_index a) (omega arith) in
      (
        record p {
          bitsmap = set p.bitsmap (word_index a) (bit_or w (check (bit_offset a) access));
        },
        rw e refl,
        record { in_words = rw length-set c.in_words; in_space = c.in_space; in_u64 = c.in_u64 },
        refl,
        length-set _ _ _,
      )

  pub clear_byte-some :
      (p : Permissions) (a limit : ℕ) (access : Access)
      → Covers p limit
      → a ≤ limit
      → (p' : Permissions) × (clear_byte p a access ≡ some p')
        × Covers p' limit
        × (p'.space ≡ p.space)
        × (length p'.bitsmap ≡ length p.bitsmap)
  unfolding clear_byte
  clear_byte-some p a limit access c h =
      let (w, e) = get_elem?-some p.bitsmap (word_index a) (omega arith) in
      (
        record p {
          bitsmap = set p.bitsmap (word_index a) (bit_and w (not64 (check (bit_offset a) access)));
        },
        rw e refl,
        record { in_words = rw length-set c.in_words; in_space = c.in_space; in_u64 = c.in_u64 },
        refl,
        length-set _ _ _,
      )

  -- What a loop leaves: the permissions, with the rights of a range changed.
  pub record Changed (p : Permissions) (limit start n : ℕ) (change : Option Rights → Option Rights)
      (out : Option Permissions) : Type 0 where
    pub after : Permissions
    pub returns : out ≡ some after
    pub covers : Covers after limit
    pub same_space : after.space ≡ p.space
    pub same_words : length after.bitsmap ≡ length p.bitsmap
    pub changed :
        (b : ℕ) → rights after b ≡ (if is_within start n b then change (rights p b) else rights p b)

  set_from-Changed :
      (p : Permissions) (limit start n : ℕ) (access : Access)
      → Covers p limit
      → start + n ≤ suc limit
      → Changed p limit start n (granted access) (set_from p start n access)
  unfolding set_from
  set_from-Changed p limit start zero access c h = record {
    after = p;
    returns = refl;
    covers = c;
    same_space = refl;
    same_words = refl;
    changed = λ b. ground arith;
  }
  set_from-Changed p limit start (suc n) access c h =
      let (p', e, c', s, l) = set_byte-some p start limit access c (omega arith) in
      let rest = set_from-Changed p' limit (start + 1) n access c' (omega arith) in
      record {
        after = rest.after;
        returns = rw (ir.new_lem p.space start (omega arith), e) rest.returns;
        covers = rest.covers;
        same_space = rest.same_space ∙ s;
        same_words = rest.same_words ∙ l;
        changed = λ b. ground (arith, rest.changed b, rights-set_byte p p' start b access e);
      }

  clear_from-Changed :
      (p : Permissions) (limit start n : ℕ) (access : Access)
      → Covers p limit
      → start + n ≤ suc limit
      → Changed p limit start n (revoked access) (clear_from p start n access)
  unfolding clear_from
  clear_from-Changed p limit start zero access c h = record {
    after = p;
    returns = refl;
    covers = c;
    same_space = refl;
    same_words = refl;
    changed = λ b. ground arith;
  }
  clear_from-Changed p limit start (suc n) access c h =
      let (p', e, c', s, l) = clear_byte-some p start limit access c (omega arith) in
      let rest = clear_from-Changed p' limit (start + 1) n access c' (omega arith) in
      record {
        after = rest.after;
        returns = rw (ir.new_lem p.space start (omega arith), e) rest.returns;
        covers = rest.covers;
        same_space = rest.same_space ∙ s;
        same_words = rest.same_words ∙ l;
        changed = λ b. ground (arith, rest.changed b, rights-clear_byte p p' start b access e);
      }

  rounds_lem : (start size : ℕ) → start + size < u64_limit → rounds start size ≡ size
  rounds_lem start size h = omega arith

  -- On permissions that cover the addresses up to a limit, `set_region` of a region up to that
  -- limit returns, grants the access at every address of the region, and changes the rights at no
  -- other address, nor the space or the size.
  pub set_region-Changed :
      (p : Permissions) (limit start size : ℕ) (access : Access)
      → Covers p limit
      → start + size ≤ limit
      → Changed p limit start size (granted access) (set_region p start size access)
  unfolding set_region
  set_region-Changed p limit start size access c h =
      rw (rounds_lem start size (omega arith))
        (set_from-Changed p limit start size access c (omega arith))

  -- On permissions that cover the addresses up to a limit, `clear_region` of a region up to that
  -- limit returns, revokes the access at every address of the region, and changes the rights at no
  -- other address, nor the space or the size.
  pub clear_region-Changed :
      (p : Permissions) (limit start size : ℕ) (access : Access)
      → Covers p limit
      → start + size ≤ limit
      → Changed p limit start size (revoked access) (clear_region p start size access)
  unfolding clear_region
  clear_region-Changed p limit start size access c h =
      rw (rounds_lem start size (omega arith))
        (clear_from-Changed p limit start size access c (omega arith))

  -- An access is allowed at an address.
  abbrev pub Allowed : Permissions → Access → ℕ → Type 0
  Allowed p access b = and_then (rights p b) (λ r. some (allows access r)) ≡ some true

  abbrev pub AllAllowed : Permissions → Access → ℕ → ℕ → Type 0
  AllAllowed p access start size = (b : ℕ) → start ≤ b → b < start + size → Allowed p access b

  is_marked-some :
      (p : Permissions) (a limit : ℕ) (access : Access)
      → Covers p limit
      → a ≤ limit
      → (m : Bool) × (is_marked p a access ≡ some m)
  unfolding is_marked
  is_marked-some p a limit access c h =
      let (w, e) = get_elem?-some p.bitsmap (word_index a) (omega arith) in
      (bit_and w (check (bit_offset a) access) == check (bit_offset a) access, rw e refl)

  all_marked_from_lem :
      (p : Permissions) (limit start n : ℕ) (access : Access)
      → Covers p limit
      → start + n ≤ suc limit
      → (m : Bool) × (all_marked_from p start n access ≡ some m)
        × (m ≡ true ↔ AllAllowed p access start n)
  unfolding all_marked_from
  all_marked_from_lem p limit start zero access c h =
      (true, refl, ((λ t b lo hi. absurd (omega arith)), λ all. refl))
  all_marked_from_lem p limit start (suc n) access c h =
      let (m, e) = is_marked-some p start limit access c (omega arith) in
      let (r, e', iff) = all_marked_from_lem p limit (start + 1) n access c (omega arith) in
      let here : and_then (rights p start) (λ q. some (allows access q)) ≡ some m =
        sym (is_marked_lem p start access) ∙ e in
      elim (Bool-cases m) [
        | inl marked ↦ (
          r,
          rw (ir.new_lem p.space start (omega arith), e, marked) e',
          (
            (λ t b lo hi. elim (dec_lt start b) [
              | yes above ↦ iff.0 t b (omega arith) (omega arith)
              | no at ↦ let same : b ≡ start = omega arith in rw same (here ∙ ap some marked)
            ]),
            λ all. iff.1 (λ b lo hi. all b (omega arith) (omega arith)),
          ),
        )
        | inr unmarked ↦ (
          false,
          rw (ir.new_lem p.space start (omega arith), e, unmarked) refl,
          ((λ t. cc), λ all. cc (all start (omega arith) (omega arith), here)),
        )
      ]

  -- On permissions that cover the addresses up to a limit, `all_marked` of a region up to that
  -- limit returns, and it returns `true` exactly if each address of the region allows the access.
  pub all_marked_lem :
      (p : Permissions) (limit start size : ℕ) (access : Access)
      → Covers p limit
      → start + size ≤ limit
      → (m : Bool) × (all_marked p start size access ≡ some m)
        × (m ≡ true ↔ AllAllowed p access start size)
  unfolding all_marked
  all_marked_lem p limit start size access c h =
      rw (rounds_lem start size (omega arith))
        (all_marked_from_lem p limit start size access c (omega arith))
