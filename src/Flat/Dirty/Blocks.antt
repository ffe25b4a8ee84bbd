-- ===== src/Flat/Dirty/Blocks.antt =====
-- The bits of `DirtyBacking` against its list of blocks, and what `dirty` and `dirty_region` record.
use fuguex_core.Prelude.{
  ℕ, zero, suc, ◌+◌, ◌-◌, ◌*◌, ◌/◌, ◌^◌, ◌≤◌, ◌<◌, ◌≡◌, refl, ap, ◌∙◌, Bool, false, List, [], ◌∷◌,
  ◌++◌, Option, none, some, bit_and, bit_or, ltb, leb, ◌==◌, ◌||◌, ◌&&◌, get_elem?, set, length,
  length-set, replicate, get_elem?-some, get_elem?-set_self, get_elem?-set_ne, Bool-cases, not,
  lt-of_get_elem?, arith, ◌⊎◌, inl, inr,
}
use fuguex_core.Prelude.Bits.{
  bit, bit_le, bit-zero, bit-bit_or, bit_and-one_shift, bit-one_shift, pow_mono,
}
use native.Mathlib.Decide.{dec_lt}
use fuguex_core.Address.{AddressOps, u64_limit}
use fuguex_core.Flat.Dirty.{
  DirtyBacking, Block, block_of, block_bit, block_index, new, dirty, dirty_from, dirty_region,
}

abbrev pub contains : List Block → Block → Bool
contains [] b = false
contains (x ∷ xs) b = b == x || contains xs b

contains-append :
    (xs ys : List Block) (b : Block) → contains (xs ++ ys) b ≡ (contains xs b || contains ys b)
contains-append [] ys b = refl
contains-append (x ∷ xs) ys b = ground (arith, contains-append xs ys b)

abbrev pub is_dirty : DirtyBacking → Block → Bool
is_dirty d b = contains d.indices b

abbrev flag_in : Option ℕ → Block → Bool
flag_in none b = false
flag_in (some w) b = bit w (block_bit b) == 1

-- the bit of a block, `false` if no word holds it
abbrev flagged : List ℕ → Block → Bool
flagged words b = flag_in (get_elem? words (block_index b)) b

-- The bit of each block says whether the list holds it.
pub record IsValid (d : DirtyBacking) : Type 0 where
  pub agrees : (b : Block) → flagged d.bitsmap b ≡ is_dirty d b

zero_word : (n i : ℕ) (b : Block) → flag_in (get_elem? (replicate n 0) i) b ≡ false
zero_word zero i b = refl
zero_word (suc n) zero b = ground (arith, bit-zero (block_bit b))
zero_word (suc n) (suc i) b = zero_word n i b

pub new-IsValid : (size : ℕ) → IsValid (new size)
unfolding new
new-IsValid size = record { agrees = λ b. zero_word _ (block_index b) b }

flagged-set :
    (words : List ℕ) (a b w : ℕ)
    → get_elem? words (block_index a) ≡ some w
    → flagged (set words (block_index a) (bit_or w (1 * 2 ^ block_bit a))) b
      ≡ (b == a || flagged words b)
flagged-set words a b w e =
    let word = bit_or w (1 * 2 ^ block_bit a) in
    elim (dec_lt (block_index b) (block_index a)) [
      | yes below ↦ ground (arith, get_elem?-set_ne words (block_index a) (block_index b) word)
      | no not_below ↦ elim (dec_lt (block_index a) (block_index b)) [
        | yes above ↦ ground (arith, get_elem?-set_ne words (block_index a) (block_index b) word)
        | no not_above ↦
            let same : block_index b ≡ block_index a = omega arith in
            ground (
              arith,
              ap (get_elem? words) same,
              ap (get_elem? (set words (block_index a) word)) same,
              get_elem?-set_self words (block_index a) word,
              lt-of_get_elem? words (block_index a) e,
              bit-bit_or w (1 * 2 ^ block_bit a) (block_bit b),
              bit-one_shift (block_bit a) (block_bit b),
              bit_le w (block_bit b),
            )
      ]
    ]

-- the test of `dirty` is the flag of the block
bit_test : (w k : ℕ) → (bit_and w (1 * 2 ^ k) == 0) ≡ not (bit w k == 1)
bit_test w k =
    ground (arith, bit_and-one_shift w k, bit_le w k, pow_mono 0 k, zero_or_one (bit w k) (2 ^ k))
  where
    zero_or_one : (x y : ℕ) → x ≤ 1 → (x ≡ 0) × (x * y ≡ 0) ⊎ (x ≡ 1) × (x * y ≡ y)
    zero_or_one x y h = grind arith

-- What recording a range of blocks leaves.
pub record Recorded (d : DirtyBacking) (in_range : Block → Bool) (out : Option DirtyBacking)
    : Type 0 where
  pub after : DirtyBacking
  pub returns : out ≡ some after
  pub valid : IsValid after
  pub same_words : length after.bitsmap ≡ length d.bitsmap
  pub recorded : (b : Block) → is_dirty after b ≡ (in_range b || is_dirty d b)

abbrev pushed : DirtyBacking → Block → ℕ → DirtyBacking
pushed d block w = record {
  indices = d.indices ++ (block ∷ []);
  bitsmap = set d.bitsmap (block_index block) (bit_or w (1 * 2 ^ block_bit block));
}

dirty-Recorded :
    (d : DirtyBacking) (block : Block)
    → IsValid d
    → block_index block < length d.bitsmap
    → Recorded d (λ b. b == block) (dirty d block)
unfolding dirty
dirty-Recorded d block v h =
    let (w, e) = get_elem?-some d.bitsmap (block_index block) h in
    elim (Bool-cases (bit_and w (1 * 2 ^ block_bit block) == 0)) [
      | inl fresh ↦ record {
        after = pushed d block w;
        returns = rw (e, fresh) refl;
        valid = record {
          agrees = λ b. ground (
            arith,
            flagged-set d.bitsmap block b w e,
            v.agrees b,
            contains-append d.indices (block ∷ []) b,
          );
        };
        same_words = length-set d.bitsmap _ _;
        recorded = λ b. ground (arith, contains-append d.indices (block ∷ []) b);
      }
      | inr known ↦ record {
        after = d;
        returns = rw (e, known) refl;
        valid = v;
        same_words = refl;
        recorded = λ b. ground (arith, v.agrees block, bit_test w (block_bit block), e);
      }
    ]

abbrev pub in_blocks : Block → ℕ → Block → Bool
in_blocks first n b = leb first b && ltb b (first + n)

dirty_from-Recorded :
    (d : DirtyBacking) (block : Block) (n : ℕ)
    → IsValid d
    → block + n ≤ length d.bitsmap * 8
    → Recorded d (in_blocks block n) (dirty_from d block n)
unfolding dirty_from
dirty_from-Recorded d block zero v h = record {
  after = d;
  returns = refl;
  valid = v;
  same_words = refl;
  recorded = λ b. ground arith;
}
dirty_from-Recorded d block (suc n) v h =
    let one = dirty-Recorded d block v (omega arith) in
    let rest =
      dirty_from-Recorded one.after (block + 1) n one.valid (omega (arith, one.same_words)) in
    record {
      after = rest.after;
      returns = rw one.returns rest.returns;
      valid = rest.valid;
      same_words = rest.same_words ∙ one.same_words;
      recorded = λ b. ground (arith, rest.recorded b, one.recorded b);
    }

module _ ⦃ir : AddressOps⦄ where
  -- On a record of blocks whose bits agree with its list, where the end of the region does not
  -- wrap and the block of the end has a word, `dirty_region` returns, keeps bits and list in
  -- agreement, and records the blocks from that of the region's first address to that of the
  -- address after its last one, and no others.
  pub dirty_region-Recorded :
      (d : DirtyBacking) (start size : ℕ)
      → IsValid d
      → start + size < u64_limit
      → (start + size) / 64 < length d.bitsmap * 8
      → Recorded d
          (λ b. leb (start / 64) b && leb b ((start + size) / 64))
          (dirty_region d start size)
  unfolding dirty_region
  dirty_region-Recorded d start size v small h =
      let out =
        dirty_from-Recorded d (block_of start) ((start + size) / 64 + 1 - start / 64) v
          (omega arith) in
      record {
        after = out.after;
        returns = rw (ir.add_lem start size small) out.returns;
        valid = out.valid;
        same_words = out.same_words;
        recorded = λ b. ground (arith, out.recorded b);
      }
