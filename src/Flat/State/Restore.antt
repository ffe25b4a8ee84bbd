-- ===== src/Flat/State/Restore.antt =====
-- `FlatState::restore` against the blocks that writes record.
use fuguex_core.Prelude.{
  ℕ, ◌-◌, ◌*◌, ◌/◌, ◌≤◌, ◌<◌, ◌≡◌, refl, ap, ◌∙◌, true, false, List, [], ◌∷◌, Option, some, min,
  ◌==◌, if◌then◌else◌, length, get_elem?, set, splice, slice, slice?, clone_from_slice, arith,
  get_elem?-some, get_elem?-none, get_elem?-ext, get_elem?-splice, get_elem?-slice, length-set,
  length-splice, length-slice, slice?_lem, clone_from_slice_lem,
}
use fuguex_core.Address.{AddressOps}
use fuguex_core.Flat.Permissions
use fuguex_core.Flat.Permissions.{Permissions, zip_copy}
use fuguex_core.Flat.Dirty.{Block, start_address, end_address, block_index}
use fuguex_core.Flat.Dirty.Blocks.{contains, is_dirty}
use fuguex_core.Flat.State.{FlatState, len, fork, restore_blocks, restore}
use fuguex_core.Flat.State.Valid.{IsValid, max_len, Wrote}

-- Each block begins in the values and has a bit.
abbrev InRange : List Block → ℕ → ℕ → Type 0
InRange blocks words n = (b : ℕ) → contains blocks b ≡ true → (b * 64 ≤ n) × (b / 8 < words)

module _ {V : Type 0} where
  -- The blocks of the list come from `other`, the other values stay.
  record Restored (blocks : List Block) (backing other : List V) (out : Option (List V))
      : Type 0 where
    after : List V
    returns : out ≡ some after
    same_length : length after ≡ length backing
    values :
        (i : ℕ)
        → get_elem? after i
          ≡ (if contains blocks (i / 64) then get_elem? other i else get_elem? backing i)

  one_block :
      (b : Block) (backing other : List V)
      → length backing ≡ length other
      → length backing ≤ max_len
      → b * 64 ≤ length backing
      → let start = start_address b in
        let real_end = min (length backing) (end_address b) in
        (values : List V) × (slice? other start real_end ≡ some values)
        × (clone_from_slice backing start real_end values ≡ some (splice backing start values))
        × (length (splice backing start values) ≡ length backing)
        × ((i : ℕ)
            → get_elem? (splice backing start values) i
              ≡ (if i / 64 == b then get_elem? other i else get_elem? backing i))
  one_block b backing other e vec h =
      let start = start_address b in
      let real_end = min (length backing) (end_address b) in
      let values = slice other start (real_end - start) in
      let width : length values ≡ real_end - start =
        length-slice other start (real_end - start) (omega arith) in
      (
        values,
        slice?_lem other start real_end (omega arith) (omega arith),
        clone_from_slice_lem backing start real_end values (omega arith) (omega arith),
        length-splice backing start values,
        λ i. ground (
          arith,
          get_elem?-splice backing start values i,
          get_elem?-slice other start (real_end - start) (i - start),
          width,
          get_elem?-none backing i,
          get_elem?-none other i,
        ),
      )

  restore_blocks-Restored :
      (blocks : List Block) (bitsmap : List ℕ) (backing other : List V)
      → length backing ≡ length other
      → length backing ≤ max_len
      → InRange blocks (length bitsmap) (length backing)
      → Restored blocks backing other (restore_blocks blocks bitsmap backing other)
  unfolding restore_blocks
  restore_blocks-Restored [] bitsmap backing other e vec h = record {
    after = backing;
    returns = refl;
    same_length = refl;
    values = λ i. refl;
  }
  restore_blocks-Restored (b ∷ blocks) bitsmap backing other e vec h =
      let (starts, has_bit) = h b (ground arith) in
      let (w, e₀) = get_elem?-some bitsmap (block_index b) has_bit in
      let (values, e₁, e₂, l, at) = one_block b backing other e vec starts in
      let backing' = splice backing (start_address b) values in
      let rest =
        restore_blocks-Restored blocks (set bitsmap (block_index b) 0) backing' other (l ∙ e)
          (rw l vec) (λ c m. rw (l, length-set bitsmap (block_index b) 0) (h c (ground arith))) in
      record {
        after = rest.after;
        returns = rw (e₀, e₁, e₂) rest.returns;
        same_length = rest.same_length ∙ l;
        values = λ i. ground (arith, rest.values i, at i);
      }

zip_copy_all : (ts ss : List ℕ) → length ts ≡ length ss → zip_copy ts ss ≡ ss
unfolding zip_copy
zip_copy_all [] [] e = refl
zip_copy_all [] (x ∷ ss) e = absurd (omega arith)
zip_copy_all (t ∷ ts) [] e = absurd (omega arith)
zip_copy_all (t ∷ ts) (x ∷ ss) e = ap (◌∷◌ x) (zip_copy_all ts ss (omega arith))

-- The two differ at most in the values of blocks that `s` records, and in permission bits.
pub record Tracks {V : Type 0} (base s : FlatState V) : Type 0 where
  pub same_len : len s ≡ len base
  pub same_space : s.space ≡ base.space
  pub same_permission_space : s.permissions.space ≡ base.permissions.space
  pub same_words : length s.permissions.bitsmap ≡ length base.permissions.bitsmap
  pub clean :
      (i : ℕ) → is_dirty s.dirty (i / 64) ≡ false → get_elem? s.backing i ≡ get_elem? base.backing i

module _ {V : Type 0} ⦃ir : AddressOps⦄ where
  pub fork-Tracks : (s : FlatState V) → Tracks s (fork s)
  unfolding fork
  fork-Tracks s = record {
    same_len = refl;
    same_space = refl;
    same_permission_space = refl;
    same_words = refl;
    clean = λ i d. refl;
  }

  pub fork-IsValid : (s : FlatState V) → IsValid s → IsValid (fork s)
  unfolding fork
  fork-IsValid s v = v

  -- A valid state that tracks another one is restored to exactly that one, with no panic.
  pub restore-Tracks :
      (base s : FlatState V) → IsValid s → Tracks base s → restore s base ≡ some base
  unfolding restore Permissions.restore
  restore-Tracks base s v t =
      let r =
        restore_blocks-Restored s.dirty.indices s.dirty.bitsmap s.backing base.backing t.same_len
          v.vec (λ b d. (v.blocks b d, omega (arith, v.blocks b d, v.words))) in
      let values : r.after ≡ base.backing =
        get_elem?-ext r.after base.backing (r.same_length ∙ t.same_len)
          (λ i _. ground (arith, r.values i, t.clean i)) in
      rw (r.returns, values, t.same_space, zip_copy_all _ _ t.same_words, t.same_permission_space)
        refl

  -- A write keeps the tracking if it changes only values of its range.
  pub Wrote-Tracks :
      (base s s' : FlatState V) (start size : ℕ) (values : List V)
      → Tracks base s
      → length values ≤ size
      → Wrote s start size (splice s.backing start values) s'
      → Tracks base s'
  Wrote-Tracks base s s' start size values t h w = record {
    same_len = ap length w.values ∙ length-splice s.backing start values ∙ t.same_len;
    same_space = w.same_space ∙ t.same_space;
    same_permission_space =
        ap (λ (p : Permissions). p.space) w.same_permissions ∙ t.same_permission_space;
    same_words = ap (λ (p : Permissions). length p.bitsmap) w.same_permissions ∙ t.same_words;
    clean = λ i d.
        ap (λ l. get_elem? l i) w.values
        ∙ ground (arith, get_elem?-splice s.backing start values i, t.clean i, w.recorded (i / 64));
  }
