-- ===== src/Paged/State/Resolve.antt =====
-- What `resolve` finds, and what it finds after a write.
use fuguex_core.Prelude.{
  ℕ, ◌≡◌, ◌⊎◌, refl, ap, ◌∙◌, sym, subst, Bool, not, ◌&&◌, true, false, List, [], ◌∷◌, ltb,
  if◌then◌else◌, Result, ok, err, panic, bind, map_err, ok_inj, err_ok, inl, inr, Bool-cases,
  some_inj,
}
use fuguex_core.Address.{AddressOps}
use fuguex_core.Flat.State.{FlatState}
use fuguex_core.Chunked.Heap
use fuguex_core.Chunked.Heap.{ChunkState, Interval, IntervalOps}
use fuguex_core.Paged.IntervalMap.{IntervalMapOps, holding, lookup, same}
use fuguex_core.Paged.IntervalMap.Entries.{same-eq, holding-put, lookup-holding}
use fuguex_core.Paged.Segments.{Error, chunked, Segment, static, mapping, static_mapping, is_static}
use fuguex_core.Paged.State.{PagedState, Target, wraps, write_back, locate, resolve}

pub List-cases {ℓ} :
    {A : Type ℓ} (xs : List A) → (xs ≡ []) ⊎ ((x : A) × (rest : List A) × (xs ≡ x ∷ rest))
List-cases [] = inl refl
List-cases (x ∷ xs) = inr (x, xs, refl)

pub bind-ok {ℓ κ μ} :
    {E : Type ℓ} {A : Type κ} {B : Type μ} (m : Result E A) (f : A → Result E B) (b : B)
    → bind m f ≡ ok b
    → (a : A) × (m ≡ ok a) × (f a ≡ ok b)
bind-ok (ok a) f b e = (a, refl, e)
bind-ok (err x) f b e = absurd (err_ok e)
bind-ok panic f b e = cc

module _ {V S N : Type 0} where
  same_parts : (t u : Target V S N) → t ≡ u → (t.interval ≡ u.interval) × (t.segment ≡ u.segment)
  same_parts t u e =
      (ap (λ (x : Target V S N). x.interval) e, ap (λ (x : Target V S N). x.segment) e)

  -- the segment with another flat state in it
  unfoldable pub renewed : Segment V S N → FlatState V → Segment V S N
  renewed (mapping x heap) b = mapping x (record heap { backing = b })
  renewed (static_mapping x old) b = static_mapping x b
  renewed (static x o) b = static x o

  -- Whether two targets lie in one flat state.
  abbrev pub same_store : Target V S N → Target V S N → Bool
  same_store t u =
      if is_static t.segment
      then is_static u.segment
      else not (is_static u.segment) && same t.interval u.interval

module _ {V S N M : Type 0} ⦃ir : AddressOps⦄ (iv : IntervalOps S)
    (im : IntervalMapOps M (Segment V S N)) where
  -- the entry that an access finds, and the target in it
  pub record Found (s : PagedState V M) (a n : ℕ) (t : Target V S N) : Type 0 where
    pub no_wrap : wraps a ≡ false
    pub others : List (Interval × Segment V S N)
    pub overlap : im.overlap s.segments a ≡ (t.interval, t.segment) ∷ others
    pub fits : ltb t.interval.end (ir.add a n) ≡ false
    pub located : locate iv im s t.interval t.segment a n ≡ ok t

  locate-same :
      (s : PagedState V M) (i : Interval) (v : Segment V S N) (a n : ℕ) (t : Target V S N)
      → locate iv im s i v a n ≡ ok t
      → (i ≡ t.interval) × (v ≡ t.segment)
  unfolding locate
  locate-same s i (mapping x heap) a n t e =
      let (tr, e₁, e₂) = bind-ok (map_err chunked (Heap.translate_checked iv heap a n)) _ t e in
      same_parts _ t (ok_inj {E = Error} e₂)
  locate-same s i (static_mapping x b) a n t e = same_parts _ t (ok_inj {E = Error} e)
  locate-same s i (static x o) a n t e = same_parts _ t (ok_inj {E = Error} e)

  pub resolve-Found :
      (s : PagedState V M) (a n : ℕ) (t : Target V S N) → resolve iv im s a n ≡ ok t → Found s a n t
  unfolding resolve
  resolve-Found s a n t e = elim (Bool-cases (wraps a)) [
    | inl w ↦ absurd (err_ok (rw w at e))
    | inr w ↦ elim (List-cases (im.overlap s.segments a)) [
      | inl o ↦ absurd (err_ok (rw (w, o) at e))
      | inr ((i, v), others, o) ↦ elim (Bool-cases (ltb i.end (ir.add a n))) [
        | inl b ↦ absurd (err_ok (rw (w, o, b) at e))
        | inr b ↦
            let l : locate iv im s i v a n ≡ ok t = rw (w, o, b) at e in
            let (p, q) = locate-same s i v a n t l in
            record {
              no_wrap = w;
              others = others;
              overlap = o ∙ ap (λ j. (j, v) ∷ others) p ∙ ap (λ w. (t.interval, w) ∷ others) q;
              fits = subst (λ (j : Interval). ltb j.end (ir.add a n) ≡ false) p b;
              located =
                  subst (λ w. locate iv im s t.interval w a n ≡ ok t) q
                    (subst (λ j. locate iv im s j v a n ≡ ok t) p l);
            }
      ]
    ]
  ]

  pub Found-resolve :
      (s : PagedState V M) (a n : ℕ) (t : Target V S N) → Found s a n t → resolve iv im s a n ≡ ok t
  unfolding resolve
  Found-resolve s a n t f = rw (f.no_wrap, f.overlap, f.fits) f.located

  pub write_back-static :
      (s : PagedState V M) (i : Interval) (v : Segment V S N) (f x : FlatState V) (a : ℕ)
      → is_static v ≡ true
      → write_back im s (record { interval = i; segment = v; flat = f; address = a }) x
        ≡ record s { inner = x }
  unfolding write_back is_static
  write_back-static s i (static y o) f x a e = refl
  write_back-static s i (mapping y heap) f x a e = cc
  write_back-static s i (static_mapping y b) f x a e = cc

  pub write_back-own :
      (s : PagedState V M) (i : Interval) (v : Segment V S N) (f x : FlatState V) (a : ℕ)
      → is_static v ≡ false
      → write_back im s (record { interval = i; segment = v; flat = f; address = a }) x
        ≡ record s { segments = im.replace s.segments i (renewed v x) }
  unfolding write_back is_static renewed
  write_back-own s i (static y o) f x a e = cc
  write_back-own s i (mapping y heap) f x a e = refl
  write_back-own s i (static_mapping y b) f x a e = refl

  -- A static segment lies in the inner state, and any other one does not look at it.
  locate-static :
      (s s' : PagedState V M) (i : Interval) (v : Segment V S N) (a n : ℕ) (t : Target V S N)
      → is_static v ≡ true
      → locate iv im s i v a n ≡ ok t
      → (t.flat ≡ s.inner) × (locate iv im s' i v a n ≡ ok (record t { flat = s'.inner }))
  unfolding locate is_static
  locate-static s s' i (static y o) a n t e l =
      let same = ok_inj {E = Error} l in
      (
        sym (ap (λ (u : Target V S N). u.flat) same),
        ap
            (λ (u : Target V S N).
              let r : Result Error (Target V S N) = ok (record u { flat = s'.inner }) in r)
            same,
      )
  locate-static s s' i (mapping y heap) a n t e l = cc
  locate-static s s' i (static_mapping y b) a n t e l = cc

  locate-own :
      (s s' : PagedState V M) (i : Interval) (v : Segment V S N) (a n : ℕ)
      → is_static v ≡ false
      → locate iv im s' i v a n ≡ locate iv im s i v a n
  unfolding locate is_static
  locate-own s s' i (static y o) a n e = cc
  locate-own s s' i (mapping y heap) a n e = refl
  locate-own s s' i (static_mapping y b) a n e = refl

  translate_checked-backing :
      (heap : ChunkState V S) (x : FlatState V) (a n : ℕ)
      → Heap.translate_checked iv (record heap { backing = x }) a n
        ≡ Heap.translate_checked iv heap a n
  unfolding Heap.translate_checked
  translate_checked-backing heap x a n = refl

  locate-renewed :
      (s s' : PagedState V M) (i : Interval) (v : Segment V S N) (a n : ℕ) (t : Target V S N)
      (x : FlatState V)
      → is_static v ≡ false
      → locate iv im s i v a n ≡ ok t
      → locate iv im s' i (renewed v x) a n
        ≡ ok (record { interval = i; segment = renewed v x; flat = x; address = t.address })
  unfolding locate is_static renewed
  locate-renewed s s' i (static y o) a n t x e l = cc
  locate-renewed s s' i (mapping y heap) a n t x e l =
      let (tr, e₁, e₂) = bind-ok (map_err chunked (Heap.translate_checked iv heap a n)) _ t l in
      rw (translate_checked-backing, e₁)
        (ap
          (λ k.
            let r : Result Error (Target V S N) = ok (record {
              interval = i;
              segment = mapping y (record heap { backing = x });
              flat = x;
              address = k;
            }) in
            r)
          (ap (λ (u : Target V S N). u.address) (ok_inj {E = Error} e₂)))
  locate-renewed s s' i (static_mapping y b) a n t x e l =
      ap
        (λ k.
          let r : Result Error (Target V S N) =
            ok (record { interval = i; segment = static_mapping y x; flat = x; address = k }) in
          r)
        (ap (λ (u : Target V S N). u.address) (ok_inj {E = Error} l))

  -- What another access finds after a write: the same address, in the flat state that was written
  -- if both lie in one.
  pub record Moved (s' : PagedState V M) (b m : ℕ) (t u : Target V S N) (x : FlatState V)
      : Type 0 where
    pub after : Target V S N
    pub resolves : resolve iv im s' b m ≡ ok after
    pub same_address : after.address ≡ u.address
    pub flat_after : after.flat ≡ (if same_store t u then x else u.flat)

  arrive :
      (s : PagedState V M) (b m : ℕ) (i : Interval) (w : Segment V S N)
      (others : List (Interval × Segment V S N)) (t : Target V S N)
      → wraps b ≡ false
      → im.overlap s.segments b ≡ (i, w) ∷ others
      → ltb i.end (ir.add b m) ≡ false
      → locate iv im s i w b m ≡ ok t
      → resolve iv im s b m ≡ ok t
  unfolding resolve
  arrive s b m i w others t e₁ e₂ e₃ e₄ = rw (e₁, e₂, e₃) e₄

  overlap_again :
      (s : PagedState V M) (b m : ℕ) (u : Target V S N) (i : Interval) (w : Segment V S N)
      → Found s b m u
      → (others : List (Interval × Segment V S N)) × (im.overlap (im.replace s.segments i w) b
          ≡ (u.interval, if same i u.interval then w else u.segment) ∷ others)
  overlap_again s b m u i w f =
      let (others, e) =
        holding-put (im.iter s.segments) f.others b i u.interval u.segment w
          (sym (im.overlap_lem s.segments b) ∙ f.overlap) in
      (
        others,
        im.overlap_lem (im.replace s.segments i w) b
            ∙ ap (holding b) (im.iter-replace s.segments i w)
            ∙ e,
      )

  pub same_entry :
      (s : PagedState V M) (a n b m : ℕ) (t u : Target V S N)
      → Found s a n t
      → Found s b m u
      → same t.interval u.interval ≡ true
      → t.segment ≡ u.segment
  same_entry s a n b m t u f g h =
      let es = im.iter s.segments in
      let e₁ =
        lookup-holding es f.others a t.interval t.segment
          (sym (im.overlap_lem s.segments a) ∙ f.overlap) in
      let e₂ =
        lookup-holding es g.others b u.interval u.segment
          (sym (im.overlap_lem s.segments b) ∙ g.overlap) in
      some_inj (sym e₁ ∙ ap (λ i. lookup i es) (same-eq t.interval u.interval h) ∙ e₂)

  pub resolve-write_back :
      (s : PagedState V M) (a n b m : ℕ) (t u : Target V S N) (x : FlatState V)
      → resolve iv im s a n ≡ ok t
      → resolve iv im s b m ≡ ok u
      → Moved (write_back im s t x) b m t u x
  resolve-write_back s a n b m t u x e₁ e₂ =
      let f = resolve-Found s a n t e₁ in
      let g = resolve-Found s b m u e₂ in
      let inner_written : PagedState V M = record s { inner = x } in
      let written : PagedState V M = record s {
        segments = im.replace s.segments t.interval (renewed t.segment x);
      } in
      let (others, again) = overlap_again s b m u t.interval (renewed t.segment x) g in
      elim (Bool-cases (is_static t.segment)) [
        | inl st ↦ elim (Bool-cases (is_static u.segment)) [
          | inl su ↦
              let (same_flat, l) =
                locate-static s inner_written u.interval u.segment b m u su g.located in
              subst (λ s'. Moved s' b m t u x)
                (sym (write_back-static s t.interval t.segment t.flat x t.address st))
                (record {
                  after = record u { flat = x };
                  resolves =
                      arrive inner_written b m u.interval u.segment g.others _ g.no_wrap g.overlap
                        g.fits l;
                  same_address = refl;
                  flat_after = rw (st, su) refl;
                })
          | inr su ↦
              subst (λ s'. Moved s' b m t u x)
                (sym (write_back-static s t.interval t.segment t.flat x t.address st))
                (record {
                  after = u;
                  resolves =
                      arrive inner_written b m u.interval u.segment g.others _ g.no_wrap g.overlap
                        g.fits (locate-own s inner_written u.interval u.segment b m su ∙ g.located);
                  same_address = refl;
                  flat_after = rw (st, su) refl;
                })
        ]
        | inr st ↦ elim (Bool-cases (is_static u.segment)) [
          | inl su ↦
              let apart : same t.interval u.interval ≡ false =
                elim (Bool-cases (same t.interval u.interval)) [
                  | inl h ↦ absurd (cc (ap is_static (same_entry s a n b m t u f g h)))
                  | inr h ↦ h
                ] in
              let (same_flat, l) =
                locate-static s written u.interval u.segment b m u su g.located in
              subst (λ s'. Moved s' b m t u x)
                (sym (write_back-own s t.interval t.segment t.flat x t.address st))
                (record {
                  after = record u { flat = s.inner };
                  resolves =
                      arrive written b m u.interval u.segment others _ g.no_wrap (rw apart at again)
                        g.fits l;
                  same_address = refl;
                  flat_after = rw (st, su) (sym same_flat);
                })
          | inr su ↦ elim (Bool-cases (same t.interval u.interval)) [
            | inl h ↦
                subst (λ s'. Moved s' b m t u x)
                  (sym (write_back-own s t.interval t.segment t.flat x t.address st))
                  (record {
                    after = record {
                      interval = u.interval;
                      segment = renewed u.segment x;
                      flat = x;
                      address = u.address;
                    };
                    resolves =
                        arrive written b m u.interval (renewed u.segment x) others _ g.no_wrap
                          ((rw h at again)
                            ∙ ap (λ v. (u.interval, renewed v x) ∷ others)
                                (same_entry s a n b m t u f g h))
                          g.fits
                          (locate-renewed s written u.interval u.segment b m u x su g.located);
                    same_address = refl;
                    flat_after = rw (st, su, h) refl;
                  })
            | inr h ↦
                subst (λ s'. Moved s' b m t u x)
                  (sym (write_back-own s t.interval t.segment t.flat x t.address st))
                  (record {
                    after = u;
                    resolves =
                        arrive written b m u.interval u.segment others _ g.no_wrap (rw h at again)
                          g.fits (locate-own s written u.interval u.segment b m su ∙ g.located);
                    same_address = refl;
                    flat_after = rw (st, su, h) refl;
                  })
          ]
        ]
      ]
