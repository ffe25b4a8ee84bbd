-- ===== src/Paged/IntervalMap.antt =====
-- What the code uses of `iset::IntervalMap`, a parameter with the behaviour that the code relies on.
pub mod Entries
use fuguex_core.Prelude.{
  ℕ, ◌<◌, ◌≡◌, refl, Bool, true, false, ◌&&◌, ◌||◌, List, [], ◌∷◌, ◌++◌, Option, none, some, ltb,
  leb, ◌==◌, if◌then◌else◌,
}
use fuguex_core.Chunked.Heap.{Interval}

abbrev pub holds : ℕ → Interval → Bool
holds a i = leb i.start a && ltb a i.end

abbrev pub meets : Interval → Interval → Bool
meets i j = ltb i.start j.end && ltb j.start i.end

abbrev pub same : Interval → Interval → Bool
same i j = i.start == j.start && i.end == j.end

module _ {A : Type 0} where
  -- the entries whose interval holds an address
  abbrev pub holding : ℕ → List (Interval × A) → List (Interval × A)
  holding a [] = []
  holding a ((i, v) ∷ es) = let rest = holding a es in if holds a i then (i, v) ∷ rest else rest

  abbrev pub any_meets : Interval → List (Interval × A) → Bool
  any_meets r [] = false
  any_meets r ((i, v) ∷ es) = meets r i || any_meets r es

  abbrev pub lookup : Interval → List (Interval × A) → Option A
  lookup r [] = none
  lookup r ((i, v) ∷ es) = if same r i then some v else lookup r es

  abbrev pub put : Interval → A → List (Interval × A) → List (Interval × A)
  put r w [] = []
  put r w ((i, v) ∷ es) = (i, if same r i then w else v) ∷ put r w es

  -- `filter_map` of the values
  abbrev pub kept : Interval → Option A → List (Interval × A) → List (Interval × A)
  kept i none es = es
  kept i (some v) es = (i, v) ∷ es

  abbrev pub filter_map : (Interval → A → Option A) → List (Interval × A) → List (Interval × A)
  filter_map f [] = []
  filter_map f ((i, v) ∷ es) = kept i (f i v) (filter_map f es)

-- `iter` is `iter(..)`, and `replace` the write through a reference that `overlap_mut` gives out.
-- `none` is a panic, on an empty range.
pub record IntervalMapOps (M A : Type 0) : Type 0 where
  pub from_iter : List (Interval × A) → Option M
  pub insert : M → Interval → A → M
  pub has_overlap : M → Interval → Option Bool
  pub overlap : M → ℕ → List (Interval × A)
  pub iter : M → List (Interval × A)
  pub get : M → Interval → Option A
  pub replace : M → Interval → A → M
  pub overlap_lem : (m : M) (a : ℕ) → overlap m a ≡ holding a (iter m)
  pub has_overlap_lem :
      (m : M) (r : Interval) → r.start < r.end → has_overlap m r ≡ some (any_meets r (iter m))
  pub get_lem : (m : M) (r : Interval) → get m r ≡ lookup r (iter m)
  pub iter-replace : (m : M) (r : Interval) (v : A) → iter (replace m r v) ≡ put r v (iter m)
  -- An entry that meets no other one is put in somewhere.
  pub iter-insert :
      (m : M) (r : Interval) (v : A)
      → r.start < r.end
      → any_meets r (iter m) ≡ false
      → (before : List (Interval × A)) × (behind : List (Interval × A)) × (iter m
          ≡ before ++ behind)
        × (iter (insert m r v) ≡ before ++ ((r, v) ∷ behind))
  -- `collect`, from what a map's own iterator gives, keeps its order.
  pub iter-from_iter :
      (m : M) (f : Interval → A → Option A)
      → (m' : M) × (from_iter (filter_map f (iter m)) ≡ some m') × (iter m' ≡ filter_map f (iter m))

-- A list of entries has that behaviour.
abbrev pub entries : {A : Type 0} → IntervalMapOps (List (Interval × A)) A
entries = record {
  from_iter = λ es. some es;
  insert = λ m r v. (r, v) ∷ m;
  has_overlap = λ m r. some (any_meets r m);
  overlap = λ m a. holding a m;
  iter = λ m. m;
  get = λ m r. lookup r m;
  replace = λ m r v. put r v m;
  overlap_lem = λ m a. refl;
  has_overlap_lem = λ m r h. refl;
  get_lem = λ m r. refl;
  iter-replace = λ m r v. refl;
  iter-insert = λ m r v h k. ([], m, refl, refl);
  iter-from_iter = λ m f. (filter_map f m, refl, refl);
}
