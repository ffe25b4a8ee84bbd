-- ===== src/Chunked/IntervalLists.antt =====
-- A list of intervals has the behaviour that the heap relies on.
use fuguex_core.Prelude.{
  ◌≤◌, ◌<◌, Option, none, some, ◌≡◌, refl, Bool, true, false, ◌&&◌, ◌||◌, not, List, [], ◌∷◌, ltb,
  leb, ◌==◌, ==_iff, if◌then◌else◌, arith,
}
use fuguex_core.Chunked.Heap.{Interval, IntervalOps}

abbrev pub same? : Interval → Interval → Bool
same? i j = (i.start == j.start) && (i.end == j.end)

abbrev pub keep : (Interval → Bool) → List Interval → List Interval
keep p [] = []
keep p (i ∷ is) = if p i then i ∷ keep p is else keep p is

abbrev pub any? : (Interval → Bool) → List Interval → Bool
any? p [] = false
any? p (i ∷ is) = p i || any? p is

-- The first interval is in the list.
pub any?-cons : (s : List Interval) (i : Interval) → any? (same? i) (i ∷ s) ≡ true
any?-cons s i = ground (arith, (==_iff i.start i.start).1 refl, (==_iff i.end i.end).1 refl)

abbrev pub insert : List Interval → Interval → Option (List Interval)
insert s i = if ltb i.start i.end then some (i ∷ s) else none

pub insert_empty : (s : List Interval) (i : Interval) → i.end ≤ i.start → insert s i ≡ none
insert_empty s i h = ground arith

pub insert_lem : (s : List Interval) (i : Interval) → i.start < i.end → insert s i ≡ some (i ∷ s)
insert_lem s i h = ground arith

abbrev pub intervals : IntervalOps (List Interval)
intervals = record {
  empty = [];
  insert = insert;
  remove = λ s i. keep (λ j. not (same? i j)) s;
  overlap = λ s a. keep (λ j. leb j.start a && ltb a j.end) s;
  iter = λ s lo hi. if ltb lo hi then some (keep (λ j. ltb j.start hi && ltb lo j.end) s) else none;
  has = λ s i. any? (same? i) s;
  has-empty = λ i. refl;
  insert_empty = insert_empty;
  has-insert = λ s i h. (i ∷ s, insert_lem s i h, any?-cons s i);
}
