-- ===== src/IndexSet/Combining.antt =====
-- The operations of `IndexSet` that take a second set. They go over the indexes of both sets, and
-- most give what `ChunkedRangeVectorBuilder` makes of the indexes that they push.
pub mod Indexes
pub mod Building
pub mod Hits
pub mod Inserting
pub mod Shifting
pub mod Erasing
pub mod Adding
pub mod ShiftedBy
use Prim.Native.Nat.{compare, Ordering, lt, eq, gt}
use realm_object_store.Base.{
  ℕ, zero, suc, ◌+◌, ◌-◌, Bool, true, false, ◌||◌, List, [], ◌∷◌, ◌++◌, ltb, leb, ◌==◌,
  if◌then◌else◌,
}
use realm_object_store.IndexSet.Ranges.{Range, range, width}
use realm_object_store.IndexSet.Iterator.{Iterator, at, begin, rewind, ranges, find_from}
use realm_object_store.IndexSet.Single.{do_add}

-- The indexes of a range, from its first one on.
unfoldable pub run : ℕ → ℕ → List ℕ
run a zero = []
run a (suc n) = a ∷ run (a + 1) n

-- `as_indexes()`, in the order in which `IndexIterator` visits them.
unfoldable pub as_indexes : List Range → List ℕ
unfolding run
as_indexes [] = []
as_indexes (r ∷ rs) = run r.first (width r) ++ as_indexes rs

-- `push_back` of the builder; the ranges that it has are kept with the last one first.
unfoldable pub push_back : Range → List Range → List Range
push_back r [] = r ∷ []
push_back r (p ∷ ps) = if r.first == p.second then range p.first r.second ∷ ps else r ∷ p ∷ ps

unfoldable pub push_indexes : List ℕ → List Range → List Range
unfolding push_back
push_indexes [] built = built
push_indexes (i ∷ is) built = push_indexes is (push_back (range i (i + 1)) built)

unfoldable pub push_ranges : List Range → List Range → List Range
unfolding push_back
push_ranges [] built = built
push_ranges (r ∷ rs) built = push_ranges rs (push_back r built)

-- A builder that is given indexes, and maybe ranges after them, and finalized.
unfoldable pub build_with : List ℕ → List Range → List Range
unfolding push_indexes push_ranges rewind
build_with is rs = rewind (push_ranges rs (push_indexes is [])) []

unfoldable pub build : List ℕ → List Range
unfolding build_with
build is = build_with is []

abbrev pub is_empty : List Range → Bool
is_empty [] = true
is_empty (r ∷ rs) = false

-- The loop of `add` of a set: each search goes on from where the last index was added.
unfoldable pub add_each : List ℕ → Iterator → Iterator
unfolding do_add find_from
add_each [] it = it
add_each (i ∷ is) it = add_each is (do_add (find_from i it.before it.rest) i)

-- `add(other)`
unfoldable pub add_set : List Range → List Range → List Range
unfolding add_each begin ranges as_indexes
add_set s other = ranges (add_each (as_indexes other) (begin s))

-- What the loops of `insert_at(positions)` push; `n` positions were inserted before.
unfoldable pub inserted : List ℕ → List ℕ → ℕ → List ℕ
inserted [] ys n = ys
inserted (x ∷ xs) [] n = (x + n) ∷ inserted xs [] n
inserted (x ∷ xs) (y ∷ ys) n = elim (compare (x + n) y) [
  | lt ↦ (x + n) ∷ inserted xs (y ∷ ys) n
  | _ ↦ y ∷ inserted (x ∷ xs) ys (n + 1)
]

-- `insert_at(positions)`
unfoldable pub insert_set : List Range → List Range → List Range
unfolding inserted build as_indexes
insert_set s positions =
    if is_empty positions
    then s
    else if is_empty s
    then positions
    else build (inserted (as_indexes s) (as_indexes positions) 0)

-- What the loops of `shift_for_insert_at(values)` push.
unfoldable pub shifted : List ℕ → List ℕ → ℕ → List ℕ
shifted [] ys n = []
shifted (x ∷ xs) [] n = (x + n) ∷ shifted xs [] n
shifted (x ∷ xs) (y ∷ ys) n = elim (compare (x + n) y) [
  | lt ↦ (x + n) ∷ shifted xs (y ∷ ys) n
  | _ ↦ shifted (x ∷ xs) ys (n + 1)
]

-- `values.m_data.front().begin >= m_data.back().end`
abbrev last_end : List Range → ℕ
last_end [] = 0
last_end (r ∷ []) = r.second
last_end (r ∷ q ∷ rs) = last_end (q ∷ rs)

abbrev first_begin : List Range → ℕ
first_begin [] = 0
first_begin (r ∷ rs) = r.first

-- `shift_for_insert_at(values)`
unfoldable pub shift_for_insert_set : List Range → List Range → List Range
unfolding shifted build as_indexes
shift_for_insert_set s values =
    if is_empty s || is_empty values
    then s
    else if leb (last_end s) (first_begin values)
    then s
    else build (shifted (as_indexes s) (as_indexes values) 0)

-- What the loops of `erase_at(positions)` push; `n` positions were erased before.
unfoldable pub erased : List ℕ → List ℕ → ℕ → List ℕ
erased [] ys n = []
erased (x ∷ xs) [] n = (x - n) ∷ erased xs [] n
erased (x ∷ xs) (y ∷ ys) n = elim (compare x y) [
  | lt ↦ (x - n) ∷ erased xs (y ∷ ys) n
  | eq ↦ erased xs ys (n + 1)
  | gt ↦ erased (x ∷ xs) ys (n + 1)
]

-- `erase_at(positions)`
unfoldable pub erase_set : List Range → List Range → List Range
unfolding erased build as_indexes
erase_set s positions =
    if is_empty s || is_empty positions
    then s
    else build (erased (as_indexes s) (as_indexes positions) 0)
