-- ===== src/IndexSet/Chunks/Counting.antt =====
-- `IndexSet::count` of src/index_set.cpp on the chunks of the set, with the loop that takes the counts
-- of whole chunks.
use realm_object_store.Base.{
  ℕ, ◌+◌, ◌-◌, ◌<◌, min, max, Bool, true, false, ◌||◌, List, [], ◌∷◌, ◌++◌, ltb, leb, if◌then◌else◌,
}
use realm_object_store.IndexSet.Ranges.{Range, width}
use realm_object_store.IndexSet.Counting.{count_rest}
use realm_object_store.IndexSet.Chunks.{Chunk, front_first, flat}

-- The complete chunks that end by the end index, and then the ranges.
unfoldable pub count_chunks : List Chunk → ℕ → ℕ
unfolding count_rest flat
count_chunks [] e = 0
count_chunks (c ∷ cs) e =
    if leb c.end e then c.count + count_chunks cs e else count_rest (c.ranges ++ flat cs) e

-- `data.front().second` of a chunk.
abbrev pub front_second : List Range → ℕ
front_second [] = 0
front_second (r ∷ rs) = r.second

-- At the start of the next chunk: the source returns if its first range ends at or after the end index.
abbrev pub next_chunks : List Chunk → ℕ → ℕ
next_chunks [] e = 0
next_chunks (c ∷ cs) e = if leb e (front_second c.ranges) then 0 else count_chunks (c ∷ cs) e

-- The rest of the chunk that the start index is in the middle of.
unfoldable pub count_middle : List Range → List Chunk → ℕ → ℕ
unfolding count_chunks
count_middle [] cs e = next_chunks cs e
count_middle (r ∷ rs) cs e =
    let rest = count_middle rs cs e in
    if ltb r.second e then width r + rest else if ltb r.first e then e - r.first else 0

-- From the iterator that `find` gives: whether its offset is not 0, and the ranges of its chunk from it
-- on.
unfoldable pub count_at : Bool → List Range → Chunk → List Chunk → ℕ → ℕ → ℕ
unfolding count_middle
count_at inside [] c cs b e = 0
count_at inside (r ∷ rs) c cs b e =
    if leb e r.first
    then 0
    else if leb e r.second
    then min r.second e - max r.first b
    else if ltb r.first b || inside
    then (r.second - max r.first b) + count_middle rs cs e
    else count_chunks (c ∷ cs) e

-- `std::lower_bound` in the chunk: the first range that ends after the index.
unfoldable pub count_in : Bool → List Range → Chunk → List Chunk → ℕ → ℕ → ℕ
unfolding count_at
count_in inside [] c cs b e = 0
count_in inside (r ∷ rs) c cs b e =
    let rest = count_in true rs c cs b e in
    if leb r.second b then rest else count_at inside (r ∷ rs) c cs b e

-- `count(start_index, end_index)`
unfoldable pub count : List Chunk → ℕ → ℕ → ℕ
unfolding count_in
count [] b e = 0
count (c ∷ cs) b e =
    let rest = count cs b e in if leb c.end b then rest else count_in false c.ranges c cs b e

-- No chunk but the first starts with a range that has the index before the end index.
abbrev pub Clear : ℕ → List Chunk → Type 0
Clear e [] = Unit {0}
Clear e (c ∷ cs) = (front_first c.ranges < e → front_second c.ranges < e) × Clear e cs

abbrev pub ClearBehind : ℕ → List Chunk → Type 0
ClearBehind e [] = Unit {0}
ClearBehind e (c ∷ cs) = Clear e cs
