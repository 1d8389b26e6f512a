-- ===== src/Changes/Diff/Matching.antt =====
-- `LongestCommonSubsequenceCalculator`: blocks of rows that two orders of the same rows share.
use realm_object_store.Base.{
  ℕ, zero, suc, ◌+◌, ◌-◌, ◌%◌, ◌^◌, Bool, ◌&&◌, List, [], ◌∷◌, ◌++◌, Option, none, some, ltb, leb,
  ◌==◌, length, if◌then◌else◌,
}
use realm_object_store.IndexSet.Ranges.{Range}
use realm_object_store.IndexSet.Counting.{count_ranges}
use realm_object_store.IndexSet.Chunks.{take, drop}

pub record Row : Type 0 where
  pub key : ℕ
  pub tv_index : ℕ

abbrev pub row : ℕ → ℕ → Row
row k t = record { key = k; tv_index = t }

-- A row of the new results that has a place in the old ones.
pub record Placed : Type 0 where
  pub key : ℕ
  pub prev_tv_index : ℕ
  pub tv_index : ℕ

-- `std::sort`
unfoldable pub insert_by {ℓ} : {A : Type ℓ} → (A → A → Bool) → A → List A → List A
insert_by less x [] = x ∷ []
insert_by less x (y ∷ ys) =
    let rest = insert_by less x ys in if less y x then y ∷ rest else x ∷ y ∷ ys

unfoldable pub sort_by {ℓ} : {A : Type ℓ} → (A → A → Bool) → List A → List A
unfolding insert_by
sort_by less [] = []
sort_by less (x ∷ xs) = insert_by less x (sort_by less xs)

-- A block of the first list and the block of the second that it matches; how many rows of it were
-- modified is counted when it is asked for (`npos` is `none`).
pub record Match : Type 0 where
  pub i : ℕ
  pub j : ℕ
  pub size : ℕ
  pub modified : Option ℕ

-- A block that ends at an index of the second list.
pub record Length : Type 0 where
  pub j : ℕ
  pub len : ℕ

-- `length`, by the blocks that end at the previous row.
unfoldable pub block_length : List Length → ℕ → ℕ
block_length [] j = 1
block_length (p ∷ ps) j = let rest = block_length ps j in if p.j + 1 == j then p.len + 1 else rest

-- `lower_bound` in rows sorted by key, and the rows from there on that have the key.
unfoldable pub from_key : ℕ → List Row → List Row
from_key k [] = []
from_key k (x ∷ xs) = let rest = from_key k xs in if ltb x.key k then rest else x ∷ xs

unfoldable pub while_key : ℕ → List Row → List Row
while_key k [] = []
while_key k (x ∷ xs) = let rest = while_key k xs in if x.key == k then x ∷ rest else []

-- The loop of `for_each_b_match`: the places of these rows within the range.
unfoldable pub within_range : ℕ → ℕ → List Row → List ℕ
within_range begin2 end2 [] = []
within_range begin2 end2 (x ∷ xs) =
    let rest = within_range begin2 end2 xs in
    if ltb x.tv_index begin2 then rest else if leb end2 x.tv_index then [] else x.tv_index ∷ rest

abbrev pub b_matches : List Row → ℕ → ℕ → ℕ → List ℕ
b_matches b begin2 end2 key = within_range begin2 end2 (while_key key (from_key key b))

-- `a - b` of `size_t`.
unfoldable pub word_minus : ℕ → ℕ → ℕ
word_minus a b = (a + 2 ^ 64 - b) % 2 ^ 64

-- How many rows of the best block were modified, as the source counts them.
abbrev pub known : List Range → ℕ → ℕ → Option ℕ → ℕ
known modifications j size (some n) = n
known modifications j size none = count_ranges modifications (word_minus (j + 1) size) (j + 1)

abbrev pub ending : ℕ → ℕ → ℕ → Option ℕ → Match
ending i j size modified = record {
  i = i + 1 - size;
  j = j + 1 - size;
  size = size;
  modified = modified;
}

-- Which block is the best, after one of the given size that ends at both indexes.
unfoldable pub better : List Range → Match → ℕ → ℕ → ℕ → Match
unfolding word_minus count_ranges
better modifications best i j size =
    let old = known modifications best.j size best.modified in
    let new = count_ranges modifications (j + 1 - size) (j + 1) in
    if ltb best.size size
    then ending i j size none
    else if size == best.size
    then (if ltb new old then ending i j size (some new) else record best { modified = some old })
    else best

-- The function that is called for each match of a row, over the matches.
unfoldable pub try_matches :
    List Range → List Length → ℕ → List ℕ → Match → List Length → Match × List Length
unfolding block_length better
try_matches modifications prev i [] best cur = (best, cur)
try_matches modifications prev i (j ∷ js) best cur =
    let size = block_length prev j in
    try_matches modifications prev i js (better modifications best i j size)
      (cur ++ record { j = j; len = size } ∷ [])

-- The loop over the rows of the first list, from index `i` on.
unfoldable pub try_rows : List Range → List Row → ℕ → ℕ → ℕ → List Row → Match → List Length → Match
unfolding from_key while_key within_range try_matches
try_rows modifications b begin2 end2 i [] best prev = best
try_rows modifications b begin2 end2 i (x ∷ xs) best prev =
    let (best', cur) = try_matches modifications prev i (b_matches b begin2 end2 x.key) best [] in
    try_rows modifications b begin2 end2 (i + 1) xs best' cur

-- `find_longest_match`
unfoldable pub find_longest_match : List Range → List Row → List Row → ℕ → ℕ → ℕ → ℕ → Match
unfolding try_rows take drop
find_longest_match modifications a b begin1 end1 begin2 end2 =
    try_rows modifications b begin2 end2 begin1 (take (end1 - begin1) (drop begin1 a))
      (record { i = begin1; j = begin2; size = 0; modified = some 0 }) []

-- `find_longest_matches`: each call has fewer rows of the first list, and is given as many rounds of
-- fuel as there are.
unfoldable pub find_longest_matches :
    List Range → List Row → List Row → ℕ → ℕ → ℕ → ℕ → ℕ → List Match
unfolding find_longest_match
find_longest_matches modifications a b zero begin1 end1 begin2 end2 = []
find_longest_matches modifications a b (suc fuel) begin1 end1 begin2 end2 =
    let m = find_longest_match modifications a b begin1 end1 begin2 end2 in
    let left = find_longest_matches modifications a b fuel begin1 m.i begin2 m.j in
    let right =
      find_longest_matches modifications a b fuel (m.i + m.size) end1 (m.j + m.size) end2 in
    if m.size == 0
    then []
    else ((if ltb begin1 m.i && ltb begin2 m.j then left else [])
        ++ (m ∷ (if ltb (m.i + m.size) end2 && ltb (m.j + m.size) end2 then right else [])))

-- The matches from an index of both lists on, and an empty one at their ends.
unfoldable pub longest_matches : List Row → List Row → ℕ → List Range → List Match
unfolding find_longest_matches
longest_matches a b start modifications =
    find_longest_matches modifications a b (length a - start) start (length a) start (length b)
    ++ record { i = length a; j = length b; size = 0; modified = some 0 } ∷ []
