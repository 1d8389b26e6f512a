-- ===== src/Changes/Merge.antt =====
-- `CollectionChangeBuilder::merge` and `clean_up_stale_moves`: the change that two changes make, one
-- after the other. The second change is left empty, and is no part of the result; `none` means that
-- the fuel of a removal ran out.
pub mod Origin
pub mod Still
use realm_object_store.Base.{
  ℕ, ◌+◌, ◌-◌, Bool, true, false, not, ◌&&◌, ◌||◌, List, [], ◌∷◌, ◌++◌, Option, none, some, ◌==◌,
  if◌then◌else◌,
}
use realm_object_store.IndexSet.Ranges.{Range}
use realm_object_store.IndexSet.Single.{add, contains}
use realm_object_store.IndexSet.Counting.{count_ranges, shift, unshift}
use realm_object_store.IndexSet.Removing.{remove}
use realm_object_store.IndexSet.Combining.{
  add_set, insert_set, shift_for_insert_set, erase_set, is_empty,
}
use realm_object_store.IndexSet.Combining.ShiftedBy.{add_shifted_by}
use realm_object_store.Changes.Moves.{Move, move_to}
use realm_object_store.Changes.Builder.{Builder}

abbrev pub no_moves : List Move → Bool
no_moves [] = true
no_moves (m ∷ ms) = false

-- `CollectionChangeSet::empty`; a builder leaves `modifications_new` empty.
unfoldable pub is_unchanged : Builder → Bool
is_unchanged c =
    is_empty c.deletions && is_empty c.insertions && is_empty c.modifications && no_moves c.moves

-- `columns[col]`: a missing key stands for the empty set.
abbrev column : ℕ → List (ℕ × List Range) → List Range
column k [] = []
column k ((j, s) ∷ cs) = let rest = column k cs in if j == k then s else rest

abbrev has_column : ℕ → List (ℕ × List Range) → Bool
has_column k [] = false
has_column k ((j, s) ∷ cs) = (j == k) || has_column k cs

-- The keys of both maps, each once.
abbrev keys_beside : List (ℕ × List Range) → List (ℕ × List Range) → List ℕ
keys_beside cs [] = []
keys_beside cs ((k, s) ∷ os) =
    let rest = keys_beside cs os in if has_column k cs then rest else k ∷ rest

abbrev keys : List (ℕ × List Range) → List ℕ
keys [] = []
keys ((k, s) ∷ cs) = k ∷ keys cs

abbrev col_keys : List (ℕ × List Range) → List (ℕ × List Range) → List ℕ
col_keys cs os = keys cs ++ keys_beside cs os

abbrev each_key :
    (List Range → List Range → List Range)
    → List (ℕ × List Range)
    → List (ℕ × List Range)
    → List ℕ
    → List (ℕ × List Range)
each_key f cs os [] = []
each_key f cs os (k ∷ ks) = (k, f (column k cs) (column k os)) ∷ each_key f cs os ks

-- `for_each_col` of `merge`, where it changes the sets of the second change.
unfoldable pub for_each_other : (List Range → List Range → List Range) → Builder → Builder → Builder
for_each_other f b c = record c {
  modifications = f b.modifications c.modifications;
  columns =
      if b.track_columns
      then each_key f b.columns c.columns (col_keys b.columns c.columns)
      else c.columns;
}

-- And where it changes those of the first.
unfoldable pub for_each_own : (List Range → List Range → List Range) → Builder → Builder → Builder
for_each_own f b c = record b {
  modifications = f b.modifications c.modifications;
  columns =
      if b.track_columns
      then each_key f b.columns c.columns (col_keys b.columns c.columns)
      else b.columns;
}

-- `if (col.contains(from)) other.add(to)`
abbrev pub add_moved : ℕ → ℕ → List Range → List Range → List Range
add_moved from to col other = if contains col from then add other to else other

-- `find_if`, by where a move starts.
unfoldable pub move_from : ℕ → List Move → Option Move
move_from i [] = none
move_from i (m ∷ ms) = let rest = move_from i ms in if i == m.from then some m else rest

abbrev last_or : Move → List Move → Move
last_or m [] = m
last_or m (n ∷ ns) = last_or n ns

abbrev without_last : List Move → List Move
without_last [] = []
without_last (m ∷ []) = []
without_last (m ∷ n ∷ ns) = m ∷ without_last (n ∷ ns)

-- The moves after one that is replaced by the last of them.
abbrev replace : List Move → List Move
replace [] = []
replace (m ∷ ms) = last_or m ms ∷ without_last (m ∷ ms)

-- `*it = c.moves.back(); c.moves.pop_back()`, for the first move that starts at the place.
unfoldable pub take_move : ℕ → List Move → List Move
take_move i [] = []
take_move i (m ∷ ms) = let rest = take_move i ms in if i == m.from then replace ms else m ∷ rest

-- What the function given to the first `remove_if` does with a move: the move, if it is kept, and the
-- second change.
abbrev update_found : Move → Option Move → Builder → Builder → Option Move × Builder
update_found old (some m) b c = (
  some (move_to old.from m.to),
  record (for_each_other (add_moved m.from m.to) b c) { moves = take_move m.from c.moves },
)
update_found old none b c =
    if contains c.deletions old.to
    then (none, c)
    else (some (move_to old.from (shift c.insertions (unshift c.deletions old.to))), c)

abbrev keep : Option Move → List Move → List Move
keep none ms = ms
keep (some m) ms = m ∷ ms

unfoldable pub update_old : List Move → Builder → Builder → List Move × Builder
unfolding for_each_other move_from take_move
update_old [] b c = ([], c)
update_old (old ∷ ms) b c =
    let (kept, c') = update_found old (move_from old.to c.moves) b c in
    let (rest, c'') = update_old ms b c' in (keep kept rest, c'')

abbrev pub needs_update : Builder → Bool
needs_update c = not (no_moves c.moves && is_empty c.deletions && is_empty c.insertions)

-- The first part of `merge`: the moves of the first change, and the second change.
unfoldable pub first_moves : Builder → Builder → List Move × Builder
unfolding update_old
first_moves b c = if needs_update c then update_old b.moves b c else (b.moves, c)

-- New moves of rows that were inserted before are left out.
unfoldable pub new_moves : List Range → List Move → List Move
new_moves insertions [] = []
new_moves insertions (m ∷ ms) =
    let rest = new_moves insertions ms in if contains insertions m.from then rest else m ∷ rest

-- Rows that were modified and then moved are still modified.
unfoldable pub moved_columns : List Move → Builder → Builder → Builder
unfolding for_each_other
moved_columns [] b c = c
moved_columns (m ∷ ms) b c = moved_columns ms b (for_each_other (add_moved m.from m.to) b c)

-- Where new moves start before the first change.
unfoldable pub moves_before : List Range → List Range → List Move → List Move
moves_before deletions insertions [] = []
moves_before deletions insertions (m ∷ ms) =
    move_to (shift deletions (unshift insertions m.from)) m.to
    ∷ moves_before deletions insertions ms

-- `clean_up_stale_moves`
abbrev is_stale : Move → Builder → Bool
is_stale m b =
    (m.from - count_ranges b.deletions 0 m.from) == (m.to - count_ranges b.insertions 0 m.to)

abbrev drop_stale : Move → Builder → Option (List Range) → Option (List Range) → Option Builder
drop_stale m b (some d) (some i) = some (record b { deletions = d; insertions = i })
drop_stale m b _ _ = none

abbrev keep_move : Move → Option Builder → Option Builder
keep_move m none = none
keep_move m (some b) = some (record b { moves = m ∷ b.moves })

abbrev then_clean : (Builder → Option Builder) → Option Builder → Option Builder
then_clean f none = none
then_clean f (some b) = f b

-- The moves are those that are still to be looked at; the result has those that stay.
unfoldable pub clean_up : List Move → Builder → Option Builder
unfolding count_ranges remove
clean_up [] b = some (record b { moves = [] })
clean_up (m ∷ ms) b =
    let stale = drop_stale m b (remove b.deletions m.from 1) (remove b.insertions m.to 1) in
    let kept = keep_move m (clean_up ms b) in
    let dropped = then_clean (clean_up ms) stale in if is_stale m b then dropped else kept

unfoldable pub clean_up_stale_moves : Builder → Option Builder
unfolding clean_up
clean_up_stale_moves b = clean_up b.moves b

-- `col.erase_at(c.deletions); col.shift_for_insert_at(c.insertions); col.add(other)`
abbrev pub carry : Builder → List Range → List Range → List Range
carry c col other = add_set (shift_for_insert_set (erase_set col c.deletions) c.insertions) other

abbrev carry_some : Builder → Option Builder → Option Builder
carry_some c none = none
carry_some c (some b) = some (for_each_own (carry c) b c)

-- The moves and the second change, after what `merge` does to both.
abbrev pub prepare : Builder → Builder → List Move × Builder
prepare b c =
    let (olds, c1) = first_moves b c in
    let c2 =
      if not (is_empty b.insertions) && not (no_moves c1.moves)
      then record c1 { moves = new_moves b.insertions c1.moves }
      else c1 in
    let c3 =
      if not (is_empty b.modifications) && not (no_moves c2.moves)
      then moved_columns c2.moves b c2
      else c2 in
    let news =
      if not (is_empty b.deletions) || not (is_empty b.insertions)
      then moves_before b.deletions b.insertions c3.moves
      else c3.moves in
    (olds ++ news, c3)

-- `merge`
unfoldable pub merge : Builder → Builder → Option Builder
unfolding is_unchanged first_moves new_moves moved_columns moves_before clean_up_stale_moves
    for_each_own
merge b c =
    let (moves, c') = prepare b c in
    let joined = record b {
      moves = moves;
      deletions = add_shifted_by b.deletions b.insertions c'.deletions;
      insertions = insert_set (erase_set b.insertions c'.deletions) c'.insertions;
    } in
    let merged = carry_some c' (clean_up_stale_moves joined) in
    if is_unchanged c then some b else if is_unchanged b then some c else merged
