-- ===== src/Changes/Builder.antt =====
-- The operations of `CollectionChangeBuilder` that record one edit of the collection.
use realm_object_store.Base.{
  ℕ, ◌+◌, ◌-◌, Bool, List, [], ◌∷◌, ◌++◌, Option, none, some, ◌==◌, if◌then◌else◌,
}
use realm_object_store.IndexSet.Ranges.{Range, width}
use realm_object_store.IndexSet.Single.{
  add, set, contains, erase_at, insert_at, shift_for_insert_at,
}
use realm_object_store.IndexSet.Counting.{add_shifted, erase_or_unshift}
use realm_object_store.Changes.Moves.{
  Move, move_to, moves_after_insert, moves_after_erase, moves_after_move, has_move_to,
}

-- The map `columns` is a list of keys with their sets, each key once.
pub record Builder : Type 0 where
  pub deletions : List Range
  pub insertions : List Range
  pub modifications : List Range
  pub moves : List Move
  pub columns : List (ℕ × List Range)
  pub track_columns : Bool

unfoldable pub each_column :
    (List Range → List Range) → List (ℕ × List Range) → List (ℕ × List Range)
each_column f [] = []
each_column f ((k, s) ∷ cs) = (k, f s) ∷ each_column f cs

-- `for_each_col`: the modifications, and those of each column if columns are tracked.
unfoldable pub for_each_col : (List Range → List Range) → Builder → Builder
unfolding each_column
for_each_col f c = record c {
  modifications = f c.modifications;
  columns = if c.track_columns then each_column f c.columns else c.columns;
}

-- `columns[col].add(ndx)`: a missing key stands for the empty set.
unfoldable pub add_to_column : ℕ → ℕ → List (ℕ × List Range) → List (ℕ × List Range)
add_to_column k i [] = (k, add [] i) ∷ []
add_to_column k i ((j, s) ∷ cs) =
    if j == k then (j, add s i) ∷ cs else (j, s) ∷ add_to_column k i cs

-- `modify(ndx, col)`; the column `npos` is `none`.
unfoldable pub modify : Builder → ℕ → Option ℕ → Builder
unfolding add_to_column
modify c i none = record c { modifications = add c.modifications i }
modify c i (some k) = record c {
  modifications = add c.modifications i;
  columns = if c.track_columns then add_to_column k i c.columns else c.columns;
}

-- `insert(index, count, track_moves)`
unfoldable pub insert : Builder → ℕ → ℕ → Bool → Builder
unfolding for_each_col moves_after_insert
insert c i n track_moves =
    let c' = for_each_col (λ s. shift_for_insert_at s i n) c in
    if track_moves
    then record c' {
      insertions = insert_at c.insertions i n;
      moves = moves_after_insert i n c.moves;
    }
    else c'

abbrev pub deleted : Option ℕ → List Range → List Range
deleted none d = d
deleted (some u) d = (add_shifted d u).1

-- `erase(index)`
unfoldable pub erase : Builder → ℕ → Builder
unfolding for_each_col moves_after_erase
erase c i =
    let c' = for_each_col (λ s. erase_at s i) c in
    let (unshifted, rest) = erase_or_unshift c.insertions i in
    record c' {
      insertions = rest;
      deletions = deleted unshifted c.deletions;
      moves = moves_after_erase i c.moves;
    }

-- How many indexes a set has.
abbrev pub total : List Range → ℕ
total [] = 0
total (r ∷ rs) = width r + total rs

-- `clear(old_size)`; the insertions are rows of the collection, so that the subtraction does not
-- wrap.
unfoldable pub clear : Builder → ℕ → Builder
clear c old_size = record c {
  modifications = [];
  insertions = [];
  moves = [];
  columns = [];
  deletions = set (old_size + total c.deletions - total c.insertions);
}

-- The end of `move` for a row that was not moved before; the moves are already shifted.
unfoldable pub record_move : Builder → ℕ → Option ℕ → List Range → Builder
record_move c to none rest = record c { insertions = insert_at rest to 1 }
record_move c to (some u) rest =
    let (from, deletions) = add_shifted c.deletions u in
    record c {
      insertions = insert_at rest to 1;
      deletions = deletions;
      moves = c.moves ++ move_to from to ∷ [];
    }

-- The rows of a column go along with the row that moves.
unfoldable pub move_modified : ℕ → ℕ → List Range → List Range
move_modified from to s =
    if contains s from
    then insert_at (erase_at s from) to 1
    else shift_for_insert_at (erase_at s from) to 1

-- `move(from, to)` on the deletions, the insertions and the moves.
unfoldable pub relocate : Builder → ℕ → ℕ → Builder
unfolding moves_after_move record_move has_move_to
relocate c from to =
    let c' = record c { moves = moves_after_move from to c.moves } in
    let (unshifted, rest) = erase_or_unshift c.insertions from in
    if has_move_to from c.moves
    then record c' { insertions = insert_at (erase_at c.insertions from) to 1 }
    else record_move c' to unshifted rest

-- `move(from, to)`
unfoldable pub move : Builder → ℕ → ℕ → Builder
unfolding for_each_col relocate move_modified
move c from to = for_each_col (move_modified from to) (relocate c from to)
