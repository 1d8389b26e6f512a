-- ===== src/Changes/Moves.antt =====
-- `CollectionChangeSet::Move`, and the loops over the recorded moves.
use realm_object_store.Base.{
  ℕ, ◌+◌, ◌-◌, Bool, false, ◌&&◌, ◌||◌, List, [], ◌∷◌, Option, none, some, ltb, leb, ◌==◌,
  if◌then◌else◌,
}

pub record Move : Type 0 where
  pub from : ℕ
  pub to : ℕ

abbrev pub move_to : ℕ → ℕ → Move
move_to a b = record { from = a; to = b }

-- The loop of `insert`: destinations at or after the index go up by the count.
unfoldable pub moves_after_insert : ℕ → ℕ → List Move → List Move
moves_after_insert i n [] = []
moves_after_insert i n (m ∷ ms) =
    move_to m.from (if leb i m.to then m.to + n else m.to) ∷ moves_after_insert i n ms

-- The loop of `erase`: a move to the index is dropped, later destinations go down by one.
unfoldable pub moves_after_erase : ℕ → List Move → List Move
moves_after_erase i [] = []
moves_after_erase i (m ∷ ms) =
    if m.to == i
    then moves_after_erase i ms
    else move_to m.from (if ltb i m.to then m.to - 1 else m.to) ∷ moves_after_erase i ms

-- Where the loop of `move` puts a destination.
unfoldable pub moved_to : ℕ → ℕ → ℕ → ℕ
moved_to from to t =
    if t == from
    then to
    else if leb to t && ltb t from
    then t + 1
    else if leb t to && ltb from t
    then t - 1
    else t

unfoldable pub moves_after_move : ℕ → ℕ → List Move → List Move
unfolding moved_to
moves_after_move from to [] = []
moves_after_move from to (m ∷ ms) =
    move_to m.from (moved_to from to m.to) ∷ moves_after_move from to ms

-- `updated_existing_move`: some recorded move ends at the index.
unfoldable pub has_move_to : ℕ → List Move → Bool
has_move_to t [] = false
has_move_to t (m ∷ ms) = m.to == t || has_move_to t ms

-- The old row of the first recorded move that ends at the index.
unfoldable pub moved_from : ℕ → List Move → Option ℕ
moved_from t [] = none
moved_from t (m ∷ ms) = if m.to == t then some m.from else moved_from t ms
