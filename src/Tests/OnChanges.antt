-- ===== src/Tests/OnChanges.antt =====
-- A list of rows that is edited: two are put in, one is moved, one is taken out and one is changed.
use realm_object_store.Base.{ℕ, ltb, true, false, ◌≡◌, refl, List, [], ◌∷◌, none, some, arith}
use realm_object_store.IndexSet.Single.{contains, insert_at}
use realm_object_store.IndexSet.Counting.{erase_or_unshift, add_shifted}
use realm_object_store.Changes.Builder.{Builder, insert, erase, modify, move, clear}
use realm_object_store.Changes.Moves.{moves_after_insert, moves_after_erase}
use realm_object_store.Changes.Invariant.{IsConsistent}
use realm_object_store.Changes.Invariant.Kept.{clear_lem}
use realm_object_store.IndexSet.Ranges.{member}
use realm_object_store.Changes.Rows.Edits.{
  Edit, inserts, erases, modifies, moves, unchanged, record_edits, edit_rows, view,
  record_edits-IsConsistent, record_edits_lem,
}
use realm_object_store.Changes.Merge.{merge}
use realm_object_store.Changes.Merge.Still.{Follows, merge-Follows}

unchanged-IsConsistent : IsConsistent unchanged
unchanged-IsConsistent = ground arith

abbrev session : List Edit
session = inserts 2 1 ∷ moves 5 1 (λ e. omega arith) ∷ erases 3 ∷ modifies 4 none ∷ []

record_edits_lem_example :
    IsConsistent (record_edits unchanged session)
    × (view (record_edits unchanged session) ≡ edit_rows session (view unchanged))
record_edits_lem_example = record_edits_lem unchanged session unchanged-IsConsistent

-- Six rows with two that were put in: four old rows are gone.
clear_lem_example :
    IsConsistent (clear (insert unchanged 2 2 true) 6)
    × ((j : ℕ) → member (clear (insert unchanged 2 2 true) 6).deletions j ≡ ltb j 4)
    × ((j : ℕ) → member (clear (insert unchanged 2 2 true) 6).insertions j ≡ false)
unfolding insert insert_at
clear_lem_example = clear_lem (insert unchanged 2 2 true) 6 4 refl

session_moves : (record_edits unchanged session).moves ≡ record { from = 3; to = 1 } ∷ []
unfolding record_edits insert erase move contains modify erase_or_unshift insert_at add_shifted
session_moves = refl

-- Two rows are put in and one is changed; then one is taken out, and one is put in at the end.
abbrev earlier : List Edit
earlier = inserts 2 2 ∷ modifies 5 none ∷ []

abbrev later : List Edit
later = erases 3 ∷ modifies 0 none ∷ inserts 6 1 ∷ []

merge-Follows_example :
    (t : Builder) × (merge (record_edits unchanged earlier) (record_edits unchanged later) ≡ some t)
    × Follows (record_edits unchanged earlier) (record_edits unchanged later) t
unfolding record_edits insert modify erase erase_or_unshift moves_after_insert moves_after_erase
merge-Follows_example =
    merge-Follows (record_edits unchanged earlier) (record_edits unchanged later)
      (record_edits-IsConsistent unchanged earlier unchanged-IsConsistent)
      (record_edits-IsConsistent unchanged later unchanged-IsConsistent) refl refl
