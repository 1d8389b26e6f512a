-- ===== src/Tests/OnDiff.antt =====
-- Lists of five keys each: one is gone, one is new, and one has moved to the front.
use realm_object_store.Base.{
  ℕ, ◌≤◌, map, ◌≡◌, ◌==◌, refl, false, Bool, List, [], ◌∷◌, none, some, arith, length,
}
use realm_object_store.IndexSet.Ranges.{range, member}
use realm_object_store.IndexSet.Single.{add}
use realm_object_store.Changes.Finalize.{ChangeSet, finalize, finalize_lem, Reports}
use realm_object_store.Changes.Diff.Matching.{
  Row, row, Placed, Match, sort_by, find_longest_match, find_longest_matches, longest_matches,
}
use realm_object_store.Changes.Diff.Lists.{get_elem?}
use realm_object_store.Changes.Diff.Applying.{applied}
use realm_object_store.Changes.Diff.Ordered.{calculate-applied}
use realm_object_store.Changes.Diff.Changed.{calculate-modified, calculate-IsConsistent}
use realm_object_store.Changes.Diff.Blocks.{Fits}
use realm_object_store.Changes.Diff.Complete.{find_longest_match_lem}
use realm_object_store.Changes.Diff.Rounds.{longest_matches_enough}
use realm_object_store.Changes.Diff.{before_by_key, indexed, calculate}

abbrev prev : List ℕ
prev = 2 ∷ 3 ∷ 5 ∷ 7 ∷ 9 ∷ []

abbrev next : List ℕ
next = 9 ∷ 2 ∷ 3 ∷ 4 ∷ 7 ∷ []

abbrev changed : ℕ → Bool
changed k = k == 3

calculate_deletions : (calculate prev next changed false).deletions ≡ range 2 3 ∷ range 4 5 ∷ []
unfolding calculate sort_by longest_matches add
calculate_deletions = refl

calculate_insertions : (calculate prev next changed false).insertions ≡ range 0 1 ∷ range 3 4 ∷ []
unfolding calculate sort_by longest_matches add
calculate_insertions = refl

calculate-applied_example : applied prev next (calculate prev next changed false) ≡ some next
calculate-applied_example = calculate-applied prev next changed false (λ e. absurd cc)

calculate-modified_example : member (calculate prev next changed false).modifications 2 ≡ changed 3
unfolding calculate sort_by longest_matches add member get_elem?
calculate-modified_example = calculate-modified prev next changed false 3 2 refl refl

finalize_lem_example :
    (r : ChangeSet) × (finalize (calculate prev next changed false) ≡ some r)
    × Reports (calculate prev next changed false) r
finalize_lem_example =
    finalize_lem (calculate prev next changed false)
      (calculate-IsConsistent prev next changed false)

abbrev old_order : List Row
old_order = row 2 0 ∷ row 3 1 ∷ row 7 3 ∷ row 9 4 ∷ []

abbrev new_order : List Placed
new_order =
    record { key = 9; prev_tv_index = 4; tv_index = 0 }
    ∷ record { key = 2; prev_tv_index = 0; tv_index = 1 }
    ∷ record { key = 3; prev_tv_index = 1; tv_index = 2 }
    ∷ record { key = 7; prev_tv_index = 3; tv_index = 4 }
    ∷ []

longest_matches_enough_example :
    let b = sort_by before_by_key (indexed 0 new_order) in
    find_longest_matches [] old_order b 4 0 4 0 (length b)
    ≡ find_longest_matches [] old_order b 9 0 4 0 (length b)
longest_matches_enough_example =
    longest_matches_enough [] old_order new_order 0 9 (omega arith) (omega arith) (omega arith)

-- The row with the key 9 is the last of the old ones, and the first of the new ones.
abbrev moved : Match
moved = record { i = 3; j = 0; size = 1; modified = none }

moved-Fits : Fits (map Row.key old_order) (map Placed.key new_order) 0 4 0 4 moved
unfolding get_elem?
moved-Fits = (
  omega arith,
  omega arith,
  omega arith,
  omega arith,
  λ x y e l u.
      let ex : x ≡ 3 = omega (arith, l, u) in
      let ey : y ≡ 0 = omega (arith, e, ex) in rw (ex, ey) refl,
)

find_longest_match_lem_example :
    let best =
      find_longest_match [] old_order (sort_by before_by_key (indexed 0 new_order)) 0 4 0 4 in
    Fits (map Row.key old_order) (map Placed.key new_order) 0 4 0 4 best × (moved.size ≤ best.size)
find_longest_match_lem_example =
    find_longest_match_lem [] old_order new_order 0 4 0 4 moved (omega arith) (omega arith)
      (omega arith) moved-Fits

-- The rows with the keys 2, 3 and 7.
find_longest_match_size :
    (find_longest_match [] old_order (sort_by before_by_key (indexed 0 new_order)) 0 4 0 4).size ≡ 3
unfolding find_longest_match sort_by indexed
find_longest_match_size = refl
