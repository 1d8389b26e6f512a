-- ===== src/Changes/Finalize.antt =====
-- The beginning and the end of a `CollectionChangeBuilder`: its constructor, and `finalize`, which makes
-- the `CollectionChangeSet` that the callbacks get.
use realm_object_store.Base.{
  Bool, ℕ, ◌≡◌, refl, sym, ap, ◌∙◌, true, false, not, ◌&&◌, List, [], ◌∷◌, Option, none, some,
  arith, Bool-cases, inl, inr,
}
use realm_object_store.IndexSet.Ranges.{Range, member, IsValid}
use realm_object_store.IndexSet.Single.{add}
use realm_object_store.IndexSet.Single.Adding.{add-IsValid, member-add}
use realm_object_store.IndexSet.Counting.{shift, unshift}
use realm_object_store.IndexSet.Counting.Laws.{shift-unshift, member-shift, unshift-shift}
use realm_object_store.IndexSet.Combining.{erase_set, shift_for_insert_set}
use realm_object_store.IndexSet.Combining.Erasing.{erase_set-Holds}
use realm_object_store.IndexSet.Combining.Shifting.{shift_for_insert_set-Holds}
use realm_object_store.IndexSet.Removing.{remove_set}
use realm_object_store.IndexSet.Removing.Laws.{remove_set-Leaves}
use realm_object_store.Changes.Moves.{Move, has_move_to}
use realm_object_store.Changes.Builder.{Builder}
use realm_object_store.Changes.Invariant.{IsConsistent, Recorded}
use realm_object_store.Changes.Rows.{origin}

-- `CollectionChangeSet`
pub record ChangeSet : Type 0 where
  pub deletions : List Range
  pub insertions : List Range
  pub modifications : List Range
  pub modifications_new : List Range
  pub moves : List Move
  pub columns : List (ℕ × List Range)

-- The constructor: the rows that each move leaves and reaches are deleted and inserted.
unfoldable pub add_moves : List Move → List Range → List Range → List Range × List Range
add_moves [] d s = (d, s)
add_moves (m ∷ ms) d s = add_moves ms (add d m.from) (add s m.to)

unfoldable pub construct : List Range → List Range → List Range → List Move → Builder
unfolding add_moves
construct deletions insertions modifications moves =
    let (d, s) = add_moves moves deletions insertions in
    record {
      deletions = d;
      insertions = s;
      modifications = modifications;
      moves = moves;
      columns = [];
      track_columns = true;
    }

-- `finalize`; `none` if the loop of `remove` has no fuel left.
unfoldable pub modifications_in_old : Builder → List Range
unfolding erase_set shift_for_insert_set
modifications_in_old c = shift_for_insert_set (erase_set c.modifications c.insertions) c.deletions

abbrev finalized : Builder → Option (List Range) → Option ChangeSet
finalized c none = none
finalized c (some modifications_new) = some record {
  deletions = c.deletions;
  insertions = c.insertions;
  modifications = modifications_in_old c;
  modifications_new = modifications_new;
  moves = c.moves;
  columns = c.columns;
}

unfoldable pub finalize : Builder → Option ChangeSet
unfolding modifications_in_old remove_set
finalize c = finalized c (remove_set c.modifications c.insertions)

-- What is modified in the old rows, by the place in the new ones.
modifications_in_old_lem :
    (c : Builder) (i : ℕ)
    → IsConsistent c
    → IsValid (modifications_in_old c)
      × (member (modifications_in_old c) i ≡ (
          not (member c.deletions i)
          && member c.modifications (shift c.insertions (unshift c.deletions i))))
unfolding modifications_in_old
modifications_in_old_lem c i v =
    let (ev, e) =
      erase_set-Holds c.modifications c.insertions v.modifications_valid v.insertions_valid in
    let (sv, h) =
      shift_for_insert_set-Holds (erase_set c.modifications c.insertions) c.deletions ev
        v.deletions_valid in
    (sv, h i ∙ ap (λ b. not (member c.deletions i) && b) (e (unshift c.deletions i)))

-- No two moves end at one row.
abbrev pub Apart : List Move → Type 0
Apart [] = Unit {0}
Apart (m ∷ ms) = (has_move_to m.to ms ≡ false) × Apart ms

add_moves-IsValid :
    (ms : List Move) (d s : List Range)
    → IsValid d
    → IsValid s
    → IsValid (add_moves ms d s).0 × IsValid (add_moves ms d s).1
unfolding add_moves
add_moves-IsValid [] d s v w = (v, w)
add_moves-IsValid (m ∷ ms) d s v w =
    add_moves-IsValid ms (add d m.from) (add s m.to) (add-IsValid d m.from v) (add-IsValid s m.to w)

-- What is deleted or inserted stays so.
member-add_moves :
    (ms : List Move) (d s : List Range) (j : ℕ)
    → IsValid d
    → IsValid s
    → ((member d j ≡ true) → member (add_moves ms d s).0 j ≡ true)
      × ((member s j ≡ true) → member (add_moves ms d s).1 j ≡ true)
unfolding add_moves
member-add_moves [] d s j v w = (λ h. h, λ h. h)
member-add_moves (m ∷ ms) d s j v w =
    let ih =
      member-add_moves ms (add d m.from) (add s m.to) j (add-IsValid d m.from v)
        (add-IsValid s m.to w) in
    (
      λ h. ih.0 (ground (arith, member-add d m.from j v, h)),
      λ h. ih.1 (ground (arith, member-add s m.to j w, h)),
    )

add_moves-Recorded :
    (ms : List Move) (d s : List Range)
    → IsValid d
    → IsValid s
    → Apart ms
    → Recorded (add_moves ms d s).0 (add_moves ms d s).1 ms
unfolding add_moves
add_moves-Recorded [] d s v w a = tt
add_moves-Recorded (m ∷ ms) d s v w a =
    let dv = add-IsValid d m.from v in
    let sv = add-IsValid s m.to w in
    let stays = λ (j : ℕ). member-add_moves ms (add d m.from) (add s m.to) j dv sv in
    (
      (stays m.from).0 (ground (arith, member-add d m.from m.from v)),
      (stays m.to).1 (ground (arith, member-add s m.to m.to w)),
      a.0,
      add_moves-Recorded ms (add d m.from) (add s m.to) dv sv a.1,
    )

pub construct-IsConsistent :
    (d s m : List Range) (ms : List Move)
    → IsValid d
    → IsValid s
    → IsValid m
    → Apart ms
    → IsConsistent (construct d s m ms)
unfolding construct
construct-IsConsistent d s m ms v w x a =
    let valid = add_moves-IsValid ms d s v w in
    record {
      deletions_valid = valid.0;
      insertions_valid = valid.1;
      modifications_valid = x;
      columns_valid = tt;
      recorded = add_moves-Recorded ms d s v w a;
    }

-- What holds of the row that a row was or is; nothing holds of a row that there is not.
abbrev pub of_row : (ℕ → Bool) → Option ℕ → Bool
of_row p none = false
of_row p (some i) = p i

-- An old row is modified if the row that it has become is.
modified_before :
    (m s d : List Range) (j : ℕ)
    → IsValid s
    → IsValid d
    → (member m j && not (member s j))
      ≡ of_row (λ i. not (member d i) && member m (shift s (unshift d i))) (origin d s j)
unfolding origin
modified_before m s d j w x = elim (Bool-cases (member s j)) [
  | inl e ↦ rw e (ground arith)
  | inr e ↦
      let q : shift s (unshift d (shift d (unshift s j))) ≡ j =
        rw (unshift-shift d (unshift s j) x) (shift-unshift s j w e) in
      rw (e, member-shift d (unshift s j) x, q) (ground arith)
]

-- A new row is modified if the row that it was is; the old rows have their new places as the new rows
-- have their old ones, with the sets swapped.
modified_after :
    (m s d : List Range) (i : ℕ)
    → IsValid s
    → (not (member d i) && member m (shift s (unshift d i)))
      ≡ of_row (λ j. member m j && not (member s j)) (origin s d i)
unfolding origin
modified_after m s d i w = elim (Bool-cases (member d i)) [
  | inl e ↦ rw e refl
  | inr e ↦ rw (e, member-shift s (unshift d i) w) (ground arith)
]

of_row-same : (p q : ℕ → Bool) (o : Option ℕ) → ((i : ℕ) → p i ≡ q i) → of_row p o ≡ of_row q o
of_row-same p q none h = refl
of_row-same p q (some i) h = h i

-- What `finalize` reports: the deletions, the insertions and the moves of the builder. The new rows that
-- are modified are those that are so and not inserted; these and the old ones are the same rows.
pub record Reports (c : Builder) (r : ChangeSet) : Type 0 where
  pub same_deletions : r.deletions ≡ c.deletions
  pub same_insertions : r.insertions ≡ c.insertions
  pub same_moves : r.moves ≡ c.moves
  pub modifications_valid : IsValid r.modifications
  pub modifications_new_valid : IsValid r.modifications_new
  pub modified_new :
      (j : ℕ)
      → member r.modifications_new j ≡ (member c.modifications j && not (member c.insertions j))
  pub before :
      (j : ℕ)
      → member r.modifications_new j
        ≡ of_row (member r.modifications) (origin r.deletions r.insertions j)
  pub after :
      (i : ℕ)
      → member r.modifications i
        ≡ of_row (member r.modifications_new) (origin r.insertions r.deletions i)

-- On a consistent change `finalize` ends within the fuel of the model and keeps the deletions, the
-- insertions and the moves. The new rows that it reports as modified are those that are modified and not
-- inserted. By the deletions and the insertions alone, a new row is reported exactly if it was an old row
-- and that one is reported, and an old row exactly if it is a new row and that one is reported.
pub finalize_lem :
    (c : Builder) → IsConsistent c → (r : ChangeSet) × (finalize c ≡ some r) × Reports c r
unfolding finalize
finalize_lem c v =
    let d = c.deletions in
    let s = c.insertions in
    let m = c.modifications in
    let (new, e, nv, h) = remove_set-Leaves m s v.modifications_valid v.insertions_valid in
    let old = λ (i : ℕ). modifications_in_old_lem c i v in
    (
      record {
        deletions = d;
        insertions = s;
        modifications = modifications_in_old c;
        modifications_new = new;
        moves = c.moves;
        columns = c.columns;
      },
      ap (finalized c) e,
      record {
        same_deletions = refl;
        same_insertions = refl;
        same_moves = refl;
        modifications_valid = (old 0).0;
        modifications_new_valid = nv;
        modified_new = h;
        before = λ j.
            h j
            ∙ modified_before m s d j v.insertions_valid v.deletions_valid
            ∙ of_row-same _ (member (modifications_in_old c)) (origin d s j) (λ i. sym (old i).1);
        after = λ i.
            (old i).1
            ∙ modified_after m s d i v.insertions_valid
            ∙ of_row-same _ (member new) (origin s d i) (λ j. sym (h j));
      },
    )
