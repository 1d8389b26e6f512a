-- ===== src/Changes/Rows/Edits.antt =====
-- A run of edits: the builder that records them, and the edits on the rows themselves.
use realm_object_store.Base.{
  ℕ, suc, ◌≡◌, ◌≢◌, refl, ap, ◌∙◌, fun_ext, Bool, true, false, ◌||◌, List, [], ◌∷◌, Option, none,
  some, ◌==◌, arith,
}
use realm_object_store.IndexSet.Single.Erasing.{after_erase}
use realm_object_store.Changes.Builder.{Builder, modify, insert, erase, move}
use realm_object_store.Changes.Invariant.{IsConsistent}
use realm_object_store.Changes.Invariant.Kept.{
  insert-IsConsistent, erase-IsConsistent, modify-IsConsistent,
}
use realm_object_store.Changes.Invariant.Relocating.{move-IsConsistent}
use realm_object_store.Changes.Rows.{source, with_inserted, before_move}
use realm_object_store.Changes.Rows.Moved.{source-insert, source-erase}
use realm_object_store.Changes.Rows.Relocated.{source-move}
use realm_object_store.Changes.Rows.Modified.{
  modified, modified-insert, modified-erase, modified-modify, modified-move,
}

-- An edit of a list of rows. An insertion puts in one row more than its number.
pub data Edit : Type 0 where
  inserts : ℕ → ℕ → Edit
  erases : ℕ → Edit
  modifies : ℕ → Option ℕ → Edit
  moves : (from to : ℕ) → from ≢ to → Edit

unfoldable pub record_edit : Builder → Edit → Builder
record_edit c (inserts i n) = insert c i (suc n) true
record_edit c (erases i) = erase c i
record_edit c (modifies i col) = modify c i col
record_edit c (moves from to h) = move c from to

unfoldable pub record_edits : Builder → List Edit → Builder
unfolding record_edit
record_edits c [] = c
record_edits c (e ∷ es) = record_edits (record_edit c e) es

-- A collection as its rows: for each, the row of the old collection, and whether it is modified.
abbrev pub Rows : Type 0
Rows = ℕ → Option ℕ × Bool

unfoldable pub edit_row : Edit → Rows → Rows
edit_row (inserts i n) rows = with_inserted (none, false) i (suc n) rows
edit_row (erases i) rows = λ j. rows (after_erase i j)
edit_row (modifies i col) rows = λ j. ((rows j).0, (i == j) || (rows j).1)
edit_row (moves from to h) rows = λ j. rows (before_move from to j)

unfoldable pub edit_rows : List Edit → Rows → Rows
unfolding edit_row
edit_rows [] rows = rows
edit_rows (e ∷ es) rows = edit_rows es (edit_row e rows)

unfoldable pub view : Builder → Rows
view c j = (source c j, modified c j)

-- The change of an unedited collection.
abbrev pub unchanged : Builder
unchanged = record {
  deletions = [];
  insertions = [];
  modifications = [];
  moves = [];
  columns = [];
  track_columns = true;
}

record_edit-IsConsistent :
    (c : Builder) (e : Edit) → IsConsistent c → IsConsistent (record_edit c e)
unfolding record_edit
record_edit-IsConsistent c (inserts i n) v = insert-IsConsistent c i (suc n) (omega arith) v
record_edit-IsConsistent c (erases i) v = erase-IsConsistent c i v
record_edit-IsConsistent c (modifies i col) v = modify-IsConsistent c i col v
record_edit-IsConsistent c (moves from to h) v = move-IsConsistent c from to h v

pub record_edits-IsConsistent :
    (c : Builder) (es : List Edit) → IsConsistent c → IsConsistent (record_edits c es)
unfolding record_edits
record_edits-IsConsistent c [] v = v
record_edits-IsConsistent c (e ∷ es) v =
    record_edits-IsConsistent (record_edit c e) es (record_edit-IsConsistent c e v)

source-modify :
    (c : Builder) (i : ℕ) (col : Option ℕ) (j : ℕ) → source (modify c i col) j ≡ source c j
unfolding source modify
source-modify c i none j = refl
source-modify c i (some k) j = refl

view-record_edit :
    (c : Builder) (e : Edit) (j : ℕ)
    → IsConsistent c
    → view (record_edit c e) j ≡ edit_row e (view c) j
unfolding view record_edit edit_row
view-record_edit c (inserts i n) j v = ground (
  arith,
  source-insert c i (suc n) j (omega arith) v.insertions_valid,
  modified-insert c i (suc n) j (omega arith) v,
)
view-record_edit c (erases i) j v =
    rw (source-erase c i j v.deletions_valid v.insertions_valid, modified-erase c i j v)
view-record_edit c (modifies i col) j v = rw (source-modify c i col j, modified-modify c i j col v)
view-record_edit c (moves from to h) j v =
    rw (source-move c from to j h v, modified-move c from to j h v)

pub view-record_edits :
    (c : Builder) (es : List Edit)
    → IsConsistent c
    → view (record_edits c es) ≡ edit_rows es (view c)
unfolding record_edits edit_rows
view-record_edits c [] v = refl
view-record_edits c (e ∷ es) v =
    view-record_edits (record_edit c e) es (record_edit-IsConsistent c e v)
    ∙ ap (edit_rows es) (fun_ext λ j. view-record_edit c e j v)

-- For a consistent change and any list of edits, the change recorded by the operations of the builder
-- is consistent, and it says of every row which old row it is and whether it is modified exactly as
-- carrying out the edits on the rows does.
pub record_edits_lem :
    (c : Builder) (es : List Edit)
    → IsConsistent c
    → IsConsistent (record_edits c es) × (view (record_edits c es) ≡ edit_rows es (view c))
record_edits_lem c es v = (record_edits-IsConsistent c es v, view-record_edits c es v)
