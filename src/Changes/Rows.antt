-- ===== src/Changes/Rows.antt =====
-- What a recorded change says of the rows: which row of the old collection each row of the new one
-- is. The operations of the builder are compared with the edits that they stand for.
pub mod Origin
pub mod Moved
pub mod Relocated
pub mod Modified
pub mod Edits
use realm_object_store.Base.{
  ℕ, ◌+◌, ◌-◌, Bool, true, false, List, Option, none, some, ltb, ◌==◌, if◌then◌else◌,
}
use realm_object_store.IndexSet.Ranges.{Range, member}
use realm_object_store.IndexSet.Single.Erasing.{after_erase}
use realm_object_store.IndexSet.Counting.{shift, unshift}
use realm_object_store.Changes.Moves.{Move, moved_from}
use realm_object_store.Changes.Builder.{Builder}

-- The old row by the deletions and insertions alone; an inserted row has none.
unfoldable pub origin : List Range → List Range → ℕ → Option ℕ
origin d s j = if member s j then none else some (shift d (unshift s j))

abbrev pub or_else : Option ℕ → Option ℕ → Option ℕ
or_else (some a) o = some a
or_else none o = o

-- The old row, with the recorded moves taken into account.
unfoldable pub source : Builder → ℕ → Option ℕ
source c j = or_else (moved_from j c.moves) (origin c.deletions c.insertions j)

-- A sequence with `n` entries `x` put in at `i`.
abbrev pub with_inserted {ℓ} : {A : Type ℓ} → A → ℕ → ℕ → (ℕ → A) → ℕ → A
with_inserted x i n old j = if ltb j i then old j else if ltb j (i + n) then x else old (j - n)

-- Where the row at `j` was before the row at `from` was moved to `to`.
abbrev pub before_move : ℕ → ℕ → ℕ → ℕ
before_move from to j = if j == to then from else after_erase from (if ltb j to then j else j - 1)
