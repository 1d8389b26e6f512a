-- ===== src/Changes/Rows/Modified.antt =====
-- The modified rows after each operation of the builder.
use realm_object_store.Base.{
  ℕ, ◌-◌, ◌<◌, ◌≡◌, ◌≢◌, Bool, true, false, ◌||◌, List, Option, none, some, ◌==◌, arith,
}
use realm_object_store.IndexSet.Ranges.{Range, member, IsValid}
use realm_object_store.IndexSet.Single.{erase_at}
use realm_object_store.IndexSet.Single.Adding.{contains-member, member-add}
use realm_object_store.IndexSet.Single.Erasing.{after_erase, erase_at-IsValid, member-erase_at}
use realm_object_store.IndexSet.Single.Inserting.{member-insert_at}
use realm_object_store.IndexSet.Single.Shifting.{member-shift_for_insert_at}
use realm_object_store.Changes.Builder.{Builder, modify, insert, erase, move, move_modified}
use realm_object_store.Changes.Invariant.{IsConsistent}
use realm_object_store.Changes.Invariant.Relocating.{relocate_cases}
use realm_object_store.Changes.Rows.{with_inserted, before_move}

-- A row is marked as modified.
unfoldable pub modified : Builder → ℕ → Bool
modified c j = member c.modifications j

pub modified-insert :
    (c : Builder) (i n j : ℕ)
    → 0 < n
    → IsConsistent c
    → modified (insert c i n true) j ≡ with_inserted false i n (modified c) j
unfolding modified insert
modified-insert c i n j h v =
    member-shift_for_insert_at c.modifications i n j h v.modifications_valid

pub modified-erase :
    (c : Builder) (i j : ℕ) → IsConsistent c → modified (erase c i) j ≡ modified c (after_erase i j)
unfolding modified erase
modified-erase c i j v = member-erase_at c.modifications i j v.modifications_valid

pub modified-modify :
    (c : Builder) (i j : ℕ) (col : Option ℕ)
    → IsConsistent c
    → modified (modify c i col) j ≡ ((i == j) || modified c j)
unfolding modified modify
modified-modify c i j none v = member-add c.modifications i j v.modifications_valid
modified-modify c i j (some k) v = member-add c.modifications i j v.modifications_valid

-- The rows of one column go where the rows of the collection go.
pub member-move_modified :
    (from to j : ℕ) (s : List Range)
    → IsValid s
    → member (move_modified from to s) j ≡ member s (before_move from to j)
unfolding move_modified
member-move_modified from to j s v =
    let w = erase_at-IsValid s from v in
    ground (
      arith,
      contains-member s from v,
      member-insert_at (erase_at s from) to 1 j (omega arith) w,
      member-shift_for_insert_at (erase_at s from) to 1 j (omega arith) w,
      member-erase_at s from j v,
      member-erase_at s from (j - 1) v,
    )

pub modified-move :
    (c : Builder) (from to j : ℕ)
    → from ≢ to
    → IsConsistent c
    → modified (move c from to) j ≡ modified c (before_move from to j)
unfolding modified move
modified-move c from to j h v =
    relocate_cases c from to h v
      (λ c'.
        member (move_modified from to c'.modifications) j
        ≡ member c.modifications (before_move from to j))
      (member-move_modified from to j c.modifications v.modifications_valid)
      (λ e. member-move_modified from to j c.modifications v.modifications_valid)
