-- ===== src/Changes/Rows/Moved.antt =====
-- The old rows after each operation of the builder.
use realm_object_store.Base.{
  ℕ, ◌-◌, ◌<◌, ◌≡◌, ◌≢◌, refl, true, false, List, [], ◌∷◌, ◌++◌, none, some, ◌==◌, if◌then◌else◌,
  arith,
}
use realm_object_store.IndexSet.Ranges.{Range, IsValid}
use realm_object_store.IndexSet.Single.{erase_at, insert_at}
use realm_object_store.IndexSet.Single.Erasing.{after_erase, erase_at-IsValid}
use realm_object_store.IndexSet.Counting.{erase_or_unshift}
use realm_object_store.IndexSet.Counting.Laws.{left-erase_or_unshift}
use realm_object_store.Changes.Moves.{
  Move, moves_after_insert, moves_after_erase, moves_after_move, moved_to, moved_from,
}
use realm_object_store.Changes.Builder.{Builder, insert, erase, deleted}
use realm_object_store.Changes.Rows.{origin, or_else, source, with_inserted, before_move}
use realm_object_store.Changes.Rows.Origin.{origin-insert_at, origin-erase}

pub moved_from-insert :
    (i n j : ℕ) (ms : List Move)
    → moved_from j (moves_after_insert i n ms) ≡ with_inserted none i n (λ k. moved_from k ms) j
unfolding moved_from moves_after_insert
moved_from-insert i n j [] = ground arith
moved_from-insert i n j (m ∷ ms) = ground (arith, moved_from-insert i n j ms)

pub moved_from-erase :
    (i j : ℕ) (ms : List Move)
    → moved_from j (moves_after_erase i ms) ≡ moved_from (after_erase i j) ms
unfolding moved_from moves_after_erase
moved_from-erase i j [] = refl
moved_from-erase i j (m ∷ ms) = ground (arith, moved_from-erase i j ms)

moved_to_iff :
    (from to t j : ℕ) → from ≢ to → (moved_to from to t == j) ≡ (t == before_move from to j)
unfolding moved_to
moved_to_iff from to t j h = ground arith

pub moved_from-move :
    (from to j : ℕ) (ms : List Move)
    → from ≢ to
    → moved_from j (moves_after_move from to ms) ≡ moved_from (before_move from to j) ms
unfolding moved_from moves_after_move
moved_from-move from to j [] h = refl
moved_from-move from to j (m ∷ ms) h =
    rw (moved_to_iff from to m.to j h, moved_from-move from to j ms h)

-- The rows after `insert`, with moves tracked: those from the index on are `n` further on, and the
-- new ones have no old row.
pub source-insert :
    (c : Builder) (i n j : ℕ)
    → 0 < n
    → IsValid c.insertions
    → source (insert c i n true) j ≡ with_inserted none i n (source c) j
unfolding source insert
source-insert c i n j h v =
    ground
      (arith, origin-insert_at c.deletions c.insertions i n j h v, moved_from-insert i n j c.moves)

pub source-erase :
    (c : Builder) (i j : ℕ)
    → IsValid c.deletions
    → IsValid c.insertions
    → source (erase c i) j ≡ source c (after_erase i j)
unfolding source erase
source-erase c i j v w = rw (
  left-erase_or_unshift c.insertions i w,
  moved_from-erase i j c.moves,
  origin-erase c.deletions c.insertions i j v w,
)

-- The first half of `move`, and its second half, by the deletions and insertions alone.
pub origin-move :
    (d s : List Range) (from to j : ℕ)
    → IsValid d
    → IsValid s
    → (j == to) ≡ false
    → origin (deleted (erase_or_unshift s from).0 d) (insert_at (erase_at s from) to 1) j
      ≡ origin d s (before_move from to j)
origin-move d s from to j v w h =
    let d' = deleted (erase_or_unshift s from).0 d in
    ground (
      arith,
      origin-insert_at d' (erase_at s from) to 1 j (omega arith) (erase_at-IsValid s from w),
      origin-erase d s from j v w,
      origin-erase d s from (j - 1) v w,
    )

pub origin-move_self :
    (d s : List Range) (from to : ℕ)
    → IsValid s
    → origin d (insert_at (erase_at s from) to 1) to ≡ none
origin-move_self d s from to w =
    ground (
      arith,
      origin-insert_at d (erase_at s from) to 1 to (omega arith) (erase_at-IsValid s from w),
    )

pub moved_from-append :
    (j : ℕ) (ms : List Move) (m : Move)
    → moved_from j (ms ++ m ∷ [])
      ≡ or_else (moved_from j ms) (if m.to == j then some m.from else none)
unfolding moved_from
moved_from-append j [] m = refl
moved_from-append j (n ∷ ms) m = ground (arith, moved_from-append j ms m)
