-- ===== src/Changes/Rows/Relocated.antt =====
-- The old rows after `move`.
use realm_object_store.Base.{
  ℕ, ◌≡◌, ◌≢◌, refl, ap, true, false, List, [], ◌∷◌, ◌++◌, none, ◌==◌, arith, Bool-cases, ==→eq,
  inl, inr,
}
use realm_object_store.IndexSet.Ranges.{Range, member, IsValid}
use realm_object_store.IndexSet.Single.{add, erase_at, insert_at}
use realm_object_store.IndexSet.Counting.{shift, unshift, erase_or_unshift}
use realm_object_store.IndexSet.Counting.Laws.{add_shifted_lem, erase_or_unshift_lem}
use realm_object_store.Changes.Moves.{Move, move_to, moves_after_move, moved_from}
use realm_object_store.Changes.Builder.{Builder, move, deleted}
use realm_object_store.Changes.Invariant.{IsConsistent, has_move_to-member, moved_from-has_move_to}
use realm_object_store.Changes.Rows.{origin, or_else, source, before_move}
use realm_object_store.Changes.Rows.Origin.{deleted_lem}
use realm_object_store.Changes.Rows.Moved.{
  moved_from-move, origin-move, origin-move_self, moved_from-append,
}

module _ (d s : List Range) (ms : List Move) (from to : ℕ) (apart : from ≢ to) (v : IsValid d)
    (w : IsValid s) where
  abbrev inserted : List Range
  inserted = insert_at (erase_at s from) to 1

  abbrev later : List Move
  later = moves_after_move from to ms

  -- A row that was inserted or moved before: the deletions stay as they are.
  known :
      (j : ℕ)
      → member s from ≡ true
      → or_else (moved_from j later) (origin d inserted j)
        ≡ (let k = before_move from to j in or_else (moved_from k ms) (origin d s k))
  unfolding origin
  known j h =
      let fixed : deleted (erase_or_unshift s from).0 d ≡ d =
        rw (deleted_lem d s from v w, h) refl in
      rw (moved_from-move from to j ms apart) (elim (Bool-cases (j == to)) [
        | inl e ↦ ground (
          arith,
          origin-move_self d s from to w,
          ap (λ (k : ℕ). origin d inserted k) (==→eq j to e),
        )
        | inr e ↦ ap (or_else _) (rw fixed at (origin-move d s from to j v w e))
      ])

  -- A row of the old collection: it is deleted there, inserted here, and the move recorded.
  fresh :
      (j : ℕ)
      → member s from ≡ false
      → moved_from from ms ≡ none
      → let u = unshift s from in
        or_else
          (moved_from j (later ++ move_to (shift d u) to ∷ []))
          (origin (add d (shift d u)) inserted j)
        ≡ (let k = before_move from to j in or_else (moved_from k ms) (origin d s k))
  unfolding origin
  fresh j h m =
      let fixed : deleted (erase_or_unshift s from).0 d ≡ add d (shift d (unshift s from)) =
        rw (deleted_lem d s from v w, h) refl in
      rw
        (
          moved_from-append j later (move_to (shift d (unshift s from)) to),
          moved_from-move from to j ms apart,
        )
        (elim (Bool-cases (j == to)) [
          | inl e ↦ rw e (rw (m, h) (ground arith))
          | inr e ↦ ground (arith, rw fixed at (origin-move d s from to j v w e))
        ])

-- The rows after `move`: the row at `from` is at `to`, and those in between close up.
pub source-move :
    (c : Builder) (from to j : ℕ)
    → from ≢ to
    → IsConsistent c
    → source (move c from to) j ≡ source c (before_move from to j)
unfolding move source
source-move c from to j h v = elim (moved_from-has_move_to c.moves from) [
  | inl (e, _) ↦ rw e (
      known c.deletions c.insertions c.moves from to h v.deletions_valid v.insertions_valid j
        (has_move_to-member c.deletions c.insertions c.moves from v.recorded e))
  | inr (e, m) ↦
      rw (e, erase_or_unshift_lem c.insertions from v.insertions_valid)
        (elim (Bool-cases (member c.insertions from)) [
          | inl i ↦ rw i (
              known c.deletions c.insertions c.moves from to h v.deletions_valid v.insertions_valid
                j i)
          | inr i ↦
              rw (i, add_shifted_lem c.deletions (unshift c.insertions from) v.deletions_valid)
                (fresh c.deletions c.insertions c.moves from to h v.deletions_valid
                  v.insertions_valid j i m)
        ])
]
