-- ===== src/Changes/Invariant/Relocating.antt =====
-- `move` keeps the invariant of the builder.
use realm_object_store.Base.{
  ℕ, ◌-◌, ◌≡◌, ◌≢◌, refl, ◌∙◌, true, false, ◌||◌, List, [], ◌∷◌, ◌++◌, ◌==◌, arith, Bool-cases, inl,
  inr,
}
use realm_object_store.IndexSet.Ranges.{Range, member, IsValid}
use realm_object_store.IndexSet.Single.{add, contains, erase_at, insert_at}
use realm_object_store.IndexSet.Single.Adding.{add-IsValid, member-add}
use realm_object_store.IndexSet.Single.Erasing.{erase_at-IsValid, member-erase_at}
use realm_object_store.IndexSet.Single.Inserting.{insert_at-IsValid, member-insert_at}
use realm_object_store.IndexSet.Single.Shifting.{shift_for_insert_at-IsValid}
use realm_object_store.IndexSet.Counting.{shift, unshift}
use realm_object_store.IndexSet.Counting.Laws.{add_shifted_lem, erase_or_unshift_lem}
use realm_object_store.Changes.Moves.{Move, move_to, moves_after_move, moved_to, has_move_to}
use realm_object_store.Changes.Builder.{Builder, move, move_modified, relocate}
use realm_object_store.Changes.Invariant.{IsConsistent, Recorded}
use realm_object_store.Changes.Invariant.Kept.{for_each_col-AllValid}

moved_to_self : (from to : ℕ) → moved_to from to from ≡ to
unfolding moved_to
moved_to_self from to = ground arith

moved_to-injective :
    (from to t u : ℕ) → from ≢ to → (moved_to from to t == moved_to from to u) ≡ (t == u)
unfolding moved_to
moved_to-injective from to t u h = ground arith

module _ (from to : ℕ) (apart : from ≢ to) where
  has_move_to-move :
      (t : ℕ) (ms : List Move)
      → has_move_to (moved_to from to t) (moves_after_move from to ms) ≡ has_move_to t ms
  unfolding has_move_to moves_after_move
  has_move_to-move t [] = refl
  has_move_to-move t (m ∷ ms) = rw (moved_to-injective from to m.to t apart, has_move_to-move t ms)

  member-moved_to :
      (s : List Range) (t : ℕ)
      → IsValid s
      → member s t ≡ true
      → member (insert_at (erase_at s from) to 1) (moved_to from to t) ≡ true
  unfolding moved_to
  member-moved_to s t v h =
      let w = erase_at-IsValid s from v in
      let t' = moved_to from to t in
      ground (
        arith,
        member-insert_at (erase_at s from) to 1 t' (omega arith) w,
        member-erase_at s from t' v,
        member-erase_at s from (t' - 1) v,
      )

  Recorded-move :
      (d d' s : List Range) (ms : List Move)
      → ((f : ℕ) → member d f ≡ true → member d' f ≡ true)
      → IsValid s
      → Recorded d s ms
      → Recorded d' (insert_at (erase_at s from) to 1) (moves_after_move from to ms)
  unfolding moves_after_move
  Recorded-move d d' s [] h v r = tt
  Recorded-move d d' s (m ∷ ms) h v r = (
    h m.from r.0,
    member-moved_to s m.to v r.1,
    has_move_to-move m.to ms ∙ r.2,
    Recorded-move d d' s ms h v r.3,
  )

has_move_to-append :
    (t : ℕ) (ms : List Move) (m : Move)
    → has_move_to t (ms ++ m ∷ []) ≡ (has_move_to t ms || m.to == t)
unfolding has_move_to
has_move_to-append t [] m = ground arith
has_move_to-append t (n ∷ ms) m = ground (arith, has_move_to-append t ms m)

Recorded-append :
    (d s : List Range) (ms : List Move) (m : Move)
    → Recorded d s ms
    → member d m.from ≡ true
    → member s m.to ≡ true
    → has_move_to m.to ms ≡ false
    → Recorded d s (ms ++ m ∷ [])
unfolding has_move_to
Recorded-append d s [] m r h k l = (h, k, refl, tt)
Recorded-append d s (n ∷ ms) m r h k l = (
  r.0,
  r.1,
  ground (arith, has_move_to-append n.to ms m, r.2),
  Recorded-append d s ms m r.3 h k (ground arith),
)

move_modified-IsValid :
    (from to : ℕ) (s : List Range) → IsValid s → IsValid (move_modified from to s)
unfolding move_modified
move_modified-IsValid from to s v =
    let w = erase_at-IsValid s from v in
    elim (Bool-cases (contains s from)) [
      | inl e ↦ rw e (insert_at-IsValid _ to 1 (omega arith) w)
      | inr e ↦ rw e (shift_for_insert_at-IsValid _ to 1 (omega arith) w)
    ]

-- What `move` leaves, the columns aside.
abbrev Kept : List Range → List Range → List Move → Type 0
Kept d s ms = IsValid d × IsValid s × Recorded d s ms

module _ (c : Builder) (from to : ℕ) (apart : from ≢ to) (v : IsConsistent c) where
  abbrev pub target : List Range
  target = insert_at (erase_at c.insertions from) to 1

  target-IsValid : IsValid target
  target-IsValid =
      insert_at-IsValid _ to 1 (omega arith) (erase_at-IsValid c.insertions from v.insertions_valid)

  known-Kept : Kept c.deletions target (moves_after_move from to c.moves)
  known-Kept = (
    v.deletions_valid,
    target-IsValid,
    Recorded-move from to apart c.deletions c.deletions c.insertions c.moves (λ f h. h)
        v.insertions_valid v.recorded,
  )

  fresh-Kept :
      has_move_to from c.moves ≡ false
      → let f = shift c.deletions (unshift c.insertions from) in
        Kept (add c.deletions f) target (moves_after_move from to c.moves ++ move_to f to ∷ [])
  fresh-Kept e =
      let f = shift c.deletions (unshift c.insertions from) in
      let d = c.deletions in
      (
        add-IsValid d f v.deletions_valid,
        target-IsValid,
        Recorded-append (add d f) target (moves_after_move from to c.moves) (move_to f to)
            (Recorded-move from to apart d (add d f) c.insertions c.moves
              (λ g h. ground (arith, member-add d f g v.deletions_valid)) v.insertions_valid
              v.recorded)
            (ground (arith, member-add d f f v.deletions_valid))
            (ground (
              arith,
              member-insert_at (erase_at c.insertions from) to 1 to (omega arith)
                  (erase_at-IsValid c.insertions from v.insertions_valid),
            ))
            rw (moved_to_self from to) at (has_move_to-move from to apart from c.moves ∙ e),
      )

  pub relocate_cases {ℓ} :
      (P : Builder → Type ℓ)
      → P (record c { insertions = target; moves = moves_after_move from to c.moves })
      → (has_move_to from c.moves ≡ false
          → let f = shift c.deletions (unshift c.insertions from) in
            P (record c {
              deletions = add c.deletions f;
              insertions = target;
              moves = moves_after_move from to c.moves ++ move_to f to ∷ [];
            }))
      → P (relocate c from to)
  unfolding relocate
  relocate_cases P known fresh = elim (Bool-cases (has_move_to from c.moves)) [
    | inl e ↦ rw e known
    | inr e ↦
        rw (e, erase_or_unshift_lem c.insertions from v.insertions_valid)
          (elim (Bool-cases (member c.insertions from)) [
            | inl i ↦ rw i known
            | inr i ↦
                rw (i, add_shifted_lem c.deletions (unshift c.insertions from) v.deletions_valid)
                  (fresh e)
          ])
  ]

  relocate-IsConsistent : IsConsistent (relocate c from to)
  relocate-IsConsistent =
      relocate_cases IsConsistent (consistent known-Kept) (λ e. consistent (fresh-Kept e))
    where
      consistent :
          {d s : List Range} {ms : List Move}
          → Kept d s ms
          → IsConsistent (record c { deletions = d; insertions = s; moves = ms })
      consistent k = record {
        deletions_valid = k.0;
        insertions_valid = k.1;
        modifications_valid = v.modifications_valid;
        columns_valid = v.columns_valid;
        recorded = k.2;
      }

-- `move` keeps the change consistent.
pub move-IsConsistent :
    (c : Builder) (from to : ℕ) → from ≢ to → IsConsistent c → IsConsistent (move c from to)
unfolding move
move-IsConsistent c from to h v =
    let w = relocate-IsConsistent c from to h v in
    record {
      deletions_valid = w.deletions_valid;
      insertions_valid = w.insertions_valid;
      modifications_valid = move_modified-IsValid from to _ w.modifications_valid;
      columns_valid =
          for_each_col-AllValid (move_modified from to) (relocate c from to)
            (move_modified-IsValid from to) w.columns_valid;
      recorded = w.recorded;
    }
