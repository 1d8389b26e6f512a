-- ===== src/Changes/Invariant/Kept.antt =====
-- The operations of the builder keep its invariant.
use realm_object_store.Base.{
  ℕ, ◌+◌, ◌-◌, ◌<◌, ◌≡◌, refl, ap, ◌∙◌, true, false, List, [], ◌∷◌, Option, none, some, ltb, leb,
  ◌==◌, if◌then◌else◌, arith, Bool-cases, inl, inr,
}
use realm_object_store.IndexSet.Ranges.{Range, member, IsValid}
use realm_object_store.IndexSet.Single.{set, erase_at, insert_at, shift_for_insert_at}
use realm_object_store.IndexSet.Single.Adding.{add-IsValid, member-add}
use realm_object_store.IndexSet.Single.Erasing.{erase_at-IsValid, member-erase_at}
use realm_object_store.IndexSet.Single.Inserting.{insert_at-IsValid, member-insert_at}
use realm_object_store.IndexSet.Single.Shifting.{shift_for_insert_at-IsValid}
use realm_object_store.IndexSet.Counting.{shift, unshift, erase_or_unshift}
use realm_object_store.IndexSet.Counting.Laws.{left-erase_or_unshift}
use realm_object_store.Changes.Moves.{Move, moves_after_insert, moves_after_erase, has_move_to}
use realm_object_store.Changes.Builder.{
  Builder, each_column, for_each_col, add_to_column, modify, insert, erase, clear, deleted, total,
}
use realm_object_store.Changes.Invariant.{IsConsistent, Recorded, AllValid}
use realm_object_store.Changes.Rows.Origin.{deleted_lem}

each_column-AllValid :
    (f : List Range → List Range) (cs : List (ℕ × List Range))
    → ((s : List Range) → IsValid s → IsValid (f s))
    → AllValid cs
    → AllValid (each_column f cs)
unfolding each_column
each_column-AllValid f [] h v = tt
each_column-AllValid f ((k, s) ∷ cs) h v = (h s v.0, each_column-AllValid f cs h v.1)

pub for_each_col-AllValid :
    (f : List Range → List Range) (c : Builder)
    → ((s : List Range) → IsValid s → IsValid (f s))
    → AllValid c.columns
    → AllValid (for_each_col f c).columns
unfolding for_each_col
for_each_col-AllValid f c h v = elim (Bool-cases c.track_columns) [
  | inl e ↦ rw e (each_column-AllValid f c.columns h v)
  | inr e ↦ rw e v
]

module _ (i n : ℕ) where
  has_move_to-insert :
      (t : ℕ) (ms : List Move)
      → has_move_to (if leb i t then t + n else t) (moves_after_insert i n ms) ≡ has_move_to t ms
  unfolding has_move_to moves_after_insert
  has_move_to-insert t [] = refl
  has_move_to-insert t (m ∷ ms) = ground (arith, has_move_to-insert t ms)

  Recorded-insert :
      (d s : List Range) (ms : List Move)
      → 0 < n
      → IsValid s
      → Recorded d s ms
      → Recorded d (insert_at s i n) (moves_after_insert i n ms)
  unfolding moves_after_insert
  Recorded-insert d s [] h v r = tt
  Recorded-insert d s (m ∷ ms) h v r = (
    r.0,
    ground (
      arith,
      member-insert_at s i n m.to h v,
      member-insert_at s i n (m.to + n) h v,
      r.1,
      ap (member s) (let e : m.to + n - n ≡ m.to = omega arith in e),
    ),
    has_move_to-insert m.to ms ∙ r.2,
    Recorded-insert d s ms h v r.3,
  )

-- `insert` keeps the change consistent, with moves tracked.
pub insert-IsConsistent :
    (c : Builder) (i n : ℕ) → 0 < n → IsConsistent c → IsConsistent (insert c i n true)
unfolding insert
insert-IsConsistent c i n h v = record {
  deletions_valid = v.deletions_valid;
  insertions_valid = insert_at-IsValid c.insertions i n h v.insertions_valid;
  modifications_valid = shift_for_insert_at-IsValid c.modifications i n h v.modifications_valid;
  columns_valid =
      for_each_col-AllValid (λ s. shift_for_insert_at s i n) c
        (λ s. shift_for_insert_at-IsValid s i n h) v.columns_valid;
  recorded = Recorded-insert i n c.deletions c.insertions c.moves h v.insertions_valid v.recorded;
}

has_move_to-erase :
    (i t : ℕ) (ms : List Move)
    → (t == i) ≡ false
    → has_move_to (if ltb i t then t - 1 else t) (moves_after_erase i ms) ≡ has_move_to t ms
unfolding has_move_to moves_after_erase
has_move_to-erase i t [] h = refl
has_move_to-erase i t (m ∷ ms) h = ground (arith, has_move_to-erase i t ms h)

Recorded-erase :
    (i : ℕ) (d d' s : List Range) (ms : List Move)
    → ((f : ℕ) → member d f ≡ true → member d' f ≡ true)
    → IsValid s
    → Recorded d s ms
    → Recorded d' (erase_at s i) (moves_after_erase i ms)
unfolding moves_after_erase
Recorded-erase i d d' s [] h v r = tt
Recorded-erase i d d' s (m ∷ ms) h v r = elim (Bool-cases (m.to == i)) [
  | inl e ↦ rw e (Recorded-erase i d d' s ms h v r.3)
  | inr e ↦ rw e (
    h m.from r.0,
    ground (arith, member-erase_at s i m.to v, member-erase_at s i (m.to - 1) v, r.1),
    has_move_to-erase i m.to ms e ∙ r.2,
    Recorded-erase i d d' s ms h v r.3,
  )
]

pub deleted-keeps :
    (d s : List Range) (i f : ℕ)
    → IsValid d
    → IsValid s
    → member d f ≡ true
    → member (deleted (erase_or_unshift s i).0 d) f ≡ true
deleted-keeps d s i f v w h =
    ground (
      arith,
      ap (λ t. member t f) (deleted_lem d s i v w),
      member-add d (shift d (unshift s i)) f v,
    )

pub deleted-IsValid :
    (d s : List Range) (i : ℕ)
    → IsValid d
    → IsValid s
    → IsValid (deleted (erase_or_unshift s i).0 d)
deleted-IsValid d s i v w = rw (deleted_lem d s i v w) (elim (Bool-cases (member s i)) [
  | inl e ↦ rw e v
  | inr e ↦ rw e (add-IsValid d (shift d (unshift s i)) v)
])

-- `erase` keeps the change consistent.
pub erase-IsConsistent : (c : Builder) (i : ℕ) → IsConsistent c → IsConsistent (erase c i)
unfolding erase
erase-IsConsistent c i v = record {
  deletions_valid = deleted-IsValid c.deletions c.insertions i v.deletions_valid v.insertions_valid;
  insertions_valid =
      rw (left-erase_or_unshift c.insertions i v.insertions_valid)
        (erase_at-IsValid c.insertions i v.insertions_valid);
  modifications_valid = erase_at-IsValid c.modifications i v.modifications_valid;
  columns_valid =
      for_each_col-AllValid (λ s. erase_at s i) c (λ s. erase_at-IsValid s i) v.columns_valid;
  recorded = rw (left-erase_or_unshift c.insertions i v.insertions_valid) (
      Recorded-erase i c.deletions _ c.insertions c.moves
        (λ f. deleted-keeps c.deletions c.insertions i f v.deletions_valid v.insertions_valid)
        v.insertions_valid v.recorded);
}

-- `modify` keeps the change consistent.
add_to_column-AllValid :
    (k i : ℕ) (cs : List (ℕ × List Range)) → AllValid cs → AllValid (add_to_column k i cs)
unfolding add_to_column
add_to_column-AllValid k i [] v = (add-IsValid [] i tt, tt)
add_to_column-AllValid k i ((j, s) ∷ cs) v = elim (Bool-cases (j == k)) [
  | inl e ↦ rw e (add-IsValid s i v.0, v.1)
  | inr e ↦ rw e (v.0, add_to_column-AllValid k i cs v.1)
]

pub modify-IsConsistent :
    (c : Builder) (i : ℕ) (col : Option ℕ) → IsConsistent c → IsConsistent (modify c i col)
unfolding modify
modify-IsConsistent c i none v = record {
  deletions_valid = v.deletions_valid;
  insertions_valid = v.insertions_valid;
  modifications_valid = add-IsValid c.modifications i v.modifications_valid;
  columns_valid = v.columns_valid;
  recorded = v.recorded;
}
modify-IsConsistent c i (some k) v = record {
  deletions_valid = v.deletions_valid;
  insertions_valid = v.insertions_valid;
  modifications_valid = add-IsValid c.modifications i v.modifications_valid;
  columns_valid = elim (Bool-cases c.track_columns) [
    | inl e ↦ rw e (add_to_column-AllValid k i c.columns v.columns_valid)
    | inr e ↦ rw e v.columns_valid
  ];
  recorded = v.recorded;
}

clear-IsConsistent : (c : Builder) (n : ℕ) → IsConsistent (clear c n)
unfolding clear set
clear-IsConsistent c n = ground arith

member-set : (n j : ℕ) → member (set n) j ≡ ltb j n
unfolding set member
member-set n j = ground arith

-- After `clear(size)` the change is consistent, and where the size with the deletions is `n` rows
-- more than the insertions, the deletions are the first `n` rows and nothing is inserted.
pub clear_lem :
    (c : Builder) (size n : ℕ)
    → size + total c.deletions ≡ n + total c.insertions
    → IsConsistent (clear c size)
      × ((j : ℕ) → member (clear c size).deletions j ≡ ltb j n)
      × ((j : ℕ) → member (clear c size).insertions j ≡ false)
unfolding clear set member
clear_lem c size n h =
    let e : size + total c.deletions - total c.insertions ≡ n = omega arith in
    (clear-IsConsistent c size, (λ j. rw e (member-set n j)), (λ j. refl))
