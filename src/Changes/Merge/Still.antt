-- ===== src/Changes/Merge/Still.antt =====
-- `merge` of two changes that record no moves.
use realm_object_store.Base.{
  ℕ, ◌==◌, ◌≡◌, refl, ◌∙◌, sym, ap, Bool, true, false, not, ◌&&◌, ◌||◌, List, [], ◌∷◌, Option, none,
  some, arith, if◌then◌else◌, if_intro, Bool-cases, inl, inr,
}
use realm_object_store.IndexSet.Ranges.{Holds, Range, member, IsValid}
use realm_object_store.IndexSet.Counting.{shift, unshift}
use realm_object_store.IndexSet.Counting.Laws.{unshift-shift}
use realm_object_store.IndexSet.Combining.{is_empty, insert_set, shift_for_insert_set, erase_set}
use realm_object_store.IndexSet.Combining.Adding.{add_set-Holds}
use realm_object_store.IndexSet.Combining.Hits.{unshift-nil}
use realm_object_store.IndexSet.Combining.Shifting.{shift_for_insert_set-Holds}
use realm_object_store.IndexSet.Combining.ShiftedBy.{add_shifted_by}
use realm_object_store.IndexSet.Combining.Erasing.{erase_set-Holds}
use realm_object_store.Changes.Moves.{Move, moved_from}
use realm_object_store.Changes.Builder.{Builder}
use realm_object_store.Changes.Invariant.{AllValid, IsConsistent}
use realm_object_store.Changes.Rows.{origin, source}
use realm_object_store.Changes.Merge.{
  is_unchanged, column, each_key, col_keys, for_each_own, first_moves, moves_before, update_old,
  clean_up, clean_up_stale_moves, carry, carry_some, needs_update, prepare, merge,
}
use realm_object_store.Changes.Merge.Origin.{
  insertions_lem, deletions_lem, then_origin, origin-merged,
}

-- The old row of the first change for the old row of the second.
abbrev pub then_source : Builder → Option ℕ → Option ℕ
then_source b none = none
then_source b (some i) = source b i

abbrev pub was_modified : Builder → Option ℕ → Bool
was_modified b none = false
was_modified b (some i) = member b.modifications i

-- The change `t` says what the changes `b` and `c` say, one after the other.
pub record Follows (b c t : Builder) : Type 0 where
  pub consistent : IsConsistent t
  pub rows : (j : ℕ) → source t j ≡ then_source b (source c j)
  pub marks :
      (j : ℕ) → member t.modifications j ≡ (member c.modifications j || was_modified b (source c j))

and_false : (x : Bool) → (x && false) ≡ false
and_false true = refl
and_false false = refl

shift-nil : (j : ℕ) → shift [] j ≡ j
shift-nil j = sym (unshift-nil (shift [] j)) ∙ unshift-shift [] j tt

is_empty→nil : (s : List Range) → is_empty s ≡ true → s ≡ []
is_empty→nil [] h = refl
is_empty→nil (r ∷ s) h = cc

-- A set of the first change, carried over to the second.
carry-Holds :
    (c : Builder) (s other : List Range)
    → IsConsistent c
    → IsValid s
    → IsValid other
    → Holds (carry c s other) (λ j.
      member other j
      || (not (member c.insertions j) && member s (shift c.deletions (unshift c.insertions j))))
carry-Holds c s other k v w =
    let e = erase_set-Holds s c.deletions v k.deletions_valid in
    let h =
      shift_for_insert_set-Holds (erase_set s c.deletions) c.insertions e.0 k.insertions_valid in
    let a =
      add_set-Holds (shift_for_insert_set (erase_set s c.deletions) c.insertions) other h.0 w in
    (a.0, λ j. ground (arith, a.1 j, h.1 j, e.1 (unshift c.insertions j)))

pub carry-IsValid :
    (c : Builder) (s other : List Range)
    → IsValid c.deletions
    → IsValid c.insertions
    → IsValid s
    → IsValid other
    → IsValid (carry c s other)
carry-IsValid c s other d i v w =
    let e = erase_set-Holds s c.deletions v d in
    let h = shift_for_insert_set-Holds (erase_set s c.deletions) c.insertions e.0 i in
    (add_set-Holds (shift_for_insert_set (erase_set s c.deletions) c.insertions) other h.0 w).0

column-IsValid : (k : ℕ) (cs : List (ℕ × List Range)) → AllValid cs → IsValid (column k cs)
column-IsValid k [] v = tt
column-IsValid k ((j, s) ∷ cs) v =
    if_intro IsValid (j == k) s (column k cs) (λ h. v.0) (λ h. column-IsValid k cs v.1)

pub each_key-AllValid :
    (f : List Range → List Range → List Range) (cs os : List (ℕ × List Range)) (ks : List ℕ)
    → ((s t : List Range) → IsValid s → IsValid t → IsValid (f s t))
    → AllValid cs
    → AllValid os
    → AllValid (each_key f cs os ks)
each_key-AllValid f cs os [] h v w = tt
each_key-AllValid f cs os (k ∷ ks) h v w = (
  h (column k cs) (column k os) (column-IsValid k cs v) (column-IsValid k os w),
  each_key-AllValid f cs os ks h v w,
)

source-still : (c : Builder) (j : ℕ) → c.moves ≡ [] → source c j ≡ origin c.deletions c.insertions j
unfolding source moved_from
source-still c j q = rw q refl

then_source-still :
    (b : Builder) (o : Option ℕ)
    → b.moves ≡ []
    → then_source b o ≡ then_origin b.deletions b.insertions o
then_source-still b none q = refl
then_source-still b (some i) q = source-still b i q

-- A change that is empty leaves every row where it is and marks none.
unchanged_source :
    (c : Builder) (j : ℕ) → c.moves ≡ [] → is_unchanged c ≡ true → source c j ≡ some j
unfolding is_unchanged origin member
unchanged_source c j q h =
    let d = is_empty→nil c.deletions (ground arith) in
    let i = is_empty→nil c.insertions (ground arith) in
    source-still c j q ∙ rw (d, i, unshift-nil j, shift-nil j) refl

then_source-unchanged :
    (b : Builder) (o : Option ℕ) → b.moves ≡ [] → is_unchanged b ≡ true → then_source b o ≡ o
then_source-unchanged b none q h = refl
then_source-unchanged b (some i) q h = unchanged_source b i q h

unchanged_modifications :
    (c : Builder) (j : ℕ) → is_unchanged c ≡ true → member c.modifications j ≡ false
unfolding is_unchanged member
unchanged_modifications c j h = rw (is_empty→nil c.modifications (ground arith)) refl

was_modified-unchanged :
    (b : Builder) (o : Option ℕ) → is_unchanged b ≡ true → was_modified b o ≡ false
was_modified-unchanged b none h = refl
was_modified-unchanged b (some i) h = unchanged_modifications b i h

or_false : (x : Bool) → (x || false) ≡ x
or_false true = refl
or_false false = refl

module _ (b c : Builder) (x : IsConsistent b) (y : IsConsistent c) (p : b.moves ≡ [])
    (q : c.moves ≡ []) where
  first-still : first_moves b c ≡ ([], c)
  unfolding first_moves update_old
  first-still =
      if_intro (λ r. r ≡ ([], c)) (needs_update c) (update_old b.moves b c) (b.moves, c)
        (λ h. rw p refl) (λ h. rw p refl)

  prepare-still : prepare b c ≡ ([], c)
  unfolding moves_before
  prepare-still =
      rw
        (
          first-still,
          q,
          and_false (not (is_empty b.insertions)),
          and_false (not (is_empty b.modifications)),
        )
        (ap (λ ms. (ms, record c { moves = [] }))
          (if_intro (λ r. r ≡ []) (not (is_empty b.deletions) || not (is_empty b.insertions)) [] []
            (λ h. refl) (λ h. refl)))

  -- The merged change.
  abbrev still : Builder
  still =
      for_each_own (carry c)
        (record b {
          moves = [];
          deletions = add_shifted_by b.deletions b.insertions c.deletions;
          insertions = insert_set (erase_set b.insertions c.deletions) c.insertions;
        })
        c

  abbrev joined : List Move × Builder → Option Builder
  joined r = carry_some r.1 (
      clean_up_stale_moves (record b {
        moves = r.0;
        deletions = add_shifted_by b.deletions b.insertions r.1.deletions;
        insertions = insert_set (erase_set b.insertions r.1.deletions) r.1.insertions;
      }))

  merge_cases :
      merge b c ≡ (if is_unchanged c then some b else if is_unchanged b then some c else some still)
  unfolding merge clean_up_stale_moves clean_up
  merge_cases =
      ap (λ r. if is_unchanged c then some b else if is_unchanged b then some c else joined r)
        prepare-still

  columns_still : AllValid still.columns
  unfolding for_each_own
  columns_still =
      if_intro AllValid b.track_columns
        (each_key (carry c) b.columns c.columns (col_keys b.columns c.columns)) b.columns
        (λ h.
          each_key-AllValid (carry c) b.columns c.columns (col_keys b.columns c.columns)
            (λ s t v w. (carry-Holds c s t y v w).0) x.columns_valid y.columns_valid)
        (λ h. x.columns_valid)

  -- The mark of a row of the first change, where the second has it.
  carried :
      (j : ℕ)
      → was_modified b (source c j) ≡ (
          not (member c.insertions j)
          && member b.modifications (shift c.deletions (unshift c.insertions j)))
  unfolding origin
  carried j =
      ap (was_modified b) (source-still c j q)
      ∙ elim (Bool-cases (member c.insertions j)) [ inl e ↦ rw e refl | inr e ↦ rw e refl ]

  still-Follows : Follows b c still
  unfolding for_each_own
  still-Follows =
      let o =
        origin-merged b.deletions b.insertions c.deletions c.insertions x.deletions_valid
          x.insertions_valid y.deletions_valid y.insertions_valid in
      let i =
        insertions_lem b.deletions b.insertions c.deletions c.insertions x.deletions_valid
          x.insertions_valid y.deletions_valid y.insertions_valid in
      let d =
        deletions_lem b.deletions b.insertions c.deletions c.insertions x.deletions_valid
          x.insertions_valid y.deletions_valid y.insertions_valid in
      let m =
        carry-Holds c b.modifications c.modifications y x.modifications_valid
          y.modifications_valid in
      record {
        consistent = record {
          deletions_valid = d.0;
          insertions_valid = i.0;
          modifications_valid = m.0;
          columns_valid = columns_still;
          recorded = tt;
        };
        rows = λ j.
            source-still still j refl
            ∙ o j
            ∙ sym (then_source-still b (origin c.deletions c.insertions j) p)
            ∙ ap (then_source b) (sym (source-still c j q));
        marks = λ j. m.1 j ∙ ap (λ r. member c.modifications j || r) (sym (carried j));
      }

  -- A second change that is empty says nothing.
  unchanged_second : is_unchanged c ≡ true → Follows b c b
  unchanged_second h = record {
    consistent = x;
    rows = λ j. sym (ap (then_source b) (unchanged_source c j q h));
    marks = λ j. sym (rw (unchanged_modifications c j h, unchanged_source c j q h) refl);
  }

  -- And so does a first one.
  unchanged_first : is_unchanged b ≡ true → Follows b c c
  unchanged_first h = record {
    consistent = y;
    rows = λ j. sym (then_source-unchanged b (source c j) p h);
    marks = λ j.
        sym (rw (was_modified-unchanged b (source c j) h) (or_false (member c.modifications j)));
  }

  -- `merge` of two consistent changes that record no moves returns a consistent change, by which the
  -- old row of each row is the old row in the first change of its old row in the second, if both have
  -- one, and by which a row is modified exactly when it is in the second change or its old row there
  -- is in the first.
  pub merge-Follows : (t : Builder) × (merge b c ≡ some t) × Follows b c t
  merge-Follows = elim (Bool-cases (is_unchanged c)) [
    | inl e ↦ (b, merge_cases ∙ rw e refl, unchanged_second e)
    | inr e ↦ elim (Bool-cases (is_unchanged b)) [
      | inl f ↦ (c, merge_cases ∙ rw (e, f) refl, unchanged_first f)
      | inr f ↦ (still, merge_cases ∙ rw (e, f) refl, still-Follows)
    ]
  ]
