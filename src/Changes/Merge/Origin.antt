-- ===== src/Changes/Merge/Origin.antt =====
-- The old rows of two changes without moves, one after the other, are those of the merged deletions
-- and insertions.
use realm_object_store.Base.{
  ℕ, zero, suc, ◌+◌, ◌≡◌, refl, ◌∙◌, sym, ap, Bool, false, ◌||◌, List, Option, none, some, arith,
  if◌then◌else◌, Bool-cases, inl, inr,
}
use realm_object_store.IndexSet.Ranges.{Holds, Range, member, IsValid}
use realm_object_store.IndexSet.Counting.{shift, unshift}
use realm_object_store.IndexSet.Counting.Below.{below-suc, below-le}
use realm_object_store.IndexSet.Counting.Laws.{
  unshift-below, member-shift, shift-unshift, unshift-shift,
}
use realm_object_store.IndexSet.Combining.{insert_set, erase_set, add_set}
use realm_object_store.IndexSet.Combining.Adding.{add_set-Holds}
use realm_object_store.IndexSet.Combining.Inserting.{insert_set-Holds}
use realm_object_store.IndexSet.Combining.Erasing.{erase_set-Holds}
use realm_object_store.IndexSet.Combining.ShiftedBy.{add_shifted_by}
use realm_object_store.IndexSet.Combining.ShiftedBy.Laws.{add_shifted_by-Holds}
use realm_object_store.Changes.Rows.{origin}

abbrev one_unless : Bool → ℕ
one_unless b = if b then 0 else 1

-- `unshift` counts the indexes outside of a set.
unshift-suc :
    (s : List Range) (j : ℕ) → IsValid s → unshift s (suc j) ≡ unshift s j + one_unless (member s j)
unshift-suc s j v =
    ground
      (arith, unshift-below s j v, unshift-below s (suc j) v, below-suc s 0 j v, below-le s 0 j v)

unshift-zero : (s : List Range) → IsValid s → unshift s 0 ≡ 0
unshift-zero s v = omega (arith, unshift-below s 0 v)

-- Two counts that start and go on alike are one.
same_count :
    (f g : ℕ → ℕ) (h : ℕ → Bool)
    → f 0 ≡ 0
    → g 0 ≡ 0
    → ((j : ℕ) → f (suc j) ≡ f j + one_unless (h j))
    → ((j : ℕ) → g (suc j) ≡ g j + one_unless (h j))
    → (j : ℕ) → f j ≡ g j
same_count f g h a b p q zero = a ∙ sym b
same_count f g h a b p q (suc j) =
    p j ∙ ap (λ n. n + one_unless (h j)) (same_count f g h a b p q j) ∙ sym (q j)

-- Counting past one set and then past another, whose indexes are those after the first is gone.
module _ (s t u : List Range) (v : IsValid s) (w : IsValid t) (x : IsValid u) where
  unshift_step :
      (j : ℕ)
      → member u j ≡ (member s j || member t (unshift s j))
      → unshift t (unshift s (suc j)) ≡ unshift t (unshift s j) + one_unless (member u j)
  unshift_step j m = elim (Bool-cases (member s j)) [
    | inl e ↦
        let same : unshift s (suc j) ≡ unshift s j = ground (arith, unshift-suc s j v) in
        ap (unshift t) same ∙ ground (arith, m)
    | inr e ↦
        let next : unshift s (suc j) ≡ suc (unshift s j) = ground (arith, unshift-suc s j v) in
        ap (unshift t) next ∙ ground (arith, unshift-suc t (unshift s j) w, m)
  ]

  unshift_twice :
      ((j : ℕ) → member u j ≡ (member s j || member t (unshift s j)))
      → (j : ℕ) → unshift t (unshift s j) ≡ unshift u j
  unshift_twice m =
      same_count (λ j. unshift t (unshift s j)) (unshift u) (member u)
        (rw (unshift-zero s v) (unshift-zero t w)) (unshift-zero u x) (λ j. unshift_step j (m j))
        (λ j. unshift-suc u j x)

-- The old row of the first change for a row of the second that has one.
abbrev pub then_origin : List Range → List Range → Option ℕ → Option ℕ
then_origin d s none = none
then_origin d s (some i) = origin d s i

-- The deletions `d` and insertions `s` of one change, and those of the next.
module _ (d s cd ci : List Range) (dv : IsValid d) (sv : IsValid s) (cv : IsValid cd)
    (iv : IsValid ci) where
  abbrev erased_insertions : List Range
  erased_insertions = erase_set s cd

  abbrev pub merged_insertions : List Range
  merged_insertions = insert_set erased_insertions ci

  abbrev pub merged_deletions : List Range
  merged_deletions = add_shifted_by d s cd

  left_insertions : Holds erased_insertions (λ j. member s (shift cd j))
  left_insertions = erase_set-Holds s cd sv cv

  pub insertions_lem :
      Holds merged_insertions (λ j. member ci j || member erased_insertions (unshift ci j))
  insertions_lem = insert_set-Holds erased_insertions ci left_insertions.0 iv

  pub deletions_lem : Holds merged_deletions (λ j. member d j || member cd (shift s (unshift d j)))
  deletions_lem = add_shifted_by-Holds d s cd dv sv cv

  -- The later deletions as rows before the insertions, and all rows that are in neither set.
  abbrev old_deletions : List Range
  old_deletions = erase_set cd s

  old_deletions_lem : Holds old_deletions (λ j. member cd (shift s j))
  old_deletions_lem = erase_set-Holds cd s cv sv

  abbrev both : List Range
  both = add_set cd s

  both_lem : Holds both (λ j. member s j || member cd j)
  both_lem = add_set-Holds cd s cv sv

  by_deletions : (j : ℕ) → unshift erased_insertions (unshift cd j) ≡ unshift both j
  by_deletions = unshift_twice cd erased_insertions both cv left_insertions.0 both_lem.0 (λ j.
      let home : member cd j ≡ false → member s (shift cd (unshift cd j)) ≡ member s j =
        λ h. ap (member s) (shift-unshift cd j cv h) in
      ground (arith, both_lem.1 j, left_insertions.1 (unshift cd j), home))

  by_insertions : (j : ℕ) → unshift old_deletions (unshift s j) ≡ unshift both j
  by_insertions = unshift_twice s old_deletions both sv old_deletions_lem.0 both_lem.0 (λ j.
      let home : member s j ≡ false → member cd (shift s (unshift s j)) ≡ member cd j =
        λ h. ap (member cd) (shift-unshift s j sv h) in
      ground (arith, both_lem.1 j, old_deletions_lem.1 (unshift s j), home))

  through_insertions :
      (j : ℕ) → unshift erased_insertions (unshift ci j) ≡ unshift merged_insertions j
  through_insertions =
      unshift_twice ci erased_insertions merged_insertions iv left_insertions.0 insertions_lem.0
        insertions_lem.1

  through_deletions : (j : ℕ) → unshift old_deletions (unshift d j) ≡ unshift merged_deletions j
  through_deletions =
      unshift_twice d old_deletions merged_deletions dv old_deletions_lem.0 deletions_lem.0
        (λ j. ground (arith, deletions_lem.1 j, old_deletions_lem.1 (unshift d j)))

  -- The old row of a row that is neither inserted nor was.
  old_row :
      (m : ℕ)
      → member s (shift cd m) ≡ false
      → shift merged_deletions (unshift erased_insertions m) ≡ shift d (unshift s (shift cd m))
  old_row m h =
      let i = shift cd m in
      let k = unshift s i in
      let x = shift d k in
      let e : unshift merged_deletions x ≡ unshift erased_insertions m =
        sym (through_deletions x)
        ∙ ap (unshift old_deletions) (unshift-shift d k dv)
        ∙ by_insertions i
        ∙ sym (by_deletions i)
        ∙ ap (unshift erased_insertions) (unshift-shift cd m cv) in
      let home : shift s (unshift d x) ≡ i =
        ap (shift s) (unshift-shift d k dv) ∙ shift-unshift s i sv h in
      let out : member merged_deletions x ≡ false = ground (
        arith,
        deletions_lem.1 x,
        member-shift d k dv,
        ap (member cd) home,
        member-shift cd m cv,
      ) in
      sym (ap (shift merged_deletions) e) ∙ shift-unshift merged_deletions x deletions_lem.0 out

  pub origin-merged :
      (j : ℕ) → origin merged_deletions merged_insertions j ≡ then_origin d s (origin cd ci j)
  unfolding origin
  origin-merged j =
      let m = unshift ci j in
      let inner = insertions_lem.1 j in
      let left = left_insertions.1 m in
      elim (Bool-cases (member ci j)) [
        | inl e ↦ rw (inner, e) refl
        | inr e ↦
            rw (inner, e, left)
              (elim (Bool-cases (member s (shift cd m))) [
                | inl f ↦ rw f refl
                | inr f ↦ rw (f, sym (through_insertions j), old_row m f) refl
              ])
      ]
