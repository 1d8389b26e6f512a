-- ===== src/Changes/Diff/Applying.antt =====
-- `verify_changeset`: the deletions and the insertions of a change, applied to the old rows.
use realm_object_store.Base.{
  ℕ, suc, ◌+◌, ◌-◌, ◌≤◌, ◌≡◌, refl, sym, ap, ◌∙◌, true, false, ◌||◌, List, [], ◌∷◌, ◌++◌, Option,
  none, some, arith, leb, ◌==◌, length, if◌then◌else◌, ℕ_discrete, Bool-cases, inl, inr, leb→le,
  leb-false→lt,
}
use mathlib.Core.List.{append_assoc, append-nil}
use realm_object_store.IndexSet.Ranges.{Range, member, Above, IsValid, member-Above}
use realm_object_store.IndexSet.Chunks.{take, drop}
use realm_object_store.IndexSet.Chunks.Lists.{take-drop, length-take, length-++}
use realm_object_store.IndexSet.Combining.{as_indexes}
use realm_object_store.IndexSet.Combining.Indexes.{
  Ascending, elem, elem-Ascending, Ascending-mono, as_indexes-Ascending, elem-as_indexes,
}
use realm_object_store.IndexSet.Combining.Building.{Within}
use realm_object_store.Changes.Builder.{Builder}
use realm_object_store.Changes.Diff.Lists.{get_elem?, keep, keep-same, keep-++, keep-none, keep-all}

-- `vector::erase` of a range of indexes; `none` if there are not that many elements.
unfoldable pub erase_range_of : Range → List ℕ → Option (List ℕ)
unfolding take drop
erase_range_of r xs =
    if leb r.second (length xs) then some (take r.first xs ++ drop r.second xs) else none

-- `vector::insert`; `none` if the index is behind the end.
unfoldable pub insert_elem : ℕ → ℕ → List ℕ → Option (List ℕ)
unfolding take drop
insert_elem i x xs = if leb i (length xs) then some (take i xs ++ x ∷ drop i xs) else none

-- The loop over the deletions, from the last range to the first.
unfoldable pub erase_ranges : List Range → List ℕ → Option (List ℕ)
unfolding erase_range_of
erase_ranges [] xs = some xs
erase_ranges (r ∷ rs) xs = elim (erase_ranges rs xs) [ none ↦ none | some ys ↦ erase_range_of r ys ]

-- The loop over the insertions.
unfoldable pub insert_rows : List ℕ → List ℕ → List ℕ → Option (List ℕ)
unfolding insert_elem get_elem?
insert_rows [] next xs = some xs
insert_rows (i ∷ is) next xs = elim (get_elem? next i) [
  | none ↦ none
  | some x ↦ elim (insert_elem i x xs) [ none ↦ none | some ys ↦ insert_rows is next ys ]
]

-- The rows that `verify_changeset` compares with the new ones.
unfoldable pub applied : List ℕ → List ℕ → Builder → Option (List ℕ)
unfolding erase_ranges insert_rows as_indexes
applied prev next c = elim (erase_ranges c.deletions prev) [
  | none ↦ none
  | some xs ↦ insert_rows (as_indexes c.insertions) next xs
]

-- All ranges of the set end at or before the bound.
abbrev pub Inside : List Range → ℕ → Type 0
Inside [] hi = Unit {0}
Inside (r ∷ rs) hi = (r.second ≤ hi) × Inside rs hi

take-past_all : (xs ys : List ℕ) → take (length xs) (xs ++ ys) ≡ xs
unfolding take
take-past_all [] ys = refl
take-past_all (x ∷ xs) ys = ap (λ r. x ∷ r) (take-past_all xs ys)

drop-past_all : (xs ys : List ℕ) → drop (length xs) (xs ++ ys) ≡ ys
unfolding drop
drop-past_all [] ys = refl
drop-past_all (x ∷ xs) ys = drop-past_all xs ys

-- Erasing the middle of three parts.
erase_range_of-middle :
    (r : Range) (xs ys zs : List ℕ)
    → length xs ≡ r.first
    → length (xs ++ ys) ≡ r.second
    → erase_range_of r (xs ++ ys ++ zs) ≡ some (xs ++ zs)
unfolding erase_range_of
erase_range_of-middle r xs ys zs h k =
    let fits : leb r.second (length (xs ++ ys ++ zs)) ≡ true =
      ground (arith, k, length-++ (xs ++ ys) zs) in
    rw
      (
        fits,
        sym h,
        sym k,
        drop-past_all (xs ++ ys) zs,
        append_assoc xs ys zs,
        take-past_all xs (ys ++ zs),
      )
      refl

-- A range is erased from what is kept of the others.
keep-middle :
    (r : Range) (rs : List Range) (lo : ℕ) (xs ys zs : List ℕ)
    → Above lo (r ∷ rs)
    → length xs ≡ r.first
    → length (xs ++ ys) ≡ r.second
    → (keep (member rs) 0 (xs ++ ys ++ zs) ≡ xs ++ ys ++ keep (member rs) r.second zs)
      × (keep (member (r ∷ rs)) 0 (xs ++ ys ++ zs) ≡ xs ++ keep (member rs) r.second zs)
unfolding member
keep-middle r rs lo xs ys zs a h k =
    let total = length-++ xs ys in
    let before =
      keep-none (member rs) 0 (xs ++ ys)
        λ i b c. member-Above rs (suc r.second) i a.2 (omega (arith, c, k)) in
    let first =
      keep-none (member (r ∷ rs)) 0 xs
        λ i b c. ground (arith, member-Above rs (suc r.second) i a.2 (omega (arith, c, h, a.1))) in
    let middle =
      keep-all (member (r ∷ rs)) (length xs) ys λ i b c. ground (arith, h, k, total, b, c) in
    let last =
      keep-same (member (r ∷ rs)) (member rs) (length (xs ++ ys)) zs
        λ i b c. ground (arith, k, b, a.1) in
    let none_more : (n : ℕ) → 0 + n ≡ n = λ n. omega arith in
    (
      rw (keep-++ (member rs) 0 (xs ++ ys) zs, before, none_more (length (xs ++ ys)), k) refl,
      rw
          (
            keep-++ (member (r ∷ rs)) 0 (xs ++ ys) zs,
            keep-++ (member (r ∷ rs)) 0 xs ys,
            none_more (length (xs ++ ys)),
            none_more (length xs),
            first,
            middle,
            last,
            k,
            append-nil xs,
          )
          refl,
    )

erase_range_of-keep :
    (r : Range) (rs : List Range) (lo : ℕ) (xs : List ℕ)
    → Above lo (r ∷ rs)
    → r.second ≤ length xs
    → erase_range_of r (keep (member rs) 0 xs) ≡ some (keep (member (r ∷ rs)) 0 xs)
erase_range_of-keep r rs lo xs a h =
    let x1 = take r.first (take r.second xs) in
    let x2 = drop r.first (take r.second xs) in
    let whole : x1 ++ x2 ++ drop r.second xs ≡ xs =
      ap (λ y. y ++ drop r.second xs) (take-drop r.first (take r.second xs))
      ∙ take-drop r.second xs in
    let l1 = length-take r.second xs h in
    let l2 = length-take r.first (take r.second xs) (omega (arith, l1, a.1)) in
    let l3 : length (x1 ++ x2) ≡ r.second = ap length (take-drop r.first (take r.second xs)) ∙ l1 in
    let (e1, e2) = keep-middle r rs lo x1 x2 (drop r.second xs) a l2 l3 in
    rw (sym whole, e1, e2)
      (erase_range_of-middle r x1 x2 (keep (member rs) r.second (drop r.second xs)) l2 l3)

pub erase_ranges-keep :
    (rs : List Range) (lo : ℕ) (xs : List ℕ)
    → Above lo rs
    → Inside rs (length xs)
    → erase_ranges rs xs ≡ some (keep (member rs) 0 xs)
unfolding erase_ranges member
erase_ranges-keep [] lo xs a w = ap some (sym (keep-none (member []) 0 xs λ i a b. refl))
erase_ranges-keep (r ∷ rs) lo xs a w =
    rw (erase_ranges-keep rs (suc r.second) xs a.2 w.1) (erase_range_of-keep r rs lo xs a w.0)

get_elem?-past : (xs ys : List ℕ) (x : ℕ) → get_elem? (xs ++ x ∷ ys) (length xs) ≡ some x
unfolding get_elem?
get_elem?-past [] ys x = refl
get_elem?-past (y ∷ xs) ys x = get_elem?-past xs ys x

insert_elem-past :
    (xs ys : List ℕ) (x : ℕ) → insert_elem (length xs) x (xs ++ ys) ≡ some (xs ++ x ∷ ys)
unfolding insert_elem
insert_elem-past xs ys x =
    let fits : leb (length xs) (length (xs ++ ys)) ≡ true = ground (arith, length-++ xs ys) in
    rw (fits, take-past_all xs ys, drop-past_all xs ys) refl

insert_rows-nil : (next xs : List ℕ) → insert_rows [] next xs ≡ some xs
unfolding insert_rows
insert_rows-nil next xs = refl

insert_rows-step :
    (i x : ℕ) (is next xs ys : List ℕ)
    → get_elem? next i ≡ some x
    → insert_elem i x xs ≡ some ys
    → insert_rows (i ∷ is) next xs ≡ insert_rows is next ys
unfolding insert_rows
insert_rows-step i x is next xs ys h k = rw (insert_rows, h, k) refl

-- With the insertions before a place done, the others restore what comes from there on.
pub insert_rows-keep :
    (is done rest next : List ℕ)
    → done ++ rest ≡ next
    → Ascending (length done) is
    → Within is (length next)
    → insert_rows is next (done ++ keep (λ i. elem i is) (length done) rest) ≡ some next
unfolding keep elem
insert_rows-keep [] done rest next e a w =
    rw (keep-none (λ i. false) (length done) rest λ i b c. refl, e) (insert_rows-nil next next)
insert_rows-keep (i ∷ is) done [] next e a w =
    let l = ap length e in absurd (omega (arith, l, length-++ done [], a.0, w.0))
insert_rows-keep (i ∷ is) done (x ∷ rest) next e a w =
    let more : length (done ++ x ∷ []) ≡ suc (length done) =
      length-++ done (x ∷ []) ∙ omega arith in
    let assoc : (xs : List ℕ) → done ++ x ∷ xs ≡ done ++ x ∷ [] ++ xs =
      λ xs. sym (append_assoc done (x ∷ []) xs) in
    let e' = sym (assoc rest) ∙ e in
    elim (ℕ_discrete i (length done)) [
      | yes k ↦
          let p : (i == length done) || elem (length done) is ≡ true = ground (arith, k) in
          let same =
            keep-same (λ n. (i == n) || elem n is) (λ n. elem n is) (suc (length done)) rest
              (λ n b c. ground (arith, k, b)) in
          let rows = keep (λ n. elem n is) (suc (length done)) rest in
          let found : get_elem? next i ≡ some x = rw (sym e, k) (get_elem?-past done rest x) in
          let put : insert_elem i x (done ++ rows) ≡ some (done ++ x ∷ rows) =
            rw k (insert_elem-past done rows x) in
          let ih =
            insert_rows-keep is (done ++ x ∷ []) rest next e'
              (Ascending-mono is (omega (arith, more, k)) a.1) w.1 in
          rw (p, same)
            (insert_rows-step i x is next (done ++ rows) (done ++ x ∷ rows) found put
              ∙ rw (assoc rows) (rw more at ih))
      | no k ↦
          let p : (i == length done) || elem (length done) is ≡ false =
            ground (arith, k, elem-Ascending is (i + 1) (length done) a.1 (omega (arith, a.0))) in
          let rows = keep (λ n. (i == n) || elem n is) (suc (length done)) rest in
          let ih =
            insert_rows-keep (i ∷ is) (done ++ x ∷ []) rest next e'
              (omega (arith, more, k, a.0), a.1) w in
          rw (p, assoc rows) (rw more at ih)
    ]

-- Nothing at or behind the bound is in the set.
abbrev pub Bounded : List Range → ℕ → Type 0
Bounded s hi = (j : ℕ) → hi ≤ j → member s j ≡ false

Bounded-Inside : (rs : List Range) (lo hi : ℕ) → Above lo rs → Bounded rs hi → Inside rs hi
unfolding member
Bounded-Inside [] lo hi a b = tt
Bounded-Inside (r ∷ rs) lo hi a b = elim (Bool-cases (leb r.second hi)) [
  | inl e ↦
      (leb→le r.second hi e, Bounded-Inside rs (suc r.second) hi a.2 (λ j h. ground (arith, b j h)))
  | inr e ↦ absurd (
      ground (
        arith,
        leb-false→lt r.second hi e,
        b (r.second - 1) (ground (arith, leb-false→lt r.second hi e)),
      ))
]

elem-Within : (is : List ℕ) (hi : ℕ) → ((j : ℕ) → hi ≤ j → elem j is ≡ false) → Within is hi
unfolding elem
elem-Within [] hi b = tt
elem-Within (i ∷ is) hi b = elim (Bool-cases (leb hi i)) [
  | inl e ↦ absurd (ground (arith, b i (leb→le hi i e)))
  | inr e ↦ (leb-false→lt hi i e, elem-Within is hi (λ j h. ground (arith, b j h)))
]

-- The deletions and the insertions turn the old rows into the new ones, if what the one leaves of the
-- old rows is what the other leaves of the new ones.
pub applied-keep :
    (prev next : List ℕ) (c : Builder)
    → IsValid c.deletions
    → IsValid c.insertions
    → Bounded c.deletions (length prev)
    → Bounded c.insertions (length next)
    → keep (member c.deletions) 0 prev ≡ keep (member c.insertions) 0 next
    → applied prev next c ≡ some next
unfolding applied
applied-keep prev next c v w b d e =
    let is = as_indexes c.insertions in
    let inserted = elem-as_indexes c.insertions 0 in
    let erased =
      erase_ranges-keep c.deletions 0 prev v (Bounded-Inside c.deletions 0 (length prev) v b) in
    let same =
      keep-same (member c.insertions) (λ i. elem i is) 0 next λ i h k. sym (inserted i w) in
    rw (applied, erased, e, same)
      (insert_rows-keep is [] next next refl (as_indexes-Ascending c.insertions 0 w)
        (elem-Within is (length next) λ j h. inserted j w ∙ d j h))
