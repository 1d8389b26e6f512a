-- ===== src/Changes/Diff/Rebuilds.antt =====
-- The calculated change turns the old rows into the new ones: what `verify_changeset` asserts.
use realm_object_store.Base.{
  ℕ, zero, suc, ◌+◌, ◌<◌, ◌≡◌, refl, sym, ap, subst, ◌∙◌, Bool, true, false, not, ◌||◌, List, [],
  ◌∷◌, arith, ltb, ◌==◌, length, if◌then◌else◌, some, map,
}
use realm_object_store.IndexSet.Ranges.{Range, member, IsValid}
use realm_object_store.IndexSet.Single.{add}
use realm_object_store.IndexSet.Single.Adding.{add-IsValid, member-add}
use realm_object_store.Changes.Diff.Matching.{Row, Placed, sort_by}
use realm_object_store.Changes.Diff.Lists.{
  Every, Every-map, get_elem?, occurs, Climbs, keep, keep-listed,
}
use realm_object_store.Changes.Diff.Sorting.{
  Every-sort_by, length-sort_by, occurs-sort_by, Climbs-sort_by, Orders,
}
use realm_object_store.Changes.Diff.Comparing.{
  HasKey, self, compare_rows_gone, compare_rows_added, compare_rows-Both, build_row_info-New,
  build_row_info-HasKey, occurs-build_row_info,
}
use realm_object_store.Changes.Diff.Aligning.{IsAligned, moves_from-IsAligned}
use realm_object_store.Changes.Diff.Applying.{applied, applied-keep, Bounded}
use realm_object_store.Changes.Diff.{
  build_row_info, compare_rows, present, add_indexes, modified_rows, old_rows, before_in_view,
  calculate_moves_sorted, calculate_rows, calculate, first_difference, moves_from,
}

pub add_indexes-IsValid : (is : List ℕ) (s : List Range) → IsValid s → IsValid (add_indexes is s)
unfolding add_indexes
add_indexes-IsValid [] s v = v
add_indexes-IsValid (i ∷ is) s v = add_indexes-IsValid is (add s i) (add-IsValid s i v)

pub member-add_indexes :
    (is : List ℕ) (s : List Range) (j : ℕ)
    → IsValid s
    → member (add_indexes is s) j ≡ (not (occurs self j is == 0) || member s j)
unfolding add_indexes occurs
member-add_indexes [] s j v = ground arith
member-add_indexes (i ∷ is) s j v =
    member-add_indexes is (add s i) j (add-IsValid s i v) ∙ ground (arith, member-add s i j v)

pub get_elem?-lt : (xs : List ℕ) (k i : ℕ) → HasKey xs k i → i < length xs
unfolding get_elem?
get_elem?-lt [] k i h = absurd cc
get_elem?-lt (x ∷ xs) k zero h = omega arith
get_elem?-lt (x ∷ xs) k (suc i) h = omega (arith, get_elem?-lt xs k i h)

-- Indexes that are recorded for all rows but the listed ones leave these.
module _ {ℓ} {A : Type ℓ} (xs is js : List ℕ) (f g : A → ℕ) (kept : List A) where
  left-IsValid : IsValid (add_indexes is (add_indexes js []))
  left-IsValid = add_indexes-IsValid is (add_indexes js []) (add_indexes-IsValid js [] tt)

  member-left :
      (j : ℕ)
      → member (add_indexes is (add_indexes js [])) j
        ≡ not (occurs self j is + occurs self j js == 0)
  unfolding member
  member-left j =
      member-add_indexes is (add_indexes js []) j (add_indexes-IsValid js [] tt)
      ∙ ground (arith, member-add_indexes js [] j tt)

  abbrev Counted : Type 0
  Counted =
      (n : ℕ)
      → occurs self n is + occurs self n js + occurs f n kept ≡ (if ltb n (length xs) then 1 else 0)

  left-Bounded : Counted → Bounded (add_indexes is (add_indexes js [])) (length xs)
  left-Bounded c j h = member-left j ∙ ground (arith, c j, h)

  keep-left :
      Counted
      → Climbs f 0 kept
      → Every (λ l. HasKey xs (g l) (f l)) kept
      → keep (member (add_indexes is (add_indexes js []))) 0 xs ≡ map g kept
  keep-left c d e =
      keep-listed (member (add_indexes is (add_indexes js []))) f g 0 (length xs) xs kept
        (omega arith) d (λ i h k. member-left i ∙ ground (arith, c i, k))
        (Every-map (λ l. HasKey xs (g l) (f l)) (λ l. f l < length xs)
          (λ l h. get_elem?-lt xs (g l) (f l) h) kept e)
        (Every-map (λ l. HasKey xs (g l) (f l)) _
          (λ l h i k. subst (λ n. HasKey xs (g l) n) (omega (arith, k)) h) kept e)

-- The rows in the order of the old places.
occurs-old_rows :
    (n : ℕ) (rs : List Placed)
    → occurs Row.tv_index n (old_rows rs) ≡ occurs Placed.prev_tv_index n rs
unfolding occurs
occurs-old_rows n [] = refl
occurs-old_rows n (r ∷ rs) = omega (arith, occurs-old_rows n rs)

length-old_rows : (rs : List Placed) → length (old_rows rs) ≡ length rs
length-old_rows [] = refl
length-old_rows (r ∷ rs) = ap suc (length-old_rows rs)

old_rows-Every :
    (P : ℕ → ℕ → Type 0) (rs : List Placed)
    → Every (λ r. P r.key r.prev_tv_index) rs
    → Every (λ x. P x.key x.tv_index) (old_rows rs)
old_rows-Every P [] p = tt
old_rows-Every P (r ∷ rs) p = (p.0, old_rows-Every P rs p.1)

before_in_view-Orders : Orders before_in_view Row.tv_index
before_in_view-Orders x y = (λ h. ground (arith, h), λ h. ground (arith, h))

abbrev pub by_place : Placed → Placed → Bool
by_place x y = ltb x.tv_index y.tv_index

by_place-Orders : Orders by_place Placed.tv_index
by_place-Orders x y = (λ h. ground (arith, h), λ h. ground (arith, h))

-- The rows that both lists have, in the order of the new places and in that of the old ones.
abbrev pub kept_rows : List ℕ → List ℕ → List Placed
kept_rows prev next =
    sort_by by_place (present (compare_rows (build_row_info prev) (build_row_info next)).rows)

abbrev pub prev_rows : List ℕ → List ℕ → List Row
prev_rows prev next = sort_by before_in_view (old_rows (kept_rows prev next))

pub kept_rows-HasKey :
    (prev next : List ℕ)
    → Every
        (λ r. HasKey prev r.key r.prev_tv_index × HasKey next r.key r.tv_index)
        (kept_rows prev next)
kept_rows-HasKey prev next =
    let os = build_row_info prev in
    let ns = build_row_info next in
    Every-sort_by by_place _ (present (compare_rows os ns).rows) (
      compare_rows-Both (HasKey prev) (HasKey next) os ns (build_row_info-New next)
        (build_row_info-HasKey prev) (build_row_info-HasKey next))

-- A place is that of a row that is gone or added, or that of one of these, and of only one.
occurs-prev_rows :
    (prev next : List ℕ) (n : ℕ)
    → occurs self n (compare_rows (build_row_info prev) (build_row_info next)).gone
        + occurs Row.tv_index n (prev_rows prev next)
      ≡ (if ltb n (length prev) then 1 else 0)
occurs-prev_rows prev next n =
    let os = build_row_info prev in
    let ns = build_row_info next in
    omega (
      arith,
      compare_rows_gone n os ns (build_row_info-New next),
      occurs-build_row_info n prev,
      occurs-sort_by before_in_view Row.tv_index n (old_rows (kept_rows prev next)),
      occurs-old_rows n (kept_rows prev next),
      occurs-sort_by by_place Placed.prev_tv_index n (present (compare_rows os ns).rows),
    )

pub occurs-kept_rows :
    (prev next : List ℕ) (n : ℕ)
    → occurs self n (compare_rows (build_row_info prev) (build_row_info next)).added
        + occurs Placed.tv_index n (kept_rows prev next)
      ≡ (if ltb n (length next) then 1 else 0)
occurs-kept_rows prev next n =
    let os = build_row_info prev in
    let ns = build_row_info next in
    omega (
      arith,
      compare_rows_added n os ns (build_row_info-New next),
      occurs-build_row_info n next,
      occurs-sort_by by_place Placed.tv_index n (present (compare_rows os ns).rows),
    )

pub prev_rows-Climbs : (prev next : List ℕ) → Climbs Row.tv_index 0 (prev_rows prev next)
prev_rows-Climbs prev next =
    let rs = old_rows (kept_rows prev next) in
    Climbs-sort_by before_in_view Row.tv_index rs before_in_view-Orders λ n.
      ground (arith, occurs-prev_rows prev next n, occurs-sort_by before_in_view Row.tv_index n rs)

pub kept_rows-Climbs : (prev next : List ℕ) → Climbs Placed.tv_index 0 (kept_rows prev next)
kept_rows-Climbs prev next =
    let rs = present (compare_rows (build_row_info prev) (build_row_info next)).rows in
    Climbs-sort_by by_place Placed.tv_index rs by_place-Orders λ n.
      ground (arith, occurs-kept_rows prev next n, occurs-sort_by by_place Placed.tv_index n rs)

pub prev_rows-HasKey :
    (prev next : List ℕ) → Every (λ x. HasKey prev x.key x.tv_index) (prev_rows prev next)
prev_rows-HasKey prev next = Every-sort_by before_in_view _ (old_rows (kept_rows prev next)) (
    old_rows-Every (HasKey prev) (kept_rows prev next)
      (Every-map _ _ (λ r h. h.0) (kept_rows prev next) (kept_rows-HasKey prev next)))

-- What is recorded for rows that are gone, added or not kept in place rebuilds the new rows.
pub aligned-applied :
    (prev next : List ℕ) (modifications : List Range) (moved : List ℕ × List ℕ)
    → IsAligned (prev_rows prev next) (kept_rows prev next) moved
    → let c = compare_rows (build_row_info prev) (build_row_info next) in
      applied prev next (record {
        deletions = add_indexes moved.0 (add_indexes c.gone []);
        insertions = add_indexes moved.1 (add_indexes c.added []);
        modifications = modifications;
        moves = [];
        columns = [];
        track_columns = true;
      })
      ≡ some next
aligned-applied prev next modifications moved al =
    let c = compare_rows (build_row_info prev) (build_row_info next) in
    let old : (n : ℕ)
        → occurs self n moved.0 + occurs self n c.gone + occurs Row.tv_index n al.old_kept
          ≡ (if ltb n (length prev) then 1 else 0) =
      λ n. omega (arith, al.old_count n, occurs-prev_rows prev next n) in
    let new : (n : ℕ)
        → occurs self n moved.1 + occurs self n c.added + occurs Placed.tv_index n al.new_kept
          ≡ (if ltb n (length next) then 1 else 0) =
      λ n. omega (arith, al.new_count n, occurs-kept_rows prev next n) in
    applied-keep prev next _ (left-IsValid prev moved.0 c.gone Row.tv_index Row.key al.old_kept)
      (left-IsValid next moved.1 c.added Placed.tv_index Placed.key al.new_kept)
      (left-Bounded prev moved.0 c.gone Row.tv_index Row.key al.old_kept old)
      (left-Bounded next moved.1 c.added Placed.tv_index Placed.key al.new_kept new)
      (keep-left prev moved.0 c.gone Row.tv_index Row.key al.old_kept old
          (al.old_climbs (prev_rows-Climbs prev next))
          (al.old_every (λ x. HasKey prev x.key x.tv_index) (prev_rows-HasKey prev next))
        ∙ al.keys
        ∙ sym (
            keep-left next moved.1 c.added Placed.tv_index Placed.key al.new_kept new
              (al.new_climbs (kept_rows-Climbs prev next))
              (al.new_every (λ r. HasKey next r.key r.tv_index)
                (Every-map _ _ (λ r h. h.1) (kept_rows prev next) (kept_rows-HasKey prev next)))))

-- Erasing the deletions of the calculated change from the old rows, from the last one on, and then
-- inserting the new rows at its insertions, in order, is always possible, and gives exactly the new rows.
pub calculate_moved-applied :
    (prev next : List ℕ) (did_change : ℕ → Bool)
    → applied prev next (calculate prev next did_change false) ≡ some next
unfolding calculate calculate_rows calculate_moves_sorted
calculate_moved-applied prev next did_change =
    let rows = kept_rows prev next in
    let a = prev_rows prev next in
    let modifications = add_indexes (modified_rows did_change rows) [] in
    aligned-applied prev next modifications
      (moves_from modifications a rows (first_difference 0 a rows))
      (moves_from-IsAligned modifications a rows
        (length-sort_by before_in_view (old_rows rows) ∙ length-old_rows rows))
