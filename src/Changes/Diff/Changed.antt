-- ===== src/Changes/Diff/Changed.antt =====
-- The modifications of the calculated change, and its other parts, as the builder's operations ask.
use realm_object_store.Base.{
  ℕ, ◌≡◌, sym, subst, ◌∙◌, Bool, false, List, [], ◌∷◌, arith, if◌then◌else◌, some, ℕ_discrete,
}
use realm_object_store.IndexSet.Ranges.{member}
use realm_object_store.Changes.Invariant.{IsConsistent}
use realm_object_store.Changes.Diff.Matching.{Placed}
use realm_object_store.Changes.Diff.Lists.{Every, Every-map, occurs}
use realm_object_store.Changes.Diff.Comparing.{HasKey, self}
use realm_object_store.Changes.Diff.Rebuilds.{
  add_indexes-IsValid, member-add_indexes, kept_rows, kept_rows-HasKey, occurs-kept_rows,
  get_elem?-lt,
}
use realm_object_store.Changes.Diff.{
  build_row_info, compare_rows, add_indexes, modified_rows, calculate_moves_sorted, calculate_rows,
  calculate,
}

-- A list has one key at a place.
same_key : (ks : List ℕ) (k l i : ℕ) → HasKey ks k i → HasKey ks l i → k ≡ l
same_key ks k l i h g = let e : some k ≡ some l = sym h ∙ g in cc

occurs-modified_rows :
    (did_change : ℕ → Bool) (ks : List ℕ) (k j : ℕ) (rs : List Placed)
    → Every (λ r. HasKey ks r.key r.tv_index) rs
    → HasKey ks k j
    → occurs self j (modified_rows did_change rs)
      ≡ (if did_change k then occurs Placed.tv_index j rs else 0)
unfolding modified_rows occurs
occurs-modified_rows did_change ks k j [] p h = ground arith
occurs-modified_rows did_change ks k j (r ∷ rs) p h =
    let ih = occurs-modified_rows did_change ks k j rs p.1 h in
    elim (ℕ_discrete r.tv_index j) [
      | yes e ↦
          let q : r.key ≡ k = same_key ks r.key k j (subst (HasKey ks r.key) e p.0) h in
          rw q (ground (arith, ih, e))
      | no n ↦ ground (arith, ih, n)
    ]

-- The places that the moves add.
abbrev moved_rows : List ℕ → List ℕ → (ℕ → Bool) → Bool → List ℕ × List ℕ
moved_rows prev next did_change in_table_order =
    let rows = kept_rows prev next in
    if in_table_order
    then ([], [])
    else calculate_moves_sorted (add_indexes (modified_rows did_change rows) []) rows

-- The sets of the calculated change are valid, and no move is recorded.
pub calculate-IsConsistent :
    (prev next : List ℕ) (did_change : ℕ → Bool) (in_table_order : Bool)
    → IsConsistent (calculate prev next did_change in_table_order)
unfolding calculate calculate_rows
calculate-IsConsistent prev next did_change in_table_order =
    let c = compare_rows (build_row_info prev) (build_row_info next) in
    let (olds, news) = moved_rows prev next did_change in_table_order in
    record {
      deletions_valid =
          add_indexes-IsValid olds (add_indexes c.gone []) (add_indexes-IsValid c.gone [] tt);
      insertions_valid =
          add_indexes-IsValid news (add_indexes c.added []) (add_indexes-IsValid c.added [] tt);
      modifications_valid =
          add_indexes-IsValid (modified_rows did_change (kept_rows prev next)) [] tt;
      columns_valid = tt;
      recorded = tt;
    }

inserted_if_added :
    (is js : List ℕ) (j : ℕ)
    → member (add_indexes is (add_indexes js [])) j ≡ false
    → occurs self j js ≡ 0
unfolding member
inserted_if_added is js j h = ground (
  arith,
  h,
  member-add_indexes is (add_indexes js []) j (add_indexes-IsValid js [] tt),
  member-add_indexes js [] j tt,
)

-- A new row that is not inserted is recorded as modified exactly if its key did change.
pub calculate-modified :
    (prev next : List ℕ) (did_change : ℕ → Bool) (in_table_order : Bool) (k j : ℕ)
    → HasKey next k j
    → member (calculate prev next did_change in_table_order).insertions j ≡ false
    → member (calculate prev next did_change in_table_order).modifications j ≡ did_change k
unfolding calculate calculate_rows member
calculate-modified prev next did_change in_table_order k j h u =
    let rows = kept_rows prev next in
    let count =
      occurs-modified_rows did_change next k j rows
        (Every-map _ _ (λ r p. p.1) rows (kept_rows-HasKey prev next)) h in
    let (olds, news) = moved_rows prev next did_change in_table_order in
    let added =
      inserted_if_added news (compare_rows (build_row_info prev) (build_row_info next)).added j u in
    let all = occurs-kept_rows prev next j in
    member-add_indexes (modified_rows did_change rows) [] j tt
    ∙ ground (arith, count, added, all, get_elem?-lt next k j h)
