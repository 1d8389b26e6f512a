-- ===== src/IndexSet/Single/Adding.antt =====
-- `IndexSet::add` and `IndexSet::contains`.
use realm_object_store.Base.{ℕ, suc, ◌≡◌, sym, ap, ◌∙◌, Bool, ◌||◌, List, [], ◌∷◌, arith, ◌==◌}
use realm_object_store.IndexSet.Ranges.{Holds, Range, member, IsValid, member-Above, member-Before}
use realm_object_store.IndexSet.Iterator.{
  at, rewind, ranges, member-rewind, rewind-IsValid, Joins, Stands, at_find,
}
use realm_object_store.IndexSet.Single.{do_add, add, contains, starts_by}

starts_by-member :
    (i : ℕ) (ps rs : List Range) → Stands i ps rs → starts_by i rs ≡ member (rewind ps rs) i
unfolding member
starts_by-member i ps [] st =
    ground (arith, member-rewind ps [] i, member-Before ps (suc i) i st.passed)
starts_by-member i ps (r ∷ rs) st = ground (
  arith,
  member-rewind ps (r ∷ rs) i,
  member-Before ps (suc i) i st.passed,
  member-Above rs (suc r.second) i,
)

pub contains-member : (s : List Range) (j : ℕ) → IsValid s → contains s j ≡ member s j
unfolding contains
contains-member s j v = at_find (λ s ps rs. starts_by j rs ≡ member s j) j s v (starts_by-member j)

pub do_add-Joins :
    (i : ℕ) (ps rs : List Range)
    → Stands i ps rs
    → let it = do_add (at ps rs) i in Joins it.before it.rest
unfolding do_add
do_add-Joins i [] [] st = omega arith
do_add-Joins i [] (r ∷ rs) st = ground arith
do_add-Joins i (p ∷ ps) [] st = ground arith
do_add-Joins i (p ∷ []) (r ∷ rs) st = ground arith
do_add-Joins i (p ∷ q ∷ ps) (r ∷ rs) st = ground arith

-- The indexes of the parts on both sides of an iterator.
abbrev pub members : List Range → List Range → ℕ → Bool
members ps rs j = member ps j || member rs j

pub members-do_add :
    (i j : ℕ) (ps rs : List Range)
    → Stands i ps rs
    → let it = do_add (at ps rs) i in members it.before it.rest j ≡ ((i == j) || members ps rs j)
unfolding do_add member
members-do_add i j [] [] st = ground arith
members-do_add i j [] (r ∷ rs) st = ground arith
members-do_add i j (p ∷ ps) [] st = ground arith
members-do_add i j (p ∷ ps) (r ∷ rs) st = ground arith

-- The set after `add` is valid, and it holds the index and what it held before.
pub add-IsValid : (s : List Range) (i : ℕ) → IsValid s → IsValid (add s i)
unfolding add
add-IsValid s i v =
    at_find (λ s ps rs. IsValid (ranges (do_add (at ps rs) i))) i s v
      λ ps rs st. rewind-IsValid _ _ (do_add-Joins i ps rs st)

pub member-add :
    (s : List Range) (i j : ℕ) → IsValid s → member (add s i) j ≡ ((i == j) || member s j)
unfolding add
member-add s i j v =
    at_find (λ s ps rs. member (ranges (do_add (at ps rs) i)) j ≡ ((i == j) || member s j)) i s v
      λ ps rs st.
        let it = do_add (at ps rs) i in
        ground (
          arith,
          member-rewind it.before it.rest j,
          member-rewind ps rs j,
          members-do_add i j ps rs st,
        )

-- After `add(i)` on a valid set, the set is valid and has an index exactly if it is `i` or was in the
-- set.
pub add-Holds : (s : List Range) (i : ℕ) → IsValid s → Holds (add s i) (λ j. (i == j) || member s j)
add-Holds s i v = (add-IsValid s i v, λ j. member-add s i j v)

-- On a valid set `contains` is true exactly of the indexes in its ranges. After `add(i)` the set is
-- valid, and it contains exactly `i` and what it contained before.
pub contains-add :
    (s : List Range) (i : ℕ)
    → IsValid s
    → Holds s (contains s)
      × IsValid (add s i)
      × ((j : ℕ) → contains (add s i) j ≡ ((i == j) || contains s j))
contains-add s i v = (
  (v, λ j. sym (contains-member s j v)),
  add-IsValid s i v,
  λ j.
      contains-member (add s i) j (add-IsValid s i v)
      ∙ member-add s i j v
      ∙ ap (λ b. (i == j) || b) (sym (contains-member s j v)),
)
