-- ===== src/IndexSet/Combining/Adding.antt =====
-- `add` of a set.
use realm_object_store.Base.{ℕ, suc, ◌+◌, ◌≡◌, refl, ap, ◌||◌, List, [], ◌∷◌, arith, ◌==◌}
use realm_object_store.IndexSet.Ranges.{Holds, Range, member, Before, IsValid, Before-mono}
use realm_object_store.IndexSet.Iterator.{
  Iterator, at, begin, rewind, ranges, find_from, member-rewind, rewind-IsValid, Joins, Joins-cut,
  Stands, find_from-Stands, rewind-find_from,
}
use realm_object_store.IndexSet.Single.{do_add}
use realm_object_store.IndexSet.Single.Adding.{do_add-Joins, members-do_add}
use realm_object_store.IndexSet.Combining.{as_indexes, add_each, add_set}
use realm_object_store.IndexSet.Combining.Indexes.{
  Ascending, elem, as_indexes-Ascending, elem-as_indexes,
}

-- The place where an index was added is not past it.
do_add-Before :
    (i : ℕ) (ps rs : List Range) → Stands i ps rs → Before (do_add (at ps rs) i).before (suc i)
unfolding do_add
do_add-Before i [] [] st = ground arith
do_add-Before i [] (r ∷ rs) st = ground arith
do_add-Before i (p ∷ ps) [] st =
    ground (arith, Before-mono ps {m = p.first} {n = suc i} (omega arith) st.passed.2)
do_add-Before i (p ∷ ps) (r ∷ rs) st =
    ground (arith, Before-mono ps {m = p.first} {n = suc i} (omega arith) st.passed.2)

-- What an iterator has when some more indexes were added to what it had.
abbrev Gains : Iterator → List ℕ → Iterator → Type 0
Gains it is it' =
    Joins it'.before it'.rest
    × ((j : ℕ) → member (ranges it') j ≡ (elem j is || member (ranges it) j))

member-add_step :
    (i : ℕ) (it : Iterator)
    → Joins it.before it.rest
    → Before it.before (suc i)
    → let it' = do_add (find_from i it.before it.rest) i in
      Joins it'.before it'.rest
      × Before it'.before (suc i)
      × ((j : ℕ) → member (ranges it') j ≡ ((i == j) || member (ranges it) j))
unfolding ranges
member-add_step i it g b =
    let (cut, l, r) = Joins-cut it.before it.rest g in
    let st = find_from-Stands i it.before it.rest cut l r b in
    let f = find_from i it.before it.rest in
    let t = do_add f i in
    (
      do_add-Joins i f.before f.rest st,
      do_add-Before i f.before f.rest st,
      λ j. ground (
        arith,
        member-rewind t.before t.rest j,
        member-rewind f.before f.rest j,
        members-do_add i j f.before f.rest st,
        ap (λ s. member s j) (rewind-find_from i it.before it.rest),
      ),
    )

add_each-Gains :
    (is : List ℕ) (it : Iterator) (lo : ℕ)
    → Joins it.before it.rest
    → Before it.before (suc lo)
    → Ascending lo is
    → Gains it is (add_each is it)
unfolding add_each elem
add_each-Gains [] it lo g b a = (g, λ j. refl)
add_each-Gains (i ∷ is) it lo g b a =
    let t = do_add (find_from i it.before it.rest) i in
    let (g', b', m) = member-add_step i it g (Before-mono it.before (omega arith) b) in
    let ih = add_each-Gains is t (i + 1) g' (Before-mono t.before (omega arith) b') a.1 in
    (ih.0, λ j. ground (arith, ih.1 j, m j))

-- After `add(other)` the set is valid and has the indexes of both.
pub add_set-Holds :
    (s other : List Range)
    → IsValid s
    → IsValid other
    → Holds (add_set s other) (λ j. member other j || member s j)
unfolding add_set begin ranges rewind
add_set-Holds s other v w =
    let g = add_each-Gains (as_indexes other) (begin s) 0 v tt (as_indexes-Ascending other 0 w) in
    let t = add_each (as_indexes other) (begin s) in
    (rewind-IsValid t.before t.rest g.0, λ j. ground (arith, g.1 j, elem-as_indexes other 0 j w))
