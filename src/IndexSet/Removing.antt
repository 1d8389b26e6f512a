-- ===== src/IndexSet/Removing.antt =====
-- `IndexSet::remove` and `do_remove`, which take indexes out and leave the others where they are.
-- The loop of `do_remove` takes fuel; `none` means that the fuel ran out.
pub mod Laws
use realm_object_store.Base.{
  ℕ, zero, suc, ◌+◌, ◌-◌, max, min, Bool, true, false, ◌&&◌, ◌||◌, List, [], ◌∷◌, map, Option, none,
  some, ltb, leb, ◌==◌, if◌then◌else◌, length,
}
use realm_object_store.IndexSet.Ranges.{Range, range, width}
use realm_object_store.IndexSet.Iterator.{Iterator, at, begin, rewind, ranges, find, find_from}

-- The body of the loop: what is left of the range `r` of the iterator, and the ranges after it.
unfoldable pub trim : Range → List Range → ℕ → ℕ → List Range
trim r rs b e =
    if ltb r.first b && ltb e r.second
    then range r.first b ∷ range e r.second ∷ rs
    else if b == r.first && leb r.second e
    then rs
    else if b == r.first
    then range e r.second ∷ rs
    else range r.first b ∷ rs

-- One round, at the iterator that `find` gave: `again` goes on with the trimmed ranges.
unfoldable pub remove_round :
    (ℕ → List Range → List Range → Option Iterator)
    → ℕ
    → ℕ
    → List Range
    → List Range
    → Option Iterator
unfolding trim
remove_round again b e ps [] = some (at ps [])
remove_round again b e ps (r ∷ rs) =
    let b' = max r.first b in
    let rest = again b' ps (trim r rs b' e) in if ltb r.first e then rest else some (at ps (r ∷ rs))

-- `do_remove(it, begin, end)`
unfoldable pub do_remove : ℕ → ℕ → ℕ → List Range → List Range → Option Iterator
unfolding remove_round
do_remove zero b e ps rs = none
do_remove (suc fuel) b e ps rs =
    let it = find_from b ps rs in
    remove_round (λ b' ps' rs'. do_remove fuel b' e ps' rs') b e it.before it.rest

-- Each round drops a range or is the last but one.
abbrev pub rounds : List Range → ℕ
rounds rs = length rs + 2

abbrev finish : Option Iterator → Option (List Range)
finish none = none
finish (some it) = some (rewind it.before it.rest)

-- `remove(index, count)`
unfoldable pub remove : List Range → ℕ → ℕ → Option (List Range)
unfolding do_remove rewind find find_from
remove s i n = let it = find i s in finish (do_remove (rounds s) i (i + n) it.before it.rest)

-- What follows a removal in the loop of `remove(values)`: nothing more at the end of the set.
abbrev after_removal :
    (List Range → List Range → Option (List Range)) → List Range → List Range → Option (List Range)
after_removal again ps [] = some (rewind ps [])
after_removal again ps (r ∷ rs) = again ps (r ∷ rs)

abbrev after_do_remove :
    (List Range → List Range → Option (List Range)) → Option Iterator → Option (List Range)
after_do_remove again none = none
after_do_remove again (some it) = after_removal again it.before it.rest

-- The loop of `remove(values)`: each range is removed from where the last removal stopped.
unfoldable pub remove_each : List Range → List Range → List Range → Option (List Range)
unfolding do_remove rewind find_from
remove_each [] ps rs = some (rewind ps rs)
remove_each (v ∷ vs) ps rs =
    after_do_remove (λ ps' rs'. remove_each vs ps' rs')
      (do_remove (rounds rs) v.first v.second ps rs)

-- `remove(values)`
unfoldable pub remove_set : List Range → List Range → Option (List Range)
unfolding remove_each
remove_set s values = remove_each values [] s
