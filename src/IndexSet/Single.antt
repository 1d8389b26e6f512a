-- ===== src/IndexSet/Single.antt =====
-- The operations of `IndexSet` on one index or one run of indexes. A set is the list of its ranges;
-- an operation that changes the set returns the new one.
pub mod Adding
pub mod Erasing
pub mod Inserting
pub mod Shifting
use realm_object_store.Base.{
  ℕ, zero, suc, ◌+◌, ◌-◌, ◌*◌, max, min, Bool, true, false, ◌&&◌, ◌||◌, List, [], ◌∷◌, map, Option,
  none, some, ltb, leb, ◌==◌, if◌then◌else◌, length,
}
use realm_object_store.IndexSet.Ranges.{Range, range, width}
use realm_object_store.IndexSet.Iterator.{Iterator, at, begin, rewind, ranges, find, find_from}

-- `it.shift(distance)` on every range from the iterator on.
unfoldable pub shift_up : ℕ → List Range → List Range
shift_up n [] = []
shift_up n (r ∷ rs) = range (r.first + n) (r.second + n) ∷ shift_up n rs

unfoldable pub shift_down : ℕ → List Range → List Range
shift_down n [] = []
shift_down n (r ∷ rs) = range (r.first - n) (r.second - n) ∷ shift_down n rs

-- `valid && it->first <= index && it->second > index`
abbrev pub stands_in : ℕ → List Range → Bool
stands_in i [] = false
stands_in i (r ∷ rs) = leb r.first i && ltb i r.second

-- `more_before && std::prev(it)->second == index`
abbrev pub ends_before : ℕ → List Range → Bool
ends_before i [] = false
ends_before i (p ∷ ps) = p.second == i

-- `valid && it->first == index`
abbrev pub starts_at : ℕ → List Range → Bool
starts_at i [] = false
starts_at i (r ∷ rs) = r.first == i

-- The range before the iterator grows by one, and takes in the next one where they now meet.
unfoldable pub extend_prev : List Range → List Range → Iterator
extend_prev [] rs = at [] rs
extend_prev (p ∷ ps) [] = at ps (range p.first (p.second + 1) ∷ [])
extend_prev (p ∷ ps) (r ∷ rs) =
    if p.second + 1 == r.first
    then at ps (range p.first (p.second + 1 + (r.second - r.first)) ∷ rs)
    else at ps (range p.first (p.second + 1) ∷ r ∷ rs)

-- `it.adjust(-1, 0)`
unfoldable pub extend_next : List Range → List Range → Iterator
extend_next ps [] = at ps []
extend_next ps (r ∷ rs) = at ps (range (r.first - 1) r.second ∷ rs)

-- `do_add`: adds the index at the place of the iterator and returns the iterator at its range.
unfoldable pub do_add : Iterator → ℕ → Iterator
unfolding extend_prev extend_next
do_add it i =
    if stands_in i it.rest
    then it
    else if ends_before i it.before
    then extend_prev it.before it.rest
    else if starts_at (i + 1) it.rest
    then extend_next it.before it.rest
    else at it.before (range i (i + 1) ∷ it.rest)

unfoldable pub add : List Range → ℕ → List Range
unfolding do_add find ranges
add s i = ranges (do_add (find i s) i)

-- `set(len)`
unfoldable pub set : ℕ → List Range
set n = if n == 0 then [] else range 0 n ∷ []

-- `contains`: the range found starts at or before the index.
abbrev starts_by : ℕ → List Range → Bool
starts_by i [] = false
starts_by i (r ∷ rs) = leb r.first i

unfoldable pub contains : List Range → ℕ → Bool
unfolding find
contains s i = starts_by i (find i s).rest

-- The first part of `do_erase`, at the range `r` of the iterator: what is before and after it then.
unfoldable pub erase_step : List Range → Range → List Range → ℕ → Iterator
erase_step [] r rs i =
    if leb r.first i
    then (if r.first + 1 == r.second then at [] rs else at (range r.first (r.second - 1) ∷ []) rs)
    else at [] (r ∷ rs)
erase_step (p ∷ ps) r rs i =
    if leb r.first i
    then (if r.first + 1 == r.second
        then at (p ∷ ps) rs
        else at (range r.first (r.second - 1) ∷ p ∷ ps) rs)
    else if p.second + 1 == r.first
    then at (range p.first (p.second + (r.second - r.first)) ∷ ps) rs
    else at (p ∷ ps) (r ∷ rs)

-- `do_erase`: takes the index out and moves all later indexes down by one.
unfoldable pub do_erase : List Range → Range → List Range → ℕ → List Range
unfolding erase_step rewind shift_down
do_erase ps r rs i = let it = erase_step ps r rs i in rewind it.before (shift_down 1 it.rest)

unfoldable pub erase_found : List Range → List Range → ℕ → List Range
unfolding do_erase rewind
erase_found ps [] i = rewind ps []
erase_found ps (r ∷ rs) i = do_erase ps r rs i

unfoldable pub erase_at : List Range → ℕ → List Range
unfolding erase_found find
erase_at s i = let it = find i s in erase_found it.before it.rest i

abbrev next_of : List Range → List Range → Iterator
next_of ps [] = at ps []
next_of ps (r ∷ rs) = at (r ∷ ps) rs

abbrev pub next : Iterator → Iterator
next it = next_of it.before it.rest

-- The loop of `insert_at`: `n` indexes from `i` on are added, each at the place after the last.
unfoldable pub add_run : ℕ → ℕ → Iterator → Iterator
unfolding do_add
add_run zero i it = it
add_run (suc n) i it = add_run n (i + 1) (next (do_add it i))

-- `insert_at(index, count)`
unfoldable pub insert_found : List Range → List Range → ℕ → ℕ → List Range
unfolding rewind shift_up add_run ranges
insert_found ps [] i n = ranges (add_run n i (at ps []))
insert_found ps (r ∷ rs) i n =
    if leb r.first i
    then rewind ps (range r.first (r.second + n) ∷ shift_up n rs)
    else ranges (add_run n i (at ps (shift_up n (r ∷ rs))))

unfoldable pub insert_at : List Range → ℕ → ℕ → List Range
unfolding insert_found find
insert_at s i n = let it = find i s in insert_found it.before it.rest i n

-- `shift_for_insert_at(index, count)`: the range that holds the index is split.
unfoldable pub shift_found : List Range → List Range → ℕ → ℕ → List Range
unfolding rewind shift_up
shift_found ps [] i n = rewind ps []
shift_found ps (r ∷ rs) i n =
    if ltb (r.first + n) (i + n)
    then rewind ps (range (r.first + n - n) i ∷ range (i + n) (r.second + n) ∷ shift_up n rs)
    else rewind ps (shift_up n (r ∷ rs))

unfoldable pub shift_for_insert_at : List Range → ℕ → ℕ → List Range
unfolding shift_found find
shift_for_insert_at s i n = let it = find i s in shift_found it.before it.rest i n
