-- ===== src/IndexSet/Counting.antt =====
-- The operations of `IndexSet` that count indexes or move an index past the set: `count` where it goes
-- over all ranges, `shift`,
-- `unshift`, `add_shifted` and `erase_or_unshift`. `size_t(-1)` as a result is `none`.
pub mod Below
pub mod Laws
pub mod Moving
use realm_object_store.Base.{
  ℕ, zero, suc, ◌+◌, ◌-◌, max, min, Bool, true, false, ◌&&◌, ◌||◌, List, [], ◌∷◌, map, Option, none,
  some, ltb, leb, ◌==◌, if◌then◌else◌,
}
use realm_object_store.IndexSet.Ranges.{Range, range, width}
use realm_object_store.IndexSet.Iterator.{Iterator, at, begin, rewind, ranges, find, find_from}
use realm_object_store.IndexSet.Single.{do_add, do_erase}

-- The whole ranges up to the end index, and the part of the last one that lies before it.
unfoldable pub count_rest : List Range → ℕ → ℕ
count_rest [] e = 0
count_rest (r ∷ rs) e =
    if leb r.second e then width r + count_rest rs e else if ltb r.first e then e - r.first else 0

unfoldable pub count_found : List Range → ℕ → ℕ → ℕ
unfolding count_rest
count_found [] b e = 0
count_found (r ∷ rs) b e =
    if leb e r.first
    then 0
    else if leb e r.second
    then min r.second e - max r.first b
    else (r.second - max r.first b) + count_rest rs e

-- `count(start_index, end_index)` on all ranges, as it is from the start 0 on.
unfoldable pub count_ranges : List Range → ℕ → ℕ → ℕ
unfolding count_found find
count_ranges s b e = count_found (find b s).rest b e

-- `shift`
unfoldable pub shift : List Range → ℕ → ℕ
shift [] i = i
shift (r ∷ rs) i = if ltb i r.first then i else shift rs (i + width r)

-- `unshift`
unfoldable pub unshift : List Range → ℕ → ℕ
unfolding count_ranges
unshift s i = i - count_ranges s 0 i

-- The loops of `add_shifted`: the index moves past every range that starts at or before it.
unfoldable pub skip_shifted : ℕ → List Range → List Range → ℕ × Iterator
skip_shifted i ps [] = (i, at ps [])
skip_shifted i ps (r ∷ rs) =
    if leb r.first i then skip_shifted (i + width r) (r ∷ ps) rs else (i, at ps (r ∷ rs))

-- `add_shifted`, with the set after it.
unfoldable pub add_shifted : List Range → ℕ → ℕ × List Range
unfolding skip_shifted do_add ranges
add_shifted s i = let (i', it) = skip_shifted i [] s in (i', ranges (do_add it i'))

-- The loops of `erase_or_unshift`: every range that ends at or before the index counts off.
unfoldable pub skip_unshifted : ℕ → ℕ → List Range → List Range → ℕ × Iterator
skip_unshifted i shifted ps [] = (shifted, at ps [])
skip_unshifted i shifted ps (r ∷ rs) =
    if leb r.second i
    then skip_unshifted i (shifted - width r) (r ∷ ps) rs
    else (shifted, at ps (r ∷ rs))

unfoldable pub erase_or : List Range → List Range → ℕ → ℕ → Option ℕ × List Range
unfolding do_erase rewind
erase_or ps [] i shifted = (some shifted, rewind ps [])
erase_or ps (r ∷ rs) i shifted = (if leb r.first i then none else some shifted, do_erase ps r rs i)

-- `erase_or_unshift`, with the set after it.
unfoldable pub erase_or_unshift : List Range → ℕ → Option ℕ × List Range
unfolding skip_unshifted erase_or
erase_or_unshift s i =
    let (shifted, it) = skip_unshifted i i [] s in erase_or it.before it.rest i shifted
