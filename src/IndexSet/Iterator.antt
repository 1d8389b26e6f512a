-- ===== src/IndexSet/Iterator.antt =====
-- `ChunkedRangeVector::iterator` over the ranges: `prev`, `next`, `set`, `adjust`, `shift`, `insert`
-- and `erase` where they are used, and the two functions that find a position.
use realm_object_store.Base.{
  ℕ, suc, ◌<◌, ◌≡◌, refl, ◌||◌, List, [], ◌∷◌, arith, leb, Bool-cases, inl, inr, if◌then◌else◌,
}
use realm_object_store.IndexSet.Ranges.{
  Range, member, Above, Before, IsValid, Above-mono, Before-mono,
}

-- The ranges before the iterator, the nearest first, and the range that it stands at with those
-- after it; at the end there is none.
pub record Iterator : Type 0 where
  pub before : List Range
  pub rest : List Range

abbrev pub at : List Range → List Range → Iterator
at ps rs = record { before = ps; rest = rs }

unfoldable pub begin : List Range → Iterator
begin s = at [] s

-- Puts ranges back in front of a list, the nearest last.
unfoldable pub rewind : List Range → List Range → List Range
rewind [] rs = rs
rewind (p ∷ ps) rs = rewind ps (p ∷ rs)

-- The set that an iterator goes over.
unfoldable pub ranges : Iterator → List Range
unfolding rewind
ranges it = rewind it.before it.rest

-- `find(index, it)`: the range that holds the index, or the first one after it.
unfoldable pub find_from : ℕ → List Range → List Range → Iterator
find_from i ps [] = at ps []
find_from i ps (r ∷ rs) = if leb r.second i then find_from i (r ∷ ps) rs else at ps (r ∷ rs)

-- `find(index)`
unfoldable pub find : ℕ → List Range → Iterator
unfolding find_from begin
find i s = find_from i [] s

pub member-rewind :
    (ps rs : List Range) (j : ℕ) → member (rewind ps rs) j ≡ (member ps j || member rs j)
unfolding rewind member
member-rewind [] rs j = refl
member-rewind (p ∷ ps) rs j = ground (arith, member-rewind ps (p ∷ rs) j)

-- The ranges before and after an iterator of a valid set.
abbrev pub Joins : List Range → List Range → Type 0
Joins [] rs = Above 0 rs
Joins (p ∷ ps) [] = (p.first < p.second) × Before ps p.first
Joins (p ∷ ps) (r ∷ rs) = Before (p ∷ ps) r.first × Above r.first (r ∷ rs)

pub Joins-intro : (ps rs : List Range) (cut : ℕ) → Before ps cut → Above cut rs → Joins ps rs
Joins-intro [] rs cut b a = Above-mono rs (omega arith) a
Joins-intro (p ∷ ps) [] cut b a = (b.1, b.2)
Joins-intro (p ∷ ps) (r ∷ rs) cut b a = ((omega arith, b.1, b.2), (omega arith, a.1, a.2))

pub Before-Joins :
    (ps : List Range) (r : Range) (rs : List Range) → Joins ps (r ∷ rs) → Before ps r.first
Before-Joins [] r rs h = tt
Before-Joins (p ∷ ps) r rs h = h.0

pub Above-Joins :
    (ps : List Range) (r : Range) (rs : List Range)
    → Joins ps (r ∷ rs)
    → (r.first < r.second) × Above (suc r.second) rs
Above-Joins [] r rs h = (h.1, h.2)
Above-Joins (p ∷ ps) r rs h = (h.1.1, h.1.2)

pub Joins-cut : (ps rs : List Range) → Joins ps rs → (cut : ℕ) × Before ps cut × Above cut rs
Joins-cut [] rs h = (0, tt, h)
Joins-cut (p ∷ ps) [] h = (suc p.second, (omega arith, h.0, h.1), tt)
Joins-cut (p ∷ ps) (r ∷ rs) h = (r.first, h.0, h.1)

pub rewind-IsValid : (ps rs : List Range) → Joins ps rs → IsValid (rewind ps rs)
unfolding rewind
rewind-IsValid [] rs h = h
rewind-IsValid (p ∷ ps) [] h =
    rewind-IsValid ps (p ∷ []) (Joins-intro ps (p ∷ []) p.first h.1 (omega arith))
rewind-IsValid (p ∷ ps) (r ∷ rs) h =
    rewind-IsValid ps (p ∷ r ∷ rs)
      (Joins-intro ps (p ∷ r ∷ rs) p.first h.0.2 (omega arith, h.0.1, (h.0.0, h.1.1, h.1.2)))

-- The position is the end, or its range ends after the index.
abbrev pub Reaches : ℕ → List Range → Type 0
Reaches i [] = Unit {0}
Reaches i (r ∷ rs) = i < r.second

-- The ranges before and after an iterator at the place of an index, in a valid set.
pub record Stands (i : ℕ) (ps rs : List Range) : Type 0 where
  pub joins : Joins ps rs
  pub passed : Before ps (suc i)
  pub reaches : Reaches i rs

pub find_from-Stands :
    (i : ℕ) (ps rs : List Range) (cut : ℕ)
    → Before ps cut
    → Above cut rs
    → Before ps (suc i)
    → let it = find_from i ps rs in Stands i it.before it.rest
unfolding find_from
find_from-Stands i ps [] cut b a p = record {
  joins = Joins-intro ps [] cut b a;
  passed = p;
  reaches = tt;
}
find_from-Stands i ps (r ∷ rs) cut b a p = elim (Bool-cases (leb r.second i)) [
  | inl e ↦ rw e (
      find_from-Stands i (r ∷ ps) rs (suc r.second) (omega arith, a.1, Before-mono ps a.0 b) a.2
        (ground arith, a.1, Before-mono ps a.0 b))
  | inr e ↦
      rw e (record { joins = Joins-intro ps (r ∷ rs) cut b a; passed = p; reaches = ground arith })
]

-- `find` stands at the place of the index and leaves the set as it is.
pub find-Stands :
    (i : ℕ) (s : List Range) → IsValid s → let it = find i s in Stands i it.before it.rest
unfolding find
find-Stands i s v = find_from-Stands i [] s 0 tt v tt

pub rewind-find_from :
    (i : ℕ) (ps rs : List Range)
    → let it = find_from i ps rs in rewind it.before it.rest ≡ rewind ps rs
unfolding find_from rewind
rewind-find_from i ps [] = refl
rewind-find_from i ps (r ∷ rs) = ground (arith, rewind-find_from i (r ∷ ps) rs)

pub rewind-find : (i : ℕ) (s : List Range) → let it = find i s in rewind it.before it.rest ≡ s
unfolding find rewind
rewind-find i s = rewind-find_from i [] s

-- What holds of the parts that `find` gives, at the place of the index, holds at the set.
pub at_find {ℓ} :
    (P : List Range → List Range → List Range → Type ℓ) (i : ℕ) (s : List Range)
    → IsValid s
    → ((ps rs : List Range) → Stands i ps rs → P (rewind ps rs) ps rs)
    → let it = find i s in P s it.before it.rest
at_find P i s v h =
    let it = find i s in rw (rewind-find i s) at (h it.before it.rest (find-Stands i s v))
