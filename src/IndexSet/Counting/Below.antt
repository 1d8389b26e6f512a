-- ===== src/IndexSet/Counting/Below.antt =====
-- How many indexes of a set lie below a bound, and what `count`, `shift` and `unshift` make of it.
use realm_object_store.Base.{
  ℕ, zero, suc, ◌+◌, ◌-◌, ◌≤◌, ◌≡◌, refl, Bool, List, [], ◌∷◌, arith, min, if◌then◌else◌,
}
use realm_object_store.IndexSet.Ranges.{Range, member, Above, IsValid, member-Above}
use realm_object_store.IndexSet.Counting.{count_ranges, count_found, count_rest}
use realm_object_store.IndexSet.Iterator.{find, find_from}

-- The indexes below a bound, range by range.
unfoldable pub below : List Range → ℕ → ℕ
below [] e = 0
below (r ∷ rs) e = (min r.second e - r.first) + below rs e

-- The numbers from `b` on, `n` of them, that satisfy a test.
unfoldable pub tally : (ℕ → Bool) → ℕ → ℕ → ℕ
tally p b zero = 0
tally p b (suc n) = (if p b then 1 else 0) + tally p (b + 1) n

pub below-Above : (rs : List Range) (lo e : ℕ) → Above lo rs → e ≤ lo → below rs e ≡ 0
unfolding below
below-Above [] lo e a h = refl
below-Above (r ∷ rs) lo e a h = ground (arith, below-Above rs (suc r.second) e a.2)

pub below-le : (rs : List Range) (lo e : ℕ) → Above lo rs → lo ≤ e → below rs e + lo ≤ e
unfolding below
below-le [] lo e a h = omega arith
below-le (r ∷ rs) lo e a h =
    ground (arith, below-le rs (suc r.second) e a.2, below-Above rs (suc r.second) e a.2)

pub below-suc :
    (rs : List Range) (lo e : ℕ)
    → Above lo rs
    → below rs (e + 1) ≡ below rs e + (if member rs e then 1 else 0)
unfolding below member
below-suc [] lo e a = refl
below-suc (r ∷ rs) lo e a =
    ground (arith, below-suc rs (suc r.second) e a.2, member-Above rs (suc r.second) e a.2)

-- Counting below two bounds counts what is held between them.
below-tally :
    (s : List Range) (b n : ℕ) → IsValid s → below s (b + n) ≡ below s b + tally (member s) b n
unfolding tally
below-tally s b zero v = ground arith
below-tally s b (suc n) v = ground (arith, below-suc s 0 b v, below-tally s (b + 1) n v)

pub count_rest-below : (rs : List Range) (lo e : ℕ) → Above lo rs → count_rest rs e ≡ below rs e
unfolding count_rest below
count_rest-below [] lo e a = refl
count_rest-below (r ∷ rs) lo e a =
    ground (arith, count_rest-below rs (suc r.second) e a.2, below-Above rs (suc r.second) e a.2)

count_found-below :
    (b e : ℕ) (ps rs : List Range) (lo : ℕ)
    → Above lo rs
    → count_found (find_from b ps rs).rest b e + below rs (min b e) ≡ below rs e
unfolding count_found below find_from
count_found-below b e ps [] lo a = refl
count_found-below b e ps (r ∷ rs) lo a = ground (
  arith,
  count_found-below b e (r ∷ ps) rs (suc r.second) a.2,
  count_rest-below rs (suc r.second) e a.2,
  below-Above rs (suc r.second) (min b e) a.2,
  below-Above rs (suc r.second) e a.2,
)

-- Over all ranges `count` is the number of indexes of the set from the start up to the end.
pub count_ranges-tally :
    (s : List Range) (b n : ℕ) → IsValid s → count_ranges s b (b + n) ≡ tally (member s) b n
unfolding count_ranges find
count_ranges-tally s b n v =
    ground (arith, count_found-below b (b + n) [] s 0 v, below-tally s b n v)

pub count-below : (s : List Range) (e : ℕ) → IsValid s → count_ranges s 0 e ≡ below s e
unfolding count_ranges find
count-below s e v = ground (arith, count_found-below 0 e [] s 0 v, below-Above s 0 0 v)
