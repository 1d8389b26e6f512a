-- ===== src/IndexSet/Counting/Laws.antt =====
-- `shift` and `unshift` are inverse to each other, `add_shifted` is `shift` and `add`, and
-- `erase_or_unshift` is `unshift` and `erase_at`.
use realm_object_store.Base.{
  ℕ, suc, ◌+◌, ◌-◌, ◌≤◌, ◌≡◌, refl, ap, false, List, [], ◌∷◌, arith, ltb, min, if◌then◌else◌,
  Bool-cases, inl, inr, none, some,
}
use realm_object_store.IndexSet.Ranges.{Range, member, Above, IsValid, member-Above, member-Before}
use realm_object_store.IndexSet.Iterator.{
  find, find_from, rewind, Above-Joins, Stands, at_find, member-rewind,
}
use realm_object_store.IndexSet.Single.{add, erase_at, erase_found}
use realm_object_store.IndexSet.Counting.{
  shift, unshift, skip_shifted, add_shifted, skip_unshifted, erase_or, erase_or_unshift,
}
use realm_object_store.IndexSet.Counting.Below.{below, below-Above, below-le, count-below}

pub unshift-below : (s : List Range) (j : ℕ) → IsValid s → unshift s j ≡ j - below s j
unfolding unshift
unshift-below s j v = rw (count-below s j v)

-- An index moved past the ranges is not in the set, and it lies as far on as there are indexes
-- below it.
pub shift-below :
    (rs : List Range) (lo i : ℕ)
    → Above lo rs
    → (i + below rs (shift rs i) ≡ shift rs i) × (i ≤ shift rs i) × (member rs (shift rs i) ≡ false)
unfolding shift below member
shift-below [] lo i a = (omega arith, omega arith, refl)
shift-below (r ∷ rs) lo i a = ground (
  arith,
  shift-below rs (suc r.second) (i + (r.second - r.first)) a.2,
  below-Above rs (suc r.second) i a.2,
  member-Above rs (suc r.second) i a.2,
)

shift-sub-below :
    (rs : List Range) (lo j : ℕ) → Above lo rs → member rs j ≡ false → shift rs (j - below rs j) ≡ j
unfolding shift below member
shift-sub-below [] lo j a h = ground arith
shift-sub-below (r ∷ rs) lo j a h = elim (Bool-cases (ltb j r.first)) [
  | inl e ↦ ground (arith, below-Above rs (suc r.second) j a.2)
  | inr e ↦
      let ih = shift-sub-below rs (suc r.second) j a.2 (ground arith) in
      let le : below rs j + r.second ≤ j =
        ground (arith, below-le rs (suc r.second) j a.2, below-Above rs (suc r.second) j a.2) in
      let e1 : j - ((min r.second j - r.first) + below rs j) + (r.second - r.first)
          ≡ j - below rs j =
        ground arith in
      ground (arith, ap (shift rs) e1, ih)
]

-- No index of the set is a value of `shift`.
pub member-shift : (s : List Range) (i : ℕ) → IsValid s → member s (shift s i) ≡ false
member-shift s i v = (shift-below s 0 i v).2

pub unshift-shift : (s : List Range) (i : ℕ) → IsValid s → unshift s (shift s i) ≡ i
unshift-shift s i v = rw (unshift-below s (shift s i) v) (omega (arith, shift-below s 0 i v))

pub shift-unshift :
    (s : List Range) (j : ℕ) → IsValid s → member s j ≡ false → shift s (unshift s j) ≡ j
shift-unshift s j v h = rw (unshift-below s j v) (shift-sub-below s 0 j v h)

-- On a valid set `shift(i)` is an index that is not in the set, and `unshift` takes it back to `i`; and
-- `shift` takes `unshift(j)` back to `j`, for an index `j` that is not in the set.
pub shift-unshift_lem :
    (s : List Range) (i j : ℕ)
    → IsValid s
    → member s j ≡ false
    → (member s (shift s i) ≡ false) × (unshift s (shift s i) ≡ i) × (shift s (unshift s j) ≡ j)
shift-unshift_lem s i j v h = (member-shift s i v, unshift-shift s i v, shift-unshift s j v h)

-- The loops of `add_shifted` stop where `find` does for the index that they give.
skip_shifted-find :
    (i : ℕ) (ps rs : List Range) (lo : ℕ)
    → Above lo rs
    → skip_shifted i ps rs ≡ (shift rs i, find_from (shift rs i) ps rs)
unfolding skip_shifted shift find_from
skip_shifted-find i ps [] lo a = refl
skip_shifted-find i ps (r ∷ rs) lo a = ground (
  arith,
  skip_shifted-find (i + (r.second - r.first)) (r ∷ ps) rs (suc r.second) a.2,
  shift-below rs (suc r.second) (i + (r.second - r.first)) a.2,
)

pub add_shifted_lem :
    (s : List Range) (i : ℕ) → IsValid s → add_shifted s i ≡ (shift s i, add s (shift s i))
unfolding add_shifted add find
add_shifted_lem s i v = rw (skip_shifted-find i [] s 0 v)

-- Those of `erase_or_unshift` stop where `find` does, and count off what lies below the index.
skip_unshifted-find :
    (i n : ℕ) (ps rs : List Range) → (skip_unshifted i n ps rs).1 ≡ find_from i ps rs
unfolding skip_unshifted find_from
skip_unshifted-find i n ps [] = refl
skip_unshifted-find i n ps (r ∷ rs) =
    ground (arith, skip_unshifted-find i (n - (r.second - r.first)) (r ∷ ps) rs)

skip_unshifted-below :
    (i n : ℕ) (ps rs : List Range) (lo : ℕ)
    → Above lo rs
    → member rs i ≡ false
    → (skip_unshifted i n ps rs).0 ≡ n - below rs i
unfolding skip_unshifted below member
skip_unshifted-below i n ps [] lo a h = ground arith
skip_unshifted-below i n ps (r ∷ rs) lo a h = ground (
  arith,
  skip_unshifted-below i (n - (r.second - r.first)) (r ∷ ps) rs (suc r.second) a.2,
  below-Above rs (suc r.second) i a.2,
)

erase_or-lem :
    (i n : ℕ) (ps rs : List Range)
    → Stands i ps rs
    → erase_or ps rs i n ≡ ((if member (rewind ps rs) i then none else some n), erase_found ps rs i)
unfolding erase_or erase_found member
erase_or-lem i n ps [] st =
    ground (arith, member-rewind ps [] i, member-Before ps (suc i) i st.passed)
erase_or-lem i n ps (r ∷ rs) st = ground (
  arith,
  member-rewind ps (r ∷ rs) i,
  member-Before ps (suc i) i st.passed,
  member-Above rs (suc r.second) i (Above-Joins ps r rs st.joins).1,
)

pub erase_or_unshift_lem :
    (s : List Range) (i : ℕ)
    → IsValid s
    → erase_or_unshift s i ≡ ((if member s i then none else some (unshift s i)), erase_at s i)
unfolding erase_or_unshift erase_at find
erase_or_unshift_lem s i v =
    let n = (skip_unshifted i i [] s).0 in
    let found =
      at_find
        (λ s ps rs.
          erase_or ps rs i n ≡ ((if member s i then none else some n), erase_found ps rs i))
        i s v (erase_or-lem i n) in
    rw (skip_unshifted-find i i [] s, found)
      (ground (arith, skip_unshifted-below i i [] s 0 v, unshift-below s i v))

-- What `erase_or_unshift` leaves of the set.
pub left-erase_or_unshift :
    (s : List Range) (i : ℕ) → IsValid s → (erase_or_unshift s i).1 ≡ erase_at s i
left-erase_or_unshift s i v = ap (λ p. p.1) (erase_or_unshift_lem s i v)

-- On a valid set `add_shifted(i)` returns `shift(i)` and adds that index; `erase_or_unshift(i)` leaves
-- the set that `erase_at(i)` leaves, and returns `npos` for an index of the set and `unshift(i)` for
-- another.
pub add_shifted-erase_or_unshift :
    (s : List Range) (i : ℕ)
    → IsValid s
    → (add_shifted s i ≡ (shift s i, add s (shift s i)))
      × (erase_or_unshift s i ≡ ((if member s i then none else some (unshift s i)), erase_at s i))
add_shifted-erase_or_unshift s i v = (add_shifted_lem s i v, erase_or_unshift_lem s i v)
