-- ===== src/IndexSet/Single/Shifting.antt =====
-- `IndexSet::shift_for_insert_at(index, count)`.
use realm_object_store.Base.{
  ℕ, suc, ◌+◌, ◌-◌, ◌<◌, ◌≡◌, true, false, List, [], ◌∷◌, arith, ltb, Bool-cases, inl, inr,
}
use realm_object_store.IndexSet.Ranges.{
  Holds, Range, range, member, IsValid, member-Above, member-Before,
}
use realm_object_store.IndexSet.Iterator.{
  Joins-intro, Before-Joins, Above-Joins, rewind, member-rewind, rewind-IsValid, Stands, at_find,
}
use realm_object_store.IndexSet.Single.{insert_at, shift_up, shift_found, shift_for_insert_at}
use realm_object_store.IndexSet.Single.Inserting.{
  shift_up-Above, member-shift_up, after_insert, insert_at-Holds,
}

shift_found-IsValid :
    (i n : ℕ) (ps rs : List Range) → 0 < n → Stands i ps rs → IsValid (shift_found ps rs i n)
unfolding shift_found shift_up
shift_found-IsValid i n ps [] h st = rewind-IsValid ps [] st.joins
shift_found-IsValid i n ps (r ∷ rs) h st =
    let (w, a) = Above-Joins ps r rs st.joins in
    let b = Before-Joins ps r rs st.joins in
    let moved = shift_up-Above (suc r.second) (suc (r.second + n)) n rs (omega arith) a in
    elim (Bool-cases (ltb (r.first + n) (i + n))) [
      | inl e ↦ rw e (
          rewind-IsValid ps _ (
            Joins-intro ps _ r.first b
              (omega arith, ground arith, (omega arith, omega arith, moved))))
      | inr e ↦
          rw e (rewind-IsValid ps _ (Joins-intro ps _ r.first b (omega arith, omega arith, moved)))
    ]

member-shift_found :
    (i n j : ℕ) (ps rs : List Range)
    → 0 < n
    → Stands i ps rs
    → member (shift_found ps rs i n) j ≡ after_insert false i n (member (rewind ps rs)) j
unfolding shift_found member shift_up
member-shift_found i n j ps [] h st = ground (
  arith,
  member-rewind ps [] j,
  member-rewind ps [] (j - n),
  member-Before ps (suc i) j st.passed,
  member-Before ps (suc i) (j - n) st.passed,
)
member-shift_found i n j ps (r ∷ rs) h st =
    let (w, a) = Above-Joins ps r rs st.joins in
    let moved = shift_up-Above (suc r.second) (suc (r.second + n)) n rs (omega arith) a in
    elim (Bool-cases (ltb (r.first + n) (i + n))) [
      | inl e ↦
          rw
            (
              e,
              member-rewind ps
                  (range (r.first + n - n) i ∷ range (i + n) (r.second + n) ∷ shift_up n rs) j,
            )
            (elim (Bool-cases (ltb j i)) [
              | inl low ↦
                  rw (low, member-rewind ps (r ∷ rs) j)
                    (ground (
                      arith,
                      member-Above (shift_up n rs) (suc (r.second + n)) j moved,
                      member-Above rs (suc r.second) j a,
                    ))
              | inr high ↦
                  rw (high, member-rewind ps (r ∷ rs) (j - n))
                    (ground (
                      arith,
                      member-shift_up n j rs,
                      member-Above (shift_up n rs) (suc (r.second + n)) j moved,
                      member-Before ps (suc i) j st.passed,
                      member-Before ps (suc i) (j - n) st.passed,
                    ))
            ])
      | inr e ↦
          rw (e, member-rewind ps (range (r.first + n) (r.second + n) ∷ shift_up n rs) j)
            (elim (Bool-cases (ltb j i)) [
              | inl low ↦
                  rw (low, member-rewind ps (r ∷ rs) j)
                    (ground (
                      arith,
                      member-Above (shift_up n rs) (suc (r.second + n)) j moved,
                      member-Above rs (suc r.second) j a,
                    ))
              | inr high ↦
                  rw (high, member-rewind ps (r ∷ rs) (j - n))
                    (ground (
                      arith,
                      member-shift_up n j rs,
                      member-Above (shift_up n rs) (suc (r.second + n)) j moved,
                      member-Before ps (suc i) j st.passed,
                      member-Before ps (suc i) (j - n) st.passed,
                    ))
            ])
    ]

-- `shift_for_insert_at` keeps the set valid.
pub shift_for_insert_at-IsValid :
    (s : List Range) (i n : ℕ) → 0 < n → IsValid s → IsValid (shift_for_insert_at s i n)
unfolding shift_for_insert_at
shift_for_insert_at-IsValid s i n h v =
    at_find (λ s ps rs. IsValid (shift_found ps rs i n)) i s v
      λ ps rs. shift_found-IsValid i n ps rs h

pub member-shift_for_insert_at :
    (s : List Range) (i n j : ℕ)
    → 0 < n
    → IsValid s
    → member (shift_for_insert_at s i n) j ≡ after_insert false i n (member s) j
unfolding shift_for_insert_at
member-shift_for_insert_at s i n j h v =
    at_find (λ s ps rs. member (shift_found ps rs i n) j ≡ after_insert false i n (member s) j) i s
      v λ ps rs. member-shift_found i n j ps rs h

-- After `shift_for_insert_at(i, n)` of at least one index on a valid set, the set is valid, the
-- indexes below `i` are as before, those from `i` to `i + n` are not in the set, and those from there
-- on are as `n` before them were.
pub shift_for_insert_at-Holds :
    (s : List Range) (i n : ℕ)
    → 0 < n
    → IsValid s
    → Holds (shift_for_insert_at s i n) (after_insert false i n (member s))
shift_for_insert_at-Holds s i n h v =
    (shift_for_insert_at-IsValid s i n h v, λ j. member-shift_for_insert_at s i n j h v)

-- On a valid set, for an index `i` and a number `n` of at least one, `insert_at(i, n)` and
-- `shift_for_insert_at(i, n)` leave valid sets. In both the indexes below `i` are as before, and those
-- from `i + n` on are as `n` before them were; all from `i` up to `i + n` are in the one, and none of
-- them is in the other.
pub insert_at-shift_for_insert_at :
    (s : List Range) (i n : ℕ)
    → 0 < n
    → IsValid s
    → Holds (insert_at s i n) (after_insert true i n (member s))
      × Holds (shift_for_insert_at s i n) (after_insert false i n (member s))
insert_at-shift_for_insert_at s i n h v =
    (insert_at-Holds s i n h v, shift_for_insert_at-Holds s i n h v)
