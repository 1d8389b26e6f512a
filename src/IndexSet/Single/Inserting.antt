-- ===== src/IndexSet/Single/Inserting.antt =====
-- `IndexSet::insert_at(index, count)` and `IndexSet::shift_for_insert_at(index, count)`.
use realm_object_store.Base.{
  ℕ, zero, suc, ◌+◌, ◌-◌, ◌≤◌, ◌<◌, ◌≡◌, refl, Bool, true, false, List, [], ◌∷◌, arith, ltb, leb,
  ◌==◌, if◌then◌else◌, Bool-cases, inl, inr,
}
use realm_object_store.IndexSet.Ranges.{
  Holds, Range, range, member, Above, Before, IsValid, Above-mono, member-Above, member-Before,
}
use realm_object_store.IndexSet.Iterator.{
  Joins-intro, Before-Joins, Above-Joins, at, rewind, member-rewind, rewind-IsValid, Joins, Stands,
  at_find,
}
use realm_object_store.IndexSet.Single.{shift_up, do_add, add_run, next, insert_found, insert_at}

pub shift_up-Above :
    (lo hi n : ℕ) (rs : List Range) → hi ≤ lo + n → Above lo rs → Above hi (shift_up n rs)
unfolding shift_up
shift_up-Above lo hi n [] h a = tt
shift_up-Above lo hi n (r ∷ rs) h a = (
  omega arith,
  omega arith,
  shift_up-Above (suc r.second) (suc (r.second + n)) n rs (omega arith) a.2,
)

pub member-shift_up :
    (n j : ℕ) (rs : List Range) → n ≤ j → member (shift_up n rs) j ≡ member rs (j - n)
unfolding shift_up member
member-shift_up n j [] h = refl
member-shift_up n j (r ∷ rs) h = ground (arith, member-shift_up n j rs h)

-- With the range before the iterator ending at `i`, the loop makes it longer by `n`.
add_run_grow :
    (n i a : ℕ) (ps rs : List Range)
    → Above (suc (i + n)) rs
    → add_run n i (at (range a i ∷ ps) rs) ≡ at (range a (i + n) ∷ ps) rs
unfolding add_run
add_run_grow zero i a ps rs h = ground arith
add_run_grow (suc n) i a ps [] h = ground (arith, add_run_grow n (i + 1) a ps [] tt)
add_run_grow (suc n) i a ps (r ∷ rs) h =
    ground (arith, add_run_grow n (i + 1) a ps (r ∷ rs) (omega arith, h.1, h.2))

-- What was at `j` before `n` indexes were put in at `i`; `d` says what those hold.
abbrev pub after_insert : Bool → ℕ → ℕ → (ℕ → Bool) → ℕ → Bool
after_insert d i n old j = if ltb j i then old j else if ltb j (i + n) then d else old (j - n)

-- What is before the iterator once the indexes from `i` up to `e` are added.
abbrev grown : ℕ → ℕ → List Range → List Range
grown i e [] = range i e ∷ []
grown i e (p ∷ ps) = if p.second == i then range p.first e ∷ ps else range i e ∷ p ∷ ps

add_run_start :
    (n i : ℕ) (ps rs : List Range)
    → Before ps (suc i)
    → Above (suc (i + suc n)) rs
    → next (do_add (at ps rs) i) ≡ at (grown i (i + 1) ps) rs
unfolding do_add
add_run_start n i [] [] b a = ground arith
add_run_start n i [] (r ∷ rs) b a = ground arith
add_run_start n i (p ∷ ps) [] b a = ground arith
add_run_start n i (p ∷ ps) (r ∷ rs) b a = ground arith

add_run_lem :
    (n i : ℕ) (ps rs : List Range)
    → Before ps (suc i)
    → Above (suc (i + suc n)) rs
    → add_run (suc n) i (at ps rs) ≡ at (grown i (i + suc n) ps) rs
unfolding add_run
add_run_lem n i [] rs b a =
    rw (add_run_start n i [] rs b a)
      (ground (arith, add_run_grow n (i + 1) i [] rs (Above-mono rs (omega arith) a)))
add_run_lem n i (p ∷ ps) rs b a = rw (add_run_start n i (p ∷ ps) rs b a) (
    ground (
      arith,
      add_run_grow n (i + 1) i (p ∷ ps) rs (Above-mono rs (omega arith) a),
      add_run_grow n (i + 1) p.first ps rs (Above-mono rs (omega arith) a),
    ))

-- The ranges from the iterator on, which start after the index or hold it, moved up.
member-moved :
    (n lo j : ℕ) (rs : List Range) → Above lo rs → j < lo + n → member (shift_up n rs) j ≡ false
member-moved n lo j rs a h =
    member-Above (shift_up n rs) (lo + n) j (shift_up-Above lo (lo + n) n rs (omega arith) a) h

-- Nothing before the iterator is held at or after the index.
abbrev Passed : ℕ → List Range → Type 0
Passed i ps = Before ps (suc i)

grown-Joins :
    (i n : ℕ) (ps rs : List Range)
    → Passed i ps
    → 0 < n
    → Above (suc (i + n)) rs
    → Joins (grown i (i + n) ps) rs
grown-Joins i n [] rs b h a = Joins-intro (range i (i + n) ∷ []) rs (suc (i + n)) (omega arith) a
grown-Joins i n (p ∷ ps) rs b h a = ground (
  arith,
  Joins-intro (range p.first (i + n) ∷ ps) rs (suc (i + n)) (omega arith, omega arith, b.2) a,
  Joins-intro (range i (i + n) ∷ p ∷ ps) rs (suc (i + n)),
)

member-grown :
    (i n j : ℕ) (ps : List Range)
    → Passed i ps
    → 0 < n
    → member (grown i (i + n) ps) j ≡ (if ltb j i then member ps j else ltb j (i + n))
unfolding member
member-grown i n j [] b h = ground arith
member-grown i n j (p ∷ ps) b h = ground (arith, member-Before ps p.first j b.2)

insert_found-IsValid :
    (i n : ℕ) (ps rs : List Range) → 0 < n → Stands i ps rs → IsValid (insert_found ps rs i n)
unfolding insert_found
insert_found-IsValid i zero ps rs h st = absurd (omega arith)
insert_found-IsValid i (suc n) ps [] h st =
    rw (add_run_lem n i ps [] st.passed tt)
      (rewind-IsValid _ _ (grown-Joins i (suc n) ps [] st.passed h tt))
insert_found-IsValid i (suc n) ps (r ∷ rs) h st =
    let m = suc n in
    let (w, a) = Above-Joins ps r rs st.joins in
    let moved = shift_up-Above (suc r.second) (suc (r.second + m)) m rs (omega arith) a in
    elim (Bool-cases (leb r.first i)) [
      | inl e ↦ rw e (
          rewind-IsValid ps _ (
            Joins-intro ps _ r.first (Before-Joins ps r rs st.joins)
              (omega arith, omega arith, moved)))
      | inr e ↦
          let up : Above (suc (i + m)) (shift_up m (r ∷ rs)) = (ground arith, omega arith, moved) in
          rw (e, add_run_lem n i ps (shift_up m (r ∷ rs)) st.passed up)
            (rewind-IsValid _ _ (grown-Joins i m ps _ st.passed h up))
    ]

member-insert_found :
    (i n j : ℕ) (ps rs : List Range)
    → 0 < n
    → Stands i ps rs
    → member (insert_found ps rs i n) j ≡ after_insert true i n (member (rewind ps rs)) j
unfolding insert_found member
member-insert_found i zero j ps rs h st = absurd (omega arith)
member-insert_found i (suc n) j ps [] h st = rw (add_run_lem n i ps [] st.passed tt) (
    ground (
      arith,
      member-rewind (grown i (i + suc n) ps) [] j,
      member-rewind ps [] j,
      member-rewind ps [] (j - suc n),
      member-grown i (suc n) j ps st.passed h,
      member-Before ps (suc i) (j - suc n) st.passed,
    ))
member-insert_found i (suc n) j ps (r ∷ rs) h st =
    let m = suc n in
    let (w, a) = Above-Joins ps r rs st.joins in
    let moved = shift_up-Above (suc r.second) (suc (r.second + m)) m rs (omega arith) a in
    elim (Bool-cases (leb r.first i)) [
      | inl e ↦
          rw (e, member-rewind ps (range r.first (r.second + m) ∷ shift_up m rs) j)
            (ground (
              arith,
              member-rewind ps (r ∷ rs) j,
              member-rewind ps (r ∷ rs) (j - m),
              member-shift_up m j rs,
              member-moved m (suc r.second) j rs a,
              member-Above rs (suc r.second) j a,
              member-Before ps (suc i) j st.passed,
              member-Before ps (suc i) (j - m) st.passed,
            ))
      | inr e ↦
          let up : Above (suc (i + m)) (shift_up m (r ∷ rs)) = (ground arith, omega arith, moved) in
          rw (e, add_run_lem n i ps (shift_up m (r ∷ rs)) st.passed up)
            (ground (
              arith,
              member-rewind (grown i (i + m) ps) (shift_up m (r ∷ rs)) j,
              member-rewind ps (r ∷ rs) j,
              member-rewind ps (r ∷ rs) (j - m),
              member-grown i m j ps st.passed h,
              member-shift_up m j (r ∷ rs),
              member-Above (shift_up m (r ∷ rs)) (suc (i + m)) j up,
              member-Above rs (suc r.second) j a,
              member-Before ps (suc i) (j - m) st.passed,
            ))
    ]

-- `insert_at` keeps the set valid.
pub insert_at-IsValid : (s : List Range) (i n : ℕ) → 0 < n → IsValid s → IsValid (insert_at s i n)
unfolding insert_at
insert_at-IsValid s i n h v =
    at_find (λ s ps rs. IsValid (insert_found ps rs i n)) i s v
      λ ps rs. insert_found-IsValid i n ps rs h

pub member-insert_at :
    (s : List Range) (i n j : ℕ)
    → 0 < n
    → IsValid s
    → member (insert_at s i n) j ≡ after_insert true i n (member s) j
unfolding insert_at
member-insert_at s i n j h v =
    at_find (λ s ps rs. member (insert_found ps rs i n) j ≡ after_insert true i n (member s) j) i s
      v λ ps rs. member-insert_found i n j ps rs h

-- After `insert_at(i, n)` of at least one index on a valid set, the set is valid, the indexes below
-- `i` are as before, those from `i` to `i + n` are in the set, and those from there on are as `n`
-- before them were.
pub insert_at-Holds :
    (s : List Range) (i n : ℕ)
    → 0 < n
    → IsValid s
    → Holds (insert_at s i n) (after_insert true i n (member s))
insert_at-Holds s i n h v = (insert_at-IsValid s i n h v, λ j. member-insert_at s i n j h v)
