-- ===== src/IndexSet/Single/Erasing.antt =====
-- `IndexSet::erase_at(index)`.
use realm_object_store.Base.{
  ℕ, suc, ◌+◌, ◌-◌, ◌≡◌, refl, sym, ◌∙◌, ◌||◌, List, [], ◌∷◌, arith, ltb, if◌then◌else◌, Bool-cases,
  inl, inr,
}
use realm_object_store.IndexSet.Ranges.{
  Holds, Range, range, member, Above, IsValid, Above-mono, member-Above, member-Before,
}
use realm_object_store.IndexSet.Iterator.{
  Joins-intro, rewind, member-rewind, rewind-IsValid, Joins, Stands, at_find,
}
use realm_object_store.IndexSet.Single.{shift_down, erase_step, do_erase, erase_found, erase_at}

shift_down-Above : (lo : ℕ) (rs : List Range) → Above (suc lo) rs → Above lo (shift_down 1 rs)
unfolding shift_down
shift_down-Above lo [] a = tt
shift_down-Above lo (r ∷ rs) a =
    (omega arith, omega arith, Above-mono _ (omega arith) (shift_down-Above r.second rs a.2))

member-shift_down :
    (lo j : ℕ) (rs : List Range)
    → Above (suc lo) rs
    → member (shift_down 1 rs) j ≡ member rs (j + 1)
unfolding shift_down member
member-shift_down lo j [] a = refl
member-shift_down lo j (r ∷ rs) a = ground (arith, member-shift_down r.second j rs a.2)

-- The index that comes to stand at `j` when index `i` is taken out.
abbrev pub after_erase : ℕ → ℕ → ℕ
after_erase i j = if ltb j i then j else j + 1

erase_step-Joins :
    (i : ℕ) (ps : List Range) (r : Range) (rs : List Range)
    → Stands i ps (r ∷ rs)
    → let it = erase_step ps r rs i in Joins it.before (shift_down 1 it.rest)
unfolding erase_step shift_down
erase_step-Joins i [] r rs st =
    let rest = shift_down-Above r.second rs st.joins.2 in
    let kept = Joins-intro (range r.first (r.second - 1) ∷ []) (shift_down 1 rs) r.second in
    ground
      (arith, kept, rest, Above-mono (shift_down 1 rs) {m = 0} {n = r.second} (omega arith) rest)
erase_step-Joins i (p ∷ ps) r rs st =
    let (b, a) = st.joins in
    let rest = shift_down-Above r.second rs a.2 in
    let erased = Joins-intro (p ∷ ps) (shift_down 1 rs) r.second (omega arith, b.1, b.2) rest in
    let trimmed = Joins-intro (range r.first (r.second - 1) ∷ p ∷ ps) (shift_down 1 rs) r.second in
    let joined =
      Joins-intro (range p.first (p.second + (r.second - r.first)) ∷ ps) (shift_down 1 rs)
        r.second in
    ground (arith, erased, trimmed, joined)

members-erase_step :
    (i j : ℕ) (ps : List Range) (r : Range) (rs : List Range)
    → Stands i ps (r ∷ rs)
    → let it = erase_step ps r rs i in
      (member it.before j || member (shift_down 1 it.rest) j)
      ≡ (member ps (after_erase i j) || member (r ∷ rs) (after_erase i j))
unfolding erase_step shift_down member
members-erase_step i j [] r rs st = ground (
  arith,
  member-shift_down r.second j rs,
  member-Above rs (suc r.second) j,
  member-Above rs (suc r.second) (j + 1),
)
members-erase_step i j (p ∷ ps) r rs st = ground (
  arith,
  member-shift_down r.second j rs,
  member-Above rs (suc r.second) j,
  member-Above rs (suc r.second) (j + 1),
  member-Before ps p.first j,
  member-Before ps p.first (j + 1),
)

-- `erase_at` keeps the set valid.
pub erase_at-IsValid : (s : List Range) (i : ℕ) → IsValid s → IsValid (erase_at s i)
unfolding erase_at do_erase
erase_at-IsValid s i v = at_find (λ s ps rs. IsValid (erase_found ps rs i)) i s v erased
  where
    erased : (ps rs : List Range) → Stands i ps rs → IsValid (erase_found ps rs i)
    erased ps [] st = rewind-IsValid ps [] st.joins
    erased ps (r ∷ rs) st = rewind-IsValid _ _ (erase_step-Joins i ps r rs st)

pub member-erase_at :
    (s : List Range) (i j : ℕ) → IsValid s → member (erase_at s i) j ≡ member s (after_erase i j)
unfolding erase_at do_erase member
member-erase_at s i j v =
    at_find (λ s ps rs. member (erase_found ps rs i) j ≡ member s (after_erase i j)) i s v erased
  where
    erased :
        (ps rs : List Range)
        → Stands i ps rs
        → member (erase_found ps rs i) j ≡ member (rewind ps rs) (after_erase i j)
    erased ps [] st = elim (Bool-cases (ltb j i)) [
      | inl e ↦ rw e refl
      | inr e ↦
          rw (e, member-rewind ps [] j, member-rewind ps [] (j + 1))
            (ground (
              arith,
              member-Before ps (suc i) j st.passed,
              member-Before ps (suc i) (j + 1) st.passed,
            ))
    ]
    erased ps (r ∷ rs) st =
        let it = erase_step ps r rs i in
        member-rewind it.before (shift_down 1 it.rest) j
        ∙ members-erase_step i j ps r rs st
        ∙ sym (member-rewind ps (r ∷ rs) (after_erase i j))

-- After `erase_at(i)` on a valid set, the set is valid, the indexes below `i` are as before, and each
-- other index is in the set exactly if the one after it was.
pub erase_at-Holds :
    (s : List Range) (i : ℕ) → IsValid s → Holds (erase_at s i) (λ j. member s (after_erase i j))
erase_at-Holds s i v = (erase_at-IsValid s i v, λ j. member-erase_at s i j v)
