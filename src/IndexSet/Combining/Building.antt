-- ===== src/IndexSet/Combining/Building.antt =====
-- What the builder makes of ascending indexes: a valid set of exactly those.
use realm_object_store.Base.{ℕ, suc, ◌+◌, ◌≤◌, ◌<◌, max, ◌≡◌, refl, ◌∙◌, ◌||◌, List, [], ◌∷◌, arith}
use realm_object_store.IndexSet.Ranges.{
  Range, range, member, Above, Before, IsValid, Above-mono, Before-mono,
}
use realm_object_store.IndexSet.Iterator.{member-rewind, rewind-IsValid, Joins, Joins-intro}
use realm_object_store.IndexSet.Combining.{push_back, push_indexes, push_ranges, build, build_with}
use realm_object_store.IndexSet.Combining.Indexes.{Ascending, elem}

-- What is pushed stands at or after all that was built.
push_back-Before :
    (r : Range) (ps : List Range) (lo : ℕ)
    → Before ps (suc lo)
    → Above lo (r ∷ [])
    → Before (push_back r ps) (suc r.second)
unfolding push_back
push_back-Before r [] lo b a = ground arith
push_back-Before r (p ∷ ps) lo b a = ground arith

member-push_back :
    (r : Range) (ps : List Range) (lo j : ℕ)
    → Before ps (suc lo)
    → Above lo (r ∷ [])
    → member (push_back r ps) j ≡ (member (r ∷ []) j || member ps j)
unfolding push_back member
member-push_back r [] lo j b a = ground arith
member-push_back r (p ∷ ps) lo j b a = ground arith

-- All indexes end before the bound.
abbrev pub Within : List ℕ → ℕ → Type 0
Within [] hi = Unit {0}
Within (i ∷ is) hi = (i < hi) × Within is hi

-- Where a builder stands that is given indexes.
push_indexes-Before :
    (is : List ℕ) (ps : List Range) (lo hi : ℕ)
    → Before ps (suc lo)
    → Ascending lo is
    → lo ≤ hi
    → Within is hi
    → Before (push_indexes is ps) (suc hi)
unfolding push_indexes
push_indexes-Before [] ps lo hi b a h w = Before-mono ps (omega arith) b
push_indexes-Before (i ∷ is) ps lo hi b a h w =
    push_indexes-Before is (push_back (range i (i + 1)) ps) (i + 1) hi
      (push_back-Before (range i (i + 1)) ps lo b (omega arith)) a.1 (omega arith) w.1

member-push_indexes :
    (is : List ℕ) (ps : List Range) (lo j : ℕ)
    → Before ps (suc lo)
    → Ascending lo is
    → member (push_indexes is ps) j ≡ (elem j is || member ps j)
unfolding push_indexes elem member
member-push_indexes [] ps lo j b a = refl
member-push_indexes (i ∷ is) ps lo j b a =
    let r = range i (i + 1) in
    member-push_indexes is (push_back r ps) (i + 1) j (push_back-Before r ps lo b (omega arith)) a.1
    ∙ ground (arith, member-push_back r ps lo j b (omega arith))

push_ranges-Joins :
    (rs ps : List Range) (lo : ℕ) → Before ps (suc lo) → Above lo rs → Joins (push_ranges rs ps) []
unfolding push_ranges
push_ranges-Joins [] ps lo b a = Joins-intro ps [] (suc lo) b tt
push_ranges-Joins (r ∷ rs) ps lo b a =
    push_ranges-Joins rs (push_back r ps) r.second (push_back-Before r ps lo b (omega arith))
      (Above-mono rs (omega arith) a.2)

member-push_ranges :
    (rs ps : List Range) (lo j : ℕ)
    → Before ps (suc lo)
    → Above lo rs
    → member (push_ranges rs ps) j ≡ (member rs j || member ps j)
unfolding push_ranges member
member-push_ranges [] ps lo j b a = refl
member-push_ranges (r ∷ rs) ps lo j b a =
    member-push_ranges rs (push_back r ps) r.second j (push_back-Before r ps lo b (omega arith))
      (Above-mono rs (omega arith) a.2)
    ∙ ground (arith, member-push_back r ps lo j b (omega arith))

-- Indexes and then ranges that stand at or after them.
pub build_with-IsValid :
    (is : List ℕ) (rs : List Range) (cut : ℕ)
    → Ascending 0 is
    → Within is cut
    → Above cut rs
    → IsValid (build_with is rs)
      × ((j : ℕ) → member (build_with is rs) j ≡ (elem j is || member rs j))
unfolding build_with member
build_with-IsValid is rs cut a w v =
    let b = push_indexes-Before is [] 0 cut tt a (omega arith) w in
    let ps = push_indexes is [] in
    (
      rewind-IsValid (push_ranges rs ps) [] (push_ranges-Joins rs ps cut b v),
      λ j. ground (
        arith,
        member-rewind (push_ranges rs ps) [] j,
        member-push_ranges rs ps cut j b v,
        member-push_indexes is [] 0 j tt a,
      ),
    )

Within-mono : (is : List ℕ) {m n : ℕ} → m ≤ n → Within is m → Within is n
Within-mono [] h w = tt
Within-mono (i ∷ is) h w = (omega arith, Within-mono is h w.1)

pub bound_of : (is : List ℕ) → (hi : ℕ) × Within is hi
bound_of [] = (0, tt)
bound_of (i ∷ is) =
    let (hi, w) = bound_of is in (max (i + 1) hi, (omega arith, Within-mono is (omega arith) w))

pub build-IsValid :
    (is : List ℕ)
    → Ascending 0 is
    → IsValid (build is) × ((j : ℕ) → member (build is) j ≡ elem j is)
unfolding build build_with push_ranges member
build-IsValid is a =
    let (hi, w) = bound_of is in
    let (v, m) = build_with-IsValid is [] hi a w tt in (v, λ j. ground (arith, m j))
