-- ===== src/IndexSet/Combining/Indexes.antt =====
-- The indexes of a set as an ascending list.
use realm_object_store.Base.{
  ℕ, zero, suc, ◌+◌, ◌-◌, ◌≤◌, ◌<◌, ◌≡◌, refl, Bool, false, ◌&&◌, ◌||◌, List, [], ◌∷◌, ◌++◌, arith,
  ltb, leb, ◌==◌, min, if◌then◌else◌,
}
use realm_object_store.IndexSet.Ranges.{Range, member, Above, width}
use realm_object_store.IndexSet.Combining.{run, as_indexes}
use realm_object_store.IndexSet.Counting.Below.{below}

-- Ascending, from the bound on.
abbrev pub Ascending : ℕ → List ℕ → Type 0
Ascending lo [] = Unit {0}
Ascending lo (i ∷ is) = (lo ≤ i) × Ascending (i + 1) is

pub Ascending-mono : (is : List ℕ) {m n : ℕ} → m ≤ n → Ascending n is → Ascending m is
Ascending-mono [] h a = tt
Ascending-mono (i ∷ is) h a = (omega arith, a.1)

unfoldable pub elem : ℕ → List ℕ → Bool
elem j [] = false
elem j (i ∷ is) = (i == j) || elem j is

-- How many are less than a bound.
unfoldable pub under : List ℕ → ℕ → ℕ
under [] e = 0
under (i ∷ is) e = (if ltb i e then 1 else 0) + under is e

pub elem-Ascending : (is : List ℕ) (lo j : ℕ) → Ascending lo is → j < lo → elem j is ≡ false
unfolding elem
elem-Ascending [] lo j a h = refl
elem-Ascending (i ∷ is) lo j a h = ground (arith, elem-Ascending is (i + 1) j a.1)

pub under-Ascending : (is : List ℕ) (lo e : ℕ) → Ascending lo is → e ≤ lo → under is e ≡ 0
unfolding under
under-Ascending [] lo e a h = refl
under-Ascending (i ∷ is) lo e a h = ground (arith, under-Ascending is (i + 1) e a.1)

-- There are at most as many as there are numbers from the bound on.
pub under-le : (is : List ℕ) (lo e : ℕ) → Ascending lo is → lo ≤ e → under is e + lo ≤ e
unfolding under
under-le [] lo e a h = omega arith
under-le (i ∷ is) lo e a h =
    ground (arith, under-le is (i + 1) e a.1, under-Ascending is (i + 1) e a.1)

pub run-Ascending : (a n : ℕ) (is : List ℕ) → Ascending (a + n) is → Ascending a (run a n ++ is)
unfolding run
run-Ascending a zero is h = ground arith
run-Ascending a (suc n) is h =
    let e : a + suc n ≡ a + 1 + n = omega arith in
    (omega arith, run-Ascending (a + 1) n is (rw e at h))

pub elem-run :
    (a n : ℕ) (is : List ℕ) (j : ℕ)
    → elem j (run a n ++ is) ≡ ((leb a j && ltb j (a + n)) || elem j is)
unfolding run elem
elem-run a zero is j = ground arith
elem-run a (suc n) is j = ground (arith, elem-run (a + 1) n is j)

under-run :
    (a n : ℕ) (is : List ℕ) (e : ℕ) → under (run a n ++ is) e ≡ (min (a + n) e - a) + under is e
unfolding run under
under-run a zero is e = ground arith
under-run a (suc n) is e = ground (arith, under-run (a + 1) n is e)

pub as_indexes-Ascending : (rs : List Range) (lo : ℕ) → Above lo rs → Ascending lo (as_indexes rs)
unfolding as_indexes
as_indexes-Ascending [] lo a = tt
as_indexes-Ascending (r ∷ rs) lo a = Ascending-mono (run r.first (width r) ++ as_indexes rs) a.0 (
    run-Ascending r.first (width r) (as_indexes rs)
      (Ascending-mono (as_indexes rs) (omega arith) (as_indexes-Ascending rs (suc r.second) a.2)))

pub elem-as_indexes :
    (rs : List Range) (lo j : ℕ) → Above lo rs → elem j (as_indexes rs) ≡ member rs j
unfolding as_indexes member elem
elem-as_indexes [] lo j a = refl
elem-as_indexes (r ∷ rs) lo j a =
    ground
      (arith, elem-run r.first (width r) (as_indexes rs) j, elem-as_indexes rs (suc r.second) j a.2)

pub under-as_indexes :
    (rs : List Range) (lo e : ℕ) → Above lo rs → under (as_indexes rs) e ≡ below rs e
unfolding as_indexes below under
under-as_indexes [] lo e a = refl
under-as_indexes (r ∷ rs) lo e a =
    ground (
      arith,
      under-run r.first (width r) (as_indexes rs) e,
      under-as_indexes rs (suc r.second) e a.2,
    )
