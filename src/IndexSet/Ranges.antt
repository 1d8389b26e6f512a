-- ===== src/IndexSet/Ranges.antt =====
-- The ranges of an index set (`ChunkedRangeVector::value_type`), what they hold, and the conditions
-- that the first loop of `ChunkedRangeVector::verify` checks.
use realm_object_store.Base.{
  ℕ, suc, ◌-◌, ◌≤◌, ◌<◌, ◌≡◌, refl, Bool, false, ◌&&◌, ◌||◌, List, [], ◌∷◌, arith, ltb, leb,
}

-- `std::pair<size_t, size_t>`: the indexes from `first` up to `second`, which is left out.
pub record Range : Type 0 where
  pub first : ℕ
  pub second : ℕ

abbrev pub range : ℕ → ℕ → Range
range a b = record { first = a; second = b }

abbrev pub width : Range → ℕ
width r = r.second - r.first

abbrev pub holds : Range → ℕ → Bool
holds r j = leb r.first j && ltb j r.second

-- Some range of the list holds the index.
unfoldable pub member : List Range → ℕ → Bool
member [] j = false
member (r ∷ rs) j = holds r j || member rs j

-- Every range starts at or after the bound, holds an index, and leaves a gap before the next one.
abbrev pub Above : ℕ → List Range → Type 0
Above lo [] = Unit {0}
Above lo (r ∷ rs) = (lo ≤ r.first) × (r.first < r.second) × Above (suc r.second) rs

-- The first loop of `ChunkedRangeVector::verify`.
abbrev pub IsValid : List Range → Type 0
IsValid = Above 0

-- What an operation leaves: a valid set of the given indexes.
abbrev pub Holds : List Range → (ℕ → Bool) → Type 0
Holds s f = IsValid s × ((j : ℕ) → member s j ≡ f j)

-- The ranges before an iterator, the nearest first, all of which end before the bound.
abbrev pub Before : List Range → ℕ → Type 0
Before [] hi = Unit {0}
Before (p ∷ ps) hi = (p.second < hi) × (p.first < p.second) × Before ps p.first

pub Above-mono : (rs : List Range) {m n : ℕ} → m ≤ n → Above n rs → Above m rs
Above-mono [] h a = tt
Above-mono (r ∷ rs) h a = (omega arith, a.1, a.2)

pub Before-mono : (ps : List Range) {m n : ℕ} → m ≤ n → Before ps m → Before ps n
Before-mono [] h b = tt
Before-mono (p ∷ ps) h b = (omega arith, b.1, b.2)

-- Nothing is held below the bound of the ranges above it.
pub member-Above : (rs : List Range) (lo j : ℕ) → Above lo rs → j < lo → member rs j ≡ false
unfolding member
member-Above [] lo j a h = refl
member-Above (r ∷ rs) lo j a h = ground (arith, member-Above rs (suc r.second) j a.2)

-- Nothing is held at or after the last index of the ranges before it.
pub member-Before : (ps : List Range) (hi j : ℕ) → Before ps hi → hi ≤ suc j → member ps j ≡ false
unfolding member
member-Before [] hi j b h = refl
member-Before (p ∷ ps) hi j b h = ground (arith, member-Before ps p.first j b.2)
