-- ===== src/Changes/Diff.antt =====
-- `CollectionChangeBuilder::calculate`: the change between two lists of object keys. Keys are only
-- compared, and are natural numbers here.
pub mod Lists
pub mod Matching
pub mod Rebuilds
pub mod Complete
pub mod Longest
pub mod Ordered
pub mod Rounds
pub mod Changed
pub mod Keys
pub mod Aligning
pub mod Chains
pub mod Blocks
pub mod Comparing
pub mod Sorting
pub mod Applying
use Prim.Native.Nat.{compare, Ordering, lt, eq, gt}
use realm_object_store.Base.{
  ℕ, suc, ◌+◌, ◌-◌, max, Bool, true, false, ◌&&◌, ◌||◌, List, [], ◌∷◌, ◌++◌, map, Option, none,
  some, ltb, ◌==◌, length, if◌then◌else◌,
}
use realm_object_store.IndexSet.Ranges.{Range}
use realm_object_store.IndexSet.Single.{add}
use realm_object_store.IndexSet.Chunks.{take, drop}
use realm_object_store.Changes.Builder.{Builder}
use realm_object_store.Changes.Diff.Matching.{Row, row, Match, Placed, sort_by, longest_matches}

-- A row of the results, with its place in the old ones where it has one (`npos` is `none`).
pub record RowInfo : Type 0 where
  pub key : ℕ
  pub prev_tv_index : Option ℕ
  pub tv_index : ℕ

abbrev pub info : ℕ → Option ℕ → ℕ → RowInfo
info k p t = record { key = k; prev_tv_index = p; tv_index = t }

-- `build_row_info`
unfoldable pub infos : ℕ → List ℕ → List RowInfo
infos i [] = []
infos i (k ∷ ks) = info k none i ∷ infos (i + 1) ks

unfoldable pub build_row_info : List ℕ → List RowInfo
unfolding infos
build_row_info ks = sort_by (λ x y. ltb x.key y.key) (infos 0 ks)

unfoldable pub tv_indexes : List RowInfo → List ℕ
tv_indexes [] = []
tv_indexes (r ∷ rs) = r.tv_index ∷ tv_indexes rs

-- What the loops over both lists find: the old rows that are gone, the new ones, and the new rows with
-- the old places that they are given.
pub record Compared : Type 0 where
  pub gone : List ℕ
  pub added : List ℕ
  pub rows : List RowInfo

unfoldable pub compare_rows : List RowInfo → List RowInfo → Compared
unfolding tv_indexes
compare_rows [] ns = record { gone = []; added = tv_indexes ns; rows = ns }
compare_rows (o ∷ os) [] = record { gone = tv_indexes (o ∷ os); added = []; rows = [] }
compare_rows (o ∷ os) (n ∷ ns) =
    let both = compare_rows os ns in
    let old = compare_rows os (n ∷ ns) in
    let new = compare_rows (o ∷ os) ns in
    elim (compare o.key n.key) [
      | eq ↦ record both { rows = record n { prev_tv_index = some o.tv_index } ∷ both.rows }
      | lt ↦ record old { gone = o.tv_index ∷ old.gone }
      | gt ↦ record new { added = n.tv_index ∷ new.added; rows = n ∷ new.rows }
    ]

-- The rows that have an old place, with it.
abbrev pub placed : ℕ → Option ℕ → ℕ → List Placed → List Placed
placed k none t rest = rest
placed k (some p) t rest = record { key = k; prev_tv_index = p; tv_index = t } ∷ rest

unfoldable pub present : List RowInfo → List Placed
present [] = []
present (r ∷ rs) = placed r.key r.prev_tv_index r.tv_index (present rs)

-- `add` of each index.
unfoldable pub add_indexes : List ℕ → List Range → List Range
add_indexes [] s = s
add_indexes (i ∷ is) s = add_indexes is (add s i)

unfoldable pub modified_rows : (ℕ → Bool) → List Placed → List ℕ
modified_rows did_change [] = []
modified_rows did_change (r ∷ rs) =
    let rest = modified_rows did_change rs in if did_change r.key then r.tv_index ∷ rest else rest

-- The rows in the order of their old places: `a` of `calculate_moves_sorted`.
abbrev pub old_rows : List Placed → List Row
old_rows [] = []
old_rows (r ∷ rs) = row r.key r.prev_tv_index ∷ old_rows rs

abbrev pub before_in_view : Row → Row → Bool
before_in_view x y = ltb x.tv_index y.tv_index || (x.tv_index == y.tv_index && ltb x.key y.key)

abbrev pub before_by_key : Row → Row → Bool
before_by_key x y = ltb x.key y.key || (x.key == y.key && ltb x.tv_index y.tv_index)

-- The rows with their indexes in the list: `b`.
unfoldable pub indexed : ℕ → List Placed → List Row
indexed i [] = []
indexed i (r ∷ rs) = row r.key i ∷ indexed (i + 1) rs

unfoldable pub first_difference : ℕ → List Row → List Placed → Option ℕ
first_difference i [] rs = none
first_difference i (x ∷ xs) [] = none
first_difference i (x ∷ xs) (r ∷ rs) =
    let rest = first_difference (i + 1) xs rs in if x.key == r.key then rest else some i

-- `for (; i < end; ++i)` over a list.
abbrev pub slice {ℓ} : {A : Type ℓ} → ℕ → ℕ → List A → List A
slice i end xs = take (end - i) (drop i xs)

abbrev pub view_indexes : List Row → List ℕ
view_indexes [] = []
view_indexes (x ∷ xs) = x.tv_index ∷ view_indexes xs

abbrev pub new_indexes : List Placed → List ℕ
new_indexes [] = []
new_indexes (r ∷ rs) = r.tv_index ∷ new_indexes rs

-- The loop over the matches: the old and the new indexes that lie between them.
unfoldable pub unmatched : List Row → List Placed → ℕ → ℕ → List Match → List ℕ × List ℕ
unfolding take drop
unmatched a rows i j [] = ([], [])
unmatched a rows i j (m ∷ ms) =
    let (olds, news) = unmatched a rows (max i m.i + m.size) (max j m.j + m.size) ms in
    (view_indexes (slice i m.i a) ++ olds, new_indexes (slice j m.j rows) ++ news)

-- `calculate_moves_sorted`: what it adds to the deletions and to the insertions.
abbrev pub moves_from : List Range → List Row → List Placed → Option ℕ → List ℕ × List ℕ
moves_from modifications a rows none = ([], [])
moves_from modifications a rows (some start) =
    let b = sort_by before_by_key (indexed 0 rows) in
    unmatched a rows start start (longest_matches a b start modifications)

unfoldable pub calculate_moves_sorted : List Range → List Placed → List ℕ × List ℕ
unfolding first_difference indexed unmatched
calculate_moves_sorted modifications rows =
    let a = sort_by before_in_view (old_rows rows) in
    moves_from modifications a rows (first_difference 0 a rows)

-- `calculate` on two lists of rows; a builder starts with no change.
unfoldable pub calculate_rows : List RowInfo → List RowInfo → (ℕ → Bool) → Bool → Builder
unfolding compare_rows present add_indexes modified_rows calculate_moves_sorted
calculate_rows old new did_change in_table_order =
    let c = compare_rows old new in
    let rows = sort_by (λ x y. ltb x.tv_index y.tv_index) (present c.rows) in
    let modifications = add_indexes (modified_rows did_change rows) [] in
    let (olds, news) =
      if in_table_order then ([], []) else calculate_moves_sorted modifications rows in
    record {
      deletions = add_indexes olds (add_indexes c.gone []);
      insertions = add_indexes news (add_indexes c.added []);
      modifications = modifications;
      moves = [];
      columns = [];
      track_columns = true;
    }

-- `calculate`
unfoldable pub calculate : List ℕ → List ℕ → (ℕ → Bool) → Bool → Builder
unfolding build_row_info calculate_rows
calculate prev next did_change in_table_order =
    calculate_rows (build_row_info prev) (build_row_info next) did_change in_table_order
