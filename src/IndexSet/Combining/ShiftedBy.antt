-- ===== src/IndexSet/Combining/ShiftedBy.antt =====
-- `add_shifted_by`: adds indexes that were moved past another set, once they are moved back from
-- there and past this set.
pub mod Loops
pub mod Laws
use realm_object_store.Base.{ℕ, ◌+◌, ◌-◌, List, [], ◌∷◌, ◌++◌, ltb, leb, if◌then◌else◌}
use realm_object_store.IndexSet.Ranges.{Range, width}
use realm_object_store.IndexSet.Combining.{run, as_indexes, build_with, is_empty}

-- The loop over `shifted_by`: `new_shift`, `skip_until` and the ranges that are left.
unfoldable pub pass_shifts : ℕ → ℕ → ℕ → List Range → ℕ × ℕ × List Range
pass_shifts i n u [] = (n, u, [])
pass_shifts i n u (r ∷ rs) =
    if leb r.first i then pass_shifts i (n + width r) r.second rs else (n, u, r ∷ rs)

-- The loop over this set, for `index - new_shift`: what it pushes, `old_shift` and the ranges that
-- are left.
unfoldable pub pass_old : ℕ → ℕ → List Range → List ℕ × ℕ × List Range
unfolding run
pass_old k m [] = ([], m, [])
pass_old k m (r ∷ rs) =
    let (is, m', rest) = pass_old k (m + width r) rs in
    if leb r.first (k + m) then (run r.first (width r) ++ is, m', rest) else ([], m, r ∷ rs)

-- The loop over the values: what it pushes, and the ranges of this set that are left then.
unfoldable pub shifted_by : List ℕ → ℕ → ℕ → List Range → ℕ → List Range → List ℕ × List Range
unfolding pass_shifts pass_old
shifted_by [] n u sb m old = ([], old)
shifted_by (i ∷ is) n u sb m old =
    let (n', u', sb') = pass_shifts i n u sb in
    let (pushed, m', old') = pass_old (i - n') m old in
    let skipped = shifted_by is n' u' sb' m old in
    let (later, rest) = shifted_by is n' u' sb' m' old' in
    if ltb i u' then skipped else (pushed ++ (i - n' + m') ∷ later, rest)

-- `add_shifted_by(shifted_by, values)`
unfoldable pub add_shifted_by : List Range → List Range → List Range → List Range
unfolding shifted_by build_with
add_shifted_by s sb values =
    let (pushed, rest) = shifted_by (as_indexes values) 0 0 sb 0 s in
    if is_empty values then s else build_with pushed rest
