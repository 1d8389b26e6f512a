-- ===== src/Changes/Diff/Rounds.antt =====
-- The recursion of `find_longest_matches` ends: with as much fuel as there are rows, more changes nothing.
use realm_object_store.Base.{
  ap₂, ℕ, zero, suc, ◌+◌, ◌-◌, ◌≤◌, ◌<◌, ◌≡◌, refl, sym, ap, true, ◌&&◌, List, [], ◌∷◌, ◌++◌, arith,
  ltb, ◌==◌, length, if◌then◌else◌, Bool-cases, inl, inr, map,
}
use realm_object_store.IndexSet.Ranges.{Range}
use realm_object_store.Changes.Diff.Matching.{
  Row, Match, Placed, sort_by, find_longest_match, find_longest_matches,
}
use realm_object_store.Changes.Diff.Lists.{Every, get_elem?}
use realm_object_store.Changes.Diff.Sorting.{Every-sort_by, length-sort_by}
use realm_object_store.Changes.Diff.Comparing.{HasKey}
use realm_object_store.Changes.Diff.Blocks.{Follows, find_longest_match-Fits}
use realm_object_store.Changes.Diff.Keys.{Follows-map, indexed-HasKey, length-indexed}
use realm_object_store.Changes.Diff.{before_by_key, indexed}

-- One call, whatever the calls on the parts return.
abbrev around : ℕ → ℕ → ℕ → Match → List Match → List Match → List Match
around begin1 begin2 end2 m left right =
    if m.size == 0
    then []
    else ((if ltb begin1 m.i && ltb begin2 m.j then left else [])
        ++ (m ∷ (if ltb (m.i + m.size) end2 && ltb (m.j + m.size) end2 then right else [])))

around_empty :
    (begin1 begin2 end2 : ℕ) (m : Match) (left right : List Match)
    → m.size ≡ 0
    → around begin1 begin2 end2 m left right ≡ []
around_empty begin1 begin2 end2 m left right e =
    let z : (m.size == 0) ≡ true = ground (arith, e) in rw z refl

module _ (modifications : List Range) (a b : List Row) (ka kb : List ℕ) (follows : Follows ka 0 a)
    (listed : Every (λ x. HasKey kb x.key x.tv_index) b) where
  -- With no rows of the first list there is no match.
  no_rows :
      (fuel begin1 end1 begin2 end2 : ℕ)
      → begin1 ≤ end1
      → begin2 ≤ end2
      → end1 ≤ length a
      → end1 ≤ begin1
      → find_longest_matches modifications a b fuel begin1 end1 begin2 end2 ≡ []
  unfolding find_longest_matches
  no_rows zero begin1 end1 begin2 end2 h k w e = refl
  no_rows (suc fuel) begin1 end1 begin2 end2 h k w e =
      let m = find_longest_match modifications a b begin1 end1 begin2 end2 in
      let f =
        find_longest_match-Fits ka kb begin1 end1 begin2 end2 modifications a b h k w follows
          listed in
      around_empty begin1 begin2 end2 m
        (find_longest_matches modifications a b fuel begin1 m.i begin2 m.j)
        (find_longest_matches modifications a b fuel (m.i + m.size) end1 (m.j + m.size) end2)
        (omega (arith, f.0, f.1, e))

  pub find_longest_matches_enough :
      (fuel more begin1 end1 begin2 end2 : ℕ)
      → begin1 ≤ end1
      → begin2 ≤ end2
      → end1 ≤ length a
      → end1 ≤ begin1 + fuel
      → end1 ≤ begin1 + more
      → find_longest_matches modifications a b fuel begin1 end1 begin2 end2
        ≡ find_longest_matches modifications a b more begin1 end1 begin2 end2
  unfolding find_longest_matches
  find_longest_matches_enough zero more begin1 end1 begin2 end2 h k w e g =
      sym (no_rows more begin1 end1 begin2 end2 h k w (omega (arith, e)))
  find_longest_matches_enough (suc fuel) zero begin1 end1 begin2 end2 h k w e g =
      no_rows (suc fuel) begin1 end1 begin2 end2 h k w (omega (arith, g))
  find_longest_matches_enough (suc fuel) (suc more) begin1 end1 begin2 end2 h k w e g =
      let m = find_longest_match modifications a b begin1 end1 begin2 end2 in
      let f =
        find_longest_match-Fits ka kb begin1 end1 begin2 end2 modifications a b h k w follows
          listed in
      elim (Bool-cases (m.size == 0)) [
        | inl z ↦ rw z refl
        | inr z ↦
            let some_rows : 0 < m.size = ground (arith, z) in
            let left =
              find_longest_matches_enough fuel more begin1 m.i begin2 m.j f.0 f.2
                (omega (arith, f.1, w)) (omega (arith, e, f.1, some_rows))
                (omega (arith, g, f.1, some_rows)) in
            let right =
              find_longest_matches_enough fuel more (m.i + m.size) end1 (m.j + m.size) end2 f.1 f.3
                w (omega (arith, e, f.0, some_rows)) (omega (arith, g, f.0, some_rows)) in
            ap₂ (around begin1 begin2 end2 m) left right
      ]

-- In `calculate_moves_sorted`, from any place within both lists on, the recursion of
-- `find_longest_matches` gives with any fuel of at least the number of rows the same matches as with that
-- number.
pub longest_matches_enough :
    (modifications : List Range) (a : List Row) (rows : List Placed) (start more : ℕ)
    → start ≤ length a
    → start ≤ length rows
    → length a - start ≤ more
    → let b = sort_by before_by_key (indexed 0 rows) in
      find_longest_matches modifications a b (length a - start) start (length a) start (length b)
      ≡ find_longest_matches modifications a b more start (length a) start (length b)
longest_matches_enough modifications a rows start more h k g =
    let ka = map Row.key a in
    let kb = map Placed.key rows in
    let b = sort_by before_by_key (indexed 0 rows) in
    let lb = length-sort_by before_by_key (indexed 0 rows) in
    find_longest_matches_enough modifications a b ka kb
      (Follows-map ka 0 a λ n. ap (get_elem? ka) (omega arith))
      (Every-sort_by before_by_key (λ x. HasKey kb x.key x.tv_index) (indexed 0 rows)
        (indexed-HasKey kb 0 rows λ n. ap (get_elem? kb) (omega arith)))
      (length a - start) more start (length a) start (length b) h
      (omega (arith, k, lb, length-indexed 0 rows)) (omega arith) (omega (arith, h))
      (omega (arith, g, h))
