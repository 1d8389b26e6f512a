-- ===== src/Changes/Diff/Aligning.antt =====
-- `calculate_moves_sorted`: the rows that it leaves in place have the same keys in both orders.
use realm_object_store.Base.{
  ℕ, ◌+◌, ◌-◌, ◌≤◌, ◌<◌, ◌≡◌, sym, ap, subst, ◌∙◌, List, [], ◌∷◌, ◌++◌, arith, length, Option, none,
  some, map, max,
}
use realm_object_store.IndexSet.Ranges.{Range}
use realm_object_store.IndexSet.Chunks.{take, drop}
use realm_object_store.Changes.Diff.Matching.{
  Row, Match, Placed, sort_by, find_longest_matches, longest_matches,
}
use realm_object_store.Changes.Diff.Lists.{Every, get_elem?, occurs, Climbs}
use realm_object_store.Changes.Diff.Sorting.{Every-sort_by, length-sort_by}
use realm_object_store.Changes.Diff.Comparing.{HasKey, self}
use realm_object_store.Changes.Diff.Blocks.{Fits}
use realm_object_store.Changes.Diff.Keys.{
  map-inside, Agrees, first_difference-Agrees, Follows-map, indexed-HasKey, length-indexed,
}
use realm_object_store.Changes.Diff.Chains.{
  IsChain, IsChain-ended, find_longest_matches-IsChain, Steps, IsChain-Steps, ends, outside, inside,
  Every-inside, occurs-outside, Climbs-inside, occurs-unmatched,
}
use realm_object_store.Changes.Diff.{
  before_by_key, indexed, first_difference, unmatched, moves_from,
}

-- Old and new places are recorded for the rows that are not kept; those that are have the same keys in
-- both orders.
pub record IsAligned (a : List Row) (rows : List Placed) (moved : List ℕ × List ℕ) : Type 1 where
  pub old_kept : List Row
  pub new_kept : List Placed
  pub keys : map Row.key old_kept ≡ map Placed.key new_kept
  pub old_count :
      (n : ℕ) → occurs self n moved.0 + occurs Row.tv_index n old_kept ≡ occurs Row.tv_index n a
  pub new_count :
      (n : ℕ)
      → occurs self n moved.1 + occurs Placed.tv_index n new_kept ≡ occurs Placed.tv_index n rows
  pub old_climbs : Climbs Row.tv_index 0 a → Climbs Row.tv_index 0 old_kept
  pub new_climbs : Climbs Placed.tv_index 0 rows → Climbs Placed.tv_index 0 new_kept
  pub old_every : (P : Row → Type 0) → Every P a → Every P old_kept
  pub new_every : (P : Placed → Type 0) → Every P rows → Every P new_kept

-- The rows before the first difference, as a block.
abbrev prefix : ℕ → Match
prefix s = record { i = 0; j = 0; size = s; modified = none }

-- Blocks from a place on, with the rows before it.
chain-IsAligned :
    (a : List Row) (rows : List Placed) (s : ℕ) (ms : List Match)
    → length a ≡ length rows
    → s ≤ length a
    → ((x : ℕ) → x < s → get_elem? (map Row.key a) x ≡ get_elem? (map Placed.key rows) x)
    → IsChain (map Row.key a) (map Placed.key rows) (length a) (length rows) s s ms
    → IsAligned a rows (unmatched a rows s s (ms ++ ends (length a) (length rows) ∷ []))
unfolding outside occurs drop take
chain-IsAligned a rows s ms l h e c =
    let ka = map Row.key a in
    let kb = map Placed.key rows in
    let tail = ms ++ ends (length a) (length rows) ∷ [] in
    let all = prefix s ∷ tail in
    let st = IsChain-Steps ka kb (length a) (length rows) s s ms c in
    let chain = IsChain-ended ka kb (length a) (length rows) s s ms c in
    let fits : Fits ka kb 0 (length a) 0 (length rows) (prefix s) = (
      omega arith,
      omega (arith, h),
      omega arith,
      omega (arith, h, l),
      λ x y k u v.
          let q : x ≡ y = omega (arith, k) in
          subst (λ z. get_elem? ka x ≡ get_elem? kb z) q (e x (omega (arith, v))),
    ) in
    let s0 : s ≡ 0 + s = omega arith in
    let far : max 0 0 + s ≡ s = omega arith in
    let s1 : Steps Match.i 0 (length a) all =
      (omega arith, omega (arith, h), subst (λ z. Steps Match.i z (length a) tail) s0 st.0) in
    let s2 : Steps Match.j 0 (length rows) all =
      (omega arith, omega (arith, h, l), subst (λ z. Steps Match.j z (length rows) tail) s0 st.1) in
    record {
      old_kept = inside Match.i all a;
      new_kept = inside Match.j all rows;
      keys =
          map-inside a rows 0 0 all
            (fits, subst (λ z. IsChain ka kb (length a) (length rows) z z tail) s0 chain);
      old_count = λ n.
          ap (λ k. k + occurs Row.tv_index n (inside Match.i all a))
            (occurs-unmatched n a rows s s tail).0
          ∙ subst
              (λ z.
                occurs Row.tv_index n (outside Match.i z tail a)
                  + occurs Row.tv_index n (inside Match.i all a)
                ≡ occurs Row.tv_index n a)
              far (occurs-outside Match.i Row.tv_index n 0 all a s1);
      new_count = λ n.
          ap (λ k. k + occurs Placed.tv_index n (inside Match.j all rows))
            (occurs-unmatched n a rows s s tail).1
          ∙ subst
              (λ z.
                occurs Placed.tv_index n (outside Match.j z tail rows)
                  + occurs Placed.tv_index n (inside Match.j all rows)
                ≡ occurs Placed.tv_index n rows)
              far (occurs-outside Match.j Placed.tv_index n 0 all rows s2);
      old_climbs = λ d. Climbs-inside Match.i Row.tv_index 0 all a s1 0 d;
      new_climbs = λ d. Climbs-inside Match.j Placed.tv_index 0 all rows s2 0 d;
      old_every = λ P p. Every-inside Match.i P all a p;
      new_every = λ P p. Every-inside Match.j P all rows p;
    }

-- If no key differs, all rows are kept.
pub same-IsAligned :
    (a : List Row) (rows : List Placed)
    → map Row.key a ≡ map Placed.key rows
    → IsAligned a rows ([], [])
unfolding occurs
same-IsAligned a rows e = record {
  old_kept = a;
  new_kept = rows;
  keys = e;
  old_count = λ n. omega arith;
  new_count = λ n. omega arith;
  old_climbs = λ c. c;
  new_climbs = λ c. c;
  old_every = λ P p. p;
  new_every = λ P p. p;
}

-- The rows from the first difference on are aligned by the blocks that both orders have.
found-IsAligned :
    (modifications : List Range) (a : List Row) (rows : List Placed)
    → length a ≡ length rows
    → (o : Option ℕ) → Agrees 0 a rows o
    → IsAligned a rows (moves_from modifications a rows o)
unfolding longest_matches
found-IsAligned modifications a rows l none g = same-IsAligned a rows g
found-IsAligned modifications a rows l (some s) g =
    let ka = map Row.key a in
    let kb = map Placed.key rows in
    let b = sort_by before_by_key (indexed 0 rows) in
    let lb : length b ≡ length rows =
      length-sort_by before_by_key (indexed 0 rows) ∙ length-indexed 0 rows in
    let h : s ≤ length a = omega (arith, g.1) in
    let ms = find_longest_matches modifications a b (length a - s) s (length a) s (length b) in
    let chain =
      find_longest_matches-IsChain ka kb modifications a b (length a - s) s (length a) s (length b)
        h (omega (arith, h, lb, l)) (omega arith)
        (Follows-map ka 0 a λ n. ap (get_elem? ka) (omega arith))
        (Every-sort_by before_by_key (λ x. HasKey kb x.key x.tv_index) (indexed 0 rows)
          (indexed-HasKey kb 0 rows λ n. ap (get_elem? kb) (omega arith))) in
    subst (λ e. IsAligned a rows (unmatched a rows s s (ms ++ ends (length a) e ∷ []))) (sym lb)
      (chain-IsAligned a rows s ms l h (λ x k. g.2 x (omega (arith, k)))
        (subst (λ e. IsChain ka kb (length a) e s s ms) lb chain))

pub moves_from-IsAligned :
    (modifications : List Range) (a : List Row) (rows : List Placed)
    → length a ≡ length rows
    → IsAligned a rows (moves_from modifications a rows (first_difference 0 a rows))
moves_from-IsAligned modifications a rows l =
    found-IsAligned modifications a rows l (first_difference 0 a rows)
      (first_difference-Agrees 0 a rows l)
