-- ===== src/Changes/Diff/Ordered.antt =====
-- `calculate` on lists in the order of the table, where it looks for no moves.
use realm_object_store.Base.{
  ℕ, zero, suc, ◌+◌, ◌≤◌, ◌<◌, ◌≡◌, refl, sym, ◌∙◌, Bool, true, false, List, [], ◌∷◌, arith, map,
  some,
}
use realm_object_store.IndexSet.Combining.Indexes.{Ascending}
use realm_object_store.Changes.Diff.Matching.{Row, Placed}
use realm_object_store.Changes.Diff.Lists.{
  Every, Every-map, occurs, Climbs, occurs-Climbs, get_elem?,
}
use realm_object_store.Changes.Diff.Sorting.{occurs-sort_by}
use realm_object_store.Changes.Diff.Comparing.{HasKey}
use realm_object_store.Changes.Diff.Aligning.{same-IsAligned}
use realm_object_store.Changes.Diff.Applying.{applied}
use realm_object_store.Changes.Diff.Rebuilds.{
  calculate_moved-applied, kept_rows, kept_rows-HasKey, kept_rows-Climbs, prev_rows,
  prev_rows-HasKey, prev_rows-Climbs, aligned-applied,
}
use realm_object_store.Changes.Diff.{
  old_rows, before_in_view, add_indexes, modified_rows, calculate_rows, calculate,
}

key_bound : (ks : List ℕ) (lo k i : ℕ) → Ascending lo ks → HasKey ks k i → lo ≤ k
unfolding get_elem?
key_bound [] lo k i a h = absurd cc
key_bound (x ∷ ks) lo k zero a h = let e : x ≡ k = cc in omega (arith, a.0, e)
key_bound (x ∷ ks) lo k (suc i) a h = omega (arith, a.0, key_bound ks (x + 1) k i a.1 h)

-- Later places have greater keys.
key_mono :
    (ks : List ℕ) (lo k l i j : ℕ) → Ascending lo ks → HasKey ks k i → HasKey ks l j → i < j → k < l
unfolding get_elem?
key_mono [] lo k l i j a h g u = absurd cc
key_mono (x ∷ ks) lo k l i zero a h g u = absurd (omega (arith, u))
key_mono (x ∷ ks) lo k l zero (suc j) a h g u =
    let e : x ≡ k = cc in omega (arith, e, key_bound ks (x + 1) l j a.1 g)
key_mono (x ∷ ks) lo k l (suc i) (suc j) a h g u =
    key_mono ks (x + 1) k l i j a.1 h g (omega (arith, u))

module _ {ℓ} {A : Type ℓ} (f g : A → ℕ) (ks : List ℕ) (a : Ascending 0 ks) where
  -- Rows at ascending places have ascending keys.
  keys_climb :
      (lo least : ℕ) (xs : List A)
      → ((k i : ℕ) → lo ≤ i → HasKey ks k i → least ≤ k)
      → Climbs f lo xs
      → Every (λ x. HasKey ks (g x) (f x)) xs
      → Climbs g least xs
  keys_climb lo least [] b c p = tt
  keys_climb lo least (x ∷ xs) b c p = (
    b (g x) (f x) c.0 p.0,
    keys_climb (suc (f x)) (suc (g x)) xs
        (λ k i h q. key_mono ks 0 (g x) k (f x) i a p.0 q (omega (arith, h))) c.1 p.1,
  )

-- Ascending values are determined by which there are.
climb_unique {ℓ κ} :
    {A : Type ℓ} {B : Type κ} (f : A → ℕ) (g : B → ℕ) (lo : ℕ) (xs : List A) (ys : List B)
    → Climbs f lo xs
    → Climbs g lo ys
    → ((n : ℕ) → occurs f n xs ≡ occurs g n ys)
    → map f xs ≡ map g ys
unfolding occurs
climb_unique f g lo [] [] c d e = refl
climb_unique f g lo [] (y ∷ ys) c d e = absurd (ground (arith, e (g y)))
climb_unique f g lo (x ∷ xs) [] c d e = absurd (ground (arith, e (f x)))
climb_unique f g lo (x ∷ xs) (y ∷ ys) c d e =
    let same : f x ≡ g y = ground (
      arith,
      e (f x),
      e (g y),
      occurs-Climbs g ys (suc (g y)) (f x) d.1,
      occurs-Climbs f xs (suc (f x)) (g y) c.1,
    ) in
    let rest : map f xs ≡ map g ys =
      climb_unique f g (suc (f x)) xs ys c.1 (rw (sym same) at d.1)
        (λ n. ground (arith, e n, same)) in
    rw (same, rest) refl

occurs-old_keys :
    (n : ℕ) (rs : List Placed) → occurs Row.key n (old_rows rs) ≡ occurs Placed.key n rs
unfolding occurs
occurs-old_keys n [] = refl
occurs-old_keys n (r ∷ rs) = omega (arith, occurs-old_keys n rs)

-- If the keys of both lists ascend, the change that is calculated in table order, without looking for
-- moves, also gives exactly the new rows when its deletions and its insertions are applied to the old.
pub calculate_ordered-applied :
    (prev next : List ℕ) (did_change : ℕ → Bool)
    → Ascending 0 prev
    → Ascending 0 next
    → applied prev next (calculate prev next did_change true) ≡ some next
unfolding calculate calculate_rows
calculate_ordered-applied prev next did_change v w =
    let rows = kept_rows prev next in
    let new =
      keys_climb Placed.tv_index Placed.key next w 0 0 rows (λ k i h q. omega arith)
        (kept_rows-Climbs prev next)
        (Every-map _ _ (λ r h. h.1) rows (kept_rows-HasKey prev next)) in
    let old =
      keys_climb Row.tv_index Row.key prev v 0 0 (prev_rows prev next) (λ k i h q. omega arith)
        (prev_rows-Climbs prev next) (prev_rows-HasKey prev next) in
    aligned-applied prev next (add_indexes (modified_rows did_change rows) []) ([], [])
      (same-IsAligned (prev_rows prev next) rows (
        climb_unique Row.key Placed.key 0 (prev_rows prev next) rows old new
          λ n. occurs-sort_by before_in_view Row.key n (old_rows rows) ∙ occurs-old_keys n rows))

-- Erasing the deletions of the calculated change from the old rows, from the last one on, and then
-- inserting the new rows at its insertions, in order, is always possible and gives exactly the new rows;
-- where the change is calculated in table order, if the keys of both lists ascend.
pub calculate-applied :
    (prev next : List ℕ) (did_change : ℕ → Bool) (in_table_order : Bool)
    → (in_table_order ≡ true → Ascending 0 prev × Ascending 0 next)
    → applied prev next (calculate prev next did_change in_table_order) ≡ some next
calculate-applied prev next did_change true h =
    calculate_ordered-applied prev next did_change (h refl).0 (h refl).1
calculate-applied prev next did_change false h = calculate_moved-applied prev next did_change
