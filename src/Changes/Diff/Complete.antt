-- ===== src/Changes/Diff/Complete.antt =====
-- `for_each_b_match` finds every place of a row: the rows that it searches are sorted by key and place.
use realm_object_store.Base.{
  ℕ, zero, suc, ◌+◌, ◌≤◌, ◌<◌, ◌≡◌, refl, sym, ap, ◌∙◌, Bool, true, false, ◌&&◌, ◌||◌, List, [],
  ◌∷◌, arith, ltb, ◌==◌, length, if_intro, map, Bool-cases, inl, inr, ==→eq,
}
use realm_object_store.IndexSet.Ranges.{Range}
use realm_object_store.IndexSet.Combining.Indexes.{elem}
use realm_object_store.Changes.Diff.Matching.{
  Row, Match, Placed, insert_by, sort_by, from_key, while_key, within_range, b_matches,
  find_longest_match,
}
use realm_object_store.Changes.Diff.Lists.{Every, Every-map, get_elem?}
use realm_object_store.Changes.Diff.Sorting.{Every-insert_by, Every-sort_by}
use realm_object_store.Changes.Diff.Comparing.{HasKey}
use realm_object_store.Changes.Diff.Blocks.{Fits, find_longest_match-Fits}
use realm_object_store.Changes.Diff.Keys.{Follows-map, indexed-HasKey}
use realm_object_store.Changes.Diff.Longest.{find_longest_match-longest}
use realm_object_store.Changes.Diff.{before_by_key, indexed}

-- Whether a row with the key and the place is among the rows.
unfoldable has : ℕ → ℕ → List Row → Bool
has k j [] = false
has k j (x ∷ xs) = (x.key == k && x.tv_index == j) || has k j xs

has-Every {κ} :
    (Q : ℕ → ℕ → Type κ) (k j : ℕ) (xs : List Row)
    → Every (λ x. Q x.key x.tv_index) xs
    → has k j xs ≡ true
    → Q k j
unfolding has
has-Every Q k j [] p h = absurd cc
has-Every Q k j (x ∷ xs) p h = elim (Bool-cases (x.key == k && x.tv_index == j)) [
  | inl e ↦
      let ek : x.key ≡ k = ground (arith, e) in
      let ej : x.tv_index ≡ j = ground (arith, e) in rw (sym ek, sym ej) p.0
  | inr e ↦ has-Every Q k j xs p.1 (ground (arith, h, e))
]

has-insert_by :
    (k j : ℕ) (x : Row) (ys : List Row) → has k j (insert_by before_by_key x ys) ≡ has k j (x ∷ ys)
unfolding insert_by has
has-insert_by k j x [] = refl
has-insert_by k j x (y ∷ ys) =
    if_intro (λ r. has k j r ≡ has k j (x ∷ y ∷ ys)) (before_by_key y x)
      (y ∷ insert_by before_by_key x ys) (x ∷ y ∷ ys) (λ _. ground (arith, has-insert_by k j x ys))
      (λ _. refl)

has-sort_by : (k j : ℕ) (xs : List Row) → has k j (sort_by before_by_key xs) ≡ has k j xs
unfolding sort_by has
has-sort_by k j [] = refl
has-sort_by k j (x ∷ xs) =
    has-insert_by k j x (sort_by before_by_key xs) ∙ ground (arith, has-sort_by k j xs)

has-indexed :
    (k i n j : ℕ) (rs : List Placed)
    → i + n ≡ j
    → HasKey (map Placed.key rs) k n
    → has k j (indexed i rs) ≡ true
unfolding indexed has get_elem?
has-indexed k i n j [] e h = absurd cc
has-indexed k i zero j (r ∷ rs) e h = let q : r.key ≡ k = cc in ground (arith, q, e)
has-indexed k i (suc n) j (r ∷ rs) e h =
    ground (arith, has-indexed k (i + 1) n j rs (omega (arith, e)) h)

-- No later row comes before an earlier one.
abbrev Follow : Row → Row → Type 0
Follow x y = before_by_key y x ≡ false

abbrev InOrder : List Row → Type 0
InOrder [] = Unit {0}
InOrder (x ∷ xs) = Every (Follow x) xs × InOrder xs

insert_by-InOrder : (x : Row) (ys : List Row) → InOrder ys → InOrder (insert_by before_by_key x ys)
unfolding insert_by
insert_by-InOrder x [] s = (tt, tt)
insert_by-InOrder x (y ∷ ys) s =
    if_intro InOrder (before_by_key y x) (y ∷ insert_by before_by_key x ys) (x ∷ y ∷ ys)
      (λ h. (
        Every-insert_by before_by_key (Follow y) x ys (ground (arith, h)) s.0,
        insert_by-InOrder x ys s.1,
      ))
      (λ h. ((h, Every-map (Follow y) (Follow x) (λ z k. ground (arith, h, k)) ys s.0), s))

sort_by-InOrder : (xs : List Row) → InOrder (sort_by before_by_key xs)
unfolding sort_by
sort_by-InOrder [] = tt
sort_by-InOrder (x ∷ xs) = insert_by-InOrder x (sort_by before_by_key xs) (sort_by-InOrder xs)

from_key_lem :
    (k j : ℕ) (xs : List Row)
    → InOrder xs
    → has k j xs ≡ true
    → InOrder (from_key k xs)
      × (has k j (from_key k xs) ≡ true)
      × Every (λ y. k ≤ y.key) (from_key k xs)
unfolding from_key has
from_key_lem k j [] s h = absurd cc
from_key_lem k j (x ∷ xs) s h =
    if_intro (λ r. InOrder r × (has k j r ≡ true) × Every (λ y. k ≤ y.key) r) (ltb x.key k)
      (from_key k xs) (x ∷ xs) (λ e. from_key_lem k j xs s.1 (ground (arith, h, e)))
      (λ e. (
        s,
        h,
        (
          ground (arith, e),
          Every-map (Follow x) (λ y. k ≤ y.key) (λ y q. ground (arith, q, e)) xs s.0,
        ),
      ))

while_key_lem :
    (k j : ℕ) (xs : List Row)
    → InOrder xs
    → has k j xs ≡ true
    → Every (λ y. k ≤ y.key) xs
    → has k j (while_key k xs) ≡ true
unfolding while_key has
while_key_lem k j [] s h p = absurd cc
while_key_lem k j (x ∷ xs) s h p = elim (Bool-cases (x.key == k)) [
  | inl e ↦ elim (Bool-cases (has k j xs)) [
    | inl t ↦ ground (arith, e, while_key_lem k j xs s.1 t p.1)
    | inr t ↦ ground (arith, e, h, t)
  ]
  | inr e ↦
      let above = Every-map (Follow x) (λ y. k < y.key) (λ y q. ground (arith, q, e, p.0)) xs s.0 in
      absurd (omega (arith, has-Every (λ a b. k < a) k j xs above (ground (arith, h, e))))
]

while_key-Every {κ} :
    (P : Row → Type κ) (k : ℕ) (xs : List Row)
    → Every P xs
    → Every (λ y. (y.key ≡ k) × P y) (while_key k xs)
unfolding while_key
while_key-Every P k [] p = tt
while_key-Every P k (x ∷ xs) p =
    if_intro (Every λ y. (y.key ≡ k) × P y) (x.key == k) (x ∷ while_key k xs) []
      (λ e. ((==→eq x.key k e, p.0), while_key-Every P k xs p.1)) (λ _. tt)

-- The places ascend, since the keys are the same.
abbrev PlacesClimb : List Row → Type 0
PlacesClimb [] = Unit {0}
PlacesClimb (x ∷ xs) = Every (λ y. x.tv_index ≤ y.tv_index) xs × PlacesClimb xs

while_key-PlacesClimb : (k : ℕ) (xs : List Row) → InOrder xs → PlacesClimb (while_key k xs)
unfolding while_key
while_key-PlacesClimb k [] s = tt
while_key-PlacesClimb k (x ∷ xs) s =
    if_intro PlacesClimb (x.key == k) (x ∷ while_key k xs) []
      (λ e. (
        Every-map (λ y. (y.key ≡ k) × Follow x y) (λ y. x.tv_index ≤ y.tv_index)
            (λ y q. ground (arith, q.0, q.1, e)) (while_key k xs)
            (while_key-Every (Follow x) k xs s.0),
        while_key-PlacesClimb k xs s.1,
      ))
      (λ _. tt)

within_range_lem :
    (begin2 end2 k j : ℕ) (xs : List Row)
    → PlacesClimb xs
    → begin2 ≤ j
    → j < end2
    → has k j xs ≡ true
    → elem j (within_range begin2 end2 xs) ≡ true
unfolding within_range has elem
within_range_lem begin2 end2 k j [] c l u h = absurd cc
within_range_lem begin2 end2 k j (x ∷ xs) c l u h =
    let rest = within_range begin2 end2 xs in
    let behind : (has k j xs ≡ true) → x.tv_index ≤ j =
      λ t. has-Every (λ a b. x.tv_index ≤ b) k j xs c.0 t in
    elim (Bool-cases (has k j xs)) [
      | inl t ↦
          let ih = within_range_lem begin2 end2 k j xs c.1 l u t in
          ground (arith, ih, behind t, l, u)
      | inr t ↦ let e : x.tv_index ≡ j = ground (arith, h, t) in ground (arith, e, l, u)
    ]

-- Every place of a key within the range is among its matches.
b_matches_complete :
    (rows : List Placed) (begin2 end2 k j : ℕ)
    → begin2 ≤ j
    → j < end2
    → HasKey (map Placed.key rows) k j
    → elem j (b_matches (sort_by before_by_key (indexed 0 rows)) begin2 end2 k) ≡ true
b_matches_complete rows begin2 end2 k j l u h =
    let b = sort_by before_by_key (indexed 0 rows) in
    let at = has-sort_by k j (indexed 0 rows) ∙ has-indexed k 0 j j rows (omega arith) h in
    let (s, f, p) = from_key_lem k j b (sort_by-InOrder (indexed 0 rows)) at in
    within_range_lem begin2 end2 k j (while_key k (from_key k b))
      (while_key-PlacesClimb k (from_key k b) s) l u (while_key_lem k j (from_key k b) s f p)

-- For the old rows `a` and the new rows, which are searched in the order that `calculate_moves_sorted`
-- gives them, and a part of each: `find_longest_match` returns a block that lies in both parts and has the
-- same keys in them, and no such block is longer.
pub find_longest_match_lem :
    (modifications : List Range) (a : List Row) (rows : List Placed) (begin1 end1 begin2 end2 : ℕ)
    (m : Match)
    → begin1 ≤ end1
    → begin2 ≤ end2
    → end1 ≤ length a
    → Fits (map Row.key a) (map Placed.key rows) begin1 end1 begin2 end2 m
    → let b = sort_by before_by_key (indexed 0 rows) in
      let best = find_longest_match modifications a b begin1 end1 begin2 end2 in
      Fits (map Row.key a) (map Placed.key rows) begin1 end1 begin2 end2 best × (m.size ≤ best.size)
find_longest_match_lem modifications a rows begin1 end1 begin2 end2 m h k w f =
    let ka = map Row.key a in
    let kb = map Placed.key rows in
    let b = sort_by before_by_key (indexed 0 rows) in
    let follows = Follows-map ka 0 a λ n. ap (get_elem? ka) (omega arith) in
    (
      find_longest_match-Fits ka kb begin1 end1 begin2 end2 modifications a b h k w follows (
          Every-sort_by before_by_key (λ x. HasKey kb x.key x.tv_index) (indexed 0 rows)
            (indexed-HasKey kb 0 rows λ n. ap (get_elem? kb) (omega arith))),
      find_longest_match-longest ka kb b begin1 end1 begin2 end2
          (b_matches_complete rows begin2 end2) modifications a m w follows f,
    )
