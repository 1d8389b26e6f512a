-- ===== src/Changes/Diff/Keys.antt =====
-- The keys of rows in blocks, and before the first difference.
use realm_object_store.Base.{
  ℕ, zero, suc, ◌+◌, ◌≤◌, ◌<◌, ◌≡◌, refl, sym, ap, ◌∙◌, List, [], ◌∷◌, ◌++◌, arith, ◌==◌, length,
  if_intro, Option, none, some, map, ==→eq,
}
use realm_object_store.IndexSet.Chunks.{take, drop}
use realm_object_store.Changes.Diff.Matching.{Row, Match, Placed}
use realm_object_store.Changes.Diff.Lists.{Every, get_elem?}
use realm_object_store.Changes.Diff.Comparing.{HasKey}
use realm_object_store.Changes.Diff.Blocks.{Follows}
use realm_object_store.Changes.Diff.Chains.{IsChain, inside}
use realm_object_store.Changes.Diff.{indexed, first_difference}

drop-get_elem? :
    (i : ℕ) (xs : List ℕ)
    → i < length xs
    → (x : ℕ) × (get_elem? xs i ≡ some x) × (drop i xs ≡ x ∷ drop (suc i) xs)
unfolding drop get_elem?
drop-get_elem? i [] h = absurd (omega (arith, h))
drop-get_elem? zero (x ∷ xs) h = (x, refl, refl)
drop-get_elem? (suc i) (x ∷ xs) h = drop-get_elem? i xs (omega (arith, h))

take-same :
    (n i j : ℕ) (xs ys : List ℕ)
    → i + n ≤ length xs
    → j + n ≤ length ys
    → ((x y : ℕ) → x + j ≡ y + i → i ≤ x → x < i + n → get_elem? xs x ≡ get_elem? ys y)
    → take n (drop i xs) ≡ take n (drop j ys)
unfolding take
take-same zero i j xs ys h k e = refl
take-same (suc n) i j xs ys h k e =
    let (x, gx, dx) = drop-get_elem? i xs (omega (arith, h)) in
    let (y, gy, dy) = drop-get_elem? j ys (omega (arith, k)) in
    let g : some x ≡ some y = sym gx ∙ e i j (omega arith) (omega arith) (omega arith) ∙ gy in
    let p : x ≡ y = cc in
    let ih =
      take-same n (suc i) (suc j) xs ys (omega (arith, h)) (omega (arith, k))
        (λ u v w l r. e u v (omega (arith, w)) (omega (arith, l)) (omega (arith, r))) in
    rw (dx, dy, p, ih) refl

module _ {ℓ} {A : Type ℓ} (f : A → ℕ) where
  map-take-drop : (n i : ℕ) (xs : List A) → map f (take n (drop i xs)) ≡ take n (drop i (map f xs))
  unfolding take drop
  map-take-drop zero i xs = refl
  map-take-drop (suc n) zero [] = refl
  map-take-drop (suc n) (suc i) [] = refl
  map-take-drop (suc n) zero (x ∷ xs) = ap (λ r. f x ∷ r) (map-take-drop n zero xs)
  map-take-drop (suc n) (suc i) (x ∷ xs) = map-take-drop (suc n) i xs

  pub length-map : (xs : List A) → length (map f xs) ≡ length xs
  length-map [] = refl
  length-map (x ∷ xs) = ap suc (length-map xs)

  map-++ : (xs ys : List A) → map f (xs ++ ys) ≡ map f xs ++ map f ys
  map-++ [] ys = refl
  map-++ (x ∷ xs) ys = ap (λ r. f x ∷ r) (map-++ xs ys)

-- What lies in the blocks has the same keys in both lists.
pub map-inside :
    (a : List Row) (rows : List Placed) (i j : ℕ) (ms : List Match)
    → IsChain (map Row.key a) (map Placed.key rows) (length a) (length rows) i j ms
    → map Row.key (inside Match.i ms a) ≡ map Placed.key (inside Match.j ms rows)
unfolding inside
map-inside a rows i j [] c = refl
map-inside a rows i j (m ∷ ms) c =
    let old = take m.size (drop m.i a) in
    let new = take m.size (drop m.j rows) in
    let same =
      take-same m.size m.i m.j (map Row.key a) (map Placed.key rows)
        (omega (arith, length-map Row.key a, c.0.1))
        (omega (arith, length-map Placed.key rows, c.0.3)) c.0.4 in
    rw
      (
        map-++ Row.key old (inside Match.i ms a),
        map-++ Placed.key new (inside Match.j ms rows),
        map-take-drop Row.key m.size m.i a,
        map-take-drop Placed.key m.size m.j rows,
        same,
        map-inside a rows (m.i + m.size) (m.j + m.size) ms c.1,
      )
      refl

-- What the first difference tells of the keys before it.
abbrev pub Agrees : ℕ → List Row → List Placed → Option ℕ → Type 0
Agrees i xs rs none = map Row.key xs ≡ map Placed.key rs
Agrees i xs rs (some s) =
    (i ≤ s)
    × (s ≤ i + length xs)
    × ((x : ℕ) → i + x < s → get_elem? (map Row.key xs) x ≡ get_elem? (map Placed.key rs) x)

Agrees-cons :
    (i : ℕ) (x : Row) (xs : List Row) (r : Placed) (rs : List Placed) (o : Option ℕ)
    → x.key ≡ r.key
    → Agrees (i + 1) xs rs o
    → Agrees i (x ∷ xs) (r ∷ rs) o
unfolding get_elem?
Agrees-cons i x xs r rs none e a = rw (e, a) refl
Agrees-cons i x xs r rs (some s) e a = (omega (arith, a.0), omega (arith, a.1), agree)
  where
    agree :
        (n : ℕ)
        → i + n < s
        → get_elem? (map Row.key (x ∷ xs)) n ≡ get_elem? (map Placed.key (r ∷ rs)) n
    agree zero h = ap some e
    agree (suc n) h = a.2 n (omega (arith, h))

pub first_difference-Agrees :
    (i : ℕ) (xs : List Row) (rs : List Placed)
    → length xs ≡ length rs
    → Agrees i xs rs (first_difference i xs rs)
unfolding first_difference
first_difference-Agrees i [] [] h = refl
first_difference-Agrees i [] (r ∷ rs) h = absurd (omega (arith, h))
first_difference-Agrees i (x ∷ xs) [] h = absurd (omega (arith, h))
first_difference-Agrees i (x ∷ xs) (r ∷ rs) h =
    let rest = first_difference (i + 1) xs rs in
    if_intro (Agrees i (x ∷ xs) (r ∷ rs)) (x.key == r.key) rest (some i)
      (λ e.
        Agrees-cons i x xs r rs rest (==→eq x.key r.key e)
          (first_difference-Agrees (i + 1) xs rs (omega (arith, h))))
      (λ _. (omega arith, omega arith, λ n k. absurd (omega (arith, k))))

-- The lists that the blocks are found in.
pub Follows-map :
    (all : List ℕ) (i : ℕ) (xs : List Row)
    → ((n : ℕ) → get_elem? all (i + n) ≡ get_elem? (map Row.key xs) n)
    → Follows all i xs
unfolding get_elem?
Follows-map all i [] h = tt
Follows-map all i (x ∷ xs) h = (
  ap (get_elem? all) (omega arith) ∙ h 0,
  Follows-map all (i + 1) xs λ n. ap (get_elem? all) (omega arith) ∙ h (suc n),
)

pub indexed-HasKey :
    (all : List ℕ) (i : ℕ) (rs : List Placed)
    → ((n : ℕ) → get_elem? all (i + n) ≡ get_elem? (map Placed.key rs) n)
    → Every (λ x. HasKey all x.key x.tv_index) (indexed i rs)
unfolding indexed get_elem?
indexed-HasKey all i [] h = tt
indexed-HasKey all i (r ∷ rs) h = (
  ap (get_elem? all) (omega arith) ∙ h 0,
  indexed-HasKey all (i + 1) rs λ n. ap (get_elem? all) (omega arith) ∙ h (suc n),
)

pub length-indexed : (i : ℕ) (rs : List Placed) → length (indexed i rs) ≡ length rs
unfolding indexed
length-indexed i [] = refl
length-indexed i (r ∷ rs) = ap suc (length-indexed (i + 1) rs)
