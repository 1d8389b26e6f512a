-- ===== src/Changes/Diff/Blocks.antt =====
-- What `find_longest_match` returns: a block of rows that both orders have.
use realm_object_store.Base.{
  ℕ, zero, suc, ◌+◌, ◌-◌, ◌≤◌, ◌<◌, ◌≡◌, refl, sym, subst, ◌∙◌, List, [], ◌∷◌, arith, ltb, leb,
  ◌==◌, length, if◌then◌else◌, if_intro, Option, none, some, ℕ_discrete, leb-false→lt, ==→eq,
}
use realm_object_store.IndexSet.Ranges.{Range}
use realm_object_store.IndexSet.Chunks.{take, drop}
use realm_object_store.IndexSet.Chunks.Lists.{length-take, length-drop}
use realm_object_store.Changes.Diff.Matching.{
  Row, Match, Length, block_length, from_key, while_key, within_range, b_matches, ending, better,
  try_matches, try_rows, find_longest_match, known,
}
use realm_object_store.IndexSet.Counting.{count_ranges}
use realm_object_store.Changes.Diff.Lists.{Every, Every-++, get_elem?}
use realm_object_store.Changes.Diff.Comparing.{HasKey}

-- The rows of a list of rows with keys, from a place on, have the keys that are listed there.
abbrev pub Follows : List ℕ → ℕ → List Row → Type 0
Follows ks i [] = Unit {0}
Follows ks i (x ∷ xs) = HasKey ks x.key i × Follows ks (i + 1) xs

pub Follows-take :
    (ks : List ℕ) (i n : ℕ) (xs : List Row) → Follows ks i xs → Follows ks i (take n xs)
unfolding take
Follows-take ks i zero xs f = tt
Follows-take ks i (suc n) [] f = tt
Follows-take ks i (suc n) (x ∷ xs) f = (f.0, Follows-take ks (i + 1) n xs f.1)

pub Follows-drop :
    (ks : List ℕ) (i n j : ℕ) (xs : List Row)
    → i + n ≡ j
    → Follows ks i xs
    → Follows ks j (drop n xs)
unfolding drop
Follows-drop ks i zero j xs e f = subst (λ k. Follows ks k xs) (sym (omega (arith, e)) ∙ e) f
Follows-drop ks i (suc n) j [] e f = tt
Follows-drop ks i (suc n) j (x ∷ xs) e f = Follows-drop ks (i + 1) n j xs (omega (arith, e)) f.1

-- The keys of both lists, and the part of each that is searched.
module _ (ka kb : List ℕ) (begin1 end1 begin2 end2 : ℕ) where
  -- A block that lies in both parts and has the same keys in them.
  abbrev pub Fits : Match → Type 0
  Fits m =
      (begin1 ≤ m.i)
      × (m.i + m.size ≤ end1)
      × (begin2 ≤ m.j)
      × (m.j + m.size ≤ end2)
      × ((x y : ℕ)
          → x + m.j ≡ y + m.i
          → m.i ≤ x
          → x < m.i + m.size
          → get_elem? ka x ≡ get_elem? kb y)

  -- A block that ends before a place of the first list and at one of the second.
  abbrev pub EndsAt : ℕ → Length → Type 0
  EndsAt e p =
      (begin1 + p.len ≤ e)
      × (begin2 + p.len ≤ p.j + 1)
      × (p.j < end2)
      × ((x y : ℕ)
          → x + (p.j + 1) ≡ y + e
          → e ≤ x + p.len
          → x < e
          → get_elem? ka x ≡ get_elem? kb y)

  abbrev InB : ℕ → ℕ → Type 0
  InB k j = (begin2 ≤ j) × (j < end2) × HasKey kb k j

  block_length-EndsAt :
      (i k j : ℕ) (prev : List Length)
      → begin1 ≤ i
      → HasKey ka k i
      → InB k j
      → Every (EndsAt i) prev
      → EndsAt (i + 1) (record { j = j; len = block_length prev j })
  unfolding block_length
  block_length-EndsAt i k j [] h a b p = (
    omega (arith, h),
    omega (arith, b.0),
    b.1,
    λ x y e l u.
        let ex : x ≡ i = omega (arith, l, u) in
        let ey : y ≡ j = omega (arith, e, ex) in rw (ex, ey, a, b.2) refl,
  )
  block_length-EndsAt i k j (p ∷ ps) h a b q =
      if_intro (λ n. EndsAt (i + 1) (record { j = j; len = n })) (p.j + 1 == j) (p.len + 1)
        (block_length ps j)
        (λ c.
          let at : p.j + 1 ≡ j = ==→eq (p.j + 1) j c in
          (
            omega (arith, q.0.0),
            omega (arith, q.0.1, at),
            b.1,
            λ x y e l u. elim (ℕ_discrete x i) [
              | yes ex ↦ let ey : y ≡ j = omega (arith, e, ex) in rw (ex, ey, a, b.2) refl
              | no n ↦ q.0.3 x y (omega (arith, e, at)) (omega (arith, l)) (omega (arith, n, u))
            ],
          ))
        (λ _. block_length-EndsAt i k j ps h a b q.1)

  ending-Fits :
      (i j size : ℕ) (n : Option ℕ)
      → i < end1
      → EndsAt (i + 1) (record { j = j; len = size })
      → Fits (ending i j size n)
  ending-Fits i j size n h q = (
    omega (arith, q.0),
    omega (arith, q.0, h),
    omega (arith, q.1),
    omega (arith, q.1, q.2),
    λ x y e l u.
        q.3 x y (omega (arith, e, q.0, q.1)) (omega (arith, l, q.0)) (omega (arith, u, q.0)),
  )

  better-Fits :
      (modifications : List Range) (best : Match) (i j size : ℕ)
      → i < end1
      → EndsAt (i + 1) (record { j = j; len = size })
      → Fits best
      → Fits (better modifications best i j size)
  unfolding better
  better-Fits modifications best i j size h q f =
      let old = known modifications best.j size best.modified in
      let new = count_ranges modifications (j + 1 - size) (j + 1) in
      let kept : Match = record best { modified = some old } in
      let tie : Match = if ltb new old then ending i j size (some new) else kept in
      if_intro Fits (ltb best.size size) (ending i j size none)
        (if size == best.size then tie else best) (λ _. ending-Fits i j size none h q)
        (λ _.
          if_intro Fits (size == best.size) tie best
            (λ _.
              if_intro Fits (ltb new old) (ending i j size (some new)) kept
                (λ _. ending-Fits i j size (some new) h q) (λ _. f))
            (λ _. f))

  try_matches-Fits :
      (modifications : List Range) (prev : List Length) (i k : ℕ) (js : List ℕ) (best : Match)
      (cur : List Length)
      → begin1 ≤ i
      → i < end1
      → HasKey ka k i
      → Every (EndsAt i) prev
      → Every (InB k) js
      → Fits best
      → Every (EndsAt (i + 1)) cur
      → let r = try_matches modifications prev i js best cur in
        Fits r.0 × Every (EndsAt (i + 1)) r.1
  unfolding try_matches
  try_matches-Fits modifications prev i k [] best cur h l a p b f c = (f, c)
  try_matches-Fits modifications prev i k (j ∷ js) best cur h l a p b f c =
      let q = block_length-EndsAt i k j prev h a b.0 p in
      try_matches-Fits modifications prev i k js _ _ h l a p b.1
        (better-Fits modifications best i j (block_length prev j) l q f)
        (Every-++ (EndsAt (i + 1)) cur _ c (q, tt))

-- The places in the second list that a row matches.
from_key-Every {κ} : (P : Row → Type κ) (k : ℕ) (b : List Row) → Every P b → Every P (from_key k b)
unfolding from_key
from_key-Every P k [] p = tt
from_key-Every P k (x ∷ xs) p =
    if_intro (Every P) (ltb x.key k) (from_key k xs) (x ∷ xs) (λ _. from_key-Every P k xs p.1)
      (λ _. p)

while_key-HasKey :
    (kb : List ℕ) (k : ℕ) (b : List Row)
    → Every (λ x. HasKey kb x.key x.tv_index) b
    → Every (λ x. HasKey kb k x.tv_index) (while_key k b)
unfolding while_key
while_key-HasKey kb k [] p = tt
while_key-HasKey kb k (x ∷ xs) p =
    if_intro (Every λ x. HasKey kb k x.tv_index) (x.key == k) (x ∷ while_key k xs) []
      (λ e.
        (subst (λ k. HasKey kb k x.tv_index) (==→eq x.key k e) p.0, while_key-HasKey kb k xs p.1))
      (λ _. tt)

module _ (ka kb : List ℕ) (begin1 end1 begin2 end2 : ℕ) where
  within_range-InB :
      (k : ℕ) (b : List Row)
      → Every (λ x. HasKey kb k x.tv_index) b
      → Every (InB ka kb begin1 end1 begin2 end2 k) (within_range begin2 end2 b)
  unfolding within_range
  within_range-InB k [] p = tt
  within_range-InB k (x ∷ xs) p =
      let rest = within_range begin2 end2 xs in
      let P = Every (InB ka kb begin1 end1 begin2 end2 k) in
      if_intro P (ltb x.tv_index begin2) rest
        (if leb end2 x.tv_index then [] else x.tv_index ∷ rest) (λ _. within_range-InB k xs p.1)
        (λ l.
          if_intro P (leb end2 x.tv_index) [] (x.tv_index ∷ rest) (λ _. tt)
            (λ u. (
              (ground (arith, l), leb-false→lt end2 x.tv_index u, p.0),
              within_range-InB k xs p.1,
            )))

  try_rows-Fits :
      (modifications : List Range) (b : List Row) (i : ℕ) (xs : List Row) (best : Match)
      (prev : List Length)
      → begin1 ≤ i
      → i + length xs ≤ end1
      → Follows ka i xs
      → Every (λ x. HasKey kb x.key x.tv_index) b
      → Fits ka kb begin1 end1 begin2 end2 best
      → Every (EndsAt ka kb begin1 end1 begin2 end2 i) prev
      → Fits ka kb begin1 end1 begin2 end2 (try_rows modifications b begin2 end2 i xs best prev)
  unfolding try_rows
  try_rows-Fits modifications b i [] best prev h l a p f q = f
  try_rows-Fits modifications b i (x ∷ xs) best prev h l a p f q =
      let js =
        within_range-InB x.key (while_key x.key (from_key x.key b))
          (while_key-HasKey kb x.key (from_key x.key b) (from_key-Every _ x.key b p)) in
      let (f', c) =
        try_matches-Fits ka kb begin1 end1 begin2 end2 modifications prev i x.key
          (b_matches b begin2 end2 x.key) best [] h (omega (arith, l)) a.0 q js f tt in
      try_rows-Fits modifications b (i + 1) xs _ _ (omega (arith, h)) (omega (arith, l)) a.1 p f' c

  -- The block that is found lies in both parts, and has the same keys in them.
  pub find_longest_match-Fits :
      (modifications : List Range) (a b : List Row)
      → begin1 ≤ end1
      → begin2 ≤ end2
      → end1 ≤ length a
      → Follows ka 0 a
      → Every (λ x. HasKey kb x.key x.tv_index) b
      → Fits ka kb begin1 end1 begin2 end2
          (find_longest_match modifications a b begin1 end1 begin2 end2)
  unfolding find_longest_match
  find_longest_match-Fits modifications a b h k w f p =
      let xs = take (end1 - begin1) (drop begin1 a) in
      let l : length xs ≡ end1 - begin1 =
        length-take (end1 - begin1) (drop begin1 a) (omega (arith, w, length-drop begin1 a)) in
      try_rows-Fits modifications b begin1 xs _ [] (omega arith) (omega (arith, l, h))
        (Follows-take ka begin1 (end1 - begin1) (drop begin1 a)
          (Follows-drop ka 0 begin1 begin1 a (omega arith) f))
        p
        (
          omega arith,
          omega (arith, h),
          omega arith,
          omega (arith, k),
          λ x y e l u. absurd (omega (arith, l, u)),
        )
        tt
