-- ===== src/Changes/Diff/Longest.antt =====
-- `find_longest_match` finds a longest block.
use realm_object_store.Base.{
  ℕ, ◌+◌, ◌-◌, ◌≤◌, ◌<◌, ◌≡◌, sym, ap, subst, ◌∙◌, true, false, List, [], ◌∷◌, ◌++◌, arith, ltb,
  ◌==◌, length, if◌then◌else◌, if_intro, none, some, ℕ_discrete,
}
use mathlib.Core.List.{append_assoc, append-nil}
use realm_object_store.IndexSet.Ranges.{Range}
use realm_object_store.IndexSet.Counting.{count_ranges}
use realm_object_store.IndexSet.Chunks.{take, drop}
use realm_object_store.IndexSet.Chunks.Lists.{length-take, length-drop}
use realm_object_store.IndexSet.Combining.Indexes.{elem}
use realm_object_store.Changes.Diff.Matching.{
  Row, Match, Length, block_length, b_matches, ending, better, try_matches, try_rows,
  find_longest_match, known,
}
use realm_object_store.Changes.Diff.Comparing.{HasKey}
use realm_object_store.Changes.Diff.Blocks.{Follows, Follows-take, Follows-drop, Fits, EndsAt}

-- The best block is no shorter than the one that it is compared with, nor than it was.
better-size :
    (modifications : List Range) (best : Match) (i j size : ℕ)
    → let r = better modifications best i j size in (size ≤ r.size) × (best.size ≤ r.size)
unfolding better
better-size modifications best i j size =
    let old = known modifications best.j size best.modified in
    let new = count_ranges modifications (j + 1 - size) (j + 1) in
    let kept : Match = record best { modified = some old } in
    let tie : Match = if ltb new old then ending i j size (some new) else kept in
    let P = λ (m : Match). (size ≤ m.size) × (best.size ≤ m.size) in
    if_intro P (ltb best.size size) (ending i j size none) (if size == best.size then tie else best)
      (λ l. (omega arith, ground (arith, l)))
      (λ l.
        if_intro P (size == best.size) tie best
          (λ e.
            if_intro P (ltb new old) (ending i j size (some new)) kept
              (λ _. (omega arith, ground (arith, e))) (λ _. (ground (arith, e), omega arith)))
          (λ _. (ground (arith, l), omega arith)))

-- What is recorded for the matches of one row.
abbrev entries : List Length → List ℕ → List Length
entries prev [] = []
entries prev (j ∷ js) = record { j = j; len = block_length prev j } ∷ entries prev js

try_matches-entries :
    (modifications : List Range) (prev : List Length) (i : ℕ) (js : List ℕ) (best : Match)
    (cur : List Length)
    → let r = try_matches modifications prev i js best cur in
      (r.1 ≡ cur ++ entries prev js)
      × (best.size ≤ r.0.size)
      × ((j : ℕ) → elem j js ≡ true → block_length prev j ≤ r.0.size)
unfolding try_matches elem
try_matches-entries modifications prev i [] best cur =
    (sym (append-nil cur), omega arith, λ j h. absurd cc)
try_matches-entries modifications prev i (k ∷ js) best cur =
    let size = block_length prev k in
    let grown = better-size modifications best i k size in
    let ih =
      try_matches-entries modifications prev i js (better modifications best i k size)
        (cur ++ record { j = k; len = size } ∷ []) in
    (
      ih.0 ∙ append_assoc cur (record { j = k; len = size } ∷ []) (entries prev js),
      omega (arith, ih.1, grown.1),
      λ j h. elim (ℕ_discrete k j) [
        | yes e ↦ rw (sym e) (omega (arith, ih.1, grown.0))
        | no n ↦ ih.2 j (ground (arith, h, n))
      ],
    )

block_length-pos : (prev : List Length) (j : ℕ) → 1 ≤ block_length prev j
unfolding block_length
block_length-pos [] j = omega arith
block_length-pos (p ∷ ps) j =
    if_intro (λ n. 1 ≤ n) (p.j + 1 == j) (p.len + 1) (block_length ps j) (λ _. omega arith)
      (λ _. block_length-pos ps j)

-- The block that ends at the next row and place is one longer.
block_length-entries :
    (prev : List Length) (js : List ℕ) (j : ℕ)
    → elem j js ≡ true
    → block_length (entries prev js) (j + 1) ≡ block_length prev j + 1
unfolding block_length elem
block_length-entries prev [] j h = absurd cc
block_length-entries prev (k ∷ js) j h = elim (ℕ_discrete k j) [
  | yes e ↦
      let q : (k + 1 == j + 1) ≡ true = ground (arith, e) in
      rw q (ap (λ n. block_length prev n + 1) e)
  | no n ↦
      let q : (k + 1 == j + 1) ≡ false = ground (arith, n) in
      rw q (block_length-entries prev js j (ground (arith, h, n)))
]

module _ (ka kb : List ℕ) (b : List Row) (begin1 end1 begin2 end2 : ℕ)
    (complete : (k j : ℕ)
      → begin2 ≤ j
      → j < end2
      → HasKey kb k j
      → elem j (b_matches b begin2 end2 k) ≡ true) where
  -- The lengths that are kept are those of the longest blocks that end before the row.
  abbrev Covers : ℕ → List Length → Type 0
  Covers e prev =
      (p : Length)
      → 0 < p.len
      → EndsAt ka kb begin1 end1 begin2 end2 e p
      → p.len + 1 ≤ block_length prev (p.j + 1)

  -- A block that ends at a row ends at one of its matches.
  ends-matched :
      (i k : ℕ) (p : Length)
      → HasKey ka k i
      → 0 < p.len
      → EndsAt ka kb begin1 end1 begin2 end2 (i + 1) p
      → elem p.j (b_matches b begin2 end2 k) ≡ true
  ends-matched i k p h l e =
      complete k p.j (omega (arith, e.1, l)) e.2
        (sym (e.3 i p.j (omega arith) (omega (arith, l)) (omega arith)) ∙ h)

  ends-covered :
      (i : ℕ) (prev : List Length) (p : Length)
      → Covers i prev
      → 0 < p.len
      → EndsAt ka kb begin1 end1 begin2 end2 (i + 1) p
      → p.len ≤ block_length prev p.j
  ends-covered i prev p c l e = elim (ℕ_discrete p.len 1) [
    | yes s ↦ omega (arith, s, block_length-pos prev p.j)
    | no n ↦
        let before : Length = record { j = p.j - 1; len = p.len - 1 } in
        let more : 1 < p.len = omega (arith, n, l) in
        let at : p.j - 1 + 1 ≡ p.j = omega (arith, e.1, more) in
        let found = c before (omega (arith, more)) (
          omega (arith, e.0, more),
          omega (arith, e.1, more),
          omega (arith, e.2),
          λ x y q h k. e.3 x y (omega (arith, q, at)) (omega (arith, h, more)) (omega (arith, k)),
        ) in
        omega (arith, more, rw at at found)
  ]

  try_rows-longest :
      (modifications : List Range) (i : ℕ) (xs : List Row) (best : Match) (prev : List Length)
      → Follows ka i xs
      → Covers i prev
      → let r = try_rows modifications b begin2 end2 i xs best prev in
        (best.size ≤ r.size)
        × ((e : ℕ) (p : Length)
            → i < e
            → e ≤ i + length xs
            → 0 < p.len
            → EndsAt ka kb begin1 end1 begin2 end2 e p
            → p.len ≤ r.size)
  unfolding try_rows
  try_rows-longest modifications i [] best prev f c =
      (omega arith, λ e p h k. absurd (omega (arith, h, k)))
  try_rows-longest modifications i (x ∷ xs) best prev f c =
      let js = b_matches b begin2 end2 x.key in
      let step = try_matches-entries modifications prev i js best [] in
      let r = try_matches modifications prev i js best [] in
      let covers : Covers (i + 1) r.1 = λ p l e.
        let q = ends-matched i x.key p f.0 l e in
        rw (step.0, block_length-entries prev js p.j q)
          (omega (arith, ends-covered i prev p c l e)) in
      let ih = try_rows-longest modifications (i + 1) xs r.0 r.1 f.1 covers in
      (
        omega (arith, step.1, ih.0),
        λ e p h k l q. elim (ℕ_discrete e (i + 1)) [
          | yes s ↦
              let q' = subst (λ n. EndsAt ka kb begin1 end1 begin2 end2 n p) s q in
              let m = ends-matched i x.key p f.0 l q' in
              omega (arith, step.2 p.j m, ends-covered i prev p c l q', ih.0)
          | no s ↦ ih.1 e p (omega (arith, h, s)) (omega (arith, k)) l q
        ],
      )

  -- No block with the same keys in both parts is longer than the one that is found.
  pub find_longest_match-longest :
      (modifications : List Range) (a : List Row) (m : Match)
      → end1 ≤ length a
      → Follows ka 0 a
      → Fits ka kb begin1 end1 begin2 end2 m
      → m.size ≤ (find_longest_match modifications a b begin1 end1 begin2 end2).size
  unfolding find_longest_match
  find_longest_match-longest modifications a m w f q =
      let xs = take (end1 - begin1) (drop begin1 a) in
      let l : length xs ≡ end1 - begin1 =
        length-take (end1 - begin1) (drop begin1 a) (omega (arith, w, length-drop begin1 a)) in
      let longest =
        try_rows-longest modifications begin1 xs
          (record { i = begin1; j = begin2; size = 0; modified = some 0 }) []
          (Follows-take ka begin1 (end1 - begin1) (drop begin1 a)
            (Follows-drop ka 0 begin1 begin1 a (omega arith) f))
          (λ p h e. absurd (omega (arith, h, e.0))) in
      elim (ℕ_discrete m.size 0) [
        | yes z ↦ omega (arith, z)
        | no n ↦
            longest.1 (m.i + m.size) (record { j = m.j + m.size - 1; len = m.size })
              (omega (arith, n, q.0)) (omega (arith, l, q.0, q.1)) (omega (arith, n))
              (
                omega (arith, q.0),
                omega (arith, q.2, n),
                omega (arith, q.3, n),
                λ x y e h k. q.4 x y (omega (arith, e, n)) (omega (arith, h)) (omega (arith, k)),
              )
      ]
