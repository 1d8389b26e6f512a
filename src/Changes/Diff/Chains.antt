-- ===== src/Changes/Diff/Chains.antt =====
-- `find_longest_matches`: blocks one behind the other in both lists, and what lies in them and between.
use realm_object_store.Base.{
  ℕ, zero, suc, ◌+◌, ◌-◌, ◌≤◌, ◌≡◌, refl, sym, ap, subst, ◌∙◌, ◌&&◌, List, [], ◌∷◌, ◌++◌, arith,
  ltb, ◌==◌, length, if◌then◌else◌, if_intro, some, max,
}
use realm_object_store.IndexSet.Ranges.{Range}
use realm_object_store.IndexSet.Chunks.{take, drop}
use realm_object_store.IndexSet.Chunks.Lists.{take-drop, drop-past}
use realm_object_store.Changes.Diff.Matching.{
  Row, Match, Placed, find_longest_match, find_longest_matches,
}
use realm_object_store.Changes.Diff.Lists.{
  Every, Every-++, Every-take, Every-drop, occurs, occurs-++, Climbs, Climbs-mono,
}
use realm_object_store.Changes.Diff.Comparing.{HasKey, self}
use realm_object_store.Changes.Diff.Blocks.{Follows, Fits, find_longest_match-Fits}
use realm_object_store.Changes.Diff.{slice, view_indexes, new_indexes, unmatched}

-- Each block begins behind the one before, in both lists, and they have the same keys in it.
module _ (ka kb : List ℕ) (end1 end2 : ℕ) where
  abbrev pub IsChain : ℕ → ℕ → List Match → Type 0
  IsChain i j [] = (i ≤ end1) × (j ≤ end2)
  IsChain i j (m ∷ ms) = Fits ka kb i end1 j end2 m × IsChain (m.i + m.size) (m.j + m.size) ms

Fits-mono :
    (ka kb : List ℕ) (m : Match) {i e1 f1 j e2 f2 : ℕ}
    → e1 ≤ f1
    → e2 ≤ f2
    → Fits ka kb i e1 j e2 m
    → Fits ka kb i f1 j f2 m
Fits-mono ka kb m h k f = (f.0, omega (arith, f.1, h), f.2, omega (arith, f.3, k), f.4)

IsChain-ends :
    (ka kb : List ℕ) (i j end1 end2 : ℕ) (ms : List Match)
    → IsChain ka kb end1 end2 i j ms
    → (i ≤ end1) × (j ≤ end2)
IsChain-ends ka kb i j end1 end2 [] c = c
IsChain-ends ka kb i j end1 end2 (m ∷ ms) c =
    let r = IsChain-ends ka kb (m.i + m.size) (m.j + m.size) end1 end2 ms c.1 in
    (omega (arith, r.0, c.0.0), omega (arith, r.1, c.0.2))

-- Blocks before one that is found, and blocks behind it.
IsChain-join :
    (ka kb : List ℕ) (i j end1 end2 : ℕ) (ls : List Match) (m : Match) (rs : List Match)
    → Fits ka kb i end1 j end2 m
    → IsChain ka kb m.i m.j i j ls
    → IsChain ka kb end1 end2 (m.i + m.size) (m.j + m.size) rs
    → IsChain ka kb end1 end2 i j (ls ++ m ∷ rs)
IsChain-join ka kb i j end1 end2 [] m rs f l r = (f, r)
IsChain-join ka kb i j end1 end2 (n ∷ ls) m rs f l r =
    let q = IsChain-ends ka kb (n.i + n.size) (n.j + n.size) m.i m.j ls l.1 in
    (
      Fits-mono ka kb n (omega (arith, f.1)) (omega (arith, f.3)) l.0,
      IsChain-join ka kb (n.i + n.size) (n.j + n.size) end1 end2 ls m rs (q.0, f.1, q.1, f.3, f.4)
          l.1 r,
    )

pub find_longest_matches-IsChain :
    (ka kb : List ℕ) (modifications : List Range) (a b : List Row)
    (fuel begin1 end1 begin2 end2 : ℕ)
    → begin1 ≤ end1
    → begin2 ≤ end2
    → end1 ≤ length a
    → Follows ka 0 a
    → Every (λ x. HasKey kb x.key x.tv_index) b
    → IsChain ka kb end1 end2 begin1 begin2
        (find_longest_matches modifications a b fuel begin1 end1 begin2 end2)
unfolding find_longest_matches
find_longest_matches-IsChain ka kb modifications a b zero begin1 end1 begin2 end2 h k w f p = (h, k)
find_longest_matches-IsChain ka kb modifications a b (suc fuel) begin1 end1 begin2 end2 h k w f p =
    let m = find_longest_match modifications a b begin1 end1 begin2 end2 in
    let left = find_longest_matches modifications a b fuel begin1 m.i begin2 m.j in
    let right =
      find_longest_matches modifications a b fuel (m.i + m.size) end1 (m.j + m.size) end2 in
    let q = find_longest_match-Fits ka kb begin1 end1 begin2 end2 modifications a b h k w f p in
    let before = ltb begin1 m.i && ltb begin2 m.j in
    let behind = ltb (m.i + m.size) end2 && ltb (m.j + m.size) end2 in
    let ls = if before then left else [] in
    let rs = if behind then right else [] in
    if_intro (IsChain ka kb end1 end2 begin1 begin2) (m.size == 0) [] (ls ++ m ∷ rs) (λ _. (h, k))
      (λ _.
        IsChain-join ka kb begin1 begin2 end1 end2 ls m rs q
          (if_intro (IsChain ka kb m.i m.j begin1 begin2) before left []
            (λ _.
              find_longest_matches-IsChain ka kb modifications a b fuel begin1 m.i begin2 m.j q.0
                q.2 (omega (arith, q.1, w)) f p)
            (λ _. (q.0, q.2)))
          (if_intro (IsChain ka kb end1 end2 (m.i + m.size) (m.j + m.size)) behind right []
            (λ _.
              find_longest_matches-IsChain ka kb modifications a b fuel (m.i + m.size) end1
                (m.j + m.size) end2 q.1 q.3 w f p)
            (λ _. (q.1, q.3))))

-- Blocks of one list: each begins at or behind the end of the one before, and the last ends the list.
abbrev pub Steps : (Match → ℕ) → ℕ → ℕ → List Match → Type 0
Steps f i e [] = i ≡ e
Steps f i e (m ∷ ms) = (i ≤ f m) × (f m + m.size ≤ e) × Steps f (f m + m.size) e ms

abbrev pub ends : ℕ → ℕ → Match
ends i j = record { i = i; j = j; size = 0; modified = some 0 }

pub IsChain-Steps :
    (ka kb : List ℕ) (e1 e2 i j : ℕ) (ms : List Match)
    → IsChain ka kb e1 e2 i j ms
    → Steps Match.i i e1 (ms ++ ends e1 e2 ∷ []) × Steps Match.j j e2 (ms ++ ends e1 e2 ∷ [])
IsChain-Steps ka kb e1 e2 i j [] c =
    ((c.0, omega arith, omega arith), (c.1, omega arith, omega arith))
IsChain-Steps ka kb e1 e2 i j (m ∷ ms) c =
    let r = IsChain-Steps ka kb e1 e2 (m.i + m.size) (m.j + m.size) ms c.1 in
    ((c.0.0, c.0.1, r.0), (c.0.2, c.0.3, r.1))

pub IsChain-ended :
    (ka kb : List ℕ) (e1 e2 i j : ℕ) (ms : List Match)
    → IsChain ka kb e1 e2 i j ms
    → IsChain ka kb e1 e2 i j (ms ++ ends e1 e2 ∷ [])
IsChain-ended ka kb e1 e2 i j [] c = (
  (c.0, omega arith, c.1, omega arith, λ x y e l u. absurd (omega (arith, l, u))),
  (omega arith, omega arith),
)
IsChain-ended ka kb e1 e2 i j (m ∷ ms) c =
    (c.0, IsChain-ended ka kb e1 e2 (m.i + m.size) (m.j + m.size) ms c.1)

module _ {ℓ} {A : Type ℓ} (f : Match → ℕ) where
  -- What lies between the blocks, and what lies in them.
  unfoldable pub outside : ℕ → List Match → List A → List A
  unfolding take drop
  outside i [] xs = []
  outside i (m ∷ ms) xs = slice i (f m) xs ++ outside (max i (f m) + m.size) ms xs

  unfoldable pub inside : List Match → List A → List A
  unfolding take drop
  inside [] xs = []
  inside (m ∷ ms) xs = take m.size (drop (f m) xs) ++ inside ms xs

  pub Every-inside :
      (P : A → Type 0) (ms : List Match) (xs : List A) → Every P xs → Every P (inside ms xs)
  unfolding inside
  Every-inside P [] xs p = tt
  Every-inside P (m ∷ ms) xs p =
      Every-++ P (take m.size (drop (f m) xs)) (inside ms xs)
        (Every-take P m.size (drop (f m) xs) (Every-drop P (f m) xs p)) (Every-inside P ms xs p)

  -- From a place on, a list is what lies before a block, in it, and behind it.
  drop-split :
      (i m : ℕ) (size : ℕ) (xs : List A)
      → i ≤ m
      → (slice i m xs ++ drop m xs ≡ drop i xs)
        × (take size (drop m xs) ++ drop (m + size) xs ≡ drop m xs)
  drop-split i m size xs h =
      let e : m + size - m ≡ size = omega arith in
      (
        ap (λ r. slice i m xs ++ r) (sym (drop-past i m xs h)) ∙ take-drop (m - i) (drop i xs),
        ap (λ r. take size (drop m xs) ++ r)
              (sym (drop-past m (m + size) xs (omega arith)) ∙ ap (λ n. drop n (drop m xs)) e)
            ∙ take-drop size (drop m xs),
      )

  drop_all : (n : ℕ) (xs : List A) → length xs ≤ n → drop n xs ≡ []
  unfolding drop
  drop_all zero [] h = refl
  drop_all zero (x ∷ xs) h = absurd (omega (arith, h))
  drop_all (suc n) [] h = refl
  drop_all (suc n) (x ∷ xs) h = drop_all n xs (omega (arith, h))

  module _ (g : A → ℕ) where
    pub occurs-outside :
        (n i : ℕ) (ms : List Match) (xs : List A)
        → Steps f i (length xs) ms
        → occurs g n (outside i ms xs) + occurs g n (inside ms xs) ≡ occurs g n (drop i xs)
    unfolding outside inside occurs
    occurs-outside n i [] xs s = rw (drop_all i xs (omega (arith, s))) refl
    occurs-outside n i (m ∷ ms) xs s =
        let far : max i (f m) ≡ f m = omega (arith, s.0) in
        let (e1, e2) = drop-split i (f m) m.size xs s.0 in
        let ih = occurs-outside n (f m + m.size) ms xs s.2 in
        let c1 = occurs-++ g n (slice i (f m) xs) (outside (f m + m.size) ms xs) in
        let c2 = occurs-++ g n (take m.size (drop (f m) xs)) (inside ms xs) in
        let c3 = occurs-++ g n (slice i (f m) xs) (drop (f m) xs) in
        let c4 = occurs-++ g n (take m.size (drop (f m) xs)) (drop (f m + m.size) xs) in
        let d1 = ap (occurs g n) e1 in
        let d2 = ap (occurs g n) e2 in rw far (omega (arith, ih, c1, c2, c3, c4, d1, d2))

    Climbs-drop : (n lo : ℕ) (xs : List A) → Climbs g lo xs → Climbs g lo (drop n xs)
    unfolding drop
    Climbs-drop zero lo xs c = c
    Climbs-drop (suc n) lo [] c = tt
    Climbs-drop (suc n) lo (x ∷ xs) c =
        Climbs-mono g (drop n xs) (omega (arith, c.0)) (Climbs-drop n (suc (g x)) xs c.1)

    -- What comes behind a part can be made less.
    Climbs-less :
        (us vs ws : List A)
        → ((lo : ℕ) → Climbs g lo vs → Climbs g lo ws)
        → (lo : ℕ) → Climbs g lo (us ++ vs)
        → Climbs g lo (us ++ ws)
    Climbs-less [] vs ws k lo c = k lo c
    Climbs-less (u ∷ us) vs ws k lo c = (c.0, Climbs-less us vs ws k (suc (g u)) c.1)

    pub Climbs-inside :
        (i : ℕ) (ms : List Match) (xs : List A)
        → Steps f i (length xs) ms
        → (lo : ℕ) → Climbs g lo (drop i xs)
        → Climbs g lo (inside ms xs)
    unfolding inside
    Climbs-inside i [] xs s lo c = tt
    Climbs-inside i (m ∷ ms) xs s lo c =
        let (e1, e2) = drop-split i (f m) m.size xs s.0 in
        let d =
          subst (Climbs g lo) (drop-past i (f m) xs s.0) (Climbs-drop (f m - i) lo (drop i xs) c) in
        Climbs-less (take m.size (drop (f m) xs)) (drop (f m + m.size) xs) (inside ms xs)
          (Climbs-inside (f m + m.size) ms xs s.2) lo (subst (Climbs g lo) (sym e2) d)

occurs-view_indexes :
    (n : ℕ) (xs : List Row) → occurs self n (view_indexes xs) ≡ occurs Row.tv_index n xs
unfolding occurs
occurs-view_indexes n [] = refl
occurs-view_indexes n (x ∷ xs) = omega (arith, occurs-view_indexes n xs)

occurs-new_indexes :
    (n : ℕ) (xs : List Placed) → occurs self n (new_indexes xs) ≡ occurs Placed.tv_index n xs
unfolding occurs
occurs-new_indexes n [] = refl
occurs-new_indexes n (x ∷ xs) = omega (arith, occurs-new_indexes n xs)

-- What the loop over the blocks records lies between them.
pub occurs-unmatched :
    (n : ℕ) (a : List Row) (rows : List Placed) (i j : ℕ) (ms : List Match)
    → let r = unmatched a rows i j ms in
      (occurs self n r.0 ≡ occurs Row.tv_index n (outside Match.i i ms a))
      × (occurs self n r.1 ≡ occurs Placed.tv_index n (outside Match.j j ms rows))
unfolding unmatched outside occurs
occurs-unmatched n a rows i j [] = (refl, refl)
occurs-unmatched n a rows i j (m ∷ ms) =
    let i' = max i m.i + m.size in
    let j' = max j m.j + m.size in
    let r = unmatched a rows i' j' ms in
    let ih = occurs-unmatched n a rows i' j' ms in
    let old = slice i m.i a in
    let new = slice j m.j rows in
    (
      omega (
        arith,
        ih.0,
        occurs-++ self n (view_indexes old) r.0,
        occurs-view_indexes n old,
        occurs-++ Row.tv_index n old (outside Match.i i' ms a),
      ),
      omega (
        arith,
        ih.1,
        occurs-++ self n (new_indexes new) r.1,
        occurs-new_indexes n new,
        occurs-++ Placed.tv_index n new (outside Match.j j' ms rows),
      ),
    )
