-- ===== src/IndexSet/Chunks/Counts.antt =====
-- What `IndexSet::count` counts on the chunks of a set.
use realm_object_store.Base.{
  ℕ, suc, ◌+◌, ◌-◌, ◌<◌, ◌≤◌, ◌≡◌, refl, sym, ap, ◌∙◌, max, Bool, true, false, ◌||◌, List, [], ◌∷◌,
  ◌++◌, arith, ltb, leb, if◌then◌else◌, if_intro, Bool-cases, inl, inr, subst,
}
use realm_object_store.IndexSet.Ranges.{Range, member, Above, IsValid}
use realm_object_store.IndexSet.Iterator.{find, find_from}
use realm_object_store.IndexSet.Counting.{count_rest, count_found, count_ranges}
use realm_object_store.IndexSet.Counting.Below.{tally, count_ranges-tally}
use realm_object_store.IndexSet.Chunks.{Chunk, back_second, AllChunks, flat}
use realm_object_store.IndexSet.Chunks.Counting.{
  count_chunks, count_middle, count_at, count_in, count, Clear, ClearBehind,
}
use realm_object_store.IndexSet.Chunks.Wholes.{
  NextClear, count_middle_lem, count_chunks_lem, Above-behind, Above-back_second,
}

count_at_lem :
    (max_size : ℕ) (inside : Bool) (r : Range) (rs : List Range) (c : Chunk) (cs : List Chunk)
    (lo b e : ℕ)
    → AllChunks max_size (c ∷ cs)
    → Above lo (r ∷ rs ++ flat cs)
    → (0 < b → NextClear e cs)
    → (inside ≡ true → 0 < b)
    → (inside ≡ false → c.ranges ≡ r ∷ rs)
    → count_at inside (r ∷ rs) c cs b e ≡ count_found (r ∷ rs ++ flat cs) b e
unfolding count_at count_found flat count_rest
count_at_lem m inside r rs c cs lo b e k a n i f =
    let here = (r.second - max r.first b) + count_rest (rs ++ flat cs) e in
    let middle = (r.second - max r.first b) + count_middle rs cs e in
    let inner = ltb r.first b || inside in
    let late : leb e r.second ≡ false → (if inner then middle else count_chunks (c ∷ cs) e) ≡ here =
      λ h.
        if_intro (λ x. x ≡ here) inner middle (count_chunks (c ∷ cs) e)
          (λ y.
            ap (λ x. (r.second - max r.first b) + x)
              (count_middle_lem m rs cs (suc r.second) e k.1 a.2 (n (positive y))))
          (λ y. start h y) in
    ground (arith, late)
  where
    positive : (ltb r.first b || inside) ≡ true → 0 < b
    positive y = elim (Bool-cases inside) [ inl t ↦ i t | inr t ↦ ground arith ]

    start :
        leb e r.second ≡ false
        → (ltb r.first b || inside) ≡ false
        → count_chunks (c ∷ cs) e ≡ (r.second - max r.first b) + count_rest (rs ++ flat cs) e
    start h y =
        let same : c.ranges ≡ r ∷ rs = f (ground arith) in
        let all : count_chunks (c ∷ cs) e ≡ count_rest (r ∷ rs ++ flat cs) e =
          count_chunks_lem m (c ∷ cs) lo e k (subst (λ xs. Above lo (xs ++ flat cs)) (sym same) a)
          ∙ ap (λ xs. count_rest (xs ++ flat cs) e) same in
        all ∙ ground arith

rest-find_from :
    (b : ℕ) (ps qs rs : List Range) → (find_from b ps rs).rest ≡ (find_from b qs rs).rest
unfolding find_from
rest-find_from b ps qs [] = refl
rest-find_from b ps qs (r ∷ rs) = ground (arith, rest-find_from b (r ∷ ps) (r ∷ qs) rs)

count_in_lem :
    (max_size : ℕ) (inside : Bool) (rs : List Range) (c : Chunk) (cs : List Chunk) (lo b e : ℕ)
    → AllChunks max_size (c ∷ cs)
    → Above lo (rs ++ flat cs)
    → b < back_second rs
    → (0 < b → NextClear e cs)
    → (inside ≡ true → 0 < b)
    → (inside ≡ false → c.ranges ≡ rs)
    → count_in inside rs c cs b e ≡ count_found (find_from b [] (rs ++ flat cs)).rest b e
unfolding count_in find_from
count_in_lem m inside [] c cs lo b e k a l n i f = absurd (omega (arith, l))
count_in_lem m inside (r ∷ []) c cs lo b e k a l n i f = elim (Bool-cases (leb r.second b)) [
  | inl h ↦ absurd (ground arith)
  | inr h ↦ rw h (count_at_lem m inside r [] c cs lo b e k a n i f)
]
count_in_lem m inside (r ∷ q ∷ rs) c cs lo b e k a l n i f = elim (Bool-cases (leb r.second b)) [
  | inl h ↦
      let p : 0 < b = ground arith in
      rw (h, rest-find_from b (r ∷ []) [] (q ∷ rs ++ flat cs))
        (count_in_lem m true (q ∷ rs) c cs (suc r.second) b e k a.2 l n (λ _. p) (λ x. cc))
  | inr h ↦ rw h (count_at_lem m inside r (q ∷ rs) c cs lo b e k a n i f)
]

-- A list of ranges that end by the index is passed over.
skip :
    (b : ℕ) (rs qs : List Range) (lo : ℕ)
    → Above lo (rs ++ qs)
    → back_second rs ≤ b
    → (find_from b [] (rs ++ qs)).rest ≡ (find_from b [] qs).rest
unfolding find_from
skip b [] qs lo a h = refl
skip b (r ∷ []) qs lo a h = ground (arith, rest-find_from b (r ∷ []) [] qs)
skip b (r ∷ q ∷ rs) qs lo a h =
    let below : r.second ≤ b = omega (arith, Above-back_second r.second q rs qs a.2, h) in
    ground (
      arith,
      below,
      rest-find_from b (r ∷ []) [] (q ∷ rs ++ qs),
      skip b (q ∷ rs) qs (suc r.second) a.2 h,
    )

Clear-next : (e : ℕ) (cs : List Chunk) → Clear e cs → NextClear e cs
Clear-next e [] h = tt
Clear-next e (c ∷ cs) h = h.0

Clear-behind : (e : ℕ) (cs : List Chunk) → Clear e cs → ClearBehind e cs
Clear-behind e [] h = tt
Clear-behind e (c ∷ cs) h = h.1

count_lem :
    (max_size : ℕ) (cs : List Chunk) (lo b e : ℕ)
    → AllChunks max_size cs
    → Above lo (flat cs)
    → (0 < b → ClearBehind e cs)
    → count cs b e ≡ count_found (find_from b [] (flat cs)).rest b e
unfolding count flat count_found find_from
count_lem m [] lo b e k a n = refl
count_lem m (c ∷ cs) lo b e k a n =
    let (hi, up) = Above-behind c.ranges (flat cs) lo a in
    if_intro (λ x. x ≡ count_found (find_from b [] (c.ranges ++ flat cs)).rest b e) (leb c.end b)
      (count cs b e) (count_in false c.ranges c cs b e)
      (λ h.
        count_lem m cs hi b e k.1 up (λ p. Clear-behind e cs (n p))
        ∙ ap (λ rs. count_found rs b e)
            (sym (skip b c.ranges (flat cs) lo a (ground (arith, k.0.ends)))))
      (λ h.
        count_in_lem m false c.ranges c cs lo b e k a (ground (arith, k.0.ends))
          (λ p. Clear-next e cs (n p)) (λ x. cc) (λ _. refl))

-- In chunks as `verify` asks, `count` is the number of the indexes from the start on that are in the
-- set, where it starts at 0, or no chunk but the first starts with a range that has the last of them.
pub count-tally :
    (max_size : ℕ) (cs : List Chunk) (b n : ℕ)
    → AllChunks max_size cs
    → IsValid (flat cs)
    → (0 < b → ClearBehind (b + n) cs)
    → count cs b (b + n) ≡ tally (member (flat cs)) b n
unfolding count_ranges find
count-tally m cs b n k v h = count_lem m cs 0 b (b + n) k v h ∙ count_ranges-tally (flat cs) b n v
