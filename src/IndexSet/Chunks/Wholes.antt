-- ===== src/IndexSet/Chunks/Wholes.antt =====
-- What the loops of `IndexSet::count` over whole chunks and over the rest of a chunk count.
use realm_object_store.Base.{
  ℕ, suc, ◌+◌, ◌<◌, ◌≤◌, ◌≡◌, refl, sym, ◌∙◌, List, [], ◌∷◌, ◌++◌, arith, ltb, leb, if_intro,
  Bool-cases, inl, inr, length,
}
use realm_object_store.IndexSet.Ranges.{Range, Above}
use realm_object_store.IndexSet.Counting.{count_rest}
use realm_object_store.IndexSet.Counting.Below.{count_rest-below, below-Above}
use realm_object_store.IndexSet.Chunks.{Chunk, front_first, back_second, widths, AllChunks, flat}
use realm_object_store.IndexSet.Chunks.Counting.{
  count_chunks, front_second, next_chunks, count_middle,
}

pub Above-back_second :
    (lo : ℕ) (q : Range) (rs qs : List Range)
    → Above (suc lo) (q ∷ rs ++ qs)
    → lo < back_second (q ∷ rs)
Above-back_second lo q [] qs a = omega (arith, a.0, a.1)
Above-back_second lo q (s ∷ rs) qs a =
    omega (arith, a.0, a.1, Above-back_second q.second s rs qs a.2)

-- The last range of a list ends by a bound: all do, and count as a whole.
whole :
    (rs qs : List Range) (lo e : ℕ)
    → Above lo (rs ++ qs)
    → back_second rs ≤ e
    → widths rs + count_rest qs e ≡ count_rest (rs ++ qs) e
unfolding widths count_rest
whole [] qs lo e a h = omega arith
whole (r ∷ []) qs lo e a h = ground arith
whole (r ∷ q ∷ rs) qs lo e a h =
    ground (arith, whole (q ∷ rs) qs (suc r.second) e a.2 h, Above-back_second r.second q rs qs a.2)

pub Above-behind : (rs qs : List Range) (lo : ℕ) → Above lo (rs ++ qs) → (hi : ℕ) × Above hi qs
Above-behind [] qs lo a = (lo, a)
Above-behind (r ∷ rs) qs lo a = Above-behind rs qs (suc r.second) a.2

-- Counting whole chunks is counting their ranges.
pub count_chunks_lem :
    (max_size : ℕ) (cs : List Chunk) (lo e : ℕ)
    → AllChunks max_size cs
    → Above lo (flat cs)
    → count_chunks cs e ≡ count_rest (flat cs) e
unfolding count_chunks flat
count_chunks_lem m [] lo e k a = refl
count_chunks_lem m (c ∷ cs) lo e k a =
    let (hi, b) = Above-behind c.ranges (flat cs) lo a in
    if_intro (λ n. n ≡ count_rest (c.ranges ++ flat cs) e) (leb c.end e)
      (c.count + count_chunks cs e) (count_rest (c.ranges ++ flat cs) e)
      (λ h.
        rw (k.0.counts, count_chunks_lem m cs hi e k.1 b)
          (whole c.ranges (flat cs) lo e a (ground (arith, k.0.ends))))
      (λ _. refl)

count_rest-Above : (rs : List Range) (lo e : ℕ) → Above lo rs → e ≤ lo → count_rest rs e ≡ 0
count_rest-Above rs lo e a h = count_rest-below rs lo e a ∙ below-Above rs lo e a h

nothing :
    (rs qs : List Range) (lo e : ℕ)
    → 0 < length rs
    → Above lo (rs ++ qs)
    → e ≤ front_first rs
    → count_rest (rs ++ qs) e ≡ 0
nothing [] qs lo e l a h = absurd (omega (arith, l))
nothing (r ∷ rs) qs lo e l a h = count_rest-Above (r ∷ rs ++ qs) r.first e (omega arith, a.1, a.2) h

-- The next chunk does not start with a range that has the index before the end index.
abbrev pub NextClear : ℕ → List Chunk → Type 0
NextClear e [] = Unit {0}
NextClear e (c ∷ cs) = front_first c.ranges < e → front_second c.ranges < e

next_chunks_lem :
    (max_size : ℕ) (cs : List Chunk) (lo e : ℕ)
    → AllChunks max_size cs
    → Above lo (flat cs)
    → NextClear e cs
    → next_chunks cs e ≡ count_rest (flat cs) e
unfolding flat count_rest
next_chunks_lem m [] lo e k a n = refl
next_chunks_lem m (c ∷ cs) lo e k a n =
    if_intro (λ x. x ≡ count_rest (c.ranges ++ flat cs) e) (leb e (front_second c.ranges)) 0
      (count_chunks (c ∷ cs) e)
      (λ h. sym (
        nothing c.ranges (flat cs) lo e k.0.not_empty a
          (elim (Bool-cases (ltb (front_first c.ranges) e)) [
            | inl y ↦ absurd (let z = n (ground arith) in ground arith)
            | inr y ↦ ground arith
          ])))
      (λ _. count_chunks_lem m (c ∷ cs) lo e k a)

pub count_middle_lem :
    (max_size : ℕ) (rs : List Range) (cs : List Chunk) (lo e : ℕ)
    → AllChunks max_size cs
    → Above lo (rs ++ flat cs)
    → NextClear e cs
    → count_middle rs cs e ≡ count_rest (rs ++ flat cs) e
unfolding count_middle count_rest
count_middle_lem m [] cs lo e k a n = next_chunks_lem m cs lo e k a n
count_middle_lem m (r ∷ rs) cs lo e k a n = ground (
  arith,
  count_middle_lem m rs cs (suc r.second) e k a.2 n,
  count_rest-Above (rs ++ flat cs) (suc r.second) e a.2,
)
