-- ===== src/IndexSet/Chunks/Pushing.antt =====
-- `push_back` adds a range behind all others, in the last chunk if it has space.
use mathlib.Core.List.{append_assoc, append-nil}
use realm_object_store.Base.{
  ℕ, ◌<◌, ◌≡◌, refl, ◌∙◌, sym, ap, List, [], ◌∷◌, ◌++◌, length, ltb, arith, if_intro,
}
use realm_object_store.IndexSet.Ranges.{Range}
use realm_object_store.IndexSet.Chunks.{
  Chunk, front_first, widths, IsChunk, AllChunks, single, extended, push_chunk, flat,
}
use realm_object_store.IndexSet.Chunks.Lists.{length-++, widths-++, back_second-++}

single-IsChunk : (max_size : ℕ) (v : Range) → 0 < max_size → IsChunk max_size (single v)
unfolding widths
single-IsChunk max_size v h = record {
  not_empty = omega arith;
  fits = omega (arith, h);
  begins = refl;
  ends = refl;
  counts = omega arith;
}

front_first-++ : (rs qs : List Range) → 0 < length rs → front_first (rs ++ qs) ≡ front_first rs
front_first-++ [] qs h = absurd (omega (arith, h))
front_first-++ (r ∷ rs) qs h = refl

extended-IsChunk :
    (max_size : ℕ) (c : Chunk) (v : Range)
    → IsChunk max_size c
    → length c.ranges < max_size
    → IsChunk max_size (extended c v)
unfolding widths
extended-IsChunk max_size c v k h = record {
  not_empty = omega (arith, length-++ c.ranges (v ∷ []));
  fits = omega (arith, length-++ c.ranges (v ∷ []), h);
  begins = k.begins ∙ sym (front_first-++ c.ranges (v ∷ []) k.not_empty);
  ends = sym (back_second-++ c.ranges v []);
  counts = omega (arith, widths-++ c.ranges (v ∷ []), k.counts);
}

-- The chunks are as `verify` asks and not too large, and their ranges are the old ones and the new.
abbrev Pushed : ℕ → List Chunk → Range → List Chunk → Type 0
Pushed max_size cs v ds = AllChunks max_size ds × (flat ds ≡ flat cs ++ v ∷ [])

pub push_chunk-Pushed :
    (max_size : ℕ) (cs : List Chunk) (v : Range)
    → 0 < max_size
    → AllChunks max_size cs
    → Pushed max_size cs v (push_chunk max_size cs v)
unfolding push_chunk flat
push_chunk-Pushed max_size [] v h a = ((single-IsChunk max_size v h, tt), refl)
push_chunk-Pushed max_size (c ∷ []) v h a =
    if_intro (Pushed max_size (c ∷ []) v) (ltb (length c.ranges) max_size) _ _
      (λ e. (
        (extended-IsChunk max_size c v a.0 (ground (arith, e)), tt),
        append-nil (c.ranges ++ v ∷ []) ∙ sym (ap (λ r. r ++ v ∷ []) (append-nil c.ranges)),
      ))
      (λ e. (
        (a.0, (single-IsChunk max_size v h, tt)),
        sym (ap (λ r. r ++ v ∷ []) (append-nil c.ranges)),
      ))
push_chunk-Pushed max_size (c ∷ d ∷ cs) v h a =
    let (b, e) = push_chunk-Pushed max_size (d ∷ cs) v h a.1 in
    ((a.0, b), ap (λ r. c.ranges ++ r) e ∙ sym (append_assoc c.ranges (flat (d ∷ cs)) (v ∷ [])))
