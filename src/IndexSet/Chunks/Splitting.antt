-- ===== src/IndexSet/Chunks/Splitting.antt =====
-- `ensure_space` and `insert` leave the ranges in their order, and every chunk as `verify` asks.
use mathlib.Core.List.{append_assoc}
use realm_object_store.Base.{
  ℕ, zero, suc, ◌+◌, ◌-◌, ◌*◌, ◌/◌, ◌<◌, ◌≤◌, ◌≡◌, refl, ◌∙◌, sym, ap, subst, min, max, List, [],
  ◌∷◌, ◌++◌, length, leb, arith, if_intro,
}
use realm_object_store.IndexSet.Ranges.{Range, Above, IsValid}
use realm_object_store.IndexSet.Chunks.{
  Chunk, front_first, back_second, widths, IsChunk, AllChunks, take, drop, Position, kept_half,
  moved_half, ensure_space, with_range, insert_range, flat, flat_before, ranges_before, ranges_from,
}
use realm_object_store.IndexSet.Chunks.Lists.{
  take-drop, length-take, length-drop, length-++, take-take, drop-take, take-past, drop-past,
  take_exact, drop_exact, widths-++, back_second-++,
}

pub record IsPosition (max_size : ℕ) (p : Position) : Type 0 where
  pub before_chunks : AllChunks max_size p.before
  pub at_chunk : IsChunk max_size p.chunk
  pub after_chunks : AllChunks max_size p.after
  pub in_chunk : p.offset < length p.chunk.ranges

front_first-take : (n : ℕ) (rs : List Range) → 0 < n → front_first (take n rs) ≡ front_first rs
unfolding take
front_first-take zero rs h = absurd (omega (arith, h))
front_first-take (suc n) [] h = refl
front_first-take (suc n) (r ∷ rs) h = refl

widths_cut : (n : ℕ) (rs : List Range) → widths rs ≡ widths (take n rs) + widths (drop n rs)
widths_cut n rs = sym (ap widths (take-drop n rs)) ∙ widths-++ (take n rs) (drop n rs)

-- The halves of a full chunk of `2 * half` ranges.
module _ (half : ℕ) (c : Chunk) (h : 0 < half) (k : IsChunk (2 * half) c)
    (full : length c.ranges ≡ 2 * half) where
  kept : length c.ranges - half ≡ half
  kept = omega (arith, full)

  kept_half-IsChunk : IsChunk (2 * half) (kept_half half c)
  kept_half-IsChunk =
      let len = length-take half c.ranges (omega (arith, full)) in
      rw kept (record {
        not_empty = omega (arith, len, h);
        fits = omega (arith, len, h);
        begins = k.begins ∙ sym (front_first-take half c.ranges h);
        ends = refl;
        counts = omega (arith, k.counts, widths_cut half c.ranges);
      })

  moved_half-IsChunk : IsChunk (2 * half) (moved_half half c)
  moved_half-IsChunk =
      let len = length-drop half c.ranges in
      rw kept (record {
        not_empty = omega (arith, len, full, h);
        fits = omega (arith, len, full, h);
        begins = refl;
        ends = refl;
        counts = refl;
      })

-- A position in the same place of the same ranges.
record Same (max_size : ℕ) (p q : Position) : Type 0 where
  is_position : IsPosition max_size q
  same_before : ranges_before q ≡ ranges_before p
  same_from : ranges_from q ≡ ranges_from p
  has_space : length q.chunk.ranges < max_size

module _ (half : ℕ) (p : Position) (h : 0 < half) (k : IsPosition (2 * half) p) where
  halved : 2 * half / 2 ≡ half
  halved = omega arith

  split_after :
      length p.chunk.ranges ≡ 2 * half
      → half ≤ p.offset
      → Same (2 * half) p (record {
        before = kept_half half p.chunk ∷ p.before;
        chunk = moved_half half p.chunk;
        after = p.after;
        offset = p.offset - half;
      })
  unfolding flat_before
  split_after f le = record {
    is_position = record {
      before_chunks = (kept_half-IsChunk half p.chunk h k.at_chunk f, k.before_chunks);
      at_chunk = moved_half-IsChunk half p.chunk h k.at_chunk f;
      after_chunks = k.after_chunks;
      in_chunk =
          rw (kept half p.chunk h k.at_chunk f)
            (omega (arith, length-drop half p.chunk.ranges, k.in_chunk, f, le));
    };
    same_before = rw (kept half p.chunk h k.at_chunk f) (
        append_assoc (flat_before p.before) (take half p.chunk.ranges)
          (take (p.offset - half) (drop half p.chunk.ranges))
        ∙ ap (λ r. flat_before p.before ++ r) (take-past half p.offset p.chunk.ranges le));
    same_from =
        rw (kept half p.chunk h k.at_chunk f)
          (ap (λ r. r ++ flat p.after) (drop-past half p.offset p.chunk.ranges le));
    has_space =
        rw (kept half p.chunk h k.at_chunk f)
          (omega (arith, length-drop half p.chunk.ranges, f, h));
  }

  split_before :
      length p.chunk.ranges ≡ 2 * half
      → p.offset < half
      → Same
          (2 * half)
          p
          (record p { chunk = kept_half half p.chunk; after = moved_half half p.chunk ∷ p.after })
  unfolding flat
  split_before f le = record {
    is_position = record {
      before_chunks = k.before_chunks;
      at_chunk = kept_half-IsChunk half p.chunk h k.at_chunk f;
      after_chunks = (moved_half-IsChunk half p.chunk h k.at_chunk f, k.after_chunks);
      in_chunk =
          rw (kept half p.chunk h k.at_chunk f)
            (omega (arith, length-take half p.chunk.ranges, f, le));
    };
    same_before = rw (kept half p.chunk h k.at_chunk f) (
        ap (λ r. flat_before p.before ++ r)
          (take-take p.offset half p.chunk.ranges (omega (arith, le))));
    same_from = rw (kept half p.chunk h k.at_chunk f) (
        sym (
          append_assoc (drop p.offset (take half p.chunk.ranges)) (drop half p.chunk.ranges)
            (flat p.after))
        ∙ ap (λ r. r ++ flat p.after) (drop-take p.offset half p.chunk.ranges (omega (arith, le))));
    has_space =
        rw (kept half p.chunk h k.at_chunk f)
          (omega (arith, length-take half p.chunk.ranges, f, h));
  }

  ensure_space-Same : Same (2 * half) p (ensure_space (2 * half) p)
  unfolding ensure_space
  ensure_space-Same =
      if_intro (Same (2 * half) p) (leb (length p.chunk.ranges + 1) (2 * half)) _ _
        (λ e. record {
          is_position = k;
          same_before = refl;
          same_from = refl;
          has_space = ground (arith, e);
        })
        (λ e.
          let full : length p.chunk.ranges ≡ 2 * half = ground (arith, e, k.at_chunk.fits) in
          rw halved (
            if_intro (Same (2 * half) p) (leb half p.offset) _ _
              (λ f. split_after full (ground (arith, f)))
              (λ f. split_before full (ground (arith, f)))))

Above-at :
    (rs : List Range) (v : Range) (qs : List Range) (lo : ℕ)
    → Above lo (rs ++ v ∷ qs)
    → (lo ≤ v.first) × (v.first < v.second) × Above (suc v.second) qs
Above-at [] v qs lo a = a
Above-at (r ∷ rs) v qs lo a =
    let (b, c, d) = Above-at rs v qs (suc r.second) a.2 in (omega (arith, a.0, a.1, b), c, d)

Above-back : (r : Range) (rs : List Range) (lo : ℕ) → Above lo (r ∷ rs) → lo ≤ back_second (r ∷ rs)
Above-back r [] lo a = omega (arith, a.0, a.1)
Above-back r (q ∷ rs) lo a = omega (arith, a.0, a.1, Above-back q rs (suc r.second) a.2)

Above-parts :
    (rs qs : List Range) (lo : ℕ) → Above lo (rs ++ qs) → Above lo rs × ((hi : ℕ) × Above hi qs)
Above-parts [] qs lo a = (tt, (lo, a))
Above-parts (r ∷ rs) qs lo a =
    let (b, c) = Above-parts rs qs (suc r.second) a.2 in ((a.0, a.1, b), c)

placed_front :
    (o : ℕ) (rs : List Range) (v : Range) (lo : ℕ)
    → o < length rs
    → Above lo (take o rs ++ v ∷ drop o rs)
    → min (front_first rs) v.first ≡ front_first (take o rs ++ v ∷ drop o rs)
unfolding take drop
placed_front o [] v lo i a = absurd (omega (arith, i))
placed_front zero (r ∷ rs) v lo i a = omega (arith, a.1, a.2)
placed_front (suc o) (r ∷ rs) v lo i a =
    omega (arith, a.1, Above-at (take o rs) v (drop o rs) (suc r.second) a.2)

placed_back :
    (o : ℕ) (rs : List Range) (v : Range) (lo : ℕ)
    → o < length rs
    → Above lo (take o rs ++ v ∷ drop o rs)
    → max (back_second rs) v.second ≡ back_second (take o rs ++ v ∷ drop o rs)
unfolding take drop
placed_back o [] v lo i a = absurd (omega (arith, i))
placed_back zero (r ∷ rs) v lo i a = omega (arith, Above-back r rs (suc v.second) a.2)
placed_back (suc o) (r ∷ []) v lo i a = absurd (omega (arith, i))
placed_back (suc o) (r ∷ s ∷ rs) v lo i a =
    placed_back o (s ∷ rs) v (suc r.second) (omega (arith, i)) a.2
    ∙ back_second-++ (take o (s ∷ rs)) v (drop o (s ∷ rs))
    ∙ sym (back_second-++ (r ∷ take o (s ∷ rs)) v (drop o (s ∷ rs)))

-- A chunk that takes a range in the place where it belongs.
module _ (c : Chunk) (max_size o : ℕ) (v : Range) (k : IsChunk max_size c)
    (i : o < length c.ranges) where
  with_range-IsChunk :
      length c.ranges < max_size
      → (lo : ℕ) → Above lo (take o c.ranges ++ v ∷ drop o c.ranges)
      → IsChunk max_size (with_range c o v)
  unfolding widths
  with_range-IsChunk f lo a = record {
    not_empty = omega (arith, length-++ (take o c.ranges) (v ∷ drop o c.ranges));
    fits = omega (
      arith,
      length-++ (take o c.ranges) (v ∷ drop o c.ranges),
      length-take o c.ranges (omega (arith, i)),
      length-drop o c.ranges,
      f,
      i,
    );
    begins = ap (λ b. min b v.first) k.begins ∙ placed_front o c.ranges v lo i a;
    ends = ap (λ e. max e v.second) k.ends ∙ placed_back o c.ranges v lo i a;
    counts =
        omega (
          arith,
          widths-++ (take o c.ranges) (v ∷ drop o c.ranges),
          widths_cut o c.ranges,
          k.counts,
        );
  }

  with_range-before : take o (with_range c o v).ranges ≡ take o c.ranges
  with_range-before = take_exact o c.ranges (v ∷ drop o c.ranges) (omega (arith, i))

  with_range-from : drop o (with_range c o v).ranges ≡ v ∷ drop o c.ranges
  with_range-from = drop_exact o c.ranges (v ∷ drop o c.ranges) (omega (arith, i))

module _ (half : ℕ) (p : Position) (v : Range) (h : 0 < half) (k : IsPosition (2 * half) p) where
  -- The ranges of the chunk at the position, with the new one, are in order.
  chunk_ordered :
      (q : Position)
      → Above 0 (ranges_before q ++ v ∷ ranges_from q)
      → (lo : ℕ) × Above lo (take q.offset q.chunk.ranges ++ v ∷ drop q.offset q.chunk.ranges)
  chunk_ordered q a =
      let t = take q.offset q.chunk.ranges in
      let d = drop q.offset q.chunk.ranges in
      let whole : Above 0 (flat_before q.before ++ (t ++ v ∷ (d ++ flat q.after))) =
        subst (Above 0) (append_assoc (flat_before q.before) t (v ∷ (d ++ flat q.after))) a in
      let (lo, b) = (Above-parts (flat_before q.before) (t ++ v ∷ (d ++ flat q.after)) 0 whole).1 in
      let part : Above lo ((t ++ v ∷ d) ++ flat q.after) =
        subst (Above lo) (sym (append_assoc t (v ∷ d) (flat q.after))) b in
      (lo, (Above-parts (t ++ v ∷ d) (flat q.after) lo part).0)

  -- For chunks of an even number of ranges, all as `verify` asks, and a range whose place among the
  -- ranges is before the iterator, `insert` puts it there, whether it splits the chunk or not: the
  -- ranges before it and those from the iterator on are as they were, it is where the iterator points,
  -- and all chunks are as `verify` asks and not too large.
  pub insert_range-IsPosition :
      IsValid (ranges_before p ++ v ∷ ranges_from p)
      → let q = insert_range (2 * half) p v in
        IsPosition (2 * half) q
        × (ranges_before q ≡ ranges_before p)
        × (ranges_from q ≡ v ∷ ranges_from p)
  unfolding insert_range
  insert_range-IsPosition a =
      let q = ensure_space (2 * half) p in
      let s = ensure_space-Same half p h k in
      let i = s.is_position.in_chunk in
      let (lo, b) = chunk_ordered q (rw (s.same_before, s.same_from) a) in
      (
        record {
          before_chunks = s.is_position.before_chunks;
          at_chunk =
              with_range-IsChunk q.chunk (2 * half) q.offset v s.is_position.at_chunk i s.has_space
                lo b;
          after_chunks = s.is_position.after_chunks;
          in_chunk = omega (
            arith,
            length-++ (take q.offset q.chunk.ranges) (v ∷ drop q.offset q.chunk.ranges),
            length-take q.offset q.chunk.ranges (omega (arith, i)),
          );
        },
        ap (λ r. flat_before q.before ++ r)
              (with_range-before q.chunk (2 * half) q.offset v s.is_position.at_chunk i)
            ∙ s.same_before,
        ap (λ r. r ++ flat q.after)
              (with_range-from q.chunk (2 * half) q.offset v s.is_position.at_chunk i)
            ∙ ap (λ r. v ∷ r) s.same_from,
      )
