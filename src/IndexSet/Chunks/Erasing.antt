-- ===== src/IndexSet/Chunks/Erasing.antt =====
-- `erase` of `ChunkedRangeVector`: a range is taken out of its chunk, and an empty chunk out of the
-- chunks.
use mathlib.Core.List.{append-nil}
use realm_object_store.Base.{
  ℕ, zero, suc, ◌+◌, ◌-◌, ◌<◌, ◌≤◌, ◌≡◌, refl, ◌∙◌, sym, ap, List, [], ◌∷◌, ◌++◌, length, ltb, ◌==◌,
  ==→eq, arith, if◌then◌else◌, if_intro,
}
use realm_object_store.IndexSet.Ranges.{Range, width}
use realm_object_store.IndexSet.Chunks.{
  Chunk, front_first, back_second, widths, IsChunk, AllChunks, take, drop, Position, flat,
  flat_before, ranges_before, ranges_from,
}
use realm_object_store.IndexSet.Chunks.Lists.{
  take-drop, length-take, length-drop, length-++, take_exact, drop_exact, widths-++,
}
use realm_object_store.IndexSet.Chunks.Splitting.{IsPosition}

-- An iterator: the end of the chunks, or a position.
pub data Cursor : Type 0 where
  ended : List Chunk → Cursor
  stands : Position → Cursor

-- The front of the next chunk, if there is one.
abbrev next_chunk : List Chunk → List Chunk → Cursor
next_chunk before [] = ended before
next_chunk before (c ∷ cs) = stands (record { before = before; chunk = c; after = cs; offset = 0 })

-- A chunk without the range at an offset.
abbrev without : Chunk → ℕ → Chunk
without c o =
    let rest = take o c.ranges ++ drop (suc o) c.ranges in
    record {
      ranges = rest;
      begin = front_first rest;
      end = back_second rest;
      count = c.count - widths (take 1 (drop o c.ranges));
    }

-- `erase`
unfoldable pub erase_range : Position → Cursor
unfolding widths take drop
erase_range p =
    let c = without p.chunk p.offset in
    if length c.ranges == 0
    then next_chunk p.before p.after
    else if ltb p.offset (length c.ranges)
    then stands (record p { chunk = c })
    else next_chunk (c ∷ p.before) p.after

-- The cursor is in chunks as `verify` asks, and has the given ranges before and from it.
abbrev pub At : ℕ → Cursor → List Range → List Range → Type 0
At max_size (ended cs) bs fs = AllChunks max_size cs × (flat_before cs ≡ bs) × (fs ≡ [])
At max_size (stands p) bs fs = IsPosition max_size p × (ranges_before p ≡ bs) × (ranges_from p ≡ fs)

next_chunk-At :
    (max_size : ℕ) (before after : List Chunk)
    → AllChunks max_size before
    → AllChunks max_size after
    → At max_size (next_chunk before after) (flat_before before) (flat after)
unfolding flat take drop
next_chunk-At max_size before [] a b = (a, refl, refl)
next_chunk-At max_size before (c ∷ cs) a b = (
  record { before_chunks = a; at_chunk = b.0; after_chunks = b.1; in_chunk = b.0.not_empty },
  append-nil (flat_before before),
  refl,
)

nil_of {ℓ} : {A : Type ℓ} (xs : List A) → length xs ≡ 0 → xs ≡ []
nil_of [] h = refl
nil_of (x ∷ xs) h = absurd (omega (arith, h))

-- The range at an offset.
drop_at {ℓ} :
    {A : Type ℓ} (o : ℕ) (xs : List A) → o < length xs → (x : A) × (drop o xs ≡ x ∷ drop (suc o) xs)
unfolding drop
drop_at o [] h = absurd (omega (arith, h))
drop_at zero (x ∷ xs) h = (x, refl)
drop_at (suc o) (x ∷ xs) h = drop_at o xs (omega (arith, h))

module _ (max_size : ℕ) (c : Chunk) (o : ℕ) (k : IsChunk max_size c) (i : o < length c.ranges) where
  length-without : suc (length (without c o).ranges) ≡ length c.ranges
  length-without = omega (
    arith,
    length-++ (take o c.ranges) (drop (suc o) c.ranges),
    length-take o c.ranges (omega (arith, i)),
    length-drop (suc o) c.ranges,
    i,
  )

  count-without : widths c.ranges ≡ widths (take 1 (drop o c.ranges)) + widths (without c o).ranges
  unfolding widths take
  count-without =
      let (x, e) = drop_at o c.ranges i in
      let one : widths (take 1 (drop o c.ranges)) ≡ width x = rw e (omega arith) in
      let rest : widths (drop o c.ranges) ≡ width x + widths (drop (suc o) c.ranges) =
        ap widths e in
      omega (
        arith,
        sym (ap widths (take-drop o c.ranges)) ∙ widths-++ (take o c.ranges) (drop o c.ranges),
        widths-++ (take o c.ranges) (drop (suc o) c.ranges),
        one,
        rest,
      )

  without-IsChunk : 0 < length (without c o).ranges → IsChunk max_size (without c o)
  without-IsChunk h = record {
    not_empty = h;
    fits = omega (arith, length-without, k.fits);
    begins = refl;
    ends = refl;
    counts = omega (arith, k.counts, count-without);
  }

-- What is behind the range that is taken out.
behind :
    (o : ℕ) (xs fs : List Range) → o < length xs → drop 1 (drop o xs ++ fs) ≡ drop (suc o) xs ++ fs
unfolding drop
behind o xs fs h = let (x, e) = drop_at o xs h in ap (λ r. drop 1 (r ++ fs)) e

along_equal_lists :
    (max_size : ℕ) (c : Cursor) (bs bs' fs fs' : List Range)
    → bs ≡ bs'
    → fs ≡ fs'
    → At max_size c bs fs
    → At max_size c bs' fs'
along_equal_lists max_size (ended cs) bs bs' fs fs' e f a = (a.0, a.1 ∙ e, sym f ∙ a.2)
along_equal_lists max_size (stands p) bs bs' fs fs' e f a = (a.0, a.1 ∙ e, a.2 ∙ f)

module _ (max_size : ℕ) (p : Position) (k : IsPosition max_size p) where
  abbrev left : Chunk
  left = without p.chunk p.offset

  abbrev Erased : Cursor → Type 0
  Erased c = At max_size c (ranges_before p) (drop 1 (ranges_from p))

  counted : suc (length left.ranges) ≡ length p.chunk.ranges
  counted = length-without max_size p.chunk p.offset k.at_chunk k.in_chunk

  taken : length (take p.offset p.chunk.ranges) ≡ p.offset
  taken = length-take p.offset p.chunk.ranges (omega (arith, k.in_chunk))

  rest_from : drop 1 (ranges_from p) ≡ drop (suc p.offset) p.chunk.ranges ++ flat p.after
  rest_from = behind p.offset p.chunk.ranges (flat p.after) k.in_chunk

  -- With nothing behind it in its chunk.
  last_from : drop (suc p.offset) p.chunk.ranges ≡ [] → flat p.after ≡ drop 1 (ranges_from p)
  last_from e = sym (rest_from ∙ ap (λ r. r ++ flat p.after) e)

  erase_only : length left.ranges ≡ 0 → Erased (next_chunk p.before p.after)
  erase_only e =
      let none_before = nil_of (take p.offset p.chunk.ranges) (
        omega (
          arith,
          taken,
          e,
          length-++ (take p.offset p.chunk.ranges) (drop (suc p.offset) p.chunk.ranges),
        )) in
      let none_behind = nil_of (drop (suc p.offset) p.chunk.ranges) (
        omega (
          arith,
          e,
          length-++ (take p.offset p.chunk.ranges) (drop (suc p.offset) p.chunk.ranges),
        )) in
      along_equal_lists max_size (next_chunk p.before p.after) (flat_before p.before)
        (ranges_before p) (flat p.after) (drop 1 (ranges_from p))
        (sym (ap (λ r. flat_before p.before ++ r) none_before ∙ append-nil (flat_before p.before)))
        (last_from none_behind)
        (next_chunk-At max_size p.before p.after k.before_chunks k.after_chunks)

  erase_inside : p.offset < length left.ranges → Erased (stands (record p { chunk = left }))
  erase_inside h = (
    record {
      before_chunks = k.before_chunks;
      at_chunk = without-IsChunk max_size p.chunk p.offset k.at_chunk k.in_chunk (omega (arith, h));
      after_chunks = k.after_chunks;
      in_chunk = h;
    },
    ap (λ r. flat_before p.before ++ r)
        (take_exact p.offset p.chunk.ranges (drop (suc p.offset) p.chunk.ranges)
          (omega (arith, k.in_chunk))),
    ap (λ r. r ++ flat p.after)
          (drop_exact p.offset p.chunk.ranges (drop (suc p.offset) p.chunk.ranges)
            (omega (arith, k.in_chunk)))
        ∙ sym rest_from,
  )

  erase_last :
      0 < length left.ranges
      → length left.ranges ≤ p.offset
      → Erased (next_chunk (left ∷ p.before) p.after)
  unfolding flat_before
  erase_last h le =
      let none_behind =
        nil_of (drop (suc p.offset) p.chunk.ranges)
          (omega (arith, le, counted, length-drop (suc p.offset) p.chunk.ranges)) in
      let same : left.ranges ≡ take p.offset p.chunk.ranges =
        ap (λ r. take p.offset p.chunk.ranges ++ r) none_behind
        ∙ append-nil (take p.offset p.chunk.ranges) in
      along_equal_lists max_size (next_chunk (left ∷ p.before) p.after)
        (flat_before (left ∷ p.before)) (ranges_before p) (flat p.after) (drop 1 (ranges_from p))
        (ap (λ r. flat_before p.before ++ r) same) (last_from none_behind)
        (next_chunk-At max_size (left ∷ p.before) p.after
          (without-IsChunk max_size p.chunk p.offset k.at_chunk k.in_chunk h, k.before_chunks)
          k.after_chunks)

  -- `erase` at an iterator that is not the end, in chunks as `verify` asks, takes out the range that it
  -- points to: the ranges before it and those behind that range are as they were, the iterator that is
  -- returned points to the next one, or is the end if there is none, and all chunks are as `verify` asks
  -- and not too large.
  pub erase_range-At : At max_size (erase_range p) (ranges_before p) (drop 1 (ranges_from p))
  unfolding erase_range
  erase_range-At =
      if_intro Erased (length left.ranges == 0) _ _
        (λ e. erase_only (==→eq (length left.ranges) 0 e))
        (λ e.
          if_intro Erased (ltb p.offset (length left.ranges)) _ _
            (λ f. erase_inside (ground (arith, f)))
            (λ f. erase_last (ground (arith, e)) (ground (arith, f))))
