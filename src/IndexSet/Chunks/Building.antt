-- ===== src/IndexSet/Chunks/Building.antt =====
-- `ChunkedRangeVectorBuilder`: the chunks that it fills, with the counts that it keeps for them.
use realm_object_store.Base.{
  ℕ, suc, ◌+◌, ◌-◌, ◌<◌, ◌≤◌, ◌≡◌, refl, ◌∙◌, sym, ap, false, List, [], ◌∷◌, ◌++◌, length, ltb,
  ◌==◌, ==→eq, arith, if◌then◌else◌, if_intro, ◌⊎◌, inl, inr,
}
use realm_object_store.IndexSet.Ranges.{Range, range, width}
use realm_object_store.IndexSet.Chunks.{Chunk, front_first, back_second, widths, AllChunks}
use realm_object_store.IndexSet.Chunks.Lists.{length-++, widths-++}

-- The chunks that are filled, the nearest first, the one at `m_outer_pos`, and how many empty ones
-- are reserved behind it.
pub record ChunkBuilder : Type 0 where
  pub filled : List Chunk
  pub current : Chunk
  pub reserved : ℕ

-- `chunk.data.back().second = range.second`
unfoldable pub set_back : ℕ → List Range → List Range
set_back e [] = []
set_back e (r ∷ []) = range r.first e ∷ []
set_back e (r ∷ q ∷ rs) = r ∷ set_back e (q ∷ rs)

-- The chunk behind a full one: a reserved one, or one that is added.
abbrev next_current : ℕ → Range → Chunk
next_current reserved r = record {
  ranges = r ∷ [];
  begin = r.first;
  end = 0;
  count = if reserved == 0 then 1 else width r;
}

-- `push_back` of a range.
unfoldable pub push_range : ℕ → ChunkBuilder → Range → ChunkBuilder
unfolding set_back
push_range max_size b r =
    let c = b.current in
    if length c.ranges == 0
    then record b { current = record c { ranges = r ∷ []; count = width r; begin = r.first } }
    else if r.first == back_second c.ranges
    then record b {
      current = record c { ranges = set_back r.second c.ranges; count = c.count + width r };
    }
    else if ltb (length c.ranges) max_size
    then record b { current = record c { ranges = c.ranges ++ r ∷ []; count = c.count + width r } }
    else record {
      filled = record c { end = back_second c.ranges } ∷ b.filled;
      current = next_current b.reserved r;
      reserved = b.reserved - 1;
    }

abbrev Positive : List Range → Type 0
Positive [] = Unit {0}
Positive (r ∷ rs) = (r.first < r.second) × Positive rs

-- The chunk that is being filled: its end is set when it is full, the rest with its first range.
pub record IsOpen (max_size : ℕ) (c : Chunk) : Type 0 where
  pub fits : length c.ranges ≤ max_size
  pub begins : 0 < length c.ranges → c.begin ≡ front_first c.ranges
  pub counts : 0 < length c.ranges → c.count ≡ widths c.ranges
  pub positive : Positive c.ranges

abbrev pub IsBuilding : ℕ → ChunkBuilder → Type 0
IsBuilding max_size b = AllChunks max_size b.filled × IsOpen max_size b.current

widths-set_back :
    (rs : List Range) (r : Range)
    → 0 < length rs
    → r.first ≡ back_second rs
    → r.first < r.second
    → Positive rs
    → (widths (set_back r.second rs) ≡ widths rs + width r) × Positive (set_back r.second rs)
unfolding widths set_back
widths-set_back [] r h e f p = absurd (omega (arith, h))
widths-set_back (q ∷ []) r h e f p = (omega (arith, e, f, p.0), (omega (arith, e, f, p.0), tt))
widths-set_back (q ∷ s ∷ rs) r h e f p =
    let (a, b) = widths-set_back (s ∷ rs) r (omega arith) e f p.1 in (omega (arith, a), (p.0, b))

length-set_back : (e : ℕ) (rs : List Range) → length (set_back e rs) ≡ length rs
unfolding set_back
length-set_back e [] = refl
length-set_back e (r ∷ []) = refl
length-set_back e (r ∷ q ∷ rs) = ap suc (length-set_back e (q ∷ rs))

front_first-set_back : (e : ℕ) (rs : List Range) → front_first (set_back e rs) ≡ front_first rs
unfolding set_back
front_first-set_back e [] = refl
front_first-set_back e (r ∷ []) = refl
front_first-set_back e (r ∷ q ∷ rs) = refl

front_first-push :
    (rs : List Range) (r : Range) → 0 < length rs → front_first (rs ++ r ∷ []) ≡ front_first rs
front_first-push [] r h = absurd (omega (arith, h))
front_first-push (q ∷ rs) r h = refl

Positive-push :
    (rs : List Range) (r : Range) → Positive rs → r.first < r.second → Positive (rs ++ r ∷ [])
Positive-push [] r p h = (h, tt)
Positive-push (q ∷ rs) r p h = (p.0, Positive-push rs r p.1 h)

-- The count of the chunk behind a full one is right where it was reserved, or the range is one index.
next_count :
    (reserved : ℕ) (r : Range)
    → (0 < reserved ⊎ (width r ≡ 1))
    → (next_current reserved r).count ≡ width r
next_count reserved r (inl h) = ground (arith, h)
next_count reserved r (inr h) = ground (arith, h)

module _ (max_size : ℕ) (b : ChunkBuilder) (r : Range) (h : 0 < max_size) (p : r.first < r.second)
    (k : IsBuilding max_size b) where
  some_ranges : (length b.current.ranges == 0) ≡ false → 0 < length b.current.ranges
  some_ranges e = ground (arith, e)

  -- Where the chunk that comes next is reserved or the range is one index, a push leaves full chunks
  -- that are as `verify` asks, and a last one that has its first index, its count and no more ranges
  -- than it may.
  pub push_range-IsBuilding :
      (0 < b.reserved ⊎ (width r ≡ 1)) → IsBuilding max_size (push_range max_size b r)
  unfolding push_range widths
  push_range-IsBuilding w =
      if_intro (IsBuilding max_size) (length b.current.ranges == 0) _ _
        (λ e. (
          k.0,
          record {
            fits = omega (arith, h);
            begins = λ x. refl;
            counts = λ x. omega arith;
            positive = (p, tt);
          },
        ))
        (λ e.
          if_intro (IsBuilding max_size) (r.first == back_second b.current.ranges) _ _
            (λ f.
              let (g, q) =
                widths-set_back b.current.ranges r (some_ranges e)
                  (==→eq r.first (back_second b.current.ranges) f) p k.1.positive in
              (
                k.0,
                record {
                  fits = omega (arith, length-set_back r.second b.current.ranges, k.1.fits);
                  begins = λ x.
                      k.1.begins (some_ranges e)
                      ∙ sym (front_first-set_back r.second b.current.ranges);
                  counts = λ x. omega (arith, g, k.1.counts (some_ranges e));
                  positive = q;
                },
              ))
            (λ f.
              if_intro (IsBuilding max_size) (ltb (length b.current.ranges) max_size) _ _
                (λ g. (
                  k.0,
                  record {
                    fits = ground (arith, g, length-++ b.current.ranges (r ∷ []));
                    begins = λ x.
                        k.1.begins (some_ranges e)
                        ∙ sym (front_first-push b.current.ranges r (some_ranges e));
                    counts = λ x.
                        omega
                          (arith, widths-++ b.current.ranges (r ∷ []), k.1.counts (some_ranges e));
                    positive = Positive-push b.current.ranges r k.1.positive p;
                  },
                ))
                (λ g. (
                  (
                    record {
                      not_empty = some_ranges e;
                      fits = k.1.fits;
                      begins = k.1.begins (some_ranges e);
                      ends = refl;
                      counts = k.1.counts (some_ranges e);
                    },
                    k.0,
                  ),
                  record {
                    fits = omega (arith, h);
                    begins = λ x. refl;
                    counts = λ x. omega (arith, next_count b.reserved r w);
                    positive = (p, tt);
                  },
                ))))
