-- ===== src/IndexSet/Chunks.antt =====
-- `ChunkedRangeVector` of src/index_set.cpp: the ranges of an index set in chunks of at most
-- `max_size` ranges, with what each chunk spans and counts.
pub mod Lists
pub mod Splitting
pub mod Pushing
pub mod Erasing
pub mod Building
pub mod Counting
pub mod Wholes
pub mod Counts
use realm_object_store.Base.{
  ℕ, zero, suc, ◌+◌, ◌-◌, ◌/◌, ◌<◌, ◌≤◌, ◌≡◌, min, max, Bool, List, [], ◌∷◌, ◌++◌, Option, none,
  some, length, ltb, leb, if◌then◌else◌,
}
use realm_object_store.IndexSet.Ranges.{Range, width}

pub record Chunk : Type 0 where
  pub ranges : List Range
  pub begin : ℕ
  pub end : ℕ
  pub count : ℕ

-- `data.front().first` and `data.back().second` of a chunk, whose data are its ranges.
abbrev pub front_first : List Range → ℕ
front_first [] = 0
front_first (r ∷ rs) = r.first

abbrev pub back_second : List Range → ℕ
back_second [] = 0
back_second (r ∷ []) = r.second
back_second (r ∷ q ∷ rs) = back_second (q ∷ rs)

-- `count += range.second - range.first`, for each range.
unfoldable pub widths : List Range → ℕ
widths [] = 0
widths (r ∷ rs) = width r + widths rs

-- What `verify` asserts of a chunk, and that it is not larger than it may be.
pub record IsChunk (max_size : ℕ) (c : Chunk) : Type 0 where
  pub not_empty : 0 < length c.ranges
  pub fits : length c.ranges ≤ max_size
  pub begins : c.begin ≡ front_first c.ranges
  pub ends : c.end ≡ back_second c.ranges
  pub counts : c.count ≡ widths c.ranges

abbrev pub AllChunks : ℕ → List Chunk → Type 0
AllChunks max_size [] = Unit {0}
AllChunks max_size (c ∷ cs) = IsChunk max_size c × AllChunks max_size cs

unfoldable pub take {ℓ} : {A : Type ℓ} → ℕ → List A → List A
take zero xs = []
take (suc n) [] = []
take (suc n) (x ∷ xs) = x ∷ take n xs

unfoldable pub drop {ℓ} : {A : Type ℓ} → ℕ → List A → List A
drop zero xs = xs
drop (suc n) [] = []
drop (suc n) (x ∷ xs) = drop n xs

-- An iterator that is not the end: the chunks before it, the nearest first, its chunk, those after
-- it, and its offset in the chunk.
pub record Position : Type 0 where
  pub before : List Chunk
  pub chunk : Chunk
  pub after : List Chunk
  pub offset : ℕ

-- A new chunk with one range.
abbrev pub single : Range → Chunk
single v = record { ranges = v ∷ []; begin = v.first; end = v.second; count = width v }

abbrev pub extended : Chunk → Range → Chunk
extended c v = record c { ranges = c.ranges ++ v ∷ []; end = v.second; count = c.count + width v }

-- `push_back`
unfoldable pub push_chunk : ℕ → List Chunk → Range → List Chunk
push_chunk max_size [] v = single v ∷ []
push_chunk max_size (c ∷ []) v =
    if ltb (length c.ranges) max_size then extended c v ∷ [] else c ∷ single v ∷ []
push_chunk max_size (c ∷ d ∷ cs) v = c ∷ push_chunk max_size (d ∷ cs) v

-- The halves of a chunk that is split: what it keeps, and the new chunk.
abbrev pub kept_half : ℕ → Chunk → Chunk
kept_half to_move c =
    let keep = length c.ranges - to_move in
    record {
      ranges = take keep c.ranges;
      begin = c.begin;
      end = back_second (take keep c.ranges);
      count = c.count - widths (drop keep c.ranges);
    }

abbrev pub moved_half : ℕ → Chunk → Chunk
moved_half to_move c =
    let keep = length c.ranges - to_move in
    record {
      ranges = drop keep c.ranges;
      begin = front_first (drop keep c.ranges);
      end = back_second (drop keep c.ranges);
      count = widths (drop keep c.ranges);
    }

-- `ensure_space`
unfoldable pub ensure_space : ℕ → Position → Position
unfolding widths take drop
ensure_space max_size p =
    let to_move = max_size / 2 in
    if leb (length p.chunk.ranges + 1) max_size
    then p
    else if leb to_move p.offset
    then record {
      before = kept_half to_move p.chunk ∷ p.before;
      chunk = moved_half to_move p.chunk;
      after = p.after;
      offset = p.offset - to_move;
    }
    else record p {
      chunk = kept_half to_move p.chunk;
      after = moved_half to_move p.chunk ∷ p.after;
    }

-- `chunk.data.insert` and the changes of the chunk after it.
abbrev pub with_range : Chunk → ℕ → Range → Chunk
with_range c offset v = record {
  ranges = take offset c.ranges ++ v ∷ drop offset c.ranges;
  begin = min c.begin v.first;
  end = max c.end v.second;
  count = c.count + width v;
}

-- `insert` at an iterator that is not the end.
unfoldable pub insert_range : ℕ → Position → Range → Position
unfolding ensure_space
insert_range max_size p v =
    let q = ensure_space max_size p in record q { chunk = with_range q.chunk q.offset v }

-- The ranges before a position, the last one first, and those from it on.
unfoldable pub flat : List Chunk → List Range
flat [] = []
flat (c ∷ cs) = c.ranges ++ flat cs

unfoldable pub flat_before : List Chunk → List Range
flat_before [] = []
flat_before (c ∷ cs) = flat_before cs ++ c.ranges

abbrev pub ranges_before : Position → List Range
ranges_before p = flat_before p.before ++ take p.offset p.chunk.ranges

abbrev pub ranges_from : Position → List Range
ranges_from p = drop p.offset p.chunk.ranges ++ flat p.after
