-- ===== src/Tests/OnIndexSet.antt =====
-- The index set of tests: two ranges with a gap of three between them.
use realm_object_store.Base.{
  ◌+◌, ◌≡◌, refl, not, ◌&&◌, ◌||◌, ◌==◌, ltb, leb, true, false, List, [], ◌∷◌, none, some, arith, ℕ,
  inl,
}
use realm_object_store.IndexSet.Ranges.{Range, range, member, IsValid, Holds}
use realm_object_store.IndexSet.Single.{add, contains, erase_at, insert_at, shift_for_insert_at}
use realm_object_store.IndexSet.Single.Adding.{contains-add}
use realm_object_store.IndexSet.Single.Erasing.{after_erase, erase_at-Holds}
use realm_object_store.IndexSet.Single.Inserting.{after_insert}
use realm_object_store.IndexSet.Single.Shifting.{insert_at-shift_for_insert_at}
use realm_object_store.IndexSet.Combining.{add_set, insert_set, shift_for_insert_set, erase_set}
use realm_object_store.IndexSet.Combining.Erasing.{erase_set-add_set}
use realm_object_store.IndexSet.Combining.Shifting.{insert_set-shift_for_insert_set}
use realm_object_store.IndexSet.Combining.ShiftedBy.{add_shifted_by}
use realm_object_store.IndexSet.Combining.ShiftedBy.Laws.{add_shifted_by-Holds}
use realm_object_store.IndexSet.Chunks.{
  Chunk, Position, widths, insert_range, ranges_before, ranges_from, take, drop, flat, flat_before,
}
use realm_object_store.IndexSet.Chunks.Erasing.{At, erase_range, erase_range-At}
use realm_object_store.IndexSet.Chunks.Building.{
  ChunkBuilder, IsBuilding, push_range, push_range-IsBuilding,
}
use realm_object_store.IndexSet.Chunks.Splitting.{IsPosition, insert_range-IsPosition}
use realm_object_store.IndexSet.Counting.{shift, unshift, add_shifted, erase_or_unshift}
use realm_object_store.IndexSet.Counting.Below.{tally}
use realm_object_store.IndexSet.Chunks.{AllChunks}
use realm_object_store.IndexSet.Chunks.Counting.{count}
use realm_object_store.IndexSet.Chunks.Counts.{count-tally}
use realm_object_store.IndexSet.Counting.Laws.{shift-unshift_lem, add_shifted-erase_or_unshift}
use realm_object_store.IndexSet.Removing.{remove, remove_set}
use realm_object_store.IndexSet.Removing.Laws.{Leaves, remove_lem}

abbrev two_ranges : List Range
two_ranges = range 1 3 ∷ range 6 9 ∷ []

two_ranges-IsValid : IsValid two_ranges
two_ranges-IsValid = omega arith

erase_at-Holds_example : Holds (erase_at two_ranges 4) (λ j. member two_ranges (after_erase 4 j))
erase_at-Holds_example = erase_at-Holds two_ranges 4 two_ranges-IsValid

abbrev positions : List Range
positions = range 0 2 ∷ range 7 8 ∷ []

positions-IsValid : IsValid positions
positions-IsValid = omega arith

insert_set-shift_for_insert_set_example :
    Holds
      (insert_set two_ranges positions)
      (λ j. member positions j || member two_ranges (unshift positions j))
    × Holds
        (shift_for_insert_set two_ranges positions)
        (λ j. not (member positions j) && member two_ranges (unshift positions j))
insert_set-shift_for_insert_set_example =
    insert_set-shift_for_insert_set two_ranges positions two_ranges-IsValid positions-IsValid

add_shifted_by-Holds_example :
    Holds
      (add_shifted_by two_ranges positions (range 2 5 ∷ []))
      (λ j. member two_ranges j || member (range 2 5 ∷ []) (shift positions (unshift two_ranges j)))
add_shifted_by-Holds_example =
    add_shifted_by-Holds two_ranges positions (range 2 5 ∷ []) two_ranges-IsValid positions-IsValid
      (omega arith)

add_shifted-erase_or_unshift_example :
    (add_shifted two_ranges 7 ≡ (shift two_ranges 7, add two_ranges (shift two_ranges 7)))
    × (erase_or_unshift two_ranges 7 ≡ (none, erase_at two_ranges 7))
unfolding member
add_shifted-erase_or_unshift_example = add_shifted-erase_or_unshift two_ranges 7 two_ranges-IsValid

contains-add_example :
    Holds two_ranges (contains two_ranges)
    × IsValid (add two_ranges 5)
    × ((j : ℕ) → contains (add two_ranges 5) j ≡ ((5 == j) || contains two_ranges j))
contains-add_example = contains-add two_ranges 5 two_ranges-IsValid

insert_at-shift_for_insert_at_example :
    Holds (insert_at two_ranges 7 2) (after_insert true 7 2 (member two_ranges))
    × Holds (shift_for_insert_at two_ranges 7 2) (after_insert false 7 2 (member two_ranges))
insert_at-shift_for_insert_at_example =
    insert_at-shift_for_insert_at two_ranges 7 2 (omega arith) two_ranges-IsValid

shift-unshift_lem_example :
    (member two_ranges (shift two_ranges 3) ≡ false)
    × (unshift two_ranges (shift two_ranges 3) ≡ 3)
    × (shift two_ranges (unshift two_ranges 5) ≡ 5)
unfolding member
shift-unshift_lem_example = shift-unshift_lem two_ranges 3 5 two_ranges-IsValid refl

remove_lem_example :
    Leaves (remove two_ranges 2 5) (λ j. member two_ranges j && not (leb 2 j && ltb j 7))
    × Leaves
        (remove_set two_ranges positions)
        (λ j. member two_ranges j && not (member positions j))
remove_lem_example =
    remove_lem two_ranges positions 2 5 (omega arith) two_ranges-IsValid positions-IsValid

erase_set-add_set_example :
    Holds (erase_set two_ranges positions) (λ j. member two_ranges (shift positions j))
    × Holds (add_set two_ranges positions) (λ j. member positions j || member two_ranges j)
erase_set-add_set_example =
    erase_set-add_set two_ranges positions two_ranges-IsValid positions-IsValid

-- Runs of the operations, each set written out.
add_joins : add (range 1 3 ∷ range 4 5 ∷ []) 3 ≡ range 1 5 ∷ []
unfolding add
add_joins = refl

erase_at_joins : erase_at (range 1 3 ∷ range 4 5 ∷ []) 3 ≡ range 1 4 ∷ []
unfolding erase_at
erase_at_joins = refl

insert_at_run : insert_at two_ranges 4 2 ≡ range 1 3 ∷ range 4 6 ∷ range 8 11 ∷ []
unfolding insert_at
insert_at_run = refl

shift_for_insert_at_splits :
    shift_for_insert_at two_ranges 7 2 ≡ range 1 3 ∷ range 6 7 ∷ range 9 11 ∷ []
unfolding shift_for_insert_at
shift_for_insert_at_splits = refl

remove_splits : remove two_ranges 7 1 ≡ some (range 1 3 ∷ range 6 7 ∷ range 8 9 ∷ [])
unfolding remove
remove_splits = refl

add_set_joins : add_set two_ranges (range 3 6 ∷ []) ≡ range 1 9 ∷ []
unfolding add_set
add_set_joins = refl

erase_set_run : erase_set two_ranges positions ≡ range 0 1 ∷ range 4 6 ∷ []
unfolding erase_set
erase_set_run = refl

-- A full chunk of four ranges, with an iterator at the third.
abbrev full_chunk : Chunk
full_chunk = record {
  ranges = range 1 2 ∷ range 3 4 ∷ range 7 8 ∷ range 9 12 ∷ [];
  begin = 1;
  end = 12;
  count = 6;
}

abbrev third : Position
third = record { before = []; chunk = full_chunk; after = []; offset = 2 }

third-IsPosition : IsPosition 4 third
unfolding widths
third-IsPosition = record {
  before_chunks = tt;
  at_chunk = record {
    not_empty = omega arith;
    fits = omega arith;
    begins = refl;
    ends = refl;
    counts = refl;
  };
  after_chunks = tt;
  in_chunk = omega arith;
}

insert_range-IsPosition_example :
    IsPosition 4 (insert_range 4 third (range 5 6))
    × (ranges_before (insert_range 4 third (range 5 6)) ≡ range 1 2 ∷ range 3 4 ∷ [])
    × (ranges_from (insert_range 4 third (range 5 6)) ≡ range 5 6 ∷ range 7 8 ∷ range 9 12 ∷ [])
unfolding take drop flat flat_before
insert_range-IsPosition_example =
    insert_range-IsPosition 2 third (range 5 6) (omega arith) third-IsPosition (omega arith)

insert_range_splits :
    (insert_range 4 third (range 5 6)).chunk.ranges ≡ range 5 6 ∷ range 7 8 ∷ range 9 12 ∷ []
unfolding insert_range
insert_range_splits = refl

erase_range-At_example : At 4 (erase_range third) (range 1 2 ∷ range 3 4 ∷ []) (range 9 12 ∷ [])
unfolding take drop flat flat_before
erase_range-At_example = erase_range-At 4 third third-IsPosition

-- A builder whose chunk is full, with and without a chunk that is reserved behind it.
abbrev filling : ℕ → ChunkBuilder
filling n = record { filled = []; current = full_chunk; reserved = n }

filling-IsBuilding : (n : ℕ) → IsBuilding 4 (filling n)
unfolding widths
filling-IsBuilding n = (
  tt,
  record { fits = omega arith; begins = λ h. refl; counts = λ h. refl; positive = omega arith },
)

push_range-IsBuilding_example : IsBuilding 4 (push_range 4 (filling 1) (range 14 17))
push_range-IsBuilding_example =
    push_range-IsBuilding 4 (filling 1) (range 14 17) (omega arith) (omega arith)
      (filling-IsBuilding 1) (inl (omega arith))

-- Without a reserved chunk three indexes are counted as one.
push_range_count : (push_range 4 (filling 0) (range 14 17)).current.count ≡ 1
unfolding push_range
push_range_count = refl

-- A full chunk and one more; from an index inside the first on, up to one between the ranges of the
-- second.
abbrev chunk_of : List Range → ℕ → ℕ → ℕ → Chunk
chunk_of rs a b n = record { ranges = rs; begin = a; end = b; count = n }

abbrev two_chunks : List Chunk
two_chunks =
    chunk_of (range 0 2 ∷ range 4 6 ∷ range 8 10 ∷ range 12 14 ∷ []) 0 14 8
    ∷ chunk_of (range 16 18 ∷ range 20 25 ∷ []) 16 25 7
    ∷ []

two_chunks-AllChunks : AllChunks 4 two_chunks
unfolding widths
two_chunks-AllChunks = (
  record { not_empty = omega arith; fits = omega arith; begins = refl; ends = refl; counts = refl },
  (
    record {
      not_empty = omega arith;
      fits = omega arith;
      begins = refl;
      ends = refl;
      counts = refl;
    },
    tt,
  ),
)

two_chunks-IsValid : IsValid (flat two_chunks)
unfolding flat
two_chunks-IsValid = ground arith

count-tally_example : count two_chunks 5 (5 + 17) ≡ tally (member (flat two_chunks)) 5 17
unfolding widths flat
count-tally_example =
    count-tally 4 two_chunks 5 17 two_chunks-AllChunks two_chunks-IsValid
      (λ p. ((λ h. omega arith), tt))

-- Up to an index in the first range of the second chunk, what lies in that range is not counted.
count_loses : count two_chunks 5 18 ≡ 5
unfolding count
count_loses = refl

tally_keeps : tally (member (flat two_chunks)) 5 13 ≡ 7
unfolding tally member flat
tally_keeps = refl
