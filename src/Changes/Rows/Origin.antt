-- ===== src/Changes/Rows/Origin.antt =====
-- The old rows after one insertion or removal, by the deletions and insertions alone.
use realm_object_store.Base.{ℕ, ◌+◌, ◌-◌, ◌<◌, ◌≡◌, false, List, none, if◌then◌else◌, arith}
use realm_object_store.IndexSet.Ranges.{Range, member, IsValid}
use realm_object_store.IndexSet.Single.{add, erase_at, insert_at}
use realm_object_store.IndexSet.Single.Erasing.{after_erase, member-erase_at}
use realm_object_store.IndexSet.Single.Inserting.{member-insert_at}
use realm_object_store.IndexSet.Counting.{shift, unshift, erase_or_unshift}
use realm_object_store.IndexSet.Counting.Below.{below-le, below-suc}
use realm_object_store.IndexSet.Counting.Laws.{add_shifted_lem, erase_or_unshift_lem, unshift-below}
use realm_object_store.IndexSet.Counting.Moving.{
  unshift-insert_at, unshift-erase_at, shift-add, below-slope,
}
use realm_object_store.Changes.Builder.{deleted}
use realm_object_store.Changes.Rows.{origin, with_inserted}

pub origin-insert_at :
    (d s : List Range) (i n j : ℕ)
    → 0 < n
    → IsValid s
    → origin d (insert_at s i n) j ≡ with_inserted none i n (origin d s) j
unfolding origin
origin-insert_at d s i n j h v =
    ground (arith, member-insert_at s i n j h v, unshift-insert_at s i n j h v)

-- Indexes outside of a set keep their order under `unshift`.
unshift_mono :
    (s : List Range) (i j : ℕ) → IsValid s → i < j → member s i ≡ false → unshift s i < unshift s j
unshift_mono s i j v h m = ground (
  arith,
  unshift-below s i v,
  unshift-below s j v,
  below-suc s 0 i v,
  below-slope s (i + 1) (j - (i + 1)) v,
  below-le s 0 i v,
  below-le s 0 j v,
)

pub deleted_lem :
    (d s : List Range) (i : ℕ)
    → IsValid d
    → IsValid s
    → deleted (erase_or_unshift s i).0 d ≡ (if member s i then d else add d (shift d (unshift s i)))
deleted_lem d s i v w =
    ground (arith, erase_or_unshift_lem s i w, add_shifted_lem d (unshift s i) v)

pub origin-erase :
    (d s : List Range) (i j : ℕ)
    → IsValid d
    → IsValid s
    → origin (deleted (erase_or_unshift s i).0 d) (erase_at s i) j ≡ origin d s (after_erase i j)
unfolding origin
origin-erase d s i j v w = rw (deleted_lem d s i v w) (
    ground (
      arith,
      member-erase_at s i j w,
      unshift-erase_at s i j w,
      shift-add d (unshift s i) (unshift s j) v,
      shift-add d (unshift s i) (unshift s (j + 1) - 1) v,
      unshift_mono s j i w,
      unshift_mono s i (j + 1) w,
    ))
