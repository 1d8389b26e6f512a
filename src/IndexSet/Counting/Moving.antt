-- ===== src/IndexSet/Counting/Moving.antt =====
-- How the other operations change the counts, and so where `shift` and `unshift` lead afterwards.
use realm_object_store.Base.{
  ℕ, zero, suc, ◌+◌, ◌-◌, ◌≤◌, ◌<◌, ◌≡◌, sym, ◌∙◌, ap, false, List, arith, ltb, leb, if◌then◌else◌,
  Bool-cases, inl, inr,
}
use realm_object_store.IndexSet.Ranges.{Range, member, IsValid}
use realm_object_store.IndexSet.Single.{add, erase_at, insert_at}
use realm_object_store.IndexSet.Single.Adding.{add-IsValid, member-add}
use realm_object_store.IndexSet.Single.Erasing.{after_erase, erase_at-IsValid, member-erase_at}
use realm_object_store.IndexSet.Single.Inserting.{insert_at-IsValid, member-insert_at}
use realm_object_store.IndexSet.Counting.{shift, unshift}
use realm_object_store.IndexSet.Counting.Below.{below, below-suc, below-Above}
use realm_object_store.IndexSet.Counting.Laws.{
  unshift-below, member-shift, shift-unshift, shift-below,
}

below-zero : (s : List Range) → IsValid s → below s 0 ≡ 0
below-zero s v = below-Above s 0 0 v (omega arith)

-- One more number adds at most one to the count.
pub below-slope :
    (s : List Range) (k n : ℕ)
    → IsValid s
    → (below s k ≤ below s (k + n)) × (below s (k + n) ≤ below s k + n)
below-slope s k zero v = ground arith
below-slope s k (suc n) v = ground (arith, below-slope s k n v, below-suc s 0 (k + n) v)

-- An index that is added is counted above it.
below-add :
    (s : List Range) (i k : ℕ)
    → IsValid s
    → member s i ≡ false
    → below (add s i) k ≡ below s k + (if ltb i k then 1 else 0)
below-add s i zero v h = ground (arith, below-zero s v, below-zero (add s i) (add-IsValid s i v))
below-add s i (suc k) v h = ground (
  arith,
  below-add s i k v h,
  below-suc s 0 k v,
  below-suc (add s i) 0 k (add-IsValid s i v),
  member-add s i k v,
)

below-erase_at :
    (s : List Range) (i k : ℕ)
    → IsValid s
    → below s (after_erase i k)
      ≡ below (erase_at s i) k + (if ltb k i then 0 else if member s i then 1 else 0)
below-erase_at s i zero v =
    ground
      (arith, below-zero s v, below-zero (erase_at s i) (erase_at-IsValid s i v), below-suc s 0 0 v)
below-erase_at s i (suc k) v = ground (
  arith,
  below-erase_at s i k v,
  below-suc s 0 k v,
  below-suc s 0 (suc k) v,
  below-suc (erase_at s i) 0 k (erase_at-IsValid s i v),
  member-erase_at s i k v,
)

-- Below the place of an insertion, inside of what is inserted, and after it.
module _ (s : List Range) (i n : ℕ) (h : 0 < n) (v : IsValid s) where
  below-insert_at_before : (k : ℕ) → k ≤ i → below (insert_at s i n) k ≡ below s k
  below-insert_at_before zero le =
      ground (arith, below-zero s v, below-zero (insert_at s i n) (insert_at-IsValid s i n h v))
  below-insert_at_before (suc k) le = ground (
    arith,
    below-insert_at_before k (omega arith),
    below-suc s 0 k v,
    below-suc (insert_at s i n) 0 k (insert_at-IsValid s i n h v),
    member-insert_at s i n k h v,
  )

  below-insert_at_inside : (k : ℕ) → k ≤ n → below (insert_at s i n) (i + k) ≡ below s i + k
  below-insert_at_inside zero le = ground (arith, below-insert_at_before i)
  below-insert_at_inside (suc k) le = ground (
    arith,
    below-insert_at_inside k (omega arith),
    below-suc (insert_at s i n) 0 (i + k) (insert_at-IsValid s i n h v),
    member-insert_at s i n (i + k) h v,
  )

  below-insert_at_after : (k : ℕ) → below (insert_at s i n) (i + n + k) ≡ below s (i + k) + n
  below-insert_at_after zero = ground (arith, below-insert_at_inside n)
  below-insert_at_after (suc k) =
      let e : i + n + k - n ≡ i + k = omega arith in
      ground (
        arith,
        below-insert_at_after k,
        below-suc s 0 (i + k) v,
        below-suc (insert_at s i n) 0 (i + n + k) (insert_at-IsValid s i n h v),
        member-insert_at s i n (i + n + k) h v,
        ap (member s) e,
      )

-- `unshift` after an insertion or a removal at one index.
pub unshift-insert_at :
    (s : List Range) (i n j : ℕ)
    → 0 < n
    → IsValid s
    → unshift (insert_at s i n) j
      ≡ (if leb j i then unshift s j else if leb j (i + n) then unshift s i else unshift s (j - n))
unshift-insert_at s i n j h v = ground (
  arith,
  unshift-below s j v,
  unshift-below s i v,
  unshift-below s (j - n) v,
  unshift-below (insert_at s i n) j (insert_at-IsValid s i n h v),
  below-insert_at_before s i n h v j,
  below-insert_at_inside s i n h v (j - i),
  below-insert_at_after s i n h v (j - i - n),
  below-slope s 0 i v,
  below-zero s v,
)

pub unshift-erase_at :
    (s : List Range) (i j : ℕ)
    → IsValid s
    → unshift (erase_at s i) j ≡ (
        if ltb j i
        then unshift s j
        else if member s i
        then unshift s (j + 1)
        else unshift s (j + 1) - 1)
unshift-erase_at s i j v = ground (
  arith,
  unshift-below s j v,
  unshift-below s (j + 1) v,
  unshift-below (erase_at s i) j (erase_at-IsValid s i v),
  below-erase_at s i j v,
  below-slope s 0 i v,
  below-zero s v,
  below-suc s 0 i v,
)

-- `shift` keeps the order.
pub shift_mono : (s : List Range) (i j : ℕ) → IsValid s → i < j → shift s i < shift s j
shift_mono s i j v h = ground (
  arith,
  (shift-below s 0 i v).0,
  (shift-below s 0 j v).0,
  below-slope s (shift s j) (shift s i - shift s j) v,
)

pub shift_unique :
    (s : List Range) (i k : ℕ) → IsValid s → member s k ≡ false → k ≡ i + below s k → shift s i ≡ k
shift_unique s i k v m e =
    let u : unshift s k ≡ i = omega (arith, unshift-below s k v) in
    ap (shift s) (sym u) ∙ shift-unshift s k v m

-- Once the index that `shift` gives for `u` is added, `shift` passes over it.
pub shift-add :
    (s : List Range) (u i : ℕ)
    → IsValid s
    → shift (add s (shift s u)) i ≡ (if ltb i u then shift s i else shift s (i + 1))
shift-add s u i v =
    let k = shift s u in
    let w = add-IsValid s k v in
    let m = member-shift s u v in
    elim (Bool-cases (ltb i u)) [
      | inl e ↦ rw e (
          shift_unique (add s k) i (shift s i) w
            (ground (arith, member-add s k (shift s i) v, member-shift s i v, shift_mono s i u v))
            (ground
              (arith, below-add s k (shift s i) v m, (shift-below s 0 i v).0, shift_mono s i u v)))
      | inr e ↦ rw e (
          shift_unique (add s k) i (shift s (i + 1)) w
            (ground (
              arith,
              member-add s k (shift s (i + 1)) v,
              member-shift s (i + 1) v,
              shift_mono s u (i + 1) v,
            ))
            (ground (
              arith,
              below-add s k (shift s (i + 1)) v m,
              (shift-below s 0 (i + 1) v).0,
              shift_mono s u (i + 1) v,
            )))
    ]
