-- ===== src/Changes/Diff/Comparing.antt =====
-- What the comparison of the old rows and the new ones records: every place once.
use Prim.Native.Nat.{lt, eq, gt}
use realm_object_store.Base.{
  ℕ, suc, ◌+◌, ◌≡◌, refl, ap, subst, ◌∙◌, Bool, ◌&&◌, List, [], ◌∷◌, arith, ltb, leb, length,
  if◌then◌else◌, compare_intro, none, some,
}
use realm_object_store.Changes.Diff.Matching.{Placed}
use realm_object_store.Changes.Diff.Lists.{Every, occurs, get_elem?}
use realm_object_store.Changes.Diff.Sorting.{Every-sort_by, occurs-sort_by}
use realm_object_store.Changes.Diff.{
  RowInfo, infos, build_row_info, tv_indexes, Compared, compare_rows, present,
}

abbrev pub self : ℕ → ℕ
self i = i

occurs-tv_indexes :
    (i : ℕ) (rs : List RowInfo) → occurs self i (tv_indexes rs) ≡ occurs RowInfo.tv_index i rs
unfolding occurs tv_indexes
occurs-tv_indexes i [] = refl
occurs-tv_indexes i (r ∷ rs) = omega (arith, occurs-tv_indexes i rs)

-- A row that has no old place yet.
abbrev pub New : RowInfo → Type 0
New r = r.prev_tv_index ≡ none

present-New : (rs : List RowInfo) → Every New rs → present rs ≡ []
unfolding present
present-New [] h = refl
present-New (r ∷ rs) h = rw (h.0) (present-New rs h.1)

-- Every old place is that of a row that is gone, or the old place of one that is present.
pub compare_rows_gone :
    (i : ℕ) (os ns : List RowInfo)
    → Every New ns
    → let c = compare_rows os ns in
      occurs self i c.gone + occurs Placed.prev_tv_index i (present c.rows)
      ≡ occurs RowInfo.tv_index i os
unfolding compare_rows occurs present
compare_rows_gone i [] ns h = rw (present-New ns h) (omega arith)
compare_rows_gone i (o ∷ os) [] h = ground (arith, occurs-tv_indexes i (o ∷ os))
compare_rows_gone i (o ∷ os) (n ∷ ns) h =
    let both = compare_rows_gone i os ns h.1 in
    let old = compare_rows_gone i os (n ∷ ns) h in
    let new = compare_rows_gone i (o ∷ os) ns h.1 in
    let e = h.0 in ground (arith, both, old, new, e)

-- Every new place is that of a row that was added, or of one that is present.
pub compare_rows_added :
    (i : ℕ) (os ns : List RowInfo)
    → Every New ns
    → let c = compare_rows os ns in
      occurs self i c.added + occurs Placed.tv_index i (present c.rows)
      ≡ occurs RowInfo.tv_index i ns
unfolding compare_rows occurs present
compare_rows_added i [] ns h = rw (present-New ns h) (omega (arith, occurs-tv_indexes i ns))
compare_rows_added i (o ∷ os) [] h = ground arith
compare_rows_added i (o ∷ os) (n ∷ ns) h =
    let both = compare_rows_added i os ns h.1 in
    let old = compare_rows_added i os (n ∷ ns) h in
    let new = compare_rows_added i (o ∷ os) ns h.1 in
    let e = h.0 in ground (arith, both, old, new, e)

-- A row that is present has the same key at both places.
module _ {κ} (P Q : ℕ → ℕ → Type κ) where
  abbrev Both : Placed → Type κ
  Both r = P r.key r.prev_tv_index × Q r.key r.tv_index

  pub compare_rows-Both :
      (os ns : List RowInfo)
      → Every New ns
      → Every (λ o. P o.key o.tv_index) os
      → Every (λ n. Q n.key n.tv_index) ns
      → Every Both (present (compare_rows os ns).rows)
  unfolding compare_rows present
  compare_rows-Both [] ns h p q = rw (present-New ns h) tt
  compare_rows-Both (o ∷ os) [] h p q = tt
  compare_rows-Both (o ∷ os) (n ∷ ns) h p q =
      let both = compare_rows os ns in
      let old = compare_rows os (n ∷ ns) in
      let new = compare_rows (o ∷ os) ns in
      compare_intro
        (λ x. Every Both (
          present
            (elim x as (λ x. Compared) [
              | eq ↦ record both { rows = record n { prev_tv_index = some o.tv_index } ∷ both.rows }
              | lt ↦ record old { gone = o.tv_index ∷ old.gone }
              | gt ↦ record new { added = n.tv_index ∷ new.added; rows = n ∷ new.rows }
            ]).rows))
        o.key n.key (λ _. compare_rows-Both os (n ∷ ns) h p.1 q)
        (λ k. ((subst (λ k. P k o.tv_index) k p.0, q.0), compare_rows-Both os ns h.1 p.1 q.1))
        (λ _. rw h.0 (compare_rows-Both (o ∷ os) ns h.1 p q.1))

-- The rows that `build_row_info` makes.
infos-New : (i : ℕ) (ks : List ℕ) → Every New (infos i ks)
unfolding infos
infos-New i [] = tt
infos-New i (k ∷ ks) = (refl, infos-New (i + 1) ks)

-- The key of a row is that of its place.
abbrev pub HasKey : List ℕ → ℕ → ℕ → Type 0
HasKey ks k i = get_elem? ks i ≡ some k

infos-HasKey :
    (all : List ℕ) (i : ℕ) (ks : List ℕ)
    → ((n : ℕ) → get_elem? all (i + n) ≡ get_elem? ks n)
    → Every (λ r. HasKey all r.key r.tv_index) (infos i ks)
unfolding infos get_elem?
infos-HasKey all i [] h = tt
infos-HasKey all i (k ∷ ks) h = (
  ap (get_elem? all) (omega arith) ∙ h 0,
  infos-HasKey all (i + 1) ks λ n. ap (get_elem? all) (omega arith) ∙ h (suc n),
)

occurs-infos :
    (n i : ℕ) (ks : List ℕ)
    → occurs RowInfo.tv_index n (infos i ks) ≡ (if leb i n && ltb n (i + length ks) then 1 else 0)
unfolding infos occurs
occurs-infos n i [] = ground arith
occurs-infos n i (k ∷ ks) = ground (arith, occurs-infos n (i + 1) ks)

abbrev by_key : RowInfo → RowInfo → Bool
by_key x y = ltb x.key y.key

pub build_row_info-New : (ks : List ℕ) → Every New (build_row_info ks)
unfolding build_row_info
build_row_info-New ks = Every-sort_by by_key New (infos 0 ks) (infos-New 0 ks)

pub build_row_info-HasKey :
    (ks : List ℕ) → Every (λ r. HasKey ks r.key r.tv_index) (build_row_info ks)
unfolding build_row_info
build_row_info-HasKey ks =
    Every-sort_by by_key (λ r. HasKey ks r.key r.tv_index) (infos 0 ks)
      (infos-HasKey ks 0 ks λ n. ap (get_elem? ks) (omega arith))

pub occurs-build_row_info :
    (n : ℕ) (ks : List ℕ)
    → occurs RowInfo.tv_index n (build_row_info ks) ≡ (if ltb n (length ks) then 1 else 0)
unfolding build_row_info
occurs-build_row_info n ks =
    occurs-sort_by by_key RowInfo.tv_index n (infos 0 ks) ∙ ground (arith, occurs-infos n 0 ks)
