-- ===== src/IndexSet/Combining/Shifting.antt =====
-- `shift_for_insert_at` of a set of values.
use Prim.Native.Nat.{lt}
use realm_object_store.Base.{
  ℕ, suc, ◌+◌, ◌-◌, ◌≤◌, ◌<◌, ◌≡◌, refl, ◌∙◌, sym, ap, true, false, not, ◌&&◌, ◌||◌, List, [], ◌∷◌,
  arith, ltb, leb, ◌==◌, if_intro, compare_intro, Bool-cases, inl, inr,
}
use realm_object_store.IndexSet.Ranges.{Holds, Range, member, Above, IsValid, member-Above}
use realm_object_store.IndexSet.Counting.{unshift}
use realm_object_store.IndexSet.Counting.Below.{below-le, below-Above}
use realm_object_store.IndexSet.Counting.Laws.{unshift-below}
use realm_object_store.IndexSet.Combining.{
  as_indexes, build, shifted, last_end, insert_set, shift_for_insert_set,
}
use realm_object_store.IndexSet.Combining.Indexes.{
  Ascending, Ascending-mono, elem, under, elem-Ascending, under-Ascending, under-le,
  as_indexes-Ascending, elem-as_indexes,
}
use realm_object_store.IndexSet.Combining.Building.{build-IsValid}
use realm_object_store.IndexSet.Combining.Inserting.{insert_set-Holds}
use realm_object_store.IndexSet.Combining.Hits.{hits, hits-Ascending, hits-unshift, unshift-nil}

shifted-Ascending :
    (xs ys : List ℕ) (n lo : ℕ)
    → Ascending lo xs
    → Ascending (lo + n) ys
    → Ascending (lo + n) (shifted xs ys n)
unfolding shifted
shifted-Ascending [] ys n lo a b = tt
shifted-Ascending (x ∷ xs) [] n lo a b = (
  omega arith,
  Ascending-mono (shifted xs [] n) (omega arith) (shifted-Ascending xs [] n (x + 1) a.1 tt),
)
shifted-Ascending (x ∷ xs) (y ∷ ys) n lo a b =
    let after : y ≤ x + n → Ascending (lo + n) (shifted (x ∷ xs) ys (n + 1)) = λ h.
      Ascending-mono (shifted (x ∷ xs) ys (n + 1)) (omega arith) (
        shifted-Ascending (x ∷ xs) ys (n + 1) (y - n) (omega arith, a.1)
          (Ascending-mono ys (omega arith) b.1)) in
    compare_intro
      (λ o.
        Ascending (lo + n)
          (elim o [ lt ↦ (x + n) ∷ shifted xs (y ∷ ys) n | _ ↦ shifted (x ∷ xs) ys (n + 1) ]))
      (x + n) y
      (λ h. (
        omega arith,
        Ascending-mono (shifted xs (y ∷ ys) n) (omega arith)
            (shifted-Ascending xs (y ∷ ys) n (x + 1) a.1 (omega arith, b.1)),
      ))
      (λ h. after (omega arith)) (λ h. after (omega arith))

misses_before :
    (x y n j : ℕ) (xs ys : List ℕ)
    → x + n < y
    → Ascending (y + 1) ys
    → (not (elem j (y ∷ ys)) && hits (x ∷ xs) (n + under (y ∷ ys) j) j)
      ≡ ((x + n == j) || (not (elem j (y ∷ ys)) && hits xs (n + under (y ∷ ys) j) j))
unfolding hits elem under
misses_before x y n j xs ys h b =
    ground (
      arith,
      under-Ascending ys (y + 1) j b,
      under-le ys (y + 1) j b,
      elem-Ascending ys (y + 1) j b,
    )

misses_after :
    (x y n j : ℕ) (xs ys : List ℕ)
    → y ≤ x + n
    → Ascending x (x ∷ xs)
    → Ascending (y + 1) ys
    → (not (elem j (y ∷ ys)) && hits (x ∷ xs) (n + under (y ∷ ys) j) j)
      ≡ (not (elem j ys) && hits (x ∷ xs) (n + 1 + under ys j) j)
unfolding elem under
misses_after x y n j xs ys h a b =
    let e : ltb y j ≡ true → n + (1 + under ys j) ≡ n + 1 + under ys j = λ k. omega arith in
    elim (Bool-cases (ltb y j)) [
      | inl k ↦ rw (k, e k) (ground arith)
      | inr k ↦
          rw (k, under-Ascending ys (y + 1) j b (ground arith))
            (ground (
              arith,
              hits-Ascending (x ∷ xs) x (n + 1 + 0) j a,
              hits-Ascending (x ∷ xs) x (n + (0 + 0)) j a,
            ))
    ]

elem-shifted :
    (xs ys : List ℕ) (n lo j : ℕ)
    → Ascending lo xs
    → Ascending (lo + n) ys
    → elem j (shifted xs ys n) ≡ (not (elem j ys) && hits xs (n + under ys j) j)
unfolding shifted elem hits under
elem-shifted [] ys n lo j a b = ground arith
elem-shifted (x ∷ xs) [] n lo j a b = ground (arith, elem-shifted xs [] n (x + 1) j a.1)
elem-shifted (x ∷ xs) (y ∷ ys) n lo j a b =
    let Goal : List ℕ → Type 0 =
      λ r. elem j r ≡ (not (elem j (y ∷ ys)) && hits (x ∷ xs) (n + under (y ∷ ys) j) j) in
    let after : y ≤ x + n → Goal (shifted (x ∷ xs) ys (n + 1)) = λ h.
      elem-shifted (x ∷ xs) ys (n + 1) (y - n) j (omega arith, a.1)
        (Ascending-mono ys (omega arith) b.1)
      ∙ sym (misses_after x y n j xs ys h (omega arith, a.1) b.1) in
    compare_intro
      (λ o.
        Goal (elim o [ lt ↦ (x + n) ∷ shifted xs (y ∷ ys) n | _ ↦ shifted (x ∷ xs) ys (n + 1) ]))
      (x + n) y
      (λ h. sym (
        misses_before x y n j xs ys h b.1
        ∙ ap (λ r. (x + n == j) || r)
            (sym (elem-shifted xs (y ∷ ys) n (x + 1) j a.1 (omega arith, b.1)))))
      (λ h. after (omega arith)) (λ h. after (omega arith))

shift_built :
    (s p : List Range)
    → IsValid s
    → IsValid p
    → Holds
        (build (shifted (as_indexes s) (as_indexes p) 0))
        (λ j. not (member p j) && member s (unshift p j))
shift_built s p v w =
    let a = as_indexes-Ascending s 0 v in
    let b = as_indexes-Ascending p 0 w in
    let (built, m) =
      build-IsValid (shifted (as_indexes s) (as_indexes p) 0)
        (shifted-Ascending (as_indexes s) (as_indexes p) 0 0 a b) in
    (
      built,
      λ j.
          m j
          ∙ elem-shifted (as_indexes s) (as_indexes p) 0 0 j a b
          ∙ rw (elem-as_indexes p 0 j w, hits-unshift s p j v w) refl,
    )

last_end-le : (r : Range) (rs : List Range) (lo : ℕ) → Above lo (r ∷ rs) → lo ≤ last_end (r ∷ rs)
last_end-le r [] lo a = omega arith
last_end-le r (q ∷ rs) lo a = omega (arith, last_end-le q rs (suc r.second) a.2)

-- Nothing of the set stands at or after its end.
member-last_end : (rs : List Range) (lo j : ℕ) → Above lo rs → last_end rs ≤ j → member rs j ≡ false
unfolding member
member-last_end [] lo j a h = refl
member-last_end (r ∷ []) lo j a h = ground arith
member-last_end (r ∷ q ∷ rs) lo j a h =
    ground
      (arith, last_end-le q rs (suc r.second) a.2, member-last_end (q ∷ rs) (suc r.second) j a.2 h)

shift_past :
    (s : List Range) (q : Range) (p : List Range) (j : ℕ)
    → IsValid s
    → IsValid (q ∷ p)
    → last_end s ≤ q.first
    → member s j ≡ (not (member (q ∷ p) j) && member s (unshift (q ∷ p) j))
shift_past s q p j v w h = elim (Bool-cases (ltb j q.first)) [
  | inl k ↦ ground (
    arith,
    member-Above (q ∷ p) q.first j (omega arith, w.1, w.2),
    unshift-below (q ∷ p) j w,
    below-Above (q ∷ p) q.first j (omega arith, w.1, w.2),
  )
  | inr k ↦ ground (
    arith,
    member-last_end s 0 j v,
    member-last_end s 0 (unshift (q ∷ p) j) v,
    unshift-below (q ∷ p) j w,
    below-le (q ∷ p) q.first j (omega arith, w.1, w.2),
  )
]

-- After `shift_for_insert_at(values)` the values are not in the set, and the other indexes are as
-- they were before they were moved up by the values below them.
pub shift_for_insert_set-Holds :
    (s p : List Range)
    → IsValid s
    → IsValid p
    → Holds (shift_for_insert_set s p) (λ j. not (member p j) && member s (unshift p j))
unfolding shift_for_insert_set member
shift_for_insert_set-Holds [] p v w = (tt, λ j. ground arith)
shift_for_insert_set-Holds (r ∷ s) [] v w = (v, λ j. rw (unshift-nil j) refl)
shift_for_insert_set-Holds (r ∷ s) (q ∷ p) v w =
    if_intro (λ t. Holds t (λ j. not (member (q ∷ p) j) && member (r ∷ s) (unshift (q ∷ p) j)))
      (leb (last_end (r ∷ s)) q.first) _ _
      (λ e. (v, λ j. shift_past (r ∷ s) q p j v w (ground arith)))
      (λ e. shift_built (r ∷ s) (q ∷ p) v w)

-- For valid sets, after `insert_at(positions)` the positions are in the set, and after
-- `shift_for_insert_at(positions)` they are not; in both the set is valid, and the other indexes are as
-- they were before they were moved up by the positions below them.
pub insert_set-shift_for_insert_set :
    (s p : List Range)
    → IsValid s
    → IsValid p
    → Holds (insert_set s p) (λ j. member p j || member s (unshift p j))
      × Holds (shift_for_insert_set s p) (λ j. not (member p j) && member s (unshift p j))
insert_set-shift_for_insert_set s p v w =
    (insert_set-Holds s p v w, shift_for_insert_set-Holds s p v w)
