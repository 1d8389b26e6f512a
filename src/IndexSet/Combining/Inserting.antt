-- ===== src/IndexSet/Combining/Inserting.antt =====
-- `insert_at` of a set of positions.
use Prim.Native.Nat.{lt}
use realm_object_store.Base.{
  ℕ, ◌+◌, ◌-◌, ◌≤◌, ◌<◌, ◌≡◌, refl, ◌∙◌, sym, ap, true, ◌||◌, List, [], ◌∷◌, arith, ltb, ◌==◌,
  compare_intro, Bool-cases, inl, inr,
}
use realm_object_store.IndexSet.Ranges.{Holds, Range, member, IsValid}
use realm_object_store.IndexSet.Counting.{unshift}
use realm_object_store.IndexSet.Combining.{as_indexes, build, inserted, insert_set}
use realm_object_store.IndexSet.Combining.Indexes.{
  Ascending, Ascending-mono, elem, under, under-Ascending, under-le, as_indexes-Ascending,
  elem-as_indexes,
}
use realm_object_store.IndexSet.Combining.Building.{build-IsValid}
use realm_object_store.IndexSet.Combining.Hits.{hits, hits-Ascending, hits-unshift, unshift-nil}

inserted-Ascending :
    (xs ys : List ℕ) (n lo : ℕ)
    → Ascending lo xs
    → Ascending (lo + n) ys
    → Ascending (lo + n) (inserted xs ys n)
unfolding inserted
inserted-Ascending [] ys n lo a b = b
inserted-Ascending (x ∷ xs) [] n lo a b = (
  omega arith,
  Ascending-mono (inserted xs [] n) (omega arith) (inserted-Ascending xs [] n (x + 1) a.1 tt),
)
inserted-Ascending (x ∷ xs) (y ∷ ys) n lo a b =
    let after : y ≤ x + n → Ascending (lo + n) (y ∷ inserted (x ∷ xs) ys (n + 1)) = λ h. (
      b.0,
      Ascending-mono (inserted (x ∷ xs) ys (n + 1)) (omega arith) (
          inserted-Ascending (x ∷ xs) ys (n + 1) (y - n) (omega arith, a.1)
            (Ascending-mono ys (omega arith) b.1)),
    ) in
    compare_intro
      (λ o.
        Ascending (lo + n)
          (elim o [ lt ↦ (x + n) ∷ inserted xs (y ∷ ys) n | _ ↦ y ∷ inserted (x ∷ xs) ys (n + 1) ]))
      (x + n) y
      (λ h. (
        omega arith,
        Ascending-mono (inserted xs (y ∷ ys) n) (omega arith)
            (inserted-Ascending xs (y ∷ ys) n (x + 1) a.1 (omega arith, b.1)),
      ))
      (λ h. after (omega arith)) (λ h. after (omega arith))

-- How a hit changes where an index is taken first, or a position.
hits_before :
    (x y n j : ℕ) (xs ys : List ℕ)
    → x + n < y
    → Ascending (y + 1) ys
    → (elem j (y ∷ ys) || hits (x ∷ xs) (n + under (y ∷ ys) j) j)
      ≡ ((x + n == j) || (elem j (y ∷ ys) || hits xs (n + under (y ∷ ys) j) j))
unfolding hits elem under
hits_before x y n j xs ys h b =
    ground (arith, under-Ascending ys (y + 1) j b, under-le ys (y + 1) j b)

hits_after :
    (x y n j : ℕ) (xs ys : List ℕ)
    → y ≤ x + n
    → Ascending x (x ∷ xs)
    → Ascending (y + 1) ys
    → (elem j (y ∷ ys) || hits (x ∷ xs) (n + under (y ∷ ys) j) j)
      ≡ ((y == j) || (elem j ys || hits (x ∷ xs) (n + 1 + under ys j) j))
unfolding elem under
hits_after x y n j xs ys h a b =
    let e : ltb y j ≡ true → n + (1 + under ys j) ≡ n + 1 + under ys j = λ k. omega arith in
    elim (Bool-cases (ltb y j)) [
      | inl k ↦ rw (k, e k) (ground arith)
      | inr k ↦
          rw (k, under-Ascending ys (y + 1) j b (ground arith))
            (ground (
              arith,
              hits-Ascending (x ∷ xs) x (n + 1 + 0) j a,
              hits-Ascending (x ∷ xs) x (n + (0 + 0)) j a,
            ))
    ]

elem-inserted :
    (xs ys : List ℕ) (n lo j : ℕ)
    → Ascending lo xs
    → Ascending (lo + n) ys
    → elem j (inserted xs ys n) ≡ (elem j ys || hits xs (n + under ys j) j)
unfolding inserted elem hits under
elem-inserted [] ys n lo j a b = ground arith
elem-inserted (x ∷ xs) [] n lo j a b = ground (arith, elem-inserted xs [] n (x + 1) j a.1)
elem-inserted (x ∷ xs) (y ∷ ys) n lo j a b =
    let Goal : List ℕ → Type 0 =
      λ r. elem j r ≡ (elem j (y ∷ ys) || hits (x ∷ xs) (n + under (y ∷ ys) j) j) in
    let after : y ≤ x + n → Goal (y ∷ inserted (x ∷ xs) ys (n + 1)) = λ h. sym (
      hits_after x y n j xs ys h (omega arith, a.1) b.1
      ∙ ap (λ r. (y == j) || r)
          (sym (
            elem-inserted (x ∷ xs) ys (n + 1) (y - n) j (omega arith, a.1)
              (Ascending-mono ys (omega arith) b.1)))) in
    compare_intro
      (λ o.
        Goal
          (elim o [ lt ↦ (x + n) ∷ inserted xs (y ∷ ys) n | _ ↦ y ∷ inserted (x ∷ xs) ys (n + 1) ]))
      (x + n) y
      (λ h. sym (
        hits_before x y n j xs ys h b.1
        ∙ ap (λ r. (x + n == j) || r)
            (sym (elem-inserted xs (y ∷ ys) n (x + 1) j a.1 (omega arith, b.1)))))
      (λ h. after (omega arith)) (λ h. after (omega arith))

insert_built :
    (s p : List Range)
    → IsValid s
    → IsValid p
    → Holds
        (build (inserted (as_indexes s) (as_indexes p) 0))
        (λ j. member p j || member s (unshift p j))
insert_built s p v w =
    let a = as_indexes-Ascending s 0 v in
    let b = as_indexes-Ascending p 0 w in
    let (built, m) =
      build-IsValid (inserted (as_indexes s) (as_indexes p) 0)
        (inserted-Ascending (as_indexes s) (as_indexes p) 0 0 a b) in
    (
      built,
      λ j.
          m j
          ∙ elem-inserted (as_indexes s) (as_indexes p) 0 0 j a b
          ∙ rw (elem-as_indexes p 0 j w, hits-unshift s p j v w) refl,
    )

-- After `insert_at(positions)` the positions are in the set, and the other indexes are as they were
-- before they were moved up by the positions below them.
pub insert_set-Holds :
    (s p : List Range)
    → IsValid s
    → IsValid p
    → Holds (insert_set s p) (λ j. member p j || member s (unshift p j))
unfolding insert_set member
insert_set-Holds s [] v w = (v, λ j. rw (unshift-nil j) refl)
insert_set-Holds [] (q ∷ p) v w = (w, λ j. ground arith)
insert_set-Holds (r ∷ s) (q ∷ p) v w = insert_built (r ∷ s) (q ∷ p) v w
