-- ===== src/IndexSet/Combining/Erasing.antt =====
-- `erase_at` of a set of positions.
use Prim.Native.Nat.{lt, eq, gt}
use realm_object_store.Base.{
  ℕ, ◌+◌, ◌-◌, ◌≤◌, ◌<◌, ◌≡◌, refl, ◌∙◌, sym, ap, Bool, false, not, ◌&&◌, ◌||◌, List, [], ◌∷◌,
  arith, ◌==◌, compare_intro, Bool-cases, inl, inr, ==→eq,
}
use realm_object_store.IndexSet.Ranges.{Holds, Range, member, IsValid}
use realm_object_store.IndexSet.Counting.{shift}
use realm_object_store.IndexSet.Counting.Below.{below}
use realm_object_store.IndexSet.Counting.Laws.{shift-below}
use realm_object_store.IndexSet.Counting.Moving.{shift_unique}
use realm_object_store.IndexSet.Combining.{add_set, as_indexes, build, erased, erase_set}
use realm_object_store.IndexSet.Combining.Adding.{add_set-Holds}
use realm_object_store.IndexSet.Combining.Indexes.{
  Ascending, Ascending-mono, elem, under, elem-Ascending, under-Ascending, as_indexes-Ascending,
  elem-as_indexes, under-as_indexes,
}
use realm_object_store.IndexSet.Combining.Building.{build-IsValid}

-- Some index of the list is not among the positions, and ends at the given place without them and
-- without `n` earlier ones.
unfoldable left : List ℕ → List ℕ → ℕ → ℕ → Bool
left [] ys n j = false
left (x ∷ xs) ys n j = (not (elem x ys) && (j + n + under ys x == x)) || left xs ys n j

-- A position that all indexes are after is an earlier one.
left-cons :
    (xs ys : List ℕ) (y lo n j : ℕ)
    → Ascending lo xs
    → y < lo
    → left xs (y ∷ ys) n j ≡ left xs ys (n + 1) j
unfolding left elem under
left-cons [] ys y lo n j a h = refl
left-cons (x ∷ xs) ys y lo n j a h = ground (arith, left-cons xs ys y (x + 1) n j a.1)

erased-Ascending :
    (xs ys : List ℕ) (n lo : ℕ)
    → Ascending lo xs
    → Ascending lo ys
    → n ≤ lo
    → Ascending (lo - n) (erased xs ys n)
unfolding erased
erased-Ascending [] ys n lo a b h = tt
erased-Ascending (x ∷ xs) [] n lo a b h = (
  omega arith,
  Ascending-mono (erased xs [] n) (omega arith)
      (erased-Ascending xs [] n (x + 1) a.1 tt (omega arith)),
)
erased-Ascending (x ∷ xs) (y ∷ ys) n lo a b h =
    compare_intro
      (λ o. Ascending (lo - n) (elim o [
        | lt ↦ (x - n) ∷ erased xs (y ∷ ys) n
        | eq ↦ erased xs ys (n + 1)
        | gt ↦ erased (x ∷ xs) ys (n + 1)
      ]))
      x y
      (λ k. (
        omega arith,
        Ascending-mono (erased xs (y ∷ ys) n) (omega arith)
            (erased-Ascending xs (y ∷ ys) n (x + 1) a.1 (omega arith, b.1) (omega arith)),
      ))
      (λ k. Ascending-mono (erased xs ys (n + 1)) (omega arith) (
        erased-Ascending xs ys (n + 1) (x + 1) a.1 (Ascending-mono ys (omega arith) b.1)
          (omega arith)))
      (λ k.
        Ascending-mono (erased (x ∷ xs) ys (n + 1)) (omega arith)
          (erased-Ascending (x ∷ xs) ys (n + 1) (y + 1) (omega arith, a.1) b.1 (omega arith)))

left_before :
    (x y n j : ℕ) (xs ys : List ℕ)
    → x < y
    → Ascending (y + 1) ys
    → n ≤ x
    → left (x ∷ xs) (y ∷ ys) n j ≡ ((x - n == j) || left xs (y ∷ ys) n j)
unfolding left elem under
left_before x y n j xs ys h b k =
    ground (arith, under-Ascending ys (y + 1) x b, elem-Ascending ys (y + 1) x b)

left_at :
    (x y n j : ℕ) (xs ys : List ℕ)
    → x ≡ y
    → Ascending (x + 1) xs
    → left (x ∷ xs) (y ∷ ys) n j ≡ left xs ys (n + 1) j
unfolding left elem
left_at x y n j xs ys h a = ground (arith, left-cons xs ys y (x + 1) n j a)

elem-erased :
    (xs ys : List ℕ) (n lo j : ℕ)
    → Ascending lo xs
    → Ascending lo ys
    → n ≤ lo
    → elem j (erased xs ys n) ≡ left xs ys n j
unfolding erased elem left under
elem-erased [] ys n lo j a b h = refl
elem-erased (x ∷ xs) [] n lo j a b h = ground (arith, elem-erased xs [] n (x + 1) j a.1 tt)
elem-erased (x ∷ xs) (y ∷ ys) n lo j a b h =
    compare_intro
      (λ o.
        elem j (elim o [
          | lt ↦ (x - n) ∷ erased xs (y ∷ ys) n
          | eq ↦ erased xs ys (n + 1)
          | gt ↦ erased (x ∷ xs) ys (n + 1)
        ])
        ≡ left (x ∷ xs) (y ∷ ys) n j)
      x y
      (λ k.
        ap (λ r. (x - n == j) || r)
          (elem-erased xs (y ∷ ys) n (x + 1) j a.1 (omega arith, b.1) (omega arith))
        ∙ sym (left_before x y n j xs ys k b.1 (omega arith)))
      (λ k.
        elem-erased xs ys (n + 1) (x + 1) j a.1 (Ascending-mono ys (omega arith) b.1) (omega arith)
        ∙ sym (left_at x y n j xs ys k a.1))
      (λ k.
        elem-erased (x ∷ xs) ys (n + 1) (y + 1) j (omega arith, a.1) b.1 (omega arith)
        ∙ sym (left-cons (x ∷ xs) ys y x n j (omega arith, a.1) k))

-- The index that ends at a place once the positions are erased is the one that `shift` gives.
ends_at :
    (p : List Range) (j x : ℕ)
    → IsValid p
    → (not (elem x (as_indexes p)) && (j + 0 + under (as_indexes p) x == x)) ≡ (x == shift p j)
ends_at p j x w =
    let m = elem-as_indexes p 0 x w in
    let u = under-as_indexes p 0 x w in
    elim (Bool-cases (x == shift p j)) [
      | inl e ↦
          let q = ==→eq x (shift p j) e in
          ground (arith, m, u, shift-below p 0 j w, ap (member p) q, ap (below p) q)
      | inr e ↦ ground (arith, m, u, shift_unique p j x w)
    ]

left-shift :
    (xs : List ℕ) (p : List Range) (j : ℕ)
    → IsValid p
    → left xs (as_indexes p) 0 j ≡ elem (shift p j) xs
unfolding left elem
left-shift [] p j w = refl
left-shift (x ∷ xs) p j w = rw (ends_at p j x w, left-shift xs p j w) refl

erase_built :
    (s p : List Range)
    → IsValid s
    → IsValid p
    → Holds (build (erased (as_indexes s) (as_indexes p) 0)) (λ j. member s (shift p j))
erase_built s p v w =
    let a = as_indexes-Ascending s 0 v in
    let b = as_indexes-Ascending p 0 w in
    let (built, m) =
      build-IsValid (erased (as_indexes s) (as_indexes p) 0)
        (erased-Ascending (as_indexes s) (as_indexes p) 0 0 a b (omega arith)) in
    (
      built,
      λ j.
          m j
          ∙ elem-erased (as_indexes s) (as_indexes p) 0 0 j a b (omega arith)
          ∙ left-shift (as_indexes s) p j w
          ∙ elem-as_indexes s 0 (shift p j) v,
    )

-- After `erase_at(positions)` each index is in the set exactly when the one was that `shift` leads
-- to, past the positions.
pub erase_set-Holds :
    (s p : List Range) → IsValid s → IsValid p → Holds (erase_set s p) (λ j. member s (shift p j))
unfolding erase_set member shift
erase_set-Holds [] p v w = (tt, λ j. refl)
erase_set-Holds (r ∷ s) [] v w = (v, λ j. refl)
erase_set-Holds (r ∷ s) (q ∷ p) v w = erase_built (r ∷ s) (q ∷ p) v w

-- For valid sets, `erase_at(p)` leaves a valid set that has an index exactly when the set had the one that
-- `shift` leads to, past the positions; and `add(p)` leaves a valid set of exactly the indexes of both.
pub erase_set-add_set :
    (s p : List Range)
    → IsValid s
    → IsValid p
    → Holds (erase_set s p) (λ j. member s (shift p j))
      × Holds (add_set s p) (λ j. member p j || member s j)
erase_set-add_set s p v w = (erase_set-Holds s p v w, add_set-Holds s p v w)
