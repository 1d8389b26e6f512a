-- ===== src/Changes/Diff/Sorting.antt =====
-- What `std::sort` does with the rows.
use realm_object_store.Base.{
  ℕ, suc, ◌+◌, ◌≤◌, ◌≡◌, refl, ap, ◌∙◌, Bool, true, false, List, [], ◌∷◌, arith, ◌==◌, length,
  if◌then◌else◌, if_intro,
}
use realm_object_store.Changes.Diff.Matching.{insert_by, sort_by}
use realm_object_store.Changes.Diff.Lists.{Every, occurs, Climbs, Every-map}

module _ {ℓ} {A : Type ℓ} (less : A → A → Bool) where
  module _ {κ} (P : A → Type κ) where
    pub Every-insert_by : (x : A) (ys : List A) → P x → Every P ys → Every P (insert_by less x ys)
    unfolding insert_by
    Every-insert_by x [] p q = (p, tt)
    Every-insert_by x (y ∷ ys) p q =
        if_intro (Every P) (less y x) (y ∷ insert_by less x ys) (x ∷ y ∷ ys)
          (λ _. (q.0, Every-insert_by x ys p q.1)) (λ _. (p, q))

    pub Every-sort_by : (xs : List A) → Every P xs → Every P (sort_by less xs)
    unfolding sort_by
    Every-sort_by [] p = tt
    Every-sort_by (x ∷ xs) p = Every-insert_by x (sort_by less xs) p.0 (Every-sort_by xs p.1)

  length-insert_by : (x : A) (ys : List A) → length (insert_by less x ys) ≡ suc (length ys)
  unfolding insert_by
  length-insert_by x [] = refl
  length-insert_by x (y ∷ ys) =
      if_intro (λ r. length r ≡ suc (suc (length ys))) (less y x) (y ∷ insert_by less x ys)
        (x ∷ y ∷ ys) (λ _. ap suc (length-insert_by x ys)) (λ _. refl)

  pub length-sort_by : (xs : List A) → length (sort_by less xs) ≡ length xs
  unfolding sort_by
  length-sort_by [] = refl
  length-sort_by (x ∷ xs) = length-insert_by x (sort_by less xs) ∙ ap suc (length-sort_by xs)

  module _ (f : A → ℕ) where
    occurs-insert_by :
        (i : ℕ) (x : A) (ys : List A) → occurs f i (insert_by less x ys) ≡ occurs f i (x ∷ ys)
    unfolding insert_by occurs
    occurs-insert_by i x [] = refl
    occurs-insert_by i x (y ∷ ys) =
        if_intro (λ r. occurs f i r ≡ occurs f i (x ∷ y ∷ ys)) (less y x) (y ∷ insert_by less x ys)
          (x ∷ y ∷ ys) (λ _. omega (arith, occurs-insert_by i x ys)) (λ _. refl)

    pub occurs-sort_by : (i : ℕ) (xs : List A) → occurs f i (sort_by less xs) ≡ occurs f i xs
    unfolding sort_by occurs
    occurs-sort_by i [] = refl
    occurs-sort_by i (x ∷ xs) =
        occurs-insert_by i x (sort_by less xs)
        ∙ ap (λ n. (if f x == i then 1 else 0) + n) (occurs-sort_by i xs)

    -- The values do not descend.
    abbrev IsSorted : List A → Type 0
    IsSorted [] = Unit {0}
    IsSorted (x ∷ xs) = Every (λ y. f x ≤ f y) xs × IsSorted xs

    -- The order goes by the value.
    abbrev pub Orders : Type ℓ
    Orders = (x y : A) → ((less x y ≡ true) → f x ≤ f y) × ((less x y ≡ false) → f y ≤ f x)

    insert_by-IsSorted :
        (x : A) (ys : List A) → Orders → IsSorted ys → IsSorted (insert_by less x ys)
    unfolding insert_by
    insert_by-IsSorted x [] o s = (tt, tt)
    insert_by-IsSorted x (y ∷ ys) o s =
        if_intro IsSorted (less y x) (y ∷ insert_by less x ys) (x ∷ y ∷ ys)
          (λ h. (
            Every-insert_by (λ z. f y ≤ f z) x ys ((o y x).0 h) s.0,
            insert_by-IsSorted x ys o s.1,
          ))
          (λ h.
            let le = (o y x).1 h in
            (
              (
                le,
                Every-map (λ z. f y ≤ f z) (λ z. f x ≤ f z) (λ z k. omega (arith, k, le)) ys s.0,
              ),
              s,
            ))

    sort_by-IsSorted : (xs : List A) → Orders → IsSorted (sort_by less xs)
    unfolding sort_by
    sort_by-IsSorted [] o = tt
    sort_by-IsSorted (x ∷ xs) o = insert_by-IsSorted x (sort_by less xs) o (sort_by-IsSorted xs o)

    Every-past :
        (i : ℕ) (xs : List A)
        → occurs f i xs ≡ 0
        → Every (λ x. i ≤ f x) xs
        → Every (λ x. suc i ≤ f x) xs
    unfolding occurs
    Every-past i [] h p = tt
    Every-past i (x ∷ xs) h p = (ground (arith, h, p.0), Every-past i xs (ground (arith, h)) p.1)

    sorted-Climbs :
        (lo : ℕ) (xs : List A)
        → IsSorted xs
        → ((i : ℕ) → occurs f i xs ≤ 1)
        → Every (λ x. lo ≤ f x) xs
        → Climbs f lo xs
    unfolding occurs
    sorted-Climbs lo [] s u p = tt
    sorted-Climbs lo (x ∷ xs) s u p = (
      p.0,
      sorted-Climbs (suc (f x)) xs s.1 (λ i. omega (arith, u i))
          (Every-past (f x) xs (ground (arith, u (f x))) s.0),
    )

    Every-any : (xs : List A) → Every (λ x. 0 ≤ f x) xs
    Every-any [] = tt
    Every-any (x ∷ xs) = (omega arith, Every-any xs)

    -- Values that occur once at most ascend when they are sorted.
    pub Climbs-sort_by :
        (xs : List A) → Orders → ((i : ℕ) → occurs f i xs ≤ 1) → Climbs f 0 (sort_by less xs)
    Climbs-sort_by xs o u =
        sorted-Climbs 0 (sort_by less xs) (sort_by-IsSorted xs o)
          (λ i. omega (arith, u i, occurs-sort_by i xs)) (Every-any (sort_by less xs))
