-- ===== src/IndexSet/Chunks/Lists.antt =====
-- Lemmas on parts of a list.
use realm_object_store.Base.{
  ℕ, zero, suc, ◌+◌, ◌-◌, ◌≤◌, ◌≡◌, refl, ap, List, [], ◌∷◌, ◌++◌, length, arith,
}
use realm_object_store.IndexSet.Ranges.{Range}
use realm_object_store.IndexSet.Chunks.{take, drop, widths, back_second}

module _ {ℓ} {A : Type ℓ} where
  pub take-drop : (n : ℕ) (xs : List A) → take n xs ++ drop n xs ≡ xs
  unfolding take drop
  take-drop zero xs = refl
  take-drop (suc n) [] = refl
  take-drop (suc n) (x ∷ xs) = ap (λ r. x ∷ r) (take-drop n xs)

  pub length-take : (n : ℕ) (xs : List A) → n ≤ length xs → length (take n xs) ≡ n
  unfolding take
  length-take zero xs h = refl
  length-take (suc n) [] h = omega (arith, h)
  length-take (suc n) (x ∷ xs) h = ap suc (length-take n xs (omega (arith, h)))

  pub length-drop : (n : ℕ) (xs : List A) → length (drop n xs) ≡ length xs - n
  unfolding drop
  length-drop zero xs = omega arith
  length-drop (suc n) [] = omega arith
  length-drop (suc n) (x ∷ xs) = omega (arith, length-drop n xs)

  pub length-++ : (xs ys : List A) → length (xs ++ ys) ≡ length xs + length ys
  length-++ [] ys = omega arith
  length-++ (x ∷ xs) ys = omega (arith, length-++ xs ys)

  -- What a list begins with, and what comes then.
  pub take_exact : (n : ℕ) (xs ys : List A) → n ≤ length xs → take n (take n xs ++ ys) ≡ take n xs
  unfolding take
  take_exact zero xs ys h = refl
  take_exact (suc n) [] ys h = absurd (omega (arith, h))
  take_exact (suc n) (x ∷ xs) ys h = ap (λ r. x ∷ r) (take_exact n xs ys (omega (arith, h)))

  pub drop_exact : (n : ℕ) (xs ys : List A) → n ≤ length xs → drop n (take n xs ++ ys) ≡ ys
  unfolding take drop
  drop_exact zero xs ys h = refl
  drop_exact (suc n) [] ys h = absurd (omega (arith, h))
  drop_exact (suc n) (x ∷ xs) ys h = drop_exact n xs ys (omega (arith, h))

  take_nil : (k : ℕ) → take {A = A} k [] ≡ []
  unfolding take
  take_nil zero = refl
  take_nil (suc k) = refl

  drop_nil : (k : ℕ) → drop {A = A} k [] ≡ []
  unfolding drop
  drop_nil zero = refl
  drop_nil (suc k) = refl

  -- A part that ends before the cut, and one that ends behind it.
  pub take-take : (n m : ℕ) (xs : List A) → n ≤ m → take n (take m xs) ≡ take n xs
  unfolding take
  take-take zero m xs h = refl
  take-take (suc n) zero xs h = absurd (omega (arith, h))
  take-take (suc n) (suc m) [] h = refl
  take-take (suc n) (suc m) (x ∷ xs) h = ap (λ r. x ∷ r) (take-take n m xs (omega (arith, h)))

  pub drop-take : (n m : ℕ) (xs : List A) → n ≤ m → drop n (take m xs) ++ drop m xs ≡ drop n xs
  unfolding take drop
  drop-take zero m xs h = take-drop m xs
  drop-take (suc n) zero xs h = absurd (omega (arith, h))
  drop-take (suc n) (suc m) [] h = refl
  drop-take (suc n) (suc m) (x ∷ xs) h = drop-take n m xs (omega (arith, h))

  pub take-past :
      (n m : ℕ) (xs : List A) → n ≤ m → take n xs ++ take (m - n) (drop n xs) ≡ take m xs
  unfolding take drop
  take-past zero m xs h = ap (λ k. take k xs) (omega arith)
  take-past (suc n) zero xs h = absurd (omega (arith, h))
  take-past (suc n) (suc m) [] h = take_nil (suc m - suc n)
  take-past (suc n) (suc m) (x ∷ xs) h =
      let e : suc m - suc n ≡ m - n = omega arith in
      rw e (ap (λ r. x ∷ r) (take-past n m xs (omega (arith, h))))

  pub drop-past : (n m : ℕ) (xs : List A) → n ≤ m → drop (m - n) (drop n xs) ≡ drop m xs
  unfolding drop
  drop-past zero m xs h = ap (λ k. drop k xs) (omega arith)
  drop-past (suc n) zero xs h = absurd (omega (arith, h))
  drop-past (suc n) (suc m) [] h = drop_nil (suc m - suc n)
  drop-past (suc n) (suc m) (x ∷ xs) h =
      let e : suc m - suc n ≡ m - n = omega arith in rw e (drop-past n m xs (omega (arith, h)))

pub widths-++ : (rs qs : List Range) → widths (rs ++ qs) ≡ widths rs + widths qs
unfolding widths
widths-++ [] qs = omega arith
widths-++ (r ∷ rs) qs = omega (arith, widths-++ rs qs)

pub back_second-++ :
    (rs : List Range) (q : Range) (qs : List Range)
    → back_second (rs ++ q ∷ qs) ≡ back_second (q ∷ qs)
back_second-++ [] q qs = refl
back_second-++ (r ∷ []) q qs = refl
back_second-++ (r ∷ s ∷ rs) q qs = back_second-++ (s ∷ rs) q qs
