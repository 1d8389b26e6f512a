-- ===== src/Changes/Diff/Lists.antt =====
-- Parts, counts and places of lists, for the proofs on `CollectionChangeBuilder::calculate`.
use realm_object_store.Base.{
  ℕ, zero, suc, ◌+◌, ◌≤◌, ◌<◌, ◌≡◌, refl, ap, Bool, true, false, List, [], ◌∷◌, ◌++◌, map, Option,
  none, some, arith, ◌==◌, length, if◌then◌else◌, Bool-cases, inl, inr, ◌∙◌, ℕ_discrete,
}
use realm_object_store.IndexSet.Chunks.{take, drop}

-- `xs[i]`, where there is one.
unfoldable pub get_elem? {ℓ} : {A : Type ℓ} → List A → ℕ → Option A
get_elem? [] i = none
get_elem? (x ∷ xs) zero = some x
get_elem? (x ∷ xs) (suc i) = get_elem? xs i

-- The condition holds of each element.
abbrev pub Every {ℓ κ} : {A : Type ℓ} → (A → Type κ) → List A → Type κ
Every P [] = Unit
Every P (x ∷ xs) = P x × Every P xs

-- The elements at the places, counted from the given one, that the test does not select.
unfoldable pub keep {ℓ} : {A : Type ℓ} → (ℕ → Bool) → ℕ → List A → List A
keep p base [] = []
keep p base (x ∷ xs) = let rest = keep p (suc base) xs in if p base then rest else x ∷ rest

-- How often a number is the value of an element.
unfoldable pub occurs {ℓ} : {A : Type ℓ} → (A → ℕ) → ℕ → List A → ℕ
occurs f i [] = 0
occurs f i (x ∷ xs) = (if f x == i then 1 else 0) + occurs f i xs

-- The values are ascending, from the bound on.
abbrev pub Climbs {ℓ} : {A : Type ℓ} → (A → ℕ) → ℕ → List A → Type 0
Climbs f lo [] = Unit {0}
Climbs f lo (x ∷ xs) = (lo ≤ f x) × Climbs f (suc (f x)) xs

module _ {ℓ κ} {A : Type ℓ} (P : A → Type κ) where
  pub Every-++ : (xs ys : List A) → Every P xs → Every P ys → Every P (xs ++ ys)
  Every-++ [] ys p q = q
  Every-++ (x ∷ xs) ys p q = (p.0, Every-++ xs ys p.1 q)

  pub Every-take : (n : ℕ) (xs : List A) → Every P xs → Every P (take n xs)
  unfolding take
  Every-take zero xs p = tt
  Every-take (suc n) [] p = tt
  Every-take (suc n) (x ∷ xs) p = (p.0, Every-take n xs p.1)

  pub Every-drop : (n : ℕ) (xs : List A) → Every P xs → Every P (drop n xs)
  unfolding drop
  Every-drop zero xs p = p
  Every-drop (suc n) [] p = tt
  Every-drop (suc n) (x ∷ xs) p = Every-drop n xs p.1

pub Every-map {ℓ κ ι} :
    {A : Type ℓ} (P : A → Type κ) (Q : A → Type ι)
    → ((x : A) → P x → Q x)
    → (xs : List A) → Every P xs
    → Every Q xs
Every-map P Q f [] p = tt
Every-map P Q f (x ∷ xs) p = (f x p.0, Every-map P Q f xs p.1)

module _ {ℓ} {A : Type ℓ} (f : A → ℕ) where
  pub occurs-++ : (i : ℕ) (xs ys : List A) → occurs f i (xs ++ ys) ≡ occurs f i xs + occurs f i ys
  unfolding occurs
  occurs-++ i [] ys = omega arith
  occurs-++ i (x ∷ xs) ys = omega (arith, occurs-++ i xs ys)

  pub Climbs-mono : (xs : List A) {m n : ℕ} → m ≤ n → Climbs f n xs → Climbs f m xs
  Climbs-mono [] h c = tt
  Climbs-mono (x ∷ xs) h c = (omega arith, c.1)

  pub occurs-Climbs : (xs : List A) (lo i : ℕ) → Climbs f lo xs → i < lo → occurs f i xs ≡ 0
  unfolding occurs
  occurs-Climbs [] lo i c h = refl
  occurs-Climbs (x ∷ xs) lo i c h = ground (arith, occurs-Climbs xs (suc (f x)) i c.1)

  -- What remains of ascending values ascends.
  pub Climbs-take : (n : ℕ) (xs : List A) (lo : ℕ) → Climbs f lo xs → Climbs f lo (take n xs)
  unfolding take
  Climbs-take zero xs lo c = tt
  Climbs-take (suc n) [] lo c = tt
  Climbs-take (suc n) (x ∷ xs) lo c = (c.0, Climbs-take n xs (suc (f x)) c.1)

-- Those that are kept are the listed ones, if the test selects exactly the places that are not listed.
module _ {ℓ} {A : Type ℓ} (p : ℕ → Bool) (f g : A → ℕ) where
  abbrev Found : ℕ → List ℕ → A → Type 0
  Found base xs l = (i : ℕ) → base + i ≡ f l → get_elem? xs i ≡ some (g l)

  Found-later :
      (base x : ℕ) (xs : List ℕ) (ls : List A)
      → Every (Found base (x ∷ xs)) ls
      → Every (Found (suc base) xs) ls
  unfolding get_elem?
  Found-later base x xs ls =
      Every-map (Found base (x ∷ xs)) (Found (suc base) xs)
        (λ l e i h. e (suc i) (omega (arith, h))) ls

  pub keep-listed :
      (base hi : ℕ) (xs : List ℕ) (ls : List A)
      → base + length xs ≡ hi
      → Climbs f base ls
      → ((i : ℕ) → base ≤ i → i < hi → p i ≡ (occurs f i ls == 0))
      → Every (λ l. f l < hi) ls
      → Every (Found base xs) ls
      → keep p base xs ≡ map g ls
  unfolding keep occurs get_elem?
  keep-listed base hi [] [] b c h w e = refl
  keep-listed base hi [] (l ∷ ls) b c h w e = absurd (omega (arith, c.0, w.0))
  keep-listed base hi (x ∷ xs) [] b c h w e =
      let q : p base ≡ true = h base (omega arith) (omega arith) in
      rw q
        (keep-listed (suc base) hi xs [] (omega arith) tt (λ i a b. h i (omega (arith, a)) b) tt tt)
  keep-listed base hi (x ∷ xs) (l ∷ ls) b c h w e = elim (ℕ_discrete (f l) base) [
    | yes k ↦
        let q : p base ≡ false = h base (omega arith) (omega arith) ∙ ground (arith, k) in
        let v : some x ≡ some (g l) = e.0 0 (omega (arith, k)) in
        let u : x ≡ g l = cc in
        let rest =
          keep-listed (suc base) hi xs ls (omega arith) (rw k at c.1)
            (λ i a b. h i (omega (arith, a)) b ∙ ground (arith, k, a)) w.1
            (Found-later base x xs ls e.1) in
        rw (q, u, rest) refl
    | no k ↦
        let z = occurs-Climbs f ls (suc (f l)) base c.1 (omega (arith, c.0)) in
        let q : p base ≡ true = h base (omega arith) (omega arith) ∙ ground (arith, k, z) in
        rw q (
          keep-listed (suc base) hi xs (l ∷ ls) (omega arith) (omega (arith, c.0, k), c.1)
            (λ i a b. h i (omega (arith, a)) b) w (Found-later base x xs (l ∷ ls) e))
  ]

-- Two tests that agree on the places keep the same.
module _ {ℓ} {A : Type ℓ} where
  pub keep-same :
      (p q : ℕ → Bool) (base : ℕ) (xs : List A)
      → ((i : ℕ) → base ≤ i → i < base + length xs → p i ≡ q i)
      → keep p base xs ≡ keep q base xs
  unfolding keep
  keep-same p q base [] h = refl
  keep-same p q base (x ∷ xs) h =
      rw
        (
          h base (omega arith) (omega arith),
          keep-same p q (suc base) xs (λ i a b. h i (omega (arith, a)) (omega (arith, b))),
        )
        refl

  pub keep-++ :
      (p : ℕ → Bool) (base : ℕ) (xs ys : List A)
      → keep p base (xs ++ ys) ≡ keep p base xs ++ keep p (base + length xs) ys
  unfolding keep
  keep-++ p base [] ys = ap (λ b. keep p b ys) (omega arith)
  keep-++ p base (x ∷ xs) ys =
      let bound : base + length (x ∷ xs) ≡ suc base + length xs = omega arith in
      rw (keep-++ p (suc base) xs ys, bound)
        elim (Bool-cases (p base)) [ inl e ↦ rw e refl | inr e ↦ rw e refl ]

  pub keep-none :
      (p : ℕ → Bool) (base : ℕ) (xs : List A)
      → ((i : ℕ) → base ≤ i → i < base + length xs → p i ≡ false)
      → keep p base xs ≡ xs
  unfolding keep
  keep-none p base [] h = refl
  keep-none p base (x ∷ xs) h =
      rw
        (
          h base (omega arith) (omega arith),
          keep-none p (suc base) xs (λ i a b. h i (omega (arith, a)) (omega (arith, b))),
        )
        refl

  pub keep-all :
      (p : ℕ → Bool) (base : ℕ) (xs : List A)
      → ((i : ℕ) → base ≤ i → i < base + length xs → p i ≡ true)
      → keep p base xs ≡ []
  unfolding keep
  keep-all p base [] h = refl
  keep-all p base (x ∷ xs) h =
      rw (h base (omega arith) (omega arith))
        (keep-all p (suc base) xs (λ i a b. h i (omega (arith, a)) (omega (arith, b))))
