-- ===== src/Schema/Names.antt =====
-- Names of types and properties (`std::string`) as their bytes, with the order of `compare`.
use Prim.Native.Nat.{compare, Ordering, lt, eq, gt}
use realm_object_store.Base.{ℕ, Bool, true, false, List, [], ◌∷◌, ◌≡◌, refl, arith}

abbrev pub Name : Type 0
Name = List ℕ

-- `lft.compare(rgt)`: the first byte that differs decides, and of two equal starts the shorter.
unfoldable pub compare_names : Name → Name → Ordering
compare_names [] [] = eq
compare_names [] (y ∷ ys) = lt
compare_names (x ∷ xs) [] = gt
compare_names (x ∷ xs) (y ∷ ys) =
    let rest = compare_names xs ys in elim (compare x y) [ lt ↦ lt | eq ↦ rest | gt ↦ gt ]

abbrev pub is_eq : Ordering → Bool
is_eq eq = true
is_eq _ = false

-- `lft == rgt`
unfoldable pub name_eq : Name → Name → Bool
unfolding compare_names
name_eq a b = is_eq (compare_names a b)

abbrev pub is_empty : Name → Bool
is_empty [] = true
is_empty (x ∷ xs) = false

pub compare_names_self : (a : Name) → compare_names a a ≡ eq
unfolding compare_names
compare_names_self [] = refl
compare_names_self (x ∷ xs) = ground (arith, compare_names_self xs)

pub name_eq_self : (a : Name) → name_eq a a ≡ true
unfolding name_eq
name_eq_self a = ground (arith, compare_names_self a)

pub compare_names-eq : (a b : Name) → compare_names a b ≡ eq → a ≡ b
unfolding compare_names
compare_names-eq [] [] h = refl
compare_names-eq [] (y ∷ ys) h = cc
compare_names-eq (x ∷ xs) [] h = cc
compare_names-eq (x ∷ xs) (y ∷ ys) h = ground (arith, compare_names-eq xs ys)

-- `lft < rgt`, as `std::sort` and `std::lower_bound` use it.
abbrev pub Less : Name → Name → Type 0
Less a b = compare_names a b ≡ lt

pub Less-trans : (a b c : Name) → Less a b → Less b c → Less a c
unfolding compare_names
Less-trans [] [] c h k = cc
Less-trans [] (y ∷ ys) [] h k = cc
Less-trans [] (y ∷ ys) (z ∷ zs) h k = refl
Less-trans (x ∷ xs) [] c h k = cc
Less-trans (x ∷ xs) (y ∷ ys) [] h k = cc
Less-trans (x ∷ xs) (y ∷ ys) (z ∷ zs) h k = ground (arith, Less-trans xs ys zs)

pub compare_names-gt : (a b : Name) → compare_names a b ≡ gt → Less b a
unfolding compare_names
compare_names-gt [] [] h = cc
compare_names-gt [] (y ∷ ys) h = cc
compare_names-gt (x ∷ xs) [] h = refl
compare_names-gt (x ∷ xs) (y ∷ ys) h = ground (arith, compare_names-gt xs ys)

pub name_eq→eq : (a b : Name) → name_eq a b ≡ true → a ≡ b
unfolding name_eq
name_eq→eq a b h = compare_names-eq a b (ground arith)
