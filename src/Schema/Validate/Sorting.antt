-- ===== src/Schema/Validate/Sorting.antt =====
-- What `std::sort`, `std::adjacent_find` and `std::set_intersection` find out about names.
use Prim.Native.Nat.{Ordering, lt, eq, gt}
use realm_object_store.Base.{
  ℕ, ◌+◌, ◌≤◌, ◌<◌, ◌≡◌, refl, ◌∙◌, sym, ap, subst, true, false, List, [], ◌∷◌, arith,
  if◌then◌else◌, Bool-cases, inl, inr, ◌⊎◌, ◌↔◌,
}
use realm_object_store.Schema.Names.{
  Name, name_eq, name_eq_self, name_eq→eq, compare_names, compare_names-eq, compare_names-gt, Less,
  Less-trans,
}
use realm_object_store.Schema.Lookup.{Less-asym}
use realm_object_store.Schema.Validate.{insert_name, sort_names, duplicates, common}

when_unlike : (a b : Name) → name_eq a b ≡ false → Less a b ⊎ (a ≡ b) → Less a b
when_unlike a b h (inl l) = l
when_unlike a b h (inr e) =
    let clash : true ≡ false = sym (name_eq_self a) ∙ ap (name_eq a) e ∙ h in cc

-- How often a name occurs.
unfoldable pub times : Name → List Name → ℕ
unfolding name_eq
times n [] = 0
times n (m ∷ ms) = (if name_eq m n then 1 else 0) + times n ms

abbrev pub AtMostOnce : List Name → Type 0
AtMostOnce ns = (n : Name) → times n ns ≤ 1

module _ {ℓ} (P : Ordering → Type ℓ) (a b : Name) where
  name_cases :
      (o : Ordering)
      → compare_names a b ≡ o
      → (Less a b → P lt)
      → (a ≡ b → P eq)
      → (Less b a → P gt)
      → P o
  name_cases lt e f g h = f e
  name_cases eq e f g h = g (compare_names-eq a b e)
  name_cases gt e f g h = h (compare_names-gt a b e)

  -- What holds of each order of two names holds of their comparison.
  name_intro : (Less a b → P lt) → (a ≡ b → P eq) → (Less b a → P gt) → P (compare_names a b)
  name_intro f g h = name_cases (compare_names a b) refl f g h

times-insert_name : (n m : Name) (ms : List Name) → times n (insert_name m ms) ≡ times n (m ∷ ms)
unfolding times insert_name
times-insert_name n m [] = refl
times-insert_name n m (k ∷ ks) = ground (arith, times-insert_name n m ks)

times-sort_names : (n : Name) (ms : List Name) → times n (sort_names ms) ≡ times n ms
unfolding times sort_names
times-sort_names n [] = refl
times-sort_names n (m ∷ ms) =
    times-insert_name n m (sort_names ms)
    ∙ ap (λ t. (if name_eq m n then 1 else 0) + t) (times-sort_names n ms)

-- No name of the list comes before the given one.
abbrev AtLeast : Name → List Name → Type 0
AtLeast n [] = Unit {0}
AtLeast n (m ∷ ms) = (Less n m ⊎ (n ≡ m)) × AtLeast n ms

abbrev IsOrdered : List Name → Type 0
IsOrdered [] = Unit {0}
IsOrdered (n ∷ ns) = AtLeast n ns × IsOrdered ns

AtLeast-trans : (n m : Name) (ms : List Name) → Less n m → AtLeast m ms → AtLeast n ms
AtLeast-trans n m [] h a = tt
AtLeast-trans n m (k ∷ ks) h a = (
  elim (a.0) [ inl l ↦ inl (Less-trans n m k h l) | inr e ↦ inl (subst (Less n) e h) ],
  AtLeast-trans n m ks h a.1,
)

AtLeast-insert_name :
    (n m : Name) (ms : List Name)
    → (Less n m ⊎ (n ≡ m))
    → AtLeast n ms
    → AtLeast n (insert_name m ms)
unfolding insert_name
AtLeast-insert_name n m [] h a = (h, tt)
AtLeast-insert_name n m (k ∷ ks) h a = ground (arith, AtLeast-insert_name n m ks)

insert_name-IsOrdered : (m : Name) (ms : List Name) → IsOrdered ms → IsOrdered (insert_name m ms)
unfolding insert_name
insert_name-IsOrdered m [] o = (tt, tt)
insert_name-IsOrdered m (k ∷ ks) o =
    name_intro (λ r. IsOrdered (elim r [ lt ↦ k ∷ insert_name m ks | _ ↦ m ∷ k ∷ ks ])) k m
      (λ h. (AtLeast-insert_name k m ks (inl h) o.0, insert_name-IsOrdered m ks o.1))
      (λ e. ((inr (sym e), subst (λ x. AtLeast x ks) e o.0), o))
      (λ h. ((inl h, AtLeast-trans m k ks h o.0), o))

sort_names-IsOrdered : (ms : List Name) → IsOrdered (sort_names ms)
unfolding sort_names
sort_names-IsOrdered [] = tt
sort_names-IsOrdered (m ∷ ms) = insert_name-IsOrdered m (sort_names ms) (sort_names-IsOrdered ms)

times-AtLeast : (n m : Name) (ms : List Name) → Less n m → AtLeast m ms → times n ms ≡ 0
unfolding times
times-AtLeast n m [] h a = refl
times-AtLeast n m (k ∷ ks) h a =
    let later : Less n k = elim (a.0) [
      | inl l ↦ Less-trans n m k h l
      | inr e ↦ subst (Less n) e h
    ] in
    rw (Less-asym n k later) (omega (arith, times-AtLeast n m ks h a.1))

-- Names in order have a duplicate where some name occurs twice.
duplicates-AtMostOnce : (ms : List Name) → IsOrdered ms → duplicates ms ≡ [] → AtMostOnce ms
unfolding duplicates times
duplicates-AtMostOnce [] o h n = omega arith
duplicates-AtMostOnce (m ∷ []) o h n = ground arith
duplicates-AtMostOnce (m ∷ k ∷ ks) o h n = elim (Bool-cases (name_eq m k)) [
  | inl e ↦ let clash : m ∷ duplicates ks ≡ [] = rw e at h in cc
  | inr e ↦
      let less : Less m k = when_unlike m k e o.0.0 in
      let none_later = times-AtLeast m k (k ∷ ks) less (inr refl, o.1.0) in
      let rest = duplicates-AtMostOnce (k ∷ ks) o.1 (rw e at h) n in
      elim (Bool-cases (name_eq m n)) [
        | inl f ↦
            let here : times n (k ∷ ks) ≡ 0 =
              subst (λ x. times x (k ∷ ks) ≡ 0) (name_eq→eq m n f) none_later in
            rw f (omega (arith, here))
        | inr f ↦ rw f (omega (arith, rest))
      ]
]

AtMostOnce-duplicates : (ms : List Name) → AtMostOnce ms → duplicates ms ≡ []
unfolding duplicates times
AtMostOnce-duplicates [] h = refl
AtMostOnce-duplicates (m ∷ []) h = refl
AtMostOnce-duplicates (m ∷ k ∷ ks) h = elim (Bool-cases (name_eq m k)) [
  | inl e ↦
      let twice : times m (m ∷ k ∷ ks) ≡ 1 + (1 + times m ks) =
        rw (sym (name_eq→eq m k e), name_eq_self m) refl in
      absurd (omega (arith, twice, h m))
  | inr e ↦ rw e (AtMostOnce-duplicates (k ∷ ks) (λ n. omega (arith, h n)))
]

-- No name occurs in both lists.
abbrev pub NoneShared : List Name → List Name → Type 0
NoneShared ms ks = (n : Name) → 0 < times n ms → times n ks ≡ 0

times_behind : (n m : Name) (ms : List Name) → Less n m → AtLeast m ms → times n (m ∷ ms) ≡ 0
times_behind n m ms h a = times-AtLeast n m (m ∷ ms) h (inr refl, a)

-- One step of the intersection.
abbrev step : Name → List Name → Name → List Name → Ordering → List Name
step m ms k ks lt = common ms (k ∷ ks)
step m ms k ks eq = m ∷ common ms ks
step m ms k ks gt = common (m ∷ ms) ks

times_tail :
    (n m : Name) (ms : List Name) → name_eq m n ≡ false → 0 < times n (m ∷ ms) → 0 < times n ms
unfolding times
times_tail n m ms e f = let later : 0 < 0 + times n ms = rw e at f in omega (arith, later)

common-NoneShared :
    (ms ks : List Name) → IsOrdered ms → IsOrdered ks → common ms ks ≡ [] → NoneShared ms ks
unfolding common times
common-NoneShared [] ks o p h n f = absurd (omega (arith, f))
common-NoneShared (m ∷ ms) [] o p h n f = refl
common-NoneShared (m ∷ ms) (k ∷ ks) o p h n f =
    name_intro (λ r. step m ms k ks r ≡ [] → times n (k ∷ ks) ≡ 0) m k
      (λ l q. elim (Bool-cases (name_eq m n)) [
        | inl e ↦ subst (λ x. times x (k ∷ ks) ≡ 0) (name_eq→eq m n e) (times_behind m k ks l p.0)
        | inr e ↦ common-NoneShared ms (k ∷ ks) o.1 p q n (times_tail n m ms e f)
      ])
      (λ e q. cc)
      (λ g q. elim (Bool-cases (name_eq k n)) [
        | inl e ↦ absurd (
            omega (
              arith,
              f,
              subst (λ x. times x (m ∷ ms) ≡ 0) (name_eq→eq k n e) (times_behind k m ms g o.0),
            ))
        | inr e ↦ rw e (omega (arith, common-NoneShared (m ∷ ms) ks o p.1 q n f))
      ])
      h

NoneShared-common : (ms ks : List Name) → NoneShared ms ks → common ms ks ≡ []
unfolding common times
NoneShared-common [] ks h = refl
NoneShared-common (m ∷ ms) [] h = refl
NoneShared-common (m ∷ ms) (k ∷ ks) h =
    name_intro (λ r. step m ms k ks r ≡ []) m k
      (λ l. NoneShared-common ms (k ∷ ks) (λ n f. h n (omega (arith, f))))
      (λ e.
        let one : times m (m ∷ ms) ≡ 1 + times m ms = rw (name_eq_self m) refl in
        let two : times m (k ∷ ks) ≡ 1 + times m ks = rw (sym e, name_eq_self m) refl in
        absurd (omega (arith, one, two, h m)))
      (λ g. NoneShared-common (m ∷ ms) ks (λ n f. omega (arith, h n f)))

-- The search for duplicates in the sorted names finds one exactly where a name occurs twice.
pub duplicates-sort_names : (ns : List Name) → (duplicates (sort_names ns) ≡ []) ↔ AtMostOnce ns
duplicates-sort_names ns = (
  (λ h n. omega (
    arith,
    times-sort_names n ns,
    duplicates-AtMostOnce (sort_names ns) (sort_names-IsOrdered ns) h n,
  )),
  (λ h. AtMostOnce-duplicates (sort_names ns) (λ n. omega (arith, times-sort_names n ns, h n))),
)

-- And the intersection of sorted names is empty exactly where they share none.
pub common-sort_names :
    (ns ms : List Name) → (common (sort_names ns) (sort_names ms) ≡ []) ↔ NoneShared ns ms
common-sort_names ns ms = (
  (λ h n f. omega (
    arith,
    times-sort_names n ms,
    common-NoneShared (sort_names ns) (sort_names ms) (sort_names-IsOrdered ns)
        (sort_names-IsOrdered ms) h n (omega (arith, times-sort_names n ns, f)),
  )),
  (λ h.
      NoneShared-common (sort_names ns) (sort_names ms) (λ n f.
        omega (arith, times-sort_names n ms, h n (omega (arith, times-sort_names n ns, f))))),
)
