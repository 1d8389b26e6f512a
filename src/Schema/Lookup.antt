-- ===== src/Schema/Lookup.antt =====
-- `Schema::find`, on the types of a schema, which are sorted by name.
use Prim.Native.Nat.{Ordering, lt}
use realm_object_store.Base.{
  Bool, true, false, List, [], ◌∷◌, Option, none, some, if◌then◌else◌, ◌≡◌, refl, arith,
}
use realm_object_store.Schema.Names.{
  Name, name_eq, compare_names, Less, Less-trans, compare_names-gt,
}
use realm_object_store.Schema.Properties.{ObjectSchema}

abbrev pub AllLess : Name → List ObjectSchema → Type 0
AllLess n [] = Unit {0}
AllLess n (o ∷ os) = Less n o.name × AllLess n os

-- `Schema` holds its types sorted by name, and a valid one has each name once.
abbrev pub IsSorted : List ObjectSchema → Type 0
IsSorted [] = Unit {0}
IsSorted (o ∷ os) = AllLess o.name os × IsSorted os

-- The type with a name, wherever it stands.
unfoldable pub lookup : Name → List ObjectSchema → Option ObjectSchema
lookup n [] = none
lookup n (o ∷ os) = if name_eq o.name n then some o else lookup n os

-- `std::lower_bound`: the types from the first that is not less than the name.
abbrev pub is_less : Ordering → Bool
is_less lt = true
is_less _ = false

abbrev pub lower_bound : Name → List ObjectSchema → List ObjectSchema
lower_bound n [] = []
lower_bound n (o ∷ os) =
    let rest = lower_bound n os in if is_less (compare_names o.name n) then rest else o ∷ os

abbrev pub if_named : Name → List ObjectSchema → Option ObjectSchema
if_named n [] = none
if_named n (o ∷ os) = if name_eq o.name n then some o else none

unfoldable pub find : Name → List ObjectSchema → Option ObjectSchema
find n os = if_named n (lower_bound n os)

pub AllLess-trans : (m n : Name) (os : List ObjectSchema) → Less m n → AllLess n os → AllLess m os
AllLess-trans m n [] h a = tt
AllLess-trans m n (o ∷ os) h a = (Less-trans m n o.name h a.0, AllLess-trans m n os h a.1)

pub Less-asym : (a b : Name) → Less a b → name_eq b a ≡ false
unfolding name_eq compare_names
Less-asym [] [] h = cc
Less-asym [] (y ∷ ys) h = refl
Less-asym (x ∷ xs) [] h = cc
Less-asym (x ∷ xs) (y ∷ ys) h = ground (arith, Less-asym xs ys)

pub lookup-AllLess : (n : Name) (os : List ObjectSchema) → AllLess n os → lookup n os ≡ none
unfolding lookup
lookup-AllLess n [] a = refl
lookup-AllLess n (o ∷ os) a = ground (arith, Less-asym n o.name a.0, lookup-AllLess n os a.1)

Less-cases :
    (o : ObjectSchema) (n : Name) (os : List ObjectSchema)
    → AllLess o.name os
    → Less n o.name
    → (name_eq o.name n ≡ false) × (lookup n os ≡ none)
Less-cases o n os w h = (Less-asym n o.name h, lookup-AllLess n os (AllLess-trans n o.name os h w))

-- On a sorted list the binary search finds the type with the name wherever it stands.
pub find-lookup : (n : Name) (os : List ObjectSchema) → IsSorted os → find n os ≡ lookup n os
unfolding find lookup name_eq
find-lookup n [] s = refl
find-lookup n (o ∷ os) s =
    ground (arith, find-lookup n os s.1, Less-cases o n os s.0, compare_names-gt o.name n)
