-- ===== src/Schema/Validate.antt =====
-- `ObjectSchema::validate` of src/object_schema.cpp: the problems that it reports for a type. A
-- problem has the arguments of its message. Names are ordered by their bytes, as in `Schema::find`.
pub mod Sorting
pub mod Typing
pub mod Accepts
pub mod Unchanged
use Prim.Native.Nat.{Ordering, lt, eq, gt}
use realm_object_store.Base.{
  ◌+◌, Bool, true, false, not, ◌&&◌, ◌||◌, List, [], ◌∷◌, ◌++◌, map, Option, none, some,
  if◌then◌else◌,
}
use realm_object_store.Schema.Names.{Name, name_eq, is_empty, compare_names}
use realm_object_store.Schema.Properties.{
  BaseType, int, string, object, linking_objects, object_id, PropertyType, same_base, Property,
  type_is_indexable, type_is_nullable, ObjectSchema, property_for_name, primary_key_property,
  or_property,
}
use realm_object_store.Schema.Lookup.{find}

-- The messages, in the order of the source; where one prints a type, the type itself.
pub data Problem : Type 0 where
  repeated_alias repeated_property : Name → Name → Problem
  conflicting_alias : Name → Option Property → Name → Problem
  links_not_array : Name → Name → Problem
  cannot_be_nullable : Name → Name → PropertyType → Problem
  must_be_nullable : Name → Name → Problem
  cannot_be_primary_key : Name → Name → PropertyType → Problem
  both_primary : Name → Name → Name → Problem
  cannot_be_indexed cannot_have_origin must_have_origin : Name → Name → PropertyType → Problem
  cannot_have_object_type : Name → Property → Problem
  unknown_object_type : Name → Name → PropertyType → Name → Problem
  no_origin origin_not_link : Name → Name → Name → Name → Problem
  origin_to_other : Name → Name → Name → Name → Name → Problem
  embedded_primary_key : Name → Problem
  no_primary_key : Name → Name → Problem
  no_sync_key : Name → Problem
  wrong_sync_key : Name → Name → Problem

-- `if (test) exceptions.emplace_back(problem)`
abbrev pub when : Bool → Problem → List Problem
when b p = if b then p ∷ [] else []

-- `property_for_public_name`: the loops over the persisted and the computed properties.
abbrev has_public_name : Name → Property → Bool
has_public_name n p = name_eq (if is_empty p.public_name then p.name else p.public_name) n

abbrev persisted_public : Name → List Property → Option Property
persisted_public n [] = none
persisted_public n (p ∷ ps) =
    let rest = persisted_public n ps in
    if name_eq p.public_name n || (is_empty p.public_name && name_eq p.name n) then some p else rest

abbrev computed_public : Name → List Property → Option Property
computed_public n [] = none
computed_public n (p ∷ ps) =
    let rest = computed_public n ps in if has_public_name n p then some p else rest

unfoldable pub property_for_public_name : ObjectSchema → Name → Option Property
property_for_public_name o n =
    or_property (persisted_public n o.persisted_properties)
      (computed_public n o.computed_properties)

-- `nullablity`
abbrev pub check_nullable : Name → Property → List Problem
check_nullable owner p =
    if p.type.nullable && not (type_is_nullable p.type)
    then cannot_be_nullable owner p.name p.type ∷ []
    else when (same_base p.type.base object && not p.type.nullable && not p.type.array)
        (must_be_nullable owner p.name)

abbrev pub can_be_primary : PropertyType → Bool
can_be_primary t = same_base t.base int || same_base t.base string || same_base t.base object_id

abbrev already_primary : Name → Name → Option Name → List Problem
already_primary owner n none = []
already_primary owner n (some m) = both_primary n m owner ∷ []

-- The primary key that is found so far is kept by its name.
abbrev pub check_primary : Name → Property → Option Name → List Problem
check_primary owner p primary =
    if p.is_primary
    then when (not (can_be_primary p.type)) (cannot_be_primary_key owner p.name p.type)
      ++ already_primary owner p.name primary
    else []

abbrev pub next_primary : Property → Option Name → Option Name
next_primary p primary = if p.is_primary then some p.name else primary

abbrev pub check_indexed : Name → Property → List Problem
check_indexed owner p =
    when (p.is_indexed && not (type_is_indexable p.type)) (cannot_be_indexed owner p.name p.type)

abbrev pub check_has_origin : Name → Property → List Problem
check_has_origin owner p =
    if not (same_base p.type.base linking_objects) && not (is_empty p.link_origin_property_name)
    then cannot_have_origin owner p.name p.type ∷ []
    else when (same_base p.type.base linking_objects && is_empty p.link_origin_property_name)
        (must_have_origin owner p.name p.type)

abbrev pub check_origin : Name → Property → Option Property → List Problem
check_origin owner p none = no_origin p.object_type p.link_origin_property_name owner p.name ∷ []
check_origin owner p (some q) =
    if not (same_base q.type.base object)
    then origin_not_link p.object_type p.link_origin_property_name owner p.name ∷ []
    else when (not (name_eq q.object_type owner))
        (origin_to_other p.object_type p.link_origin_property_name owner p.name q.object_type)

abbrev pub check_target : Name → Property → Option ObjectSchema → List Problem
check_target owner p none = unknown_object_type owner p.name p.type p.object_type ∷ []
check_target owner p (some target) =
    if not (same_base p.type.base linking_objects)
    then []
    else check_origin owner p (property_for_name target p.link_origin_property_name)

abbrev pub is_link : Property → Bool
is_link p = same_base p.type.base object || same_base p.type.base linking_objects

abbrev pub check_object_type : List ObjectSchema → Name → Property → List Problem
check_object_type schema owner p =
    if is_link p
    then check_target owner p (find p.object_type schema)
    else when (not (is_empty p.object_type)) (cannot_have_object_type owner p)

-- `validate_property`
unfoldable pub validate_property : List ObjectSchema → Name → Property → Option Name → List Problem
validate_property schema owner p primary =
    when (same_base p.type.base linking_objects && not p.type.array) (links_not_array owner p.name)
    ++ check_nullable owner p
    ++ check_primary owner p primary
    ++ check_indexed owner p
    ++ check_has_origin owner p
    ++ check_object_type schema owner p

-- The loops over the properties, with the primary key that is found.
unfoldable pub validate_properties :
    List ObjectSchema → Name → List Property → Option Name → Option Name × List Problem
unfolding validate_property
validate_properties schema owner [] primary = (primary, [])
validate_properties schema owner (p ∷ ps) primary =
    let (found, rest) = validate_properties schema owner ps (next_primary p primary) in
    (found, validate_property schema owner p primary ++ rest)

-- `gather_names`
abbrev pub internal_names : List Property → List Name
internal_names [] = []
internal_names (p ∷ ps) = p.name ∷ internal_names ps

abbrev pub public_names : List Property → List Name
public_names [] = []
public_names (p ∷ ps) =
    let rest = public_names ps in if is_empty p.public_name then rest else p.public_name ∷ rest

-- `std::sort`
unfoldable pub insert_name : Name → List Name → List Name
insert_name n [] = n ∷ []
insert_name n (m ∷ ms) =
    let rest = insert_name n ms in elim (compare_names m n) [ lt ↦ m ∷ rest | _ ↦ n ∷ m ∷ ms ]

unfoldable pub sort_names : List Name → List Name
unfolding insert_name
sort_names [] = []
sort_names (n ∷ ns) = insert_name n (sort_names ns)

-- `for_each_duplicate`: after two adjacent names that are equal the search goes on behind both.
unfoldable pub duplicates : List Name → List Name
duplicates [] = []
duplicates (n ∷ []) = []
duplicates (n ∷ m ∷ ms) =
    let behind = duplicates ms in
    let next = duplicates (m ∷ ms) in if name_eq n m then n ∷ behind else next

-- `std::set_intersection`
unfoldable pub common : List Name → List Name → List Name
common [] bs = []
common (a ∷ ls) [] = []
common (a ∷ ls) (b ∷ bs) =
    let past_a = common ls (b ∷ bs) in
    let past_b = common (a ∷ ls) bs in
    let both = common ls bs in
    elim (compare_names a b) [ lt ↦ past_a | eq ↦ a ∷ both | gt ↦ past_b ]

abbrev pub is_none {ℓ} : {A : Type ℓ} → Option A → Bool
is_none none = true
is_none (some a) = false

-- The bytes of "_id".
abbrev pub id_name : Name
id_name = 95 ∷ 105 ∷ 100 ∷ []

abbrev pub check_key : ObjectSchema → Option Name → List Problem
check_key o primary =
    when (not (is_empty o.primary_key) && o.is_embedded) (embedded_primary_key o.name)
    ++ when (not (is_empty o.primary_key) && is_none primary && is_none (primary_key_property o))
        (no_primary_key o.name o.primary_key)

abbrev pub check_sync : ObjectSchema → Bool → List Problem
check_sync o for_sync =
    if for_sync && not o.is_embedded
    then (if is_empty o.primary_key
        then no_sync_key o.name ∷ []
        else when (not (name_eq o.primary_key id_name)) (wrong_sync_key o.primary_key o.name))
    else []

abbrev pub check_names : ObjectSchema → List Problem
check_names o =
    let ps = o.persisted_properties ++ o.computed_properties in
    let publics = sort_names (public_names ps) in
    let internals = sort_names (internal_names ps) in
    map (λ n. repeated_alias n o.name) (duplicates publics)
    ++ map (λ n. repeated_property n o.name) (duplicates internals)
    ++ map (λ n. conflicting_alias o.name (property_for_public_name o n) n)
        (common publics internals)

-- `ObjectSchema::validate`
unfoldable pub validate : List ObjectSchema → ObjectSchema → Bool → List Problem
unfolding validate_properties sort_names duplicates common property_for_public_name
validate schema o for_sync =
    let (primary, problems) =
      validate_properties schema o.name (o.persisted_properties ++ o.computed_properties) none in
    check_names o ++ problems ++ check_key o primary ++ check_sync o for_sync
