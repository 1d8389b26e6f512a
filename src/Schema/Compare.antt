-- ===== src/Schema/Compare.antt =====
-- What `zip_matching` pairs, and that a schema differs from itself in nothing.
use realm_object_store.Base.{Bool, false, List, [], ◌∷◌, Option, some, ◌≡◌, refl, arith}
use realm_object_store.Schema.Names.{Name, name_eq, compare_names_self, name_eq_self}
use realm_object_store.Schema.Properties.{
  Property, ObjectSchema, property_for_name, find_property, has_property, property_eq,
}
use realm_object_store.Schema.Change.{
  zip_matching, changes_between, property_changes, added_properties, compare_objects, table_change,
  column_changes, concat_map, compare_schemas,
}

-- Names are distinct within a type, as `ObjectSchema::validate` asks.
abbrev pub Unnamed : Name → List Property → Type 0
Unnamed n [] = Unit {0}
Unnamed n (p ∷ ps) = (name_eq p.name n ≡ false) × (name_eq n p.name ≡ false) × Unnamed n ps

abbrev pub Distinct : List Property → Type 0
Distinct [] = Unit {0}
Distinct (p ∷ ps) = Unnamed p.name ps × Distinct ps

abbrev pub Apart : List Property → List Property → Type 0
Apart [] qs = Unit {0}
Apart (p ∷ ps) qs = Unnamed p.name qs × Apart ps qs

pub record IsNamed (o : ObjectSchema) : Type 0 where
  pub distinct : Distinct o.persisted_properties
  pub apart : Apart o.persisted_properties o.computed_properties

-- Each property of the list is found under its own name.
abbrev Finds : List Property → List Property → Type 0
Finds qs [] = Unit {0}
Finds qs (p ∷ ps) = (find_property p.name qs ≡ some p) × Finds qs ps

Finds-cons :
    (q : Property) (qs ps : List Property) → Unnamed q.name ps → Finds qs ps → Finds (q ∷ qs) ps
unfolding find_property
Finds-cons q qs [] u f = tt
Finds-cons q qs (p ∷ ps) u f = (ground (arith, u.1, f.0), Finds-cons q qs ps u.2 f.1)

find_property-Finds : (ps : List Property) → Distinct ps → Finds ps ps
unfolding find_property
find_property-Finds [] d = tt
find_property-Finds (p ∷ ps) d =
    (ground (arith, name_eq_self p.name), Finds-cons p ps ps d.0 (find_property-Finds ps d.1))

has_property-Unnamed :
    (p : Property) (qs : List Property) → Unnamed p.name qs → has_property p qs ≡ false
unfolding has_property property_eq
has_property-Unnamed p [] u = refl
has_property-Unnamed p (q ∷ qs) u = ground (arith, has_property-Unnamed p qs u.2)

changes_between_self : (o : ObjectSchema) (p : Property) → changes_between o p p ≡ []
unfolding changes_between
changes_between_self o p = ground (arith, name_eq_self p.object_type)

property_changes_self :
    (o : ObjectSchema) (ps : List Property)
    → Finds o.persisted_properties ps
    → Apart ps o.computed_properties
    → property_changes o o ps ≡ []
unfolding property_changes property_for_name
property_changes_self o [] f a = refl
property_changes_self o (p ∷ ps) f a =
    rw (f.0, has_property-Unnamed p o.computed_properties a.0, changes_between_self o p)
      (property_changes_self o ps f.1 a.1)

added_properties_self :
    (o : ObjectSchema) (ps : List Property)
    → Finds o.persisted_properties ps
    → added_properties o ps ≡ []
unfolding added_properties property_for_name
added_properties_self o [] f = refl
added_properties_self o (p ∷ ps) f = rw f.0 (added_properties_self o ps f.1)

compare_objects_self : (o : ObjectSchema) → IsNamed o → compare_objects o o ≡ []
unfolding compare_objects
compare_objects_self o h =
    let f = find_property-Finds o.persisted_properties h.distinct in
    rw
      (
        property_changes_self o o.persisted_properties f h.apart,
        added_properties_self o o.persisted_properties f,
        name_eq_self o.primary_key,
      )
      refl

abbrev both : List ObjectSchema → List (Option ObjectSchema × Option ObjectSchema)
both [] = []
both (o ∷ os) = (some o, some o) ∷ both os

zip_matching_self : (s : List ObjectSchema) → zip_matching s s ≡ both s
unfolding zip_matching
zip_matching_self [] = refl
zip_matching_self (o ∷ os) = ground (arith, compare_names_self o.name, zip_matching_self os)

abbrev pub AllNamed : List ObjectSchema → Type 0
AllNamed [] = Unit {0}
AllNamed (o ∷ os) = IsNamed o × AllNamed os

table_change-both :
    (removals : Bool) (s : List ObjectSchema) → concat_map (table_change removals) (both s) ≡ []
table_change-both removals [] = refl
table_change-both removals (o ∷ os) = ground (arith, table_change-both removals os)

column_changes-both : (s : List ObjectSchema) → AllNamed s → concat_map column_changes (both s) ≡ []
column_changes-both [] h = refl
column_changes-both (o ∷ os) h = rw (compare_objects_self o h.0) (column_changes-both os h.1)

-- A schema whose types have distinct property names has no changes to itself.
pub compare_schemas_self :
    (s : List ObjectSchema) (removals : Bool) → AllNamed s → compare_schemas s s removals ≡ []
unfolding compare_schemas
compare_schemas_self s removals h =
    rw (zip_matching_self s, table_change-both removals s, column_changes-both s h)
