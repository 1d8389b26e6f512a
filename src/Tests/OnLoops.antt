-- ===== src/Tests/OnLoops.antt =====
-- Two embedded types that link to each other.
use realm_object_store.Base.{◌≡◌, true, false, refl, List, [], ◌∷◌, some}
use realm_object_store.Schema.Names.{Name, name_eq, compare_names}
use realm_object_store.Schema.Properties.{
  BaseType, Property, ObjectSchema, property_for_name, find_property, type_is_nullable,
  type_is_indexable,
}
use realm_object_store.Schema.Lookup.{find}
use realm_object_store.Schema.Loops.{looped, problems_of, do_check}
use realm_object_store.Schema.Loops.Decided.{Decides, do_check-Decides}
use realm_object_store.Schema.Validate.{validate, validate_properties, validate_property}

abbrev link_to : Name → Property
link_to n = record {
  name = 7 ∷ [];
  public_name = [];
  type = record { base = BaseType.object; nullable = true; array = false };
  object_type = n;
  link_origin_property_name = [];
  is_primary = false;
  is_indexed = false;
}

abbrev linking : Name → Name → ObjectSchema
linking n m = record {
  name = n;
  persisted_properties = link_to m ∷ [];
  computed_properties = [];
  primary_key = [];
  is_embedded = true;
}

abbrev rings : List ObjectSchema
rings = linking (1 ∷ []) (2 ∷ []) ∷ linking (2 ∷ []) (1 ∷ []) ∷ []

do_check-Decides_example :
    Decides rings (linking (1 ∷ []) (2 ∷ [])) (do_check rings (linking (1 ∷ []) (2 ∷ [])))
unfolding problems_of validate validate_properties validate_property find name_eq compare_names
    property_for_name find_property type_is_nullable type_is_indexable
do_check-Decides_example = do_check-Decides rings false (linking (1 ∷ []) (2 ∷ [])) refl refl

-- From the first type the path goes to the second and back.
rings_found : do_check rings (linking (1 ∷ []) (2 ∷ [])) ≡ some (looped (1 ∷ 46 ∷ 7 ∷ 46 ∷ 7 ∷ []))
unfolding do_check find name_eq compare_names
rings_found = refl
