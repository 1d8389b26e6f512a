-- ===== src/Schema/Change.antt =====
-- `SchemaChange`, and `Schema::compare`, which finds the changes from one schema to another.
use Prim.Native.Nat.{lt, eq, gt}
use realm_object_store.Base.{
  Bool, not, ◌||◌, List, [], ◌∷◌, ◌++◌, Option, none, some, if◌then◌else◌,
}
use realm_object_store.Schema.Names.{name_eq, compare_names}
use realm_object_store.Schema.Properties.{
  Property, ObjectSchema, bool_eq, same_type, requires_index, property_for_name,
  property_is_computed, primary_key_property,
}

pub data SchemaChange : Type 0 where
  add_table remove_table change_table_type add_initial_properties : ObjectSchema → SchemaChange
  add_property remove_property : ObjectSchema → Property → SchemaChange
  change_property_type : ObjectSchema → Property → Property → SchemaChange
  make_property_nullable make_property_required : ObjectSchema → Property → SchemaChange
  add_index remove_index : ObjectSchema → Property → SchemaChange
  change_primary_key : ObjectSchema → Option Property → SchemaChange

-- `zip_matching`: the calls of its function, in order, on two lists that are sorted by name.
unfoldable pub zip_matching :
    List ObjectSchema → List ObjectSchema → List (Option ObjectSchema × Option ObjectSchema)
zip_matching [] [] = []
zip_matching [] (b ∷ bs) = (none, some b) ∷ zip_matching [] bs
zip_matching (a ∷ as') [] = (some a, none) ∷ zip_matching as' []
zip_matching (a ∷ as') (b ∷ bs) = elim (compare_names a.name b.name) [
  | eq ↦ (some a, some b) ∷ zip_matching as' bs
  | lt ↦ (some a, none) ∷ zip_matching as' (b ∷ bs)
  | gt ↦ (none, some b) ∷ zip_matching (a ∷ as') bs
]

abbrev nullability_change : ObjectSchema → Property → Property → List SchemaChange
nullability_change o current target =
    if bool_eq current.type.nullable target.type.nullable
    then []
    else if current.type.nullable
    then make_property_required o current ∷ []
    else make_property_nullable o current ∷ []

abbrev index_change : ObjectSchema → Property → Property → List SchemaChange
index_change o current target =
    if requires_index target
    then (if current.is_indexed then [] else add_index o current ∷ [])
    else if requires_index current
    then remove_index o current ∷ []
    else []

-- What the first loop of `compare` finds for a property that is in both types.
unfoldable pub changes_between : ObjectSchema → Property → Property → List SchemaChange
changes_between o current target =
    if not (same_type current.type target.type)
      || not (name_eq current.object_type target.object_type)
      || not (bool_eq current.type.array target.type.array)
    then change_property_type o current target ∷ []
    else nullability_change o current target ++ index_change o current target

abbrev pub against : ObjectSchema → ObjectSchema → Property → Option Property → List SchemaChange
against existing target current none = remove_property existing current ∷ []
against existing target current (some p) =
    if property_is_computed target p
    then remove_property existing current ∷ []
    else changes_between existing current p

unfoldable pub property_changes : ObjectSchema → ObjectSchema → List Property → List SchemaChange
unfolding changes_between property_is_computed
property_changes existing target [] = []
property_changes existing target (p ∷ ps) =
    against existing target p (property_for_name target p.name)
    ++ property_changes existing target ps

abbrev added_if_new : ObjectSchema → Property → Option Property → List SchemaChange
added_if_new existing p none = add_property existing p ∷ []
added_if_new existing p (some q) = []

-- The second loop of `compare`.
unfoldable pub added_properties : ObjectSchema → List Property → List SchemaChange
added_properties existing [] = []
added_properties existing (p ∷ ps) =
    added_if_new existing p (property_for_name existing p.name) ++ added_properties existing ps

-- `compare(existing_schema, target_schema, changes)`
unfoldable pub compare_objects : ObjectSchema → ObjectSchema → List SchemaChange
unfolding property_changes added_properties
compare_objects existing target =
    property_changes existing target existing.persisted_properties
    ++ added_properties existing target.persisted_properties
    ++ (if name_eq existing.primary_key target.primary_key
        then []
        else change_primary_key existing (primary_key_property target) ∷ [])

-- The functions of the two passes of `Schema::compare`.
abbrev pub table_change : Bool → Option ObjectSchema × Option ObjectSchema → List SchemaChange
table_change removals (none, none) = []
table_change removals (some target, none) = add_table target ∷ []
table_change removals (none, some existing) = if removals then remove_table existing ∷ [] else []
table_change removals (some target, some existing) =
    if bool_eq existing.is_embedded target.is_embedded then [] else change_table_type target ∷ []

abbrev pub column_changes : Option ObjectSchema × Option ObjectSchema → List SchemaChange
column_changes (some target, some existing) = compare_objects existing target
column_changes (some target, none) = add_initial_properties target ∷ []
column_changes (none, existing) = []

abbrev pub concat_map {ℓ κ} : {A : Type ℓ} {B : Type κ} → (A → List B) → List A → List B
concat_map f [] = []
concat_map f (x ∷ xs) = f x ++ concat_map f xs

-- `existing.compare(target, include_table_removals)`
unfoldable pub compare_schemas : List ObjectSchema → List ObjectSchema → Bool → List SchemaChange
unfolding zip_matching compare_objects
compare_schemas existing target removals =
    concat_map (table_change removals) (zip_matching target existing)
    ++ concat_map column_changes (zip_matching target existing)
