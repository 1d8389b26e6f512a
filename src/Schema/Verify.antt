-- ===== src/Schema/Verify.antt =====
-- The verifiers of src/object_store.cpp: which changes each mode of opening a file accepts. Where the
-- source throws an exception with a list of messages, the model returns the list.
pub mod Laws
use realm_object_store.Base.{
  ℕ, Bool, true, false, not, ◌&&◌, ◌||◌, List, [], ◌∷◌, ◌++◌, Option, none, some, if◌then◌else◌,
}
use realm_object_store.Schema.Names.{Name, is_empty}
use realm_object_store.Schema.Properties.{Property, PropertyType, ObjectSchema}
use realm_object_store.Schema.Change.{
  SchemaChange, add_table, remove_table, change_table_type, add_initial_properties, add_property,
  remove_property, change_property_type, make_property_nullable, make_property_required, add_index,
  remove_index, change_primary_key, concat_map,
}

-- The messages, with the names that are put into them.
pub data Message : Type 0 where
  class_added class_removed class_made_embedded class_made_top_level : Name → Message
  property_added property_removed made_optional made_required made_indexed made_unindexed :
      Name → Name → Message
  property_type_changed : Name → Name → Property → Property → Message
  primary_key_changed : Name → Name → Name → Message
  primary_key_added primary_key_removed : Name → Message

abbrev explain_primary_key : ObjectSchema → Option Property → List Message
explain_primary_key o none = primary_key_removed o.name ∷ []
explain_primary_key o (some p) =
    if not (is_empty o.primary_key)
    then primary_key_changed o.name o.primary_key p.name ∷ []
    else primary_key_added o.name ∷ []

-- `SchemaDifferenceExplainer`
unfoldable pub explain : SchemaChange → List Message
explain (add_table o) = class_added o.name ∷ []
explain (remove_table o) = []
explain (change_table_type o) =
    if o.is_embedded then class_made_embedded o.name ∷ [] else class_made_top_level o.name ∷ []
explain (add_initial_properties o) = []
explain (add_property o p) = property_added o.name p.name ∷ []
explain (remove_property o p) = property_removed o.name p.name ∷ []
explain (change_property_type o old new) = property_type_changed o.name new.name old new ∷ []
explain (make_property_nullable o p) = made_optional o.name p.name ∷ []
explain (make_property_required o p) = made_required o.name p.name ∷ []
explain (change_primary_key o p) = explain_primary_key o p
explain (add_index o p) = made_indexed o.name p.name ∷ []
explain (remove_index o p) = made_unindexed o.name p.name ∷ []

pub data Verdict {ℓ} (A : Type ℓ) : Type ℓ where
  accepted : A → Verdict A
  thrown : List Message → Verdict A

abbrev verdict {ℓ} : {A : Type ℓ} → A → List Message → Verdict A
verdict a [] = accepted a
verdict a (m ∷ ms) = thrown (m ∷ ms)

-- `verify_no_errors`: the verifier visits every change, and what it collected is thrown.
unfoldable pub verify_no_errors :
    (SchemaChange → List Message) → List SchemaChange → Verdict (Unit {0})
verify_no_errors verifier changes = verdict tt (concat_map verifier changes)

-- `needs_migration`
abbrev pub needs_migration_for : SchemaChange → Bool
needs_migration_for (add_index o p) = false
needs_migration_for (add_initial_properties o) = false
needs_migration_for (add_table o) = false
needs_migration_for (remove_table o) = false
needs_migration_for (remove_index o p) = false
needs_migration_for _ = true

abbrev pub any_of : (SchemaChange → Bool) → List SchemaChange → Bool
any_of f [] = false
any_of f (c ∷ cs) = f c || any_of f cs

unfoldable pub needs_migration : List SchemaChange → Bool
needs_migration changes = any_of needs_migration_for changes

-- `verify_no_changes_required`
unfoldable pub verify_no_changes_required : List SchemaChange → Verdict (Unit {0})
unfolding verify_no_errors explain
verify_no_changes_required = verify_no_errors explain

-- `verify_no_migration_required`
unfoldable pub explain_migration : SchemaChange → List Message
unfolding explain
explain_migration (add_table o) = []
explain_migration (add_initial_properties o) = []
explain_migration (add_index o p) = []
explain_migration (remove_index o p) = []
explain_migration c = explain c

unfoldable pub verify_no_migration_required : List SchemaChange → Verdict (Unit {0})
unfolding verify_no_errors explain_migration
verify_no_migration_required = verify_no_errors explain_migration

-- `verify_valid_additive_changes`: its verifier also notes what kinds of changes there are.
unfoldable pub explain_additive : SchemaChange → List Message
unfolding explain
explain_additive (add_table o) = []
explain_additive (add_initial_properties o) = []
explain_additive (add_property o p) = []
explain_additive (remove_property o p) = []
explain_additive (add_index o p) = []
explain_additive (remove_index o p) = []
explain_additive c = explain c

abbrev pub is_index_change : SchemaChange → Bool
is_index_change (add_index o p) = true
is_index_change (remove_index o p) = true
is_index_change _ = false

abbrev pub is_other_change : SchemaChange → Bool
is_other_change (add_table o) = true
is_other_change (add_initial_properties o) = true
is_other_change (add_property o p) = true
is_other_change _ = false

unfoldable pub verify_valid_additive_changes : List SchemaChange → Bool → Verdict Bool
unfolding explain_additive
verify_valid_additive_changes changes update_indexes =
    verdict (any_of is_other_change changes || (any_of is_index_change changes && update_indexes))
      (concat_map explain_additive changes)

-- `verify_valid_external_changes`
unfoldable pub explain_external : SchemaChange → List Message
unfolding explain
explain_external (add_table o) = []
explain_external (add_initial_properties o) = []
explain_external (add_property o p) = []
explain_external (add_index o p) = []
explain_external (remove_index o p) = []
explain_external (remove_table o) = class_removed o.name ∷ []
explain_external c = explain c

unfoldable pub verify_valid_external_changes : List SchemaChange → Verdict (Unit {0})
unfolding verify_no_errors explain_external
verify_valid_external_changes = verify_no_errors explain_external

-- `verify_compatible_for_immutable_and_readonly`
unfoldable pub explain_readonly : SchemaChange → List Message
unfolding explain
explain_readonly (add_table o) = []
explain_readonly (add_initial_properties o) = []
explain_readonly (change_table_type o) = []
explain_readonly (remove_property o p) = []
explain_readonly (add_index o p) = []
explain_readonly (remove_index o p) = []
explain_readonly c = explain c

unfoldable pub verify_compatible_for_readonly : List SchemaChange → Verdict (Unit {0})
unfolding verify_no_errors explain_readonly
verify_compatible_for_readonly = verify_no_errors explain_readonly
