-- ===== src/Schema/Apply.antt =====
-- The appliers of src/object_store.cpp. The file is the storage engine's (`Group`, `Table`), so an
-- applier is the list of what it asks of the engine, in order.
pub mod Laws
use realm_object_store.Base.{
  ℕ, Bool, true, false, not, ◌&&◌, ◌||◌, List, [], ◌∷◌, ◌++◌, Option, none, some, if◌then◌else◌,
}
use realm_object_store.Schema.Names.{Name, is_empty}
use realm_object_store.Schema.Properties.{Property, PropertyType, ObjectSchema, property_for_name}
use realm_object_store.Schema.Lookup.{find}
use realm_object_store.Schema.Change.{
  SchemaChange, add_table, remove_table, change_table_type, add_initial_properties, add_property,
  remove_property, change_property_type, make_property_nullable, make_property_required, add_index,
  remove_index, change_primary_key, concat_map,
}
use realm_object_store.Schema.Verify.{Message, Verdict, explain, verify_no_errors}

pub data Action : Type 0 where
  create_table create_columns set_embedded : ObjectSchema → Action
  create_column remove_column make_optional make_required : ObjectSchema → Property → Action
  replace_column : ObjectSchema → Property → Property → Action
  set_primary_key : ObjectSchema → Option Property → Action
  add_search_index remove_search_index : ObjectSchema → Property → Action

-- `apply_additive_changes`
unfoldable pub additive_action : Bool → SchemaChange → List Action
additive_action update_indexes (add_table o) = create_table o ∷ []
additive_action update_indexes (add_initial_properties o) = create_columns o ∷ []
additive_action update_indexes (add_property o p) = create_column o p ∷ []
additive_action update_indexes (add_index o p) =
    if update_indexes then add_search_index o p ∷ [] else []
additive_action update_indexes (remove_index o p) =
    if update_indexes then remove_search_index o p ∷ [] else []
additive_action update_indexes _ = []

unfoldable pub apply_additive_changes : List SchemaChange → Bool → List Action
unfolding additive_action
apply_additive_changes changes update_indexes = concat_map (additive_action update_indexes) changes

-- `apply_non_migration_changes`: what it applies, and then the messages for all else.
unfoldable pub non_migration_action : SchemaChange → List Action
non_migration_action (add_table o) = create_table o ∷ []
non_migration_action (add_initial_properties o) = create_columns o ∷ []
non_migration_action (add_index o p) = add_search_index o p ∷ []
non_migration_action (remove_index o p) = remove_search_index o p ∷ []
non_migration_action _ = []

unfoldable pub explain_unsupported : SchemaChange → List Message
unfolding explain
explain_unsupported (add_table o) = []
explain_unsupported (add_initial_properties o) = []
explain_unsupported (add_index o p) = []
explain_unsupported (remove_index o p) = []
explain_unsupported c = explain c

unfoldable pub apply_non_migration_changes : List SchemaChange → List Action × Verdict (Unit {0})
unfolding non_migration_action explain_unsupported verify_no_errors
apply_non_migration_changes changes =
    (concat_map non_migration_action changes, verify_no_errors explain_unsupported changes)

-- `create_initial_tables`
unfoldable pub initial_action : SchemaChange → List Action
initial_action (add_table o) = create_table o ∷ []
initial_action (remove_table o) = []
initial_action (add_initial_properties o) = create_columns o ∷ []
initial_action (change_table_type o) = set_embedded o ∷ []
initial_action (add_property o p) = create_column o p ∷ []
initial_action (remove_property o p) = remove_column o p ∷ []
initial_action (make_property_nullable o p) = make_optional o p ∷ []
initial_action (make_property_required o p) = make_required o p ∷ []
initial_action (change_primary_key o p) = set_primary_key o p ∷ []
initial_action (add_index o p) = add_search_index o p ∷ []
initial_action (remove_index o p) = remove_search_index o p ∷ []
initial_action (change_property_type o old new) = replace_column o old new ∷ []

unfoldable pub create_initial_tables : List SchemaChange → List Action
unfolding initial_action
create_initial_tables changes = concat_map initial_action changes

-- `apply_pre_migration_changes`
unfoldable pub pre_migration_action : SchemaChange → List Action
unfolding initial_action
pre_migration_action (remove_property o p) = []
pre_migration_action (change_primary_key o p) = set_primary_key o none ∷ []
pre_migration_action c = initial_action c

unfoldable pub apply_pre_migration_changes : List SchemaChange → List Action
unfolding pre_migration_action
apply_pre_migration_changes changes = concat_map pre_migration_action changes

-- What applying the changes comes to: it ends, or it stops at an exception for a property that does
-- not exist, or at a class that is not in the schema, where the source reads past the end of it.
pub data Outcome : Type 0 where
  finished : Outcome
  no_property no_class : Name → Name → Outcome

abbrev pub then_apply : List Action × Outcome → List Action × Outcome → List Action × Outcome
then_apply (actions, finished) (more, outcome) = (actions ++ more, outcome)
then_apply (actions, no_property n m) rest = (actions, no_property n m)
then_apply (actions, no_class n m) rest = (actions, no_class n m)

abbrev pub remove_found : ObjectSchema → Property → Option Property → List Action × Outcome
remove_found o p none = ([], no_property o.name p.name)
remove_found o p (some q) = (remove_column o p ∷ [], finished)

abbrev pub remove_from : ObjectSchema → Property → Option ObjectSchema → List Action × Outcome
remove_from o p none = ([], no_class o.name p.name)
remove_from o p (some initial) = remove_found o p (property_for_name initial p.name)

abbrev pub remove_checked : List ObjectSchema → ObjectSchema → Property → List Action × Outcome
remove_checked [] o p = (remove_column o p ∷ [], finished)
remove_checked (i ∷ is) o p = remove_from o p (find o.name (i ∷ is))

-- The operators of the applier of `apply_post_migration_changes`.
unfoldable pub post_migration_action :
    List ObjectSchema → Bool → SchemaChange → List Action × Outcome
post_migration_action initial did_reread (remove_property o p) = remove_checked initial o p
post_migration_action initial did_reread (change_primary_key o p) =
    (set_primary_key o p ∷ [], finished)
post_migration_action initial did_reread (add_table o) = (create_table o ∷ [], finished)
post_migration_action initial did_reread (add_initial_properties o) =
    (if did_reread then create_columns o ∷ [] else [], finished)
post_migration_action initial did_reread (add_index o p) = (add_search_index o p ∷ [], finished)
post_migration_action initial did_reread (remove_index o p) =
    (remove_search_index o p ∷ [], finished)
post_migration_action initial did_reread _ = ([], finished)

unfoldable pub apply_post_migration_changes :
    List SchemaChange → List ObjectSchema → Bool → List Action × Outcome
unfolding post_migration_action
apply_post_migration_changes [] initial did_reread = ([], finished)
apply_post_migration_changes (c ∷ cs) initial did_reread =
    then_apply (post_migration_action initial did_reread c)
      (apply_post_migration_changes cs initial did_reread)
