-- ===== src/Tests/OnSchema.antt =====
-- The schema of tests: two classes, one of them with a primary key and a string property.
use realm_object_store.Base.{◌≤◌, ◌⊎◌, ◌≡◌, ◌↔◌, Bool, refl, true, false, List, [], ◌∷◌}
use realm_object_store.Schema.Names.{name_eq, compare_names}
use realm_object_store.Schema.Properties.{
  BaseType, Property, ObjectSchema, property_for_name, find_property, type_is_nullable,
  type_is_indexable,
}
use realm_object_store.Schema.Change.{
  SchemaChange, add_table, add_initial_properties, remove_property, make_property_required,
  add_index, compare_schemas, zip_matching,
}
use realm_object_store.Schema.Lookup.{IsSorted, find, lookup, find-lookup}
use realm_object_store.Schema.Zip.{call_for, call_for-zip_matching}
use realm_object_store.Schema.Validate.{validate, wrong_sync_key}
use realm_object_store.Schema.Validate.Accepts.{IsAccepted, validate-IsAccepted}
use realm_object_store.Schema.Validate.Unchanged.{AllAccept, compare_schemas-validate}
use realm_object_store.Schema.Verify.{
  verify_no_errors, explain_external, explain_additive, accepted, needs_migration,
  verify_no_migration_required, verify_valid_additive_changes, verify_valid_external_changes,
  verify_compatible_for_readonly,
}
use realm_object_store.Schema.Verify.Laws.{verify_valid_external_changes-additive}
use realm_object_store.Schema.Apply.{
  apply_additive_changes, apply_non_migration_changes, apply_pre_migration_changes,
  apply_post_migration_changes,
}
use realm_object_store.Schema.Apply.Laws.{
  is_any, verify_valid_additive_changes-apply, needs_migration_lem,
}
use realm_object_store.Schema.Modes.{
  automatic, additive, read_only_alternative, not_versioned, schema_change_needs_write_transaction,
  set_schema_subset, Step, apply_migration, apply_schema_changes,
}
use realm_object_store.Schema.Modes.Versions.{version_after, version_after-apply_schema_changes}
use realm_object_store.Schema.Modes.Columns.{dropped, dropped-apply_schema_changes}

abbrev id : Property
id = record {
  name = 1 ∷ [];
  public_name = [];
  type = record { base = BaseType.int; nullable = false; array = false };
  object_type = [];
  link_origin_property_name = [];
  is_primary = true;
  is_indexed = true;
}

abbrev title : Property
title = record {
  name = 2 ∷ [];
  public_name = [];
  type = record { base = BaseType.string; nullable = true; array = false };
  object_type = [];
  link_origin_property_name = [];
  is_primary = false;
  is_indexed = false;
}

abbrev book : ObjectSchema
book = record {
  name = 5 ∷ [];
  persisted_properties = id ∷ title ∷ [];
  computed_properties = [];
  primary_key = 1 ∷ [];
  is_embedded = false;
}

abbrev page : ObjectSchema
page = record {
  name = 5 ∷ 3 ∷ [];
  persisted_properties = title ∷ [];
  computed_properties = [];
  primary_key = [];
  is_embedded = true;
}

abbrev library : List ObjectSchema
library = book ∷ page ∷ []

library-IsSorted : IsSorted library
unfolding compare_names
library-IsSorted = ((refl, tt), (tt, tt))

find-lookup_example : find (5 ∷ 3 ∷ []) library ≡ lookup (5 ∷ 3 ∷ []) library
find-lookup_example = find-lookup (5 ∷ 3 ∷ []) library library-IsSorted

call_for-zip_matching_example :
    call_for (5 ∷ 3 ∷ []) (zip_matching (book ∷ []) library)
    ≡ (find (5 ∷ 3 ∷ []) (book ∷ []), find (5 ∷ 3 ∷ []) library)
call_for-zip_matching_example =
    call_for-zip_matching (5 ∷ 3 ∷ []) (book ∷ []) library (tt, tt) library-IsSorted

library_accepted : AllAccept library false library
unfolding validate find name_eq compare_names property_for_name find_property type_is_nullable
    type_is_indexable
library_accepted = (refl, (refl, tt))

compare_schemas-validate_example : compare_schemas library library true ≡ []
compare_schemas-validate_example = compare_schemas-validate library false true library_accepted

validate-IsAccepted_example : (validate library book true ≡ []) ↔ IsAccepted library book true
validate-IsAccepted_example = validate-IsAccepted library book true

-- The key of books has another name than the one that a synchronized file wants.
book_refused : validate library book true ≡ wrong_sync_key (1 ∷ []) (5 ∷ []) ∷ []
unfolding validate find name_eq compare_names property_for_name find_property type_is_nullable
    type_is_indexable
book_refused = refl

-- A page is new, and the titles of books are removed.
abbrev changes : List SchemaChange
changes = add_table page ∷ add_initial_properties page ∷ remove_property book title ∷ []

abbrev indexing : List SchemaChange
indexing = add_table page ∷ add_index book title ∷ []

verify_valid_external_changes-additive_example :
    (b : Bool) × (verify_valid_additive_changes indexing false ≡ accepted b)
unfolding verify_valid_external_changes verify_no_errors explain_external
verify_valid_external_changes-additive_example =
    verify_valid_external_changes-additive indexing false refl

verify_valid_additive_changes-apply_example : true ≡ is_any (apply_additive_changes changes false)
unfolding verify_valid_additive_changes explain_additive
verify_valid_additive_changes-apply_example =
    verify_valid_additive_changes-apply changes false true refl

-- The titles that are removed are also to be required.
abbrev migrating : List SchemaChange
migrating = make_property_required book title ∷ changes

needs_migration_lem_example :
    ((needs_migration indexing ≡ false) ↔ (verify_no_migration_required indexing ≡ accepted tt))
    × ((needs_migration indexing ≡ false)
        ↔ ((apply_non_migration_changes indexing).1 ≡ accepted tt))
needs_migration_lem_example = needs_migration_lem indexing

-- A file of version 3 is opened with a schema of version 4.
version_after-apply_schema_changes_example :
    let run = apply_schema_changes automatic 3 4 changes true library [] in
    (3 ≤ version_after run.0 3) ⊎ (3 ≡ not_versioned)
unfolding schema_change_needs_write_transaction
version_after-apply_schema_changes_example =
    version_after-apply_schema_changes automatic 3 4 changes true library [] refl

dropped-apply_schema_changes_example :
    dropped (apply_schema_changes additive 3 4 changes true library []).0 ≡ []
dropped-apply_schema_changes_example =
    dropped-apply_schema_changes additive 3 4 changes true library [] refl

-- With a migration the same changes drop the titles, and the version is 4.
abbrev migrated : List Step
migrated = (apply_schema_changes automatic 3 4 changes false library []).0

migrated_version : version_after migrated 3 ≡ 4
unfolding apply_schema_changes apply_migration apply_pre_migration_changes
    apply_post_migration_changes version_after
migrated_version = refl

titles_removed : dropped migrated ≡ title ∷ []
unfolding apply_schema_changes apply_migration apply_pre_migration_changes
    apply_post_migration_changes dropped
titles_removed = refl

-- The read-only mode takes a subset that leaves out a property, and the manual mode does not.
subset_read_only :
    set_schema_subset read_only_alternative (remove_property book title ∷ []) ≡ accepted tt
unfolding set_schema_subset verify_compatible_for_readonly
subset_read_only = refl
