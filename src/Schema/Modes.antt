-- ===== src/Schema/Modes.antt =====
-- `SchemaMode` of src/shared_realm.hpp: what `schema_change_needs_write_transaction` and
-- `set_schema_subset` of src/shared_realm.cpp decide in each mode, and what `apply_schema_changes` of
-- src/object_store.cpp then does. The transaction is the storage engine's and the migration is the
-- caller's: what they are asked for is a list of steps, and what the schema of the file differs in once
-- the migration has run is an argument.
pub mod Versions
pub mod Columns
use realm_object_store.Base.{
  ℕ, ◌-◌, ◌^◌, Bool, true, false, not, ◌&&◌, ◌||◌, List, [], ◌∷◌, ◌++◌, map, ltb, ◌==◌,
  if◌then◌else◌,
}
use realm_object_store.Schema.Properties.{ObjectSchema}
use realm_object_store.Schema.Change.{SchemaChange}
use realm_object_store.Schema.Verify.{
  Message, Verdict, accepted, thrown, needs_migration, verify_no_changes_required,
  verify_no_migration_required, verify_valid_additive_changes, verify_compatible_for_readonly,
}
use realm_object_store.Schema.Apply.{
  Action, Outcome, finished, apply_additive_changes, apply_non_migration_changes,
  create_initial_tables, apply_pre_migration_changes, apply_post_migration_changes,
}

pub data SchemaMode : Type 0 where
  automatic immutable read_only_alternative reset_file additive manual : SchemaMode

-- `ObjectStore::NotVersioned`
abbrev pub not_versioned : ℕ
not_versioned = 2 ^ 64 - 1

-- `schema_change_needs_write_transaction` returns whether one is needed, after a reset of the file or
-- without; or it throws, for a version or for the changes. `unreachable` is what the source marks so.
pub data Decision : Type 0 where
  no_write write reset_and_write unreachable : Decision
  invalid_version : ℕ → ℕ → Decision
  invalid_changes : List Message → Decision

abbrev is_nil {ℓ} : {A : Type ℓ} → List A → Bool
is_nil [] = true
is_nil (x ∷ xs) = false

abbrev pub if_accepted {ℓ} : {A : Type ℓ} → Verdict A → (A → Decision) → Decision
if_accepted (accepted a) then_decide = then_decide a
if_accepted (thrown ms) then_decide = invalid_changes ms

abbrev pub is_older : ℕ → ℕ → Bool
is_older version current = ltb version current && not (current == not_versioned)

abbrev pub decide : SchemaMode → ℕ → List SchemaChange → ℕ → Decision
decide automatic current changes version =
    if is_older version current then invalid_version current version else write
decide immutable current changes version =
    if not (version == current)
    then invalid_version current version
    else if_accepted (verify_compatible_for_readonly changes) (λ _. no_write)
decide read_only_alternative current changes version =
    if_accepted (verify_compatible_for_readonly changes) (λ _. no_write)
decide reset_file current changes version =
    if current == not_versioned
    then write
    else if (current == version) && not (needs_migration changes)
    then write
    else reset_and_write
decide additive current changes version =
    if_accepted (verify_valid_additive_changes changes (ltb current version))
      λ applies. if applies then write else if not (version == current) then write else no_write
decide manual current changes version =
    if is_older version current
    then invalid_version current version
    else if version == current
    then if_accepted (verify_no_changes_required changes) (λ _. unreachable)
    else write

unfoldable pub schema_change_needs_write_transaction :
    SchemaMode → ℕ → List SchemaChange → ℕ → Decision
unfolding needs_migration verify_compatible_for_readonly verify_valid_additive_changes
    verify_no_changes_required
schema_change_needs_write_transaction mode current changes version =
    if (version == current) && is_nil changes then no_write else decide mode current changes version

-- `set_schema_subset`: whether the subset is taken, by the changes to it.
abbrev pub taken {ℓ} : {A : Type ℓ} → Verdict A → Verdict (Unit {0})
taken (accepted a) = accepted tt
taken (thrown ms) = thrown ms

unfoldable pub set_schema_subset : SchemaMode → List SchemaChange → Verdict (Unit {0})
set_schema_subset automatic changes = verify_no_migration_required changes
set_schema_subset reset_file changes = verify_no_migration_required changes
set_schema_subset immutable changes = verify_compatible_for_readonly changes
set_schema_subset read_only_alternative changes = verify_compatible_for_readonly changes
set_schema_subset additive changes = taken (verify_valid_additive_changes changes false)
set_schema_subset manual changes = verify_no_changes_required changes

-- What is asked of the transaction and of the caller.
pub data Step : Type 0 where
  creates_metadata sets_keys migrates validates_primary_columns : Step
  applies : Action → Step
  sets_version : ℕ → Step

-- How it ends: with all done, or at an exception of a verifier or of an applier.
pub data Ending : Type 0 where
  complete : Ending
  refused : List Message → Ending
  stopped : Outcome → Ending

abbrev pub steps : List Action → List Step
steps = map applies

-- The steps after an applier or a verifier, if it ended.
abbrev pub after_outcome : List Action × Outcome → List Step → List Step × Ending
after_outcome (actions, finished) rest = (steps actions ++ rest, complete)
after_outcome (actions, outcome) rest = (steps actions, stopped outcome)

abbrev pub after_verdict : Verdict (Unit {0}) → List Step → List Step × Ending
after_verdict (accepted a) rest = (rest, complete)
after_verdict (thrown ms) rest = ([], refused ms)

abbrev pub behind : List Step → List Step × Ending → List Step × Ending
behind first (rest, ending) = (first ++ rest, ending)

-- The branches of `apply_schema_changes` for a file that has a version.
unfoldable pub apply_manually : ℕ → Bool → List SchemaChange → List Step × Ending
unfolding verify_no_changes_required
apply_manually version has_migration left =
    behind (sets_keys ∷ (if has_migration then migrates ∷ [] else [])) (
      after_verdict (verify_no_changes_required left)
        (validates_primary_columns ∷ sets_keys ∷ sets_version version ∷ []))

unfoldable pub apply_same_version : List SchemaChange → List Step × Ending
unfolding apply_non_migration_changes
apply_same_version changes =
    let (actions, verdict) = apply_non_migration_changes changes in
    behind (steps actions) (after_verdict verdict (sets_keys ∷ []))

unfoldable pub apply_migration :
    ℕ → List SchemaChange → Bool → List ObjectSchema → List SchemaChange → List Step × Ending
unfolding apply_pre_migration_changes apply_post_migration_changes
apply_migration version changes has_migration old left =
    behind (steps (apply_pre_migration_changes changes)) (
      if has_migration
      then behind (sets_keys ∷ migrates ∷ []) (
          after_outcome (apply_post_migration_changes left old true)
            (validates_primary_columns ∷ sets_version version ∷ sets_keys ∷ []))
      else after_outcome (apply_post_migration_changes changes [] false)
          (sets_version version ∷ sets_keys ∷ []))

unfoldable pub apply_additively : ℕ → ℕ → List SchemaChange → List Step × Ending
unfolding apply_additive_changes
apply_additively current version changes =
    let newer = ltb current version || (current == not_versioned) in
    (
      steps (apply_additive_changes changes true)
          ++ (if newer then sets_version version ∷ [] else [])
          ++ sets_keys ∷ [],
      complete,
    )

unfoldable pub apply_initially : ℕ → List SchemaChange → List Step × Ending
unfolding create_initial_tables
apply_initially version changes =
    (steps (create_initial_tables changes) ++ sets_version version ∷ sets_keys ∷ [], complete)

abbrev pub is_additive : SchemaMode → Bool
is_additive additive = true
is_additive _ = false

abbrev pub is_manual : SchemaMode → Bool
is_manual manual = true
is_manual _ = false

-- `apply_schema_changes`: `current` and `version` are the versions of the file and of the target, `old`
-- is the schema of the file, and `left` are the changes from the schema that the migration leaves.
unfoldable pub apply_schema_changes :
    SchemaMode
    → ℕ
    → ℕ
    → List SchemaChange
    → Bool
    → List ObjectSchema
    → List SchemaChange
    → List Step × Ending
unfolding apply_additively apply_initially apply_manually apply_same_version apply_migration
apply_schema_changes mode current version changes has_migration old left =
    behind (creates_metadata ∷ []) (
      if is_additive mode
      then apply_additively current version changes
      else if current == not_versioned
      then apply_initially version changes
      else if is_manual mode
      then apply_manually version has_migration left
      else if current == version
      then apply_same_version changes
      else apply_migration version changes has_migration old left)
