-- ===== src/Schema/Modes/Columns.antt =====
-- What a mode lets happen to the columns of a file.
use realm_object_store.Base.{
  ℕ, ◌≡◌, refl, ◌∙◌, Bool, true, false, not, ◌&&◌, ◌||◌, List, [], ◌∷◌, ◌++◌, ltb, ◌==◌,
  if◌then◌else◌, if_intro, arith, inl, inr, Bool-cases,
}
use mathlib.Core.List.{append-nil, append_assoc}
use realm_object_store.Schema.Properties.{Property, ObjectSchema}
use realm_object_store.Schema.Change.{SchemaChange}
use realm_object_store.Schema.Verify.{Verdict, accepted, thrown, verify_no_changes_required}
use realm_object_store.Schema.Apply.{
  Action, apply_additive_changes, apply_non_migration_changes, non_migration_action,
}
use realm_object_store.Schema.Validate.Typing.{++-nil}
use realm_object_store.Schema.Apply.Laws.{
  removal, removed_columns, apply_additive_changes-removed, concat_map-removed,
}
use realm_object_store.Schema.Modes.{
  SchemaMode, not_versioned, Step, sets_keys, validates_primary_columns, applies, sets_version,
  steps, Ending, after_verdict, apply_additively, apply_initially, apply_manually,
  apply_same_version, apply_migration, is_additive, is_manual, apply_schema_changes,
}

-- The columns that the steps remove, also to make them anew.
unfoldable pub dropped : List Step → List Property
dropped [] = []
dropped (applies a ∷ ss) = removal a ++ dropped ss
dropped (_ ∷ ss) = dropped ss

dropped-steps :
    (as' : List Action) (ss : List Step)
    → removed_columns as' ≡ []
    → dropped (steps as' ++ ss) ≡ dropped ss
unfolding dropped
dropped-steps [] ss h = refl
dropped-steps (a ∷ as') ss h =
    let (now, later) = ++-nil (removal a) (removed_columns as') h in
    rw (now, dropped-steps as' ss later) refl

apply_additively-dropped :
    (current version : ℕ) (changes : List SchemaChange)
    → dropped (apply_additively current version changes).0 ≡ []
unfolding apply_additively dropped
apply_additively-dropped current version changes =
    let as' = apply_additive_changes changes true in
    let none_removed = apply_additive_changes-removed changes true in
    elim (Bool-cases (ltb current version || (current == not_versioned))) [
      | inl e ↦
          rw (e, append_assoc (steps as') (sets_version version ∷ []) (sets_keys ∷ []))
            (dropped-steps as' (sets_version version ∷ sets_keys ∷ []) none_removed)
      | inr e ↦ rw (e, append-nil (steps as')) (dropped-steps as' (sets_keys ∷ []) none_removed)
    ]

after_verdict-dropped :
    (v : Verdict (Unit {0})) (ss : List Step)
    → dropped ss ≡ []
    → dropped (after_verdict v ss).0 ≡ []
unfolding dropped
after_verdict-dropped (accepted a) ss h = h
after_verdict-dropped (thrown ms) ss h = refl

apply_manually-dropped :
    (version : ℕ) (has_migration : Bool) (left : List SchemaChange)
    → dropped (apply_manually version has_migration left).0 ≡ []
unfolding apply_manually dropped
apply_manually-dropped version true left =
    after_verdict-dropped (verify_no_changes_required left)
      (validates_primary_columns ∷ sets_keys ∷ sets_version version ∷ []) refl
apply_manually-dropped version false left =
    after_verdict-dropped (verify_no_changes_required left)
      (validates_primary_columns ∷ sets_keys ∷ sets_version version ∷ []) refl

non_migration_action-removed : (c : SchemaChange) → removed_columns (non_migration_action c) ≡ []
unfolding non_migration_action
non_migration_action-removed c = ground arith

apply_same_version-dropped :
    (changes : List SchemaChange) → dropped (apply_same_version changes).0 ≡ []
unfolding apply_same_version apply_non_migration_changes dropped
apply_same_version-dropped changes =
    let r = apply_non_migration_changes changes in
    dropped-steps r.0 (after_verdict r.1 (sets_keys ∷ [])).0
      (concat_map-removed non_migration_action non_migration_action-removed changes)
    ∙ after_verdict-dropped r.1 (sets_keys ∷ []) refl

-- The modes and versions in which no column may be lost.
abbrev pub keeps_columns : SchemaMode → ℕ → ℕ → Bool
keeps_columns mode current version =
    is_additive mode || (not (current == not_versioned) && (is_manual mode || (current == version)))

-- In the additive mode, and for a file that has a version also in the manual mode and where the version
-- does not change, `apply_schema_changes` removes no column, not even to make it anew; what the migration does is the caller's.
pub dropped-apply_schema_changes :
    (mode : SchemaMode) (current version : ℕ) (changes : List SchemaChange) (has_migration : Bool)
    (old : List ObjectSchema) (left : List SchemaChange)
    → keeps_columns mode current version ≡ true
    → dropped (apply_schema_changes mode current version changes has_migration old left).0 ≡ []
unfolding apply_schema_changes dropped
dropped-apply_schema_changes mode current version changes has_migration old left h =
    let later = apply_migration version changes has_migration old left in
    let same = if current == version then apply_same_version changes else later in
    let versioned = if is_manual mode then apply_manually version has_migration left else same in
    let any = if current == not_versioned then apply_initially version changes else versioned in
    let P = λ (run : List Step × Ending). dropped run.0 ≡ [] in
    if_intro P (is_additive mode) (apply_additively current version changes) any
      (λ _. apply_additively-dropped current version changes)
      (λ a.
        if_intro P (current == not_versioned) (apply_initially version changes) versioned
          (λ e. absurd (let f : false ≡ true = (rw (a, e) at h) in cc))
          (λ n.
            if_intro P (is_manual mode) (apply_manually version has_migration left) same
              (λ _. apply_manually-dropped version has_migration left)
              (λ m.
                if_intro P (current == version) (apply_same_version changes) later
                  (λ _. apply_same_version-dropped changes)
                  (λ v. absurd (let f : false ≡ true = (rw (a, n, m, v) at h) in cc)))))
