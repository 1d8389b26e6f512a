-- ===== src/Schema/Apply/Laws.antt =====
-- What the appliers of src/object_store.cpp do, beside what the verifiers accept.
use realm_object_store.Base.{
  Bool, true, false, ◌&&◌, ◌||◌, List, [], ◌∷◌, ◌++◌, ◌≡◌, ◌↔◌, refl, sym, ◌∙◌, arith,
}
use realm_object_store.Schema.Properties.{Property}
use realm_object_store.Schema.Change.{
  SchemaChange, remove_property, change_property_type, make_property_required, concat_map,
}
use realm_object_store.Schema.Verify.{
  accepted, explain, verify_no_errors, any_of, needs_migration, explain_migration,
  verify_no_migration_required, explain_additive, verify_valid_additive_changes, is_other_change,
  is_index_change,
}
use realm_object_store.Schema.Verify.Laws.{
  verdict-accepted, needs_migration-verify_no_migration_required,
}
use realm_object_store.Schema.Apply.{
  Action, remove_column, replace_column, make_required, additive_action, apply_additive_changes,
  explain_unsupported, apply_non_migration_changes,
}

-- Whether there is anything to do.
abbrev pub is_any {ℓ} : {A : Type ℓ} → List A → Bool
is_any [] = false
is_any (x ∷ xs) = true

is_any-++ {ℓ} : {A : Type ℓ} (xs ys : List A) → is_any (xs ++ ys) ≡ (is_any xs || is_any ys)
is_any-++ [] ys = refl
is_any-++ (x ∷ xs) ys = refl

additive_action-is_any :
    (c : SchemaChange) (u : Bool)
    → is_any (additive_action u c) ≡ (is_other_change c || (is_index_change c && u))
unfolding additive_action
additive_action-is_any c u = ground arith

regroup : (a b c d u : Bool) → ((a || (b && u)) || (c || (d && u))) ≡ ((a || c) || ((b || d) && u))
regroup a b c d u = ground arith

is_any-additive :
    (cs : List SchemaChange) (u : Bool)
    → is_any (concat_map (additive_action u) cs)
      ≡ (any_of is_other_change cs || (any_of is_index_change cs && u))
is_any-additive [] u = refl
is_any-additive (c ∷ cs) u =
    is_any-++ (additive_action u c) (concat_map (additive_action u) cs)
    ∙ rw (additive_action-is_any c u, is_any-additive cs u)
        (regroup (is_other_change c) (is_index_change c) (any_of is_other_change cs)
          (any_of is_index_change cs) u)

-- Where the additive verifier accepts, it returns true exactly when the applier has anything to do.
pub verify_valid_additive_changes-apply :
    (cs : List SchemaChange) (update_indexes b : Bool)
    → verify_valid_additive_changes cs update_indexes ≡ accepted b
    → b ≡ is_any (apply_additive_changes cs update_indexes)
unfolding verify_valid_additive_changes apply_additive_changes
verify_valid_additive_changes-apply cs u b h =
    sym (is_any-additive cs u ∙ (verdict-accepted _ b (concat_map explain_additive cs) h).1)

explain_unsupported-migration : (c : SchemaChange) → explain_unsupported c ≡ explain_migration c
unfolding explain explain_unsupported explain_migration
explain_unsupported-migration c = ground arith

concat_map_cong :
    (cs : List SchemaChange) → concat_map explain_unsupported cs ≡ concat_map explain_migration cs
concat_map_cong [] = refl
concat_map_cong (c ∷ cs) = rw (explain_unsupported-migration c, concat_map_cong cs) refl

-- The applier of the mode without migrations throws exactly where a migration is needed.
pub apply_non_migration_changes-needs_migration :
    (cs : List SchemaChange)
    → (needs_migration cs ≡ false) ↔ ((apply_non_migration_changes cs).1 ≡ accepted tt)
unfolding apply_non_migration_changes verify_no_errors verify_no_migration_required
apply_non_migration_changes-needs_migration cs =
    rw (concat_map_cong cs) (needs_migration-verify_no_migration_required cs)

-- No migration is needed exactly when the verifier of the mode without migrations accepts, and exactly
-- when the applier of that mode ends without an exception.
pub needs_migration_lem :
    (cs : List SchemaChange)
    → ((needs_migration cs ≡ false) ↔ (verify_no_migration_required cs ≡ accepted tt))
      × ((needs_migration cs ≡ false) ↔ ((apply_non_migration_changes cs).1 ≡ accepted tt))
needs_migration_lem cs = (
  needs_migration-verify_no_migration_required cs,
  apply_non_migration_changes-needs_migration cs,
)

-- The columns that a list of actions removes: `replace_column` and `make_property_required` remove the
-- column too, before they add one of the same name. And the properties that a list of changes removes.
abbrev pub removal : Action → List Property
removal (remove_column o p) = p ∷ []
removal (replace_column o old new) = old ∷ []
removal (make_required o p) = p ∷ []
removal a = []

abbrev pub removed_columns : List Action → List Property
removed_columns [] = []
removed_columns (a ∷ as') = removal a ++ removed_columns as'

abbrev removed_by : SchemaChange → List Property
removed_by (remove_property o p) = p ∷ []
removed_by c = []

abbrev pub removed_properties : List SchemaChange → List Property
removed_properties [] = []
removed_properties (c ∷ cs) = removed_by c ++ removed_properties cs

-- The properties whose column is made anew for another type, or without null.
abbrev remade_by : SchemaChange → List Property
remade_by (change_property_type o old new) = old ∷ []
remade_by (make_property_required o p) = p ∷ []
remade_by c = []

abbrev pub remade_properties : List SchemaChange → List Property
remade_properties [] = []
remade_properties (c ∷ cs) = remade_by c ++ remade_properties cs

++-assoc {ℓ} : {A : Type ℓ} (xs ys zs : List A) → ((xs ++ ys) ++ zs) ≡ (xs ++ (ys ++ zs))
++-assoc [] ys zs = refl
++-assoc (x ∷ xs) ys zs = rw (++-assoc xs ys zs) refl

pub removed_columns-++ :
    (xs ys : List Action) → removed_columns (xs ++ ys) ≡ (removed_columns xs ++ removed_columns ys)
removed_columns-++ [] ys = refl
removed_columns-++ (x ∷ xs) ys =
    rw (removed_columns-++ xs ys) refl
    ∙ sym (++-assoc (removal x) (removed_columns xs) (removed_columns ys))

additive_action-removed : (u : Bool) (c : SchemaChange) → removed_columns (additive_action u c) ≡ []
unfolding additive_action
additive_action-removed u c = ground arith

pub concat_map-removed :
    (f : SchemaChange → List Action)
    → ((c : SchemaChange) → removed_columns (f c) ≡ [])
    → (cs : List SchemaChange) → removed_columns (concat_map f cs) ≡ []
concat_map-removed f h [] = refl
concat_map-removed f h (c ∷ cs) =
    removed_columns-++ (f c) (concat_map f cs) ∙ rw (h c) (concat_map-removed f h cs)

-- The additive mode removes no column.
pub apply_additive_changes-removed :
    (cs : List SchemaChange) (update_indexes : Bool)
    → removed_columns (apply_additive_changes cs update_indexes) ≡ []
unfolding apply_additive_changes
apply_additive_changes-removed cs u =
    concat_map-removed (additive_action u) (additive_action-removed u) cs
