-- ===== src/Schema/Verify/Laws.antt =====
-- What the verifiers of src/object_store.cpp accept.
use realm_object_store.Base.{
  Bool, true, false, List, [], ◌∷◌, ◌++◌, Option, none, some, ◌≡◌, ◌↔◌, refl, ap, arith, inl, inr,
  Bool-cases,
}
use realm_object_store.Schema.Properties.{Property, ObjectSchema}
use realm_object_store.Schema.Change.{
  SchemaChange, remove_table, change_table_type, add_initial_properties, change_primary_key,
  concat_map,
}
use realm_object_store.Schema.Verify.{
  Message, accepted, verdict, explain, explain_primary_key, verify_no_errors, any_of,
  needs_migration, needs_migration_for, explain_migration, verify_no_migration_required,
  verify_no_changes_required, explain_external, verify_valid_external_changes, explain_additive,
  verify_valid_additive_changes, explain_readonly, verify_compatible_for_readonly,
}

pub ++-nil {ℓ} : {A : Type ℓ} (xs ys : List A) → (xs ++ ys) ≡ [] → (xs ≡ []) × (ys ≡ [])
++-nil [] ys h = (refl, h)
++-nil (x ∷ xs) ys h = cc

module _ {ℓ κ} {A : Type ℓ} {B : Type κ} where
  -- A verifier that has messages only where another does.
  pub concat_map_nil :
      (f g : A → List B)
      → ((x : A) → f x ≡ [] → g x ≡ [])
      → (xs : List A) → concat_map f xs ≡ []
      → concat_map g xs ≡ []
  concat_map_nil f g k [] h = refl
  concat_map_nil f g k (x ∷ xs) h =
      let (a, b) = ++-nil (f x) (concat_map f xs) h in rw (k x a) (concat_map_nil f g k xs b)

pub verdict-accepted {ℓ} :
    {A : Type ℓ} (a b : A) (ms : List Message) → verdict a ms ≡ accepted b → (ms ≡ []) × (a ≡ b)
verdict-accepted a b [] h = (refl, cc)
verdict-accepted a b (m ∷ ms) h = cc

explain_primary_key-cons :
    (o : ObjectSchema) (p : Option Property) → explain_primary_key o p ≡ [] → false ≡ true
explain_primary_key-cons o none h = cc
explain_primary_key-cons o (some p) h = ground arith

-- A change that has no message is the removal of a table or the properties of a new one.
abbrev silent : SchemaChange → Bool
silent (remove_table o) = true
silent (add_initial_properties o) = true
silent c = false

explain-nil : (c : SchemaChange) → explain c ≡ [] → silent c ≡ true
unfolding explain
explain-nil (change_table_type o) h = ground arith
explain-nil (change_primary_key o p) h = explain_primary_key-cons o p h
explain-nil c h = ground arith

-- Every other verifier takes what has no message.
silent-nil :
    (c : SchemaChange)
    → silent c ≡ true
    → (explain_migration c ≡ []) × (explain_readonly c ≡ []) × (explain_additive c ≡ [])
unfolding explain explain_migration explain_readonly explain_additive
silent-nil c h = ground arith

needs_migration_for-explain :
    (c : SchemaChange) → needs_migration_for c ≡ false → explain_migration c ≡ []
unfolding explain explain_migration
needs_migration_for-explain c h = ground arith

explain_migration-nil :
    (c : SchemaChange) → explain_migration c ≡ [] → needs_migration_for c ≡ false
unfolding explain explain_migration
explain_migration-nil (change_primary_key o p) h = ground (arith, explain_primary_key-cons o p h)
explain_migration-nil c h = ground arith

explain_external-nil : (c : SchemaChange) → explain_external c ≡ [] → explain_additive c ≡ []
unfolding explain explain_external explain_additive
explain_external-nil c h = ground arith

any_of-concat_map :
    (cs : List SchemaChange)
    → any_of needs_migration_for cs ≡ false
    → concat_map explain_migration cs ≡ []
any_of-concat_map [] h = refl
any_of-concat_map (c ∷ cs) h = elim (Bool-cases (needs_migration_for c)) [
  | inl e ↦ ground arith
  | inr e ↦ rw (needs_migration_for-explain c e) (any_of-concat_map cs (ground arith))
]

concat_map-any_of :
    (cs : List SchemaChange)
    → concat_map explain_migration cs ≡ []
    → any_of needs_migration_for cs ≡ false
concat_map-any_of [] h = refl
concat_map-any_of (c ∷ cs) h =
    let (a, b) = ++-nil (explain_migration c) (concat_map explain_migration cs) h in
    rw (explain_migration-nil c a) (concat_map-any_of cs b)

-- No migration is needed exactly when the verifier of the mode without migrations accepts.
pub needs_migration-verify_no_migration_required :
    (cs : List SchemaChange)
    → (needs_migration cs ≡ false) ↔ (verify_no_migration_required cs ≡ accepted tt)
unfolding needs_migration verify_no_migration_required verify_no_errors
needs_migration-verify_no_migration_required cs = (
  λ h. ap (verdict tt) (any_of-concat_map cs h),
  λ h. concat_map-any_of cs ((verdict-accepted tt tt (concat_map explain_migration cs) h).0),
)

-- Where no change at all is accepted, a mode that may apply some, or read the file as it is, accepts.
pub verify_no_changes_required-weakest :
    (cs : List SchemaChange) (update_indexes : Bool)
    → verify_no_changes_required cs ≡ accepted tt
    → (verify_no_migration_required cs ≡ accepted tt)
      × (verify_compatible_for_readonly cs ≡ accepted tt)
      × ((b : Bool) × (verify_valid_additive_changes cs update_indexes ≡ accepted b))
unfolding verify_no_changes_required verify_no_migration_required verify_compatible_for_readonly
    verify_valid_additive_changes verify_no_errors
verify_no_changes_required-weakest cs update_indexes h =
    let e = (verdict-accepted tt tt (concat_map explain cs) h).0 in
    (
      ap (verdict tt) (
          concat_map_nil explain explain_migration (λ c n. (silent-nil c (explain-nil c n)).0) cs
            e),
      ap (verdict tt) (
          concat_map_nil explain explain_readonly (λ c n. (silent-nil c (explain-nil c n)).1) cs e),
      (
        _,
        ap (verdict _) (
            concat_map_nil explain explain_additive (λ c n. (silent-nil c (explain-nil c n)).2) cs
              e),
      ),
    )

-- Changes that another process may make are valid in the additive mode.
pub verify_valid_external_changes-additive :
    (cs : List SchemaChange) (update_indexes : Bool)
    → verify_valid_external_changes cs ≡ accepted tt
    → (b : Bool) × (verify_valid_additive_changes cs update_indexes ≡ accepted b)
unfolding verify_valid_external_changes verify_valid_additive_changes verify_no_errors
verify_valid_external_changes-additive cs update_indexes h =
    let e = (verdict-accepted tt tt (concat_map explain_external cs) h).0 in
    (_, ap (verdict _) (concat_map_nil explain_external explain_additive explain_external-nil cs e))
