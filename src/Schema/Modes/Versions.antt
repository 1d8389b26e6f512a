-- ===== src/Schema/Modes/Versions.antt =====
-- What a mode lets happen to the version of a file.
use realm_object_store.Base.{
  ℕ, ◌≤◌, ◌≡◌, ◌⊎◌, refl, Bool, true, false, ◌||◌, List, [], ◌∷◌, ◌++◌, ltb, ◌==◌, if◌then◌else◌,
  if_intro, arith, inl, inr, Bool-cases, ℕ_discrete,
}
use mathlib.Core.List.{append-nil, append_assoc}
use realm_object_store.Schema.Properties.{ObjectSchema}
use realm_object_store.Schema.Change.{SchemaChange}
use realm_object_store.Schema.Verify.{
  Verdict, accepted, thrown, verify_no_changes_required, verify_compatible_for_readonly,
}
use realm_object_store.Schema.Apply.{
  Action, Outcome, apply_additive_changes, apply_non_migration_changes,
  apply_post_migration_changes, apply_pre_migration_changes, no_property, no_class, finished,
}
use realm_object_store.Schema.Modes.{
  SchemaMode, automatic, immutable, read_only_alternative, reset_file, additive, manual,
  not_versioned, write, no_write, reset_and_write, invalid_version, if_accepted, decide,
  schema_change_needs_write_transaction, Step, sets_keys, migrates, validates_primary_columns,
  sets_version, steps, Ending, complete, after_outcome, after_verdict, behind, apply_additively,
  apply_initially, apply_manually, apply_same_version, apply_migration, is_additive, is_manual,
  apply_schema_changes,
}

-- The version of the file after the steps.
unfoldable pub version_after : List Step → ℕ → ℕ
version_after [] v = v
version_after (sets_version n ∷ ss) v = version_after ss n
version_after (_ ∷ ss) v = version_after ss v

version_after-steps :
    (as' : List Action) (ss : List Step) (v : ℕ)
    → version_after (steps as' ++ ss) v ≡ version_after ss v
unfolding version_after
version_after-steps [] ss v = refl
version_after-steps (a ∷ as') ss v = version_after-steps as' ss v

version_after-alone : (as' : List Action) (v : ℕ) → version_after (steps as') v ≡ v
unfolding version_after
version_after-alone [] v = refl
version_after-alone (a ∷ as') v = version_after-alone as' v

-- A run leaves the version of the file, or sets that of the target.
abbrev Sets : ℕ → ℕ → List Step × Ending → Type 0
Sets current version run =
    (version_after run.0 current ≡ current) ⊎ (version_after run.0 current ≡ version)

behind-Sets :
    (current version : ℕ) (as' : List Action) (run : List Step × Ending)
    → Sets current version run
    → Sets current version (behind (steps as') run)
behind-Sets current version as' (ss, e) h = rw (version_after-steps as' ss current) h

after_verdict-Sets :
    (current version : ℕ) (v : Verdict (Unit {0})) (ss : List Step)
    → Sets current version (ss, complete)
    → Sets current version (after_verdict v ss)
unfolding version_after
after_verdict-Sets current version (accepted a) ss h = h
after_verdict-Sets current version (thrown ms) ss h = inl refl

after_outcome-Sets :
    (current version : ℕ) (o : List Action × Outcome) (ss : List Step)
    → Sets current version (ss, complete)
    → Sets current version (after_outcome o ss)
after_outcome-Sets current version (as', finished) ss h = rw (version_after-steps as' ss current) h
after_outcome-Sets current version (as', no_property n m) ss h =
    inl (version_after-alone as' current)
after_outcome-Sets current version (as', no_class n m) ss h = inl (version_after-alone as' current)

apply_migration-Sets :
    (current version : ℕ) (changes : List SchemaChange) (has_migration : Bool)
    (old : List ObjectSchema) (left : List SchemaChange)
    → Sets current version (apply_migration version changes has_migration old left)
unfolding apply_migration version_after
apply_migration-Sets current version changes true old left =
    behind-Sets current version (apply_pre_migration_changes changes)
      (behind (sets_keys ∷ migrates ∷ []) (
        after_outcome (apply_post_migration_changes left old true)
          (validates_primary_columns ∷ sets_version version ∷ sets_keys ∷ [])))
      (after_outcome-Sets current version (apply_post_migration_changes left old true)
        (validates_primary_columns ∷ sets_version version ∷ sets_keys ∷ []) (inr refl))
apply_migration-Sets current version changes false old left =
    behind-Sets current version (apply_pre_migration_changes changes)
      (after_outcome (apply_post_migration_changes changes [] false)
        (sets_version version ∷ sets_keys ∷ []))
      (after_outcome-Sets current version (apply_post_migration_changes changes [] false)
        (sets_version version ∷ sets_keys ∷ []) (inr refl))

apply_manually-Sets :
    (current version : ℕ) (has_migration : Bool) (left : List SchemaChange)
    → Sets current version (apply_manually version has_migration left)
unfolding apply_manually version_after
apply_manually-Sets current version true left =
    after_verdict-Sets current version (verify_no_changes_required left)
      (validates_primary_columns ∷ sets_keys ∷ sets_version version ∷ []) (inr refl)
apply_manually-Sets current version false left =
    after_verdict-Sets current version (verify_no_changes_required left)
      (validates_primary_columns ∷ sets_keys ∷ sets_version version ∷ []) (inr refl)

apply_same_version-Sets :
    (current version : ℕ) (changes : List SchemaChange)
    → Sets current version (apply_same_version changes)
unfolding apply_same_version version_after
apply_same_version-Sets current version changes =
    let r = apply_non_migration_changes changes in
    behind-Sets current version r.0 (after_verdict r.1 (sets_keys ∷ []))
      (after_verdict-Sets current version r.1 (sets_keys ∷ []) (inl refl))

-- In the additive mode the version of the file is left or is set to a greater one, unless it had none.
abbrev Raised : ℕ → List Step × Ending → Type 0
Raised current run = (current ≤ version_after run.0 current) ⊎ (current ≡ not_versioned)

apply_additively-Raised :
    (current version : ℕ) (changes : List SchemaChange)
    → Raised current (apply_additively current version changes)
unfolding apply_additively version_after
apply_additively-Raised current version changes =
    let as' = apply_additive_changes changes true in
    elim (Bool-cases (ltb current version || (current == not_versioned))) [
      | inl e ↦
          rw
            (
              e,
              append_assoc (steps as') (sets_version version ∷ []) (sets_keys ∷ []),
              version_after-steps as' (sets_version version ∷ sets_keys ∷ []) current,
            )
            (elim (ℕ_discrete current not_versioned) [
              | yes n ↦ inr n
              | no n ↦ inl (ground (arith, e, n))
            ])
      | inr e ↦
          rw (e, append-nil (steps as'), version_after-steps as' (sets_keys ∷ []) current)
            (inl (omega arith))
    ]

if_accepted-no_write {ℓ} :
    {A : Type ℓ} (v : Verdict A) → if_accepted v (λ _. no_write) ≡ write → true ≡ false
if_accepted-no_write (accepted a) h = cc
if_accepted-no_write (thrown ms) h = cc

-- For a version that is older than that of the file no write begins, but in the additive mode.
decide-older :
    (mode : SchemaMode) (current version : ℕ) (changes : List SchemaChange)
    → is_additive mode ≡ false
    → (version == current) ≡ false
    → (current == version) ≡ false
    → ltb version current ≡ true
    → (current == not_versioned) ≡ false
    → decide mode current changes version ≡ write
    → true ≡ false
decide-older automatic current version changes a q r l n h =
    let h' : invalid_version current version ≡ write = (rw (l, n) at h) in cc
decide-older immutable current version changes a q r l n h =
    let h' : invalid_version current version ≡ write = (rw q at h) in cc
decide-older read_only_alternative current version changes a q r l n h =
    if_accepted-no_write (verify_compatible_for_readonly changes) h
decide-older reset_file current version changes a q r l n h =
    let h' : reset_and_write ≡ write = (rw (n, r) at h) in cc
decide-older additive current version changes a q r l n h = cc
decide-older manual current version changes a q r l n h =
    let h' : invalid_version current version ≡ write = (rw (l, n) at h) in cc

write-newer :
    (mode : SchemaMode) (current version : ℕ) (changes : List SchemaChange)
    → schema_change_needs_write_transaction mode current changes version ≡ write
    → is_additive mode ≡ false
    → (current ≤ version) ⊎ (current ≡ not_versioned)
unfolding schema_change_needs_write_transaction
write-newer mode current version changes h a = elim (ℕ_discrete current not_versioned) [
  | yes e ↦ inr e
  | no n ↦ elim (Bool-cases (ltb version current)) [
    | inl l ↦
        let q : (version == current) ≡ false = ground (arith, l) in
        let r : (current == version) ≡ false = ground (arith, l) in
        let m : (current == not_versioned) ≡ false = ground (arith, n) in
        let d : decide mode current changes version ≡ write = (rw q at h) in
        absurd (let f = decide-older mode current version changes a q r l m d in cc)
    | inr l ↦ inl (ground (arith, l))
  ]
]

-- A run that sets no version but that of the target raises that of the file if the target's is newer.
Sets-Raised :
    (current version : ℕ) (run : List Step × Ending)
    → (current ≤ version) ⊎ (current ≡ not_versioned)
    → Sets current version run
    → Raised current run
Sets-Raised current version run (inr e) s = inr e
Sets-Raised current version run (inl l) (inl e) = inl (omega (arith, e))
Sets-Raised current version run (inl l) (inr e) = inl (omega (arith, l, e))

-- Where `schema_change_needs_write_transaction` decides to write without a reset of the file, what
-- `apply_schema_changes` then does, whether it ends or throws, leaves a version that is no less than the
-- one of the file, unless the file had none.
pub version_after-apply_schema_changes :
    (mode : SchemaMode) (current version : ℕ) (changes : List SchemaChange) (has_migration : Bool)
    (old : List ObjectSchema) (left : List SchemaChange)
    → schema_change_needs_write_transaction mode current changes version ≡ write
    → let run = apply_schema_changes mode current version changes has_migration old left in
      (current ≤ version_after run.0 current) ⊎ (current ≡ not_versioned)
unfolding apply_schema_changes version_after
version_after-apply_schema_changes mode current version changes has_migration old left h =
    let later = apply_migration version changes has_migration old left in
    let same = if current == version then apply_same_version changes else later in
    let versioned = if is_manual mode then apply_manually version has_migration left else same in
    let any = if current == not_versioned then apply_initially version changes else versioned in
    if_intro (Raised current) (is_additive mode) (apply_additively current version changes) any
      (λ _. apply_additively-Raised current version changes)
      (λ a.
        let newer = write-newer mode current version changes h a in
        if_intro (Raised current) (current == not_versioned) (apply_initially version changes)
          versioned (λ e. inr (ground (arith, e)))
          (λ _. Sets-Raised current version versioned newer (
            if_intro (Sets current version) (is_manual mode)
              (apply_manually version has_migration left) same
              (λ _. apply_manually-Sets current version has_migration left)
              (λ _.
                if_intro (Sets current version) (current == version) (apply_same_version changes)
                  later (λ _. apply_same_version-Sets current version changes)
                  (λ _. apply_migration-Sets current version changes has_migration old left)))))
