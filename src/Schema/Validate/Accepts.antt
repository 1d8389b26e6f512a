-- ===== src/Schema/Validate/Accepts.antt =====
-- Which types `ObjectSchema::validate` finds no problem with.
use realm_object_store.Base.{
  ℕ, ◌+◌, ◌≤◌, ◌<◌, ◌≡◌, refl, ◌∙◌, Bool, true, false, ◌&&◌, List, [], ◌∷◌, ◌++◌, map, arith,
  Option, none, some, if◌then◌else◌, Bool-cases, inl, inr, Option-cases, ◌⊎◌, ◌↔◌, ◌==◌,
}
use realm_object_store.Schema.Names.{Name, is_empty, name_eq→eq, name_eq_self}
use realm_object_store.Schema.Properties.{Property, ObjectSchema, primary_key_property}
use realm_object_store.Schema.Validate.{
  repeated_alias, repeated_property, conflicting_alias, validate_property, validate_properties,
  next_primary, internal_names, public_names, sort_names, duplicates, common, is_none, id_name,
  check_key, check_sync, check_names, property_for_public_name, validate,
}
use realm_object_store.Schema.Validate.Sorting.{
  AtMostOnce, NoneShared, duplicates-sort_names, common-sort_names,
}
use realm_object_store.Schema.Validate.Typing.{IsTyped, ++-nil, nil-++, validate_property-IsTyped}

abbrev pub properties : ObjectSchema → List Property
properties o = o.persisted_properties ++ o.computed_properties

abbrev pub AllTyped : List ObjectSchema → Name → List Property → Type 0
AllTyped schema owner [] = Unit {0}
AllTyped schema owner (p ∷ ps) = IsTyped schema owner p p.type.base × AllTyped schema owner ps

-- How many properties are marked as the primary key, and how many may be.
abbrev primaries : List Property → ℕ
primaries [] = 0
primaries (p ∷ ps) = (if p.is_primary then 1 else 0) + primaries ps

abbrev left : Option Name → ℕ
left none = 1
left (some n) = 0

pub record IsAccepted (schema : List ObjectSchema) (o : ObjectSchema) (for_sync : Bool)
    : Type 0 where
  pub names_once : AtMostOnce (internal_names (properties o))
  pub aliases_once : AtMostOnce (public_names (properties o))
  pub aliases_free : NoneShared (public_names (properties o)) (internal_names (properties o))
  pub typed : AllTyped schema o.name (properties o)
  pub one_primary : primaries (properties o) ≤ 1
  pub not_embedded : is_empty o.primary_key ≡ false → o.is_embedded ≡ false
  pub has_key :
      is_empty o.primary_key ≡ false
      → (0 < primaries (properties o)) ⊎ ((p : Property) × (primary_key_property o ≡ some p))
  pub synced : for_sync ≡ true → o.is_embedded ≡ false → o.primary_key ≡ id_name

left_step :
    (b : Bool) (n : Name) (k : ℕ) (primary : Option Name)
    → ((b ≡ true → primary ≡ none) × (k ≤ left (if b then some n else primary)))
      ↔ ((if b then 1 else 0) + k ≤ left primary)
left_step true n k none = ((λ h. omega (arith, h.1)), (λ h. ((λ e. refl), omega (arith, h))))
left_step true n k (some m) = ((λ h. let e = h.0 refl in cc), (λ h. absurd (omega (arith, h))))
left_step false n k none = ((λ h. omega (arith, h.1)), (λ h. ((λ e. cc), omega (arith, h))))
left_step false n k (some m) = ((λ h. omega (arith, h.1)), (λ h. ((λ e. cc), omega (arith, h))))

none_left :
    (b : Bool) (n : Name) (k : ℕ) (primary : Option Name)
    → (is_none (if b then some n else primary) && (k == 0))
      ≡ (is_none primary && ((if b then 1 else 0) + k == 0))
none_left true n k none = ground arith
none_left true n k (some m) = refl
none_left false n k none = ground arith
none_left false n k (some m) = refl

properties_lem :
    (schema : List ObjectSchema) (owner : Name) (ps : List Property) (primary : Option Name)
    → ((validate_properties schema owner ps primary).1 ≡ [])
      ↔ (AllTyped schema owner ps × (primaries ps ≤ left primary))
unfolding validate_properties
properties_lem schema owner [] primary = ((λ h. (tt, omega arith)), (λ h. refl))
properties_lem schema owner (p ∷ ps) primary =
    let one = validate_property-IsTyped schema owner p primary in
    let ih = properties_lem schema owner ps (next_primary p primary) in
    let step = left_step p.is_primary p.name (primaries ps) primary in
    (
      (λ h.
          let (a, b) =
            ++-nil (validate_property schema owner p primary)
              (validate_properties schema owner ps (next_primary p primary)).1 h in
          let (t, f) = one.0 a in let (ts, le) = ih.0 b in ((t, ts), step.0 (f, le))),
      (λ h. let (f, le) = step.1 h.1 in rw (one.1 (h.0.0, f), ih.1 (h.0.1, le)) refl),
    )

found_lem :
    (schema : List ObjectSchema) (owner : Name) (ps : List Property) (primary : Option Name)
    → is_none (validate_properties schema owner ps primary).0
      ≡ (is_none primary && (primaries ps == 0))
unfolding validate_properties
found_lem schema owner [] none = refl
found_lem schema owner [] (some m) = refl
found_lem schema owner (p ∷ ps) primary =
    found_lem schema owner ps (next_primary p primary)
    ∙ none_left p.is_primary p.name (primaries ps) primary

pub map-nil {ℓ κ} : {A : Type ℓ} {B : Type κ} (f : A → B) (xs : List A) → map f xs ≡ [] → xs ≡ []
map-nil f [] h = refl
map-nil f (x ∷ xs) h = cc

check_names_lem :
    (o : ObjectSchema)
    → (check_names o ≡ []) ↔ (
        AtMostOnce (public_names (properties o))
        × AtMostOnce (internal_names (properties o))
        × NoneShared (public_names (properties o)) (internal_names (properties o)))
check_names_lem o =
    let publics = public_names (properties o) in
    let internals = internal_names (properties o) in
    let a = duplicates-sort_names publics in
    let b = duplicates-sort_names internals in
    let c = common-sort_names publics internals in
    (
      (λ h.
          let x = map (λ n. repeated_alias n o.name) (duplicates (sort_names publics)) in
          let y = map (λ n. repeated_property n o.name) (duplicates (sort_names internals)) in
          let z =
            map (λ n. conflicting_alias o.name (property_for_public_name o n) n)
              (common (sort_names publics) (sort_names internals)) in
          let (rest, k) = ++-nil (x ++ y) z h in
          let (f, g) = ++-nil x y rest in
          (
            a.0 (map-nil (λ n. repeated_alias n o.name) (duplicates (sort_names publics)) f),
            b.0 (map-nil (λ n. repeated_property n o.name) (duplicates (sort_names internals)) g),
            c.0 (
                map-nil (λ n. conflicting_alias o.name (property_for_public_name o n) n)
                  (common (sort_names publics) (sort_names internals)) k),
          )),
      (λ h. rw (a.1 h.0, b.1 h.1, c.1 h.2) refl),
    )

check_key_lem :
    (o : ObjectSchema) (primary : Option Name) (k : ℕ)
    → is_none primary ≡ (k == 0)
    → (check_key o primary ≡ []) ↔ (
        (is_empty o.primary_key ≡ false → o.is_embedded ≡ false)
        × (is_empty o.primary_key ≡ false
            → (0 < k) ⊎ ((p : Property) × (primary_key_property o ≡ some p))))
check_key_lem o primary k e = (
  (λ h. (
    (λ f. ground (arith, h, f)),
    (λ f. elim (Option-cases (primary_key_property o)) [
      | inl q ↦ inl (ground (arith, e, q, h, f))
      | inr q ↦ inr q
    ]),
  )),
  (λ h. elim (Bool-cases (is_empty o.primary_key)) [
    | inl f ↦ ground (arith, f)
    | inr f ↦
        let apart = h.0 f in
        elim (h.1 f) [
          | inl q ↦ ground (arith, e, f, q, apart)
          | inr (p, q) ↦ ground (arith, f, q, apart)
        ]
  ]),
)

check_sync_lem :
    (o : ObjectSchema) (for_sync : Bool)
    → (check_sync o for_sync ≡ [])
      ↔ (for_sync ≡ true → o.is_embedded ≡ false → o.primary_key ≡ id_name)
check_sync_lem o for_sync = (
  (λ h f g. name_eq→eq o.primary_key id_name (ground (arith, h, f, g))),
  (λ h. elim (Bool-cases for_sync) [
    | inl f ↦ elim (Bool-cases o.is_embedded) [
      | inl g ↦ ground (arith, f, g)
      | inr g ↦ rw (f, g, h f g, name_eq_self id_name) refl
    ]
    | inr f ↦ ground (arith, f)
  ]),
)

-- `validate` reports nothing exactly for a type of which no name and no alias occurs twice and no
-- alias is a name, whose properties are each as their type asks, of which at most one is marked as the
-- primary key; where, if the name of the primary key is not empty, the type is not embedded, and some
-- property is marked as the primary key or there is one of that name; and where on a synchronized file
-- the name of the primary key is `_id` unless the type is embedded.
pub validate-IsAccepted :
    (schema : List ObjectSchema) (o : ObjectSchema) (for_sync : Bool)
    → (validate schema o for_sync ≡ []) ↔ IsAccepted schema o for_sync
unfolding validate
validate-IsAccepted schema o for_sync =
    let found = validate_properties schema o.name (properties o) none in
    let names = check_names_lem o in
    let props = properties_lem schema o.name (properties o) none in
    let key =
      check_key_lem o found.0 (primaries (properties o))
        (found_lem schema o.name (properties o) none) in
    let sync = check_sync_lem o for_sync in
    (
      (λ h.
          let (abc, d) =
            ++-nil (check_names o ++ found.1 ++ check_key o found.0) (check_sync o for_sync) h in
          let (ab, c) = ++-nil (check_names o ++ found.1) (check_key o found.0) abc in
          let (a, b) = ++-nil (check_names o) found.1 ab in
          record {
            names_once = (names.0 a).1;
            aliases_once = (names.0 a).0;
            aliases_free = (names.0 a).2;
            typed = (props.0 b).0;
            one_primary = (props.0 b).1;
            not_embedded = (key.0 c).0;
            has_key = (key.0 c).1;
            synced = sync.0 d;
          }),
      (λ h.
          let a = names.1 (h.aliases_once, h.names_once, h.aliases_free) in
          let b = props.1 (h.typed, h.one_primary) in
          let c = key.1 (h.not_embedded, h.has_key) in
          nil-++ (check_names o ++ found.1 ++ check_key o found.0) (check_sync o for_sync)
            (nil-++ (check_names o ++ found.1) (check_key o found.0)
              (nil-++ (check_names o) found.1 a b) c)
            (sync.1 h.synced)),
    )
