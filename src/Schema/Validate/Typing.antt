-- ===== src/Schema/Validate/Typing.antt =====
-- Which properties `validate_property` finds no problem with.
use realm_object_store.Base.{
  ◌≡◌, refl, Bool, true, false, not, List, [], ◌∷◌, ◌++◌, arith, Option, none, some, inl, inr,
  Option-cases, ◌↔◌,
}
use realm_object_store.Schema.Names.{Name, name_eq, is_empty}
use realm_object_store.Schema.Properties.{
  BaseType, int, bool, string, date, object, linking_objects, object_id, same_base, Property,
  type_is_indexable, type_is_nullable, ObjectSchema, property_for_name,
}
use realm_object_store.Schema.Lookup.{find}
use realm_object_store.Schema.Validate.{no_origin, check_origin, check_target, validate_property}

-- The types that a primary key and an index may have.
abbrev keyable : BaseType → Bool
keyable int = true
keyable string = true
keyable object_id = true
keyable _ = false

abbrev indexable : BaseType → Bool
indexable int = true
indexable bool = true
indexable string = true
indexable date = true
indexable object_id = true
indexable _ = false

-- What the type of a property asks of the rest of it.
abbrev pub IsTyped : List ObjectSchema → Name → Property → BaseType → Type 0
IsTyped schema owner p object =
    (p.type.nullable ≡ not p.type.array)
    × (p.is_primary ≡ false)
    × (p.is_indexed ≡ false)
    × (is_empty p.link_origin_property_name ≡ true)
    × ((t : ObjectSchema) × (find p.object_type schema ≡ some t))
IsTyped schema owner p linking_objects =
    (p.type.nullable ≡ false)
    × (p.type.array ≡ true)
    × (p.is_primary ≡ false)
    × (p.is_indexed ≡ false)
    × (is_empty p.link_origin_property_name ≡ false)
    × ((t : ObjectSchema) × (q : Property) × (find p.object_type schema ≡ some t)
        × (property_for_name t p.link_origin_property_name ≡ some q)
        × (q.type.base ≡ object)
        × (name_eq q.object_type owner ≡ true))
IsTyped schema owner p b =
    (p.is_primary ≡ true → keyable b ≡ true)
    × (p.is_indexed ≡ true → indexable b ≡ true)
    × (is_empty p.link_origin_property_name ≡ true)
    × (is_empty p.object_type ≡ true)

pub same_base-object : (b : BaseType) → same_base b object ≡ true → b ≡ object
same_base-object object h = refl
same_base-object _ h = cc

pub ++-nil {ℓ} : {A : Type ℓ} (xs ys : List A) → xs ++ ys ≡ [] → (xs ≡ []) × (ys ≡ [])
++-nil [] ys h = (refl, h)
++-nil (x ∷ xs) ys h = cc

pub nil-++ {ℓ} : {A : Type ℓ} (xs ys : List A) → xs ≡ [] → ys ≡ [] → xs ++ ys ≡ []
nil-++ xs ys h k = rw (h, k) refl

module _ (schema : List ObjectSchema) (owner n pn ot og : Name) (nu ar pr ix : Bool) where
  abbrev prop : BaseType → Property
  prop b = record {
    name = n;
    public_name = pn;
    type = record { base = b; nullable = nu; array = ar };
    object_type = ot;
    link_origin_property_name = og;
    is_primary = pr;
    is_indexed = ix;
  }

  abbrev Linked : Option ObjectSchema → Type 0
  Linked target =
      (t : ObjectSchema) × (q : Property) × (target ≡ some t)
      × (property_for_name t og ≡ some q)
      × (q.type.base ≡ object)
      × (name_eq q.object_type owner ≡ true)

  links_to :
      (target : Option ObjectSchema)
      → check_target owner (prop linking_objects) target ≡ []
      → Linked target
  links_to none h = cc
  links_to (some t) h = elim (Option-cases (property_for_name t og)) [
    | inl e ↦ let stops : no_origin ot og owner n ∷ [] ≡ [] = rw e at h in cc
    | inr (q, e) ↦
        let last : check_origin owner (prop linking_objects) (some q) ≡ [] = rw e at h in
        (t, q, refl, e, same_base-object q.type.base (ground arith), ground arith)
  ]

  linked :
      (primary : Option Name)
      → validate_property schema owner (prop linking_objects) primary ≡ []
      → Linked (find ot schema)
  unfolding validate_property type_is_nullable type_is_indexable
  linked primary h = links_to (find ot schema) (ground arith)

  accepted :
      (b : BaseType) (primary : Option Name)
      → validate_property schema owner (prop b) primary ≡ []
      → IsTyped schema owner (prop b) b × (pr ≡ true → primary ≡ none)
  unfolding validate_property type_is_nullable type_is_indexable
  accepted object none h = elim (Option-cases (find ot schema)) [
    | inl e ↦ ground (arith, e)
    | inr (t, e) ↦
        let k : (t : ObjectSchema) × (find ot schema ≡ some t) = (t, e) in ground (arith, e, k)
  ]
  accepted object (some m) h = elim (Option-cases (find ot schema)) [
    | inl e ↦ ground (arith, e)
    | inr (t, e) ↦
        let k : (t : ObjectSchema) × (find ot schema ≡ some t) = (t, e) in ground (arith, e, k)
  ]
  accepted linking_objects none h =
      let k = linked none h in
      ((ground arith, ground arith, ground arith, ground arith, ground arith, k), ground arith)
  accepted linking_objects (some m) h =
      let k = linked (some m) h in
      ((ground arith, ground arith, ground arith, ground arith, ground arith, k), ground arith)
  accepted b none h = ground arith
  accepted b (some m) h = ground arith

  no_problems :
      (b : BaseType) (primary : Option Name)
      → IsTyped schema owner (prop b) b × (pr ≡ true → primary ≡ none)
      → validate_property schema owner (prop b) primary ≡ []
  unfolding validate_property type_is_nullable type_is_indexable
  no_problems object none h = let (t, e) = h.0.4 in ground (arith, e)
  no_problems object (some m) h = let (t, e) = h.0.4 in ground (arith, e)
  no_problems linking_objects none h = let (t, q, e, f, g, i) = h.0.5 in ground (arith, e, f, g, i)
  no_problems linking_objects (some m) h =
      let (t, q, e, f, g, i) = h.0.5 in ground (arith, e, f, g, i)
  no_problems b none h = ground arith
  no_problems b (some m) h = ground arith

-- `validate_property` reports nothing exactly where the property is typed and, if it is a primary
-- key, none was found before.
pub validate_property-IsTyped :
    (schema : List ObjectSchema) (owner : Name) (p : Property) (primary : Option Name)
    → (validate_property schema owner p primary ≡ [])
      ↔ (IsTyped schema owner p p.type.base × (p.is_primary ≡ true → primary ≡ none))
validate_property-IsTyped schema owner p primary = (
  accepted schema owner p.name p.public_name p.object_type p.link_origin_property_name
      p.type.nullable p.type.array p.is_primary p.is_indexed p.type.base primary,
  no_problems schema owner p.name p.public_name p.object_type p.link_origin_property_name
      p.type.nullable p.type.array p.is_primary p.is_indexed p.type.base primary,
)
