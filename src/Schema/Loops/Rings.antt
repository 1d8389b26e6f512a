-- ===== src/Schema/Loops/Rings.antt =====
-- In a schema without other problems the search ends at a cycle exactly if there is one to reach.
use realm_object_store.Base.{
  ℕ, zero, suc, ◌≡◌, refl, subst, Bool, true, List, [], ◌∷◌, ◌++◌, none, some, if◌then◌else◌, arith,
  Bool-cases, inl, inr, Option-cases, map,
}
use realm_object_store.Schema.Names.{Name, name_eq, compare_names}
use realm_object_store.Schema.Properties.{object, same_base, Property, ObjectSchema}
use realm_object_store.Schema.Lookup.{find, is_less}
use realm_object_store.Schema.Validate.{validate}
use realm_object_store.Schema.Validate.Typing.{IsTyped, same_base-object, ++-nil}
use realm_object_store.Schema.Validate.Accepts.{AllTyped, map-nil, validate-IsAccepted}
use realm_object_store.Schema.Loops.{of_type, problems_of}
use realm_object_store.Schema.Loops.Walks.{any_link, walks}

-- The links of the properties lead to types of the schema.
abbrev pub AllLinked : List ObjectSchema → List Property → Type 0
AllLinked schema [] = Unit {0}
AllLinked schema (p ∷ ps) =
    (same_base p.type.base object ≡ true
      → (t : ObjectSchema) × (find p.object_type schema ≡ some t))
    × AllLinked schema ps

abbrev pub AllKnown : List ObjectSchema → List ObjectSchema → Type 0
AllKnown schema [] = Unit {0}
AllKnown schema (o ∷ os) = AllLinked schema o.persisted_properties × AllKnown schema os

AllTyped-AllLinked :
    (schema : List ObjectSchema) (owner : Name) (ps qs : List Property)
    → AllTyped schema owner (ps ++ qs)
    → AllLinked schema ps
AllTyped-AllLinked schema owner [] qs h = tt
AllTyped-AllLinked schema owner (p ∷ ps) qs h = (
  (λ e.
      let linked = subst (IsTyped schema owner p) (same_base-object p.type.base e) h.0 in linked.4),
  AllTyped-AllLinked schema owner ps qs h.1,
)

pub problems_of-AllKnown :
    (schema : List ObjectSchema) (for_sync : Bool) (os : List ObjectSchema)
    → problems_of schema for_sync os ≡ []
    → AllKnown schema os
unfolding problems_of
problems_of-AllKnown schema for_sync [] h = tt
problems_of-AllKnown schema for_sync (o ∷ os) h =
    let found = validate schema o for_sync in
    let (now, later) = ++-nil (map of_type found) (problems_of schema for_sync os) h in
    let ok = (validate-IsAccepted schema o for_sync).0 (map-nil of_type found now) in
    (
      AllTyped-AllLinked schema o.name o.persisted_properties o.computed_properties ok.typed,
      problems_of-AllKnown schema for_sync os later,
    )

pub find-AllLinked :
    (schema os : List ObjectSchema) (n : Name) (o : ObjectSchema)
    → AllKnown schema os
    → find n os ≡ some o
    → AllLinked schema o.persisted_properties
unfolding find
find-AllLinked schema [] n o k h = cc
find-AllLinked schema (x ∷ os) n o k h = elim (Bool-cases (is_less (compare_names x.name n))) [
  | inl e ↦ find-AllLinked schema os n o k.1 (rw e at h)
  | inr e ↦
      let h' : (if name_eq x.name n then some x else none) ≡ some o = (rw e at h) in
      elim (Bool-cases (name_eq x.name n)) [
        | inl q ↦
            let t : some x ≡ some o = (rw q at h') in
            let u : x ≡ o = cc in subst (λ o. AllLinked schema o.persisted_properties) u k.0
        | inr q ↦ let t : none ≡ some o = (rw q at h') in cc
      ]
]

any_link_mono :
    (schema : List ObjectSchema) (w w' : ObjectSchema → Bool)
    → ((o : ObjectSchema) → w o ≡ true → w' o ≡ true)
    → (ps : List Property) → any_link schema w ps ≡ true
    → any_link schema w' ps ≡ true
unfolding any_link
any_link_mono schema w w' h [] e = cc
any_link_mono schema w w' h (p ∷ ps) e = elim (Option-cases (find p.object_type schema)) [
  | inl n ↦ rw n (let e' = (rw n at e) in ground (arith, any_link_mono schema w w' h ps))
  | inr (o, n) ↦ rw n (let e' = (rw n at e) in ground (arith, h o, any_link_mono schema w w' h ps))
]

-- A walk can be cut short.
pub walks_less :
    (schema : List ObjectSchema) (n : ℕ) (o : ObjectSchema)
    → walks schema (suc n) o ≡ true
    → walks schema n o ≡ true
unfolding walks
walks_less schema zero o h = refl
walks_less schema (suc n) o h =
    any_link_mono schema (λ o. walks schema (suc n) o) (λ o. walks schema n o) (walks_less schema n)
      o.persisted_properties h
