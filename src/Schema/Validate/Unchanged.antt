-- ===== src/Schema/Validate/Unchanged.antt =====
-- A schema whose types `validate` accepts, compared with itself.
use realm_object_store.Base.{
  ◌+◌, ◌≡◌, refl, ◌∙◌, sym, ap, Bool, true, false, List, [], ◌∷◌, ◌++◌, arith, Bool-cases, inl, inr,
}
use realm_object_store.Schema.Names.{Name, name_eq, name_eq_self, name_eq→eq}
use realm_object_store.Schema.Properties.{Property, ObjectSchema}
use realm_object_store.Schema.Change.{compare_schemas}
use realm_object_store.Schema.Compare.{Unnamed, Distinct, Apart, AllNamed, compare_schemas_self}
use realm_object_store.Schema.Validate.{internal_names, validate}
use realm_object_store.Schema.Validate.Sorting.{times, AtMostOnce}
use realm_object_store.Schema.Validate.Accepts.{validate-IsAccepted}

abbrev pub AllAccept : List ObjectSchema → Bool → List ObjectSchema → Type 0
AllAccept schema for_sync [] = Unit {0}
AllAccept schema for_sync (o ∷ os) =
    (validate schema o for_sync ≡ []) × AllAccept schema for_sync os

unlike : (a b : Name) → name_eq a b ≡ false → name_eq b a ≡ false
unlike a b h = elim (Bool-cases (name_eq b a)) [
  | inl e ↦
      let clash : true ≡ false =
        sym (name_eq_self a) ∙ ap (name_eq a) (sym (name_eq→eq b a e)) ∙ h in
      cc
  | inr e ↦ e
]

times-Unnamed : (n : Name) (ps : List Property) → times n (internal_names ps) ≡ 0 → Unnamed n ps
unfolding times
times-Unnamed n [] h = tt
times-Unnamed n (p ∷ ps) h =
    let out : name_eq p.name n ≡ false = ground (arith, h) in
    (out, unlike p.name n out, times-Unnamed n ps (ground (arith, h)))

-- Of a list of names each of which occurs once, the first and the rest have them apart.
once-Unnamed :
    (p : Property) (ps : List Property) → AtMostOnce (internal_names (p ∷ ps)) → Unnamed p.name ps
unfolding times
once-Unnamed p ps h =
    let here : times p.name (internal_names (p ∷ ps)) ≡ 1 + times p.name (internal_names ps) =
      rw (name_eq_self p.name) refl in
    times-Unnamed p.name ps (omega (arith, here, h p.name))

once_behind :
    (p : Property) (ps : List Property)
    → AtMostOnce (internal_names (p ∷ ps))
    → AtMostOnce (internal_names ps)
unfolding times
once_behind p ps h n = omega (arith, h n)

Unnamed-front :
    (n : Name) (ps qs : List Property) → Unnamed n (ps ++ qs) → Unnamed n ps × Unnamed n qs
Unnamed-front n [] qs h = (tt, h)
Unnamed-front n (p ∷ ps) qs h = let (a, b) = Unnamed-front n ps qs h.2 in ((h.0, h.1, a), b)

once-Distinct :
    (ps qs : List Property) → AtMostOnce (internal_names (ps ++ qs)) → Distinct ps × Apart ps qs
once-Distinct [] qs h = (tt, tt)
once-Distinct (p ∷ ps) qs h =
    let (a, b) = Unnamed-front p.name ps qs (once-Unnamed p (ps ++ qs) h) in
    let (c, d) = once-Distinct ps qs (once_behind p (ps ++ qs) h) in ((a, c), (b, d))

accepted-AllNamed :
    (schema : List ObjectSchema) (for_sync : Bool) (os : List ObjectSchema)
    → AllAccept schema for_sync os
    → AllNamed os
accepted-AllNamed schema for_sync [] h = tt
accepted-AllNamed schema for_sync (o ∷ os) h =
    let a = (validate-IsAccepted schema o for_sync).0 h.0 in
    let (d, e) = once-Distinct o.persisted_properties o.computed_properties a.names_once in
    (record { distinct = d; apart = e }, accepted-AllNamed schema for_sync os h.1)

-- A schema all of whose types `validate` accepts has no changes to itself.
pub compare_schemas-validate :
    (s : List ObjectSchema) (for_sync removals : Bool)
    → AllAccept s for_sync s
    → compare_schemas s s removals ≡ []
compare_schemas-validate s for_sync removals h =
    compare_schemas_self s removals (accepted-AllNamed s for_sync s h)
