-- ===== src/Schema/Loops/Walks.antt =====
-- The search reports wherever links to embedded types can be followed without end.
use realm_object_store.Base.{
  ℕ, zero, suc, ◌+◌, ◌*◌, ◌≡◌, refl, sym, ◌∙◌, Bool, true, false, not, ◌&&◌, ◌||◌, List, [], ◌∷◌,
  ◌++◌, Option, none, some, length, arith, Bool-cases, inl, inr,
}
use realm_object_store.Schema.Properties.{object, same_base, Property, ObjectSchema}
use realm_object_store.Schema.Lookup.{find}
use realm_object_store.Schema.Loops.{
  CheckObjectPath, contains_name, Search, looped, unknown, further, and_push, and_then, check_link,
  check_properties, check_level, after_level, search_levels, start_at, do_check,
}
use realm_object_store.Schema.Loops.Ends.{names_of, do_check-Ends}

-- Whether some link of the properties leads to an embedded type that passes the test.
abbrev pub leads : (ObjectSchema → Bool) → Option ObjectSchema → Bool
leads w none = false
leads w (some o) = o.is_embedded && w o

unfoldable pub any_link : List ObjectSchema → (ObjectSchema → Bool) → List Property → Bool
any_link schema w [] = false
any_link schema w (p ∷ ps) =
    (same_base p.type.base object && leads w (find p.object_type schema)) || any_link schema w ps

-- Whether so many links to embedded types can be followed from a type, one behind the other.
unfoldable pub walks : List ObjectSchema → ℕ → ObjectSchema → Bool
unfolding any_link
walks schema zero o = true
walks schema (suc n) o = any_link schema (λ o'. walks schema n o') o.persisted_properties

-- Whether the search reports a cycle, or stops at a type that is not there.
abbrev pub reports : Search → Bool
reports (further vs) = false
reports (looped p) = true
reports (unknown n) = true

unfoldable any_entry : (ObjectSchema → Bool) → List CheckObjectPath → Bool
any_entry w [] = false
any_entry w (v ∷ vs) = w v.current || any_entry w vs

abbrev carries : (ObjectSchema → Bool) → Search → Bool
carries w (further vs) = any_entry w vs
carries w (looped p) = true
carries w (unknown n) = true

carries-and_push :
    (w : ObjectSchema → Bool) (v : CheckObjectPath) (s : Search)
    → (w v.current || carries w s) ≡ true
    → carries w (and_push v s) ≡ true
unfolding any_entry
carries-and_push w v (further vs) h = h
carries-and_push w v (looped p) h = refl
carries-and_push w v (unknown n) h = refl

carries-check_link :
    (w : ObjectSchema → Bool) (v : CheckObjectPath) (p : Property) (found : Option ObjectSchema)
    (rest : Search)
    → (leads w found || carries w rest) ≡ true
    → carries w (check_link v p found rest) ≡ true
unfolding check_link
carries-check_link w v p none rest h = refl
carries-check_link w v p (some o) rest h = elim (Bool-cases o.is_embedded) [
  | inl e ↦ elim (Bool-cases (contains_name p.object_type v.visited)) [
    | inl c ↦ rw (e, c) refl
    | inr c ↦ rw (e, c) (carries-and_push w _ rest (rw e at h))
  ]
  | inr e ↦ rw e (rw e at h)
]

carries-check_properties :
    (schema : List ObjectSchema) (w : ObjectSchema → Bool) (v : CheckObjectPath)
    (ps : List Property)
    → any_link schema w ps ≡ true
    → carries w (check_properties schema v ps) ≡ true
unfolding check_properties any_link
carries-check_properties schema w v [] h = cc
carries-check_properties schema w v (p ∷ ps) h =
    let rest = check_properties schema v ps in
    let found = find p.object_type schema in
    let ih : (any_link schema w ps ≡ true) → carries w rest ≡ true =
      carries-check_properties schema w v ps in
    elim (Bool-cases (same_base p.type.base object)) [
      | inl e ↦
          let h' : (leads w found || any_link schema w ps) ≡ true = (rw e at h) in
          let step : (leads w found || carries w rest) ≡ true = elim (Bool-cases (leads w found)) [
            | inl l ↦ rw l refl
            | inr l ↦ rw l (ih (rw l at h'))
          ] in
          rw e (carries-check_link w v p found rest step)
      | inr e ↦ rw e (ih (rw e at h))
    ]

any_entry-++ :
    (w : ObjectSchema → Bool) (vs ws : List CheckObjectPath)
    → any_entry w (vs ++ ws) ≡ (any_entry w vs || any_entry w ws)
unfolding any_entry
any_entry-++ w [] ws = refl
any_entry-++ w (v ∷ vs) ws = ground (arith, any_entry-++ w vs ws)

carries-and_then :
    (w : ObjectSchema → Bool) (s t : Search)
    → (carries w s || carries w t) ≡ true
    → carries w (and_then s t) ≡ true
carries-and_then w (further vs) (further ws) h = any_entry-++ w vs ws ∙ h
carries-and_then w (further vs) (looped p) h = refl
carries-and_then w (further vs) (unknown n) h = refl
carries-and_then w (looped p) t h = refl
carries-and_then w (unknown n) t h = refl

or_true : (b : Bool) → (b || true) ≡ true
or_true true = refl
or_true false = refl

carries-check_level :
    (schema : List ObjectSchema) (n : ℕ) (vs : List CheckObjectPath)
    → any_entry (λ o. walks schema (suc n) o) vs ≡ true
    → carries (λ o. walks schema n o) (check_level schema vs) ≡ true
unfolding check_level any_entry walks
carries-check_level schema n [] h = cc
carries-check_level schema n (v ∷ vs) h =
    let w : ObjectSchema → Bool = λ o. walks schema n o in
    let first = check_properties schema v v.current.persisted_properties in
    carries-and_then w first (check_level schema vs)
      (elim (Bool-cases (any_link schema w v.current.persisted_properties)) [
        | inl e ↦ rw (carries-check_properties schema w v v.current.persisted_properties e) refl
        | inr e ↦
            let t : carries w (check_level schema vs) ≡ true =
              carries-check_level schema n vs (rw e at h) in
            rw t (or_true (carries w first))
      ])

after_level-reports :
    (w : ObjectSchema → Bool) (next : List CheckObjectPath → Option Search) (r s : Search)
    → ((ws : List CheckObjectPath) → any_entry w ws ≡ true → next ws ≡ some s → reports s ≡ true)
    → carries w r ≡ true
    → after_level next r ≡ some s
    → reports s ≡ true
after_level-reports w next (looped p) s k c q = let t : looped p ≡ s = cc in rw (sym t) refl
after_level-reports w next (unknown n) s k c q = let t : unknown n ≡ s = cc in rw (sym t) refl
after_level-reports w next (further ws) s k c q = k ws c q

search_levels-reports :
    (schema : List ObjectSchema) (fuel : ℕ) (vs : List CheckObjectPath) (s : Search)
    → any_entry (λ o. walks schema fuel o) vs ≡ true
    → search_levels schema fuel vs ≡ some s
    → reports s ≡ true
unfolding search_levels any_entry
search_levels-reports schema zero vs s h e = cc
search_levels-reports schema (suc fuel) [] s h e = cc
search_levels-reports schema (suc fuel) (v ∷ vs) s h e =
    after_level-reports (λ o. walks schema fuel o) (λ ws. search_levels schema fuel ws)
      (check_level schema (v ∷ vs)) s (λ ws. search_levels-reports schema fuel ws s)
      (carries-check_level schema fuel (v ∷ vs) h) e

-- For a type of the schema the search for cycles of embedded objects ends within the fuel of the model,
-- and it reports if two links more than twice the number of types, each to an embedded type, can be
-- followed from the type one behind the other, as wherever a cycle of such links can be reached.
pub do_check_lem :
    (schema : List ObjectSchema) (o : ObjectSchema)
    → contains_name o.name (names_of schema) ≡ true
    → (s : Search) × (do_check schema o ≡ some s)
      × ((not (walks schema (2 * length schema + 2) o) || reports s) ≡ true)
unfolding do_check any_entry
do_check_lem schema o h =
    let (s, e) = do_check-Ends schema o h in
    (
      s,
      e,
      elim (Bool-cases (walks schema (2 * length schema + 2) o)) [
        | inl w ↦
            let there : any_entry (λ o. walks schema (2 * length schema + 2) o) (start_at o ∷ [])
                ≡ true =
              rw w refl in
            let r =
              search_levels-reports schema (2 * length schema + 2) (start_at o ∷ []) s there e in
            ground (arith, r)
        | inr w ↦ rw w refl
      ],
    )
