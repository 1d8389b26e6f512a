-- ===== src/Schema/Loops/Exact.antt =====
-- The search of `Schema::validate` stops at a cycle only where links to embedded types can be followed
-- without end, and in a schema without other problems never at an unknown type.
use realm_object_store.Base.{
  ℕ, zero, suc, ◌+◌, ◌*◌, ◌≡◌, refl, sym, ap, ◌∙◌, subst, Bool, true, false, not, ◌||◌, List, [],
  ◌∷◌, Option, some, if◌then◌else◌, if_intro, length, arith, Bool-cases, inl, inr,
}
use realm_object_store.Schema.Names.{Name, name_eq, name_eq→eq}
use realm_object_store.Schema.Properties.{object, same_base, Property, ObjectSchema}
use realm_object_store.Schema.Lookup.{find}
use realm_object_store.Schema.Loops.{
  CheckObjectPath, contains_name, visit_name, Search, looped, unknown, further, and_push, and_then,
  next_path, check_link, check_properties, after_level, check_level, search_levels, start_at,
  do_check,
}
use realm_object_store.Schema.Loops.Ends.{find-names_of}
use realm_object_store.Schema.Loops.Walks.{any_link, leads, walks}
use realm_object_store.Schema.Loops.Rings.{AllLinked, AllKnown, find-AllLinked, walks_less}

module _ (schema : List ObjectSchema) (o : ObjectSchema) (known : AllKnown schema schema) where
  -- From the first type one can walk at least as far as from the second.
  abbrev Leads : ObjectSchema → ObjectSchema → Type 0
  Leads t c = (n : ℕ) → walks schema n c ≡ true → walks schema n t ≡ true

  -- Every visited type leads to the one of the entry, and the type of the search was visited.
  record IsPath (v : CheckObjectPath) : Type 0 where
    there : find v.current.name schema ≡ some v.current
    visited_leads :
        (t : ObjectSchema)
        → find t.name schema ≡ some t
        → contains_name t.name v.visited ≡ true
        → Leads t v.current
    start_leads : Leads o v.current

  abbrev AllPaths : List CheckObjectPath → Type 0
  AllPaths [] = Unit {0}
  AllPaths (v ∷ vs) = IsPath v × AllPaths vs

  abbrev Endless : Type 0
  Endless = (n : ℕ) → walks schema n o ≡ true

  abbrev Sound : Search → Type 0
  Sound (looped p) = Endless
  Sound (unknown n) = true ≡ false
  Sound (further vs) = AllPaths vs

  -- A link of the entry's type to the type of that name.
  abbrev Steps : CheckObjectPath → ObjectSchema → Type 0
  Steps v o' = (n : ℕ) → walks schema n o' ≡ true → walks schema (suc n) v.current ≡ true

  endless :
      (v : CheckObjectPath) (o' : ObjectSchema)
      → IsPath v
      → Steps v o'
      → find o'.name schema ≡ some o'
      → contains_name o'.name v.visited ≡ true
      → Endless
  unfolding walks
  endless v o' h step f c zero = refl
  endless v o' h step f c (suc n) = h.start_leads (suc n) (step n (turn n))
    where
      turn : (n : ℕ) → walks schema n o' ≡ true
      turn zero = refl
      turn (suc n) = h.visited_leads o' f c (suc n) (step n (turn n))

  child-IsPath :
      (v : CheckObjectPath) (o' : ObjectSchema) (path : Name)
      → IsPath v
      → Steps v o'
      → find o'.name schema ≡ some o'
      → IsPath (record { current = o'; path = path; visited = visit_name v.current.name v.visited })
  unfolding visit_name contains_name
  child-IsPath v o' path h step f = record {
    there = f;
    visited_leads = λ t ft c. elim (Bool-cases (contains_name v.current.name v.visited)) [
      | inl e ↦ through t (h.visited_leads t ft (rw e at c))
      | inr e ↦
          let c' : (name_eq v.current.name t.name || contains_name t.name v.visited) ≡ true =
            (rw e at c) in
          elim (Bool-cases (name_eq v.current.name t.name)) [
            | inl q ↦
                let same : v.current.name ≡ t.name = name_eq→eq v.current.name t.name q in
                let one : some v.current ≡ some t =
                  sym h.there ∙ ap (λ n. find n schema) same ∙ ft in
                let eq : v.current ≡ t = cc in
                subst (λ t. Leads t o') eq (through v.current (λ n w. w))
            | inr q ↦ through t (h.visited_leads t ft (rw q at c'))
          ]
    ];
    start_leads = through o h.start_leads;
  }
    where
      through : (t : ObjectSchema) → Leads t v.current → Leads t o'
      through t l n w = l n (walks_less schema n v.current (step n w))

  and_push-Sound : (v : CheckObjectPath) (s : Search) → IsPath v → Sound s → Sound (and_push v s)
  and_push-Sound v (further vs) h k = (h, k)
  and_push-Sound v (looped p) h k = k
  and_push-Sound v (unknown n) h k = k

  check_link-Sound :
      (v : CheckObjectPath) (p : Property) (o' : ObjectSchema) (rest : Search)
      → IsPath v
      → (o'.is_embedded ≡ true → Steps v o')
      → find p.object_type schema ≡ some o'
      → Sound rest
      → Sound (check_link v p (some o') rest)
  unfolding check_link
  check_link-Sound v p o' rest h step f k =
      let (same, _) = find-names_of p.object_type schema o' f in
      let f' : find o'.name schema ≡ some o' = ap (λ n. find n schema) same ∙ f in
      let seen = contains_name p.object_type v.visited in
      let cycle = looped (next_path v.path p) in
      let child : CheckObjectPath = record {
        current = o';
        path = next_path v.path p;
        visited = visit_name v.current.name v.visited;
      } in
      if_intro Sound (not o'.is_embedded) rest (if seen then cycle else and_push child rest)
        (λ _. k)
        (λ e.
          let e' : o'.is_embedded ≡ true = ground arith in
          if_intro Sound seen cycle (and_push child rest)
            (λ c. endless v o' h (step e') f' (ap (λ n. contains_name n v.visited) same ∙ c))
            (λ _.
              and_push-Sound child rest (child-IsPath v o' (next_path v.path p) h (step e') f') k))

  leads-true :
      (w : ObjectSchema → Bool) (t : ObjectSchema)
      → t.is_embedded ≡ true
      → w t ≡ true
      → leads w (some t) ≡ true
  leads-true w t m e = ground arith

  check_properties-Sound :
      (v : CheckObjectPath) (ps : List Property)
      → IsPath v
      → AllLinked schema ps
      → ((w : ObjectSchema → Bool)
          → any_link schema w ps ≡ true
          → any_link schema w v.current.persisted_properties ≡ true)
      → Sound (check_properties schema v ps)
  unfolding check_properties any_link walks
  check_properties-Sound v [] h l up = tt
  check_properties-Sound v (p ∷ ps) h l up =
      let rest = check_properties schema v ps in
      let ih = check_properties-Sound v ps h l.1 (λ w e. up w (ground arith)) in
      elim (Bool-cases (same_base p.type.base object)) [
        | inl e ↦
            let (t, f) = l.0 e in
            rw (e, f)
              (check_link-Sound v p t rest h
                (λ m n w.
                  up (λ o. walks schema n o)
                    (rw (e, f, leads-true (λ o. walks schema n o) t m w) refl))
                f ih)
        | inr e ↦ rw e ih
      ]

  and_then-Sound : (s t : Search) → Sound s → Sound t → Sound (and_then s t)
  and_then-Sound (further []) (further ws) h k = k
  and_then-Sound (further (v ∷ vs)) (further ws) h k =
      (h.0, and_then-Sound (further vs) (further ws) h.1 k)
  and_then-Sound (further vs) (looped p) h k = k
  and_then-Sound (further vs) (unknown n) h k = k
  and_then-Sound (looped p) t h k = h
  and_then-Sound (unknown n) t h k = h

  check_level-Sound : (vs : List CheckObjectPath) → AllPaths vs → Sound (check_level schema vs)
  unfolding check_level
  check_level-Sound [] h = tt
  check_level-Sound (v ∷ vs) h =
      and_then-Sound (check_properties schema v v.current.persisted_properties)
        (check_level schema vs)
        (check_properties-Sound v v.current.persisted_properties h.0
          (find-AllLinked schema schema v.current.name v.current known h.0.there) (λ w e. e))
        (check_level-Sound vs h.1)

  -- The search was not stopped, or at a cycle.
  abbrev pub Exact : Search → Type 0
  Exact (looped p) = Endless
  Exact (unknown n) = true ≡ false
  Exact (further vs) = vs ≡ []

  after_level-Exact :
      (next : List CheckObjectPath → Option Search) (r s : Search)
      → ((ws : List CheckObjectPath) → AllPaths ws → next ws ≡ some s → Exact s)
      → Sound r
      → after_level next r ≡ some s
      → Exact s
  after_level-Exact next (looped p) s k h q = let t : looped p ≡ s = cc in subst Exact t h
  after_level-Exact next (unknown n) s k h q = cc
  after_level-Exact next (further ws) s k h q = k ws h q

  search_levels-Exact :
      (fuel : ℕ) (vs : List CheckObjectPath) (s : Search)
      → AllPaths vs
      → search_levels schema fuel vs ≡ some s
      → Exact s
  unfolding search_levels
  search_levels-Exact zero vs s h q = cc
  search_levels-Exact (suc fuel) [] s h q = let t : further [] ≡ s = cc in subst Exact t refl
  search_levels-Exact (suc fuel) (v ∷ vs) s h q =
      after_level-Exact (λ ws. search_levels schema fuel ws) (check_level schema (v ∷ vs)) s
        (λ ws. search_levels-Exact fuel ws s) (check_level-Sound (v ∷ vs) h) q

  start-IsPath : find o.name schema ≡ some o → IsPath (start_at o)
  unfolding contains_name
  start-IsPath f = record {
    there = f;
    visited_leads = λ t ft c.
        let q : name_eq o.name t.name ≡ true = ground arith in
        let one : some o ≡ some t =
          sym f ∙ ap (λ n. find n schema) (name_eq→eq o.name t.name q) ∙ ft in
        let eq : o ≡ t = cc in subst (λ t. Leads t o) eq (λ n w. w);
    start_leads = λ n w. w;
  }

  pub do_check-Exact :
      (s : Search) → find o.name schema ≡ some o → do_check schema o ≡ some s → Exact s
  unfolding do_check
  do_check-Exact s f q =
      search_levels-Exact (2 * length schema + 2) (start_at o ∷ []) s (start-IsPath f, tt) q
