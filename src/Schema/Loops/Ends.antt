-- ===== src/Schema/Loops/Ends.antt =====
-- The search for cycles ends: each level has visited more names, or stands at a new one.
use realm_object_store.Base.{
  ℕ, zero, suc, ◌+◌, ◌*◌, ◌≤◌, ◌≡◌, refl, sym, ap, ◌∙◌, subst, true, false, not, List, [], ◌∷◌,
  ◌++◌, Option, none, some, if◌then◌else◌, if_intro, length, arith, Bool-cases, inl, inr,
}
use realm_object_store.Schema.Names.{Name, name_eq, name_eq_self, name_eq→eq, compare_names}
use realm_object_store.Schema.Properties.{object, same_base, Property, ObjectSchema}
use realm_object_store.Schema.Lookup.{find, is_less}
use realm_object_store.Schema.Loops.{
  CheckObjectPath, contains_name, visit_name, Search, looped, unknown, further, and_push, and_then,
  next_path, check_link, check_properties, after_level, check_level, search_levels, start_at,
  do_check,
}

abbrev pub names_of : List ObjectSchema → List Name
names_of [] = []
names_of (o ∷ os) = o.name ∷ names_of os

unfoldable without : Name → List Name → List Name
without n [] = []
without n (m ∷ ms) = let rest = without n ms in if name_eq m n then ms else m ∷ rest

length-without :
    (n : Name) (ms : List Name)
    → contains_name n ms ≡ true
    → suc (length (without n ms)) ≡ length ms
unfolding without contains_name
length-without n [] h = cc
length-without n (m ∷ ms) h = elim (Bool-cases (name_eq m n)) [
  | inl e ↦ rw e refl
  | inr e ↦ let t : contains_name n ms ≡ true = (rw e at h) in rw e (ap suc (length-without n ms t))
]

contains_name-without :
    (n k : Name) (ms : List Name)
    → contains_name k ms ≡ true
    → name_eq n k ≡ false
    → contains_name k (without n ms) ≡ true
unfolding without contains_name
contains_name-without n k [] h d = cc
contains_name-without n k (m ∷ ms) h d = elim (Bool-cases (name_eq m n)) [
  | inl e ↦
      let same : m ≡ n = name_eq→eq m n e in
      let t : contains_name k ms ≡ true = (rw (same, d) at h) in rw e t
  | inr e ↦ elim (Bool-cases (name_eq m k)) [
    | inl q ↦ rw (e, q) refl
    | inr q ↦
        let t : contains_name k ms ≡ true = (rw q at h) in
        rw (e, q) (contains_name-without n k ms t d)
  ]
]

name_eq_flip : (n k : Name) → name_eq k n ≡ false → name_eq n k ≡ false
name_eq_flip n k h = elim (Bool-cases (name_eq n k)) [
  | inl e ↦
      let same : n ≡ k = name_eq→eq n k e in
      let t : name_eq k k ≡ false = (rw same at h) in
      let u : true ≡ false = sym (name_eq_self k) ∙ t in cc
  | inr e ↦ e
]

-- No name of the first list is there twice, and all are in the second.
abbrev Drawn : List Name → List Name → Type 0
Drawn [] ms = Unit {0}
Drawn (n ∷ ns) ms = (contains_name n ns ≡ false) × (contains_name n ms ≡ true) × Drawn ns ms

Drawn-without :
    (n : Name) (ns ms : List Name)
    → contains_name n ns ≡ false
    → Drawn ns ms
    → Drawn ns (without n ms)
unfolding contains_name
Drawn-without n [] ms h d = tt
Drawn-without n (k ∷ ns) ms h d = elim (Bool-cases (name_eq k n)) [
  | inl e ↦ let f : true ≡ false = (rw e at h) in cc
  | inr e ↦
      let t : contains_name n ns ≡ false = (rw e at h) in
      (d.0, contains_name-without n k ms d.1 (name_eq_flip n k e), Drawn-without n ns ms t d.2)
]

length-Drawn : (ns ms : List Name) → Drawn ns ms → length ns ≤ length ms
length-Drawn [] ms d = omega arith
length-Drawn (n ∷ ns) ms d =
    omega (
      arith,
      length-without n ms d.1,
      length-Drawn ns (without n ms) (Drawn-without n ns ms d.0 d.2),
    )

-- What `find` finds has the name and is in the schema.
pub find-names_of :
    (n : Name) (os : List ObjectSchema) (o : ObjectSchema)
    → find n os ≡ some o
    → (o.name ≡ n) × (contains_name n (names_of os) ≡ true)
unfolding find contains_name
find-names_of n [] o h = cc
find-names_of n (x ∷ os) o h = elim (Bool-cases (is_less (compare_names x.name n))) [
  | inl e ↦ let (same, there) = find-names_of n os o (rw e at h) in (same, ground (arith, there))
  | inr e ↦
      let h' : (if name_eq x.name n then some x else none) ≡ some o = (rw e at h) in
      elim (Bool-cases (name_eq x.name n)) [
        | inl q ↦
            let t : some x ≡ some o = (rw q at h') in
            let u : x ≡ o = cc in (ap ObjectSchema.name (sym u) ∙ name_eq→eq x.name n q, rw q refl)
        | inr q ↦ let t : none ≡ some o = (rw q at h') in cc
      ]
]

-- Twice the visited names, and one more where the type is none of them.
abbrev potential : CheckObjectPath → ℕ
potential v = 2 * length v.visited + (if contains_name v.current.name v.visited then 0 else 1)

abbrev Entry : List ObjectSchema → ℕ → CheckObjectPath → Type 0
Entry schema d v =
    Drawn v.visited (names_of schema)
    × (contains_name v.current.name (names_of schema) ≡ true)
    × (d ≤ potential v)

abbrev Entries : List ObjectSchema → ℕ → List CheckObjectPath → Type 0
Entries schema d [] = Unit {0}
Entries schema d (v ∷ vs) = Entry schema d v × Entries schema d vs

abbrev Pushes : List ObjectSchema → ℕ → Search → Type 0
Pushes schema d (further vs) = Entries schema d vs
Pushes schema d (looped p) = Unit {0}
Pushes schema d (unknown n) = Unit {0}

length-names_of : (os : List ObjectSchema) → length (names_of os) ≡ length os
length-names_of [] = refl
length-names_of (o ∷ os) = ap suc (length-names_of os)

Entry-bound :
    (schema : List ObjectSchema) (d : ℕ) (v : CheckObjectPath)
    → Entry schema d v
    → d ≤ 2 * length schema + 1
Entry-bound schema d v e =
    let extra : (if contains_name v.current.name v.visited then 0 else 1) ≤ 1 =
      if_intro (λ n. n ≤ 1) (contains_name v.current.name v.visited) 0 1 (λ _. omega arith)
        (λ _. omega arith) in
    omega (arith, e.2, extra, length-Drawn v.visited (names_of schema) e.0, length-names_of schema)

pushed-Entry :
    (schema : List ObjectSchema) (d : ℕ) (v : CheckObjectPath) (o : ObjectSchema) (path : Name)
    → Entry schema d v
    → contains_name o.name (names_of schema) ≡ true
    → contains_name o.name v.visited ≡ false
    → Entry schema
        (suc d)
        (record { current = o; path = path; visited = visit_name v.current.name v.visited })
unfolding visit_name
pushed-Entry schema d v o path e k f = elim (Bool-cases (contains_name v.current.name v.visited)) [
  | inl c ↦
      let low : d ≤ 2 * length v.visited + 0 = (rw c at e.2) in
      rw (c, f) (e.0, k, omega (arith, low))
  | inr c ↦
      let low : d ≤ 2 * length v.visited + 1 = (rw c at e.2) in
      rw c ((c, e.1, e.0), k, omega (arith, low))
]

and_push-Pushes :
    (schema : List ObjectSchema) (d : ℕ) (v : CheckObjectPath) (s : Search)
    → Entry schema d v
    → Pushes schema d s
    → Pushes schema d (and_push v s)
and_push-Pushes schema d v (further vs) e h = (e, h)
and_push-Pushes schema d v (looped p) e h = tt
and_push-Pushes schema d v (unknown n) e h = tt

check_link-Pushes :
    (schema : List ObjectSchema) (d : ℕ) (v : CheckObjectPath) (p : Property)
    (found : Option ObjectSchema) (rest : Search)
    → Entry schema d v
    → find p.object_type schema ≡ found
    → Pushes schema (suc d) rest
    → Pushes schema (suc d) (check_link v p found rest)
unfolding check_link
check_link-Pushes schema d v p none rest e h r = tt
check_link-Pushes schema d v p (some o) rest e h r =
    let (same, there) = find-names_of p.object_type schema o h in
    let child : CheckObjectPath = record {
      current = o;
      path = next_path v.path p;
      visited = visit_name v.current.name v.visited;
    } in
    let seen = contains_name p.object_type v.visited in
    let pushed = and_push child rest in
    if_intro (Pushes schema (suc d)) (not o.is_embedded) rest
      (if seen then looped (next_path v.path p) else pushed) (λ _. r)
      (λ _.
        if_intro (Pushes schema (suc d)) seen (looped (next_path v.path p)) pushed (λ _. tt)
          (λ f.
            and_push-Pushes schema (suc d) child rest
              (pushed-Entry schema d v o (next_path v.path p) e
                (subst (λ n. contains_name n (names_of schema) ≡ true) (sym same) there)
                (subst (λ n. contains_name n v.visited ≡ false) (sym same) f))
              r))

check_properties-Pushes :
    (schema : List ObjectSchema) (d : ℕ) (v : CheckObjectPath) (ps : List Property)
    → Entry schema d v
    → Pushes schema (suc d) (check_properties schema v ps)
unfolding check_properties
check_properties-Pushes schema d v [] e = tt
check_properties-Pushes schema d v (p ∷ ps) e =
    let rest = check_properties schema v ps in
    let ih = check_properties-Pushes schema d v ps e in
    if_intro (Pushes schema (suc d)) (same_base p.type.base object)
      (check_link v p (find p.object_type schema) rest) rest
      (λ _. check_link-Pushes schema d v p (find p.object_type schema) rest e refl ih) (λ _. ih)

Entries-++ :
    (schema : List ObjectSchema) (d : ℕ) (vs ws : List CheckObjectPath)
    → Entries schema d vs
    → Entries schema d ws
    → Entries schema d (vs ++ ws)
Entries-++ schema d [] ws e f = f
Entries-++ schema d (v ∷ vs) ws e f = (e.0, Entries-++ schema d vs ws e.1 f)

and_then-Pushes :
    (schema : List ObjectSchema) (d : ℕ) (s t : Search)
    → Pushes schema d s
    → Pushes schema d t
    → Pushes schema d (and_then s t)
and_then-Pushes schema d (further vs) (further ws) h k = Entries-++ schema d vs ws h k
and_then-Pushes schema d (further vs) (looped p) h k = tt
and_then-Pushes schema d (further vs) (unknown n) h k = tt
and_then-Pushes schema d (looped p) t h k = tt
and_then-Pushes schema d (unknown n) t h k = tt

check_level-Pushes :
    (schema : List ObjectSchema) (d : ℕ) (vs : List CheckObjectPath)
    → Entries schema d vs
    → Pushes schema (suc d) (check_level schema vs)
unfolding check_level
check_level-Pushes schema d [] e = tt
check_level-Pushes schema d (v ∷ vs) e =
    and_then-Pushes schema (suc d) (check_properties schema v v.current.persisted_properties)
      (check_level schema vs)
      (check_properties-Pushes schema d v v.current.persisted_properties e.0)
      (check_level-Pushes schema d vs e.1)

-- The search has a result.
abbrev pub Ends : Option Search → Type 0
Ends r = (s : Search) × (r ≡ some s)

after_level-Ends :
    (schema : List ObjectSchema) (d : ℕ) (next : List CheckObjectPath → Option Search) (s : Search)
    → Pushes schema d s
    → ((ws : List CheckObjectPath) → Entries schema d ws → Ends (next ws))
    → Ends (after_level next s)
after_level-Ends schema d next (looped p) h k = (looped p, refl)
after_level-Ends schema d next (unknown n) h k = (unknown n, refl)
after_level-Ends schema d next (further ws) h k = k ws h

search_levels-Ends :
    (schema : List ObjectSchema) (fuel d : ℕ) (vs : List CheckObjectPath)
    → Entries schema d vs
    → 2 * length schema + 2 ≤ d + fuel
    → Ends (search_levels schema (suc fuel) vs)
unfolding search_levels
search_levels-Ends schema fuel d [] e h = (further [], refl)
search_levels-Ends schema zero d (v ∷ vs) e h =
    absurd (omega (arith, h, Entry-bound schema d v e.0))
search_levels-Ends schema (suc fuel) d (v ∷ vs) e h =
    after_level-Ends schema (suc d) (λ ws. search_levels schema (suc fuel) ws)
      (check_level schema (v ∷ vs)) (check_level-Pushes schema d (v ∷ vs) e)
      λ ws k. search_levels-Ends schema fuel (suc d) ws k (omega (arith, h))

-- For a type of the schema the search for cycles of embedded objects ends within the fuel of the model.
pub do_check-Ends :
    (schema : List ObjectSchema) (o : ObjectSchema)
    → contains_name o.name (names_of schema) ≡ true
    → Ends (do_check schema o)
unfolding do_check contains_name
do_check-Ends schema o h =
    let e : 2 * length schema + 2 ≡ suc (2 * length schema + 1) = omega arith in
    rw e (
      search_levels-Ends schema (2 * length schema + 1) 2 (start_at o ∷ [])
        (((refl, h, tt), h, omega arith), tt) (omega arith))
