-- ===== src/Schema/Loops.antt =====
-- `Schema::validate` of src/schema.cpp: types that appear twice, the problems of each type, and the
-- search for cycles of embedded objects. The queue of the search is taken level by level, which is the
-- order in which its entries come out.
pub mod Ends
pub mod Walks
pub mod Rings
pub mod Exact
pub mod Decided
use realm_object_store.Base.{
  ℕ, zero, suc, ◌+◌, ◌*◌, Bool, true, false, not, ◌&&◌, ◌||◌, List, [], ◌∷◌, ◌++◌, map, Option,
  none, some, if◌then◌else◌, length,
}
use realm_object_store.Schema.Names.{Name, name_eq}
use realm_object_store.Schema.Properties.{object, same_base, Property, ObjectSchema}
use realm_object_store.Schema.Lookup.{find}
use realm_object_store.Schema.Validate.{Problem, validate}

-- `CheckObjectPath`; the set of visited names is a list without repetitions.
pub record CheckObjectPath : Type 0 where
  pub current : ObjectSchema
  pub path : Name
  pub visited : List Name

unfoldable pub contains_name : Name → List Name → Bool
contains_name n [] = false
contains_name n (m ∷ ms) = name_eq m n || contains_name n ms

-- `unordered_set::insert`
unfoldable pub visit_name : Name → List Name → List Name
unfolding contains_name
visit_name n ms = if contains_name n ms then ms else n ∷ ms

-- What the search of one entry or level comes to: a cycle, with its path; a link to a type that is not
-- in the schema, which the source asserts not to occur; or the entries that it pushes.
pub data Search : Type 0 where
  looped : Name → Search
  unknown : Name → Search
  further : List CheckObjectPath → Search

abbrev pub and_push : CheckObjectPath → Search → Search
and_push v (further vs) = further (v ∷ vs)
and_push v s = s

-- `current.path + "." + prop.name`
abbrev pub next_path : Name → Property → Name
next_path path p = path ++ 46 ∷ p.name

unfoldable pub check_link : CheckObjectPath → Property → Option ObjectSchema → Search → Search
unfolding contains_name visit_name
check_link v p none rest = unknown p.object_type
check_link v p (some o) rest =
    if not o.is_embedded
    then rest
    else if contains_name p.object_type v.visited
    then looped (next_path v.path p)
    else and_push
        (record {
          current = o;
          path = next_path v.path p;
          visited = visit_name v.current.name v.visited;
        })
        rest

-- The loop over the properties of an entry.
unfoldable pub check_properties : List ObjectSchema → CheckObjectPath → List Property → Search
unfolding check_link
check_properties schema v [] = further []
check_properties schema v (p ∷ ps) =
    let rest = check_properties schema v ps in
    if same_base p.type.base object then check_link v p (find p.object_type schema) rest else rest

abbrev pub and_then : Search → Search → Search
and_then (further vs) (further ws) = further (vs ++ ws)
and_then (further vs) s = s
and_then s t = s

-- The entries of the queue that are at one depth.
unfoldable pub check_level : List ObjectSchema → List CheckObjectPath → Search
unfolding check_properties
check_level schema [] = further []
check_level schema (v ∷ vs) =
    and_then (check_properties schema v v.current.persisted_properties) (check_level schema vs)

-- `do_check`, on one round of fuel for each depth; `none` if it runs out.
abbrev pub after_level : (List CheckObjectPath → Option Search) → Search → Option Search
after_level next (looped p) = some (looped p)
after_level next (unknown n) = some (unknown n)
after_level next (further ws) = next ws

unfoldable pub search_levels : List ObjectSchema → ℕ → List CheckObjectPath → Option Search
unfolding check_level
search_levels schema zero vs = none
search_levels schema (suc fuel) [] = some (further [])
search_levels schema (suc fuel) (v ∷ vs) =
    after_level (λ ws. search_levels schema fuel ws) (check_level schema (v ∷ vs))

abbrev pub start_at : ObjectSchema → CheckObjectPath
start_at o = record { current = o; path = o.name; visited = o.name ∷ [] }

unfoldable pub do_check : List ObjectSchema → ObjectSchema → Option Search
unfolding search_levels
do_check schema o = search_levels schema (2 * length schema + 2) (start_at o ∷ [])

-- What `Schema::validate` throws; the problem of a type is one that `ObjectSchema::validate` reports.
pub data SchemaProblem : Type 0 where
  repeated_type : Name → SchemaProblem
  of_type : Problem → SchemaProblem
  cycle : Name → SchemaProblem

-- The loop over `find_next_duplicate`.
unfoldable pub repeated_types : List ObjectSchema → List SchemaProblem
repeated_types [] = []
repeated_types (o ∷ []) = []
repeated_types (o ∷ p ∷ os) =
    let rest = repeated_types (p ∷ os) in
    if name_eq o.name p.name then repeated_type o.name ∷ rest else rest

unfoldable pub problems_of : List ObjectSchema → Bool → List ObjectSchema → List SchemaProblem
unfolding validate
problems_of schema for_sync [] = []
problems_of schema for_sync (o ∷ os) =
    map of_type (validate schema o for_sync) ++ problems_of schema for_sync os

-- `check_for_embedded_objects_loop`; `none` where the assertion fails.
abbrev pub and_cycle : Option Search → Option (List SchemaProblem) → Option (List SchemaProblem)
and_cycle (some (looped p)) (some rest) = some (cycle p ∷ rest)
and_cycle (some (further vs)) rest = rest
and_cycle s rest = none

unfoldable pub check_for_embedded_objects_loop :
    List ObjectSchema → List ObjectSchema → Option (List SchemaProblem)
unfolding do_check
check_for_embedded_objects_loop schema [] = some []
check_for_embedded_objects_loop schema (o ∷ os) =
    let rest = check_for_embedded_objects_loop schema os in
    if o.is_embedded then and_cycle (do_check schema o) rest else rest

-- `Schema::validate`
abbrev pub then_loops : List ObjectSchema → List SchemaProblem → Option (List SchemaProblem)
then_loops schema [] = check_for_embedded_objects_loop schema schema
then_loops schema (p ∷ ps) = some (p ∷ ps)

unfoldable pub validate_schema : List ObjectSchema → Bool → Option (List SchemaProblem)
unfolding repeated_types problems_of check_for_embedded_objects_loop
validate_schema schema for_sync =
    then_loops schema (repeated_types schema ++ problems_of schema for_sync schema)
