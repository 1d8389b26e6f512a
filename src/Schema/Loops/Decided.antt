-- ===== src/Schema/Loops/Decided.antt =====
-- The search of `Schema::validate` reports a cycle exactly if links to embedded types can be followed
-- without end.
use realm_object_store.Base.{
  ℕ, ◌+◌, ◌*◌, ◌≡◌, sym, subst, Bool, true, false, not, ◌||◌, List, [], ◌∷◌, Option, some, length,
  arith,
}
use realm_object_store.Schema.Properties.{ObjectSchema}
use realm_object_store.Schema.Lookup.{find}
use realm_object_store.Schema.Loops.{Search, looped, unknown, further, do_check, problems_of}
use realm_object_store.Schema.Loops.Ends.{find-names_of}
use realm_object_store.Schema.Loops.Walks.{walks, reports, do_check_lem}
use realm_object_store.Schema.Loops.Rings.{AllKnown, problems_of-AllKnown}
use realm_object_store.Schema.Loops.Exact.{Exact, do_check-Exact}

-- What the search comes to: a cycle, with links to embedded types that can be followed without end; or
-- the end of the queue, where they cannot.
abbrev pub Decides : List ObjectSchema → ObjectSchema → Option Search → Type 0
Decides schema o (some (looped p)) = (n : ℕ) → walks schema n o ≡ true
Decides schema o (some (further [])) = (n : ℕ) × (walks schema n o ≡ false)
Decides schema o _ = true ≡ false

decided :
    (schema : List ObjectSchema) (o : ObjectSchema) (known : AllKnown schema schema) (s : Search)
    → Exact schema o known s
    → (not (walks schema (2 * length schema + 2) o) || reports s) ≡ true
    → Decides schema o (some s)
decided schema o known (looped p) e h = e
decided schema o known (unknown n) e h = e
decided schema o known (further []) e h = (2 * length schema + 2, ground arith)
decided schema o known (further (v ∷ vs)) e h = cc

-- For a type of a schema with whose types `ObjectSchema::validate` finds no problem, the search for
-- cycles of embedded objects ends within the fuel of the model and without the failed assertion: it
-- reports a cycle exactly if links to embedded types can be followed from the type without end.
pub do_check-Decides :
    (schema : List ObjectSchema) (for_sync : Bool) (o : ObjectSchema)
    → problems_of schema for_sync schema ≡ []
    → find o.name schema ≡ some o
    → Decides schema o (do_check schema o)
do_check-Decides schema for_sync o h f =
    let known = problems_of-AllKnown schema for_sync schema h in
    let (s, q, r) = do_check_lem schema o (find-names_of o.name schema o f).1 in
    subst (Decides schema o) (sym q)
      (decided schema o known s (do_check-Exact schema o known s f q) r)
