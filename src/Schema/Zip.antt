-- ===== src/Schema/Zip.antt =====
-- What `zip_matching` pairs: it is an outer join by name.
use Prim.Native.Nat.{eq}
use realm_object_store.Base.{
  Bool, true, false, ◌||◌, List, [], ◌∷◌, Option, none, some, if◌then◌else◌, ◌≡◌, refl, ap, arith,
}
use realm_object_store.Schema.Names.{
  name_eq→eq, Name, name_eq, compare_names, Less, compare_names-gt, compare_names-eq,
}
use realm_object_store.Schema.Properties.{ObjectSchema}
use realm_object_store.Schema.Change.{zip_matching}
use realm_object_store.Schema.Lookup.{
  AllLess, IsSorted, lookup, find, find-lookup, AllLess-trans, Less-asym, lookup-AllLess,
}

abbrev has_name : Name → Option ObjectSchema → Bool
has_name n none = false
has_name n (some o) = name_eq o.name n

-- The call of `zip_matching` for a name.
unfoldable pub call_for :
    Name
    → List (Option ObjectSchema × Option ObjectSchema)
    → Option ObjectSchema × Option ObjectSchema
call_for n [] = (none, none)
call_for n ((a, b) ∷ rest) = if has_name n a || has_name n b then (a, b) else call_for n rest

-- The name of the lesser head is not in the other list.
missed :
    (n a : Name) (b : ObjectSchema) (bs : List ObjectSchema)
    → Less a b.name
    → AllLess b.name bs
    → name_eq a n ≡ true
    → (name_eq b.name n ≡ false) × (lookup n bs ≡ none)
missed n a b bs h w e =
    let p = name_eq→eq a n e in
    (rw p at (Less-asym a b.name h), rw p at (lookup-AllLess a bs (AllLess-trans a b.name bs h w)))

same_name : (n a b : Name) → compare_names a b ≡ eq → name_eq a n ≡ name_eq b n
same_name n a b e = ap (λ m. name_eq m n) (compare_names-eq a b e)

call_for-lookup :
    (n : Name) (as' bs : List ObjectSchema)
    → IsSorted as'
    → IsSorted bs
    → call_for n (zip_matching as' bs) ≡ (lookup n as', lookup n bs)
unfolding zip_matching call_for lookup
call_for-lookup n [] [] v w = refl
call_for-lookup n [] (b ∷ bs) v w = ground (arith, call_for-lookup n [] bs v w.1)
call_for-lookup n (a ∷ as') [] v w = ground (arith, call_for-lookup n as' [] v.1 w)
call_for-lookup n (a ∷ as') (b ∷ bs) v w = ground (
  arith,
  call_for-lookup n as' (b ∷ bs) v.1 w,
  call_for-lookup n as' bs v.1 w.1,
  call_for-lookup n (a ∷ as') bs v w.1,
  missed n a.name b bs,
  missed n b.name a as',
  w.0,
  v.0,
  compare_names-gt a.name b.name,
  same_name n a.name b.name,
)

-- On sorted lists, for every name, the call of `zip_matching` for it has what each list has under the
-- name, and there is none where neither has it.
pub call_for-zip_matching :
    (n : Name) (as' bs : List ObjectSchema)
    → IsSorted as'
    → IsSorted bs
    → call_for n (zip_matching as' bs) ≡ (find n as', find n bs)
call_for-zip_matching n as' bs v w =
    rw (find-lookup n as' v, find-lookup n bs w) (call_for-lookup n as' bs v w)
