-- ===== src/IndexSet/Combining/Hits.antt =====
-- Indexes that are moved up by the positions below them.
use realm_object_store.Base.{
  ℕ, ◌+◌, ◌-◌, ◌≤◌, ◌<◌, ◌≡◌, refl, ◌∙◌, ap, Bool, false, ◌||◌, List, [], ◌∷◌, arith, ◌==◌,
}
use realm_object_store.IndexSet.Ranges.{Range, member, IsValid}
use realm_object_store.IndexSet.Counting.{unshift}
use realm_object_store.IndexSet.Counting.Below.{below, below-le}
use realm_object_store.IndexSet.Counting.Laws.{unshift-below}
use realm_object_store.IndexSet.Combining.{as_indexes}
use realm_object_store.IndexSet.Combining.Indexes.{
  Ascending, elem, under, elem-as_indexes, under-as_indexes,
}

-- Some index of the list is the given one once it is moved up by a distance.
unfoldable pub hits : List ℕ → ℕ → ℕ → Bool
hits [] d j = false
hits (x ∷ xs) d j = (x + d == j) || hits xs d j

pub hits-Ascending : (xs : List ℕ) (lo d j : ℕ) → Ascending lo xs → j < lo + d → hits xs d j ≡ false
unfolding hits
hits-Ascending [] lo d j a h = refl
hits-Ascending (x ∷ xs) lo d j a h = ground (arith, hits-Ascending xs (x + 1) d j a.1)

hits-elem : (xs : List ℕ) (d j : ℕ) → d ≤ j → hits xs d j ≡ elem (j - d) xs
unfolding hits elem
hits-elem [] d j h = refl
hits-elem (x ∷ xs) d j h = ground (arith, hits-elem xs d j h)

-- A set moved past the positions is looked up where `unshift` leads.
pub hits-unshift :
    (s p : List Range) (j : ℕ)
    → IsValid s
    → IsValid p
    → hits (as_indexes s) (0 + under (as_indexes p) j) j ≡ member s (unshift p j)
hits-unshift s p j v w =
    let u = under-as_indexes p 0 j w in
    hits-elem (as_indexes s) (0 + under (as_indexes p) j) j (omega (arith, u, below-le p 0 j w))
    ∙ elem-as_indexes s 0 (j - (0 + under (as_indexes p) j)) v
    ∙ ap (member s) (omega (arith, u, unshift-below p j w))

pub unshift-nil : (j : ℕ) → unshift [] j ≡ j
unfolding below
unshift-nil j = ground (arith, unshift-below [] j tt)
