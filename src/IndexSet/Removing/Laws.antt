-- ===== src/IndexSet/Removing/Laws.antt =====
-- What `remove` leaves.
use native.Mathlib.Decide.{dec_le}
use realm_object_store.Base.{
  ℕ, zero, suc, ◌+◌, ◌≤◌, ◌<◌, ◌≡◌, refl, sym, ◌∙◌, ap, Bool, not, ◌&&◌, ◌||◌, List, [], ◌∷◌, arith,
  ltb, leb, max, le→leb, lt→leb-false, List-cases, inl, inr, Option, some, length,
}
use realm_object_store.IndexSet.Ranges.{
  Range, range, member, Above, Before, IsValid, Above-mono, Before-mono, member-Above,
  member-Before,
}
use realm_object_store.IndexSet.Iterator.{
  find, find_from, at, Iterator, rewind, Joins, Joins-intro, Joins-cut, find-Stands, rewind-find,
  member-rewind, rewind-IsValid,
}
use realm_object_store.IndexSet.Removing.{trim, do_remove, rounds, remove, remove_each, remove_set}

abbrev members : List Range → List Range → ℕ → Bool
members ps rs j = member ps j || member rs j

-- The result is an iterator of a valid set without the indexes from `b` up to `e`, all of whose
-- earlier ranges end by `e`.
pub record Removed (b e : ℕ) (ps rs : List Range) (r : Option Iterator) : Type 0 where
  pub it : Iterator
  pub returned : r ≡ some it
  pub joins : Joins it.before it.rest
  pub passed : Before it.before (suc e)
  pub left : (j : ℕ) → members it.before it.rest j ≡ (members ps rs j && not (leb b j && ltb j e))

done :
    (b e : ℕ) (ps rs : List Range)
    → Joins ps rs
    → Before ps (suc e)
    → ((j : ℕ) → members ps rs j ≡ (members ps rs j && not (leb b j && ltb j e)))
    → Removed b e ps rs (some (at ps rs))
done b e ps rs g p h = record { it = at ps rs; returned = refl; joins = g; passed = p; left = h }

recast :
    {b e : ℕ} {ps rs : List Range} {r : Option Iterator} (b' : ℕ) (ps' rs' : List Range)
    → ((j : ℕ)
        → (members ps' rs' j && not (leb b' j && ltb j e))
          ≡ (members ps rs j && not (leb b j && ltb j e)))
    → Removed b' e ps' rs' r
    → Removed b e ps rs r
recast b' ps' rs' h g = record {
  it = g.it;
  returned = g.returned;
  joins = g.joins;
  passed = g.passed;
  left = λ j. g.left j ∙ h j;
}

find_from_skip :
    (b : ℕ) (ps : List Range) (r : Range) (rs : List Range)
    → r.second ≤ b
    → find_from b ps (r ∷ rs) ≡ find_from b (r ∷ ps) rs
unfolding find_from
find_from_skip b ps r rs h = rw (le→leb r.second b h)

find_from_stop :
    (b : ℕ) (ps : List Range) (r : Range) (rs : List Range)
    → b < r.second
    → find_from b ps (r ∷ rs) ≡ at ps (r ∷ rs)
unfolding find_from
find_from_stop b ps r rs h = rw (lt→leb-false r.second b h)

do_remove_skip :
    (fuel b e : ℕ) (ps : List Range) (r : Range) (rs : List Range)
    → r.second ≤ b
    → do_remove (suc fuel) b e ps (r ∷ rs) ≡ do_remove (suc fuel) b e (r ∷ ps) rs
unfolding do_remove
do_remove_skip fuel b e ps r rs h = rw (find_from_skip b ps r rs h)

do_remove_stop :
    (fuel b e : ℕ) (ps : List Range) (r : Range) (rs : List Range)
    → b < r.second
    → e ≤ r.first
    → do_remove (suc fuel) b e ps (r ∷ rs) ≡ some (at ps (r ∷ rs))
unfolding do_remove
do_remove_stop fuel b e ps r rs h k = rw (find_from_stop b ps r rs h) (ground arith)

do_remove-trim :
    (fuel b e : ℕ) (ps : List Range) (r : Range) (rs : List Range)
    → b < r.second
    → r.first < e
    → do_remove (suc fuel) b e ps (r ∷ rs)
      ≡ do_remove fuel (max r.first b) e ps (trim r rs (max r.first b) e)
unfolding do_remove
do_remove-trim fuel b e ps r rs h k = rw (find_from_stop b ps r rs h) (ground arith)

-- The rounds that are left once the range `r` is trimmed, from what a further round does.
module _ (fuel b e : ℕ) (ps : List Range) (r : Range) (rs : List Range) (lt : b < e)
    (before : Before ps r.first) (wide : r.first < r.second) (after : Above (suc r.second) rs)
    (passed : Before ps (suc b)) (here : b < r.second) (near : r.first < e)
    (more : (b' : ℕ) (ps' : List Range) (cut : ℕ)
      → b' < e
      → Before ps' cut
      → Above cut rs
      → Before ps' (suc b')
      → Removed b' e ps' rs (do_remove (suc fuel) b' e ps' rs)) where
  abbrev start : ℕ
  start = max r.first b

  split :
      r.first < start
      → e < r.second
      → Removed b e ps
          (r ∷ rs)
          (do_remove (suc fuel) start e ps (range r.first start ∷ range e r.second ∷ rs))
  unfolding member
  split h k =
      rw
        (
          do_remove_skip fuel start e ps (range r.first start) (range e r.second ∷ rs)
              (omega arith),
          do_remove_stop fuel start e (range r.first start ∷ ps) (range e r.second) rs (omega arith)
              (omega arith),
        )
        (record {
          it = at (range r.first start ∷ ps) (range e r.second ∷ rs);
          returned = refl;
          joins = ((omega arith, omega arith, before), (omega arith, omega arith, after));
          passed = (omega arith, omega arith, before);
          left = λ j.
              ground
                (arith, member-Above rs (suc r.second) j after, member-Before ps (suc b) j passed);
        })

  whole :
      r.second ≤ e → start ≡ r.first → Removed b e ps (r ∷ rs) (do_remove (suc fuel) start e ps rs)
  unfolding member
  whole h k =
      recast start ps rs
        (λ j.
          ground (arith, member-Above rs (suc r.second) j after, member-Before ps (suc b) j passed))
        (more start ps r.first (omega arith) before (Above-mono rs (omega arith) after)
          (Before-mono ps (omega arith) passed))

  front :
      e < r.second
      → start ≡ r.first
      → Removed b e ps (r ∷ rs) (do_remove (suc fuel) start e ps (range e r.second ∷ rs))
  unfolding member
  front h k =
      rw (do_remove_stop fuel start e ps (range e r.second) rs (omega arith) (omega arith))
        (record {
          it = at ps (range e r.second ∷ rs);
          returned = refl;
          joins = Joins-intro ps _ r.first before (omega arith, omega arith, after);
          passed = Before-mono ps (omega arith) passed;
          left = λ j.
              ground
                (arith, member-Above rs (suc r.second) j after, member-Before ps (suc b) j passed);
        })

  back :
      r.second ≤ e
      → r.first < start
      → Removed b e ps (r ∷ rs) (do_remove (suc fuel) start e ps (range r.first start ∷ rs))
  unfolding member
  back h k = rw (do_remove_skip fuel start e ps (range r.first start) rs (omega arith)) (
      recast start (range r.first start ∷ ps) rs
        (λ j.
          ground (arith, member-Above rs (suc r.second) j after, member-Before ps (suc b) j passed))
        (more start (range r.first start ∷ ps) (suc start) (omega arith)
          (omega arith, omega arith, before) (Above-mono rs (omega arith) after)
          (omega arith, omega arith, before)))

  pub trimmed : Removed b e ps (r ∷ rs) (do_remove (suc fuel) start e ps (trim r rs start e))
  unfolding trim
  trimmed = ground (arith, split, whole, front, back)

do_remove-Removed :
    (b e : ℕ) (ps rs : List Range) (cut fuel : ℕ)
    → b < e
    → length rs ≤ fuel
    → Before ps cut
    → Above cut rs
    → Before ps (suc b)
    → Removed b e ps rs (do_remove (suc (suc fuel)) b e ps rs)
unfolding do_remove member find_from
do_remove-Removed b e ps [] cut fuel h f pc ac pb =
    done b e ps [] (Joins-intro ps [] cut pc tt) (Before-mono ps (omega arith) pb)
      (λ j. ground (arith, member-Before ps (suc b) j pb))
do_remove-Removed b e ps (r ∷ rs) cut zero h f pc ac pb = absurd (omega arith)
do_remove-Removed b e ps (r ∷ rs) cut (suc fuel) h f pc ac pb = elim (dec_le r.second b) [
  | yes k ↦ rw (do_remove_skip (suc (suc fuel)) b e ps r rs k) (
      recast b (r ∷ ps) rs (λ j. ground arith)
        (do_remove-Removed b e (r ∷ ps) rs (suc r.second) (suc fuel) h (omega arith)
          (omega arith, ac.1, Before-mono ps ac.0 pc) ac.2
          (omega arith, ac.1, Before-mono ps ac.0 pc)))
  | no k ↦ elim (dec_le e r.first) [
    | yes l ↦ rw (do_remove_stop (suc (suc fuel)) b e ps r rs (omega arith) l) (
        done b e ps (r ∷ rs) (Joins-intro ps _ cut pc ac) (Before-mono ps (omega arith) pb) (λ j.
          ground (arith, member-Before ps (suc b) j pb, member-Above rs (suc r.second) j ac.2)))
    | no l ↦ rw (do_remove-trim (suc (suc fuel)) b e ps r rs (omega arith) (omega arith)) (
        trimmed (suc fuel) b e ps r rs h (Before-mono ps ac.0 pc) ac.1 ac.2 pb (omega arith)
          (omega arith)
          λ b' ps' cut' h' pc' ac' pb'.
            do_remove-Removed b' e ps' rs cut' fuel h' (omega arith) pc' ac' pb')
  ]
]

do_remove_lem :
    (b e fuel : ℕ) (ps rs : List Range)
    → b < e
    → rounds rs ≤ fuel
    → Joins ps rs
    → Before ps (suc b)
    → Removed b e ps rs (do_remove fuel b e ps rs)
do_remove_lem b e zero ps rs h f g p = absurd (omega arith)
do_remove_lem b e (suc zero) ps rs h f g p = absurd (omega arith)
do_remove_lem b e (suc (suc fuel)) ps rs h f g p =
    let (cut, pc, ac) = Joins-cut ps rs g in
    do_remove-Removed b e ps rs cut fuel h (omega arith) pc ac p

-- The removal returns a valid set that holds what was held and is not taken out.
abbrev pub Leaves : Option (List Range) → (ℕ → Bool) → Type 0
Leaves r p = (t : List Range) × (r ≡ some t) × IsValid t × ((j : ℕ) → member t j ≡ p j)

length-rewind : (ps rs : List Range) → length rs ≤ length (rewind ps rs)
unfolding rewind
length-rewind [] rs = omega arith
length-rewind (p ∷ ps) rs = omega (arith, length-rewind ps (p ∷ rs))

-- `remove(index, count)`
pub remove-Leaves :
    (s : List Range) (i n : ℕ)
    → 0 < n
    → IsValid s
    → Leaves (remove s i n) (λ j. member s j && not (leb i j && ltb j (i + n)))
unfolding remove
remove-Leaves s i n h v =
    let it = find i s in
    let st = find-Stands i s v in
    let e = rewind-find i s in
    let g =
      do_remove_lem i (i + n) (rounds s) it.before it.rest (omega arith)
        (omega (arith, length-rewind it.before it.rest, ap length e)) st.joins st.passed in
    (
      rewind g.it.before g.it.rest,
      rw g.returned,
      rewind-IsValid _ _ g.joins,
      λ j.
          member-rewind g.it.before g.it.rest j
          ∙ g.left j
          ∙ ap (λ m. m && not (leb i j && ltb j (i + n)))
              (sym (member-rewind it.before it.rest j) ∙ ap (λ t. member t j) e),
    )

remove_each-Leaves :
    (vs ps rs : List Range) (lo : ℕ)
    → Joins ps rs
    → Before ps (suc lo)
    → Above lo vs
    → Leaves (remove_each vs ps rs) (λ j. members ps rs j && not (member vs j))
unfolding remove_each member
remove_each-Leaves [] ps rs lo g p a =
    (rewind ps rs, refl, rewind-IsValid _ _ g, λ j. ground (arith, member-rewind ps rs j))
remove_each-Leaves (v ∷ vs) ps rs lo g p a =
    let r =
      do_remove_lem v.first v.second (rounds rs) ps rs a.1 (omega arith) g
        (Before-mono ps (omega arith) p) in
    elim (List-cases r.it.rest) [
      | inl e ↦ (
        rewind r.it.before r.it.rest,
        rw (r.returned, e),
        rewind-IsValid _ _ r.joins,
        λ j. ground (
          arith,
          ap (λ t. member t j) e,
          member-rewind r.it.before r.it.rest j,
          r.left j,
          member-Above vs (suc v.second) j a.2,
          member-Before r.it.before (suc v.second) j r.passed,
        ),
      )
      | inr (y, ys, e) ↦
          let (t, q, w, m) =
            remove_each-Leaves vs r.it.before r.it.rest (suc v.second) r.joins
              (Before-mono r.it.before (omega arith) r.passed) a.2 in
          (t, rw (r.returned, e) (rw e at q), w, λ j. ground (arith, m j, r.left j))
    ]

-- `remove(values)`
pub remove_set-Leaves :
    (s values : List Range)
    → IsValid s
    → IsValid values
    → Leaves (remove_set s values) (λ j. member s j && not (member values j))
unfolding remove_set member
remove_set-Leaves s values v w = remove_each-Leaves values [] s 0 v tt w

-- On a valid set `remove(i, n)` of at least one index, and the removal of a valid set of values, end
-- within the fuel of the model, each with a valid set of exactly the indexes that were in the set and are
-- not removed.
pub remove_lem :
    (s values : List Range) (i n : ℕ)
    → 0 < n
    → IsValid s
    → IsValid values
    → Leaves (remove s i n) (λ j. member s j && not (leb i j && ltb j (i + n)))
      × Leaves (remove_set s values) (λ j. member s j && not (member values j))
remove_lem s values i n h v w = (remove-Leaves s i n h v, remove_set-Leaves s values v w)
