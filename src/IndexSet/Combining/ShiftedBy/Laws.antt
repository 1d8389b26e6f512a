-- ===== src/IndexSet/Combining/ShiftedBy/Laws.antt =====
-- What `add_shifted_by` adds.
use mathlib.Core.List.{append_assoc}
use realm_object_store.Base.{
  ℕ, zero, suc, ◌+◌, ◌-◌, ◌≤◌, ◌<◌, ◌≡◌, refl, ◌∙◌, sym, ap, Bool, true, false, not, ◌&&◌, ◌||◌,
  List, [], ◌∷◌, ◌++◌, arith, ltb, ◌==◌, if_intro, Bool-cases, inl, inr,
}
use realm_object_store.IndexSet.Ranges.{
  Holds, Range, width, member, Above, IsValid, Above-mono, member-Above,
}
use realm_object_store.IndexSet.Counting.{shift, unshift}
use realm_object_store.IndexSet.Counting.Below.{below, below-le, below-Above}
use realm_object_store.IndexSet.Counting.Laws.{
  unshift-below, member-shift, shift-unshift, unshift-shift,
}
use realm_object_store.IndexSet.Combining.{run, as_indexes, build_with}
use realm_object_store.IndexSet.Combining.ShiftedBy.{
  pass_shifts, pass_old, shifted_by, add_shifted_by,
}
use realm_object_store.IndexSet.Combining.Indexes.{
  Ascending, elem, as_indexes-Ascending, elem-as_indexes,
}
use realm_object_store.IndexSet.Combining.Building.{Within, bound_of, build_with-IsValid}
use realm_object_store.IndexSet.Combining.ShiftedBy.Loops.{
  covered, Passed, pass_shifts-Passed, Reached, pass_old-Reached,
}

abbrev any : (ℕ → Bool) → List ℕ → Bool
any f [] = false
any f (v ∷ vs) = f v || any f vs

any_cong :
    (f g : ℕ → Bool) (vs : List ℕ) (lo : ℕ)
    → Ascending lo vs
    → ((v : ℕ) → lo ≤ v → f v ≡ g v)
    → any f vs ≡ any g vs
any_cong f g [] lo a h = refl
any_cong f g (v ∷ vs) lo a h =
    rw (h v a.0, any_cong f g vs (v + 1) a.1 (λ w le. h w (omega (arith, a.0)))) refl

elem-++ : (xs ys : List ℕ) (j : ℕ) → elem j (xs ++ ys) ≡ (elem j xs || elem j ys)
unfolding elem
elem-++ [] ys j = refl
elem-++ (x ∷ xs) ys j = ground (arith, elem-++ xs ys j)

-- Where a value is added that the ranges do not cover, and whether it is added at a place.
abbrev place : ℕ → List Range → ℕ → List Range → ℕ → ℕ
place n sb m old v = shift old (v - (n + below sb v) + m)

abbrev lands : ℕ → ℕ → List Range → ℕ → List Range → ℕ → ℕ → Bool
lands n u sb m old j v = not (covered u sb v) && (place n sb m old v == j)

-- What is pushed ascends, with the ranges that are left, and has the set and the added places.
record Added (d : ℕ) (old : List Range) (f : ℕ → Bool) (r : List ℕ × List Range) : Type 0 where
  pub ascends : Ascending d (r.0 ++ as_indexes r.1)
  pub valid : IsValid r.1
  pub holds : (j : ℕ) → (elem j r.0 || member r.1 j) ≡ (member old j || f j)

-- Later values land where they did before the loops went on.
module _ (i n u c : ℕ) (sb : List Range) (r : ℕ × ℕ × List Range) (p : Passed i n u c sb r) where
  lands_later :
      (m m' j v : ℕ) (old old' : List Range)
      → i ≤ v
      → (covered r.1 r.2 v ≡ false → place r.0 r.2 m' old' v ≡ place r.0 r.2 m old v)
      → lands r.0 r.1 r.2 m' old' j v ≡ lands n u sb m old j v
  lands_later m m' j v old old' le h = elim (Bool-cases (covered u sb v)) [
    | inl e ↦ rw (p.covers v le, e) refl
    | inr e ↦
        rw (p.covers v le, e, h (p.covers v le ∙ e))
          (ap (λ k. shift old (v - k + m) == j) (p.counts v le e))
  ]

  skip_step :
      (m d : ℕ) (is : List ℕ) (old : List Range) (q : List ℕ × List Range)
      → Ascending (i + 1) is
      → ltb i r.1 ≡ true
      → Added d old (λ j. any (lands r.0 r.1 r.2 m old j) is) q
      → Added d old (λ j. any (lands n u sb m old j) (i ∷ is)) q
  skip_step m d is old q a e g =
      let out : covered u sb i ≡ true = sym (p.covers i (omega arith)) ∙ ground arith in
      record {
        ascends = g.ascends;
        valid = g.valid;
        holds = λ j.
            g.holds j
            ∙ ap (λ x. member old j || x)
                (any_cong (lands r.0 r.1 r.2 m old j) (lands n u sb m old j) is (i + 1) a
                    (λ v le. lands_later m m j v old old (omega arith) (λ x. refl))
                  ∙ rw out refl);
      }

  -- The index itself, where the ranges do not cover it.
  uncovered : ltb i r.1 ≡ false → covered u sb i ≡ false
  uncovered e = sym (p.covers i (omega arith)) ∙ ground (arith, member-Above r.2 (suc i) i p.above)

  uncovered_place : ltb i r.1 ≡ false → i - (n + below sb i) ≡ i - r.0
  uncovered_place e =
      omega (arith, p.counts i (omega arith) (uncovered e), below-Above r.2 (suc i) i p.above)

  push_step :
      (m d : ℕ) (is : List ℕ) (old : List Range) (s : List ℕ × ℕ × List Range)
      (q : List ℕ × List Range)
      → Ascending (i + 1) is
      → ltb i r.1 ≡ false
      → d ≤ i - r.0 + m
      → Reached (i - r.0) m d old s
      → Added (i - r.0 + s.1 + 1) s.2 (λ j. any (lands r.0 r.1 r.2 s.1 s.2 j) is) q
      → Added d old (λ j. any (lands n u sb m old j) (i ∷ is)) (s.0 ++ (i - r.0 + s.1) ∷ q.0, q.1)
  unfolding elem
  push_step m d is old s q a e h g k =
      let t = i - r.0 + s.1 in
      record {
        ascends =
            rw (append_assoc s.0 (t ∷ q.0) (as_indexes q.1))
              (g.rises h (t ∷ (q.0 ++ as_indexes q.1)) (omega arith, k.ascends));
        valid = k.valid;
        holds = λ j.
            let here : lands n u sb m old j i ≡ (t == j) =
              rw (uncovered e, uncovered_place e, g.reaches) refl in
            let later : any (lands r.0 r.1 r.2 s.1 s.2 j) is ≡ any (lands n u sb m old j) is =
              any_cong (lands r.0 r.1 r.2 s.1 s.2 j) (lands n u sb m old j) is (i + 1) a (λ v le.
                lands_later m s.1 j v old s.2 (omega arith) (λ x.
                  g.keeps (v - (r.0 + below r.2 v))
                    (omega (arith, below-le r.2 (suc i) v p.above)))) in
            ground (arith, elem-++ s.0 (t ∷ q.0) j, k.holds j, g.holds j, here, later);
      }

shifted_by-Added :
    (is : List ℕ) (n u c m d lo : ℕ) (sb old : List Range)
    → Ascending lo is
    → Above c sb
    → u ≤ c
    → n ≤ u
    → Above d old
    → ((v : ℕ) → lo ≤ v → covered u sb v ≡ false → d ≤ v - (n + below sb v) + m)
    → Added d old (λ j. any (lands n u sb m old j) is) (shifted_by is n u sb m old)
unfolding shifted_by elem
shifted_by-Added [] n u c m d lo sb old a b h k v f = record {
  ascends = as_indexes-Ascending old d v;
  valid = Above-mono old (omega arith) v;
  holds = λ j. ground arith;
}
shifted_by-Added (i ∷ is) n u c m d lo sb old a b h k v f =
    let r = pass_shifts i n u sb in
    let p = pass_shifts-Passed i n u c sb b h k in
    let s = pass_old (i - r.0) m old in
    let g = pass_old-Reached (i - r.0) m d old v in
    if_intro (Added d old (λ j. any (lands n u sb m old j) (i ∷ is))) (ltb i r.1) _ _
      (λ e. skip_step i n u c sb r p m d is old _ a.1 e (
        shifted_by-Added is r.0 r.1 r.1 m d (i + 1) r.2 old a.1 p.after (omega arith) p.bounded v
          (λ w le x.
            rw (p.counts w (omega arith) (sym (p.covers w (omega arith)) ∙ x))
              (f w (omega (arith, a.0)) (sym (p.covers w (omega arith)) ∙ x)))))
      (λ e.
        push_step i n u c sb r p m d is old s _ a.1 e
          (omega (arith, f i a.0 (uncovered i n u c sb r p e), uncovered_place i n u c sb r p e)) g
          (shifted_by-Added is r.0 r.1 r.1 s.1 (i - r.0 + s.1 + 1) (i + 1) r.2 s.2 a.1 p.after
            (omega arith) p.bounded (Above-mono s.2 (omega arith) g.above)
            (λ w le x.
              let met : r.1 ≤ i = ground arith in
              omega (arith, below-le r.2 (suc i) w p.above, p.bounded, met))))

-- A value outside of the other set lands at an index outside of this one, and it is found there.
lands_at :
    (s sb : List Range) (j v : ℕ)
    → IsValid s
    → IsValid sb
    → lands 0 0 sb 0 s j v ≡ (not (member sb v) && (shift s (unshift sb v) == j))
lands_at s sb j v a b =
    let e : v - (0 + below sb v) + 0 ≡ unshift sb v = omega (arith, unshift-below sb v b) in
    rw e (ground arith)

-- From one set to the other and back again.
crosses :
    (s sb : List Range) (j v : ℕ)
    → IsValid s
    → IsValid sb
    → (not (member sb v) && (shift s (unshift sb v) == j)) ≡ true
    → (not (member s j) && (shift sb (unshift s j) == v)) ≡ true
crosses s sb j v a b h =
    let e : shift s (unshift sb v) ≡ j = ground arith in
    let out : member s j ≡ false = ap (member s) (sym e) ∙ member-shift s (unshift sb v) a in
    let u : unshift s j ≡ unshift sb v =
      ap (unshift s) (sym e) ∙ unshift-shift s (unshift sb v) a in
    let back : shift sb (unshift s j) ≡ v = ap (shift sb) u ∙ shift-unshift sb v b (ground arith) in
    rw (out, back) (ground arith)

iff_eq : (a b : Bool) → (a ≡ true → b ≡ true) → (b ≡ true → a ≡ true) → a ≡ b
iff_eq true b f g = sym (f refl)
iff_eq false true f g = g refl
iff_eq false false f g = refl

any-lands :
    (s sb : List Range) (vs : List ℕ) (j : ℕ)
    → IsValid s
    → IsValid sb
    → any (lands 0 0 sb 0 s j) vs ≡ (not (member s j) && elem (shift sb (unshift s j)) vs)
unfolding elem
any-lands s sb [] j a b = ground arith
any-lands s sb (v ∷ vs) j a b =
    let e = iff_eq _ _ (crosses s sb j v a b) (crosses sb s v j b a) in
    ground (arith, lands_at s sb j v a b, e, any-lands s sb vs j a b)

Ascending-front : (xs ys : List ℕ) (lo : ℕ) → Ascending lo (xs ++ ys) → Ascending lo xs
Ascending-front [] ys lo a = tt
Ascending-front (x ∷ xs) ys lo a = (a.0, Ascending-front xs ys (x + 1) a.1)

Within-front : (xs ys : List ℕ) (x lo : ℕ) → Ascending lo (xs ++ x ∷ ys) → Within xs x × (lo ≤ x)
Within-front [] ys x lo a = (tt, a.0)
Within-front (z ∷ xs) ys x lo a =
    let (w, le) = Within-front xs ys x (z + 1) a.1 in ((omega arith, w), omega arith)

Within-run :
    (is ys : List ℕ) (x n lo : ℕ) → 0 < n → Ascending lo (is ++ (run x n ++ ys)) → Within is x
unfolding run
Within-run is ys x zero lo h a = elim h [ ]
Within-run is ys x (suc n) lo h a = (Within-front is (run (x + 1) n ++ ys) x lo a).0

-- Where the pushed indexes end and the ranges that are left begin.
cut_point :
    (is : List ℕ) (rs : List Range) (lo : ℕ)
    → Ascending lo (is ++ as_indexes rs)
    → IsValid rs
    → (cut : ℕ) × Within is cut × Above cut rs
unfolding as_indexes
cut_point is [] lo a v = let (hi, w) = bound_of is in (hi, w, tt)
cut_point is (r ∷ rs) lo a v = (
  r.first,
  Within-run is (as_indexes rs) r.first (width r) lo (omega arith) a,
  (omega arith, v.1, v.2),
)

added_built :
    (s sb values : List Range)
    → IsValid s
    → IsValid sb
    → IsValid values
    → let r = shifted_by (as_indexes values) 0 0 sb 0 s in
      Holds (build_with r.0 r.1) (λ j. member s j || member values (shift sb (unshift s j)))
added_built s sb values a b c =
    let r = shifted_by (as_indexes values) 0 0 sb 0 s in
    let g =
      shifted_by-Added (as_indexes values) 0 0 0 0 0 0 sb s (as_indexes-Ascending values 0 c) b
        (omega arith) (omega arith) a (λ v le e. omega arith) in
    let (cut, w, v) = cut_point r.0 r.1 0 g.ascends g.valid in
    let (built, m) =
      build_with-IsValid r.0 r.1 cut (Ascending-front r.0 (as_indexes r.1) 0 g.ascends) w v in
    (
      built,
      λ j.
          m j
          ∙ g.holds j
          ∙ ground (
            arith,
            any-lands s sb (as_indexes values) j a b,
            elem-as_indexes values 0 (shift sb (unshift s j)) c,
          ),
    )

-- For sets whose ranges are not empty and in order, with gaps between them, the ranges are so after
-- `add_shifted_by(shifted_by, values)`, and some range has an index exactly if one had it before or if
-- the index, unshifted by the set and shifted by the other set, is among the values. The counts of the
-- chunks are no part of this.
pub add_shifted_by-Holds :
    (s sb values : List Range)
    → IsValid s
    → IsValid sb
    → IsValid values
    → Holds (add_shifted_by s sb values) (λ j. member s j || member values (shift sb (unshift s j)))
unfolding add_shifted_by member
add_shifted_by-Holds s sb [] a b c = (a, λ j. ground arith)
add_shifted_by-Holds s sb (r ∷ values) a b c = added_built s sb (r ∷ values) a b c
