-- ===== src/IndexSet/Combining/ShiftedBy/Loops.antt =====
-- The two inner loops of `add_shifted_by`.
use mathlib.Core.List.{append_assoc}
use realm_object_store.Base.{
  ℕ, suc, ◌+◌, ◌≤◌, ◌≡◌, refl, ◌∙◌, ap, Bool, false, ◌||◌, List, [], ◌∷◌, ◌++◌, arith, ltb, leb,
  if_intro,
}
use realm_object_store.IndexSet.Ranges.{Range, width, member, Above, Above-mono}
use realm_object_store.IndexSet.Counting.{shift}
use realm_object_store.IndexSet.Counting.Below.{below}
use realm_object_store.IndexSet.Combining.{run}
use realm_object_store.IndexSet.Combining.ShiftedBy.{pass_shifts, pass_old}
use realm_object_store.IndexSet.Combining.Indexes.{
  Ascending, Ascending-mono, elem, run-Ascending, elem-run,
}

-- An index is in the ranges that were passed, up to `u`, or in those that are left.
abbrev pub covered : ℕ → List Range → ℕ → Bool
covered u sb v = ltb v u || member sb v

-- The loop over the ranges keeps what is covered from the index on, and the count below there; the
-- ranges that are left stand after the index.
pub record Passed (i n u c : ℕ) (sb : List Range) (r : ℕ × ℕ × List Range) : Type 0 where
  pub covers : (v : ℕ) → i ≤ v → covered r.1 r.2 v ≡ covered u sb v
  pub counts : (v : ℕ) → i ≤ v → covered u sb v ≡ false → r.0 + below r.2 v ≡ n + below sb v
  pub bounded : r.0 ≤ r.1
  pub above : Above (suc i) r.2
  pub after : Above r.1 r.2

pub pass_shifts-Passed :
    (i n u c : ℕ) (sb : List Range)
    → Above c sb
    → u ≤ c
    → n ≤ u
    → Passed i n u c sb (pass_shifts i n u sb)
unfolding pass_shifts member below
pass_shifts-Passed i n u c [] a h k = record {
  covers = λ v le. refl;
  counts = λ v le e. refl;
  bounded = k;
  above = tt;
  after = tt;
}
pass_shifts-Passed i n u c (r ∷ rs) a h k =
    if_intro (Passed i n u c (r ∷ rs)) (leb r.first i) _ _
      (λ e.
        let ih =
          pass_shifts-Passed i (n + width r) r.second (suc r.second) rs a.2 (omega arith)
            (omega arith) in
        record {
          covers = λ v le. ih.covers v le ∙ ground arith;
          counts = λ v le f. ih.counts v le (ground arith) ∙ ground arith;
          bounded = ih.bounded;
          above = ih.above;
          after = ih.after;
        })
      (λ e. record {
        covers = λ v le. refl;
        counts = λ v le f. refl;
        bounded = k;
        above = (ground arith, a.1, a.2);
        after = (omega arith, a.1, a.2);
      })

-- The loop over this set comes to where `shift` leads, and keeps that for later indexes.
pub record Reached (k m d : ℕ) (old : List Range) (r : List ℕ × ℕ × List Range) : Type 0 where
  pub reaches : k + r.1 ≡ shift old (k + m)
  pub keeps : (v : ℕ) → k ≤ v → shift r.2 (v + r.1) ≡ shift old (v + m)
  pub holds : (j : ℕ) → (elem j r.0 || member r.2 j) ≡ member old j
  pub rises : d ≤ k + m → (later : List ℕ) → Ascending (k + r.1) later → Ascending d (r.0 ++ later)
  pub above : Above (suc (k + r.1)) r.2

pub pass_old-Reached :
    (k m d : ℕ) (old : List Range) → Above d old → Reached k m d old (pass_old k m old)
unfolding pass_old shift member elem
pass_old-Reached k m d [] a = record {
  reaches = refl;
  keeps = λ v le. refl;
  holds = λ j. refl;
  rises = λ h later b. Ascending-mono later h b;
  above = tt;
}
pass_old-Reached k m d (r ∷ rs) a =
    if_intro (Reached k m d (r ∷ rs)) (leb r.first (k + m)) _ _
      (λ e.
        let w = width r in
        let ih = pass_old-Reached k (m + w) r.second rs (Above-mono rs (omega arith) a.2) in
        let regroup : (v : ℕ) → shift rs (v + (m + w)) ≡ shift rs (v + m + w) =
          λ v. ap (shift rs) (omega arith) in
        let is = (pass_old k (m + w) rs).0 in
        record {
          reaches = ground (arith, ih.reaches, regroup k);
          keeps = λ v le. ground (arith, ih.keeps v le, regroup v);
          holds = λ j. ground (arith, ih.holds j, elem-run r.first w is j);
          rises = λ h later b. rw (append_assoc (run r.first w) is later) (
              Ascending-mono (run r.first w ++ (is ++ later)) (omega arith) (
                run-Ascending r.first w (is ++ later)
                  (Ascending-mono (is ++ later) (omega arith) (ih.rises (ground arith) later b))));
          above = ih.above;
        })
      (λ e. record {
        reaches = ground arith;
        keeps = λ v le. refl;
        holds = λ j. refl;
        rises = λ h later b. Ascending-mono later h b;
        above = (ground arith, a.1, a.2);
      })
