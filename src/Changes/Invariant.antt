-- ===== src/Changes/Invariant.antt =====
-- What `CollectionChangeBuilder::verify` and the assertion in `move` ask of a change.
pub mod Kept
pub mod Relocating
use realm_object_store.Base.{
  ℕ, ◌≡◌, Bool, true, false, ◌||◌, List, [], ◌∷◌, Option, none, some, ◌==◌, refl, arith, ◌⊎◌,
  Bool-cases, inl, inr, ◌≢◌,
}
use realm_object_store.IndexSet.Ranges.{Range, member, IsValid}
use realm_object_store.Changes.Moves.{Move, has_move_to, moved_from}
use realm_object_store.Changes.Builder.{Builder}

-- Every move starts at a deletion and ends at an insertion, and no two end at one row.
abbrev pub Recorded : List Range → List Range → List Move → Type 0
Recorded d s [] = Unit {0}
Recorded d s (m ∷ ms) =
    (member d m.from ≡ true)
    × (member s m.to ≡ true)
    × (has_move_to m.to ms ≡ false)
    × Recorded d s ms

abbrev pub AllValid : List (ℕ × List Range) → Type 0
AllValid [] = Unit {0}
AllValid ((k, s) ∷ cs) = IsValid s × AllValid cs

pub record IsConsistent (c : Builder) : Type 0 where
  pub deletions_valid : IsValid c.deletions
  pub insertions_valid : IsValid c.insertions
  pub modifications_valid : IsValid c.modifications
  pub columns_valid : AllValid c.columns
  pub recorded : Recorded c.deletions c.insertions c.moves

pub has_move_to-member :
    (d s : List Range) (ms : List Move) (t : ℕ)
    → Recorded d s ms
    → has_move_to t ms ≡ true
    → member s t ≡ true
unfolding has_move_to
has_move_to-member d s [] t r h = cc
has_move_to-member d s (m ∷ ms) t r h = ground (arith, has_move_to-member d s ms t r.3)

pub moved_from-has_move_to :
    (ms : List Move) (t : ℕ)
    → ((has_move_to t ms ≡ true) × ((f : ℕ) × (moved_from t ms ≡ some f)))
      ⊎ ((has_move_to t ms ≡ false) × (moved_from t ms ≡ none))
unfolding has_move_to moved_from
moved_from-has_move_to [] t = inr (refl, refl)
moved_from-has_move_to (m ∷ ms) t = ground (arith, moved_from-has_move_to ms t)
