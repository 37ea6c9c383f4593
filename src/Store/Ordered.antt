-- ===== src/Store/Ordered.antt =====
-- crates/rqmd-core/src/store.rs: `sort_by` of the picks, matches and hits, by an order that takes scores that cannot be compared as equal.
-- Such an order is total only if all scores compare; std's `sort_by` may panic on one that is not, and here it always does.
-- A score is `f32`, where only NaN does not compare. The sorts of `similar_to_hash` and of the fusion are modelled apart, where they return.
use rqmd.Common.{Bool, true, false, ◌&&◌, ◌≡◌, refl, List, [], ◌∷◌, if◌then◌else◌, sort_by, map}
use rqmd.Text.{Run, ok, panic}
use rqmd.Rrf.{Floats, less, equal, greater, unordered}

module _ {F : Type 0} (f : Floats F) where
  unfoldable pub is_comparable : F → F → Bool
  is_comparable a b = elim (f.partial_cmp a b) [
    | less ↦ true
    | equal ↦ true
    | greater ↦ true
    | unordered ↦ false
  ]

  unfoldable pub compares_with : F → List F → Bool
  unfolding is_comparable
  compares_with a [] = true
  compares_with a (b ∷ bs) = is_comparable a b && compares_with a bs

  unfoldable pub all_comparable : List F → Bool
  unfolding compares_with
  all_comparable [] = true
  all_comparable (a ∷ as') = compares_with a as' && all_comparable as'

  unfoldable pub sort_scores : {A : Type 0} → (A → F) → (A → A → Bool) → List A → Run (List A)
  unfolding all_comparable
  sort_scores score before as' =
      if all_comparable (map score as') then ok (sort_by before as') else panic

  -- Any two scores compare.
  abbrev pub AreNumbers : Type 0
  AreNumbers = (a b : F) → is_comparable a b ≡ true

  module _ (numbers : AreNumbers) where
    compares_with-AreNumbers : (a : F) (bs : List F) → compares_with a bs ≡ true
    unfolding compares_with
    compares_with-AreNumbers a [] = refl
    compares_with-AreNumbers a (b ∷ bs) = rw (numbers a b) (compares_with-AreNumbers a bs)

    all_comparable-AreNumbers : (as' : List F) → all_comparable as' ≡ true
    unfolding all_comparable
    all_comparable-AreNumbers [] = refl
    all_comparable-AreNumbers (a ∷ as') =
        rw (compares_with-AreNumbers a as') (all_comparable-AreNumbers as')

    pub sort_scores-AreNumbers :
        {A : Type 0} (score : A → F) (before : A → A → Bool) (as' : List A)
        → sort_scores score before as' ≡ ok (sort_by before as')
    unfolding sort_scores
    sort_scores-AreNumbers score before as' = rw (all_comparable-AreNumbers (map score as')) refl
