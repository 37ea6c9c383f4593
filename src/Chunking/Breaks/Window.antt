-- ===== src/Chunking/Breaks/Window.antt =====
-- `best_break_in_window` is the highest score in the window, and among those the latest position.
use rqmd.Common.{
  ℕ, ◌≤◌, ◌<◌, ◌≡◌, refl, subst, ◌∙◌, ◌⊎◌, inl, inr, true, false, ◌&&◌, Option, none, some, List,
  [], ◌∷◌, arith, ltb, leb, Bool-cases,
}
use mathlib.Core.Option
use rqmd.Chunking.{BreakPoint}
use rqmd.Chunking.Breaks.{max_by, max_in_window, best_break_in_window}

abbrev pub All : (BreakPoint → Type 0) → List BreakPoint → Type 0
All P [] = Unit
All P (b ∷ points) = P b × All P points

abbrev pub Has : BreakPoint → List BreakPoint → Type 0
Has b [] = ⊥
Has b (c ∷ points) = (b ≡ c) ⊎ Has b points

abbrev pub IsIn : ℕ → ℕ → BreakPoint → Type 0
IsIn from to b = (from ≤ b.pos) × (b.pos < to)

-- `c` ranks no higher than `b`.
abbrev pub NotAbove : BreakPoint → BreakPoint → Type 0
NotAbove c b = (c.score < b.score) ⊎ ((c.score ≡ b.score) × (c.pos ≤ b.pos))

abbrev Below : Option BreakPoint → Option BreakPoint → Type 0
Below none r = Unit
Below (some a) none = ⊥
Below (some a) (some b) = NotAbove a b

Below-refl : (a : Option BreakPoint) → Below a a
Below-refl none = tt
Below-refl (some a) = inr (refl, omega arith)

Below-trans : (a b c : Option BreakPoint) → Below a b → Below b c → Below a c
Below-trans none b c h k = tt
Below-trans (some a) none c h k = absurd h
Below-trans (some a) (some b) none h k = k
Below-trans (some a) (some b) (some c) h k = ground arith

max_by_left : (a : Option BreakPoint) (b : BreakPoint) → Below a (max_by a b)
unfolding max_by
max_by_left none b = tt
max_by_left (some a) b = ground arith

max_by_right : (a : Option BreakPoint) (b : BreakPoint) → Below (some b) (max_by a b)
unfolding max_by
max_by_right none b = inr (refl, omega arith)
max_by_right (some a) b = ground arith

max_by_either : (a : Option BreakPoint) (b : BreakPoint) → (max_by a b ≡ a) ⊎ (max_by a b ≡ some b)
unfolding max_by
max_by_either none b = inr refl
max_by_either (some a) b = ground arith

module _ (from to : ℕ) where
  record Scanned (best : Option BreakPoint) (points : List BreakPoint) (r : Option BreakPoint)
      : Type 0 where
    all : All (λ c. IsIn from to c → Below (some c) r) points
    start : Below best r
    either : (r ≡ best) ⊎ ((b : BreakPoint) × (r ≡ some b) × Has b points × IsIn from to b)

  Scanned-skip :
      (b : BreakPoint) {best r : Option BreakPoint} {points : List BreakPoint}
      → (leb from b.pos && ltb b.pos to) ≡ false
      → Scanned best points r
      → Scanned best (b ∷ points) r
  Scanned-skip b out s = record {
    all = (λ h. absurd (ground arith), s.all);
    start = s.start;
    either = elim s.either [ inl e ↦ inl e | inr (c, e, h, i) ↦ inr (c, e, inr h, i) ];
  }

  Scanned-take :
      (b : BreakPoint) (best r : Option BreakPoint) {points : List BreakPoint}
      → (leb from b.pos && ltb b.pos to) ≡ true
      → Scanned (max_by best b) points r
      → Scanned best (b ∷ points) r
  Scanned-take b best r inside s = record {
    all = (λ h. Below-trans (some b) (max_by best b) r (max_by_right best b) s.start, s.all);
    start = Below-trans best (max_by best b) r (max_by_left best b) s.start;
    either = elim s.either [
      | inl e ↦ elim (max_by_either best b) [
        | inl old ↦ inl (e ∙ old)
        | inr new ↦ inr (b, e ∙ new, inl refl, (ground arith, ground arith))
      ]
      | inr (c, e, h, i) ↦ inr (c, e, inr h, i)
    ];
  }

  max_in_window_lem :
      (best : Option BreakPoint) (points : List BreakPoint)
      → Scanned best points (max_in_window from to best points)
  unfolding max_in_window
  max_in_window_lem best [] = record { all = tt; start = Below-refl best; either = inl refl }
  max_in_window_lem best (b ∷ points) = elim (Bool-cases (leb from b.pos && ltb b.pos to)) [
    | inl inside ↦
        rw inside (Scanned-take b best _ inside (max_in_window_lem (max_by best b) points))
    | inr out ↦ rw out (Scanned-skip b out (max_in_window_lem best points))
  ]

  -- What the function promises: of the candidates in the window one of the highest score, and of
  -- those the latest, or none if the window holds none.
  abbrev pub IsBest : List BreakPoint → Option ℕ → Type 0
  IsBest points none = All (λ c. IsIn from to c → ⊥) points
  IsBest points (some p) =
      (b : BreakPoint) × (b.pos ≡ p)
      × Has b points
      × IsIn from to b
      × All (λ c. IsIn from to c → NotAbove c b) points

  IsBest-Scanned :
      (points : List BreakPoint) (r : Option BreakPoint)
      → Scanned none points r
      → IsBest points (Option.map (λ (b : BreakPoint). b.pos) r)
  IsBest-Scanned points none s = s.all
  IsBest-Scanned points (some b) s = elim s.either [
    | inl e ↦ cc
    | inr (c, e, h, i) ↦
        let same : c ≡ b = ground arith in
        (b, refl, subst (λ d. Has d points) same h, subst (λ d. IsIn from to d) same i, s.all)
  ]

  -- For all break points and every window, the function returns the position of a break point in
  -- the window that no other one there beats by score, or by position at the same score, and none
  -- exactly if the window holds no break point.
  pub best_break_in_window-IsBest :
      (points : List BreakPoint) → IsBest points (best_break_in_window points from to)
  unfolding best_break_in_window
  best_break_in_window-IsBest points = IsBest-Scanned points _ (max_in_window_lem none points)
