-- ===== src/Common/Sort.antt =====
-- A stable sort, as Rust's `sort_by`, and what it keeps.
use Prim.Native.Nat.{ℕ, zero, suc, ◌≤◌}
use mathlib.Core.Path.{◌≡◌, refl, ap, ◌∙◌}
use mathlib.Core.Bool.{Bool}
use mathlib.Core.Logic.{inl, inr}
use mathlib.Core.List.{List, [], ◌∷◌, ◌++◌}
use native.Mathlib.Omega.{arith}
use rqmd.Common.Tests.{if◌then◌else◌, Bool-cases}
use rqmd.Common.Lists.{length, take}

abbrev pub All : {A : Type 0} → (A → Type 0) → List A → Type 0
All P [] = Unit
All P (a ∷ as') = P a × All P as'

-- How many elements pass a test.
abbrev pub tally : {A : Type 0} → (A → Bool) → List A → ℕ
tally p [] = 0
tally p (a ∷ as') = if p a then suc (tally p as') else tally p as'

pub All-take : {A : Type 0} (P : A → Type 0) (n : ℕ) (as' : List A) → All P as' → All P (take n as')
All-take P zero as' h = tt
All-take P (suc n) [] h = tt
All-take P (suc n) (a ∷ as') (k, h) = (k, All-take P n as' h)

pub All-append :
    {A : Type 0} (P : A → Type 0) (as' bs : List A) → All P as' → All P bs → All P (as' ++ bs)
All-append P [] bs h k = k
All-append P (a ∷ as') bs (l, h) k = (l, All-append P as' bs h k)

pub tally-take :
    {A : Type 0} (p : A → Bool) (n : ℕ) (as' : List A) → tally p (take n as') ≤ tally p as'
tally-take p zero as' = omega arith
tally-take p (suc n) [] = omega arith
tally-take p (suc n) (a ∷ as') = let ih = tally-take p n as' in ground arith

-- `before a b` is whether `a` stands strictly before `b`.
module _ {A : Type 0} (before : A → A → Bool) where
  abbrev pub insert_by : A → List A → List A
  insert_by a [] = a ∷ []
  insert_by a (b ∷ bs) = let rest = insert_by a bs in if before b a then b ∷ rest else a ∷ b ∷ bs

  abbrev pub sort_by : List A → List A
  sort_by [] = []
  sort_by (a ∷ as') = insert_by a (sort_by as')

  length-insert_by : (a : A) (bs : List A) → length (insert_by a bs) ≡ suc (length bs)
  length-insert_by a [] = refl
  length-insert_by a (b ∷ bs) = elim (Bool-cases (before b a)) [
    | inl e ↦ rw e (ap suc (length-insert_by a bs))
    | inr e ↦ rw e refl
  ]

  pub length-sort_by : (as' : List A) → length (sort_by as') ≡ length as'
  length-sort_by [] = refl
  length-sort_by (a ∷ as') = length-insert_by a (sort_by as') ∙ ap suc (length-sort_by as')

  All-insert_by : (P : A → Type 0) (a : A) (bs : List A) → P a → All P bs → All P (insert_by a bs)
  All-insert_by P a [] l h = (l, tt)
  All-insert_by P a (b ∷ bs) l (k, h) = elim (Bool-cases (before b a)) [
    | inl e ↦ rw e (k, All-insert_by P a bs l h)
    | inr e ↦ rw e (l, (k, h))
  ]

  pub All-sort_by : (P : A → Type 0) (as' : List A) → All P as' → All P (sort_by as')
  All-sort_by P [] h = tt
  All-sort_by P (a ∷ as') (l, h) = All-insert_by P a (sort_by as') l (All-sort_by P as' h)

  tally-insert_by :
      (p : A → Bool) (a : A) (bs : List A) → tally p (insert_by a bs) ≡ tally p (a ∷ bs)
  tally-insert_by p a [] = refl
  tally-insert_by p a (b ∷ bs) =
      let ih = tally-insert_by p a bs in
      elim (Bool-cases (before b a)) [ inl e ↦ rw e (ground arith) | inr e ↦ rw e refl ]

  pub tally-sort_by : (p : A → Bool) (as' : List A) → tally p (sort_by as') ≡ tally p as'
  tally-sort_by p [] = refl
  tally-sort_by p (a ∷ as') =
      let ih = tally-sort_by p as' in let k = tally-insert_by p a (sort_by as') in ground arith
