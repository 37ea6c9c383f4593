-- ===== src/Store/Widen.antt =====
-- The loops that widen the pool of a vector search end.
use rqmd.Common.{
  ℕ, zero, suc, ◌*◌, ◌-◌, ◌≤◌, ◌<◌, ◌≡◌, refl, true, false, Option, none, some, arith, length, max,
  min, Bool-cases, inl, inr, ◌⊎◌,
}
use rqmd.Store.{Op, pure, Ensures, Ensures-bind, Returns, Ensures-Returns, Scope, Env}
use rqmd.Store.Scope.{ranked_round, enough, widen}
use rqmd.Store.Vectors.{document_round}

module _ {W A : Type 0} (round : ℕ → Op W A) (size : A → ℕ) (wanted total : ℕ) where
  -- What a round found, which is enough or came from a search for every vector.
  pub record Widened (found : A) : Type 0 where
    pub k : ℕ
    pub returned : Returns (round k) found
    pub stops : (wanted ≤ size found) ⊎ (total ≤ k)

  abbrev pub Found : Option A → Type 0
  Found none = ⊥
  Found (some found) = Widened found

  enough_cases :
      (k : ℕ) (found : A)
      → enough round size wanted total k found ≡ true
      → (wanted ≤ size found) ⊎ (total ≤ k)
  unfolding enough
  enough_cases k found h = ground arith

  not_enough :
      (k : ℕ) (found : A)
      → enough round size wanted total k found ≡ false
      → (size found < wanted) × (k < total)
  unfolding enough
  not_enough k found h = ground arith

  positive :
      (k : ℕ) (found : A)
      → (0 < k) ⊎ (wanted ≡ 0)
      → enough round size wanted total k found ≡ false
      → 0 < k
  positive k found (inl h) e = h
  positive k found (inr h) e = absurd (omega (arith, (not_enough k found e).0, h))

  grows :
      (k : ℕ) (found : A)
      → (0 < k) ⊎ (wanted ≡ 0)
      → enough round size wanted total k found ≡ false
      → 0 < min (k * 2) total
  grows k found p e = omega (arith, positive k found p e, (not_enough k found e).1)

  further :
      (k : ℕ) (found : A) (fuel : ℕ)
      → (0 < k) ⊎ (wanted ≡ 0)
      → total - k < suc fuel
      → enough round size wanted total k found ≡ false
      → total - min (k * 2) total < fuel
  further k found fuel p h e = omega (arith, positive k found p e, (not_enough k found e).1, h)

  widen-Found :
      (fuel k : ℕ)
      → total - k < fuel
      → (0 < k) ⊎ (wanted ≡ 0)
      → Ensures Found (widen round size wanted total fuel k)
  unfolding widen pure
  widen-Found zero k h p = absurd (omega arith)
  widen-Found (suc fuel) k h p =
      Ensures-bind (Returns (round k)) Found (round k) _ (Ensures-Returns (round k))
        (λ found returned. elim (Bool-cases (enough round size wanted total k found)) [
          | inl e ↦
              rw e (λ w. record { k = k; returned = returned; stops = enough_cases k found e })
          | inr e ↦ rw e (
              widen-Found fuel (min (k * 2) total) (further k found fuel p h e)
                (inl (grows k found p e)))
        ])

-- Both vector searches widen their pool until they end: with a round for every vector and two more they never run out, and what they go on with, if the round succeeds, is what one round found, with as many results or documents as are wanted or with every vector asked for.
pub widen-Found-ranked_round-document_round :
    {W F V X : Type 0} (env : Env W F V X) (embedding : V) (wanted : ℕ) (scope : Scope)
    (exclusions : X) (total limit : ℕ)
    → Ensures (Found (ranked_round env embedding scope exclusions) length wanted total) (
        widen
          (ranked_round env embedding scope exclusions)
          length
          wanted
          total
          (suc (suc total))
          wanted)
      × Ensures (Found (document_round env embedding scope exclusions) length wanted total) (
          widen
            (document_round env embedding scope exclusions)
            length
            wanted
            total
            (suc (suc total))
            (max (limit * 4) 1))
widen-Found-ranked_round-document_round env embedding wanted scope exclusions total limit = (
  widen-Found (ranked_round env embedding scope exclusions) length wanted total (suc (suc total))
      wanted (omega arith) (positive_or_zero wanted),
  widen-Found (document_round env embedding scope exclusions) length wanted total (suc (suc total))
      (max (limit * 4) 1) (omega arith) (inl (omega arith)),
)
  where
    positive_or_zero : (n : ℕ) → (0 < n) ⊎ (n ≡ 0)
    positive_or_zero zero = inr refl
    positive_or_zero (suc n) = inl (omega arith)
