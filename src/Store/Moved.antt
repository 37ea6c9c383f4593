-- ===== src/Store/Moved.antt =====
-- Moving a document's body into its last result is the same as cloning it for every result.
use rqmd.Common.{
  ℕ, zero, suc, ◌≤◌, ◌<◌, ◌≡◌, ◌≢◌, refl, ap, ◌∙◌, false, Option, none, some, List, [], ◌∷◌, arith,
  ltb, if◌then◌else◌, get_elem?, Bool-cases, inl, inr, ltb→le, ◌+◌, ◌==◌,
}
use rqmd.Text.{Bytes, Run, ok, panic}
use rqmd.Store.Picks.{
  Pick, PickDoc, SearchResult, Left, add_one, count_picks, left_of, decrement, put_left, Slots,
  slots_of, slot_at, clear_slot, to_search_result, from_slot, cons_result, after_slot, take_picks,
  picks_to_results,
}

module _ {F : Type 0} (context : Bytes → Bytes → Option Bytes) where
  -- A result from a copy of the document, in front of the others.
  unfoldable pub copied :
      Pick F → Option PickDoc → Run (List (SearchResult F)) → Run (List (SearchResult F))
  copied p none rest = panic
  copied p (some doc) rest = cons_result context (to_search_result context p doc) rest

  -- Every result has a copy of its document.
  unfoldable pub clone_picks : List PickDoc → List (Pick F) → Run (List (SearchResult F))
  unfolding copied
  clone_picks docs [] = ok []
  clone_picks docs (p ∷ ps) = copied p (get_elem? docs p.doc) (clone_picks docs ps)

-- How many of the picks are of a document.
abbrev picks_of : {F : Type 0} → ℕ → List (Pick F) → ℕ
picks_of d [] = 0
picks_of d (p ∷ ps) = let rest = picks_of d ps in if p.doc == d then suc rest else rest

abbrev amount : Option ℕ → ℕ
amount none = 0
amount (some n) = n

left_of-add_one :
    (d i : ℕ) (left : Left)
    → amount (left_of i (add_one d left))
      ≡ (if d == i then suc (amount (left_of i left)) else amount (left_of i left))
unfolding left_of add_one
left_of-add_one d i [] = ground arith
left_of-add_one d i ((k, n) ∷ left) = let later = left_of-add_one d i left in ground arith

left_of-put_left :
    (d n m i : ℕ) (left : Left)
    → amount (left_of d left) ≡ suc m
    → amount (left_of i (put_left d n left)) ≡ (if d == i then n else amount (left_of i left))
unfolding left_of put_left
left_of-put_left d n m i [] h = absurd (omega (arith, h))
left_of-put_left d n m i ((k, j) ∷ left) h =
    let later = left_of-put_left d n m i left in ground arith

left_of-count_picks :
    {F : Type 0} (i : ℕ) (ps : List (Pick F)) (left : Left)
    → amount (left_of i (count_picks ps left)) ≡ amount (left_of i left) + picks_of i ps
unfolding count_picks
left_of-count_picks i [] left = omega arith
left_of-count_picks i (p ∷ ps) left =
    let first = left_of-add_one p.doc i left in
    let later = left_of-count_picks i ps (add_one p.doc left) in ground arith

decrement-suc : (o : Option ℕ) (n : ℕ) → amount o ≡ suc n → decrement o ≡ ok n
unfolding decrement
decrement-suc none n h = absurd (omega (arith, h))
decrement-suc (some zero) n h = absurd (omega (arith, h))
decrement-suc (some (suc m)) n h = ap ok (omega (arith, h))

slot_or_panic : Option PickDoc → Run (Option PickDoc)
slot_or_panic none = panic
slot_or_panic (some d) = ok (some d)

slot_at-slots_of :
    (docs : List PickDoc) (i : ℕ) → slot_at (slots_of docs) i ≡ slot_or_panic (get_elem? docs i)
unfolding slot_at slots_of slot_or_panic
slot_at-slots_of [] i = refl
slot_at-slots_of (d ∷ ds) zero = refl
slot_at-slots_of (d ∷ ds) (suc i) = slot_at-slots_of ds i

slot_at-clear_slot :
    (slots : Slots) (i j : ℕ) → i ≢ j → slot_at (clear_slot slots i) j ≡ slot_at slots j
unfolding slot_at clear_slot
slot_at-clear_slot [] i j h = refl
slot_at-clear_slot (s ∷ ss) zero zero h = absurd (h refl)
slot_at-clear_slot (s ∷ ss) zero (suc j) h = refl
slot_at-clear_slot (s ∷ ss) (suc i) zero h = refl
slot_at-clear_slot (s ∷ ss) (suc i) (suc j) h = slot_at-clear_slot ss i j (λ e. h (ap suc e))

module _ {F : Type 0} (docs : List PickDoc) where
  -- The slot of every document that a pick still needs holds it.
  IsReady : Slots → List (Pick F) → Type 0
  IsReady slots ps =
      (i : ℕ) → 0 < picks_of i ps → slot_at slots i ≡ slot_or_panic (get_elem? docs i)

  -- What is left of a document are the picks of it.
  HasCounts : Left → List (Pick F) → Type 0
  HasCounts left ps = (i : ℕ) → amount (left_of i left) ≡ picks_of i ps

  HasCounts-first :
      (p : Pick F) (ps : List (Pick F)) (left : Left)
      → HasCounts left (p ∷ ps)
      → amount (left_of p.doc left) ≡ suc (picks_of p.doc ps)
  unfolding HasCounts
  HasCounts-first p ps left h = let e = h p.doc in ground arith

  HasCounts-next :
      (p : Pick F) (ps : List (Pick F)) (left : Left)
      → HasCounts left (p ∷ ps)
      → HasCounts (put_left p.doc (picks_of p.doc ps) left) ps
  unfolding HasCounts
  HasCounts-next p ps left h i =
      let n = picks_of p.doc ps in
      let put = left_of-put_left p.doc n n i left (HasCounts-first p ps left h) in
      let e = h i in grind arith

  picks_of-first : (p : Pick F) (ps : List (Pick F)) → 0 < picks_of p.doc (p ∷ ps)
  picks_of-first p ps = ground arith

  picks_of-later : (i : ℕ) (p : Pick F) (ps : List (Pick F)) → picks_of i ps ≤ picks_of i (p ∷ ps)
  picks_of-later i p ps = ground arith

  IsReady-next :
      (p : Pick F) (ps : List (Pick F)) (slots : Slots)
      → IsReady slots (p ∷ ps)
      → IsReady (if ltb 0 (picks_of p.doc ps) then slots else clear_slot slots p.doc) ps
  unfolding IsReady
  IsReady-next p ps slots h i k = elim (Bool-cases (ltb 0 (picks_of p.doc ps))) [
    | inl e ↦ rw e (h i (omega (arith, k, picks_of-later i p ps)))
    | inr e ↦
        rw e (
          slot_at-clear_slot slots p.doc i (other e)
          ∙ h i (omega (arith, k, picks_of-later i p ps)))
  ]
    where
      other : ltb 0 (picks_of p.doc ps) ≡ false → p.doc ≢ i
      other e q = omega (arith, ltb→le 0 (picks_of p.doc ps) e, k, ap (λ d. picks_of d ps) q)

  module _ (context : Bytes → Bytes → Option Bytes) where
    take_picks-clone_picks :
        (ps : List (Pick F)) (left : Left) (slots : Slots)
        → HasCounts left ps
        → IsReady slots ps
        → take_picks context ps left slots ≡ clone_picks context docs ps
    unfolding take_picks clone_picks slot_or_panic IsReady
    take_picks-clone_picks [] left slots c h = refl
    take_picks-clone_picks (p ∷ ps) left slots c h =
        rw
          (
            decrement-suc (left_of p.doc left) n (HasCounts-first p ps left c),
            h p.doc (picks_of-first p ps),
          )
          (step
            (take_picks-clone_picks ps (put_left p.doc n left) rest (HasCounts-next p ps left c)
              (IsReady-next p ps slots h))
            (get_elem? docs p.doc))
      where
        n : ℕ
        n = picks_of p.doc ps

        rest : Slots
        rest = if ltb 0 (picks_of p.doc ps) then slots else clear_slot slots p.doc

        step :
            take_picks context ps (put_left p.doc n left) rest ≡ clone_picks context docs ps
            → (o : Option PickDoc)
            → after_slot context
                (take_picks context ps (put_left p.doc n left))
                (from_slot context p n slots (slot_or_panic o))
              ≡ copied context p o (clone_picks context docs ps)
        step later none = refl
        step later (some doc) = ap (cons_result context (to_search_result context p doc)) later

-- The results are those of copying a document for each of its picks: the counts of the picks to come never run out, and a document is never missing because an earlier pick has taken it.
pub picks_to_results-clone_picks :
    {F : Type 0} (context : Bytes → Bytes → Option Bytes) (docs : List PickDoc)
    (picks : List (Pick F))
    → picks_to_results context docs picks ≡ clone_picks context docs picks
unfolding picks_to_results IsReady HasCounts left_of
picks_to_results-clone_picks context docs picks =
    take_picks-clone_picks docs context picks (count_picks picks []) (slots_of docs)
      (λ i. omega (arith, left_of-count_picks i picks [])) (λ i k. slot_at-slots_of docs i)
