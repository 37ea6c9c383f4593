-- ===== src/Store/Below.antt =====
-- Picks whose documents are there become results.
use rqmd.Common.{
  ℕ, suc, ◌≤◌, ◌<◌, ◌≡◌, refl, ap, ◌∙◌, Option, List, [], ◌∷◌, ◌++◌, arith, length, length-append,
  length-take, get_elem?-lt, All, All-take, All-append, All-sort_by, sort_by, take,
}
use rqmd.Text.{Bytes, Run, ok}
use rqmd.Rrf.{Floats}
use rqmd.Store.{Ran}
use rqmd.Store.Ordered.{AreNumbers, sort_scores-AreNumbers}
use rqmd.Store.Picks.{
  Pick, PickDoc, SearchResult, pick_before, sort_picks, rank_picks, cons_result, to_search_result,
  picks_to_results, ranked_results,
}
use rqmd.Store.Moved.{clone_picks, copied, picks_to_results-clone_picks}

abbrev pub BelowDocs : {F : Type 0} → ℕ → List (Pick F) → Type 0
BelowDocs n = All (λ p. p.doc < n)

module _ {F : Type 0} (f : Floats F) where
  -- At most so many picks, whose documents are there, without a panic.
  abbrev pub Ranked : ℕ → ℕ → Run (List (Pick F)) → Type 0
  Ranked n limit = Ran (λ ps. BelowDocs n ps × (length ps ≤ limit))

  pub rank_picks-Ranked :
      AreNumbers f
      → (n limit : ℕ) (ps : List (Pick F)) → BelowDocs n ps
      → Ranked n limit (rank_picks f ps limit)
  unfolding rank_picks sort_picks
  rank_picks-Ranked numbers n limit ps h =
      let sorted = sort_by (pick_before f) ps in
      (
        take limit sorted,
        rw (sort_scores-AreNumbers f numbers (λ p. p.score) (pick_before f) ps) refl,
        (
          All-take (λ p. p.doc < n) limit sorted
              (All-sort_by (pick_before f) (λ p. p.doc < n) ps h),
          omega (arith, length-take limit sorted),
        ),
      )

BelowDocs-weaken :
    {F : Type 0} (n m : ℕ) (ps : List (Pick F)) → n ≤ m → BelowDocs n ps → BelowDocs m ps
BelowDocs-weaken n m [] h k = tt
BelowDocs-weaken n m (p ∷ ps) h (l, k) = (omega arith, BelowDocs-weaken n m ps h k)

-- A document and its picks, behind those so far.
pub BelowDocs-append_doc :
    {F : Type 0} (docs : List PickDoc) (d : PickDoc) (ps qs : List (Pick F))
    → BelowDocs (length docs) ps
    → BelowDocs (suc (length docs)) qs
    → BelowDocs (length (docs ++ d ∷ [])) (ps ++ qs)
BelowDocs-append_doc docs d ps qs h k =
    All-append (λ p. p.doc < length (docs ++ d ∷ [])) ps qs
      (BelowDocs-weaken (length docs) _ ps (omega (arith, length-append docs (d ∷ []))) h)
      (BelowDocs-weaken (suc (length docs)) _ qs (omega (arith, length-append docs (d ∷ []))) k)

-- The results of picks whose documents are there.
abbrev HasLength : {F : Type 0} → ℕ → Run (List (SearchResult F)) → Type 0
HasLength {F} n r = (rs : List (SearchResult F)) × (r ≡ ok rs) × (length rs ≡ n)

clone_picks-HasLength :
    {F : Type 0} (context : Bytes → Bytes → Option Bytes) (docs : List PickDoc) (ps : List (Pick F))
    → BelowDocs (length docs) ps
    → HasLength (length ps) (clone_picks context docs ps)
unfolding clone_picks copied cons_result
clone_picks-HasLength context docs [] h = ([], refl, refl)
clone_picks-HasLength context docs (p ∷ ps) (l, h) =
    let (doc, e) = get_elem?-lt p.doc docs l in
    let (rs, k, n) = clone_picks-HasLength context docs ps h in
    (to_search_result context p doc ∷ rs, rw (e, k, cons_result, copied) refl, ap suc n)

-- No panic, and at most so many results.
abbrev pub IsWithin : {F : Type 0} → ℕ → Run (List (SearchResult F)) → Type 0
IsWithin {F} limit r = (rs : List (SearchResult F)) × (r ≡ ok rs) × (length rs ≤ limit)

pub picks_to_results-IsWithin :
    {F : Type 0} (context : Bytes → Bytes → Option Bytes) (docs : List PickDoc) (ps : List (Pick F))
    (limit : ℕ)
    → BelowDocs (length docs) ps
    → length ps ≤ limit
    → IsWithin limit (picks_to_results context docs ps)
picks_to_results-IsWithin context docs ps limit below short =
    let (rs, e, n) = clone_picks-HasLength context docs ps below in
    (rs, picks_to_results-clone_picks context docs ps ∙ e, omega (arith, n, short))

pub ranked_results-IsWithin :
    {F : Type 0} (f : Floats F) (context : Bytes → Bytes → Option Bytes)
    → AreNumbers f
    → (docs : List PickDoc) (ps : List (Pick F)) (limit : ℕ) → BelowDocs (length docs) ps
    → IsWithin limit (ranked_results context f docs ps limit)
unfolding ranked_results
ranked_results-IsWithin f context numbers docs ps limit below =
    let (qs, e, (there, short)) = rank_picks-Ranked f numbers (length docs) limit ps below in
    rw e (picks_to_results-IsWithin context docs qs limit there short)
