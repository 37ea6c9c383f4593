-- ===== src/Store/Hits.antt =====
-- What the keyword search returns.
use rqmd.Common.{
  ℕ, suc, ◌≤◌, ◌<◌, refl, Option, none, some, List, [], ◌∷◌, ◌==◌, arith, length, length-take, take,
  Bool-cases, inl, inr, Bool, true, false, sort_by,
}
use rqmd.Text.{Bytes, Run}
use rqmd.Store.Ordered.{AreNumbers, sort_scores-AreNumbers}
use rqmd.Store.{run_then, Ran, Ensures-run_then, pure, Ensures, Ensures-bind, Hit, Scope, Env}
use rqmd.Store.Sections.{Section, keyword_terms}
use rqmd.Store.Scope.{filepath_of, fts_scoped}
use rqmd.Store.Picks.{Pick, PickDoc, SearchResult, recency_pool}
use rqmd.Store.Below.{BelowDocs-append_doc, BelowDocs, IsWithin, ranked_results-IsWithin}
use rqmd.Store.Lockstep.{behind_any}
use rqmd.Resolve.{Document}
use rqmd.Store.Search.{SearchOptions, clamp_per_file}
use rqmd.Store.Keyword.{
  hit_before, sort_hits, scale_hits, weight_hits, hydrate, add_shown, add_hit, section_picks,
  hit_picks, hits_to_sections, hits_to_results, show_hits, keyword_hits, keyword_search_in,
}

module _ {W F V X : Type 0} (env : Env W F V X) where
  BelowDocs-section_picks :
      (filepath : Bytes) (doc : ℕ) (score : F) (rank : ℕ) (ss : List Section) (n : ℕ)
      → doc < n
      → BelowDocs n (section_picks env filepath doc score rank ss)
  unfolding section_picks
  BelowDocs-section_picks filepath doc score rank [] n h = tt
  BelowDocs-section_picks filepath doc score rank (s ∷ ss) n h =
      (h, BelowDocs-section_picks filepath doc score (suc rank) ss n h)

  -- The documents and picks of the keyword search.
  abbrev InDocs : List PickDoc × List (Pick F) → Type 0
  InDocs g = BelowDocs (length g.0) g.1

  add_hit-InDocs :
      (terms : List Bytes) (per_file : ℕ) (found : Option (Document × Bytes)) (score : F)
      (g : List PickDoc × List (Pick F))
      → InDocs g
      → InDocs (add_hit env terms per_file found score g)
  unfolding add_hit
  add_hit-InDocs terms per_file none score g h = h
  add_hit-InDocs terms per_file (some (doc, body)) score (docs, picks) h =
      BelowDocs-append_doc docs _ picks _ h
        (BelowDocs-section_picks (filepath_of doc) (length docs) score 0 _ _ (omega arith))

  hit_picks-InDocs :
      (terms : List Bytes) (per_file : ℕ) (hs : List (Hit F)) (g : List PickDoc × List (Pick F))
      → InDocs g
      → Ensures InDocs (hit_picks env terms per_file hs g)
  unfolding hit_picks pure
  hit_picks-InDocs terms per_file [] g h = λ w. h
  hit_picks-InDocs terms per_file (hit ∷ hs) g h =
      behind_any InDocs (hydrate env hit.doc_id) _ (λ found.
        hit_picks-InDocs terms per_file hs (add_hit env terms per_file found hit.score g)
          (add_hit-InDocs terms per_file found hit.score g h))

  length-add_shown :
      (found : Option (Document × Bytes)) (score : F) (w : W) (rest : List (SearchResult F))
      → length (add_shown env found score w rest) ≤ suc (length rest)
  unfolding add_shown
  length-add_shown none score w rest = omega arith
  length-add_shown (some (doc, body)) score w rest = omega arith

  hits_to_results-short :
      (hs : List (Hit F)) → Ensures (λ rs. length rs ≤ length hs) (hits_to_results env hs)
  unfolding hits_to_results pure
  hits_to_results-short [] = λ w. omega arith
  hits_to_results-short (h ∷ hs) =
      behind_any (λ rs. length rs ≤ suc (length hs)) (hydrate env h.doc_id) _
        (λ found w.
          Ensures-bind (λ rs. length rs ≤ length hs) (λ rs. length rs ≤ suc (length hs))
            (hits_to_results env hs) _ (hits_to_results-short hs)
            (λ rs k w'. omega (arith, k, length-add_shown found h.score w rs)) w)

  weight_hits-Ran :
      AreNumbers env.scores → (hs : List (Hit F)) → Ensures (Ran (λ rs. Unit)) (weight_hits env hs)
  unfolding weight_hits sort_hits pure
  weight_hits-Ran numbers hs w =
      behind_any (Ran (λ rs. Unit)) (scale_hits env (env.now w) hs) _
        (λ scaled w'. (
          sort_by (hit_before env) scaled,
          sort_scores-AreNumbers env.scores numbers (λ h. h.score) (hit_before env) scaled,
          tt,
        ))
        w

  keyword_hits-Ran :
      AreNumbers env.scores
      → (query : Bytes) (limit : ℕ) (recency : Bool) (scope : Scope)
      → Ensures (Ran (λ rs. Unit)) (keyword_hits env query limit recency scope)
  unfolding keyword_hits pure
  keyword_hits-Ran numbers query limit false scope =
      behind_any (Ran (λ rs. Unit)) (fts_scoped env query limit scope) _
        (λ hits w. (hits, refl, tt))
  keyword_hits-Ran numbers query limit true scope =
      behind_any (Ran (λ rs. Unit)) (fts_scoped env query (recency_pool limit) scope) _
        (weight_hits-Ran numbers)

  module _ (numbers : AreNumbers env.scores) (limit : ℕ) where
    hits_to_sections-IsWithin :
        (hs : List (Hit F)) (query : Bytes) (per_file : ℕ)
        → Ensures (IsWithin limit) (hits_to_sections env hs query limit per_file)
    unfolding hits_to_sections
    hits_to_sections-IsWithin hs query per_file =
        Ensures-bind InDocs (IsWithin limit) _ _
          (hit_picks-InDocs (keyword_terms env.to_lowercase env.split_whitespace query) per_file
            (take limit hs) ([], []) tt)
          (λ (docs, picks) h w.
            ranked_results-IsWithin env.scores
              (λ collection path. env.context_for_path collection path w) numbers docs picks limit
              h)

    show_hits-IsWithin :
        (query : Bytes) (per_file : ℕ) (hs : List (Hit F))
        → Ensures (IsWithin limit) (show_hits env query limit per_file hs)
    unfolding show_hits pure
    show_hits-IsWithin query per_file hs = elim (Bool-cases (per_file == 1)) [
      | inl e ↦ rw e (
          Ensures-bind (λ rs. length rs ≤ length (take limit hs)) (IsWithin limit) _ _
            (hits_to_results-short (take limit hs))
            (λ rs k w. (rs, refl, omega (arith, k, length-take limit hs))))
      | inr e ↦ rw e (hits_to_sections-IsWithin hs query per_file)
    ]

    shown-IsWithin :
        (query : Bytes) (per_file : ℕ) (r : Run (List (Hit F)))
        → Ran (λ rs. Unit) r
        → Ensures (IsWithin limit) (run_then (show_hits env query limit per_file) r)
    shown-IsWithin query per_file r h =
        Ensures-run_then (λ rs. Unit) (IsWithin limit) _ r h
          (λ hs u. show_hits-IsWithin query per_file hs)

    pub keyword_search_in-IsWithin :
        (query : Bytes) (options : SearchOptions) (scope : Scope)
        → Ensures (IsWithin limit) (keyword_search_in env query limit options scope)
    unfolding keyword_search_in pure
    keyword_search_in-IsWithin query options (some []) = λ w. ([], refl, omega arith)
    keyword_search_in-IsWithin query options none =
        Ensures-bind (Ran (λ rs. Unit)) (IsWithin limit)
          (keyword_hits env query limit options.recency none) _
          (keyword_hits-Ran numbers query limit options.recency none)
          (shown-IsWithin query (clamp_per_file options.per_file))
    keyword_search_in-IsWithin query options (some (n ∷ ns)) =
        Ensures-bind (Ran (λ rs. Unit)) (IsWithin limit)
          (keyword_hits env query limit options.recency (some (n ∷ ns))) _
          (keyword_hits-Ran numbers query limit options.recency (some (n ∷ ns)))
          (shown-IsWithin query (clamp_per_file options.per_file))
