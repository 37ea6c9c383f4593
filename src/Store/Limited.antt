-- ===== src/Store/Limited.antt =====
-- What a hybrid query returns.
use rqmd.Common.{
  ℕ, suc, ◌+◌, ◌≤◌, ◌<◌, ◌≡◌, refl, ap, Bool, not, Option, none, some, List, [], ◌∷◌, arith, length,
  All-append, sym, subst, get_elem?-lt, false, true, ◌++◌,
}
use rqmd.Text.{Bytes, Run, ok}
use rqmd.Query.{parse_query}
use rqmd.Store.{pure, Holds, Ensures, Ensures-bind, Scope, Env}
use rqmd.Store.Sections.{Section}
use rqmd.Store.Scope.{effective_collections}
use rqmd.Store.Picks.{Pick}
use rqmd.Store.Ordered.{AreNumbers}
use rqmd.Store.Below.{BelowDocs, IsWithin, ranked_results-IsWithin}
use rqmd.Store.Retrieve.{newline_text, retrieve_ranked_lists}
use rqmd.Store.Lockstep.{behind_any}
use rqmd.Store.Rerank.{
  Candidate, fuse_and_resolve_candidates, Scores, RerankStatus, select_sections, rerank_chunks,
  behind_intent, chunk_refs,
}
use rqmd.Store.Assemble.{
  blended, candidate_picks, all_picks, pick_docs, factor_at, assemble_results,
}
use rqmd.Store.Search.{
  recency_factors, SearchOptions, QueryOutcome, clamp_per_file, rank_sections, finish, factors_if,
  no_results, rank_candidates, query_in, check_if, fetch_size_of, hybrid_query_outcome_with,
  or_intent,
}

-- There is a factor for each candidate, if there are factors.
abbrev HasFactors : {F : Type 0} → ℕ → Option (List F) → Type 0
HasFactors n none = Unit
HasFactors n (some factors) = length factors ≡ n

-- Picks whose documents are there, without a panic.
abbrev Placed : {F : Type 0} → ℕ → Run (List (Pick F)) → Type 0
Placed {F} n r = (ps : List (Pick F)) × (r ≡ ok ps) × BelowDocs n ps

module _ {W F V X : Type 0} (env : Env W F V X) where
  factor_at-lt :
      (recency : Option (List F)) (n i : ℕ)
      → HasFactors n recency
      → i < n
      → (x : F) × (factor_at env recency i ≡ ok x)
  unfolding factor_at
  factor_at-lt none n i h l = (env.scores.one, refl)
  factor_at-lt (some factors) n i h l =
      let (x, e) = get_elem?-lt i factors (omega (arith, h, l)) in (x, rw (e, factor_at) refl)

  candidate_picks-Placed :
      (scores : Option (List F)) (x : F) (filepath : Bytes) (rrf_score : F) (doc rank next : ℕ)
      (ss : List Section) (n : ℕ)
      → doc < n
      → Placed n (candidate_picks env scores (ok x) filepath rrf_score doc rank next ss)
  unfolding candidate_picks
  candidate_picks-Placed scores x filepath rrf_score doc rank next [] n h = ([], refl, tt)
  candidate_picks-Placed scores x filepath rrf_score doc rank next (s ∷ ss) n h =
      let (ps, e, k) =
        candidate_picks-Placed scores x filepath rrf_score doc (suc rank) (suc next) ss n h in
      (
        record {
          filepath = filepath;
          doc = doc;
          rank = rank;
          score = env.times (blended env scores next rrf_score) x;
          chunk = s;
        }
            ∷ ps,
        rw (e, candidate_picks) refl,
        (h, k),
      )

  all_picks-Placed :
      (scores recency : Option (List F)) (doc next : ℕ) (cs : List (Candidate F))
      (sections : List (List Section)) (n : ℕ)
      → doc + length cs ≤ n
      → HasFactors n recency
      → Placed n (all_picks env scores recency doc next cs sections)
  unfolding all_picks
  all_picks-Placed scores recency doc next [] sections n h k = ([], refl, tt)
  all_picks-Placed scores recency doc next (c ∷ cs) [] n h k = ([], refl, tt)
  all_picks-Placed scores recency doc next (c ∷ cs) (s ∷ ss) n h k =
      let (x, e) = factor_at-lt recency n doc k (omega arith) in
      let (ps, q, b) =
        candidate_picks-Placed scores x c.result.filepath c.result.backend_score doc 0 next s n
          (omega arith) in
      let (rest, r, d) =
        all_picks-Placed scores recency (suc doc) (next + length s) cs ss n (omega arith) k in
      (ps ++ rest, rw (e, q, r, all_picks) refl, All-append (λ p. p.doc < n) ps rest b d)

  length-pick_docs : (cs : List (Candidate F)) → length (pick_docs env cs) ≡ length cs
  unfolding pick_docs
  length-pick_docs [] = refl
  length-pick_docs (c ∷ cs) = ap suc (length-pick_docs cs)

-- At most so many results, and no panic.
abbrev pub IsLimited : {F : Type 0} → ℕ → QueryOutcome F → Type 0
IsLimited limit o = IsWithin limit o.results

module _ {W F V X : Type 0} (env : Env W F V X) where
  recency_factors-all :
      (now : ℕ) (cands : List (Candidate F))
      → Ensures (λ fs. length fs ≡ length cands) (recency_factors env now cands)
  unfolding recency_factors pure
  recency_factors-all now [] = λ w. refl
  recency_factors-all now (c ∷ cs) =
      behind_any (λ fs. length fs ≡ suc (length cs)) _ _
        (λ factor.
          Ensures-bind (λ fs. length fs ≡ length cs) (λ fs. length fs ≡ suc (length cs)) _ _
            (recency_factors-all now cs) (λ rest k w. ap suc k))

  factors_if-HasFactors :
      (recency : Bool) (cands : List (Candidate F))
      → Ensures (HasFactors (length cands)) (factors_if env recency cands)
  unfolding factors_if pure
  factors_if-HasFactors false cands w = tt
  factors_if-HasFactors true cands w =
      Ensures-bind (λ fs. length fs ≡ length cands) (HasFactors (length cands))
        (recency_factors env (env.now w) cands) _ (recency_factors-all (env.now w) cands)
        (λ fs k w'. k) w

module _ {W F V X : Type 0} (env : Env W F V X) (numbers : AreNumbers env.scores) (limit : ℕ) where
  assemble_results-IsLimited :
      (cands : List (Candidate F)) (sections : List (List Section))
      (scores recency : Option (List F)) (w : W) (status : RerankStatus)
      → HasFactors (length cands) recency
      → IsLimited limit (record {
        results = assemble_results env cands sections scores recency limit w;
        rerank = status;
      })
  unfolding assemble_results
  assemble_results-IsLimited cands sections scores recency w status h =
      let (picks, e, below) =
        all_picks-Placed env scores recency 0 0 cands sections (length cands) (omega arith) h in
      rw (e, assemble_results)
        (ranked_results-IsWithin env.scores
          (λ collection path. env.context_for_path collection path w) numbers (pick_docs env cands)
          picks limit (subst (λ n. BelowDocs n picks) (sym (length-pick_docs env cands)) below))

  finish-IsLimited :
      (cands : List (Candidate F)) (sections : List (List Section)) (recency : Bool)
      (r : Scores F × W)
      → Holds (IsLimited limit) (finish env cands sections recency limit r).0
  unfolding finish
  finish-IsLimited cands sections recency (scores, w) =
      Ensures-bind (HasFactors (length cands)) (IsLimited limit) (factors_if env recency cands) _
        (factors_if-HasFactors env recency cands)
        (λ factors h w'.
          assemble_results-IsLimited cands sections scores.rerank_scores factors w' scores.status h)
        w

  rank_sections-IsLimited :
      (query : Bytes) (intent : Option Bytes) (skip strict : Bool) (options : SearchOptions)
      (cands : List (Candidate F))
      → Ensures (IsLimited limit) (rank_sections env query intent limit skip strict options cands)
  unfolding rank_sections
  rank_sections-IsLimited query intent skip strict options cands w =
      let sections = select_sections env query intent cands (clamp_per_file options.per_file) in
      finish-IsLimited cands sections options.recency (
        rerank_chunks env (behind_intent newline_text intent query) (chunk_refs sections) skip
          (not strict) w)

  rank_candidates-IsLimited :
      (query : Bytes) (intent : Option Bytes) (skip strict : Bool) (options : SearchOptions)
      (cands : List (Candidate F))
      → Ensures (IsLimited limit) (rank_candidates env query intent limit skip strict options cands)
  unfolding rank_candidates no_results pure
  rank_candidates-IsLimited query intent skip strict options [] = λ w. ([], refl, omega arith)
  rank_candidates-IsLimited query intent skip strict options (c ∷ cs) =
      behind_any (IsLimited limit) (check_if env strict) _
        (λ checked. rank_sections-IsLimited query intent skip strict options (c ∷ cs))

  query_in-IsLimited :
      (query : Bytes) (intent : Option Bytes) (skip no_expand strict : Bool)
      (options : SearchOptions) (scope : Scope)
      → Ensures
          (IsLimited limit)
          (query_in env query intent limit skip no_expand strict options scope)
  unfolding query_in no_results pure
  query_in-IsLimited query intent skip no_expand strict options (some []) =
      λ w. ([], refl, omega arith)
  query_in-IsLimited query intent skip no_expand strict options none =
      behind_any (IsLimited limit)
        (retrieve_ranked_lists env (fetch_size_of limit) none (parse_query query) intent query
          no_expand)
        _
        (λ ranked.
          behind_any (IsLimited limit)
            (fuse_and_resolve_candidates env ranked (fetch_size_of limit)) _
            (λ cands. rank_candidates-IsLimited query intent skip strict options cands))
  query_in-IsLimited query intent skip no_expand strict options (some (n ∷ ns)) =
      behind_any (IsLimited limit)
        (retrieve_ranked_lists env (fetch_size_of limit) (some (n ∷ ns)) (parse_query query) intent
          query no_expand)
        _
        (λ ranked.
          behind_any (IsLimited limit)
            (fuse_and_resolve_candidates env ranked (fetch_size_of limit)) _
            (λ cands. rank_candidates-IsLimited query intent skip strict options cands))

pub hybrid_query_outcome_with-IsLimited :
    {W F V X : Type 0} (env : Env W F V X) (numbers : AreNumbers env.scores) (query : Bytes)
    (intent : Option Bytes) (limit : ℕ) (collections : Scope) (skip_rerank no_expand strict : Bool)
    (options : SearchOptions)
    → Ensures (IsLimited limit) (
        hybrid_query_outcome_with env query intent limit collections skip_rerank no_expand strict
          options)
unfolding hybrid_query_outcome_with
hybrid_query_outcome_with-IsLimited env numbers query intent limit collections skip_rerank no_expand
      strict options =
    behind_any (IsLimited limit) (effective_collections env collections) _ (λ scope.
      query_in-IsLimited env numbers limit query (or_intent (parse_query query).intent intent)
        skip_rerank no_expand strict options scope)
