-- ===== src/Store/Search.antt =====
-- crates/rqmd-core/src/store.rs: keyword search and the hybrid query.
use rqmd.Common.{ℕ, ◌*◌, Bool, true, false, not, Option, none, some, List, [], ◌∷◌, min, max}
use rqmd.Text.{Bytes, Run, ok, codes}
use rqmd.Query.{parse_query}
use rqmd.Store.{Result, done, Op, pure, ◌>>=◌, Scope, Env}
use rqmd.Store.Sections.{Section}
use rqmd.Store.Scope.{effective_collections}
use rqmd.Store.Picks.{SearchResult}
use rqmd.Store.Retrieve.{retrieve_ranked_lists, newline_text}
use rqmd.Store.Recency.{recency_factor}
use rqmd.Store.Assemble.{assemble_results}
use rqmd.Store.Rerank.{
  Candidate, rerank_candidate_limit, rerank_pool_ceiling, RerankStatus, not_run, behind_intent,
  Scores, chunk_refs, fuse_and_resolve_candidates, select_sections, rerank_chunks,
}

abbrev pub max_per_file : ℕ
max_per_file = 5

unfoldable pub clamp_per_file : ℕ → ℕ
clamp_per_file per_file = min (max per_file 1) max_per_file

-- The recency setting is in `env.factor`; here is whether there is one.
pub record SearchOptions : Type 0 where
  pub per_file : ℕ
  pub recency : Bool

-- The results are a run, since building them may panic.
pub record QueryOutcome (F : Type 0) : Type 0 where
  pub results : Run (List (SearchResult F))
  pub rerank : RerankStatus

-- The size of the candidate pool for a limit.
unfoldable pub fetch_size_of : ℕ → ℕ
fetch_size_of limit = min (max (limit * 2) rerank_candidate_limit) rerank_pool_ceiling

unfoldable pub or_intent : Option Bytes → Option Bytes → Option Bytes
or_intent none intent = intent
or_intent (some i) intent = some i

module _ {W F V X : Type 0} (env : Env W F V X) where
  unfoldable pub no_results : Op W (QueryOutcome F)
  unfolding pure
  no_results = pure (record { results = ok []; rerank = not_run })

  -- At the time `now`.
  unfoldable pub recency_factors : ℕ → List (Candidate F) → Op W (List F)
  unfolding recency_factor ◌>>=◌ pure
  recency_factors now [] = pure []
  recency_factors now (c ∷ cs) = recency_factor env now c.result.filepath >>= λ factor.
      recency_factors now cs >>= λ rest. pure (factor ∷ rest)

  unfoldable pub factors_if : Bool → List (Candidate F) → Op W (Option (List F))
  unfolding recency_factors ◌>>=◌ pure
  factors_if true cands w = (recency_factors (env.now w) cands >>= λ factors. pure (some factors)) w
  factors_if false cands w = pure none w

  -- From the rerank on; `scores` are what the rerank leaves.
  unfoldable pub finish :
      List (Candidate F)
      → List (List Section)
      → Bool
      → ℕ
      → Scores F × W
      → Result (QueryOutcome F) × W
  unfolding factors_if assemble_results ◌>>=◌
  finish cands sections recency limit (scores, w) =
      (factors_if recency cands >>= λ factors w'. (
        done (record {
          results = assemble_results env cands sections scores.rerank_scores factors limit w';
          rerank = scores.status;
        }),
        w',
      ))
        w

  unfoldable pub check_if : Bool → Op W Unit
  unfolding pure
  check_if true = env.check (codes "rerank")
  check_if false = pure tt

  unfoldable pub rank_sections :
      Bytes
      → Option Bytes
      → ℕ
      → Bool
      → Bool
      → SearchOptions
      → List (Candidate F)
      → Op W (QueryOutcome F)
  unfolding select_sections rerank_chunks finish
  rank_sections query intent limit skip_rerank strict options cands w =
      let sections = select_sections env query intent cands (clamp_per_file options.per_file) in
      finish cands sections options.recency limit (
        rerank_chunks env (behind_intent newline_text intent query) (chunk_refs sections)
          skip_rerank (not strict) w)

  unfoldable pub rank_candidates :
      Bytes
      → Option Bytes
      → ℕ
      → Bool
      → Bool
      → SearchOptions
      → List (Candidate F)
      → Op W (QueryOutcome F)
  unfolding no_results check_if rank_sections ◌>>=◌
  rank_candidates query intent limit skip_rerank strict options [] = no_results
  rank_candidates query intent limit skip_rerank strict options (c ∷ cs) =
      check_if strict >>= λ checked.
      rank_sections query intent limit skip_rerank strict options (c ∷ cs)

  -- From the scope on; none of the collections is no result.
  unfoldable pub query_in :
      Bytes → Option Bytes → ℕ → Bool → Bool → Bool → SearchOptions → Scope → Op W (QueryOutcome F)
  unfolding no_results retrieve_ranked_lists fuse_and_resolve_candidates rank_candidates ◌>>=◌
  query_in query intent limit skip_rerank no_expand strict options (some []) = no_results
  query_in query intent limit skip_rerank no_expand strict options none =
      retrieve_ranked_lists env (fetch_size_of limit) none (parse_query query) intent query
        no_expand
      >>= λ ranked. fuse_and_resolve_candidates env ranked (fetch_size_of limit) >>= λ cands.
          rank_candidates query intent limit skip_rerank strict options cands
  query_in query intent limit skip_rerank no_expand strict options (some (n ∷ ns)) =
      retrieve_ranked_lists env (fetch_size_of limit) (some (n ∷ ns)) (parse_query query) intent
        query no_expand
      >>= λ ranked. fuse_and_resolve_candidates env ranked (fetch_size_of limit) >>= λ cands.
          rank_candidates query intent limit skip_rerank strict options cands

  unfoldable pub hybrid_query_outcome_with :
      Bytes → Option Bytes → ℕ → Scope → Bool → Bool → Bool → SearchOptions → Op W (QueryOutcome F)
  unfolding effective_collections query_in or_intent ◌>>=◌
  hybrid_query_outcome_with query intent limit collections skip_rerank no_expand strict options =
      effective_collections env collections >>= λ scope.
      query_in query (or_intent (parse_query query).intent intent) limit skip_rerank no_expand
        strict options scope
