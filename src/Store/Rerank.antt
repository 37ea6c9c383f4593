-- ===== src/Store/Rerank.antt =====
-- crates/rqmd-core/src/store.rs: the fusion of a query's lists, the sections that are reranked, and the rerank.
use rqmd.Common.{
  ℕ, ◌+◌, ◌-◌, Bool, false, not, ◌&&◌, ◌||◌, Option, none, some, List, [], ◌∷◌, ◌++◌, ltb, ◌==◌,
  length, take, if◌then◌else◌, min,
}
use rqmd.Text.{Bytes, codes}
use rqmd.Resolve.{Document}
use rqmd.Rrf.{RankedResult, rrf_weights, reciprocal_rank_fusion}
use rqmd.Store.{Result, done, timed_out, failed, Op, pure, ◌>>=◌, Env}
use rqmd.Store.Sections.{Section, best_chunks}
use rqmd.Store.Picks.{split_filepath}
use rqmd.Store.Retrieve.{Ranked}

abbrev pub rerank_candidate_limit : ℕ
rerank_candidate_limit = 20

abbrev pub rerank_pool_ceiling : ℕ
rerank_pool_ceiling = 100

-- How the rerank ended.
pub data RerankStatus : Type 0 where
  reranked : RerankStatus
  not_run : RerankStatus
  unsupported : RerankStatus
  rerank_failed : RerankStatus
  deadline_expired : RerankStatus

unfoldable pub notice : RerankStatus → Option Bytes
notice unsupported = some (
    codes "results were not reranked: the active inference backend does not support "
    ++ codes "reranking, so they are in keyword and vector fusion order")
notice rerank_failed = some (
    codes "results were not reranked: the rerank model failed, so they are in keyword "
    ++ codes "and vector fusion order")
notice deadline_expired = some (
    codes "results were not reranked: the time limit was reached, so they are in keyword "
    ++ codes "and vector fusion order")
notice reranked = none
notice not_run = none

-- A fused result with the hash and the body of its document.
pub record Candidate (F : Type 0) : Type 0 where
  pub result : RankedResult F
  pub hash : Bytes
  pub body : Bytes

-- The text behind the intent, for the reranker and for the terms.
unfoldable pub behind_intent : Bytes → Option Bytes → Bytes → Bytes
behind_intent separator none query = query
behind_intent separator (some i) query = i ++ separator ++ query

unfoldable pub long_words : List Bytes → List Bytes
long_words [] = []
long_words (w ∷ ws) = let rest = long_words ws in if ltb 2 (length w) then w ∷ rest else rest

unfoldable pub texts_of : List Section → List Bytes
texts_of [] = []
texts_of ((text, pos) ∷ rest) = text ∷ texts_of rest

-- `sections.iter().flatten().map(|(t, _)| t)`
unfoldable pub chunk_refs : List (List Section) → List Bytes
unfolding texts_of
chunk_refs [] = []
chunk_refs (s ∷ ss) = texts_of s ++ chunk_refs ss

-- What the rerank leaves: one score for each chunk, or none, and how it ended.
pub record Scores (F : Type 0) : Type 0 where
  pub rerank_scores : Option (List F)
  pub status : RerankStatus

module _ {W F V X : Type 0} (env : Env W F V X) where
  unfoldable pub body_of : Option Bytes → Bytes
  body_of none = []
  body_of (some raw) = raw

  unfoldable pub with_body : Option Document → Op W (Option (Document × Bytes))
  unfolding body_of ◌>>=◌ pure
  with_body none = pure none
  with_body (some doc) = env.document_raw doc.id >>= λ raw. pure (some (doc, body_of raw))

  unfoldable pub filepath_to_doc_body : Bytes → Op W (Option (Document × Bytes))
  unfolding split_filepath with_body ◌>>=◌
  filepath_to_doc_body filepath =
      env.document_by_filepath (split_filepath filepath).0 (split_filepath filepath).1 >>= with_body

  unfoldable pub add_candidate :
      RankedResult F → Option (Document × Bytes) → List (Candidate F) → List (Candidate F)
  add_candidate cand none rest = rest
  add_candidate cand (some (doc, body)) rest =
      record { result = cand; hash = doc.hash; body = body } ∷ rest

  unfoldable pub resolve_candidates : List (RankedResult F) → Op W (List (Candidate F))
  unfolding filepath_to_doc_body add_candidate ◌>>=◌ pure
  resolve_candidates [] = pure []
  resolve_candidates (cand ∷ cands) = filepath_to_doc_body cand.filepath >>= λ found.
      resolve_candidates cands >>= λ rest. pure (add_candidate cand found rest)

  unfoldable pub fuse_and_resolve_candidates : Ranked F → ℕ → Op W (List (Candidate F))
  unfolding resolve_candidates
  fuse_and_resolve_candidates ranked fetch_size = resolve_candidates (
      take fetch_size (
        reciprocal_rank_fusion env.scores ranked.ranked_lists
          (rrf_weights env.scores ranked.list_meta)))

  -- The sections of each candidate; `budget` is what is left for sections past a file's best one.
  unfoldable pub choose_sections : List Bytes → ℕ → ℕ → List (Candidate F) → List (List Section)
  unfolding best_chunks
  choose_sections terms per_file budget [] = []
  choose_sections terms per_file budget (c ∷ cs) =
      let picked =
        best_chunks env.to_lowercase (env.chunk_document_for_path c.result.filepath c.body) terms
          (1 + min (per_file - 1) budget) in
      picked ∷ choose_sections terms per_file (budget - (length picked - 1)) cs

  unfoldable pub select_sections :
      Bytes → Option Bytes → List (Candidate F) → ℕ → List (List Section)
  unfolding choose_sections behind_intent long_words
  select_sections query intent cands per_file =
      choose_sections
        (long_words
          (env.split_whitespace (env.to_lowercase (behind_intent (codes " ") intent query))))
        per_file (rerank_pool_ceiling - length cands) cands

  unfoldable pub any_finite : List F → Bool
  any_finite [] = false
  any_finite (s ∷ ss) = env.is_finite s || any_finite ss

  -- The match on the answer of the reranker for `total` chunks.
  unfoldable pub usable_scores : ℕ → Result (Option (List F)) → Scores F
  unfolding any_finite
  usable_scores total (done (some scores)) =
      if length scores == total && any_finite scores
      then record { rerank_scores = some scores; status = reranked }
      else record { rerank_scores = none; status = rerank_failed }
  usable_scores total (done none) = record { rerank_scores = none; status = deadline_expired }
  usable_scores total (timed_out stage) = record { rerank_scores = none; status = rerank_failed }
  usable_scores total failed = record { rerank_scores = none; status = rerank_failed }

  unfoldable pub remember : Bytes → List Bytes → Option (List F) → W → W
  remember rerank_query chunks none w = w
  remember rerank_query chunks (some scores) w =
      env.remember_rerank_scores rerank_query chunks scores w

  unfoldable pub after_rerank : Bytes → List Bytes → Result (Option (List F)) × W → Scores F × W
  unfolding usable_scores remember
  after_rerank rerank_query chunks (answer, w) =
      let scores = usable_scores (length chunks) answer in
      (scores, remember rerank_query chunks scores.rerank_scores w)

  -- `soft` is whether there is a soft deadline.
  unfoldable pub rerank_chunks : Bytes → List Bytes → Bool → Bool → W → Scores F × W
  unfolding after_rerank
  rerank_chunks rerank_query chunks skip_rerank soft w =
      if skip_rerank
      then (record { rerank_scores = none; status = not_run }, w)
      else if not env.can_rerank
      then (record { rerank_scores = none; status = unsupported }, w)
      else after_rerank rerank_query chunks (env.rerank_cached rerank_query chunks soft w)
