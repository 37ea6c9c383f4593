-- ===== src/Store/Similar.antt =====
-- crates/rqmd-core/src/store.rs: the search for documents like an indexed one.
use rqmd.Common.{
  ℕ, ◌+◌, ◌*◌, Bool, true, false, Option, none, some, List, [], ◌∷◌, ◌++◌, length, take, min, max,
  if◌then◌else◌, sort_by,
}
use rqmd.Text.{Bytes, bytes_eq}
use rqmd.Rrf.{less, equal, greater, unordered, score_desc_then_path}
use rqmd.Resolve.{Document}
use rqmd.Store.{failed, Op, pure, ◌>>=◌, Env}
use rqmd.Store.Picks.{SearchResult}
use rqmd.Store.Scope.{filepath_of}
use rqmd.Store.Rerank.{body_of}
use rqmd.Store.Keyword.{result_from_doc}

abbrev pub similar_max_chunks : ℕ
similar_max_chunks = 8

-- An entry of the map `by_doc`: the best similarity of a path, and its document.
pub record Best (F : Type 0) : Type 0 where
  pub filepath : Bytes
  pub sim : F
  pub document : Document

module _ {W F V X : Type 0} (env : Env W F V X) where
  -- `sim > existing_sim`
  unfoldable pub exceeds : F → F → Bool
  exceeds a b = elim (env.scores.partial_cmp a b) [
    | less ↦ false
    | equal ↦ false
    | greater ↦ true
    | unordered ↦ false
  ]

  unfoldable pub keep_best : Best F → List (Best F) → List (Best F)
  unfolding exceeds
  keep_best b [] = b ∷ []
  keep_best b (c ∷ cs) =
      let rest = keep_best b cs in
      if bytes_eq c.filepath b.filepath
      then (if exceeds b.sim c.sim then b ∷ cs else c ∷ cs)
      else c ∷ rest

  unfoldable pub add_similar : Bytes → Option (Document × ℕ) → F → List (Best F) → List (Best F)
  unfolding keep_best filepath_of
  add_similar source none sim by_doc = by_doc
  add_similar source (some (doc, pos)) sim by_doc =
      if bytes_eq (filepath_of doc) source
      then by_doc
      else keep_best (record { filepath = filepath_of doc; sim = sim; document = doc }) by_doc

  unfoldable pub similar_hits : Bytes → X → List (ℕ × F) → List (Best F) → Op W (List (Best F))
  unfolding add_similar ◌>>=◌ pure
  similar_hits source exclusions [] by_doc = pure by_doc
  similar_hits source exclusions ((vid, sim) ∷ hits) by_doc =
      env.doc_chunk_for_vid vid none exclusions >>= λ found.
      similar_hits source exclusions hits (add_similar source found sim by_doc)

  unfoldable pub best_before : Best F → Best F → Bool
  unfolding score_desc_then_path
  best_before a b = score_desc_then_path env.scores a.sim a.filepath b.sim b.filepath

  -- The sort where it returns, as it does if all scores compare.
  unfoldable pub sort_best : List (Best F) → List (Best F)
  unfolding best_before
  sort_best = sort_by best_before

  unfoldable pub show_best : List (Best F) → Op W (List (SearchResult F))
  unfolding body_of result_from_doc ◌>>=◌ pure
  show_best [] = pure []
  show_best (b ∷ bs) = env.document_raw b.document.id >>= λ raw w.
      (show_best bs >>= λ rest.
      pure (result_from_doc env b.document (body_of env raw) b.sim w ∷ rest))
        w

  -- The stored vectors: of a content, and of an id.
  module _ (vids_for_hash : Bytes → Op W (List ℕ)) (get_vector : ℕ → Op W V) where
    unfoldable pub similar_vids : Bytes → X → ℕ → List ℕ → List (Best F) → Op W (List (Best F))
    unfolding similar_hits ◌>>=◌ pure
    similar_vids source exclusions k [] by_doc = pure by_doc
    similar_vids source exclusions k (vid ∷ vids) by_doc = get_vector vid >>= λ embedding.
        env.hnsw_search embedding k >>= λ hits.
        similar_hits source exclusions hits by_doc >>= λ more.
        similar_vids source exclusions k vids more

    -- The search behind the guard, for vectors that are not too many.
    unfoldable pub similar_in : Bytes → ℕ → List ℕ → Op W (List (SearchResult F))
    unfolding similar_vids sort_best show_best ◌>>=◌
    similar_in source limit vids w =
        (env.load_exclusions >>= λ exclusions.
        similar_vids source exclusions
          (min (max (limit * 4 + length vids) (limit + 1)) (max (env.hnsw_size w) 1)) vids []
        >>= λ by_doc. show_best (take limit (sort_best by_doc)))
          w

    unfoldable pub similar_from : Bytes → ℕ → List ℕ → Op W (List (SearchResult F))
    unfolding similar_in
    similar_from source limit [] w = (failed, w)
    similar_from source limit (vid ∷ vids) w =
        similar_in source limit (take similar_max_chunks (vid ∷ vids)) w

    unfoldable pub similar_to_hash : Bytes → Bytes → Bytes → ℕ → Op W (List (SearchResult F))
    unfolding similar_from ◌>>=◌
    similar_to_hash hash source_collection source_path limit =
        vids_for_hash hash >>= similar_from (source_collection ++ b'/' ∷ source_path) limit
