-- ===== src/Store/Scope.antt =====
-- crates/rqmd-core/src/store.rs: the collections that a query searches, and the searches within them.
use rqmd.Common.{
  ℕ, zero, suc, ◌*◌, Bool, true, ◌&&◌, ◌||◌, Option, none, some, List, [], ◌∷◌, ◌++◌, leb,
  if◌then◌else◌, length, min,
}
use rqmd.Text.{Bytes}
use rqmd.EmbedExclusion.{Collection}
use rqmd.Rrf.{RankedResult}
use rqmd.Resolve.{Document}
use rqmd.Store.{failed, Op, pure, ◌>>=◌, Hit, Scope, Env}

unfoldable pub included_names : List Collection → List Bytes
included_names [] = []
included_names (c ∷ cs) =
    let rest = included_names cs in if c.include_by_default then c.name ∷ rest else rest

unfoldable pub all_included : List Collection → Bool
all_included [] = true
all_included (c ∷ cs) = c.include_by_default && all_included cs

unfoldable pub default_scope : List Collection → Scope
unfolding included_names all_included
default_scope all = if all_included all then none else some (included_names all)

unfoldable pub filepath_of : Document → Bytes
filepath_of doc = doc.collection ++ b'/' ∷ doc.path

-- The loops of `search_vec_scoped` and `search_vec_multi_with`: a round searches for `k` vectors, and `size` counts what it found.
module _ {W A : Type 0} (round : ℕ → Op W A) (size : A → ℕ) (wanted total : ℕ) where
  unfoldable pub enough : ℕ → A → Bool
  enough k found = leb wanted (size found) || leb total k

  -- `none` is the end of the fuel.
  unfoldable pub widen : ℕ → ℕ → Op W (Option A)
  unfolding enough ◌>>=◌ pure
  widen zero k = pure none
  widen (suc fuel) k = round k >>= λ found.
      if enough k found then pure (some found) else widen fuel (min (k * 2) total)

unfoldable pub or_failed : {W A : Type 0} → Option A → Op W A
unfolding pure
or_failed none w = (failed, w)
or_failed (some found) w = pure found w

module _ {W F V X : Type 0} (env : Env W F V X) where
  unfoldable pub effective_collections : Scope → Op W Scope
  unfolding default_scope ◌>>=◌ pure
  effective_collections (some (c ∷ cs)) = pure (some (c ∷ cs))
  effective_collections (some []) = env.list_collections >>= λ all. pure (default_scope all)
  effective_collections none = env.list_collections >>= λ all. pure (default_scope all)

  unfoldable pub fts_scoped : Bytes → ℕ → Scope → Op W (List (Hit F))
  unfolding ◌>>=◌
  fts_scoped query limit (some (c ∷ cs)) = env.active_document_ids (c ∷ cs) >>= λ ids.
      env.search_fts_scoped query limit (some (c ∷ cs)) (some ids)
  fts_scoped query limit (some []) = env.search_fts_scoped query limit (some []) none
  fts_scoped query limit none = env.search_fts_scoped query limit none none

  unfoldable pub rank_hit :
      Option (Document × ℕ) → F → List (RankedResult F) → List (RankedResult F)
  unfolding filepath_of
  rank_hit none sim results = results
  rank_hit (some (doc, pos)) sim results =
      record { filepath = filepath_of doc; title = doc.title; backend_score = sim } ∷ results

  unfoldable pub vec_hits_to_ranked : List (ℕ × F) → Scope → X → Op W (List (RankedResult F))
  unfolding rank_hit ◌>>=◌ pure
  vec_hits_to_ranked [] scope exclusions = pure []
  vec_hits_to_ranked ((vid, sim) ∷ hits) scope exclusions =
      env.doc_chunk_for_vid vid scope exclusions >>= λ found.
      vec_hits_to_ranked hits scope exclusions >>= λ results. pure (rank_hit found sim results)

  -- What the loop of `search_vec_scoped` does in a round.
  unfoldable pub ranked_round : V → Scope → X → ℕ → Op W (List (RankedResult F))
  unfolding vec_hits_to_ranked ◌>>=◌
  ranked_round embedding scope exclusions k =
      env.hnsw_search embedding k >>= λ hits. vec_hits_to_ranked hits scope exclusions

  -- `k` doubles up to the count of the vectors, so as many rounds as that count and two are enough.
  unfoldable pub search_vec_scoped : V → ℕ → Scope → Op W (List (RankedResult F))
  unfolding ranked_round widen or_failed ◌>>=◌
  search_vec_scoped embedding fetch_size scope w =
      (env.load_exclusions >>= λ exclusions.
      widen (ranked_round embedding scope exclusions) length fetch_size (env.hnsw_size w)
        (suc (suc (env.hnsw_size w))) fetch_size
      >>= or_failed)
        w
