-- ===== src/Store/Keyword.antt =====
-- crates/rqmd-core/src/store.rs: the keyword search.
use rqmd.Common.{
  ℕ, suc, Bool, true, false, Option, none, some, List, [], ◌∷◌, ◌++◌, ◌==◌, length, take,
  if◌then◌else◌,
}
use rqmd.Text.{Bytes, Run, ok, codes}
use rqmd.Resolve.{Document}
use rqmd.Rrf.{score_desc_then_path}
use rqmd.Store.{done, run_then, Op, pure, ◌>>=◌, Hit, Scope, Env}
use rqmd.Store.Sections.{Section, best_chunks, keyword_terms}
use rqmd.Store.Ordered.{sort_scores}
use rqmd.Store.Scope.{effective_collections, fts_scoped, filepath_of}
use rqmd.Store.Picks.{Pick, PickDoc, SearchResult, docid_from_hash, recency_pool, ranked_results}
use rqmd.Store.Rerank.{with_body}
use rqmd.Store.Recency.{recency_factor}
use rqmd.Store.Search.{SearchOptions, clamp_per_file}

module _ {W F V X : Type 0} (env : Env W F V X) where
  unfoldable pub hit_before : Hit F → Hit F → Bool
  unfolding score_desc_then_path
  hit_before a b = score_desc_then_path env.scores a.score a.filepath b.score b.filepath

  unfoldable pub sort_hits : List (Hit F) → Run (List (Hit F))
  unfolding hit_before sort_scores
  sort_hits = sort_scores env.scores (λ h. h.score) hit_before

  unfoldable pub scale_hits : ℕ → List (Hit F) → Op W (List (Hit F))
  unfolding recency_factor ◌>>=◌ pure
  scale_hits now [] = pure []
  scale_hits now (h ∷ hs) = recency_factor env now h.filepath >>= λ factor.
      scale_hits now hs >>= λ rest. pure (record h { score = env.times h.score factor } ∷ rest)

  unfoldable pub weight_hits : List (Hit F) → Op W (Run (List (Hit F)))
  unfolding scale_hits sort_hits ◌>>=◌ pure
  weight_hits hits w = (scale_hits (env.now w) hits >>= λ scaled. pure (sort_hits scaled)) w

  unfoldable pub result_from_doc : Document → Bytes → F → W → SearchResult F
  unfolding filepath_of docid_from_hash
  result_from_doc doc body score w = record {
    file = codes "rqmd://" ++ filepath_of doc;
    title = doc.title;
    body = body;
    best_chunk = env.first_chunk body;
    best_chunk_pos = 0;
    score = score;
    docid = docid_from_hash doc.hash;
    collection = doc.collection;
    path = doc.path;
    context = env.context_for_path doc.collection doc.path w;
  }

  -- The document of a hit, with its text.
  unfoldable pub hydrate : ℕ → Op W (Option (Document × Bytes))
  unfolding with_body ◌>>=◌
  hydrate doc_id = env.document_by_id doc_id >>= with_body env

  unfoldable pub add_shown :
      Option (Document × Bytes) → F → W → List (SearchResult F) → List (SearchResult F)
  unfolding result_from_doc
  add_shown none score w rest = rest
  add_shown (some (doc, body)) score w rest = result_from_doc doc body score w ∷ rest

  unfoldable pub hits_to_results : List (Hit F) → Op W (List (SearchResult F))
  unfolding hydrate add_shown ◌>>=◌ pure
  hits_to_results [] = pure []
  hits_to_results (h ∷ hs) = hydrate h.doc_id >>= λ found w.
      (hits_to_results hs >>= λ rest. pure (add_shown found h.score w rest)) w

  unfoldable pub section_picks : Bytes → ℕ → F → ℕ → List Section → List (Pick F)
  section_picks filepath doc score rank [] = []
  section_picks filepath doc score rank (chunk ∷ chunks) =
      record { filepath = filepath; doc = doc; rank = rank; score = score; chunk = chunk }
      ∷ section_picks filepath doc score (suc rank) chunks

  -- A hit's document and its picks, behind those so far.
  unfoldable pub add_hit :
      List Bytes
      → ℕ
      → Option (Document × Bytes)
      → F
      → List PickDoc × List (Pick F)
      → List PickDoc × List (Pick F)
  unfolding section_picks best_chunks filepath_of
  add_hit terms per_file none score g = g
  add_hit terms per_file (some (doc, body)) score (docs, picks) = (
    docs ++ record { title = doc.title; hash = doc.hash; body = body } ∷ [],
    picks
        ++ section_picks (filepath_of doc) (length docs) score 0 (
            best_chunks env.to_lowercase (env.chunk_document_for_path (filepath_of doc) body) terms
              per_file),
  )

  -- The loop over the hits.
  unfoldable pub hit_picks :
      List Bytes
      → ℕ
      → List (Hit F)
      → List PickDoc × List (Pick F)
      → Op W (List PickDoc × List (Pick F))
  unfolding hydrate add_hit ◌>>=◌ pure
  hit_picks terms per_file [] g = pure g
  hit_picks terms per_file (h ∷ hs) g = hydrate h.doc_id >>= λ found.
      hit_picks terms per_file hs (add_hit terms per_file found h.score g)

  unfoldable pub hits_to_sections :
      List (Hit F) → Bytes → ℕ → ℕ → Op W (Run (List (SearchResult F)))
  unfolding hit_picks keyword_terms ranked_results ◌>>=◌
  hits_to_sections hits query limit per_file =
      hit_picks (keyword_terms env.to_lowercase env.split_whitespace query) per_file
        (take limit hits) ([], [])
      >>= λ r w. (
        done (
            ranked_results (λ collection path. env.context_for_path collection path w) env.scores
              r.0 r.1 limit),
        w,
      )

  unfoldable pub keyword_hits : Bytes → ℕ → Bool → Scope → Op W (Run (List (Hit F)))
  unfolding weight_hits fts_scoped recency_pool ◌>>=◌
  keyword_hits query limit false scope = fts_scoped env query limit scope >>= λ hits. pure (ok hits)
  keyword_hits query limit true scope =
      fts_scoped env query (recency_pool limit) scope >>= weight_hits

  unfoldable pub show_hits : Bytes → ℕ → ℕ → List (Hit F) → Op W (Run (List (SearchResult F)))
  unfolding hits_to_results hits_to_sections ◌>>=◌ pure
  show_hits query limit per_file hits =
      if per_file == 1
      then (hits_to_results (take limit hits) >>= λ results. pure (ok results))
      else hits_to_sections hits query limit per_file

  unfoldable pub keyword_search_in :
      Bytes → ℕ → SearchOptions → Scope → Op W (Run (List (SearchResult F)))
  unfolding keyword_hits show_hits ◌>>=◌ pure run_then
  keyword_search_in query limit options (some []) = pure (ok [])
  keyword_search_in query limit options none =
      keyword_hits query limit options.recency none
      >>= run_then (show_hits query limit (clamp_per_file options.per_file))
  keyword_search_in query limit options (some (n ∷ ns)) =
      keyword_hits query limit options.recency (some (n ∷ ns))
      >>= run_then (show_hits query limit (clamp_per_file options.per_file))

  unfoldable pub search_fts_multi_with :
      Bytes → ℕ → Scope → SearchOptions → Op W (Run (List (SearchResult F)))
  unfolding effective_collections keyword_search_in ◌>>=◌
  search_fts_multi_with query limit collections options =
      effective_collections env collections >>= keyword_search_in query limit options
