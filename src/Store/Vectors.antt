-- ===== src/Store/Vectors.antt =====
-- crates/rqmd-core/src/store.rs: the vector search, and the search for documents like one.
use rqmd.Common.{
  ℕ, zero, suc, ◌*◌, Bool, true, false, ◌||◌, Option, none, some, List, [], ◌∷◌, ◌++◌, ltb, ◌==◌,
  if◌then◌else◌, length, take, get_elem?, max,
}
use rqmd.Text.{Bytes, Run, ok, panic, out_of_fuel, bytes_eq}
use rqmd.Chunking.{Chunk}
use rqmd.Rrf.{less, equal, greater, unordered}
use rqmd.Resolve.{Document}
use rqmd.Store.{run_then, Op, pure, ◌>>=◌, Scope, Env}
use rqmd.Store.Sections.{nearest_chunk}
use rqmd.Store.Ordered.{sort_scores}
use rqmd.Store.Picks.{Pick, PickDoc, SearchResult, recency_pool, rank_picks, picks_to_results}
use rqmd.Store.Scope.{filepath_of, effective_collections, widen, or_failed}
use rqmd.Store.Rerank.{body_of}
use rqmd.Store.Recency.{recency_factor}
use rqmd.Store.Search.{SearchOptions, clamp_per_file}

-- An entry of the map `by_doc`: the document of a path, with the similarities and offsets of its matches.
pub record Matched (F : Type 0) : Type 0 where
  pub filepath : Bytes
  pub document : Document
  pub hits : List (F × ℕ)

unfoldable pub add_match :
    {F : Type 0} → Bytes → Document → F × ℕ → List (Matched F) → List (Matched F)
add_match path doc hit [] = record { filepath = path; document = doc; hits = hit ∷ [] } ∷ []
add_match path doc hit (m ∷ ms) =
    let rest = add_match path doc hit ms in
    if bytes_eq m.filepath path then record m { hits = m.hits ++ hit ∷ [] } ∷ ms else m ∷ rest

unfoldable pub add_found :
    {F : Type 0} → Option (Document × ℕ) → F → List (Matched F) → List (Matched F)
unfolding add_match filepath_of
add_found none sim by_doc = by_doc
add_found (some (doc, pos)) sim by_doc = add_match (filepath_of doc) doc (sim, pos) by_doc

-- The matches at an offset that no earlier one has; `seen` holds the offsets before.
unfoldable pub is_seen : ℕ → List ℕ → Bool
is_seen pos [] = false
is_seen pos (q ∷ qs) = q == pos || is_seen pos qs

unfoldable pub retain_new : {F : Type 0} → List ℕ → List (F × ℕ) → List (F × ℕ)
unfolding is_seen
retain_new seen [] = []
retain_new seen (h ∷ hs) =
    let skipped = retain_new seen hs in
    let kept = retain_new (h.1 ∷ seen) hs in if is_seen h.1 seen then skipped else h ∷ kept

-- The documents and the picks so far; `ids` are those of the documents.
pub record Gathered (F : Type 0) : Type 0 where
  pub ids : List ℕ
  pub docs : List PickDoc
  pub picks : List (Pick F)

abbrev pub nothing_gathered : {F : Type 0} → Gathered F
nothing_gathered = record { ids = []; docs = []; picks = [] }

-- The map `chunked`.
unfoldable pub chunks_of : ℕ → List (ℕ × List Chunk) → Option (List Chunk)
chunks_of doc [] = none
chunks_of doc ((d, chunks) ∷ more) =
    let rest = chunks_of doc more in if d == doc then some chunks else rest

unfoldable pub cons_doc : PickDoc → Run (List PickDoc) → Run (List PickDoc)
cons_doc d (ok ds) = ok (d ∷ ds)
cons_doc d panic = panic
cons_doc d out_of_fuel = out_of_fuel

-- The index out of range is a panic.
unfoldable pub put_body : List PickDoc → ℕ → Bytes → Run (List PickDoc)
unfolding cons_doc
put_body [] i body = panic
put_body (d ∷ ds) zero body = ok (record d { body = body } ∷ ds)
put_body (d ∷ ds) (suc i) body = cons_doc d (put_body ds i body)

-- The picks with their chunks, and the documents with their bodies.
pub record Survivors (F : Type 0) : Type 0 where
  pub kept : List (Pick F)
  pub bodies : List PickDoc

unfoldable pub cons_pick : {F : Type 0} → Pick F → Run (Survivors F) → Run (Survivors F)
cons_pick p (ok r) = ok (record r { kept = p ∷ r.kept })
cons_pick p panic = panic
cons_pick p out_of_fuel = out_of_fuel

unfoldable pub with_chunk : {F : Type 0} → Pick F → List Chunk → Pick F
unfolding nearest_chunk
with_chunk p chunks = record p { chunk = nearest_chunk chunks p.chunk.1 }

module _ {W F V X : Type 0} (env : Env W F V X) where
  unfoldable pub group_hits : List (ℕ × F) → Scope → X → List (Matched F) → Op W (List (Matched F))
  unfolding add_found ◌>>=◌ pure
  group_hits [] scope exclusions by_doc = pure by_doc
  group_hits ((vid, sim) ∷ hits) scope exclusions by_doc =
      env.doc_chunk_for_vid vid scope exclusions >>= λ found.
      group_hits hits scope exclusions (add_found found sim by_doc)

  -- What the loop of `search_vec_multi_with` does in a round.
  unfoldable pub document_round : V → Scope → X → ℕ → Op W (List (Matched F))
  unfolding group_hits ◌>>=◌
  document_round embedding scope exclusions k =
      env.hnsw_search embedding k >>= λ hits. group_hits hits scope exclusions []

  -- The order of two matches: the similarity, then the offset. Scores that cannot be compared are equal.
  unfoldable pub match_before : F × ℕ → F × ℕ → Bool
  match_before a b = elim (env.scores.partial_cmp b.0 a.0) [
    | less ↦ true
    | greater ↦ false
    | equal ↦ ltb a.1 b.1
    | unordered ↦ ltb a.1 b.1
  ]

  unfoldable pub sort_matches : List (F × ℕ) → Run (List (F × ℕ))
  unfolding match_before sort_scores
  sort_matches = sort_scores env.scores (λ h. h.0) match_before

  unfoldable pub weighted : Option F → F → F
  weighted none sim = sim
  weighted (some factor) sim = env.times sim factor

  unfoldable pub match_picks : Bytes → ℕ → Option F → ℕ → List (F × ℕ) → List (Pick F)
  unfolding weighted
  match_picks filepath doc factor rank [] = []
  match_picks filepath doc factor rank ((sim, pos) ∷ hits) =
      record {
        filepath = filepath;
        doc = doc;
        rank = rank;
        score = weighted factor sim;
        chunk = ([], pos);
      }
      ∷ match_picks filepath doc factor (suc rank) hits

  unfoldable pub factor_of : ℕ → Bool → Bytes → Op W (Option F)
  unfolding recency_factor ◌>>=◌ pure
  factor_of now false filepath = pure none
  factor_of now true filepath = recency_factor env now filepath >>= λ factor. pure (some factor)

  -- The document and its picks, from its sorted matches.
  unfoldable pub add_sorted :
      ℕ → Matched F → Option F → Gathered F → Run (List (F × ℕ)) → Run (Gathered F)
  unfolding retain_new match_picks
  add_sorted per_file m factor g panic = panic
  add_sorted per_file m factor g out_of_fuel = out_of_fuel
  add_sorted per_file m factor g (ok hits) = ok (record {
    ids = g.ids ++ m.document.id ∷ [];
    docs = g.docs ++ record { title = m.document.title; hash = m.document.hash; body = [] } ∷ [];
    picks =
        g.picks
        ++ match_picks m.filepath (length g.docs) factor 0 (take per_file (retain_new [] hits));
  })

  unfoldable pub gather : ℕ → Matched F → Option F → Gathered F → Run (Gathered F)
  unfolding sort_matches add_sorted
  gather per_file m factor g = add_sorted per_file m factor g (sort_matches m.hits)

  unfoldable pub gather_all : ℕ → ℕ → Bool → List (Matched F) → Gathered F → Op W (Run (Gathered F))
  unfolding factor_of gather run_then ◌>>=◌ pure
  gather_all now per_file recency [] g = pure (ok g)
  gather_all now per_file recency (m ∷ ms) g = factor_of now recency m.filepath >>= λ factor.
      run_then (gather_all now per_file recency ms) (gather per_file m factor g)

  -- All documents, at the time of the clock.
  unfoldable pub gather_now : ℕ → Bool → List (Matched F) → Op W (Run (Gathered F))
  unfolding gather_all
  gather_now per_file recency ms w = gather_all (env.now w) per_file recency ms nothing_gathered w

  -- The loop over the survivors. An index out of range is a panic; `ids` and `docs` have the same length.
  unfoldable pub read_survivors :
      List ℕ → List (Pick F) → List (ℕ × List Chunk) → List PickDoc → Op W (Run (Survivors F))
  unfolding chunks_of put_body cons_pick with_chunk body_of run_then ◌>>=◌ pure
  read_survivors ids [] chunked docs = pure (ok (record { kept = []; bodies = docs }))
  read_survivors ids (p ∷ ps) chunked docs = elim (chunks_of p.doc chunked) [
    | some chunks ↦
        read_survivors ids ps chunked docs >>= λ rest. pure (cons_pick (with_chunk p chunks) rest)
    | none ↦ elim (get_elem? ids p.doc) [
      | none ↦ pure panic
      | some id ↦ env.document_raw id >>= λ raw.
          let chunks = env.chunk_document_for_path p.filepath (body_of env raw) in
          run_then
            (λ bodies. read_survivors ids ps ((p.doc, chunks) ∷ chunked) bodies >>= λ rest.
              pure (cons_pick (with_chunk p chunks) rest))
            (put_body docs p.doc (body_of env raw))
    ]
  ]

  unfoldable pub show_survivors : Run (Survivors F) → Op W (Run (List (SearchResult F)))
  unfolding picks_to_results pure
  show_survivors panic w = pure panic w
  show_survivors out_of_fuel w = pure out_of_fuel w
  show_survivors (ok r) w =
      pure
        (picks_to_results (λ collection path. env.context_for_path collection path w) r.bodies
          r.kept)
        w

  unfoldable pub show_ranked : Gathered F → List (Pick F) → Op W (Run (List (SearchResult F)))
  unfolding read_survivors show_survivors ◌>>=◌
  show_ranked g picks = read_survivors g.ids picks [] g.docs >>= show_survivors

  unfoldable pub show_gathered : ℕ → Gathered F → Op W (Run (List (SearchResult F)))
  unfolding rank_picks show_ranked run_then
  show_gathered limit g = run_then (show_ranked g) (rank_picks env.scores g.picks limit)

  abbrev pub wanted_files : ℕ → Bool → ℕ
  wanted_files limit recency = if recency then recency_pool limit else limit

  -- `iterate` is the order in which the map is walked.
  module _ (iterate : List (Matched F) → List (Matched F)) where
    unfoldable pub vector_search_in :
        Bytes → ℕ → SearchOptions → Scope → Op W (Run (List (SearchResult F)))
    unfolding document_round widen or_failed gather_now show_gathered recency_pool run_then ◌>>=◌
        pure
    vector_search_in query limit options scope = env.embed_query query >>= λ embedding w.
        (env.load_exclusions >>= λ exclusions.
        widen (document_round embedding scope exclusions) length
          (wanted_files limit options.recency) (env.hnsw_size w) (suc (suc (env.hnsw_size w)))
          (max (limit * 4) 1)
        >>= or_failed
        >>= λ by_doc.
            gather_now (clamp_per_file options.per_file) options.recency (iterate by_doc)
            >>= run_then (show_gathered limit))
          w

    unfoldable pub vector_search_scoped :
        Bytes → ℕ → SearchOptions → Scope → Op W (Run (List (SearchResult F)))
    unfolding vector_search_in pure
    vector_search_scoped query limit options (some []) = pure (ok [])
    vector_search_scoped query limit options none = vector_search_in query limit options none
    vector_search_scoped query limit options (some (n ∷ ns)) =
        vector_search_in query limit options (some (n ∷ ns))

    unfoldable pub search_vec_multi_with :
        Bytes → ℕ → Scope → SearchOptions → Op W (Run (List (SearchResult F)))
    unfolding effective_collections vector_search_scoped ◌>>=◌
    search_vec_multi_with query limit collections options =
        effective_collections env collections >>= vector_search_scoped query limit options
