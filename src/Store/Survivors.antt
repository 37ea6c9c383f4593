-- ===== src/Store/Survivors.antt =====
-- What the vector search returns.
use rqmd.Common.{
  ℕ, zero, suc, ◌≤◌, ◌<◌, ◌≡◌, refl, sym, ap, ◌∙◌, Bool, Option, none, some, List, [], ◌∷◌, arith,
  length, length-append, get_elem?-lt, Option-cases, inl, inr, subst, ◌++◌, take, sort_by,
}
use rqmd.Text.{Bytes, Run, ok}
use rqmd.Chunking.{Chunk}
use rqmd.Store.Ordered.{AreNumbers, sort_scores-AreNumbers}
use rqmd.Store.{Ran, Ensures-run_then, pure, Ensures, Ensures-bind, Scope, Env}
use rqmd.Store.Scope.{effective_collections}
use rqmd.Store.Picks.{Pick, PickDoc, rank_picks}
use rqmd.Store.Below.{BelowDocs, rank_picks-Ranked, IsWithin, picks_to_results-IsWithin}
use rqmd.Store.Lockstep.{behind_any}
use rqmd.Store.Rerank.{body_of}
use rqmd.Store.Search.{SearchOptions, clamp_per_file}
use rqmd.Store.Vectors.{
  Matched, Gathered, nothing_gathered, match_picks, gather, gather_all, gather_now, factor_of,
  match_before, sort_matches, add_sorted, retain_new, cons_doc, show_ranked, chunks_of, put_body,
  Survivors, cons_pick, with_chunk, read_survivors, show_survivors, show_gathered, vector_search_in,
  vector_search_scoped, search_vec_multi_with,
}
use rqmd.Store.Below.{BelowDocs-append_doc}

module _ {W F V X : Type 0} (env : Env W F V X) (numbers : AreNumbers env.scores) where
  -- The documents of a vector search have their ids.
  record InGathered (g : Gathered F) : Type 0 where
    same : length g.ids ≡ length g.docs
    below : BelowDocs (length g.docs) g.picks

  BelowDocs-match_picks :
      (filepath : Bytes) (doc : ℕ) (factor : Option F) (rank : ℕ) (hits : List (F × ℕ)) (n : ℕ)
      → doc < n
      → BelowDocs n (match_picks env filepath doc factor rank hits)
  unfolding match_picks
  BelowDocs-match_picks filepath doc factor rank [] n h = tt
  BelowDocs-match_picks filepath doc factor rank (x ∷ hits) n h =
      (h, BelowDocs-match_picks filepath doc factor (suc rank) hits n h)

  added-InGathered :
      (per_file : ℕ) (m : Matched F) (factor : Option F) (g : Gathered F) (sorted : List (F × ℕ))
      → InGathered g
      → InGathered (record {
        ids = g.ids ++ m.document.id ∷ [];
        docs =
            g.docs ++ record { title = m.document.title; hash = m.document.hash; body = [] } ∷ [];
        picks =
            g.picks
            ++ match_picks env m.filepath
                (length g.docs)
                factor
                0
                (take per_file (retain_new [] sorted));
      })
  added-InGathered per_file m factor g sorted h = record {
    same = omega (
      arith,
      h.same,
      length-append g.ids (m.document.id ∷ []),
      length-append g.docs
          (record { title = m.document.title; hash = m.document.hash; body = [] } ∷ []),
    );
    below =
        BelowDocs-append_doc g.docs _ g.picks _ h.below
          (BelowDocs-match_picks m.filepath (length g.docs) factor 0 _ _ (omega arith));
  }

  gather-InGathered :
      (per_file : ℕ) (m : Matched F) (factor : Option F) (g : Gathered F)
      → InGathered g
      → Ran InGathered (gather env per_file m factor g)
  unfolding gather sort_matches add_sorted
  gather-InGathered per_file m factor g h =
      let sorted = sort_by (match_before env) m.hits in
      (
        record {
          ids = g.ids ++ m.document.id ∷ [];
          docs =
              g.docs ++ record { title = m.document.title; hash = m.document.hash; body = [] } ∷ [];
          picks =
              g.picks
              ++ match_picks env m.filepath (length g.docs) factor 0
                  (take per_file (retain_new [] sorted));
        },
        rw (sort_scores-AreNumbers env.scores numbers (λ x. x.0) (match_before env) m.hits) refl,
        added-InGathered per_file m factor g sorted h,
      )

  gather_all-InGathered :
      (now per_file : ℕ) (recency : Bool) (ms : List (Matched F)) (g : Gathered F)
      → InGathered g
      → Ensures (Ran InGathered) (gather_all env now per_file recency ms g)
  unfolding gather_all pure
  gather_all-InGathered now per_file recency [] g h = λ w. (g, refl, h)
  gather_all-InGathered now per_file recency (m ∷ ms) g h =
      behind_any (Ran InGathered) (factor_of env now recency m.filepath) _ (λ factor.
        Ensures-run_then InGathered (Ran InGathered) _ (gather env per_file m factor g)
          (gather-InGathered per_file m factor g h) (gather_all-InGathered now per_file recency ms))

  gather_now-InGathered :
      (per_file : ℕ) (recency : Bool) (ms : List (Matched F))
      → Ensures (Ran InGathered) (gather_now env per_file recency ms)
  unfolding gather_now
  gather_now-InGathered per_file recency ms w =
      gather_all-InGathered (env.now w) per_file recency ms nothing_gathered
        (record { same = refl; below = tt }) w

  put_body-lt :
      (ds : List PickDoc) (i : ℕ) (body : Bytes)
      → i < length ds
      → Ran (λ bodies. length bodies ≡ length ds) (put_body ds i body)
  unfolding put_body cons_doc
  put_body-lt [] i body h = absurd (omega (arith, h))
  put_body-lt (d ∷ ds) zero body h = (record d { body = body } ∷ ds, refl, refl)
  put_body-lt (d ∷ ds) (suc i) body h =
      let (bodies, e, n) = put_body-lt ds i body (omega (arith, h)) in
      (d ∷ bodies, rw (e, cons_doc) refl, ap suc n)

  -- The survivors are `count` picks of `docs` documents.
  record Survived (count docs : ℕ) (r : Run (Survivors F)) : Type 0 where
    survivors : Survivors F
    ran : r ≡ ok survivors
    kept_all : length survivors.kept ≡ count
    same_docs : length survivors.bodies ≡ docs
    below_docs : BelowDocs docs survivors.kept

  Survived-cons_pick :
      (p : Pick F) (chunks : List Chunk) (n d : ℕ) (r : Run (Survivors F))
      → p.doc < d
      → Survived n d r
      → Survived (suc n) d (cons_pick (with_chunk p chunks) r)
  unfolding cons_pick with_chunk
  Survived-cons_pick p chunks n d r l h = record {
    survivors = record {
      kept = with_chunk p chunks ∷ h.survivors.kept;
      bodies = h.survivors.bodies;
    };
    ran = rw (h.ran, cons_pick) refl;
    kept_all = ap suc h.kept_all;
    same_docs = h.same_docs;
    below_docs = (l, h.below_docs);
  }

  read_survivors-Survived :
      (ids : List ℕ) (ps : List (Pick F)) (chunked : List (ℕ × List Chunk)) (docs : List PickDoc)
      (d : ℕ)
      → length ids ≡ d
      → length docs ≡ d
      → BelowDocs d ps
      → Ensures (Survived (length ps) d) (read_survivors env ids ps chunked docs)
  unfolding read_survivors pure
  read_survivors-Survived ids [] chunked docs d e q h = λ w. record {
    survivors = record { kept = []; bodies = docs };
    ran = refl;
    kept_all = refl;
    same_docs = q;
    below_docs = tt;
  }
  read_survivors-Survived ids (p ∷ ps) chunked docs d e q (l, h) =
      elim (Option-cases (chunks_of p.doc chunked)) [
        | inl missing ↦
            let (id, found) = get_elem?-lt p.doc ids (omega (arith, e, l)) in
            rw (missing, found, read_survivors)
              (behind_any (Survived (suc (length ps)) d) (env.document_raw id) _ (λ raw.
                let chunks = env.chunk_document_for_path p.filepath (body_of env raw) in
                Ensures-run_then (λ bodies. length bodies ≡ length docs)
                  (Survived (suc (length ps)) d) _ (put_body docs p.doc (body_of env raw))
                  (put_body-lt docs p.doc (body_of env raw) (omega (arith, q, l)))
                  (λ bodies same.
                    Ensures-bind (Survived (length ps) d) (Survived (suc (length ps)) d) _ _
                      (read_survivors-Survived ids ps ((p.doc, chunks) ∷ chunked) bodies d e
                        (same ∙ q) h)
                      (λ r k w. Survived-cons_pick p chunks (length ps) d r l k))))
        | inr (chunks, found) ↦
            rw (found, read_survivors)
              (Ensures-bind (Survived (length ps) d) (Survived (suc (length ps)) d) _ _
                (read_survivors-Survived ids ps chunked docs d e q h)
                (λ r k w. Survived-cons_pick p chunks (length ps) d r l k))
      ]

  module _ (limit : ℕ) where
    show_survivors-IsWithin :
        (n d : ℕ) (r : Run (Survivors F))
        → n ≤ limit
        → Survived n d r
        → Ensures (IsWithin limit) (show_survivors env r)
    unfolding show_survivors pure
    show_survivors-IsWithin n d r l h =
        rw (h.ran, show_survivors)
          (λ w.
            picks_to_results-IsWithin (λ collection path. env.context_for_path collection path w)
              h.survivors.bodies h.survivors.kept limit
              (subst (λ k. BelowDocs k h.survivors.kept) (sym h.same_docs) h.below_docs)
              (omega (arith, h.kept_all, l)))

    show_gathered-IsWithin :
        (g : Gathered F) → InGathered g → Ensures (IsWithin limit) (show_gathered env limit g)
    unfolding show_gathered show_ranked
    show_gathered-IsWithin g h =
        Ensures-run_then (λ ps. BelowDocs (length g.docs) ps × (length ps ≤ limit)) (IsWithin limit)
          _ (rank_picks env.scores g.picks limit)
          (rank_picks-Ranked env.scores numbers (length g.docs) limit g.picks h.below)
          (λ picks (there, short).
            Ensures-bind (Survived (length picks) (length g.docs)) (IsWithin limit) _ _
              (read_survivors-Survived g.ids picks [] g.docs (length g.docs) h.same refl there)
              (λ r k. show_survivors-IsWithin (length picks) (length g.docs) r short k))

    module _ (iterate : List (Matched F) → List (Matched F)) where
      vector_search_in-IsWithin :
          (query : Bytes) (options : SearchOptions) (scope : Scope)
          → Ensures (IsWithin limit) (vector_search_in env iterate query limit options scope)
      unfolding vector_search_in
      vector_search_in-IsWithin query options scope =
          behind_any (IsWithin limit) (env.embed_query query) _ (λ embedding w.
            behind_any (IsWithin limit) env.load_exclusions _
              (λ exclusions. behind_any (IsWithin limit) _ _ (λ by_doc.
                Ensures-bind (Ran InGathered) (IsWithin limit)
                  (gather_now env (clamp_per_file options.per_file) options.recency
                    (iterate by_doc))
                  _
                  (gather_now-InGathered (clamp_per_file options.per_file) options.recency
                    (iterate by_doc))
                  (λ r h.
                    Ensures-run_then InGathered (IsWithin limit) _ r h show_gathered-IsWithin)))
              w)

      vector_search_scoped-IsWithin :
          (query : Bytes) (options : SearchOptions) (scope : Scope)
          → Ensures (IsWithin limit) (vector_search_scoped env iterate query limit options scope)
      unfolding vector_search_scoped pure
      vector_search_scoped-IsWithin query options (some []) = λ w. ([], refl, omega arith)
      vector_search_scoped-IsWithin query options none =
          vector_search_in-IsWithin query options none
      vector_search_scoped-IsWithin query options (some (n ∷ ns)) =
          vector_search_in-IsWithin query options (some (n ∷ ns))

      pub search_vec_multi_with-IsWithin :
          (query : Bytes) (collections : Scope) (options : SearchOptions)
          → Ensures
              (IsWithin limit)
              (search_vec_multi_with env iterate query limit collections options)
      unfolding search_vec_multi_with
      search_vec_multi_with-IsWithin query collections options =
          behind_any (IsWithin limit) (effective_collections env collections) _
            (vector_search_scoped-IsWithin query options)
